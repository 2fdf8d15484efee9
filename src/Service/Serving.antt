-- ===== src/Service/Serving.antt =====
-- The saved states of all sessions under the requests of api/service.py.
pub mod Resting
pub mod Streamed
pub mod Moving
pub mod Driven
pub mod Waiting
use tekijin.Prelude.{
  ℕ, ◌≡◌, refl, sym, String, Bool, true, false, Option, none, some, List, [], ◌∷◌, arith,
  if◌then◌else◌, AllOf, AllOf-put, AllOf-find,
}
use mathlib.Core.Path.{subst}
use tekijin.Agent.{AgentState}
use tekijin.Agent.Deps.{Deps}
use tekijin.Agent.Graph.{
  Node, reset, ask, answerability, c7_draft, send, c6_score, next, exec, step, then_next,
}
use tekijin.Agent.Graph.Safety.{IsSound, HasExpert, IsGoodNext}
use tekijin.Service.State.{Service, Checkpoint, Env, checkpoint_of}
use tekijin.Service.State

-- What the requests on a state that they do not move leave alone.
pub record IsSame (s t : AgentState) : Type 0 where
  pub asker : t.asker ≡ s.asker
  pub declined : t.declined_ids ≡ s.declined_ids
  pub shown : t.recommendations ≡ s.recommendations
  pub asked : t.followup_count ≡ s.followup_count
  pub routing : t.routing ≡ s.routing
  pub verdict : t.verdict ≡ s.verdict

module _ {s t : AgentState} (e : IsSame s t) where
  IsSound-same : IsSound s → IsSound t
  IsSound-same g = record {
    shortlist = rw (e.asker, e.declined, e.shown) g.shortlist;
    once = rw e.asked g.once;
    declined_once = rw e.declined g.declined_once;
  }

  HasExpert-same : HasExpert s → HasExpert t
  HasExpert-same g = record { someone = rw e.shown g.someone; handed = rw e.routing g.handed }

  pub IsGoodNext-same : (d : Deps) (m : Option Node) → IsGoodNext d m s → IsGoodNext d m t
  IsGoodNext-same d none g = IsSound-same g
  IsGoodNext-same d (some reset) g = tt
  IsGoodNext-same d (some ask) g = (IsSound-same g.0, rw e.asked g.1)
  IsGoodNext-same d (some answerability) g = (IsSound-same g.0, HasExpert-same g.1, g.2)
  IsGoodNext-same d (some c7_draft) g = (IsSound-same g.0, HasExpert-same g.1, rw e.verdict g.2)
  IsGoodNext-same d (some send) g = (IsSound-same g.0, HasExpert-same g.1, rw e.verdict g.2)
  IsGoodNext-same d (some _) g = IsSound-same g

-- A saved state is as the graph leaves it.
abbrev pub IsGoodCheckpoint : Deps → Checkpoint → Type 0
IsGoodCheckpoint d c = IsGoodNext d c.next c.values

abbrev pub IsServing : Deps → Service → Type 0
IsServing d svc = AllOf (IsGoodCheckpoint d) svc.checkpoints

pub IsServing-save :
    (d : Deps) (svc : Service) (session_id : String) (c : Checkpoint)
    → IsGoodCheckpoint d c
    → IsServing d svc
    → IsServing d (State.save session_id c svc)
IsServing-save d svc session_id c g h =
    AllOf-put (IsGoodCheckpoint d) session_id c svc.checkpoints g h

pub IsServing-at :
    (d : Deps) (svc : Service) (session_id : String) {c : Checkpoint}
    → IsServing d svc
    → checkpoint_of svc session_id ≡ some c
    → IsGoodCheckpoint d c
IsServing-at d svc session_id h e = AllOf-find (IsGoodCheckpoint d) session_id svc.checkpoints e h
