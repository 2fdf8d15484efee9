-- ===== src/Agent/Graph/Handing.antt =====
-- Whom a run hands the question to, and whom it asks back: agent/graph.py.
use mathlib.Core.Path.{subst}
use tekijin.Prelude.{
  ◌≡◌, ◌≢◌, refl, true, false, none, some, List, [], ◌∷◌, arith, elem, is_id, is_nonempty,
}
use tekijin.Scorer.{ScoredCandidate, ids}
use tekijin.Agent.State.{AgentState, Reply}
use tekijin.Agent.Deps.{Deps}
use tekijin.Agent.Pick.{asker_id}
use tekijin.Agent.Handoff
use tekijin.Agent.Handoff.{draft_for}
use tekijin.Agent.Nodes.{ok, raise, index_error}
use tekijin.Agent.Graph.{Node, ask, c7_draft, step, is_document, Reach}
use tekijin.Agent.Graph.Safety.{IsSound, HasExpert, Post, step-Post, Reach-IsGood}

-- The top of the shortlist is a person who may be asked.
pub record IsHandable (s : AgentState) (top : ScoredCandidate) : Type 0 where
  pub not_declined : elem top.person_id s.declined_ids ≡ false
  pub not_asker : is_id (asker_id s.asker) top.person_id ≡ false
  pub off_document : is_document s.routing.route ≡ false

pub handable :
    (s : AgentState) (recs : List ScoredCandidate)
    → s.recommendations ≡ recs
    → IsSound s
    → HasExpert s
    → (top : ScoredCandidate) × (rest : List ScoredCandidate) × (s.recommendations ≡ top ∷ rest)
      × IsHandable s top
handable s [] e sound expert = absurd (ground (arith, expert.someone))
handable s (top ∷ rest) e sound expert =
    let shown : elem top.person_id (ids s.recommendations) ≡ true = ground arith in
    let (clear, other) = sound.shortlist.allowed top.person_id shown in
    (top, rest, e, record { not_declined = clear; not_asker = other; off_document = expert.handed })

draft_for-ok :
    (d : Deps) (s : AgentState) (recs : List ScoredCandidate)
    → is_nonempty recs ≡ true
    → (t : AgentState) × (draft_for d s recs ≡ ok t) × (t.draft ≢ none)
unfolding draft_for
draft_for-ok d s [] h = cc
draft_for-ok d s (top ∷ rest) h = (_, refl, λ e. cc)

-- Whenever a run comes to `c7_draft`, its first row is there: a draft is written and nothing raised.
pub Reach-c7_draft :
    {d : Deps} {s : AgentState}
    → Reach d (some c7_draft) s
    → (t : AgentState) × (Handoff.c7_draft d s ≡ ok t) × (t.draft ≢ none)
unfolding Handoff.c7_draft
Reach-c7_draft {d} {s} r = draft_for-ok d s s.recommendations (Reach-IsGood r).1.someone

-- No step of a run raises `IndexError`, whatever people reply.
pub Reach-no_index_error :
    {d : Deps} {n : Node} {s : AgentState} (reply : Reply)
    → Reach d (some n) s
    → step d n s reply ≢ raise index_error
Reach-no_index_error {d} {n} {s} reply r e =
    subst (Post d) e (step-Post d n s reply (Reach-IsGood r)) refl

-- A run asks the asker back at most once: at `ask` no clarification was asked before.
pub Reach-ask : {d : Deps} {s : AgentState} → Reach d (some ask) s → s.followup_count ≡ 0
Reach-ask r = (Reach-IsGood r).1
