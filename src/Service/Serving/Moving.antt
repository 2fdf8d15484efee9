-- ===== src/Service/Serving/Moving.antt =====
-- The requests of api/service.py that move a run, or change its shortlist: what they save keeps
-- its order.
use tekijin.Prelude.{
  ℕ, ◌≡◌, refl, sym, String, Bool, true, false, Option, none, some, List, ◌∷◌, arith, if◌then◌else◌,
  length, ◌==◌, is_some, is_nonempty, inl, inr, Bool-cases,
}
use mathlib.Core.Path.{subst}
use tekijin.Scorer.{ScoredCandidate}
use tekijin.Agent.{AgentState}
use tekijin.Agent.Deps.{Deps}
use tekijin.Agent.Graph.{Node, send, c6_score, next, critique_wired, after_c6, handoff_target}
use tekijin.Agent.Graph.Safety.{IsSound, HasExpert, IsGood, IsGoodNext}
use tekijin.Service.State.{
  Service, Checkpoint, Env, Attempt, accept, ServiceError, session_conflict, session_invalid,
  handoff_not_found, checkpoint_of,
}
use tekijin.Service.Draft.{
  HandoffSelectResponse, index_of, pop, reselected, redraft, select_as, select_both, select_at,
  select_handoff_candidate, no_selection,
}
use tekijin.Service.Fallback.{
  reopened_values, fallback_values, reject_if, reopen, reopen_saved, request_document_fallback,
  touch,
}
use tekijin.Service.Rules.{proceed-keeps, on_handoff-keeps}
use tekijin.Service.Picked.{IsReordered, pop-IsReordered, IsReordered-IsClean}
use tekijin.Service.Serving.{IsGoodCheckpoint, IsServing, IsServing-save, IsServing-at}

abbrev Selects : Deps → Service × Attempt HandoffSelectResponse → Type 0
Selects d r = IsServing d r.0

reselected-IsGood :
    (d : Deps) (s : AgentState) (top : ScoredCandidate) (recs : List ScoredCandidate) (id : ℕ)
    (ids : List ℕ) (draft : String)
    → IsReordered s.recommendations (top ∷ recs)
    → IsGood d send s
    → IsGood d send (reselected s top recs id ids draft)
unfolding reselected
reselected-IsGood d s top recs id ids draft r (sound, expert, passed) = (
  record {
    shortlist = IsReordered-IsClean r sound.shortlist;
    once = sound.once;
    declined_once = sound.declined_once;
  },
  record { someone = refl; handed = expert.handed },
  passed,
)

select_both-Selects :
    (d : Deps) (env : Env) (session_id : String) (c : Checkpoint)
    (rows : Option (ScoredCandidate × List ScoredCandidate)) (keys : Option (ℕ × List ℕ))
    (svc : Service)
    → ((top : ScoredCandidate) (recs : List ScoredCandidate)
        → rows ≡ some (top, recs)
        → IsReordered c.values.recommendations (top ∷ recs))
    → c.next ≡ some send
    → IsGood d send c.values
    → IsServing d svc
    → Selects d (select_both env session_id c rows keys svc)
unfolding select_both select_as
select_both-Selects d env session_id c none keys svc r e g h = h
select_both-Selects d env session_id c (some rows) none svc r e g h = h
select_both-Selects d env session_id c (some (top, recs)) (some (id, ids)) svc r e g h =
    choose (length ids == length recs)
  where
    draft : String
    draft = redraft env.deps c.values top

    good : IsGoodNext d c.next (reselected c.values top recs id ids draft)
    good =
        subst (λ m. IsGoodNext d m (reselected c.values top recs id ids draft)) (sym e)
          (reselected-IsGood d c.values top recs id ids draft (r top recs refl) g)

    choose :
        (b : Bool)
        → Selects d
            (if b then select_as env session_id c (top, recs) (id, ids) svc else no_selection svc)
    choose true =
        IsServing-save d svc session_id
          (record c { values = reselected c.values top recs id ids draft }) good h
    choose false = h

select_at-Selects :
    (d : Deps) (env : Env) (session_id : String) (c : Checkpoint) (index : Option ℕ) (svc : Service)
    → c.next ≡ some send
    → IsGood d send c.values
    → IsServing d svc
    → Selects d (select_at env session_id c index svc)
unfolding select_at
select_at-Selects d env session_id c none svc e g h = h
select_at-Selects d env session_id c (some index) svc e g h =
    select_both-Selects d env session_id c (pop index c.values.recommendations)
      (pop index c.values.persistence.recommendation_ids) svc
      (λ top recs e'. pop-IsReordered index c.values.recommendations e') e g h

pub select_handoff_candidate-IsServing :
    (d : Deps) (env : Env) (session_id : String) (who : ℕ) (svc : Service)
    → IsServing d svc
    → IsServing d (select_handoff_candidate env session_id who svc).0
unfolding select_handoff_candidate
select_handoff_candidate-IsServing d env session_id who svc h =
    on_handoff-keeps (IsServing d) svc session_id
      (λ c. select_at env session_id c (index_of who c.values.recommendations) svc) h
      (λ c parked.
        select_at-Selects d env session_id c (index_of who c.values.recommendations) svc
          parked.parked
          (subst (λ m. IsGoodNext d m c.values) parked.parked
            (IsServing-at d svc session_id h parked.saved))
          h)

-- What the guards of the document fallback let pass.
pub record IsReopenable (c : Checkpoint) (s : AgentState) : Type 0 where
  pub ended : c.next ≡ none
  pub someone : is_nonempty c.values.recommendations ≡ true
  pub reopened : s ≡ reopened_values c.values

passed {ℓ} :
    {A : Type ℓ} (b : Bool) (e : ServiceError) (rest : Attempt A) {a : A}
    → reject_if b e rest ≡ accept a
    → (b ≡ false) × (rest ≡ accept a)
unfolding reject_if
passed true e rest h = cc
passed false e rest h = (refl, h)

none_of : (m : Option Node) → is_some m ≡ false → m ≡ none
none_of none e = refl
none_of (some n) e = ground arith

accept-inj : {s t : AgentState} → accept s ≡ accept t → s ≡ t
accept-inj e = cc

pub fallback_values-accept :
    (c : Checkpoint) {s : AgentState} → fallback_values c ≡ accept s → IsReopenable c s
unfolding fallback_values
fallback_values-accept c {s} e =
    let (parked, e1) = passed (is_some c.next) session_conflict _ e in
    let (document, e2) = passed _ handoff_not_found _ e1 in
    let (asked, e3) = passed _ handoff_not_found _ e2 in
    let (grounded, e4) = passed _ handoff_not_found _ e3 in
    let (shown, e5) = passed _ session_invalid _ e4 in
    let (offered, e6) = passed _ session_invalid _ e5 in
    let (told, e7) = passed _ handoff_not_found _ e6 in
    record {
      ended = none_of c.next parked;
      someone = ground (arith, shown);
      reopened = sym (accept-inj e7);
    }

reopened-IsGood :
    (d : Deps) (s : AgentState)
    → is_nonempty s.recommendations ≡ true
    → IsSound s
    → IsGoodNext d (next d c6_score (reopened_values s)) (reopened_values s)
unfolding next after_c6 handoff_target reopened_values
reopened-IsGood d s shown g =
    let sound : IsSound (reopened_values s) = record {
      shortlist = g.shortlist;
      once = g.once;
      declined_once = g.declined_once;
    } in
    let expert : HasExpert (reopened_values s) = record { someone = shown; handed = refl } in
    elim (Bool-cases (critique_wired d)) [
      | inl e ↦ rw (shown, e) (sound, expert, e)
      | inr e ↦ rw (shown, e) (sound, expert, λ e'. cc)
    ]

reopen_saved-IsServing :
    (env : Env) (session_id : String) (svc : Service) (saved : Option Checkpoint)
    → ((c : Checkpoint) → saved ≡ some c → IsGoodCheckpoint env.deps c)
    → IsServing env.deps svc
    → IsServing env.deps (reopen_saved env session_id svc saved).0
unfolding reopen_saved reopen touch
reopen_saved-IsServing env session_id svc none g h = h
reopen_saved-IsServing env session_id svc (some c) g h =
    proceed-keeps (IsServing env.deps) svc (fallback_values c) (reopen env session_id svc) h (λ s e.
      let found = fallback_values-accept c e in
      let good : IsSound c.values =
        subst (λ m. IsGoodNext env.deps m c.values) found.ended (g c refl) in
      rw (found.reopened) (
        IsServing-save env.deps svc session_id _
          (reopened-IsGood env.deps c.values found.someone good) h))

pub request_document_fallback-IsServing :
    (env : Env) (session_id : String) (svc : Service)
    → IsServing env.deps svc
    → IsServing env.deps (request_document_fallback env session_id svc).0
unfolding request_document_fallback
request_document_fallback-IsServing env session_id svc h =
    reopen_saved-IsServing env session_id svc (checkpoint_of svc session_id)
      (λ c e. IsServing-at env.deps svc session_id h e) h
