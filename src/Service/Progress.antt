-- ===== src/Service/Progress.antt =====
-- A hand-off that waits for an outcome can always go on: api/service.py, `submit_resume`.
use tekijin.Prelude.{
  ℕ, ◌≡◌, refl, ◌∙◌, String, Bool, true, false, ◌&&◌, Option, none, some, List, ◌∷◌, arith,
  if◌then◌else◌, is_some, str_eq, is_text, or_empty, any, elem, find-put_same,
}
use tekijin.Scorer.{ScoredCandidate}
use tekijin.Agent.{AgentState, asker_id}
use tekijin.Agent.Graph.{send}
use tekijin.Store.{
  Database, Recommendation, row_at, recommendation_outcome, recommendation_employee_id,
  set_recommendation_outcome, mark_question_resolved, question_consult_method, create_message,
  guard, is_recommendation, is_pending, outcome_values,
}
use tekijin.Store.{any-update}
use tekijin.Store.Newest.{row_at-any}
use tekijin.Store.Integrity.{IsConsistent}
use tekijin.Service.State.{
  Service, Checkpoint, Env, Attempt, Done, accept, refuse, checkpoint_of, is_queued, queue, resume,
}
use tekijin.Service.Outcome.{
  Seeded, posted, seed_thread, settle_accepted, settle, Recorded, committed, record_fresh,
  record_after, record_on, record_outcome, resolve_primary,
}
use tekijin.Service.Requests.{
  Resume, submit_resume, resume_saved, resume_at, resume_node, with_outcome, captured, commit,
  proceed,
}
use tekijin.Service.Binding.{resolve_primary-IsTheirRow}

abbrev pub is_accepted {ℓ} : {A : Type ℓ} → Attempt A → Bool
is_accepted (accept a) = true
is_accepted (refuse e) = false

if-is_some :
    {A : Type 0} (b : Bool) (x y : Option A)
    → is_some x ≡ true
    → is_some y ≡ true
    → is_some (if b then x else y) ≡ true
if-is_some true x y h k = h
if-is_some false x y h k = k

abbrev IsKnown : Database → Option ℕ → Type 0
IsKnown db asker = (a : ℕ) → asker ≡ some a → elem a db.employees ≡ true

posted-is_some :
    (db after : Database) (primary : ℕ) (draft : String)
    → (b : Bool) → b ≡ true
    → is_some (posted primary draft (guard b after)) ≡ true
posted-is_some db after primary draft true e = refl
posted-is_some db after primary draft false e = ground arith

seed_thread-is_some :
    (env : Env) (db : Database) (primary : ℕ) (draft : String) (asker : Option ℕ)
    → any (is_recommendation primary) db.recommendations ≡ true
    → IsKnown db asker
    → is_some (seed_thread env db primary draft asker) ≡ true
unfolding seed_thread create_message
seed_thread-is_some env db primary draft none here known = refl
seed_thread-is_some env db primary draft (some asker) here known =
    if-is_some (is_text draft) _ _
      (posted-is_some db _ primary draft
        (any (is_recommendation primary) db.recommendations && elem asker db.employees)
        (ground (arith, known asker refl)))
      refl

settle-is_some :
    (env : Env) (db : Database) (s : AgentState) (primary : ℕ) (outcome : String)
    (question_id : Option String)
    → ((id : String)
        → question_id ≡ some id
        → any (is_recommendation primary) db.recommendations ≡ true)
    → IsKnown db (asker_id s.asker)
    → is_some (settle env db s primary outcome question_id) ≡ true
unfolding settle settle_accepted mark_question_resolved
settle-is_some env db s primary outcome none here known = refl
settle-is_some env db s primary outcome (some id) here known =
    let after = mark_question_resolved db id env.now.micros in
    if-is_some (str_eq outcome "accepted") _ _
      (if-is_some (str_eq (question_consult_method after (some id)) "direct") _ _ refl (
        seed_thread-is_some env after primary (env.deps.strip (or_empty s.draft)) (asker_id s.asker)
          (here id refl) known))
      refl

committed-is_accepted :
    (o : Option Seeded) (outcome : String)
    → is_some o ≡ true
    → is_accepted (committed o outcome) ≡ true
unfolding committed
committed-is_accepted none outcome h = ground arith
committed-is_accepted (some (db, scheduled)) outcome h = refl

module _ (env : Env) (db : Database) (s : AgentState) (row : ℕ) (outcome : String)
    (here : (id : String)
      → s.persistence.question_id ≡ some id
      → any (is_recommendation row) db.recommendations ≡ true)
    (known : IsKnown db (asker_id s.asker)) where
  record_after-is_accepted :
      (now : Option String) → is_accepted (record_after env db s row outcome none now) ≡ true
  unfolding record_after record_fresh set_recommendation_outcome
  record_after-is_accepted (some existing) = refl
  record_after-is_accepted none = committed-is_accepted _ outcome (
      settle-is_some env _ s row outcome s.persistence.question_id
        (λ id e.
          any-update (is_recommendation row) (is_pending row) (outcome_values outcome none)
            db.recommendations (λ r. refl)
          ∙ here id e)
        known)

  record_on-is_accepted : is_accepted (record_on env db s outcome none none (some row)) ≡ true
  unfolding record_on
  record_on-is_accepted = record_after-is_accepted (recommendation_outcome db row)

employee-any :
    (db : Database) (row : ℕ) {person : ℕ}
    → recommendation_employee_id db row ≡ some person
    → any (is_recommendation row) db.recommendations ≡ true
unfolding recommendation_employee_id
employee-any db row {person} e = go (row_at row db.recommendations) refl e
  where
    go :
        (o : Option Recommendation)
        → row_at row db.recommendations ≡ o
        → elim o [ none ↦ none | some r ↦ some r.employee_id ] ≡ some person
        → any (is_recommendation row) db.recommendations ≡ true
    go none missing e = cc
    go (some r) found e = row_at-any row db.recommendations found

record_outcome-is_accepted :
    (env : Env) (db : Database) (s : AgentState) (outcome : String) {top : ScoredCandidate}
    {rest : List ScoredCandidate}
    → IsConsistent db
    → s.recommendations ≡ top ∷ rest
    → IsKnown db (asker_id s.asker)
    → is_accepted (record_outcome env db s outcome none none) ≡ true
unfolding record_outcome record_on
record_outcome-is_accepted env db s outcome ok shown known = go (resolve_primary db s) refl
  where
    go :
        (o : Option ℕ)
        → resolve_primary db s ≡ o
        → is_accepted (record_on env db s outcome none none o) ≡ true
    go none e = refl
    go (some row) e =
        record_on-is_accepted env db s row outcome
          (λ id asked.
            employee-any db row ((resolve_primary-IsTheirRow db s ok asked shown).0 row e).theirs)
          known

-- Where a request goes on after an outcome that is not refused, the resumed value is queued.
with_outcome-queued :
    (env : Env) (session_id : String) (c : Checkpoint) (request : Resume) (outcome : String)
    (svc : Service)
    → is_accepted (record_outcome env svc.database c.values outcome request.recommendation_id none)
      ≡ true
    → (is_accepted (with_outcome env session_id c request (some outcome) svc).1 ≡ true)
      × (is_queued (with_outcome env session_id c request (some outcome) svc).0 session_id ≡ true)
unfolding with_outcome
with_outcome-queued env session_id c request outcome svc h =
    go (record_outcome env svc.database c.values outcome request.recommendation_id none) h
  where
    rest : Recorded → Service × Done
    rest r = (
      queue env session_id (resume r.effective)
          (captured env c.values r.status outcome request.answer_body (commit r svc)),
      accept tt,
    )

    go :
        (a : Attempt Recorded)
        → is_accepted a ≡ true
        → (is_accepted (proceed svc a rest).1 ≡ true)
          × (is_queued (proceed svc a rest).0 session_id ≡ true)
    go (refuse e) h = ground arith
    go (accept r) h = (
      refl,
      let after = captured env c.values r.status outcome request.answer_body (commit r svc) in
          rw
            (find-put_same session_id
              (record { pending = some (resume r.effective); touched_at = env.clock })
              after.registry)
            refl,
    )

-- In a consistent database, whose employees the asker is among, a session that waits for a
-- responder and has nothing queued takes every outcome that names no row: the request is not
-- refused, and a value to resume the run with is queued.
pub submit_resume_goes_on :
    (env : Env) (session_id : String) (svc : Service) (c : Checkpoint) (request : Resume)
    (outcome : String) {top : ScoredCandidate} {rest : List ScoredCandidate}
    → IsConsistent svc.database
    → IsKnown svc.database (asker_id c.values.asker)
    → checkpoint_of svc session_id ≡ some c
    → c.next ≡ some send
    → is_queued svc session_id ≡ false
    → c.values.recommendations ≡ top ∷ rest
    → request.outcome ≡ some outcome
    → request.recommendation_id ≡ none
    → (is_accepted (submit_resume env session_id request svc).1 ≡ true)
      × (is_queued (submit_resume env session_id request svc).0 session_id ≡ true)
unfolding submit_resume resume_saved resume_at resume_node
submit_resume_goes_on env session_id svc c request outcome ok known saved parked free shown said
      unnamed =
    rw (saved, resume_saved, parked, resume_at, free, said, resume_node)
      (with_outcome-queued env session_id c request outcome svc
        (rw unnamed (record_outcome-is_accepted env svc.database c.values outcome ok shown known)))
