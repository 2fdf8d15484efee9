-- ===== src/Service/Outcome.antt =====
-- api/service.py: the row that a hand-off is bound to, and the outcome that is recorded on it.
use tekijin.Prelude.{
  ℕ, String, Bool, false, not, Option, none, some, List, [], ◌∷◌, if◌then◌else◌, is_some, is_id,
  is_text, or_empty, str_eq, ◌==◌,
}
use tekijin.Scorer.{ScoredCandidate}
use tekijin.Agent.{AgentState, asker_id}
use tekijin.Store.{
  Database, latest_primary_recommendation, latest_recommendation_for_person,
  recommendation_employee_id, recommendation_outcome, set_recommendation_outcome,
  mark_question_resolved, question_consult_method, create_message, thread_parties, create_answer,
}
use tekijin.Service.State.{Env, Attempt, accept, refuse, session_conflict, internal_error}

-- `primary is not None and recommendation_employee_id(primary) == person`
abbrev pub is_row_of : Database → Option ℕ → ℕ → Bool
is_row_of db none person = false
is_row_of db (some row) person = is_id (recommendation_employee_id db row) person

-- The row for the person on top of the shortlist, where there is one.
unfoldable pub resolve_for : Database → String → Option ℕ → List ScoredCandidate → Option ℕ
resolve_for db question_id none [] = latest_primary_recommendation db question_id
resolve_for db question_id (some primary) [] = some primary
resolve_for db question_id primary (top ∷ rest) =
    if is_row_of db primary top.person_id
    then primary
    else latest_recommendation_for_person db question_id top.person_id

unfoldable pub resolve_primary : Database → AgentState → Option ℕ
unfolding resolve_for
resolve_primary db s = elim s.persistence.question_id [
  | none ↦ s.persistence.primary_recommendation_id
  | some question_id ↦
      resolve_for db question_id s.persistence.primary_recommendation_id s.recommendations
]

pub data Status : Type 0 where
  recorded already no_target : Status

-- The database and the messages handed to Slack after a transaction.
pub record Recorded : Type 0 where
  pub database : Database
  pub scheduled : List (ℕ × String)
  pub status : Status
  pub effective : String

abbrev pub Seeded : Type 0
Seeded = Database × List (ℕ × String)

abbrev pub posted : ℕ → String → Option Database → Option Seeded
posted primary draft none = none
posted primary draft (some db) =
    some (db, if is_some (thread_parties db primary) then (primary, draft) ∷ [] else [])

-- The asker's draft as the first message of the thread.
unfoldable pub seed_thread : Env → Database → ℕ → String → Option ℕ → Option Seeded
seed_thread env db primary draft none = some (db, [])
seed_thread env db primary draft (some asker) =
    if is_text draft
    then posted primary draft (create_message db primary asker draft env.wall_clock)
    else some (db, [])

-- What an acceptance writes beside the outcome.
unfoldable pub settle_accepted : Env → Database → AgentState → ℕ → String → Option Seeded
unfolding seed_thread
settle_accepted env db s primary question_id =
    let after = mark_question_resolved db question_id env.now.micros in
    if str_eq (question_consult_method after (some question_id)) "direct"
    then some (after, [])
    else seed_thread env after primary (env.deps.strip (or_empty s.draft)) (asker_id s.asker)

unfoldable pub settle : Env → Database → AgentState → ℕ → String → Option String → Option Seeded
unfolding settle_accepted
settle env db s primary outcome none = some (db, [])
settle env db s primary outcome (some question_id) =
    if str_eq outcome "accepted"
    then settle_accepted env db s primary question_id
    else some (db, [])

-- A write that the database refuses raises, and the transaction is rolled back.
unfoldable pub committed : Option Seeded → String → Attempt Recorded
committed none outcome = refuse internal_error
committed (some (db, scheduled)) outcome =
    accept (record { database = db; scheduled = scheduled; status = recorded; effective = outcome })

unfoldable pub record_fresh : Env → AgentState → ℕ → String → Option Database → Attempt Recorded
unfolding committed
record_fresh env s primary outcome none = refuse internal_error
record_fresh env s primary outcome (some db) =
    committed (settle env db s primary outcome s.persistence.question_id) outcome

-- The outcome that a row carries already stands.
unfoldable pub record_after :
    Env → Database → AgentState → ℕ → String → Option ℕ → Option String → Attempt Recorded
unfolding record_fresh
record_after env db s primary outcome referred_to none =
    record_fresh env s primary outcome (set_recommendation_outcome db primary outcome referred_to)
record_after env db s primary outcome referred_to (some existing) =
    accept (record { database = db; scheduled = []; status = already; effective = existing })

-- A client that names the row it was shown is refused if that row is no longer the current one.
abbrev pub is_stale : Option ℕ → ℕ → Bool
is_stale none primary = false
is_stale (some expected) primary = not (expected == primary)

unfoldable pub record_on :
    Env → Database → AgentState → String → Option ℕ → Option ℕ → Option ℕ → Attempt Recorded
unfolding record_after
record_on env db s outcome expected referred_to none =
    accept (record { database = db; scheduled = []; status = no_target; effective = outcome })
record_on env db s outcome expected referred_to (some primary) =
    if is_stale expected primary
    then refuse session_conflict
    else record_after env db s primary outcome referred_to (recommendation_outcome db primary)

unfoldable pub record_outcome :
    Env → Database → AgentState → String → Option ℕ → Option ℕ → Attempt Recorded
unfolding record_on
record_outcome env db s outcome expected referred_to =
    record_on env db s outcome expected referred_to (resolve_primary db s)

-- `topics[0] if topics else None`
abbrev pub first_topic : List String → Option String
first_topic [] = none
first_topic (t ∷ topics) = some t

abbrev pub stored_answer : Database → Option (Database × String) → Database
stored_answer db none = db
stored_answer db (some (after, id)) = after

-- Any failure leaves the database as it was.
unfoldable pub capture_answer : Env → Database → AgentState → String → Database
capture_answer env db s answer_body =
    let body = env.deps.strip answer_body in
    if is_text body
    then elim s.persistence.question_id [
      | none ↦ db
      | some question_id ↦ elim (resolve_primary db s) [
        | none ↦ db
        | some primary ↦ elim (recommendation_employee_id db primary) [
          | none ↦ db
          | some responder ↦ stored_answer db (
              create_answer db env.uid question_id responder body (first_topic s.intent.topics)
                (env.embed body) env.now.micros)
        ]
      ]
    ]
    else db
