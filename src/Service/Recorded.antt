-- ===== src/Service/Recorded.antt =====
-- What recording an outcome leaves in the database: api/service.py, `_record_outcome`.
use tekijin.Prelude.{
  ℕ, ◌≡◌, ◌≢◌, refl, sym, ap, ◌∙◌, String, Bool, true, false, Option, none, some, List,
  if◌then◌else◌, some-inj, str_eq, is_text, or_empty,
}
use mathlib.Core.Path.{subst}
use tekijin.Agent.{AgentState, asker_id}
use tekijin.Store.{
  Database, Recommendation, row_at, recommendation_outcome, set_recommendation_outcome,
  mark_question_resolved, question_consult_method, create_message, guard,
}
use tekijin.Store.Settled.{set_recommendation_outcome-recorded}
use tekijin.Service.State.{Env, accept, refuse, ServiceError}
use tekijin.Service.Outcome.{
  Seeded, posted, seed_thread, settle_accepted, settle, Recorded, committed, record_fresh,
  record_after, is_stale, record_on, record_outcome, resolve_primary,
}

-- The database after a write that is not rolled_back has these recommendations.
pub data Keeps (rows : List Recommendation) : Option Seeded → Type 0 where
  rolled_back : Keeps rows none
  keeps :
      {db : Database} {scheduled : List (ℕ × String)}
      → db.recommendations ≡ rows
      → Keeps rows (some (db, scheduled))

if-Keeps :
    {rows : List Recommendation} (b : Bool) {x y : Option Seeded}
    → Keeps rows x
    → Keeps rows y
    → Keeps rows (if b then x else y)
if-Keeps true h k = h
if-Keeps false h k = k

posted-Keeps :
    (db after : Database) (primary : ℕ) (draft : String) (b : Bool)
    → after.recommendations ≡ db.recommendations
    → Keeps db.recommendations (posted primary draft (guard b after))
posted-Keeps db after primary draft true e = keeps e
posted-Keeps db after primary draft false e = rolled_back

seed_thread-Keeps :
    (env : Env) (db : Database) (primary : ℕ) (draft : String) (asker : Option ℕ)
    → Keeps db.recommendations (seed_thread env db primary draft asker)
unfolding seed_thread create_message
seed_thread-Keeps env db primary draft none = keeps refl
seed_thread-Keeps env db primary draft (some asker) =
    if-Keeps (is_text draft) (posted-Keeps db _ primary draft _ refl) (keeps refl)

settle_accepted-Keeps :
    (env : Env) (db : Database) (s : AgentState) (primary : ℕ) (question_id : String)
    → Keeps db.recommendations (settle_accepted env db s primary question_id)
unfolding settle_accepted mark_question_resolved
settle_accepted-Keeps env db s primary question_id =
    let after = mark_question_resolved db question_id env.now.micros in
    if-Keeps (str_eq (question_consult_method after (some question_id)) "direct") (keeps refl)
      (seed_thread-Keeps env after primary (env.deps.strip (or_empty s.draft)) (asker_id s.asker))

settle-Keeps :
    (env : Env) (db : Database) (s : AgentState) (primary : ℕ) (outcome : String)
    (question_id : Option String)
    → Keeps db.recommendations (settle env db s primary outcome question_id)
unfolding settle
settle-Keeps env db s primary outcome none = keeps refl
settle-Keeps env db s primary outcome (some question_id) =
    if-Keeps (str_eq outcome "accepted") (settle_accepted-Keeps env db s primary question_id)
      (keeps refl)

-- The row carries the effective outcome, the other rows are as before, and an outcome that the
-- row carried before is the effective one and leaves the database alone.
pub record IsRecorded (db : Database) (row : ℕ) (r : Recorded) : Type 0 where
  pub carried : recommendation_outcome r.database row ≡ some r.effective
  pub others :
      (other : ℕ)
      → other ≢ row
      → row_at other r.database.recommendations ≡ row_at other db.recommendations
  pub first :
      (old : String)
      → recommendation_outcome db row ≡ some old
      → (r.effective ≡ old) × (r.database ≡ db)

none≢some : {o : String} → none ≢ some o
none≢some e = cc

accepted : {a b : Recorded} → accept a ≡ accept b → a ≡ b
accepted e = cc

committed-database :
    {rows : List Recommendation} {o : Option Seeded} (outcome : String) {r : Recorded}
    → Keeps rows o
    → committed o outcome ≡ accept r
    → (r.database.recommendations ≡ rows) × (r.effective ≡ outcome)
unfolding committed
committed-database outcome rolled_back e = cc
committed-database outcome (keeps {db} h) e =
    let same = accepted e in
    (
      ap (λ (r : Recorded). r.database.recommendations) (sym same) ∙ h,
      sym (ap (λ (r : Recorded). r.effective) same),
    )

outcome_of_rows :
    (db db' : Database) (row : ℕ)
    → db'.recommendations ≡ db.recommendations
    → recommendation_outcome db' row ≡ recommendation_outcome db row
unfolding recommendation_outcome
outcome_of_rows db db' row e = rw (e, recommendation_outcome) refl

module _ (env : Env) (db : Database) (s : AgentState) (row : ℕ) (outcome : String)
    (referred_to : Option ℕ) (found : Recommendation)
    (here : row_at row db.recommendations ≡ some found) where
  standing : recommendation_outcome db row ≡ found.outcome
  unfolding recommendation_outcome
  standing = rw (here, recommendation_outcome) refl

  record_fresh-IsRecorded :
      (after : Option Database) {r : Recorded}
      → recommendation_outcome db row ≡ none
      → set_recommendation_outcome db row outcome referred_to ≡ after
      → record_fresh env s row outcome after ≡ accept r
      → IsRecorded db row r
  unfolding record_fresh
  record_fresh-IsRecorded none clear e h = cc
  record_fresh-IsRecorded (some after) {r} clear e h =
      let pending : found.outcome ≡ none = sym standing ∙ clear in
      let (carried, others) =
        set_recommendation_outcome-recorded db after row outcome referred_to found e here pending in
      let (rows, said) =
        committed-database outcome (settle-Keeps env after s row outcome s.persistence.question_id)
          h in
      record {
        carried = outcome_of_rows after r.database row rows ∙ carried ∙ ap some (sym said);
        others = λ other ne. ap (row_at other) rows ∙ others other ne;
        first = λ old e'. absurd (none≢some (sym clear ∙ e'));
      }

  record_after-IsRecorded :
      (now : Option String) {r : Recorded}
      → recommendation_outcome db row ≡ now
      → record_after env db s row outcome referred_to now ≡ accept r
      → IsRecorded db row r
  unfolding record_after
  record_after-IsRecorded none clear h = record_fresh-IsRecorded _ clear refl h
  record_after-IsRecorded (some existing) {r} e h =
      let same = accepted h in
      subst (IsRecorded db row) same (record {
        carried = e;
        others = λ other ne. refl;
        first = λ old e'. (some-inj (sym e ∙ e'), refl);
      })

  record_on-IsRecorded :
      (expected : Option ℕ) {r : Recorded}
      → record_on env db s outcome expected referred_to (some row) ≡ accept r
      → IsRecorded db row r
  unfolding record_on
  record_on-IsRecorded expected {r} h = choose (is_stale expected row) h
    where
      choose :
          (b : Bool)
          → (if b
              then refuse ServiceError.session_conflict
              else record_after env db s row outcome referred_to (recommendation_outcome db row))
            ≡ accept r
          → IsRecorded db row r
      choose true h = cc
      choose false h = record_after-IsRecorded _ refl h

-- Where an outcome is accepted for a hand-off whose row is in the table, the row carries the
-- outcome that the run goes on with, no other row changes, and an outcome that the row carried
-- before is that outcome and leaves the database as it was.
pub record_outcome-IsRecorded :
    (env : Env) (db : Database) (s : AgentState) (row : ℕ) (outcome : String)
    (expected referred_to : Option ℕ) (found : Recommendation) (r : Recorded)
    → row_at row db.recommendations ≡ some found
    → resolve_primary db s ≡ some row
    → record_outcome env db s outcome expected referred_to ≡ accept r
    → IsRecorded db row r
unfolding record_outcome
record_outcome-IsRecorded env db s row outcome expected referred_to found r here bound h =
    record_on-IsRecorded env db s row outcome referred_to found here expected
      (subst (λ o. record_on env db s outcome expected referred_to o ≡ accept r) bound h)
