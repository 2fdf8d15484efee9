-- ===== src/Service/Binding.antt =====
-- The row that an outcome is recorded on: api/service.py, `_resolve_primary`.
use tekijin.Prelude.{
  ℕ, ◌≡◌, ◌≢◌, refl, ap, String, Bool, true, false, Option, none, some, List, ◌∷◌, arith, any,
  is_id, ==_iff, if◌then◌else◌, some-inj, inl, inr, Bool-cases,
}
use mathlib.Core.Path.{subst}
use tekijin.Scorer.{ScoredCandidate}
use tekijin.Agent.{AgentState}
use tekijin.Store.{
  Database, is_for_person, latest_recommendation_for_person, recommendation_employee_id,
}
use tekijin.Store.Integrity.{IsConsistent}
use tekijin.Store.Newest.{newest-IsNewest, newest-none, IsNewest}
use tekijin.Service.Outcome.{resolve_primary, resolve_for, is_row_of}

-- The row is of the person; where the stored id is not, it is their newest row for the question.
pub record IsTheirRow (db : Database) (question_id : String) (stored : Option ℕ) (person row : ℕ)
    : Type 0 where
  pub theirs : recommendation_employee_id db row ≡ some person
  pub kept : is_row_of db stored person ≡ true → stored ≡ some row
  pub rebound :
      is_row_of db stored person ≡ false
      → IsNewest (is_for_person question_id person) db.recommendations row

is_id-some : (o : Option ℕ) (n : ℕ) → is_id o n ≡ true → o ≡ some n
is_id-some none n h = ground arith
is_id-some (some m) n h = ap some ((==_iff m n).0 h)

is_row_of-theirs :
    (db : Database) (stored : Option ℕ) (person row : ℕ)
    → is_row_of db stored person ≡ true
    → stored ≡ some row
    → recommendation_employee_id db row ≡ some person
is_row_of-theirs db none person row h e = cc
is_row_of-theirs db (some id) person row h e =
    subst (λ n. recommendation_employee_id db n ≡ some person) (some-inj e)
      (is_id-some (recommendation_employee_id db id) person h)

stored-some :
    (db : Database) (stored : Option ℕ) (person : ℕ)
    → is_row_of db stored person ≡ true
    → stored ≢ none
stored-some db none person h = ground arith
stored-some db (some id) person h = λ e. cc

newest-theirs :
    (db : Database) (question_id : String) (person row : ℕ)
    → IsNewest (is_for_person question_id person) db.recommendations row
    → recommendation_employee_id db row ≡ some person
unfolding recommendation_employee_id
newest-theirs db question_id person row n =
    rw (n.found, recommendation_employee_id)
      (ap some ((==_iff n.row.employee_id person).0 (ground (arith, n.selected))))

module _ (db : Database) (question_id : String) (stored : Option ℕ) (top : ScoredCandidate)
    (rest : List ScoredCandidate) where
  resolve_for-some :
      {row : ℕ}
      → IsConsistent db
      → resolve_for db question_id stored (top ∷ rest) ≡ some row
      → IsTheirRow db question_id stored top.person_id row
  unfolding resolve_for latest_recommendation_for_person
  resolve_for-some {row} ok e = choose (is_row_of db stored top.person_id) refl e
    where
      choose :
          (b : Bool)
          → is_row_of db stored top.person_id ≡ b
          → (if b then stored else latest_recommendation_for_person db question_id top.person_id)
            ≡ some row
          → IsTheirRow db question_id stored top.person_id row
      choose true b e = record {
        theirs = is_row_of-theirs db stored top.person_id row b e;
        kept = λ h. e;
        rebound = λ h. absurd (ground arith);
      }
      choose false b e =
          let found =
            newest-IsNewest (is_for_person question_id top.person_id) db.recommendations
              ok.recommendation_keys e in
          record {
            theirs = newest-theirs db question_id top.person_id row found;
            kept = λ h. absurd (ground arith);
            rebound = λ h. found;
          }

  resolve_for-none :
      resolve_for db question_id stored (top ∷ rest) ≡ none
      → any (is_for_person question_id top.person_id) db.recommendations ≡ false
  unfolding resolve_for latest_recommendation_for_person
  resolve_for-none e = choose (is_row_of db stored top.person_id) refl e
    where
      choose :
          (b : Bool)
          → is_row_of db stored top.person_id ≡ b
          → (if b then stored else latest_recommendation_for_person db question_id top.person_id)
            ≡ none
          → any (is_for_person question_id top.person_id) db.recommendations ≡ false
      choose true b e = absurd (stored-some db stored top.person_id b e)
      choose false b e = newest-none (is_for_person question_id top.person_id) db.recommendations e

pub resolve_primary-IsTheirRow :
    (db : Database) (s : AgentState) {question_id : String} {top : ScoredCandidate}
    {rest : List ScoredCandidate}
    → IsConsistent db
    → s.persistence.question_id ≡ some question_id
    → s.recommendations ≡ top ∷ rest
    → ((row : ℕ)
        → resolve_primary db s ≡ some row
        → IsTheirRow db question_id s.persistence.primary_recommendation_id top.person_id row)
      × (resolve_primary db s ≡ none
          → any (is_for_person question_id top.person_id) db.recommendations ≡ false)
unfolding resolve_primary
resolve_primary-IsTheirRow db s {question_id} {top} {rest} ok asked shown =
    let stored = s.persistence.primary_recommendation_id in
    rw (asked, shown, resolve_primary)
      (
        λ row e. resolve_for-some db question_id stored top rest ok e,
        λ e. resolve_for-none db question_id stored top rest e,
      )

-- What the outcome of the person on top of the shortlist goes to.
pub data IsBound (db : Database) (question_id : String) (stored : Option ℕ) (who : ℕ)
    : Option ℕ → Type 0 where
  kept :
      {row : ℕ}
      → stored ≡ some row
      → recommendation_employee_id db row ≡ some who
      → IsBound db question_id stored who (some row)
  rebound :
      {row : ℕ}
      → is_row_of db stored who ≡ false
      → recommendation_employee_id db row ≡ some who
      → IsNewest (is_for_person question_id who) db.recommendations row
      → IsBound db question_id stored who (some row)
  unbound :
      any (is_for_person question_id who) db.recommendations ≡ false
      → IsBound db question_id stored who none

IsTheirRow-IsBound :
    (db : Database) (question_id : String) (stored : Option ℕ) (who row : ℕ)
    → IsTheirRow db question_id stored who row
    → IsBound db question_id stored who (some row)
IsTheirRow-IsBound db question_id stored who row r = elim (Bool-cases (is_row_of db stored who)) [
  | inl e ↦ kept (r.kept e) r.theirs
  | inr e ↦ rebound e r.theirs (r.rebound e)
]

-- In a consistent database the outcome of a shown candidate goes to a row of that person: to the
-- stored row if it is theirs, and to their newest row for the question if it is not. It goes to no
-- row at all only if the question has none for them.
pub resolve_primary-IsBound :
    (db : Database) (s : AgentState) {question_id : String} {top : ScoredCandidate}
    {rest : List ScoredCandidate}
    → IsConsistent db
    → s.persistence.question_id ≡ some question_id
    → s.recommendations ≡ top ∷ rest
    → IsBound db question_id s.persistence.primary_recommendation_id top.person_id
        (resolve_primary db s)
resolve_primary-IsBound db s {question_id} {top} ok asked shown =
    let (found, missing) = resolve_primary-IsTheirRow db s ok asked shown in
    choose (resolve_primary db s) found missing
  where
    choose :
        (o : Option ℕ)
        → ((row : ℕ)
            → o ≡ some row
            → IsTheirRow db question_id s.persistence.primary_recommendation_id top.person_id row)
        → (o ≡ none → any (is_for_person question_id top.person_id) db.recommendations ≡ false)
        → IsBound db question_id s.persistence.primary_recommendation_id top.person_id o
    choose none found missing = unbound (missing refl)
    choose (some row) found missing =
        IsTheirRow-IsBound db question_id s.persistence.primary_recommendation_id top.person_id row
          (found row refl)
