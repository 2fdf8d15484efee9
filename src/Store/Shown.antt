-- ===== src/Store/Shown.antt =====
-- data/writes.py: the shown recommendations, their ranks and their outcomes.
use tekijin.Prelude.{
  ℕ, suc, ◌>>=◌, String, Bool, true, false, not, ◌&&◌, ◌||◌, Option, none, some, List, [], ◌∷◌,
  ◌++◌, map, if◌then◌else◌, is_some, is_id, any, select, elem, ltb, ◌==◌, max,
}
use tekijin.Scorer.{ScoredCandidate}
use tekijin.Store.Rows.{update}
use tekijin.Store.Tables.{Recommendation, Database, has_question, is_recommendation, shown_for}

-- One row of `insert_shown_recommendations`; the database stamps `created_at`.
unfoldable pub shown_row : String → ℕ → ℕ → ScoredCandidate → ℕ → Recommendation
shown_row question_id now position rec id = record {
  id = id;
  question_id = question_id;
  employee_id = rec.person_id;
  rank = some position;
  score = rec.score;
  reasons = rec.reasons;
  outcome = none;
  created_at = now;
  declined_seen_at = none;
  accepted_seen_at = none;
  request_seen_at = none;
  referred_to_employee_id = none;
}

abbrev pub insert_one : Database → Recommendation → Database
insert_one db row = record db {
  recommendations = db.recommendations ++ (row ∷ []);
  next_recommendation = suc row.id;
}

-- The loop from one position on; a row is refused without its question or its employee.
unfoldable pub insert_from :
    String → ℕ → ℕ → List ScoredCandidate → Database → Option (Database × List ℕ)
unfolding shown_row
insert_from question_id now position [] db = some (db, [])
insert_from question_id now position (rec ∷ recs) db =
    let id = db.next_recommendation in
    let rest =
      insert_from question_id now (suc position) recs
        (insert_one db (shown_row question_id now position rec id)) in
    if has_question db question_id && elem rec.person_id db.employees
    then (do (after, ids) ← rest; some (after, id ∷ ids))
    else none

unfoldable pub insert_shown_recommendations :
    Database → String → List ScoredCandidate → ℕ → Option (Database × List ℕ)
unfolding insert_from
insert_shown_recommendations db question_id recs now = insert_from question_id now 1 recs db

-- `UPDATE recommendations … WHERE hit`
abbrev pub update_recommendations :
    (Recommendation → Bool) → (Recommendation → Recommendation) → Database → Database
update_recommendations hit change db = record db {
  recommendations = update hit change db.recommendations;
}

abbrev pub rank_at : ℕ → Recommendation → Recommendation
rank_at position r = record r { rank = some position }

unfoldable pub reorder_from : ℕ → List ℕ → Database → Database
reorder_from position [] db = db
reorder_from position (id ∷ ids) db =
    reorder_from (suc position) ids
      (update_recommendations (is_recommendation id) (rank_at position) db)

unfoldable pub reorder_recommendation_ranks : Database → List ℕ → Database
unfolding reorder_from
reorder_recommendation_ranks db ordered_ids = reorder_from 1 ordered_ids db

abbrev pub newer : Bool → ℕ → Option ℕ → Option ℕ
newer hit id none = if hit then some id else none
newer hit id (some other) = some (if hit then max id other else other)

-- `ORDER BY id DESC LIMIT 1` over the rows that a test selects.
abbrev pub newest : (Recommendation → Bool) → List Recommendation → Option ℕ
newest hit [] = none
newest hit (r ∷ rows) = newer (hit r) r.id (newest hit rows)

abbrev pub is_primary_of : String → Recommendation → Bool
is_primary_of id r = shown_for id r && is_id r.rank 1

unfoldable pub latest_primary_recommendation : Database → String → Option ℕ
latest_primary_recommendation db id = newest (is_primary_of id) db.recommendations

abbrev pub is_for_person : String → ℕ → Recommendation → Bool
is_for_person id person r = shown_for id r && r.employee_id == person

unfoldable pub latest_recommendation_for_person : Database → String → ℕ → Option ℕ
latest_recommendation_for_person db id person = newest (is_for_person id person) db.recommendations

-- The row of an id, which is the table's key.
abbrev pub row_at : ℕ → List Recommendation → Option Recommendation
row_at id [] = none
row_at id (r ∷ rows) = if is_recommendation id r then some r else row_at id rows

unfoldable pub recommendation_employee_id : Database → ℕ → Option ℕ
recommendation_employee_id db id = elim (row_at id db.recommendations) [
  | none ↦ none
  | some r ↦ some r.employee_id
]

-- `ORDER BY rank, id`, where a missing rank comes last.
abbrev rank_before : Option ℕ → Option ℕ → Bool
rank_before none other = false
rank_before (some a) none = true
rank_before (some a) (some b) = ltb a b

abbrev rank_same : Option ℕ → Option ℕ → Bool
rank_same none none = true
rank_same (some a) (some b) = a == b
rank_same _ _ = false

abbrev pub shown_before : Recommendation → Recommendation → Bool
shown_before a b = rank_before a.rank b.rank || (rank_same a.rank b.rank && ltb a.id b.id)

abbrev pub place : Recommendation → List Recommendation → List Recommendation
place r [] = r ∷ []
place r (x ∷ rows) = if shown_before x r then x ∷ place r rows else r ∷ x ∷ rows

abbrev pub in_order : List Recommendation → List Recommendation
in_order [] = []
in_order (r ∷ rows) = place r (in_order rows)

unfoldable pub shown_recommendation_ids : Database → String → List ℕ
shown_recommendation_ids db id =
    map (λ (r : Recommendation). r.id) (in_order (select (shown_for id) db.recommendations))

unfoldable pub recommendation_outcome : Database → ℕ → Option String
recommendation_outcome db id = elim (row_at id db.recommendations) [
  | none ↦ none
  | some r ↦ r.outcome
]

-- `id == recommendation_id AND outcome IS NULL`
abbrev pub is_pending : ℕ → Recommendation → Bool
is_pending id r = is_recommendation id r && not (is_some r.outcome)

-- `values`: the target is written only where one is named.
abbrev pub outcome_values : String → Option ℕ → Recommendation → Recommendation
outcome_values outcome none r = record r { outcome = some outcome }
outcome_values outcome (some person) r = record r {
  outcome = some outcome;
  referred_to_employee_id = some person;
}

abbrev pub known_target : Database → Option ℕ → Bool
known_target db none = true
known_target db (some person) = elem person db.employees

-- An UPDATE that hits no row is not refused.
unfoldable pub set_recommendation_outcome : Database → ℕ → String → Option ℕ → Option Database
set_recommendation_outcome db id outcome referred_to =
    if known_target db referred_to || not (any (is_pending id) db.recommendations)
    then some (update_recommendations (is_pending id) (outcome_values outcome referred_to) db)
    else none
