-- ===== src/Store/Ranks.antt =====
-- The shown recommendations, read back: data/writes.py, `insert_shown_recommendations` against
-- `shown_recommendation_ids`, `latest_primary_recommendation` and `recommendation_employee_id`.

use mathlib.Core.List.{append_assoc}
use tekijin.Prelude.{
  ℕ, suc, ◌<◌, ◌≡◌, ◌≢◌, refl, sym, ap, ◌∙◌, String, true, false, Option, none, some, List, [], ◌∷◌,
  ◌++◌, map, arith, any, is_some, is_nonempty, All, elem, select, ◌>>=◌, head?,
}
use tekijin.Scorer.{ScoredCandidate}
use tekijin.Store.Rows.{All-append, All-imp}
use tekijin.Store.Tables.{Recommendation, Database, has_question, shown_for}
use tekijin.Store.Shown.{
  shown_row, insert_one, insert_from, insert_shown_recommendations, newest, is_primary_of,
  latest_primary_recommendation, row_at, recommendation_employee_id, in_order,
  shown_recommendation_ids,
}
use tekijin.Store.Integrity.{IsConsistent}
use tekijin.Store.Listing.{
  shown_rows, numbers, insert_from-rows, shown_rows-ids, shown_rows-in_order, shown_rows-all,
  shown_rows-primary, select-after_none, newest-last,
}

-- For a question with nothing shown yet, the ids that an accepted insertion gives out are read
-- back in the order in which the rows are shown.
pub shown_recommendation_ids-insert :
    (db after : Database) (id : String) (recs : List ScoredCandidate) (now : ℕ) (ids : List ℕ)
    → any (shown_for id) db.recommendations ≡ false
    → insert_shown_recommendations db id recs now ≡ some (after, ids)
    → shown_recommendation_ids after id ≡ ids
unfolding insert_shown_recommendations shown_recommendation_ids
shown_recommendation_ids-insert db after id recs now ids none_yet e =
    let (rows, numbered) = insert_from-rows id now 1 recs db (after, ids) e in
    let next = db.next_recommendation in
    let shown = shown_rows id now 1 next recs in
    ap (λ l. map (λ (r : Recommendation). r.id) (in_order (select (shown_for id) l))) rows
    ∙ ap (λ l. map (λ (r : Recommendation). r.id) (in_order l))
        (select-after_none id db.recommendations shown none_yet ∙ shown_rows-all id now 1 next recs)
    ∙ ap (map (λ (r : Recommendation). r.id)) (shown_rows-in_order id now 1 next recs)
    ∙ shown_rows-ids id now 1 next recs
    ∙ sym numbered

-- In consistent tables, after each accepted insertion of a shortlist that is not empty, a first
-- one or one after a decline, the primary recommendation is the first of the new ids.
pub latest_primary-insert :
    (db after : Database) (id : String) (recs : List ScoredCandidate) (now : ℕ) (ids : List ℕ)
    → IsConsistent db
    → is_nonempty recs ≡ true
    → insert_shown_recommendations db id recs now ≡ some (after, ids)
    → (latest_primary_recommendation after id ≡ head? ids) × (head? ids ≢ none)
unfolding insert_shown_recommendations latest_primary_recommendation
latest_primary-insert db after id [] now ids h some_row e = cc
latest_primary-insert db after id (rec ∷ recs) now ids h some_row e =
    let (rows, numbered) = insert_from-rows id now 1 (rec ∷ recs) db (after, ids) e in
    let next = db.next_recommendation in
    let shown = shown_rows id now 1 next (rec ∷ recs) in
    (
      ap (newest (is_primary_of id)) rows
          ∙ newest-last (is_primary_of id) db.recommendations shown next h.given_out
              (shown_rows-primary id now next rec recs)
          ∙ sym (ap head? numbered),
      rw numbered (λ e. cc),
    )

abbrev person_of : Option Recommendation → Option ℕ
person_of none = none
person_of (some r) = some r.employee_id

row_at-append :
    (n : ℕ) (xs ys : List Recommendation)
    → All (λ (r : Recommendation). r.id < n) xs
    → row_at n (xs ++ ys) ≡ row_at n ys
row_at-append n [] ys h = refl
row_at-append n (x ∷ xs) ys h = ground (arith, row_at-append n xs ys h.1, h.0)

shown_rows-people :
    (id : String) (now position next : ℕ) (recs : List ScoredCandidate)
    (before : List Recommendation)
    → All (λ (r : Recommendation). r.id < next) before
    → map
        (λ n. person_of (row_at n (before ++ shown_rows id now position next recs)))
        (numbers id now next recs)
      ≡ map (λ (c : ScoredCandidate). some c.person_id) recs
unfolding shown_row
shown_rows-people id now position next [] before h = refl
shown_rows-people id now position next (rec ∷ recs) before h =
    let row = shown_row id now position rec next in
    let rest = shown_rows id now (suc position) (suc next) recs in
    let head : person_of (row_at next (before ++ (row ∷ rest))) ≡ some rec.person_id =
      rw (row_at-append next before (row ∷ rest) h) (ground arith) in
    rw head (
      ap (◌∷◌ (some rec.person_id)) (
        ap (λ l. map (λ n. person_of (row_at n l)) (numbers id now (suc next) recs))
          (sym (append_assoc before (row ∷ []) rest))
        ∙ shown_rows-people id now (suc position) (suc next) recs (before ++ (row ∷ [])) (
            All-append (λ (r : Recommendation). r.id < suc next) before (row ∷ [])
              (All-imp before (λ r e. omega arith) h) (omega arith, tt))))

-- In consistent tables, each id that an accepted insertion gives out names the row of the person
-- shown at its position.
pub recommendation_employee_id-insert :
    (db after : Database) (id : String) (recs : List ScoredCandidate) (now : ℕ) (ids : List ℕ)
    → IsConsistent db
    → insert_shown_recommendations db id recs now ≡ some (after, ids)
    → map (recommendation_employee_id after) ids
      ≡ map (λ (c : ScoredCandidate). some c.person_id) recs
unfolding insert_shown_recommendations recommendation_employee_id
recommendation_employee_id-insert db after id recs now ids h e =
    let (rows, numbered) = insert_from-rows id now 1 recs db (after, ids) e in
    map-same ids
    ∙ ap (λ l. map (λ n. person_of (row_at n l)) ids) rows
    ∙ ap
        (map (λ n.
          person_of
            (row_at n (db.recommendations ++ shown_rows id now 1 db.next_recommendation recs))))
        numbered
    ∙ shown_rows-people id now 1 db.next_recommendation recs db.recommendations h.given_out
  where
    same :
        (o : Option Recommendation)
        → (elim o [ none ↦ none | some r ↦ some r.employee_id ]) ≡ person_of o
    same none = refl
    same (some r) = refl

    map-same :
        (ns : List ℕ)
        → map (recommendation_employee_id after) ns
          ≡ map (λ n. person_of (row_at n after.recommendations)) ns
    map-same [] = refl
    map-same (n ∷ ns) =
        rw (same (row_at n after.recommendations))
          (ap (◌∷◌ (person_of (row_at n after.recommendations))) (map-same ns))

insert_from-accepted :
    (id : String) (now position : ℕ) (recs : List ScoredCandidate) (db : Database)
    → has_question db id ≡ true
    → All (λ (c : ScoredCandidate). elem c.person_id db.employees ≡ true) recs
    → is_some (insert_from id now position recs db) ≡ true
unfolding insert_from shown_row
insert_from-accepted id now position [] db q h = refl
insert_from-accepted id now position (rec ∷ recs) db q h =
    rw (q, h.0)
      (kept
        (insert_from id now (suc position) recs
          (insert_one db (shown_row id now position rec db.next_recommendation)))
        (insert_from-accepted id now (suc position) recs
          (insert_one db (shown_row id now position rec db.next_recommendation)) q h.1))
  where
    kept :
        (rest : Option (Database × List ℕ))
        → is_some rest ≡ true
        → is_some (
            ◌>>=◌ {B = Database × List ℕ} rest
              (λ (after, ids). some (after, db.next_recommendation ∷ ids)))
          ≡ true
    kept none h = h
    kept (some (after, ids)) h = refl

-- A shortlist of employees is stored for every question that is there.
pub insert_shown_recommendations-accepted :
    (db : Database) (id : String) (recs : List ScoredCandidate) (now : ℕ)
    → has_question db id ≡ true
    → All (λ (c : ScoredCandidate). elem c.person_id db.employees ≡ true) recs
    → is_some (insert_shown_recommendations db id recs now) ≡ true
unfolding insert_shown_recommendations
insert_shown_recommendations-accepted db id recs now q h = insert_from-accepted id now 1 recs db q h
