-- ===== src/Store/Reorder.antt =====
-- Another order for the shown recommendations: data/writes.py, `reorder_recommendation_ranks`.
use tekijin.Prelude.{
  ℕ, suc, ◌≡◌, refl, ap, ◌∙◌, true, false, Option, none, some, List, [], ◌∷◌, map, arith, is_some,
  elem, ◌==◌, All, Distinct,
}
use tekijin.Store.Rows.{update}
use tekijin.Store.Tables.{Recommendation, Database, is_recommendation}
use tekijin.Store.Shown.{
  update_recommendations, rank_at, reorder_from, reorder_recommendation_ranks, row_at,
}

-- The rank of a row that may be missing.
abbrev pub rank_of : Option Recommendation → Option ℕ
rank_of none = none
rank_of (some r) = r.rank

-- The positions of a list of ids, from one on.
abbrev pub positions : ℕ → List ℕ → List (Option ℕ)
positions position [] = []
positions position (id ∷ ids) = some position ∷ positions (suc position) ids

row_at-other_ranked :
    (n id position : ℕ) (rows : List Recommendation)
    → (n == id) ≡ false
    → row_at n (update (is_recommendation id) (rank_at position) rows) ≡ row_at n rows
row_at-other_ranked n id position [] e = refl
row_at-other_ranked n id position (r ∷ rows) e =
    ground (arith, row_at-other_ranked n id position rows)

row_at-ranked :
    (id position : ℕ) (rows : List Recommendation)
    → is_some (row_at id rows) ≡ true
    → rank_of (row_at id (update (is_recommendation id) (rank_at position) rows)) ≡ some position
row_at-ranked id position [] h = ground arith
row_at-ranked id position (r ∷ rows) h = ground (arith, row_at-ranked id position rows)

abbrev ranked : ℕ → ℕ → Database → Database
ranked id position db = update_recommendations (is_recommendation id) (rank_at position) db

reorder_from-other :
    (position : ℕ) (ids : List ℕ) (db : Database) (n : ℕ)
    → elem n ids ≡ false
    → row_at n (reorder_from position ids db).recommendations ≡ row_at n db.recommendations
unfolding reorder_from
reorder_from-other position [] db n h = refl
reorder_from-other position (id ∷ ids) db n h =
    reorder_from-other (suc position) ids (ranked id position db) n (ground arith)
    ∙ row_at-other_ranked n id position db.recommendations (ground arith)

still_there :
    (id position : ℕ) (rows : List Recommendation) (ids : List ℕ)
    → elem id ids ≡ false
    → All (λ n. is_some (row_at n rows) ≡ true) ids
    → All
        (λ n. is_some (row_at n (update (is_recommendation id) (rank_at position) rows)) ≡ true)
        ids
still_there id position rows [] e h = tt
still_there id position rows (n ∷ ids) e h = (
  ap is_some (row_at-other_ranked n id position rows (ground arith)) ∙ h.0,
  still_there id position rows ids (ground arith) h.1,
)

reorder_from-ranks :
    (position : ℕ) (ids : List ℕ) (db : Database)
    → Distinct ids
    → All (λ n. is_some (row_at n db.recommendations) ≡ true) ids
    → map (λ n. rank_of (row_at n (reorder_from position ids db).recommendations)) ids
      ≡ positions position ids
unfolding reorder_from
reorder_from-ranks position [] db d h = refl
reorder_from-ranks position (id ∷ ids) db d h =
    let head : rank_of
          (row_at id (reorder_from (suc position) ids (ranked id position db)).recommendations)
        ≡ some position =
      ap rank_of (reorder_from-other (suc position) ids (ranked id position db) id d.0)
      ∙ row_at-ranked id position db.recommendations h.0 in
    rw head (
      ap (◌∷◌ (some position)) (
        reorder_from-ranks (suc position) ids (ranked id position db) d.1
          (still_there id position db.recommendations ids d.0 h.1)))

-- If the ids are distinct and name rows, the rows take the ranks from 1 on in the order of the ids,
-- and a row that no id names stays as it was.
pub reorder_recommendation_ranks-ranks :
    (db : Database) (ids : List ℕ)
    → Distinct ids
    → All (λ n. is_some (row_at n db.recommendations) ≡ true) ids
    → (map (λ n. rank_of (row_at n (reorder_recommendation_ranks db ids).recommendations)) ids
        ≡ positions 1 ids)
      × ((n : ℕ)
          → elem n ids ≡ false
          → row_at n (reorder_recommendation_ranks db ids).recommendations
            ≡ row_at n db.recommendations)
unfolding reorder_recommendation_ranks
reorder_recommendation_ranks-ranks db ids d h =
    (reorder_from-ranks 1 ids db d h, λ n e. reorder_from-other 1 ids db n e)
