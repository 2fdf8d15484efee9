-- ===== src/Store/Listing.antt =====
-- The rows that data/writes.py, `insert_shown_recommendations`, adds: their numbers and order.
use text.Mathlib.TextEquality.{eq_iff}
use mathlib.Core.List.{append-nil, append_assoc}
use tekijin.Prelude.{
  ℕ, suc, ◌<◌, ◌≡◌, refl, sym, ap, ◌∙◌, String, Bool, true, false, ◌&&◌, Option, none, some, List,
  [], ◌∷◌, ◌++◌, map, arith, if◌then◌else◌, any, All, some-inj, elem, select, ◌>>=◌,
}
use tekijin.Scorer.{ScoredCandidate}
use tekijin.Store.Tables.{Recommendation, Database, has_question, shown_for}
use tekijin.Store.Shown.{shown_row, insert_one, insert_from, newest, is_primary_of, place, in_order}

some_cons :
    (b : Bool) (n : ℕ) (rest : Option (Database × List ℕ)) (after : Database) (ids : List ℕ)
    → (if b
        then ◌>>=◌ {B = Database × List ℕ} rest (λ (db, others). some (db, n ∷ others))
        else none)
      ≡ some (after, ids)
    → (others : List ℕ) × (rest ≡ some (after, others)) × (n ∷ others ≡ ids)
some_cons true n none after ids e = cc
some_cons true n (some (db, others)) after ids e =
    let same = some-inj e in
    (others, ap (λ d. some (d, others)) (ap (λ p. p.0) same), ap (λ p. p.1) same)
some_cons false n rest after ids e = cc

module _ (id : String) (now : ℕ) where
  -- The rows of a ranking, by position and number.
  abbrev pub shown_rows : ℕ → ℕ → List ScoredCandidate → List Recommendation
  shown_rows position next [] = []
  shown_rows position next (rec ∷ recs) =
      shown_row id now position rec next ∷ shown_rows (suc position) (suc next) recs

  abbrev pub numbers : ℕ → List ScoredCandidate → List ℕ
  numbers next [] = []
  numbers next (rec ∷ recs) = next ∷ numbers (suc next) recs

  abbrev pub IsInserted : ℕ → List ScoredCandidate → Database → Database × List ℕ → Type 0
  IsInserted position recs db (after, ids) =
      (after.recommendations
        ≡ db.recommendations ++ shown_rows position db.next_recommendation recs)
      × (ids ≡ numbers db.next_recommendation recs)

  pub insert_from-rows :
      (position : ℕ) (recs : List ScoredCandidate) (db : Database) (result : Database × List ℕ)
      → insert_from id now position recs db ≡ some result
      → IsInserted position recs db result
  unfolding insert_from shown_row
  insert_from-rows position [] db (after, ids) e =
      let same = some-inj e in
      (
        sym (ap (λ (p : Database × List ℕ). p.0.recommendations) same)
            ∙ sym (append-nil db.recommendations),
        sym (ap (λ p. p.1) same),
      )
  insert_from-rows position (rec ∷ recs) db (after, ids) e =
      let row = shown_row id now position rec db.next_recommendation in
      let (others, e', same) =
        some_cons (has_question db id && elem rec.person_id db.employees) db.next_recommendation
          (insert_from id now (suc position) recs (insert_one db row)) after ids e in
      let (rows, numbered) =
        insert_from-rows (suc position) recs (insert_one db row) (after, others) e' in
      (
        rows
            ∙ append_assoc db.recommendations (row ∷ [])
                (shown_rows (suc position) (suc db.next_recommendation) recs),
        sym same ∙ ap (◌∷◌ db.next_recommendation) numbered,
      )

  pub shown_rows-ids :
      (position next : ℕ) (recs : List ScoredCandidate)
      → map (λ (r : Recommendation). r.id) (shown_rows position next recs) ≡ numbers next recs
  unfolding shown_row
  shown_rows-ids position next [] = refl
  shown_rows-ids position next (rec ∷ recs) =
      ap (◌∷◌ next) (shown_rows-ids (suc position) (suc next) recs)

  -- The rows of a ranking stand in the order in which they are shown.
  pub shown_rows-in_order :
      (position next : ℕ) (recs : List ScoredCandidate)
      → in_order (shown_rows position next recs) ≡ shown_rows position next recs
  unfolding shown_row
  shown_rows-in_order position next [] = refl
  shown_rows-in_order position next (rec ∷ recs) =
      ap (place (shown_row id now position rec next))
        (shown_rows-in_order (suc position) (suc next) recs)
      ∙ first recs
    where
      first :
          (recs : List ScoredCandidate)
          → place (shown_row id now position rec next) (shown_rows (suc position) (suc next) recs)
            ≡ shown_row id now position rec next ∷ shown_rows (suc position) (suc next) recs
      first [] = refl
      first (next ∷ recs) = ground arith

  pub shown_rows-all :
      (position next : ℕ) (recs : List ScoredCandidate)
      → select (shown_for id) (shown_rows position next recs) ≡ shown_rows position next recs
  unfolding shown_row
  shown_rows-all position next [] = refl
  shown_rows-all position next (rec ∷ recs) =
      ground (arith, shown_rows-all (suc position) (suc next) recs, eq_iff id id)

  -- Only the row at the first position is a primary one.
  pub shown_rows-secondary :
      (position next : ℕ) (recs : List ScoredCandidate)
      → 1 < position
      → newest (is_primary_of id) (shown_rows position next recs) ≡ none
  unfolding shown_row
  shown_rows-secondary position next [] h = refl
  shown_rows-secondary position next (rec ∷ recs) h =
      ground (arith, shown_rows-secondary (suc position) (suc next) recs)

  pub shown_rows-primary :
      (next : ℕ) (rec : ScoredCandidate) (recs : List ScoredCandidate)
      → newest (is_primary_of id) (shown_rows 1 next (rec ∷ recs)) ≡ some next
  unfolding shown_row
  shown_rows-primary next rec recs =
      ground (arith, shown_rows-secondary 2 (suc next) recs, eq_iff id id)

pub select-after_none :
    (id : String) (xs ys : List Recommendation)
    → any (shown_for id) xs ≡ false
    → select (shown_for id) (xs ++ ys) ≡ select (shown_for id) ys
select-after_none id [] ys h = refl
select-after_none id (x ∷ xs) ys h = ground (arith, select-after_none id xs ys)

pub newest-last :
    (hit : Recommendation → Bool) (xs ys : List Recommendation) (n : ℕ)
    → All (λ (r : Recommendation). r.id < n) xs
    → newest hit ys ≡ some n
    → newest hit (xs ++ ys) ≡ some n
newest-last hit [] ys n h e = e
newest-last hit (x ∷ xs) ys n h e = rw (newest-last hit xs ys n h.1 e) (ground (arith, h.0))
