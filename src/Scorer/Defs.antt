-- ===== src/Scorer/Defs.antt =====
-- scorer/scorer.py: the returned rows, and `rank` as an interface.
use tekijin.Prelude.{
  ℕ, suc, String, ◌≤◌, ◌≡◌, refl, ap, true, false, Option, List, [], ◌∷◌, ◌++◌, map, length, elem,
  Distinct, is_id,
}
use tekijin.Prelude.Int.{ℤ}
use tekijin.Route.{Score}

pub record ScoredReason : Type 0 where
  pub type : String
  pub detail : String

-- `score` is rounded to four digits by the code, so it is a whole number of ten-thousandths.
pub record ScoredCandidate : Type 0 where
  pub person_id : ℕ
  pub name : String
  pub dept : Option String
  pub score : ℤ
  pub confidence : String
  pub reasons : List ScoredReason

abbrev pub ids : List ScoredCandidate → List ℕ
ids = map (λ (c : ScoredCandidate). c.person_id)

-- What `rank` takes beside the candidates and `top_k`; `now` is in microseconds.
pub record RankQuery : Type 0 where
  pub topics : List String
  pub asker_id : Option ℕ
  pub now : ℕ
  pub question_similarity : Option (List (ℕ × Score))

-- `ExpertiseScorer.rank` at a positive `top_k` and a naive `now`, and what its clients rely on.
pub record Ranker : Type 0 where
  pub rank : RankQuery → List ℕ → ℕ → List ScoredCandidate
  pub rank_length : (q : RankQuery) (people : List ℕ) (k : ℕ) → length (rank q people k) ≤ k
  pub rank_distinct : (q : RankQuery) (people : List ℕ) (k : ℕ) → Distinct (ids (rank q people k))
  pub rank_from :
      (q : RankQuery) (people : List ℕ) (k n : ℕ)
      → elem n (ids (rank q people k)) ≡ true
      → (elem n people ≡ true) × (is_id q.asker_id n ≡ false)

pub length-ids : (recs : List ScoredCandidate) → length (ids recs) ≡ length recs
length-ids [] = refl
length-ids (c ∷ recs) = ap suc (length-ids recs)

pub ids-append : (xs ys : List ScoredCandidate) → ids (xs ++ ys) ≡ ids xs ++ ids ys
ids-append [] ys = refl
ids-append (x ∷ xs) ys = ap (◌∷◌ x.person_id) (ids-append xs ys)
