-- ===== src/Scorer/Examples.antt =====
-- The scorer at four people.
use tekijin.Prelude.{
  ℕ, ◌≤◌, ◌≡◌, refl, true, false, none, some, [], ◌∷◌, All, length, elem, is_id, Distinct, ◌==◌,
  if◌then◌else◌, arith,
}
use tekijin.Prelude.Int.{pos}
use tekijin.Scorer.Defs.{ScoredCandidate, RankQuery, ids}
use tekijin.Scorer.Rank.{
  ScorePerson, unique, candidates, score_all, insert, sort, rank_scored, rank,
}
use tekijin.Scorer.Order.{IsDescending, IsIncluded, rank_scored-IsDescending}
use tekijin.Scorer.Filled.{IsNamed, rank-IsSafe}

abbrev row : ℕ → ScoredCandidate
row n = record {
  person_id = n;
  name = "氏名";
  dept = none;
  score = pos n;
  confidence = "中";
  reasons = [];
}

-- Person 9 is unknown; 3 and 4 have the same score.
abbrev score_person : ScorePerson
score_person q n = if n == 9 then none else some (pos (if n == 4 then 3 else n), row n)

score_person-IsNamed : IsNamed score_person
score_person-IsNamed q n found e = ground arith

abbrev query : RankQuery
query = record { topics = []; asker_id = some 7; now = 0; question_similarity = none }

rank-people : ids (rank score_person query (9 ∷ 3 ∷ 7 ∷ 4 ∷ 3 ∷ 5 ∷ []) 2) ≡ 5 ∷ 3 ∷ []
unfolding rank rank_scored candidates unique score_all sort insert
rank-people = refl

rank_scored-IsDescending_example :
    IsDescending (rank_scored score_person query (9 ∷ 3 ∷ 7 ∷ 4 ∷ 3 ∷ 5 ∷ []) 2)
    × All
        (IsIncluded (rank_scored score_person query (9 ∷ 3 ∷ 7 ∷ 4 ∷ 3 ∷ 5 ∷ []) 2))
        (score_all score_person query (candidates query (9 ∷ 3 ∷ 7 ∷ 4 ∷ 3 ∷ 5 ∷ [])))
rank_scored-IsDescending_example =
    rank_scored-IsDescending score_person query (9 ∷ 3 ∷ 7 ∷ 4 ∷ 3 ∷ 5 ∷ []) 2

rank-IsSafe_example :
    (length (rank score_person query (9 ∷ 3 ∷ 7 ∷ 4 ∷ 3 ∷ 5 ∷ []) 2) ≤ 2)
    × Distinct (ids (rank score_person query (9 ∷ 3 ∷ 7 ∷ 4 ∷ 3 ∷ 5 ∷ []) 2))
    × ((n : ℕ)
        → elem n (ids (rank score_person query (9 ∷ 3 ∷ 7 ∷ 4 ∷ 3 ∷ 5 ∷ []) 2)) ≡ true
        → (elem n (9 ∷ 3 ∷ 7 ∷ 4 ∷ 3 ∷ 5 ∷ []) ≡ true) × (is_id (some 7) n ≡ false))
rank-IsSafe_example =
    rank-IsSafe score_person query (9 ∷ 3 ∷ 7 ∷ 4 ∷ 3 ∷ 5 ∷ []) 2 score_person-IsNamed
