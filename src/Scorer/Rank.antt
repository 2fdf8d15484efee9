-- ===== src/Scorer/Rank.antt =====
-- scorer/scorer.py, `ExpertiseScorer.rank`: who is scored, the order and the cut. What one person
-- scores, `_score_person` over the repository, is an argument; `none` stands for an unknown id.
use tekijin.Prelude.{
  ℕ, Bool, not, ◌&&◌, ◌||◌, Option, none, some, List, [], ◌∷◌, map, if◌then◌else◌, ltb, elem,
  select, is_id, take,
}
use tekijin.Prelude.Int.{ℤ, ltb_ℤ}
use tekijin.Scorer.Defs.{ScoredCandidate, RankQuery}

-- `(score, person_id, record)`, with the score before it is rounded.
pub record Scored : Type 0 where
  pub score : ℤ
  pub person_id : ℕ
  pub row : ScoredCandidate

-- The score and the row of a person who is there.
abbrev pub ScorePerson : Type 0
ScorePerson = RankQuery → ℕ → Option (ℤ × ScoredCandidate)

-- `dict.fromkeys(candidate_ids)`, past the ids seen already.
unfoldable pub unique : List ℕ → List ℕ → List ℕ
unique seen [] = []
unique seen (n ∷ people) =
    let later = unique seen people in
    let rest = unique (n ∷ seen) people in if elem n seen then later else n ∷ rest

unfoldable pub candidates : RankQuery → List ℕ → List ℕ
candidates q people = select (λ n. not (is_id q.asker_id n)) (unique [] people)

-- `if employee is None: continue`, or the person's entry.
abbrev pub with_entry : ℕ → Option (ℤ × ScoredCandidate) → List Scored → List Scored
with_entry n none scored = scored
with_entry n (some (score, row)) scored =
    record { score = score; person_id = n; row = row } ∷ scored

unfoldable pub score_all : ScorePerson → RankQuery → List ℕ → List Scored
score_all score_person q [] = []
score_all score_person q (n ∷ people) =
    with_entry n (score_person q n) (score_all score_person q people)

-- The order of the keys `(-score, person_id)`.
abbrev pub comes_before : Scored → Scored → Bool
comes_before a b =
    ltb_ℤ b.score a.score || (not (ltb_ℤ a.score b.score) && ltb a.person_id b.person_id)

unfoldable pub insert : Scored → List Scored → List Scored
insert s [] = s ∷ []
insert s (x ∷ xs) = let rest = insert s xs in if comes_before x s then x ∷ rest else s ∷ x ∷ xs

unfoldable pub sort : List Scored → List Scored
sort [] = []
sort (s ∷ xs) = insert s (sort xs)

unfoldable pub rank_scored : ScorePerson → RankQuery → List ℕ → ℕ → List Scored
rank_scored score_person q people top_k =
    take top_k (sort (score_all score_person q (candidates q people)))

-- `rank` at a positive `top_k` and a naive `now`.
unfoldable pub rank : ScorePerson → RankQuery → List ℕ → ℕ → List ScoredCandidate
rank score_person q people top_k =
    map (λ (s : Scored). s.row) (rank_scored score_person q people top_k)
