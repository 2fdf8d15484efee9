-- ===== src/Scorer/Filled.antt =====
-- `rank` gives what its clients rely on: scorer/scorer.py, `ExpertiseScorer.rank`.

use tekijin.Prelude.{
  ℕ, zero, suc, ◌≤◌, ◌≡◌, refl, sym, ap, ◌∙◌, Bool, true, false, not, ◌||◌, Option, none, some,
  List, [], ◌∷◌, map, elem, select, is_id, take, length, length-take, All, arith, Distinct,
  elem-select, ◌==◌,
}
use tekijin.Prelude.Int.{ℤ}
use tekijin.Scorer.Defs.{ScoredCandidate, RankQuery, Ranker, ids}
use tekijin.Scorer.Rank.{
  Scored, ScorePerson, unique, candidates, with_entry, score_all, insert, sort, rank_scored, rank,
}
use tekijin.Scorer.Order.{All-sort}

abbrev people_of : List Scored → List ℕ
people_of [] = []
people_of (s ∷ xs) = s.person_id ∷ people_of xs

unique-from :
    (seen people : List ℕ) (n : ℕ)
    → elem n (unique seen people) ≡ true
    → (elem n people ≡ true) × (elem n seen ≡ false)
unfolding unique
unique-from seen [] n h = ground arith
unique-from seen (m ∷ people) n h =
    ground (arith, unique-from seen people n, unique-from (m ∷ seen) people n)

unique-Distinct : (seen people : List ℕ) → Distinct (unique seen people)
unfolding unique
unique-Distinct seen [] = tt
unique-Distinct seen (m ∷ people) = ground (
  arith,
  unique-Distinct seen people,
  unique-Distinct (m ∷ seen) people,
  unique-from (m ∷ seen) people m,
)

Distinct-select :
    (keep : ℕ → Bool) (people : List ℕ) → Distinct people → Distinct (select keep people)
Distinct-select keep [] h = tt
Distinct-select keep (n ∷ people) h =
    ground (arith, Distinct-select keep people h.1, elem-select keep n people)

candidates-from :
    (q : RankQuery) (people : List ℕ) (n : ℕ)
    → elem n (candidates q people) ≡ true
    → (elem n people ≡ true) × (is_id q.asker_id n ≡ false)
unfolding candidates
candidates-from q people n h =
    let (inside, other) = elem-select (λ n. not (is_id q.asker_id n)) n (unique [] people) h in
    ((unique-from [] people n inside).0, ground arith)

candidates-Distinct : (q : RankQuery) (people : List ℕ) → Distinct (candidates q people)
unfolding candidates
candidates-Distinct q people =
    Distinct-select (λ n. not (is_id q.asker_id n)) (unique [] people) (unique-Distinct [] people)

elem-insert :
    (n : ℕ) (s : Scored) (xs : List Scored)
    → elem n (people_of (insert s xs)) ≡ (n == s.person_id || elem n (people_of xs))
unfolding insert
elem-insert n s [] = refl
elem-insert n s (x ∷ xs) = ground (arith, elem-insert n s xs)

elem-sort : (n : ℕ) (xs : List Scored) → elem n (people_of (sort xs)) ≡ elem n (people_of xs)
unfolding sort
elem-sort n [] = refl
elem-sort n (s ∷ xs) = ground (arith, elem-insert n s (sort xs), elem-sort n xs)

Distinct-insert :
    (s : Scored) (xs : List Scored)
    → elem s.person_id (people_of xs) ≡ false
    → Distinct (people_of xs)
    → Distinct (people_of (insert s xs))
unfolding insert
Distinct-insert s [] e h = (refl, tt)
Distinct-insert s (x ∷ xs) e h = ground (arith, Distinct-insert s xs, elem-insert x.person_id s xs)

Distinct-sort : (xs : List Scored) → Distinct (people_of xs) → Distinct (people_of (sort xs))
unfolding sort
Distinct-sort [] h = tt
Distinct-sort (s ∷ xs) h =
    Distinct-insert s (sort xs) (elem-sort s.person_id xs ∙ h.0) (Distinct-sort xs h.1)

elem-take :
    (n k : ℕ) (xs : List Scored)
    → elem n (people_of (take k xs)) ≡ true
    → elem n (people_of xs) ≡ true
elem-take n zero xs h = ground arith
elem-take n (suc k) [] h = h
elem-take n (suc k) (x ∷ xs) h = ground (arith, elem-take n k xs)

Distinct-take :
    (k : ℕ) (xs : List Scored) → Distinct (people_of xs) → Distinct (people_of (take k xs))
Distinct-take zero xs h = tt
Distinct-take (suc k) [] h = tt
Distinct-take (suc k) (x ∷ xs) h =
    ground (arith, elem-take x.person_id k xs, Distinct-take k xs h.1)

-- The row that `_score_person` builds carries the id of the person it is about.
abbrev pub IsNamed : ScorePerson → Type 0
IsNamed score_person =
    (q : RankQuery) (n : ℕ) (found : ℤ × ScoredCandidate)
    → score_person q n ≡ some found
    → found.1.person_id ≡ n

elem-with_entry :
    (n m : ℕ) (found : Option (ℤ × ScoredCandidate)) (scored : List Scored)
    → elem n (people_of (with_entry m found scored)) ≡ true
    → (n == m || elem n (people_of scored)) ≡ true
elem-with_entry n m none scored h = ground arith
elem-with_entry n m (some (score, row)) scored h = h

Distinct-with_entry :
    (m : ℕ) (found : Option (ℤ × ScoredCandidate)) (scored : List Scored)
    → elem m (people_of scored) ≡ false
    → Distinct (people_of scored)
    → Distinct (people_of (with_entry m found scored))
Distinct-with_entry m none scored e h = h
Distinct-with_entry m (some (score, row)) scored e h = (e, h)

-- An entry whose row names its person.
abbrev IsOwn : Scored → Type 0
IsOwn s = s.row.person_id ≡ s.person_id

All-with_entry :
    (m : ℕ) (found : Option (ℤ × ScoredCandidate)) (scored : List Scored)
    → ((entry : ℤ × ScoredCandidate) → found ≡ some entry → entry.1.person_id ≡ m)
    → All IsOwn scored
    → All IsOwn (with_entry m found scored)
All-with_entry m none scored own h = h
All-with_entry m (some (score, row)) scored own h = (own (score, row) refl, h)

All-take : (k : ℕ) (xs : List Scored) → All IsOwn xs → All IsOwn (take k xs)
All-take zero xs h = tt
All-take (suc k) [] h = tt
All-take (suc k) (x ∷ xs) h = (h.0, All-take k xs h.1)

ids-own : (xs : List Scored) → All IsOwn xs → ids (map (λ (s : Scored). s.row) xs) ≡ people_of xs
ids-own [] h = refl
ids-own (x ∷ xs) h = rw h.0 (ap (◌∷◌ x.person_id) (ids-own xs h.1))

length-rows : (xs : List Scored) → length (map (λ (s : Scored). s.row) xs) ≡ length xs
length-rows [] = refl
length-rows (x ∷ xs) = ap suc (length-rows xs)

module _ (score_person : ScorePerson) (named : IsNamed score_person) (q : RankQuery) where
  elem-score_all :
      (n : ℕ) (people : List ℕ)
      → elem n (people_of (score_all score_person q people)) ≡ true
      → elem n people ≡ true
  unfolding score_all
  elem-score_all n [] h = h
  elem-score_all n (m ∷ people) h =
      let found = elem-with_entry n m (score_person q m) (score_all score_person q people) h in
      ground (arith, elem-score_all n people)

  Distinct-score_all :
      (people : List ℕ) → Distinct people → Distinct (people_of (score_all score_person q people))
  unfolding score_all
  Distinct-score_all [] h = tt
  Distinct-score_all (m ∷ people) h =
      Distinct-with_entry m (score_person q m) (score_all score_person q people)
        (ground (arith, elem-score_all m people, h.0)) (Distinct-score_all people h.1)

  All-score_all : (people : List ℕ) → All IsOwn (score_all score_person q people)
  unfolding score_all
  All-score_all [] = tt
  All-score_all (m ∷ people) =
      All-with_entry m (score_person q m) (score_all score_person q people) (named q m)
        (All-score_all people)

  ids-rank :
      (people : List ℕ) (k : ℕ)
      → ids (rank score_person q people k) ≡ people_of (rank_scored score_person q people k)
  unfolding rank rank_scored
  ids-rank people k = ids-own _ (
      All-take k (sort (score_all score_person q (candidates q people))) (
        All-sort IsOwn (score_all score_person q (candidates q people))
          (All-score_all (candidates q people))))

  pub rank-length : (people : List ℕ) (k : ℕ) → length (rank score_person q people k) ≤ k
  unfolding rank rank_scored
  rank-length people k =
      let rows = sort (score_all score_person q (candidates q people)) in
      rw (length-rows (take k rows)) (length-take k rows)

  pub rank-Distinct : (people : List ℕ) (k : ℕ) → Distinct (ids (rank score_person q people k))
  unfolding rank_scored
  rank-Distinct people k =
      let all = score_all score_person q (candidates q people) in
      rw (ids-rank people k) (
        Distinct-take k (sort all) (
          Distinct-sort all
            (Distinct-score_all (candidates q people) (candidates-Distinct q people))))

  pub rank-from :
      (people : List ℕ) (k n : ℕ)
      → elem n (ids (rank score_person q people k)) ≡ true
      → (elem n people ≡ true) × (is_id q.asker_id n ≡ false)
  unfolding rank_scored
  rank-from people k n h =
      let all = score_all score_person q (candidates q people) in
      let shown : elem n (people_of (take k (sort all))) ≡ true =
        ap (elem n) (sym (ids-rank people k)) ∙ h in
      candidates-from q people n (
        elem-score_all n (candidates q people)
          (sym (elem-sort n all) ∙ elem-take n k (sort all) shown))

-- The scorer as the flow uses it.
abbrev pub ranker : (score_person : ScorePerson) → IsNamed score_person → Ranker
ranker score_person named = record {
  rank = rank score_person;
  rank_length = rank-length score_person named;
  rank_distinct = rank-Distinct score_person named;
  rank_from = rank-from score_person named;
}

-- If each row names its person, the ranking has `top_k` rows at most, one per person, all of them
-- among the candidates and none of them the asker, as `c6_score` relies on.
pub rank-IsSafe :
    (score_person : ScorePerson) (q : RankQuery) (people : List ℕ) (top_k : ℕ)
    → IsNamed score_person
    → (length (rank score_person q people top_k) ≤ top_k)
      × Distinct (ids (rank score_person q people top_k))
      × ((n : ℕ)
          → elem n (ids (rank score_person q people top_k)) ≡ true
          → (elem n people ≡ true) × (is_id q.asker_id n ≡ false))
rank-IsSafe score_person q people top_k named = (
  rank-length score_person named q people top_k,
  rank-Distinct score_person named q people top_k,
  rank-from score_person named q people top_k,
)
