-- ===== src/Scorer/Order.antt =====
-- The order and the cut of scorer/scorer.py, `ExpertiseScorer.rank`.
use mathlib.Core.Path.{subst}
use tekijin.Prelude.{
  ℕ, zero, suc, ◌≡◌, ◌≤◌, ap, true, false, List, [], ◌∷◌, map, if◌then◌else◌, elem, take, All,
  arith, Bool-cases, inl, inr, ◌⊎◌,
}
use tekijin.Prelude.Int.{ℤ, pos, negsuc, ltb_ℤ}
use tekijin.Scorer.Defs.{RankQuery}
use tekijin.Scorer.Rank.{
  Scored, ScorePerson, candidates, score_all, comes_before, insert, sort, rank_scored,
}

ltb_ℤ_asym : (a b : ℤ) → ltb_ℤ a b ≡ true → ltb_ℤ b a ≡ false
ltb_ℤ_asym (pos a) (pos b) h = ground arith
ltb_ℤ_asym (pos a) (negsuc b) h = ground arith
ltb_ℤ_asym (negsuc a) (pos b) h = ground arith
ltb_ℤ_asym (negsuc a) (negsuc b) h = ground arith

ltb_ℤ_trans : (a b c : ℤ) → ltb_ℤ a b ≡ false → ltb_ℤ b c ≡ false → ltb_ℤ a c ≡ false
ltb_ℤ_trans (pos a) (pos b) (pos c) h k = ground arith
ltb_ℤ_trans (pos a) (pos b) (negsuc c) h k = ground arith
ltb_ℤ_trans (pos a) (negsuc b) (pos c) h k = ground arith
ltb_ℤ_trans (pos a) (negsuc b) (negsuc c) h k = ground arith
ltb_ℤ_trans (negsuc a) (pos b) (pos c) h k = ground arith
ltb_ℤ_trans (negsuc a) (pos b) (negsuc c) h k = ground arith
ltb_ℤ_trans (negsuc a) (negsuc b) (pos c) h k = ground arith
ltb_ℤ_trans (negsuc a) (negsuc b) (negsuc c) h k = ground arith

comes_before_asym : (a b : Scored) → comes_before a b ≡ true → comes_before b a ≡ false
comes_before_asym a b h = ground (arith, ltb_ℤ_asym a.score b.score, ltb_ℤ_asym b.score a.score)

comes_before_trans :
    (a b c : Scored)
    → comes_before a b ≡ false
    → comes_before b c ≡ false
    → comes_before a c ≡ false
comes_before_trans a b c h k = ground (
  arith,
  ltb_ℤ_trans b.score a.score c.score,
  ltb_ℤ_trans c.score b.score a.score,
  ltb_ℤ_trans a.score b.score c.score,
  ltb_ℤ_trans b.score c.score a.score,
  ltb_ℤ_trans a.score c.score b.score,
  ltb_ℤ_trans c.score a.score b.score,
)

-- Nobody further down comes before anybody above.
abbrev IsRanked : List Scored → Type 0
IsRanked [] = Unit
IsRanked (x ∷ xs) = All (λ (y : Scored). comes_before y x ≡ false) xs × IsRanked xs

All-insert :
    (P : Scored → Type 0) (s : Scored) (xs : List Scored) → P s → All P xs → All P (insert s xs)
unfolding insert
All-insert P s [] p h = (p, tt)
All-insert P s (x ∷ xs) p h = elim (Bool-cases (comes_before x s)) [
  | inl e ↦ rw e (h.0, All-insert P s xs p h.1)
  | inr e ↦ rw e (p, h)
]

insert-All :
    (P : Scored → Type 0) (s : Scored) (xs : List Scored) → All P (insert s xs) → P s × All P xs
unfolding insert
insert-All P s [] h = (h.0, tt)
insert-All P s (x ∷ xs) h = elim (Bool-cases (comes_before x s)) [
  | inl e ↦
      let moved : All P (x ∷ insert s xs) =
        subst (λ b. All P (if b then x ∷ insert s xs else s ∷ x ∷ xs)) e h in
      let (p, rest) = insert-All P s xs moved.1 in (p, (moved.0, rest))
  | inr e ↦
      let first : All P (s ∷ x ∷ xs) =
        subst (λ b. All P (if b then x ∷ insert s xs else s ∷ x ∷ xs)) e h in
      (first.0, first.1)
]

All-after :
    (s x : Scored) (xs : List Scored)
    → comes_before x s ≡ false
    → All (λ (y : Scored). comes_before y x ≡ false) xs
    → All (λ (y : Scored). comes_before y s ≡ false) xs
All-after s x [] e h = tt
All-after s x (y ∷ xs) e h = (comes_before_trans y x s h.0 e, All-after s x xs e h.1)

insert-IsRanked : (s : Scored) (xs : List Scored) → IsRanked xs → IsRanked (insert s xs)
unfolding insert
insert-IsRanked s [] h = (tt, tt)
insert-IsRanked s (x ∷ xs) h = elim (Bool-cases (comes_before x s)) [
  | inl e ↦ rw e (
    All-insert (λ (y : Scored). comes_before y x ≡ false) s xs (comes_before_asym x s e) h.0,
    insert-IsRanked s xs h.1,
  )
  | inr e ↦ rw e ((e, All-after s x xs e h.0), h)
]

sort-IsRanked : (xs : List Scored) → IsRanked (sort xs)
unfolding sort
sort-IsRanked [] = tt
sort-IsRanked (s ∷ xs) = insert-IsRanked s (sort xs) (sort-IsRanked xs)

sort-All : (P : Scored → Type 0) (xs : List Scored) → All P (sort xs) → All P xs
unfolding sort
sort-All P [] h = tt
sort-All P (s ∷ xs) h = let (p, rest) = insert-All P s (sort xs) h in (p, sort-All P xs rest)

pub All-sort : (P : Scored → Type 0) (xs : List Scored) → All P xs → All P (sort xs)
unfolding sort
All-sort P [] h = tt
All-sort P (s ∷ xs) h = All-insert P s (sort xs) h.0 (All-sort P xs h.1)

take-IsRanked : (k : ℕ) (xs : List Scored) → IsRanked xs → IsRanked (take k xs)
take-IsRanked zero xs h = tt
take-IsRanked (suc k) [] h = tt
take-IsRanked (suc k) (x ∷ xs) h = (All-take k xs h.0, take-IsRanked k xs h.1)
  where
    All-take :
        (k : ℕ) (ys : List Scored)
        → All (λ (y : Scored). comes_before y x ≡ false) ys
        → All (λ (y : Scored). comes_before y x ≡ false) (take k ys)
    All-take zero ys h = tt
    All-take (suc k) [] h = tt
    All-take (suc k) (y ∷ ys) h = (h.0, All-take k ys h.1)

abbrev people_of : List Scored → List ℕ
people_of = map (λ (s : Scored). s.person_id)

-- Among the rows, or behind all of them.
abbrev IsPlaced : List Scored → Scored → Type 0
IsPlaced top c =
    (elem c.person_id (map (λ (s : Scored). s.person_id) top) ≡ true)
    ⊎ All (λ (s : Scored). comes_before c s ≡ false) top

take-IsPlaced : (k : ℕ) (xs : List Scored) → IsRanked xs → All (IsPlaced (take k xs)) xs
take-IsPlaced zero xs h = all xs
  where
    all : (xs : List Scored) → All (IsPlaced []) xs
    all [] = tt
    all (x ∷ xs) = (inr tt, all xs)
take-IsPlaced (suc k) [] h = tt
take-IsPlaced (suc k) (x ∷ xs) h = (inl (ground arith), behind xs h.0 (take-IsPlaced k xs h.1))
  where
    behind :
        (ys : List Scored)
        → All (λ (y : Scored). comes_before y x ≡ false) ys
        → All (IsPlaced (take k xs)) ys
        → All (IsPlaced (x ∷ take k xs)) ys
    behind [] a p = tt
    behind (y ∷ ys) a p = (one p.0, behind ys a.1 p.1)
      where
        one : IsPlaced (take k xs) y → IsPlaced (x ∷ take k xs) y
        one (inl e) = inl (ground arith)
        one (inr e) = inr (a.0, e)

same_score : (a b : ℤ) → ltb_ℤ a b ≡ false → ltb_ℤ b a ≡ false → a ≡ b
same_score (pos a) (pos b) h k = ap pos (ground arith)
same_score (pos a) (negsuc b) h k = ground arith
same_score (negsuc a) (pos b) h k = ground arith
same_score (negsuc a) (negsuc b) h k = ap negsuc (ground arith)

-- A higher score, or the same score and an id that is not higher.
abbrev pub IsAhead : Scored → Scored → Type 0
IsAhead a b = (ltb_ℤ b.score a.score ≡ true) ⊎ ((a.score ≡ b.score) × (a.person_id ≤ b.person_id))

comes_before-IsAhead : (a b : Scored) → comes_before b a ≡ false → IsAhead a b
comes_before-IsAhead a b h = elim (Bool-cases (ltb_ℤ b.score a.score)) [
  | inl e ↦ inl e
  | inr e ↦
      inr (same_score a.score b.score (ground (arith, e)) (ground (arith, e)), ground (arith, e))
]

-- By descending score, and people with the same score by ascending id.
abbrev pub IsDescending : List Scored → Type 0
IsDescending [] = Unit
IsDescending (x ∷ xs) = All (IsAhead x) xs × IsDescending xs

-- Among the rows, or behind all of them.
abbrev pub IsIncluded : List Scored → Scored → Type 0
IsIncluded top c =
    (elem c.person_id (map (λ (s : Scored). s.person_id) top) ≡ true)
    ⊎ All (λ (s : Scored). IsAhead s c) top

All-map :
    {P Q : Scored → Type 0} (xs : List Scored) → ((x : Scored) → P x → Q x) → All P xs → All Q xs
All-map [] f h = tt
All-map (x ∷ xs) f h = (f x h.0, All-map xs f h.1)

IsRanked-IsDescending : (xs : List Scored) → IsRanked xs → IsDescending xs
IsRanked-IsDescending [] h = tt
IsRanked-IsDescending (x ∷ xs) h =
    (All-map xs (λ y. comes_before-IsAhead x y) h.0, IsRanked-IsDescending xs h.1)

IsPlaced-IsIncluded : (top : List Scored) (c : Scored) → IsPlaced top c → IsIncluded top c
IsPlaced-IsIncluded top c (inl e) = inl e
IsPlaced-IsIncluded top c (inr h) = inr (All-map top (λ s. comes_before-IsAhead s c) h)

-- The rows stand by descending score, people with the same score by ascending id; and everyone who
-- is scored is among the rows, or has a lower score than each of them, or the same score and an id
-- that is not lower.
pub rank_scored-IsDescending :
    (score_person : ScorePerson) (q : RankQuery) (people : List ℕ) (top_k : ℕ)
    → IsDescending (rank_scored score_person q people top_k)
      × All
          (IsIncluded (rank_scored score_person q people top_k))
          (score_all score_person q (candidates q people))
unfolding rank_scored
rank_scored-IsDescending score_person q people top_k =
    let all = score_all score_person q (candidates q people) in
    let top = take top_k (sort all) in
    (
      IsRanked-IsDescending top (take-IsRanked top_k (sort all) (sort-IsRanked all)),
      All-map all (IsPlaced-IsIncluded top)
          (sort-All (IsPlaced top) all (take-IsPlaced top_k (sort all) (sort-IsRanked all))),
    )
