-- ===== src/Dedup/Memory.antt =====
-- What the guard remembers: slack/dedup.py, `SeenEventIds.seen_before`.
use text.Mathlib.TextEquality.{eq_iff}
use tekijin.Prelude.{
  ℕ, ◌+◌, ◌≤◌, ◌<◌, ◌≡◌, ◌≢◌, String, true, false, List, [], ◌∷◌, ◌++◌, length, if◌then◌else◌,
  arith, Bool-cases, inl, inr, str_eq, All, Option, none, some,
}
use tekijin.Dedup.Defs.{SeenEventIds, contains, remove, evict, seen_before, after_all}
use tekijin.Dedup.Bound.{IsBounded, contains-remove_self, length-snoc}

-- How many ids came behind one.
abbrev behind : String → List String → Option ℕ
behind id [] = none
behind id (x ∷ seen) = if str_eq x id then some (length seen) else behind id seen

-- An id is remembered, with at most `k` ids behind it.
abbrev IsRemembered : ℕ → String → SeenEventIds → Type 0
IsRemembered k id s = (n : ℕ) × (behind id s.seen ≡ some n) × (n ≤ k)

behind-snoc :
    (id new : String) (seen : List String) (n : ℕ)
    → behind id seen ≡ some n
    → behind id (seen ++ (new ∷ [])) ≡ some (n + 1)
behind-snoc id new [] n h = cc
behind-snoc id new (x ∷ seen) n h = ground (arith, behind-snoc id new seen n, length-snoc new seen)

behind-snoc_self :
    (id : String) (seen : List String)
    → contains id seen ≡ false
    → behind id (seen ++ (id ∷ [])) ≡ some 0
behind-snoc_self id [] h = ground (arith, eq_iff id id)
behind-snoc_self id (x ∷ seen) h = ground (arith, behind-snoc_self id seen)

length-remove-le : (gone : String) (seen : List String) → length (remove gone seen) ≤ length seen
length-remove-le gone [] = omega arith
length-remove-le gone (x ∷ seen) = ground (arith, length-remove-le gone seen)

behind-remove :
    (id gone : String) (seen : List String) (n : ℕ)
    → gone ≢ id
    → behind id seen ≡ some n
    → (m : ℕ) × (behind id (remove gone seen) ≡ some m) × (m ≤ n)
behind-remove id gone [] n ne h = cc
behind-remove id gone (x ∷ seen) n ne h = elim (Bool-cases (str_eq x gone)) [
  | inl e ↦ (n, ground (arith, eq_iff x gone, eq_iff x id), omega arith)
  | inr e ↦ elim (Bool-cases (str_eq x id)) [
    | inl e' ↦ (length (remove gone seen), ground arith, ground (arith, length-remove-le gone seen))
    | inr e' ↦
        let (m, f, le) = behind-remove id gone seen n ne (ground arith) in (m, ground arith, le)
  ]
]

behind-evict :
    (most : ℕ) (id : String) (seen : List String) (n : ℕ)
    → behind id seen ≡ some n
    → n < most
    → behind id (evict most seen) ≡ some n
unfolding evict
behind-evict most id [] n h r = cc
behind-evict most id (x ∷ seen) n h r = ground arith

behind-contains :
    (id : String) (seen : List String) (n : ℕ) → behind id seen ≡ some n → contains id seen ≡ true
behind-contains id [] n h = cc
behind-contains id (x ∷ seen) n h = ground (arith, behind-contains id seen n)

seen_before-max_size : (s : SeenEventIds) (id : String) → (seen_before s id).0.max_size ≡ s.max_size
unfolding seen_before
seen_before-max_size s id = ground arith

-- Right after its delivery an id is remembered, with nothing behind it.
seen_before-remembers :
    (s : SeenEventIds) (id : String)
    → IsBounded s
    → 0 < s.max_size
    → IsRemembered 0 id (seen_before s id).0
unfolding seen_before
seen_before-remembers s id h pos = elim (Bool-cases (contains id s.seen)) [
  | inl e ↦ rw e (
    0,
    behind-snoc_self id (remove id s.seen) (contains-remove_self id s.seen h.distinct),
    omega arith,
  )
  | inr e ↦ rw e (
    0,
    behind-evict s.max_size id (s.seen ++ (id ∷ [])) 0 (behind-snoc_self id s.seen e) pos,
    omega arith,
  )
]

-- The delivery of another id puts at most one more behind.
seen_before-still :
    (s : SeenEventIds) (id new : String) (k : ℕ)
    → new ≢ id
    → k + 1 < s.max_size
    → IsRemembered k id s
    → IsRemembered (k + 1) id (seen_before s new).0
unfolding seen_before
seen_before-still s id new k ne room (n, h, le) = elim (Bool-cases (contains new s.seen)) [
  | inl e ↦
      let (m, f, le') = behind-remove id new s.seen n ne h in
      rw e (m + 1, behind-snoc id new (remove new s.seen) m f, omega arith)
  | inr e ↦ rw e (
    n + 1,
    behind-evict s.max_size id (s.seen ++ (new ∷ [])) (n + 1) (behind-snoc id new s.seen n h)
        (omega arith),
    omega arith,
  )
]

after_all-contains :
    (s : SeenEventIds) (id : String) (k : ℕ) (others : List String)
    → All (λ new. new ≢ id) others
    → k + length others < s.max_size
    → IsRemembered k id s
    → contains id (after_all s others).seen ≡ true
unfolding after_all
after_all-contains s id k [] ne room (n, h, le) = behind-contains id s.seen n h
after_all-contains s id k (new ∷ others) ne room h =
    after_all-contains (seen_before s new).0 id (k + 1) others ne.1
      (omega (arith, seen_before-max_size s new))
      (seen_before-still s id new k ne.0 (omega arith) h)

-- In a memory within its bound and with no id twice, a repeated delivery is recognised, if fewer
-- than `max_size` deliveries of other ids came between.
pub seen_before_repeated :
    (s : SeenEventIds) (id : String) (others : List String)
    → IsBounded s
    → All (λ new. new ≢ id) others
    → length others < s.max_size
    → (seen_before (after_all (seen_before s id).0 others) id).1 ≡ true
seen_before_repeated s id others h ne room =
    let kept =
      after_all-contains (seen_before s id).0 id 0 others ne
        (omega (arith, seen_before-max_size s id)) (seen_before-remembers s id h (omega arith)) in
    unfold seen_before in rw kept
