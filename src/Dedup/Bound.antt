-- ===== src/Dedup/Bound.antt =====
-- The bound of the memory: slack/dedup.py, `SeenEventIds.seen_before`.
use text.Mathlib.TextEquality.{eq_iff}
use tekijin.Prelude.{
  ℕ, ◌+◌, ◌≤◌, ◌≡◌, refl, String, true, false, List, [], ◌∷◌, ◌++◌, ltb, length, if◌then◌else◌,
  arith, Bool-cases, inl, inr, str_eq, tail, length-append,
}
use tekijin.Dedup.Defs.{SeenEventIds, contains, remove, evict, seen_before}

-- No id twice.
abbrev pub IsDistinct : List String → Type 0
IsDistinct [] = Unit
IsDistinct (x ∷ seen) = (contains x seen ≡ false) × IsDistinct seen

-- The memory is within its bound, and holds no id twice.
pub record IsBounded (s : SeenEventIds) : Type 0 where
  pub few : length s.seen ≤ s.max_size
  pub distinct : IsDistinct s.seen

contains-snoc :
    (id new : String) (seen : List String)
    → contains id (seen ++ (new ∷ [])) ≡ (if contains id seen then true else str_eq new id)
contains-snoc id new [] = ground arith
contains-snoc id new (x ∷ seen) = ground (arith, contains-snoc id new seen)

IsDistinct-snoc :
    (new : String) (seen : List String)
    → IsDistinct seen
    → contains new seen ≡ false
    → IsDistinct (seen ++ (new ∷ []))
IsDistinct-snoc new [] h c = (refl, tt)
IsDistinct-snoc new (x ∷ seen) h c = (
  ground (arith, contains-snoc x new seen, eq_iff new x, eq_iff x new),
  IsDistinct-snoc new seen h.1 (ground arith),
)

contains-remove_ne :
    (id gone : String) (seen : List String)
    → contains id seen ≡ false
    → contains id (remove gone seen) ≡ false
contains-remove_ne id gone [] h = refl
contains-remove_ne id gone (x ∷ seen) h = ground (arith, contains-remove_ne id gone seen)

pub contains-remove_self :
    (id : String) (seen : List String) → IsDistinct seen → contains id (remove id seen) ≡ false
contains-remove_self id [] h = refl
contains-remove_self id (x ∷ seen) h = ground (arith, contains-remove_self id seen h.1, eq_iff x id)

IsDistinct-remove :
    (id : String) (seen : List String) → IsDistinct seen → IsDistinct (remove id seen)
IsDistinct-remove id [] h = tt
IsDistinct-remove id (x ∷ seen) h =
    ground (arith, IsDistinct-remove id seen h.1, contains-remove_ne x id seen)

length-remove :
    (id : String) (seen : List String)
    → contains id seen ≡ true
    → length (remove id seen) + 1 ≡ length seen
length-remove id [] h = cc
length-remove id (x ∷ seen) h = ground (arith, length-remove id seen)

pub length-snoc :
    (new : String) (seen : List String) → length (seen ++ (new ∷ [])) ≡ length seen + 1
length-snoc new seen = omega (arith, length-append {0} seen (new ∷ []))

IsDistinct-tail : (seen : List String) → IsDistinct seen → IsDistinct (tail seen)
IsDistinct-tail [] h = tt
IsDistinct-tail (x ∷ seen) h = h.1

length-tail-le : (seen : List String) (n : ℕ) → length seen ≤ n + 1 → length (tail seen) ≤ n
length-tail-le [] n h = omega arith
length-tail-le (x ∷ seen) n h = omega arith

evict-few :
    (most : ℕ) (seen : List String) → length seen ≤ most + 1 → length (evict most seen) ≤ most
unfolding evict
evict-few most seen h = ground (arith, length-tail-le seen most h)

evict-IsDistinct : (most : ℕ) (seen : List String) → IsDistinct seen → IsDistinct (evict most seen)
unfolding evict
evict-IsDistinct most seen h = elim (Bool-cases (ltb most (length seen))) [
  | inl e ↦ rw e (IsDistinct-tail seen h)
  | inr e ↦ rw e h
]

-- Every delivery keeps the memory within its bound, with no id twice.
pub seen_before-IsBounded :
    (s : SeenEventIds) (id : String) → IsBounded s → IsBounded (seen_before s id).0
unfolding seen_before
seen_before-IsBounded s id h = elim (Bool-cases (contains id s.seen)) [
  | inl e ↦ rw e (record {
    few = omega (arith, length-snoc id (remove id s.seen), length-remove id s.seen e, h.few);
    distinct =
        IsDistinct-snoc id (remove id s.seen) (IsDistinct-remove id s.seen h.distinct)
          (contains-remove_self id s.seen h.distinct);
  })
  | inr e ↦ rw e (record {
    few = evict-few s.max_size (s.seen ++ (id ∷ [])) (omega (arith, length-snoc id s.seen, h.few));
    distinct =
        evict-IsDistinct s.max_size (s.seen ++ (id ∷ [])) (IsDistinct-snoc id s.seen h.distinct e);
  })
]
