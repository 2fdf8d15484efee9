-- ===== src/Prelude/Lists.antt =====
-- Lists measured by native numbers, with the Python idioms that the program uses on them.
use Prim.Native.Nat.{ℕ, zero, suc, ◌+◌, ◌≤◌}
use mathlib.Core.Path.{◌≡◌, refl}
use mathlib.Core.Bool.{Bool, true, false, ◌||◌}
use mathlib.Core.Option.{Option, none, some}
use mathlib.Core.List.{List, [], ◌∷◌, ◌++◌}
use native.Mathlib.Omega.{arith}
use tekijin.Prelude.Tests.{◌==◌, ltb, if◌then◌else◌}

module _ {ℓ} {A : Type ℓ} where
  abbrev pub length : List A → ℕ
  length [] = 0
  length (x ∷ xs) = suc (length xs)

  abbrev pub take : ℕ → List A → List A
  take zero xs = []
  take (suc n) [] = []
  take (suc n) (x ∷ xs) = x ∷ take n xs

  abbrev pub head? : List A → Option A
  head? [] = none
  head? (x ∷ xs) = some x

  -- `xs[1:]`
  abbrev pub tail : List A → List A
  tail [] = []
  tail (x ∷ xs) = xs

  -- `bool(xs)`
  abbrev pub is_nonempty : List A → Bool
  is_nonempty [] = false
  is_nonempty (x ∷ xs) = true

  -- `[x for x in xs if keep(x)]`
  abbrev pub select : (A → Bool) → List A → List A
  select keep [] = []
  select keep (x ∷ xs) = if keep x then x ∷ select keep xs else select keep xs

  abbrev pub any : (A → Bool) → List A → Bool
  any test [] = false
  any test (x ∷ xs) = test x || any test xs

  pub length-append : (xs ys : List A) → length (xs ++ ys) ≡ length xs + length ys
  length-append [] ys = omega arith
  length-append (x ∷ xs) ys = omega (arith, length-append xs ys)

  pub length-take : (n : ℕ) (xs : List A) → length (take n xs) ≤ n
  length-take zero xs = omega arith
  length-take (suc n) [] = omega arith
  length-take (suc n) (x ∷ xs) = omega (arith, length-take n xs)

-- `n in ns`
abbrev pub elem : ℕ → List ℕ → Bool
elem n [] = false
elem n (m ∷ ms) = n == m || elem n ms

pub elem-append : (n : ℕ) (xs ys : List ℕ) → elem n (xs ++ ys) ≡ (elem n xs || elem n ys)
elem-append n [] ys = refl
elem-append n (x ∷ xs) ys = ground (arith, elem-append n xs ys)

pub elem-select :
    (keep : ℕ → Bool) (n : ℕ) (xs : List ℕ)
    → elem n (select keep xs) ≡ true
    → (elem n xs ≡ true) × (keep n ≡ true)
elem-select keep n [] h = ground arith
elem-select keep n (x ∷ xs) h = ground (arith, elem-select keep n xs)

-- No number twice.
abbrev pub Distinct : List ℕ → Type 0
Distinct [] = Unit
Distinct (x ∷ xs) = (elem x xs ≡ false) × Distinct xs

-- No number in both.
abbrev pub Apart : List ℕ → List ℕ → Type 0
Apart xs ys = (n : ℕ) → elem n xs ≡ true → elem n ys ≡ false

pub Distinct-append :
    (xs ys : List ℕ) → Distinct xs → Distinct ys → Apart xs ys → Distinct (xs ++ ys)
Distinct-append [] ys dx dy a = dy
Distinct-append (x ∷ xs) ys dx dy a = (
  ground (arith, elem-append x xs ys, a x),
  Distinct-append xs ys dx.1 dy (λ n h. a n (ground arith)),
)

-- `max(xs, key=key)`: the first of the greatest.
abbrev pub max_by {ℓ} : {A : Type ℓ} → (A → ℕ) → A → List A → A
max_by key best [] = best
max_by key best (x ∷ xs) = max_by key (if ltb (key best) (key x) then x else best) xs

abbrev pub top_by {ℓ} : {A : Type ℓ} → (A → ℕ) → List A → Option A
top_by key [] = none
top_by key (x ∷ xs) = some (max_by key x xs)

abbrev pub All {ℓ κ} : {A : Type ℓ} → (A → Type κ) → List A → Type κ
All P [] = Unit
All P (x ∷ xs) = P x × All P xs

pub elem-select_keep :
    (keep : ℕ → Bool) (n : ℕ) (xs : List ℕ)
    → elem n xs ≡ true
    → keep n ≡ true
    → elem n (select keep xs) ≡ true
elem-select_keep keep n [] h k = h
elem-select_keep keep n (x ∷ xs) h k = ground (arith, elem-select_keep keep n xs)
