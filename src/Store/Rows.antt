-- ===== src/Store/Rows.antt =====
-- Statements on the rows of one table, as data/writes.py issues them.

use tekijin.Prelude.{
  ℕ, suc, ◌≡◌, refl, Bool, true, false, not, ◌||◌, List, [], ◌∷◌, ◌++◌, if◌then◌else◌, arith, All,
  select, any,
}

-- `UPDATE … SET change WHERE hit`
abbrev pub update {ℓ} : {A : Type ℓ} → (A → Bool) → (A → A) → List A → List A
update hit change [] = []
update hit change (x ∷ rows) = (if hit x then change x else x) ∷ update hit change rows

-- `rowcount`
abbrev pub count {ℓ} : {A : Type ℓ} → (A → Bool) → List A → ℕ
count hit [] = 0
count hit (x ∷ rows) = if hit x then suc (count hit rows) else count hit rows

-- `DELETE … WHERE hit`
abbrev pub delete {ℓ} : {A : Type ℓ} → (A → Bool) → List A → List A
delete hit = select (λ x. not (hit x))

module _ {ℓ} {A : Type ℓ} where
  pub any-append :
      (hit : A → Bool) (xs ys : List A) → any hit (xs ++ ys) ≡ (any hit xs || any hit ys)
  any-append hit [] ys = refl
  any-append hit (x ∷ xs) ys = ground (arith, any-append hit xs ys)

  pub All-append : (P : A → Type 0) (xs ys : List A) → All P xs → All P ys → All P (xs ++ ys)
  All-append P [] ys hx hy = hy
  All-append P (x ∷ xs) ys hx hy = (hx.0, All-append P xs ys hx.1 hy)

  pub All-imp : {P Q : A → Type 0} (xs : List A) → ((x : A) → P x → Q x) → All P xs → All Q xs
  All-imp [] f h = tt
  All-imp (x ∷ xs) f h = (f x h.0, All-imp xs f h.1)

  -- What holds of every row that a DELETE leaves.
  pub All-delete :
      {P Q : A → Type 0} (hit : A → Bool) (xs : List A)
      → ((x : A) → hit x ≡ false → P x → Q x)
      → All P xs
      → All Q (delete hit xs)
  All-delete hit [] f h = tt
  All-delete hit (x ∷ xs) f h = let rest = All-delete hit xs f h.1 in ground (arith, f x)

  pub All-update :
      {P Q : A → Type 0} (hit : A → Bool) (change : A → A) (xs : List A)
      → ((x : A) → P x → Q x)
      → ((x : A) → hit x ≡ true → P x → Q (change x))
      → All P xs
      → All Q (update hit change xs)
  All-update hit change [] keep new h = tt
  All-update {P} {Q} hit change (x ∷ xs) keep new h =
      (head (hit x) refl, All-update hit change xs keep new h.1)
    where
      head : (b : Bool) → hit x ≡ b → Q (if b then change x else x)
      head true e = new x e h.0
      head false e = keep x h.0

  -- No row is hit after the DELETE.
  pub any-delete : (hit : A → Bool) (xs : List A) → any hit (delete hit xs) ≡ false
  any-delete hit [] = refl
  any-delete hit (x ∷ xs) = ground (arith, any-delete hit xs)

  -- Rows that a DELETE does not hit are kept, in order.
  pub select-delete :
      (keep hit : A → Bool) (xs : List A)
      → ((x : A) → keep x ≡ true → hit x ≡ false)
      → select keep (delete hit xs) ≡ select keep xs
  select-delete keep hit [] apart = refl
  select-delete keep hit (x ∷ xs) apart = ground (arith, select-delete keep hit xs apart, apart x)

  -- A row found by a test that the DELETE does not hit is still found.
  pub any-delete_keep :
      (test hit : A → Bool) (xs : List A)
      → ((x : A) → test x ≡ true → hit x ≡ false)
      → any test (delete hit xs) ≡ any test xs
  any-delete_keep test hit [] apart = refl
  any-delete_keep test hit (x ∷ xs) apart =
      ground (arith, any-delete_keep test hit xs apart, apart x)

  pub any-update :
      (test hit : A → Bool) (change : A → A) (xs : List A)
      → ((x : A) → test (change x) ≡ test x)
      → any test (update hit change xs) ≡ any test xs
  any-update test hit change [] same = refl
  any-update test hit change (x ∷ xs) same =
      ground (arith, any-update test hit change xs same, same x)

  -- An UPDATE that hits no row of a selection leaves it.
  pub select-update :
      (keep hit : A → Bool) (change : A → A) (xs : List A)
      → ((x : A) → keep (change x) ≡ keep x)
      → ((x : A) → keep x ≡ true → hit x ≡ false)
      → select keep (update hit change xs) ≡ select keep xs
  select-update keep hit change [] same apart = refl
  select-update keep hit change (x ∷ xs) same apart =
      ground (arith, select-update keep hit change xs same apart, same x, apart x)

  -- A second UPDATE hits no row, if a changed row is not hit again.
  pub count-update_again :
      (hit : A → Bool) (change : A → A) (xs : List A)
      → ((x : A) → hit (change x) ≡ false)
      → count hit (update hit change xs) ≡ 0
  count-update_again hit change [] done = refl
  count-update_again hit change (x ∷ xs) done =
      ground (arith, count-update_again hit change xs done, done x)

  pub update-update_again :
      (hit : A → Bool) (change again : A → A) (xs : List A)
      → ((x : A) → hit (change x) ≡ false)
      → update hit again (update hit change xs) ≡ update hit change xs
  update-update_again hit change again [] done = refl
  update-update_again hit change again (x ∷ xs) done =
      ground (arith, update-update_again hit change again xs done, done x)
