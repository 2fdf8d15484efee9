-- ===== src/Store/Newest.antt =====
-- The newest row of a selection: `ORDER BY id DESC LIMIT 1` in data/writes.py.
use tekijin.Prelude.{
  ℕ, ◌≤◌, ◌≡◌, refl, Bool, true, false, Option, none, some, List, [], ◌∷◌, arith, any, All, inl,
  inr, ◌<◌, ◌⊎◌, some-inj,
}
use mathlib.Core.Path.{subst}
use tekijin.Store.Tables.{Recommendation, is_recommendation}
use tekijin.Store.Shown.{newer, newest, row_at}
use tekijin.Store.Integrity.{IsKeyed}

abbrev pub IsKeyedById : List Recommendation → Type 0
IsKeyedById = IsKeyed (λ (p r : Recommendation). is_recommendation p.id r)

pub row_at-any :
    (id : ℕ) (rows : List Recommendation) {r : Recommendation}
    → row_at id rows ≡ some r
    → any (is_recommendation id) rows ≡ true
row_at-any id [] e = cc
row_at-any id (x ∷ rows) {r} e = ground (arith, row_at-any id rows {r = r})

lt_or_le : (a b : ℕ) → (a < b) ⊎ (b ≤ a)
lt_or_le a b = ground arith

-- The newest selected row is there, and is selected; no selected row is newer.
pub record IsNewest (hit : Recommendation → Bool) (rows : List Recommendation) (id : ℕ)
    : Type 0 where
  pub row : Recommendation
  pub found : row_at id rows ≡ some row
  pub selected : hit row ≡ true
  pub last : All (λ (r : Recommendation). hit r ≡ true → r.id ≤ id) rows

All-weaken :
    (hit : Recommendation → Bool) (m id : ℕ) (rows : List Recommendation)
    → m ≤ id
    → All (λ (r : Recommendation). hit r ≡ true → r.id ≤ m) rows
    → All (λ (r : Recommendation). hit r ≡ true → r.id ≤ id) rows
All-weaken hit m id [] h a = tt
All-weaken hit m id (x ∷ rows) h a = (λ e. omega (arith, a.0 e), All-weaken hit m id rows h a.1)

none_selected :
    (hit : Recommendation → Bool) (id : ℕ) (rows : List Recommendation)
    → any hit rows ≡ false
    → All (λ (r : Recommendation). hit r ≡ true → r.id ≤ id) rows
none_selected hit id [] h = tt
none_selected hit id (x ∷ rows) h = (λ e. ground arith, none_selected hit id rows (ground arith))

pub newest-none :
    (hit : Recommendation → Bool) (rows : List Recommendation)
    → newest hit rows ≡ none
    → any hit rows ≡ false
newest-none hit [] e = refl
newest-none hit (x ∷ rows) e = step (hit x) (newest hit rows) refl (newest-none hit rows) e
  where
    step :
        (b : Bool) (o : Option ℕ)
        → hit x ≡ b
        → (o ≡ none → any hit rows ≡ false)
        → newer b x.id o ≡ none
        → any hit (x ∷ rows) ≡ false
    step b (some m) e' k h = cc
    step true none e' k h = cc
    step false none e' k h = let rest = k refl in ground arith

module _ (hit : Recommendation → Bool) (x : Recommendation) (rows : List Recommendation)
    (keyed : any (is_recommendation x.id) rows ≡ false) where
  here :
      (id : ℕ)
      → x.id ≡ id
      → hit x ≡ true
      → All (λ (r : Recommendation). hit r ≡ true → r.id ≤ id) rows
      → IsNewest hit (x ∷ rows) id
  here id e h a = record {
    row = x;
    found = ground arith;
    selected = h;
    last = (λ e'. omega (arith, e), a);
  }

  there : (id : ℕ) → (hit x ≡ true → x.id ≤ id) → IsNewest hit rows id → IsNewest hit (x ∷ rows) id
  there id h n = record {
    row = n.row;
    found = ground (arith, n.found, row_at-any id rows n.found);
    selected = n.selected;
    last = (h, n.last);
  }

  newer-IsNewest :
      (b : Bool) (o : Option ℕ) {id : ℕ}
      → hit x ≡ b
      → (o ≡ none → any hit rows ≡ false)
      → ((m : ℕ) → o ≡ some m → IsNewest hit rows m)
      → newer b x.id o ≡ some id
      → IsNewest hit (x ∷ rows) id
  newer-IsNewest true none {id} e h k e' =
      here id (some-inj e') e (none_selected hit id rows (h refl))
  newer-IsNewest false none e h k e' = cc
  newer-IsNewest false (some m) e h k e' =
      subst (IsNewest hit (x ∷ rows)) (some-inj e') (there m (λ e''. ground arith) (k m refl))
  newer-IsNewest true (some m) {id} e h k e' = elim (lt_or_le m x.id) [
    | inl older ↦
        here id (omega (arith, some-inj e')) e
          (All-weaken hit m id rows (omega (arith, some-inj e')) (k m refl).last)
    | inr younger ↦
        there id (λ e''. omega (arith, some-inj e'))
          (subst (IsNewest hit rows) (omega (arith, some-inj e')) (k m refl))
  ]

pub newest-IsNewest :
    (hit : Recommendation → Bool) (rows : List Recommendation) {id : ℕ}
    → IsKeyedById rows
    → newest hit rows ≡ some id
    → IsNewest hit rows id
newest-IsNewest hit [] keyed e = cc
newest-IsNewest hit (x ∷ rows) keyed e =
    newer-IsNewest hit x rows keyed.0 (hit x) (newest hit rows) refl (newest-none hit rows)
      (λ m e'. newest-IsNewest hit rows keyed.1 e') e
