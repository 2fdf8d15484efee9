-- ===== src/Prelude/Maps.antt =====
-- Dictionaries with texts as keys, in the order in which the keys went in.
use Prim.Native.String.{String}
use mathlib.Core.Path.{◌≡◌, refl, subst}
use mathlib.Core.Bool.{Bool, true, false}
use mathlib.Core.Option.{Option, none, some}
use mathlib.Core.List.{List, [], ◌∷◌}
use native.Mathlib.Omega.{arith}
use text.Mathlib.TextEquality.{eq_iff}
use mathlib.Core.Logic.{inl, inr}
use tekijin.Prelude.Tests.{if◌then◌else◌, Bool-cases, some-inj}
use tekijin.Prelude.Text.{str_eq}

pub str_eq_refl : (s : String) → str_eq s s ≡ true
str_eq_refl s = (eq_iff s s).1 refl

pub str_eq_sound : (s t : String) → str_eq s t ≡ true → s ≡ t
str_eq_sound s t = (eq_iff s t).0

abbrev pub Map {ℓ} : Type ℓ → Type ℓ
Map A = List (String × A)

module _ {ℓ} {A : Type ℓ} where
  -- `entries.get(key)`
  abbrev pub find : String → Map A → Option A
  find key [] = none
  find key ((k, a) ∷ entries) = if str_eq k key then some a else find key entries

  -- `entries[key] = a`
  abbrev pub put : String → A → Map A → Map A
  put key a [] = (key, a) ∷ []
  put key a ((k, b) ∷ entries) =
      if str_eq k key then (k, a) ∷ entries else (k, b) ∷ put key a entries

  pub find-put_same :
      (key : String) (a : A) (entries : Map A) → find key (put key a entries) ≡ some a
  find-put_same key a [] = rw (str_eq_refl key) refl
  find-put_same key a ((k, b) ∷ entries) = ground (arith, find-put_same key a entries)

  pub find-put_other :
      (key other : String) (a : A) (entries : Map A)
      → str_eq key other ≡ false
      → find other (put key a entries) ≡ find other entries
  find-put_other key other a [] e = rw e refl
  find-put_other key other a ((k, b) ∷ entries) e = elim (Bool-cases (str_eq k key)) [
    | inl same ↦ rw (same, str_eq_sound k key same, e) refl
    | inr apart ↦ rw apart (rw (find-put_other key other a entries e) refl)
  ]

-- A property of every value.
abbrev pub AllOf {ℓ κ} : {A : Type ℓ} → (A → Type κ) → Map A → Type κ
AllOf P [] = Unit
AllOf P ((k, a) ∷ entries) = P a × AllOf P entries

module _ {ℓ κ} {A : Type ℓ} (P : A → Type κ) where
  put_head :
      (same : Bool) (k key : String) (a b : A) (entries after : Map A)
      → P a
      → P b
      → AllOf P entries
      → AllOf P after
      → AllOf P (if same then (k, a) ∷ entries else (k, b) ∷ after)
  put_head true k key a b entries after new old h rest = (new, h)
  put_head false k key a b entries after new old h rest = (old, rest)

  pub AllOf-put :
      (key : String) (a : A) (entries : Map A) → P a → AllOf P entries → AllOf P (put key a entries)
  AllOf-put key a [] new h = (new, tt)
  AllOf-put key a ((k, b) ∷ entries) new h =
      put_head (str_eq k key) k key a b entries (put key a entries) new h.0 h.1
        (AllOf-put key a entries new h.1)

  find_head :
      (same : Bool) (key : String) (b : A) (entries : Map A) {a : A}
      → (if same then some b else find key entries) ≡ some a
      → P b
      → (find key entries ≡ some a → P a)
      → P a
  find_head true key b entries e new rest = subst P (some-inj e) new
  find_head false key b entries e new rest = rest e

  pub AllOf-find :
      (key : String) (entries : Map A) {a : A} → find key entries ≡ some a → AllOf P entries → P a
  AllOf-find key [] e h = cc
  AllOf-find key ((k, b) ∷ entries) e h =
      find_head (str_eq k key) key b entries e h.0 (λ e'. AllOf-find key entries e' h.1)
