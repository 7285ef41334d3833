-- ===== src/Base/Named.antt =====
-- Tables keyed by a text: the search for a name, and the flush of a row that was found.
use mathlib.Core.Path.{◌≡◌, refl, ap, sym, ◌∙◌}
use mathlib.Core.Logic.{inl, inr}
use mathlib.Core.Bool.{false}
use mathlib.Core.List.{List, [], ◌∷◌, ◌++◌}
use mathlib.Core.Option.{Option, none, some}
use native.Mathlib.Omega.{arith}
use setuora_lite.Base.Tests.{Bool-cases}
use setuora_lite.Base.Lists.{find, update_where, find-test}
use setuora_lite.Base.Equality.{Text, ◌==◌, text_eq, ==_refl, eq_of_==}

module _ {ℓ} {A : Type ℓ} (key : A → Text) where
  abbrev pub named : Text → List A → Option A
  named k xs = find (λ x. key x == k) xs

  abbrev pub save_named : A → List A → List A
  save_named y xs = update_where (λ x. key x == key y) (λ _. y) xs

  named-save_named :
      (y : A) (xs : List A) {x : A}
      → named (key y) xs ≡ some x
      → named (key y) (save_named y xs) ≡ some y
  named-save_named y [] h = absurd (ground arith)
  named-save_named y (x ∷ xs) {x = r} h = elim (Bool-cases (key x == key y)) [
    | inl same ↦ rw (same, ==_refl (key y)) refl
    | inr other ↦ rw (other, other) (named-save_named y xs {x = r} (rw other at h))
  ]

  pub named_key : (k : Text) (xs : List A) {x : A} → named k xs ≡ some x → key x ≡ k
  named_key k xs {x = x} h = eq_of_== (key x) k (find-test (λ x. key x == k) xs h)

  -- The row that was saved is found.
  pub named_saved :
      (k : Text) (y : A) (xs : List A) {x : A}
      → key y ≡ k
      → named k xs ≡ some x
      → named k (save_named y xs) ≡ some y
  named_saved k y xs {x = x} e h =
      let here : named (key y) xs ≡ some x = ap (λ i. named i xs) e ∙ h in
      ap (λ i. named i (save_named y xs)) (sym e) ∙ named-save_named y xs {x = x} here

  -- Another row is found as before.
  pub named_other :
      (k : Text) (y : A) (xs : List A)
      → (key y == k) ≡ false
      → named k (save_named y xs) ≡ named k xs
  named_other k y [] h = refl
  named_other k y (x ∷ xs) h = elim (Bool-cases (key x == key y)) [
    | inl same ↦ let e = eq_of_== (key x) (key y) same in rw (same, h, e, h) (named_other k y xs h)
    | inr other ↦ rw other (ground (arith, named_other k y xs h))
  ]

  pub named_new :
      (y : A) (xs : List A) → named (key y) xs ≡ none → named (key y) (xs ++ y ∷ []) ≡ some y
  named_new y [] h = rw (==_refl (key y)) refl
  named_new y (x ∷ xs) h = ground (arith, named_new y xs)

  pub named_kept :
      (k : Text) (xs more : List A) {x : A} → named k xs ≡ some x → named k (xs ++ more) ≡ some x
  named_kept k [] more h = absurd (ground arith)
  named_kept k (y ∷ xs) more {x = x} h = ground (arith, named_kept k xs more {x = x})

  -- Saving twice is saving once.
  pub save_named_idem : (y : A) (xs : List A) → save_named y (save_named y xs) ≡ save_named y xs
  save_named_idem y [] = refl
  save_named_idem y (x ∷ xs) = elim (Bool-cases (key x == key y)) [
    | inl same ↦ rw (same, ==_refl (key y), save_named_idem y xs) refl
    | inr other ↦ rw (other, other, save_named_idem y xs) refl
  ]
