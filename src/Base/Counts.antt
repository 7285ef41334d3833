-- ===== src/Base/Counts.antt =====
-- How many rows a query selects, through the operations on lists.
use Prim.Native.Nat.{ℕ, zero, suc, ◌+◌, ◌≤◌}
use mathlib.Core.Path.{◌≡◌, refl}
use mathlib.Core.Logic.{inl, inr}
use mathlib.Core.Bool.{Bool, true, false}
use mathlib.Core.List.{List, [], ◌∷◌, ◌++◌}
use mathlib.Core.Option.{none}
use native.Mathlib.Omega.{arith}
use setuora_lite.Base.Tests.{if◌then◌else◌, Bool-cases}
use setuora_lite.Base.Lists.{count_where, select, find, take, update_where}

module _ {ℓ} {A : Type ℓ} where
  pub count_none : (p : A → Bool) (xs : List A) → find p xs ≡ none → count_where p xs ≡ 0
  count_none p [] h = refl
  count_none p (x ∷ xs) h = ground (arith, count_none p xs)

  -- What is counted is found by one of two other queries.
  pub count_covered :
      (p q r : A → Bool) (xs : List A)
      → ((x : A) → p x ≡ true → q x ≡ false → r x ≡ false → ⊥)
      → find q xs ≡ none
      → find r xs ≡ none
      → count_where p xs ≡ 0
  count_covered p q r [] h e e' = refl
  count_covered p q r (x ∷ xs) h e e' = elim (Bool-cases (p x)) [
    | inr left ↦ ground (arith, count_covered p q r xs h)
    | inl counted ↦ elim (Bool-cases (q x)) [
      | inl hit ↦ absurd (ground arith)
      | inr miss ↦ elim (Bool-cases (r x)) [
        | inl hit ↦ absurd (ground arith)
        | inr miss' ↦ absurd (h x counted miss miss')
      ]
    ]
  ]

  pub count_where-append :
      (p : A → Bool) (xs ys : List A)
      → count_where p (xs ++ ys) ≡ count_where p xs + count_where p ys
  count_where-append p [] ys = omega arith
  count_where-append p (x ∷ xs) ys = ground (arith, count_where-append p xs ys)

  pub count-snoc :
      (p : A → Bool) (xs : List A) (x : A)
      → count_where p (xs ++ x ∷ []) ≡ count_where p xs + (if p x then 1 else 0)
  count-snoc p [] x = omega arith
  count-snoc p (y ∷ ys) x = omega (arith, count-snoc p ys x)

  pub count-select : (p q : A → Bool) (xs : List A) → count_where p (select q xs) ≤ count_where p xs
  count-select p q [] = omega arith
  count-select p q (x ∷ xs) = ground (arith, count-select p q xs)

  pub count-take :
      (p : A → Bool) (n : ℕ) (xs : List A) → count_where p (take n xs) ≤ count_where p xs
  count-take p zero xs = omega arith
  count-take p (suc n) [] = omega arith
  count-take p (suc n) (x ∷ xs) = ground (arith, count-take p n xs)

  pub count_same :
      (p q : A → Bool) (xs : List A) → ((x : A) → p x ≡ q x) → count_where p xs ≡ count_where q xs
  count_same p q [] h = refl
  count_same p q (x ∷ xs) h = ground (arith, h x, count_same p q xs h)

  -- An update that the query does not see.
  pub count-update :
      (p q : A → Bool) (f : A → A) (xs : List A)
      → ((x : A) → p (f x) ≡ p x)
      → count_where p (update_where q f xs) ≡ count_where p xs
  count-update p q f [] h = refl
  count-update p q f (x ∷ xs) h = elim (Bool-cases (q x)) [
    | inl y ↦ rw (y, h x, count-update p q f xs h) refl
    | inr n ↦ rw (n, count-update p q f xs h) refl
  ]
