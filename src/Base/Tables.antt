-- ===== src/Base/Tables.antt =====
-- Tables keyed by a number: lookup by key, and what an `UPDATE … WHERE` does to a lookup.
use mathlib.Core.Option
use setuora_lite.Base.Tests.{if◌then◌else◌, Bool-cases, nat_beq}
use setuora_lite.Base.Lists.{find, update_where, count_where}
use Prim.Native.Nat.{ℕ}
use mathlib.Core.Path.{◌≡◌, refl}
use mathlib.Core.Logic.{inl, inr}
use mathlib.Core.Bool.{Bool, true, false, ◌&&◌}
use mathlib.Core.List.{List, [], ◌∷◌, ◌++◌}
use mathlib.Core.Option.{Option, none, some}
use native.Mathlib.Omega.{arith}

module _ {ℓ} {A : Type ℓ} (key : A → ℕ) where
  -- `db.get(Model, k)`
  abbrev pub row : ℕ → List A → Option A
  row k xs = find (λ x. nat_beq (key x) k) xs

  -- A primary key: no two rows share it.
  abbrev pub IsKeyed : List A → Type ℓ
  IsKeyed [] = Unit
  IsKeyed (x ∷ xs) = (row (key x) xs ≡ none) × IsKeyed xs

  -- An update that keeps the keys acts on each looked-up row by itself.
  pub row-update_where :
      (p : A → Bool) (f : A → A)
      → ((x : A) → key (f x) ≡ key x)
      → (k : ℕ) (xs : List A)
      → row k (update_where p f xs) ≡ Option.map (λ x. if p x then f x else x) (row k xs)
  row-update_where p f keep k [] = refl
  row-update_where p f keep k (x ∷ xs) = ground (arith, keep x, row-update_where p f keep k xs)

  pub update_where-IsKeyed :
      (p : A → Bool) (f : A → A)
      → ((x : A) → key (f x) ≡ key x)
      → (xs : List A) → IsKeyed xs
      → IsKeyed (update_where p f xs)
  update_where-IsKeyed p f keep [] h = tt
  update_where-IsKeyed p f keep (x ∷ xs) h =
      let e : key (if p x then f x else x) ≡ key x = elim (Bool-cases (p x)) [
        | inl y ↦ rw y (keep x)
        | inr n ↦ rw n refl
      ] in
      (rw (e, row-update_where p f keep (key x) xs, h.0) refl, update_where-IsKeyed p f keep xs h.1)

  -- A row count of one finds the row with the key, and it passes the rest of the test.
  pub row_of_count_one :
      (k : ℕ) (q : A → Bool) (xs : List A)
      → IsKeyed xs
      → count_where (λ x. nat_beq (key x) k && q x) xs ≡ 1
      → (x : A) × (row k xs ≡ some x) × (q x ≡ true)
  row_of_count_one k q [] h e = absurd (omega arith)
  row_of_count_one k q (x ∷ xs) h e = elim (Bool-cases (nat_beq (key x) k)) [
    | inl same ↦ elim (Bool-cases (q x)) [
      | inl good ↦ (x, ground arith, good)
      | inr bad ↦ ground (arith, row_of_count_one k q xs h.1)
    ]
    | inr other ↦ rw other (row_of_count_one k q xs h.1 (ground arith))
  ]

  pub row_key : (k : ℕ) (xs : List A) {x : A} → row k xs ≡ some x → key x ≡ k
  row_key k [] h = absurd (ground arith)
  row_key k (y ∷ xs) h = elim (Bool-cases (nat_beq (key y) k)) [
    | inl same ↦ ground arith
    | inr other ↦ row_key k xs (rw other at h)
  ]

  count_absent :
      (k : ℕ) (q : A → Bool) (xs : List A)
      → row k xs ≡ none
      → count_where (λ x. nat_beq (key x) k && q x) xs ≡ 0
  count_absent k q [] h = refl
  count_absent k q (x ∷ xs) h = ground (arith, count_absent k q xs)

  -- The converse: the row with the key is counted once.
  pub count_of_row :
      (k : ℕ) (q : A → Bool) (xs : List A) (x : A)
      → IsKeyed xs
      → row k xs ≡ some x
      → q x ≡ true
      → count_where (λ x. nat_beq (key x) k && q x) xs ≡ 1
  count_of_row k q [] x h e t = absurd (ground arith)
  count_of_row k q (y ∷ ys) x h e t = ground (arith, count_absent k q ys, count_of_row k q ys x h.1)

module _ {ℓ} {A : Type ℓ} (key : A → ℕ) where
  update_absent :
      (k : ℕ) (f : A → A) (xs : List A)
      → row key k xs ≡ none
      → update_where (λ x. nat_beq (key x) k) f xs ≡ xs
  update_absent k f [] h = refl
  update_absent k f (x ∷ xs) h = ground (arith, update_absent k f xs)

  absent_middle :
      (k : ℕ) (pre : List A) (x : A) (post : List A)
      → row key k (pre ++ x ∷ post) ≡ none
      → nat_beq (key x) k ≡ false
  absent_middle k [] x post h = ground arith
  absent_middle k (y ∷ pre) x post h = ground (arith, absent_middle k pre x post)

  absent_replace :
      (k : ℕ) (pre : List A) (x y : A) (post : List A)
      → key y ≡ key x
      → row key k (pre ++ x ∷ post) ≡ none
      → row key k (pre ++ y ∷ post) ≡ none
  absent_replace k [] x y post e h = ground arith
  absent_replace k (z ∷ pre) x y post e h = ground (arith, absent_replace k pre x y post e)

  -- Replacing a row by one with its key keeps the keys.
  pub replace-IsKeyed :
      (pre : List A) (x y : A) (post : List A)
      → key y ≡ key x
      → IsKeyed key (pre ++ x ∷ post)
      → IsKeyed key (pre ++ y ∷ post)
  replace-IsKeyed [] x y post e h = (rw e h.0, h.1)
  replace-IsKeyed (z ∷ pre) x y post e h =
      (absent_replace (key z) pre x y post e h.0, replace-IsKeyed pre x y post e h.1)

  -- Writing a row by its key replaces that row alone.
  pub update_middle :
      (pre : List A) (x y : A) (post : List A)
      → key y ≡ key x
      → IsKeyed key (pre ++ x ∷ post)
      → update_where (λ r. nat_beq (key r) (key y)) (λ _. y) (pre ++ x ∷ post) ≡ pre ++ y ∷ post
  update_middle [] x y post e h = ground (arith, update_absent (key y) (λ _. y) post)
  update_middle (z ∷ pre) x y post e h =
      ground (arith, absent_middle (key z) pre x post h.0, update_middle pre x y post e h.1)
