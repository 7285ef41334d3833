-- ===== src/Inventory/Fefo/Order.antt =====
-- The order of the candidates.
use setuora_lite.Base.{[], ◌∷◌, List, true, false, arith, inl, inr, Bool-cases, All, ◌≡◌}
use setuora_lite.Model.{Serial}
use setuora_lite.Inventory.Fefo.{comes_first, expires_before, insert_serial, order_by_expiry}

-- `c` does not expire before `e`.
abbrev pub IsNotBefore : Serial → Serial → Type 0
IsNotBefore e c = expires_before c.expiry_date e.expiry_date ≡ false

comes_first-IsNotBefore : (a b : Serial) → comes_first a b ≡ true → IsNotBefore a b
unfolding comes_first expires_before
comes_first-IsNotBefore a b h = ground arith

comes_after-IsNotBefore : (a b : Serial) → comes_first a b ≡ false → IsNotBefore b a
unfolding comes_first expires_before
comes_after-IsNotBefore a b h = ground arith

pub IsNotBefore-trans : (a b c : Serial) → IsNotBefore a b → IsNotBefore b c → IsNotBefore a c
unfolding expires_before
IsNotBefore-trans a b c p q = ground arith

abbrev pub IsOrdered : List Serial → Type 0
IsOrdered [] = Unit
IsOrdered (x ∷ xs) = All (IsNotBefore x) xs × IsOrdered xs

All-insert :
    (P : Serial → Type 0) (x : Serial) (xs : List Serial)
    → P x
    → All P xs
    → All P (insert_serial x xs)
unfolding insert_serial
All-insert P x [] p h = (p, tt)
All-insert P x (y ∷ ys) p h = elim (Bool-cases (comes_first x y)) [
  | inl first ↦ rw first (p, h)
  | inr later ↦ rw later (h.0, All-insert P x ys p h.1)
]

All-trans :
    (x y : Serial) (ys : List Serial)
    → IsNotBefore x y
    → All (IsNotBefore y) ys
    → All (IsNotBefore x) ys
All-trans x y [] p h = tt
All-trans x y (z ∷ zs) p h = (IsNotBefore-trans x y z p h.0, All-trans x y zs p h.1)

insert-IsOrdered : (x : Serial) (xs : List Serial) → IsOrdered xs → IsOrdered (insert_serial x xs)
unfolding insert_serial
insert-IsOrdered x [] h = (tt, tt)
insert-IsOrdered x (y ∷ ys) h = elim (Bool-cases (comes_first x y)) [
  | inl first ↦
      let p = comes_first-IsNotBefore x y first in rw first ((p, All-trans x y ys p h.0), h)
  | inr later ↦ rw later (
    All-insert (IsNotBefore y) x ys (comes_after-IsNotBefore x y later) h.0,
    insert-IsOrdered x ys h.1,
  )
]

pub order_by_expiry-IsOrdered : (xs : List Serial) → IsOrdered (order_by_expiry xs)
unfolding order_by_expiry
order_by_expiry-IsOrdered [] = tt
order_by_expiry-IsOrdered (x ∷ xs) =
    insert-IsOrdered x (order_by_expiry xs) (order_by_expiry-IsOrdered xs)

All-insert-back :
    (P : Serial → Type 0) (x : Serial) (xs : List Serial)
    → All P (insert_serial x xs)
    → P x × All P xs
unfolding insert_serial
All-insert-back P x [] h = h
All-insert-back P x (y ∷ ys) h = elim (Bool-cases (comes_first x y)) [
  | inl first ↦ rw first at h
  | inr later ↦
      let h' : All P (y ∷ insert_serial x ys) = rw later at h in
      let (p, rest) = All-insert-back P x ys h'.1 in (p, (h'.0, rest))
]

-- The ordered rows are the rows.
pub All-order_by_expiry :
    (P : Serial → Type 0) (xs : List Serial)
    → (All P xs → All P (order_by_expiry xs)) × (All P (order_by_expiry xs) → All P xs)
unfolding order_by_expiry
All-order_by_expiry P [] = (λ h. h, λ h. h)
All-order_by_expiry P (x ∷ xs) =
    let (forth, back) = All-order_by_expiry P xs in
    (
      λ h. All-insert P x (order_by_expiry xs) h.0 (forth h.1),
      λ h. let (p, rest) = All-insert-back P x (order_by_expiry xs) h in (p, back rest),
    )
