-- ===== src/Transfer/Inbound/Marks.antt =====
-- The marks that a receipt writes: on the scanned, unreceived items of the transfer, and no others.
use mathlib.Core.Option.{Option}
use mathlib.Core.Option
use setuora_lite.Base.{
  ℕ, [], ◌∷◌, refl, List, arith, nat_eq, none, some, inl, inr, row, IsKeyed, nat_beq, Bool, true,
  ◌≡◌, false, if◌then◌else◌, select, ◌||◌, ◌==◌, Option-cases, row-update_where, Bool-cases, ◌&&◌,
  row_key, not,
}
use setuora_lite.Model.{User}
use setuora_lite.Transfer.Rows.{items_of, TransferItem, Stock, returns, Outcome-cases}
use setuora_lite.Transfer.Moves.{move_items, mark_received, move_item, item_serial}
use setuora_lite.Transfer.Inbound.{is_receipt_item, Transfer, receipt_move, receipt_items, items_of}

abbrev pub item_row : ℕ → List TransferItem → Option TransferItem
item_row k items = row (λ (i : TransferItem). i.id) k items

abbrev pub IsKeyedItems : List TransferItem → Type 0
IsKeyedItems = IsKeyed (λ (i : TransferItem). i.id)

-- The items after the loop's marks, in the order of the loop.
abbrev pub mark_all : ℕ → List TransferItem → List TransferItem → List TransferItem
mark_all now [] items = items
mark_all now (x ∷ xs) items = mark_all now xs (mark_received now x items)

abbrev pub has_id : ℕ → List TransferItem → Bool
has_id k [] = false
has_id k (x ∷ xs) = nat_beq k x.id || has_id k xs

abbrev pub as_received : ℕ → TransferItem → TransferItem
as_received now i = record i { received = true; received_at = some now }

map-kept : (o : Option TransferItem) → Option.map (λ i. i) o ≡ o
map-kept Option.none = refl
map-kept (Option.some i) = refl

row-mark_received :
    (now : ℕ) (x : TransferItem) (k : ℕ) (items : List TransferItem)
    → item_row k (mark_received now x items)
      ≡ Option.map (λ i. if i.id == x.id then as_received now i else i) (item_row k items)
unfolding mark_received
row-mark_received now x k items =
    row-update_where (λ (i : TransferItem). i.id) (λ i. i.id == x.id) (as_received now) (λ i. refl)
      k items

row-mark_all :
    (now : ℕ) (xs : List TransferItem) (k : ℕ) (items : List TransferItem)
    → item_row k (mark_all now xs items)
      ≡ Option.map (λ i. if has_id i.id xs then as_received now i else i) (item_row k items)
row-mark_all now [] k items = elim (Option-cases (item_row k items)) [
  | inl absent ↦ rw absent refl
  | inr (i, e) ↦ rw e refl
]
row-mark_all now (x ∷ xs) k items = elim (Option-cases (item_row k items)) [
  | inl absent ↦
      rw
        (row-mark_all now xs k (mark_received now x items), row-mark_received now x k items, absent)
        refl
  | inr (i, e) ↦
      rw (row-mark_all now xs k (mark_received now x items), row-mark_received now x k items, e)
        (ground arith)
]

-- The loop marks its items, and leaves the others.
move_item-marks :
    (now : ℕ) (user : User) (t : Transfer) (x : TransferItem) (st : Stock) {st' : Stock}
    → move_item (receipt_move now) user t x st ≡ returns st'
    → st'.items ≡ mark_received now x st.items
unfolding move_item
move_item-marks now user t x st h = elim (Option-cases (item_serial x st)) [
  | inl absent ↦ absurd (ground arith)
  | inr (serial, found) ↦ ground arith
]

pub move_items-marks :
    (now : ℕ) (user : User) (t : Transfer) (xs : List TransferItem) (st : Stock) {st' : Stock}
    → move_items (receipt_move now) user t xs st ≡ returns st'
    → st'.items ≡ mark_all now xs st.items
unfolding move_items
move_items-marks now user t [] st h = ground arith
move_items-marks now user t (x ∷ xs) st {st' = st'} h =
    elim (Outcome-cases (move_item (receipt_move now) user t x st)) [
      | inr (e, failed) ↦ absurd (ground arith)
      | inl (st1, one) ↦
          let marked = move_item-marks now user t x st {st' = st1} one in
          let rest : move_items (receipt_move now) user t xs st1 ≡ returns st' = ground arith in
          rw (move_items-marks now user t xs st1 {st' = st'} rest, marked) refl
    ]

has_id-absent :
    (p : TransferItem → Bool) (k : ℕ) (items : List TransferItem)
    → item_row k items ≡ none
    → has_id k (select p items) ≡ false
has_id-absent p k [] e = refl
has_id-absent p k (x ∷ xs) e = elim (Bool-cases (p x)) [
  | inl y ↦ ground (arith, has_id-absent p k xs)
  | inr n ↦ ground (arith, has_id-absent p k xs)
]

-- Of a keyed table, a row's number is among the selected ones if the row itself is selected.
has_id-select :
    (p : TransferItem → Bool) (k : ℕ) (items : List TransferItem) (i : TransferItem)
    → IsKeyedItems items
    → item_row k items ≡ some i
    → has_id k (select p items) ≡ p i
has_id-select p k [] i keyed e = absurd (ground arith)
has_id-select p k (x ∷ xs) i keyed e = elim (Bool-cases (nat_beq x.id k)) [
  | inl same ↦
      let key : x.id ≡ k = ground arith in
      let absent : has_id k (select p xs) ≡ false = has_id-absent p k xs (rw key at keyed.0) in
      let own : x ≡ i = ground arith in
      elim (Bool-cases (p x)) [ inl y ↦ ground (arith, own) | inr n ↦ ground (arith, own) ]
  | inr other ↦
      let rest = has_id-select p k xs i keyed.1 (rw other at e) in
      elim (Bool-cases (p x)) [ inl y ↦ ground (arith, rest) | inr n ↦ ground (arith, rest) ]
]

select-select {ℓ} :
    {A : Type ℓ} (p q : A → Bool) (xs : List A)
    → select p (select q xs) ≡ select (λ x. q x && p x) xs
select-select p q [] = refl
select-select p q (x ∷ xs) = elim (Bool-cases (q x)) [
  | inl y ↦ rw (y, select-select p q xs) refl
  | inr n ↦ rw (n, select-select p q xs) refl
]

-- The item is part of the transfer, scanned, and not yet received.
abbrev pub is_receipt_item_of : ℕ → TransferItem → Bool
is_receipt_item_of transfer_id i = i.transfer_id == transfer_id && (i.scanned && not i.received)

pub marks-due :
    (now : ℕ) (transfer_id : ℕ) (items : List TransferItem) (k : ℕ)
    → IsKeyedItems items
    → item_row k (mark_all now (receipt_items transfer_id items) items)
      ≡ Option.map
          (λ i. if is_receipt_item_of transfer_id i then as_received now i else i)
          (item_row k items)
unfolding receipt_items items_of
marks-due now transfer_id items k keyed = elim (Option-cases (item_row k items)) [
  | inl absent ↦ rw (row-mark_all now (receipt_items transfer_id items) k items, absent) refl
  | inr (i, e) ↦
      let key : i.id ≡ k = row_key (λ (i : TransferItem). i.id) k items e in
      let due : has_id i.id (receipt_items transfer_id items) ≡ is_receipt_item_of transfer_id i =
        rw
          (
            select-select is_receipt_item (λ (i : TransferItem). i.transfer_id == transfer_id)
                items,
            key,
          )
          (has_id-select (is_receipt_item_of transfer_id) k items i keyed e) in
      rw (row-mark_all now (receipt_items transfer_id items) k items, e, due) refl
]
