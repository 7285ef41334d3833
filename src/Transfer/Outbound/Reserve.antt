-- ===== src/Transfer/Outbound/Reserve.antt =====
-- Reservations: a serial stands in at most one open outbound transfer.
use setuora_lite.Base.{
  ℕ, [], ◌∷◌, refl, List, arith, nat_eq, count_where, find, none, some, inl, inr, Text, ◌≤◌, ◌≡◌,
  ◌++◌, select, ◌==◌, strip_upper, true, text_eq, Option-cases, row, nat_beq, Bool-cases, false,
  not, count-snoc, count-select, count_none,
}
use setuora_lite.Model.{Serial, SerialStatus, TransferDirection, Product, status_eq}
use setuora_lite.Transfer.Rows.{TransferItem, Stock, returns, Outcome-cases}
use setuora_lite.Transfer.Outbound.{
  add_outbound_serial, is_reserving, TransferRef, resolve_transfer, Transfer,
  remove_outbound_serial, names,
}

abbrev pub HasOneReserving : Stock → Type 0
HasOneReserving st = (k : ℕ) → count_where (is_reserving st.transfers k) st.items ≤ 1

-- Inversion of an addition that returns.
pub record Added (serial_number : Text) (st : Stock) (item : TransferItem) (st' : Stock)
    : Type 0 where
  pub serial : Serial
  pub found :
      find (λ (r : Serial). r.serial_number == strip_upper serial_number) st.serials ≡ some serial
  pub in_status : serial.status ≡ SerialStatus.in_stock
  pub is_active : serial.active ≡ true
  pub unreserved : find (is_reserving st.transfers serial.id) st.items ≡ none
  pub named : item.serial_id ≡ some serial.id
  pub same_transfers : st'.transfers ≡ st.transfers
  pub new_items : st'.items ≡ st.items ++ item ∷ []

add_returns :
    (ref : TransferRef) (serial_number : Text) (next_id : ℕ) (st : Stock) {item : TransferItem}
    {st' : Stock}
    → add_outbound_serial ref serial_number next_id st ≡ returns (item, st')
    → Added serial_number st item st'
unfolding add_outbound_serial
add_returns ref serial_number next_id st {item = item} {st' = st'} h =
    elim (Outcome-cases (resolve_transfer ref (some TransferDirection.outbound) st)) [
      | inr (e, failed) ↦ absurd (ground arith)
      | inl (t, resolved) ↦
          elim (Option-cases
            (find (λ (r : Serial). r.serial_number == strip_upper serial_number) st.serials)) [
              | inl absent ↦ absurd (ground arith)
              | inr (serial, found) ↦
                  elim (Option-cases (find (is_reserving st.transfers serial.id) st.items)) [
                    | inr (reserved, taken) ↦ absurd (ground arith)
                    | inl free ↦
                        elim (Option-cases
                          (row (λ (p : Product). p.id) serial.product_id st.products)) [
                            | inl absent ↦ absurd (ground arith)
                            | inr (product, known) ↦ record {
                              serial = serial;
                              found = found;
                              in_status =
                                  ground
                                    (arith, status_eq.same_iff serial.status SerialStatus.in_stock);
                              is_active = ground arith;
                              unreserved = free;
                              named = ground arith;
                              same_transfers = ground arith;
                              new_items = ground arith;
                            }
                          ]
                  ]
            ]
    ]

-- A new reservation is for the serial that the item names.
names-other :
    (k j : ℕ) (item : TransferItem)
    → item.serial_id ≡ some j
    → nat_beq k j ≡ false
    → names k item ≡ false
names-other k j item named other = rw (named, other) refl

reserving-named :
    (transfers : List Transfer) (k j : ℕ) (item : TransferItem)
    → item.serial_id ≡ some j
    → is_reserving transfers k item ≡ true
    → k ≡ j
unfolding is_reserving
reserving-named transfers k j item named h = elim (Bool-cases (nat_beq k j)) [
  | inl same ↦ ground arith
  | inr other ↦ absurd (ground (arith, names-other k j item named other))
]

-- Adding a serial to a draft keeps every serial in at most one open outbound transfer. The serial
-- added is in stock, active, and stood in no open outbound transfer before.
pub add-HasOneReserving :
    (ref : TransferRef) (serial_number : Text) (next_id : ℕ) (st : Stock) (item : TransferItem)
    (st' : Stock)
    → HasOneReserving st
    → add_outbound_serial ref serial_number next_id st ≡ returns (item, st')
    → Added serial_number st item st' × HasOneReserving st'
add-HasOneReserving ref serial_number next_id st item st' one h =
    let added = add_returns ref serial_number next_id st {item = item} {st' = st'} h in
    (
      added,
      λ k.
          rw
            (
              added.same_transfers,
              added.new_items,
              count-snoc (is_reserving st.transfers k) st.items item,
            )
            (elim (Bool-cases (is_reserving st.transfers k item)) [
              | inr other ↦ rw other (omega (arith, one k))
              | inl new ↦
                  let own = reserving-named st.transfers k added.serial.id item added.named new in
                  let none_before : count_where (is_reserving st.transfers k) st.items ≡ 0 =
                    rw own (
                      count_none (is_reserving st.transfers added.serial.id) st.items
                        added.unreserved) in
                  rw new (omega (arith, none_before))
            ]),
    )

-- Removing an item from a draft keeps it too.
pub remove-HasOneReserving :
    (ref : TransferRef) (item_id : ℕ) (st : Stock) {st' : Stock}
    → HasOneReserving st
    → remove_outbound_serial ref item_id st ≡ returns st'
    → HasOneReserving st'
unfolding remove_outbound_serial
remove-HasOneReserving ref item_id st {st' = st'} one h =
    elim (Outcome-cases (resolve_transfer ref (some TransferDirection.outbound) st)) [
      | inr (e, failed) ↦ absurd (ground arith)
      | inl (t, resolved) ↦
          elim (Option-cases (row (λ (i : TransferItem). i.id) item_id st.items)) [
            | inl absent ↦ absurd (ground arith)
            | inr (item, found) ↦
                let same : st'
                    ≡ record st { items = select (λ i. not (i.id == item_id)) st.items } =
                  ground arith in
                λ k. rw same (
                  omega (
                    arith,
                    one k,
                    count-select (is_reserving st.transfers k) (λ i. not (i.id == item_id))
                        st.items,
                  ))
          ]
    ]
