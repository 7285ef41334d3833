-- ===== src/Transfer/Inbound/Receipt.antt =====
-- The receipt of scanned items: their serials, their marks, and the status of the transfer.
use mathlib.Core.Option.{Option}
use mathlib.Core.Option
use setuora_lite.Base.{
  ℕ, [], ◌∷◌, refl, List, arith, nat_eq, some, inl, inr, Bool, true, ◌≡◌, if◌then◌else◌, all, All,
  ◌↔◌, ◌++◌,
}
use setuora_lite.Model.{SerialStatus, TransferDirection, TransferStatus, User}
use setuora_lite.Transfer.Rows.{
  items_of, TransferItem, Stock, returns, save_transfer, Outcome-cases,
}
use setuora_lite.Transfer.Moves.{move_items}
use setuora_lite.Transfer.Moves.Effects.{move_items-effect, IsHeld, serial_row, moved, IsKeyedStock}
use setuora_lite.Transfer.Outbound.Dispatch.{move_items-tables}
use setuora_lite.Transfer.Inbound.Marks.{
  marks-due, move_items-marks, item_row, IsKeyedItems, is_receipt_item_of, as_received,
}
use setuora_lite.Transfer.Inbound.{
  finalize_inbound_receipt, Transfer, receipt_move, is_receivable, receipt_items, items_of,
  OutEvent, receipt_status, TransferRef, send_receipt, is_complete, resolve_transfer, receipt_event,
}

-- What a receipt that returns has done to the transfer `t` that it resolved.
pub record Received (now : ℕ) (t : Transfer) (st : Stock) (t' : Transfer) (st' : Stock)
    : Type 0 where
  pub was_receivable : is_receivable t.status ≡ true
  pub held : All (IsHeld SerialStatus.in_transit st) (receipt_items t.id st.items)
  pub rows :
      (k : ℕ)
      → serial_row k st'
        ≡ Option.map (moved (receipt_move now) (receipt_items t.id st.items)) (serial_row k st)
  pub marks :
      (k : ℕ)
      → item_row k st'.items
        ≡ Option.map
            (λ i. if is_receipt_item_of t.id i then as_received now i else i)
            (item_row k st.items)
  pub complete :
      (t'.status ≡ TransferStatus.received)
      ↔ All (λ (i : TransferItem). i.received ≡ true) (items_of t.id st'.items)
  pub event : OutEvent
  pub named : event.aggregate_id ≡ t.transfer_uuid
  pub queued : st'.outbox ≡ st.outbox ++ event ∷ []

all-iff-All :
    (p : TransferItem → Bool) (items : List TransferItem)
    → (all p items ≡ true) ↔ All (λ i. p i ≡ true) items
all-iff-All p items = (forth items, back items)
  where
    forth : (items : List TransferItem) → all p items ≡ true → All (λ i. p i ≡ true) items
    forth [] h = tt
    forth (x ∷ xs) h = (ground arith, forth xs (ground arith))

    back : (items : List TransferItem) → All (λ i. p i ≡ true) items → all p items ≡ true
    back [] h = refl
    back (x ∷ xs) h = rw (h.0, back xs h.1) refl

complete-status :
    (now : ℕ) (items : List TransferItem) (t : Transfer)
    → ((receipt_status now items t).status ≡ TransferStatus.received)
      ↔ All (λ (i : TransferItem). i.received ≡ true) (items_of t.id items)
unfolding receipt_status is_complete
complete-status now items t =
    let (forth, back) = all-iff-All (λ i. i.received) (items_of t.id items) in
    (λ e. forth (ground arith), λ received. rw (back received) refl)

receipt_status-uuid :
    (now : ℕ) (items : List TransferItem) (t : Transfer)
    → (receipt_status now items t).transfer_uuid ≡ t.transfer_uuid
unfolding receipt_status
receipt_status-uuid now items t = ground arith

finalize_returns :
    (accepts : OutEvent → Bool) (ref : TransferRef) (user : User) (now : ℕ) (st : Stock)
    {t' : Transfer} {st' : Stock}
    → finalize_inbound_receipt accepts ref user now st ≡ returns (t', st')
    → (y : Transfer × Stock) × (resolve_transfer ref (some TransferDirection.inbound) st
        ≡ returns y.0)
      × (is_receivable y.0.status ≡ true)
      × (move_items (receipt_move now) user y.0 (receipt_items y.0.id st.items) st ≡ returns y.1)
      × (send_receipt accepts user now y.0 (receipt_items y.0.id st.items) y.1 ≡ returns (t', st'))
unfolding finalize_inbound_receipt
finalize_returns accepts ref user now st {t' = t'} {st' = st'} h =
    elim (Outcome-cases (resolve_transfer ref (some TransferDirection.inbound) st)) [
      | inr (e, failed) ↦ absurd (ground arith)
      | inl (t, resolved) ↦
          elim (Outcome-cases
            (move_items (receipt_move now) user t (receipt_items t.id st.items) st)) [
              | inr (e, failed) ↦ absurd (ground arith)
              | inl (st1, done) ↦ ((t, st1), resolved, ground arith, done, ground arith)
            ]
    ]

-- A receipt that returns moved the serials of the scanned, unreceived items, all of them active and
-- in transit before, to IN_STOCK, and no other serial; it marked those items as received, and no
-- other; the transfer is RECEIVED exactly when all its items are received; one event is queued.
pub finalize-Received :
    (accepts : OutEvent → Bool) (ref : TransferRef) (user : User) (now : ℕ) (st : Stock)
    (t' : Transfer) (st' : Stock)
    → IsKeyedStock st
    → IsKeyedItems st.items
    → finalize_inbound_receipt accepts ref user now st ≡ returns (t', st')
    → (t : Transfer) × (resolve_transfer ref (some TransferDirection.inbound) st ≡ returns t)
      × Received now t st t' st'
unfolding send_receipt receipt_event save_transfer
finalize-Received accepts ref user now st t' st' keyed keyed_items h =
    let ((t, st1), resolved, receivable, done, sent) =
      finalize_returns accepts ref user now st {t' = t'} {st' = st'} h in
    let due = receipt_items t.id st.items in
    let (held, rows) =
      move_items-effect (receipt_move now) user t due st {st' = st1} (λ e. ground (arith, e)) keyed
        done in
    let (transfers, outbox, items) =
      move_items-tables (receipt_move now) user t due st {st' = st1} done in
    let marked = move_items-marks now user t due st {st' = st1} done in
    let kept : st'.items ≡ st1.items = ground arith in
    let made : t' ≡ receipt_status now st1.items t = ground arith in
    (
      t,
      resolved,
      record {
        was_receivable = receivable;
        held = held;
        rows = λ k. ground (arith, rows k);
        marks = λ k. rw (kept, marked) (marks-due now t.id st.items k keyed_items);
        complete = rw (made, kept) (complete-status now st1.items t);
        event = receipt_event (receipt_status now st1.items t) user now due st1;
        named = receipt_status-uuid now st1.items t;
        queued = ground (arith, outbox);
      },
    )
