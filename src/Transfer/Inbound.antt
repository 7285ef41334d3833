-- ===== src/Transfer/Inbound.antt =====
-- Transfers from another franchise: the scan of each manifest item, and the receipt.
pub mod Marks
pub mod Receipt
use setuora_lite.Transfer.Outbound.{event_items}
use setuora_lite.Base.{
  ℕ, [], ◌∷◌, refl, List, strip_upper, nat_eq, text_eq, none, some, Bool, select, true, ◌==◌, Text,
  ◌&&◌, all, if◌then◌else◌, false, not, ◌++◌, find, length, count_where, update_where,
}
use setuora_lite.Model.{
  Serial, SerialStatus, status_eq, TransactionType, TransferDirection, TransferStatus, User,
}
use setuora_lite.Transfer.Rows.{
  TransferItem, raises, returns, save_transfer, TransferRef, TransferError, Transfer, OutEvent,
  items_of, Stock, Outcome, EventKind, resolve_transfer, ◌>>=◌, raise_when,
}
use setuora_lite.Transfer.Moves.{Move, move_items}

-- `RECEIVABLE_STATUSES`
unfoldable pub is_receivable : TransferStatus → Bool
is_receivable TransferStatus.awaiting_receipt = true
is_receivable TransferStatus.partially_received = true
is_receivable _ = false

-- `UPDATE … WHERE id = … AND NOT scanned AND NOT received`
abbrev pub is_unscanned : ℕ → TransferItem → Bool
is_unscanned k i = i.id == k && (not i.scanned && not i.received)

unfoldable pub scan_inbound_transfer_item : TransferRef → Text → ℕ → Stock → Outcome Stock
scan_inbound_transfer_item ref serial_number now st =
    resolve_transfer ref (some TransferDirection.inbound) st >>= λ t.
    raise_when (not (is_receivable t.status)) TransferError.not_receivable >>= λ _.
    elim (find
      (λ (i : TransferItem).
        i.transfer_id == t.id && i.manifest_serial_number == strip_upper serial_number)
      st.items) [
        | none ↦ raises TransferError.not_in_manifest
        | some item ↦ raise_when item.received TransferError.already_received >>= λ _.
            raise_when item.scanned TransferError.already_scanned >>= λ _.
            if count_where (is_unscanned item.id) st.items == 1
            then returns (record st {
              items =
                  update_where (is_unscanned item.id)
                    (λ i. record i { scanned = true; scanned_at = some now }) st.items;
            })
            else raises TransferError.already_scanned
      ]

abbrev pub is_receipt_item : TransferItem → Bool
is_receipt_item i = i.scanned && not i.received

-- `[item for item in row.items if item.scanned and not item.received]`
unfoldable pub receipt_items : ℕ → List TransferItem → List TransferItem
receipt_items transfer_id items = select is_receipt_item (items_of transfer_id items)

abbrev pub receipt_move : ℕ → Move
receipt_move now = record {
  source = SerialStatus.in_transit;
  target = SerialStatus.in_stock;
  kind = TransactionType.transfer_in;
  refusal = TransferError.cannot_receive;
  stamp = some now;
}

-- `_receipt_payload` and the other arguments of the event.
unfoldable pub receipt_event : Transfer → User → ℕ → List TransferItem → Stock → OutEvent
receipt_event t user now items st = record {
  event_type = EventKind.transfer_received;
  aggregate_id = t.transfer_uuid;
  actor = user.username;
  destination = none;
  items = event_items st items;
  occurred_at = now;
}

-- `all(item.received for item in row.items)`
unfoldable pub is_complete : ℕ → List TransferItem → Bool
is_complete transfer_id items = all (λ (i : TransferItem). i.received) (items_of transfer_id items)

unfoldable pub receipt_status : ℕ → List TransferItem → Transfer → Transfer
receipt_status now items t =
    if is_complete t.id items
    then record t { status = TransferStatus.received; received_at = some now }
    else record t { status = TransferStatus.partially_received }

unfoldable pub send_receipt :
    (OutEvent → Bool) → User → ℕ → Transfer → List TransferItem → Stock → Outcome (Transfer × Stock)
send_receipt accepts user now t items st =
    let t' = receipt_status now st.items t in
    let event = receipt_event t' user now items st in
    let saved = save_transfer t' st in
    if accepts event
    then returns (t', record saved { outbox = st.outbox ++ event ∷ [] })
    else raises TransferError.refused_by_outbox

unfoldable pub finalize_inbound_receipt :
    (OutEvent → Bool) → TransferRef → User → ℕ → Stock → Outcome (Transfer × Stock)
finalize_inbound_receipt accepts ref user now st =
    resolve_transfer ref (some TransferDirection.inbound) st >>= λ t.
    raise_when (not (is_receivable t.status)) TransferError.not_receivable >>= λ _.
    raise_when (length (receipt_items t.id st.items) == 0) TransferError.nothing_scanned >>= λ _.
    move_items (receipt_move now) user t (receipt_items t.id st.items) st >>= λ st'.
    send_receipt accepts user now t (receipt_items t.id st.items) st'
