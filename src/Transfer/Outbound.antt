-- ===== src/Transfer/Outbound.antt =====
-- Transfers to another franchise: the draft and its reservations, and the dispatch.
pub mod Keeps
pub mod Reserve
pub mod Dispatch
pub mod Steps
use setuora_lite.Base.{
  option_eq, nat_eq, text_eq, ℕ, [], ◌∷◌, refl, List, strip_upper, Text, if◌then◌else◌, Bool, none,
  ◌==◌, true, some, false, ◌&&◌, row, ltb, ◌++◌, not, find, select, length, ◌||◌,
}
use setuora_lite.Model.{
  transfer_status_eq, direction_eq, Serial, SerialStatus, status_eq, TransactionType,
  TransferStatus, User, TransferDirection, Product,
}
use setuora_lite.Transfer.Rows.{
  TransferItem, Transfer, TransferRef, Stock, TransferError, OutEvent, Outcome, NetworkItem,
  resolve_transfer, EventKind, network_event_item, save_transfer, ◌>>=◌, returns, raise_when,
  raises, items_of, names,
}
use setuora_lite.Transfer.Moves.{Move, item_serial, move_items}

abbrev pub is_draft_transfer : Transfer → Bool
is_draft_transfer t = t.status == TransferStatus.draft

-- `OPEN_OUTBOUND_STATUSES`
unfoldable pub is_open : TransferStatus → Bool
is_open TransferStatus.draft = true
is_open TransferStatus.pending_master = true
is_open TransferStatus.dispatched = true
is_open TransferStatus.partially_received = true
is_open _ = false

-- The join of an item with its transfer, outbound and open.
unfoldable pub is_reserving : List Transfer → ℕ → TransferItem → Bool
is_reserving transfers serial_id item =
    names serial_id item && (elim (row (λ (t : Transfer). t.id) item.transfer_id transfers) [
      | none ↦ false
      | some t ↦ t.direction == TransferDirection.outbound && is_open t.status
    ])

-- `next_id` is the key that the database gives to the new row.
unfoldable pub add_outbound_serial : TransferRef → Text → ℕ → Stock → Outcome (TransferItem × Stock)
add_outbound_serial ref serial_number next_id st =
    resolve_transfer ref (some TransferDirection.outbound) st >>= λ t.
    raise_when (not (is_draft_transfer t)) TransferError.not_a_draft >>= λ _.
    elim (find (λ (r : Serial). r.serial_number == strip_upper serial_number) st.serials) [
      | none ↦ raises TransferError.not_registered
      | some serial ↦
          raise_when (not serial.active || not (serial.status == SerialStatus.in_stock))
            TransferError.not_in_stock
          >>= λ _. elim (find (is_reserving st.transfers serial.id) st.items) [
            | some reserved ↦ raises (
                if reserved.transfer_id == t.id
                then TransferError.already_in_transfer
                else TransferError.already_reserved)
            | none ↦ elim (row (λ (p : Product). p.id) serial.product_id st.products) [
              | none ↦ raises TransferError.no_product
              | some product ↦
                  let item : TransferItem = record {
                    id = next_id;
                    transfer_id = t.id;
                    serial_id = some serial.id;
                    manifest_serial_number = serial.serial_number;
                    product_code = product.product_code;
                    product_name = product.product_name;
                    scanned = false;
                    received = false;
                    scanned_at = none;
                    received_at = none;
                  } in
                  returns (item, record st { items = st.items ++ item ∷ [] })
            ]
          ]
    ]

unfoldable pub remove_outbound_serial : TransferRef → ℕ → Stock → Outcome Stock
remove_outbound_serial ref item_id st =
    resolve_transfer ref (some TransferDirection.outbound) st >>= λ t.
    raise_when (not (is_draft_transfer t)) TransferError.not_a_draft >>= λ _.
    elim (row (λ (i : TransferItem). i.id) item_id st.items) [
      | none ↦ raises TransferError.item_not_found
      | some item ↦
          raise_when (not (item.transfer_id == t.id)) TransferError.item_not_found >>= λ _.
          returns (record st { items = select (λ i. not (i.id == item_id)) st.items })
    ]

-- `sorted(…, key=lambda value: value.manifest_serial_number)`
unfoldable pub text_leb : Text → Text → Bool
text_leb [] t = true
text_leb (c ∷ s) [] = false
text_leb (c ∷ s) (d ∷ t) = let rest = text_leb s t in if c == d then rest else ltb c d

unfoldable pub insert_item : TransferItem → List TransferItem → List TransferItem
unfolding text_leb
insert_item x [] = x ∷ []
insert_item x (y ∷ ys) =
    let rest = insert_item x ys in
    if text_leb x.manifest_serial_number y.manifest_serial_number then x ∷ y ∷ ys else y ∷ rest

unfoldable pub sort_items : List TransferItem → List TransferItem
unfolding insert_item
sort_items [] = []
sort_items (x ∷ xs) = insert_item x (sort_items xs)

unfoldable pub event_items : Stock → List TransferItem → List NetworkItem
event_items st [] = []
event_items st (item ∷ items) =
    let rest = event_items st items in
    elim (item_serial item st) [
      | none ↦ rest
      | some serial ↦ network_event_item SerialStatus.in_stock st serial ∷ rest
    ]

-- `_dispatch_payload` and the other arguments of the event.
unfoldable pub dispatch_event : Transfer → User → ℕ → List TransferItem → Stock → OutEvent
dispatch_event t user now items st = record {
  event_type = EventKind.transfer_dispatched;
  aggregate_id = t.transfer_uuid;
  actor = user.username;
  destination = some t.peer_code;
  items = event_items st (sort_items items);
  occurred_at = now;
}

abbrev pub dispatch_move : Move
dispatch_move = record {
  source = SerialStatus.in_stock;
  target = SerialStatus.in_transit;
  kind = TransactionType.transfer_out;
  refusal = TransferError.no_longer_available;
  stamp = none;
}

abbrev pub max_items : ℕ
max_items = 5000

-- The status and the event of a dispatch. `accepts` says whether `enqueue_outbox_event` takes the
-- event; if it raises, the nested transaction is rolled back.
unfoldable pub send_dispatch :
    (OutEvent → Bool) → User → ℕ → Transfer → List TransferItem → Stock → Outcome (Transfer × Stock)
send_dispatch accepts user now t items st =
    let t' : Transfer = record t { status = TransferStatus.dispatched; dispatched_at = some now } in
    let event = dispatch_event t' user now items st in
    let saved = save_transfer t' st in
    if accepts event
    then returns (t', record saved { outbox = st.outbox ++ event ∷ [] })
    else raises TransferError.refused_by_outbox

unfoldable pub dispatch_outbound_transfer :
    (OutEvent → Bool) → TransferRef → User → ℕ → Stock → Outcome (Transfer × Stock)
dispatch_outbound_transfer accepts ref user now st =
    resolve_transfer ref (some TransferDirection.outbound) st >>= λ t.
    raise_when (not (is_draft_transfer t)) TransferError.not_a_draft >>= λ _.
    raise_when (length (items_of t.id st.items) == 0) TransferError.nothing_to_dispatch >>= λ _.
    raise_when (ltb max_items (length (items_of t.id st.items))) TransferError.too_many_items
    >>= λ _. move_items dispatch_move user t (items_of t.id st.items) st >>= λ st'.
        send_dispatch accepts user now t (items_of t.id st.items) st'
