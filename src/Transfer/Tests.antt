-- ===== src/Transfer/Tests.antt =====
-- Two units that go to another franchise, and two that come from one.
use mathlib.Core.Option
use setuora_lite.Sync.Codes.{
  normalize_franchise_code, replace_runs, left_trim, right_trim, is_code_char, IsCode,
}
use setuora_lite.Transfer.Creation.{create_outbound_transfer, Given}
use setuora_lite.Transfer.Creation.Effects.{create-effect}
use setuora_lite.Transfer.Completion.{
  apply_transfer_receipt_command, complete_transfer, confirmed_numbers, in_manifest,
}
use setuora_lite.Transfer.Completion.Effects.{receipt_command-retires, is_retired, inactive}
use setuora_lite.Transfer.Moves.Effects.{serial_row}
use setuora_lite.Base.{
  text_eq, ◌==◌, Text-discrete, arith, ℕ, refl, [], ◌∷◌, some, ◌≡◌, codes, none, true, ◌++◌, false,
  Text, ◌+◌, Bool, strip_upper, ◌≤◌, find, length, ◌≢◌, all, if◌then◌else◌,
}
use setuora_lite.Int.{pos}
use setuora_lite.Model.{
  SerialStatus-discrete, Serial, status_eq, User, Product, SerialStatus, TransferDirection,
  TransferStatus, WarehouseLevel,
}
use setuora_lite.Model.Enums.{TransferDirection-discrete, TransferStatus-discrete}
use setuora_lite.Base.Characters.{strip_upper, strip, lstrip, rstrip, upper, upper_char}
use setuora_lite.Transfer.Rows.{
  save_transfer, Transfer, TransferItem, Stock, returns, raises, resolve_transfer, items_of,
  Outcome, TransferRef,
}
use setuora_lite.Transfer.Moves.{move_items, move_item, item_serial, mark_received}
use setuora_lite.Transfer.Outbound.{
  dispatch_outbound_transfer, add_outbound_serial, send_dispatch, is_reserving,
}
use setuora_lite.Transfer.Outbound.Dispatch.{Dispatched, dispatch-Dispatched}
use setuora_lite.Transfer.Outbound.Keeps.{HasOneReservation}
use setuora_lite.Transfer.Outbound.Steps.{Call, Calls, Calls-HasOneReservation}
use setuora_lite.Transfer.Inbound.{
  finalize_inbound_receipt, receipt_items, is_complete, receipt_status, send_receipt, is_receivable,
}
use setuora_lite.Transfer.Inbound.Receipt.{Received, finalize-Received}

abbrev clerk : User
clerk = record { id = 1; username = codes "clerk" }

abbrev rice : Product
rice = record {
  id = 1;
  product_code = codes "RICE";
  product_name = codes "Rice";
  hsn = codes "1006";
  unit = codes "Pcs";
  tally_stock_item_name = codes "Rice";
  gst_rate = pos 5_000_000;
  default_rate = pos 40_000_000;
  sales_discount_rate = pos 0;
  shelf_verification_interval = 2;
  active = true;
}

abbrev number_of : ℕ → Text
number_of k = codes "R-" ++ (48 + k) ∷ []

abbrev unit_of : ℕ → SerialStatus → Serial
unit_of k status = record {
  id = k;
  serial_number = number_of k;
  product_id = 1;
  status = status;
  active = true;
  created_at = 0;
  replaced_by_id = none;
  product_batch_number = none;
  mfg_date = none;
  expiry_date = none;
  warehouse = none;
  warehouse_level = WarehouseLevel.company_warehouse;
  location_id = none;
}

abbrev transfer_of : ℕ → TransferDirection → TransferStatus → Transfer
transfer_of k direction status = record {
  id = k;
  transfer_uuid = codes "T-" ++ (48 + k) ∷ [];
  direction = direction;
  status = status;
  local_franchise_code = some (codes "PUNE");
  peer_code = codes "DELHI";
  created_by_id = some 1;
  dispatched_at = none;
  received_at = none;
}

abbrev item_of : ℕ → ℕ → Bool → TransferItem
item_of k transfer_id scanned = record {
  id = k;
  transfer_id = transfer_id;
  serial_id = some k;
  manifest_serial_number = number_of k;
  product_code = codes "RICE";
  product_name = codes "Rice";
  scanned = scanned;
  received = false;
  scanned_at = none;
  received_at = none;
}

-- Unit 1 stands in the draft 5, unit 2 in no transfer; of the inbound transfer 6, unit 3 is scanned
-- and unit 4 is not.
abbrev outgoing : Transfer
outgoing = transfer_of 5 TransferDirection.outbound TransferStatus.draft

abbrev incoming : Transfer
incoming = transfer_of 6 TransferDirection.inbound TransferStatus.awaiting_receipt

abbrev stock : Stock
stock = record {
  serials =
      unit_of 1 SerialStatus.in_stock
      ∷ unit_of 2 SerialStatus.in_stock
      ∷ unit_of 3 SerialStatus.in_transit
      ∷ unit_of 4 SerialStatus.in_transit
      ∷ [];
  products = rice ∷ [];
  transfers = outgoing ∷ incoming ∷ [];
  items = item_of 1 5 false ∷ item_of 3 6 true ∷ item_of 4 6 false ∷ [];
  transactions = [];
  outbox = [];
}

-- The transfer and the tables that a call returns, or what it was given.
abbrev or_stock {ℓ} : {T : Type ℓ} → T → Outcome T → T
or_stock given (returns value) = value
or_stock given (raises e) = given

abbrev dispatched : Transfer × Stock
dispatched =
    or_stock (outgoing, stock)
      (dispatch_outbound_transfer (λ _. true) (TransferRef.of_id 5) clerk 7 stock)

dispatch_runs :
    dispatch_outbound_transfer (λ _. true) (TransferRef.of_id 5) clerk 7 stock ≡ returns dispatched
unfolding dispatch_outbound_transfer resolve_transfer items_of move_items move_item item_serial
    send_dispatch TransferDirection-discrete TransferStatus-discrete SerialStatus-discrete
dispatch_runs = refl

dispatch-Dispatched_example :
    (t : Transfer) × (resolve_transfer (TransferRef.of_id 5) (some TransferDirection.outbound) stock
      ≡ returns t)
    × Dispatched clerk 7 t stock dispatched.0 dispatched.1
dispatch-Dispatched_example =
    dispatch-Dispatched (λ _. true) (TransferRef.of_id 5) clerk 7 stock dispatched.0 dispatched.1
      (refl, (refl, (refl, (refl, tt)))) dispatch_runs

abbrev received : Transfer × Stock
received =
    or_stock (incoming, stock)
      (finalize_inbound_receipt (λ _. true) (TransferRef.of_id 6) clerk 8 stock)

receipt_runs :
    finalize_inbound_receipt (λ _. true) (TransferRef.of_id 6) clerk 8 stock ≡ returns received
unfolding finalize_inbound_receipt resolve_transfer items_of move_items move_item item_serial
    receipt_items send_receipt is_receivable TransferDirection-discrete TransferStatus-discrete
    SerialStatus-discrete
receipt_runs = refl

receipt_keeps_open : received.0.status ≡ TransferStatus.partially_received
unfolding finalize_inbound_receipt resolve_transfer items_of move_items move_item item_serial
    receipt_items send_receipt is_receivable receipt_status is_complete mark_received
    TransferDirection-discrete TransferStatus-discrete SerialStatus-discrete
receipt_keeps_open = refl

finalize-Received_example :
    (t : Transfer) × (resolve_transfer (TransferRef.of_id 6) (some TransferDirection.inbound) stock
      ≡ returns t)
    × Received 8 t stock received.0 received.1
finalize-Received_example =
    finalize-Received (λ _. true) (TransferRef.of_id 6) clerk 8 stock received.0 received.1
      (refl, (refl, (refl, (refl, tt)))) (refl, (refl, (refl, tt))) receipt_runs

abbrev added : TransferItem × Stock
added =
    or_stock (item_of 9 9 false, stock)
      (add_outbound_serial (TransferRef.of_id 5) (codes " r-2 ") 7 stock)

add_runs : add_outbound_serial (TransferRef.of_id 5) (codes " r-2 ") 7 stock ≡ returns added
unfolding add_outbound_serial resolve_transfer is_reserving strip_upper strip lstrip rstrip upper
    upper_char Text-discrete TransferDirection-discrete TransferStatus-discrete
    SerialStatus-discrete
add_runs = refl

abbrev then_dispatched : Transfer × Stock
then_dispatched =
    or_stock (outgoing, stock)
      (dispatch_outbound_transfer (λ _. true) (TransferRef.of_id 5) clerk 7 added.1)

dispatch_after_add_runs :
    dispatch_outbound_transfer (λ _. true) (TransferRef.of_id 5) clerk 7 added.1
    ≡ returns then_dispatched
unfolding add_outbound_serial is_reserving strip_upper strip lstrip rstrip upper upper_char
    dispatch_outbound_transfer resolve_transfer items_of move_items move_item item_serial
    send_dispatch Text-discrete TransferDirection-discrete TransferStatus-discrete
    SerialStatus-discrete
dispatch_after_add_runs = refl

two-Calls : Calls (λ _. true) stock then_dispatched.1
two-Calls =
    Calls.call stock added.1 then_dispatched.1
      (Call.adds 5 (codes " r-2 ") 7 added.0 stock added.1 add_runs)
      (Calls.call added.1 then_dispatched.1 then_dispatched.1
        (Call.dispatches 5 clerk 7 then_dispatched.0 added.1 then_dispatched.1
          dispatch_after_add_runs)
        (Calls.done then_dispatched.1))

stock-HasOneReservation : HasOneReservation stock
unfolding TransferStatus-discrete TransferDirection-discrete
stock-HasOneReservation k = ground arith

Calls-HasOneReservation_example : HasOneReservation then_dispatched.1
Calls-HasOneReservation_example =
    Calls-HasOneReservation (λ _. true) stock then_dispatched.1 two-Calls stock-HasOneReservation

abbrev given : Given
given = record { next_id = 7; uuid = codes "T-7"; local_code = codes "PUNE" }

abbrev created : Transfer × Stock
created =
    or_stock (outgoing, stock) (create_outbound_transfer clerk (codes " new delhi ") given stock)

create_runs : create_outbound_transfer clerk (codes " new delhi ") given stock ≡ returns created
unfolding create_outbound_transfer normalize_franchise_code replace_runs left_trim right_trim
    is_code_char strip_upper strip lstrip rstrip upper upper_char Text-discrete
create_runs = refl

create-effect_example :
    IsCode created.0.peer_code
    × (1 ≤ length created.0.peer_code)
    × (length created.0.peer_code ≤ 40)
    × (false ≡ false → created.0.peer_code ≢ codes "PUNE")
    × (created.0.status ≡ TransferStatus.draft)
    × (created.0.direction ≡ TransferDirection.outbound)
    × (created.1.transfers ≡ stock.transfers ++ created.0 ∷ [])
    × (created.1.items ≡ stock.items)
create-effect_example =
    create-effect clerk (codes " new delhi ") given stock created.0 created.1 create_runs

-- The other franchise reports the receipt of the dispatched unit 1.
abbrev reported : Transfer × Stock
reported =
    or_stock (outgoing, stock)
      (apply_transfer_receipt_command (codes "T-5") (number_of 1 ∷ []) false 9 dispatched.1)

report_runs :
    apply_transfer_receipt_command (codes "T-5") (number_of 1 ∷ []) false 9 dispatched.1
    ≡ returns reported
unfolding dispatch_outbound_transfer resolve_transfer items_of move_items move_item item_serial
    send_dispatch save_transfer apply_transfer_receipt_command complete_transfer confirmed_numbers
    in_manifest Text-discrete TransferDirection-discrete TransferStatus-discrete
    SerialStatus-discrete
report_runs = refl

receipt_command-retires_example :
    (t : Transfer) × (find (λ (t : Transfer). t.transfer_uuid == codes "T-5") dispatched.1.transfers
      ≡ some t)
    × (t.direction ≡ TransferDirection.outbound)
    × (t.status ≢ TransferStatus.draft)
    × (let items = items_of t.id dispatched.1.items in
        let numbers = confirmed_numbers (number_of 1 ∷ []) false items in
        (all (in_manifest items) numbers ≡ true)
        × ((k : ℕ)
            → serial_row k reported.1
              ≡ Option.map
                  (λ r. if is_retired r.id numbers items then inactive r else r)
                  (serial_row k dispatched.1)))
receipt_command-retires_example =
    receipt_command-retires (codes "T-5") (number_of 1 ∷ []) false 9 dispatched.1 reported.0
      reported.1 report_runs
