-- ===== src/Sync/Snapshot.antt =====
-- The one-time baseline of the inventory (`enqueue_initial_inventory_snapshot`), and the item that
-- an event says of a serial.
pub mod Baseline
mod Tests
use setuora_lite.Sync.Json.{Json, Fields, field, end}
use setuora_lite.Sync.Codes.{
  Settings, Attempt, gives, fail_if, ◌>>=◌, SyncError, configured_franchise_code,
}
use setuora_lite.Sync.Partition.{
  initial_inventory_payload, initial_inventory_reference, part_request,
  partition_initial_inventory_items,
}
use setuora_lite.Base.{
  map, Option, List, Text, ℕ, Bool, codes, some, true, select, ◌∷◌, false, ◌&&◌, or_else, ◌++◌, [],
  not, none, is_empty, ◌+◌, if◌then◌else◌, length,
}
use setuora_lite.Sync.Enqueue.{Host, EventRequest, Fresh, reference_prefix, enqueue_outbox_event}
use setuora_lite.Model.{SerialStatus, Serial, Product}
use setuora_lite.Base
use setuora_lite.Int.{ℤ, pos}
use setuora_lite.Model
use setuora_lite.Sync.Rows.{Event, AggregateType}
use setuora_lite.Sync.Json
use setuora_lite.Sync.Codes
use setuora_lite.Sync.Enqueue
use setuora_lite.Sync.Partition

-- The values of `SerialStatus`
unfoldable pub serial_status_value : SerialStatus → Text
serial_status_value SerialStatus.generated = codes "GENERATED"
serial_status_value SerialStatus.purchased = codes "PURCHASED"
serial_status_value SerialStatus.received = codes "RECEIVED"
serial_status_value SerialStatus.in_stock = codes "IN_STOCK"
serial_status_value SerialStatus.sold = codes "SOLD"
serial_status_value SerialStatus.returned = codes "RETURNED"
serial_status_value SerialStatus.purchase_return = codes "PURCHASE_RETURN"
serial_status_value SerialStatus.issued = codes "ISSUED"
serial_status_value SerialStatus.audited = codes "AUDITED"
serial_status_value SerialStatus.damaged = codes "DAMAGED"
serial_status_value SerialStatus.missing = codes "MISSING"
serial_status_value SerialStatus.invalid = codes "INVALID"
serial_status_value SerialStatus.replaced = codes "REPLACED"
serial_status_value SerialStatus.in_transit = codes "IN_TRANSIT"

-- `_iso`, and the JSON of a text that may be missing
unfoldable pub iso_day : Host → Option ℕ → Json
iso_day host none = Json.null
iso_day host (some d) = Json.str (host.day d)

abbrev pub text_or_null : Option Text → Json
text_or_null none = Json.null
text_or_null (some s) = Json.str s

-- A status that is given and not empty replaces the one of the serial.
unfoldable pub item_status : Serial → Option Text → Text
unfolding serial_status_value
item_status serial none = serial_status_value serial.status
item_status serial (some []) = serial_status_value serial.status
item_status serial (some (c ∷ s)) = c ∷ s

-- `network_event_item`, of a serial with its product. The numbers of the model are never None, so that `or 0` changes none.
unfoldable pub event_item : Host → Serial × Product → Option ℤ → Option ℤ → Option Text → Fields
unfolding iso_day item_status
event_item host (serial, product) rate sales_discount_rate status =
    field (codes "serial_number") (Json.str serial.serial_number) (
      field (codes "product_code") (Json.str product.product_code) (
        field (codes "product_name") (Json.str product.product_name) (
          field (codes "tally_stock_item_name") (Json.str product.tally_stock_item_name) (
            field (codes "hsn") (Json.str product.hsn) (
              field (codes "gst_rate") (host.float product.gst_rate) (
                field (codes "sales_discount_rate")
                  (host.float (or_else sales_discount_rate product.sales_discount_rate))
                  (field (codes "unit") (Json.str product.unit) (
                    field (codes "rate") (host.float (or_else rate product.default_rate)) (
                      field (codes "status") (Json.str (item_status serial status)) (
                        field (codes "product_batch_number")
                          (text_or_null serial.product_batch_number)
                          (field (codes "mfg_date") (iso_day host serial.mfg_date) (
                            field (codes "expiry_date") (iso_day host serial.expiry_date) (
                              field (codes "warehouse") (text_or_null serial.warehouse)
                                end)))))))))))))

abbrev pub is_available_status : SerialStatus → Bool
is_available_status SerialStatus.generated = true
is_available_status SerialStatus.in_stock = true
is_available_status _ = false

-- The serials of the query, each with its product, in the order of their ids.
unfoldable pub available_serials : List (Serial × Product) → List (Serial × Product)
available_serials stock =
    select (λ (entry : Serial × Product). entry.0.active && is_available_status entry.0.status)
      stock

-- The request of a baseline with no stock.
unfoldable pub empty_request : Text → Json → ℕ → EventRequest
unfolding initial_inventory_payload
empty_request code actor now =
    let reference = reference_prefix code ++ codes "EMPTY" in
    record {
      event_type = codes "HEARTBEAT";
      aggregate_type = AggregateType.initial_inventory;
      aggregate_id = reference;
      payload = initial_inventory_payload reference actor [];
      occurred_at = some now;
      schema_version = 1;
      batch_id = none;
      initial_inventory = true;
    }

-- The loop over the chunks, from part `n` on. `fresh` is what the database gives to each event.
unfoldable pub enqueue_parts :
    Settings
    → Host
    → Text
    → Json
    → ℕ
    → (ℕ → Fresh)
    → ℕ
    → List (List Fields)
    → List Event
    → Attempt (List Event)
unfolding initial_inventory_reference
enqueue_parts settings host code actor now fresh n [] events = gives events
enqueue_parts settings host code actor now fresh n (chunk ∷ chunks) events =
    enqueue_outbox_event settings host
      (part_request (initial_inventory_reference host code n) actor now chunk) (fresh n) events
    >>= λ (row, events'). enqueue_parts settings host code actor now fresh (n + 1) chunks events'

-- The counts of events and of serials, and the outbox. `now` is `utc_now()`.
unfoldable pub enqueue_initial_inventory_snapshot :
    Settings
    → Host
    → Json
    → ℕ
    → (ℕ → Fresh)
    → List (Serial × Product)
    → List Event
    → Attempt ((ℕ × ℕ) × List Event)
unfolding available_serials empty_request enqueue_parts event_item
enqueue_initial_inventory_snapshot settings host actor now fresh stock events =
    fail_if (not (is_empty events)) SyncError.not_first >>= λ _.
    configured_franchise_code settings (some true) >>= λ code.
    let serials = available_serials stock in
    if is_empty serials
    then (enqueue_outbox_event settings host (empty_request code actor now) (fresh 1) events
        >>= λ (row, events'). gives ((1, 0), events'))
    else (partition_initial_inventory_items host code actor now
          (map (λ entry. event_item host entry none none none) serials)
        >>= λ chunks.
            enqueue_parts settings host code actor now fresh 1 chunks events >>= λ events'.
            gives ((length chunks, length serials), events'))
