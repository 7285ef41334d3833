-- ===== src/Sync/Snapshot/Tests.antt =====
-- The baseline of one serial, and an event after it.
use setuora_lite.Sync.Like.{column_starts_with}
use setuora_lite.Sync.Enqueue.Frozen.{frozen_fields_lem}
use setuora_lite.Sync.Snapshot.Baseline.{IsBaseline, enqueue_initial_inventory_snapshot_lem}
use setuora_lite.Sync.Partition.Fitting.{partition_initial_inventory_items_succeeds, HasRoomAlone}
use setuora_lite.Sync.Enqueue.Queue.{
  IsNext, StartsWithBaseline, enqueue_outbox_event-StartsWithBaseline, enqueue_outbox_event-InOrder,
}
use setuora_lite.Sync.Outbox.Order.{InOrder, IsKeyedEvents}
use setuora_lite.Sync.Partition.Chunks.{concat, AllFit, partition_initial_inventory_items_lem}
use setuora_lite.Samples.{unit_of, rice}
use setuora_lite.Sync.Partition.{
  part_request, initial_inventory_reference, partition_initial_inventory_items, part_envelope_size,
  item_size,
}
use setuora_lite.Sync.Snapshot.{
  Event, enqueue_initial_inventory_snapshot, Serial, Product, SerialStatus, event_item,
  AggregateType, pos, available_serials,
}
use setuora_lite.Sync.Json.{set_default}
use setuora_lite.Sync.Partition.{initial_inventory_payload}
use setuora_lite.Base.{
  upper_char, text_eq, ℕ, List, codes, ◌∷◌, true, [], some, ◌≤◌, ◌≡◌, one_of, refl, false, none,
  strip_upper, All, Text-discrete, arith, length, ◌⊎◌, ◌+◌, inl, inr, Text, ◌++◌,
}
use setuora_lite.Sync.Enqueue.{
  initial_inventory_is_queued, is_baseline, Host, Fresh, new_event, EventRequest,
  enqueue_outbox_event, frozen_fields, utf8_size, frozen_event_json, item_count, guard_baseline,
  event_max_items, validate_frozen_event_request, require_initial_inventory_queued, event_max_body,
}
use setuora_lite.Sync.Codes.{
  Settings, configured_franchise_code, IsCode, normalize_franchise_code, gives,
  franchise_code_placeholders, configured_franchise_code_lem, fails, SyncError,
}
use setuora_lite.Sync.Json.{Json, Fields, get, field, end, items_length, Items}

abbrev settings : Settings
settings = record {
  franchise_code = codes "f1";
  master_sync_enabled = true;
  master_url = [];
  master_api_key = [];
}

-- Every value is written as one character.
abbrev host : Host
host = record {
  dumps = λ j. b'x' ∷ [];
  sha256 = λ s. s;
  iso = λ n. n ∷ [];
  day = λ n. n ∷ [];
  show = λ n. n ∷ [];
  float = λ z. Json.int z;
}

abbrev fresh_at : ℕ → Fresh
fresh_at n = record { sequence = n; event_id = n ∷ []; now = 50 }

abbrev stock : List (Serial × Product)
stock = (unit_of 1 SerialStatus.in_stock, rice) ∷ (unit_of 2 SerialStatus.sold, rice) ∷ []

configured_example : configured_franchise_code settings (some true) ≡ gives (codes "F1")
unfolding configured_franchise_code normalize_franchise_code strip_upper Text-discrete
configured_example = refl

configured_franchise_code_lem_example :
    IsCode (codes "F1")
    × (1 ≤ 2)
    × (2 ≤ 20)
    × (one_of (codes "F1") franchise_code_placeholders ≡ false)
configured_franchise_code_lem_example =
    configured_franchise_code_lem settings (codes "F1") configured_example

abbrev item : Fields
item = event_item host (unit_of 1 SerialStatus.in_stock, rice) none none none

abbrev row_1 : Event
row_1 =
    new_event host
      (part_request (initial_inventory_reference host (codes "F1") 1) Json.null 40 (item ∷ []))
      (fresh_at 1)

partition_runs :
    partition_initial_inventory_items host (codes "F1") Json.null 40 (item ∷ item ∷ [])
    ≡ gives ((item ∷ item ∷ []) ∷ [])
unfolding partition_initial_inventory_items part_envelope_size utf8_size item_size frozen_event_json
partition_runs = refl

partition_initial_inventory_items_lem_example :
    (concat ((item ∷ item ∷ []) ∷ []) ≡ item ∷ item ∷ [])
    × AllFit
        (item_size host)
        (part_envelope_size host (codes "F1") Json.null 40)
        1
        ((item ∷ item ∷ []) ∷ [])
partition_initial_inventory_items_lem_example =
    partition_initial_inventory_items_lem host (codes "F1") Json.null 40 (item ∷ item ∷ [])
      ((item ∷ item ∷ []) ∷ []) partition_runs

one_or_two : (n : ℕ) → 1 ≤ n → n ≤ 2 → (n ≡ 1) ⊎ (n ≡ 2)
one_or_two n one two = ground arith

-- A host that writes a value out, with the integers as one digit.
abbrev mutual
  print : Json → Text
  print Json.null = codes "null"
  print (Json.bool b) = codes "bool"
  print (Json.int z) = codes "0"
  print (Json.float z) = codes "0.0"
  print (Json.str s) = b'"' ∷ s ++ b'"' ∷ []
  print (Json.arr items) = b'[' ∷ print_items items ++ b']' ∷ []
  print (Json.obj fields) = b'{' ∷ print_fields fields ++ b'}' ∷ []

  print_items : Items → Text
  print_items Items.nil = []
  print_items (Items.cons v items) = print v ++ b',' ∷ print_items items

  print_fields : Fields → Text
  print_fields Fields.end = []
  print_fields (Fields.field k v fields) =
      b'"' ∷ k ++ b'"' ∷ b':' ∷ print v ++ b',' ∷ print_fields fields

abbrev printing_host : Host
printing_host = record host { dumps = print; show = λ n. (48 + n) ∷ [] }

item-HasRoomAlone :
    HasRoomAlone
      (item_size printing_host)
      (part_envelope_size printing_host (codes "F1") Json.null 40)
      2
      item
unfolding part_envelope_size utf8_size item_size frozen_event_json set_default
    initial_inventory_payload Text-discrete initial_inventory_reference event_item
item-HasRoomAlone n one two = elim (one_or_two n one two) [
  | inl first ↦ rw first (omega arith)
  | inr second ↦ rw second (omega arith)
]

partition_initial_inventory_items_succeeds_example :
    (chunks : List (List Fields)) × (partition_initial_inventory_items printing_host
        (codes "F1")
        Json.null
        40
        (item ∷ item ∷ [])
      ≡ gives chunks)
partition_initial_inventory_items_succeeds_example =
    partition_initial_inventory_items_succeeds printing_host (codes "F1") Json.null 40
      (item ∷ item ∷ []) (item-HasRoomAlone, (item-HasRoomAlone, tt))

snapshot_runs :
    enqueue_initial_inventory_snapshot settings host Json.null 40 fresh_at stock []
    ≡ gives ((1, 1), row_1 ∷ [])
unfolding enqueue_initial_inventory_snapshot configured_franchise_code normalize_franchise_code
    strip_upper Text-discrete partition_initial_inventory_items part_envelope_size utf8_size
    frozen_event_json item_size enqueue_outbox_event guard_baseline validate_frozen_event_request
    item_count get items_length new_event
snapshot_runs = refl

enqueue_initial_inventory_snapshot_lem_example :
    All (IsBaseline (codes "F1")) (row_1 ∷ [])
    × (length (row_1 ∷ []) ≡ 1)
    × (1 ≡ length (available_serials stock))
    × (require_initial_inventory_queued settings (row_1 ∷ []) ≡ gives (codes "F1"))
    × (enqueue_initial_inventory_snapshot settings host Json.null 60 fresh_at stock (row_1 ∷ [])
        ≡ fails SyncError.not_first)
enqueue_initial_inventory_snapshot_lem_example =
    enqueue_initial_inventory_snapshot_lem settings host Json.null 40 fresh_at stock [] (row_1 ∷ [])
      (codes "F1") 1 1 60 fresh_at stock configured_example snapshot_runs

-- `_` in a code is a wildcard of LIKE: the marker of another code is found.
abbrev other_marker : Event
other_marker = record row_1 { aggregate_id = codes "AXB:INITIAL-INVENTORY:EMPTY" }

marker_of_another_code : initial_inventory_is_queued (codes "A_B") (other_marker ∷ []) ≡ true
unfolding initial_inventory_is_queued is_baseline column_starts_with new_event upper_char
marker_of_another_code = refl

abbrev sale : EventRequest
sale = record {
  event_type = codes "SALE";
  aggregate_type = AggregateType.batch;
  aggregate_id = codes "F1:S-1";
  payload = field (codes "sequence") (Json.int (pos 99)) end;
  occurred_at = none;
  schema_version = 1;
  batch_id = some 7;
  initial_inventory = false;
}

enqueue_runs :
    enqueue_outbox_event settings host sale (fresh_at 2) (row_1 ∷ [])
    ≡ gives (new_event host sale (fresh_at 2), row_1 ∷ new_event host sale (fresh_at 2) ∷ [])
unfolding enqueue_outbox_event configured_franchise_code normalize_franchise_code strip_upper
    Text-discrete utf8_size frozen_event_json guard_baseline validate_frozen_event_request
    item_count get new_event require_initial_inventory_queued initial_inventory_is_queued
    is_baseline column_starts_with initial_inventory_reference
enqueue_runs = refl

row_1-InOrder : InOrder (row_1 ∷ [])
unfolding new_event
row_1-InOrder = record {
  done = [];
  waiting = row_1 ∷ [];
  whole = refl;
  all_sent = tt;
  none_sent = (refl, tt);
}

row_1-IsNext : IsNext 2 (row_1 ∷ [])
unfolding new_event
row_1-IsNext = (omega arith, tt)

enqueue_outbox_event-InOrder_example :
    let row = new_event host sale (fresh_at 2) in
    InOrder (row_1 ∷ row ∷ [])
    × IsKeyedEvents (row_1 ∷ row ∷ [])
    × (row_1 ∷ row ∷ [] ≡ row_1 ∷ row ∷ [])
    × (row.payload_sha256 ≡ host.sha256 row.payload_json)
    × (item_count sale.payload ≤ event_max_items)
    × (utf8_size row.payload_json ≤ event_max_body)
enqueue_outbox_event-InOrder_example =
    enqueue_outbox_event-InOrder settings host sale (fresh_at 2) (row_1 ∷ [])
      (new_event host sale (fresh_at 2)) (row_1 ∷ new_event host sale (fresh_at 2) ∷ []) (refl, tt)
      row_1-IsNext row_1-InOrder enqueue_runs

row_1-StartsWithBaseline : StartsWithBaseline (row_1 ∷ [])
unfolding new_event
row_1-StartsWithBaseline = refl

enqueue_outbox_event-StartsWithBaseline_example :
    StartsWithBaseline (row_1 ∷ new_event host sale (fresh_at 2) ∷ [])
enqueue_outbox_event-StartsWithBaseline_example =
    enqueue_outbox_event-StartsWithBaseline settings host sale (fresh_at 2) (row_1 ∷ [])
      (new_event host sale (fresh_at 2)) (row_1 ∷ new_event host sale (fresh_at 2) ∷ [])
      row_1-StartsWithBaseline enqueue_runs

frozen_fields_lem_example :
    let d = frozen_fields host sale (fresh_at 2) in
    (get (codes "event_id") d ≡ Json.str (2 ∷ []))
    × (get (codes "sequence") d ≡ Json.int (pos 2))
    × (get (codes "type") d ≡ Json.str (codes "SALE"))
    × (get (codes "schema_version") d ≡ Json.int (pos 1))
frozen_fields_lem_example = frozen_fields_lem host sale (fresh_at 2)
