-- ===== src/Sync/Enqueue.antt =====
-- Queueing an event for Master (`enqueue_outbox_event`), and the guard that the baseline of the
-- inventory comes first.
pub mod Frozen
pub mod Queue
use setuora_lite.Base.{
  ℕ, [], ◌∷◌, nat_eq, text_eq, Bool, Text, leb, if◌then◌else◌, ◌==◌, false, true, codes, none, some,
  Option, List, ◌++◌, ◌+◌, ◌*◌, ltb, ◌&&◌, is_some, or_else, find, not,
}
use setuora_lite.Int.{pos, ℤ}
use setuora_lite.Model.{OutboxStatus}
use setuora_lite.Sync.Rows.{Event, AggregateType}
use setuora_lite.Sync.Json.{Json, Items, Fields, put, set_default, get, items_length}
use setuora_lite.Sync.Like.{column_starts_with}
use setuora_lite.Sync.Codes.{
  configured_franchise_code, gives, Attempt, Settings, fail_if, ◌>>=◌, SyncError, fails,
}

-- What the code uses of the platform: the canonical text of a value, the hash of a text, the texts of
-- a moment and of a day, the digits of a number, and the float of an amount.
pub record Host : Type 0 where
  pub dumps : Json → Text
  pub sha256 : Text → Text
  pub iso : ℕ → Text
  pub day : ℕ → Text
  pub show : ℕ → Text
  pub float : ℤ → Json

-- The bytes of a code point, and `_utf8_size`.
unfoldable pub code_size : ℕ → ℕ
code_size c = if ltb c 128 then 1 else if ltb c 2048 then 2 else if ltb c 65536 then 3 else 4

unfoldable pub utf8_size : Text → ℕ
unfolding code_size
utf8_size [] = 0
utf8_size (c ∷ s) = code_size c + utf8_size s

abbrev pub event_max_items : ℕ
event_max_items = 5000

abbrev pub event_max_body : ℕ
event_max_body = 5 * 1024 * 1024

abbrev pub is_baseline_type : AggregateType → Bool
is_baseline_type AggregateType.initial_inventory = true
is_baseline_type _ = false

abbrev pub reference_prefix : Text → Text
reference_prefix code = code ++ codes ":INITIAL-INVENTORY:"

unfoldable pub is_baseline : Text → Event → Bool
unfolding column_starts_with
is_baseline code e =
    is_baseline_type e.aggregate_type && column_starts_with (reference_prefix code) e.aggregate_id

-- `initial_inventory_is_queued`, for a code that is given
unfoldable pub initial_inventory_is_queued : Text → List Event → Bool
initial_inventory_is_queued code events = is_some (find (is_baseline code) events)

unfoldable pub require_initial_inventory_queued : Settings → List Event → Attempt Text
require_initial_inventory_queued settings events =
    configured_franchise_code settings (some true) >>= λ code.
    fail_if (not (initial_inventory_is_queued code events)) SyncError.not_initialized >>= λ _.
    gives code

-- The arguments of `enqueue_outbox_event`, with the type already in capitals.
pub record EventRequest : Type 0 where
  pub event_type : Text
  pub aggregate_type : AggregateType
  pub aggregate_id : Text
  pub payload : Fields
  pub occurred_at : Option ℕ
  pub schema_version : ℕ
  pub batch_id : Option ℕ
  pub initial_inventory : Bool

-- What the database and the platform give to the call: the sequence number, an id, the clock.
pub record Fresh : Type 0 where
  pub sequence : ℕ
  pub event_id : Text
  pub now : ℕ

-- The event object of `_frozen_event_json`.
unfoldable pub frozen_fields : Host → EventRequest → Fresh → Fields
frozen_fields host request fresh =
    let stamped =
      put (codes "occurred_at") (Json.str (host.iso (or_else request.occurred_at fresh.now))) (
        put (codes "type") (Json.str request.event_type) (
          put (codes "sequence") (Json.int (pos fresh.sequence)) (
            put (codes "event_id") (Json.str fresh.event_id) (
              put (codes "schema_version") (Json.int (pos request.schema_version))
                request.payload)))) in
    set_default (codes "items") (Json.arr Items.nil) (
      set_default (codes "actor") Json.null
        (set_default (codes "reference") (Json.str request.aggregate_id) stamped))

unfoldable pub frozen_event_json : Host → EventRequest → Fresh → Text
unfolding frozen_fields
frozen_event_json host request fresh = host.dumps (
    Json.obj (
      Fields.field (codes "events")
        (Json.arr (Items.cons (Json.obj (frozen_fields host request fresh)) Items.nil)) Fields.end))

-- `len(items) if isinstance(items, (list, tuple, set)) else 0`
unfoldable pub item_count : Fields → ℕ
item_count payload = elim (get (codes "items") payload) [
  | Json.arr items ↦ items_length items
  | _ ↦ 0
]

unfoldable pub validate_frozen_event_request : Text → ℕ → Attempt (Unit {0})
validate_frozen_event_request payload_json count =
    fail_if (ltb event_max_items count) SyncError.too_many_items >>= λ _.
    fail_if (ltb event_max_body (utf8_size payload_json)) SyncError.too_large

unfoldable pub guard_baseline : Settings → EventRequest → List Event → Attempt (Unit {0})
guard_baseline settings request events = configured_franchise_code settings (some true) >>= λ _.
    if request.initial_inventory
    then fail_if (not (is_baseline_type request.aggregate_type)) SyncError.only_baseline
    else require_initial_inventory_queued settings events >>= λ _. gives tt

-- The row that reserves the sequence.
unfoldable pub placeholder : EventRequest → Fresh → Event
placeholder request fresh = record {
  id = fresh.sequence;
  event_id = fresh.event_id;
  event_type = request.event_type;
  schema_version = request.schema_version;
  aggregate_type = request.aggregate_type;
  aggregate_id = request.aggregate_id;
  batch_id = request.batch_id;
  payload_json = [];
  payload_sha256 = [];
  status = OutboxStatus.pending;
  attempts = 0;
  next_attempt_at = none;
  last_error = none;
  sending_at = none;
  sent_at = none;
}

-- The row once its payload is frozen.
unfoldable pub new_event : Host → EventRequest → Fresh → Event
unfolding placeholder
new_event host request fresh = record (placeholder request fresh) {
  payload_json = frozen_event_json host request fresh;
  payload_sha256 = host.sha256 (frozen_event_json host request fresh);
}

-- The rows that a call which raises has left in the caller's transaction: after the guards the
-- placeholder is flushed, before the text is made and validated.
unfoldable pub events_after_failure : Settings → EventRequest → Fresh → List Event → List Event
events_after_failure settings request fresh events = elim (guard_baseline settings request events) [
  | fails e ↦ events
  | gives _ ↦ events ++ placeholder request fresh ∷ []
]

-- The row joins the outbox in the caller's transaction. If the call raises, `events_after_failure` is
-- what it leaves, and the caller rolls back.
unfoldable pub enqueue_outbox_event :
    Settings → Host → EventRequest → Fresh → List Event → Attempt (Event × List Event)
enqueue_outbox_event settings host request fresh events =
    let row = new_event host request fresh in
    guard_baseline settings request events >>= λ _.
    validate_frozen_event_request row.payload_json (item_count request.payload) >>= λ _.
    gives (row, events ++ row ∷ [])
