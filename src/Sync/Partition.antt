-- ===== src/Sync/Partition.antt =====
-- Packing the items of the baseline into events that Master takes
-- (`_partition_initial_inventory_items`).
pub mod Chunks
pub mod Fitting
use setuora_lite.Sync.Codes.{Attempt, fail_if, gives, ◌>>=◌, SyncError}
use setuora_lite.Base.{
  List, Text, ℕ, ◌∷◌, codes, Bool, ◌++◌, ◌+◌, [], some, ◌^◌, leb, if◌then◌else◌, none, ◌-◌, length,
  is_empty, true, not, ◌&&◌, ltb,
}
use setuora_lite.Sync.Enqueue.{
  Host, reference_prefix, EventRequest, Fresh, utf8_size, frozen_event_json, event_max_items,
  event_max_body,
}
use setuora_lite.Base
use setuora_lite.Int.{pos}
use setuora_lite.Sync.Rows.{Event, AggregateType}
use setuora_lite.Sync.Json.{Json, Items, Fields}
use setuora_lite.Sync.Codes
use setuora_lite.Sync.Enqueue

unfoldable pub initial_inventory_reference : Host → Text → ℕ → Text
initial_inventory_reference host code part_number =
    reference_prefix code ++ (codes "PART-" ++ host.show part_number)

unfoldable pub json_items : List Fields → Items
json_items [] = Items.nil
json_items (item ∷ items) = Items.cons (Json.obj item) (json_items items)

-- The actor is the text of a user name, or null.
unfoldable pub initial_inventory_payload : Text → Json → List Fields → Fields
unfolding json_items
initial_inventory_payload reference actor items =
    Fields.field (codes "reference") (Json.str reference) (
      Fields.field (codes "actor") actor (
        Fields.field (codes "reason_code") (Json.str (codes "INITIAL_ENROLLMENT"))
          (Fields.field (codes "items") (Json.arr (json_items items)) Fields.end)))

-- The request of one part of the baseline.
abbrev pub part_request : Text → Json → ℕ → List Fields → EventRequest
part_request reference actor occurred_at items = record {
  event_type = codes "STOCK_SNAPSHOT";
  aggregate_type = AggregateType.initial_inventory;
  aggregate_id = reference;
  payload = initial_inventory_payload reference actor items;
  occurred_at = some occurred_at;
  schema_version = 1;
  batch_id = none;
  initial_inventory = true;
}

-- `_EVENT_ID_SIZE_PLACEHOLDER` and `_MAX_SQLITE_SEQUENCE`
abbrev pub size_placeholders : ℕ → Fresh
size_placeholders now = record {
  sequence = 2 ^ 63 - 1;
  event_id = codes "00000000-0000-0000-0000-000000000000";
  now = now;
}

unfoldable pub sum_sizes : List ℕ → ℕ
sum_sizes [] = 0
sum_sizes (n ∷ sizes) = n + sum_sizes sizes

-- The subtraction stops at 0, which is the `max` of the source.
unfoldable pub body_size : Host → Text → Json → ℕ → List ℕ → ℕ
unfolding sum_sizes
body_size host reference actor occurred_at item_json_sizes =
    let envelope_size = utf8_size (
      frozen_event_json host (part_request reference actor occurred_at [])
        (size_placeholders occurred_at)) in
    envelope_size + sum_sizes item_json_sizes + (length item_json_sizes - 1)

-- The local variables of the loop.
pub record Packing {ℓ} (A : Type ℓ) : Type ℓ where
  pub chunks : List (List A)
  pub current_items : List A
  pub current_content_size : ℕ
  pub part_number : ℕ
  pub envelope_size : ℕ

-- The loop, for the size of an item and of the envelope of a part.
module _ {ℓ} {A : Type ℓ} (size : A → ℕ) (envelope : ℕ → ℕ) where
  unfoldable pub candidate_fits : Packing A → ℕ → Bool
  candidate_fits p item_addition =
      leb (length p.current_items + 1) event_max_items
      && leb (p.envelope_size + p.current_content_size + item_addition) event_max_body

  unfoldable pub next_part : Packing A → Packing A
  next_part p = record {
    chunks = p.chunks ++ p.current_items ∷ [];
    current_items = [];
    current_content_size = 0;
    part_number = p.part_number + 1;
    envelope_size = envelope (p.part_number + 1);
  }

  -- The part that the item goes into, and what it adds to it.
  unfoldable pub open_part : Packing A → A → Packing A × ℕ
  unfolding candidate_fits next_part
  open_part p item =
      let item_addition = size item + (if is_empty p.current_items then 0 else 1) in
      if not (candidate_fits p item_addition) && not (is_empty p.current_items)
      then (next_part p, size item)
      else (p, item_addition)

  unfoldable pub add_item : Packing A → ℕ → A → Attempt (Packing A)
  add_item p item_addition item =
      fail_if (is_empty p.current_items && ltb event_max_body (p.envelope_size + size item))
        SyncError.item_too_large
      >>= λ _. gives (record p {
        current_items = p.current_items ++ item ∷ [];
        current_content_size = p.current_content_size + item_addition;
      })

  unfoldable pub pack_items : List A → Packing A → Attempt (Packing A)
  unfolding open_part add_item
  pack_items [] p = gives p
  pack_items (item ∷ items) p =
      let (part, item_addition) = open_part p item in
      add_item part item_addition item >>= λ p'. pack_items items p'

  abbrev pub first_part : Packing A
  first_part = record {
    chunks = [];
    current_items = [];
    current_content_size = 0;
    part_number = 1;
    envelope_size = envelope 1;
  }

  unfoldable pub partition_items : List A → Attempt (List (List A))
  unfolding pack_items
  partition_items items = pack_items items first_part >>= λ p.
      gives (if is_empty p.current_items then p.chunks else p.chunks ++ p.current_items ∷ [])

unfoldable pub item_size : Host → Fields → ℕ
item_size host item = utf8_size (host.dumps (Json.obj item))

unfoldable pub part_envelope_size : Host → Text → Json → ℕ → ℕ → ℕ
unfolding body_size
part_envelope_size host code actor occurred_at part_number =
    body_size host (initial_inventory_reference host code part_number) actor occurred_at []

unfoldable pub partition_initial_inventory_items :
    Host → Text → Json → ℕ → List Fields → Attempt (List (List Fields))
unfolding partition_items
partition_initial_inventory_items host code actor occurred_at items =
    partition_items (item_size host) (part_envelope_size host code actor occurred_at) items
