-- ===== src/Sync/Partition/Fitting.antt =====
-- The packing of items that each have room alone.
use setuora_lite.Sync.Codes.{gives}
use setuora_lite.Sync.Partition.{
  partition_initial_inventory_items, Packing, open_part, add_item, pack_items, partition_items,
  next_part, item_size, part_envelope_size, first_part,
}
use setuora_lite.Base.{
  ℕ, ◌+◌, ◌≤◌, ◌≡◌, List, Text, arith, All, ltb, ◌∷◌, false, refl, if◌then◌else◌, is_empty, length,
}
use setuora_lite.Base.{[], ◌∷◌, ◌++◌, false}
use setuora_lite.Sync.Enqueue.{event_max_body, Host}
use setuora_lite.Sync.Json.{Json, Fields}

module _ {ℓ} {A : Type ℓ} (size : A → ℕ) (envelope : ℕ → ℕ) where
  -- The item fits into an event of its own, as any of the parts from 1 to `limit`.
  abbrev pub HasRoomAlone : ℕ → A → Type 0
  HasRoomAlone limit item = (n : ℕ) → 1 ≤ n → n ≤ limit → envelope n + size item ≤ event_max_body

  -- The size is that of the current part, and with `left` items to come no more than `limit` parts
  -- are opened.
  record IsSized (limit left : ℕ) (p : Packing A) : Type 0 where
    sized : p.envelope_size ≡ envelope p.part_number
    from_one : 1 ≤ p.part_number
    up_to : p.part_number + left ≤ limit + (if is_empty p.current_items then 1 else 0)

  open_part-IsSized :
      (limit left : ℕ) (p : Packing A) (item : A)
      → IsSized limit (left + 1) p
      → let q = (open_part size envelope p item).0 in
        (q.envelope_size ≡ envelope q.part_number)
        × (1 ≤ q.part_number)
        × (q.part_number + left ≤ limit)
  unfolding open_part next_part
  open_part-IsSized limit left p item h =
      let sized = h.sized in
      let from_one = h.from_one in let up_to = h.up_to in (ground arith, ground arith, ground arith)

  add_item_succeeds :
      (limit left : ℕ) (p : Packing A) (item_addition : ℕ) (item : A)
      → p.envelope_size ≡ envelope p.part_number
      → 1 ≤ p.part_number
      → p.part_number + left ≤ limit
      → HasRoomAlone limit item
      → (p' : Packing A) × (add_item size envelope p item_addition item ≡ gives p')
        × IsSized limit left p'
  unfolding add_item
  add_item_succeeds limit left p item_addition item sized from_one up_to room =
      let fits = room p.part_number from_one (omega arith) in
      let small : ltb event_max_body (p.envelope_size + size item) ≡ false =
        rw sized (ground arith) in
      (
        record p {
          current_items = p.current_items ++ item ∷ [];
          current_content_size = p.current_content_size + item_addition;
        },
        rw small (ground arith),
        record { sized = sized; from_one = from_one; up_to = omega arith },
      )

  pack_items_succeeds :
      (limit : ℕ) (items : List A) (p : Packing A)
      → IsSized limit (length items) p
      → All (HasRoomAlone limit) items
      → (p' : Packing A) × (pack_items size envelope items p ≡ gives p')
  unfolding pack_items
  pack_items_succeeds limit [] p h room = (p, refl)
  pack_items_succeeds limit (item ∷ items) p h room =
      let (part, item_addition) = open_part size envelope p item in
      let (sized, from_one, up_to) =
        open_part-IsSized limit (length items) p item
          (record { sized = h.sized; from_one = h.from_one; up_to = omega (arith, h.up_to) }) in
      let (q, added, ready) =
        add_item_succeeds limit (length items) part item_addition item sized from_one up_to
          room.0 in
      let (p', packed) = pack_items_succeeds limit items q ready room.1 in
      (p', rw (added, packed) refl)

-- If each item of the baseline fits into an event of its own, as any of the parts 1 to n where n is
-- the number of items, then the partition succeeds.
pub partition_initial_inventory_items_succeeds :
    (host : Host) (code : Text) (actor : Json) (occurred_at : ℕ) (items : List Fields)
    → All
        (HasRoomAlone
          (item_size host)
          (part_envelope_size host code actor occurred_at)
          (length items))
        items
    → (chunks : List (List Fields)) × (partition_initial_inventory_items host code actor occurred_at
          items
        ≡ gives chunks)
unfolding partition_initial_inventory_items partition_items
partition_initial_inventory_items_succeeds host code actor occurred_at items room =
    let size = item_size host in
    let envelope = part_envelope_size host code actor occurred_at in
    let start : IsSized size envelope (length items) (length items) (first_part size envelope) =
      record { sized = refl; from_one = omega arith; up_to = omega arith } in
    let (p, packed) =
      pack_items_succeeds size envelope (length items) items (first_part size envelope) start
        room in
    (
      (if is_empty p.current_items then p.chunks else p.chunks ++ p.current_items ∷ []),
      rw packed refl,
    )
