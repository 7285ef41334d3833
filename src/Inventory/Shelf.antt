-- ===== src/Inventory/Shelf.antt =====
-- Shelf verification of scanned items (app/services/shelf_verification.py): a batch type that is
-- controlled asks for the shelf's code after every so many items of one product.
use setuora_lite.Base.{
  ℕ, Bool, true, false, ◌&&◌, not, Option, none, some, List, [], ◌∷◌, ◌==◌, nat_eq, ltb, max,
  is_some, select, count_where, if◌then◌else◌, leb, or_else, length, ◌||◌, ◌-◌, min, update_where,
  ◌⊎◌, inl, map, inr, ◌++◌,
}
use setuora_lite.Model.{
  BatchType, StorageLocation, Serial, User, Db, Session, ScanLog, ScanAction, ScanStatus, commit,
  is_draft,
}
use setuora_lite.Inventory.Loaded.{LoadedItem, Loaded, save_item}

unfoldable pub is_shelf_controlled : BatchType → Bool
is_shelf_controlled BatchType.purchase = true
is_shelf_controlled BatchType.receive = true
is_shelf_controlled BatchType.audit = true
is_shelf_controlled _ = false

-- `max(1, int(interval or 1))`
unfoldable pub interval : LoadedItem → ℕ
interval x = max 1 x.product.shelf_verification_interval

unfoldable pub pending_shelf_items : Loaded → List LoadedItem
unfolding is_shelf_controlled interval
pending_shelf_items b =
    if not (is_shelf_controlled b.batch.batch_type)
    then []
    else select (λ x. ltb 0 (interval x) && not (is_some x.item.shelf_verified_at)) b.items

pub record ShelfState : Type 0 where
  pub controlled : Bool
  pub pending_count : ℕ
  pub shelf_required : Bool
  pub next_required_in : ℕ
  pub complete : Bool

-- `Counter(product_id)` and the dictionary of intervals, in which the last item of a product wins.
unfoldable pub pending_of : ℕ → List LoadedItem → ℕ
pending_of product_id xs = count_where (λ x. x.serial.product_id == product_id) xs

unfoldable pub interval_of : ℕ → List LoadedItem → Option ℕ
unfolding interval
interval_of product_id [] = none
interval_of product_id (x ∷ xs) =
    let later = interval_of product_id xs in
    if is_some later
    then later
    else if x.serial.product_id == product_id
    then some (interval x)
    else none

unfoldable pub left_of : List LoadedItem → LoadedItem → ℕ
unfolding pending_of interval_of
left_of pending x =
    or_else (interval_of x.serial.product_id pending) 0 - pending_of x.serial.product_id pending

unfoldable pub is_due : List LoadedItem → LoadedItem → Bool
unfolding pending_of interval_of
is_due pending x =
    leb (or_else (interval_of x.serial.product_id pending) 0)
      (pending_of x.serial.product_id pending)

-- `any(counts[p] >= interval for p, interval in intervals.items())`; a product that occurs twice
-- gives the same test twice.
unfoldable pub any_due : List LoadedItem → List LoadedItem → Bool
unfolding is_due
any_due pending [] = false
any_due pending (x ∷ xs) = is_due pending x || any_due pending xs

-- `max(0, min(interval - counts[p], default=0))`: the clamp at 0 is moved inside the minimum.
unfoldable pub next_required : List LoadedItem → List LoadedItem → Option ℕ
unfolding left_of
next_required pending [] = none
next_required pending (x ∷ xs) =
    let left = left_of pending x in
    some (elim (next_required pending xs) [ none ↦ left | some least ↦ min left least ])

unfoldable pub shelf_verification_state : Loaded → ShelfState
unfolding pending_shelf_items any_due next_required
shelf_verification_state b =
    let pending = pending_shelf_items b in
    record {
      controlled = is_shelf_controlled b.batch.batch_type;
      pending_count = length pending;
      shelf_required = any_due pending pending;
      next_required_in = or_else (next_required pending pending) 0;
      complete = length pending == 0;
    }

-- `true`: the scan may go on. `false`: ShelfVerificationError.
unfoldable pub ensure_product_scan_allowed : Loaded → Bool
unfolding shelf_verification_state
ensure_product_scan_allowed b = not (shelf_verification_state b).shelf_required

unfoldable pub validate_shelf_verification_complete : Loaded → Bool
unfolding pending_shelf_items
validate_shelf_verification_complete b = not (ltb 0 (length (pending_shelf_items b)))

pub data ShelfError : Type 0 where
  already_submitted not_controlled nothing_pending : ShelfError

is_mismatch : BatchType → StorageLocation → LoadedItem → Bool
is_mismatch BatchType.audit location x = elim x.serial.location_id [
  | none ↦ false
  | some l ↦ not (l == location.id)
]
is_mismatch _ location x = false

place : StorageLocation → Serial → Serial
place location serial = record serial {
  location_id = some location.id;
  warehouse = location.warehouse;
  warehouse_level = location.warehouse_level;
}

-- The loop body on one item of `pending`; the other items stay.
verify_item : StorageLocation → User → ℕ → LoadedItem → LoadedItem
unfolding place
verify_item location user now x = record x {
  item = record x.item {
    shelf_location_id = some location.id;
    shelf_verified_by_id = some user.id;
    shelf_verified_at = some now;
  };
  serial = place location x.serial;
}

save_placed : StorageLocation → List LoadedItem → Db → Db
unfolding place
save_placed location [] db = db
save_placed location (x ∷ xs) db = save_placed location xs (
    save_item x.item
      (record db { serials = update_where (λ r. r.id == x.serial.id) (place location) db.serials }))

-- The pending items are verified, and the number of them is returned. The tables are committed.
unfoldable pub verify_pending_items_on_shelf :
    StorageLocation → User → ℕ → Loaded → Session → (ShelfError ⊎ (ℕ × Loaded)) × Session
unfolding verify_item save_placed is_mismatch pending_shelf_items
verify_pending_items_on_shelf location user now b s =
    if not (is_draft b.batch.status)
    then (inl ShelfError.already_submitted, s)
    else if not (is_shelf_controlled b.batch.batch_type)
    then (inl ShelfError.not_controlled, s)
    else let pending = pending_shelf_items b in
      let is_pending =
        λ (x : LoadedItem). ltb 0 (interval x) && not (is_some x.item.shelf_verified_at) in
      let mismatches = count_where (is_mismatch b.batch.batch_type location) pending in
      let b' : Loaded = record b {
        items = update_where is_pending (verify_item location user now) b.items;
      } in
      let log : ScanLog = record {
        serial_id = none;
        serial_number_raw = location.code;
        user_id = user.id;
        action = ScanAction.shelf_verify;
        batch_id = some b.batch.id;
        status = if ltb 0 mismatches then ScanStatus.mismatch else ScanStatus.verified;
      } in
      let placed = save_placed location (map (verify_item location user now) pending) s.db in
      if length pending == 0 then (inl ShelfError.nothing_pending, s) else (
        inr (length pending, b'),
        commit (record s { db = record placed { scan_logs = placed.scan_logs ++ log ∷ [] } }),
      )
