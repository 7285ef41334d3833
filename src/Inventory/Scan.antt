-- ===== src/Inventory/Scan.antt =====
-- Scanning units into a draft batch (app/services/inventory.py) and picking them by expiry
-- (app/services/expiry.py). What the database and the clock give to a call is its `Moment`.
pub mod Drafts
pub mod Picks
pub mod Calls
mod Tests
use setuora_lite.Base.{
  ℕ, [], ◌∷◌, List, none, some, true, false, Bool, Option, nat_eq, text_eq, if◌then◌else◌,
  strip_upper, Text, ◌++◌, ◌==◌, ◌&&◌, ◌+◌, not, is_some, find, ltb, length,
}
use setuora_lite.Model.{
  Serial, SerialStatus, BatchType, Batch, BatchItem, Db, Session, status_eq, is_draft, is_audit,
  ScanLog, ScanAction, ScanStatus, User, commit, rollback,
}
use setuora_lite.Inventory.Errors.{ok, err, Result, ◌>>◌, InventoryError, raise_if}
use setuora_lite.Inventory.Assignment.{Assignment, validate_assignment_scan}
use setuora_lite.Inventory.Rules.{serial_allowed_for_batch}
use setuora_lite.Inventory.Fefo.{
  validate_fefo_scan, fefo_candidate_serials, is_draft_item, fefo_available_statuses, is_fefo_type,
}

-- `next_id` is the key of the next new item, and `raced` says that another session has put the unit
-- into the batch since the call read the items: the commit then meets the unique constraint.
pub record Moment : Type 0 where
  pub now : ℕ
  pub next_id : ℕ
  pub raced : Bool

unfoldable pub scan_log : Batch → User → Option ℕ → Text → ScanStatus → ScanLog
scan_log batch user serial_id number status = record {
  serial_id = serial_id;
  serial_number_raw = number;
  user_id = user.id;
  action = ScanAction.of_batch batch.batch_type;
  batch_id = some batch.id;
  status = status;
}

unfoldable pub new_item : ℕ → ℕ → ℕ → Bool → BatchItem
new_item id batch_id serial_id fefo_picked = record {
  id = id;
  batch_id = batch_id;
  serial_id = serial_id;
  quantity = 1;
  rate = none;
  sales_discount_rate = none;
  fefo_picked = fefo_picked;
  shelf_location_id = none;
  shelf_verified_by_id = none;
  shelf_verified_at = none;
}

abbrev pub log_scan : ScanLog → Db → Db
log_scan log db = record db { scan_logs = db.scan_logs ++ log ∷ [] }

-- `_record_rejected_scan`: the log is committed.
unfoldable pub record_rejected_scan : Batch → User → Option ℕ → Text → Session → Session
record_rejected_scan batch user serial_id number s =
    commit
      (record s { db = log_scan (scan_log batch user serial_id number ScanStatus.rejected) s.db })

-- `BatchItem.batch_id == batch.id, BatchItem.serial_id == serial.id`
abbrev pub is_item_of : Batch → ℕ → BatchItem → Bool
is_item_of batch serial_id i = i.batch_id == batch.id && i.serial_id == serial_id

-- An item of another draft.
abbrev pub is_in_other_draft : Db → Batch → ℕ → BatchItem → Bool
is_in_other_draft db batch serial_id i =
    is_draft_item db serial_id i && not (i.batch_id == batch.id)

-- The checks of the `try` block, in order.
unfoldable pub check_scan : Option Assignment → Batch → User → Serial → ℕ → Db → Result (Unit {0})
check_scan assignment batch user serial now db =
    serial_allowed_for_batch serial batch.batch_type
    >> (if is_audit batch.batch_type && is_some batch.audit_assignment_id
        then validate_assignment_scan assignment user serial now
        else ok tt)
    >> raise_if (is_some (validate_fefo_scan db batch serial)) InventoryError.fefo_required
    >> raise_if (is_some (find (is_item_of batch serial.id) db.items))
        InventoryError.already_scanned
    >> raise_if (is_some (find (is_in_other_draft db batch serial.id) db.items))
        InventoryError.in_another_batch

-- `db.commit()` of the new item and its log.
unfoldable pub commit_scan : Batch → User → Serial → Moment → Session → Result BatchItem × Session
commit_scan batch user serial m s =
    let item = new_item m.next_id batch.id serial.id false in
    let log = scan_log batch user (some serial.id) serial.serial_number ScanStatus.scanned in
    if m.raced
    then (
      err InventoryError.already_scanned,
      record_rejected_scan batch user (some serial.id) serial.serial_number (rollback s),
    )
    else (
      ok item,
      commit (record s { db = record (log_scan log s.db) { items = s.db.items ++ item ∷ [] } }),
    )

unfoldable pub add_serial_to_batch :
    Option Assignment → Batch → User → Text → Moment → Session → Result BatchItem × Session
add_serial_to_batch assignment batch user serial_number m s =
    if not (is_draft batch.status)
    then (err InventoryError.already_submitted, s)
    else elim (find (λ (r : Serial). r.serial_number == strip_upper serial_number) s.db.serials) [
      | none ↦ (
        err InventoryError.not_found,
        record_rejected_scan batch user none (strip_upper serial_number) s,
      )
      | some serial ↦ elim (check_scan assignment batch user serial m.now s.db) [
        | err e ↦ (err e, record_rejected_scan batch user (some serial.id) serial.serial_number s)
        | ok _ ↦ commit_scan batch user serial m s
      ]
    ]

-- The items that the picking adds, with the keys from `next_id` on.
unfoldable pub picked_items : ℕ → Batch → List Serial → List BatchItem
picked_items next_id batch [] = []
picked_items next_id batch (serial ∷ serials) =
    new_item next_id batch.id serial.id true ∷ picked_items (next_id + 1) batch serials

unfoldable pub picked_logs : Batch → User → List Serial → List ScanLog
picked_logs batch user [] = []
picked_logs batch user (serial ∷ serials) =
    scan_log batch user (some serial.id) serial.serial_number ScanStatus.fefo_picked
    ∷ picked_logs batch user serials

unfoldable pub add_fefo_serials_to_batch :
    Batch → User → ℕ → ℕ → ℕ → Session → Result (List BatchItem) × Session
add_fefo_serials_to_batch batch user product_id quantity next_id s =
    let serials =
      fefo_candidate_serials s.db product_id quantity (fefo_available_statuses batch.batch_type) in
    let items = picked_items next_id batch serials in
    if not (is_draft batch.status)
    then (err InventoryError.already_submitted, s)
    else if not (is_fefo_type batch.batch_type)
    then (err InventoryError.fefo_unavailable, s)
    else if ltb (length serials) quantity
    then (err InventoryError.fefo_short, s)
    else (
      ok items,
      commit (record s {
        db = record s.db {
          items = s.db.items ++ items;
          scan_logs = s.db.scan_logs ++ picked_logs batch user serials;
        };
      }),
    )
