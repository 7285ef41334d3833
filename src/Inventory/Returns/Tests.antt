-- ===== src/Inventory/Returns/Tests.antt =====
-- A sale of which one unit is taken back and put on a shelf.
use mathlib.Core.Option
use setuora_lite.Base.{
  ℕ, refl, [], ◌∷◌, some, ◌≡◌, codes, none, true, ◌++◌, false, Text-discrete, length, ◌≢◌, ◌+◌, ◌≤◌,
  if◌then◌else◌, Text,
}
use setuora_lite.Base.Characters.{strip_upper, strip, lstrip, rstrip, upper, upper_char}
use setuora_lite.Model.{
  Serial, User, SerialStatus, BatchItem, Batch, Db, Session, BatchStatus, BatchType, WarehouseLevel,
  SerialStatus-discrete, BatchStatus-discrete, BatchType-discrete, StorageLocation,
}
use setuora_lite.Inventory.Errors.{ok, err, InventoryError}
use setuora_lite.Inventory.Returns.{
  scan_sale_return_product, return_serial, take_back, ensure_draft_sale,
  verify_sale_return_on_shelf, is_pending_return, is_return_action, is_pending_status, return_log,
  pending_sale_return_logs, ensure_sale_scan_allowed, validate_sale_returns_complete,
}
use setuora_lite.Inventory.Returns.Effects.{
  scan_return-waits, verify_return-clears, serial_at, is_logged, shelved,
}

abbrev clerk : User
clerk = record { id = 1; username = codes "clerk" }

abbrev unit_of : ℕ → SerialStatus → Serial
unit_of k status = record {
  id = k;
  serial_number = codes "R-" ++ (48 + k) ∷ [];
  product_id = 1;
  status = status;
  active = true;
  created_at = 0;
  replaced_by_id = none;
  product_batch_number = none;
  mfg_date = none;
  expiry_date = none;
  warehouse = none;
  warehouse_level = WarehouseLevel.company_warehouse;
  location_id = none;
}

abbrev item_of : ℕ → ℕ → BatchItem
item_of k serial_id = record {
  id = k;
  batch_id = 5;
  serial_id = serial_id;
  quantity = 1;
  rate = none;
  sales_discount_rate = none;
  fefo_picked = false;
  shelf_location_id = none;
  shelf_verified_by_id = none;
  shelf_verified_at = none;
}

abbrev sale_row : Batch
sale_row = record {
  id = 5;
  batch_number = codes "SAL-1";
  batch_type = BatchType.sale;
  status = BatchStatus.draft;
  gst_treatment = none;
  gst_cgst_rate = none;
  gst_sgst_rate = none;
  gst_igst_rate = none;
  reason_code = none;
  tally_reference = none;
  audit_assignment_id = none;
  submitted_at = none;
  synced_at = none;
}

abbrev till : Session
till =
    let db : Db = record {
      serials = unit_of 1 SerialStatus.in_stock ∷ unit_of 2 SerialStatus.in_stock ∷ [];
      batches = sale_row ∷ [];
      items = item_of 1 1 ∷ item_of 2 2 ∷ [];
      scan_logs = [];
      transactions = [];
    } in
    record { db = db; committed = db }

abbrev shelf : StorageLocation
shelf = record {
  id = 9;
  code = codes "A-1";
  warehouse = some (codes "MAIN");
  warehouse_level = WarehouseLevel.company_warehouse;
}

abbrev waiting : Session
waiting = (scan_sale_return_product sale_row clerk (codes "r-2 ") till).1

scan_runs :
    (scan_sale_return_product sale_row clerk (codes "r-2 ") till).0
    ≡ ok (unit_of 2 SerialStatus.in_stock)
unfolding scan_sale_return_product return_serial take_back ensure_draft_sale strip_upper strip
    lstrip rstrip upper upper_char Text-discrete SerialStatus-discrete BatchStatus-discrete
    BatchType-discrete
scan_runs = refl

scan_return-waits_example :
    (pending_sale_return_logs 5 till.db ≡ [])
    × (length (pending_sale_return_logs 5 waiting.db) ≡ 1)
    × (ensure_sale_scan_allowed sale_row waiting.db ≡ err InventoryError.shelf_scan_first)
    × (validate_sale_returns_complete sale_row waiting.db
        ≡ err InventoryError.sale_return_incomplete)
    × ((user' : User) (number' : Text) (serial' : Serial)
        → (scan_sale_return_product sale_row user' number' waiting).0 ≢ ok serial')
    × (waiting.db.serials ≡ till.db.serials)
    × (waiting.committed ≡ waiting.db)
scan_return-waits_example =
    scan_return-waits sale_row clerk (codes "r-2 ") till (unit_of 2 SerialStatus.in_stock) scan_runs

shelf_runs : (verify_sale_return_on_shelf sale_row shelf clerk waiting).0 ≡ ok 1
unfolding scan_sale_return_product return_serial take_back ensure_draft_sale strip_upper strip
    lstrip rstrip upper upper_char Text-discrete SerialStatus-discrete BatchStatus-discrete
    BatchType-discrete verify_sale_return_on_shelf is_pending_return is_return_action
    is_pending_status return_log
shelf_runs = refl

abbrev done : Session
done = (verify_sale_return_on_shelf sale_row shelf clerk waiting).1

verify_return-clears_example :
    let pending = pending_sale_return_logs 5 waiting.db in
    (1 ≡ length pending)
    × (1 ≤ 1)
    × (pending_sale_return_logs 5 done.db ≡ [])
    × (validate_sale_returns_complete sale_row done.db ≡ ok tt)
    × ((k : ℕ) → k ≢ 5 → pending_sale_return_logs k done.db ≡ pending_sale_return_logs k waiting.db)
    × ((k : ℕ)
        → serial_at k done
          ≡ Option.map
              (λ r. if is_logged r.id pending then shelved shelf r else r)
              (serial_at k waiting))
verify_return-clears_example = verify_return-clears sale_row shelf clerk waiting 1 shelf_runs
