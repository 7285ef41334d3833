-- ===== src/Inventory/Edits/Tests.antt =====
-- A rate set on an item of a sale, next to an item of another batch.
use setuora_lite.Base.{ℕ, refl, [], ◌∷◌, some, ◌≡◌, codes, none, true, ◌++◌, false, ◌≢◌, ◌+◌}
use setuora_lite.Int.{pos}
use setuora_lite.Model.{
  Serial, SerialStatus, BatchItem, Batch, Db, Session, BatchStatus, BatchType, WarehouseLevel,
  BatchStatus-discrete, is_draft,
}
use setuora_lite.Inventory.Errors.{ok}
use setuora_lite.Inventory.Edits.{edit, Edit, update_batch_item_rate, item_of_batch}
use setuora_lite.Inventory.Edits.Effects.{edit-within_batch, item_at}

abbrev unit_of : ℕ → SerialStatus → Serial
unit_of k status = record {
  id = k;
  serial_number = codes "R-" ++ (48 + k) ∷ [];
  product_id = 1;
  status = status;
  active = true;
  created_at = 0;
  replaced_by_id = none;
  product_batch_number = none;
  mfg_date = none;
  expiry_date = none;
  warehouse = none;
  warehouse_level = WarehouseLevel.company_warehouse;
  location_id = none;
}

abbrev item_of : ℕ → ℕ → BatchItem
item_of k serial_id = record {
  id = k;
  batch_id = 5;
  serial_id = serial_id;
  quantity = 1;
  rate = none;
  sales_discount_rate = none;
  fefo_picked = false;
  shelf_location_id = none;
  shelf_verified_by_id = none;
  shelf_verified_at = none;
}

abbrev sale_row : Batch
sale_row = record {
  id = 5;
  batch_number = codes "SAL-1";
  batch_type = BatchType.sale;
  status = BatchStatus.draft;
  gst_treatment = none;
  gst_cgst_rate = none;
  gst_sgst_rate = none;
  gst_igst_rate = none;
  reason_code = none;
  tally_reference = none;
  audit_assignment_id = none;
  submitted_at = none;
  synced_at = none;
}

abbrev session : Session
session =
    let db : Db = record {
      serials = unit_of 1 SerialStatus.in_stock ∷ unit_of 2 SerialStatus.in_stock ∷ [];
      batches = sale_row ∷ [];
      items = item_of 1 1 ∷ (record (item_of 2 2) { batch_id = 6 }) ∷ [];
      scan_logs = [];
      transactions = [];
    } in
    record { db = db; committed = db }

abbrev rating : Edit
rating = Edit.rates_item 1 (pos 30_000_000)

rate_is_set :
    item_at 1 (edit sale_row rating session).1
    ≡ some (record (item_of 1 1) { rate = some (pos 30_000_000) })
unfolding update_batch_item_rate item_of_batch BatchStatus-discrete
rate_is_set = refl

edit-within_batch_example :
    let s' = (edit sale_row rating session).1 in
    ((k : ℕ) (i : BatchItem) → item_at k session ≡ some i → i.batch_id ≢ 5 → item_at k s' ≡ some i)
    × (s'.db.serials ≡ session.db.serials)
    × (s'.db.transactions ≡ session.db.transactions)
    × (is_draft sale_row.status ≡ false → s' ≡ session)
    × ((edit sale_row rating session).0 ≡ ok tt → s'.committed ≡ s'.db)
edit-within_batch_example = edit-within_batch sale_row rating session
