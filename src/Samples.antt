-- ===== src/Samples.antt =====
-- Rows that the tests of several modules share: a clerk, a product, units, items and batches.
use setuora_lite.Base.{ℕ, [], ◌∷◌, codes, none, true, ◌++◌, false, ◌+◌, Option, List}
use setuora_lite.Int.{pos}
use setuora_lite.Model.{
  Serial, User, Product, SerialStatus, BatchItem, Batch, Db, Session, BatchStatus, BatchType,
  WarehouseLevel,
}

abbrev pub clerk : User
clerk = record { id = 1; username = codes "clerk" }

abbrev pub rice : Product
rice = record {
  id = 1;
  product_code = codes "RICE";
  product_name = codes "Rice";
  hsn = codes "1006";
  unit = codes "Pcs";
  tally_stock_item_name = codes "Rice";
  gst_rate = pos 5_000_000;
  default_rate = pos 40_000_000;
  sales_discount_rate = pos 0;
  shelf_verification_interval = 2;
  active = true;
}

abbrev pub unit_of : ℕ → SerialStatus → Serial
unit_of k status = record {
  id = k;
  serial_number = codes "R-" ++ (48 + k) ∷ [];
  product_id = 1;
  status = status;
  active = true;
  created_at = 0;
  replaced_by_id = none;
  product_batch_number = none;
  mfg_date = none;
  expiry_date = none;
  warehouse = none;
  warehouse_level = WarehouseLevel.company_warehouse;
  location_id = none;
}

abbrev pub item_of : ℕ → ℕ → BatchItem
item_of k serial_id = record {
  id = k;
  batch_id = 5;
  serial_id = serial_id;
  quantity = 1;
  rate = none;
  sales_discount_rate = none;
  fefo_picked = false;
  shelf_location_id = none;
  shelf_verified_by_id = none;
  shelf_verified_at = none;
}

abbrev pub batch_of : ℕ → BatchType → BatchStatus → Batch
batch_of k batch_type status = record {
  id = k;
  batch_number = codes "B-" ++ (48 + k) ∷ [];
  batch_type = batch_type;
  status = status;
  gst_treatment = none;
  gst_cgst_rate = none;
  gst_sgst_rate = none;
  gst_igst_rate = none;
  reason_code = none;
  tally_reference = none;
  audit_assignment_id = none;
  submitted_at = none;
  synced_at = none;
}

-- A unit of the stock that expires on a day.
abbrev pub expiring : ℕ → Option ℕ → Serial
expiring k day = record (unit_of k SerialStatus.in_stock) { expiry_date = day }

abbrev pub shop_of : List Serial → List BatchItem → Session
shop_of serials items =
    let db : Db = record {
      serials = serials;
      batches = batch_of 5 BatchType.sale BatchStatus.draft ∷ [];
      items = items;
      scan_logs = [];
      transactions = [];
    } in
    record { db = db; committed = db }
