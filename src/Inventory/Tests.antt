-- ===== src/Inventory/Tests.antt =====
-- A sale of two units, and the theorems of the inventory services at it.
use setuora_lite.Inventory.Rules.Lifecycle.{
  is_stock, sources, no_second_move, serial_allowed-iff-sources, stock_flow,
}
use setuora_lite.Inventory.Submit.Effects.{apply-effect, apply_failure}
use setuora_lite.Inventory.Submit.Progress.{apply_succeeds, trail_entry, apply-trail}
use setuora_lite.Inventory.Shelf.{validate_shelf_verification_complete}
use setuora_lite.Inventory.Rules.{serial_allowed_for_batch, batch_targets, is_damage}
use mathlib.Core.Option
use setuora_lite.Base.{
  ℕ, refl, [], ◌∷◌, some, ◌≡◌, All, codes, none, ◌⊎◌, ◌++◌, true, ◌+◌, false, map, ◌↔◌, ◌&&◌,
  one_of, not, ◌≢◌, length,
}
use setuora_lite.Int.{pos}
use setuora_lite.Model.{
  Serial, status_eq, User, Product, SerialStatus, BatchItem, Batch, Db, Session, BatchStatus,
  BatchType, WarehouseLevel, SerialStatus-discrete,
}
use setuora_lite.Inventory.Loaded.{LoadedItem, Loaded}
use setuora_lite.Inventory.Errors.{ok, err, InventoryError}
use setuora_lite.Inventory.Submit.{
  submit_items, apply_batch_statuses, validate_batch, submit_item, fill_rates,
}
use setuora_lite.Inventory.Submit.Claims.{IsFresh, serial_row, retarget}

abbrev clerk : User
clerk = record { id = 1; username = codes "clerk" }

abbrev rice : Product
rice = record {
  id = 1;
  product_code = codes "RICE";
  product_name = codes "Rice";
  hsn = codes "1006";
  unit = codes "Pcs";
  tally_stock_item_name = codes "Rice";
  gst_rate = pos 5_000_000;
  default_rate = pos 40_000_000;
  sales_discount_rate = pos 0;
  shelf_verification_interval = 2;
  active = true;
}

abbrev unit_of : ℕ → SerialStatus → Serial
unit_of k status = record {
  id = k;
  serial_number = codes "R-" ++ (48 + k) ∷ [];
  product_id = 1;
  status = status;
  active = true;
  created_at = 0;
  replaced_by_id = none;
  product_batch_number = none;
  mfg_date = none;
  expiry_date = none;
  warehouse = none;
  warehouse_level = WarehouseLevel.company_warehouse;
  location_id = none;
}

abbrev item_of : ℕ → ℕ → BatchItem
item_of k serial_id = record {
  id = k;
  batch_id = 5;
  serial_id = serial_id;
  quantity = 1;
  rate = none;
  sales_discount_rate = none;
  fefo_picked = false;
  shelf_location_id = none;
  shelf_verified_by_id = none;
  shelf_verified_at = none;
}

abbrev sale_row : Batch
sale_row = record {
  id = 5;
  batch_number = codes "SAL-1";
  batch_type = BatchType.sale;
  status = BatchStatus.draft;
  gst_treatment = none;
  gst_cgst_rate = none;
  gst_sgst_rate = none;
  gst_igst_rate = none;
  reason_code = none;
  tally_reference = none;
  audit_assignment_id = none;
  submitted_at = none;
  synced_at = none;
}

abbrev tables : Db
tables = record {
  serials =
      unit_of 1 SerialStatus.in_stock
      ∷ unit_of 2 SerialStatus.returned
      ∷ unit_of 3 SerialStatus.sold
      ∷ [];
  batches = sale_row ∷ [];
  items = item_of 1 1 ∷ item_of 2 2 ∷ [];
  scan_logs = [];
  transactions = [];
}

abbrev session : Session
session = record { db = tables; committed = tables }

abbrev sale : Loaded
sale = record {
  batch = sale_row;
  items =
      (record { item = item_of 1 1; serial = unit_of 1 SerialStatus.in_stock; product = rice })
      ∷ (record { item = item_of 2 2; serial = unit_of 2 SerialStatus.returned; product = rice })
      ∷ [];
}

-- The batch that the submission of the sale returns.
abbrev sold_item : ℕ → LoadedItem
sold_item k = record {
  item = record (item_of k k) { rate = some (pos 40_000_000); sales_discount_rate = some (pos 0) };
  serial = unit_of k SerialStatus.sold;
  product = rice;
}

abbrev sold : Loaded
sold = record {
  batch = record sale_row { status = BatchStatus.submitted; submitted_at = some 9 };
  items = sold_item 1 ∷ sold_item 2 ∷ [];
}

sale_returns : (apply_batch_statuses clerk 9 sale session).0 ≡ ok sold
unfolding apply_batch_statuses validate_batch validate_shelf_verification_complete submit_items
    submit_item fill_rates batch_targets serial_allowed_for_batch is_damage SerialStatus-discrete
sale_returns = refl

-- The second unit was sold elsewhere since the sale was loaded.
abbrev raced : Session
raced = record {
  db = record tables {
    serials =
        unit_of 1 SerialStatus.in_stock
        ∷ unit_of 2 SerialStatus.sold
        ∷ unit_of 3 SerialStatus.sold
        ∷ [];
  };
  committed = tables;
}

race_is_refused :
    (apply_batch_statuses clerk 9 sale raced).0 ≡ err InventoryError.no_longer_available
unfolding apply_batch_statuses validate_batch validate_shelf_verification_complete submit_items
    submit_item batch_targets serial_allowed_for_batch is_damage SerialStatus-discrete
race_is_refused = refl

apply_failure_example :
    let s' = (apply_batch_statuses clerk 9 sale raced).1 in
    ((validate_batch sale ≡ err InventoryError.no_longer_available) × (s' ≡ raced))
    ⊎ ((validate_batch sale ≡ ok tt)
        × (InventoryError.no_longer_available ≡ InventoryError.no_longer_available)
        × (s'.db ≡ tables)
        × (s'.committed ≡ tables))
apply_failure_example =
    apply_failure clerk 9 sale raced InventoryError.no_longer_available race_is_refused

sale-IsFresh : All (λ (x : LoadedItem). IsFresh tables.serials x.serial) sale.items
sale-IsFresh = (
  record {
    current = unit_of 1 SerialStatus.in_stock;
    found = refl;
    same_status = refl;
    still_active = refl;
  },
  (
    record {
      current = unit_of 2 SerialStatus.returned;
      found = refl;
      same_status = refl;
      still_active = refl;
    },
    tt,
  ),
)

sale_is_valid : validate_batch sale ≡ ok tt
unfolding validate_batch validate_shelf_verification_complete serial_allowed_for_batch
sale_is_valid = refl

apply_succeeds_example : (b' : Loaded) × ((apply_batch_statuses clerk 9 sale session).0 ≡ ok b')
apply_succeeds_example =
    apply_succeeds clerk 9 sale session refl (refl, (refl, (refl, tt))) (refl, (refl, tt))
      sale_is_valid sale-IsFresh

apply-effect_example :
    let s' = (apply_batch_statuses clerk 9 sale session).1 in
    All (λ (x : LoadedItem). IsFresh tables.serials x.serial) sale.items
    × ((k : ℕ)
        → serial_row k s'.db.serials
          ≡ Option.map (retarget sale_row sale.items) (serial_row k tables.serials))
    × (sold.batch.status ≡ BatchStatus.submitted)
    × (s'.committed ≡ tables)
apply-effect_example =
    apply-effect clerk 9 sale sold session refl (refl, (refl, (refl, tt))) (refl, (refl, tt))
      sale_returns

apply-trail_example :
    let s' = (apply_batch_statuses clerk 9 sale session).1 in
    (s'.db.transactions ≡ [] ++ map (trail_entry sale_row clerk) sale.items)
    × (length s'.db.scan_logs ≡ 0 + 2)
apply-trail_example = apply-trail clerk 9 sale sold session sale_returns

serial_allowed-iff-sources_example :
    (serial_allowed_for_batch (unit_of 1 SerialStatus.in_stock) BatchType.issue ≡ ok tt)
    ↔ ((true ≡ true) × (one_of SerialStatus.in_stock (sources BatchType.issue) ≡ true))
serial_allowed-iff-sources_example =
    serial_allowed-iff-sources (unit_of 1 SerialStatus.in_stock) BatchType.issue

stock_flow_example :
    ((true && not (is_stock (batch_targets BatchType.sale false SerialStatus.in_stock).0)) ≡ true)
    × ((false && is_stock (batch_targets BatchType.sale false SerialStatus.in_stock).0) ≡ false)
unfolding serial_allowed_for_batch
stock_flow_example = stock_flow (unit_of 1 SerialStatus.in_stock) BatchType.sale false refl

no_second_move_example :
    serial_allowed_for_batch
      (record (unit_of 1 SerialStatus.in_stock) {
        status = (batch_targets BatchType.sale false SerialStatus.in_stock).0;
      })
      BatchType.sale
    ≢ ok tt
unfolding serial_allowed_for_batch
no_second_move_example =
    no_second_move (unit_of 1 SerialStatus.in_stock) BatchType.sale false refl refl
