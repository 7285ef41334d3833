-- ===== src/Inventory/Submit.antt =====
-- `apply_batch_statuses` of app/services/inventory.py: the status changes of a submitted batch.
pub mod Claims
pub mod Effects
pub mod Progress
use mathlib.Core.Option
use setuora_lite.Base.{
  ℕ, nat_eq, Bool, ◌==◌, List, ◌&&◌, count_where, if◌then◌else◌, some, update_where, Option, ◌∷◌,
  or_else, ◌++◌, [], ◌||◌, none, length, not, Text, is_empty, strip_upper,
}
use setuora_lite.Model.{
  Serial, status_eq, User, SerialStatus, BatchType, Batch, TransactionType, BatchItem, Session,
  InventoryTransaction, Db, is_audit, ScanLog, ScanAction, rollback, BatchStatus,
}
use setuora_lite.Inventory.Loaded.{LoadedItem, Loaded, save_item, save_batch}
use setuora_lite.Inventory.Rules.{
  serial_allowed_for_batch, batch_targets, transaction_type_for_batch, is_damage,
}
use setuora_lite.Inventory.Errors.{Result, ok, ◌>>◌, err, raise_if, InventoryError}
use setuora_lite.Inventory.Shelf.{validate_shelf_verification_complete}

-- `reason_code.strip().upper() if reason_code else None`
unfoldable pub logged_reason : Option Text → Option Text
logged_reason none = none
logged_reason (some reason) = if is_empty reason then none else some (strip_upper reason)

-- The row that `log_inventory_transaction` adds, for a serial of a batch.
unfoldable pub log_inventory_transaction :
    User → TransactionType → Serial → Batch → SerialStatus → SerialStatus → InventoryTransaction
unfolding logged_reason
log_inventory_transaction user kind serial batch status_from status_to = record {
  transaction_type = kind;
  serial_id = some serial.id;
  product_id = some serial.product_id;
  batch_id = some batch.id;
  user_id = user.id;
  serial_number = some serial.serial_number;
  status_from = some status_from;
  status_to = some status_to;
  reason_code = logged_reason batch.reason_code;
  tally_reference = batch.tally_reference;
  reference_number = some batch.batch_number;
}

-- `UPDATE serials SET status = target WHERE id = … AND status = previous AND active`: the row
-- count and the table.
abbrev pub claims : Serial → Serial → Bool
claims loaded r = r.id == loaded.id && (r.status == loaded.status && r.active)

unfoldable pub claim : Serial → SerialStatus → List Serial → ℕ × List Serial
claim loaded target rows = (
  count_where (claims loaded) rows,
  update_where (claims loaded) (λ r. record r { status = target }) rows,
)

-- The valuation that the item keeps: the product's rates can change later.
unfoldable pub fill_rates : BatchType → LoadedItem → BatchItem
fill_rates batch_type x = record x.item {
  rate =
      if is_audit batch_type
      then x.item.rate
      else some (or_else x.item.rate x.product.default_rate);
  sales_discount_rate = some (or_else x.item.sales_discount_rate x.product.sales_discount_rate);
}

-- The loop body on one item. The item's rates and the claim are written before the row count is
-- looked at, and the items before this one have their claims, logs and trail: if the serial's row is
-- not as it was loaded, `db.rollback()` takes all of them back.
unfoldable pub submit_item : Batch → User → LoadedItem → Session → Result LoadedItem × Session
unfolding claim
submit_item batch user x s =
    let (target, scan_status) =
      batch_targets batch.batch_type (is_damage batch.reason_code) x.serial.status in
    let (claimed, rows) = claim x.serial target s.db.serials in
    let audit = is_audit batch.batch_type in
    let item = fill_rates batch.batch_type x in
    let x' : LoadedItem = record {
      item = item;
      serial = if audit then x.serial else record x.serial { status = target };
      product = x.product;
    } in
    let log : ScanLog = record {
      serial_id = some x.serial.id;
      serial_number_raw = x.serial.serial_number;
      user_id = user.id;
      action = ScanAction.of_batch batch.batch_type;
      batch_id = some batch.id;
      status = scan_status;
    } in
    let claimed_db : Db = record (save_item item s.db) {
      serials = if audit then s.db.serials else rows;
    } in
    let logged_db : Db = record claimed_db {
      scan_logs = s.db.scan_logs ++ log ∷ [];
      transactions =
          s.db.transactions
          ++ log_inventory_transaction user (transaction_type_for_batch batch.batch_type) x.serial
              batch x.serial.status target
            ∷ [];
    } in
    if audit || claimed == 1
    then (ok x', record s { db = logged_db })
    else (err InventoryError.no_longer_available, rollback (record s { db = claimed_db }))

unfoldable pub submit_items :
    Batch → User → List LoadedItem → Session → Result (List LoadedItem) × Session
submit_items batch user [] s = (ok [], s)
submit_items batch user (x ∷ xs) s =
    let (first, s1) = submit_item batch user x s in
    elim first [
      | err e ↦ (err e, s1)
      | ok x' ↦
          let (others, s2) = submit_items batch user xs s1 in
          elim others [ err e ↦ (err e, s2) | ok xs' ↦ (ok (x' ∷ xs'), s2) ]
    ]

-- `for item in batch.items: serial_allowed_for_batch(item.serial, batch_type)`
unfoldable pub all_allowed : BatchType → List LoadedItem → Result (Unit {0})
all_allowed batch_type [] = ok tt
all_allowed batch_type (x ∷ xs) = do
  serial_allowed_for_batch x.serial batch_type
  all_allowed batch_type xs

unfoldable pub validate_batch : Loaded → Result (Unit {0})
unfolding all_allowed
validate_batch b = do
  raise_if (length b.items == 0) InventoryError.empty_batch
  raise_if (not (validate_shelf_verification_complete b)) InventoryError.shelf_incomplete
  all_allowed b.batch.batch_type b.items

-- The caller commits. A check that fails leaves the session as it was: it has written nothing.
unfoldable pub apply_batch_statuses : User → ℕ → Loaded → Session → Result Loaded × Session
apply_batch_statuses user now b s = elim (validate_batch b) [
  | err e ↦ (err e, s)
  | ok _ ↦
      let (submitted, s') = submit_items b.batch user b.items s in
      elim submitted [
        | err e ↦ (err e, s')
        | ok items ↦
            let batch : Batch = record b.batch {
              status = BatchStatus.submitted;
              submitted_at = some now;
            } in
            (
              ok (record { batch = batch; items = items }),
              record s' { db = save_batch batch s'.db },
            )
      ]
]
