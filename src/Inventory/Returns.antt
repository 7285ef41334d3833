-- ===== src/Inventory/Returns.antt =====
-- Units taken back out of a draft sale (app/services/sale_returns.py): the unit leaves the sale and
-- waits until the code of a shelf is scanned. Each call commits what it writes.
pub mod Effects
mod Tests
use setuora_lite.Base.{
  ℕ, [], ◌∷◌, List, strip_upper, nat_eq, text_eq, none, some, true, false, Bool, ◌==◌, select,
  Option, ◌++◌, not, Text, update_where, if◌then◌else◌, ◌&&◌, ◌||◌, find, ltb, length, one_of,
}
use setuora_lite.Model.{
  ScanAction, ScanStatus, Batch, is_sale, is_draft, Serial, status_eq, ScanLog, Db, User,
  StorageLocation, BatchItem, Session, commit, SerialStatus,
}
use setuora_lite.Inventory.Errors.{ok, err, Result, raise_if, InventoryError, ◌>>◌}

unfoldable pub is_return_action : ScanAction → Bool
is_return_action ScanAction.sale_return = true
is_return_action _ = false

unfoldable pub is_pending_status : ScanStatus → Bool
is_pending_status ScanStatus.pending_shelf = true
is_pending_status _ = false

-- The query of `pending_sale_return_logs`.
unfoldable pub is_pending_return : ℕ → ScanLog → Bool
is_pending_return batch_id log =
    (elim log.batch_id [ none ↦ false | some k ↦ k == batch_id ])
    && (is_return_action log.action && is_pending_status log.status)

-- The logs stand in the order of their times.
abbrev pub pending_sale_return_logs : ℕ → Db → List ScanLog
pending_sale_return_logs batch_id db = select (is_pending_return batch_id) db.scan_logs

unfoldable pub ensure_draft_sale : Batch → Result (Unit {0})
ensure_draft_sale batch =
    raise_if (not (is_sale batch.batch_type)) InventoryError.only_in_sale
    >> raise_if (not (is_draft batch.status)) InventoryError.already_submitted

unfoldable pub ensure_sale_scan_allowed : Batch → Db → Result (Unit {0})
ensure_sale_scan_allowed batch db =
    raise_if (is_sale batch.batch_type && ltb 0 (length (pending_sale_return_logs batch.id db)))
      InventoryError.shelf_scan_first

unfoldable pub return_log : Batch → User → Option ℕ → Text → ScanStatus → ScanLog
return_log batch user serial_id number status = record {
  serial_id = serial_id;
  serial_number_raw = number;
  user_id = user.id;
  action = ScanAction.sale_return;
  batch_id = some batch.id;
  status = status;
}

abbrev pub add_log : ScanLog → Db → Db
add_log log db = record db { scan_logs = db.scan_logs ++ log ∷ [] }

-- `_record_rejected_sale_return`, and the error that follows it.
unfoldable pub reject_return :
    Batch → User → Option ℕ → Text → InventoryError → Session → Result Serial × Session
reject_return batch user serial_id number e s = (
  err e,
  commit
      (record s { db = add_log (return_log batch user serial_id number ScanStatus.rejected) s.db }),
)

abbrev pub is_void : Serial → Bool
is_void serial =
    not serial.active || one_of serial.status (SerialStatus.invalid ∷ SerialStatus.replaced ∷ [])

unfoldable pub take_back : Batch → User → Serial → BatchItem → Session → Result Serial × Session
take_back batch user serial item s = (
  ok serial,
  commit (record s {
    db =
        add_log
          (return_log batch user (some serial.id) serial.serial_number ScanStatus.pending_shelf)
          (record s.db { items = select (λ i. not (i.id == item.id)) s.db.items });
  }),
)

unfoldable pub return_serial : Batch → User → Text → Session → Result Serial × Session
return_serial batch user number s =
    elim (find (λ (r : Serial). r.serial_number == number) s.db.serials) [
      | none ↦ reject_return batch user none number InventoryError.not_found s
      | some serial ↦
          if is_void serial
          then reject_return batch user (some serial.id) number InventoryError.inactive s
          else elim (find (λ (i : BatchItem). i.batch_id == batch.id && i.serial_id == serial.id)
              s.db.items) [
                | none ↦
                    reject_return batch user (some serial.id) number InventoryError.not_in_this_sale
                      s
                | some item ↦ take_back batch user serial item s
              ]
    ]

unfoldable pub scan_sale_return_product : Batch → User → Text → Session → Result Serial × Session
scan_sale_return_product batch user serial_number s = elim (ensure_draft_sale batch) [
  | err e ↦ (err e, s)
  | ok _ ↦
      if ltb 0 (length (pending_sale_return_logs batch.id s.db))
      then (err InventoryError.shelf_scan_first, s)
      else return_serial batch user (strip_upper serial_number) s
]

-- The shelf of the serial that a log names, in the table.
unfoldable pub put_on_shelf : StorageLocation → ScanLog → List Serial → List Serial
put_on_shelf location log rows = elim log.serial_id [
  | none ↦ rows
  | some k ↦
      update_where (λ r. r.id == k)
        (λ r. record r {
          location_id = some location.id;
          warehouse = location.warehouse;
          warehouse_level = location.warehouse_level;
        })
        rows
]

unfoldable pub put_all_on_shelf : StorageLocation → List ScanLog → List Serial → List Serial
put_all_on_shelf location [] rows = rows
put_all_on_shelf location (log ∷ logs) rows =
    put_all_on_shelf location logs (put_on_shelf location log rows)

-- The units that wait go to the shelf, and the scan of the shelf is logged.
unfoldable pub settle_returns : Batch → StorageLocation → User → List ScanLog → Session → Session
settle_returns batch location user pending s =
    let log : ScanLog = record {
      serial_id = none;
      serial_number_raw = location.code;
      user_id = user.id;
      action = ScanAction.sale_return_shelf;
      batch_id = some batch.id;
      status = ScanStatus.verified;
    } in
    commit (record s {
      db = record s.db {
        serials = put_all_on_shelf location pending s.db.serials;
        scan_logs =
            update_where (is_pending_return batch.id)
              (λ l. record l { status = ScanStatus.shelf_verified }) s.db.scan_logs
            ++ log ∷ [];
      };
    })

unfoldable pub verify_sale_return_on_shelf :
    Batch → StorageLocation → User → Session → Result ℕ × Session
verify_sale_return_on_shelf batch location user s = elim (ensure_draft_sale batch) [
  | err e ↦ (err e, s)
  | ok _ ↦
      let pending = pending_sale_return_logs batch.id s.db in
      if length pending == 0
      then (err InventoryError.no_pending_return, s)
      else (ok (length pending), settle_returns batch location user pending s)
]

unfoldable pub validate_sale_returns_complete : Batch → Db → Result (Unit {0})
validate_sale_returns_complete batch db =
    if not (is_sale batch.batch_type)
    then ok tt
    else raise_if (ltb 0 (length (pending_sale_return_logs batch.id db)))
        InventoryError.sale_return_incomplete
