-- ===== src/Model/Rows.antt =====
-- The rows of the tables that the services read and write. Dates and times are numbers (days,
-- seconds), ids are numbers, and prices and rates are numbers of millionths of their unit.
use setuora_lite.Base.{ℕ, Bool, Option, List, Text}
use setuora_lite.Int.{ℤ}
use setuora_lite.Model.Enums.{
  SerialStatus, BatchType, BatchStatus, TransactionType, WarehouseLevel, GstTreatment,
}

pub record User : Type 0 where
  pub id : ℕ
  pub username : Text

-- The columns that locate a shelf.
pub record StorageLocation : Type 0 where
  pub id : ℕ
  pub code : Text
  pub warehouse : Option Text
  pub warehouse_level : WarehouseLevel

pub record Product : Type 0 where
  pub id : ℕ
  pub product_code : Text
  pub product_name : Text
  pub hsn : Text
  pub unit : Text
  pub tally_stock_item_name : Text
  pub gst_rate : ℤ
  pub default_rate : ℤ
  pub sales_discount_rate : ℤ
  pub shelf_verification_interval : ℕ
  pub active : Bool

pub record Serial : Type 0 where
  pub id : ℕ
  pub serial_number : Text
  pub product_id : ℕ
  pub status : SerialStatus
  pub active : Bool
  pub created_at : ℕ
  pub replaced_by_id : Option ℕ
  pub product_batch_number : Option Text
  pub mfg_date : Option ℕ
  pub expiry_date : Option ℕ
  pub warehouse : Option Text
  pub warehouse_level : WarehouseLevel
  pub location_id : Option ℕ

pub record Batch : Type 0 where
  pub id : ℕ
  pub batch_number : Text
  pub batch_type : BatchType
  pub status : BatchStatus
  pub gst_treatment : Option GstTreatment
  pub gst_cgst_rate : Option ℤ
  pub gst_sgst_rate : Option ℤ
  pub gst_igst_rate : Option ℤ
  pub reason_code : Option Text
  pub tally_reference : Option Text
  pub audit_assignment_id : Option ℕ
  pub submitted_at : Option ℕ
  pub synced_at : Option ℕ

pub record BatchItem : Type 0 where
  pub id : ℕ
  pub batch_id : ℕ
  pub serial_id : ℕ
  pub quantity : ℕ
  pub rate : Option ℤ
  pub sales_discount_rate : Option ℤ
  pub fefo_picked : Bool
  pub shelf_location_id : Option ℕ
  pub shelf_verified_by_id : Option ℕ
  pub shelf_verified_at : Option ℕ

-- The values of `ScanLog.status` that the services write.
pub data ScanStatus : Type 0 where
  scanned rejected submitted verified mismatch fefo_picked pending_shelf shelf_verified : ScanStatus
  status_of : SerialStatus → ScanStatus

-- `ScanLog.action`: a batch type, or the name of another action.
pub data ScanAction : Type 0 where
  of_batch : BatchType → ScanAction
  shelf_verify sale_return sale_return_shelf qr_replacement : ScanAction

pub record ScanLog : Type 0 where
  pub serial_id : Option ℕ
  pub serial_number_raw : Text
  pub user_id : ℕ
  pub action : ScanAction
  pub batch_id : Option ℕ
  pub status : ScanStatus

pub record InventoryTransaction : Type 0 where
  pub transaction_type : TransactionType
  pub serial_id : Option ℕ
  pub product_id : Option ℕ
  pub batch_id : Option ℕ
  pub user_id : ℕ
  pub serial_number : Option Text
  pub status_from : Option SerialStatus
  pub status_to : Option SerialStatus
  pub reason_code : Option Text
  pub tally_reference : Option Text
  pub reference_number : Option Text

-- The tables of the inventory services.
pub record Db : Type 0 where
  pub serials : List Serial
  pub batches : List Batch
  pub items : List BatchItem
  pub scan_logs : List ScanLog
  pub transactions : List InventoryTransaction

-- A session: the tables as its transaction sees them, and as they were last committed.
pub record Session : Type 0 where
  pub db : Db
  pub committed : Db

abbrev pub commit : Session → Session
commit s = record s { committed = s.db }

abbrev pub rollback : Session → Session
rollback s = record s { db = s.committed }
