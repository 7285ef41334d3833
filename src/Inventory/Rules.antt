-- ===== src/Inventory/Rules.antt =====
-- Which serials a batch may take, and where it moves them: `serial_allowed_for_batch`,
-- `transaction_type_for_batch`, and the status table inside `apply_batch_statuses`.
pub mod Lifecycle
use setuora_lite.Base.{
  Text, Bool, true, false, ◌&&◌, ◌||◌, not, Option, none, some, List, [], ◌∷◌, one_of, text_eq,
  if◌then◌else◌,
}
use setuora_lite.Model.{SerialStatus, BatchType, TransactionType, ScanStatus, Serial}
use setuora_lite.Inventory.Errors.{InventoryError, Result, ok, err}

abbrev pub takes_unassigned : BatchType → Bool
takes_unassigned BatchType.purchase = true
takes_unassigned BatchType.receive = true
takes_unassigned BatchType.qr_assignment = true
takes_unassigned _ = false

abbrev pub is_generated : SerialStatus → Bool
is_generated SerialStatus.generated = true
is_generated _ = false

abbrev pub is_retired : SerialStatus → Bool
is_retired SerialStatus.replaced = true
is_retired SerialStatus.invalid = true
is_retired _ = false

-- The last ladder of `serial_allowed_for_batch`, by batch type.
abbrev pub allowed_from : BatchType → SerialStatus → Result (Unit {0})
allowed_from BatchType.purchase SerialStatus.in_stock = err InventoryError.already_in_stock
allowed_from BatchType.purchase SerialStatus.generated = ok tt
allowed_from BatchType.purchase SerialStatus.purchase_return = ok tt
allowed_from BatchType.purchase status = err (InventoryError.cannot_purchase_from status)
allowed_from BatchType.receive SerialStatus.in_stock = err InventoryError.already_in_stock
allowed_from BatchType.receive SerialStatus.generated = ok tt
allowed_from BatchType.receive SerialStatus.purchase_return = ok tt
allowed_from BatchType.receive status = err (InventoryError.cannot_purchase_from status)
allowed_from BatchType.sale SerialStatus.in_stock = ok tt
allowed_from BatchType.sale SerialStatus.returned = ok tt
allowed_from BatchType.sale _ = err InventoryError.not_for_sale
allowed_from BatchType.audit _ = ok tt
allowed_from BatchType.sales_return SerialStatus.sold = ok tt
allowed_from BatchType.sales_return _ = err InventoryError.not_sold
allowed_from BatchType.purchase_return SerialStatus.in_stock = ok tt
allowed_from BatchType.purchase_return SerialStatus.returned = ok tt
allowed_from BatchType.purchase_return _ = err InventoryError.not_for_purchase_return
allowed_from BatchType.issue SerialStatus.in_stock = ok tt
allowed_from BatchType.issue _ = err InventoryError.not_for_issue
allowed_from BatchType.qr_assignment SerialStatus.generated = ok tt
allowed_from BatchType.qr_assignment _ = err InventoryError.already_assigned

unfoldable pub serial_allowed_for_batch : Serial → BatchType → Result (Unit {0})
serial_allowed_for_batch serial batch_type =
    if not serial.active || is_retired serial.status
    then err InventoryError.inactive
    else if is_generated serial.status && not (takes_unassigned batch_type)
    then err InventoryError.unassigned
    else allowed_from batch_type serial.status

unfoldable pub transaction_type_for_batch : BatchType → TransactionType
transaction_type_for_batch BatchType.purchase = TransactionType.purchase
transaction_type_for_batch BatchType.receive = TransactionType.purchase
transaction_type_for_batch BatchType.sale = TransactionType.sale
transaction_type_for_batch BatchType.sales_return = TransactionType.sales_return
transaction_type_for_batch BatchType.purchase_return = TransactionType.purchase_return
transaction_type_for_batch BatchType.issue = TransactionType.issue
transaction_type_for_batch BatchType.audit = TransactionType.audit
transaction_type_for_batch BatchType.qr_assignment = TransactionType.qr_assignment

-- The codes DAMAGED and EXPIRED.
abbrev pub damage_codes : List Text
damage_codes =
    (68 ∷ 65 ∷ 77 ∷ 65 ∷ 71 ∷ 69 ∷ 68 ∷ []) ∷ (69 ∷ 88 ∷ 80 ∷ 73 ∷ 82 ∷ 69 ∷ 68 ∷ []) ∷ []

unfoldable pub is_damage : Option Text → Bool
is_damage none = false
is_damage (some code) = one_of code damage_codes

-- The pair (target_status, scan_status) that the loop body chooses.
unfoldable pub batch_targets : BatchType → Bool → SerialStatus → SerialStatus × ScanStatus
batch_targets BatchType.purchase damaged previous =
    (SerialStatus.in_stock, ScanStatus.status_of SerialStatus.purchased)
batch_targets BatchType.receive damaged previous =
    (SerialStatus.in_stock, ScanStatus.status_of SerialStatus.purchased)
batch_targets BatchType.sale damaged previous =
    (SerialStatus.sold, ScanStatus.status_of SerialStatus.sold)
batch_targets BatchType.sales_return damaged previous =
    if damaged
    then (SerialStatus.damaged, ScanStatus.status_of SerialStatus.damaged)
    else (SerialStatus.in_stock, ScanStatus.status_of SerialStatus.returned)
batch_targets BatchType.purchase_return damaged previous =
    (SerialStatus.purchase_return, ScanStatus.status_of SerialStatus.purchase_return)
batch_targets BatchType.issue damaged previous =
    (SerialStatus.issued, ScanStatus.status_of SerialStatus.issued)
batch_targets BatchType.audit damaged previous =
    (previous, ScanStatus.status_of SerialStatus.audited)
batch_targets BatchType.qr_assignment damaged previous = (previous, ScanStatus.submitted)
