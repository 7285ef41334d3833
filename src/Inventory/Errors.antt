-- ===== src/Inventory/Errors.antt =====
-- The outcomes of the inventory services: a value, or the message of an `InventoryError`.
use setuora_lite.Base.{◌≡◌, ◌⊎◌, inl, inr, refl, Bool, if◌then◌else◌}
use setuora_lite.Model.{SerialStatus}

pub data InventoryError : Type 0 where
  inactive unassigned already_in_stock not_for_sale not_sold not_for_purchase_return :
      InventoryError
  not_for_issue already_assigned already_submitted not_found fefo_required : InventoryError
  already_scanned in_another_batch empty_batch shelf_incomplete no_longer_available : InventoryError
  not_editable scan_not_found negative_rate product_not_in_batch another_auditor : InventoryError
  not_started ended wrong_product quantity_too_small quantity_too_large : InventoryError
  only_in_sale shelf_scan_first not_in_this_sale no_pending_return sale_return_incomplete :
      InventoryError
  not_replaceable fefo_unavailable fefo_short lite_only_synced wrong_namespace : InventoryError
  replacement_exists allocation_failed empty_prefix long_prefix unconfigured_code long_code :
      InventoryError
  cannot_purchase_from : SerialStatus → InventoryError

-- A service call without effects: its value, or the error that it raises.
pub data Result {ℓ} (T : Type ℓ) : Type ℓ where
  err : InventoryError → Result T
  ok : T → Result T

infixl 5 ◌>>=◌
abbrev pub ◌>>=◌ {ℓ κ} : {T : Type ℓ} {U : Type κ} → Result T → (T → Result U) → Result U
call >>= next = elim call [ err e ↦ err e | ok value ↦ next value ]

-- `if test: raise InventoryError(message)`
abbrev pub raise_if : Bool → InventoryError → Result (Unit {0})
raise_if test message = if test then err message else ok tt

-- A check that stands before the rest of a function.
infixl 5 ◌>>◌
abbrev pub ◌>>◌ {ℓ} : {U : Type ℓ} → Result (Unit {0}) → Result U → Result U
check >> rest = elim check [ err e ↦ err e | ok _ ↦ rest ]

pub Result-cases {ℓ} :
    {T : Type ℓ} (r : Result T)
    → ((e : InventoryError) × (r ≡ err e)) ⊎ ((value : T) × (r ≡ ok value))
Result-cases (err e) = inl (e, refl)
Result-cases (ok value) = inr (value, refl)
