-- ===== src/Inventory/Rules/Lifecycle.antt =====
-- The life of a serial: the guard of `serial_allowed_for_batch` and the status table together.
use setuora_lite.Base.{Bool, List, true, ◌∷◌, false, [], ◌≡◌, ◌↔◌, one_of, arith, not, ◌&&◌, ◌≢◌}
use setuora_lite.Model.{SerialStatus, status_eq, SerialStatus-discrete}
use setuora_lite.Inventory.Errors.{ok}
use setuora_lite.Inventory.Rules.{serial_allowed_for_batch, BatchType, Serial, batch_targets}

-- The statuses that each type of batch takes a serial from.
unfoldable pub sources : BatchType → List SerialStatus
sources BatchType.purchase = SerialStatus.generated ∷ SerialStatus.purchase_return ∷ []
sources BatchType.receive = SerialStatus.generated ∷ SerialStatus.purchase_return ∷ []
sources BatchType.sale = SerialStatus.in_stock ∷ SerialStatus.returned ∷ []
sources BatchType.audit =
    SerialStatus.purchased ∷ SerialStatus.received ∷ SerialStatus.in_stock ∷ SerialStatus.sold
    ∷ SerialStatus.returned ∷ SerialStatus.purchase_return ∷ SerialStatus.issued
    ∷ SerialStatus.audited ∷ SerialStatus.damaged ∷ SerialStatus.missing ∷ SerialStatus.in_transit
    ∷ []
sources BatchType.purchase_return = SerialStatus.in_stock ∷ SerialStatus.returned ∷ []
sources BatchType.sales_return = SerialStatus.sold ∷ []
sources BatchType.issue = SerialStatus.in_stock ∷ []
sources BatchType.qr_assignment = SerialStatus.generated ∷ []

-- A batch takes a serial exactly when the serial is active and its status is a source of the type.
pub serial_allowed-iff-sources :
    (x : Serial) (t : BatchType)
    → (serial_allowed_for_batch x t ≡ ok tt)
      ↔ ((x.active ≡ true) × (one_of x.status (sources t) ≡ true))
unfolding serial_allowed_for_batch sources SerialStatus-discrete
serial_allowed-iff-sources x BatchType.purchase = ground arith
serial_allowed-iff-sources x BatchType.receive = ground arith
serial_allowed-iff-sources x BatchType.sale = ground arith
serial_allowed-iff-sources x BatchType.audit = ground arith
serial_allowed-iff-sources x BatchType.purchase_return = ground arith
serial_allowed-iff-sources x BatchType.sales_return = ground arith
serial_allowed-iff-sources x BatchType.issue = ground arith
serial_allowed-iff-sources x BatchType.qr_assignment = ground arith

-- A unit on the shelf of this franchise.
abbrev pub is_stock : SerialStatus → Bool
is_stock SerialStatus.in_stock = true
is_stock SerialStatus.returned = true
is_stock _ = false

abbrev pub leaves_stock : BatchType → Bool
leaves_stock BatchType.sale = true
leaves_stock BatchType.purchase_return = true
leaves_stock BatchType.issue = true
leaves_stock _ = false

abbrev pub enters_stock : BatchType → Bool → Bool
enters_stock BatchType.purchase damaged = true
enters_stock BatchType.receive damaged = true
enters_stock BatchType.sales_return damaged = not damaged
enters_stock _ damaged = false

-- A serial that a batch takes leaves the stock exactly in a sale, a purchase return or an issue,
-- and enters it exactly in a purchase, a receipt or the return of an undamaged unit.
pub stock_flow :
    (x : Serial) (t : BatchType) (damaged : Bool)
    → serial_allowed_for_batch x t ≡ ok tt
    → ((is_stock x.status && not (is_stock (batch_targets t damaged x.status).0)) ≡ leaves_stock t)
      × ((not (is_stock x.status) && is_stock (batch_targets t damaged x.status).0)
          ≡ enters_stock t damaged)
unfolding serial_allowed_for_batch batch_targets
stock_flow x BatchType.purchase damaged h = ground arith
stock_flow x BatchType.receive damaged h = ground arith
stock_flow x BatchType.sale damaged h = ground arith
stock_flow x BatchType.audit damaged h = ground arith
stock_flow x BatchType.purchase_return damaged h = ground arith
stock_flow x BatchType.sales_return damaged h = ground arith
stock_flow x BatchType.issue damaged h = ground arith
stock_flow x BatchType.qr_assignment damaged h = ground arith

-- The types whose submission changes the status of a serial.
abbrev pub moves_status : BatchType → Bool
moves_status BatchType.audit = false
moves_status BatchType.qr_assignment = false
moves_status _ = true

-- What a batch has moved, a second batch of the same type does not take.
pub no_second_move :
    (x : Serial) (t : BatchType) (damaged : Bool)
    → moves_status t ≡ true
    → serial_allowed_for_batch x t ≡ ok tt
    → serial_allowed_for_batch (record x { status = (batch_targets t damaged x.status).0 }) t
      ≢ ok tt
unfolding serial_allowed_for_batch batch_targets
no_second_move x BatchType.purchase damaged m h = ground arith
no_second_move x BatchType.receive damaged m h = ground arith
no_second_move x BatchType.sale damaged m h = ground arith
no_second_move x BatchType.audit damaged m h = ground arith
no_second_move x BatchType.purchase_return damaged m h = ground arith
no_second_move x BatchType.sales_return damaged m h = ground arith
no_second_move x BatchType.issue damaged m h = ground arith
no_second_move x BatchType.qr_assignment damaged m h = ground arith
