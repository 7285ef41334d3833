-- ===== src/Inventory/Fefo.antt =====
-- First expiry, first out (app/services/expiry.py): which unit of a product a batch takes next.
pub mod Order
pub mod Blocks
pub mod Turn
use setuora_lite.Base.{
  ℕ, [], ◌∷◌, List, none, some, true, false, Bool, Option, nat_eq, if◌then◌else◌, ltb, ◌==◌,
  is_some, ◌&&◌, not, leb, row, find, one_of, take, ◌||◌, select,
}
use setuora_lite.Model.{Serial, SerialStatus, BatchType, Batch, BatchItem, Db, status_eq, is_draft}
use setuora_lite.Inventory.Errors.{ok, err}

-- `STOCK_STATUSES`
abbrev pub stock_statuses : List SerialStatus
stock_statuses = SerialStatus.in_stock ∷ SerialStatus.returned ∷ []

-- `FEFO_BATCH_TYPES`
unfoldable pub is_fefo_type : BatchType → Bool
is_fefo_type BatchType.sale = true
is_fefo_type BatchType.issue = true
is_fefo_type BatchType.purchase_return = true
is_fefo_type _ = false

unfoldable pub fefo_available_statuses : BatchType → List SerialStatus
fefo_available_statuses BatchType.issue = SerialStatus.in_stock ∷ []
fefo_available_statuses BatchType.sale = stock_statuses
fefo_available_statuses BatchType.purchase_return = stock_statuses
fefo_available_statuses _ = []

-- `(expiry is None, expiry)` of the first lies before that of the second.
unfoldable pub expires_before : Option ℕ → Option ℕ → Bool
expires_before none b = false
expires_before (some a) none = true
expires_before (some a) (some b) = ltb a b

-- `ORDER BY expiry_date IS NULL, expiry_date, created_at, id`
unfoldable pub comes_first : Serial → Serial → Bool
unfolding expires_before
comes_first a b =
    if expires_before a.expiry_date b.expiry_date
    then true
    else if expires_before b.expiry_date a.expiry_date
    then false
    else if ltb a.created_at b.created_at
    then true
    else if ltb b.created_at a.created_at
    then false
    else leb a.id b.id

unfoldable pub insert_serial : Serial → List Serial → List Serial
insert_serial x [] = x ∷ []
insert_serial x (y ∷ ys) =
    let rest = insert_serial x ys in if comes_first x y then x ∷ y ∷ ys else y ∷ rest

unfoldable pub order_by_expiry : List Serial → List Serial
order_by_expiry [] = []
order_by_expiry (x ∷ xs) = insert_serial x (order_by_expiry xs)

-- The serial stands in a batch that is a draft: the subquery of `fefo_candidate_serials`.
unfoldable pub is_draft_item : Db → ℕ → BatchItem → Bool
is_draft_item db serial_id item =
    item.serial_id == serial_id && (elim (row (λ (b : Batch). b.id) item.batch_id db.batches) [
      | none ↦ false
      | some b ↦ is_draft b.status
    ])

unfoldable pub is_in_draft : Db → ℕ → Bool
is_in_draft db serial_id = is_some (find (is_draft_item db serial_id) db.items)

unfoldable pub is_candidate : Db → ℕ → List SerialStatus → Serial → Bool
is_candidate db product_id statuses serial =
    serial.active
    && (serial.product_id == product_id
        && (one_of serial.status statuses && not (is_in_draft db serial.id)))

-- `statuses or STOCK_STATUSES`
unfoldable pub statuses_or_stock : List SerialStatus → List SerialStatus
statuses_or_stock [] = stock_statuses
statuses_or_stock (s ∷ statuses) = s ∷ statuses

unfoldable pub fefo_candidate_serials : Db → ℕ → ℕ → List SerialStatus → List Serial
fefo_candidate_serials db product_id quantity statuses =
    if ltb quantity 1
    then []
    else take quantity (
        order_by_expiry
          (select (is_candidate db product_id (statuses_or_stock statuses)) db.serials))

-- `validate_fefo_scan`: the serial that has to go first, if there is one.
unfoldable pub validate_fefo_scan : Db → Batch → Serial → Option Serial
validate_fefo_scan db batch serial =
    let statuses = fefo_available_statuses batch.batch_type in
    if not (is_fefo_type batch.batch_type) || not (one_of serial.status statuses)
    then none
    else elim (fefo_candidate_serials db serial.product_id 1 statuses) [
      | [] ↦ none
      | earliest ∷ _ ↦
          if earliest.id == serial.id
          then none
          else if expires_before earliest.expiry_date serial.expiry_date
          then some earliest
          else none
    ]
