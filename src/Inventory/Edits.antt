-- ===== src/Inventory/Edits.antt =====
-- Edits of a draft batch (app/services/inventory.py): an item is removed, or a rate is set on an item
-- or on all items of a product. Each call that returns commits.
pub mod Effects
mod Tests
use setuora_lite.Base.{
  ℕ, [], ◌∷◌, List, nat_eq, none, some, true, false, Bool, Option, ◌==◌, row, if◌then◌else◌, ◌&&◌,
  not, select, update_where, count_where,
}
use setuora_lite.Int.{ℤ, pos, negsuc}
use setuora_lite.Model.{Batch, BatchItem, Serial, Session, Db, is_draft, commit}
use setuora_lite.Inventory.Errors.{ok, err, Result, InventoryError}

abbrev pub is_negative : ℤ → Bool
is_negative (pos n) = false
is_negative (negsuc n) = true

abbrev pub with_items : List BatchItem → Session → Session
with_items items s = commit (record s { db = record s.db { items = items } })

-- `db.get(BatchItem, item_id)`, of this batch
unfoldable pub item_of_batch : ℕ → Batch → Db → Option BatchItem
item_of_batch item_id batch db = elim (row (λ (i : BatchItem). i.id) item_id db.items) [
  | none ↦ none
  | some item ↦ if item.batch_id == batch.id then some item else none
]

unfoldable pub remove_batch_item : Batch → ℕ → Session → Result (Unit {0}) × Session
unfolding item_of_batch
remove_batch_item batch item_id s =
    if not (is_draft batch.status)
    then (err InventoryError.not_editable, s)
    else elim (item_of_batch item_id batch s.db) [
      | none ↦ (err InventoryError.scan_not_found, s)
      | some item ↦ (ok tt, with_items (select (λ i. not (i.id == item_id)) s.db.items) s)
    ]

unfoldable pub update_batch_item_rate : Batch → ℕ → ℤ → Session → Result (Unit {0}) × Session
unfolding item_of_batch
update_batch_item_rate batch item_id rate s =
    if not (is_draft batch.status)
    then (err InventoryError.not_editable, s)
    else if is_negative rate
    then (err InventoryError.negative_rate, s)
    else elim (item_of_batch item_id batch s.db) [
      | none ↦ (err InventoryError.scan_not_found, s)
      | some item ↦ (
        ok tt,
        with_items
            (update_where (λ i. i.id == item_id) (λ i. record i { rate = some rate }) s.db.items) s,
      )
    ]

-- `item.serial.product_id == product_id`, for an item of the batch
unfoldable pub is_of_product : Batch → ℕ → Db → BatchItem → Bool
is_of_product batch product_id db item =
    item.batch_id == batch.id && (elim (row (λ (r : Serial). r.id) item.serial_id db.serials) [
      | none ↦ false
      | some serial ↦ serial.product_id == product_id
    ])

unfoldable pub update_product_rate_in_batch : Batch → ℕ → ℤ → Session → Result (Unit {0}) × Session
unfolding is_of_product
update_product_rate_in_batch batch product_id rate s =
    if not (is_draft batch.status)
    then (err InventoryError.not_editable, s)
    else if is_negative rate
    then (err InventoryError.negative_rate, s)
    else if count_where (is_of_product batch product_id s.db) s.db.items == 0
    then (err InventoryError.product_not_in_batch, s)
    else (
      ok tt,
      with_items
          (update_where (is_of_product batch product_id s.db) (λ i. record i { rate = some rate })
            s.db.items)
          s,
    )

-- The three calls as one.
pub data Edit : Type 0 where
  removes : ℕ → Edit
  rates_item rates_product : ℕ → ℤ → Edit

abbrev pub edit : Batch → Edit → Session → Result (Unit {0}) × Session
edit batch (Edit.removes item_id) = remove_batch_item batch item_id
edit batch (Edit.rates_item item_id rate) = update_batch_item_rate batch item_id rate
edit batch (Edit.rates_product product_id rate) = update_product_rate_in_batch batch product_id rate
