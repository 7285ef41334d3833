-- ===== src/Inventory/Edits/Effects.antt =====
-- An edit stays within its batch, and a submitted batch is not edited.
use mathlib.Core.Option.{Option}
use setuora_lite.Base.{
  ℕ, [], ◌∷◌, List, nat_eq, some, true, false, Bool, refl, arith, inl, inr, row-update_where, ◌≢◌,
  row, ◌≡◌, select, Option-cases, not, ◌==◌, Bool-cases, ◌⊎◌, ◌∙◌, update_where, row_key,
  count_where,
}
use setuora_lite.Model.{Batch, BatchItem, Session, Db, is_draft}
use setuora_lite.Inventory.Errors.{ok, err}
use setuora_lite.Inventory.Edits.{
  edit, Edit, remove_batch_item, update_batch_item_rate, update_product_rate_in_batch,
  item_of_batch, is_of_product, Result, InventoryError, ℤ, is_negative, with_items,
}

abbrev pub item_at : ℕ → Session → Option BatchItem
item_at k s = row (λ (i : BatchItem). i.id) k s.db.items

row_other :
    (j k : ℕ) (items : List BatchItem)
    → k ≢ j
    → row (λ (i : BatchItem). i.id) k (select (λ i. not (i.id == j)) items)
      ≡ row (λ (i : BatchItem). i.id) k items
row_other j k [] other = refl
row_other j k (i ∷ items) other = elim (Bool-cases (i.id == j)) [
  | inl y ↦ ground (arith, row_other j k items other, other)
  | inr n ↦ ground (arith, row_other j k items other)
]

found_in_batch :
    (item_id : ℕ) (batch : Batch) (s : Session) {item : BatchItem}
    → item_of_batch item_id batch s.db ≡ some item
    → (item_at item_id s ≡ some item) × (item.batch_id ≡ batch.id)
unfolding item_of_batch
found_in_batch item_id batch s h = elim (Option-cases (item_at item_id s)) [
  | inl absent ↦ absurd (ground arith)
  | inr (i, e) ↦ ground arith
]

-- The rows of other batches.
abbrev KeepsOthers : Batch → Session → List BatchItem → Type 0
KeepsOthers batch s items =
    (k : ℕ) (i : BatchItem)
    → item_at k s ≡ some i
    → i.batch_id ≢ batch.id
    → row (λ (i : BatchItem). i.id) k items ≡ some i

-- How an edit ends: with an error and nothing done, or with new items of a draft.
abbrev Ends : Batch → Session → Result (Unit {0}) × Session → Type 0
Ends batch s result =
    ((y : InventoryError) × (result ≡ (err y, s)))
    ⊎ ((items : List BatchItem) × (result ≡ (ok tt, with_items items s))
        × (is_draft batch.status ≡ true)
        × KeepsOthers batch s items)

other_row :
    (item_id : ℕ) (batch : Batch) (s : Session) (item : BatchItem)
    → item_of_batch item_id batch s.db ≡ some item
    → (k : ℕ) (i : BatchItem) → item_at k s ≡ some i
    → i.batch_id ≢ batch.id
    → k ≢ item_id
other_row item_id batch s item h k i e other same =
    let (found, own) = found_in_batch item_id batch s {item = item} h in
    let e' = rw same at e in other (ground (arith, e', found, own))

removes-Ends : (batch : Batch) (j : ℕ) (s : Session) → Ends batch s (remove_batch_item batch j s)
unfolding remove_batch_item
removes-Ends batch j s = elim (Bool-cases (is_draft batch.status)) [
  | inr closed ↦ inl (InventoryError.not_editable, rw closed refl)
  | inl draft ↦ elim (Option-cases (item_of_batch j batch s.db)) [
    | inl absent ↦ inl (InventoryError.scan_not_found, rw (draft, absent) refl)
    | inr (item, e) ↦ inr (
      select (λ i. not (i.id == j)) s.db.items,
      rw (draft, e) refl,
      draft,
      λ k i found other.
          row_other j k s.db.items (other_row j batch s item e k i found other) ∙ found,
    )
  ]
]

kept_by_update :
    (p : BatchItem → Bool) (rate : ℤ) (batch : Batch) (s : Session)
    → ((k : ℕ) (i : BatchItem) → item_at k s ≡ some i → i.batch_id ≢ batch.id → p i ≡ false)
    → KeepsOthers batch s (update_where p (λ i. record i { rate = some rate }) s.db.items)
kept_by_update p rate batch s miss k i e other =
    let moved =
      row-update_where (λ (i : BatchItem). i.id) p (λ i. record i { rate = some rate }) (λ i. refl)
        k s.db.items in
    rw (moved, e, miss k i e other) refl

rates_item-Ends :
    (batch : Batch) (j : ℕ) (rate : ℤ) (s : Session)
    → Ends batch s (update_batch_item_rate batch j rate s)
unfolding update_batch_item_rate
rates_item-Ends batch j rate s = elim (Bool-cases (is_draft batch.status)) [
  | inr closed ↦ inl (InventoryError.not_editable, rw closed refl)
  | inl draft ↦ elim (Bool-cases (is_negative rate)) [
    | inl negative ↦ inl (InventoryError.negative_rate, rw (draft, negative) refl)
    | inr fine ↦ elim (Option-cases (item_of_batch j batch s.db)) [
      | inl absent ↦ inl (InventoryError.scan_not_found, rw (draft, fine, absent) refl)
      | inr (item, e) ↦ inr (
        update_where (λ i. i.id == j) (λ i. record i { rate = some rate }) s.db.items,
        rw (draft, fine, e) refl,
        draft,
        kept_by_update (λ i. i.id == j) rate batch s
            (λ k i found other.
              let key = row_key (λ (i : BatchItem). i.id) k s.db.items found in
              let apart = other_row j batch s item e k i found other in ground (arith, key, apart)),
      )
    ]
  ]
]

other_batch :
    (batch : Batch) (p : ℕ) (db : Db) (i : BatchItem)
    → i.batch_id ≢ batch.id
    → is_of_product batch p db i ≡ false
unfolding is_of_product
other_batch batch p db i other = elim (Bool-cases (i.batch_id == batch.id)) [
  | inl y ↦ absurd (ground (arith, other))
  | inr n ↦ rw n refl
]

rates_product-Ends :
    (batch : Batch) (p : ℕ) (rate : ℤ) (s : Session)
    → Ends batch s (update_product_rate_in_batch batch p rate s)
unfolding update_product_rate_in_batch
rates_product-Ends batch p rate s = elim (Bool-cases (is_draft batch.status)) [
  | inr closed ↦ inl (InventoryError.not_editable, rw closed refl)
  | inl draft ↦ elim (Bool-cases (is_negative rate)) [
    | inl negative ↦ inl (InventoryError.negative_rate, rw (draft, negative) refl)
    | inr fine ↦ elim (Bool-cases (count_where (is_of_product batch p s.db) s.db.items == 0)) [
      | inl absent ↦ inl (InventoryError.product_not_in_batch, rw (draft, fine, absent) refl)
      | inr some_item ↦ inr (
        update_where (is_of_product batch p s.db) (λ i. record i { rate = some rate }) s.db.items,
        rw (draft, fine, some_item) refl,
        draft,
        kept_by_update (is_of_product batch p s.db) rate batch s
            (λ k i found other. other_batch batch p s.db i other),
      )
    ]
  ]
]

edit-Ends : (batch : Batch) (e : Edit) (s : Session) → Ends batch s (edit batch e s)
edit-Ends batch (Edit.removes j) s = removes-Ends batch j s
edit-Ends batch (Edit.rates_item j rate) s = rates_item-Ends batch j rate s
edit-Ends batch (Edit.rates_product p rate) s = rates_product-Ends batch p rate s

-- What an edit leaves alone: the items of other batches, the other tables, and all of a batch that is
-- not a draft.
pub edit-within_batch :
    (batch : Batch) (e : Edit) (s : Session)
    → let s' = (edit batch e s).1 in
      ((k : ℕ) (i : BatchItem)
        → item_at k s ≡ some i
        → i.batch_id ≢ batch.id
        → item_at k s' ≡ some i)
      × (s'.db.serials ≡ s.db.serials)
      × (s'.db.transactions ≡ s.db.transactions)
      × (is_draft batch.status ≡ false → s' ≡ s)
      × ((edit batch e s).0 ≡ ok tt → s'.committed ≡ s'.db)
edit-within_batch batch e s = elim (edit-Ends batch e s) [
  | inl (y, failed) ↦
      rw failed
        (λ k i found other. found, refl, refl, λ closed. refl, λ done. absurd (ground arith))
  | inr (items, done, draft, keeps) ↦ rw done (
    λ k i found other. keeps k i found other,
    refl,
    refl,
    λ closed. absurd (ground arith),
    λ done. refl,
  )
]
