-- ===== src/Voucher/Groups.antt =====
-- The quantities, the values and the keys of the groups (`group_batch_items`).
use setuora_lite.Voucher.{
  Group, SoldItem, is_group_of, group_item, group_items, add_to_group, total_of, money, new_group,
  rate_of, group_batch_items,
}
use setuora_lite.Base.{
  [], ◌∷◌, nat_eq, text_eq, List, ℕ, ◌≡◌, All, true, ◌+◌, ◌*◌, arith, Bool-cases, inl, inr, false,
}

-- The value of a group, and what an item adds to it, at the rounded rate.
abbrev pub group_value : Group → ℕ
group_value g = money g.rate * g.quantity

abbrev pub item_value : SoldItem → ℕ
item_value s = money (rate_of s) * s.item.quantity

group_rate : (s : SoldItem) (g : Group) → is_group_of s g ≡ true → g.rate ≡ rate_of s
unfolding is_group_of
group_rate s g h = ground arith

group_item_lem :
    (groups : List Group) (s : SoldItem)
    → (total_of (λ (g : Group). g.quantity) (group_item groups s)
        ≡ total_of (λ (g : Group). g.quantity) groups + s.item.quantity)
      × (total_of group_value (group_item groups s) ≡ total_of group_value groups + item_value s)
unfolding group_item add_to_group new_group
group_item_lem [] s = omega arith
group_item_lem (g ∷ groups) s = elim (Bool-cases (is_group_of s g)) [
  | inl same ↦ let rate = group_rate s g same in rw (same, rate) (omega arith)
  | inr other ↦ rw other (omega (arith, group_item_lem groups s))
]

group_items_lem :
    (groups : List Group) (items : List SoldItem)
    → (total_of (λ (g : Group). g.quantity) (group_items groups items)
        ≡ total_of (λ (g : Group). g.quantity) groups
          + total_of (λ (s : SoldItem). s.item.quantity) items)
      × (total_of group_value (group_items groups items)
          ≡ total_of group_value groups + total_of item_value items)
unfolding group_items
group_items_lem groups [] = omega arith
group_items_lem groups (s ∷ items) =
    omega (arith, group_item_lem groups s, group_items_lem (group_item groups s) items)

-- Two groups with the same product, rate and discount.
abbrev pub SameKey : Group → Group → Type 0
SameKey g g' =
    (g.product.id ≡ g'.product.id)
    × (g.rate ≡ g'.rate)
    × (g.sales_discount_rate ≡ g'.sales_discount_rate)

abbrev pub AreDistinct : List Group → Type 0
AreDistinct [] = Unit
AreDistinct (g ∷ groups) = All (λ g'. ¬ SameKey g g') groups × AreDistinct groups

differs_from_new : (g : Group) (s : SoldItem) → is_group_of s g ≡ false → ¬ SameKey g (new_group s)
unfolding is_group_of new_group
differs_from_new g s h same = absurd (ground arith)

apart_from_grouped :
    (g : Group) (groups : List Group) (s : SoldItem)
    → is_group_of s g ≡ false
    → All (λ g'. ¬ SameKey g g') groups
    → All (λ g'. ¬ SameKey g g') (group_item groups s)
unfolding group_item add_to_group
apart_from_grouped g [] s h apart = (differs_from_new g s h, tt)
apart_from_grouped g (x ∷ groups) s h apart = elim (Bool-cases (is_group_of s x)) [
  | inl same ↦ rw same apart
  | inr other ↦ rw other (apart.0, apart_from_grouped g groups s h apart.1)
]

group_item-AreDistinct :
    (groups : List Group) (s : SoldItem) → AreDistinct groups → AreDistinct (group_item groups s)
unfolding group_item add_to_group
group_item-AreDistinct [] s h = (tt, tt)
group_item-AreDistinct (g ∷ groups) s h = elim (Bool-cases (is_group_of s g)) [
  | inl same ↦ rw same h
  | inr other ↦
      rw other (apart_from_grouped g groups s other h.0, group_item-AreDistinct groups s h.1)
]

group_items-AreDistinct :
    (groups : List Group) (items : List SoldItem)
    → AreDistinct groups
    → AreDistinct (group_items groups items)
unfolding group_items
group_items-AreDistinct groups [] h = h
group_items-AreDistinct groups (s ∷ items) h =
    group_items-AreDistinct (group_item groups s) items (group_item-AreDistinct groups s h)

-- The groups have the quantity of the items and their value at the rounded rates, and no two groups
-- share product, rate and discount.
pub group_batch_items_lem :
    (items : List SoldItem)
    → let groups = group_batch_items items in
      (total_of (λ (g : Group). g.quantity) groups
        ≡ total_of (λ (s : SoldItem). s.item.quantity) items)
      × (total_of group_value groups ≡ total_of item_value items)
      × AreDistinct groups
unfolding group_batch_items
group_batch_items_lem items =
    let (quantity, value) = group_items_lem [] items in
    (omega (arith, quantity), omega (arith, value), group_items-AreDistinct [] items tt)
