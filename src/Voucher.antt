-- ===== src/Voucher.antt =====
-- The money of a batch (app/services/voucher.py), from its items grouped by product and price
-- (app/services/inventory.py, `group_batch_items`).
--
-- Prices and rates are millionths of a rupee and of a percent, as in the tables; the forms refuse
-- negative ones, and discounts above 100 percent. `money` takes them to hundredths, in which the
-- code then counts: paise, and hundredths of a percent. A quotient is rounded from its exact value;
-- the code rounds a Decimal of 28 digits.
pub mod Groups
pub mod Rounding
pub mod Totals
mod Tests
use setuora_lite.Model.{BatchItem, Product, Batch, Serial, BatchType, GstTreatment}
use setuora_lite.Base.{
  [], ◌∷◌, zero, suc, nat_eq, text_eq, ℕ, Bool, ◌+◌, List, ◌*◌, if◌then◌else◌, Text, ◌==◌, ◌++◌,
  ◌&&◌, map, Option, ◌/◌, leb, or_else, true, some, ◌-◌, select, false, is_some, none, ◌||◌,
  is_empty,
}
use setuora_lite.Int.{pos, negsuc, pos_part, ℤ, sub_ℕ}
use setuora_lite.Model

-- The quotient rounded to the nearest whole number, a tie upwards (`ROUND_HALF_UP`).
unfoldable pub half_up : ℕ → ℕ → ℕ
half_up n d = (2 * n + d) / (2 * d)

-- `money(value or 0)` of millionths
unfoldable pub money : ℕ → ℕ
unfolding half_up
money value = half_up value 10_000

unfoldable pub sale_taxable_value : ℕ → ℕ → ℕ
unfolding half_up
sale_taxable_value total_including_gst gst_rate =
    if leb gst_rate 0
    then total_including_gst
    else half_up (total_including_gst * 10_000) (10_000 + gst_rate)

-- `amount * rate / 100`, as money
unfoldable pub percent_of : ℕ → ℕ → ℕ
unfolding half_up
percent_of amount rate = half_up (amount * rate) 10_000

-- An item with the serial and the product that it refers to.
pub record SoldItem : Type 0 where
  pub item : BatchItem
  pub serial : Serial
  pub product : Product

pub record Group : Type 0 where
  pub product : Product
  pub quantity : ℕ
  pub serials : List Text
  pub rate : ℕ
  pub sales_discount_rate : ℕ

-- The rate and the discount of an item: its own, or those of its product.
abbrev pub rate_of : SoldItem → ℕ
rate_of s = pos_part (or_else s.item.rate s.product.default_rate)

abbrev pub discount_of : SoldItem → ℕ
discount_of s = pos_part (or_else s.item.sales_discount_rate s.product.sales_discount_rate)

-- The key of the group is that of the item.
unfoldable pub is_group_of : SoldItem → Group → Bool
is_group_of s g =
    g.product.id == s.product.id && g.rate == rate_of s && g.sales_discount_rate == discount_of s

unfoldable pub new_group : SoldItem → Group
new_group s = record {
  product = s.product;
  quantity = 0;
  serials = [];
  rate = rate_of s;
  sales_discount_rate = discount_of s;
}

unfoldable pub add_to_group : SoldItem → Group → Group
add_to_group s g = record g {
  quantity = g.quantity + s.item.quantity;
  serials = g.serials ++ s.serial.serial_number ∷ [];
}

-- `grouped.setdefault(key, …)`, and the item into its group. Groups stay in the order of the dict.
unfoldable pub group_item : List Group → SoldItem → List Group
unfolding is_group_of new_group add_to_group
group_item [] s = add_to_group s (new_group s) ∷ []
group_item (g ∷ groups) s =
    if is_group_of s g then add_to_group s g ∷ groups else g ∷ group_item groups s

unfoldable pub group_items : List Group → List SoldItem → List Group
unfolding group_item
group_items groups [] = groups
group_items groups (s ∷ items) = group_items (group_item groups s) items

unfoldable pub group_batch_items : List SoldItem → List Group
unfolding group_items
group_batch_items items = group_items [] items

pub record VoucherLine : Type 0 where
  pub product : Product
  pub gst_rate : ℕ
  pub quantity : ℕ
  pub rate : ℕ
  pub discount_rate : ℕ
  pub gross_value : ℕ
  pub discount_amount : ℕ
  pub taxable_value : ℕ
  pub cgst_rate : ℕ
  pub sgst_rate : ℕ
  pub igst_rate : ℕ
  pub cgst_amount : ℕ
  pub sgst_amount : ℕ
  pub igst_amount : ℕ
  pub line_total : ℕ

pub record VoucherSummary : Type 0 where
  pub lines : List VoucherLine
  pub taxable_value : ℕ
  pub cgst_amount : ℕ
  pub sgst_amount : ℕ
  pub igst_amount : ℕ
  pub gst_amount : ℕ
  pub rounded_total_before_round_off : ℕ
  pub round_off : ℤ
  pub final_value : ℕ

abbrev pub is_sales_side : Batch → Bool
is_sales_side batch = elim batch.batch_type [
  | BatchType.sale ↦ true
  | BatchType.sales_return ↦ true
  | _ ↦ false
]

abbrev pub is_interstate_sale : Batch → Bool
is_interstate_sale batch =
    is_sales_side batch
    && (elim batch.gst_treatment [ some GstTreatment.inter_state ↦ true | _ ↦ false ])

-- The taxes of a line: the rate, the taxable value, and the rates and amounts of the three taxes.
pub record LineTax : Type 0 where
  pub gst_rate : ℕ
  pub taxable_value : ℕ
  pub half_rate : ℕ
  pub igst_rate : ℕ
  pub half_amount : ℕ
  pub igst_amount : ℕ

-- CGST and SGST take half of the rate each.
unfoldable pub intrastate_tax : ℕ → ℕ → LineTax
unfolding percent_of
intrastate_tax gst_rate taxable_value =
    let half_rate = half_up gst_rate 2 in
    record {
      gst_rate = gst_rate;
      taxable_value = taxable_value;
      half_rate = half_rate;
      igst_rate = 0;
      half_amount = percent_of taxable_value half_rate;
      igst_amount = 0;
    }

unfoldable pub interstate_tax : ℕ → ℕ → LineTax
unfolding percent_of
interstate_tax igst_rate taxable_value = record {
  gst_rate = igst_rate;
  taxable_value = taxable_value;
  half_rate = 0;
  igst_rate = igst_rate;
  half_amount = 0;
  igst_amount = percent_of taxable_value igst_rate;
}

-- The three branches on the taxes.
unfoldable pub line_tax : Batch → ℕ → ℕ → LineTax
unfolding intrastate_tax interstate_tax sale_taxable_value money
line_tax batch product_gst_rate line_amount =
    if is_interstate_sale batch
    then (let igst_rate : ℕ = elim batch.gst_igst_rate [
      | some r ↦ money (pos_part r)
      | none ↦ product_gst_rate
    ] in
        interstate_tax igst_rate (sale_taxable_value line_amount igst_rate))
    else if is_sales_side batch && (is_some batch.gst_cgst_rate || is_some batch.gst_sgst_rate)
    then (let entered_gst_rate = money (
          pos_part (or_else batch.gst_cgst_rate (pos 0))
          + pos_part (or_else batch.gst_sgst_rate (pos 0))) in
        intrastate_tax entered_gst_rate (sale_taxable_value line_amount entered_gst_rate))
    else intrastate_tax product_gst_rate (
        if is_sales_side batch
        then sale_taxable_value line_amount product_gst_rate
        else line_amount)

unfoldable pub voucher_line : Batch → Group → VoucherLine
unfolding line_tax
voucher_line batch group =
    let rate = money group.rate in
    let gross_value = rate * group.quantity in
    let discount_rate = if is_sales_side batch then money group.sales_discount_rate else 0 in
    let discount_amount = percent_of gross_value discount_rate in
    let tax =
      line_tax batch (money (pos_part group.product.gst_rate)) (gross_value - discount_amount) in
    record {
      product = group.product;
      gst_rate = tax.gst_rate;
      quantity = group.quantity;
      rate = rate;
      discount_rate = discount_rate;
      gross_value = gross_value;
      discount_amount = discount_amount;
      taxable_value = tax.taxable_value;
      cgst_rate = tax.half_rate;
      sgst_rate = tax.half_rate;
      igst_rate = tax.igst_rate;
      cgst_amount = tax.half_amount;
      sgst_amount = tax.half_amount;
      igst_amount = tax.igst_amount;
      line_total = tax.taxable_value + tax.half_amount + tax.half_amount + tax.igst_amount;
    }

-- The sum over the lines, in paise.
abbrev pub total_of {ℓ} : {A : Type ℓ} → (A → ℕ) → List A → ℕ
total_of f [] = 0
total_of f (x ∷ xs) = f x + total_of f xs

unfoldable pub calculate_voucher_summary : Batch → List SoldItem → VoucherSummary
unfolding voucher_line
calculate_voucher_summary batch items =
    let lines = map (voucher_line batch) (group_batch_items items) in
    let taxable_total = total_of (λ (l : VoucherLine). l.taxable_value) lines in
    let cgst_total = total_of (λ (l : VoucherLine). l.cgst_amount) lines in
    let sgst_total = total_of (λ (l : VoucherLine). l.sgst_amount) lines in
    let igst_total = total_of (λ (l : VoucherLine). l.igst_amount) lines in
    let gst_total = cgst_total + sgst_total + igst_total in
    let before_round_off = taxable_total + gst_total in
    let final_value = half_up before_round_off 100 * 100 in
    record {
      lines = lines;
      taxable_value = taxable_total;
      cgst_amount = cgst_total;
      sgst_amount = sgst_total;
      igst_amount = igst_total;
      gst_amount = gst_total;
      rounded_total_before_round_off = before_round_off;
      round_off = sub_ℕ final_value before_round_off;
      final_value = final_value;
    }

-- The products whose lines have no price, of which the error names each once; `none` if it passes.
unfoldable pub validate_priced_batch : Batch → List SoldItem → Option (List Text)
validate_priced_batch batch items =
    let summary = calculate_voucher_summary batch items in
    let missing =
      map (λ (l : VoucherLine). l.product.product_name)
        (select (λ (l : VoucherLine). leb l.rate 0) summary.lines) in
    elim batch.batch_type [
      | BatchType.audit ↦ none
      | _ ↦ if is_empty missing then none else some missing
    ]
