-- ===== src/Voucher/Tests.antt =====
-- A voucher of two units of rice at 40 rupees with 5 percent GST, and the theorems at concrete inputs.
use setuora_lite.Voucher.Totals.{calculate_voucher_summary_lem}
use setuora_lite.Voucher.Rounding.{interstate_tax_total, intrastate_tax_total}
use setuora_lite.Voucher.Groups.{group_value, item_value, AreDistinct, group_batch_items_lem}
use setuora_lite.Samples.{batch_of, item_of, unit_of, rice}
use setuora_lite.Voucher.{
  calculate_voucher_summary, group_batch_items, interstate_tax, intrastate_tax, SoldItem, total_of,
  sale_taxable_value, VoucherLine, Group,
}
use setuora_lite.Model.{Batch, BatchType, BatchStatus, SerialStatus}
use setuora_lite.Base.{[], ◌∷◌, nat_eq, text_eq, ℕ, ◌≡◌, refl, ◌≤◌, ◌%◌, ◌+◌, ◌<◌, arith}
use setuora_lite.Int.{pos, pos_part, neg_part}

abbrev sold : ℕ → SoldItem
sold k = record { item = item_of k k; serial = unit_of k SerialStatus.in_stock; product = rice }

abbrev sale : Batch
sale = batch_of 5 BatchType.sale BatchStatus.draft

-- 80.00 in all: 76.19 before tax, 1.90 for each half, 79.99 together, rounded off to 80.00.
summary_runs :
    let s = calculate_voucher_summary sale (sold 1 ∷ sold 2 ∷ []) in
    (s.taxable_value ≡ 7619)
    × (s.cgst_amount ≡ 190)
    × (s.rounded_total_before_round_off ≡ 7999)
    × (s.round_off ≡ pos 1)
    × (s.final_value ≡ 8000)
unfolding calculate_voucher_summary group_batch_items
summary_runs = (refl, refl, refl, refl, refl)

calculate_voucher_summary_lem_example :
    let s = calculate_voucher_summary sale (sold 1 ∷ sold 2 ∷ []) in
    (s.cgst_amount ≡ s.sgst_amount)
    × (s.rounded_total_before_round_off ≡ total_of (λ (l : VoucherLine). l.line_total) s.lines)
    × (s.final_value % 100 ≡ 0)
    × (s.final_value ≤ s.rounded_total_before_round_off + 50)
    × (s.rounded_total_before_round_off < s.final_value + 50)
    × (pos_part s.round_off + s.rounded_total_before_round_off
        ≡ s.final_value + neg_part s.round_off)
calculate_voucher_summary_lem_example = calculate_voucher_summary_lem sale (sold 1 ∷ sold 2 ∷ [])

group_batch_items_lem_example :
    let items = sold 1 ∷ sold 2 ∷ [] in
    let groups = group_batch_items items in
    (total_of (λ (g : Group). g.quantity) groups
      ≡ total_of (λ (s : SoldItem). s.item.quantity) items)
    × (total_of group_value groups ≡ total_of item_value items)
    × AreDistinct groups
group_batch_items_lem_example = group_batch_items_lem (sold 1 ∷ sold 2 ∷ [])

interstate_tax_total_example :
    let tax = interstate_tax 1800 (sale_taxable_value 8000 1800) in
    (8000 ≤ tax.taxable_value + tax.igst_amount + 1)
    × (tax.taxable_value + tax.igst_amount ≤ 8000 + 1)
interstate_tax_total_example = interstate_tax_total 8000 1800 (omega arith)

intrastate_tax_total_example :
    let tax = intrastate_tax 500 (sale_taxable_value 8000 500) in
    (8000 ≤ tax.taxable_value + tax.half_amount + tax.half_amount + 2)
    × (tax.taxable_value + tax.half_amount + tax.half_amount ≤ 8000 + 2)
intrastate_tax_total_example = intrastate_tax_total 8000 250 (omega arith)
