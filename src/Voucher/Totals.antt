-- ===== src/Voucher/Totals.antt =====
-- The totals of a voucher and its rounding off.
use setuora_lite.Voucher.{
  voucher_line, calculate_voucher_summary, Group, SoldItem, total_of, VoucherLine,
  group_batch_items,
}
use setuora_lite.Base.{[], ◌∷◌, nat_eq, text_eq, ℕ, List, map, ◌+◌, ◌≡◌, arith, ◌%◌, ◌≤◌, ◌<◌, sym}
use setuora_lite.Int.{pos_part, sub_ℕ, neg_part}
use setuora_lite.Model.{Batch}
use setuora_lite.Voucher.Rounding.{half_up_lem}

lines_agree :
    (batch : Batch) (groups : List Group)
    → let lines = map (voucher_line batch) groups in
      (total_of (λ (l : VoucherLine). l.cgst_amount) lines
        ≡ total_of (λ (l : VoucherLine). l.sgst_amount) lines)
      × (total_of (λ (l : VoucherLine). l.line_total) lines
          ≡ total_of (λ (l : VoucherLine). l.taxable_value) lines
            + (total_of (λ (l : VoucherLine). l.cgst_amount) lines
                + total_of (λ (l : VoucherLine). l.sgst_amount) lines
                + total_of (λ (l : VoucherLine). l.igst_amount) lines))
unfolding voucher_line
lines_agree batch [] = omega arith
lines_agree batch (g ∷ groups) = omega (arith, lines_agree batch groups)

sub_ℕ_parts : (a b : ℕ) → pos_part (sub_ℕ a b) + b ≡ a + neg_part (sub_ℕ a b)
sub_ℕ_parts a b = ground arith

-- CGST and SGST agree; the total before rounding off is the sum of the lines; the final value is
-- whole rupees, the nearest, and round_off is what it adds.
pub calculate_voucher_summary_lem :
    (batch : Batch) (items : List SoldItem)
    → let s = calculate_voucher_summary batch items in
      (s.cgst_amount ≡ s.sgst_amount)
      × (s.rounded_total_before_round_off ≡ total_of (λ (l : VoucherLine). l.line_total) s.lines)
      × (s.final_value % 100 ≡ 0)
      × (s.final_value ≤ s.rounded_total_before_round_off + 50)
      × (s.rounded_total_before_round_off < s.final_value + 50)
      × (pos_part s.round_off + s.rounded_total_before_round_off
          ≡ s.final_value + neg_part s.round_off)
unfolding calculate_voucher_summary
calculate_voucher_summary_lem batch items =
    let s = calculate_voucher_summary batch items in
    let (halves, totals) = lines_agree batch (group_batch_items items) in
    let near = half_up_lem s.rounded_total_before_round_off 100 (omega arith) in
    (
      halves,
      sym totals,
      omega arith,
      omega (arith, near),
      omega (arith, near),
      sub_ℕ_parts s.final_value s.rounded_total_before_round_off,
    )
