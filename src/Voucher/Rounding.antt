-- ===== src/Voucher/Rounding.antt =====
-- The rounding, and a price beside its taxable value and tax.
use setuora_lite.Voucher.{half_up, percent_of, sale_taxable_value, interstate_tax, intrastate_tax}
use native.Mathlib.Nat.{mod-lt}
use native.Mathlib.Omega.{div_any}
use setuora_lite.Base.{
  nat_eq, text_eq, ℕ, ◌<◌, ◌*◌, ◌≤◌, ◌+◌, arith, ◌≡◌, Bool-cases, leb, inl, inr,
}

-- The rounded quotient is at most half a unit away.
pub half_up_lem :
    (n d : ℕ) → 0 < d → (2 * (half_up n d * d) ≤ 2 * n + d) × (2 * n < 2 * (half_up n d * d) + d)
unfolding half_up
half_up_lem n d h =
    omega (arith, div_any (2 * n + d) (2 * d), mod-lt (2 * n + d) {m = 2 * d} (omega arith))

pub percent_of_lem :
    (amount rate : ℕ)
    → (20_000 * percent_of amount rate ≤ 2 * (amount * rate) + 10_000)
      × (2 * (amount * rate) < 20_000 * percent_of amount rate + 10_000)
unfolding percent_of half_up
percent_of_lem amount rate = omega arith

pub sale_taxable_value_lem :
    (total gst : ℕ)
    → let t = sale_taxable_value total gst in
      (20_000 * t + 2 * (t * gst) ≤ 20_000 * total + 10_000 + gst)
      × (20_000 * total ≤ 20_000 * t + 2 * (t * gst) + 10_000 + gst)
unfolding sale_taxable_value
sale_taxable_value_lem total gst =
    let near = half_up_lem (total * 10_000) (10_000 + gst) (omega arith) in
    elim (Bool-cases (leb gst 0)) [
      | inl untaxed ↦ let none_due : gst ≡ 0 = ground arith in rw (untaxed, none_due) (omega arith)
      | inr taxed ↦ rw taxed (omega (arith, near))
    ]

-- With IGST of at most 100 percent, the taxable value of a price and its tax give back the price, to
-- a paisa.
pub interstate_tax_total :
    (total gst : ℕ)
    → gst ≤ 10_000
    → let t = sale_taxable_value total gst in
      let tax = interstate_tax gst t in
      (total ≤ tax.taxable_value + tax.igst_amount + 1)
      × (tax.taxable_value + tax.igst_amount ≤ total + 1)
unfolding interstate_tax
interstate_tax_total total gst h =
    let t = sale_taxable_value total gst in
    omega (arith, sale_taxable_value_lem total gst, percent_of_lem t gst)

-- With a GST rate of at most 100 percent that is an even number of hundredths, the taxable value of a
-- price and its two half taxes give back the price, to two paise.
pub intrastate_tax_total :
    (total half : ℕ)
    → 2 * half ≤ 10_000
    → let t = sale_taxable_value total (2 * half) in
      let tax = intrastate_tax (2 * half) t in
      (total ≤ tax.taxable_value + tax.half_amount + tax.half_amount + 2)
      × (tax.taxable_value + tax.half_amount + tax.half_amount ≤ total + 2)
unfolding intrastate_tax
intrastate_tax_total total half h =
    let t = sale_taxable_value total (2 * half) in
    let same : half_up (2 * half) 2 ≡ half = unfold half_up in omega arith in
    rw same (omega (arith, sale_taxable_value_lem total (2 * half), percent_of_lem t half))
