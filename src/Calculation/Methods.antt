-- ===== src/Calculation/Methods.antt =====
-- What the payment method changes in a calculation (`incursCardFee`, `quoteForMethod`).
use multi_brand_invoicing.Prelude.{Bool-cases, arith, false, inl, inr, ok, true, ◌≡◌}
use multi_brand_invoicing.Prelude.Int.{pos}
use multi_brand_invoicing.Calculation.{
  CalculationInput, CalculationResult, PaymentMethod, card_fee, incurs_card_fee, quote_for_method,
}
use multi_brand_invoicing.Calculation.Figures.{
  IsShare, apply_basis_points-IsShare, calculate-HasSteps,
}

-- Two quotes that agree on everything above the card fee.
pub record AgreesBeforeFee (r s : CalculationResult) : Type 0 where
  pub lines : r.lines ≡ s.lines
  pub subtotal : r.subtotal_minor ≡ s.subtotal_minor
  pub base : r.taxable_base_minor ≡ s.taxable_base_minor
  pub tax : r.tax_minor ≡ s.tax_minor
  pub pre_fee : r.pre_fee_total_minor ≡ s.pre_fee_total_minor
  pub settled : r.settled_minor ≡ s.settled_minor

-- Quotes of one invoice for two payment methods have the same lines, subtotal, tax, total before the
-- fee and settled amount, whatever the methods.
pub quote_for_method-AgreesBeforeFee :
    (input : CalculationInput) (m n : PaymentMethod) (r s : CalculationResult)
    → quote_for_method input m ≡ ok r
    → quote_for_method input n ≡ ok s
    → AgreesBeforeFee r s
unfolding quote_for_method
quote_for_method-AgreesBeforeFee input m n r s h k =
    let a = calculate-HasSteps (record input { payment_method = m }) r h in
    let b = calculate-HasSteps (record input { payment_method = n }) s k in
    let lines : r.lines ≡ s.lines = cc (a.lines, b.lines) in
    let subtotal : r.subtotal_minor ≡ s.subtotal_minor = cc (lines, a.subtotal, b.subtotal) in
    let base : r.taxable_base_minor ≡ s.taxable_base_minor = cc (lines, a.base, b.base) in
    let rate : r.tax_rate_bp_applied ≡ s.tax_rate_bp_applied = cc (a.tax_rate, b.tax_rate) in
    let tax : r.tax_minor ≡ s.tax_minor = cc (base, rate, a.tax, b.tax) in
    record {
      lines = lines;
      subtotal = subtotal;
      base = base;
      tax = tax;
      pre_fee = cc (subtotal, tax, a.pre_fee, b.pre_fee);
      settled = cc (a.settled, b.settled);
    }

-- The fee of a quote, with a fee and without.
pub data FeeOf (m : PaymentMethod) (r : CalculationResult) : Type 0 where
  no_fee : incurs_card_fee m ≡ false → r.card_fee_minor ≡ pos 0 → FeeOf m r
  with_fee :
      incurs_card_fee m ≡ true
      → IsShare r.pre_fee_total_minor r.card_fee_rate_bp_applied r.card_fee_minor
      → FeeOf m r

card_fee-FeeOf :
    (m : PaymentMethod) (r : CalculationResult)
    → card_fee m r.pre_fee_total_minor r.card_fee_rate_bp_applied ≡ ok r.card_fee_minor
    → FeeOf m r
unfolding card_fee
card_fee-FeeOf m r h = elim (Bool-cases (incurs_card_fee m)) [
  | inl fee ↦ with_fee fee (apply_basis_points-IsShare _ _ _ (rw fee at h))
  | inr none_due ↦ no_fee none_due (ground arith)
]

-- In a quote that returns, a method that is neither card nor wallet adds nothing to the total after
-- tax, card and wallet add the card fee rate of that total rounded once, and the quote says which.
pub quote_for_method-FeeOf :
    (input : CalculationInput) (m : PaymentMethod) (r : CalculationResult)
    → quote_for_method input m ≡ ok r
    → FeeOf m r × (r.card_fee_applied ≡ incurs_card_fee m)
unfolding quote_for_method
quote_for_method-FeeOf input m r h =
    let a = calculate-HasSteps (record input { payment_method = m }) r h in
    (card_fee-FeeOf m r a.fee, a.applied)
