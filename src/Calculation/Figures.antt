-- ===== src/Calculation/Figures.antt =====
-- The figures of a calculation (calculation.ts): each is what the names in the breakdown say.
use multi_brand_invoicing.Prelude.{List, [], arith, ok, traverse, ℕ, ◌∙◌, ◌∷◌, ◌≡◌}
use multi_brand_invoicing.Prelude.Int.{
  +ℤ_assoc, +ℤ_zero, ltb_ℤ, nat_abs, pos, zero_+ℤ, ℤ, ◌*ℤ◌, ◌+ℤ◌, ◌-ℤ◌,
}
use multi_brand_invoicing.Prelude.Double.{
  IsSafe, int, js_add, js_add_of_IsSafe, js_sub, js_sub_of_IsSafe,
}
use multi_brand_invoicing.Money.{
  apply_basis_points, assert_basis_points, assert_minor, to_safe_number,
}
use multi_brand_invoicing.Money.Round.{IsRounded, divide_round_half_up-IsRounded, with_sign}
use multi_brand_invoicing.Calculation.{
  CalculationInput, CalculationResult, calculate, calculate_line, card_fee, incurs_card_fee,
  line_totals, or_zero, sum, sum_from, taxable,
}

-- What the steps of a successful calculation returned.
pub record HasSteps (input : CalculationInput) (r : CalculationResult) : Type 0 where
  pub tax_rate : assert_basis_points input.tax_rate_bp ≡ ok r.tax_rate_bp_applied
  pub fee_rate : assert_basis_points input.card_fee_rate_bp ≡ ok r.card_fee_rate_bp_applied
  pub settled : assert_minor (or_zero input.settled_minor) ≡ ok r.settled_minor
  pub lines : traverse calculate_line input.lines ≡ ok r.lines
  pub subtotal : sum (line_totals r.lines) ≡ ok r.subtotal_minor
  pub base : sum (line_totals (taxable r.lines)) ≡ ok r.taxable_base_minor
  pub tax :
      apply_basis_points (int r.taxable_base_minor) (int r.tax_rate_bp_applied) ≡ ok r.tax_minor
  pub pre_fee : r.pre_fee_total_minor ≡ js_add r.subtotal_minor r.tax_minor
  pub fee :
      card_fee input.payment_method r.pre_fee_total_minor r.card_fee_rate_bp_applied
      ≡ ok r.card_fee_minor
  pub applied : r.card_fee_applied ≡ incurs_card_fee input.payment_method
  pub total : r.total_minor ≡ js_add r.pre_fee_total_minor r.card_fee_minor
  pub balance : r.balance_minor ≡ js_sub r.total_minor r.settled_minor

pub calculate-HasSteps :
    (input : CalculationInput) (r : CalculationResult) → calculate input ≡ ok r → HasSteps input r
unfolding calculate
calculate-HasSteps input r h = ground arith

-- The exact sum of integers.
abbrev pub total_of : List ℤ → ℤ
total_of [] = pos 0
total_of (v ∷ values) = v +ℤ total_of values

sum_from-eq-total_of :
    (acc : ℤ) (values : List ℤ) (v : ℤ) → sum_from acc values ≡ ok v → v ≡ acc +ℤ total_of values
unfolding sum_from assert_minor
sum_from-eq-total_of acc [] v h = ground (arith, +ℤ_zero acc)
sum_from-eq-total_of acc (x ∷ values) v h =
    ground (arith, sum_from-eq-total_of (acc +ℤ x) values v, +ℤ_assoc acc x (total_of values))

pub sum-eq-total_of :
    (values : List ℤ) (v : ℤ) → sum values ≡ ok v → (v ≡ total_of values) × IsSafe v
unfolding sum
sum-eq-total_of values v h =
    ground (arith, sum_from-eq-total_of (pos 0) values v, zero_+ℤ (total_of values))

-- `v` is `amount` times `rate` basis points, rounded once, away from zero at a half.
abbrev pub IsShare : ℤ → ℤ → ℤ → Type 0
IsShare amount rate v =
    (q : ℕ) × IsRounded (nat_abs (amount *ℤ rate)) 10_000 q
    × (v ≡ with_sign (ltb_ℤ (amount *ℤ rate) (pos 0)) q)

pub apply_basis_points-IsShare :
    (a r v : ℤ) → apply_basis_points (int a) (int r) ≡ ok v → IsShare a r v
unfolding apply_basis_points assert_minor assert_basis_points to_safe_number
apply_basis_points-IsShare a r v h =
    let (q, rounded, e) = divide_round_half_up-IsRounded (a *ℤ r) (pos 10_000) (ground arith) in
    (q, rounded, ground arith)

-- Every figure of a calculation, in terms of the lines and the rates.
pub record IsBreakdown (input : CalculationInput) (r : CalculationResult) : Type 0 where
  pub lines : traverse calculate_line input.lines ≡ ok r.lines
  pub subtotal : r.subtotal_minor ≡ total_of (line_totals r.lines)
  pub base : r.taxable_base_minor ≡ total_of (line_totals (taxable r.lines))
  pub tax : IsShare r.taxable_base_minor r.tax_rate_bp_applied r.tax_minor
  pub pre_fee : r.pre_fee_total_minor ≡ r.subtotal_minor +ℤ r.tax_minor
  pub total : r.total_minor ≡ r.subtotal_minor +ℤ r.tax_minor +ℤ r.card_fee_minor
  pub balance : r.balance_minor ≡ r.total_minor -ℤ r.settled_minor

-- The figures of a calculation that returns: the subtotal is the exact sum of the line totals, the
-- taxable base that of the lines that are not exempt, the tax is the rate of the base rounded once,
-- and the totals and the balance are exact sums, where those sums are safe integers.
pub calculate-IsBreakdown :
    (input : CalculationInput) (r : CalculationResult)
    → calculate input ≡ ok r
    → IsSafe (r.subtotal_minor +ℤ r.tax_minor)
    → IsSafe (r.subtotal_minor +ℤ r.tax_minor +ℤ r.card_fee_minor)
    → IsSafe (r.total_minor -ℤ r.settled_minor)
    → IsBreakdown input r
calculate-IsBreakdown input r h p t b =
    let s = calculate-HasSteps input r h in
    let pre : r.pre_fee_total_minor ≡ r.subtotal_minor +ℤ r.tax_minor =
      s.pre_fee ∙ js_add_of_IsSafe r.subtotal_minor r.tax_minor p in
    record {
      lines = s.lines;
      subtotal = (sum-eq-total_of (line_totals r.lines) r.subtotal_minor s.subtotal).0;
      base = (sum-eq-total_of (line_totals (taxable r.lines)) r.taxable_base_minor s.base).0;
      tax = apply_basis_points-IsShare r.taxable_base_minor r.tax_rate_bp_applied r.tax_minor s.tax;
      pre_fee = pre;
      total =
          rw (s.total, pre) (js_add_of_IsSafe (r.subtotal_minor +ℤ r.tax_minor) r.card_fee_minor t);
      balance = s.balance ∙ js_sub_of_IsSafe r.total_minor r.settled_minor b;
    }
