-- ===== src/Tests/Billing.antt =====
-- Amounts, invoices' figures and transitions.
use multi_brand_invoicing.Prelude.{
  List, [], arith, false, length, none, ok, refl, some, true, ℕ, ◌*◌, ◌==◌, ◌↔◌, ◌∷◌, ◌≡◌,
}
use multi_brand_invoicing.Prelude.Int.{negsuc, pos, ℤ, ◌*ℤ◌, ◌+ℤ◌, ◌-ℤ◌}
use multi_brand_invoicing.Prelude.Double.{int, js_add, js_sub}
use multi_brand_invoicing.Money.{
  apply_basis_points, assert_basis_points, assert_minor, divide_round_half_up, round_positive,
  to_safe_number,
}
use multi_brand_invoicing.Calculation.{
  CalculationResult, ach, assert_quantity, calculate, calculate_line, calculate_line_total, card,
  card_fee, incurs_card_fee, quote_for_method, sum, sum_from,
}
use multi_brand_invoicing.Calculation.Figures.{IsBreakdown, calculate-IsBreakdown}
use multi_brand_invoicing.Calculation.Methods.{AgreesBeforeFee, quote_for_method-AgreesBeforeFee}
use multi_brand_invoicing.Calculation.Bounds.{IsModest, IsOrdered, calculate_total, modest}
use multi_brand_invoicing.Allocation.{Weights, allocate, js_sum_from}
use multi_brand_invoicing.Allocation.Parts.{total}
use multi_brand_invoicing.Allocation.Exact.{allocate-sum}
use multi_brand_invoicing.InvoiceStatus.{
  evaluate_transition, initiate_payment, pending_payment, viewed,
}
use multi_brand_invoicing.InvoiceStatus.Lifecycle.{Permits, evaluate_transition_iff}
use multi_brand_invoicing.Payments.Attempt.{initiate_context}
use multi_brand_invoicing.Tests.Data.{basket, basket_total, order}

basket_with_fee : quote_for_method basket card ≡ ok (basket_total true 111)
unfolding quote_for_method calculate calculate_line calculate_line_total assert_quantity
    assert_minor assert_basis_points divide_round_half_up round_positive sum sum_from
    apply_basis_points to_safe_number card_fee incurs_card_fee ◌*ℤ◌ ◌+ℤ◌ ◌-ℤ◌ js_add js_sub
basket_with_fee = refl

basket_without_fee : quote_for_method basket ach ≡ ok (basket_total false 0)
unfolding quote_for_method calculate calculate_line calculate_line_total assert_quantity
    assert_minor assert_basis_points divide_round_half_up round_positive sum sum_from
    apply_basis_points to_safe_number card_fee incurs_card_fee ◌*ℤ◌ ◌+ℤ◌ ◌-ℤ◌ js_add js_sub
basket_without_fee = refl

basket_calculated : calculate basket ≡ ok (basket_total true 111)
unfolding quote_for_method
basket_calculated = basket_with_fee

calculate-IsBreakdown_example : IsBreakdown basket (basket_total true 111)
unfolding ◌+ℤ◌ ◌-ℤ◌
calculate-IsBreakdown_example =
    calculate-IsBreakdown basket (basket_total true 111) basket_calculated (ground arith)
      (ground arith) (ground arith)

quote_for_method-AgreesBeforeFee_example :
    AgreesBeforeFee (basket_total true 111) (basket_total false 0)
quote_for_method-AgreesBeforeFee_example =
    quote_for_method-AgreesBeforeFee basket card ach (basket_total true 111) (basket_total false 0)
      basket_with_fee basket_without_fee

basket-IsModest : IsModest basket
basket-IsModest = record {
  lines = (
    modest 20_000 1_250 none (omega arith) (omega arith) (omega arith),
    (modest 10_000 1_000 (some true) (omega arith) (omega arith) (omega arith), tt),
  );
  count = omega arith;
  tax_rate = (800, refl, omega arith);
  fee_rate = (300, refl, omega arith);
  settled = (0, refl, omega arith);
}

calculate_total_example :
    (r : CalculationResult) × (calculate basket ≡ ok r) × IsBreakdown basket r × IsOrdered r
calculate_total_example = calculate_total basket basket-IsModest

evaluate_transition_iff_example :
    (evaluate_transition initiate_payment (initiate_context (order viewed none))
      ≡ ok pending_payment)
    ↔ Permits initiate_payment (initiate_context (order viewed none)) pending_payment
evaluate_transition_iff_example =
    evaluate_transition_iff initiate_payment (initiate_context (order viewed none)) pending_payment

-- 0.10 back and forth over three equal weights.
abbrev whole_weights : Weights
whole_weights = record {
  Weight = ℕ;
  is_finite = λ _. true;
  is_below_zero = λ _. false;
  sums_to_zero = λ ws. total ws == 0;
  millionths = λ w. w * 1_000_000;
}

abbrev thirds : List ℕ
thirds = 1 ∷ 1 ∷ 1 ∷ []

allocate-sum_example :
    (shares : List ℤ) × (allocate whole_weights (int (negsuc 9)) thirds ≡ ok shares)
    × (length shares ≡ 3)
    × (js_sum_from (pos 0) shares ≡ negsuc 9)
allocate-sum_example =
    allocate-sum whole_weights (negsuc 9) thirds (omega arith) (omega arith) refl (omega arith)
