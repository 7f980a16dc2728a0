-- ===== src/Calculation.antt =====
-- packages/shared/src/money/calculation.ts: subtotal, tax, card fee and total of an invoice.
pub mod Figures
pub mod Methods
pub mod Bounds
use multi_brand_invoicing.Prelude.Outcome.{err, ok, traverse, ◌>>=◌, ◌>>◌}
use multi_brand_invoicing.Prelude.{
  Bool, List, Option, [], false, if◌then◌else◌, none, not, some, true, ◌∷◌,
}
use multi_brand_invoicing.Prelude.Int.{pos, ℤ, ◌*ℤ◌, ◌+ℤ◌}
use multi_brand_invoicing.Prelude.Double.{JsNumber, int, is_safe, js_add, js_sub, other}
use multi_brand_invoicing.Money.{
  Checked, apply_basis_points, assert_basis_points, assert_minor, divide_round_half_up,
  line_overflow, not_integer, sum_overflow, unsafe_integer,
}

-- PAYMENT_METHODS
pub data PaymentMethod : Type 0 where
  card wallet ach check manual : PaymentMethod

-- FEE_BEARING_METHODS.has
unfoldable pub incurs_card_fee : PaymentMethod → Bool
incurs_card_fee card = true
incurs_card_fee wallet = true
incurs_card_fee ach = false
incurs_card_fee check = false
incurs_card_fee manual = false

-- `taxExempt` of a line; `tax_exempt` is optional in the source.
pub record CalculationLineInput : Type 0 where
  pub quantity : JsNumber
  pub unit_price_minor : JsNumber
  pub tax_exempt : Option Bool

pub record CalculationInput : Type 0 where
  pub lines : List CalculationLineInput
  pub tax_rate_bp : JsNumber
  pub card_fee_rate_bp : JsNumber
  pub payment_method : PaymentMethod
  pub settled_minor : Option JsNumber

pub record CalculationLineResult : Type 0 where
  pub line_total_minor : ℤ
  pub tax_exempt : Bool

pub record CalculationResult : Type 0 where
  pub lines : List CalculationLineResult
  pub subtotal_minor : ℤ
  pub taxable_base_minor : ℤ
  pub tax_rate_bp_applied : ℤ
  pub tax_minor : ℤ
  pub pre_fee_total_minor : ℤ
  pub card_fee_rate_bp_applied : ℤ
  pub card_fee_minor : ℤ
  pub card_fee_applied : Bool
  pub total_minor : ℤ
  pub settled_minor : ℤ
  pub balance_minor : ℤ

-- quantity.ts: QUANTITY_SCALE and `assertQuantity`
abbrev pub quantity_scale : ℤ
quantity_scale = pos 10_000

unfoldable pub assert_quantity : JsNumber → Checked ℤ
assert_quantity other = err not_integer
assert_quantity (int value) = if not (is_safe value) then err unsafe_integer else ok value

unfoldable pub calculate_line_total : JsNumber → JsNumber → Checked ℤ
calculate_line_total quantity unit_price_minor = do
  q ← assert_quantity quantity
  p ← assert_minor unit_price_minor
  rounded ← divide_round_half_up (q *ℤ p) quantity_scale
  if not (is_safe rounded) then err line_overflow else ok rounded

-- `taxExempt === true`
abbrev pub is_true : Option Bool → Bool
is_true none = false
is_true (some b) = b

unfoldable pub calculate_line : CalculationLineInput → Checked CalculationLineResult
calculate_line line = do
  total ← calculate_line_total line.quantity line.unit_price_minor
  ok (record { line_total_minor = total; tax_exempt = is_true line.tax_exempt })

-- The `reduce` of `sum`, over values that were computed as integers.
unfoldable pub sum_from : ℤ → List ℤ → Checked ℤ
sum_from acc [] = ok acc
sum_from acc (v ∷ values) = do value ← assert_minor (int v); sum_from (acc +ℤ value) values

unfoldable pub sum : List ℤ → Checked ℤ
sum values = do
  total ← sum_from (pos 0) values
  if not (is_safe total) then err sum_overflow else ok total

abbrev pub line_totals : List CalculationLineResult → List ℤ
line_totals [] = []
line_totals (l ∷ lines) = l.line_total_minor ∷ line_totals lines

-- `lines.filter((l) => !l.taxExempt)`
abbrev pub taxable : List CalculationLineResult → List CalculationLineResult
taxable [] = []
taxable (l ∷ lines) = if l.tax_exempt then taxable lines else l ∷ taxable lines

abbrev pub or_zero : Option JsNumber → JsNumber
or_zero none = int (pos 0)
or_zero (some n) = n

-- The card fee: the third rounding, on the total after tax.
unfoldable pub card_fee : PaymentMethod → ℤ → ℤ → Checked ℤ
unfolding incurs_card_fee
card_fee method pre_fee_total card_fee_rate_bp =
    if incurs_card_fee method
    then apply_basis_points (int pre_fee_total) (int card_fee_rate_bp)
    else ok (pos 0)

unfoldable pub calculate : CalculationInput → Checked CalculationResult
calculate input = do
  tax_rate_bp ← assert_basis_points input.tax_rate_bp
  card_fee_rate_bp ← assert_basis_points input.card_fee_rate_bp
  settled ← assert_minor (or_zero input.settled_minor)
  lines ← traverse calculate_line input.lines
  subtotal ← sum (line_totals lines)
  taxable_base ← sum (line_totals (taxable lines))
  tax ← apply_basis_points (int taxable_base) (int tax_rate_bp)
  let pre_fee_total = js_add subtotal tax
  fee ← card_fee input.payment_method pre_fee_total card_fee_rate_bp
  let total = js_add pre_fee_total fee
  ok (record {
    lines = lines;
    subtotal_minor = subtotal;
    taxable_base_minor = taxable_base;
    tax_rate_bp_applied = tax_rate_bp;
    tax_minor = tax;
    pre_fee_total_minor = pre_fee_total;
    card_fee_rate_bp_applied = card_fee_rate_bp;
    card_fee_minor = fee;
    card_fee_applied = incurs_card_fee input.payment_method;
    total_minor = total;
    settled_minor = settled;
    balance_minor = js_sub total settled;
  })

unfoldable pub quote_for_method : CalculationInput → PaymentMethod → Checked CalculationResult
quote_for_method input method = calculate (record input { payment_method = method })
