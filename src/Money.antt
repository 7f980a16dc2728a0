-- ===== src/Money.antt =====
-- packages/shared/src/money/money.ts: amounts in integer minor units and rates in basis points.
-- A message is modelled by the kind of the throw; `bigint` arithmetic is that of ℤ.
pub mod Round
use multi_brand_invoicing.Prelude.Outcome.{Result, err, ok, ◌>>=◌, ◌>>◌}
use multi_brand_invoicing.Prelude.{Bool, List, [], if◌then◌else◌, not, ◌*◌, ◌+◌, ◌/◌, ◌∷◌}
use multi_brand_invoicing.Prelude.Int.{
  eq_ℤ, leb_ℤ, ltb_ℤ, nat_abs, neg, pos, pos_part, ℤ, ◌*ℤ◌, ◌+ℤ◌, ◌-ℤ◌,
}
use multi_brand_invoicing.Prelude.Double.{JsNumber, int, is_safe, other}

-- The throws of money.ts, quantity.ts and calculation.ts; the last two are RangeErrors.
pub data MoneyError : Type 0 where
  not_integer unsafe_integer negative_rate division_by_zero overflow : MoneyError
  invalid_decimal too_precise : MoneyError
  line_overflow sum_overflow : MoneyError

abbrev pub Checked : Type 0 → Type 0
Checked A = Result MoneyError A

-- BASIS_POINTS_SCALE
abbrev pub basis_points_scale : ℤ
basis_points_scale = pos 10_000

unfoldable pub assert_minor : JsNumber → Checked ℤ
assert_minor other = err not_integer
assert_minor (int value) = if not (is_safe value) then err unsafe_integer else ok value

unfoldable pub assert_basis_points : JsNumber → Checked ℤ
assert_basis_points other = err not_integer
assert_basis_points (int value) = if ltb_ℤ value (pos 0) then err negative_rate else ok value

unfoldable pub to_safe_number : ℤ → Checked ℤ
to_safe_number value = if not (is_safe value) then err overflow else ok value

-- The part of `divideRoundHalfUp` below its guards, where the denominator is positive.
unfoldable pub round_positive : ℤ → ℤ → ℤ
round_positive numerator denominator =
    let negative = ltb_ℤ numerator (pos 0) in
    let magnitude = nat_abs numerator in
    let rounded = (magnitude * 2 + pos_part denominator) / (pos_part denominator * 2) in
    if negative then neg (pos rounded) else pos rounded

unfoldable pub divide_round_half_up : ℤ → ℤ → Checked ℤ
divide_round_half_up numerator denominator =
    if eq_ℤ denominator (pos 0)
    then err division_by_zero
    else if ltb_ℤ denominator (pos 0)
    then ok (round_positive (neg numerator) (neg denominator))
    else ok (round_positive numerator denominator)

-- The `reduce` of `addMinor`, from an accumulator.
add_from : ℤ → List JsNumber → Checked ℤ
add_from acc [] = ok acc
add_from acc (a ∷ amounts) = do value ← assert_minor a; add_from (acc +ℤ value) amounts

unfoldable pub add_minor : List JsNumber → Checked ℤ
unfolding add_from
add_minor amounts = do total ← add_from (pos 0) amounts; to_safe_number total

unfoldable pub subtract_minor : JsNumber → JsNumber → Checked ℤ
subtract_minor a b = do x ← assert_minor a; y ← assert_minor b; to_safe_number (x -ℤ y)

unfoldable pub negate_minor : JsNumber → Checked ℤ
negate_minor a = do x ← assert_minor a; ok (neg x)

unfoldable pub apply_basis_points : JsNumber → JsNumber → Checked ℤ
apply_basis_points amount rate_bp = do
  a ← assert_minor amount
  r ← assert_basis_points rate_bp
  result ← divide_round_half_up (a *ℤ r) basis_points_scale
  to_safe_number result

unfoldable pub is_zero : JsNumber → Checked Bool
is_zero amount = do a ← assert_minor amount; ok (eq_ℤ a (pos 0))

unfoldable pub is_positive : JsNumber → Checked Bool
is_positive amount = do a ← assert_minor amount; ok (ltb_ℤ (pos 0) a)

unfoldable pub max_minor : JsNumber → JsNumber → Checked ℤ
max_minor a b = do x ← assert_minor a; y ← assert_minor b; ok (if leb_ℤ y x then x else y)

unfoldable pub min_minor : JsNumber → JsNumber → Checked ℤ
min_minor a b = do x ← assert_minor a; y ← assert_minor b; ok (if leb_ℤ x y then x else y)
