-- ===== src/Amounts.antt =====
-- packages/shared/src/money/money.ts and quantity.ts: amounts and quantities as decimal texts.
-- A quotient of a safe integer by 100 or 10,000 lies further below the next integer than half a unit in
-- the last place of its double, so `Math.trunc` of it is the exact quotient.
pub mod RoundTrip
use multi_brand_invoicing.Prelude.Outcome.{err, ok, ◌>>=◌, ◌>>◌}
use multi_brand_invoicing.Prelude.{
  Bool, Option, [], false, if◌then◌else◌, length, ltb, none, not, some, true, ℕ, ◌%◌, ◌*◌, ◌++◌,
  ◌+◌, ◌/◌, ◌^◌, ◌∷◌,
}
use multi_brand_invoicing.Prelude.Int.{ltb_ℤ, nat_abs, neg, pos, ℤ}
use multi_brand_invoicing.Prelude.Double.{JsNumber, is_safe}
use multi_brand_invoicing.Money.{
  Checked, assert_minor, invalid_decimal, overflow, to_safe_number, too_precise,
}
use multi_brand_invoicing.Calculation.{assert_quantity}
use multi_brand_invoicing.Chars.{
  Chars, DecimalMatch, match_decimal, pad_end, pad_start, strip_zeros, to_string, trim, value_of,
  without,
}

-- SUPPORTED_CURRENCIES
pub data CurrencyCode : Type 0 where
  usd cad eur gbp pkr : CurrencyCode

-- MINOR_UNIT_EXPONENT, `minorUnitExponent`
unfoldable pub minor_unit_exponent : CurrencyCode → ℕ
minor_unit_exponent usd = 2
minor_unit_exponent cad = 2
minor_unit_exponent eur = 2
minor_unit_exponent gbp = 2
minor_unit_exponent pkr = 2

-- A currency as it is stored or received: none is a text that is not a supported code, or null.
abbrev pub StoredCurrency : Type 0
StoredCurrency = Option CurrencyCode

unfoldable pub is_supported_currency : StoredCurrency → Bool
is_supported_currency none = false
is_supported_currency (some code) = true

-- `toCurrencyCode(value)`, whose fallback is USD
unfoldable pub to_currency_code : StoredCurrency → CurrencyCode
to_currency_code none = usd
to_currency_code (some code) = code

abbrev pub sign_text : Bool → Chars
sign_text true = b'-' ∷ []
sign_text false = []

-- The number that a sign and a magnitude give.
abbrev pub with_minus : Bool → ℕ → ℤ
with_minus true n = neg (pos n)
with_minus false n = pos n

-- The text of a safe amount.
unfoldable pub minor_text : CurrencyCode → ℤ → Chars
unfolding minor_unit_exponent to_string pad_start
minor_text currency amount =
    let exponent = minor_unit_exponent currency in
    let magnitude = nat_abs amount in
    let major = magnitude / 10 ^ exponent in
    let minor = magnitude % 10 ^ exponent in
    sign_text (ltb_ℤ amount (pos 0))
    ++ (to_string major ++ b'.' ∷ pad_start exponent (to_string minor))

unfoldable pub format_minor : JsNumber → CurrencyCode → Checked Chars
unfolding minor_text assert_minor
format_minor amount currency = do a ← assert_minor amount; ok (minor_text currency a)

-- `parseMinor` from its match on.
unfoldable pub minor_of : CurrencyCode → Option DecimalMatch → Checked ℤ
unfolding minor_unit_exponent to_safe_number
minor_of currency none = err invalid_decimal
minor_of currency (some found) =
    let exponent = minor_unit_exponent currency in
    let padded = pad_end exponent found.fraction in
    let value = value_of found.whole * 10 ^ exponent + value_of padded in
    if ltb exponent (length found.fraction)
    then err too_precise
    else to_safe_number (with_minus found.negative value)

unfoldable pub parse_minor : Chars → CurrencyCode → Checked ℤ
unfolding minor_of trim without match_decimal
parse_minor input currency = minor_of currency (match_decimal (without b',' (trim input)))

-- QUANTITY_DECIMALS
abbrev pub quantity_decimals : ℕ
quantity_decimals = 4

abbrev pub point_and : Chars → Chars
point_and [] = []
point_and (c ∷ s) = b'.' ∷ c ∷ s

unfoldable pub quantity_text : ℤ → Chars
unfolding to_string pad_start strip_zeros
quantity_text quantity =
    let magnitude = nat_abs quantity in
    let fraction = strip_zeros (pad_start quantity_decimals (to_string (magnitude % 10_000))) in
    sign_text (ltb_ℤ quantity (pos 0)) ++ (to_string (magnitude / 10_000) ++ point_and fraction)

unfoldable pub format_quantity : JsNumber → Checked Chars
unfolding quantity_text assert_quantity
format_quantity quantity = do q ← assert_quantity quantity; ok (quantity_text q)

-- `quantityFrom` on a text, from its match on.
unfoldable pub quantity_of : Option DecimalMatch → Checked ℤ
quantity_of none = err invalid_decimal
quantity_of (some found) =
    let padded = pad_end quantity_decimals found.fraction in
    let signed = with_minus found.negative (value_of found.whole * 10_000 + value_of padded) in
    if ltb quantity_decimals (length found.fraction)
    then err too_precise
    else if not (is_safe signed)
    then err overflow
    else ok signed

unfoldable pub quantity_from : Chars → Checked ℤ
unfolding quantity_of trim match_decimal
quantity_from input = quantity_of (match_decimal (trim input))
