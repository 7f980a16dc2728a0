-- ===== src/UsPhone.antt =====
-- packages/shared/src/domain/us-phone.ts: numbers of the North American Numbering Plan.
pub mod Normal
use multi_brand_invoicing.Prelude.{
  Bool, Option, [], all, false, if◌then◌else◌, leb, length, none, not, some, true, ℕ, ◌&&◌, ◌==◌,
  ◌||◌, ◌∷◌,
}
use multi_brand_invoicing.Chars.{Chars, is_digit, is_empty, is_space, trim}

-- `[2-9]`
abbrev pub is_lead : ℕ → Bool
is_lead c = leb b'2' c && leb c b'9'

-- NANP_PATTERN: /^[2-9]\d{2}[2-9]\d{6}$/
abbrev pub matches_nanp : Chars → Bool
matches_nanp (a ∷ b ∷ c ∷ d ∷ rest) =
    is_lead a && is_digit b && is_digit c && is_lead d && all is_digit rest && length rest == 6
matches_nanp _ = false

-- `[\d\s().-]`
abbrev pub is_phone_char : ℕ → Bool
is_phone_char c = is_digit c || is_space c || c == b'(' || c == b')' || c == b'.' || c == b'-'

-- `[\d\s().-]+$`
abbrev pub is_phone_text : Chars → Bool
is_phone_text s = not (is_empty s) && all is_phone_char s

-- `startsWith('+')` and `startsWith('1')`
abbrev pub starts_with : ℕ → Chars → Bool
starts_with c [] = false
starts_with c (d ∷ s) = d == c

abbrev pub rest_of : Chars → Chars
rest_of [] = []
rest_of (c ∷ s) = s

-- /^\+?[\d\s().-]+$/
unfoldable pub has_phone_form : Chars → Bool
has_phone_form s = if starts_with b'+' s then is_phone_text (rest_of s) else is_phone_text s

-- `replace(/\D/g, '')`
unfoldable pub digits_of : Chars → Chars
digits_of [] = []
digits_of (c ∷ s) = let rest = digits_of s in if is_digit c then c ∷ rest else rest

-- Eleven digits, the first of them the country code 1.
abbrev pub without_country : Chars → Option Chars
without_country digits =
    if length digits == 11 && starts_with b'1' digits then some (rest_of digits) else none

-- `national`, from the digits and whether the text starts with a plus sign.
unfoldable pub national_of : Bool → Chars → Option Chars
national_of plus digits =
    if plus
    then without_country digits
    else if length digits == 11
    then without_country digits
    else if length digits == 10
    then some digits
    else none

unfoldable pub e164_of : Option Chars → Option Chars
e164_of none = none
e164_of (some national) = if matches_nanp national then some (b'+' ∷ b'1' ∷ national) else none

unfoldable pub normalize_trimmed : Chars → Option Chars
unfolding has_phone_form digits_of national_of e164_of
normalize_trimmed trimmed =
    if is_empty trimmed || not (has_phone_form trimmed)
    then none
    else e164_of (national_of (starts_with b'+' trimmed) (digits_of trimmed))

unfoldable pub normalize_us_phone : Chars → Option Chars
unfolding normalize_trimmed trim
normalize_us_phone input = normalize_trimmed (trim input)

unfoldable pub is_valid_us_phone : Chars → Bool
unfolding normalize_us_phone
is_valid_us_phone input = elim (normalize_us_phone input) [ none ↦ false | some normalized ↦ true ]
