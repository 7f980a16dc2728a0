-- ===== src/Amounts/RoundTrip.antt =====
-- Printed amounts and quantities are read back.
use multi_brand_invoicing.Prelude.Outcome.{ok, ◌>>=◌}
use multi_brand_invoicing.Prelude.{
  Bool, [], all, append-nil, arith, false, if◌then◌else◌, leb, length, ltb, not, refl, some, suc,
  true, zero, ℕ, ◌%◌, ◌&&◌, ◌*◌, ◌++◌, ◌+◌, ◌-◌, ◌/◌, ◌<◌, ◌==◌, ◌∷◌, ◌≡◌,
}
use multi_brand_invoicing.Prelude.Int.{ltb_ℤ, nat_abs, neg, negsuc, pos, ℤ}
use multi_brand_invoicing.Prelude.Double.{IsSafe, int, is_safe}
use multi_brand_invoicing.Money.{assert_minor, to_safe_number}
use multi_brand_invoicing.Calculation.{assert_quantity}
use multi_brand_invoicing.Chars.{
  Chars, is_digit, is_empty, match_decimal, pad_end, pad_start, strip_zeros, to_string, value_of,
}
use multi_brand_invoicing.Chars.Laws.{
  all-append, digits-plain, is_plain, match_decimal_fraction, match_decimal_whole, minus,
  trim_plain, without-plain,
}
use multi_brand_invoicing.Chars.Decimal.{to_string-digits, to_string-full, value_of-to_string}
use multi_brand_invoicing.Amounts.{
  CurrencyCode, format_minor, format_quantity, minor_of, minor_text, minor_unit_exponent,
  parse_minor, point_and, quantity_from, quantity_of, quantity_text, sign_text, with_minus,
}

-- A test that every number below `n` passes.
all_below : (ℕ → Bool) → ℕ → Bool
all_below p zero = true
all_below p (suc n) = let rest = all_below p n in if p n then rest else false

all_below_lem : (p : ℕ → Bool) (n m : ℕ) → all_below p n ≡ true → m < n → p m ≡ true
unfolding all_below
all_below_lem p zero m h k = absurd (omega arith)
all_below_lem p (suc n) m h k = ground (arith, all_below_lem p n m)

-- The cents of an amount are two digits of its value.
abbrev are_cents : ℕ → Bool
are_cents m =
    let s = pad_start 2 (to_string m) in
    all is_digit s && length s == 2 && not (is_empty s) && value_of s == m

cents_table : all_below are_cents 100 ≡ true
unfolding all_below pad_start to_string value_of
cents_table = refl

-- The printed fraction of a quantity.
abbrev fraction_text : ℕ → Chars
fraction_text m = strip_zeros (pad_start 4 (to_string m))

abbrev are_parts : ℕ → Bool
are_parts m =
    let s = fraction_text m in all is_digit s && leb (length s) 4 && value_of (pad_end 4 s) == m

parts_table : all_below are_parts 10_000 ≡ true
unfolding all_below pad_start to_string value_of strip_zeros pad_end
parts_table = refl

record IsCents (m : ℕ) : Type 0 where
  digits : all is_digit (pad_start 2 (to_string m)) ≡ true
  two : length (pad_start 2 (to_string m)) ≡ 2
  full : is_empty (pad_start 2 (to_string m)) ≡ false
  value : value_of (pad_start 2 (to_string m)) ≡ m

cents : (m : ℕ) → m < 100 → IsCents m
cents m h =
    let t : are_cents m ≡ true = all_below_lem are_cents 100 m cents_table h in
    record { digits = ground arith; two = ground arith; full = ground arith; value = ground arith }

sign-minus : (b : Bool) (s : Chars) → sign_text b ++ s ≡ minus b s
sign-minus true s = refl
sign-minus false s = refl

signed_value : (a : ℤ) → with_minus (ltb_ℤ a (pos 0)) (nat_abs a) ≡ a
unfolding neg
signed_value (pos n) = ground arith
signed_value (negsuc n) = ground arith

minor_exponent : (c : CurrencyCode) → minor_unit_exponent c ≡ 2
unfolding minor_unit_exponent
minor_exponent c = ground arith

-- An amount's text as digits, a point and digits.
minor_text_lem :
    (c : CurrencyCode) (a : ℤ)
    → minor_text c a
      ≡ minus
          (ltb_ℤ a (pos 0))
          (to_string (nat_abs a / 100) ++ b'.' ∷ pad_start 2 (to_string (nat_abs a % 100)))
unfolding minor_text
minor_text_lem c a = rw (minor_exponent c) (sign-minus (ltb_ℤ a (pos 0)) _)

minus-plain : (b : Bool) (s : Chars) → all is_plain s ≡ true → all is_plain (minus b s) ≡ true
minus-plain true s h = h
minus-plain false s h = h

pad_end_full : (n : ℕ) (s : Chars) → length s ≡ n → pad_end n s ≡ s
unfolding pad_end
pad_end_full n s h = let none_left : n - n ≡ 0 = omega arith in rw (h, none_left) (append-nil s)

minor_of_match :
    (c : CurrencyCode) (a : ℤ)
    → IsSafe a
    → minor_of c (
        some (record {
          negative = ltb_ℤ a (pos 0);
          whole = to_string (nat_abs a / 100);
          fraction = pad_start 2 (to_string (nat_abs a % 100));
        }))
      ≡ ok a
unfolding minor_of to_safe_number
minor_of_match c a h =
    let m = cents (nat_abs a % 100) (omega arith) in
    let t = pad_start 2 (to_string (nat_abs a % 100)) in
    let padded : pad_end 2 t ≡ t = pad_end_full 2 t m.two in
    let joined : nat_abs a / 100 * 100 + nat_abs a % 100 ≡ nat_abs a = omega arith in
    let safe : is_safe a ≡ true = ground arith in
    rw
      (
        minor_exponent c,
        m.two,
        padded,
        value_of-to_string (nat_abs a / 100),
        m.value,
        joined,
        signed_value a,
        safe,
      )
      refl

pub parse_minor-text : (c : CurrencyCode) (a : ℤ) → IsSafe a → parse_minor (minor_text c a) c ≡ ok a
unfolding parse_minor
parse_minor-text c a h =
    let m = cents (nat_abs a % 100) (omega arith) in
    let s = to_string (nat_abs a / 100) in
    let t = pad_start 2 (to_string (nat_abs a % 100)) in
    let plain : all is_plain (minus (ltb_ℤ a (pos 0)) (s ++ b'.' ∷ t)) ≡ true =
      minus-plain (ltb_ℤ a (pos 0)) (s ++ b'.' ∷ t) (
        rw
          (
            all-append is_plain s (b'.' ∷ t),
            digits-plain s (to_string-digits _),
            digits-plain t m.digits,
          )
          refl) in
    rw
      (
        minor_text_lem c a,
        trim_plain _ plain,
        without-plain _ plain,
        match_decimal_fraction (ltb_ℤ a (pos 0)) s t (to_string-digits _) (to_string-full _)
            m.digits m.full,
      )
      (minor_of_match c a h)

pub format_minor-eq-ok :
    (c : CurrencyCode) (a : ℤ) → IsSafe a → format_minor (int a) c ≡ ok (minor_text c a)
unfolding format_minor assert_minor
format_minor-eq-ok c a h = let safe : is_safe a ≡ true = ground arith in rw safe refl

-- A safe amount that is printed in a currency, and parsed in it, is the amount again: no minor unit is
-- lost, negative amounts included.
pub parse_minor-format_minor :
    (c : CurrencyCode) (a : ℤ) → IsSafe a → (format_minor (int a) c >>= λ s. parse_minor s c) ≡ ok a
parse_minor-format_minor c a h = rw (format_minor-eq-ok c a h) (parse_minor-text c a h)

record IsFraction (m : ℕ) : Type 0 where
  digits : all is_digit (fraction_text m) ≡ true
  short : leb (length (fraction_text m)) 4 ≡ true
  value : value_of (pad_end 4 (fraction_text m)) ≡ m

fraction : (m : ℕ) → m < 10_000 → IsFraction m
fraction m h =
    let t : are_parts m ≡ true = all_below_lem are_parts 10_000 m parts_table h in
    record { digits = ground arith; short = ground arith; value = ground arith }

match_quantity :
    (b : Bool) (s t : Chars)
    → all is_digit s ≡ true
    → is_empty s ≡ false
    → all is_digit t ≡ true
    → match_decimal (minus b (s ++ point_and t))
      ≡ some (record { negative = b; whole = s; fraction = t })
match_quantity b s [] h n k = rw (append-nil s) (match_decimal_whole b s h n)
match_quantity b s (c ∷ t) h n k = match_decimal_fraction b s (c ∷ t) h n k refl

point_and-plain : (t : Chars) → all is_digit t ≡ true → all is_plain (point_and t) ≡ true
point_and-plain [] h = refl
point_and-plain (c ∷ t) h = digits-plain (c ∷ t) h

quantity_of_match :
    (q : ℤ)
    → IsSafe q
    → quantity_of (
        some (record {
          negative = ltb_ℤ q (pos 0);
          whole = to_string (nat_abs q / 10_000);
          fraction = fraction_text (nat_abs q % 10_000);
        }))
      ≡ ok q
unfolding quantity_of
quantity_of_match q h =
    let m = fraction (nat_abs q % 10_000) (omega arith) in
    let joined : nat_abs q / 10_000 * 10_000 + nat_abs q % 10_000 ≡ nat_abs q = omega arith in
    let safe : is_safe q ≡ true = ground arith in
    let short : ltb 4 (length (fraction_text (nat_abs q % 10_000))) ≡ false =
      ground (arith, m.short) in
    rw (short, value_of-to_string (nat_abs q / 10_000), m.value, joined, signed_value q, safe) refl

quantity_from-text : (q : ℤ) → IsSafe q → quantity_from (quantity_text q) ≡ ok q
unfolding quantity_from quantity_text
quantity_from-text q h =
    let m = fraction (nat_abs q % 10_000) (omega arith) in
    let b = ltb_ℤ q (pos 0) in
    let s = to_string (nat_abs q / 10_000) in
    let t = fraction_text (nat_abs q % 10_000) in
    let plain : all is_plain (minus b (s ++ point_and t)) ≡ true =
      minus-plain b (s ++ point_and t) (
        rw
          (
            all-append is_plain s (point_and t),
            digits-plain s (to_string-digits (nat_abs q / 10_000)),
            point_and-plain t m.digits,
          )
          refl) in
    rw
      (
        sign-minus b (s ++ point_and t),
        trim_plain _ plain,
        match_quantity b s t (to_string-digits (nat_abs q / 10_000))
            (to_string-full (nat_abs q / 10_000)) m.digits,
      )
      (quantity_of_match q h)

-- A safe quantity that is printed, its trailing zeros cut off, and parsed is the quantity again.
pub quantity_from-format_quantity :
    (q : ℤ) → IsSafe q → (format_quantity (int q) >>= λ s. quantity_from s) ≡ ok q
unfolding format_quantity assert_quantity
quantity_from-format_quantity q h =
    let safe : is_safe q ≡ true = ground arith in rw safe (quantity_from-text q h)
