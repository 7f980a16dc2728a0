-- ===== src/Chars/Decimal.antt =====
-- The numeral of a number: it is made of digits, and its value is the number.
use multi_brand_invoicing.Prelude.{
  [], all, arith, false, refl, suc, true, zero, ℕ, ◌%◌, ◌+◌, ◌/◌, ◌∷◌, ◌≡◌, ◌≤◌,
}
use multi_brand_invoicing.Chars.{
  Chars, emit_digits, is_digit, is_empty, to_string, value_from, value_of,
}

value_from-emit_digits :
    (more n : ℕ) (out : Chars) → n ≤ more → value_from 0 (emit_digits more n out) ≡ value_from n out
unfolding value_from emit_digits
value_from-emit_digits zero n out h = ground arith
value_from-emit_digits (suc more) n out h =
    ground (arith, value_from-emit_digits more (n / 10) ((b'0' + n % 10) ∷ out))

pub value_of-to_string : (n : ℕ) → value_of (to_string n) ≡ n
unfolding value_of to_string value_from
value_of-to_string n = value_from-emit_digits n n [] (omega arith)

digit_lt : (n : ℕ) → is_digit (b'0' + n % 10) ≡ true
digit_lt n = ground arith

emit_digits-digits :
    (more n : ℕ) (out : Chars)
    → all is_digit out ≡ true
    → all is_digit (emit_digits more n out) ≡ true
unfolding emit_digits
emit_digits-digits zero n out h = ground (arith, digit_lt n)
emit_digits-digits (suc more) n out h =
    ground (arith, digit_lt n, emit_digits-digits more (n / 10) ((b'0' + n % 10) ∷ out))

pub to_string-digits : (n : ℕ) → all is_digit (to_string n) ≡ true
unfolding to_string
to_string-digits n = emit_digits-digits n n [] refl

emit_digits-full : (more n : ℕ) (out : Chars) → is_empty (emit_digits more n out) ≡ false
unfolding emit_digits
emit_digits-full zero n out = refl
emit_digits-full (suc more) n out =
    ground (arith, emit_digits-full more (n / 10) ((b'0' + n % 10) ∷ out))

pub to_string-full : (n : ℕ) → is_empty (to_string n) ≡ false
unfolding to_string
to_string-full n = emit_digits-full n n []
