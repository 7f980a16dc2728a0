-- ===== src/Invoices/Creation/Numbers.antt =====
-- The number of an invoice tells its place in the sequence.
use multi_brand_invoicing.Prelude.{
  Bool, [], all, any, ap, arith, false, if◌then◌else◌, length, refl, suc, sym, true, zero, ℕ, ◌++◌,
  ◌-◌, ◌==◌, ◌∙◌, ◌∷◌, ◌≡◌, ◌≢◌,
}
use multi_brand_invoicing.Chars.{
  Chars, is_digit, pad_start, replicate, same_chars, to_string, value_from, value_of,
}
use multi_brand_invoicing.Chars.Decimal.{to_string-digits, value_of-to_string}
use multi_brand_invoicing.Invoices.Drafts.{number_text}

abbrev is_dash : ℕ → Bool
is_dash c = c == b'-'

-- What stands behind the last dash.
last_part : Chars → Chars
last_part [] = []
last_part (c ∷ s) =
    let rest = last_part s in if any is_dash s then rest else if is_dash c then s else c ∷ s

any-dash : (p t : Chars) → any is_dash (p ++ b'-' ∷ t) ≡ true
any-dash [] t = refl
any-dash (c ∷ p) t = ground (arith, any-dash p t)

last_part-append : (p t : Chars) → any is_dash t ≡ false → last_part (p ++ b'-' ∷ t) ≡ t
unfolding last_part
last_part-append [] t h = rw h refl
last_part-append (c ∷ p) t h = rw (any-dash p t) (last_part-append p t h)

digits-no-dash : (t : Chars) → all is_digit t ≡ true → any is_dash t ≡ false
digits-no-dash [] h = refl
digits-no-dash (c ∷ t) h = ground (arith, digits-no-dash t)

zeros-digits :
    (k : ℕ) (s : Chars) → all is_digit s ≡ true → all is_digit (replicate k b'0' ++ s) ≡ true
zeros-digits zero s h = h
zeros-digits (suc k) s h = zeros-digits k s h

zeros-value : (k : ℕ) (s : Chars) → value_of (replicate k b'0' ++ s) ≡ value_of s
unfolding value_of value_from
zeros-value zero s = refl
zeros-value (suc k) s = zeros-value k s

-- The place that a number tells.
place_of : Chars → ℕ
place_of number = value_of (last_part number)

place_of-number_text : (prefix : Chars) (n : ℕ) → place_of (number_text prefix n) ≡ n
unfolding place_of number_text pad_start
place_of-number_text prefix n =
    let zeros = 4 - length (to_string n) in
    let t = replicate zeros b'0' ++ to_string n in
    let digits = digits-no-dash t (zeros-digits zeros (to_string n) (to_string-digits n)) in
    rw (last_part-append prefix t digits) (zeros-value zeros (to_string n) ∙ value_of-to_string n)

-- Numbers of different places differ, whatever the prefixes are.
pub number_text-ne : (p q : Chars) (n m : ℕ) → n ≢ m → number_text p n ≢ number_text q m
number_text-ne p q n m h e =
    h (sym (place_of-number_text p n) ∙ ap place_of e ∙ place_of-number_text q m)

pub same_chars-eq : (s t : Chars) → same_chars s t ≡ true → s ≡ t
same_chars-eq [] [] h = refl
same_chars-eq [] (d ∷ t) h = cc
same_chars-eq (c ∷ s) [] h = cc
same_chars-eq (c ∷ s) (d ∷ t) h = ground (arith, same_chars-eq s t)

pub same_chars_refl : (s : Chars) → same_chars s s ≡ true
same_chars_refl [] = refl
same_chars_refl (c ∷ s) = ground (arith, same_chars_refl s)
