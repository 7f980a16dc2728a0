-- ===== src/Chars/Laws.antt =====
-- Texts without spaces and commas, and the digits at the head of a text.
use multi_brand_invoicing.Prelude.{
  Bool, [], all, append-nil, arith, false, refl, some, true, ℕ, ◌&&◌, ◌++◌, ◌==◌, ◌||◌, ◌∙◌, ◌∷◌,
  ◌≡◌,
}
use multi_brand_invoicing.Chars.{
  Chars, is_digit, is_empty, is_space, match_decimal, match_fraction, match_unsigned, split_digits,
  trim, trim_end, trim_start, without,
}

-- What a printed amount is made of: digits, a sign and a point.
abbrev pub is_plain : ℕ → Bool
is_plain c = is_digit c || c == b'-' || c == b'.'

not_space : (c : ℕ) → is_plain c ≡ true → is_space c ≡ false
not_space c h = ground arith

trim_start_plain : (s : Chars) → all is_plain s ≡ true → trim_start s ≡ s
unfolding trim_start
trim_start_plain [] h = refl
trim_start_plain (c ∷ s) h = rw (not_space c (ground arith)) refl

pub trim_end_plain : (s : Chars) → all is_plain s ≡ true → trim_end s ≡ s
unfolding trim_end
trim_end_plain [] h = refl
trim_end_plain (c ∷ s) h =
    let n : is_space c ≡ false = not_space c (ground arith) in
    let rest : trim_end s ≡ s = trim_end_plain s (ground arith) in rw (n, rest) (ground arith)

pub trim_plain : (s : Chars) → all is_plain s ≡ true → trim s ≡ s
unfolding trim
trim_plain s h = rw (trim_start_plain s h) (trim_end_plain s h)

pub without-plain : (s : Chars) → all is_plain s ≡ true → without b',' s ≡ s
unfolding without
without-plain [] h = refl
without-plain (c ∷ s) h = ground (arith, without-plain s)

pub all-append : (p : ℕ → Bool) (s t : Chars) → all p (s ++ t) ≡ (all p s && all p t)
all-append p [] t = refl
all-append p (c ∷ s) t = ground (arith, all-append p s t)

pub digits-plain : (s : Chars) → all is_digit s ≡ true → all is_plain s ≡ true
digits-plain [] h = refl
digits-plain (c ∷ s) h = ground (arith, digits-plain s)

-- Digits before something else are split off whole.
pub split_digits-append :
    (s : Chars) (c : ℕ) (t : Chars)
    → all is_digit s ≡ true
    → is_digit c ≡ false
    → split_digits (s ++ c ∷ t) ≡ (s, c ∷ t)
unfolding split_digits
split_digits-append [] c t h n = ground arith
split_digits-append (d ∷ s) c t h n = ground (arith, split_digits-append s c t)

pub split_digits-all : (s : Chars) → all is_digit s ≡ true → split_digits s ≡ (s, [])
unfolding split_digits
split_digits-all [] h = refl
split_digits-all (c ∷ s) h = ground (arith, split_digits-all s)

abbrev pub minus : Bool → Chars → Chars
minus true s = b'-' ∷ s
minus false s = s

-- A sign before a text that starts with a digit.
match_signed :
    (negative : Bool) (s t : Chars)
    → all is_digit s ≡ true
    → is_empty s ≡ false
    → match_decimal (minus negative (s ++ t)) ≡ match_unsigned negative (s ++ t)
unfolding match_decimal
match_signed true s t h n = refl
match_signed false [] t h n = ground arith
match_signed false (c ∷ s) t h n = let digit : (c == b'-') ≡ false = ground arith in rw digit refl

-- A printed numeral, with a fraction and without, is matched as it was printed.
pub match_decimal_fraction :
    (negative : Bool) (s t : Chars)
    → all is_digit s ≡ true
    → is_empty s ≡ false
    → all is_digit t ≡ true
    → is_empty t ≡ false
    → match_decimal (minus negative (s ++ b'.' ∷ t))
      ≡ some (record { negative = negative; whole = s; fraction = t })
unfolding match_unsigned match_fraction
match_decimal_fraction negative s t h n k m =
    match_signed negative s (b'.' ∷ t) h n
    ∙ rw (split_digits-append s b'.' t h refl, n, split_digits-all t k, m) refl

pub match_decimal_whole :
    (negative : Bool) (s : Chars)
    → all is_digit s ≡ true
    → is_empty s ≡ false
    → match_decimal (minus negative s)
      ≡ some (record { negative = negative; whole = s; fraction = [] })
unfolding match_unsigned match_fraction
match_decimal_whole negative s h n =
    let plain : s ++ [] ≡ s = append-nil s in
    (rw plain at (match_signed negative s [] h n)) ∙ rw (split_digits-all s h, n) refl
