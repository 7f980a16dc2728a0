-- ===== src/Chars.antt =====
-- Texts as lists of code units, with the string methods and the decimal numerals that the source uses.
pub mod Laws
pub mod Decimal
use multi_brand_invoicing.Prelude.{
  Bool, List, Option, [], false, if◌then◌else◌, leb, length, ltb, none, not, some, suc, true, zero,
  ℕ, ◌%◌, ◌&&◌, ◌*◌, ◌++◌, ◌+◌, ◌-◌, ◌/◌, ◌==◌, ◌||◌, ◌∷◌,
}

abbrev pub Chars : Type 0
Chars = List ℕ

abbrev pub is_digit : ℕ → Bool
is_digit c = leb b'0' c && leb c b'9'

-- The white space and line terminators of String.prototype.trim.
abbrev pub is_space : ℕ → Bool
is_space c =
    leb 9 c && leb c 13
    || c == 32
    || c == 160
    || c == 0x1680
    || leb 0x2000 c && leb c 0x200a
    || c == 0x2028
    || c == 0x2029
    || c == 0x202f
    || c == 0x205f
    || c == 0x3000
    || c == 0xfeff

abbrev pub is_empty : Chars → Bool
is_empty [] = true
is_empty (c ∷ s) = false

-- `===` on strings
abbrev pub same_chars : Chars → Chars → Bool
same_chars [] [] = true
same_chars (c ∷ s) (d ∷ t) = c == d && same_chars s t
same_chars _ _ = false

unfoldable pub trim_start : Chars → Chars
trim_start [] = []
trim_start (c ∷ s) = if is_space c then trim_start s else c ∷ s

unfoldable pub trim_end : Chars → Chars
trim_end [] = []
trim_end (c ∷ s) = let rest = trim_end s in if is_empty rest && is_space c then [] else c ∷ rest

unfoldable pub trim : Chars → Chars
unfolding trim_start trim_end
trim s = trim_end (trim_start s)

-- `replace(/c/g, '')`
unfoldable pub without : ℕ → Chars → Chars
without c [] = []
without c (d ∷ s) = let rest = without c s in if d == c then rest else d ∷ rest

-- `replace(/0+$/, '')`
unfoldable pub strip_zeros : Chars → Chars
strip_zeros [] = []
strip_zeros (c ∷ s) =
    let rest = strip_zeros s in if is_empty rest && c == b'0' then [] else c ∷ rest

abbrev pub replicate : ℕ → ℕ → Chars
replicate zero c = []
replicate (suc n) c = c ∷ replicate n c

-- `padStart(n, '0')` and `padEnd(n, '0')`
unfoldable pub pad_start : ℕ → Chars → Chars
pad_start n s = replicate (n - length s) b'0' ++ s

unfoldable pub pad_end : ℕ → Chars → Chars
pad_end n s = s ++ replicate (n - length s) b'0'

-- The value of a numeral, `BigInt(s)`, behind the value `n` of the digits before it.
unfoldable pub value_from : ℕ → Chars → ℕ
value_from n [] = n
value_from n (c ∷ s) = value_from (n * 10 + (c - b'0')) s

unfoldable pub value_of : Chars → ℕ
unfolding value_from
value_of s = value_from 0 s

-- The digits of `n` before `out`; a number has fewer digits than its value and one more.
unfoldable pub emit_digits : ℕ → ℕ → Chars → Chars
emit_digits zero n out = (b'0' + n % 10) ∷ out
emit_digits (suc more) n out =
    let written = (b'0' + n % 10) ∷ out in
    elim (ltb n 10) [ true ↦ written | false ↦ emit_digits more (n / 10) written ]

-- `String(n)` and the template `${n}` of a whole number below 2 ^ 53
unfoldable pub to_string : ℕ → Chars
unfolding emit_digits
to_string n = emit_digits n n []

-- The longest prefix of digits, `\d*`, and what follows it.
unfoldable pub split_digits : Chars → Chars × Chars
split_digits [] = ([], [])
split_digits (c ∷ s) =
    let (digits, rest) = split_digits s in if is_digit c then (c ∷ digits, rest) else ([], c ∷ s)

-- A match of /^(-)?(\d+)(?:\.(\d+))?$/, its three groups; an absent fraction is empty.
pub record DecimalMatch : Type 0 where
  pub negative : Bool
  pub whole : Chars
  pub fraction : Chars

unfoldable pub match_fraction : Bool → Chars → Chars → Option DecimalMatch
match_fraction negative whole [] =
    some (record { negative = negative; whole = whole; fraction = [] })
match_fraction negative whole (c ∷ rest) =
    let (digits, tail) = split_digits rest in
    if c == b'.' && not (is_empty digits) && is_empty tail
    then some (record { negative = negative; whole = whole; fraction = digits })
    else none

unfoldable pub match_unsigned : Bool → Chars → Option DecimalMatch
match_unsigned negative s =
    let (digits, rest) = split_digits s in
    if is_empty digits then none else match_fraction negative digits rest

unfoldable pub match_decimal : Chars → Option DecimalMatch
unfolding match_unsigned match_fraction split_digits
match_decimal [] = none
match_decimal (c ∷ s) = if c == b'-' then match_unsigned true s else match_unsigned false (c ∷ s)
