-- ===== src/Prelude/Double.antt =====
-- JavaScript numbers, where the source keeps integers in them: the integer values with the rounding
-- of a double, and one value for the rest.
use multi_brand_invoicing.Prelude.{
  Bool, arith, if◌then◌else◌, leb, ltb, refl, suc, ℕ, ◌%◌, ◌*◌, ◌+◌, ◌-◌, ◌/◌, ◌==◌, ◌^◌, ◌≡◌, ◌≤◌,
}
use multi_brand_invoicing.Prelude.Int.{nat_abs, neg, negsuc, pos, ℤ, ◌+ℤ◌, ◌-ℤ◌}

-- `other` stands for the values that `Number.isInteger` refuses: fractions, NaN and the infinities.
pub data JsNumber : Type 0 where
  int : ℤ → JsNumber
  other : JsNumber

-- Number.MAX_SAFE_INTEGER
abbrev pub max_safe_integer : ℕ
max_safe_integer = 2 ^ 53 - 1

-- Number.isSafeInteger, at an integer; also the comparison with both ends of the safe range.
abbrev pub is_safe : ℤ → Bool
is_safe a = leb (nat_abs a) max_safe_integer

abbrev pub IsSafe : ℤ → Type 0
IsSafe a = nat_abs a ≤ max_safe_integer

-- The multiple of `s` that is nearest to `n`, the even multiple at a tie.
round_even : ℕ → ℕ → ℕ
round_even n s =
    if ltb (2 * (n % s)) s
    then n / s * s
    else if ltb s (2 * (n % s))
    then (n / s + 1) * s
    else if n / s % 2 == 0
    then n / s * s
    else (n / s + 1) * s

-- The double nearest to a whole number up to 2 ^ 55, which bounds the sums in the source.
nearest_double : ℕ → ℕ
nearest_double n =
    if leb n (2 ^ 53) then n else if leb n (2 ^ 54) then round_even n 2 else round_even n 4

double : ℤ → ℤ
double (pos n) = pos (nearest_double n)
double (negsuc n) = neg (pos (nearest_double (suc n)))

-- `a + b` and `a - b` on numbers that hold integers.
unfoldable pub js_add : ℤ → ℤ → ℤ
unfolding double nearest_double round_even
js_add a b = double (a +ℤ b)

unfoldable pub js_sub : ℤ → ℤ → ℤ
unfolding double nearest_double round_even
js_sub a b = double (a -ℤ b)

double_of_IsSafe : (a : ℤ) → IsSafe a → double a ≡ a
unfolding double nearest_double neg
double_of_IsSafe (pos n) h = ground arith
double_of_IsSafe (negsuc n) h = ground arith

pub js_add_of_IsSafe : (a b : ℤ) → IsSafe (a +ℤ b) → js_add a b ≡ a +ℤ b
unfolding js_add
js_add_of_IsSafe a b h = double_of_IsSafe (a +ℤ b) h

pub js_sub_of_IsSafe : (a b : ℤ) → IsSafe (a -ℤ b) → js_sub a b ≡ a -ℤ b
unfolding js_sub
js_sub_of_IsSafe a b h = double_of_IsSafe (a -ℤ b) h

-- 2 ^ 53 + 1 has no double of its own.
js_add_rounds : js_add (pos (2 ^ 53)) (pos 1) ≡ pos (2 ^ 53)
unfolding js_add ◌+ℤ◌
js_add_rounds = refl
