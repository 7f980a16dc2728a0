-- ===== src/Money/Round.antt =====
-- Rounding in money.ts: what `divideRoundHalfUp` returns, as a specification without division.
use multi_brand_invoicing.Prelude.Outcome.{ok, ◌>>=◌}
use multi_brand_invoicing.Prelude.{
  Bool, arith, false, if◌then◌else◌, refl, suc, true, zero, ℕ, ◌%◌, ◌*◌, ◌+◌, ◌/◌, ◌<◌, ◌≡◌, ◌≢◌,
  ◌≤◌,
}
use multi_brand_invoicing.Prelude.Int.{
  ltb_ℤ, nat_abs, nat_abs_parts, neg, neg-negsuc, neg_parts, negsuc, pos, pos_part, ℤ,
}
use native.Mathlib.Nat.{div-eq_of_lt, div-add-mod, mod-lt}
use multi_brand_invoicing.Money.{divide_round_half_up, round_positive}

-- `q` is the magnitude `m / d` rounded to the nearest whole number, up at a half.
abbrev pub IsRounded : ℕ → ℕ → ℕ → Type 0
IsRounded m d q = (2 * (q * d) ≤ 2 * m + d) × (2 * m < 2 * (q * d) + d)

IsRounded-div : (m d : ℕ) → 0 < d → IsRounded m d ((m * 2 + d) / (d * 2))
IsRounded-div m d h =
    let below : (m * 2 + d) % (d * 2) < d * 2 = mod-lt (m * 2 + d) (omega arith) in
    let split : d * 2 * ((m * 2 + d) / (d * 2)) + (m * 2 + d) % (d * 2) ≡ m * 2 + d =
      div-add-mod (m * 2 + d) (d * 2) in
    (omega arith, omega arith)

-- The rounded magnitude is the only one that meets the specification.
pub IsRounded-unique : (m d p q : ℕ) → IsRounded m d p → IsRounded m d q → p ≡ q
IsRounded-unique m d p q h k = grind arith

-- The magnitude with a sign.
abbrev pub with_sign : Bool → ℕ → ℤ
with_sign true q = neg (pos q)
with_sign false q = pos q

round_positive_lem :
    (n : ℤ) (d : ℕ)
    → 0 < d
    → (q : ℕ) × IsRounded (nat_abs n) d q
      × (round_positive n (pos d) ≡ with_sign (ltb_ℤ n (pos 0)) q)
unfolding round_positive
round_positive_lem n d h =
    ((nat_abs n * 2 + d) / (d * 2), IsRounded-div (nat_abs n) d h, ground arith)

nat_abs-neg : (n : ℤ) → nat_abs (neg n) ≡ nat_abs n
nat_abs-neg n = omega (arith, nat_abs_parts n, nat_abs_parts (neg n), neg_parts n)

-- Whether the exact quotient of two integers is below zero.
abbrev pub below_zero : ℤ → ℤ → Bool
below_zero n d = if ltb_ℤ d (pos 0) then ltb_ℤ (pos 0) n else ltb_ℤ n (pos 0)

-- For a denominator other than zero the division returns: the magnitude is that of the exact
-- quotient rounded to the nearest whole number, away from zero at a half, and the sign is the exact
-- quotient's.
pub divide_round_half_up-IsRounded :
    (n d : ℤ)
    → d ≢ pos 0
    → (q : ℕ) × IsRounded (nat_abs n) (nat_abs d) q
      × (divide_round_half_up n d ≡ ok (with_sign (below_zero n d) q))
unfolding divide_round_half_up
divide_round_half_up-IsRounded n (pos d) h =
    let (q, rounded, e) = round_positive_lem n d (grind arith) in (q, rounded, ground arith)
divide_round_half_up-IsRounded n (negsuc d) h =
    let (q, rounded, e) = round_positive_lem (neg n) (suc d) (omega arith) in
    (q, rw (nat_abs-neg n) at rounded, ground (arith, neg_parts n, neg-negsuc d))

half_below : (p : ℕ) → (0 * 2 + p) / (p * 2) ≡ 0
half_below zero = refl
half_below (suc p) = div-eq_of_lt (omega arith)

round_positive-neg : (n d : ℤ) → round_positive (neg n) d ≡ neg (round_positive n d)
unfolding round_positive neg
round_positive-neg (pos zero) d = ground (arith, half_below (pos_part d))
round_positive-neg (pos (suc n)) d = ground arith
round_positive-neg (negsuc n) d = ground arith

-- A credit and a charge of one magnitude round to one magnitude.
pub divide_round_half_up-neg :
    (n d : ℤ) → divide_round_half_up (neg n) d ≡ (divide_round_half_up n d >>= λ r. ok (neg r))
unfolding divide_round_half_up
divide_round_half_up-neg n d =
    ground (arith, round_positive-neg n d, round_positive-neg (neg n) (neg d))
