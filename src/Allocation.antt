-- ===== src/Allocation.antt =====
-- `allocate` of packages/shared/src/money/money.ts: an amount split in proportion to weights.
-- The weights are doubles; what the code asks of them is a parameter. The remainder is an integer, and
-- the loop makes one round for each unit of it.
pub mod Parts
pub mod Exact
use multi_brand_invoicing.Prelude.Outcome.{Result, err, ok, throw_if, ◌>>=◌, ◌>>◌}
use multi_brand_invoicing.Prelude.{
  Bool, List, [], any, if◌then◌else◌, length, map, not, suc, zero, ℕ, ◌%◌, ◌+◌, ◌/◌, ◌==◌, ◌||◌,
  ◌∷◌,
}
use multi_brand_invoicing.Prelude.Int.{leb_ℤ, nat_abs, neg, negsuc, pos, ℤ, ◌*ℤ◌}
use multi_brand_invoicing.Prelude.Double.{JsNumber, js_add, js_sub}
use multi_brand_invoicing.Money.{Checked, MoneyError, assert_minor, to_safe_number}

-- The operations on doubles: the tests, the sum of a list, and `Math.round(w * 1_000_000)` of a weight
-- that is finite and not negative.
pub record Weights : Type 1 where
  pub Weight : Type 0
  pub is_finite : Weight → Bool
  pub is_below_zero : Weight → Bool
  pub sums_to_zero : List Weight → Bool
  pub millionths : Weight → ℕ

pub data AllocationError : Type 0 where
  no_weights invalid_weight : AllocationError
  amount_error : MoneyError → AllocationError

-- `values.reduce((a, b) => a + b, 0)` on integers
unfoldable pub js_sum_from : ℤ → List ℤ → ℤ
js_sum_from acc [] = acc
js_sum_from acc (v ∷ values) = js_sum_from (js_add acc v) values

-- The quotient of BigInt, cut toward zero, by a positive number.
unfoldable pub quotient : ℤ → ℕ → ℤ
quotient (pos n) d = pos (n / d)
quotient (negsuc n) d = neg (pos (suc n / d))

-- `scaledTotal === 0 ? 1 : scaledTotal`
abbrev pub divisor_of : ℕ → ℕ
divisor_of total = if total == 0 then 1 else total

unfoldable pub base_shares : ℤ → ℕ → List ℕ → Checked (List ℤ)
unfolding quotient to_safe_number
base_shares amount total [] = ok []
base_shares amount total (w ∷ ws) = do
  share ← to_safe_number (quotient (amount *ℤ pos w) (divisor_of total))
  rest ← base_shares amount total ws
  ok (share ∷ rest)

-- `result[i] += step`
unfoldable pub add_at : ℕ → ℤ → List ℤ → List ℤ
add_at i step [] = []
add_at zero step (v ∷ values) = js_add v step ∷ values
add_at (suc i) step (v ∷ values) = v ∷ add_at i step values

-- The loop: a round for each unit of the remainder, from slot `i` of `n`.
unfoldable pub spread : ℕ → ℤ → ℕ → ℕ → List ℤ → List ℤ
unfolding add_at
spread zero step n i values = values
spread (suc rounds) step n i values = spread rounds step n ((i + 1) % n) (add_at i step values)

abbrev pub step_of : ℤ → ℤ
step_of remainder = if leb_ℤ (pos 0) remainder then pos 1 else negsuc 0

-- `allocate` from its scaled weights on.
unfoldable pub allocate_scaled : ℤ → ℕ → List ℕ → Checked (List ℤ)
unfolding base_shares js_sum_from spread
allocate_scaled amount total scaled = do
  base ← base_shares amount total scaled
  let remainder = js_sub amount (js_sum_from (pos 0) base)
  ok (spread (nat_abs remainder) (step_of remainder) (length base) 0 base)

-- All to the first slot.
abbrev pub first_takes : {A : Type 0} → ℤ → List A → List ℤ
first_takes amount [] = []
first_takes amount (w ∷ ws) = amount ∷ map (λ _. pos 0) ws

abbrev pub or_amount_error : {A : Type 0} → Checked A → Result AllocationError A
or_amount_error (ok a) = ok a
or_amount_error (err e) = err (amount_error e)

module _ (W : Weights) where
  open W use {Weight, is_finite, is_below_zero, sums_to_zero, millionths}

  -- `weights.some((w) => !Number.isFinite(w) || w < 0)`
  abbrev pub is_invalid : Weight → Bool
  is_invalid w = not (is_finite w) || is_below_zero w

  abbrev pub scaled_of : List Weight → List ℕ
  scaled_of weights = map millionths weights

  abbrev pub scaled_total : List ℕ → ℕ
  scaled_total scaled = nat_abs (js_sum_from (pos 0) (map pos scaled))

  abbrev pub share_out : ℤ → List Weight → Result AllocationError (List ℤ)
  share_out a weights =
      if sums_to_zero weights
      then ok (first_takes a weights)
      else or_amount_error
          (allocate_scaled a (scaled_total (scaled_of weights)) (scaled_of weights))

  unfoldable pub allocate : JsNumber → List Weight → Result AllocationError (List ℤ)
  unfolding allocate_scaled assert_minor js_sum_from
  allocate amount weights = do
    a ← or_amount_error (assert_minor amount)
    throw_if (length weights == 0) no_weights
    throw_if (any is_invalid weights) invalid_weight
    share_out a weights
