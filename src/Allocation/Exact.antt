-- ===== src/Allocation/Exact.antt =====
-- No minor unit is lost or invented by allocate.
use multi_brand_invoicing.Prelude.{
  Bool, Bool-cases, List, [], any, ap, arith, false, inl, inr, length, map, ok, refl, suc, sym,
  true, zero, ℕ, ◌+◌, ◌-◌, ◌<◌, ◌==◌, ◌∙◌, ◌∷◌, ◌≡◌, ◌≤◌,
}
use multi_brand_invoicing.Prelude.Int.{+ℤ_zero, ltb_ℤ, nat_abs, neg, negsuc, pos, zero_+ℤ, ℤ, ◌+ℤ◌}
use multi_brand_invoicing.Prelude.Double.{
  IsSafe, int, is_safe, js_add, js_add_of_IsSafe, js_sub, max_safe_integer,
}
use multi_brand_invoicing.Money.Round.{with_sign}
use multi_brand_invoicing.Allocation.{
  Weights, allocate, allocate_scaled, divisor_of, first_takes, is_invalid, js_sum_from, scaled_of,
  share_out, spread, step_of,
}
use multi_brand_invoicing.Allocation.Parts.{
  base_shares-signed, bump_round, floors, floors-total, js_sub-with_sign, js_sum_from-signed,
  length-floors, nat_abs-with_sign, signed, spread-signed, total, total-bump_round,
}

-- The magnitudes of the shares: the rounded ones, and the remainder spread over them.
abbrev pub shares_of : ℕ → List ℕ → List ℕ
shares_of m ws =
    let base = floors m (divisor_of (total ws)) ws in bump_round (m - total base) (length ws) 0 base

pub total-shares_of :
    (m : ℕ) (ws : List ℕ)
    → 0 < length ws
    → (total (shares_of m ws) ≡ m) × (length (shares_of m ws) ≡ length ws)
total-shares_of m ws some_weight =
    let base = floors m (divisor_of (total ws)) ws in
    let (t, l) =
      total-bump_round (m - total base) (length ws) 0 base
        (sym (length-floors m (divisor_of (total ws)) ws)) some_weight in
    (omega (arith, t, floors-total m ws), l)

step_of-with_sign : (b : Bool) (r : ℕ) → step_of (with_sign b (suc r)) ≡ with_sign b 1
unfolding neg
step_of-with_sign true r = ground arith
step_of-with_sign false r = ground arith

spread_remainder :
    (b : Bool) (r n : ℕ) (ns : List ℕ)
    → n ≡ length ns
    → 0 < n
    → total ns + r ≤ max_safe_integer
    → spread (nat_abs (with_sign b r)) (step_of (with_sign b r)) n 0 (signed b ns)
      ≡ signed b (bump_round r n 0 ns)
unfolding spread
spread_remainder b zero n ns e h s = rw (nat_abs-with_sign b 0) refl
spread_remainder b (suc r) n ns e h s =
    rw (nat_abs-with_sign b (suc r), step_of-with_sign b r) (spread-signed b (suc r) n 0 ns e h s)

signed_zero : (b : Bool) → pos 0 ≡ with_sign b 0
unfolding neg
signed_zero true = refl
signed_zero false = refl

length-signed : (b : Bool) (ns : List ℕ) → length (signed b ns) ≡ length ns
length-signed b [] = refl
length-signed b (n ∷ ns) = omega (arith, length-signed b ns)

js_sum-signed :
    (b : Bool) (ns : List ℕ)
    → total ns ≤ max_safe_integer
    → js_sum_from (pos 0) (signed b ns) ≡ with_sign b (total ns)
js_sum-signed b ns h =
    ap (λ z. js_sum_from z (signed b ns)) (signed_zero b)
    ∙ js_sum_from-signed b 0 ns (omega arith)
    ∙ ap (with_sign b) (omega arith)

allocate_scaled_lem :
    (b : Bool) (m : ℕ) (ws : List ℕ)
    → 0 < length ws
    → m ≤ max_safe_integer
    → allocate_scaled (with_sign b m) (total ws) ws ≡ ok (signed b (shares_of m ws))
unfolding allocate_scaled
allocate_scaled_lem b m ws some_weight safe =
    let base = floors m (divisor_of (total ws)) ws in
    let below : total base ≤ m = floors-total m ws in
    let summed : js_sum_from (pos 0) (signed b base) ≡ with_sign b (total base) =
      js_sum-signed b base (omega arith) in
    let left : js_sub (with_sign b m) (with_sign b (total base)) ≡ with_sign b (m - total base) =
      js_sub-with_sign b m (total base) (m - total base) (omega arith) safe in
    let same : length (signed b base) ≡ length ws =
      length-signed b base ∙ length-floors m (divisor_of (total ws)) ws in
    rw (base_shares-signed b m (total ws) ws (omega arith), summed, left, same)
      (ap ok (
        spread_remainder b (m - total base) (length ws) base
          (sym (length-floors m (divisor_of (total ws)) ws)) some_weight (omega arith)))

with_sign_of : (a : ℤ) → with_sign (ltb_ℤ a (pos 0)) (nat_abs a) ≡ a
unfolding neg
with_sign_of (pos n) = ground arith
with_sign_of (negsuc n) = ground arith

-- All to the first slot.
js_sum_zeros :
    {A : Type 0} (a : ℤ) (ws : List A) → IsSafe a → js_sum_from a (map (λ _. pos 0) ws) ≡ a
unfolding js_sum_from
js_sum_zeros a [] h = refl
js_sum_zeros a (w ∷ ws) h =
    let same : a +ℤ pos 0 ≡ a = sym (+ℤ_zero a) in
    let kept : js_add a (pos 0) ≡ a = js_add_of_IsSafe a (pos 0) (rw same h) ∙ same in
    ap (λ z. js_sum_from z (map (λ _. pos 0) ws)) kept ∙ js_sum_zeros a ws h

length-zeros : {A : Type 0} (ws : List A) → length (map {B = ℤ} (λ _. pos 0) ws) ≡ length ws
length-zeros [] = refl
length-zeros (w ∷ ws) = omega (arith, length-zeros ws)

first_takes-sum :
    {A : Type 0} (a : ℤ) (ws : List A)
    → IsSafe a
    → 0 < length ws
    → (length (first_takes a ws) ≡ length ws) × (js_sum_from (pos 0) (first_takes a ws) ≡ a)
unfolding js_sum_from
first_takes-sum a [] h k = absurd (omega arith)
first_takes-sum a (w ∷ ws) h k =
    let same : pos 0 +ℤ a ≡ a = zero_+ℤ a in
    let first : js_add (pos 0) a ≡ a = js_add_of_IsSafe (pos 0) a (rw same h) ∙ same in
    (
      omega (arith, length-zeros ws),
      ap (λ z. js_sum_from z (map (λ _. pos 0) ws)) first ∙ js_sum_zeros a ws h,
    )

-- The shares from the scaled weights on.
allocate_scaled-sum :
    (a : ℤ) (ws : List ℕ)
    → IsSafe a
    → 0 < length ws
    → (shares : List ℤ) × (allocate_scaled a (total ws) ws ≡ ok shares)
      × (length shares ≡ length ws)
      × (js_sum_from (pos 0) shares ≡ a)
allocate_scaled-sum a ws safe some_weight =
    let b = ltb_ℤ a (pos 0) in
    let m = nat_abs a in
    let (t, l) = total-shares_of m ws some_weight in
    (
      signed b (shares_of m ws),
      ap (λ z. allocate_scaled z (total ws) ws) (sym (with_sign_of a))
          ∙ allocate_scaled_lem b m ws some_weight safe,
      length-signed b (shares_of m ws) ∙ l,
      js_sum-signed b (shares_of m ws) (omega (arith, t)) ∙ ap (with_sign b) t ∙ with_sign_of a,
    )

length-scaled_of : {A : Type 0} (f : A → ℕ) (ws : List A) → length (map f ws) ≡ length ws
length-scaled_of f [] = refl
length-scaled_of f (w ∷ ws) = omega (arith, length-scaled_of f ws)

scaled_total_lem :
    (ws : List ℕ)
    → total ws ≤ max_safe_integer
    → nat_abs (js_sum_from (pos 0) (map pos ws)) ≡ total ws
scaled_total_lem ws h = ap nat_abs (js_sum-signed false ws h)

module _ (W : Weights) where
  open W use {Weight, is_finite, is_below_zero, sums_to_zero, millionths}

  share_out-sum :
      (a : ℤ) (weights : List Weight)
      → IsSafe a
      → 0 < length weights
      → total (scaled_of W weights) ≤ max_safe_integer
      → (shares : List ℤ) × (share_out W a weights ≡ ok shares)
        × (length shares ≡ length weights)
        × (js_sum_from (pos 0) shares ≡ a)
  share_out-sum a weights safe some_weight modest = elim (Bool-cases (sums_to_zero weights)) [
    | inl no_signal ↦
        let (l, t) = first_takes-sum a weights safe some_weight in
        (first_takes a weights, rw no_signal refl, l, t)
    | inr signal ↦
        let same = length-scaled_of millionths weights in
        let (shares, e, l, t) =
          allocate_scaled-sum a (scaled_of W weights) safe (omega (arith, same)) in
        (shares, rw (signal, scaled_total_lem (scaled_of W weights) modest, e) refl, l ∙ same, t)
  ]

  -- Any safe amount, whatever its sign, over a list of weights that is not empty, whose weights are
  -- finite and not negative and whose scaled weights have a safe sum: the call returns as many shares as
  -- there are weights, and they sum exactly to the amount.
  pub allocate-sum :
      (a : ℤ) (weights : List Weight)
      → IsSafe a
      → 0 < length weights
      → any (is_invalid W) weights ≡ false
      → total (scaled_of W weights) ≤ max_safe_integer
      → (shares : List ℤ) × (allocate W (int a) weights ≡ ok shares)
        × (length shares ≡ length weights)
        × (js_sum_from (pos 0) shares ≡ a)
  unfolding allocate
  allocate-sum a weights safe some_weight valid modest =
      let is_safe_amount : is_safe a ≡ true = ground arith in
      let listed : (length weights == 0) ≡ false = ground arith in
      let (shares, e, l, t) = share_out-sum a weights safe some_weight modest in
      (shares, rw (is_safe_amount, listed, valid) e, l, t)
