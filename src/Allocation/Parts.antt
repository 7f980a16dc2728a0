-- ===== src/Allocation/Parts.antt =====
-- The shares as magnitudes with the sign of the amount.
use multi_brand_invoicing.Prelude.Outcome.{ok}
use multi_brand_invoicing.Prelude.{
  Bool, Bool-cases, List, [], ap, arith, false, inl, inr, length, map, refl, suc, sym, true, zero,
  ℕ, ◌%◌, ◌*◌, ◌+◌, ◌/◌, ◌<◌, ◌==◌, ◌∙◌, ◌∷◌, ◌≡◌, ◌≤◌,
}
use multi_brand_invoicing.Prelude.Int.{
  int_laws, nat_abs, neg, neg_parts, negsuc, pos, ℤ, ◌*ℤ◌, ◌+ℤ◌, ◌-ℤ◌,
}
use multi_brand_invoicing.Prelude.Double.{
  IsSafe, is_safe, js_add, js_add_of_IsSafe, js_sub, js_sub_of_IsSafe, max_safe_integer,
}
use native.Mathlib.Nat.{div-add-mod}
use multi_brand_invoicing.Money.{to_safe_number}
use multi_brand_invoicing.Money.Round.{with_sign}
use multi_brand_invoicing.Allocation.{
  add_at, base_shares, divisor_of, js_sum_from, quotient, spread,
}

abbrev pub total : List ℕ → ℕ
total [] = 0
total (n ∷ ns) = n + total ns

abbrev pub signed : Bool → List ℕ → List ℤ
signed b ns = map (with_sign b) ns

-- The magnitudes of the shares before the remainder is spread.
abbrev pub floors : ℕ → ℕ → List ℕ → List ℕ
floors m d [] = []
floors m d (w ∷ ws) = m * w / d ∷ floors m d ws

-- One slot more by one, and the loop on magnitudes.
abbrev pub bump : ℕ → List ℕ → List ℕ
bump i [] = []
bump zero (n ∷ ns) = (n + 1) ∷ ns
bump (suc i) (n ∷ ns) = n ∷ bump i ns

abbrev pub bump_round : ℕ → ℕ → ℕ → List ℕ → List ℕ
bump_round zero n i ns = ns
bump_round (suc rounds) n i ns = bump_round rounds n ((i + 1) % n) (bump i ns)

total-bump : (i : ℕ) (ns : List ℕ) → i < length ns → total (bump i ns) ≡ total ns + 1
total-bump i [] h = omega arith
total-bump zero (n ∷ ns) h = omega arith
total-bump (suc i) (n ∷ ns) h = omega (arith, total-bump i ns)

length-bump : (i : ℕ) (ns : List ℕ) → length (bump i ns) ≡ length ns
length-bump i [] = refl
length-bump zero (n ∷ ns) = refl
length-bump (suc i) (n ∷ ns) = omega (arith, length-bump i ns)

next_slot : (i n : ℕ) → i < n → (i + 1) % n < n
next_slot i n h = grind arith

pub total-bump_round :
    (rounds n i : ℕ) (ns : List ℕ)
    → n ≡ length ns
    → i < n
    → (total (bump_round rounds n i ns) ≡ total ns + rounds)
      × (length (bump_round rounds n i ns) ≡ n)
total-bump_round zero n i ns e h = (omega arith, sym e)
total-bump_round (suc rounds) n i ns e h = omega (
  arith,
  total-bump_round rounds n ((i + 1) % n) (bump i ns) (e ∙ sym (length-bump i ns))
      (next_slot i n h),
  total-bump i ns (omega arith),
)

-- The shares leave no negative remainder.
floors-le : (m d : ℕ) (ws : List ℕ) → 0 < d → d * total (floors m d ws) ≤ m * total ws
floors-le m d [] h = omega arith
floors-le m d (w ∷ ws) h = grind (arith, floors-le m d ws h, div-add-mod (m * w) d)

floors-zero : (m d : ℕ) (ws : List ℕ) → total ws ≡ 0 → total (floors m d ws) ≡ 0
floors-zero m d [] h = refl
floors-zero m d (w ∷ ws) h =
    let none_here : w ≡ 0 = omega arith in
    rw none_here (grind (arith, floors-zero m d ws (omega arith)))

cancel_left : (d x y : ℕ) → 0 < d → d * x ≤ y * d → x ≤ y
cancel_left d x y h k = grind arith

pub floors-total : (m : ℕ) (ws : List ℕ) → total (floors m (divisor_of (total ws)) ws) ≤ m
floors-total m ws = elim (Bool-cases (total ws == 0)) [
  | inl zero_total ↦ rw zero_total (omega (arith, floors-zero m 1 ws (ground arith)))
  | inr some_total ↦
      let some_weight : 0 < total ws = ground arith in
      rw some_total (
        cancel_left (total ws) (total (floors m (total ws) ws)) m some_weight
          (floors-le m (total ws) ws some_weight))
]

pub length-floors : (m d : ℕ) (ws : List ℕ) → length (floors m d ws) ≡ length ws
length-floors m d [] = refl
length-floors m d (w ∷ ws) = omega (arith, length-floors m d ws)

-- Sums, differences and shares of one sign, as long as they are safe.
pub nat_abs-with_sign : (b : Bool) (n : ℕ) → nat_abs (with_sign b n) ≡ n
unfolding neg
nat_abs-with_sign true n = ground arith
nat_abs-with_sign false n = refl

with_sign_sum : (b : Bool) (k n : ℕ) → with_sign b k +ℤ with_sign b n ≡ with_sign b (k + n)
with_sign_sum true k n =
    grind (int_laws, neg_parts (pos k), neg_parts (pos n), neg_parts (pos (k + n)))
with_sign_sum false k n = grind int_laws

with_sign_difference :
    (b : Bool) (k n r : ℕ) → k ≡ n + r → with_sign b k -ℤ with_sign b n ≡ with_sign b r
with_sign_difference true k n r e =
    grind (int_laws, neg_parts (pos k), neg_parts (pos n), neg_parts (pos r))
with_sign_difference false k n r e = grind int_laws

js_add-with_sign :
    (b : Bool) (k n : ℕ)
    → k + n ≤ max_safe_integer
    → js_add (with_sign b k) (with_sign b n) ≡ with_sign b (k + n)
js_add-with_sign b k n h =
    let e = with_sign_sum b k n in
    let safe : IsSafe (with_sign b k +ℤ with_sign b n) = rw (e, nat_abs-with_sign b (k + n)) h in
    js_add_of_IsSafe (with_sign b k) (with_sign b n) safe ∙ e

pub js_sub-with_sign :
    (b : Bool) (k n r : ℕ)
    → k ≡ n + r
    → k ≤ max_safe_integer
    → js_sub (with_sign b k) (with_sign b n) ≡ with_sign b r
js_sub-with_sign b k n r e h =
    let d = with_sign_difference b k n r e in
    let safe : IsSafe (with_sign b k -ℤ with_sign b n) =
      rw (d, nat_abs-with_sign b r) (omega arith) in
    js_sub_of_IsSafe (with_sign b k) (with_sign b n) safe ∙ d

pub js_sum_from-signed :
    (b : Bool) (k : ℕ) (ns : List ℕ)
    → k + total ns ≤ max_safe_integer
    → js_sum_from (with_sign b k) (signed b ns) ≡ with_sign b (k + total ns)
unfolding js_sum_from
js_sum_from-signed b k [] h = ap (with_sign b) (omega arith)
js_sum_from-signed b k (n ∷ ns) h =
    ap (λ z. js_sum_from z (signed b ns)) (js_add-with_sign b k n (omega arith))
    ∙ js_sum_from-signed b (k + n) ns (omega arith)
    ∙ ap (with_sign b) (omega arith)

times-with_sign : (b : Bool) (m w : ℕ) → with_sign b m *ℤ pos w ≡ with_sign b (m * w)
unfolding ◌*ℤ◌ neg
times-with_sign true m w = ground arith
times-with_sign false m w = ground arith

quotient-neg : (k d : ℕ) → 0 < d → quotient (neg (pos k)) d ≡ neg (pos (k / d))
unfolding quotient neg
quotient-neg zero d h = let nothing : 0 / d ≡ 0 = omega arith in rw nothing refl
quotient-neg (suc k) d h =
    let below : neg (pos (suc k)) ≡ negsuc k = ground arith in ap (λ z. quotient z d) below

quotient-with_sign :
    (b : Bool) (m w d : ℕ) → 0 < d → quotient (with_sign b m *ℤ pos w) d ≡ with_sign b (m * w / d)
unfolding quotient
quotient-with_sign true m w d h =
    ap (λ z. quotient z d) (times-with_sign true m w) ∙ quotient-neg (m * w) d h
quotient-with_sign false m w d h = ap (λ z. quotient z d) (times-with_sign false m w)

divisor_of-some : (t : ℕ) → 0 < divisor_of t
divisor_of-some t = ground arith

-- The shares that the code rounds toward zero.
pub base_shares-signed :
    (b : Bool) (m t : ℕ) (ws : List ℕ)
    → total (floors m (divisor_of t) ws) ≤ max_safe_integer
    → base_shares (with_sign b m) t ws ≡ ok (signed b (floors m (divisor_of t) ws))
unfolding base_shares to_safe_number
base_shares-signed b m t [] h = refl
base_shares-signed b m t (w ∷ ws) h =
    let safe : is_safe (with_sign b (m * w / divisor_of t)) ≡ true =
      rw (nat_abs-with_sign b (m * w / divisor_of t)) (ground arith) in
    let rest = base_shares-signed b m t ws (omega arith) in
    rw (quotient-with_sign b m w (divisor_of t) (divisor_of-some t), safe, rest) refl

add_at-signed :
    (b : Bool) (i : ℕ) (ns : List ℕ)
    → total ns < max_safe_integer
    → add_at i (with_sign b 1) (signed b ns) ≡ signed b (bump i ns)
unfolding add_at
add_at-signed b i [] h = refl
add_at-signed b zero (n ∷ ns) h = rw (js_add-with_sign b n 1 (omega arith)) refl
add_at-signed b (suc i) (n ∷ ns) h = rw (add_at-signed b i ns (omega arith)) refl

pub spread-signed :
    (b : Bool) (rounds n i : ℕ) (ns : List ℕ)
    → n ≡ length ns
    → i < n
    → total ns + rounds ≤ max_safe_integer
    → spread rounds (with_sign b 1) n i (signed b ns) ≡ signed b (bump_round rounds n i ns)
unfolding spread
spread-signed b zero n i ns e h s = refl
spread-signed b (suc rounds) n i ns e h s = rw (add_at-signed b i ns (omega arith)) (
    spread-signed b rounds n ((i + 1) % n) (bump i ns) (e ∙ sym (length-bump i ns))
      (next_slot i n h) (omega (arith, total-bump i ns (omega arith))))
