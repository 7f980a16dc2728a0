-- ===== src/Calculation/Bounds.antt =====
-- Within business limits a calculation returns, and none of its figures is negative.
use multi_brand_invoicing.Prelude.{
  All, Bool, Bool-cases, List, Option, [], ap, arith, inl, inr, length, ok, refl, suc, traverse, ℕ,
  ◌*◌, ◌+◌, ◌/◌, ◌^◌, ◌∙◌, ◌∷◌, ◌≡◌, ◌≤◌,
}
use multi_brand_invoicing.Prelude.Int.{nat_abs, pos, ◌*ℤ◌, ◌+ℤ◌, ◌-ℤ◌, ◌≤ℤ◌}
use multi_brand_invoicing.Prelude.Double.{
  IsSafe, int, js_add, js_add_of_IsSafe, js_sub, max_safe_integer,
}
use multi_brand_invoicing.Money.{
  apply_basis_points, assert_basis_points, assert_minor, divide_round_half_up, round_positive,
  to_safe_number,
}
use multi_brand_invoicing.Calculation.{
  CalculationInput, CalculationLineInput, CalculationLineResult, CalculationResult, PaymentMethod,
  assert_quantity, calculate, calculate_line, calculate_line_total, card_fee, incurs_card_fee,
  is_true, line_totals, or_zero, sum, sum_from, taxable,
}
use multi_brand_invoicing.Calculation.Figures.{IsBreakdown, calculate-IsBreakdown}

-- A line whose amount is at most 5 * 10 ^ 10 minor units.
pub data IsModestLine : CalculationLineInput → Type 0 where
  modest :
      (q p : ℕ) (exempt : Option Bool)
      → q ≤ max_safe_integer
      → p ≤ max_safe_integer
      → q * p ≤ 5 * 10 ^ 14
      → IsModestLine
          (record { quantity = int (pos q); unit_price_minor = int (pos p); tax_exempt = exempt })

-- The rounded share of an amount, as a number.
abbrev pub rounded : ℕ → ℕ → ℕ
rounded m d = (m * 2 + d) / (d * 2)

round_positive_pos : (m d : ℕ) → round_positive (pos m) (pos d) ≡ pos (rounded m d)
unfolding round_positive
round_positive_pos m d = ground arith

*ℤ_pos : (a b : ℕ) → pos a *ℤ pos b ≡ pos (a * b)
unfolding ◌*ℤ◌
*ℤ_pos a b = ground arith

calculate_line_modest :
    (q p : ℕ) (e : Option Bool)
    → q ≤ max_safe_integer
    → p ≤ max_safe_integer
    → q * p ≤ 5 * 10 ^ 14
    → calculate_line
        (record { quantity = int (pos q); unit_price_minor = int (pos p); tax_exempt = e })
      ≡ ok (record { line_total_minor = pos (rounded (q * p) 10_000); tax_exempt = is_true e })
unfolding calculate_line calculate_line_total assert_quantity assert_minor divide_round_half_up
calculate_line_modest q p e hq hp h = ground (arith, round_positive_pos (q * p) 10_000, *ℤ_pos q p)

-- The greatest amount of a modest line.
abbrev line_limit : ℕ
line_limit = 5 * 10 ^ 10

abbrev IsModestResult : CalculationLineResult → Type 0
IsModestResult l = (n : ℕ) × (l.line_total_minor ≡ pos n) × (n ≤ line_limit)

calculate_line-IsModestResult :
    (line : CalculationLineInput)
    → IsModestLine line
    → (l : CalculationLineResult) × (calculate_line line ≡ ok l) × IsModestResult l
calculate_line-IsModestResult line (modest q p e hq hp h) = (
  record { line_total_minor = pos (rounded (q * p) 10_000); tax_exempt = is_true e },
  calculate_line_modest q p e hq hp h,
  (rounded (q * p) 10_000, refl, omega arith),
)

traverse-IsModestResult :
    (lines : List CalculationLineInput)
    → All IsModestLine lines
    → (ls : List CalculationLineResult) × (traverse calculate_line lines ≡ ok ls)
      × All IsModestResult ls
      × (length ls ≡ length lines)
traverse-IsModestResult [] h = ([], refl, tt, refl)
traverse-IsModestResult (line ∷ lines) (h, hs) =
    let (l, e, m) = calculate_line-IsModestResult line h in
    let (ls, es, ms, n) = traverse-IsModestResult lines hs in
    (l ∷ ls, rw (e, es) refl, (m, ms), ap suc n)

-- The amounts of computed lines, added up as numbers.
abbrev amounts : List CalculationLineResult → ℕ
amounts [] = 0
amounts (l ∷ ls) = nat_abs l.line_total_minor + amounts ls

amounts-le :
    (ls : List CalculationLineResult) → All IsModestResult ls → amounts ls ≤ line_limit * length ls
amounts-le [] h = omega arith
amounts-le (l ∷ ls) ((n, e, b), hs) = rw e (omega (arith, amounts-le ls hs))

taxable-IsModestResult :
    (ls : List CalculationLineResult)
    → All IsModestResult ls
    → All IsModestResult (taxable ls)
      × (amounts (taxable ls) ≤ amounts ls)
      × (length (taxable ls) ≤ length ls)
taxable-IsModestResult [] h = (tt, omega arith, omega arith)
taxable-IsModestResult (l ∷ ls) (h, hs) =
    let (ms, le, shorter) = taxable-IsModestResult ls hs in
    elim (Bool-cases l.tax_exempt) [
      | inl e ↦ rw e (ms, omega arith, omega arith)
      | inr e ↦ rw e ((h, ms), omega arith, omega arith)
    ]

+ℤ_pos : (a b : ℕ) → pos a +ℤ pos b ≡ pos (a + b)
unfolding ◌+ℤ◌
+ℤ_pos a b = ground arith

sum_from_modest :
    (acc : ℕ) (ls : List CalculationLineResult)
    → All IsModestResult ls
    → sum_from (pos acc) (line_totals ls) ≡ ok (pos (acc + amounts ls))
unfolding sum_from assert_minor
sum_from_modest acc [] h = ground arith
sum_from_modest acc (l ∷ ls) ((n, e, b), hs) =
    rw e (ground (arith, +ℤ_pos acc n, sum_from_modest (acc + n) ls hs))

sum_modest :
    (ls : List CalculationLineResult)
    → All IsModestResult ls
    → length ls ≤ 1_000
    → sum (line_totals ls) ≡ ok (pos (amounts ls))
unfolding sum
sum_modest ls h k = ground (arith, sum_from_modest 0 ls h, amounts-le ls h)

apply_basis_points_modest :
    (a r : ℕ)
    → a ≤ 6 * 10 ^ 14
    → r ≤ 100_000
    → (v : ℕ) × (apply_basis_points (int (pos a)) (int (pos r)) ≡ ok (pos v)) × (v ≤ 10 * a + 1)
unfolding apply_basis_points assert_minor assert_basis_points to_safe_number divide_round_half_up
apply_basis_points_modest a r ha hr =
    let m : a * r ≤ a * 100_000 = grind arith in
    (
      rounded (a * r) 10_000,
      ground (arith, round_positive_pos (a * r) 10_000, *ℤ_pos a r),
      omega arith,
    )

card_fee_modest :
    (m : PaymentMethod) (a r : ℕ)
    → a ≤ 6 * 10 ^ 14
    → r ≤ 100_000
    → (v : ℕ) × (card_fee m (pos a) (pos r) ≡ ok (pos v)) × (v ≤ 10 * a + 1)
unfolding card_fee
card_fee_modest m a r ha hr = elim (Bool-cases (incurs_card_fee m)) [
  | inl fee ↦ rw fee (apply_basis_points_modest a r ha hr)
  | inr none_due ↦ rw none_due (0, refl, omega arith)
]

js_add_pos : (a b : ℕ) → a + b ≤ max_safe_integer → js_add (pos a) (pos b) ≡ pos (a + b)
js_add_pos a b h = js_add_of_IsSafe (pos a) (pos b) (rw (+ℤ_pos a b) h) ∙ +ℤ_pos a b

-- An input within business limits: lines of at most 5 * 10 ^ 10 minor units, at most 1,000 of them,
-- rates up to the 1,000% that the request schema admits, and a settled amount up to 10 ^ 15.
pub record IsModest (input : CalculationInput) : Type 0 where
  pub lines : All IsModestLine input.lines
  pub count : length input.lines ≤ 1_000
  pub tax_rate : (t : ℕ) × (input.tax_rate_bp ≡ int (pos t)) × (t ≤ 100_000)
  pub fee_rate : (f : ℕ) × (input.card_fee_rate_bp ≡ int (pos f)) × (f ≤ 100_000)
  pub settled : (s : ℕ) × (or_zero input.settled_minor ≡ int (pos s)) × (s ≤ 10 ^ 15)

pub record IsOrdered (r : CalculationResult) : Type 0 where
  pub base : pos 0 ≤ℤ r.taxable_base_minor
  pub subtotal : r.taxable_base_minor ≤ℤ r.subtotal_minor
  pub tax : pos 0 ≤ℤ r.tax_minor
  pub pre_fee : r.subtotal_minor ≤ℤ r.pre_fee_total_minor
  pub fee : pos 0 ≤ℤ r.card_fee_minor
  pub total : r.pre_fee_total_minor ≤ℤ r.total_minor

js_sub_pos-IsSafe :
    (a b : ℕ) → a ≤ max_safe_integer → b ≤ max_safe_integer → IsSafe (pos a -ℤ pos b)
unfolding ◌-ℤ◌
js_sub_pos-IsSafe a b ha hb = ground arith

-- The rates and the settled amount of a modest input.
module _ (input : CalculationInput) (t f s : ℕ) (ht : t ≤ 100_000) (hf : f ≤ 100_000)
    (hs : s ≤ 10 ^ 15) (et : input.tax_rate_bp ≡ int (pos t))
    (ef : input.card_fee_rate_bp ≡ int (pos f))
    (es : or_zero input.settled_minor ≡ int (pos s)) where
  -- The calculation, once the lines are computed.
  calculate_from :
      (ls : List CalculationLineResult)
      → traverse calculate_line input.lines ≡ ok ls
      → All IsModestResult ls
      → length ls ≤ 1_000
      → (r : CalculationResult) × (calculate input ≡ ok r)
        × IsOrdered r
        × IsSafe (r.subtotal_minor +ℤ r.tax_minor)
        × IsSafe (r.subtotal_minor +ℤ r.tax_minor +ℤ r.card_fee_minor)
        × IsSafe (r.total_minor -ℤ r.settled_minor)
  unfolding calculate assert_basis_points assert_minor
  calculate_from ls el hl hc =
      let all = amounts-le ls hl in
      let (ms, base_le, shorter) = taxable-IsModestResult ls hl in
      let (tax, ea, tax_le) = apply_basis_points_modest (amounts (taxable ls)) t (omega arith) ht in
      let (fee, ed, fee_le) =
        card_fee_modest input.payment_method (amounts ls + tax) f (omega arith) hf in
      let pre = js_add_pos (amounts ls) tax (omega arith) in
      let total = js_add_pos (amounts ls + tax) fee (omega arith) in
      let r : CalculationResult = record {
        lines = ls;
        subtotal_minor = pos (amounts ls);
        taxable_base_minor = pos (amounts (taxable ls));
        tax_rate_bp_applied = pos t;
        tax_minor = pos tax;
        pre_fee_total_minor = pos (amounts ls + tax);
        card_fee_rate_bp_applied = pos f;
        card_fee_minor = pos fee;
        card_fee_applied = incurs_card_fee input.payment_method;
        total_minor = pos (amounts ls + tax + fee);
        settled_minor = pos s;
        balance_minor = js_sub (pos (amounts ls + tax + fee)) (pos s);
      } in
      (
        r,
        ground (arith, el, sum_modest ls hl hc, sum_modest (taxable ls) ms, ea, ed, pre, total),
        omega arith,
        rw (+ℤ_pos (amounts ls) tax) (omega arith),
        rw (+ℤ_pos (amounts ls) tax, +ℤ_pos (amounts ls + tax) fee) (omega arith),
        js_sub_pos-IsSafe (amounts ls + tax + fee) s (omega arith) (omega arith),
      )

-- A calculation within business limits returns, its figures are those of `IsBreakdown`, and they are
-- ordered: zero, the taxable base, the subtotal, the total after tax, the total; tax and fee are
-- not negative.
pub calculate_total :
    (input : CalculationInput)
    → IsModest input
    → (r : CalculationResult) × (calculate input ≡ ok r) × IsBreakdown input r × IsOrdered r
calculate_total input h =
    let (t, et, ht) = h.tax_rate in
    let (f, ef, hf) = h.fee_rate in
    let (s, es, hs) = h.settled in
    let (ls, el, hl, n) = traverse-IsModestResult input.lines h.lines in
    let (r, er, ordered, s1, s2, s3) =
      calculate_from input t f s ht hf hs et ef es ls el hl (omega (arith, h.count)) in
    (r, er, calculate-IsBreakdown input r er s1 s2 s3, ordered)
