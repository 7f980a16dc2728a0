-- ===== src/Concurrency/Turns.antt =====
-- How many turns `mapWithConcurrency` takes, and how many calls it has in flight.
use Prim.Native.Nat.{min}
use Prim.Native.Nat.{}
use multi_brand_invoicing.Prelude.{
  Bool, Bool-cases, List, Option, Result, [], any, ap, arith, err, false, if◌then◌else◌, inl, inr,
  length, none, ok, refl, some, suc, true, zero, ℕ, ◌*◌, ◌+◌, ◌-◌, ◌<◌, ◌∙◌, ◌∷◌, ◌≡◌, ◌≤◌,
}
use multi_brand_invoicing.Concurrency.{
  Runner, Shared, awaiting, finished, get_elem?, go_on, looping, rejected, run, runners_of, settle,
  start, take_next, turn,
}

abbrev pub is_awaiting : {T E : Type 0} → Runner T E → Bool
is_awaiting (awaiting j x) = true
is_awaiting _ = false

abbrev pub is_live : {T E : Type 0} → Runner T E → Bool
is_live looping = true
is_live (awaiting j x) = true
is_live _ = false

abbrev pub count {ℓ} : {A : Type ℓ} → (A → Bool) → List A → ℕ
count p [] = 0
count p (x ∷ xs) = if p x then suc (count p xs) else count p xs

count_le : {A : Type 0} → (p : A → Bool) (xs : List A) → count p xs ≤ length xs
count_le p [] = omega arith
count_le p (x ∷ xs) = ground (arith, count_le p xs)

-- Whether the runner of a turn goes on at all.
abbrev pub goes : {T E : Type 0} → ℕ → List (Runner T E) → Bool
goes k [] = false
goes zero (r ∷ rs) = is_live r
goes (suc k) (r ∷ rs) = goes k rs

get_elem?_lt :
    {T : Type 0} → (items : List T) (i : ℕ) (x : T) → get_elem? items i ≡ some x → i < length items
get_elem?_lt [] i x h = ground arith
get_elem?_lt (y ∷ items) zero x h = omega arith
get_elem?_lt (y ∷ items) (suc i) x h = omega (arith, get_elem?_lt items i x h)

abbrev weight : {T E : Type 0} → Runner T E → ℕ
weight looping = 1
weight (awaiting j x) = 2
weight _ = 0

abbrev total_weight : {T E : Type 0} → List (Runner T E) → ℕ
total_weight [] = 0
total_weight (r ∷ rs) = weight r + total_weight rs

live_somewhere :
    {T E : Type 0} → (rs : List (Runner T E)) → any is_live rs ≡ true → (k : ℕ) × (goes k rs ≡ true)
live_somewhere [] h = ground arith
live_somewhere (r ∷ rs) h = elim (Bool-cases (is_live r)) [
  | inl live ↦ (0, live)
  | inr still ↦ let (k, g) = live_somewhere rs (ground (arith, still)) in (suc k, g)
]

runners_of_weight : (T E : Type 0) (n : ℕ) → total_weight (runners_of {T = T} {E = E} n) ≡ n
runners_of_weight T E zero = refl
runners_of_weight T E (suc n) = omega (arith, runners_of_weight T E n)

pub runners_of-length : (T E : Type 0) (n : ℕ) → length (runners_of {T = T} {E = E} n) ≡ n
runners_of-length T E zero = refl
runners_of-length T E (suc n) = omega (arith, runners_of-length T E n)

module _ {T E R : Type 0} (items : List T) (worker : T → ℕ → Result E R) where
  -- What is left to do: it falls with each turn of a live runner.
  abbrev work_left : List (Runner T E) → Shared R → ℕ
  work_left rs s = 3 * (length items - s.next) + total_weight rs

  take_next_less :
      (o : Option T) (s : Shared R) (n : ℕ)
      → get_elem? items s.next ≡ o
      → let q = take_next items worker o s in
        3 * (length items - q.1.next) + (weight q.0 + n) < 3 * (length items - s.next) + (1 + n)
  unfolding take_next
  take_next_less none s n e = omega arith
  take_next_less (some x) s n e = omega (arith, get_elem?_lt items s.next x e)

  settle_less :
      (j : ℕ) (a : Result E R) (s : Shared R) (n : ℕ)
      → let q = settle items worker j a s in
        3 * (length items - q.1.next) + (weight q.0 + n) < 3 * (length items - s.next) + (2 + n)
  unfolding settle
  settle_less j (ok r) s n = omega arith
  settle_less j (err e) s n = omega arith

  go_on_less :
      (r : Runner T E) (s : Shared R) (n : ℕ)
      → is_live r ≡ true
      → let q = go_on items worker r s in
        3 * (length items - q.1.next) + (weight q.0 + n)
        < 3 * (length items - s.next) + (weight r + n)
  unfolding go_on
  go_on_less looping s n h = take_next_less (get_elem? items s.next) s n refl
  go_on_less (awaiting j x) s n h = settle_less j (worker x j) s n
  go_on_less finished s n h = ground arith
  go_on_less (rejected e) s n h = ground arith

  turn_less :
      (k : ℕ) (rs : List (Runner T E)) (s : Shared R)
      → goes k rs ≡ true
      → let q = turn items worker k rs s in work_left q.0 q.1 < work_left rs s
  unfolding turn
  turn_less k [] s h = ground arith
  turn_less zero (r ∷ rs) s h = go_on_less r s (total_weight rs) h
  turn_less (suc k) (r ∷ rs) s h = omega (arith, turn_less k rs s h)

  go_on_rests :
      (r : Runner T E) (s : Shared R) → is_live r ≡ false → go_on items worker r s ≡ (r, s)
  unfolding go_on
  go_on_rests looping s h = ground arith
  go_on_rests (awaiting j x) s h = ground arith
  go_on_rests finished s h = refl
  go_on_rests (rejected e) s h = refl

  turn_rests :
      (k : ℕ) (rs : List (Runner T E)) (s : Shared R)
      → goes k rs ≡ false
      → turn items worker k rs s ≡ (rs, s)
  unfolding turn
  turn_rests k [] s h = refl
  turn_rests zero (r ∷ rs) s h = rw (go_on_rests r s h) refl
  turn_rests (suc k) (r ∷ rs) s h = rw (turn_rests k rs s h) refl

  turn-length :
      (k : ℕ) (rs : List (Runner T E)) (s : Shared R)
      → length (turn items worker k rs s).0 ≡ length rs
  unfolding turn
  turn-length k [] s = refl
  turn-length zero (r ∷ rs) s = refl
  turn-length (suc k) (r ∷ rs) s = ap suc (turn-length k rs s)

  pub run-length :
      (schedule : List ℕ) (p : List (Runner T E) × Shared R)
      → length (run items worker schedule p).0 ≡ length p.0
  unfolding run
  run-length [] p = refl
  run-length (k ∷ schedule) p =
      run-length schedule (turn items worker k p.0 p.1) ∙ turn-length k p.0 p.1

  -- The turns of a schedule in which a runner goes on.
  abbrev pub live_turns : List ℕ → List (Runner T E) × Shared R → ℕ
  live_turns [] p = 0
  live_turns (k ∷ schedule) p =
      (if goes k p.0 then 1 else 0) + live_turns schedule (turn items worker k p.0 p.1)

  live_turns_le :
      (schedule : List ℕ) (p : List (Runner T E) × Shared R)
      → live_turns schedule p ≤ work_left p.0 p.1
  live_turns_le [] p = omega arith
  live_turns_le (k ∷ schedule) p =
      let rest = live_turns_le schedule (turn items worker k p.0 p.1) in
      elim (Bool-cases (goes k p.0)) [
        | inl h ↦ rw h (omega (arith, rest, turn_less k p.0 p.1 h))
        | inr h ↦ rw (h, turn_rests k p.0 p.1 h) (omega (arith, live_turns_le schedule p))
      ]

  ends_within :
      (n : ℕ) (p : List (Runner T E) × Shared R)
      → work_left p.0 p.1 ≤ n
      → (schedule : List ℕ) × (any is_live (run items worker schedule p).0 ≡ false)
  unfolding run
  ends_within zero p h = elim (Bool-cases (any is_live p.0)) [
    | inr still ↦ ([], still)
    | inl live ↦
        let (k, g) = live_somewhere p.0 live in absurd (omega (arith, turn_less k p.0 p.1 g))
  ]
  ends_within (suc n) p h = elim (Bool-cases (any is_live p.0)) [
    | inr still ↦ ([], still)
    | inl live ↦
        let (k, g) = live_somewhere p.0 live in
        let (rest, e) =
          ends_within n (turn items worker k p.0 p.1) (omega (arith, turn_less k p.0 p.1 g)) in
        (k ∷ rest, e)
  ]

  -- `mapWithConcurrency` ends: on any schedule its runners go on at most three times for each item and
  -- once for each unit of the limit, and from wherever a schedule left them, some turns bring all of
  -- them to a stop. At no time are more calls in flight than the limit.
  pub run_ends :
      (limit : ℕ) (schedule : List ℕ)
      → let p = run items worker schedule (start items worker limit) in
        (live_turns schedule (start items worker limit) ≤ 3 * length items + limit)
        × (count is_awaiting p.0 ≤ limit)
        × ((rest : List ℕ) × (any is_live (run items worker rest p).0 ≡ false))
  unfolding start
  run_ends limit schedule =
      let s = start items worker limit in
      let p = run items worker schedule s in
      (
        omega (arith, live_turns_le schedule s, runners_of_weight T E (min limit (length items))),
        omega (
          arith,
          count_le is_awaiting p.0,
          run-length schedule s,
          runners_of-length T E (min limit (length items)),
        ),
        ends_within (work_left p.0 p.1) p (omega arith),
      )
