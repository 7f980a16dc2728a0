-- ===== src/Concurrency/Collected.antt =====
-- Under every schedule, what `mapWithConcurrency` resolves with.
use multi_brand_invoicing.Prelude.{
  All, Bool, Bool-cases, List, Option, Result, [], any, arith, err, false, inl, inr, ltb, none, ok,
  refl, some, suc, true, zero, ℕ, ◌<◌, ◌∷◌, ◌≡◌, ◌≤◌, ◌⊎◌,
}
use multi_brand_invoicing.Concurrency.{
  Runner, Shared, awaiting, finished, get_elem?, go_on, looping, rejected, run, settle, take_next,
  turn,
}
use multi_brand_invoicing.Concurrency.Slots.{
  IsFit, IsStored, Serves, go_on-IsFit, go_on-IsStored, go_on-Serves, go_on-starts, go_on_end,
}

abbrev pub is_finished : {T E : Type 0} → Runner T E → Bool
is_finished finished = true
is_finished _ = false

pub get_elem?_end :
    {T : Type 0}
    → (items : List T) (n i : ℕ) (x : T) → get_elem? items n ≡ none
    → get_elem? items i ≡ some x
    → i < n
get_elem?_end [] n i x h k = ground arith
get_elem?_end (y ∷ items) zero i x h k = ground arith
get_elem?_end (y ∷ items) (suc n) zero x h k = omega arith
get_elem?_end (y ∷ items) (suc n) (suc i) x h k = omega (arith, get_elem?_end items n i x h k)

before_or_from : (i n : ℕ) → (i < n) ⊎ (n ≤ i)
before_or_from i n = elim (Bool-cases (ltb i n)) [
  | inl h ↦ inl (ground (arith, h))
  | inr h ↦ inr (ground (arith, h))
]

module _ {T E R : Type 0} (items : List T) (worker : T → ℕ → Result E R) where
  abbrev pub InFlight : ℕ → List (Runner T E) → Type 0
  InFlight i [] = ⊥
  InFlight i (r ∷ rs) = Serves items worker i r ⊎ InFlight i rs

  -- Every counted item is stored or in flight, and a runner finishes only at the end of the items.
  pub record IsSound (rs : List (Runner T E)) (s : Shared R) : Type 0 where
    pub fit : All (IsFit items worker) rs
    pub covered : (i : ℕ) → i < s.next → IsStored items worker i s ⊎ InFlight i rs
    pub ended : any is_finished rs ≡ true → get_elem? items s.next ≡ none

  turn-IsFit :
      (k : ℕ) (rs : List (Runner T E)) (s : Shared R)
      → All (IsFit items worker) rs
      → All (IsFit items worker) (turn items worker k rs s).0
  unfolding turn
  turn-IsFit k [] s f = tt
  turn-IsFit zero (r ∷ rs) s (f, g) = (go_on-IsFit items worker r s f, g)
  turn-IsFit (suc k) (r ∷ rs) s (f, g) = (f, turn-IsFit k rs s g)

  turn-IsStored :
      (i k : ℕ) (rs : List (Runner T E)) (s : Shared R)
      → All (IsFit items worker) rs
      → IsStored items worker i s
      → IsStored items worker i (turn items worker k rs s).1
  unfolding turn
  turn-IsStored i k [] s f h = h
  turn-IsStored i zero (r ∷ rs) s (f, g) h = go_on-IsStored items worker i r s f h
  turn-IsStored i (suc k) (r ∷ rs) s (f, g) h = turn-IsStored i k rs s g h

  turn-InFlight :
      (i k : ℕ) (rs : List (Runner T E)) (s : Shared R)
      → All (IsFit items worker) rs
      → InFlight i rs
      → IsStored items worker i (turn items worker k rs s).1
        ⊎ InFlight i (turn items worker k rs s).0
  unfolding turn
  turn-InFlight i k [] s f h = elim h [ ]
  turn-InFlight i zero (r ∷ rs) s (f, g) (inr h) = inr (inr h)
  turn-InFlight i zero (r ∷ rs) s (f, g) (inl h) = elim (go_on-Serves items worker i r s f h) [
    | inl stored ↦ inl stored
    | inr serves ↦ inr (inl serves)
  ]
  turn-InFlight i (suc k) (r ∷ rs) s (f, g) (inl h) = inr (inl h)
  turn-InFlight i (suc k) (r ∷ rs) s (f, g) (inr h) = elim (turn-InFlight i k rs s g h) [
    | inl stored ↦ inl stored
    | inr flies ↦ inr (inr flies)
  ]

  turn-starts :
      (i k : ℕ) (rs : List (Runner T E)) (s : Shared R)
      → s.next ≤ i
      → i < (turn items worker k rs s).1.next
      → InFlight i (turn items worker k rs s).0
  unfolding turn
  turn-starts i k [] s h p = absurd (omega arith)
  turn-starts i zero (r ∷ rs) s h p = inl (go_on-starts items worker i r s h p)
  turn-starts i (suc k) (r ∷ rs) s h p = inr (turn-starts i k rs s h p)

  turn_end :
      (k : ℕ) (rs : List (Runner T E)) (s : Shared R)
      → get_elem? items s.next ≡ none
      → (turn items worker k rs s).1.next ≡ s.next
  unfolding turn
  turn_end k [] s h = refl
  turn_end zero (r ∷ rs) s h = go_on_end items worker r s h
  turn_end (suc k) (r ∷ rs) s h = turn_end k rs s h

  take_next_finishes :
      (o : Option T) (s : Shared R)
      → get_elem? items s.next ≡ o
      → is_finished (take_next items worker o s).0 ≡ true
      → get_elem? items (take_next items worker o s).1.next ≡ none
  unfolding take_next
  take_next_finishes none s e h = e
  take_next_finishes (some x) s e h = ground arith

  settle_finishes :
      (j : ℕ) (a : Result E R) (s : Shared R) → is_finished (settle items worker j a s).0 ≡ false
  unfolding settle
  settle_finishes j (ok r) s = refl
  settle_finishes j (err e) s = refl

  go_on_finishes :
      (r : Runner T E) (s : Shared R)
      → (is_finished r ≡ true → get_elem? items s.next ≡ none)
      → is_finished (go_on items worker r s).0 ≡ true
      → get_elem? items (go_on items worker r s).1.next ≡ none
  unfolding go_on
  go_on_finishes looping s h p = take_next_finishes (get_elem? items s.next) s refl p
  go_on_finishes (awaiting j x) s h p = ground (arith, settle_finishes j (worker x j) s)
  go_on_finishes finished s h p = h refl
  go_on_finishes (rejected e) s h p = ground arith

  turn_finishes :
      (k : ℕ) (rs : List (Runner T E)) (s : Shared R)
      → (any is_finished rs ≡ true → get_elem? items s.next ≡ none)
      → any is_finished (turn items worker k rs s).0 ≡ true
      → get_elem? items (turn items worker k rs s).1.next ≡ none
  unfolding turn
  turn_finishes k [] s h p = h p
  turn_finishes zero (r ∷ rs) s h p = elim (Bool-cases (any is_finished rs)) [
    | inl here ↦ let e = h (ground (arith, here)) in rw (go_on_end items worker r s e) e
    | inr there ↦ go_on_finishes r s (λ q. h (rw q refl)) (ground (arith, there))
  ]
  turn_finishes (suc k) (r ∷ rs) s h p = elim (Bool-cases (is_finished r)) [
    | inl here ↦ let e = h (rw here refl) in rw (turn_end k rs s e) e
    | inr there ↦ turn_finishes k rs s (λ q. h (ground (arith, q))) (ground (arith, there))
  ]

  turn-IsSound :
      (k : ℕ) (rs : List (Runner T E)) (s : Shared R)
      → IsSound rs s
      → let p = turn items worker k rs s in IsSound p.0 p.1
  turn-IsSound k rs s h = record {
    fit = turn-IsFit k rs s h.fit;
    covered = λ i p. elim (before_or_from i s.next) [
      | inl before ↦ elim (h.covered i before) [
        | inl stored ↦ inl (turn-IsStored i k rs s h.fit stored)
        | inr flies ↦ turn-InFlight i k rs s h.fit flies
      ]
      | inr after ↦ inr (turn-starts i k rs s after p)
    ];
    ended = turn_finishes k rs s h.ended;
  }

  pub run-IsSound :
      (schedule : List ℕ) (p : List (Runner T E) × Shared R)
      → IsSound p.0 p.1
      → let q = run items worker schedule p in IsSound q.0 q.1
  unfolding run
  run-IsSound [] p h = h
  run-IsSound (k ∷ schedule) p h =
      run-IsSound schedule (turn items worker k p.0 p.1) (turn-IsSound k p.0 p.1 h)
