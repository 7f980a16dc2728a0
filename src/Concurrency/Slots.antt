-- ===== src/Concurrency/Slots.antt =====
-- What one step of a runner does to the slot of an item.
use multi_brand_invoicing.Prelude.{
  ==_refl, Bool-cases, List, Option, Result, arith, err, inl, inr, none, ok, refl, some, ℕ, ◌<◌,
  ◌==◌, ◌≡◌, ◌≤◌, ◌⊎◌,
}
use multi_brand_invoicing.Concurrency.{
  Runner, Shared, awaiting, finished, get_elem?, go_on, looping, put_result, rejected, settle,
  take_next,
}

module _ {T E R : Type 0} (items : List T) (worker : T → ℕ → Result E R) where
  -- The slot of an item holds the worker's answer for it.
  abbrev pub IsStored : ℕ → Shared R → Type 0
  IsStored i s =
      (x : T) × (r : R) × (get_elem? items i ≡ some x)
      × (worker x i ≡ ok r)
      × (s.results i ≡ some r)

  -- A runner that works on the item, or that has stopped on an error.
  abbrev pub Serves : ℕ → Runner T E → Type 0
  Serves i looping = ⊥
  Serves i (awaiting j x) = j ≡ i
  Serves i finished = ⊥
  Serves i (rejected e) = Unit

  abbrev pub IsFit : Runner T E → Type 0
  IsFit (awaiting j x) = get_elem? items j ≡ some x
  IsFit _ = Unit

  take_next-IsFit :
      (o : Option T) (s : Shared R)
      → get_elem? items s.next ≡ o
      → IsFit (take_next items worker o s).0
  unfolding take_next
  take_next-IsFit none s e = tt
  take_next-IsFit (some x) s e = e

  settle-IsFit : (j : ℕ) (a : Result E R) (s : Shared R) → IsFit (settle items worker j a s).0
  unfolding settle
  settle-IsFit j (ok r) s = tt
  settle-IsFit j (err e) s = tt

  pub go_on-IsFit : (r : Runner T E) (s : Shared R) → IsFit r → IsFit (go_on items worker r s).0
  unfolding go_on
  go_on-IsFit looping s f = take_next-IsFit (get_elem? items s.next) s refl
  go_on-IsFit (awaiting j x) s f = settle-IsFit j (worker x j) s
  go_on-IsFit finished s f = tt
  go_on-IsFit (rejected e) s f = tt

  put_result-IsStored :
      (i j : ℕ) (x : T) (r : R) (s : Shared R)
      → get_elem? items j ≡ some x
      → worker x j ≡ ok r
      → (i ≡ j) ⊎ IsStored i s
      → IsStored i (put_result j r s)
  put_result-IsStored i j x r s f a (inl e) = rw e (x, r, f, a, rw (==_refl j) refl)
  put_result-IsStored i j x r s f a (inr (y, q, g, b, h)) = elim (Bool-cases (i == j)) [
    | inl same ↦ let e : i ≡ j = ground (arith, same) in rw e (x, r, f, a, rw (==_refl j) refl)
    | inr another ↦ (y, q, g, b, rw another h)
  ]

  take_next-IsStored :
      (i : ℕ) (o : Option T) (s : Shared R)
      → IsStored i s
      → IsStored i (take_next items worker o s).1
  unfolding take_next
  take_next-IsStored i none s h = h
  take_next-IsStored i (some x) s h = h

  settle-IsStored :
      (i j : ℕ) (x : T) (a : Result E R) (s : Shared R)
      → get_elem? items j ≡ some x
      → worker x j ≡ a
      → IsStored i s
      → IsStored i (settle items worker j a s).1
  unfolding settle
  settle-IsStored i j x (ok r) s f e h = put_result-IsStored i j x r s f e (inr h)
  settle-IsStored i j x (err q) s f e h = h

  -- What is stored stays stored.
  pub go_on-IsStored :
      (i : ℕ) (r : Runner T E) (s : Shared R)
      → IsFit r
      → IsStored i s
      → IsStored i (go_on items worker r s).1
  unfolding go_on
  go_on-IsStored i looping s f h = take_next-IsStored i (get_elem? items s.next) s h
  go_on-IsStored i (awaiting j x) s f h = settle-IsStored i j x (worker x j) s f refl h
  go_on-IsStored i finished s f h = h
  go_on-IsStored i (rejected e) s f h = h

  settle-Serves :
      (j : ℕ) (x : T) (a : Result E R) (s : Shared R)
      → get_elem? items j ≡ some x
      → worker x j ≡ a
      → IsStored j (settle items worker j a s).1 ⊎ Serves j (settle items worker j a s).0
  unfolding settle
  settle-Serves j x (ok r) s f e = inl (put_result-IsStored j j x r s f e (inl refl))
  settle-Serves j x (err q) s f e = inr tt

  -- The item that a runner works on is stored next, or the runner stops on an error.
  pub go_on-Serves :
      (i : ℕ) (r : Runner T E) (s : Shared R)
      → IsFit r
      → Serves i r
      → IsStored i (go_on items worker r s).1 ⊎ Serves i (go_on items worker r s).0
  unfolding go_on
  go_on-Serves i looping s f h = elim h [ ]
  go_on-Serves i (awaiting j x) s f e = rw⁻¹ e (settle-Serves j x (worker x j) s f refl)
  go_on-Serves i finished s f h = elim h [ ]
  go_on-Serves i (rejected e) s f h = inr tt

  take_next-starts :
      (i : ℕ) (o : Option T) (s : Shared R)
      → s.next ≤ i
      → i < (take_next items worker o s).1.next
      → Serves i (take_next items worker o s).0
  unfolding take_next
  take_next-starts i none s h k = absurd (omega arith)
  take_next-starts i (some x) s h k = omega arith

  settle_next :
      (j : ℕ) (a : Result E R) (s : Shared R) → (settle items worker j a s).1.next ≡ s.next
  unfolding settle
  settle_next j (ok r) s = refl
  settle_next j (err e) s = refl

  -- The item that is counted next has its runner.
  pub go_on-starts :
      (i : ℕ) (r : Runner T E) (s : Shared R)
      → s.next ≤ i
      → i < (go_on items worker r s).1.next
      → Serves i (go_on items worker r s).0
  unfolding go_on
  go_on-starts i looping s h k = take_next-starts i (get_elem? items s.next) s h k
  go_on-starts i (awaiting j x) s h k = absurd (omega (arith, settle_next j (worker x j) s))
  go_on-starts i finished s h k = absurd (omega arith)
  go_on-starts i (rejected e) s h k = absurd (omega arith)

  -- At the end of the items nothing more is counted.
  pub go_on_end :
      (r : Runner T E) (s : Shared R)
      → get_elem? items s.next ≡ none
      → (go_on items worker r s).1.next ≡ s.next
  unfolding go_on take_next
  go_on_end looping s h = rw h refl
  go_on_end (awaiting j x) s h = settle_next j (worker x j) s
  go_on_end finished s h = refl
  go_on_end (rejected e) s h = refl
