-- ===== src/Concurrency/Resolved.antt =====
-- What `mapWithConcurrency` resolves with, under every schedule.
use Prim.Native.Nat.{min}
use multi_brand_invoicing.Prelude.{
  All, List, Result, [], all, any, arith, false, inl, inr, length, ok, refl, some, suc, true, zero,
  ℕ, ◌<◌, ◌∷◌, ◌≡◌,
}
use multi_brand_invoicing.Concurrency.{
  Runner, awaiting, finished, get_elem?, looping, rejected, run, runners_of, start,
}
use multi_brand_invoicing.Concurrency.Slots.{IsFit}
use multi_brand_invoicing.Concurrency.Turns.{run-length, runners_of-length}
use multi_brand_invoicing.Concurrency.Collected.{
  InFlight, IsSound, get_elem?_end, is_finished, run-IsSound,
}

some_item :
    {T : Type 0} → (items : List T) (i : ℕ) (x : T) → get_elem? items i ≡ some x → 0 < length items
some_item [] i x h = ground arith
some_item (y ∷ items) i x h = omega arith

module _ {T E R : Type 0} (items : List T) (worker : T → ℕ → Result E R) where
  fresh-IsFit : (n : ℕ) → All (IsFit items worker) (runners_of n)
  fresh-IsFit zero = tt
  fresh-IsFit (suc n) = (tt, fresh-IsFit n)

  none_finished : (n : ℕ) → any is_finished (runners_of {T = T} {E = E} n) ≡ false
  none_finished zero = refl
  none_finished (suc n) = none_finished n

  start-IsSound : (limit : ℕ) → let p = start items worker limit in IsSound items worker p.0 p.1
  unfolding start
  start-IsSound limit = record {
    fit = fresh-IsFit (min limit (length items));
    covered = λ i p. absurd (omega arith);
    ended = λ h. ground (arith, none_finished (min limit (length items)));
  }

  none-InFlight :
      (i : ℕ) (rs : List (Runner T E)) → all is_finished rs ≡ true → InFlight items worker i rs → ⊥
  none-InFlight i [] h f = f
  none-InFlight i (finished ∷ rs) h (inl f) = elim f [ ]
  none-InFlight i (finished ∷ rs) h (inr f) = none-InFlight i rs h f
  none-InFlight i (looping ∷ rs) h f = ground arith
  none-InFlight i (awaiting j x ∷ rs) h f = ground arith
  none-InFlight i (rejected e ∷ rs) h f = ground arith

  some_finished :
      (rs : List (Runner T E))
      → 0 < length rs
      → all is_finished rs ≡ true
      → any is_finished rs ≡ true
  some_finished [] h k = absurd (omega arith)
  some_finished (r ∷ rs) h k = ground arith

  -- `mapWithConcurrency` with a positive limit, on any schedule after which every runner has finished,
  -- which is when it resolves: every item was given to the worker with its index, the call returned,
  -- and its result stands at the item's own index.
  pub run_collects :
      (limit : ℕ) (schedule : List ℕ)
      → 0 < limit
      → let p = run items worker schedule (start items worker limit) in
        all is_finished p.0 ≡ true
        → (i : ℕ) (x : T) → get_elem? items i ≡ some x
        → (r : R) × (worker x i ≡ ok r) × (p.1.results i ≡ some r)
  unfolding start
  run_collects limit schedule positive resolved i x here =
      let s = start items worker limit in
      let p = run items worker schedule s in
      let h = run-IsSound items worker schedule s (start-IsSound limit) in
      let runners : 0 < length p.0 = omega (
        arith,
        run-length items worker schedule s,
        some_item items i x here,
        runners_of-length T E (min limit (length items)),
      ) in
      let counted =
        get_elem?_end items p.1.next i x (h.ended (some_finished p.0 runners resolved)) here in
      elim (h.covered i counted) [
        | inl (y, r, e, a, stored) ↦
            let same : x ≡ y = ground (arith, e, here) in (r, rw same a, stored)
        | inr flies ↦ elim (none-InFlight i p.0 resolved flies) [ ]
      ]
