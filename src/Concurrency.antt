-- ===== src/Concurrency.antt =====
-- apps/api/src/common/concurrency.ts: `mapWithConcurrency`. A schedule names, at each turn, the runner
-- that goes on; what a call of the worker settles with is the worker's answer, and a runner whose call
-- rejects ends there.
pub mod Slots
pub mod Collected
pub mod Turns
pub mod Resolved
use Prim.Native.Nat.{min}
use multi_brand_invoicing.Prelude.{
  List, Option, Result, [], err, if◌then◌else◌, length, none, ok, some, suc, zero, ℕ, ◌+◌, ◌==◌,
  ◌∷◌,
}

pub data Runner (T E : Type 0) : Type 0 where
  looping : Runner T E
  awaiting : (index : ℕ) (item : T) → Runner T E
  finished : Runner T E
  rejected : E → Runner T E

-- `next` and `results`, which the runners share; a hole of the array is none.
pub record Shared (R : Type 0) : Type 0 where
  pub next : ℕ
  pub results : ℕ → Option R

-- `results[index] = r`
abbrev pub put_result : {R : Type 0} → ℕ → R → Shared R → Shared R
put_result index r s = record s { results = λ i. if i == index then some r else s.results i }

abbrev pub get_elem? {ℓ} : {A : Type ℓ} → List A → ℕ → Option A
get_elem? [] i = none
get_elem? (x ∷ xs) zero = some x
get_elem? (x ∷ xs) (suc i) = get_elem? xs i

-- `Array.from({ length: … }, runOne)`
abbrev pub runners_of : {T E : Type 0} → ℕ → List (Runner T E)
runners_of zero = []
runners_of (suc n) = looping ∷ runners_of n

module _ {T E R : Type 0} (items : List T) (worker : T → ℕ → Result E R) where
  -- `while (next < items.length) { const index = next++; … worker(items[index]!, index)`
  unfoldable pub take_next : Option T → Shared R → Runner T E × Shared R
  take_next none s = (finished, s)
  take_next (some item) s = (awaiting s.next item, record s { next = s.next + 1 })

  unfoldable pub settle : ℕ → Result E R → Shared R → Runner T E × Shared R
  settle index (ok r) s = (looping, put_result index r s)
  settle index (err e) s = (rejected e, s)

  unfoldable pub go_on : Runner T E → Shared R → Runner T E × Shared R
  unfolding take_next settle
  go_on looping s = take_next (get_elem? items s.next) s
  go_on (awaiting index item) s = settle index (worker item index) s
  go_on finished s = (finished, s)
  go_on (rejected e) s = (rejected e, s)

  -- The turn of the runner at a position; a turn of none changes nothing.
  unfoldable pub turn : ℕ → List (Runner T E) → Shared R → List (Runner T E) × Shared R
  unfolding go_on
  turn k [] s = ([], s)
  turn zero (r ∷ rs) s = let (r', s') = go_on r s in (r' ∷ rs, s')
  turn (suc k) (r ∷ rs) s = let (rs', s') = turn k rs s in (r ∷ rs', s')

  unfoldable pub run : List ℕ → List (Runner T E) × Shared R → List (Runner T E) × Shared R
  unfolding turn
  run [] p = p
  run (k ∷ schedule) p = run schedule (turn k p.0 p.1)

  abbrev pub no_results : Shared R
  no_results = record { next = 0; results = λ i. none }

  -- `Math.min(limit, items.length)` runners.
  unfoldable pub start : ℕ → List (Runner T E) × Shared R
  start limit = (runners_of (min limit (length items)), no_results)
