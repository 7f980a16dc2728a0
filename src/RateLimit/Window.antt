-- ===== src/RateLimit/Window.antt =====
-- How many calls a window grants.
use Prim.Native.Nat.{min}
use multi_brand_invoicing.Prelude.{
  Bool, Bool-cases, List, Option, [], ap, arith, false, if◌then◌else◌, inl, inr, leb, length, ltb,
  none, refl, some, suc, true, ℕ, ◌+◌, ◌-◌, ◌<◌, ◌==◌, ◌∙◌, ◌∷◌, ◌≡◌, ◌≤◌,
}
use multi_brand_invoicing.Store.{RowId, Text}
use multi_brand_invoicing.RateLimit.{
  Cache, CacheKey, Entry, acquire_generic_rate_token, alive, expiring, has_sync_action,
  mark_sync_action, sync_guard,
}

-- Calls in order, none before `last` and all before `until`.
abbrev pub AreWithin : ℕ → ℕ → List ℕ → Type 0
AreWithin last until [] = Unit
AreWithin last until (t ∷ ts) = (last ≤ t) × (t < until) × AreWithin t until ts

alive_before :
    (now until n : ℕ)
    → now < until
    → alive now (some (record { count = n; expires_at = some until }))
      ≡ some (record { count = n; expires_at = some until })
alive_before now until n h = let test : ltb now until ≡ true = ground arith in rw test refl

alive_past :
    (now until n : ℕ)
    → until ≤ now
    → alive now (some (record { count = n; expires_at = some until })) ≡ none
alive_past now until n h = let test : ltb now until ≡ false = ground arith in rw test refl

past_one : (n : ℕ) → (suc (suc n) == 1) ≡ false
past_one n = ground arith

minus_zero : (n : ℕ) → n - 0 ≡ n
minus_zero n = omega arith

granted_step :
    (limit n m rest : ℕ)
    → rest ≡ min (limit - suc n) m
    → (if leb (suc n) limit then 1 else 0) + rest ≡ min (limit - n) (suc m)
granted_step limit n m rest h = ground (arith, h)

module _ (R : Cache) (key : CacheKey) (limit window_seconds : ℕ) where
  open R use {State, entry, incr, expire, incr_count, entry-incr, entry-expire}

  -- How many of the calls at these seconds are granted, and the cache after them.
  abbrev pub granted : List ℕ → State → ℕ
  granted [] s = 0
  granted (t ∷ ts) s =
      let (allowed, s') = acquire_generic_rate_token R key limit window_seconds t s in
      (if allowed then 1 else 0) + granted ts s'

  abbrev pub after_calls : List ℕ → State → State
  after_calls [] s = s
  after_calls (t ∷ ts) s =
      after_calls ts (acquire_generic_rate_token R key limit window_seconds t s).1

  abbrev Counts : ℕ → ℕ → ℕ → State → Type 0
  Counts n until last s =
      (later : ℕ)
      → last ≤ later
      → entry key later s ≡ alive later (some (record { count = n; expires_at = some until }))

  acquire_first :
      (t : ℕ) (s : State)
      → entry key t s ≡ none
      → let r = acquire_generic_rate_token R key limit window_seconds t s in
        (r.0 ≡ leb 1 limit) × Counts 1 (t + window_seconds) t r.1
  unfolding acquire_generic_rate_token
  acquire_first t s h =
      let counted : (incr key t s).0 ≡ 1 = rw h at (incr_count key t s) in
      (
        rw counted refl,
        λ later p. rw counted (
            entry-expire key window_seconds t later (incr key t s).1 p
            ∙ ap (λ e. alive later (expiring (t + window_seconds) e))
                (rw h at (entry-incr key t t s (omega arith)))),
      )

  acquire_next :
      (n until last t : ℕ) (s : State)
      → Counts (suc n) until last s
      → last ≤ t
      → t < until
      → let r = acquire_generic_rate_token R key limit window_seconds t s in
        (r.0 ≡ leb (suc (suc n)) limit) × Counts (suc (suc n)) until t r.1
  unfolding acquire_generic_rate_token
  acquire_next n until last t s h p q =
      let held = h t p ∙ alive_before t until (suc n) q in
      let counted : (incr key t s).0 ≡ suc (suc n) = rw held at (incr_count key t s) in
      (
        rw counted refl,
        λ later from. rw (counted, past_one n) (rw held at (entry-incr key t later s from)),
      )

  granted_next :
      (n until last : ℕ) (ts : List ℕ) (s : State)
      → Counts (suc n) until last s
      → AreWithin last until ts
      → granted ts s ≡ min (limit - suc n) (length ts)
  granted_next n until last [] s h within = omega arith
  granted_next n until last (t ∷ ts) s h (p, q, within) =
      let (one, counts) = acquire_next n until last t s h p q in
      let rest = granted_next (suc n) until t ts _ counts within in
      rw one (granted_step limit (suc n) (length ts) _ rest)

  forgotten :
      (n until last : ℕ) (ts : List ℕ) (s : State) (later : ℕ)
      → Counts (suc n) until last s
      → AreWithin last until ts
      → last ≤ until
      → until ≤ later
      → entry key later (after_calls ts s) ≡ none
  forgotten n until last [] s later h within p q =
      h later (omega arith) ∙ alive_past later until (suc n) q
  forgotten n until last (t ∷ ts) s later h (p, q, within) r k =
      forgotten (suc n) until t ts _ later (acquire_next n until last t s h p q).1 within
        (omega arith) k

  -- A window of calls of `acquireGenericRateToken` for a key that holds nothing at its first call: of all
  -- calls before the window is over, the first `limit` are granted and no other, whatever their times;
  -- and when it is over the key holds nothing again.
  pub granted_window :
      (t : ℕ) (ts : List ℕ) (s : State)
      → entry key t s ≡ none
      → 0 < window_seconds
      → AreWithin t (t + window_seconds) ts
      → (granted (t ∷ ts) s ≡ min limit (suc (length ts)))
        × ((later : ℕ)
            → t + window_seconds ≤ later
            → entry key later (after_calls (t ∷ ts) s) ≡ none)
  granted_window t ts s h some_time within =
      let (one, counts) = acquire_first t s h in
      let rest = granted_next 0 (t + window_seconds) t ts _ counts within in
      (
        rw one (rw (minus_zero limit) at (granted_step limit 0 (length ts) _ rest)),
        λ later p. forgotten 0 (t + window_seconds) t ts _ later counts within (omega arith) p,
      )

abbrev is_held : Option Entry → Bool
is_held o = elim o [ none ↦ false | some e ↦ true ]

held_while :
    (later until : ℕ)
    → is_held (alive later (some (record { count = 1; expires_at = some until }))) ≡ ltb later until
held_while later until = elim (Bool-cases (ltb later until)) [
  | inl before ↦ rw before refl
  | inr past ↦ rw past refl
]

-- A guard is there until its seconds are over, and gone from then on.
pub mark_sync_action-has_sync_action :
    (R : Cache) (brand_id record_id : RowId) (action : Text) (ttl_seconds now later : ℕ)
    (s : Cache.State R)
    → now ≤ later
    → has_sync_action R brand_id record_id action later
        (mark_sync_action R brand_id record_id action ttl_seconds now s)
      ≡ ltb later (now + ttl_seconds)
unfolding has_sync_action mark_sync_action
mark_sync_action-has_sync_action R brand_id record_id action ttl_seconds now later s h =
    ap is_held
      (Cache.entry-set_ex R (sync_guard brand_id record_id action) ttl_seconds now later s h)
    ∙ held_while later (now + ttl_seconds)
