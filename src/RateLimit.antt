-- ===== src/RateLimit.antt =====
-- The rate tokens and sync guards of apps/api/src/infra/redis/redis.service.ts. The cache is not the
-- program's own: an interface of the commands that the service sends, with their documented effect.
pub mod Window
pub mod Memory
use multi_brand_invoicing.Prelude.{
  Bool, Option, false, if◌then◌else◌, leb, ltb, none, some, suc, true, ℕ, ◌+◌, ◌==◌, ◌≡◌, ◌≤◌,
}
use multi_brand_invoicing.Store.{RowId, Text}

-- The keys, one constructor for each template.
pub data CacheKey : Type 0 where
  rate_of_brand : (brand_id : RowId) → CacheKey
  forgot_password : (email : Text) → CacheKey
  sync_guard : (brand_id record_id : RowId) (action : Text) → CacheKey

-- What a key holds, and the second in which it is gone, if any.
pub record Entry : Type 0 where
  pub count : ℕ
  pub expires_at : Option ℕ

abbrev pub is_alive : ℕ → Option ℕ → Bool
is_alive now none = true
is_alive now (some at) = ltb now at

abbrev pub alive : ℕ → Option Entry → Option Entry
alive now none = none
alive now (some e) = if is_alive now e.expires_at then some e else none

abbrev pub count_of : Option Entry → ℕ
count_of none = 0
count_of (some e) = e.count

abbrev pub expiry_of : Option Entry → Option ℕ
expiry_of none = none
expiry_of (some e) = e.expires_at

abbrev pub expiring : ℕ → Option Entry → Option Entry
expiring at none = none
expiring at (some e) = some (record e { expires_at = some at })

-- `entry k now` is what a key holds in the second `now`.
pub record Cache : Type 1 where
  pub State : Type 0
  pub entry : CacheKey → ℕ → State → Option Entry
  pub incr : CacheKey → ℕ → State → ℕ × State
  pub expire : CacheKey → ℕ → ℕ → State → State
  pub set_ex : CacheKey → ℕ → ℕ → State → State
  pub incr_count :
      (k : CacheKey) (now : ℕ) (s : State) → (incr k now s).0 ≡ suc (count_of (entry k now s))
  pub entry-incr :
      (k : CacheKey) (now later : ℕ) (s : State)
      → now ≤ later
      → entry k later (incr k now s).1
        ≡ alive later (
            some (record {
              count = suc (count_of (entry k now s));
              expires_at = expiry_of (entry k now s);
            }))
  pub entry-expire :
      (k : CacheKey) (seconds now later : ℕ) (s : State)
      → now ≤ later
      → entry k later (expire k seconds now s)
        ≡ alive later (expiring (now + seconds) (entry k now s))
  pub entry-set_ex :
      (k : CacheKey) (seconds now later : ℕ) (s : State)
      → now ≤ later
      → entry k later (set_ex k seconds now s)
        ≡ alive later (some (record { count = 1; expires_at = some (now + seconds) }))

module _ (R : Cache) where
  open R use {State, entry, incr, expire, set_ex}

  unfoldable pub acquire_generic_rate_token :
      CacheKey → (limit window_seconds now : ℕ) → State → Bool × State
  acquire_generic_rate_token key limit window_seconds now s =
      let (count, s') = incr key now s in
      (leb count limit, if count == 1 then expire key window_seconds now s' else s')

  unfoldable pub acquire_rate_token : RowId → (limit window_seconds now : ℕ) → State → Bool × State
  unfolding acquire_generic_rate_token
  acquire_rate_token brand_id limit window_seconds now s =
      acquire_generic_rate_token (rate_of_brand brand_id) limit window_seconds now s

  unfoldable pub mark_sync_action : RowId → RowId → Text → (ttl_seconds now : ℕ) → State → State
  mark_sync_action brand_id record_id action ttl_seconds now s =
      set_ex (sync_guard brand_id record_id action) ttl_seconds now s

  unfoldable pub has_sync_action : RowId → RowId → Text → (now : ℕ) → State → Bool
  has_sync_action brand_id record_id action now s =
      elim (entry (sync_guard brand_id record_id action) now s) [ none ↦ false | some e ↦ true ]
