-- ===== src/RateLimit/Memory.antt =====
-- A cache in memory: what a key holds, as a function of the key.
use multi_brand_invoicing.Prelude.{
  ==_refl, Bool, Option, ap, arith, false, if◌then◌else◌, refl, some, suc, true, ◌&&◌, ◌+◌, ◌==◌,
  ◌≡◌,
}
use multi_brand_invoicing.RateLimit.{
  Cache, CacheKey, Entry, alive, count_of, expiring, expiry_of, forgot_password, rate_of_brand,
  sync_guard,
}

abbrev same_key : CacheKey → CacheKey → Bool
same_key (rate_of_brand a) (rate_of_brand b) = a == b
same_key (forgot_password a) (forgot_password b) = a == b
same_key (sync_guard a b c) (sync_guard d e f) = a == d && b == e && c == f
same_key _ _ = false

same_key_refl : (k : CacheKey) → same_key k k ≡ true
same_key_refl (rate_of_brand a) = ==_refl a
same_key_refl (forgot_password a) = ==_refl a
same_key_refl (sync_guard a b c) = ground (arith, ==_refl a, ==_refl b, ==_refl c)

abbrev Entries : Type 0
Entries = CacheKey → Option Entry

abbrev put_entry : CacheKey → Option Entry → Entries → Entries
put_entry k e s j = if same_key k j then e else s j

pub put_entry-found : (k : CacheKey) (e : Option Entry) (s : Entries) → put_entry k e s k ≡ e
put_entry-found k e s = rw (same_key_refl k) refl

abbrev counted_up : Option Entry → Entry
counted_up o = record { count = suc (count_of o); expires_at = expiry_of o }

abbrev pub memory_cache : Cache
memory_cache = record {
  State = Entries;
  entry = λ k now s. alive now (s k);
  incr = λ k now s.
      (suc (count_of (alive now (s k))), put_entry k (some (counted_up (alive now (s k)))) s);
  expire = λ k seconds now s. put_entry k (expiring (now + seconds) (alive now (s k))) s;
  set_ex = λ k seconds now s.
      put_entry k (some (record { count = 1; expires_at = some (now + seconds) })) s;
  incr_count = λ k now s. refl;
  entry-incr = λ k now later s p. ap (alive later) (put_entry-found k _ s);
  entry-expire = λ k seconds now later s p. ap (alive later) (put_entry-found k _ s);
  entry-set_ex = λ k seconds now later s p. ap (alive later) (put_entry-found k _ s);
}
