-- ===== src/Auth/Sessions.antt =====
-- apps/api/src/auth/session.service.ts
use multi_brand_invoicing.Prelude.{
  Bool, List, Option, [], false, if◌then◌else◌, none, not, some, true, ◌&&◌, ◌*◌, ◌+◌, ◌==◌, ◌∷◌,
}
use multi_brand_invoicing.Prelude.Int.{leb_ℤ, ltb_ℤ, pos, ℤ, ◌+ℤ◌}
use multi_brand_invoicing.Tenancy.{RequestScope}
use multi_brand_invoicing.Auth.Rows.{
  AuthState, Session, User, UserStatus, delete_where, find_row, is_none, suspended, update_where,
}
use multi_brand_invoicing.Store.{Instant, RowId, Text}

-- SESSION_TTL_HOURS, in milliseconds
abbrev pub session_ttl : ℤ
session_ttl = pos (12 * 3_600 * 1_000)

abbrev pub is_suspended : UserStatus → Bool
is_suspended suspended = true
is_suspended _ = false

-- The brands that a user is assigned to, in `app_resolve_session`.
unfoldable pub brands_of : RowId → List (RowId × RowId) → List RowId
brands_of user_id [] = []
brands_of user_id ((u, b) ∷ rest) =
    let others = brands_of user_id rest in if u == user_id then b ∷ others else others

unfoldable pub scope_of_row : Option Text → Session → User → List RowId → RequestScope
scope_of_row source_ip s u brand_ids = record {
  merchant_id = u.merchant_id;
  user_id = u.id;
  role = u.role;
  assigned_brand_ids = brand_ids;
  session_id = s.id;
  source_ip = source_ip;
}

-- `resolve` on the row of the session and of its user.
unfoldable pub resolve_row :
    Option Text → Instant → List RowId → Session → User → Option RequestScope
unfolding scope_of_row
resolve_row source_ip now brand_ids s u =
    if not (is_none s.revoked_at)
    then none
    else if leb_ℤ s.expires_at now
    then none
    else if is_suspended u.status
    then none
    else some (scope_of_row source_ip s u brand_ids)

module _ (hash : Text → Text) where
  unfoldable pub issue_session : RowId → Text → Instant → AuthState → AuthState
  issue_session user_id token now st = record st {
    sessions =
        record {
          id = st.next_session_id;
          user_id = user_id;
          token_hash = hash token;
          expires_at = now +ℤ session_ttl;
          revoked_at = none;
        }
        ∷ st.sessions;
    next_session_id = st.next_session_id + 1;
  }

  -- SessionService.resolve; a session whose user is gone has no row in the join.
  unfoldable pub resolve : AuthState → Instant → Text → Option Text → Option RequestScope
  unfolding resolve_row brands_of find_row
  resolve st now token source_ip =
      elim (find_row (λ (s : Session). s.token_hash == hash token) st.sessions) [
        | none ↦ none
        | some s ↦ elim (find_row (λ (u : User). u.id == s.user_id) st.users) [
          | none ↦ none
          | some u ↦ resolve_row source_ip now (brands_of u.id st.assignments) s u
        ]
      ]

-- `revoke` and `revokeAllForUser`
abbrev pub revoked : Instant → Session → Session
revoked now s = record s { revoked_at = some now }

unfoldable pub revoke : RowId → Instant → AuthState → AuthState
unfolding update_where
revoke session_id now st = record st {
  sessions = update_where (λ (s : Session). s.id == session_id) (revoked now) st.sessions;
}

abbrev pub is_live_of : RowId → Session → Bool
is_live_of user_id s = s.user_id == user_id && is_none s.revoked_at

unfoldable pub revoke_all_for_user : RowId → Instant → AuthState → AuthState
unfolding update_where
revoke_all_for_user user_id now st = record st {
  sessions = update_where (is_live_of user_id) (revoked now) st.sessions;
}

unfoldable pub purge_expired : Instant → AuthState → AuthState
unfolding delete_where
purge_expired now st = record st {
  sessions = delete_where (λ (s : Session). ltb_ℤ s.expires_at now) st.sessions;
}
