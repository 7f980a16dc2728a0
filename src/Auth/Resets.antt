-- ===== src/Auth/Resets.antt =====
-- apps/api/src/auth/password-reset.service.ts
use multi_brand_invoicing.Prelude.{Bool, Option, if◌then◌else◌, none, some, ◌&&◌, ◌*◌, ◌==◌, ◌∷◌}
use multi_brand_invoicing.Prelude.Int.{ltb_ℤ, pos, ℤ, ◌+ℤ◌}
use multi_brand_invoicing.Auth.Rows.{
  AuthState, PasswordResetToken, count_where, find_row, is_none, update_where,
}
use multi_brand_invoicing.Store.{Instant, RowId, Text}

-- TOKEN_TTL_HOURS, in milliseconds
abbrev pub token_ttl : ℤ
token_ttl = pos (24 * 3_600 * 1_000)

abbrev pub is_unused_of : RowId → PasswordResetToken → Bool
is_unused_of user_id t = t.user_id == user_id && is_none t.used_at

abbrev pub spent : Instant → PasswordResetToken → PasswordResetToken
spent now t = record t { used_at = some now }

-- The rows that the conditional update of `consume` touches.
abbrev pub is_claimable : Text → Instant → PasswordResetToken → Bool
is_claimable digest now t = t.token_hash == digest && is_none t.used_at && ltb_ℤ now t.expires_at

module _ (hash : Text → Text) where
  unfoldable pub issue_reset : RowId → Text → Instant → AuthState → AuthState
  unfolding update_where
  issue_reset user_id token now st = record st {
    reset_tokens =
        record {
          user_id = user_id;
          token_hash = hash token;
          expires_at = now +ℤ token_ttl;
          used_at = none;
        }
        ∷ update_where (is_unused_of user_id) (spent now) st.reset_tokens;
  }

  -- The user of a token that is spent by this call; none for every other token.
  unfoldable pub consume : Text → Instant → AuthState → Option RowId × AuthState
  unfolding count_where update_where find_row
  consume token now st =
      let digest = hash token in
      let tokens = update_where (is_claimable digest now) (spent now) st.reset_tokens in
      if count_where (is_claimable digest now) st.reset_tokens == 0 then (none, st) else (
        elim (find_row (λ (t : PasswordResetToken). t.token_hash == digest) tokens) [
          | none ↦ none
          | some t ↦ some t.user_id
        ],
        record st { reset_tokens = tokens },
      )
