-- ===== src/Tests/Credentials.antt =====
-- Sign-ins and set-password links of one owner, and printed amounts.
use multi_brand_invoicing.Auth.{
  AuthState, PasswordResetToken, Session, User, active, find_row, select_where, update_where,
}
use multi_brand_invoicing.Prelude.{
  All, List, [], arith, err, false, none, ok, refl, some, true, ℕ, ◌++◌, ◌∷◌, ◌≡◌,
}
use multi_brand_invoicing.Prelude.Outcome.{◌>>=◌}
use multi_brand_invoicing.Prelude.Int.{int_laws, neg, pos, ◌+ℤ◌, ◌-ℤ◌, ◌<ℤ◌}
use multi_brand_invoicing.Prelude.Double.{int}
use multi_brand_invoicing.Tenancy.{RequestScope}
use multi_brand_invoicing.Auth.Sessions.{is_live_of, resolve}
use multi_brand_invoicing.Auth.Resets.{consume}
use multi_brand_invoicing.Auth.Service.{
  audit, choose_candidate, failure_window, has_id, lockout, login, login_as, register_failure,
  result_for, set_password_with_token, update_user,
}
use multi_brand_invoicing.Auth.Tokens.{consume_once}
use multi_brand_invoicing.Auth.Lockout.{register_failures, register_failures_lock}
use multi_brand_invoicing.Auth.Passwords.{set_password_with_token_lem}
use multi_brand_invoicing.Auth.SignIn.{IsAdmitted, login-resolve}
use multi_brand_invoicing.Amounts.{format_minor, format_quantity, parse_minor, quantity_from, usd}
use multi_brand_invoicing.Amounts.RoundTrip.{
  parse_minor-format_minor, quantity_from-format_quantity,
}
use multi_brand_invoicing.Store.{Instant, unauthorized}
use multi_brand_invoicing.Tests.Data.{accounts, digest_of, owner, same_text, sign_in}

-- -12.34
parse_minor-format_minor_example :
    (format_minor (int (neg (pos 1_234))) usd >>= λ s. parse_minor s usd) ≡ ok (neg (pos 1_234))
unfolding neg
parse_minor-format_minor_example = parse_minor-format_minor usd (neg (pos 1_234)) (omega arith)

-- 1.5
quantity_from-format_quantity_example :
    (format_quantity (int (pos 15_000)) >>= λ s. quantity_from s) ≡ ok (pos 15_000)
quantity_from-format_quantity_example = quantity_from-format_quantity (pos 15_000) (omega arith)

after_use : AuthState
after_use = (consume digest_of 60 (pos 1_000) accounts).1

consume_once_example : consume digest_of 60 (pos 2_000) after_use ≡ (none, after_use)
unfolding consume after_use
consume_once_example =
    consume_once digest_of 60 (pos 1_000) (pos 2_000) accounts after_use (omega arith) refl

-- The wrong password at 100, 200, 300, 400 and 500; at 600 the right one is refused.
abbrev attempts : List Instant
attempts = pos 100 ∷ pos 200 ∷ pos 300 ∷ pos 400 ∷ []

within : (t : ℕ) → pos 500 -ℤ failure_window <ℤ pos t
within t = omega (arith, int_laws)

register_failures_lock_example :
    let st' = register_failures 2 4 (attempts ++ pos 500 ∷ []) accounts in
    (r' : User) × (find_row (has_id 4) st'.users ≡ some r')
    × (r'.locked_until ≡ some (pos 500 +ℤ lockout))
    × ((login_as digest_of digest_of same_text r' true 70 (pos 600) st').0 ≡ err unauthorized)
    × ((login_as digest_of digest_of same_text r' true 70 (pos 600) st').1.sessions ≡ [])
unfolding register_failures register_failure audit update_user update_where find_row
register_failures_lock_example =
    register_failures_lock digest_of digest_of same_text 2 4 attempts (pos 500) (pos 600) true 70
      accounts owner refl refl (within 100, (within 200, (within 300, (within 400, tt))))
      (omega arith) (omega (arith, int_laws))

entered_accounts : AuthState
entered_accounts = (login digest_of digest_of same_text sign_in 70 (pos 600) accounts).1

login-resolve_example :
    (u : User) × IsAdmitted digest_of digest_of same_text sign_in (pos 600) u
    × (result_for 70 owner ≡ result_for 70 u)
    × ((scope : RequestScope) × (resolve digest_of entered_accounts (pos 900) 70 none ≡ some scope)
        × (scope.user_id ≡ u.id)
        × (scope.role ≡ u.role)
        × (scope.merchant_id ≡ u.merchant_id))
unfolding login login_as choose_candidate select_where find_row entered_accounts
login-resolve_example =
    login-resolve digest_of digest_of same_text sign_in 70 (pos 600) (pos 900) none accounts
      entered_accounts (result_for 70 owner) (refl, tt) refl (omega (arith, int_laws))

abbrev only_link : PasswordResetToken
only_link = record { user_id = 4; token_hash = 60; expires_at = pos 5_000; used_at = none }

set_password_with_token_lem_example :
    let run = set_password_with_token digest_of digest_of same_text 60 88 70 (pos 1_000) accounts in
    (run.0 ≡ ok (record { token = 70; user_id = 4; must_reset_password = false }))
    × (find_row (has_id 4) run.1.users
        ≡ some (record owner {
          password_hash = 88;
          status = active;
          failed_logins = 0;
          locked_until = none;
        }))
    × ((s : Session) × (ss : List Session) × (run.1.sessions ≡ s ∷ ss)
        × All (λ (old : Session). is_live_of 4 old ≡ false) ss)
    × ((scope : RequestScope) × (resolve digest_of run.1 (pos 2_000) 70 none ≡ some scope)
        × (scope.user_id ≡ 4))
    × (consume digest_of 60 (pos 2_000) run.1 ≡ (none, run.1))
unfolding find_row
set_password_with_token_lem_example =
    set_password_with_token_lem digest_of digest_of same_text 60 88 70 (pos 1_000) (pos 2_000) none
      accounts owner
      (record { row = only_link; listed = refl; usable = refl; same_user = refl; user = refl })
      (omega arith) (omega (arith, int_laws))
