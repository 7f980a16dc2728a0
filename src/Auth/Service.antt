-- ===== src/Auth/Service.antt =====
-- apps/api/src/auth/auth.service.ts
use multi_brand_invoicing.Store.{
  Action, Instant, RowId, Text, link_not_valid, mail_fault, unauthorized, user_not_found,
}
use multi_brand_invoicing.Prelude.{
  Bool, List, Option, [], err, false, if◌then◌else◌, leb, none, not, ok, some, true, ℕ, ◌&&◌, ◌*◌,
  ◌==◌, ◌∷◌,
}
use multi_brand_invoicing.Prelude.Int.{leb_ℤ, ltb_ℤ, pos, ℤ, ◌+ℤ◌, ◌-ℤ◌}
use multi_brand_invoicing.Tenancy.{RequestScope}
use multi_brand_invoicing.Auth.Rows.{
  AuditAction, AuditEntry, AuditOutcome, AuditReason, AuthState, User, UserStatus, active,
  auth_login, auth_logout, auth_password_reset_request, auth_password_set, bad_password,
  count_where, failure, find_row, invited, locked, select_where, status_suspended, success,
  update_where,
}
use multi_brand_invoicing.Auth.Sessions.{is_suspended, issue_session, revoke, revoke_all_for_user}
use multi_brand_invoicing.Auth.Resets.{consume, issue_reset}

-- FAILURE_WINDOW_MINUTES and LOCKOUT_MINUTES in milliseconds, MAX_FAILURES_IN_WINDOW
abbrev pub failure_window : ℤ
failure_window = pos (15 * 60_000)

abbrev pub lockout : ℤ
lockout = pos (30 * 60_000)

abbrev pub max_failures_in_window : ℕ
max_failures_in_window = 5

-- Attempts and results, less the source of an attempt and what is only shown of a user.
pub record LoginAttempt : Type 0 where
  pub email : Text
  pub password : Text

pub record LoginResult : Type 0 where
  pub token : Text
  pub user_id : RowId
  pub must_reset_password : Bool

abbrev pub is_login : AuditAction → Bool
is_login auth_login = true
is_login _ = false

abbrev pub same_outcome : AuditOutcome → AuditOutcome → Bool
same_outcome success success = true
same_outcome failure failure = true
same_outcome _ _ = false

-- The entries that `registerFailure` looks for: sign-ins of a user with an outcome.
abbrev pub is_sign_in : RowId → RowId → AuditOutcome → AuditEntry → Bool
is_sign_in merchant_id user_id outcome e =
    e.merchant_id == merchant_id
    && e.actor_id == user_id
    && is_login e.action
    && same_outcome e.outcome outcome

-- `lastSuccess && lastSuccess.occurredAt > windowStart ? … : windowStart`; the log's newest entry is first.
abbrev pub count_from : Option AuditEntry → Instant → Instant
count_from none start = start
count_from (some e) start = if ltb_ℤ start e.occurred_at then e.occurred_at else start

unfoldable pub recent_failures : RowId → RowId → Instant → List AuditEntry → ℕ
unfolding count_where find_row
recent_failures merchant_id user_id now log =
    let start = now -ℤ failure_window in
    let last =
      find_row
        (λ (e : AuditEntry). is_sign_in merchant_id user_id success e && leb_ℤ start e.occurred_at)
        log in
    count_where
      (λ (e : AuditEntry).
        is_sign_in merchant_id user_id failure e && ltb_ℤ (count_from last start) e.occurred_at)
      log

abbrev pub after_failures : ℕ → Instant → User → User
after_failures failures now u =
    if leb max_failures_in_window failures
    then record u { failed_logins = failures; locked_until = some (now +ℤ lockout) }
    else record u { failed_logins = failures }

abbrev pub signed_in : Instant → User → User
signed_in now u = record u { failed_logins = 0; locked_until = none; last_login_at = some now }

abbrev pub has_id : RowId → User → Bool
has_id id u = u.id == id

-- `record`
unfoldable pub audit :
    RowId
    → RowId
    → AuditOutcome
    → Option AuditReason
    → AuditAction
    → Instant
    → AuthState
    → AuthState
audit merchant_id user_id outcome reason action now st = record st {
  audit_log =
      record {
        merchant_id = merchant_id;
        actor_id = user_id;
        action = action;
        outcome = outcome;
        reason = reason;
        occurred_at = now;
      }
      ∷ st.audit_log;
}

unfoldable pub update_user : RowId → (User → User) → AuthState → AuthState
unfolding update_where
update_user id f st = record st { users = update_where (has_id id) f st.users }

unfoldable pub register_failure : RowId → RowId → Instant → AuthState → AuthState
unfolding audit update_user recent_failures
register_failure merchant_id user_id now st =
    let logged = audit merchant_id user_id failure (some bad_password) auth_login now st in
    let failures = recent_failures merchant_id user_id now logged.audit_log in
    update_user user_id (after_failures failures now) logged

-- `row.lockedUntil && row.lockedUntil.getTime() > Date.now()`
abbrev pub is_locked : Option Instant → Instant → Bool
is_locked none now = false
is_locked (some until) now = ltb_ℤ now until

abbrev pub is_invited : UserStatus → Bool
is_invited invited = true
is_invited _ = false

-- The result of a sign-in.
abbrev pub result_for : Text → User → LoginResult
result_for token u = record {
  token = token;
  user_id = u.id;
  must_reset_password = is_invited u.status;
}

module _ (hash hash_password : Text → Text) (verify_password : Text → Text → Bool) where
  -- The candidate that the attempt is for, and whether its password is the right one.
  unfoldable pub choose_candidate : Text → List User → Option (User × Bool)
  unfolding find_row
  choose_candidate password [] = none
  choose_candidate password (u ∷ us) =
      elim (find_row (λ (c : User). verify_password password c.password_hash) (u ∷ us)) [
        | some c ↦ some (c, true)
        | none ↦ some (u, false)
      ]

  unfoldable pub login_as : User → Bool → Text → Instant → Action AuthState LoginResult
  unfolding audit register_failure issue_session update_user
  login_as u password_matched token now st =
      if is_locked u.locked_until now
      then (err unauthorized, audit u.merchant_id u.id failure (some locked) auth_login now st)
      else if not password_matched
      then (err unauthorized, register_failure u.merchant_id u.id now st)
      else if is_suspended u.status
      then (
        err unauthorized,
        audit u.merchant_id u.id failure (some status_suspended) auth_login now st,
      )
      else (
        ok (result_for token u),
        audit u.merchant_id u.id success none auth_login now
            (update_user u.id (signed_in now) (issue_session hash u.id token now st)),
      )

  unfoldable pub login : LoginAttempt → Text → Instant → Action AuthState LoginResult
  unfolding login_as choose_candidate select_where
  login attempt token now st =
      elim (choose_candidate attempt.password
        (select_where (λ (u : User). u.email == attempt.email) st.users)) [
          | none ↦ (err unauthorized, st)
          | some (u, matched) ↦ login_as u matched token now st
        ]

  abbrev pub with_password : Text → User → User
  with_password password u = record u {
    password_hash = hash_password password;
    status = active;
    failed_logins = 0;
    locked_until = none;
  }

  abbrev pub with_new_password : Text → User → User
  with_new_password password u = record u {
    password_hash = hash_password password;
    status = active;
  }

  -- `setPasswordWithToken` from the user that the update returns.
  unfoldable pub password_set : User → Text → Instant → AuthState → AuthState
  unfolding audit issue_session revoke_all_for_user
  password_set u session_token now st =
      audit u.merchant_id u.id success none auth_password_set now
        (issue_session hash u.id session_token now (revoke_all_for_user u.id now st))

  unfoldable pub set_password_with_token :
      Text → Text → Text → Instant → Action AuthState LoginResult
  unfolding consume update_user password_set find_row
  set_password_with_token token new_password session_token now st =
      let (claim, claimed) = consume hash token now st in
      elim claim [
        | none ↦ (err link_not_valid, claimed)
        | some user_id ↦
            let updated = update_user user_id (with_password new_password) claimed in
            elim (find_row (has_id user_id) updated.users) [
              | none ↦ (err user_not_found, claimed)
              | some u ↦ (
                ok (record { token = session_token; user_id = u.id; must_reset_password = false }),
                password_set u session_token now updated,
              )
            ]
      ]

  unfoldable pub set_password : RequestScope → Text → Instant → AuthState → AuthState
  unfolding audit update_user
  set_password scope new_password now st =
      audit scope.merchant_id scope.user_id success none auth_password_set now
        (update_user scope.user_id (with_new_password new_password) st)

  unfoldable pub logout : RequestScope → Instant → AuthState → AuthState
  unfolding audit revoke
  logout scope now st =
      audit scope.merchant_id scope.user_id success none auth_logout now
        (revoke scope.session_id now st)

  -- The candidates' turns in `requestPasswordReset`, each with the link `draw` of it. `sends` says for an
  -- account and its link whether `sendSetPasswordLink` returns: where it throws, the link stays issued,
  -- and neither the audit nor the later candidates are reached.
  unfoldable pub send_reset_links :
      (RowId → Text → Bool) → (RowId → Text) → Instant → List User → Action AuthState (Unit {0})
  unfolding audit issue_reset
  send_reset_links sends draw now [] st = (ok tt, st)
  send_reset_links sends draw now (u ∷ us) st =
      let issued = issue_reset hash u.id (draw u.id) now st in
      let rest = send_reset_links sends draw now us (
        audit u.merchant_id u.id success none auth_password_reset_request now
          (record issued { mails = (u.id, draw u.id) ∷ issued.mails })) in
      if sends u.id (draw u.id) then rest else (err mail_fault, issued)

  -- `within_limit` is what the rate limiter answers.
  unfoldable pub request_password_reset :
      (RowId → Text → Bool) → Bool → Text → (RowId → Text) → Instant → Action AuthState (Unit {0})
  unfolding send_reset_links select_where
  request_password_reset sends within_limit email draw now st =
      if not within_limit
      then (ok tt, st)
      else send_reset_links sends draw now
          (select_where (λ (u : User). u.email == email && not (is_suspended u.status)) st.users) st
