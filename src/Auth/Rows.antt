-- ===== src/Auth/Rows.antt =====
-- The rows of users, sessions, reset tokens and audit entries: the columns that the modelled code decides
-- on. Names, source addresses, user agents and the times of creation are left out.
use multi_brand_invoicing.Prelude.{
  Bool, List, Option, [], false, if◌then◌else◌, none, some, true, ℕ, ◌+◌, ◌∷◌,
}
use multi_brand_invoicing.Roles.{Role}
use multi_brand_invoicing.Store.{Instant, RowId, Text}

-- enum UserStatus
pub data UserStatus : Type 0 where
  invited active suspended : UserStatus

-- model User
pub record User : Type 0 where
  pub id : RowId
  pub merchant_id : RowId
  pub email : Text
  pub password_hash : Text
  pub role : Role
  pub status : UserStatus
  pub failed_logins : ℕ
  pub locked_until : Option Instant
  pub last_login_at : Option Instant

-- model Session
pub record Session : Type 0 where
  pub id : RowId
  pub user_id : RowId
  pub token_hash : Text
  pub expires_at : Instant
  pub revoked_at : Option Instant

-- model PasswordResetToken
pub record PasswordResetToken : Type 0 where
  pub user_id : RowId
  pub token_hash : Text
  pub expires_at : Instant
  pub used_at : Option Instant

-- AUDIT_LOGIN, AUDIT_LOGOUT, AUDIT_PASSWORD_SET, AUDIT_REGISTER, AUDIT_PASSWORD_RESET_REQUEST
pub data AuditAction : Type 0 where
  auth_login auth_logout auth_password_set auth_register auth_password_reset_request : AuditAction

pub data AuditOutcome : Type 0 where
  success failure : AuditOutcome

-- The `reason` of a failed attempt.
pub data AuditReason : Type 0 where
  locked bad_password status_suspended : AuditReason

-- model AuditLog, as far as authentication writes and reads it
pub record AuditEntry : Type 0 where
  pub merchant_id : RowId
  pub actor_id : RowId
  pub action : AuditAction
  pub outcome : AuditOutcome
  pub reason : Option AuditReason
  pub occurred_at : Instant

-- Users are listed in the order of their creation, and the other rows newest first; `mails` holds the
-- set-password links that were sent, by user and token.
pub record AuthState : Type 0 where
  pub users : List User
  pub sessions : List Session
  pub reset_tokens : List PasswordResetToken
  pub audit_log : List AuditEntry
  pub assignments : List (RowId × RowId)
  pub next_session_id : RowId
  pub next_user_id : RowId
  pub mails : List (RowId × Text)

module _ {A : Type 0} where
  -- `findFirst` and `findUnique`
  unfoldable pub find_row : (A → Bool) → List A → Option A
  find_row p [] = none
  find_row p (x ∷ xs) = if p x then some x else find_row p xs

  -- `updateMany` and `update`
  unfoldable pub update_where : (A → Bool) → (A → A) → List A → List A
  update_where p f [] = []
  update_where p f (x ∷ xs) = (if p x then f x else x) ∷ update_where p f xs

  -- `count`
  unfoldable pub count_where : (A → Bool) → List A → ℕ
  count_where p [] = 0
  count_where p (x ∷ xs) = (if p x then 1 else 0) + count_where p xs

  -- `findMany`
  unfoldable pub select_where : (A → Bool) → List A → List A
  select_where p [] = []
  select_where p (x ∷ xs) = let rest = select_where p xs in if p x then x ∷ rest else rest

  -- `deleteMany`
  unfoldable pub delete_where : (A → Bool) → List A → List A
  delete_where p [] = []
  delete_where p (x ∷ xs) = let rest = delete_where p xs in if p x then rest else x ∷ rest

abbrev pub is_none : {A : Type 0} → Option A → Bool
is_none none = true
is_none (some a) = false
