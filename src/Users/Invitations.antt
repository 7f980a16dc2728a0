-- ===== src/Users/Invitations.antt =====
-- `invite` of apps/api/src/users/users.service.ts. The hash of the random password and the token of the
-- link are arguments.
pub mod Reachable
use multi_brand_invoicing.Prelude.{
  Bool, List, Result, [], any, err, if◌then◌else◌, length, none, not, ok, throw_if, ◌&&◌, ◌++◌, ◌+◌,
  ◌==◌, ◌∷◌,
}
use multi_brand_invoicing.Prelude.Outcome.{◌>>=◌, ◌>>◌}
use multi_brand_invoicing.Roles.{Role, covers_all_brands, may_assign_role, users}
use multi_brand_invoicing.Tenancy.{RequestScope}
use multi_brand_invoicing.Auth.{AuthState, User, invited}
use multi_brand_invoicing.Auth.Resets.{issue_reset}
use multi_brand_invoicing.Users.{
  UserFailure, above_rank, address_taken, assigned, brand_required, dedupe, dedupe_from,
  foreign_brand, includes,
}
use multi_brand_invoicing.Store.{Instant, RowId, Text}

pub record InviteUserInput : Type 0 where
  pub email : Text
  pub role : Role
  pub brand_ids : List RowId

-- The brands that are assigned, `dedupe(input.brandIds)` for a brand-scoped role.
abbrev pub invited_brands : InviteUserInput → List RowId
invited_brands input = if covers_all_brands input.role then [] else dedupe input.brand_ids

unfoldable pub check_invite : RequestScope → InviteUserInput → Result UserFailure (Unit {0})
unfolding dedupe_from
check_invite scope input = do
  throw_if (not (may_assign_role scope.role input.role)) above_rank
  throw_if (not (covers_all_brands input.role) && length (invited_brands input) == 0) brand_required
  throw_if
      (not (covers_all_brands scope.role)
        && any (λ b. not (includes b scope.assigned_brand_ids)) (invited_brands input))
      foreign_brand

abbrev pub invited_user : RowId → RequestScope → InviteUserInput → Text → User
invited_user id scope input password_hash = record {
  id = id;
  merchant_id = scope.merchant_id;
  email = input.email;
  password_hash = password_hash;
  role = input.role;
  status = invited;
  failed_logins = 0;
  locked_until = none;
  last_login_at = none;
}

-- `tx.user.create` with its assignments
unfoldable pub create_invited : RequestScope → InviteUserInput → Text → AuthState → AuthState
unfolding dedupe_from
create_invited scope input password_hash st = record st {
  users = st.users ++ invited_user st.next_user_id scope input password_hash ∷ [];
  assignments = assigned st.next_user_id (invited_brands input) ++ st.assignments;
  next_user_id = st.next_user_id + 1;
}

-- The unique key of a merchant and an address.
abbrev pub has_address : RowId → Text → User → Bool
has_address merchant_id email u = u.merchant_id == merchant_id && u.email == email

module _ (hash : Text → Text) where
  -- The link, issued and mailed once the user is created.
  unfoldable pub send_invite : RowId → Text → Instant → AuthState → AuthState
  unfolding issue_reset
  send_invite id token now st =
      let issued = issue_reset hash id token now st in
      record issued { mails = (id, token) ∷ issued.mails }

  unfoldable pub invite_checked :
      RequestScope
      → InviteUserInput
      → Text
      → Text
      → Instant
      → AuthState
      → Result UserFailure (Unit {0}) × AuthState
  unfolding create_invited send_invite
  invite_checked scope input password_hash token now st =
      if any (has_address scope.merchant_id input.email) st.users
      then (err address_taken, st)
      else (
        ok tt,
        send_invite st.next_user_id token now (create_invited scope input password_hash st),
      )

  unfoldable pub invite :
      RequestScope
      → InviteUserInput
      → Text
      → Text
      → Instant
      → AuthState
      → Result UserFailure (Unit {0}) × AuthState
  unfolding check_invite invite_checked
  invite scope input password_hash token now st = elim (check_invite scope input) [
    | err e ↦ (err e, st)
    | ok _ ↦ invite_checked scope input password_hash token now st
  ]
