-- ===== src/Users.antt =====
-- apps/api/src/users/users.service.ts: roles, statuses and brands of a merchant's users, on the tables of
-- Auth. A transaction's body returns the new tables or a failure, which takes them back. Row level
-- security shows a scope the users of its merchant only. The view that a call returns is left out.
pub mod Returned
pub mod Owners
pub mod Invitations
use multi_brand_invoicing.Prelude.{
  Bool, List, Option, Result, [], any, err, false, if◌then◌else◌, length, map, none, not, ok, some,
  throw_if, true, ◌&&◌, ◌++◌, ◌==◌, ◌||◌, ◌∷◌,
}
use multi_brand_invoicing.Prelude.Outcome.{◌>>=◌, ◌>>◌}
use multi_brand_invoicing.Roles.{Role, covers_all_brands, may_assign_role, merchant_owner, users}
use multi_brand_invoicing.Tenancy.{RequestScope}
use multi_brand_invoicing.Auth.{AuthState, User, UserStatus, count_where, delete_where, find_row}
use multi_brand_invoicing.Auth.Sessions.{brands_of, is_suspended}
use multi_brand_invoicing.Auth.Service.{update_user}
use multi_brand_invoicing.Store.{RowId}

pub data UserFailure : Type 0 where
  own_account above_rank not_permitted last_owner brand_required foreign_brand all_brands_already
        not_visible address_taken :
      UserFailure

abbrev pub includes : RowId → List RowId → Bool
includes id ids = any (λ other. other == id) ids

abbrev pub is_owner : Role → Bool
is_owner merchant_owner = true
is_owner _ = false

-- `visibilityWhere`, below the scope's row level security.
unfoldable pub is_visible : RequestScope → List (RowId × RowId) → User → Bool
unfolding brands_of
is_visible scope assignments u =
    u.merchant_id == scope.merchant_id
    && (covers_all_brands scope.role
        || u.id == scope.user_id
        || any (λ b. includes b scope.assigned_brand_ids) (brands_of u.id assignments))

unfoldable pub require_visible : RequestScope → RowId → AuthState → Result UserFailure User
unfolding find_row is_visible
require_visible scope id st =
    elim (find_row (λ (u : User). u.id == id && is_visible scope st.assignments u) st.users) [
      | none ↦ err not_visible
      | some u ↦ ok u
    ]

-- The rows that `assertNotLastOwner` counts, and those that it counts without an exception.
abbrev pub is_standing_owner : RowId → User → Bool
is_standing_owner merchant_id u =
    u.merchant_id == merchant_id && is_owner u.role && not (is_suspended u.status)

abbrev pub is_other_owner : RowId → RowId → User → Bool
is_other_owner merchant_id id u = is_standing_owner merchant_id u && not (u.id == id)

unfoldable pub assert_not_last_owner : RowId → RowId → AuthState → Result UserFailure (Unit {0})
unfolding count_where
assert_not_last_owner merchant_id id st =
    throw_if (count_where (is_other_owner merchant_id id) st.users == 0) last_owner

-- `if (…) await this.assertNotLastOwner(…)`
abbrev pub guard_owner : Bool → RowId → RowId → AuthState → Result UserFailure (Unit {0})
guard_owner needed merchant_id id st =
    if needed then assert_not_last_owner merchant_id id st else ok tt

-- The end of a transaction.
abbrev pub commit :
    AuthState → Result UserFailure AuthState → Result UserFailure (Unit {0}) × AuthState
commit before (ok st) = (ok tt, st)
commit before (err e) = (err e, before)

abbrev pub with_status : UserStatus → User → User
with_status status u =
    if is_suspended status
    then record u { status = status; failed_logins = 0; locked_until = none }
    else record u { status = status }

unfoldable pub update_status_in :
    RequestScope → RowId → UserStatus → AuthState → Result UserFailure AuthState
unfolding require_visible assert_not_last_owner update_user
update_status_in scope id status st = do
  existing ← require_visible scope id st
  throw_if (not (may_assign_role scope.role existing.role)) not_permitted
  guard_owner (is_suspended status && is_owner existing.role) scope.merchant_id existing.id st
  ok (update_user existing.id (with_status status) st)

unfoldable pub update_status :
    RequestScope → RowId → UserStatus → AuthState → Result UserFailure (Unit {0}) × AuthState
unfolding update_status_in
update_status scope id status st =
    commit st (if id == scope.user_id then err own_account else update_status_in scope id status st)

-- `dedupe`, the first of each kept
unfoldable pub dedupe_from : List RowId → List RowId → List RowId
dedupe_from seen [] = []
dedupe_from seen (b ∷ bs) =
    let rest = dedupe_from (b ∷ seen) bs in if includes b seen then rest else b ∷ rest

abbrev pub dedupe : List RowId → List RowId
dedupe ids = dedupe_from [] ids

abbrev pub assigned : RowId → List RowId → List (RowId × RowId)
assigned user_id ids = map (λ b. (user_id, b)) ids

-- An actor for some brands rewrites the rows of these brands only.
unfoldable pub replace_assignments :
    RequestScope → RowId → List RowId → AuthState → Result UserFailure AuthState
unfolding delete_where
replace_assignments scope user_id ids st =
    if covers_all_brands scope.role
    then if length ids == 0
      then err brand_required
      else ok (record st {
        assignments =
            assigned user_id ids
            ++ delete_where (λ (p : RowId × RowId). p.0 == user_id) st.assignments;
      })
    else if any (λ b. not (includes b scope.assigned_brand_ids)) ids
    then err foreign_brand
    else ok (record st {
      assignments =
          assigned user_id ids
          ++ delete_where
              (λ (p : RowId × RowId). p.0 == user_id && includes p.1 scope.assigned_brand_ids)
              st.assignments;
    })

abbrev pub with_role : Role → User → User
with_role role u = record u { role = role }

-- An all-brand role holds no assignments.
unfoldable pub set_role : RowId → Role → AuthState → AuthState
unfolding update_user delete_where
set_role id role st =
    let moved = update_user id (with_role role) st in
    if covers_all_brands role
    then record moved {
      assignments = delete_where (λ (p : RowId × RowId). p.0 == id) moved.assignments;
    }
    else moved

abbrev pub has_no_brands : Option (List RowId) → Bool
has_no_brands none = true
has_no_brands (some ids) = length ids == 0

abbrev pub reassign :
    RequestScope → RowId → Role → Option (List RowId) → AuthState → Result UserFailure AuthState
reassign scope id role none st = ok st
reassign scope id role (some ids) st =
    if covers_all_brands role then ok st else replace_assignments scope id (dedupe ids) st

unfoldable pub update_role_in :
    RequestScope → RowId → Role → Option (List RowId) → AuthState → Result UserFailure AuthState
unfolding require_visible assert_not_last_owner set_role replace_assignments dedupe_from
update_role_in scope id role brand_ids st = do
  existing ← require_visible scope id st
  throw_if (not (may_assign_role scope.role role) || not (may_assign_role scope.role existing.role))
      above_rank
  guard_owner (is_owner existing.role && not (is_owner role)) scope.merchant_id existing.id st
  throw_if
      (covers_all_brands existing.role && not (covers_all_brands role) && has_no_brands brand_ids)
      brand_required
  reassign scope existing.id role brand_ids (set_role existing.id role st)

unfoldable pub update_role :
    RequestScope
    → RowId
    → Role
    → Option (List RowId)
    → AuthState
    → Result UserFailure (Unit {0}) × AuthState
unfolding update_role_in
update_role scope id role brand_ids st =
    commit st
      (if id == scope.user_id then err own_account else update_role_in scope id role brand_ids st)

unfoldable pub update_brands_in :
    RequestScope → RowId → List RowId → AuthState → Result UserFailure AuthState
unfolding require_visible replace_assignments dedupe_from
update_brands_in scope id ids st = do
  existing ← require_visible scope id st
  throw_if (not (may_assign_role scope.role existing.role)) not_permitted
  throw_if (covers_all_brands existing.role) all_brands_already
  replace_assignments scope existing.id (dedupe ids) st

unfoldable pub update_brands :
    RequestScope → RowId → List RowId → AuthState → Result UserFailure (Unit {0}) × AuthState
unfolding update_brands_in
update_brands scope id ids st =
    commit st (if id == scope.user_id then err own_account else update_brands_in scope id ids st)
