-- ===== src/Users/Returned.antt =====
-- What a transaction that returns has read, checked and written.
use multi_brand_invoicing.Prelude.{
  Bool, Bool-cases, List, Option, Result, arith, err, false, if◌then◌else◌, inl, inr, none, not, ok,
  refl, some, throw_if, true, ◌&&◌, ◌==◌, ◌||◌, ◌∙◌, ◌≡◌,
}
use multi_brand_invoicing.Prelude.Outcome.{◌>>=◌}
use multi_brand_invoicing.Roles.{Role, covers_all_brands, may_assign_role}
use multi_brand_invoicing.Tenancy.{RequestScope}
use multi_brand_invoicing.Auth.{AuthState, User, UserStatus, find_row}
use multi_brand_invoicing.Auth.Sessions.{is_suspended}
use multi_brand_invoicing.Auth.Service.{update_user}
use multi_brand_invoicing.Users.{
  UserFailure, above_rank, brand_required, dedupe, guard_owner, has_no_brands, is_owner, is_visible,
  not_permitted, not_visible, own_account, reassign, replace_assignments, require_visible, set_role,
  update_role_in, update_status_in, with_role, with_status,
}
use multi_brand_invoicing.Store.{RowId}

found_lem :
    (o : Option User) (u : User)
    → ◌≡◌ {A = Result UserFailure User} (elim o [ none ↦ err not_visible | some v ↦ ok v ]) (ok u)
    → o ≡ some u
found_lem none u e = ground arith
found_lem (some v) u e = ground arith

pub visible_found :
    (scope : RequestScope) (id : RowId) (st : AuthState) (u : User)
    → require_visible scope id st ≡ ok u
    → find_row (λ (v : User). v.id == id && is_visible scope st.assignments v) st.users ≡ some u
unfolding require_visible
visible_found scope id st u e =
    found_lem (find_row (λ (v : User). v.id == id && is_visible scope st.assignments v) st.users) u
      e

bind_ok :
    {A B : Type 0} (r : Result UserFailure A) (f : A → Result UserFailure B) (b : B)
    → (r >>= f) ≡ ok b
    → (a : A) × (r ≡ ok a) × (f a ≡ ok b)
bind_ok (ok a) f b e = (a, refl, e)
bind_ok (err x) f b e = ground (arith, e)

pub unless_self :
    (self : Bool) (r : Result UserFailure AuthState) (st : AuthState)
    → (if self then err own_account else r) ≡ ok st
    → r ≡ ok st
unless_self true r st e = ground (arith, e)
unless_self false r st e = e

pub update_status_in_lem :
    (scope : RequestScope) (id : RowId) (status : UserStatus) (st st' : AuthState)
    → update_status_in scope id status st ≡ ok st'
    → (u : User) × (require_visible scope id st ≡ ok u)
      × (guard_owner (is_suspended status && is_owner u.role) scope.merchant_id u.id st ≡ ok tt)
      × (st' ≡ update_user u.id (with_status status) st)
unfolding update_status_in
update_status_in_lem scope id status st st' e =
    let (u, seen, e1) = bind_ok (require_visible scope id st) _ st' e in
    let (_, _, e2) =
      bind_ok (throw_if (not (may_assign_role scope.role u.role)) not_permitted) _ st' e1 in
    let (_, guard, e3) =
      bind_ok (guard_owner (is_suspended status && is_owner u.role) scope.merchant_id u.id st) _ st'
        e2 in
    (u, seen, guard, ground (arith, e3))

set_role-users :
    (id : RowId) (role : Role) (st : AuthState)
    → (set_role id role st).users ≡ (update_user id (with_role role) st).users
unfolding set_role update_user
set_role-users id role st = ground arith

replace_assignments-users :
    (scope : RequestScope) (id : RowId) (ids : List RowId) (st st' : AuthState)
    → replace_assignments scope id ids st ≡ ok st'
    → st'.users ≡ st.users
unfolding replace_assignments
replace_assignments-users scope id ids st st' e = ground (arith, e)

reassign-users :
    (scope : RequestScope) (id : RowId) (role : Role) (ids : Option (List RowId))
    (st st' : AuthState)
    → reassign scope id role ids st ≡ ok st'
    → st'.users ≡ st.users
reassign-users scope id role none st st' e = ground (arith, e)
reassign-users scope id role (some ids) st st' e = elim (Bool-cases (covers_all_brands role)) [
  | inl every ↦ ground (arith, e, every)
  | inr few ↦ replace_assignments-users scope id (dedupe ids) st st' (rw few at e)
]

pub update_role_in_lem :
    (scope : RequestScope) (id : RowId) (role : Role) (ids : Option (List RowId))
    (st st' : AuthState)
    → update_role_in scope id role ids st ≡ ok st'
    → (u : User) × (require_visible scope id st ≡ ok u)
      × (guard_owner (is_owner u.role && not (is_owner role)) scope.merchant_id u.id st ≡ ok tt)
      × (may_assign_role scope.role role ≡ true)
      × (may_assign_role scope.role u.role ≡ true)
      × (st'.users ≡ (update_user u.id (with_role role) st).users)
unfolding update_role_in
update_role_in_lem scope id role ids st st' e =
    let (u, seen, e1) = bind_ok (require_visible scope id st) _ st' e in
    let (_, ranks, e2) =
      bind_ok
        (throw_if (not (may_assign_role scope.role role) || not (may_assign_role scope.role u.role))
          above_rank)
        _ st' e1 in
    let (_, guard, e3) =
      bind_ok (guard_owner (is_owner u.role && not (is_owner role)) scope.merchant_id u.id st) _ st'
        e2 in
    let (_, _, e4) =
      bind_ok
        (throw_if (covers_all_brands u.role && not (covers_all_brands role) && has_no_brands ids)
          brand_required)
        _ st' e3 in
    (
      u,
      seen,
      guard,
      ground (arith, ranks),
      ground (arith, ranks),
      reassign-users scope u.id role ids (set_role u.id role st) st' e4
          ∙ set_role-users u.id role st,
    )
