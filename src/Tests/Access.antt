-- ===== src/Tests/Access.antt =====
-- The guard and the matrix.
use multi_brand_invoicing.Prelude.{
  Option, [], if◌then◌else◌, none, refl, some, true, ◌==◌, ◌∷◌, ◌≡◌,
}
use multi_brand_invoicing.Roles.{
  Action, Resource, brand_admin, can, finance_user, invoices, may_assign_role, read, users, write,
}
use multi_brand_invoicing.Roles.Check.{may_assign_role-can}
use multi_brand_invoicing.Tenancy.{
  PermissionRequirement, RequestScope, ScopedRequest, authorise, can_activate, params, scope_of,
  text,
}
use multi_brand_invoicing.Tenancy.Reach.{IsEntitled, can_activate-IsEntitled}
use multi_brand_invoicing.Store.{Text}

abbrev clerk : RequestScope
clerk = record {
  merchant_id = 2;
  user_id = 8;
  role = finance_user;
  assigned_brand_ids = 3 ∷ [];
  session_id = 6;
  source_ip = none;
}

abbrev sessions : Text → Option Text → Option RequestScope
sessions token ip = if token == 44 then some clerk else none

abbrev reading : PermissionRequirement
reading = record { resource = invoices; action = read; brand_from = params; brand_key = 12 }

-- A request with token 44 for brand 3.
abbrev incoming : ScopedRequest
incoming = record {
  token = some 44;
  ip = none;
  params = λ key. if key == 12 then some (text 3) else none;
  query = λ _. none;
  body = λ _. none;
}

can_activate-IsEntitled_example :
    (scope : RequestScope) × (requirement : PermissionRequirement) × (scope_of sessions incoming
      ≡ some scope)
    × (some reading ≡ some requirement)
    × IsEntitled incoming scope requirement
unfolding can_activate scope_of authorise
can_activate-IsEntitled_example = can_activate-IsEntitled sessions (some reading) incoming refl

may_assign_role-can_example :
    (can brand_admin users write ≡ true)
    × ((resource : Resource) (a : Action)
        → can finance_user resource a ≡ true
        → can brand_admin resource a ≡ true)
unfolding may_assign_role
may_assign_role-can_example = may_assign_role-can brand_admin finance_user refl
