-- ===== src/Tenancy/Reach.antt =====
-- Which brands a scope reaches, and which requests pass the guard.
use multi_brand_invoicing.Tenancy.{
  BrandSource, DatabaseScopeSettings, GuardFailure, PermissionRequirement, RequestScope, Scope,
  ScopedRequest, Value, access_request, authentication_required, authorise, body, brand_of,
  can_activate, can_reach_brand, database_scope_settings, decided, is_among, lacks_parameter,
  params, public_scope, readable_brand_ids, request_scope, resolve_brand_id, scope_of, source_of,
  text,
}
use multi_brand_invoicing.Prelude.{
  Bool, Option, Option-cases, Result, any, arith, err, false, inl, inr, none, ok, refl, some, true,
  ◌==◌, ◌||◌, ◌≡◌, ◌⊎◌,
}
use multi_brand_invoicing.Roles.{
  AccessDecision, allowed, brand_not_assigned, can, check_access, covers_all_brands,
  role_lacks_action,
}
use multi_brand_invoicing.Roles.Check.{check_access_iff}
use multi_brand_invoicing.Store.{RowId, Text}

-- What the row-level policies let a session see: every brand, or one that is listed.
abbrev pub admits : DatabaseScopeSettings → RowId → Bool
admits s brand_id = s.all_brands || any (λ b. b == brand_id) s.brand_ids

-- The settings of the database session admit a brand exactly where the scope reaches it: for every
-- scope, public or of a user, and every brand.
pub admits-database_scope_settings :
    (scope : Scope) (brand_id : RowId)
    → admits (database_scope_settings scope) brand_id ≡ can_reach_brand scope brand_id
unfolding database_scope_settings can_reach_brand readable_brand_ids is_among
admits-database_scope_settings (public_scope s) brand_id = refl
admits-database_scope_settings (request_scope s) brand_id = ground arith

decided_ok : (d : AccessDecision) → decided d ≡ ok tt → d ≡ allowed
unfolding decided
decided_ok allowed h = refl
decided_ok role_lacks_action h = ground arith
decided_ok brand_not_assigned h = ground arith

-- The request holds the brand as a text where the requirement says: in the path, the query or the body.
abbrev pub NamesBrand : ScopedRequest → PermissionRequirement → RowId → Type 0
NamesBrand request requirement b =
    ((requirement.brand_from ≡ params) × (request.params requirement.brand_key ≡ some (text b)))
    ⊎ (((requirement.brand_from ≡ BrandSource.query)
          × (request.query requirement.brand_key ≡ some (text b)))
        ⊎ ((requirement.brand_from ≡ body) × (request.body requirement.brand_key ≡ some (text b))))

-- What a request was allowed for: the requirement that its route declares, on every brand that it names
-- there, the path having what the route takes from it.
abbrev pub IsEntitled : ScopedRequest → RequestScope → PermissionRequirement → Type 0
IsEntitled request scope requirement =
    (can scope.role requirement.resource requirement.action ≡ true)
    × ((b : RowId)
        → NamesBrand request requirement b
        → (covers_all_brands scope.role ≡ true)
          ⊎ (any (λ i. i == b) scope.assigned_brand_ids ≡ true))
    × (requirement.brand_from ≡ params
        → (v : Value) × (request.params requirement.brand_key ≡ some v))

resolve_brand_id-NamesBrand :
    (request : ScopedRequest) (requirement : PermissionRequirement) (b : RowId)
    → NamesBrand request requirement b
    → resolve_brand_id request requirement ≡ ok (some b)
unfolding resolve_brand_id source_of brand_of lacks_parameter
resolve_brand_id-NamesBrand request requirement b (inl (e, h)) = rw (e, h) refl
resolve_brand_id-NamesBrand request requirement b (inr (inl (e, h))) = rw (e, h) refl
resolve_brand_id-NamesBrand request requirement b (inr (inr (e, h))) = rw (e, h) refl

params_present :
    (request : ScopedRequest) (requirement : PermissionRequirement) (o : Option RowId)
    → resolve_brand_id request requirement ≡ ok o
    → requirement.brand_from ≡ params
    → (v : Value) × (request.params requirement.brand_key ≡ some v)
unfolding resolve_brand_id source_of lacks_parameter
params_present request requirement o h e =
    elim (Option-cases (request.params requirement.brand_key)) [
      | inr found ↦ found
      | inl absent ↦ ground (arith, h, e, absent)
    ]

ok_inj : {o p : Option RowId} {r : Result GuardFailure (Option RowId)} → r ≡ ok o → r ≡ ok p → o ≡ p
ok_inj d e = cc

entitled :
    (request : ScopedRequest) (scope : RequestScope) (requirement : PermissionRequirement)
    (o : Option RowId)
    → resolve_brand_id request requirement ≡ ok o
    → check_access (access_request scope requirement o) ≡ allowed
    → IsEntitled request scope requirement
unfolding access_request
entitled request scope requirement o e h =
    let (may, reaches) = (check_access_iff (access_request scope requirement o)).0.0 h in
    (
      may,
      λ b names. reaches b (ok_inj e (resolve_brand_id-NamesBrand request requirement b names)),
      params_present request requirement o e,
    )

decided_on :
    (scope : RequestScope) (requirement : PermissionRequirement)
    (r : Result GuardFailure (Option RowId))
    → elim r [ err e ↦ err e | ok o ↦ decided (check_access (access_request scope requirement o)) ]
      ≡ ok tt
    → (o : Option RowId) × (r ≡ ok o)
      × (check_access (access_request scope requirement o) ≡ allowed)
decided_on scope requirement (ok o) h = (o, refl, decided_ok _ h)
decided_on scope requirement (err e) h = ground arith

authorised :
    (request : ScopedRequest) (scope : RequestScope) (declared : Option PermissionRequirement)
    → authorise request scope declared ≡ ok tt
    → (requirement : PermissionRequirement) × (declared ≡ some requirement)
      × IsEntitled request scope requirement
unfolding authorise
authorised request scope none h = ground arith
authorised request scope (some requirement) h =
    let (o, e, d) = decided_on scope requirement (resolve_brand_id request requirement) h in
    (requirement, refl, entitled request scope requirement o e d)

guarded :
    (request : ScopedRequest) (declared : Option PermissionRequirement) (o : Option RequestScope)
    → elim o [ none ↦ err authentication_required | some scope ↦ authorise request scope declared ]
      ≡ ok tt
    → (scope : RequestScope) × (o ≡ some scope) × (authorise request scope declared ≡ ok tt)
guarded request declared none h = ground arith
guarded request declared (some scope) h = (scope, refl, h)

-- A request that the guard lets through a route that is not public carries a token whose session
-- resolves to a scope, the route declares a requirement, the role of the scope has the action that it
-- asks for, and a brand that the request names, as a text in the path, the query or the body as the
-- requirement says, is one of the scope's or the role covers all; where the brand is to be in the path,
-- the path has it. So a route without a requirement lets nobody through.
pub can_activate-IsEntitled :
    (resolve : Text → Option Text → Option RequestScope) (declared : Option PermissionRequirement)
    (request : ScopedRequest)
    → can_activate resolve false declared request ≡ ok tt
    → (scope : RequestScope) × (requirement : PermissionRequirement) × (scope_of resolve request
        ≡ some scope)
      × (declared ≡ some requirement)
      × IsEntitled request scope requirement
unfolding can_activate
can_activate-IsEntitled resolve declared request h =
    let (scope, e, a) = guarded request declared (scope_of resolve request) h in
    let (requirement, d, i) = authorised request scope declared a in (scope, requirement, e, d, i)
