-- ===== src/Tenancy.antt =====
-- packages/shared/src/tenancy.ts and the guard of apps/api/src/tenancy/authorisation.ts: the scope
-- that a request runs in, the brands that it reaches, and who may call a route.
pub mod Reach
use multi_brand_invoicing.Prelude.{
  Bool, List, Option, Result, [], any, err, false, if◌then◌else◌, none, ok, some, true, ◌==◌, ◌∷◌,
}
use multi_brand_invoicing.Roles.{
  AccessDecision, AccessRequest, Action, Resource, Role, allowed, check_access, covers_all_brands,
}
use multi_brand_invoicing.Store.{RowId, Text}

pub record RequestScope : Type 0 where
  pub merchant_id : RowId
  pub user_id : RowId
  pub role : Role
  pub assigned_brand_ids : List RowId
  pub session_id : Text
  pub source_ip : Option Text

pub record PublicScope : Type 0 where
  pub merchant_id : RowId
  pub brand_id : RowId
  pub invoice_id : RowId
  pub source_ip : Option Text

pub data Scope : Type 0 where
  request_scope : RequestScope → Scope
  public_scope : PublicScope → Scope

unfoldable pub is_public_scope : Scope → Bool
is_public_scope (public_scope _) = true
is_public_scope (request_scope _) = false

-- None is every brand of the merchant.
unfoldable pub readable_brand_ids : Scope → Option (List RowId)
unfolding covers_all_brands
readable_brand_ids (public_scope s) = some (s.brand_id ∷ [])
readable_brand_ids (request_scope s) =
    if covers_all_brands s.role then none else some s.assigned_brand_ids

-- `brands === null ? true : brands.includes(brandId)`
unfoldable pub is_among : RowId → Option (List RowId) → Bool
is_among brand_id none = true
is_among brand_id (some ids) = any (λ b. b == brand_id) ids

unfoldable pub can_reach_brand : Scope → RowId → Bool
unfolding readable_brand_ids is_among
can_reach_brand scope brand_id = is_among brand_id (readable_brand_ids scope)

-- `brand_ids` lists the identifiers that the comma-joined text holds; an empty user is none.
pub record DatabaseScopeSettings : Type 0 where
  pub merchant_id : RowId
  pub brand_ids : List RowId
  pub user_id : Option RowId
  pub all_brands : Bool

unfoldable pub database_scope_settings : Scope → DatabaseScopeSettings
unfolding covers_all_brands
database_scope_settings (public_scope s) = record {
  merchant_id = s.merchant_id;
  brand_ids = s.brand_id ∷ [];
  user_id = none;
  all_brands = false;
}
database_scope_settings (request_scope s) =
    let all_brands = covers_all_brands s.role in
    record {
      merchant_id = s.merchant_id;
      brand_ids = if all_brands then [] else s.assigned_brand_ids;
      user_id = some s.user_id;
      all_brands = all_brands;
    }

pub data BrandSource : Type 0 where
  params query body none_ : BrandSource

-- PermissionRequirement, with the defaults of `resolveBrandId` filled in.
pub record PermissionRequirement : Type 0 where
  pub resource : Resource
  pub action : Action
  pub brand_from : BrandSource
  pub brand_key : Text

-- What a request holds under a key: a text that is not empty, the empty text, or something else.
pub data Value : Type 0 where
  text : Text → Value
  empty_text other_value : Value

-- `token` is what `extractToken` finds. A request without a body has one that holds nothing.
pub record ScopedRequest : Type 0 where
  pub token : Option Text
  pub ip : Option Text
  pub params : Text → Option Value
  pub query : Text → Option Value
  pub body : Text → Option Value

pub data GuardFailure : Type 0 where
  authentication_required no_requirement no_path_parameter insufficient_permissions : GuardFailure

unfoldable pub source_of : ScopedRequest → BrandSource → Text → Option Value
source_of request params = request.params
source_of request query = request.query
source_of request body = request.body
source_of request none_ = λ _. none

-- `typeof value === 'string' && value.length > 0 ? value : null`
unfoldable pub brand_of : Option Value → Option RowId
brand_of (some (text id)) = some id
brand_of _ = none

-- The routes whose brand must be in the path, and is not.
unfoldable pub lacks_parameter : BrandSource → Option Value → Bool
lacks_parameter params none = true
lacks_parameter _ _ = false

unfoldable pub resolve_brand_id :
    ScopedRequest → PermissionRequirement → Result GuardFailure (Option RowId)
unfolding source_of brand_of lacks_parameter
resolve_brand_id request requirement =
    let value = source_of request requirement.brand_from requirement.brand_key in
    if lacks_parameter requirement.brand_from value
    then err no_path_parameter
    else ok (brand_of value)

unfoldable pub access_request : RequestScope → PermissionRequirement → Option RowId → AccessRequest
access_request scope requirement brand_id = record {
  role = scope.role;
  resource = requirement.resource;
  action = requirement.action;
  assigned_brand_ids = scope.assigned_brand_ids;
  brand_id = brand_id;
}

-- `if (!decision.allowed) throw …`
unfoldable pub decided : AccessDecision → Result GuardFailure (Unit {0})
decided allowed = ok tt
decided _ = err insufficient_permissions

-- The guard from the session's scope on.
unfoldable pub authorise :
    ScopedRequest → RequestScope → Option PermissionRequirement → Result GuardFailure (Unit {0})
unfolding resolve_brand_id access_request decided check_access
authorise request scope none = err no_requirement
authorise request scope (some requirement) = elim (resolve_brand_id request requirement) [
  | err e ↦ err e
  | ok brand_id ↦ decided (check_access (access_request scope requirement brand_id))
]

-- `resolve` is SessionService.resolve; `is_public` and the requirement are the route's metadata.
module _ (resolve : Text → Option Text → Option RequestScope) where
  unfoldable pub scope_of : ScopedRequest → Option RequestScope
  scope_of request = elim request.token [ none ↦ none | some token ↦ resolve token request.ip ]

  unfoldable pub can_activate :
      Bool → Option PermissionRequirement → ScopedRequest → Result GuardFailure (Unit {0})
  unfolding scope_of authorise
  can_activate is_public requirement request =
      if is_public then ok tt else elim (scope_of request) [
        | none ↦ err authentication_required
        | some scope ↦ authorise request scope requirement
      ]
