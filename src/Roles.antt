-- ===== src/Roles.antt =====
-- packages/shared/src/domain/roles.ts: roles, resources, the permission matrix and the access check.
-- A set of actions is the list of them; a cell of the matrix lists the actions that its letters name.
pub mod Check
use multi_brand_invoicing.Prelude.{
  Bool, List, Option, [], any, false, if◌then◌else◌, leb, none, not, some, suc, true, zero, ℕ, ◌&&◌,
  ◌==◌, ◌∷◌,
}
use multi_brand_invoicing.Store.{RowId}

-- ROLES
pub data Role : Type 0 where
  merchant_owner merchant_admin brand_admin finance_user sales_user read_only : Role

-- RESOURCES
pub data Resource : Type 0 where
  organisation_profile plan_and_billing users brands brand_configuration templates : Resource
  custom_domain integrations customers invoices invoice_send payments check_approval : Resource
  tax_and_fee_config reports audit_log system_administration : Resource

-- ACTIONS
pub data Action : Type 0 where
  read write delete approve : Action

unfoldable pub actions : List Action
actions = read ∷ write ∷ delete ∷ approve ∷ []

unfoldable pub roles : List Role
roles = merchant_owner ∷ merchant_admin ∷ brand_admin ∷ finance_user ∷ sales_user ∷ read_only ∷ []

-- `===` on actions
abbrev pub same_action : Action → Action → Bool
same_action read read = true
same_action write write = true
same_action delete delete = true
same_action approve approve = true
same_action _ _ = false

-- RWD, R, RW, RWDA, RWA, A, W and the empty cell
abbrev rwd : List Action
rwd = read ∷ write ∷ delete ∷ []

abbrev rwda : List Action
rwda = read ∷ write ∷ delete ∷ approve ∷ []

abbrev rw_ : List Action
rw_ = read ∷ write ∷ []

abbrev rwa : List Action
rwa = read ∷ write ∷ approve ∷ []

abbrev r : List Action
r = read ∷ []

-- MATRIX, a row of which has a cell for each role in the order of ROLES.
unfoldable pub matrix : Resource → List (List Action)
matrix organisation_profile = rwd ∷ r ∷ r ∷ r ∷ r ∷ r ∷ []
matrix plan_and_billing = rwd ∷ [] ∷ [] ∷ [] ∷ [] ∷ [] ∷ []
matrix users = rwd ∷ rwd ∷ rw_ ∷ [] ∷ [] ∷ [] ∷ []
matrix brands = rwd ∷ rwd ∷ r ∷ r ∷ r ∷ r ∷ []
matrix brand_configuration = rwd ∷ rwd ∷ rwd ∷ r ∷ r ∷ r ∷ []
matrix templates = rwd ∷ rwd ∷ rwd ∷ r ∷ r ∷ r ∷ []
matrix custom_domain = rwd ∷ rwd ∷ rwd ∷ [] ∷ [] ∷ [] ∷ []
matrix integrations = rwd ∷ rwd ∷ rwd ∷ r ∷ [] ∷ [] ∷ []
matrix customers = rwd ∷ rwd ∷ rwd ∷ rw_ ∷ rw_ ∷ r ∷ []
matrix invoices = rwda ∷ rwda ∷ rwda ∷ rwd ∷ rw_ ∷ r ∷ []
matrix invoice_send =
    (write ∷ []) ∷ (write ∷ []) ∷ (write ∷ []) ∷ (write ∷ []) ∷ (write ∷ []) ∷ [] ∷ []
matrix payments = rwda ∷ rwda ∷ rwda ∷ rwa ∷ r ∷ r ∷ []
matrix check_approval =
    (approve ∷ []) ∷ (approve ∷ []) ∷ (approve ∷ []) ∷ (approve ∷ []) ∷ [] ∷ [] ∷ []
matrix tax_and_fee_config = rwd ∷ rwd ∷ rwd ∷ r ∷ [] ∷ [] ∷ []
matrix reports = r ∷ r ∷ r ∷ r ∷ r ∷ r ∷ []
matrix audit_log = r ∷ r ∷ r ∷ [] ∷ [] ∷ [] ∷ []
matrix system_administration = rwd ∷ r ∷ [] ∷ [] ∷ [] ∷ [] ∷ []

-- The index of a role in ROLES.
unfoldable pub role_index : Role → ℕ
role_index merchant_owner = 0
role_index merchant_admin = 1
role_index brand_admin = 2
role_index finance_user = 3
role_index sales_user = 4
role_index read_only = 5

-- `row[index] ?? ''`
unfoldable pub cell_at : ℕ → List (List Action) → List Action
cell_at _ [] = []
cell_at zero (cell ∷ _) = cell
cell_at (suc i) (_ ∷ row) = cell_at i row

-- PERMISSIONS[role][resource]
unfoldable pub actions_for : Role → Resource → List Action
unfolding matrix role_index cell_at
actions_for role resource = cell_at (role_index role) (matrix resource)

unfoldable pub can : Role → Resource → Action → Bool
unfolding actions_for
can role resource action = any (same_action action) (actions_for role resource)

-- ALL_BRAND_ROLES.has
unfoldable pub covers_all_brands : Role → Bool
covers_all_brands merchant_owner = true
covers_all_brands merchant_admin = true
covers_all_brands _ = false

unfoldable pub rank_of : Role → ℕ
rank_of merchant_owner = 6
rank_of merchant_admin = 5
rank_of brand_admin = 4
rank_of finance_user = 3
rank_of sales_user = 2
rank_of read_only = 1

unfoldable pub may_assign_role : Role → Role → Bool
unfolding can rank_of
may_assign_role actor target = can actor users write && leb (rank_of target) (rank_of actor)

-- Array.prototype.filter
unfoldable pub filter : {A : Type 0} → (A → Bool) → List A → List A
filter p [] = []
filter p (x ∷ xs) = let rest = filter p xs in if p x then x ∷ rest else rest

abbrev pub PermissionGrants : Type 0
PermissionGrants = Resource → List Action

unfoldable pub grants_for : Role → PermissionGrants
unfolding can actions filter
grants_for role resource = filter (can role resource) actions

-- Null or undefined grants are none.
unfoldable pub has_grant : Option PermissionGrants → Resource → Action → Bool
has_grant none _ _ = false
has_grant (some grants) resource action = any (same_action action) (grants resource)

unfoldable pub assignable_roles_for : Role → List Role
unfolding filter may_assign_role roles
assignable_roles_for actor = filter (may_assign_role actor) roles

pub record AccessRequest : Type 0 where
  pub role : Role
  pub resource : Resource
  pub action : Action
  pub assigned_brand_ids : List RowId
  pub brand_id : Option RowId

pub data AccessDecision : Type 0 where
  allowed role_lacks_action brand_not_assigned : AccessDecision

unfoldable pub check_brand : Role → List RowId → Option RowId → AccessDecision
unfolding covers_all_brands
check_brand role assigned none = allowed
check_brand role assigned (some brand_id) =
    if covers_all_brands role
    then allowed
    else if any (λ b. b == brand_id) assigned
    then allowed
    else brand_not_assigned

unfoldable pub check_access : AccessRequest → AccessDecision
unfolding can check_brand
check_access request =
    if not (can request.role request.resource request.action)
    then role_lacks_action
    else check_brand request.role request.assigned_brand_ids request.brand_id
