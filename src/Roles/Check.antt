-- ===== src/Roles/Check.antt =====
-- What the permission matrix and the access check (roles.ts) guarantee.
use multi_brand_invoicing.Prelude.{
  Bool, List, Option, all, any, arith, false, if◌then◌else◌, leb, none, not, refl, some, subst,
  true, ◌&&◌, ◌==◌, ◌↔◌, ◌≡◌, ◌≢◌, ◌⊎◌,
}
use multi_brand_invoicing.Roles.{
  AccessDecision, AccessRequest, Action, Resource, Role, actions, allowed, approve, audit_log,
  brand_admin, brand_configuration, brand_not_assigned, brands, can, check_access, check_approval,
  check_brand, covers_all_brands, custom_domain, customers, delete, filter, finance_user,
  grants_for, has_grant, integrations, invoice_send, invoices, may_assign_role, merchant_admin,
  merchant_owner, organisation_profile, payments, plan_and_billing, rank_of, read, read_only,
  reports, role_lacks_action, roles, sales_user, same_action, system_administration,
  tax_and_fee_config, templates, users, write,
}
use multi_brand_invoicing.Store.{RowId}

abbrev implies : Bool → Bool → Bool
implies true b = b
implies false _ = true

implied : (a b : Bool) → implies a b ≡ true → a ≡ true → b ≡ true
implied true b h _ = h
implied false b h e = ground arith

and_left : (a b : Bool) → (a && b) ≡ true → a ≡ true
and_left true b h = refl
and_left false b h = h

and_right : (a b : Bool) → (a && b) ≡ true → b ≡ true
and_right true b h = h
and_right false b h = ground arith

-- A test that every role passes, and one that every action passes.
each_role : (p : Role → Bool) → all p roles ≡ true → (role : Role) → p role ≡ true
unfolding roles
each_role p h merchant_owner = ground arith
each_role p h merchant_admin = ground arith
each_role p h brand_admin = ground arith
each_role p h finance_user = ground arith
each_role p h sales_user = ground arith
each_role p h read_only = ground arith

each_action : (p : Action → Bool) → all p actions ≡ true → (a : Action) → p a ≡ true
unfolding actions
each_action p h read = ground arith
each_action p h write = ground arith
each_action p h delete = ground arith
each_action p h approve = ground arith

abbrev outranks : Role → Role → Bool
outranks senior junior = leb (rank_of junior) (rank_of senior)

abbrev includes : Resource → Role → Role → Action → Bool
includes resource senior junior a =
    implies (outranks senior junior) (implies (can junior resource a) (can senior resource a))

abbrev is_monotone : Resource → Bool
is_monotone resource =
    all (λ senior. all (λ junior. all (includes resource senior junior) actions) roles) roles

matrix_is_monotone : (resource : Resource) → is_monotone resource ≡ true
unfolding can roles actions rank_of
matrix_is_monotone organisation_profile = refl
matrix_is_monotone plan_and_billing = refl
matrix_is_monotone users = refl
matrix_is_monotone brands = refl
matrix_is_monotone brand_configuration = refl
matrix_is_monotone templates = refl
matrix_is_monotone custom_domain = refl
matrix_is_monotone integrations = refl
matrix_is_monotone customers = refl
matrix_is_monotone invoices = refl
matrix_is_monotone invoice_send = refl
matrix_is_monotone payments = refl
matrix_is_monotone check_approval = refl
matrix_is_monotone tax_and_fee_config = refl
matrix_is_monotone reports = refl
matrix_is_monotone audit_log = refl
matrix_is_monotone system_administration = refl

can_of_rank :
    (senior junior : Role) (resource : Resource) (a : Action)
    → outranks senior junior ≡ true
    → can junior resource a ≡ true
    → can senior resource a ≡ true
can_of_rank senior junior resource a h e =
    implied _ _
      (implied _ _
        (each_action _ (each_role _ (each_role _ (matrix_is_monotone resource) senior) junior) a) h)
      e

-- Nobody hands out more than they hold: where an actor may assign a role, the actor manages users, and
-- every action that the role has on any resource, the actor has on it too.
pub may_assign_role-can :
    (actor target : Role)
    → may_assign_role actor target ≡ true
    → (can actor users write ≡ true)
      × ((resource : Resource) (a : Action)
          → can target resource a ≡ true
          → can actor resource a ≡ true)
unfolding may_assign_role
may_assign_role-can actor target h =
    (and_left _ _ h, λ resource a. can_of_rank actor target resource a (and_right _ _ h))

granted : (f : Action → Bool) (a : Action) → any (same_action a) (filter f actions) ≡ f a
unfolding filter actions
granted f read = ground arith
granted f write = ground arith
granted f delete = ground arith
granted f approve = ground arith

-- The grants that a client receives decide as the matrix does: for every role, resource and action.
pub has_grant-grants_for :
    (role : Role) (resource : Resource) (a : Action)
    → has_grant (some (grants_for role)) resource a ≡ can role resource a
unfolding has_grant grants_for
has_grant-grants_for role resource a = granted (can role resource) a

abbrev pub MayReach : Role → List RowId → Option RowId → Type 0
MayReach role assigned brand =
    (b : RowId)
    → brand ≡ some b
    → (covers_all_brands role ≡ true) ⊎ (any (λ i. i == b) assigned ≡ true)

some_inj : {b c : RowId} → some b ≡ some c → b ≡ c
some_inj e = cc

brand_test :
    (c d : Bool)
    → (if c then allowed else if d then allowed else brand_not_assigned) ≡ allowed
    → (c ≡ true) ⊎ (d ≡ true)
brand_test c d = ground arith

brand_pass :
    (c d : Bool)
    → (c ≡ true) ⊎ (d ≡ true)
    → (if c then allowed else if d then allowed else brand_not_assigned) ≡ allowed
brand_pass c d = ground arith

check_brand_iff :
    (role : Role) (assigned : List RowId) (brand : Option RowId)
    → (check_brand role assigned brand ≡ allowed) ↔ MayReach role assigned brand
unfolding check_brand
check_brand_iff role assigned none = (λ _ b e. ground arith, λ _. refl)
check_brand_iff role assigned (some b) = (
  λ h b' e.
      subst (λ x. (covers_all_brands role ≡ true) ⊎ (any (λ i. i == x) assigned ≡ true))
        (some_inj e) (brand_test _ _ h),
  λ h. brand_pass _ _ (h b refl),
)

check_brand_lacks :
    (role : Role) (assigned : List RowId) (brand : Option RowId)
    → check_brand role assigned brand ≢ role_lacks_action
unfolding check_brand
check_brand_lacks role assigned none = ground arith
check_brand_lacks role assigned (some b) = ground arith

check_cases :
    {P : Type 0} (c : Bool) (d : AccessDecision)
    → (d ≡ allowed) ↔ P
    → d ≢ role_lacks_action
    → (((if not c then role_lacks_action else d) ≡ allowed) ↔ ((c ≡ true) × P))
      × (((if not c then role_lacks_action else d) ≡ role_lacks_action) ↔ (c ≡ false))
check_cases true d b n =
    ((λ h. (refl, b.0 h), λ h. b.1 h.1), (λ h. ground arith, λ h. ground arith))
check_cases false d b n = ((λ h. ground arith, λ h. ground arith), (λ h. refl, λ h. refl))

-- The access check allows a request exactly when the matrix lets the role act on the resource and the
-- request targets no brand, or the role covers all brands, or the brand is among the assigned ones;
-- and it names the role as the reason exactly when the matrix refuses.
pub check_access_iff :
    (q : AccessRequest)
    → ((check_access q ≡ allowed) ↔ (
        (can q.role q.resource q.action ≡ true)
        × ((b : RowId)
            → q.brand_id ≡ some b
            → (covers_all_brands q.role ≡ true) ⊎ (any (λ i. i == b) q.assigned_brand_ids ≡ true))))
      × ((check_access q ≡ role_lacks_action) ↔ (can q.role q.resource q.action ≡ false))
unfolding check_access
check_access_iff q =
    let b = check_brand_iff q.role q.assigned_brand_ids q.brand_id in
    let n = check_brand_lacks q.role q.assigned_brand_ids q.brand_id in
    check_cases (can q.role q.resource q.action) _ b n
