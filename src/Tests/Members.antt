-- ===== src/Tests/Members.antt =====
-- Two owners of a merchant, one of whom suspends and demotes the other.
use multi_brand_invoicing.Auth.{AuthState, User, count_where, find_row, suspended}
use multi_brand_invoicing.Prelude.{[], arith, none, ok, refl, some, ◌∷◌, ◌≡◌}
use multi_brand_invoicing.Tenancy.{RequestScope}
use multi_brand_invoicing.Roles.{
  actions_for, brand_admin, can, covers_all_brands, matrix, may_assign_role, merchant_owner,
  rank_of,
}
use multi_brand_invoicing.Users.{
  assert_not_last_owner, is_visible, require_visible, update_role, update_status, update_status_in,
}
use multi_brand_invoicing.Users.Invitations.{InviteUserInput}
use multi_brand_invoicing.Users.Owners.{HasOwner, update_role-HasOwner, update_status-HasOwner}
use multi_brand_invoicing.Tests.Data.{accounts, owner}

abbrev partner : User
partner = record owner { id = 6; email = 91 }

abbrev partners : AuthState
partners = record accounts { users = owner ∷ partner ∷ [] }

abbrev as_owner : RequestScope
as_owner = record {
  merchant_id = 2;
  user_id = 4;
  role = merchant_owner;
  assigned_brand_ids = [];
  session_id = 1;
  source_ip = none;
}

update_status-HasOwner_example : HasOwner 2 (update_status as_owner 6 suspended partners).1
unfolding find_row count_where
update_status-HasOwner_example =
    update_status-HasOwner as_owner 6 suspended partners (refl, (refl, tt)) (omega arith)

update_role-HasOwner_example :
    HasOwner 2 (update_role as_owner 6 brand_admin (some (3 ∷ [])) partners).1
unfolding find_row count_where
update_role-HasOwner_example =
    update_role-HasOwner as_owner 6 brand_admin (some (3 ∷ [])) partners (refl, (refl, tt))
      (omega arith)

-- The suspension goes through, and the last owner's does not.
suspended_partner : (update_status as_owner 6 suspended partners).0 ≡ ok tt
unfolding update_status update_status_in require_visible assert_not_last_owner count_where find_row
    is_visible may_assign_role can actions_for matrix rank_of covers_all_brands
suspended_partner = refl

abbrev newcomer : InviteUserInput
newcomer = record { email = 92; role = brand_admin; brand_ids = 3 ∷ 3 ∷ [] }
