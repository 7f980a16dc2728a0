-- ===== src/Users/Owners.antt =====
-- A merchant keeps an owner that is not suspended.
use multi_brand_invoicing.Prelude.{
  All, Bool, Bool-cases, List, Option, Result, [], ap, arith, err, false, if◌then◌else◌, inl, inr,
  not, ok, refl, some, sym, true, ◌&&◌, ◌<◌, ◌==◌, ◌∙◌, ◌∷◌, ◌≡◌, ◌≤◌,
}
use multi_brand_invoicing.Roles.{Role}
use multi_brand_invoicing.Tenancy.{RequestScope}
use multi_brand_invoicing.Auth.{AuthState, User, UserStatus, count_where, find_row, update_where}
use multi_brand_invoicing.Auth.Sessions.{is_suspended}
use multi_brand_invoicing.Auth.Service.{has_id, update_user}
use multi_brand_invoicing.Auth.SignIn.{find_row_sound}
use multi_brand_invoicing.Users.Returned.{
  unless_self, update_role_in_lem, update_status_in_lem, visible_found,
}
use multi_brand_invoicing.Users.{
  UserFailure, assert_not_last_owner, commit, guard_owner, is_other_owner, is_owner,
  is_standing_owner, is_visible, own_account, require_visible, update_role, update_role_in,
  update_status, update_status_in, with_role, with_status,
}
use multi_brand_invoicing.Store.{RowId}

-- An owner of the merchant stands.
abbrev pub HasOwner : RowId → AuthState → Type 0
HasOwner merchant_id st = 0 < count_where (is_standing_owner merchant_id) st.users

-- Users have identifiers of their own.
abbrev pub IsUnique : AuthState → Type 0
IsUnique st = All (λ (u : User). find_row (has_id u.id) st.users ≡ some u) st.users

All-imp :
    {A : Type 0} {P Q : A → Type 0} (xs : List A) → All P xs → ((x : A) → P x → Q x) → All Q xs
All-imp [] h f = tt
All-imp (x ∷ xs) (h, hs) f = (f x h, All-imp xs hs f)

All-always : {A : Type 0} {P : A → Type 0} (xs : List A) → ((x : A) → P x) → All P xs
All-always [] f = tt
All-always (x ∷ xs) f = (f x, All-always xs f)

-- What is counted before an update is counted after it.
count_where-update_where :
    (p q r : User → Bool) (f : User → User) (us : List User)
    → All (λ u. p u ≡ true → q (if r u then f u else u) ≡ true) us
    → count_where p us ≤ count_where q (update_where r f us)
unfolding count_where update_where
count_where-update_where p q r f [] h = omega arith
count_where-update_where p q r f (u ∷ us) (h, hs) =
    ground (arith, h, count_where-update_where p q r f us hs)

-- The row of the transaction is the only one with its identifier.
only_row :
    (scope : RequestScope) (id : RowId) (st : AuthState) (u v : User)
    → IsUnique st
    → require_visible scope id st ≡ ok u
    → find_row (has_id v.id) st.users ≡ some v
    → (v.id == u.id) ≡ true
    → v ≡ u
only_row scope id st u v unique e row same =
    let IsRow = λ (w : User). find_row (has_id w.id) st.users ≡ some w in
    let (own, _) =
      find_row_sound IsRow (λ (w : User). w.id == id && is_visible scope st.assignments w) st.users
        u unique (visible_found scope id st u e) in
    let one : v.id ≡ u.id = ground arith in
    let both : some v ≡ some u = sym row ∙ ap (λ k. find_row (has_id k) st.users) one ∙ own in cc

-- An update of one row keeps an owner standing if another owner stands, or the row is no standing owner,
-- or it stays one.
module _ (merchant_id id : RowId) (f : User → User) (st : AuthState) where
  other_stays :
      (u : User)
      → is_other_owner merchant_id id u ≡ true
      → is_standing_owner merchant_id (if has_id id u then f u else u) ≡ true
  other_stays u k = elim (Bool-cases (u.id == id)) [
    | inl same ↦ absurd (ground (arith, k, same))
    | inr differs ↦ rw differs (ground (arith, k))
  ]

  kept_by_other :
      0 < count_where (is_other_owner merchant_id id) st.users
      → HasOwner merchant_id (update_user id f st)
  unfolding update_user
  kept_by_other h = omega (
    arith,
    h,
    count_where-update_where (is_other_owner merchant_id id) (is_standing_owner merchant_id)
        (has_id id) f st.users (All-always st.users other_stays),
  )

  Stays : User → Type 0
  Stays u =
      is_standing_owner merchant_id u ≡ true
      → (u.id == id) ≡ true
      → is_standing_owner merchant_id (f u) ≡ true

  owner-Stays :
      (u : User)
      → Stays u
      → is_standing_owner merchant_id u ≡ true
      → is_standing_owner merchant_id (if has_id id u then f u else u) ≡ true
  unfolding Stays
  owner-Stays u stays k = elim (Bool-cases (u.id == id)) [
    | inl same ↦ rw same (stays k same)
    | inr differs ↦ rw differs k
  ]

  kept_as_owner :
      All Stays st.users → HasOwner merchant_id st → HasOwner merchant_id (update_user id f st)
  unfolding update_user
  kept_as_owner stays h = omega (
    arith,
    h,
    count_where-update_where (is_standing_owner merchant_id) (is_standing_owner merchant_id)
        (has_id id) f st.users (All-imp st.users stays owner-Stays),
  )

-- The guard: with it, another owner stands; without it, the row is no owner or stays one.
guarded :
    (needed : Bool) (merchant_id id : RowId) (f : User → User) (st : AuthState)
    → guard_owner needed merchant_id id st ≡ ok tt
    → (needed ≡ false → All (Stays merchant_id id f st) st.users)
    → HasOwner merchant_id st
    → HasOwner merchant_id (update_user id f st)
unfolding assert_not_last_owner
guarded true merchant_id id f st e stays h = kept_by_other merchant_id id f st (ground (arith, e))
guarded false merchant_id id f st e stays h = kept_as_owner merchant_id id f st (stays refl) h

status_lem :
    (m : RowId) (status : UserStatus) (v : User)
    → is_standing_owner m v ≡ true
    → (is_suspended status && is_owner v.role) ≡ false
    → is_standing_owner m (with_status status v) ≡ true
status_lem m status v k spared = ground (arith, k, spared)

role_lem :
    (m : RowId) (role : Role) (v : User)
    → is_standing_owner m v ≡ true
    → (is_owner v.role && not (is_owner role)) ≡ false
    → is_standing_owner m (with_role role v) ≡ true
role_lem m role v k spared = ground (arith, k, spared)

role-Stays :
    (scope : RequestScope) (id : RowId) (role : Role) (st : AuthState) (u : User)
    → IsUnique st
    → require_visible scope id st ≡ ok u
    → (is_owner u.role && not (is_owner role)) ≡ false
    → All (Stays scope.merchant_id u.id (with_role role) st) st.users
unfolding Stays
role-Stays scope id role st u unique e spared = All-imp st.users unique (λ v row k same.
    let one : v ≡ u = only_row scope id st u v unique e row same in
    role_lem scope.merchant_id role v k (rw one spared))

status-Stays :
    (scope : RequestScope) (id : RowId) (status : UserStatus) (st : AuthState) (u : User)
    → IsUnique st
    → require_visible scope id st ≡ ok u
    → (is_suspended status && is_owner u.role) ≡ false
    → All (Stays scope.merchant_id u.id (with_status status) st) st.users
unfolding Stays
status-Stays scope id status st u unique e spared = All-imp st.users unique (λ v row k same.
    let one : v ≡ u = only_row scope id st u v unique e row same in
    status_lem scope.merchant_id status v k (rw one spared))

committed :
    (P : AuthState → Type 0) (before : AuthState) (r : Result UserFailure AuthState)
    → P before
    → ((st : AuthState) → r ≡ ok st → P st)
    → P (commit before r).1
committed P before (ok st) h f = f st refl
committed P before (err e) h f = h

-- The status of a user is changed: if the merchant has an owner that is not suspended, it has one
-- afterwards, whatever the call does. Users have identifiers of their own.
pub update_status-HasOwner :
    (scope : RequestScope) (id : RowId) (status : UserStatus) (st : AuthState)
    → IsUnique st
    → HasOwner scope.merchant_id st
    → HasOwner scope.merchant_id (update_status scope id status st).1
unfolding update_status
update_status-HasOwner scope id status st unique h =
    committed (HasOwner scope.merchant_id) st
      (if id == scope.user_id then err own_account else update_status_in scope id status st) h
      (λ st' e.
        let (u, seen, guard, after) =
          update_status_in_lem scope id status st st' (unless_self (id == scope.user_id) _ st' e) in
        rw after (
          guarded (is_suspended status && is_owner u.role) scope.merchant_id u.id
            (with_status status) st guard (status-Stays scope id status st u unique seen) h))

-- The role of a user is changed: if the merchant has an owner that is not suspended, it has one
-- afterwards, whatever the call does. Users have identifiers of their own.
pub update_role-HasOwner :
    (scope : RequestScope) (id : RowId) (role : Role) (ids : Option (List RowId)) (st : AuthState)
    → IsUnique st
    → HasOwner scope.merchant_id st
    → HasOwner scope.merchant_id (update_role scope id role ids st).1
unfolding update_role
update_role-HasOwner scope id role ids st unique h =
    committed (HasOwner scope.merchant_id) st
      (if id == scope.user_id then err own_account else update_role_in scope id role ids st) h
      (λ st' e.
        let (u, seen, guard, _, _, after) =
          update_role_in_lem scope id role ids st st' (unless_self (id == scope.user_id) _ st' e) in
        rw after (
          guarded (is_owner u.role && not (is_owner role)) scope.merchant_id u.id (with_role role)
            st guard (role-Stays scope id role st u unique seen) h))
