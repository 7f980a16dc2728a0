-- ===== src/Auth/SignIn.antt =====
-- Who signs in, and what the session that it opens resolves to.
use multi_brand_invoicing.Prelude.{
  ==_refl, All, Bool, Bool-cases, List, Option, Result, [], arith, err, false, inl, inr, none, ok,
  refl, some, true, ◌==◌, ◌∷◌, ◌≡◌,
}
use multi_brand_invoicing.Prelude.Int.{leb_ℤ, ◌+ℤ◌, ◌<ℤ◌}
use multi_brand_invoicing.Tenancy.{RequestScope}
use multi_brand_invoicing.Auth.Rows.{
  AuthState, Session, User, auth_login, find_row, select_where, success,
}
use multi_brand_invoicing.Auth.Sessions.{
  brands_of, is_suspended, issue_session, resolve, resolve_row, scope_of_row, session_ttl,
}
use multi_brand_invoicing.Auth.Service.{
  LoginAttempt, LoginResult, audit, choose_candidate, has_id, is_locked, login, login_as,
  result_for, signed_in, update_user,
}
use multi_brand_invoicing.Auth.Lockout.{find_row-update_where}
use multi_brand_invoicing.Store.{Failure, Instant, Text, unauthorized}

module _ {A : Type 0} (P : A → Type 0) (p : A → Bool) where
  -- A row that is found passes the test, and has what all rows have.
  pub find_row_sound :
      (xs : List A) (a : A) → All P xs → find_row p xs ≡ some a → P a × (p a ≡ true)
  unfolding find_row
  find_row_sound [] a h e = cc
  find_row_sound (x ∷ xs) a (h, hs) e = elim (Bool-cases (p x)) [
    | inl yes_p ↦ ground (arith, h)
    | inr no_p ↦ find_row_sound xs a hs (rw no_p at e)
  ]

  All-select_where : (xs : List A) → All P xs → All (λ x. P x × (p x ≡ true)) (select_where p xs)
  unfolding select_where
  All-select_where [] h = tt
  All-select_where (x ∷ xs) (h, hs) = elim (Bool-cases (p x)) [
    | inl yes_p ↦ rw yes_p ((h, yes_p), All-select_where xs hs)
    | inr no_p ↦ rw no_p (All-select_where xs hs)
  ]

module _ (hash hash_password : Text → Text) (verify_password : Text → Text → Bool) where
  -- Why an attempt succeeds for a user.
  pub record IsAdmitted (attempt : LoginAttempt) (now : Instant) (u : User) : Type 0 where
    pub address : (u.email == attempt.email) ≡ true
    pub password : verify_password attempt.password u.password_hash ≡ true
    pub unlocked : is_locked u.locked_until now ≡ false
    pub not_suspended : is_suspended u.status ≡ false

  chosen_lem :
      (o : Option User) (v u : User)
      → ◌≡◌ {A = Option (User × Bool)}
          (elim o [ some c ↦ some (c, true) | none ↦ some (v, false) ])
          (some (u, true))
      → o ≡ some u
  chosen_lem none v u e = ground arith
  chosen_lem (some c) v u e = ground arith

  chosen_sound :
      (P : User → Type 0) (password : Text) (us : List User) (u : User)
      → All P us
      → choose_candidate hash hash_password verify_password password us ≡ some (u, true)
      → P u × (verify_password password u.password_hash ≡ true)
  unfolding choose_candidate
  chosen_sound P password [] u h e = cc
  chosen_sound P password (v ∷ us) u h e =
      let right = λ (c : User). verify_password password c.password_hash in
      find_row_sound P right (v ∷ us) u h (chosen_lem (find_row right (v ∷ us)) v u e)

  -- The state after a sign-in.
  abbrev pub entered : User → Text → Instant → AuthState → AuthState
  entered u token now st =
      audit u.merchant_id u.id success none auth_login now
        (update_user u.id (signed_in now) (issue_session hash u.id token now st))

  login_as_returned :
      (u : User) (matched : Bool) (token : Text) (now : Instant) (st st' : AuthState)
      (r : LoginResult)
      → login_as hash hash_password verify_password u matched token now st ≡ (ok r, st')
      → (matched ≡ true)
        × (is_locked u.locked_until now ≡ false)
        × (is_suspended u.status ≡ false)
        × (r ≡ result_for token u)
        × (st' ≡ entered u token now st)
  unfolding login_as
  login_as_returned u matched token now st st' r e = ground arith

  login_chosen :
      (o : Option (User × Bool)) (token : Text) (now : Instant) (st st' : AuthState)
      (r : LoginResult)
      → ◌≡◌ {A = Result Failure LoginResult × AuthState}
          (elim o [
            | none ↦ (err unauthorized, st)
            | some (u, matched) ↦ login_as hash hash_password verify_password u matched token now st
          ])
          (ok r, st')
      → (u : User) × (o ≡ some (u, true))
        × (is_locked u.locked_until now ≡ false)
        × (is_suspended u.status ≡ false)
        × (r ≡ result_for token u)
        × (st' ≡ entered u token now st)
  login_chosen none token now st st' r e = ground arith
  login_chosen (some (u, matched)) token now st st' r e =
      let (m, l, s, same, after) = login_as_returned u matched token now st st' r e in
      (u, rw m refl, l, s, same, after)

  -- The new session resolves to its user.
  entered-resolve :
      (u : User) (token : Text) (now later : Instant) (ip : Option Text) (st : AuthState)
      → find_row (has_id u.id) st.users ≡ some u
      → is_suspended u.status ≡ false
      → later <ℤ now +ℤ session_ttl
      → (scope : RequestScope) × (resolve hash (entered u token now st) later token ip ≡ some scope)
        × (scope.user_id ≡ u.id)
        × (scope.role ≡ u.role)
        × (scope.merchant_id ≡ u.merchant_id)
  unfolding resolve audit update_user issue_session resolve_row scope_of_row find_row
  entered-resolve u token now later ip st found fine before =
      let opened : Session = record {
        id = st.next_session_id;
        user_id = u.id;
        token_hash = hash token;
        expires_at = now +ℤ session_ttl;
        revoked_at = none;
      } in
      let row = find_row-update_where u.id (signed_in now) st.users u (λ v. refl) found in
      let alive : leb_ℤ (now +ℤ session_ttl) later ≡ false = ground arith in
      (
        scope_of_row ip opened (signed_in now u) (brands_of u.id st.assignments),
        ground (arith, ==_refl (hash token), row, alive, fine),
        refl,
        refl,
        refl,
      )

  -- A sign-in that returns: it was for a user with that address and that password, who is neither
  -- locked nor suspended, and the session that it opens resolves to the scope of that user, with the
  -- user's role and merchant, until it expires. Users have identifiers of their own.
  pub login-resolve :
      (attempt : LoginAttempt) (token : Text) (now later : Instant) (ip : Option Text)
      (st st' : AuthState) (r : LoginResult)
      → All (λ (u : User). find_row (has_id u.id) st.users ≡ some u) st.users
      → login hash hash_password verify_password attempt token now st ≡ (ok r, st')
      → later <ℤ now +ℤ session_ttl
      → (u : User) × IsAdmitted attempt now u
        × (r ≡ result_for token u)
        × ((scope : RequestScope) × (resolve hash st' later token ip ≡ some scope)
            × (scope.user_id ≡ u.id)
            × (scope.role ≡ u.role)
            × (scope.merchant_id ≡ u.merchant_id))
  unfolding login
  login-resolve attempt token now later ip st st' r unique e before =
      let at_address = λ (v : User). v.email == attempt.email in
      let IsRow = λ (v : User). find_row (has_id v.id) st.users ≡ some v in
      let (u, chosen, unlocked, fine, same, after) =
        login_chosen
          (choose_candidate hash hash_password verify_password attempt.password
            (select_where at_address st.users))
          token now st st' r e in
      let ((row, address), right) =
        chosen_sound (λ (v : User). IsRow v × (at_address v ≡ true)) attempt.password
          (select_where at_address st.users) u (All-select_where IsRow at_address st.users unique)
          chosen in
      (
        u,
        record { address = address; password = right; unlocked = unlocked; not_suspended = fine },
        same,
        rw after (entered-resolve u token now later ip st row fine before),
      )
