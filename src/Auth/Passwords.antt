-- ===== src/Auth/Passwords.antt =====
-- What setting a password from a link leaves.
use multi_brand_invoicing.Prelude.{
  ==_refl, All, Bool, List, Option, [], ap, arith, false, none, ok, refl, some, true, ◌==◌, ◌∙◌,
  ◌∷◌, ◌≡◌,
}
use multi_brand_invoicing.Prelude.Int.{leb_ℤ, ◌+ℤ◌, ◌<ℤ◌, ◌≤ℤ◌}
use multi_brand_invoicing.Auth.Rows.{
  AuthState, PasswordResetToken, Session, User, active, count_where, find_row, update_where,
}
use multi_brand_invoicing.Auth.Sessions.{
  brands_of, is_live_of, issue_session, resolve, resolve_row, revoke_all_for_user, revoked,
  scope_of_row, session_ttl,
}
use multi_brand_invoicing.Auth.Resets.{consume, is_claimable, spent}
use multi_brand_invoicing.Auth.Service.{
  LoginResult, audit, has_id, password_set, set_password_with_token, update_user, with_password,
}
use multi_brand_invoicing.Auth.Lockout.{find_row-update_where}
use multi_brand_invoicing.Auth.Tokens.{consume_once}
use multi_brand_invoicing.Tenancy.{RequestScope}
use multi_brand_invoicing.Store.{Instant, RowId, Text}

abbrev with_digest : Text → PasswordResetToken → Bool
with_digest digest t = t.token_hash == digest

claimable-count :
    (digest : Text) (now : Instant) (ts : List PasswordResetToken) (t : PasswordResetToken)
    → find_row (with_digest digest) ts ≡ some t
    → is_claimable digest now t ≡ true
    → (count_where (is_claimable digest now) ts == 0) ≡ false
unfolding find_row count_where
claimable-count digest now [] t h c = cc
claimable-count digest now (r ∷ ts) t h c = ground (arith, h, c, claimable-count digest now ts t)

spent_row :
    (digest : Text) (now : Instant) (ts : List PasswordResetToken) (t : PasswordResetToken)
    → find_row (with_digest digest) ts ≡ some t
    → is_claimable digest now t ≡ true
    → find_row (with_digest digest) (update_where (is_claimable digest now) (spent now) ts)
      ≡ some (spent now t)
unfolding find_row update_where
spent_row digest now [] t h c = cc
spent_row digest now (r ∷ ts) t h c = ground (arith, h, c, spent_row digest now ts t)

-- A link that can be claimed is claimed for its user.
consume_lem :
    (hash : Text → Text) (token : Text) (now : Instant) (st : AuthState) (t : PasswordResetToken)
    → find_row (with_digest (hash token)) st.reset_tokens ≡ some t
    → is_claimable (hash token) now t ≡ true
    → consume hash token now st ≡ (
      some t.user_id,
      record st {
        reset_tokens = update_where (is_claimable (hash token) now) (spent now) st.reset_tokens;
      },
    )
unfolding consume
consume_lem hash token now st t h c =
    rw
      (
        claimable-count (hash token) now st.reset_tokens t h c,
        spent_row (hash token) now st.reset_tokens t h c,
      )
      refl

-- A session that is live after every one of the user was revoked is not the user's.
none_live :
    (user_id : RowId) (now : Instant) (ss : List Session)
    → All
        (λ (s : Session). is_live_of user_id s ≡ false)
        (update_where (is_live_of user_id) (revoked now) ss)
unfolding update_where
none_live user_id now [] = tt
none_live user_id now (s ∷ ss) = (ground arith, none_live user_id now ss)

module _ (hash hash_password : Text → Text) (verify_password : Text → Text → Bool) where
  -- Why a link works: it is the one with its digest, unused and not expired, and its user exists.
  pub record IsLink (token : Text) (now : Instant) (st : AuthState) (u : User) : Type 0 where
    pub row : PasswordResetToken
    pub listed :
        find_row (λ (t : PasswordResetToken). t.token_hash == hash token) st.reset_tokens ≡ some row
    pub usable : is_claimable (hash token) now row ≡ true
    pub same_user : row.user_id ≡ u.id
    pub user : find_row (has_id u.id) st.users ≡ some u

  abbrev claimed : Text → Instant → AuthState → AuthState
  claimed token now st = record st {
    reset_tokens = update_where (is_claimable (hash token) now) (spent now) st.reset_tokens;
  }

  abbrev pub result_of : Text → User → LoginResult
  result_of session_token u = record {
    token = session_token;
    user_id = u.id;
    must_reset_password = false;
  }

  -- The state after a password was set.
  abbrev after_set : Text → Text → Text → Instant → User → AuthState → AuthState
  after_set token new_password session_token now u st =
      password_set hash hash_password verify_password
        (with_password hash hash_password verify_password new_password u) session_token now
        (update_user u.id (with_password hash hash_password verify_password new_password)
          (claimed token now st))

  set_password_with_token-after_set :
      (token new_password session_token : Text) (now : Instant) (st : AuthState) (u : User)
      → IsLink token now st u
      → set_password_with_token hash hash_password verify_password token new_password session_token
          now st
        ≡ (
          ok (record { token = session_token; user_id = u.id; must_reset_password = false }),
          after_set token new_password session_token now u st,
        )
  unfolding set_password_with_token update_user
  set_password_with_token-after_set token new_password session_token now st u link =
      let f = with_password hash hash_password verify_password new_password in
      let opened : consume hash token now st ≡ (some u.id, claimed token now st) =
        consume_lem hash token now st link.row link.listed link.usable
        ∙ ap (λ (z : RowId). (some z, claimed token now st)) link.same_user in
      rw
        (
          set_password_with_token,
          opened,
          opened,
          find_row-update_where u.id f st.users u (λ v. refl) link.user,
        )
        (ap
          (λ (z : Option RowId × AuthState). (
            ok (result_of session_token u),
            password_set hash hash_password verify_password (f u) session_token now
                (update_user u.id f z.1),
          ))
          opened)

  after_set-user :
      (token new_password session_token : Text) (now : Instant) (st : AuthState) (u : User)
      → find_row (has_id u.id) st.users ≡ some u
      → find_row (has_id u.id) (after_set token new_password session_token now u st).users
        ≡ some (with_password hash hash_password verify_password new_password u)
  unfolding password_set audit issue_session revoke_all_for_user update_user
  after_set-user token new_password session_token now st u h =
      find_row-update_where u.id (with_password hash hash_password verify_password new_password)
        st.users u (λ v. refl) h

  after_set-sessions :
      (token new_password session_token : Text) (now : Instant) (st : AuthState) (u : User)
      → (s : Session) × (ss : List Session) × ((after_set token new_password session_token now u
            st).sessions
          ≡ s ∷ ss)
        × All (λ (old : Session). is_live_of u.id old ≡ false) ss
  unfolding password_set audit issue_session revoke_all_for_user update_user
  after_set-sessions token new_password session_token now st u =
      (_, _, refl, none_live u.id now st.sessions)

  after_set-resolve :
      (token new_password session_token : Text) (now later : Instant) (ip : Option Text)
      (st : AuthState) (u : User)
      → find_row (has_id u.id) st.users ≡ some u
      → later <ℤ now +ℤ session_ttl
      → (scope : RequestScope) × (resolve hash
            (after_set token new_password session_token now u st)
            later
            session_token
            ip
          ≡ some scope)
        × (scope.user_id ≡ u.id)
  unfolding password_set audit issue_session revoke_all_for_user update_user resolve resolve_row
      scope_of_row find_row
  after_set-resolve token new_password session_token now later ip st u h before =
      let f = with_password hash hash_password verify_password new_password in
      let row = find_row-update_where u.id f st.users u (λ v. refl) h in
      let alive : leb_ℤ (now +ℤ session_ttl) later ≡ false = ground arith in
      let opened : Session = record {
        id = st.next_session_id;
        user_id = u.id;
        token_hash = hash session_token;
        expires_at = now +ℤ session_ttl;
        revoked_at = none;
      } in
      (
        scope_of_row ip opened (f u) (brands_of u.id st.assignments),
        ground (arith, ==_refl (hash session_token), row, alive),
        refl,
      )

  after_set-tokens :
      (token new_password session_token : Text) (now : Instant) (st : AuthState) (u : User)
      → (after_set token new_password session_token now u st).reset_tokens
        ≡ (claimed token now st).reset_tokens
  unfolding password_set audit issue_session revoke_all_for_user update_user
  after_set-tokens token new_password session_token now st u = refl

  -- A link that works, whatever the status of its user is: the digest of the new password is the user's,
  -- who is ACTIVE and not locked, without failed attempts and else as before, no session of the user from before is live, the new one resolves to the user until it
  -- expires, and the link is refused from then on.
  pub set_password_with_token_lem :
      (token new_password session_token : Text) (now later : Instant) (ip : Option Text)
      (st : AuthState) (u : User)
      → IsLink token now st u
      → now ≤ℤ later
      → later <ℤ now +ℤ session_ttl
      → let run =
          set_password_with_token hash hash_password verify_password token new_password
            session_token now st in
        (run.0 ≡ ok (record { token = session_token; user_id = u.id; must_reset_password = false }))
        × (find_row (has_id u.id) run.1.users
            ≡ some (record u {
              password_hash = hash_password new_password;
              status = active;
              failed_logins = 0;
              locked_until = none;
            }))
        × ((s : Session) × (ss : List Session) × (run.1.sessions ≡ s ∷ ss)
            × All (λ (old : Session). is_live_of u.id old ≡ false) ss)
        × ((scope : RequestScope) × (resolve hash run.1 later session_token ip ≡ some scope)
            × (scope.user_id ≡ u.id))
        × (consume hash token later run.1 ≡ (none, run.1))
  set_password_with_token_lem token new_password session_token now later ip st u link order before =
      let left = consume_lem hash token now st link.row link.listed link.usable in
      let st' = after_set token new_password session_token now u st in
      let same : st'.reset_tokens ≡ (consume hash token now st).1.reset_tokens =
        rw left (after_set-tokens token new_password session_token now st u) in
      rw (set_password_with_token-after_set token new_password session_token now st u link) (
        refl,
        after_set-user token new_password session_token now st u link.user,
        after_set-sessions token new_password session_token now st u,
        after_set-resolve token new_password session_token now later ip st u link.user before,
        consume_once hash token now later st st' order same,
      )
