-- ===== src/Auth/Limited.antt =====
-- `requestPasswordReset` behind the rate limiter, and how many mails it sends.
use multi_brand_invoicing.Prelude.{
  Bool, List, [], ap, arith, false, if◌then◌else◌, length, none, not, ok, refl, suc, true, ℕ, ◌&&◌,
  ◌*◌, ◌+◌, ◌==◌, ◌∙◌, ◌∷◌, ◌≡◌,
}
use Prim.Native.Nat.{min}
use native.Mathlib.Nat.{add-mul}
use multi_brand_invoicing.Store.{Instant, RowId, Text}
use multi_brand_invoicing.RateLimit.{Cache, acquire_generic_rate_token, forgot_password}
use multi_brand_invoicing.RateLimit.Window.{AreWithin, granted, granted_window}
use multi_brand_invoicing.Auth.Rows.{AuthState, User, select_where}
use multi_brand_invoicing.Auth.Resets.{issue_reset}
use multi_brand_invoicing.Auth.Sessions.{is_suspended}
use multi_brand_invoicing.Auth.Service.{audit, request_password_reset, send_reset_links}

-- FORGOT_PASSWORD_LIMIT and FORGOT_PASSWORD_WINDOW_SECONDS
abbrev pub forgot_password_limit : ℕ
forgot_password_limit = 3

abbrev pub forgot_password_window_seconds : ℕ
forgot_password_window_seconds = 3_600

-- A request, in a second of the cache's clock and at an instant of the server's.
pub record ResetRequest : Type 0 where
  pub second : ℕ
  pub now : Instant
  pub draw : RowId → Text

abbrev pub seconds_of : List ResetRequest → List ℕ
seconds_of [] = []
seconds_of (r ∷ rs) = r.second ∷ seconds_of rs

abbrev pub reset_candidates : Text → List User → List User
reset_candidates email users =
    select_where (λ (u : User). u.email == email && not (is_suspended u.status)) users

seconds_of-length : (rs : List ResetRequest) → length (seconds_of rs) ≡ length rs
seconds_of-length [] = refl
seconds_of-length (r ∷ rs) = ap suc (seconds_of-length rs)

sum_up : (a x g c : ℕ) → a + x * c + g * c ≡ a + (x + g) * c
sum_up a x g c = omega (arith, add-mul x g c)

module _ (hash hash_password : Text → Text) (verify_password : Text → Text → Bool) (R : Cache)
    (sends : RowId → Text → Bool) (email : Text) where
  open R use {State, entry}

  unfoldable pub request_limited : ResetRequest → AuthState × State → AuthState × State
  unfolding acquire_generic_rate_token request_password_reset
  request_limited r p =
      let (allowed, s) =
        acquire_generic_rate_token R (forgot_password email) forgot_password_limit
          forgot_password_window_seconds r.second p.1 in
      (
        (request_password_reset hash hash_password verify_password sends allowed email r.draw r.now
            p.0).1,
        s,
      )

  abbrev pub request_all : List ResetRequest → AuthState × State → AuthState × State
  request_all [] p = p
  request_all (r ∷ rs) p = request_all rs (request_limited r p)

  send_reset_links_sent :
      ((id : RowId) (t : Text) → sends id t ≡ true)
      → (draw : RowId → Text) (now : Instant) (us : List User) (st : AuthState)
      → let run = send_reset_links hash hash_password verify_password sends draw now us st in
        (run.0 ≡ ok tt)
        × (run.1.users ≡ st.users)
        × (length run.1.mails ≡ length st.mails + length us)
  unfolding send_reset_links issue_reset audit
  send_reset_links_sent up draw now [] st = (refl, refl, omega arith)
  send_reset_links_sent up draw now (u ∷ us) st =
      let (done, users, mails) = send_reset_links_sent up draw now us _ in
      rw (up u.id (draw u.id)) (done, users, omega (arith, mails))

  request_sent :
      ((id : RowId) (t : Text) → sends id t ≡ true)
      → (allowed : Bool) (draw : RowId → Text) (now : Instant) (st : AuthState)
      → let run =
          request_password_reset hash hash_password verify_password sends allowed email draw now
            st in
        let after = run.1 in
        (after.users ≡ st.users)
        × (length after.mails
            ≡ length st.mails
              + (if allowed then 1 else 0) * length (reset_candidates email st.users))
  unfolding request_password_reset
  request_sent up false draw now st = (refl, omega arith)
  request_sent up true draw now st =
      let (done, users, mails) =
        send_reset_links_sent up draw now (reset_candidates email st.users) st in
      (users, omega (arith, mails))

  -- The mails are those of the granted requests, each to all candidates.
  request_all_sent :
      ((id : RowId) (t : Text) → sends id t ≡ true)
      → (rs : List ResetRequest) (st : AuthState) (s : State)
      → length (request_all rs (st, s)).0.mails
        ≡ length st.mails
          + granted R
              (forgot_password email)
              forgot_password_limit
              forgot_password_window_seconds
              (seconds_of rs)
              s
            * length (reset_candidates email st.users)
  unfolding request_limited
  request_all_sent up [] st s = omega arith
  request_all_sent up (r ∷ rs) st s =
      let (allowed, s') =
        acquire_generic_rate_token R (forgot_password email) forgot_password_limit
          forgot_password_window_seconds r.second s in
      let (users, mails) = request_sent up allowed r.draw r.now st in
      let rest =
        request_all_sent up rs
          (request_password_reset hash hash_password verify_password sends allowed email r.draw
            r.now st).1
          s' in
      rw users at rest
      ∙ ap
          (λ n.
            n
            + granted R (forgot_password email) forgot_password_limit forgot_password_window_seconds
                (seconds_of rs) s'
              * length (reset_candidates email st.users))
          mails
      ∙ sum_up (length st.mails) (if allowed then 1 else 0) _
          (length (reset_candidates email st.users))

  -- While the mail service takes every mail, of all requests to reset the password of an address within
  -- an hour of the first, only three send mails: with the accounts of the address that are not suspended, three mails for each of them if so
  -- many requests are made, and else one for each request and account.
  pub request_all_mails :
      ((id : RowId) (t : Text) → sends id t ≡ true)
      → (r : ResetRequest) (rs : List ResetRequest) (st : AuthState) (s : State)
      → entry (forgot_password email) r.second s ≡ none
      → AreWithin r.second (r.second + forgot_password_window_seconds) (seconds_of rs)
      → length (request_all (r ∷ rs) (st, s)).0.mails
        ≡ length st.mails + min 3 (suc (length rs)) * length (reset_candidates email st.users)
  request_all_mails up r rs st s h within =
      request_all_sent up (r ∷ rs) st s
      ∙ ap (λ n. length st.mails + n * length (reset_candidates email st.users))
          ((granted_window R (forgot_password email) forgot_password_limit
              forgot_password_window_seconds r.second (seconds_of rs) s h (omega arith) within).0
            ∙ ap (λ n. min 3 (suc n)) (seconds_of-length rs))
