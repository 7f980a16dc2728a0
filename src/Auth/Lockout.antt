-- ===== src/Auth/Lockout.antt =====
-- Five failures within the window lock an account.
use multi_brand_invoicing.Prelude.{
  ==_refl, All, Bool, List, [], arith, err, length, none, refl, some, true, ℕ, ◌&&◌, ◌++◌, ◌+◌, ◌∙◌,
  ◌∷◌, ◌≡◌, ◌≤◌,
}
use multi_brand_invoicing.Prelude.Int.{int_laws, leb_ℤ, ltb_ℤ, ◌+ℤ◌, ◌-ℤ◌, ◌<ℤ◌}
use multi_brand_invoicing.Auth.Rows.{
  AuditEntry, AuthState, User, count_where, failure, find_row, success, update_where,
}
use multi_brand_invoicing.Auth.Service.{
  after_failures, audit, failure_window, has_id, is_locked, is_sign_in, lockout, login_as,
  recent_failures, register_failure, update_user,
}
use multi_brand_invoicing.Store.{Instant, RowId, Text, unauthorized}

-- Failed sign-ins at the times of a list, one after the other.
unfoldable pub register_failures : RowId → RowId → List Instant → AuthState → AuthState
register_failures m u [] st = st
register_failures m u (t ∷ ts) st = register_failures m u ts (register_failure m u t st)

abbrev counted : RowId → RowId → Instant → AuditEntry → Bool
counted m u start e = is_sign_in m u failure e && ltb_ℤ start e.occurred_at

abbrev succeeded : RowId → RowId → Instant → AuditEntry → Bool
succeeded m u start e = is_sign_in m u success e && leb_ℤ start e.occurred_at

-- A failure in the window adds one to the count, and no success.
register_failure-count :
    (m u : RowId) (t start : Instant) (st : AuthState)
    → start <ℤ t
    → count_where (counted m u start) (register_failure m u t st).audit_log
      ≡ count_where (counted m u start) st.audit_log + 1
unfolding register_failure audit update_user count_where
register_failure-count m u t start st h = ground (arith, ==_refl m, ==_refl u)

register_failure-success :
    (m u : RowId) (t start : Instant) (st : AuthState)
    → find_row (succeeded m u start) (register_failure m u t st).audit_log
      ≡ find_row (succeeded m u start) st.audit_log
unfolding register_failure audit update_user find_row
register_failure-success m u t start st = ground arith

register_failures-count :
    (m u : RowId) (ts : List Instant) (start : Instant) (st : AuthState)
    → All (λ t. start <ℤ t) ts
    → count_where (counted m u start) (register_failures m u ts st).audit_log
      ≡ count_where (counted m u start) st.audit_log + length ts
unfolding register_failures
register_failures-count m u [] start st h = omega arith
register_failures-count m u (t ∷ ts) start st (h, hs) = omega (
  arith,
  register_failures-count m u ts start (register_failure m u t st) hs,
  register_failure-count m u t start st h,
)

register_failures-success :
    (m u : RowId) (ts : List Instant) (start : Instant) (st : AuthState)
    → find_row (succeeded m u start) (register_failures m u ts st).audit_log
      ≡ find_row (succeeded m u start) st.audit_log
unfolding register_failures
register_failures-success m u [] start st = refl
register_failures-success m u (t ∷ ts) start st =
    register_failures-success m u ts start (register_failure m u t st)
    ∙ register_failure-success m u t start st

-- The row of a user after an update of it that keeps its identifier.
pub find_row-update_where :
    (k : RowId) (f : User → User) (us : List User) (r : User)
    → ((v : User) → (f v).id ≡ v.id)
    → find_row (has_id k) us ≡ some r
    → find_row (has_id k) (update_where (has_id k) f us) ≡ some (f r)
unfolding find_row update_where
find_row-update_where k f [] r keep h = cc
find_row-update_where k f (v ∷ us) r keep h =
    ground (arith, keep v, find_row-update_where k f us r keep)

-- The user's row after a failure, and after several.
register_failure-user :
    (m k : RowId) (t : Instant) (st : AuthState) (r : User)
    → find_row (has_id k) st.users ≡ some r
    → find_row (has_id k) (register_failure m k t st).users
      ≡ some (after_failures (recent_failures m k t (register_failure m k t st).audit_log) t r)
unfolding register_failure audit update_user
register_failure-user m k t st r h =
    find_row-update_where k (after_failures _ t) st.users r (λ v. ground arith) h

register_failures-user :
    (m k : RowId) (ts : List Instant) (st : AuthState) (r : User)
    → find_row (has_id k) st.users ≡ some r
    → (r' : User) × (find_row (has_id k) (register_failures m k ts st).users ≡ some r')
unfolding register_failures
register_failures-user m k [] st r h = (r, h)
register_failures-user m k (t ∷ ts) st r h =
    register_failures-user m k ts (register_failure m k t st) _ (register_failure-user m k t st r h)

locked_after :
    (failures : ℕ) (now : Instant) (r : User)
    → 5 ≤ failures
    → (after_failures failures now r).locked_until ≡ some (now +ℤ lockout)
locked_after failures now r h = ground arith

register_failures_last :
    (m k : RowId) (ts : List Instant) (now : Instant) (st : AuthState)
    → register_failures m k (ts ++ now ∷ []) st
      ≡ register_failure m k now (register_failures m k ts st)
unfolding register_failures
register_failures_last m k [] now st = refl
register_failures_last m k (t ∷ ts) now st =
    register_failures_last m k ts now (register_failure m k t st)

start_before : (now : Instant) → now -ℤ failure_window <ℤ now
start_before now = omega int_laws

five_recent :
    (m k : RowId) (ts : List Instant) (now : Instant) (st : AuthState)
    → find_row (succeeded m k (now -ℤ failure_window)) st.audit_log ≡ none
    → All (λ t. now -ℤ failure_window <ℤ t) ts
    → 4 ≤ length ts
    → 5 ≤ recent_failures m k now (register_failure m k now (register_failures m k ts st)).audit_log
unfolding recent_failures
five_recent m k ts now st quiet within enough =
    let start = now -ℤ failure_window in
    let s = register_failures m k ts st in
    let none_yet : find_row (succeeded m k start) (register_failure m k now s).audit_log ≡ none =
      register_failure-success m k now start s
      ∙ register_failures-success m k ts start st
      ∙ quiet in
    rw none_yet (
      omega (
        arith,
        register_failure-count m k now start s (start_before now),
        register_failures-count m k ts start st within,
      ))

locked_out :
    (hash hash_password : Text → Text) (verify_password : Text → Text → Bool) (r : User)
    (matched : Bool) (token : Text) (later : Instant) (st : AuthState) (until : Instant)
    → r.locked_until ≡ some until
    → later <ℤ until
    → ((login_as hash hash_password verify_password r matched token later st).0 ≡ err unauthorized)
      × ((login_as hash hash_password verify_password r matched token later st).1.sessions
          ≡ st.sessions)
unfolding login_as audit
locked_out hash hash_password verify_password r matched token later st until e before =
    let yes_locked : is_locked r.locked_until later ≡ true = rw e (ground arith) in
    rw yes_locked (refl, refl)

-- Five failed sign-ins of a user within the window, the last of them now and no success of the user in
-- the window, whatever the account's row was: the account is locked for the lockout time from now, and
-- an attempt on it before that is refused even with the right password, and opens no session.
pub register_failures_lock :
    (hash hash_password : Text → Text) (verify_password : Text → Text → Bool) (m k : RowId)
    (ts : List Instant) (now later : Instant) (matched : Bool) (token : Text) (st : AuthState)
    (r : User)
    → find_row (has_id k) st.users ≡ some r
    → find_row (succeeded m k (now -ℤ failure_window)) st.audit_log ≡ none
    → All (λ t. now -ℤ failure_window <ℤ t) ts
    → 4 ≤ length ts
    → later <ℤ now +ℤ lockout
    → let st' = register_failures m k (ts ++ now ∷ []) st in
      (r' : User) × (find_row (has_id k) st'.users ≡ some r')
      × (r'.locked_until ≡ some (now +ℤ lockout))
      × ((login_as hash hash_password verify_password r' matched token later st').0
          ≡ err unauthorized)
      × ((login_as hash hash_password verify_password r' matched token later st').1.sessions
          ≡ st'.sessions)
register_failures_lock hash hash_password verify_password m k ts now later matched token st r found
      quiet within enough before =
    let start = now -ℤ failure_window in
    let s = register_failures m k ts st in
    let (r1, found1) = register_failures-user m k ts st r found in
    let n = recent_failures m k now (register_failure m k now s).audit_log in
    let many : 5 ≤ n = five_recent m k ts now st quiet within enough in
    let r2 = after_failures n now r1 in
    let until = locked_after n now r1 many in
    let refused =
      locked_out hash hash_password verify_password r2 matched token later
        (register_failure m k now s) (now +ℤ lockout) until before in
    rw (register_failures_last m k ts now st)
      (r2, register_failure-user m k now s r1 found1, until, refused.0, refused.1)
