-- ===== src/Auth/Tokens.antt =====
-- Set-password links are spent once, and sessions end.
use multi_brand_invoicing.Prelude.{
  All, Bool-cases, List, [], arith, false, inl, inr, none, refl, ◌==◌, ◌∷◌, ◌≡◌, ◌≢◌,
}
use multi_brand_invoicing.Prelude.Int.{◌≤ℤ◌}
use multi_brand_invoicing.Auth.Rows.{AuthState, PasswordResetToken, count_where, update_where}
use multi_brand_invoicing.Auth.Resets.{consume, is_claimable, is_unused_of, issue_reset, spent}
use multi_brand_invoicing.Store.{Instant, RowId, Text}

-- No row that a claim touched can be claimed again.
none_claimable :
    (digest : Text) (now later : Instant) (ts : List PasswordResetToken)
    → now ≤ℤ later
    → count_where
        (is_claimable digest later)
        (update_where (is_claimable digest now) (spent now) ts)
      ≡ 0
unfolding count_where update_where
none_claimable digest now later [] h = refl
none_claimable digest now later (t ∷ ts) h = ground (arith, none_claimable digest now later ts h)

-- A token that cannot be claimed cannot be claimed later.
never_claimable :
    (digest : Text) (now later : Instant) (ts : List PasswordResetToken)
    → now ≤ℤ later
    → count_where (is_claimable digest now) ts ≡ 0
    → count_where (is_claimable digest later) ts ≡ 0
unfolding count_where
never_claimable digest now later [] h z = refl
never_claimable digest now later (t ∷ ts) h z =
    ground (arith, never_claimable digest now later ts h)

left_to_claim :
    (hash : Text → Text) (token : Text) (now later : Instant) (st : AuthState)
    → now ≤ℤ later
    → count_where (is_claimable (hash token) later) (consume hash token now st).1.reset_tokens ≡ 0
unfolding consume
left_to_claim hash token now later st h =
    elim (Bool-cases (count_where (is_claimable (hash token) now) st.reset_tokens == 0)) [
      | inl unclaimed ↦
          rw unclaimed (never_claimable (hash token) now later st.reset_tokens h (ground arith))
      | inr claimed ↦ rw claimed (none_claimable (hash token) now later st.reset_tokens h)
    ]

refused_if_none :
    (hash : Text → Text) (token : Text) (now : Instant) (st : AuthState)
    → count_where (is_claimable (hash token) now) st.reset_tokens ≡ 0
    → consume hash token now st ≡ (none, st)
unfolding consume
refused_if_none hash token now st z = rw z refl

-- Whatever else happened to the tables in between, as long as the reset tokens are those that the call
-- left: a link that a call spent, or refused, is refused by every later call, which changes nothing.
pub consume_once :
    (hash : Text → Text) (token : Text) (now later : Instant) (st st' : AuthState)
    → now ≤ℤ later
    → st'.reset_tokens ≡ (consume hash token now st).1.reset_tokens
    → consume hash token later st' ≡ (none, st')
consume_once hash token now later st st' h same =
    refused_if_none hash token later st' (rw same (left_to_claim hash token now later st h))

unused_spent :
    (user_id : RowId) (digest : Text) (now later : Instant) (ts : List PasswordResetToken)
    → All (λ (t : PasswordResetToken). t.token_hash ≡ digest → t.user_id ≡ user_id) ts
    → count_where (is_claimable digest later) (update_where (is_unused_of user_id) (spent now) ts)
      ≡ 0
unfolding count_where update_where
unused_spent user_id digest now later [] h = refl
unused_spent user_id digest now later (t ∷ ts) (h, hs) =
    ground (arith, unused_spent user_id digest now later ts hs, h)

-- A new link for a user ends the earlier ones: an earlier link of the user, one whose digest only rows
-- of that user have and is not the new one's, is refused from then on and changes nothing.
pub issue_reset-consume :
    (hash : Text → Text) (user_id : RowId) (old new : Text) (now later : Instant) (st : AuthState)
    → All
        (λ (t : PasswordResetToken). t.token_hash ≡ hash old → t.user_id ≡ user_id)
        st.reset_tokens
    → hash new ≢ hash old
    → let issued = issue_reset hash user_id new now st in
      consume hash old later issued ≡ (none, issued)
unfolding issue_reset count_where
issue_reset-consume hash user_id old new now later st h n =
    let other : (hash new == hash old) ≡ false = ground arith in
    refused_if_none hash old later (issue_reset hash user_id new now st)
      (rw other (omega (arith, unused_spent user_id (hash old) now later st.reset_tokens h)))
