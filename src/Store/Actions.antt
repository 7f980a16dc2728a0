-- ===== src/Store/Actions.antt =====
-- What a service method does: it runs on a state and returns or throws. A throw leaves the state as
-- it is at that moment; a transaction takes the database back (`with_scope` in Client).
use multi_brand_invoicing.Prelude.{Bool, Result, ap, err, if◌then◌else◌, ok, ◌≡◌}
use multi_brand_invoicing.Money.{Checked, MoneyError}
use multi_brand_invoicing.InvoiceStatus.{InvoiceStatus, TransitionFailure, TransitionResult}

-- The exceptions of the services, by what they report.
pub data Failure : Type 0 where
  invoice_not_found method_not_enabled not_started gateway_fault invalid_signature : Failure
  no_matching_payment changed_while_saving already_reviewed reason_required : Failure
  customer_not_found settings_not_found number_collision check_not_enabled already_paid : Failure
  storage_fault line_missing out_of_range mail_fault : Failure
  submission_not_found session_required unauthorized link_not_valid address_in_use user_not_found :
      Failure
  refused : TransitionFailure → Failure
  money : MoneyError → Failure

abbrev pub Action : Type 0 → Type 0 → Type 0
Action S A = S → Result Failure A × S

module _ {S A : Type 0} where
  abbrev pub pure : A → Action S A
  pure a s = (ok a, s)

  abbrev pub raise : Failure → Action S A
  raise e s = (err e, s)

  abbrev pub gets : (S → A) → Action S A
  gets f s = (ok (f s), s)

  abbrev pub checked : Checked A → Action S A
  checked (ok a) = pure a
  checked (err e) = raise (money e)

-- `if (!decision.ok) throw new ConflictException(decision.message)`
abbrev pub permitted : {S : Type 0} → TransitionResult → Action S InvoiceStatus
permitted (ok to) = pure to
permitted (err code) = raise (refused code)

infixl 5 ◌>>=◌ ◌>>◌
abbrev pub ◌>>=◌ : {S A B : Type 0} → Action S A → (A → Action S B) → Action S B
◌>>=◌ m f s = let (r, s') = m s in elim r [ ok a ↦ f a s' | err e ↦ raise e s' ]

abbrev pub ◌>>◌ : {S B : Type 0} → Action S (Unit {0}) → Action S B → Action S B
m >> k = m >>= λ _. k

abbrev pub raise_if : {S : Type 0} → Bool → Failure → Action S (Unit {0})
raise_if c e s = (if c then err e else ok tt, s)

abbrev pub modify : {S : Type 0} → (S → S) → Action S (Unit {0})
modify f s = (ok tt, f s)

-- The head of a block, when it returns.
module _ {S A B : Type 0} (m : Action S A) (k : A → Action S B) (s s' : S) where
  abbrev goes_on : Result Failure A × S → Result Failure B × S
  goes_on r = elim r.0 [ ok a ↦ k a r.1 | err e ↦ (err e, r.1) ]

  pub returned : {a : A} → m s ≡ (ok a, s') → (m >>= k) s ≡ k a s'
  returned h = ap goes_on h
