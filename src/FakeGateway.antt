-- ===== src/FakeGateway.antt =====
-- apps/api/src/adapters/gateway/fake-gateway.adapter.ts: the gateway of local runs and tests, with its
-- two maps as association lists whose first entry counts. The clock and the random reference are
-- arguments; addresses, the raw reply and the signature of webhooks are left out.
pub mod Keys
pub mod Again
use multi_brand_invoicing.Prelude.Outcome.{Result, err, ok, ◌>>=◌, ◌>>◌}
use multi_brand_invoicing.Prelude.{
  Bool, List, Option, [], false, if◌then◌else◌, none, some, true, ◌%◌, ◌==◌, ◌∷◌,
}
use multi_brand_invoicing.Prelude.Int.{ltb_ℤ, nat_abs, ℤ}
use multi_brand_invoicing.Amounts.{StoredCurrency}
use multi_brand_invoicing.Store.{Instant, RowId, Text}
use multi_brand_invoicing.Payments.Types.{CreateIntentInput, IntentStatus}

pub data Scenario : Type 0 where
  success decline pending timeout : Scenario

-- The IntegrationErrors that the adapter throws, by their class.
pub data Fault : Type 0 where
  transient_fault validation_fault permanent_fault : Fault

-- The intent, with whether it carries a decline reason.
pub record FakeIntent : Type 0 where
  pub gateway_reference : Text
  pub status : IntentStatus
  pub amount_minor : ℤ
  pub currency : StoredCurrency
  pub occurred_at : Instant
  pub is_declined : Bool

pub record StoredIntent : Type 0 where
  pub intent : FakeIntent
  pub scenario : Scenario
  pub idempotency_key : Text
  pub invoice_id : RowId

pub record GatewayState : Type 0 where
  pub by_reference : List (Text × StoredIntent)
  pub by_idempotency_key : List (Text × Text)

-- `Map.get`
unfoldable pub get : {A : Type 0} → Text → List (Text × A) → Option A
get k [] = none
get k ((j, a) ∷ entries) = let rest = get k entries in if j == k then some a else rest

-- The scenario of the metadata, if it names one, else that of the amount.
unfoldable pub resolve_scenario : Option Scenario → ℤ → Scenario
resolve_scenario (some explicit) amount = explicit
resolve_scenario none amount =
    let cents = nat_abs amount % 100 in
    if cents == 11
    then decline
    else if cents == 22
    then pending
    else if cents == 33
    then timeout
    else success

abbrev pub status_of : Scenario → IntentStatus
status_of success = IntentStatus.succeeded
status_of decline = IntentStatus.failed
status_of _ = IntentStatus.processing

abbrev pub is_decline : Scenario → Bool
is_decline decline = true
is_decline _ = false

abbrev pub new_intent : CreateIntentInput → Scenario → Text → Instant → StoredIntent
new_intent input scenario reference now = record {
  intent = record {
    gateway_reference = reference;
    status = status_of scenario;
    amount_minor = input.amount_minor;
    currency = input.currency;
    occurred_at = now;
    is_declined = is_decline scenario;
  };
  scenario = scenario;
  idempotency_key = input.idempotency_key;
  invoice_id = input.invoice_id;
}

-- Two `Map.set`
abbrev pub store : Text → Text → StoredIntent → GatewayState → GatewayState
store key reference stored g = record {
  by_reference = (reference, stored) ∷ g.by_reference;
  by_idempotency_key = (key, reference) ∷ g.by_idempotency_key;
}

unfoldable pub create_new :
    CreateIntentInput
    → Scenario
    → Text
    → Instant
    → GatewayState
    → Result Fault FakeIntent × GatewayState
create_new input timeout reference now g = (err transient_fault, g)
create_new input scenario reference now g =
    let stored = new_intent input scenario reference now in
    (ok stored.intent, store input.idempotency_key reference stored g)

-- `this.byReference.get(existingReference)` for a key that has one.
unfoldable pub existing : Text → GatewayState → Option StoredIntent
unfolding get
existing key g = elim (get key g.by_idempotency_key) [
  | none ↦ none
  | some reference ↦ get reference g.by_reference
]

unfoldable pub create_intent :
    CreateIntentInput
    → Option Scenario
    → Text
    → Instant
    → GatewayState
    → Result Fault FakeIntent × GatewayState
unfolding existing create_new resolve_scenario
create_intent input explicit reference now g = elim (existing input.idempotency_key g) [
  | some stored ↦ (ok stored.intent, g)
  | none ↦ create_new input (resolve_scenario explicit input.amount_minor) reference now g
]

-- `this.byReference.set(reference, { ...stored, intent })`
abbrev pub put_intent : Text → StoredIntent → GatewayState → GatewayState
put_intent reference stored g = record g { by_reference = (reference, stored) ∷ g.by_reference }

unfoldable pub require : Text → GatewayState → Result Fault StoredIntent
unfolding get
require reference g = elim (get reference g.by_reference) [
  | none ↦ err permanent_fault
  | some stored ↦ ok stored
]

abbrev pub captured : Option ℤ → Instant → StoredIntent → StoredIntent
captured amount now s = record s {
  intent = record s.intent {
    status = IntentStatus.succeeded;
    amount_minor = elim amount [ none ↦ s.intent.amount_minor | some a ↦ a ];
    occurred_at = now;
  };
}

abbrev pub voided : Instant → StoredIntent → StoredIntent
voided now s = record s {
  intent = record s.intent { status = IntentStatus.cancelled; occurred_at = now };
}

-- The write of `capture` and `void`.
unfoldable pub change_intent :
    Text → (StoredIntent → StoredIntent) → GatewayState → Result Fault FakeIntent × GatewayState
unfolding require
change_intent reference f g = elim (require reference g) [
  | err fault ↦ (err fault, g)
  | ok stored ↦ (ok (f stored).intent, put_intent reference (f stored) g)
]

unfoldable pub capture :
    Text → Option ℤ → Instant → GatewayState → Result Fault FakeIntent × GatewayState
unfolding change_intent
capture reference amount now g = change_intent reference (captured amount now) g

unfoldable pub void : Text → Instant → GatewayState → Result Fault FakeIntent × GatewayState
unfolding change_intent
void reference now g = change_intent reference (voided now) g

unfoldable pub retrieve : Text → GatewayState → Result Fault FakeIntent
unfolding require
retrieve reference g = require reference g >>= λ stored. ok stored.intent

-- The amount that a refund returns.
unfoldable pub refund : Text → ℤ → GatewayState → Result Fault ℤ
unfolding require
refund reference amount g = do
  stored ← require reference g
  if ltb_ℤ stored.intent.amount_minor amount then err validation_fault else ok amount
