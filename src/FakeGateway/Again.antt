-- ===== src/FakeGateway/Again.antt =====
-- A repeated key of `createIntent`.
use multi_brand_invoicing.Prelude.{==_refl, Option, ap, arith, none, ok, refl, some, sym, ◌∙◌, ◌≡◌}
use multi_brand_invoicing.Store.{Instant, Text}
use multi_brand_invoicing.Payments.Types.{CreateIntentInput}
use multi_brand_invoicing.FakeGateway.{
  FakeIntent, GatewayState, Scenario, StoredIntent, create_intent, create_new, decline, existing,
  get, new_intent, pending, resolve_scenario, store, success, timeout,
}
use multi_brand_invoicing.FakeGateway.Keys.{Calls, Holds, Calls-Holds, existing-Holds}

stored-Holds :
    (key reference : Text) (stored : StoredIntent) (g : GatewayState)
    → stored.intent.gateway_reference ≡ reference
    → Holds key reference (store key reference stored g)
unfolding get
stored-Holds key reference stored g e =
    (rw (==_refl key) refl, (stored, rw (==_refl reference) refl, e))

create_new_returned :
    (input : CreateIntentInput) (scenario : Scenario) (reference : Text) (now : Instant)
    (g : GatewayState) (i : FakeIntent)
    → (create_new input scenario reference now g).0 ≡ ok i
    → Holds input.idempotency_key reference (create_new input scenario reference now g).1
      × (i.gateway_reference ≡ reference)
unfolding create_new
create_new_returned input timeout reference now g i h = ground arith
create_new_returned input success reference now g i h = (
  stored-Holds input.idempotency_key reference (new_intent input success reference now) g refl,
  ground arith,
)
create_new_returned input decline reference now g i h = (
  stored-Holds input.idempotency_key reference (new_intent input decline reference now) g refl,
  ground arith,
)
create_new_returned input pending reference now g i h = (
  stored-Holds input.idempotency_key reference (new_intent input pending reference now) g refl,
  ground arith,
)

create_intent-existing :
    (input : CreateIntentInput) (explicit : Option Scenario) (reference : Text) (now : Instant)
    (g : GatewayState) (key kept : Text)
    → input.idempotency_key ≡ key
    → Holds key kept g
    → (j : FakeIntent) × (create_intent input explicit reference now g ≡ (ok j, g))
      × (j.gateway_reference ≡ kept)
unfolding create_intent
create_intent-existing input explicit reference now g key kept e (k, (s, found, same)) =
    let there : existing input.idempotency_key g ≡ some s =
      ap (λ (x : Text). existing x g) e ∙ existing-Holds key kept g (k, (s, found, same)) in
    (s.intent, rw (create_intent, there) refl, same)

-- The first call of `createIntent` with a key that returns an intent, and any calls of createIntent,
-- capture and void after it, each new reference being one that no intent has: a later call with that key
-- returns the intent of the same reference, whatever else it asks for, and makes no other intent.
pub create_intent_again :
    (input again : CreateIntentInput) (explicit explicit' : Option Scenario)
    (reference reference' : Text) (now later : Instant) (g last : GatewayState) (i : FakeIntent)
    → existing input.idempotency_key g ≡ none
    → (create_intent input explicit reference now g).0 ≡ ok i
    → Calls (create_intent input explicit reference now g).1 last
    → again.idempotency_key ≡ input.idempotency_key
    → (j : FakeIntent) × (create_intent again explicit' reference' later last ≡ (ok j, last))
      × (j.gateway_reference ≡ i.gateway_reference)
unfolding create_intent
create_intent_again input again explicit explicit' reference reference' now later g last i new_key
      made calls same_key =
    let scenario = resolve_scenario explicit input.amount_minor in
    let first : create_intent input explicit reference now g
        ≡ create_new input scenario reference now g =
      rw (create_intent, new_key) refl in
    let (holds, e) = create_new_returned input scenario reference now g i (rw first at made) in
    let held =
      Calls-Holds input.idempotency_key reference (create_new input scenario reference now g).1 last
        (rw first at calls) holds in
    let (j, run, kept) =
      create_intent-existing again explicit' reference' later last input.idempotency_key reference
        same_key held in
    (j, run, kept ∙ sym e)
