-- ===== src/Tests/Charges.antt =====
-- The fake gateway.
use multi_brand_invoicing.Prelude.{[], false, none, ok, refl, some, ◌≡◌}
use multi_brand_invoicing.Prelude.Int.{pos}
use multi_brand_invoicing.Amounts.{usd}
use multi_brand_invoicing.Calculation.{card}
use multi_brand_invoicing.Payments.Types.{CreateIntentInput, IntentStatus}
use multi_brand_invoicing.FakeGateway.{FakeIntent, GatewayState, create_intent, existing, void}
use multi_brand_invoicing.FakeGateway.Keys.{nothing, voids}
use multi_brand_invoicing.FakeGateway.Again.{create_intent_again}

abbrev charge : CreateIntentInput
charge = record {
  idempotency_key = 50;
  invoice_id = 1;
  brand_id = 3;
  amount_minor = pos 2_500;
  currency = some usd;
  method = card;
}

abbrev no_intents : GatewayState
no_intents = record { by_reference = []; by_idempotency_key = [] }

abbrev charged : FakeIntent
charged = record {
  gateway_reference = 70;
  status = IntentStatus.succeeded;
  amount_minor = pos 2_500;
  currency = some usd;
  occurred_at = pos 100;
  is_declined = false;
}

first_charge : (create_intent charge none 70 (pos 100) no_intents).0 ≡ ok charged
unfolding create_intent
first_charge = refl

unused_key : existing 50 no_intents ≡ none
unfolding existing
unused_key = refl

abbrev void_first : GatewayState
void_first = (void 70 (pos 200) (create_intent charge none 70 (pos 100) no_intents).1).1

create_intent_again_example :
    (j : FakeIntent) × (create_intent charge none 71 (pos 300) void_first ≡ (ok j, void_first))
    × (j.gateway_reference ≡ 70)
create_intent_again_example =
    create_intent_again charge charge none none 70 71 (pos 100) (pos 300) no_intents void_first
      charged unused_key first_charge (voids 70 (pos 200) nothing) refl
