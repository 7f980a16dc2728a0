-- ===== src/Payments/Attempt.antt =====
-- `createIntent` of apps/api/src/payments/payments.service.ts.
use multi_brand_invoicing.Prelude.{List, Option, [], length, none, some, ◌∷◌}
use multi_brand_invoicing.Prelude.Int.{pos, ℤ}
use multi_brand_invoicing.Calculation.{PaymentMethod, calculate}
use multi_brand_invoicing.InvoiceStatus.{
  InvoiceStatus, TransitionContext, evaluate_transition, initiate_payment,
}
use multi_brand_invoicing.Store.{
  Action, Database, Invoice, Job, Payment, PaymentStatus, RowId, Text, World, change, checked,
  enqueue_all, fetch, gateway_fault, invoice_not_found, method_not_enabled, not_started, permitted,
  pure, query, raise, raise_if, with_scope, write, zoho_push_payment, ◌>>=◌, ◌>>◌,
}
use multi_brand_invoicing.Payments.Types.{
  AttemptResult, CreateIntentInput, Gateway, IntentStatus, Outcome, PaymentIntent, Reply,
  integration_error, is_some, method_refused, other_error, payment_status_to_intent_status,
  quote_input, replied, token_for,
}
use multi_brand_invoicing.Payments.Settle.{SettlementInput, apply_settlement}
use multi_brand_invoicing.Tenancy.{PublicScope}

-- The evaluation that an attempt asks for.
abbrev pub initiate_context : Invoice → TransitionContext
initiate_context invoice = record {
  status = invoice.status;
  previous_status = none;
  line_item_count = length invoice.line_items;
  total_minor = invoice.total_minor;
  balance_minor = invoice.balance_minor;
  settled_minor = pos 0;
  customer_has_deliverable_email = is_some invoice.customer_email;
}

-- The data of the writes before and after the call of the gateway.
abbrev pub new_payment : RowId → Invoice → PaymentMethod → ℤ → Text → Payment
new_payment invoice_id invoice method charge key = record {
  invoice_id = invoice_id;
  brand_id = invoice.brand_id;
  method = method;
  amount_minor = charge;
  currency = invoice.currency;
  status = PaymentStatus.initiated;
  idempotency_key = key;
  gateway_reference = none;
  last_event_at = none;
  decline_reason = none;
  settled_at = none;
}

abbrev pub begin_attempt : InvoiceStatus → InvoiceStatus → Invoice → Invoice
begin_attempt to original i = record i { status = to; previous_status = some original }

abbrev pub set_reference : Text → Payment → Payment
set_reference reference p = record p { gateway_reference = some reference }

-- The argument of the gateway's `createIntent`.
abbrev pub intent_input : RowId → Invoice → PaymentMethod → ℤ → Text → CreateIntentInput
intent_input invoice_id invoice method charge key = record {
  idempotency_key = key;
  invoice_id = invoice_id;
  brand_id = invoice.brand_id;
  amount_minor = charge;
  currency = invoice.currency;
  method = method;
}

-- The settlement of an attempt whose intent the gateway returned.
abbrev pub attempt_settlement :
    RowId → RowId → Invoice → InvoiceStatus → PaymentIntent → SettlementInput
attempt_settlement invoice_id payment_id invoice to intent = record {
  invoice_id = invoice_id;
  payment_id = payment_id;
  invoice_total_minor = invoice.total_minor;
  invoice_status_before_attempt = invoice.status;
  current_invoice_status = to;
  gateway_status = intent.status;
  occurred_at = intent.occurred_at;
  decline_reason = intent.decline_reason;
}

-- The jobs of an attempt: a push of the payment if it succeeded at once.
abbrev pub sync_jobs : IntentStatus → RowId → RowId → List Job
sync_jobs IntentStatus.succeeded brand_id payment_id = zoho_push_payment brand_id payment_id ∷ []
sync_jobs _ brand_id payment_id = []

module _ (D : Database) (G : Gateway) (digest : RowId → ℤ → Text → Text) where
  open D use {
    Db, find_invoice, payment_by_key, find_settings, update_invoice, update_payment, create_payment,
  }

  abbrev pub call_gateway : Reply → Action (World Db) PaymentIntent
  call_gateway (replied intent) = pure intent
  call_gateway integration_error = raise not_started
  call_gateway other_error = raise gateway_fault

  -- A replay of an attempt that is already recorded.
  abbrev pub replay : Invoice → Payment → Outcome
  replay invoice existing = record {
    result = record {
      gateway_status = payment_status_to_intent_status existing.status;
      invoice_status = invoice.status;
      decline_reason = existing.decline_reason;
      client_token = none;
    };
    sync = [];
  }

  abbrev pub outcome_of : Invoice → RowId → PaymentIntent → Invoice → Outcome
  outcome_of invoice payment_id intent final = record {
    result = record {
      gateway_status = intent.status;
      invoice_status = final.status;
      decline_reason = intent.decline_reason;
      client_token = token_for intent.status intent.client_token;
    };
    sync = sync_jobs intent.status invoice.brand_id payment_id;
  }

  -- The end of an attempt: the invoice is read again, and the result made.
  unfoldable pub finish_attempt :
      RowId → Invoice → RowId → PaymentIntent → Action (World Db) Outcome
  finish_attempt invoice_id invoice payment_id intent = do
    final ← fetch invoice_not_found (find_invoice invoice_id)
    pure (outcome_of invoice payment_id intent final)

  -- A new attempt, from the evaluation of INITIATE_PAYMENT on.
  unfoldable pub start_attempt :
      RowId → Invoice → PaymentMethod → ℤ → Text → Action (World Db) Outcome
  start_attempt invoice_id invoice method charge key = do
    to ← permitted (evaluate_transition initiate_payment (initiate_context invoice))
    payment_id ← write (create_payment (new_payment invoice_id invoice method charge key))
    change (update_invoice invoice_id (begin_attempt to invoice.status))
    intent ← call_gateway (G.create_intent (intent_input invoice_id invoice method charge key))
    change (update_payment payment_id (set_reference intent.gateway_reference))
    apply_settlement D (attempt_settlement invoice_id payment_id invoice to intent)
    finish_attempt invoice_id invoice payment_id intent

  -- The attempt, once the quote is made: a replay, or a new attempt.
  unfoldable pub replay_or_start :
      RowId
      → Invoice
      → PaymentMethod
      → ℤ
      → Text
      → Option (RowId × Payment)
      → Action (World Db) Outcome
  replay_or_start invoice_id invoice method charge key (some (_, existing)) =
      pure (replay invoice existing)
  replay_or_start invoice_id invoice method charge key none =
      start_attempt invoice_id invoice method charge key

  -- The attempt on an invoice: the method's toggle, the quote, and the idempotency key.
  unfoldable pub quote_attempt :
      PublicScope → PaymentMethod → Text → Invoice → Action (World Db) Outcome
  quote_attempt scope method nonce invoice = do
    settings ← query (find_settings invoice.brand_id)
    raise_if (method_refused method settings) method_not_enabled
    quote ← checked (calculate (quote_input invoice method))
    let key = digest scope.invoice_id quote.total_minor nonce
    existing ← query (payment_by_key key)
    replay_or_start scope.invoice_id invoice method quote.total_minor key existing

  -- The transaction of `createIntent`.
  unfoldable pub attempt : PublicScope → PaymentMethod → Text → Action (World Db) Outcome
  attempt scope method nonce = do
    invoice ← fetch invoice_not_found (find_invoice scope.invoice_id)
    quote_attempt scope method nonce invoice

  -- What follows the transaction: the jobs are enqueued after it commits.
  unfoldable pub respond : Outcome → Action (World Db) AttemptResult
  respond outcome = do enqueue_all outcome.sync; pure outcome.result

  unfoldable pub create_intent :
      PublicScope → PaymentMethod → Text → Action (World Db) AttemptResult
  create_intent scope method nonce = do
    outcome ← with_scope (attempt scope method nonce)
    respond outcome
