-- ===== src/Payments/Webhook.antt =====
-- `handleWebhook` and `confirmClientResult` of apps/api/src/payments/payments.service.ts.
use multi_brand_invoicing.Prelude.{List, Option, [], if◌then◌else◌, none, not, some, ◌==◌, ◌∷◌}
use multi_brand_invoicing.Store.{
  Action, Database, Instant, Invoice, Job, Payment, RowId, Text, World, enqueue_all, fetch,
  gateway_fault, invalid_signature, invoice_not_found, no_matching_payment, pure, query, raise,
  raise_if, with_scope, zoho_push_payment, ◌>>=◌, ◌>>◌,
}
use multi_brand_invoicing.Payments.Types.{
  AttemptResult, Gateway, IntentStatus, PaymentIntent, Reply, WebhookEvent, awaits_result,
  integration_error, intent_status_of, is_final, is_other_brand, is_some, is_stale, is_unknown,
  or_status, other_error, payment_status_to_intent_status, replied,
}
use multi_brand_invoicing.Payments.Settle.{SettlementInput, apply_settlement}
use multi_brand_invoicing.Tenancy.{PublicScope}

-- The settlement that a webhook event asks for.
abbrev pub webhook_settlement : RowId → Payment → Invoice → WebhookEvent → SettlementInput
webhook_settlement payment_id payment invoice event = record {
  invoice_id = payment.invoice_id;
  payment_id = payment_id;
  invoice_total_minor = invoice.total_minor;
  invoice_status_before_attempt = or_status invoice.previous_status invoice.status;
  current_invoice_status = invoice.status;
  gateway_status = intent_status_of event.event_type;
  occurred_at = event.occurred_at;
  decline_reason = event.decline_reason;
}

-- The settlement that a client's confirmation asks for: the gateway's own status, as of now.
abbrev pub confirmed_settlement :
    RowId → Payment → Invoice → PaymentIntent → Instant → SettlementInput
confirmed_settlement payment_id payment invoice intent now = record {
  invoice_id = payment.invoice_id;
  payment_id = payment_id;
  invoice_total_minor = invoice.total_minor;
  invoice_status_before_attempt = or_status invoice.previous_status invoice.status;
  current_invoice_status = invoice.status;
  gateway_status = intent.status;
  occurred_at = now;
  decline_reason = intent.decline_reason;
}

-- `if (gatewayStatus === 'SUCCEEDED') enqueue(...)`
abbrev pub push_jobs : IntentStatus → RowId → RowId → List Job
push_jobs IntentStatus.succeeded brand_id payment_id = zoho_push_payment brand_id payment_id ∷ []
push_jobs _ brand_id payment_id = []

-- The brand that an event is attributed to: `none` is an event of an account that nobody connected,
-- which is dropped, and `some none` an event without a brand.
unfoldable pub attribute :
    Option (WebhookEvent → Option RowId) → Option RowId → WebhookEvent → Option (Option RowId)
attribute none brand_id event = some brand_id
attribute (some resolve) brand_id event =
    if is_some event.account_ref
    then elim (resolve event) [ none ↦ none | some b ↦ some (some b) ]
    else some brand_id

abbrev pub report : Payment → Invoice → AttemptResult
report payment invoice = record {
  gateway_status = payment_status_to_intent_status payment.status;
  invoice_status = invoice.status;
  decline_reason = payment.decline_reason;
  client_token = none;
}

module _ (D : Database) (G : Gateway) where
  open D use {Db, find_invoice, find_payment, payment_by_reference}

  -- The settlement that an event asks for, and the push of a payment that succeeded.
  unfoldable pub deliver_event :
      WebhookEvent → RowId → Payment → Invoice → Action (World Db) (Unit {0})
  deliver_event event payment_id payment invoice = do
    with_scope (apply_settlement D (webhook_settlement payment_id payment invoice event))
    enqueue_all (push_jobs (intent_status_of event.event_type) invoice.brand_id payment_id)

  -- The handling of a verified event for the payment that it names.
  unfoldable pub apply_event :
      Option RowId → WebhookEvent → RowId → Payment → Invoice → Action (World Db) (Unit {0})
  apply_event brand_id event payment_id payment invoice =
      if is_other_brand brand_id payment.brand_id
      then pure tt
      else if is_unknown event.event_type
      then pure tt
      else if is_stale payment.last_event_at event.occurred_at
      then pure tt
      else deliver_event event payment_id payment invoice

  -- The lookup by gateway reference, with the payment's invoice.
  unfoldable pub resolve_event : Option RowId → WebhookEvent → Action (World Db) (Unit {0})
  resolve_event brand_id event = do
    found ← query (payment_by_reference event.gateway_reference)
    elim found [
      | none ↦ pure tt
      | some (payment_id, payment) ↦ do
        invoice ← fetch invoice_not_found (find_invoice payment.invoice_id)
        apply_event brand_id event payment_id payment invoice
    ]

  unfoldable pub handle_webhook : Text → Option RowId → Action (World Db) (Unit {0})
  unfolding attribute
  handle_webhook request brand_id = do
    raise_if (not (G.verify_signature request brand_id)) invalid_signature
    let event = G.parse_webhook request brand_id
    elim (attribute G.resolve_brand_id brand_id event) [
      | none ↦ pure tt
      | some attributed ↦ resolve_event attributed event
    ]

  abbrev pub retrieve_intent : Reply → Action (World Db) PaymentIntent
  retrieve_intent (replied intent) = pure intent
  retrieve_intent integration_error = raise gateway_fault
  retrieve_intent other_error = raise gateway_fault

  -- `findFirst` by invoice and gateway reference.
  abbrev pub of_invoice : RowId → Option (RowId × Payment) → Option (RowId × Payment)
  of_invoice invoice_id none = none
  of_invoice invoice_id (some (i, p)) = if p.invoice_id == invoice_id then some (i, p) else none

  -- The settlement of a confirmation, if the gateway reports a final status.
  unfoldable pub apply_confirmation :
      RowId → Payment → Invoice → PaymentIntent → Instant → Action (World Db) (Unit {0})
  apply_confirmation payment_id payment invoice intent now =
      if not (is_final intent.status) then pure tt else do
        apply_settlement D (confirmed_settlement payment_id payment invoice intent now)
        enqueue_all (push_jobs intent.status payment.brand_id payment_id)

  -- The call of the gateway and what follows, for a payment that awaits its result.
  unfoldable pub confirm_pending :
      Text → Instant → RowId → Payment → Invoice → Action (World Db) AttemptResult
  confirm_pending reference now payment_id payment invoice = do
    intent ← retrieve_intent (G.retrieve reference payment.brand_id)
    apply_confirmation payment_id payment invoice intent now
    refreshed ← fetch no_matching_payment (find_payment payment_id)
    refreshed_invoice ← fetch invoice_not_found (find_invoice refreshed.invoice_id)
    pure (report refreshed refreshed_invoice)

  unfoldable pub confirm_client_result :
      PublicScope → Text → Instant → Action (World Db) AttemptResult
  confirm_client_result scope reference now = with_scope do
    found ←
        fetch no_matching_payment
          (λ d. of_invoice scope.invoice_id (payment_by_reference reference d))
    let (payment_id, payment) = found
    invoice ← fetch invoice_not_found (find_invoice payment.invoice_id)
    if not (awaits_result payment.status)
        then pure (report payment invoice)
        else confirm_pending reference now payment_id payment invoice
