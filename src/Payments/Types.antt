-- ===== src/Payments/Types.antt =====
-- The types of the payment gateway port (packages/shared/src/ports/payment-gateway.port.ts) and the
-- pure parts of apps/api/src/payments/payments.service.ts.
use multi_brand_invoicing.Prelude.{
  Bool, List, Option, [], false, none, not, some, true, ◌==◌, ◌||◌, ◌∷◌,
}
use multi_brand_invoicing.Prelude.Int.{leb_ℤ, ℤ}
use multi_brand_invoicing.Prelude.Double.{int}
use multi_brand_invoicing.Calculation.{
  CalculationInput, CalculationLineInput, PaymentMethod, ach, card, check, manual, wallet,
}
use multi_brand_invoicing.InvoiceStatus.{InvoiceStatus}
use multi_brand_invoicing.Amounts.{StoredCurrency}
use multi_brand_invoicing.Store.{
  BrandSettings, Instant, Invoice, Job, LineItem, PaymentStatus, RowId, Text,
}

-- PAYMENT_INTENT_STATUSES
pub data IntentStatus : Type 0 where
  requires_action processing succeeded failed cancelled : IntentStatus

-- GATEWAY_EVENT_TYPES
pub data GatewayEventType : Type 0 where
  payment_succeeded payment_failed payment_pending payment_cancelled : GatewayEventType
  refund_succeeded refund_failed unknown : GatewayEventType

-- The fields of PaymentIntent that the service reads.
pub record PaymentIntent : Type 0 where
  pub gateway_reference : Text
  pub status : IntentStatus
  pub client_token : Option Text
  pub occurred_at : Instant
  pub decline_reason : Option Text

-- CreateIntentInput, without the texts that are only shown (description, returnUrl, customer).
pub record CreateIntentInput : Type 0 where
  pub idempotency_key : Text
  pub invoice_id : RowId
  pub brand_id : RowId
  pub amount_minor : ℤ
  pub currency : StoredCurrency
  pub method : PaymentMethod

-- The fields of GatewayWebhookEvent that the service reads.
pub record WebhookEvent : Type 0 where
  pub event_type : GatewayEventType
  pub gateway_reference : Text
  pub occurred_at : Instant
  pub decline_reason : Option Text
  pub account_ref : Option Text

-- How a call of the gateway ends: it returns, it throws an IntegrationError, or another error.
pub data Reply : Type 0 where
  replied : PaymentIntent → Reply
  integration_error other_error : Reply

-- PaymentGatewayPort, with what a call returns for its arguments. A request is the raw body with its
-- headers. `resolve_brand_id` is none for a gateway that omits the method.
pub record Gateway : Type 0 where
  pub create_intent : CreateIntentInput → Reply
  pub retrieve : Text → RowId → Reply
  pub verify_signature : Text → Option RowId → Bool
  pub parse_webhook : Text → Option RowId → WebhookEvent
  pub resolve_brand_id : Option (WebhookEvent → Option RowId)

pub record AttemptResult : Type 0 where
  pub gateway_status : IntentStatus
  pub invoice_status : InvoiceStatus
  pub decline_reason : Option Text
  pub client_token : Option Text

unfoldable pub payment_status_to_intent_status : PaymentStatus → IntentStatus
payment_status_to_intent_status PaymentStatus.settled = IntentStatus.succeeded
payment_status_to_intent_status PaymentStatus.partially_refunded = IntentStatus.succeeded
payment_status_to_intent_status PaymentStatus.refunded = IntentStatus.succeeded
payment_status_to_intent_status PaymentStatus.failed = IntentStatus.failed
payment_status_to_intent_status _ = IntentStatus.processing

unfoldable pub is_method_enabled : PaymentMethod → BrandSettings → Bool
is_method_enabled card s = s.card_enabled
is_method_enabled wallet s = s.apple_pay_enabled || s.google_pay_enabled
is_method_enabled ach s = s.ach_enabled
is_method_enabled check s = s.check_enabled
is_method_enabled manual s = true

-- `!settings || !this.isMethodEnabled(method, settings)`
abbrev pub method_refused : PaymentMethod → Option BrandSettings → Bool
method_refused m none = true
method_refused m (some s) = not (is_method_enabled m s)

-- The lines of an invoice, as `createIntent` hands them to `calculate`.
abbrev pub calculation_lines : List LineItem → List CalculationLineInput
calculation_lines [] = []
calculation_lines (l ∷ lines) =
    record {
      quantity = int l.quantity;
      unit_price_minor = int l.unit_price_minor;
      tax_exempt = some l.tax_exempt;
    }
    ∷ calculation_lines lines

-- The quote of an attempt: what the chosen method pays for the whole invoice.
abbrev pub quote_input : Invoice → PaymentMethod → CalculationInput
quote_input invoice method = record {
  lines = calculation_lines invoice.line_items;
  tax_rate_bp = int invoice.tax_rate_bp_applied;
  card_fee_rate_bp = int invoice.card_fee_rate_bp_applied;
  payment_method = method;
  settled_minor = none;
}

abbrev pub is_some : Option Text → Bool
is_some none = false
is_some (some t) = true

-- Whether an intent status is one of the two that settle an attempt.
abbrev pub is_final : IntentStatus → Bool
is_final IntentStatus.succeeded = true
is_final IntentStatus.failed = true
is_final _ = false

-- `intent.clientToken`, handed out only while the client has work to do.
abbrev pub token_for : IntentStatus → Option Text → Option Text
token_for IntentStatus.requires_action token = token
token_for _ token = none

abbrev pub intent_status_of : GatewayEventType → IntentStatus
intent_status_of GatewayEventType.payment_succeeded = IntentStatus.succeeded
intent_status_of GatewayEventType.payment_failed = IntentStatus.failed
intent_status_of _ = IntentStatus.processing

abbrev pub is_unknown : GatewayEventType → Bool
is_unknown GatewayEventType.unknown = true
is_unknown _ = false

-- `payment.lastEventAt && event.occurredAt.getTime() <= payment.lastEventAt.getTime()`
abbrev pub is_stale : Option Instant → Instant → Bool
is_stale none at = false
is_stale (some last) at = leb_ℤ at last

-- `attributedBrandId && payment.brandId !== attributedBrandId`
abbrev pub is_other_brand : Option RowId → RowId → Bool
is_other_brand none brand = false
is_other_brand (some b) brand = not (brand == b)

-- Whether a payment still waits for its outcome (`confirmClientResult`).
abbrev pub awaits_result : PaymentStatus → Bool
awaits_result PaymentStatus.initiated = true
awaits_result PaymentStatus.processing = true
awaits_result _ = false

-- `intent.status ?? fallback` on a status
abbrev pub or_status : Option InvoiceStatus → InvoiceStatus → InvoiceStatus
or_status none s = s
or_status (some p) s = p

-- What the transaction of `createIntent` returns: the result, and the jobs to enqueue after it.
pub record Outcome : Type 0 where
  pub result : AttemptResult
  pub sync : List Job
