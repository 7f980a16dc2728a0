-- ===== src/Payments/Settle.antt =====
-- `applySettlement` of apps/api/src/payments/payments.service.ts.
use multi_brand_invoicing.Prelude.{Option, err, none, ok, some, true}
use multi_brand_invoicing.Prelude.Int.{pos, ℤ}
use multi_brand_invoicing.InvoiceStatus.{
  InvoiceStatus, InvoiceTransition, TransitionContext, TransitionResult, evaluate_transition,
  settle_full,
}
use multi_brand_invoicing.Store.{
  Action, Database, EventType, Instant, Invoice, Payment, PaymentStatus, RowId, Text, World, change,
  pure, ◌>>◌,
}
use multi_brand_invoicing.Payments.Types.{IntentStatus}

-- The arguments of `applySettlement`.
pub record SettlementInput : Type 0 where
  pub invoice_id : RowId
  pub payment_id : RowId
  pub invoice_total_minor : ℤ
  pub invoice_status_before_attempt : InvoiceStatus
  pub current_invoice_status : InvoiceStatus
  pub gateway_status : IntentStatus
  pub occurred_at : Instant
  pub decline_reason : Option Text

-- The evaluations that `applySettlement` asks for.
abbrev pub settle_context : SettlementInput → TransitionContext
settle_context input = record {
  status = input.current_invoice_status;
  previous_status = none;
  line_item_count = 0;
  total_minor = input.invoice_total_minor;
  balance_minor = pos 0;
  settled_minor = input.invoice_total_minor;
  customer_has_deliverable_email = true;
}

abbrev pub failure_context : SettlementInput → TransitionContext
failure_context input = record {
  status = input.current_invoice_status;
  previous_status = some input.invoice_status_before_attempt;
  line_item_count = 0;
  total_minor = input.invoice_total_minor;
  balance_minor = input.invoice_total_minor;
  settled_minor = pos 0;
  customer_has_deliverable_email = true;
}

-- The data of the writes of `applySettlement`.
abbrev pub mark_settled : Instant → Payment → Payment
mark_settled at p = record p {
  status = PaymentStatus.settled;
  settled_at = some at;
  last_event_at = some at;
}

abbrev pub mark_failed : Instant → Option Text → Payment → Payment
mark_failed at reason p = record p {
  status = PaymentStatus.failed;
  decline_reason = reason;
  last_event_at = some at;
}

abbrev pub mark_processing : Instant → Payment → Payment
mark_processing at p = record p { status = PaymentStatus.processing; last_event_at = some at }

abbrev pub close_paid : InvoiceStatus → Instant → Invoice → Invoice
close_paid to at i = record i {
  status = to;
  balance_minor = pos 0;
  paid_at = some at;
  previous_status = none;
}

abbrev pub revert_to : InvoiceStatus → Invoice → Invoice
revert_to to i = record i { status = to; previous_status = none }

module _ (D : Database) where
  open D use {
    Db, find_invoice, find_payment, payment_by_key, payment_by_reference, find_settings,
    update_invoice, update_payment, create_payment, create_event,
  }

  -- The invoice's part of a settlement, on the decision; a refusal is logged, and nothing is thrown.
  unfoldable pub settle_invoice : SettlementInput → TransitionResult → Action (World Db) (Unit {0})
  settle_invoice input (err code) = pure tt
  settle_invoice input (ok to) = do
    change (update_invoice input.invoice_id (close_paid to input.occurred_at))
    change (
        create_event (record {
          invoice_id = input.invoice_id;
          event_type = EventType.payment_settled;
          from_status = input.current_invoice_status;
          to_status = to;
          actor = none;
        }))

  unfoldable pub revert_invoice : SettlementInput → TransitionResult → Action (World Db) (Unit {0})
  revert_invoice input (err code) = pure tt
  revert_invoice input (ok to) = do
    change (update_invoice input.invoice_id (revert_to to))
    change (
        create_event (record {
          invoice_id = input.invoice_id;
          event_type = EventType.payment_failed;
          from_status = input.current_invoice_status;
          to_status = to;
          actor = none;
        }))

  -- The branches of `applySettlement` on the gateway's status.
  unfoldable pub settle_as : IntentStatus → SettlementInput → Action (World Db) (Unit {0})
  settle_as IntentStatus.succeeded input = do
    change (update_payment input.payment_id (mark_settled input.occurred_at))
    settle_invoice input (evaluate_transition settle_full (settle_context input))
  settle_as IntentStatus.failed input = do
    change (update_payment input.payment_id (mark_failed input.occurred_at input.decline_reason))
    revert_invoice input
        (evaluate_transition InvoiceTransition.payment_failed (failure_context input))
  settle_as _ input = change (update_payment input.payment_id (mark_processing input.occurred_at))

  unfoldable pub apply_settlement : SettlementInput → Action (World Db) (Unit {0})
  apply_settlement input = settle_as input.gateway_status input
