-- ===== src/Payments/Outcomes.antt =====
-- What a settlement does to the invoice, by the status from which it is applied.
use multi_brand_invoicing.Prelude.Int.{pos}
use multi_brand_invoicing.Prelude.{ap, arith, none, ok, refl, some, true, ◌∙◌, ◌≡◌, ◌≢◌}
use multi_brand_invoicing.InvoiceStatus.{
  InvoiceStatus, InvoiceTransition, evaluate_transition, is_terminal, paid, pending_payment,
  settle_full,
}
use multi_brand_invoicing.InvoiceStatus.Lifecycle.{
  IsSettling, evaluate_transition-terminal, evaluate_transition_iff,
}
use multi_brand_invoicing.Store.{Database, Invoice, Payment, PaymentStatus, RowId, World}
use multi_brand_invoicing.Payments.Types.{IntentStatus}
use multi_brand_invoicing.Payments.Settle.{
  SettlementInput, apply_settlement, failure_context, settle_context,
}
use multi_brand_invoicing.Payments.Effect.{
  apply_settlement-rows, closed_as, invoice_after_as, payment_after_as, reverted_as, row_after,
  row_after_id,
}

settle_decision :
    (input : SettlementInput)
    → IsSettling input.current_invoice_status
    → evaluate_transition settle_full (settle_context input) ≡ ok paid
settle_decision input h =
    (evaluate_transition_iff settle_full (settle_context input) paid).1 (h, omega arith, refl)

failure_decision :
    (input : SettlementInput) (to : InvoiceStatus)
    → input.current_invoice_status ≡ pending_payment
    → input.invoice_status_before_attempt ≡ to
    → to ≢ pending_payment
    → evaluate_transition InvoiceTransition.payment_failed (failure_context input) ≡ ok to
failure_decision input to h e n =
    (evaluate_transition_iff InvoiceTransition.payment_failed (failure_context input) to).1
      (h, ap some e, n)

terminal_row :
    (s : IntentStatus) (input : SettlementInput)
    → is_terminal input.current_invoice_status ≡ true
    → invoice_after_as s input ≡ (λ i. i)
unfolding invoice_after_as
terminal_row IntentStatus.succeeded input h =
    ap {B = Invoice → Invoice} (λ r i. closed_as r input.occurred_at i)
      (evaluate_transition-terminal settle_full (settle_context input) h)
terminal_row IntentStatus.failed input h =
    ap {B = Invoice → Invoice} (λ r i. reverted_as r i)
      (evaluate_transition-terminal InvoiceTransition.payment_failed (failure_context input) h)
terminal_row _ input h = refl

module _ (D : Database) where
  open D use {find_invoice, find_payment}

  -- A success on an invoice that awaits its settlement: the invoice is paid, with no balance and no
  -- status to return to, and the payment is settled, both at the gateway's time; every other field of the
  -- two rows stays.
  pub apply_settlement_success :
      (input : SettlementInput) (w : World D.Db) (i : Invoice) (p : Payment)
      → input.gateway_status ≡ IntentStatus.succeeded
      → IsSettling input.current_invoice_status
      → find_invoice input.invoice_id w.db ≡ some i
      → find_payment input.payment_id w.db ≡ some p
      → (find_invoice input.invoice_id (apply_settlement D input w).1.db
          ≡ some (record i {
            status = paid;
            balance_minor = pos 0;
            paid_at = some input.occurred_at;
            previous_status = none;
          }))
        × (find_payment input.payment_id (apply_settlement D input w).1.db
            ≡ some (record p {
              status = PaymentStatus.settled;
              settled_at = some input.occurred_at;
              last_event_at = some input.occurred_at;
            }))
  unfolding invoice_after_as payment_after_as
  apply_settlement_success input w i p s h ei ep =
      let rows_i = (apply_settlement-rows D input w input.invoice_id).0 in
      let rows_p = (apply_settlement-rows D input w input.payment_id).1 in
      (ground (arith, rows_i, settle_decision input h), ground (arith, rows_p))

  -- A decline of an attempt on a pending invoice returns the invoice to the status that it had before
  -- the attempt, unless that was PENDING_PAYMENT too, with no status to return to, and marks the payment
  -- failed with the gateway's reason and time; every other field stays, the balance among them.
  pub apply_settlement_decline :
      (input : SettlementInput) (w : World D.Db) (i : Invoice) (p : Payment)
      → input.gateway_status ≡ IntentStatus.failed
      → input.current_invoice_status ≡ pending_payment
      → input.invoice_status_before_attempt ≢ pending_payment
      → find_invoice input.invoice_id w.db ≡ some i
      → find_payment input.payment_id w.db ≡ some p
      → (find_invoice input.invoice_id (apply_settlement D input w).1.db
          ≡ some
              (record i { status = input.invoice_status_before_attempt; previous_status = none }))
        × (find_payment input.payment_id (apply_settlement D input w).1.db
            ≡ some (record p {
              status = PaymentStatus.failed;
              decline_reason = input.decline_reason;
              last_event_at = some input.occurred_at;
            }))
  unfolding invoice_after_as payment_after_as
  apply_settlement_decline input w i p s h n ei ep =
      let rows_i = (apply_settlement-rows D input w input.invoice_id).0 in
      let rows_p = (apply_settlement-rows D input w input.payment_id).1 in
      let decision = failure_decision input input.invoice_status_before_attempt h refl n in
      (ground (arith, rows_i, decision), ground (arith, rows_p))

  -- An invoice that is paid or cancelled keeps its row under every settlement, and so does every other
  -- invoice, though the payment's row is still marked.
  pub apply_settlement-terminal :
      (input : SettlementInput) (w : World D.Db) (j : RowId)
      → is_terminal input.current_invoice_status ≡ true
      → find_invoice j (apply_settlement D input w).1.db ≡ find_invoice j w.db
  apply_settlement-terminal input w j h =
      (apply_settlement-rows D input w j).0
      ∙ ap (λ f. row_after input.invoice_id f j (find_invoice j w.db))
          (terminal_row input.gateway_status input h)
      ∙ row_after_id input.invoice_id j (find_invoice j w.db)
