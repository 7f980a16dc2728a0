-- ===== src/Payments/Effect.antt =====
-- The effect of `applySettlement` on the two rows that it names, as functions on rows.
use mathlib.Core.Option
use multi_brand_invoicing.Prelude.{
  Option, ap, arith, err, if◌then◌else◌, none, ok, refl, some, sym, ◌==◌, ◌∙◌, ◌≡◌,
}
use multi_brand_invoicing.InvoiceStatus.{
  InvoiceTransition, TransitionResult, evaluate_transition, settle_full,
}
use multi_brand_invoicing.Store.{Database, Instant, Invoice, Payment, RowId, World}
use multi_brand_invoicing.Payments.Types.{IntentStatus}
use multi_brand_invoicing.Payments.Settle.{
  SettlementInput, apply_settlement, close_paid, failure_context, mark_failed, mark_processing,
  mark_settled, revert_invoice, revert_to, settle_as, settle_context, settle_invoice,
}

-- The invoice after a decision, and after a settlement.
abbrev pub closed_as : TransitionResult → Instant → Invoice → Invoice
closed_as (ok to) at i = close_paid to at i
closed_as (err code) at i = i

abbrev pub reverted_as : TransitionResult → Invoice → Invoice
reverted_as (ok to) i = revert_to to i
reverted_as (err code) i = i

unfoldable pub invoice_after_as : IntentStatus → SettlementInput → Invoice → Invoice
invoice_after_as IntentStatus.succeeded input i =
    closed_as (evaluate_transition settle_full (settle_context input)) input.occurred_at i
invoice_after_as IntentStatus.failed input i =
    reverted_as (evaluate_transition InvoiceTransition.payment_failed (failure_context input)) i
invoice_after_as _ input i = i

abbrev pub invoice_after : SettlementInput → Invoice → Invoice
invoice_after input = invoice_after_as input.gateway_status input

-- The payment after a settlement.
unfoldable pub payment_after_as : IntentStatus → SettlementInput → Payment → Payment
payment_after_as IntentStatus.succeeded input p = mark_settled input.occurred_at p
payment_after_as IntentStatus.failed input p = mark_failed input.occurred_at input.decline_reason p
payment_after_as _ input p = mark_processing input.occurred_at p

abbrev pub payment_after : SettlementInput → Payment → Payment
payment_after input = payment_after_as input.gateway_status input

-- One row of a table after a write to the row of a key.
abbrev pub row_after {ℓ} : {V : Type ℓ} → RowId → (V → V) → RowId → Option V → Option V
row_after i f j row = if i == j then Option.map f row else row

Option-map_id : {V : Type 0} (o : Option V) → Option.map (λ v. v) o ≡ o
Option-map_id none = refl
Option-map_id (some v) = refl

pub row_after_id : {V : Type 0} (i j : RowId) (o : Option V) → row_after i (λ v. v) j o ≡ o
row_after_id i j o = ground (arith, Option-map_id o)

module _ (D : Database) where
  open D use {
    Db, find_invoice, find_payment, find_invoice-update_invoice, find_invoice-update_payment,
    find_invoice-create_event, find_payment-update_payment, find_payment-update_invoice,
    find_payment-create_event,
  }

  settle_invoice-invoice :
      (r : TransitionResult) (input : SettlementInput) (w : World Db) (j : RowId)
      → find_invoice j (settle_invoice D input r w).1.db
        ≡ row_after input.invoice_id (closed_as r input.occurred_at) j (find_invoice j w.db)
  unfolding settle_invoice
  settle_invoice-invoice (err code) input w j = sym (row_after_id _ _ _)
  settle_invoice-invoice (ok to) input w j =
      find_invoice-create_event j _ _ ∙ find_invoice-update_invoice _ j _ _

  revert_invoice-invoice :
      (r : TransitionResult) (input : SettlementInput) (w : World Db) (j : RowId)
      → find_invoice j (revert_invoice D input r w).1.db
        ≡ row_after input.invoice_id (reverted_as r) j (find_invoice j w.db)
  unfolding revert_invoice
  revert_invoice-invoice (err code) input w j = sym (row_after_id _ _ _)
  revert_invoice-invoice (ok to) input w j =
      find_invoice-create_event j _ _ ∙ find_invoice-update_invoice _ j _ _

  settle_invoice-payment :
      (r : TransitionResult) (input : SettlementInput) (w : World Db) (j : RowId)
      → find_payment j (settle_invoice D input r w).1.db ≡ find_payment j w.db
  unfolding settle_invoice
  settle_invoice-payment (err code) input w j = refl
  settle_invoice-payment (ok to) input w j =
      find_payment-create_event j _ _ ∙ find_payment-update_invoice _ j _ _

  revert_invoice-payment :
      (r : TransitionResult) (input : SettlementInput) (w : World Db) (j : RowId)
      → find_payment j (revert_invoice D input r w).1.db ≡ find_payment j w.db
  unfolding revert_invoice
  revert_invoice-payment (err code) input w j = refl
  revert_invoice-payment (ok to) input w j =
      find_payment-create_event j _ _ ∙ find_payment-update_invoice _ j _ _

  settle_as-invoice :
      (s : IntentStatus) (input : SettlementInput) (w : World Db) (j : RowId)
      → find_invoice j (settle_as D s input w).1.db
        ≡ row_after input.invoice_id (invoice_after_as s input) j (find_invoice j w.db)
  unfolding settle_as invoice_after_as
  settle_as-invoice IntentStatus.succeeded input w j =
      settle_invoice-invoice _ input _ j
      ∙ ap (row_after input.invoice_id _ j) (find_invoice-update_payment _ j _ _)
  settle_as-invoice IntentStatus.failed input w j =
      revert_invoice-invoice _ input _ j
      ∙ ap (row_after input.invoice_id _ j) (find_invoice-update_payment _ j _ _)
  settle_as-invoice _ input w j = find_invoice-update_payment _ j _ _ ∙ sym (row_after_id _ _ _)

  settle_as-payment :
      (s : IntentStatus) (input : SettlementInput) (w : World Db) (j : RowId)
      → find_payment j (settle_as D s input w).1.db
        ≡ row_after input.payment_id (payment_after_as s input) j (find_payment j w.db)
  unfolding settle_as payment_after_as
  settle_as-payment IntentStatus.succeeded input w j =
      settle_invoice-payment _ input _ j ∙ find_payment-update_payment _ j _ _
  settle_as-payment IntentStatus.failed input w j =
      revert_invoice-payment _ input _ j ∙ find_payment-update_payment _ j _ _
  settle_as-payment _ input w j = find_payment-update_payment _ j _ _

  -- A settlement changes one invoice and one payment, as the row functions say, and no other row of
  -- the two tables.
  pub apply_settlement-rows :
      (input : SettlementInput) (w : World Db) (j : RowId)
      → (find_invoice j (apply_settlement D input w).1.db
          ≡ row_after input.invoice_id (invoice_after input) j (find_invoice j w.db))
        × (find_payment j (apply_settlement D input w).1.db
            ≡ row_after input.payment_id (payment_after input) j (find_payment j w.db))
  unfolding apply_settlement
  apply_settlement-rows input w j = (
    settle_as-invoice input.gateway_status input w j,
    settle_as-payment input.gateway_status input w j,
  )

  settle_as-returns :
      (s : IntentStatus) (input : SettlementInput) (w : World Db)
      → ((settle_as D s input w).0 ≡ ok tt) × ((settle_as D s input w).1.jobs ≡ w.jobs)
  unfolding settle_as settle_invoice revert_invoice
  settle_as-returns IntentStatus.succeeded input w = ground arith
  settle_as-returns IntentStatus.failed input w = ground arith
  settle_as-returns _ input w = (refl, refl)

  -- A settlement never throws, and enqueues nothing itself.
  pub apply_settlement-returns :
      (input : SettlementInput) (w : World Db)
      → ((apply_settlement D input w).0 ≡ ok tt) × ((apply_settlement D input w).1.jobs ≡ w.jobs)
  unfolding apply_settlement
  apply_settlement-returns input w = settle_as-returns input.gateway_status input w

  pub apply_settlement-pair :
      (input : SettlementInput) (w : World Db)
      → apply_settlement D input w
        ≡ (ok tt, record { db = (apply_settlement D input w).1.db; jobs = w.jobs })
  apply_settlement-pair input w =
      let (done, quiet) = apply_settlement-returns input w in
      λ i. (done i, record { db = (apply_settlement D input w).1.db; jobs = quiet i })
