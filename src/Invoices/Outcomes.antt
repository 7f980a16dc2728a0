-- ===== src/Invoices/Outcomes.antt =====
-- What issue, recordManualPayment and cancel leave, from their preconditions.
use multi_brand_invoicing.Invoices.{
  cancel, cancel_context, issue, issue_context, log_entry, mark_cancelled, mark_issued,
  mark_recorded, record_manual_payment, recorded_payment, void_jobs,
}
use multi_brand_invoicing.InvoiceStatus.{InvoiceTransition, cancelled, paid, partially_paid, sent}
use multi_brand_invoicing.Store.{
  Database, EventType, Instant, Invoice, PaymentStatus, RowId, Text, World, zoho_push_invoice,
  zoho_push_payment,
}
use multi_brand_invoicing.Prelude.{
  Option, [], ap, arith, if◌then◌else◌, none, ok, refl, some, sym, ℕ, ◌++◌, ◌-◌, ◌<◌, ◌==◌, ◌∙◌,
  ◌∷◌, ◌≡◌, ◌≤◌,
}
use multi_brand_invoicing.Prelude.Int.{pos, ◌-ℤ◌, ◌≤ℤ◌}
use multi_brand_invoicing.Prelude.Double.{js_sub, max_safe_integer}
use multi_brand_invoicing.Invoices.Recorded.{
  evaluate_transition_recorded, js_sub_nat, mark_recorded_for, status_for,
}
use multi_brand_invoicing.Invoices.Kept.{
  cancel_lem, issue_lem, record_manual_payment_lem, recorded_row, updated_row,
}
use multi_brand_invoicing.Calculation.{PaymentMethod}
use multi_brand_invoicing.InvoiceStatus.Lifecycle.{
  IsCancellable, IsOpen, Permits, evaluate_transition_iff,
}
use multi_brand_invoicing.Amounts.{parse_minor, to_currency_code}
use multi_brand_invoicing.Chars.{Chars}

module _ (D : Database) where
  open D use {
    Db, find_invoice, find_payment, update_invoice, create_payment, create_event,
    find_invoice-create_event, find_payment-create_payment, find_payment-create_event,
    find_payment_unused, find_payment-update_invoice,
  }

  -- A manual payment whose text reads as `a`, positive and at most the balance of an open invoice of
  -- the brand: the call returns, the balance falls by exactly `a`, the invoice is PAID if nothing is
  -- left, at that time, and PARTIALLY_PAID else, and its other fields stay; a settled payment of `a` is
  -- recorded under an identifier that no payment had, and one job pushes that payment.
  pub record_manual_payment_outcome :
      (brand_id id : RowId) (method : PaymentMethod) (input : Chars) (key : Text) (at : Instant)
      (actor : Option RowId) (w : World Db) (i : Invoice) (t b a : ℕ)
      → find_invoice id w.db ≡ some i
      → i.brand_id ≡ brand_id
      → parse_minor input (to_currency_code i.currency) ≡ ok (pos a)
      → IsOpen i.status
      → i.total_minor ≡ pos t
      → i.balance_minor ≡ pos b
      → 0 < a
      → a ≤ b
      → b ≤ t
      → t ≤ max_safe_integer
      → let j : Invoice = record i {
        status = if a == b then paid else partially_paid;
        balance_minor = pos (b - a);
        previous_status = none;
        paid_at = if a == b then some at else i.paid_at;
      } in
        let run = record_manual_payment D brand_id id method input key at actor w in
        (run.0 ≡ ok j)
        × (find_invoice id run.1.db ≡ some j)
        × ((k : RowId) × (find_payment k w.db ≡ none)
            × (find_payment k run.1.db
                ≡ some (record {
                  invoice_id = id;
                  brand_id = i.brand_id;
                  method = method;
                  amount_minor = pos a;
                  currency = i.currency;
                  status = PaymentStatus.settled;
                  idempotency_key = key;
                  gateway_reference = none;
                  last_event_at = none;
                  decline_reason = none;
                  settled_at = some at;
                }))
            × (run.1.jobs ≡ w.jobs ++ zoho_push_payment brand_id k ∷ []))
  record_manual_payment_outcome brand_id id method input key at actor w i t b a found own parsed o
        et eb p h k s =
      let permits = evaluate_transition_recorded i t b a o et eb p h k s in
      let left : js_sub i.balance_minor (pos a) ≡ pos (b - a) =
        rw eb (js_sub_nat b a h (omega arith)) in
      let f = mark_recorded (status_for a b) (js_sub i.balance_minor (pos a)) at in
      let e = log_entry id EventType.manual_payment_recorded i (status_for a b) actor in
      let q = recorded_payment id i method (pos a) key at in
      let made = create_payment q (update_invoice id f w.db) in
      let row = mark_recorded_for a b (pos (b - a)) at i in
      rw
        (record_manual_payment_lem D brand_id id method input key at actor w i (pos a)
          (status_for a b) found own parsed permits)
        (
          ap (λ z. ok (mark_recorded (status_for a b) z at i)) left ∙ ap ok row,
          rw left at (recorded_row D id method (pos a) key at actor i (status_for a b) w.db found)
              ∙ ap some row,
          (
            made.0,
            sym (find_payment-update_invoice id made.0 f w.db)
                ∙ find_payment_unused q (update_invoice id f w.db),
            find_payment-create_event made.0 e made.1
                ∙ find_payment-create_payment q (update_invoice id f w.db),
            refl,
          ),
        )

  -- A draft of the brand with a line, a positive total and an address is issued: it becomes SENT at that
  -- time, and one job pushes it.
  pub issue_outcome :
      (brand_id id : RowId) (now : Instant) (actor : Option RowId) (w : World Db) (i : Invoice)
      → find_invoice id w.db ≡ some i
      → i.brand_id ≡ brand_id
      → Permits InvoiceTransition.issue (issue_context i) sent
      → let run = issue D brand_id id now actor w in
        (run.0 ≡ ok (mark_issued sent now i))
        × (find_invoice id run.1.db ≡ some (mark_issued sent now i))
        × (run.1.jobs ≡ w.jobs ++ zoho_push_invoice brand_id id ∷ [])
  issue_outcome brand_id id now actor w i found own h =
      let e = log_entry id EventType.issue i sent actor in
      rw
        (issue_lem D brand_id id now actor w i sent found own
          ((evaluate_transition_iff InvoiceTransition.issue (issue_context i) sent).1 h))
        (
          refl,
          find_invoice-create_event id e _ ∙ updated_row D id (mark_issued sent now) i w.db found,
          refl,
        )

  -- An invoice of the brand that is not paid in any part and whose status allows it is cancelled: it
  -- becomes CANCELLED at that time with no status to return to, and a job pushes it only if it was
  -- pushed before.
  pub cancel_outcome :
      (brand_id id : RowId) (now : Instant) (actor : Option RowId) (w : World Db) (i : Invoice)
      → find_invoice id w.db ≡ some i
      → i.brand_id ≡ brand_id
      → IsCancellable i.status
      → i.total_minor -ℤ i.balance_minor ≤ℤ pos 0
      → let run = cancel D brand_id id now actor w in
        (run.0 ≡ ok (mark_cancelled cancelled now i))
        × (find_invoice id run.1.db ≡ some (mark_cancelled cancelled now i))
        × (run.1.jobs ≡ w.jobs ++ void_jobs i brand_id id)
  cancel_outcome brand_id id now actor w i found own s unpaid =
      let e = log_entry id EventType.cancel i cancelled actor in
      rw
        (cancel_lem D brand_id id now actor w i cancelled found own (
          (evaluate_transition_iff InvoiceTransition.cancel (cancel_context i) cancelled).1
            (s, unpaid, refl)))
        (
          refl,
          find_invoice-create_event id e _
              ∙ updated_row D id (mark_cancelled cancelled now) i w.db found,
          refl,
        )
