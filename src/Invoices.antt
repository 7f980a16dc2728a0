-- ===== src/Invoices.antt =====
-- apps/api/src/invoices/invoices.service.ts: issue, recordManualPayment and cancel. The actor,
-- the clock and the random key are arguments.
pub mod Recorded
pub mod Kept
pub mod Outcomes
pub mod Drafts
pub mod Creation
use multi_brand_invoicing.Prelude.{
  Bool, List, Option, [], false, if◌then◌else◌, length, none, not, some, true, ◌==◌, ◌∷◌,
}
use multi_brand_invoicing.Prelude.Int.{eq_ℤ, pos, ℤ, ◌-ℤ◌}
use multi_brand_invoicing.Prelude.Double.{js_add, js_sub}
use multi_brand_invoicing.Calculation.{PaymentMethod}
use multi_brand_invoicing.InvoiceStatus.{
  InvoiceStatus, InvoiceTransition, TransitionContext, cancelled, draft, evaluate_transition, paid,
  partially_paid, pending_payment, record_payment, sent, viewed,
}
use multi_brand_invoicing.Amounts.{parse_minor, to_currency_code}
use multi_brand_invoicing.Chars.{Chars}
use multi_brand_invoicing.Store.{
  Action, Database, EventType, Instant, Invoice, InvoiceEvent, Job, Payment, PaymentStatus, RowId,
  Text, World, change, changed_while_saving, checked, enqueue, enqueue_all, fetch,
  invoice_not_found, permitted, pure, query, raise_if, with_scope, write, zoho_push_invoice,
  zoho_push_payment, ◌>>=◌, ◌>>◌,
}
use multi_brand_invoicing.Payments.Types.{is_some}

-- The evaluations that the operations ask for.
abbrev pub issue_context : Invoice → TransitionContext
issue_context i = record {
  status = i.status;
  previous_status = none;
  line_item_count = length i.line_items;
  total_minor = i.total_minor;
  balance_minor = i.balance_minor;
  settled_minor = pos 0;
  customer_has_deliverable_email = is_some i.customer_email;
}

abbrev pub record_context : Invoice → ℤ → TransitionContext
record_context i amount = record {
  status = i.status;
  previous_status = none;
  line_item_count = 0;
  total_minor = i.total_minor;
  balance_minor = i.balance_minor;
  settled_minor = js_add (js_sub i.total_minor i.balance_minor) amount;
  customer_has_deliverable_email = true;
}

abbrev pub cancel_context : Invoice → TransitionContext
cancel_context i = record {
  status = i.status;
  previous_status = none;
  line_item_count = 0;
  total_minor = i.total_minor;
  balance_minor = i.balance_minor;
  settled_minor = i.total_minor -ℤ i.balance_minor;
  customer_has_deliverable_email = true;
}

-- The data of the writes.
abbrev pub mark_issued : InvoiceStatus → Instant → Invoice → Invoice
mark_issued to at i = record i { status = to; issued_at = some at }

abbrev pub paid_time : InvoiceStatus → Instant → Option Instant → Option Instant
paid_time paid at _ = some at
paid_time _ at before = before

abbrev pub mark_recorded : InvoiceStatus → ℤ → Instant → Invoice → Invoice
mark_recorded to balance at i = record i {
  status = to;
  balance_minor = balance;
  previous_status = none;
  paid_at = paid_time to at i.paid_at;
}

abbrev pub mark_cancelled : InvoiceStatus → Instant → Invoice → Invoice
mark_cancelled to at i = record i { status = to; cancelled_at = some at; previous_status = none }

abbrev pub recorded_payment : RowId → Invoice → PaymentMethod → ℤ → Text → Instant → Payment
recorded_payment id i method amount key at = record {
  invoice_id = id;
  brand_id = i.brand_id;
  method = method;
  amount_minor = amount;
  currency = i.currency;
  status = PaymentStatus.settled;
  idempotency_key = key;
  gateway_reference = none;
  last_event_at = none;
  decline_reason = none;
  settled_at = some at;
}

abbrev pub log_entry : RowId → EventType → Invoice → InvoiceStatus → Option RowId → InvoiceEvent
log_entry id kind i to actor = record {
  invoice_id = id;
  event_type = kind;
  from_status = i.status;
  to_status = to;
  actor = actor;
}

abbrev pub of_brand : RowId → Option Invoice → Option Invoice
of_brand brand_id none = none
of_brand brand_id (some i) = if i.brand_id == brand_id then some i else none

abbrev pub void_jobs : Invoice → RowId → RowId → List Job
void_jobs i brand_id id =
    if is_some i.zoho_invoice_id then zoho_push_invoice brand_id id ∷ [] else []

-- The tests of the two conditional writes, on the row as it is then.
abbrev pub has_balance : ℤ → Invoice → Bool
has_balance balance i = eq_ℤ i.balance_minor balance

abbrev pub same_status : InvoiceStatus → InvoiceStatus → Bool
same_status draft draft = true
same_status sent sent = true
same_status viewed viewed = true
same_status pending_payment pending_payment = true
same_status partially_paid partially_paid = true
same_status paid paid = true
same_status cancelled cancelled = true
same_status _ _ = false

module _ (D : Database) where
  open D use {Db, find_invoice, update_invoice, create_payment, create_event}

  -- `findFirst({ where: { id, brandId } })`
  abbrev pub find_first : RowId → RowId → Db → Option Invoice
  find_first brand_id id d = of_brand brand_id (find_invoice id d)

  -- `updateMany({ where: { id, … } })` with the exception of a count of zero.
  unfoldable pub update_if :
      RowId → (Invoice → Bool) → (Invoice → Invoice) → Action (World Db) (Unit {0})
  update_if id test f = do
    found ← query (find_invoice id)
    raise_if (elim found [ none ↦ true | some i ↦ not (test i) ]) changed_while_saving
    change (update_invoice id f)

  unfoldable pub issue_in : RowId → Instant → Option RowId → Invoice → Action (World Db) Invoice
  issue_in id now actor i = do
    to ← permitted (evaluate_transition InvoiceTransition.issue (issue_context i))
    change (update_invoice id (mark_issued to now))
    change (create_event (log_entry id EventType.issue i to actor))
    pure (mark_issued to now i)

  unfoldable pub issue : RowId → RowId → Instant → Option RowId → Action (World Db) Invoice
  issue brand_id id now actor = do
    updated ←
        with_scope (fetch invoice_not_found (find_first brand_id id) >>= issue_in id now actor)
    enqueue (zoho_push_invoice brand_id id)
    pure updated

  unfoldable pub record_in :
      RowId
      → PaymentMethod
      → ℤ
      → Text
      → Instant
      → Option RowId
      → Invoice
      → Action (World Db) (Invoice × RowId)
  unfolding update_if
  record_in id method amount key paid_at actor i = do
    to ← permitted (evaluate_transition record_payment (record_context i amount))
    update_if id (has_balance i.balance_minor)
        (mark_recorded to (js_sub i.balance_minor amount) paid_at)
    payment_id ← write (create_payment (recorded_payment id i method amount key paid_at))
    change (create_event (log_entry id EventType.manual_payment_recorded i to actor))
    updated ← fetch invoice_not_found (find_invoice id)
    pure (updated, payment_id)

  unfoldable pub record_parsed :
      RowId
      → PaymentMethod
      → Chars
      → Text
      → Instant
      → Option RowId
      → Invoice
      → Action (World Db) (Invoice × RowId)
  record_parsed id method input key paid_at actor i = do
    amount ← checked (parse_minor input (to_currency_code i.currency))
    record_in id method amount key paid_at actor i

  unfoldable pub record_manual_payment :
      RowId
      → RowId
      → PaymentMethod
      → Chars
      → Text
      → Instant
      → Option RowId
      → Action (World Db) Invoice
  record_manual_payment brand_id id method input key paid_at actor = do
    saved ← with_scope (
        fetch invoice_not_found (find_first brand_id id)
        >>= record_parsed id method input key paid_at actor)
    enqueue (zoho_push_payment brand_id saved.1)
    pure saved.0

  unfoldable pub cancel_in : RowId → Instant → Option RowId → Invoice → Action (World Db) Invoice
  unfolding update_if
  cancel_in id now actor i = do
    to ← permitted (evaluate_transition InvoiceTransition.cancel (cancel_context i))
    update_if id (λ r. same_status r.status i.status) (mark_cancelled to now)
    change (create_event (log_entry id EventType.cancel i to actor))
    fetch invoice_not_found (find_invoice id)

  unfoldable pub cancel : RowId → RowId → Instant → Option RowId → Action (World Db) Invoice
  cancel brand_id id now actor = do
    updated ←
        with_scope (fetch invoice_not_found (find_first brand_id id) >>= cancel_in id now actor)
    enqueue_all (void_jobs updated brand_id id)
    pure updated
