-- ===== src/Invoices/Kept.antt =====
-- The rows of an invoice under the operations of the invoices service.
use multi_brand_invoicing.Prelude.{
  ==_refl, Bool, Option, [], arith, ok, refl, some, true, ◌++◌, ◌∙◌, ◌∷◌, ◌≡◌,
}
use multi_brand_invoicing.Prelude.Int.{eq_ℤ, ℤ}
use multi_brand_invoicing.Prelude.Double.{js_sub}
use multi_brand_invoicing.Invoices.{
  cancel, cancel_context, cancel_in, find_first, has_balance, issue, issue_context, issue_in,
  log_entry, mark_cancelled, mark_issued, mark_recorded, record_context, record_in,
  record_manual_payment, record_parsed, recorded_payment, same_status, update_if, void_jobs,
}
use multi_brand_invoicing.Calculation.{PaymentMethod}
use multi_brand_invoicing.InvoiceStatus.{
  InvoiceStatus, InvoiceTransition, evaluate_transition, record_payment,
}
use multi_brand_invoicing.Amounts.{parse_minor, to_currency_code}
use multi_brand_invoicing.Chars.{Chars}
use multi_brand_invoicing.Store.{
  Database, EventType, Instant, Invoice, RowId, Text, World, enqueue, enqueue_all, fetch,
  fetch_found, invoice_not_found, pure, scope_returned, zoho_push_invoice, zoho_push_payment, ◌>>=◌,
  ◌>>◌,
}

eq_ℤ_refl : (n : ℤ) → eq_ℤ n n ≡ true
eq_ℤ_refl n = ground arith

same_status_refl : (s : InvoiceStatus) → same_status s s ≡ true
same_status_refl s = ground arith

module _ (D : Database) where
  open D use {
    Db, find_invoice, update_invoice, create_payment, create_event, find_invoice-update_invoice,
    find_invoice-create_payment, find_invoice-create_event,
  }

  pub updated_row :
      (id : RowId) (f : Invoice → Invoice) (i : Invoice) (d : Db)
      → find_invoice id d ≡ some i
      → find_invoice id (update_invoice id f d) ≡ some (f i)
  updated_row id f i d h = find_invoice-update_invoice id id f d ∙ rw (==_refl id, h) refl

  first_found :
      (brand_id id : RowId) (i : Invoice) (d : Db)
      → find_invoice id d ≡ some i
      → i.brand_id ≡ brand_id
      → find_first D brand_id id d ≡ some i
  first_found brand_id id i d h own = rw (h, own, ==_refl brand_id) refl

  update_if_lem :
      (id : RowId) (test : Invoice → Bool) (f : Invoice → Invoice) (i : Invoice) (w : World Db)
      → find_invoice id w.db ≡ some i
      → test i ≡ true
      → update_if D id test f w ≡ (ok tt, record w { db = update_invoice id f w.db })
  unfolding update_if
  update_if_lem id test f i w h t = rw (h, t) refl

  -- The database after a cancellation that is permitted.
  abbrev pub cancelled_db : RowId → Instant → Option RowId → Invoice → InvoiceStatus → Db → Db
  cancelled_db id now actor i to d =
      create_event (log_entry id EventType.cancel i to actor)
        (update_invoice id (mark_cancelled to now) d)

  cancel_in-returns :
      (id : RowId) (now : Instant) (actor : Option RowId) (w : World Db) (i : Invoice)
      (to : InvoiceStatus)
      → find_invoice id w.db ≡ some i
      → evaluate_transition InvoiceTransition.cancel (cancel_context i) ≡ ok to
      → cancel_in D id now actor i w
        ≡ (ok (mark_cancelled to now i), record w { db = cancelled_db id now actor i to w.db })
  unfolding cancel_in
  cancel_in-returns id now actor w i to found permits =
      let f = mark_cancelled to now in
      let row : find_invoice id (cancelled_db id now actor i to w.db) ≡ some (f i) =
        find_invoice-create_event id (log_entry id EventType.cancel i to actor)
          (update_invoice id f w.db)
        ∙ updated_row id f i w.db found in
      ground (
        arith,
        permits,
        update_if_lem id (λ (r : Invoice). same_status r.status i.status) f i w found
            (same_status_refl i.status),
        row,
      )

  abbrev pub issued_db : RowId → Instant → Option RowId → Invoice → InvoiceStatus → Db → Db
  issued_db id now actor i to d =
      create_event (log_entry id EventType.issue i to actor)
        (update_invoice id (mark_issued to now) d)

  issue_in-returns :
      (id : RowId) (now : Instant) (actor : Option RowId) (w : World Db) (i : Invoice)
      (to : InvoiceStatus)
      → evaluate_transition InvoiceTransition.issue (issue_context i) ≡ ok to
      → issue_in D id now actor i w
        ≡ (ok (mark_issued to now i), record w { db = issued_db id now actor i to w.db })
  unfolding issue_in
  issue_in-returns id now actor w i to permits = ground (arith, permits)

  -- The database after a manual payment that is permitted, and the key of the payment's row.
  abbrev pub paid_db :
      RowId → PaymentMethod → ℤ → Text → Instant → Invoice → InvoiceStatus → Db → RowId × Db
  paid_db id method amount key at i to d =
      create_payment (recorded_payment id i method amount key at)
        (update_invoice id (mark_recorded to (js_sub i.balance_minor amount) at) d)

  abbrev pub recorded_db :
      RowId → PaymentMethod → ℤ → Text → Instant → Option RowId → Invoice → InvoiceStatus → Db → Db
  recorded_db id method amount key at actor i to d =
      create_event (log_entry id EventType.manual_payment_recorded i to actor)
        (paid_db id method amount key at i to d).1

  pub recorded_row :
      (id : RowId) (method : PaymentMethod) (amount : ℤ) (key : Text) (at : Instant)
      (actor : Option RowId) (i : Invoice) (to : InvoiceStatus) (d : Db)
      → find_invoice id d ≡ some i
      → find_invoice id (recorded_db id method amount key at actor i to d)
        ≡ some (mark_recorded to (js_sub i.balance_minor amount) at i)
  recorded_row id method amount key at actor i to d found =
      let f = mark_recorded to (js_sub i.balance_minor amount) at in
      find_invoice-create_event id (log_entry id EventType.manual_payment_recorded i to actor)
        (paid_db id method amount key at i to d).1
      ∙ find_invoice-create_payment id (recorded_payment id i method amount key at)
          (update_invoice id f d)
      ∙ updated_row id f i d found

  record_in-returns :
      (id : RowId) (method : PaymentMethod) (amount : ℤ) (key : Text) (at : Instant)
      (actor : Option RowId) (w : World Db) (i : Invoice) (to : InvoiceStatus)
      → find_invoice id w.db ≡ some i
      → evaluate_transition record_payment (record_context i amount) ≡ ok to
      → record_in D id method amount key at actor i w ≡ (
        ok (
          mark_recorded to (js_sub i.balance_minor amount) at i,
          (paid_db id method amount key at i to w.db).0,
        ),
        record w { db = recorded_db id method amount key at actor i to w.db },
      )
  unfolding record_in
  record_in-returns id method amount key at actor w i to found permits =
      let f = mark_recorded to (js_sub i.balance_minor amount) at in
      ground (
        arith,
        permits,
        update_if_lem id (has_balance i.balance_minor) f i w found (eq_ℤ_refl i.balance_minor),
        recorded_row id method amount key at actor i to w.db found,
      )

  -- Each operation, where the invoice is of the brand and the transition is permitted.
  pub issue_lem :
      (brand_id id : RowId) (now : Instant) (actor : Option RowId) (w : World Db) (i : Invoice)
      (to : InvoiceStatus)
      → find_invoice id w.db ≡ some i
      → i.brand_id ≡ brand_id
      → evaluate_transition InvoiceTransition.issue (issue_context i) ≡ ok to
      → issue D brand_id id now actor w ≡ (
        ok (mark_issued to now i),
        record {
          db = issued_db id now actor i to w.db;
          jobs = w.jobs ++ zoho_push_invoice brand_id id ∷ [];
        },
      )
  unfolding issue
  issue_lem brand_id id now actor w i to found own permits =
      let start = first_found brand_id id i w.db found own in
      scope_returned
        (fetch invoice_not_found (find_first D brand_id id) >>= issue_in D id now actor)
        (λ updated. enqueue (zoho_push_invoice brand_id id) >> pure updated) w
        (record w { db = issued_db id now actor i to w.db })
        (fetch_found invoice_not_found (find_first D brand_id id) (issue_in D id now actor) w start
          ∙ issue_in-returns id now actor w i to permits)

  pub cancel_lem :
      (brand_id id : RowId) (now : Instant) (actor : Option RowId) (w : World Db) (i : Invoice)
      (to : InvoiceStatus)
      → find_invoice id w.db ≡ some i
      → i.brand_id ≡ brand_id
      → evaluate_transition InvoiceTransition.cancel (cancel_context i) ≡ ok to
      → cancel D brand_id id now actor w ≡ (
        ok (mark_cancelled to now i),
        record {
          db = cancelled_db id now actor i to w.db;
          jobs = w.jobs ++ void_jobs i brand_id id;
        },
      )
  unfolding cancel
  cancel_lem brand_id id now actor w i to found own permits =
      let start = first_found brand_id id i w.db found own in
      scope_returned
        (fetch invoice_not_found (find_first D brand_id id) >>= cancel_in D id now actor)
        (λ updated. enqueue_all (void_jobs updated brand_id id) >> pure updated) w
        (record w { db = cancelled_db id now actor i to w.db })
        (fetch_found invoice_not_found (find_first D brand_id id) (cancel_in D id now actor) w start
          ∙ cancel_in-returns id now actor w i to found permits)

  pub record_manual_payment_lem :
      (brand_id id : RowId) (method : PaymentMethod) (input : Chars) (key : Text) (at : Instant)
      (actor : Option RowId) (w : World Db) (i : Invoice) (amount : ℤ) (to : InvoiceStatus)
      → find_invoice id w.db ≡ some i
      → i.brand_id ≡ brand_id
      → parse_minor input (to_currency_code i.currency) ≡ ok amount
      → evaluate_transition record_payment (record_context i amount) ≡ ok to
      → record_manual_payment D brand_id id method input key at actor w ≡ (
        ok (mark_recorded to (js_sub i.balance_minor amount) at i),
        record {
          db = recorded_db id method amount key at actor i to w.db;
          jobs =
              w.jobs
              ++ zoho_push_payment brand_id (paid_db id method amount key at i to w.db).0 ∷ [];
        },
      )
  unfolding record_manual_payment record_parsed
  record_manual_payment_lem brand_id id method input key at actor w i amount to found own parsed
        permits =
      let start = first_found brand_id id i w.db found own in
      let body = record_parsed D id method input key at actor in
      scope_returned (fetch invoice_not_found (find_first D brand_id id) >>= body)
        (λ saved. enqueue (zoho_push_payment brand_id saved.1) >> pure saved.0) w
        (record w { db = recorded_db id method amount key at actor i to w.db })
        (fetch_found invoice_not_found (find_first D brand_id id) body w start
          ∙ rw parsed (record_in-returns id method amount key at actor w i to found permits))
