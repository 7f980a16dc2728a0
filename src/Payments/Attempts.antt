-- ===== src/Payments/Attempts.antt =====
-- Payment attempts (`createIntent`): replays, failures of the gateway, and the invoice afterwards.
use multi_brand_invoicing.Prelude.{
  Option-cases, Result, ap, append-nil, err, false, inl, inr, none, ok, refl, some, ◌∙◌, ◌≡◌,
}
use multi_brand_invoicing.Prelude.Int.{ℤ}
use multi_brand_invoicing.InvoiceStatus.{
  InvoiceStatus, evaluate_transition, initiate_payment, pending_payment,
}
use multi_brand_invoicing.Calculation.{CalculationResult, PaymentMethod, calculate}
use multi_brand_invoicing.Payments.Settle.{apply_settlement}
use multi_brand_invoicing.Payments.Effect.{apply_settlement-pair, row_after}
use multi_brand_invoicing.Store.{
  Action, Database, Failure, Invoice, Payment, PaymentStatus, RowId, Text, World, fetch_found,
  fetch_missing, invoice_not_found, not_started, pure, scope_returned, scope_threw, ◌>>◌,
}
use multi_brand_invoicing.Payments.Types.{
  Gateway, IntentStatus, Outcome, PaymentIntent, integration_error, method_refused,
  payment_status_to_intent_status, quote_input, replied,
}
use multi_brand_invoicing.Payments.Attempt.{
  attempt, attempt_settlement, begin_attempt, create_intent, finish_attempt, initiate_context,
  intent_input, new_payment, outcome_of, quote_attempt, replay, replay_or_start, respond,
  set_reference, start_attempt,
}
use multi_brand_invoicing.Tenancy.{PublicScope}

-- How a recorded payment is reported: money that was taken is a success, even if it was given back.
pub data ReportedAs : PaymentStatus → IntentStatus → Type 0 where
  taken : ReportedAs PaymentStatus.settled IntentStatus.succeeded
  given_back : ReportedAs PaymentStatus.refunded IntentStatus.succeeded
  partly_given_back : ReportedAs PaymentStatus.partially_refunded IntentStatus.succeeded
  not_taken : ReportedAs PaymentStatus.failed IntentStatus.failed
  started : ReportedAs PaymentStatus.initiated IntentStatus.processing
  under_way : ReportedAs PaymentStatus.processing IntentStatus.processing
  given_up : ReportedAs PaymentStatus.cancelled IntentStatus.processing

payment_status_to_intent_status-ReportedAs :
    (s : PaymentStatus) → ReportedAs s (payment_status_to_intent_status s)
unfolding payment_status_to_intent_status
payment_status_to_intent_status-ReportedAs PaymentStatus.settled = taken
payment_status_to_intent_status-ReportedAs PaymentStatus.refunded = given_back
payment_status_to_intent_status-ReportedAs PaymentStatus.partially_refunded = partly_given_back
payment_status_to_intent_status-ReportedAs PaymentStatus.failed = not_taken
payment_status_to_intent_status-ReportedAs PaymentStatus.initiated = started
payment_status_to_intent_status-ReportedAs PaymentStatus.processing = under_way
payment_status_to_intent_status-ReportedAs PaymentStatus.cancelled = given_up

module _ (D : Database) (G : Gateway) (digest : RowId → ℤ → Text → Text) where
  open D use {
    Db, find_invoice, find_payment, payment_by_key, find_settings, update_invoice, update_payment,
    create_payment, find_invoice-update_invoice, find_invoice-update_payment,
    find_invoice-create_payment,
  }

  -- The attempt, once the guards are passed and the quote is made.
  pub attempt_quoted :
      (scope : PublicScope) (method : PaymentMethod) (nonce : Text) (w : World Db) (i : Invoice)
      (q : CalculationResult)
      → find_invoice scope.invoice_id w.db ≡ some i
      → method_refused method (find_settings i.brand_id w.db) ≡ false
      → calculate (quote_input i method) ≡ ok q
      → let key = digest scope.invoice_id q.total_minor nonce in
        attempt D G digest scope method nonce w
        ≡ replay_or_start D G digest scope.invoice_id i method q.total_minor key
            (payment_by_key key w.db)
            w
  unfolding attempt quote_attempt
  attempt_quoted scope method nonce w i q found enabled quoted =
      rw
        (fetch_found invoice_not_found (find_invoice scope.invoice_id)
          (quote_attempt D G digest scope method nonce) w found)
        (rw (enabled, quoted) refl)

  -- A replay: an attempt whose idempotency key is recorded makes no change at all, and reports how the
  -- recorded payment stands, with its decline reason and no token, and the invoice's status as it is now.
  pub create_intent_replay :
      (scope : PublicScope) (method : PaymentMethod) (nonce : Text) (w : World Db) (i : Invoice)
      (q : CalculationResult) (k : RowId) (p : Payment)
      → find_invoice scope.invoice_id w.db ≡ some i
      → method_refused method (find_settings i.brand_id w.db) ≡ false
      → calculate (quote_input i method) ≡ ok q
      → payment_by_key (digest scope.invoice_id q.total_minor nonce) w.db ≡ some (k, p)
      → (s : IntentStatus) × ReportedAs p.status s
        × (create_intent D G digest scope method nonce w ≡ (
          ok (record {
            gateway_status = s;
            invoice_status = i.status;
            decline_reason = p.decline_reason;
            client_token = none;
          }),
          w,
        ))
  unfolding create_intent replay_or_start respond
  create_intent_replay scope method nonce w i q k p found enabled quoted known = (
    payment_status_to_intent_status p.status,
    payment_status_to_intent_status-ReportedAs p.status,
    scope_returned (attempt D G digest scope method nonce) (respond D G digest) w w
          {a = replay D G digest i p}
          (rw (attempt_quoted scope method nonce w i q found enabled quoted, known) refl)
        ∙ (λ t. (ok (replay D G digest i p).result, record w { jobs = append-nil w.jobs t })),
  )

  -- The database when an attempt calls the gateway, and when it is handed to the settlement.
  abbrev pub opened :
      RowId → Invoice → PaymentMethod → ℤ → Text → InvoiceStatus → World Db → World Db
  opened id i method charge key to w = record w {
    db =
        update_invoice id (begin_attempt to i.status)
          (create_payment (new_payment id i method charge key) w.db).1;
  }

  abbrev pub begun :
      RowId
      → Invoice
      → PaymentMethod
      → ℤ
      → Text
      → InvoiceStatus
      → PaymentIntent
      → World Db
      → World Db
  begun id i method charge key to intent w = record w {
    db =
        update_payment (create_payment (new_payment id i method charge key) w.db).0
          (set_reference intent.gateway_reference) (opened id i method charge key to w).db;
  }

  -- A gateway that fails to start an attempt: the request is refused, and no row is changed, neither
  -- the payment's nor the invoice's status.
  pub create_intent_not_started :
      (scope : PublicScope) (method : PaymentMethod) (nonce : Text) (w : World Db) (i : Invoice)
      (q : CalculationResult)
      → find_invoice scope.invoice_id w.db ≡ some i
      → method_refused method (find_settings i.brand_id w.db) ≡ false
      → calculate (quote_input i method) ≡ ok q
      → payment_by_key (digest scope.invoice_id q.total_minor nonce) w.db ≡ none
      → evaluate_transition initiate_payment (initiate_context i) ≡ ok pending_payment
      → G.create_intent (
          intent_input scope.invoice_id i method q.total_minor
            (digest scope.invoice_id q.total_minor nonce))
        ≡ integration_error
      → create_intent D G digest scope method nonce w ≡ (err not_started, w)
  unfolding create_intent replay_or_start start_attempt
  create_intent_not_started scope method nonce w i q found enabled quoted new permits down =
      scope_threw (attempt D G digest scope method nonce) (respond D G digest) w
        (opened scope.invoice_id i method q.total_minor
          (digest scope.invoice_id q.total_minor nonce) pending_payment w)
        (rw (attempt_quoted scope method nonce w i q found enabled quoted, new, permits, down) refl)

  pub begun-invoice :
      (id : RowId) (i : Invoice) (method : PaymentMethod) (charge : ℤ) (key : Text)
      (to : InvoiceStatus) (intent : PaymentIntent) (w : World Db) (j : RowId)
      → find_invoice j (begun id i method charge key to intent w).db
        ≡ row_after id (begin_attempt to i.status) j (find_invoice j w.db)
  begun-invoice id i method charge key to intent w j =
      find_invoice-update_payment _ j _ _
      ∙ find_invoice-update_invoice id j _ _
      ∙ ap (row_after id (begin_attempt to i.status) j) (find_invoice-create_payment j _ _)

  finish_attempt-world :
      (id : RowId) (i : Invoice) (k : RowId) (intent : PaymentIntent) (w : World Db)
      → (finish_attempt D G digest id i k intent w).1 ≡ w
  unfolding finish_attempt
  finish_attempt-world id i k intent w =
      let result : Invoice → Action (World Db) Outcome =
        λ final. pure (outcome_of D G digest i k intent final) in
      elim (Option-cases (find_invoice id w.db)) [
        | inl gone ↦ ap (λ r. r.1) (fetch_missing invoice_not_found (find_invoice id) result w gone)
        | inr (j, found) ↦
            ap (λ r. r.1) (fetch_found invoice_not_found (find_invoice id) result w found)
      ]

  -- A started attempt, up to the end: it settles what the gateway returned.
  pub start_attempt_lem :
      (id : RowId) (i : Invoice) (method : PaymentMethod) (charge : ℤ) (key : Text)
      (to : InvoiceStatus) (intent : PaymentIntent) (w : World Db)
      → evaluate_transition initiate_payment (initiate_context i) ≡ ok to
      → G.create_intent (intent_input id i method charge key) ≡ replied intent
      → let k = (create_payment (new_payment id i method charge key) w.db).0 in
        (start_attempt D G digest id i method charge key w).1.db
        ≡ (apply_settlement D
            (attempt_settlement id k i to intent)
            (begun id i method charge key to intent w)).1.db
  unfolding start_attempt finish_attempt
  start_attempt_lem id i method charge key to intent w permits reply =
      let k = (create_payment (new_payment id i method charge key) w.db).0 in
      let input = attempt_settlement id k i to intent in
      let v = begun id i method charge key to intent w in
      rw (permits, reply)
        (ap
            (λ r.
              (((λ (u : World Db). let s : Result Failure (Unit {0}) × World Db = (r.0, r.1) in s)
                  >> finish_attempt D G digest id i k intent)
                v).1.db)
            (apply_settlement-pair D input v)
          ∙ ap (λ (u : World Db). u.db) (finish_attempt-world id i k intent _))
