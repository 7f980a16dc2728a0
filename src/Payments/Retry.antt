-- ===== src/Payments/Retry.antt =====
-- Attempts on an invoice that is pending already, and the soundness of the rows under attempts.
use multi_brand_invoicing.Prelude.{
  Bool-cases, Option, Option-cases, Result-cases, ap, arith, err, inl, inr, none, ok, refl, some,
  ◌∙◌, ◌≡◌,
}
use multi_brand_invoicing.Prelude.Int.{pos, ℤ, ◌<ℤ◌}
use multi_brand_invoicing.Calculation.{PaymentMethod, calculate}
use multi_brand_invoicing.InvoiceStatus.{
  TransitionResult, evaluate_transition, initiate_payment, pending_payment,
}
use multi_brand_invoicing.InvoiceStatus.Lifecycle.{IsOpen, evaluate_transition_iff}
use multi_brand_invoicing.Store.{
  Database, Invoice, Payment, RowId, Text, World, fetch_found, fetch_missing, invoice_not_found,
  scope_returned, scope_threw,
}
use multi_brand_invoicing.Payments.Types.{
  Gateway, IntentStatus, PaymentIntent, Reply, integration_error, method_refused, other_error,
  quote_input, replied,
}
use multi_brand_invoicing.Payments.Effect.{apply_settlement-rows, invoice_after, invoice_after_as}
use multi_brand_invoicing.Payments.Sound.{apply_settlement-IsSound, row_after-IsSoundRow}
use multi_brand_invoicing.Payments.SoundDelivery.{AllSound}
use multi_brand_invoicing.Payments.Attempt.{
  attempt, attempt_settlement, begin_attempt, create_intent, initiate_context, intent_input,
  new_payment, quote_attempt, replay_or_start, respond, start_attempt,
}
use multi_brand_invoicing.Payments.Attempts.{begun, begun-invoice, opened, start_attempt_lem}
use multi_brand_invoicing.Tenancy.{PublicScope}

initiate_decision :
    (i : Invoice)
    → IsOpen i.status
    → pos 0 <ℤ i.balance_minor
    → evaluate_transition initiate_payment (initiate_context i) ≡ ok pending_payment
initiate_decision i o h =
    (evaluate_transition_iff initiate_payment (initiate_context i) pending_payment).1 (o, h, refl)

-- The row of an invoice whose attempt the gateway declined at once.
declined_row :
    (id k : RowId) (i : Invoice) (intent : PaymentIntent)
    → intent.status ≡ IntentStatus.failed
    → i.status ≡ pending_payment
    → (j : Invoice) → invoice_after (attempt_settlement id k i pending_payment intent) j ≡ j
unfolding invoice_after_as evaluate_transition
declined_row id k i intent s p j = rw (s, p) refl

module _ (D : Database) (G : Gateway) (digest : RowId → ℤ → Text → Text) where
  open D use {Db, find_invoice, create_payment}

  -- A second attempt on an invoice that is pending, declined at once by the gateway: the invoice stays
  -- PENDING_PAYMENT, and the status recorded to return to is now PENDING_PAYMENT itself, whatever was
  -- recorded by the first attempt. The decline reverts nothing.
  pub start_attempt_declined_retry :
      (id : RowId) (i : Invoice) (method : PaymentMethod) (charge : ℤ) (key : Text)
      (intent : PaymentIntent) (w : World Db)
      → find_invoice id w.db ≡ some i
      → i.status ≡ pending_payment
      → pos 0 <ℤ i.balance_minor
      → G.create_intent (intent_input id i method charge key) ≡ replied intent
      → intent.status ≡ IntentStatus.failed
      → find_invoice id (start_attempt D G digest id i method charge key w).1.db
        ≡ some (record i { previous_status = some pending_payment })
  start_attempt_declined_retry id i method charge key intent w found pending owed reply declined =
      let permits = initiate_decision i (inr (inr (inl pending))) owed in
      let k = (create_payment (new_payment id i method charge key) w.db).0 in
      let v = begun D G digest id i method charge key pending_payment intent w in
      let input = attempt_settlement id k i pending_payment intent in
      let rows = (apply_settlement-rows D input v id).0 in
      let before = begun-invoice D G digest id i method charge key pending_payment intent w id in
      rw
        (start_attempt_lem D G digest id i method charge key pending_payment intent w permits reply)
        (ground (
          arith,
          rows,
          before,
          declined_row id k i intent declined pending (begin_attempt pending_payment i.status i),
        ))

  opened-IsSound :
      (id : RowId) (i : Invoice) (method : PaymentMethod) (charge : ℤ) (key : Text) (w : World Db)
      → IsOpen i.status
      → AllSound D G w.db
      → AllSound D G (opened D G digest id i method charge key pending_payment w).db
  opened-IsSound id i method charge key w o h j =
      let p = new_payment id i method charge key in
      rw
        (
          D.find_invoice-update_invoice id j (begin_attempt pending_payment i.status)
              (create_payment p w.db).1,
          D.find_invoice-create_payment j p w.db,
        )
        (row_after-IsSoundRow id j (begin_attempt pending_payment i.status)
          (λ r s. record { cleared = inl (ground arith); returns = inr (i.status, refl, o) })
          (find_invoice j w.db) (h j))

  begun-IsSound :
      (id : RowId) (i : Invoice) (method : PaymentMethod) (charge : ℤ) (key : Text)
      (intent : PaymentIntent) (w : World Db)
      → IsOpen i.status
      → AllSound D G w.db
      → AllSound D G (begun D G digest id i method charge key pending_payment intent w).db
  begun-IsSound id i method charge key intent w o h j =
      rw (D.find_invoice-update_payment _ j _ _) (opened-IsSound id i method charge key w o h j)

  -- What an attempt leaves when the gateway fails, and when it replies.
  start_permitted-IsSound :
      (reply : Reply) (id : RowId) (i : Invoice) (method : PaymentMethod) (charge : ℤ) (key : Text)
      (w : World Db)
      → evaluate_transition initiate_payment (initiate_context i) ≡ ok pending_payment
      → IsOpen i.status
      → G.create_intent (intent_input id i method charge key) ≡ reply
      → AllSound D G w.db
      → AllSound D G (start_attempt D G digest id i method charge key w).1.db
  unfolding start_attempt
  start_permitted-IsSound (replied intent) id i method charge key w permits o e h =
      rw (start_attempt_lem D G digest id i method charge key pending_payment intent w permits e)
        (apply_settlement-IsSound D _ _ (inl o) (begun-IsSound id i method charge key intent w o h))
  start_permitted-IsSound integration_error id i method charge key w permits o e h =
      rw (permits, e) (opened-IsSound id i method charge key w o h)
  start_permitted-IsSound other_error id i method charge key w permits o e h =
      rw (permits, e) (opened-IsSound id i method charge key w o h)

  start_decided-IsSound :
      (r : TransitionResult) (id : RowId) (i : Invoice) (method : PaymentMethod) (charge : ℤ)
      (key : Text) (w : World Db)
      → evaluate_transition initiate_payment (initiate_context i) ≡ r
      → AllSound D G w.db
      → AllSound D G (start_attempt D G digest id i method charge key w).1.db
  unfolding start_attempt
  start_decided-IsSound (err code) id i method charge key w e h = rw e h
  start_decided-IsSound (ok to) id i method charge key w e h =
      let (o, owed, same) =
        (evaluate_transition_iff initiate_payment (initiate_context i) to).0 e in
      start_permitted-IsSound (G.create_intent (intent_input id i method charge key)) id i method
        charge key w (e ∙ ap ok same) o refl h

  replay_or_start-IsSound :
      (known : Option (RowId × Payment)) (id : RowId) (i : Invoice) (method : PaymentMethod)
      (charge : ℤ) (key : Text) (w : World Db)
      → AllSound D G w.db
      → AllSound D G (replay_or_start D G digest id i method charge key known w).1.db
  unfolding replay_or_start
  replay_or_start-IsSound (some (k, p)) id i method charge key w h = h
  replay_or_start-IsSound none id i method charge key w h =
      start_decided-IsSound _ id i method charge key w refl h

  quote_attempt-IsSound :
      (scope : PublicScope) (method : PaymentMethod) (nonce : Text) (i : Invoice) (w : World Db)
      → AllSound D G w.db
      → AllSound D G (quote_attempt D G digest scope method nonce i w).1.db
  unfolding quote_attempt
  quote_attempt-IsSound scope method nonce i w h =
      elim (Bool-cases (method_refused method (D.find_settings i.brand_id w.db))) [
        | inl off ↦ rw off h
        | inr enabled ↦ elim (Result-cases (calculate (quote_input i method))) [
          | inl (q, e) ↦
              rw (enabled, e)
                (replay_or_start-IsSound _ scope.invoice_id i method q.total_minor
                  (digest scope.invoice_id q.total_minor nonce) w h)
          | inr (code, e) ↦ rw (enabled, e) h
        ]
      ]

  attempt-IsSound :
      (scope : PublicScope) (method : PaymentMethod) (nonce : Text) (w : World Db)
      → AllSound D G w.db
      → AllSound D G (attempt D G digest scope method nonce w).1.db
  unfolding attempt
  attempt-IsSound scope method nonce w h =
      let rest = quote_attempt D G digest scope method nonce in
      elim (Option-cases (find_invoice scope.invoice_id w.db)) [
        | inl gone ↦
            rw (fetch_missing invoice_not_found (find_invoice scope.invoice_id) rest w gone) h
        | inr (i, found) ↦
            rw (fetch_found invoice_not_found (find_invoice scope.invoice_id) rest w found)
              (quote_attempt-IsSound scope method nonce i w h)
      ]

  -- Whatever the gateway replies, a payment attempt keeps every invoice row sound, whether it returns
  -- or is taken back: paid means no balance, and the status to return to is an open one.
  pub create_intent-IsSound :
      (scope : PublicScope) (method : PaymentMethod) (nonce : Text) (w : World Db)
      → AllSound D G w.db
      → AllSound D G (create_intent D G digest scope method nonce w).1.db
  unfolding create_intent respond
  create_intent-IsSound scope method nonce w h =
      let work = attempt D G digest scope method nonce in
      let next = respond D G digest in
      elim (Result-cases (work w).0) [
        | inl (outcome, e) ↦
            rw (scope_returned work next w (work w).1 {a = outcome} (λ t. (e t, (work w).1)))
              (attempt-IsSound scope method nonce w h)
        | inr (failure, e) ↦
            rw (scope_threw work next w (work w).1 {e = failure} (λ t. (e t, (work w).1))) h
      ]
