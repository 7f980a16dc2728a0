-- ===== src/Payments/Delivery.antt =====
-- Webhook deliveries (`handleWebhook`): what is refused, what is dropped, and what is applied.
use multi_brand_invoicing.Prelude.{
  Bool-cases, Option, ap, arith, err, false, inl, inr, none, ok, refl, some, subst, true, ◌++◌, ◌≡◌,
  ◌⊎◌,
}
use multi_brand_invoicing.Prelude.Int.{◌≤ℤ◌}
use multi_brand_invoicing.Store.{
  Database, Instant, Invoice, Payment, RowId, Text, World, enqueue_all, invalid_signature,
  with_scope, ◌>>=◌,
}
use multi_brand_invoicing.Payments.Types.{
  Gateway, GatewayEventType, IntentStatus, WebhookEvent, intent_status_of, is_other_brand, is_stale,
  is_unknown,
}
use multi_brand_invoicing.Payments.Settle.{SettlementInput, apply_settlement}
use multi_brand_invoicing.Payments.Effect.{
  apply_settlement-pair, apply_settlement-rows, payment_after, payment_after_as,
}
use multi_brand_invoicing.Payments.Webhook.{
  apply_event, deliver_event, handle_webhook, push_jobs, webhook_settlement,
}

-- Why an event is dropped once its payment is found.
abbrev pub IsDropped : Option RowId → WebhookEvent → Payment → Type 0
IsDropped brand_id event payment =
    (is_other_brand brand_id payment.brand_id ≡ true)
    ⊎ (event.event_type ≡ GatewayEventType.unknown)
    ⊎ ((last : Instant) × (payment.last_event_at ≡ some last) × (event.occurred_at ≤ℤ last))

module _ (D : Database) (G : Gateway) where
  open D use {Db, find_invoice, find_payment}

  -- An event from another brand, of a type that is not modelled, or no newer than the last one that
  -- was applied to its payment, changes no row and enqueues no job.
  pub apply_event_dropped :
      (brand_id : Option RowId) (event : WebhookEvent) (k : RowId) (p : Payment) (i : Invoice)
      (w : World Db)
      → IsDropped brand_id event p
      → apply_event D G brand_id event k p i w ≡ (ok tt, w)
  unfolding apply_event
  apply_event_dropped brand_id event k p i w (inl other_brand) = rw other_brand
  apply_event_dropped brand_id event k p i w (inr (inl not_modelled)) =
      elim (Bool-cases (is_other_brand brand_id p.brand_id)) [
        | inl e ↦ rw e
        | inr e ↦ rw (e, not_modelled)
      ]
  apply_event_dropped brand_id event k p i w (inr (inr (last, e, le))) =
      let stale : is_stale p.last_event_at event.occurred_at ≡ true = rw e (ground arith) in
      elim (Bool-cases (is_other_brand brand_id p.brand_id)) [
        | inl other_brand ↦ rw other_brand
        | inr same ↦ rw same (elim (Bool-cases (is_unknown event.event_type)) [
          | inl u ↦ rw u
          | inr m ↦ rw (m, stale)
        ])
      ]

  -- A request whose signature is not verified is refused, and changes nothing.
  pub handle_webhook_unsigned :
      (request : Text) (brand_id : Option RowId) (w : World Db)
      → G.verify_signature request brand_id ≡ false
      → handle_webhook D G request brand_id w ≡ (err invalid_signature, w)
  unfolding handle_webhook
  handle_webhook_unsigned request brand_id w h = rw h

  -- A delivery leaves its settlement's database, and enqueues a push if the event reports a success.
  pub deliver_event_lem :
      (event : WebhookEvent) (k : RowId) (p : Payment) (i : Invoice) (w : World Db)
      → deliver_event D G event k p i w ≡ (
        ok tt,
        record {
          db = (apply_settlement D (webhook_settlement k p i event) w).1.db;
          jobs = w.jobs ++ push_jobs (intent_status_of event.event_type) i.brand_id k;
        },
      )
  unfolding deliver_event
  deliver_event_lem event k p i w =
      ap
        (λ r.
          ((with_scope {Db = Db} (λ _. r))
              >>= (λ _. enqueue_all (push_jobs (intent_status_of event.event_type) i.brand_id k)))
            w)
        (apply_settlement-pair D (webhook_settlement k p i event) w)

  dropped_if_stale :
      (last : Option Instant) (at : Instant)
      → is_stale last at ≡ true
      → (t : Instant) × (last ≡ some t) × (at ≤ℤ t)
  dropped_if_stale none at h = cc
  dropped_if_stale (some t) at h = (t, refl, ground arith)

  dropped_if_unknown : (t : GatewayEventType) → is_unknown t ≡ true → t ≡ GatewayEventType.unknown
  dropped_if_unknown t h = ground arith

  -- An event is dropped or delivered.
  pub apply_event_cases :
      (brand_id : Option RowId) (event : WebhookEvent) (k : RowId) (p : Payment) (i : Invoice)
      (w : World Db)
      → IsDropped brand_id event p
        ⊎ (apply_event D G brand_id event k p i w ≡ deliver_event D G event k p i w)
  unfolding apply_event
  apply_event_cases brand_id event k p i w =
      elim (Bool-cases (is_other_brand brand_id p.brand_id)) [
        | inl other_brand ↦ inl (inl other_brand)
        | inr same ↦ elim (Bool-cases (is_unknown event.event_type)) [
          | inl u ↦ inl (inr (inl (dropped_if_unknown event.event_type u)))
          | inr m ↦ elim (Bool-cases (is_stale p.last_event_at event.occurred_at)) [
            | inl s ↦ inl (inr (inr (dropped_if_stale p.last_event_at event.occurred_at s)))
            | inr fresh ↦ inr (rw (same, m, fresh))
          ]
        ]
      ]

  payment_after-last_event_at :
      (s : IntentStatus) (input : SettlementInput) (p : Payment)
      → (payment_after_as s input p).last_event_at ≡ some input.occurred_at
  unfolding payment_after_as
  payment_after-last_event_at IntentStatus.succeeded input p = refl
  payment_after-last_event_at IntentStatus.failed input p = refl
  payment_after-last_event_at _ input p = refl

  -- The payment's row after a delivery.
  deliver_event-payment :
      (event : WebhookEvent) (k : RowId) (p : Payment) (i : Invoice) (w : World Db)
      → find_payment k w.db ≡ some p
      → find_payment k (deliver_event D G event k p i w).1.db
        ≡ some (payment_after (webhook_settlement k p i event) p)
  deliver_event-payment event k p i w h =
      rw (deliver_event_lem event k p i w)
        (ground (arith, (apply_settlement-rows D (webhook_settlement k p i event) w k).1))

  -- A second delivery of an event, after the first was handled, changes nothing, in whatever state the
  -- rest of the database then is: it is dropped for the reason of the first, or as no newer.
  pub apply_event_twice :
      (brand_id : Option RowId) (event : WebhookEvent) (k : RowId) (p p' : Payment) (i i' : Invoice)
      (w w' : World Db)
      → find_payment k w.db ≡ some p
      → find_payment k (apply_event D G brand_id event k p i w).1.db ≡ some p'
      → apply_event D G brand_id event k p' i' w' ≡ (ok tt, w')
  apply_event_twice brand_id event k p p' i i' w w' h h' =
      elim (apply_event_cases brand_id event k p i w) [
        | inl d ↦
            let kept : find_payment k w.db ≡ some p' =
              rw (apply_event_dropped brand_id event k p i w d) at h' in
            let same : p ≡ p' = cc in
            apply_event_dropped brand_id event k p' i' w' (subst (IsDropped brand_id event) same d)
        | inr e ↦
            let after : find_payment k (deliver_event D G event k p i w).1.db ≡ some p' =
              rw e at h' in
            let input = webhook_settlement k p i event in
            let same : payment_after input p ≡ p' = cc (deliver_event-payment event k p i w h) in
            let last : p'.last_event_at ≡ some event.occurred_at =
              rw (← same) (payment_after-last_event_at input.gateway_status input p) in
            apply_event_dropped brand_id event k p' i' w'
              (inr (inr (event.occurred_at, last, omega arith)))
      ]
