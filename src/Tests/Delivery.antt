-- ===== src/Tests/Delivery.antt =====
-- Payment attempts and webhooks in the shop.
use multi_brand_invoicing.Payments.Attempts.{
  ReportedAs, create_intent_not_started, create_intent_replay,
}
use multi_brand_invoicing.Prelude.{
  Bool-cases, arith, err, inl, inr, none, ok, refl, some, ◌==◌, ◌≡◌,
}
use multi_brand_invoicing.Prelude.Int.{pos, ◌*ℤ◌, ◌+ℤ◌, ◌-ℤ◌}
use multi_brand_invoicing.Prelude.Double.{js_add, js_sub}
use multi_brand_invoicing.Calculation.{
  ach, assert_quantity, calculate, calculate_line, calculate_line_total, card_fee, incurs_card_fee,
  sum, sum_from,
}
use multi_brand_invoicing.InvoiceStatus.{
  allowed, decide_transition, evaluate_transition, pending_payment, viewed,
}
use multi_brand_invoicing.Store.{Payment, PaymentStatus, RowId, not_started}
use multi_brand_invoicing.Store.Memory.{memory}
use multi_brand_invoicing.Money.{
  apply_basis_points, assert_basis_points, assert_minor, divide_round_half_up, round_positive,
  to_safe_number,
}
use multi_brand_invoicing.Payments.Types.{
  IntentStatus, integration_error, is_method_enabled, quote_input, replied,
}
use multi_brand_invoicing.Payments.Settle.{
  apply_settlement, mark_settled, settle_as, settle_invoice,
}
use multi_brand_invoicing.Payments.Attempt.{create_intent, start_attempt}
use multi_brand_invoicing.Payments.Webhook.{apply_event, deliver_event, handle_webhook}
use multi_brand_invoicing.Payments.Sound.{IsSound, IsSoundRow}
use multi_brand_invoicing.Payments.Delivery.{apply_event_twice}
use multi_brand_invoicing.Payments.SoundDelivery.{handle_webhook-IsSound}
use multi_brand_invoicing.Payments.Retry.{create_intent-IsSound, start_attempt_declined_retry}
use multi_brand_invoicing.Tests.Data.{
  digest, gateway, intent, order_quote, pending, shop, success, transfer, visitor,
}

pending-IsSound : IsSound pending
pending-IsSound = record {
  cleared = inl (ground arith);
  returns = inr (viewed, refl, inr (inl refl));
}

shop-IsSound : (j : RowId) → IsSoundRow (memory.find_invoice j (shop pending).db)
shop-IsSound j = elim (Bool-cases (1 == j)) [ inl e ↦ rw e pending-IsSound | inr e ↦ rw e tt ]

handle_webhook-IsSound_example : IsSoundRow (
    memory.find_invoice 1
      (handle_webhook memory (gateway integration_error) 1 (some 3) (shop pending)).1.db)
handle_webhook-IsSound_example =
    handle_webhook-IsSound memory (gateway integration_error) 1 (some 3) (shop pending) shop-IsSound
      1

create_intent-IsSound_example : IsSoundRow (
    memory.find_invoice 1
      (create_intent memory
        (gateway (replied (intent IntentStatus.failed)))
        digest
        visitor
        ach
        60
        (shop pending)).1.db)
create_intent-IsSound_example =
    create_intent-IsSound memory (gateway (replied (intent IntentStatus.failed))) digest visitor ach
      60 (shop pending) shop-IsSound 1

abbrev settled_transfer : Payment
settled_transfer = mark_settled (pos 1_000) (transfer PaymentStatus.processing)

apply_event_twice_example :
    apply_event memory
      (gateway integration_error)
      (some 3)
      success
      5
      settled_transfer
      pending
      (shop pending)
    ≡ (ok tt, shop pending)
unfolding apply_event deliver_event apply_settlement settle_as settle_invoice evaluate_transition
    decide_transition allowed
apply_event_twice_example =
    apply_event_twice memory (gateway integration_error) (some 3) success 5
      (transfer PaymentStatus.processing) settled_transfer pending pending (shop pending)
      (shop pending) refl refl

order_quoted : calculate (quote_input pending ach) ≡ ok order_quote
unfolding calculate calculate_line calculate_line_total assert_quantity assert_minor
    assert_basis_points divide_round_half_up round_positive sum sum_from apply_basis_points
    to_safe_number card_fee incurs_card_fee ◌*ℤ◌ ◌+ℤ◌ ◌-ℤ◌ js_add js_sub
order_quoted = refl

create_intent_replay_example :
    (s : IntentStatus) × ReportedAs PaymentStatus.processing s
    × (create_intent memory (gateway integration_error) digest visitor ach 50 (shop pending) ≡ (
      ok (record {
        gateway_status = s;
        invoice_status = pending_payment;
        decline_reason = none;
        client_token = none;
      }),
      shop pending,
    ))
unfolding is_method_enabled
create_intent_replay_example =
    create_intent_replay memory (gateway integration_error) digest visitor ach 50 (shop pending)
      pending order_quote 5 (transfer PaymentStatus.processing) refl refl order_quoted refl

create_intent_not_started_example :
    create_intent memory (gateway integration_error) digest visitor ach 60 (shop pending)
    ≡ (err not_started, shop pending)
unfolding is_method_enabled evaluate_transition decide_transition allowed
create_intent_not_started_example =
    create_intent_not_started memory (gateway integration_error) digest visitor ach 60
      (shop pending) pending order_quote refl refl order_quoted refl refl refl

start_attempt_declined_retry_example :
    memory.find_invoice 1
      (start_attempt memory
        (gateway (replied (intent IntentStatus.failed)))
        digest
        1
        pending
        ach
        (pos 2_500)
        60
        (shop pending)).1.db
    ≡ some (record pending { previous_status = some pending_payment })
start_attempt_declined_retry_example =
    start_attempt_declined_retry memory (gateway (replied (intent IntentStatus.failed))) digest 1
      pending ach (pos 2_500) 60 (intent IntentStatus.failed) (shop pending) refl refl (omega arith)
      refl refl
