-- ===== src/Tests/Settlement.antt =====
-- Settlements of the shop's invoice.
use multi_brand_invoicing.Prelude.Int.{pos}
use multi_brand_invoicing.Prelude.{arith, inl, none, refl, some, ◌≡◌}
use multi_brand_invoicing.InvoiceStatus.{paid, pending_payment, viewed}
use multi_brand_invoicing.Store.{PaymentStatus}
use multi_brand_invoicing.Store.Memory.{memory}
use multi_brand_invoicing.Payments.Types.{IntentStatus}
use multi_brand_invoicing.Payments.Settle.{apply_settlement}
use multi_brand_invoicing.Payments.Outcomes.{apply_settlement_decline, apply_settlement_success}
use multi_brand_invoicing.Tests.Data.{pending, settlement, shop, transfer}

apply_settlement_success_example :
    (memory.find_invoice 1
        (apply_settlement memory
          (settlement IntentStatus.succeeded pending_payment)
          (shop pending)).1.db
      ≡ some (record pending {
        status = paid;
        balance_minor = pos 0;
        paid_at = some (pos 1_000);
        previous_status = none;
      }))
    × (memory.find_payment 5
          (apply_settlement memory
            (settlement IntentStatus.succeeded pending_payment)
            (shop pending)).1.db
        ≡ some (record (transfer PaymentStatus.processing) {
          status = PaymentStatus.settled;
          settled_at = some (pos 1_000);
          last_event_at = some (pos 1_000);
        }))
apply_settlement_success_example =
    apply_settlement_success memory (settlement IntentStatus.succeeded pending_payment)
      (shop pending) pending (transfer PaymentStatus.processing) refl (inl refl) refl refl

apply_settlement_decline_example :
    (memory.find_invoice 1
        (apply_settlement memory
          (settlement IntentStatus.failed pending_payment)
          (shop pending)).1.db
      ≡ some (record pending { status = viewed; previous_status = none }))
    × (memory.find_payment 5
          (apply_settlement memory
            (settlement IntentStatus.failed pending_payment)
            (shop pending)).1.db
        ≡ some (record (transfer PaymentStatus.processing) {
          status = PaymentStatus.failed;
          decline_reason = some 4;
          last_event_at = some (pos 1_000);
        }))
apply_settlement_decline_example =
    apply_settlement_decline memory (settlement IntentStatus.failed pending_payment) (shop pending)
      pending (transfer PaymentStatus.processing) refl refl (ground arith) refl refl
