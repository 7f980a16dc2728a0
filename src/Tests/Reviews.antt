-- ===== src/Tests/Reviews.antt =====
-- Manual payments and reviews of checks in the shop.
use multi_brand_invoicing.Store.{
  CheckStatus, Invoice, PaymentStatus, RowId, submitted, zoho_push_payment,
}
use multi_brand_invoicing.InvoiceStatus.{partially_paid, viewed}
use multi_brand_invoicing.Prelude.{[], arith, inl, inr, none, ok, refl, some, ◌∷◌, ◌≡◌}
use multi_brand_invoicing.Prelude.Int.{pos}
use multi_brand_invoicing.Calculation.{check}
use multi_brand_invoicing.Invoices.{record_manual_payment}
use multi_brand_invoicing.Invoices.Outcomes.{record_manual_payment_outcome}
use multi_brand_invoicing.Checks.{approve}
use multi_brand_invoicing.Checks.Approval.{Covers, approve_lem}
use multi_brand_invoicing.Money.{to_safe_number}
use multi_brand_invoicing.Chars.{match_decimal, pad_end, trim, value_of, without}
use multi_brand_invoicing.Amounts.{minor_of, parse_minor, to_currency_code, usd}
use multi_brand_invoicing.Store.Memory.{memory}
use multi_brand_invoicing.Tests.Data.{claimed, order, shop, shop_with_check, ten_dollars}

ten_dollars_read : parse_minor ten_dollars usd ≡ ok (pos 1_000)
unfolding parse_minor trim without match_decimal value_of pad_end to_safe_number minor_of
ten_dollars_read = refl

record_manual_payment_outcome_example :
    let j : Invoice = record (order viewed none) {
      status = partially_paid;
      balance_minor = pos 1_500;
      previous_status = none;
      paid_at = none;
    } in
    let run =
      record_manual_payment memory 3 1 check ten_dollars 51
        (pos 600)
        (some 8)
        (shop (order viewed none)) in
    (run.0 ≡ ok j)
    × (memory.find_invoice 1 run.1.db ≡ some j)
    × ((k : RowId) × (memory.find_payment k (shop (order viewed none)).db ≡ none)
        × (memory.find_payment k run.1.db
            ≡ some (record {
              invoice_id = 1;
              brand_id = 3;
              method = check;
              amount_minor = pos 1_000;
              currency = some usd;
              status = PaymentStatus.settled;
              idempotency_key = 51;
              gateway_reference = none;
              last_event_at = none;
              decline_reason = none;
              settled_at = some (pos 600);
            }))
        × (run.1.jobs ≡ zoho_push_payment 3 k ∷ []))
unfolding to_currency_code
record_manual_payment_outcome_example =
    record_manual_payment_outcome memory 3 1 check ten_dollars 51 (pos 600) (some 8)
      (shop (order viewed none)) (order viewed none) 2_500 2_500 1_000 refl refl ten_dollars_read
      (inr (inl refl)) refl refl (omega arith) (omega arith) (omega arith) (omega arith)

covered : Covers (claimed submitted) (order viewed none) 2_500 2_500 1_000
covered = record {
  amount = refl;
  total = refl;
  balance = refl;
  open_status = inr (inl refl);
  some_amount = omega arith;
  within = omega arith;
  owed = omega arith;
  safe = omega arith;
}

approve_lem_example :
    let run = approve memory 3 9 (some 12) 52 (pos 700) (some 8) (shop_with_check submitted) in
    (run.0 ≡ ok tt)
    × (memory.find_invoice 1 run.1.db
        ≡ some (record (order viewed none) {
          status = partially_paid;
          balance_minor = pos 1_500;
          previous_status = none;
          paid_at = none;
        }))
    × (memory.find_submission 9 run.1.db
        ≡ some (record (claimed submitted) {
          status = CheckStatus.approved;
          reviewed_by = some 8;
          review_note = some 12;
          reviewed_at = some (pos 700);
        }))
approve_lem_example =
    approve_lem memory 3 9 (pos 700) (claimed submitted) (order viewed none) 2_500 2_500 1_000
      (some 12) 52 8 (shop_with_check submitted) refl refl refl refl refl covered
