-- ===== src/Tests/Creation.antt =====
-- The creation of an invoice.
use multi_brand_invoicing.Invoices.Creation.Numbered.{
  IsDraftOf, create_outcome, create_stuck, next_number,
}
use multi_brand_invoicing.Invoices.{issue}
use multi_brand_invoicing.Prelude.{
  List, [], any, arith, err, false, none, ok, refl, some, traverse, true, ◌∷◌, ◌≡◌, ◌≢◌,
}
use multi_brand_invoicing.Prelude.Int.{pos, ◌*ℤ◌, ◌+ℤ◌, ◌-ℤ◌}
use multi_brand_invoicing.Prelude.Double.{int, js_add, js_sub}
use multi_brand_invoicing.Money.{
  apply_basis_points, assert_basis_points, assert_minor, divide_round_half_up, round_positive,
  to_safe_number,
}
use multi_brand_invoicing.Chars.{
  match_decimal, pad_end, pad_start, same_chars, to_string, trim, value_of, without,
}
use multi_brand_invoicing.Amounts.{minor_of, parse_minor, quantity_from, usd}
use multi_brand_invoicing.Calculation.{
  CalculationResult, assert_quantity, calculate, calculate_line, calculate_line_total, card_fee,
  incurs_card_fee, sum, sum_from,
}
use multi_brand_invoicing.InvoiceStatus.{InvoiceStatus, sent}
use multi_brand_invoicing.Invoices.Drafts.{
  CalcLine, InvoiceDraftInput, calc_line, draft_calculation, number_text,
}
use multi_brand_invoicing.Invoices.Creation.{create}
use multi_brand_invoicing.Invoices.Creation.Created.{Reads}
use multi_brand_invoicing.Invoices.Creation.Issued.{create-issue}
use multi_brand_invoicing.Invoices.Creation.Distinct.{IsNumbered, create-IsNumbered}
use multi_brand_invoicing.Store.{Database, Invoice, RowId, number_collision, zoho_push_invoice}
use multi_brand_invoicing.Store.Memory.{memory}
use multi_brand_invoicing.Tests.Data.{order, pending, regular, shop, ten_dollars, toggles}

abbrev plain_draft : InvoiceDraftInput
plain_draft = record {
  customer_id = 6;
  invoice_date = pos 10;
  due_date = pos 20;
  currency = usd;
  lines = record { quantity = b'1' ∷ []; unit_price = ten_dollars; tax_exempt = true } ∷ [];
  tax_rate_bp = int (pos 800);
  card_fee_rate_bp = int (pos 300);
}

abbrev plain_lines : List CalcLine
plain_lines = record { quantity = pos 10_000; unit_price_minor = pos 1_000; tax_exempt = true } ∷ []

abbrev plain_result : CalculationResult
plain_result = record {
  lines = record { line_total_minor = pos 1_000; tax_exempt = true } ∷ [];
  subtotal_minor = pos 1_000;
  taxable_base_minor = pos 0;
  tax_rate_bp_applied = pos 800;
  tax_minor = pos 0;
  pre_fee_total_minor = pos 1_000;
  card_fee_rate_bp_applied = pos 300;
  card_fee_minor = pos 0;
  card_fee_applied = false;
  total_minor = pos 1_000;
  settled_minor = pos 0;
  balance_minor = pos 1_000;
}

plain_read : traverse (calc_line usd) plain_draft.lines ≡ ok plain_lines
unfolding calc_line quantity_from parse_minor trim without match_decimal value_of pad_end
    to_safe_number minor_of
plain_read = refl

plain_figures : calculate (draft_calculation plain_draft plain_lines) ≡ ok plain_result
unfolding calculate calculate_line calculate_line_total assert_quantity assert_minor
    assert_basis_points divide_round_half_up round_positive sum sum_from apply_basis_points
    to_safe_number card_fee incurs_card_fee ◌*ℤ◌ ◌+ℤ◌ ◌-ℤ◌ js_add js_sub
plain_figures = refl

plain-Reads : Reads memory 3 plain_draft (shop pending).db regular plain_lines plain_result
plain-Reads = record { customer = refl; own = refl; read = plain_read; figures = plain_figures }

not_taken : any (same_chars (next_number toggles)) (pending.number ∷ []) ≡ false
unfolding number_text pad_start to_string
not_taken = refl

create_outcome_example :
    let run = create memory 3 plain_draft 31 (shop pending) in
    (id : RowId) × (i : Invoice) × (run.0 ≡ ok (id, i))
    × IsDraftOf 3 plain_draft regular plain_lines plain_result (next_number toggles) 31 i
    × (Database.find_invoice memory id run.1.db ≡ some i)
    × (Database.find_settings memory 3 run.1.db ≡ some (record toggles { next_sequence = 3 }))
    × (Database.invoice_numbers memory 3 run.1.db ≡ next_number toggles ∷ pending.number ∷ [])
    × (run.1.jobs ≡ [])
create_outcome_example =
    create_outcome memory 3 plain_draft 31 toggles regular plain_lines plain_result (shop pending)
      plain-Reads refl not_taken refl

first_number : pending.number ≡ number_text (b'A' ∷ []) 1
unfolding number_text pad_start to_string
first_number = refl

create-IsNumbered_example :
    ((create memory 3 plain_draft 31 (shop pending)).0 ≢ err number_collision)
    × IsNumbered memory 3 (create memory 3 plain_draft 31 (shop pending)).1.db
create-IsNumbered_example =
    create-IsNumbered memory 3 plain_draft 31 (shop pending)
      (toggles, refl, ((b'A' ∷ [], 1, first_number, omega arith), refl, tt))

-- The shop with an invoice that came with the number A-0002.
abbrev imported : Invoice
imported = record (order InvoiceStatus.sent none) {
  number = b'A' ∷ b'-' ∷ b'0' ∷ b'0' ∷ b'0' ∷ b'2' ∷ [];
}

taken_already : any (same_chars (next_number toggles)) (imported.number ∷ []) ≡ true
unfolding number_text pad_start to_string
taken_already = refl

imported-Reads : Reads memory 3 plain_draft (shop imported).db regular plain_lines plain_result
imported-Reads = record { customer = refl; own = refl; read = plain_read; figures = plain_figures }

create_stuck_example :
    create memory 3 plain_draft 31 (shop imported) ≡ (err number_collision, shop imported)
create_stuck_example =
    create_stuck memory 3 plain_draft 31 toggles regular plain_lines plain_result (shop imported)
      imported-Reads refl taken_already

create-issue_example :
    (id : RowId) × (i : Invoice) × ((create memory 3 plain_draft 31 (shop pending)).0 ≡ ok (id, i))
    × (let run =
          issue memory 3 id (pos 600) (some 8) (create memory 3 plain_draft 31 (shop pending)).1 in
        (run.0 ≡ ok (record i { status = sent; issued_at = some (pos 600) }))
        × (memory.find_invoice id run.1.db
            ≡ some (record i { status = sent; issued_at = some (pos 600) }))
        × (run.1.jobs ≡ zoho_push_invoice 3 id ∷ []))
create-issue_example =
    create-issue memory 3 plain_draft 31 toggles regular plain_lines plain_result 1_000 9 (pos 600)
      (some 8) (shop pending) plain-Reads refl not_taken refl (omega arith) refl (omega arith) refl
