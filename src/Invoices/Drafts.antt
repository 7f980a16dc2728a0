-- ===== src/Invoices/Drafts.antt =====
-- The draft of a new invoice, its lines and its number (`create` of invoices.service.ts).
use multi_brand_invoicing.Prelude.Outcome.{ok, ◌>>=◌}
use multi_brand_invoicing.Prelude.{Bool, List, Option, [], map, none, some, ℕ, ◌++◌, ◌∷◌}
use multi_brand_invoicing.Prelude.Int.{ℤ}
use multi_brand_invoicing.Prelude.Double.{JsNumber, int}
use multi_brand_invoicing.Money.{Checked}
use multi_brand_invoicing.Calculation.{
  CalculationInput, CalculationLineInput, CalculationLineResult, manual,
}
use multi_brand_invoicing.Chars.{Chars, pad_start, to_string}
use multi_brand_invoicing.Amounts.{CurrencyCode, parse_minor, quantity_from}
use multi_brand_invoicing.Store.{Instant, LineItem, RowId}

-- lineItemSchema
pub record LineItemInput : Type 0 where
  pub quantity : Chars
  pub unit_price : Chars
  pub tax_exempt : Bool

-- invoiceDraftSchema
pub record InvoiceDraftInput : Type 0 where
  pub customer_id : RowId
  pub invoice_date : Instant
  pub due_date : Instant
  pub currency : CurrencyCode
  pub lines : List LineItemInput
  pub tax_rate_bp : JsNumber
  pub card_fee_rate_bp : JsNumber

-- A line of `calcLines`.
pub record CalcLine : Type 0 where
  pub quantity : ℤ
  pub unit_price_minor : ℤ
  pub tax_exempt : Bool

unfoldable pub calc_line : CurrencyCode → LineItemInput → Checked CalcLine
calc_line currency line = do
  q ← quantity_from line.quantity
  p ← parse_minor line.unit_price currency
  ok (record { quantity = q; unit_price_minor = p; tax_exempt = line.tax_exempt })

abbrev pub calculation_line : CalcLine → CalculationLineInput
calculation_line l = record {
  quantity = int l.quantity;
  unit_price_minor = int l.unit_price_minor;
  tax_exempt = some l.tax_exempt;
}

abbrev pub draft_calculation : InvoiceDraftInput → List CalcLine → CalculationInput
draft_calculation input lines = record {
  lines = map calculation_line lines;
  tax_rate_bp = input.tax_rate_bp;
  card_fee_rate_bp = input.card_fee_rate_bp;
  payment_method = manual;
  settled_minor = none;
}

-- `${prefix}-${String(sequence).padStart(4, '0')}`
unfoldable pub number_text : Chars → ℕ → Chars
unfolding pad_start to_string
number_text prefix sequence = prefix ++ b'-' ∷ pad_start 4 (to_string sequence)

-- The created lines, in the order of their positions; none where a computed line is missing.
unfoldable pub created_lines : List CalcLine → List CalculationLineResult → Option (List LineItem)
created_lines [] results = some []
created_lines (l ∷ lines) [] = none
created_lines (l ∷ lines) (r ∷ results) = elim (created_lines lines results) [
  | none ↦ none
  | some rest ↦ some (
      record {
        quantity = l.quantity;
        unit_price_minor = l.unit_price_minor;
        line_total_minor = r.line_total_minor;
        tax_exempt = l.tax_exempt;
      }
      ∷ rest)
]
