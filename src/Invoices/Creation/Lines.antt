-- ===== src/Invoices/Creation/Lines.antt =====
-- The lines of a created invoice: one for each line that was computed.
use multi_brand_invoicing.Prelude.{
  List, [], all, arith, length, map, ok, refl, some, traverse, ◌∷◌, ◌≡◌,
}
use multi_brand_invoicing.Calculation.{
  CalculationLineResult, CalculationResult, calculate, calculate_line,
}
use multi_brand_invoicing.Calculation.Figures.{calculate-HasSteps}
use multi_brand_invoicing.Invoices.Drafts.{
  CalcLine, InvoiceDraftInput, calculation_line, created_lines, draft_calculation,
}
use multi_brand_invoicing.Invoices.Creation.{fits_int}
use multi_brand_invoicing.Store.{LineItem}

-- Each line of the invoice is one of the draft's, with the total that was computed for it.
abbrev pub AreLines : List CalcLine → List CalculationLineResult → List LineItem → Type 0
AreLines [] [] [] = Unit
AreLines (l ∷ lines) (r ∷ results) (i ∷ items) =
    (i.quantity ≡ l.quantity)
    × (i.unit_price_minor ≡ l.unit_price_minor)
    × (i.line_total_minor ≡ r.line_total_minor)
    × (i.tax_exempt ≡ l.tax_exempt)
    × AreLines lines results items
AreLines _ _ _ = ⊥

one_each :
    (lines : List CalcLine) (results : List CalculationLineResult)
    → traverse calculate_line (map calculation_line lines) ≡ ok results
    → (items : List LineItem) × (created_lines lines results ≡ some items)
      × AreLines lines results items
unfolding created_lines
one_each [] [] h = ([], refl, tt)
one_each [] (r ∷ results) h = ground arith
one_each (l ∷ lines) [] h = ground arith
one_each (l ∷ lines) (r ∷ results) h =
    let (rest, e, are) = one_each lines results (ground arith) in
    (
      record {
        quantity = l.quantity;
        unit_price_minor = l.unit_price_minor;
        line_total_minor = r.line_total_minor;
        tax_exempt = l.tax_exempt;
      }
          ∷ rest,
      rw e refl,
      (refl, refl, refl, refl, are),
    )

pub created_lines-some :
    (input : InvoiceDraftInput) (lines : List CalcLine) (r : CalculationResult)
    → calculate (draft_calculation input lines) ≡ ok r
    → (items : List LineItem) × (created_lines lines r.lines ≡ some items)
      × AreLines lines r.lines items
created_lines-some input lines r h =
    one_each lines r.lines (calculate-HasSteps (draft_calculation input lines) r h).lines

pub AreLines-length :
    (lines : List CalcLine) (results : List CalculationLineResult) (items : List LineItem)
    → AreLines lines results items
    → length items ≡ length lines
AreLines-length [] [] [] h = refl
AreLines-length (l ∷ lines) (r ∷ results) (i ∷ items) (_, _, _, _, h) =
    omega (arith, AreLines-length lines results items h)
AreLines-length [] [] (i ∷ items) h = elim h [ ]
AreLines-length [] (r ∷ results) items h = elim h [ ]
AreLines-length (l ∷ lines) [] items h = elim h [ ]
AreLines-length (l ∷ lines) (r ∷ results) [] h = elim h [ ]

pub AreLines-fits_int :
    (lines : List CalcLine) (results : List CalculationLineResult) (items : List LineItem)
    → AreLines lines results items
    → all (λ (i : LineItem). fits_int i.quantity) items
      ≡ all (λ (l : CalcLine). fits_int l.quantity) lines
AreLines-fits_int [] [] [] h = refl
AreLines-fits_int (l ∷ lines) (r ∷ results) (i ∷ items) (e, _, _, _, h) =
    rw (e, AreLines-fits_int lines results items h) refl
AreLines-fits_int [] [] (i ∷ items) h = elim h [ ]
AreLines-fits_int [] (r ∷ results) items h = elim h [ ]
AreLines-fits_int (l ∷ lines) [] items h = elim h [ ]
AreLines-fits_int (l ∷ lines) (r ∷ results) [] h = elim h [ ]
