-- ===== src/Invoices/Creation/Created.antt =====
-- What `create` leaves: a numbered draft, or everything as it was.
use multi_brand_invoicing.Prelude.{
  ==_refl, List, Option, Option-cases, Result-cases, ap, arith, err, inl, inr, none, ok, refl, some,
  traverse, ◌∙◌, ◌≡◌, ◌≢◌, ◌⊎◌,
}
use multi_brand_invoicing.Calculation.{CalculationResult, calculate}
use multi_brand_invoicing.Invoices.Drafts.{
  CalcLine, InvoiceDraftInput, calc_line, draft_calculation,
}
use multi_brand_invoicing.Invoices.Creation.{
  create, create_calculated, create_for, create_in, customer_of_brand,
}
use multi_brand_invoicing.Store.{
  Customer, Database, Failure, Invoice, RowId, Text, World, checked, customer_not_found,
  fetch_found, fetch_missing, money, number_collision, returned, with_scope, ◌>>=◌,
}

-- A draft that reads: its customer, its lines and its figures.
pub record Reads (D : Database) (brand_id : RowId) (input : InvoiceDraftInput) (d : D.Db)
    (c : Customer) (lines : List CalcLine) (r : CalculationResult) : Type 0 where
  pub customer : D.find_customer input.customer_id d ≡ some c
  pub own : c.brand_id ≡ brand_id
  pub read : traverse (calc_line input.currency) input.lines ≡ ok lines
  pub figures : calculate (draft_calculation input lines) ≡ ok r

customer_of_brand-some :
    (brand_id : RowId) (o : Option Customer) (c : Customer)
    → customer_of_brand brand_id o ≡ some c
    → (o ≡ some c) × (c.brand_id ≡ brand_id)
customer_of_brand-some brand_id none c h = ground arith
customer_of_brand-some brand_id (some x) c h = ground arith

module _ (D : Database) (brand_id : RowId) (input : InvoiceDraftInput) (token : Text) where
  open D use {
    Db, find_customer, find_settings, invoice_numbers, update_settings, create_invoice,
    find_settings-update_settings, find_settings-create_invoice, invoice_numbers-update_settings,
    invoice_numbers-create_invoice, find_invoice-create_invoice, find_invoice,
  }

  customer_found :
      (c : Customer) (d : Db)
      → find_customer input.customer_id d ≡ some c
      → c.brand_id ≡ brand_id
      → customer_of_brand brand_id (find_customer input.customer_id d) ≡ some c
  customer_found c d h own = ground (arith, h, own, ==_refl brand_id)

  create_for_reading :
      (c : Customer) (lines : List CalcLine) (r : CalculationResult) (w : World Db)
      → traverse (calc_line input.currency) input.lines ≡ ok lines
      → calculate (draft_calculation input lines) ≡ ok r
      → create_for D brand_id input token c w ≡ create_calculated D brand_id input token c lines r w
  unfolding create_for
  create_for_reading c lines r w read figures =
      returned (checked (traverse (calc_line input.currency) input.lines))
        (λ lines'. checked (calculate (draft_calculation input lines')) >>= λ r'.
          create_calculated D brand_id input token c lines' r')
        w w (ap (λ z. checked z w) read)
      ∙ returned (checked (calculate (draft_calculation input lines)))
          (λ r'. create_calculated D brand_id input token c lines r') w w {a = r}
          (ap (λ z. checked z w) figures)

  pub create_in-Reads :
      (c : Customer) (lines : List CalcLine) (r : CalculationResult) (w : World Db)
      → Reads D brand_id input w.db c lines r
      → create_in D brand_id input token w ≡ create_calculated D brand_id input token c lines r w
  unfolding create_in
  create_in-Reads c lines r w h =
      fetch_found customer_not_found
        (λ d. customer_of_brand brand_id (find_customer input.customer_id d))
        (create_for D brand_id input token) w (customer_found c w.db h.customer h.own)
      ∙ create_for_reading c lines r w h.read h.figures

  refused_customer :
      (c : Customer) (d : Db)
      → customer_of_brand brand_id (find_customer input.customer_id d) ≡ some c
      → (find_customer input.customer_id d ≡ some c) × (c.brand_id ≡ brand_id)
  refused_customer c d h = customer_of_brand-some brand_id (find_customer input.customer_id d) c h

  threw :
      (e : Failure) (w : World Db)
      → create_in D brand_id input token w ≡ (err e, w)
      → create D brand_id input token w ≡ (err e, w)
  unfolding create
  threw e w h = ap (λ r. with_scope (λ v. r) w) h

  pub returned_scope :
      (a : RowId × Invoice) (w w' : World Db)
      → create_in D brand_id input token w ≡ (ok a, w')
      → create D brand_id input token w ≡ (ok a, w')
  unfolding create
  returned_scope a w w' h = ap (λ r. with_scope (λ v. r) w) h

  -- A draft that does not read changes nothing, and is not refused for its number.
  pub create-Reads_or_keeps :
      (w : World Db)
      → ((e : Failure) × (e ≢ number_collision) × (create D brand_id input token w ≡ (err e, w)))
        ⊎ ((c : Customer) × (lines : List CalcLine) × (r : CalculationResult) × Reads D brand_id
              input w.db c lines r)
  unfolding create_in create_for
  create-Reads_or_keeps w =
      let f : Db → Option Customer =
        λ d. customer_of_brand brand_id (find_customer input.customer_id d) in
      let rest = create_for D brand_id input token in
      elim (Option-cases (f w.db)) [
        | inl e ↦ inl (
          customer_not_found,
          (λ p. cc),
          threw customer_not_found w (fetch_missing customer_not_found f rest w e),
        )
        | inr (c, e) ↦
            let start = fetch_found customer_not_found f rest w e in
            elim (Result-cases (traverse (calc_line input.currency) input.lines)) [
              | inr (bad, p) ↦ inl (money bad, (λ p. cc), threw (money bad) w (start ∙ rw p refl))
              | inl (lines, p) ↦ elim (Result-cases (calculate (draft_calculation input lines))) [
                | inr (bad, q) ↦
                    inl (money bad, (λ p. cc), threw (money bad) w (start ∙ rw (p, q) refl))
                | inl (r, q) ↦
                    let (found, own) = refused_customer c w.db e in
                    inr (c, lines, r, record { customer = found; own = own; read = p; figures = q })
              ]
            ]
      ]
