-- ===== src/Invoices/Creation/Issued.antt =====
-- A created invoice is issued.
use multi_brand_invoicing.Prelude.{
  List, Option, [], any, arith, false, length, ok, refl, some, true, ℕ, ◌++◌, ◌<◌, ◌∷◌, ◌≡◌,
}
use multi_brand_invoicing.Prelude.Int.{pos, ◌<ℤ◌}
use multi_brand_invoicing.Chars.{same_chars}
use multi_brand_invoicing.Calculation.{CalculationResult}
use multi_brand_invoicing.Invoices.{issue}
use multi_brand_invoicing.Payments.Types.{is_some}
use multi_brand_invoicing.Invoices.Creation.Lines.{AreLines-length}
use multi_brand_invoicing.Invoices.Outcomes.{issue_outcome}
use multi_brand_invoicing.Invoices.Drafts.{CalcLine, InvoiceDraftInput}
use multi_brand_invoicing.Invoices.Creation.{create}
use multi_brand_invoicing.Invoices.Creation.Created.{Reads}
use multi_brand_invoicing.Invoices.Creation.Numbered.{create_outcome, is_storable, next_number}
use multi_brand_invoicing.InvoiceStatus.{sent}
use multi_brand_invoicing.Store.{
  BrandSettings, Customer, Database, Instant, Invoice, RowId, Text, World, zoho_push_invoice,
}

module _ (D : Database) (brand_id : RowId) (input : InvoiceDraftInput) (token : Text) where
  open D use {Db, find_invoice, find_settings, invoice_numbers}

  -- A draft that reads and fits the database's integers, in a brand whose next number no invoice has, with
  -- a line, a positive total and a customer with an address: what `create` returns can be issued at any
  -- time. The issue returns it as SENT at that time and otherwise as it was created, the row is so, and
  -- the one new job pushes it.
  pub create-issue :
      (s : BrandSettings) (c : Customer) (lines : List CalcLine) (r : CalculationResult) (t : ℕ)
      (address : Text) (now : Instant) (actor : Option RowId) (w : World Db)
      → Reads D brand_id input w.db c lines r
      → find_settings brand_id w.db ≡ some s
      → any (same_chars (next_number s)) (invoice_numbers brand_id w.db) ≡ false
      → is_storable lines r ≡ true
      → 0 < length lines
      → r.total_minor ≡ pos t
      → 0 < t
      → c.email ≡ some address
      → (id : RowId) × (i : Invoice) × ((create D brand_id input token w).0 ≡ ok (id, i))
        × (let run = issue D brand_id id now actor (create D brand_id input token w).1 in
            (run.0 ≡ ok (record i { status = sent; issued_at = some now }))
            × (find_invoice id run.1.db ≡ some (record i { status = sent; issued_at = some now }))
            × (run.1.jobs ≡ w.jobs ++ zoho_push_invoice brand_id id ∷ []))
  create-issue s c lines r t address now actor w reads settings free storable some_line total
        positive email =
      let (id, i, returned_id, is_draft, found, after, numbers, jobs) =
        create_outcome D brand_id input token s c lines r w reads settings free storable in
      let v = (create D brand_id input token w).1 in
      let count : 0 < length i.line_items =
        omega (arith, AreLines-length lines r.lines i.line_items is_draft.items) in
      let amount : pos 0 <ℤ i.total_minor = rw (is_draft.total, total) (omega arith) in
      let addressed : is_some i.customer_email ≡ true = rw (is_draft.address, email) refl in
      let issued =
        issue_outcome D brand_id id now actor v i found is_draft.brand
          (is_draft.status.0, count, amount, addressed, refl) in
      (id, i, returned_id, (issued.0, issued.1, rw jobs at issued.2))
