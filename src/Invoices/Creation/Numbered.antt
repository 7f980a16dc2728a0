-- ===== src/Invoices/Creation/Numbered.antt =====
-- The numbers of a brand's invoices under `create`.
use multi_brand_invoicing.Prelude.{
  ==_refl, Bool, List, Result, all, any, ap, arith, err, false, none, not, ok, refl, some, true, ℕ,
  ◌&&◌, ◌+◌, ◌-◌, ◌∙◌, ◌∷◌, ◌≡◌,
}
use multi_brand_invoicing.Chars.{Chars, same_chars}
use multi_brand_invoicing.Prelude.Int.{pos}
use multi_brand_invoicing.InvoiceStatus.{draft}
use multi_brand_invoicing.Calculation.{CalculationResult}
use multi_brand_invoicing.Invoices.Drafts.{CalcLine, InvoiceDraftInput, created_lines, number_text}
use multi_brand_invoicing.Invoices.Creation.{
  create, create_calculated, create_in, fits_columns, fits_int, insert_invoice, new_invoice,
  number_invoice, take_number,
}
use multi_brand_invoicing.Invoices.Creation.Lines.{AreLines, AreLines-fits_int, created_lines-some}
use multi_brand_invoicing.Invoices.Creation.Created.{Reads, create_in-Reads, returned_scope}
use multi_brand_invoicing.Store.{
  BrandSettings, Customer, Database, Failure, Invoice, LineItem, RowId, Text, World, fetch_found,
  number_collision, out_of_range, pure, raise_if, settings_not_found, with_scope, write, ◌>>=◌,
  ◌>>◌,
}

-- The number that the next invoice is given.
abbrev pub next_number : BrandSettings → Chars
next_number s = number_text s.invoice_prefix s.next_sequence

-- A calculated draft whose quantities and rates fit the database's integers of 32 bits.
abbrev pub is_storable : List CalcLine → CalculationResult → Bool
is_storable lines r =
    fits_int r.tax_rate_bp_applied
    && fits_int r.card_fee_rate_bp_applied
    && all (λ (l : CalcLine). fits_int l.quantity) lines

-- A draft of the brand with the figures of a calculation.
pub record IsDraftOf (brand_id : RowId) (input : InvoiceDraftInput) (c : Customer)
    (lines : List CalcLine) (r : CalculationResult) (number : Chars) (token : Text) (i : Invoice)
    : Type 0 where
  pub brand : i.brand_id ≡ brand_id
  pub merchant : i.merchant_id ≡ c.merchant_id
  pub customer : i.customer_id ≡ input.customer_id
  pub address : i.customer_email ≡ c.email
  pub number_given : i.number ≡ number
  pub dates : (i.invoice_date ≡ input.invoice_date) × (i.due_date ≡ input.due_date)
  pub currency : i.currency ≡ some input.currency
  pub items : AreLines lines r.lines i.line_items
  pub subtotal : i.subtotal_minor ≡ r.subtotal_minor
  pub tax : i.tax_minor ≡ r.tax_minor
  pub rates :
      (i.tax_rate_bp_applied ≡ r.tax_rate_bp_applied)
      × (i.card_fee_rate_bp_applied ≡ r.card_fee_rate_bp_applied)
  pub fee : i.card_fee_minor ≡ pos 0
  pub total : i.total_minor ≡ r.total_minor
  pub balance : i.balance_minor ≡ r.total_minor
  pub status : (i.status ≡ draft) × (i.previous_status ≡ none)
  pub link : (i.public_token ≡ token) × (i.public_token_active ≡ true)
  pub times :
      (i.first_viewed_at ≡ none)
      × (i.issued_at ≡ none)
      × (i.paid_at ≡ none)
      × (i.cancelled_at ≡ none)
  pub unsynced : i.zoho_invoice_id ≡ none

sequence_before : (n : ℕ) → n + 1 - 1 ≡ n
sequence_before n = omega arith

module _ (D : Database) (brand_id : RowId) (input : InvoiceDraftInput) (token : Text) where
  open D use {
    Db, find_settings, invoice_numbers, update_settings, create_invoice,
    find_settings-update_settings, find_settings-create_invoice, invoice_numbers-update_settings,
    invoice_numbers-create_invoice, find_invoice-create_invoice, find_invoice,
  }

  numbered :
      (s : BrandSettings) (d : Db)
      → find_settings brand_id d ≡ some s
      → find_settings brand_id (update_settings brand_id take_number d) ≡ some (take_number s)
  numbered s d h = ground (arith, find_settings-update_settings brand_id brand_id take_number d, h)

  module _ (s : BrandSettings) (c : Customer) (lines : List CalcLine) (r : CalculationResult)
      (items : List LineItem) (w : World Db) (settings : find_settings brand_id w.db ≡ some s)
      (given : created_lines lines r.lines ≡ some items) where
    -- The world after the number is taken.
    abbrev taken : World Db
    taken = record w { db = update_settings brand_id take_number w.db }

    abbrev pub created_invoice : Invoice
    created_invoice = new_invoice brand_id input c r items (next_number s) token

    create_calculated-insert_invoice :
        create_calculated D brand_id input token c lines r w
        ≡ insert_invoice D brand_id input c r items (next_number s) token taken
    unfolding create_calculated number_invoice
    create_calculated-insert_invoice =
        fetch_found settings_not_found (find_settings brand_id)
          (number_invoice D brand_id input token c lines r) taken (numbered s w.db settings)
        ∙ rw (given, sequence_before s.next_sequence) refl

    abbrev pub written : World Db
    written = record w { db = (create_invoice created_invoice taken.db).1 }

    -- The insertion, from whether the number is taken and whether the columns fit.
    abbrev after_check : Bool → Bool → Result Failure (RowId × Invoice) × World Db
    after_check found fits =
        (raise_if found number_collision
            >> (raise_if (not fits) out_of_range
                >> (write (create_invoice created_invoice) >>= λ id. pure (id, created_invoice))))
          taken

    kept : invoice_numbers brand_id taken.db ≡ invoice_numbers brand_id w.db
    kept = invoice_numbers-update_settings brand_id brand_id take_number w.db

    insert_checked :
        (found fits : Bool)
        → any (same_chars (next_number s)) (invoice_numbers brand_id w.db) ≡ found
        → fits_columns created_invoice ≡ fits
        → insert_invoice D brand_id input c r items (next_number s) token taken
          ≡ after_check found fits
    unfolding insert_invoice
    insert_checked found fits h k =
        ap (λ b. after_check b (fits_columns created_invoice))
          (ap (any (same_chars (next_number s))) kept ∙ h)
        ∙ ap (after_check found) k

    -- What the body does, from the same two answers.
    create_in_checked :
        (found fits : Bool)
        → Reads D brand_id input w.db c lines r
        → AreLines lines r.lines items
        → any (same_chars (next_number s)) (invoice_numbers brand_id w.db) ≡ found
        → is_storable lines r ≡ fits
        → create_in D brand_id input token w ≡ after_check found fits
    unfolding fits_columns
    create_in_checked found fits h are taken_before storable =
        create_in-Reads D brand_id input token c lines r w h
        ∙ create_calculated-insert_invoice
        ∙ insert_checked found fits taken_before
            (rw (AreLines-fits_int lines r.lines items are) storable)

  -- A draft that reads and fits the database's integers, in a brand whose next number no invoice has:
  -- the call returns a DRAFT with the figures of the calculation and that number, the invoice is found
  -- under its identifier, the sequence stands one further, and the brand's numbers are the old ones and
  -- the new one.
  pub create_outcome :
      (s : BrandSettings) (c : Customer) (lines : List CalcLine) (r : CalculationResult)
      (w : World Db)
      → Reads D brand_id input w.db c lines r
      → find_settings brand_id w.db ≡ some s
      → any (same_chars (next_number s)) (invoice_numbers brand_id w.db) ≡ false
      → is_storable lines r ≡ true
      → let run = create D brand_id input token w in
        (id : RowId) × (i : Invoice) × (run.0 ≡ ok (id, i))
        × IsDraftOf brand_id input c lines r (next_number s) token i
        × (find_invoice id run.1.db ≡ some i)
        × (find_settings brand_id run.1.db
            ≡ some (record s { next_sequence = s.next_sequence + 1 }))
        × (invoice_numbers brand_id run.1.db ≡ next_number s ∷ invoice_numbers brand_id w.db)
        × (run.1.jobs ≡ w.jobs)
  create_outcome s c lines r w h settings free storable =
      let (items, given, are) = created_lines-some input lines r h.figures in
      let i = created_invoice s c lines r items w settings given in
      let d = update_settings brand_id take_number w.db in
      let made = create_invoice i d in
      let body =
        create_in_checked s c lines r items w settings given false true h are free storable in
      rw (returned_scope D brand_id input token (made.0, i) w _ body) (
        made.0,
        i,
        refl,
        record {
          brand = refl;
          merchant = refl;
          customer = refl;
          address = refl;
          number_given = refl;
          dates = (refl, refl);
          currency = refl;
          items = are;
          subtotal = refl;
          tax = refl;
          rates = (refl, refl);
          fee = refl;
          total = refl;
          balance = refl;
          status = (refl, refl);
          link = (refl, refl);
          times = (refl, refl, refl, refl);
          unsynced = refl;
        },
        find_invoice-create_invoice i d,
        find_settings-create_invoice brand_id i d ∙ numbered s w.db settings,
        ground (
          arith,
          invoice_numbers-create_invoice brand_id i d,
          ==_refl brand_id,
          invoice_numbers-update_settings brand_id brand_id take_number w.db,
        ),
        refl,
      )

  -- A draft that reads, in a brand whose next number some invoice has already: the call throws, and
  -- takes back the sequence with everything else, so that it throws again whenever it is repeated.
  pub create_stuck :
      (s : BrandSettings) (c : Customer) (lines : List CalcLine) (r : CalculationResult)
      (w : World Db)
      → Reads D brand_id input w.db c lines r
      → find_settings brand_id w.db ≡ some s
      → any (same_chars (next_number s)) (invoice_numbers brand_id w.db) ≡ true
      → create D brand_id input token w ≡ (err number_collision, w)
  unfolding create
  create_stuck s c lines r w h settings full =
      let (items, given, are) = created_lines-some input lines r h.figures in
      ap (λ t. with_scope (λ v. t) w)
        (create_in_checked s c lines r items w settings given true (is_storable lines r) h are full
          refl)

  -- A quantity or a rate that the database's integers do not hold: the call throws and changes nothing.
  pub create_unstorable :
      (s : BrandSettings) (c : Customer) (lines : List CalcLine) (r : CalculationResult)
      (w : World Db)
      → Reads D brand_id input w.db c lines r
      → find_settings brand_id w.db ≡ some s
      → any (same_chars (next_number s)) (invoice_numbers brand_id w.db) ≡ false
      → is_storable lines r ≡ false
      → create D brand_id input token w ≡ (err out_of_range, w)
  unfolding create
  create_unstorable s c lines r w h settings free unfit =
      let (items, given, are) = created_lines-some input lines r h.figures in
      ap (λ t. with_scope (λ v. t) w)
        (create_in_checked s c lines r items w settings given false false h are free unfit)
