-- ===== src/Invoices/Creation.antt =====
-- `create` of apps/api/src/invoices/invoices.service.ts. The random public token is an argument, and
-- is taken to be new. The names and notes of the draft are left out.
pub mod Lines
pub mod Numbers
pub mod Created
pub mod Numbered
pub mod Distinct
pub mod Issued
use multi_brand_invoicing.Prelude.{
  Bool, List, Option, all, any, if◌then◌else◌, none, not, some, traverse, true, ◌&&◌, ◌+◌, ◌-◌,
  ◌==◌,
}
use multi_brand_invoicing.Prelude.Int.{leb_ℤ, negsuc, pos, ℤ}
use multi_brand_invoicing.Calculation.{CalculationResult, calculate}
use multi_brand_invoicing.InvoiceStatus.{draft}
use multi_brand_invoicing.Chars.{Chars, same_chars}
use multi_brand_invoicing.Invoices.Drafts.{
  CalcLine, InvoiceDraftInput, calc_line, created_lines, draft_calculation, number_text,
}
use multi_brand_invoicing.Store.{
  Action, BrandSettings, Customer, Database, Invoice, LineItem, RowId, Text, World, change, checked,
  customer_not_found, fetch, line_missing, number_collision, out_of_range, pure, query, raise,
  raise_if, settings_not_found, with_scope, write, ◌>>=◌, ◌>>◌,
}

abbrev pub new_invoice :
    RowId
    → InvoiceDraftInput
    → Customer
    → CalculationResult
    → List LineItem
    → Chars
    → Text
    → Invoice
new_invoice brand_id input customer result items number token = record {
  brand_id = brand_id;
  customer_id = input.customer_id;
  number = number;
  invoice_date = input.invoice_date;
  due_date = input.due_date;
  subtotal_minor = result.subtotal_minor;
  tax_minor = result.tax_minor;
  card_fee_minor = pos 0;
  public_token = token;
  public_token_active = true;
  merchant_id = customer.merchant_id;
  customer_email = customer.email;
  status = draft;
  previous_status = none;
  currency = some input.currency;
  line_items = items;
  tax_rate_bp_applied = result.tax_rate_bp_applied;
  card_fee_rate_bp_applied = result.card_fee_rate_bp_applied;
  total_minor = result.total_minor;
  balance_minor = result.total_minor;
  zoho_invoice_id = none;
  first_viewed_at = none;
  issued_at = none;
  paid_at = none;
  cancelled_at = none;
}

-- A number that a column of the type Int holds: 32 bits with a sign.
abbrev pub fits_int : ℤ → Bool
fits_int n = leb_ℤ (negsuc 2_147_483_647) n && leb_ℤ n (pos 2_147_483_647)

-- The Int columns that the insertion writes. Amounts stand in columns of 64 bits, which hold every safe
-- integer.
unfoldable pub fits_columns : Invoice → Bool
fits_columns i =
    fits_int i.tax_rate_bp_applied
    && fits_int i.card_fee_rate_bp_applied
    && all (λ (l : LineItem). fits_int l.quantity) i.line_items

abbrev pub customer_of_brand : RowId → Option Customer → Option Customer
customer_of_brand brand_id none = none
customer_of_brand brand_id (some c) = if c.brand_id == brand_id then some c else none

-- `nextSequence: { increment: 1 }`
abbrev pub take_number : BrandSettings → BrandSettings
take_number s = record s { next_sequence = s.next_sequence + 1 }

-- A missing line is the error of a broken `calculate`.
abbrev pub lines_present : {S : Type 0} → Option (List LineItem) → Action S (List LineItem)
lines_present none = raise line_missing
lines_present (some items) = pure items

module _ (D : Database) where
  open D use {Db, find_customer, find_settings, invoice_numbers, update_settings, create_invoice}

  -- The unique index on the numbers is asked first; the lines are inserted after their invoice. Either
  -- error is thrown, and the second is none that the `catch` turns into a conflict.
  unfoldable pub insert_invoice :
      RowId
      → InvoiceDraftInput
      → Customer
      → CalculationResult
      → List LineItem
      → Chars
      → Text
      → Action (World Db) (RowId × Invoice)
  unfolding fits_columns
  insert_invoice brand_id input customer result items number token = do
    numbers ← query (invoice_numbers brand_id)
    raise_if (any (same_chars number) numbers) number_collision
    raise_if (not (fits_columns (new_invoice brand_id input customer result items number token)))
        out_of_range
    id ← write (create_invoice (new_invoice brand_id input customer result items number token))
    pure (id, new_invoice brand_id input customer result items number token)

  -- From the row that the sequence update returns on.
  unfoldable pub number_invoice :
      RowId
      → InvoiceDraftInput
      → Text
      → Customer
      → List CalcLine
      → CalculationResult
      → BrandSettings
      → Action (World Db) (RowId × Invoice)
  unfolding insert_invoice created_lines
  number_invoice brand_id input token customer lines result settings = do
    items ← lines_present (created_lines lines result.lines)
    insert_invoice brand_id input customer result items
        (number_text settings.invoice_prefix (settings.next_sequence - 1)) token

  -- The body from the calculation on.
  unfoldable pub create_calculated :
      RowId
      → InvoiceDraftInput
      → Text
      → Customer
      → List CalcLine
      → CalculationResult
      → Action (World Db) (RowId × Invoice)
  unfolding number_invoice
  create_calculated brand_id input token customer lines result = do
    change (update_settings brand_id take_number)
    settings ← fetch settings_not_found (find_settings brand_id)
    number_invoice brand_id input token customer lines result settings

  unfoldable pub create_for :
      RowId → InvoiceDraftInput → Text → Customer → Action (World Db) (RowId × Invoice)
  unfolding create_calculated calc_line
  create_for brand_id input token customer = do
    lines ← checked (traverse (calc_line input.currency) input.lines)
    result ← checked (calculate (draft_calculation input lines))
    create_calculated brand_id input token customer lines result

  unfoldable pub create_in : RowId → InvoiceDraftInput → Text → Action (World Db) (RowId × Invoice)
  create_in brand_id input token = do
    customer ←
        fetch customer_not_found
          (λ d. customer_of_brand brand_id (find_customer input.customer_id d))
    create_for brand_id input token customer

  unfoldable pub create : RowId → InvoiceDraftInput → Text → Action (World Db) (RowId × Invoice)
  create brand_id input token = with_scope (create_in brand_id input token)
