-- ===== src/Public.antt =====
-- apps/api/src/public/public-invoices.service.ts: the payment page of a link, and the check that a
-- customer submits on it. The clock and the random identifier are arguments; the texts of the
-- page, its colours and its logo are left out.
pub mod Views
pub mod Paid
use multi_brand_invoicing.Store.{
  Action, BrandSettings, CheckStatus, CheckSubmission, Database, EventType, Instant, Invoice,
  LineItem, RowId, Text, World, already_paid, change, check_not_enabled, fetch, invoice_not_found,
  pure, query, raise_if, storage_fault, with_scope, write, ◌>>=◌, ◌>>◌,
}
use multi_brand_invoicing.Prelude.{
  Bool, List, Option, err, false, if◌then◌else◌, length, none, not, ok, some, true, ◌&&◌, ◌==◌,
}
use multi_brand_invoicing.Prelude.Int.{leb_ℤ, pos, ℤ}
use multi_brand_invoicing.InvoiceStatus.{
  InvoiceStatus, InvoiceTransition, TransitionContext, evaluate_transition, sent,
}
use multi_brand_invoicing.Amounts.{StoredCurrency}
use multi_brand_invoicing.Chars.{Chars}
use multi_brand_invoicing.Tenancy.{PublicScope}
use multi_brand_invoicing.Invoices.{log_entry, same_status}
use multi_brand_invoicing.Payments.Types.{is_some}

-- resolveScope; the source address is none there.
abbrev pub scope_of_invoice : Option (RowId × Invoice) → Option PublicScope
scope_of_invoice none = none
scope_of_invoice (some (id, i)) =
    if i.public_token_active
    then some (record {
      merchant_id = i.merchant_id;
      brand_id = i.brand_id;
      invoice_id = id;
      source_ip = none;
    })
    else none

-- `enabledMethods`
pub record EnabledMethods : Type 0 where
  pub card : Bool
  pub apple_pay : Bool
  pub google_pay : Bool
  pub ach : Bool
  pub check : Bool

-- A brand without a settings row offers nothing, and cards need a connected account too.
unfoldable pub enabled_methods : Option BrandSettings → Option Text → EnabledMethods
enabled_methods none account = record {
  card = false;
  apple_pay = false;
  google_pay = false;
  ach = false;
  check = false;
}
enabled_methods (some s) account = record {
  card = s.card_enabled && is_some account;
  apple_pay = s.apple_pay_enabled;
  google_pay = s.google_pay_enabled;
  ach = s.ach_enabled;
  check = s.check_enabled;
}

-- `partialPaymentEnabled ?? false`
abbrev pub offers_partial : Option BrandSettings → Bool
offers_partial none = false
offers_partial (some s) = s.partial_payment_enabled

-- PublicInvoiceView, its figures and its methods.
pub record PublicInvoiceView : Type 0 where
  pub number : Chars
  pub status : InvoiceStatus
  pub currency : StoredCurrency
  pub invoice_date : Instant
  pub due_date : Instant
  pub total_minor : ℤ
  pub balance_minor : ℤ
  pub lines : List LineItem
  pub subtotal_minor : ℤ
  pub tax_minor : ℤ
  pub card_fee_rate_bp : ℤ
  pub partial_payment_enabled : Bool
  pub enabled_methods : EnabledMethods
  pub stripe_account_id : Option Text

abbrev pub page_of :
    Invoice → InvoiceStatus → Option BrandSettings → Option Text → PublicInvoiceView
page_of i effective_status settings account = record {
  number = i.number;
  status = effective_status;
  currency = i.currency;
  invoice_date = i.invoice_date;
  due_date = i.due_date;
  total_minor = i.total_minor;
  balance_minor = i.balance_minor;
  lines = i.line_items;
  subtotal_minor = i.subtotal_minor;
  tax_minor = i.tax_minor;
  card_fee_rate_bp = i.card_fee_rate_bp_applied;
  partial_payment_enabled = offers_partial settings;
  enabled_methods = enabled_methods settings account;
  stripe_account_id = account;
}

abbrev pub view_context : Invoice → TransitionContext
view_context i = record {
  status = sent;
  previous_status = none;
  line_item_count = length i.line_items;
  total_minor = i.total_minor;
  balance_minor = i.balance_minor;
  settled_minor = pos 0;
  customer_has_deliverable_email = true;
}

abbrev pub mark_viewed : InvoiceStatus → Instant → Invoice → Invoice
mark_viewed to now i = record i { status = to; first_viewed_at = some now }

-- An invoice from Zoho whose lines were not fetched yet.
abbrev pub lacks_lines : Invoice → Bool
lacks_lines i = is_some i.zoho_invoice_id && length i.line_items == 0

pub data CheckSide : Type 0 where
  front back : CheckSide

abbrev pub new_submission : RowId → PublicScope → Text → Invoice → CheckSubmission
new_submission invoice_id scope check_number i = record {
  invoice_id = invoice_id;
  brand_id = scope.brand_id;
  check_number = check_number;
  amount_minor = i.balance_minor;
  status = CheckStatus.submitted;
  reviewed_by = none;
  review_note = none;
  reviewed_at = none;
}

-- `!settings?.checkEnabled`, negated
abbrev pub takes_checks : Option BrandSettings → Bool
takes_checks none = false
takes_checks (some s) = s.check_enabled

module _ (D : Database) where
  open D use {
    Db, find_invoice, find_settings, invoice_by_token, update_invoice, create_event,
    create_submission,
  }

  unfoldable pub resolve_scope : Text → Db → Option PublicScope
  resolve_scope token d = scope_of_invoice (invoice_by_token token d)

  -- The first view, and the status that the page shows.
  unfoldable pub record_view : RowId → Instant → Invoice → Action (World Db) InvoiceStatus
  record_view id now i = elim (same_status i.status sent) [
    | false ↦ pure i.status
    | true ↦ elim (evaluate_transition InvoiceTransition.first_view (view_context i)) [
      | err code ↦ pure i.status
      | ok to ↦ do
        change (update_invoice id (mark_viewed to now))
        change (create_event (log_entry id EventType.first_view i to none))
        pure to
    ]
  ]

  -- The accounts of Stripe and the fetching of lines from Zoho are parameters: `enrich` answers whether
  -- it changed the invoice, with the database after it.
  module _ (stripe_account : RowId → Option Text) (enrich : RowId → RowId → Db → Bool × Db) where
    -- `enriched ? (await loadInvoice()) ?? invoice : invoice`
    abbrev pub reloaded : Bool → Option Invoice → Invoice → Invoice
    reloaded true (some again) i = again
    reloaded _ _ i = i

    unfoldable pub with_lines : PublicScope → Invoice → Action (World Db) Invoice
    with_lines scope i =
        if lacks_lines i
        then (do
          enriched ← write (enrich scope.brand_id scope.invoice_id)
          again ← query (find_invoice scope.invoice_id)
          pure (reloaded enriched again i))
        else pure i

    unfoldable pub show_page :
        PublicScope → Instant → Invoice → Action (World Db) (Option PublicInvoiceView)
    unfolding record_view enabled_methods
    show_page scope now i = do
      effective_status ← record_view scope.invoice_id now i
      settings ← query (find_settings i.brand_id)
      pure (some (page_of i effective_status settings (stripe_account i.brand_id)))

    -- `if (!invoice) return null`
    abbrev pub view_loaded :
        PublicScope → Instant → Option Invoice → Action (World Db) (Option PublicInvoiceView)
    view_loaded scope now none = pure none
    view_loaded scope now (some i) = with_lines scope i >>= show_page scope now

    unfoldable pub view : PublicScope → Instant → Action (World Db) (Option PublicInvoiceView)
    unfolding with_lines show_page
    view scope now = with_scope (query (find_invoice scope.invoice_id) >>= view_loaded scope now)

  -- `put` tells whether an image is stored under its key.
  module _ (put : RowId → RowId → CheckSide → Bool) where
    unfoldable pub submit_open : PublicScope → Text → RowId → Invoice → Action (World Db) RowId
    submit_open scope check_number id i = do
      settings ← query (find_settings scope.brand_id)
      raise_if (not (takes_checks settings)) check_not_enabled
      raise_if (leb_ℤ i.balance_minor (pos 0)) already_paid
      raise_if (not (put scope.brand_id id front && put scope.brand_id id back)) storage_fault
      change (create_submission id (new_submission scope.invoice_id scope check_number i))
      pure id

    unfoldable pub submit_check : PublicScope → Text → RowId → Action (World Db) RowId
    unfolding submit_open
    submit_check scope check_number id = with_scope (do
      i ← fetch invoice_not_found (find_invoice scope.invoice_id)
      submit_open scope check_number id i)
