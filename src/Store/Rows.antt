-- ===== src/Store/Rows.antt =====
-- The rows of the customer, invoice, payment, check, event and brand settings tables.
use multi_brand_invoicing.Prelude.{Bool, List, Option, ℕ}
use multi_brand_invoicing.Prelude.Int.{ℤ}
use multi_brand_invoicing.Calculation.{PaymentMethod}
use multi_brand_invoicing.InvoiceStatus.{InvoiceStatus}
use multi_brand_invoicing.Amounts.{StoredCurrency}
use multi_brand_invoicing.Chars.{Chars}

abbrev pub RowId : Type 0
RowId = ℕ

abbrev pub Text : Type 0
Text = ℕ

abbrev pub Instant : Type 0
Instant = ℤ

-- model Customer; the merchant is that of the brand.
pub record Customer : Type 0 where
  pub brand_id : RowId
  pub merchant_id : RowId
  pub email : Option Text

-- model LineItem
pub record LineItem : Type 0 where
  pub quantity : ℤ
  pub unit_price_minor : ℤ
  pub line_total_minor : ℤ
  pub tax_exempt : Bool

-- model Invoice, with the customer's address and the brand's merchant that the queries include.
-- `customer_email` is none where the address is null or empty. Names and notes are left out.
pub record Invoice : Type 0 where
  pub brand_id : RowId
  pub customer_id : RowId
  pub number : Chars
  pub invoice_date : Instant
  pub due_date : Instant
  pub subtotal_minor : ℤ
  pub tax_minor : ℤ
  pub card_fee_minor : ℤ
  pub public_token : Text
  pub public_token_active : Bool
  pub merchant_id : RowId
  pub customer_email : Option Text
  pub status : InvoiceStatus
  pub previous_status : Option InvoiceStatus
  pub currency : StoredCurrency
  pub line_items : List LineItem
  pub tax_rate_bp_applied : ℤ
  pub card_fee_rate_bp_applied : ℤ
  pub total_minor : ℤ
  pub balance_minor : ℤ
  pub zoho_invoice_id : Option Text
  pub first_viewed_at : Option Instant
  pub issued_at : Option Instant
  pub paid_at : Option Instant
  pub cancelled_at : Option Instant

-- packages/shared/src/domain/payment-status.ts: PAYMENT_STATUSES
pub data PaymentStatus : Type 0 where
  initiated processing settled failed refunded partially_refunded cancelled : PaymentStatus

-- model Payment
pub record Payment : Type 0 where
  pub invoice_id : RowId
  pub brand_id : RowId
  pub method : PaymentMethod
  pub amount_minor : ℤ
  pub currency : StoredCurrency
  pub status : PaymentStatus
  pub idempotency_key : Text
  pub gateway_reference : Option Text
  pub last_event_at : Option Instant
  pub decline_reason : Option Text
  pub settled_at : Option Instant

pub data EventType : Type 0 where
  issue payment_settled payment_failed manual_payment_recorded cancel first_view : EventType

-- enum CheckStatus
pub data CheckStatus : Type 0 where
  submitted under_review approved rejected : CheckStatus

-- model CheckSubmission
pub record CheckSubmission : Type 0 where
  pub invoice_id : RowId
  pub brand_id : RowId
  pub check_number : Text
  pub amount_minor : ℤ
  pub status : CheckStatus
  pub reviewed_by : Option RowId
  pub review_note : Option Text
  pub reviewed_at : Option Instant

-- model InvoiceEvent; `actor` is none for the system.
pub record InvoiceEvent : Type 0 where
  pub invoice_id : RowId
  pub event_type : EventType
  pub from_status : InvoiceStatus
  pub to_status : InvoiceStatus
  pub actor : Option RowId

-- model BrandSettings: the numbering of invoices and the payment toggles; looks and texts are
-- left out
pub record BrandSettings : Type 0 where
  pub invoice_prefix : Chars
  pub next_sequence : ℕ
  pub card_enabled : Bool
  pub apple_pay_enabled : Bool
  pub google_pay_enabled : Bool
  pub ach_enabled : Bool
  pub check_enabled : Bool
  pub partial_payment_enabled : Bool
