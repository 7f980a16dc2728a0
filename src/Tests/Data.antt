-- ===== src/Tests/Data.antt =====
-- A small shop: one brand with one invoice and one payment, and a gateway of fixed replies.
use multi_brand_invoicing.Prelude.{
  Bool, List, Option, [], false, none, some, true, ℕ, ◌+◌, ◌==◌, ◌∷◌,
}
use multi_brand_invoicing.Prelude.Int.{pos, ℤ}
use multi_brand_invoicing.Prelude.Double.{int}
use multi_brand_invoicing.Calculation.{
  CalculationInput, CalculationLineResult, CalculationResult, ach, card,
}
use multi_brand_invoicing.InvoiceStatus.{InvoiceStatus, pending_payment, viewed}
use multi_brand_invoicing.Amounts.{usd}
use multi_brand_invoicing.Store.{
  BrandSettings, CheckStatus, CheckSubmission, Customer, Invoice, LineItem, Payment, PaymentStatus,
  RowId, Text, World,
}
use multi_brand_invoicing.Store.Memory.{Tables}
use multi_brand_invoicing.Tenancy.{PublicScope}
use multi_brand_invoicing.Payments.Types.{
  Gateway, GatewayEventType, IntentStatus, PaymentIntent, Reply, WebhookEvent,
}
use multi_brand_invoicing.Chars.{Chars}
use multi_brand_invoicing.Roles.{merchant_owner}
use multi_brand_invoicing.Auth.{AuthState, User, active}
use multi_brand_invoicing.Auth.Service.{LoginAttempt}
use multi_brand_invoicing.Payments.Settle.{SettlementInput}

abbrev pub regular : Customer
regular = record { brand_id = 3; merchant_id = 2; email = some 9 }

abbrev pub shirt : LineItem
shirt = record {
  quantity = pos 10_000;
  unit_price_minor = pos 2_500;
  line_total_minor = pos 2_500;
  tax_exempt = true;
}

abbrev pub order : InvoiceStatus → Option InvoiceStatus → Invoice
order current previous = record {
  brand_id = 3;
  customer_id = 6;
  number = b'A' ∷ b'-' ∷ b'0' ∷ b'0' ∷ b'0' ∷ b'1' ∷ [];
  invoice_date = pos 0;
  due_date = pos 0;
  subtotal_minor = pos 2_500;
  tax_minor = pos 0;
  card_fee_minor = pos 0;
  public_token = 30;
  public_token_active = true;
  merchant_id = 2;
  customer_email = some 9;
  status = current;
  previous_status = previous;
  currency = some usd;
  line_items = shirt ∷ [];
  tax_rate_bp_applied = pos 800;
  card_fee_rate_bp_applied = pos 300;
  total_minor = pos 2_500;
  balance_minor = pos 2_500;
  zoho_invoice_id = none;
  first_viewed_at = none;
  issued_at = none;
  paid_at = none;
  cancelled_at = none;
}

abbrev pub transfer : PaymentStatus → Payment
transfer current = record {
  invoice_id = 1;
  brand_id = 3;
  method = ach;
  amount_minor = pos 2_500;
  currency = some usd;
  status = current;
  idempotency_key = 50;
  gateway_reference = some 70;
  last_event_at = none;
  decline_reason = none;
  settled_at = none;
}

abbrev pub toggles : BrandSettings
toggles = record {
  invoice_prefix = b'A' ∷ [];
  next_sequence = 2;
  card_enabled = true;
  apple_pay_enabled = false;
  google_pay_enabled = false;
  ach_enabled = true;
  check_enabled = false;
  partial_payment_enabled = false;
}

abbrev pub shop : Invoice → World Tables
shop i = record {
  db = record {
    invoices = (1, i) ∷ [];
    payments = (5, transfer PaymentStatus.processing) ∷ [];
    log = [];
    settings = (3, toggles) ∷ [];
    submissions = [];
    customers = (6, regular) ∷ [];
  };
  jobs = [];
}

abbrev pub pending : Invoice
pending = order pending_payment (some viewed)

abbrev pub success : WebhookEvent
success = record {
  event_type = GatewayEventType.payment_succeeded;
  gateway_reference = 70;
  occurred_at = pos 1_000;
  decline_reason = none;
  account_ref = none;
}

abbrev pub intent : IntentStatus → PaymentIntent
intent s = record {
  gateway_reference = 71;
  status = s;
  client_token = none;
  occurred_at = pos 900;
  decline_reason = some 4;
}

-- A gateway that replies `reply`, and takes request 1 as signed.
abbrev pub gateway : Reply → Gateway
gateway reply = record {
  create_intent = λ _. reply;
  retrieve = λ _ _. reply;
  verify_signature = λ request _. request == 1;
  parse_webhook = λ _ _. success;
  resolve_brand_id = none;
}

abbrev pub digest : RowId → ℤ → Text → Text
digest id charge nonce = nonce

abbrev pub visitor : PublicScope
visitor = record { merchant_id = 2; brand_id = 3; invoice_id = 1; source_ip = none }

abbrev pub settlement : IntentStatus → InvoiceStatus → SettlementInput
settlement s current = record {
  invoice_id = 1;
  payment_id = 5;
  invoice_total_minor = pos 2_500;
  invoice_status_before_attempt = viewed;
  current_invoice_status = current;
  gateway_status = s;
  occurred_at = pos 1_000;
  decline_reason = some 4;
}

-- Two items of 12.50 and one exempt item of 10.00, at 8% tax and a 3% card fee.
abbrev pub basket : CalculationInput
basket = record {
  lines =
      record { quantity = int (pos 20_000); unit_price_minor = int (pos 1_250); tax_exempt = none }
      ∷ record {
        quantity = int (pos 10_000);
        unit_price_minor = int (pos 1_000);
        tax_exempt = some true;
      }
      ∷ [];
  tax_rate_bp = int (pos 800);
  card_fee_rate_bp = int (pos 300);
  payment_method = card;
  settled_minor = none;
}

-- What the basket costs, with the card fee and without.
abbrev pub basket_lines : List CalculationLineResult
basket_lines =
    record { line_total_minor = pos 2_500; tax_exempt = false }
    ∷ record { line_total_minor = pos 1_000; tax_exempt = true }
    ∷ []

abbrev pub basket_total : Bool → ℕ → CalculationResult
basket_total applied fee = record {
  lines = basket_lines;
  subtotal_minor = pos 3_500;
  taxable_base_minor = pos 2_500;
  tax_rate_bp_applied = pos 800;
  tax_minor = pos 200;
  pre_fee_total_minor = pos 3_700;
  card_fee_rate_bp_applied = pos 300;
  card_fee_minor = pos fee;
  card_fee_applied = applied;
  total_minor = pos (3_700 + fee);
  settled_minor = pos 0;
  balance_minor = pos (3_700 + fee);
}

abbrev pub order_quote : CalculationResult
order_quote = record {
  lines = record { line_total_minor = pos 2_500; tax_exempt = true } ∷ [];
  subtotal_minor = pos 2_500;
  taxable_base_minor = pos 0;
  tax_rate_bp_applied = pos 800;
  tax_minor = pos 0;
  pre_fee_total_minor = pos 2_500;
  card_fee_rate_bp_applied = pos 300;
  card_fee_minor = pos 0;
  card_fee_applied = false;
  total_minor = pos 2_500;
  settled_minor = pos 0;
  balance_minor = pos 2_500;
}

-- The shop with a check of 10.00 for the invoice, and texts of amounts.
abbrev pub claimed : CheckStatus → CheckSubmission
claimed current = record {
  invoice_id = 1;
  brand_id = 3;
  check_number = 44;
  amount_minor = pos 1_000;
  status = current;
  reviewed_by = none;
  review_note = none;
  reviewed_at = none;
}

abbrev pub shop_with_check : CheckStatus → World Tables
shop_with_check current = record {
  db = record {
    invoices = (1, order viewed none) ∷ [];
    payments = [];
    log = [];
    settings = (3, toggles) ∷ [];
    submissions = (9, claimed current) ∷ [];
    customers = (6, regular) ∷ [];
  };
  jobs = [];
}

abbrev pub ten_dollars : Chars
ten_dollars = b'1' ∷ b'0' ∷ b'.' ∷ b'0' ∷ b'0' ∷ []

-- An owner with the password 77, one session and one link, whose digests are the tokens themselves.
abbrev pub owner : User
owner = record {
  id = 4;
  merchant_id = 2;
  email = 90;
  password_hash = 77;
  role = merchant_owner;
  status = active;
  failed_logins = 0;
  locked_until = none;
  last_login_at = none;
}

abbrev pub accounts : AuthState
accounts = record {
  users = owner ∷ [];
  sessions = [];
  reset_tokens =
      record { user_id = 4; token_hash = 60; expires_at = pos 5_000; used_at = none } ∷ [];
  audit_log = [];
  assignments = [];
  next_session_id = 1;
  next_user_id = 5;
  mails = [];
}

abbrev pub digest_of : Text → Text
digest_of t = t

abbrev pub same_text : Text → Text → Bool
same_text a b = a == b

abbrev pub sign_in : LoginAttempt
sign_in = record { email = 90; password = 77 }
