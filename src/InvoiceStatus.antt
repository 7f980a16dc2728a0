-- ===== src/InvoiceStatus.antt =====
-- packages/shared/src/domain/invoice-status.ts: the invoice state machine. Amounts are integers, a
-- date is its count of milliseconds, and a refusal's message is left out beside its code.
pub mod Lifecycle
use multi_brand_invoicing.Prelude.{
  Bool, Option, Result, err, false, if◌then◌else◌, ltb, none, not, ok, some, true, ℕ, ◌&&◌,
}
use multi_brand_invoicing.Prelude.Int.{eq_ℤ, leb_ℤ, ltb_ℤ, pos, ℤ}
use multi_brand_invoicing.Prelude.Double.{js_sub}

-- INVOICE_STATUSES
pub data InvoiceStatus : Type 0 where
  draft sent viewed pending_payment partially_paid paid cancelled : InvoiceStatus

pub InvoiceStatus-discrete : Discrete InvoiceStatus
InvoiceStatus-discrete = hlevel

-- INVOICE_TRANSITIONS
pub data InvoiceTransition : Type 0 where
  issue first_view initiate_payment settle_partial settle_full payment_failed : InvoiceTransition
  cancel record_payment : InvoiceTransition

-- TERMINAL_STATUSES.has
unfoldable pub is_terminal : InvoiceStatus → Bool
is_terminal paid = true
is_terminal cancelled = true
is_terminal _ = false

-- PAYABLE_STATUSES.has
unfoldable pub is_payable : InvoiceStatus → Bool
is_payable sent = true
is_payable viewed = true
is_payable pending_payment = true
is_payable partially_paid = true
is_payable _ = false

-- ALLOWED[transition].has(status)
unfoldable pub allowed : InvoiceTransition → InvoiceStatus → Bool
allowed issue draft = true
allowed issue _ = false
allowed first_view sent = true
allowed first_view _ = false
allowed initiate_payment sent = true
allowed initiate_payment viewed = true
allowed initiate_payment partially_paid = true
allowed initiate_payment pending_payment = true
allowed initiate_payment _ = false
allowed settle_partial pending_payment = true
allowed settle_partial partially_paid = true
allowed settle_partial _ = false
allowed settle_full pending_payment = true
allowed settle_full partially_paid = true
allowed settle_full _ = false
allowed payment_failed pending_payment = true
allowed payment_failed _ = false
allowed cancel draft = true
allowed cancel sent = true
allowed cancel viewed = true
allowed cancel pending_payment = true
allowed cancel _ = false
allowed record_payment sent = true
allowed record_payment viewed = true
allowed record_payment pending_payment = true
allowed record_payment partially_paid = true
allowed record_payment _ = false

-- `previous_status` is null where it is none.
pub record TransitionContext : Type 0 where
  pub status : InvoiceStatus
  pub previous_status : Option InvoiceStatus
  pub line_item_count : ℕ
  pub total_minor : ℤ
  pub balance_minor : ℤ
  pub settled_minor : ℤ
  pub customer_has_deliverable_email : Bool

pub data TransitionFailure : Type 0 where
  illegal_from_status no_line_items non_positive_total no_deliverable_email : TransitionFailure
  already_settled balance_not_cleared balance_already_cleared : TransitionFailure
  settled_payment_exists no_previous_status exceeds_balance : TransitionFailure

-- TransitionResult: `ok to`, or `err code`
abbrev pub TransitionResult : Type 0
TransitionResult = Result TransitionFailure InvoiceStatus

-- The PAYMENT_FAILED case, on `context.previousStatus`.
unfoldable pub return_to : Option InvoiceStatus → TransitionResult
return_to none = err no_previous_status
return_to (some pending_payment) = err no_previous_status
return_to (some previous) = ok previous

-- The switch of `evaluateTransition`.
unfoldable pub decide_transition : InvoiceTransition → TransitionContext → TransitionResult
unfolding return_to
decide_transition issue c =
    if ltb c.line_item_count 1
    then err no_line_items
    else if leb_ℤ c.total_minor (pos 0)
    then err non_positive_total
    else if not c.customer_has_deliverable_email
    then err no_deliverable_email
    else ok sent
decide_transition first_view c = ok viewed
decide_transition initiate_payment c =
    if leb_ℤ c.balance_minor (pos 0) then err already_settled else ok pending_payment
decide_transition settle_partial c =
    if leb_ℤ c.settled_minor (pos 0)
    then err balance_not_cleared
    else if leb_ℤ c.total_minor c.settled_minor
    then err balance_already_cleared
    else ok partially_paid
decide_transition settle_full c =
    if ltb_ℤ c.settled_minor c.total_minor then err balance_not_cleared else ok paid
decide_transition payment_failed c = return_to c.previous_status
decide_transition cancel c =
    if ltb_ℤ (pos 0) c.settled_minor then err settled_payment_exists else ok cancelled
decide_transition record_payment c =
    if leb_ℤ c.settled_minor (js_sub c.total_minor c.balance_minor)
    then err balance_not_cleared
    else if ltb_ℤ c.total_minor c.settled_minor
    then err exceeds_balance
    else ok (if eq_ℤ c.settled_minor c.total_minor then paid else partially_paid)

unfoldable pub evaluate_transition : InvoiceTransition → TransitionContext → TransitionResult
unfolding allowed decide_transition
evaluate_transition transition context =
    if not (allowed transition context.status)
    then err illegal_from_status
    else decide_transition transition context

pub record OverdueInput : Type 0 where
  pub status : InvoiceStatus
  pub due_date : ℤ
  pub balance_minor : ℤ
  pub as_of : ℤ

-- The statuses that `isOverdue` leaves out.
unfoldable pub never_overdue : InvoiceStatus → Bool
never_overdue paid = true
never_overdue cancelled = true
never_overdue draft = true
never_overdue _ = false

unfoldable pub is_overdue : OverdueInput → Bool
unfolding never_overdue
is_overdue input =
    if never_overdue input.status
    then false
    else ltb_ℤ (pos 0) input.balance_minor && ltb_ℤ input.due_date input.as_of

pub data TerminalLabel : Type 0 where
  has_been_paid was_cancelled : TerminalLabel

-- `terminalStatusLabel`, its two texts by name
unfoldable pub terminal_status_label : InvoiceStatus → Option TerminalLabel
terminal_status_label paid = some has_been_paid
terminal_status_label cancelled = some was_cancelled
terminal_status_label _ = none
