-- ===== src/InvoiceStatus/Lifecycle.antt =====
-- The graph of the invoice state machine (invoice-status.ts).
use multi_brand_invoicing.Prelude.{arith, err, ok, some, true, ◌↔◌, ◌≡◌, ◌≢◌, ◌≤◌, ◌⊎◌}
use multi_brand_invoicing.Prelude.Int.{pos, ◌<ℤ◌, ◌≤ℤ◌}
use multi_brand_invoicing.Prelude.Double.{js_sub}
use multi_brand_invoicing.InvoiceStatus.{
  InvoiceStatus, InvoiceTransition, TransitionContext, allowed, cancel, cancelled, draft,
  evaluate_transition, first_view, illegal_from_status, initiate_payment, is_terminal, issue, paid,
  partially_paid, payment_failed, pending_payment, record_payment, sent, settle_full,
  settle_partial, viewed,
}

-- The statuses in which money is awaited.
abbrev pub IsOpen : InvoiceStatus → Type 0
IsOpen s = (s ≡ sent) ⊎ (s ≡ viewed) ⊎ (s ≡ pending_payment) ⊎ (s ≡ partially_paid)

-- The statuses from which a settlement can be applied.
abbrev pub IsSettling : InvoiceStatus → Type 0
IsSettling s = (s ≡ pending_payment) ⊎ (s ≡ partially_paid)

abbrev pub IsCancellable : InvoiceStatus → Type 0
IsCancellable s = (s ≡ draft) ⊎ (s ≡ sent) ⊎ (s ≡ viewed) ⊎ (s ≡ pending_payment)

-- The contract of each transition: where it starts, what it requires, where it leads.
abbrev pub Permits : InvoiceTransition → TransitionContext → InvoiceStatus → Type 0
Permits issue c s =
    (c.status ≡ draft)
    × (1 ≤ c.line_item_count)
    × (pos 0 <ℤ c.total_minor)
    × (c.customer_has_deliverable_email ≡ true)
    × (s ≡ sent)
Permits first_view c s = (c.status ≡ sent) × (s ≡ viewed)
Permits initiate_payment c s = IsOpen c.status × (pos 0 <ℤ c.balance_minor) × (s ≡ pending_payment)
Permits settle_partial c s =
    IsSettling c.status
    × (pos 0 <ℤ c.settled_minor)
    × (c.settled_minor <ℤ c.total_minor)
    × (s ≡ partially_paid)
Permits settle_full c s = IsSettling c.status × (c.total_minor ≤ℤ c.settled_minor) × (s ≡ paid)
Permits payment_failed c s =
    (c.status ≡ pending_payment) × (c.previous_status ≡ some s) × (s ≢ pending_payment)
Permits cancel c s = IsCancellable c.status × (c.settled_minor ≤ℤ pos 0) × (s ≡ cancelled)
Permits record_payment c s =
    IsOpen c.status
    × (js_sub c.total_minor c.balance_minor <ℤ c.settled_minor)
    × (((c.settled_minor ≡ c.total_minor) × (s ≡ paid))
        ⊎ ((c.settled_minor <ℤ c.total_minor) × (s ≡ partially_paid)))

-- A status is refused by a transition, or is one that the contract names.
initiate_status : (s : InvoiceStatus) → (allowed initiate_payment s ≡ true) ↔ IsOpen s
unfolding allowed
initiate_status s = ground arith

settle_status : (s : InvoiceStatus) → (allowed settle_full s ≡ true) ↔ IsSettling s
unfolding allowed
settle_status s = ground arith

-- A transition is evaluated to a status exactly when its contract permits that status.
pub evaluate_transition_iff :
    (t : InvoiceTransition) (c : TransitionContext) (s : InvoiceStatus)
    → (evaluate_transition t c ≡ ok s) ↔ Permits t c s
unfolding evaluate_transition
evaluate_transition_iff issue c s = ground arith
evaluate_transition_iff first_view c s = ground arith
evaluate_transition_iff initiate_payment c s = ground arith
evaluate_transition_iff settle_partial c s = ground arith
evaluate_transition_iff settle_full c s = ground arith
evaluate_transition_iff payment_failed c s = ground arith
evaluate_transition_iff cancel c s = ground arith
evaluate_transition_iff record_payment c s = ground arith

-- No transition leaves a terminal status, whatever the rest of the context says.
pub evaluate_transition-terminal :
    (t : InvoiceTransition) (c : TransitionContext)
    → is_terminal c.status ≡ true
    → evaluate_transition t c ≡ err illegal_from_status
unfolding evaluate_transition is_terminal
evaluate_transition-terminal issue c h = ground arith
evaluate_transition-terminal first_view c h = ground arith
evaluate_transition-terminal initiate_payment c h = ground arith
evaluate_transition-terminal settle_partial c h = ground arith
evaluate_transition-terminal settle_full c h = ground arith
evaluate_transition-terminal payment_failed c h = ground arith
evaluate_transition-terminal cancel c h = ground arith
evaluate_transition-terminal record_payment c h = ground arith
