-- ===== src/Payments/Sound.antt =====
-- The invariant of the invoice rows, and that every settlement preserves it.
use multi_brand_invoicing.Prelude.{
  Bool-cases, Option, arith, err, inl, inr, none, ok, refl, some, ◌==◌, ◌≡◌, ◌≢◌, ◌⊎◌,
}
use multi_brand_invoicing.Prelude.Int.{pos}
use multi_brand_invoicing.InvoiceStatus.{
  InvoiceStatus, InvoiceTransition, TransitionResult, evaluate_transition, paid, pending_payment,
}
use multi_brand_invoicing.InvoiceStatus.Lifecycle.{IsOpen, evaluate_transition_iff}
use multi_brand_invoicing.Store.{Database, Instant, Invoice, RowId, World}
use multi_brand_invoicing.Payments.Types.{IntentStatus}
use multi_brand_invoicing.Payments.Settle.{SettlementInput, apply_settlement, failure_context}
use multi_brand_invoicing.Payments.Effect.{
  apply_settlement-rows, closed_as, invoice_after, invoice_after_as, reverted_as, row_after,
}

-- An invoice that is paid owes nothing, and the status to return to is one in which money is awaited.
pub record IsSound (i : Invoice) : Type 0 where
  pub cleared : (i.status ≢ paid) ⊎ (i.balance_minor ≡ pos 0)
  pub returns :
      (i.previous_status ≡ none) ⊎ ((s : InvoiceStatus) × (i.previous_status ≡ some s) × IsOpen s)

abbrev pub IsSoundRow : Option Invoice → Type 0
IsSoundRow none = Unit
IsSoundRow (some i) = IsSound i

-- A settlement that names an open status to return to, or an invoice that is not pending.
abbrev pub ReturnsOpen : SettlementInput → Type 0
ReturnsOpen input =
    IsOpen input.invoice_status_before_attempt ⊎ (input.current_invoice_status ≢ pending_payment)

closed_as-IsSound :
    (r : TransitionResult) (at : Instant) (i : Invoice) → IsSound i → IsSound (closed_as r at i)
closed_as-IsSound (ok to) at i h = record { cleared = inr refl; returns = inl refl }
closed_as-IsSound (err code) at i h = h

open-ne-paid : (s : InvoiceStatus) → IsOpen s → s ≢ paid
open-ne-paid s h = ground arith

reverted_as-IsSound :
    (r : TransitionResult) (input : SettlementInput) (i : Invoice)
    → evaluate_transition InvoiceTransition.payment_failed (failure_context input) ≡ r
    → ReturnsOpen input
    → IsSound i
    → IsSound (reverted_as r i)
reverted_as-IsSound (ok to) input i e open_before h =
    let (pending, before, n) =
      (evaluate_transition_iff InvoiceTransition.payment_failed (failure_context input) to).0 e in
    record {
      cleared = inl (elim open_before [
        | inl o ↦ ground (arith, open-ne-paid input.invoice_status_before_attempt o)
        | inr not_pending ↦ absurd (not_pending pending)
      ]);
      returns = inl refl;
    }
reverted_as-IsSound (err code) input i e open_before h = h

invoice_after_as-IsSound :
    (s : IntentStatus) (input : SettlementInput) (i : Invoice)
    → ReturnsOpen input
    → IsSound i
    → IsSound (invoice_after_as s input i)
unfolding invoice_after_as
invoice_after_as-IsSound IntentStatus.succeeded input i o h =
    closed_as-IsSound _ input.occurred_at i h
invoice_after_as-IsSound IntentStatus.failed input i o h = reverted_as-IsSound _ input i refl o h
invoice_after_as-IsSound _ input i o h = h

pub row_after-IsSoundRow :
    (k j : RowId) (f : Invoice → Invoice)
    → ((i : Invoice) → IsSound i → IsSound (f i))
    → (o : Option Invoice) → IsSoundRow o
    → IsSoundRow (row_after k f j o)
row_after-IsSoundRow k j f keep none h = elim (Bool-cases (k == j)) [
  | inl e ↦ rw e tt
  | inr e ↦ rw e tt
]
row_after-IsSoundRow k j f keep (some i) h = elim (Bool-cases (k == j)) [
  | inl e ↦ rw e (keep i h)
  | inr e ↦ rw e h
]

-- A settlement that returns its invoice to an open status, if it returns it at all, keeps every
-- invoice row sound: paid means no balance, and the status to return to is an open one.
pub apply_settlement-IsSound :
    (D : Database) (input : SettlementInput) (w : World D.Db)
    → ReturnsOpen input
    → ((j : RowId) → IsSoundRow (D.find_invoice j w.db))
    → (j : RowId) → IsSoundRow (D.find_invoice j (apply_settlement D input w).1.db)
apply_settlement-IsSound D input w o h j = rw ((apply_settlement-rows D input w j).0) (
    row_after-IsSoundRow input.invoice_id j (invoice_after input)
      (λ i. invoice_after_as-IsSound input.gateway_status input i o) (D.find_invoice j w.db) (h j))
