-- ===== src/Invoices/Recorded.antt =====
-- What becomes of an invoice under the operations of the invoices service.
use multi_brand_invoicing.Invoices.{mark_recorded, record_context}
use multi_brand_invoicing.Prelude.{
  Bool-cases, arith, if◌then◌else◌, inl, inr, none, ok, refl, some, ℕ, ◌+◌, ◌-◌, ◌<◌, ◌==◌, ◌≡◌,
  ◌≤◌,
}
use multi_brand_invoicing.Prelude.Int.{pos, ℤ, ◌+ℤ◌, ◌-ℤ◌}
use multi_brand_invoicing.Prelude.Double.{js_add, js_sub, max_safe_integer}
use multi_brand_invoicing.InvoiceStatus.{
  InvoiceStatus, allowed, decide_transition, evaluate_transition, paid, partially_paid,
  record_payment,
}
use multi_brand_invoicing.InvoiceStatus.Lifecycle.{IsOpen}
use multi_brand_invoicing.Store.{Instant, Invoice}

pub js_sub_nat : (t b : ℕ) → b ≤ t → t ≤ max_safe_integer → js_sub (pos t) (pos b) ≡ pos (t - b)
unfolding ◌-ℤ◌ js_sub
js_sub_nat t b k s = ground arith

-- What is settled after a payment of `a` on a balance of `b` out of `t`.
settled_after :
    (t b a : ℕ)
    → a ≤ b
    → b ≤ t
    → t ≤ max_safe_integer
    → js_add (js_sub (pos t) (pos b)) (pos a) ≡ pos (t - b + a)
unfolding ◌+ℤ◌ ◌-ℤ◌ js_add js_sub
settled_after t b a h k s = ground arith

-- The status after a payment of `a` on a balance of `b`.
abbrev pub status_for : ℕ → ℕ → InvoiceStatus
status_for a b = if a == b then paid else partially_paid

-- A manual payment of at most the balance, on an open invoice whose amounts are whole numbers and safe
-- integers, the balance at most the total, is permitted, and the invoice becomes PAID exactly when the
-- payment is the whole balance, else PARTIALLY_PAID.
pub evaluate_transition_recorded :
    (i : Invoice) (t b a : ℕ)
    → IsOpen i.status
    → i.total_minor ≡ pos t
    → i.balance_minor ≡ pos b
    → 0 < a
    → a ≤ b
    → b ≤ t
    → t ≤ max_safe_integer
    → evaluate_transition record_payment (record_context i (pos a)) ≡ ok (status_for a b)
unfolding evaluate_transition decide_transition allowed
evaluate_transition_recorded i t b a o et eb p h k s =
    let settled = settled_after t b a h k s in
    let left = js_sub_nat t b k s in rw (et, eb, settled, left) (ground arith)

-- The row that the payment of `a` of a balance `b` leaves, field by field.
pub mark_recorded_for :
    (a b : ℕ) (balance : ℤ) (at : Instant) (i : Invoice)
    → mark_recorded (status_for a b) balance at i ≡ record i {
      status = if a == b then paid else partially_paid;
      balance_minor = balance;
      previous_status = none;
      paid_at = if a == b then some at else i.paid_at;
    }
mark_recorded_for a b balance at i = elim (Bool-cases (a == b)) [
  | inl all_of_it ↦ rw all_of_it refl
  | inr part ↦ rw part refl
]
