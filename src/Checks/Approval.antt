-- ===== src/Checks/Approval.antt =====
-- What an approval pays, and what two approvals at once pay.
use multi_brand_invoicing.InvoiceStatus.{paid, partially_paid}
use multi_brand_invoicing.Prelude.{
  Option, [], ap, arith, if◌then◌else◌, none, ok, refl, some, true, ℕ, ◌++◌, ◌-◌, ◌<◌, ◌==◌, ◌∙◌,
  ◌∷◌, ◌≡◌, ◌≤◌,
}
use multi_brand_invoicing.Prelude.Int.{pos}
use multi_brand_invoicing.Prelude.Double.{IsSafe, int, js_sub, max_safe_integer}
use multi_brand_invoicing.Checks.{
  approve, approve_pending, close_out, close_review, find_or_throw, finish_review, is_pending,
  require_pending,
}
use multi_brand_invoicing.Invoices.{mark_recorded, record_manual_payment}
use multi_brand_invoicing.Invoices.Recorded.{
  evaluate_transition_recorded, js_sub_nat, mark_recorded_for, status_for,
}
use multi_brand_invoicing.Invoices.Kept.{
  paid_db, record_manual_payment_lem, recorded_db, recorded_row,
}
use multi_brand_invoicing.Calculation.{check}
use multi_brand_invoicing.Amounts.{format_minor, minor_text, to_currency_code}
use multi_brand_invoicing.Amounts.RoundTrip.{format_minor-eq-ok, parse_minor-text}
use multi_brand_invoicing.InvoiceStatus.Lifecycle.{IsOpen}
use multi_brand_invoicing.Store.{
  CheckStatus, CheckSubmission, Database, Instant, Invoice, RowId, Text, World, returned,
  zoho_push_payment,
}

-- A check of `a` on an open invoice of `t` with the balance `b`.
pub record Covers (s : CheckSubmission) (i : Invoice) (t b a : ℕ) : Type 0 where
  pub amount : s.amount_minor ≡ pos a
  pub total : i.total_minor ≡ pos t
  pub balance : i.balance_minor ≡ pos b
  pub open_status : IsOpen i.status
  pub some_amount : 0 < a
  pub within : a ≤ b
  pub owed : b ≤ t
  pub safe : t ≤ max_safe_integer

module _ (D : Database) (brand_id id : RowId) (now : Instant) where
  open D use {
    Db, find_invoice, find_submission, update_submission, find_submission-update_submission,
    find_submission-update_invoice, find_submission-create_payment, find_submission-create_event,
    find_invoice-update_submission,
  }

  -- The world after the payment of an approval, before the review is closed.
  abbrev pub paid_world :
      CheckSubmission → Invoice → ℕ → ℕ → Text → Option RowId → World Db → World Db
  paid_world s i b a key reviewer w = record {
    db = recorded_db D s.invoice_id check (pos a) key now reviewer i (status_for a b) w.db;
    jobs =
        w.jobs
        ++ zoho_push_payment brand_id
            (paid_db D s.invoice_id check (pos a) key now i (status_for a b) w.db).0
          ∷ [];
  }

  approve_pending_lem :
      (s : CheckSubmission) (i : Invoice) (t b a : ℕ) (comment : Option Text) (key : Text)
      (reviewer : Option RowId) (w : World Db)
      → find_invoice s.invoice_id w.db ≡ some i
      → i.brand_id ≡ brand_id
      → Covers s i t b a
      → approve_pending D brand_id id comment key now reviewer s w
        ≡ finish_review D brand_id id CheckStatus.approved comment now reviewer
            (paid_world s i b a key reviewer w)
  unfolding approve_pending
  approve_pending_lem s i t b a comment key reviewer w found own h =
      let c = to_currency_code i.currency in
      let safe : IsSafe (pos a) = omega (arith, h.within, h.owed, h.safe) in
      let printed : format_minor (int s.amount_minor) c ≡ ok (minor_text c (pos a)) =
        rw h.amount (format_minor-eq-ok c (pos a) safe) in
      let permits =
        evaluate_transition_recorded i t b a h.open_status h.total h.balance h.some_amount h.within
          h.owed h.safe in
      let recorded =
        record_manual_payment_lem D brand_id s.invoice_id check (minor_text c (pos a)) key now
          reviewer w i (pos a) (status_for a b) found own (parse_minor-text c (pos a) safe)
          permits in
      rw (found, printed)
        (returned
          (record_manual_payment D brand_id s.invoice_id check (minor_text c (pos a)) key now
            reviewer)
          (λ _. finish_review D brand_id id CheckStatus.approved comment now reviewer) w
          (paid_world s i b a key reviewer w) recorded)

  paid_world-submission :
      (s : CheckSubmission) (i : Invoice) (b a : ℕ) (key : Text) (reviewer : Option RowId)
      (w : World Db)
      → find_submission id (paid_world s i b a key reviewer w).db ≡ find_submission id w.db
  paid_world-submission s i b a key reviewer w =
      find_submission-create_event id _ _
      ∙ find_submission-create_payment id _ _
      ∙ find_submission-update_invoice s.invoice_id id _ _

  paid_world-invoice :
      (s : CheckSubmission) (i : Invoice) (t b a : ℕ) (key : Text) (reviewer : Option RowId)
      (w : World Db)
      → find_invoice s.invoice_id w.db ≡ some i
      → Covers s i t b a
      → find_invoice s.invoice_id (paid_world s i b a key reviewer w).db
        ≡ some (mark_recorded (status_for a b) (pos (b - a)) now i)
  paid_world-invoice s i t b a key reviewer w found h =
      let left : js_sub i.balance_minor (pos a) ≡ pos (b - a) =
        rw h.balance (js_sub_nat b a h.within (omega (arith, h.owed, h.safe))) in
      rw left at
        (recorded_row D s.invoice_id check (pos a) key now reviewer i (status_for a b) w.db found)

  close_review_lem :
      (to : CheckStatus) (comment : Option Text) (reviewer : RowId) (s : CheckSubmission)
      (w : World Db)
      → find_submission id w.db ≡ some s
      → s.brand_id ≡ brand_id
      → is_pending s.status ≡ true
      → close_review D brand_id id to comment now reviewer w
        ≡ (ok tt, record w { db = update_submission id (close_out to reviewer comment now) w.db })
  unfolding close_review
  close_review_lem to comment reviewer s w h own waits = ground (arith, h)

  closed_submission :
      (f : CheckSubmission → CheckSubmission) (s : CheckSubmission) (d : Db)
      → find_submission id d ≡ some s
      → find_submission id (update_submission id f d) ≡ some (f s)
  closed_submission f s d h = ground (arith, find_submission-update_submission id id f d, h)

  approve-approve_pending :
      (s : CheckSubmission) (comment : Option Text) (key : Text) (reviewer : Option RowId)
      (w : World Db)
      → find_submission id w.db ≡ some s
      → s.brand_id ≡ brand_id
      → is_pending s.status ≡ true
      → approve D brand_id id comment key now reviewer w
        ≡ approve_pending D brand_id id comment key now reviewer s w
  unfolding approve require_pending find_or_throw
  approve-approve_pending s comment key reviewer w h own waits =
      returned (require_pending D brand_id id)
        (approve_pending D brand_id id comment key now reviewer) w w (ground (arith, h))

  -- The approval of a pending check of the brand, whose amount is positive and at most the balance of
  -- its open invoice: it returns, the balance falls by exactly the amount of the check, the invoice is
  -- PAID at that time if nothing is left and PARTIALLY_PAID else, with no status to return to and every
  -- other field as before, and the check is closed as approved, with the reviewer, the note and the time.
  pub approve_lem :
      (s : CheckSubmission) (i : Invoice) (t b a : ℕ) (comment : Option Text) (key : Text)
      (reviewer : RowId) (w : World Db)
      → find_submission id w.db ≡ some s
      → s.brand_id ≡ brand_id
      → is_pending s.status ≡ true
      → find_invoice s.invoice_id w.db ≡ some i
      → i.brand_id ≡ brand_id
      → Covers s i t b a
      → let run = approve D brand_id id comment key now (some reviewer) w in
        (run.0 ≡ ok tt)
        × (find_invoice s.invoice_id run.1.db
            ≡ some (record i {
              status = if a == b then paid else partially_paid;
              balance_minor = pos (b - a);
              previous_status = none;
              paid_at = if a == b then some now else i.paid_at;
            }))
        × (find_submission id run.1.db
            ≡ some (record s {
              status = CheckStatus.approved;
              reviewed_by = some reviewer;
              review_note = comment;
              reviewed_at = some now;
            }))
  unfolding finish_review
  approve_lem s i t b a comment key reviewer w h own waits found own' covers =
      let v = paid_world s i b a key (some reviewer) w in
      let same : find_submission id v.db ≡ some s =
        paid_world-submission s i b a key (some reviewer) w ∙ h in
      let f = close_out CheckStatus.approved reviewer comment now in
      let run =
        approve-approve_pending s comment key (some reviewer) w h own waits
        ∙ approve_pending_lem s i t b a comment key (some reviewer) w found own' covers
        ∙ close_review_lem CheckStatus.approved comment reviewer s v same own waits in
      rw run (
        refl,
        find_invoice-update_submission id s.invoice_id f v.db
            ∙ paid_world-invoice s i t b a key (some reviewer) w found covers
            ∙ ap some (mark_recorded_for a b (pos (b - a)) now i),
        closed_submission f s v.db same,
      )
