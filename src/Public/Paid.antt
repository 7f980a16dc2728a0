-- ===== src/Public/Paid.antt =====
-- A check that a customer submits, until its invoice is paid.
use multi_brand_invoicing.Store.{
  CheckStatus, CheckSubmission, Database, Instant, Invoice, RowId, Text, World, fetch_found,
  invoice_not_found, with_scope,
}
use multi_brand_invoicing.Prelude.{
  ==_refl, Bool, Option, ap, arith, false, none, ok, refl, some, true, ℕ, ◌-◌, ◌<◌, ◌∙◌, ◌≡◌, ◌≤◌,
}
use multi_brand_invoicing.Prelude.Int.{leb_ℤ, pos}
use multi_brand_invoicing.Prelude.Double.{max_safe_integer}
use multi_brand_invoicing.InvoiceStatus.{InvoiceStatus}
use multi_brand_invoicing.InvoiceStatus.Lifecycle.{IsOpen}
use multi_brand_invoicing.Checks.{approve}
use multi_brand_invoicing.Checks.Approval.{Covers, approve_lem}
use multi_brand_invoicing.Tenancy.{PublicScope}
use multi_brand_invoicing.Public.{
  CheckSide, back, front, new_submission, submit_check, submit_open, takes_checks,
}

nothing_left : (b : ℕ) → b - b ≡ 0
nothing_left b = omega arith

module _ (D : Database) (put : RowId → RowId → CheckSide → Bool) (scope : PublicScope)
    (check_number : Text) (id : RowId) where
  open D use {
    Db, find_invoice, find_settings, find_submission, create_submission,
    find_invoice-create_submission, find_submission-create_submission,
  }

  abbrev submitted_world : Invoice → World Db → World Db
  submitted_world i w = record w {
    db = create_submission id (new_submission scope.invoice_id scope check_number i) w.db;
  }

  submit_open_lem :
      (i : Invoice) (w : World Db)
      → takes_checks (find_settings scope.brand_id w.db) ≡ true
      → leb_ℤ i.balance_minor (pos 0) ≡ false
      → put scope.brand_id id front ≡ true
      → put scope.brand_id id back ≡ true
      → submit_open D put scope check_number id i w ≡ (ok id, submitted_world i w)
  unfolding submit_open
  submit_open_lem i w enabled owed stored stored' = rw (enabled, owed, stored, stored') refl

  submit_check_lem :
      (i : Invoice) (w : World Db)
      → find_invoice scope.invoice_id w.db ≡ some i
      → takes_checks (find_settings scope.brand_id w.db) ≡ true
      → leb_ℤ i.balance_minor (pos 0) ≡ false
      → put scope.brand_id id front ≡ true
      → put scope.brand_id id back ≡ true
      → submit_check D put scope check_number id w ≡ (ok id, submitted_world i w)
  unfolding submit_check
  submit_check_lem i w h enabled owed stored stored' =
      ap (λ t. with_scope (λ v. t) w)
        (fetch_found invoice_not_found (find_invoice scope.invoice_id)
            (submit_open D put scope check_number id) w h
          ∙ submit_open_lem i w enabled owed stored stored')

  -- A check for `b` under that number, as it stands in its review.
  abbrev pub claimed_check :
      ℕ → CheckStatus → Option RowId → Option Text → Option Instant → CheckSubmission
  claimed_check b status reviewer note at = record {
    invoice_id = scope.invoice_id;
    brand_id = scope.brand_id;
    check_number = check_number;
    amount_minor = pos b;
    status = status;
    reviewed_by = reviewer;
    review_note = note;
    reviewed_at = at;
  }

  -- A customer submits a check on the open invoice of a link, of a brand that takes checks, and both
  -- images are stored. The check is then for exactly the balance, and the invoice as it was; and when a
  -- reviewer of the brand approves it, the approval returns, nothing is left of the balance, the invoice
  -- is PAID at that time and has no status to return to, its other fields stay, and the check is approved
  -- with the reviewer, the note and the time.
  pub submit_check-approve :
      (i : Invoice) (t b : ℕ) (comment : Option Text) (key : Text) (now : Instant)
      (reviewer : RowId) (w : World Db)
      → find_invoice scope.invoice_id w.db ≡ some i
      → i.brand_id ≡ scope.brand_id
      → IsOpen i.status
      → i.total_minor ≡ pos t
      → i.balance_minor ≡ pos b
      → 0 < b
      → b ≤ t
      → t ≤ max_safe_integer
      → takes_checks (find_settings scope.brand_id w.db) ≡ true
      → put scope.brand_id id front ≡ true
      → put scope.brand_id id back ≡ true
      → let claim = claimed_check b in
        let sent = submit_check D put scope check_number id w in
        let run = approve D scope.brand_id id comment key now (some reviewer) sent.1 in
        ((sent.0 ≡ ok id)
          × (find_submission id sent.1.db ≡ some (claim CheckStatus.submitted none none none))
          × (find_invoice scope.invoice_id sent.1.db ≡ some i))
        × ((run.0 ≡ ok tt)
            × (find_invoice scope.invoice_id run.1.db
                ≡ some (record i {
                  status = InvoiceStatus.paid;
                  balance_minor = pos 0;
                  previous_status = none;
                  paid_at = some now;
                }))
            × (find_submission id run.1.db
                ≡ some (claim CheckStatus.approved (some reviewer) comment (some now))))
  submit_check-approve i t b comment key now reviewer w h own o et eb some_left owed safe enabled
        stored stored' =
      let s = new_submission scope.invoice_id scope check_number i in
      let v = submitted_world i w in
      let row = find_submission-create_submission id s w.db in
      let found = find_invoice-create_submission scope.invoice_id id s w.db ∙ h in
      let covers : Covers s i t b b = record {
        amount = eb;
        total = et;
        balance = eb;
        open_status = o;
        some_amount = some_left;
        within = omega arith;
        owed = owed;
        safe = safe;
      } in
      let sent = submit_check_lem i w h enabled (rw eb (ground arith)) stored stored' in
      let approved =
        approve_lem D scope.brand_id id now s i t b b comment key reviewer v row refl refl found own
          covers in
      let exact : (current : CheckStatus) (by : Option RowId) (note : Option Text)
            (at : Option Instant)
          → some (record (claimed_check b current by note at) { amount_minor = i.balance_minor })
            ≡ some (claimed_check b current by note at) =
        λ current by note at.
          ap (λ a. some (record (claimed_check b current by note at) { amount_minor = a })) eb in
      let (done, paid_row, closed) = rw (==_refl b, nothing_left b) at approved in
      rw sent (
        (refl, row ∙ exact CheckStatus.submitted none none none, found),
        (done, paid_row, closed ∙ exact CheckStatus.approved (some reviewer) comment (some now)),
      )
