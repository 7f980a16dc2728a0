-- ===== src/Checks.antt =====
-- apps/api/src/checks/checks.service.ts: the review of a check that a customer submitted. The clock,
-- the random key of the payment and the reviewer (none in a public scope) are arguments.
pub mod Review
pub mod Approval
use multi_brand_invoicing.Prelude.{
  Bool, Option, false, if◌then◌else◌, none, not, some, true, ◌&&◌, ◌==◌,
}
use multi_brand_invoicing.Prelude.Double.{int}
use multi_brand_invoicing.Invoices.{record_manual_payment}
use multi_brand_invoicing.Calculation.{check}
use multi_brand_invoicing.Amounts.{StoredCurrency, format_minor, to_currency_code}
use multi_brand_invoicing.Store.{
  Action, CheckStatus, CheckSubmission, Database, Instant, Invoice, RowId, Text, World,
  already_reviewed, change, changed_while_saving, checked, fetch, pure, query, raise, raise_if,
  reason_required, session_required, submission_not_found, submitted, under_review, with_scope,
  ◌>>=◌, ◌>>◌,
}

-- `status !== 'SUBMITTED' && status !== 'UNDER_REVIEW'`, negated
abbrev pub is_pending : CheckStatus → Bool
is_pending submitted = true
is_pending under_review = true
is_pending _ = false

-- CheckReviewStatus, as `toListRow` shows it.
pub data CheckReviewStatus : Type 0 where
  pending approved rejected : CheckReviewStatus

unfoldable pub review_status : CheckStatus → CheckReviewStatus
review_status CheckStatus.approved = CheckReviewStatus.approved
review_status CheckStatus.rejected = CheckReviewStatus.rejected
review_status _ = CheckReviewStatus.pending

abbrev pub close_out :
    CheckStatus → RowId → Option Text → Instant → CheckSubmission → CheckSubmission
close_out to reviewer comment now s = record s {
  status = to;
  reviewed_by = some reviewer;
  review_note = comment;
  reviewed_at = some now;
}

abbrev pub submission_of_brand : RowId → Option CheckSubmission → Option CheckSubmission
submission_of_brand brand_id none = none
submission_of_brand brand_id (some s) = if s.brand_id == brand_id then some s else none

-- The rows that the `updateMany` of `finishReview` touches.
abbrev pub awaits_review : RowId → Option CheckSubmission → Bool
awaits_review brand_id none = false
awaits_review brand_id (some s) = s.brand_id == brand_id && is_pending s.status

module _ (D : Database) where
  open D use {Db, find_invoice, find_submission, update_submission}

  abbrev pub find_first_submission : RowId → RowId → Db → Option CheckSubmission
  find_first_submission brand_id id d = submission_of_brand brand_id (find_submission id d)

  unfoldable pub find_or_throw : RowId → RowId → Action (World Db) CheckSubmission
  find_or_throw brand_id id =
      with_scope (fetch submission_not_found (find_first_submission brand_id id))

  unfoldable pub require_pending : RowId → RowId → Action (World Db) CheckSubmission
  unfolding find_or_throw
  require_pending brand_id id = do
    row ← find_or_throw brand_id id
    raise_if (not (is_pending row.status)) already_reviewed
    pure row

  -- The body of `finishReview` once its scope is not public.
  unfoldable pub close_review :
      RowId → RowId → CheckStatus → Option Text → Instant → RowId → Action (World Db) (Unit {0})
  close_review brand_id id to comment now reviewer = with_scope (do
    found ← query (find_submission id)
    raise_if (not (awaits_review brand_id found)) changed_while_saving
    change (update_submission id (close_out to reviewer comment now)))

  unfoldable pub finish_review :
      RowId
      → RowId
      → CheckStatus
      → Option Text
      → Instant
      → Option RowId
      → Action (World Db) (Unit {0})
  finish_review brand_id id to comment now none = raise session_required
  finish_review brand_id id to comment now (some reviewer) =
      close_review brand_id id to comment now reviewer

  -- `submission.invoice.currency`, of the invoice that the query includes
  abbrev pub currency_of : Option Invoice → StoredCurrency
  currency_of none = none
  currency_of (some i) = i.currency

  -- `approve` from the pending submission on.
  unfoldable pub approve_pending :
      RowId
      → RowId
      → Option Text
      → Text
      → Instant
      → Option RowId
      → CheckSubmission
      → Action (World Db) (Unit {0})
  approve_pending brand_id id comment key now reviewer s = do
    invoice ← query (find_invoice s.invoice_id)
    amount ← checked (format_minor (int s.amount_minor) (to_currency_code (currency_of invoice)))
    _ ← record_manual_payment D brand_id s.invoice_id check amount key now reviewer
    finish_review brand_id id CheckStatus.approved comment now reviewer

  unfoldable pub approve :
      RowId → RowId → Option Text → Text → Instant → Option RowId → Action (World Db) (Unit {0})
  approve brand_id id comment key now reviewer =
      require_pending brand_id id >>= approve_pending brand_id id comment key now reviewer

  unfoldable pub reject_because :
      RowId → RowId → Text → Instant → Option RowId → Action (World Db) (Unit {0})
  reject_because brand_id id comment now reviewer = do
    _ ← require_pending brand_id id
    finish_review brand_id id CheckStatus.rejected (some comment) now reviewer

  -- A note that is absent or empty is none.
  unfoldable pub reject :
      RowId → RowId → Option Text → Instant → Option RowId → Action (World Db) (Unit {0})
  reject brand_id id none now reviewer = raise reason_required
  reject brand_id id (some comment) now reviewer = reject_because brand_id id comment now reviewer
