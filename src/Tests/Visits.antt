-- ===== src/Tests/Visits.antt =====
-- The payment page, bounded concurrency, phones and the rate limiter.
use multi_brand_invoicing.Store.{CheckStatus, CheckSubmission, Instant, RowId, Text, World}
use Prim.Native.Nat.{min}
use multi_brand_invoicing.Store.Memory.{Tables, memory}
use multi_brand_invoicing.Prelude.{
  Bool, List, Option, Result, [], all, any, arith, false, inl, inr, length, none, ok, refl, some,
  true, ℕ, ◌*◌, ◌+◌, ◌∷◌, ◌≡◌, ◌≤◌, ◌⊎◌,
}
use multi_brand_invoicing.Prelude.Int.{pos}
use multi_brand_invoicing.InvoiceStatus.{InvoiceStatus, sent, viewed}
use multi_brand_invoicing.Checks.{approve}
use multi_brand_invoicing.Chars.{Chars}
use multi_brand_invoicing.Public.{CheckSide, submit_check, view}
use multi_brand_invoicing.Public.Views.{view_twice}
use multi_brand_invoicing.Public.Paid.{submit_check-approve}
use multi_brand_invoicing.Concurrency.{run, start}
use multi_brand_invoicing.Concurrency.Collected.{is_finished}
use multi_brand_invoicing.Concurrency.Turns.{count, is_awaiting, is_live, live_turns, run_ends}
use multi_brand_invoicing.Concurrency.Resolved.{run_collects}
use multi_brand_invoicing.UsPhone.{digits_of, normalize_us_phone}
use multi_brand_invoicing.UsPhone.Normal.{IsE164, normalize_us_phone-IsE164}
use multi_brand_invoicing.RateLimit.{CacheKey, Entry, rate_of_brand}
use multi_brand_invoicing.RateLimit.Memory.{memory_cache}
use multi_brand_invoicing.RateLimit.Window.{after_calls, granted, granted_window}
use multi_brand_invoicing.Auth.Limited.{
  ResetRequest, request_all, request_all_mails, reset_candidates,
}
use multi_brand_invoicing.Tests.Data.{accounts, digest_of, order, same_text, shop, toggles, visitor}

abbrev no_account : RowId → Option Text
no_account b = none

abbrev no_lines : RowId → RowId → Tables → Bool × Tables
no_lines b i d = (false, d)

view_twice_example :
    view memory no_account no_lines visitor
      (pos 800)
      (view memory no_account no_lines visitor (pos 700) (shop (order sent none))).1
    ≡ view memory no_account no_lines visitor (pos 700) (shop (order sent none))
view_twice_example =
    view_twice memory no_account no_lines visitor (pos 700) (pos 800) (order sent none)
      (shop (order sent none)) refl refl

abbrev takes : RowId → RowId → CheckSide → Bool
takes b id side = true

-- The shop when it takes checks.
abbrev check_shop : World Tables
check_shop =
    let w = shop (order viewed none) in
    record w { db = record w.db { settings = (3, record toggles { check_enabled = true }) ∷ [] } }

submit_check-approve_example :
    let claim : CheckStatus → Option RowId → Option Text → Option Instant → CheckSubmission =
      λ status reviewer note at. record {
        invoice_id = 1;
        brand_id = 3;
        check_number = 44;
        amount_minor = pos 2_500;
        status = status;
        reviewed_by = reviewer;
        review_note = note;
        reviewed_at = at;
      } in
    let sent = submit_check memory takes visitor 44 12 check_shop in
    let run = approve memory 3 12 none 51 (pos 900) (some 8) sent.1 in
    ((sent.0 ≡ ok 12)
      × (memory.find_submission 12 sent.1.db ≡ some (claim CheckStatus.submitted none none none))
      × (memory.find_invoice 1 sent.1.db ≡ some (order viewed none)))
    × ((run.0 ≡ ok tt)
        × (memory.find_invoice 1 run.1.db
            ≡ some (record (order viewed none) {
              status = InvoiceStatus.paid;
              balance_minor = pos 0;
              previous_status = none;
              paid_at = some (pos 900);
            }))
        × (memory.find_submission 12 run.1.db
            ≡ some (claim CheckStatus.approved (some 8) none (some (pos 900)))))
submit_check-approve_example =
    submit_check-approve memory takes visitor 44 12 (order viewed none) 2_500 2_500 none 51
      (pos 900) 8 check_shop refl refl (inr (inl refl)) refl refl (omega arith) (omega arith)
      (omega arith) refl refl refl

-- A worker that doubles.
abbrev double : ℕ → ℕ → Result Text ℕ
double x i = ok (x + x)

abbrev numbers : List ℕ
numbers = 7 ∷ 8 ∷ 9 ∷ []

-- Two runners, the second ahead of the first.
abbrev turns : List ℕ
turns = 0 ∷ 1 ∷ 1 ∷ 1 ∷ 1 ∷ 1 ∷ 0 ∷ 0 ∷ []

turns_resolve : all is_finished (run numbers double turns (start numbers double 2)).0 ≡ true
unfolding start run
turns_resolve = refl

run_collects_example :
    (r : ℕ) × (double 8 1 ≡ ok r)
    × ((run numbers double turns (start numbers double 2)).1.results 1 ≡ some r)
run_collects_example = run_collects numbers double 2 turns (omega arith) turns_resolve 1 8 refl

run_ends_example :
    let p = run numbers double turns (start numbers double 2) in
    (live_turns numbers double turns (start numbers double 2) ≤ 3 * 3 + 2)
    × (count is_awaiting p.0 ≤ 2)
    × ((rest : List ℕ) × (any is_live (run numbers double rest p).0 ≡ false))
run_ends_example = run_ends numbers double 2 turns

-- (212) 555-1234
abbrev typed : Chars
typed =
    b'(' ∷ b'2' ∷ b'1' ∷ b'2' ∷ b')' ∷ b' ' ∷ b'5' ∷ b'5' ∷ b'5' ∷ b'-' ∷ b'1' ∷ b'2' ∷ b'3' ∷ b'4'
    ∷ []

abbrev national : Chars
national = b'2' ∷ b'1' ∷ b'2' ∷ b'5' ∷ b'5' ∷ b'5' ∷ b'1' ∷ b'2' ∷ b'3' ∷ b'4' ∷ []

typed_normal : normalize_us_phone typed ≡ some (b'+' ∷ b'1' ∷ national)
unfolding normalize_us_phone
typed_normal = refl

normalize_us_phone-IsE164_example :
    ((n : Chars) × ((digits_of typed ≡ n) ⊎ (digits_of typed ≡ b'1' ∷ n))
      × IsE164 n (b'+' ∷ b'1' ∷ national))
    × (normalize_us_phone (b'+' ∷ b'1' ∷ national) ≡ some (b'+' ∷ b'1' ∷ national))
normalize_us_phone-IsE164_example =
    normalize_us_phone-IsE164 typed (b'+' ∷ b'1' ∷ national) typed_normal

abbrev empty_cache : CacheKey → Option Entry
empty_cache k = none

granted_window_example :
    (granted memory_cache (rate_of_brand 3) 2 60 (100 ∷ 110 ∷ 120 ∷ []) empty_cache ≡ min 2 3)
    × ((later : ℕ)
        → 100 + 60 ≤ later
        → memory_cache.entry
            (rate_of_brand 3)
            later
            (after_calls memory_cache (rate_of_brand 3) 2 60 (100 ∷ 110 ∷ 120 ∷ []) empty_cache)
          ≡ none)
granted_window_example =
    granted_window memory_cache (rate_of_brand 3) 2 60 100 (110 ∷ 120 ∷ []) empty_cache refl
      (omega arith) (omega arith, omega arith, (omega arith, omega arith, tt))

abbrev reset_at : ℕ → ResetRequest
reset_at t = record { second = t; now = pos t; draw = λ id. id + t }

request_all_mails_example :
    length
      (request_all digest_of digest_of same_text memory_cache
        (λ id t. true)
        90
        (reset_at 5 ∷ reset_at 6 ∷ [])
        (accounts, empty_cache)).0.mails
    ≡ length accounts.mails + min 3 2 * length (reset_candidates 90 accounts.users)
request_all_mails_example =
    request_all_mails digest_of digest_of same_text memory_cache (λ id t. true) 90 (λ id t. refl)
      (reset_at 5) (reset_at 6 ∷ []) accounts empty_cache refl (omega arith, omega arith, tt)
