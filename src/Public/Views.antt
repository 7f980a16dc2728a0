-- ===== src/Public/Views.antt =====
-- What a visit of the payment page leaves.
use multi_brand_invoicing.Store.{
  Database, EventType, Instant, Invoice, RowId, Text, World, pure, query, returned, with_scope,
  ◌>>=◌,
}
use multi_brand_invoicing.Prelude.{
  Bool, Bool-cases, Option, ap, arith, false, inl, inr, none, ok, refl, some, true, ◌∙◌, ◌∷◌, ◌≡◌,
}
use multi_brand_invoicing.InvoiceStatus.{
  InvoiceStatus, allowed, decide_transition, draft, evaluate_transition, paid, partially_paid,
  pending_payment, sent, viewed,
}
use multi_brand_invoicing.Invoices.{log_entry, same_status}
use multi_brand_invoicing.Tenancy.{PublicScope}
use multi_brand_invoicing.Invoices.Kept.{updated_row}
use multi_brand_invoicing.Public.{
  PublicInvoiceView, lacks_lines, mark_viewed, page_of, record_view, show_page, view, view_loaded,
  with_lines,
}

same_status-sent : (s : InvoiceStatus) → same_status s sent ≡ true → s ≡ sent
same_status-sent draft h = ground arith
same_status-sent sent h = refl
same_status-sent viewed h = ground arith
same_status-sent pending_payment h = ground arith
same_status-sent partially_paid h = ground arith
same_status-sent paid h = ground arith
same_status-sent InvoiceStatus.cancelled h = ground arith

module _ (D : Database) (stripe_account : RowId → Option Text)
    (enrich : RowId → RowId → D.Db → Bool × D.Db) (scope : PublicScope) where
  open D use {
    Db, find_invoice, find_settings, events, update_invoice, create_event,
    find_invoice-update_invoice, find_invoice-create_event, find_settings-update_invoice,
    find_settings-create_event, events-create_event, events-update_invoice,
  }

  abbrev viewed_db : Instant → Invoice → Db → Db
  viewed_db now i d =
      create_event (log_entry scope.invoice_id EventType.first_view i viewed none)
        (update_invoice scope.invoice_id (mark_viewed viewed now) d)

  abbrev page : Invoice → Db → PublicInvoiceView
  page i d = page_of i i.status (find_settings i.brand_id d) (stripe_account i.brand_id)

  viewed_row :
      (now : Instant) (i : Invoice) (d : Db)
      → find_invoice scope.invoice_id d ≡ some i
      → find_invoice scope.invoice_id (viewed_db now i d) ≡ some (mark_viewed viewed now i)
  viewed_row now i d h =
      find_invoice-create_event scope.invoice_id _ _
      ∙ updated_row D scope.invoice_id (mark_viewed viewed now) i d h

  settings_kept :
      (now : Instant) (i : Invoice) (d : Db)
      → find_settings i.brand_id (viewed_db now i d) ≡ find_settings i.brand_id d
  settings_kept now i d =
      find_settings-create_event i.brand_id _ _
      ∙ find_settings-update_invoice scope.invoice_id i.brand_id (mark_viewed viewed now) d

  view_found :
      (now : Instant) (i : Invoice) (w : World Db)
      → find_invoice scope.invoice_id w.db ≡ some i
      → lacks_lines i ≡ false
      → view D stripe_account enrich scope now w
        ≡ with_scope (show_page D stripe_account enrich scope now i) w
  unfolding view with_lines
  view_found now i w h full =
      ap (λ o. with_scope (λ v. view_loaded D stripe_account enrich scope now o w) w) h
      ∙ ap (λ t. with_scope (λ v. t) w)
          (returned (with_lines D stripe_account enrich scope i)
            (show_page D stripe_account enrich scope now) w w {a = i} (rw full refl))

  show_page_recorded :
      (now : Instant) (i : Invoice) (to : InvoiceStatus) (w w' : World Db)
      → record_view D scope.invoice_id now i w ≡ (ok to, w')
      → show_page D stripe_account enrich scope now i w ≡ (
        ok (some (page_of i to (find_settings i.brand_id w'.db) (stripe_account i.brand_id))),
        w',
      )
  unfolding show_page
  show_page_recorded now i to w w' h =
      returned (record_view D scope.invoice_id now i)
        (λ status. query (find_settings i.brand_id) >>= λ settings.
          pure (some (page_of i status settings (stripe_account i.brand_id))))
        w w' h

  record_view_sent :
      (now : Instant) (i : Invoice) (w : World Db)
      → i.status ≡ sent
      → record_view D scope.invoice_id now i w ≡ (ok viewed, record w { db = viewed_db now i w.db })
  unfolding record_view evaluate_transition decide_transition allowed
  record_view_sent now i w s = rw s refl

  view_sent :
      (now : Instant) (i : Invoice) (w : World Db)
      → find_invoice scope.invoice_id w.db ≡ some i
      → lacks_lines i ≡ false
      → i.status ≡ sent
      → view D stripe_account enrich scope now w
        ≡ (ok (some (page (mark_viewed viewed now i) w.db)), record w { db = viewed_db now i w.db })
  view_sent now i w h full s =
      view_found now i w h full
      ∙ ap (λ t. with_scope (λ v. t) w)
          (show_page_recorded now i viewed w (record w { db = viewed_db now i w.db })
            (record_view_sent now i w s))
      ∙ ap
          (λ o. (
            ok (some (page_of i viewed o (stripe_account i.brand_id))),
            record w { db = viewed_db now i w.db },
          ))
          (settings_kept now i w.db)

  -- A page that was viewed before, or may not be, stays as it is.
  view_other :
      (now : Instant) (i : Invoice) (w : World Db)
      → find_invoice scope.invoice_id w.db ≡ some i
      → lacks_lines i ≡ false
      → same_status i.status sent ≡ false
      → view D stripe_account enrich scope now w ≡ (ok (some (page i w.db)), w)
  unfolding record_view
  view_other now i w h full s =
      view_found now i w h full
      ∙ ap (λ t. with_scope (λ v. t) w)
          (show_page_recorded now i i.status w w (rw (record_view, s) refl))

  -- The first visit of the page of a sent invoice that has its lines: the page shows it as VIEWED, the
  -- row is VIEWED at that time and otherwise as before, and one event of the system is logged.
  pub view_first :
      (now : Instant) (i : Invoice) (w : World Db)
      → find_invoice scope.invoice_id w.db ≡ some i
      → lacks_lines i ≡ false
      → i.status ≡ sent
      → let run = view D stripe_account enrich scope now w in
        (run.0 ≡ ok (some (page (mark_viewed viewed now i) w.db)))
        × (find_invoice scope.invoice_id run.1.db ≡ some (mark_viewed viewed now i))
        × (events run.1.db
            ≡ log_entry scope.invoice_id EventType.first_view i viewed none ∷ events w.db)
        × (run.1.jobs ≡ w.jobs)
  view_first now i w h full s =
      let e = log_entry scope.invoice_id EventType.first_view i viewed none in
      let d = update_invoice scope.invoice_id (mark_viewed viewed now) w.db in
      rw (view_sent now i w h full s) (
        refl,
        viewed_row now i w.db h,
        events-create_event e d
            ∙ ap (λ l. e ∷ l)
                (events-update_invoice scope.invoice_id (mark_viewed viewed now) w.db),
        refl,
      )

  -- A visit of the page of an invoice that has its lines, and another one at any later time: the second
  -- shows the same page as the first and changes nothing.
  pub view_twice :
      (now later : Instant) (i : Invoice) (w : World Db)
      → find_invoice scope.invoice_id w.db ≡ some i
      → lacks_lines i ≡ false
      → view D stripe_account enrich scope later (view D stripe_account enrich scope now w).1
        ≡ view D stripe_account enrich scope now w
  view_twice now later i w h full = elim (Bool-cases (same_status i.status sent)) [
    | inr another ↦ rw (view_other now i w h full another) (view_other later i w h full another)
    | inl waits ↦
        let s = same_status-sent i.status waits in
        let d = viewed_db now i w.db in
        rw (view_sent now i w h full s) (
          view_other later (mark_viewed viewed now i) (record w { db = d })
            (viewed_row now i w.db h) full refl
          ∙ ap
              (λ o.
                (ok (some (page_of i viewed o (stripe_account i.brand_id))), record w { db = d }))
              (settings_kept now i w.db))
  ]
