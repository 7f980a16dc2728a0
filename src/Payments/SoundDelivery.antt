-- ===== src/Payments/SoundDelivery.antt =====
-- The whole webhook handler keeps the invoice rows sound.
use multi_brand_invoicing.Prelude.{
  Bool-cases, Option, Option-cases, arith, inl, inr, refl, some, ◌≡◌, ◌≢◌, ◌⊎◌,
}
use multi_brand_invoicing.InvoiceStatus.{InvoiceStatus, pending_payment}
use multi_brand_invoicing.InvoiceStatus.Lifecycle.{IsOpen}
use multi_brand_invoicing.Store.{
  Database, Invoice, Payment, RowId, Text, World, fetch_found, fetch_missing, invoice_not_found,
}
use multi_brand_invoicing.Payments.Types.{Gateway, WebhookEvent, or_status}
use multi_brand_invoicing.Payments.Sound.{IsSound, IsSoundRow, apply_settlement-IsSound}
use multi_brand_invoicing.Payments.Webhook.{
  apply_event, attribute, handle_webhook, resolve_event, webhook_settlement,
}
use multi_brand_invoicing.Payments.Delivery.{
  apply_event_cases, apply_event_dropped, deliver_event_lem,
}

-- The status that a sound invoice names for its return, its own where it names none.
pub or_status-IsOpen :
    (i : Invoice)
    → IsSound i
    → IsOpen (or_status i.previous_status i.status) ⊎ (i.status ≢ pending_payment)
or_status-IsOpen i h = elim h.returns [
  | inl nowhere ↦ elim (pending_or_not i.status) [
    | inl e ↦ inl (rw (nowhere, e) (inr (inr (inl refl))))
    | inr n ↦ inr n
  ]
  | inr (s, e, o) ↦ inl (rw e o)
]
  where
    pending_or_not : (s : InvoiceStatus) → (s ≡ pending_payment) ⊎ (s ≢ pending_payment)
    pending_or_not s = ground arith

module _ (D : Database) (G : Gateway) where
  open D use {Db, find_invoice, payment_by_reference}

  -- Every invoice row of a database is sound.
  abbrev pub AllSound : Db → Type 0
  AllSound d = (j : RowId) → IsSoundRow (find_invoice j d)

  apply_event-IsSound :
      (brand_id : Option RowId) (event : WebhookEvent) (k : RowId) (p : Payment) (i : Invoice)
      (w : World Db)
      → find_invoice p.invoice_id w.db ≡ some i
      → AllSound w.db
      → AllSound (apply_event D G brand_id event k p i w).1.db
  apply_event-IsSound brand_id event k p i w found h =
      let sound : IsSound i = rw found at (h p.invoice_id) in
      elim (apply_event_cases D G brand_id event k p i w) [
        | inl d ↦ rw (apply_event_dropped D G brand_id event k p i w d) h
        | inr e ↦
            rw (e, deliver_event_lem D G event k p i w)
              (apply_settlement-IsSound D (webhook_settlement k p i event) w
                (or_status-IsOpen i sound) h)
      ]

  resolve_event-IsSound :
      (brand_id : Option RowId) (event : WebhookEvent) (w : World Db)
      → AllSound w.db
      → AllSound (resolve_event D G brand_id event w).1.db
  unfolding resolve_event
  resolve_event-IsSound brand_id event w h =
      elim (Option-cases (payment_by_reference event.gateway_reference w.db)) [
        | inl e ↦ rw e h
        | inr ((k, p), e) ↦ rw e (elim (Option-cases (find_invoice p.invoice_id w.db)) [
          | inl gone ↦
              rw
                (fetch_missing invoice_not_found (find_invoice p.invoice_id)
                  (apply_event D G brand_id event k p) w gone)
                h
          | inr (i, found) ↦
              rw
                (fetch_found invoice_not_found (find_invoice p.invoice_id)
                  (apply_event D G brand_id event k p) w found)
                (apply_event-IsSound brand_id event k p i w found h)
        ])
      ]

  -- Whatever the request, the webhook handler keeps every invoice row sound: paid means no balance,
  -- and the status to return to is one in which money is awaited.
  pub handle_webhook-IsSound :
      (request : Text) (brand_id : Option RowId) (w : World Db)
      → AllSound w.db
      → AllSound (handle_webhook D G request brand_id w).1.db
  unfolding handle_webhook
  handle_webhook-IsSound request brand_id w h =
      elim (Bool-cases (G.verify_signature request brand_id)) [
        | inr unsigned ↦ rw unsigned h
        | inl signed ↦
            rw signed
              (elim (Option-cases
                (attribute G.resolve_brand_id brand_id (G.parse_webhook request brand_id))) [
                  | inl nobody ↦ rw nobody h
                  | inr (b, e) ↦
                      rw e (resolve_event-IsSound b (G.parse_webhook request brand_id) w h)
                ])
      ]
