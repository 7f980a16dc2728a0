-- ===== src/Store/Client.antt =====
-- The database client and the job queue, which are not the program's own: an interface of the
-- queries and writes that the services make, with the laws that they rely on.
use mathlib.Core.Option
use multi_brand_invoicing.Prelude.{
  List, Option, Result, [], ap, err, if◌then◌else◌, none, ok, some, ◌++◌, ◌==◌, ◌∷◌, ◌≡◌,
}
use multi_brand_invoicing.Chars.{Chars}
use multi_brand_invoicing.Store.Rows.{
  BrandSettings, CheckSubmission, Customer, Invoice, InvoiceEvent, Payment, RowId, Text,
}
use multi_brand_invoicing.Store.Actions.{Action, Failure, ◌>>=◌}

-- A write to a row that is not there changes nothing. The laws say what a query finds after a write;
-- a query that no law names against a write is not relied on after it.
pub record Database : Type 1 where
  pub Db : Type 0
  pub find_invoice : RowId → Db → Option Invoice
  pub find_payment : RowId → Db → Option Payment
  pub payment_by_key : Text → Db → Option (RowId × Payment)
  pub payment_by_reference : Text → Db → Option (RowId × Payment)
  pub find_settings : RowId → Db → Option BrandSettings
  pub find_submission : RowId → Db → Option CheckSubmission
  pub find_customer : RowId → Db → Option Customer
  pub invoice_by_token : Text → Db → Option (RowId × Invoice)
  pub invoice_numbers : RowId → Db → List Chars
  pub events : Db → List InvoiceEvent
  pub update_invoice : RowId → (Invoice → Invoice) → Db → Db
  pub update_payment : RowId → (Payment → Payment) → Db → Db
  pub create_payment : Payment → Db → RowId × Db
  pub create_event : InvoiceEvent → Db → Db
  pub update_submission : RowId → (CheckSubmission → CheckSubmission) → Db → Db
  pub create_invoice : Invoice → Db → RowId × Db
  pub create_submission : RowId → CheckSubmission → Db → Db
  pub update_settings : RowId → (BrandSettings → BrandSettings) → Db → Db
  pub find_invoice-update_invoice :
      (i j : RowId) (f : Invoice → Invoice) (d : Db)
      → find_invoice j (update_invoice i f d)
        ≡ (if i == j then Option.map f (find_invoice j d) else find_invoice j d)
  pub find_invoice-update_payment :
      (i j : RowId) (f : Payment → Payment) (d : Db)
      → find_invoice j (update_payment i f d) ≡ find_invoice j d
  pub find_invoice-create_payment :
      (j : RowId) (p : Payment) (d : Db) → find_invoice j (create_payment p d).1 ≡ find_invoice j d
  pub find_invoice-create_event :
      (j : RowId) (e : InvoiceEvent) (d : Db) → find_invoice j (create_event e d) ≡ find_invoice j d
  pub find_payment-update_payment :
      (i j : RowId) (f : Payment → Payment) (d : Db)
      → find_payment j (update_payment i f d)
        ≡ (if i == j then Option.map f (find_payment j d) else find_payment j d)
  pub find_payment-update_invoice :
      (i j : RowId) (f : Invoice → Invoice) (d : Db)
      → find_payment j (update_invoice i f d) ≡ find_payment j d
  pub find_payment-create_payment :
      (p : Payment) (d : Db) → find_payment (create_payment p d).0 (create_payment p d).1 ≡ some p
  pub find_payment_unused : (p : Payment) (d : Db) → find_payment (create_payment p d).0 d ≡ none
  pub find_payment-create_event :
      (j : RowId) (e : InvoiceEvent) (d : Db) → find_payment j (create_event e d) ≡ find_payment j d
  pub find_invoice-update_submission :
      (i j : RowId) (f : CheckSubmission → CheckSubmission) (d : Db)
      → find_invoice j (update_submission i f d) ≡ find_invoice j d
  pub find_submission-update_submission :
      (i j : RowId) (f : CheckSubmission → CheckSubmission) (d : Db)
      → find_submission j (update_submission i f d)
        ≡ (if i == j then Option.map f (find_submission j d) else find_submission j d)
  pub find_submission-update_invoice :
      (i j : RowId) (f : Invoice → Invoice) (d : Db)
      → find_submission j (update_invoice i f d) ≡ find_submission j d
  pub find_submission-create_payment :
      (j : RowId) (p : Payment) (d : Db)
      → find_submission j (create_payment p d).1 ≡ find_submission j d
  pub find_submission-create_event :
      (j : RowId) (e : InvoiceEvent) (d : Db)
      → find_submission j (create_event e d) ≡ find_submission j d
  pub find_invoice-create_invoice :
      (i : Invoice) (d : Db) → find_invoice (create_invoice i d).0 (create_invoice i d).1 ≡ some i
  pub invoice_numbers-create_invoice :
      (b : RowId) (i : Invoice) (d : Db)
      → invoice_numbers b (create_invoice i d).1
        ≡ (if i.brand_id == b then i.number ∷ invoice_numbers b d else invoice_numbers b d)
  pub invoice_numbers-update_settings :
      (b c : RowId) (f : BrandSettings → BrandSettings) (d : Db)
      → invoice_numbers b (update_settings c f d) ≡ invoice_numbers b d
  pub find_settings-update_settings :
      (i j : RowId) (f : BrandSettings → BrandSettings) (d : Db)
      → find_settings j (update_settings i f d)
        ≡ (if i == j then Option.map f (find_settings j d) else find_settings j d)
  pub find_settings-create_invoice :
      (j : RowId) (i : Invoice) (d : Db)
      → find_settings j (create_invoice i d).1 ≡ find_settings j d
  pub find_settings-update_invoice :
      (i j : RowId) (f : Invoice → Invoice) (d : Db)
      → find_settings j (update_invoice i f d) ≡ find_settings j d
  pub find_settings-create_event :
      (j : RowId) (e : InvoiceEvent) (d : Db)
      → find_settings j (create_event e d) ≡ find_settings j d
  pub events-create_event : (e : InvoiceEvent) (d : Db) → events (create_event e d) ≡ e ∷ events d
  pub events-update_invoice :
      (i : RowId) (f : Invoice → Invoice) (d : Db) → events (update_invoice i f d) ≡ events d
  pub find_invoice-create_submission :
      (j k : RowId) (s : CheckSubmission) (d : Db)
      → find_invoice j (create_submission k s d) ≡ find_invoice j d
  pub find_submission-create_submission :
      (k : RowId) (s : CheckSubmission) (d : Db)
      → find_submission k (create_submission k s d) ≡ some s
  pub find_invoice_of_token :
      (t : Text) (i : RowId) (v : Invoice) (d : Db)
      → invoice_by_token t d ≡ some (i, v)
      → find_invoice i d ≡ some v
  pub find_payment_of_reference :
      (r : Text) (i : RowId) (p : Payment) (d : Db)
      → payment_by_reference r d ≡ some (i, p)
      → find_payment i d ≡ some p

-- The jobs of the sync queue.
pub data Job : Type 0 where
  zoho_push_payment : (brand_id payment_id : RowId) → Job
  zoho_push_invoice : (brand_id invoice_id : RowId) → Job

-- What a service acts on. The queue holds the jobs in the order in which they were enqueued.
pub record World (Db : Type 0) : Type 0 where
  pub db : Db
  pub jobs : List Job

module _ {Db A : Type 0} where
  -- PrismaService.withScope: a throw takes the database back, and not the queue.
  abbrev pub with_scope : Action (World Db) A → Action (World Db) A
  with_scope work w =
      let (r, w') = work w in
      elim r [ ok a ↦ (ok a, w') | err e ↦ (err e, record w' { db = w.db }) ]

  abbrev pub query : (Db → A) → Action (World Db) A
  query f w = (ok (f w.db), w)

  -- A query whose missing row is thrown: `const row = await …; if (!row) throw e;`
  abbrev pub fetch : Failure → (Db → Option A) → Action (World Db) A
  fetch e f w = elim (f w.db) [ none ↦ (err e, w) | some a ↦ (ok a, w) ]

  -- A write that returns something.
  abbrev pub write : (Db → A × Db) → Action (World Db) A
  write f w = let (a, d) = f w.db in (ok a, record w { db = d })

module _ {Db : Type 0} where
  abbrev pub change : (Db → Db) → Action (World Db) (Unit {0})
  change f w = (ok tt, record w { db = f w.db })

  -- QueueService.enqueue
  abbrev pub enqueue : Job → Action (World Db) (Unit {0})
  enqueue job w = (ok tt, record w { jobs = w.jobs ++ job ∷ [] })

  abbrev pub enqueue_all : List Job → Action (World Db) (Unit {0})
  enqueue_all js w = (ok tt, record w { jobs = w.jobs ++ js })

-- A query at the head of a block, when its row is found and when it is not.
module _ {Db A B : Type 0} (e : Failure) (f : Db → Option A) (k : A → Action (World Db) B)
    (w : World Db) where
  abbrev after_row : Option A → Result Failure B × World Db
  after_row o =
      ((λ (v : World Db).
            let r : Result Failure A × World Db = elim o [
              | none ↦ (err e, v)
              | some a ↦ (ok a, v)
            ] in
            r)
          >>= k)
        w

  pub fetch_found : {a : A} → f w.db ≡ some a → (fetch e f >>= k) w ≡ k a w
  fetch_found h = ap after_row h

  pub fetch_missing : f w.db ≡ none → (fetch e f >>= k) w ≡ (err e, w)
  fetch_missing h = ap after_row h

-- A transaction at the head of a block, when its work returns and when it throws.
module _ {Db A B : Type 0} (work : Action (World Db) A) (k : A → Action (World Db) B)
    (w w' : World Db) where
  abbrev after_scope : Result Failure A × World Db → Result Failure B × World Db
  after_scope r = (with_scope (λ v. let s : Result Failure A × World Db = (r.0, r.1) in s) >>= k) w

  pub scope_returned : {a : A} → work w ≡ (ok a, w') → (with_scope work >>= k) w ≡ k a w'
  scope_returned h = ap after_scope h

  pub scope_threw :
      {e : Failure}
      → work w ≡ (err e, w')
      → (with_scope work >>= k) w ≡ (err e, record w' { db = w.db })
  scope_threw h = ap after_scope h
