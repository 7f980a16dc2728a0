-- ===== src/Store/Memory.antt =====
-- A database in memory: tables as association lists. It meets the laws, and runs in the tests.
use mathlib.Core.Option
use multi_brand_invoicing.Prelude.{
  Bool, List, Option, [], arith, false, if◌then◌else◌, none, refl, some, ◌+◌, ◌==◌, ◌∷◌, ◌≡◌, ◌≤◌,
}
use multi_brand_invoicing.Store.Client.{Database}
use multi_brand_invoicing.Chars.{Chars}
use multi_brand_invoicing.Store.Rows.{
  BrandSettings, CheckSubmission, Customer, Invoice, InvoiceEvent, Payment, RowId, Text,
}

abbrev Table : Type 0 → Type 0
Table V = List (RowId × V)

module _ {V : Type 0} where
  abbrev find : RowId → Table V → Option V
  find k [] = none
  find k ((j, v) ∷ t) = if j == k then some v else find k t

  abbrev patch : RowId → (V → V) → Table V → Table V
  patch k f [] = []
  patch k f ((j, v) ∷ t) = if j == k then (j, f v) ∷ t else (j, v) ∷ patch k f t

  -- The first row, in the order of the keys `ks`, that passes the test.
  abbrev find_where : (V → Bool) → Table V → Table V → Option (RowId × V)
  find_where p full [] = none
  find_where p full ((j, _) ∷ ks) =
      let rest = find_where p full ks in
      elim (find j full) [ some v ↦ (if p v then some (j, v) else rest) | none ↦ rest ]

  -- A number above every key.
  abbrev fresh : Table V → RowId
  fresh [] = 0
  fresh ((j, v) ∷ t) = j + 1 + fresh t

  pub find-patch :
      (i j : RowId) (f : V → V) (t : Table V)
      → find j (patch i f t) ≡ (if i == j then Option.map f (find j t) else find j t)
  find-patch i j f [] = ground arith
  find-patch i j f ((k, v) ∷ t) = ground (arith, find-patch i j f t)

  pub find-find_where :
      (p : V → Bool) (full ks : Table V) (i : RowId) (v : V)
      → find_where p full ks ≡ some (i, v)
      → find i full ≡ some v
  find-find_where p full [] i v h = cc
  find-find_where p full ((j, _) ∷ ks) i v h = ground (arith, find-find_where p full ks i v)

  pub find-head : (k : RowId) (v : V) (t : Table V) → find k ((k, v) ∷ t) ≡ some v
  find-head k v t = ground arith

  -- A key that is not below the next one is no row's.
  find_unused : (t : Table V) (k : RowId) → fresh t ≤ k → find k t ≡ none
  find_unused [] k h = refl
  find_unused ((j, v) ∷ t) k h =
      let other_key : (j == k) ≡ false = ground (arith, h) in
      rw other_key (find_unused t k (omega (arith, h)))

  pub find-none : (t : Table V) → find (fresh t) t ≡ none
  find-none t = find_unused t (fresh t) (omega arith)

  pub find-fresh : (t : Table V) (v : V) → find (fresh t) ((fresh t, v) ∷ t) ≡ some v
  find-fresh t v = ground arith

pub record Tables : Type 0 where
  pub invoices : Table Invoice
  pub payments : Table Payment
  pub log : List InvoiceEvent
  pub settings : Table BrandSettings
  pub submissions : Table CheckSubmission
  pub customers : Table Customer

abbrev has_key : Text → Payment → Bool
has_key k p = p.idempotency_key == k

abbrev has_reference : Text → Payment → Bool
has_reference r p = elim p.gateway_reference [ none ↦ false | some g ↦ g == r ]

abbrev has_token : Text → Invoice → Bool
has_token t i = i.public_token == t

abbrev numbers_of : RowId → Table Invoice → List Chars
numbers_of b [] = []
numbers_of b ((_, i) ∷ t) = if i.brand_id == b then i.number ∷ numbers_of b t else numbers_of b t

abbrev pub memory : Database
memory = record {
  Db = Tables;
  find_invoice = λ i d. find i d.invoices;
  find_payment = λ i d. find i d.payments;
  payment_by_key = λ k d. find_where (has_key k) d.payments d.payments;
  payment_by_reference = λ r d. find_where (has_reference r) d.payments d.payments;
  find_settings = λ b d. find b d.settings;
  find_submission = λ i d. find i d.submissions;
  find_customer = λ i d. find i d.customers;
  invoice_by_token = λ t d. find_where (has_token t) d.invoices d.invoices;
  invoice_numbers = λ b d. numbers_of b d.invoices;
  events = λ d. d.log;
  update_invoice = λ i f d. record d { invoices = patch i f d.invoices };
  update_payment = λ i f d. record d { payments = patch i f d.payments };
  create_payment =
      λ p d. (fresh d.payments, record d { payments = (fresh d.payments, p) ∷ d.payments });
  create_event = λ e d. record d { log = e ∷ d.log };
  update_submission = λ i f d. record d { submissions = patch i f d.submissions };
  create_invoice =
      λ i d. (fresh d.invoices, record d { invoices = (fresh d.invoices, i) ∷ d.invoices });
  create_submission = λ k s d. record d { submissions = (k, s) ∷ d.submissions };
  update_settings = λ b f d. record d { settings = patch b f d.settings };
  find_invoice-update_invoice = λ i j f d. find-patch i j f d.invoices;
  find_invoice-update_payment = λ i j f d. refl;
  find_invoice-create_payment = λ j p d. refl;
  find_invoice-create_event = λ j e d. refl;
  find_payment-update_payment = λ i j f d. find-patch i j f d.payments;
  find_payment-update_invoice = λ i j f d. refl;
  find_payment-create_payment = λ p d. find-fresh d.payments p;
  find_payment_unused = λ p d. find-none d.payments;
  find_payment-create_event = λ j e d. refl;
  find_invoice-update_submission = λ i j f d. refl;
  find_submission-update_submission = λ i j f d. find-patch i j f d.submissions;
  find_submission-update_invoice = λ i j f d. refl;
  find_submission-create_payment = λ j p d. refl;
  find_submission-create_event = λ j e d. refl;
  find_invoice-create_invoice = λ i d. find-fresh d.invoices i;
  invoice_numbers-create_invoice = λ b i d. refl;
  invoice_numbers-update_settings = λ b c f d. refl;
  find_settings-update_settings = λ i j f d. find-patch i j f d.settings;
  find_settings-create_invoice = λ j i d. refl;
  find_settings-update_invoice = λ i j f d. refl;
  find_settings-create_event = λ j e d. refl;
  events-create_event = λ e d. refl;
  events-update_invoice = λ i f d. refl;
  find_invoice-create_submission = λ j k s d. refl;
  find_submission-create_submission = λ k s d. find-head k s d.submissions;
  find_invoice_of_token = λ t i v d h. find-find_where (has_token t) d.invoices d.invoices i v h;
  find_payment_of_reference =
      λ r i p d h. find-find_where (has_reference r) d.payments d.payments i p h;
}
