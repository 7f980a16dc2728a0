-- ===== src/Invoices/Creation/Distinct.antt =====
-- No two invoices of a brand get the same number from `create`.
use multi_brand_invoicing.Prelude.{
  Bool-cases, List, [], any, arith, err, false, inl, inr, refl, some, ℕ, ◌+◌, ◌<◌, ◌∙◌, ◌∷◌, ◌≡◌,
  ◌≢◌, ◌≤◌,
}
use multi_brand_invoicing.Chars.{Chars, same_chars}
use multi_brand_invoicing.Invoices.Drafts.{InvoiceDraftInput, number_text}
use multi_brand_invoicing.Invoices.Creation.{create, take_number}
use multi_brand_invoicing.Invoices.Creation.Numbers.{number_text-ne, same_chars-eq}
use multi_brand_invoicing.Invoices.Creation.Created.{create-Reads_or_keeps}
use multi_brand_invoicing.Invoices.Creation.Numbered.{
  create_outcome, create_unstorable, is_storable,
}
use multi_brand_invoicing.Store.{BrandSettings, Database, RowId, Text, World, number_collision}

-- Numbers of the places before `next`, no two of them equal.
abbrev pub AreNumbered : ℕ → List Chars → Type 0
AreNumbered next [] = Unit
AreNumbered next (n ∷ rest) =
    ((prefix : Chars) × (place : ℕ) × (n ≡ number_text prefix place) × (place < next))
    × (any (same_chars n) rest ≡ false)
    × AreNumbered next rest

AreNumbered-le : (n m : ℕ) (l : List Chars) → n ≤ m → AreNumbered n l → AreNumbered m l
AreNumbered-le n m [] h a = tt
AreNumbered-le n m (x ∷ l) h ((prefix, place, e, p), fresh, rest) =
    ((prefix, place, e, omega arith), fresh, AreNumbered-le n m l h rest)

-- A number of a later place is not among them.
AreNumbered-fresh :
    (next place : ℕ) (prefix : Chars) (l : List Chars)
    → next ≤ place
    → AreNumbered next l
    → any (same_chars (number_text prefix place)) l ≡ false
AreNumbered-fresh next place prefix [] h a = refl
AreNumbered-fresh next place prefix (x ∷ l) h ((q, k, e, p), fresh, rest) =
    elim (Bool-cases (same_chars (number_text prefix place) x)) [
      | inl same ↦ absurd (
          number_text-ne prefix q place k (omega arith)
            (same_chars-eq (number_text prefix place) x same ∙ e))
      | inr differs ↦ rw (differs, AreNumbered-fresh next place prefix l h rest) refl
    ]

module _ (D : Database) where
  open D use {Db, find_settings, invoice_numbers}

  -- The brand's numbers are of places that the sequence has passed, and no two are equal.
  abbrev pub IsNumbered : RowId → Db → Type 0
  IsNumbered brand_id d =
      (s : BrandSettings) × (find_settings brand_id d ≡ some s)
      × AreNumbered s.next_sequence (invoice_numbers brand_id d)

  -- In a brand whose invoices have numbers of earlier places, no two of them equal, `create` of any
  -- draft never reports a collision, and leaves the brand so, whether it returns or throws.
  pub create-IsNumbered :
      (brand_id : RowId) (input : InvoiceDraftInput) (token : Text) (w : World Db)
      → IsNumbered brand_id w.db
      → ((create D brand_id input token w).0 ≢ err number_collision)
        × IsNumbered brand_id (create D brand_id input token w).1.db
  create-IsNumbered brand_id input token w (s, settings, numbers) =
      elim (create-Reads_or_keeps D brand_id input token w) [
        | inl (e, differs, run) ↦ rw run ((λ p. differs (ground arith)), (s, settings, numbers))
        | inr (c, lines, r, reads) ↦
            let fresh =
              AreNumbered-fresh s.next_sequence s.next_sequence s.invoice_prefix
                (invoice_numbers brand_id w.db) (omega arith) numbers in
            elim (Bool-cases (is_storable lines r)) [
              | inr unfit ↦
                  rw
                    (create_unstorable D brand_id input token s c lines r w reads settings fresh
                      unfit)
                    ((λ p. ground arith), (s, settings, numbers))
              | inl fits ↦
                  let (id, i, result, _, _, after, now, _) =
                    create_outcome D brand_id input token s c lines r w reads settings fresh fits in
                  (
                    rw result (λ p. ground arith),
                    (
                      take_number s,
                      after,
                      rw now (
                        (s.invoice_prefix, s.next_sequence, refl, omega arith),
                        fresh,
                        AreNumbered-le s.next_sequence (s.next_sequence + 1)
                            (invoice_numbers brand_id w.db) (omega arith) numbers,
                      ),
                    ),
                  )
            ]
      ]
