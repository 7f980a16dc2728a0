-- ===== src/Prelude/Outcome.antt =====
-- A computation that returns or throws: `err e` is a throw of `e`.
use mathlib.Core.Path.{◌≡◌, refl}
use mathlib.Core.Logic.{◌⊎◌, inl, inr}
use mathlib.Core.Bool.{Bool, true, false}
use mathlib.Core.List.{List, [], ◌∷◌}

pub data Result {ℓ} (E : Type 0) (A : Type ℓ) : Type ℓ where
  ok : A → Result E A
  err : E → Result E A

-- `await`: what follows runs on what was returned, and a throw skips it.
infixl 5 ◌>>=◌ ◌>>◌
abbrev pub ◌>>=◌ {κ ℓ} :
    {E : Type 0} {B : Type κ} {A : Type ℓ} → Result E B → (B → Result E A) → Result E A
err thrown >>= next = err thrown
ok returned >>= next = next returned

abbrev pub ◌>>◌ {κ} : {E : Type 0} {A : Type κ} → Result E (Unit {0}) → Result E A → Result E A
step >> rest = step >>= λ _. rest

-- `if (c) throw e`
abbrev pub throw_if : {E : Type 0} → Bool → E → Result E (Unit {0})
throw_if true e = err e
throw_if false e = ok tt

-- `xs.map(f)` for an `f` that may throw.
abbrev pub traverse {ℓ κ} :
    {E : Type 0} {A : Type ℓ} {B : Type κ} → (A → Result E B) → List A → Result E (List B)
traverse f [] = ok []
traverse f (x ∷ xs) = f x >>= λ y. traverse f xs >>= λ ys. ok (y ∷ ys)

pub Result-cases {ℓ} :
    {E : Type 0} {A : Type ℓ} (r : Result E A) → ((a : A) × (r ≡ ok a)) ⊎ ((e : E) × (r ≡ err e))
Result-cases (ok a) = inl (a, refl)
Result-cases (err e) = inr (e, refl)
