-- ===== src/FakeGateway/Keys.antt =====
-- A key that was given an intent keeps it, whatever calls follow.
use multi_brand_invoicing.Prelude.{
  Bool-cases, Option, Option-cases, ap, arith, false, inl, inr, none, refl, some, ℕ, ◌==◌, ◌∙◌, ◌≡◌,
}
use multi_brand_invoicing.Prelude.Int.{ℤ}
use multi_brand_invoicing.Store.{Instant, Text}
use multi_brand_invoicing.Payments.Types.{CreateIntentInput}
use multi_brand_invoicing.FakeGateway.{
  GatewayState, Scenario, StoredIntent, capture, captured, change_intent, create_intent, create_new,
  decline, existing, get, new_intent, pending, put_intent, require, resolve_scenario, store,
  success, timeout, void, voided,
}

-- The calls of the gateway, from one state to another; a drawn reference is one that no intent has.
pub data Calls (first : GatewayState) : GatewayState → Type 0 where
  nothing : Calls first first
  creates :
      {g : GatewayState} (input : CreateIntentInput) (explicit : Option Scenario) (reference : Text)
      (now : Instant)
      → get reference g.by_reference ≡ none
      → Calls first g
      → Calls first (create_intent input explicit reference now g).1
  captures :
      {g : GatewayState} (reference : Text) (amount : Option ℤ) (now : Instant)
      → Calls first g
      → Calls first (capture reference amount now g).1
  voids :
      {g : GatewayState} (reference : Text) (now : Instant)
      → Calls first g
      → Calls first (void reference now g).1

-- The key leads to an intent of that reference.
abbrev pub Holds : Text → Text → GatewayState → Type 0
Holds key reference g =
    (get key g.by_idempotency_key ≡ some reference)
    × ((s : StoredIntent) × (get reference g.by_reference ≡ some s)
        × (s.intent.gateway_reference ≡ reference))

pub existing-Holds :
    (key reference : Text) (g : GatewayState)
    → (h : Holds key reference g) → existing key g ≡ some h.1.0
unfolding existing
existing-Holds key reference g (k, (s, r, e)) = rw (existing, k, r) refl

keys_differ : (a b : ℕ) → (a ≡ b → ⊥) → (a == b) ≡ false
keys_differ a b h = elim (Bool-cases (a == b)) [
  | inl same ↦ elim (h (ground (arith, same))) [ ]
  | inr another ↦ another
]

no_longer : {A : Type 0} → (o : Option A) (a : A) → o ≡ none → o ≡ some a → ⊥
no_longer none a n s = ground (arith, s)
no_longer (some b) a n s = ground (arith, n)

store-Holds :
    (key reference key' reference' : Text) (stored : StoredIntent) (g : GatewayState)
    → existing key' g ≡ none
    → get reference' g.by_reference ≡ none
    → Holds key reference g
    → Holds key reference (store key' reference' stored g)
unfolding get
store-Holds key reference key' reference' stored g new_key fresh (k, (s, r, e)) =
    let h = existing-Holds key reference g (k, (s, r, e)) in
    let other_key : (key' == key) ≡ false =
      keys_differ key' key (λ p. no_longer (existing key g) s (rw p at new_key) h) in
    let other_reference : (reference' == reference) ≡ false =
      keys_differ reference' reference
        (λ p. no_longer (get reference g.by_reference) s (rw p at fresh) r) in
    (rw other_key k, (s, rw other_reference r, e))

create_new-Holds :
    (key reference reference' : Text) (input : CreateIntentInput) (scenario : Scenario)
    (now : Instant) (g : GatewayState)
    → existing input.idempotency_key g ≡ none
    → get reference' g.by_reference ≡ none
    → Holds key reference g
    → Holds key reference (create_new input scenario reference' now g).1
unfolding create_new
create_new-Holds key reference r input timeout now g u f h = h
create_new-Holds key reference r input success now g u f h =
    store-Holds key reference input.idempotency_key r (new_intent input success r now) g u f h
create_new-Holds key reference r input decline now g u f h =
    store-Holds key reference input.idempotency_key r (new_intent input decline r now) g u f h
create_new-Holds key reference r input pending now g u f h =
    store-Holds key reference input.idempotency_key r (new_intent input pending r now) g u f h

create_intent-Holds :
    (key reference reference' : Text) (input : CreateIntentInput) (explicit : Option Scenario)
    (now : Instant) (g : GatewayState)
    → get reference' g.by_reference ≡ none
    → Holds key reference g
    → Holds key reference (create_intent input explicit reference' now g).1
unfolding create_intent
create_intent-Holds key reference r input explicit now g fresh h =
    elim (Option-cases (existing input.idempotency_key g)) [
      | inr (s, e) ↦ rw (create_intent, e) h
      | inl e ↦
          rw (create_intent, e)
            (create_new-Holds key reference r input (resolve_scenario explicit input.amount_minor)
              now g e fresh h)
    ]

put_intent-Holds :
    (key reference r : Text) (f : StoredIntent → StoredIntent) (stored : StoredIntent)
    (g : GatewayState)
    → ((s : StoredIntent) → (f s).intent.gateway_reference ≡ s.intent.gateway_reference)
    → get r g.by_reference ≡ some stored
    → Holds key reference g
    → Holds key reference (put_intent r (f stored) g)
unfolding get
put_intent-Holds key reference r f stored g same there (k, (s, found, e)) =
    elim (Bool-cases (r == reference)) [
      | inr another ↦ (k, (s, rw another found, e))
      | inl here ↦
          let p : r ≡ reference = ground (arith, here) in
          let q : stored ≡ s = ground (arith, rw p at there, found) in
          (
            k,
            (
              f stored,
              rw here refl,
              same stored ∙ ap (λ (x : StoredIntent). x.intent.gateway_reference) q ∙ e,
            ),
          )
    ]

change_intent-Holds :
    (key reference reference' : Text) (f : StoredIntent → StoredIntent) (g : GatewayState)
    → ((s : StoredIntent) → (f s).intent.gateway_reference ≡ s.intent.gateway_reference)
    → Holds key reference g
    → Holds key reference (change_intent reference' f g).1
unfolding change_intent require get
change_intent-Holds key reference r f g same (k, (s, found, e)) =
    elim (Option-cases (get r g.by_reference)) [
      | inl none_there ↦ rw (change_intent, none_there) (k, (s, found, e))
      | inr (stored, there) ↦
          rw (change_intent, there)
            (put_intent-Holds key reference r f stored g same there (k, (s, found, e)))
    ]

pub Calls-Holds :
    (key reference : Text) (first last : GatewayState)
    → Calls first last
    → Holds key reference first
    → Holds key reference last
unfolding capture void
Calls-Holds key reference first last nothing h = h
Calls-Holds key reference first last (creates {g} input explicit r now fresh calls) h =
    create_intent-Holds key reference r input explicit now g fresh
      (Calls-Holds key reference first g calls h)
Calls-Holds key reference first last (captures {g} r amount now calls) h =
    change_intent-Holds key reference r (captured amount now) g (λ s. refl)
      (Calls-Holds key reference first g calls h)
Calls-Holds key reference first last (voids {g} r now calls) h =
    change_intent-Holds key reference r (voided now) g (λ s. refl)
      (Calls-Holds key reference first g calls h)
