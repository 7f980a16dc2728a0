-- ===== src/UsPhone/Normal.antt =====
-- What `normalizeUsPhone` returns.
use multi_brand_invoicing.Prelude.{
  Bool, Bool-cases, Option, [], all, ap, arith, false, if◌then◌else◌, inl, inr, length, none, not,
  refl, some, true, ℕ, ◌&&◌, ◌==◌, ◌||◌, ◌∙◌, ◌∷◌, ◌≡◌, ◌⊎◌,
}
use multi_brand_invoicing.Chars.{Chars, is_digit, is_empty, is_space, trim, trim_end, trim_start}
use multi_brand_invoicing.Chars.Laws.{digits-plain, trim_end_plain}
use multi_brand_invoicing.UsPhone.{
  digits_of, e164_of, has_phone_form, is_phone_char, matches_nanp, national_of, normalize_trimmed,
  normalize_us_phone, starts_with, without_country,
}

-- +1 and ten digits of the plan.
abbrev pub IsE164 : Chars → Chars → Type 0
IsE164 n y = (matches_nanp n ≡ true) × (y ≡ b'+' ∷ b'1' ∷ n)

matches_nanp-digits :
    (n : Chars) → matches_nanp n ≡ true → (all is_digit n ≡ true) × (length n ≡ 10)
matches_nanp-digits [] h = ground arith
matches_nanp-digits (a ∷ []) h = ground arith
matches_nanp-digits (a ∷ b ∷ []) h = ground arith
matches_nanp-digits (a ∷ b ∷ c ∷ []) h = ground arith
matches_nanp-digits (a ∷ b ∷ c ∷ d ∷ n) h = ground arith

e164_of-IsE164 :
    (o : Option Chars) (y : Chars) → e164_of o ≡ some y → (n : Chars) × (o ≡ some n) × IsE164 n y
unfolding e164_of
e164_of-IsE164 none y h = ground arith
e164_of-IsE164 (some n) y h = elim (Bool-cases (matches_nanp n)) [
  | inl good ↦ (n, refl, (good, ground (arith, good)))
  | inr bad ↦ ground (arith, bad)
]

digits_of-all : (s : Chars) → all is_digit s ≡ true → digits_of s ≡ s
unfolding digits_of
digits_of-all [] h = refl
digits_of-all (c ∷ s) h = ground (arith, digits_of-all s)

digits-phone : (s : Chars) → all is_digit s ≡ true → all is_phone_char s ≡ true
digits-phone [] h = refl
digits-phone (c ∷ s) h = ground (arith, digits-phone s)

digits_of-trim_start : (s : Chars) → digits_of (trim_start s) ≡ digits_of s
unfolding digits_of trim_start
digits_of-trim_start [] = refl
digits_of-trim_start (c ∷ s) = ground (arith, digits_of-trim_start s)

space_not_digit : (c : ℕ) → is_space c ≡ true → is_digit c ≡ false
space_not_digit c h = ground arith

digits_of_end :
    (c : ℕ) (s t : Chars)
    → digits_of t ≡ digits_of s
    → digits_of (if is_empty t && is_space c then [] else c ∷ t) ≡ digits_of (c ∷ s)
unfolding digits_of
digits_of_end c s [] h = elim (Bool-cases (is_space c)) [
  | inl blank ↦ rw (blank, space_not_digit c blank) h
  | inr shown ↦ ground (arith, shown, h)
]
digits_of_end c s (d ∷ t) h = rw⁻¹ h refl

digits_of-trim_end : (s : Chars) → digits_of (trim_end s) ≡ digits_of s
unfolding digits_of trim_end
digits_of-trim_end [] = refl
digits_of-trim_end (c ∷ s) = digits_of_end c s (trim_end s) (digits_of-trim_end s)

trim_end_shown : (c : ℕ) (s : Chars) → is_space c ≡ false → trim_end (c ∷ s) ≡ c ∷ trim_end s
unfolding trim_end
trim_end_shown c s h = ground (arith, h)

trim_E164 : (n : Chars) → all is_digit n ≡ true → trim (b'+' ∷ b'1' ∷ n) ≡ b'+' ∷ b'1' ∷ n
unfolding trim trim_start
trim_E164 n h =
    trim_end_shown b'+' (b'1' ∷ n) refl
    ∙ ap (λ t. b'+' ∷ t)
        (trim_end_shown b'1' n refl ∙ ap (λ t. b'1' ∷ t) (trim_end_plain n (digits-plain n h)))

-- A number that is normal already is accepted and stays as it is.
kept_E164 :
    (n : Chars)
    → matches_nanp n ≡ true
    → normalize_us_phone (b'+' ∷ b'1' ∷ n) ≡ some (b'+' ∷ b'1' ∷ n)
unfolding normalize_us_phone normalize_trimmed has_phone_form digits_of national_of e164_of
kept_E164 n h =
    let (d, ten) = matches_nanp-digits n h in
    rw (trim_E164 n d, digits-phone n d, digits_of-all n d, ten, h) refl

digits_of-trim : (s : Chars) → digits_of (trim s) ≡ digits_of s
unfolding trim
digits_of-trim s = digits_of-trim_end (trim_start s) ∙ digits_of-trim_start s

without_country-digits : (d n : Chars) → without_country d ≡ some n → d ≡ b'1' ∷ n
without_country-digits [] n h = ground arith
without_country-digits (c ∷ d) n h = ground arith

national_of-digits :
    (plus : Bool) (d n : Chars) → national_of plus d ≡ some n → (d ≡ n) ⊎ (d ≡ b'1' ∷ n)
unfolding national_of
national_of-digits true d n h = inr (without_country-digits d n h)
national_of-digits false d n h = elim (Bool-cases (length d == 11)) [
  | inl eleven ↦ inr (without_country-digits d n (ground (arith, eleven)))
  | inr fewer ↦ inl (ground (arith, fewer))
]

normalize_trimmed-IsE164 :
    (s y : Chars)
    → normalize_trimmed s ≡ some y
    → (n : Chars) × ((digits_of s ≡ n) ⊎ (digits_of s ≡ b'1' ∷ n)) × IsE164 n y
unfolding normalize_trimmed
normalize_trimmed-IsE164 s y h = elim (Bool-cases (is_empty s || not (has_phone_form s))) [
  | inl bad ↦ ground (arith, bad)
  | inr good ↦
      let (n, national, e) =
        e164_of-IsE164 (national_of (starts_with b'+' s) (digits_of s)) y (ground (arith, good)) in
      (n, national_of-digits (starts_with b'+' s) (digits_of s) n national, e)
]

-- A text that `normalizeUsPhone` accepts: the result is +1 with ten digits of the plan, which are the
-- digits of the text, without a country code 1 before them; and the result is accepted in its turn and
-- stays as it is.
pub normalize_us_phone-IsE164 :
    (input y : Chars)
    → normalize_us_phone input ≡ some y
    → ((n : Chars) × ((digits_of input ≡ n) ⊎ (digits_of input ≡ b'1' ∷ n)) × IsE164 n y)
      × (normalize_us_phone y ≡ some y)
unfolding normalize_us_phone
normalize_us_phone-IsE164 input y h =
    let (n, digits, (plan, e)) = normalize_trimmed-IsE164 (trim input) y h in
    ((n, rw (digits_of-trim input) at digits, (plan, e)), rw e (kept_E164 n plan))
