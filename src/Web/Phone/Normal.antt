-- ===== src/Web/Phone/Normal.antt =====
-- The normal form of a phone number.
use pooli.Base.{
  true, ◌||◌, [], ◌∷◌, ◌++◌, some, Text, codes, is_digit, every, keep, length, starts_with, ◌==◌,
  Bool-cases, ◌≡◌, refl, ap, ◌∙◌, inl, inr, arith,
}
use pooli.Web.Phone.{is_national, national_of, normalize_iranian_phone}

keep-digits : (s : Text) → every is_digit s ≡ true → keep (λ c. is_digit c || c == b'+') s ≡ s
unfolding every keep
keep-digits [] h = refl
keep-digits (c ∷ s) h =
    let digit : is_digit c ≡ true = ground arith in
    rw digit (ap (λ t. c ∷ t) (keep-digits s (ground arith)))

national_of-normal : (s : Text) → is_national s ≡ true → national_of (codes "+98" ++ s) ≡ s
unfolding keep starts_with
national_of-normal [] h = cc
national_of-normal (c ∷ s) h =
    let nine : c ≡ b'9' = ground arith in
    let digits : every is_digit s ≡ true = ground arith in rw (nine, keep-digits s digits) refl

national-length : (s : Text) → is_national s ≡ true → length (codes "+98" ++ s) ≡ 13
national-length [] h = cc
national-length (c ∷ s) h = let nine : length s ≡ 9 = ground arith in omega (arith, nine)

-- A normalised phone number has 13 characters, and normalising it again gives it unchanged.
pub normalize_iranian_phone_idempotent :
    (input number : Text)
    → normalize_iranian_phone input ≡ some number
    → (length number ≡ 13) × (normalize_iranian_phone number ≡ some number)
unfolding normalize_iranian_phone
normalize_iranian_phone_idempotent input number h =
    elim (Bool-cases (is_national (national_of input))) [
      | inr refused ↦ absurd (ground arith)
      | inl good ↦
          let e : number ≡ codes "+98" ++ national_of input = ground arith in
          (
            ap length e ∙ national-length (national_of input) good,
            rw (e, national_of-normal (national_of input) good, good) refl,
          )
    ]
