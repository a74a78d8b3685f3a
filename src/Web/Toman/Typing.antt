-- ===== src/Web/Toman/Typing.antt =====
-- An amount of toman that is formatted while it is typed, in apps/web/src/lib/toman.ts.
use pooli.Base.{
  ◌%◌, true, false, not, ◌&&◌, [], ◌∷◌, keep, every, length, Text, is_digit, is_empty, ltb, ◌==◌,
  Bool-cases, inl, inr, ◌≡◌, refl, sym, ap, ◌∙◌, arith,
}
use pooli.Base.Decimal.{decimal, number_from, number_from-decimal}
use pooli.Base.Decimal.Digits.{every-decimal, is_empty-decimal, empty-eq}
use pooli.Web.Toman.{
  latin_digit, to_latin_digits, group_thousands, format_toman_input, parse_toman_input,
  is_valid_toman_amount,
}

-- The digits of a text, in whichever script
digits : Text → Text
unfolding to_latin_digits
digits s = keep is_digit (to_latin_digits s)

keep-commas : (s : Text) → keep is_digit (keep (λ c. not (c == b',')) s) ≡ keep is_digit s
unfolding keep
keep-commas [] = refl
keep-commas (c ∷ s) = ground (arith, keep-commas s)

parse-digits : (s : Text) → parse_toman_input s ≡ number_from 0 (digits s)
unfolding parse_toman_input digits
parse-digits s = ap (number_from 0) (keep-commas (to_latin_digits s))

digits-group : (s : Text) → every is_digit s ≡ true → digits (group_thousands s) ≡ s
unfolding digits group_thousands to_latin_digits keep every
digits-group [] h = refl
digits-group (c ∷ s) h =
    let digit : is_digit c ≡ true = ground arith in
    let same : latin_digit c ≡ c = ground arith in
    let rest = digits-group s (ground arith) in
    elim (Bool-cases ((length s % 3 == 0) && not (is_empty s))) [
      | inl comma ↦ rw (comma, same, digit) (ap (λ t. c ∷ t) rest)
      | inr plain ↦ rw (plain, same, digit) (ap (λ t. c ∷ t) rest)
    ]

digits-format :
    (s : Text)
    → is_empty (digits s) ≡ false
    → digits (format_toman_input s) ≡ decimal (number_from 0 (digits s))
unfolding format_toman_input digits
digits-format s h = rw h (digits-group (decimal (number_from 0 (digits s))) (every-decimal _))

format-typed :
    (s : Text)
    → is_empty (digits s) ≡ false
    → format_toman_input s ≡ group_thousands (decimal (number_from 0 (digits s)))
unfolding format_toman_input digits
format-typed s h = rw h refl

format-blank : (s : Text) → is_empty (digits s) ≡ true → format_toman_input s ≡ []
unfolding format_toman_input digits
format-blank s h = rw h refl

parse-format : (s : Text) → parse_toman_input (format_toman_input s) ≡ parse_toman_input s
parse-format s = elim (Bool-cases (is_empty (digits s))) [
  | inl blank ↦
      let nothing : digits s ≡ [] = empty-eq (digits s) blank in
      let empty : digits [] ≡ [] = unfold digits to_latin_digits keep in refl in
      ap parse_toman_input (format-blank s blank)
      ∙ parse-digits []
      ∙ ap (number_from 0) (empty ∙ sym nothing)
      ∙ sym (parse-digits s)
  | inr typed ↦
      parse-digits (format_toman_input s)
      ∙ ap (number_from 0) (digits-format s typed)
      ∙ number_from-decimal (number_from 0 (digits s))
      ∙ sym (parse-digits s)
]

format-format : (s : Text) → format_toman_input (format_toman_input s) ≡ format_toman_input s
format-format s = elim (Bool-cases (is_empty (digits s))) [
  | inl blank ↦ rw (format-blank s blank) (unfold format_toman_input keep to_latin_digits in refl)
  | inr typed ↦
      let again : is_empty (digits (format_toman_input s)) ≡ false =
        rw (digits-format s typed) (is_empty-decimal (number_from 0 (digits s))) in
      let value : number_from 0 (digits (format_toman_input s)) ≡ number_from 0 (digits s) =
        ap (number_from 0) (digits-format s typed)
        ∙ number_from-decimal (number_from 0 (digits s)) in
      format-typed (format_toman_input s) again
      ∙ ap (λ n. group_thousands (decimal n)) value
      ∙ sym (format-typed s typed)
]

-- Formatting what is typed keeps the amount that is read from it and whether that is valid, and
-- formatting again changes nothing, whatever digits and other characters are typed.
pub format_toman_input-stable :
    (raw : Text)
    → (parse_toman_input (format_toman_input raw) ≡ parse_toman_input raw)
      × (is_valid_toman_amount (format_toman_input raw) ≡ is_valid_toman_amount raw)
      × (format_toman_input (format_toman_input raw) ≡ format_toman_input raw)
unfolding is_valid_toman_amount
format_toman_input-stable raw = (parse-format raw, ap (ltb 0) (parse-format raw), format-format raw)
