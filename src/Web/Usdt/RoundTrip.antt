-- ===== src/Web/Usdt/RoundTrip.antt =====
-- Writing and reading amounts: apps/web/src/lib/usdt.ts.
use pooli.Base.{
  ℕ, ◌+◌, ◌*◌, ◌/◌, ◌%◌, ◌≤◌, Bool, true, false, not, ◌||◌, [], ◌∷◌, ◌++◌, Option, none, some, Text,
  codes, trim, is_empty, is_digit, is_space, every, every-All, All-imp, keep, take, length,
  length-append, length-replicate, replicate, ◌==◌, Bool-cases, ◌≡◌, refl, ap, ◌∙◌, inl, inr, arith,
}
use mathlib.Core.Path.{subst}
use pooli.Base.Strings.Trim.{trim-eq_self}
use pooli.Base.Decimal.{decimal, number_from, pad_zeros, drop_zeros, number_from-decimal}
use pooli.Base.Decimal.Digits.{
  every-append, every-decimal, is_empty-decimal, length-decimal_six, number_from-pad_zeros,
  length-pad_zeros, every-pad_zeros, every-drop_zeros, drop_zeros-append, empty-eq, take-zeros,
}
use pooli.Web.Usdt.{
  split_dot, parse_parts, is_fraction, fraction_of, parse_usdt_to_base_units, is_valid_usdt_amount,
  format_usdt_from_base_units, scale, max_safe_integer,
}

-- The units of a written amount.
abbrev is_amount_unit : ℕ → Bool
is_amount_unit c = is_digit c || c == b'.'

digits-amount : (s : Text) → every is_digit s ≡ true → every is_amount_unit s ≡ true
unfolding every
digits-amount [] h = refl
digits-amount (c ∷ s) h = ground (arith, digits-amount s)

keep-amount : (s : Text) → every is_amount_unit s ≡ true → keep (λ c. not (c == b',')) s ≡ s
unfolding every keep
keep-amount [] h = refl
keep-amount (c ∷ s) h =
    let comma : (c == b',') ≡ false = ground arith in
    rw comma (ap (λ t. c ∷ t) (keep-amount s (ground arith)))

trim-amount : (s : Text) → every is_amount_unit s ≡ true → trim s ≡ s
trim-amount s h = trim-eq_self s (
    All-imp (λ c. is_amount_unit c ≡ true) (λ c. is_space c ≡ false) s
      (λ c k. unfold is_space in ground arith) (every-All is_amount_unit s h))

split_dot-whole : (s : Text) → every is_digit s ≡ true → split_dot s ≡ (s, none)
unfolding split_dot every
split_dot-whole [] h = refl
split_dot-whole (c ∷ s) h =
    let other : (c == b'.') ≡ false = ground arith in
    rw (other, split_dot-whole s (ground arith)) refl

split_dot-fraction :
    (s f : Text) → every is_digit s ≡ true → split_dot (s ++ b'.' ∷ f) ≡ (s, some f)
unfolding split_dot every
split_dot-fraction [] f h = refl
split_dot-fraction (c ∷ s) f h =
    let other : (c == b'.') ≡ false = ground arith in
    rw (other, split_dot-fraction s f (ground arith)) refl

-- The six digits behind the point, and what is left of them when they are written.
fraction : ℕ → Text
fraction base = pad_zeros 6 (decimal (base % scale))

length-fraction : (base : ℕ) → length (fraction base) ≡ 6
unfolding fraction
length-fraction base =
    length-pad_zeros 6 (decimal (base % scale)) (length-decimal_six (base % scale) (omega arith))

take-fraction : (base : ℕ) → take 6 (drop_zeros (fraction base) ++ codes "000000") ≡ fraction base
take-fraction base =
    let (k, e) = drop_zeros-append (fraction base) in
    let whole : length (drop_zeros (fraction base)) + k ≡ 6 = omega (
      arith,
      ap length e,
      length-append (drop_zeros (fraction base)) (replicate k b'0'),
      length-replicate {A = ℕ} k b'0',
      length-fraction base,
    ) in
    take-zeros (drop_zeros (fraction base)) k 6 6 whole (omega arith) ∙ e

base_of-parts :
    (base : ℕ) (f : Text)
    → take 6 (f ++ codes "000000") ≡ fraction base
    → number_from 0 (decimal (base / scale)) * scale + number_from 0 (take 6 (f ++ codes "000000"))
      ≡ base
unfolding fraction
base_of-parts base f h =
    rw (h, number_from-decimal (base / scale), number_from-pad_zeros (base % scale) 6) (omega arith)

parse_parts-of :
    (base : ℕ) (frac : Option Text)
    → 1 ≤ base
    → base ≤ max_safe_integer
    → is_fraction frac ≡ true
    → take 6 (fraction_of frac ++ codes "000000") ≡ fraction base
    → parse_parts (decimal (base / scale), frac) ≡ some base
parse_parts-of base frac low high good h =
    rw
      (
        is_empty-decimal (base / scale),
        every-decimal (base / scale),
        good,
        base_of-parts base (fraction_of frac) h,
      )
      (ground arith)

-- The text of an amount is trimmed and has no commas.
parse-text :
    (s : Text)
    → every is_amount_unit s ≡ true
    → parse_usdt_to_base_units s ≡ parse_parts (split_dot s)
unfolding parse_usdt_to_base_units
parse-text s h = rw (trim-amount s h, keep-amount s h) refl

fraction-digits : (base : ℕ) → every is_digit (drop_zeros (fraction base)) ≡ true
unfolding fraction
fraction-digits base =
    every-drop_zeros is_digit (pad_zeros 6 (decimal (base % scale)))
      (every-pad_zeros 6 (base % scale))

fraction-short : (base : ℕ) → length (drop_zeros (fraction base)) ≤ 6
fraction-short base =
    let (k, e) = drop_zeros-append (fraction base) in
    omega (
      arith,
      ap length e,
      length-append (drop_zeros (fraction base)) (replicate k b'0'),
      length-fraction base,
    )

one_unit : (s : Text) → is_empty s ≡ false → 1 ≤ length s
one_unit [] h = cc
one_unit (c ∷ s) h = omega arith

parse-format :
    (base : ℕ)
    → 1 ≤ base
    → base ≤ max_safe_integer
    → parse_usdt_to_base_units (format_usdt_from_base_units base) ≡ some base
unfolding format_usdt_from_base_units fraction
parse-format base low high =
    let positive : (base == 0) ≡ false = ground arith in
    let whole = every-decimal (base / scale) in
    elim (Bool-cases (is_empty (drop_zeros (fraction base)))) [
      | inl round ↦
          rw
            (
              positive,
              round,
              parse-text (decimal (base / scale)) (digits-amount _ whole),
              split_dot-whole (decimal (base / scale)) whole,
            )
            (parse_parts-of base none low high refl (
              subst (λ f. take 6 (f ++ codes "000000") ≡ fraction base)
                (empty-eq (drop_zeros (fraction base)) round) (take-fraction base)))
      | inr some_left ↦
          rw
            (
              positive,
              some_left,
              parse-text (decimal (base / scale) ++ b'.' ∷ drop_zeros (fraction base)) (
                  every-append is_amount_unit (decimal (base / scale)) _ (digits-amount _ whole) (
                    unfold every in
                    digits-amount (drop_zeros (fraction base)) (fraction-digits base))),
              split_dot-fraction (decimal (base / scale)) (drop_zeros (fraction base)) whole,
            )
            (parse_parts-of base (some (drop_zeros (fraction base))) low high
              (ground (arith, fraction-digits base, fraction-short base, one_unit _ some_left))
              (take-fraction base))
    ]

-- An amount of at least one base unit and at most 2^53 - 1, written by the web app in USDT with up
-- to six decimals, is read back as the same number of base units, and is so a valid amount.
pub parse-format_usdt :
    (base : ℕ)
    → 1 ≤ base
    → base ≤ max_safe_integer
    → (parse_usdt_to_base_units (format_usdt_from_base_units base) ≡ some base)
      × (is_valid_usdt_amount (format_usdt_from_base_units base) ≡ true)
unfolding is_valid_usdt_amount
parse-format_usdt base low high =
    let read_back = parse-format base low high in (read_back, rw read_back refl)
