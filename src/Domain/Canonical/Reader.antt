-- ===== src/Domain/Canonical/Reader.antt =====
-- A reader of JSON strings, by which the quoting of `JSON.stringify` is undone.
use pooli.Base.{
  ℕ, zero, suc, ◌+◌, ◌-◌, ◌*◌, ◌/◌, ◌%◌, ◌<◌, true, ◌&&◌, ◌||◌, [], ◌∷◌, ◌++◌, append_assoc, Option,
  none, some, Text, All, is_digit, ltb, ◌==◌, if◌then◌else◌, Bool-cases, ◌≡◌, ◌∙◌, ap, inl, inr,
  refl, arith,
}
use pooli.Domain.Canonical.{
  quote_mark, backslash, hex_digit, unicode_escape, is_high, is_low, escape_unit, escape_one,
  escape_text,
}

-- Where the reader stands: outside an escape, behind a backslash, or with so many digits to come
-- and the value of those before.
pub data Mode : Type 0 where
  plain escaped : Mode
  digits : ℕ → ℕ → Mode

digit_of : ℕ → ℕ
digit_of c = if is_digit c then c - b'0' else c - b'a' + 10

control_of : ℕ → ℕ
control_of c =
    if c == b'b'
    then 8
    else if c == b't'
    then 9
    else if c == b'n'
    then 10
    else if c == b'f'
    then 12
    else if c == b'r'
    then 13
    else c

abbrev pub emit : ℕ → Option (Text × Text) → Option (Text × Text)
emit c none = none
emit c (some (s, rest)) = some (c ∷ s, rest)

-- The string up to its closing mark, and what is behind it.
unfoldable pub read : Mode → Text → Option (Text × Text)
unfolding digit_of control_of
read m [] = none
read plain (c ∷ s) =
    let escape = read escaped s in
    let more = emit c (read plain s) in
    if c == quote_mark then some ([], s) else if c == backslash then escape else more
read escaped (c ∷ s) =
    let unicode = read (digits 3 0) s in
    let more = emit (control_of c) (read plain s) in if c == b'u' then unicode else more
read (digits zero acc) (c ∷ s) = emit (16 * acc + digit_of c) (read plain s)
read (digits (suc k) acc) (c ∷ s) = read (digits k (16 * acc + digit_of c)) s

digit_of-hex_digit : (d : ℕ) → d < 16 → digit_of (hex_digit d) ≡ d
unfolding digit_of hex_digit
digit_of-hex_digit d h = ground arith

read-digits :
    (a b c d : ℕ) (rest : Text)
    → a < 16
    → b < 16
    → c < 16
    → d < 16
    → read (digits 3 0) (hex_digit a ∷ hex_digit b ∷ hex_digit c ∷ hex_digit d ∷ rest)
      ≡ emit (16 * (16 * (16 * a + b) + c) + d) (read plain rest)
unfolding read
read-digits a b c d rest la lb lc ld =
    rw
      (
        digit_of-hex_digit a la,
        digit_of-hex_digit b lb,
        digit_of-hex_digit c lc,
        digit_of-hex_digit d ld,
      )
      (ap (λ n. emit n (read plain rest)) (omega arith))

read-unicode_escape :
    (c : ℕ) (rest : Text)
    → c < 65536
    → read plain (unicode_escape c ++ rest) ≡ emit c (read plain rest)
unfolding unicode_escape read
read-unicode_escape c rest h =
    read-digits (c / 4096 % 16) (c / 256 % 16) (c / 16 % 16) (c % 16) rest (omega arith)
      (omega arith) (omega arith) (omega arith)
    ∙ ap (λ n. emit n (read plain rest)) (omega arith)

read-escape_unit :
    (c : ℕ) (rest : Text) → read plain (escape_unit c ++ rest) ≡ emit c (read plain rest)
unfolding escape_unit read
read-escape_unit c rest = elim (Bool-cases (ltb c 32)) [
  | inl low ↦ ground (arith, read-unicode_escape c rest)
  | inr high ↦ ground arith
]

read-pair :
    (c d : ℕ) (rest : Text)
    → (is_high c && is_low d) ≡ true
    → read plain (c ∷ d ∷ rest) ≡ emit c (emit d (read plain rest))
unfolding read
read-pair c d rest h = ground arith

-- One unit of the output that is no part of a pair.
read-unit :
    (c : ℕ) (rest : Text) → c < 65536 → read plain (escape_one c ++ rest) ≡ emit c (read plain rest)
read-unit c rest h = elim (Bool-cases (is_high c || is_low c)) [
  | inl lone ↦ rw lone (read-unicode_escape c rest h)
  | inr other ↦ rw other (read-escape_unit c rest)
]

-- The units of a JavaScript string.
abbrev pub IsUnits : Text → Type 0
IsUnits = All (λ c. c < 65536)

-- Reading undoes the escapes, and stops at the closing mark.
pub read-escape_text :
    (s rest : Text) → IsUnits s → read plain (escape_text s ++ quote_mark ∷ rest) ≡ some (s, rest)
unfolding escape_text
read-escape_text [] rest h = unfold read in refl
read-escape_text (c ∷ []) rest (h, _) = read-unit c (quote_mark ∷ rest) h ∙ unfold read in refl
read-escape_text (c ∷ d ∷ s) rest (h, (k, hs)) = elim (Bool-cases (is_high c && is_low d)) [
  | inl pair ↦ rw pair (
      read-pair c d (escape_text s ++ quote_mark ∷ rest) pair
      ∙ rw (read-escape_text s rest hs) refl)
  | inr lone ↦ rw lone (
      ap (read plain) (append_assoc (escape_one c) (escape_text (d ∷ s)) (quote_mark ∷ rest))
      ∙ (read-unit c (escape_text (d ∷ s) ++ quote_mark ∷ rest) h
          ∙ rw (read-escape_text (d ∷ s) rest (k, hs)) refl))
]
