-- ===== src/Web/Toman.antt =====
-- apps/web/src/lib/toman.ts: amounts of toman as they are typed. `Number` of a text of digits is exact
-- below 2^53.
pub mod Typing
use pooli.Base.{
  ℕ, ◌+◌, ◌-◌, ◌%◌, Bool, true, false, not, ◌&&◌, ◌||◌, List, [], ◌∷◌, keep, map, length, Text,
  is_digit, is_empty, leb, ltb, ◌==◌, if◌then◌else◌,
}
use pooli.Base.Decimal.{decimal, number_from}

-- One unit of `toLatinDigits`
abbrev pub latin_digit : ℕ → ℕ
latin_digit c =
    if leb 0x6f0 c && leb c 0x6f9
    then c - 0x6f0 + b'0'
    else if leb 0x660 c && leb c 0x669
    then c - 0x660 + b'0'
    else c

unfoldable pub to_latin_digits : Text → Text
to_latin_digits raw = map latin_digit raw

-- `n.toLocaleString("en-US")` of the digits of `n`
unfoldable pub group_thousands : Text → Text
group_thousands [] = []
group_thousands (c ∷ s) =
    let rest = group_thousands s in
    if length s % 3 == 0 && not (is_empty s) then c ∷ b',' ∷ rest else c ∷ rest

unfoldable pub format_toman_input : Text → Text
format_toman_input raw =
    let digits = keep is_digit (to_latin_digits raw) in
    if is_empty digits then [] else group_thousands (decimal (number_from 0 digits))

unfoldable pub parse_toman_input : Text → ℕ
parse_toman_input formatted =
    number_from 0 (keep is_digit (keep (λ c. not (c == b',')) (to_latin_digits formatted)))

unfoldable pub is_valid_toman_amount : Text → Bool
is_valid_toman_amount formatted = ltb 0 (parse_toman_input formatted)
