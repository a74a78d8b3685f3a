-- ===== src/Domain/Canonical.antt =====
-- The canonical form of a payload: `JSON.stringify` of an array of strings, with ECMAScript's rule
-- for lone surrogates, and the decoding of hexadecimal text by `Buffer.from(s, 'hex')`.
pub mod Reader
pub mod Injective
use pooli.Base.{
  ℕ, zero, suc, ◌+◌, ◌-◌, ◌*◌, ◌/◌, ◌%◌, Bool, true, false, ◌&&◌, ◌||◌, List, [], ◌∷◌, ◌++◌, Option,
  none, some, Text, codes, is_digit, leb, ltb, ◌==◌, if◌then◌else◌, ◌≡◌, refl,
}

abbrev pub quote_mark : ℕ
quote_mark = 34

abbrev pub backslash : ℕ
backslash = 92

-- One digit, in lower case.
unfoldable pub hex_digit : ℕ → ℕ
hex_digit n = if ltb n 10 then b'0' + n else b'a' + (n - 10)

-- `\uXXXX`
unfoldable pub unicode_escape : ℕ → Text
unfolding hex_digit
unicode_escape c =
    backslash
    ∷ b'u'
    ∷ hex_digit (c / 4096 % 16)
    ∷ hex_digit (c / 256 % 16)
    ∷ hex_digit (c / 16 % 16)
    ∷ hex_digit (c % 16)
    ∷ []

abbrev pub is_high : ℕ → Bool
is_high c = leb 0xd800 c && leb c 0xdbff

abbrev pub is_low : ℕ → Bool
is_low c = leb 0xdc00 c && leb c 0xdfff

-- A unit that is no surrogate.
unfoldable pub escape_unit : ℕ → Text
escape_unit c =
    if c == quote_mark || c == backslash
    then backslash ∷ c ∷ []
    else if c == 8
    then backslash ∷ b'b' ∷ []
    else if c == 9
    then backslash ∷ b't' ∷ []
    else if c == 10
    then backslash ∷ b'n' ∷ []
    else if c == 12
    then backslash ∷ b'f' ∷ []
    else if c == 13
    then backslash ∷ b'r' ∷ []
    else if ltb c 32
    then unicode_escape c
    else c ∷ []

abbrev pub escape_one : ℕ → Text
escape_one c = if is_high c || is_low c then unicode_escape c else escape_unit c

-- A pair of surrogates stays, a lone one is escaped.
unfoldable pub escape_text : Text → Text
escape_text [] = []
escape_text (c ∷ []) = escape_one c
escape_text (c ∷ d ∷ s) =
    let pair = c ∷ d ∷ escape_text s in
    let apart = escape_one c ++ escape_text (d ∷ s) in if is_high c && is_low d then pair else apart

-- `JSON.stringify` of a string
unfoldable pub quote : Text → Text
quote s = quote_mark ∷ escape_text s ++ quote_mark ∷ []

-- The elements of an array behind the first, and the closing bracket.
unfoldable pub stringify_more : List Text → Text
stringify_more [] = b']' ∷ []
stringify_more (s ∷ ss) = b',' ∷ quote s ++ stringify_more ss

-- `JSON.stringify` of an array of strings
unfoldable pub stringify : List Text → Text
stringify [] = b'[' ∷ b']' ∷ []
stringify (s ∷ ss) = b'[' ∷ quote s ++ stringify_more ss

-- The value of a hexadecimal digit of either case.
unfoldable pub hex_value : ℕ → Option ℕ
hex_value c =
    if is_digit c
    then some (c - b'0')
    else if leb b'a' c && leb c b'f'
    then some (c - b'a' + 10)
    else if leb b'A' c && leb c b'F'
    then some (c - b'A' + 10)
    else none

abbrev pub hex_pair : Option ℕ → Option ℕ → List ℕ → List ℕ
hex_pair (some x) (some y) rest = (16 * x + y) ∷ rest
hex_pair _ _ rest = []

-- `Buffer.from(s, 'hex')`: the bytes up to the first pair that is not hexadecimal; a last single
-- digit is dropped.
unfoldable pub from_hex : Text → List ℕ
unfolding hex_value
from_hex [] = []
from_hex (a ∷ []) = []
from_hex (a ∷ b ∷ s) = let rest = from_hex s in hex_pair (hex_value a) (hex_value b) rest

stringify_test :
    stringify (codes "a\"" ∷ (10 ∷ 0xd800 ∷ []) ∷ []) ≡ codes "[\"a\\\"\",\"\\n\\ud800\"]"
unfolding stringify stringify_more quote escape_text escape_unit unicode_escape
stringify_test = refl
