-- ===== src/Web/Usdt.antt =====
-- apps/web/src/lib/usdt.ts: amounts of USDT as the merchant types them and as base units. `Number`
-- is exact up to 2^53, and a larger amount is refused, so amounts are natural numbers here.
pub mod RoundTrip
use pooli.Base.{
  ℕ, zero, suc, ◌+◌, ◌*◌, ◌/◌, ◌%◌, Bool, true, false, not, ◌&&◌, ◌||◌, List, [], ◌∷◌, ◌++◌, Option,
  none, some, Text, codes, trim, is_empty, is_digit, every, keep, take, length, leb, ltb, ◌==◌,
  if◌then◌else◌,
}
use pooli.Domain.Store.{is_some}
use pooli.Base.Decimal.{decimal, number_from, pad_zeros, drop_zeros}

abbrev pub scale : ℕ
scale = 1000000

-- `Number.MAX_SAFE_INTEGER`
abbrev pub max_safe_integer : ℕ
max_safe_integer = 9007199254740991

-- `cleaned.split(".")`, the first two parts
unfoldable pub split_dot : Text → Text × Option Text
split_dot [] = ([], none)
split_dot (c ∷ s) =
    let (whole, frac) = split_dot s in if c == b'.' then ([], some s) else (c ∷ whole, frac)

-- `(\.\d{1,6})?$`
abbrev pub is_fraction : Option Text → Bool
is_fraction none = true
is_fraction (some f) = leb 1 (length f) && leb (length f) 6 && every is_digit f

abbrev pub fraction_of : Option Text → Text
fraction_of none = []
fraction_of (some f) = f

abbrev pub base_of : Text × Option Text → ℕ
base_of (whole, frac) =
    number_from 0 whole * scale + number_from 0 (take 6 (fraction_of frac ++ codes "000000"))

abbrev pub parse_parts : Text × Option Text → Option ℕ
parse_parts (whole, frac) =
    if is_empty whole || not (every is_digit whole) || not (is_fraction frac)
    then none
    else if base_of (whole, frac) == 0 || ltb max_safe_integer (base_of (whole, frac))
    then none
    else some (base_of (whole, frac))

unfoldable pub parse_usdt_to_base_units : Text → Option ℕ
parse_usdt_to_base_units input = parse_parts (split_dot (keep (λ c. not (c == b',')) (trim input)))

abbrev pub with_fraction : Text → Text → Text
with_fraction whole frac = if is_empty frac then whole else whole ++ b'.' ∷ frac

unfoldable pub format_usdt_from_base_units : ℕ → Text
format_usdt_from_base_units base =
    if base == 0
    then codes "0"
    else with_fraction (decimal (base / scale)) (drop_zeros (pad_zeros 6 (decimal (base % scale))))

-- `parseUsdtToBaseUnits(input) !== null`
unfoldable pub is_valid_usdt_amount : Text → Bool
is_valid_usdt_amount input = is_some (parse_usdt_to_base_units input)
