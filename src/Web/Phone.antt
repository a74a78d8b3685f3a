-- ===== src/Web/Phone.antt =====
-- apps/web/src/lib/phone.ts: Iranian mobile numbers and postal codes.
pub mod Normal
use pooli.Base.{
  ℕ, Bool, true, false, not, ◌&&◌, ◌||◌, List, [], ◌∷◌, ◌++◌, Option, none, some, Text, codes, trim,
  is_digit, every, keep, drop, length, starts_with, ◌==◌, if◌then◌else◌,
}
use pooli.Domain.Store.{is_some}

-- `s.replace(/^\+/, "")`
abbrev pub drop_plus : Text → Text
drop_plus [] = []
drop_plus (c ∷ s) = if c == b'+' then s else c ∷ s

-- `if (national.startsWith(p)) national = national.slice(p.length)`
abbrev pub drop_prefix : Text → Text → Text
drop_prefix p s = if starts_with s p then drop (length p) s else s

-- `/^9\d{9}$/`
abbrev pub is_national : Text → Bool
is_national [] = false
is_national (c ∷ s) = (c == b'9') && (length s == 9) && every is_digit s

abbrev pub national_of : Text → Text
national_of input =
    drop_prefix (codes "0")
      (drop_prefix (codes "98") (drop_plus (keep (λ c. is_digit c || c == b'+') input)))

unfoldable pub normalize_iranian_phone : Text → Option Text
normalize_iranian_phone input =
    if is_national (national_of input) then some (codes "+98" ++ national_of input) else none

unfoldable pub is_valid_iranian_phone : Text → Bool
is_valid_iranian_phone input = is_some (normalize_iranian_phone input)

unfoldable pub is_valid_iranian_postal_code : Text → Bool
is_valid_iranian_postal_code input = length (trim input) == 10 && every is_digit (trim input)
