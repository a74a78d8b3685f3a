-- ===== src/Domain/Platform.antt =====
-- What the gateway takes from its platform and does not implement: the full Unicode case mappings
-- of `String.prototype` and the SHA-256 of `node:crypto`. Each is a parameter of the definitions
-- that use it; what is relied on stands in `IsStandard`, as documented behaviour.
use pooli.Base.{
  ℕ, ◌+◌, ◌-◌, ◌<◌, Bool, map, Text, All, ◌≡◌, length, is_digit, is_lower, is_upper, if◌then◌else◌,
  leb, ◌&&◌, ◌||◌, true,
}

pub record Platform : Type 0 where
  -- `s.toLowerCase()`, `s.toUpperCase()`
  pub to_lower : Text → Text
  pub to_upper : Text → Text
  -- `createHash('sha256').update(s).digest('hex')`
  pub sha256_hex : Text → Text

abbrev pub ascii_lower : ℕ → ℕ
ascii_lower c = if is_upper c then c + 32 else c

abbrev pub ascii_upper : ℕ → ℕ
ascii_upper c = if is_lower c then c - 32 else c

abbrev pub IsAscii : Text → Type 0
IsAscii = All (λ c. c < 128)

abbrev pub is_hex_lower : ℕ → Bool
is_hex_lower c = is_digit c || (leb b'a' c && leb c b'f')

pub record IsStandard (p : Platform) : Type 0 where
  -- On ASCII text the case mappings change letters alone.
  pub lower_ascii : (s : Text) → IsAscii s → p.to_lower s ≡ map ascii_lower s
  pub upper_ascii : (s : Text) → IsAscii s → p.to_upper s ≡ map ascii_upper s
  -- A digest is 64 hexadecimal digits in lower case.
  pub digest_length : (s : Text) → length (p.sha256_hex s) ≡ 64
  pub digest_hex : (s : Text) → All (λ c. is_hex_lower c ≡ true) (p.sha256_hex s)
