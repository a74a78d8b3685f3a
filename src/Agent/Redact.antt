-- ===== src/Agent/Redact.antt =====
-- apps/action-gateway/src/observability/redact.ts: what a log line keeps of a payload.
-- A value that is not a string, null, an array or an object is the text that `String(…)` makes of it.
-- The members of an object are its entries in their order, whose keys differ.
pub mod Secrecy
use pooli.Base.{
  ℕ, zero, suc, ◌+◌, Bool, true, false, not, ◌&&◌, ◌||◌, List, [], ◌∷◌, ◌++◌, map, Text, codes,
  text_eq, starts_with, includes, join, is_empty, is_digit, is_lower, is_upper, every, any, leb,
  ltb, ◌==◌, if◌then◌else◌, length,
}
use pooli.Base.Decimal.{decimal}
use pooli.Domain.Platform.{Platform}

mutual
  pub data Value : Type 0 where
    absent : Value
    text : Text → Value
    other : Text → Value
    array : Items → Value
    object : Members → Value

  pub data Items : Type 0 where
    end : Items
    item : Value → Items → Items

  pub data Members : Type 0 where
    done : Members
    member : Text → Value → Members → Members

abbrev pub secret_keys : List Text
secret_keys =
    codes "linkcode"
    ∷ codes "link_code"
    ∷ codes "code_verifier"
    ∷ codes "codeverifier"
    ∷ codes "access_token"
    ∷ codes "refresh_token"
    ∷ codes "client_secret"
    ∷ codes "authorization"
    ∷ codes "password"
    ∷ codes "secret"
    ∷ codes "apikey"
    ∷ codes "api_key"
    ∷ []

-- The alternatives of the regular expression `NOT_SECRET`
abbrev pub not_secret : List Text
not_secret =
    codes "status"
    ∷ codes "error"
    ∷ codes "http"
    ∷ codes "currency"
    ∷ codes "country"
    ∷ codes "iso"
    ∷ codes "reason"
    ∷ codes "exit"
    ∷ codes "zip"
    ∷ codes "post"
    ∷ []

-- The case that the flag `i` of a regular expression ignores.
abbrev pub fold_case : ℕ → ℕ
fold_case c = if is_upper c then c + 32 else c

unfoldable pub is_secret_key : Platform → Text → Bool
is_secret_key env key =
    let k = env.to_lower key in
    if any (starts_with (map fold_case key)) not_secret
    then false
    else if any (includes k) secret_keys
    then true
    else text_eq k (codes "code") || text_eq k (codes "token")

unfoldable mutual
  -- `String(value)`
  pub spell : Value → Text
  spell absent = codes "null"
  spell (text s) = s
  spell (other s) = s
  spell (array xs) = join (codes ",") (spell_items xs)
  spell (object ms) = codes "[object Object]"

  pub spell_items : Items → List Text
  spell_items end = []
  spell_items (item absent xs) = [] ∷ spell_items xs
  spell_items (item x xs) = spell x ∷ spell_items xs

abbrev pub is_hex : ℕ → Bool
is_hex c = is_digit c || (leb b'a' c && leb c b'f') || (leb b'A' c && leb c b'F')

-- `[\w-]`
abbrev pub is_word : ℕ → Bool
is_word c = is_digit c || is_lower c || is_upper c || c == b'_' || c == b'-'

unfoldable pub shape : Text → Text
shape s =
    if every (λ c. is_upper c || is_digit c) s
    then codes "upper"
    else if every is_hex s
    then codes "hex"
    else if every is_word s
    then codes "token"
    else codes "mixed"

abbrev pub describe_text : Text → Text
describe_text s =
    if is_empty s
    then codes "<empty>"
    else codes "<redacted len=" ++ decimal (length s) ++ codes " shape=" ++ shape s ++ codes ">"

unfoldable pub describe_secret : Value → Text
describe_secret absent = codes "<absent>"
describe_secret v = describe_text (spell v)

unfoldable mutual
  pub redact : Platform → Value → (depth : ℕ) → Value
  redact env (array xs) depth =
      let rest = redact_items env xs (suc depth) in
      if ltb 8 depth then text (codes "<depth-limit>") else array rest
  redact env (object ms) depth =
      let rest = redact_members env ms (suc depth) in
      if ltb 8 depth then text (codes "<depth-limit>") else object rest
  redact env v depth = if ltb 8 depth then text (codes "<depth-limit>") else v

  pub redact_items : Platform → Items → ℕ → Items
  redact_items env end depth = end
  redact_items env (item x xs) depth = item (redact env x depth) (redact_items env xs depth)

  pub redact_members : Platform → Members → ℕ → Members
  redact_members env done depth = done
  redact_members env (member k v ms) depth =
      let kept = redact env v depth in
      member k (if is_secret_key env k then text (describe_secret v) else kept)
        (redact_members env ms depth)
