-- ===== src/OAuth/Bearer.antt =====
-- The middleware `requireToken` of apps/action-gateway/oauth.mjs. The library jose is a parameter.
pub mod Opens
use pooli.Base.{
  ℕ, Bool, true, false, not, ◌&&◌, List, [], ◌∷◌, any, Option, none, some, Text, codes, text_eq,
  is_empty, is_space, starts_with, trim, drop, ◌++◌, ltb, if◌then◌else◌, All, ◌≡◌, ◌<◌,
}
use pooli.Base.Options.{or_empty}
use pooli.Domain.Platform.{Platform, IsAscii}
use pooli.OAuth.{Site, base_url, resource_url}
use pooli.OAuth.Token.{Claims}

pub record Jose : Type 0 where
  -- `new SignJWT(claims)….sign(privateKey)`
  pub sign : Claims → Text
  -- `jwtVerify(token, publicKey, { issuer, audience })` at a time in seconds, `none` where it throws
  pub verify : (jwt issuer audience : Text) (now : ℕ) → Option Claims

-- What is relied on: a token that is verified was signed with these claims, which name the issuer
-- and the audience and have not expired; such a token is verified; a token is printable ASCII.
pub record IsSound (jose : Jose) : Type 0 where
  pub sound :
      (jwt issuer audience : Text) (now : ℕ) (c : Claims)
      → jose.verify jwt issuer audience now ≡ some c
      → (jwt ≡ jose.sign c) × (c.issuer ≡ issuer) × (c.audience ≡ audience) × (now < c.expires)
  pub complete :
      (c : Claims) (now : ℕ)
      → now < c.expires
      → jose.verify (jose.sign c) c.issuer c.audience now ≡ some c
  pub ascii : (c : Claims) → IsAscii (jose.sign c)
  pub no_spaces : (c : Claims) → All (λ u. is_space u ≡ false) (jose.sign c)

-- A word, if it is not empty, before others
abbrev pub push_word : Text → List Text → List Text
push_word word ws = if is_empty word then ws else word ∷ ws

-- The word that a text begins with, and the words behind it
unfoldable pub split_words : Text → Text × List Text
split_words [] = ([], [])
split_words (c ∷ s) =
    let (word, ws) = split_words s in if is_space c then ([], push_word word ws) else (c ∷ word, ws)

-- `s.split(/\s+/).filter(Boolean)`
abbrev pub words : Text → List Text
words s = let (word, ws) = split_words s in push_word word ws

-- What the middleware does: it answers 401 or 403, or hands the request on with the client's id.
pub data Gate : Type 0 where
  unauthorized : Gate
  invalid_token : Gate
  insufficient_scope : Gate
  passed : (client_id : Text) → Gate

abbrev pub check_scope : Site → Option Claims → Gate
check_scope site none = invalid_token
check_scope site (some c) =
    if any (text_eq site.required_scope) (words c.scope)
    then passed c.client_id
    else insufficient_scope

unfoldable pub require_token :
    Platform → Jose → Site → (authorization : Option Text) → (now : ℕ) → Gate
require_token env jose site authorization now =
    let auth = or_empty authorization in
    if not (starts_with (env.to_lower auth) (codes "bearer "))
    then unauthorized
    else check_scope site (jose.verify (trim (drop 7 auth)) (base_url site) (resource_url site) now)
