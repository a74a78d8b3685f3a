-- ===== src/OAuth/Token.antt =====
-- The token endpoint of apps/action-gateway/oauth.mjs. SHA-256 in base64url, base64 and
-- decodeURIComponent are parameters, and so is the signing of a token, which stands as its claims.
use pooli.Base.{
  ℕ, ◌+◌, Bool, not, ◌&&◌, ◌||◌, [], ◌∷◌, ◌++◌, drop, Option, none, some, String, Text, codes,
  text_eq, is_empty, starts_with, trim, ltb, ◌==◌, if◌then◌else◌,
}
use pooli.Base.Options.{or_empty, text_or, is_text, drop_slashes}
use pooli.Base.Dict
use pooli.Base.Dict.{lookup, erase}
use pooli.Domain.Platform.{Platform}
use pooli.Domain.Canonical.{quote}
use pooli.OAuth.{Site, base_url, resource_url, State, CodeEntry, RefreshEntry, token_ttl_seconds}

pub record Codec : Type 0 where
  -- `createHash('sha256').update(s).digest('base64url')`
  pub sha256_base64url : Text → Text
  -- `Buffer.from(s, 'base64').toString('utf8')`
  pub from_base64 : Text → Text
  -- `decodeURIComponent(s)`, `none` where it throws
  pub decode_uri_component : Text → Option Text

-- The fields of a body or of a query
pub record Fields : Type 0 where
  pub grant_type : Option Text
  pub code : Option Text
  pub refresh_token : Option Text
  pub client_id : Option Text
  pub redirect_uri : Option Text
  pub code_verifier : Option Text
  pub resource : Option Text

abbrev pub first_of : Option Text → Option Text → Option Text
first_of (some s) y = some s
first_of none y = y

-- `{ ...body, ...query }`
unfoldable pub merge : Fields → Fields → Fields
merge body query = record {
  grant_type = first_of query.grant_type body.grant_type;
  code = first_of query.code body.code;
  refresh_token = first_of query.refresh_token body.refresh_token;
  client_id = first_of query.client_id body.client_id;
  redirect_uri = first_of query.redirect_uri body.redirect_uri;
  code_verifier = first_of query.code_verifier body.code_verifier;
  resource = first_of query.resource body.resource;
}

-- `s.split(':')[0]`
unfoldable pub before_colon : Text → Text
before_colon [] = []
before_colon (c ∷ s) = let rest = before_colon s in if c == b':' then [] else c ∷ rest

-- The client of a Basic header, `none` if there is no such header or it is malformed
unfoldable pub basic_id : Platform → Codec → Option Text → Option Text
basic_id env codec authorization =
    let authz = or_empty authorization in
    if starts_with (env.to_lower authz) (codes "basic ")
    then codec.decode_uri_component (before_colon (codec.from_base64 (trim (drop 6 authz))))
    else none

-- `if (!b.client_id) b.client_id = basicId;`
abbrev pub with_basic : Option Text → Fields → Fields
with_basic none b = b
with_basic (some id) b =
    if is_empty (or_empty b.client_id) then record b { client_id = some id } else b

pub record Claims : Type 0 where
  pub scope : Text
  pub client_id : Text
  pub issuer : Text
  pub audience : Text
  pub issued_at : ℕ
  pub expires : ℕ

pub data TokenReply : Type 0 where
  failed : (error : String) (why : Text) → TokenReply
  granted : (access : Claims) (refresh_token : Text) → TokenReply

-- What is drawn for a token: the refresh token, and the clock in milliseconds and in seconds
pub record Draw : Type 0 where
  pub refresh_token : Text
  pub now : ℕ
  pub now_seconds : ℕ

abbrev pub claims_of : Site → Draw → Text → Text → Claims
claims_of site draw client_id audience = record {
  scope = site.required_scope;
  client_id = client_id;
  issuer = base_url site;
  audience = audience;
  issued_at = draw.now_seconds;
  expires = draw.now_seconds + token_ttl_seconds;
}

unfoldable pub issue : Site → Draw → Text → Text → State → State × TokenReply
issue site draw client_id audience s = (
  record s {
    refresh =
        Dict.insert draw.refresh_token
          (record { client_id = client_id; audience = audience; issued = draw.now }) s.refresh;
  },
  granted (claims_of site draw client_id audience) draw.refresh_token,
)

-- `b.client_id && entry.client_id !== b.client_id`
abbrev pub other_client : Fields → Text → Bool
other_client b id =
    let given = or_empty b.client_id in not (is_empty given) && not (text_eq id given)

abbrev pub refresh_entry :
    Site → Fields → Draw → Text → State → Option RefreshEntry → State × TokenReply
refresh_entry site b draw token s none =
    (s, failed "invalid_grant" (codes "refresh_token unknown or already rotated"))
refresh_entry site b draw token s (some entry) =
    let burned = record s { refresh = erase token s.refresh } in
    if other_client b entry.client_id
    then (burned, failed "invalid_grant" (codes "refresh_token does not belong to this client"))
    else issue site draw entry.client_id (resource_url site) burned

unfoldable pub refresh_grant : Site → Fields → Draw → State → State × TokenReply
refresh_grant site b draw s =
    let token = or_empty b.refresh_token in
    refresh_entry site b draw token s (lookup token s.refresh)

-- `b.resource || entry.resource`
abbrev pub requested_of : Fields → CodeEntry → Text
requested_of b entry = text_or (or_empty b.resource) entry.resource

-- The resource names this server, if it is there at all.
unfoldable pub is_target : Site → Fields → CodeEntry → Bool
is_target site b entry =
    let norm = drop_slashes (requested_of b entry) in
    is_empty (requested_of b entry)
    || text_eq (resource_url site) norm
    || text_eq (base_url site) norm

-- The checks of a code behind its removal, in their order
abbrev pub redeem_entry : Codec → Site → Fields → Draw → State → CodeEntry → State × TokenReply
redeem_entry codec site b draw s entry =
    let verifier = or_empty b.code_verifier in
    if ltb entry.expires draw.now
    then (s, failed "invalid_grant" (codes "code expired"))
    else if other_client b entry.client_id
    then (
      s,
      failed "invalid_grant" (codes "client_id does not match the one that requested the code"),
    )
    else if not (is_text b.redirect_uri entry.redirect_uri)
    then (s, failed "invalid_grant" (codes "redirect_uri differs from the authorize request"))
    else if is_empty verifier
    then (s, failed "invalid_grant" (codes "code_verifier missing (PKCE is required)"))
    else if not (text_eq (codec.sha256_base64url verifier) entry.challenge)
    then (s, failed "invalid_grant" (codes "PKCE verification failed"))
    else if not (is_target site b entry)
    then (
      s,
      failed "invalid_target" (
          codes "resource \""
          ++ drop_slashes (requested_of b entry)
          ++ codes "\" is not this server"),
    )
    else issue site draw entry.client_id (resource_url site) s

abbrev pub redeem :
    Codec → Site → Fields → Draw → (code : Text) → State → Option CodeEntry → State × TokenReply
redeem codec site b draw code s none =
    (s, failed "invalid_grant" (codes "code unknown or already redeemed"))
redeem codec site b draw code s (some entry) =
    redeem_entry codec site b draw (record s { codes = erase code s.codes }) entry

unfoldable pub code_grant : Codec → Site → Fields → Draw → State → State × TokenReply
code_grant codec site b draw s =
    let code = or_empty b.code in
    if is_empty code
    then (s, failed "invalid_request" (codes "no code in request"))
    else redeem codec site b draw code s (lookup code s.codes)

-- The fields that the handler reads
unfoldable pub fields_of : Platform → Codec → Fields → Fields → Option Text → Fields
fields_of env codec body query authorization =
    with_basic (basic_id env codec authorization) (merge body query)

-- `JSON.stringify(x ?? null)`
abbrev json_of : Option Text → Text
json_of none = codes "null"
json_of (some s) = quote s

unfoldable pub grant : Codec → Site → Fields → Draw → State → State × TokenReply
grant codec site b draw s =
    if is_text b.grant_type (codes "refresh_token")
    then refresh_grant site b draw s
    else if not (is_text b.grant_type (codes "authorization_code"))
    then (s, failed "unsupported_grant_type" (codes "grant_type was " ++ json_of b.grant_type))
    else code_grant codec site b draw s

-- `POST /token`
unfoldable pub token :
    Platform
    → Codec
    → Site
    → (body query : Fields) → (authorization : Option Text) → Draw
    → State
    → State × TokenReply
token env codec site body query authorization draw s =
    grant codec site (fields_of env codec body query authorization) draw s
