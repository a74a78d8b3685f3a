-- ===== src/OAuth.antt =====
-- apps/action-gateway/oauth.mjs: the authorization server, its state and the two endpoints that hand
-- out codes. Fields of a request are texts, `none` if absent. Random values and the clock are
-- arguments; writing the state to its files is left out.
pub mod Token
pub mod Bearer
pub mod Metadata
pub mod Requests
pub mod Redeeming
pub mod Counting
pub mod SpentCodes
pub mod SpentTokens
pub mod SingleUse
pub mod Registered
use pooli.Base.{
  ℕ, ◌+◌, ◌/◌, Bool, true, false, not, ◌&&◌, ◌||◌, List, [], ◌∷◌, ◌++◌, any, Option, none, some,
  String, Text, codes, text_eq, is_empty, ◌==◌, if◌then◌else◌,
}
use pooli.Base.Options.{or_else, or_empty, truthy, is_text, drop_slash}
use pooli.Base.Dict
use pooli.Base.Dict.{Dict, lookup}

abbrev pub code_ttl_ms : ℕ
code_ttl_ms = 60000

abbrev pub token_ttl_seconds : ℕ
token_ttl_seconds = 3600

-- The configuration, and what a request says of the host that it was sent to.
pub record Site : Type 0 where
  pub public_url : Option Text
  pub forwarded_proto : Option Text
  pub protocol : Option Text
  pub host : Text
  pub mcp_path : Text
  -- `REQUIRED_SCOPE`
  pub required_scope : Text

-- `s.split(',')[0]`
unfoldable pub before_comma : Text → Text
before_comma [] = []
before_comma (c ∷ s) = let rest = before_comma s in if c == b',' then [] else c ∷ rest

-- `x?.split(',')[0]`
abbrev pub first_proto : Option Text → Text
first_proto none = []
first_proto (some s) = before_comma s

-- `a || b || "http"`
abbrev pub scheme : Site → Text
scheme site =
    let forwarded = first_proto site.forwarded_proto in
    let own = or_empty site.protocol in
    if not (is_empty forwarded) then forwarded else if not (is_empty own) then own else codes "http"

unfoldable pub base_url : Site → Text
base_url site =
    let configured = or_empty site.public_url in
    if not (is_empty configured)
    then drop_slash configured
    else scheme site ++ codes "://" ++ site.host

unfoldable pub resource_url : Site → Text
resource_url site = base_url site ++ site.mcp_path

pub record Client : Type 0 where
  pub issued_at : ℕ
  pub redirect_uris : List Text
  pub client_name : Text

pub record CodeEntry : Type 0 where
  pub client_id : Text
  pub redirect_uri : Text
  pub challenge : Text
  pub resource : Text
  pub expires : ℕ

pub record RefreshEntry : Type 0 where
  pub client_id : Text
  pub audience : Text
  pub issued : ℕ

-- The three maps of `installOAuth`
pub record State : Type 0 where
  pub clients : Dict Client
  pub codes : Dict CodeEntry
  pub refresh : Dict RefreshEntry

abbrev pub no_state : State
no_state = record { clients = []; codes = []; refresh = [] }

pub record Registration : Type 0 where
  -- `none` if it is no array
  pub redirect_uris : Option (List Text)
  pub client_name : Option Text

pub data RegisterReply : Type 0 where
  no_redirect_uris : RegisterReply
  registered : (client_id : Text) → Client → RegisterReply

-- `body.client_name || 'unknown'`
abbrev pub name_or : Option Text → Text
name_or none = codes "unknown"
name_or (some s) = if is_empty s then codes "unknown" else s

abbrev pub register_uris :
    Option Text → (new_id : Text) (now : ℕ) → State → List Text → State × RegisterReply
register_uris name new_id now s [] = (s, no_redirect_uris)
register_uris name new_id now s (u ∷ us) =
    let client : Client = record {
      issued_at = now / 1000;
      redirect_uris = u ∷ us;
      client_name = name_or name;
    } in
    (record s { clients = Dict.insert new_id client s.clients }, registered new_id client)

abbrev pub uris_of : Option (List Text) → List Text
uris_of none = []
uris_of (some us) = us

-- `POST /register`; `new_id` is the client id that is drawn.
unfoldable pub register : Registration → (new_id : Text) (now : ℕ) → State → State × RegisterReply
register body new_id now s =
    register_uris body.client_name new_id now s (uris_of body.redirect_uris)

pub record AuthorizeQuery : Type 0 where
  pub client_id : Option Text
  pub redirect_uri : Option Text
  pub state : Option Text
  pub code_challenge : Option Text
  pub code_challenge_method : Option Text
  pub resource : Option Text

-- A redirect has the address, to which the platform adds the code and the state; the answer is
-- `crashed` where `new URL(…)` throws.
pub data AuthorizeReply : Type 0 where
  denied : (error why : String) → AuthorizeReply
  redirected : (uri code : Text) (state : Option Text) → AuthorizeReply
  crashed : AuthorizeReply

-- `m.get(k)`
abbrev pub lookup_opt {ℓ} : {V : Type ℓ} → Option Text → Dict V → Option V
lookup_opt none m = none
lookup_opt (some k) m = lookup k m

-- `resource || resourceUrl(req)`
abbrev pub resource_or : Site → Option Text → Text
resource_or site none = resource_url site
resource_or site (some r) = if is_empty r then resource_url site else r

abbrev pub grant_code :
    Site → AuthorizeQuery → (code : Text) (now : ℕ) → Text → Text → State → State
grant_code site q code now client_id uri s = record s {
  codes =
      Dict.insert code
        (record {
          client_id = client_id;
          redirect_uri = uri;
          challenge = or_empty q.code_challenge;
          resource = resource_or site q.resource;
          expires = now + code_ttl_ms;
        })
        s.codes;
}

abbrev pub authorize_client :
    (is_url : Text → Bool)
    → Site
    → AuthorizeQuery
    → (code : Text) (now : ℕ) → State
    → Option Client
    → State × AuthorizeReply
authorize_client is_url site q code now s none =
    (s, denied "invalid_client" "client_id not registered")
authorize_client is_url site q code now s (some client) =
    let uri = or_empty q.redirect_uri in
    if not (any (is_text q.redirect_uri) client.redirect_uris)
    then (s, denied "invalid_redirect_uri" "redirect_uri not among those registered")
    else if is_empty (or_empty q.code_challenge)
        || not (is_text q.code_challenge_method (codes "S256"))
    then (s, denied "invalid_request" "PKCE S256 required")
    else (
      grant_code site q code now (or_empty q.client_id) uri s,
      if is_url uri then redirected uri code (truthy q.state) else crashed,
    )

-- `GET /authorize`; `code` is the code that is drawn.
unfoldable pub authorize :
    (is_url : Text → Bool)
    → Site
    → AuthorizeQuery
    → (code : Text) (now : ℕ) → State
    → State × AuthorizeReply
authorize is_url site q code now s =
    authorize_client is_url site q code now s (lookup_opt q.client_id s.clients)
