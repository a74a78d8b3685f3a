-- ===== src/OAuth/Metadata.antt =====
-- The discovery documents of apps/action-gateway/oauth.mjs, and the challenge of a refused request.
use pooli.Base.{List, [], ◌∷◌, ◌++◌, Text, codes}
use pooli.OAuth.{Site, base_url, resource_url}
use pooli.OAuth.Bearer.{Gate, unauthorized, invalid_token, insufficient_scope, passed}
use pooli.Base.{Option, none, some}

pub record ProtectedResource : Type 0 where
  pub resource : Text
  pub authorization_servers : List Text
  pub scopes_supported : List Text
  pub bearer_methods_supported : List Text

-- `prm`
unfoldable pub protected_resource : Site → ProtectedResource
protected_resource site = record {
  resource = resource_url site;
  authorization_servers = base_url site ∷ [];
  scopes_supported = site.required_scope ∷ [];
  bearer_methods_supported = codes "header" ∷ [];
}

pub record AuthorizationServer : Type 0 where
  pub issuer : Text
  pub authorization_endpoint : Text
  pub token_endpoint : Text
  pub registration_endpoint : Text
  pub jwks_uri : Text
  pub scopes_supported : List Text
  pub response_types_supported : List Text
  pub grant_types_supported : List Text
  pub code_challenge_methods_supported : List Text
  pub token_endpoint_auth_methods_supported : List Text

-- `asm`
unfoldable pub authorization_server : Site → AuthorizationServer
authorization_server site = record {
  issuer = base_url site;
  authorization_endpoint = base_url site ++ codes "/authorize";
  token_endpoint = base_url site ++ codes "/token";
  registration_endpoint = base_url site ++ codes "/register";
  jwks_uri = base_url site ++ codes "/.well-known/jwks.json";
  scopes_supported = site.required_scope ∷ [];
  response_types_supported = codes "code" ∷ [];
  grant_types_supported = codes "authorization_code" ∷ codes "refresh_token" ∷ [];
  code_challenge_methods_supported = codes "S256" ∷ [];
  token_endpoint_auth_methods_supported =
      codes "none" ∷ codes "client_secret_post" ∷ codes "client_secret_basic" ∷ [];
}

abbrev pub challenge : Site → Text
challenge site =
    codes "Bearer resource_metadata=\""
    ++ base_url site
    ++ codes "/.well-known/oauth-protected-resource"
    ++ site.mcp_path
    ++ codes "\""

-- The header WWW-Authenticate of the answer, `none` if the request is handed on
unfoldable pub www_authenticate : Site → Gate → Option Text
www_authenticate site unauthorized = some (challenge site)
www_authenticate site invalid_token = some (challenge site ++ codes ", error=\"invalid_token\"")
www_authenticate site insufficient_scope = some (
    challenge site
    ++ codes ", error=\"insufficient_scope\", scope=\""
    ++ site.required_scope
    ++ codes "\"")
www_authenticate site (passed client_id) = none
