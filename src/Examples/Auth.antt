-- ===== src/Examples/Auth.antt =====
-- The theorems about apps/action-gateway/oauth.mjs and server.mjs at concrete inputs: a client that
-- registers, asks for a code, and exchanges it; a shop whose draft is proposed.
use pooli.Base.{
  ◌≤◌, Bool, true, [], ◌∷◌, ◌++◌, List, none, some, Text, codes, text_eq, is_space, ◌≡◌, refl,
  arith,
}
use pooli.Base.{starts_with}
use pooli.Base.Options.{drop_slash, drop_slashes}
use pooli.Base.Dict.{lookup}
use pooli.Agent.Snapshot.{fixture}
use pooli.Base.{inl, inr}
use pooli.Domain.Store.{empty}
use pooli.Agent.Tools.{ProposeArgs}
use pooli.Agent.Tools.Boundary.{with_code}
use pooli.OAuth.{
  Site, State, no_state, CodeEntry, Registration, AuthorizeQuery, base_url, resource_url,
}
use pooli.OAuth.Token.{
  Codec, Fields, Draw, Claims, claims_of, granted, token, code_grant, is_target, fields_of, grant,
  merge, basic_id, issue,
}
use pooli.OAuth.Bearer.{require_token, passed}
use pooli.OAuth.Bearer.Opens.{token_opens}
use pooli.OAuth.Requests.{Request, registering, authorizing, exchanging, run}
use pooli.OAuth.Redeeming.{code_grant_iff}
use pooli.OAuth.Counting.{successes}
use pooli.OAuth.SpentCodes.{presents_code}
use pooli.OAuth.SingleUse.{redeemed_once}
use pooli.OAuth.Registered.{IsConsistent, run-IsConsistent}
use pooli.Server.{World, Config, Sinks, responded}
use pooli.Server.Mcp.{McpRequest, proposing, checking, post_mcp}
use pooli.Server.Blind.{trace, post_mcp_blind}
use pooli.Examples.{env, env-IsStandard, draw}
use pooli.Examples.Signer.{jose, jose-IsSound}

abbrev site : Site
site = record {
  public_url = some (codes "https://gw");
  forwarded_proto = none;
  protocol = some (codes "http");
  host = codes "localhost";
  mcp_path = codes "/mcp";
  required_scope = codes "mcp";
}

-- Hashes and encodings that change nothing
abbrev codec : Codec
codec = record {
  sha256_base64url = λ s. s;
  from_base64 = λ s. s;
  decode_uri_component = λ s. some s;
}

abbrev is_url : Text → Bool
is_url s = true

abbrev registration : Registration
registration = record { redirect_uris = some (codes "https://app/cb" ∷ []); client_name = none }

abbrev query : AuthorizeQuery
query = record {
  client_id = some (codes "c1");
  redirect_uri = some (codes "https://app/cb");
  state = none;
  code_challenge = some (codes "v");
  code_challenge_method = some (codes "S256");
  resource = none;
}

abbrev body : Fields
body = record {
  grant_type = some (codes "authorization_code");
  code = some (codes "k1");
  refresh_token = none;
  client_id = some (codes "c1");
  redirect_uri = some (codes "https://app/cb");
  code_verifier = some (codes "v");
  resource = none;
}

abbrev no_fields : Fields
no_fields = record {
  grant_type = none;
  code = none;
  refresh_token = none;
  client_id = none;
  redirect_uri = none;
  code_verifier = none;
  resource = none;
}

abbrev token_draw : Draw
token_draw = record { refresh_token = codes "r1"; now = 2000; now_seconds = 2 }

abbrev code_entry : CodeEntry
code_entry = record {
  client_id = codes "c1";
  redirect_uri = codes "https://app/cb";
  challenge = codes "v";
  resource = codes "https://gw/mcp/";
  expires = 61000;
}

abbrev with_entry : State
with_entry = record { clients = []; codes = (codes "k1", code_entry) ∷ []; refresh = [] }

abbrev requests : List Request
requests =
    registering registration (codes "c1") 0
    ∷ authorizing site query (codes "k1") 1000
    ∷ exchanging site body no_fields none token_draw
    ∷ exchanging site body no_fields none token_draw
    ∷ []

code_grant_iff_example :
    (code_grant codec site body token_draw with_entry).1
    ≡ granted (claims_of site token_draw (codes "c1") (resource_url site)) (codes "r1")
unfolding text_eq lookup is_target resource_url base_url drop_slash drop_slashes
code_grant_iff_example =
    (code_grant_iff codec site body token_draw with_entry).1 code_entry (record {
      known = refl;
      given = refl;
      in_time = omega arith;
      same_client = inr refl;
      same_uri = refl;
      has_verifier = refl;
      verified = refl;
      targeted = (code_entry.resource, inr (refl, refl), inr (inl refl));
    })

redeemed_once_example :
    successes env codec is_url
      (presents_code env codec (codes "k1"))
      (exchanging site body no_fields none token_draw
        ∷ exchanging site body no_fields none token_draw
        ∷ [])
      with_entry
    ≤ 1
unfolding text_eq
redeemed_once_example =
    (redeemed_once env codec is_url (codes "k1")
      (exchanging site body no_fields none token_draw
        ∷ exchanging site body no_fields none token_draw
        ∷ [])
      with_entry (tt, (tt, tt)) (refl, (refl, tt))).0

run-IsConsistent_example : IsConsistent (run env codec is_url requests no_state)
unfolding lookup
run-IsConsistent_example = run-IsConsistent env codec is_url requests (refl, (tt, (tt, (tt, tt))))

abbrev access : Claims
access = claims_of site token_draw (codes "c1") (resource_url site)

token_opens_example :
    require_token env jose site (some (codes "Bearer " ++ jose.sign access)) 100
    ≡ passed (codes "c1")
unfolding token grant fields_of merge basic_id code_grant issue text_eq lookup is_target
    resource_url base_url is_space starts_with drop_slash drop_slashes
token_opens_example =
    (token_opens env codec jose site body no_fields none token_draw with_entry access (codes "r1")
        100 env-IsStandard jose-IsSound refl (refl, (refl, (refl, tt))) refl).1
      (omega arith)

abbrev world : World
world = record {
  time = codes "2026";
  outbox_reads = true;
  write_error = [];
  outbox_works = true;
  fetch = λ r. responded 200 true;
}

abbrev config : Config
config = record {
  public_url = codes "https://gw";
  pooli_api_url = some (codes "https://api/");
  pooli_gateway_secret = some (codes "s");
  agent_gateway_secret = none;
  operator_token = [];
}

abbrev sinks : Sinks
sinks = record { audit = []; outbox = []; sent = [] }

abbrev args : ProposeArgs
args = record {
  order_id = codes "ord_e2e_fixture";
  order_slug = codes "ceramic-mug-e2e";
  body = codes "hi";
  locale = codes "en";
  payment_status = codes "awaiting_payment";
}

abbrev mcp_request : McpRequest
mcp_request = record {
  authorization = some (codes "Bearer " ++ jose.sign access);
  id = codes "q";
  method = some (codes "tools/call");
  protocol_version = none;
  call = checking (codes "p") 0 0;
}

post_mcp_blind_example :
    trace (
      post_mcp env jose site world config
        (record mcp_request { call = proposing args draw 5 (some fixture) })
        100
        empty
        sinks)
    ≡ trace (
        post_mcp env jose site world config
          (record mcp_request {
            call = proposing args (with_code draw (codes "ZZZ999")) 5 (some fixture);
          })
          100
          empty
          sinks)
post_mcp_blind_example =
    post_mcp_blind env jose site world config mcp_request args draw 5 (some fixture)
      (codes "ZZZ999") 100 empty sinks refl refl
