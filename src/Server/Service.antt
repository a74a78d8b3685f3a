-- ===== src/Server/Service.antt =====
-- The service route as apps/action-gateway/server.mjs mounts it: not at all without a secret, and with
-- the delivery of a link code to the outbox.
use pooli.Base.{ℕ, List, Option, none, some, Text, is_empty, if◌then◌else◌}
use pooli.Domain.Platform.{Platform}
use pooli.Domain.Store.{Store}
use pooli.Domain.Registry.{Draw}
use pooli.Http.Internal.{ProposalRequest, Reply, Deps, Outcome, post_proposals}
use pooli.Server.{World, Config, Sinks, api_secret}
use pooli.Server.Mcp.{delivered_sinks}

-- The answer is `none` where the route is not mounted.
pub record ServiceOutcome : Type 0 where
  pub store : Store
  pub sinks : Sinks
  pub reply : Option (ℕ × Reply)

abbrev pub service_deps : (utf8 : Text → List ℕ) → World → Config → Deps
service_deps utf8 world config = record {
  gateway_secret = api_secret config;
  confirmation_base_url = config.public_url;
  utf8 = utf8;
  delivers = λ id code. world.outbox_works;
}

abbrev pub after_service : Platform → World → Config → Outcome → Sinks → ServiceOutcome
after_service env world config out s = record {
  store = out.store;
  sinks = delivered_sinks env world config out.store out.delivered s;
  reply = some (out.status, out.reply);
}

-- `POST /internal/v1/proposals`
unfoldable pub post_service :
    (utf8 : Text → List ℕ)
    → Platform
    → World
    → Config
    → ProposalRequest
    → Draw
    → Store
    → Sinks
    → ServiceOutcome
post_service utf8 env world config req draw st s =
    if is_empty (api_secret config)
    then record { store = st; sinks = s; reply = none }
    else after_service env world config
        (post_proposals env (service_deps utf8 world config) req draw st) s
