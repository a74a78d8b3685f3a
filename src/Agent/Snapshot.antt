-- ===== src/Agent/Snapshot.antt =====
-- apps/action-gateway/src/agent/snapshot.ts: the order as an agent is told of it. The environment,
-- `encodeURIComponent` and `fetch` are parameters. A field of the commerce API's answer is the text
-- that `String(…)` makes of it, `none` if it is absent or null; amounts are natural numbers.
pub mod Sources
use pooli.Base.{
  ℕ, zero, suc, ◌*◌, ◌/◌, ◌%◌, Bool, true, false, not, ◌&&◌, ◌||◌, List, [], ◌∷◌, ◌++◌, Option,
  none, some, Text, codes, text_eq, trim, is_empty, leb, ltb, ◌==◌, if◌then◌else◌,
}
use pooli.Base.Options.{or_else, truthy, drop_slash}
use pooli.Base.Decimal.{decimal, pad_zeros, drop_zeros}

pub record OrderSnapshot : Type 0 where
  pub merchant_id : Text
  pub order_id : Text
  pub title : Text
  pub slug : Text
  pub payment_status : Text
  pub expires_at : Option Text
  pub display : Text
  pub base_units : ℕ

abbrev pub fixture : OrderSnapshot
fixture = record {
  merchant_id = codes "00000000-0000-4000-8000-000000000001";
  order_id = codes "ord_e2e_fixture";
  title = codes "Ceramic mug set";
  slug = codes "ceramic-mug-e2e";
  payment_status = codes "AWAITING_PAYMENT";
  expires_at = some (codes "2030-01-01T00:00:00Z");
  display = codes "12.50";
  base_units = 12500000;
}

pub record Payment : Type 0 where
  pub status : Option Text
  pub expires_at : Option Text

pub record Body : Type 0 where
  pub merchant_id : Option Text
  pub order_id : Option Text
  pub slug : Option Text
  pub title : Option Text
  pub payment : Option Payment
  pub status : Option Text
  pub amount_usdt_base_units : Option ℕ

-- What `fetch` and `res.json()` give: `none` for a body that is no JSON.
pub data Fetched : Type 0 where
  threw : Fetched
  responded : (status : ℕ) (body : Option Body) → Fetched

pub record Deps : Type 0 where
  -- `POOLI_API_URL`, `POOLI_GATEWAY_SECRET`, `AGENT_GATEWAY_SECRET`
  pub api_url : Option Text
  pub gateway_secret : Option Text
  pub agent_secret : Option Text
  pub encode_uri_component : Text → Text
  -- The url and the secret that the request carries
  pub fetch : Text → Text → Fetched

-- `pooliApiBase`; its `null` is empty here, as its callers only ask whether it is falsy.
unfoldable pub pooli_api_base : Deps → Text
pooli_api_base deps = drop_slash (trim (or_else [] deps.api_url))

-- `gatewaySecret`, likewise
unfoldable pub gateway_secret_of : Deps → Text
gateway_secret_of deps =
    let s = trim (or_else [] deps.gateway_secret) in
    if is_empty s then trim (or_else [] deps.agent_secret) else s

unfoldable pub format_usdt_display : ℕ → Text
format_usdt_display base_units =
    let whole = decimal (base_units / 1000000) in
    let frac = drop_zeros (pad_zeros 6 (decimal (base_units % 1000000))) in
    if base_units == 0
    then codes "0"
    else if is_empty frac
    then whole
    else whole ++ codes "." ++ frac

-- `String(pay?.status ?? body.status ?? '')`
abbrev pub status_of : Body → Option Payment → Text
status_of body none = or_else [] body.status
status_of body (some pay) = or_else (or_else [] body.status) pay.status

abbrev pub expiry_of : Option Payment → Option Text
expiry_of none = none
expiry_of (some pay) = truthy pay.expires_at

abbrev pub amount_of : Option ℕ → ℕ
amount_of none = 0
amount_of (some n) = n

unfoldable pub map_pooli_api_snapshot : Body → Option OrderSnapshot
map_pooli_api_snapshot body =
    let merchant_id = or_else [] body.merchant_id in
    let order_id = or_else [] body.order_id in
    let slug = or_else [] body.slug in
    let base_units = amount_of body.amount_usdt_base_units in
    if is_empty merchant_id || is_empty order_id || is_empty slug
    then none
    else some (record {
      merchant_id = merchant_id;
      order_id = order_id;
      title = or_else [] body.title;
      slug = slug;
      payment_status = status_of body body.payment;
      expires_at = expiry_of body.payment;
      display = format_usdt_display base_units;
      base_units = base_units;
    })

-- `res.ok`
abbrev pub is_success : ℕ → Bool
is_success status = leb 200 status && leb status 299

abbrev pub snapshot_of_response : Fetched → Option OrderSnapshot
snapshot_of_response threw = none
snapshot_of_response (responded status none) = none
snapshot_of_response (responded status (some body)) =
    if status == 404
    then none
    else if not (is_success status)
    then none
    else map_pooli_api_snapshot body

-- The url that is asked for an order
abbrev pub snapshot_url : Deps → Text → Text
snapshot_url deps id =
    pooli_api_base deps
    ++ codes "/api/v1/agent/orders/"
    ++ deps.encode_uri_component id
    ++ codes "/snapshot"

unfoldable pub fetch_snapshot_from_api : Deps → Text → Option OrderSnapshot
fetch_snapshot_from_api deps order_id =
    if is_empty (pooli_api_base deps) || is_empty (gateway_secret_of deps)
    then none
    else snapshot_of_response (deps.fetch (snapshot_url deps order_id) (gateway_secret_of deps))

-- `if (fromApi) return fromApi;`
abbrev pub or_fixture : Deps → Text → Option OrderSnapshot → Option OrderSnapshot
or_fixture deps id (some snap) = some snap
or_fixture deps id none =
    if is_empty (pooli_api_base deps) && text_eq id fixture.order_id then some fixture else none

unfoldable pub fetch_order_snapshot : Deps → Text → Option OrderSnapshot
fetch_order_snapshot deps order_id =
    let id = trim order_id in
    if is_empty id then none else or_fixture deps id (fetch_snapshot_from_api deps id)
