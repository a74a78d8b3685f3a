-- ===== src/Server.antt =====
-- apps/action-gateway/server.mjs: the sinks that the process writes to, and the delivery of a link
-- code. A line of the audit log is its kind and its redacted payload; it goes to the console and to
-- the file diag.jsonl, whose failures are swallowed. The time stamps of the audit log are
-- left out.
pub mod Mcp
pub mod Service
pub mod Device
pub mod Handover
pub mod Blind
use pooli.Base.{
  ℕ, Bool, true, false, not, ◌&&◌, ◌||◌, List, [], ◌∷◌, ◌++◌, Option, none, some, Text, codes, trim,
  is_empty, if◌then◌else◌,
}
use pooli.Base.Options.{or_empty, drop_slash}
use pooli.Base.Decimal.{decimal}
use pooli.Domain.Platform.{Platform}
use pooli.Domain.Types.{MessageDraftPayload}
use pooli.Agent.Redact.{Value, text, other, object, Members, done, member, redact}

-- The environment variables that are read, `none` if unset; `public_url` is `PUBLIC_URL` with its
-- default.
pub record Config : Type 0 where
  pub public_url : Text
  pub pooli_api_url : Option Text
  pub pooli_gateway_secret : Option Text
  pub agent_gateway_secret : Option Text
  pub operator_token : Text

pub record Entry : Type 0 where
  pub kind : Text
  pub payload : Value

-- A line of outbox.jsonl
pub record OutboxEntry : Type 0 where
  pub ts : Text
  pub to : Text
  pub proposal_id : Text
  pub link_code : Text
  pub message : Text
  pub order_slug : Text
  pub payment_status : Text

-- The request that tells the commerce API of a draft: its address, its secret header and its body
pub record Notification : Type 0 where
  pub url : Text
  pub secret : Text
  pub merchant_id : Text
  pub order_id : Text
  pub order_slug : Text
  pub proposal_id : Text
  pub confirm_url : Text
  pub locale : Text

pub data FetchResult : Type 0 where
  responded : (status : ℕ) (is_ok : Bool) → FetchResult
  threw : (message : Text) → FetchResult

-- What is outside of the process: the clock, as the text of `new Date().toISOString()`; whether the
-- outbox can be written and read; and the answers of `fetch`.
pub record World : Type 0 where
  pub time : Text
  pub outbox_reads : Bool
  -- The message of the error of a failed write
  pub write_error : Text
  pub outbox_works : Bool
  pub fetch : Notification → FetchResult

pub record Sinks : Type 0 where
  pub audit : List Entry
  pub outbox : List OutboxEntry
  pub sent : List Notification

-- `record(kind, payload)`
unfoldable pub record_line : Platform → Text → Members → Sinks → Sinks
record_line env kind payload s = record s {
  audit = s.audit ++ (record { kind = kind; payload = redact env (object payload) 0 }) ∷ [];
}

-- `deliverOutOfBand(entry)`, `none` where it throws
unfoldable pub deliver_out_of_band : World → OutboxEntry → Sinks → Option Sinks
deliver_out_of_band world entry s =
    if world.outbox_works then some (record s { outbox = s.outbox ++ entry ∷ [] }) else none

abbrev pub confirm_url : Config → Text → Text
confirm_url config id = config.public_url ++ codes "/p/" ++ id

-- `a ?? b ?? ''`
abbrev pub either : Option Text → Option Text → Text
either none y = or_empty y
either (some x) y = x

abbrev pub bool_text : Bool → Text
bool_text true = codes "true"
bool_text false = codes "false"

-- The line that is recorded for the answer.
unfoldable pub record_fetch : Platform → MessageDraftPayload → Text → FetchResult → Sinks → Sinks
record_fetch env payload id (responded status is_ok) s =
    record_line env (codes "pooli_draft_ready_notify")
      (member (codes "proposalId") (text id) (
        member (codes "orderId") (text payload.order_id) (
          member (codes "status") (other (decimal status))
            (member (codes "ok") (other (bool_text is_ok)) done))))
      s
record_fetch env payload id (threw message) s =
    record_line env (codes "pooli_draft_ready_notify_failed")
      (member (codes "proposalId") (text id) (member (codes "message") (text message) done)) s

abbrev pub notification : Config → MessageDraftPayload → (base secret id : Text) → Notification
notification config payload base secret id = record {
  url = base ++ codes "/api/v1/agent/draft-ready";
  secret = secret;
  merchant_id = payload.merchant_id;
  order_id = payload.order_id;
  order_slug = payload.order_slug;
  proposal_id = id;
  confirm_url = confirm_url config id;
  locale = payload.locale;
}

abbrev pub api_base : Config → Text
api_base config = drop_slash (trim (or_empty config.pooli_api_url))

abbrev pub api_secret : Config → Text
api_secret config = trim (either config.pooli_gateway_secret config.agent_gateway_secret)

-- The request and the line that is recorded for its answer
unfoldable pub send : Platform → World → MessageDraftPayload → Text → Notification → Sinks → Sinks
send env world payload id request s =
    record_fetch env payload id (world.fetch request) (record s { sent = s.sent ++ request ∷ [] })

-- `!base || !secret || !merchantId`
unfoldable pub is_unset : Config → MessageDraftPayload → Bool
is_unset config payload =
    is_empty (api_base config) || is_empty (api_secret config) || is_empty payload.merchant_id

-- `notifyPooliDraftReady`
unfoldable pub notify_pooli_draft_ready :
    Platform → World → Config → MessageDraftPayload → Text → Sinks → Sinks
notify_pooli_draft_ready env world config payload id s =
    if is_unset config payload
    then s
    else send env world payload id
        (notification config payload (api_base config) (api_secret config) id) s

abbrev pub outbox_entry : Text → Config → MessageDraftPayload → (id link_code : Text) → OutboxEntry
outbox_entry ts config payload id link_code = record {
  ts = ts;
  to = codes "customer-device";
  proposal_id = id;
  link_code = link_code;
  message =
      codes "Your confirmation code is "
      ++ link_code
      ++ codes ". Approve at "
      ++ confirm_url config id;
  order_slug = payload.order_slug;
  payment_status = payload.payment_status;
}

-- `deliverLinkCode` behind the outbox
unfoldable pub announce : Platform → World → Config → MessageDraftPayload → Text → Sinks → Sinks
announce env world config payload id s = notify_pooli_draft_ready env world config payload id (
    record_line env (codes "link_code_delivered")
      (member (codes "proposalId") (text id) (
        member (codes "channel")
          (text (codes "out-of-band (simulated: outbox file stands in for the merchant device)"))
          (member (codes "orderSlug") (text payload.order_slug) (
            member (codes "paymentStatus") (text payload.payment_status)
              (member (codes "confirmUrl") (text (confirm_url config id)) done)))))
      s)

abbrev pub after_outbox {ℓ} : {A : Type ℓ} → (A → A) → Option A → Option A
after_outbox f none = none
after_outbox f (some s) = some (f s)

-- `deliverLinkCode`, `none` where it throws
unfoldable pub deliver_link_code :
    Platform → World → Config → MessageDraftPayload → (id link_code : Text) → Sinks → Option Sinks
deliver_link_code env world config payload id link_code s =
    after_outbox (announce env world config payload id)
      (deliver_out_of_band world (outbox_entry world.time config payload id link_code) s)
