-- ===== src/Http/Internal.antt =====
-- apps/action-gateway/src/http/internal-api.ts: the route by which the commerce API proposes.
-- A field of the body is the text that `String(…)` makes of it, `none` if it is absent or null.
pub mod Guarantees
use pooli.Base.{
  ℕ, Bool, true, false, not, ◌&&◌, ◌||◌, List, [], ◌∷◌, ◌++◌, Option, none, some, String, Text,
  codes, text_eq, trim, is_empty, if◌then◌else◌,
}
use pooli.Base.Options.{or_else}
use pooli.Domain.Platform.{Platform}
use pooli.Domain.Types.{
  ProposalState, Proposal, ErrorCode, validation_failed, idempotency_conflict, MessageDraftPayload,
  DomainError, Result, ok, fail,
}
use pooli.Domain.Store.{Store}
use pooli.Domain.Registry
use pooli.Domain.Registry.{ProposeInput, ProposeOutput, Draw}
use pooli.Http.Confirmation.{code_name}

pub record ProposalRequest : Type 0 where
  pub secret : Option Text
  pub order_id : Option Text
  pub order_slug : Option Text
  pub merchant_id : Option Text
  pub body : Option Text
  pub locale : Option Text
  pub payment_status : Option Text
  pub idempotency_key : Option Text

pub data Reply : Type 0 where
  error_reply : String → Reply
  message_reply : String → String → Reply
  proposed_reply :
      (proposal_id : Text) (deduplicated : Bool) (confirm_url : Text) (state : ProposalState)
      → Reply

pub record Deps : Type 0 where
  pub gateway_secret : Text
  pub confirmation_base_url : Text
  -- `Buffer.from(s)`, the bytes that are compared in constant time
  pub utf8 : Text → List ℕ
  -- Whether `deliverLinkCode` returns; else it throws.
  pub delivers : Text → Text → Bool

-- What the route has done: the store, the answer, and the call of `deliverLinkCode`, if any.
pub record Outcome : Type 0 where
  pub store : Store
  pub status : ℕ
  pub reply : Reply
  pub delivered : Option (Text × Text)

-- `secretOk`
unfoldable pub secret_ok : Deps → Text → Text → Bool
secret_ok deps expected given = text_eq (deps.utf8 expected) (deps.utf8 given)

abbrev pub refuse : Store → ℕ → Reply → Outcome
refuse st status reply = record { store = st; status = status; reply = reply; delivered = none }

abbrev pub status_of_code : ErrorCode → ℕ
status_of_code idempotency_conflict = 409
status_of_code _ = 400

abbrev pub proposed : Deps → ProposeOutput → Reply
proposed deps out =
    proposed_reply out.proposal.id out.deduplicated
      (deps.confirmation_base_url ++ (codes "/p/" ++ out.proposal.id)) out.proposal.state

abbrev pub after_propose : Deps → Store × Result ProposeOutput → Outcome
after_propose deps (st, fail e) =
    refuse st (status_of_code e.code)
      (message_reply (code_name e.code) (if e.agent_safe then e.message else "refused"))
after_propose deps (st, ok out) =
    if not out.deduplicated && not (is_empty out.link_code)
    then record {
      store = st;
      status = if deps.delivers out.proposal.id out.link_code then 201 else 500;
      reply =
          if deps.delivers out.proposal.id out.link_code
          then proposed deps out
          else message_reply "delivery_failed"
              "Proposal saved but confirmation code could not be delivered.";
      delivered = some (out.proposal.id, out.link_code);
    }
    else refuse st (if out.deduplicated then 200 else 201) (proposed deps out)

-- `!orderId || !orderSlug || !merchantId || !body || !paymentStatus`
abbrev pub fields_missing : Platform → ProposalRequest → Bool
fields_missing env req =
    is_empty (trim (or_else [] req.order_id))
    || is_empty (trim (or_else [] req.order_slug))
    || is_empty (trim (or_else [] req.merchant_id))
    || is_empty (or_else [] req.body)
    || is_empty (env.to_upper (trim (or_else [] req.payment_status)))

-- `idempotencyKey`
abbrev pub key_of : ProposalRequest → Text
key_of req = trim (or_else [] req.idempotency_key)

-- The argument of `registry.propose`
abbrev pub request_input : Platform → ProposalRequest → ProposeInput
request_input env req =
    let locale = env.to_lower (trim (or_else (codes "en") req.locale)) in
    record {
      payload = record {
        order_id = trim (or_else [] req.order_id);
        order_slug = trim (or_else [] req.order_slug);
        merchant_id = trim (or_else [] req.merchant_id);
        body = or_else [] req.body;
        locale = if text_eq locale (codes "fa") then codes "fa" else codes "en";
        payment_status = env.to_upper (trim (or_else [] req.payment_status));
      };
      idempotency_key = key_of req;
    }

-- The handler, once the required fields are there.
abbrev pub propose_complete : Platform → Deps → ProposalRequest → Draw → Store → Outcome
propose_complete env deps req draw st =
    if is_empty (key_of req)
    then refuse st 400 (error_reply "idempotency_key_required")
    else after_propose deps (Registry.propose env (request_input env req) draw st)

-- `POST /v1/proposals` behind `requireGatewaySecret`
unfoldable pub propose_authorized : Platform → Deps → ProposalRequest → Draw → Store → Outcome
propose_authorized env deps req draw st =
    if fields_missing env req
    then refuse st 400 (error_reply "invalid_request")
    else propose_complete env deps req draw st

-- `POST /v1/proposals`
unfoldable pub post_proposals : Platform → Deps → ProposalRequest → Draw → Store → Outcome
post_proposals env deps req draw st =
    let expected = trim deps.gateway_secret in
    let got = trim (or_else [] req.secret) in
    if is_empty expected || is_empty got || not (secret_ok deps expected got)
    then refuse st 401 (error_reply "unauthorized")
    else propose_authorized env deps req draw st
