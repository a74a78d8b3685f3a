-- ===== src/Agent/Tools.antt =====
-- apps/action-gateway/src/mcp/server.ts: the three tools that an agent may call. The framework
-- validates the arguments against their schemas; a tool is a function of the parsed arguments.
pub mod Boundary
pub mod Drafts
pub mod Grounds
use pooli.Base.{
  ℕ, zero, suc, ◌+◌, ◌-◌, ◌*◌, ◌/◌, ◌%◌, Bool, true, false, not, ◌&&◌, ◌||◌, List, [], ◌∷◌, ◌++◌,
  Option, none, some, String, Text, codes, text_eq, trim, is_empty, join, keep, take, ltb,
  if◌then◌else◌,
}
use pooli.Base.Decimal.{decimal}
use pooli.Domain.Platform.{Platform}
use pooli.Domain.Types.{
  ProposalState, pending_confirmation, confirmed, rejected, expired, executed, failed, state_name,
  Proposal, MessageDraftPayload, DomainError, Result, ok, fail,
}
use pooli.Domain.Machine.{execution_reference_of}
use pooli.Domain.Store.{Store}
use pooli.Domain.Registry
use pooli.Domain.Registry.{Draw, ProposeOutput, get_for_confirmation}
use pooli.Agent.Snapshot.{OrderSnapshot}

-- The table `STATE_NARRATION`
abbrev pub state_narration : ProposalState → String
state_narration pending_confirmation =
    "Awaiting merchant approval. Nothing was sent to the buyer. Tell them to approve in the Pooli app."
state_narration confirmed = "The merchant approved the draft. It is queued for delivery."
state_narration rejected =
    "The merchant declined it. Propose a new draft if they still want to follow up."
state_narration expired = "It was not approved in time. Propose a new draft if needed."
state_narration executed = "Approved draft is ready (simulated send path)."
state_narration failed = "Delivery did not complete."

unfoldable pub refusal : DomainError → String
refusal e =
    if e.agent_safe
    then e.message
    else "That request was refused. Do not retry it; ask the merchant how they want to proceed."

-- `textResult`; the snapshot stands for its own JSON.
pub data ToolResult : Type 0 where
  text_result : (text : Text) (is_error : Bool) → ToolResult
  snapshot_result : OrderSnapshot → ToolResult

pub record McpDeps : Type 0 where
  -- Whether `deliverLinkCode` returns; else it throws.
  pub delivers : Text → Text → Bool
  pub confirmation_base_url : Text
  pub principal : Option Text

abbrev pub principal_of : Option Text → Text
principal_of none = codes "anonymous"
principal_of (some p) = p

unfoldable pub idempotency_key_for : Platform → Text → MessageDraftPayload → ℕ → Text
idempotency_key_for env principal p now =
    codes "mcp_"
    ++ take 32 (
        env.sha256_hex (
          join (0 ∷ []) (
            principal
            ∷ p.order_id
            ∷ p.order_slug
            ∷ p.merchant_id
            ∷ p.body
            ∷ p.locale
            ∷ p.payment_status
            ∷ decimal (now / 60000)
            ∷ [])))

unfoldable pub get_order_snapshot : Option OrderSnapshot → ToolResult
get_order_snapshot none = text_result (codes "No snapshot is available for that order id.") true
get_order_snapshot (some snap) = snapshot_result snap

pub record ProposeArgs : Type 0 where
  pub order_id : Text
  pub order_slug : Text
  pub body : Text
  pub locale : Text
  pub payment_status : Text

-- What a call of a tool has done: the store, the answer, and the call of `deliverLinkCode`, if any.
pub record ToolOutcome : Type 0 where
  pub store : Store
  pub result : ToolResult
  pub delivered : Option (Text × Text)

abbrev pub refused : Store → String → ToolOutcome
refused st message = record {
  store = st;
  result = text_result (codes message) true;
  delivered = none;
}

-- `Math.max(1, Math.round((expiresAt - createdAt) / 60_000))`
unfoldable pub minutes_left : Proposal → ℕ
minutes_left p =
    let n = (2 * (p.expires_at - p.created_at) + 60000) / 120000 in if ltb n 1 then 1 else n

abbrev pub proposed_text : McpDeps → Proposal → Bool → Text
proposed_text deps p deduplicated = join (10 ∷ []) (
    (if deduplicated
      then codes "Already proposed; reusing the existing proposal. NOTHING HAS BEEN SENT."
      else codes "Message proposed. NOTHING HAS BEEN SENT YET.")
    ∷ (codes "Proposal ID: " ++ p.id)
    ∷ (codes "Order: " ++ p.payload.order_slug)
    ∷ (codes "Expires in " ++ decimal (minutes_left p) ++ codes " minute(s).")
    ∷ (codes "Confirmation page: " ++ deps.confirmation_base_url ++ codes "/p/" ++ p.id)
    ∷ codes "The merchant approves there with a code sent separately."
    ∷ codes "You do not have that code. Do not ask for it and do not accept it here."
    ∷ [])

abbrev pub after_propose : McpDeps → Store × Result ProposeOutput → ToolOutcome
after_propose deps (st, fail e) = refused st (refusal e)
after_propose deps (st, ok out) =
    if not out.deduplicated && not (is_empty out.link_code)
    then record {
      store = st;
      result =
          if deps.delivers out.proposal.id out.link_code
          then text_result (proposed_text deps out.proposal out.deduplicated) false
          else text_result
              (codes
                "The proposal was registered but the confirmation code could not be delivered.")
              true;
      delivered = some (out.proposal.id, out.link_code);
    }
    else record {
      store = st;
      result = text_result (proposed_text deps out.proposal out.deduplicated) false;
      delivered = none;
    }

abbrev pub payload_of : Platform → ProposeArgs → OrderSnapshot → MessageDraftPayload
payload_of env args snap = record {
  order_id = args.order_id;
  order_slug = args.order_slug;
  merchant_id = snap.merchant_id;
  body = args.body;
  locale = args.locale;
  payment_status = env.to_upper (trim args.payment_status);
}

-- `now` is the clock that the idempotency key is made from.
abbrev pub propose_grounded :
    Platform → McpDeps → ProposeArgs → Draw → (now : ℕ) → Store → OrderSnapshot → ToolOutcome
propose_grounded env deps args draw now st snap = after_propose deps (
    Registry.propose env
      (record {
        payload = payload_of env args snap;
        idempotency_key =
            idempotency_key_for env (principal_of deps.principal) (payload_of env args snap) now;
      })
      draw st)

-- `snap` is what `fetchOrderSnapshot(args.orderId)` gives.
unfoldable pub propose_buyer_message :
    Platform
    → McpDeps
    → ProposeArgs
    → Draw
    → (now : ℕ) → Store
    → (snap : Option OrderSnapshot) → ToolOutcome
propose_buyer_message env deps args draw now st none =
    refused st "Fetch get_order_snapshot for this order before proposing."
propose_buyer_message env deps args draw now st (some snap) =
    if not (text_eq snap.payment_status (env.to_upper (trim args.payment_status)))
    then refused st "paymentStatus does not match the latest snapshot; refresh the snapshot."
    else if not (text_eq snap.slug (env.to_lower (trim args.order_slug)))
    then refused st "orderSlug does not match the snapshot."
    else if is_empty snap.merchant_id
    then refused st "Snapshot is missing merchant scope; cannot propose."
    else propose_grounded env deps args draw now st snap

-- `executionReferenceOf(p) ? … : ''`
abbrev pub reference_line : Option Text → Text
reference_line none = []
reference_line (some r) =
    if is_empty r then [] else codes "Reference: " ++ r ++ codes " (simulated)"

abbrev pub narrate : Option Proposal → ToolResult
narrate none = text_result (codes "No proposal with that ID is available.") true
narrate (some p) =
    text_result
      (join (10 ∷ []) (
        keep (λ line. not (is_empty line))
          ((codes "Proposal ID: " ++ p.id)
            ∷ (codes "Status: " ++ codes (state_name p.state))
            ∷ codes (state_narration p.state)
            ∷ []
            ∷ (codes "Order: " ++ p.payload.order_slug)
            ∷ (codes "Payment status (at propose): " ++ p.payload.payment_status)
            ∷ reference_line (execution_reference_of p)
            ∷ [])))
      false

unfoldable pub check_proposal_status : Text → (now wall : ℕ) → Store → ToolResult
check_proposal_status id now wall st = narrate (get_for_confirmation st id now wall)
