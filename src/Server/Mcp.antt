-- ===== src/Server/Mcp.antt =====
-- The agent's endpoint of apps/action-gateway/server.mjs: the token is checked, the request is
-- recorded, and a tool is called whose link code goes to the outbox. The MCP library takes the call
-- out of the body; a call of another method leaves the state alone. What is recorded of an error of that
-- library is left out.
use pooli.Base.{ℕ, Option, none, some, Text, codes}
use pooli.Domain.Platform.{Platform}
use pooli.Domain.Types.{Proposal}
use pooli.Domain.Store.{Store, get}
use pooli.Domain.Registry.{Draw}
use pooli.Agent.Redact.{Value, absent, text, done, member}
use pooli.Agent.Snapshot.{OrderSnapshot}
use pooli.Agent.Tools.{
  McpDeps, ToolResult, ToolOutcome, ProposeArgs, get_order_snapshot, propose_buyer_message,
  check_proposal_status,
}
use pooli.OAuth.{Site}
use pooli.OAuth.Bearer.{Jose, Gate, passed, require_token}
use pooli.Server.{World, Config, Sinks, record_line, deliver_link_code}

-- A call of a tool, with what it draws and what it reads of the order.
pub data ToolCall : Type 0 where
  reading : (found : Option OrderSnapshot) → ToolCall
  proposing : ProposeArgs → Draw → (now : ℕ) (found : Option OrderSnapshot) → ToolCall
  checking : (id : Text) (now wall : ℕ) → ToolCall

pub data McpReply : Type 0 where
  turned_away : Gate → McpReply
  answered : ToolResult → McpReply

pub record McpOutcome : Type 0 where
  pub store : Store
  pub sinks : Sinks
  pub reply : McpReply

abbrev pub mcp_deps : World → Config → Text → McpDeps
mcp_deps world config client_id = record {
  delivers = λ id code. world.outbox_works;
  confirmation_base_url = config.public_url;
  principal = some client_id;
}

abbrev pub or_kept : Sinks → Option Sinks → Sinks
or_kept s none = s
or_kept s (some s') = s'

-- The sinks behind the tool's call of `deliverLinkCode`. The proposal that is handed over with the
-- code is the one that the tool has just stored.
abbrev pub deliver_to :
    Platform → World → Config → (id link_code : Text) → Option Proposal → Sinks → Sinks
deliver_to env world config id link_code none s = s
deliver_to env world config id link_code (some p) s =
    or_kept s (deliver_link_code env world config p.payload id link_code s)

abbrev pub delivered_sinks :
    Platform → World → Config → Store → Option (Text × Text) → Sinks → Sinks
delivered_sinks env world config st none s = s
delivered_sinks env world config st (some (id, link_code)) s =
    deliver_to env world config id link_code (get st id) s

abbrev pub after_tool : Platform → World → Config → ToolOutcome → Sinks → McpOutcome
after_tool env world config out s = record {
  store = out.store;
  sinks = delivered_sinks env world config out.store out.delivered s;
  reply = answered out.result;
}

unfoldable pub call_tool : Platform → World → Config → Text → ToolCall → Store → Sinks → McpOutcome
call_tool env world config client_id (reading found) st s = record {
  store = st;
  sinks = s;
  reply = answered (get_order_snapshot found);
}
call_tool env world config client_id (proposing args draw now found) st s =
    after_tool env world config
      (propose_buyer_message env (mcp_deps world config client_id) args draw now st found) s
call_tool env world config client_id (checking id now wall) st s = record {
  store = st;
  sinks = s;
  reply = answered (check_proposal_status id now wall st);
}

-- What the handler records of a request.
pub record McpRequest : Type 0 where
  pub authorization : Option Text
  pub id : Text
  pub method : Option Text
  pub protocol_version : Option Text
  pub call : ToolCall

abbrev pub value_of : Option Text → Value
value_of none = absent
value_of (some s) = text s

abbrev pub past_gate : Platform → World → Config → McpRequest → Gate → Store → Sinks → McpOutcome
past_gate env world config req (passed client_id) st s =
    call_tool env world config client_id req.call st (
      record_line env (codes "mcp_request")
        (member (codes "reqId") (text req.id) (
          member (codes "method") (value_of req.method)
            (member (codes "protocolVersion") (value_of req.protocol_version) done)))
        s)
past_gate env world config req gate st s = record {
  store = st;
  sinks = s;
  reply = turned_away gate;
}

-- `app.post(MCP_PATH, requireToken, …)`
unfoldable pub post_mcp :
    Platform
    → Jose
    → Site
    → World
    → Config
    → McpRequest
    → (now_seconds : ℕ) → Store
    → Sinks
    → McpOutcome
post_mcp env jose site world config req now st s =
    past_gate env world config req (require_token env jose site req.authorization now) st s
