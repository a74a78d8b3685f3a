-- ===== src/Server/Blind.antt =====
-- What a link code leaves behind outside of the outbox when the agent's endpoint of
-- apps/action-gateway/server.mjs draws it.
use pooli.Base.{
  ℕ, false, Option, none, some, Text, is_empty, [], ◌∷◌, ◌++◌, if◌then◌else◌, Bool-cases, inl, inr,
  ◌≡◌, refl, sym, ap, ◌∙◌,
}
use pooli.Domain.Platform.{Platform}
use pooli.Domain.Types.{MessageDraftPayload, Proposal}
use pooli.Domain.Store.{Store, get}
use pooli.Domain.Registry.{Draw}
use pooli.Agent.Snapshot.{OrderSnapshot}
use pooli.Agent.Tools.{ProposeArgs, propose_buyer_message}
use pooli.Agent.Tools.Boundary.{with_code, propose_buyer_message_blind}
use pooli.OAuth.{Site}
use pooli.OAuth.Bearer.{
  Jose, Gate, unauthorized, invalid_token, insufficient_scope, passed, require_token,
}
use pooli.Server.{
  World, Config, Sinks, record_line, deliver_out_of_band, Notification, send, is_unset, announce,
  notify_pooli_draft_ready, record_fetch, FetchResult, responded, threw, deliver_link_code,
}
use pooli.Server.Mcp.{
  proposing, McpRequest, McpReply, McpOutcome, mcp_deps, deliver_to, delivered_sinks, call_tool,
  past_gate, post_mcp,
}
use pooli.Server.Handover.{told, handed_over, propose_buyer_message-handed}

-- All sinks but the outbox.
abbrev pub without_outbox : Sinks → Sinks
without_outbox s = record s { outbox = [] }

record_fetch-outbox :
    (env : Platform) (p : MessageDraftPayload) (id : Text) (r : FetchResult) (s : Sinks)
    → without_outbox (record_fetch env p id r s) ≡ record_fetch env p id r (without_outbox s)
unfolding record_fetch record_line
record_fetch-outbox env p id (responded status is_ok) s = refl
record_fetch-outbox env p id (threw message) s = refl

send-outbox :
    (env : Platform) (world : World) (p : MessageDraftPayload) (id : Text) (r : Notification)
    (s : Sinks)
    → without_outbox (send env world p id r s) ≡ send env world p id r (without_outbox s)
unfolding send
send-outbox env world p id r s =
    record_fetch-outbox env p id (world.fetch r) (record s { sent = s.sent ++ r ∷ [] })

notify-outbox :
    (env : Platform) (world : World) (config : Config) (p : MessageDraftPayload) (id : Text)
    (s : Sinks)
    → without_outbox (notify_pooli_draft_ready env world config p id s)
      ≡ notify_pooli_draft_ready env world config p id (without_outbox s)
unfolding notify_pooli_draft_ready
notify-outbox env world config p id s = elim (Bool-cases (is_unset config p)) [
  | inl unset ↦ rw unset refl
  | inr set ↦ rw set (send-outbox env world p id _ s)
]

announce-outbox :
    (env : Platform) (world : World) (config : Config) (p : MessageDraftPayload) (id : Text)
    (s : Sinks)
    → without_outbox (announce env world config p id s)
      ≡ announce env world config p id (without_outbox s)
unfolding announce record_line
announce-outbox env world config p id s = notify-outbox env world config p id _

deliver-outbox :
    (env : Platform) (world : World) (config : Config) (p : Proposal) (id c : Text) (s : Sinks)
    → without_outbox (deliver_to env world config id c (some p) s) ≡ (
        if world.outbox_works
        then announce env world config p.payload id (without_outbox s)
        else without_outbox s)
unfolding deliver_link_code deliver_out_of_band
deliver-outbox env world config p id c s = elim (Bool-cases world.outbox_works) [
  | inl works ↦ simp (works, announce-outbox)
  | inr fails ↦ simp fails
]

abbrev after_told : Platform → World → Config → Sinks → Option (Text × MessageDraftPayload) → Sinks
after_told env world config s none = s
after_told env world config s (some (id, payload)) =
    if world.outbox_works then announce env world config payload id s else s

told-outbox :
    (env : Platform) (world : World) (config : Config) (id c : Text) (o : Option Proposal)
    (s : Sinks)
    → without_outbox (deliver_to env world config id c o s)
      ≡ after_told env world config (without_outbox s) (told id o)
told-outbox env world config id c none s = refl
told-outbox env world config id c (some p) s = deliver-outbox env world config p id c s

delivered-outbox :
    (env : Platform) (world : World) (config : Config) (st : Store) (d : Option (Text × Text))
    (s : Sinks)
    → without_outbox (delivered_sinks env world config st d s)
      ≡ after_told env world config (without_outbox s) (handed_over st d)
delivered-outbox env world config st none s = refl
delivered-outbox env world config st (some (id, c)) s =
    told-outbox env world config id c (get st id) s

-- What a request to the agent's endpoint leaves behind outside of the store and the outbox.
abbrev pub trace : McpOutcome → Sinks × McpReply
trace out = (without_outbox out.sinks, out.reply)

call_tool_blind :
    (env : Platform) (world : World) (config : Config) (id : Text) (args : ProposeArgs)
    (draw : Draw) (now : ℕ) (found : Option OrderSnapshot) (code : Text) (st : Store) (s : Sinks)
    → is_empty draw.new_link_code ≡ false
    → is_empty code ≡ false
    → trace (call_tool env world config id (proposing args draw now found) st s)
      ≡ trace (call_tool env world config id (proposing args (with_code draw code) now found) st s)
unfolding call_tool
call_tool_blind env world config id args draw now found code st s n m =
    let deps = mcp_deps world config id in
    let one = propose_buyer_message env deps args draw now st found in
    let two = propose_buyer_message env deps args (with_code draw code) now st found in
    let same = propose_buyer_message-handed env deps args draw now st found code n m in
    let sinks =
      delivered-outbox env world config one.store one.delivered s
      ∙ ap (after_told env world config (without_outbox s)) same
      ∙ sym (delivered-outbox env world config two.store two.delivered s) in
    let answer = propose_buyer_message_blind env deps args draw now st found code n m refl in cc

-- Two requests to the agent's endpoint that propose the same and differ only in the link code that
-- is drawn, where neither code is empty, are answered alike and leave the same audit log and the
-- same requests to the commerce API.
pub post_mcp_blind :
    (env : Platform) (jose : Jose) (site : Site) (world : World) (config : Config)
    (req : McpRequest) (args : ProposeArgs) (draw : Draw) (now : ℕ) (found : Option OrderSnapshot)
    (code : Text) (now_seconds : ℕ) (st : Store) (s : Sinks)
    → is_empty draw.new_link_code ≡ false
    → is_empty code ≡ false
    → trace (
        post_mcp env jose site world config
          (record req { call = proposing args draw now found })
          now_seconds
          st
          s)
      ≡ trace (
          post_mcp env jose site world config
            (record req { call = proposing args (with_code draw code) now found })
            now_seconds
            st
            s)
unfolding post_mcp
post_mcp_blind env jose site world config req args draw now found code now_seconds st s n m =
    go (require_token env jose site req.authorization now_seconds)
  where
    go :
        (g : Gate)
        → trace (
            past_gate env world config (record req { call = proposing args draw now found }) g st s)
          ≡ trace (
              past_gate env world config
                (record req { call = proposing args (with_code draw code) now found })
                g
                st
                s)
    go unauthorized = refl
    go invalid_token = refl
    go insufficient_scope = refl
    go (passed id) = call_tool_blind env world config id args draw now found code st _ n m
