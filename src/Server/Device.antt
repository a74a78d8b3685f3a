-- ===== src/Server/Device.antt =====
-- The stand-in for the customer's phone of apps/action-gateway/server.mjs. The lines of the outbox are
-- the entries that the process has written. The UTF-8 bytes of a text are a parameter.
pub mod Page
use pooli.Base.{
  ℕ, Bool, true, false, not, List, [], ◌∷◌, ◌++◌, Option, none, some, Text, codes, text_eq,
  is_empty, starts_with, drop, length, trim_start, ◌==◌, if◌then◌else◌,
}
use pooli.Base.Options.{or_empty}
use pooli.Base.Decimal.{decimal}
use pooli.Domain.Platform.{Platform}
use pooli.Agent.Redact.{other, text, member, done}
use pooli.Http.Page.{Fragment}
use pooli.Server.{World, Config, Sinks, OutboxEntry, record_line}
use Page.{device_page, shown}

-- `[^;]+`
unfoldable pub before_semicolon : Text → Text
before_semicolon [] = []
before_semicolon (c ∷ s) = let rest = before_semicolon s in if c == b';' then [] else c ∷ rest

abbrev pub non_empty : Text → Option Text
non_empty s = if is_empty s then none else some s

abbrev pub first_of : Option Text → Option Text → Option Text
first_of (some s) o = some s
first_of none o = o

-- `dev_op=([^;]+)` at the start of a text
unfoldable pub dev_op : Text → Option Text
dev_op s = if starts_with s (codes "dev_op=") then non_empty (before_semicolon (drop 7 s)) else none

-- `;\s*dev_op=([^;]+)`
unfoldable pub dev_op_behind : Text → Option Text
dev_op_behind [] = none
dev_op_behind (c ∷ s) =
    let rest = dev_op_behind s in if c == b';' then first_of (dev_op (trim_start s)) rest else rest

-- `cookieToken`, of the header
unfoldable pub cookie_token : Text → Option Text
cookie_token s = first_of (dev_op s) (dev_op_behind s)

pub record DeviceRequest : Type 0 where
  pub query_token : Option Text
  pub header_token : Option Text
  pub body_token : Option Text
  pub cookie : Option Text

unfoldable pub token_from : DeviceRequest → Option Text
token_from req =
    first_of req.query_token
      (first_of req.header_token (first_of req.body_token (cookie_token (or_empty req.cookie))))

unfoldable pub device_auth_ok : (utf8 : Text → List ℕ) → Config → Option Text → Bool
device_auth_ok utf8 config given = text_eq (utf8 (or_empty given)) (utf8 config.operator_token)

pub data DeviceReply : Type 0 where
  -- The answer to a path that has no route
  no_route : DeviceReply
  not_found : DeviceReply
  could_not_clear : DeviceReply
  see_device : DeviceReply
  -- A redirect that sets the cookie
  parked : (token : Text) → DeviceReply
  page : List Fragment → DeviceReply

abbrev pub read_outbox : World → Sinks → List OutboxEntry
read_outbox world s = if world.outbox_reads then s.outbox else []

abbrev pub cleared : Platform → World → Sinks → Sinks × DeviceReply
cleared env world s =
    let count = length (read_outbox world s) in
    if world.outbox_works
    then (
      record_line env (codes "demo_outbox_cleared")
          (member (codes "entries") (other (decimal count)) done) (record s { outbox = [] }),
      see_device,
    )
    else (
      record_line env (codes "demo_outbox_clear_failed")
          (member (codes "message") (text world.write_error) done) s,
      could_not_clear,
    )

-- `POST /demo/device/clear`
unfoldable pub post_clear :
    (utf8 : Text → List ℕ) → Platform → World → Config → DeviceRequest → Sinks → Sinks × DeviceReply
post_clear utf8 env world config req s =
    if is_empty config.operator_token
    then (s, no_route)
    else if not (device_auth_ok utf8 config (token_from req))
    then (s, not_found)
    else cleared env world s

-- `GET /demo/device`
unfoldable pub get_device :
    (utf8 : Text → List ℕ) (time : Text → Text)
    → World
    → Config
    → DeviceRequest
    → Sinks
    → DeviceReply
get_device utf8 time world config req s =
    if is_empty config.operator_token
    then no_route
    else if not (device_auth_ok utf8 config (token_from req))
    then not_found
    else if not (is_empty (or_empty req.query_token))
    then parked config.operator_token
    else page (device_page time (shown (read_outbox world s)))
