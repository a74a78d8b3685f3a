-- ===== src/Http/Page.antt =====
-- apps/action-gateway/src/http/confirmation-page.ts. A page is a list of fragments: the text of the
-- templates, and values, which the code puts in through `esc`. `Date.prototype.toLocaleString` is a
-- parameter.
pub mod Style
pub mod Escaping
use pooli.Base.{
  ℕ, ◌+◌, Bool, true, false, List, [], ◌∷◌, ◌++◌, Option, none, some, String, Text, codes, ◌==◌,
  if◌then◌else◌,
}
use pooli.Domain.Types.{
  ProposalState, pending_confirmation, confirmed, rejected, expired, executed, failed, state_eq,
  Proposal,
}
use pooli.Domain.Machine.{execution_reference_of}
use Style.{style}

pub record Copy : Type 0 where
  pub label : String
  pub tone : String
  pub detail : String

-- `STATE_COPY`
unfoldable pub state_copy : ProposalState → Copy
state_copy pending_confirmation = record {
  label = "Awaiting your approval";
  tone = "pending";
  detail = "Nothing has been sent to the buyer. Review the draft below carefully.";
}
state_copy confirmed = record {
  label = "Approved";
  tone = "ok";
  detail = "You approved this draft.";
}
state_copy executed = record {
  label = "Ready to send";
  tone = "ok";
  detail =
      "This is a demonstration system. Copy the approved text from Pooli when wired to production.";
}
state_copy rejected = record {
  label = "Declined";
  tone = "bad";
  detail = "You declined this draft. Nothing was sent.";
}
state_copy expired = record {
  label = "Expired";
  tone = "bad";
  detail = "This proposal was not approved in time. Ask the agent for a new draft.";
}
state_copy failed = record { label = "Failed"; tone = "bad"; detail = "Delivery did not complete." }

-- The replacement of one unit in `esc`.
unfoldable pub esc_unit : ℕ → Text
esc_unit c =
    if c == b'&'
    then codes "&amp;"
    else if c == b'<'
    then codes "&lt;"
    else if c == b'>'
    then codes "&gt;"
    else if c == 34
    then codes "&quot;"
    else if c == 39
    then codes "&#39;"
    else c ∷ []

unfoldable pub esc : Text → Text
esc [] = []
esc (c ∷ s) = esc_unit c ++ esc s

pub data Fragment : Type 0 where
  template : String → Fragment
  value : Text → Fragment

-- The text of a page.
unfoldable pub html : List Fragment → Text
html [] = []
html (template s ∷ fs) = codes s ++ html fs
html (value v ∷ fs) = esc v ++ html fs

unfoldable pub shell : Text → List Fragment → List Fragment
shell title body =
    template
      "<!doctype html>\n<html lang=\"en\"><head>\n<meta charset=\"utf-8\">\n<meta name=\"viewport\" content=\"width=device-width,initial-scale=1\">\n<meta name=\"robots\" content=\"noindex,nofollow\">\n<title>"
    ∷ value title
    ∷ template "</title>\n<style>"
    ∷ template style
    ∷ template "</style>\n</head><body><main class=\"card\">"
    ∷ (body ++ template "</main></body></html>" ∷ [])

unfoldable pub render_not_found : List Fragment
render_not_found = shell (codes "Not found") (
    template
      "<h1>Request not found</h1>\n     <p class=\"sub\">This confirmation link is not valid, or it has already been cleaned up.</p>"
    ∷ [])

abbrev pub reference_row : Option Text → List Fragment
reference_row none = []
reference_row (some ref) = template "<dt>Reference no.</dt><dd>" ∷ value ref ∷ template "</dd>" ∷ []

unfoldable pub details : (ℕ → Text) → Proposal → List Fragment
details show_date p =
    template "\n    <dl>\n      <dt>Order</dt><dd>"
    ∷ value p.payload.order_slug
    ∷ template "</dd>\n      <dt>Payment</dt><dd>"
    ∷ value p.payload.payment_status
    ∷ template "</dd>\n      <dt>Locale</dt><dd>"
    ∷ value p.payload.locale
    ∷ template "</dd>\n      <dt>Requested</dt><dd>"
    ∷ value (show_date p.created_at)
    ∷ template "</dd>\n      "
    ∷ (reference_row (execution_reference_of p) ++ template "\n    </dl>" ∷ [])

unfoldable pub form : Proposal → List Fragment
form p =
    template "<form method=\"post\" action=\"/p/"
    ∷ value p.id
    ∷ template "/confirm\">\n         <input type=\"hidden\" name=\"payloadDigest\" value=\""
    ∷ value p.payload_digest
    ∷ template
        "\">\n         <label for=\"code\">Enter the 6-character code sent to you</label>\n         <input id=\"code\" name=\"linkCode\" maxlength=\"6\" autocomplete=\"one-time-code\"\n                inputmode=\"latin\" autocapitalize=\"characters\" required autofocus>\n         <div class=\"row\">\n           <button class=\"approve\" type=\"submit\">Approve draft</button>\n           <button class=\"decline\" type=\"submit\" formaction=\"/p/"
    ∷ value p.id
    ∷ template
        "/reject\">Decline</button>\n         </div>\n       </form>\n       <p class=\"warn\">Only approve if this draft matches what you want to send.\n          Payment status is "
    ∷ value p.payload.payment_status
    ∷ template " — do not approve a draft that claims otherwise.</p>"
    ∷ []

abbrev pub error_box : Option String → List Fragment
error_box none = []
error_box (some message) =
    template "<div class=\"err\">" ∷ value (codes message) ∷ template "</div>" ∷ []

unfoldable pub render_proposal : (ℕ → Text) → Proposal → Option String → List Fragment
unfolding state_eq
render_proposal show_date p error =
    let copy = state_copy p.state in
    let actionable = state_eq p.state pending_confirmation in
    shell (codes "Confirm buyer message") (
      template "<h1>Confirm buyer message</h1>\n     <p class=\"sub\"><span class=\"badge "
      ∷ template copy.tone
      ∷ template "\">"
      ∷ value (codes copy.label)
      ∷ template "</span></p>\n     <p class=\"sub\">"
      ∷ value (codes copy.detail)
      ∷ template "</p>\n     <div class=\"draft\">"
      ∷ value p.payload.body
      ∷ template "</div>\n     "
      ∷ (details show_date p
          ++ (template "\n     "
              ∷ (error_box error ++ (template "\n     " ∷ (if actionable then form p else []))))))
