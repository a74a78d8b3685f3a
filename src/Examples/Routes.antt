-- ===== src/Examples/Routes.antt =====
-- The theorems about the routes, the tools and the log of the gateway at concrete inputs.
use pooli.Base.{
  ◌≤◌, true, false, [], ◌∷◌, none, some, Text, codes, text_eq, trim, trim_start, trim_end, is_space,
  ◌≡◌, ◌⊎◌, refl, arith, every, any, includes, starts_with, All,
}
use pooli.Base.Dict
use pooli.Base.Dict.{lookup}
use pooli.Domain.Types.{Proposal, executed, state_eq}
use pooli.Domain.Machine
use pooli.Domain.Canonical.{from_hex, hex_value}
use pooli.Domain.Machine.{
  mark_executed, guard, safe_equal_hex, hash_link_code, create_proposal, applied, expire_if_due,
  digest_payload,
}
use pooli.Domain.Machine.Branches.{IsApproved}
use pooli.Domain.Store.{find_by_idempotency_key, insert_proposal, empty, get, compare_and_swap}
use pooli.Domain.Registry
use pooli.Domain.Registry.{Clock, confirm_from}
use pooli.Domain.Validation.{
  validate_message_draft, is_order_id, is_merchant_id, is_slug, has, matches_groups,
}
use pooli.Domain.Validation.Sanitize.{sanitize_body, collapse}
use pooli.Domain.Validation.Lint.{lint_false_paid_claim, claims_paid, claims_paid_from, claim_here}
use pooli.Http.Limiter.{new_limiter, consume, clear}
use pooli.Http.Limiter.Bound.{attempts_through, attempts_through_bound}
use pooli.Http.Confirmation.{new_api, admit, Times, attempt, done, confirm_key}
use pooli.Http.Confirmation.Guarantees.{Guess, guesses_judged, guesses_judged_bound, attempt_done}
use pooli.Http.Page.{esc, html, render_proposal}
use pooli.Http.Page.Escaping.{is_markup, esc_safe, markup_count, render_proposal-markup}
use pooli.Http.Internal
use pooli.Http.Internal.{ProposalRequest, Outcome, post_proposals, secret_ok}
use pooli.Http.Internal.Guarantees.{post_proposals_delivered}
use pooli.Agent.Snapshot
use pooli.Agent.Snapshot.{OrderSnapshot, fixture, threw}
use pooli.Agent.Tools.{
  McpDeps, ProposeArgs, propose_buyer_message, after_propose, idempotency_key_for,
}
use pooli.Agent.Tools.Boundary.{propose_buyer_message_blind}
use pooli.Agent.Tools.Drafts.{IsNewDraft}
use pooli.Agent.Tools.Grounds.{IsGrounded, agent_input, propose_buyer_message-IsGrounded}
use pooli.Agent.Redact.{text, object, done, member, redact, is_secret_key, spell, shape}
use pooli.Agent.Redact.Secrecy.{objects, secret_members, dones, redact_noninterference}
use pooli.Examples.{creation, draft, env, draft, draw, proposal, carried_out, store_of, clock}

attempts_through_bound_example :
    (attempts_through (new_limiter 2 100) (codes "k") (10 ∷ 20 ∷ 30 ∷ [])).1 ≤ 2
unfolding new_limiter lookup
attempts_through_bound_example =
    (attempts_through_bound (new_limiter 2 100) (codes "k") 10 (10 ∷ 20 ∷ 30 ∷ []) (omega arith)
        (λ cur e. absurd (cc))
        (omega arith, omega arith, (omega arith, omega arith, (omega arith, omega arith, tt)))).1
      refl

abbrev times : Times
times = record {
  limiter_now = 2000;
  global_now = 2000;
  clock = clock;
  execute_wall = 3000;
  show_now = 3000;
  show_wall = 3000;
}

abbrev guess : Guess
guess = record { link_code = codes "AAAAAA"; digest = []; times = times }

guesses_judged_bound_example :
    guesses_judged env (new_api (store_of proposal)) (codes "p") (guess ∷ guess ∷ []) ≤ 5
unfolding new_api new_limiter lookup
guesses_judged_bound_example =
    (guesses_judged_bound env (new_api (store_of proposal)) (codes "p") 2000 (guess ∷ guess ∷ [])
        (omega arith) (λ cur e. absurd (cc))
        (omega arith, omega arith, (omega arith, omega arith, tt))).1
      refl

esc_safe_example : All (λ d. is_markup d ≡ false) (esc (codes "<b>"))
esc_safe_example = (esc_safe (codes "<b>") (codes "&")).0

-- The same proposal, but its body tries to close an element and to open a script.
abbrev hostile : Proposal
hostile =
    create_proposal env
      (record creation { payload = record draft { body = codes "</dd><script>" } })

render_proposal-markup_example :
    markup_count (html (render_proposal (λ n. []) proposal none))
    ≡ markup_count (html (render_proposal (λ n. []) hostile none))
unfolding create_proposal digest_payload Machine.execution_reference_of
render_proposal-markup_example = render_proposal-markup (λ n. []) proposal hostile none refl refl

abbrev request : ProposalRequest
request = record {
  secret = some (codes "s3cret");
  order_id = some (codes "ord_1");
  order_slug = some (codes "mug");
  merchant_id = some (codes "0");
  body = some (codes "hi");
  locale = none;
  payment_status = some (codes "EXPIRED");
  idempotency_key = some (codes "k");
}

abbrev internal_deps : Internal.Deps
internal_deps = record {
  gateway_secret = codes "other";
  confirmation_base_url = codes "https://x";
  utf8 = λ s. s;
  delivers = λ id code. true;
}

post_proposals_delivered_example :
    let out = post_proposals env internal_deps request draw empty in
    (out.status ≡ 401) × (out.store ≡ empty) × (out.delivered ≡ none)
unfolding secret_ok trim trim_start trim_end is_space text_eq
post_proposals_delivered_example =
    (post_proposals_delivered env internal_deps request draw empty (codes "p") (codes "ABC234")).1
      refl

abbrev snapshot_deps : Snapshot.Deps
snapshot_deps = record {
  api_url = none;
  gateway_secret = none;
  agent_secret = none;
  encode_uri_component = λ s. s;
  fetch = λ url secret. threw;
}

abbrev args : ProposeArgs
args = record {
  order_id = codes "ord_e2e_fixture";
  order_slug = codes "ceramic-mug-e2e";
  body = codes "hi";
  locale = codes "en";
  payment_status = codes "awaiting_payment";
}

abbrev mcp_deps : McpDeps
mcp_deps = record {
  delivers = λ id code. true;
  confirmation_base_url = codes "https://x";
  principal = none;
}

propose_buyer_message-IsGrounded_example :
    let out = propose_buyer_message env mcp_deps args draw 5 empty (some fixture) in
    ((¬ IsGrounded env args (some fixture)) × (out.store ≡ empty) × (out.delivered ≡ none))
    ⊎ ((g : IsGrounded env args (some fixture)) × (out
          ≡ after_propose mcp_deps
              (Registry.propose env (agent_input env mcp_deps args g.snap 5) draw empty))
        × (((out.store ≡ empty) × (out.delivered ≡ none))
            ⊎ IsNewDraft env args g.snap draw empty out))
propose_buyer_message-IsGrounded_example =
    propose_buyer_message-IsGrounded env mcp_deps args draw 5 empty (some fixture)

-- A call on the grounds of the fixture does register a proposal: the second alternative is met.
handed_out :
    (propose_buyer_message env mcp_deps args draw 5 empty (some fixture)).delivered
    ≡ some (codes "p", codes "ABC234")
unfolding propose_buyer_message empty text_eq trim trim_start trim_end is_space every any lookup
    Registry.propose Registry.propose_from validate_message_draft is_order_id is_merchant_id
    matches_groups is_slug has sanitize_body collapse lint_false_paid_claim claims_paid
    claims_paid_from claim_here find_by_idempotency_key insert_proposal create_proposal
    idempotency_key_for
handed_out = refl

propose_buyer_message_blind_example :
    (propose_buyer_message env mcp_deps args draw 5 empty (some fixture)).result
    ≡ (propose_buyer_message env mcp_deps args
        (record draw { new_link_code = codes "ZZZZZZ" })
        5
        empty
        (some fixture)).result
propose_buyer_message_blind_example =
    propose_buyer_message_blind env mcp_deps args draw 5 empty (some fixture) (codes "ZZZZZZ") refl
      refl refl

redact_noninterference_example :
    redact env (object (member (codes "code") (text (codes "ABC234")) done)) 0
    ≡ redact env (object (member (codes "code") (text (codes "XYZ567")) done)) 0
unfolding is_secret_key any includes starts_with text_eq spell shape every
redact_noninterference_example =
    redact_noninterference env (object (member (codes "code") (text (codes "ABC234")) done))
      (object (member (codes "code") (text (codes "XYZ567")) done)) 0
      (objects _ _ (
        secret_members (codes "code") _ _ done done refl
          (record {
            same_presence = refl;
            spelled = record { same_length = refl; same_shape = refl };
          })
          dones))

abbrev judged : Text
judged = codes "ABC234"

went_through :
    (attempt env
      (new_api (store_of proposal))
      (codes "p")
      judged
      (digest_payload env draft)
      times).1
    ≡ done carried_out
unfolding attempt admit new_api new_limiter consume clear confirm_key Registry.confirm
    Registry.execute Registry.execute_from mark_executed state_eq get confirm_from Machine.confirm
    expire_if_due guard safe_equal_hex hash_link_code digest_payload from_hex hex_value text_eq
    compare_and_swap lookup Dict.insert Dict.erase create_proposal applied
went_through = refl

attempt_done_example :
    (current : Proposal) × (get (store_of proposal) (codes "p") ≡ some current)
    × IsApproved env current
        (record { link_code = judged; seen_digest = digest_payload env draft; now = 2000 })
    × (carried_out.state ≡ executed)
unfolding new_api
attempt_done_example =
    attempt_done env (new_api (store_of proposal)) (codes "p") judged (digest_payload env draft)
      times carried_out went_through
