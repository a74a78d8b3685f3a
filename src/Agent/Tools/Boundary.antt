-- ===== src/Agent/Tools/Boundary.antt =====
-- The effects and answers of the proposing tool of mcp/server.ts.
use pooli.Base.{
  ℕ, false, Option, none, some, Text, text_eq, trim, is_empty, ◌≡◌, inl, inr, refl, arith,
  Bool-cases, Option-cases,
}
use pooli.Domain.Platform.{Platform}
use pooli.Domain.Types.{MessageDraftPayload, Result, ok, fail}
use pooli.Domain.Machine.{create_proposal}
use pooli.Domain.Validation.{validate_message_draft}
use pooli.Domain.Store.{Store, insert_proposal, find_by_idempotency_key}
use pooli.Domain.Registry
use pooli.Domain.Registry.{Draw, ProposeInput, ProposeOutput, propose_valid, propose_from, inserted}
use pooli.Agent.Snapshot.{OrderSnapshot}
use pooli.Agent.Tools.{McpDeps, ProposeArgs, after_propose, propose_buyer_message, minutes_left}

-- The draw of a call that differs in its link code.
abbrev pub with_code : Draw → Text → Draw
with_code draw code = record draw { new_link_code = code }

inserted_blind :
    (env : Platform) (deps : McpDeps) (payload : MessageDraftPayload) (key : Text) (draw : Draw)
    (code : Text) (st : Store)
    → is_empty draw.new_link_code ≡ false
    → is_empty code ≡ false
    → deps.delivers draw.new_id draw.new_link_code ≡ deps.delivers draw.new_id code
    → (after_propose deps (propose_from env payload key draw none st)).result
      ≡ (after_propose deps (propose_from env payload key (with_code draw code) none st)).result
unfolding propose_from insert_proposal create_proposal minutes_left
inserted_blind env deps payload key draw code st n m d = ground arith

valid_blind :
    (env : Platform) (deps : McpDeps) (key : Text) (draw : Draw) (code : Text) (st : Store)
    (v : Result MessageDraftPayload)
    → is_empty draw.new_link_code ≡ false
    → is_empty code ≡ false
    → deps.delivers draw.new_id draw.new_link_code ≡ deps.delivers draw.new_id code
    → (after_propose deps (propose_valid env key draw st v)).result
      ≡ (after_propose deps (propose_valid env key (with_code draw code) st v)).result
valid_blind env deps key draw code st (fail e) n m d = refl
valid_blind env deps key draw code st (ok payload) n m d = elim (Bool-cases (is_empty (trim key))) [
  | inl blank ↦ rw blank refl
  | inr given ↦ elim (Option-cases (find_by_idempotency_key st key)) [
    | inl unseen ↦ rw (given, unseen) (inserted_blind env deps payload key draw code st n m d)
    | inr (existing, found) ↦ rw (given, found) (unfold propose_from in refl)
  ]
]

propose_blind :
    (env : Platform) (deps : McpDeps) (input : ProposeInput) (draw : Draw) (code : Text)
    (st : Store)
    → is_empty draw.new_link_code ≡ false
    → is_empty code ≡ false
    → deps.delivers draw.new_id draw.new_link_code ≡ deps.delivers draw.new_id code
    → (after_propose deps (Registry.propose env input draw st)).result
      ≡ (after_propose deps (Registry.propose env input (with_code draw code) st)).result
unfolding Registry.propose
propose_blind env deps input draw code st n m d =
    valid_blind env deps input.idempotency_key draw code st
      (validate_message_draft env input.payload) n m d

-- The answer of the proposing tool does not depend on the link code: it is the same for every other
-- code, where neither is empty and the delivery of both succeeds or of both fails.
pub propose_buyer_message_blind :
    (env : Platform) (deps : McpDeps) (args : ProposeArgs) (draw : Draw) (now : ℕ) (st : Store)
    (found : Option OrderSnapshot) (code : Text)
    → is_empty draw.new_link_code ≡ false
    → is_empty code ≡ false
    → deps.delivers draw.new_id draw.new_link_code ≡ deps.delivers draw.new_id code
    → (propose_buyer_message env deps args draw now st found).result
      ≡ (propose_buyer_message env deps args (with_code draw code) now st found).result
unfolding propose_buyer_message
propose_buyer_message_blind env deps args draw now st none code n m d = refl
propose_buyer_message_blind env deps args draw now st (some snap) code n m d =
    elim (Bool-cases (text_eq snap.payment_status (env.to_upper (trim args.payment_status)))) [
      | inr other_status ↦ rw other_status refl
      | inl status ↦ elim (Bool-cases (text_eq snap.slug (env.to_lower (trim args.order_slug)))) [
        | inr other_slug ↦ rw (status, other_slug) refl
        | inl slug ↦ elim (Bool-cases (is_empty snap.merchant_id)) [
          | inl nobody ↦ rw (status, slug, nobody) refl
          | inr somebody ↦ rw (status, slug, somebody) (propose_blind env deps _ draw code st n m d)
        ]
      ]
    ]
