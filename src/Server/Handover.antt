-- ===== src/Server/Handover.antt =====
-- What the delivery of a link code is told besides the code, in the agent's endpoint of
-- apps/action-gateway/server.mjs.
use pooli.Base.{
  ℕ, false, Option, none, some, Text, text_eq, trim, is_empty, Bool-cases, Option-cases, inl, inr,
  ◌≡◌, refl, sym, ap, ◌∙◌,
}
use pooli.Base.Dict.{Dict, lookup, insert, lookup-insert_self}
use pooli.Domain.Platform.{Platform}
use pooli.Domain.Types.{MessageDraftPayload, Proposal, Result, ok, fail}
use pooli.Domain.Machine.{create_proposal}
use pooli.Domain.Store.{Store, get, insert_proposal, find_by_idempotency_key, is_some, non_empty}
use pooli.Domain.Validation.{validate_message_draft}
use pooli.Domain.Registry
use pooli.Domain.Registry.{Draw, ProposeInput, ProposeOutput, propose_valid, propose_from, inserted}
use pooli.Agent.Snapshot.{OrderSnapshot}
use pooli.Agent.Tools.{McpDeps, ToolOutcome, ProposeArgs, after_propose, propose_buyer_message}
use pooli.Agent.Tools.Boundary.{with_code}

-- What the delivery of a code is told besides the code.
abbrev pub told : Text → Option Proposal → Option (Text × MessageDraftPayload)
told id none = none
told id (some p) = some (id, p.payload)

abbrev pub handed_over : Store → Option (Text × Text) → Option (Text × MessageDraftPayload)
handed_over st none = none
handed_over st (some (id, c)) = told id (get st id)

abbrev pub handed : ToolOutcome → Option (Text × MessageDraftPayload)
handed out = handed_over out.store out.delivered

told-insert :
    (id : Text) (p : Proposal) (m : Dict Proposal)
    → told id (lookup id (insert id p m)) ≡ some (id, p.payload)
told-insert id p m = ap (told id) (lookup-insert_self id p m)

inserted_handed :
    (env : Platform) (deps : McpDeps) (payload : MessageDraftPayload) (key : Text) (draw : Draw)
    (code : Text) (st : Store)
    → is_empty draw.new_link_code ≡ false
    → is_empty code ≡ false
    → handed (after_propose deps (propose_from env payload key draw none st))
      ≡ handed (after_propose deps (propose_from env payload key (with_code draw code) none st))
unfolding propose_from insert_proposal create_proposal get
inserted_handed env deps payload key draw code st n m =
    elim (Bool-cases (is_some (lookup draw.new_id st.by_id))) [
      | inl known ↦ rw known refl
      | inr new ↦ elim (Bool-cases (is_some (non_empty (lookup key st.by_idempotency)))) [
        | inl used ↦ rw (new, used) refl
        | inr free ↦
            rw (new, free, n, m)
              (told-insert draw.new_id _ st.by_id ∙ sym (told-insert draw.new_id _ st.by_id))
      ]
    ]

valid_handed :
    (env : Platform) (deps : McpDeps) (key : Text) (draw : Draw) (code : Text) (st : Store)
    (v : Result MessageDraftPayload)
    → is_empty draw.new_link_code ≡ false
    → is_empty code ≡ false
    → handed (after_propose deps (propose_valid env key draw st v))
      ≡ handed (after_propose deps (propose_valid env key (with_code draw code) st v))
valid_handed env deps key draw code st (fail e) n m = refl
valid_handed env deps key draw code st (ok payload) n m = elim (Bool-cases (is_empty (trim key))) [
  | inl blank ↦ rw blank refl
  | inr given ↦ elim (Option-cases (find_by_idempotency_key st key)) [
    | inl unseen ↦ rw (given, unseen) (inserted_handed env deps payload key draw code st n m)
    | inr (existing, found) ↦ rw (given, found) (unfold propose_from in refl)
  ]
]

propose-handed :
    (env : Platform) (deps : McpDeps) (input : ProposeInput) (draw : Draw) (code : Text)
    (st : Store)
    → is_empty draw.new_link_code ≡ false
    → is_empty code ≡ false
    → handed (after_propose deps (Registry.propose env input draw st))
      ≡ handed (after_propose deps (Registry.propose env input (with_code draw code) st))
unfolding Registry.propose
propose-handed env deps input draw code st n m =
    valid_handed env deps input.idempotency_key draw code st
      (validate_message_draft env input.payload) n m

pub propose_buyer_message-handed :
    (env : Platform) (deps : McpDeps) (args : ProposeArgs) (draw : Draw) (now : ℕ) (st : Store)
    (found : Option OrderSnapshot) (code : Text)
    → is_empty draw.new_link_code ≡ false
    → is_empty code ≡ false
    → handed (propose_buyer_message env deps args draw now st found)
      ≡ handed (propose_buyer_message env deps args (with_code draw code) now st found)
unfolding propose_buyer_message
propose_buyer_message-handed env deps args draw now st none code n m = refl
propose_buyer_message-handed env deps args draw now st (some snap) code n m =
    elim (Bool-cases (text_eq snap.payment_status (env.to_upper (trim args.payment_status)))) [
      | inr other_status ↦ rw other_status refl
      | inl status ↦ elim (Bool-cases (text_eq snap.slug (env.to_lower (trim args.order_slug)))) [
        | inr other_slug ↦ rw (status, other_slug) refl
        | inl slug ↦ elim (Bool-cases (is_empty snap.merchant_id)) [
          | inl nobody ↦ rw (status, slug, nobody) refl
          | inr somebody ↦ rw (status, slug, somebody) (propose-handed env deps _ draw code st n m)
        ]
      ]
    ]
