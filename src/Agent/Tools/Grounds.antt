-- ===== src/Agent/Tools/Grounds.antt =====
-- What the proposing tool of mcp/server.ts stores, against the snapshot of the order.
use pooli.Base.{
  ℕ, true, false, Option, none, some, text_eq, text_eq_iff, trim, is_empty, ◌≡◌, ◌⊎◌, inl, inr,
  refl, sym, arith, Bool-cases,
}
use mathlib.Core.Option.{some-injective}
use mathlib.Core.Path.{subst}
use pooli.Domain.Platform.{Platform}
use pooli.Domain.Types.{MessageDraftPayload}
use pooli.Domain.Store.{Store}
use pooli.Domain.Registry
use pooli.Domain.Registry.{Draw, ProposeInput, ProposeOutput}
use pooli.Agent.Tools.Drafts.{IsNewDraft, propose-effects}
use pooli.Agent.Snapshot.{OrderSnapshot}
use pooli.Agent.Tools.{
  McpDeps, ProposeArgs, principal_of, idempotency_key_for, after_propose, propose_buyer_message,
}

-- The order has a snapshot with the payment status and the slug that the agent names, up to outer
-- spaces and case, and with a merchant.
pub record IsGrounded (env : Platform) (args : ProposeArgs) (found : Option OrderSnapshot)
    : Type 0 where
  pub snap : OrderSnapshot
  pub is_found : found ≡ some snap
  pub same_status : snap.payment_status ≡ env.to_upper (trim args.payment_status)
  pub same_slug : snap.slug ≡ env.to_lower (trim args.order_slug)
  pub merchant : is_empty snap.merchant_id ≡ false

-- The three guards hold of the snapshot that was found.
guards :
    (env : Platform) (args : ProposeArgs) (snap : OrderSnapshot)
    → IsGrounded env args (some snap)
    → (text_eq snap.payment_status (env.to_upper (trim args.payment_status)) ≡ true)
      × (text_eq snap.slug (env.to_lower (trim args.order_slug)) ≡ true)
      × (is_empty snap.merchant_id ≡ false)
guards env args snap g =
    let same : g.snap ≡ snap = sym (some-injective _ _ g.is_found) in
    subst
      (λ s.
        (text_eq s.payment_status (env.to_upper (trim args.payment_status)) ≡ true)
        × (text_eq s.slug (env.to_lower (trim args.order_slug)) ≡ true)
        × (is_empty s.merchant_id ≡ false))
      same ((text_eq_iff _ _).1 g.same_status, (text_eq_iff _ _).1 g.same_slug, g.merchant)

-- What the tool registers, written out: the fields of the agent, but the snapshot's merchant and the
-- status in upper case.
abbrev pub agent_input : Platform → McpDeps → ProposeArgs → OrderSnapshot → (now : ℕ) → ProposeInput
agent_input env deps args snap now =
    let payload : MessageDraftPayload = record {
      order_id = args.order_id;
      order_slug = args.order_slug;
      merchant_id = snap.merchant_id;
      body = args.body;
      locale = args.locale;
      payment_status = env.to_upper (trim args.payment_status);
    } in
    record {
      payload = payload;
      idempotency_key = idempotency_key_for env (principal_of deps.principal) payload now;
    }

-- A call of the proposing tool that has no grounds leaves the store unchanged and delivers no code;
-- the grounds are a snapshot of the order with a merchant and with the payment status and the slug
-- that the agent names, up to outer spaces and case. On grounds the outcome is that of registering
-- the fields of the agent with the snapshot's merchant and the status in upper case; and then
-- either the store is unchanged and no code is delivered, or exactly one proposal is new: its id
-- was unused, it is pending, its merchant, slug and payment status are the snapshot's and its
-- order, body and language the agent's, each as validation normalises it, and its code, unless
-- empty, is delivered.
pub propose_buyer_message-IsGrounded :
    (env : Platform) (deps : McpDeps) (args : ProposeArgs) (draw : Draw) (now : ℕ) (st : Store)
    (found : Option OrderSnapshot)
    → let out = propose_buyer_message env deps args draw now st found in
      ((¬ IsGrounded env args found) × (out.store ≡ st) × (out.delivered ≡ none))
      ⊎ ((g : IsGrounded env args found) × (out
            ≡ after_propose deps
                (Registry.propose env (agent_input env deps args g.snap now) draw st))
          × (((out.store ≡ st) × (out.delivered ≡ none)) ⊎ IsNewDraft env args g.snap draw st out))
unfolding propose_buyer_message
propose_buyer_message-IsGrounded env deps args draw now st none =
    inl (λ g. absurd (cc (g.is_found)), refl, refl)
propose_buyer_message-IsGrounded env deps args draw now st (some snap) =
    elim (Bool-cases (text_eq snap.payment_status (env.to_upper (trim args.payment_status)))) [
      | inr other_status ↦
          inl (
            λ g. absurd (cc ((guards env args snap g).0, other_status)),
            ground arith,
            ground arith,
          )
      | inl status ↦ elim (Bool-cases (text_eq snap.slug (env.to_lower (trim args.order_slug)))) [
        | inr other_slug ↦ inl (
          λ g. absurd (cc ((let (_, slug, _) = guards env args snap g in slug), other_slug)),
          ground arith,
          ground arith,
        )
        | inl slug ↦ elim (Bool-cases (is_empty snap.merchant_id)) [
          | inl nobody ↦ inl (
            λ g. absurd (cc ((let (_, _, merchant) = guards env args snap g in merchant), nobody)),
            ground arith,
            ground arith,
          )
          | inr somebody ↦
              let same_status = (text_eq_iff _ _).0 status in
              let same_slug = (text_eq_iff _ _).0 slug in
              inr (
                record {
                  snap = snap;
                  is_found = refl;
                  same_status = same_status;
                  same_slug = same_slug;
                  merchant = somebody;
                },
                rw (status, slug, somebody) refl,
                rw (status, slug, somebody)
                    (propose-effects env deps args draw st snap _ same_status same_slug),
              )
        ]
      ]
    ]
