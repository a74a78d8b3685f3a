-- ===== src/Agent/Tools/Drafts.antt =====
-- A proposal that the tool of mcp/server.ts has made on a snapshot, and when it makes one.
use pooli.Base.{
  true, false, none, some, Text, text_eq, trim, is_empty, if◌then◌else◌, ◌≡◌, ◌⊎◌, inl, inr, refl,
  sym, ap, ◌∙◌, arith,
}
use mathlib.Core.Path.{subst}
use pooli.Domain.Platform.{Platform}
use pooli.Domain.Types.{pending_confirmation, Proposal, Result, ok, fail}
use pooli.Domain.Machine.{create_proposal}
use pooli.Domain.Validation.Sanitize.{sanitize_body}
use pooli.Domain.Validation.Laws.{normal, validate_ok}
use pooli.Domain.Store.{Store, get}
use pooli.Domain.Registry
use pooli.Domain.Registry.{Draw, ProposeInput, ProposeOutput}
use pooli.Domain.Registry.Laws.{IsFresh, propose-IsFresh}
use pooli.Domain.Registry.Outcomes.{propose-Ends}
use pooli.Agent.Snapshot.{OrderSnapshot}
use pooli.Agent.Tools.{McpDeps, ProposeArgs, ToolOutcome, after_propose, payload_of}

-- One proposal is new: it is pending, for the snapshot's merchant, slug and payment status, with the
-- order, the body and the language of the agent; its code is delivered if it is not empty.
pub record IsNewDraft (env : Platform) (args : ProposeArgs) (snap : OrderSnapshot) (draw : Draw)
    (st : Store) (out : ToolOutcome) : Type 0 where
  pub proposal : Proposal
  pub unused : get st draw.new_id ≡ none
  pub stored :
      (id : Text) → get out.store id ≡ (if text_eq draw.new_id id then some proposal else get st id)
  pub id : proposal.id ≡ draw.new_id
  pub pending : proposal.state ≡ pending_confirmation
  pub merchant_id : proposal.payload.merchant_id ≡ trim snap.merchant_id
  pub order_slug : proposal.payload.order_slug ≡ snap.slug
  pub payment_status : proposal.payload.payment_status ≡ env.to_upper (trim snap.payment_status)
  pub order_id : proposal.payload.order_id ≡ trim args.order_id
  pub body : proposal.payload.body ≡ sanitize_body args.body
  pub locale : proposal.payload.locale ≡ env.to_lower (trim args.locale)
  pub delivered :
      out.delivered
      ≡ (if is_empty draw.new_link_code then none else some (draw.new_id, draw.new_link_code))

after_propose-store :
    (deps : McpDeps) (st : Store) (r : Result ProposeOutput)
    → (after_propose deps (st, r)).store ≡ st
after_propose-store deps st (fail e) = refl
after_propose-store deps st (ok out) = ground arith

after_propose-old :
    (deps : McpDeps) (st : Store) (out : ProposeOutput)
    → out.deduplicated ≡ true
    → (after_propose deps (st, ok out)).delivered ≡ none
after_propose-old deps st out old = ground arith

handed_out :
    (deps : McpDeps) (draw : Draw) (st : Store) (out : ProposeOutput)
    → out.deduplicated ≡ false
    → out.link_code ≡ draw.new_link_code
    → out.proposal.id ≡ draw.new_id
    → (after_propose deps (st, ok out)).delivered
      ≡ (if is_empty draw.new_link_code then none else some (draw.new_id, draw.new_link_code))
handed_out deps draw st out d c i = ground arith

module _ (env : Platform) (deps : McpDeps) (args : ProposeArgs) (draw : Draw) (st : Store) where
  fresh-IsNewDraft :
      (snap : OrderSnapshot) (key : Text) (st' : Store) (out : ProposeOutput)
      → snap.payment_status ≡ env.to_upper (trim args.payment_status)
      → snap.slug ≡ env.to_lower (trim args.order_slug)
      → IsFresh env
          (record { payload = payload_of env args snap; idempotency_key = key })
          draw
          st
          st'
          out
      → out.deduplicated ≡ false
      → IsNewDraft env args snap draw st (after_propose deps (st', ok out))
  unfolding create_proposal normal
  fresh-IsNewDraft snap key st' out status slug f d =
      let (same, _) = validate_ok env (payload_of env args snap) f.valid in
      let created = f.created in
      record {
        proposal = out.proposal;
        unused = f.unused;
        stored = λ id. rw (after_propose-store deps st' (ok out)) (f.stored id);
        id = ap (λ p. p.id) created;
        pending = ap (λ p. p.state) created;
        merchant_id = ap (λ p. p.payload.merchant_id) created ∙ ap (λ p. p.merchant_id) same;
        order_slug =
            ap (λ p. p.payload.order_slug) created ∙ (ap (λ p. p.order_slug) same ∙ sym slug);
        payment_status =
            ap (λ p. p.payload.payment_status) created
            ∙ (ap (λ p. p.payment_status) same ∙ ap (λ t. env.to_upper (trim t)) (sym status));
        order_id = ap (λ p. p.payload.order_id) created ∙ ap (λ p. p.order_id) same;
        body = ap (λ p. p.payload.body) created ∙ ap (λ p. p.body) same;
        locale = ap (λ p. p.payload.locale) created ∙ ap (λ p. p.locale) same;
        delivered = handed_out deps draw st' out d f.link_code (ap (λ p. p.id) created);
      }

  pub propose-effects :
      (snap : OrderSnapshot) (key : Text)
      → snap.payment_status ≡ env.to_upper (trim args.payment_status)
      → snap.slug ≡ env.to_lower (trim args.order_slug)
      → let out = after_propose deps (
          Registry.propose env
            (record { payload = payload_of env args snap; idempotency_key = key })
            draw
            st) in
        ((out.store ≡ st) × (out.delivered ≡ none)) ⊎ IsNewDraft env args snap draw st out
  propose-effects snap key status slug =
      let input : ProposeInput = record {
        payload = payload_of env args snap;
        idempotency_key = key;
      } in
      elim (propose-Ends env input draw st) [
        | inl (e, refused) ↦ inl (rw refused (refl, refl))
        | inr (inl (out, found, old)) ↦
            inl (rw found (after_propose-store deps st (ok out), after_propose-old deps st out old))
        | inr (inr (out, made, new)) ↦
            let ends : Registry.propose env input draw st
                ≡ ((Registry.propose env input draw st).0, ok out) =
              ap (λ r. ((Registry.propose env input draw st).0, r)) made in
            inr (
              subst (λ r. IsNewDraft env args snap draw st (after_propose deps r)) (sym ends)
                (fresh-IsNewDraft snap key _ out status slug
                  (propose-IsFresh env input draw st _ out ends new) new))
      ]
