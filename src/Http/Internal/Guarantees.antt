-- ===== src/Http/Internal/Guarantees.antt =====
-- Deliveries of the service route of internal-api.ts.
use pooli.Base.{
  Bool, true, false, not, ◌&&◌, ◌||◌, [], none, some, Text, text_eq_refl, trim, is_empty,
  if◌then◌else◌, Bool-cases, ◌≡◌, refl, ap, ◌∙◌, inl, inr, arith,
}
use pooli.Base.Options.{or_else}
use pooli.Domain.Platform.{Platform}
use pooli.Domain.Types.{Proposal, Result, ok, fail}
use pooli.Domain.Machine.{create_proposal, hash_link_code}
use pooli.Domain.Store.{Store, get}
use pooli.Domain.Registry
use pooli.Domain.Registry.{Draw, ProposeInput, ProposeOutput}
use pooli.Domain.Registry.Success.{fresh-id}
use pooli.Domain.Registry.Laws.{IsFresh, propose-IsFresh}
use pooli.Http.Internal.{
  ProposalRequest, error_reply, Deps, Outcome, secret_ok, refuse, after_propose, fields_missing,
  key_of, request_input, propose_complete, propose_authorized, post_proposals,
}

-- What holds when the route has handed a link code to its delivery.
pub record IsDelivered (env : Platform) (draw : Draw) (st : Store) (out : Outcome) (id code : Text)
    : Type 0 where
  pub fresh_id : id ≡ draw.new_id
  pub fresh_code : code ≡ draw.new_link_code
  pub unused : get st id ≡ none
  pub stored :
      (p : Proposal) × (get out.store id ≡ some p) × (p.link_code_hash ≡ hash_link_code env code)

fresh-hash :
    (env : Platform) (input : ProposeInput) (draw : Draw) (st st' : Store) (out : ProposeOutput)
    → IsFresh env input draw st st' out
    → out.proposal.link_code_hash ≡ hash_link_code env draw.new_link_code
unfolding create_proposal
fresh-hash env input draw st st' out f = ap (λ p. p.link_code_hash) f.created

after_propose-delivered :
    (env : Platform) (deps : Deps) (input : ProposeInput) (draw : Draw) (st : Store)
    (id code : Text) (r : Store × Result ProposeOutput)
    → Registry.propose env input draw st ≡ r
    → (after_propose deps r).delivered ≡ some (id, code)
    → IsDelivered env draw st (after_propose deps r) id code
after_propose-delivered env deps input draw st id code (st', fail e) h d = cc
after_propose-delivered env deps input draw st id code (st', ok out) h d =
    elim (Bool-cases (not out.deduplicated && not (is_empty out.link_code))) [
      | inr kept ↦ absurd (ground arith)
      | inl fresh ↦
          let f = propose-IsFresh env input draw st st' out h (ground arith) in
          let same_id : id ≡ draw.new_id = ground (arith, fresh-id env input draw st st' out f) in
          let same_code : code ≡ draw.new_link_code = ground (arith, f.link_code) in
          let hash = fresh-hash env input draw st st' out f in
          rw fresh (record {
            fresh_id = same_id;
            fresh_code = same_code;
            unused = rw same_id f.unused;
            stored = (
              out.proposal,
              rw same_id (f.stored draw.new_id ∙ rw (text_eq_refl draw.new_id) refl),
              rw same_code hash,
            );
          })
    ]

-- Past a guard that hands out nothing.
past_guard :
    (P : Outcome → Type 0) (c : Text × Text) (b : Bool) (refusal rest : Outcome)
    → refusal.delivered ≡ none
    → (rest.delivered ≡ some c → P rest)
    → (if b then refusal else rest).delivered ≡ some c
    → (b ≡ false) × P (if b then refusal else rest)
past_guard P c true refusal rest n k d = cc
past_guard P c false refusal rest n k d = (refl, k d)

propose_authorized-delivered :
    (env : Platform) (deps : Deps) (req : ProposalRequest) (draw : Draw) (st : Store)
    (id code : Text)
    → (propose_authorized env deps req draw st).delivered ≡ some (id, code)
    → IsDelivered env draw st (propose_authorized env deps req draw st) id code
unfolding propose_authorized
propose_authorized-delivered env deps req draw st id code d =
    (past_guard P (id, code) (fields_missing env req)
      (refuse st 400 (error_reply "invalid_request")) (propose_complete env deps req draw st) refl
      (λ e.
        (past_guard P (id, code) (is_empty (key_of req))
          (refuse st 400 (error_reply "idempotency_key_required"))
          (after_propose deps (Registry.propose env (request_input env req) draw st)) refl
          (after_propose-delivered env deps (request_input env req) draw st id code
            (Registry.propose env (request_input env req) draw st) refl)
          e).1)
      d).1
  where
    P : Outcome → Type 0
    P out = IsDelivered env draw st out id code

-- The service route hands out a link code only if the secret is right, and then it is the new code
-- for a proposal with the new id, no proposal had that id before the call, and the proposal that is
-- stored under it has the hash of that code; with a wrong secret the status is 401, the store is
-- unchanged and nothing is delivered.
pub post_proposals_delivered :
    (env : Platform) (deps : Deps) (req : ProposalRequest) (draw : Draw) (st : Store)
    (id code : Text)
    → let out = post_proposals env deps req draw st in
      (out.delivered ≡ some (id, code)
        → (secret_ok deps (trim deps.gateway_secret) (trim (or_else [] req.secret)) ≡ true)
          × IsDelivered env draw st out id code)
      × (secret_ok deps (trim deps.gateway_secret) (trim (or_else [] req.secret)) ≡ false
          → (out.status ≡ 401) × (out.store ≡ st) × (out.delivered ≡ none))
unfolding post_proposals
post_proposals_delivered env deps req draw st id code = (
  λ d.
      let (open_guard, delivered) =
        past_guard (λ out. IsDelivered env draw st out id code) (id, code)
          (is_empty (trim deps.gateway_secret)
            || is_empty (trim (or_else [] req.secret))
            || not (secret_ok deps (trim deps.gateway_secret) (trim (or_else [] req.secret))))
          (refuse st 401 (error_reply "unauthorized")) (propose_authorized env deps req draw st)
          refl (propose_authorized-delivered env deps req draw st id code) d in
      (ground arith, delivered),
  λ n. (ground arith, ground arith, ground arith),
)
