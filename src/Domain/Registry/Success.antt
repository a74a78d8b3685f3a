-- ===== src/Domain/Registry/Success.antt =====
-- A proposal from its registration to its execution, when its code and digest come in time.
use pooli.Base.{
  ℕ, ◌+◌, ◌*◌, ◌<◌, false, ◌++◌, codes, some, Text, trim, text_eq_iff, text_eq_refl, ◌≡◌, refl, ap,
  sym, ◌∙◌, arith,
}
use mathlib.Core.Path.{subst}
use pooli.Domain.Platform.{Platform, IsStandard}
use pooli.Domain.Types.{confirmed, executed, state_eq, Proposal, ok, human, system}
use pooli.Domain.Machine.{
  create_proposal, applied, guard, execution_prefix, mark_executed, hash_link_code, digest_payload,
}
use pooli.Domain.Machine.Branches.{IsApproved, confirm_of_IsApproved}
use pooli.Domain.Machine.Digest.{safe_equal_hex-sha256_iff}
use pooli.Domain.Store.{Store, get, compare_and_swap}
use pooli.Domain.Registry.Laws.{IsFresh, propose-IsFresh}
use pooli.Domain.Store.Laws.{put, get-put}
use pooli.Domain.Registry.{
  Draw, ProposeInput, ProposeOutput, propose, confirm, confirm_from, Clock, execute, execute_from,
  reference_of,
}

approved : Proposal → ℕ → Proposal
approved p wall = applied p confirmed (codes "confirmed by human") human wall

carried_out : Platform → Proposal → ℕ → Proposal
carried_out env p wall = applied p executed (execution_prefix ++ reference_of env p.id) system wall

swap_of_get :
    (st : Store) (p next : Proposal)
    → get st p.id ≡ some p
    → next.id ≡ p.id
    → compare_and_swap st next p.version ≡ (put st next, ok next)
unfolding compare_and_swap get
swap_of_get st p next g e = rw e (rw g (ground arith))

confirm_lem :
    (env : Platform) (id typed seen : Text) (clock : Clock) (st : Store) (p : Proposal)
    → get st id ≡ some p
    → p.id ≡ id
    → IsApproved env p (record { link_code = typed; seen_digest = seen; now = clock.now })
    → confirm env id typed seen clock st
      ≡ (put st (approved p clock.wall), ok (approved p clock.wall))
unfolding confirm confirm_from approved applied
confirm_lem env id typed seen clock st p g at a = rw g (
    rw (confirm_of_IsApproved env p _ clock.wall a)
      (swap_of_get st p (approved p clock.wall) (subst (λ k. get st k ≡ some p) (sym at) g) refl))

mark_executed_of :
    (p : Proposal) (reference : Text) (wall : ℕ)
    → p.state ≡ confirmed
    → mark_executed p reference wall
      ≡ ok (applied p executed (execution_prefix ++ reference) system wall)
unfolding mark_executed guard
mark_executed_of p reference wall s = ground arith

execute_lem :
    (env : Platform) (id : Text) (wall : ℕ) (st : Store) (p : Proposal)
    → get st id ≡ some p
    → p.id ≡ id
    → p.state ≡ confirmed
    → execute env id wall st ≡ (put st (carried_out env p wall), ok (carried_out env p wall))
unfolding execute execute_from carried_out applied state_eq
execute_lem env id wall st p g at s = rw g (
    ground (
      arith,
      mark_executed_of p (reference_of env p.id) wall s,
      swap_of_get st p (carried_out env p wall) (subst (λ k. get st k ≡ some p) (sym at) g) refl,
    ))

get-put_at : (st : Store) (p : Proposal) (id : Text) → p.id ≡ id → get (put st p) id ≡ some p
get-put_at st p id at = get-put st p id ∙ rw ((text_eq_iff p.id id).1 at) refl

pub fresh-id :
    (env : Platform) (input : ProposeInput) (draw : Draw) (st st' : Store) (out : ProposeOutput)
    → IsFresh env input draw st st' out
    → out.proposal.id ≡ draw.new_id
unfolding create_proposal
fresh-id env input draw st st' out f = ap (λ p. p.id) f.created

fresh-IsApproved :
    (env : Platform) (input : ProposeInput) (draw : Draw) (st st' : Store) (out : ProposeOutput)
    (typed : Text) (clock : Clock)
    → IsStandard env
    → IsFresh env input draw st st' out
    → env.to_upper (trim typed) ≡ env.to_upper (trim out.link_code)
    → clock.now < draw.now + draw.ttl_seconds * 1000
    → IsApproved env out.proposal
        (record { link_code = typed; seen_digest = out.proposal.payload_digest; now = clock.now })
unfolding create_proposal hash_link_code digest_payload
fresh-IsApproved env input draw st st' out typed clock std f c l = record {
  pending = ap (λ p. p.state) f.created;
  early = rw (ap (λ p. p.expires_at) f.created) l;
  code = rw (ap (λ p. p.link_code_hash) f.created) (
      (safe_equal_hex-sha256_iff env _ _ std).1
        (ap env.sha256_hex (c ∙ ap (λ k. env.to_upper (trim k)) f.link_code)));
  seen = rw (ap (λ p. p.payload_digest) f.created) ((safe_equal_hex-sha256_iff env _ _ std).1 refl);
}

-- With a standard platform: once a call has made a new proposal, a confirmation before the deadline
-- with its digest and a code that is the delivered one up to outer spaces and case succeeds, and
-- the execution behind it then succeeds and stores the proposal as executed with its payload
-- unchanged.
pub propose-confirm-execute :
    (env : Platform) (input : ProposeInput) (draw : Draw) (st st' : Store) (out : ProposeOutput)
    (typed : Text) (clock : Clock) (wall : ℕ)
    → IsStandard env
    → propose env input draw st ≡ (st', ok out)
    → out.deduplicated ≡ false
    → env.to_upper (trim typed) ≡ env.to_upper (trim out.link_code)
    → clock.now < draw.now + draw.ttl_seconds * 1000
    → (st1 st2 : Store) × (p1 p2 : Proposal) × (confirm env draw.new_id typed
          out.proposal.payload_digest clock st'
        ≡ (st1, ok p1))
      × (execute env draw.new_id wall st1 ≡ (st2, ok p2))
      × (p2.state ≡ executed)
      × (p2.payload ≡ out.proposal.payload)
      × (get st2 draw.new_id ≡ some p2)
unfolding approved applied carried_out
propose-confirm-execute env input draw st st' out typed clock wall std h d c l =
    let f = propose-IsFresh env input draw st st' out h d in
    let p1 = approved out.proposal clock.wall in
    let st1 = put st' p1 in
    let p2 = carried_out env p1 wall in
    let at : out.proposal.id ≡ draw.new_id = fresh-id env input draw st st' out f in
    (
      st1,
      put st1 p2,
      p1,
      p2,
      confirm_lem env draw.new_id typed out.proposal.payload_digest clock st' out.proposal
          (rw (f.stored draw.new_id, text_eq_refl draw.new_id) refl) at
          (fresh-IsApproved env input draw st st' out typed clock std f c l),
      execute_lem env draw.new_id wall st1 p1 (get-put_at st' p1 draw.new_id at) at refl,
      refl,
      refl,
      get-put_at st1 p2 draw.new_id at,
    )
