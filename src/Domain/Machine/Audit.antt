-- ===== src/Domain/Machine/Audit.antt =====
-- The audit trail of a proposal of state-machine.ts as a path through the table of legal moves.
use pooli.Base.{ℕ, ◌+◌, ◌≤◌, List, [], ◌∷◌, ◌++◌, Text, length, length-append, ◌≡◌, ap, refl, arith}
use pooli.Domain.Platform.{Platform}
use pooli.Domain.Types.{
  ProposalState, pending_confirmation, confirmed, rejected, expired, executed, failed, Actor, agent,
  human, system, TransitionRecord, Proposal,
}
use pooli.Domain.Machine.{digest_payload, applied, CreateInput, create_proposal}

-- The moves of the machine with the actor that makes each.
pub data Move : ProposalState → ProposalState → Actor → Type 0 where
  approve : Move pending_confirmation confirmed human
  decline : Move pending_confirmation rejected human
  lapse : Move pending_confirmation expired system
  run : Move confirmed executed system
  break : Move confirmed failed system

-- Records that lead from a state to another, each a move.
abbrev pub Linked : ProposalState → List TransitionRecord → ProposalState → Type 0
Linked s [] t = s ≡ t
Linked s (r ∷ h) t = (r.from ≡ s) × Move r.from r.to r.actor × Linked r.to h t

-- The agent's proposal, and then moves.
abbrev pub Trail : List TransitionRecord → ProposalState → Type 0
Trail [] t = ⊥
Trail (r ∷ h) t =
    (r.from ≡ pending_confirmation)
    × (r.to ≡ pending_confirmation)
    × (r.actor ≡ agent)
    × Linked pending_confirmation h t

Linked-snoc :
    (s : ProposalState) (h : List TransitionRecord) (r : TransitionRecord) {t u : ProposalState}
    → Linked s h t
    → r.from ≡ t
    → r.to ≡ u
    → Move r.from r.to r.actor
    → Linked s (h ++ r ∷ []) u
Linked-snoc s [] r l f t m = (cc, m, t)
Linked-snoc s (q ∷ h) r (f', m', l) f t m = (f', m', Linked-snoc q.to h r l f t m)

Trail-snoc :
    {t u : ProposalState} (h : List TransitionRecord) (r : TransitionRecord)
    → Trail h t
    → r.from ≡ t
    → r.to ≡ u
    → Move r.from r.to r.actor
    → Trail (h ++ r ∷ []) u
Trail-snoc [] r l f t m = absurd l
Trail-snoc (q ∷ h) r (a, b, c, l) f t m = (a, b, c, Linked-snoc pending_confirmation h r l f t m)

-- The invariant of a stored proposal.
pub record IsAudited (env : Platform) (p : Proposal) : Type 0 where
  pub trail : Trail p.history p.state
  pub counted : p.version ≡ length p.history
  pub digest : p.payload_digest ≡ digest_payload env p.payload
  pub deadline : p.created_at ≤ p.expires_at

-- What a transition leaves alone.
pub record IsSameIntent (p q : Proposal) : Type 0 where
  pub id : q.id ≡ p.id
  pub payload : q.payload ≡ p.payload
  pub payload_digest : q.payload_digest ≡ p.payload_digest
  pub link_code_hash : q.link_code_hash ≡ p.link_code_hash
  pub idempotency_key : q.idempotency_key ≡ p.idempotency_key
  pub created_at : q.created_at ≡ p.created_at
  pub expires_at : q.expires_at ≡ p.expires_at

-- One transition: a move, written down as the last record, with the version one higher.
pub record IsStep (p q : Proposal) : Type 0 where
  pub entry : TransitionRecord
  pub move : Move p.state q.state entry.actor
  pub from : entry.from ≡ p.state
  pub to : entry.to ≡ q.state
  pub history : q.history ≡ p.history ++ entry ∷ []
  pub version : q.version ≡ p.version + 1
  pub same : IsSameIntent p q

pub applied-IsStep :
    (p : Proposal) (to : ProposalState) (reason : Text) (actor : Actor) (wall : ℕ)
    → Move p.state to actor
    → IsStep p (applied p to reason actor wall)
unfolding applied
applied-IsStep p to reason actor wall m = record {
  entry = record { from = p.state; to = to; at = wall; reason = reason; actor = actor };
  move = m;
  from = refl;
  to = refl;
  history = refl;
  version = refl;
  same = record {
    id = refl;
    payload = refl;
    payload_digest = refl;
    link_code_hash = refl;
    idempotency_key = refl;
    created_at = refl;
    expires_at = refl;
  };
}

pub IsStep-IsAudited :
    (env : Platform) (p q : Proposal) → IsStep p q → IsAudited env p → IsAudited env q
IsStep-IsAudited env p q s a = record {
  trail =
      rw (s.history) (Trail-snoc p.history s.entry a.trail s.from s.to (rw (s.from, s.to) s.move));
  counted =
      omega
        (arith, s.version, a.counted, ap length s.history, length-append p.history (s.entry ∷ []));
  digest = rw (s.same.payload_digest, s.same.payload) a.digest;
  deadline = omega arith;
}

pub create_proposal-IsAudited :
    (env : Platform) (input : CreateInput) → IsAudited env (create_proposal env input)
unfolding create_proposal
create_proposal-IsAudited env input = record {
  trail = (refl, refl, refl, refl);
  counted = refl;
  digest = refl;
  deadline = omega arith;
}
