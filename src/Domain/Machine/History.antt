-- ===== src/Domain/Machine/History.antt =====
-- The audit trail of a proposal of state-machine.ts, and the reference in it.
use pooli.Base.{
  ℕ, true, false, List, [], ◌∷◌, ◌++◌, length, none, some, Text, is_space, find, All, starts_with,
  ◌≡◌, ◌≢◌, ◌⊎◌, inl, inr, refl, ap, ◌∙◌, arith,
}
use mathlib.Core.List.{reverse, reverse-append}
use pooli.Domain.Platform.{Platform}
use pooli.Domain.Types.{
  ProposalState, pending_confirmation, confirmed, rejected, expired, executed, failed, Actor, agent,
  human, system, TransitionRecord, Proposal, ok, state_eq, is_terminal, error_code,
}
use pooli.Domain.Machine.{
  applied, guard, expire_if_due, ConfirmInput, execution_prefix, non_spaces, execution_match,
  execution_reference_of, confirm, reject, mark_executed, mark_failed,
}
use pooli.Domain.Machine.Audit.{IsAudited, Trail, Linked, Move, approve, decline, lapse, run, break}
use pooli.Domain.Machine.Branches.{mark_executed_ok}

Move-from :
    {s t : ProposalState} {a : Actor}
    → Move s t a
    → ((s ≡ pending_confirmation)
        × (((t ≡ confirmed) × (a ≡ human)) ⊎ (t ≡ rejected) ⊎ (t ≡ expired)))
      ⊎ ((s ≡ confirmed) × (a ≡ system) × ((t ≡ executed) ⊎ (t ≡ failed)))
Move-from approve = ground arith
Move-from decline = ground arith
Move-from lapse = ground arith
Move-from run = ground arith
Move-from break = ground arith

-- Nothing follows a state that is neither pending nor confirmed.
Linked-end :
    (s : ProposalState) (h : List TransitionRecord) {t : ProposalState}
    → s ≢ pending_confirmation
    → s ≢ confirmed
    → Linked s h t
    → (h ≡ []) × (s ≡ t)
Linked-end s [] n m l = (refl, l)
Linked-end s (r ∷ h) n m (f, v, _) = absurd (ground (arith, Move-from v))

abbrev EndsExecuted : List TransitionRecord → Type 0
EndsExecuted h =
    (execution : TransitionRecord) × (h ≡ execution ∷ [])
    × (execution.to ≡ executed)
    × (execution.actor ≡ system)

Linked-confirmed : (h : List TransitionRecord) → Linked confirmed h executed → EndsExecuted h
Linked-confirmed [] l = cc
Linked-confirmed (r ∷ h) (f, v, l) =
    let done : (h ≡ []) × (r.to ≡ executed) =
      Linked-end r.to h (ground (arith, Move-from v)) (ground (arith, Move-from v)) l in
    (r, ap (λ k. r ∷ k) done.0, done.1, ground (arith, Move-from v))

Linked-pending :
    (h : List TransitionRecord)
    → Linked pending_confirmation h executed
    → (approval : TransitionRecord) × (rest : List TransitionRecord) × (h ≡ approval ∷ rest)
      × (approval.to ≡ confirmed)
      × (approval.actor ≡ human)
      × EndsExecuted rest
Linked-pending [] l = cc
Linked-pending (r ∷ h) (f, v, l) = go (Move-from v)
  where
    lost : r.to ≢ pending_confirmation → r.to ≢ confirmed → r.to ≢ executed → ⊥
    lost a b c = c (Linked-end r.to h a b l).1

    go :
        ((r.from ≡ pending_confirmation)
            × (((r.to ≡ confirmed) × (r.actor ≡ human)) ⊎ (r.to ≡ rejected) ⊎ (r.to ≡ expired)))
          ⊎ ((r.from ≡ confirmed) × (r.actor ≡ system) × ((r.to ≡ executed) ⊎ (r.to ≡ failed)))
        → (approval : TransitionRecord) × (rest : List TransitionRecord) × (r ∷ h ≡ approval ∷ rest)
          × (approval.to ≡ confirmed)
          × (approval.actor ≡ human)
          × EndsExecuted rest
    go (inl (_, inl (c, a))) = (r, h, refl, c, a, Linked-confirmed h (rw c at l))
    go (inl (_, inr (inl e))) = absurd (lost (λ x. cc) (λ x. cc) (λ x. cc))
    go (inl (_, inr (inr e))) = absurd (lost (λ x. cc) (λ x. cc) (λ x. cc))
    go (inr (e, _, _)) = cc

abbrev pub ThreeRecords : List TransitionRecord → Type 0
ThreeRecords h =
    (proposed approval execution : TransitionRecord) × (h ≡ proposed ∷ approval ∷ execution ∷ [])
    × (proposed.actor ≡ agent)
    × (approval.to ≡ confirmed)
    × (approval.actor ≡ human)
    × (execution.to ≡ executed)
    × (execution.actor ≡ system)

Trail-executed : (h : List TransitionRecord) → Trail h executed → ThreeRecords h
Trail-executed [] l = absurd l
Trail-executed (r ∷ h) (_, _, g, l) =
    let (approval, rest, eq, c, a, ends) = Linked-pending h l in
    let (execution, eq', x, s) = ends in
    (r, approval, execution, ap (λ k. r ∷ k) (eq ∙ ap (λ k. approval ∷ k) eq'), g, c, a, x, s)

-- A proposal that is executed has three records: the agent's proposal, a human's approval and the
-- execution by the system. So its version is 3.
pub executed_history :
    (env : Platform) (p : Proposal)
    → IsAudited env p
    → p.state ≡ executed
    → ThreeRecords p.history × (p.version ≡ 3)
executed_history env p a e =
    let three = Trail-executed p.history (rw e at a.trail) in
    (three, omega (arith, a.counted, ap length three.3))

-- A proposal in a terminal state is not changed by the check of its deadline, and confirming,
-- rejecting, executing and failing it are all refused.
pub terminal_absorbs :
    (env : Platform) (p : Proposal) (input : ConfirmInput) (now wall : ℕ) (reason : Text)
    → is_terminal p.state ≡ true
    → (expire_if_due p now wall ≡ p)
      × (error_code (confirm env p input wall) ≢ none)
      × (error_code (reject p now wall) ≢ none)
      × (error_code (mark_executed p reason wall) ≢ none)
      × (error_code (mark_failed p reason wall) ≢ none)
unfolding is_terminal expire_if_due confirm reject mark_executed mark_failed guard
terminal_absorbs env p input now wall reason t =
    (ground arith, ground arith, ground arith, ground arith, ground arith)

non_spaces-eq : (s : Text) → All (λ c. is_space c ≡ false) s → non_spaces s ≡ s
unfolding non_spaces
non_spaces-eq [] h = refl
non_spaces-eq (c ∷ s) (p, h) = rw p (ap (λ t. c ∷ t) (non_spaces-eq s h))

execution_match-prefix :
    (s : Text)
    → s ≢ []
    → All (λ c. is_space c ≡ false) s
    → execution_match (execution_prefix ++ s) ≡ some s
unfolding execution_match starts_with
execution_match-prefix [] n h = absurd (n refl)
execution_match-prefix (c ∷ s) n h = rw (non_spaces-eq (c ∷ s) h) refl

find-reverse_snoc :
    (h : List TransitionRecord) (r : TransitionRecord)
    → r.to ≡ executed
    → find (λ q. state_eq q.to executed) (reverse (h ++ r ∷ [])) ≡ some r
unfolding find state_eq
find-reverse_snoc h r e = rw (reverse-append h (r ∷ [])) (rw e)

-- If marking a proposal as executed succeeds with a reference that is not empty and has no spaces,
-- that reference is read back from the audit trail of the result.
pub execution_reference_of-mark_executed :
    (p : Proposal) (reference : Text) (wall : ℕ) {q : Proposal}
    → reference ≢ []
    → All (λ c. is_space c ≡ false) reference
    → mark_executed p reference wall ≡ ok q
    → execution_reference_of q ≡ some reference
unfolding execution_reference_of applied
execution_reference_of-mark_executed p reference wall n h e =
    rw ((mark_executed_ok p reference wall e).1) (
      rw
        (find-reverse_snoc p.history
          (record {
            from = p.state;
            to = executed;
            at = wall;
            reason = execution_prefix ++ reference;
            actor = system;
          })
          refl)
        (execution_match-prefix reference n h))
