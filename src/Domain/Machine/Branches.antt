-- ===== src/Domain/Machine/Branches.antt =====
-- Every branch of the operations of state-machine.ts: when each succeeds, with what, and when it is
-- refused with which error.
use pooli.Base.{ℕ, ◌≤◌, ◌<◌, true, false, ◌++◌, some, Text, codes, ◌≡◌, ◌≢◌, ◌⊎◌, ◌↔◌, arith}
use pooli.Domain.Platform.{Platform}
use pooli.Domain.Types.{
  pending_confirmation, confirmed, rejected, expired, executed, failed, human, system, Proposal, ok,
  expired_code, link_code_mismatch, payload_tampered, invalid_state, error_code,
}
use pooli.Domain.Machine.{
  applied, guard, expire_if_due, ConfirmInput, execution_prefix, confirm, reject, mark_executed,
  mark_failed, safe_equal_hex, hash_link_code,
}
use pooli.Domain.Machine.Audit.{IsStep, applied-IsStep, approve, decline, run, break}

pub record IsApproved (env : Platform) (p : Proposal) (input : ConfirmInput) : Type 0 where
  pub pending : p.state ≡ pending_confirmation
  pub early : input.now < p.expires_at
  pub code : safe_equal_hex (hash_link_code env input.link_code) p.link_code_hash ≡ true
  pub seen : safe_equal_hex input.seen_digest p.payload_digest ≡ true

pub confirm_ok :
    (env : Platform) (p : Proposal) (input : ConfirmInput) (wall : ℕ) {q : Proposal}
    → confirm env p input wall ≡ ok q
    → IsApproved env p input × (q ≡ applied p confirmed (codes "confirmed by human") human wall)
unfolding confirm expire_if_due guard applied
confirm_ok env p input wall h = ground arith

pub confirm_of_IsApproved :
    (env : Platform) (p : Proposal) (input : ConfirmInput) (wall : ℕ)
    → IsApproved env p input
    → confirm env p input wall ≡ ok (applied p confirmed (codes "confirmed by human") human wall)
unfolding confirm expire_if_due guard
confirm_of_IsApproved env p input wall h = ground arith

-- A confirmation of a proposal is refused with EXPIRED exactly if the proposal is expired or is
-- pending at or past its deadline; with INVALID_STATE exactly if it is neither expired nor pending;
-- with LINK_CODE_MISMATCH exactly if it is pending, before its deadline, and the code has another
-- hash; and with PAYLOAD_TAMPERED exactly if it is pending, in time and the code is right, but the
-- digest is another one.
pub confirm_refused_iff :
    (env : Platform) (p : Proposal) (input : ConfirmInput) (wall : ℕ)
    → ((error_code (confirm env p input wall) ≡ some expired_code)
        ↔ ((p.state ≡ expired) ⊎ ((p.state ≡ pending_confirmation) × (p.expires_at ≤ input.now))))
      × ((error_code (confirm env p input wall) ≡ some invalid_state)
          ↔ ((p.state ≢ expired) × (p.state ≢ pending_confirmation)))
      × ((error_code (confirm env p input wall) ≡ some link_code_mismatch) ↔ (
          (p.state ≡ pending_confirmation)
          × (input.now < p.expires_at)
          × (safe_equal_hex (hash_link_code env input.link_code) p.link_code_hash ≡ false)))
      × ((error_code (confirm env p input wall) ≡ some payload_tampered) ↔ (
          (p.state ≡ pending_confirmation)
          × (input.now < p.expires_at)
          × (safe_equal_hex (hash_link_code env input.link_code) p.link_code_hash ≡ true)
          × (safe_equal_hex input.seen_digest p.payload_digest ≡ false)))
unfolding confirm expire_if_due guard applied
confirm_refused_iff env p input wall = (ground arith, ground arith, ground arith, ground arith)

pub reject_ok :
    (p : Proposal) (now wall : ℕ) {q : Proposal}
    → reject p now wall ≡ ok q
    → (p.state ≡ pending_confirmation)
      × (now < p.expires_at)
      × (q ≡ applied p rejected (codes "declined by human") human wall)
unfolding reject expire_if_due guard applied
reject_ok p now wall h = ground arith

pub mark_executed_ok :
    (p : Proposal) (reference : Text) (wall : ℕ) {q : Proposal}
    → mark_executed p reference wall ≡ ok q
    → (p.state ≡ confirmed) × (q ≡ applied p executed (execution_prefix ++ reference) system wall)
unfolding mark_executed guard
mark_executed_ok p reference wall h = ground arith

pub mark_failed_ok :
    (p : Proposal) (reason : Text) (wall : ℕ) {q : Proposal}
    → mark_failed p reason wall ≡ ok q
    → (p.state ≡ confirmed) × (q ≡ applied p failed reason system wall)
unfolding mark_failed guard
mark_failed_ok p reason wall h = ground arith

pub expire_if_due-cases :
    (p : Proposal) (now wall : ℕ)
    → ((expire_if_due p now wall ≡ p) × ((p.state ≡ pending_confirmation) → now < p.expires_at))
      ⊎ ((p.state ≡ pending_confirmation)
          × (p.expires_at ≤ now)
          × (expire_if_due p now wall ≡ applied p expired (codes "ttl elapsed") system wall))
unfolding expire_if_due
expire_if_due-cases p now wall = ground arith

pub confirm-IsStep :
    (env : Platform) (p : Proposal) (input : ConfirmInput) (wall : ℕ) {q : Proposal}
    → confirm env p input wall ≡ ok q
    → IsStep p q
confirm-IsStep env p input wall h =
    let (a, e) = confirm_ok env p input wall h in
    rw e (applied-IsStep p confirmed _ human wall (rw a.pending approve))

pub reject-IsStep :
    (p : Proposal) (now wall : ℕ) {q : Proposal} → reject p now wall ≡ ok q → IsStep p q
reject-IsStep p now wall h =
    let (s, _, e) = reject_ok p now wall h in
    rw e (applied-IsStep p rejected _ human wall (rw s decline))

pub mark_executed-IsStep :
    (p : Proposal) (reference : Text) (wall : ℕ) {q : Proposal}
    → mark_executed p reference wall ≡ ok q
    → IsStep p q
mark_executed-IsStep p reference wall h =
    let (s, e) = mark_executed_ok p reference wall h in
    rw e (applied-IsStep p executed _ system wall (rw s run))

pub mark_failed-IsStep :
    (p : Proposal) (reason : Text) (wall : ℕ) {q : Proposal}
    → mark_failed p reason wall ≡ ok q
    → IsStep p q
mark_failed-IsStep p reason wall h =
    let (s, e) = mark_failed_ok p reason wall h in
    rw e (applied-IsStep p failed _ system wall (rw s break))
