-- ===== src/Domain/Registry/Commits.antt =====
-- The deciding and writing half of each operation of apps/action-gateway/src/domain/registry.ts, over any store.
use pooli.Base.{ℕ, Text, ◌≡◌, ◌≢◌, ◌⊎◌, inl, inr, refl, arith, none, some, Bool-cases, ap, codes}
use pooli.Domain.Platform.{Platform}
use pooli.Domain.Types.{
  Proposal, Result, ok, fail, error_code, confirmed, state_eq, expired, system,
}
use pooli.Domain.Machine
use pooli.Domain.Machine.{expire_if_due, applied, mark_executed, mark_failed}
use pooli.Domain.Machine.Audit.{IsStep, applied-IsStep, lapse}
use pooli.Domain.Machine.Branches.{
  confirm-IsStep, reject-IsStep, mark_executed-IsStep, mark_failed-IsStep, expire_if_due-cases,
}
use pooli.Domain.Store.{Store, get, compare_and_swap}
use pooli.Domain.Store.Laws.{put, compare_and_swap-cases}
use pooli.Domain.Registry.{
  Clock, swap_next, persist_expiry, confirm_from, reject_from, execute_from, fail_from,
  reference_of, swap_confirmed,
}

-- One operation of the registry on one proposal, with its arguments.
pub data Action : Type 0 where
  confirming : (link_code seen_digest : Text) → Clock → Action
  rejecting : (now wall : ℕ) → Action
  executing : (wall : ℕ) → Action
  failing : (reason : Text) (wall : ℕ) → Action

unfoldable pub run_action : Platform → Action → Proposal → Store → Store × Result Proposal
run_action env (confirming link_code seen_digest clock) =
    confirm_from env link_code seen_digest clock
run_action env (rejecting now wall) = reject_from now wall
run_action env (executing wall) = execute_from env wall
run_action env (failing reason wall) = fail_from reason wall

-- The step `next` of `read` is written into a store whose record has the version of `read`.
pub record IsWrite (read : Proposal) (st st' : Store) (next : Proposal) : Type 0 where
  pub stored : Proposal
  pub found : get st read.id ≡ some stored
  pub fresh : stored.version ≡ read.version
  pub step : IsStep read next
  pub result : st' ≡ put st next

-- What a commit may do.
abbrev pub IsCommit : Proposal → Store → Store × Result Proposal → Type 0
IsCommit read st (st', r) =
    ((next : Proposal) × IsWrite read st st' next × ((error_code r ≢ none) ⊎ (r ≡ ok next)))
    ⊎ ((st' ≡ st) × (error_code r ≢ none))

swap-IsCommit :
    (read next : Proposal) (st : Store)
    → IsStep read next
    → IsCommit read st (compare_and_swap st next read.version)
swap-IsCommit read next st s = elim (compare_and_swap-cases st next read.version) [
  | inl (current, found, fresh, e) ↦ rw e (
      inl (
        next,
        record {
          stored = current;
          found = rw (← s.same.id) found;
          fresh = fresh;
          step = s;
          result = refl;
        },
        inr refl,
      ))
  | inr kept ↦ inr kept
]

swap_next-IsCommit :
    (read : Proposal) (st : Store) (r : Result Proposal)
    → ((next : Proposal) → r ≡ ok next → IsStep read next)
    → IsCommit read st (swap_next read st r)
swap_next-IsCommit read st (ok next) s = swap-IsCommit read next st (s next refl)
swap_next-IsCommit read st (fail e) s = inr (refl, λ h. cc)

-- A refusal in place of the result of the swap.
IsCommit-refused :
    (read : Proposal) (st st' : Store) (r r' : Result Proposal)
    → error_code r' ≢ none
    → IsCommit read st (st', r)
    → IsCommit read st (st', r')
IsCommit-refused read st st' r r' n (inl (next, w, _)) = inl (next, w, inl n)
IsCommit-refused read st st' r r' n (inr (same, _)) = inr (same, n)

persist_expiry-eq_kept :
    (read : Proposal) (now wall : ℕ) (st : Store)
    → expire_if_due read now wall ≡ read
    → persist_expiry read now wall st ≡ st
unfolding persist_expiry
persist_expiry-eq_kept read now wall st e = rw e (ground arith)

persist_expiry-eq_swap :
    (read : Proposal) (now wall : ℕ) (st : Store)
    → expire_if_due read now wall ≡ applied read expired (codes "ttl elapsed") system wall
    → persist_expiry read now wall st
      ≡ (compare_and_swap st
          (applied read expired (codes "ttl elapsed") system wall)
          read.version).0
unfolding persist_expiry applied state_eq
persist_expiry-eq_swap read now wall st e = rw e (ground arith)

-- A refusal that may have written down an expiry.
persist_expiry-IsCommit :
    (read : Proposal) (now wall : ℕ) (st : Store) (r : Result Proposal)
    → error_code r ≢ none
    → IsCommit read st (persist_expiry read now wall st, r)
persist_expiry-IsCommit read now wall st r n = elim (expire_if_due-cases read now wall) [
  | inl (same, _) ↦ inr (persist_expiry-eq_kept read now wall st same, n)
  | inr (pending, late, e) ↦
      let late_step : IsStep read (applied read expired (codes "ttl elapsed") system wall) =
        applied-IsStep read expired _ system wall (rw pending lapse) in
      rw (persist_expiry-eq_swap read now wall st e)
        (IsCommit-refused read st _ _ r n (swap-IsCommit read _ st late_step))
]

confirm_from-IsCommit :
    (env : Platform) (link_code seen_digest : Text) (clock : Clock) (read : Proposal) (st : Store)
    → IsCommit read st (confirm_from env link_code seen_digest clock read st)
unfolding confirm_from
confirm_from-IsCommit env link_code seen_digest clock read st =
    go (Machine.confirm env read _ clock.wall) (λ next e. confirm-IsStep env read _ clock.wall e)
  where
    go :
        (r : Result Proposal)
        → ((next : Proposal) → r ≡ ok next → IsStep read next)
        → IsCommit read st (swap_confirmed read clock st r)
    go (ok next) s = swap-IsCommit read next st (s next refl)
    go (fail e) s =
        persist_expiry-IsCommit read clock.now_again clock.wall_again st (fail e) (λ h. cc)

execute_from-IsCommit :
    (env : Platform) (wall : ℕ) (read : Proposal) (st : Store)
    → IsCommit read st (execute_from env wall read st)
unfolding execute_from
execute_from-IsCommit env wall read st = elim (Bool-cases (state_eq read.state confirmed)) [
  | inl yes_state ↦ rw yes_state (
      swap_next-IsCommit read st (mark_executed read (reference_of env read.id) wall)
        (λ next e. mark_executed-IsStep read _ wall e))
  | inr other ↦ rw other (inr (refl, λ h. cc))
]

-- Every operation, on every branch.
pub run_action-IsCommit :
    (env : Platform) (a : Action) (read : Proposal) (st : Store)
    → IsCommit read st (run_action env a read st)
unfolding run_action reject_from fail_from
run_action-IsCommit env (confirming link_code seen_digest clock) read st =
    confirm_from-IsCommit env link_code seen_digest clock read st
run_action-IsCommit env (rejecting now wall) read st =
    swap_next-IsCommit read st (Machine.reject read now wall)
      (λ next e. reject-IsStep read now wall e)
run_action-IsCommit env (executing wall) read st = execute_from-IsCommit env wall read st
run_action-IsCommit env (failing reason wall) read st =
    swap_next-IsCommit read st (mark_failed read reason wall)
      (λ next e. mark_failed-IsStep read reason wall e)

-- An operation succeeds only by a write of the step that it returns.
pub run_action-IsWrite :
    (env : Platform) (a : Action) (read : Proposal) (st : Store) {q : Proposal}
    → (run_action env a read st).1 ≡ ok q
    → IsWrite read st (run_action env a read st).0 q
run_action-IsWrite env a read st {q} h = elim (run_action-IsCommit env a read st) [
  | inl (next, w, inl refused) ↦ absurd (refused (ap error_code h))
  | inl (next, w, inr e) ↦ let same : next ≡ q = cc in rw (← same) w
  | inr (_, refused) ↦ absurd (refused (ap error_code h))
]
