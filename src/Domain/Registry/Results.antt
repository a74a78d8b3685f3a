-- ===== src/Domain/Registry/Results.antt =====
-- Successful results of `confirm` and `execute` of registry.ts.
use pooli.Base.{ℕ, Text, some, ◌≡◌, refl, ap, inl, inr, arith, Bool-cases, Option-cases}
use pooli.Domain.Platform.{Platform}
use pooli.Domain.Types.{Proposal, Result, ok, fail, error_code, confirmed, executed, state_eq}
use pooli.Domain.Machine
use pooli.Domain.Machine.{ConfirmInput, applied, mark_executed}
use pooli.Domain.Machine.Branches.{IsApproved, confirm_ok, mark_executed_ok}
use pooli.Domain.Store.{Store, get, compare_and_swap}
use pooli.Domain.Store.Laws.{compare_and_swap-cases}
use pooli.Domain.Registry.{
  Clock, confirm, confirm_from, swap_confirmed, swap_next, execute, execute_from, reference_of,
}

swap_ok :
    (st : Store) (next : Proposal) (v : ℕ) {q : Proposal}
    → (compare_and_swap st next v).1 ≡ ok q
    → q ≡ next
swap_ok st next v {q} h = elim (compare_and_swap-cases st next v) [
  | inl (current, found, fresh, e) ↦ cc (ap (λ (r : Store × Result Proposal). r.1) e)
  | inr (_, refused) ↦ absurd (refused (ap error_code h))
]

-- A confirmation that succeeds was approved on the record that is stored under the id.
pub confirm_result :
    (env : Platform) (id link_code digest : Text) (clock : Clock) (st : Store) {q : Proposal}
    → (confirm env id link_code digest clock st).1 ≡ ok q
    → (current : Proposal) × (get st id ≡ some current)
      × IsApproved env current
          (record { link_code = link_code; seen_digest = digest; now = clock.now })
unfolding confirm confirm_from
confirm_result env id link_code digest clock st {q} h = elim (Option-cases (get st id)) [
  | inl missing ↦ absurd (ground arith)
  | inr (current, found) ↦ (current, found, go current (rw found at h))
]
  where
    judge :
        (current : Proposal) (r : Result Proposal)
        → (swap_confirmed current clock st r).1 ≡ ok q
        → (next : Proposal) × (r ≡ ok next)
    judge current (ok next) e = (next, refl)
    judge current (fail x) e = cc

    go :
        (current : Proposal)
        → (confirm_from env link_code digest clock current st).1 ≡ ok q
        → IsApproved env current
            (record { link_code = link_code; seen_digest = digest; now = clock.now })
    go current e =
        let (next, approved) = judge current (Machine.confirm env current _ clock.wall) e in
        (confirm_ok env current _ clock.wall approved).0

pub execute_result :
    (env : Platform) (id : Text) (wall : ℕ) (st : Store) {q : Proposal}
    → (execute env id wall st).1 ≡ ok q
    → q.state ≡ executed
unfolding execute execute_from applied
execute_result env id wall st {q} h = elim (Option-cases (get st id)) [
  | inl missing ↦ absurd (ground arith)
  | inr (current, found) ↦ elim (Bool-cases (state_eq current.state confirmed)) [
    | inr other ↦ absurd (ground arith)
    | inl ready ↦
        judge current (mark_executed current (reference_of env current.id) wall) refl
          (rw (found, ready) at h)
  ]
]
  where
    judge :
        (current : Proposal) (r : Result Proposal)
        → mark_executed current (reference_of env current.id) wall ≡ r
        → (swap_next current st r).1 ≡ ok q
        → q.state ≡ executed
    judge current (ok next) e k =
        let last = (mark_executed_ok current _ wall e).1 in
        rw (swap_ok st next current.version k) (rw last refl)
    judge current (fail x) e k = cc
