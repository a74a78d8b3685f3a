-- ===== src/Examples/Lifecycle.antt =====
-- The theorems about the registry of the gateway at concrete inputs: one proposal that is made,
-- approved and executed by calls that overlap.
use pooli.Base.{
  ◌≤◌, true, List, [], ◌∷◌, ◌++◌, none, some, codes, text_eq, trim, trim_start, trim_end, is_space,
  ◌≡◌, ◌≢◌, refl, ap, arith,
}
use pooli.Base.Dict
use pooli.Base.Dict.{lookup}
use pooli.Domain.Types.{Proposal, Result, ok, executed, error_code, state_eq, TransitionRecord}
use pooli.Domain.Machine
use pooli.Domain.Machine.{
  create_proposal, applied, expire_if_due, guard, mark_executed, safe_equal_hex, hash_link_code,
  digest_payload,
}
use pooli.Domain.Machine.History.{ThreeRecords}
use pooli.Domain.Machine.Audit.{IsStep}
use pooli.Domain.Canonical.{from_hex, hex_value}
use pooli.Domain.Store.{
  Store, empty, get, find_by_idempotency_key, insert_proposal, compare_and_swap,
}
use pooli.Domain.Registry
use pooli.Domain.Registry.{ProposeOutput, propose_from, confirm_from, execute_from}
use pooli.Domain.Registry.Commits.{Action, confirming, executing, run_action}
use pooli.Domain.Registry.Interleaving.{World, Step, read, commit, insert, Reach, here, next}
use pooli.Domain.Registry.Interleaving.Safety.{
  start, executed_after_approval, history_append_only, commit_is_current, second_commit_refused,
}
use pooli.Domain.Registry.Laws.{propose_retry}
use pooli.Domain.Registry.Success.{propose-confirm-execute}
use pooli.Examples.{
  env, env-IsStandard, draft, input, draw, creation, proposal, approved, carried_out, store_of,
  output, clock,
}
use pooli.Examples.Gateway.{draft_accepted}

proposed_once : Registry.propose env input draw empty ≡ (store_of proposal, ok output)
unfolding Registry.propose propose_from trim trim_start trim_end is_space find_by_idempotency_key
    insert_proposal lookup Dict.insert empty create_proposal
proposed_once = rw draft_accepted refl

propose_retry_example :
    Registry.propose env input draw (store_of proposal)
    ≡ (store_of proposal, ok (record { proposal = proposal; link_code = []; deduplicated = true }))
propose_retry_example =
    propose_retry env input input draw draw empty (store_of proposal) output draft proposed_once
      refl (λ e. cc) refl draft_accepted

abbrev approval : Action
approval = confirming (codes "ABC234") (digest_payload env draft) clock

approval_ok :
    run_action env approval proposal (store_of proposal) ≡ (store_of approved, ok approved)
unfolding run_action confirm_from Machine.confirm expire_if_due guard safe_equal_hex hash_link_code
    digest_payload from_hex hex_value text_eq compare_and_swap lookup Dict.insert create_proposal
    applied
approval_ok = refl

approval_done : (run_action env approval proposal (store_of proposal)).1 ≡ ok approved
approval_done = ap (λ (r : Store × Result Proposal). r.1) approval_ok

execution_ok :
    run_action env (executing 3000) approved (store_of approved)
    ≡ (store_of carried_out, ok carried_out)
unfolding run_action execute_from mark_executed guard state_eq compare_and_swap lookup Dict.insert
    create_proposal applied text_eq
execution_ok = refl

-- One call reads the proposal and confirms it, another reads what that has stored and executes it.
abbrev inserted_world : World
inserted_world = record { store = store_of proposal; pending = [] }

abbrev approving_world : World
approving_world = record { store = store_of proposal; pending = (proposal, approval) ∷ [] }

abbrev approved_world : World
approved_world = record { store = store_of approved; pending = [] }

abbrev executing_world : World
executing_world = record { store = store_of approved; pending = (approved, executing 3000) ∷ [] }

abbrev executed_world : World
executed_world = record { store = store_of carried_out; pending = [] }

insert_step : Step env start inserted_world
unfolding empty insert_proposal lookup Dict.insert text_eq create_proposal
insert_step = insert start creation

read_step : Step env inserted_world approving_world
unfolding get lookup text_eq
read_step = read inserted_world (codes "p") proposal approval refl

approve_step : Step env approving_world approved_world
unfolding run_action confirm_from Machine.confirm expire_if_due guard safe_equal_hex hash_link_code
    digest_payload from_hex hex_value text_eq compare_and_swap lookup Dict.insert create_proposal
    applied
approve_step = commit approving_world [] [] proposal approval refl

read_again_step : Step env approved_world executing_world
unfolding get lookup text_eq
read_again_step = read approved_world (codes "p") approved (executing 3000) refl

execute_step : Step env executing_world executed_world
unfolding run_action execute_from mark_executed guard state_eq compare_and_swap lookup Dict.insert
    create_proposal applied text_eq
execute_step = commit executing_world [] [] approved (executing 3000) refl

Reach-inserted : Reach env start inserted_world
Reach-inserted = next here insert_step

Reach-approving : Reach env start approving_world
Reach-approving = next Reach-inserted read_step

Reach-executed : Reach env start executed_world
Reach-executed = next (next (next Reach-approving approve_step) read_again_step) execute_step

executed_after_approval_example :
    (carried_out.id ≡ codes "p") × ThreeRecords carried_out.history × (carried_out.version ≡ 3)
unfolding get lookup text_eq applied create_proposal
executed_after_approval_example =
    executed_after_approval env (codes "p") carried_out Reach-executed refl refl

commit_is_current_example :
    (get (store_of proposal) (codes "p") ≡ some proposal)
    × IsStep proposal approved
    × (get (run_action env approval proposal (store_of proposal)).0 (codes "p") ≡ some approved)
unfolding get run_action create_proposal
commit_is_current_example =
    commit_is_current env {s = approving_world} [] [] proposal approval Reach-approving refl
      approval_done

second_commit_refused_example :
    error_code
      (run_action env approval proposal (run_action env approval proposal (store_of proposal)).0).1
    ≢ none
second_commit_refused_example =
    second_commit_refused env approval approval proposal (store_of proposal) approval_done

history_append_only_example :
    (q : Proposal) × (get (store_of approved) (codes "p") ≡ some q)
    × ((tail : List TransitionRecord) × (q.history ≡ proposal.history ++ tail))
    × (q.payload ≡ proposal.payload)
    × (proposal.version ≤ q.version)
unfolding get lookup text_eq create_proposal
history_append_only_example =
    history_append_only env (codes "p") proposal Reach-inserted
      (next (next here read_step) approve_step) refl

propose-confirm-execute_example :
    (st1 st2 : Store) × (p1 p2 : Proposal) × (Registry.confirm env
        (codes "p")
        (codes " abc234 ")
        proposal.payload_digest
        clock
        (store_of proposal)
      ≡ (st1, ok p1))
    × (Registry.execute env (codes "p") 3000 st1 ≡ (st2, ok p2))
    × (p2.state ≡ executed)
    × (p2.payload ≡ proposal.payload)
    × (get st2 (codes "p") ≡ some p2)
unfolding trim trim_start trim_end is_space
propose-confirm-execute_example =
    propose-confirm-execute env input draw empty (store_of proposal) output (codes " abc234 ") clock
      3000 env-IsStandard proposed_once refl refl (omega arith)
