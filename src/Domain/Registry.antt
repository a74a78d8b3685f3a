-- ===== src/Domain/Registry.antt =====
-- apps/action-gateway/src/domain/registry.ts. Random bytes, ids and the clock are arguments: an
-- operation takes the values that its calls of `newId`, `newLinkCode`, `now` and `Date.now` give.
-- An operation reads the store, and after the `await` decides and writes: `…_from` is the second
-- part, over the record that was read and the store as it is by then.
pub mod Commits
pub mod Interleaving
pub mod Laws
pub mod Outcomes
pub mod Results
pub mod Success
use pooli.Base.{
  ℕ, ◌+◌, ◌*◌, ◌%◌, Bool, true, false, not, ◌&&◌, List, [], ◌∷◌, ◌++◌, map, Option, none, some,
  Text, codes, is_empty, trim, take, get_or, length, ◌==◌, if◌then◌else◌,
}
use pooli.Domain.Platform.{Platform}
use pooli.Domain.Types.{
  ProposalState, pending_confirmation, confirmed, expired, executed, state_eq, state_name,
  MessageDraftPayload, Proposal, Result, ok, fail, err, invalid_state, validation_failed,
}
use pooli.Domain.Machine
use pooli.Domain.Machine.{◌+++◌, create_proposal, expire_if_due, mark_executed, mark_failed}
use pooli.Domain.Validation.{validate_message_draft}
use pooli.Domain.Store.{Store, get, find_by_idempotency_key, insert_proposal, compare_and_swap}

abbrev pub alphabet : Text
alphabet = codes "ABCDEFGHJKMNPQRSTUVWXYZ23456789"

-- `generateLinkCode`, over the bytes that `randomBytes(6)` gives
unfoldable pub generate_link_code : List ℕ → Text
generate_link_code bytes = map (λ b. get_or alphabet (b % length alphabet) 0) (take 6 bytes)

pub record ProposeInput : Type 0 where
  pub payload : MessageDraftPayload
  pub idempotency_key : Text

pub record ProposeOutput : Type 0 where
  pub proposal : Proposal
  pub link_code : Text
  pub deduplicated : Bool

-- What `propose` draws from the options of the registry.
pub record Draw : Type 0 where
  pub new_id : Text
  pub new_link_code : Text
  pub ttl_seconds : ℕ
  pub now : ℕ

abbrev pub inserted : Text → Store × Result Proposal → Store × Result ProposeOutput
inserted code (st, ok p) =
    (st, ok (record { proposal = p; link_code = code; deduplicated = false }))
inserted code (st, fail e) = (st, fail e)

-- `propose` behind the lookup of the key.
unfoldable pub propose_from :
    Platform
    → MessageDraftPayload
    → Text
    → Draw
    → Option Proposal
    → Store
    → Store × Result ProposeOutput
propose_from env payload key draw (some existing) st =
    (st, ok (record { proposal = existing; link_code = []; deduplicated = true }))
propose_from env payload key draw none st = inserted draw.new_link_code (
    insert_proposal st (
      create_proposal env (record {
        id = draw.new_id;
        payload = payload;
        link_code = draw.new_link_code;
        idempotency_key = key;
        ttl_seconds = draw.ttl_seconds;
        now = draw.now;
      })))

abbrev pub propose_valid :
    Platform → Text → Draw → Store → Result MessageDraftPayload → Store × Result ProposeOutput
propose_valid env key draw st (fail e) = (st, fail e)
propose_valid env key draw st (ok payload) =
    if is_empty (trim key)
    then (st, err validation_failed "an idempotency key is required")
    else propose_from env payload key draw (find_by_idempotency_key st key) st

unfoldable pub propose : Platform → ProposeInput → Draw → Store → Store × Result ProposeOutput
propose env input draw st =
    propose_valid env input.idempotency_key draw st (validate_message_draft env input.payload)

abbrev pub look : Option Proposal → ℕ → ℕ → Option Proposal
look none now wall = none
look (some p) now wall = some (expire_if_due p now wall)

unfoldable pub get_for_confirmation : Store → Text → ℕ → ℕ → Option Proposal
get_for_confirmation st id now wall = look (get st id) now wall

-- The readings of the clock in `confirm`: the second two are those of its refusal.
pub record Clock : Type 0 where
  pub now : ℕ
  pub wall : ℕ
  pub now_again : ℕ
  pub wall_again : ℕ

-- A refused confirmation writes down the expiry that it finds.
unfoldable pub persist_expiry : Proposal → ℕ → ℕ → Store → Store
persist_expiry current now wall st =
    let late = expire_if_due current now wall in
    if state_eq late.state expired && not (late.version == current.version)
    then (compare_and_swap st late current.version).0
    else st

abbrev pub swap_confirmed : Proposal → Clock → Store → Result Proposal → Store × Result Proposal
swap_confirmed current clock st (ok next) = compare_and_swap st next current.version
swap_confirmed current clock st (fail e) =
    (persist_expiry current clock.now_again clock.wall_again st, fail e)

unfoldable pub confirm_from :
    Platform → Text → Text → Clock → Proposal → Store → Store × Result Proposal
confirm_from env link_code seen_digest clock current st = swap_confirmed current clock st (
    Machine.confirm env current
      (record { link_code = link_code; seen_digest = seen_digest; now = clock.now }) clock.wall)

-- The shape of the other writers: `if (!next.ok) return next;` and the swap.
abbrev pub swap_next : Proposal → Store → Result Proposal → Store × Result Proposal
swap_next current st (ok next) = compare_and_swap st next current.version
swap_next current st (fail e) = (st, fail e)

unfoldable pub reject_from : ℕ → ℕ → Proposal → Store → Store × Result Proposal
reject_from now wall current st = swap_next current st (Machine.reject current now wall)

abbrev pub reference_of : Platform → Text → Text
reference_of env id = codes "sim_" ++ take 12 (env.sha256_hex id)

unfoldable pub execute_from : Platform → ℕ → Proposal → Store → Store × Result Proposal
execute_from env wall current st =
    if not (state_eq current.state confirmed)
    then (st, err invalid_state ("cannot execute a proposal that is " +++ state_name current.state))
    else swap_next current st (mark_executed current (reference_of env current.id) wall)

unfoldable pub fail_from : Text → ℕ → Proposal → Store → Store × Result Proposal
fail_from reason wall current st = swap_next current st (mark_failed current reason wall)

-- `const current = await this.#store.get(id); if (!current) return err(…);`
abbrev pub with_current :
    (Proposal → Store → Store × Result Proposal) → Store → Option Proposal → Store × Result Proposal
with_current act st none = (st, err invalid_state "no such proposal")
with_current act st (some current) = act current st

unfoldable pub confirm : Platform → Text → Text → Text → Clock → Store → Store × Result Proposal
confirm env id link_code seen_digest clock st =
    with_current (confirm_from env link_code seen_digest clock) st (get st id)

unfoldable pub reject : Text → ℕ → ℕ → Store → Store × Result Proposal
reject id now wall st = with_current (reject_from now wall) st (get st id)

unfoldable pub execute : Platform → Text → ℕ → Store → Store × Result Proposal
execute env id wall st = with_current (execute_from env wall) st (get st id)

unfoldable pub fail_proposal : Text → Text → ℕ → Store → Store × Result Proposal
fail_proposal id reason wall st = with_current (fail_from reason wall) st (get st id)
