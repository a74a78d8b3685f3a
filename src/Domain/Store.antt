-- ===== src/Domain/Store.antt =====
-- apps/action-gateway/src/domain/store.ts: the in-memory store.
pub mod Laws
pub mod Table
pub mod Rows
pub mod Refinement
use pooli.Base.{
  ℕ, Bool, true, false, Option, none, some, Text, is_empty, ◌==◌, if◌then◌else◌, not, [],
}
use pooli.Base.Dict.{Dict, lookup, insert}
use pooli.Domain.Types.{
  Proposal, Result, ok, err, invalid_state, version_conflict, idempotency_conflict,
}

pub record Store : Type 0 where
  pub by_id : Dict Proposal
  pub by_idempotency : Dict Text

unfoldable pub empty : Store
empty = record { by_id = []; by_idempotency = [] }

unfoldable pub get : Store → Text → Option Proposal
get st id = lookup id st.by_id

-- `id ? … : null`: an empty id counts as none.
abbrev pub non_empty : Option Text → Option Text
non_empty none = none
non_empty (some s) = if is_empty s then none else some s

abbrev pub get_from : Store → Option Text → Option Proposal
get_from st none = none
get_from st (some id) = lookup id st.by_id

unfoldable pub find_by_idempotency_key : Store → Text → Option Proposal
find_by_idempotency_key st key = get_from st (non_empty (lookup key st.by_idempotency))

abbrev pub is_some {ℓ} : {A : Type ℓ} → Option A → Bool
is_some none = false
is_some (some a) = true

-- The class's method `insert`.
unfoldable pub insert_proposal : Store → Proposal → Store × Result Proposal
insert_proposal st p =
    if is_some (lookup p.id st.by_id)
    then (st, err idempotency_conflict "a proposal with this id already exists")
    else if is_some (non_empty (lookup p.idempotency_key st.by_idempotency))
    then (st, err idempotency_conflict "this idempotency key is already in use")
    else (
      record {
        by_id = insert p.id p st.by_id;
        by_idempotency = insert p.idempotency_key p.id st.by_idempotency;
      },
      ok p,
    )

abbrev swap_at : Store → Proposal → ℕ → Option Proposal → Store × Result Proposal
swap_at st next expected none = (st, err invalid_state "proposal not found")
swap_at st next expected (some current) =
    if not (current.version == expected)
    then (st, err version_conflict "this proposal was modified concurrently")
    else (record st { by_id = insert next.id next st.by_id }, ok next)

unfoldable pub compare_and_swap : Store → Proposal → ℕ → Store × Result Proposal
compare_and_swap st next expected = swap_at st next expected (lookup next.id st.by_id)
