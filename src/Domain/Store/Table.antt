-- ===== src/Domain/Store/Table.antt =====
-- What domain/store.ts promises: a table of proposals with two unique columns, the id and the
-- idempotency key, in the order of insertion, and an update that is conditional on the version.
use pooli.Base.{ℕ, not, List, [], ◌∷◌, ◌++◌, Option, none, some, Text, text_eq, ◌==◌, if◌then◌else◌}
use pooli.Domain.Types.{
  Proposal, Result, ok, err, invalid_state, version_conflict, idempotency_conflict,
}
use pooli.Domain.Store.{
  Store, get, find_by_idempotency_key, insert_proposal, compare_and_swap, is_some,
}

abbrev pub Table : Type 0
Table = List Proposal

unfoldable pub row : Text → Table → Option Proposal
row id [] = none
row id (p ∷ t) = if text_eq p.id id then some p else row id t

unfoldable pub row_of_key : Text → Table → Option Proposal
row_of_key key [] = none
row_of_key key (p ∷ t) = if text_eq p.idempotency_key key then some p else row_of_key key t

unfoldable pub replace : Proposal → Table → Table
replace next [] = []
replace next (p ∷ t) =
    let rest = replace next t in if text_eq p.id next.id then next ∷ t else p ∷ rest

unfoldable pub insert_row : Proposal → Table → Table × Result Proposal
insert_row p t =
    if is_some (row p.id t)
    then (t, err idempotency_conflict "a proposal with this id already exists")
    else if is_some (row_of_key p.idempotency_key t)
    then (t, err idempotency_conflict "this idempotency key is already in use")
    else (t ++ p ∷ [], ok p)

abbrev pub update_row : Proposal → ℕ → Table → Option Proposal → Table × Result Proposal
update_row next expected t none = (t, err invalid_state "proposal not found")
update_row next expected t (some current) =
    if not (current.version == expected)
    then (t, err version_conflict "this proposal was modified concurrently")
    else (replace next t, ok next)

unfoldable pub update : Proposal → ℕ → Table → Table × Result Proposal
update next expected t = update_row next expected t (row next.id t)

-- The operations of the store, and their answers
pub data Op : Type 0 where
  getting : (id : Text) → Op
  finding : (key : Text) → Op
  inserting : Proposal → Op
  swapping : (next : Proposal) (expected : ℕ) → Op

pub data Answer : Type 0 where
  looked_up : Option Proposal → Answer
  written : Result Proposal → Answer

unfoldable pub on_table : Op → Table → Table × Answer
on_table (getting id) t = (t, looked_up (row id t))
on_table (finding key) t = (t, looked_up (row_of_key key t))
on_table (inserting p) t = let (t', r) = insert_row p t in (t', written r)
on_table (swapping next expected) t = let (t', r) = update next expected t in (t', written r)

unfoldable pub on_store : Op → Store → Store × Answer
on_store (getting id) st = (st, looked_up (get st id))
on_store (finding key) st = (st, looked_up (find_by_idempotency_key st key))
on_store (inserting p) st = let (st', r) = insert_proposal st p in (st', written r)
on_store (swapping next expected) st =
    let (st', r) = compare_and_swap st next expected in (st', written r)

unfoldable pub table_answers : List Op → Table → List Answer
table_answers [] t = []
table_answers (o ∷ os) t = let (t', a) = on_table o t in a ∷ table_answers os t'

unfoldable pub store_answers : List Op → Store → List Answer
store_answers [] st = []
store_answers (o ∷ os) st = let (st', a) = on_store o st in a ∷ store_answers os st'
