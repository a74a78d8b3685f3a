-- ===== src/Domain/Store/Refinement.antt =====
-- The in-memory store of domain/store.ts answers as one table does.
use pooli.Base.{
  false, List, [], ◌∷◌, ◌++◌, Option, none, some, Text, is_empty, ◌==◌, Bool-cases, Option-cases,
  inl, inr, ◌≡◌, refl, sym, ap, ◌∙◌, arith,
}
use pooli.Base.Dict.{lookup, insert, lookup-insert}
use pooli.Domain.Types.{Proposal}
use pooli.Domain.Store.{
  Store, empty, get, non_empty, find_by_idempotency_key, insert_proposal, compare_and_swap, is_some,
}
use pooli.Domain.Store.Table.{
  Table, row, row_of_key, replace, insert_row, update, Op, getting, finding, inserting, swapping,
  looked_up, on_table, on_store, table_answers, store_answers,
}
use pooli.Domain.Store.Rows.{
  Distinct, Named, id_of, row-append, row_of_key-append, append-Distinct, append-Named, row-replace,
  id_of-replace, replace-Distinct, replace-Named, row-row_of_key, is_empty-row_of_key,
}

-- The two maps hold what the table holds.
record Represents (st : Store) (t : Table) : Type 0 where
  rows : (id : Text) → lookup id st.by_id ≡ row id t
  keys : (key : Text) → lookup key st.by_idempotency ≡ id_of (row_of_key key t)
  distinct : Distinct t
  named : Named t

-- Ids are not empty, and an update keeps the idempotency key of its row.
abbrev KeepsKey : Proposal → Option Proposal → Type 0
KeepsKey next none = Unit
KeepsKey next (some current) = current.idempotency_key ≡ next.idempotency_key

abbrev pub Allowed : Op → Table → Type 0
Allowed (inserting p) t = is_empty p.id ≡ false
Allowed (swapping next expected) t = (is_empty next.id ≡ false) × KeepsKey next (row next.id t)
Allowed o t = Unit

abbrev pub AllAllowed : List Op → Table → Type 0
AllAllowed [] t = Unit
AllAllowed (o ∷ os) t = Allowed o t × AllAllowed os (on_table o t).0

empty-Represents : Represents empty []
unfolding empty row row_of_key lookup
empty-Represents = record { rows = λ id. refl; keys = λ key. refl; distinct = tt; named = tt }

-- A key leads to its row.
found :
    (st : Store) (t : Table) (key : Text)
    → Represents st t
    → find_by_idempotency_key st key ≡ row_of_key key t
unfolding find_by_idempotency_key
found st t key r = elim (Option-cases (row_of_key key t)) [
  | inl unseen ↦ rw (r.keys key, unseen) refl
  | inr (p, seen) ↦
      rw (r.keys key, seen, is_empty-row_of_key key p t r.named seen, r.rows p.id)
        (row-row_of_key key p t r.distinct seen)
]

taken :
    (st : Store) (t : Table) (key : Text)
    → Represents st t
    → is_some (non_empty (lookup key st.by_idempotency)) ≡ is_some (row_of_key key t)
taken st t key r = elim (Option-cases (row_of_key key t)) [
  | inl unseen ↦ rw (r.keys key, unseen) refl
  | inr (p, seen) ↦ rw (r.keys key, seen, is_empty-row_of_key key p t r.named seen) refl
]

append-Represents :
    (st : Store) (t : Table) (p : Proposal)
    → Represents st t
    → is_empty p.id ≡ false
    → row p.id t ≡ none
    → row_of_key p.idempotency_key t ≡ none
    → Represents
        (record {
          by_id = insert p.id p st.by_id;
          by_idempotency = insert p.idempotency_key p.id st.by_idempotency;
        })
        (t ++ p ∷ [])
append-Represents st t p r named new free = record {
  rows = λ id. ground (arith, lookup-insert p.id id p st.by_id, row-append id p t new, r.rows id);
  keys = λ key. ground (
    arith,
    lookup-insert p.idempotency_key key p.id st.by_idempotency,
    row_of_key-append key p t free,
    r.keys key,
  );
  distinct = append-Distinct p t new r.distinct;
  named = append-Named p t named r.named;
}

replace-Represents :
    (st : Store) (t : Table) (next current : Proposal)
    → Represents st t
    → is_empty next.id ≡ false
    → row next.id t ≡ some current
    → current.idempotency_key ≡ next.idempotency_key
    → Represents (record st { by_id = insert next.id next st.by_id }) (replace next t)
replace-Represents st t next current r named stored same = record {
  rows = λ id. ground (
    arith,
    lookup-insert next.id id next st.by_id,
    row-replace id next current t stored,
    r.rows id,
  );
  keys = λ key. r.keys key ∙ sym (id_of-replace key next current t stored same);
  distinct = replace-Distinct next t r.distinct;
  named = replace-Named next t named r.named;
}

-- One operation
simulates :
    (o : Op) (st : Store) (t : Table)
    → Represents st t
    → Allowed o t
    → Represents (on_store o st).0 (on_table o t).0 × ((on_store o st).1 ≡ (on_table o t).1)
unfolding on_store on_table get insert_proposal insert_row compare_and_swap update
simulates (getting id) st t r a = (r, ap looked_up (r.rows id))
simulates (finding key) st t r a = (r, ap looked_up (found st t key r))
simulates (inserting p) st t r a = elim (Option-cases (row p.id t)) [
  | inr (q, known) ↦ rw (r.rows p.id, known) (r, refl)
  | inl new ↦ elim (Option-cases (row_of_key p.idempotency_key t)) [
    | inr (q, used) ↦ rw (r.rows p.id, new, taken st t p.idempotency_key r, used) (r, refl)
    | inl free ↦
        rw (r.rows p.id, new, taken st t p.idempotency_key r, free)
          (append-Represents st t p r a new free, refl)
  ]
]
simulates (swapping next expected) st t r (named, keeps) = elim (Option-cases (row next.id t)) [
  | inl unknown ↦ rw (r.rows next.id, unknown) (r, refl)
  | inr (current, stored) ↦ elim (Bool-cases (current.version == expected)) [
    | inr stale ↦ rw (r.rows next.id, stored, stale) (r, refl)
    | inl now ↦
        rw (r.rows next.id, stored, now)
          (replace-Represents st t next current r named stored (rw stored at keeps), refl)
  ]
]

-- Whatever is asked of an empty store and of an empty table with two unique columns, the id and the
-- idempotency key, both give the same answers, where no id is empty and an update keeps the
-- idempotency key of the row that it updates.
pub answers_refine :
    (os : List Op) → AllAllowed os [] → store_answers os empty ≡ table_answers os []
unfolding store_answers table_answers
answers_refine os allowed = go os empty [] empty-Represents allowed
  where
    go :
        (os : List Op) (st : Store) (t : Table)
        → Represents st t
        → AllAllowed os t
        → store_answers os st ≡ table_answers os t
    go [] st t r a = refl
    go (o ∷ os) st t r (a, rest) =
        let (next, same) = simulates o st t r a in
        let later = go os (on_store o st).0 (on_table o t).0 next rest in cc
