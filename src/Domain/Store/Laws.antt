-- ===== src/Domain/Store/Laws.antt =====
-- The store of store.ts behind its laws.
use pooli.Base.{ℕ, none, some, Text, ◌==◌, if◌then◌else◌, text_eq}
use pooli.Base.{◌≡◌, ◌≢◌, ◌⊎◌, inl, inr, Option-cases, Bool-cases, refl, arith}
use pooli.Base.Dict.{lookup, insert, lookup-insert}
use pooli.Domain.Types.{Proposal, ok, error_code}
use pooli.Domain.Store.{Store, non_empty, is_some, get, empty, insert_proposal, compare_and_swap}

-- The store after a write at an id.
abbrev pub put : Store → Proposal → Store
put st p = record st { by_id = insert p.id p st.by_id }

pub get-put :
    (st : Store) (p : Proposal) (id : Text)
    → get (put st p) id ≡ (if text_eq p.id id then some p else get st id)
unfolding get
get-put st p id = lookup-insert p.id id p st.by_id

-- A swap writes exactly when the stored version is the expected one, and else changes nothing.
pub compare_and_swap-cases :
    (st : Store) (next : Proposal) (expected : ℕ)
    → ((current : Proposal) × (get st next.id ≡ some current)
        × (current.version ≡ expected)
        × (compare_and_swap st next expected ≡ (put st next, ok next)))
      ⊎ ((compare_and_swap st next expected).0 ≡ st)
        × (error_code (compare_and_swap st next expected).1 ≢ none)
unfolding compare_and_swap get
compare_and_swap-cases st next expected = elim (Option-cases (lookup next.id st.by_id)) [
  | inl missing ↦ inr (ground arith, ground arith)
  | inr (current, found) ↦ elim (Bool-cases (current.version == expected)) [
    | inl same ↦ inl (current, found, ground arith, ground arith)
    | inr other ↦ inr (ground arith, ground arith)
  ]
]

pub insert_proposal-cases :
    (st : Store) (p : Proposal)
    → ((get st p.id ≡ none)
        × ((insert_proposal st p).1 ≡ ok p)
        × ((id : Text)
            → get (insert_proposal st p).0 id ≡ (if text_eq p.id id then some p else get st id)))
      ⊎ ((insert_proposal st p).0 ≡ st)
unfolding insert_proposal get
insert_proposal-cases st p = elim (Option-cases (lookup p.id st.by_id)) [
  | inr (q, found) ↦ inr (ground arith)
  | inl fresh ↦ elim (Option-cases (non_empty (lookup p.idempotency_key st.by_idempotency))) [
    | inr (key, used) ↦ inr (ground arith)
    | inl unused ↦ inl (
      fresh,
      rw (fresh, is_some) (rw (unused, is_some) refl),
      λ id. ground (arith, lookup-insert p.id id p st.by_id),
    )
  ]
]

pub get-empty : (id : Text) → get empty id ≡ none
unfolding get empty lookup
get-empty id = refl
