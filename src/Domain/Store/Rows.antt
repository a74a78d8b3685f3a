-- ===== src/Domain/Store/Rows.antt =====
-- Laws of the table that domain/store.ts is compared with.
use mathlib.Core.Path.{subst}
use pooli.Base.{
  false, [], ◌∷◌, ◌++◌, Option, none, some, Text, text_eq, text_eq_refl, text_eq_iff, is_empty,
  if◌then◌else◌, Bool-cases, inl, inr, ◌≡◌, refl, arith,
}
use pooli.Domain.Types.{Proposal}
use pooli.Domain.Store.Table.{Table, row, row_of_key, replace}

-- No id stands in two rows.
abbrev pub Distinct : Table → Type 0
Distinct [] = Unit
Distinct (p ∷ t) = (row p.id t ≡ none) × Distinct t

-- No row has an empty id.
abbrev pub Named : Table → Type 0
Named [] = Unit
Named (p ∷ t) = (is_empty p.id ≡ false) × Named t

pub row-append :
    (id : Text) (p : Proposal) (t : Table)
    → row p.id t ≡ none
    → row id (t ++ p ∷ []) ≡ (if text_eq p.id id then some p else row id t)
unfolding row
row-append id p [] h = refl
row-append id p (q ∷ t) h =
    ground
      (arith, row-append id p t, text_eq_iff p.id id, text_eq_iff q.id id, text_eq_iff q.id p.id)

pub row_of_key-append :
    (key : Text) (p : Proposal) (t : Table)
    → row_of_key p.idempotency_key t ≡ none
    → row_of_key key (t ++ p ∷ [])
      ≡ (if text_eq p.idempotency_key key then some p else row_of_key key t)
unfolding row_of_key
row_of_key-append key p [] h = refl
row_of_key-append key p (q ∷ t) h = ground (
  arith,
  row_of_key-append key p t,
  text_eq_iff p.idempotency_key key,
  text_eq_iff q.idempotency_key key,
  text_eq_iff q.idempotency_key p.idempotency_key,
)

pub append-Distinct :
    (p : Proposal) (t : Table) → row p.id t ≡ none → Distinct t → Distinct (t ++ p ∷ [])
unfolding row
append-Distinct p [] h d = (refl, tt)
append-Distinct p (q ∷ t) h (first, d) = (
  ground (arith, row-append q.id p t, text_eq_iff q.id p.id, text_eq_iff p.id q.id),
  append-Distinct p t (ground arith) d,
)

pub append-Named :
    (p : Proposal) (t : Table) → is_empty p.id ≡ false → Named t → Named (t ++ p ∷ [])
append-Named p [] h d = (h, tt)
append-Named p (q ∷ t) h (first, d) = (first, append-Named p t h d)

pub row-replace :
    (id : Text) (next current : Proposal) (t : Table)
    → row next.id t ≡ some current
    → row id (replace next t) ≡ (if text_eq next.id id then some next else row id t)
unfolding row replace
row-replace id next current [] h = absurd (ground arith)
row-replace id next current (q ∷ t) h = ground (
  arith,
  row-replace id next current t,
  text_eq_iff next.id id,
  text_eq_iff q.id id,
  text_eq_iff q.id next.id,
)

-- The id of the row that has a key
abbrev pub id_of : Option Proposal → Option Text
id_of none = none
id_of (some p) = some p.id

pub id_of-replace :
    (key : Text) (next current : Proposal) (t : Table)
    → row next.id t ≡ some current
    → current.idempotency_key ≡ next.idempotency_key
    → id_of (row_of_key key (replace next t)) ≡ id_of (row_of_key key t)
unfolding row row_of_key replace
id_of-replace key next current [] h same = refl
id_of-replace key next current (q ∷ t) h same =
    ground (arith, id_of-replace key next current t, text_eq_iff q.id next.id)

replace-none :
    (id : Text) (next : Proposal) (t : Table) → row id t ≡ none → row id (replace next t) ≡ none
unfolding row replace
replace-none id next [] h = refl
replace-none id next (q ∷ t) h = ground (
  arith,
  replace-none id next t,
  text_eq_iff q.id next.id,
  text_eq_iff next.id id,
  text_eq_iff q.id id,
)

pub replace-Distinct : (next : Proposal) (t : Table) → Distinct t → Distinct (replace next t)
unfolding replace
replace-Distinct next [] d = tt
replace-Distinct next (q ∷ t) (first, d) = elim (Bool-cases (text_eq q.id next.id)) [
  | inl same ↦ rw same (subst (λ x. row x t ≡ none) ((text_eq_iff q.id next.id).0 same) first, d)
  | inr other ↦ rw other (replace-none q.id next t first, replace-Distinct next t d)
]

pub replace-Named :
    (next : Proposal) (t : Table) → is_empty next.id ≡ false → Named t → Named (replace next t)
unfolding replace
replace-Named next [] h d = tt
replace-Named next (q ∷ t) h (first, d) = elim (Bool-cases (text_eq q.id next.id)) [
  | inl same ↦ rw same (h, d)
  | inr other ↦ rw other (first, replace-Named next t h d)
]

-- A row that is found by its key is the one that has its id.
pub row-row_of_key :
    (key : Text) (p : Proposal) (t : Table)
    → Distinct t
    → row_of_key key t ≡ some p
    → row p.id t ≡ some p
unfolding row row_of_key
row-row_of_key key p [] d h = absurd (ground arith)
row-row_of_key key p (q ∷ t) (first, d) h = elim (Bool-cases (text_eq q.idempotency_key key)) [
  | inl here ↦
      let e : some q ≡ some p = rw here at h in
      ground (arith, text_eq_refl p.id, text_eq_iff q.id p.id)
  | inr later ↦ ground (arith, row-row_of_key key p t d, text_eq_iff q.id p.id)
]

pub is_empty-row_of_key :
    (key : Text) (p : Proposal) (t : Table)
    → Named t
    → row_of_key key t ≡ some p
    → is_empty p.id ≡ false
unfolding row_of_key
is_empty-row_of_key key p [] d h = absurd (ground arith)
is_empty-row_of_key key p (q ∷ t) (first, d) h = ground (arith, is_empty-row_of_key key p t d)
