-- ===== src/Web/Proposals/Pending.antt =====
-- Which proposals are shown for an order, in apps/web/src/lib/order-proposals.ts.
use pooli.Base.{
  Bool, true, false, ◌&&◌, ◌||◌, List, [], ◌∷◌, ◌++◌, any, Option, Text, text_eq, text_eq_iff,
  is_empty, All, Bool-cases, Option-cases, inl, inr, ◌≡◌, refl, arith,
}
use pooli.Domain.Types.{pending_confirmation, state_eq}
use pooli.Web.Proposals.{
  ProposalView, OrderProposals, add, add_all, list_order_proposal_refs, proposal_ids, pending_views,
  load_pending_proposals_for_order,
}

-- No id stands twice.
abbrev pub Distinct : List Text → Type 0
Distinct [] = Unit
Distinct (id ∷ ids) = (any (text_eq id) ids ≡ false) × Distinct ids

any-append : (p : Text → Bool) (xs ys : List Text) → any p (xs ++ ys) ≡ (any p xs || any p ys)
unfolding any
any-append p [] ys = refl
any-append p (x ∷ xs) ys = ground (arith, any-append p xs ys)

append-Distinct :
    (id : Text) (ids : List Text)
    → any (text_eq id) ids ≡ false
    → Distinct ids
    → Distinct (ids ++ id ∷ [])
unfolding any
append-Distinct id [] n d = (refl, tt)
append-Distinct id (j ∷ ids) n (first, d) = (
  ground (arith, any-append (text_eq j) ids (id ∷ []), text_eq_iff id j, text_eq_iff j id),
  append-Distinct id ids (ground arith) d,
)

add-Distinct : (id : Text) (ids : List Text) → Distinct ids → Distinct (add id ids)
unfolding add
add-Distinct id ids d = elim (Bool-cases (any (text_eq id) ids)) [
  | inl known ↦ rw known d
  | inr new ↦ rw new (append-Distinct id ids new d)
]

pub add_all-Distinct : (more ids : List Text) → Distinct ids → Distinct (add_all more ids)
unfolding add_all
add_all-Distinct [] ids d = d
add_all-Distinct (id ∷ more) ids d = elim (Bool-cases (is_empty id)) [
  | inl blank ↦ rw blank (add_all-Distinct more ids d)
  | inr named ↦ rw named (add_all-Distinct more (add id ids) (add-Distinct id ids d))
]

pub IsPendingOf : Text → ProposalView → Type 0
IsPendingOf order p = (p.order_id ≡ order) × (state_eq p.state pending_confirmation ≡ true)

pending_views-IsPendingOf :
    (fetch : Text → Option ProposalView) (order : Text) (ids : List Text)
    → All (IsPendingOf order) (pending_views fetch order ids)
unfolding pending_views IsPendingOf
pending_views-IsPendingOf fetch order [] = tt
pending_views-IsPendingOf fetch order (id ∷ ids) =
    let rest = pending_views-IsPendingOf fetch order ids in
    elim (Option-cases (fetch id)) [
      | inl missing ↦ rw missing rest
      | inr (p, found) ↦
          elim (Bool-cases (text_eq p.order_id order && state_eq p.state pending_confirmation)) [
            | inl shown ↦
                rw (found, shown)
                  (((text_eq_iff p.order_id order).0 (ground arith), ground arith), rest)
            | inr hidden ↦ rw (found, hidden) rest
          ]
    ]

-- The proposals that are shown for an order are pending ones of that order, and no id is fetched twice.
pub load_pending-IsPendingOf :
    (fetch : Text → Option ProposalView) (order : Text) (answer : Option OrderProposals)
    (extra : List Text)
    → All (IsPendingOf order) (load_pending_proposals_for_order fetch order answer extra)
      × Distinct (proposal_ids answer extra)
unfolding load_pending_proposals_for_order proposal_ids
load_pending-IsPendingOf fetch order answer extra = (
  pending_views-IsPendingOf fetch order (proposal_ids answer extra),
  add_all-Distinct (list_order_proposal_refs answer) (add_all extra [])
      (add_all-Distinct extra [] tt),
)
