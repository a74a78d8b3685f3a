-- ===== src/Web/Proposals.antt =====
-- apps/web/src/lib/order-proposals.ts: the pending proposals of an order. The answers of the commerce API
-- and of the gateway are parameters.
pub mod Pending
use pooli.Base.{
  Bool, true, false, not, ◌&&◌, ◌||◌, List, [], ◌∷◌, ◌++◌, any, keep, map, Option, none, some, Text,
  codes, text_eq, is_empty, if◌then◌else◌,
}
use pooli.Domain.Types.{ProposalState, pending_confirmation, state_eq}

-- The fields of `ProposalView` that are read
pub record ProposalView : Type 0 where
  pub id : Text
  pub order_id : Text
  pub state : ProposalState

-- The ids of `proposals` and of `pending_proposals`, none if they are absent
pub record OrderProposals : Type 0 where
  pub proposals : List Text
  pub pending_proposals : List Text

-- `set.add(id)`
unfoldable pub add : Text → List Text → List Text
add id ids = if any (text_eq id) ids then ids else ids ++ id ∷ []

-- Adding all ids that are not empty, in their order
unfoldable pub add_all : List Text → List Text → List Text
add_all [] ids = ids
add_all (id ∷ more) ids = add_all more (if is_empty id then ids else add id ids)

-- `listOrderProposalRefs`, its ids; no answer counts as none.
unfoldable pub list_order_proposal_refs : Option OrderProposals → List Text
list_order_proposal_refs none = []
list_order_proposal_refs (some d) = add_all (d.proposals ++ d.pending_proposals) []

-- `[...extraIds, ...refs]` as a set
unfoldable pub proposal_ids : Option OrderProposals → (extra : List Text) → List Text
proposal_ids answer extra = add_all (list_order_proposal_refs answer) (add_all extra [])

abbrev pub push_pending : Text → Option ProposalView → List ProposalView → List ProposalView
push_pending order none views = views
push_pending order (some p) views =
    if text_eq p.order_id order && state_eq p.state pending_confirmation then p ∷ views else views

-- The views of ids that are pending for the order; `fetch` is `none` where it throws.
unfoldable pub pending_views :
    (fetch : Text → Option ProposalView) → (order : Text) → List Text → List ProposalView
pending_views fetch order [] = []
pending_views fetch order (id ∷ ids) = push_pending order (fetch id) (pending_views fetch order ids)

unfoldable pub load_pending_proposals_for_order :
    (fetch : Text → Option ProposalView)
    → (order : Text) → Option OrderProposals
    → (extra : List Text) → List ProposalView
load_pending_proposals_for_order fetch order answer extra =
    pending_views fetch order (proposal_ids answer extra)
