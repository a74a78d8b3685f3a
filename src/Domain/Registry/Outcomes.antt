-- ===== src/Domain/Registry/Outcomes.antt =====
-- How a call of `propose` of registry.ts ends.
use pooli.Base.{
  true, false, none, some, Text, trim, is_empty, ◌≡◌, ◌⊎◌, inl, inr, refl, Bool-cases, Option,
}
use pooli.Domain.Platform.{Platform}
use pooli.Domain.Types.{Proposal, MessageDraftPayload, DomainError, Result, ok, fail}
use pooli.Domain.Validation.{validate_message_draft}
use pooli.Domain.Store.{Store, find_by_idempotency_key, insert_proposal, is_some, non_empty}
use pooli.Base.Dict.{lookup}
use pooli.Domain.Registry.{
  Draw, ProposeInput, ProposeOutput, inserted, propose_from, propose_valid, propose,
}

-- It is refused and keeps the store, finds the proposal of an earlier call and keeps the store, or
-- makes a new proposal.
abbrev pub Ends : Store → Store × Result ProposeOutput → Type 0
Ends st r =
    ((e : DomainError) × (r ≡ (st, fail e)))
    ⊎ ((out : ProposeOutput) × (r ≡ (st, ok out)) × (out.deduplicated ≡ true))
    ⊎ ((out : ProposeOutput) × (r.1 ≡ ok out) × (out.deduplicated ≡ false))

inserted-Ends :
    (code : Text) (st : Store) (p : Proposal) → Ends st (inserted code (insert_proposal st p))
unfolding insert_proposal
inserted-Ends code st p = elim (Bool-cases (is_some (lookup p.id st.by_id))) [
  | inl known ↦ rw known (inl (_, refl))
  | inr fresh ↦
      elim (Bool-cases (is_some (non_empty (lookup p.idempotency_key st.by_idempotency)))) [
        | inl used ↦ rw (fresh, used) (inl (_, refl))
        | inr unused ↦ rw (fresh, unused) (inr (inr (_, refl, refl)))
      ]
]

propose_from-Ends :
    (env : Platform) (payload : MessageDraftPayload) (key : Text) (draw : Draw)
    (existing : Option Proposal) (st : Store)
    → Ends st (propose_from env payload key draw existing st)
unfolding propose_from
propose_from-Ends env payload key draw (some existing) st = inr (inl (_, refl, refl))
propose_from-Ends env payload key draw none st = inserted-Ends draw.new_link_code st _

propose_valid-Ends :
    (env : Platform) (key : Text) (draw : Draw) (st : Store) (v : Result MessageDraftPayload)
    → Ends st (propose_valid env key draw st v)
propose_valid-Ends env key draw st (fail e) = inl (e, refl)
propose_valid-Ends env key draw st (ok payload) = elim (Bool-cases (is_empty (trim key))) [
  | inl blank ↦ rw blank (inl (_, refl))
  | inr given ↦
      rw given (propose_from-Ends env payload key draw (find_by_idempotency_key st key) st)
]

pub propose-Ends :
    (env : Platform) (input : ProposeInput) (draw : Draw) (st : Store)
    → Ends st (propose env input draw st)
unfolding propose
propose-Ends env input draw st =
    propose_valid-Ends env input.idempotency_key draw st (validate_message_draft env input.payload)
