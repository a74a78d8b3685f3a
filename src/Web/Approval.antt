-- ===== src/Web/Approval.antt =====
-- The merchant's approval of a draft in the web app: apps/web/src/lib/action-gateway.ts and the
-- conditions of apps/web/src/components/orders/MessageProposalSheet.tsx. SHA-256 is the platform's.
pub mod Mismatch
use pooli.Base.{
  ℕ, Bool, true, false, not, ◌&&◌, List, [], ◌∷◌, ◌++◌, Option, none, some, Text, codes, text_eq,
  trim, is_empty, leb, length, if◌then◌else◌,
}
use pooli.Domain.Platform.{Platform}
use pooli.Domain.Types.{ProposalState, pending_confirmation, state_eq}
use pooli.Domain.Canonical.{stringify}

-- `ProposalView` of the web app
pub record View : Type 0 where
  pub id : Text
  pub state : ProposalState
  pub order_id : Text
  pub order_slug : Text
  pub body : Text
  pub locale : Text
  pub payment_status : Text
  pub payload_digest : Text
  pub expires_at : ℕ
  pub created_at : ℕ

-- `MessageDraftPayload` of the web app
pub record Draft : Type 0 where
  pub order_id : Text
  pub order_slug : Text
  pub body : Text
  pub locale : Text
  pub payment_status : Text

abbrev pub web_canonical : Draft → List Text
web_canonical p = p.order_id ∷ p.order_slug ∷ p.body ∷ p.locale ∷ p.payment_status ∷ []

unfoldable pub digest_message_draft_payload : Platform → Draft → Text
digest_message_draft_payload env p = env.sha256_hex (stringify (web_canonical p))

-- What the sheet digests: the proposal with the body that stands in its text field.
abbrev pub draft_of : View → Text → Draft
draft_of proposal draft_body = record {
  order_id = proposal.order_id;
  order_slug = proposal.order_slug;
  body = draft_body;
  locale = proposal.locale;
  payment_status = proposal.payment_status;
}

-- `digestOk`, when the effect has run
unfoldable pub digest_ok : Platform → View → Text → Bool
digest_ok env proposal draft_body =
    text_eq (digest_message_draft_payload env (draft_of proposal draft_body))
      proposal.payload_digest

-- `canApprove`, for a proposal that is there
unfoldable pub can_approve : Platform → View → (draft_body link_code : Text) → (busy : Bool) → Bool
can_approve env proposal draft_body link_code busy =
    state_eq proposal.state pending_confirmation
    && digest_ok env proposal draft_body
    && leb 6 (length (trim link_code))
    && not busy
