-- ===== src/Domain/Types.antt =====
-- apps/action-gateway/src/domain/types.ts: proposals, their states, the errors.
-- Times are milliseconds. A `Result` is a sum of a value and an error. Texts that the code takes
-- apart are lists of code units; messages, which it only passes on, are native strings.
use pooli.Base.{ℕ, Bool, true, false, List, [], ◌∷◌, any, Option, none, some, Text, String}

pub data ProposalState : Type 0 where
  pending_confirmation confirmed rejected expired executed failed : ProposalState

-- `===` on states
unfoldable pub state_eq : ProposalState → ProposalState → Bool
state_eq pending_confirmation pending_confirmation = true
state_eq confirmed confirmed = true
state_eq rejected rejected = true
state_eq expired expired = true
state_eq executed executed = true
state_eq failed failed = true
state_eq _ _ = false

abbrev pub proposal_states : List ProposalState
proposal_states = pending_confirmation ∷ confirmed ∷ rejected ∷ expired ∷ executed ∷ failed ∷ []

-- The text of a state, as it stands in answers and messages.
unfoldable pub state_name : ProposalState → String
state_name pending_confirmation = "pending_confirmation"
state_name confirmed = "confirmed"
state_name rejected = "rejected"
state_name expired = "expired"
state_name executed = "executed"
state_name failed = "failed"

abbrev pub terminal_states : List ProposalState
terminal_states = rejected ∷ expired ∷ executed ∷ failed ∷ []

unfoldable pub is_terminal : ProposalState → Bool
unfolding state_eq any
is_terminal s = any (state_eq s) terminal_states

pub record MessageDraftPayload : Type 0 where
  pub order_id : Text
  pub order_slug : Text
  pub merchant_id : Text
  pub body : Text
  pub locale : Text
  pub payment_status : Text

pub data Actor : Type 0 where
  agent human system : Actor

pub record TransitionRecord : Type 0 where
  pub from : ProposalState
  pub to : ProposalState
  pub at : ℕ
  pub reason : Text
  pub actor : Actor

pub record Proposal : Type 0 where
  pub id : Text
  pub state : ProposalState
  pub payload : MessageDraftPayload
  pub payload_digest : Text
  pub link_code_hash : Text
  pub idempotency_key : Text
  pub created_at : ℕ
  pub expires_at : ℕ
  pub version : ℕ
  pub history : List TransitionRecord

pub data ErrorCode : Type 0 where
  invalid_state expired_code link_code_mismatch payload_tampered version_conflict : ErrorCode
  validation_failed idempotency_conflict : ErrorCode

pub record DomainError : Type 0 where
  pub code : ErrorCode
  pub message : String
  pub agent_safe : Bool

pub data Result {ℓ} (A : Type ℓ) : Type ℓ where
  ok : A → Result A
  fail : DomainError → Result A

-- `err(code, message)`, with `agentSafe` at its default
abbrev pub err {ℓ} : {A : Type ℓ} → ErrorCode → String → Result A
err code message = fail (record { code = code; message = message; agent_safe = true })

-- `err(code, message, false)`
abbrev pub err_unsafe {ℓ} : {A : Type ℓ} → ErrorCode → String → Result A
err_unsafe code message = fail (record { code = code; message = message; agent_safe = false })

-- An early return of the error of a step: `if (!r.ok) return r;`.
infixl 5 ◌>>=◌ ◌>>◌
abbrev pub ◌>>=◌ {ℓ κ} : {A : Type ℓ} {B : Type κ} → Result A → (A → Result B) → Result B
ok a >>= f = f a
fail e >>= f = fail e

abbrev pub ◌>>◌ {ℓ} : {B : Type ℓ} → Result (Unit {0}) → Result B → Result B
m >> k = m >>= λ _. k

-- `if (!test) return err(code, message);`
abbrev pub require : Bool → ErrorCode → String → Result (Unit {0})
require true code message = ok tt
require false code message = err code message

-- The code of the error, if there is one.
abbrev pub error_code {ℓ} : {A : Type ℓ} → Result A → Option ErrorCode
error_code (ok a) = none
error_code (fail e) = some e.code
