-- ===== src/Domain/Machine.antt =====
-- apps/action-gateway/src/domain/state-machine.ts. `wall` is the value of `Date.now()` at the moment
-- that a transition is recorded; `now` is the time that the caller passes.
pub mod Audit
pub mod Branches
pub mod Digest
pub mod History
pub mod Tamper
use Prim.Native.String
use pooli.Base.{
  ℕ, zero, suc, ◌+◌, ◌*◌, Bool, true, false, not, ◌&&◌, ◌||◌, List, [], ◌∷◌, ◌++◌, Option, none,
  some, any, find, String, Text, codes, text_eq, is_empty, is_space, trim, starts_with, length,
  drop, leb, ltb, ◌==◌, if◌then◌else◌, ◌≡◌, refl,
}
use mathlib.Core.List.{reverse}
use pooli.Domain.Platform.{Platform}
use pooli.Domain.Canonical.{stringify, from_hex}
use pooli.Domain.Types.{
  ProposalState, pending_confirmation, confirmed, rejected, expired, executed, failed, state_eq,
  state_name, is_terminal, MessageDraftPayload, Actor, agent, human, system, TransitionRecord,
  Proposal, ErrorCode, invalid_state, expired_code, link_code_mismatch, payload_tampered, Result,
  ok, fail, err, err_unsafe, ◌>>=◌, ◌>>◌, require,
}

infixr 65 ◌+++◌
abbrev pub ◌+++◌ : String → String → String
s +++ t = String.◌++◌ s t

-- The array that `digestPayload` serialises.
abbrev pub canonical : MessageDraftPayload → List Text
canonical p = p.order_id ∷ p.order_slug ∷ p.merchant_id ∷ p.body ∷ p.locale ∷ p.payment_status ∷ []

unfoldable pub digest_payload : Platform → MessageDraftPayload → Text
digest_payload env p = env.sha256_hex (stringify (canonical p))

unfoldable pub hash_link_code : Platform → Text → Text
hash_link_code env code = env.sha256_hex (env.to_upper (trim code))

-- `ba.length !== bb.length || ba.length === 0`, and then the bytes compared
abbrev pub same_bytes : List ℕ → List ℕ → Bool
same_bytes a b = if not (length a == length b) || length a == 0 then false else text_eq a b

unfoldable pub safe_equal_hex : Text → Text → Bool
safe_equal_hex a b = same_bytes (from_hex a) (from_hex b)

-- The table `LEGAL`.
abbrev pub legal : ProposalState → List ProposalState
legal pending_confirmation = confirmed ∷ rejected ∷ expired ∷ []
legal confirmed = executed ∷ failed ∷ []
legal rejected = []
legal expired = []
legal executed = []
legal failed = []

unfoldable pub applied : Proposal → ProposalState → Text → Actor → ℕ → Proposal
applied p to reason actor wall = record p {
  state = to;
  version = p.version + 1;
  history =
      p.history
      ++ record { from = p.state; to = to; at = wall; reason = reason; actor = actor } ∷ [];
}

pub record CreateInput : Type 0 where
  pub id : Text
  pub payload : MessageDraftPayload
  pub link_code : Text
  pub idempotency_key : Text
  pub ttl_seconds : ℕ
  pub now : ℕ

unfoldable pub create_proposal : Platform → CreateInput → Proposal
create_proposal env input = record {
  id = input.id;
  state = pending_confirmation;
  payload = input.payload;
  payload_digest = digest_payload env input.payload;
  link_code_hash = hash_link_code env input.link_code;
  idempotency_key = input.idempotency_key;
  created_at = input.now;
  expires_at = input.now + input.ttl_seconds * 1000;
  version = 1;
  history =
      record {
        from = pending_confirmation;
        to = pending_confirmation;
        at = input.now;
        reason = codes "proposed";
        actor = agent;
      }
      ∷ [];
}

unfoldable pub guard : Proposal → ProposalState → Result (Unit {0})
unfolding is_terminal any state_eq
guard p to =
    if is_terminal p.state
    then err invalid_state ("proposal is already " +++ state_name p.state +++ " and cannot change")
    else if not (any (state_eq to) (legal p.state))
    then err invalid_state ("cannot move from " +++ state_name p.state +++ " to " +++ state_name to)
    else ok tt

unfoldable pub expire_if_due : Proposal → ℕ → ℕ → Proposal
unfolding state_eq
expire_if_due p now wall =
    if state_eq p.state pending_confirmation && leb p.expires_at now
    then applied p expired (codes "ttl elapsed") system wall
    else p

pub record ConfirmInput : Type 0 where
  pub link_code : Text
  pub seen_digest : Text
  pub now : ℕ

unfoldable pub confirm : Platform → Proposal → ConfirmInput → ℕ → Result Proposal
unfolding state_eq
confirm env p input wall =
    let current = expire_if_due p input.now wall in
    if state_eq current.state expired
    then err expired_code "this confirmation has expired; ask for a new one"
    else do
      guard current confirmed
      require (safe_equal_hex (hash_link_code env input.link_code) current.link_code_hash)
          link_code_mismatch "that confirmation code is not valid"
      (if not (safe_equal_hex input.seen_digest current.payload_digest)
          then err_unsafe payload_tampered "the transfer details changed; please review again"
          else ok (applied current confirmed (codes "confirmed by human") human wall))

unfoldable pub reject : Proposal → ℕ → ℕ → Result Proposal
unfolding state_eq
reject p now wall =
    let current = expire_if_due p now wall in
    if state_eq current.state expired then err expired_code "this confirmation has expired" else do
      guard current rejected
      ok (applied current rejected (codes "declined by human") human wall)

abbrev pub execution_prefix : Text
execution_prefix = codes "simulated execution "

unfoldable pub mark_executed : Proposal → Text → ℕ → Result Proposal
mark_executed p reference wall = do
  guard p executed
  ok (applied p executed (execution_prefix ++ reference) system wall)

unfoldable pub mark_failed : Proposal → Text → ℕ → Result Proposal
mark_failed p reason wall = do guard p failed; ok (applied p failed reason system wall)

-- `\S+` at the head of a text, as long as it goes
unfoldable pub non_spaces : Text → Text
non_spaces [] = []
non_spaces (c ∷ s) = let rest = non_spaces s in if is_space c then [] else c ∷ rest

-- `/simulated execution (\S+)/.exec(reason)?.[1] ?? null`
unfoldable pub execution_match : Text → Option Text
unfolding non_spaces
execution_match [] = none
execution_match (c ∷ s) =
    let later = execution_match s in
    let here = non_spaces (drop 20 (c ∷ s)) in
    if starts_with (c ∷ s) execution_prefix && not (is_empty here) then some here else later

abbrev match_reason : Option TransitionRecord → Option Text
match_reason none = none
match_reason (some entry) = execution_match entry.reason

unfoldable pub execution_reference_of : Proposal → Option Text
execution_reference_of p = match_reason (find (λ h. state_eq h.to executed) (reverse p.history))
