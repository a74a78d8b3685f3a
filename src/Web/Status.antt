-- ===== src/Web/Status.antt =====
-- The payment statuses of apps/web/src/lib: payment-handoff/exceptions.ts, paymentUiState.ts and the
-- sets of paymentPoll.ts. A status is a text, `none` if it is undefined or null.
pub mod Coherence
use pooli.Base.Options.{is_text, or_empty}
use pooli.Base.{
  ℕ, Bool, true, false, not, ◌&&◌, ◌||◌, List, [], ◌∷◌, Option, none, some, Text, codes, text_eq,
  any, is_empty, leb, if◌then◌else◌,
}

-- `set.has(status)`
unfoldable pub has : List Text → Text → Bool
has set status = any (text_eq status) set

abbrev pub exception_statuses : List Text
exception_statuses =
    codes "EXPIRED"
    ∷ codes "UNDERPAID"
    ∷ codes "OVERPAID"
    ∷ codes "LATE_PAYMENT"
    ∷ codes "NEEDS_REVIEW"
    ∷ codes "DUPLICATE_PAYMENT"
    ∷ []

-- A kind of exception is the status itself.
unfoldable pub exception_kind : Option Text → Option Text
exception_kind none = none
exception_kind (some s) = if is_empty s || not (has exception_statuses s) then none else some s

unfoldable pub money_detected : Option Text → Bool
money_detected s =
    is_text s (codes "SEEN")
    || is_text s (codes "CONFIRMING")
    || is_text s (codes "PAID")
    || is_text s (codes "UNDERPAID")
    || is_text s (codes "OVERPAID")
    || is_text s (codes "LATE_PAYMENT")
    || is_text s (codes "NEEDS_REVIEW")
    || is_text s (codes "DUPLICATE_PAYMENT")

unfoldable pub is_awaiting_payment : Option Text → Bool
is_awaiting_payment s = is_text s (codes "AWAITING_PAYMENT") || is_text s (codes "CREATED")

-- What the browser reads of a time: `none` if it is no date.
abbrev pub has_passed : Option ℕ → ℕ → Bool
has_passed none now = false
has_passed (some t) now = leb t now

-- `parse_time` is `new Date(…).getTime()`, `none` where it is not finite.
unfoldable pub can_refresh_quote :
    (parse_time : Text → Option ℕ) (now : ℕ) → Option Text → Option Text → Bool
can_refresh_quote parse_time now status expires_at =
    if money_detected status
    then false
    else if is_text status (codes "EXPIRED")
    then true
    else if is_awaiting_payment status
    then (elim expires_at [
      | none ↦ false
      | some e ↦ if is_empty e then false else has_passed (parse_time e) now
    ])
    else false

pub data UiState : Type 0 where
  ready : UiState
  opening_wallet : UiState
  waiting_for_payment : UiState
  payment_detected : UiState
  confirming : UiState
  paid : UiState
  expired : UiState
  needs_attention : UiState
  offline : UiState

-- `ex === "EXPIRED"`, `ex`, and the statuses behind
abbrev pub ui_of_exception : Option Text → UiState → UiState
ui_of_exception none rest = rest
ui_of_exception (some kind) rest =
    if text_eq kind (codes "EXPIRED") then expired else needs_attention

unfoldable pub resolve_ui_state : (status : Option Text) (opening is_offline : Bool) → UiState
resolve_ui_state intent_status opening is_offline =
    let status = some (or_empty intent_status) in
    if is_offline
    then offline
    else if is_text status (codes "PAID")
    then paid
    else ui_of_exception (exception_kind status) (
        if is_text status (codes "CONFIRMING")
        then confirming
        else if is_text status (codes "SEEN")
        then payment_detected
        else if opening
        then opening_wallet
        else if is_text status (codes "AWAITING_PAYMENT") || is_text status (codes "CREATED")
        then waiting_for_payment
        else if money_detected status
        then payment_detected
        else ready)

abbrev pub poll_statuses : List Text
poll_statuses = codes "CREATED" ∷ codes "AWAITING_PAYMENT" ∷ codes "SEEN" ∷ codes "CONFIRMING" ∷ []

abbrev pub stop_poll_statuses : List Text
stop_poll_statuses =
    codes "PAID"
    ∷ codes "EXPIRED"
    ∷ codes "CANCELLED"
    ∷ codes "NEEDS_REVIEW"
    ∷ codes "UNDERPAID"
    ∷ codes "OVERPAID"
    ∷ codes "LATE_PAYMENT"
    ∷ codes "DUPLICATE_PAYMENT"
    ∷ []

unfoldable pub should_poll : Option Text → Bool
should_poll none = false
should_poll (some s) =
    if is_empty s then false else if has stop_poll_statuses s then false else has poll_statuses s
