-- ===== src/Http/Confirmation.antt =====
-- The routes of apps/action-gateway/src/http/confirmation-api.ts, on a store and two limiters. The
-- framework parses requests and sends answers; a route is a function of the parsed request.
pub mod Guarantees
use pooli.Base.{
  ℕ, Bool, true, false, not, ◌&&◌, List, [], ◌∷◌, ◌++◌, Option, none, some, String, Text, codes,
  trim, if◌then◌else◌,
}
use pooli.Domain.Platform.{Platform}
use pooli.Domain.Types.{
  ProposalState, Proposal, ErrorCode, invalid_state, expired_code, link_code_mismatch,
  payload_tampered, version_conflict, validation_failed, idempotency_conflict, DomainError, Result,
  ok, fail, state_name,
}
use pooli.Domain.Store.{Store}
use pooli.Domain.Registry
use pooli.Domain.Registry.{Clock, get_for_confirmation}
use pooli.Http.Limiter.{AttemptLimiter, new_limiter, consume, clear}
use pooli.Http.Page.{Fragment, render_not_found, render_proposal}

-- `statusFor`
unfoldable pub status_for : ErrorCode → ℕ
status_for invalid_state = 409
status_for version_conflict = 409
status_for expired_code = 410
status_for link_code_mismatch = 403
status_for payload_tampered = 409
status_for validation_failed = 400
status_for idempotency_conflict = 409

unfoldable pub code_name : ErrorCode → String
code_name invalid_state = "INVALID_STATE"
code_name version_conflict = "VERSION_CONFLICT"
code_name expired_code = "EXPIRED"
code_name link_code_mismatch = "LINK_CODE_MISMATCH"
code_name payload_tampered = "PAYLOAD_TAMPERED"
code_name validation_failed = "VALIDATION_FAILED"
code_name idempotency_conflict = "IDEMPOTENCY_CONFLICT"

pub record ProposalView : Type 0 where
  pub id : Text
  pub state : ProposalState
  pub order_id : Text
  pub order_slug : Text
  pub body : Text
  pub locale : Text
  pub payment_status : Text
  pub payload_digest : Text
  pub expires_at : ℕ
  pub created_at : ℕ

unfoldable pub to_view : Proposal → ProposalView
to_view p = record {
  id = p.id;
  state = p.state;
  order_id = p.payload.order_id;
  order_slug = p.payload.order_slug;
  body = p.payload.body;
  locale = p.payload.locale;
  payment_status = p.payload.payment_status;
  payload_digest = p.payload_digest;
  expires_at = p.expires_at;
  created_at = p.created_at;
}

pub data Body : Type 0 where
  health : Body
  view : ProposalView → Body
  simulated : ProposalView → Body
  error_only : String → Body
  error_message : String → String → Body
  page : List Fragment → Body

pub record Response : Type 0 where
  pub status : ℕ
  pub body : Body

abbrev pub answer : ℕ → Body → Response
answer status body = record { status = status; body = body }

pub record Api : Type 0 where
  pub store : Store
  pub limiter : AttemptLimiter
  pub global_limiter : AttemptLimiter

-- `createConfirmationApi` with its default options
unfoldable pub new_api : Store → Api
new_api st = record {
  store = st;
  limiter = new_limiter 5 60000;
  global_limiter = new_limiter 100 60000;
}

unfoldable pub get_health : Response
get_health = answer 200 health

abbrev pub found_view : Option Proposal → Response
found_view none = answer 404 (error_only "not_found")
found_view (some p) = answer 200 (view (to_view p))

-- `GET /api/proposals/:id`
unfoldable pub get_proposal : Api → Text → ℕ → ℕ → Response
get_proposal s id now wall = found_view (get_for_confirmation s.store id now wall)

-- The readings of the clock in a confirmation, in order.
pub record Times : Type 0 where
  pub limiter_now : ℕ
  pub global_now : ℕ
  pub clock : Clock
  pub execute_wall : ℕ
  pub show_now : ℕ
  pub show_wall : ℕ

unfoldable pub confirm_key : Text → Text
confirm_key id = codes "confirm:" ++ id

-- `limiter.consume(…) && globalLimiter.consume(…)`: the second is not called if the first refuses.
unfoldable pub admit : Api → Text → Times → Api × Bool
admit s id t =
    let (l, mine) = consume s.limiter (confirm_key id) t.limiter_now in
    let (g, all) = consume s.global_limiter (codes "confirm:all") t.global_now in
    if not mine
    then (record s { limiter = l }, false)
    else (record s { limiter = l; global_limiter = g }, all)

-- What a confirmation comes to.
pub data Verdict : Type 0 where
  limited : Verdict
  refused : DomainError → Verdict
  unexecuted : DomainError → Verdict
  done : Proposal → Verdict

abbrev pub after_execute : Api → Store × Result Proposal → Api × Verdict
after_execute s (st, ok p) = (record s { store = st }, done p)
after_execute s (st, fail e) = (record s { store = st }, unexecuted e)

abbrev pub after_confirm : Platform → Api → Text → Times → Store × Result Proposal → Api × Verdict
after_confirm env s id t (st, fail e) = (record s { store = st }, refused e)
after_confirm env s id t (st, ok p) =
    after_execute (record s { store = st; limiter = clear s.limiter (confirm_key id) })
      (Registry.execute env id t.execute_wall st)

-- The common part of the two confirmation routes: the limiters, the registry's `confirm`, the
-- counter cleared, and the registry's `execute`.
unfoldable pub attempt : Platform → Api → Text → Text → Text → Times → Api × Verdict
attempt env s id link_code digest t =
    let (s', admitted) = admit s id t in
    if not admitted
    then (s', limited)
    else after_confirm env s' id t (Registry.confirm env id link_code digest t.clock s'.store)

abbrev pub json_verdict : Api × Verdict → Api × Response
json_verdict (s, limited) = (
  s,
  answer 429 (error_message "too_many_attempts" "Too many attempts. Request a new confirmation."),
)
json_verdict (s, refused e) = (
  s,
  answer (status_for e.code) (
      error_message (code_name e.code)
        (if e.agent_safe then e.message else "This request could not be completed.")),
)
json_verdict (s, unexecuted e) = (s, answer (status_for e.code) (error_only (code_name e.code)))
json_verdict (s, done p) = (s, answer 200 (simulated (to_view p)))

-- A field of a JSON body: `none` if it is not a string.
abbrev pub confirm_fields :
    Platform → Api → Text → Option Text → Option Text → Times → Api × Response
confirm_fields env s id (some link_code) (some digest) t =
    json_verdict (attempt env s id link_code digest t)
confirm_fields env s id _ _ t = (s, answer 400 (error_only "invalid_request"))

-- `POST /api/proposals/:id/confirm`
unfoldable pub post_confirm :
    Platform → Api → Text → Option Text → Option Text → Times → Api × Response
post_confirm env s id link_code digest t = confirm_fields env s id link_code digest t

abbrev pub json_rejected : Api → Store × Result Proposal → Api × Response
json_rejected s (st, ok p) = (record s { store = st }, answer 200 (view (to_view p)))
json_rejected s (st, fail e) =
    (record s { store = st }, answer (status_for e.code) (error_only (code_name e.code)))

-- `POST /api/proposals/:id/reject`
unfoldable pub post_reject : Api → Text → ℕ → ℕ → Api × Response
post_reject s id now wall = json_rejected s (Registry.reject id now wall s.store)

module _ (show_date : ℕ → Text) where
  abbrev pub found_page : ℕ → Option String → Option Proposal → Response
  found_page code message none = answer 404 (page render_not_found)
  found_page code message (some p) = answer code (page (render_proposal show_date p message))

  -- `GET /p/:id`
  unfoldable pub get_page : Api → Text → ℕ → ℕ → Response
  get_page s id now wall = found_page 200 none (get_for_confirmation s.store id now wall)

  abbrev pub show : Api → Text → Times → ℕ → String → Response
  show s id t code message =
      found_page code (some message) (get_for_confirmation s.store id t.show_now t.show_wall)

  abbrev pub page_verdict : Text → Times → Api × Verdict → Api × Response
  page_verdict id t (s, limited) =
      (s, show s id t 429 "Too many attempts. Ask for a new message proposal.")
  page_verdict id t (s, refused e) =
      (s, show s id t (status_for e.code) "That code is not valid for this request.")
  page_verdict id t (s, unexecuted e) = (s, show s id t 409 "This request could not be completed.")
  page_verdict id t (s, done p) = (s, answer 200 (page (render_proposal show_date p none)))

  -- `POST /p/:id/confirm`
  unfoldable pub post_page_confirm : Platform → Api → Text → Text → Text → Times → Api × Response
  post_page_confirm env s id link_code digest t =
      page_verdict id t (attempt env s id (env.to_upper (trim link_code)) digest t)

  -- `POST /p/:id/reject`
  unfoldable pub post_page_reject : Api → Text → ℕ → ℕ → ℕ → ℕ → Api × Response
  post_page_reject s id now wall show_now show_wall =
      let st = (Registry.reject id now wall s.store).0 in
      (record s { store = st }, found_page 200 none (get_for_confirmation st id show_now show_wall))
