-- ===== src/Examples/Web.antt =====
-- The theorems about the web app at concrete inputs.
use pooli.Base.{
  arith, true, false, [], ◌∷◌, Option, none, some, Text, codes, ◌≡◌, refl, every, any, text_eq,
}
use pooli.Domain.Platform.{Platform}
use pooli.Domain.Types.{pending_confirmation}
use pooli.Domain.Machine.{canonical, digest_payload}
use pooli.Base.{true, ◌≢◌, ◌⊎◌}
use pooli.Web.Status.{
  exception_kind, resolve_ui_state, paid, is_awaiting_payment, has, money_detected,
  can_refresh_quote, should_poll,
}
use pooli.Web.Status.Coherence.{can_refresh_quote-UiState, should_poll-UiState_iff}
use pooli.Web.Poll.{created, start, stop, run, visibility, timer, settled}
use pooli.Web.Poll.Liveness.{IsPolling, IsSilent, run-start-IsPolling, run-stop-IsSilent}
use pooli.Web.Approval.{View, web_canonical, draft_of, can_approve}
use pooli.Web.Approval.Mismatch.{can_approve_never}
use pooli.Web.Handoff.{HandoffInput, build_handoff_plan}
use pooli.Web.Handoff.Plans.{build_handoff_plan-IsPlanned}
use pooli.Base.Decimal.{decimal, digits_of, drop_zeros, pad_zeros}
use pooli.Web.Usdt.{parse_usdt_to_base_units, format_usdt_from_base_units, is_valid_usdt_amount}
use pooli.Web.Usdt.RoundTrip.{parse-format_usdt}
use pooli.Base.{keep, starts_with, length}
use pooli.Web.Phone.{normalize_iranian_phone}
use pooli.Web.Phone.Normal.{normalize_iranian_phone_idempotent}
use pooli.Examples.{draft, every-IsUnits}

can_refresh_quote-UiState_example : money_detected (some (codes "EXPIRED")) ≡ false
unfolding can_refresh_quote money_detected text_eq
can_refresh_quote-UiState_example =
    (can_refresh_quote-UiState (λ s. none) 7 (some (codes "EXPIRED")) none false refl).0

abbrev seen : Option Text
seen = some (codes "SEEN")

polled : should_poll seen ≡ true
unfolding should_poll has any text_eq
polled = refl

should_poll-UiState_iff_example :
    (exception_kind seen ≡ none)
    × (resolve_ui_state seen true false ≢ paid)
    × ((money_detected seen ≡ true) ⊎ (is_awaiting_payment seen ≡ true))
should_poll-UiState_iff_example = (should_poll-UiState_iff (codes "SEEN") true).0 polled

run-start-IsPolling_example :
    IsPolling (run (timer seen ∷ visibility true seen ∷ timer seen ∷ []) (start seen created))
run-start-IsPolling_example =
    run-start-IsPolling seen (timer seen ∷ visibility true seen ∷ timer seen ∷ []) created refl
      polled (polled, (polled, (polled, tt)))

run-stop-IsSilent_example :
    IsSilent 0 (run (timer seen ∷ settled seen ∷ []) (stop (record created { stopped = false })))
run-stop-IsSilent_example =
    run-stop-IsSilent (timer seen ∷ settled seen ∷ []) (record created { stopped = false })
      (tt, (tt, tt))

-- A platform whose digest tells all texts apart.
abbrev plain_env : Platform
plain_env = record { to_lower = λ s. s; to_upper = λ s. s; sha256_hex = λ s. s }

abbrev view : View
view = record {
  id = codes "p";
  state = pending_confirmation;
  order_id = draft.order_id;
  order_slug = draft.order_slug;
  body = draft.body;
  locale = draft.locale;
  payment_status = draft.payment_status;
  payload_digest = digest_payload plain_env draft;
  expires_at = 301000;
  created_at = 1000;
}

can_approve_never_example : can_approve plain_env view draft.body (codes "ABC234") false ≡ false
unfolding every
can_approve_never_example =
    can_approve_never plain_env draft view draft.body (codes "ABC234") false
      (every-IsUnits (canonical draft) refl)
      (every-IsUnits (web_canonical (draft_of view draft.body)) refl) (λ e. e) refl

abbrev phone : HandoffInput
phone = record {
  option = record {
    id = codes "o1";
    status = none;
    network = codes "bsc";
    destination_address = codes "0x1";
    asset = none;
    payment_uri = none;
    chain_id = some 56;
    token_contract = some (codes "0x55d3");
    pay_usdt_amount = codes "1.5";
    pay_usdt_amount_base_units = some 1500000;
    token_decimals = some 18;
  };
  env = record {
    is_mobile = true;
    is_desktop = false;
    is_in_app_browser = false;
    in_app_kind = none;
    is_ios = false;
    is_android = true;
  };
  preferred_wallet_id = none;
  wallet_connect_project_id = none;
}

build_handoff_plan-IsPlanned_example : (build_handoff_plan phone).show_pay_with_wallet ≡ true
build_handoff_plan-IsPlanned_example = (build_handoff_plan-IsPlanned phone).1

parse-format_usdt_example :
    (parse_usdt_to_base_units (format_usdt_from_base_units 12500000) ≡ some 12500000)
    × (is_valid_usdt_amount (format_usdt_from_base_units 12500000) ≡ true)
parse-format_usdt_example = parse-format_usdt 12500000 (omega arith) (omega arith)

written : format_usdt_from_base_units 12500000 ≡ codes "12.5"
unfolding format_usdt_from_base_units decimal digits_of drop_zeros pad_zeros
written = refl

phone_normalized : normalize_iranian_phone (codes "0912 345 6789") ≡ some (codes "+989123456789")
unfolding normalize_iranian_phone keep starts_with every
phone_normalized = refl

normalize_iranian_phone_idempotent_example :
    (length (codes "+989123456789") ≡ 13)
    × (normalize_iranian_phone (codes "+989123456789") ≡ some (codes "+989123456789"))
normalize_iranian_phone_idempotent_example =
    normalize_iranian_phone_idempotent (codes "0912 345 6789") (codes "+989123456789")
      phone_normalized
