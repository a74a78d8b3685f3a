-- ===== src/Web/Status/Coherence.antt =====
-- How the tests on a payment status in apps/web/src/lib fit together.
use pooli.Base.{
  ℕ, Bool, true, false, List, [], ◌∷◌, All, any-elim, ◌↔◌, Option, none, some, Text, codes, text_eq,
  text_eq_iff, any, ◌≡◌, ◌≢◌, ◌⊎◌, refl, ap, inl, inr, arith, Bool-cases,
}
use pooli.Base.Options.{is_text}
use pooli.Web.Status.{
  has, exception_kind, money_detected, is_awaiting_payment, can_refresh_quote, resolve_ui_state,
  paid, expired, waiting_for_payment, opening_wallet, should_poll, poll_statuses,
}

-- The statuses for which a quote may be refreshed.
data IsRefreshable : Option Text → Type 0 where
  expired_quote : IsRefreshable (some (codes "EXPIRED"))
  awaited_quote : IsRefreshable (some (codes "AWAITING_PAYMENT"))
  created_quote : IsRefreshable (some (codes "CREATED"))

is_text-eq : (status : Option Text) (s : Text) → is_text status s ≡ true → status ≡ some s
is_text-eq none s h = cc
is_text-eq (some t) s h = ap some ((text_eq_iff t s).0 h)

can_refresh_quote-IsRefreshable :
    (parse_time : Text → Option ℕ) (now : ℕ) (status expires_at : Option Text)
    → can_refresh_quote parse_time now status expires_at ≡ true
    → IsRefreshable status
unfolding can_refresh_quote is_awaiting_payment
can_refresh_quote-IsRefreshable parse_time now status expires_at h =
    elim (Bool-cases (is_text status (codes "EXPIRED"))) [
      | inl e ↦ rw (is_text-eq status (codes "EXPIRED") e) expired_quote
      | inr not_expired ↦ elim (Bool-cases (is_text status (codes "AWAITING_PAYMENT"))) [
        | inl a ↦ rw (is_text-eq status (codes "AWAITING_PAYMENT") a) awaited_quote
        | inr not_awaiting ↦ elim (Bool-cases (is_text status (codes "CREATED"))) [
          | inl c ↦ rw (is_text-eq status (codes "CREATED") c) created_quote
          | inr not_created ↦ absurd (ground arith)
        ]
      ]
    ]

IsRefreshable-UiState :
    (status : Option Text) (opening : Bool)
    → IsRefreshable status
    → (money_detected status ≡ false)
      × ((resolve_ui_state status opening false ≡ expired)
          ⊎ ((resolve_ui_state status opening false ≡ waiting_for_payment)
              ⊎ (resolve_ui_state status opening false ≡ opening_wallet)))
unfolding money_detected resolve_ui_state exception_kind has text_eq any
IsRefreshable-UiState _ opening expired_quote = (refl, inl refl)
IsRefreshable-UiState _ true awaited_quote = (refl, inr (inr refl))
IsRefreshable-UiState _ false awaited_quote = (refl, inr (inl refl))
IsRefreshable-UiState _ true created_quote = (refl, inr (inr refl))
IsRefreshable-UiState _ false created_quote = (refl, inr (inl refl))

-- A status for which the quote may be refreshed is one where no money was detected, and, online, it
-- is shown as expired, as waiting for the payment, or as the wallet being opened.
pub can_refresh_quote-UiState :
    (parse_time : Text → Option ℕ) (now : ℕ) (status expires_at : Option Text) (opening : Bool)
    → can_refresh_quote parse_time now status expires_at ≡ true
    → (money_detected status ≡ false)
      × ((resolve_ui_state status opening false ≡ expired)
          ⊎ ((resolve_ui_state status opening false ≡ waiting_for_payment)
              ⊎ (resolve_ui_state status opening false ≡ opening_wallet)))
can_refresh_quote-UiState parse_time now status expires_at opening h =
    IsRefreshable-UiState status opening
      (can_refresh_quote-IsRefreshable parse_time now status expires_at h)

-- The statuses that are polled.
data IsPolled : Text → Type 0 where
  polled_created : IsPolled (codes "CREATED")
  polled_awaiting : IsPolled (codes "AWAITING_PAYMENT")
  polled_seen : IsPolled (codes "SEEN")
  polled_confirming : IsPolled (codes "CONFIRMING")

any-IsPolled : (s : Text) → any (text_eq s) poll_statuses ≡ true → IsPolled s
unfolding any
any-IsPolled s h = elim (Bool-cases (text_eq s (codes "CREATED"))) [
  | inl e ↦ rw ((text_eq_iff s (codes "CREATED")).0 e) polled_created
  | inr not_created ↦ elim (Bool-cases (text_eq s (codes "AWAITING_PAYMENT"))) [
    | inl e ↦ rw ((text_eq_iff s (codes "AWAITING_PAYMENT")).0 e) polled_awaiting
    | inr not_awaiting ↦ elim (Bool-cases (text_eq s (codes "SEEN"))) [
      | inl e ↦ rw ((text_eq_iff s (codes "SEEN")).0 e) polled_seen
      | inr not_seen ↦ elim (Bool-cases (text_eq s (codes "CONFIRMING"))) [
        | inl e ↦ rw ((text_eq_iff s (codes "CONFIRMING")).0 e) polled_confirming
        | inr not_confirming ↦ absurd (ground arith)
      ]
    ]
  ]
]

should_poll-IsPolled : (s : Text) → should_poll (some s) ≡ true → IsPolled s
unfolding should_poll has
should_poll-IsPolled s h = any-IsPolled s (ground arith)

IsPolled-UiState :
    (s : Text) (opening : Bool)
    → IsPolled s
    → (exception_kind (some s) ≡ none)
      × (resolve_ui_state (some s) opening false ≢ paid)
      × ((money_detected (some s) ≡ true) ⊎ (is_awaiting_payment (some s) ≡ true))
unfolding has any exception_kind resolve_ui_state money_detected is_awaiting_payment text_eq
IsPolled-UiState _ true polled_created = (refl, λ e. cc, inr refl)
IsPolled-UiState _ false polled_created = (refl, λ e. cc, inr refl)
IsPolled-UiState _ true polled_awaiting = (refl, λ e. cc, inr refl)
IsPolled-UiState _ false polled_awaiting = (refl, λ e. cc, inr refl)
IsPolled-UiState _ opening polled_seen = (refl, λ e. cc, inl refl)
IsPolled-UiState _ opening polled_confirming = (refl, λ e. cc, inl refl)

-- The statuses of a payment that money was detected for or that awaits it.
abbrev live_statuses : List Text
live_statuses =
    codes "CREATED"
    ∷ codes "AWAITING_PAYMENT"
    ∷ codes "SEEN"
    ∷ codes "CONFIRMING"
    ∷ codes "PAID"
    ∷ codes "UNDERPAID"
    ∷ codes "OVERPAID"
    ∷ codes "LATE_PAYMENT"
    ∷ codes "NEEDS_REVIEW"
    ∷ codes "DUPLICATE_PAYMENT"
    ∷ []

live-any :
    (s : Text)
    → (money_detected (some s) ≡ true) ⊎ (is_awaiting_payment (some s) ≡ true)
    → any (text_eq s) live_statuses ≡ true
unfolding money_detected is_awaiting_payment any
live-any s (inl h) = ground arith
live-any s (inr h) = ground arith

-- What makes a live status one that is polled.
PolledIfOpen : Bool → Text → Type 0
PolledIfOpen opening s =
    exception_kind (some s) ≡ none
    → resolve_ui_state (some s) opening false ≢ paid
    → should_poll (some s) ≡ true

live-PolledIfOpen : (opening : Bool) → All (PolledIfOpen opening) live_statuses
unfolding PolledIfOpen has any exception_kind resolve_ui_state should_poll text_eq
live-PolledIfOpen opening = (
  λ e n. refl,
  (
    λ e n. refl,
    (
      λ e n. refl,
      (
        λ e n. refl,
        (
          λ e n. absurd (n refl),
          (
            λ e n. absurd (cc e),
            (
              λ e n. absurd (cc e),
              (λ e n. absurd (cc e), (λ e n. absurd (cc e), (λ e n. absurd (cc e), tt))),
            ),
          ),
        ),
      ),
    ),
  ),
)

-- A status that is not undefined is polled exactly if it is no exception, is not shown as paid
-- where the browser is online, whether or not a wallet is being opened, and is one where money was
-- detected or is awaited.
pub should_poll-UiState_iff :
    (s : Text) (opening : Bool)
    → (should_poll (some s) ≡ true) ↔ (
        (exception_kind (some s) ≡ none)
        × (resolve_ui_state (some s) opening false ≢ paid)
        × ((money_detected (some s) ≡ true) ⊎ (is_awaiting_payment (some s) ≡ true)))
unfolding PolledIfOpen
should_poll-UiState_iff s opening = (
  λ h. IsPolled-UiState s opening (should_poll-IsPolled s h),
  λ (e, n, live).
      any-elim (text_eq s) (PolledIfOpen opening) (should_poll (some s) ≡ true) live_statuses
        (live-any s live) (live-PolledIfOpen opening)
        (λ t same fits.
          let is_t : s ≡ t = (text_eq_iff s t).0 same in
          rw is_t (fits (rw is_t at e) (rw is_t at n))),
)
