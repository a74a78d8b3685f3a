-- ===== src/Web/Checkout/Steps.antt =====
-- What holds of the steps of CheckoutClient.tsx along any sequence of its handlers.
use pooli.Base.{
  ℕ, suc, ◌≤◌, Bool, true, false, not, ◌&&◌, ◌||◌, List, [], ◌∷◌, find, keep, Option, none, some,
  Text, codes, text_eq, if◌then◌else◌, All, Bool-cases, Option-cases, inl, inr, ◌≡◌, refl, ◌∙◌,
  arith,
}
use pooli.Web.Handoff.{PaymentOption}
use pooli.Base.Options.{is_text}
use pooli.Web.Checkout.{
  on_network, Pay, details, options_of, is_active, or_all, active_options, first_option, head,
  Checkout, is_paid_or_seen, is_some, resolve_step, reselect, is_pay, load, try_load,
  submit_details, choose_network, find_network, refresh_quote, auto_pick, auto_select,
}

-- A handler that runs to its end, with the preferred network and the answers of the API
pub data Event : Type 0 where
  loads : (preferred : Option Text) (answer : Option Pay) → Event
  submits : (preferred : Option Text) (answer : Option Pay) → Event
  chooses : (chosen : Text) → PaymentOption → (answer : Option Pay) → Event
  refreshes : (preferred : Option Text) (answer : Pay) → Event
  auto_selects : (preferred : Option Text) → Event

abbrev pub start : Checkout
start = record { loaded = none; step = details; selected = none; auto_selected = false }

unfoldable pub handle : Event → Checkout → Checkout
handle (loads preferred answer) c = try_load preferred answer c
handle (submits preferred answer) c = submit_details preferred answer c
handle (chooses chosen option answer) c = choose_network chosen option answer c
handle (refreshes preferred answer) c = refresh_quote preferred answer c
handle (auto_selects preferred) c = (auto_select preferred c).0

unfoldable pub run : List Event → Checkout → Checkout
run [] c = c
run (e ∷ es) c = run es (handle e c)

abbrev picked : Event → Checkout → Option Text
picked (auto_selects preferred) c = (auto_select preferred c).1
picked e c = none

-- How often a network is chosen by itself
unfoldable pub picks : List Event → Checkout → ℕ
picks [] c = 0
picks (e ∷ es) c =
    let rest = picks es (handle e c) in if is_some (picked e c) then suc rest else rest

-- A quote is refreshed with at least one option.
abbrev pub HasOptions : Event → Type 0
HasOptions (refreshes preferred answer) = is_some (head (options_of answer.payment_intent)) ≡ true
HasOptions e = Unit

abbrev is_seen : Option Pay → Bool
is_seen none = false
is_seen (some d) = is_paid_or_seen d

-- On the step of payment there is an option to pay, or the payment was seen.
abbrev pub is_payable : Checkout → Bool
is_payable c = not (is_pay c.step) || is_some c.selected || is_seen c.loaded

first_option-some {ℓ} :
    {A : Type ℓ} (x y : Option A) → is_some y ≡ true → is_some (first_option x y) ≡ true
first_option-some none y h = h
first_option-some (some a) y h = refl

reselect-some :
    (preferred : Option Text) (d : Pay) (old : PaymentOption)
    → is_some (reselect preferred d (some old)) ≡ true
unfolding reselect
reselect-some preferred d old =
    let opts = options_of d.payment_intent in
    let third = first_option-some (find (on_network old.network) opts) (some old) refl in
    let second =
      first_option-some
        (find (λ o. on_network old.network o && not (is_text o.status (codes "SUPERSEDED"))) opts)
        (first_option (find (on_network old.network) opts) (some old)) third in
    first_option-some (find (λ o. text_eq o.id old.id) opts) _ second

load-is_payable :
    (preferred : Option Text) (d : Pay) (c : Checkout) → is_payable (load preferred d c) ≡ true
unfolding load resolve_step
load-is_payable preferred d c = ground arith

choose_network-is_payable :
    (chosen : Text) (option : PaymentOption) (answer : Option Pay) (c : Checkout)
    → is_payable (choose_network chosen option answer c) ≡ true
unfolding choose_network
choose_network-is_payable chosen option none c = refl
choose_network-is_payable chosen option (some d) c = load-is_payable (some chosen) d _

or_all-head {ℓ} :
    {A : Type ℓ} (xs ys : List A) → is_some (head ys) ≡ true → is_some (head (or_all xs ys)) ≡ true
or_all-head [] ys h = h
or_all-head (x ∷ xs) ys h = refl

refresh_quote-some :
    (preferred : Option Text) (d : Pay) (c : Checkout)
    → is_some (head (options_of d.payment_intent)) ≡ true
    → is_some (refresh_quote preferred d c).selected ≡ true
unfolding refresh_quote active_options
refresh_quote-some preferred d c h =
    first_option-some (find_network _ (active_options d.payment_intent))
      (head (active_options d.payment_intent))
      (or_all-head (keep is_active (options_of d.payment_intent)) (options_of d.payment_intent) h)

handle-is_payable :
    (e : Event) (c : Checkout) → HasOptions e → is_payable c ≡ true → is_payable (handle e c) ≡ true
unfolding handle submit_details auto_select
handle-is_payable (loads preferred none) c o h = h
handle-is_payable (loads preferred (some d)) c o h = load-is_payable preferred d c
handle-is_payable (submits preferred none) c o h = h
handle-is_payable (submits preferred (some d)) c o h = refl
handle-is_payable (chooses chosen option answer) c o h =
    choose_network-is_payable chosen option answer c
handle-is_payable (refreshes preferred d) c o h = ground (arith, refresh_quote-some preferred d c o)
handle-is_payable (auto_selects preferred) c o h = h

load-selected :
    (preferred : Option Text) (d : Pay) (c : Checkout)
    → is_some c.selected ≡ true
    → is_some (load preferred d c).selected ≡ true
unfolding load
load-selected preferred d c h = elim (Option-cases c.selected) [
  | inl nothing ↦ absurd (ground (arith, h))
  | inr (old, has) ↦ rw has (reselect-some preferred d old)
]

handle-selected :
    (e : Event) (c : Checkout)
    → HasOptions e
    → is_some c.selected ≡ true
    → is_some (handle e c).selected ≡ true
unfolding handle submit_details choose_network auto_select
handle-selected (loads preferred none) c o h = h
handle-selected (loads preferred (some d)) c o h = load-selected preferred d c h
handle-selected (submits preferred none) c o h = h
handle-selected (submits preferred (some d)) c o h = load-selected preferred d c h
handle-selected (chooses chosen option none) c o h = refl
handle-selected (chooses chosen option (some d)) c o h = load-selected (some chosen) d _ refl
handle-selected (refreshes preferred d) c o h = refresh_quote-some preferred d c o
handle-selected (auto_selects preferred) c o h = h

-- Who has chosen by itself does not do so again.
load-auto :
    (preferred : Option Text) (d : Pay) (c : Checkout)
    → (load preferred d c).auto_selected ≡ c.auto_selected
unfolding load
load-auto preferred d c = refl

handle-auto :
    (e : Event) (c : Checkout) → c.auto_selected ≡ true → (handle e c).auto_selected ≡ true
unfolding handle submit_details choose_network refresh_quote auto_select
handle-auto (loads preferred none) c h = h
handle-auto (loads preferred (some d)) c h = load-auto preferred d c ∙ h
handle-auto (submits preferred none) c h = h
handle-auto (submits preferred (some d)) c h = load-auto preferred d c ∙ h
handle-auto (chooses chosen option none) c h = h
handle-auto (chooses chosen option (some d)) c h = load-auto (some chosen) d _ ∙ h
handle-auto (refreshes preferred d) c h = h
handle-auto (auto_selects preferred) c h = ground (arith, h)

auto_pick-none :
    (preferred : Option Text) (c : Checkout) (o : Option Pay)
    → c.auto_selected ≡ true
    → auto_pick preferred c o ≡ none
auto_pick-none preferred c none h = refl
auto_pick-none preferred c (some d) h = ground (arith, h)

picked-none : (e : Event) (c : Checkout) → c.auto_selected ≡ true → picked e c ≡ none
unfolding auto_select
picked-none (auto_selects preferred) c h = auto_pick-none preferred c c.loaded h
picked-none (loads preferred answer) c h = refl
picked-none (submits preferred answer) c h = refl
picked-none (chooses chosen option answer) c h = refl
picked-none (refreshes preferred d) c h = refl

picked-auto :
    (e : Event) (c : Checkout) → is_some (picked e c) ≡ true → (handle e c).auto_selected ≡ true
unfolding handle auto_select
picked-auto (auto_selects preferred) c h = ground (arith, h)
picked-auto (loads preferred answer) c h = absurd (ground arith)
picked-auto (submits preferred answer) c h = absurd (ground arith)
picked-auto (chooses chosen option answer) c h = absurd (ground arith)
picked-auto (refreshes preferred d) c h = absurd (ground arith)

picks-none : (es : List Event) (c : Checkout) → c.auto_selected ≡ true → picks es c ≡ 0
unfolding picks
picks-none [] c h = refl
picks-none (e ∷ es) c h = rw (picked-none e c h) (picks-none es (handle e c) (handle-auto e c h))

picks-once : (es : List Event) (c : Checkout) → picks es c ≤ 1
unfolding picks
picks-once [] c = omega arith
picks-once (e ∷ es) c = elim (Bool-cases (is_some (picked e c))) [
  | inl chosen ↦ rw (chosen, picks-none es (handle e c) (picked-auto e c chosen)) (omega arith)
  | inr quiet ↦ rw quiet (picks-once es (handle e c))
]

-- An option is not lost without another in its place.
abbrev pub keeps {ℓ} : {A : Type ℓ} → Option A → Option A → Bool
keeps old new = not (is_some old) || is_some new

-- Along any sequence of the handlers of the checkout from its start, where a quote is refreshed
-- with at least one option: on the step of payment an option is selected or the payment was seen, a
-- further handler does not lose a selected option without another in its place, and the checkout
-- has chosen a network by itself at most once.
pub run-is_payable :
    (es : List Event) (e : Event)
    → All HasOptions es
    → HasOptions e
    → (is_payable (run es start) ≡ true)
      × (keeps (run es start).selected (handle e (run es start)).selected ≡ true)
      × (picks es start ≤ 1)
unfolding run
run-is_payable es e os o =
    (go es start os refl, ground (arith, handle-selected e (run es start) o), picks-once es start)
  where
    go :
        (es : List Event) (c : Checkout)
        → All HasOptions es
        → is_payable c ≡ true
        → is_payable (run es c) ≡ true
    go [] c os h = h
    go (e ∷ es) c (o, os) h = go es (handle e c) os (handle-is_payable e c o h)
