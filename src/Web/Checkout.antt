-- ===== src/Web/Checkout.antt =====
-- apps/web/src/components/checkout/CheckoutClient.tsx: the steps of the buyer's checkout and the option
-- that is paid. The handlers are functions of the state and of the answers of the commerce API; a
-- handler starts with the state that was last rendered. Rendering, events of the server and analytics
-- are left out.
pub mod Steps
use pooli.Base.{
  ℕ, Bool, true, false, not, ◌&&◌, ◌||◌, List, [], ◌∷◌, find, keep, any, Option, none, some, Text,
  codes, text_eq, is_empty, if◌then◌else◌,
}
use pooli.Base.Options.{or_empty, is_text}
use pooli.Web.Handoff.{PaymentOption}
use pooli.Web.Status.{money_detected}

pub record PaymentIntent : Type 0 where
  pub status : Text
  pub options : List PaymentOption

-- The fields of `Pay` that the steps depend on
pub record Pay : Type 0 where
  pub has_fields : Bool
  pub customer_submitted : Bool
  pub payment_intent : Option PaymentIntent
  pub enabled_networks : Option (List Text)

pub data Step : Type 0 where
  details network pay : Step

abbrev pub options_of : Option PaymentIntent → List PaymentOption
options_of none = []
options_of (some intent) = intent.options

-- `!o.status || o.status === "ACTIVE"`
abbrev pub is_active : PaymentOption → Bool
is_active o = is_empty (or_empty o.status) || is_text o.status (codes "ACTIVE")

-- `xs.length ? xs : ys`
abbrev pub or_all {ℓ} : {A : Type ℓ} → List A → List A → List A
or_all [] ys = ys
or_all (x ∷ xs) ys = x ∷ xs

unfoldable pub active_options : Option PaymentIntent → List PaymentOption
active_options intent = or_all (keep is_active (options_of intent)) (options_of intent)

-- `x || y`
abbrev pub first_option {ℓ} : {A : Type ℓ} → Option A → Option A → Option A
first_option none y = y
first_option (some x) y = some x

abbrev pub head {ℓ} : {A : Type ℓ} → List A → Option A
head [] = none
head (x ∷ xs) = some x

abbrev pub on_network : Text → PaymentOption → Bool
on_network n o = text_eq o.network n

abbrev pub is_payable : PaymentOption → Bool
is_payable o = is_text o.status (codes "SETTLED") || is_active o

abbrev pub preferred_option : Option Text → List PaymentOption → Option PaymentOption
preferred_option none pool = none
preferred_option (some n) pool =
    first_option (find (λ o. on_network n o && is_payable o) pool) (find (on_network n) pool)

abbrev pub pool_of : List PaymentOption → List PaymentOption
pool_of opts = or_all (keep (λ o. not (is_text o.status (codes "SUPERSEDED"))) opts) opts

-- `hydrateOption`; `preferred` is what `getPreferredNetwork` gives.
unfoldable pub hydrate_option :
    (preferred : Option Text) → Option PaymentIntent → Option PaymentOption
hydrate_option preferred intent =
    let pool = pool_of (options_of intent) in
    first_option (preferred_option preferred pool) (
      first_option (find (λ o. is_text o.status (codes "SETTLED")) pool)
        (first_option (find is_active pool) (head pool)))

-- The state of the component, less what only rendering reads
pub record Checkout : Type 0 where
  -- `pay`
  pub loaded : Option Pay
  pub step : Step
  pub selected : Option PaymentOption
  pub auto_selected : Bool

abbrev pub status_of : Pay → Option Text
status_of d = intent_status d.payment_intent
  where
    intent_status : Option PaymentIntent → Option Text
    intent_status none = none
    intent_status (some intent) = some intent.status

-- `st === "PAID" || moneyDetected(st)`
abbrev pub is_paid_or_seen : Pay → Bool
is_paid_or_seen d = is_text (status_of d) (codes "PAID") || money_detected (status_of d)

abbrev pub is_some {ℓ} : {A : Type ℓ} → Option A → Bool
is_some none = false
is_some (some x) = true

-- `resolveStep`
unfoldable pub resolve_step : Option PaymentOption → Pay → Step
resolve_step selected d =
    if d.has_fields && not d.customer_submitted
    then details
    else if is_paid_or_seen d
    then pay
    else if is_some selected
    then pay
    else network

-- The option that `load` selects
unfoldable pub reselect :
    (preferred : Option Text) → Pay → Option PaymentOption → Option PaymentOption
reselect preferred d (some old) =
    let opts = options_of d.payment_intent in
    first_option (find (λ o. text_eq o.id old.id) opts) (
      first_option
        (find (λ o. on_network old.network o && not (is_text o.status (codes "SUPERSEDED"))) opts)
        (first_option (find (on_network old.network) opts) (some old)))
reselect preferred d none =
    if is_paid_or_seen d then hydrate_option preferred d.payment_intent else none

abbrev pub is_pay : Step → Bool
is_pay pay = true
is_pay step = false

-- `load`, where the API answers
unfoldable pub load : (preferred : Option Text) → Pay → Checkout → Checkout
load preferred d c =
    let selected = reselect preferred d c.selected in
    record c {
      loaded = some d;
      selected = selected;
      step =
          if is_paid_or_seen d
          then pay
          else if is_pay c.step && is_some selected
          then pay
          else resolve_step selected d;
    }

-- A call of `load` whose errors are caught: `none` if the API fails
abbrev pub try_load : (preferred : Option Text) → Option Pay → Checkout → Checkout
try_load preferred none c = c
try_load preferred (some d) c = load preferred d c

-- `submitDetails`, if the details are accepted, with the answer of `load`
unfoldable pub submit_details : (preferred : Option Text) → Option Pay → Checkout → Checkout
submit_details preferred none c = c
submit_details preferred (some d) c = record (load preferred d c) { step = network }

-- `chooseNetwork`, if the API selects an option, with the answer of `load`; the network is then the
-- preferred one.
unfoldable pub choose_network : (chosen : Text) → PaymentOption → Option Pay → Checkout → Checkout
choose_network chosen option answer c =
    try_load (some chosen) answer (record c { selected = some option; step = pay })

abbrev pub or_network : Option Text → Option Text → Option Text
or_network none y = y
or_network (some x) y = if is_empty x then y else some x

abbrev pub network_of : Option PaymentOption → Option Text
network_of none = none
network_of (some o) = some o.network

abbrev pub find_network : Option Text → List PaymentOption → Option PaymentOption
find_network none opts = none
find_network (some n) opts = find (on_network n) opts

-- `refreshQuote`, if the API answers
unfoldable pub refresh_quote : (preferred : Option Text) → Pay → Checkout → Checkout
refresh_quote preferred d c =
    let opts = active_options d.payment_intent in
    let net = or_network (network_of c.selected) (or_network preferred (network_of (head opts))) in
    let next = first_option (find_network net opts) (head opts) in
    record c { loaded = some d; selected = next; step = if is_some next then pay else c.step }

-- `(pay.enabled_networks || ["tron"]).filter(n => n === "tron" || n === "bsc")`
unfoldable pub networks_of : Pay → List Text
networks_of d =
    keep (λ n. text_eq n (codes "tron") || text_eq n (codes "bsc")) (enabled d.enabled_networks)
  where
    enabled : Option (List Text) → List Text
    enabled none = codes "tron" ∷ []
    enabled (some ns) = ns

abbrev pub pick : (preferred : Option Text) → List Text → Option Text
pick preferred (n ∷ []) = some n
pick none ns = none
pick (some p) ns = if any (text_eq p) ns then some p else none

abbrev pub is_network : Step → Bool
is_network network = true
is_network step = false

-- The effect that selects a network by itself: the network that it calls `chooseNetwork` with
abbrev pub auto_pick : (preferred : Option Text) → Checkout → Option Pay → Option Text
auto_pick preferred c none = none
auto_pick preferred c (some d) =
    if c.auto_selected || not (is_network c.step) || is_paid_or_seen d
    then none
    else pick preferred (networks_of d)

unfoldable pub auto_select : (preferred : Option Text) → Checkout → Checkout × Option Text
auto_select preferred c =
    let chosen = auto_pick preferred c c.loaded in
    (record c { auto_selected = c.auto_selected || is_some chosen }, chosen)
