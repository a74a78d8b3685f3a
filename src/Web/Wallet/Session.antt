-- ===== src/Web/Wallet/Session.antt =====
-- apps/web/src/lib/payment-handoff/evm.ts: the WalletConnect session of the module, cut at the `await`
-- of its initialisation. A provider stands as the project and the chain that it was made for.
pub mod Sequential
use pooli.Base.{ℕ, Bool, ◌&&◌, Option, none, some, Text, text_eq, is_empty, ◌==◌, if◌then◌else◌}

pub record Key : Type 0 where
  pub project_id : Text
  pub chain_id : ℕ

abbrev pub key_eq : Key → Key → Bool
key_eq a b = text_eq a.project_id b.project_id && a.chain_id == b.chain_id

-- `cachedWC`, and what `providerInit` was started for
pub record Session : Type 0 where
  pub cached : Option Key
  pub provider_init : Option Key

abbrev pub no_session : Session
no_session = record { cached = none; provider_init = none }

-- `dropWalletConnectProvider`; its calls of the provider are left out.
unfoldable pub drop_wallet_connect_provider : Session → Session
drop_wallet_connect_provider s = no_session

-- What a call of `getWalletConnectProvider` comes to before it waits.
pub data Waiting : Type 0 where
  no_provider : Waiting
  ready : Key → Waiting
  -- It waits for an initialisation that it or an earlier call has started.
  awaits : Key → Waiting

-- `if (!providerInit) { providerInit = (async () => …)(); } return providerInit;`
abbrev pub await_init : Key → Session → Option Key → Session × Waiting
await_init key s (some started) = (s, awaits started)
await_init key s none = (record s { provider_init = some key }, awaits key)

abbrev pub begin_with : Key → Session → Option Key → Session × Waiting
begin_with key s (some cached) =
    if key_eq cached key
    then (s, ready cached)
    else await_init key (drop_wallet_connect_provider s) none
begin_with key s none = await_init key s s.provider_init

-- `getWalletConnectProvider` up to its `await`
unfoldable pub begin : Key → Session → Session × Waiting
begin key s = if is_empty key.project_id then (s, no_provider) else begin_with key s s.cached

-- The end of the initialisation for a key
unfoldable pub settle : Key → (works : Bool) → Session → Session
settle key works s = if works then record s { cached = some key } else no_session

-- A call that nothing overlaps: `works` tells which initialisations succeed.
abbrev pub finish : (works : Key → Bool) → Session × Waiting → Session × Option Key
finish works (s, no_provider) = (s, none)
finish works (s, ready key) = (s, some key)
finish works (s, awaits key) = (settle key (works key) s, if works key then some key else none)

unfoldable pub get_wallet_connect_provider :
    (works : Key → Bool) → Key → Session → Session × Option Key
get_wallet_connect_provider works key s = finish works (begin key s)
