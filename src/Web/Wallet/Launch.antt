-- ===== src/Web/Wallet/Launch.antt =====
-- apps/web/src/lib/payment-handoff/launch.ts and tron.ts: which mechanism a choice of a wallet reaches.
pub mod Payment
pub mod Payments
pub mod Safety
use pooli.Base.{
  ℕ, Bool, true, false, not, ◌&&◌, ◌||◌, List, [], ◌∷◌, ◌++◌, Option, none, some, Text, codes,
  text_eq, is_empty, if◌then◌else◌,
}
use pooli.Base.Options.{or_empty}
use pooli.Domain.Platform.{Platform}
use pooli.Web.Handoff.{
  WalletId, tronlink, walletconnect, trust, other, qr, wallet_eq, HandoffInput, build_handoff_plan,
}
use pooli.Web.Wallet.Session.{Session}
use pooli.Web.Wallet.Evm.{
  LaunchReason, unsupported, missing_project_id, user_rejected, failed, iab_blocked, LaunchResult,
  launched, not_launched, Wallet, Launch, only, open_uri, pay_with_wallet_connect, launch_eip681,
}

abbrev pub is_launched : LaunchResult → Bool
is_launched (launched method) = true
is_launched (not_launched reason message) = false

-- `launchTronHandoff(input, "uri")`
unfoldable pub launch_tron_uri : (window : Option (Text → Bool)) → HandoffInput → Session → Launch
launch_tron_uri none input s = only s (not_launched unsupported none)
launch_tron_uri (some opens) input s =
    let uri = or_empty input.option.payment_uri in
    if is_empty uri
    then only s (not_launched unsupported (some (codes "No TRON payment URI available")))
    else open_uri (some opens) uri (codes "tron_uri")
        (not_launched failed (some (codes "Could not open payment URI"))) s

-- The address that asks TronLink to open, with its parameter as `encodeURIComponent` writes it
abbrev pub tronlink_address : Text
tronlink_address =
    codes
      "tronlinkoutside://pull.activity?param=%7B%22action%22%3A%22open%22%2C%22protocol%22%3A%22TronLink%22%2C%22version%22%3A%221.0%22%7D"

-- `launchTronHandoff(input, "tronlink_open")`
unfoldable pub launch_tronlink : (window : Option (Text → Bool)) → Session → Launch
launch_tronlink window s =
    open_uri window tronlink_address (codes "tronlink_open") (not_launched failed none) s

-- `payWithTronWallet`
unfoldable pub pay_with_tron_wallet :
    (window : Option (Text → Bool)) → HandoffInput → Session → Launch
pay_with_tron_wallet window input s =
    let first = launch_tron_uri window input s in
    if is_launched first.result
    then first
    else if input.env.is_mobile
    then launch_tronlink window s
    else first

-- A failure behind which the payment URI is not tried
abbrev pub is_final : LaunchResult → Bool
is_final (launched method) = true
is_final (not_launched user_rejected message) = true
is_final (not_launched missing_project_id message) = true
is_final (not_launched unsupported message) = false
is_final (not_launched failed message) = false
is_final (not_launched iab_blocked message) = false

-- WalletConnect, and the payment URI where it fails for another reason
unfoldable pub degrade : (window : Option (Text → Bool)) → HandoffInput → Launch → Launch
degrade window input wc =
    let eip = launch_eip681 window input wc.session in
    if is_final wc.result
    then wc
    else if is_launched eip.result
    then record eip { calls = wc.calls }
    else wc

abbrev pub or_id : Option WalletId → WalletId → WalletId
or_id none d = d
or_id (some id) d = id

-- The part of `launchWalletHandoff` off TRON
unfoldable pub launch_evm :
    Platform
    → (window : Option (Text → Bool)) → (configured : Option Text) → Wallet
    → HandoffInput
    → WalletId
    → Session
    → Launch
launch_evm env window configured w input walletconnect s =
    degrade window input (pay_with_wallet_connect env configured w input s)
launch_evm env window configured w input trust s =
    degrade window input (pay_with_wallet_connect env configured w input s)
launch_evm env window configured w input other s = launch_eip681 window input s
launch_evm env window configured w input id s =
    if is_empty (or_empty input.wallet_connect_project_id)
    then launch_eip681 window input s
    else pay_with_wallet_connect env configured w input s

-- `launchWalletHandoff`
unfoldable pub launch_wallet_handoff :
    Platform
    → (window : Option (Text → Bool)) → (configured : Option Text) → Wallet
    → HandoffInput
    → (wallet_id : Option WalletId) → Session
    → Launch
launch_wallet_handoff env window configured w input wallet_id s =
    let plan = build_handoff_plan input in
    let id = or_id wallet_id plan.primary.id in
    if wallet_eq id qr
    then only s (not_launched unsupported (some (codes "Use QR surface")))
    else if text_eq plan.network (codes "tron")
    then pay_with_tron_wallet window input s
    else launch_evm env window configured w input id s
