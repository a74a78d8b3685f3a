-- ===== src/Web/Prefs.antt =====
-- apps/web/src/lib/payment-handoff: prefs.ts, env.ts and copy.ts. The local storage is a dictionary,
-- `none` where there is none.
pub mod Stored
use pooli.Base.{
  ℕ, Bool, true, false, not, ◌&&◌, ◌||◌, List, [], ◌∷◌, ◌++◌, keep, map, join, Option, none, some,
  Text, codes, text_eq, trim, includes, is_empty, if◌then◌else◌,
}
use pooli.Base.Options.{or_empty, text_or}
use pooli.Base.Dict
use pooli.Base.Dict.{Dict, lookup}
use pooli.Domain.Platform.{Platform}
use pooli.Agent.Redact.{fold_case}
use pooli.Web.Handoff.{
  WalletId, tronlink, walletconnect, trust, other, qr, PaymentOption, BrowserEnv, InAppKind,
  telegram, instagram, other_app,
}

abbrev pub Storage : Type 0
Storage = Option (Dict Text)

abbrev pub network_key : Text
network_key = codes "pooli.checkout.network"

abbrev pub wallet_key : Text → Text
wallet_key network = codes "pooli.checkout.wallet" ++ codes "." ++ network

-- `s?.getItem(k)`
abbrev pub get_item : Text → Storage → Option Text
get_item k none = none
get_item k (some m) = lookup k m

-- `s.setItem(k, v)`
abbrev pub set_item : Text → Text → Storage → Storage
set_item k v none = none
set_item k v (some m) = some (Dict.insert k v m)

abbrev pub is_known_network : Text → Bool
is_known_network n = text_eq n (codes "tron") || text_eq n (codes "bsc")

abbrev pub known_network : Option Text → Option Text
known_network none = none
known_network (some n) = if is_known_network n then some n else none

unfoldable pub get_preferred_network : Storage → Option Text
get_preferred_network s = known_network (get_item network_key s)

unfoldable pub set_preferred_network : Text → Storage → Storage
set_preferred_network network s =
    if is_known_network network then set_item network_key network s else s

-- A wallet's identifier as a text
abbrev pub wallet_text : WalletId → Text
wallet_text tronlink = codes "tronlink"
wallet_text walletconnect = codes "walletconnect"
wallet_text trust = codes "trust"
wallet_text other = codes "other"
wallet_text qr = codes "qr"

abbrev pub known_wallet : Option Text → Option WalletId
known_wallet none = none
known_wallet (some raw) =
    if text_eq raw (codes "tronlink")
    then some tronlink
    else if text_eq raw (codes "walletconnect")
    then some walletconnect
    else if text_eq raw (codes "trust")
    then some trust
    else if text_eq raw (codes "other")
    then some other
    else if text_eq raw (codes "qr")
    then some qr
    else none

unfoldable pub get_preferred_wallet : (network : Text) → Storage → Option WalletId
get_preferred_wallet network s = known_wallet (get_item (wallet_key network) s)

unfoldable pub set_preferred_wallet : (network : Text) → WalletId → Storage → Storage
set_preferred_wallet network wallet s = set_item (wallet_key network) (wallet_text wallet) s

-- `detectBrowserEnv`
unfoldable pub detect_browser_env : Platform → (ua : Text) → BrowserEnv
detect_browser_env env ua =
    let lower = env.to_lower ua in
    let folded = map fold_case ua in
    let is_ios =
      includes lower (codes "iphone")
      || includes lower (codes "ipad")
      || includes lower (codes "ipod") in
    let is_android = includes lower (codes "android") in
    let is_mobile = is_ios || is_android || includes lower (codes "mobile") in
    let is_telegram = includes folded (codes "telegram") in
    let is_instagram = includes folded (codes "instagram") in
    let is_fb =
      includes folded (codes "fbav")
      || includes folded (codes "fban")
      || includes folded (codes "fb_iab") in
    record {
      is_mobile = is_mobile;
      is_desktop = not is_mobile;
      is_in_app_browser = is_telegram || is_instagram || is_fb;
      in_app_kind =
          if is_telegram
          then some telegram
          else if is_instagram
          then some instagram
          else if is_fb
          then some other_app
          else none;
      is_ios = is_ios;
      is_android = is_android;
    }

unfoldable pub exact_payable_amount : PaymentOption → Text
exact_payable_amount option = trim option.pay_usdt_amount

unfoldable pub full_destination_address : PaymentOption → Text
full_destination_address option = trim option.destination_address

unfoldable pub asset_symbol : PaymentOption → Text
asset_symbol option = text_or (trim (text_or (or_empty option.asset) (codes "USDT"))) (codes "USDT")

unfoldable pub network_label : Platform → Text → Text
network_label env network =
    if text_eq network (codes "tron")
    then codes "TRON"
    else if text_eq network (codes "bsc")
    then codes "BNB Chain"
    else env.to_upper network

pub record Labels : Type 0 where
  pub heading : Option Text
  pub merchant : Option Text
  pub amount : Option Text
  pub network : Option Text
  pub address : Option Text

abbrev pub labelled : Option Text → Text → Text → Text
labelled label default_label s = text_or (or_empty label) default_label ++ codes ": " ++ s

unfoldable pub build_payment_details_text :
    Platform → (store_name : Option Text) → PaymentOption → Labels → Text
build_payment_details_text env store_name option labels =
    let store = or_empty store_name in
    join (10 ∷ []) (
      keep (λ line. not (is_empty line))
        (text_or (or_empty labels.heading) (codes "Pooli Payment")
          ∷ (if is_empty store then [] else labelled labels.merchant (codes "Merchant") store)
          ∷ labelled labels.amount (codes "Amount")
              (exact_payable_amount option ++ codes " " ++ asset_symbol option)
          ∷ labelled labels.network (codes "Network") (network_label env option.network)
          ∷ labelled labels.address (codes "Address") (full_destination_address option)
          ∷ []))
