-- ===== src/Web/Handoff.antt =====
-- apps/web/src/lib/payment-handoff: types.ts and registry.ts, the wallets that the checkout offers.
-- An optional text is `none` if it is absent or null; the records have the fields that the code of
-- payment-handoff reads.
pub mod Plans
use pooli.Base.Options.{or_empty, text_or}
use pooli.Base.{
  ℕ, Bool, true, false, not, ◌&&◌, ◌||◌, List, [], ◌∷◌, ◌++◌, find, Option, none, some, Text, codes,
  text_eq, trim, is_empty, starts_with, if◌then◌else◌,
}

pub data WalletId : Type 0 where
  tronlink walletconnect trust other qr : WalletId

-- `===` on identifiers
unfoldable pub wallet_eq : WalletId → WalletId → Bool
wallet_eq tronlink tronlink = true
wallet_eq walletconnect walletconnect = true
wallet_eq trust trust = true
wallet_eq other other = true
wallet_eq qr qr = true
wallet_eq _ _ = false

pub data Kind : Type 0 where
  deeplink by_walletconnect by_qr by_copy : Kind

unfoldable pub is_qr_kind : Kind → Bool
is_qr_kind by_qr = true
is_qr_kind _ = false

pub record PaymentOption : Type 0 where
  pub id : Text
  pub network : Text
  pub chain_id : Option ℕ
  pub token_contract : Option Text
  pub destination_address : Text
  pub pay_usdt_amount : Text
  pub pay_usdt_amount_base_units : Option ℕ
  pub asset : Option Text
  pub token_decimals : Option ℕ
  pub payment_uri : Option Text
  pub status : Option Text

pub data InAppKind : Type 0 where
  telegram instagram other_app : InAppKind

pub record BrowserEnv : Type 0 where
  pub is_mobile : Bool
  pub is_desktop : Bool
  pub is_in_app_browser : Bool
  pub in_app_kind : Option InAppKind
  pub is_ios : Bool
  pub is_android : Bool

pub record HandoffInput : Type 0 where
  pub option : PaymentOption
  pub env : BrowserEnv
  pub preferred_wallet_id : Option WalletId
  pub wallet_connect_project_id : Option Text

pub record WalletCandidate : Type 0 where
  pub id : WalletId
  pub recommended : Bool
  pub can_prefill_recipient : Bool
  pub can_prefill_amount : Bool
  pub kind : Kind

pub record HandoffPlan : Type 0 where
  pub network : Text
  pub asset : Text
  pub primary : WalletCandidate
  pub wallets : List WalletCandidate
  pub qr_payload : Text
  pub payment_uri : Text
  pub qr_primary : Bool
  pub show_pay_with_wallet : Bool

unfoldable pub is_evm : Text → Bool
is_evm network =
    text_eq network (codes "bsc")
    || starts_with network (codes "eip155:")
    || (not (is_empty network) && not (text_eq network (codes "tron")))

unfoldable pub is_tron : Text → Bool
is_tron network = text_eq network (codes "tron")

abbrev pub candidate : WalletId → Kind → Bool → Bool → Bool → WalletCandidate
candidate id kind recipient amount recommended = record {
  id = id;
  recommended = recommended;
  can_prefill_recipient = recipient;
  can_prefill_amount = amount;
  kind = kind;
}

abbrev pub qr_candidate : Bool → WalletCandidate
qr_candidate has_uri = candidate qr by_qr true has_uri false

abbrev pub tron_wallets : Bool → List WalletCandidate
tron_wallets has_uri =
    candidate tronlink deeplink true true true
    ∷ candidate other deeplink has_uri has_uri false
    ∷ qr_candidate has_uri
    ∷ []

abbrev pub evm_wallets : (has_wc has_uri : Bool) → List WalletCandidate
evm_wallets has_wc has_uri =
    (if has_wc
      then candidate walletconnect by_walletconnect true true true
        ∷ candidate trust by_walletconnect true true false
        ∷ []
      else [])
    ++ candidate other deeplink has_uri false false ∷ qr_candidate has_uri ∷ []

unfoldable pub wallets_for : Text → (has_wc has_uri : Bool) → List WalletCandidate
wallets_for network has_wc has_uri =
    if is_tron network
    then tron_wallets has_uri
    else if is_evm network
    then evm_wallets has_wc has_uri
    else qr_candidate has_uri ∷ []

-- `w.id === preferredWalletId && w.id !== "qr"`
abbrev pub is_preferred : Option WalletId → WalletCandidate → Bool
is_preferred none w = false
is_preferred (some id) w = wallet_eq w.id id && not (wallet_eq w.id qr)

-- `a || b`
abbrev pub or_wallet : Option WalletCandidate → WalletCandidate → WalletCandidate
or_wallet none w = w
or_wallet (some v) w = v

-- `wallets[0]`; the list is never empty.
abbrev pub first_wallet : List WalletCandidate → WalletCandidate
first_wallet [] = qr_candidate false
first_wallet (w ∷ ws) = w

unfoldable pub primary_of : Option WalletId → List WalletCandidate → WalletCandidate
primary_of preferred wallets = or_wallet (find (is_preferred preferred) wallets) (
    or_wallet (find (λ w. w.recommended) wallets)
      (or_wallet (find (λ w. not (wallet_eq w.id qr)) wallets) (first_wallet wallets)))

unfoldable pub build_handoff_plan : HandoffInput → HandoffPlan
build_handoff_plan input =
    let network = text_or input.option.network (codes "tron") in
    let payment_uri = or_empty input.option.payment_uri in
    let has_wc = not (is_empty (or_empty input.wallet_connect_project_id)) in
    let wallets = wallets_for network has_wc (not (is_empty payment_uri)) in
    let primary = primary_of input.preferred_wallet_id wallets in
    record {
      network = network;
      asset = text_or (trim (text_or (or_empty input.option.asset) (codes "USDT"))) (codes "USDT");
      primary = primary;
      wallets = wallets;
      qr_payload = text_or payment_uri input.option.destination_address;
      payment_uri = payment_uri;
      qr_primary = input.env.is_desktop;
      show_pay_with_wallet = input.env.is_mobile && not (is_qr_kind primary.kind);
    }
