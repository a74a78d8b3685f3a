-- ===== src/Web/Handoff/Plans.antt =====
-- The plans of apps/web/src/lib/payment-handoff/registry.ts.
use pooli.Base.Options.{or_empty, text_or}
use pooli.Base.{
  Bool, true, false, not, ◌&&◌, ◌||◌, List, every, find, Option, some, Text, codes, text_eq,
  is_empty, ◌≡◌, inl, inr, arith, Bool-cases,
}
use pooli.Web.Handoff.{
  WalletId, tronlink, walletconnect, trust, other, qr, wallet_eq, HandoffInput, WalletCandidate,
  is_evm, is_tron, wallets_for, evm_wallets, tron_wallets, primary_of, build_handoff_plan,
  is_qr_kind,
}

abbrev implies : Bool → Bool → Bool
implies a b = not a || b

-- What a wallet on a network's list may be and may promise: TronLink is for TRON alone, WalletConnect
-- and Trust for the other networks with a project; the amount is promised by these or where there
-- is a payment URI, and off TRON never by an other wallet.
unfoldable pub is_honest : (tron has_wc has_uri : Bool) → WalletCandidate → Bool
is_honest tron has_wc has_uri w =
    let native = wallet_eq w.id tronlink in
    let connected = wallet_eq w.id walletconnect || wallet_eq w.id trust in
    implies native tron
    && implies connected (not tron && has_wc)
    && implies w.can_prefill_amount (native || connected || has_uri)
    && implies (not tron && wallet_eq w.id other) (not w.can_prefill_amount)

pub record IsPlanned (tron has_wc has_uri : Bool) (wallets : List WalletCandidate)
    (primary : WalletCandidate) : Type 0 where
  pub honest : every (is_honest tron has_wc has_uri) wallets ≡ true
  pub not_qr : wallet_eq primary.id qr ≡ false
  pub not_qr_kind : is_qr_kind primary.kind ≡ false
  pub listed : find (λ w. wallet_eq w.id primary.id) wallets ≡ some primary

tron-IsPlanned :
    (preferred : Option WalletId) (has_wc has_uri : Bool)
    → IsPlanned true has_wc has_uri
        (tron_wallets has_uri)
        (primary_of preferred (tron_wallets has_uri))
unfolding primary_of find every wallet_eq is_qr_kind is_honest
tron-IsPlanned preferred has_wc has_uri = record {
  honest = ground arith;
  not_qr = ground arith;
  not_qr_kind = ground arith;
  listed = ground arith;
}

evm-IsPlanned :
    (preferred : Option WalletId) (has_wc has_uri : Bool)
    → IsPlanned false has_wc has_uri
        (evm_wallets has_wc has_uri)
        (primary_of preferred (evm_wallets has_wc has_uri))
unfolding primary_of find every wallet_eq is_qr_kind is_honest
evm-IsPlanned preferred has_wc has_uri = record {
  honest = ground arith;
  not_qr = ground arith;
  not_qr_kind = ground arith;
  listed = ground arith;
}

-- The network of a plan is not empty, so one of the first two branches applies.
is_evm-text_or :
    (network : Text)
    → is_tron (text_or network (codes "tron")) ≡ false
    → is_evm (text_or network (codes "tron")) ≡ true
unfolding is_evm is_tron text_eq
is_evm-text_or network h = ground arith

wallets_for-IsPlanned :
    (preferred : Option WalletId) (network : Text) (has_wc has_uri : Bool)
    → (is_tron network ≡ false → is_evm network ≡ true)
    → IsPlanned
        (is_tron network)
        has_wc
        has_uri
        (wallets_for network has_wc has_uri)
        (primary_of preferred (wallets_for network has_wc has_uri))
unfolding wallets_for
wallets_for-IsPlanned preferred network has_wc has_uri e = elim (Bool-cases (is_tron network)) [
  | inl tron ↦ rw tron (tron-IsPlanned preferred has_wc has_uri)
  | inr evm ↦ rw (evm, e evm) (evm-IsPlanned preferred has_wc has_uri)
]

-- In every plan TronLink is listed for TRON alone, WalletConnect and Trust only off TRON and with a
-- project id; a wallet that is none of these promises the amount only with a payment URI, and an
-- other wallet never off TRON; the first choice is on the list and is no QR code, so the button to
-- pay by wallet is shown exactly on a phone.
pub build_handoff_plan-IsPlanned :
    (input : HandoffInput)
    → let plan = build_handoff_plan input in
      IsPlanned
        (is_tron plan.network)
        (not (is_empty (or_empty input.wallet_connect_project_id)))
        (not (is_empty plan.payment_uri))
        plan.wallets
        plan.primary
      × (plan.show_pay_with_wallet ≡ input.env.is_mobile)
unfolding build_handoff_plan
build_handoff_plan-IsPlanned input =
    let planned =
      wallets_for-IsPlanned input.preferred_wallet_id (text_or input.option.network (codes "tron"))
        (not (is_empty (or_empty input.wallet_connect_project_id)))
        (not (is_empty (or_empty input.option.payment_uri)))
        (is_evm-text_or input.option.network) in
    (planned, rw planned.not_qr_kind (ground arith))
