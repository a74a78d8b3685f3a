-- ===== src/Web/Wallet/Launch/Safety.antt =====
-- What the launch of a wallet may do, whatever the wallet answers, in apps/web/src/lib/payment-handoff.
use pooli.Base.{
  ◌≤◌, Bool, true, false, List, [], ◌∷◌, Option, none, some, Text, codes, text_eq, text_eq_refl,
  is_empty, if◌then◌else◌, All, Bool-cases, Option-cases, inl, inr, ◌⊎◌, ◌≡◌, refl, arith,
}
use pooli.Base.Options.{or_empty}
use pooli.Domain.Platform.{Platform}
use pooli.Web.Handoff.{
  HandoffInput, WalletId, tronlink, walletconnect, trust, other, qr, wallet_eq, build_handoff_plan,
}
use pooli.Web.Wallet.Session.{Key, Session}
use pooli.Web.Wallet.Evm.{
  LaunchReason, unsupported, missing_project_id, user_rejected, failed, LaunchResult, launched,
  not_launched, Call, Wallet, Ended, sent, no_account, threw, EvmPayment, evm_payment, pay_calls,
  Launch, only, after_pay, pay_through, wc_project_id, pay_with_wallet_connect, open_uri,
  launch_eip681,
}
use pooli.Web.Wallet.Launch.{
  is_launched, launch_tron_uri, tronlink_address, launch_tronlink, pay_with_tron_wallet, is_final,
  degrade, or_id, launch_evm, launch_wallet_handoff,
}
use pooli.Web.Wallet.Launch.Payments.{Pays, sends, IsRun, pay_calls-IsRun}

-- An address that a launch may open
abbrev pub Address : HandoffInput → Text → Type 0
Address input u = (u ≡ or_empty input.option.payment_uri) ⊎ (u ≡ tronlink_address)

-- Every transaction that is sent pays the option, there is at most one, and every address that is opened
-- is the payment URI or the one that opens TronLink. If the answer is that WalletConnect has paid, one
-- transaction was sent and no address was opened; if it is that the user has refused, none was opened.
pub record IsSafe (env : Platform) (input : HandoffInput) (out : Launch) : Type 0 where
  pub payments : All (Pays env input.option) out.calls
  pub once : sends out.calls ≤ 1
  pub addresses : All (Address input) out.opened
  pub paid :
      out.result ≡ launched (codes "walletconnect") → (sends out.calls ≡ 1) × (out.opened ≡ [])
  pub refused : (m : Option Text) → out.result ≡ not_launched user_rejected m → out.opened ≡ []

module _ (env : Platform) (input : HandoffInput) where
  -- A launch without calls of the wallet
  quiet-IsSafe :
      (opened : List Text) (s : Session) (r : LaunchResult)
      → All (Address input) opened
      → (r ≡ launched (codes "walletconnect") → ⊥)
      → ((m : Option Text) → r ≡ not_launched user_rejected m → ⊥)
      → IsSafe env input (record { calls = []; opened = opened; session = s; result = r })
  quiet-IsSafe opened s r a n m = record {
    payments = tt;
    once = omega arith;
    addresses = a;
    paid = λ h. absurd (n h);
    refused = λ e h. absurd (m e h);
  }

  only-IsSafe :
      (s : Session) (reason : LaunchReason) (message : Option Text)
      → IsSafe env input (only s (not_launched reason message))
  only-IsSafe s reason message = record {
    payments = tt;
    once = omega arith;
    addresses = tt;
    paid = λ h. absurd (ground arith);
    refused = λ e h. refl;
  }

  open_uri-IsSafe :
      (window : Option (Text → Bool)) (uri method : Text) (reason : LaunchReason)
      (message : Option Text) (s : Session)
      → Address input uri
      → text_eq method (codes "walletconnect") ≡ false
      → IsSafe env input (open_uri window uri method (not_launched reason message) s)
  open_uri-IsSafe none uri method reason message s a n = only-IsSafe s unsupported none
  open_uri-IsSafe (some opens) uri method reason message s a n = elim (Bool-cases (opens uri)) [
    | inl works ↦ rw works (
        quiet-IsSafe (uri ∷ []) s (launched method) (a, tt)
          (λ h. ground (arith, n, text_eq_refl (codes "walletconnect"))) (λ e h. ground arith))
    | inr fails ↦ rw fails (only-IsSafe s reason message)
  ]

  after_pay-IsSafe :
      (s : Session) (run : List Call × Ended)
      → IsRun env input.option run
      → IsSafe env input (after_pay s run)
  after_pay-IsSafe s (cs, sent) r = record {
    payments = r.payments;
    once = r.once;
    addresses = tt;
    paid = λ h. (r.all_sent refl, refl);
    refused = λ e h. refl;
  }
  after_pay-IsSafe s (cs, no_account) r = record {
    payments = r.payments;
    once = r.once;
    addresses = tt;
    paid = λ h. absurd (ground arith);
    refused = λ e h. refl;
  }
  after_pay-IsSafe s (cs, threw message) r = record {
    payments = r.payments;
    once = r.once;
    addresses = tt;
    paid = λ h. absurd (ground arith);
    refused = λ e h. refl;
  }

  pay_through-IsSafe :
      (w : Wallet) (pay : EvmPayment) (o : Session × Option Key)
      → evm_payment input.option ≡ some pay
      → IsSafe env input (pay_through env w pay o)
  pay_through-IsSafe w pay (s, none) e =
      only-IsSafe s failed (some (codes "WalletConnect unavailable"))
  pay_through-IsSafe w pay (s, some key) e =
      after_pay-IsSafe s (pay_calls env w pay) (pay_calls-IsRun env input.option w pay e)

  pay_with_wallet_connect-IsSafe :
      (configured : Option Text) (w : Wallet) (s : Session)
      → IsSafe env input (pay_with_wallet_connect env configured w input s)
  unfolding pay_with_wallet_connect
  pay_with_wallet_connect-IsSafe configured w s =
      elim (Bool-cases (is_empty (wc_project_id configured input.wallet_connect_project_id))) [
        | inl missing ↦ rw missing (only-IsSafe s missing_project_id none)
        | inr project ↦ elim (Option-cases (evm_payment input.option)) [
          | inl fields ↦
              rw (project, fields)
                (only-IsSafe s unsupported (some (codes "Missing EVM payment fields")))
          | inr (pay, complete) ↦ rw (project, complete) (pay_through-IsSafe w pay _ complete)
        ]
      ]

  launch_eip681-IsSafe :
      (window : Option (Text → Bool)) (s : Session)
      → IsSafe env input (launch_eip681 window input s)
  unfolding launch_eip681
  launch_eip681-IsSafe window s = elim (Bool-cases (is_empty (or_empty input.option.payment_uri))) [
    | inl missing ↦ rw missing (only-IsSafe s unsupported none)
    | inr uri ↦ rw uri (
        open_uri-IsSafe window (or_empty input.option.payment_uri) (codes "eip681") failed none s
          (inl refl) (unfold text_eq in refl))
  ]

  launch_tron_uri-IsSafe :
      (window : Option (Text → Bool)) (s : Session)
      → IsSafe env input (launch_tron_uri window input s)
  unfolding launch_tron_uri
  launch_tron_uri-IsSafe none s = only-IsSafe s unsupported none
  launch_tron_uri-IsSafe (some opens) s =
      elim (Bool-cases (is_empty (or_empty input.option.payment_uri))) [
        | inl missing ↦
            rw missing (only-IsSafe s unsupported (some (codes "No TRON payment URI available")))
        | inr uri ↦ rw uri (
            open_uri-IsSafe (some opens) (or_empty input.option.payment_uri) (codes "tron_uri")
              failed (some (codes "Could not open payment URI")) s (inl refl)
              (unfold text_eq in refl))
      ]

  either-IsSafe :
      (b : Bool) (x y : Launch)
      → IsSafe env input x
      → IsSafe env input y
      → IsSafe env input (if b then x else y)
  either-IsSafe true x y h k = h
  either-IsSafe false x y h k = k

  launch_tronlink-IsSafe :
      (window : Option (Text → Bool)) (s : Session) → IsSafe env input (launch_tronlink window s)
  unfolding launch_tronlink
  launch_tronlink-IsSafe window s =
      open_uri-IsSafe window tronlink_address (codes "tronlink_open") failed none s (inr refl)
        (unfold text_eq in refl)

  pay_with_tron_wallet-IsSafe :
      (window : Option (Text → Bool)) (s : Session)
      → IsSafe env input (pay_with_tron_wallet window input s)
  unfolding pay_with_tron_wallet
  pay_with_tron_wallet-IsSafe window s =
      let first = launch_tron_uri-IsSafe window s in
      let recovery =
        either-IsSafe input.env.is_mobile _ _ (launch_tronlink-IsSafe window s) first in
      either-IsSafe (is_launched (launch_tron_uri window input s).result) _ _ first recovery

  launch_eip681-calls :
      (window : Option (Text → Bool)) (s : Session) → (launch_eip681 window input s).calls ≡ []
  unfolding launch_eip681
  launch_eip681-calls none s = ground arith
  launch_eip681-calls (some opens) s = ground arith

  degrade-IsSafe :
      (window : Option (Text → Bool)) (wc : Launch)
      → IsSafe env input wc
      → IsSafe env input (degrade window input wc)
  unfolding degrade
  degrade-IsSafe window wc safe =
      let uri = launch_eip681-IsSafe window wc.session in
      let quiet = launch_eip681-calls window wc.session in
      elim (Bool-cases (is_final wc.result)) [
        | inl final ↦ rw final safe
        | inr retried ↦
            elim (Bool-cases (is_launched (launch_eip681 window input wc.session).result)) [
              | inr fails ↦ rw (retried, fails) safe
              | inl works ↦
                  rw (retried, works)
                    (record {
                      payments = safe.payments;
                      once = safe.once;
                      addresses = uri.addresses;
                      paid = λ h. let (one, _) = uri.paid h in absurd (ground (arith, one, quiet));
                      refused = λ m h. absurd (ground (arith, works, h));
                    })
            ]
      ]

  default :
      (window : Option (Text → Bool)) (configured : Option Text) (w : Wallet) (s : Session)
      → IsSafe env input (
          if is_empty (or_empty input.wallet_connect_project_id)
          then launch_eip681 window input s
          else pay_with_wallet_connect env configured w input s)
  default window configured w s =
      either-IsSafe (is_empty (or_empty input.wallet_connect_project_id)) _ _
        (launch_eip681-IsSafe window s) (pay_with_wallet_connect-IsSafe configured w s)

  launch_evm-IsSafe :
      (window : Option (Text → Bool)) (configured : Option Text) (w : Wallet) (id : WalletId)
      (s : Session)
      → IsSafe env input (launch_evm env window configured w input id s)
  unfolding launch_evm
  launch_evm-IsSafe window configured w walletconnect s =
      degrade-IsSafe window _ (pay_with_wallet_connect-IsSafe configured w s)
  launch_evm-IsSafe window configured w trust s =
      degrade-IsSafe window _ (pay_with_wallet_connect-IsSafe configured w s)
  launch_evm-IsSafe window configured w other s = launch_eip681-IsSafe window s
  launch_evm-IsSafe window configured w tronlink s = default window configured w s
  launch_evm-IsSafe window configured w qr s = default window configured w s

-- Whatever the wallet answers, whichever wallet is chosen, whether or not there is a window and
-- whether or not an address can be opened, the launch of a wallet sends at most one transaction,
-- and opens no address but the payment URI and the one that opens TronLink. A transaction that is
-- sent is from an account that is not empty, without a value of its own, to the contract of the
-- option's token, and its data is the selector of transfer, the option's destination in lower case
-- without its 0x, behind zeros that make it up to 64 digits, and hexadecimal digits, 64 of them
-- below 2^256, that denote the option's base units times ten for each decimal of the token beyond
-- six, which are 18 by default on BNB Smart Chain and 6 elsewhere. If the launch reports a payment
-- through WalletConnect, it has sent one transaction and opened nothing; if it reports that the
-- user has refused, it has opened nothing.
pub launch_wallet_handoff-IsSafe :
    (env : Platform) (window : Option (Text → Bool)) (configured : Option Text) (w : Wallet)
    (input : HandoffInput) (wallet_id : Option WalletId) (s : Session)
    → IsSafe env input (launch_wallet_handoff env window configured w input wallet_id s)
unfolding launch_wallet_handoff
launch_wallet_handoff-IsSafe env window configured w input wallet_id s =
    let plan = build_handoff_plan input in
    let id = or_id wallet_id plan.primary.id in
    elim (Bool-cases (wallet_eq id qr)) [
      | inl code ↦ rw code (only-IsSafe env input s unsupported (some (codes "Use QR surface")))
      | inr wallet ↦ elim (Bool-cases (text_eq plan.network (codes "tron"))) [
        | inl tron ↦ rw (wallet, tron) (pay_with_tron_wallet-IsSafe env input window s)
        | inr evm ↦ rw (wallet, evm) (launch_evm-IsSafe env input window configured w id s)
      ]
    ]
