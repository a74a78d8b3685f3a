-- ===== src/Web/Wallet/Launch/Payments.antt =====
-- What the launch of a wallet asks of it and opens, in apps/web/src/lib/payment-handoff.
use pooli.Base.{
  ℕ, suc, ◌≤◌, Bool, true, false, ◌&&◌, List, [], ◌∷◌, Option, none, some, Text, codes, is_empty,
  ◌==◌, if◌then◌else◌, All, Bool-cases, Option-cases, inl, inr, ◌≡◌, refl, arith,
}
use pooli.Domain.Platform.{Platform}
use pooli.Web.Wallet.Launch.Payment.{IsPayment, transfer-IsPayment}
use pooli.Web.Handoff.{PaymentOption}
use pooli.Web.Wallet.Amount.{pooli_base_to_on_chain_amount, to_hex_quantity}
use pooli.Web.Wallet.Evm.{
  Call, switching_chain, adding_chain, asking_accounts, sending, ErrorCode, Wallet, Ended, sent,
  no_account, threw, after_call, opening, is_addable, ensure_chain, EvmPayment, evm_payment,
  send_amount, send_from, with_accounts, pay_calls,
}

abbrev pub Pays : Platform → PaymentOption → Call → Type 0
Pays env option (sending tx) = IsPayment env option tx
Pays env option c = Unit

abbrev is_sending : Call → Bool
is_sending (sending tx) = true
is_sending c = false

-- How many transactions are sent
abbrev pub sends : List Call → ℕ
sends [] = 0
sends (c ∷ cs) = if is_sending c then suc (sends cs) else sends cs

pub record IsRun (env : Platform) (option : PaymentOption) (run : List Call × Ended) : Type 0 where
  pub payments : All (Pays env option) run.0
  pub once : sends run.0 ≤ 1
  pub all_sent : run.1 ≡ sent → sends run.0 ≡ 1

module _ (env : Platform) (option : PaymentOption) where
  after_call-IsRun :
      (c : Call) (error : Option Text) (rest : List Call × Ended)
      → is_sending c ≡ false
      → Pays env option c
      → IsRun env option rest
      → IsRun env option (after_call c error rest)
  after_call-IsRun c none (cs, e) quiet pays r = record {
    payments = (pays, r.payments);
    once = rw quiet r.once;
    all_sent = λ h. rw quiet (r.all_sent h);
  }
  after_call-IsRun c (some message) rest quiet pays r = record {
    payments = (pays, tt);
    once = rw quiet (omega arith);
    all_sent = λ h. absurd (ground arith);
  }

  stopped-IsRun : (e : Ended) → (e ≡ sent → ⊥) → IsRun env option ([], e)
  stopped-IsRun e n = record { payments = tt; once = omega arith; all_sent = λ h. absurd (n h) }

  send_amount-IsRun :
      (w : Wallet) (pay : EvmPayment) (from : Text)
      → evm_payment option ≡ some pay
      → is_empty from ≡ false
      → IsRun env option
          (send_amount env w pay from (pooli_base_to_on_chain_amount pay.base_units pay.decimals))
  send_amount-IsRun w pay from is_pay sender =
      elim (Option-cases (pooli_base_to_on_chain_amount pay.base_units pay.decimals)) [
        | inl small ↦
            rw small (stopped-IsRun (threw (codes "token decimals too small")) (λ h. ground arith))
        | inr (amount, made) ↦
            let payment = transfer-IsPayment env option pay from amount is_pay made sender in
            elim (Option-cases w.send_error) [
              | inl fine ↦
                  rw (made, fine)
                    (record { payments = (payment, tt); once = omega arith; all_sent = λ h. refl })
              | inr (message, error) ↦
                  rw (made, error)
                    (record {
                      payments = (payment, tt);
                      once = omega arith;
                      all_sent = λ h. absurd (ground arith);
                    })
            ]
      ]

  send_from-IsRun :
      (w : Wallet) (pay : EvmPayment) (accounts : List Text)
      → evm_payment option ≡ some pay
      → IsRun env option (send_from env w pay accounts)
  send_from-IsRun w pay [] is_pay = stopped-IsRun no_account (λ h. ground arith)
  send_from-IsRun w pay (from ∷ others) is_pay = elim (Bool-cases (is_empty from)) [
    | inl nobody ↦ rw nobody (stopped-IsRun no_account (λ h. ground arith))
    | inr somebody ↦ rw somebody (send_amount-IsRun w pay from is_pay somebody)
  ]

  with_accounts-IsRun :
      (w : Wallet) (pay : EvmPayment) (accounts : List Text)
      → evm_payment option ≡ some pay
      → IsRun env option (with_accounts env w pay accounts)
  with_accounts-IsRun w pay [] is_pay =
      after_call-IsRun asking_accounts w.accounts_error (send_from env w pay w.asked_accounts) refl
        tt (send_from-IsRun w pay w.asked_accounts is_pay)
  with_accounts-IsRun w pay (a ∷ more) is_pay = send_from-IsRun w pay (a ∷ more) is_pay

  ensure_chain-IsRun :
      (w : Wallet) (chain_id : ℕ) (error : Option (ErrorCode × Text)) (rest : List Call × Ended)
      → IsRun env option rest
      → IsRun env option (ensure_chain w chain_id error rest)
  ensure_chain-IsRun w chain_id none rest r =
      after_call-IsRun (switching_chain (to_hex_quantity chain_id)) none rest refl tt r
  ensure_chain-IsRun w chain_id (some (code, message)) rest r =
      elim (Bool-cases (is_addable code && (chain_id == 56))) [
        | inl adds ↦ rw adds (
            after_call-IsRun (switching_chain (to_hex_quantity chain_id)) none
              (after_call adding_chain w.add_error rest) refl tt
              (after_call-IsRun adding_chain w.add_error rest refl tt r))
        | inr fails ↦ rw fails (
            after_call-IsRun (switching_chain (to_hex_quantity chain_id)) (some message) rest refl
              tt r)
      ]

  opening-quiet : (w : Wallet) (chain_id : ℕ) → is_sending (opening w chain_id) ≡ false
  opening-quiet w chain_id = ground arith

  opening-Pays : (w : Wallet) (chain_id : ℕ) → Pays env option (opening w chain_id)
  opening-Pays w chain_id = ground arith

  pub pay_calls-IsRun :
      (w : Wallet) (pay : EvmPayment)
      → evm_payment option ≡ some pay
      → IsRun env option (pay_calls env w pay)
  unfolding pay_calls
  pay_calls-IsRun w pay is_pay =
      let inner =
        ensure_chain-IsRun w pay.chain_id w.switch_error (with_accounts env w pay w.own_accounts)
          (with_accounts-IsRun w pay w.own_accounts is_pay) in
      after_call-IsRun (opening w pay.chain_id) w.open_error _ (opening-quiet w pay.chain_id)
        (opening-Pays w pay.chain_id) inner
