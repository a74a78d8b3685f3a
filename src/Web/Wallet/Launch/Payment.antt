-- ===== src/Web/Wallet/Launch/Payment.antt =====
-- The transaction that evm.ts sends for an option, read off its fields.
use pooli.Base.{
  ℕ, ◌-◌, ◌*◌, ◌^◌, ◌≤◌, false, Option, none, some, Text, codes, text_eq, text_eq_iff, is_empty,
  if◌then◌else◌, Bool-cases, Option-cases, inl, inr, ◌≡◌, ◌≢◌, ◌⊎◌, refl, sym, arith,
}
use pooli.Domain.Platform.{Platform}
use pooli.Web.Handoff.{PaymentOption}
use mathlib.Core.Path.{subst}
use pooli.Base.Options.{or_empty}
use pooli.Web.Wallet.Amount.Words.{IsTransferCall, encode-IsTransferCall}
use pooli.Web.Wallet.Amount.{encode_erc20_transfer, pooli_base_to_on_chain_amount}
use pooli.Web.Wallet.Evm.{Transaction, EvmPayment, or_number, evm_payment, transfer}

-- The decimals of the option's token: its own, or 18 on BNB Smart Chain and else 6.
abbrev pub IsDecimals : PaymentOption → ℕ → Type 0
IsDecimals option d =
    (option.token_decimals ≡ some d)
    ⊎ ((option.token_decimals ≡ none) × (option.network ≡ codes "bsc") × (d ≡ 18))
    ⊎ ((option.token_decimals ≡ none) × (option.network ≢ codes "bsc") × (d ≡ 6))

-- A transaction that pays the option, read off its fields: it goes to the contract of the option's
-- token, without a value of its own, and calls transfer with the option's destination and its base
-- units, times ten for each decimal of the token beyond six.
pub record IsPayment (env : Platform) (option : PaymentOption) (tx : Transaction) : Type 0 where
  pub units : ℕ
  pub decimals : ℕ
  pub to_token : option.token_contract ≡ some tx.to
  pub has_token : is_empty tx.to ≡ false
  pub has_recipient : is_empty option.destination_address ≡ false
  pub is_units : option.pay_usdt_amount_base_units ≡ some units
  pub is_decimals : IsDecimals option decimals
  pub enough_decimals : 6 ≤ decimals
  pub call :
      IsTransferCall env option.destination_address (units * 10 ^ (decimals - 6)) tx.call_data
  pub no_value : tx.value ≡ codes "0x0"
  pub has_sender : is_empty tx.from ≡ false

-- What the option has when a payment is made of it.
record IsComplete (option : PaymentOption) (pay : EvmPayment) : Type 0 where
  token : option.token_contract ≡ some pay.token
  has_token : is_empty pay.token ≡ false
  recipient : pay.recipient ≡ option.destination_address
  has_recipient : is_empty pay.recipient ≡ false
  units : option.pay_usdt_amount_base_units ≡ some pay.base_units
  decimals : IsDecimals option pay.decimals

token_of_non_empty :
    (token : Option Text) → is_empty (or_empty token) ≡ false → token ≡ some (or_empty token)
token_of_non_empty none h = absurd (ground arith)
token_of_non_empty (some t) h = refl

or_number-IsDecimals :
    (option : PaymentOption) (given : Option ℕ)
    → option.token_decimals ≡ given
    → IsDecimals option (or_number (if text_eq option.network (codes "bsc") then 18 else 6) given)
or_number-IsDecimals option (some d) e = inl e
or_number-IsDecimals option none e = elim (Bool-cases (text_eq option.network (codes "bsc"))) [
  | inl bsc ↦ inr (inl (e, (text_eq_iff _ _).0 bsc, rw bsc refl))
  | inr other ↦ inr (
      inr
        (e, λ h. absurd (ground (arith, text_eq_iff option.network (codes "bsc"))), rw other refl))
]

evm_payment-IsComplete :
    (option : PaymentOption) (pay : EvmPayment)
    → evm_payment option ≡ some pay
    → IsComplete option pay
unfolding evm_payment
evm_payment-IsComplete option pay h = elim (Option-cases option.pay_usdt_amount_base_units) [
  | inl missing ↦ absurd (ground arith)
  | inr (units, given) ↦ record {
    token = ground (arith, token_of_non_empty option.token_contract);
    has_token = ground arith;
    recipient = ground arith;
    has_recipient = ground arith;
    units = ground arith;
    decimals =
        subst (IsDecimals option) (ground arith)
          (or_number-IsDecimals option option.token_decimals refl);
  }
]

pub transfer-IsPayment :
    (env : Platform) (option : PaymentOption) (pay : EvmPayment) (from amount : Text)
    → evm_payment option ≡ some pay
    → pooli_base_to_on_chain_amount pay.base_units pay.decimals ≡ some amount
    → is_empty from ≡ false
    → IsPayment env option (transfer env pay from amount)
transfer-IsPayment env option pay from amount is_pay made sender =
    let c = evm_payment-IsComplete option pay is_pay in
    let (six, call) =
      encode-IsTransferCall env pay.recipient pay.base_units pay.decimals amount made in
    record {
      units = pay.base_units;
      decimals = pay.decimals;
      to_token = c.token;
      has_token = c.has_token;
      has_recipient = rw (sym c.recipient) c.has_recipient;
      is_units = c.units;
      is_decimals = c.decimals;
      enough_decimals = six;
      call =
          subst
            (λ r.
              IsTransferCall env r (pay.base_units * 10 ^ (pay.decimals - 6))
                (encode_erc20_transfer env pay.recipient amount))
            c.recipient call;
      no_value = refl;
      has_sender = sender;
    }
