-- ===== src/Web/Wallet/Amount/Words.antt =====
-- The calldata that `encodeErc20Transfer` of amount.ts makes, word by word, for any recipient.
use pooli.Base.{
  ℕ, ◌-◌, ◌*◌, ◌^◌, ◌≤◌, ◌<◌, true, false, ◌++◌, some, Text, codes, starts_with, drop, length,
  replicate, every, Bool-cases, inl, inr, ◌≡◌, ◌⊎◌, refl, ap, sym, ◌∙◌, arith,
}
use mathlib.Core.Option.{some-injective}
use pooli.Base.Decimal.{number_from, pad_zeros}
use pooli.Base.Decimal.Digits.{length-pad_zeros}
use pooli.Domain.Platform.{Platform, is_hex_lower}
use pooli.Web.Wallet.Amount.{pooli_base_to_on_chain_amount, hex, drop_prefix, encode_erc20_transfer}
use pooli.Web.Wallet.Amount.Calldata.{
  hex_number, hex_number-word, every-word, length-hex, amount-scaled,
}

-- A call of `transfer(address,uint256)`: the selector, the digits of the address in lower case, behind
-- zeros that make them 64, and hexadecimal digits that denote the amount, 64 of them if it is below
-- 2^256.
pub record IsTransferCall (env : Platform) (recipient : Text) (amount : ℕ) (bytes : Text)
    : Type 0 where
  pub digits : Text
  pub word : Text
  pub is_address :
      (env.to_lower recipient ≡ codes "0x" ++ digits)
      ⊎ ((starts_with (env.to_lower recipient) (codes "0x") ≡ false)
          × (env.to_lower recipient ≡ digits))
  pub layout : bytes ≡ codes "0xa9059cbb" ++ replicate (64 - length digits) b'0' ++ digits ++ word
  pub is_hex : every is_hex_lower word ≡ true
  pub value : hex_number 0 word ≡ amount
  pub width : amount < 2 ^ 256 → length word ≡ 64

starts_with-split : (s : Text) → starts_with s (codes "0x") ≡ true → s ≡ codes "0x" ++ drop 2 s
unfolding starts_with
starts_with-split s h = ground arith

drop_prefix-cases :
    (s : Text)
    → (s ≡ codes "0x" ++ drop_prefix s)
      ⊎ ((starts_with s (codes "0x") ≡ false) × (s ≡ drop_prefix s))
unfolding drop_prefix
drop_prefix-cases s = elim (Bool-cases (starts_with s (codes "0x"))) [
  | inl prefixed ↦ inl (rw prefixed (starts_with-split s prefixed))
  | inr bare ↦ inr (bare, rw bare refl)
]

decimals_enough :
    (base d : ℕ) {amount : Text} → pooli_base_to_on_chain_amount base d ≡ some amount → 6 ≤ d
unfolding pooli_base_to_on_chain_amount
decimals_enough base d made = ground arith

pub encode-IsTransferCall :
    (env : Platform) (recipient : Text) (base d : ℕ) (amount : Text)
    → pooli_base_to_on_chain_amount base d ≡ some amount
    → (6 ≤ d)
      × IsTransferCall env recipient
          (base * 10 ^ (d - 6))
          (encode_erc20_transfer env recipient amount)
unfolding encode_erc20_transfer pad_zeros
encode-IsTransferCall env recipient base d amount made =
    let six : 6 ≤ d = decimals_enough base d made in
    let (amount', made', value) = amount-scaled base d six in
    let same : amount ≡ amount' = some-injective _ _ (sym made ∙ made') in
    let number : number_from 0 amount ≡ base * 10 ^ (d - 6) = ap (number_from 0) same ∙ value in
    let digits = drop_prefix (env.to_lower recipient) in
    let word = pad_zeros 64 (hex (base * 10 ^ (d - 6))) in
    (
      six,
      record {
        digits = digits;
        word = word;
        is_address = drop_prefix-cases (env.to_lower recipient);
        layout = ap (λ n. codes "0xa9059cbb" ++ pad_zeros 64 digits ++ pad_zeros 64 (hex n)) number;
        is_hex = every-word (base * 10 ^ (d - 6));
        value = hex_number-word (base * 10 ^ (d - 6));
        width = λ fits. length-pad_zeros 64 (hex (base * 10 ^ (d - 6))) (length-hex _ fits);
      },
    )
