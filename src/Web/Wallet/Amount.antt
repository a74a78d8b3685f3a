-- ===== src/Web/Wallet/Amount.antt =====
-- apps/web/src/lib/payment-handoff/amount.ts: amounts on chain and the calldata of a transfer.
pub mod Calldata
pub mod Words
use pooli.Base.{
  ℕ, zero, suc, ◌+◌, ◌-◌, ◌*◌, ◌/◌, ◌%◌, ◌^◌, Bool, List, [], ◌∷◌, ◌++◌, Option, none, some, Text,
  codes, starts_with, drop, ltb, ◌==◌, if◌then◌else◌,
}
use pooli.Base.Decimal.{decimal, number_from, pad_zeros}
use pooli.Domain.Platform.{Platform}

-- `pooliBaseToOnChainAmount`, `none` where it throws
unfoldable pub pooli_base_to_on_chain_amount : (base_units token_decimals : ℕ) → Option Text
pooli_base_to_on_chain_amount base token_decimals =
    if token_decimals == 6
    then some (decimal base)
    else if ltb token_decimals 6
    then none
    else some (decimal (base * 10 ^ (token_decimals - 6)))

abbrev pub hex_digit : ℕ → ℕ
hex_digit d = if ltb d 10 then b'0' + d else b'a' + d - 10

-- The hexadecimal digits of `n`, on fuel.
unfoldable pub hex_of : (fuel n : ℕ) → Text
hex_of zero n = []
hex_of (suc fuel) n =
    let front = hex_of fuel (n / 16) in
    if ltb n 16 then hex_digit n ∷ [] else front ++ hex_digit (n % 16) ∷ []

-- `n.toString(16)`: there are fewer divisions by 16 than `n + 1`.
unfoldable pub hex : ℕ → Text
hex n = hex_of (suc n) n

-- `s.replace(/^0x/, "")`
unfoldable pub drop_prefix : Text → Text
drop_prefix s = if starts_with s (codes "0x") then drop 2 s else s

abbrev pub selector : Text
selector = codes "0xa9059cbb"

-- `encodeErc20Transfer`; `BigInt` reads a text of digits.
unfoldable pub encode_erc20_transfer : Platform → (recipient on_chain_amount : Text) → Text
encode_erc20_transfer env recipient on_chain_amount =
    selector
    ++ pad_zeros 64 (drop_prefix (env.to_lower recipient))
    ++ pad_zeros 64 (hex (number_from 0 on_chain_amount))

-- `toHexQuantity`
unfoldable pub to_hex_quantity : ℕ → Text
to_hex_quantity n = codes "0x" ++ hex n
