-- ===== src/Web/Wallet/Amount/Calldata.antt =====
-- What the calldata that amount.ts makes says to a contract that reads it.
use pooli.Base.{
  ℕ, zero, suc, ◌+◌, ◌-◌, ◌*◌, ◌/◌, ◌%◌, ◌^◌, ◌≤◌, ◌<◌, true, false, [], ◌∷◌, ◌++◌, map, some, Text,
  codes, starts_with, drop, take, length, replicate, every, length-append, take-append, drop-append,
  length-map, ltb, ◌==◌, if◌then◌else◌, Bool-cases, ==_iff, inl, inr, ◌≡◌, refl, ap, ◌∙◌, arith,
}
use pooli.Base.Decimal.{decimal, number_from, number_from-decimal, pad_zeros}
use pooli.Base.Decimal.Digits.{length-pad_zeros, every-append}
use pooli.Domain.Platform.{Platform, IsStandard, IsAscii, ascii_lower, is_hex_lower}
use pooli.Web.Wallet.Amount.{
  pooli_base_to_on_chain_amount, hex_digit, hex_of, hex, drop_prefix, selector,
  encode_erc20_transfer,
}

-- The value of a hexadecimal digit
abbrev pub hex_value : ℕ → ℕ
hex_value c = if ltb c 58 then c - b'0' else c + 10 - b'a'

-- The number that digits denote, behind the digits that denote `acc`
unfoldable pub hex_number : ℕ → Text → ℕ
hex_number acc [] = acc
hex_number acc (c ∷ s) = hex_number (16 * acc + hex_value c) s

hex_number-append :
    (acc : ℕ) (s t : Text) → hex_number acc (s ++ t) ≡ hex_number (hex_number acc s) t
unfolding hex_number
hex_number-append acc [] t = refl
hex_number-append acc (c ∷ s) t = hex_number-append (16 * acc + hex_value c) s t

hex_value-digit : (d : ℕ) → d < 16 → hex_value (hex_digit d) ≡ d
hex_value-digit d h = ground arith

-- Fuel above the number is enough.
hex_number-hex_of : (fuel n : ℕ) → suc n ≤ fuel → hex_number 0 (hex_of fuel n) ≡ n
unfolding hex_of hex_number
hex_number-hex_of zero n h = absurd (omega arith)
hex_number-hex_of (suc fuel) n h = elim (Bool-cases (ltb n 16)) [
  | inl small ↦ rw small (omega (arith, hex_value-digit n (ground arith)))
  | inr large ↦
      let earlier = hex_number-hex_of fuel (n / 16) (ground arith) in
      let digit = hex_value-digit (n % 16) (omega arith) in
      rw
        (
          large,
          hex_number-append 0 (hex_of fuel (n / 16)) (hex_digit (n % 16) ∷ []),
          earlier,
          digit,
        )
        (omega arith)
]

hex_number-zeros : (k : ℕ) (s : Text) → hex_number 0 (replicate k b'0' ++ s) ≡ hex_number 0 s
unfolding hex_number
hex_number-zeros zero s = refl
hex_number-zeros (suc k) s = hex_number-zeros k s

-- `16 ^ k`
power : ℕ → ℕ
power zero = 1
power (suc k) = 16 * power k

length-hex_of : (fuel n k : ℕ) → n < power (suc k) → length (hex_of fuel n) ≤ suc k
unfolding hex_of power
length-hex_of zero n k h = omega arith
length-hex_of (suc fuel) n zero h =
    let small : ltb n 16 ≡ true = ground arith in rw small (omega arith)
length-hex_of (suc fuel) n (suc k) h = elim (Bool-cases (ltb n 16)) [
  | inl small ↦ rw small (omega arith)
  | inr large ↦
      rw (large, length-append (hex_of fuel (n / 16)) (hex_digit (n % 16) ∷ []))
        (omega (arith, length-hex_of fuel (n / 16) k (omega arith)))
]

pub length-hex : (n : ℕ) → n < 2 ^ 256 → length (hex n) ≤ 64
unfolding hex power
length-hex n h = length-hex_of (suc n) n 63 h

hex_digit-is_hex : (d : ℕ) → d < 16 → is_hex_lower (hex_digit d) ≡ true
hex_digit-is_hex d h = ground arith

every-hex_of : (fuel n : ℕ) → every is_hex_lower (hex_of fuel n) ≡ true
unfolding hex_of every
every-hex_of zero n = refl
every-hex_of (suc fuel) n = elim (Bool-cases (ltb n 16)) [
  | inl small ↦ rw (small, hex_digit-is_hex n (ground arith)) refl
  | inr large ↦
      let last : every is_hex_lower (hex_digit (n % 16) ∷ []) ≡ true =
        rw (hex_digit-is_hex (n % 16) (omega arith)) refl in
      rw large
        (every-append is_hex_lower (hex_of fuel (n / 16)) _ (every-hex_of fuel (n / 16)) last)
]

every-zeros : (k : ℕ) → every is_hex_lower (replicate k b'0') ≡ true
unfolding every
every-zeros zero = refl
every-zeros (suc k) = every-zeros k

-- A number below 2^256 in 64 digits
pub every-word : (n : ℕ) → every is_hex_lower (pad_zeros 64 (hex n)) ≡ true
unfolding pad_zeros hex
every-word n =
    every-append is_hex_lower (replicate _ b'0') (hex n) (every-zeros _) (every-hex_of (suc n) n)

pub hex_number-word : (n : ℕ) → hex_number 0 (pad_zeros 64 (hex n)) ≡ n
unfolding pad_zeros hex
hex_number-word n = hex_number-zeros _ (hex n) ∙ hex_number-hex_of (suc n) n (omega arith)

-- The address in 64 digits
address_word : Platform → Text → Text
address_word env recipient = pad_zeros 64 (drop_prefix (env.to_lower recipient))

to_lower-address :
    (env : Platform) (address : Text)
    → IsStandard env
    → IsAscii address
    → drop_prefix (env.to_lower (codes "0x" ++ address)) ≡ map ascii_lower address
unfolding drop_prefix starts_with
to_lower-address env address std ascii =
    let prefixed : IsAscii (codes "0x" ++ address) = (omega arith, (omega arith, ascii)) in
    rw (std.lower_ascii (codes "0x" ++ address) prefixed) refl

-- The text of the amount, read as the calldata reads it
pub amount-scaled :
    (base d : ℕ)
    → 6 ≤ d
    → (amount : Text) × (pooli_base_to_on_chain_amount base d ≡ some amount)
      × (number_from 0 amount ≡ base * 10 ^ (d - 6))
unfolding pooli_base_to_on_chain_amount
amount-scaled base d h = elim (Bool-cases (d == 6)) [
  | inl same ↦
      let six : d ≡ 6 = (==_iff d 6).0 same in
      (decimal base, rw same refl, rw six (number_from-decimal base ∙ omega arith))
  | inr more ↦
      let enough : ltb d 6 ≡ false = ground arith in
      (
        decimal (base * 10 ^ (d - 6)),
        rw (more, enough) refl,
        number_from-decimal (base * 10 ^ (d - 6)),
      )
]

-- With a standard platform, a token of at least six decimals, an address of at most 64 ASCII units
-- behind its 0x, and an amount on chain below 2^256: the amount of base units is scaled by ten for
-- each further decimal, and the calldata of its transfer has the selector of transfer, the address
-- in lower case behind zeros that make it 64 digits, and 64 hexadecimal digits that denote exactly
-- that amount.
pub encode_erc20_transfer-read :
    (env : Platform) (base d : ℕ) (address : Text)
    → IsStandard env
    → 6 ≤ d
    → IsAscii address
    → length address ≤ 64
    → base * 10 ^ (d - 6) < 2 ^ 256
    → (amount : Text) × (pooli_base_to_on_chain_amount base d ≡ some amount)
      × let bytes = encode_erc20_transfer env (codes "0x" ++ address) amount in
        (take 10 bytes ≡ codes "0xa9059cbb")
        × (take 64 (drop 10 bytes)
            ≡ replicate (64 - length address) b'0' ++ map ascii_lower address)
        × (length (drop 74 bytes) ≡ 64)
        × (every is_hex_lower (drop 74 bytes) ≡ true)
        × (hex_number 0 (drop 74 bytes) ≡ base * 10 ^ (d - 6))
unfolding encode_erc20_transfer
encode_erc20_transfer-read env base d address std six ascii short fits =
    let (amount, made, value) = amount-scaled base d six in
    let word = pad_zeros 64 (hex (base * 10 ^ (d - 6))) in
    let padded : Text = pad_zeros 64 (map ascii_lower address) in
    let address_length : length padded ≡ 64 =
      length-pad_zeros 64 (map ascii_lower address) (rw (length-map ascii_lower address) short) in
    let word_length : length word ≡ 64 =
      length-pad_zeros 64 (hex (base * 10 ^ (d - 6))) (length-hex (base * 10 ^ (d - 6)) fits) in
    let joined : encode_erc20_transfer env (codes "0x" ++ address) amount
        ≡ selector ++ padded ++ word =
      rw (to_lower-address env address std ascii, value) refl in
    let zeros : padded ≡ replicate (64 - length address) b'0' ++ map ascii_lower address =
      unfold pad_zeros in
      ap (λ k. replicate (64 - k) b'0' ++ map ascii_lower address)
        (length-map ascii_lower address) in
    let behind : drop 74 (selector ++ padded ++ word) ≡ word =
      drop-append 64 padded word address_length in
    (
      amount,
      made,
      (
        refl,
        rw joined (take-append 64 padded word address_length ∙ zeros),
        rw (joined, behind) word_length,
        rw (joined, behind) (every-word (base * 10 ^ (d - 6))),
        rw (joined, behind) (hex_number-word (base * 10 ^ (d - 6))),
      ),
    )
