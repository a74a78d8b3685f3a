-- ===== src/Base/Decimal.antt =====
-- Natural numbers in decimal digits, as `String(n)` writes them, and the number that digits denote.
pub mod Digits
use Prim.Native.Nat.{ℕ, zero, suc, ◌+◌, ◌-◌, ◌*◌, ◌/◌, ◌%◌, ◌≤◌}
use mathlib.Core.Path.{◌≡◌, refl}
use mathlib.Core.Logic.{inl, inr}
use mathlib.Core.Bool.{◌&&◌}
use mathlib.Core.List.{[], ◌∷◌, ◌++◌}
use native.Mathlib.Omega.{arith}
use pooli.Base.Tests.{ltb, ◌==◌, Bool-cases, if◌then◌else◌}
use pooli.Base.Lists.{length, replicate}
use pooli.Base.Strings.{Text, is_empty}

-- The digits of `n`, on fuel.
unfoldable pub digits_of : (fuel n : ℕ) → Text
digits_of zero n = []
digits_of (suc fuel) n =
    let front = digits_of fuel (n / 10) in
    if ltb n 10 then (b'0' + n) ∷ [] else front ++ (b'0' + n % 10) ∷ []

-- `String(n)`: there are fewer divisions by ten than `n + 1`.
unfoldable pub decimal : ℕ → Text
decimal n = digits_of (suc n) n

-- `Number(s)` of a text of digits, behind the digits that denote `acc`
unfoldable pub number_from : ℕ → Text → ℕ
number_from acc [] = acc
number_from acc (c ∷ s) = number_from (10 * acc + (c - b'0')) s

pub number_from-append :
    (acc : ℕ) (s t : Text) → number_from acc (s ++ t) ≡ number_from (number_from acc s) t
unfolding number_from
number_from-append acc [] t = refl
number_from-append acc (c ∷ s) t = number_from-append (10 * acc + (c - b'0')) s t

digits_of-number : (fuel n : ℕ) → suc n ≤ fuel → number_from 0 (digits_of fuel n) ≡ n
unfolding digits_of number_from
digits_of-number zero n h = absurd (omega arith)
digits_of-number (suc fuel) n h = elim (Bool-cases (ltb n 10)) [
  | inl small ↦ ground arith
  | inr large ↦
      let earlier = digits_of-number fuel (n / 10) (ground arith) in
      rw (large, number_from-append 0 (digits_of fuel (n / 10)) ((b'0' + n % 10) ∷ []), earlier)
        (omega arith)
]

pub number_from-decimal : (n : ℕ) → number_from 0 (decimal n) ≡ n
unfolding decimal
number_from-decimal n = digits_of-number (suc n) n (omega arith)

-- `s.padStart(n, '0')`
unfoldable pub pad_zeros : ℕ → Text → Text
pad_zeros n s = replicate (n - length s) b'0' ++ s

-- `s.replace(/0+$/, '')`
unfoldable pub drop_zeros : Text → Text
drop_zeros [] = []
drop_zeros (c ∷ s) = let rest = drop_zeros s in if c == b'0' && is_empty rest then [] else c ∷ rest
