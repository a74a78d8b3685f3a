-- ===== src/Base/Decimal/Digits.antt =====
-- Laws of decimal digits: what they are, how many, and what padding and dropping zeros keeps.
use Prim.Native.Nat.{ℕ, zero, suc, ◌+◌, ◌-◌, ◌*◌, ◌/◌, ◌%◌, ◌≤◌, ◌<◌}
use mathlib.Core.Path.{◌≡◌, refl, ap, ◌∙◌}
use mathlib.Core.Logic.{inl, inr}
use mathlib.Core.Bool.{Bool, true, false, ◌&&◌}
use mathlib.Core.List.{List, [], ◌∷◌, ◌++◌}
use native.Mathlib.Omega.{arith}
use pooli.Base.Tests.{ltb, ◌==◌, Bool-cases, and-eq-true, ==_iff}
use pooli.Base.Lists.{length, replicate, take, every, length-append, length-replicate}
use pooli.Base.Strings.{Text, is_empty, is_digit}
use pooli.Base.Decimal.{digits_of, decimal, number_from, pad_zeros, drop_zeros, number_from-decimal}

pub every-append {ℓ} :
    {A : Type ℓ} (p : A → Bool) (xs ys : List A)
    → every p xs ≡ true
    → every p ys ≡ true
    → every p (xs ++ ys) ≡ true
unfolding every
every-append p [] ys h k = k
every-append p (x ∷ xs) ys h k = ground (arith, every-append p xs ys)

digits_of-digits : (fuel n : ℕ) → every is_digit (digits_of fuel n) ≡ true
unfolding digits_of every
digits_of-digits zero n = refl
digits_of-digits (suc fuel) n = elim (Bool-cases (ltb n 10)) [
  | inl small ↦ rw small (ground arith)
  | inr large ↦ rw large (
      every-append is_digit (digits_of fuel (n / 10)) _ (digits_of-digits fuel (n / 10))
        (ground arith))
]

pub every-decimal : (n : ℕ) → every is_digit (decimal n) ≡ true
unfolding decimal
every-decimal n = digits_of-digits (suc n) n

is_empty-snoc : (s : Text) (c : ℕ) → is_empty (s ++ c ∷ []) ≡ false
is_empty-snoc [] c = refl
is_empty-snoc (d ∷ s) c = refl

pub is_empty-decimal : (n : ℕ) → is_empty (decimal n) ≡ false
unfolding decimal digits_of
is_empty-decimal n = elim (Bool-cases (ltb n 10)) [
  | inl small ↦ rw small refl
  | inr large ↦ rw large (is_empty-snoc (digits_of n (n / 10)) _)
]

-- `10 ^ k`
power : ℕ → ℕ
power zero = 1
power (suc k) = 10 * power k

length-digits_of : (fuel n k : ℕ) → n < power (suc k) → length (digits_of fuel n) ≤ suc k
unfolding digits_of power
length-digits_of zero n k h = omega arith
length-digits_of (suc fuel) n zero h =
    let small : ltb n 10 ≡ true = ground arith in rw small (omega arith)
length-digits_of (suc fuel) n (suc k) h = elim (Bool-cases (ltb n 10)) [
  | inl small ↦ rw small (omega arith)
  | inr large ↦
      rw (large, length-append (digits_of fuel (n / 10)) ((b'0' + n % 10) ∷ []))
        (omega (arith, length-digits_of fuel (n / 10) k (omega arith)))
]

pub length-decimal_six : (n : ℕ) → n < 1000000 → length (decimal n) ≤ 6
unfolding decimal power
length-decimal_six n h = length-digits_of (suc n) n 5 (omega arith)

number_from-zeros : (k : ℕ) (s : Text) → number_from 0 (replicate k b'0' ++ s) ≡ number_from 0 s
unfolding number_from
number_from-zeros zero s = refl
number_from-zeros (suc k) s = number_from-zeros k s

pub number_from-pad_zeros : (n k : ℕ) → number_from 0 (pad_zeros k (decimal n)) ≡ n
unfolding pad_zeros
number_from-pad_zeros n k = number_from-zeros _ (decimal n) ∙ number_from-decimal n

pub length-pad_zeros : (k : ℕ) (s : Text) → length s ≤ k → length (pad_zeros k s) ≡ k
unfolding pad_zeros
length-pad_zeros k s h =
    rw
      (
        length-append (replicate (k - length s) b'0') s,
        length-replicate {A = ℕ} (k - length s) b'0',
      )
      (omega arith)

every-replicate : (k : ℕ) → every is_digit (replicate k b'0') ≡ true
unfolding every
every-replicate zero = refl
every-replicate (suc k) = every-replicate k

pub every-pad_zeros : (k n : ℕ) → every is_digit (pad_zeros k (decimal n)) ≡ true
unfolding pad_zeros
every-pad_zeros k n =
    every-append is_digit (replicate _ b'0') (decimal n) (every-replicate _) (every-decimal n)

pub every-drop_zeros : (p : ℕ → Bool) (s : Text) → every p s ≡ true → every p (drop_zeros s) ≡ true
unfolding every drop_zeros
every-drop_zeros p [] h = refl
every-drop_zeros p (c ∷ s) h = ground (arith, every-drop_zeros p s)

pub empty-eq : (s : Text) → is_empty s ≡ true → s ≡ []
empty-eq [] h = refl
empty-eq (c ∷ s) h = cc

-- What was dropped are zeros.
pub drop_zeros-append : (s : Text) → (k : ℕ) × (drop_zeros s ++ replicate k b'0' ≡ s)
unfolding drop_zeros
drop_zeros-append [] = (0, refl)
drop_zeros-append (c ∷ s) =
    let (k, e) = drop_zeros-append s in
    elim (Bool-cases ((c == b'0') && is_empty (drop_zeros s))) [
      | inr kept ↦ (k, rw kept (ap (λ t. c ∷ t) e))
      | inl dropped ↦
          let (zero_unit, none_left) = and-eq-true (c == b'0') (is_empty (drop_zeros s)) dropped in
          let same : c ≡ b'0' = (==_iff c b'0').0 zero_unit in
          (suc k, rw dropped (cc (same, empty-eq (drop_zeros s) none_left, e)))
    ]

take-replicate : (k j : ℕ) → k ≤ j → take {A = ℕ} k (replicate j b'0') ≡ replicate k b'0'
take-replicate zero j h = refl
take-replicate (suc k) zero h = absurd (omega arith)
take-replicate (suc k) (suc j) h = ap (λ t. b'0' ∷ t) (take-replicate k j (omega arith))

pub take-zeros :
    (t : Text) (k j m : ℕ)
    → length t + k ≡ m
    → k ≤ j
    → take m (t ++ replicate j b'0') ≡ t ++ replicate k b'0'
take-zeros [] k j m e h = let same : m ≡ k = omega arith in rw same (take-replicate k j h)
take-zeros (c ∷ t) k j zero e h = absurd (omega arith)
take-zeros (c ∷ t) k j (suc m) e h = ap (λ u. c ∷ u) (take-zeros t k j m (omega arith) h)
