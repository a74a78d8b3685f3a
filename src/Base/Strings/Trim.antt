-- ===== src/Base/Strings/Trim.antt =====
-- Laws of `trim`.
use pooli.Base.Strings.{Text, is_space, is_empty, trim_start, trim_end, trim}
use pooli.Base.Tests.{Bool-cases}
use pooli.Base.Lists.{All}
use mathlib.Core.Path.{◌≡◌, refl, ap, ◌∙◌}
use mathlib.Core.Logic.{inl, inr}
use mathlib.Core.Bool.{false, ◌&&◌}
use mathlib.Core.List.{[], ◌∷◌}

-- The text begins with a unit that is no space, or is empty.
abbrev pub IsStarted : Text → Type 0
IsStarted [] = Unit
IsStarted (c ∷ s) = is_space c ≡ false

trim_start-IsStarted : (s : Text) → IsStarted (trim_start s)
unfolding trim_start
trim_start-IsStarted [] = tt
trim_start-IsStarted (c ∷ s) = elim (Bool-cases (is_space c)) [
  | inl space ↦ rw space (trim_start-IsStarted s)
  | inr solid ↦ rw solid solid
]

trim_start-eq_self : (s : Text) → IsStarted s → trim_start s ≡ s
unfolding trim_start
trim_start-eq_self [] h = refl
trim_start-eq_self (c ∷ s) h = rw h refl

trim_end-IsStarted : (s : Text) → IsStarted s → IsStarted (trim_end s)
unfolding trim_end
trim_end-IsStarted [] h = tt
trim_end-IsStarted (c ∷ s) h = rw h h

trim_end_idempotent : (s : Text) → trim_end (trim_end s) ≡ trim_end s
unfolding trim_end
trim_end_idempotent [] = refl
trim_end_idempotent (c ∷ s) = elim (Bool-cases (is_space c && is_empty (trim_end s))) [
  | inl gone ↦ rw gone refl
  | inr kept ↦ rw kept (rw (trim_end_idempotent s) (rw kept refl))
]

pub trim_idempotent : (s : Text) → trim (trim s) ≡ trim s
unfolding trim
trim_idempotent s =
    ap trim_end (
      trim_start-eq_self (trim_end (trim_start s))
        (trim_end-IsStarted (trim_start s) (trim_start-IsStarted s)))
    ∙ trim_end_idempotent (trim_start s)

trim_end-eq_self : (s : Text) → All (λ c. is_space c ≡ false) s → trim_end s ≡ s
unfolding trim_end
trim_end-eq_self [] h = refl
trim_end-eq_self (c ∷ s) (p, h) = rw p (ap (λ t. c ∷ t) (trim_end-eq_self s h))

pub trim-eq_self : (s : Text) → All (λ c. is_space c ≡ false) s → trim s ≡ s
unfolding trim
trim-eq_self [] h = refl
trim-eq_self (c ∷ s) (p, h) =
    ap trim_end (trim_start-eq_self (c ∷ s) p) ∙ trim_end-eq_self (c ∷ s) (p, h)
