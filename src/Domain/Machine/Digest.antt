-- ===== src/Domain/Machine/Digest.antt =====
-- The comparison of hexadecimal digests, `safeEqualHex` of state-machine.ts.
use pooli.Base.{
  ℕ, ◌+◌, ◌%◌, sym, ◌∙◌, ◌*◌, ◌-◌, ◌≤◌, ◌<◌, true, List, [], ◌∷◌, some, Text, All, length,
  text_eq_iff, ◌≡◌, ◌≢◌, ◌↔◌, inl, inr, refl, ap, arith, leb, is_digit, Bool-cases, if◌then◌else◌,
}
use pooli.Domain.Platform.{Platform, IsStandard, is_hex_lower}
use pooli.Domain.Canonical.{hex_value, from_hex}
use pooli.Domain.Machine.{same_bytes, safe_equal_hex}

same_bytes_iff : (x y : List ℕ) → (same_bytes x y ≡ true) ↔ ((x ≡ y) × (x ≢ []))
same_bytes_iff [] y = (λ h. absurd (ground arith), λ h. absurd (h.1 refl))
same_bytes_iff (a ∷ x) [] = (λ h. absurd (ground arith), λ h. absurd (cc (h.0)))
same_bytes_iff (a ∷ x) (b ∷ y) = (
  λ h. ((text_eq_iff (a ∷ x) (b ∷ y)).0 (ground arith), λ e. cc),
  λ h. ground (arith, text_eq_iff (a ∷ x) (b ∷ y), ap length (h.0)),
)

-- `safeEqualHex` is equality of the decoded bytes, if there are any.
pub safe_equal_hex_iff :
    (a b : Text) → (safe_equal_hex a b ≡ true) ↔ ((from_hex a ≡ from_hex b) × (from_hex a ≢ []))
unfolding safe_equal_hex
safe_equal_hex_iff a b = same_bytes_iff (from_hex a) (from_hex b)

-- The value of a digit, and the digit back from it.
hex_value_lower :
    (c : ℕ)
    → is_hex_lower c ≡ true
    → (v : ℕ) × (hex_value c ≡ some v) × (v < 16) × (c ≡ (if leb v 9 then 48 + v else 87 + v))
unfolding hex_value
hex_value_lower c h = elim (Bool-cases (is_digit c)) [
  | inl d ↦ (c - 48, ground arith, ground arith, ground arith)
  | inr d ↦ (c - 87, ground arith, ground arith, ground arith)
]

abbrev AllHex : Text → Type 0
AllHex = All (λ c. is_hex_lower c ≡ true)

from_hex-cons :
    (a b : ℕ) (s : Text)
    → is_hex_lower a ≡ true
    → is_hex_lower b ≡ true
    → (x y : ℕ) × (x < 16)
      × (y < 16)
      × (a ≡ (if leb x 9 then 48 + x else 87 + x))
      × (b ≡ (if leb y 9 then 48 + y else 87 + y))
      × (from_hex (a ∷ b ∷ s) ≡ (16 * x + y) ∷ from_hex s)
unfolding from_hex
from_hex-cons a b s h k =
    let (x, ex, lx, ax) = hex_value_lower a h in
    let (y, ey, ly, ay) = hex_value_lower b k in (x, y, lx, ly, ax, ay, rw (ex, ey) refl)

cons-injective : (x y : ℕ) (s t : List ℕ) → ◌≡◌ {A = List ℕ} (x ∷ s) (y ∷ t) → (x ≡ y) × (s ≡ t)
cons-injective x y s t h = (cc, cc)

-- Decoding loses nothing of a text of pairs of digits in lower case.
from_hex-injective :
    (s t : Text)
    → AllHex s
    → AllHex t
    → length s % 2 ≡ 0
    → length s ≡ length t
    → from_hex s ≡ from_hex t
    → s ≡ t
from_hex-injective [] [] h k m l e = refl
from_hex-injective (a ∷ b ∷ s) (a' ∷ b' ∷ t) (ha, (hb, h)) (ka, (kb, k)) m l e =
    let (x, y, lx, ly, ax, ay, es) = from_hex-cons a b s ha hb in
    let (x', y', lx', ly', ax', ay', et) = from_hex-cons a' b' t ka kb in
    let (head, tails) = cons-injective _ _ _ _ (sym es ∙ (e ∙ et)) in
    let xs : x ≡ x' = omega arith in
    let ys : y ≡ y' = omega arith in
    let rest = from_hex-injective s t h k (omega arith) (omega arith) tails in
    cc (ax, ay, ax', ay', xs, ys, rest)
from_hex-injective [] (_ ∷ _) h k m l e = absurd (omega arith)
from_hex-injective (_ ∷ _) [] h k m l e = absurd (omega arith)
from_hex-injective (_ ∷ []) (_ ∷ t) h k m l e = absurd (omega arith)
from_hex-injective (_ ∷ _ ∷ s) (_ ∷ []) h k m l e = absurd (omega arith)

from_hex-ne-nil : (s : Text) → AllHex s → 2 ≤ length s → from_hex s ≢ []
from_hex-ne-nil [] h l e = absurd (omega arith)
from_hex-ne-nil (a ∷ []) h l e = absurd (omega arith)
from_hex-ne-nil (a ∷ b ∷ s) (ha, (hb, h)) l e =
    let (x, y, _, _, _, _, es) = from_hex-cons a b s ha hb in cc

-- With a standard platform, safeEqualHex accepts two SHA-256 digests exactly if their texts are
-- equal.
pub safe_equal_hex-sha256_iff :
    (env : Platform) (s t : Text)
    → IsStandard env
    → (safe_equal_hex (env.sha256_hex s) (env.sha256_hex t) ≡ true)
      ↔ (env.sha256_hex s ≡ env.sha256_hex t)
safe_equal_hex-sha256_iff env s t std =
    let (to, from) = safe_equal_hex_iff (env.sha256_hex s) (env.sha256_hex t) in
    let ls = std.digest_length s in
    let lt = std.digest_length t in
    (
      λ h.
          from_hex-injective _ _ (std.digest_hex s) (std.digest_hex t) (rw ls refl) (ls ∙ sym lt)
            (to h).0,
      λ e. from (ap from_hex e, from_hex-ne-nil _ (std.digest_hex s) (omega arith)),
    )
