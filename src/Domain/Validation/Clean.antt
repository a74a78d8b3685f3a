-- ===== src/Domain/Validation/Clean.antt =====
-- The texts that `sanitizeBody` of validation.ts makes.
use pooli.Base.{
  ℕ, Bool, true, false, ◌&&◌, [], ◌∷◌, map, Text, is_space, is_empty, trim, trim_start, trim_end,
  if◌then◌else◌, Bool-cases, ◌≡◌, refl, ap, ◌∙◌, inl, inr, arith,
}
use mathlib.Core.Path.{subst}
use pooli.Base.Strings.Trim.{trim_idempotent}
use pooli.Domain.Validation.Sanitize.{is_control, blank_control, collapse, sanitize_body}

-- No controls, no space but U+0020, and no two of those in a row; the flag says that the unit
-- before is a space.
abbrev pub IsSpaced : Bool → Text → Type 0
IsSpaced after_space [] = Unit
IsSpaced after_space (c ∷ s) =
    (is_control c ≡ false)
    × (is_space c ≡ true → (c ≡ 32) × (after_space ≡ false))
    × IsSpaced (is_space c) s

IsSpaced-relax : (b : Bool) (s : Text) → IsSpaced true s → IsSpaced b s
IsSpaced-relax b [] h = tt
IsSpaced-relax b (c ∷ s) (k, f, h) = (k, λ e. ((f e).0, ground (arith, f e)), h)

blank_control-ne : (c : ℕ) → is_control (blank_control c) ≡ false
blank_control-ne c = ground arith

collapse_run :
    (b : Bool) (rest : Text) → IsSpaced true rest → IsSpaced b (if b then rest else 32 ∷ rest)
unfolding is_space
collapse_run true rest h = h
collapse_run false rest h = (refl, λ e. (refl, refl), h)

collapse_unit :
    (b : Bool) (d : ℕ) (rest : Text)
    → is_control d ≡ false
    → IsSpaced (is_space d) rest
    → IsSpaced b (if is_space d then (if b then rest else 32 ∷ rest) else d ∷ rest)
collapse_unit b d rest k h = elim (Bool-cases (is_space d)) [
  | inl space ↦ rw space (collapse_run b rest (subst (λ x. IsSpaced x rest) space h))
  | inr solid ↦ rw solid (k, λ e. cc, h)
]

collapse-IsSpaced : (b : Bool) (s : Text) → IsSpaced b (collapse b (map blank_control s))
unfolding collapse
collapse-IsSpaced b [] = tt
collapse-IsSpaced b (c ∷ s) =
    collapse_unit b (blank_control c) _ (blank_control-ne c)
      (collapse-IsSpaced (is_space (blank_control c)) s)

trim_start-IsSpaced : (b : Bool) (s : Text) → IsSpaced b s → IsSpaced true (trim_start s)
unfolding trim_start
trim_start-IsSpaced b [] h = tt
trim_start-IsSpaced b (c ∷ s) (k, f, h) = elim (Bool-cases (is_space c)) [
  | inl space ↦ rw space (trim_start-IsSpaced (is_space c) s h)
  | inr solid ↦ rw solid (k, λ e. cc, h)
]

trim_end-IsSpaced : (b : Bool) (s : Text) → IsSpaced b s → IsSpaced b (trim_end s)
unfolding trim_end
trim_end-IsSpaced b [] h = tt
trim_end-IsSpaced b (c ∷ s) (k, f, h) = elim (Bool-cases (is_space c && is_empty (trim_end s))) [
  | inl gone ↦ rw gone tt
  | inr kept ↦ rw kept (k, f, trim_end-IsSpaced (is_space c) s h)
]

map-blank_control : (b : Bool) (s : Text) → IsSpaced b s → map blank_control s ≡ s
map-blank_control b [] h = refl
map-blank_control b (c ∷ s) (k, f, h) =
    cc (let e : blank_control c ≡ c = ground arith in e, map-blank_control (is_space c) s h)

collapse-eq_self : (b : Bool) (s : Text) → IsSpaced b s → collapse b s ≡ s
unfolding collapse
collapse-eq_self b [] h = refl
collapse-eq_self b (c ∷ s) (k, f, h) = elim (Bool-cases (is_space c)) [
  | inl space ↦ let (is_blank, first) = f space in ground (arith, collapse-eq_self (is_space c) s h)
  | inr solid ↦ ground (arith, collapse-eq_self (is_space c) s h)
]

-- A cleaned body has no controls, no space but U+0020, no two of those in a row, and none at
-- either end.
pub sanitize_body-IsSpaced :
    (raw : Text)
    → IsSpaced true (sanitize_body raw) × (trim (sanitize_body raw) ≡ sanitize_body raw)
unfolding sanitize_body
sanitize_body-IsSpaced raw = (
  trim_end-IsSpaced true _ (trim_start-IsSpaced false _ (collapse-IsSpaced false raw)),
  trim_idempotent (collapse false (map blank_control raw)),
)

-- Cleaning a second time changes nothing.
pub sanitize_body_idempotent : (raw : Text) → sanitize_body (sanitize_body raw) ≡ sanitize_body raw
sanitize_body_idempotent raw =
    let (spaced, trimmed) = sanitize_body-IsSpaced raw in
    let loose = IsSpaced-relax false (sanitize_body raw) spaced in
    unfold sanitize_body in
    ap (λ s. trim (collapse false s)) (map-blank_control false _ loose)
    ∙ (ap trim (collapse-eq_self false _ loose) ∙ trimmed)
