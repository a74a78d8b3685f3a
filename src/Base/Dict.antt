-- ===== src/Base/Dict.antt =====
-- A JavaScript `Map` with string keys, as a list of entries in insertion order.
use mathlib.Core.Path.{◌≡◌, refl, sym, subst, ◌∙◌}
use mathlib.Core.Bool.{false}
use mathlib.Core.List.{List, [], ◌∷◌}
use mathlib.Core.Option.{Option, none, some}
use native.Mathlib.Omega.{arith}
use mathlib.Core.Logic.{inl, inr}
use pooli.Base.Tests.{if◌then◌else◌, Bool-cases}
use pooli.Base.Strings.{Text, text_eq, text_eq_iff, text_eq_refl}

abbrev pub Dict {ℓ} : Type ℓ → Type ℓ
Dict V = List (Text × V)

module _ {ℓ} {V : Type ℓ} where
  -- `m.get(k)`
  unfoldable pub lookup : Text → Dict V → Option V
  lookup k [] = none
  lookup k ((j, v) ∷ m) = if text_eq j k then some v else lookup k m

  -- `m.set(k, v)`
  unfoldable pub insert : Text → V → Dict V → Dict V
  insert k v [] = (k, v) ∷ []
  insert k v ((j, w) ∷ m) = if text_eq j k then (j, v) ∷ m else (j, w) ∷ insert k v m

  -- `m.delete(k)`
  unfoldable pub erase : Text → Dict V → Dict V
  erase k [] = []
  erase k ((j, w) ∷ m) = let rest = erase k m in if text_eq j k then rest else (j, w) ∷ rest

  pub lookup-insert :
      (k j : Text) (v : V) (m : Dict V)
      → lookup j (insert k v m) ≡ (if text_eq k j then some v else lookup j m)
  unfolding lookup insert
  lookup-insert k j v [] = refl
  lookup-insert k j v ((i, w) ∷ m) =
      ground (arith, text_eq_iff k j, text_eq_iff i k, text_eq_iff i j, lookup-insert k j v m)

  pub lookup-insert_self : (k : Text) (v : V) (m : Dict V) → lookup k (insert k v m) ≡ some v
  lookup-insert_self k v m = simp (lookup-insert, text_eq_refl)

  pub lookup-erase :
      (k j : Text) (m : Dict V) → lookup j (erase k m) ≡ (if text_eq k j then none else lookup j m)
  unfolding lookup erase
  lookup-erase k j [] = ground arith
  lookup-erase k j ((i, w) ∷ m) =
      ground (arith, text_eq_iff k j, text_eq_iff i k, text_eq_iff i j, lookup-erase k j m)

  pub lookup-nil : (k : Text) → lookup k [] ≡ none
  unfolding lookup
  lookup-nil k = refl

  pub lookup-insert_other :
      (k j : Text) (v : V) (m : Dict V) → text_eq k j ≡ false → lookup j (insert k v m) ≡ lookup j m
  lookup-insert_other k j v m h = lookup-insert k j v m ∙ rw h refl

  pub lookup-erase_self : (k : Text) (m : Dict V) → lookup k (erase k m) ≡ none
  lookup-erase_self k m = lookup-erase k k m ∙ rw (text_eq_refl k) refl

  pub lookup-erase-none :
      (k j : Text) (m : Dict V) → lookup j m ≡ none → lookup j (erase k m) ≡ none
  lookup-erase-none k j m h = ground (arith, lookup-erase k j m)

-- A property of every value that is stored.
abbrev pub Each {ℓ} : {V : Type ℓ} → (V → Type 0) → Dict V → Type ℓ
Each {V = V} P m = (k : Text) (v : V) → lookup k m ≡ some v → P v

some_eq {ℓ} : {A : Type ℓ} (a b : A) → some a ≡ some b → a ≡ b
some_eq a b h = cc

module _ {ℓ} {V : Type ℓ} (P : V → Type 0) where
  pub nil-Each : Each P []
  unfolding lookup
  nil-Each k v h = absurd (ground arith)

  pub insert-Each : (k : Text) (v : V) (m : Dict V) → P v → Each P m → Each P (insert k v m)
  insert-Each k v m p each j w h = elim (Bool-cases (text_eq k j)) [
    | inl same ↦
        let read : some v ≡ some w = sym (lookup-insert k j v m ∙ rw same refl) ∙ h in
        subst P (some_eq v w read) p
    | inr other ↦ each j w (sym (lookup-insert_other k j v m other) ∙ h)
  ]

  pub erase-Each : (k : Text) (m : Dict V) → Each P m → Each P (erase k m)
  erase-Each k m each j w h = elim (Bool-cases (text_eq k j)) [
    | inl same ↦ absurd (ground (arith, lookup-erase k j m))
    | inr other ↦ each j w (ground (arith, lookup-erase k j m))
  ]
