-- ===== src/Agent/Redact/Secrecy.antt =====
-- Payloads of redact.ts that differ in their secrets.
use pooli.Base.{
  ℕ, suc, Bool, true, false, [], ◌∷◌, Text, Bool-cases, inl, inr, ◌≡◌, refl, sym, ◌∙◌, length,
  arith, is_empty,
}
use pooli.Domain.Platform.{Platform}
use pooli.Agent.Redact.{
  Value, absent, text, other, array, object, Items, end, item, Members, done, member, is_secret_key,
  spell, shape, describe_text, describe_secret, redact, redact_items, redact_members,
}

-- Two texts that a description does not tell apart.
pub record IsAlike (s t : Text) : Type 0 where
  pub same_length : length s ≡ length t
  pub same_shape : shape s ≡ shape t

abbrev pub is_absent : Value → Bool
is_absent absent = true
is_absent v = false

-- Two secret values of which a log may not tell one from the other.
pub record AreSecretsAlike (v w : Value) : Type 0 where
  pub same_presence : is_absent v ≡ is_absent w
  pub spelled : IsAlike (spell v) (spell w)

-- Two payloads that agree but for the values under secret keys, which are alike.
mutual
  pub data DifferInSecrets (env : Platform) : Value → Value → Type 0 where
    same : (v : Value) → DifferInSecrets env v v
    arrays : (xs ys : Items) → DifferInItems env xs ys → DifferInSecrets env (array xs) (array ys)
    objects :
        (ms ns : Members) → DifferInMembers env ms ns → DifferInSecrets env (object ms) (object ns)

  pub data DifferInItems (env : Platform) : Items → Items → Type 0 where
    ends : DifferInItems env end end
    items :
        (v w : Value) (xs ys : Items)
        → DifferInSecrets env v w
        → DifferInItems env xs ys
        → DifferInItems env (item v xs) (item w ys)

  pub data DifferInMembers (env : Platform) : Members → Members → Type 0 where
    dones : DifferInMembers env done done
    secret_members :
        (k : Text) (v w : Value) (ms ns : Members)
        → is_secret_key env k ≡ true
        → AreSecretsAlike v w
        → DifferInMembers env ms ns
        → DifferInMembers env (member k v ms) (member k w ns)
    plain_members :
        (k : Text) (v w : Value) (ms ns : Members)
        → is_secret_key env k ≡ false
        → DifferInSecrets env v w
        → DifferInMembers env ms ns
        → DifferInMembers env (member k v ms) (member k w ns)

is_empty-alike : (s t : Text) → length s ≡ length t → is_empty s ≡ is_empty t
is_empty-alike [] [] h = refl
is_empty-alike (a ∷ s) (b ∷ t) h = refl
is_empty-alike _ _ h = absurd (omega arith)

describe_text-alike : (s t : Text) → IsAlike s t → describe_text s ≡ describe_text t
describe_text-alike s t h = rw (is_empty-alike s t h.same_length, h.same_length, h.same_shape) refl

is_absent-eq : (v : Value) → is_absent v ≡ true → v ≡ absent
is_absent-eq absent h = refl
is_absent-eq (text s) h = cc
is_absent-eq (other s) h = cc
is_absent-eq (array xs) h = cc
is_absent-eq (object ms) h = cc

describe_secret-present :
    (v : Value) → is_absent v ≡ false → describe_secret v ≡ describe_text (spell v)
unfolding describe_secret
describe_secret-present absent h = cc
describe_secret-present (text s) h = refl
describe_secret-present (other s) h = refl
describe_secret-present (array xs) h = refl
describe_secret-present (object ms) h = refl

describe_secret-alike : (v w : Value) → AreSecretsAlike v w → describe_secret v ≡ describe_secret w
unfolding describe_secret
describe_secret-alike v w h = elim (Bool-cases (is_absent v)) [
  | inl nothing ↦ cc (is_absent-eq v nothing, is_absent-eq w (sym h.same_presence ∙ nothing))
  | inr something ↦
      describe_secret-present v something
      ∙ describe_text-alike (spell v) (spell w) h.spelled
      ∙ sym (describe_secret-present w (sym h.same_presence ∙ something))
]

mutual
  unfolding redact redact_items redact_members

  redact-alike :
      (env : Platform) (v w : Value) (depth : ℕ)
      → DifferInSecrets env v w
      → redact env v depth ≡ redact env w depth
  redact-alike env v w depth (same _) = refl
  redact-alike env v w depth (arrays xs ys d) = rw (redact_items-alike env xs ys (suc depth) d) refl
  redact-alike env v w depth (objects ms ns d) =
      rw (redact_members-alike env ms ns (suc depth) d) refl

  redact_items-alike :
      (env : Platform) (xs ys : Items) (depth : ℕ)
      → DifferInItems env xs ys
      → redact_items env xs depth ≡ redact_items env ys depth
  redact_items-alike env _ _ depth ends = refl
  redact_items-alike env _ _ depth (items v w xs ys d ds) =
      cc (redact-alike env v w depth d, redact_items-alike env xs ys depth ds)

  redact_members-alike :
      (env : Platform) (ms ns : Members) (depth : ℕ)
      → DifferInMembers env ms ns
      → redact_members env ms depth ≡ redact_members env ns depth
  redact_members-alike env _ _ depth dones = refl
  redact_members-alike env _ _ depth (secret_members k v w ms ns secret alike ds) =
      rw (secret, describe_secret-alike v w alike, redact_members-alike env ms ns depth ds) refl
  redact_members-alike env _ _ depth (plain_members k v w ms ns plain d ds) =
      rw (plain, redact-alike env v w depth d, redact_members-alike env ms ns depth ds) refl

-- Two log payloads that differ only in values under secret keys, where the two values are both
-- absent or both present and have texts of the same length and shape, are redacted to the same
-- value, from every depth.
pub redact_noninterference :
    (env : Platform) (v w : Value) (depth : ℕ)
    → DifferInSecrets env v w
    → redact env v depth ≡ redact env w depth
redact_noninterference env v w depth d = redact-alike env v w depth d
