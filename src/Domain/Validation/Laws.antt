-- ===== src/Domain/Validation/Laws.antt =====
-- The drafts that `validateMessageDraft` of validation.ts lets through.
use pooli.Base.{
  ℕ, ◌≤◌, ◌<◌, true, false, ◌||◌, List, [], ◌∷◌, map-eq_self, every-All, any-elim, All-imp, Text,
  codes, All, is_space, is_empty, text_eq, text_eq_iff, trim, length, Bool-cases, ◌≡◌, ◌⊎◌, ap, sym,
  ◌∙◌, inl, inr, arith, none,
}
use mathlib.Core.Path.{subst}
use pooli.Base.Strings.Trim.{trim_idempotent, trim-eq_self}
use pooli.Domain.Platform.{Platform, IsStandard, ascii_lower}
use pooli.Domain.Types.{MessageDraftPayload, ok, error_code}
use pooli.Domain.Validation.Sanitize.{sanitize_body}
use pooli.Domain.Validation.Clean.{IsSpaced, sanitize_body-IsSpaced, sanitize_body_idempotent}
use pooli.Domain.Validation.Lint.{claims_paid, lint_false_paid_claim}
use pooli.Domain.Validation.{
  max_body_len, is_slug, is_slug_unit, is_order_id, is_id_unit, is_merchant_id, has, locales,
  payment_statuses, validate_message_draft,
}

-- The normal form of a draft.
unfoldable pub normal : Platform → MessageDraftPayload → MessageDraftPayload
normal env p = record {
  order_id = trim p.order_id;
  order_slug = env.to_lower (trim p.order_slug);
  merchant_id = trim p.merchant_id;
  body = sanitize_body p.body;
  locale = env.to_lower (trim p.locale);
  payment_status = env.to_upper (trim p.payment_status);
}

-- The tests, on a draft in normal form.
pub record IsAccepted (q : MessageDraftPayload) : Type 0 where
  order_id : is_order_id q.order_id ≡ true
  merchant_id : (is_empty q.merchant_id || is_merchant_id q.merchant_id) ≡ true
  order_slug : is_slug q.order_slug ≡ true
  locale : has locales q.locale ≡ true
  payment_status : has payment_statuses q.payment_status ≡ true
  required : 1 ≤ length q.body
  bounded : length q.body ≤ max_body_len
  honest : (q.payment_status ≡ codes "PAID") ⊎ (claims_paid q.body ≡ false)

lint_ok :
    (body status : Text)
    → error_code (lint_false_paid_claim body status) ≡ none
    → (status ≡ codes "PAID") ⊎ (claims_paid body ≡ false)
unfolding lint_false_paid_claim
lint_ok body status h = elim (Bool-cases (text_eq status (codes "PAID"))) [
  | inl paid ↦ inl ((text_eq_iff status (codes "PAID")).0 paid)
  | inr other ↦ inr (ground arith)
]

pub validate_ok :
    (env : Platform) (p : MessageDraftPayload) {q : MessageDraftPayload}
    → validate_message_draft env p ≡ ok q
    → (q ≡ normal env p) × IsAccepted (normal env p)
unfolding validate_message_draft normal
validate_ok env p h = (
  ground arith,
  record {
    order_id = ground arith;
    merchant_id = ground arith;
    order_slug = ground arith;
    locale = ground arith;
    payment_status = ground arith;
    required = ground arith;
    bounded = ground arith;
    honest = lint_ok _ _ (ground arith);
  },
)

validate_of_IsAccepted :
    (env : Platform) (p : MessageDraftPayload)
    → IsAccepted (normal env p)
    → validate_message_draft env p ≡ ok (normal env p)
unfolding validate_message_draft normal lint_false_paid_claim
validate_of_IsAccepted env p a =
    ground (arith, text_eq_iff (env.to_upper (trim p.payment_status)) (codes "PAID"))

-- The body of an accepted draft has from 1 to 2000 units, no control characters, no spaces but
-- U+0020, no two of these in a row and none at an end; and unless the payment status is PAID it
-- does not match the expression for claims of payment.
pub validate_body :
    (env : Platform) (p q : MessageDraftPayload)
    → validate_message_draft env p ≡ ok q
    → (1 ≤ length q.body)
      × (length q.body ≤ 2000)
      × IsSpaced true q.body
      × (trim q.body ≡ q.body)
      × ((q.payment_status ≡ codes "PAID") ⊎ (claims_paid q.body ≡ false))
validate_body env p q h =
    let (e, a) = validate_ok env p h in
    let (spaced, trimmed) = sanitize_body-IsSpaced p.body in
    rw e (a.required, a.bounded, unfold normal in spaced, unfold normal in trimmed, a.honest)

id_unit_solid : (c : ℕ) → is_id_unit c ≡ true → is_space c ≡ false
unfolding is_space
id_unit_solid c h = ground arith

slug_unit_plain :
    (c : ℕ) → is_slug_unit c ≡ true → (is_space c ≡ false) × (c < 128) × (ascii_lower c ≡ c)
unfolding is_space
slug_unit_plain c h = (ground arith, ground arith, ground arith)

is_slug-All : (s : Text) → is_slug s ≡ true → All (λ c. is_slug_unit c ≡ true) s
unfolding is_slug
is_slug-All [] h = cc
is_slug-All (c ∷ s) h = (ground arith, every-All is_slug_unit s (ground arith))

slug-fixed :
    (env : Platform) (s : Text) → IsStandard env → is_slug s ≡ true → env.to_lower (trim s) ≡ s
slug-fixed env s std h =
    let units = is_slug-All s h in
    let solid = All-imp _ _ s (λ c k. (slug_unit_plain c k).0) units in
    let ascii = All-imp _ _ s (λ c k. (slug_unit_plain c k).1) units in
    let lower = All-imp _ _ s (λ c k. (slug_unit_plain c k).2) units in
    ap env.to_lower (trim-eq_self s solid)
    ∙ (std.lower_ascii s ascii ∙ map-eq_self ascii_lower s lower)

-- A text that is one of a set of plain texts is left alone by a map that leaves those alone.
has-fixed :
    (f : Text → Text) (set : List Text) (s : Text)
    → has set s ≡ true
    → All (λ t. f t ≡ t) set
    → f s ≡ s
unfolding has
has-fixed f set s h a =
    any-elim (text_eq s) (λ t. f t ≡ t) (f s ≡ s) set h a
      (λ t same fixed. let e = (text_eq_iff s t).0 same in rw e fixed)

locales-fixed : (env : Platform) → IsStandard env → All (λ t. env.to_lower (trim t) ≡ t) locales
unfolding trim is_space
locales-fixed env std =
    (std.lower_ascii (codes "en") (omega arith), (std.lower_ascii (codes "fa") (omega arith), tt))

statuses-fixed :
    (env : Platform) → IsStandard env → All (λ t. env.to_upper (trim t) ≡ t) payment_statuses
unfolding trim is_space
statuses-fixed env std = (
  std.upper_ascii (codes "AWAITING_PAYMENT") (omega arith),
  (
    std.upper_ascii (codes "PAID") (omega arith),
    (
      std.upper_ascii (codes "UNDERPAID") (omega arith),
      (
        std.upper_ascii (codes "NEEDS_REVIEW") (omega arith),
        (
          std.upper_ascii (codes "EXPIRED") (omega arith),
          (std.upper_ascii (codes "CANCELLED") (omega arith), tt),
        ),
      ),
    ),
  ),
)

normal_idempotent :
    (env : Platform) (p : MessageDraftPayload)
    → IsStandard env
    → IsAccepted (normal env p)
    → normal env (normal env p) ≡ normal env p
unfolding normal
normal_idempotent env p std a = cc (
  trim_idempotent p.order_id,
  trim_idempotent p.merchant_id,
  slug-fixed env _ std a.order_slug,
  sanitize_body_idempotent p.body,
  has-fixed (λ t. env.to_lower (trim t)) locales _ a.locale (locales-fixed env std),
  has-fixed (λ t. env.to_upper (trim t)) payment_statuses _ a.payment_status
      (statuses-fixed env std),
)

-- With a standard platform, a draft that validation has returned is accepted again and returned
-- unchanged.
pub validate_idempotent :
    (env : Platform) (p q : MessageDraftPayload)
    → IsStandard env
    → validate_message_draft env p ≡ ok q
    → validate_message_draft env q ≡ ok q
validate_idempotent env p q std h =
    let (e, a) = validate_ok env p h in
    let fixed = normal_idempotent env p std a in
    rw e (rw fixed at (validate_of_IsAccepted env (normal env p) (subst IsAccepted (sym fixed) a)))
