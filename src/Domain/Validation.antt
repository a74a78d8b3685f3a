-- ===== src/Domain/Validation.antt =====
-- apps/action-gateway/src/domain/validation.ts. Each regular expression is a function that decides
-- whether it matches; the two alternatives with spaces of `PAID_CLAIM_RE` are matched by unit.
pub mod Sanitize
pub mod Lint
pub mod Clean
pub mod Laws
use Prim.Native.String
use pooli.Base.{
  ℕ, zero, suc, ◌+◌, ◌-◌, Bool, true, false, not, ◌&&◌, ◌||◌, List, [], ◌∷◌, ◌++◌, map, Option,
  none, some, any, every, String, Text, codes, text_eq, is_empty, is_digit, is_lower, is_upper,
  is_space, trim, length, take, drop, leb, ltb, ◌==◌, if◌then◌else◌, ◌≡◌, refl,
}
use pooli.Domain.Platform.{Platform}
use pooli.Domain.Types.{
  MessageDraftPayload, validation_failed, Result, ok, fail, err, ◌>>=◌, ◌>>◌, require,
}
use Sanitize.{sanitize_body}
use Lint.{lint_false_paid_claim}

abbrev pub max_body_len : ℕ
max_body_len = 2000

abbrev pub is_slug_unit : ℕ → Bool
is_slug_unit c = is_lower c || is_digit c || c == b'-'

-- `/^[a-z0-9][a-z0-9-]{1,62}$/`
unfoldable pub is_slug : Text → Bool
unfolding every
is_slug [] = false
is_slug (c ∷ s) =
    (is_lower c || is_digit c) && leb 1 (length s) && leb (length s) 62 && every is_slug_unit s

abbrev pub is_id_unit : ℕ → Bool
is_id_unit c = is_upper c || is_lower c || is_digit c || c == b'_' || c == b'-'

-- `/^[A-Za-z0-9_-]{4,64}$/`
unfoldable pub is_order_id : Text → Bool
unfolding every
is_order_id s = leb 4 (length s) && leb (length s) 64 && every is_id_unit s

abbrev pub is_hex_unit : ℕ → Bool
is_hex_unit c = is_digit c || (leb b'a' c && leb c b'f') || (leb b'A' c && leb c b'F')

-- The groups of a pattern: so many hexadecimal digits, a dash between two groups.
unfoldable pub matches_groups : List ℕ → Text → Bool
unfolding every
matches_groups [] s = is_empty s
matches_groups (n ∷ []) s = length s == n && every is_hex_unit s
matches_groups (n ∷ m ∷ ns) s =
    length (take n s) == n
    && every is_hex_unit (take n s)
    && text_eq (take 1 (drop n s)) (b'-' ∷ [])
    && matches_groups (m ∷ ns) (drop (suc n) s)

-- `/^[0-9a-f]{8}-[0-9a-f]{4}-[0-9a-f]{4}-[0-9a-f]{4}-[0-9a-f]{12}$/i`
unfoldable pub is_merchant_id : Text → Bool
unfolding matches_groups
is_merchant_id s = matches_groups (8 ∷ 4 ∷ 4 ∷ 4 ∷ 12 ∷ []) s

abbrev pub locales : List Text
locales = codes "en" ∷ codes "fa" ∷ []

abbrev pub payment_statuses : List Text
payment_statuses =
    codes "AWAITING_PAYMENT"
    ∷ codes "PAID"
    ∷ codes "UNDERPAID"
    ∷ codes "NEEDS_REVIEW"
    ∷ codes "EXPIRED"
    ∷ codes "CANCELLED"
    ∷ []

-- `set.has(s)`
unfoldable pub has : List Text → Text → Bool
unfolding any
has set s = any (text_eq s) set

unfoldable pub validate_message_draft : Platform → MessageDraftPayload → Result MessageDraftPayload
validate_message_draft env p =
    let order_id = trim p.order_id in
    let order_slug = env.to_lower (trim p.order_slug) in
    let locale = env.to_lower (trim p.locale) in
    let payment_status = env.to_upper (trim p.payment_status) in
    let merchant_id = trim p.merchant_id in
    let body = sanitize_body p.body in
    do
      require (is_order_id order_id) validation_failed "order id is not in a valid format"
      require (is_empty merchant_id || is_merchant_id merchant_id) validation_failed
          "merchant id is not in a valid format"
      require (is_slug order_slug) validation_failed "order slug is not in a valid format"
      require (has locales locale) validation_failed "unsupported locale"
      require (has payment_statuses payment_status) validation_failed "unsupported payment status"
      require (leb 1 (length body)) validation_failed "message body is required"
      require (leb (length body) max_body_len) validation_failed
          "message must be 2000 characters or fewer"
      lint_false_paid_claim body payment_status
      ok (record {
        order_id = order_id;
        order_slug = order_slug;
        merchant_id = merchant_id;
        body = body;
        locale = locale;
        payment_status = payment_status;
      })
