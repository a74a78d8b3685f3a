-- ===== src/Domain/Validation/Lint.antt =====
-- `PAID_CLAIM_RE` and `lintFalsePaidClaim` of validation.ts. With the flags `iu` units are compared
-- by simple case folding, under which U+017F is an `s` and U+212A a `k`, for `\b` too.
use pooli.Base.{
  ℕ, ◌+◌, Bool, false, not, ◌&&◌, ◌||◌, List, [], ◌∷◌, Text, codes, text_eq, is_space, starts_with,
  is_upper, is_lower, is_digit, any, ◌==◌, if◌then◌else◌,
}
use pooli.Domain.Types.{validation_failed, Result, ok, err}

abbrev pub fold : ℕ → ℕ
fold c = if is_upper c then c + 32 else if c == 0x17f then b's' else if c == 0x212a then b'k' else c

-- `\w` under the flags `iu`
abbrev pub is_word_unit : ℕ → Bool
is_word_unit c = is_lower (fold c) || is_digit c || c == b'_'

-- Whether the text begins with a word unit.
abbrev pub word_ahead : Text → Bool
word_ahead [] = false
word_ahead (c ∷ s) = is_word_unit c

-- A phrase at the head of a text and `\b` behind it. The phrases end in a letter.
unfoldable pub phrase_here : Text → Text → Bool
phrase_here [] s = not (word_ahead s)
phrase_here (a ∷ w) [] = false
phrase_here (a ∷ w) (c ∷ s) = fold c == a && phrase_here w s

abbrev pub paid_phrases : List Text
paid_phrases =
    codes "paid"
    ∷ codes "payment received"
    ∷ codes "payment confirmed"
    ∷ codes "payment is confirmed"
    ∷ codes "received your payment"
    ∷ codes "payment in full"
    ∷ []

-- `\s*` and then a word, at the head of a text. The words begin with a letter.
unfoldable pub spaced_word : Text → Text → Bool
unfolding starts_with is_space
spaced_word v [] = starts_with [] v
spaced_word v (c ∷ s) =
    let more = spaced_word v s in if is_space c then more else starts_with (c ∷ s) v

-- A word, `\s*`, and another word, at the head of a text.
unfoldable pub spaced_here : Text → Text → Text → Bool
unfolding spaced_word
spaced_here [] v s = spaced_word v s
spaced_here (a ∷ w) v [] = false
spaced_here (a ∷ w) v (c ∷ s) = c == a && spaced_here w v s

-- The Persian words of the expression, "payment", "deposit" and "done", by their code points.
abbrev pub payment_word : Text
payment_word = 0x67e ∷ 0x631 ∷ 0x62f ∷ 0x627 ∷ 0x62e ∷ 0x62a ∷ []

abbrev pub deposit_word : Text
deposit_word = 0x648 ∷ 0x627 ∷ 0x631 ∷ 0x6cc ∷ 0x632 ∷ []

abbrev pub done_word : Text
done_word = 0x634 ∷ 0x62f ∷ []

-- The alternatives of the expression, at the head of a text; the flag says whether the unit before
-- is a word unit, for `\b`.
unfoldable pub claim_here : Bool → Text → Bool
unfolding phrase_here spaced_here any
claim_here after_word s =
    (not after_word && any (λ w. phrase_here w s) paid_phrases)
    || spaced_here payment_word done_word s
    || spaced_here deposit_word done_word s

unfoldable pub claims_paid_from : Bool → Text → Bool
unfolding claim_here
claims_paid_from after_word [] = claim_here after_word []
claims_paid_from after_word (c ∷ s) =
    claim_here after_word (c ∷ s) || claims_paid_from (is_word_unit c) s

-- `PAID_CLAIM_RE.test(body)`
unfoldable pub claims_paid : Text → Bool
unfolding claims_paid_from
claims_paid body = claims_paid_from false body

unfoldable pub lint_false_paid_claim : Text → Text → Result (Unit {0})
lint_false_paid_claim body payment_status =
    if text_eq payment_status (codes "PAID")
    then ok tt
    else if claims_paid body
    then err validation_failed
        "draft must not claim the order is paid unless payment status is PAID"
    else ok tt
