-- ===== src/Domain/Canonical/Injective.antt =====
-- The canonical texts of lists of texts, read back element by element.
use pooli.Base.{List, [], ◌∷◌, ◌++◌, append_assoc, Text, All, ◌≡◌, ◌∙◌, sym, ap, refl}
use mathlib.Core.Option.{some-injective}
use pooli.Domain.Canonical.{quote_mark, escape_text, quote, stringify_more, stringify}
use pooli.Domain.Canonical.Reader.{plain, read, IsUnits, read-escape_text}

quote-append : (s rest : Text) → quote s ++ rest ≡ quote_mark ∷ (escape_text s ++ quote_mark ∷ rest)
unfolding quote
quote-append s rest = ap (λ t. quote_mark ∷ t) (append_assoc (escape_text s) (quote_mark ∷ []) rest)

-- A quoted string can be cut off the text that follows it in one way only.
quote-injective :
    (s t rest rest' : Text)
    → IsUnits s
    → IsUnits t
    → quote s ++ rest ≡ quote t ++ rest'
    → (s ≡ t) × (rest ≡ rest')
quote-injective s t rest rest' hs ht e =
    let same : escape_text s ++ quote_mark ∷ rest ≡ escape_text t ++ quote_mark ∷ rest' =
      ap tail_of (sym (quote-append s rest) ∙ (e ∙ quote-append t rest')) in
    let pairs =
      some-injective _ _
        (sym (read-escape_text s rest hs) ∙ (ap (read plain) same ∙ read-escape_text t rest' ht)) in
    (ap (λ p. p.0) pairs, ap (λ p. p.1) pairs)
  where
    tail_of : Text → Text
    tail_of [] = []
    tail_of (c ∷ u) = u

stringify_more-injective :
    (ss ts : List Text)
    → All IsUnits ss
    → All IsUnits ts
    → stringify_more ss ≡ stringify_more ts
    → ss ≡ ts
unfolding stringify_more
stringify_more-injective [] [] hs ht e = refl
stringify_more-injective [] (t ∷ ts) hs ht e = cc
stringify_more-injective (s ∷ ss) [] hs ht e = cc
stringify_more-injective (s ∷ ss) (t ∷ ts) (hs, hss) (ht, hts) e =
    let (same, rest) = quote-injective s t (stringify_more ss) (stringify_more ts) hs ht (cc) in
    cc (same, stringify_more-injective ss ts hss hts rest)

-- Two arrays of strings of 16-bit units with the same JSON text are the same, lone surrogates
-- included.
pub stringify-injective :
    (ss ts : List Text) → All IsUnits ss → All IsUnits ts → stringify ss ≡ stringify ts → ss ≡ ts
unfolding stringify
stringify-injective [] [] hs ht e = refl
stringify-injective [] (t ∷ ts) hs ht e = unfold quote in cc
stringify-injective (s ∷ ss) [] hs ht e = unfold quote in cc
stringify-injective (s ∷ ss) (t ∷ ts) (hs, hss) (ht, hts) e =
    let (same, rest) = quote-injective s t (stringify_more ss) (stringify_more ts) hs ht (cc) in
    cc (same, stringify_more-injective ss ts hss hts rest)
