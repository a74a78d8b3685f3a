-- ===== src/Examples/Signer.antt =====
-- A stand-in for the library jose that keeps what is relied on: a token spells out its claims, each
-- number n as n letters and a mark.
use pooli.Base.{
  ℕ, zero, suc, ◌+◌, ◌<◌, true, false, ◌&&◌, List, [], ◌∷◌, ◌++◌, Option, none, some, Text, text_eq,
  text_eq_refl, text_eq_iff, is_space, length, take, drop, take-append, drop-append, ltb, ltb→lt,
  ◌==◌, if◌then◌else◌, All, All-imp, ◌≡◌, refl, ap, ◌∙◌, arith,
}
use pooli.OAuth.Token.{Claims}
use pooli.OAuth.Bearer.{Jose, IsSound}

unary : ℕ → Text → Text
unary zero s = b'b' ∷ s
unary (suc n) s = b'a' ∷ unary n s

spell : List ℕ → Text
unfolding unary
spell [] = []
spell (n ∷ ns) = unary n (spell ns)

read : ℕ → Text → List ℕ
read acc [] = []
read acc (c ∷ s) = if c == b'a' then read (suc acc) s else acc ∷ read 0 s

read-unary : (n acc : ℕ) (s : Text) → read acc (unary n s) ≡ (acc + n) ∷ read 0 s
unfolding read unary
read-unary zero acc s = ap (λ k. k ∷ read 0 s) (omega arith)
read-unary (suc n) acc s = read-unary n (suc acc) s ∙ ap (λ k. k ∷ read 0 s) (omega arith)

read-spell : (ns : List ℕ) → read 0 (spell ns) ≡ ns
unfolding spell
read-spell [] = unfold read in refl
read-spell (n ∷ ns) =
    let added : 0 + n ≡ n = omega arith in
    read-unary n 0 (spell ns)
    ∙ ap (λ k. k ∷ read 0 (spell ns)) added
    ∙ ap (λ s. n ∷ s) (read-spell ns)

IsLetter : ℕ → Type 0
IsLetter c = (c < 128) × (is_space c ≡ false)

unary-IsLetter : (n : ℕ) (s : Text) → All IsLetter s → All IsLetter (unary n s)
unfolding unary is_space IsLetter
unary-IsLetter zero s h = ((omega arith, refl), h)
unary-IsLetter (suc n) s h = ((omega arith, refl), unary-IsLetter n s h)

spell-IsLetter : (ns : List ℕ) → All IsLetter (spell ns)
unfolding spell
spell-IsLetter [] = tt
spell-IsLetter (n ∷ ns) = unary-IsLetter n (spell ns) (spell-IsLetter ns)

-- A text behind its length, before other numbers
with_text : Text → List ℕ → List ℕ
with_text s rest = length s ∷ (s ++ rest)

first_text : List ℕ → Text × List ℕ
first_text [] = ([], [])
first_text (n ∷ ns) = (take n ns, drop n ns)

first_text-with_text : (s : Text) (rest : List ℕ) → first_text (with_text s rest) ≡ (s, rest)
unfolding first_text with_text
first_text-with_text s rest =
    cc (take-append (length s) s rest refl, drop-append (length s) s rest refl)

flat : Claims → List ℕ
flat c = with_text c.scope (
    with_text c.client_id
      (with_text c.issuer (with_text c.audience (c.issued_at ∷ c.expires ∷ []))))

two : List ℕ → ℕ × ℕ
two (m ∷ n ∷ ns) = (m, n)
two _ = (0, 0)

unflat : List ℕ → Claims
unflat ns =
    let (scope, ns1) = first_text ns in
    let (client_id, ns2) = first_text ns1 in
    let (issuer, ns3) = first_text ns2 in
    let (audience, ns4) = first_text ns3 in
    let (issued_at, expires) = two ns4 in
    record {
      scope = scope;
      client_id = client_id;
      issuer = issuer;
      audience = audience;
      issued_at = issued_at;
      expires = expires;
    }

unflat-flat : (c : Claims) → unflat (flat c) ≡ c
unfolding unflat flat two
unflat-flat c = simp (first_text-with_text)

sign : Claims → Text
sign c = spell (flat c)

unsign : Text → Claims
unsign s = unflat (read 0 s)

unsign-sign : (c : Claims) → unsign (sign c) ≡ c
unfolding unsign sign
unsign-sign c = ap unflat (read-spell (flat c)) ∙ unflat-flat c

verify : Text → Text → Text → ℕ → Option Claims
verify jwt issuer audience now =
    let c = unsign jwt in
    if text_eq jwt (sign c)
      && text_eq c.issuer issuer
      && text_eq c.audience audience
      && ltb now c.expires
    then some c
    else none

pub jose : Jose
jose = record { sign = sign; verify = verify }

verify_sound :
    (jwt issuer audience : Text) (now : ℕ) (c : Claims)
    → verify jwt issuer audience now ≡ some c
    → (jwt ≡ sign c) × (c.issuer ≡ issuer) × (c.audience ≡ audience) × (now < c.expires)
unfolding verify
verify_sound jwt issuer audience now c h =
    let d = unsign jwt in
    let good : (text_eq jwt (sign d)
          && text_eq d.issuer issuer
          && text_eq d.audience audience
          && ltb now d.expires)
        ≡ true =
      ground arith in
    let same : d ≡ c = ground arith in
    (
      (text_eq_iff jwt (sign c)).0 (ground (arith, good, same)),
      (text_eq_iff c.issuer issuer).0 (ground (arith, good, same)),
      (text_eq_iff c.audience audience).0 (ground (arith, good, same)),
      ltb→lt now c.expires (ground (arith, good, same)),
    )

verify_complete :
    (c : Claims) (now : ℕ) → now < c.expires → verify (sign c) c.issuer c.audience now ≡ some c
unfolding verify
verify_complete c now h =
    let fresh : ltb now c.expires ≡ true = ground arith in
    rw (unsign-sign c, text_eq_refl (sign c), text_eq_refl c.issuer, text_eq_refl c.audience, fresh)
      refl

pub jose-IsSound : IsSound jose
unfolding jose sign IsLetter
jose-IsSound = record {
  sound = verify_sound;
  complete = verify_complete;
  ascii =
      λ c. All-imp IsLetter (λ u. u < 128) (spell (flat c)) (λ u h. h.0) (spell-IsLetter (flat c));
  no_spaces = λ c.
      All-imp IsLetter (λ u. is_space u ≡ false) (spell (flat c)) (λ u h. h.1)
        (spell-IsLetter (flat c));
}
