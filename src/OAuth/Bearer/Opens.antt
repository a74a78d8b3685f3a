-- ===== src/OAuth/Bearer/Opens.antt =====
-- Which tokens the middleware `requireToken` of apps/action-gateway/oauth.mjs lets pass.
use pooli.Base.{
  ℕ, ◌<◌, ◌+◌, true, false, [], ◌∷◌, any, map, Option, some, Text, codes, text_eq, text_eq_refl,
  is_empty, is_space, starts_with, trim, drop, ◌++◌, All, Option-cases, inl, inr, ◌≡◌, ◌↔◌, refl,
  sym, ap, ◌∙◌, arith,
}
use mathlib.Core.Path.{subst}
use pooli.Base.Dict.{lookup}
use pooli.Base.Strings.Trim.{trim-eq_self}
use pooli.Base.Options.{or_empty}
use pooli.Domain.Platform.{Platform, IsStandard, IsAscii, ascii_lower}
use pooli.OAuth.{Site, base_url, resource_url, State, token_ttl_seconds}
use pooli.OAuth.Token.{
  Codec, Fields, Claims, claims_of, Draw, TokenReply, failed, granted, token, grant, refresh_grant,
  code_grant, issue, fields_of,
}
use pooli.OAuth.Bearer.{Jose, IsSound, words, split_words, passed, require_token}

starts_with-++ : (p s : Text) → starts_with (p ++ s) p ≡ true
unfolding starts_with
starts_with-++ [] [] = refl
starts_with-++ [] (c ∷ s) = refl
starts_with-++ (a ∷ p) s = ground (arith, starts_with-++ p s)

split_words-one : (s : Text) → All (λ u. is_space u ≡ false) s → split_words s ≡ (s, [])
unfolding split_words
split_words-one [] h = refl
split_words-one (c ∷ s) (n, h) = rw (split_words-one s h, n) refl

-- The header's scheme is recognised.
bearer-scheme :
    (env : Platform) (jwt : Text)
    → IsStandard env
    → IsAscii jwt
    → starts_with (env.to_lower (codes "Bearer " ++ jwt)) (codes "bearer ") ≡ true
bearer-scheme env jwt std ascii =
    let prefix : IsAscii (codes "Bearer " ++ jwt) = (
      omega arith,
      (
        omega arith,
        (omega arith, (omega arith, (omega arith, (omega arith, (omega arith, ascii))))),
      ),
    ) in
    let low = std.lower_ascii (codes "Bearer " ++ jwt) prefix in
    rw low (starts_with-++ (codes "bearer ") (map ascii_lower jwt))

has_scope :
    (s : Text)
    → is_empty s ≡ false
    → All (λ u. is_space u ≡ false) s
    → any (text_eq s) (words s) ≡ true
unfolding any
has_scope s n h = rw (split_words-one s h, n, text_eq_refl s) refl

-- A reply that grants something grants a token of this site for its client.
abbrev Stamped : Site → Draw → TokenReply → Type 0
Stamped site draw (failed e w) = Unit
Stamped site draw (granted c r) = c ≡ claims_of site draw c.client_id (resource_url site)

code_grant-Stamped :
    (codec : Codec) (site : Site) (b : Fields) (draw : Draw) (s : State)
    → Stamped site draw (code_grant codec site b draw s).1
unfolding code_grant issue
code_grant-Stamped codec site b draw s = elim (Option-cases (lookup (or_empty b.code) s.codes)) [
  | inl unknown ↦ rw unknown (ground arith)
  | inr (entry, found) ↦ rw found (ground arith)
]

refresh_grant-Stamped :
    (site : Site) (b : Fields) (draw : Draw) (s : State)
    → Stamped site draw (refresh_grant site b draw s).1
unfolding refresh_grant issue
refresh_grant-Stamped site b draw s =
    elim (Option-cases (lookup (or_empty b.refresh_token) s.refresh)) [
      | inl unknown ↦ rw unknown (ground arith)
      | inr (entry, found) ↦ rw found (ground arith)
    ]

grant-Stamped :
    (codec : Codec) (site : Site) (b : Fields) (draw : Draw) (s : State)
    → Stamped site draw (grant codec site b draw s).1
unfolding grant
grant-Stamped codec site b draw s =
    ground (arith, code_grant-Stamped codec site b draw s, refresh_grant-Stamped site b draw s)

verify-signed :
    (jose : Jose) (c : Claims) (issuer audience : Text) (now : ℕ)
    → IsSound jose
    → c.issuer ≡ issuer
    → c.audience ≡ audience
    → now < c.expires
    → jose.verify (jose.sign c) issuer audience now ≡ some c
verify-signed jose c issuer audience now sound i a fresh =
    rw (sym i, sym a) (sound.complete c now fresh)

-- Two claims for the same issuer and audience with the same token are the same, if they expire at all.
sign-injective :
    (jose : Jose) (c d : Claims)
    → IsSound jose
    → jose.sign c ≡ jose.sign d
    → c.issuer ≡ d.issuer
    → c.audience ≡ d.audience
    → 0 < c.expires
    → 0 < d.expires
    → c ≡ d
sign-injective jose c d sound same i a one two =
    let left : jose.verify (jose.sign d) d.issuer d.audience 0 ≡ some c =
      subst (λ j. jose.verify j d.issuer d.audience 0 ≡ some c) same
        (verify-signed jose c d.issuer d.audience 0 sound i a one) in
    let right = sound.complete d 0 two in cc

-- A header that passes carries a token that was signed for this issuer and this resource, with the
-- required scope among its words, and has not expired.
pub require_token-signed :
    (env : Platform) (jose : Jose) (site : Site) (authorization : Option Text) (now : ℕ) (id : Text)
    → IsSound jose
    → require_token env jose site authorization now ≡ passed id
    → (c : Claims) × (trim (drop 7 (or_empty authorization)) ≡ jose.sign c)
      × (c.client_id ≡ id)
      × (c.issuer ≡ base_url site)
      × (c.audience ≡ resource_url site)
      × (now < c.expires)
      × (any (text_eq site.required_scope) (words c.scope) ≡ true)
unfolding require_token
require_token-signed env jose site authorization now id sound h =
    let auth = or_empty authorization in
    elim (Option-cases (jose.verify (trim (drop 7 auth)) (base_url site) (resource_url site) now)) [
      | inl bad ↦ absurd (let gate = rw bad at h in ground arith)
      | inr (c, ok) ↦
          let (signed, issuer, audience, fresh) =
            sound.sound (trim (drop 7 auth)) (base_url site) (resource_url site) now c ok in
          let gate = rw ok at h in
          (c, signed, ground (arith, gate), issuer, audience, fresh, ground (arith, gate))
    ]

module _ (env : Platform) (jose : Jose) (site : Site) (draw : Draw) (c : Claims) (now : ℕ)
    (std : IsStandard env) (sound : IsSound jose) (named : is_empty site.required_scope ≡ false)
    (word : All (λ u. is_space u ≡ false) site.required_scope)
    (stamped : c ≡ claims_of site draw c.client_id (resource_url site)) where
  opens-fresh :
      now < draw.now_seconds + token_ttl_seconds
      → require_token env jose site (some (codes "Bearer " ++ jose.sign c)) now ≡ passed c.client_id
  unfolding require_token
  opens-fresh fresh =
      let verified : jose.verify (jose.sign c) (base_url site) (resource_url site) now ≡ some c =
        verify-signed jose c (base_url site) (resource_url site) now sound
          (ap (λ x. x.issuer) stamped) (ap (λ x. x.audience) stamped)
          (rw (ap (λ x. x.expires) stamped) fresh) in
      rw
        (
          bearer-scheme env (jose.sign c) std (sound.ascii c),
          trim-eq_self (jose.sign c) (sound.no_spaces c),
          verified,
        )
        (rw (ap (λ x. x.scope) stamped, has_scope site.required_scope named word) refl)

  fresh-opens :
      require_token env jose site (some (codes "Bearer " ++ jose.sign c)) now ≡ passed c.client_id
      → now < draw.now_seconds + token_ttl_seconds
  fresh-opens h =
      let (d, signed, _, issuer, audience, fresh, _) =
        require_token-signed env jose site (some (codes "Bearer " ++ jose.sign c)) now c.client_id
          sound h in
      let token : jose.sign c ≡ jose.sign d =
        sym (trim-eq_self (jose.sign c) (sound.no_spaces c)) ∙ signed in
      let lifetime : c.expires ≡ draw.now_seconds + token_ttl_seconds =
        ap (λ x. x.expires) stamped in
      let same : c ≡ d =
        sign-injective jose c d sound token (ap (λ x. x.issuer) stamped ∙ sym issuer)
          (ap (λ x. x.audience) stamped ∙ sym audience) (omega arith) (omega arith) in
      let until : now < c.expires = rw same fresh in omega arith

-- With a standard platform and a sound signing library, and where the scope required is a word
-- without spaces: a token that the token endpoint has granted lets a request pass requireToken on
-- the same site as its client exactly until the hour behind its issue is over.
pub token_opens :
    (env : Platform) (codec : Codec) (jose : Jose) (site : Site) (body query : Fields)
    (authorization : Option Text) (draw : Draw) (s : State) (c : Claims) (r : Text) (now : ℕ)
    → IsStandard env
    → IsSound jose
    → is_empty site.required_scope ≡ false
    → All (λ u. is_space u ≡ false) site.required_scope
    → (token env codec site body query authorization draw s).1 ≡ granted c r
    → (require_token env jose site (some (codes "Bearer " ++ jose.sign c)) now ≡ passed c.client_id)
      ↔ (now < draw.now_seconds + token_ttl_seconds)
unfolding token
token_opens env codec jose site body query authorization draw s c r now std sound named word g =
    let stamped =
      subst (Stamped site draw) g
        (grant-Stamped codec site (fields_of env codec body query authorization) draw s) in
    (
      fresh-opens env jose site draw c now std sound named word stamped,
      opens-fresh env jose site draw c now std sound named word stamped,
    )
