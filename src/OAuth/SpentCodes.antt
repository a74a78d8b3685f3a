-- ===== src/OAuth/SpentCodes.antt =====
-- A code of oauth.mjs that is no longer stored.
use pooli.Base.{
  ℕ, Bool, true, false, ◌&&◌, none, Text, codes, text_eq, text_eq_iff, is_empty, Bool-cases,
  Option-cases, ◌≡◌, ◌⊎◌, inl, inr, refl, sym, ◌∙◌, arith,
}
use mathlib.Core.Path.{subst}
use pooli.Base.Options.{or_empty, is_text}
use pooli.Base.Dict.{lookup, erase, lookup-insert_other, lookup-erase-none, lookup-erase_self}
use pooli.Domain.Platform.{Platform}
use pooli.OAuth.{
  grant_code, Site, State, CodeEntry, Registration, AuthorizeQuery, register, authorize,
}
use pooli.OAuth.Token.{
  Codec, Fields, Draw, issue, refresh_grant, redeem_entry, code_grant, grant, fields_of, token,
}
use pooli.OAuth.Requests.{Request, registering, authorizing, exchanging, handle}
use pooli.OAuth.Redeeming.{is_granted, is_text-eq}
use pooli.OAuth.Counting.{succeeds, IsSpending}

-- The request asks for the grant by code, with this code.
abbrev pub presents_code : Platform → Codec → Text → Request → Bool
presents_code env codec c (exchanging site body query authorization draw) =
    let b = fields_of env codec body query authorization in
    is_text b.grant_type (codes "authorization_code") && text_eq (or_empty b.code) c
presents_code env codec c r = false

-- The request does not draw this code.
abbrev pub DrawsNoCode : Text → Request → Type 0
DrawsNoCode c (authorizing site q code now) = text_eq code c ≡ false
DrawsNoCode c r = Unit

abbrev pub CodeSpent : Text → State → Type 0
CodeSpent c s = lookup c s.codes ≡ none

register-CodeSpent :
    (body : Registration) (id : Text) (now : ℕ) (s : State) (c : Text)
    → CodeSpent c s
    → CodeSpent c (register body id now s).0
unfolding register
register-CodeSpent body id now s c h = ground arith

authorize-CodeSpent :
    (is_url : Text → Bool) (site : Site) (q : AuthorizeQuery) (code : Text) (now : ℕ) (s : State)
    (c : Text)
    → text_eq code c ≡ false
    → CodeSpent c s
    → CodeSpent c (authorize is_url site q code now s).0
unfolding authorize
authorize-CodeSpent is_url site q code now s c n h =
    let fresh : CodeSpent c
        (grant_code site q code now (or_empty q.client_id) (or_empty q.redirect_uri) s) =
      lookup-insert_other code c _ s.codes n ∙ h in
    ground (arith, fresh)

-- What a token request makes of the codes and of the refresh tokens.
refresh_grant-codes :
    (site : Site) (b : Fields) (draw : Draw) (s : State)
    → (refresh_grant site b draw s).0.codes ≡ s.codes
unfolding refresh_grant issue
refresh_grant-codes site b draw s = ground arith

redeem_entry-codes :
    (codec : Codec) (site : Site) (b : Fields) (draw : Draw) (s : State) (entry : CodeEntry)
    → (redeem_entry codec site b draw s entry).0.codes ≡ s.codes
unfolding issue
redeem_entry-codes codec site b draw s entry = ground arith

-- A code that a request presents is gone behind it, if it was there.
code_grant-codes :
    (codec : Codec) (site : Site) (b : Fields) (draw : Draw) (s : State)
    → ((code_grant codec site b draw s).0.codes ≡ erase (or_empty b.code) s.codes)
      ⊎ (((code_grant codec site b draw s).0.codes ≡ s.codes)
          × (is_granted (code_grant codec site b draw s).1 ≡ false))
unfolding code_grant
code_grant-codes codec site b draw s = elim (Bool-cases (is_empty (or_empty b.code))) [
  | inl no_code ↦ rw no_code (inr (refl, refl))
  | inr code ↦ elim (Option-cases (lookup (or_empty b.code) s.codes)) [
    | inl unknown ↦ rw (code, unknown) (inr (refl, refl))
    | inr (entry, found) ↦
        rw (code, found)
          (inl (
            redeem_entry-codes codec site b draw
              (record s { codes = erase (or_empty b.code) s.codes }) entry))
  ]
]

code_grant-CodeSpent :
    (codec : Codec) (site : Site) (b : Fields) (draw : Draw) (s : State) (c : Text)
    → CodeSpent c s
    → CodeSpent c (code_grant codec site b draw s).0
code_grant-CodeSpent codec site b draw s c h = elim (code_grant-codes codec site b draw s) [
  | inl erased ↦ rw erased (lookup-erase-none (or_empty b.code) c s.codes h)
  | inr (kept, _) ↦ rw kept h
]

code_grant-refused :
    (codec : Codec) (site : Site) (b : Fields) (draw : Draw) (s : State)
    → CodeSpent (or_empty b.code) s
    → is_granted (code_grant codec site b draw s).1 ≡ false
unfolding code_grant
code_grant-refused codec site b draw s h = elim (Bool-cases (is_empty (or_empty b.code))) [
  | inl no_code ↦ rw no_code refl
  | inr code ↦ rw (code, h) refl
]

code_grant-spends :
    (codec : Codec) (site : Site) (b : Fields) (draw : Draw) (s : State)
    → is_granted (code_grant codec site b draw s).1 ≡ true
    → CodeSpent (or_empty b.code) (code_grant codec site b draw s).0
code_grant-spends codec site b draw s h = elim (code_grant-codes codec site b draw s) [
  | inl erased ↦ rw erased (lookup-erase_self (or_empty b.code) s.codes)
  | inr (_, refused) ↦ absurd (ground arith)
]

grant-CodeSpent :
    (codec : Codec) (site : Site) (b : Fields) (draw : Draw) (s : State) (c : Text)
    → CodeSpent c s
    → CodeSpent c (grant codec site b draw s).0
unfolding grant
grant-CodeSpent codec site b draw s c h =
    ground (arith, refresh_grant-codes site b draw s, code_grant-CodeSpent codec site b draw s c h)

-- A request that asks for the grant by code.
grant-by_code :
    (codec : Codec) (site : Site) (b : Fields) (draw : Draw) (s : State)
    → is_text b.grant_type (codes "authorization_code") ≡ true
    → grant codec site b draw s ≡ code_grant codec site b draw s
unfolding grant text_eq
grant-by_code codec site b draw s h =
    let type = is_text-eq b.grant_type (codes "authorization_code") h in
    let other : is_text b.grant_type (codes "refresh_token") ≡ false = rw type refl in
    rw (other, h) refl

module _ (env : Platform) (codec : Codec) (is_url : Text → Bool) (c : Text) where
  code-keeps :
      (e : Request) (s : State)
      → DrawsNoCode c e
      → CodeSpent c s
      → CodeSpent c (handle env codec is_url e s).0
  unfolding handle token
  code-keeps (registering body id now) s p h = register-CodeSpent body id now s c h
  code-keeps (authorizing site q code now) s p h =
      authorize-CodeSpent is_url site q code now s c p h
  code-keeps (exchanging site body query authorization draw) s p h =
      grant-CodeSpent codec site (fields_of env codec body query authorization) draw s c h

  code-refused :
      (e : Request) (s : State)
      → CodeSpent c s
      → presents_code env codec c e ≡ true
      → succeeds (handle env codec is_url e s).1 ≡ false
  unfolding handle token
  code-refused (exchanging site body query authorization draw) s h t =
      let b = fields_of env codec body query authorization in
      let same : or_empty b.code ≡ c = (text_eq_iff (or_empty b.code) c).0 (ground arith) in
      let refused =
        code_grant-refused codec site b draw s (subst (λ x. CodeSpent x s) (sym same) h) in
      let by_code : is_text b.grant_type (codes "authorization_code") ≡ true = ground arith in
      rw (grant-by_code codec site b draw s by_code) refused
  code-refused (registering body id now) s h t = refl
  code-refused (authorizing site q code now) s h t = refl

  code-spends :
      (e : Request) (s : State)
      → DrawsNoCode c e
      → presents_code env codec c e ≡ true
      → succeeds (handle env codec is_url e s).1 ≡ true
      → CodeSpent c (handle env codec is_url e s).0
  unfolding handle token
  code-spends (exchanging site body query authorization draw) s p t g =
      let b = fields_of env codec body query authorization in
      let same : or_empty b.code ≡ c = (text_eq_iff (or_empty b.code) c).0 (ground arith) in
      let by_code : is_text b.grant_type (codes "authorization_code") ≡ true = ground arith in
      let step = grant-by_code codec site b draw s by_code in
      let gone = code_grant-spends codec site b draw s (rw step at g) in
      rw step (subst (λ x. CodeSpent x (code_grant codec site b draw s).0) same gone)
  code-spends (registering body id now) s p t g = absurd (ground arith)
  code-spends (authorizing site q code now) s p t g = absurd (ground arith)

  pub code-IsSpending :
      IsSpending env codec is_url (presents_code env codec c) (DrawsNoCode c) (CodeSpent c)
  code-IsSpending = record { keeps = code-keeps; refused = code-refused; spends = code-spends }
