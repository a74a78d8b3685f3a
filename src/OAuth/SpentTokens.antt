-- ===== src/OAuth/SpentTokens.antt =====
-- A refresh token of oauth.mjs that is no longer stored.
use pooli.Base.{
  ℕ, Bool, true, false, ◌&&◌, none, Text, codes, text_eq, text_eq_iff, Option-cases, ◌≡◌, inl, inr,
  refl, sym, ◌∙◌, arith,
}
use mathlib.Core.Path.{subst}
use pooli.Base.Options.{or_empty, is_text}
use pooli.Base.Dict.{lookup, erase, lookup-insert_other, lookup-erase-none, lookup-erase_self}
use pooli.Domain.Platform.{Platform}
use pooli.OAuth.{resource_url, Site, State, Registration, AuthorizeQuery, register, authorize}
use pooli.OAuth.Token.{
  Codec, Fields, Draw, issue, refresh_grant, code_grant, grant, fields_of, token,
}
use pooli.OAuth.Requests.{Request, registering, authorizing, exchanging, handle}
use pooli.OAuth.Redeeming.{is_granted}
use pooli.OAuth.Counting.{succeeds, IsSpending}

abbrev pub presents_refresh : Platform → Codec → Text → Request → Bool
presents_refresh env codec c (exchanging site body query authorization draw) =
    let b = fields_of env codec body query authorization in
    is_text b.grant_type (codes "refresh_token") && text_eq (or_empty b.refresh_token) c
presents_refresh env codec c r = false

abbrev pub DrawsNoRefresh : Text → Request → Type 0
DrawsNoRefresh c (exchanging site body query authorization draw) =
    text_eq draw.refresh_token c ≡ false
DrawsNoRefresh c r = Unit

abbrev pub RefreshSpent : Text → State → Type 0
RefreshSpent c s = lookup c s.refresh ≡ none

register-RefreshSpent :
    (body : Registration) (id : Text) (now : ℕ) (s : State) (c : Text)
    → RefreshSpent c s
    → RefreshSpent c (register body id now s).0
unfolding register
register-RefreshSpent body id now s c h = ground arith

authorize-RefreshSpent :
    (is_url : Text → Bool) (site : Site) (q : AuthorizeQuery) (code : Text) (now : ℕ) (s : State)
    (c : Text)
    → RefreshSpent c s
    → RefreshSpent c (authorize is_url site q code now s).0
unfolding authorize
authorize-RefreshSpent is_url site q code now s c h = ground arith

issue-RefreshSpent :
    (site : Site) (draw : Draw) (id audience : Text) (s : State) (c : Text)
    → text_eq draw.refresh_token c ≡ false
    → RefreshSpent c s
    → RefreshSpent c (issue site draw id audience s).0
unfolding issue
issue-RefreshSpent site draw id audience s c n h =
    lookup-insert_other draw.refresh_token c _ s.refresh n ∙ h

refresh_grant-RefreshSpent :
    (site : Site) (b : Fields) (draw : Draw) (s : State) (c : Text)
    → text_eq draw.refresh_token c ≡ false
    → RefreshSpent c s
    → RefreshSpent c (refresh_grant site b draw s).0
unfolding refresh_grant
refresh_grant-RefreshSpent site b draw s c n h =
    elim (Option-cases (lookup (or_empty b.refresh_token) s.refresh)) [
      | inl unknown ↦ rw unknown h
      | inr (entry, found) ↦
          let burned : State = record s { refresh = erase (or_empty b.refresh_token) s.refresh } in
          let gone : RefreshSpent c burned =
            lookup-erase-none (or_empty b.refresh_token) c s.refresh h in
          rw found (
            ground (
              arith,
              gone,
              issue-RefreshSpent site draw entry.client_id (resource_url site) burned c n gone,
            ))
    ]

refresh_grant-refused :
    (site : Site) (b : Fields) (draw : Draw) (s : State)
    → RefreshSpent (or_empty b.refresh_token) s
    → is_granted (refresh_grant site b draw s).1 ≡ false
unfolding refresh_grant
refresh_grant-refused site b draw s h = rw h refl

refresh_grant-spends :
    (site : Site) (b : Fields) (draw : Draw) (s : State)
    → text_eq draw.refresh_token (or_empty b.refresh_token) ≡ false
    → is_granted (refresh_grant site b draw s).1 ≡ true
    → RefreshSpent (or_empty b.refresh_token) (refresh_grant site b draw s).0
unfolding refresh_grant
refresh_grant-spends site b draw s n h =
    elim (Option-cases (lookup (or_empty b.refresh_token) s.refresh)) [
      | inl unknown ↦ absurd (ground arith)
      | inr (entry, found) ↦
          let burned : State = record s { refresh = erase (or_empty b.refresh_token) s.refresh } in
          let gone = lookup-erase_self (or_empty b.refresh_token) s.refresh in
          rw found (
            ground (
              arith,
              gone,
              issue-RefreshSpent site draw entry.client_id (resource_url site) burned
                  (or_empty b.refresh_token) n gone,
            ))
    ]

code_grant-refresh :
    (codec : Codec) (site : Site) (b : Fields) (draw : Draw) (s : State) (c : Text)
    → text_eq draw.refresh_token c ≡ false
    → RefreshSpent c s
    → RefreshSpent c (code_grant codec site b draw s).0
unfolding code_grant
code_grant-refresh codec site b draw s c n h =
    elim (Option-cases (lookup (or_empty b.code) s.codes)) [
      | inl unknown ↦ rw unknown (ground arith)
      | inr (entry, found) ↦ rw found (
          ground (
            arith,
            issue-RefreshSpent site draw entry.client_id (resource_url site)
                (record s { codes = erase (or_empty b.code) s.codes }) c n h,
          ))
    ]

grant-RefreshSpent :
    (codec : Codec) (site : Site) (b : Fields) (draw : Draw) (s : State) (c : Text)
    → text_eq draw.refresh_token c ≡ false
    → RefreshSpent c s
    → RefreshSpent c (grant codec site b draw s).0
unfolding grant
grant-RefreshSpent codec site b draw s c n h = ground (
  arith,
  refresh_grant-RefreshSpent site b draw s c n h,
  code_grant-refresh codec site b draw s c n h,
)

grant-by_refresh :
    (codec : Codec) (site : Site) (b : Fields) (draw : Draw) (s : State)
    → is_text b.grant_type (codes "refresh_token") ≡ true
    → grant codec site b draw s ≡ refresh_grant site b draw s
unfolding grant
grant-by_refresh codec site b draw s h = rw h refl

module _ (env : Platform) (codec : Codec) (is_url : Text → Bool) (c : Text) where
  refresh-keeps :
      (e : Request) (s : State)
      → DrawsNoRefresh c e
      → RefreshSpent c s
      → RefreshSpent c (handle env codec is_url e s).0
  unfolding handle token
  refresh-keeps (registering body id now) s p h = register-RefreshSpent body id now s c h
  refresh-keeps (authorizing site q code now) s p h =
      authorize-RefreshSpent is_url site q code now s c h
  refresh-keeps (exchanging site body query authorization draw) s p h =
      grant-RefreshSpent codec site (fields_of env codec body query authorization) draw s c p h

  refresh-refused :
      (e : Request) (s : State)
      → RefreshSpent c s
      → presents_refresh env codec c e ≡ true
      → succeeds (handle env codec is_url e s).1 ≡ false
  unfolding handle token
  refresh-refused (exchanging site body query authorization draw) s h t =
      let b = fields_of env codec body query authorization in
      let same : or_empty b.refresh_token ≡ c =
        (text_eq_iff (or_empty b.refresh_token) c).0 (ground arith) in
      let refused =
        refresh_grant-refused site b draw s (subst (λ x. RefreshSpent x s) (sym same) h) in
      let by_refresh : is_text b.grant_type (codes "refresh_token") ≡ true = ground arith in
      rw (grant-by_refresh codec site b draw s by_refresh) refused
  refresh-refused (registering body id now) s h t = refl
  refresh-refused (authorizing site q code now) s h t = refl

  refresh-spends :
      (e : Request) (s : State)
      → DrawsNoRefresh c e
      → presents_refresh env codec c e ≡ true
      → succeeds (handle env codec is_url e s).1 ≡ true
      → RefreshSpent c (handle env codec is_url e s).0
  unfolding handle token
  refresh-spends (exchanging site body query authorization draw) s p t g =
      let b = fields_of env codec body query authorization in
      let same : or_empty b.refresh_token ≡ c =
        (text_eq_iff (or_empty b.refresh_token) c).0 (ground arith) in
      let by_refresh : is_text b.grant_type (codes "refresh_token") ≡ true = ground arith in
      let fresh : text_eq draw.refresh_token (or_empty b.refresh_token) ≡ false =
        subst (λ x. text_eq draw.refresh_token x ≡ false) (sym same) p in
      let step = grant-by_refresh codec site b draw s by_refresh in
      let gone = refresh_grant-spends site b draw s fresh (rw step at g) in
      rw step (subst (λ x. RefreshSpent x (refresh_grant site b draw s).0) same gone)
  refresh-spends (registering body id now) s p t g = absurd (ground arith)
  refresh-spends (authorizing site q code now) s p t g = absurd (ground arith)

  pub refresh-IsSpending :
      IsSpending env codec is_url (presents_refresh env codec c) (DrawsNoRefresh c) (RefreshSpent c)
  refresh-IsSpending = record {
    keeps = refresh-keeps;
    refused = refresh-refused;
    spends = refresh-spends;
  }
