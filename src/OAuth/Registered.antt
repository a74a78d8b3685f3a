-- ===== src/OAuth/Registered.antt =====
-- What the maps of apps/action-gateway/oauth.mjs keep of each other, over any sequence of requests.
use pooli.Base.{
  ℕ, Bool, true, List, [], ◌∷◌, any, Option, none, some, Text, text_eq, text_eq_iff, Bool-cases,
  Option-cases, ◌≡◌, inl, inr, refl, arith,
}
use pooli.Base.Options.{or_empty, is_text}
use pooli.Base.Dict
use pooli.Base.Dict.{Dict, lookup, lookup-insert, erase, Each, nil-Each, insert-Each, erase-Each}
use pooli.Domain.Platform.{Platform}
use pooli.OAuth.{
  Site, State, no_state, Client, resource_url, register, register_uris, uris_of, name_or,
  AuthorizeQuery, authorize, grant_code, lookup_opt,
}
use pooli.OAuth.Token.{
  Codec, Fields, Draw, issue, refresh_grant, code_grant, grant, fields_of, token,
}
use pooli.OAuth.Requests.{Request, registering, authorizing, exchanging, handle, run}

-- A client is registered, and with this redirect address.
abbrev Knows : Dict Client → Text → Type 0
Knows m id = (c : Client) × (lookup id m ≡ some c)

abbrev Owns : Dict Client → Text → Text → Type 0
Owns m id uri = (c : Client) × (lookup id m ≡ some c) × (any (text_eq uri) c.redirect_uris ≡ true)

-- Every code that is stored belongs to a client that is registered and has its redirect address,
-- every refresh token to a client that is registered, and no client is without redirect addresses.
pub record IsConsistent (s : State) : Type 0 where
  pub codes : Each (λ e. Owns s.clients e.client_id e.redirect_uri) s.codes
  pub refresh : Each (λ e. Knows s.clients e.client_id) s.refresh
  pub clients : Each (λ c. any (λ _. true) c.redirect_uris ≡ true) s.clients

-- The client id that a registration draws is not in use.
abbrev Draws : Request → State → Type 0
Draws (registering body id now) s = lookup id s.clients ≡ none
Draws r s = Unit

module _ (env : Platform) (codec : Codec) (is_url : Text → Bool) where
  abbrev pub AllFresh : List Request → State → Type 0
  AllFresh [] s = Unit
  AllFresh (e ∷ es) s = Draws e s × AllFresh es (handle env codec is_url e s).0

lookup-insert_new :
    (id k : Text) (c d : Client) (m : Dict Client)
    → lookup id m ≡ none
    → lookup k m ≡ some d
    → lookup k (Dict.insert id c m) ≡ some d
lookup-insert_new id k c d m new found = ground (arith, lookup-insert id k c m, text_eq_iff id k)

no_state-IsConsistent : IsConsistent no_state
no_state-IsConsistent = record {
  codes = nil-Each (λ e. Owns [] e.client_id e.redirect_uri);
  refresh = nil-Each (λ e. Knows [] e.client_id);
  clients = nil-Each (λ c. any (λ _. true) c.redirect_uris ≡ true);
}

register_uris-IsConsistent :
    (name : Option Text) (id : Text) (now : ℕ) (s : State) (us : List Text)
    → lookup id s.clients ≡ none
    → IsConsistent s
    → IsConsistent (register_uris name id now s us).0
unfolding any
register_uris-IsConsistent name id now s [] new h = h
register_uris-IsConsistent name id now s (u ∷ us) new h =
    let c : Client = (record {
      issued_at = _;
      redirect_uris = u ∷ us;
      client_name = name_or name;
    }) in
    record {
      codes = λ k e found.
          let (d, known, owns) = h.codes k e found in
          (d, lookup-insert_new id e.client_id c d s.clients new known, owns);
      refresh = λ k e found.
          let (d, known) = h.refresh k e found in
          (d, lookup-insert_new id e.client_id c d s.clients new known);
      clients =
          insert-Each (λ c. any (λ _. true) c.redirect_uris ≡ true) id c s.clients refl h.clients;
    }

lookup_opt-some :
    (o : Option Text) (m : Dict Client) (c : Client)
    → lookup_opt o m ≡ some c
    → lookup (or_empty o) m ≡ some c
lookup_opt-some none m c h = absurd (ground arith)
lookup_opt-some (some k) m c h = h

any-is_text :
    (o : Option Text) (us : List Text)
    → any (is_text o) us ≡ true
    → any (text_eq (or_empty o)) us ≡ true
unfolding any
any-is_text none [] h = absurd (ground arith)
any-is_text none (u ∷ us) h = ground (arith, any-is_text none us h)
any-is_text (some t) us h = h

grant_code-IsConsistent :
    (site : Site) (q : AuthorizeQuery) (code : Text) (now : ℕ) (id uri : Text) (s : State)
    → Owns s.clients id uri
    → IsConsistent s
    → IsConsistent (grant_code site q code now id uri s)
grant_code-IsConsistent site q code now id uri s owns h = record {
  codes = insert-Each (λ e. Owns s.clients e.client_id e.redirect_uri) code _ s.codes owns h.codes;
  refresh = h.refresh;
  clients = h.clients;
}

authorize_client-IsConsistent :
    (is_url : Text → Bool) (site : Site) (q : AuthorizeQuery) (code : Text) (now : ℕ) (s : State)
    → IsConsistent s
    → IsConsistent (authorize is_url site q code now s).0
unfolding authorize
authorize_client-IsConsistent is_url site q code now s h =
    elim (Option-cases (lookup_opt q.client_id s.clients)) [
      | inl unknown ↦ rw unknown h
      | inr (c, found) ↦ elim (Bool-cases (any (is_text q.redirect_uri) c.redirect_uris)) [
        | inl owns ↦
            let known : lookup (or_empty q.client_id) s.clients ≡ some c =
              lookup_opt-some q.client_id s.clients c found in
            let kept =
              grant_code-IsConsistent site q code now (or_empty q.client_id)
                (or_empty q.redirect_uri) s
                (c, known, any-is_text q.redirect_uri c.redirect_uris owns) h in
            rw (found, owns) (ground (arith, h, kept))
        | inr not_owned ↦ rw (found, not_owned) h
      ]
    ]

issue-IsConsistent :
    (site : Site) (draw : Draw) (id audience : Text) (s : State)
    → Knows s.clients id
    → IsConsistent s
    → IsConsistent (issue site draw id audience s).0
unfolding issue
issue-IsConsistent site draw id audience s known h = record {
  codes = h.codes;
  refresh =
      insert-Each (λ e. Knows s.clients e.client_id) draw.refresh_token _ s.refresh known h.refresh;
  clients = h.clients;
}

refresh_grant-IsConsistent :
    (site : Site) (b : Fields) (draw : Draw) (s : State)
    → IsConsistent s
    → IsConsistent (refresh_grant site b draw s).0
unfolding refresh_grant
refresh_grant-IsConsistent site b draw s h =
    elim (Option-cases (lookup (or_empty b.refresh_token) s.refresh)) [
      | inl unknown ↦ rw unknown h
      | inr (entry, found) ↦
          let burned : State = record s { refresh = erase (or_empty b.refresh_token) s.refresh } in
          let kept : IsConsistent burned = record {
            codes = h.codes;
            refresh =
                erase-Each (λ e. Knows s.clients e.client_id) (or_empty b.refresh_token) s.refresh
                  h.refresh;
            clients = h.clients;
          } in
          let issued =
            issue-IsConsistent site draw entry.client_id (resource_url site) burned
              (h.refresh (or_empty b.refresh_token) entry found) kept in
          rw found (ground (arith, kept, issued))
    ]

code_grant-IsConsistent :
    (codec : Codec) (site : Site) (b : Fields) (draw : Draw) (s : State)
    → IsConsistent s
    → IsConsistent (code_grant codec site b draw s).0
unfolding code_grant
code_grant-IsConsistent codec site b draw s h =
    elim (Option-cases (lookup (or_empty b.code) s.codes)) [
      | inl unknown ↦ rw unknown (ground (arith, h))
      | inr (entry, found) ↦
          let burned : State = record s { codes = erase (or_empty b.code) s.codes } in
          let kept : IsConsistent burned = record {
            codes =
                erase-Each (λ e. Owns s.clients e.client_id e.redirect_uri) (or_empty b.code)
                  s.codes h.codes;
            refresh = h.refresh;
            clients = h.clients;
          } in
          let (c, known, _) = h.codes (or_empty b.code) entry found in
          let issued =
            issue-IsConsistent site draw entry.client_id (resource_url site) burned (c, known)
              kept in
          rw found (ground (arith, h, kept, issued))
    ]

grant-IsConsistent :
    (codec : Codec) (site : Site) (b : Fields) (draw : Draw) (s : State)
    → IsConsistent s
    → IsConsistent (grant codec site b draw s).0
unfolding grant
grant-IsConsistent codec site b draw s h = ground (
  arith,
  h,
  refresh_grant-IsConsistent site b draw s h,
  code_grant-IsConsistent codec site b draw s h,
)

handle-IsConsistent :
    (env : Platform) (codec : Codec) (is_url : Text → Bool) (e : Request) (s : State)
    → Draws e s
    → IsConsistent s
    → IsConsistent (handle env codec is_url e s).0
unfolding handle register token
handle-IsConsistent env codec is_url (registering body id now) s new h =
    register_uris-IsConsistent body.client_name id now s (uris_of body.redirect_uris) new h
handle-IsConsistent env codec is_url (authorizing site q code now) s new h =
    authorize_client-IsConsistent is_url site q code now s h
handle-IsConsistent env codec is_url (exchanging site body query authorization draw) s new h =
    grant-IsConsistent codec site (fields_of env codec body query authorization) draw s h

-- Whatever requests the authorization server has answered since it started empty, if no client id
-- was drawn while it was in use: every code that is stored belongs to a client that is registered
-- with the redirect address that the code was asked for, every refresh token to a client that is
-- registered, and no client that is registered is without redirect addresses.
pub run-IsConsistent :
    (env : Platform) (codec : Codec) (is_url : Text → Bool) (es : List Request)
    → AllFresh env codec is_url es no_state
    → IsConsistent (run env codec is_url es no_state)
unfolding run
run-IsConsistent env codec is_url es fresh = go es no_state fresh no_state-IsConsistent
  where
    go :
        (es : List Request) (s : State)
        → AllFresh env codec is_url es s
        → IsConsistent s
        → IsConsistent (run env codec is_url es s)
    go [] s fresh h = h
    go (e ∷ es) s (new, fresh) h =
        go es (handle env codec is_url e s).0 fresh (handle-IsConsistent env codec is_url e s new h)
