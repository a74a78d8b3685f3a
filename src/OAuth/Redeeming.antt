-- ===== src/OAuth/Redeeming.antt =====
-- When a code is exchanged for a token at the token endpoint of apps/action-gateway/oauth.mjs.
use pooli.Base.{
  ◌≤◌, Bool, true, false, Option, none, some, Text, text_eq, text_eq_iff, text_eq_refl, is_empty,
  ltb, Bool-cases, Option-cases, ◌≡◌, ◌⊎◌, ◌↔◌, inl, inr, refl, sym, ap, arith,
}
use pooli.Base.Options.{or_empty, is_text, drop_slashes}
use pooli.Base.Dict.{lookup, erase}
use pooli.OAuth.{Site, resource_url, base_url, State, CodeEntry}
use pooli.OAuth.Token.{
  Codec, Fields, Draw, claims_of, TokenReply, failed, granted, issue, other_client, is_target,
  redeem_entry, code_grant, requested_of,
}

-- The request names no client, or this one.
abbrev pub IsOwnClient : Fields → Text → Type 0
IsOwnClient b id = (is_empty (or_empty b.client_id) ≡ true) ⊎ (b.client_id ≡ some id)

-- The resource of the request, or else the one that the code was asked for, is empty or, up to the
-- slashes at its end, the address of this server's endpoint or of the server.
abbrev pub IsTarget : Site → Fields → CodeEntry → Type 0
IsTarget site b entry =
    (r : Text) × (((is_empty r ≡ false) × (b.resource ≡ some r))
      ⊎ ((is_empty (or_empty b.resource) ≡ true) × (entry.resource ≡ r)))
    × ((is_empty r ≡ true)
        ⊎ ((drop_slashes r ≡ resource_url site) ⊎ (drop_slashes r ≡ base_url site)))

non_empty-eq : (o : Option Text) → is_empty (or_empty o) ≡ false → o ≡ some (or_empty o)
non_empty-eq none h = absurd (ground arith)
non_empty-eq (some s) h = refl

other_client_iff : (b : Fields) (id : Text) → (other_client b id ≡ false) ↔ IsOwnClient b id
other_client_iff b id = (
  λ h. elim (Bool-cases (is_empty (or_empty b.client_id))) [
    | inl nobody ↦ inl nobody
    | inr given ↦
        let same : id ≡ or_empty b.client_id = (text_eq_iff id _).0 (ground arith) in
        inr (rw same (non_empty-eq b.client_id given))
  ],
  λ own. elim own [
    | inl nobody ↦ rw nobody refl
    | inr same ↦ rw (same, text_eq_refl id) (ground arith)
  ],
)

-- The resource that is looked at.
requested_of-cases :
    (b : Fields) (entry : CodeEntry)
    → ((is_empty (requested_of b entry) ≡ false) × (b.resource ≡ some (requested_of b entry)))
      ⊎ ((is_empty (or_empty b.resource) ≡ true) × (entry.resource ≡ requested_of b entry))
requested_of-cases b entry = elim (Bool-cases (is_empty (or_empty b.resource))) [
  | inl none_given ↦ inr (none_given, rw none_given refl)
  | inr given ↦ inl (rw given given, rw given (non_empty-eq b.resource given))
]

requested_of-eq :
    (b : Fields) (entry : CodeEntry) (r : Text)
    → ((is_empty r ≡ false) × (b.resource ≡ some r))
      ⊎ ((is_empty (or_empty b.resource) ≡ true) × (entry.resource ≡ r))
    → requested_of b entry ≡ r
requested_of-eq b entry r (inl (given, own)) = rw (own, given) refl
requested_of-eq b entry r (inr (nothing, stored)) = rw nothing stored

is_target_iff :
    (site : Site) (b : Fields) (entry : CodeEntry)
    → (is_target site b entry ≡ true) ↔ IsTarget site b entry
unfolding is_target
is_target_iff site b entry = (
  λ h. (requested_of b entry, requested_of-cases b entry, names h),
  λ (r, source, named). from (requested_of-eq b entry r source) named,
)
  where
    Names : Text → Type 0
    Names r =
        (is_empty r ≡ true)
        ⊎ ((drop_slashes r ≡ resource_url site) ⊎ (drop_slashes r ≡ base_url site))

    names : is_target site b entry ≡ true → Names (requested_of b entry)
    names h = elim (Bool-cases (is_empty (requested_of b entry))) [
      | inl nothing ↦ inl nothing
      | inr something ↦
          elim (Bool-cases (text_eq (resource_url site) (drop_slashes (requested_of b entry)))) [
            | inl endpoint ↦ inr (inl (sym ((text_eq_iff _ _).0 endpoint)))
            | inr other ↦ inr (inr (sym ((text_eq_iff _ _).0 (ground arith))))
          ]
    ]

    from : {r : Text} → requested_of b entry ≡ r → Names r → is_target site b entry ≡ true
    from e (inl nothing) = rw (e, nothing) refl
    from {r} e (inr (inl endpoint)) = ground (arith, e, endpoint, text_eq_refl (resource_url site))
    from {r} e (inr (inr server)) = ground (arith, e, server, text_eq_refl (base_url site))

-- The conditions under which a request redeems a code.
pub record IsRedeemable (codec : Codec) (site : Site) (b : Fields) (draw : Draw) (s : State)
    (entry : CodeEntry) : Type 0 where
  pub known : lookup (or_empty b.code) s.codes ≡ some entry
  pub given : is_empty (or_empty b.code) ≡ false
  pub in_time : draw.now ≤ entry.expires
  pub same_client : IsOwnClient b entry.client_id
  pub same_uri : b.redirect_uri ≡ some entry.redirect_uri
  pub has_verifier : is_empty (or_empty b.code_verifier) ≡ false
  pub verified : codec.sha256_base64url (or_empty b.code_verifier) ≡ entry.challenge
  pub targeted : IsTarget site b entry

pub is_text-eq : (o : Option Text) (s : Text) → is_text o s ≡ true → o ≡ some s
is_text-eq none s h = cc
is_text-eq (some t) s h = ap some ((text_eq_iff t s).0 h)

-- The reply grants something.
abbrev pub is_granted : TokenReply → Bool
is_granted (failed e w) = false
is_granted (granted c r) = true

redeem_entry-IsRedeemable :
    (codec : Codec) (site : Site) (b : Fields) (draw : Draw) (s : State) (entry : CodeEntry)
    → is_granted (redeem_entry codec site b draw s entry).1 ≡ true
    → (draw.now ≤ entry.expires)
      × (other_client b entry.client_id ≡ false)
      × (is_text b.redirect_uri entry.redirect_uri ≡ true)
      × (is_empty (or_empty b.code_verifier) ≡ false)
      × (text_eq (codec.sha256_base64url (or_empty b.code_verifier)) entry.challenge ≡ true)
      × (is_target site b entry ≡ true)
redeem_entry-IsRedeemable codec site b draw s entry h =
    (ground arith, ground arith, ground arith, ground arith, ground arith, ground arith)

-- At the token endpoint a request for the grant by code is answered with a token exactly if its
-- code is stored, has not expired, belongs to the client that the request names, if it names one,
-- and was asked for with the same redirect address; if the request has a verifier whose hash is the
-- stored challenge; and if the resource, if any, is this server. The token then names that client
-- and this server as its audience.
pub code_grant_iff :
    (codec : Codec) (site : Site) (b : Fields) (draw : Draw) (s : State)
    → (is_granted (code_grant codec site b draw s).1 ≡ true
        → (entry : CodeEntry) × IsRedeemable codec site b draw s entry)
      × ((entry : CodeEntry)
          → IsRedeemable codec site b draw s entry
          → (code_grant codec site b draw s).1
            ≡ granted (claims_of site draw entry.client_id (resource_url site)) draw.refresh_token)
unfolding code_grant
code_grant_iff codec site b draw s = (to, from)
  where
    to :
        is_granted (code_grant codec site b draw s).1 ≡ true
        → (entry : CodeEntry) × IsRedeemable codec site b draw s entry
    to h = elim (Bool-cases (is_empty (or_empty b.code))) [
      | inl no_code ↦ absurd (ground arith)
      | inr code ↦ elim (Option-cases (lookup (or_empty b.code) s.codes)) [
        | inl unknown ↦ absurd (ground arith)
        | inr (entry, found) ↦
            let (t, c, u, v, p, r) =
              redeem_entry-IsRedeemable codec site b draw
                (record s { codes = erase (or_empty b.code) s.codes }) entry
                (rw (code, found) at h) in
            (
              entry,
              record {
                known = found;
                given = code;
                in_time = t;
                same_client = (other_client_iff b entry.client_id).0 c;
                same_uri = is_text-eq b.redirect_uri entry.redirect_uri u;
                has_verifier = v;
                verified = (text_eq_iff _ entry.challenge).0 p;
                targeted = (is_target_iff site b entry).0 r;
              },
            )
      ]
    ]

    from :
        (entry : CodeEntry)
        → IsRedeemable codec site b draw s entry
        → (code_grant codec site b draw s).1
          ≡ granted (claims_of site draw entry.client_id (resource_url site)) draw.refresh_token
    from entry r =
        let late : ltb entry.expires draw.now ≡ false = ground (arith, r.in_time) in
        let uri : is_text b.redirect_uri entry.redirect_uri ≡ true =
          rw r.same_uri (text_eq_refl entry.redirect_uri) in
        let hash : text_eq (codec.sha256_base64url (or_empty b.code_verifier)) entry.challenge
            ≡ true =
          rw r.verified (text_eq_refl entry.challenge) in
        let client = (other_client_iff b entry.client_id).1 r.same_client in
        let target = (is_target_iff site b entry).1 r.targeted in
        rw (r.given, r.known, late, client, uri, r.has_verifier, hash, target)
          (unfold issue in refl)
