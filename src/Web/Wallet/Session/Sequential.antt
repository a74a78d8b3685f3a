-- ===== src/Web/Wallet/Session/Sequential.antt =====
-- The WalletConnect session of apps/web/src/lib/payment-handoff/evm.ts, where no two calls overlap.
use pooli.Base.{
  Bool, true, Option, none, some, text_eq_iff, is_empty, ==_iff, Bool-cases, inl, inr, ◌⊎◌, ◌≡◌,
  refl, ap, arith,
}
use pooli.Web.Wallet.Session.{
  Key, Session, key_eq, drop_wallet_connect_provider, awaits, begin, settle, finish,
  get_wallet_connect_provider,
}

-- An initialisation is kept exactly for the provider that is kept.
abbrev pub Settled : Session → Type 0
Settled s = (s.cached ≡ none) × (s.provider_init ≡ none) ⊎ ((k : Key) × (s.cached ≡ some k))

key_eq-eq : (a b : Key) → key_eq a b ≡ true → a ≡ b
key_eq-eq a b h =
    let project : a.project_id ≡ b.project_id =
      (text_eq_iff a.project_id b.project_id).0 (ground arith) in
    let chain : a.chain_id ≡ b.chain_id = (==_iff a.chain_id b.chain_id).0 (ground arith) in cc

-- What a call gives is for the project and the chain that it names, and leaves the session settled.
abbrev pub GivesOwn : Key → Session × Option Key → Type 0
GivesOwn key (s, o) = Settled s × ((o ≡ none) ⊎ (o ≡ some key))

started-GivesOwn :
    (works : Key → Bool) (key : Key) (s : Session) → GivesOwn key (finish works (s, awaits key))
unfolding settle
started-GivesOwn works key s = elim (Bool-cases (works key)) [
  | inl fine ↦ rw fine (inr (key, refl), inr refl)
  | inr fails ↦ rw fails (inl (refl, refl), inl refl)
]

-- From a settled session, a call that no other overlaps gives no provider but one for the project and the
-- chain that it names, and leaves the session settled.
pub get_wallet_connect_provider-GivesOwn :
    (works : Key → Bool) (key : Key) (s : Session)
    → Settled s
    → GivesOwn key (get_wallet_connect_provider works key s)
unfolding get_wallet_connect_provider begin drop_wallet_connect_provider
get_wallet_connect_provider-GivesOwn works key s h = elim (Bool-cases (is_empty key.project_id)) [
  | inl blank ↦ rw blank (h, inl refl)
  | inr named ↦ elim h [
    | inl (nothing, idle) ↦ rw (named, nothing, idle) (started-GivesOwn works key _)
    | inr (k, cached) ↦ elim (Bool-cases (key_eq k key)) [
      | inl same ↦ rw (named, cached, same) (inr (k, refl), inr (ap some (key_eq-eq k key same)))
      | inr other ↦ rw (named, cached, other) (started-GivesOwn works key _)
    ]
  ]
]
