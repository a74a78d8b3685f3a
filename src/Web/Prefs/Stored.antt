-- ===== src/Web/Prefs/Stored.antt =====
-- Preferences that are read back, in apps/web/src/lib/payment-handoff/prefs.ts.
use pooli.Base.{some, Text, text_eq, if◌then◌else◌, ◌≡◌, refl, ap, ◌∙◌, arith}
use pooli.Base.Dict.{Dict, lookup-insert_self, lookup-insert_other}
use pooli.Web.Handoff.{WalletId, tronlink, walletconnect, trust, other, qr}
use pooli.Web.Prefs.{
  network_key, wallet_key, is_known_network, known_network, get_preferred_network,
  set_preferred_network, wallet_text, known_wallet, get_preferred_wallet, set_preferred_wallet,
}

known-wallet_text : (w : WalletId) → known_wallet (some (wallet_text w)) ≡ some w
unfolding text_eq
known-wallet_text tronlink = refl
known-wallet_text walletconnect = refl
known-wallet_text trust = refl
known-wallet_text other = refl
known-wallet_text qr = refl

-- Where there is a storage, a wallet that was set for a network is read back for it, and the preferred
-- network stays as it was.
pub get-set_preferred_wallet :
    (network : Text) (w : WalletId) (m : Dict Text)
    → (get_preferred_wallet network (set_preferred_wallet network w (some m)) ≡ some w)
      × (get_preferred_network (set_preferred_wallet network w (some m))
          ≡ get_preferred_network (some m))
unfolding get_preferred_wallet set_preferred_wallet get_preferred_network
get-set_preferred_wallet network w m = (
  ap known_wallet (lookup-insert_self (wallet_key network) (wallet_text w) m) ∙ known-wallet_text w,
  ap known_network (
      lookup-insert_other (wallet_key network) network_key (wallet_text w) m
        (unfold text_eq in refl)),
)

-- A network that was set is read back if it is one of the two that are known; another changes nothing.
pub get-set_preferred_network :
    (network : Text) (m : Dict Text)
    → get_preferred_network (set_preferred_network network (some m))
      ≡ (if is_known_network network then some network else get_preferred_network (some m))
unfolding set_preferred_network get_preferred_network
get-set_preferred_network network m = ground (arith, lookup-insert_self network_key network m)
