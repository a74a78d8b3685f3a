-- ===== src/Agent/Snapshot/Sources.antt =====
-- Where a snapshot comes from.
use pooli.Base.{ℕ, false, some, Text, is_empty, ◌≡◌, ◌≤◌}
use pooli.Agent.Snapshot.{
  OrderSnapshot, Body, responded, Deps, gateway_secret_of, map_pooli_api_snapshot, snapshot_url,
  format_usdt_display,
}

-- A snapshot that the commerce API has vouched for.
pub record IsVouched (deps : Deps) (id : Text) (snap : OrderSnapshot) : Type 0 where
  pub secret : is_empty (gateway_secret_of deps) ≡ false
  pub status : ℕ
  pub body : Body
  pub answer :
      deps.fetch (snapshot_url deps id) (gateway_secret_of deps) ≡ responded status (some body)
  pub success : (200 ≤ status) × (status ≤ 299)
  pub mapped : map_pooli_api_snapshot body ≡ some snap
  pub has_merchant : is_empty snap.merchant_id ≡ false
  pub has_slug : is_empty snap.slug ≡ false
  pub shown : snap.display ≡ format_usdt_display snap.base_units
