-- ===== src/Examples/Wallets.antt =====
-- The theorems about the checkout and the launch of wallets in apps/web at concrete inputs.
use pooli.Base.{List, ◌≤◌, refl}
use pooli.Base.{
  true, false, [], ◌∷◌, ◌++◌, none, some, Text, codes, take, drop, length, replicate, every, ◌≡◌,
  arith,
}
use pooli.Domain.Platform.{is_hex_lower}
use pooli.Web.Handoff.{HandoffInput, walletconnect}
use pooli.Web.Wallet.Amount.{pooli_base_to_on_chain_amount, encode_erc20_transfer}
use pooli.Web.Wallet.Amount.Calldata.{hex_number, encode_erc20_transfer-read}
use pooli.Web.Wallet.Session.{no_session}
use pooli.Web.Wallet.Evm.{Wallet}
use pooli.Web.Wallet.Launch.{launch_wallet_handoff}
use pooli.Web.Wallet.Launch.Safety.{IsSafe, launch_wallet_handoff-IsSafe}
use pooli.Web.Handoff.{PaymentOption}
use pooli.Web.Checkout.{Pay}
use pooli.Web.Checkout.Steps.{
  Event, loads, chooses, refreshes, auto_selects, start, handle, run, picks, is_payable, keeps,
  run-is_payable,
}
use pooli.Examples.{env, env-IsStandard}

-- 1.5 USDT to an address of four digits, on a token of 18 decimals
encode_erc20_transfer-read_example :
    (amount : Text) × (pooli_base_to_on_chain_amount 1500000 18 ≡ some amount)
    × let bytes = encode_erc20_transfer env (codes "0x" ++ codes "Ab12") amount in
      (take 10 bytes ≡ codes "0xa9059cbb")
      × (take 64 (drop 10 bytes) ≡ replicate 60 b'0' ++ codes "ab12")
      × (length (drop 74 bytes) ≡ 64)
      × (every is_hex_lower (drop 74 bytes) ≡ true)
      × (hex_number 0 (drop 74 bytes) ≡ 1500000000000000000)
encode_erc20_transfer-read_example =
    encode_erc20_transfer-read env 1500000 18 (codes "Ab12") env-IsStandard (omega arith)
      (omega arith, (omega arith, (omega arith, (omega arith, tt)))) (omega arith) (omega arith)

abbrev checkout : HandoffInput
checkout = record {
  option = record {
    id = codes "o1";
    status = none;
    network = codes "bsc";
    chain_id = some 56;
    token_contract = some (codes "0x55d3");
    destination_address = codes "0xab12";
    pay_usdt_amount = codes "1.5";
    pay_usdt_amount_base_units = some 1500000;
    asset = none;
    token_decimals = none;
    payment_uri = some (codes "ethereum:0x55d3@56/transfer");
  };
  env = record {
    is_mobile = true;
    is_desktop = false;
    is_in_app_browser = false;
    in_app_kind = none;
    is_ios = false;
    is_android = true;
  };
  preferred_wallet_id = none;
  wallet_connect_project_id = some (codes "pid");
}

-- It knows the chain and has one account, which it names when it is asked.
abbrev wallet : Wallet
wallet = record {
  works = λ key. true;
  has_connect = true;
  has_enable = true;
  open_error = none;
  switch_error = none;
  add_error = none;
  own_accounts = [];
  accounts_error = none;
  asked_accounts = codes "0xfeed" ∷ [];
  send_error = none;
}

launch_wallet_handoff-IsSafe_example : IsSafe env checkout (
    launch_wallet_handoff env
      (some (λ u. true))
      none
      wallet
      checkout
      (some walletconnect)
      no_session)
launch_wallet_handoff-IsSafe_example =
    launch_wallet_handoff-IsSafe env (some (λ u. true)) none wallet checkout (some walletconnect)
      no_session

abbrev tron_option : PaymentOption
tron_option = record {
  id = codes "o2";
  network = codes "tron";
  chain_id = none;
  token_contract = none;
  destination_address = codes "T1";
  pay_usdt_amount = codes "2";
  pay_usdt_amount_base_units = none;
  asset = none;
  token_decimals = none;
  payment_uri = none;
  status = some (codes "ACTIVE");
}

abbrev order : Pay
order = record {
  has_fields = false;
  customer_submitted = false;
  payment_intent = some (record { status = codes "AWAITING_PAYMENT"; options = tron_option ∷ [] });
  enabled_networks = none;
}

abbrev handlers : List Event
handlers =
    loads none (some order)
    ∷ auto_selects none
    ∷ chooses (codes "tron") tron_option (some order)
    ∷ auto_selects none
    ∷ refreshes (some (codes "tron")) order
    ∷ []

run-is_payable_example :
    (is_payable (run handlers start) ≡ true)
    × (keeps
          (run handlers start).selected
          (handle (refreshes none order) (run handlers start)).selected
        ≡ true)
    × (picks handlers start ≤ 1)
run-is_payable_example =
    run-is_payable handlers (refreshes none order) (tt, (tt, (tt, (tt, (refl, tt))))) refl
