-- ===== src/Web/Wallet/Evm.antt =====
-- apps/web/src/lib/payment-handoff/evm.ts: a payment through WalletConnect, and the fallback that window
-- a payment URI. The answers of the wallet are a parameter; its calls are listed in their order.
use pooli.Base.{
  ℕ, Bool, true, false, ◌&&◌, ◌||◌, List, [], ◌∷◌, map, Option, none, some, Text, codes, text_eq,
  trim, includes, is_empty, ◌==◌, if◌then◌else◌,
}
use pooli.Base.Options.{or_empty}
use pooli.Domain.Platform.{Platform}
use pooli.Agent.Redact.{fold_case}
use pooli.Web.Handoff.{PaymentOption, HandoffInput}
use pooli.Web.Wallet.Amount.{pooli_base_to_on_chain_amount, encode_erc20_transfer, to_hex_quantity}
use pooli.Web.Wallet.Session.{
  Key, Session, drop_wallet_connect_provider, get_wallet_connect_provider,
}

pub data LaunchReason : Type 0 where
  unsupported missing_project_id user_rejected failed iab_blocked : LaunchReason

pub data LaunchResult : Type 0 where
  launched : (method : Text) → LaunchResult
  not_launched : LaunchReason → (message : Option Text) → LaunchResult

pub record Transaction : Type 0 where
  pub from : Text
  pub to : Text
  pub call_data : Text
  pub value : Text

pub data Call : Type 0 where
  connecting : (chain_id : ℕ) → Call
  enabling : Call
  requesting_accounts : Call
  switching_chain : (chain_id : Text) → Call
  adding_chain : Call
  asking_accounts : Call
  sending : Transaction → Call

-- The code of an error of a wallet: 4902, -32603 or another
pub data ErrorCode : Type 0 where
  unknown_chain internal_error other_error : ErrorCode

-- Which parts a wallet has, and how it answers: `none` if a call succeeds, else the message of the
-- error that it throws.
pub record Wallet : Type 0 where
  pub works : Key → Bool
  pub has_connect : Bool
  pub has_enable : Bool
  pub open_error : Option Text
  pub switch_error : Option (ErrorCode × Text)
  pub add_error : Option Text
  pub own_accounts : List Text
  pub accounts_error : Option Text
  pub asked_accounts : List Text
  pub send_error : Option Text

-- How the block behind `try` ends.
pub data Ended : Type 0 where
  sent : Ended
  no_account : Ended
  threw : (message : Text) → Ended

-- A call and what follows if it does not throw
abbrev pub after_call : Call → Option Text → List Call × Ended → List Call × Ended
after_call c none (cs, e) = (c ∷ cs, e)
after_call c (some message) rest = (c ∷ [], threw message)

abbrev pub opening : Wallet → ℕ → Call
opening w chain_id =
    if w.has_connect
    then connecting chain_id
    else if w.has_enable
    then enabling
    else requesting_accounts

abbrev pub is_addable : ErrorCode → Bool
is_addable other_error = false
is_addable _ = true

-- `ensureChain`
abbrev pub ensure_chain :
    Wallet → ℕ → Option (ErrorCode × Text) → List Call × Ended → List Call × Ended
ensure_chain w chain_id none rest =
    after_call (switching_chain (to_hex_quantity chain_id)) none rest
ensure_chain w chain_id (some (code, message)) rest =
    if is_addable code && chain_id == 56
    then after_call (switching_chain (to_hex_quantity chain_id)) none
        (after_call adding_chain w.add_error rest)
    else after_call (switching_chain (to_hex_quantity chain_id)) (some message) rest

-- What a payment needs of its option
pub record EvmPayment : Type 0 where
  pub chain_id : ℕ
  pub token : Text
  pub recipient : Text
  pub base_units : ℕ
  pub decimals : ℕ

abbrev pub or_number : ℕ → Option ℕ → ℕ
or_number d none = d
or_number d (some n) = n

abbrev pub with_units : PaymentOption → Option ℕ → Option EvmPayment
with_units option none = none
with_units option (some units) =
    let chain_id = or_number 0 option.chain_id in
    let token = or_empty option.token_contract in
    let decimals =
      or_number (if text_eq option.network (codes "bsc") then 18 else 6) option.token_decimals in
    if chain_id == 0 || is_empty token || is_empty option.destination_address
    then none
    else some (record {
      chain_id = chain_id;
      token = token;
      recipient = option.destination_address;
      base_units = units;
      decimals = decimals;
    })

-- `none` if a field is missing
unfoldable pub evm_payment : PaymentOption → Option EvmPayment
evm_payment option = with_units option option.pay_usdt_amount_base_units

abbrev pub transfer : Platform → EvmPayment → Text → Text → Transaction
transfer env pay from amount = record {
  from = from;
  to = pay.token;
  call_data = encode_erc20_transfer env pay.recipient amount;
  value = codes "0x0";
}

abbrev pub send_amount : Platform → Wallet → EvmPayment → Text → Option Text → List Call × Ended
send_amount env w pay from none = ([], threw (codes "token decimals too small"))
send_amount env w pay from (some amount) =
    after_call (sending (transfer env pay from amount)) w.send_error ([], sent)

abbrev pub send_from : Platform → Wallet → EvmPayment → List Text → List Call × Ended
send_from env w pay [] = ([], no_account)
send_from env w pay (from ∷ others) =
    if is_empty from
    then ([], no_account)
    else send_amount env w pay from (pooli_base_to_on_chain_amount pay.base_units pay.decimals)

abbrev pub with_accounts : Platform → Wallet → EvmPayment → List Text → List Call × Ended
with_accounts env w pay [] =
    after_call asking_accounts w.accounts_error (send_from env w pay w.asked_accounts)
with_accounts env w pay (a ∷ more) = send_from env w pay (a ∷ more)

unfoldable pub pay_calls : Platform → Wallet → EvmPayment → List Call × Ended
pay_calls env w pay =
    after_call (opening w pay.chain_id) w.open_error
      (ensure_chain w pay.chain_id w.switch_error (with_accounts env w pay w.own_accounts))

-- `/reject|denied|cancel/i.test(s)`
unfoldable pub is_rejection : Text → Bool
is_rejection s =
    let low = map fold_case s in
    includes low (codes "reject") || includes low (codes "denied") || includes low (codes "cancel")

-- What a launch has done: the calls of the wallet, the addresses that were opened, the session, and the
-- answer.
pub record Launch : Type 0 where
  pub calls : List Call
  pub opened : List Text
  pub session : Session
  pub result : LaunchResult

abbrev pub only : Session → LaunchResult → Launch
only s r = record { calls = []; opened = []; session = s; result = r }

abbrev pub after_pay : Session → List Call × Ended → Launch
after_pay s (cs, sent) = record {
  calls = cs;
  opened = [];
  session = s;
  result = launched (codes "walletconnect");
}
after_pay s (cs, no_account) = record {
  calls = cs;
  opened = [];
  session = s;
  result = not_launched failed (some (codes "No wallet account"));
}
after_pay s (cs, threw message) = record {
  calls = cs;
  opened = [];
  session = if is_rejection message then s else drop_wallet_connect_provider s;
  result = not_launched (if is_rejection message then user_rejected else failed) (some message);
}

abbrev pub pay_through : Platform → Wallet → EvmPayment → Session × Option Key → Launch
pay_through env w pay (s, none) =
    only s (not_launched failed (some (codes "WalletConnect unavailable")))
pay_through env w pay (s, some key) = after_pay s (pay_calls env w pay)

abbrev pub pay_option : Platform → Wallet → Text → Session → Option EvmPayment → Launch
pay_option env w project_id s none =
    only s (not_launched unsupported (some (codes "Missing EVM payment fields")))
pay_option env w project_id s (some pay) = pay_through env w pay (
    get_wallet_connect_provider w.works
      (record { project_id = project_id; chain_id = pay.chain_id }) s)

-- `wcProjectId`; `configured` is the environment's project id.
unfoldable pub wc_project_id : (configured explicit : Option Text) → Text
wc_project_id configured explicit =
    trim (if is_empty (or_empty explicit) then or_empty configured else or_empty explicit)

-- `payWithWalletConnect`
unfoldable pub pay_with_wallet_connect :
    Platform → (configured : Option Text) → Wallet → HandoffInput → Session → Launch
pay_with_wallet_connect env configured w input s =
    let project_id = wc_project_id configured input.wallet_connect_project_id in
    if is_empty project_id
    then only s (not_launched missing_project_id none)
    else pay_option env w project_id s (evm_payment input.option)

-- `window.location.href = uri`, where `none` is an undefined `window`, and `opens` says whether the
-- browser takes the address or throws
abbrev pub open_uri :
    (window : Option (Text → Bool)) → Text → (method : Text) → LaunchResult → Session → Launch
open_uri none uri method refused s = only s (not_launched unsupported none)
open_uri (some opens) uri method refused s =
    if opens uri
    then record { calls = []; opened = uri ∷ []; session = s; result = launched method }
    else only s refused

-- `launchEip681`
unfoldable pub launch_eip681 : (window : Option (Text → Bool)) → HandoffInput → Session → Launch
launch_eip681 window input s =
    let uri = or_empty input.option.payment_uri in
    if is_empty uri
    then only s (not_launched unsupported none)
    else open_uri window uri (codes "eip681") (not_launched failed none) s
