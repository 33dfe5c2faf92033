-- ===== src/Satoshi.antt =====
-- satoshi/ZrSatoshiBitcoin.cpp: Bitcoin through the JSON-RPC server of a Satoshi client. The server is no part of the
-- repository: it is a record of the calls that are made, each of which may throw and may change the server's state `W`.
-- A JSON number is a double, a type `D` with the conversions that the code makes. Of a value that is missing in an
-- answer jsoncpp makes the empty text, 0 or 0.0.
pub mod Pays
pub mod Example
mod Tests
use zero_reserve.Base.{
  ℕ, Bool, true, List, [], ◌∷◌, ◌++◌, Option, none, some, Text, is_empty, if◌then◌else◌,
}
use zero_reserve.Base.Dict.{Dict, assign}
use zero_reserve.Number.{Number, ◌⊖◌, ◌≺◌}
use zero_reserve.Database.Wallets.{WalletType, wifimport}
use zero_reserve.Orders.{RetVal, success, failure}

pub record Doubles (N D : Type 0) : Type 0 where
  pub zero_double : D
  pub to_double : N → D
  -- ZR_Number::fromDouble
  pub from_double : D → N
  -- What the constructor of ZR_Number makes of a double, as an int64_t.
  pub truncated : D → N

-- An entry of the answer to `listunspent`.
pub record Unspent (D : Type 0) : Type 0 where
  pub txid : Text
  pub vout : ℕ
  pub unspent_amount : D

-- The answer to `signrawtransaction`; `complete` is `none` where it is missing.
pub record Signed : Type 0 where
  pub complete : Option Bool
  pub signed_hex : Text

-- The answer to `getinfo`.
pub record Info (D : Type 0) : Type 0 where
  pub on_testnet : Bool
  pub info_balance : D
  pub version : ℕ
  pub connections : ℕ

-- Bitcoin::BtcInfo
pub record BtcInfo (N : Type 0) : Type 0 where
  pub btc_testnet : Bool
  pub btc_balance : N
  pub btc_version : ℕ
  pub btc_connections : ℕ

-- A call of the server; `none` where it throws.
abbrev pub Call : Type 0 → Type 0 → Type 0
Call W A = W → Option A × W

pub record Rpc (D W : Type 0) : Type 0 where
  pub get_info : Call W (Info D)
  pub get_new_address : Call W Text
  pub list_address_groupings : Call W (List (List (Text × D)))
  pub send_to_address : Text → D → Call W Text
  -- `listunspent` for one address, with 0 to 999999 confirmations
  pub list_unspent : Text → Call W (List (Unspent D))
  pub create_raw_transaction : Text → ℕ → Dict D → Call W Text
  pub sign_raw_transaction : Text → Call W Signed
  -- The `txid` of the answer.
  pub decode_raw_transaction : Text → Call W Text
  pub lock_unspent : Bool → Text → ℕ → Call W Bool
  pub send_raw_transaction : Text → Call W Text
  -- The `pubkey` of the answer.
  pub validate_address : Text → Call W Text
  -- The `confirmations` of the answer.
  pub get_raw_transaction : Text → Call W ℕ

-- class SatoshiWallet
pub record SatoshiWallet (N : Type 0) : Type 0 where
  pub address : Text
  pub wallet_balance : N

-- The reference parameters of mkRawTx.
pub record RawVars : Type 0 where
  pub send_addr : Text
  pub out_tx : Text
  pub out_id : Text

module _ {W A B : Type 0} where
  -- What follows a call, unless it throws.
  unfoldable pub and_then : Option A × W → (A → W → Option B × W) → Option B × W
  and_then (none, w) f = (none, w)
  and_then (some a, w) f = f a w

module _ {A S : Type 0} where
  -- A `catch` that goes on with a value.
  unfoldable pub or_else : A → Option A × S → A × S
  or_else a (none, s) = (a, s)
  or_else a (some x, s) = (x, s)

module _ {N D W : Type 0} ⦃num : Number N⦄ (dbl : Doubles N D) (rpc : Rpc D W) where
  -- ZrSatoshiBitcoin::newAddress: empty where the call throws.
  unfoldable pub new_address : W → Text × W
  unfolding or_else
  new_address w = or_else [] (rpc.get_new_address w)

  -- `res[ 0u ]`
  unfoldable pub first_unspent : List (Unspent D) → Unspent D
  first_unspent [] = record { txid = []; vout = 0; unspent_amount = dbl.zero_double }
  first_unspent (u ∷ us) = u

  -- mkRawTx: the outputs. Where there is change, the sender's address becomes a new one.
  unfoldable pub destinations : N → Text → N → RawVars → W → Dict D × RawVars × W
  unfolding new_address
  destinations btc recv change v w =
      let dest = assign [] recv (dbl.to_double btc) in
      let (addr, w') = new_address w in
      if num.nought ≺ change
      then (assign dest addr (dbl.to_double change), record v { send_addr = addr }, w')
      else (dest, v, w)

  -- mkRawTx behind decoderawtransaction.
  unfoldable pub identify : Option Text × W → RawVars → Option RetVal × RawVars × W
  identify (none, w) v = (none, v, w)
  identify (some id, w) v = (some success, record v { out_id = id }, w)

  -- mkRawTx behind the signing. `!res[ "complete" ]` asks whether the value is missing.
  unfoldable pub finish_raw : Option Bool → Text → RawVars → W → Option RetVal × RawVars × W
  unfolding identify
  finish_raw none hex v w = (some failure, v, w)
  finish_raw (some c) hex v w =
      identify (rpc.decode_raw_transaction hex w) (record v { out_tx = hex })

  unfoldable pub sign_raw : Option Signed × W → RawVars → Option RetVal × RawVars × W
  unfolding finish_raw
  sign_raw (none, w) v = (none, v, w)
  sign_raw (some signed, w) v = finish_raw signed.complete signed.signed_hex v w

  unfoldable pub create_raw : Option Text × W → RawVars → Option RetVal × RawVars × W
  unfolding sign_raw
  create_raw (none, w) v = (none, v, w)
  create_raw (some raw, w) v = sign_raw (rpc.sign_raw_transaction raw w) v

  -- mkRawTx from the outputs on.
  unfoldable pub spend : Unspent D → Dict D × RawVars × W → Option RetVal × RawVars × W
  unfolding create_raw
  spend u (dest, v, w) = create_raw (rpc.create_raw_transaction u.txid u.vout dest w) v

  -- mkRawTx behind listunspent.
  unfoldable pub pay_out :
      N → Text → RawVars → Option (List (Unspent D)) × W → Option RetVal × RawVars × W
  unfolding first_unspent destinations spend
  pay_out btc recv v (none, w) = (none, v, w)
  pay_out btc recv v (some us, w) =
      let u = first_unspent us in
      let change = dbl.from_double u.unspent_amount ⊖ btc in
      if change ≺ num.nought
      then (some failure, v, w)
      else spend u (destinations btc recv change v w)

  -- The `catch` of mkRawTx.
  unfoldable pub caught : Option RetVal × RawVars × W → RetVal × RawVars × W
  caught (none, v, w) = (failure, v, w)
  caught (some r, v, w) = (r, v, w)

  -- ZrSatoshiBitcoin::mkRawTx
  unfoldable pub mk_raw_tx : N → Text → RawVars → W → RetVal × RawVars × W
  unfolding pay_out caught
  mk_raw_tx btc recv v w = caught (pay_out btc recv v (rpc.list_unspent v.send_addr w))

  -- mkOrderAddress behind sendtoaddress, whose answer is `id`.
  unfoldable pub lock_output : Text → Text → W → Option Text × W
  unfolding and_then first_unspent
  lock_output addr id w = and_then (rpc.list_unspent addr w) (λ us w1.
      and_then (rpc.lock_unspent true id (first_unspent us).vout w1) (λ done w2. (some addr, w2)))

  -- ZrSatoshiBitcoin::mkOrderAddress
  unfoldable pub mk_order_address : N → W → Text × W
  unfolding new_address and_then lock_output or_else
  mk_order_address amount w =
      let (addr, w1) = new_address w in
      if is_empty addr
      then (addr, w1)
      else or_else []
          (and_then (rpc.send_to_address addr (dbl.to_double amount) w1) (lock_output addr))

  -- ZrSatoshiBitcoin::sendRaw
  unfoldable pub send_raw : Text → W → RetVal × W
  unfolding and_then or_else
  send_raw hex w =
      or_else failure (and_then (rpc.send_raw_transaction hex w) (λ id w1. (some success, w1)))

  -- ZrSatoshiBitcoin::send
  unfoldable pub send : Text → N → W → W
  send dest amount w = (rpc.send_to_address dest (dbl.to_double amount) w).1

  -- ZrSatoshiBitcoin::getConfirmations
  unfoldable pub get_confirmations : Text → W → ℕ × W
  unfolding or_else
  get_confirmations id w = or_else 0 (rpc.get_raw_transaction id w)

  -- What getinfo makes of the answer.
  unfoldable pub btc_info : Info D → BtcInfo N
  btc_info i = record {
    btc_testnet = i.on_testnet;
    btc_balance = dbl.from_double i.info_balance;
    btc_version = i.version;
    btc_connections = i.connections;
  }

  -- ZrSatoshiBitcoin::getinfo; `none` is ZR_FAILURE.
  unfoldable pub getinfo : W → Option (BtcInfo N) × W
  unfolding and_then btc_info
  getinfo w = and_then (rpc.get_info w) (λ i w1. (some (btc_info i), w1))

  -- ZrSatoshiBitcoin::getBalance, which does not catch: `none` where it throws.
  unfoldable pub get_balance : W → Option N × W
  unfolding and_then
  get_balance w = and_then (rpc.get_info w) (λ i w1. (some (dbl.truncated i.info_balance), w1))

  -- The two loops of loadWallets.
  unfoldable pub wallets_of : List (Text × D) → List (SatoshiWallet N)
  wallets_of [] = []
  wallets_of ((a, d) ∷ ps) =
      record { address = a; wallet_balance = dbl.truncated d } ∷ wallets_of ps

  unfoldable pub wallets_in : List (List (Text × D)) → List (SatoshiWallet N)
  unfolding wallets_of
  wallets_in [] = []
  wallets_in (g ∷ gs) = wallets_of g ++ wallets_in gs

  -- ZrSatoshiBitcoin::loadWallets
  unfoldable pub load_satoshi_wallets : List (SatoshiWallet N) → W → List (SatoshiWallet N) × W
  unfolding and_then or_else wallets_in
  load_satoshi_wallets ws w =
      or_else ws
        (and_then (rpc.list_address_groupings w) (λ gs w1. (some (ws ++ wallets_in gs), w1)))

  -- ZrSatoshiBitcoin::mkWallet; `none` is the null pointer.
  unfoldable pub mk_satoshi_wallet : WalletType → W → Option (SatoshiWallet N) × W
  unfolding and_then
  mk_satoshi_wallet wifimport w =
      and_then (rpc.get_new_address w)
        (λ a w1. (some (record { address = a; wallet_balance = num.nought }), w1))
  mk_satoshi_wallet _ w = (none, w)

  -- SatoshiWallet::getPubKey, which does not catch.
  unfoldable pub get_pub_key : SatoshiWallet N → W → Option Text × W
  get_pub_key wallet w = rpc.validate_address wallet.address w
