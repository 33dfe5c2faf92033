-- ===== src/Dialog.antt =====
-- ZeroReserveDialog.cpp, frienddetailsdialog.cpp and FriendResetDialog.cpp: what the user's entries do. The texts of the widgets
-- are arguments. An order is made at a new pointer `r`; its id, a hash, comes from OpenSSL, and its address from the
-- Bitcoin back end, which has a state `S`. `parse` is fromDecimalString with boost's constructor.
pub mod Friends
pub mod Entries
pub mod Funding
mod Tests
use zero_reserve.Base.{
  ℕ, Bool, true, false, List, [], ◌∷◌, Option, none, some, Text, is_empty, ◌||◌, not, if◌then◌else◌,
}
use zero_reserve.Base.Int.{ℤ}
use zero_reserve.Currency.{Build, testnet, main, get_currency_by_name, symbol_of, invalid}
use zero_reserve.Number.{Number, ◌≺◌}
use zero_reserve.Money.{Credit, Bank, new_credit, load_peer, update_credit}
use zero_reserve.Money.Totals.{delete_peer_record}
use zero_reserve.Orders.{
  Order, OrderType, bid, ask, fresh, Desk, Which, bids, asks, write, process_my_order,
}
use zero_reserve.Orders.Sorting.{Sort}
use zero_reserve.Satoshi.{BtcInfo}

-- What the user is told, and `threw` where an exception leaves the handler. `placed`: the order went to processMyOrder.
pub data Notice : Type 0 where
  not_positive cannot_place placed no_entry threw : Notice

-- What stands around the dialog while one entry is handled. `failing`: the insert statement fails.
pub record Desktop (N S : Type 0) : Type 0 where
  pub build : Build
  pub failing : Bool
  pub stored : N → N
  pub sort : Sort
  pub now : ℤ
  pub id_of : Order N → Text
  pub mk_address : N → S → Text × S
  pub parse : Text → Option N
  -- ui.currencySelector1
  pub selected : Text

module _ {N S : Type 0} ⦃num : Number N⦄ (t : Desktop N S) where
  -- The order that doOrder makes, without its id.
  unfoldable pub entered : OrderType → N → N → Order N
  unfolding get_currency_by_name
  entered type price amount = record {
    order_id = [];
    is_my_order = true;
    order_type = type;
    amount = amount;
    price = price;
    currency = get_currency_by_name t.build t.selected;
    time_stamp = t.now;
    purpose = fresh;
    commitment = num.nought;
    btc_addr = [];
    locked = false;
    ignored = false;
    matched = [];
  }

  unfoldable pub with_id : Order N → Order N
  with_id o = record o { order_id = t.id_of o }

  -- The end of doOrder. It does not look at what processMyOrder returns.
  unfoldable pub submit : Which → ℕ → Order N → Desk N → Desk N
  unfolding process_my_order write
  submit w r o d =
      (process_my_order t.failing t.stored t.sort w r (record d { heap = write d.heap r o })).1

  -- doOrder behind the tests, by the type of the order.
  unfoldable pub place : Which → OrderType → ℕ → N → Order N → Desk N × S → Notice × Desk N × S
  unfolding submit
  place w bid r amount o (d, s) = (placed, submit w r o d, s)
  place w ask r amount o (d, s) =
      let (addr, s') = t.mk_address amount s in
      if is_empty addr
      then (cannot_place, d, s')
      else (placed, submit w r (record o { btc_addr = addr }) d, s')

  -- ZeroReserveDialog::doOrder
  unfoldable pub do_order : Which → OrderType → N → N → ℕ → Desk N × S → Notice × Desk N × S
  unfolding entered with_id place
  do_order w type price amount r (d, s) =
      if not (num.nought ≺ amount) || not (num.nought ≺ price)
      then (not_positive, d, s)
      else place w type r amount (with_id (entered type price amount)) (d, s)

  -- addBid and addAsk behind the numbers that were entered.
  unfoldable pub do_parsed :
      Which → OrderType → Option N → Option N → ℕ → Desk N × S → Notice × Desk N × S
  unfolding do_order
  do_parsed w type none amount r (d, s) = (threw, d, s)
  do_parsed w type (some price) none r (d, s) = (threw, d, s)
  do_parsed w type (some price) (some amount) r (d, s) = do_order w type price amount r (d, s)

  -- addBid, with the texts of the price and of the amount
  unfoldable pub add_bid : Text → Text → ℕ → Desk N × S → Notice × Desk N × S
  unfolding do_parsed
  add_bid price amount r (d, s) =
      if is_empty price || is_empty amount
      then (no_entry, d, s)
      else do_parsed bids bid (t.parse price) (t.parse amount) r (d, s)

  -- addAsk
  unfoldable pub add_ask : Text → Text → ℕ → Desk N × S → Notice × Desk N × S
  unfolding do_parsed
  add_ask price amount r (d, s) =
      if is_empty price || is_empty amount
      then (no_entry, d, s)
      else do_parsed asks ask (t.parse price) (t.parse amount) r (d, s)

-- The constructor of ZeroReserveDialog, on what getinfo gives: whether the program goes on. It exits where the client and the
-- build are for different networks.
unfoldable pub accepts_client : {N : Type 0} → Build → Option (BtcInfo N) → Bool
accepts_client build none = true
accepts_client testnet (some info) = info.btc_testnet
accepts_client main (some info) = not info.btc_testnet

module _ {N : Type 0} ⦃num : Number N⦄ where
  -- FriendDetailsDialog::editFriend: the friend, the selected currency and the credit that was entered. The second part is
  -- what publish sends; `none` where the constructors throw.
  unfoldable pub edit_friend :
      Build → (N → N) → Text → Text → N → Bank N → Option (Bank N × Credit N)
  unfolding symbol_of get_currency_by_name new_credit load_peer update_credit
  edit_friend build stored i name v b = elim (symbol_of build (get_currency_by_name build name)) [
    | none ↦ none
    | some cur ↦ elim (new_credit build i cur) [
      | none ↦ none
      | some c ↦
          let c' = record (load_peer b.peers c) { credit = v } in
          some (update_credit stored c' b, c')
    ]
  ]

  -- FriendResetDialog::resetFriend, with the state of the check box for all currencies
  unfoldable pub reset_friend :
      Build → Bool → Text → Text → List (Credit N) → Option (List (Credit N))
  unfolding delete_peer_record get_currency_by_name invalid
  reset_friend build every i name rows =
      delete_peer_record build i (if every then invalid build else get_currency_by_name build name)
        rows

-- RsZeroReserveCreditItem::getCredit, on the credit of an item from `peer`
unfoldable pub get_credit : {N : Type 0} → Text → Credit N → Credit N
get_credit peer c = record c { id = peer }
