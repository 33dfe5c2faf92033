-- ===== src/Service/Rounds.antt =====
-- p3ZeroReserveRS.cpp, tick, processIncoming and janitor: what the service does with the items that have come, and every ten
-- seconds. currentTX is two maps here, since the ids of local and of remote transactions differ in form. An order item is
-- read into a new order at the next pointer.
pub mod Debts
pub mod Unknown
pub mod Kept
pub mod Late
use zero_reserve.Base.{
  ℕ, suc, Bool, true, false, List, [], ◌∷◌, ◌++◌, Option, none, some, Text, text_eq, map, ◌==◌,
  ◌&&◌, ◌||◌, not, if◌then◌else◌,
}
use zero_reserve.Base.Int.{ℤ, pos, ◌-ℤ◌, ltb_ℤ}
use zero_reserve.Base.Dict.{Dict, lookup, assign, without}
use zero_reserve.Currency.{Build, symbol_of}
use zero_reserve.Number.{Number}
use zero_reserve.Money.{Credit}
use zero_reserve.Orders.{Order, asks, bids, process_order, timeout_orders}
use zero_reserve.Orders.Sorting.{Sort}
use zero_reserve.Matching.{Purchase, side_of, match_all}
use zero_reserve.Wire.Items.{Spelling}
use zero_reserve.Transactions.Local.{
  TxItem, Node, Outcome, returned, threw, undefined, handle_tx_item,
}
use zero_reserve.Transactions.Local
use zero_reserve.Transactions.Several.{kept_managers, timeout_managers}
use zero_reserve.Remote.{Trade, Parcel}
use zero_reserve.Remote.Coordinator.{Buyer, buy}
use zero_reserve.Remote.Polling.{poll_trade}
use zero_reserve.Remote.Payee.{RawTx}
use zero_reserve.Remote.Managers.{Floor, buyer, handle_remote_item}
use zero_reserve.Remote.Managers
use zero_reserve.Service.{Hub, is_success, is_sender, handle_order, handle_credit}
use zero_reserve.Service.Session.{Sent, MsgType, order_item, handle_message}

-- What the program asks of its surroundings while one item or one round is handled.
pub record Surroundings (N : Type 0) : Type 0 where
  pub build : Build
  pub stored : N → N
  pub spelling : Spelling N
  pub sort : Sort
  pub tenth : N → N
  pub own : Text
  pub online : List Text
  -- The clock in milliseconds, and in seconds.
  pub now : ℤ
  pub clock : ℤ
  pub confirmations : Text → ℕ
  pub mk_raw_tx : N → Text → Text → RawTx
  pub new_address : Purchase N → Text
  -- m_startOfPhase of a manager
  pub started : Text → ℤ

pub record Plant (N : Type 0) : Type 0 where
  pub trade : Trade N
  pub locals : Dict (Local.Manager N)
  pub remotes : Dict Managers.Manager
  pub next_order : ℕ
  pub initialized : ℕ
  pub local_sent : List (Text × TxItem N)
  pub sent : List (Sent N)
  pub last_cleanup : ℤ

-- A handler ends, or leaves by an exception, or its behaviour is undefined.
pub data Turn (N : Type 0) : Type 0 where
  went_on stopped : Plant N → Turn N
  broken : Turn N

-- What recvItem gives, by the friend that it is from. A local item is of the transaction of that id.
pub data Incoming (N : Type 0) : Type 0 where
  order_in : Text → Order N → Incoming N
  credit_in : Credit N → Incoming N
  message_in : Text → MsgType → Incoming N
  local_in : Text → TxItem N → Incoming N
  remote_in : Parcel → Incoming N
  unknown_in : Incoming N

-- publishOrder comes to the symbol of the currency for the first friend that it does not leave out.
unfoldable pub asks_symbol : Text → List Text → Text → Bool
asks_symbol own [] sender = false
asks_symbol own (peer ∷ peers) sender =
    not (text_eq peer own || is_sender (some sender) peer) || asks_symbol own peers sender

-- A null pointer is made into a string.
unfoldable pub has_symbol : Build → ℕ → Bool
unfolding symbol_of
has_symbol build cur = elim (symbol_of build cur) [ none ↦ false | some s ↦ true ]

module _ {N : Type 0} where
  unfoldable pub and_on : Turn N → (Plant N → Turn N) → Turn N
  and_on (went_on p) f = f p
  and_on (stopped p) f = stopped p
  and_on broken f = broken

  -- The plant, unless the behaviour is undefined.
  unfoldable pub or_broken : Bool → Plant N → Turn N
  or_broken undefined_behaviour p = if undefined_behaviour then broken else went_on p

  -- The end of handleTxItem on a local item.
  unfoldable pub after_local : Text → Plant N → Outcome N → Turn N
  unfolding kept_managers
  after_local id p (returned r node) = went_on (record p {
    trade = record p.trade { bank = node.bank };
    locals = kept_managers id node.manager p.locals;
    local_sent = p.local_sent ++ map (λ (item : TxItem N). (id, item)) node.sent;
  })
  after_local id p (threw node) = stopped (record p {
    trade = record p.trade { bank = node.bank };
    locals = kept_managers id node.manager p.locals;
    local_sent = p.local_sent ++ map (λ (item : TxItem N). (id, item)) node.sent;
  })
  after_local id p undefined = broken

module _ {N : Type 0} ⦃num : Number N⦄ (t : Surroundings N) where
  -- handleOrder
  unfoldable pub take_order : Text → Order N → Plant N → Turn N
  unfolding handle_order process_order asks_symbol has_symbol or_broken
  take_order peer o p =
      let r = p.next_order in
      let desk = p.trade.desk in
      let hub : Hub N = record {
        desk = record desk { heap = λ (q : ℕ). if q == r then o else desk.heap q };
        router = p.trade.router;
        bank = p.trade.bank;
      } in
      let result = (process_order t.build t.now t.sort (side_of o.order_type) r hub.desk).0 in
      let (peers, hub') = handle_order t.build t.tenth t.now t.sort t.own t.online peer r hub in
      or_broken
        (is_success result
          && (asks_symbol t.own t.online peer && not (has_symbol t.build o.currency)))
        (record p {
          trade = record p.trade { desk = hub'.desk; router = hub'.router };
          next_order = suc r;
          sent = p.sent ++ map (λ (q : Text). order_item q (hub'.desk.heap r)) peers;
        })

  -- One turn of the loop of processIncoming.
  unfoldable pub process_item : Incoming N → Plant N → Turn N
  unfolding take_order handle_credit handle_message after_local handle_tx_item handle_remote_item
      lookup
  process_item (order_in peer o) p = take_order peer o p
  process_item (credit_in c) p = elim (handle_credit t.build t.stored c p.trade.bank) [
    | none ↦ stopped p
    | some (warn, b) ↦ went_on (record p { trade = record p.trade { bank = b } })
  ]
  process_item (message_in peer m) p =
      let (items, n) = handle_message m peer p.initialized p.trade.desk in
      went_on (record p { sent = p.sent ++ items; initialized = n })
  process_item (local_in id item) p = after_local id p (
      handle_tx_item t.build t.stored item
        (record { own_id = t.own; manager = lookup p.locals id; bank = p.trade.bank; sent = [] }))
  process_item (remote_in parcel) p =
      elim (handle_remote_item t.build t.stored t.spelling t.sort t.now t.mk_raw_tx parcel
        (record { managers = p.remotes; trade = p.trade })) [
          | none ↦ broken
          | some (result, f) ↦ went_on (record p { trade = f.trade; remotes = f.managers })
        ]
  process_item unknown_in p = went_on p

  -- p3ZeroReserveRS::processIncoming, on the items that recvItem gives.
  unfoldable pub process_incoming : List (Incoming N) → Plant N → Turn N
  unfolding process_item and_on
  process_incoming [] p = went_on p
  process_incoming (item ∷ items) p = and_on (process_item item p) (process_incoming items)

  -- The purchases of match, one after the other. A manager whose init fails is deleted.
  unfoldable pub registered : Text → Option Buyer → Dict Managers.Manager → Dict Managers.Manager
  unfolding assign without
  registered id none m = without m id
  registered id (some s) m = assign m id (buyer s)

  unfoldable pub buy_each : List (Purchase N) → Plant N → Turn N
  unfolding buy registered
  buy_each [] p = went_on p
  buy_each (x ∷ xs) p =
      let id =
        (p.trade.desk.heap x.other).order_id ++ 58 ∷ (p.trade.desk.heap x.my_order).order_id in
      elim (buy t.build t.stored t.spelling t.now (t.new_address x) x.other x.my_order x.bought
        p.trade) [
          | none ↦ broken
          | some (m, tr) ↦
              buy_each xs (record p { trade = tr; remotes = registered id m p.remotes })
        ]

  -- MyOrders::match and what it buys. Of what buy changes match reads the lock alone, which match_all sets.
  unfoldable pub match_round : Plant N → Turn N
  unfolding match_all buy_each
  match_round p =
      let (purchases, desk) = match_all t.sort p.trade.desk.my_book.orders p.trade.desk in
      buy_each purchases (record p { trade = record p.trade { desk = desk } })

  -- TransactionManager::timeout, which is undefined once a manager is timed out, and what comes after it.
  unfoldable pub behind_timeout : Plant N → Turn N
  unfolding timeout_managers poll_trade match_round
  behind_timeout p = elim (timeout_managers t.now t.started p.locals) [
    | none ↦ broken
    | some ls ↦ elim (timeout_managers t.now t.started p.remotes) [
      | none ↦ broken
      | some rs ↦
          let (thrown, trade) = poll_trade t.build t.stored t.confirmations t.now p.trade in
          let round = match_round (record p { trade = trade }) in
          if thrown then stopped (record p { trade = trade }) else round
    ]
  ]

  -- p3ZeroReserveRS::janitor
  unfoldable pub janitor : Plant N → Turn N
  unfolding timeout_orders behind_timeout
  janitor p =
      let desk = timeout_orders t.build t.now t.sort asks p.trade.desk in
      let desk' = timeout_orders t.build t.now t.sort bids desk in
      if ltb_ℤ (t.clock -ℤ p.last_cleanup) (pos 10)
      then went_on p
      else behind_timeout
          (record p { last_cleanup = t.clock; trade = record p.trade { desk = desk' } })

  -- p3ZeroReserveRS::tick
  unfoldable pub tick : Bool → List (Incoming N) → Plant N → Turn N
  unfolding process_incoming janitor
  tick plugin_stopped items p =
      if plugin_stopped then janitor p else and_on (process_incoming items p) janitor
