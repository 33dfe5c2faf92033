-- ===== src/Service/Tests.antt =====
-- An ask that alice sends, and that is passed on to bob and carol.
use zero_reserve.Base.{
  Text, ℕ, codes, List, [], ◌∷◌, ◌++◌, ◌≡◌, refl, none, some, true, false, All, Bool,
}
use zero_reserve.Base.Int.{ℤ, pos}
use zero_reserve.Currency.{testnet, invalid}
use zero_reserve.Number.Whole.{whole, whole-IsOrderedRing}
use zero_reserve.Money.{Credit, Bank, blank, load_peer}
use zero_reserve.Orders.{Order, Heap, Desk, Book, ask, asks, fresh, process_order}
use zero_reserve.Orders.Sorting.{insertion_sort}
use zero_reserve.Service.{Hub, handle_order, handle_credit, publish_order}
use zero_reserve.Service.Credits.{handle_credit-agrees}
use zero_reserve.Service.Session.{
  credit_item, request_orderbook, message_item, send_orders, received, handle_message,
  status_change, handle_message-request,
}
use zero_reserve.Service.Once.{handle_order-once}
use zero_reserve.Wire.Items.{Spelling}
use zero_reserve.Contracts.{BtcContract, sending}
use zero_reserve.Remote.Payee.{RawTx}
use zero_reserve.Service.Rounds.{
  Plant, Surroundings, broken, Incoming, order_in, credit_in, message_in, unknown_in,
  process_incoming, janitor, went_on,
}
use zero_reserve.Service.Rounds.Late.{BothInTime, janitor-BothInTime}
use zero_reserve.Service.Rounds.Debts.{After, Undisturbed, process_incoming-Undisturbed}
use zero_reserve.Service.Rounds.Unknown.{process_incoming-unknown}
use zero_reserve.Service.Recipients.{IsRecipient, publish_order-IsRecipient}

abbrev offered : Order ℤ
offered = record {
  order_id = codes "a";
  is_my_order = false;
  order_type = ask;
  amount = pos 70;
  price = pos 3;
  currency = 0;
  time_stamp = pos 1000;
  purpose = fresh;
  commitment = pos 0;
  btc_addr = [];
  locked = false;
  ignored = false;
  matched = [];
}

-- Two copies of the order.
abbrev copies : Heap ℤ
copies q = offered

abbrev empty_book : Book
empty_book = record { orders = []; filtered_orders = []; currency = 0 }

abbrev account_with : Text → ℤ → Credit ℤ
account_with i ours = record {
  id = i;
  currency = codes "FAU";
  our_credit = ours;
  credit = pos 80;
  balance = pos 0;
  allocated = pos 0;
}

abbrev hub : Hub ℤ
hub = record {
  desk = record {
    heap = copies;
    bid_book = empty_book;
    ask_book = empty_book;
    my_book = empty_book;
    table = [];
    published = [];
  };
  router = record { routing_table = []; tunnels = [] };
  bank = record {
    peers = account_with (codes "bob") (pos 9) ∷ account_with (codes "carol") (pos 1) ∷ [];
    tx_log = [];
  };
}

abbrev tenth : ℤ → ℤ
tenth x = pos 7

abbrev friends : List Text
friends = codes "alice" ∷ codes "bob" ∷ codes "carol" ∷ codes "me" ∷ []

-- alice sent it, and carol gives too little credit.
passed_on :
    (handle_order testnet tenth
      (pos 2000)
      insertion_sort
      (codes "me")
      friends
      (codes "alice")
      0
      hub).0
    ≡ codes "bob" ∷ []
unfolding handle_order zero_reserve.Base.Int.◌-ℤ◌ zero_reserve.Base.text_eq
    zero_reserve.Base.Int.◌+ℤ◌ zero_reserve.Money.is_for zero_reserve.Money.fill
passed_on = refl

recipients :
    All
      (IsRecipient testnet tenth (codes "me") (some (codes "alice")) offered hub.bank)
      (publish_order testnet tenth (codes "me") friends (some (codes "alice")) offered hub.bank)
recipients =
    publish_order-IsRecipient testnet tenth (codes "me") (some (codes "alice")) offered hub.bank
      friends

handle_order-once_example :
    let hub' =
      (handle_order testnet tenth
        (pos 2000)
        insertion_sort
        (codes "me")
        friends
        (codes "alice")
        0
        hub).1 in
    (handle_order testnet tenth
      (pos 3000)
      insertion_sort
      (codes "me")
      friends
      (codes "bob")
      1
      hub').0
    ≡ []
unfolding zero_reserve.Orders.filter_orders insertion_sort process_order zero_reserve.Base.Int.◌-ℤ◌
    handle_order
handle_order-once_example =
    handle_order-once whole-IsOrderedRing insertion_sort testnet tenth (codes "me") friends
      (pos 2000) (pos 3000) (codes "alice") (codes "bob") 0 1 hub
      (record { unique = tt; in_sync = refl }) refl refl refl refl refl

abbrev kept : ℤ → ℤ
kept x = x

-- dave gives 40 of credit and has no row yet.
dave_agrees :
    (warn : Bool) × (b' : Bank ℤ) × (handle_credit testnet kept
        (account_with (codes "dave") (pos 40))
        hub.bank
      ≡ some (warn, b'))
    × ((load_peer b'.peers (blank (codes "dave") (codes "FAU"))).our_credit ≡ pos 40)
unfolding zero_reserve.Currency.get_currency_by_symbol zero_reserve.Base.text_eq
dave_agrees =
    handle_credit-agrees whole-IsOrderedRing testnet kept (account_with (codes "dave") (pos 40))
      hub.bank refl refl

abbrev with_asks : Desk ℤ
with_asks = record (hub.desk) {
  ask_book = record { orders = 0 ∷ 1 ∷ []; filtered_orders = 0 ∷ 1 ∷ []; currency = 0 };
}

asked_for_all :
    received (codes "bob") (handle_message request_orderbook (codes "bob") 0 with_asks).0
    ≡ send_orders (codes "bob") copies (0 ∷ 1 ∷ []) ++ (send_orders (codes "bob") copies [] ++ [])
unfolding zero_reserve.Base.text_eq
asked_for_all = handle_message-request (codes "bob") 0 with_asks refl

-- bob is online and has asked nobody yet: he is asked for his orders and told of the account.
connected :
    status_change testnet 0 hub.bank.peers ((codes "bob", true) ∷ (codes "carol", false) ∷ [])
    ≡ message_item (codes "bob") request_orderbook
      ∷ credit_item (codes "bob") (account_with (codes "bob") (pos 9))
      ∷ []
unfolding status_change zero_reserve.Money.Totals.load_credits zero_reserve.Base.text_eq
connected = refl

abbrev spelling : Spelling ℤ
spelling = record { to_text = λ n. []; from_text = λ t. pos 0 }

abbrev no_raw_tx : ℤ → Text → Text → RawTx
no_raw_tx n from dest = record { made = false; hex = []; raw_id = []; own_address = from }

abbrev surroundings : Surroundings ℤ
surroundings = record {
  build = testnet;
  stored = kept;
  spelling = spelling;
  sort = insertion_sort;
  tenth = tenth;
  own = codes "me";
  online = friends;
  now = pos 2000;
  clock = pos 2;
  confirmations = λ id. 0;
  mk_raw_tx = no_raw_tx;
  new_address = λ p. codes "n1";
  started = λ id. pos 0;
}

abbrev nothing_owed : BtcContract ℤ
nothing_owed = record {
  btc_tx_id = [];
  btc_amount = pos 0;
  price = pos 0;
  currency_sym = codes "FAU";
  party = sending;
  counter_party = codes "bob";
  activated = false;
  dest_address = [];
  creation_time = pos 0;
  fee = pos 0;
}

abbrev plant : Plant ℤ
plant = record {
  trade = record {
    desk = hub.desk;
    bank = hub.bank;
    deal = λ r. nothing_owed;
    next = 0;
    contracts = [];
    rows = [];
    router = hub.router;
    sent = [];
    raw_sent = [];
  };
  locals = [];
  remotes = [];
  next_order = 5;
  initialized = 0;
  local_sent = [];
  sent = [];
  last_cleanup = pos 0;
}

-- carol now gives 40 of credit; one of the items is of no known kind.
abbrev arrivals : List (Incoming ℤ)
arrivals =
    order_in (codes "alice") offered
    ∷ credit_in (account_with (codes "carol") (pos 40))
    ∷ message_in (codes "bob") request_orderbook
    ∷ unknown_in
    ∷ []

process_incoming-Undisturbed_example :
    After (Undisturbed plant) (process_incoming surroundings arrivals plant)
process_incoming-Undisturbed_example =
    process_incoming-Undisturbed surroundings arrivals plant (refl, (refl, (refl, (refl, tt))))

abbrev unheard_of : Order ℤ
unheard_of = record offered { currency = invalid testnet }

process_incoming-unknown_example :
    process_incoming surroundings (order_in (codes "alice") unheard_of ∷ arrivals) plant ≡ broken
unfolding zero_reserve.Orders.find zero_reserve.Orders.bad_time
    zero_reserve.Service.Rounds.asks_symbol zero_reserve.Base.text_eq zero_reserve.Base.Int.◌-ℤ◌
process_incoming-unknown_example =
    process_incoming-unknown surroundings (codes "alice") unheard_of arrivals plant
      (record { not_mine = refl; in_time = refl; purpose_new = refl; not_there = refl }) refl refl

-- At a later time, with the ask in its book.
abbrev later : Surroundings ℤ
later = record surroundings { clock = pos 70 }

abbrev stocked_desk : Desk ℤ
stocked_desk = record (hub.desk) {
  ask_book = record { orders = 0 ∷ []; filtered_orders = 0 ∷ []; currency = 0 };
}

abbrev stocked : Plant ℤ
stocked = record plant { trade = record plant.trade { desk = stocked_desk } }

janitor-BothInTime_example : After (BothInTime later stocked) (janitor later stocked)
unfolding zero_reserve.Base.Int.◌-ℤ◌ insertion_sort zero_reserve.Orders.filter_orders
    zero_reserve.Orders.find
janitor-BothInTime_example =
    janitor-BothInTime later stocked refl (record { unique = (refl, tt); in_sync = refl })
      (record { unique = tt; in_sync = refl })
