-- ===== src/Matching/Tests.antt =====
-- The user's bid for 12 at no more than 8, two asks of others, and an ask that is too dear.
use zero_reserve.Base.{
  Text, ℕ, codes, List, [], ◌∷◌, ◌≡◌, ◌≢◌, ◌⊎◌, refl, arith, none, true, false, ◌==◌, All,
  if◌then◌else◌,
}
use zero_reserve.Base.Int.{ℤ, pos}
use zero_reserve.Number.Whole.{whole, whole-IsOrderedRing}
use zero_reserve.Number.{◌≺◌}
use zero_reserve.Orders.{
  Order, Heap, Desk, Book, bid, ask, asks, mine, bids, fresh, cancel, finish, find, get,
  insert_order,
}
use zero_reserve.Orders.Sorting.{insertion_sort}
use zero_reserve.Matching.{match_order, cancel_at}
use zero_reserve.Matching.Fills.{IsAllowed, spent, match_order-IsFill}
use zero_reserve.Matching.Cancelled.{cancel_at-gone}
use zero_reserve.Matching.StartUp.{init_orders, In, restored, init_orders-restores}
use zero_reserve.Currency.{testnet}

abbrev ask_of : Text → ℤ → Order ℤ
ask_of id price = record {
  order_id = id;
  is_my_order = false;
  order_type = ask;
  amount = pos 7;
  price = price;
  currency = 0;
  time_stamp = pos 1000;
  purpose = fresh;
  commitment = pos 0;
  btc_addr = [];
  locked = false;
  ignored = false;
  matched = [];
}

abbrev my_bid : Order ℤ
my_bid = record (ask_of (codes "me") (pos 8)) {
  is_my_order = true;
  order_type = bid;
  amount = pos 12;
}

abbrev orders : Heap ℤ
orders q =
    if q == 0
    then my_bid
    else if q == 1
    then ask_of (codes "a") (pos 6)
    else if q == 2
    then ask_of (codes "b") (pos 8)
    else ask_of (codes "c") (pos 9)

abbrev one : ℕ → Book
one q = record { orders = q ∷ []; filtered_orders = q ∷ []; currency = 0 }

abbrev desk : Desk ℤ
desk = record {
  heap = orders;
  bid_book = one 0;
  ask_book = record { orders = 3 ∷ 2 ∷ 1 ∷ []; filtered_orders = 1 ∷ 2 ∷ 3 ∷ []; currency = 0 };
  my_book = one 0;
  table = [];
  published = [];
}

match_order-IsFill_example :
    let (result, purchases, d') = match_order insertion_sort 0 desk in
    All (IsAllowed orders 0 []) purchases
    × ((pos 12 ≺ spent purchases) ≡ false)
    × ((result ≢ finish) ⊎ (spent purchases ≡ pos 12))
match_order-IsFill_example = match_order-IsFill whole-IsOrderedRing insertion_sort 0 desk refl refl

-- The bid is filled by the two cheaper asks.
filled : (match_order insertion_sort 0 desk).0 ≡ finish
unfolding match_order insertion_sort zero_reserve.Base.text_eq zero_reserve.Base.Int.◌-ℤ◌
filled = refl

spent_all : spent (match_order insertion_sort 0 desk).1 ≡ pos 12
unfolding match_order insertion_sort zero_reserve.Base.Int.◌+ℤ◌ zero_reserve.Base.text_eq
    zero_reserve.Base.Int.◌-ℤ◌
spent_all = refl

gone_from_both :
    let d' = cancel_at insertion_sort 0 desk in
    (find d'.heap d'.my_book.orders (codes "me") ≡ none)
    × (find d'.heap d'.bid_book.orders (codes "me") ≡ none)
    × (d'.published ≡ record my_bid { purpose = cancel } ∷ [])
unfolding find zero_reserve.Orders.filter_orders insertion_sort
gone_from_both =
    cancel_at-gone insertion_sort 0 desk (record { unique = (refl, tt); in_sync = refl })
      (record { unique = (refl, tt); in_sync = refl })

-- The user's bid is written to the table, and the program starts again with empty books.
abbrev empty_book : Book
empty_book = record { orders = []; filtered_orders = []; currency = 0 }

abbrev started : Desk ℤ
started = record desk { bid_book = empty_book; ask_book = empty_book; my_book = empty_book }

abbrev kept : ℤ → ℤ
kept x = x

init_orders-restores_example :
    let d' =
      (init_orders testnet false insertion_sort 5
        (record started { table = insert_order kept [] my_bid })).1 in
    (q : ℕ) × In insertion_sort mine q d'
    × In insertion_sort bids q d'
    × (d'.heap q ≡ restored testnet kept my_bid)
unfolding zero_reserve.Currency.invalid
init_orders-restores_example =
    init_orders-restores testnet kept insertion_sort 5 started my_bid (omega arith)
