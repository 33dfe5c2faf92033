-- ===== src/Orders/Tests.antt =====
-- A desk with two bids.
use mathlib.Core.List.{Perm}
use zero_reserve.Base.{
  Text, ℕ, codes, List, [], ◌∷◌, ◌≡◌, ◌≢◌, refl, true, false, keep, not, ◌==◌, if◌then◌else◌,
}
use zero_reserve.Base.Int.{ℤ, pos, negsuc}
use zero_reserve.Currency.{testnet}
use zero_reserve.Number.Whole.{whole, whole-IsOrderedRing}
use zero_reserve.Orders.{
  Order, Heap, Desk, Book, bid, ask, bids, fresh, success, find, process_order, timeout_orders,
  filter_orders, compare_order,
}
use zero_reserve.Orders.Sorting.{insertion_sort, insertion_sort-IsSort}
use zero_reserve.Orders.Change.{IsValid}
use zero_reserve.Orders.Process.{process_order-IsValid}
use zero_reserve.Orders.Gossip.{process_order-not_again}
use zero_reserve.Orders.Copies.{process_each, process_order-copy}
use zero_reserve.Orders.Others.{process_order-others}
use zero_reserve.Orders.Expiry.{expired, timeout_orders-keep}
use zero_reserve.Orders.View.{BestFirst, filter_orders-BestFirst, compare_order-mixed}

abbrev bid_of : Text → ℤ → ℤ → Order ℤ
bid_of id price time = record {
  order_id = id;
  is_my_order = false;
  order_type = bid;
  amount = pos 5;
  price = price;
  currency = 0;
  time_stamp = time;
  purpose = fresh;
  commitment = pos 0;
  btc_addr = [];
  locked = false;
  ignored = false;
  matched = [];
}

-- 0 and 1 stand in the book, 2 is the order that arrives, 3 is an ask.
abbrev orders : Heap ℤ
orders q =
    if q == 0
    then bid_of (codes "a") (pos 9) (pos 1000)
    else if q == 1
    then bid_of (codes "b") (pos 7) (pos 9000000)
    else if q == 2
    then bid_of (codes "c") (pos 8) (pos 9000000)
    else record (bid_of (codes "d") (pos 6) (pos 9000000)) { order_type = ask }

abbrev empty_book : Book
empty_book = record { orders = []; filtered_orders = []; currency = 0 }

abbrev desk : Desk ℤ
desk = record {
  heap = orders;
  bid_book = record { orders = 0 ∷ 1 ∷ []; filtered_orders = 0 ∷ 1 ∷ []; currency = 0 };
  ask_book = empty_book;
  my_book = empty_book;
  table = [];
  published = [];
}

desk-IsValid : IsValid insertion_sort bids desk
unfolding find zero_reserve.Base.text_eq filter_orders insertion_sort
desk-IsValid = record { unique = (refl, (refl, tt)); in_sync = refl }

process_order-IsValid_example :
    IsValid insertion_sort bids (process_order testnet (pos 9000100) insertion_sort bids 2 desk).1
process_order-IsValid_example =
    process_order-IsValid insertion_sort testnet (pos 9000100) bids 2 desk desk-IsValid

second_copy :
    let d' = (process_order testnet (pos 9000100) insertion_sort bids 2 desk).1 in
    (process_order testnet (pos 9000200) insertion_sort bids 2 d').0 ≢ success
unfolding process_order zero_reserve.Base.Int.◌-ℤ◌ zero_reserve.Base.text_eq
second_copy =
    process_order-not_again whole-IsOrderedRing insertion_sort testnet (pos 9000100) (pos 9000200)
      bids 2 2 desk desk-IsValid refl refl refl refl

-- Another copy of the order behind 0 comes in between.
process_order-copy_example :
    let d' = (process_order testnet (pos 9000100) insertion_sort bids 2 desk).1 in
    let d'' =
      process_each whole-IsOrderedRing insertion_sort testnet bids ((pos 9000150, 0) ∷ []) d' in
    (process_order testnet (pos 9000200) insertion_sort bids 2 d'').0 ≢ success
unfolding process_order zero_reserve.Base.Int.◌-ℤ◌ zero_reserve.Base.text_eq
process_order-copy_example =
    process_order-copy whole-IsOrderedRing insertion_sort testnet bids (pos 9000100) (pos 9000200) 2
      2 ((pos 9000150, 0) ∷ []) desk desk-IsValid refl (refl, tt) refl refl refl

other_stays :
    let d' = (process_order testnet (pos 9000100) insertion_sort bids 2 desk).1 in
    find d'.heap d'.bid_book.orders (codes "a") ≡ find orders (0 ∷ 1 ∷ []) (codes "a")
unfolding zero_reserve.Base.text_eq
other_stays = process_order-others insertion_sort bids (codes "a") testnet (pos 9000100) 2 desk refl

both_in_time :
    let d' = timeout_orders testnet (pos 9000100) insertion_sort bids desk in
    (d'.bid_book.orders
      ≡ keep (λ r. not (expired insertion_sort testnet (pos 9000100) (orders r))) (0 ∷ 1 ∷ []))
    × IsValid insertion_sort bids d'
    × (d'.heap ≡ orders)
both_in_time =
    timeout_orders-keep insertion_sort testnet (pos 9000100) bids desk (λ e. cc) desk-IsValid

-- Bids, each at the price of its number.
abbrev priced : Heap ℤ
priced q = bid_of (codes "a") (pos q) (pos 1000)

filter_orders-BestFirst_example :
    Perm (filter_orders insertion_sort priced (4 ∷ 9 ∷ 6 ∷ []) 0) (4 ∷ 9 ∷ 6 ∷ [])
    × BestFirst whole-IsOrderedRing priced bid
        (filter_orders insertion_sort priced (4 ∷ 9 ∷ 6 ∷ []) 0)
filter_orders-BestFirst_example =
    filter_orders-BestFirst whole-IsOrderedRing priced insertion_sort bid (4 ∷ 9 ∷ 6 ∷ []) 0
      insertion_sort-IsSort (λ r m. refl)

mixed_either_way : (compare_order orders 0 3 ≡ true) × (compare_order orders 3 0 ≡ true)
mixed_either_way = compare_order-mixed whole-IsOrderedRing orders 0 3 refl refl refl
