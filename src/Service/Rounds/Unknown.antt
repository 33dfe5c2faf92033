-- ===== src/Service/Rounds/Unknown.antt =====
-- An order in a currency that the program does not know.
use zero_reserve.Base.{
  ℕ, true, false, ◌≡◌, refl, List, ◌∷◌, none, Text, ◌==◌, if◌then◌else◌, arith, ap, ◌∙◌,
}
use zero_reserve.Base.Int.{ℤ}
use zero_reserve.Currency.{Build, testnet, main, symbol_of, invalid}
use zero_reserve.Number.{Number}
use zero_reserve.Orders.{
  Order, Desk, Which, get, find, bad_time, fresh, success, process_order, process_purpose,
  process_new,
}
use zero_reserve.Orders.Sorting.{Sort}
use zero_reserve.Matching.{side_of}
use zero_reserve.Service.Rounds.{
  Plant, Surroundings, broken, Incoming, order_in, asks_symbol, has_symbol, or_broken, and_on,
  take_order, process_item, process_incoming,
}

invalid-symbol : (build : Build) → has_symbol build (invalid build) ≡ false
unfolding has_symbol symbol_of invalid
invalid-symbol testnet = refl
invalid-symbol main = refl

same_pointer : (r : ℕ) → (r == r) ≡ true
same_pointer r = ground arith

module _ {N : Type 0} ⦃num : Number N⦄ where
  process_order-news :
      (build : Build) (now : ℤ) (sort : Sort) (w : Which) (r : ℕ) (d : Desk N)
      → find d.heap d.my_book.orders (d.heap r).order_id ≡ none
      → bad_time build now (d.heap r) ≡ false
      → (d.heap r).purpose ≡ fresh
      → find d.heap (get w d).orders (d.heap r).order_id ≡ none
      → (process_order build now sort w r d).0 ≡ success
  unfolding process_order process_purpose process_new
  process_order-news build now sort w r d mine in_time purpose new =
      rw (process_order, mine, in_time, purpose, process_purpose, process_new, new) refl

  -- The books once the order is read in.
  abbrev pub read_in : Order N → Plant N → Desk N
  read_in o p = record p.trade.desk {
    heap = λ (q : ℕ). if q == p.next_order then o else p.trade.desk.heap q;
  }

  -- The order is new: neither the user's nor in its book, within its time, and of the purpose NEW.
  pub record IsNews (t : Surroundings N) (o : Order N) (p : Plant N) : Type 0 where
    pub not_mine : find (read_in o p).heap p.trade.desk.my_book.orders o.order_id ≡ none
    pub in_time : bad_time t.build t.now o ≡ false
    pub purpose_new : o.purpose ≡ fresh
    pub not_there :
        find (read_in o p).heap (get (side_of o.order_type) (read_in o p)).orders o.order_id ≡ none

  behind : (o : Order N) (p : Plant N) → (read_in o p).heap p.next_order ≡ o
  behind o p = rw (same_pointer p.next_order) refl

  -- Whatever a friend's order in an unknown currency is, once it is passed on the behaviour is undefined.
  take_order-unknown :
      (t : Surroundings N) (peer : Text) (o : Order N) (p : Plant N)
      → IsNews t o p
      → o.currency ≡ invalid t.build
      → asks_symbol t.own t.online peer ≡ true
      → take_order t peer o p ≡ broken
  unfolding take_order or_broken
  take_order-unknown t peer o p news unknown asked =
      let news_at : find (read_in o p).heap p.trade.desk.my_book.orders
            ((read_in o p).heap p.next_order).order_id
          ≡ none =
        rw (behind o p) news.not_mine in
      let in_time_at : bad_time t.build t.now ((read_in o p).heap p.next_order) ≡ false =
        rw (behind o p) news.in_time in
      let purpose_at : ((read_in o p).heap p.next_order).purpose ≡ fresh =
        rw (behind o p) news.purpose_new in
      let there_at : find (read_in o p).heap (get (side_of o.order_type) (read_in o p)).orders
            ((read_in o p).heap p.next_order).order_id
          ≡ none =
        rw (behind o p) news.not_there in
      let taken : (process_order t.build t.now t.sort (side_of o.order_type) p.next_order
            (read_in o p)).0
          ≡ success =
        process_order-news t.build t.now t.sort (side_of o.order_type) p.next_order (read_in o p)
          news_at in_time_at purpose_at there_at in
      let no_symbol : has_symbol t.build o.currency ≡ false =
        ap (has_symbol t.build) unknown ∙ invalid-symbol t.build in
      rw (take_order, taken, asked, no_symbol) refl

  -- Where a friend's order is new and in a currency that the program does not know, and a friend is online that is neither the
  -- sender nor the user, the behaviour of processIncoming is undefined, whatever items come after it.
  pub process_incoming-unknown :
      (t : Surroundings N) (peer : Text) (o : Order N) (items : List (Incoming N)) (p : Plant N)
      → IsNews t o p
      → o.currency ≡ invalid t.build
      → asks_symbol t.own t.online peer ≡ true
      → process_incoming t (order_in peer o ∷ items) p ≡ broken
  unfolding process_incoming process_item and_on
  process_incoming-unknown t peer o items p news unknown asked =
      rw (take_order-unknown t peer o p news unknown asked) refl
