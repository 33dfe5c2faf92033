-- ===== src/Matching.antt =====
-- MyOrders.h and MyOrders.cpp: the user's own orders, matched with the asks and cancelled. What `buy`
-- starts is a remote contract: here a call of it is recorded, and the lock that it puts on the order.
pub mod Fills
pub mod Cancelled
pub mod StartUp
mod Tests
use zero_reserve.Base.{
  ℕ, Bool, true, false, List, [], ◌∷◌, ◌++◌, Option, none, some, Text, text_eq, ◌||◌, if◌then◌else◌,
  get_elem?,
}
use zero_reserve.Number.{Number, ◌⊖◌, ◌≺◌}
use zero_reserve.Orders.{
  Order, OrderType, Heap, Desk, Which, RetVal, success, finish, bid, ask, cancel, bids, asks, mine,
  write, filter_orders, remove,
}
use zero_reserve.Orders.Sorting.{Sort}

-- A call of MyOrders::buy.
pub record Purchase (N : Type 0) : Type 0 where
  pub other : ℕ
  pub my_order : ℕ
  pub bought : N

-- `find` on a set of ids.
unfoldable pub has_id : Text → List Text → Bool
has_id id [] = false
has_id id (t ∷ ts) = text_eq id t || has_id id ts

-- The side of the book that an order of that type stands in.
abbrev pub side_of : OrderType → Which
side_of ask = asks
side_of bid = bids

module _ {N : Type 0} where
  -- The three tests that continue the loop.
  unfoldable pub passed_over : List Text → Order N → Bool
  unfolding has_id
  passed_over matched o = o.ignored || (o.is_my_order || has_id o.order_id matched)

-- What the loop of match ends with: its result, the order's `m_matched`, and the purchases.
pub record Matched (N : Type 0) : Type 0 where
  pub result : RetVal
  pub matched_ids : List Text
  pub purchases : List (Purchase N)

module _ {N : Type 0} ⦃num : Number N⦄ where
  -- The loop of match over the sorted asks, from the ids matched and the amount still wanted.
  unfoldable pub match_each : Heap N → ℕ → List Text → N → List ℕ → Matched N
  unfolding passed_over
  match_each h my matched amount [] = record {
    result = success;
    matched_ids = matched;
    purchases = [];
  }
  match_each h my matched amount (r ∷ rs) =
      let o = h r in
      let matched' = o.order_id ∷ matched in
      let next = match_each h my matched amount rs in
      let more = match_each h my matched' (amount ⊖ o.amount) rs in
      if passed_over matched o
      then next
      else if (h my).price ≺ o.price
      then record { result = success; matched_ids = matched; purchases = [] }
      else if o.amount ≺ amount
      then record more {
        purchases = record { other = r; my_order = my; bought = o.amount } ∷ more.purchases;
      }
      else record {
        result = finish;
        matched_ids = matched';
        purchases = record { other = r; my_order = my; bought = amount } ∷ [];
      }

  -- Whether the order is locked: the constructor of TmContractCoordinator does it.
  abbrev pub locks : Bool → List (Purchase N) → Bool
  locks before [] = before
  locks before (p ∷ ps) = true

  -- MyOrders::match on one order.
  unfoldable pub match_order : Sort → ℕ → Desk N → RetVal × List (Purchase N) × Desk N
  unfolding match_each filter_orders write
  match_order sort my d =
      let o = d.heap my in
      let m =
        match_each d.heap my o.matched o.amount
          (filter_orders sort d.heap d.ask_book.orders o.currency) in
      if o.locked then (finish, [], d) else (
        m.result,
        m.purchases,
        record d {
          heap =
              write d.heap my
                (record o { matched = m.matched_ids; locked = locks o.locked m.purchases });
        },
      )

  -- MyOrders::match on all orders: the loop over the list.
  unfoldable pub match_all : Sort → List ℕ → Desk N → List (Purchase N) × Desk N
  unfolding match_order
  match_all sort [] d = ([], d)
  match_all sort (r ∷ rs) d =
      let (_, ps, d') = match_order sort r d in
      let (qs, d'') = match_all sort rs d' in
      let next = match_all sort rs d in
      elim (d.heap r).order_type [ bid ↦ (ps ++ qs, d'') | ask ↦ next ]

  -- MyOrders::cancelOrder on the order behind `r`: m_filteredOrders[ index ].
  unfoldable pub cancel_at : Sort → ℕ → Desk N → Desk N
  unfolding remove write
  cancel_at sort r d =
      let o = d.heap r in
      let d' = (remove sort mine o.order_id d).1 in
      let d'' = (remove sort (side_of o.order_type) o.order_id d').1 in
      let cancelled = record o { purpose = cancel } in
      record d'' { heap = write d''.heap r cancelled; published = cancelled ∷ d''.published }

  -- `none` where there is no order at that index, which QList leaves undefined.
  unfoldable pub cancel_order : Sort → ℕ → Desk N → Option (Desk N)
  unfolding cancel_at
  cancel_order sort index d = elim (get_elem? d.my_book.filtered_orders index) [
    | none ↦ none
    | some r ↦ some (cancel_at sort r d)
  ]
