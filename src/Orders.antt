-- ===== src/Orders.antt =====
-- OrderBook.h and OrderBook.cpp: one side of the order book, or the book of the user's own orders.
-- An `Order *` is a number, and a heap gives the order behind it, since two books share their orders.
-- The memory that `delete` gives back is not tracked. Qt's qSort is a parameter, and so is the clock.
-- `remove` runs under the assumption that SQLite carries the statement out.
pub mod Sorting
pub mod Data
pub mod Find
pub mod Change
pub mod View
pub mod Process
pub mod Gossip
pub mod Expiry
pub mod Others
pub mod Copies
mod Tests
pub use Data.*
unfoldable pub use Data.{timeout, write}
use zero_reserve.Base.{
  ℕ, Bool, true, false, List, [], ◌∷◌, ◌++◌, Option, none, some, Text, text_eq, keep, if◌then◌else◌,
  ◌==◌, ◌||◌, not,
}
use zero_reserve.Base.Int.{ℤ, pos, ◌-ℤ◌, ltb_ℤ}
use zero_reserve.Currency.{Build, get_currency_by_name}
use zero_reserve.Number.{Number, ◌≺◌}
use Sorting.{Sort}

module _ {N : Type 0} where
  -- OrderBook::find; `none` is the null pointer.
  unfoldable pub find : Heap N → List ℕ → Text → Option ℕ
  find h [] id = none
  find h (r ∷ rs) id = let rest = find h rs id in if text_eq id (h r).order_id then some r else rest

  -- The list without the first order of that id.
  unfoldable pub erase : Heap N → List ℕ → Text → List ℕ
  erase h [] id = []
  erase h (r ∷ rs) id =
      let rest = erase h rs id in if text_eq id (h r).order_id then rs else r ∷ rest

  -- ZrDB::deleteOrder
  unfoldable pub delete_order : List (Row N) → Text → List (Row N)
  delete_order rows id = keep (λ row. not (text_eq row.row_id id)) rows

  -- ZrDB::addOrder. `stored` is what a decimal column gives back for a number written to it.
  unfoldable pub insert_order : (N → N) → List (Row N) → Order N → List (Row N)
  insert_order stored rows o =
      rows
      ++ record {
        row_id = o.order_id;
        row_type = o.order_type;
        row_amount = stored o.amount;
        row_price = stored o.price;
        row_currency = o.currency;
        row_time = o.time_stamp;
        row_purpose = o.purpose;
      }
        ∷ []

module _ {N : Type 0} ⦃num : Number N⦄ where
  -- OrderBook::compareOrder: the better price first, as the left order's type has it.
  unfoldable pub compare_order : Heap N → ℕ → ℕ → Bool
  compare_order h l r = elim (h l).order_type [
    | bid ↦ (h r).price ≺ (h l).price
    | ask ↦ (h l).price ≺ (h r).price
  ]

  -- OrderBook::filterOrders
  unfoldable pub filter_orders : Sort → Heap N → List ℕ → ℕ → List ℕ
  unfolding compare_order
  filter_orders sort h orders sym =
      sort (compare_order h) (keep (λ r. (h r).currency == sym) orders)

  -- OrderBook::setCurrency
  unfoldable pub set_currency : Sort → Heap N → Book → ℕ → Book
  unfolding filter_orders
  set_currency sort h b sym = record b {
    currency = sym;
    filtered_orders = filter_orders sort h b.orders sym;
  }

  -- OrderBook::addOrder, which always returns ZR_SUCCESS
  unfoldable pub add_order : Sort → Heap N → Book → ℕ → Book
  unfolding filter_orders
  add_order sort h b r =
      let orders = b.orders ++ r ∷ [] in
      if not ((h r).currency == b.currency)
      then record b { orders = orders }
      else record b { orders = orders; filtered_orders = filter_orders sort h orders b.currency }

  -- OrderBook::remove
  unfoldable pub remove : Sort → Which → Text → Desk N → Option ℕ × Desk N
  unfolding find erase filter_orders delete_order
  remove sort w id d =
      let b = get w d in
      let orders = erase d.heap b.orders id in
      let filtered = filter_orders sort d.heap orders b.currency in
      elim (find d.heap b.orders id) [
        | none ↦ (none, d)
        | some r ↦ (
          some r,
          record (put w (record b { orders = orders; filtered_orders = filtered }) d) {
            table = delete_order d.table id;
          },
        )
      ]

  -- The timestamp test of processOrder: too old, or more than an hour ahead.
  unfoldable pub bad_time : Build → ℤ → Order N → Bool
  unfolding timeout
  bad_time build now o =
      ltb_ℤ (timeout build) (now -ℤ o.time_stamp) || ltb_ℤ (pos 3600000) (o.time_stamp -ℤ now)

  -- processOrder on FILLED and CANCEL.
  unfoldable pub process_gone : Sort → Which → Text → Desk N → RetVal × Desk N
  unfolding remove
  process_gone sort w id d =
      let (old, d') = remove sort w id d in
      elim old [ none ↦ (finish, d') | some r ↦ (success, d') ]

  -- processOrder on PARTLY_FILLED, behind the loop: the order is removed and inserted again.
  unfoldable pub reinsert : Sort → Which → ℕ → Desk N → RetVal × Desk N
  unfolding remove add_order
  reinsert sort w r d =
      let d' = (remove sort w (d.heap r).order_id d).1 in
      (success, put w (add_order sort d'.heap (get w d') r) d')

  -- processOrder on PARTLY_FILLED.
  unfoldable pub process_partly_filled : Sort → Which → ℕ → Desk N → RetVal × Desk N
  unfolding find reinsert write
  process_partly_filled sort w r d =
      let o = d.heap r in
      elim (find d.heap (get w d).orders o.order_id) [
        | none ↦ reinsert sort w r d
        | some q ↦
            if num.same o.amount (d.heap q).amount
            then (finish, d)
            else reinsert sort w r
                (record d { heap = write d.heap r (record o { ignored = (d.heap q).ignored }) })
      ]

  -- processOrder on NEW and SELL.
  unfoldable pub process_new : Sort → Which → ℕ → Desk N → RetVal × Desk N
  unfolding find add_order
  process_new sort w r d = elim (find d.heap (get w d).orders (d.heap r).order_id) [
    | none ↦ (success, put w (add_order sort d.heap (get w d) r) d)
    | some q ↦ (finish, d)
  ]

  -- The part of processOrder that depends on the purpose.
  unfoldable pub process_purpose : Sort → Which → ℕ → Purpose → Desk N → RetVal × Desk N
  unfolding process_gone process_partly_filled process_new
  process_purpose sort w r filled d = process_gone sort w (d.heap r).order_id d
  process_purpose sort w r cancel d = process_gone sort w (d.heap r).order_id d
  process_purpose sort w r partly_filled d = process_partly_filled sort w r d
  process_purpose sort w r fresh d = process_new sort w r d
  process_purpose sort w r sell d = process_new sort w r d

  -- OrderBook::processOrder, on the order behind `r` at the time `now`.
  unfoldable pub process_order : Build → ℤ → Sort → Which → ℕ → Desk N → RetVal × Desk N
  unfolding find bad_time process_purpose
  process_order build now sort w r d =
      let o = d.heap r in
      elim (find d.heap d.my_book.orders o.order_id) [
        | some q ↦ (failure, d)
        | none ↦ if bad_time build now o then (failure, d) else process_purpose sort w r o.purpose d
      ]

  -- OrderBook::processMyOrder. `failing`: the insert statement fails.
  unfoldable pub process_my_order : Bool → (N → N) → Sort → Which → ℕ → Desk N → RetVal × Desk N
  unfolding insert_order add_order
  process_my_order failing stored sort w r d =
      let table = insert_order stored d.table (d.heap r) in
      let d' = record d { table = table; my_book = add_order sort d.heap d.my_book r } in
      let d'' = put w (add_order sort d.heap (get w d') r) d' in
      if failing then (failure, d) else (success, record d'' { published = d.heap r ∷ d.published })

  -- OrderBook::timeoutOrders: one turn of the loop.
  unfoldable pub expire : Build → ℤ → Sort → Which → ℕ → Desk N → Desk N
  unfolding timeout remove
  expire build now sort w r d =
      let o = d.heap r in
      let d' = (remove sort w o.order_id d).1 in
      if ltb_ℤ (timeout build) (now -ℤ o.time_stamp)
      then if num.same o.commitment num.nought
        then if o.is_my_order then (remove sort mine o.order_id d').1 else d'
        else d
      else d

  -- The loop, over a copy of the list.
  unfoldable pub expire_all : Build → ℤ → Sort → Which → List ℕ → Desk N → Desk N
  unfolding expire
  expire_all build now sort w [] d = d
  expire_all build now sort w (r ∷ rs) d =
      expire_all build now sort w rs (expire build now sort w r d)

  unfoldable pub timeout_orders : Build → ℤ → Sort → Which → Desk N → Desk N
  unfolding expire_all
  timeout_orders build now sort w d = expire_all build now sort w (get w d).orders d
