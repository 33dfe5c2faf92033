-- ===== src/Orders/Data.antt =====
-- OrderBook.h, zrtypes.h: the orders, the heap of the orders that pointers lead to, and a book.
use zero_reserve.Base.{ℕ, Bool, List, Text, ◌==◌, if◌then◌else◌}
use zero_reserve.Base.Int.{ℤ, pos}
use zero_reserve.Currency.{Build, testnet, main}

pub data OrderType : Type 0 where
  bid ask : OrderType

-- `NEW` is a keyword of C++ in lower case and is spelled `fresh` here.
pub data Purpose : Type 0 where
  fresh cancel filled partly_filled sell : Purpose

-- `enum RetVal`
pub data RetVal : Type 0 where
  failure success finish : RetVal

pub record Order (N : Type 0) : Type 0 where
  pub order_id : Text
  pub is_my_order : Bool
  pub order_type : OrderType
  pub amount : N
  pub price : N
  pub currency : ℕ
  pub time_stamp : ℤ
  pub purpose : Purpose
  pub commitment : N
  pub btc_addr : Text
  pub locked : Bool
  pub ignored : Bool
  pub matched : List Text

-- OrderBook::Order::timeout, in milliseconds: half an hour with ZR_TESTNET, otherwise a day.
unfoldable pub timeout : Build → ℤ
timeout testnet = pos 1800000
timeout main = pos 86400000

abbrev pub Heap : Type 0 → Type 0
Heap N = ℕ → Order N

-- An assignment through a pointer.
unfoldable pub write : {N : Type 0} → Heap N → ℕ → Order N → Heap N
write h r o q = if q == r then o else h q

-- `m_orders`, `m_filteredOrders` and `m_currency` of class OrderBook.
pub record Book : Type 0 where
  pub orders : List ℕ
  pub filtered_orders : List ℕ
  pub currency : ℕ

-- A row of the table `myorders`.
pub record Row (N : Type 0) : Type 0 where
  pub row_id : Text
  pub row_type : OrderType
  pub row_amount : N
  pub row_price : N
  pub row_currency : ℕ
  pub row_time : ℤ
  pub row_purpose : Purpose

-- The objects of class OrderBook: the two sides and the user's own orders (class MyOrders).
pub data Which : Type 0 where
  bids asks mine : Which

-- What the books share: the orders, the table of the database, and what was given to publishOrder,
-- the last first.
pub record Desk (N : Type 0) : Type 0 where
  pub heap : Heap N
  pub bid_book : Book
  pub ask_book : Book
  pub my_book : Book
  pub table : List (Row N)
  pub published : List (Order N)

module _ {N : Type 0} where
  abbrev pub get : Which → Desk N → Book
  get bids d = d.bid_book
  get asks d = d.ask_book
  get mine d = d.my_book

  abbrev pub put : Which → Book → Desk N → Desk N
  put bids b d = record d { bid_book = b }
  put asks b d = record d { ask_book = b }
  put mine b d = record d { my_book = b }
