-- ===== src/Lib.antt =====
-- Zero Reserve, a plugin for the RetroShare friend-to-friend network: friends give one another credit,
-- pay each other by moving balances, publish orders to buy and sell Bitcoins, and settle the trades by
-- contracts between friends. This library models the C++ code of the repository and proves what its
-- parts are for.
--
-- Parts and files:
--   Currency: Currency.cpp, Currency.h. The tables of symbols, names and enumerators of both builds
--     (Currency/Symbols, Names, Literals, Enumerators) and the two lookups.
--   Number: class ZR_Number of zrtypes.h. It is boost::rational by inheritance, which is not part of
--     the repository, so it is an interface (a record of operations and the record IsOrderedRing of laws)
--     that the other parts take as an instance argument. Number/Whole fills it with the whole numbers.
--   Decimal: ZR_Number::fromDecimalString of zrtypes.h, to the call of boost's constructor.
--   Orders: OrderBook.cpp, OrderBook.h. `Desk` is what the two sides and the user's own book share.
--     An order pointer is a number on a heap. `process_order` is processOrder, `remove`, `find`,
--     `add_order`, `filter_orders`, `timeout_orders` and `process_my_order` are the functions of those
--     names. Orders/Sorting states what is asked of qSort.
--   Matching: MyOrders.cpp. `match_order` and `match_all` are the two functions match, `cancel_order` is
--     cancelOrder. A call of buy is recorded as a purchase; what it does is `buy` of
--     Remote/Coordinator. Matching/StartUp has `init_orders`, MyOrders::init, and the reading of the table
--     of orders.
--   Money: Credit.cpp, Credit.h, Payment.cpp, Payment.h and the statements of zrdb.cpp on the tables of
--     accounts and of the log. A table is the list of its rows. Money/Totals has the statements that sum up,
--     delete and list accounts.
--   Contracts: BtcContract.cpp, BtcContract.h. A receiver's contract reserves money on an account when
--     it is made (through Money) and pays it when its Bitcoin transaction is confirmed.
--     Contracts/StartUp reads the contracts from their table.
--   Database: the rest of zrdb.cpp that keeps data. Database/Config is the table of settings with `init_config`, what
--     opening the database does to it; Database/Wallets is the table of wallets, and ZrLibBitcoin.cpp's use of it.
--   Satoshi: satoshi/ZrSatoshiBitcoin.cpp. The JSON-RPC server is the record Rpc of the calls that are made, on a state of
--     its own; `mk_raw_tx`, `mk_order_address` and the others are the methods of those names.
--   Dialog: ZeroReserveDialog.cpp, frienddetailsdialog.cpp, FriendResetDialog.cpp: the entries of the user. `do_order` is
--     doOrder, over the books of Orders and a back end such as Satoshi; `edit_friend` is editFriend, over Money. Dialog/Friends
--     takes its item through Wire to the friend's Service.
--   Routing: Router.h, TraceRouter.cpp.
--   Service: p3ZeroReserveRS.cpp. `handle_order` joins Routing, Orders and `publish_order`;
--     `handle_credit` joins the items of friends to Money. Service/Session has `status_change` and
--     `handle_message`: what friends exchange when they connect. Service/Rounds has `process_incoming`, `janitor` and `tick` on
--     the state Plant of the whole program, which join the handlers of all other parts.
--   Transactions: TransactionManager.cpp (split and the local handleTxItem), and in Transactions/Local
--     TmLocalCoordinator.cpp, TmLocalCohorte.cpp and RsZeroReserveInitTxItem of RSZeroReserveItems.cpp:
--     the two phases of a payment between two friends, on two nodes with a database each. Transactions/Local/Network
--     is a relation of steps between the two that loses items, brings them in any order and ends managers;
--     Transactions/Local/Complete has the deliveries alone. Transactions/Several has currentTX with several transactions, mkId and timeout.
--   Remote: TmContract.cpp, TmContract.h, the remote handleTxItem of TransactionManager.cpp, and MyOrders::buy.
--     Remote/Coordinator, Remote/Payee and Remote/Hop are the three managers, one function per handler, on the
--     state `Trade`: the books of Orders, the accounts of Money, the routes of Routing, and the contracts of
--     Contracts, here behind pointers. Remote/Terms has the payloads, Remote/Managers the map of managers,
--     Remote/Polling pollContracts over the pointers.
--   Wire: RSZeroReserveItems.cpp, RSZRRemoteItems.cpp and their headers. Wire/Items has the items, the values
--     that each method serialise sets and the sums of serial_size, Wire/Serialiser the writing and the
--     reading. RetroShare's functions for packets are the record Raw of operations, with the record IsRaw of
--     what is relied on; Wire/Codec carries a packet value by value.
--   Base: strings as lists of character codes, maps, integers, tests and lemmas.
--
-- What is taken as given. Numbers obey the laws of exact arithmetic, which boost::rational does as long
-- as numerators and denominators fit int64_t. Texts put into SQL statements contain no quotes, and the
-- statements succeed, but for the insertion and the loading of orders, whose failure processMyOrder and
-- MyOrders::init handle. `stored`
-- is what a decimal column gives back for a number; where a result needs it to be the number itself,
-- the result says so. The clock and the number of confirmations are arguments. Locks are not modelled:
-- each operation runs as a whole. The macro ZR_TESTNET is the type Build. Memory that is freed is not
-- tracked. Where C++ names are taken (NEW, INIT, COMMIT), the model's comment gives the name it uses.
--
-- Bounds: the exchange between two nodes runs for a given number of deliveries. Four are enough, and
-- the result about it shows that nothing is left to deliver. `decimal` runs on fuel one above its number, which is more than
-- the number has digits, and mk_id's ids differ by it.
--
-- Not modelled: the widgets of Qt and its item models, RetroShare's service code, what calls libbitcoin and the copied
-- JSON-RPC client, which are input, output or other projects' code. A remote contract is
-- modelled manager by manager, not as a run over several nodes.
--
-- The comment above each result states all its conditions; an entry below may leave out that the account has its row in the
-- database and that a column keeps the number that is written.
pub mod Base
pub mod Currency
pub mod Number
pub mod Database
pub mod Decimal
pub mod Orders
pub mod Dialog
pub mod Money
pub mod Contracts
pub mod Routing
pub mod Transactions
pub mod Matching
pub mod Satoshi
pub mod Service
pub mod Wire
pub mod Remote
