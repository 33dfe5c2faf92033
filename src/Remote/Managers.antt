-- ===== src/Remote/Managers.antt =====
-- TransactionManager.cpp: the remote handleTxItem, which gives an item to its manager, or to a new one.
use zero_reserve.Base.{◌∷◌, ◌++◌, Option, none, some, Text, text_eq, not, keep}
use zero_reserve.Base.Int.{ℤ}
use zero_reserve.Base.Dict.{Dict, lookup, assign}
use zero_reserve.Currency.{Build}
use zero_reserve.Number.{Number}
use zero_reserve.Orders.{RetVal, failure, success, finish, find}
use zero_reserve.Orders.Sorting.{Sort}
use zero_reserve.Wire.Items.{Spelling}
use zero_reserve.Remote.{Parcel, Trade, Outcome, returned, threw, undefined}
use zero_reserve.Remote.Coordinator.{Buyer, process_buyer}
use zero_reserve.Remote.Payee.{Seller, RawTx, new_seller, process_seller}
use zero_reserve.Remote.Hop.{Middle, new_middle, process_middle}

-- A TransactionManager of a remote contract.
pub data Manager : Type 0 where
  buyer : Buyer → Manager
  seller : Seller → Manager
  middle : Middle → Manager

-- TransactionManager::currentTX and what the managers work on.
pub record Floor (N : Type 0) : Type 0 where
  pub managers : Dict Manager
  pub trade : Trade N

-- The destructor's removal from currentTX.
unfoldable pub drop_manager : Text → Dict Manager → Dict Manager
drop_manager id m = keep (λ e. not (text_eq id e.0)) m

module _ {N : Type 0} where
  -- The manager of an item: the one in currentTX, or a new one, the payee's if the order is the user's.
  unfoldable pub manager_of : Parcel → Text → Floor N → Manager
  unfolding lookup find
  manager_of item id f = elim (lookup f.managers id) [
    | some m ↦ m
    | none ↦ elim (find f.trade.desk.heap f.trade.desk.my_book.orders item.address) [
      | some q ↦ seller new_seller
      | none ↦ middle new_middle
    ]
  ]

  -- What handleTxItem does with the result: a manager that returned anything but ZR_SUCCESS is deleted,
  -- one that threw is kept. `none` is undefined behaviour.
  unfoldable pub settle :
      {S : Type 0} → (S → Manager) → Text → Dict Manager → Outcome S N → Option (RetVal × Floor N)
  unfolding assign drop_manager
  settle make id m (returned success s t) =
      some (success, record { managers = assign m id (make s); trade = t })
  settle make id m (returned failure s t) =
      some (failure, record { managers = drop_manager id m; trade = t })
  settle make id m (returned finish s t) =
      some (finish, record { managers = drop_manager id m; trade = t })
  settle make id m (threw s t) =
      some (failure, record { managers = assign m id (make s); trade = t })
  settle make id m undefined = none

module _ {N : Type 0} ⦃num : Number N⦄ where
  unfoldable pub give :
      Build
      → (N → N)
      → Spelling N
      → Sort
      → ℤ
      → (N → Text → Text → RawTx)
      → Parcel
      → Text
      → Manager
      → Floor N
      → Option (RetVal × Floor N)
  unfolding process_buyer process_seller process_middle settle
  give build stored sp sort now mk_raw_tx item id (buyer s) f =
      settle buyer id f.managers (process_buyer build stored sp sort item s f.trade)
  give build stored sp sort now mk_raw_tx item id (seller s) f =
      settle seller id f.managers (process_seller build stored sp sort now mk_raw_tx item s f.trade)
  give build stored sp sort now mk_raw_tx item id (middle s) f =
      settle middle id f.managers (process_middle build stored sp now item s f.trade)

  -- TransactionManager::handleTxItem on an RSZRRemoteTxItem
  unfoldable pub handle_remote_item :
      Build
      → (N → N)
      → Spelling N
      → Sort
      → ℤ
      → (N → Text → Text → RawTx)
      → Parcel
      → Floor N
      → Option (RetVal × Floor N)
  unfolding manager_of give
  handle_remote_item build stored sp sort now mk_raw_tx item f =
      let id = item.address ++ 58 ∷ item.payer_id in
      give build stored sp sort now mk_raw_tx item id (manager_of item id f) f
