-- ===== src/Matching/StartUp.antt =====
-- MyOrders::init, with loadOrders and the callback of zrdb.cpp that it works through: the user's orders come back from the
-- table `myorders` when the program starts.
use zero_reserve.Base.{
  ℕ, suc, ◌<◌, Bool, true, false, ◌≡◌, refl, List, [], ◌∷◌, ◌++◌, none, some, ◌==◌, ◌||◌, arith, ap,
  subst, Bool-cases, inl, inr, ◌∙◌, if◌then◌else◌,
}
use zero_reserve.Currency.{Build, symbol_of, get_currency_by_symbol, invalid}
use zero_reserve.Currency.Tables.{symbol_round_trip}
use zero_reserve.Number.{Number}
use zero_reserve.Orders.{
  Order, Row, Heap, Book, Desk, Which, RetVal, success, failure, bids, asks, mine, get, put, write,
  add_order, insert_order,
}
use zero_reserve.Orders.Sorting.{Sort}
use zero_reserve.Orders.Change.{get-put, heap-put, orders-add_order}
use zero_reserve.Matching.{side_of}

-- The currency that is read back for the one that addOrder wrote as a symbol.
unfoldable stored_currency : Build → ℕ → ℕ
unfolding symbol_of get_currency_by_symbol invalid
stored_currency build cur = elim (symbol_of build cur) [
  | none ↦ invalid build
  | some s ↦ get_currency_by_symbol build s
]

module _ {N : Type 0} ⦃num : Number N⦄ where
  -- orders_callback: a new order with what the row says.
  unfoldable pub order_of : Build → Row N → Order N
  unfolding stored_currency
  order_of build row = record {
    order_id = row.row_id;
    is_my_order = true;
    order_type = row.row_type;
    amount = row.row_amount;
    price = row.row_price;
    currency = stored_currency build row.row_currency;
    time_stamp = row.row_time;
    purpose = row.row_purpose;
    commitment = num.nought;
    btc_addr = [];
    locked = false;
    ignored = false;
    matched = [];
  }

  -- ZrDB::loadOrders: the new orders are behind the pointers from `r` on.
  unfoldable pub load_orders : Build → ℕ → List (Row N) → Heap N → List ℕ × Heap N
  unfolding order_of write
  load_orders build r [] h = ([], h)
  load_orders build r (row ∷ rows) h =
      let (rs, g) = load_orders build (suc r) rows (write h r (order_of build row)) in (r ∷ rs, g)

  -- One turn of the loop of init: the order is added to the user's own and to the book `w`.
  unfoldable pub enter_both : Sort → Which → ℕ → Desk N → Desk N
  unfolding add_order
  enter_both sort w r d =
      let d' = put mine (add_order sort d.heap d.my_book r) d in
      put w (add_order sort d'.heap (get w d') r) d'

  unfoldable pub enter_all : Sort → List ℕ → Desk N → Desk N
  unfolding enter_both
  enter_all sort [] d = d
  enter_all sort (r ∷ rs) d =
      enter_all sort rs (enter_both sort (side_of (d.heap r).order_type) r d)

  -- MyOrders::init. `failing`: loadOrders throws. No pointer from `r` on is in use.
  unfoldable pub init_orders : Build → Bool → Sort → ℕ → Desk N → RetVal × Desk N
  unfolding load_orders enter_all
  init_orders build failing sort r d =
      let (rs, h) = load_orders build r d.table d.heap in
      if failing then (failure, d) else (success, enter_all sort rs (record d { heap = h }))

-- The pointer stands in the list.
abbrev pub stands : ℕ → List ℕ → Bool
stands q [] = false
stands q (r ∷ rs) = q == r || stands q rs

stands-last : (rs : List ℕ) (r : ℕ) → stands r (rs ++ r ∷ []) ≡ true
stands-last [] r = ground arith
stands-last (q ∷ rs) r = ground (arith, stands-last rs r)

stands-before : (rs : List ℕ) (q r : ℕ) → stands q rs ≡ true → stands q (rs ++ r ∷ []) ≡ true
stands-before [] q r h = cc
stands-before (p ∷ rs) q r h = ground (arith, stands-before rs q r)

module _ {N : Type 0} ⦃num : Number N⦄ (sort : Sort) where
  -- The order `q` stands in the book `w`.
  abbrev pub In : Which → ℕ → Desk N → Type 0
  In w q d = stands q (get w d).orders ≡ true

  before-add_order :
      (h : Heap N) (b : Book) (q r : ℕ)
      → stands q b.orders ≡ true
      → stands q (add_order sort h b r).orders ≡ true
  before-add_order h b q r s = rw (orders-add_order sort h b r) (stands-before b.orders q r s)

  In-put_before :
      (v w : Which) (h : Heap N) (q r : ℕ) (d : Desk N)
      → In w q d
      → In w q (put v (add_order sort h (get v d) r) d)
  In-put_before bids bids h q r d s = before-add_order h _ q r s
  In-put_before bids asks h q r d s = s
  In-put_before bids mine h q r d s = s
  In-put_before asks bids h q r d s = s
  In-put_before asks asks h q r d s = before-add_order h _ q r s
  In-put_before asks mine h q r d s = s
  In-put_before mine bids h q r d s = s
  In-put_before mine asks h q r d s = s
  In-put_before mine mine h q r d s = before-add_order h _ q r s

  In-put_last :
      (v : Which) (h : Heap N) (r : ℕ) (d : Desk N)
      → In v r (put v (add_order sort h (get v d) r) d)
  In-put_last v h r d = rw (get-put v, orders-add_order sort h (get v d) r) (stands-last _ r)

  In-enter_both : (v w : Which) (q r : ℕ) (d : Desk N) → In w q d → In w q (enter_both sort v r d)
  unfolding enter_both
  In-enter_both v w q r d s = In-put_before v w d.heap q r _ (In-put_before mine w d.heap q r d s)

  In-enter_all :
      (rs : List ℕ) (w : Which) (q : ℕ) (d : Desk N) → In w q d → In w q (enter_all sort rs d)
  unfolding enter_all
  In-enter_all [] w q d s = s
  In-enter_all (r ∷ rs) w q d s = In-enter_all rs w q _ (In-enter_both _ w q r d s)

  heap-enter_both : (v : Which) (r : ℕ) (d : Desk N) → (enter_both sort v r d).heap ≡ d.heap
  unfolding enter_both
  heap-enter_both v r d = heap-put v _ _

  heap-enter_all : (rs : List ℕ) (d : Desk N) → (enter_all sort rs d).heap ≡ d.heap
  unfolding enter_all
  heap-enter_all [] d = refl
  heap-enter_all (r ∷ rs) d = heap-enter_all rs _ ∙ heap-enter_both _ r d

  entered_now :
      (r : ℕ) (d : Desk N)
      → let d' = enter_both sort (side_of (d.heap r).order_type) r d in
        In mine r d' × In (side_of (d.heap r).order_type) r d'
  unfolding enter_both
  entered_now r d = (
    In-put_before (side_of (d.heap r).order_type) mine d.heap r r _ (In-put_last mine d.heap r d),
    In-put_last (side_of (d.heap r).order_type) d.heap r _,
  )

  all_entered :
      (rs : List ℕ) (q : ℕ) (d : Desk N)
      → stands q rs ≡ true
      → In mine q (enter_all sort rs d) × In (side_of (d.heap q).order_type) q (enter_all sort rs d)
  unfolding enter_all
  all_entered [] q d s = cc
  all_entered (r ∷ rs) q d s =
      let d' = enter_both sort (side_of (d.heap r).order_type) r d in
      elim (Bool-cases (q == r)) [
        | inl e ↦
            subst
              (λ (x : ℕ).
                In mine x (enter_all sort rs d')
                × In (side_of (d.heap x).order_type) x (enter_all sort rs d'))
              (ground arith)
              (
                In-enter_all rs mine r d' (entered_now r d).0,
                In-enter_all rs (side_of (d.heap r).order_type) r d' (entered_now r d).1,
              )
        | inr e ↦
            subst
              (λ (h : Heap N).
                In mine q (enter_all sort rs d')
                × In (side_of (h q).order_type) q (enter_all sort rs d'))
              (heap-enter_both _ r d) (all_entered rs q d' (ground arith))
      ]

stored_currency-same :
    (build : Build) (cur : ℕ) → cur < invalid build → stored_currency build cur ≡ cur
unfolding stored_currency
stored_currency-same build cur h =
    let (s, e, _, g) = symbol_round_trip build cur h in rw (stored_currency, e) g

module _ {N : Type 0} ⦃num : Number N⦄ (build : Build) where
  write-same : (h : Heap N) (r : ℕ) (o : Order N) → write h r o r ≡ o
  unfolding write
  write-same h r o = elim (Bool-cases (r == r)) [ inl e ↦ rw e refl | inr e ↦ ground arith ]

  last_loaded :
      (rows : List (Row N)) (row : Row N) (r : ℕ) (h : Heap N)
      → (q : ℕ) × (stands q (load_orders build r (rows ++ row ∷ []) h).0 ≡ true)
        × ((load_orders build r (rows ++ row ∷ []) h).1 q ≡ order_of build row)
  unfolding load_orders write
  last_loaded [] row r h = (r, ground arith, write-same h r _)
  last_loaded (first ∷ rows) row r h =
      let (q, s, e) = last_loaded rows row (suc r) (write h r (order_of build first)) in
      (q, ground arith, e)

  -- What is left of an order that is written to the table and read back.
  abbrev pub restored : (N → N) → Order N → Order N
  restored stored o = record o {
    is_my_order = true;
    amount = stored o.amount;
    price = stored o.price;
    commitment = num.nought;
    btc_addr = [];
    locked = false;
    ignored = false;
    matched = [];
  }

  abbrev row_of : (N → N) → Order N → Row N
  row_of stored o = record {
    row_id = o.order_id;
    row_type = o.order_type;
    row_amount = stored o.amount;
    row_price = stored o.price;
    row_currency = o.currency;
    row_time = o.time_stamp;
    row_purpose = o.purpose;
  }

  -- An order of a currency before INVALID that addOrder writes to the table as the last one is behind some pointer after
  -- MyOrders::init, without its commitment, address, marks and matches and with its numbers as stored, and that
  -- pointer stands among the user's own orders and in the book of the order's type.
  pub init_orders-restores :
      (stored : N → N) (sort : Sort) (r : ℕ) (d : Desk N) (o : Order N)
      → o.currency < invalid build
      → let d' =
          (init_orders build false sort r (record d { table = insert_order stored d.table o })).1 in
        (q : ℕ) × In sort mine q d'
        × In sort (side_of o.order_type) q d'
        × (d'.heap q ≡ restored stored o)
  unfolding init_orders insert_order order_of
  init_orders-restores stored sort r d o h =
      let (rs, g) = load_orders build r (insert_order stored d.table o) d.heap in
      let d' = record d { heap = g; table = insert_order stored d.table o } in
      let (q, s, e) = last_loaded d.table (row_of stored o) r d.heap in
      let (first, second) = all_entered sort rs q d' s in
      (
        q,
        first,
        subst (λ (x : Order N). In sort (side_of x.order_type) q (enter_all sort rs d')) e second,
        ap (λ (x : Heap N). x q) (heap-enter_all sort rs d')
            ∙ e
            ∙ ap (λ (x : ℕ). record (restored stored o) { currency = x })
                (stored_currency-same build o.currency h),
      )
