-- ===== src/Dialog/Entries.antt =====
-- What stands in the user's own book after the user's entries.
use zero_reserve.Base.{
  ℕ, Bool, true, false, List, [], ◌∷◌, ◌++◌, ◌≡◌, ◌≢◌, refl, Text, is_empty, if◌then◌else◌, ◌==◌,
  Bool-cases, inl, inr, All, All-append, arith, ap, sym, subst, ◌∙◌, not,
}
use zero_reserve.Number.{Number, ◌≺◌}
use zero_reserve.Orders.{
  Order, OrderType, bid, ask, Book, Heap, Desk, Which, mine, write, process_my_order,
}
use zero_reserve.Orders.Sorting.{Sort}
use zero_reserve.Orders.Change.{my_book-put, heap-put, orders-add_order}
use zero_reserve.Dialog.{Desktop, entered, with_id, submit, place, do_order}

-- The coins of an ask are on an address.
abbrev pub has_coins : OrderType → Text → Bool
has_coins bid addr = true
has_coins ask addr = not (is_empty addr)

-- No order of the list is behind the pointer.
abbrev pub IsNew : ℕ → List ℕ → Type 0
IsNew r rs = All (λ q. (q == r) ≡ false) rs

module _ {N : Type 0} ⦃num : Number N⦄ where
  -- An order that can be matched.
  pub record IsSound (o : Order N) : Type 0 where
    pub amount_positive : num.nought ≺ o.amount ≡ true
    pub price_positive : num.nought ≺ o.price ≡ true
    pub coins : has_coins o.order_type o.btc_addr ≡ true

  abbrev pub AllSound : Desk N → Type 0
  AllSound d = All (λ q. IsSound (d.heap q)) d.my_book.orders

  write-All :
      (h : Heap N) (r : ℕ) (o : Order N) (rs : List ℕ)
      → IsNew r rs
      → All (λ q. IsSound (h q)) rs
      → All (λ q. IsSound (write h r o q)) rs
  unfolding write
  write-All h r o [] n s = tt
  write-All h r o (q ∷ rs) n s = (rw n.0 s.0, write-All h r o rs n.1 s.1)

  pub write-new : (h : Heap N) (r : ℕ) (o : Order N) → write h r o r ≡ o
  unfolding write
  write-new h r o = ground arith

  module _ (stored : N → N) (sort : Sort) (w : Which) (r : ℕ) (d : Desk N) (n : w ≢ mine) where
    pub process_my_order-heap :
        (failing : Bool) → (process_my_order failing stored sort w r d).1.heap ≡ d.heap
    unfolding process_my_order
    process_my_order-heap true = refl
    process_my_order-heap false = heap-put w _ _

    process_my_order-my_book :
        (failing : Bool)
        → (process_my_order failing stored sort w r d).1.my_book.orders
          ≡ (if failing then d.my_book.orders else d.my_book.orders ++ r ∷ [])
    unfolding process_my_order
    process_my_order-my_book true = refl
    process_my_order-my_book false =
        ap (λ (b : Book). b.orders) (my_book-put w _ _ n) ∙ orders-add_order sort d.heap d.my_book r

    process_my_order-AllSound :
        (failing : Bool)
        → AllSound d
        → IsSound (d.heap r)
        → AllSound (process_my_order failing stored sort w r d).1
    process_my_order-AllSound failing s o =
        rw (process_my_order-heap failing, process_my_order-my_book failing)
          (elim failing
            as (λ f.
              All (λ q. IsSound (d.heap q))
                (if f then d.my_book.orders else d.my_book.orders ++ r ∷ [])) [
                  | true ↦ s
                  | false ↦ All-append _ d.my_book.orders (r ∷ []) s (o, tt)
                ])

module _ {N S : Type 0} ⦃num : Number N⦄ (t : Desktop N S) (w : Which) (n : w ≢ mine) where
  submit-AllSound :
      (r : ℕ) (o : Order N) (d : Desk N)
      → AllSound d
      → IsNew r d.my_book.orders
      → IsSound o
      → AllSound (submit t w r o d)
  unfolding submit
  submit-AllSound r o d s new k =
      process_my_order-AllSound t.stored t.sort w r (record d { heap = write d.heap r o }) n
        t.failing (write-All d.heap r o d.my_book.orders new s)
        (subst IsSound (sym (write-new d.heap r o)) k)

  place-AllSound :
      (type : OrderType) (r : ℕ) (price amount : N) (d : Desk N) (s : S)
      → AllSound d
      → IsNew r d.my_book.orders
      → num.nought ≺ amount ≡ true
      → num.nought ≺ price ≡ true
      → AllSound (place t w type r amount (with_id t (entered t type price amount)) (d, s)).1
  unfolding place entered with_id
  place-AllSound bid r price amount d s all new a p =
      submit-AllSound r _ d all new
        (record { amount_positive = a; price_positive = p; coins = refl })
  place-AllSound ask r price amount d s all new a p =
      elim (Bool-cases (is_empty (t.mk_address amount s).0)) [
        | inl e ↦ rw e all
        | inr e ↦ rw e (
            submit-AllSound r _ d all new
              (record { amount_positive = a; price_positive = p; coins = ap not e }))
      ]

  -- Where every order of the user's own book has an amount and a price above 0 and, for an ask, an address, doOrder on one of
  -- the two sides keeps that, whatever was entered, whether the back end gives an address and whether the order could be stored.
  pub do_order-AllSound :
      (type : OrderType) (price amount : N) (r : ℕ) (d : Desk N) (s : S)
      → AllSound d
      → IsNew r d.my_book.orders
      → AllSound (do_order t w type price amount r (d, s)).1
  unfolding do_order
  do_order-AllSound type price amount r d s all new = elim (Bool-cases (num.nought ≺ amount)) [
    | inr e ↦ rw e all
    | inl e ↦ elim (Bool-cases (num.nought ≺ price)) [
      | inr k ↦ rw (e, k) all
      | inl k ↦ rw (e, k) (place-AllSound type r price amount d s all new e k)
    ]
  ]
