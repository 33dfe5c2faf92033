-- ===== src/Orders/Expiry.antt =====
-- OrderBook::timeoutOrders: which orders its loop leaves in the book.
use mathlib.Core.List.{append_assoc}
use zero_reserve.Base.{
  ℕ, Bool, true, false, ◌≡◌, ◌≢◌, refl, List, [], ◌∷◌, ◌++◌, none, Text, text_eq, text_eq_refl,
  text_eq_sound, keep, not, ◌&&◌, if◌then◌else◌, Bool-cases, inl, inr, arith, ap₂, sym, subst, ◌∙◌,
}
use zero_reserve.Base.Int.{ℤ, ◌-ℤ◌, ltb_ℤ}
use zero_reserve.Currency.{Build}
use zero_reserve.Number.{Number}
use zero_reserve.Orders.{
  Order, Heap, Desk, Which, bids, asks, mine, get, find, erase, timeout, remove, expire, expire_all,
  timeout_orders,
}
use zero_reserve.Orders.Sorting.{Sort}
use zero_reserve.Orders.Find.{Unique, Unique-erase}
use zero_reserve.Orders.Change.{IsValid, remove-cases, remove-IsValid, orders-remove, heap-remove}

module _ {N : Type 0} (h : Heap N) where
  find-here : (pre rs : List ℕ) (r : ℕ) → find h (pre ++ r ∷ rs) (h r).order_id ≢ none
  unfolding find
  find-here [] rs r e = cc (text_eq_refl (h r).order_id)
  find-here (q ∷ pre) rs r e = ground (arith, find-here pre rs r)

  -- In a list without repeated ids an order's id leads to that order.
  erase-middle :
      (pre rs : List ℕ) (r : ℕ)
      → Unique h (pre ++ r ∷ rs)
      → erase h (pre ++ r ∷ rs) (h r).order_id ≡ pre ++ rs
  unfolding erase
  erase-middle [] rs r u = rw (text_eq_refl (h r).order_id) refl
  erase-middle (q ∷ pre) rs r u = elim (Bool-cases (text_eq (h r).order_id (h q).order_id)) [
    | inl t ↦ absurd (
        find-here pre rs r
          (subst (λ x. find h (pre ++ r ∷ rs) x ≡ none) (sym (text_eq_sound _ _ t)) u.0))
    | inr t ↦ rw (t, erase-middle pre rs r u.1) refl
  ]

  module _ (p : ℕ → Bool) where
    -- One erasure for each order of the copied list that passes the test.
    abbrev erase_each : List ℕ → List ℕ → List ℕ
    erase_each [] orders = orders
    erase_each (r ∷ rs) orders =
        erase_each rs (if p r then erase h orders (h r).order_id else orders)

    erase_each-keep :
        (pre rs : List ℕ)
        → Unique h (pre ++ rs)
        → erase_each rs (pre ++ rs) ≡ pre ++ keep (λ r. not (p r)) rs
    erase_each-keep pre [] u = refl
    erase_each-keep pre (r ∷ rs) u = elim (Bool-cases (p r)) [
      | inl e ↦
          rw (e, erase-middle pre rs r u)
            (erase_each-keep pre rs
              (subst (Unique h) (erase-middle pre rs r u) (Unique-erase h _ (h r).order_id u)))
      | inr e ↦
          rw
            (
              e,
              ← append_assoc pre (r ∷ []) rs,
              ← append_assoc pre (r ∷ []) (keep (λ q. not (p q)) rs),
            )
            (erase_each-keep (pre ++ r ∷ []) rs
              (subst (Unique h) (sym (append_assoc pre (r ∷ []) rs)) u))
    ]

module _ {N : Type 0} ⦃num : Number N⦄ (sort : Sort) where
  get-remove_mine :
      (w : Which) (id : Text) (d : Desk N) → w ≢ mine → get w (remove sort mine id d).1 ≡ get w d
  get-remove_mine bids id d n =
      remove-cases sort (λ d'. d'.bid_book ≡ d.bid_book) mine id d (λ e. refl) (λ r e. refl)
  get-remove_mine asks id d n =
      remove-cases sort (λ d'. d'.ask_book ≡ d.ask_book) mine id d (λ e. refl) (λ r e. refl)
  get-remove_mine mine id d n = absurd (n refl)

  pub IsValid-remove_mine :
      (w : Which) (id : Text) (d : Desk N)
      → w ≢ mine
      → IsValid sort w d
      → IsValid sort w (remove sort mine id d).1
  IsValid-remove_mine w id d n v = record {
    unique = rw (heap-remove sort mine id d, get-remove_mine w id d n) v.unique;
    in_sync = rw (heap-remove sort mine id d, get-remove_mine w id d n) v.in_sync;
  }

module _ {N : Type 0} ⦃num : Number N⦄ (sort : Sort) (build : Build) (now : ℤ) where
  -- An order that is past its time and that no contract stands behind.
  abbrev pub expired : Order N → Bool
  expired o = ltb_ℤ (timeout build) (now -ℤ o.time_stamp) && num.same o.commitment num.nought

  -- What one turn of the loop does to a property of the book and the heap.
  pub expire-cases :
      (P : Desk N → Type 0) (w : Which) (r : ℕ) (d : Desk N)
      → (expired (d.heap r) ≡ false → P d)
      → (expired (d.heap r) ≡ true → P (remove sort w (d.heap r).order_id d).1)
      → (expired (d.heap r) ≡ true
          → P (remove sort mine (d.heap r).order_id (remove sort w (d.heap r).order_id d).1).1)
      → P (expire build now sort w r d)
  unfolding expire
  expire-cases P w r d fresh other own = ground arith

  expire-heap : (w : Which) (r : ℕ) (d : Desk N) → (expire build now sort w r d).heap ≡ d.heap
  expire-heap w r d =
      expire-cases (λ d'. d'.heap ≡ d.heap) w r d (λ e. refl) (λ e. heap-remove sort w _ d)
        (λ e. heap-remove sort mine _ _ ∙ heap-remove sort w _ d)

  expire-orders :
      (w : Which) (r : ℕ) (d : Desk N)
      → w ≢ mine
      → (get w (expire build now sort w r d)).orders ≡ (
          if expired (d.heap r)
          then erase d.heap (get w d).orders (d.heap r).order_id
          else (get w d).orders)
  expire-orders w r d n =
      expire-cases
        (λ d'. (get w d').orders ≡ (
          if expired (d.heap r)
          then erase d.heap (get w d).orders (d.heap r).order_id
          else (get w d).orders))
        w r d (λ e. rw e refl) (λ e. rw e (orders-remove sort w _ d))
        (λ e. rw (e, get-remove_mine sort w (d.heap r).order_id _ n) (orders-remove sort w _ d))

  expire-IsValid :
      (w : Which) (r : ℕ) (d : Desk N)
      → w ≢ mine
      → IsValid sort w d
      → IsValid sort w (expire build now sort w r d)
  expire-IsValid w r d n v =
      expire-cases (IsValid sort w) w r d (λ e. v) (λ e. remove-IsValid sort w _ d v)
        (λ e. IsValid-remove_mine sort w _ _ n (remove-IsValid sort w _ d v))

  pub expire_all-heap :
      (w : Which) (rs : List ℕ) (d : Desk N) → (expire_all build now sort w rs d).heap ≡ d.heap
  unfolding expire_all
  expire_all-heap w [] d = refl
  expire_all-heap w (r ∷ rs) d = expire_all-heap w rs _ ∙ expire-heap w r d

  expire_all-IsValid :
      (w : Which) (rs : List ℕ) (d : Desk N)
      → w ≢ mine
      → IsValid sort w d
      → IsValid sort w (expire_all build now sort w rs d)
  unfolding expire_all
  expire_all-IsValid w [] d n v = v
  expire_all-IsValid w (r ∷ rs) d n v = expire_all-IsValid w rs _ n (expire-IsValid w r d n v)

  expire_all-orders :
      (w : Which) (rs : List ℕ) (d : Desk N)
      → w ≢ mine
      → (get w (expire_all build now sort w rs d)).orders
        ≡ erase_each d.heap (λ r. expired (d.heap r)) rs (get w d).orders
  unfolding expire_all
  expire_all-orders w [] d n = refl
  expire_all-orders w (r ∷ rs) d n =
      expire_all-orders w rs (expire build now sort w r d) n
      ∙ ap₂ (λ (h : Heap N) (os : List ℕ). erase_each h (λ q. expired (h q)) rs os)
          (expire-heap w r d) (expire-orders w r d n)

  -- The loop of timeoutOrders, on the book of one side, leaves exactly the orders that are within
  -- their time or that a contract is committed to, in their order; it keeps the book in order and
  -- writes to no order.
  pub timeout_orders-keep :
      (w : Which) (d : Desk N)
      → w ≢ mine
      → IsValid sort w d
      → let d' = timeout_orders build now sort w d in
        ((get w d').orders ≡ keep (λ r. not (expired (d.heap r))) (get w d).orders)
        × IsValid sort w d'
        × (d'.heap ≡ d.heap)
  unfolding timeout_orders
  timeout_orders-keep w d n v = (
    expire_all-orders w (get w d).orders d n
        ∙ erase_each-keep d.heap (λ r. expired (d.heap r)) [] (get w d).orders v.unique,
    expire_all-IsValid w (get w d).orders d n v,
    expire_all-heap w (get w d).orders d,
  )
