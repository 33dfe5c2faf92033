-- ===== src/Orders/Change.antt =====
-- What the operations on a book change and what they leave alone.
use mathlib.Core.Path.{fun_ext}
use zero_reserve.Base.{
  ℕ, Bool, false, ◌≡◌, ◌≢◌, refl, List, [], ◌∷◌, ◌++◌, none, some, Text, keep, Option-cases,
  Bool-cases, inl, inr, arith, ap, ap₂, sym, ◌∙◌, ◌==◌,
}
use zero_reserve.Number.{Number}
use zero_reserve.Orders.{
  Row, Heap, Book, Desk, Which, bids, asks, mine, get, put, find, erase, filter_orders,
  compare_order, add_order, remove, delete_order,
}
use zero_reserve.Orders.Sorting.{Sort}
use zero_reserve.Orders.Find.{
  Unique, erase-absent, find-erase, Unique-erase, Unique-append, Unique-congr,
}

module _ {N : Type 0} where
  pub get-put : (w : Which) (b : Book) (d : Desk N) → get w (put w b d) ≡ b
  get-put bids b d = refl
  get-put asks b d = refl
  get-put mine b d = refl

  pub heap-put : (w : Which) (b : Book) (d : Desk N) → (put w b d).heap ≡ d.heap
  heap-put bids b d = refl
  heap-put asks b d = refl
  heap-put mine b d = refl

  pub my_book-put : (w : Which) (b : Book) (d : Desk N) → w ≢ mine → (put w b d).my_book ≡ d.my_book
  my_book-put bids b d n = refl
  my_book-put asks b d n = refl
  my_book-put mine b d n = absurd (n refl)

  pub get-table :
      (w : Which) (d : Desk N) (t : List (Row N)) → get w (record d { table = t }) ≡ get w d
  get-table bids b d = refl
  get-table asks b d = refl
  get-table mine b d = refl

  pub get-heap : (w : Which) (d : Desk N) (h : Heap N) → get w (record d { heap = h }) ≡ get w d
  get-heap bids b d = refl
  get-heap asks b d = refl
  get-heap mine b d = refl

keep-append_drop :
    (p : ℕ → Bool) (rs : List ℕ) (r : ℕ) → p r ≡ false → keep p (rs ++ r ∷ []) ≡ keep p rs
keep-append_drop p [] r e = rw e
keep-append_drop p (q ∷ rs) r e = ground (arith, keep-append_drop p rs r e)

module _ {N : Type 0} ⦃num : Number N⦄ (sort : Sort) where
  -- The view shows what filterOrders returns for the orders of the book.
  abbrev pub InSync : Heap N → Book → Type 0
  InSync h b = b.filtered_orders ≡ filter_orders sort h b.orders b.currency

  pub remove-cases :
      (P : Desk N → Type 0) (w : Which) (id : Text) (d : Desk N)
      → (find d.heap (get w d).orders id ≡ none → P d)
      → ((r : ℕ)
          → find d.heap (get w d).orders id ≡ some r
          → P
              (record (put w
                (record (get w d) {
                  orders = erase d.heap (get w d).orders id;
                  filtered_orders =
                      filter_orders sort d.heap
                        (erase d.heap (get w d).orders id)
                        (get w d).currency;
                })
                d) { table = delete_order d.table id }))
      → P (remove sort w id d).1
  unfolding remove
  remove-cases P w id d absent there = elim (Option-cases (find d.heap (get w d).orders id)) [
    | inl e ↦ rw (e, remove) (absent e)
    | inr (r, e) ↦ rw (e, remove) (there r e)
  ]

  pub orders-remove :
      (w : Which) (id : Text) (d : Desk N)
      → (get w (remove sort w id d).1).orders ≡ erase d.heap (get w d).orders id
  orders-remove w id d =
      remove-cases (λ d'. (get w d').orders ≡ erase d.heap (get w d).orders id) w id d
        (λ e. sym (erase-absent d.heap (get w d).orders id e))
        (λ r e. ap (λ (b : Book). b.orders) (get-table w _ _ ∙ get-put w _ d))

  pub currency-remove :
      (w : Which) (id : Text) (d : Desk N)
      → (get w (remove sort w id d).1).currency ≡ (get w d).currency
  currency-remove w id d =
      remove-cases (λ d'. (get w d').currency ≡ (get w d).currency) w id d (λ e. refl)
        (λ r e. ap (λ (b : Book). b.currency) (get-table w _ _ ∙ get-put w _ d))

  pub heap-remove : (w : Which) (id : Text) (d : Desk N) → (remove sort w id d).1.heap ≡ d.heap
  heap-remove w id d =
      remove-cases (λ d'. d'.heap ≡ d.heap) w id d (λ e. refl) (λ r e. heap-put w _ d)

  pub my_book-remove :
      (w : Which) (id : Text) (d : Desk N) → w ≢ mine → (remove sort w id d).1.my_book ≡ d.my_book
  my_book-remove w id d n =
      remove-cases (λ d'. d'.my_book ≡ d.my_book) w id d (λ e. refl) (λ r e. my_book-put w _ d n)

  pub remove-InSync :
      (w : Which) (id : Text) (d : Desk N)
      → InSync d.heap (get w d)
      → InSync d.heap (get w (remove sort w id d).1)
  remove-InSync w id d s =
      remove-cases (λ d'. InSync d.heap (get w d')) w id d (λ e. s)
        (λ r e. rw (get-table w, get-put w) refl)

  pub orders-add_order :
      (h : Heap N) (b : Book) (r : ℕ) → (add_order sort h b r).orders ≡ b.orders ++ r ∷ []
  unfolding add_order
  orders-add_order h b r = ground arith

  -- Also where the new order has another currency and the view is not computed again.
  pub add_order-InSync :
      (h : Heap N) (b : Book) (r : ℕ) → InSync h b → InSync h (add_order sort h b r)
  unfolding add_order filter_orders
  add_order-InSync h b r s = elim (Bool-cases ((h r).currency == b.currency)) [
    | inl e ↦ rw e refl
    | inr e ↦ rw e (
        s
        ∙ ap (sort (compare_order h))
            (sym (keep-append_drop (λ q. (h q).currency == b.currency) b.orders r e)))
  ]

  -- Two heaps that differ in nothing that a book reads.
  pub record Alike (h g : Heap N) : Type 0 where
    pub same_id : (q : ℕ) → (h q).order_id ≡ (g q).order_id
    pub same_type : (q : ℕ) → (h q).order_type ≡ (g q).order_type
    pub same_price : (q : ℕ) → (h q).price ≡ (g q).price
    pub same_currency : (q : ℕ) → (h q).currency ≡ (g q).currency

  compare_order-congr : (h g : Heap N) → Alike h g → compare_order h ≡ compare_order g
  unfolding compare_order
  compare_order-congr h g a =
      fun_ext λ l. fun_ext λ r. ground (arith, a.same_type l, a.same_price l, a.same_price r)

  pub filter_orders-congr :
      (h g : Heap N) (rs : List ℕ) (sym : ℕ)
      → Alike h g
      → filter_orders sort h rs sym ≡ filter_orders sort g rs sym
  unfolding filter_orders
  filter_orders-congr h g rs sym a =
      ap₂ (λ lt (p : ℕ → Bool). sort lt (keep p rs)) (compare_order-congr h g a)
        (fun_ext λ q. ap (λ (c : ℕ). c == sym) (a.same_currency q))

  -- A book is in order when no id stands in it twice and its view is what filterOrders returns.
  pub record IsValid (w : Which) (d : Desk N) : Type 0 where
    pub unique : Unique d.heap (get w d).orders
    pub in_sync : InSync d.heap (get w d)

  pub remove-IsValid :
      (w : Which) (id : Text) (d : Desk N) → IsValid w d → IsValid w (remove sort w id d).1
  remove-IsValid w id d v = record {
    unique = rw (heap-remove w id d, orders-remove w id d) (Unique-erase d.heap _ id v.unique);
    in_sync = rw (heap-remove w id d) (remove-InSync w id d v.in_sync);
  }

  pub add_order-IsValid :
      (w : Which) (r : ℕ) (d : Desk N)
      → find d.heap (get w d).orders (d.heap r).order_id ≡ none
      → IsValid w d
      → IsValid w (put w (add_order sort d.heap (get w d) r) d)
  add_order-IsValid w r d e v = record {
    unique =
        rw (heap-put w, get-put w, orders-add_order d.heap (get w d) r)
          (Unique-append d.heap (get w d).orders r v.unique e);
    in_sync = rw (heap-put w, get-put w) (add_order-InSync d.heap (get w d) r v.in_sync);
  }

  pub find-remove :
      (w : Which) (id : Text) (d : Desk N)
      → IsValid w d
      → let d' = (remove sort w id d).1 in find d'.heap (get w d').orders id ≡ none
  find-remove w id d v =
      rw (heap-remove w id d, orders-remove w id d) (find-erase d.heap (get w d).orders id v.unique)

  pub heap-IsValid :
      (w : Which) (d : Desk N) (g : Heap N)
      → Alike d.heap g
      → IsValid w d
      → IsValid w (record d { heap = g })
  heap-IsValid w d g a v = record {
    unique = rw (get-heap w d g) (Unique-congr d.heap g a.same_id (get w d).orders v.unique);
    in_sync = rw (get-heap w d g) (v.in_sync ∙ filter_orders-congr d.heap g _ _ a);
  }
