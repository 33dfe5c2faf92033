-- ===== src/Matching/Cancelled.antt =====
-- MyOrders::cancelOrder takes an order out of both books that share it and tells the friends.
use zero_reserve.Base.{ℕ, arith, ◌≡◌, ◌≢◌, refl, List, ◌∷◌, none, Text, ap, sym, ◌∙◌}
use zero_reserve.Number.{Number}
use zero_reserve.Orders.{
  Order, OrderType, Book, bid, ask, Heap, Desk, Which, bids, asks, mine, cancel, get, put, find,
  remove, write,
}
use zero_reserve.Orders.Sorting.{Sort}
use zero_reserve.Orders.Find.{find-congr}
use zero_reserve.Orders.Change.{IsValid, find-remove, heap-remove, my_book-remove, remove-cases}
use zero_reserve.Orders.Expiry.{IsValid-remove_mine}
use zero_reserve.Matching.{side_of, cancel_at}

side-not_mine : (t : OrderType) → side_of t ≢ mine
side-not_mine ask e = cc
side-not_mine bid e = cc

module _ {N : Type 0} where
  published-put : (w : Which) (b : Book) (d : Desk N) → (put w b d).published ≡ d.published
  published-put bids b d = refl
  published-put asks b d = refl
  published-put mine b d = refl

  -- An order written in place of one of the same id changes no search.
  find-write :
      (h : Heap N) (r : ℕ) (o : Order N) (rs : List ℕ) (id : Text)
      → (h r).order_id ≡ o.order_id
      → find (write h r o) rs id ≡ find h rs id
  unfolding write
  find-write h r o rs id e = sym (find-congr h (write h r o) (λ q. ground arith) rs id)

module _ {N : Type 0} where
  get-published :
      (w : Which) (d : Desk N) (h : Heap N) (ps : List (Order N))
      → get w (record d { heap = h; published = ps }) ≡ get w d
  get-published bids d h ps = refl
  get-published asks d h ps = refl
  get-published mine d h ps = refl

module _ {N : Type 0} ⦃num : Number N⦄ (sort : Sort) where
  published-remove :
      (w : Which) (id : Text) (d : Desk N) → (remove sort w id d).1.published ≡ d.published
  published-remove w id d =
      remove-cases sort (λ d'. d'.published ≡ d.published) w id d (λ e. refl)
        (λ r e. published-put w _ d)

  -- Cancelling the order behind `r` takes its id out of the user's own book and out of the side that it
  -- stands in, where both were in order, and gives the friends the order once more, marked as cancelled.
  pub cancel_at-gone :
      (r : ℕ) (d : Desk N)
      → IsValid sort mine d
      → IsValid sort (side_of (d.heap r).order_type) d
      → let o = d.heap r in
        let d' = cancel_at sort r d in
        (find d'.heap d'.my_book.orders o.order_id ≡ none)
        × (find d'.heap (get (side_of o.order_type) d').orders o.order_id ≡ none)
        × (d'.published ≡ record o { purpose = cancel } ∷ d.published)
  unfolding cancel_at
  cancel_at-gone r d v w = (
    find-write d2.heap r cancelled d2.my_book.orders id same
        ∙ ap (λ (b : Book). find d2.heap b.orders id) (my_book-remove sort side id d1 apart)
        ∙ ap (λ (h : Heap N). find h d1.my_book.orders id) (heap-remove sort side id d1)
        ∙ find-remove sort mine id d v,
    ap (λ (b : Book). find (write d2.heap r cancelled) b.orders id) (get-published side d2 _ _)
        ∙ find-write d2.heap r cancelled (get side d2).orders id same
        ∙ find-remove sort side id d1 (IsValid-remove_mine sort side id d apart w),
    ap (λ (ps : List (Order N)). record (d.heap r) { purpose = cancel } ∷ ps)
        (published-remove side id d1 ∙ published-remove mine id d),
  )
    where
      id : Text
      id = (d.heap r).order_id

      cancelled : Order N
      cancelled = record (d.heap r) { purpose = cancel }

      side : Which
      side = side_of (d.heap r).order_type

      apart : side ≢ mine
      apart = side-not_mine (d.heap r).order_type

      d1 : Desk N
      d1 = (remove sort mine id d).1

      d2 : Desk N
      d2 = (remove sort side id d1).1

      same : (d2.heap r).order_id ≡ id
      same =
          ap (λ (h : Heap N). (h r).order_id)
            (heap-remove sort side id d1 ∙ heap-remove sort mine id d)
