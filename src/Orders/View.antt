-- ===== src/Orders/View.antt =====
-- What filterOrders shows: the orders of one currency, the best price first.
use mathlib.Core.List.{Perm, Mem, Mem-prop, mem-cons, mem-cons_of_mem}
use mathlib.Core.List.Perm
use mathlib.Core.Logic.Or
use zero_reserve.Base.{
  ℕ, Bool, true, false, ◌≡◌, List, [], ◌∷◌, All, keep, ◌==◌, Bool-cases, inl, inr, subst,
}
use zero_reserve.Number.{Number, IsOrderedRing, ◌≺◌}
use zero_reserve.Number.Laws.{less_asymm, not_less_trans}
use zero_reserve.Orders.Sorting.{Sort, SortedBy, IsStrictWeak, IsSort, All-map}
use zero_reserve.Orders.{OrderType, bid, ask, Heap, compare_order, filter_orders}

module _ {N : Type 0} ⦃num : Number N⦄ (laws : IsOrderedRing N) (h : Heap N) where
  -- `x` may stand before `y`: a bid with no lower price, an ask with no higher one.
  abbrev pub NoWorse : OrderType → ℕ → ℕ → Type 0
  NoWorse bid x y = ((h x).price ≺ (h y).price) ≡ false
  NoWorse ask x y = ((h y).price ≺ (h x).price) ≡ false

  -- Each order stands before those that are no better.
  abbrev pub BestFirst : OrderType → List ℕ → Type 0
  BestFirst t [] = Unit
  BestFirst t (x ∷ xs) = All (NoWorse t x) xs × BestFirst t xs

  abbrev pub OfType : OrderType → List ℕ → Type 0
  OfType t rs = (r : ℕ) → Mem r rs → (h r).order_type ≡ t

  -- The comparison once the left order's type is known.
  abbrev better : OrderType → ℕ → ℕ → Bool
  better bid x y = (h y).price ≺ (h x).price
  better ask x y = (h x).price ≺ (h y).price

  pub compare-better :
      (t : OrderType) (x y : ℕ) → (h x).order_type ≡ t → compare_order h x y ≡ better t x y
  unfolding compare_order
  compare-better bid x y e = rw (e, compare_order)
  compare-better ask x y e = rw (e, compare_order)

  better_asymm : (t : OrderType) (x y : ℕ) → better t x y ≡ true → better t y x ≡ false
  better_asymm bid x y = less_asymm laws _ _
  better_asymm ask x y = less_asymm laws _ _

  not_better_trans :
      (t : OrderType) (x y z : ℕ)
      → better t x y ≡ false
      → better t y z ≡ false
      → better t x z ≡ false
  not_better_trans bid x y z p q = not_less_trans laws _ _ _ q p
  not_better_trans ask x y z p q = not_less_trans laws _ _ _ p q

  compare-IsStrictWeak :
      (t : OrderType) (rs : List ℕ) → OfType t rs → IsStrictWeak (compare_order h) rs
  compare-IsStrictWeak t rs f = record {
    asymm = λ a b ma mb.
        rw (compare-better t a b (f a ma), compare-better t b a (f b mb)) (better_asymm t a b);
    trans = λ a b c ma mb mc.
        rw
          (
            compare-better t a b (f a ma),
            compare-better t b c (f b mb),
            compare-better t a c (f a ma),
          )
          (not_better_trans t a b c);
  }

  better-NoWorse : (t : OrderType) (x y : ℕ) → better t y x ≡ false → NoWorse t x y
  better-NoWorse bid x y p = p
  better-NoWorse ask x y p = p

  compare-NoWorse :
      (t : OrderType) (x y : ℕ) → (h y).order_type ≡ t → compare_order h y x ≡ false → NoWorse t x y
  compare-NoWorse t x y e p = better-NoWorse t x y (cc (compare-better t y x e))

  SortedBy-BestFirst :
      (t : OrderType) (rs : List ℕ) → OfType t rs → SortedBy (compare_order h) rs → BestFirst t rs
  SortedBy-BestFirst t [] f s = tt
  SortedBy-BestFirst t (x ∷ rs) f s = (
    All-map rs (λ y m. compare-NoWorse t x y (f y (mem-cons_of_mem x m))) s.0,
    SortedBy-BestFirst t rs (λ y m. f y (mem-cons_of_mem x m)) s.1,
  )

  mem-keep : (p : ℕ → Bool) (rs : List ℕ) (r : ℕ) → Mem r (keep p rs) → Mem r rs
  mem-keep p [] r m = m
  mem-keep p (x ∷ rs) r m = elim (Bool-cases (p x)) [
    | inl e ↦
        Or.elim Mem-prop (mem-cons.0 (subst (Mem r) (rw e) m)) (λ q. mem-cons.1 (Or.inl q))
          (λ m'. mem-cons_of_mem x (mem-keep p rs r m'))
    | inr e ↦ mem-cons_of_mem x (mem-keep p rs r (subst (Mem r) (rw e) m))
  ]

  -- With a sort that keeps qSort's promise, filterOrders of orders that are all of one type returns
  -- exactly the orders of the wanted currency, each as often as before, the best price first: the bids
  -- by falling price, the asks by rising price.
  pub filter_orders-BestFirst :
      (sort : Sort) (t : OrderType) (orders : List ℕ) (sym : ℕ)
      → IsSort sort
      → OfType t orders
      → Perm (filter_orders sort h orders sym) (keep (λ r. (h r).currency == sym) orders)
        × BestFirst t (filter_orders sort h orders sym)
  unfolding filter_orders
  filter_orders-BestFirst sort t orders sym s f = (
    s.sort-perm _ _,
    SortedBy-BestFirst t _ (λ r m. shown r ((Perm.mem_iff (s.sort-perm _ _)).0 m))
        (s.sort-SortedBy _ _ (compare-IsStrictWeak t _ shown)),
  )
    where
      shown : OfType t (keep (λ r. (h r).currency == sym) orders)
      shown r m = f r (mem-keep _ orders r m)

  -- On a book that holds both sides, as the user's own orders do, the comparison is no order: for a
  -- bid above an ask, each of the two is said to come before the other.
  pub compare_order-mixed :
      (b a : ℕ)
      → (h b).order_type ≡ bid
      → (h a).order_type ≡ ask
      → ((h a).price ≺ (h b).price) ≡ true
      → (compare_order h b a ≡ true) × (compare_order h a b ≡ true)
  compare_order-mixed b a eb ea p =
      (rw (compare-better bid b a eb) p, rw (compare-better ask a b ea) p)
