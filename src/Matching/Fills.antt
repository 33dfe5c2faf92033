-- ===== src/Matching/Fills.antt =====
-- MyOrders::match buys no more than the order asks for, and only at prices that it allows.
use zero_reserve.Base.{
  ℕ, Bool, true, false, ◌≡◌, ◌≢◌, refl, List, [], ◌∷◌, Text, ◌||◌, All, Bool-cases, inl, inr, ◌⊎◌,
  ap, ap₂, sym, ◌∙◌,
}
use zero_reserve.Number.{Number, IsOrderedRing, ◌⊕◌, ◌⊖◌, ◌≺◌}
use zero_reserve.Number.Laws.{less_asymm, minus_not_negative}
use zero_reserve.Orders.{Heap, Desk, RetVal, success, failure, finish, filter_orders}
use zero_reserve.Orders.Sorting.{Sort}
use zero_reserve.Matching.{Purchase, Matched, has_id, passed_over, match_each, match_order}

or_left : (a b : Bool) → a || b ≡ false → a ≡ false
or_left true b e = cc
or_left false b e = refl

or_right : (a b : Bool) → a || b ≡ false → b ≡ false
or_right true b e = cc
or_right false b e = e

module _ {N : Type 0} ⦃num : Number N⦄ where
  abbrev pub spent : List (Purchase N) → N
  spent [] = num.nought
  spent (p ∷ ps) = p.bought ⊕ spent ps

module _ {N : Type 0} ⦃num : Number N⦄ (h : Heap N) (my : ℕ) where
  -- A purchase that the order allows, given the ids that were matched before.
  pub record IsAllowed (matched : List Text) (p : Purchase N) : Type 0 where
    pub for_mine : p.my_order ≡ my
    pub not_mine : (h p.other).is_my_order ≡ false
    pub not_ignored : (h p.other).ignored ≡ false
    pub not_matched : has_id (h p.other).order_id matched ≡ false
    pub price_allowed : ((h my).price ≺ (h p.other).price) ≡ false
    pub amount_offered : ((h p.other).amount ≺ p.bought) ≡ false

decided : {P : Type 0} (r : RetVal) → (r ≡ finish → P) → (r ≢ finish) ⊎ P
decided failure f = inl (λ e. cc)
decided success f = inl (λ e. cc)
decided finish f = inr (f refl)

module _ {N : Type 0} ⦃num : Number N⦄ (laws : IsOrderedRing N) (h : Heap N) (my : ℕ) where
  -- What holds of the loop's end, where `amount` was wanted at first.
  pub record IsFill (matched : List Text) (amount : N) (m : Matched N) : Type 0 where
    pub allowed : All (IsAllowed h my matched) m.purchases
    pub not_more : (amount ≺ spent m.purchases) ≡ false
    pub all_of_it : m.result ≡ finish → spent m.purchases ≡ amount

  weaken :
      (id : Text) (matched : List Text) (ps : List (Purchase N))
      → All (IsAllowed h my (id ∷ matched)) ps
      → All (IsAllowed h my matched) ps
  unfolding has_id
  weaken id matched [] a = tt
  weaken id matched (p ∷ ps) a = (
    record {
      for_mine = a.0.for_mine;
      not_mine = a.0.not_mine;
      not_ignored = a.0.not_ignored;
      not_matched = or_right _ _ a.0.not_matched;
      price_allowed = a.0.price_allowed;
      amount_offered = a.0.amount_offered;
    },
    weaken id matched ps a.1,
  )

  purchase-IsAllowed :
      (matched : List Text) (r : ℕ) (b : N)
      → passed_over matched (h r) ≡ false
      → (h my).price ≺ (h r).price ≡ false
      → (h r).amount ≺ b ≡ false
      → IsAllowed h my matched (record { other = r; my_order = my; bought = b })
  unfolding passed_over
  purchase-IsAllowed matched r b e f g = record {
    for_mine = refl;
    not_mine = or_left _ _ (or_right _ _ e);
    not_ignored = or_left _ _ e;
    not_matched = or_right _ _ (or_right _ _ e);
    price_allowed = f;
    amount_offered = g;
  }

  -- An ask is used up, and `m` is how the loop goes on for the rest.
  used_up :
      (matched : List Text) (amount : N) (r : ℕ) (m : Matched N)
      → passed_over matched (h r) ≡ false
      → (h my).price ≺ (h r).price ≡ false
      → IsFill ((h r).order_id ∷ matched) (amount ⊖ (h r).amount) m
      → IsFill matched amount (record m {
        purchases = record { other = r; my_order = my; bought = (h r).amount } ∷ m.purchases;
      })
  used_up matched amount r m e f rest = record {
    allowed = (
      purchase-IsAllowed matched r (h r).amount e f (laws.less_irrefl (h r).amount),
      weaken (h r).order_id matched m.purchases rest.allowed,
    );
    not_more =
        ap₂ (λ (x y : N). x ≺ y) (sym (laws.minus-plus amount (h r).amount))
          (laws.plus_comm (h r).amount (spent m.purchases))
        ∙ laws.less-plus (amount ⊖ (h r).amount) (spent m.purchases) (h r).amount
        ∙ rest.not_more;
    all_of_it = λ k.
        ap (λ (x : N). (h r).amount ⊕ x) (rest.all_of_it k)
        ∙ laws.plus_comm (h r).amount (amount ⊖ (h r).amount)
        ∙ laws.minus-plus amount (h r).amount;
  }

  -- The last purchase, of all that is still wanted.
  completed :
      (matched matched' : List Text) (amount : N) (r : ℕ)
      → passed_over matched (h r) ≡ false
      → (h my).price ≺ (h r).price ≡ false
      → (h r).amount ≺ amount ≡ false
      → IsFill matched amount (record {
        result = finish;
        matched_ids = matched';
        purchases = record { other = r; my_order = my; bought = amount } ∷ [];
      })
  completed matched matched' amount r e f g = record {
    allowed = (purchase-IsAllowed matched r amount e f g, tt);
    not_more = ap (λ (x : N). amount ≺ x) (laws.plus_nought amount) ∙ laws.less_irrefl amount;
    all_of_it = λ k. laws.plus_nought amount;
  }

  stopped :
      (matched : List Text) (amount : N)
      → (amount ≺ num.nought) ≡ false
      → IsFill matched amount (record { result = success; matched_ids = matched; purchases = [] })
  stopped matched amount k = record { allowed = tt; not_more = k; all_of_it = λ e. cc }

  match_each-IsFill :
      (matched : List Text) (amount : N) (rs : List ℕ)
      → (amount ≺ num.nought) ≡ false
      → IsFill matched amount (match_each h my matched amount rs)
  unfolding match_each
  match_each-IsFill matched amount [] k = stopped matched amount k
  match_each-IsFill matched amount (r ∷ rs) k = elim (Bool-cases (passed_over matched (h r))) [
    | inl e ↦ rw e (match_each-IsFill matched amount rs k)
    | inr e ↦ elim (Bool-cases ((h my).price ≺ (h r).price)) [
      | inl f ↦ rw (e, f) (stopped matched amount k)
      | inr f ↦ elim (Bool-cases ((h r).amount ≺ amount)) [
        | inl g ↦
            rw (e, f, g)
              (used_up matched amount r _ e f (
                match_each-IsFill ((h r).order_id ∷ matched) (amount ⊖ (h r).amount) rs
                  (minus_not_negative laws amount (h r).amount (less_asymm laws _ _ g))))
        | inr g ↦ rw (e, f, g) (completed matched _ amount r e f g)
      ]
    ]
  ]

-- What match buys for one order that is not locked and whose amount is not negative: each purchase is
-- for that order, from an order that is not the user's own, is not ignored, was not matched before and
-- asks no more than the order's price, and no more of it than it offers. All the purchases together are
-- no more than the order's amount, and they are exactly that amount where match returns ZR_FINISH.
pub match_order-IsFill :
    {N : Type 0} ⦃num : Number N⦄ (laws : IsOrderedRing N) (sort : Sort) (my : ℕ) (d : Desk N)
    → (d.heap my).locked ≡ false
    → ((d.heap my).amount ≺ num.nought) ≡ false
    → let (result, purchases, d') = match_order sort my d in
      All (IsAllowed d.heap my (d.heap my).matched) purchases
      × (((d.heap my).amount ≺ spent purchases) ≡ false)
      × ((result ≢ finish) ⊎ (spent purchases ≡ (d.heap my).amount))
unfolding match_order
match_order-IsFill laws sort my d unlocked k =
    rw unlocked (fill.allowed, fill.not_more, decided _ fill.all_of_it)
  where
    fill : IsFill laws d.heap my (d.heap my).matched (d.heap my).amount (
        match_each d.heap my
          (d.heap my).matched
          (d.heap my).amount
          (filter_orders sort d.heap d.ask_book.orders (d.heap my).currency))
    fill = match_each-IsFill laws d.heap my (d.heap my).matched (d.heap my).amount _ k
