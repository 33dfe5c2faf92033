-- ===== src/Service/Rounds/Kept.antt =====
-- Matching and buying write to the user's orders, but to nothing that a side of the order book reads.
use zero_reserve.Base.{
  ℕ, Bool, true, false, ◌≡◌, refl, List, [], ◌∷◌, Option, none, some, Text, Bool-cases,
  Option-cases, inl, inr, arith, sym, subst, ◌∙◌, is_empty, ◌⊎◌, ◌==◌, if◌then◌else◌,
}
use zero_reserve.Base.Int.{ℤ, pos}
use zero_reserve.Currency.{Build, symbol_of}
use zero_reserve.Number.{Number}
use zero_reserve.Contracts.{BtcContract, new_contract, sending}
use zero_reserve.Routing.{next_hop}
use zero_reserve.Orders.{Order, Heap, Desk, bid, ask, write, OrderType}
use zero_reserve.Orders.Sorting.{Sort}
use zero_reserve.Orders.Change.{Alike}
use zero_reserve.Matching.{match_order, match_all}
use zero_reserve.Wire.Items.{Spelling}
use zero_reserve.Remote.{
  Trade, make_contract, placed, write_deal, vault_of, set_btc_address, write_order,
}
use zero_reserve.Remote.Coordinator.{Buyer, buyer_contract, new_buyer, init_buyer, buy}

type_cases : (o : OrderType) → (o ≡ bid) ⊎ (o ≡ ask)
type_cases bid = inl refl
type_cases ask = inr refl

module _ {N : Type 0} ⦃num : Number N⦄ (sort : Sort) where
  -- The two sides are the same books, and no order is any different in what a book reads.
  pub record Kept (d d' : Desk N) : Type 0 where
    pub same_asks : d'.ask_book ≡ d.ask_book
    pub same_bids : d'.bid_book ≡ d.bid_book
    pub alike : Alike sort d.heap d'.heap

  pub Kept-trans : (d d' d'' : Desk N) → Kept d d' → Kept d' d'' → Kept d d''
  Kept-trans d d' d'' a b = record {
    same_asks = b.same_asks ∙ a.same_asks;
    same_bids = b.same_bids ∙ a.same_bids;
    alike = record {
      same_id = λ q. a.alike.same_id q ∙ b.alike.same_id q;
      same_type = λ q. a.alike.same_type q ∙ b.alike.same_type q;
      same_price = λ q. a.alike.same_price q ∙ b.alike.same_price q;
      same_currency = λ q. a.alike.same_currency q ∙ b.alike.same_currency q;
    };
  }

  pub Kept-refl : (d : Desk N) → Kept d d
  Kept-refl d = record {
    same_asks = refl;
    same_bids = refl;
    alike = record {
      same_id = λ q. refl;
      same_type = λ q. refl;
      same_price = λ q. refl;
      same_currency = λ q. refl;
    };
  }

  -- Where an order is marked as matched with others and locked.
  marked-Alike :
      (h : Heap N) (r : ℕ) (ids : List Text) (b : Bool)
      → Alike sort h (write h r (record (h r) { matched = ids; locked = b }))
  unfolding write
  marked-Alike h r ids b = record {
    same_id = λ q. ground arith;
    same_type = λ q. ground arith;
    same_price = λ q. ground arith;
    same_currency = λ q. ground arith;
  }

  match_order-Kept : (r : ℕ) (d : Desk N) → Kept d (match_order sort r d).2
  unfolding match_order
  match_order-Kept r d = elim (Bool-cases (d.heap r).locked) [
    | inl e ↦ rw (match_order, e) (Kept-refl d)
    | inr e ↦
        rw (match_order, e)
          (record { same_asks = refl; same_bids = refl; alike = marked-Alike d.heap r _ _ })
  ]

  pub match_all-Kept : (rs : List ℕ) (d : Desk N) → Kept d (match_all sort rs d).1
  unfolding match_all
  match_all-Kept [] d = Kept-refl d
  match_all-Kept (r ∷ rs) d =
      let first = match_order-Kept r d in
      let rest = match_all-Kept rs d in
      let more = match_all-Kept rs (match_order sort r d).2 in
      elim (type_cases (d.heap r).order_type) [
        | inl e ↦ rw (match_all, e) (Kept-trans d _ _ first more)
        | inr e ↦ rw (match_all, e) rest
      ]

  locked-Alike :
      (h : Heap N) (r : ℕ)
      → Alike sort h (λ (q : ℕ). if q == r then record (h r) { locked = true } else h q)
  locked-Alike h r = record {
    same_id = λ q. ground arith;
    same_type = λ q. ground arith;
    same_price = λ q. ground arith;
    same_currency = λ q. ground arith;
  }

  locked-Kept :
      (my : ℕ) (d : Desk N) (t : Trade N)
      → t.desk ≡ d
      → Kept d (write_order my (record (t.desk.heap my) { locked = true }) t).desk
  locked-Kept my d t e =
      let kept : Kept t.desk (write_order my (record (t.desk.heap my) { locked = true }) t).desk =
        record { same_asks = refl; same_bids = refl; alike = locked-Alike t.desk.heap my } in
      subst (λ d. Kept d (write_order my (record (t.desk.heap my) { locked = true }) t).desk) e kept

  module _ (build : Build) (stored : N → N) (now : ℤ) where
    desk-make_contract :
        (k : BtcContract N) (t : Trade N)
        → (elim (make_contract build stored now k t) as (λ x. Option ℕ × Trade N) [
          | none ↦ (none, t)
          | some (r, t') ↦ (some r, t')
        ]).1.desk
          ≡ t.desk
    unfolding make_contract placed write_deal
    desk-make_contract k t = elim (Option-cases (new_contract build stored now k (vault_of t))) [
      | inl e ↦ rw (make_contract, e) refl
      | inr (c, e) ↦ rw (make_contract, e) refl
    ]

    -- What the constructor of the coordinator makes a contract of.
    abbrev draft : Text → Order N → N → Text → BtcContract N
    draft symbol o a addr = record {
      btc_tx_id = [];
      btc_amount = a;
      price = o.price;
      currency_sym = symbol;
      party = sending;
      counter_party = addr;
      activated = false;
      dest_address = [];
      creation_time = pos 0;
      fee = num.nought;
    }

    desk-buyer_contract :
        (symbol : Text) (o : Order N) (a : N) (addr : Text) (t : Trade N)
        → (buyer_contract build stored now symbol o a addr t).1.desk ≡ t.desk
    unfolding buyer_contract
    desk-buyer_contract symbol o a addr t = elim (Bool-cases (is_empty addr)) [
      | inl e ↦ rw (buyer_contract, e) refl
      | inr e ↦ rw (buyer_contract, e) (desk-make_contract (draft symbol o a addr) t)
    ]

    -- What buy leaves, unless the behaviour is undefined.
    abbrev pub Buys : Desk N → Option (Option Buyer × Trade N) → Type 0
    Buys d none = Unit
    Buys d (some (m, t)) = Kept d t.desk

    desk-init_buyer :
        (sp : Spelling N) (addr : Text) (s : Buyer) (t : Trade N)
        → (init_buyer sp addr s t).1.desk ≡ t.desk
    unfolding init_buyer set_btc_address write_deal
    desk-init_buyer sp addr s t = ground arith

    pub buy-Buys :
        (sp : Spelling N) (addr : Text) (other my : ℕ) (a : N) (t : Trade N)
        → Buys t.desk (buy build stored sp now addr other my a t)
    unfolding buy new_buyer
    buy-Buys sp addr other my a t =
        elim (Option-cases (symbol_of build (t.desk.heap other).currency)) [
          | inl e ↦ rw (buy, new_buyer, e) tt
          | inr (symbol, e) ↦
              let o = t.desk.heap other in
              let (r, t') =
                buyer_contract build stored now symbol o a (next_hop o.order_id t.router) t in
              let s : Buyer = record { other = other; my_order = some my; payer = r } in
              let t'' = write_order my (record (t'.desk.heap my) { locked = true }) t' in
              rw (buy, new_buyer, e)
                (subst (λ d. Kept t.desk d) (sym (desk-init_buyer sp addr s t''))
                  (locked-Kept my t.desk t' (desk-buyer_contract symbol o a _ t)))
        ]
