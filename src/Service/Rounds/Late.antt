-- ===== src/Service/Rounds/Late.antt =====
-- What the janitor leaves of the two sides of the order book.
use zero_reserve.Base.{
  if◌then◌else◌, ℕ, Bool, true, false, ◌≡◌, ◌≢◌, refl, List, [], ◌∷◌, Text, keep, not, Option-cases,
  inl, inr, ap, ap₂, sym, subst, ◌∙◌,
}
use zero_reserve.Base.Int.{ℤ, pos, ltb_ℤ, ◌-ℤ◌}
use zero_reserve.Currency.{Build}
use zero_reserve.Number.{Number}
use zero_reserve.Orders.{
  Heap, Book, Desk, put, Which, bids, asks, mine, get, remove, timeout_orders, expire_all,
}
use zero_reserve.Orders.Sorting.{Sort}
use zero_reserve.Orders.Change.{IsValid, heap-IsValid, remove-cases, get-table, get-heap}
use zero_reserve.Orders.Expiry.{expired, expire-cases, expire_all-heap, timeout_orders-keep}
use zero_reserve.Matching.{Purchase}
use zero_reserve.Remote.Coordinator.{buy}
use zero_reserve.Remote.Polling.{poll_deals-desk, poll_trade}
use zero_reserve.Transactions.Several.{timeout_managers}
use zero_reserve.Service.Rounds.{
  Plant, Turn, stopped, Surroundings, went_on, broken, buy_each, match_round, behind_timeout,
  janitor,
}
use zero_reserve.Service.Rounds.Debts.{After}
use zero_reserve.Service.Rounds.Kept.{Kept, Kept-refl, Kept-trans, match_all-Kept, Buys, buy-Buys}

module _ {N : Type 0} where
  get-put_other : (v w : Which) (b : Book) (d : Desk N) → v ≢ w → get v (put w b d) ≡ get v d
  get-put_other bids bids b d n = absurd (n refl)
  get-put_other bids asks b d n = refl
  get-put_other bids mine b d n = refl
  get-put_other asks bids b d n = refl
  get-put_other asks asks b d n = absurd (n refl)
  get-put_other asks mine b d n = refl
  get-put_other mine bids b d n = refl
  get-put_other mine asks b d n = refl
  get-put_other mine mine b d n = absurd (n refl)

module _ {N : Type 0} ⦃num : Number N⦄ (sort : Sort) where
  get-remove_other :
      (v w : Which) (id : Text) (d : Desk N) → v ≢ w → get v (remove sort w id d).1 ≡ get v d
  get-remove_other v w id d n =
      remove-cases sort (λ d'. get v d' ≡ get v d) w id d (λ e. refl)
        (λ r e. get-table v _ _ ∙ get-put_other v w _ d n)

  -- The timeouts of one side leave the book of the other side alone.
  get-expire_all :
      (build : Build) (now : ℤ) (v w : Which) (rs : List ℕ) (d : Desk N)
      → v ≢ w
      → v ≢ mine
      → get v (expire_all build now sort w rs d) ≡ get v d
  unfolding expire_all
  get-expire_all build now v w [] d n own = refl
  get-expire_all build now v w (r ∷ rs) d n own =
      let one = get-remove_other v w (d.heap r).order_id d n in
      let both =
        get-remove_other v mine (d.heap r).order_id (remove sort w (d.heap r).order_id d).1 own
        ∙ one in
      get-expire_all build now v w rs _ n own
      ∙ expire-cases sort build now (λ d'. get v d' ≡ get v d) w r d (λ e. refl) (λ e. one)
          (λ e. both)

  -- Both sides, as the janitor times them out.
  abbrev timed : Build → ℤ → Desk N → Desk N
  timed build now d = timeout_orders build now sort bids (timeout_orders build now sort asks d)

  -- A side of the book has exactly the orders that it had and that are still in time.
  pub record InTime (build : Build) (now : ℤ) (w : Which) (d d' : Desk N) : Type 0 where
    pub left :
        (get w d').orders ≡ keep (λ r. not (expired sort build now (d.heap r))) (get w d).orders
    pub valid : IsValid sort w d'

  IsValid-same :
      (w : Which) (d d' : Desk N)
      → d'.heap ≡ d.heap
      → get w d' ≡ get w d
      → IsValid sort w d
      → IsValid sort w d'
  IsValid-same w d d' h b v = record { unique = rw (b, h) v.unique; in_sync = rw (b, h) v.in_sync }

  asks-InTime :
      (build : Build) (now : ℤ) (d : Desk N)
      → IsValid sort asks d
      → InTime build now asks d (timed build now d)
  unfolding timeout_orders
  asks-InTime build now d v =
      let d' = timeout_orders build now sort asks d in
      let (left, valid, heap) = timeout_orders-keep sort build now asks d (λ e. cc) v in
      let same = get-expire_all build now asks bids d'.bid_book.orders d' (λ e. cc) (λ e. cc) in
      record {
        left = ap (λ (b : Book). b.orders) same ∙ left;
        valid =
            IsValid-same asks d' (timed build now d)
              (expire_all-heap sort build now bids d'.bid_book.orders d') same valid;
      }

  bids-InTime :
      (build : Build) (now : ℤ) (d : Desk N)
      → IsValid sort bids d
      → InTime build now bids d (timed build now d)
  unfolding timeout_orders
  bids-InTime build now d v =
      let d' = timeout_orders build now sort asks d in
      let same = get-expire_all build now bids asks d.ask_book.orders d (λ e. cc) (λ e. cc) in
      let heap = expire_all-heap sort build now asks d.ask_book.orders d in
      let (left, valid, _) =
        timeout_orders-keep sort build now bids d' (λ e. cc) (IsValid-same bids d d' heap same v) in
      record {
        left =
            left
            ∙ ap₂ (λ (h : Heap N) (os : List ℕ). keep (λ r. not (expired sort build now (h r))) os)
                heap (ap (λ (b : Book). b.orders) same);
        valid = valid;
      }

  InTime-Kept :
      (build : Build) (now : ℤ) (w : Which) (d d' d'' : Desk N)
      → Kept sort d' d''
      → get w d'' ≡ get w d'
      → InTime build now w d d'
      → InTime build now w d d''
  InTime-Kept build now w d d' d'' k same i = record {
    left = ap (λ (b : Book). b.orders) same ∙ i.left;
    valid =
        IsValid-same w (record d' { heap = d''.heap }) d'' refl
          (same ∙ sym (get-heap w d' d''.heap)) (heap-IsValid sort w d' d''.heap k.alike i.valid);
  }

module _ {N : Type 0} ⦃num : Number N⦄ (t : Surroundings N) (d : Desk N) where
  -- No book of a side is any different from those of `d`.
  abbrev KeptBy : Plant N → Type 0
  KeptBy p = Kept t.sort d p.trade.desk

  buy_each-KeptBy :
      (xs : List (Purchase N)) (p : Plant N) → KeptBy p → After KeptBy (buy_each t xs p)
  unfolding buy_each
  buy_each-KeptBy [] p k = k
  buy_each-KeptBy (x ∷ xs) p k =
      let r =
        buy t.build t.stored t.spelling t.now (t.new_address x) x.other x.my_order x.bought
          p.trade in
      let bought : Buys t.sort t.build t.stored t.now p.trade.desk r =
        buy-Buys t.sort t.build t.stored t.now t.spelling (t.new_address x) x.other x.my_order
          x.bought p.trade in
      elim (Option-cases r) [
        | inl e ↦ rw (buy_each, e) tt
        | inr (y, e) ↦
            let one : Kept t.sort p.trade.desk y.1.desk =
              subst (Buys t.sort t.build t.stored t.now p.trade.desk) e bought in
            rw (buy_each, e)
              (buy_each-KeptBy xs _ (Kept-trans t.sort d p.trade.desk y.1.desk k one))
      ]

  match_round-KeptBy : (p : Plant N) → KeptBy p → After KeptBy (match_round t p)
  unfolding match_round
  match_round-KeptBy p k = buy_each-KeptBy _ _ (
      Kept-trans t.sort d p.trade.desk _ k
        (match_all-Kept t.sort p.trade.desk.my_book.orders p.trade.desk))

module _ {N : Type 0} ⦃num : Number N⦄ where
  -- Both sides are in time.
  pub record BothInTime (t : Surroundings N) (p p' : Plant N) : Type 0 where
    pub asks_left : InTime t.sort t.build t.now asks p.trade.desk p'.trade.desk
    pub bids_left : InTime t.sort t.build t.now bids p.trade.desk p'.trade.desk

  After-if :
      (P : Plant N → Type 0) (b : Bool) (x y : Turn N)
      → After P x
      → After P y
      → After P (if b then x else y)
  After-if P true x y h k = h
  After-if P false x y h k = k

  behind_timeout-KeptBy :
      (t : Surroundings N) (p : Plant N) → After (KeptBy t p.trade.desk) (behind_timeout t p)
  unfolding behind_timeout poll_trade
  behind_timeout-KeptBy t p = elim (Option-cases (timeout_managers t.now t.started p.locals)) [
    | inl e ↦ rw (behind_timeout, e) tt
    | inr (ls, e) ↦ elim (Option-cases (timeout_managers t.now t.started p.remotes)) [
      | inl e' ↦ rw (behind_timeout, e, e') tt
      | inr (rs, e') ↦
          let (thrown, trade) = poll_trade t.build t.stored t.confirmations t.now p.trade in
          let kept : Kept t.sort p.trade.desk trade.desk =
            subst (Kept t.sort p.trade.desk)
              (sym
                (poll_deals-desk t.build t.stored t.confirmations t.now p.trade.contracts p.trade))
              (Kept-refl t.sort p.trade.desk) in
          rw (behind_timeout, e, e')
            (After-if (KeptBy t p.trade.desk) thrown _ _ kept
              (match_round-KeptBy t p.trade.desk (record p { trade = trade }) kept))
    ]
  ]

  After-implied :
      (P Q : Plant N → Type 0) (r : Turn N) → ((p : Plant N) → P p → Q p) → After P r → After Q r
  After-implied P Q (went_on p) f h = f p h
  After-implied P Q (stopped p) f h = f p h
  After-implied P Q broken f h = tt

  -- Where ten seconds have passed since the last cleanup and both sides of the order book are in order: as long as the behaviour
  -- is defined, the janitor leaves on each side exactly the orders that are within their time or that a contract is
  -- committed to, and both sides in order, whatever contracts it settles and whatever it then matches and buys.
  pub janitor-BothInTime :
      (t : Surroundings N) (p : Plant N)
      → ltb_ℤ (t.clock -ℤ p.last_cleanup) (pos 10) ≡ false
      → IsValid t.sort asks p.trade.desk
      → IsValid t.sort bids p.trade.desk
      → After (BothInTime t p) (janitor t p)
  unfolding janitor
  janitor-BothInTime t p due a b =
      let d = p.trade.desk in
      let d' = timed t.sort t.build t.now d in
      let p' : Plant N = record p {
        last_cleanup = t.clock;
        trade = record p.trade { desk = d' };
      } in
      let in_time : (q : Plant N) → KeptBy t d' q → BothInTime t p q = λ q k. record {
        asks_left =
            InTime-Kept t.sort t.build t.now asks d d' q.trade.desk k k.same_asks
              (asks-InTime t.sort t.build t.now d a);
        bids_left =
            InTime-Kept t.sort t.build t.now bids d d' q.trade.desk k k.same_bids
              (bids-InTime t.sort t.build t.now d b);
      } in
      rw (janitor, due)
        (After-implied (KeptBy t d') (BothInTime t p) (behind_timeout t p') in_time
          (behind_timeout-KeptBy t p'))
