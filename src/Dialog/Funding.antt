-- ===== src/Dialog/Funding.antt =====
-- An ask of the user over the back end of Satoshi: its coins are sent before it is placed.
use zero_reserve.Base.{
  ℕ, true, false, [], ◌≡◌, ◌≢◌, refl, Option, none, some, Text, is_empty, if◌then◌else◌, Bool-cases,
  ◌⊎◌, inl, inr, arith, ap, sym, subst, ◌∙◌,
}
use zero_reserve.Number.{Number, ◌≺◌}
use zero_reserve.Orders.{Order, ask, Heap, Desk, Which, mine, write}
use zero_reserve.Satoshi.{
  Doubles, Rpc, and_then, or_else, lock_output, mk_order_address, new_address, first_unspent,
}
use zero_reserve.Dialog.{Desktop, Notice, placed, entered, with_id, submit, place, do_order}
use zero_reserve.Dialog.Entries.{process_my_order-heap, write-new}

-- The call throws or gives that value.
abbrev Gives : {W B : Type 0} → B → Option B × W → Type 0
Gives b o = (o.0 ≡ none) ⊎ (o.0 ≡ some b)

module _ {W A B : Type 0} where
  and_then-Gives :
      (b : B) (r : Option A × W) (f : A → W → Option B × W)
      → ((a : A) (w : W) → Gives b (f a w))
      → Gives b (and_then r f)
  unfolding and_then
  and_then-Gives b (none, w) f h = inl refl
  and_then-Gives b (some a, w) f h = h a w

module _ {N D W : Type 0} ⦃num : Number N⦄ (dbl : Doubles N D) (rpc : Rpc D W) where
  -- The back end has sent the amount to a new address of its own.
  abbrev pub IsFunded : N → Text → W → Type 0
  IsFunded amount addr w =
      (w1 : W) × (id : Text) × (w2 : W) × (rpc.get_new_address w ≡ (some addr, w1))
      × (rpc.send_to_address addr (dbl.to_double amount) w1 ≡ (some id, w2))

  lock_output-Gives : (addr id : Text) (w : W) → Gives addr (lock_output dbl rpc addr id w)
  unfolding lock_output
  lock_output-Gives addr id w = and_then-Gives addr (rpc.list_unspent addr w) _ (λ us w1.
      and_then-Gives addr (rpc.lock_unspent true id (first_unspent dbl rpc us).vout w1) _
        (λ done w2. inr refl))

  -- What has a value that is not empty was no exception.
  from_value :
      (o : Option Text × W) (addr : Text)
      → Gives addr o
      → is_empty (or_else [] o).0 ≡ false
      → (or_else [] o).0 ≡ addr
  unfolding or_else
  from_value (none, w) addr g n = ground arith
  from_value (some x, w) addr (inl e) n = cc
  from_value (some x, w) addr (inr e) n = cc

  sent_to :
      (addr : Text) (r : Option Text × W)
      → let o = or_else [] (and_then r (lock_output dbl rpc addr)) in
        is_empty o.0 ≡ false → (id : Text) × (w2 : W) × (r ≡ (some id, w2)) × (o.0 ≡ addr)
  unfolding and_then or_else
  sent_to addr (none, w) n = ground arith
  sent_to addr (some id, w) n =
      (id, w, refl, from_value (lock_output dbl rpc addr id w) addr (lock_output-Gives addr id w) n)

  unlocked :
      (amount : N) (r : Option Text × W)
      → let (a, w1) = or_else [] r in
        let o =
          if is_empty a
          then (a, w1)
          else or_else [] (
              and_then (rpc.send_to_address a (dbl.to_double amount) w1) (lock_output dbl rpc a)) in
        is_empty o.0 ≡ false
        → (w1 : W) × (id : Text) × (w2 : W) × (r ≡ (some o.0, w1))
          × (rpc.send_to_address o.0 (dbl.to_double amount) w1 ≡ (some id, w2))
  unfolding or_else
  unlocked amount (none, w) = λ n. ground arith
  unlocked amount (some a, w) = elim (Bool-cases (is_empty a)) [
    | inl e ↦ rw e (λ n. ground arith)
    | inr e ↦ rw e (λ n.
        let (id, w2, sent, same) = sent_to a (rpc.send_to_address a (dbl.to_double amount) w) n in
        subst
          (λ (x : Text).
            (w1 : W) × (id : Text) × (w2 : W) × (Path (Option Text × W) (some a, w) (some x, w1))
            × (rpc.send_to_address x (dbl.to_double amount) w1 ≡ (some id, w2)))
          (sym same) (w, id, w2, refl, sent))
  ]

  mk_order_address-IsFunded :
      (amount : N) (w : W)
      → let addr = (mk_order_address dbl rpc amount w).0 in
        is_empty addr ≡ false → IsFunded amount addr w
  unfolding mk_order_address new_address
  mk_order_address-IsFunded amount w = unlocked amount (rpc.get_new_address w)

  -- The desktop over this back end.
  abbrev pub over_satoshi : Desktop N W → Desktop N W
  over_satoshi t = record t { mk_address = mk_order_address dbl rpc }

  -- The order behind the pointer is an ask whose amount has been sent to its address.
  abbrev pub IsFundedAsk : N → N → ℕ → W → Desk N → Type 0
  IsFundedAsk price amount r w d =
      IsFunded amount (d.heap r).btc_addr w
      × ((d.heap r).order_type ≡ ask)
      × ((d.heap r).amount ≡ amount)
      × ((d.heap r).price ≡ price)

  module _ (t : Desktop N W) (side : Which) (side_ne : side ≢ mine) where
    order_behind :
        (r : ℕ) (o : Order N) (d : Desk N) → (submit (over_satoshi t) side r o d).heap r ≡ o
    unfolding submit
    order_behind r o d =
        ap (λ (h : Heap N). h r)
          (process_my_order-heap t.stored t.sort side r (record d { heap = write d.heap r o })
            side_ne t.failing)
        ∙ write-new d.heap r o

    place-funded :
        (price amount : N) (r : ℕ) (d d' : Desk N) (w w' : W)
        → place
            (over_satoshi t)
            side
            ask
            r
            amount
            (with_id (over_satoshi t) (entered (over_satoshi t) ask price amount))
            (d, w)
          ≡ (placed, d', w')
        → IsFundedAsk price amount r w d'
    unfolding place entered with_id
    place-funded price amount r d d' w w' =
        elim (Bool-cases (is_empty (mk_order_address dbl rpc amount w).0)) [
          | inl e ↦ rw e (λ h. ground arith)
          | inr e ↦ rw e (λ h.
              let o =
                record (with_id (over_satoshi t) (entered (over_satoshi t) ask price amount)) {
                  btc_addr = (mk_order_address dbl rpc amount w).0;
                } in
              let made : o ≡ d'.heap r =
                sym (order_behind r o d) ∙ ap (λ (x : Notice × Desk N × W). x.1.heap r) h in
              subst
                (λ (x : Order N).
                  IsFunded amount x.btc_addr w
                  × (x.order_type ≡ ask)
                  × (x.amount ≡ amount)
                  × (x.price ≡ price))
                made (mk_order_address-IsFunded amount w e, refl, refl, refl))
        ]

    -- Where doOrder places an ask, the back end has given a new address and sent the amount to it in front, and the order has that
    -- address, the amount and the price.
    pub do_order-funded :
        (price amount : N) (r : ℕ) (d d' : Desk N) (w w' : W)
        → do_order (over_satoshi t) side ask price amount r (d, w) ≡ (placed, d', w')
        → IsFundedAsk price amount r w d'
    unfolding do_order
    do_order-funded price amount r d d' w w' = elim (Bool-cases (num.nought ≺ amount)) [
      | inr e ↦ rw e (λ h. ground arith)
      | inl e ↦ elim (Bool-cases (num.nought ≺ price)) [
        | inr k ↦ rw (e, k) (λ h. ground arith)
        | inl k ↦ rw (e, k) (place-funded price amount r d d' w w')
      ]
    ]
