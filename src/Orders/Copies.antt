-- ===== src/Orders/Copies.antt =====
-- A copy of a message that arrives after messages about other orders.
use zero_reserve.Base.{
  ℕ, Bool, true, false, List, [], ◌∷◌, ◌≡◌, ◌≢◌, refl, Text, text_eq, All, Option-cases, Bool-cases,
  inl, inr, arith, ap, sym, subst, ◌∙◌, ◌==◌,
}
use zero_reserve.Base.Int.{ℤ}
use zero_reserve.Currency.{Build}
use zero_reserve.Number.{Number, IsOrderedRing}
use zero_reserve.Orders.{
  Order, Heap, Desk, Which, get, write, find, success, Purpose, fresh, cancel, filled,
  partly_filled, sell, process_gone, process_partly_filled, process_new, process_purpose,
  process_order, reinsert, bad_time, remove, RetVal,
}
use mathlib.Core.Path.{subst₃}
use zero_reserve.Orders.Sorting.{Sort}
use zero_reserve.Orders.Others.{process_order-others}
use zero_reserve.Orders.Gossip.{
  Settled, process_purpose-Settled, Settled-not_success, success-purpose,
}
use zero_reserve.Orders.Change.{IsValid, heap-put, heap-remove}

same_place : (q r : ℕ) → (q == r) ≡ true → r ≡ q
same_place q r e = ground arith

module _ {N : Type 0} ⦃num : Number N⦄ (sort : Sort) (w : Which) {A : Type 0} (f : Order N → A)
    (blind : (o : Order N) (b : Bool) → f (record o { ignored = b }) ≡ f o) where
  -- What the heap has behind `q`, as far as `f` sees it.
  kept-write :
      (h : Heap N) (r q : ℕ) (b : Bool) → f (write h r (record (h r) { ignored = b }) q) ≡ f (h q)
  unfolding write
  kept-write h r q b = elim (Bool-cases (q == r)) [
    | inl e ↦ rw e (blind (h r) b ∙ ap (λ (n : ℕ). f (h n)) (same_place q r e))
    | inr e ↦ rw e refl
  ]

  kept-reinsert : (r q : ℕ) (d : Desk N) → f ((reinsert sort w r d).1.heap q) ≡ f (d.heap q)
  unfolding reinsert
  kept-reinsert r q d =
      ap (λ (h : Heap N). f (h q)) (heap-put w _ _ ∙ heap-remove sort w (d.heap r).order_id d)

  kept-gone :
      (id : Text) (q : ℕ) (d : Desk N) → f ((process_gone sort w id d).1.heap q) ≡ f (d.heap q)
  unfolding process_gone
  kept-gone id q d = elim (Option-cases (remove sort w id d).0) [
    | inl e ↦ rw (e, process_gone) (ap (λ (h : Heap N). f (h q)) (heap-remove sort w id d))
    | inr (r, e) ↦ rw (e, process_gone) (ap (λ (h : Heap N). f (h q)) (heap-remove sort w id d))
  ]

  kept-partly_filled :
      (r q : ℕ) (d : Desk N) → f ((process_partly_filled sort w r d).1.heap q) ≡ f (d.heap q)
  unfolding process_partly_filled
  kept-partly_filled r q d =
      elim (Option-cases (find d.heap (get w d).orders (d.heap r).order_id)) [
        | inl e ↦ rw (e, process_partly_filled) (kept-reinsert r q d)
        | inr (p, e) ↦ elim (Bool-cases (num.same (d.heap r).amount (d.heap p).amount)) [
          | inl s ↦ rw (e, process_partly_filled, s) refl
          | inr s ↦
              rw (e, process_partly_filled, s)
                (kept-reinsert r q _ ∙ kept-write d.heap r q (d.heap p).ignored)
        ]
      ]

  kept-new : (r q : ℕ) (d : Desk N) → f ((process_new sort w r d).1.heap q) ≡ f (d.heap q)
  unfolding process_new
  kept-new r q d = elim (Option-cases (find d.heap (get w d).orders (d.heap r).order_id)) [
    | inl e ↦ rw (e, process_new) (ap (λ (h : Heap N). f (h q)) (heap-put w _ d))
    | inr (p, e) ↦ rw (e, process_new) refl
  ]

  kept-purpose :
      (r q : ℕ) (p : Purpose) (d : Desk N)
      → f ((process_purpose sort w r p d).1.heap q) ≡ f (d.heap q)
  unfolding process_purpose
  kept-purpose r q filled d = kept-gone (d.heap r).order_id q d
  kept-purpose r q cancel d = kept-gone (d.heap r).order_id q d
  kept-purpose r q partly_filled d = kept-partly_filled r q d
  kept-purpose r q fresh d = kept-new r q d
  kept-purpose r q sell d = kept-new r q d

  kept-process_order :
      (build : Build) (now : ℤ) (r q : ℕ) (d : Desk N)
      → f ((process_order build now sort w r d).1.heap q) ≡ f (d.heap q)
  unfolding process_order
  kept-process_order build now r q d =
      elim (Option-cases (find d.heap d.my_book.orders (d.heap r).order_id)) [
        | inr (p, e) ↦ rw (e, process_order) refl
        | inl e ↦
            rw (e, process_order)
              (elim (Bool-cases (bad_time build now (d.heap r))) [
                | inl b ↦ rw b refl
                | inr b ↦ rw b (kept-purpose r q (d.heap r).purpose d)
              ])
      ]

module _ {N : Type 0} ⦃num : Number N⦄ (laws : IsOrderedRing N) (sort : Sort) (build : Build)
    (w : Which) where
  -- The orders behind pointers, processed one after the other, each at its time.
  abbrev pub process_each : List (ℤ × ℕ) → Desk N → Desk N
  process_each [] d = d
  process_each ((now, r) ∷ ms) d = process_each ms (process_order build now sort w r d).1

  -- None of them has that id.
  abbrev pub AreOthers : Text → List (ℤ × ℕ) → Desk N → Type 0
  AreOthers id ms d = All (λ (m : ℤ × ℕ). text_eq id (d.heap m.1).order_id ≡ false) ms

  AreOthers-process_order :
      (id : Text) (now : ℤ) (r : ℕ) (ms : List (ℤ × ℕ)) (d : Desk N)
      → AreOthers id ms d
      → AreOthers id ms (process_order build now sort w r d).1
  AreOthers-process_order id now r [] d h = tt
  AreOthers-process_order id now r (m ∷ ms) d h = (
    ap (text_eq id)
          (kept-process_order sort w (λ (o : Order N). o.order_id) (λ o b. refl) build now r m.1 d)
        ∙ h.0,
    AreOthers-process_order id now r ms d h.1,
  )

  Settled-process_order :
      (id : Text) (amount : N) (p : Purpose) (now : ℤ) (r : ℕ) (d : Desk N)
      → text_eq id (d.heap r).order_id ≡ false
      → Settled laws sort w id amount p d
      → Settled laws sort w id amount p (process_order build now sort w r d).1
  Settled-process_order id amount filled now r d n s =
      process_order-others sort w id build now r d n ∙ s
  Settled-process_order id amount cancel now r d n s =
      process_order-others sort w id build now r d n ∙ s
  Settled-process_order id amount partly_filled now r d n (q, e, a) = (
    q,
    process_order-others sort w id build now r d n ∙ e,
    kept-process_order sort w (λ (o : Order N). o.amount) (λ o b. refl) build now r q d ∙ a,
  )
  Settled-process_order id amount fresh now r d n (q, e) =
      (q, process_order-others sort w id build now r d n ∙ e)
  Settled-process_order id amount sell now r d n (q, e) =
      (q, process_order-others sort w id build now r d n ∙ e)

  Settled-process_each :
      (id : Text) (amount : N) (p : Purpose) (ms : List (ℤ × ℕ)) (d : Desk N)
      → AreOthers id ms d
      → Settled laws sort w id amount p d
      → Settled laws sort w id amount p (process_each ms d)
  Settled-process_each id amount p [] d h s = s
  Settled-process_each id amount p ((now, r) ∷ ms) d h s =
      Settled-process_each id amount p ms (process_order build now sort w r d).1
        (AreOthers-process_order id now r ms d h.1)
        (Settled-process_order id amount p now r d h.0 s)

  -- The second copy of a message is not passed on: where processOrder returns ZR_SUCCESS for the order behind `r`, then processes
  -- any orders with other ids for the same book, and then an order behind `again` with the same id, amount and purpose, at
  -- any time and under any other fields, it does not return ZR_SUCCESS for that. The book was in order before.
  pub process_order-copy :
      (now later : ℤ) (r again : ℕ) (ms : List (ℤ × ℕ)) (d : Desk N)
      → IsValid sort w d
      → let d' = (process_order build now sort w r d).1 in
        let d'' = process_each ms d' in
        (process_order build now sort w r d).0 ≡ success
        → AreOthers (d.heap r).order_id ms d'
        → (d''.heap again).order_id ≡ (d.heap r).order_id
        → (d''.heap again).amount ≡ (d.heap r).amount
        → (d''.heap again).purpose ≡ (d.heap r).purpose
        → (process_order build later sort w again d'').0 ≢ success
  process_order-copy now later r again ms d v s o i a p t =
      Settled-not_success laws sort w again (d''.heap again).purpose d'' settled (
        ap (λ (x : RetVal × Desk N). x.0)
          (sym (success-purpose laws sort build later w again d'' t))
        ∙ t)
    where
      d' : Desk N
      d' = (process_order build now sort w r d).1

      d'' : Desk N
      d'' = process_each ms d'

      first : Settled laws sort w (d.heap r).order_id (d.heap r).amount (d.heap r).purpose d'
      first =
          subst
            (λ (x : RetVal × Desk N).
              Settled laws sort w (d.heap r).order_id (d.heap r).amount (d.heap r).purpose x.1)
            (sym (success-purpose laws sort build now w r d s))
            (process_purpose-Settled laws sort w r (d.heap r).purpose d v)

      settled :
          Settled laws sort w
            (d''.heap again).order_id
            (d''.heap again).amount
            (d''.heap again).purpose
            d''
      settled =
          subst₃ (λ (x : Text) (y : N) (z : Purpose). Settled laws sort w x y z d'') (sym i) (sym a)
            (sym p)
            (Settled-process_each (d.heap r).order_id (d.heap r).amount (d.heap r).purpose ms d' o
              first)
