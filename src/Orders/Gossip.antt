-- ===== src/Orders/Gossip.antt =====
-- An order is passed on to the friends when processOrder returns ZR_SUCCESS: why that ends.
use mathlib.Core.Path.{subst₃}
use zero_reserve.Base.{
  ℕ, ◌≡◌, ◌≢◌, refl, none, some, Text, Option-cases, Bool-cases, inl, inr, arith, ap, sym, subst,
  ◌∙◌,
}
use zero_reserve.Base.Int.{ℤ}
use zero_reserve.Currency.{Build}
use zero_reserve.Number.{Number, IsOrderedRing}
use zero_reserve.Number.Laws.{same_refl}
use zero_reserve.Orders.{
  Order, Heap, Desk, Which, get, put, write, find, add_order, remove, RetVal, success, Purpose,
  fresh, cancel, filled, partly_filled, sell, process_gone, process_partly_filled, process_new,
  process_purpose, process_order, reinsert,
}
use zero_reserve.Orders.Find.{find-append_self}
use zero_reserve.Orders.Sorting.{Sort}
use zero_reserve.Orders.Change.{
  IsValid, find-remove, heap-IsValid, get-put, heap-put, orders-add_order, heap-remove,
}
use zero_reserve.Orders.Process.{ignored-Alike, absent-remove}

module _ {N : Type 0} ⦃num : Number N⦄ (laws : IsOrderedRing N) (sort : Sort) where
  -- The book `w` holds an order of that id and amount.
  abbrev pub Holds : Which → Text → N → Desk N → Type 0
  Holds w id amount d =
      (q : ℕ) × (find d.heap (get w d).orders id ≡ some q) × ((d.heap q).amount ≡ amount)

  -- Nothing is left to do for a message of that id, amount and purpose.
  abbrev pub Settled : Which → Text → N → Purpose → Desk N → Type 0
  Settled w id amount filled d = find d.heap (get w d).orders id ≡ none
  Settled w id amount cancel d = find d.heap (get w d).orders id ≡ none
  Settled w id amount partly_filled d = Holds w id amount d
  Settled w id amount fresh d = (q : ℕ) × (find d.heap (get w d).orders id ≡ some q)
  Settled w id amount sell d = (q : ℕ) × (find d.heap (get w d).orders id ≡ some q)

  -- The desk on which PARTLY_FILLED goes on: the new order is ignored if the old one was.
  abbrev marked : ℕ → ℕ → Desk N → Desk N
  marked r q d = record d {
    heap = write d.heap r (record (d.heap r) { ignored = (d.heap q).ignored });
  }

  write_self : (h : Heap N) (r : ℕ) (o : Order N) → write h r o r ≡ o
  unfolding write
  write_self h r o = ground arith

  added :
      (w : Which) (r : ℕ) (d : Desk N)
      → find d.heap (get w d).orders (d.heap r).order_id ≡ none
      → Holds w (d.heap r).order_id (d.heap r).amount (put w (add_order sort d.heap (get w d) r) d)
  added w r d e = (
    r,
    rw (heap-put w, get-put w, orders-add_order sort d.heap (get w d) r)
        (find-append_self d.heap (get w d).orders r e),
    rw (heap-put w) refl,
  )

  reinserted :
      (w : Which) (r : ℕ) (d : Desk N)
      → IsValid sort w d
      → Holds w (d.heap r).order_id (d.heap r).amount (reinsert sort w r d).1
  unfolding reinsert
  reinserted w r d v =
      subst (λ (h : Heap N). Holds w (h r).order_id (h r).amount (reinsert sort w r d).1)
        (heap-remove sort w (d.heap r).order_id d) (added w r _ (absent-remove sort w r d v))

  gone :
      (w : Which) (id : Text) (d : Desk N)
      → IsValid sort w d
      → find (process_gone sort w id d).1.heap (get w (process_gone sort w id d).1).orders id ≡ none
  unfolding process_gone
  gone w id d v = elim (Option-cases (remove sort w id d).0) [
    | inl e ↦ rw (e, process_gone) (find-remove sort w id d v)
    | inr (r, e) ↦ rw (e, process_gone) (find-remove sort w id d v)
  ]

  partly_filled-Holds :
      (w : Which) (r : ℕ) (d : Desk N)
      → IsValid sort w d
      → Holds w (d.heap r).order_id (d.heap r).amount (process_partly_filled sort w r d).1
  unfolding process_partly_filled
  partly_filled-Holds w r d v =
      elim (Option-cases (find d.heap (get w d).orders (d.heap r).order_id)) [
        | inl e ↦ rw (e, process_partly_filled) (reinserted w r d v)
        | inr (q, e) ↦
            rw (e, process_partly_filled)
              (elim (Bool-cases (num.same (d.heap r).amount (d.heap q).amount)) [
                | inl t ↦ rw t (q, e, sym ((laws.same_iff _ _).0 t))
                | inr t ↦ rw t (
                    subst
                      (λ (o : Order N).
                        Holds w o.order_id o.amount (reinsert sort w r (marked r q d)).1)
                      (write_self d.heap r _)
                      (reinserted w r (marked r q d)
                        (heap-IsValid sort w d _ (ignored-Alike sort d.heap r _) v)))
              ])
      ]

  new-present :
      (w : Which) (r : ℕ) (d : Desk N)
      → let d' = (process_new sort w r d).1 in
        (q : ℕ) × (find d'.heap (get w d').orders (d.heap r).order_id ≡ some q)
  unfolding process_new
  new-present w r d = elim (Option-cases (find d.heap (get w d).orders (d.heap r).order_id)) [
    | inl e ↦ rw (e, process_new) (let (q, f, _) = added w r d e in (q, f))
    | inr (q, e) ↦ rw (e, process_new) (q, e)
  ]

  pub process_purpose-Settled :
      (w : Which) (r : ℕ) (p : Purpose) (d : Desk N)
      → IsValid sort w d
      → Settled w (d.heap r).order_id (d.heap r).amount p (process_purpose sort w r p d).1
  unfolding process_purpose
  process_purpose-Settled w r filled d v = gone w (d.heap r).order_id d v
  process_purpose-Settled w r cancel d v = gone w (d.heap r).order_id d v
  process_purpose-Settled w r partly_filled d v = partly_filled-Holds w r d v
  process_purpose-Settled w r fresh d v = new-present w r d
  process_purpose-Settled w r sell d v = new-present w r d

  -- Once a message is settled, one like it is not passed on.
  pub Settled-not_success :
      (w : Which) (r : ℕ) (p : Purpose) (d : Desk N)
      → Settled w (d.heap r).order_id (d.heap r).amount p d
      → (process_purpose sort w r p d).0 ≢ success
  unfolding process_purpose process_gone process_partly_filled process_new remove
  Settled-not_success w r filled d s = ground arith
  Settled-not_success w r cancel d s = ground arith
  Settled-not_success w r partly_filled d (q, e, a) =
      rw (e, process_partly_filled, a, same_refl laws (d.heap r).amount) (λ f. cc)
  Settled-not_success w r fresh d (q, e) = ground arith
  Settled-not_success w r sell d (q, e) = ground arith

  pub success-purpose :
      (build : Build) (now : ℤ) (w : Which) (r : ℕ) (d : Desk N)
      → (process_order build now sort w r d).0 ≡ success
      → process_order build now sort w r d ≡ process_purpose sort w r (d.heap r).purpose d
  unfolding process_order
  success-purpose build now w r d s = ground arith

  -- The second copy of a message is not passed on: if processOrder returns ZR_SUCCESS for the order
  -- behind `r`, and then sees an order behind `again` with the same id, amount and purpose, at any
  -- time and under any other fields, it does not return ZR_SUCCESS. The book was in order before.
  pub process_order-not_again :
      (build : Build) (now later : ℤ) (w : Which) (r again : ℕ) (d : Desk N)
      → IsValid sort w d
      → let d' = (process_order build now sort w r d).1 in
        (process_order build now sort w r d).0 ≡ success
        → (d'.heap again).order_id ≡ (d.heap r).order_id
        → (d'.heap again).amount ≡ (d.heap r).amount
        → (d'.heap again).purpose ≡ (d.heap r).purpose
        → (process_order build later sort w again d').0 ≢ success
  process_order-not_again build now later w r again d v s i a p t =
      Settled-not_success w again (d'.heap again).purpose d' settled
        (ap (λ (x : RetVal × Desk N). x.0) (sym (success-purpose build later w again d' t)) ∙ t)
    where
      d' : Desk N
      d' = (process_order build now sort w r d).1

      first : Settled w (d.heap r).order_id (d.heap r).amount (d.heap r).purpose d'
      first =
          subst
            (λ (x : RetVal × Desk N).
              Settled w (d.heap r).order_id (d.heap r).amount (d.heap r).purpose x.1)
            (sym (success-purpose build now w r d s))
            (process_purpose-Settled w r (d.heap r).purpose d v)

      settled : Settled w (d'.heap again).order_id (d'.heap again).amount (d'.heap again).purpose d'
      settled =
          subst₃ (λ (x : Text) (y : N) (z : Purpose). Settled w x y z d') (sym i) (sym a) (sym p)
            first
