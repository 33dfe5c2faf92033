-- ===== src/Orders/Process.antt =====
-- What an order that arrives from the network does to a book.
use zero_reserve.Base.{ℕ, Bool, ◌≡◌, none, Text, Option-cases, Bool-cases, inl, inr, arith}
use zero_reserve.Base.Int.{ℤ}
use zero_reserve.Currency.{Build}
use zero_reserve.Number.{Number}
use zero_reserve.Orders.{
  Heap, Desk, Which, get, write, find, remove, Purpose, fresh, cancel, filled, partly_filled, sell,
  process_gone, process_partly_filled, process_new, process_purpose, process_order, reinsert,
  bad_time,
}
use zero_reserve.Orders.Find.{find-erase}
use zero_reserve.Orders.Sorting.{Sort}
use zero_reserve.Orders.Change.{
  Alike, IsValid, remove-IsValid, add_order-IsValid, heap-IsValid, heap-remove, orders-remove,
}

module _ {N : Type 0} ⦃num : Number N⦄ (sort : Sort) where
  -- The order that PARTLY_FILLED writes `m_ignored` of is alike in all that a book reads.
  pub ignored-Alike :
      (h : Heap N) (r : ℕ) (b : Bool) → Alike sort h (write h r (record (h r) { ignored = b }))
  unfolding write
  ignored-Alike h r b = record {
    same_id = λ q. ground arith;
    same_type = λ q. ground arith;
    same_price = λ q. ground arith;
    same_currency = λ q. ground arith;
  }

  pub absent-remove :
      (w : Which) (r : ℕ) (d : Desk N)
      → IsValid sort w d
      → let d' = (remove sort w (d.heap r).order_id d).1 in
        find d'.heap (get w d').orders (d'.heap r).order_id ≡ none
  absent-remove w r d v =
      rw (heap-remove sort w (d.heap r).order_id d, orders-remove sort w (d.heap r).order_id d)
        (find-erase d.heap (get w d).orders (d.heap r).order_id v.unique)

  reinsert-IsValid :
      (w : Which) (r : ℕ) (d : Desk N) → IsValid sort w d → IsValid sort w (reinsert sort w r d).1
  unfolding reinsert
  reinsert-IsValid w r d v =
      add_order-IsValid sort w r _ (absent-remove w r d v)
        (remove-IsValid sort w (d.heap r).order_id d v)

  process_gone-IsValid :
      (w : Which) (id : Text) (d : Desk N)
      → IsValid sort w d
      → IsValid sort w (process_gone sort w id d).1
  unfolding process_gone
  process_gone-IsValid w id d v = elim (Option-cases (remove sort w id d).0) [
    | inl e ↦ rw (e, process_gone) (remove-IsValid sort w id d v)
    | inr (r, e) ↦ rw (e, process_gone) (remove-IsValid sort w id d v)
  ]

  process_partly_filled-IsValid :
      (w : Which) (r : ℕ) (d : Desk N)
      → IsValid sort w d
      → IsValid sort w (process_partly_filled sort w r d).1
  unfolding process_partly_filled
  process_partly_filled-IsValid w r d v =
      elim (Option-cases (find d.heap (get w d).orders (d.heap r).order_id)) [
        | inl e ↦ rw (e, process_partly_filled) (reinsert-IsValid w r d v)
        | inr (q, e) ↦
            rw (e, process_partly_filled)
              (elim (Bool-cases (num.same (d.heap r).amount (d.heap q).amount)) [
                | inl s ↦ rw s v
                | inr s ↦
                    rw s (
                      reinsert-IsValid w r _ (heap-IsValid sort w d _ (ignored-Alike d.heap r _) v))
              ])
      ]

  process_new-IsValid :
      (w : Which) (r : ℕ) (d : Desk N)
      → IsValid sort w d
      → IsValid sort w (process_new sort w r d).1
  unfolding process_new
  process_new-IsValid w r d v =
      elim (Option-cases (find d.heap (get w d).orders (d.heap r).order_id)) [
        | inl e ↦ rw (e, process_new) (add_order-IsValid sort w r d e v)
        | inr (q, e) ↦ rw (e, process_new) v
      ]

  process_purpose-IsValid :
      (w : Which) (r : ℕ) (p : Purpose) (d : Desk N)
      → IsValid sort w d
      → IsValid sort w (process_purpose sort w r p d).1
  unfolding process_purpose
  process_purpose-IsValid w r filled d v = process_gone-IsValid w (d.heap r).order_id d v
  process_purpose-IsValid w r cancel d v = process_gone-IsValid w (d.heap r).order_id d v
  process_purpose-IsValid w r partly_filled d v = process_partly_filled-IsValid w r d v
  process_purpose-IsValid w r fresh d v = process_new-IsValid w r d v
  process_purpose-IsValid w r sell d v = process_new-IsValid w r d v

  -- processOrder keeps a book in order, whatever order arrives and whatever its purpose and time: no
  -- two of its orders have one id, and its view is what filterOrders returns for its currency.
  pub process_order-IsValid :
      (build : Build) (now : ℤ) (w : Which) (r : ℕ) (d : Desk N)
      → IsValid sort w d
      → IsValid sort w (process_order build now sort w r d).1
  unfolding process_order
  process_order-IsValid build now w r d v =
      elim (Option-cases (find d.heap d.my_book.orders (d.heap r).order_id)) [
        | inr (q, e) ↦ rw (e, process_order) v
        | inl e ↦
            rw (e, process_order)
              (elim (Bool-cases (bad_time build now (d.heap r))) [
                | inl b ↦ rw b v
                | inr b ↦ rw b (process_purpose-IsValid w r (d.heap r).purpose d v)
              ])
      ]
