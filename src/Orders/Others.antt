-- ===== src/Orders/Others.antt =====
-- A message about one order leaves the other orders of the book alone.
use zero_reserve.Base.{
  ℕ, false, ◌≡◌, refl, List, [], ◌∷◌, ◌++◌, Option, Text, text_eq, Option-cases, Bool-cases, inl,
  inr, sym, ◌∙◌,
}
use zero_reserve.Base.Int.{ℤ}
use zero_reserve.Currency.{Build}
use zero_reserve.Number.{Number}
use zero_reserve.Orders.{
  Heap, Desk, Which, get, put, find, add_order, remove, Purpose, fresh, cancel, filled,
  partly_filled, sell, process_gone, process_partly_filled, process_new, process_purpose,
  process_order, reinsert, bad_time,
}
use zero_reserve.Orders.Find.{find-append, find-append_found, find-erase_ne, find-congr}
use zero_reserve.Orders.Sorting.{Sort}
use zero_reserve.Orders.Change.{
  get-put, heap-put, get-heap, orders-add_order, orders-remove, heap-remove,
}
use zero_reserve.Orders.Process.{ignored-Alike}

module _ {N : Type 0} where
  find-append_ne :
      (h : Heap N) (rs : List ℕ) (r : ℕ) (other : Text)
      → text_eq other (h r).order_id ≡ false
      → find h (rs ++ r ∷ []) other ≡ find h rs other
  find-append_ne h rs r other n = elim (Option-cases (find h rs other)) [
    | inl e ↦ find-append h rs r other e ∙ rw (n, e) refl
    | inr (q, e) ↦ find-append_found h rs (r ∷ []) other e ∙ sym e
  ]

module _ {N : Type 0} ⦃num : Number N⦄ (sort : Sort) (w : Which) (other : Text) where
  -- What the book of the desk has under the other id.
  abbrev seen : Desk N → Option ℕ
  seen d = find d.heap (get w d).orders other

  seen-remove :
      (id : Text) (d : Desk N) → text_eq other id ≡ false → seen (remove sort w id d).1 ≡ seen d
  seen-remove id d n =
      rw (heap-remove sort w id d, orders-remove sort w id d)
        (find-erase_ne d.heap (get w d).orders id other n)

  seen-add_order :
      (r : ℕ) (d : Desk N)
      → text_eq other (d.heap r).order_id ≡ false
      → seen (put w (add_order sort d.heap (get w d) r) d) ≡ seen d
  seen-add_order r d n =
      rw (heap-put w, get-put w, orders-add_order sort d.heap (get w d) r)
        (find-append_ne d.heap (get w d).orders r other n)

  seen-reinsert :
      (r : ℕ) (d : Desk N)
      → text_eq other (d.heap r).order_id ≡ false
      → seen (reinsert sort w r d).1 ≡ seen d
  unfolding reinsert
  seen-reinsert r d n =
      seen-add_order r _ (rw (heap-remove sort w (d.heap r).order_id d) n) ∙ seen-remove _ d n

  seen-gone :
      (id : Text) (d : Desk N)
      → text_eq other id ≡ false
      → seen (process_gone sort w id d).1 ≡ seen d
  unfolding process_gone
  seen-gone id d n = elim (Option-cases (remove sort w id d).0) [
    | inl e ↦ rw (e, process_gone) (seen-remove id d n)
    | inr (r, e) ↦ rw (e, process_gone) (seen-remove id d n)
  ]

  seen-heap :
      (d : Desk N) (g : Heap N)
      → ((q : ℕ) → (d.heap q).order_id ≡ (g q).order_id)
      → seen (record d { heap = g }) ≡ seen d
  seen-heap d g same = rw (get-heap w d g) (sym (find-congr d.heap g same (get w d).orders other))

  seen-partly_filled :
      (r : ℕ) (d : Desk N)
      → text_eq other (d.heap r).order_id ≡ false
      → seen (process_partly_filled sort w r d).1 ≡ seen d
  unfolding process_partly_filled
  seen-partly_filled r d n =
      elim (Option-cases (find d.heap (get w d).orders (d.heap r).order_id)) [
        | inl e ↦ rw (e, process_partly_filled) (seen-reinsert r d n)
        | inr (q, e) ↦
            let alike = ignored-Alike sort d.heap r (d.heap q).ignored in
            elim (Bool-cases (num.same (d.heap r).amount (d.heap q).amount)) [
              | inl s ↦ rw (e, process_partly_filled, s) refl
              | inr s ↦
                  rw (e, process_partly_filled, s)
                    (seen-reinsert r _ (rw (← alike.same_id r) n) ∙ seen-heap d _ alike.same_id)
            ]
      ]

  seen-new :
      (r : ℕ) (d : Desk N)
      → text_eq other (d.heap r).order_id ≡ false
      → seen (process_new sort w r d).1 ≡ seen d
  unfolding process_new
  seen-new r d n = elim (Option-cases (find d.heap (get w d).orders (d.heap r).order_id)) [
    | inl e ↦ rw (e, process_new) (seen-add_order r d n)
    | inr (q, e) ↦ rw (e, process_new) refl
  ]

  seen-purpose :
      (r : ℕ) (p : Purpose) (d : Desk N)
      → text_eq other (d.heap r).order_id ≡ false
      → seen (process_purpose sort w r p d).1 ≡ seen d
  unfolding process_purpose
  seen-purpose r filled d n = seen-gone (d.heap r).order_id d n
  seen-purpose r cancel d n = seen-gone (d.heap r).order_id d n
  seen-purpose r partly_filled d n = seen-partly_filled r d n
  seen-purpose r fresh d n = seen-new r d n
  seen-purpose r sell d n = seen-new r d n

  -- processOrder of one order, whatever its purpose and time, leaves every other id of the book as it
  -- was: find returns for it what it returned before, the same order or none.
  pub process_order-others :
      (build : Build) (now : ℤ) (r : ℕ) (d : Desk N)
      → text_eq other (d.heap r).order_id ≡ false
      → let d' = (process_order build now sort w r d).1 in
        find d'.heap (get w d').orders other ≡ find d.heap (get w d).orders other
  unfolding process_order
  process_order-others build now r d n =
      elim (Option-cases (find d.heap d.my_book.orders (d.heap r).order_id)) [
        | inr (q, e) ↦ rw (e, process_order) refl
        | inl e ↦
            rw (e, process_order)
              (elim (Bool-cases (bad_time build now (d.heap r))) [
                | inl b ↦ rw b refl
                | inr b ↦ rw b (seen-purpose r (d.heap r).purpose d n)
              ])
      ]
