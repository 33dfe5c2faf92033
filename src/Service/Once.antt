-- ===== src/Service/Once.antt =====
-- An order that comes again, by another way, is not passed on again and changes no route.
use zero_reserve.Base.{ℕ, false, ◌≡◌, ◌≢◌, refl, List, [], Text, sym, subst}
use zero_reserve.Base.Int.{ℤ}
use zero_reserve.Currency.{Build}
use zero_reserve.Number.{Number, IsOrderedRing}
use zero_reserve.Orders.{OrderType, Desk, RetVal, success, failure, finish, process_order}
use zero_reserve.Orders.Sorting.{Sort}
use zero_reserve.Orders.Change.{IsValid}
use zero_reserve.Orders.Gossip.{process_order-not_again}
use zero_reserve.Matching.{side_of}
use zero_reserve.Service.{Hub, handle_order, is_success}

not_success : (r : RetVal) → r ≢ success → is_success r ≡ false
not_success success n = absurd (n refl)
not_success failure n = refl
not_success finish n = refl

module _ {N : Type 0} ⦃num : Number N⦄ (laws : IsOrderedRing N) (sort : Sort) (build : Build)
    (tenth : N → N) (own : Text) (online : List Text) where
  -- handleOrder of an order that processOrder accepts, and then, with nothing handled in between, of another copy of it, from
  -- any friend: the same id, type, amount and purpose. The second is passed on to nobody. The book of that side was in order
  -- before.
  pub handle_order-once :
      (now later : ℤ) (peer other : Text) (r again : ℕ) (hub : Hub N)
      → let o = hub.desk.heap r in
        let hub' = (handle_order build tenth now sort own online peer r hub).1 in
        let o' = hub'.desk.heap again in
        IsValid sort (side_of o.order_type) hub.desk
        → (process_order build now sort (side_of o.order_type) r hub.desk).0 ≡ success
        → o'.order_id ≡ o.order_id
        → o'.amount ≡ o.amount
        → o'.purpose ≡ o.purpose
        → o'.order_type ≡ o.order_type
        → (handle_order build tenth later sort own online other again hub').0 ≡ []
  unfolding handle_order
  handle_order-once now later peer other r again hub v s i a p t =
      rw
        (not_success _ (
          subst
            (λ (ty : OrderType).
              (process_order build later sort (side_of ty) again desk').0 ≢ success)
            (sym t)
            (process_order-not_again laws sort build now later
              (side_of (hub.desk.heap r).order_type) r again hub.desk v s i a p)))
        refl
    where
      desk' : Desk N
      desk' = (process_order build now sort (side_of (hub.desk.heap r).order_type) r hub.desk).1
