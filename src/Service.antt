-- ===== src/Service.antt =====
-- p3ZeroReserveRS.cpp: what the service does with an order or a credit item that a friend sends. The friends who are
-- online come from RetroShare, and `tenth` is what boost makes of `m_amount * 0.1`.
pub mod Credits
pub mod Once
pub mod Recipients
pub mod Session
pub mod Rounds
mod Tests
use zero_reserve.Base.{
  ℕ, Bool, true, false, List, [], ◌∷◌, Option, none, some, Text, text_eq, ◌&&◌, ◌||◌, not,
  if◌then◌else◌,
}
use zero_reserve.Base.Int.{ℤ}
use zero_reserve.Currency.{Build, symbol_of}
use zero_reserve.Number.{Number, ◌⊖◌, ◌≺◌}
use zero_reserve.Money.{
  Credit, Bank, new_credit, load_peer, get_my_available, get_peer_available, update_our_credit,
}
use zero_reserve.Routing.{TraceRouter, add_route, has_route}
use zero_reserve.Orders.{
  Order, OrderType, bid, ask, Purpose, fresh, cancel, filled, partly_filled, sell, Desk, Which,
  RetVal, success, failure, finish, process_order,
}
use zero_reserve.Orders.Sorting.{Sort}
use zero_reserve.Matching.{side_of}

abbrev pub is_cancel : Purpose → Bool
is_cancel cancel = true
is_cancel fresh = false
is_cancel filled = false
is_cancel partly_filled = false
is_cancel sell = false

abbrev pub is_filled : Purpose → Bool
is_filled filled = true
is_filled cancel = false
is_filled fresh = false
is_filled partly_filled = false
is_filled sell = false

abbrev pub is_ask : OrderType → Bool
is_ask ask = true
is_ask bid = false

abbrev pub is_success : RetVal → Bool
is_success success = true
is_success failure = false
is_success finish = false

-- The friend is the one who sent the item.
abbrev pub is_sender : Option Text → Text → Bool
is_sender none peer = false
is_sender (some sender) peer = text_eq peer sender

-- What the service works on.
pub record Hub (N : Type 0) : Type 0 where
  pub desk : Desk N
  pub router : TraceRouter
  pub bank : Bank N

module _ {N : Type 0} ⦃num : Number N⦄ where
  -- The test of the credit with one friend in publishOrder.
  unfoldable pub can_fill : (N → N) → Order N → Credit N → Bool
  unfolding get_my_available get_peer_available
  can_fill tenth o c =
      if is_ask o.order_type && (not (is_cancel o.purpose) || not (is_filled o.purpose))
      then not (get_my_available c ≺ tenth o.amount)
      else not (get_peer_available c ≺ tenth o.amount)

  -- The friends that one order is sent to, of those online. Where the currency has no symbol the
  -- constructor of Credit does not return, and nothing is sent.
  unfoldable pub publish_order :
      Build → (N → N) → Text → List Text → Option Text → Order N → Bank N → List Text
  unfolding symbol_of new_credit load_peer can_fill
  publish_order build tenth own [] sender o b = []
  publish_order build tenth own (peer ∷ peers) sender o b =
      let rest = publish_order build tenth own peers sender o b in
      if text_eq peer own || is_sender sender peer
      then rest
      else elim (symbol_of build o.currency) [
        | none ↦ []
        | some cur ↦ elim (new_credit build peer cur) [
          | none ↦ []
          | some c ↦ if can_fill tenth o (load_peer b.peers c) then peer ∷ rest else rest
        ]
      ]

  -- handleOrder on the order behind `r`, which `peer` sent, with the friends that it is passed on to.
  unfoldable pub handle_order :
      Build → (N → N) → ℤ → Sort → Text → List Text → Text → ℕ → Hub N → List Text × Hub N
  unfolding has_route add_route process_order publish_order
  handle_order build tenth now sort own online peer r hub =
      let o = hub.desk.heap r in
      let router =
        if has_route o.order_id hub.router
        then hub.router
        else add_route o.order_id peer hub.router in
      let (result, desk) = process_order build now sort (side_of o.order_type) r hub.desk in
      (
        if is_success result
            then publish_order build tenth own online (some peer) (desk.heap r) hub.bank
            else [],
        record hub { router = router; desk = desk },
      )

  -- handleCredit: what a friend says of the account. The first part is whether the user is told that
  -- the balances differ; `none` where the constructor of Credit throws.
  unfoldable pub handle_credit : Build → (N → N) → Credit N → Bank N → Option (Bool × Bank N)
  unfolding new_credit load_peer update_our_credit
  handle_credit build stored other b = elim (new_credit build other.id other.currency) [
    | none ↦ none
    | some c ↦
        let ours = load_peer b.peers c in
        some (
          not (num.same (num.nought ⊖ ours.balance) other.balance),
          if num.same ours.our_credit other.our_credit then b else update_our_credit stored other b,
        )
  ]
