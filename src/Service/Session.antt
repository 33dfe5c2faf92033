-- ===== src/Service/Session.antt =====
-- p3ZeroReserveRS.cpp, statusChange, sendOrderBook and handleMessage: what friends send one another when they connect.
-- The items that are given to sendItem are a list, each with its PeerId.
use zero_reserve.Base.{
  ℕ, suc, Bool, false, ◌≡◌, refl, List, [], ◌∷◌, ◌++◌, none, some, Text, text_eq, text_eq_refl,
  keep, if◌then◌else◌, ap, ltb, ◌∙◌,
}
use zero_reserve.Currency.{Build}
use zero_reserve.Number.{Number}
use zero_reserve.Money.{Credit}
use zero_reserve.Money.Totals.{load_credits}
use zero_reserve.Orders.{Order, Heap, Desk}

-- RsZeroReserveMsgItem::MsgType
pub data MsgType : Type 0 where
  request_orderbook sent_orderbook no_message : MsgType

pub data Sent (N : Type 0) : Type 0 where
  order_item : Text → Order N → Sent N
  credit_item : Text → Credit N → Sent N
  message_item : Text → MsgType → Sent N

module _ {N : Type 0} where
  -- The first loop of statusChange. A friend is an id and whether it is connected.
  unfoldable request_all : List (Text × Bool) → List (Sent N)
  request_all [] = []
  request_all ((peer, connected) ∷ ps) =
      let rest = request_all ps in
      if connected then message_item peer request_orderbook ∷ rest else rest

  -- The loop of sendOrderBook over one book.
  unfoldable pub send_orders : Text → Heap N → List ℕ → List (Sent N)
  send_orders uid h [] = []
  send_orders uid h (r ∷ rs) = order_item uid (h r) ∷ send_orders uid h rs

  -- sendOrderBook. The message at the end is given no PeerId.
  unfoldable pub send_order_book : Text → Desk N → List (Sent N)
  unfolding send_orders
  send_order_book uid d =
      send_orders uid d.heap d.ask_book.orders
      ++ (send_orders uid d.heap d.bid_book.orders ++ message_item [] sent_orderbook ∷ [])

  -- handleMessage from `peer`, with `m_initialized`.
  unfoldable pub handle_message : MsgType → Text → ℕ → Desk N → List (Sent N) × ℕ
  unfolding send_order_book
  handle_message request_orderbook peer initialized d = (send_order_book peer d, initialized)
  handle_message sent_orderbook peer initialized d = ([], suc initialized)
  handle_message no_message peer initialized d = ([], initialized)

  -- What has the PeerId `uid`.
  abbrev addressee : Sent N → Text
  addressee (order_item uid o) = uid
  addressee (credit_item uid c) = uid
  addressee (message_item uid t) = uid

  abbrev pub received : Text → List (Sent N) → List (Sent N)
  received uid items = keep (λ s. text_eq (addressee s) uid) items

  received-send_orders :
      (uid : Text) (h : Heap N) (rs : List ℕ) (rest : List (Sent N))
      → received uid (send_orders uid h rs ++ rest) ≡ send_orders uid h rs ++ received uid rest
  unfolding send_orders
  received-send_orders uid h [] rest = refl
  received-send_orders uid h (r ∷ rs) rest =
      rw (text_eq_refl uid)
        (ap (λ xs. order_item uid (h r) ∷ xs) (received-send_orders uid h rs rest))

  -- A friend with a non-empty id who asks for the order book gets all asks and then all bids, and no message
  -- SENT_ORDERBOOK.
  pub handle_message-request :
      (uid : Text) (initialized : ℕ) (d : Desk N)
      → text_eq [] uid ≡ false
      → received uid (handle_message request_orderbook uid initialized d).0
        ≡ send_orders uid d.heap d.ask_book.orders
          ++ (send_orders uid d.heap d.bid_book.orders ++ [])
  unfolding handle_message send_order_book
  handle_message-request uid initialized d n =
      let last : List (Sent N) = message_item [] sent_orderbook ∷ [] in
      received-send_orders uid d.heap d.ask_book.orders
        (send_orders uid d.heap d.bid_book.orders ++ last)
      ∙ ap (λ (xs : List (Sent N)). send_orders uid d.heap d.ask_book.orders ++ xs)
          (received-send_orders uid d.heap d.bid_book.orders last
            ∙ ap (λ (xs : List (Sent N)). send_orders uid d.heap d.bid_book.orders ++ xs)
                (rw n refl))

module _ {N : Type 0} ⦃num : Number N⦄ where
  unfoldable credit_items : List (Credit N) → List (Sent N)
  credit_items [] = []
  credit_items (c ∷ cs) = credit_item c.id c ∷ credit_items cs

  -- The second loop of statusChange, which ends where the accounts of a friend cannot be loaded.
  unfoldable send_credits : Build → List (Credit N) → List (Text × Bool) → List (Sent N)
  unfolding load_credits credit_items
  send_credits build rows [] = []
  send_credits build rows ((peer, connected) ∷ ps) =
      let rest = send_credits build rows ps in
      if connected
      then elim (load_credits build peer rows) [ none ↦ [] | some cs ↦ credit_items cs ++ rest ]
      else rest

  -- statusChange. Below INIT_THRESHOLD, which is 3, it asks for order books first.
  unfoldable pub status_change : Build → ℕ → List (Credit N) → List (Text × Bool) → List (Sent N)
  unfolding request_all send_credits
  status_change build initialized rows ps =
      (if ltb initialized 3 then request_all ps else []) ++ send_credits build rows ps
