-- ===== src/Remote.antt =====
-- TmContract.h, TmContract.cpp: the contracts for a trade between nodes that are not friends. The buyer's
-- node is the coordinator, the seller's the payee, and every node between them a hop. Here stands what the
-- managers of the three kinds work on. A pointer to a contract is a number, as a pointer to an order is.
-- The SQL statements succeed, so the branches for their exceptions are left out. What ZR::Bitcoin returns
-- is an argument.
pub mod Terms
pub mod Coordinator
pub mod Payee
pub mod Hop
pub mod Managers
pub mod Deals
pub mod Answers
pub mod Commitment
pub mod Votes
pub mod Refinement
pub mod Relay
pub mod Polling
mod Tests
use zero_reserve.Base.{
  ℕ, suc, Bool, true, List, [], ◌∷◌, ◌++◌, Option, none, some, Text, text_eq, ◌==◌, ◌&&◌, map,
  if◌then◌else◌,
}
use zero_reserve.Base.Int.{ℤ, pos}
use zero_reserve.Currency.{Build}
use zero_reserve.Number.{Number}
use zero_reserve.Orders.{Desk, Order, Heap, Row, RetVal}
use zero_reserve.Money.{Bank}
use zero_reserve.Routing.{TraceRouter}
use zero_reserve.Transactions.Local.{TxPhase}
use zero_reserve.Contracts.{
  BtcContract, Party, Vault, new_contract, set_btc_amount, forget, released, get_fiat_amount,
  is_receiver,
}

-- Router::TunnelDirection
pub data Direction : Type 0 where
  server client : Direction

-- RSZRRemoteTxItem, with the friend that it comes from or goes to.
pub record Parcel : Type 0 where
  pub peer : Text
  pub address : Text
  pub phase : TxPhase
  pub direction : Direction
  pub payer_id : Text
  pub payload : Text

-- What a node has. `deal` is the memory of the contracts and `next` the first address that is free;
-- `contracts` is BtcContract::contracts and `rows` the table of that name. The items and the raw
-- transactions that were sent are kept in order, the last first.
pub record Trade (N : Type 0) : Type 0 where
  pub desk : Desk N
  pub bank : Bank N
  pub deal : ℕ → BtcContract N
  pub next : ℕ
  pub contracts : List ℕ
  pub rows : List (BtcContract N)
  pub router : TraceRouter
  pub sent : List Parcel
  pub raw_sent : List Text

-- A handler of a manager with state `S` returns, or throws, or ends in undefined behaviour: it reads
-- through a null or unset pointer, or lets an exception through that nothing catches.
pub data Outcome (S : Type 0) (N : Type 0) : Type 0 where
  returned : RetVal → S → Trade N → Outcome S N
  threw : S → Trade N → Outcome S N
  undefined : Outcome S N

module _ {N : Type 0} where
  abbrev pub post : Parcel → Trade N → Trade N
  post p t = record t { sent = p ∷ t.sent }

  -- An assignment to a contract through its pointer.
  unfoldable pub write_deal : ℕ → BtcContract N → Trade N → Trade N
  write_deal r k t = record t { deal = λ q. if q == r then k else t.deal q }

  abbrev pub write_order : ℕ → Order N → Trade N → Trade N
  write_order r o t = record t {
    desk = record t.desk { heap = λ q. if q == r then o else t.desk.heap q };
  }

  -- The contracts as class BtcContract sees them, by value.
  abbrev pub vault_of : Trade N → Vault N
  vault_of t = record { bank = t.bank; contracts = map t.deal t.contracts; rows = t.rows }

  -- BtcContract::setBtcTxId, setBtcAddress and activate
  unfoldable pub set_btc_tx_id : Text → ℕ → Trade N → Trade N
  unfolding write_deal
  set_btc_tx_id id r t = write_deal r (record (t.deal r) { btc_tx_id = id }) t

  unfoldable pub set_btc_address : Text → ℕ → Trade N → Trade N
  unfolding write_deal
  set_btc_address a r t = write_deal r (record (t.deal r) { dest_address = a }) t

  unfoldable pub activate : ℕ → Trade N → Trade N
  unfolding write_deal
  activate r t = write_deal r (record (t.deal r) { activated = true }) t

  -- BtcContract::persist
  unfoldable pub persist_deal : ℕ → Trade N → Trade N
  persist_deal r t = record t { rows = t.rows ++ t.deal r ∷ [] }

  -- ZrDB::updateOrder
  unfoldable pub update_order : (N → N) → Order N → List (Row N) → List (Row N)
  update_order stored o rows =
      map
        (λ row.
          if text_eq row.row_id o.order_id
          then record row { row_amount = stored o.amount }
          else row)
        rows

module _ {N : Type 0} ⦃num : Number N⦄ where
  -- A new contract gets the next address.
  unfoldable pub placed : Trade N → Option (BtcContract N × Vault N) → Option (ℕ × Trade N)
  unfolding write_deal
  placed t none = none
  placed t (some (c, v)) = some (
    t.next,
    write_deal t.next c
        (record t { bank = v.bank; next = suc t.next; contracts = t.contracts ++ t.next ∷ [] }),
  )

  -- `new BtcContract`; `none` where the constructor throws.
  unfoldable pub make_contract :
      Build → (N → N) → ℤ → BtcContract N → Trade N → Option (ℕ × Trade N)
  unfolding new_contract placed
  make_contract build stored now k t = placed t (new_contract build stored now k (vault_of t))

  -- BtcContract::setBtcAmount
  unfoldable pub set_deal_amount : Build → (N → N) → N → ℕ → Trade N → Trade N
  unfolding set_btc_amount write_deal
  set_deal_amount build stored a r t =
      let (k, b) = set_btc_amount build stored a (t.deal r) t.bank in
      write_deal r k (record t { bank = b })

  -- BtcContract::rmContract: the loop over the list.
  unfoldable pub rm_deals : Build → (N → N) → BtcContract N → List ℕ → Trade N → List ℕ × Trade N
  unfolding forget released get_fiat_amount
  rm_deals build stored k [] t = ([], t)
  rm_deals build stored k (r ∷ rs) t =
      let (left, t') = rm_deals build stored k rs t in
      let c = t.deal r in
      if text_eq c.counter_party k.counter_party && text_eq c.btc_tx_id k.btc_tx_id
      then (
        rs,
        record t {
          rows = forget k t.rows;
          bank =
              if is_receiver k.party
              then released build stored c (get_fiat_amount c) t.bank
              else t.bank;
        },
      )
      else (r ∷ left, t')

  unfoldable pub rm_deal : Build → (N → N) → ℕ → Trade N → Trade N
  unfolding rm_deals
  rm_deal build stored r t =
      let (left, t') = rm_deals build stored (t.deal r) t.contracts t in
      record t' { contracts = left }
