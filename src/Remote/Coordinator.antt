-- ===== src/Remote/Coordinator.antt =====
-- TmContract.cpp: TmContractCoordinator, and MyOrders::buy, which makes it.
use zero_reserve.Base.{ℕ, true, false, [], ◌∷◌, Option, none, some, Text, is_empty, if◌then◌else◌}
use zero_reserve.Base.Int.{ℤ, pos}
use zero_reserve.Currency.{Build, symbol_of}
use zero_reserve.Number.{Number, ◌⊖◌, ◌≺◌}
use zero_reserve.Orders.{
  RetVal, failure, success, finish, Order, filled, partly_filled, bids, asks, mine, remove, write,
  Desk,
}
use zero_reserve.Orders.Sorting.{Sort}
use zero_reserve.Routing.{next_hop}
use zero_reserve.Transactions.Local.{
  TxPhase, initial, query, vote_yes, vote_no, order_commit, ack_commit, abort, abort_request,
}
use zero_reserve.Contracts.{sending, get_fiat_amount}
use zero_reserve.Wire.Items.{Spelling}
use zero_reserve.Remote.{
  Parcel, Trade, Outcome, returned, threw, undefined, server, post, write_order, make_contract,
  set_deal_amount, set_btc_tx_id, set_btc_address, activate, persist_deal, update_order, rm_deal,
}
use zero_reserve.Remote.Terms.{Vote, read_vote, write_terms}

-- `m_otherOrder`, `m_myOrder` and `m_payer`
pub record Buyer : Type 0 where
  pub other : ℕ
  pub my_order : Option ℕ
  pub payer : Option ℕ

-- An item to the next node on the way to the seller.
abbrev pub to_seller : TxPhase → Text → Text → Text → Text → Parcel
to_seller phase peer address payer_id payload = record {
  peer = peer;
  address = address;
  phase = phase;
  direction = server;
  payer_id = payer_id;
  payload = payload;
}

module _ {N : Type 0} where
  -- publishOrder
  abbrev pub publish : ℕ → Trade N → Trade N
  publish q t = record t { desk = record t.desk { published = t.desk.heap q ∷ t.desk.published } }

  -- `m_myOrder->m_order_id`, in init, which is called where it is set.
  abbrev pub my_id : Option ℕ → Trade N → Text
  my_id none t = []
  my_id (some q) t = (t.desk.heap q).order_id

  -- abortTx with the user's order, which it takes the id of.
  unfoldable pub abort_order : Buyer → Trade N → Option ℕ → Outcome Buyer N
  unfolding next_hop
  abort_order s t none = undefined
  abort_order s t (some q) =
      let id = (t.desk.heap s.other).order_id in
      let addr = next_hop id t.router in
      if is_empty addr
      then returned failure s t
      else returned failure s (post (to_seller abort addr id (t.desk.heap q).order_id []) t)

  -- TmContractCoordinator::abortTx
  unfoldable pub abort_buyer : Buyer → Trade N → Outcome Buyer N
  unfolding abort_order
  abort_buyer s t = abort_order s t s.my_order

module _ {N : Type 0} ⦃num : Number N⦄ where
  -- The contract that the constructor makes, with the friend on the way to the seller; `none` where
  -- there is no such friend. `make_contract` does not fail for a sender.
  unfoldable pub buyer_contract :
      Build → (N → N) → ℤ → Text → Order N → N → Text → Trade N → Option ℕ × Trade N
  unfolding make_contract
  buyer_contract build stored now symbol o amount addr t =
      if is_empty addr
      then (none, t)
      else elim (make_contract build stored now
          (record {
            btc_tx_id = [];
            btc_amount = amount;
            price = o.price;
            currency_sym = symbol;
            party = sending;
            counter_party = addr;
            activated = false;
            dest_address = [];
            creation_time = pos 0;
            fee = num.nought;
          })
          t) [ none ↦ (none, t) | some (r, t') ↦ (some r, t') ]

  -- The constructor of TmContractCoordinator; `none` where the other order's currency has no symbol.
  unfoldable pub new_buyer : Build → (N → N) → ℤ → ℕ → ℕ → N → Trade N → Option (Buyer × Trade N)
  unfolding buyer_contract next_hop symbol_of
  new_buyer build stored now other my amount t =
      let o = t.desk.heap other in
      elim (symbol_of build o.currency) [
        | none ↦ none
        | some symbol ↦
            let (r, t') =
              buyer_contract build stored now symbol o amount (next_hop o.order_id t.router) t in
            some (
              record { other = other; my_order = some my; payer = r },
              write_order my (record (t'.desk.heap my) { locked = true }) t',
            )
      ]

  -- TmContractCoordinator::init, with the address that ZR::Bitcoin makes.
  unfoldable pub init_buyer : Spelling N → Text → Buyer → Trade N → RetVal × Trade N
  unfolding set_btc_address get_fiat_amount write_terms
  init_buyer sp btc_addr s t = elim s.payer [
    | none ↦ (failure, t)
    | some r ↦
        if is_empty btc_addr
        then (failure, t)
        else let t1 = set_btc_address btc_addr r t in
          let k = t1.deal r in
          let payer_id = my_id s.my_order t in
          (
            success,
            post
                (to_seller query k.counter_party (t.desk.heap s.other).order_id payer_id (
                  write_terms sp (record {
                    fiat = get_fiat_amount k;
                    symbol = k.currency_sym;
                    destination = btc_addr;
                    btc = k.btc_amount;
                    fee = num.nought;
                  })))
                t1,
          )
  ]

  -- MyOrders::buy: what remains of the manager, which is deleted where init fails.
  unfoldable pub buy :
      Build
      → (N → N)
      → Spelling N
      → ℤ
      → Text
      → ℕ
      → ℕ
      → N
      → Trade N
      → Option (Option Buyer × Trade N)
  unfolding new_buyer init_buyer
  buy build stored sp now btc_addr other my amount t =
      elim (new_buyer build stored now other my amount t) [
        | none ↦ none
        | some (s, t1) ↦
            let (v, t2) = init_buyer sp btc_addr s t1 in
            some (elim v [ failure ↦ none | _ ↦ some s ], t2)
      ]

  abbrev pub rm_payer : Build → (N → N) → Option ℕ → Trade N → Trade N
  rm_payer build stored none t = t
  rm_payer build stored (some r) t = rm_deal build stored r t

  -- TmContractCoordinator::rollback
  unfoldable pub rollback_buyer : Build → (N → N) → Sort → Buyer → Trade N → Trade N
  unfolding rm_deal remove
  rollback_buyer build stored sort s t =
      let t1 = rm_payer build stored s.payer t in
      let t2 = write_order s.other (record (t1.desk.heap s.other) { ignored = true }) t1 in
      record t2 { desk = (remove sort asks (t2.desk.heap s.other).order_id t2.desk).1 }

  -- doTx, behind the COMMIT: the books, where `a` of the user's order `q` is bought.
  unfoldable pub buyer_desk : (N → N) → Sort → N → ℕ → Desk N → Desk N
  unfolding update_order remove write
  buyer_desk stored sort a q d =
      let o = d.heap q in
      let o' = record o { amount = o.amount ⊖ a; purpose = partly_filled; locked = false } in
      let d1 = (remove sort bids o.order_id d).1 in
      let d2 = (remove sort mine o.order_id d1).1 in
      let gone = record (d2.heap q) { purpose = filled } in
      if a ≺ o.amount
      then record d {
        heap = write d.heap q o';
        table = update_order stored o' d.table;
        published = o' ∷ d.published;
      }
      else record d2 { heap = write d2.heap q gone; published = gone ∷ d2.published }

  -- doTx: the smaller amount of the vote, and then the seller's order is ignored from now on.
  unfoldable pub lower_amount : Build → (N → N) → N → ℕ → ℕ → Trade N → Trade N
  unfolding set_deal_amount
  lower_amount build stored a r other t =
      if a ≺ (t.deal r).btc_amount
      then write_order other (record (t.desk.heap other) { ignored = true })
          (set_deal_amount build stored a r t)
      else t

  -- doTx, up to persist: the contract `r` as it was voted for.
  unfoldable pub buyer_deal : Build → (N → N) → Vote N → ℕ → ℕ → Trade N → Trade N
  unfolding lower_amount set_btc_tx_id activate persist_deal
  buyer_deal build stored v r other t =
      persist_deal r
        (activate r (set_btc_tx_id v.voted_id r (lower_amount build stored v.voted r other t)))

  -- doTx, from the vote on: `q` is the user's order.
  unfoldable pub buyer_vote :
      Build → (N → N) → Sort → Vote N → ℕ → ℕ → Buyer → Trade N → Outcome Buyer N
  unfolding abort_buyer buyer_deal buyer_desk
  buyer_vote build stored sort v r q s t =
      let t1 = buyer_deal build stored v r s.other t in
      let item =
        to_seller order_commit (t.deal r).counter_party (t1.desk.heap s.other).order_id
          (t1.desk.heap q).order_id [] in
      let kept = v.voted ≺ (t1.desk.heap q).amount in
      if (t.deal r).btc_amount ≺ v.voted
      then abort_buyer s t
      else returned finish (record s { my_order = if kept then some q else none })
          (record t1 { desk = buyer_desk stored sort v.voted q t1.desk; sent = item ∷ t1.sent })

  -- doTx on the contract and the order that are there.
  unfoldable pub tx_with :
      Build → (N → N) → Sort → Vote N → Buyer → Trade N → Option ℕ → Option ℕ → Outcome Buyer N
  unfolding buyer_vote
  tx_with build stored sort v s t none o = undefined
  tx_with build stored sort v s t (some r) none = undefined
  tx_with build stored sort v s t (some r) (some q) = buyer_vote build stored sort v r q s t

  -- doTx on the parts of the payload.
  unfoldable pub tx_payload :
      Build → (N → N) → Sort → Buyer → Trade N → Option (Vote N) → Outcome Buyer N
  unfolding abort_buyer tx_with
  tx_payload build stored sort s t none = abort_buyer s t
  tx_payload build stored sort s t (some v) = tx_with build stored sort v s t s.payer s.my_order

  -- TmContractCoordinator::doTx
  unfoldable pub do_tx :
      Build → (N → N) → Spelling N → Sort → Parcel → Buyer → Trade N → Outcome Buyer N
  unfolding read_vote tx_payload
  do_tx build stored sp sort item s t = tx_payload build stored sort s t (read_vote sp item.payload)

  -- TmContractCoordinator::processItem
  unfoldable pub process_buyer :
      Build → (N → N) → Spelling N → Sort → Parcel → Buyer → Trade N → Outcome Buyer N
  unfolding do_tx abort_buyer rollback_buyer
  process_buyer build stored sp sort item s t = elim item.phase [
    | vote_no ↦ abort_buyer s (rollback_buyer build stored sort s t)
    | vote_yes ↦ do_tx build stored sp sort item s t
    | abort_request ↦ abort_buyer s (rollback_buyer build stored sort s t)
    | initial ↦ threw s t
    | query ↦ threw s t
    | order_commit ↦ threw s t
    | ack_commit ↦ threw s t
    | abort ↦ threw s t
  ]
