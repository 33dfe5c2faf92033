-- ===== src/Remote/Payee.antt =====
-- TmContract.cpp: TmContractCohortePayee, the manager at the seller's node.
pub mod Query
pub use Query.*
unfoldable pub use Query.{
  abort_seller, vote_no_seller, asked_contract, commit_part, set_own_address, send_vote,
  answer_query, query_checks, query_deal, query_terms, query_found, seller_query,
}
use zero_reserve.Base.{
  ℕ, Bool, true, false, [], ◌∷◌, Option, none, some, Text, text_eq, codes, not, if◌then◌else◌,
}
use zero_reserve.Base.Int.{ℤ, pos}
use zero_reserve.Currency.{Build, symbol_of}
use zero_reserve.Number.{Number, ◌⊕◌, ◌⊖◌, ◌⊘◌, ◌≺◌}
use zero_reserve.Orders.{
  failure, success, finish, filled, partly_filled, asks, mine, remove, find, write, Desk,
}
use zero_reserve.Orders.Sorting.{Sort}
use zero_reserve.Transactions.Local.{
  TxPhase, initial, query, vote_yes, vote_no, order_commit, ack_commit, abort, abort_request,
}
use zero_reserve.Contracts.{BtcContract, receiving}
use zero_reserve.Wire.Items.{Spelling}
use zero_reserve.Remote.{
  Parcel, Trade, Outcome, returned, threw, undefined, client, post, write_order, make_contract,
  set_deal_amount, set_btc_tx_id, set_btc_address, activate, persist_deal, update_order, rm_deal,
}
use zero_reserve.Remote.Terms.{Terms, read_terms, write_vote}

module _ {N : Type 0} ⦃num : Number N⦄ where
  -- doCommit, behind persist: the books, where `a` of the order `q` is sold.
  unfoldable pub seller_desk : (N → N) → Sort → N → ℕ → Desk N → Desk N
  unfolding update_order remove write
  seller_desk stored sort a q d =
      let o = d.heap q in
      let o' = record o {
        purpose = partly_filled;
        amount = o.amount ⊖ a;
        commitment = o.commitment ⊖ a;
      } in
      let d1 = record d { heap = write d.heap q (record o { purpose = filled }) } in
      let d2 = (remove sort mine o.order_id d1).1 in
      let d3 = (remove sort asks o.order_id d2).1 in
      if a ≺ o.amount
      then record d {
        heap = write d.heap q o';
        table = update_order stored o' d.table;
        published = o' ∷ d.published;
      }
      else record d3 { published = d3.heap q ∷ d3.published }

  -- doCommit on the contract and the order that are there.
  unfoldable pub commit_with :
      (N → N) → Sort → Seller → Trade N → Option ℕ → Option ℕ → Outcome Seller N
  unfolding activate persist_deal seller_desk
  commit_with stored sort s t none o = undefined
  commit_with stored sort s t (some r) none = undefined
  commit_with stored sort s t (some r) (some q) =
      let t1 = persist_deal r (activate r t) in
      returned finish (record s { phase = order_commit })
        (record t1 {
          desk = seller_desk stored sort (t1.deal r).btc_amount q t1.desk;
          raw_sent = s.tx_hex ∷ t1.raw_sent;
        })

  -- TmContractCohortePayee::doCommit
  unfoldable pub seller_commit : (N → N) → Sort → Parcel → Seller → Trade N → Outcome Seller N
  unfolding abort_seller commit_with
  seller_commit stored sort item s t =
      if not (is_query s.phase)
      then abort_seller item s t
      else commit_with stored sort s t s.payee s.my_order

  -- TmContractCohortePayee::rollback
  unfoldable pub rollback_seller : Build → (N → N) → ℕ → ℕ → Trade N → Trade N
  unfolding rm_deal
  rollback_seller build stored q r t =
      let o = t.desk.heap q in
      rm_deal build stored r
        (write_order q (record o { commitment = o.commitment ⊖ (t.deal r).btc_amount }) t)

  -- TmContractCohortePayee::processItem on ABORT, on the contract and the order that are there.
  unfoldable pub abort_with :
      Build → (N → N) → Seller → Trade N → Option ℕ → Option ℕ → Outcome Seller N
  unfolding rollback_seller
  abort_with build stored s t none o = returned failure s t
  abort_with build stored s t (some r) none = undefined
  abort_with build stored s t (some r) (some q) =
      returned failure s (rollback_seller build stored q r t)

  -- TmContractCohortePayee::processItem
  unfoldable pub process_seller :
      Build
      → (N → N)
      → Spelling N
      → Sort
      → ℤ
      → (N → Text → Text → RawTx)
      → Parcel
      → Seller
      → Trade N
      → Outcome Seller N
  unfolding seller_query seller_commit abort_with
  process_seller build stored sp sort now mk_raw_tx item s t = elim item.phase [
    | query ↦ seller_query build stored sp now mk_raw_tx item s t
    | order_commit ↦ seller_commit stored sort item s t
    | abort ↦ abort_with build stored s t s.payee s.my_order
    | initial ↦ threw s t
    | vote_yes ↦ threw s t
    | vote_no ↦ threw s t
    | ack_commit ↦ threw s t
    | abort_request ↦ threw s t
  ]
