-- ===== src/Remote/Votes.antt =====
-- TmContract.cpp: what the coordinator and a hop make of a vote.
use zero_reserve.Base.{
  ℕ, true, false, List, [], ◌∷◌, ◌++◌, none, some, Text, is_empty, ◌⊎◌, if◌then◌else◌, ◌≡◌, refl,
  Bool-cases, inl, inr, ap, ap₂, ◌∙◌, arith,
}
use zero_reserve.Currency.{Build}
use zero_reserve.Number.{Number, IsOrderedRing, ◌≺◌}
use zero_reserve.Orders.{failure, finish}
use zero_reserve.Orders.Sorting.{Sort}
use zero_reserve.Transactions.Local.{abort, vote_yes, order_commit}
use zero_reserve.Contracts.{BtcContract, set_btc_amount, is_receiver}
use zero_reserve.Wire.Items.{Spelling}
use zero_reserve.Remote.{
  Parcel, Trade, returned, post, write_deal, set_deal_amount, set_btc_tx_id, activate, persist_deal,
}
use zero_reserve.Routing.{next_hop}
use zero_reserve.Wire.RoundTrip.{if_true, if_false}
use zero_reserve.Remote.Terms.{Vote, read_vote}
use zero_reserve.Remote.Coordinator.{
  Buyer, to_seller, process_buyer, do_tx, tx_payload, tx_with, buyer_vote, buyer_deal, lower_amount,
  abort_buyer, buyer_desk, abort_order,
}

module _ {N : Type 0} where
  -- The contract with what the vote says, and active.
  abbrev pub voted_deal : Vote N → BtcContract N → BtcContract N
  voted_deal v k = record k { btc_amount = v.voted; btc_tx_id = v.voted_id; activated = true }

  confirmed :
      (id : Text) (r : ℕ) (t : Trade N)
      → (activate r (set_btc_tx_id id r t)).deal r
        ≡ record (t.deal r) { btc_tx_id = id; activated = true }
  unfolding activate set_btc_tx_id write_deal
  confirmed id r t = ground arith

module _ {N : Type 0} ⦃num : Number N⦄ (laws : IsOrderedRing N) where
  lowered :
      (build : Build) (stored : N → N) (a : N) (r other : ℕ) (t : Trade N)
      → (t.deal r).btc_amount ≺ a ≡ false
      → (lower_amount build stored a r other t).deal r ≡ record (t.deal r) { btc_amount = a }
  unfolding lower_amount set_deal_amount set_btc_amount write_deal
  lowered build stored a r other t e = elim (Bool-cases (a ≺ (t.deal r).btc_amount)) [
    | inl f ↦ rw f (ground arith)
    | inr f ↦
        rw f (ap (λ (x : N). record (t.deal r) { btc_amount = x }) (laws.less_antisymm _ _ e f))
  ]

  -- Nothing but the contract changes in the accounts and in the list of contracts.
  lowered_rest :
      (build : Build) (stored : N → N) (a : N) (r other : ℕ) (t : Trade N)
      → is_receiver (t.deal r).party ≡ false
      → let t' = lower_amount build stored a r other t in
        (t'.bank ≡ t.bank) × (t'.contracts ≡ t.contracts) × (t'.rows ≡ t.rows) × (t'.sent ≡ t.sent)
  unfolding lower_amount set_deal_amount set_btc_amount write_deal
  lowered_rest build stored a r other t p = elim (Bool-cases (a ≺ (t.deal r).btc_amount)) [
    | inl f ↦ rw f (rw p refl, refl, refl, refl)
    | inr f ↦ rw f (refl, refl, refl, refl)
  ]

  -- What the contract is and what the rest is after buyer_deal.
  dealt :
      (build : Build) (stored : N → N) (v : Vote N) (r other : ℕ) (t : Trade N)
      → (t.deal r).btc_amount ≺ v.voted ≡ false
      → (buyer_deal build stored v r other t).deal r ≡ voted_deal v (t.deal r)
  unfolding buyer_deal persist_deal
  dealt build stored v r other t e =
      confirmed v.voted_id r (lower_amount build stored v.voted r other t)
      ∙ ap (λ (k : BtcContract N). record k { btc_tx_id = v.voted_id; activated = true })
          (lowered build stored v.voted r other t e)

  dealt_rows :
      (build : Build) (stored : N → N) (v : Vote N) (r other : ℕ) (t : Trade N)
      → (t.deal r).btc_amount ≺ v.voted ≡ false
      → is_receiver (t.deal r).party ≡ false
      → let t' = buyer_deal build stored v r other t in
        (t'.rows ≡ t.rows ++ voted_deal v (t.deal r) ∷ []) × (t'.bank ≡ t.bank) × (t'.sent ≡ t.sent)
  unfolding buyer_deal persist_deal activate set_btc_tx_id write_deal
  dealt_rows build stored v r other t e p =
      let rest = lowered_rest build stored v.voted r other t p in
      (
        ap₂ (λ (rows : List (BtcContract N)) (k : BtcContract N). rows ++ k ∷ []) rest.2
            (dealt build stored v r other t e),
        rest.0,
        rest.3,
      )

  refused_order :
      (s : Buyer) (q : ℕ) (t : Trade N)
      → (t' : Trade N) × (abort_order s t (some q) ≡ returned failure s t')
        × (record t' { sent = t.sent } ≡ t)
  unfolding abort_order
  refused_order s q t =
      elim (Bool-cases (is_empty (next_hop (t.desk.heap s.other).order_id t.router))) [
        | inl e ↦ (t, rw e refl, refl)
        | inr e ↦ (
          post
              (to_seller abort (next_hop (t.desk.heap s.other).order_id t.router)
                (t.desk.heap s.other).order_id (t.desk.heap q).order_id [])
              t,
          rw e refl,
          refl,
        )
      ]

  refused :
      (s : Buyer) (q : ℕ) (t : Trade N)
      → s.my_order ≡ some q
      → (t' : Trade N) × (abort_buyer s t ≡ returned failure s t')
        × (record t' { sent = t.sent } ≡ t)
  unfolding abort_buyer
  refused s q t e =
      let (t', h, same) = refused_order s q t in (t', ap (abort_order s t) e ∙ h, same)

  asks_more :
      (build : Build) (stored : N → N) (sort : Sort) (v : Vote N) (r q : ℕ) (s : Buyer)
      (t : Trade N)
      → (t.deal r).btc_amount ≺ v.voted ≡ true
      → buyer_vote build stored sort v r q s t ≡ abort_buyer s t
  unfolding buyer_vote
  asks_more build stored sort v r q s t e = if_true _ _ _ e

  asks_less :
      (build : Build) (stored : N → N) (sort : Sort) (v : Vote N) (r q : ℕ) (s : Buyer)
      (t : Trade N)
      → (t.deal r).btc_amount ≺ v.voted ≡ false
      → let t1 = buyer_deal build stored v r s.other t in
        buyer_vote build stored sort v r q s t
        ≡ returned finish
            (record s { my_order = if v.voted ≺ (t1.desk.heap q).amount then some q else none })
            (record t1 {
              desk = buyer_desk stored sort v.voted q t1.desk;
              sent =
                  to_seller order_commit
                    (t.deal r).counter_party
                    (t1.desk.heap s.other).order_id
                    (t1.desk.heap q).order_id
                    []
                  ∷ t1.sent;
            })
  unfolding buyer_vote
  asks_less build stored sort v r q s t e = if_false _ _ _ e

  opened :
      (build : Build) (stored : N → N) (sort : Sort) (v : Vote N) (s : Buyer) (t : Trade N)
      (r q : ℕ)
      → s.payer ≡ some r
      → s.my_order ≡ some q
      → tx_payload build stored sort s t (some v) ≡ buyer_vote build stored sort v r q s t
  unfolding tx_payload tx_with
  opened build stored sort v s t r q d o = ap₂ (tx_with build stored sort v s t) d o

  -- A coordinator whose contract as a sender and whose order are there, on a VOTE_YES with two parts:
  -- if the vote asks for more Bitcoins than the contract has, it returns ZR_FAILURE and changes nothing
  -- but the items sent. Otherwise it returns ZR_FINISH; the contract has the amount and the transaction of
  -- the vote, is active and in the table, no account has changed, and a COMMIT is sent to its counterparty.
  pub process_buyer-vote :
      (build : Build) (stored : N → N) (sp : Spelling N) (sort : Sort) (item : Parcel) (s : Buyer)
      (t : Trade N) (v : Vote N) (r q : ℕ)
      → read_vote sp item.payload ≡ some v
      → s.payer ≡ some r
      → s.my_order ≡ some q
      → is_receiver (t.deal r).party ≡ false
      → let out = process_buyer build stored sp sort (record item { phase = vote_yes }) s t in
        ((t' : Trade N) × (out ≡ returned failure s t')
          × ((t.deal r).btc_amount ≺ v.voted ≡ true)
          × (record t' { sent = t.sent } ≡ t))
        ⊎ ((s' : Buyer) × (t' : Trade N) × (p : Parcel) × (out ≡ returned finish s' t')
            × ((t.deal r).btc_amount ≺ v.voted ≡ false)
            × (t'.deal r ≡ voted_deal v (t.deal r))
            × (t'.rows ≡ t.rows ++ voted_deal v (t.deal r) ∷ [])
            × (t'.bank ≡ t.bank)
            × (t'.sent ≡ p ∷ t.sent)
            × (p.phase ≡ order_commit)
            × (p.peer ≡ (t.deal r).counter_party))
  unfolding process_buyer do_tx
  process_buyer-vote build stored sp sort item s t v r q parsed has_deal has_order party =
      let to_vote =
        ap (tx_payload build stored sort s t) parsed
        ∙ opened build stored sort v s t r q has_deal has_order in
      elim (Bool-cases ((t.deal r).btc_amount ≺ v.voted)) [
        | inl e ↦
            let (t', h, same) = refused s q t has_order in
            inl (t', to_vote ∙ asks_more build stored sort v r q s t e ∙ h, e, same)
        | inr e ↦
            let (rows, bank, sent) = dealt_rows build stored v r s.other t e party in
            inr (
              _,
              _,
              _,
              to_vote ∙ asks_less build stored sort v r q s t e,
              e,
              dealt build stored v r s.other t e,
              rows,
              bank,
              ap₂ (λ (p : Parcel) (ps : List Parcel). p ∷ ps) refl sent,
              refl,
              refl,
            )
      ]
