-- ===== src/Remote/Hop.antt =====
-- TmContract.cpp: TmContractCohorteHop, the manager at a node on the way.
use zero_reserve.Base.{ℕ, Bool, true, false, [], Option, none, some, Text, not, if◌then◌else◌}
use zero_reserve.Base.Int.{ℤ}
use zero_reserve.Currency.{Build}
use zero_reserve.Number.{Number, ◌≺◌}
use zero_reserve.Orders.{RetVal, failure, success, finish}
use zero_reserve.Routing.{next_hop, add_tunnel, get_tunnel}
use zero_reserve.Transactions.Local.{
  TxPhase, initial, query, vote_yes, vote_no, order_commit, ack_commit, abort, abort_request,
}
use zero_reserve.Contracts.{sending, get_fiat_amount}
use zero_reserve.Wire.Items.{Spelling}
use zero_reserve.Remote.{
  Parcel, Trade, Outcome, returned, threw, undefined, Direction, server, client, post,
  make_contract, set_deal_amount, set_btc_tx_id, set_btc_address, activate, persist_deal, rm_deal,
}
use zero_reserve.Remote.Terms.{Terms, Vote, read_terms, read_vote, write_terms}
use zero_reserve.Remote.Payee.{is_initial, is_query, no_vote, to_buyer, asked_contract}

-- `m_Phase`, `m_payer` and `m_payee`
pub record Middle : Type 0 where
  pub phase : TxPhase
  pub payer : Option ℕ
  pub payee : Option ℕ

-- The constructor of TmContractCohorteHop
abbrev pub new_middle : Middle
new_middle = record { phase = initial; payer = none; payee = none }

abbrev is_vote_yes : TxPhase → Bool
is_vote_yes vote_yes = true
is_vote_yes _ = false

-- The neighbour of a tunnel in a direction.
abbrev pub neighbour : Direction → Text × Text → Text
neighbour server route = route.1
neighbour client route = route.0

module _ {N : Type 0} where
  -- TmContractCohorteHop::mkTunnel
  unfoldable pub mk_tunnel : Parcel → Trade N → Trade N
  unfolding next_hop add_tunnel
  mk_tunnel item t = record t {
    router = add_tunnel item.address (item.peer, next_hop item.address t.router) t.router;
  }

  -- forwardItem where getTunnel gave a result and a pair.
  abbrev pub forwarded : RetVal × (Text × Text) → Parcel → Text → Trade N → RetVal × Trade N
  forwarded (failure, route) item s t = (failure, t)
  forwarded (success, route) item s t =
      (success, post (record item { peer = neighbour item.direction route; payload = s }) t)
  forwarded (finish, route) item s t =
      (success, post (record item { peer = neighbour item.direction route; payload = s }) t)

  -- TmContractCohorteHop::forwardItem
  unfoldable pub forward_item : Parcel → Text → Trade N → RetVal × Trade N
  unfolding get_tunnel
  forward_item item s t = forwarded (get_tunnel item.address ([], []) t.router) item s t

  -- TmContractCohorteHop::abortTx
  unfoldable pub abort_middle : Parcel → Middle → Trade N → Outcome Middle N
  abort_middle item s t =
      returned success (record s { phase = abort_request })
        (post (to_buyer abort_request item.address [] item) t)

  -- TmContractCohorteHop::voteNo
  unfoldable pub vote_no_middle : Parcel → Middle → Trade N → Outcome Middle N
  vote_no_middle item s t = returned finish s (post (to_buyer vote_no item.address no_vote item) t)

module _ {N : Type 0} ⦃num : Number N⦄ where
  -- doQuery where both contracts were made: `r` is the payee's and `q` the payer's.
  unfoldable pub pass_query :
      Spelling N → Terms N → Parcel → ℕ → ℕ → Middle → Trade N → Outcome Middle N
  unfolding set_btc_address forward_item write_terms get_fiat_amount
  pass_query sp x item r q s t =
      let t1 = set_btc_address x.destination q (set_btc_address x.destination r t) in
      let k = t1.deal r in
      let terms = record x { fiat = get_fiat_amount k; btc = k.btc_amount } in
      returned success (record s { payee = some r; payer = some q })
        (forward_item item (write_terms sp terms) t1).1

  -- doQuery from the constructors of the contracts on, with the neighbours of the tunnel.
  unfoldable pub middle_contracts :
      Build
      → (N → N)
      → Spelling N
      → ℤ
      → Terms N
      → Parcel
      → Text × Text
      → Middle
      → Trade N
      → Outcome Middle N
  unfolding make_contract asked_contract vote_no_middle pass_query
  middle_contracts build stored sp now x item route s t =
      elim (make_contract build stored now (asked_contract x route.0) t) [
        | none ↦ vote_no_middle item s t
        | some (r, t1) ↦
            elim (make_contract build stored now
              (record (asked_contract x route.1) { party = sending }) t1) [
                | none ↦ vote_no_middle item (record s { payee = some r }) t1
                | some (q, t2) ↦ pass_query sp x item r q s t2
              ]
      ]

  -- doQuery where getTunnel gave a result and a pair.
  abbrev pub middle_route :
      Build
      → (N → N)
      → Spelling N
      → ℤ
      → Terms N
      → Parcel
      → RetVal × (Text × Text)
      → Middle
      → Trade N
      → Outcome Middle N
  middle_route build stored sp now x item (failure, route) s t = abort_middle item s t
  middle_route build stored sp now x item (success, route) s t =
      middle_contracts build stored sp now x item route s t
  middle_route build stored sp now x item (finish, route) s t =
      middle_contracts build stored sp now x item route s t

  -- TmContractCohorteHop::doQuery. boost's division by 0 throws what nothing catches.
  unfoldable pub middle_query :
      Build → (N → N) → Spelling N → ℤ → Parcel → Middle → Trade N → Outcome Middle N
  unfolding abort_middle mk_tunnel read_terms get_tunnel middle_contracts
  middle_query build stored sp now item s t =
      let t1 = mk_tunnel item t in
      let s1 = record s { phase = query } in
      if not (is_initial s.phase)
      then abort_middle item s t
      else elim (read_terms sp item.payload) [
        | none ↦ abort_middle item s1 t1
        | some x ↦
            if num.same x.btc num.nought
            then undefined
            else middle_route build stored sp now x item
                (get_tunnel item.address ([], []) t1.router) s1 t1
      ]

  -- TmContractCohorteHop::doCommit
  unfoldable pub middle_commit : Parcel → Middle → Trade N → Outcome Middle N
  unfolding abort_middle activate persist_deal forward_item
  middle_commit item s t =
      if not (is_vote_yes s.phase) then abort_middle item s t else elim s.payer [
        | none ↦ undefined
        | some q ↦ elim s.payee [
          | none ↦ undefined
          | some r ↦
              let t1 = persist_deal r (persist_deal q (activate r (activate q t))) in
              returned finish (record s { phase = order_commit })
                (forward_item item item.payload t1).1
        ]
      ]

  -- doVote where both contracts are there: `r` is the payee's and `q` the payer's.
  unfoldable pub middle_voted :
      Build → (N → N) → Vote N → Parcel → ℕ → ℕ → Middle → Trade N → Outcome Middle N
  unfolding abort_middle set_btc_tx_id set_deal_amount forward_item
  middle_voted build stored v item r q s t =
      let t1 = set_btc_tx_id v.voted_id r (set_btc_tx_id v.voted_id q t) in
      let t2 = set_deal_amount build stored v.voted r (set_deal_amount build stored v.voted q t1) in
      if (t1.deal q).btc_amount ≺ v.voted
      then abort_middle item s t1
      else returned success s (forward_item item item.payload t2).1

  -- doVote on the contracts that are there, the payer's and the payee's.
  unfoldable pub vote_with :
      Build → (N → N) → Vote N → Parcel → Middle → Trade N → Option ℕ → Option ℕ → Outcome Middle N
  unfolding middle_voted
  vote_with build stored v item s t none o = undefined
  vote_with build stored v item s t (some q) none = undefined
  vote_with build stored v item s t (some q) (some r) = middle_voted build stored v item r q s t

  -- doVote on the parts of the payload.
  unfoldable pub vote_payload :
      Build → (N → N) → Parcel → Middle → Trade N → Option (Vote N) → Outcome Middle N
  unfolding abort_middle vote_with
  vote_payload build stored item s t none = abort_middle item s t
  vote_payload build stored item s t (some v) = vote_with build stored v item s t s.payer s.payee

  -- TmContractCohorteHop::doVote
  unfoldable pub middle_vote :
      Build → (N → N) → Spelling N → Parcel → Middle → Trade N → Outcome Middle N
  unfolding abort_middle read_vote vote_payload
  middle_vote build stored sp item s t =
      if not (is_query s.phase)
      then abort_middle item s t
      else vote_payload build stored item (record s { phase = item.phase }) t
          (read_vote sp item.payload)

  -- TmContractCohorteHop::rollback
  abbrev pub rm_some : Build → (N → N) → Option ℕ → Trade N → Trade N
  rm_some build stored none t = t
  rm_some build stored (some r) t = rm_deal build stored r t

  unfoldable pub rollback_middle : Build → (N → N) → Middle → Trade N → Trade N
  unfolding rm_deal
  rollback_middle build stored s t = rm_some build stored s.payee (rm_some build stored s.payer t)

  -- TmContractCohorteHop::processItem
  unfoldable pub process_middle :
      Build → (N → N) → Spelling N → ℤ → Parcel → Middle → Trade N → Outcome Middle N
  unfolding middle_query middle_vote middle_commit forward_item rollback_middle
  process_middle build stored sp now item s t = elim item.phase [
    | query ↦ middle_query build stored sp now item s t
    | vote_no ↦ middle_vote build stored sp item s t
    | vote_yes ↦ middle_vote build stored sp item s t
    | order_commit ↦ middle_commit item s t
    | abort ↦
        returned failure s (rollback_middle build stored s (forward_item item item.payload t).1)
    | abort_request ↦
        returned (forward_item item item.payload t).0 s (forward_item item item.payload t).1
    | initial ↦ threw s t
    | ack_commit ↦ threw s t
  ]
