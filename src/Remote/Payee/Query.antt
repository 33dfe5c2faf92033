-- ===== src/Remote/Payee/Query.antt =====
-- TmContract.cpp, TmContractCohortePayee: its state, and how it answers a QUERY.
use zero_reserve.Base.{
  ℕ, Bool, true, false, [], Option, none, some, Text, text_eq, codes, not, if◌then◌else◌,
}
use zero_reserve.Base.Int.{ℤ, pos}
use zero_reserve.Currency.{Build, symbol_of}
use zero_reserve.Number.{Number, ◌⊕◌, ◌⊖◌, ◌⊘◌, ◌≺◌}
use zero_reserve.Orders.{success, finish, find}
use zero_reserve.Transactions.Local.{TxPhase, initial, query, vote_yes, vote_no, abort_request}
use zero_reserve.Contracts.{BtcContract, receiving}
use zero_reserve.Wire.Items.{Spelling}
use zero_reserve.Remote.{
  Parcel, Trade, Outcome, returned, undefined, client, post, write_order, make_contract,
  set_deal_amount, set_btc_tx_id, set_btc_address,
}
use zero_reserve.Remote.Terms.{Terms, read_terms, write_vote}

-- `m_Phase`, `m_myOrder`, which the constructor leaves unset, `m_payee` and `m_txHex`
pub record Seller : Type 0 where
  pub phase : TxPhase
  pub my_order : Option ℕ
  pub payee : Option ℕ
  pub tx_hex : Text

-- What mkRawTx leaves: whether it succeeded, the raw transaction and its id, and the order's address, which it sets to
-- that of the change where there is any.
pub record RawTx : Type 0 where
  pub made : Bool
  pub hex : Text
  pub raw_id : Text
  pub own_address : Text

-- A phase is the one that a handler asks for.
abbrev pub is_initial : TxPhase → Bool
is_initial initial = true
is_initial _ = false

abbrev pub is_query : TxPhase → Bool
is_query query = true
is_query _ = false

-- TransactionManager and TmContractCohortePayee, the constructors
abbrev pub new_seller : Seller
new_seller = record { phase = initial; my_order = none; payee = none; tx_hex = [] }

-- An answer to the item's sender, on the way to the buyer.
abbrev pub to_buyer : TxPhase → Text → Text → Parcel → Parcel
to_buyer phase address payload item = record {
  peer = item.peer;
  address = address;
  phase = phase;
  direction = client;
  payer_id = item.payer_id;
  payload = payload;
}

-- "0/1:VOTE_NO"
abbrev pub no_vote : Text
no_vote = codes "0/1:VOTE_NO"

module _ {N : Type 0} where
  -- TmContractCohortePayee::abortTx
  unfoldable pub abort_seller : Parcel → Seller → Trade N → Outcome Seller N
  abort_seller item s t = elim s.my_order [
    | none ↦ undefined
    | some q ↦
        returned success (record s { phase = abort_request })
          (post (to_buyer abort_request (t.desk.heap q).order_id [] item) t)
  ]

  -- TmContractCohortePayee::voteNo, with the user's order
  unfoldable pub vote_no_seller : Parcel → ℕ → Seller → Trade N → Outcome Seller N
  vote_no_seller item q s t =
      returned finish s (post (to_buyer vote_no (t.desk.heap q).order_id no_vote item) t)

module _ {N : Type 0} ⦃num : Number N⦄ where
  -- The contract that doQuery makes.
  unfoldable pub asked_contract : Terms N → Text → BtcContract N
  asked_contract x peer = record {
    btc_tx_id = [];
    btc_amount = x.btc;
    price = x.fiat ⊘ x.btc;
    currency_sym = x.symbol;
    party = receiving;
    counter_party = peer;
    activated = false;
    dest_address = [];
    creation_time = pos 0;
    fee = x.fee;
  }

  -- doQuery where the amount of the contract `r` is to be committed out of what is left of the order `q`:
  -- the contract and the order after it.
  unfoldable pub commit_part : Build → (N → N) → ℕ → ℕ → Trade N → Trade N
  unfolding set_deal_amount
  commit_part build stored q r t =
      let o = t.desk.heap q in
      let leftover = o.amount ⊖ o.commitment in
      let btc = (t.deal r).btc_amount in
      if leftover ≺ btc
      then set_deal_amount build stored leftover r
          (write_order q (record o { commitment = o.amount }) t)
      else write_order q (record o { commitment = o.commitment ⊕ btc }) t

  -- What mkRawTx does to the order.
  unfoldable pub set_own_address : Text → ℕ → Trade N → Trade N
  set_own_address address q t = write_order q (record (t.desk.heap q) { btc_addr = address }) t

  -- doQuery behind mkRawTx, where it succeeded.
  unfoldable pub send_vote :
      Spelling N → RawTx → Terms N → Parcel → ℕ → ℕ → Seller → Trade N → Outcome Seller N
  unfolding set_btc_address set_btc_tx_id write_vote
  send_vote sp raw x item q r s t =
      let t1 = set_btc_tx_id raw.raw_id r (set_btc_address x.destination r t) in
      returned success s (
        post
          (to_buyer vote_yes (t1.desk.heap q).order_id
            (write_vote sp (record { voted = (t1.deal r).btc_amount; voted_id = raw.raw_id })) item)
          t1)

  -- doQuery behind that, with what mkRawTx leaves.
  unfoldable pub answer_query :
      Spelling N → RawTx → Terms N → Parcel → ℕ → ℕ → Seller → Trade N → Outcome Seller N
  unfolding abort_seller set_own_address send_vote
  answer_query sp raw x item q r s t =
      let s1 = record s { tx_hex = raw.hex } in
      let t1 = set_own_address raw.own_address q t in
      if raw.made then send_vote sp raw x item q r s1 t1 else abort_seller item s1 t1

  -- doQuery where the contract `r` was made, with the symbol of the order's currency. `mk_raw_tx` gets the
  -- amount and the two addresses.
  unfoldable pub query_checks :
      Build
      → (N → N)
      → Spelling N
      → (N → Text → Text → RawTx)
      → Terms N
      → Parcel
      → ℕ
      → ℕ
      → Seller
      → Trade N
      → Option Text
      → Outcome Seller N
  unfolding abort_seller vote_no_seller commit_part answer_query
  query_checks build stored sp mk_raw_tx x item q r s t none = undefined
  query_checks build stored sp mk_raw_tx x item q r s t (some symbol) =
      let o = t.desk.heap q in
      let t1 = commit_part build stored q r t in
      if not (text_eq symbol x.symbol)
      then abort_seller item s t
      else if (x.fiat ⊘ x.btc) ≺ o.price
      then vote_no_seller item q s t
      else if num.same (o.amount ⊖ o.commitment) num.nought
      then vote_no_seller item q s t
      else answer_query sp (mk_raw_tx (t1.deal r).btc_amount o.btc_addr x.destination) x item q r s
          t1

  -- doQuery behind the constructor of the contract.
  unfoldable pub query_deal :
      Build
      → (N → N)
      → Spelling N
      → (N → Text → Text → RawTx)
      → Terms N
      → Parcel
      → ℕ
      → Seller
      → Trade N
      → Option (ℕ × Trade N)
      → Outcome Seller N
  unfolding vote_no_seller query_checks symbol_of
  query_deal build stored sp mk_raw_tx x item q s t none = vote_no_seller item q s t
  query_deal build stored sp mk_raw_tx x item q s t (some (r, t1)) =
      query_checks build stored sp mk_raw_tx x item q r (record s { payee = some r }) t1
        (symbol_of build (t1.desk.heap q).currency)

  -- doQuery on the terms, where there are five parts. boost's division by 0 throws what nothing catches.
  unfoldable pub query_terms :
      Build
      → (N → N)
      → Spelling N
      → ℤ
      → (N → Text → Text → RawTx)
      → Parcel
      → ℕ
      → Seller
      → Trade N
      → Option (Terms N)
      → Outcome Seller N
  unfolding abort_seller make_contract asked_contract query_deal
  query_terms build stored sp now mk_raw_tx item q s t none = abort_seller item s t
  query_terms build stored sp now mk_raw_tx item q s t (some x) =
      if num.same x.btc num.nought
      then undefined
      else query_deal build stored sp mk_raw_tx x item q s t
          (make_contract build stored now (asked_contract x item.peer) t)

  -- doQuery on the order, where there is one.
  unfoldable pub query_found :
      Build
      → (N → N)
      → Spelling N
      → ℤ
      → (N → Text → Text → RawTx)
      → Parcel
      → Seller
      → Trade N
      → Option ℕ
      → Outcome Seller N
  unfolding read_terms query_terms
  query_found build stored sp now mk_raw_tx item s t none = undefined
  query_found build stored sp now mk_raw_tx item s t (some q) =
      query_terms build stored sp now mk_raw_tx item q
        (record s { phase = query; my_order = some q }) t (read_terms sp item.payload)

  -- TmContractCohortePayee::doQuery
  unfoldable pub seller_query :
      Build
      → (N → N)
      → Spelling N
      → ℤ
      → (N → Text → Text → RawTx)
      → Parcel
      → Seller
      → Trade N
      → Outcome Seller N
  unfolding abort_seller find query_found
  seller_query build stored sp now mk_raw_tx item s t =
      if not (is_initial s.phase)
      then abort_seller item s t
      else query_found build stored sp now mk_raw_tx item s t
          (find t.desk.heap t.desk.my_book.orders item.address)
