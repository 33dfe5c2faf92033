-- ===== src/Contracts.antt =====
-- BtcContract.h and BtcContract.cpp: the contracts between friends that pay out once a Bitcoin
-- transaction is confirmed. `contracts` is the static list of that name, with the contracts themselves
-- in place of the pointers. The clock is an argument, and the number of confirmations of a transaction
-- is a parameter, since ZR::Bitcoin asks an outside program for it. The SQL statements succeed.
pub mod Reserve
pub mod Settle
pub mod Polling
pub mod StartUp
mod Tests
use zero_reserve.Base.{
  ℕ, Bool, true, false, List, [], ◌∷◌, ◌++◌, Option, none, some, Text, text_eq, is_empty, keep, not,
  leb, ◌==◌, ◌&&◌, if◌then◌else◌,
}
use zero_reserve.Base.Int.{ℤ, pos, ◌-ℤ◌, ltb_ℤ, eqb_ℤ}
use zero_reserve.Currency.{Build, testnet, main}
use zero_reserve.Number.{Number, ◌⊕◌, ◌⊖◌, ◌⊗◌, ◌⊘◌, ◌≺◌}
use zero_reserve.Orders.{RetVal, failure}
use zero_reserve.Money.{
  Credit, Bank, Payment, Role, receiver, spender, payment, new_credit, new_payment, load_peer,
  get_peer_available, allocate, deallocate, init, commit,
}

-- BtcContract::Party
pub data Party : Type 0 where
  receiving sending : Party

abbrev pub is_receiver : Party → Bool
is_receiver receiving = true
is_receiver sending = false

-- class BtcContract
pub record BtcContract (N : Type 0) : Type 0 where
  pub btc_tx_id : Text
  pub btc_amount : N
  pub price : N
  pub currency_sym : Text
  pub party : Party
  pub counter_party : Text
  pub activated : Bool
  pub dest_address : Text
  pub creation_time : ℤ
  pub fee : N

-- The accounts, the contracts, and the rows of the table `btccontracts`.
pub record Vault (N : Type 0) : Type 0 where
  pub bank : Bank N
  pub contracts : List (BtcContract N)
  pub rows : List (BtcContract N)

-- BtcContract::reqConfirmations
unfoldable pub req_confirmations : Build → ℕ
req_confirmations testnet = 2
req_confirmations main = 6

-- One day, in milliseconds.
abbrev pub contract_timeout : ℤ
contract_timeout = pos 86400000

-- Two parties are equal.
abbrev pub same_party : Party → Party → Bool
same_party receiving receiving = true
same_party receiving sending = false
same_party sending receiving = false
same_party sending sending = true

module _ {N : Type 0} where
  -- ZrDB::rmBtcContract
  unfoldable pub rm_btc_contract : Text → Party → List (BtcContract N) → List (BtcContract N)
  rm_btc_contract id p rows = keep (λ c. not (text_eq c.btc_tx_id id && same_party c.party p)) rows

  -- The removal from the table that poll and rmContract do unless the id is empty.
  unfoldable pub forget : BtcContract N → List (BtcContract N) → List (BtcContract N)
  unfolding rm_btc_contract
  forget c rows = if is_empty c.btc_tx_id then rows else rm_btc_contract c.btc_tx_id c.party rows

  -- BtcContract::persist
  unfoldable pub persist : BtcContract N → Vault N → Vault N
  persist c v = record v { rows = v.rows ++ c ∷ [] }

module _ {N : Type 0} ⦃num : Number N⦄ where
  -- BtcContract::getFiatAmount
  unfoldable pub get_fiat_amount : BtcContract N → N
  get_fiat_amount c = c.btc_amount ⊗ c.price

  -- The amount of money that the constructor reserves for a receiver, out of what is available.
  unfoldable pub fiat_within : N → N → N → N
  fiat_within available fee fiat = if available ≺ fiat ⊕ fee then available ⊖ fee else fiat

  -- The Bitcoins that are bought with it.
  unfoldable pub btc_within : N → N → N → N → N
  btc_within available fee price btc =
      if available ≺ (btc ⊗ price) ⊕ fee then (available ⊖ fee) ⊘ price else btc

  -- The constructor's check of the account of a receiver; `none` where it throws.
  unfoldable pub reserve :
      Build → (N → N) → BtcContract N → Bank N → Option (BtcContract N × Bank N)
  unfolding new_credit load_peer get_peer_available fiat_within btc_within get_fiat_amount allocate
  reserve build stored k b = elim (new_credit build k.counter_party k.currency_sym) [
    | none ↦ none
    | some c0 ↦
        let c = load_peer b.peers c0 in
        let free = get_peer_available c in
        if not (k.fee ≺ free)
        then none
        else some (
          record k { btc_amount = btc_within free k.fee k.price k.btc_amount },
          (allocate stored (fiat_within free k.fee (get_fiat_amount k)) c b).2,
        )
  ]

  -- The constructor of class BtcContract on a contract with the fields that it is called with, where
  -- `creation_time` 0 stands for a new one.
  unfoldable pub new_contract :
      Build → (N → N) → ℤ → BtcContract N → Vault N → Option (BtcContract N × Vault N)
  unfolding reserve
  new_contract build stored now k v =
      let fresh = record k { creation_time = now } in
      if not (eqb_ℤ k.creation_time (pos 0))
      then some (k, record v { contracts = v.contracts ++ k ∷ [] })
      else if is_receiver k.party
      then elim (reserve build stored fresh v.bank) [
        | none ↦ none
        | some (c, b) ↦ some (c, record v { bank = b; contracts = v.contracts ++ c ∷ [] })
      ]
      else some (fresh, record v { contracts = v.contracts ++ fresh ∷ [] })

  -- BtcContract::deallocateFunds; `none` where the constructor of Credit throws.
  unfoldable pub deallocate_funds : Build → (N → N) → BtcContract N → N → Bank N → Option (Bank N)
  unfolding new_credit load_peer deallocate
  deallocate_funds build stored k a b = elim (new_credit build k.counter_party k.currency_sym) [
    | none ↦ none
    | some c ↦ some (deallocate stored a (load_peer b.peers c) b).1
  ]

  -- The accounts after deallocateFunds on a receiver's contract that the running program made: its constructor has looked
  -- the currency up, so that nothing throws.
  unfoldable pub released : Build → (N → N) → BtcContract N → N → Bank N → Bank N
  unfolding deallocate_funds
  released build stored k a b = elim (deallocate_funds build stored k a b) [
    | none ↦ b
    | some b' ↦ b'
  ]

  -- BtcContract::setBtcAmount
  unfoldable pub set_btc_amount :
      Build → (N → N) → N → BtcContract N → Bank N → BtcContract N × Bank N
  unfolding get_fiat_amount released
  set_btc_amount build stored a k b =
      let k' = record k { btc_amount = a } in
      (
        k',
        if is_receiver k.party
            then released build stored k (get_fiat_amount k ⊖ get_fiat_amount k') b
            else b,
      )

  -- A payment that is committed if init lets it through; `none` where its constructor throws.
  unfoldable pub pay : Build → (N → N) → Role → BtcContract N → Bank N → Option (Bank N)
  unfolding new_payment init commit get_fiat_amount
  pay build stored role k b =
      elim (new_payment build role k.counter_party (get_fiat_amount k) k.currency_sym payment b) [
        | none ↦ none
        | some p ↦ some (elim (init p) [ failure ↦ b | _ ↦ (commit stored p b).2 ])
      ]

  -- BtcContract::execute; `none` where an exception leaves it, before it has changed anything.
  unfoldable pub execute : Build → (N → N) → BtcContract N → Bank N → Option (Bank N)
  unfolding pay deallocate_funds get_fiat_amount
  execute build stored k b =
      if is_receiver k.party
      then elim (deallocate_funds build stored k (get_fiat_amount k) b) [
        | none ↦ none
        | some b' ↦ pay build stored receiver k b'
      ]
      else pay build stored spender k b

  -- BtcContract::poll; `none` where the exception of execute leaves it. The tables are as this program sees them, whose own
  -- statements they show at once, so that beginTx and commitTx do not change them.
  unfoldable pub poll :
      Build → (N → N) → (Text → ℕ) → ℤ → BtcContract N → Vault N → Option (Bool × Vault N)
  unfolding forget execute req_confirmations
  poll build stored confirmations now k v =
      if ltb_ℤ contract_timeout (now -ℤ k.creation_time)
      then some (true, record v { rows = forget k v.rows })
      else if not k.activated
      then some (false, v)
      else if leb (req_confirmations build) (confirmations k.btc_tx_id)
      then elim (execute build stored k v.bank) [
        | none ↦ none
        | some b ↦ some (true, record v { bank = b; rows = forget k v.rows })
      ]
      else some (false, v)

  -- BtcContract::pollContracts: the loop, with whether an exception leaves it and the contracts that are then in the list.
  unfoldable pub poll_each :
      Build
      → (N → N)
      → (Text → ℕ)
      → ℤ
      → List (BtcContract N)
      → Vault N
      → Bool × List (BtcContract N) × Vault N
  unfolding poll
  poll_each build stored confirmations now [] v = (false, [], v)
  poll_each build stored confirmations now (k ∷ ks) v =
      elim (poll build stored confirmations now k v) [
        | none ↦ (true, k ∷ ks, v)
        | some (done, v') ↦
            let (threw, left, v'') = poll_each build stored confirmations now ks v' in
            (threw, if done then left else k ∷ left, v'')
      ]

  unfoldable pub poll_contracts : Build → (N → N) → (Text → ℕ) → ℤ → Vault N → Bool × Vault N
  unfolding poll_each
  poll_contracts build stored confirmations now v =
      let (threw, left, v') = poll_each build stored confirmations now v.contracts v in
      (threw, record v' { contracts = left })

  -- BtcContract::rmContract: the loop over the list.
  unfoldable pub rm_each :
      Build
      → (N → N)
      → BtcContract N
      → List (BtcContract N)
      → Vault N
      → List (BtcContract N) × Vault N
  unfolding forget released get_fiat_amount
  rm_each build stored k [] v = ([], v)
  rm_each build stored k (c ∷ cs) v =
      let (left, v') = rm_each build stored k cs v in
      if text_eq c.counter_party k.counter_party && text_eq c.btc_tx_id k.btc_tx_id
      then (
        cs,
        record v {
          rows = forget k v.rows;
          bank =
              if is_receiver k.party
              then released build stored c (get_fiat_amount c) v.bank
              else v.bank;
        },
      )
      else (c ∷ left, v')

  unfoldable pub rm_contract : Build → (N → N) → BtcContract N → Vault N → Vault N
  unfolding rm_each
  rm_contract build stored k v =
      let (left, v') = rm_each build stored k v.contracts v in record v' { contracts = left }
