-- ===== src/Transactions/Local.antt =====
-- TmLocalCoordinator.cpp, TmLocalCohorte.cpp, the local handleTxItem of TransactionManager.cpp, and
-- RsZeroReserveInitTxItem of RSZeroReserveItems.cpp: a payment between two friends in two phases.
-- The service brings an item to the friend that it is addressed to and writes the sender's id on it.
pub mod Atomic
pub mod Mirrored
pub mod Network
pub mod Ends
pub mod Answers
pub mod Uncertain
pub mod Deliveries
pub mod OneSided
pub mod Complete
use zero_reserve.Base.{
  ℕ, zero, suc, Bool, true, false, List, [], ◌∷◌, ◌++◌, Option, none, some, Text,
}
use zero_reserve.Currency.{Build}
use zero_reserve.Number.{Number}
use zero_reserve.Orders.{RetVal, success, failure, finish}
use zero_reserve.Money.{
  Bank, Payment, Category, receiver, new_payment, set_counterparty, init, commit,
}

-- TransactionManager::TxPhase, less PHASE_NUMBER. INIT is `initial` and COMMIT is `order_commit`.
pub data TxPhase : Type 0 where
  initial query vote_yes vote_no order_commit ack_commit abort abort_request : TxPhase

-- What an init item carries of the payment.
pub record Offer (N : Type 0) : Type 0 where
  pub offer_amount : N
  pub offer_currency : Text
  pub offer_category : Category

-- RsZeroReserveTxItem; with an offer it is an RsZeroReserveInitTxItem.
pub record TxItem (N : Type 0) : Type 0 where
  pub phase : TxPhase
  pub peer_id : Text
  pub offer : Option (Offer N)

-- TmLocalCoordinator, and TmLocalCohorte with its phase and `m_payment`, `none` before it is set.
pub data Manager (N : Type 0) : Type 0 where
  coordinator : Payment N → Manager N
  cohort : TxPhase → Option (Payment N) → Manager N

-- One user: what `currentTX` holds for the transaction, the database, and the items to be sent.
pub record Node (N : Type 0) : Type 0 where
  pub own_id : Text
  pub manager : Option (Manager N)
  pub bank : Bank N
  pub sent : List (TxItem N)

-- A handler returns, or throws, or reads through a pointer that was never set.
pub data Outcome (N : Type 0) : Type 0 where
  returned : RetVal → Node N → Outcome N
  threw : Node N → Outcome N
  undefined : Outcome N

module _ {N : Type 0} where
  abbrev pub send_item : TxItem N → Node N → Node N
  send_item item node = record node { sent = node.sent ++ item ∷ [] }

  -- An answer to the payment's counterparty.
  abbrev pub reply : TxPhase → Payment N → TxItem N
  reply phase p = record { phase = phase; peer_id = p.account.id; offer = none }

  abbrev pub offer_of : Payment N → Offer N
  offer_of p = record {
    offer_amount = p.amount;
    offer_currency = p.account.currency;
    offer_category = p.category;
  }

  -- The item that opens the transaction.
  abbrev pub init_item : Payment N → TxItem N
  init_item p = record { phase = query; peer_id = p.account.id; offer = some (offer_of p) }

  -- TmLocalCohorte::abortTx
  unfoldable pub abort_cohort : Option (Payment N) → Node N → Outcome N
  abort_cohort none node = undefined
  abort_cohort (some p) node = returned failure (send_item (reply abort p) node)

module _ {N : Type 0} ⦃num : Number N⦄ where
  -- PaymentDialog::payTo and TmLocalCoordinator::init; a manager whose init fails is deleted.
  unfoldable pub pay_to : Payment N → Node N → Node N
  unfolding init
  pay_to p node = elim (init p) [
    | failure ↦ record node { manager = none }
    | _ ↦ send_item (init_item p) (record node { manager = some (coordinator p) })
  ]

  -- The constructor from received data, and getPayment.
  unfoldable pub get_payment : Build → Text → Offer N → Bank N → Option (Payment N)
  unfolding new_payment set_counterparty
  get_payment build peer o b =
      elim (new_payment build receiver [] o.offer_amount o.offer_currency o.offer_category b) [
        | none ↦ none
        | some p ↦ some (set_counterparty peer p b)
      ]

  -- The vote that TmLocalCohorte::init sends and what it returns.
  unfoldable pub vote : RetVal → Payment N → Node N → Outcome N
  vote failure p node = returned failure (send_item (reply vote_no p) node)
  vote success p node = returned success (send_item (reply vote_yes p) node)
  vote finish p node = returned success (send_item (reply vote_yes p) node)

  -- TmLocalCohorte::init
  unfoldable pub init_cohort : Payment N → Node N → Outcome N
  unfolding init vote
  init_cohort p node = vote (init p) p node

  -- TmLocalCoordinator::processItem and abortTx
  unfoldable pub process_coordinator : (N → N) → TxPhase → Payment N → Node N → Outcome N
  unfolding commit
  process_coordinator stored vote_yes p node =
      returned success (send_item (reply order_commit p) node)
  process_coordinator stored vote_no p node = returned failure node
  process_coordinator stored ack_commit p node =
      returned finish (record node { bank = (commit stored p node.bank).2 })
  process_coordinator stored abort p node = returned failure node
  process_coordinator stored initial p node = threw node
  process_coordinator stored query p node = threw node
  process_coordinator stored order_commit p node = threw node
  process_coordinator stored abort_request p node = threw node

  -- The phase QUERY. Where an item's data does not make a payment deserialise gives no item, so that nothing happens: no
  -- manager is left, and nothing is sent.
  unfoldable pub enter_query : Option (Payment N) → Node N → Outcome N
  unfolding init_cohort
  enter_query none node = returned failure node
  enter_query (some p) node = init_cohort p (record node { manager = some (cohort query (some p)) })

  -- TmLocalCohorte::processItem on QUERY.
  unfoldable pub process_query :
      Build → TxItem N → TxPhase → Option (Payment N) → Node N → Outcome N
  unfolding get_payment enter_query abort_cohort
  process_query build item initial m node = elim item.offer [
    | none ↦ abort_cohort m node
    | some o ↦ enter_query (get_payment build item.peer_id o node.bank) node
  ]
  process_query build item query m node = abort_cohort m node
  process_query build item vote_yes m node = abort_cohort m node
  process_query build item vote_no m node = abort_cohort m node
  process_query build item order_commit m node = abort_cohort m node
  process_query build item ack_commit m node = abort_cohort m node
  process_query build item abort m node = abort_cohort m node
  process_query build item abort_request m node = abort_cohort m node

  -- TmLocalCohorte::processItem on COMMIT, in the phase QUERY.
  unfoldable pub commit_cohort : (N → N) → Option (Payment N) → Node N → Outcome N
  unfolding commit
  commit_cohort stored none node = undefined
  commit_cohort stored (some p) node = returned finish (
      send_item (reply ack_commit p) (record node {
        manager = some (cohort order_commit (some p));
        bank = (commit stored p node.bank).2;
      }))

  unfoldable pub process_commit : (N → N) → TxPhase → Option (Payment N) → Node N → Outcome N
  unfolding commit_cohort abort_cohort
  process_commit stored query m node = commit_cohort stored m node
  process_commit stored initial m node = abort_cohort m node
  process_commit stored vote_yes m node = abort_cohort m node
  process_commit stored vote_no m node = abort_cohort m node
  process_commit stored order_commit m node = abort_cohort m node
  process_commit stored ack_commit m node = abort_cohort m node
  process_commit stored abort m node = abort_cohort m node
  process_commit stored abort_request m node = abort_cohort m node

  -- ABORT: the cohort is then deleted, and its destructor deletes `m_payment`, which nothing has set before a QUERY.
  unfoldable pub dropped_cohort : Option (Payment N) → Node N → Outcome N
  dropped_cohort none node = undefined
  dropped_cohort (some p) node = returned finish node

  -- TmLocalCohorte::processItem
  unfoldable pub process_cohort :
      Build → (N → N) → TxItem N → TxPhase → Option (Payment N) → Node N → Outcome N
  unfolding process_query process_commit dropped_cohort
  process_cohort build stored item at m node = elim item.phase [
    | query ↦ process_query build item at m node
    | order_commit ↦ process_commit stored at m node
    | abort ↦ dropped_cohort m node
    | _ ↦ threw node
  ]

  -- handleTxItem deletes the manager unless it returned ZR_SUCCESS.
  unfoldable pub clean_up : Outcome N → Outcome N
  clean_up (returned success node) = returned success node
  clean_up (returned failure node) = returned failure (record node { manager = none })
  clean_up (returned finish node) = returned finish (record node { manager = none })
  clean_up (threw node) = threw node
  clean_up undefined = undefined

  -- TransactionManager::handleTxItem on a local item.
  unfoldable pub handle_tx_item : Build → (N → N) → TxItem N → Node N → Outcome N
  unfolding clean_up process_coordinator process_cohort
  handle_tx_item build stored item node = clean_up (elim node.manager [
    | none ↦
        process_cohort build stored item initial none
          (record node { manager = some (cohort initial none) })
    | some (coordinator p) ↦ process_coordinator stored item.phase p node
    | some (cohort at m) ↦ process_cohort build stored item at m node
  ])

  -- Two nodes and the items between them, one delivered after the other.
  abbrev pub node_after : Node N → Outcome N → Node N
  node_after before (returned r node) = node
  node_after before (threw node) = node
  node_after before undefined = before

  unfoldable pub exchange : Build → (N → N) → ℕ → Node N → Node N → Node N × Node N
  unfolding handle_tx_item
  exchange build stored zero a b = (a, b)
  exchange build stored (suc n) a b = elim a.sent [
    | item ∷ rest ↦
        exchange build stored n (record a { sent = rest })
          (node_after b (handle_tx_item build stored (record item { peer_id = a.own_id }) b))
    | [] ↦ elim b.sent [
      | item ∷ rest ↦
          exchange build stored n
            (node_after a (handle_tx_item build stored (record item { peer_id = b.own_id }) a))
            (record b { sent = rest })
      | [] ↦ (a, b)
    ]
  ]
