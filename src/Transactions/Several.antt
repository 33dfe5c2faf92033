-- ===== src/Transactions/Several.antt =====
-- TransactionManager::currentTX with several local transactions, TmLocalCoordinator::mkId, and TransactionManager::timeout. A
-- handler works on its own manager, as in Transactions/Local.
use zero_reserve.Base.{
  ℕ, zero, suc, ◌+◌, ◌/◌, ◌%◌, ◌^◌, Bool, List, [], ◌∷◌, ◌++◌, Option, none, some, Text, map, ltb,
  if◌then◌else◌,
}
use zero_reserve.Base.Int.{ℤ, pos, ◌-ℤ◌, ltb_ℤ}
use zero_reserve.Base.Dict.{Dict, lookup, assign, without}
use zero_reserve.Currency.{Build}
use zero_reserve.Number.{Number}
use zero_reserve.Money.{Bank, Payment}
use zero_reserve.Transactions.Local.{
  Node, Manager, TxItem, Outcome, returned, threw, undefined, handle_tx_item, pay_to,
}

-- An unsigned number as operator<< writes it; the fuel is more than the number.
unfoldable pub decimal : ℕ → ℕ → Text
decimal zero n = []
decimal (suc fuel) n =
    let front = decimal fuel (n / 10) in
    if ltb n 10 then (48 + n) ∷ [] else front ++ (48 + n % 10) ∷ []

-- TmLocalCoordinator::mkId, with the sequence after it is raised. 58 is the colon.
unfoldable pub mk_id : Text → ℕ → Text
unfolding decimal
mk_id own n = own ++ 58 ∷ decimal (suc n) n

-- TransactionManager::isTimedOut
unfoldable pub is_timed_out : ℤ → ℤ → Bool
is_timed_out now start = ltb_ℤ (pos 60000) (now -ℤ start)

module _ {V : Type 0} where
  -- TransactionManager::timeout, by the managers' m_startOfPhase. Deleting a manager erases the entry that the iterator
  -- stands on, which is undefined behaviour: `none`.
  unfoldable pub timeout_managers : ℤ → (Text → ℤ) → Dict V → Option (Dict V)
  unfolding is_timed_out
  timeout_managers now start [] = some []
  timeout_managers now start ((id, m) ∷ ms) =
      let rest = timeout_managers now start ms in
      if is_timed_out now (start id)
      then none
      else elim rest [ none ↦ none | some ms' ↦ some ((id, m) ∷ ms') ]

-- One user: what the program keeps and sends. An item that is sent goes with the id of its transaction.
pub record Ledger (N : Type 0) : Type 0 where
  pub owner : Text
  pub sequence : ℕ
  pub managers : Dict (Manager N)
  pub bank : Bank N
  pub sent : List (Text × TxItem N)

module _ {N : Type 0} where
  -- The user as one manager has it, and what it leaves.
  unfoldable pub node_of : Text → Ledger N → Node N
  unfolding lookup
  node_of id l = record {
    own_id = l.owner;
    manager = lookup l.managers id;
    bank = l.bank;
    sent = [];
  }

  unfoldable pub kept_managers : Text → Option (Manager N) → Dict (Manager N) → Dict (Manager N)
  unfolding assign without
  kept_managers id none m = without m id
  kept_managers id (some x) m = assign m id x

  unfoldable pub after_node : Text → Ledger N → Node N → Ledger N
  unfolding kept_managers
  after_node id l node = record l {
    managers = kept_managers id node.manager l.managers;
    bank = node.bank;
    sent = l.sent ++ map (λ (item : TxItem N). (id, item)) node.sent;
  }

  unfoldable pub after_outcome : Text → Ledger N → Outcome N → Option (Ledger N)
  unfolding after_node
  after_outcome id l (returned r node) = some (after_node id l node)
  after_outcome id l (threw node) = some (after_node id l node)
  after_outcome id l undefined = none

module _ {N : Type 0} ⦃num : Number N⦄ where
  -- TransactionManager::handleTxItem on an item of the transaction `id`; `none` is undefined behaviour.
  unfoldable pub handle_local_item :
      Build → (N → N) → Text → TxItem N → Ledger N → Option (Ledger N)
  unfolding handle_tx_item node_of after_outcome
  handle_local_item build stored id item l =
      after_outcome id l (handle_tx_item build stored item (node_of id l))

  -- PaymentDialog::payTo behind the constructor of the payment.
  unfoldable pub start_payment : Payment N → Ledger N → Ledger N
  unfolding mk_id pay_to node_of after_node
  start_payment p l =
      let n = (l.sequence + 1) % 2 ^ 32 in
      let id = mk_id l.owner n in
      after_node id (record l { sequence = n }) (pay_to p (node_of id l))
