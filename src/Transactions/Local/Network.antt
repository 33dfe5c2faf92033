-- ===== src/Transactions/Local/Network.antt =====
-- The same payment over a network that loses items and brings them in any order, between users whose managers
-- can end at any time: when they time out, or when the program is started again, since only the database is kept.
use zero_reserve.Base.{List, ◌∷◌, ◌++◌, ◌≡◌, Option, none, some}
use zero_reserve.Currency.{Build}
use zero_reserve.Number.{Number}
use zero_reserve.Transactions.Local.{
  Node, TxItem, Outcome, returned, threw, undefined, handle_tx_item,
}

-- The node after a handler; `none` where its behaviour is undefined.
abbrev pub received : {N : Type 0} → Outcome N → Option (Node N)
received (returned r node) = some node
received (threw node) = some node
received undefined = none

module _ {N : Type 0} ⦃num : Number N⦄ (build : Build) (stored : N → N) where
  -- The payer's node and the payee's, and the two after one step. No step follows undefined behaviour.
  pub data Step (x y : Node N) : Node N → Node N → Type 0 where
    to_payee :
        (pre post : List (TxItem N)) (item : TxItem N) (y' : Node N)
        → x.sent ≡ pre ++ item ∷ post
        → received (handle_tx_item build stored (record item { peer_id = x.own_id }) y) ≡ some y'
        → Step x y (record x { sent = pre ++ post }) y'
    to_payer :
        (pre post : List (TxItem N)) (item : TxItem N) (x' : Node N)
        → y.sent ≡ pre ++ item ∷ post
        → received (handle_tx_item build stored (record item { peer_id = y.own_id }) x) ≡ some x'
        → Step x y x' (record y { sent = pre ++ post })
    lost_to_payee :
        (pre post : List (TxItem N)) (item : TxItem N)
        → x.sent ≡ pre ++ item ∷ post
        → Step x y (record x { sent = pre ++ post }) y
    lost_to_payer :
        (pre post : List (TxItem N)) (item : TxItem N)
        → y.sent ≡ pre ++ item ∷ post
        → Step x y x (record y { sent = pre ++ post })
    payer_ends : Step x y (record x { manager = none }) y
    payee_ends : Step x y x (record y { manager = none })

  -- What any number of steps lead to.
  pub data Reach (x y : Node N) : Node N → Node N → Type 0 where
    here : Reach x y x y
    next : {x' y' x'' y'' : Node N} → Reach x y x' y' → Step x' y' x'' y'' → Reach x y x'' y''
