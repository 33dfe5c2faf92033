-- ===== src/Transactions/Local/Complete.antt =====
-- A payment over a network that loses nothing, between users whose managers do not end: it completes.
use zero_reserve.Base.{
  ℕ, zero, suc, ◌+◌, true, List, [], ◌∷◌, ◌++◌, ◌≡◌, refl, Option, some, Text, arith, ap, ap₂, sym,
  subst, ◌∙◌,
}
use zero_reserve.Number.{Number}
use zero_reserve.Money.{init}
use zero_reserve.Transactions.Local.{
  Node, TxItem, get_payment, offer_of, handle_tx_item, init_item, reply, vote_yes, order_commit,
  ack_commit, cohort, coordinator, query, clean_up, process_coordinator, process_cohort,
  process_commit, commit_cohort,
}
use zero_reserve.Transactions.Local.Atomic.{idle, busy, accepts, pay_to-accepts}
use zero_reserve.Transactions.Local.Network.{received}
use zero_reserve.Transactions.Local.Ends.{Setting, taken, paid}
use zero_reserve.Transactions.Local.OneSided.{payer, payee, voted}

-- How far the payment is.
data Stage : Type 0 where
  opened answered ordered acknowledged completed : Stage

abbrev after : Stage → Stage
after opened = answered
after answered = ordered
after ordered = acknowledged
after acknowledged = completed
after completed = completed

abbrev to_go : Stage → ℕ
to_go opened = 4
to_go answered = 3
to_go ordered = 2
to_go acknowledged = 1
to_go completed = 0

module _ {A : Type 0} where
  none_in : {B : Type 0} (pre post : List A) (x : A) → [] ≡ pre ++ x ∷ post → B
  none_in [] post x e = cc
  none_in (y ∷ pre) post x e = cc

  only_one : (pre post : List A) (x y : A) → y ∷ [] ≡ pre ++ x ∷ post → (pre ++ post ≡ []) × (x ≡ y)
  only_one [] post x y e = ground arith
  only_one (z ∷ pre) post x y e = none_in pre post x (ground arith)

  of_some : {x y : A} → some x ≡ some y → x ≡ y
  of_some e = cc

module _ {N : Type 0} ⦃num : Number N⦄ (t : Setting N) (j : Text) where
  open t use {build, stored, i, a, b, p, q}

  -- The node after it has handled an item from `peer`.
  abbrev gets : Text → TxItem N → Node N → Option (Node N)
  gets peer item node = received (handle_tx_item build stored (record item { peer_id = peer }) node)

  gets-same :
      (peer : Text) (item item' : TxItem N) (node r y : Node N)
      → item ≡ item'
      → gets peer item' node ≡ some r
      → gets peer item node ≡ some y
      → y ≡ r
  gets-same peer item item' node r y same known h =
      of_some (sym h ∙ ap (λ (it : TxItem N). gets peer it node) same ∙ known)

  -- A node with nothing left to be delivered.
  emptied :
      (x : Node N) {s : List (TxItem N)}
      → s ≡ []
      → Path (Node N) (record x { sent = s }) (record x { sent = [] })
  emptied x e = ap (λ (s : List (TxItem N)). record x { sent = s }) e

  -- What so many deliveries lead to, of the payer's node and the payee's.
  pub data Delivered (x y : Node N) : ℕ → Node N → Node N → Type 0 where
    here : Delivered x y zero x y
    payee_gets :
        {n : ℕ} {x' y' : Node N} (pre post : List (TxItem N)) (item : TxItem N) (y'' : Node N)
        → Delivered x y n x' y'
        → x'.sent ≡ pre ++ item ∷ post
        → gets x'.own_id item y' ≡ some y''
        → Delivered x y (suc n) (record x' { sent = pre ++ post }) y''
    payer_gets :
        {n : ℕ} {x' y' : Node N} (pre post : List (TxItem N)) (item : TxItem N) (x'' : Node N)
        → Delivered x y n x' y'
        → y'.sent ≡ pre ++ item ∷ post
        → gets y'.own_id item x' ≡ some x''
        → Delivered x y (suc n) x'' (record y' { sent = pre ++ post })

  -- The nodes after so many deliveries.
  abbrev payer_at : Stage → Node N
  payer_at opened = busy build stored i (coordinator p) a (init_item p ∷ [])
  payer_at answered = busy build stored i (coordinator p) a []
  payer_at ordered = busy build stored i (coordinator p) a (reply order_commit p ∷ [])
  payer_at acknowledged = busy build stored i (coordinator p) a []
  payer_at completed = idle build stored i (paid t)

  abbrev payee_at : Stage → Node N
  payee_at opened = idle build stored j b
  payee_at answered = busy build stored j (cohort query (some q)) b (reply vote_yes q ∷ [])
  payee_at ordered = busy build stored j (cohort query (some q)) b []
  payee_at acknowledged = record (idle build stored j (taken t)) { sent = reply ack_commit q ∷ [] }
  payee_at completed = idle build stored j (taken t)

  module _ (eq : accepts build stored q ≡ true)
      (g : get_payment build i (offer_of p) b ≡ some q) where
    payee_stage :
        (s : Stage) (pre post : List (TxItem N)) (item : TxItem N) (y : Node N)
        → (payer_at s).sent ≡ pre ++ item ∷ post
        → gets (payer_at s).own_id item (payee_at s) ≡ some y
        → (suc (to_go (after s)) ≡ to_go s)
          × (record (payer_at s) { sent = pre ++ post } ≡ payer_at (after s))
          × (y ≡ payee_at (after s))
    unfolding handle_tx_item process_coordinator process_cohort process_commit commit_cohort
        clean_up
    payee_stage opened pre post item y e h =
        let (left, same) = only_one pre post item (init_item p) e in
        (
          refl,
          emptied (payer_at opened) left,
          gets-same i item _ (payee_at opened) _ y same (voted t j (init q) refl eq g) h,
        )
    payee_stage answered pre post item y e h = none_in pre post item e
    payee_stage ordered pre post item y e h =
        let (left, same) = only_one pre post item (reply order_commit p) e in
        (
          refl,
          emptied (payer_at ordered) left,
          gets-same i item _ (payee_at ordered) _ y same refl h,
        )
    payee_stage acknowledged pre post item y e h = none_in pre post item e
    payee_stage completed pre post item y e h = none_in pre post item e

    payer_stage :
        (s : Stage) (pre post : List (TxItem N)) (item : TxItem N) (x : Node N)
        → (payee_at s).sent ≡ pre ++ item ∷ post
        → gets (payee_at s).own_id item (payer_at s) ≡ some x
        → (suc (to_go (after s)) ≡ to_go s)
          × (x ≡ payer_at (after s))
          × (record (payee_at s) { sent = pre ++ post } ≡ payee_at (after s))
    unfolding handle_tx_item process_coordinator clean_up
    payer_stage opened pre post item x e h = none_in pre post item e
    payer_stage answered pre post item x e h =
        let (left, same) = only_one pre post item (reply vote_yes q) e in
        (
          refl,
          gets-same j item _ (payer_at answered) _ x same refl h,
          emptied (payee_at answered) left,
        )
    payer_stage ordered pre post item x e h = none_in pre post item e
    payer_stage acknowledged pre post item x e h =
        let (left, same) = only_one pre post item (reply ack_commit q) e in
        (
          refl,
          gets-same j item _ (payer_at acknowledged) _ x same refl h,
          emptied (payee_at acknowledged) left,
        )
    payer_stage completed pre post item x e h = none_in pre post item e

    -- The nodes stand at a stage, and the deliveries that were made and those to go are four.
    abbrev AtStage : ℕ → Node N → Node N → Type 0
    AtStage n x y = (s : Stage) × (n + to_go s ≡ 4) × (x ≡ payer_at s) × (y ≡ payee_at s)

    Delivered-AtStage :
        {n : ℕ} {x y : Node N} → Delivered (payer_at opened) (payee_at opened) n x y → AtStage n x y
    Delivered-AtStage here = (opened, refl, refl, refl)
    Delivered-AtStage (payee_gets {n} {x'} {y'} pre post item y d e h) =
        let (s, count, ex, ey) = Delivered-AtStage d in
        let (fewer, fx, fy) =
          payee_stage s pre post item y (ap (λ (x : Node N). x.sent) (sym ex) ∙ e)
            (ap₂ (λ (x y : Node N). gets x.own_id item y) (sym ex) (sym ey) ∙ h) in
        (
          after s,
          omega (arith, fewer, count),
          ap (λ (x : Node N). record x { sent = pre ++ post }) ex ∙ fx,
          fy,
        )
    Delivered-AtStage (payer_gets {n} {x'} {y'} pre post item x d e h) =
        let (s, count, ex, ey) = Delivered-AtStage d in
        let (fewer, fx, fy) =
          payer_stage s pre post item x (ap (λ (y : Node N). y.sent) (sym ey) ∙ e)
            (ap₂ (λ (x y : Node N). gets y.own_id item x) (sym ex) (sym ey) ∙ h) in
        (
          after s,
          omega (arith, fewer, count),
          fx,
          ap (λ (y : Node N). record y { sent = pre ++ post }) ey ∙ fy,
        )

    one_more :
        (s : Stage) {x y : Node N} {n : ℕ}
        → Delivered x y n (payer_at s) (payee_at s)
        → suc (to_go (after s)) ≡ to_go s
        → Delivered x y (suc n) (payer_at (after s)) (payee_at (after s))
    unfolding handle_tx_item process_coordinator process_cohort process_commit commit_cohort
        clean_up
    one_more opened d l = payee_gets [] [] (init_item p) _ d refl (voted t j (init q) refl eq g)
    one_more answered d l = payer_gets [] [] (reply vote_yes q) _ d refl refl
    one_more ordered d l = payee_gets [] [] (reply order_commit p) _ d refl refl
    one_more acknowledged d l = payer_gets [] [] (reply ack_commit q) _ d refl refl
    one_more completed d l = cc

    the_rest :
        (s : Stage)
        → Delivered (payer_at s) (payee_at s) (to_go s) (payer_at completed) (payee_at completed)
    the_rest opened =
        one_more acknowledged
          (one_more ordered (one_more answered (one_more opened here refl) refl) refl) refl
    the_rest answered =
        one_more acknowledged (one_more ordered (one_more answered here refl) refl) refl
    the_rest ordered = one_more acknowledged (one_more ordered here refl) refl
    the_rest acknowledged = one_more acknowledged here refl
    the_rest completed = here

    -- Where both ends accept the payment, whatever was delivered so far, at most four deliveries were possible, and the ones that
    -- are left of four lead on to a state where both databases have it and nothing is under way.
    pub pay_to-completes :
        {n : ℕ} {x y : Node N}
        → accepts build stored p ≡ true
        → Delivered (payer t j) (payee t j) n x y
        → (left : ℕ) × (n + left ≡ 4)
          × Delivered x y left (idle build stored i (paid t)) (idle build stored j (taken t))
    pay_to-completes {n} {x} {y} ep d =
        let (s, count, ex, ey) = Delivered-AtStage (
          subst (λ (z : Node N). Delivered z (payee t j) n x y)
            (pay_to-accepts build stored p i a ep) d) in
        (
          to_go s,
          count,
          subst (λ (z : Node N). Delivered z y (to_go s) (payer_at completed) (payee_at completed))
              (sym ex)
              (subst
                (λ (z : Node N).
                  Delivered (payer_at s) z (to_go s) (payer_at completed) (payee_at completed))
                (sym ey) (the_rest s)),
        )
