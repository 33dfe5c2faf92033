-- ===== src/Transactions/Local/Atomic.antt =====
-- A payment between two friends is booked at both ends or at neither.
use zero_reserve.Base.{
  ℕ, zero, suc, Bool, true, false, List, [], ◌∷◌, ◌≡◌, refl, Option, none, some, Text, ◌&&◌,
  if◌then◌else◌, ◌⊎◌, inl, inr, Bool-cases, ap, ◌∙◌,
}
use zero_reserve.Currency.{Build}
use zero_reserve.Number.{Number}
use zero_reserve.Orders.{RetVal, success, failure, finish}
use zero_reserve.Money.{Bank, Payment, init, commit}
use zero_reserve.Transactions.Local.{
  Node, TxItem, Manager, pay_to, get_payment, exchange, handle_tx_item, process_cohort,
  process_query, enter_query, vote, initial, process_coordinator, process_commit, commit_cohort,
  init_cohort, clean_up, offer_of, init_item, node_after, returned, coordinator, cohort, query,
  vote_yes, vote_no, order_commit, ack_commit, Outcome, reply,
}

abbrev pub not_failure : RetVal → Bool
not_failure failure = false
not_failure success = true
not_failure finish = true

module _ {N : Type 0} ⦃num : Number N⦄ (build : Build) (stored : N → N) where
  -- init of the payment does not fail.
  abbrev pub accepts : Payment N → Bool
  accepts p = not_failure (init p)

  -- No transaction is under way and no item is on its way.
  abbrev pub idle : Text → Bank N → Node N
  idle i b = record { own_id = i; manager = none; bank = b; sent = [] }

  init-cases : (p : Payment N) → (init p ≡ failure) ⊎ (init p ≡ success) ⊎ (init p ≡ finish)
  init-cases p = elim (init p) as (λ r. (r ≡ failure) ⊎ (r ≡ success) ⊎ (r ≡ finish)) [
    | failure ↦ inl refl
    | success ↦ inr (inl refl)
    | finish ↦ inr (inr refl)
  ]

  abbrev pub busy : Text → Manager N → Bank N → List (TxItem N) → Node N
  busy i m b s = record { own_id = i; manager = some m; bank = b; sent = s }

  from_a :
      (n : ℕ) (a b : Node N) (item : TxItem N)
      → exchange build stored (suc n) (record a { sent = item ∷ [] }) b
        ≡ exchange build stored n
            (record a { sent = [] })
            (node_after b (handle_tx_item build stored (record item { peer_id = a.own_id }) b))
  unfolding exchange
  from_a n a b item = refl

  from_b :
      (n : ℕ) (a b : Node N) (item : TxItem N)
      → exchange build stored (suc n) (record a { sent = [] }) (record b { sent = item ∷ [] })
        ≡ exchange build stored n
            (node_after
              (record a { sent = [] })
              (handle_tx_item build stored
                (record item { peer_id = b.own_id })
                (record a { sent = [] })))
            (record b { sent = [] })
  unfolding exchange
  from_b n a b item = refl

  quiet :
      (n : ℕ) (i j : Text) (a b : Bank N)
      → exchange build stored n (idle i a) (idle j b) ≡ (idle i a, idle j b)
  unfolding exchange
  quiet zero i j a b = refl
  quiet (suc n) i j a b = refl

  pub pay_to-accepts :
      (p : Payment N) (i : Text) (a : Bank N)
      → accepts p ≡ true
      → pay_to p (idle i a) ≡ busy i (coordinator p) a (init_item p ∷ [])
  unfolding pay_to
  pay_to-accepts p i a e = elim (init-cases p) [
    | inl f ↦ cc (ap not_failure f)
    | inr (inl f) ↦ rw (pay_to, f) refl
    | inr (inr f) ↦ rw (pay_to, f) refl
  ]

  pub pay_to-declines :
      (p : Payment N) (i : Text) (a : Bank N) → accepts p ≡ false → pay_to p (idle i a) ≡ idle i a
  unfolding pay_to
  pay_to-declines p i a e = elim (init-cases p) [
    | inl f ↦ rw (pay_to, f) refl
    | inr (inl f) ↦ cc (ap not_failure f)
    | inr (inr f) ↦ cc (ap not_failure f)
  ]

  -- The node of the receiver once its manager is set up.
  abbrev pub asked : Text → Bank N → Payment N → Node N
  asked j b q = busy j (cohort query (some q)) b []

  pub query-vote :
      (i j : Text) (b : Bank N) (p q : Payment N) (r : RetVal)
      → get_payment build i (offer_of p) b ≡ some q
      → init q ≡ r
      → handle_tx_item build stored (record (init_item p) { peer_id = i }) (idle j b)
        ≡ clean_up (vote r q (asked j b q))
  unfolding handle_tx_item process_cohort process_query enter_query init_cohort
  query-vote i j b p q r g e =
      ap (λ (x : Option (Payment N)). clean_up (enter_query x (busy j (cohort initial none) b [])))
        g
      ∙ ap (λ (x : RetVal). clean_up (vote x q (asked j b q))) e

  -- The rest of the exchange after a vote for no, and after a vote for yes.
  refused :
      (i j : Text) (a b : Bank N) (p q : Payment N)
      → get_payment build i (offer_of p) b ≡ some q
      → init q ≡ failure
      → exchange build stored 4 (busy i (coordinator p) a (init_item p ∷ [])) (idle j b)
        ≡ (idle i a, idle j b)
  unfolding handle_tx_item clean_up process_coordinator vote
  refused i j a b p q g e =
      from_a 3 (busy i (coordinator p) a []) (idle j b) (init_item p)
      ∙ ap
          (λ (x : Outcome N).
            exchange build stored 3 (busy i (coordinator p) a []) (node_after (idle j b) x))
          (query-vote i j b p q failure g e)
      ∙ from_b 2 (busy i (coordinator p) a []) (idle j b) (reply vote_no q)
      ∙ quiet 2 i j a b

  agreed :
      (i j : Text) (a b : Bank N) (p q : Payment N) (r : RetVal)
      → get_payment build i (offer_of p) b ≡ some q
      → init q ≡ r
      → clean_up (vote r q (asked j b q))
        ≡ returned success (busy j (cohort query (some q)) b (reply vote_yes q ∷ []))
      → exchange build stored 4 (busy i (coordinator p) a (init_item p ∷ [])) (idle j b)
        ≡ (idle i (commit stored p a).2, idle j (commit stored q b).2)
  unfolding handle_tx_item clean_up process_coordinator process_cohort process_commit commit_cohort
  agreed i j a b p q r g e votes =
      from_a 3 (busy i (coordinator p) a []) (idle j b) (init_item p)
      ∙ ap
          (λ (x : Outcome N).
            exchange build stored 3 (busy i (coordinator p) a []) (node_after (idle j b) x))
          (query-vote i j b p q r g e ∙ votes)
      ∙ from_b 2 (busy i (coordinator p) a []) (asked j b q) (reply vote_yes q)
      ∙ from_a 1 (busy i (coordinator p) a []) (asked j b q) (reply order_commit p)
      ∙ from_b 0 (busy i (coordinator p) a []) (idle j (commit stored q b).2) (reply ack_commit q)
      ∙ quiet 0 i j (commit stored p a).2 (commit stored q b).2

  -- payTo, and then four items delivered at most, leave both users idle. The payment `p` and the
  -- receiver's payment `q`, which is made from the item that arrives, are then both committed if both
  -- ends accept them at first, and otherwise neither of the two databases has changed.
  pub pay_to-atomic :
      (i j : Text) (a b : Bank N) (p q : Payment N)
      → get_payment build i (offer_of p) b ≡ some q
      → exchange build stored 4 (pay_to p (idle i a)) (idle j b) ≡ (
        idle i (if accepts p && accepts q then (commit stored p a).2 else a),
        idle j (if accepts p && accepts q then (commit stored q b).2 else b),
      )
  unfolding pay_to clean_up vote
  pay_to-atomic i j a b p q g = elim (Bool-cases (accepts p)) [
    | inr ip ↦
        ap (λ (x : Node N). exchange build stored 4 x (idle j b)) (pay_to-declines p i a ip)
        ∙ quiet 4 i j a b
        ∙ rw ip refl
    | inl ip ↦
        ap (λ (x : Node N). exchange build stored 4 x (idle j b)) (pay_to-accepts p i a ip)
        ∙ elim (init-cases q) [
          | inl iq ↦ refused i j a b p q g iq ∙ rw (ip, iq) refl
          | inr (inl iq) ↦ agreed i j a b p q success g iq refl ∙ rw (ip, iq) refl
          | inr (inr iq) ↦ agreed i j a b p q finish g iq refl ∙ rw (ip, iq) refl
        ]
  ]
