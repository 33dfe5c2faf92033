-- ===== src/Transactions/Local/Answers.antt =====
-- What the payee's answers do to the payer, in whatever order they arrive.
use zero_reserve.Base.{
  Bool, true, List, ◌≡◌, refl, Option, none, some, Text, ◌⊎◌, inl, inr, All, ap, sym, subst, ◌∙◌,
}
use zero_reserve.Number.{Number}
use zero_reserve.Money.{Bank}
use zero_reserve.Transactions.Local.{
  Node, TxItem, TxPhase, Manager, Outcome, handle_tx_item, process_cohort, initial,
  process_coordinator, clean_up, coordinator, cohort, query, vote_yes, vote_no, order_commit,
  ack_commit, abort, abort_request, reply,
}
use zero_reserve.Transactions.Local.Network.{received}
use zero_reserve.Transactions.Local.Ends.{
  Setting, is_answer, Leaves, Leaves-received, IsLoose, queries, queries-commit, IsAnswer,
  FromPayer, IsOpen, IsClosed, loose-handle, snoc, node,
}

module _ {N : Type 0} ⦃num : Number N⦄ (t : Setting N) where
  open t use {build, stored, i, a, b, p, q}

  -- The payer after an answer: it has committed only where the payee may have acknowledged.
  abbrev pub Answered : Bool → List (TxItem N) → Node N → Type 0
  Answered acked sent x =
      (IsOpen t x ⊎ (IsClosed t x × (acked ≡ true))) × (queries x.sent ≡ queries sent)

  answer-paying :
      (acked : Bool) (own : Text) (sent : List (TxItem N)) (item : TxItem N) (ph : TxPhase)
      → own ≡ i
      → All (FromPayer t) sent
      → is_answer acked ph ≡ true
      → Leaves (Answered acked sent) (
          handle_tx_item build stored
            (record item { phase = ph })
            (node t own (some (coordinator p)) a sent))
  unfolding handle_tx_item process_coordinator clean_up
  answer-paying acked own sent item vote_yes o h e = (
    inl (record { own = o; paying = inr refl; kept = refl; orders = snoc t _ sent _ h (inr refl) }),
    queries-commit sent (reply order_commit p) refl,
  )
  answer-paying acked own sent item vote_no o h e =
      (inl (record { own = o; paying = inl (inl refl); kept = refl; orders = h }), refl)
  answer-paying acked own sent item abort o h e =
      (inl (record { own = o; paying = inl (inl refl); kept = refl; orders = h }), refl)
  answer-paying acked own sent item ack_commit o h e =
      (inr (record { own = o; loose = inl refl; booked = refl; orders = h }, e), refl)
  answer-paying acked own sent item initial o h e = cc
  answer-paying acked own sent item query o h e = cc
  answer-paying acked own sent item order_commit o h e = cc
  answer-paying acked own sent item abort_request o h e = cc

  record IsUnmoved (own : Text) (bank : Bank N) (sent : List (TxItem N)) (x : Node N) : Type 0 where
    same_own : x.own_id ≡ own
    still_loose : IsLoose x.manager
    same_bank : x.bank ≡ bank
    same_sent : x.sent ≡ sent

  answer-stray :
      (acked : Bool) (own : Text) (bank : Bank N) (sent : List (TxItem N)) (item : TxItem N)
      (ph : TxPhase)
      → is_answer acked ph ≡ true
      → Leaves (IsUnmoved own bank sent) (
          clean_up (
            process_cohort build stored
              (record item { phase = ph })
              initial
              none
              (node t own (some (cohort initial none)) bank sent)))
  unfolding process_cohort clean_up
  answer-stray acked own bank sent item vote_yes e = record {
    same_own = refl;
    still_loose = inr refl;
    same_bank = refl;
    same_sent = refl;
  }
  answer-stray acked own bank sent item vote_no e = record {
    same_own = refl;
    still_loose = inr refl;
    same_bank = refl;
    same_sent = refl;
  }
  answer-stray acked own bank sent item ack_commit e = record {
    same_own = refl;
    still_loose = inr refl;
    same_bank = refl;
    same_sent = refl;
  }
  answer-stray acked own bank sent item abort e = tt
  answer-stray acked own bank sent item initial e = cc
  answer-stray acked own bank sent item query e = cc
  answer-stray acked own bank sent item order_commit e = cc
  answer-stray acked own bank sent item abort_request e = cc

  stray :
      (acked : Bool) (x x' : Node N) (item : TxItem N)
      → IsLoose x.manager
      → IsAnswer acked item
      → received (handle_tx_item build stored item x) ≡ some x'
      → IsUnmoved x.own_id x.bank x.sent x'
  stray acked x x' item l e r =
      Leaves-received (IsUnmoved x.own_id x.bank x.sent) (handle_tx_item build stored item x) x' r (
        subst (λ (o : Outcome N). Leaves (IsUnmoved x.own_id x.bank x.sent) o)
          (sym (loose-handle t item x.own_id x.manager x.bank x.sent l))
          (answer-stray acked x.own_id x.bank x.sent item item.phase e))

  pub IsOpen-answer :
      (acked : Bool) (x x' : Node N) (item : TxItem N)
      → IsOpen t x
      → IsAnswer acked item
      → received (handle_tx_item build stored item x) ≡ some x'
      → Answered acked x.sent x'
  IsOpen-answer acked x x' item h e r = elim h.paying [
    | inl l ↦
        let u = stray acked x x' item l e r in
        (
          inl (record {
            own = u.same_own ∙ h.own;
            paying = inl u.still_loose;
            kept = u.same_bank ∙ h.kept;
            orders = subst (All (FromPayer t)) (sym u.same_sent) h.orders;
          }),
          ap queries u.same_sent,
        )
    | inr c ↦ Leaves-received (Answered acked x.sent) (handle_tx_item build stored item x) x' r (
        subst (λ (o : Outcome N). Leaves (Answered acked x.sent) o)
          (sym (
            ap
              (λ (m : Option (Manager N)).
                handle_tx_item build stored item (node t x.own_id m x.bank x.sent))
              c
            ∙ ap
                (λ (v : Bank N).
                  handle_tx_item build stored item
                    (node t x.own_id (some (coordinator p)) v x.sent))
                h.kept))
          (answer-paying acked x.own_id x.sent item item.phase h.own h.orders e))
  ]

  pub IsClosed-answer :
      (acked : Bool) (x x' : Node N) (item : TxItem N)
      → IsClosed t x
      → IsAnswer acked item
      → received (handle_tx_item build stored item x) ≡ some x'
      → IsClosed t x' × (queries x'.sent ≡ queries x.sent)
  IsClosed-answer acked x x' item h e r =
      let u = stray acked x x' item h.loose e r in
      (
        record {
          own = u.same_own ∙ h.own;
          loose = u.still_loose;
          booked = u.same_bank ∙ h.booked;
          orders = subst (All (FromPayer t)) (sym u.same_sent) h.orders;
        },
        ap queries u.same_sent,
      )
