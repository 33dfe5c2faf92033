-- ===== src/Transactions/Local/OneSided.antt =====
-- How a payment between two friends can end where items get lost, come late or a program stops.
use zero_reserve.Base.{
  true, [], ◌∷◌, ◌≡◌, refl, some, Text, inl, inr, Bool-cases, arith, ap, sym, subst,
}
use zero_reserve.Number.{Number}
use zero_reserve.Orders.{RetVal, success, failure, finish}
use zero_reserve.Money.{init}
use zero_reserve.Transactions.Local.{
  Node, get_payment, offer_of, pay_to, handle_tx_item, init_item, reply, vote, vote_yes,
  order_commit, ack_commit, cohort, query, clean_up, process_coordinator, process_cohort,
  process_commit, commit_cohort,
}
use zero_reserve.Transactions.Local.Atomic.{
  idle, accepts, pay_to-accepts, pay_to-declines, query-vote, busy, not_failure,
}
use zero_reserve.Transactions.Local.Network.{
  Reach, received, to_payee, to_payer, lost_to_payer, payer_ends, here, next,
}
use zero_reserve.Transactions.Local.Ends.{Setting, taken, paid}
use zero_reserve.Transactions.Local.Uncertain.{Inv, before, between, after}
use zero_reserve.Transactions.Local.Deliveries.{Step-Inv}

module _ {N : Type 0} ⦃num : Number N⦄ (t : Setting N) (j : Text) where
  open t use {build, stored, i, a, b, p, q}

  -- The two nodes once the user has asked for the payment.
  abbrev pub payer : Node N
  payer = pay_to p (idle build stored i a)

  abbrev pub payee : Node N
  payee = idle build stored j b

  started : Inv t payer payee
  started = elim (Bool-cases (accepts build stored p)) [
    | inl e ↦
        subst (λ (x : Node N). Inv t x payee) (sym (pay_to-accepts build stored p i a e))
          (before (record { loose = inl refl; kept = refl; answers = tt })
            (record { own = refl; paying = inr refl; kept = refl; orders = (inl refl, tt) })
            (omega arith))
    | inr e ↦
        subst (λ (x : Node N). Inv t x payee) (sym (pay_to-declines build stored p i a e))
          (before (record { loose = inl refl; kept = refl; answers = tt })
            (record { own = refl; paying = inl (inl refl); kept = refl; orders = tt })
            (omega arith))
  ]

  Reach-Inv :
      {x y : Node N}
      → get_payment build i (offer_of p) b ≡ some q
      → Reach build stored payer payee x y
      → Inv t x y
  Reach-Inv g here = started
  Reach-Inv g (next r s) = Step-Inv t g s (Reach-Inv g r)

  -- How the two databases can stand: nothing booked, booked at the payee's end alone, or at both ends.
  pub data IsOutcome (x y : Node N) : Type 0 where
    unbooked : x.bank ≡ a → y.bank ≡ b → IsOutcome x y
    payee_only : x.bank ≡ a → y.bank ≡ taken t → IsOutcome x y
    both : x.bank ≡ paid t → y.bank ≡ taken t → IsOutcome x y

  Inv-IsOutcome : {x y : Node N} → Inv t x y → IsOutcome x y
  Inv-IsOutcome (before h o n) = unbooked o.kept h.kept
  Inv-IsOutcome (between h o n) = unbooked o.kept h.kept
  Inv-IsOutcome (after h (inl o) n) = payee_only o.kept h.booked
  Inv-IsOutcome (after h (inr o) n) = both o.booked h.booked

  -- After payTo, whatever items are lost or come in another order, and whenever the managers end: as long as the
  -- behaviour is defined, each end has booked the payment at most once, and the payer only after the payee.
  pub pay_to-IsOutcome :
      {x y : Node N}
      → get_payment build i (offer_of p) b ≡ some q
      → Reach build stored payer payee x y
      → IsOutcome x y
  pay_to-IsOutcome g r = Inv-IsOutcome (Reach-Inv g r)

  pub voted :
      (r : RetVal)
      → init q ≡ r
      → not_failure r ≡ true
      → get_payment build i (offer_of p) b ≡ some q
      → received (handle_tx_item build stored (record (init_item p) { peer_id = i }) payee)
        ≡ some (busy build stored j (cohort query (some q)) b (reply vote_yes q ∷ []))
  unfolding clean_up vote
  voted success e n g = ap received (query-vote build stored i j b p q success g e)
  voted finish e n g = ap received (query-vote build stored i j b p q finish g e)
  voted failure e n g = cc

  -- Where both ends accept the payment it can end with the payee's database alone booked and nothing under way.
  pub pay_to-payee_only :
      accepts build stored p ≡ true
      → accepts build stored q ≡ true
      → get_payment build i (offer_of p) b ≡ some q
      → Reach build stored payer payee (idle build stored i a) (idle build stored j (taken t))
  unfolding handle_tx_item process_coordinator process_cohort process_commit commit_cohort clean_up
  pay_to-payee_only ep eq g =
      subst
        (λ (x : Node N).
          Reach build stored x payee (idle build stored i a) (idle build stored j (taken t)))
        (sym (pay_to-accepts build stored p i a ep))
        (next
          (next
            (next
              (next (next here (to_payee [] [] (init_item p) _ refl (voted (init q) refl eq g)))
                (to_payer [] [] (reply vote_yes q) _ refl refl))
              (to_payee [] [] (reply order_commit p) _ refl refl))
            (lost_to_payer [] [] (reply ack_commit q) refl))
          payer_ends)
