-- ===== src/Transactions/Local/Mirrored.antt =====
-- A whole payment between two friends keeps their two records of one debt in step.
use zero_reserve.Base.{
  [], true, ◌≡◌, some, Text, Option-cases, ◌&&◌, Bool-cases, inl, inr, arith, sym, ap, ◌∙◌,
}
use zero_reserve.Currency.{Build}
use zero_reserve.Number.{Number, IsOrderedRing, ◌⊕◌}
use zero_reserve.Money.{
  Bank, Payment, receiver, spender, peer_exists, new_payment, new_credit, set_counterparty,
}
use zero_reserve.Money.Mirror.{held, target, commit-mirrored}
use zero_reserve.Transactions.Local.{Node, Offer, exchange, pay_to, get_payment, offer_of}
use zero_reserve.Transactions.Local.Atomic.{idle, accepts, pay_to-atomic}

module _ {N : Type 0} ⦃num : Number N⦄ (build : Build) where
  -- What the receiver's payment has of the item.
  get_payment-fields :
      (i : Text) (o : Offer N) (b : Bank N) (q : Payment N)
      → get_payment build i o b ≡ some q
      → (q.role ≡ receiver) × (q.amount ≡ o.offer_amount)
  unfolding get_payment new_payment set_counterparty
  get_payment-fields i o b q e =
      elim (Option-cases (new_credit {N = N} build [] o.offer_currency)) [
        | inl n ↦ ground arith
        | inr (c, n) ↦ (ground arith, ground arith)
      ]

  -- If the balances of two friends' accounts with each other cancel out, they still do after payTo and
  -- the items that follow from it, whether the payment is accepted or not. Both accounts have their
  -- rows, whose columns keep the two new balances.
  pub pay_to-mirrored :
      (laws : IsOrderedRing N) (stored : N → N) (i j : Text) (a b : Bank N) (p q : Payment N)
      → stored (target laws a p) ≡ target laws a p
      → stored (target laws b q) ≡ target laws b q
      → p.role ≡ spender
      → get_payment build i (offer_of p) b ≡ some q
      → peer_exists a.peers p.account.id p.account.currency ≡ true
      → peer_exists b.peers q.account.id q.account.currency ≡ true
      → held laws a p.account ⊕ held laws b q.account ≡ num.nought
      → let (payer, payee) =
          exchange build stored 4 (pay_to p (idle build stored i a)) (idle build stored j b) in
        held laws payer.bank p.account ⊕ held laws payee.bank q.account ≡ num.nought
  pay_to-mirrored laws stored i j a b p q keeps keeps' role g xa xb h =
      ap (λ (x : Node N × Node N). held laws x.0.bank p.account ⊕ held laws x.1.bank q.account)
        (pay_to-atomic build stored i j a b p q g)
      ∙ elim (Bool-cases (accepts build stored p && accepts build stored q)) [
        | inr e ↦ rw e h
        | inl e ↦ rw e (
            commit-mirrored laws stored p q a b role (get_payment-fields i (offer_of p) b q g).0
              (sym (get_payment-fields i (offer_of p) b q g).1) xa xb keeps keeps' h)
      ]
