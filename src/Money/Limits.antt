-- ===== src/Money/Limits.antt =====
-- Payment.cpp, Credit.cpp: what init and allocate check is what keeps the credit lines.
use zero_reserve.Base.{true, false, ◌≡◌, arith, ap, ◌∙◌, refl}
use zero_reserve.Number.{Number, IsOrderedRing, ◌⊖◌, ◌≺◌}
use zero_reserve.Number.Laws.{minus_plus, minus_comm, plus_minus, minus_not_negative}
use zero_reserve.Orders.{success}
use zero_reserve.Money.{
  Credit, Bank, Payment, Role, receiver, spender, Category, payment, debt_cancel, bitcoin_contract,
  get_peer_available, get_my_available, new_balance, init, init_by, commit, load_peer, peer_exists,
  allocate, deallocate, allocation, set_column,
}
use zero_reserve.Money.Rows.{load-update}

module _ {N : Type 0} ⦃num : Number N⦄ (laws : IsOrderedRing N) where
  -- What is free on the side of the account that a payment of that role uses up.
  abbrev pub available : Role → Credit N → N
  available receiver c = get_peer_available c
  available spender c = get_my_available c

  available-new_balance :
      (role : Role) (c : Credit N) (a : N)
      → available role (record c { balance = new_balance role c a }) ≡ available role c ⊖ a
  unfolding get_peer_available get_my_available new_balance
  available-new_balance receiver c a =
      ap (λ (x : N). x ⊖ c.allocated) (minus_plus laws c.credit c.balance a)
      ∙ minus_comm laws _ a c.allocated
  available-new_balance spender c a = plus_minus laws c.our_credit c.balance a

  init_by-enough :
      (role : Role) (cat : Category) (a : N) (c : Credit N)
      → init_by role cat a c ≡ success
      → available role c ≺ a ≡ false
  unfolding init_by
  init_by-enough receiver payment a c e = ground arith
  init_by-enough receiver debt_cancel a c e = cc
  init_by-enough receiver bitcoin_contract a c e = cc
  init_by-enough spender cat a c e = ground arith

  -- A payment that init lets through, and whose account has not changed in the database since, keeps
  -- the credit line when it is committed: the available amount falls by the amount paid and does not
  -- fall below 0. For the receiver this is the friend's free credit, less what is allocated, for the
  -- spender it is the user's own.
  pub commit-WithinLimits :
      (stored : N → N) (p : Payment N) (b : Bank N)
      → init p ≡ success
      → load_peer b.peers p.account ≡ p.account
      → let c = (commit stored p b).1.account in
        (available p.role c ≡ available p.role p.account ⊖ p.amount)
        × ((available p.role c ≺ num.nought) ≡ false)
  unfolding commit init
  commit-WithinLimits stored p b e l = (
    left,
    rw left (minus_not_negative laws _ _ (init_by-enough p.role p.category p.amount p.account e)),
  )
    where
      left : available p.role (commit stored p b).1.account ≡ available p.role p.account ⊖ p.amount
      left =
          available-new_balance p.role (load_peer b.peers p.account) p.amount
          ∙ ap (λ (x : Credit N). available p.role x ⊖ p.amount) l

  allocated-left :
      (c : Credit N) (a : N)
      → get_peer_available (record c { allocated = num.plus c.allocated a })
        ≡ get_peer_available c ⊖ a
  unfolding get_peer_available
  allocated-left c a = minus_plus laws _ c.allocated a

  -- allocate succeeds exactly if the friend's free credit covers the amount. Then the free credit
  -- falls by the amount and not below 0; if a row is there and its column keeps the new sum, the
  -- database has the same account; and deallocate of the amount gives the account back.
  pub allocate-reserves :
      (stored : N → N) (a : N) (c : Credit N) (b : Bank N)
      → load_peer b.peers c ≡ c
      → peer_exists b.peers c.id c.currency ≡ true
      → stored (num.plus c.allocated a) ≡ num.plus c.allocated a
      → (get_peer_available c ≺ a) ≡ false
      → let c' = (allocate stored a c b).1 in
        let b' = (allocate stored a c b).2 in
        ((allocate stored a c b).0 ≡ success)
        × (get_peer_available c' ≡ get_peer_available c ⊖ a)
        × ((get_peer_available c' ≺ num.nought) ≡ false)
        × (load_peer b'.peers c ≡ c')
        × ((deallocate stored a c' b').0 ≡ c)
  unfolding allocate deallocate set_column
  allocate-reserves stored a c b l x s e = rw e (
    refl,
    allocated-left c a,
    rw (allocated-left c a) (minus_not_negative laws _ _ e),
    load-update stored allocation (num.plus c.allocated a) b.peers c x
        ∙ rw s (ap (λ (k : Credit N). record k { allocated = num.plus c.allocated a }) l),
    ap (λ (v : N). record c { allocated = v }) (laws.plus-minus c.allocated a),
  )
