-- ===== src/Remote/Polling.antt =====
-- BtcContract.cpp, pollContracts, over the pointers of BtcContract::contracts.
use zero_reserve.Base.{
  ℕ, true, false, List, [], ◌∷◌, Bool, none, some, Text, if◌then◌else◌, ◌≡◌, refl, Option-cases,
  inl, inr,
}
use zero_reserve.Base.Int.{ℤ}
use zero_reserve.Currency.{Build}
use zero_reserve.Number.{Number}
use zero_reserve.Contracts.{poll}
use zero_reserve.Remote.{Trade, vault_of}

module _ {N : Type 0} ⦃num : Number N⦄ (build : Build) (stored : N → N) (confirmations : Text → ℕ)
    (now : ℤ) where
  -- The loop: whether an exception leaves it, the pointers that are then in the list, and what polling does.
  unfoldable pub poll_deals : List ℕ → Trade N → Bool × List ℕ × Trade N
  unfolding poll
  poll_deals [] t = (false, [], t)
  poll_deals (r ∷ rs) t = elim (poll build stored confirmations now (t.deal r) (vault_of t)) [
    | none ↦ (true, r ∷ rs, t)
    | some (done, v) ↦
        let (threw, left, t') = poll_deals rs (record t { bank = v.bank; rows = v.rows }) in
        (threw, if done then left else r ∷ left, t')
  ]

  unfoldable pub poll_trade : Trade N → Bool × Trade N
  unfolding poll_deals
  poll_trade t =
      let (threw, left, t') = poll_deals t.contracts t in (threw, record t' { contracts = left })

  -- The books are as they were.
  pub poll_deals-desk : (rs : List ℕ) (t : Trade N) → (poll_deals rs t).2.desk ≡ t.desk
  unfolding poll_deals
  poll_deals-desk [] t = refl
  poll_deals-desk (r ∷ rs) t =
      elim (Option-cases (poll build stored confirmations now (t.deal r) (vault_of t))) [
        | inl e ↦ rw (poll_deals, e) refl
        | inr (x, e) ↦
            rw (poll_deals, e) (poll_deals-desk rs (record t { bank = x.1.bank; rows = x.1.rows }))
      ]
