-- ===== src/Remote/Relay.antt =====
-- TmContract.cpp: what a hop makes of a vote.
use zero_reserve.Base.{ℕ}
use zero_reserve.Currency.{Build}
use zero_reserve.Number.{Number}
use zero_reserve.Contracts.{BtcContract}
use zero_reserve.Remote.{Trade, set_deal_amount, set_btc_tx_id}
use zero_reserve.Remote.Terms.{Vote}

module _ {N : Type 0} where
  -- A contract with what the vote says.
  abbrev pub carries : Vote N → BtcContract N → BtcContract N
  carries v k = record k { btc_amount = v.voted; btc_tx_id = v.voted_id }

module _ {N : Type 0} ⦃num : Number N⦄ (build : Build) (stored : N → N) where
  -- Both contracts after the vote was set on them.
  abbrev marked : Vote N → ℕ → ℕ → Trade N → Trade N
  marked v r q t = set_deal_amount build stored v.voted r (
      set_deal_amount build stored v.voted q
        (set_btc_tx_id v.voted_id r (set_btc_tx_id v.voted_id q t)))
