-- ===== src/Remote/Deals.antt =====
-- TmContract.cpp: what the operations on a contract change, and what they leave as it was.
use zero_reserve.Base.{
  ℕ, List, [], ◌∷◌, Text, text_eq, ◌&&◌, ◌≡◌, refl, ap, Bool-cases, inl, inr, arith, ◌==◌,
}
use zero_reserve.Currency.{Build}
use zero_reserve.Number.{Number}
use zero_reserve.Contracts.{BtcContract, set_btc_amount}
use zero_reserve.Remote.{
  Trade, write_deal, set_deal_amount, set_btc_tx_id, set_btc_address, rm_deals, rm_deal,
}

module _ {N : Type 0} where
  pub write_deal_here : (r : ℕ) (k : BtcContract N) (t : Trade N) → (write_deal r k t).deal r ≡ k
  unfolding write_deal
  write_deal_here r k t = ground arith

  pub write_deal_desk : (r : ℕ) (k : BtcContract N) (t : Trade N) → (write_deal r k t).desk ≡ t.desk
  unfolding write_deal
  write_deal_desk r k t = refl

  pub set_btc_tx_id_amount :
      (id : Text) (r q : ℕ) (t : Trade N)
      → ((set_btc_tx_id id r t).deal q).btc_amount ≡ (t.deal q).btc_amount
  unfolding set_btc_tx_id write_deal
  set_btc_tx_id_amount id r q t = elim (Bool-cases (q == r)) [
    | inl e ↦ rw e (ap (λ n. (t.deal n).btc_amount) (ground arith))
    | inr e ↦ rw e refl
  ]

  pub set_btc_address_amount :
      (a : Text) (r q : ℕ) (t : Trade N)
      → ((set_btc_address a r t).deal q).btc_amount ≡ (t.deal q).btc_amount
  unfolding set_btc_address write_deal
  set_btc_address_amount a r q t = elim (Bool-cases (q == r)) [
    | inl e ↦ rw e (ap (λ n. (t.deal n).btc_amount) (ground arith))
    | inr e ↦ rw e refl
  ]

  pub marked_desk :
      (id a : Text) (r : ℕ) (t : Trade N)
      → (set_btc_tx_id id r (set_btc_address a r t)).desk ≡ t.desk
  unfolding set_btc_tx_id set_btc_address write_deal
  marked_desk id a r t = refl

  pub marked_address :
      (id a : Text) (r : ℕ) (t : Trade N)
      → ((set_btc_tx_id id r (set_btc_address a r t)).deal r).dest_address ≡ a
  unfolding set_btc_tx_id set_btc_address write_deal
  marked_address id a r t = ground arith

  pub marked_id :
      (id a : Text) (r : ℕ) (t : Trade N)
      → ((set_btc_tx_id id r (set_btc_address a r t)).deal r).btc_tx_id ≡ id
  unfolding set_btc_tx_id set_btc_address write_deal
  marked_id id a r t = ground arith

module _ {N : Type 0} ⦃num : Number N⦄ (build : Build) (stored : N → N) where
  pub set_deal_amount_here :
      (a : N) (r : ℕ) (t : Trade N) → ((set_deal_amount build stored a r t).deal r).btc_amount ≡ a
  unfolding set_deal_amount set_btc_amount write_deal
  set_deal_amount_here a r t = ground arith

  pub set_deal_amount_desk :
      (a : N) (r : ℕ) (t : Trade N) → (set_deal_amount build stored a r t).desk ≡ t.desk
  unfolding set_deal_amount write_deal
  set_deal_amount_desk a r t = refl

  pub rm_deals_desk :
      (k : BtcContract N) (rs : List ℕ) (t : Trade N)
      → (rm_deals build stored k rs t).1.desk ≡ t.desk
  unfolding rm_deals
  rm_deals_desk k [] t = refl
  rm_deals_desk k (r ∷ rs) t =
      elim (Bool-cases (
        text_eq (t.deal r).counter_party k.counter_party
        && text_eq (t.deal r).btc_tx_id k.btc_tx_id)) [
          | inl e ↦ rw e refl
          | inr e ↦ rw e (rm_deals_desk k rs t)
        ]

  pub rm_deal_desk : (r : ℕ) (t : Trade N) → (rm_deal build stored r t).desk ≡ t.desk
  unfolding rm_deal
  rm_deal_desk r t = rm_deals_desk (t.deal r) t.contracts t
