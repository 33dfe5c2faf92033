-- ===== src/Remote/Refinement.antt =====
-- TmContract.cpp over BtcContract.cpp: operations on contracts through pointers, seen by value.
use zero_reserve.Base.{
  ℕ, List, [], ◌∷◌, text_eq, ◌&&◌, ◌≡◌, refl, Bool-cases, inl, inr, ap, map, ◌∙◌,
}
use zero_reserve.Currency.{Build}
use zero_reserve.Number.{Number}
use zero_reserve.Contracts.{BtcContract, Vault, rm_each, rm_contract}
use zero_reserve.Money.{Bank}
use zero_reserve.Remote.{Trade, rm_deals, rm_deal, vault_of}

module _ {N : Type 0} ⦃num : Number N⦄ (build : Build) (stored : N → N) (k : BtcContract N)
    (t : Trade N) where
  -- The two loops agree on what is left, on the accounts and on the table.
  record Agree (rs : List ℕ) : Type 0 where
    deals : (rm_deals build stored k rs t).1.deal ≡ t.deal
    left :
        map t.deal (rm_deals build stored k rs t).0
        ≡ (rm_each build stored k (map t.deal rs) (vault_of t)).0
    banks :
        (rm_deals build stored k rs t).1.bank
        ≡ (rm_each build stored k (map t.deal rs) (vault_of t)).1.bank
    tables :
        (rm_deals build stored k rs t).1.rows
        ≡ (rm_each build stored k (map t.deal rs) (vault_of t)).1.rows

  rm_deals-Agree : (rs : List ℕ) → Agree rs
  unfolding rm_deals rm_each
  rm_deals-Agree [] = record { deals = refl; left = refl; banks = refl; tables = refl }
  rm_deals-Agree (r ∷ rs) =
      elim (Bool-cases (
        text_eq (t.deal r).counter_party k.counter_party
        && text_eq (t.deal r).btc_tx_id k.btc_tx_id)) [
          | inl e ↦ record {
            deals = rw e refl;
            left = rw e refl;
            banks = rw e refl;
            tables = rw e refl;
          }
          | inr e ↦
              let a = rm_deals-Agree rs in
              record {
                deals = rw e a.deals;
                left = rw e (ap (λ (cs : List (BtcContract N)). t.deal r ∷ cs) a.left);
                banks = rw e a.banks;
                tables = rw e a.tables;
              }
        ]

pub same_vault :
    {N : Type 0} {b b' : Bank N} {c c' w w' : List (BtcContract N)}
    → b ≡ b'
    → c ≡ c'
    → w ≡ w'
    → ◌≡◌ {A = Vault N}
        (record { bank = b; contracts = c; rows = w })
        (record { bank = b'; contracts = c'; rows = w' })
same_vault p q r = λ i. record { bank = p i; contracts = q i; rows = r i }

-- Whatever contracts there are: rmContract through a pointer leaves the same contracts, accounts and rows
-- as rmContract on the contract that the pointer leads to.
pub rm_deal-rm_contract :
    {N : Type 0} ⦃num : Number N⦄ (build : Build) (stored : N → N) (r : ℕ) (t : Trade N)
    → vault_of (rm_deal build stored r t) ≡ rm_contract build stored (t.deal r) (vault_of t)
unfolding rm_deal rm_contract
rm_deal-rm_contract {N = N} build stored r t =
    let a = rm_deals-Agree build stored (t.deal r) t t.contracts in
    let left = (rm_deals build stored (t.deal r) t.contracts t).0 in
    same_vault a.banks (ap (λ (d : ℕ → BtcContract N). map d left) a.deals ∙ a.left) a.tables
