-- ===== src/Contracts/StartUp.antt =====
-- ZrDB::loadBtcContracts and the callback that it works through: the contracts come back from the table `btccontracts` when
-- the program starts.
use zero_reserve.Base.{
  true, false, ◌≡◌, refl, List, [], ◌∷◌, ◌++◌, Option, none, some, All, ap, sym, ◌∙◌,
}
use mathlib.Core.List.{append-nil, append_assoc}
use zero_reserve.Base.Int.{ℤ, pos, eqb_ℤ}
use zero_reserve.Currency.{Build}
use zero_reserve.Number.{Number}
use zero_reserve.Contracts.{BtcContract, Vault, new_contract}

module _ {N : Type 0} where
  -- What the callback makes of a row: the numbers as they are read back, and activated.
  unfoldable pub contract_of : (N → N) → BtcContract N → BtcContract N
  contract_of stored row = record row {
    btc_amount = stored row.btc_amount;
    price = stored row.price;
    fee = stored row.fee;
    activated = true;
  }

  -- What activate and then persist leave of a contract, in a column that keeps its numbers.
  pub record IsPersisted (stored : N → N) (row : BtcContract N) : Type 0 where
    pub was_activated : row.activated ≡ true
    pub has_time : eqb_ℤ row.creation_time (pos 0) ≡ false
    pub keeps_amount : stored row.btc_amount ≡ row.btc_amount
    pub keeps_price : stored row.price ≡ row.price
    pub keeps_fee : stored row.fee ≡ row.fee

  contract_of-same :
      (stored : N → N) (row : BtcContract N) → IsPersisted stored row → contract_of stored row ≡ row
  unfolding contract_of
  contract_of-same stored row h = λ k. record row {
    btc_amount = h.keeps_amount k;
    price = h.keeps_price k;
    fee = h.keeps_fee k;
    activated = sym (h.was_activated) k;
  }

module _ {N : Type 0} ⦃num : Number N⦄ where
  unfoldable pub vault_after : Option (BtcContract N × Vault N) → Option (Vault N)
  vault_after none = none
  vault_after (some (c, v)) = some v

  -- loadBtcContracts, on the rows that the statement returns. `none` where the constructor of a contract throws.
  unfoldable pub load_btc_contracts :
      Build → (N → N) → ℤ → List (BtcContract N) → Vault N → Option (Vault N)
  unfolding contract_of new_contract vault_after
  load_btc_contracts build stored now [] v = some v
  load_btc_contracts build stored now (row ∷ rows) v =
      elim (vault_after (new_contract build stored now (contract_of stored row) v)) [
        | none ↦ none
        | some v' ↦ load_btc_contracts build stored now rows v'
      ]

  new_contract-loaded :
      (build : Build) (stored : N → N) (now : ℤ) (k : BtcContract N) (v : Vault N)
      → eqb_ℤ k.creation_time (pos 0) ≡ false
      → vault_after (new_contract build stored now k v)
        ≡ some (record v { contracts = v.contracts ++ k ∷ [] })
  unfolding new_contract vault_after
  new_contract-loaded build stored now k v e = rw e refl

  load_step :
      (build : Build) (stored : N → N) (now : ℤ) (row : BtcContract N) (rows : List (BtcContract N))
      (v : Vault N)
      → IsPersisted stored row
      → load_btc_contracts build stored now (row ∷ rows) v
        ≡ load_btc_contracts build stored now rows
            (record v { contracts = v.contracts ++ row ∷ [] })
  unfolding load_btc_contracts
  load_step build stored now row rows v h =
      let made : vault_after (new_contract build stored now (contract_of stored row) v)
          ≡ some (record v { contracts = v.contracts ++ row ∷ [] }) =
        ap (λ (x : BtcContract N). vault_after (new_contract build stored now x v))
          (contract_of-same stored row h)
        ∙ new_contract-loaded build stored now row v h.has_time in
      rw (load_btc_contracts, made) refl

  -- Where every row that the statement returns was written for an activated contract by a column that keeps its numbers, all
  -- of them are back as they were behind the contracts at hand, and no account changes: no money is reserved again.
  pub load_btc_contracts-restores :
      (build : Build) (stored : N → N) (now : ℤ) (rows : List (BtcContract N)) (v : Vault N)
      → All (IsPersisted stored) rows
      → load_btc_contracts build stored now rows v
        ≡ some (record v { contracts = v.contracts ++ rows })
  unfolding load_btc_contracts
  load_btc_contracts-restores build stored now [] v h = ap behind (sym (append-nil v.contracts))
    where
      behind : List (BtcContract N) → Option (Vault N)
      behind x = some (record v { contracts = x })
  load_btc_contracts-restores build stored now (row ∷ rows) v h =
      load_step build stored now row rows v h.0
      ∙ load_btc_contracts-restores build stored now rows
          (record v { contracts = v.contracts ++ row ∷ [] }) h.1
      ∙ ap behind (append_assoc v.contracts (row ∷ []) rows)
    where
      behind : List (BtcContract N) → Option (Vault N)
      behind x = some (record v { contracts = x })
