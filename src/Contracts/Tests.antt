-- ===== src/Contracts/Tests.antt =====
-- A contract of a receiver, from its making to its end.
use zero_reserve.Base.{Text, ℕ, codes, List, [], ◌∷◌, ◌++◌, ◌≡◌, refl, true, false, some, keep, not}
use zero_reserve.Base.Int.{ℤ, pos, negsuc}
use zero_reserve.Currency.{testnet}
use zero_reserve.Number.Whole.{whole, whole-IsOrderedRing}
use zero_reserve.Number.{◌≺◌}
use zero_reserve.Money.{Credit, Bank, get_peer_available}
use zero_reserve.Contracts.{
  BtcContract, Vault, receiving, new_contract, get_fiat_amount, execute, poll_contracts,
}
use zero_reserve.Contracts.Reserve.{account, raised, new_contract-reserves}
use zero_reserve.Contracts.StartUp.{load_btc_contracts, load_btc_contracts-restores}
use zero_reserve.Contracts.Settle.{paid, lowered, execute-settles}
use zero_reserve.Contracts.Polling.{
  polled, unpolled, is_any, ended, due, execute_all, forget_all, poll_contracts-exact,
}

abbrev kept : ℤ → ℤ
kept x = x

-- bob has 80 of credit, owes 20 of it, and has 5 reserved.
abbrev bob_bank : Bank ℤ
bob_bank = record {
  peers =
      record {
        id = codes "bob";
        currency = codes "FAU";
        our_credit = pos 100;
        credit = pos 80;
        balance = pos 20;
        allocated = pos 5;
      }
      ∷ [];
  tx_log = [];
}

-- 20 Bitcoins at 4 each are more than bob can pay for.
abbrev asked : BtcContract ℤ
asked = record {
  btc_tx_id = codes "tx1";
  btc_amount = pos 20;
  price = pos 4;
  currency_sym = codes "FAU";
  party = receiving;
  counter_party = codes "bob";
  activated = true;
  dest_address = [];
  creation_time = pos 0;
  fee = pos 3;
}

abbrev vault : Vault ℤ
vault = record { bank = bob_bank; contracts = []; rows = [] }

new_contract-reserves_example :
    (c : BtcContract ℤ) × (v' : Vault ℤ) × (new_contract testnet kept (pos 1000) asked vault
      ≡ some (c, v'))
    × (v'.contracts ≡ c ∷ [])
    × (account asked v'.bank ≡ raised (account asked bob_bank) (get_fiat_amount c))
    × ((get_peer_available (account asked v'.bank) ≺ pos 3) ≡ false)
unfolding zero_reserve.Currency.get_currency_by_symbol zero_reserve.Base.text_eq
    zero_reserve.Money.peer_exists zero_reserve.Money.is_for get_peer_available
    zero_reserve.Base.Int.◌-ℤ◌ zero_reserve.Money.load_peer zero_reserve.Money.fill
    zero_reserve.Base.Int.◌*ℤ◌ zero_reserve.Base.Int.◌/ℤ◌
new_contract-reserves_example =
    new_contract-reserves whole-IsOrderedRing testnet kept (pos 1000) asked vault refl refl refl
      refl refl refl refl refl

execute-settles_example :
    (b'' : Bank ℤ) × (execute testnet kept asked bob_bank ≡ some b'')
    × (account asked b''
        ≡ paid (lowered (account asked bob_bank) (get_fiat_amount asked)) (get_fiat_amount asked))
unfolding zero_reserve.Currency.get_currency_by_symbol zero_reserve.Base.text_eq
    zero_reserve.Money.peer_exists zero_reserve.Money.is_for get_peer_available
    zero_reserve.Base.Int.◌-ℤ◌ zero_reserve.Money.load_peer zero_reserve.Money.fill
execute-settles_example =
    execute-settles whole-IsOrderedRing testnet kept asked refl bob_bank refl refl refl refl refl

-- Two contracts, the second of them past its day.
abbrev busy_vault : Vault ℤ
busy_vault = record vault {
  contracts =
      record asked { creation_time = pos 90000000 }
      ∷ record asked { creation_time = pos 1000 }
      ∷ [];
}

abbrev three_confirmations : Text → ℕ
three_confirmations id = 3

poll_contracts-exact_example :
    let at = pos 91000000 in
    let (threw, v') = poll_contracts testnet kept three_confirmations at busy_vault in
    let ks = polled testnet kept three_confirmations at busy_vault.contracts in
    let rest = unpolled testnet kept three_confirmations at busy_vault.contracts in
    (threw ≡ is_any testnet kept three_confirmations at rest)
    × (v'.contracts ≡ keep (λ k. not (ended testnet kept three_confirmations at k)) ks ++ rest)
    × (v'.bank
        ≡ execute_all testnet kept three_confirmations at
            (keep (due testnet kept three_confirmations at) ks)
            bob_bank)
    × (v'.rows
        ≡ forget_all testnet kept three_confirmations at
            (keep (ended testnet kept three_confirmations at) ks)
            [])
poll_contracts-exact_example =
    poll_contracts-exact testnet kept three_confirmations (pos 91000000) busy_vault

-- A contract of the table, in a program that has just been started.
abbrev stored_rows : List (BtcContract ℤ)
stored_rows = record asked { creation_time = pos 1000 } ∷ []

load_btc_contracts-restores_example :
    load_btc_contracts testnet kept (pos 5000) stored_rows (record vault { rows = stored_rows })
    ≡ some (record vault { contracts = [] ++ stored_rows; rows = stored_rows })
load_btc_contracts-restores_example =
    load_btc_contracts-restores testnet kept (pos 5000) stored_rows
      (record vault { rows = stored_rows })
      (
        record {
          was_activated = refl;
          has_time = refl;
          keeps_amount = refl;
          keeps_price = refl;
          keeps_fee = refl;
        },
        tt,
      )
