-- ===== src/Satoshi/Tests.antt =====
-- The methods at the server of Example.
use zero_reserve.Base.{codes, [], ◌∷◌, ◌≡◌, refl, some, text_eq}
use zero_reserve.Base.Int.{pos, ◌-ℤ◌}
use zero_reserve.Number.Whole.{whole}
use zero_reserve.Orders.{failure}
use zero_reserve.Database.Wallets.{wifimport}
use zero_reserve.Satoshi.{
  RawVars, mk_raw_tx, mk_order_address, get_confirmations, load_satoshi_wallets, mk_satoshi_wallet,
  get_balance, send_raw,
}
use zero_reserve.Satoshi.Example.{doubles, server}

abbrev vars : RawVars
vars = record { send_addr = codes "A"; out_tx = []; out_id = [] }

abbrev vars_after : RawVars
vars_after = record { send_addr = codes "B"; out_tx = codes "hex"; out_id = codes "t2" }

-- 11 is more than there is, and no other call is made.
too_much : mk_raw_tx doubles server (pos 11) (codes "R") vars 0 ≡ (failure, vars, 1)
unfolding mk_raw_tx ◌-ℤ◌ text_eq
too_much = refl

order_address : mk_order_address doubles server (pos 4) 0 ≡ (codes "B", 4)
unfolding mk_order_address
order_address = refl

six_confirmations : get_confirmations doubles server (codes "t2") 0 ≡ (6, 1)
unfolding get_confirmations
six_confirmations = refl

not_sent : send_raw doubles server (codes "hex") 0 ≡ (failure, 1)
unfolding send_raw
not_sent = refl

balance_of_ten : get_balance doubles server 0 ≡ (some (pos 10), 1)
unfolding get_balance
balance_of_ten = refl

one_wallet :
    load_satoshi_wallets doubles server [] 0
    ≡ (record { address = codes "A"; wallet_balance = pos 10 } ∷ [], 1)
unfolding load_satoshi_wallets
one_wallet = refl

empty_wallet :
    mk_satoshi_wallet doubles server wifimport 0
    ≡ (some (record { address = codes "B"; wallet_balance = pos 0 }), 1)
unfolding mk_satoshi_wallet
empty_wallet = refl
