-- ===== src/Database/Tests.antt =====
-- A database that is opened for the first time, one of an old version, and a wallet that is kept in it.
use zero_reserve.Base.{
  Text, ℕ, codes, List, [], ◌∷◌, ◌++◌, ◌≡◌, refl, some, none, true, false, text_eq, if◌then◌else◌,
}
use zero_reserve.Orders.{success}
use zero_reserve.Database.Config.{
  ConfigRow, init_config, get_config, edit_tx_log, db_version, txlogpath, required_db_version, old,
  init_config-current,
}
use zero_reserve.Database.Wallets.{
  DetWallet, LibBitcoinWallet, WalletRow, electrumseed, persist_wallet, load_wallets,
  load_wallets-persist_wallet,
}

abbrev old_rows : List ConfigRow
old_rows =
    record { key = txlogpath; value = codes "/home/zr.tx" }
    ∷ record { key = db_version; value = codes "a" }
    ∷ []

init_config-current_example :
    let rows' = init_config true (codes "/home") old_rows in
    (get_config txlogpath rows' ≡ (
      if text_eq db_version txlogpath then required_db_version else get_config txlogpath old_rows))
    × (init_config true (codes "/tmp") rows' ≡ rows')
unfolding get_config zero_reserve.Base.text_eq
init_config-current_example =
    init_config-current true (codes "/home") (codes "/tmp") txlogpath old_rows (old refl)

-- The path of the log in a new database, after the user has set another.
moved :
    get_config txlogpath (edit_tx_log (codes "/new.tx") (init_config false (codes "/home") []))
    ≡ codes "/new.tx"
unfolding init_config get_config edit_tx_log zero_reserve.Base.text_eq
moved = refl

-- A wallet that is its seed.
abbrev plain : DetWallet Text
plain = record {
  no_wallet = [];
  seed_of = λ w. w;
  with_seed = λ s w. s;
  with_new_seed = λ w. codes "new";
  secret_of = λ n w. w;
}

abbrev kept_wallet : LibBitcoinWallet Text
kept_wallet = record { wallet_type = electrumseed; wallet = codes "seed"; nick = codes "mine" }

mine_kept :
    (rows' : List WalletRow) × (w' : LibBitcoinWallet Text) × (persist_wallet plain kept_wallet []
      ≡ some (success, rows'))
    × (load_wallets plain rows' ≡ some ([] ++ w' ∷ []))
    × (w'.wallet ≡ codes "seed")
    × (w'.nick ≡ codes "mine")
unfolding load_wallets
mine_kept = load_wallets-persist_wallet plain kept_wallet [] [] refl refl refl
