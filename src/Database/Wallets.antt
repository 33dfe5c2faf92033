-- ===== src/Database/Wallets.antt =====
-- The table `mywallet` of zrdb.cpp, and the wallets of ZrLibBitcoin.cpp that are kept in it. The deterministic
-- wallet inside of a LibBitcoinWallet is libbitcoin's, and is a record of the operations that are called.
use zero_reserve.Base.{
  ℕ, ◌≡◌, refl, List, [], ◌∷◌, ◌++◌, Option, none, some, Text, is_empty, if◌then◌else◌, ap, ◌∙◌,
}
use zero_reserve.Orders.{RetVal, success, failure}

-- MyWallet::WalletType of ZRBitcoin.h. INVALID is `no_type`.
pub data WalletType : Type 0 where
  brainwallet electrumseed wifimport casascius no_type : WalletType

-- ZrDB::MyWallet, a row of the table.
pub record WalletRow : Type 0 where
  pub secret : Text
  pub type_of_row : WalletType
  pub row_nick : Text

-- What is called of bc::deterministic_wallet. `secret_of` is the encoded secret of that number.
pub record DetWallet (W : Type 0) : Type 0 where
  pub no_wallet : W
  pub seed_of : W → Text
  pub with_seed : Text → W → W
  pub with_new_seed : W → W
  pub secret_of : ℕ → W → Text

-- class LibBitcoinWallet
pub record LibBitcoinWallet (W : Type 0) : Type 0 where
  pub wallet_type : WalletType
  pub wallet : W
  pub nick : Text

-- ZrDB::storeMyWallet
unfoldable pub store_my_wallet : Text → WalletType → Text → List WalletRow → List WalletRow
store_my_wallet s t n rows = rows ++ record { secret = s; type_of_row = t; row_nick = n } ∷ []

module _ {W : Type 0} (det : DetWallet W) where
  open det use {no_wallet, seed_of, with_seed, with_new_seed, secret_of}

  -- ZrLibBitcoin::mkWallet and the constructor.
  unfoldable pub mk_wallet : WalletType → LibBitcoinWallet W
  mk_wallet t = record { wallet_type = t; wallet = no_wallet; nick = [] }

  -- LibBitcoinWallet::seed
  unfoldable pub seed : LibBitcoinWallet W → Text × LibBitcoinWallet W
  seed w =
      let v = if is_empty (seed_of w.wallet) then with_new_seed w.wallet else w.wallet in
      (seed_of v, record w { wallet = v })

  -- LibBitcoinWallet::setSeed
  unfoldable pub set_seed : Text → LibBitcoinWallet W → LibBitcoinWallet W
  set_seed s w = record w { wallet_type = electrumseed; wallet = with_seed s w.wallet }

  -- LibBitcoinWallet::getSecret, with the secret that was there before.
  unfoldable pub get_secret : LibBitcoinWallet W → Text → RetVal × Text
  get_secret w before = elim w.wallet_type [
    | electrumseed ↦
        if is_empty (seed_of w.wallet) then (failure, before) else (success, secret_of 2 w.wallet)
    | _ ↦ (failure, before)
  ]

  -- LibBitcoinWallet::persist_wallet; `none` where it runs off its end without a result, which is undefined.
  unfoldable pub persist_wallet :
      LibBitcoinWallet W → List WalletRow → Option (RetVal × List WalletRow)
  unfolding store_my_wallet get_secret
  persist_wallet w rows = elim w.wallet_type [
    | electrumseed ↦ some (success, store_my_wallet (seed_of w.wallet) w.wallet_type w.nick rows)
    | wifimport ↦ some (success, store_my_wallet (get_secret w []).1 w.wallet_type w.nick rows)
    | _ ↦ none
  ]

  -- One turn of the loop of ZrLibBitcoin::loadWallets, with the wallets loaded so far. Where the type is not
  -- ELECTRUMSEED it deletes a pointer that was never set, which is undefined behaviour: `none`.
  unfoldable pub load_row :
      WalletRow → List (LibBitcoinWallet W) → Option (List (LibBitcoinWallet W))
  unfolding mk_wallet set_seed
  load_row row ws = elim row.type_of_row [
    | electrumseed ↦
        some
          (ws ++ record (set_seed row.secret (mk_wallet electrumseed)) { nick = row.row_nick } ∷ [])
    | _ ↦ none
  ]

  load_from : Option (List (LibBitcoinWallet W)) → WalletRow → Option (List (LibBitcoinWallet W))
  unfolding load_row
  load_from none row = none
  load_from (some ws) row = load_row row ws

  -- The loop of ZrLibBitcoin::loadWallets.
  unfoldable pub load_each :
      List WalletRow → Option (List (LibBitcoinWallet W)) → Option (List (LibBitcoinWallet W))
  unfolding load_from
  load_each [] ws = ws
  load_each (row ∷ rows) ws = load_each rows (load_from ws row)

  -- ZrLibBitcoin::loadWallets
  unfoldable pub load_wallets : List WalletRow → Option (List (LibBitcoinWallet W))
  unfolding load_each
  load_wallets rows = load_each rows (some [])

  load_each-append :
      (rows more : List WalletRow) (ws : Option (List (LibBitcoinWallet W)))
      → load_each (rows ++ more) ws ≡ load_each more (load_each rows ws)
  unfolding load_each
  load_each-append [] more ws = refl
  load_each-append (row ∷ rows) more ws = load_each-append rows more (load_from ws row)

  -- Where the table can be loaded and a wallet has a seed, which setSeed takes up on an empty wallet, the wallet can be written
  -- behind it, and is then loaded with that seed and its nick behind the others.
  pub load_wallets-persist_wallet :
      (w : LibBitcoinWallet W) (rows : List WalletRow) (ws : List (LibBitcoinWallet W))
      → w.wallet_type ≡ electrumseed
      → seed_of (with_seed (seed_of w.wallet) no_wallet) ≡ seed_of w.wallet
      → load_wallets rows ≡ some ws
      → (rows' : List WalletRow) × (w' : LibBitcoinWallet W) × (persist_wallet w rows
          ≡ some (success, rows'))
        × (load_wallets rows' ≡ some (ws ++ w' ∷ []))
        × (seed_of w'.wallet ≡ seed_of w.wallet)
        × (w'.nick ≡ w.nick)
  unfolding persist_wallet load_wallets store_my_wallet set_seed mk_wallet load_each load_from
      load_row
  load_wallets-persist_wallet w rows ws e s l =
      let row : WalletRow = record {
        secret = seed_of w.wallet;
        type_of_row = electrumseed;
        row_nick = w.nick;
      } in
      (
        rows ++ row ∷ [],
        record (set_seed (seed_of w.wallet) (mk_wallet electrumseed)) { nick = w.nick },
        ap (λ (x : WalletType). persist_wallet (record w { wallet_type = x }) rows) e,
        load_each-append rows (row ∷ []) (some []) ∙ ap (load_each (row ∷ [])) l,
        s,
        refl,
      )
