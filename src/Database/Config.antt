-- ===== src/Database/Config.antt =====
-- The table `config` of zrdb.cpp: a list of rows, into which setConfig inserts and of which getConfig reads the last
-- that has the key. Opening the database fills a new one and brings an old version up to date.
use zero_reserve.Base.{
  Bool, true, false, ◌≡◌, refl, List, [], ◌∷◌, ◌++◌, Text, text_eq, text_eq_refl, text_eq_sound,
  is_empty, codes, if◌then◌else◌, not, Bool-cases, inl, inr, ap, sym, subst, ◌∙◌,
}

-- A row of the table `config`.
pub record ConfigRow : Type 0 where
  pub key : Text
  pub value : Text

abbrev pub txlogpath : Text
txlogpath = codes "TXLOGPATH"

abbrev pub db_version : Text
db_version = codes "DB_VERSION"

abbrev pub minimum_fee : Text
minimum_fee = codes "MINIMUM_FEE"

abbrev pub percentage_fee : Text
percentage_fee = codes "PERCENTAGE_FEE"

-- REQUIRED_DB_VERSION
abbrev pub required_db_version : Text
required_db_version = codes "0"

-- ZrDB::setConfig
unfoldable pub set_config : Text → Text → List ConfigRow → List ConfigRow
set_config k v rows = rows ++ record { key = k; value = v } ∷ []

-- ZrDB::updateConfig
unfoldable pub update_config : Text → Text → List ConfigRow → List ConfigRow
update_config k v [] = []
update_config k v (row ∷ rows) =
    (if text_eq row.key k then record row { value = v } else row) ∷ update_config k v rows

-- The callback of getConfig runs for each row that fits, and `value` is m_config_value.
unfoldable pub config_value : Text → Text → List ConfigRow → Text
config_value value k [] = value
config_value value k (row ∷ rows) =
    config_value (if text_eq row.key k then row.value else value) k rows

-- ZrDB::getConfig
unfoldable pub get_config : Text → List ConfigRow → Text
unfolding config_value
get_config k rows = config_value [] k rows

-- What ZrDB::init writes where there is no database at `pathname` yet.
unfoldable pub new_config : Text → List ConfigRow
unfolding set_config
new_config pathname = set_config percentage_fee (codes "0/1") (
    set_config minimum_fee (codes "0/1") (
      set_config db_version required_db_version
        (set_config txlogpath (pathname ++ codes "/zeroreserve.tx") [])))

-- The check of the version at the end of ZrDB::init.
unfoldable pub update_version : List ConfigRow → List ConfigRow
unfolding get_config set_config
update_version rows =
    if not (text_eq (get_config db_version rows) required_db_version)
    then if text_eq (get_config db_version rows) (codes "a")
      then set_config db_version required_db_version rows
      else rows
    else rows

-- ZrDB::init. `db_exists`: there is a database file.
unfoldable pub init_config : Bool → Text → List ConfigRow → List ConfigRow
unfolding new_config update_version
init_config db_exists pathname rows =
    update_version (if db_exists then rows else new_config pathname)

-- DBConfig::editTxLog, with the path that the user chose: nothing is done where there is none.
unfoldable pub edit_tx_log : Text → List ConfigRow → List ConfigRow
unfolding update_config
edit_tx_log chosen rows = if is_empty chosen then rows else update_config txlogpath chosen rows

config_value-append :
    (value k : Text) (rows more : List ConfigRow)
    → config_value value k (rows ++ more) ≡ config_value (config_value value k rows) k more
unfolding config_value
config_value-append value k [] more = refl
config_value-append value k (row ∷ rows) more =
    config_value-append (if text_eq row.key k then row.value else value) k rows more

-- Whatever the table holds, the value that setConfig was called with last is the one that getConfig returns, and the values
-- of other keys are as before.
pub get_config-set_config :
    (k v k' : Text) (rows : List ConfigRow)
    → get_config k' (set_config k v rows) ≡ (if text_eq k k' then v else get_config k' rows)
unfolding get_config set_config config_value
get_config-set_config k v k' rows =
    config_value-append [] k' rows (record { key = k; value = v } ∷ [])

-- A row has the key.
abbrev pub has_key : Text → List ConfigRow → Bool
has_key k [] = false
has_key k (row ∷ rows) = if text_eq row.key k then true else has_key k rows

value-update :
    (k v value : Text) (rows : List ConfigRow)
    → config_value value k (update_config k v rows) ≡ (if has_key k rows then v else value)
unfolding config_value update_config
value-update k v value [] = refl
value-update k v value (row ∷ rows) = elim (Bool-cases (text_eq row.key k)) [
  | inl e ↦ rw (e, e) (value-update k v v rows ∙ same (has_key k rows))
  | inr e ↦ rw (e, e) (value-update k v value rows)
]
  where
    same : (x : Bool) → (if x then v else v) ≡ v
    same true = refl
    same false = refl

value-update_ne :
    (k v k' value : Text) (rows : List ConfigRow)
    → text_eq k k' ≡ false
    → config_value value k' (update_config k v rows) ≡ config_value value k' rows
unfolding config_value update_config
value-update_ne k v k' value [] n = refl
value-update_ne k v k' value (row ∷ rows) n = elim (Bool-cases (text_eq row.key k)) [
  | inl e ↦
      let other : text_eq row.key k' ≡ false =
        ap (λ (x : Text). text_eq x k') (text_eq_sound row.key k e) ∙ n in
      rw (e, other) (value-update_ne k v k' value rows n)
  | inr e ↦ rw e (value-update_ne k v k' (if text_eq row.key k' then row.value else value) rows n)
]

-- After updateConfig getConfig returns the new value where the key has a row and nothing where it has none, and the values
-- of other keys are as before.
pub get_config-update_config :
    (k v k' : Text) (rows : List ConfigRow)
    → get_config k' (update_config k v rows)
      ≡ (if text_eq k k' then (if has_key k rows then v else []) else get_config k' rows)
unfolding get_config
get_config-update_config k v k' rows = elim (Bool-cases (text_eq k k')) [
  | inl e ↦ rw e (
      ap (λ (x : Text). config_value [] x (update_config k v rows)) (sym (text_eq_sound k k' e))
      ∙ value-update k v [] rows)
  | inr e ↦ rw e (value-update_ne k v k' [] rows e)
]

-- A database that is new, or of the version that is required or of the one before it.
pub data IsKnown (db_exists : Bool) (rows : List ConfigRow) : Type 0 where
  new : db_exists ≡ false → IsKnown db_exists rows
  current : get_config db_version rows ≡ required_db_version → IsKnown db_exists rows
  old : get_config db_version rows ≡ codes "a" → IsKnown db_exists rows

set_version :
    (rows : List ConfigRow)
    → get_config db_version (set_config db_version required_db_version rows) ≡ required_db_version
set_version rows =
    get_config-set_config db_version required_db_version db_version rows
    ∙ rw (text_eq_refl db_version) refl

update-current :
    (rows : List ConfigRow)
    → get_config db_version rows ≡ required_db_version
    → update_version rows ≡ rows
unfolding update_version
update-current rows e =
    let same : text_eq (get_config db_version rows) required_db_version ≡ true =
      rw e (text_eq_refl required_db_version) in
    rw same refl

update-old :
    (rows : List ConfigRow)
    → get_config db_version rows ≡ codes "a"
    → update_version rows ≡ set_config db_version required_db_version rows
unfolding update_version text_eq
update-old rows e = rw e refl

version-new : (pathname : Text) → get_config db_version (new_config pathname) ≡ required_db_version
unfolding get_config config_value new_config text_eq set_config
version-new pathname = refl

-- What init leaves of the rows it starts from.
record IsUpdated (k : Text) (start rows' : List ConfigRow) : Type 0 where
  read :
      get_config k rows'
      ≡ (if text_eq db_version k then required_db_version else get_config k start)
  settled : update_version rows' ≡ rows'

IsUpdated-current :
    (k : Text) (start : List ConfigRow)
    → get_config db_version start ≡ required_db_version
    → IsUpdated k start (update_version start)
IsUpdated-current k start e = subst (IsUpdated k start) (sym (update-current start e)) (record {
  read = elim (Bool-cases (text_eq db_version k)) [
    | inl v ↦ rw v (ap (λ (x : Text). get_config x start) (sym (text_eq_sound db_version k v)) ∙ e)
    | inr v ↦ rw v refl
  ];
  settled = update-current start e;
})

IsUpdated-old :
    (k : Text) (start : List ConfigRow)
    → get_config db_version start ≡ codes "a"
    → IsUpdated k start (update_version start)
IsUpdated-old k start e = subst (IsUpdated k start) (sym (update-old start e)) (record {
  read = get_config-set_config db_version required_db_version k start;
  settled = update-current (set_config db_version required_db_version start) (set_version start);
})

-- ZrDB::init leaves a database that is new, current or of version "a" at the required version and with the values that
-- it had, or that a new one is given, of all other keys; and run again, at any path, it changes nothing.
pub init_config-current :
    (db_exists : Bool) (pathname pathname' k : Text) (rows : List ConfigRow)
    → IsKnown db_exists rows
    → let start = if db_exists then rows else new_config pathname in
      let rows' = init_config db_exists pathname rows in
      (get_config k rows'
        ≡ (if text_eq db_version k then required_db_version else get_config k start))
      × (init_config true pathname' rows' ≡ rows')
unfolding init_config
init_config-current false pathname pathname' k rows v =
    let u = IsUpdated-current k (new_config pathname) (version-new pathname) in (u.read, u.settled)
init_config-current true pathname pathname' k rows (new e) = cc
init_config-current true pathname pathname' k rows (current e) =
    let u = IsUpdated-current k rows e in (u.read, u.settled)
init_config-current true pathname pathname' k rows (old e) =
    let u = IsUpdated-old k rows e in (u.read, u.settled)
