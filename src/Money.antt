-- ===== src/Money.antt =====
-- Credit.h, Credit.cpp, Payment.h, Payment.cpp and the tables `peers` and `txlog` of zrdb.cpp: what
-- friends owe one another. SQLite is no part of the repository: a table is the list of its rows, the
-- statements succeed, and `stored` is what a decimal column gives back for a number written to it, as a double of six digits.
pub mod Rows
pub mod Limits
pub mod Mirror
pub mod Totals
pub mod Debts
mod Tests
use zero_reserve.Base.{
  Bool, true, false, List, [], ◌∷◌, ◌++◌, Text, text_eq, ◌&&◌, ◌||◌, if◌then◌else◌, Option, none,
  some, ◌==◌,
}
use zero_reserve.Currency.{Build, get_currency_by_symbol, invalid}
use zero_reserve.Number.{Number, ◌⊕◌, ◌⊖◌, ◌≺◌}
use zero_reserve.Orders.{RetVal, failure, success}

-- class Credit, and a row of the table `peers`. The field `m_fee` is read by nothing.
pub record Credit (N : Type 0) : Type 0 where
  pub id : Text
  pub currency : Text
  pub our_credit : N
  pub credit : N
  pub balance : N
  pub allocated : N

-- The columns that updatePeerCredit is called with.
pub data Column : Type 0 where
  credit our_credit balance allocation : Column

-- A row of the table `txlog`, without its time.
pub record TxLogItem (N : Type 0) : Type 0 where
  pub log_id : Text
  pub log_currency : Text
  pub log_amount : N

pub record Bank (N : Type 0) : Type 0 where
  pub peers : List (Credit N)
  pub tx_log : List (TxLogItem N)

-- Payment::Category
pub data Category : Type 0 where
  payment debt_cancel bitcoin_contract : Category

-- class PaymentReceiver and class PaymentSpender
pub data Role : Type 0 where
  receiver spender : Role

pub record Payment (N : Type 0) : Type 0 where
  pub role : Role
  pub account : Credit N
  pub amount : N
  pub category : Category

module _ {N : Type 0} where
  -- The condition `id = … and currency = …`.
  unfoldable pub is_for : Text → Text → Credit N → Bool
  is_for i cur row = text_eq row.id i && text_eq row.currency cur

  unfoldable pub set_column : Column → N → Credit N → Credit N
  set_column credit v row = record row { credit = v }
  set_column our_credit v row = record row { our_credit = v }
  set_column balance v row = record row { balance = v }
  set_column allocation v row = record row { allocated = v }

  -- ZrDB::setPeerCredit: the row's numbers over those of `c`.
  unfoldable pub fill : Credit N → Credit N → Credit N
  fill c row = record c {
    credit = row.credit;
    our_credit = row.our_credit;
    balance = row.balance;
    allocated = row.allocated;
  }

  -- ZrDB::peerExists
  unfoldable pub peer_exists : List (Credit N) → Text → Text → Bool
  peer_exists [] i cur = false
  peer_exists (row ∷ rows) i cur = is_for i cur row || peer_exists rows i cur

  -- ZrDB::updatePeerCredit
  unfoldable pub update_peer :
      (N → N) → Text → Text → Column → N → List (Credit N) → List (Credit N)
  unfolding set_column
  update_peer stored i cur col v [] = []
  update_peer stored i cur col v (row ∷ rows) =
      (if is_for i cur row then set_column col (stored v) row else row)
      ∷ update_peer stored i cur col v rows

  -- ZrDB::loadPeer: the callback runs for each row that fits.
  unfoldable pub load_peer : List (Credit N) → Credit N → Credit N
  load_peer [] c = c
  load_peer (row ∷ rows) c = load_peer rows (if is_for c.id c.currency row then fill c row else c)

-- What commit returns once the statements have succeeded.
unfoldable pub commit_result : Category → RetVal
commit_result payment = success
commit_result debt_cancel = failure
commit_result bitcoin_contract = failure

module _ {N : Type 0} ⦃num : Number N⦄ where
  -- A row of the currency with no credit, which is also how the numbers of a Credit begin.
  abbrev pub blank : Text → Text → Credit N
  blank i cur = record {
    id = i;
    currency = cur;
    our_credit = num.nought;
    credit = num.nought;
    balance = num.nought;
    allocated = num.nought;
  }

  -- The constructor of class Credit. It throws for a symbol of no currency: `none`.
  unfoldable pub new_credit : Build → Text → Text → Option (Credit N)
  unfolding get_currency_by_symbol invalid
  new_credit build i cur =
      if get_currency_by_symbol build cur == invalid build then none else some (blank i cur)

  -- ZrDB::createPeerRecord
  unfoldable pub create_peer : List (Credit N) → Text → Text → List (Credit N)
  create_peer rows i cur = rows ++ blank i cur ∷ []

  -- Credit::getPeerAvailable
  unfoldable pub get_peer_available : Credit N → N
  get_peer_available c = c.credit ⊖ c.balance ⊖ c.allocated

  -- Credit::getMyAvailable
  unfoldable pub get_my_available : Credit N → N
  get_my_available c = c.our_credit ⊕ c.balance

  -- Credit::allocate
  unfoldable pub allocate : (N → N) → N → Credit N → Bank N → RetVal × Credit N × Bank N
  unfolding get_peer_available update_peer
  allocate stored a c b =
      let sum = c.allocated ⊕ a in
      if get_peer_available c ≺ a then (failure, c, b) else (
        success,
        record c { allocated = sum },
        record b { peers = update_peer stored c.id c.currency allocation sum b.peers },
      )

  -- Credit::deallocate
  unfoldable pub deallocate : (N → N) → N → Credit N → Bank N → Credit N × Bank N
  unfolding update_peer
  deallocate stored a c b =
      let rest = c.allocated ⊖ a in
      (
        record c { allocated = rest },
        record b { peers = update_peer stored c.id c.currency allocation rest b.peers },
      )

  -- The first half of updateCredit and updateOurCredit.
  unfoldable pub ensure_peer : Credit N → Bank N → Bank N
  unfolding peer_exists create_peer
  ensure_peer c b =
      if peer_exists b.peers c.id c.currency
      then b
      else record b { peers = create_peer b.peers c.id c.currency }

  -- Credit::updateCredit
  unfoldable pub update_credit : (N → N) → Credit N → Bank N → Bank N
  unfolding ensure_peer update_peer
  update_credit stored c b =
      let b' = ensure_peer c b in
      record b' { peers = update_peer stored c.id c.currency credit c.credit b'.peers }

  -- Credit::updateOurCredit
  unfoldable pub update_our_credit : (N → N) → Credit N → Bank N → Bank N
  unfolding ensure_peer update_peer
  update_our_credit stored c b =
      let b' = ensure_peer c b in
      record b' { peers = update_peer stored c.id c.currency our_credit c.our_credit b'.peers }

  -- The constructor of class Payment.
  unfoldable pub new_payment :
      Build → Role → Text → N → Text → Category → Bank N → Option (Payment N)
  unfolding new_credit load_peer
  new_payment build role i a cur cat b = elim (new_credit build i cur) [
    | none ↦ none
    | some c ↦
        some (record { role = role; account = load_peer b.peers c; amount = a; category = cat })
  ]

  -- Payment::setCounterparty
  unfoldable pub set_counterparty : Text → Payment N → Bank N → Payment N
  unfolding load_peer
  set_counterparty i p b = record p { account = load_peer b.peers (record p.account { id = i }) }

  -- newBalance of the two classes.
  unfoldable pub new_balance : Role → Credit N → N → N
  new_balance receiver c a = c.balance ⊕ a
  new_balance spender c a = c.balance ⊖ a

  -- The amount that commit writes to the log.
  unfoldable pub logged : Role → N → N
  logged receiver a = a
  logged spender a = num.nought ⊖ a

  -- init of the two classes.
  unfoldable pub init_by : Role → Category → N → Credit N → RetVal
  unfolding get_peer_available get_my_available
  init_by receiver payment a c = if get_peer_available c ≺ a then failure else success
  init_by receiver debt_cancel a c = failure
  init_by receiver bitcoin_contract a c = failure
  init_by spender cat a c = if get_my_available c ≺ a then failure else success

  unfoldable pub init : Payment N → RetVal
  unfolding init_by
  init p = init_by p.role p.category p.amount p.account

  -- commit of the two classes.
  unfoldable pub commit : (N → N) → Payment N → Bank N → RetVal × Payment N × Bank N
  unfolding load_peer new_balance logged update_peer commit_result
  commit stored p b =
      let c = load_peer b.peers p.account in
      let new = new_balance p.role c p.amount in
      (
        commit_result p.category,
        record p { account = record c { balance = new } },
        record {
          peers = update_peer stored c.id c.currency balance new b.peers;
          tx_log =
              b.tx_log
              ++ record {
                log_id = c.id;
                log_currency = c.currency;
                log_amount = stored (logged p.role p.amount);
              }
                ∷ [];
        },
      )
