-- ===== src/Transactions/Tests.antt =====
-- Payloads taken apart, and a payment from alice to bob.
use zero_reserve.Base.{
  ℕ, ◌+◌, ◌<◌, false, text_eq, arith, Text, codes, [], ◌∷◌, ◌≡◌, refl, none, some, ◌&&◌,
  if◌then◌else◌,
}
use zero_reserve.Base.Int.{ℤ, pos, negsuc}
use zero_reserve.Currency.{testnet}
use zero_reserve.Number.{◌⊕◌}
use zero_reserve.Number.Whole.{whole, whole-IsOrderedRing}
use zero_reserve.Money.Mirror.{held}
use zero_reserve.Transactions.Local.Mirrored.{pay_to-mirrored}
use zero_reserve.Money.{Credit, Bank, Payment, receiver, spender, payment, commit}
use zero_reserve.Transactions.{split}
use zero_reserve.Transactions.Split.{join, split-join}
use zero_reserve.Base.Dict.{lookup}
use zero_reserve.Transactions.Several.{Ledger, mk_id, start_payment, timeout_managers}
use zero_reserve.Transactions.Ids.{IsNumbered, other_ids, start_payment-IsNumbered}
use zero_reserve.Transactions.Local.{
  Node, exchange, pay_to, get_payment, handle_tx_item, init_item, coordinator, cohort, query, reply,
  vote_yes,
}
use zero_reserve.Transactions.Local.Complete.{Delivered, payee_gets, pay_to-completes}
use zero_reserve.Transactions.Local.Atomic.{idle, busy, accepts, pay_to-atomic}
use zero_reserve.Transactions.Local.Network.{Reach, here, next, payer_ends}
use zero_reserve.Transactions.Local.Ends.{Setting, taken, paid}
use zero_reserve.Transactions.Local.OneSided.{
  payer, payee, IsOutcome, pay_to-IsOutcome, pay_to-payee_only,
}

joined_parts :
    split b':' (join b':' (codes "12") (codes "3" ∷ codes "FAU" ∷ []))
    ≡ codes "12" ∷ codes "3" ∷ codes "FAU" ∷ []
joined_parts =
    split-join b':' (codes "12") (codes "3" ∷ codes "FAU" ∷ []) (refl, (refl, tt))
      ((refl, tt), ((refl, (refl, (refl, tt))), tt)) refl

abbrev kept : ℤ → ℤ
kept x = x

abbrev account_with : Text → ℤ → Credit ℤ
account_with i owed = record {
  id = i;
  currency = codes "FAU";
  our_credit = pos 100;
  credit = pos 80;
  balance = owed;
  allocated = pos 0;
}

abbrev bank_with : Text → ℤ → Bank ℤ
bank_with i owed = record { peers = account_with i owed ∷ []; tx_log = [] }

abbrev pays : Payment ℤ
pays = record {
  role = spender;
  account = account_with (codes "bob") (pos 20);
  amount = pos 30;
  category = payment;
}

abbrev receives : Payment ℤ
receives = record {
  role = receiver;
  account = account_with (codes "alice") (negsuc 19);
  amount = pos 30;
  category = payment;
}

pay_to-atomic_example :
    let a = bank_with (codes "bob") (pos 20) in
    let b = bank_with (codes "alice") (negsuc 19) in
    exchange testnet kept 4
      (pay_to pays (idle testnet kept (codes "alice") a))
      (idle testnet kept (codes "bob") b)
    ≡ (
      idle testnet kept (codes "alice") (
          if accepts testnet kept pays && accepts testnet kept receives
          then (commit kept pays a).2
          else a),
      idle testnet kept (codes "bob") (
          if accepts testnet kept pays && accepts testnet kept receives
          then (commit kept receives b).2
          else b),
    )
unfolding get_payment zero_reserve.Base.text_eq zero_reserve.Money.is_for zero_reserve.Money.fill
pay_to-atomic_example =
    pay_to-atomic testnet kept (codes "alice") (codes "bob") (bank_with (codes "bob") (pos 20))
      (bank_with (codes "alice") (negsuc 19)) pays receives refl

pay_to-mirrored_example :
    let a = bank_with (codes "bob") (pos 20) in
    let b = bank_with (codes "alice") (negsuc 19) in
    let (payer, payee) =
      exchange testnet kept 4
        (pay_to pays (idle testnet kept (codes "alice") a))
        (idle testnet kept (codes "bob") b) in
    held whole-IsOrderedRing payer.bank pays.account
      ⊕ held whole-IsOrderedRing payee.bank receives.account
    ≡ pos 0
unfolding get_payment zero_reserve.Base.text_eq zero_reserve.Money.is_for zero_reserve.Money.fill
    zero_reserve.Money.peer_exists zero_reserve.Base.Int.◌+ℤ◌
pay_to-mirrored_example =
    pay_to-mirrored testnet whole-IsOrderedRing kept (codes "alice") (codes "bob")
      (bank_with (codes "bob") (pos 20)) (bank_with (codes "alice") (negsuc 19)) pays receives refl
      refl refl refl refl refl refl

abbrev setting : Setting ℤ
setting = record {
  build = testnet;
  stored = kept;
  i = codes "alice";
  a = bank_with (codes "bob") (pos 20);
  b = bank_with (codes "alice") (negsuc 19);
  p = pays;
  q = receives;
}

pay_to-payee_only_example :
    Reach testnet kept
      (payer setting (codes "bob"))
      (payee setting (codes "bob"))
      (idle testnet kept (codes "alice") setting.a)
      (idle testnet kept (codes "bob") (taken setting))
unfolding get_payment zero_reserve.Base.text_eq zero_reserve.Money.is_for zero_reserve.Money.fill
    zero_reserve.Money.init zero_reserve.Base.Int.◌+ℤ◌ zero_reserve.Base.Int.◌-ℤ◌
pay_to-payee_only_example = pay_to-payee_only setting (codes "bob") refl refl refl

-- The payer's manager has ended before anything was delivered.
pay_to-IsOutcome_example :
    IsOutcome setting
      (codes "bob")
      (record (payer setting (codes "bob")) { manager = none })
      (payee setting (codes "bob"))
unfolding get_payment zero_reserve.Base.text_eq zero_reserve.Money.is_for zero_reserve.Money.fill
pay_to-IsOutcome_example = pay_to-IsOutcome setting (codes "bob") refl (next here payer_ends)

-- The nodes after bob has got the item that opens the transaction.
abbrev opened : Node ℤ
opened = busy testnet kept (codes "alice") (coordinator pays) setting.a []

abbrev voted : Node ℤ
voted =
    busy testnet kept (codes "bob") (cohort query (some receives)) setting.b
      (reply vote_yes receives ∷ [])

asked_once :
    Delivered setting
      (codes "bob")
      (payer setting (codes "bob"))
      (payee setting (codes "bob"))
      1
      opened
      voted
unfolding pay_to handle_tx_item get_payment zero_reserve.Base.text_eq zero_reserve.Money.is_for
    zero_reserve.Money.fill zero_reserve.Money.init zero_reserve.Base.Int.◌+ℤ◌
    zero_reserve.Base.Int.◌-ℤ◌
asked_once =
    payee_gets [] [] (init_item pays) voted zero_reserve.Transactions.Local.Complete.here refl refl

pay_to-completes_example :
    (left : ℕ) × (1 + left ≡ 4)
    × Delivered setting
        (codes "bob")
        opened
        voted
        left
        (idle testnet kept (codes "alice") (paid setting))
        (idle testnet kept (codes "bob") (taken setting))
unfolding get_payment zero_reserve.Base.text_eq zero_reserve.Money.is_for zero_reserve.Money.fill
    zero_reserve.Money.init zero_reserve.Base.Int.◌+ℤ◌ zero_reserve.Base.Int.◌-ℤ◌
pay_to-completes_example = pay_to-completes setting (codes "bob") refl refl refl asked_once

-- alice has made one payment since her program was started.
abbrev ledger : Ledger ℤ
ledger = record {
  owner = codes "alice";
  sequence = 2;
  managers = (codes "alice:2", coordinator pays) ∷ [];
  bank = setting.a;
  sent = [];
}

no_later : (n : ℕ) → 2 < n → text_eq (mk_id (codes "alice") n) (codes "alice:2") ≡ false
unfolding mk_id
no_later n h = other_ids (codes "alice") 2 n h

ledger-IsNumbered : IsNumbered ledger
unfolding lookup
ledger-IsNumbered n h = rw (no_later n h) refl

start_payment-IsNumbered_example :
    IsNumbered (start_payment pays ledger)
    × (lookup ledger.managers (mk_id (codes "alice") 3) ≡ none)
    × ((other : Text)
        → text_eq other (mk_id (codes "alice") 3) ≡ false
        → lookup (start_payment pays ledger).managers other ≡ lookup ledger.managers other)
start_payment-IsNumbered_example =
    start_payment-IsNumbered pays ledger (omega arith) ledger-IsNumbered

not_late : timeout_managers (pos 60000) (λ id. pos 0) ledger.managers ≡ some ledger.managers
unfolding timeout_managers zero_reserve.Base.Int.◌-ℤ◌
not_late = refl

late : timeout_managers (pos 60001) (λ id. pos 0) ledger.managers ≡ none
unfolding timeout_managers zero_reserve.Base.Int.◌-ℤ◌
late = refl
