-- ===== src/Money/Tests.antt =====
-- Payments on small databases.
use zero_reserve.Currency.{testnet}
use zero_reserve.Base.{Text, text_eq, List, some, codes, [], ◌∷◌, ◌≡◌, refl, true, false, inl, inr}
use zero_reserve.Base.Int.{ℤ, pos, negsuc}
use zero_reserve.Number.Whole.{whole, whole-IsOrderedRing}
use zero_reserve.Number.{◌⊕◌, ◌⊖◌, ◌≺◌}
use zero_reserve.Orders.{success}
use zero_reserve.Money.{
  Credit, Bank, Payment, receiver, spender, payment, load_peer, peer_exists, get_peer_available,
  new_balance, init, init_by, commit, allocate, deallocate, is_for, fill,
}
use zero_reserve.Money.Limits.{commit-WithinLimits, allocate-reserves}
use zero_reserve.Money.Totals.{
  IsNet, load_grand_total, delete_peer_record, load_credits, load_grand_total-IsNet,
  delete_peer_record-all,
}
use zero_reserve.Money.Mirror.{held, total, Explained, commit-mirrored, commit-Explained}

abbrev kept : ℤ → ℤ
kept x = x

-- An account with the friend `i`, who owes `balance`.
abbrev account_with : Text → ℤ → ℤ → Credit ℤ
account_with i owed reserved = record {
  id = i;
  currency = codes "FAU";
  our_credit = pos 100;
  credit = pos 80;
  balance = owed;
  allocated = reserved;
}

abbrev bank_with : Text → ℤ → Bank ℤ
bank_with i owed = record { peers = account_with i owed (pos 5) ∷ []; tx_log = [] }

abbrev alice_bank : Bank ℤ
alice_bank = bank_with (codes "bob") (pos 20)

abbrev bob_bank : Bank ℤ
bob_bank = bank_with (codes "alice") (negsuc 19)

abbrev alice_pays : Payment ℤ
alice_pays = record {
  role = spender;
  account = account_with (codes "bob") (pos 20) (pos 5);
  amount = pos 30;
  category = payment;
}

abbrev bob_receives : Payment ℤ
bob_receives = record {
  role = receiver;
  account = account_with (codes "alice") (negsuc 19) (pos 5);
  amount = pos 30;
  category = payment;
}

balance_after : (commit kept alice_pays alice_bank).1.account.balance ≡ negsuc 9
unfolding commit load_peer is_for fill new_balance zero_reserve.Base.Int.◌-ℤ◌
    zero_reserve.Base.text_eq
balance_after = refl

commit-WithinLimits_example :
    let c = (commit kept bob_receives bob_bank).1.account in
    (get_peer_available c ≡ get_peer_available bob_receives.account ⊖ pos 30)
    × ((get_peer_available c ≺ pos 0) ≡ false)
unfolding init init_by get_peer_available load_peer is_for fill zero_reserve.Base.Int.◌-ℤ◌
    zero_reserve.Base.text_eq
commit-WithinLimits_example =
    commit-WithinLimits whole-IsOrderedRing kept bob_receives bob_bank refl refl

commit-mirrored_example :
    held whole-IsOrderedRing (commit kept alice_pays alice_bank).2 alice_pays.account
      ⊕ held whole-IsOrderedRing (commit kept bob_receives bob_bank).2 bob_receives.account
    ≡ pos 0
unfolding peer_exists load_peer is_for fill zero_reserve.Base.text_eq zero_reserve.Base.Int.◌+ℤ◌
commit-mirrored_example =
    commit-mirrored whole-IsOrderedRing kept alice_pays bob_receives alice_bank bob_bank refl refl
      refl refl refl refl refl refl

-- A log that accounts for a balance of 20.
abbrev logged_bank : Bank ℤ
logged_bank = record alice_bank {
  tx_log = record { log_id = codes "bob"; log_currency = codes "FAU"; log_amount = pos 20 } ∷ [];
}

commit-Explained_example :
    Explained whole-IsOrderedRing (commit kept alice_pays logged_bank).2 alice_pays.account
unfolding peer_exists load_peer is_for fill total zero_reserve.Base.text_eq
    zero_reserve.Base.Int.◌+ℤ◌
commit-Explained_example =
    commit-Explained whole-IsOrderedRing kept alice_pays logged_bank alice_pays.account refl refl
      refl (inl refl) refl

abbrev bob_account : Credit ℤ
bob_account = account_with (codes "bob") (pos 20) (pos 5)

reserved_half :
    let c' = (allocate kept (pos 55) bob_account alice_bank).1 in
    let b' = (allocate kept (pos 55) bob_account alice_bank).2 in
    ((allocate kept (pos 55) bob_account alice_bank).0 ≡ success)
    × (get_peer_available c' ≡ get_peer_available bob_account ⊖ pos 55)
    × ((get_peer_available c' ≺ pos 0) ≡ false)
    × (load_peer b'.peers bob_account ≡ c')
    × ((deallocate kept (pos 55) c' b').0 ≡ bob_account)
unfolding peer_exists get_peer_available load_peer is_for fill zero_reserve.Base.text_eq
    zero_reserve.Base.Int.◌-ℤ◌
reserved_half =
    allocate-reserves whole-IsOrderedRing kept (pos 55) bob_account alice_bank refl refl refl refl

-- A friend who is owed 7, and one who owes 20 in one currency and 3 in another.
abbrev three_rows : List (Credit ℤ)
three_rows =
    account_with (codes "alice") (negsuc 6) (pos 0)
    ∷ account_with (codes "bob") (pos 20) (pos 5)
    ∷ record (account_with (codes "bob") (pos 3) (pos 0)) { currency = codes "OIL" }
    ∷ []

load_grand_total-IsNet_example : IsNet (load_grand_total three_rows (codes "FAU"))
load_grand_total-IsNet_example = load_grand_total-IsNet whole-IsOrderedRing three_rows (codes "FAU")

shown : load_grand_total three_rows (codes "FAU") ≡ record {
  currency = codes "FAU";
  our_credit = pos 200;
  credit = pos 160;
  outstanding = pos 20;
  debt = pos 7;
  balance = pos 13;
}
unfolding load_grand_total zero_reserve.Base.text_eq zero_reserve.Base.Int.◌+ℤ◌
    zero_reserve.Base.Int.◌-ℤ◌
shown = refl

abbrev alice_row : List (Credit ℤ)
alice_row = account_with (codes "alice") (negsuc 6) (pos 0) ∷ []

bob_deleted :
    (load_credits testnet (codes "bob") alice_row ≡ some [])
    × ((j : Text)
        → text_eq (codes "bob") j ≡ false
        → load_credits testnet j alice_row ≡ load_credits testnet j three_rows)
unfolding delete_peer_record zero_reserve.Base.text_eq zero_reserve.Currency.invalid
bob_deleted = delete_peer_record-all testnet (codes "bob") three_rows alice_row refl
