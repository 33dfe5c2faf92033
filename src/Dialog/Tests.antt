-- ===== src/Dialog/Tests.antt =====
-- The user's entries, over the server of Satoshi/Example and between two friends.
use zero_reserve.Base.{Text, ℕ, codes, text_eq, [], ◌≡◌, ◌≢◌, refl, true, false, some, none, arith}
use zero_reserve.Base.Int.{ℤ, pos}
use zero_reserve.Currency.{testnet, main, get_currency_by_name, symbol_of, invalid}
use zero_reserve.Number.Whole.{whole, whole-IsOrderedRing}
use zero_reserve.Money.{Bank}
use zero_reserve.Orders.{Desk, Book, asks, bids, mine, ask, bid}
use zero_reserve.Orders.Sorting.{insertion_sort}
use zero_reserve.Satoshi.{mk_order_address, getinfo}
use zero_reserve.Satoshi.Example.{doubles, server}
use zero_reserve.Dialog.{
  Desktop, accepts_client, do_order, placed, not_positive, cannot_place, entered,
}
use zero_reserve.Dialog.Friends.{IsAgreed, edit_friend-agrees}
use zero_reserve.Dialog.Entries.{AllSound, do_order-AllSound}
use zero_reserve.Dialog.Funding.{over_satoshi, IsFundedAsk, do_order-funded}

abbrev kept : ℤ → ℤ
kept x = x

abbrev desktop : Desktop ℤ ℕ
desktop = record {
  build = testnet;
  failing = false;
  stored = kept;
  sort = insertion_sort;
  now = pos 1000;
  id_of = λ o. codes "id";
  mk_address = λ x n. ([], n);
  parse = λ s. none;
  selected = codes "FAU";
}

abbrev empty_book : Book
empty_book = record { orders = []; filtered_orders = []; currency = 0 }

abbrev desk : Desk ℤ
desk = record {
  heap = λ r. entered desktop bid (pos 0) (pos 0);
  bid_book = empty_book;
  ask_book = empty_book;
  my_book = empty_book;
  table = [];
  published = [];
}

not_mine : asks ≢ mine
not_mine e = cc

-- An ask for 4 at 3.
abbrev asking : Desktop ℤ ℕ
asking = over_satoshi doubles server desktop

abbrev after : Desk ℤ
after = (do_order asking asks ask (pos 3) (pos 4) 7 (desk, 0)).1

is_placed : do_order asking asks ask (pos 3) (pos 4) 7 (desk, 0) ≡ (placed, after, 4)
unfolding do_order mk_order_address
is_placed = refl

not_placed : do_order desktop asks ask (pos 3) (pos 4) 7 (desk, 0) ≡ (cannot_place, desk, 0)
unfolding do_order
not_placed = refl

for_nothing : do_order desktop bids bid (pos 0) (pos 4) 7 (desk, 0) ≡ (not_positive, desk, 0)
unfolding do_order
for_nothing = refl

do_order-funded_example : IsFundedAsk doubles server (pos 3) (pos 4) 7 0 after
do_order-funded_example =
    do_order-funded doubles server desktop asks not_mine (pos 3) (pos 4) 7 desk after 0 4 is_placed

do_order-AllSound_example : AllSound after
do_order-AllSound_example =
    do_order-AllSound asking asks not_mine ask (pos 3) (pos 4) 7 desk 0 tt tt

abbrev bank : Bank ℤ
bank = record { peers = []; tx_log = [] }

edit_friend-agrees_example :
    (cur : Text) × (symbol_of testnet (get_currency_by_name testnet (codes "Testnet Bitcoin"))
      ≡ some cur)
    × IsAgreed testnet kept
        (codes "ann")
        (codes "bob")
        (codes "Testnet Bitcoin")
        cur
        (pos 50)
        bank
        bank
unfolding get_currency_by_name invalid text_eq
edit_friend-agrees_example =
    edit_friend-agrees testnet kept whole-IsOrderedRing (codes "ann") (codes "bob")
      (codes "Testnet Bitcoin") (pos 50) bank bank (omega arith) refl

-- The server of Satoshi/Example is on the test network.
other_network : accepts_client main (getinfo doubles server 0).0 ≡ false
unfolding accepts_client getinfo
other_network = refl

same_network : accepts_client testnet (getinfo doubles server 0).0 ≡ true
unfolding accepts_client getinfo
same_network = refl
