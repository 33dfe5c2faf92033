-- ===== src/Remote/Tests.antt =====
-- Remote contracts at concrete values: bob asks for four Bitcoins of an order of ten.
use zero_reserve.Base.{
  ℕ, Bool, true, false, List, [], ◌∷◌, ◌++◌, Option, none, some, Text, codes, ◌≡◌, refl, ◌⊎◌, ◌==◌,
  if◌then◌else◌,
}
use zero_reserve.Base.Int.{ℤ, pos}
use zero_reserve.Currency.{testnet}
use zero_reserve.Number.{◌⊖◌, ◌≺◌}
use zero_reserve.Number.Whole.{whole, whole-IsOrderedRing}
use zero_reserve.Money.{Bank}
use zero_reserve.Orders.{
  Order, Desk, Heap, Book, bid, ask, fresh, partly_filled, success, failure, finish,
}
use zero_reserve.Orders.Sorting.{insertion_sort}
use zero_reserve.Transactions.Local.{query, vote_yes, order_commit, abort}
use zero_reserve.Contracts.{BtcContract, sending, receiving, rm_contract}
use zero_reserve.Wire.Signs.{signs}
use zero_reserve.Remote.{
  Trade, Parcel, Outcome, returned, threw, undefined, server, vault_of, rm_deal,
}
use zero_reserve.Remote.Terms.{Vote, write_terms, write_vote}
use zero_reserve.Remote.Coordinator.{Buyer, process_buyer}
use zero_reserve.Remote.Payee.{RawTx, Seller, new_seller, process_seller}
use zero_reserve.Remote.Commitment.{process_seller-abort, process_seller-commit}
use zero_reserve.Remote.Answers.{Committed}
use zero_reserve.Remote.Votes.{voted_deal, process_buyer-vote}
use zero_reserve.Remote.Refinement.{rm_deal-rm_contract}

abbrev kept : ℤ → ℤ
kept x = x

abbrev bob_bank : Bank ℤ
bob_bank = record {
  peers =
      record {
        id = codes "bob";
        currency = codes "FAU";
        our_credit = pos 100;
        credit = pos 80;
        balance = pos 20;
        allocated = pos 5;
      }
      ∷ [];
  tx_log = [];
}

abbrev ask_order : Order ℤ
ask_order = record {
  order_id = codes "a1";
  is_my_order = true;
  order_type = ask;
  amount = pos 10;
  price = pos 3;
  currency = 0;
  time_stamp = pos 1;
  purpose = fresh;
  commitment = pos 2;
  btc_addr = codes "from";
  locked = false;
  ignored = false;
  matched = [];
}

abbrev orders : Heap ℤ
orders q =
    if q == 0
    then ask_order
    else record ask_order { order_id = codes "b1"; order_type = bid; amount = pos 6 }

abbrev shelf : List ℕ → Book
shelf rs = record { orders = rs; filtered_orders = rs; currency = 0 }

abbrev desk : Desk ℤ
desk = record {
  heap = orders;
  bid_book = shelf (1 ∷ []);
  ask_book = shelf (0 ∷ []);
  my_book = shelf (0 ∷ 1 ∷ []);
  table = [];
  published = [];
}

abbrev deal_of : Text → ℤ → BtcContract ℤ
deal_of friend a = record {
  btc_tx_id = [];
  btc_amount = a;
  price = pos 3;
  currency_sym = codes "FAU";
  party = sending;
  counter_party = friend;
  activated = false;
  dest_address = codes "to";
  creation_time = pos 5;
  fee = pos 0;
}

-- A contract to pay amy stands at 0, and one to be paid by bob at 1.
abbrev deals : ℕ → BtcContract ℤ
deals r =
    if r == 0
    then deal_of (codes "amy") (pos 4)
    else record (deal_of (codes "bob") (pos 4)) { party = receiving }

abbrev trade : List ℕ → Trade ℤ
trade rs = record {
  desk = desk;
  bank = bob_bank;
  deal = deals;
  next = 2;
  contracts = rs;
  rows = [];
  router = record {
    routing_table = (codes "a1", codes "amy") ∷ [];
    tunnels = (codes "a1", (codes "bob", codes "amy")) ∷ [];
  };
  sent = [];
  raw_sent = [];
}

abbrev item_with : Text → Parcel
item_with payload = record {
  peer = codes "bob";
  address = codes "a1";
  phase = query;
  direction = server;
  payer_id = codes "b1";
  payload = payload;
}

abbrev asked : Parcel
asked = item_with (
    write_terms signs (record {
      fiat = pos 12;
      symbol = codes "FAU";
      destination = codes "to";
      btc = pos 4;
      fee = pos 0;
    }))

abbrev made_tx : ℤ → Text → Text → RawTx
made_tx a from to = record {
  made = true;
  hex = codes "hex";
  raw_id = codes "tx";
  own_address = codes "change";
}

abbrev out : Outcome Seller ℤ
out =
    process_seller testnet kept signs insertion_sort (pos 9) made_tx
      (record asked { phase = query }) new_seller (trade [])

abbrev trade_of : {S : Type 0} → Outcome S ℤ → Trade ℤ
trade_of (returned v s t) = t
trade_of (threw s t) = t
trade_of undefined = trade []

abbrev waiting : Seller
waiting = record { phase = query; my_order = some 0; payee = some 2; tx_hex = codes "hex" }

accepted : out ≡ returned success waiting (trade_of out)
unfolding process_seller zero_reserve.Base.text_eq write_terms zero_reserve.Wire.Signs.write_number
    zero_reserve.Wire.Signs.read_number zero_reserve.Base.Int.◌-ℤ◌ zero_reserve.Money.is_for
    zero_reserve.Money.fill zero_reserve.Base.Int.◌/ℤ◌
accepted = refl

process_seller-abort_example :
    (t'' : Trade ℤ) × (c : Committed made_tx (trade []) waiting (trade_of out)) × (process_seller
        testnet kept signs insertion_sort
        (pos 9)
        made_tx
        (record asked { phase = abort })
        waiting
        (trade_of out)
      ≡ returned failure waiting t'')
    × ((i : ℕ)
        → t''.desk.heap i ≡ (
            if i == c.order_at
            then record (orders c.order_at) { btc_addr = c.raw.own_address }
            else orders i))
process_seller-abort_example =
    process_seller-abort whole-IsOrderedRing testnet kept signs insertion_sort (pos 9) made_tx asked
      asked new_seller waiting (trade []) (trade_of out) accepted refl

process_seller-commit_example :
    (s'' : Seller) × (t'' : Trade ℤ) × (c : Committed made_tx (trade []) waiting (trade_of out))
    × (process_seller testnet kept signs insertion_sort
          (pos 9)
          made_tx
          (record asked { phase = order_commit })
          waiting
          (trade_of out)
        ≡ returned finish s'' t'')
    × (t''.raw_sent ≡ c.raw.hex ∷ (trade_of out).raw_sent)
    × (t''.rows
        ≡ (trade_of out).rows ++ record ((trade_of out).deal c.deal_at) { activated = true } ∷ [])
    × ((((trade_of out).deal c.deal_at).btc_amount ≺ (orders c.order_at).amount ≡ false)
        ⊎ (t''.desk.heap c.order_at ≡ record (orders c.order_at) {
          purpose = partly_filled;
          amount = (orders c.order_at).amount ⊖ ((trade_of out).deal c.deal_at).btc_amount;
          btc_addr = c.raw.own_address;
        }))
process_seller-commit_example =
    process_seller-commit whole-IsOrderedRing testnet kept signs insertion_sort (pos 9) made_tx
      asked asked new_seller waiting (trade []) (trade_of out) accepted refl

abbrev lower_vote : Vote ℤ
lower_vote = record { voted = pos 3; voted_id = codes "tx" }

abbrev answer : Parcel
answer = item_with (write_vote signs lower_vote)

abbrev amy_buyer : Buyer
amy_buyer = record { other = 0; my_order = some 1; payer = some 0 }

process_buyer-vote_example :
    let voted_out =
      process_buyer testnet kept signs insertion_sort
        (record answer { phase = vote_yes })
        amy_buyer
        (trade (0 ∷ [])) in
    ((t' : Trade ℤ) × (voted_out ≡ returned failure amy_buyer t')
      × ((pos 4 ≺ pos 3) ≡ true)
      × (record t' { sent = [] } ≡ trade (0 ∷ [])))
    ⊎ ((s' : Buyer) × (t' : Trade ℤ) × (p : Parcel) × (voted_out ≡ returned finish s' t')
        × ((pos 4 ≺ pos 3) ≡ false)
        × (t'.deal 0 ≡ voted_deal lower_vote (deals 0))
        × (t'.rows ≡ voted_deal lower_vote (deals 0) ∷ [])
        × (t'.bank ≡ bob_bank)
        × (t'.sent ≡ p ∷ [])
        × (p.phase ≡ order_commit)
        × (p.peer ≡ codes "amy"))
unfolding zero_reserve.Remote.Terms.read_vote write_vote zero_reserve.Wire.Signs.write_number
    zero_reserve.Wire.Signs.read_number
process_buyer-vote_example =
    process_buyer-vote whole-IsOrderedRing testnet kept signs insertion_sort answer amy_buyer
      (trade (0 ∷ [])) lower_vote 0 1 refl refl refl refl

given_up :
    vault_of (rm_deal testnet kept 1 (trade (0 ∷ 1 ∷ [])))
    ≡ rm_contract testnet kept (deals 1) (vault_of (trade (0 ∷ 1 ∷ [])))
given_up = rm_deal-rm_contract testnet kept 1 (trade (0 ∷ 1 ∷ []))
