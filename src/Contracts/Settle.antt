-- ===== src/Contracts/Settle.antt =====
-- BtcContract::execute on the side of the receiver.
use zero_reserve.Base.{
  Bool, true, false, Option, none, some, ◌≡◌, refl, ◌==◌, ap, sym, ◌∙◌, if◌then◌else◌, Option-cases,
  inl, inr,
}
use zero_reserve.Currency.{Build, get_currency_by_symbol, invalid}
use zero_reserve.Number.{Number, IsOrderedRing, ◌⊕◌, ◌⊖◌, ◌≺◌}
use zero_reserve.Number.Laws.{minus_minus, plus_not_less}
use zero_reserve.Money.{
  Credit, Bank, receiver, spender, blank, new_payment, get_peer_available, deallocate, set_column,
  allocation, balance, init, init_by, commit, new_balance,
}
use zero_reserve.Money.Rows.{load-update_loaded, peer_exists-update, load_peer-again}
use zero_reserve.Contracts.{
  BtcContract, get_fiat_amount, execute, pay, deallocate_funds, is_receiver,
}
use zero_reserve.Contracts.Reserve.{account, HasRow, new_credit-valid}

module _ {N : Type 0} ⦃num : Number N⦄ where
  -- The account once an amount less is allocated, and once it is paid.
  abbrev pub lowered : Credit N → N → Credit N
  lowered c a = record c { allocated = c.allocated ⊖ a }

  abbrev pub paid : Credit N → N → Credit N
  paid c a = record c { balance = c.balance ⊕ a }

  -- execute, behind the two things that it asks.
  abbrev paying : Build → (N → N) → BtcContract N → Option (Bank N) → Option (Bank N)
  paying build stored k none = none
  paying build stored k (some b) = pay build stored receiver k b

  abbrev execute_by : Build → (N → N) → BtcContract N → Bank N → Bool → Option (Bank N)
  execute_by build stored k b to_us =
      let received =
        paying build stored k (deallocate_funds build stored k (get_fiat_amount k) b) in
      if to_us then received else pay build stored spender k b

  execute-by :
      (build : Build) (stored : N → N) (k : BtcContract N) (b : Bank N)
      → execute build stored k b ≡ execute_by build stored k b (is_receiver k.party)
  unfolding execute
  execute-by build stored k b =
      elim (Option-cases (deallocate_funds build stored k (get_fiat_amount k) b)) [
        | inl e ↦ rw (execute, e) refl
        | inr (x, e) ↦ rw (execute, e) refl
      ]

module _ {N : Type 0} ⦃num : Number N⦄ (laws : IsOrderedRing N) where
  module _ (build : Build) (stored : N → N) (k : BtcContract N)
      (valid : (get_currency_by_symbol build k.currency_sym == invalid build) ≡ false) where
    deallocate-lowers :
        (a : N) (b : Bank N)
        → HasRow k b
        → stored ((account k b).allocated ⊖ a) ≡ (account k b).allocated ⊖ a
        → (b' : Bank N) × (deallocate_funds build stored k a b ≡ some b')
          × (account k b' ≡ lowered (account k b) a)
          × HasRow k b'
    unfolding deallocate_funds deallocate set_column
    deallocate-lowers a b row keeps =
        rw (deallocate_funds, new_credit-valid build k.counter_party k.currency_sym valid)
          (
            (deallocate stored a (account k b) b).1,
            refl,
            load-update_loaded stored allocation _ b.peers (blank k.counter_party k.currency_sym)
                  row
                ∙ ap (λ (v : N). record (account k b) { allocated = v }) keeps,
            peer_exists-update stored _ _ allocation _ b.peers k.counter_party k.currency_sym ∙ row,
          )

    pay-pays :
        (b : Bank N)
        → HasRow k b
        → (get_peer_available (account k b) ≺ get_fiat_amount k) ≡ false
        → stored ((account k b).balance ⊕ get_fiat_amount k)
          ≡ (account k b).balance ⊕ get_fiat_amount k
        → (b' : Bank N) × (pay build stored receiver k b ≡ some b')
          × (account k b' ≡ paid (account k b) (get_fiat_amount k))
    unfolding pay new_payment init init_by commit set_column new_balance
    pay-pays b row covered keeps =
        rw
          (
            pay,
            new_payment,
            new_credit-valid build k.counter_party k.currency_sym valid,
            covered,
            load_peer-again b.peers (blank k.counter_party k.currency_sym) row,
          )
          (
            _,
            refl,
            load-update_loaded stored balance _ b.peers (blank k.counter_party k.currency_sym) row
                ∙ ap (λ (v : N). record (account k b) { balance = v }) keeps,
          )

    -- When the contract of a receiver is executed, nothing throws, the account with the friend has the contract's
    -- amount of money less allocated, and its balance is higher by that amount. Before, the friend's
    -- free credit was not negative, and the account had its row; the currency exists, and the two columns
    -- keep the two new numbers.
    pub execute-settles :
        (b : Bank N)
        → HasRow k b
        → is_receiver k.party ≡ true
        → (get_peer_available (account k b) ≺ num.nought) ≡ false
        → stored ((account k b).allocated ⊖ get_fiat_amount k)
          ≡ (account k b).allocated ⊖ get_fiat_amount k
        → stored ((account k b).balance ⊕ get_fiat_amount k)
          ≡ (account k b).balance ⊕ get_fiat_amount k
        → (b'' : Bank N) × (execute build stored k b ≡ some b'')
          × (account k b'' ≡ paid (lowered (account k b) (get_fiat_amount k)) (get_fiat_amount k))
    unfolding execute get_peer_available
    execute-settles b row side free less more =
        let (b', done, lower, row') = deallocate-lowers (get_fiat_amount k) b row less in
        let covered : get_peer_available (account k b') ≺ get_fiat_amount k ≡ false =
          ap (λ (c : Credit N). get_peer_available c ≺ get_fiat_amount k) lower
          ∙ ap (λ (x : N). x ≺ get_fiat_amount k) (minus_minus laws _ _ (get_fiat_amount k))
          ∙ plus_not_less laws _ (get_fiat_amount k) free in
        let same : (account k b').balance ⊕ get_fiat_amount k
            ≡ (account k b).balance ⊕ get_fiat_amount k =
          ap (λ (c : Credit N). c.balance ⊕ get_fiat_amount k) lower in
        let (b'', paid_out, rise) = pay-pays b' row' covered (ap stored same ∙ more ∙ sym same) in
        (
          b'',
          execute-by build stored k b
              ∙ ap (execute_by build stored k b) side
              ∙ ap (paying build stored k) done
              ∙ paid_out,
          rise ∙ ap (λ (c : Credit N). paid c (get_fiat_amount k)) lower,
        )
