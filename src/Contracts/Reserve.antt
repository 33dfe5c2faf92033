-- ===== src/Contracts/Reserve.antt =====
-- BtcContract.cpp: what the constructor reserves for the receiver is what execute pays out.
use zero_reserve.Base.{
  [], ◌∷◌, ◌++◌, true, false, ◌≡◌, refl, some, Text, ◌==◌, Bool-cases, inl, inr, arith, ap, sym,
  ◌∙◌,
}
use zero_reserve.Base.Int.{ℤ, pos}
use zero_reserve.Currency.{Build, get_currency_by_symbol, invalid}
use zero_reserve.Number.{Number, IsOrderedRing, ◌⊕◌, ◌⊖◌, ◌⊗◌, ◌⊘◌, ◌≺◌}
use zero_reserve.Number.Laws.{minus_plus, part_not_less, rest_not_less}
use zero_reserve.Money.{
  Credit, Bank, blank, new_credit, load_peer, peer_exists, get_peer_available, allocate, set_column,
  allocation,
}
use zero_reserve.Money.Rows.{load-update_loaded, peer_exists-update}
use zero_reserve.Contracts.{
  BtcContract, Vault, new_contract, reserve, get_fiat_amount, fiat_within, btc_within, is_receiver,
}

module _ {N : Type 0} ⦃num : Number N⦄ where
  -- The account of the friend that a contract is with, as the database has it.
  abbrev pub account : BtcContract N → Bank N → Credit N
  account k b = load_peer b.peers (blank k.counter_party k.currency_sym)

  -- The database has a row for that account.
  abbrev pub HasRow : BtcContract N → Bank N → Type 0
  HasRow k b = peer_exists b.peers k.counter_party k.currency_sym ≡ true

  within-fiat :
      (free fee price btc : N)
      → ((free ⊖ fee) ⊘ price) ⊗ price ≡ free ⊖ fee
      → btc_within free fee price btc ⊗ price ≡ fiat_within free fee (btc ⊗ price)
  unfolding fiat_within btc_within
  within-fiat free fee price btc e = ground arith

  -- What a contract's account looks like once an amount more is allocated.
  abbrev pub raised : Credit N → N → Credit N
  raised c a = record c { allocated = c.allocated ⊕ a }

  allocate-raises :
      (stored : N → N) (a : N) (c0 : Credit N) (b : Bank N)
      → stored ((load_peer b.peers c0).allocated ⊕ a) ≡ (load_peer b.peers c0).allocated ⊕ a
      → peer_exists b.peers c0.id c0.currency ≡ true
      → get_peer_available (load_peer b.peers c0) ≺ a ≡ false
      → let b' = (allocate stored a (load_peer b.peers c0) b).2 in
        (load_peer b'.peers c0 ≡ raised (load_peer b.peers c0) a)
        × ((i cur : Text) → peer_exists b'.peers i cur ≡ peer_exists b.peers i cur)
  unfolding allocate set_column
  allocate-raises stored a c0 b keeps x e = rw e (
    load-update_loaded stored allocation _ b.peers c0 x
        ∙ ap (λ (v : N). record (load_peer b.peers c0) { allocated = v }) keeps,
    λ i cur. peer_exists-update stored _ _ allocation _ b.peers i cur,
  )

  pub new_credit-valid :
      (build : Build) (i cur : Text)
      → (get_currency_by_symbol build cur == invalid build) ≡ false
      → new_credit {N = N} build i cur ≡ some (blank i cur)
  unfolding new_credit
  new_credit-valid build i cur valid = rw valid refl

  reserve-some :
      (build : Build) (stored : N → N) (k : BtcContract N) (b : Bank N)
      → (get_currency_by_symbol build k.currency_sym == invalid build) ≡ false
      → let free = get_peer_available (account k b) in
        (k.fee ≺ free) ≡ true
        → reserve build stored k b
          ≡ some (
            record k { btc_amount = btc_within free k.fee k.price k.btc_amount },
            (allocate stored (fiat_within free k.fee (get_fiat_amount k)) (account k b) b).2,
          )
  unfolding reserve
  reserve-some build stored k b valid covered =
      rw (reserve, new_credit-valid build k.counter_party k.currency_sym valid, covered) refl

module _ {N : Type 0} ⦃num : Number N⦄ (laws : IsOrderedRing N) where
  fits : (free fee fiat : N) → free ≺ (fiat_within free fee fiat ⊕ fee) ≡ false
  unfolding fiat_within
  fits free fee fiat = elim (Bool-cases (free ≺ fiat ⊕ fee)) [
    | inl e ↦ rw (e, laws.minus-plus free fee) (laws.less_irrefl free)
    | inr e ↦ rw (e, e) refl
  ]

  -- A new contract of a receiver, whose friend has more free credit than the fee, is made and stands at
  -- the end of the list. Exactly its amount of money is allocated on the account with the friend, and
  -- at least the fee stays free, also where the Bitcoins had to be cut down to the free credit. The
  -- currency exists, the account has a row, its column keeps the new allocation, the fee is not negative
  -- and the division by the price is exact.
  pub new_contract-reserves :
      (build : Build) (stored : N → N) (now : ℤ) (k : BtcContract N) (v : Vault N)
      → (get_currency_by_symbol build k.currency_sym == invalid build) ≡ false
      → HasRow k v.bank
      → k.creation_time ≡ pos 0
      → is_receiver k.party ≡ true
      → let free = get_peer_available (account k v.bank) in
        let grown = (account k v.bank).allocated ⊕ fiat_within free k.fee (get_fiat_amount k) in
        stored grown ≡ grown
        → (k.fee ≺ num.nought) ≡ false
        → (k.fee ≺ free) ≡ true
        → ((free ⊖ k.fee) ⊘ k.price) ⊗ k.price ≡ free ⊖ k.fee
        → (c : BtcContract N) × (v' : Vault N) × (new_contract build stored now k v ≡ some (c, v'))
          × (v'.contracts ≡ v.contracts ++ c ∷ [])
          × (account k v'.bank ≡ raised (account k v.bank) (get_fiat_amount c))
          × ((get_peer_available (account k v'.bank) ≺ k.fee) ≡ false)
  unfolding new_contract get_fiat_amount get_peer_available
  new_contract-reserves build stored now k v valid row new side keeps fee covered exact = (
    c,
    record v { bank = b; contracts = v.contracts ++ c ∷ [] },
    rw (new, side, reserve-some build stored k' v.bank valid covered) refl,
    refl,
    grown,
    rw (grown, minus_plus laws) (rest_not_less laws free (get_fiat_amount c) k.fee fitting),
  )
    where
      k' : BtcContract N
      k' = record k { creation_time = now }

      free : N
      free = get_peer_available (account k v.bank)

      c : BtcContract N
      c = record k' { btc_amount = btc_within free k.fee k.price k.btc_amount }

      money : N
      money = fiat_within free k.fee (get_fiat_amount k)

      b : Bank N
      b = (allocate stored money (account k v.bank) v.bank).2

      same_money : get_fiat_amount c ≡ money
      same_money = within-fiat free k.fee k.price k.btc_amount exact

      fitting : free ≺ (get_fiat_amount c ⊕ k.fee) ≡ false
      fitting = rw same_money (fits free k.fee (get_fiat_amount k))

      grown : account k b ≡ raised (account k v.bank) (get_fiat_amount c)
      grown =
          (allocate-raises stored money (blank k.counter_party k.currency_sym) v.bank keeps row
            (part_not_less laws free money k.fee (fits free k.fee (get_fiat_amount k)) fee)).0
          ∙ ap (raised (account k v.bank)) (sym same_money)
