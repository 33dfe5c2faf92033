-- ===== src/Contracts/Polling.antt =====
-- BtcContract::pollContracts: which contracts a round of polling ends, and what it does for them.
use zero_reserve.Base.{
  ℕ, Bool, true, false, List, [], ◌∷◌, ◌++◌, Option, none, some, ◌≡◌, refl, Text, keep, not, leb,
  if◌then◌else◌, ◌∙◌, ◌&&◌, ◌||◌, ◌⊎◌, inl, inr, Bool-cases, Option-cases, ap, ap₂, sym, subst,
  arith, ◌==◌,
}
use zero_reserve.Base.Int.{ℤ, ◌-ℤ◌, ltb_ℤ}
use zero_reserve.Currency.{Build, get_currency_by_symbol, invalid}
use zero_reserve.Number.{Number}
use zero_reserve.Money.{Bank, Role, receiver, spender, new_credit, new_payment}
use zero_reserve.Contracts.{
  BtcContract, Vault, contract_timeout, req_confirmations, forget, execute, pay, deallocate_funds,
  is_receiver, get_fiat_amount, poll, poll_each, poll_contracts,
}

module _ {N : Type 0} ⦃num : Number N⦄ (build : Build) (stored : N → N) (confirmations : Text → ℕ)
    (now : ℤ) where
  abbrev pub timed_out : BtcContract N → Bool
  timed_out k = ltb_ℤ contract_timeout (now -ℤ k.creation_time)

  -- The contract is within its time, was activated, and its transaction has its confirmations.
  abbrev pub due : BtcContract N → Bool
  due k =
      not (timed_out k)
      && (k.activated && leb (req_confirmations build) (confirmations k.btc_tx_id))

  abbrev pub ended : BtcContract N → Bool
  ended k = timed_out k || due k

  -- The program does not know its currency.
  abbrev pub unknown : BtcContract N → Bool
  unknown k = get_currency_by_symbol build k.currency_sym == invalid build

  -- Executing the contract throws.
  abbrev pub stuck : BtcContract N → Bool
  stuck k = due k && unknown k

  -- The contracts before the first that throws, and the others.
  abbrev pub polled : List (BtcContract N) → List (BtcContract N)
  polled [] = []
  polled (k ∷ ks) = let rest = polled ks in if stuck k then [] else k ∷ rest

  abbrev pub unpolled : List (BtcContract N) → List (BtcContract N)
  unpolled [] = []
  unpolled (k ∷ ks) = let rest = unpolled ks in if stuck k then k ∷ ks else rest

  abbrev pub is_any : List (BtcContract N) → Bool
  is_any [] = false
  is_any (k ∷ ks) = true

  -- The accounts after execute, where it does not throw.
  abbrev pub settled : BtcContract N → Bank N → Bank N
  settled k b = elim (execute build stored k b) [ none ↦ b | some b' ↦ b' ]

  abbrev pub execute_all : List (BtcContract N) → Bank N → Bank N
  execute_all [] b = b
  execute_all (k ∷ ks) b = execute_all ks (settled k b)

  abbrev pub forget_all : List (BtcContract N) → List (BtcContract N) → List (BtcContract N)
  forget_all [] rows = rows
  forget_all (k ∷ ks) rows = forget_all ks (forget k rows)

  pay-known :
      (role : Role) (k : BtcContract N) (b : Bank N)
      → unknown k ≡ false
      → (b' : Bank N) × (pay build stored role k b ≡ some b')
  unfolding pay new_payment new_credit
  pay-known role k b e = rw (pay, new_payment, new_credit, e) (_, refl)

  pay-unknown :
      (role : Role) (k : BtcContract N) (b : Bank N)
      → unknown k ≡ true
      → pay build stored role k b ≡ none
  unfolding pay new_payment new_credit
  pay-unknown role k b e = rw (pay, new_payment, new_credit, e) refl

  deallocate-known :
      (k : BtcContract N) (a : N) (b : Bank N)
      → unknown k ≡ false
      → (b' : Bank N) × (deallocate_funds build stored k a b ≡ some b')
  unfolding deallocate_funds new_credit
  deallocate-known k a b e = rw (deallocate_funds, new_credit, e) (_, refl)

  deallocate-unknown :
      (k : BtcContract N) (a : N) (b : Bank N)
      → unknown k ≡ true
      → deallocate_funds build stored k a b ≡ none
  unfolding deallocate_funds new_credit
  deallocate-unknown k a b e = rw (deallocate_funds, new_credit, e) refl

  abbrev settling : Bool → BtcContract N → Bank N → Option (Bank N)
  settling to_us k b =
      if to_us
      then elim (deallocate_funds build stored k (get_fiat_amount k) b) as (λ x. Option (Bank N)) [
        | none ↦ none
        | some b' ↦ pay build stored receiver k b'
      ]
      else pay build stored spender k b

  execute-settling :
      (k : BtcContract N) (b : Bank N)
      → execute build stored k b ≡ settling (is_receiver k.party) k b
  unfolding execute
  execute-settling k b = refl

  settling-unknown :
      (to_us : Bool) (k : BtcContract N) (b : Bank N) → unknown k ≡ true → settling to_us k b ≡ none
  settling-unknown true k b e =
      ap
        (λ (r : Option (Bank N)). elim r as (λ x. Option (Bank N)) [
          | none ↦ none
          | some b' ↦ pay build stored receiver k b'
        ])
        (deallocate-unknown k (get_fiat_amount k) b e)
  settling-unknown false k b e = pay-unknown spender k b e

  settling-known :
      (to_us : Bool) (k : BtcContract N) (b : Bank N)
      → unknown k ≡ false
      → (b' : Bank N) × (settling to_us k b ≡ some b')
  settling-known true k b e =
      let (b', d) = deallocate-known k (get_fiat_amount k) b e in
      let (b'', p) = pay-known receiver k b' e in
      (
        b'',
        ap
              (λ (r : Option (Bank N)). elim r as (λ x. Option (Bank N)) [
                | none ↦ none
                | some b' ↦ pay build stored receiver k b'
              ])
              d
            ∙ p,
      )
  settling-known false k b e = pay-known spender k b e

  execute-unknown :
      (k : BtcContract N) (b : Bank N) → unknown k ≡ true → execute build stored k b ≡ none
  execute-unknown k b e = execute-settling k b ∙ settling-unknown (is_receiver k.party) k b e

  execute-known :
      (k : BtcContract N) (b : Bank N)
      → unknown k ≡ false
      → execute build stored k b ≡ some (settled k b)
  execute-known k b e =
      let (b', h) = settling-known (is_receiver k.party) k b e in
      let done : execute build stored k b ≡ some b' = execute-settling k b ∙ h in
      done
      ∙ ap (λ (r : Option (Bank N)). some (elim r as (λ x. Bank N) [ none ↦ b | some c ↦ c ]))
          (sym done)

  -- What polling one contract does, where it is due or not and ends or not.
  abbrev after_of : Bool → Bool → BtcContract N → Vault N → Vault N
  after_of d e k v = record v {
    bank = if d then settled k v.bank else v.bank;
    rows = if e then forget k v.rows else v.rows;
  }

  abbrev Step : BtcContract N → Vault N → Type 0
  Step k v =
      ((stuck k ≡ true) × (poll build stored confirmations now k v ≡ none))
      ⊎ ((stuck k ≡ false)
          × (poll build stored confirmations now k v
              ≡ some (ended k, after_of (due k) (ended k) k v)))

  poll-late :
      (k : BtcContract N) (v : Vault N)
      → timed_out k ≡ true
      → poll build stored confirmations now k v ≡ some (true, after_of false true k v)
  unfolding poll
  poll-late k v t = rw t refl

  poll-idle :
      (k : BtcContract N) (v : Vault N)
      → timed_out k ≡ false
      → due k ≡ false
      → poll build stored confirmations now k v ≡ some (false, v)
  unfolding poll
  poll-idle k v t d = ground arith

  abbrev executed : BtcContract N → Vault N → Option (Bank N) → Option (Bool × Vault N)
  executed k v none = none
  executed k v (some b) = some (true, record v { bank = b; rows = forget k v.rows })

  poll-due :
      (k : BtcContract N) (v : Vault N)
      → timed_out k ≡ false
      → due k ≡ true
      → poll build stored confirmations now k v ≡ executed k v (execute build stored k v.bank)
  unfolding poll
  poll-due k v t d = ground arith

  poll-Step : (k : BtcContract N) (v : Vault N) → Step k v
  poll-Step k v = elim (Bool-cases (timed_out k)) [
    | inl t ↦
        let calm : due k ≡ false = rw t refl in
        let over : ended k ≡ true = rw t refl in
        inr (
          rw t refl,
          poll-late k v t ∙ ap₂ (λ (d e : Bool). some (e, after_of d e k v)) (sym calm) (sym over),
        )
    | inr t ↦ elim (Bool-cases (due k)) [
      | inr d ↦ inr (
        ap (λ (x : Bool). x && unknown k) d,
        poll-idle k v t d
            ∙ ap₂ (λ (x e : Bool). some (e, after_of x e k v)) (sym d)
                (sym (ap₂ (λ (x y : Bool). x || y) t d)),
      )
      | inl d ↦
          let over : ended k ≡ true = ap₂ (λ (x y : Bool). x || y) t d in
          let run = poll-due k v t d in
          elim (Bool-cases (unknown k)) [
            | inl u ↦ inl (
              ap₂ (λ (x y : Bool). x && y) d u,
              run ∙ ap (executed k v) (execute-unknown k v.bank u),
            )
            | inr u ↦ inr (
              ap₂ (λ (x y : Bool). x && y) d u,
              run
                  ∙ ap (executed k v) (execute-known k v.bank u)
                  ∙ ap₂ (λ (x e : Bool). some (e, after_of x e k v)) (sym d) (sym over),
            )
          ]
    ]
  ]

  -- What the loop leaves: whether it throws, the list, the accounts and the table.
  record Exact (ks : List (BtcContract N)) (v : Vault N)
      (out : Bool × List (BtcContract N) × Vault N) : Type 0 where
    throws : out.0 ≡ is_any (unpolled ks)
    left : out.1 ≡ keep (λ k. not (ended k)) (polled ks) ++ unpolled ks
    accounts : out.2.bank ≡ execute_all (keep due (polled ks)) v.bank
    table : out.2.rows ≡ forget_all (keep ended (polled ks)) v.rows

  abbrev continued :
      BtcContract N
      → List (BtcContract N)
      → Vault N
      → Option (Bool × Vault N)
      → Bool × List (BtcContract N) × Vault N
  continued k ks v none = (true, k ∷ ks, v)
  continued k ks v (some (done, v')) =
      let (threw, left, v'') = poll_each build stored confirmations now ks v' in
      (threw, if done then left else k ∷ left, v'')

  poll_each-continued :
      (k : BtcContract N) (ks : List (BtcContract N)) (v : Vault N)
      → poll_each build stored confirmations now (k ∷ ks) v
        ≡ continued k ks v (poll build stored confirmations now k v)
  unfolding poll_each
  poll_each-continued k ks v = elim (Option-cases (poll build stored confirmations now k v)) [
    | inl e ↦ rw (poll_each, e) refl
    | inr (x, e) ↦ rw (poll_each, e) refl
  ]

  left_of :
      (d : Bool) (k : BtcContract N) (l kept rest : List (BtcContract N))
      → l ≡ kept ++ rest
      → (if d then l else k ∷ l) ≡ (if not d then k ∷ kept else kept) ++ rest
  left_of true k l kept rest h = h
  left_of false k l kept rest h = ap (λ (xs : List (BtcContract N)). k ∷ xs) h

  accounts_of :
      (d : Bool) (k : BtcContract N) (ks : List (BtcContract N)) (b : Bank N)
      → execute_all ks (if d then settled k b else b) ≡ execute_all (if d then k ∷ ks else ks) b
  accounts_of true k ks b = refl
  accounts_of false k ks b = refl

  table_of :
      (d : Bool) (k : BtcContract N) (ks rows : List (BtcContract N))
      → forget_all ks (if d then forget k rows else rows)
        ≡ forget_all (if d then k ∷ ks else ks) rows
  table_of true k ks rows = refl
  table_of false k ks rows = refl

  -- The contracts of a list whose first does not throw.
  Exact-next :
      (k : BtcContract N) (ks : List (BtcContract N)) (v : Vault N)
      → stuck k ≡ false
      → let v' = after_of (due k) (ended k) k v in
        Exact ks v' (poll_each build stored confirmations now ks v')
        → Exact (k ∷ ks) v (continued k ks v (some (ended k, v')))
  Exact-next k ks v e x =
      let calm : unpolled (k ∷ ks) ≡ unpolled ks =
        ap (λ (b : Bool). if b then k ∷ ks else unpolled ks) e in
      let more : polled (k ∷ ks) ≡ k ∷ polled ks =
        ap (λ (b : Bool). if b then [] else k ∷ polled ks) e in
      let kept = keep (λ c. not (ended c)) (polled ks) in
      record {
        throws = x.throws ∙ ap is_any (sym calm);
        left =
            left_of (ended k) k _ kept (unpolled ks) x.left
            ∙ ap₂ (λ (ps us : List (BtcContract N)). keep (λ c. not (ended c)) ps ++ us) (sym more)
                (sym calm);
        accounts =
            x.accounts
            ∙ accounts_of (due k) k (keep due (polled ks)) v.bank
            ∙ ap (λ (ps : List (BtcContract N)). execute_all (keep due ps) v.bank) (sym more);
        table =
            x.table
            ∙ table_of (ended k) k (keep ended (polled ks)) v.rows
            ∙ ap (λ (ps : List (BtcContract N)). forget_all (keep ended ps) v.rows) (sym more);
      }

  Exact-stuck :
      (k : BtcContract N) (ks : List (BtcContract N)) (v : Vault N)
      → stuck k ≡ true
      → Exact (k ∷ ks) v (true, k ∷ ks, v)
  Exact-stuck k ks v e =
      let all : unpolled (k ∷ ks) ≡ k ∷ ks =
        ap (λ (b : Bool). if b then k ∷ ks else unpolled ks) e in
      let none_polled : polled (k ∷ ks) ≡ [] =
        ap (λ (b : Bool). if b then [] else k ∷ polled ks) e in
      record {
        throws = ap is_any (sym all);
        left =
            ap₂ (λ (ps us : List (BtcContract N)). keep (λ c. not (ended c)) ps ++ us)
              (sym none_polled) (sym all);
        accounts =
            ap (λ (ps : List (BtcContract N)). execute_all (keep due ps) v.bank) (sym none_polled);
        table =
            ap (λ (ps : List (BtcContract N)). forget_all (keep ended ps) v.rows) (sym none_polled);
      }

  poll_none-Exact : (v : Vault N) → Exact [] v (poll_each build stored confirmations now [] v)
  unfolding poll_each
  poll_none-Exact v = record { throws = refl; left = refl; accounts = refl; table = refl }

  poll_each-Exact :
      (ks : List (BtcContract N)) (v : Vault N)
      → Exact ks v (poll_each build stored confirmations now ks v)
  poll_each-Exact [] v = poll_none-Exact v
  poll_each-Exact (k ∷ ks) v =
      subst (Exact (k ∷ ks) v) (sym (poll_each-continued k ks v)) (elim (poll-Step k v) [
        | inl (e, h) ↦
            subst (λ r. Exact (k ∷ ks) v (continued k ks v r)) (sym h) (Exact-stuck k ks v e)
        | inr (e, h) ↦
            subst (λ r. Exact (k ∷ ks) v (continued k ks v r)) (sym h)
              (Exact-next k ks v e (poll_each-Exact ks _))
      ])

  -- A round of polling goes through the list up to the first contract that is due and in a currency that the program does not
  -- know: its exception leaves pollContracts, and that contract and all behind it stay, unpolled. Of the others it leaves exactly those
  -- that are within their time and are not yet due. It executes exactly the due ones, in the order of the list, and takes those
  -- that end out of the table; a contract that has run out of time is dropped without any change to the accounts, whatever is
  -- allocated for it.
  pub poll_contracts-exact :
      (v : Vault N)
      → let (threw, v') = poll_contracts build stored confirmations now v in
        let ks = polled v.contracts in
        (threw ≡ is_any (unpolled v.contracts))
        × (v'.contracts ≡ keep (λ k. not (ended k)) ks ++ unpolled v.contracts)
        × (v'.bank ≡ execute_all (keep due ks) v.bank)
        × (v'.rows ≡ forget_all (keep ended ks) v.rows)
  unfolding poll_contracts
  poll_contracts-exact v =
      let x = poll_each-Exact v.contracts v in (x.throws, x.left, x.accounts, x.table)
