-- ===== src/Service/Rounds/Debts.antt =====
-- Which items can change what is owed.
use zero_reserve.Base.{
  Bool, true, false, ◌≡◌, refl, List, [], ◌∷◌, Option, none, some, All, Bool-cases, Option-cases,
  inl, inr, ◌∙◌,
}
use zero_reserve.Currency.{Build}
use zero_reserve.Number.{Number}
use zero_reserve.Money.{Credit, Bank, new_credit, load_peer}
use zero_reserve.Money.Debts.{SameDebts, update_our_credit-SameDebts}
use zero_reserve.Service.{handle_credit}
use zero_reserve.Service.Rounds.{
  Plant, Surroundings, Turn, went_on, stopped, broken, Incoming, order_in, credit_in, message_in,
  local_in, remote_in, unknown_in, and_on, or_broken, take_order, process_item, process_incoming,
}

-- The items of no transaction.
abbrev pub is_plain : {N : Type 0} → Incoming N → Bool
is_plain (order_in peer o) = true
is_plain (credit_in c) = true
is_plain (message_in peer m) = true
is_plain (local_in id item) = false
is_plain (remote_in parcel) = false
is_plain unknown_in = true

-- What holds of the plant that is left, unless the behaviour is undefined.
abbrev pub After : {N : Type 0} → (Plant N → Type 0) → Turn N → Type 0
After P (went_on p) = P p
After P (stopped p) = P p
After P broken = Unit

module _ {N : Type 0} ⦃num : Number N⦄ where
  -- No account owes anything else, and no contract and no transaction has changed.
  pub record Undisturbed (p p' : Plant N) : Type 0 where
    pub debts : SameDebts p.trade.bank p'.trade.bank
    pub contracts : p'.trade.contracts ≡ p.trade.contracts
    pub deals : p'.trade.deal ≡ p.trade.deal
    pub tables : p'.trade.rows ≡ p.trade.rows
    pub locals : p'.locals ≡ p.locals
    pub remotes : p'.remotes ≡ p.remotes

  -- What handleCredit leaves, unless it throws.
  abbrev KeepsDebts : Bank N → Option (Bool × Bank N) → Type 0
  KeepsDebts b none = Unit
  KeepsDebts b (some (warn, b')) = SameDebts b b'

  handle_credit-KeepsDebts :
      (build : Build) (stored : N → N) (other : Credit N) (b : Bank N)
      → KeepsDebts b (handle_credit build stored other b)
  unfolding handle_credit
  handle_credit-KeepsDebts build stored other b =
      elim (Option-cases (new_credit {N = N} build other.id other.currency)) [
        | inl e ↦ rw (handle_credit, e) tt
        | inr (c, e) ↦
            elim (Bool-cases (num.same (load_peer b.peers c).our_credit other.our_credit)) [
              | inl k ↦ rw (handle_credit, e, k) (λ i cur. refl)
              | inr k ↦ rw (handle_credit, e, k) (update_our_credit-SameDebts stored other b)
            ]
      ]

  or_broken-After : (P : Plant N → Type 0) (b : Bool) (p : Plant N) → P p → After P (or_broken b p)
  unfolding or_broken
  or_broken-After P true p h = tt
  or_broken-After P false p h = h

  module _ (t : Surroundings N) (before : Plant N) where
    After-handle_credit :
        (p : Plant N) (r : Option (Bool × Bank N))
        → Undisturbed before p
        → KeepsDebts p.trade.bank r
        → After (Undisturbed before) (elim r [
          | none ↦ stopped p
          | some (warn, b) ↦ went_on (record p { trade = record p.trade { bank = b } })
        ])
    After-handle_credit p none u k = u
    After-handle_credit p (some (warn, b)) u k = record {
      debts = λ i cur. k i cur ∙ u.debts i cur;
      contracts = u.contracts;
      deals = u.deals;
      tables = u.tables;
      locals = u.locals;
      remotes = u.remotes;
    }

    process_item-Undisturbed :
        (item : Incoming N) (p : Plant N)
        → is_plain item ≡ true
        → Undisturbed before p
        → After (Undisturbed before) (process_item t item p)
    unfolding process_item take_order
    process_item-Undisturbed (order_in peer o) p h u =
        or_broken-After (Undisturbed before) _ _ (record {
          debts = u.debts;
          contracts = u.contracts;
          deals = u.deals;
          tables = u.tables;
          locals = u.locals;
          remotes = u.remotes;
        })
    process_item-Undisturbed (credit_in c) p h u =
        After-handle_credit p (handle_credit t.build t.stored c p.trade.bank) u
          (handle_credit-KeepsDebts t.build t.stored c p.trade.bank)
    process_item-Undisturbed (message_in peer m) p h u = record {
      debts = u.debts;
      contracts = u.contracts;
      deals = u.deals;
      tables = u.tables;
      locals = u.locals;
      remotes = u.remotes;
    }
    process_item-Undisturbed (local_in id item) p h u = cc
    process_item-Undisturbed (remote_in parcel) p h u = cc
    process_item-Undisturbed unknown_in p h u = u

    and_on-After :
        (P : Plant N → Type 0) (r : Turn N) (f : Plant N → Turn N)
        → After P r
        → ((p : Plant N) → P p → After P (f p))
        → After P (and_on r f)
    unfolding and_on
    and_on-After P (went_on p) f h k = k p h
    and_on-After P (stopped p) f h k = h
    and_on-After P broken f h k = tt

    loop-Undisturbed :
        (items : List (Incoming N)) (p : Plant N)
        → All (λ item. is_plain item ≡ true) items
        → Undisturbed before p
        → After (Undisturbed before) (process_incoming t items p)
    unfolding process_incoming
    loop-Undisturbed [] p h u = u
    loop-Undisturbed (item ∷ items) p h u =
        and_on-After (Undisturbed before) (process_item t item p) (process_incoming t items)
          (process_item-Undisturbed item p h.0 u) (λ q v. loop-Undisturbed items q h.1 v)

  -- Whatever orders, credits and messages come, in whatever order and from whomever, and whether a handler throws: as long as
  -- the behaviour is defined, processIncoming leaves in every account the balance, the credit for the friend and the
  -- allocation, every contract and every transaction as they were. The credit that a friend gives is all that can change.
  pub process_incoming-Undisturbed :
      (t : Surroundings N) (items : List (Incoming N)) (p : Plant N)
      → All (λ item. is_plain item ≡ true) items
      → After (Undisturbed p) (process_incoming t items p)
  process_incoming-Undisturbed t items p h = loop-Undisturbed t p items p h (record {
    debts = λ i cur. refl;
    contracts = refl;
    deals = refl;
    tables = refl;
    locals = refl;
    remotes = refl;
  })
