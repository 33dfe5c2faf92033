-- ===== src/Money/Mirror.antt =====
-- Payment.cpp: the two ends of a payment, and the log beside the balances.
use zero_reserve.Base.{
  true, false, ◌≡◌, refl, ◌⊎◌, subst, List, [], ◌∷◌, ◌++◌, Text, text_eq, text_eq_refl, ◌&&◌,
  if◌then◌else◌, Bool-cases, inl, inr, ap, sym, ◌∙◌,
}
use zero_reserve.Number.{Number, IsOrderedRing, ◌⊕◌, ◌⊖◌}
use zero_reserve.Number.Laws.{opposite_move, plus_minus}
use zero_reserve.Money.{
  Credit, Bank, Payment, Role, receiver, spender, TxLogItem, new_balance, commit, load_peer,
  peer_exists, balance, set_column, logged,
}
use zero_reserve.Money.Rows.{load-update, load-update_ne, load_peer-id, load_peer-currency}

module _ {N : Type 0} ⦃num : Number N⦄ (laws : IsOrderedRing N) where
  -- The balance that the database has for an account.
  abbrev pub held : Bank N → Credit N → N
  held b c = (load_peer b.peers c).balance

  -- What commit of the payment makes of it.
  abbrev pub target : Bank N → Payment N → N
  target b p = new_balance p.role (load_peer b.peers p.account) p.amount

  pub held-commit :
      (stored : N → N) (p : Payment N) (b : Bank N)
      → peer_exists b.peers p.account.id p.account.currency ≡ true
      → stored (target b p) ≡ target b p
      → held (commit stored p b).2 p.account ≡ target b p
  unfolding commit set_column
  held-commit stored p b x s =
      rw (load_peer-id b.peers p.account, load_peer-currency b.peers p.account)
        (ap (λ (c : Credit N). c.balance)
            (load-update stored balance (target b p) b.peers p.account x)
          ∙ s)

  -- Two friends keep one debt in two databases. If the balances of their accounts with each other
  -- cancel out, they still do after the spender has committed at one end and the receiver has
  -- committed the same amount at the other, where both databases have the row and their columns keep
  -- the new balances.
  pub commit-mirrored :
      (stored : N → N) (p q : Payment N) (a b : Bank N)
      → p.role ≡ spender
      → q.role ≡ receiver
      → p.amount ≡ q.amount
      → peer_exists a.peers p.account.id p.account.currency ≡ true
      → peer_exists b.peers q.account.id q.account.currency ≡ true
      → stored (target a p) ≡ target a p
      → stored (target b q) ≡ target b q
      → held a p.account ⊕ held b q.account ≡ num.nought
      → held (commit stored p a).2 p.account ⊕ held (commit stored q b).2 q.account ≡ num.nought
  unfolding new_balance
  commit-mirrored stored p q a b rp rq e xa xb sa sb h =
      rw (held-commit stored p a xa sa, held-commit stored q b xb sb, rp, rq, e)
        (opposite_move laws (held a p.account) (held b q.account) q.amount h)

  -- The sum of the logged amounts of one friend and currency.
  unfoldable pub total : Text → Text → List (TxLogItem N) → N
  total i cur [] = num.nought
  total i cur (x ∷ xs) =
      let rest = total i cur xs in
      if text_eq x.log_id i && text_eq x.log_currency cur then rest ⊕ x.log_amount else rest

  total-append :
      (i cur : Text) (xs : List (TxLogItem N)) (x : TxLogItem N)
      → (text_eq x.log_id i && text_eq x.log_currency cur) ≡ true
      → total i cur (xs ++ x ∷ []) ≡ total i cur xs ⊕ x.log_amount
  unfolding total
  total-append i cur [] x e = rw e refl
  total-append i cur (y ∷ xs) x e =
      elim (Bool-cases (text_eq y.log_id i && text_eq y.log_currency cur)) [
        | inl k ↦
            rw (k, total-append i cur xs x e)
              (laws.plus_assoc _ _ _
                ∙ ap (λ (v : N). total i cur xs ⊕ v) (laws.plus_comm _ _)
                ∙ sym (laws.plus_assoc _ _ _))
        | inr k ↦ rw k (total-append i cur xs x e)
      ]

  total-append_ne :
      (i cur : Text) (xs : List (TxLogItem N)) (x : TxLogItem N)
      → (text_eq x.log_id i && text_eq x.log_currency cur) ≡ false
      → total i cur (xs ++ x ∷ []) ≡ total i cur xs
  unfolding total
  total-append_ne i cur [] x e = rw e refl
  total-append_ne i cur (y ∷ xs) x e =
      elim (Bool-cases (text_eq y.log_id i && text_eq y.log_currency cur)) [
        | inl k ↦ rw (k, total-append_ne i cur xs x e) refl
        | inr k ↦ rw k (total-append_ne i cur xs x e)
      ]

  -- The log accounts for the balance of an account.
  abbrev pub Explained : Bank N → Credit N → Type 0
  Explained b c = held b c ≡ total c.id c.currency b.tx_log

  new_balance-logged :
      (role : Role) (c : Credit N) (a : N) → new_balance role c a ≡ c.balance ⊕ logged role a
  unfolding new_balance logged
  new_balance-logged receiver c a = refl
  new_balance-logged spender c a =
      sym (ap (λ (x : N). x ⊖ a) (laws.plus_nought c.balance))
      ∙ sym (plus_minus laws c.balance num.nought a)

  -- What commit appends to the log.
  abbrev logged_item : (N → N) → Payment N → Bank N → TxLogItem N
  logged_item stored p b = record {
    log_id = (load_peer b.peers p.account).id;
    log_currency = (load_peer b.peers p.account).currency;
    log_amount = stored (logged p.role p.amount);
  }

  commit-Explained_self :
      (stored : N → N) (p : Payment N) (b : Bank N)
      → peer_exists b.peers p.account.id p.account.currency ≡ true
      → stored (target b p) ≡ target b p
      → stored (logged p.role p.amount) ≡ logged p.role p.amount
      → Explained b p.account
      → Explained (commit stored p b).2 p.account
  unfolding commit
  commit-Explained_self stored p b x s t e =
      held-commit stored p b x s
      ∙ new_balance-logged p.role (load_peer b.peers p.account) p.amount
      ∙ ap (λ (v : N). v ⊕ logged p.role p.amount) e
      ∙ ap (λ (v : N). total p.account.id p.account.currency b.tx_log ⊕ v) (sym t)
      ∙ sym (
          total-append p.account.id p.account.currency b.tx_log (logged_item stored p b) (
            rw
              (
                load_peer-id b.peers p.account,
                load_peer-currency b.peers p.account,
                text_eq_refl p.account.id,
                text_eq_refl p.account.currency,
              )
              refl))

  commit-Explained_ne :
      (stored : N → N) (p : Payment N) (b : Bank N) (c : Credit N)
      → (text_eq p.account.id c.id && text_eq p.account.currency c.currency) ≡ false
      → Explained b c
      → Explained (commit stored p b).2 c
  unfolding commit
  commit-Explained_ne stored p b c n e =
      ap (λ (k : Credit N). k.balance)
        (load-update_ne stored _ _ balance (target b p) b.peers c
          (rw (load_peer-id b.peers p.account, load_peer-currency b.peers p.account) n))
      ∙ e
      ∙ sym (
          total-append_ne c.id c.currency b.tx_log (logged_item stored p b)
            (rw (load_peer-id b.peers p.account, load_peer-currency b.peers p.account) n))

  -- commit keeps balances and log in step: if the logged amounts of an account add up to its balance,
  -- they do so after a commit, be it for that account or for another friend or currency. The account of
  -- the payment has its row, and the columns keep what is written.
  pub commit-Explained :
      (stored : N → N) (p : Payment N) (b : Bank N) (c : Credit N)
      → peer_exists b.peers p.account.id p.account.currency ≡ true
      → stored (target b p) ≡ target b p
      → stored (logged p.role p.amount) ≡ logged p.role p.amount
      → (c ≡ p.account)
        ⊎ ((text_eq p.account.id c.id && text_eq p.account.currency c.currency) ≡ false)
      → Explained b c
      → Explained (commit stored p b).2 c
  commit-Explained stored p b c x s t (inl k) e =
      subst (Explained (commit stored p b).2) (sym k)
        (commit-Explained_self stored p b x s t (subst (Explained b) k e))
  commit-Explained stored p b c x s t (inr n) e = commit-Explained_ne stored p b c n e
