-- ===== src/Money/Totals.antt =====
-- zrdb.cpp, loadGrandTotal, deletePeerRecord and the list form of loadPeer: what the user interface shows
-- of the table `peers` as a whole.
use zero_reserve.Base.{
  false, ◌≡◌, refl, List, [], ◌∷◌, Option, none, some, Text, ℕ, text_eq, text_eq_sound, ◌==◌,
  if◌then◌else◌, not, keep, Bool-cases, inl, inr, arith, sym, ap, subst, ◌∙◌,
}
use zero_reserve.Currency.{Build, symbol_of, invalid}
use zero_reserve.Number.{Number, IsOrderedRing, ◌⊕◌, ◌⊖◌, ◌≺◌}
use zero_reserve.Number.Laws.{less_asymm, not_less_trans, minus_not_negative, plus_not_less}
use zero_reserve.Money.{Credit, new_credit, fill, is_for}

pub record GrandTotal (N : Type 0) : Type 0 where
  pub currency : Text
  pub our_credit : N
  pub credit : N
  pub outstanding : N
  pub debt : N
  pub balance : N

module _ {N : Type 0} ⦃num : Number N⦄ where
  -- ZrDB::addToGrandTotal
  unfoldable add_to_grand_total : Credit N → GrandTotal N → GrandTotal N
  add_to_grand_total row t = record t {
    our_credit = t.our_credit ⊕ row.our_credit;
    credit = t.credit ⊕ row.credit;
    outstanding = if num.nought ≺ row.balance then t.outstanding ⊕ row.balance else t.outstanding;
    debt = if num.nought ≺ row.balance then t.debt else t.debt ⊖ row.balance;
    balance = t.balance ⊕ row.balance;
  }

  -- The callback runs for each row of the currency.
  unfoldable grand_total_from : List (Credit N) → GrandTotal N → GrandTotal N
  unfolding add_to_grand_total
  grand_total_from [] t = t
  grand_total_from (row ∷ rows) t =
      grand_total_from rows
        (if text_eq row.currency t.currency then add_to_grand_total row t else t)

  -- ZrDB::loadGrandTotal
  unfoldable pub load_grand_total : List (Credit N) → Text → GrandTotal N
  unfolding grand_total_from
  load_grand_total rows cur = grand_total_from rows (record {
    currency = cur;
    our_credit = num.nought;
    credit = num.nought;
    outstanding = num.nought;
    debt = num.nought;
    balance = num.nought;
  })

  -- ZrDB::deletePeerRecord. INVALID stands for every currency; `none` where the currency has no symbol.
  unfoldable pub delete_peer_record : Build → Text → ℕ → List (Credit N) → Option (List (Credit N))
  unfolding is_for
  delete_peer_record build i cur rows =
      if cur == invalid build
      then some (keep (λ (row : Credit N). not (text_eq row.id i)) rows)
      else elim (symbol_of build cur) [
        | none ↦ none
        | some s ↦ some (keep (λ (row : Credit N). not (is_for i s row)) rows)
      ]

  -- The callback of the next definition, in front of what the rows after it give.
  unfoldable push_credit :
      Option (Credit N) → Credit N → Option (List (Credit N)) → Option (List (Credit N))
  unfolding fill
  push_credit none row rest = none
  push_credit (some c) row none = none
  push_credit (some c) row (some cs) = some (fill c row ∷ cs)

  -- ZrDB::loadPeer for all the currencies of one friend. The constructor of Credit throws for a row whose
  -- currency is none of the program's: `none`.
  unfoldable pub load_credits : Build → Text → List (Credit N) → Option (List (Credit N))
  unfolding new_credit push_credit
  load_credits build i [] = some []
  load_credits build i (row ∷ rows) =
      let rest = load_credits build i rows in
      if text_eq row.id i then push_credit (new_credit build row.id row.currency) row rest else rest

-- The balance is what friends owe less what is owed to them, and neither of the two is negative.
pub record IsNet {N : Type 0} ⦃num : Number N⦄ (t : GrandTotal N) : Type 0 where
  pub net : t.balance ⊕ t.debt ≡ t.outstanding
  pub outstanding_not_negative : t.outstanding ≺ num.nought ≡ false
  pub debt_not_negative : t.debt ≺ num.nought ≡ false

module _ {N : Type 0} ⦃num : Number N⦄ (laws : IsOrderedRing N) where
  open laws use {plus_comm, plus_assoc, plus_nought, minus-plus, less_irrefl}

  net_above : (b d o p : N) → b ⊕ d ≡ o → (b ⊕ p) ⊕ d ≡ o ⊕ p
  net_above b d o p h =
      plus_assoc b p d
      ∙ ap (λ (x : N). b ⊕ x) (plus_comm p d)
      ∙ sym (plus_assoc b d p)
      ∙ ap (λ (x : N). x ⊕ p) h

  net_below : (b d o p : N) → b ⊕ d ≡ o → (b ⊕ p) ⊕ (d ⊖ p) ≡ o
  net_below b d o p h =
      plus_assoc b p (d ⊖ p) ∙ ap (λ (x : N). b ⊕ x) (plus_comm p (d ⊖ p) ∙ minus-plus d p) ∙ h

  add_to_grand_total-IsNet :
      (row : Credit N) (t : GrandTotal N) → IsNet t → IsNet (add_to_grand_total row t)
  unfolding add_to_grand_total
  add_to_grand_total-IsNet row t h = elim (Bool-cases (num.nought ≺ row.balance)) [
    | inl e ↦ record {
      net = rw e (net_above _ _ _ _ h.net);
      outstanding_not_negative = rw e (
          not_less_trans laws (t.outstanding ⊕ row.balance) row.balance num.nought
            (plus_not_less laws t.outstanding row.balance h.outstanding_not_negative)
            (less_asymm laws num.nought row.balance e));
      debt_not_negative = rw e h.debt_not_negative;
    }
    | inr e ↦ record {
      net = rw e (net_below _ _ _ _ h.net);
      outstanding_not_negative = rw e h.outstanding_not_negative;
      debt_not_negative = rw e (
          minus_not_negative laws t.debt row.balance
            (not_less_trans laws t.debt num.nought row.balance h.debt_not_negative e));
    }
  ]

  grand_total_from-IsNet :
      (rows : List (Credit N)) (t : GrandTotal N) → IsNet t → IsNet (grand_total_from rows t)
  unfolding grand_total_from
  grand_total_from-IsNet [] t h = h
  grand_total_from-IsNet (row ∷ rows) t h = elim (Bool-cases (text_eq row.currency t.currency)) [
    | inl e ↦ rw e (grand_total_from-IsNet rows _ (add_to_grand_total-IsNet row t h))
    | inr e ↦ rw e (grand_total_from-IsNet rows t h)
  ]

  -- Where the numbers obey the laws of an ordered ring, the balance of a grand total and its debt add up to
  -- what is outstanding, and neither the debt nor what is outstanding is negative.
  pub load_grand_total-IsNet :
      (rows : List (Credit N)) (cur : Text) → IsNet (load_grand_total rows cur)
  unfolding load_grand_total
  load_grand_total-IsNet rows cur = grand_total_from-IsNet rows _ (record {
    net = plus_nought num.nought;
    outstanding_not_negative = less_irrefl num.nought;
    debt_not_negative = less_irrefl num.nought;
  })

module _ {N : Type 0} ⦃num : Number N⦄ (build : Build) (i : Text) where
  load_credits-same :
      (j : Text) (row : Credit N) (rows rows' : List (Credit N))
      → load_credits build j rows ≡ load_credits build j rows'
      → load_credits build j (row ∷ rows) ≡ load_credits build j (row ∷ rows')
  unfolding load_credits
  load_credits-same j row rows rows' h = elim (Bool-cases (text_eq row.id j)) [
    | inl e ↦ rw e (ap (push_credit (new_credit build row.id row.currency) row) h)
    | inr e ↦ rw e h
  ]

  load_credits-keep_none :
      (rows : List (Credit N))
      → load_credits build i (keep (λ (row : Credit N). not (text_eq row.id i)) rows) ≡ some []
  unfolding load_credits
  load_credits-keep_none [] = refl
  load_credits-keep_none (row ∷ rows) = elim (Bool-cases (text_eq row.id i)) [
    | inl e ↦ rw e (load_credits-keep_none rows)
    | inr e ↦ rw (e, e) (load_credits-keep_none rows)
  ]

  load_credits-keep_others :
      (j : Text)
      → text_eq i j ≡ false
      → (rows : List (Credit N))
      → load_credits build j (keep (λ (row : Credit N). not (text_eq row.id i)) rows)
        ≡ load_credits build j rows
  unfolding load_credits
  load_credits-keep_others j n [] = refl
  load_credits-keep_others j n (row ∷ rows) = elim (Bool-cases (text_eq row.id i)) [
    | inl e ↦
        rw (e, ap (λ (x : Text). text_eq x j) (text_eq_sound row.id i e) ∙ n)
          (load_credits-keep_others j n rows)
    | inr e ↦ rw e (load_credits-same j row _ rows (load_credits-keep_others j n rows))
  ]

  delete_peer_record-kept :
      (rows : List (Credit N))
      → delete_peer_record build i (invalid build) rows
        ≡ some (keep (λ (row : Credit N). not (text_eq row.id i)) rows)
  unfolding delete_peer_record
  delete_peer_record-kept rows = elim (Bool-cases (invalid build == invalid build)) [
    | inl e ↦ rw e refl
    | inr e ↦ ground arith
  ]

  -- deletePeerRecord for every currency leaves the friend without an account, and every other friend's accounts
  -- as they were.
  pub delete_peer_record-all :
      (rows rows' : List (Credit N))
      → delete_peer_record build i (invalid build) rows ≡ some rows'
      → (load_credits build i rows' ≡ some [])
        × ((j : Text)
            → text_eq i j ≡ false
            → load_credits build j rows' ≡ load_credits build j rows)
  delete_peer_record-all rows rows' h =
      let kept : keep (λ (row : Credit N). not (text_eq row.id i)) rows ≡ rows' =
        cc (delete_peer_record-kept rows, h) in
      subst
        (λ (x : List (Credit N)).
          (load_credits build i x ≡ some [])
          × ((j : Text) → text_eq i j ≡ false → load_credits build j x ≡ load_credits build j rows))
        kept (load_credits-keep_none rows, λ j n. load_credits-keep_others j n rows)
