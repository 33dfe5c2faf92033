-- ===== src/Transactions/Ids.antt =====
-- The transactions of currentTX do not get into one another's way.
use zero_reserve.Base.{
  ℕ, zero, suc, ◌+◌, ◌*◌, ◌/◌, ◌%◌, ◌^◌, ◌<◌, ◌≤◌, ◌≡◌, false, [], ◌∷◌, ◌++◌, Option, none, some,
  Text, ltb, text_eq, text_eq_sound, arith, ap, sym, ◌∙◌, Bool-cases, inl, inr,
}
use zero_reserve.Base.Dict.{Dict, lookup, lookup-assign_ne, lookup-without_ne}
use zero_reserve.Currency.{Build}
use zero_reserve.Number.{Number}
use zero_reserve.Money.{Payment}
use zero_reserve.Decimal.Digits.{value, value-append}
use zero_reserve.Transactions.Local.{
  Node, Manager, TxItem, Outcome, returned, threw, undefined, handle_tx_item, pay_to,
}
use zero_reserve.Transactions.Several.{
  decimal, mk_id, Ledger, node_of, kept_managers, after_node, after_outcome, handle_local_item,
  start_payment,
}

value-digit : (s : Text) (d : ℕ) → value (s ++ (48 + d) ∷ []) ≡ value s * 10 + d
value-digit s d = omega (arith, value-append s ((48 + d) ∷ []))

tenth_less : (fuel n : ℕ) → n < suc fuel → 10 ≤ n → n / 10 < fuel
tenth_less fuel n h k = omega arith

value-decimal : (fuel n : ℕ) → n < fuel → value (decimal fuel n) ≡ n
unfolding decimal
value-decimal zero n h = omega arith
value-decimal (suc fuel) n h = elim (Bool-cases (ltb n 10)) [
  | inl e ↦ rw e (ground arith)
  | inr e ↦ rw e (
      value-digit (decimal fuel (n / 10)) (n % 10)
      ∙ (let front = value-decimal fuel (n / 10) (tenth_less fuel n h (ground arith)) in
          omega (arith, front)))
]

append_cancel : (s t u : Text) → s ++ t ≡ s ++ u → t ≡ u
append_cancel [] t u e = e
append_cancel (c ∷ s) t u e = append_cancel s t u (ground arith)

mk_id-injective : (own : Text) (m n : ℕ) → mk_id own m ≡ mk_id own n → m ≡ n
unfolding mk_id
mk_id-injective own m n e =
    let same = append_cancel own _ _ e in
    sym (value-decimal (suc m) m (omega arith))
    ∙ ap value (ground arith)
    ∙ value-decimal (suc n) n (omega arith)

pub other_ids : (own : Text) (m n : ℕ) → m < n → text_eq (mk_id own n) (mk_id own m) ≡ false
other_ids own m n h = elim (Bool-cases (text_eq (mk_id own n) (mk_id own m))) [
  | inl e ↦ let same = mk_id-injective own n m (text_eq_sound _ _ e) in absurd (omega (arith, same))
  | inr e ↦ e
]

module _ {N : Type 0} ⦃num : Number N⦄ where
  lookup-kept_managers :
      (id other : Text) (x : Option (Manager N)) (m : Dict (Manager N))
      → text_eq other id ≡ false
      → lookup (kept_managers id x m) other ≡ lookup m other
  unfolding kept_managers
  lookup-kept_managers id other none m n = lookup-without_ne m id other n
  lookup-kept_managers id other (some x) m n = lookup-assign_ne m id other x n

  -- The manager of another transaction is what it was.
  abbrev pub IsUndisturbed : Text → Ledger N → Option (Ledger N) → Type 0
  IsUndisturbed other l none = Unit
  IsUndisturbed other l (some l') = lookup l'.managers other ≡ lookup l.managers other

  after_outcome-others :
      (id other : Text) (l : Ledger N) (o : Outcome N)
      → text_eq other id ≡ false
      → IsUndisturbed other l (after_outcome id l o)
  unfolding after_outcome after_node
  after_outcome-others id other l (returned r node) n =
      lookup-kept_managers id other node.manager l.managers n
  after_outcome-others id other l (threw node) n =
      lookup-kept_managers id other node.manager l.managers n
  after_outcome-others id other l undefined n = tt

  -- An item of one transaction leaves the manager of every other as it is.
  pub handle_local_item-others :
      (build : Build) (stored : N → N) (id other : Text) (item : TxItem N) (l : Ledger N)
      → text_eq other id ≡ false
      → IsUndisturbed other l (handle_local_item build stored id item l)
  unfolding handle_local_item
  handle_local_item-others build stored id other item l n =
      after_outcome-others id other l (handle_tx_item build stored item (node_of id l)) n

  -- No manager has an id that mkId is still to give.
  abbrev pub IsNumbered : Ledger N → Type 0
  IsNumbered l = (n : ℕ) → l.sequence < n → lookup l.managers (mk_id l.owner n) ≡ none

  IsNumbered-after_node :
      (n : ℕ) (x : Node N) (l : Ledger N)
      → n ≡ l.sequence + 1
      → IsNumbered l
      → IsNumbered (after_node (mk_id l.owner n) (record l { sequence = n }) x)
  unfolding after_node
  IsNumbered-after_node n x l e numbered k h =
      lookup-kept_managers (mk_id l.owner n) (mk_id l.owner k) x.manager l.managers
        (other_ids l.owner n k h)
      ∙ numbered k (omega (arith, e))

  -- While the sequence has not run out of 32 bits, and no manager has an id that mkId is still to give: a payment that the user
  -- starts gets an id that no manager has, leaves every other manager as it is, and no manager has an id that is still to be
  -- given.
  pub start_payment-IsNumbered :
      (p : Payment N) (l : Ledger N)
      → l.sequence + 1 < 2 ^ 32
      → IsNumbered l
      → IsNumbered (start_payment p l)
        × (lookup l.managers (mk_id l.owner (l.sequence + 1)) ≡ none)
        × ((other : Text)
            → text_eq other (mk_id l.owner (l.sequence + 1)) ≡ false
            → lookup (start_payment p l).managers other ≡ lookup l.managers other)
  unfolding start_payment after_node
  start_payment-IsNumbered p l small numbered =
      let n = (l.sequence + 1) % 2 ^ 32 in
      let same : n ≡ l.sequence + 1 = omega arith in
      let node = pay_to p (node_of (mk_id l.owner n) l) in
      (
        IsNumbered-after_node n node l same numbered,
        numbered (l.sequence + 1) (omega arith),
        λ other ne.
            lookup-kept_managers (mk_id l.owner n) other node.manager l.managers
              (ap (λ (k : ℕ). text_eq other (mk_id l.owner k)) same ∙ ne),
      )
