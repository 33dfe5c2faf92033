-- ===== src/Service/Credits.antt =====
-- handleCredit takes over the credit that a friend gives.
use zero_reserve.Base.{
  Bool, not, true, false, ◌≡◌, refl, List, [], ◌∷◌, some, Text, text_eq_refl, ◌==◌, Bool-cases, inl,
  inr, arith, ap, ◌∙◌,
}
use zero_reserve.Currency.{Build, get_currency_by_symbol, invalid}
use zero_reserve.Number.{Number, IsOrderedRing, ◌⊖◌}
use zero_reserve.Money.{
  Credit, Bank, blank, load_peer, peer_exists, is_for, update_our_credit, ensure_peer, create_peer,
  set_column, our_credit,
}
use zero_reserve.Money.Rows.{load-update}
use zero_reserve.Contracts.Reserve.{new_credit-valid}
use zero_reserve.Service.{handle_credit}

module _ {N : Type 0} ⦃num : Number N⦄ where
  peer_exists-create :
      (rows : List (Credit N)) (i cur : Text) → peer_exists (create_peer rows i cur) i cur ≡ true
  unfolding peer_exists create_peer is_for
  peer_exists-create [] i cur = rw (text_eq_refl i, text_eq_refl cur) refl
  peer_exists-create (row ∷ rows) i cur = elim (Bool-cases (is_for i cur row)) [
    | inl e ↦ ground (arith, peer_exists-create rows i cur)
    | inr e ↦ ground (arith, peer_exists-create rows i cur)
  ]

  pub peer_exists-ensure :
      (c : Credit N) (b : Bank N) → peer_exists (ensure_peer c b).peers c.id c.currency ≡ true
  unfolding ensure_peer
  peer_exists-ensure c b = elim (Bool-cases (peer_exists b.peers c.id c.currency)) [
    | inl e ↦ rw (e, e) refl
    | inr e ↦ rw e (peer_exists-create b.peers c.id c.currency)
  ]

  updated :
      (stored : N → N) (c : Credit N) (b : Bank N)
      → (load_peer (update_our_credit stored c b).peers (blank c.id c.currency)).our_credit
        ≡ stored c.our_credit
  unfolding update_our_credit set_column
  updated stored c b =
      ap (λ (k : Credit N). k.our_credit)
        (load-update stored our_credit c.our_credit (ensure_peer c b).peers (blank c.id c.currency)
          (peer_exists-ensure c b))

  -- For an account in a currency that exists, handleCredit returns, and the database then has the
  -- credit that the friend's item says, also where it had no row for the account before; the column
  -- keeps what is written.
  pub handle_credit-agrees :
      (laws : IsOrderedRing N) (build : Build) (stored : N → N) (other : Credit N) (b : Bank N)
      → (get_currency_by_symbol build other.currency == invalid build) ≡ false
      → stored other.our_credit ≡ other.our_credit
      → (warn : Bool) × (b' : Bank N) × (handle_credit build stored other b ≡ some (warn, b'))
        × ((load_peer b'.peers (blank other.id other.currency)).our_credit ≡ other.our_credit)
  unfolding handle_credit
  handle_credit-agrees laws build stored other b valid keeps =
      elim (Bool-cases (
        num.same (load_peer b.peers (blank other.id other.currency)).our_credit other.our_credit)) [
          | inl e ↦ (
            differs,
            b,
            rw (handle_credit, new_credit-valid build other.id other.currency valid, e) refl,
            (laws.same_iff _ _).0 e,
          )
          | inr e ↦ (
            differs,
            update_our_credit stored other b,
            rw (handle_credit, new_credit-valid build other.id other.currency valid, e) refl,
            updated stored other b ∙ keeps,
          )
        ]
    where
      differs : Bool
      differs = not (
          num.same (num.nought ⊖ (load_peer b.peers (blank other.id other.currency)).balance)
            other.balance)
