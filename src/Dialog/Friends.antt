-- ===== src/Dialog/Friends.antt =====
-- The credit that the user gives a friend, at both ends.
use zero_reserve.Base.{
  Bool, false, ◌≡◌, ◌<◌, refl, [], some, Text, ◌==◌, arith, ap, ap₂, sym, subst, ◌∙◌,
}
use zero_reserve.Currency.{Build, get_currency_by_name, get_currency_by_symbol, symbol_of, invalid}
use zero_reserve.Currency.Tables.{symbol_round_trip}
use zero_reserve.Number.{Number, IsOrderedRing}
use zero_reserve.Money.{
  Credit, Bank, blank, load_peer, update_credit, ensure_peer, set_column, credit,
}
use zero_reserve.Money.Rows.{load-update, load_peer-id, load_peer-currency}
use zero_reserve.Contracts.Reserve.{new_credit-valid}
use zero_reserve.Service.{handle_credit}
use zero_reserve.Service.Credits.{peer_exists-ensure, handle_credit-agrees}
use zero_reserve.Wire.Items.{credit_item}
use zero_reserve.Wire.Readers.{received}
use zero_reserve.Dialog.{edit_friend, get_credit}

module _ {N : Type 0} ⦃num : Number N⦄ (build : Build) (stored : N → N) where
  update_credit-loaded :
      (c : Credit N) (b : Bank N)
      → (load_peer (update_credit stored c b).peers (blank c.id c.currency)).credit
        ≡ stored c.credit
  unfolding update_credit set_column
  update_credit-loaded c b =
      ap (λ (k : Credit N). k.credit)
        (load-update stored credit c.credit (ensure_peer c b).peers (blank c.id c.currency)
          (peer_exists-ensure c b))

  -- The account as editFriend has it before it writes.
  abbrev edited : Text → Text → N → Bank N → Credit N
  edited j cur v a = record (load_peer a.peers (blank j cur)) { credit = v }

  -- editFriend of `i`, with the database `a`, on the friend `j`, with the database `b`, returns, and so does handleCredit on what
  -- arrives of the item that it sends; then `a` has `v` as the credit given, and `b` as the credit got.
  abbrev pub IsAgreed : Text → Text → Text → Text → N → Bank N → Bank N → Type 0
  IsAgreed i j name cur v a b =
      (a' : Bank N) × (c : Credit N) × (other : Credit N) × (warn : Bool) × (b' : Bank N)
      × (edit_friend build stored j name v a ≡ some (a', c))
      × (received (credit_item c) ≡ credit_item other)
      × (handle_credit build stored (get_credit i other) b ≡ some (warn, b'))
      × ((load_peer a'.peers (blank j cur)).credit ≡ v)
      × ((load_peer b'.peers (blank i cur)).our_credit ≡ v)

  agrees_in :
      (laws : IsOrderedRing N) (i j name cur : Text) (v : N) (a b : Bank N)
      → symbol_of build (get_currency_by_name build name) ≡ some cur
      → (get_currency_by_symbol build cur == invalid build) ≡ false
      → stored v ≡ v
      → IsAgreed i j name cur v a b
  unfolding edit_friend get_credit
  agrees_in laws i j name cur v a b known valid keeps =
      let c = edited j cur v a in
      let same : c.currency ≡ cur = load_peer-currency a.peers (blank j cur) in
      let other : Credit N = record (blank [] c.currency) {
        our_credit = c.credit;
        credit = c.our_credit;
        balance = c.balance;
      } in
      let (warn, b', handled, agrees) =
        handle_credit-agrees laws build stored (get_credit i other) b
          (subst (λ (s : Text). (get_currency_by_symbol build s == invalid build) ≡ false)
            (sym same) valid)
          keeps in
      (
        update_credit stored c a,
        c,
        other,
        warn,
        b',
        rw (edit_friend, known, new_credit-valid build j cur valid) refl,
        refl,
        handled,
        ap₂ (λ (x y : Text). (load_peer (update_credit stored c a).peers (blank x y)).credit)
              (sym (load_peer-id a.peers (blank j cur))) (sym same)
            ∙ update_credit-loaded c a
            ∙ keeps,
        ap (λ (s : Text). (load_peer b'.peers (blank i s)).our_credit) (sym same) ∙ agrees,
      )

  -- Where the user selects the name of a currency below INVALID, editFriend writes the credit that was entered and sends it, and
  -- once the friend's handleCredit has taken the item that arrives, the friend's database has that credit as what the user
  -- gives, whatever both held before; the column keeps the number.
  pub edit_friend-agrees :
      (laws : IsOrderedRing N) (i j name : Text) (v : N) (a b : Bank N)
      → get_currency_by_name build name < invalid build
      → stored v ≡ v
      → (cur : Text) × (symbol_of build (get_currency_by_name build name) ≡ some cur)
        × IsAgreed i j name cur v a b
  edit_friend-agrees laws i j name v a b h keeps =
      let (cur, known, _, found) = symbol_round_trip build (get_currency_by_name build name) h in
      (cur, known, agrees_in laws i j name cur v a b known (ground arith) keeps)
