-- ===== src/Money/Debts.antt =====
-- What a friend says of the account changes the credit that it gives, and nothing that is owed.
use zero_reserve.Base.{
  Bool, true, false, ◌≡◌, refl, List, [], ◌∷◌, ◌++◌, ◌&&◌, Text, text_eq, text_eq_sound,
  if◌then◌else◌, map, Bool-cases, inl, inr, arith, ap, ap₂, sym, ◌∙◌,
}
use zero_reserve.Number.{Number}
use zero_reserve.Money.{
  Credit, Bank, our_credit, is_for, fill, set_column, peer_exists, update_peer, load_peer, blank,
  create_peer, ensure_peer, update_our_credit,
}
use zero_reserve.Money.Rows.{load_peer-id, load_peer-currency}

module _ {N : Type 0} ⦃num : Number N⦄ where
  -- An account without the credit that the friend gives.
  abbrev pub owed : Credit N → Credit N
  owed c = record c { our_credit = num.nought }

  -- In no account is there another balance, another credit for the friend or another allocation.
  abbrev pub SameDebts : Bank N → Bank N → Type 0
  SameDebts b b' =
      (i cur : Text)
      → owed (load_peer b'.peers (blank i cur)) ≡ owed (load_peer b.peers (blank i cur))

  owed-fill :
      (b : Bool) (c row : Credit N)
      → owed (if b then fill c row else c) ≡ (if b then fill (owed c) (owed row) else owed c)
  unfolding fill
  owed-fill true c row = refl
  owed-fill false c row = refl

  owed-load_peer :
      (rows : List (Credit N)) (c : Credit N)
      → owed (load_peer rows c) ≡ load_peer (map owed rows) (owed c)
  unfolding load_peer is_for
  owed-load_peer [] c = refl
  owed-load_peer (row ∷ rows) c =
      owed-load_peer rows (if is_for c.id c.currency row then fill c row else c)
      ∙ ap (load_peer (map owed rows)) (owed-fill (is_for c.id c.currency row) c row)

  map-update_peer :
      (stored : N → N) (i cur : Text) (v : N) (rows : List (Credit N))
      → map owed (update_peer stored i cur our_credit v rows) ≡ map owed rows
  unfolding update_peer set_column
  map-update_peer stored i cur v [] = refl
  map-update_peer stored i cur v (row ∷ rows) = elim (Bool-cases (is_for i cur row)) [
    | inl e ↦
        rw e (ap (λ (xs : List (Credit N)). owed row ∷ xs) (map-update_peer stored i cur v rows))
    | inr e ↦
        rw e (ap (λ (xs : List (Credit N)). owed row ∷ xs) (map-update_peer stored i cur v rows))
  ]

  load_peer-append :
      (rows more : List (Credit N)) (c : Credit N)
      → load_peer (rows ++ more) c ≡ load_peer more (load_peer rows c)
  unfolding load_peer
  load_peer-append [] more c = refl
  load_peer-append (row ∷ rows) more c = load_peer-append rows more _

  load_peer-missing :
      (rows : List (Credit N)) (c : Credit N)
      → peer_exists rows c.id c.currency ≡ false
      → load_peer rows c ≡ c
  unfolding load_peer peer_exists
  load_peer-missing [] c x = refl
  load_peer-missing (row ∷ rows) c x = elim (Bool-cases (is_for c.id c.currency row)) [
    | inl e ↦ ground arith
    | inr e ↦ rw e (load_peer-missing rows c (ground arith))
  ]

  -- A blank row in place of no row.
  blank-again :
      (rows : List (Credit N)) (j cur i cur' : Text)
      → peer_exists rows j cur ≡ false
      → text_eq j i && text_eq cur cur' ≡ true
      → fill (load_peer rows (blank i cur')) (blank j cur) ≡ load_peer rows (blank i cur')
  unfolding fill
  blank-again rows j cur i cur' x e =
      let none_there : load_peer rows (blank i cur') ≡ blank i cur' =
        load_peer-missing rows (blank i cur') (
          ap₂ (λ (a c : Text). peer_exists rows a c) (sym (text_eq_sound j i (ground arith)))
            (sym (text_eq_sound cur cur' (ground arith)))
          ∙ x) in
      ap (λ (c : Credit N). fill c (blank j cur)) none_there ∙ sym none_there

  -- A row that is made for an account that has none loads as what an account without a row is.
  load_peer-create_peer :
      (rows : List (Credit N)) (j cur i cur' : Text)
      → peer_exists rows j cur ≡ false
      → load_peer (create_peer rows j cur) (blank i cur') ≡ load_peer rows (blank i cur')
  unfolding create_peer load_peer is_for
  load_peer-create_peer rows j cur i cur' x =
      load_peer-append rows (blank j cur ∷ []) (blank i cur')
      ∙ ap₂ (λ (a c : Text). load_one rows j cur i cur' (text_eq j a && text_eq cur c))
          (load_peer-id rows (blank i cur')) (load_peer-currency rows (blank i cur'))
      ∙ elim (Bool-cases (text_eq j i && text_eq cur cur')) [
        | inl e ↦ rw e (blank-again rows j cur i cur' x e)
        | inr e ↦ rw e refl
      ]
    where
      load_one : List (Credit N) → Text → Text → Text → Text → Bool → Credit N
      load_one rows j cur i cur' b =
          if b
          then fill (load_peer rows (blank i cur')) (blank j cur)
          else load_peer rows (blank i cur')

  load_peer-ensure_peer :
      (c : Credit N) (b : Bank N) (i cur : Text)
      → load_peer (ensure_peer c b).peers (blank i cur) ≡ load_peer b.peers (blank i cur)
  unfolding ensure_peer
  load_peer-ensure_peer c b i cur = elim (Bool-cases (peer_exists b.peers c.id c.currency)) [
    | inl e ↦ rw e refl
    | inr e ↦ rw e (load_peer-create_peer b.peers c.id c.currency i cur e)
  ]

  -- updateOurCredit
  pub update_our_credit-SameDebts :
      (stored : N → N) (c : Credit N) (b : Bank N) → SameDebts b (update_our_credit stored c b)
  unfolding update_our_credit
  update_our_credit-SameDebts stored c b i cur =
      owed-load_peer (update_our_credit stored c b).peers (blank i cur)
      ∙ ap (λ (rows : List (Credit N)). load_peer rows (owed (blank i cur)))
          (map-update_peer stored c.id c.currency c.our_credit (ensure_peer c b).peers)
      ∙ sym (owed-load_peer (ensure_peer c b).peers (blank i cur))
      ∙ ap owed (load_peer-ensure_peer c b i cur)
