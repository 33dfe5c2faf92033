-- ===== src/Money/Rows.antt =====
-- The tables of the database: what a row holds after an update, and which rows an update leaves.
use mathlib.Core.Path.{subst₂}
use zero_reserve.Base.{
  true, false, ◌≡◌, refl, List, [], ◌∷◌, ◌&&◌, if◌then◌else◌, Text, text_eq, Bool-cases, inl, inr,
  arith, text_eq_sound, text_eq_comm, ap₂, ◌∙◌,
}
use zero_reserve.Money.{
  Credit, Column, credit, our_credit, balance, allocation, is_for, set_column, fill, peer_exists,
  update_peer, load_peer,
}

module _ {N : Type 0} where
  set_column-key :
      (col : Column) (v : N) (row : Credit N) (i cur : Text)
      → is_for i cur (set_column col v row) ≡ is_for i cur row
  unfolding set_column is_for
  set_column-key credit v row i cur = refl
  set_column-key our_credit v row i cur = refl
  set_column-key balance v row i cur = refl
  set_column-key allocation v row i cur = refl

  pub set_column-id : (col : Column) (v : N) (c : Credit N) → (set_column col v c).id ≡ c.id
  unfolding set_column
  set_column-id credit v c = refl
  set_column-id our_credit v c = refl
  set_column-id balance v c = refl
  set_column-id allocation v c = refl

  pub set_column-currency :
      (col : Column) (v : N) (c : Credit N) → (set_column col v c).currency ≡ c.currency
  unfolding set_column
  set_column-currency credit v c = refl
  set_column-currency our_credit v c = refl
  set_column-currency balance v c = refl
  set_column-currency allocation v c = refl

  fill-set_column :
      (col : Column) (v : N) (c row : Credit N)
      → fill c (set_column col v row) ≡ set_column col v (fill c row)
  unfolding set_column fill
  fill-set_column credit v c row = refl
  fill-set_column our_credit v c row = refl
  fill-set_column balance v c row = refl
  fill-set_column allocation v c row = refl

  fill_over : (col : Column) (v : N) (c row : Credit N) → fill (set_column col v c) row ≡ fill c row
  unfolding set_column fill
  fill_over credit v c row = refl
  fill_over our_credit v c row = refl
  fill_over balance v c row = refl
  fill_over allocation v c row = refl

  fill-id : (c row : Credit N) → (fill c row).id ≡ c.id
  unfolding fill
  fill-id c row = refl

  fill-currency : (c row : Credit N) → (fill c row).currency ≡ c.currency
  unfolding fill
  fill-currency c row = refl

  pub load_peer-id : (rows : List (Credit N)) (c : Credit N) → (load_peer rows c).id ≡ c.id
  unfolding load_peer fill
  load_peer-id [] c = refl
  load_peer-id (row ∷ rows) c = elim (Bool-cases (is_for c.id c.currency row)) [
    | inl e ↦ rw (load_peer, e) (load_peer-id rows (fill c row))
    | inr e ↦ rw (load_peer, e) (load_peer-id rows c)
  ]

  pub load_peer-currency :
      (rows : List (Credit N)) (c : Credit N) → (load_peer rows c).currency ≡ c.currency
  unfolding load_peer fill
  load_peer-currency [] c = refl
  load_peer-currency (row ∷ rows) c = elim (Bool-cases (is_for c.id c.currency row)) [
    | inl e ↦ rw (load_peer, e) (load_peer-currency rows (fill c row))
    | inr e ↦ rw (load_peer, e) (load_peer-currency rows c)
  ]

  -- Where a row fits, what is loaded depends on the key alone.
  load_peer-key :
      (rows : List (Credit N)) (c c' : Credit N)
      → c'.id ≡ c.id
      → c'.currency ≡ c.currency
      → peer_exists rows c.id c.currency ≡ true
      → load_peer rows c' ≡ load_peer rows c
  unfolding load_peer peer_exists fill
  load_peer-key [] c c' p q x = cc
  load_peer-key (row ∷ rows) c c' p q x = elim (Bool-cases (is_for c.id c.currency row)) [
    | inl e ↦
        ap₂
          (λ (i cur : Text).
            load_peer rows
              (if is_for i cur row then fill (record c' { id = i; currency = cur }) row else c'))
          p q
        ∙ rw e refl
    | inr e ↦
        ap₂ (λ (i cur : Text). load_peer rows (if is_for i cur row then fill c' row else c')) p q
        ∙ rw e (load_peer-key rows c c' p q (ground arith))
  ]

  pub load_peer-again :
      (rows : List (Credit N)) (c : Credit N)
      → peer_exists rows c.id c.currency ≡ true
      → load_peer rows (load_peer rows c) ≡ load_peer rows c
  load_peer-again rows c x =
      load_peer-key rows c (load_peer rows c) (load_peer-id rows c) (load_peer-currency rows c) x

  module _ (stored : N → N) (col : Column) (v : N) where
    -- The record loaded after an update, where it had the new value before.
    load-update_over :
        (rows : List (Credit N)) (c : Credit N)
        → load_peer (update_peer stored c.id c.currency col v rows) (set_column col (stored v) c)
          ≡ set_column col (stored v) (load_peer rows c)
    unfolding load_peer update_peer
    load-update_over [] c = refl
    load-update_over (row ∷ rows) c = elim (Bool-cases (is_for c.id c.currency row)) [
      | inl e ↦
          rw
            (
              e,
              set_column-id col (stored v) c,
              set_column-currency col (stored v) c,
              set_column-key col (stored v) row c.id c.currency,
              e,
              fill_over col (stored v) c (set_column col (stored v) row),
              fill-set_column col (stored v) c row,
            )
            (subst₂
              (λ (x y : Text).
                load_peer (update_peer stored x y col v rows)
                  (set_column col (stored v) (fill c row))
                ≡ set_column col (stored v) (load_peer rows (fill c row)))
              (fill-id c row) (fill-currency c row) (load-update_over rows (fill c row)))
      | inr e ↦
          rw (e, set_column-id col (stored v) c, set_column-currency col (stored v) c, e)
            (load-update_over rows c)
    ]

    -- The record loaded after an update has the new value in that column.
    pub load-update :
        (rows : List (Credit N)) (c : Credit N)
        → peer_exists rows c.id c.currency ≡ true
        → load_peer (update_peer stored c.id c.currency col v rows) c
          ≡ set_column col (stored v) (load_peer rows c)
    unfolding load_peer update_peer peer_exists
    load-update [] c x = cc
    load-update (row ∷ rows) c x = elim (Bool-cases (is_for c.id c.currency row)) [
      | inl e ↦
          rw
            (
              e,
              set_column-key col (stored v) row c.id c.currency,
              e,
              fill-set_column col (stored v) c row,
            )
            (subst₂
              (λ (x y : Text).
                load_peer (update_peer stored x y col v rows)
                  (set_column col (stored v) (fill c row))
                ≡ set_column col (stored v) (load_peer rows (fill c row)))
              (fill-id c row) (fill-currency c row) (load-update_over rows (fill c row)))
      | inr e ↦ rw (e, e) (load-update rows c (ground arith))
    ]

    -- The same for an update under the key of the loaded record.
    pub load-update_loaded :
        (rows : List (Credit N)) (c : Credit N)
        → peer_exists rows c.id c.currency ≡ true
        → load_peer
            (update_peer stored (load_peer rows c).id (load_peer rows c).currency col v rows)
            c
          ≡ set_column col (stored v) (load_peer rows c)
    load-update_loaded rows c x =
        ap₂ (λ (i cur : Text). load_peer (update_peer stored i cur col v rows) c)
          (load_peer-id rows c) (load_peer-currency rows c)
        ∙ load-update rows c x

  module _ (stored : N → N) (i cur : Text) (col : Column) (v : N) where
    apart :
        (c row : Credit N)
        → (text_eq i c.id && text_eq cur c.currency) ≡ false
        → is_for i cur row ≡ true
        → is_for c.id c.currency row ≡ false
    unfolding is_for
    apart c row n e = ground (
      arith,
      text_eq_comm i row.id,
      text_eq_comm cur row.currency,
      text_eq_sound row.id i,
      text_eq_sound row.currency cur,
      text_eq_comm c.id i,
      text_eq_comm c.currency cur,
    )

    -- The record of another friend or currency is loaded as before.
    pub load-update_ne :
        (rows : List (Credit N)) (c : Credit N)
        → (text_eq i c.id && text_eq cur c.currency) ≡ false
        → load_peer (update_peer stored i cur col v rows) c ≡ load_peer rows c
    unfolding load_peer update_peer fill
    load-update_ne [] c n = refl
    load-update_ne (row ∷ rows) c n = elim (Bool-cases (is_for i cur row)) [
      | inl e ↦
          rw (e, set_column-key col (stored v) row c.id c.currency, apart c row n e)
            (load-update_ne rows c n)
      | inr e ↦ elim (Bool-cases (is_for c.id c.currency row)) [
        | inl k ↦ rw (e, k) (load-update_ne rows (fill c row) n)
        | inr k ↦ rw (e, k) (load-update_ne rows c n)
      ]
    ]

    pub peer_exists-update :
        (rows : List (Credit N)) (i' cur' : Text)
        → peer_exists (update_peer stored i cur col v rows) i' cur' ≡ peer_exists rows i' cur'
    unfolding peer_exists update_peer
    peer_exists-update [] i' cur' = refl
    peer_exists-update (row ∷ rows) i' cur' = elim (Bool-cases (is_for i cur row)) [
      | inl e ↦
          rw (e, set_column-key col (stored v) row i' cur', peer_exists-update rows i' cur') refl
      | inr e ↦ rw (e, peer_exists-update rows i' cur') refl
    ]
