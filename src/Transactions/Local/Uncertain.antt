-- ===== src/Transactions/Local/Uncertain.antt =====
-- What always holds of a payment over the network of Network, and that lost items and ended managers keep it.
use zero_reserve.Base.{
  ◌+◌, ◌≤◌, true, false, List, ◌∷◌, ◌++◌, ◌≡◌, refl, none, ◌⊎◌, inl, inr, All, arith, ap, subst,
  ◌∙◌,
}
use zero_reserve.Number.{Number}
use zero_reserve.Transactions.Local.{Node, TxItem}
use zero_reserve.Transactions.Local.Ends.{
  Setting, is_query, All-pick, queries, queries-pick, IsAnswer, FromPayer, IsWaiting, IsAsked,
  IsSettled, IsOpen, IsClosed,
}

module _ {N : Type 0} ⦃num : Number N⦄ (t : Setting N) where
  open t use {build, stored, i, a, b, p, q}

  -- The two nodes together.
  pub data Inv (x y : Node N) : Type 0 where
    before : IsWaiting t y → IsOpen t x → queries x.sent ≤ 1 → Inv x y
    between : IsAsked t y → IsOpen t x → queries x.sent ≡ 0 → Inv x y
    after : IsSettled t y → IsOpen t x ⊎ IsClosed t x → queries x.sent ≡ 0 → Inv x y

  -- The payer's node without one of the items that it sent.
  abbrev pub less : Node N → List (TxItem N) → List (TxItem N) → Node N
  less x pre post = record x { sent = pre ++ post }

  pub orders-less :
      (x : Node N) (pre post : List (TxItem N)) (item : TxItem N)
      → x.sent ≡ pre ++ item ∷ post
      → All (FromPayer t) x.sent
      → FromPayer t item × All (FromPayer t) (pre ++ post)
  orders-less x pre post item e h =
      All-pick (FromPayer t) pre post item (subst (All (FromPayer t)) e h)

  pub IsOpen-less :
      (x : Node N) (pre post : List (TxItem N)) (item : TxItem N)
      → x.sent ≡ pre ++ item ∷ post
      → IsOpen t x
      → IsOpen t (less x pre post)
  IsOpen-less x pre post item e h = record {
    own = h.own;
    paying = h.paying;
    kept = h.kept;
    orders = (orders-less x pre post item e h.orders).1;
  }

  IsClosed-less :
      (x : Node N) (pre post : List (TxItem N)) (item : TxItem N)
      → x.sent ≡ pre ++ item ∷ post
      → IsClosed t x
      → IsClosed t (less x pre post)
  IsClosed-less x pre post item e h = record {
    own = h.own;
    loose = h.loose;
    booked = h.booked;
    orders = (orders-less x pre post item e h.orders).1;
  }

  pub Payer-less :
      (x : Node N) (pre post : List (TxItem N)) (item : TxItem N)
      → x.sent ≡ pre ++ item ∷ post
      → IsOpen t x ⊎ IsClosed t x
      → IsOpen t (less x pre post) ⊎ IsClosed t (less x pre post)
  Payer-less x pre post item e (inl h) = inl (IsOpen-less x pre post item e h)
  Payer-less x pre post item e (inr h) = inr (IsClosed-less x pre post item e h)

  pub queries-less :
      (x : Node N) (pre post : List (TxItem N)) (item : TxItem N)
      → x.sent ≡ pre ++ item ∷ post
      → queries x.sent ≡ is_query item.phase + queries (pre ++ post)
  queries-less x pre post item e = ap queries e ∙ queries-pick pre post item

  pub lost_to_payee-Inv :
      (x y : Node N) (pre post : List (TxItem N)) (item : TxItem N)
      → x.sent ≡ pre ++ item ∷ post
      → Inv x y
      → Inv (less x pre post) y
  lost_to_payee-Inv x y pre post item e (before h o n) =
      before h (IsOpen-less x pre post item e o) (omega (arith, queries-less x pre post item e))
  lost_to_payee-Inv x y pre post item e (between h o n) =
      between h (IsOpen-less x pre post item e o) (omega (arith, queries-less x pre post item e))
  lost_to_payee-Inv x y pre post item e (after h o n) =
      after h (Payer-less x pre post item e o) (omega (arith, queries-less x pre post item e))

  pub lost_to_payer-Inv :
      (x y : Node N) (pre post : List (TxItem N)) (item : TxItem N)
      → y.sent ≡ pre ++ item ∷ post
      → Inv x y
      → Inv x (record y { sent = pre ++ post })
  lost_to_payer-Inv x y pre post item e (before h o n) =
      before
        (record {
          loose = h.loose;
          kept = h.kept;
          answers =
              (All-pick (IsAnswer false) pre post item
                (subst (All (IsAnswer false)) e h.answers)).1;
        })
        o n
  lost_to_payer-Inv x y pre post item e (between h o n) =
      between
        (record {
          asked = h.asked;
          kept = h.kept;
          answers =
              (All-pick (IsAnswer false) pre post item
                (subst (All (IsAnswer false)) e h.answers)).1;
        })
        o n
  lost_to_payer-Inv x y pre post item e (after h o n) =
      after
        (record {
          loose = h.loose;
          booked = h.booked;
          answers =
              (All-pick (IsAnswer true) pre post item (subst (All (IsAnswer true)) e h.answers)).1;
        })
        o n

  pub payee_ends-Inv : (x y : Node N) → Inv x y → Inv x (record y { manager = none })
  payee_ends-Inv x y (before h o n) =
      before (record { loose = inl refl; kept = h.kept; answers = h.answers }) o n
  payee_ends-Inv x y (between h o n) =
      before (record { loose = inl refl; kept = h.kept; answers = h.answers }) o (omega arith)
  payee_ends-Inv x y (after h o n) =
      after (record { loose = inl refl; booked = h.booked; answers = h.answers }) o n

  IsOpen-ends : (x : Node N) → IsOpen t x → IsOpen t (record x { manager = none })
  IsOpen-ends x h = record {
    own = h.own;
    paying = inl (inl refl);
    kept = h.kept;
    orders = h.orders;
  }

  pub payer_ends-Inv : (x y : Node N) → Inv x y → Inv (record x { manager = none }) y
  payer_ends-Inv x y (before h o n) = before h (IsOpen-ends x o) n
  payer_ends-Inv x y (between h o n) = between h (IsOpen-ends x o) n
  payer_ends-Inv x y (after h (inl o) n) = after h (inl (IsOpen-ends x o)) n
  payer_ends-Inv x y (after h (inr o) n) =
      after h (inr (record { own = o.own; loose = inl refl; booked = o.booked; orders = o.orders }))
        n
