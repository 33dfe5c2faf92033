-- ===== src/Transactions/Local/Deliveries.antt =====
-- A delivery keeps the invariant of Uncertain, and so does every step.
use zero_reserve.Base.{
  Bool, true, false, List, ◌∷◌, ◌++◌, ◌≡◌, some, Text, ◌⊎◌, inl, inr, All, arith, ap, ap₂, sym,
  subst, ◌∙◌, ◌≢◌,
}
use zero_reserve.Number.{Number}
use zero_reserve.Transactions.Local.{
  Node, TxItem, get_payment, handle_tx_item, offer_of, init_item, order_commit,
}
use zero_reserve.Transactions.Local.Network.{
  Step, received, to_payee, to_payer, lost_to_payee, lost_to_payer, payer_ends, payee_ends,
}
use zero_reserve.Transactions.Local.Answers.{Answered, IsOpen-answer, IsClosed-answer}
use zero_reserve.Transactions.Local.Ends.{
  Setting, is_query, All-pick, Leaves-received, IsLoose, IsAnswer, FromPayer, IsWaiting, IsSettled,
  IsOpen, IsClosed, WaitsOrAsks, query-Leaves, commit-undefined, commit-settles,
}
use zero_reserve.Transactions.Local.Uncertain.{
  Inv, before, between, after, less, orders-less, IsOpen-less, queries-less, lost_to_payee-Inv,
  lost_to_payer-Inv, payee_ends-Inv, payer_ends-Inv,
}

module _ {N : Type 0} ⦃num : Number N⦄ (t : Setting N) where
  open t use {build, stored, i, a, b, p, q}

  is_query-opening : (item : TxItem N) → item ≡ init_item p → is_query item.phase ≡ 1
  is_query-opening item e = ap (λ (x : TxItem N). is_query x.phase) e

  no_commit :
      (x y y' : Node N) (item : TxItem N)
      → item.phase ≡ order_commit
      → IsLoose y.manager
      → received (handle_tx_item build stored (record item { peer_id = x.own_id }) y) ≢ some y'
  no_commit x y y' item c l r =
      cc (r, ap received (commit-undefined t y (record item { peer_id = x.own_id }) c l))

  asked_for :
      (x y y' : Node N) (item : TxItem N)
      → get_payment build i (offer_of p) b ≡ some q
      → IsWaiting t y
      → x.own_id ≡ i
      → item ≡ init_item p
      → received (handle_tx_item build stored (record item { peer_id = x.own_id }) y) ≡ some y'
      → WaitsOrAsks t y'
  asked_for x y y' item g h o e r =
      Leaves-received (WaitsOrAsks t) _ y'
        (ap₂
            (λ (v : TxItem N) (w : Text).
              received (handle_tx_item build stored (record v { peer_id = w }) y))
            (sym e) (sym o)
          ∙ r)
        (query-Leaves t y g h)

  to_payee-Inv :
      (x y y' : Node N) (pre post : List (TxItem N)) (item : TxItem N)
      → get_payment build i (offer_of p) b ≡ some q
      → x.sent ≡ pre ++ item ∷ post
      → received (handle_tx_item build stored (record item { peer_id = x.own_id }) y) ≡ some y'
      → Inv t x y
      → Inv t (less t x pre post) y'
  to_payee-Inv x y y' pre post item g e r (before h o n) =
      elim (orders-less t x pre post item e o.orders).0 [
        | inl f ↦ elim (asked_for x y y' item g h o.own f r) [
          | inl w ↦
              before w (IsOpen-less t x pre post item e o)
                (omega (arith, queries-less t x pre post item e))
          | inr w ↦
              between w (IsOpen-less t x pre post item e o)
                (omega (arith, queries-less t x pre post item e, is_query-opening item f))
        ]
        | inr c ↦ absurd (no_commit x y y' item c h.loose r)
      ]
  to_payee-Inv x y y' pre post item g e r (between h o n) =
      elim (orders-less t x pre post item e o.orders).0 [
        | inl f ↦ absurd (omega (arith, queries-less t x pre post item e, is_query-opening item f))
        | inr c ↦
            after
              (Leaves-received (IsSettled t) _ y' r
                (commit-settles t y (record item { peer_id = x.own_id }) c h))
              (inl (IsOpen-less t x pre post item e o))
              (omega (arith, queries-less t x pre post item e))
      ]
  to_payee-Inv x y y' pre post item g e r (after h o n) = elim (from_payer o) [
    | inl f ↦ absurd (omega (arith, queries-less t x pre post item e, is_query-opening item f))
    | inr c ↦ absurd (no_commit x y y' item c h.loose r)
  ]
    where
      from_payer : IsOpen t x ⊎ IsClosed t x → FromPayer t item
      from_payer (inl w) = (orders-less t x pre post item e w.orders).0
      from_payer (inr w) = (orders-less t x pre post item e w.orders).0

  answers-less :
      (acked : Bool) (y : Node N) (pre post : List (TxItem N)) (item : TxItem N)
      → y.sent ≡ pre ++ item ∷ post
      → All (IsAnswer acked) y.sent
      → IsAnswer acked item × All (IsAnswer acked) (pre ++ post)
  answers-less acked y pre post item e h =
      All-pick (IsAnswer acked) pre post item (subst (All (IsAnswer acked)) e h)

  unacked : (sent : List (TxItem N)) (x' : Node N) → Answered t false sent x' → IsOpen t x'
  unacked sent x' (inl o, n) = o
  unacked sent x' (inr c, n) = cc

  acked_or_not :
      (sent : List (TxItem N)) (x' : Node N) → Answered t true sent x' → IsOpen t x' ⊎ IsClosed t x'
  acked_or_not sent x' (inl o, n) = inl o
  acked_or_not sent x' (inr c, n) = inr c.0

  to_payer-Inv :
      (x x' y : Node N) (pre post : List (TxItem N)) (item : TxItem N)
      → y.sent ≡ pre ++ item ∷ post
      → received (handle_tx_item build stored (record item { peer_id = y.own_id }) x) ≡ some x'
      → Inv t x y
      → Inv t x' (record y { sent = pre ++ post })
  to_payer-Inv x x' y pre post item e r (before h o n) =
      let (k, rest) = answers-less false y pre post item e h.answers in
      let done = IsOpen-answer t false x x' (record item { peer_id = y.own_id }) o k r in
      before (record { loose = h.loose; kept = h.kept; answers = rest }) (unacked x.sent x' done)
        (omega (arith, done.1))
  to_payer-Inv x x' y pre post item e r (between h o n) =
      let (k, rest) = answers-less false y pre post item e h.answers in
      let done = IsOpen-answer t false x x' (record item { peer_id = y.own_id }) o k r in
      between (record { asked = h.asked; kept = h.kept; answers = rest }) (unacked x.sent x' done)
        (omega (arith, done.1))
  to_payer-Inv x x' y pre post item e r (after h (inl o) n) =
      let (k, rest) = answers-less true y pre post item e h.answers in
      let done = IsOpen-answer t true x x' (record item { peer_id = y.own_id }) o k r in
      after (record { loose = h.loose; booked = h.booked; answers = rest })
        (acked_or_not x.sent x' done) (omega (arith, done.1))
  to_payer-Inv x x' y pre post item e r (after h (inr o) n) =
      let (k, rest) = answers-less true y pre post item e h.answers in
      let done = IsClosed-answer t true x x' (record item { peer_id = y.own_id }) o k r in
      after (record { loose = h.loose; booked = h.booked; answers = rest }) (inr done.0)
        (omega (arith, done.1))

  pub Step-Inv :
      {x y x' y' : Node N}
      → get_payment build i (offer_of p) b ≡ some q
      → Step build stored x y x' y'
      → Inv t x y
      → Inv t x' y'
  Step-Inv {x} {y} g (to_payee pre post item y' e r) v = to_payee-Inv x y y' pre post item g e r v
  Step-Inv {x} {y} g (to_payer pre post item x' e r) v = to_payer-Inv x x' y pre post item e r v
  Step-Inv {x} {y} g (lost_to_payee pre post item e) v = lost_to_payee-Inv t x y pre post item e v
  Step-Inv {x} {y} g (lost_to_payer pre post item e) v = lost_to_payer-Inv t x y pre post item e v
  Step-Inv {x} {y} g payer_ends v = payer_ends-Inv t x y v
  Step-Inv {x} {y} g payee_ends v = payee_ends-Inv t x y v
