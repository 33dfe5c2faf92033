-- ===== src/Service/Recipients.antt =====
-- Who an order is passed on to.
use zero_reserve.Base.{
  Bool, true, false, ◌≡◌, List, [], ◌∷◌, Option, some, Text, text_eq, ◌||◌, All, Bool-cases,
  Option-cases, inl, inr, arith,
}
use zero_reserve.Currency.{Build, symbol_of}
use zero_reserve.Number.{Number}
use zero_reserve.Money.{Bank, Credit, new_credit, load_peer}
use zero_reserve.Orders.{Order}
use zero_reserve.Service.{is_sender, can_fill, publish_order}

module _ {N : Type 0} ⦃num : Number N⦄ (build : Build) (tenth : N → N) (own : Text)
    (sender : Option Text) (o : Order N) (b : Bank N) where
  -- A friend who is not the user and not the sender, and whose account in the order's currency passes
  -- the test of the credit.
  pub record IsRecipient (peer : Text) : Type 0 where
    pub not_own : text_eq peer own ≡ false
    pub not_sender : is_sender sender peer ≡ false
    pub has_credit :
        (cur : Text) × (c : Credit N) × (symbol_of build o.currency ≡ some cur)
        × (new_credit build peer cur ≡ some c)
        × (can_fill tenth o (load_peer b.peers c) ≡ true)

  or_left : (x y : Bool) → x || y ≡ false → x ≡ false
  or_left x y e = ground arith

  or_right : (x y : Bool) → x || y ≡ false → y ≡ false
  or_right x y e = ground arith

  -- publishOrder sends an order only to friends other than the user and the sender with whom the
  -- account in the order's currency passes the test of the credit.
  pub publish_order-IsRecipient :
      (online : List Text) → All IsRecipient (publish_order build tenth own online sender o b)
  unfolding publish_order
  publish_order-IsRecipient [] = tt
  publish_order-IsRecipient (peer ∷ peers) =
      elim (Bool-cases (text_eq peer own || is_sender sender peer)) [
        | inl e ↦ rw e (publish_order-IsRecipient peers)
        | inr e ↦ elim (Option-cases (symbol_of build o.currency)) [
          | inl s ↦ rw (e, s) tt
          | inr (cur, s) ↦ elim (Option-cases (new_credit {N = N} build peer cur)) [
            | inl n ↦ rw (e, s, n) tt
            | inr (c, n) ↦ elim (Bool-cases (can_fill tenth o (load_peer b.peers c))) [
              | inl f ↦
                  rw (e, s, n, f)
                    (
                      record {
                        not_own = or_left _ _ e;
                        not_sender = or_right _ _ e;
                        has_credit = (cur, c, s, n, f);
                      },
                      publish_order-IsRecipient peers,
                    )
              | inr f ↦ rw (e, s, n, f) (publish_order-IsRecipient peers)
            ]
          ]
        ]
      ]
