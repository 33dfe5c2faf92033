-- ===== src/Wire/Readers.antt =====
-- RSZeroReserveItems.cpp, RSZRRemoteItems.cpp: deserialise on what serialise wrote.
use zero_reserve.Base.{ℕ, ◌≤◌, ◌≡◌, refl, List, [], ◌∷◌, ◌++◌, some, Text, arith, sym, ◌∙◌, subst}
use zero_reserve.Base.Int.{ℤ, pos, negsuc}
use zero_reserve.Currency.{Build, symbol_of, get_currency_by_symbol}
use zero_reserve.Currency.Tables.{symbol_round_trip}
use zero_reserve.Number.{Number}
use zero_reserve.Money.{Credit, new_credit, blank}
use zero_reserve.Wire.Raw.{Memory, Field, byte, text, Raw, IsRaw}
use zero_reserve.Wire.Fields.{Reading}
use zero_reserve.Wire.Items.{
  Item, msg_item, credit_item, tx_item, init_tx_item, remote_tx_item, order_item, Msg, RemoteTx, Tx,
  Spelling, fields, subtype_of, service_type, to_uint64, from_uint64, InitTx, OrderInfo,
  order_fields, init_tx_fields, tx_fields,
}
use zero_reserve.Wire.Serialiser.{
  check_packet, read_item, read_order, read_tx_item, read_init_tx, read_credit, read_msg,
  read_remote_tx,
}
use zero_reserve.Wire.Sizes.{IsProper, IsInt64, IsKnown}
use zero_reserve.Wire.Codec.{
  Ends, Ends-byte, Ends-word, Ends-text, Ends-attempt_byte, Ends-attempt_text, Ends-read_tx,
  Ends-check_version, Ends-require, Ends-or_throw, Ends-pure, Ends-at_end,
}

from_uint64-to_uint64 : (t : ℤ) → IsInt64 t → from_uint64 (to_uint64 t) ≡ t
unfolding from_uint64 to_uint64
from_uint64-to_uint64 (pos n) h = ground arith
from_uint64-to_uint64 (negsuc n) h = ground arith

module _ {N : Type 0} ⦃num : Number N⦄ where
  -- What the friend gets: of an account what it gives and takes is exchanged, and the user's id and what
  -- is allocated are not sent.
  abbrev pub received : Item N → Item N
  received (credit_item c) = credit_item (record (blank [] c.currency) {
    our_credit = c.credit;
    credit = c.our_credit;
    balance = c.balance;
  })
  received (msg_item m) = msg_item m
  received (tx_item t) = tx_item t
  received (init_tx_item i) = init_tx_item i
  received (remote_tx_item r) = remote_tx_item r
  received (order_item o) = order_item o

  new_credit-IsKnown :
      (build : Build) (cur : Text)
      → IsKnown build cur
      → new_credit {N = N} build [] cur ≡ some (blank [] cur)
  unfolding new_credit
  new_credit-IsKnown build cur known = ground arith

of_some : {A : Type 0} {x y : A} → some x ≡ some y → x ≡ y
of_some e = cc

fields_order :
    {N : Type 0} (build : Build) (sp : Spelling N) (o : OrderInfo N) (s : Text)
    → symbol_of build o.info_currency ≡ some s
    → fields build sp (order_item o) ≡ some (order_fields sp o s)
unfolding fields
fields_order build sp o s e = rw (e, fields) refl

-- The header of the packet is that of an item, and the packet is not cut off.
pub record IsHeaded (raw : Raw) (m : Memory) (pktsize t : ℕ) : Type 0 where
  pub is_version : raw.version (raw.item_id m) ≡ raw.version_service
  pub is_service : raw.service (raw.item_id m) ≡ service_type
  pub is_subtype : raw.subtype (raw.item_id m) ≡ t
  pub is_whole : raw.item_size m ≤ pktsize

module _ {V : Type 0} {raw : Raw} {laws : IsRaw raw} {m : Memory} {p : Reading V} {fs : List Field}
    {v : V} where
  Ends-check_packet :
      {pktsize t : ℕ}
      → IsHeaded raw m pktsize t
      → Ends raw laws m p fs v
      → Ends raw laws m (check_packet raw m pktsize t p) fs v
  unfolding check_packet
  Ends-check_packet {pktsize = pktsize} {t = t} h e =
      let fits = h.is_whole in
      Ends-require (rw (h.is_version, h.is_service, h.is_subtype) (ground arith))
        (Ends-require (ground arith) e)

module _ {N : Type 0} ⦃num : Number N⦄ (build : Build) (sp : Spelling N) (raw : Raw)
    (laws : IsRaw raw) (m : Memory) (pktsize unset : ℕ) where
  read_msg-Ends :
      (x : Msg)
      → IsHeaded raw m pktsize 5
      → Ends raw laws m
          (read_msg build sp raw m pktsize unset)
          (byte 0 ∷ byte x.msg_type ∷ text x.msg ∷ [])
          (msg_item x)
  unfolding read_msg
  read_msg-Ends x h =
      Ends-check_version _ (Ends-check_packet h (Ends-byte _ (Ends-text _ Ends-at_end)))

  read_tx_item-Ends :
      (x : Tx)
      → IsHeaded raw m pktsize 2
      → Ends raw laws m
          (read_tx_item build sp raw m pktsize unset)
          (byte 0 ∷ byte x.tx_phase ∷ text x.tx_id ∷ [])
          (tx_item x)
  unfolding read_tx_item
  read_tx_item-Ends x h = Ends-check_version _ (Ends-check_packet h (Ends-read_tx _ Ends-pure))

  read_remote_tx-Ends :
      (x : RemoteTx)
      → IsHeaded raw m pktsize 7
      → Ends raw laws m
          (read_remote_tx build sp raw m pktsize unset)
          (byte 0
            ∷ text x.address
            ∷ byte x.phase
            ∷ byte x.direction
            ∷ text x.payer_id
            ∷ text x.payload
            ∷ [])
          (remote_tx_item x)
  unfolding read_remote_tx
  read_remote_tx-Ends x h =
      let fits = h.is_whole in
      Ends-check_version _ (
        Ends-attempt_text _ _ (
          Ends-require (rw (h.is_version, h.is_service) (ground arith)) (
            Ends-require (ground arith) (
              Ends-attempt_byte _ _ (
                Ends-attempt_byte _ _ (Ends-attempt_text _ _ (Ends-attempt_text _ _ Ends-pure)))))))

  read_credit-Ends :
      (c : Credit N)
      → IsKnown build c.currency
      → IsHeaded raw m pktsize 4
      → ((x : N) → sp.from_text (sp.to_text x) ≡ x)
      → Ends raw laws m
          (read_credit build sp raw m pktsize unset)
          (byte 0
            ∷ text c.currency
            ∷ text (sp.to_text c.credit)
            ∷ text (sp.to_text c.our_credit)
            ∷ text (sp.to_text c.balance)
            ∷ [])
          (received (credit_item c))
  unfolding read_credit
  read_credit-Ends c known h spelled = Ends-check_version _ (
      Ends-check_packet h (
        Ends-text _ (
          Ends-or_throw _ (new_credit-IsKnown build c.currency known) (
            Ends-text _ (
              Ends-text _ (
                Ends-text _
                  (rw (spelled c.credit, spelled c.our_credit, spelled c.balance) Ends-at_end)))))))

  read_init_tx-Ends :
      (i : InitTx N)
      → IsKnown build i.currency
      → IsHeaded raw m pktsize 3
      → ((x : N) → sp.from_text (sp.to_text x) ≡ x)
      → Ends raw laws m
          (read_init_tx build sp raw m pktsize unset)
          (byte 0 ∷ tx_fields i.tx ++ init_tx_fields sp i)
          (init_tx_item i)
  unfolding read_init_tx
  read_init_tx-Ends i known h spelled = Ends-check_version _ (
      Ends-read_tx _ (
        Ends-check_packet h (
          Ends-byte _ (
            Ends-text _ (
              Ends-text _ (
                Ends-byte _ (
                  Ends-text _ (
                    Ends-or_throw _ (new_credit-IsKnown build i.currency known)
                      (rw (spelled i.amount) Ends-pure)))))))))

  read_order-Ends :
      (o : OrderInfo N) (s : Text)
      → get_currency_by_symbol build s ≡ o.info_currency
      → IsInt64 o.info_time
      → IsHeaded raw m pktsize 1
      → ((x : N) → sp.from_text (sp.to_text x) ≡ x)
      → Ends raw laws m
          (read_order build sp raw m pktsize unset)
          (byte 0 ∷ order_fields sp o s)
          (order_item o)
  unfolding read_order
  read_order-Ends o s e t h spelled = Ends-check_version _ (
      Ends-attempt_text _ _ (
        Ends-check_packet h (
          Ends-text _ (
            Ends-text _ (
              Ends-byte _ (
                Ends-text _ (
                  Ends-word _ (
                    Ends-text _ (
                      Ends-byte _ (
                        rw
                          (
                            spelled o.info_amount,
                            spelled o.info_price,
                            e,
                            from_uint64-to_uint64 o.info_time t,
                          )
                          Ends-at_end))))))))))

  pub read_item-Ends :
      (i : Item N) (fs : List Field)
      → IsProper build i
      → IsHeaded raw m pktsize (subtype_of i)
      → ((x : N) → sp.from_text (sp.to_text x) ≡ x)
      → fields build sp i ≡ some fs
      → Ends raw laws m
          (read_item build sp raw m pktsize unset (subtype_of i))
          (byte 0 ∷ fs)
          (received i)
  unfolding read_item fields
  read_item-Ends (msg_item x) fs ok h spelled e =
      subst
        (λ gs.
          Ends raw laws m (read_msg build sp raw m pktsize unset) (byte 0 ∷ gs)
            (received (msg_item x)))
        (of_some e) (read_msg-Ends x h)
  read_item-Ends (credit_item c) fs ok h spelled e =
      subst
        (λ gs.
          Ends raw laws m (read_credit build sp raw m pktsize unset) (byte 0 ∷ gs)
            (received (credit_item c)))
        (of_some e) (read_credit-Ends c ok h spelled)
  read_item-Ends (tx_item x) fs ok h spelled e =
      subst
        (λ gs.
          Ends raw laws m (read_tx_item build sp raw m pktsize unset) (byte 0 ∷ gs)
            (received (tx_item x)))
        (of_some e) (read_tx_item-Ends x h)
  read_item-Ends (init_tx_item i) fs ok h spelled e =
      subst
        (λ gs.
          Ends raw laws m (read_init_tx build sp raw m pktsize unset) (byte 0 ∷ gs)
            (received (init_tx_item i)))
        (of_some e) (read_init_tx-Ends i ok.3 h spelled)
  read_item-Ends (remote_tx_item x) fs ok h spelled e =
      subst
        (λ gs.
          Ends raw laws m (read_remote_tx build sp raw m pktsize unset) (byte 0 ∷ gs)
            (received (remote_tx_item x)))
        (of_some e) (read_remote_tx-Ends x h)
  read_item-Ends (order_item o) fs ok h spelled e =
      let (s, f, _, back) = symbol_round_trip build o.info_currency ok.0 in
      subst
        (λ gs.
          Ends raw laws m (read_order build sp raw m pktsize unset) (byte 0 ∷ gs) (order_item o))
        (of_some (sym (fields_order build sp o s f) ∙ e)) (read_order-Ends o s back ok.3 h spelled)
