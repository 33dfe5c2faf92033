-- ===== src/Wire/Refusal.antt =====
-- RSZeroReserveItems.cpp, RSZRRemoteItems.cpp: serialise in a buffer of any size.
use zero_reserve.Base.{
  ℕ, ◌≤◌, ◌<◌, ◌≡◌, refl, Bool, true, false, some, ◌⊎◌, inl, inr, arith, ltb, Bool-cases, ◌∙◌,
}
use zero_reserve.Currency.{Build}
use zero_reserve.Number.{Number}
use zero_reserve.Wire.Raw.{Memory, Raw, IsRaw}
use zero_reserve.Wire.Items.{
  Item, msg_item, credit_item, tx_item, init_tx_item, remote_tx_item, order_item, Spelling,
  plain_size, serial_size,
}
use zero_reserve.Wire.Fields.{Writer}
use zero_reserve.Wire.Serialiser.{Packet, refuse, serialise, finished}
use zero_reserve.Wire.Sizes.{IsProper, plain_size-fields}
use zero_reserve.Wire.RoundTrip.{
  written, serialise-fields, finished_ok, serial_size-plain_size, if_true,
}

abbrev pub is_init : {N : Type 0} → Item N → Bool
is_init (msg_item x) = false
is_init (credit_item x) = false
is_init (tx_item x) = false
is_init (init_tx_item x) = true
is_init (remote_tx_item x) = false
is_init (order_item x) = false

-- The item was not written: pktsize is as before, and so is the buffer if the item is no init item.
abbrev pub IsRefused : {N : Type 0} → Item N → ℕ → Memory → Packet → Type 0
IsRefused i pktsize m p =
    (p.ok ≡ false) × (p.pkt_size ≡ pktsize) × ((is_init i ≡ true) ⊎ (p.contents ≡ m))

refuse-IsRefused :
    {N : Type 0} (raw : Raw) (sp : Spelling N) (i : Item N) (size stale pktsize : ℕ) (m : Memory)
    → IsRefused i pktsize m (refuse raw sp i size stale pktsize m)
unfolding refuse
refuse-IsRefused raw sp (msg_item x) size stale pktsize m = (refl, refl, inr refl)
refuse-IsRefused raw sp (credit_item x) size stale pktsize m = (refl, refl, inr refl)
refuse-IsRefused raw sp (tx_item x) size stale pktsize m = (refl, refl, inr refl)
refuse-IsRefused raw sp (init_tx_item x) size stale pktsize m = (refl, refl, inl refl)
refuse-IsRefused raw sp (remote_tx_item x) size stale pktsize m = (refl, refl, inr refl)
refuse-IsRefused raw sp (order_item x) size stale pktsize m = (refl, refl, inr refl)

serialise-refuse :
    {N : Type 0} (build : Build) (sp : Spelling N) (raw : Raw) (i : Item N) (stale pktsize : ℕ)
    (m : Memory)
    → ltb pktsize (serial_size sp i) ≡ true
    → serialise raw build sp i stale pktsize m
      ≡ some (refuse raw sp i (serial_size sp i) stale pktsize m)
unfolding serialise
serialise-refuse build sp raw i stale pktsize m h = if_true _ _ _ h

finished_size :
    {N : Type 0} (build : Build) (sp : Spelling N) (raw : Raw) (laws : IsRaw raw) (i : Item N)
    (size : ℕ) (w : Writer)
    → (finished i size w).pkt_size ≡ size
unfolding finished
finished_size build sp raw laws i size w = refl

-- For an item with values of its types, a currency of the table and a size below 2 ^ 32, serialise returns
-- true and sets pktsize to the item's size if the buffer is large enough. Otherwise it returns false and
-- leaves pktsize as it was, and the buffer too, but for an init item.
pub serialise-any_size :
    {N : Type 0} ⦃num : Number N⦄ (build : Build) (sp : Spelling N) (raw : Raw) (laws : IsRaw raw)
    (i : Item N) (stale pktsize : ℕ) (m : Memory)
    → IsProper build i
    → plain_size sp i < 4294967296
    → (p : Packet) × (serialise raw build sp i stale pktsize m ≡ some p)
      × (((plain_size sp i ≤ pktsize) × (p.ok ≡ true) × (p.pkt_size ≡ plain_size sp i))
          ⊎ ((pktsize < plain_size sp i) × IsRefused i pktsize m p))
serialise-any_size build sp raw laws i stale pktsize m ok lt =
    let whole = serial_size-plain_size sp i lt in
    let n = serial_size sp i in
    let (fs, e, size, fit) = plain_size-fields build sp i ok lt in
    elim (Bool-cases (ltb pktsize n)) [
      | inl h ↦ (
        refuse raw sp i n stale pktsize m,
        serialise-refuse build sp raw i stale pktsize m h,
        inr (ground (arith, whole), refuse-IsRefused raw sp i n stale pktsize m),
      )
      | inr h ↦ (
        finished i n (written build sp raw laws i n fs m),
        serialise-fields build sp raw laws i fs stale pktsize m e (ground arith),
        inl (
          ground (arith, whole),
          finished_ok build sp raw laws i n fs m fit (whole ∙ size),
          finished_size build sp raw laws i n _ ∙ whole,
        ),
      )
    ]
