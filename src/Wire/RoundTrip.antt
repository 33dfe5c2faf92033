-- ===== src/Wire/RoundTrip.antt =====
-- RSZeroReserveItems.cpp, RSZRRemoteItems.cpp: deserialise on what serialise wrote.
use zero_reserve.Base.{
  ℕ, ◌+◌, ◌≤◌, ◌<◌, ◌≡◌, refl, Bool, true, false, List, ◌∷◌, some, arith, ◌==◌, ◌&&◌, not, ltb,
  ◌||◌, ap, All, ◌∙◌, if◌then◌else◌,
}
use zero_reserve.Currency.{Build}
use zero_reserve.Number.{Number}
use zero_reserve.Wire.Raw.{Memory, Field, byte, size_of_all, Fits, Raw, IsRaw}
use zero_reserve.Wire.Fields.{Writer, put_fields}
use zero_reserve.Wire.Items.{
  Item, msg_item, credit_item, tx_item, init_tx_item, remote_tx_item, order_item, Spelling, fields,
  plain_size, serial_size, subtype_of, service_type, headers_offset,
}
use zero_reserve.Wire.Serialiser.{
  Packet, begin_item, serialise, read_item, deserialise, checks_offset, finished, pack,
}
use zero_reserve.Wire.Sizes.{IsProper, plain_size-fields}
use zero_reserve.Wire.Codec.{StandAll, Puts, put_fields-Puts}
use zero_reserve.Wire.Readers.{IsHeaded, received, read_item-Ends}

pub if_true : {A : Type 0} (b : Bool) (x y : A) → b ≡ true → (if b then x else y) ≡ x
if_true b x y e = rw e refl

pub if_false : {A : Type 0} (b : Bool) (x y : A) → b ≡ false → (if b then x else y) ≡ y
if_false b x y e = rw e refl

enough : (a b : ℕ) → b ≤ a → ltb a b ≡ false
enough a b le = ground arith

ends_well :
    (good checks : Bool) (end size : ℕ)
    → good ≡ true
    → end ≡ size
    → (good && (not checks || (end == size))) ≡ true
ends_well good checks end size g e = ground arith

accepted :
    (raw : Raw) (m : Memory) (pktsize t : ℕ)
    → IsHeaded raw m pktsize t
    → ((raw.version (raw.item_id m) == raw.version_service)
        && (raw.service (raw.item_id m) == service_type))
      ≡ true
accepted raw m pktsize t h = rw (h.is_version, h.is_service) (ground arith)

module _ {N : Type 0} ⦃num : Number N⦄ (build : Build) (sp : Spelling N) (raw : Raw)
    (laws : IsRaw raw) where
  -- The packet has the item's header, and the version and the item's values behind it.
  record IsPacket (i : Item N) (fs : List Field) (m : Memory) : Type 0 where
    headed : (pktsize : ℕ) → raw.item_size m ≤ pktsize → IsHeaded raw m pktsize (subtype_of i)
    sized : raw.item_size m ≡ 9 + size_of_all fs
    filled : StandAll raw laws m 8 (byte 0 ∷ fs)

  deserialise-IsPacket :
      (i : Item N) (fs : List Field) (m : Memory) (pktsize unset : ℕ)
      → ((x : N) → sp.from_text (sp.to_text x) ≡ x)
      → IsProper build i
      → fields build sp i ≡ some fs
      → IsPacket i fs m
      → raw.item_size m ≤ pktsize
      → deserialise build sp raw m pktsize unset ≡ some (received i)
  unfolding deserialise
  deserialise-IsPacket i fs m pktsize unset spelled ok e p le =
      let h = p.headed pktsize le in
      if_true _ _ _ (accepted raw m pktsize (subtype_of i) h)
      ∙ ap (λ t. (read_item build sp raw m pktsize unset t headers_offset).0) h.is_subtype
      ∙ (read_item-Ends build sp raw laws m pktsize unset i fs ok h spelled e).run 8 p.filled
          (omega (arith, p.sized))

  -- What serialise has in its buffer at the end.
  abbrev pub written : Item N → ℕ → List Field → Memory → Writer
  written i size fs m = put_fields raw size fs (begin_item raw size (subtype_of i) m)

  subtype_of_byte : (i : Item N) → subtype_of i < 256
  subtype_of_byte (msg_item x) = omega arith
  subtype_of_byte (credit_item x) = omega arith
  subtype_of_byte (tx_item x) = omega arith
  subtype_of_byte (init_tx_item x) = omega arith
  subtype_of_byte (remote_tx_item x) = omega arith
  subtype_of_byte (order_item x) = omega arith

  -- The header, the version and the values.
  begin_item-Puts :
      (i : Item N) (size : ℕ) (fs : List Field) (m : Memory)
      → All Fits fs
      → size ≡ 9 + size_of_all fs
      → Puts raw laws
          (byte 0 ∷ fs)
          (record {
            good =
                (raw.set_header size
                  (raw.packet_id raw.version_service service_type (subtype_of i))
                  m).0;
            offset = 8;
            data_now =
                (raw.set_header size
                  (raw.packet_id raw.version_service service_type (subtype_of i))
                  m).1;
          })
          (written i size fs m)
  unfolding begin_item put_fields
  begin_item-Puts i size fs m fit e =
      put_fields-Puts raw laws size (byte 0 ∷ fs) _ (laws.set_header_done size _ m (omega arith))
        (omega arith, fit) (omega arith)

  written-IsPacket :
      (i : Item N) (size : ℕ) (fs : List Field) (m : Memory)
      → All Fits fs
      → size ≡ 9 + size_of_all fs
      → size < 4294967296
      → IsPacket i fs (written i size fs m).data_now
  written-IsPacket i size fs m fit e lt =
      let w = begin_item-Puts i size fs m fit e in
      let m' = (written i size fs m).data_now in
      let id = laws.set_header-item_id size _ m m' (omega arith) lt w.before in
      let size' = laws.set_header-item_size size _ m m' (omega arith) lt w.before in
      let v = laws.version_service_byte in
      let t = subtype_of_byte i in
      record {
        headed = λ pktsize le. record {
          is_version =
              ap raw.version id ∙ laws.packet_id-version _ service_type _ v (omega arith) t;
          is_service =
              ap raw.service id ∙ laws.packet_id-service _ service_type _ v (omega arith) t;
          is_subtype =
              ap raw.subtype id ∙ laws.packet_id-subtype _ service_type _ v (omega arith) t;
          is_whole = le;
        };
        sized = size' ∙ e;
        filled = w.stand;
      }

  pub serialise-fields :
      (i : Item N) (fs : List Field) (stale pktsize : ℕ) (m : Memory)
      → fields build sp i ≡ some fs
      → serial_size sp i ≤ pktsize
      → serialise raw build sp i stale pktsize m
        ≡ some (finished i (serial_size sp i) (written i (serial_size sp i) fs m))
  unfolding serialise
  serialise-fields i fs stale pktsize m e le =
      if_false _ _ _ (enough pktsize (serial_size sp i) le) ∙ ap (pack raw i (serial_size sp i) m) e

  pub finished_ok :
      (i : Item N) (size : ℕ) (fs : List Field) (m : Memory)
      → All Fits fs
      → size ≡ 9 + size_of_all fs
      → (finished i size (written i size fs m)).ok ≡ true
  unfolding finished
  finished_ok i size fs m fit e =
      let w = begin_item-Puts i size fs m fit e in
      ends_well _ (checks_offset i) _ size w.is_good (omega (arith, w.end_offset))

  deserialised :
      (i : Item N) (size : ℕ) (fs : List Field) (m : Memory) (unset : ℕ)
      → ((x : N) → sp.from_text (sp.to_text x) ≡ x)
      → IsProper build i
      → fields build sp i ≡ some fs
      → IsPacket i fs (written i size fs m).data_now
      → size ≡ 9 + size_of_all fs
      → deserialise build sp raw
          (finished i size (written i size fs m)).contents
          (finished i size (written i size fs m)).pkt_size
          unset
        ≡ some (received i)
  unfolding finished
  deserialised i size fs m unset spelled ok e q same =
      deserialise-IsPacket i fs _ size unset spelled ok e q (omega (arith, q.sized))

pub serial_size-plain_size :
    {N : Type 0} (sp : Spelling N) (i : Item N)
    → plain_size sp i < 4294967296
    → serial_size sp i ≡ plain_size sp i
unfolding serial_size
serial_size-plain_size sp i lt = omega arith

-- For functions of RetroShare that behave as stated, number texts that are read back, an item with values
-- of its types and a currency of the table, whose size is below 2 ^ 32, and a buffer of at least that
-- size: serialise returns true, and deserialise makes the same item of the packet, where of an account
-- what the friend gives and what the user gives are exchanged.
pub deserialise-serialise :
    {N : Type 0} ⦃num : Number N⦄ (build : Build) (sp : Spelling N) (raw : Raw) (laws : IsRaw raw)
    → ((x : N) → sp.from_text (sp.to_text x) ≡ x)
    → (i : Item N) (stale pktsize unset : ℕ) (m : Memory) → IsProper build i
    → plain_size sp i < 4294967296
    → plain_size sp i ≤ pktsize
    → (p : Packet) × (serialise raw build sp i stale pktsize m ≡ some p)
      × (p.ok ≡ true)
      × (deserialise build sp raw p.contents p.pkt_size unset ≡ some (received i))
deserialise-serialise build sp raw laws spelled i stale pktsize unset m ok lt le =
    let (fs, e, size, fit) = plain_size-fields build sp i ok lt in
    let n = serial_size sp i in
    let whole = serial_size-plain_size sp i lt in
    let same = whole ∙ size in
    let q = written-IsPacket build sp raw laws i n fs m fit same (omega (arith, whole)) in
    (
      finished i n (written build sp raw laws i n fs m),
      serialise-fields build sp raw laws i fs stale pktsize m e (omega (arith, whole)),
      finished_ok build sp raw laws i n fs m fit same,
      deserialised build sp raw laws i n fs m unset spelled ok e q same,
    )
