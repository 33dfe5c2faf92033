-- ===== src/Wire/Serialiser.antt =====
-- RSZeroReserveItems.cpp, RSZRRemoteItems.cpp: the methods serialise, the constructors from data, and
-- RsZeroReserveSerialiser::deserialise.
use zero_reserve.Base.{
  ℕ, Bool, true, false, List, [], Option, none, some, Text, ◌==◌, ◌&&◌, not, ltb, ◌||◌,
  if◌then◌else◌,
}
use zero_reserve.Currency.{Build, get_currency_by_symbol}
use zero_reserve.Money.{new_credit}
use zero_reserve.Number.{Number}
use zero_reserve.Wire.Raw.{Memory, Raw, Field, byte}
use zero_reserve.Wire.Fields.{
  Writer, put_field, put_fields, Reading, pure, attempt, require, at_end, ◌>>=◌,
}
use zero_reserve.Wire.Items.{
  Item, msg_item, credit_item, tx_item, init_tx_item, remote_tx_item, order_item, Tx, Spelling,
  fields, serial_size, init_tx_fields, subtype_of, protocol_version, headers_offset, service_type,
  from_uint64,
}

-- What serialise returns, with `pktsize` and the data after it.
pub record Packet : Type 0 where
  pub ok : Bool
  pub pkt_size : ℕ
  pub contents : Memory

-- RsZeroReserveItem::serialise
unfoldable pub begin_item : Raw → ℕ → ℕ → Memory → Writer
unfolding put_field
begin_item raw size t m =
    let h = raw.set_header size (raw.packet_id raw.version_service service_type t) m in
    put_field raw size (byte protocol_version)
      (record { good = h.0; offset = headers_offset; data_now = h.1 })

module _ {N : Type 0} where
  -- The methods that end with a check of m_Offset against the size: not those of the transaction
  -- items.
  abbrev pub checks_offset : Item N → Bool
  checks_offset (msg_item m) = true
  checks_offset (credit_item c) = true
  checks_offset (tx_item t) = false
  checks_offset (init_tx_item i) = true
  checks_offset (remote_tx_item r) = false
  checks_offset (order_item o) = true

  -- What serialise does in a packet that is too small. RsZeroReserveInitTxItem::serialise goes on where
  -- the call of RsZeroReserveTxItem::serialise returned, at the m_Offset from before the call.
  unfoldable pub refuse : Raw → Spelling N → Item N → ℕ → ℕ → ℕ → Memory → Packet
  unfolding put_fields
  refuse raw sp (init_tx_item i) size stale pktsize m =
      let w =
        put_fields raw size (init_tx_fields sp i)
          (record { good = false; offset = stale; data_now = m }) in
      record { ok = false; pkt_size = pktsize; contents = w.data_now }
  refuse raw sp (msg_item i) size stale pktsize m = record {
    ok = false;
    pkt_size = pktsize;
    contents = m;
  }
  refuse raw sp (credit_item i) size stale pktsize m = record {
    ok = false;
    pkt_size = pktsize;
    contents = m;
  }
  refuse raw sp (tx_item i) size stale pktsize m = record {
    ok = false;
    pkt_size = pktsize;
    contents = m;
  }
  refuse raw sp (remote_tx_item i) size stale pktsize m = record {
    ok = false;
    pkt_size = pktsize;
    contents = m;
  }
  refuse raw sp (order_item i) size stale pktsize m = record {
    ok = false;
    pkt_size = pktsize;
    contents = m;
  }

  -- The end of serialise.
  unfoldable pub finished : Item N → ℕ → Writer → Packet
  finished i size w = record {
    ok = w.good && (not (checks_offset i) || (w.offset == size));
    pkt_size = size;
    contents = w.data_now;
  }

  -- serialise in a packet that is large enough; `none` where a string is made of a null pointer.
  unfoldable pub pack : Raw → Item N → ℕ → Memory → Option (List Field) → Option Packet
  unfolding begin_item put_fields finished
  pack raw i size m none = none
  pack raw i size m (some fs) =
      some (finished i size (put_fields raw size fs (begin_item raw size (subtype_of i) m)))

  -- The methods serialise, with the m_Offset from before the call.
  unfoldable pub serialise : Raw → Build → Spelling N → Item N → ℕ → ℕ → Memory → Option Packet
  unfolding refuse serial_size fields pack
  serialise raw build sp i stale pktsize m =
      let size = serial_size sp i in
      if ltb pktsize size
      then some (refuse raw sp i size stale pktsize m)
      else pack raw i size m (fields build sp i)

-- The value, or an exception where there is none.
unfoldable pub or_throw : {V : Type 0} → Option V → Reading V
or_throw v o = (v, o)

module _ (raw : Raw) (m : Memory) where
  -- The readers at the size that the header gives.
  abbrev pub read_byte : Reading ℕ
  read_byte o = raw.get_byte m (raw.item_size m) o

  abbrev pub read_word : Reading ℕ
  read_word o = raw.get_word m (raw.item_size m) o

  abbrev pub read_text : Reading Text
  read_text o = raw.get_text m (raw.item_size m) o

  -- The constructor of RsZeroReserveItem, with what an unset variable holds.
  unfoldable pub check_version : {V : Type 0} → ℕ → Reading V → Reading V
  check_version unset p = do v ← attempt unset read_byte; require (v == protocol_version) p

  -- What the constructor of RsZeroReserveTxItem reads.
  unfoldable pub read_tx : Reading Tx
  unfolding ◌>>=◌ pure
  read_tx = do phase ← read_byte; id ← read_text; pure (record { tx_phase = phase; tx_id = id })

module _ (raw : Raw) (m : Memory) (pktsize : ℕ) where
  -- The checks of the type and of the size.
  unfoldable pub check_packet : {V : Type 0} → ℕ → Reading V → Reading V
  check_packet t p =
      require
        ((raw.version (raw.item_id m) == raw.version_service)
          && (raw.service (raw.item_id m) == service_type)
          && (raw.subtype (raw.item_id m) == t))
        (require (not (ltb pktsize (raw.item_size m))) p)

module _ {N : Type 0} ⦃num : Number N⦄ (build : Build) (sp : Spelling N) (raw : Raw) (m : Memory)
    (pktsize unset : ℕ) where
  -- RsZeroReserveMsgItem
  unfoldable pub read_msg : Reading (Item N)
  unfolding check_version check_packet ◌>>=◌ at_end
  read_msg = check_version raw m unset (
      check_packet raw m pktsize 5 (do
        t ← read_byte raw m
        s ← read_text raw m
        at_end (raw.item_size m) (msg_item (record { msg_type = t; msg = s }))))

  -- RsZeroReserveCreditItem. What is sent as the sender's credit is our credit here.
  unfoldable pub read_credit : Reading (Item N)
  unfolding check_version check_packet ◌>>=◌ at_end or_throw new_credit
  read_credit = check_version raw m unset (
      check_packet raw m pktsize 4 (do
        currency ← read_text raw m
        c ← or_throw (new_credit build [] currency)
        ours ← read_text raw m
        theirs ← read_text raw m
        balance ← read_text raw m
        at_end (raw.item_size m) (
            credit_item (record c {
              our_credit = sp.from_text ours;
              credit = sp.from_text theirs;
              balance = sp.from_text balance;
            }))))

  -- RsZeroReserveTxItem
  unfoldable pub read_tx_item : Reading (Item N)
  unfolding check_version check_packet read_tx ◌>>=◌ pure
  read_tx_item =
      check_version raw m unset
        (check_packet raw m pktsize 2 (do t ← read_tx raw m; pure (tx_item t)))

  -- RsZeroReserveInitTxItem, whose payment throws where the currency is unknown.
  unfoldable pub read_init_tx : Reading (Item N)
  unfolding check_version check_packet read_tx or_throw new_credit ◌>>=◌ pure
  read_init_tx = check_version raw m unset (do
    t ← read_tx raw m
    check_packet raw m pktsize 3 (do
      role ← read_byte raw m
      amount ← read_text raw m
      currency ← read_text raw m
      category ← read_byte raw m
      referrer ← read_text raw m
      c ← or_throw (new_credit {N = N} build [] currency)
      pure (
          init_tx_item (record {
            tx = t;
            role = role;
            amount = sp.from_text amount;
            currency = c.currency;
            category = category;
            referrer = referrer;
          }))))

  -- RSZRRemoteTxItem, and RSZRRemoteItem: a failure to read is not looked at.
  unfoldable pub read_remote_tx : Reading (Item N)
  unfolding check_version ◌>>=◌ pure attempt
  read_remote_tx = check_version raw m unset (do
    address ← attempt [] (read_text raw m)
    require
        ((raw.version (raw.item_id m) == raw.version_service)
          && (raw.service (raw.item_id m) == service_type))
        (require (not (ltb pktsize (raw.item_size m))) (do
          phase ← attempt unset (read_byte raw m)
          direction ← attempt unset (read_byte raw m)
          payer ← attempt [] (read_text raw m)
          payload ← attempt [] (read_text raw m)
          pure (
              remote_tx_item (record {
                address = address;
                phase = phase;
                direction = direction;
                payer_id = payer;
                payload = payload;
              })))))

  -- RsZeroReserveOrderBookItem
  unfoldable pub read_order : Reading (Item N)
  unfolding check_version check_packet attempt ◌>>=◌ at_end get_currency_by_symbol from_uint64
  read_order = check_version raw m unset (do
    address ← attempt [] (read_text raw m)
    check_packet raw m pktsize 1 (do
      amount ← read_text raw m
      currency ← read_text raw m
      order_type ← read_byte raw m
      price ← read_text raw m
      time ← read_word raw m
      order_id ← read_text raw m
      order_purpose ← read_byte raw m
      at_end (raw.item_size m) (
          order_item (record {
            from_address = address;
            info_amount = sp.from_text amount;
            info_currency = get_currency_by_symbol build currency;
            info_type = order_type;
            info_price = sp.from_text price;
            info_time = from_uint64 time;
            info_id = order_id;
            info_purpose = order_purpose;
          }))))

  -- The constructor that goes with a subtype.
  unfoldable pub read_item : ℕ → Reading (Item N)
  unfolding read_order read_tx_item read_init_tx read_credit read_msg read_remote_tx
  read_item t =
      if t == 1
      then read_order
      else if t == 2
      then read_tx_item
      else if t == 3
      then read_init_tx
      else if t == 4
      then read_credit
      else if t == 5
      then read_msg
      else if t == 7
      then read_remote_tx
      else or_throw none

  -- RsZeroReserveSerialiser::deserialise; `none` is the null pointer.
  unfoldable pub deserialise : Option (Item N)
  unfolding read_item
  deserialise =
      if (raw.version (raw.item_id m) == raw.version_service)
        && (raw.service (raw.item_id m) == service_type)
      then (read_item (raw.subtype (raw.item_id m)) headers_offset).0
      else none
