-- ===== src/Wire/Items.antt =====
-- RSZeroReserveItems.h, RSZeroReserveItems.cpp, RSZRRemoteItems.h and RSZRRemoteItems.cpp: the items, the
-- values that each puts into its packet, and the size that it computes for it. An enumeration is sent as a
-- byte and read by a cast, so it is its number here. A number is sent as the text that boost makes.
use zero_reserve.Base.{
  ℕ, suc, ◌+◌, ◌-◌, ◌%◌, List, [], ◌∷◌, ◌++◌, Option, none, some, Text, length, if◌then◌else◌, ltb,
}
use zero_reserve.Base.Int.{ℤ, pos, negsuc}
use zero_reserve.Currency.{Build, symbol_of}
use zero_reserve.Money.{Credit}
use zero_reserve.Orders.{
  Order, OrderType, bid, ask, Purpose, fresh, cancel, filled, partly_filled, sell,
}
use zero_reserve.Wire.Raw.{Field, byte, word, text}

-- toStdString and fromFractionString of ZR_Number, which are boost's operators << and >>.
pub record Spelling (N : Type 0) : Type 0 where
  pub to_text : N → Text
  pub from_text : Text → N

-- RsZeroReserveMsgItem
pub record Msg : Type 0 where
  pub msg_type : ℕ
  pub msg : Text

-- RsZeroReserveTxItem
pub record Tx : Type 0 where
  pub tx_phase : ℕ
  pub tx_id : Text

-- RsZeroReserveInitTxItem, with what it reads of its payment.
pub record InitTx (N : Type 0) : Type 0 where
  pub tx : Tx
  pub role : ℕ
  pub amount : N
  pub currency : Text
  pub category : ℕ
  pub referrer : Text

-- RSZRRemoteTxItem
pub record RemoteTx : Type 0 where
  pub address : Text
  pub phase : ℕ
  pub direction : ℕ
  pub payer_id : Text
  pub payload : Text

-- RsZeroReserveOrderBookItem, with the parts of its order that are sent.
pub record OrderInfo (N : Type 0) : Type 0 where
  pub from_address : Text
  pub info_amount : N
  pub info_currency : ℕ
  pub info_type : ℕ
  pub info_price : N
  pub info_time : ℤ
  pub info_id : Text
  pub info_purpose : ℕ

-- RsZeroReserveItem
pub data Item (N : Type 0) : Type 0 where
  msg_item : Msg → Item N
  credit_item : Credit N → Item N
  tx_item : Tx → Item N
  init_tx_item : InitTx N → Item N
  remote_tx_item : RemoteTx → Item N
  order_item : OrderInfo N → Item N

-- RsZeroReserveItem::PROTOCOL_VERSION, headersOffset, CURRENCY_STRLEN and HOLLERITH_LEN_SPEC
abbrev pub protocol_version : ℕ
protocol_version = 0

abbrev pub headers_offset : ℕ
headers_offset = 8

abbrev pub currency_strlen : ℕ
currency_strlen = 3

abbrev pub hollerith_len_spec : ℕ
hollerith_len_spec = 4

-- RS_SERVICE_TYPE_ZERORESERVE_PLUGIN, 0xBEEF
abbrev pub service_type : ℕ
service_type = 48879

-- A qint64 as the uint64_t that is sent, and back.
unfoldable pub to_uint64 : ℤ → ℕ
to_uint64 (pos n) = n % 18446744073709551616
to_uint64 (negsuc n) = (18446744073709551616 - suc n % 18446744073709551616) % 18446744073709551616

unfoldable pub from_uint64 : ℕ → ℤ
from_uint64 n = if ltb n 9223372036854775808 then pos n else negsuc (18446744073709551616 - suc n)

unfoldable pub type_number : OrderType → ℕ
type_number bid = 0
type_number ask = 1

unfoldable pub purpose_number : Purpose → ℕ
purpose_number fresh = 0
purpose_number cancel = 1
purpose_number filled = 2
purpose_number partly_filled = 3
purpose_number sell = 4

-- What RsZeroReserveTxItem::serialise sets.
abbrev pub tx_fields : Tx → List Field
tx_fields t = byte t.tx_phase ∷ text t.tx_id ∷ []

-- What RsZeroReserveMsgItem::serialise sets.
abbrev pub msg_fields : Msg → List Field
msg_fields m = byte m.msg_type ∷ text m.msg ∷ []

-- What RSZRRemoteTxItem::serialise sets behind the address, which RSZRRemoteItem::serialise sets.
abbrev pub remote_tx_fields : RemoteTx → List Field
remote_tx_fields r = byte r.phase ∷ byte r.direction ∷ text r.payer_id ∷ text r.payload ∷ []

-- RsZeroReserveItem::serial_size
abbrev pub base_size : ℕ
base_size = headers_offset + 1

-- RsZeroReserveMsgItem::serial_size
abbrev pub msg_size : Msg → ℕ
msg_size m = base_size + 1 + (length m.msg + hollerith_len_spec)

-- RsZeroReserveTxItem::serial_size
abbrev pub tx_size : Tx → ℕ
tx_size t = base_size + 1 + length t.tx_id + hollerith_len_spec

-- RSZRRemoteItem::serial_size
abbrev pub remote_size : Text → ℕ
remote_size address = base_size + length address + hollerith_len_spec

-- RSZRRemoteTxItem::serial_size
abbrev pub remote_tx_size : RemoteTx → ℕ
remote_tx_size r =
    remote_size r.address
    + 1
    + 1
    + length r.payload
    + hollerith_len_spec
    + length r.payer_id
    + hollerith_len_spec

module _ {N : Type 0} where
  -- The constructor of RsZeroReserveOrderBookItem from an order.
  unfoldable pub order_info : Order N → OrderInfo N
  unfolding type_number purpose_number
  order_info o = record {
    from_address = o.order_id;
    info_amount = o.amount;
    info_currency = o.currency;
    info_type = type_number o.order_type;
    info_price = o.price;
    info_time = o.time_stamp;
    info_id = o.order_id;
    info_purpose = purpose_number o.purpose;
  }

  -- RsZeroReserveItem::RS_PKT_SUBTYPE
  abbrev pub subtype_of : Item N → ℕ
  subtype_of (order_item o) = 1
  subtype_of (tx_item t) = 2
  subtype_of (init_tx_item i) = 3
  subtype_of (credit_item c) = 4
  subtype_of (msg_item m) = 5
  subtype_of (remote_tx_item r) = 7

  abbrev pub init_tx_fields : Spelling N → InitTx N → List Field
  init_tx_fields sp i =
      byte i.role
      ∷ text (sp.to_text i.amount)
      ∷ text i.currency
      ∷ byte i.category
      ∷ text i.referrer
      ∷ []

  -- What RsZeroReserveOrderBookItem::serialise sets, with the symbol of its currency.
  abbrev pub order_fields : Spelling N → OrderInfo N → Text → List Field
  order_fields sp o symbol =
      text o.from_address
      ∷ text (sp.to_text o.info_amount)
      ∷ text symbol
      ∷ byte o.info_type
      ∷ text (sp.to_text o.info_price)
      ∷ word (to_uint64 o.info_time)
      ∷ text o.info_id
      ∷ byte o.info_purpose
      ∷ []

  -- What RsZeroReserveCreditItem::serialise sets.
  abbrev pub credit_fields : Spelling N → Credit N → List Field
  credit_fields sp c =
      text c.currency
      ∷ text (sp.to_text c.credit)
      ∷ text (sp.to_text c.our_credit)
      ∷ text (sp.to_text c.balance)
      ∷ []

  -- The values behind the protocol version, in the order in which the methods serialise set them;
  -- `none` where the order's currency has no symbol and a string is made of a null pointer.
  unfoldable pub fields : Build → Spelling N → Item N → Option (List Field)
  unfolding symbol_of to_uint64
  fields build sp (msg_item m) = some (msg_fields m)
  fields build sp (credit_item c) = some (credit_fields sp c)
  fields build sp (tx_item t) = some (tx_fields t)
  fields build sp (init_tx_item i) = some (tx_fields i.tx ++ init_tx_fields sp i)
  fields build sp (remote_tx_item r) = some (text r.address ∷ remote_tx_fields r)
  fields build sp (order_item o) = elim (symbol_of build o.info_currency) [
    | none ↦ none
    | some symbol ↦ some (order_fields sp o symbol)
  ]

  -- RsZeroReserveCreditItem::serial_size
  abbrev pub credit_size : Spelling N → Credit N → ℕ
  credit_size sp c =
      base_size
      + (currency_strlen + hollerith_len_spec)
      + (length (sp.to_text c.credit) + hollerith_len_spec)
      + (length (sp.to_text c.our_credit) + hollerith_len_spec)
      + (length (sp.to_text c.balance) + hollerith_len_spec)

  -- RsZeroReserveInitTxItem::serial_size
  abbrev pub init_tx_size : Spelling N → InitTx N → ℕ
  init_tx_size sp i =
      tx_size i.tx
      + 1
      + currency_strlen
      + hollerith_len_spec
      + length (sp.to_text i.amount)
      + hollerith_len_spec
      + 1
      + length i.referrer
      + hollerith_len_spec

  -- RsZeroReserveOrderBookItem::serial_size
  abbrev pub order_size : Spelling N → OrderInfo N → ℕ
  order_size sp o =
      remote_size o.from_address
      + (length (sp.to_text o.info_amount) + hollerith_len_spec)
      + (length (sp.to_text o.info_price) + hollerith_len_spec)
      + 1
      + (currency_strlen + hollerith_len_spec)
      + 8
      + (length o.info_id + hollerith_len_spec)
      + 1

  -- The sums of the methods serial_size.
  unfoldable pub plain_size : Spelling N → Item N → ℕ
  plain_size sp (msg_item m) = msg_size m
  plain_size sp (credit_item c) = credit_size sp c
  plain_size sp (tx_item t) = tx_size t
  plain_size sp (init_tx_item i) = init_tx_size sp i
  plain_size sp (remote_tx_item r) = remote_tx_size r
  plain_size sp (order_item o) = order_size sp o

  -- The methods serial_size, which return a uint32_t.
  unfoldable pub serial_size : Spelling N → Item N → ℕ
  unfolding plain_size
  serial_size sp i = plain_size sp i % 4294967296
