-- ===== src/Wire/Tests.antt =====
-- The wire at concrete values.
use zero_reserve.Base.{◌+◌, ◌≤◌, ◌<◌, ◌≡◌, refl, true, List, some, codes, arith, ◌⊎◌, All}
use zero_reserve.Base.Int.{ℤ, pos, negsuc}
use zero_reserve.Currency.{testnet, invalid}
use zero_reserve.Number.Whole.{whole}
use zero_reserve.Wire.Raw.{Memory, Field, size_of_all, Fits}
use zero_reserve.Wire.Items.{
  Item, order_item, fields, plain_size, subtype_of, service_type, protocol_version,
}
use zero_reserve.Wire.Serialiser.{Packet, serialise, deserialise, read_byte}
use zero_reserve.Wire.Fields.{attempt}
use zero_reserve.Wire.Sizes.{IsProper, plain_size-fields}
use zero_reserve.Wire.RoundTrip.{deserialise-serialise}
use zero_reserve.Wire.Rejects.{deserialise-checks}
use zero_reserve.Wire.Refusal.{serialise-any_size, IsRefused}
use zero_reserve.Wire.Signs.{write_number, signs, signs_read}
use zero_reserve.Wire.Cells.{cells, cells-IsRaw}

abbrev empty_page : Memory
empty_page i = 0

abbrev ask_item : Item ℤ
ask_item = order_item (record {
  from_address = codes "a1";
  info_amount = pos 3;
  info_currency = 1;
  info_type = 1;
  info_price = pos 7;
  info_time = negsuc 4;
  info_id = codes "a1";
  info_purpose = 0;
})

ask_item-IsProper : IsProper testnet ask_item
unfolding invalid
ask_item-IsProper = (omega arith, omega arith, omega arith, omega arith)

ask_size : plain_size signs ask_item ≡ 50
unfolding plain_size write_number
ask_size = refl

deserialise-serialise_example :
    (p : Packet) × (serialise cells testnet signs ask_item 0 60 empty_page ≡ some p)
    × (p.ok ≡ true)
    × (deserialise testnet signs cells p.contents p.pkt_size 9 ≡ some ask_item)
deserialise-serialise_example =
    deserialise-serialise testnet signs cells cells-IsRaw signs_read ask_item 0 60 9 empty_page
      ask_item-IsProper (omega (arith, ask_size)) (omega (arith, ask_size))

deserialise-checks_example :
    (cells.version (cells.item_id deserialise-serialise_example.0.contents) ≡ cells.version_service)
    × (cells.service (cells.item_id deserialise-serialise_example.0.contents) ≡ service_type)
    × ((attempt 9 (read_byte cells deserialise-serialise_example.0.contents) 8).0
        ≡ some protocol_version)
    × (cells.item_size deserialise-serialise_example.0.contents
        ≤ deserialise-serialise_example.0.pkt_size)
    × (subtype_of ask_item ≡ cells.subtype (cells.item_id deserialise-serialise_example.0.contents))
deserialise-checks_example =
    deserialise-checks testnet signs cells deserialise-serialise_example.0.contents
      deserialise-serialise_example.0.pkt_size 9 ask_item deserialise-serialise_example.3

plain_size-fields_example :
    (fs : List Field) × (fields testnet signs ask_item ≡ some fs)
    × (plain_size signs ask_item ≡ 9 + size_of_all fs)
    × All Fits fs
plain_size-fields_example =
    plain_size-fields testnet signs ask_item ask_item-IsProper (omega (arith, ask_size))

serialise-any_size_example :
    (p : Packet) × (serialise cells testnet signs ask_item 0 49 empty_page ≡ some p)
    × (((plain_size signs ask_item ≤ 49) × (p.ok ≡ true) × (p.pkt_size ≡ plain_size signs ask_item))
        ⊎ ((49 < plain_size signs ask_item) × IsRefused ask_item 49 empty_page p))
serialise-any_size_example =
    serialise-any_size testnet signs cells cells-IsRaw ask_item 0 49 empty_page ask_item-IsProper
      (omega (arith, ask_size))
