-- ===== src/Currency/Tests.antt =====
-- Currencies looked up by their texts.
use zero_reserve.Base.{codes, some, ◌≡◌, get_elem?, arith}
use zero_reserve.Currency.{
  testnet, main, symbols, names, enumerators, invalid, get_currency_by_symbol, get_currency_by_name,
  symbol_of,
}
use zero_reserve.Currency.Literals.{name_literals}
use zero_reserve.Currency.Lookup.{Scans, get_currency_by_symbol-Scans, get_currency_by_name-Scans}
use zero_reserve.Currency.Tables.{
  symbol_round_trip, testnet_name_round_trip, main_name_displaced, displaced,
}
use zero_reserve.Base.{Text}

tbc_found :
    Scans
      (invalid testnet)
      0
      (symbols testnet)
      (codes "TBC")
      (get_currency_by_symbol testnet (codes "TBC"))
tbc_found = get_currency_by_symbol-Scans testnet (codes "TBC")

named_euro :
    Scans (invalid main) 0 (names main) (codes "Euro") (get_currency_by_name main (codes "Euro"))
named_euro = get_currency_by_name-Scans main (codes "Euro")

seventh_symbol :
    (s : Text) × (symbol_of main 7 ≡ some s)
    × (get_elem? (enumerators main) 7 ≡ some s)
    × (get_currency_by_symbol main s ≡ 7)
unfolding invalid
seventh_symbol = symbol_round_trip main 7 (omega arith)

third_name :
    (s : Text) × (get_elem? (names testnet) 2 ≡ some s) × (get_currency_by_name testnet s ≡ 2)
unfolding invalid
third_name = testnet_name_round_trip 2 (omega arith)

second_comma :
    (s : Text) × (get_elem? name_literals 80 ≡ some s)
    × (get_currency_by_name main s ≡ displaced 80)
unfolding invalid
second_comma = main_name_displaced 80 (omega arith)
