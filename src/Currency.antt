-- ===== src/Currency.antt =====
-- Currency.cpp and Currency.h. A `CurrencySymbols` value is its number in the enumeration, and
-- INVALID is the number after the last currency. `Build` stands for the macro ZR_TESTNET.
mod Symbols
mod Names
mod Enumerators
mod Literals
pub mod Lookup
pub mod Tables
mod Tests
use zero_reserve.Base.{
  ℕ, suc, Bool, List, [], ◌∷◌, Option, Text, text_eq, if◌then◌else◌, length, get_elem?,
}
use Symbols.{testnet_symbols, main_symbols}
use Names.{testnet_names, main_names}
use Enumerators.{testnet_enumerators, main_enumerators}

pub data Build : Type 0 where
  testnet main : Build

unfoldable pub symbols : Build → List Text
symbols testnet = testnet_symbols
symbols main = main_symbols

unfoldable pub names : Build → List Text
names testnet = testnet_names
names main = main_names

unfoldable pub enumerators : Build → List Text
enumerators testnet = testnet_enumerators
enumerators main = main_enumerators

-- Currency::INVALID
unfoldable pub invalid : Build → ℕ
unfolding enumerators
invalid b = length (enumerators b)

-- The `while` loop of both lookups: the index of the first entry that equals `s`, counted from
-- `index`, and `fail` where the table ends.
unfoldable pub index_from : ℕ → ℕ → List Text → Text → ℕ
index_from fail index [] s = fail
index_from fail index (t ∷ ts) s =
    let rest = index_from fail (suc index) ts s in if text_eq s t then index else rest

unfoldable pub get_currency_by_symbol : Build → Text → ℕ
unfolding index_from invalid symbols
get_currency_by_symbol b s = index_from (invalid b) 0 (symbols b) s

unfoldable pub get_currency_by_name : Build → Text → ℕ
unfolding index_from invalid names
get_currency_by_name b s = index_from (invalid b) 0 (names b) s

-- `Currency::currencySymbols[ sym ]`: at INVALID the terminating null pointer, here `none`.
unfoldable pub symbol_of : Build → ℕ → Option Text
unfolding symbols
symbol_of b i = get_elem? (symbols b) i
