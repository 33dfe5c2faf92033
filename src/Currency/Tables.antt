-- ===== src/Currency/Tables.antt =====
-- The three tables of Currency.cpp and Currency.h against one another, entry by entry.
use zero_reserve.Base.{
  ℕ, ◌-◌, ◌<◌, ◌≡◌, refl, Bool, true, false, ◌&&◌, Option, none, some, Text, text_eq, text_eq_sound,
  arith, ltb, ◌==◌, if◌then◌else◌, each_entry, each_entry_at, get_elem?,
}
use zero_reserve.Currency.Literals.{name_literals}
use zero_reserve.Currency.{
  Build, testnet, main, names, enumerators, invalid, get_currency_by_symbol, get_currency_by_name,
  symbol_of,
}

-- The texts at one index are the same, and the lookup leads back to the index.
abbrev agrees : Option Text → Option Text → (Text → ℕ) → ℕ → Bool
agrees (some s) (some t) find i = text_eq s t && find s == i
agrees _ _ find i = false

agrees_sound :
    (o p : Option Text) (find : Text → ℕ) (i : ℕ)
    → agrees o p find i ≡ true
    → (s : Text) × (o ≡ some s) × (p ≡ some s) × (find s ≡ i)
agrees_sound none p find i h = cc
agrees_sound (some s) none find i h = cc
agrees_sound (some s) (some t) find i h = (s, refl, ground (arith, text_eq_sound s t), ground arith)

symbol_test : Build → ℕ → Bool
symbol_test b i = agrees (symbol_of b i) (get_elem? (enumerators b) i) (get_currency_by_symbol b) i

symbol_table : (b : Build) → each_entry (symbol_test b) (invalid b) ≡ true
unfolding each_entry symbol_test symbol_of enumerators get_currency_by_symbol text_eq
symbol_table testnet = refl
symbol_table main = refl

-- In both builds, for every currency before INVALID: the symbol table has an entry, it is spelled like
-- the enumerator of that number, and `getCurrencyBySymbol` of it is the currency again.
pub symbol_round_trip :
    (b : Build) (i : ℕ)
    → i < invalid b
    → (s : Text) × (symbol_of b i ≡ some s)
      × (get_elem? (enumerators b) i ≡ some s)
      × (get_currency_by_symbol b s ≡ i)
unfolding symbol_test
symbol_round_trip b i h =
    agrees_sound _ _ _ i (each_entry_at (symbol_test b) (invalid b) (symbol_table b) i h)

name_test : ℕ → Bool
name_test i =
    agrees (get_elem? (names testnet) i) (get_elem? (names testnet) i)
      (get_currency_by_name testnet) i

name_table : each_entry name_test (invalid testnet) ≡ true
unfolding each_entry name_test names invalid get_currency_by_name text_eq
name_table = refl

-- With ZR_TESTNET, for every currency before INVALID: the name table has an entry, and
-- `getCurrencyByName` of it is the currency again.
pub testnet_name_round_trip :
    (i : ℕ)
    → i < invalid testnet
    → (s : Text) × (get_elem? (names testnet) i ≡ some s) × (get_currency_by_name testnet s ≡ i)
unfolding name_test
testnet_name_round_trip i h =
    let (s, p, _, r) =
      agrees_sound _ _ _ i (each_entry_at name_test (invalid testnet) name_table i h) in
    (s, p, r)

-- Where the lookup finds the `i`-th literal of the name table without ZR_TESTNET: two pairs of
-- literals have run together, at 74 and at 134, and 169 is INVALID.
abbrev pub displaced : ℕ → ℕ
displaced i =
    if ltb i 74
    then i
    else if ltb i 76
    then 169
    else if ltb i 134
    then i - 1
    else if ltb i 136
    then 169
    else i - 2

literal_test : ℕ → Bool
literal_test i = elim (get_elem? name_literals i) [
  | none ↦ false
  | some s ↦ get_currency_by_name main s == displaced i
]

literal_table : each_entry literal_test 169 ≡ true
unfolding each_entry literal_test get_currency_by_name text_eq
literal_table = refl

literal_test_sound :
    (o : Option Text) (i : ℕ)
    → (elim o [ none ↦ false | some s ↦ get_currency_by_name main s == displaced i ]) ≡ true
    → (s : Text) × (o ≡ some s) × (get_currency_by_name main s ≡ displaced i)
literal_test_sound none i h = cc
literal_test_sound (some s) i h = (s, refl, ground arith)

-- Without ZR_TESTNET, `getCurrencyByName` of the name written for currency `i` is `i` only below 74,
-- Kilowatt Hours; it is INVALID for the four names at 74, 75, 134 and 135, the currency before for
-- those from 76 to 133, and the currency two before from 136 on.
pub main_name_displaced :
    (i : ℕ)
    → i < invalid main
    → (s : Text) × (get_elem? name_literals i ≡ some s)
      × (get_currency_by_name main s ≡ displaced i)
unfolding literal_test invalid
main_name_displaced i h =
    literal_test_sound (get_elem? name_literals i) i
      (each_entry_at literal_test 169 literal_table i h)
