-- ===== src/Wire/Sizes.antt =====
-- RSZeroReserveItems.cpp, RSZRRemoteItems.cpp: the methods serial_size against what the methods
-- serialise write.
use zero_reserve.Base.{
  ℕ, zero, suc, subst, ◌+◌, ◌<◌, ◌≡◌, ◌≢◌, refl, Bool, true, List, [], ◌∷◌, Option, none, some,
  Text, length, All, arith, ◌==◌, inl, inr, get_elem?, each_entry, each_entry_at,
}
use zero_reserve.Base.Int.{ℤ, pos, negsuc}
use zero_reserve.Currency.{
  Build, testnet, main, symbols, symbol_of, invalid, get_currency_by_symbol,
}
use zero_reserve.Currency.Lookup.{get_currency_by_symbol-Scans}
use zero_reserve.Currency.Tables.{symbol_round_trip}
use zero_reserve.Wire.Raw.{Field, size_of_all, Fits}
use zero_reserve.Wire.Items.{
  Item, msg_item, credit_item, tx_item, init_tx_item, remote_tx_item, order_item, Spelling, fields,
  order_fields, plain_size, to_uint64,
}

-- A time that a qint64 can hold.
abbrev pub IsInt64 : ℤ → Type 0
IsInt64 (pos n) = n < 9223372036854775808
IsInt64 (negsuc n) = n < 9223372036854775808

abbrev pub IsKnown : Build → Text → Type 0
IsKnown build s = get_currency_by_symbol build s ≢ invalid build

-- An item as the program makes it: its enumerations fit a byte, its time 64 bits, and its currency is
-- in the table.
abbrev pub IsProper : {N : Type 0} → Build → Item N → Type 0
IsProper build (msg_item m) = m.msg_type < 256
IsProper build (credit_item c) = IsKnown build c.currency
IsProper build (tx_item t) = t.tx_phase < 256
IsProper build (init_tx_item i) =
    (i.tx.tx_phase < 256) × (i.role < 256) × (i.category < 256) × IsKnown build i.currency
IsProper build (remote_tx_item r) = (r.phase < 256) × (r.direction < 256)
IsProper build (order_item o) =
    (o.info_currency < invalid build)
    × (o.info_type < 256)
    × (o.info_purpose < 256)
    × IsInt64 o.info_time

has_three : Option Text → Bool
has_three none = true
has_three (some s) = length s == 3

has_three_sound : (s : Text) → has_three (some s) ≡ true → length s ≡ 3
unfolding has_three
has_three_sound s h = ground arith

symbols_table :
    (build : Build) → each_entry (λ i. has_three (symbol_of build i)) (invalid build) ≡ true
unfolding each_entry has_three symbol_of invalid
symbols_table testnet = refl
symbols_table main = refl

symbols_size : (build : Build) → length (symbols build) ≡ invalid build
unfolding symbols invalid
symbols_size testnet = refl
symbols_size main = refl

-- Every symbol has three characters.
pub symbol_of-length :
    (build : Build) (i : ℕ) (s : Text)
    → i < invalid build
    → symbol_of build i ≡ some s
    → length s ≡ 3
symbol_of-length build i s lt e = has_three_sound s (
    subst (λ o. has_three o ≡ true) e
      (each_entry_at (λ j. has_three (symbol_of build j)) (invalid build) (symbols_table build) i
        lt))

get_elem?_below :
    {A : Type 0} (xs : List A) (i : ℕ) (x : A) → get_elem? xs i ≡ some x → i < length xs
get_elem?_below [] i x h = cc
get_elem?_below (y ∷ ys) zero x h = omega arith
get_elem?_below (y ∷ ys) (suc i) x h = omega (arith, get_elem?_below ys i x h)

pub IsKnown-length : (build : Build) (s : Text) → IsKnown build s → length s ≡ 3
unfolding symbol_of
IsKnown-length build s known = elim (get_currency_by_symbol-Scans build s) [
  | inr (e, none_there) ↦ absurd (known e)
  | inl (i, e, first) ↦
      symbol_of-length build i s
        (omega (arith, get_elem?_below (symbols build) i s first.0, symbols_size build)) first.0
]

to_uint64_below : (t : ℤ) → to_uint64 t < 18446744073709551616
unfolding to_uint64
to_uint64_below (pos n) = ground arith
to_uint64_below (negsuc n) = ground arith

-- For an item with values of its types and a currency of the table, the sum of serial_size is the
-- eight bytes of the header, one of the version, and what its values take, each of which fits its type
-- if the sum is below 2 ^ 32.
pub plain_size-fields :
    {N : Type 0} (build : Build) (sp : Spelling N) (i : Item N)
    → IsProper build i
    → plain_size sp i < 4294967296
    → (fs : List Field) × (fields build sp i ≡ some fs)
      × (plain_size sp i ≡ 9 + size_of_all fs)
      × All Fits fs
unfolding fields plain_size
plain_size-fields build sp (msg_item m) ok le = (_, refl, omega arith, (ok, (omega arith, tt)))
plain_size-fields build sp (credit_item c) ok le =
    let three = IsKnown-length build c.currency ok in
    (_, refl, omega arith, (omega arith, (omega arith, (omega arith, (omega arith, tt)))))
plain_size-fields build sp (tx_item t) ok le = (_, refl, omega arith, (ok, (omega arith, tt)))
plain_size-fields build sp (init_tx_item i) ok le =
    let three = IsKnown-length build i.currency ok.3 in
    (
      _,
      refl,
      omega arith,
      (ok.0, (omega arith, (ok.1, (omega arith, (omega arith, (ok.2, (omega arith, tt))))))),
    )
plain_size-fields build sp (remote_tx_item r) ok le =
    (_, refl, omega arith, (omega arith, (ok.0, (ok.1, (omega arith, (omega arith, tt))))))
plain_size-fields build sp (order_item o) ok le =
    let (s, e, _, _) = symbol_round_trip build o.info_currency ok.0 in
    let three = symbol_of-length build o.info_currency s ok.0 e in
    (
      order_fields sp o s,
      rw (e, fields) refl,
      omega arith,
      (
        omega arith,
        (
          omega arith,
          (
            omega arith,
            (ok.1, (omega arith, (to_uint64_below o.info_time, (omega arith, (ok.2, tt))))),
          ),
        ),
      ),
    )
