-- ===== src/Decimal.antt =====
-- zrtypes.h, `ZR_Number::fromDecimalString`, up to the call of boost's constructor: the numerator and
-- the denominator that it is given. `strtoll` and `getline` are the C and C++ standard library's.
-- Where `(int64_t)pow( 10, n )` or a value on the way to the numerator does not fit int64_t the behaviour is undefined.
pub mod Digits
pub mod Parse
mod Tests
use zero_reserve.Base.{
  ℕ, suc, ◌+◌, ◌-◌, ◌*◌, ◌^◌, List, [], ◌∷◌, Option, none, some, Text, Bool, true, false, ◌||◌,
  ◌&&◌, ltb, leb, ◌==◌, if◌then◌else◌, length,
}
use zero_reserve.Base.Int.{ℤ, pos, negsuc, pos_part, neg_part, ◌+ℤ◌, ◌-ℤ◌, ◌*ℤ◌}

abbrev pub is_digit : ℕ → Bool
is_digit c = leb b'0' c && leb c b'9'

abbrev pub is_space : ℕ → Bool
is_space c = c == b' ' || (leb 9 c && leb c 13)

abbrev pub int64_max : ℕ
int64_max = 9223372036854775807

-- The number that the leading digits of a text spell.
unfoldable pub digits_value : ℕ → Text → ℕ
digits_value acc [] = acc
digits_value acc (c ∷ cs) =
    let rest = digits_value (acc * 10 + (c - b'0')) cs in if is_digit c then rest else acc

-- `strtoll` with base 10: what is out of range gives the nearest bound.
unfoldable pub positive : ℕ → ℤ
positive n = if leb n int64_max then pos n else pos int64_max

unfoldable pub negative : ℕ → ℤ
negative n = if leb n int64_max then pos 0 -ℤ pos n else negsuc int64_max

unfoldable pub signed : Text → ℤ
unfolding positive negative digits_value
signed [] = pos 0
signed (c ∷ cs) =
    if c == b'-'
    then negative (digits_value 0 cs)
    else if c == b'+'
    then positive (digits_value 0 cs)
    else positive (digits_value 0 (c ∷ cs))

unfoldable pub skip : (ℕ → Bool) → Text → Text
skip p [] = []
skip p (c ∷ cs) = let rest = skip p cs in if p c then rest else c ∷ cs

unfoldable pub strtoll : Text → ℤ
unfolding signed skip
strtoll s = signed (skip is_space s)

-- `getline` with a delimiter: the characters before it, and what is left behind it.
unfoldable pub take_until : ℕ → Text → Text
take_until d [] = []
take_until d (c ∷ cs) = let rest = take_until d cs in if c == d then [] else c ∷ rest

unfoldable pub drop_until : ℕ → Text → Text
drop_until d [] = []
drop_until d (c ∷ cs) = let rest = drop_until d cs in if c == d then cs else rest

unfoldable pub contains : ℕ → Text → Bool
contains d [] = false
contains d (c ∷ cs) = c == d || contains d cs

abbrev pub starts_with_minus : Text → Bool
starts_with_minus [] = false
starts_with_minus (c ∷ cs) = c == b'-'

-- The number is one of int64_t.
unfoldable pub fits : ℤ → Bool
fits x = leb (pos_part x) int64_max && leb (neg_part x) (suc int64_max)

-- The body below the trimming: numerator and denominator; `none` where int64_t overflows.
unfoldable pub from_trimmed : Text → Option (ℤ × ℕ)
unfolding contains take_until drop_until strtoll fits
from_trimmed s =
    let delim = if contains b',' s then b',' else b'.' in
    let int_text = take_until delim s in
    let frac_text = take_until delim (drop_until delim s) in
    let factor = 10 ^ length frac_text in
    let frac = strtoll frac_text in
    let frac_part = if starts_with_minus s then pos 0 -ℤ frac else frac in
    let whole = strtoll int_text *ℤ pos factor in
    if leb factor int64_max && (fits frac_part && (fits whole && fits (whole +ℤ frac_part)))
    then some (whole +ℤ frac_part, factor)
    else none

-- `none` is also the exception of `substr` where the text holds nothing but blanks.
unfoldable pub from_decimal_string : Text → Option (ℤ × ℕ)
unfolding from_trimmed skip
from_decimal_string s = elim (skip (λ c. c == b' ') s) [
  | [] ↦ none
  | c ∷ cs ↦ from_trimmed (c ∷ cs)
]
