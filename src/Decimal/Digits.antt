-- ===== src/Decimal/Digits.antt =====
-- Texts of digits, and what the scanners of fromDecimalString make of them.
use zero_reserve.Base.{
  ℕ, ◌+◌, ◌-◌, ◌*◌, ◌^◌, ◌≤◌, ◌≡◌, refl, [], ◌∷◌, ◌++◌, Text, true, false, arith, All, length, ◌==◌,
}
use mathlib.Core.List.{append-nil}
use native.Mathlib.Nat.{pow-suc}
use zero_reserve.Base.Int.{pos, ◌-ℤ◌}
use zero_reserve.Decimal.{
  is_digit, int64_max, digits_value, positive, negative, signed, skip, strtoll, take_until,
  drop_until, contains,
}

abbrev pub IsDigits : Text → Type 0
IsDigits = All (λ c. is_digit c ≡ true)

-- The characters of `s` all differ from `d`.
abbrev pub Lacks : ℕ → Text → Type 0
Lacks d = All (λ c. (c == d) ≡ false)

-- The number that a text of digits spells.
abbrev pub value : Text → ℕ
value [] = 0
value (c ∷ cs) = (c - b'0') * 10 ^ length cs + value cs

-- A text at which a run of digits ends.
abbrev pub Stops : Text → Type 0
Stops [] = Unit
Stops (c ∷ cs) = is_digit c ≡ false

digits_value-Stops : (acc : ℕ) (t : Text) → Stops t → digits_value acc t ≡ acc
unfolding digits_value
digits_value-Stops acc [] h = refl
digits_value-Stops acc (c ∷ t) h = ground arith

pub digits_value-append :
    (acc : ℕ) (s t : Text)
    → IsDigits s
    → Stops t
    → digits_value acc (s ++ t) ≡ acc * 10 ^ length s + value s
unfolding digits_value
digits_value-append acc [] t h k = omega (arith, digits_value-Stops acc t k)
digits_value-append acc (c ∷ s) t h k =
    rw (h.0, digits_value-append (acc * 10 + (c - b'0')) s t h.1 k, pow-suc) (omega arith)

pub take_until-delimiter : (d : ℕ) (s t : Text) → Lacks d s → take_until d (s ++ d ∷ t) ≡ s
unfolding take_until
take_until-delimiter d [] t h = ground arith
take_until-delimiter d (c ∷ s) t h = ground (arith, take_until-delimiter d s t h.1)

pub drop_until-delimiter : (d : ℕ) (s t : Text) → Lacks d s → drop_until d (s ++ d ∷ t) ≡ t
unfolding drop_until
drop_until-delimiter d [] t h = ground arith
drop_until-delimiter d (c ∷ s) t h = ground (arith, drop_until-delimiter d s t h.1)

pub take_until-lacking : (d : ℕ) (s : Text) → Lacks d s → take_until d s ≡ s
unfolding take_until
take_until-lacking d [] h = refl
take_until-lacking d (c ∷ s) h = ground (arith, take_until-lacking d s h.1)

pub drop_until-lacking : (d : ℕ) (s : Text) → Lacks d s → drop_until d s ≡ []
unfolding drop_until
drop_until-lacking d [] h = refl
drop_until-lacking d (c ∷ s) h = ground (arith, drop_until-lacking d s h.1)

pub contains-lacking : (d : ℕ) (s : Text) → Lacks d s → contains d s ≡ false
unfolding contains
contains-lacking d [] h = refl
contains-lacking d (c ∷ s) h = ground (arith, contains-lacking d s h.1)

pub IsDigits-Lacks : (d : ℕ) (s : Text) → is_digit d ≡ false → IsDigits s → Lacks d s
IsDigits-Lacks d [] e h = tt
IsDigits-Lacks d (c ∷ s) e h = (ground arith, IsDigits-Lacks d s e h.1)

digits_value-leading : (s t : Text) → IsDigits s → Stops t → digits_value 0 (s ++ t) ≡ value s
digits_value-leading s t h k = omega (arith, digits_value-append 0 s t h k)

-- `strtoll` of a text that begins with digits reads those.
pub strtoll-digits :
    (c : ℕ) (s t : Text)
    → IsDigits (c ∷ s)
    → Stops t
    → value (c ∷ s) ≤ int64_max
    → strtoll (c ∷ s ++ t) ≡ pos (value (c ∷ s))
unfolding strtoll signed skip positive
strtoll-digits c s t h k b = ground (arith, digits_value-leading (c ∷ s) t h k)

-- With a minus before them, their negative.
pub strtoll-minus :
    (s t : Text)
    → IsDigits s
    → Stops t
    → value s ≤ int64_max
    → strtoll (b'-' ∷ s ++ t) ≡ pos 0 -ℤ pos (value s)
unfolding strtoll signed skip negative
strtoll-minus s t h k b = ground (arith, digits_value-leading s t h k)

-- `strtoll` of a text of digits, the empty one included.
pub strtoll-all_digits : (s : Text) → IsDigits s → value s ≤ int64_max → strtoll s ≡ pos (value s)
unfolding strtoll signed skip
strtoll-all_digits [] h b = refl
strtoll-all_digits (c ∷ s) h b = rw append-nil at (strtoll-digits c s [] h tt b)

pow-length-append : (s t : Text) → 10 ^ length (s ++ t) ≡ 10 ^ length s * 10 ^ length t
pow-length-append [] t = omega arith
pow-length-append (c ∷ s) t = rw (pow-suc, pow-suc, pow-length-append s t) (omega arith)

pub value-append : (s t : Text) → value (s ++ t) ≡ value s * 10 ^ length t + value t
value-append [] t = omega arith
value-append (c ∷ s) t = rw (pow-length-append s t, value-append s t) (omega arith)

pub contains-delimiter : (d : ℕ) (s t : Text) → contains d (s ++ d ∷ t) ≡ true
unfolding contains
contains-delimiter d [] t = ground arith
contains-delimiter d (c ∷ s) t = ground (arith, contains-delimiter d s t)
