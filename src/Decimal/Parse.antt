-- ===== src/Decimal/Parse.antt =====
-- What fromDecimalString makes of the texts that people and the database write.
use mathlib.Core.List.{append-nil, append_assoc}
use zero_reserve.Base.{
  ℕ, zero, suc, ◌+◌, ◌*◌, ◌^◌, ◌≤◌, ◌≡◌, refl, [], ◌∷◌, ◌++◌, some, Text, Bool, true, false, arith,
  All-append, length, ◌==◌, ap, ap₂, subst, Option, ◌∙◌, none, leb, ◌&&◌, if◌then◌else◌,
}
use zero_reserve.Base.Int.{ℤ, pos, ◌-ℤ◌, ◌+ℤ◌, ◌*ℤ◌, eq_of_parts, int_laws, *ℤ_parts, -ℤ_parts}
use native.Mathlib.Nat.{pow-suc}
use zero_reserve.Decimal.{
  is_digit, int64_max, strtoll, fits, skip, take_until, drop_until, contains, from_trimmed,
  starts_with_minus, from_decimal_string,
}
use zero_reserve.Decimal.Digits.{
  IsDigits, Lacks, value, Stops, strtoll-digits, strtoll-minus, IsDigits-Lacks, contains-lacking,
  take_until-delimiter, drop_until-delimiter, take_until-lacking, drop_until-lacking, value-append,
  contains-delimiter, strtoll-all_digits,
}

abbrev pub sign : Bool → Text
sign true = b'-' ∷ []
sign false = []

abbrev pub with_sign : Bool → ℕ → ℤ
with_sign true n = pos 0 -ℤ pos n
with_sign false n = pos n

abbrev pub delimiter : Bool → ℕ
delimiter true = b','
delimiter false = b'.'

abbrev pub blanks : ℕ → Text
blanks zero = []
blanks (suc n) = b' ' ∷ blanks n

strtoll-sign :
    (b : Bool) (c : ℕ) (s t : Text)
    → IsDigits (c ∷ s)
    → Stops t
    → value (c ∷ s) ≤ int64_max
    → strtoll (sign b ++ c ∷ s ++ t) ≡ with_sign b (value (c ∷ s))
strtoll-sign true c s t h k m = strtoll-minus (c ∷ s) t h k m
strtoll-sign false c s t h k m = strtoll-digits c s t h k m

sign-Lacks : (b : Bool) (d : ℕ) (s : Text) → (b'-' == d) ≡ false → Lacks d s → Lacks d (sign b ++ s)
sign-Lacks true d s e h = (e, h)
sign-Lacks false d s e h = h

skip-blanks : (n : ℕ) (s : Text) → skip (λ c. c == b' ') (blanks n ++ s) ≡ skip (λ c. c == b' ') s
unfolding skip
skip-blanks zero s = refl
skip-blanks (suc n) s = ground (arith, skip-blanks n s)

-- The text up to the first delimiter, and what stands behind it, for either delimiter.
contains_comma :
    (k : Bool) (s f : Text) → Lacks b',' s → IsDigits f → contains b',' (s ++ delimiter k ∷ f) ≡ k
contains_comma true s f h g = contains-delimiter b',' s f
contains_comma false s f h g =
    contains-lacking b',' (s ++ b'.' ∷ f)
      (All-append _ s (b'.' ∷ f) h (refl, IsDigits-Lacks b',' f refl g))

Lacks-delimiter : (k : Bool) (s : Text) → Lacks b',' s → Lacks b'.' s → Lacks (delimiter k) s
Lacks-delimiter true s h g = h
Lacks-delimiter false s h g = g

delimiter_not_digit : (k : Bool) → is_digit (delimiter k) ≡ false
delimiter_not_digit true = refl
delimiter_not_digit false = refl

numerator :
    (b : Bool) (v w p : ℕ) → with_sign b v *ℤ pos p +ℤ with_sign b w ≡ with_sign b (v * p + w)
numerator true v w p = eq_of_parts _ _ (
    omega (
      int_laws,
      *ℤ_parts (pos 0 -ℤ pos v) (pos p),
      ap (λ (t : ℕ). t * p) (-ℤ_parts (pos 0) (pos v)),
    ))
numerator false v w p = eq_of_parts _ _ (omega (int_laws, *ℤ_parts (pos v) (pos p)))

product : (b : Bool) (v p : ℕ) → with_sign b v *ℤ pos p ≡ with_sign b (v * p)
product true v p = eq_of_parts _ _ (
    omega (
      int_laws,
      *ℤ_parts (pos 0 -ℤ pos v) (pos p),
      ap (λ (t : ℕ). t * p) (-ℤ_parts (pos 0) (pos v)),
    ))
product false v p = eq_of_parts _ _ (omega (int_laws, *ℤ_parts (pos v) (pos p)))

fits-sign : (b : Bool) (n : ℕ) → n ≤ int64_max → fits (with_sign b n) ≡ true
unfolding fits ◌-ℤ◌
fits-sign true n h = ground arith
fits-sign false n h = ground arith

abbrev only : Bool → ℤ × ℕ → Option (ℤ × ℕ)
only t n = if t then some n else none

-- What the body makes of the parts, where nothing overflows.
built :
    (b : Bool) (v w p : ℕ)
    → v * p + w ≤ int64_max
    → p ≤ int64_max
    → only
        (leb p int64_max
          && (fits (with_sign b w)
              && (fits (with_sign b v *ℤ pos p) && fits (with_sign b v *ℤ pos p +ℤ with_sign b w))))
        (with_sign b v *ℤ pos p +ℤ with_sign b w, p)
      ≡ some (with_sign b (v * p + w), p)
built b v w p h k =
    let one : leb p int64_max ≡ true = ground arith in
    let two = fits-sign b w (omega arith) in
    let three = ap fits (product b v p) ∙ fits-sign b (v * p) (omega arith) in
    let four = ap fits (numerator b v w p) ∙ fits-sign b (v * p + w) h in
    ap (λ (t : Bool). only t (with_sign b v *ℤ pos p +ℤ with_sign b w, p))
      (ap₂ (λ (x y : Bool). x && y) one
        (ap₂ (λ (x y : Bool). x && y) two (ap₂ (λ (x y : Bool). x && y) three four)))
    ∙ ap (λ (n : ℤ). some (n, p)) (numerator b v w p)

-- The result from what the scanners return.
from_trimmed-parts :
    (b k : Bool) (x i f : Text) (v w : ℕ)
    → v * 10 ^ length f + w ≤ int64_max
    → 10 ^ length f ≤ int64_max
    → contains b',' x ≡ k
    → take_until (delimiter k) x ≡ i
    → take_until (delimiter k) (drop_until (delimiter k) x) ≡ f
    → strtoll i ≡ with_sign b v
    → strtoll f ≡ pos w
    → starts_with_minus x ≡ b
    → from_trimmed x ≡ some (with_sign b (v * 10 ^ length f + w), 10 ^ length f)
unfolding from_trimmed
from_trimmed-parts true true x i f v w m n hk hi hf hv hw hb =
    rw (hk, hi, hf, hv, hw, hb) (built true v w _ m n)
from_trimmed-parts true false x i f v w m n hk hi hf hv hw hb =
    rw (hk, hi, hf, hv, hw, hb) (built true v w _ m n)
from_trimmed-parts false true x i f v w m n hk hi hf hv hw hb =
    rw (hk, hi, hf, hv, hw, hb) (built false v w _ m n)
from_trimmed-parts false false x i f v w m n hk hi hf hv hw hb =
    rw (hk, hi, hf, hv, hw, hb) (built false v w _ m n)

starts_sign :
    (b : Bool) (c : ℕ) (s : Text) → is_digit c ≡ true → starts_with_minus (sign b ++ c ∷ s) ≡ b
starts_sign true c s h = refl
starts_sign false c s h = ground arith

sign-digits-Lacks :
    (b : Bool) (d : ℕ) (s : Text)
    → is_digit d ≡ false
    → (b'-' == d) ≡ false
    → IsDigits s
    → Lacks d (sign b ++ s)
sign-digits-Lacks b d s e m h = sign-Lacks b d s m (IsDigits-Lacks d s e h)

product_grows : (v p : ℕ) → 1 ≤ p → v ≤ v * p
product_grows v zero h = omega arith
product_grows v (suc q) h = omega arith

one_at_least : (f : Text) → 1 ≤ 10 ^ length f
one_at_least [] = omega arith
one_at_least (c ∷ f) = rw pow-suc (omega (arith, one_at_least f))

from_trimmed-decimal :
    (b k : Bool) (c : ℕ) (s f : Text)
    → IsDigits (c ∷ s)
    → IsDigits f
    → value ((c ∷ s) ++ f) ≤ int64_max
    → 10 ^ length f ≤ int64_max
    → from_trimmed ((sign b ++ c ∷ s) ++ delimiter k ∷ f)
      ≡ some (with_sign b (value ((c ∷ s) ++ f)), 10 ^ length f)
from_trimmed-decimal b k c s f h g fit power = rw (value-append (c ∷ s) f) (
    from_trimmed-parts b k ((sign b ++ c ∷ s) ++ delimiter k ∷ f) (sign b ++ c ∷ s) f _ _ together
      power (contains_comma k (sign b ++ c ∷ s) f comma g)
      (take_until-delimiter (delimiter k) (sign b ++ c ∷ s) f both)
      (rw (drop_until-delimiter (delimiter k) (sign b ++ c ∷ s) f both)
        (take_until-lacking (delimiter k) f (IsDigits-Lacks _ f (delimiter_not_digit k) g)))
      (rw append-nil at (strtoll-sign b c s [] h tt m)) (strtoll-all_digits f g n)
      (rw append_assoc (starts_sign b c (s ++ delimiter k ∷ f) h.0)))
  where
    together : value (c ∷ s) * 10 ^ length f + value f ≤ int64_max
    together = subst (λ (x : ℕ). x ≤ int64_max) (value-append (c ∷ s) f) fit

    m : value (c ∷ s) ≤ int64_max
    m = omega (arith, together, product_grows (value (c ∷ s)) (10 ^ length f) (one_at_least f))

    n : value f ≤ int64_max
    n = omega (arith, together)

    comma : Lacks b',' (sign b ++ c ∷ s)
    comma = sign-digits-Lacks b b',' (c ∷ s) refl refl h

    both : Lacks (delimiter k) (sign b ++ c ∷ s)
    both = Lacks-delimiter k _ comma (sign-digits-Lacks b b'.' (c ∷ s) refl refl h)

from_trimmed-whole :
    (b : Bool) (c : ℕ) (s t : Text)
    → IsDigits (c ∷ s)
    → Stops t
    → Lacks b',' t
    → Lacks b'.' t
    → value (c ∷ s) ≤ int64_max
    → from_trimmed (sign b ++ c ∷ s ++ t) ≡ some (with_sign b (value (c ∷ s)), 1)
from_trimmed-whole b c s t h k l l' m =
    from_trimmed-parts b false (sign b ++ c ∷ s ++ t) _ [] _ 0 (omega arith) (omega arith)
      (contains-lacking b',' _ (lacking b',' refl refl l)) (take_until-lacking b'.' _ dot)
      (rw (drop_until-lacking b'.' _ dot) (take_until-lacking b'.' [] tt))
      (strtoll-sign b c s t h k m) (strtoll-all_digits [] tt (omega arith))
      (rw (append_assoc (sign b) (c ∷ s) t) (starts_sign b c (s ++ t) h.0))
    ∙ ap (λ (v : ℕ). some (with_sign b v, 1)) (omega arith)
  where
    lacking :
        (d : ℕ)
        → is_digit d ≡ false
        → (b'-' == d) ≡ false
        → Lacks d t
        → Lacks d (sign b ++ c ∷ s ++ t)
    lacking d e e' l = All-append _ (sign b ++ c ∷ s) t (sign-digits-Lacks b d (c ∷ s) e e' h) l

    dot : Lacks b'.' (sign b ++ c ∷ s ++ t)
    dot = lacking b'.' refl refl l'

-- Blanks in front are dropped, and nothing else is.
from_decimal_string-blanks :
    (n c : ℕ) (s : Text)
    → (c == b' ') ≡ false
    → from_decimal_string (blanks n ++ c ∷ s) ≡ from_trimmed (c ∷ s)
unfolding from_decimal_string skip
from_decimal_string-blanks zero c s h = ground arith
from_decimal_string-blanks (suc n) c s h = ground (arith, from_decimal_string-blanks n c s h)

from_decimal_string-sign :
    (b : Bool) (n c : ℕ) (s : Text)
    → is_digit c ≡ true
    → from_decimal_string (blanks n ++ (sign b ++ c ∷ s)) ≡ from_trimmed (sign b ++ c ∷ s)
from_decimal_string-sign true n c s h = from_decimal_string-blanks n b'-' (c ∷ s) refl
from_decimal_string-sign false n c s h = from_decimal_string-blanks n c s (ground arith)

from_trimmed-blanks :
    (n : ℕ) (b : Bool) (c : ℕ) (s t : Text)
    → is_digit c ≡ true
    → from_decimal_string (blanks n ++ (sign b ++ c ∷ s ++ t)) ≡ from_trimmed (sign b ++ c ∷ s ++ t)
from_trimmed-blanks n b c s t h =
    rw (append_assoc (sign b) (c ∷ s) t) (from_decimal_string-sign b n c (s ++ t) h)

-- A decimal text is read as the number that it spells: after any number of blanks, an optional minus,
-- one or more digits, a dot or a comma and any digits, fromDecimalString builds the fraction whose
-- numerator is all the digits read as one number, with the sign, and whose denominator is 10 to the
-- number of digits behind the delimiter. Both are to fit int64_t.
pub from_decimal_string-decimal :
    (n : ℕ) (b k : Bool) (c : ℕ) (s f : Text)
    → IsDigits (c ∷ s)
    → IsDigits f
    → value ((c ∷ s) ++ f) ≤ int64_max
    → 10 ^ length f ≤ int64_max
    → from_decimal_string (blanks n ++ (sign b ++ c ∷ s ++ delimiter k ∷ f))
      ≡ some (with_sign b (value ((c ∷ s) ++ f)), 10 ^ length f)
from_decimal_string-decimal n b k c s f h g m l =
    from_trimmed-blanks n b c s (delimiter k ∷ f) h.0 ∙ from_trimmed-decimal b k c s f h g m l

-- An exponent is not read: an optional minus, one or more digits and then any text that begins with no
-- digit and holds no dot and no comma, such as e-05, is read as the digits alone, over 1. The digits
-- are to fit int64_t.
pub from_decimal_string-ignores_exponent :
    (n : ℕ) (b : Bool) (c : ℕ) (s t : Text)
    → IsDigits (c ∷ s)
    → Stops t
    → Lacks b',' t
    → Lacks b'.' t
    → value (c ∷ s) ≤ int64_max
    → from_decimal_string (blanks n ++ (sign b ++ c ∷ s ++ t))
      ≡ some (with_sign b (value (c ∷ s)), 1)
from_decimal_string-ignores_exponent n b c s t h k l l' m =
    from_trimmed-blanks n b c s t h.0 ∙ from_trimmed-whole b c s t h k l l' m
