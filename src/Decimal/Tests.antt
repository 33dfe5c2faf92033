-- ===== src/Decimal/Tests.antt =====
-- Texts read as numbers.
use zero_reserve.Base.{codes, some, ◌≡◌, refl, true, false, ◌++◌, ◌∷◌, ◌^◌, length, arith}
use zero_reserve.Decimal.{from_decimal_string}
use zero_reserve.Decimal.Digits.{value}
use zero_reserve.Decimal.Parse.{
  from_decimal_string-decimal, from_decimal_string-ignores_exponent, blanks, sign, with_sign,
  delimiter,
}

from_decimal_string-decimal_example :
    from_decimal_string
      (blanks 1 ++ (sign true ++ b'1' ∷ codes "2" ++ delimiter false ∷ codes "05"))
    ≡ some (with_sign true (value ((b'1' ∷ codes "2") ++ codes "05")), 10 ^ length (codes "05"))
from_decimal_string-decimal_example =
    from_decimal_string-decimal 1 true false b'1' (codes "2") (codes "05") (refl, (refl, tt))
      (refl, (refl, tt)) (omega arith) (omega arith)

minus_five :
    from_decimal_string (blanks 0 ++ (sign false ++ b'1' ∷ codes "" ++ codes "e-05"))
    ≡ some (with_sign false (value (b'1' ∷ codes "")), 1)
minus_five =
    from_decimal_string-ignores_exponent 0 false b'1' (codes "") (codes "e-05") (refl, tt) refl
      (refl, (refl, (refl, (refl, tt)))) (refl, (refl, (refl, (refl, tt)))) (omega arith)
