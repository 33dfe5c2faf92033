-- ===== src/Wire/Signs.antt =====
-- Whole numbers as a sign and one character: texts that are read back, for the concrete values.
use zero_reserve.Base.{◌≡◌, refl, [], ◌∷◌, Text, ◌==◌, if◌then◌else◌}
use zero_reserve.Base.Int.{ℤ, pos, negsuc}
use zero_reserve.Wire.Items.{Spelling}

-- A sign and one character for the number.
unfoldable pub write_number : ℤ → Text
write_number (pos n) = 43 ∷ n ∷ []
write_number (negsuc n) = 45 ∷ n ∷ []

unfoldable pub read_number : Text → ℤ
read_number (c ∷ n ∷ t) = if c == 43 then pos n else negsuc n
read_number (c ∷ []) = pos 0
read_number [] = pos 0

abbrev pub signs : Spelling ℤ
signs = record { to_text = write_number; from_text = read_number }

pub signs_read : (z : ℤ) → read_number (write_number z) ≡ z
unfolding write_number read_number
signs_read (pos n) = refl
signs_read (negsuc n) = refl
