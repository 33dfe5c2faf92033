-- ===== src/Number/Whole.antt =====
-- The whole numbers meet the laws: the instance at which the witnesses run.
use zero_reserve.Base.{ℕ, ◌*◌, ◌≡◌, ◌↔◌, ap, true, false, arith}
use zero_reserve.Base.Int.{
  ℤ, pos, ◌+ℤ◌, ◌-ℤ◌, ◌*ℤ◌, ◌/ℤ◌, ltb_ℤ, eqb_ℤ, int_laws, +ℤ_parts, -ℤ_parts, *ℤ_parts, eq_of_parts,
  pos_part, neg_part,
}
use zero_reserve.Number.{Number, IsOrderedRing}

instance abbrev pub whole : Number ℤ
whole = record {
  nought = pos 0;
  plus = ◌+ℤ◌;
  minus = ◌-ℤ◌;
  times = ◌*ℤ◌;
  over = ◌/ℤ◌;
  less = ltb_ℤ;
  same = eqb_ℤ;
}

plus_comm : (a b : ℤ) → a +ℤ b ≡ b +ℤ a
plus_comm a b = omega int_laws

plus_assoc : (a b c : ℤ) → a +ℤ b +ℤ c ≡ a +ℤ (b +ℤ c)
plus_assoc a b c = omega int_laws

plus_nought : (a : ℤ) → a +ℤ pos 0 ≡ a
plus_nought a = omega int_laws

minus-plus : (a b : ℤ) → a -ℤ b +ℤ b ≡ a
minus-plus a b = omega int_laws

plus-minus : (a b : ℤ) → a +ℤ b -ℤ b ≡ a
plus-minus a b = omega int_laws

times-minus : (a b p : ℤ) → (a -ℤ b) *ℤ p ≡ a *ℤ p -ℤ b *ℤ p
times-minus a b p = eq_of_parts _ _ (
    omega (
      arith,
      *ℤ_parts (a -ℤ b) p,
      *ℤ_parts a p,
      *ℤ_parts b p,
      -ℤ_parts (a *ℤ p) (b *ℤ p),
      ap (λ (t : ℕ). t * pos_part p) (-ℤ_parts a b),
      ap (λ (t : ℕ). t * neg_part p) (-ℤ_parts a b),
    ))

same_iff : (a b : ℤ) → (eqb_ℤ a b ≡ true) ↔ (a ≡ b)
same_iff a b = ground arith

less_irrefl : (a : ℤ) → ltb_ℤ a a ≡ false
less_irrefl a = ground arith

less_trans : (a b c : ℤ) → ltb_ℤ a b ≡ true → ltb_ℤ b c ≡ true → ltb_ℤ a c ≡ true
less_trans a b c h k = ground arith

less_antisymm : (a b : ℤ) → ltb_ℤ a b ≡ false → ltb_ℤ b a ≡ false → a ≡ b
less_antisymm a b h k = ground arith

less-plus : (a b c : ℤ) → ltb_ℤ (a +ℤ c) (b +ℤ c) ≡ ltb_ℤ a b
less-plus a b c = ground (arith, +ℤ_parts a c, +ℤ_parts b c)

pub whole-IsOrderedRing : IsOrderedRing ℤ
whole-IsOrderedRing = record {
  plus_comm = plus_comm;
  plus_assoc = plus_assoc;
  plus_nought = plus_nought;
  minus-plus = minus-plus;
  plus-minus = plus-minus;
  times-minus = times-minus;
  same_iff = same_iff;
  less_irrefl = less_irrefl;
  less_trans = less_trans;
  less_antisymm = less_antisymm;
  less-plus = less-plus;
}
