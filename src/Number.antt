-- ===== src/Number.antt =====
-- zrtypes.h, `class ZR_Number`, which is boost::rational< int64_t > by inheritance. Boost is not part
-- of the repository, so the numbers are a type `N` with the operations that the code calls.
-- The laws are those of exact rational arithmetic: boost::rational is exact while numerators and
-- denominators stay within int64_t, and that is the assumption behind them.
pub mod Whole
pub mod Laws
use zero_reserve.Base.{◌≡◌, ◌↔◌, Bool, true, false}

pub record Number {ℓ} (N : Type ℓ) : Type ℓ where
  pub nought : N
  pub plus : N → N → N
  pub minus : N → N → N
  pub times : N → N → N
  pub over : N → N → N
  pub less : N → N → Bool
  pub same : N → N → Bool

infixl 65 ◌⊕◌ ◌⊖◌
infixl 70 ◌⊗◌ ◌⊘◌
infix 50 ◌≺◌
module _ {ℓ} {N : Type ℓ} ⦃num : Number N⦄ where
  abbrev pub ◌⊕◌ : N → N → N
  ◌⊕◌ = num.plus

  abbrev pub ◌⊖◌ : N → N → N
  ◌⊖◌ = num.minus

  abbrev pub ◌⊗◌ : N → N → N
  ◌⊗◌ = num.times

  abbrev pub ◌⊘◌ : N → N → N
  ◌⊘◌ = num.over

  -- `a < b`
  abbrev pub ◌≺◌ : N → N → Bool
  ◌≺◌ = num.less

pub record IsOrderedRing {ℓ} (N : Type ℓ) ⦃num : Number N⦄ : Type ℓ where
  pub plus_comm : (a b : N) → num.plus a b ≡ num.plus b a
  pub plus_assoc : (a b c : N) → num.plus (num.plus a b) c ≡ num.plus a (num.plus b c)
  pub plus_nought : (a : N) → num.plus a num.nought ≡ a
  pub minus-plus : (a b : N) → num.plus (num.minus a b) b ≡ a
  pub plus-minus : (a b : N) → num.minus (num.plus a b) b ≡ a
  pub times-minus :
      (a b p : N) → num.times (num.minus a b) p ≡ num.minus (num.times a p) (num.times b p)
  pub same_iff : (a b : N) → (num.same a b ≡ true) ↔ (a ≡ b)
  pub less_irrefl : (a : N) → num.less a a ≡ false
  pub less_trans : (a b c : N) → num.less a b ≡ true → num.less b c ≡ true → num.less a c ≡ true
  pub less_antisymm : (a b : N) → num.less a b ≡ false → num.less b a ≡ false → a ≡ b
  pub less-plus : (a b c : N) → num.less (num.plus a c) (num.plus b c) ≡ num.less a b
