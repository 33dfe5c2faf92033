-- ===== src/Number/Laws.antt =====
-- Consequences of the laws of ZR_Number that the components use.
use zero_reserve.Base.{◌≡◌, true, false, ◌∙◌, sym, ap, ap₂, Bool-cases, inl, inr}
use zero_reserve.Number.{Number, IsOrderedRing, ◌⊕◌, ◌⊖◌, ◌≺◌}

module _ {ℓ} {N : Type ℓ} ⦃num : Number N⦄ (laws : IsOrderedRing N) where
  open laws use {
    plus_comm, plus_assoc, plus_nought, minus-plus, plus-minus, less_irrefl, less_trans,
    less_antisymm, less-plus,
  }

  pub less_asymm : (a b : N) → a ≺ b ≡ true → b ≺ a ≡ false
  less_asymm a b h = elim (Bool-cases (b ≺ a)) [
    | inl k ↦ cc (less_trans a b a h k, less_irrefl a)
    | inr k ↦ k
  ]

  -- `≤` is transitive, as the failure of `<`.
  pub not_less_trans : (a b c : N) → a ≺ b ≡ false → b ≺ c ≡ false → a ≺ c ≡ false
  not_less_trans a b c h k = elim (Bool-cases (a ≺ c)) [
    | inr l ↦ l
    | inl l ↦ elim (Bool-cases (b ≺ a)) [
      | inl m ↦ cc (less_trans b a c m l)
      | inr m ↦ cc (less_antisymm a b h m)
    ]
  ]

  pub plus_cancel : (a b c : N) → a ⊕ c ≡ b ⊕ c → a ≡ b
  plus_cancel a b c h = sym (plus-minus a c) ∙ ap (λ (x : N). x ⊖ c) h ∙ plus-minus b c

  pub same_refl : (a : N) → num.same a a ≡ true
  same_refl a = (laws.same_iff a a).1 (λ i. a)

  minus_unique : (a b c : N) → a ⊕ b ≡ c → a ≡ c ⊖ b
  minus_unique a b c h = sym (plus-minus a b) ∙ ap (λ (x : N). x ⊖ b) h

  pub minus_plus : (a b c : N) → a ⊖ (b ⊕ c) ≡ a ⊖ b ⊖ c
  minus_plus a b c = minus_unique _ c _ (
      minus_unique _ b _ (
        plus_assoc _ c b
        ∙ ap (λ (x : N). (a ⊖ (b ⊕ c)) ⊕ x) (plus_comm c b)
        ∙ minus-plus a (b ⊕ c)))

  pub minus_comm : (a b c : N) → a ⊖ b ⊖ c ≡ a ⊖ c ⊖ b
  minus_comm a b c =
      sym (minus_plus a b c) ∙ ap (λ (x : N). a ⊖ x) (plus_comm b c) ∙ minus_plus a c b

  pub plus_minus : (a b c : N) → a ⊕ (b ⊖ c) ≡ a ⊕ b ⊖ c
  plus_minus a b c = minus_unique _ c _ (plus_assoc a _ c ∙ ap (λ (x : N). a ⊕ x) (minus-plus b c))

  -- What is left of `a` after `b` is not below 0, unless `a < b`.
  pub minus_not_negative : (a b : N) → a ≺ b ≡ false → (a ⊖ b) ≺ num.nought ≡ false
  minus_not_negative a b h =
      sym (less-plus (a ⊖ b) num.nought b)
      ∙ ap₂ (λ (x y : N). x ≺ y) (minus-plus a b) (plus_comm num.nought b ∙ plus_nought b)
      ∙ h

  -- Two numbers that cancel out do so after one moves up as the other moves down.
  pub opposite_move : (a b c : N) → a ⊕ b ≡ num.nought → (a ⊖ c) ⊕ (b ⊕ c) ≡ num.nought
  opposite_move a b c h =
      ap (λ (x : N). (a ⊖ c) ⊕ x) (plus_comm b c)
      ∙ sym (plus_assoc _ c b)
      ∙ ap (λ (x : N). x ⊕ b) (minus-plus a c)
      ∙ h

  -- `b ≤ b + c` for a `c` that is not negative, and so `b ≤ a` where `b + c ≤ a`.
  pub part_not_less : (a b c : N) → a ≺ (b ⊕ c) ≡ false → c ≺ num.nought ≡ false → a ≺ b ≡ false
  part_not_less a b c h k = not_less_trans a (b ⊕ c) b h (
      ap₂ (λ (x y : N). x ≺ y) (plus_comm b c) (sym (plus_nought b) ∙ plus_comm b num.nought)
      ∙ less-plus c num.nought b
      ∙ k)

  pub rest_not_less : (a b c : N) → a ≺ (b ⊕ c) ≡ false → (a ⊖ b) ≺ c ≡ false
  rest_not_less a b c h =
      sym (less-plus (a ⊖ b) c b) ∙ ap₂ (λ (x y : N). x ≺ y) (minus-plus a b) (plus_comm c b) ∙ h

  pub minus_minus : (a b c : N) → a ⊖ (b ⊖ c) ≡ (a ⊖ b) ⊕ c
  minus_minus a b c = plus_cancel _ _ (b ⊖ c) (
      minus-plus a (b ⊖ c)
      ∙ sym (minus-plus a b)
      ∙ ap (λ (x : N). (a ⊖ b) ⊕ x) (sym (minus-plus b c) ∙ plus_comm (b ⊖ c) c)
      ∙ sym (plus_assoc (a ⊖ b) c (b ⊖ c)))

  pub plus_not_less : (a b : N) → a ≺ num.nought ≡ false → (a ⊕ b) ≺ b ≡ false
  plus_not_less a b h =
      ap (λ (x : N). (a ⊕ b) ≺ x) (sym (plus_nought b) ∙ plus_comm b num.nought)
      ∙ less-plus a num.nought b
      ∙ h
