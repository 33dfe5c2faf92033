-- ===== src/Base/Dict.antt =====
-- `std::map` with texts as keys: a list of pairs in which no key stands twice.
use mathlib.Core.Path.{◌≡◌, refl}
use mathlib.Core.Bool.{false}
use mathlib.Core.List.{List, [], ◌∷◌}
use mathlib.Core.Option.{Option, none, some}
use native.Mathlib.Omega.{arith}
use zero_reserve.Base.Tests.{if◌then◌else◌, Bool-cases}
use zero_reserve.Base.Strings.{Text, text_eq, text_eq_sound, text_eq_refl}
use mathlib.Core.Logic.{inl, inr}

abbrev pub Dict {ℓ} : Type ℓ → Type ℓ
Dict V = List (Text × V)

module _ {ℓ} {V : Type ℓ} where
  -- `find`; `none` is `end`.
  unfoldable pub lookup : Dict V → Text → Option V
  lookup [] k = none
  lookup ((k', v) ∷ m) k = let rest = lookup m k in if text_eq k k' then some v else rest

  -- `m[ k ] = v`
  unfoldable pub assign : Dict V → Text → V → Dict V
  assign [] k v = (k, v) ∷ []
  assign ((k', v') ∷ m) k v =
      let rest = assign m k v in if text_eq k k' then (k', v) ∷ m else (k', v') ∷ rest

  pub lookup-assign : (m : Dict V) (k : Text) (v : V) → lookup (assign m k v) k ≡ some v
  unfolding lookup assign
  lookup-assign [] k v = rw (text_eq_refl k) refl
  lookup-assign ((k', v') ∷ m) k v = elim (Bool-cases (text_eq k k')) [
    | inl e ↦ rw (e, e) refl
    | inr e ↦ rw (e, e) (lookup-assign m k v)
  ]

  pub lookup-assign_ne :
      (m : Dict V) (k other : Text) (v : V)
      → text_eq other k ≡ false
      → lookup (assign m k v) other ≡ lookup m other
  unfolding lookup assign
  lookup-assign_ne [] k other v n = rw n refl
  lookup-assign_ne ((k', v') ∷ m) k other v n = elim (Bool-cases (text_eq k k')) [
    | inl e ↦ ground (arith, text_eq_sound k k')
    | inr e ↦ rw e (ground (arith, lookup-assign_ne m k other v n))
  ]

  -- `erase`, with a key
  unfoldable pub without : Dict V → Text → Dict V
  without [] k = []
  without ((k', v) ∷ m) k = let rest = without m k in if text_eq k k' then rest else (k', v) ∷ rest

  pub lookup-without_ne :
      (m : Dict V) (k other : Text)
      → text_eq other k ≡ false
      → lookup (without m k) other ≡ lookup m other
  unfolding lookup without
  lookup-without_ne [] k other n = refl
  lookup-without_ne ((k', v) ∷ m) k other n = elim (Bool-cases (text_eq k k')) [
    | inl e ↦ ground (arith, text_eq_sound k k', lookup-without_ne m k other n)
    | inr e ↦ rw e (ground (arith, lookup-without_ne m k other n))
  ]
