-- ===== src/Orders/Find.antt =====
-- Looking an order up by its id, in a list where no id stands twice.
use zero_reserve.Base.{
  ℕ, false, ◌≡◌, refl, List, [], ◌∷◌, ◌++◌, none, some, Text, text_eq, text_eq_sound, text_eq_refl,
  text_eq_comm, if◌then◌else◌, Bool-cases, inl, inr, arith, ap, subst, ◌∙◌,
}
use zero_reserve.Orders.{Heap, find, erase}

module _ {N : Type 0} (h : Heap N) where
  -- No two orders of the list have one id.
  abbrev pub Unique : List ℕ → Type 0
  Unique [] = Unit
  Unique (r ∷ rs) = (find h rs (h r).order_id ≡ none) × Unique rs

  pub find-append :
      (rs : List ℕ) (r : ℕ) (id : Text)
      → find h rs id ≡ none
      → find h (rs ++ r ∷ []) id ≡ (if text_eq id (h r).order_id then some r else none)
  unfolding find
  find-append [] r id e = refl
  find-append (q ∷ rs) r id e = ground (arith, find-append rs r id)

  -- The first of the two lists is searched first.
  pub find-append_found :
      (rs ss : List ℕ) (id : Text) {q : ℕ} → find h rs id ≡ some q → find h (rs ++ ss) id ≡ some q
  unfolding find
  find-append_found [] ss id e = cc
  find-append_found (r ∷ rs) ss id {q} e = ground (arith, find-append_found rs ss id {q = q})

  pub find-append_self :
      (rs : List ℕ) (r : ℕ)
      → find h rs (h r).order_id ≡ none
      → find h (rs ++ r ∷ []) (h r).order_id ≡ some r
  find-append_self rs r e = rw (find-append rs r _ e, text_eq_refl (h r).order_id)

  pub find-id : (rs : List ℕ) (id : Text) {q : ℕ} → find h rs id ≡ some q → id ≡ (h q).order_id
  unfolding find
  find-id [] id e = cc
  find-id (r ∷ rs) id {q} e = elim (Bool-cases (text_eq id (h r).order_id)) [
    | inl t ↦ text_eq_sound id _ t ∙ ap (λ x. (h x).order_id) (ground arith)
    | inr t ↦ find-id rs id (ground arith)
  ]

  pub erase-absent : (rs : List ℕ) (id : Text) → find h rs id ≡ none → erase h rs id ≡ rs
  unfolding find erase
  erase-absent [] id e = refl
  erase-absent (r ∷ rs) id e = ground (arith, erase-absent rs id)

  pub find-erase : (rs : List ℕ) (id : Text) → Unique rs → find h (erase h rs id) id ≡ none
  unfolding find erase
  find-erase [] id u = refl
  find-erase (r ∷ rs) id u = elim (Bool-cases (text_eq id (h r).order_id)) [
    | inl t ↦ rw (t, text_eq_sound id _ t) u.0
    | inr t ↦ rw (t, t) (find-erase rs id u.1)
  ]

  -- Erasing one id leaves the search for another as it was.
  pub find-erase_ne :
      (rs : List ℕ) (id other : Text)
      → text_eq other id ≡ false
      → find h (erase h rs id) other ≡ find h rs other
  unfolding find erase
  find-erase_ne [] id other e = refl
  find-erase_ne (r ∷ rs) id other e = elim (Bool-cases (text_eq id (h r).order_id)) [
    | inl t ↦
        let e' = subst (λ x. text_eq other x ≡ false) (text_eq_sound id _ t) e in rw (t, e') refl
    | inr t ↦ ground (arith, find-erase_ne rs id other e)
  ]

  find-erase-none :
      (rs : List ℕ) (id other : Text) → find h rs other ≡ none → find h (erase h rs id) other ≡ none
  unfolding find erase
  find-erase-none [] id other e = refl
  find-erase-none (r ∷ rs) id other e = ground (arith, find-erase-none rs id other)

  pub Unique-erase : (rs : List ℕ) (id : Text) → Unique rs → Unique (erase h rs id)
  unfolding erase
  Unique-erase [] id u = tt
  Unique-erase (r ∷ rs) id u = elim (Bool-cases (text_eq id (h r).order_id)) [
    | inl t ↦ rw t u.1
    | inr t ↦ rw t (find-erase-none rs id _ u.0, Unique-erase rs id u.1)
  ]

  pub Unique-append :
      (rs : List ℕ) (r : ℕ) → Unique rs → find h rs (h r).order_id ≡ none → Unique (rs ++ r ∷ [])
  unfolding find
  Unique-append [] r u e = (refl, tt)
  Unique-append (q ∷ rs) r u e = (
    ground (arith, find-append rs r (h q).order_id, text_eq_comm (h q).order_id (h r).order_id),
    Unique-append rs r u.1 (ground arith),
  )

-- The search reads the ids alone.
module _ {N : Type 0} (h g : Heap N) (same : (q : ℕ) → (h q).order_id ≡ (g q).order_id) where
  pub find-congr : (rs : List ℕ) (id : Text) → find h rs id ≡ find g rs id
  unfolding find
  find-congr [] id = refl
  find-congr (r ∷ rs) id = rw (same r, find-congr rs id)

  pub erase-congr : (rs : List ℕ) (id : Text) → erase h rs id ≡ erase g rs id
  unfolding erase
  erase-congr [] id = refl
  erase-congr (r ∷ rs) id = rw (same r, erase-congr rs id)

  pub Unique-congr : (rs : List ℕ) → Unique h rs → Unique g rs
  Unique-congr [] u = tt
  Unique-congr (r ∷ rs) u = (rw (← find-congr rs (g r).order_id, ← same r) u.0, Unique-congr rs u.1)
