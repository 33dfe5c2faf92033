-- ===== src/Orders/Sorting.antt =====
-- Qt's qSort, which is not part of the repository: a function with the behaviour that its
-- documentation promises. Insertion sort shows that the promise can be kept.
use mathlib.Core.List.{Perm, Mem, Mem-prop, mem-cons, mem-cons_self, mem-cons_of_mem}
use mathlib.Core.List.Perm
use mathlib.Core.Logic.Or
use zero_reserve.Base.{
  ℕ, Bool, true, false, ◌≡◌, List, [], ◌∷◌, All, if◌then◌else◌, Bool-cases, inl, inr,
}

abbrev pub Sort : Type 0
Sort = (ℕ → ℕ → Bool) → List ℕ → List ℕ

-- No element stands behind one that it comes before.
abbrev pub SortedBy : (ℕ → ℕ → Bool) → List ℕ → Type 0
SortedBy lt [] = Unit
SortedBy lt (x ∷ xs) = All (λ y. lt y x ≡ false) xs × SortedBy lt xs

-- A strict weak order on the elements of `xs`, which the comparison passed to qSort has to be.
pub record IsStrictWeak (lt : ℕ → ℕ → Bool) (xs : List ℕ) : Type 0 where
  pub asymm : (a b : ℕ) → Mem a xs → Mem b xs → lt a b ≡ true → lt b a ≡ false
  pub trans :
      (a b c : ℕ)
      → Mem a xs
      → Mem b xs
      → Mem c xs
      → lt a b ≡ false
      → lt b c ≡ false
      → lt a c ≡ false

pub record IsSort (sort : Sort) : Type 0 where
  pub sort-perm : (lt : ℕ → ℕ → Bool) (xs : List ℕ) → Perm (sort lt xs) xs
  pub sort-SortedBy :
      (lt : ℕ → ℕ → Bool) (xs : List ℕ) → IsStrictWeak lt xs → SortedBy lt (sort lt xs)

insert : (ℕ → ℕ → Bool) → ℕ → List ℕ → List ℕ
insert lt x [] = x ∷ []
insert lt x (y ∷ ys) = if lt y x then y ∷ insert lt x ys else x ∷ y ∷ ys

unfoldable pub insertion_sort : Sort
unfolding insert
insertion_sort lt [] = []
insertion_sort lt (x ∷ xs) = insert lt x (insertion_sort lt xs)

insert-perm : (lt : ℕ → ℕ → Bool) (x : ℕ) (ys : List ℕ) → Perm (insert lt x ys) (x ∷ ys)
unfolding insert
insert-perm lt x [] = Perm.refl (x ∷ [])
insert-perm lt x (y ∷ ys) = elim (Bool-cases (lt y x)) [
  | inl h ↦ rw h (Perm.trans (Perm.cons y (insert-perm lt x ys)) (Perm.swap x y ys))
  | inr h ↦ rw h (Perm.refl (x ∷ y ∷ ys))
]

insertion_sort-perm : (lt : ℕ → ℕ → Bool) (xs : List ℕ) → Perm (insertion_sort lt xs) xs
unfolding insertion_sort
insertion_sort-perm lt [] = Perm.refl []
insertion_sort-perm lt (x ∷ xs) =
    Perm.trans (insert-perm lt x (insertion_sort lt xs)) (Perm.cons x (insertion_sort-perm lt xs))

pub All-of_mem : {P : ℕ → Type 0} (xs : List ℕ) → ((a : ℕ) → Mem a xs → P a) → All P xs
All-of_mem [] h = tt
All-of_mem (x ∷ xs) h = (h x mem-cons_self, All-of_mem xs (λ a m. h a (mem-cons_of_mem x m)))

pub All-map :
    {P Q : ℕ → Type 0} (xs : List ℕ) → ((a : ℕ) → Mem a xs → P a → Q a) → All P xs → All Q xs
All-map [] f h = tt
All-map (x ∷ xs) f h = (f x mem-cons_self h.0, All-map xs (λ a m. f a (mem-cons_of_mem x m)) h.1)

pub IsStrictWeak-mono :
    (lt : ℕ → ℕ → Bool) (xs ys : List ℕ)
    → ((a : ℕ) → Mem a ys → Mem a xs)
    → IsStrictWeak lt xs
    → IsStrictWeak lt ys
IsStrictWeak-mono lt xs ys f w = record {
  asymm = λ a b ma mb. w.asymm a b (f a ma) (f b mb);
  trans = λ a b c ma mb mc. w.trans a b c (f a ma) (f b mb) (f c mc);
}

All-insert :
    (P : ℕ → Type 0) (lt : ℕ → ℕ → Bool) (x : ℕ) (ys : List ℕ)
    → P x
    → All P ys
    → All P (insert lt x ys)
unfolding insert
All-insert P lt x [] p h = (p, tt)
All-insert P lt x (y ∷ ys) p h = elim (Bool-cases (lt y x)) [
  | inl e ↦ rw e (h.0, All-insert P lt x ys p h.1)
  | inr e ↦ rw e (p, h)
]

skip-second : (x y : ℕ) (ys : List ℕ) (a : ℕ) → Mem a (x ∷ ys) → Mem a (x ∷ y ∷ ys)
skip-second x y ys a m =
    Or.elim Mem-prop (mem-cons.0 m) (λ e. mem-cons.1 (Or.inl e))
      (λ m'. mem-cons_of_mem x (mem-cons_of_mem y m'))

insert-SortedBy :
    (lt : ℕ → ℕ → Bool) (x : ℕ) (ys : List ℕ)
    → IsStrictWeak lt (x ∷ ys)
    → SortedBy lt ys
    → SortedBy lt (insert lt x ys)
unfolding insert
insert-SortedBy lt x [] w h = (tt, tt)
insert-SortedBy lt x (y ∷ ys) w h = elim (Bool-cases (lt y x)) [
  | inl e ↦ rw e (
    All-insert _ lt x ys (w.asymm y x y-mem mem-cons_self e) h.0,
    insert-SortedBy lt x ys (IsStrictWeak-mono lt _ _ (skip-second x y ys) w) h.1,
  )
  | inr e ↦
      rw e ((e, All-map ys (λ a m p. w.trans a y x (deeper a m) y-mem mem-cons_self p e) h.0), h)
]
  where
    y-mem : Mem y (x ∷ y ∷ ys)
    y-mem = mem-cons_of_mem x mem-cons_self

    deeper : (a : ℕ) → Mem a ys → Mem a (x ∷ y ∷ ys)
    deeper a m = mem-cons_of_mem x (mem-cons_of_mem y m)

insertion_sort-SortedBy :
    (lt : ℕ → ℕ → Bool) (xs : List ℕ) → IsStrictWeak lt xs → SortedBy lt (insertion_sort lt xs)
unfolding insertion_sort
insertion_sort-SortedBy lt [] w = tt
insertion_sort-SortedBy lt (x ∷ xs) w =
    insert-SortedBy lt x (insertion_sort lt xs)
      (IsStrictWeak-mono lt (x ∷ xs) _
        (λ a. (Perm.mem_iff (Perm.cons x (insertion_sort-perm lt xs))).0) w)
      (insertion_sort-SortedBy lt xs (IsStrictWeak-mono lt (x ∷ xs) xs (λ a. mem-cons_of_mem x) w))

pub insertion_sort-IsSort : IsSort insertion_sort
insertion_sort-IsSort = record {
  sort-perm = insertion_sort-perm;
  sort-SortedBy = insertion_sort-SortedBy;
}
