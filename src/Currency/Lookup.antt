-- ===== src/Currency/Lookup.antt =====
-- What the two lookups of Currency.cpp return on any text.
use zero_reserve.Base.{
  ℕ, zero, suc, ◌+◌, ◌≡◌, refl, ◌⊎◌, inl, inr, Bool-cases, List, [], ◌∷◌, some, Text, text_eq,
  text_eq_sound, text_eq_refl, false, arith, get_elem?, ◌≢◌, ◌<◌,
}
use zero_reserve.Currency.{
  Build, index_from, invalid, symbols, names, get_currency_by_symbol, get_currency_by_name,
}

-- `s` stands at `i` and at no index before it.
abbrev pub IsFirst : List Text → Text → ℕ → Type 0
IsFirst ts s i = (get_elem? ts i ≡ some s) × ((j : ℕ) → j < i → get_elem? ts j ≢ some s)

-- The loop ends at the first entry that equals `s`, or at the end of a table without `s`.
abbrev pub Scans : ℕ → ℕ → List Text → Text → ℕ → Type 0
Scans fail index ts s r =
    ((i : ℕ) × (r ≡ index + i) × IsFirst ts s i)
    ⊎ ((r ≡ fail) × ((j : ℕ) → get_elem? ts j ≢ some s))

IsFirst-suc :
    (t s : Text) (ts : List Text) (i : ℕ)
    → text_eq s t ≡ false
    → IsFirst ts s i
    → (j : ℕ) → j < suc i
    → get_elem? (t ∷ ts) j ≢ some s
IsFirst-suc t s ts i h f zero lt e = ground (arith, text_eq_refl s)
IsFirst-suc t s ts i h f (suc j) lt e = f.1 j (omega arith) e

absent-cons :
    (t s : Text) (ts : List Text)
    → text_eq s t ≡ false
    → ((j : ℕ) → get_elem? ts j ≢ some s)
    → (j : ℕ) → get_elem? (t ∷ ts) j ≢ some s
absent-cons t s ts h f zero e = ground (arith, text_eq_refl s)
absent-cons t s ts h f (suc j) e = f j e

Scans-cons :
    (fail index : ℕ) (t s : Text) (ts : List Text) (r : ℕ)
    → text_eq s t ≡ false
    → Scans fail (suc index) ts s r
    → Scans fail index (t ∷ ts) s r
Scans-cons fail index t s ts r h (inl (i, e, f)) =
    inl (suc i, omega arith, (f.0, IsFirst-suc t s ts i h f))
Scans-cons fail index t s ts r h (inr (e, f)) = inr (e, absent-cons t s ts h f)

index_from-Scans :
    (fail index : ℕ) (ts : List Text) (s : Text)
    → Scans fail index ts s (index_from fail index ts s)
unfolding index_from
index_from-Scans fail index [] s = inr (refl, λ j e. cc)
index_from-Scans fail index (t ∷ ts) s = elim (Bool-cases (text_eq s t)) [
  | inl h ↦ rw h (inl (0, omega arith, (rw (text_eq_sound s t h), λ j lt. absurd (omega arith))))
  | inr h ↦ rw h (Scans-cons fail index t s ts _ h (index_from-Scans fail (suc index) ts s))
]

-- On any text, `getCurrencyBySymbol` returns the first index of the symbol table at which the text
-- stands, and INVALID exactly where it stands nowhere in the table.
pub get_currency_by_symbol-Scans :
    (b : Build) (s : Text) → Scans (invalid b) 0 (symbols b) s (get_currency_by_symbol b s)
unfolding get_currency_by_symbol
get_currency_by_symbol-Scans b s = index_from-Scans (invalid b) 0 (symbols b) s

-- On any text, `getCurrencyByName` returns the first index of the name table at which the text
-- stands, and INVALID exactly where it stands nowhere in the table.
pub get_currency_by_name-Scans :
    (b : Build) (s : Text) → Scans (invalid b) 0 (names b) s (get_currency_by_name b s)
unfolding get_currency_by_name
get_currency_by_name-Scans b s = index_from-Scans (invalid b) 0 (names b) s
