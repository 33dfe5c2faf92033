-- ===== src/Transactions/Split.antt =====
-- TransactionManager::split gives back the parts of a joined id.
use mathlib.Core.List.{append_assoc, append-nil}
use zero_reserve.Base.{
  ℕ, false, List, [], ◌∷◌, ◌++◌, ◌≡◌, refl, Text, is_empty, All, ◌==◌, arith, ap, sym, ◌∙◌,
}
use zero_reserve.Transactions.{getlines, split}

module _ (sep : ℕ) where
  -- The separator does not stand in a text.
  abbrev pub Free : Text → Type 0
  Free s = All (λ c. (c == sep) ≡ false) s

  -- Texts with the separator between them, the first apart.
  abbrev pub join : Text → List Text → Text
  join t [] = t
  join t (u ∷ us) = t ++ sep ∷ join u us

  abbrev pub last : Text → List Text → Text
  last t [] = t
  last t (u ∷ us) = last u us

  getlines-Free : (tok t s : Text) → Free t → getlines sep tok (t ++ s) ≡ getlines sep (tok ++ t) s
  unfolding getlines
  getlines-Free tok [] s f = rw (append-nil tok) refl
  getlines-Free tok (c ∷ t) s f =
      rw (f.0, getlines-Free (tok ++ c ∷ []) t s f.1, append_assoc tok (c ∷ []) t) refl

  at_end : (t : Text) → is_empty t ≡ false → getlines sep t [] ≡ t ∷ []
  unfolding getlines
  at_end t e = rw e refl

  at_separator : (t s : Text) → getlines sep t (sep ∷ s) ≡ t ∷ getlines sep [] s
  unfolding getlines
  at_separator t s = ground arith

  -- split of parts that were joined by the separator gives the parts, where none of them contains the
  -- separator and the last is not empty.
  pub split-join :
      (t : Text) (ts : List Text)
      → Free t
      → All Free ts
      → is_empty (last t ts) ≡ false
      → split sep (join t ts) ≡ t ∷ ts
  unfolding split
  split-join t [] f fs e =
      ap (getlines sep []) (sym (append-nil t)) ∙ getlines-Free [] t [] f ∙ at_end t e
  split-join t (u ∷ us) f fs e =
      getlines-Free [] t (sep ∷ join u us) f
      ∙ at_separator t (join u us)
      ∙ ap (λ (ls : List Text). t ∷ ls) (split-join u us fs.0 fs.1 e)
