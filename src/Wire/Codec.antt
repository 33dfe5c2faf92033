-- ===== src/Wire/Codec.antt =====
-- Packets value by value: what a run of writers leaves in the memory, and what a run of readers makes of
-- it.
use zero_reserve.Base.{
  ℕ, ◌+◌, ◌≤◌, ◌≡◌, refl, Bool, true, List, [], ◌∷◌, Option, some, Text, length, All, arith, subst,
  ◌∙◌,
}
use zero_reserve.Wire.Raw.{
  Memory, Field, byte, word, text, size_of, size_of_all, Fits, Raw, IsRaw, Agree,
}
use zero_reserve.Wire.Fields.{
  Writer, put_field, put_fields, Reading, pure, kept, attempt, require, on_value, ◌>>=◌, at_end,
}
use zero_reserve.Wire.Serialiser.{read_byte, read_word, read_text, or_throw, read_tx, check_version}
use zero_reserve.Wire.Items.{Tx}

module _ (raw : Raw) (laws : IsRaw raw) where
  -- The values stand one behind the other from an offset on.
  abbrev pub StandAll : Memory → ℕ → List Field → Type 0
  StandAll m o [] = Unit
  StandAll m o (f ∷ fs) = laws.Stands m o f × StandAll m (o + size_of f) fs

  -- What put_fields did: it went well, and the values stand behind what was there before.
  pub record Puts (fs : List Field) (w w' : Writer) : Type 0 where
    pub is_good : w'.good ≡ true
    pub end_offset : w'.offset ≡ w.offset + size_of_all fs
    pub stand : StandAll w'.data_now w.offset fs
    pub before : Agree w.offset w.data_now w'.data_now

  put_field-Puts :
      (size : ℕ) (f : Field) (w : Writer)
      → w.good ≡ true
      → Fits f
      → w.offset + size_of f ≤ size
      → Puts (f ∷ []) w (put_field raw size f w)
  unfolding put_field
  put_field-Puts size f w g fit le = record {
    is_good = rw (g, laws.set_field_done size w.offset f w.data_now fit le) refl;
    end_offset = omega (arith, laws.set_field_at size w.offset f w.data_now fit le);
    stand = (laws.set_field-Stands size w.offset f w.data_now fit le, tt);
    before = laws.set_field-Agree size w.offset f w.data_now;
  }

  Puts-cons :
      (f : Field) (fs : List Field) (w w1 w2 : Writer)
      → Puts (f ∷ []) w w1
      → Puts fs w1 w2
      → Puts (f ∷ fs) w w2
  Puts-cons f fs w w1 w2 a b = record {
    is_good = b.is_good;
    end_offset = omega (arith, a.end_offset, b.end_offset);
    stand = (
      laws.Stands-Agree w1.data_now w2.data_now w.offset f a.stand.0
          (λ i lt. b.before i (omega (arith, a.end_offset))),
      subst (λ o. StandAll w2.data_now o fs) there b.stand,
    );
    before = λ i lt. b.before i (omega (arith, a.end_offset)) ∙ a.before i lt;
  }
    where
      there : w1.offset ≡ w.offset + size_of f
      there = omega (arith, a.end_offset)

  pub put_fields-Puts :
      (size : ℕ) (fs : List Field) (w : Writer)
      → w.good ≡ true
      → All Fits fs
      → w.offset + size_of_all fs ≤ size
      → Puts fs w (put_fields raw size fs w)
  unfolding put_fields
  put_fields-Puts size [] w g fit le = record {
    is_good = g;
    end_offset = omega arith;
    stand = tt;
    before = λ i lt. refl;
  }
  put_fields-Puts size (f ∷ fs) w g fit le =
      let a = put_field-Puts size f w g fit.0 (omega arith) in
      Puts-cons f fs w (put_field raw size f w) _ a (
        put_fields-Puts size fs (put_field raw size f w) a.is_good fit.1
          (omega (arith, a.end_offset)))

  -- A constructor that reads the values and ends at the end of the packet.
  pub record Ends {V : Type 0} (m : Memory) (p : Reading V) (fs : List Field) (v : V) : Type 0 where
    pub run : (o : ℕ) → StandAll m o fs → o + size_of_all fs ≡ raw.item_size m → (p o).0 ≡ some v

module _ {V : Type 0} {raw : Raw} {laws : IsRaw raw} {m : Memory} {v : V} {fs : List Field} where
  pub Ends-byte :
      {n : ℕ} (k : ℕ → Reading V)
      → Ends raw laws m (k n) fs v
      → Ends raw laws m (read_byte raw m >>= k) (byte n ∷ fs) v
  unfolding ◌>>=◌ on_value
  Ends-byte {n = n} k h = record {
    run = λ o s e.
        rw (laws.get_byte-Stands m (raw.item_size m) o n s.0 (omega arith))
          (h.run (o + 1) s.1 (omega arith));
  }

  pub Ends-word :
      {n : ℕ} (k : ℕ → Reading V)
      → Ends raw laws m (k n) fs v
      → Ends raw laws m (read_word raw m >>= k) (word n ∷ fs) v
  unfolding ◌>>=◌ on_value
  Ends-word {n = n} k h = record {
    run = λ o s e.
        rw (laws.get_word-Stands m (raw.item_size m) o n s.0 (omega arith))
          (h.run (o + 8) s.1 (omega arith));
  }

  pub Ends-text :
      {t : Text} (k : Text → Reading V)
      → Ends raw laws m (k t) fs v
      → Ends raw laws m (read_text raw m >>= k) (text t ∷ fs) v
  unfolding ◌>>=◌ on_value
  Ends-text {t = t} k h = record {
    run = λ o s e.
        rw (laws.get_text-Stands m (raw.item_size m) o t s.0 (omega arith))
          (h.run (o + (4 + length t)) s.1 (omega arith));
  }

  pub Ends-attempt_byte :
      {n : ℕ} (d : ℕ) (k : ℕ → Reading V)
      → Ends raw laws m (k n) fs v
      → Ends raw laws m (attempt d (read_byte raw m) >>= k) (byte n ∷ fs) v
  unfolding ◌>>=◌ on_value attempt kept
  Ends-attempt_byte {n = n} d k h = record {
    run = λ o s e.
        rw (laws.get_byte-Stands m (raw.item_size m) o n s.0 (omega arith))
          (h.run (o + 1) s.1 (omega arith));
  }

  pub Ends-attempt_text :
      {t : Text} (d : Text) (k : Text → Reading V)
      → Ends raw laws m (k t) fs v
      → Ends raw laws m (attempt d (read_text raw m) >>= k) (text t ∷ fs) v
  unfolding ◌>>=◌ on_value attempt kept
  Ends-attempt_text {t = t} d k h = record {
    run = λ o s e.
        rw (laws.get_text-Stands m (raw.item_size m) o t s.0 (omega arith))
          (h.run (o + (4 + length t)) s.1 (omega arith));
  }

  pub Ends-require :
      {b : Bool} {p : Reading V}
      → b ≡ true
      → Ends raw laws m p fs v
      → Ends raw laws m (require b p) fs v
  unfolding require
  Ends-require e h = record { run = λ o s f. rw e (h.run o s f) }

  pub Ends-or_throw :
      {W : Type 0} {r : Option W} {w : W} (k : W → Reading V)
      → r ≡ some w
      → Ends raw laws m (k w) fs v
      → Ends raw laws m (or_throw r >>= k) fs v
  unfolding ◌>>=◌ on_value or_throw
  Ends-or_throw k e h = record { run = λ o s f. rw e (h.run o s f) }

  pub Ends-read_tx :
      {t : Tx} (k : Tx → Reading V)
      → Ends raw laws m (k t) fs v
      → Ends raw laws m (read_tx raw m >>= k) (byte t.tx_phase ∷ text t.tx_id ∷ fs) v
  unfolding read_tx ◌>>=◌ on_value pure
  Ends-read_tx {t = t} k h = record {
    run = λ o s e. rw (laws.get_byte-Stands m (raw.item_size m) o t.tx_phase s.0 (omega arith)) (
        rw (laws.get_text-Stands m (raw.item_size m) (o + 1) t.tx_id s.1.0 (omega arith))
          (h.run (o + 1 + (4 + length t.tx_id)) s.1.1 (omega arith)));
  }

  pub Ends-check_version :
      (unset : ℕ) {p : Reading V}
      → Ends raw laws m p fs v
      → Ends raw laws m (check_version raw m unset p) (byte 0 ∷ fs) v
  unfolding check_version
  Ends-check_version unset e = Ends-attempt_byte unset _ (Ends-require refl e)

module _ {V : Type 0} {raw : Raw} {laws : IsRaw raw} {m : Memory} {v : V} where
  pub Ends-pure : Ends raw laws m (pure v) [] v
  unfolding pure
  Ends-pure = record { run = λ o s e. refl }

  pub Ends-at_end : Ends raw laws m (at_end (raw.item_size m) v) [] v
  unfolding at_end require pure
  Ends-at_end = record { run = λ o s e. ground arith }
