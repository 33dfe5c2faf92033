-- ===== src/Wire/Fields.antt =====
-- RSZeroReserveItems.cpp, RSZRRemoteItems.cpp: how the methods serialise and the constructors from data
-- go from one value of a packet to the next. `m_Offset` and `ok` are the state.
use zero_reserve.Base.{ℕ, Bool, List, [], ◌∷◌, Option, none, some, ◌&&◌, ◌==◌, if◌then◌else◌}
use zero_reserve.Wire.Raw.{Memory, Field, Raw}

-- `ok`, `m_Offset` and the data while an item is written.
pub record Writer : Type 0 where
  pub good : Bool
  pub offset : ℕ
  pub data_now : Memory

-- `ok &= setRaw...( data, tlvsize, &m_Offset, ... )`
unfoldable pub put_field : Raw → ℕ → Field → Writer → Writer
put_field raw size f w =
    let r = raw.set_field size w.offset f w.data_now in
    record { good = w.good && r.done; offset = r.at; data_now = r.memory }

unfoldable pub put_fields : Raw → ℕ → List Field → Writer → Writer
unfolding put_field
put_fields raw size [] w = w
put_fields raw size (f ∷ fs) w = put_fields raw size fs (put_field raw size f w)

-- A constructor from data at the value of `m_Offset` that it starts with: what it makes, or nothing
-- where it throws, and the value of `m_Offset` after it.
abbrev pub Reading : Type 0 → Type 0
Reading V = ℕ → Option V × ℕ

module _ {V : Type 0} where
  unfoldable pub pure : V → Reading V
  pure v o = (some v, o)

  unfoldable pub kept : V → Option V × ℕ → Option V × ℕ
  kept d (none, o) = (some d, o)
  kept d (some v, o) = (some v, o)

  -- The value that a variable holds after a call that may fail, with the one that it held before.
  unfoldable pub attempt : V → Reading V → Reading V
  unfolding kept
  attempt d p o = kept d (p o)

  -- An exception unless the condition holds.
  unfoldable pub require : Bool → Reading V → Reading V
  require b p o = if b then p o else (none, o)

module _ {V W : Type 0} where
  infixl 5 ◌>>=◌
  unfoldable pub on_value : Option V × ℕ → (V → Reading W) → Option W × ℕ
  on_value (none, o) k = (none, o)
  on_value (some v, o) k = k v o

  unfoldable pub ◌>>=◌ : Reading V → (V → Reading W) → Reading W
  unfolding on_value
  (p >>= k) o = on_value (p o) k

-- `m_Offset != rssize`
unfoldable pub at_end : {V : Type 0} → ℕ → V → Reading V
unfolding pure require
at_end size v o = require (o == size) (pure v) o
