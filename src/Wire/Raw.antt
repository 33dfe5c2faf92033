-- ===== src/Wire/Raw.antt =====
-- RetroShare's rsbaseserial and RsItem, which are not part of the repository: what the items of
-- RSZeroReserveItems.cpp and RSZRRemoteItems.cpp call to write and to read packets, as an interface, and
-- the behaviour that they rely on.
use zero_reserve.Base.{ℕ, ◌+◌, ◌≤◌, ◌<◌, ◌≡◌, Bool, true, List, [], ◌∷◌, Option, some, Text, length}

-- The memory of a packet, from its first byte.
abbrev pub Memory : Type 0
Memory = ℕ → ℕ

-- One value of a packet and the function that writes it: setRawUInt8, setRawUInt64, setRawString.
pub data Field : Type 0 where
  byte : ℕ → Field
  word : ℕ → Field
  text : Text → Field

-- The bytes that a value takes; a text stands behind its length.
abbrev pub size_of : Field → ℕ
size_of (byte n) = 1
size_of (word n) = 8
size_of (text s) = 4 + length s

abbrev pub size_of_all : List Field → ℕ
size_of_all [] = 0
size_of_all (f ∷ fs) = size_of f + size_of_all fs

-- The value is one of the type that is written: uint8_t, uint64_t, a string with a length of 32 bits.
abbrev pub Fits : Field → Type 0
Fits (byte n) = n < 256
Fits (word n) = n < 18446744073709551616
Fits (text s) = length s < 4294967296

-- What a function that writes returns, and what `offset` and the memory are after it.
pub record Written : Type 0 where
  pub done : Bool
  pub at : ℕ
  pub memory : Memory

-- The writers take the size and the offset, the readers return no value where they fail. `item_id`,
-- `item_size`, `version`, `service` and `subtype` are getRsItemId and so on, `packet_id` is the id that
-- the constructor of RsItem makes of version, service and subtype, and `set_header` is
-- setRsItemHeader.
pub record Raw : Type 0 where
  pub set_header : ℕ → ℕ → Memory → Bool × Memory
  pub set_field : ℕ → ℕ → Field → Memory → Written
  pub get_byte : Memory → ℕ → ℕ → Option ℕ × ℕ
  pub get_word : Memory → ℕ → ℕ → Option ℕ × ℕ
  pub get_text : Memory → ℕ → ℕ → Option Text × ℕ
  pub item_id : Memory → ℕ
  pub item_size : Memory → ℕ
  pub version : ℕ → ℕ
  pub service : ℕ → ℕ
  pub subtype : ℕ → ℕ
  pub packet_id : ℕ → ℕ → ℕ → ℕ
  pub version_service : ℕ

-- The two memories agree below an offset.
abbrev pub Agree : ℕ → Memory → Memory → Type 0
Agree o m m' = (i : ℕ) → i < o → m' i ≡ m i

-- The header takes eight bytes. A value that fits is written behind what was written before, and is
-- read where it stands. `Stands m o f` says that the memory has the value at the offset.
pub record IsRaw (raw : Raw) : Type 1 where
  pub Stands : Memory → ℕ → Field → Type 0
  pub Stands-Agree :
      (m m' : Memory) (o : ℕ) (f : Field)
      → Stands m o f
      → Agree (o + size_of f) m m'
      → Stands m' o f
  pub set_field_done :
      (size o : ℕ) (f : Field) (m : Memory)
      → Fits f
      → o + size_of f ≤ size
      → (raw.set_field size o f m).done ≡ true
  pub set_field_at :
      (size o : ℕ) (f : Field) (m : Memory)
      → Fits f
      → o + size_of f ≤ size
      → (raw.set_field size o f m).at ≡ o + size_of f
  pub set_field-Stands :
      (size o : ℕ) (f : Field) (m : Memory)
      → Fits f
      → o + size_of f ≤ size
      → Stands (raw.set_field size o f m).memory o f
  pub set_field-Agree :
      (size o : ℕ) (f : Field) (m : Memory) → Agree o m (raw.set_field size o f m).memory
  pub get_byte-Stands :
      (m : Memory) (size o n : ℕ)
      → Stands m o (byte n)
      → o + 1 ≤ size
      → raw.get_byte m size o ≡ (some n, o + 1)
  pub get_word-Stands :
      (m : Memory) (size o n : ℕ)
      → Stands m o (word n)
      → o + 8 ≤ size
      → raw.get_word m size o ≡ (some n, o + 8)
  pub get_text-Stands :
      (m : Memory) (size o : ℕ) (s : Text)
      → Stands m o (text s)
      → o + (4 + length s) ≤ size
      → raw.get_text m size o ≡ (some s, o + (4 + length s))
  pub set_header_done : (size id : ℕ) (m : Memory) → 8 ≤ size → (raw.set_header size id m).0 ≡ true
  pub set_header-item_id :
      (size id : ℕ) (m m' : Memory)
      → 8 ≤ size
      → size < 4294967296
      → Agree 8 (raw.set_header size id m).1 m'
      → raw.item_id m' ≡ id
  pub set_header-item_size :
      (size id : ℕ) (m m' : Memory)
      → 8 ≤ size
      → size < 4294967296
      → Agree 8 (raw.set_header size id m).1 m'
      → raw.item_size m' ≡ size
  pub packet_id-version :
      (v s t : ℕ) → v < 256 → s < 65536 → t < 256 → raw.version (raw.packet_id v s t) ≡ v
  pub packet_id-service :
      (v s t : ℕ) → v < 256 → s < 65536 → t < 256 → raw.service (raw.packet_id v s t) ≡ s
  pub packet_id-subtype :
      (v s t : ℕ) → v < 256 → s < 65536 → t < 256 → raw.subtype (raw.packet_id v s t) ≡ t
  pub version_service_byte : raw.version_service < 256
