-- ===== src/Wire/Cells.antt =====
-- Functions for reading and writing packets that keep each value in one cell of the memory, and a text
-- behind its length: they meet what is asked of RetroShare's.
use zero_reserve.Base.{
  ℕ, zero, suc, ◌+◌, ◌*◌, ◌/◌, ◌%◌, ◌≤◌, ◌<◌, ◌≡◌, refl, true, false, List, [], ◌∷◌, none, some,
  Text, length, arith, leb, ◌==◌, if◌then◌else◌, inl, inr, ◌∙◌, ap₂, Bool-cases, subst, sym,
}
use zero_reserve.Wire.Raw.{Memory, Field, byte, word, text, size_of, Raw, IsRaw, Agree}

unfoldable put_cell : ℕ → ℕ → Memory → Memory
put_cell o v m i = if i == o then v else m i

unfoldable put_list : ℕ → List ℕ → Memory → Memory
unfolding put_cell
put_list o [] m = m
put_list o (x ∷ xs) m = put_cell o x (put_list (suc o) xs m)

unfoldable get_list : Memory → ℕ → ℕ → List ℕ
get_list m o zero = []
get_list m o (suc n) = m o ∷ get_list m (suc o) n

unfoldable put_value : ℕ → Field → Memory → Memory
unfolding put_cell put_list
put_value o (byte n) m = put_cell o n m
put_value o (word n) m = put_cell o n m
put_value o (text s) m = put_cell o (length s) (put_list (o + 4) s m)

unfoldable pub cells : Raw
unfolding put_cell put_value get_list
cells = record {
  set_header = λ size id m. (leb 8 size, put_cell 4 size (put_cell 0 id m));
  set_field = λ size o f m.
      if leb (o + size_of f) size
      then record { done = true; at = o + size_of f; memory = put_value o f m }
      else record { done = false; at = o; memory = m };
  get_byte = λ m size o. if leb (o + 1) size then (some (m o), o + 1) else (none, o);
  get_word = λ m size o. if leb (o + 8) size then (some (m o), o + 8) else (none, o);
  get_text = λ m size o.
      if leb (o + (4 + m o)) size
      then (some (get_list m (o + 4) (m o)), o + (4 + m o))
      else (none, o);
  item_id = λ m. m 0;
  item_size = λ m. m 4;
  version = λ i. i / 16777216;
  service = λ i. i / 256 % 65536;
  subtype = λ i. i % 256;
  packet_id = λ v s t. v * 16777216 + s * 256 + t;
  version_service = 2;
}

abbrev Holds : Memory → ℕ → Field → Type 0
Holds m o (byte n) = m o ≡ n
Holds m o (word n) = m o ≡ n
Holds m o (text s) = (m o ≡ length s) × (get_list m (o + 4) (length s) ≡ s)

put_cell_here : (o v : ℕ) (m : Memory) → put_cell o v m o ≡ v
unfolding put_cell
put_cell_here o v m = ground arith

put_cell_other : (o v : ℕ) (m : Memory) (i : ℕ) → i < o → put_cell o v m i ≡ m i
unfolding put_cell
put_cell_other o v m i h = ground arith

put_cell_above : (o v : ℕ) (m : Memory) (i : ℕ) → o < i → put_cell o v m i ≡ m i
unfolding put_cell
put_cell_above o v m i h = ground arith

put_list_below : (o : ℕ) (xs : List ℕ) (m : Memory) (i : ℕ) → i < o → put_list o xs m i ≡ m i
unfolding put_list
put_list_below o [] m i h = refl
put_list_below o (x ∷ xs) m i h =
    put_cell_other o x (put_list (suc o) xs m) i h ∙ put_list_below (suc o) xs m i (omega arith)

get_list_same :
    (m m' : Memory) (o n : ℕ)
    → ((i : ℕ) → o ≤ i → i < o + n → m' i ≡ m i)
    → get_list m' o n ≡ get_list m o n
unfolding get_list
get_list_same m m' o zero h = refl
get_list_same m m' o (suc n) h =
    ap₂ (λ x xs. x ∷ xs) (h o (omega arith) (omega arith))
      (get_list_same m m' (suc o) n (λ i a b. h i (omega arith) (omega arith)))

get_list-put_list :
    (o : ℕ) (xs : List ℕ) (m : Memory) → get_list (put_list o xs m) o (length xs) ≡ xs
unfolding get_list put_list
get_list-put_list o [] m = refl
get_list-put_list o (x ∷ xs) m =
    ap₂ (λ y ys. y ∷ ys) (put_cell_here o x (put_list (suc o) xs m))
      (get_list_same (put_list (suc o) xs m) (put_list o (x ∷ xs) m) (suc o) (length xs)
          (λ i a b. put_cell_above o x (put_list (suc o) xs m) i (omega arith))
        ∙ get_list-put_list (suc o) xs m)

put_value-Holds : (o : ℕ) (f : Field) (m : Memory) → Holds (put_value o f m) o f
unfolding put_value
put_value-Holds o (byte n) m = put_cell_here o n m
put_value-Holds o (word n) m = put_cell_here o n m
put_value-Holds o (text s) m = (
  put_cell_here o (length s) (put_list (o + 4) s m),
  get_list_same (put_list (o + 4) s m) (put_value o (text s) m) (o + 4) (length s)
        (λ i a b. put_cell_above o (length s) (put_list (o + 4) s m) i (omega arith))
      ∙ get_list-put_list (o + 4) s m,
)

put_value_below : (o : ℕ) (f : Field) (m : Memory) (i : ℕ) → i < o → put_value o f m i ≡ m i
unfolding put_value
put_value_below o (byte n) m i h = put_cell_other o n m i h
put_value_below o (word n) m i h = put_cell_other o n m i h
put_value_below o (text s) m i h =
    put_cell_other o (length s) (put_list (o + 4) s m) i h
    ∙ put_list_below (o + 4) s m i (omega arith)

Holds-Agree :
    (m m' : Memory) (o : ℕ) (f : Field) → Holds m o f → Agree (o + size_of f) m m' → Holds m' o f
Holds-Agree m m' o (byte n) h a = a o (omega arith) ∙ h
Holds-Agree m m' o (word n) h a = a o (omega arith) ∙ h
Holds-Agree m m' o (text s) h a = (
  a o (omega arith) ∙ h.0,
  get_list_same m m' (o + 4) (length s) (λ i b c. a i (omega arith)) ∙ h.1,
)

leb-true : (a b : ℕ) → a ≤ b → leb a b ≡ true
leb-true a b h = ground arith

module _ (size o : ℕ) (f : Field) (m : Memory) where
  cells_done : o + size_of f ≤ size → (cells.set_field size o f m).done ≡ true
  unfolding cells
  cells_done h = ground arith

  cells_at : o + size_of f ≤ size → (cells.set_field size o f m).at ≡ o + size_of f
  unfolding cells
  cells_at h = ground arith

  cells_memory : o + size_of f ≤ size → (cells.set_field size o f m).memory ≡ put_value o f m
  unfolding cells
  cells_memory h = rw (leb-true (o + size_of f) size h) refl

  cells_below : Agree o m (cells.set_field size o f m).memory
  unfolding cells
  cells_below i h = elim (Bool-cases (leb (o + size_of f) size)) [
    | inl e ↦ rw e (put_value_below o f m i h)
    | inr e ↦ rw e refl
  ]

cells_byte :
    (m : Memory) (size o n : ℕ)
    → Holds m o (byte n)
    → o + 1 ≤ size
    → cells.get_byte m size o ≡ (some n, o + 1)
unfolding cells
cells_byte m size o n h le = rw (leb-true (o + 1) size le, h) refl

cells_word :
    (m : Memory) (size o n : ℕ)
    → Holds m o (word n)
    → o + 8 ≤ size
    → cells.get_word m size o ≡ (some n, o + 8)
unfolding cells
cells_word m size o n h le = rw (leb-true (o + 8) size le, h) refl

cells_text :
    (m : Memory) (size o : ℕ) (s : Text)
    → Holds m o (text s)
    → o + (4 + length s) ≤ size
    → cells.get_text m size o ≡ (some s, o + (4 + length s))
unfolding cells
cells_text m size o s h le = rw (h.0, leb-true (o + (4 + length s)) size le, h.1) refl

cells_header_done : (size id : ℕ) (m : Memory) → 8 ≤ size → (cells.set_header size id m).0 ≡ true
unfolding cells
cells_header_done size id m h = leb-true 8 size h

cells_item_id :
    (size id : ℕ) (m m' : Memory)
    → 8 ≤ size
    → size < 4294967296
    → Agree 8 (cells.set_header size id m).1 m'
    → cells.item_id m' ≡ id
unfolding cells put_cell
cells_item_id size id m m' le lt a = a 0 (omega arith)

cells_item_size :
    (size id : ℕ) (m m' : Memory)
    → 8 ≤ size
    → size < 4294967296
    → Agree 8 (cells.set_header size id m).1 m'
    → cells.item_size m' ≡ size
unfolding cells put_cell
cells_item_size size id m m' le lt a = a 4 (omega arith)

cells_version :
    (v s t : ℕ) → v < 256 → s < 65536 → t < 256 → cells.version (cells.packet_id v s t) ≡ v
unfolding cells
cells_version v s t a b c = omega arith

cells_service :
    (v s t : ℕ) → v < 256 → s < 65536 → t < 256 → cells.service (cells.packet_id v s t) ≡ s
unfolding cells
cells_service v s t a b c = omega arith

cells_subtype :
    (v s t : ℕ) → v < 256 → s < 65536 → t < 256 → cells.subtype (cells.packet_id v s t) ≡ t
unfolding cells
cells_subtype v s t a b c = omega arith

cells_version_byte : cells.version_service < 256
unfolding cells
cells_version_byte = omega arith

pub cells-IsRaw : IsRaw cells
cells-IsRaw = record {
  Stands = Holds;
  Stands-Agree = Holds-Agree;
  set_field_done = λ size o f m fit h. cells_done size o f m h;
  set_field_at = λ size o f m fit h. cells_at size o f m h;
  set_field-Stands = λ size o f m fit h.
      subst (λ n. Holds n o f) (sym (cells_memory size o f m h)) (put_value-Holds o f m);
  set_field-Agree = cells_below;
  get_byte-Stands = cells_byte;
  get_word-Stands = cells_word;
  get_text-Stands = cells_text;
  set_header_done = cells_header_done;
  set_header-item_id = cells_item_id;
  set_header-item_size = cells_item_size;
  packet_id-version = cells_version;
  packet_id-service = cells_service;
  packet_id-subtype = cells_subtype;
  version_service_byte = cells_version_byte;
}
