-- ===== src/Wire/Rejects.antt =====
-- RSZeroReserveItems.cpp, RSZRRemoteItems.cpp: what deserialise asks of a packet, whatever RetroShare's
-- functions return.
use zero_reserve.Base.{
  ℕ, zero, suc, ◌≤◌, ◌≡◌, refl, Bool, true, false, Option, none, some, arith, ◌==◌, ◌&&◌, not, ltb,
  Bool-cases, if◌then◌else◌, inl, inr, Text, subst,
}
use zero_reserve.Currency.{Build}
use zero_reserve.Number.{Number}
use zero_reserve.Wire.Raw.{Memory, Raw}
use zero_reserve.Wire.Fields.{Reading, pure, attempt, require, on_value, ◌>>=◌, at_end}
use zero_reserve.Wire.Items.{Tx, Item, Spelling, subtype_of, service_type, protocol_version}
use zero_reserve.Wire.Serialiser.{
  check_version, check_packet, read_item, deserialise, read_byte, read_word, or_throw, read_tx,
  read_order, read_tx_item, read_init_tx, read_credit, read_msg, read_remote_tx, read_text,
}

-- Whatever the constructor makes has the property.
record Makes {V : Type 0} (p : Reading V) (P : V → Type 0) : Type 0 where
  run : (o : ℕ) (v : V) → (p o).0 ≡ some v → P v

of_some : {A : Type 0} {x y : A} → some x ≡ some y → x ≡ y
of_some e = cc

same_number : (a b : ℕ) → (a == b) ≡ true → b ≡ a
same_number a b h = ground arith

both_same : (a b c d : ℕ) → ((a == b) && (c == d)) ≡ true → (a ≡ b) × (c ≡ d)
both_same a b c d h = (ground arith, ground arith)

if_some :
    {A : Type 0} {x : A} (b : Bool) (o : Option A)
    → (if b then o else none) ≡ some x
    → (b ≡ true) × (o ≡ some x)
if_some true o e = (refl, e)
if_some false o e = cc

module _ {V W : Type 0} {P : V → Type 0} (k : W → Reading V) (h : (w : W) → Makes (k w) P) where
  on_value-makes : (r : Option W × ℕ) (v : V) → (on_value r k).0 ≡ some v → P v
  unfolding on_value
  on_value-makes (none, o) v e = cc
  on_value-makes (some w, o) v e = (h w).run o v e

module _ {V : Type 0} {P : V → Type 0} where
  Makes-bind :
      {W : Type 0} (q : Reading W) (k : W → Reading V)
      → ((w : W) → Makes (k w) P)
      → Makes (q >>= k) P
  unfolding ◌>>=◌
  Makes-bind q k h = record { run = λ o v e. on_value-makes k h (q o) v e }

  Makes-require : (b : Bool) {p : Reading V} → (b ≡ true → Makes p P) → Makes (require b p) P
  unfolding require
  Makes-require true h = h refl
  Makes-require false h = record { run = λ o v e. cc }

  Makes-or_throw :
      {W : Type 0} (r : Option W) (k : W → Reading V)
      → ((w : W) → Makes (k w) P)
      → Makes (or_throw r >>= k) P
  Makes-or_throw r k h = Makes-bind (or_throw r) k h

  Makes-pure : (v : V) → P v → Makes (pure v) P
  unfolding pure
  Makes-pure v h = record { run = λ o w e. subst P (of_some e) h }

  Makes-at_end : (size : ℕ) (v : V) → P v → Makes (at_end size v) P
  unfolding at_end
  Makes-at_end size v h = record {
    run = λ o w e. (Makes-require (o == size) (λ t. Makes-pure v h)).run o w e;
  }

  Makes-check_packet :
      (raw : Raw) (m : Memory) (pktsize t : ℕ) {p : Reading V}
      → (raw.item_size m ≤ pktsize → Makes p P)
      → Makes (check_packet raw m pktsize t p) P
  unfolding check_packet
  Makes-check_packet raw m pktsize t h =
      Makes-require _ (λ a. Makes-require _ (λ b. h (ground arith)))

  version_checked :
      {p : Reading V}
      → Makes p P
      → (r : Option ℕ × ℕ) (v : V)
      → (on_value r (λ w. require (w == protocol_version) p)).0 ≡ some v
      → (r.0 ≡ some protocol_version) × P v
  unfolding on_value require
  version_checked {p = p} h (none, o) v e = cc
  version_checked {p = p} h (some zero, o) v e = (refl, h.run o v e)
  version_checked {p = p} h (some (suc w), o) v e = ground arith

  Makes-check_version :
      (raw : Raw) (m : Memory) (unset : ℕ) {p : Reading V}
      → Makes p P
      → (o : ℕ) (v : V) → (check_version raw m unset p o).0 ≡ some v
      → ((attempt unset (read_byte raw m) o).0 ≡ some protocol_version) × P v
  unfolding check_version ◌>>=◌
  Makes-check_version raw m unset {p = p} h o v e =
      version_checked h (attempt unset (read_byte raw m) o) v e

whole_if : (a b : ℕ) → not (ltb a b) ≡ true → b ≤ a
whole_if a b h = ground arith

module _ {V : Type 0} {P : V → Type 0} (raw : Raw) (m : Memory) where
  Makes-byte : (k : ℕ → Reading V) → ((w : ℕ) → Makes (k w) P) → Makes (read_byte raw m >>= k) P
  Makes-byte k h = Makes-bind (read_byte raw m) k h

  Makes-text :
      (k : Text → Reading V) → ((w : Text) → Makes (k w) P) → Makes (read_text raw m >>= k) P
  Makes-text k h = Makes-bind (read_text raw m) k h

  Makes-word : (k : ℕ → Reading V) → ((w : ℕ) → Makes (k w) P) → Makes (read_word raw m >>= k) P
  Makes-word k h = Makes-bind (read_word raw m) k h

  Makes-read_tx : (k : Tx → Reading V) → ((w : Tx) → Makes (k w) P) → Makes (read_tx raw m >>= k) P
  Makes-read_tx k h = Makes-bind (read_tx raw m) k h

  Makes-attempt_byte :
      (d : ℕ) (k : ℕ → Reading V)
      → ((w : ℕ) → Makes (k w) P)
      → Makes (attempt d (read_byte raw m) >>= k) P
  Makes-attempt_byte d k h = Makes-bind (attempt d (read_byte raw m)) k h

  Makes-attempt_text :
      (d : Text) (k : Text → Reading V)
      → ((w : Text) → Makes (k w) P)
      → Makes (attempt d (read_text raw m) >>= k) P
  Makes-attempt_text d k h = Makes-bind (attempt d (read_text raw m)) k h

module _ {N : Type 0} ⦃num : Number N⦄ (build : Build) (sp : Spelling N) (raw : Raw) (m : Memory)
    (pktsize unset : ℕ) where
  -- The packet is whole and the item is of a class.
  abbrev IsWhole : ℕ → Item N → Type 0
  IsWhole t i = (raw.item_size m ≤ pktsize) × (subtype_of i ≡ t)

  -- The version byte is that of the program and the item is as above.
  record IsRead (t : ℕ) (p : Reading (Item N)) : Type 0 where
    is_read :
        (i : Item N)
        → (p 8).0 ≡ some i
        → ((attempt unset (read_byte raw m) 8).0 ≡ some protocol_version) × IsWhole t i

  IsRead-check_version :
      {t : ℕ} {p : Reading (Item N)} → Makes p (IsWhole t) → IsRead t (check_version raw m unset p)
  IsRead-check_version h = record { is_read = Makes-check_version raw m unset h 8 }

  read_msg-IsRead : IsRead 5 (read_msg build sp raw m pktsize unset)
  unfolding read_msg
  read_msg-IsRead = IsRead-check_version (
      Makes-check_packet raw m pktsize 5
        (λ le. Makes-byte raw m _ (λ c. Makes-text raw m _ (λ b. Makes-at_end _ _ (le, refl)))))

  read_credit-IsRead : IsRead 4 (read_credit build sp raw m pktsize unset)
  unfolding read_credit
  read_credit-IsRead = IsRead-check_version (
      Makes-check_packet raw m pktsize 4 (λ le. Makes-text raw m _ (λ f. Makes-or_throw _ _ (λ e.
        Makes-text raw m _
          (λ d. Makes-text raw m _ (λ c. Makes-text raw m _ (λ b. Makes-at_end _ _ (le, refl))))))))

  read_tx_item-IsRead : IsRead 2 (read_tx_item build sp raw m pktsize unset)
  unfolding read_tx_item
  read_tx_item-IsRead = IsRead-check_version (
      Makes-check_packet raw m pktsize 2
        (λ le. Makes-read_tx raw m _ (λ b. Makes-pure _ (le, refl))))

  read_init_tx-IsRead : IsRead 3 (read_init_tx build sp raw m pktsize unset)
  unfolding read_init_tx
  read_init_tx-IsRead = IsRead-check_version (
      Makes-read_tx raw m _ (λ b. Makes-check_packet raw m pktsize 3 (λ le. Makes-byte raw m _ (λ g.
        Makes-text raw m _ (λ f. Makes-text raw m _ (λ e.
          Makes-byte raw m _
            (λ d. Makes-text raw m _ (λ c. Makes-or_throw _ _ (λ b. Makes-pure _ (le, refl))))))))))

  read_order-IsRead : IsRead 1 (read_order build sp raw m pktsize unset)
  unfolding read_order
  read_order-IsRead = IsRead-check_version (
      Makes-attempt_text raw m _ _ (λ b. Makes-check_packet raw m pktsize 1 (λ le.
        Makes-text raw m _ (λ h. Makes-text raw m _ (λ g. Makes-byte raw m _ (λ f.
          Makes-text raw m _ (λ e. Makes-word raw m _ (λ d.
            Makes-text raw m _ (λ c. Makes-byte raw m _ (λ b. Makes-at_end _ _ (le, refl)))))))))))

  read_remote_tx-IsRead : IsRead 7 (read_remote_tx build sp raw m pktsize unset)
  unfolding read_remote_tx
  read_remote_tx-IsRead = IsRead-check_version (
      Makes-attempt_text raw m _ _ (λ b. Makes-require _ (λ u. Makes-require _ (λ w.
        let le = whole_if pktsize (raw.item_size m) w in
        Makes-attempt_byte raw m _ _ (λ e. Makes-attempt_byte raw m _ _ (λ d.
          Makes-attempt_text raw m _ _
            (λ c. Makes-attempt_text raw m _ _ (λ b. Makes-pure _ (le, refl)))))))))

  nothing-IsRead : (t : ℕ) → IsRead t (or_throw none)
  unfolding or_throw
  nothing-IsRead t = record { is_read = λ i e. cc }

  IsRead-choice :
      (t k : ℕ) {p q : Reading (Item N)}
      → IsRead k p
      → IsRead t q
      → IsRead t (if t == k then p else q)
  IsRead-choice t k {p = p} {q = q} a b = elim (Bool-cases (t == k)) [
    | inl h ↦ rw h (subst (λ n. IsRead n p) (same_number t k h) a)
    | inr h ↦ rw h b
  ]

  read_item-IsRead : (t : ℕ) → IsRead t (read_item build sp raw m pktsize unset t)
  unfolding read_item
  read_item-IsRead t = IsRead-choice t 1 read_order-IsRead (
      IsRead-choice t 2 read_tx_item-IsRead (
        IsRead-choice t 3 read_init_tx-IsRead (
          IsRead-choice t 4 read_credit-IsRead (
            IsRead-choice t 5 read_msg-IsRead
              (IsRead-choice t 7 read_remote_tx-IsRead (nothing-IsRead t))))))

-- Whatever RetroShare's functions return, and whatever an unset variable holds: where deserialise makes
-- an item, the packet has the version and the service of the program, the version byte that is read is
-- the program's, the packet is not shorter than its header says, and the item is of the class of the
-- header's subtype. In all other cases it returns the null pointer.
pub deserialise-checks :
    {N : Type 0} ⦃num : Number N⦄ (build : Build) (sp : Spelling N) (raw : Raw) (m : Memory)
    (pktsize unset : ℕ) (i : Item N)
    → deserialise build sp raw m pktsize unset ≡ some i
    → (raw.version (raw.item_id m) ≡ raw.version_service)
      × (raw.service (raw.item_id m) ≡ service_type)
      × ((attempt unset (read_byte raw m) 8).0 ≡ some protocol_version)
      × (raw.item_size m ≤ pktsize)
      × (subtype_of i ≡ raw.subtype (raw.item_id m))
unfolding deserialise
deserialise-checks build sp raw m pktsize unset i e =
    let (h, r) = if_some _ _ e in
    let (v, s) = both_same _ _ _ _ h in
    let (b, w) =
      (read_item-IsRead build sp raw m pktsize unset (raw.subtype (raw.item_id m))).is_read i r in
    (v, s, b, w.0, w.1)
