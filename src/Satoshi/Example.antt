-- ===== src/Satoshi/Example.antt =====
-- A server with one output of 10 at the address A, for the tests.
use zero_reserve.Base.{Text, ℕ, suc, codes, List, [], ◌∷◌, true, some, none, if◌then◌else◌, text_eq}
use zero_reserve.Base.Int.{ℤ, pos}
use zero_reserve.Satoshi.{Doubles, Rpc, Unspent}

abbrev pub doubles : Doubles ℤ ℤ
doubles = record {
  zero_double = pos 0;
  to_double = λ x. x;
  from_double = λ x. x;
  truncated = λ x. x;
}

abbrev pub outputs_at : Text → List (Unspent ℤ)
outputs_at a =
    if text_eq a (codes "A")
    then record { txid = codes "t0"; vout = 1; unspent_amount = pos 10 } ∷ []
    else []

-- The state counts the calls.
abbrev pub server : Rpc ℤ ℕ
server = record {
  get_info = λ n. (
    some (record { on_testnet = true; info_balance = pos 10; version = 8; connections = 3 }),
    suc n,
  );
  get_new_address = λ n. (some (codes "B"), suc n);
  list_address_groupings = λ n. (some (((codes "A", pos 10) ∷ []) ∷ []), suc n);
  send_to_address = λ a d n. (some (codes "t1"), suc n);
  list_unspent = λ a n. (some (outputs_at a), suc n);
  create_raw_transaction = λ t i dest n. (some (codes "raw"), suc n);
  sign_raw_transaction =
      λ t n. (some (record { complete = some true; signed_hex = codes "hex" }), suc n);
  decode_raw_transaction = λ t n. (some (codes "t2"), suc n);
  lock_unspent = λ b t i n. (some true, suc n);
  send_raw_transaction = λ t n. (none, suc n);
  validate_address = λ a n. (some (codes "key"), suc n);
  get_raw_transaction = λ t n. (some 6, suc n);
}
