-- ===== src/Remote/Terms.antt =====
-- TmContract.cpp: the payloads of the items, parts with colons between them.
use zero_reserve.Base.{ℕ, List, [], ◌∷◌, Option, none, some, Text}
use zero_reserve.Transactions.{split}
use zero_reserve.Transactions.Split.{join}
use zero_reserve.Wire.Items.{Spelling}

-- What a QUERY says of the trade.
pub record Terms (N : Type 0) : Type 0 where
  pub fiat : N
  pub symbol : Text
  pub destination : Text
  pub btc : N
  pub fee : N

-- What a vote says: the amount of Bitcoins and the id of their transaction.
pub record Vote (N : Type 0) : Type 0 where
  pub voted : N
  pub voted_id : Text

abbrev pub colon : ℕ
colon = 58

module _ {N : Type 0} where
  -- `v_payload.size() < 5` is refused, and what is behind the fifth part is not read.
  unfoldable pub five_parts : Spelling N → List Text → Option (Terms N)
  five_parts sp (a ∷ b ∷ c ∷ d ∷ e ∷ rest) = some (record {
    fiat = sp.from_text a;
    symbol = b;
    destination = c;
    btc = sp.from_text d;
    fee = sp.from_text e;
  })
  five_parts sp (a ∷ b ∷ c ∷ d ∷ []) = none
  five_parts sp (a ∷ b ∷ c ∷ []) = none
  five_parts sp (a ∷ b ∷ []) = none
  five_parts sp (a ∷ []) = none
  five_parts sp [] = none

  -- `v_payload.size() != 2` is refused.
  unfoldable pub two_parts : Spelling N → List Text → Option (Vote N)
  two_parts sp (a ∷ b ∷ []) = some (record { voted = sp.from_text a; voted_id = b })
  two_parts sp (a ∷ b ∷ c ∷ rest) = none
  two_parts sp (a ∷ []) = none
  two_parts sp [] = none

  unfoldable pub read_terms : Spelling N → Text → Option (Terms N)
  unfolding five_parts split
  read_terms sp s = five_parts sp (split colon s)

  unfoldable pub read_vote : Spelling N → Text → Option (Vote N)
  unfolding two_parts split
  read_vote sp s = two_parts sp (split colon s)

  -- The payload of a QUERY.
  unfoldable pub write_terms : Spelling N → Terms N → Text
  write_terms sp x =
      join colon (sp.to_text x.fiat)
        (x.symbol ∷ x.destination ∷ sp.to_text x.btc ∷ sp.to_text x.fee ∷ [])

  -- The payload of VOTE_YES.
  unfoldable pub write_vote : Spelling N → Vote N → Text
  write_vote sp v = join colon (sp.to_text v.voted) (v.voted_id ∷ [])
