-- ===== src/Satoshi/Pays.antt =====
-- What the transaction of mkRawTx pays.
use zero_reserve.Base.{Option, some, Text, List, [], ◌∷◌, ◌≡◌}
use zero_reserve.Base.Dict.{Dict, lookup}
use zero_reserve.Number.{Number, ◌⊕◌}
use zero_reserve.Satoshi.{Doubles, Rpc, Unspent, Signed, RawVars, first_unspent}

module _ {N D W : Type 0} ⦃num : Number N⦄ (dbl : Doubles N D) (rpc : Rpc D W) where
  -- What the outputs pay together.
  unfoldable pub output_total : Dict N → N
  output_total [] = num.nought
  output_total ((a, x) ∷ outs) = x ⊕ output_total outs

  unfoldable pub as_doubles : Dict N → Dict D
  as_doubles [] = []
  as_doubles ((a, x) ∷ outs) = (a, dbl.to_double x) ∷ as_doubles outs

  -- The server has signed `raw` and named the result.
  abbrev pub IsSignedBy : Text → W → RawVars → W → Type 0
  IsSignedBy raw w v w' =
      (s : Signed) × (w1 : W) × (rpc.sign_raw_transaction raw w ≡ (some s, w1))
      × (s.signed_hex ≡ v.out_tx)
      × (rpc.decode_raw_transaction v.out_tx w1 ≡ (some v.out_id, w'))

  -- The outputs are the doubles of numbers that give `btc` to `recv` and add up to `amount`.
  abbrev pub IsPayout : N → Text → N → Dict D → Type 0
  IsPayout btc recv amount dest =
      (outs : Dict N) × (dest ≡ as_doubles outs)
      × (lookup outs recv ≡ some btc)
      × (output_total outs ≡ amount)

  -- The server has signed a transaction that pays out the first output of the old address.
  abbrev pub IsPaid : N → Text → Option (List (Unspent D)) × W → RawVars → W → Type 0
  IsPaid btc recv r v' w' =
      (us : List (Unspent D)) × (w1 : W) × (dest : Dict D) × (w2 : W) × (raw : Text) × (w3 : W) × (r
        ≡ (some us, w1))
      × (rpc.create_raw_transaction (first_unspent dbl rpc us).txid (first_unspent dbl rpc us).vout
            dest w2
          ≡ (some raw, w3))
      × IsPayout btc recv (dbl.from_double (first_unspent dbl rpc us).unspent_amount) dest
      × IsSignedBy raw w3 v' w'
