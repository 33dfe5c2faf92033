-- ===== src/Remote/Commitment.antt =====
-- TmContract.cpp: what a QUERY that the seller's node accepts commits of the order, and what the ABORT
-- and the COMMIT behind it make of that.
use zero_reserve.Base.{
  ℕ, true, false, [], ◌∷◌, ◌++◌, Text, ◌⊎◌, if◌then◌else◌, ◌≡◌, refl, Bool-cases, inl, inr, ap, ap₂,
  sym, ◌∙◌, subst, ◌==◌,
}
use zero_reserve.Base.Int.{ℤ}
use zero_reserve.Currency.{Build}
use zero_reserve.Number.{Number, IsOrderedRing, ◌⊖◌, ◌≺◌}
use zero_reserve.Orders.{failure, success, finish, Desk, write, partly_filled}
use zero_reserve.Orders.Sorting.{Sort}
use zero_reserve.Transactions.Local.{query, order_commit, abort}
use zero_reserve.Contracts.{BtcContract}
use zero_reserve.Wire.Items.{Spelling}
use zero_reserve.Remote.{Parcel, Trade, returned, write_order, activate, persist_deal}
use zero_reserve.Remote.Deals.{write_deal_here, rm_deal_desk}
use zero_reserve.Remote.Payee.{
  Seller, RawTx, is_query, seller_desk, seller_commit, commit_with, abort_with, rollback_seller,
  process_seller,
}
use zero_reserve.Remote.Answers.{
  same_number, goes_on, readdressed, committed_desk, Committed, Answers, seller_query-IsAnswer,
}

module _ {N : Type 0} ⦃num : Number N⦄ (laws : IsOrderedRing N) where
  -- Taking the amount back from the order.
  taken_back :
      (q : ℕ) (address : Text) (a : N) (d : Desk N) (i : ℕ)
      → let d' = readdressed q address (committed_desk q a d) in
        (if i == q
          then record (d'.heap q) { commitment = (d'.heap q).commitment ⊖ a }
          else d'.heap i)
        ≡ (if i == q then record (d.heap q) { btc_addr = address } else d.heap i)
  taken_back q address a d i = elim (Bool-cases (i == q)) [
    | inl e ↦ rw e (
        rw (same_number q) (
          ap (λ (c : N). record (d.heap q) { commitment = c; btc_addr = address })
            (laws.plus-minus (d.heap q).commitment a)))
    | inr e ↦ rw e refl
  ]

  rolled_back :
      (build : Build) (stored : N → N) (q r : ℕ) (address : Text) (t t' : Trade N)
      → t'.desk ≡ readdressed q address (committed_desk q (t'.deal r).btc_amount t.desk)
      → (i : ℕ)
      → (rollback_seller build stored q r t').desk.heap i
        ≡ (if i == q then record (t.desk.heap q) { btc_addr = address } else t.desk.heap i)
  unfolding rollback_seller
  rolled_back build stored q r address t t' e i =
      let a = (t'.deal r).btc_amount in
      let lower =
        write_order q (record (t'.desk.heap q) { commitment = (t'.desk.heap q).commitment ⊖ a })
          t' in
      ap (λ (d : Desk N). d.heap i) (rm_deal_desk build stored r lower)
      ∙ ap
          (λ (d : Desk N).
            if i == q
            then record (d.heap q) { commitment = (d.heap q).commitment ⊖ a }
            else d.heap i)
          e
      ∙ taken_back q address a t.desk i

  persisted :
      (r : ℕ) (t : Trade N)
      → (persist_deal r (activate r t)).rows ≡ t.rows ++ record (t.deal r) { activated = true } ∷ []
  unfolding persist_deal activate
  persisted r t =
      ap (λ (k : BtcContract N). t.rows ++ k ∷ [])
        (write_deal_here r (record (t.deal r) { activated = true }) t)

  sold_part :
      (stored : N → N) (sort : Sort) (q : ℕ) (address : Text) (a : N) (d : Desk N)
      → let o = d.heap q in
        (a ≺ o.amount ≡ false)
        ⊎ ((seller_desk stored sort a q (readdressed q address (committed_desk q a d))).heap q
            ≡ record o { purpose = partly_filled; amount = o.amount ⊖ a; btc_addr = address })
  unfolding seller_desk write
  sold_part stored sort q address a d =
      let o = d.heap q in
      elim (Bool-cases (a ≺ o.amount)) [
        | inr e ↦ inl e
        | inl e ↦ inr (
            rw (same_number q, e)
              (rw (same_number q) (
                ap
                  (λ (c : N). record o {
                    purpose = partly_filled;
                    amount = o.amount ⊖ a;
                    commitment = c;
                    btc_addr = address;
                  })
                  (laws.plus-minus o.commitment a))))
      ]

  sold :
      (stored : N → N) (sort : Sort) (q r : ℕ) (address : Text) (t t' : Trade N)
      → t'.desk ≡ readdressed q address (committed_desk q (t'.deal r).btc_amount t.desk)
      → let t1 = persist_deal r (activate r t') in
        ((t'.deal r).btc_amount ≺ (t.desk.heap q).amount ≡ false)
        ⊎ ((seller_desk stored sort (t1.deal r).btc_amount q t1.desk).heap q
            ≡ record (t.desk.heap q) {
              purpose = partly_filled;
              amount = (t.desk.heap q).amount ⊖ (t'.deal r).btc_amount;
              btc_addr = address;
            })
  unfolding persist_deal activate
  sold stored sort q r address t t' e =
      let a = (t'.deal r).btc_amount in
      let o = t.desk.heap q in
      let same =
        ap (λ (k : BtcContract N). k.btc_amount)
          (write_deal_here r (record (t'.deal r) { activated = true }) t') in
      subst
        (λ (x : N).
          (a ≺ o.amount ≡ false)
          ⊎ ((seller_desk stored sort x q t'.desk).heap q
              ≡ record o { purpose = partly_filled; amount = o.amount ⊖ a; btc_addr = address }))
        (sym same)
        (subst
          (λ (d : Desk N).
            (a ≺ o.amount ≡ false)
            ⊎ ((seller_desk stored sort a q d).heap q
                ≡ record o { purpose = partly_filled; amount = o.amount ⊖ a; btc_addr = address }))
          (sym e) (sold_part stored sort q address a t.desk))

  -- If the seller's node answers a QUERY with success and stays in the phase of the query, its contract is
  -- there and its amount is committed on top of what was, and is not more than what was left of the order.
  -- Nothing else of the order books changes but the order's own address.
  pub process_seller-Committed :
      (build : Build) (stored : N → N) (sp : Spelling N) (sort : Sort) (now : ℤ)
      (mk_raw_tx : N → Text → Text → RawTx) (item : Parcel) (s s' : Seller) (t t' : Trade N)
      → process_seller build stored sp sort now mk_raw_tx (record item { phase = query }) s t
        ≡ returned success s' t'
      → s'.phase ≡ query
      → Committed mk_raw_tx t s' t'
  unfolding process_seller
  process_seller-Committed build stored sp sort now mk_raw_tx item s s' t t' e p =
      let a =
        (seller_query-IsAnswer laws build stored t sp now mk_raw_tx (record item { phase = query })
          s).answer in
      elim (subst (Answers mk_raw_tx t) e a) [ inl r ↦ cc (r, p) | inr c ↦ c ]

  -- Where it did so, an ABORT leaves every order as it was before the QUERY, the commitment included, but for the address of the
  -- order that was asked for, which stays what mkRawTx made of it.
  pub process_seller-abort :
      (build : Build) (stored : N → N) (sp : Spelling N) (sort : Sort) (now : ℤ)
      (mk_raw_tx : N → Text → Text → RawTx) (item later : Parcel) (s s' : Seller) (t t' : Trade N)
      → process_seller build stored sp sort now mk_raw_tx (record item { phase = query }) s t
        ≡ returned success s' t'
      → s'.phase ≡ query
      → (t'' : Trade N) × (c : Committed mk_raw_tx t s' t') × (process_seller build stored sp sort
            now mk_raw_tx
            (record later { phase = abort })
            s'
            t'
          ≡ returned failure s' t'')
        × ((i : ℕ)
            → t''.desk.heap i ≡ (
                if i == c.order_at
                then record (t.desk.heap c.order_at) { btc_addr = c.raw.own_address }
                else t.desk.heap i))
  unfolding process_seller abort_with rollback_seller
  process_seller-abort build stored sp sort now mk_raw_tx item later s s' t t' e p =
      let c = process_seller-Committed build stored sp sort now mk_raw_tx item s s' t t' e p in
      (
        rollback_seller build stored c.order_at c.deal_at t',
        c,
        ap₂ (abort_with build stored s' t') c.has_deal c.has_order,
        rolled_back build stored c.order_at c.deal_at c.raw.own_address t t' c.books,
      )

  -- Where it did so, a COMMIT is answered with ZR_FINISH: the contract is active and in the table, the raw
  -- transaction is sent, and if the order is larger than the contract, it keeps what is left, the
  -- commitment that it had before the QUERY, and the address that mkRawTx made.
  pub process_seller-commit :
      (build : Build) (stored : N → N) (sp : Spelling N) (sort : Sort) (now : ℤ)
      (mk_raw_tx : N → Text → Text → RawTx) (item later : Parcel) (s s' : Seller) (t t' : Trade N)
      → process_seller build stored sp sort now mk_raw_tx (record item { phase = query }) s t
        ≡ returned success s' t'
      → s'.phase ≡ query
      → (s'' : Seller) × (t'' : Trade N) × (c : Committed mk_raw_tx t s' t') × (process_seller build
            stored sp sort now mk_raw_tx
            (record later { phase = order_commit })
            s'
            t'
          ≡ returned finish s'' t'')
        × (t''.raw_sent ≡ c.raw.hex ∷ t'.raw_sent)
        × (t''.rows ≡ t'.rows ++ record (t'.deal c.deal_at) { activated = true } ∷ [])
        × (((t'.deal c.deal_at).btc_amount ≺ (t.desk.heap c.order_at).amount ≡ false)
            ⊎ (t''.desk.heap c.order_at ≡ record (t.desk.heap c.order_at) {
              purpose = partly_filled;
              amount = (t.desk.heap c.order_at).amount ⊖ (t'.deal c.deal_at).btc_amount;
              btc_addr = c.raw.own_address;
            }))
  unfolding process_seller seller_commit commit_with
  process_seller-commit build stored sp sort now mk_raw_tx item later s s' t t' e p =
      let c = process_seller-Committed build stored sp sort now mk_raw_tx item s s' t t' e p in
      let t1 = persist_deal c.deal_at (activate c.deal_at t') in
      (
        record s' { phase = order_commit },
        record t1 {
          desk = seller_desk stored sort (t1.deal c.deal_at).btc_amount c.order_at t1.desk;
          raw_sent = s'.tx_hex ∷ t1.raw_sent;
        },
        c,
        goes_on (is_query s'.phase) _ _ (ap is_query p)
            ∙ ap₂ (commit_with stored sort s' t') c.has_deal c.has_order,
        ap (λ (hex : Text). hex ∷ t'.raw_sent) c.hex_kept,
        persisted c.deal_at t',
        sold stored sort c.order_at c.deal_at c.raw.own_address t t' c.books,
      )
