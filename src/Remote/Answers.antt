-- ===== src/Remote/Answers.antt =====
-- TmContract.cpp: every branch of the QUERY at the seller's node, and what it commits of the order.
use zero_reserve.Base.{
  ℕ, Bool, true, false, Option, none, some, Text, not, ◌⊎◌, if◌then◌else◌, ◌≡◌, refl, Bool-cases,
  Option-cases, inl, inr, ap, ap₂, sym, ◌∙◌, subst, arith, ◌==◌,
}
use zero_reserve.Base.Int.{ℤ}
use zero_reserve.Currency.{Build}
use zero_reserve.Number.{Number, IsOrderedRing, ◌⊕◌, ◌⊖◌, ◌≺◌}
use zero_reserve.Orders.{failure, success, finish, Desk, find}
use zero_reserve.Transactions.Local.{query, abort_request}
use zero_reserve.Contracts.{BtcContract, Vault}
use zero_reserve.Wire.Items.{Spelling}
use zero_reserve.Remote.{
  Parcel, Trade, Outcome, returned, threw, undefined, write_deal, write_order, make_contract,
  placed, set_btc_address,
}
use zero_reserve.Remote.Deals.{
  set_btc_tx_id_amount, set_btc_address_amount, marked_desk, marked_address, marked_id,
  set_deal_amount_here, set_deal_amount_desk,
}
use zero_reserve.Remote.Terms.{Terms}
use zero_reserve.Remote.Payee.{
  Seller, RawTx, abort_seller, vote_no_seller, commit_part, answer_query, send_vote,
  set_own_address, query_checks, query_deal, query_terms, query_found, seller_query,
}

pub same_number : (q : ℕ) → (q == q) ≡ true
same_number q = ground arith

pub goes_on : {A : Type 0} (b : Bool) (x y : A) → b ≡ true → (if not b then x else y) ≡ y
goes_on b x y e = rw e refl

pub equal : (i q : ℕ) → (i == q) ≡ true → i ≡ q
equal i q e = ground arith

module _ {N : Type 0} ⦃num : Number N⦄ where
  -- The order `q` with an amount more committed.
  abbrev pub committed : ℕ → N → Trade N → Trade N
  committed q a t =
      write_order q (record (t.desk.heap q) { commitment = (t.desk.heap q).commitment ⊕ a }) t

  abbrev pub committed_desk : ℕ → N → Desk N → Desk N
  committed_desk q a d = record d {
    heap = λ p.
        if p == q then record (d.heap q) { commitment = (d.heap q).commitment ⊕ a } else d.heap p;
  }

  -- The order `q` with another address.
  abbrev pub readdressed : ℕ → Text → Desk N → Desk N
  readdressed q address d = record d {
    heap = λ p. if p == q then record (d.heap q) { btc_addr = address } else d.heap p;
  }

module _ {N : Type 0} ⦃num : Number N⦄ (mk : N → Text → Text → RawTx) where
  -- The amount of the seller's contract is committed on top of what was, it is not more than what was
  -- left, and nothing else of the books has changed but the order's own address. mkRawTx was asked for that amount, from the
  -- order's address to the contract's, and succeeded: the raw transaction is kept, and its id and the address are what it gave.
  pub record Committed (before : Trade N) (s : Seller) (after : Trade N) : Type 0 where
    pub order_at : ℕ
    pub deal_at : ℕ
    pub raw : RawTx
    pub has_order : s.my_order ≡ some order_at
    pub has_deal : s.payee ≡ some deal_at
    pub in_query : s.phase ≡ query
    pub raw_is :
        raw
        ≡ mk
            (after.deal deal_at).btc_amount
            (before.desk.heap order_at).btc_addr
            (after.deal deal_at).dest_address
    pub was_made : raw.made ≡ true
    pub hex_kept : s.tx_hex ≡ raw.hex
    pub id_kept : (after.deal deal_at).btc_tx_id ≡ raw.raw_id
    pub books :
        after.desk
        ≡ readdressed order_at raw.own_address
            (committed order_at (after.deal deal_at).btc_amount before).desk
    pub not_more :
        ((before.desk.heap order_at).amount ⊖ (before.desk.heap order_at).commitment)
          ≺ (after.deal deal_at).btc_amount
        ≡ false

  -- The handler refused the query, or committed to it.
  abbrev pub Answers : Trade N → Outcome Seller N → Type 0
  Answers t (returned success s t') = (s.phase ≡ abort_request) ⊎ Committed t s t'
  Answers t (returned failure s t') = Unit
  Answers t (returned finish s t') = Unit
  Answers t (threw s t') = Unit
  Answers t undefined = Unit

  pub record IsAnswer (t : Trade N) (out : Outcome Seller N) : Type 0 where
    pub answer : Answers t out

  IsAnswer-if :
      {t : Trade N} (b : Bool) {x y : Outcome Seller N}
      → IsAnswer t x
      → IsAnswer t y
      → IsAnswer t (if b then x else y)
  IsAnswer-if true h k = h
  IsAnswer-if false h k = k

  -- The same, where the first is only asked for if the test holds.
  IsAnswer-when :
      {t : Trade N} (b : Bool) {x y : Outcome Seller N}
      → (b ≡ true → IsAnswer t x)
      → IsAnswer t y
      → IsAnswer t (if b then x else y)
  IsAnswer-when true h k = h refl
  IsAnswer-when false h k = k

  vote_no_seller-IsAnswer :
      (t0 : Trade N) (item : Parcel) (q : ℕ) (s : Seller) (t : Trade N)
      → IsAnswer t0 (vote_no_seller item q s t)
  unfolding vote_no_seller
  vote_no_seller-IsAnswer t0 item q s t = record { answer = tt }

  undefined-IsAnswer : (t0 : Trade N) → IsAnswer t0 undefined
  undefined-IsAnswer t0 = record { answer = tt }

  abort_seller-IsAnswer :
      (t0 : Trade N) (item : Parcel) (s : Seller) (t : Trade N)
      → IsAnswer t0 (abort_seller item s t)
  unfolding abort_seller
  abort_seller-IsAnswer t0 item s t = elim (Option-cases s.my_order) [
    | inl e ↦ record { answer = rw e tt }
    | inr (q, e) ↦ record { answer = rw e (inl refl) }
  ]

module _ {N : Type 0} ⦃num : Number N⦄ (laws : IsOrderedRing N) where
  -- The amount after commit_part, and the books.
  commit_part-books :
      (build : Build) (stored : N → N) (q r : ℕ) (t : Trade N)
      → let t' = commit_part build stored q r t in
        let o = t.desk.heap q in
        (t'.desk ≡ (committed q (t'.deal r).btc_amount t).desk)
        × ((o.amount ⊖ o.commitment) ≺ (t'.deal r).btc_amount ≡ false)
  unfolding commit_part
  commit_part-books build stored q r t =
      let o = t.desk.heap q in
      let left = o.amount ⊖ o.commitment in
      let filled_up = write_order q (record o { commitment = o.amount }) t in
      let here = set_deal_amount_here build stored left r filled_up in
      elim (Bool-cases (left ≺ (t.deal r).btc_amount)) [
        | inl e ↦ rw e (
          set_deal_amount_desk build stored left r filled_up
              ∙ ap (λ (c : N). (write_order q (record o { commitment = c }) t).desk)
                  (sym (laws.plus_comm _ _ ∙ laws.minus-plus o.amount o.commitment)
                    ∙ ap (λ (c : N). o.commitment ⊕ c) (sym here)),
          ap (λ (c : N). left ≺ c) here ∙ laws.less_irrefl left,
        )
        | inr e ↦ rw e (refl, e)
      ]

  answer_query-IsAnswer :
      (t0 : Trade N) (sp : Spelling N) (mk : N → Text → Text → RawTx) (raw : RawTx) (x : Terms N)
      (item : Parcel) (q r : ℕ) (s : Seller) (t : Trade N)
      → s.my_order ≡ some q
      → s.payee ≡ some r
      → s.phase ≡ query
      → t.desk ≡ (committed q (t.deal r).btc_amount t0).desk
      → ((t0.desk.heap q).amount ⊖ (t0.desk.heap q).commitment) ≺ (t.deal r).btc_amount ≡ false
      → raw ≡ mk (t.deal r).btc_amount (t0.desk.heap q).btc_addr x.destination
      → IsAnswer mk t0 (answer_query sp raw x item q r s t)
  unfolding answer_query set_own_address send_vote
  answer_query-IsAnswer t0 sp mk raw x item q r s t a b c d e g =
      let t1 = write_order q (record (t.desk.heap q) { btc_addr = raw.own_address }) t in
      let id = raw.raw_id in
      let same =
        set_btc_tx_id_amount id r r (set_btc_address x.destination r t1)
        ∙ set_btc_address_amount x.destination r r t1 in
      let there = marked_address id x.destination r t1 in
      IsAnswer-when mk raw.made
        (λ m. record {
          answer = inr (record {
            order_at = q;
            deal_at = r;
            has_order = a;
            has_deal = b;
            in_query = c;
            raw = raw;
            raw_is =
                g
                ∙ ap₂ (λ (n : N) (to : Text). mk n (t0.desk.heap q).btc_addr to) (sym same)
                    (sym there);
            was_made = m;
            hex_kept = refl;
            id_kept = marked_id id x.destination r t1;
            books =
                marked_desk id x.destination r t1
                ∙ ap (readdressed q raw.own_address)
                    (d ∙ ap (λ (n : N). (committed q n t0).desk) (sym same));
            not_more =
                ap (λ (n : N). ((t0.desk.heap q).amount ⊖ (t0.desk.heap q).commitment) ≺ n) same
                ∙ e;
          });
        })
        (abort_seller-IsAnswer mk t0 item (record s { tx_hex = raw.hex }) t1)

  query_checks-IsAnswer :
      (build : Build) (stored : N → N) (t0 : Trade N) (sp : Spelling N)
      (mk : N → Text → Text → RawTx) (x : Terms N) (item : Parcel) (q r : ℕ) (s : Seller)
      (t : Trade N) (symbol : Option Text)
      → s.my_order ≡ some q
      → s.payee ≡ some r
      → s.phase ≡ query
      → t.desk ≡ t0.desk
      → IsAnswer mk t0 (query_checks build stored sp mk x item q r s t symbol)
  unfolding query_checks vote_no_seller
  query_checks-IsAnswer build stored t0 sp mk x item q r s t none a b c d = undefined-IsAnswer mk t0
  query_checks-IsAnswer build stored t0 sp mk x item q r s t (some symbol) a b c d =
      let (books, more) = commit_part-books build stored q r t in
      let t1 = commit_part build stored q r t in
      IsAnswer-if mk _ (abort_seller-IsAnswer mk t0 item s t) (
        IsAnswer-if mk _ (vote_no_seller-IsAnswer mk t0 item q s t) (
          IsAnswer-if mk _ (vote_no_seller-IsAnswer mk t0 item q s t) (
            answer_query-IsAnswer t0 sp mk
              (mk (t1.deal r).btc_amount (t.desk.heap q).btc_addr x.destination) x item q r s t1 a b
              c (books ∙ ap (committed_desk q (t1.deal r).btc_amount) d)
              (subst
                (λ (k : Desk N).
                  ((k.heap q).amount ⊖ (k.heap q).commitment) ≺ (t1.deal r).btc_amount ≡ false)
                d more)
              (ap (λ (k : Desk N). mk (t1.deal r).btc_amount (k.heap q).btc_addr x.destination)
                d))))

  query_deal-IsAnswer :
      (build : Build) (stored : N → N) (t0 : Trade N) (sp : Spelling N)
      (mk : N → Text → Text → RawTx) (x : Terms N) (item : Parcel) (q : ℕ) (s : Seller)
      (t : Trade N) (o : Option (BtcContract N × Vault N))
      → s.my_order ≡ some q
      → s.phase ≡ query
      → t.desk ≡ t0.desk
      → IsAnswer mk t0 (query_deal build stored sp mk x item q s t (placed t o))
  unfolding query_deal placed write_deal vote_no_seller
  query_deal-IsAnswer build stored t0 sp mk x item q s t none a c d =
      vote_no_seller-IsAnswer mk t0 item q s t
  query_deal-IsAnswer build stored t0 sp mk x item q s t (some (k, v)) a c d =
      query_checks-IsAnswer build stored t0 sp mk x item q t.next (record s { payee = some t.next })
        _ _ a refl c d

  query_terms-IsAnswer :
      (build : Build) (stored : N → N) (t0 : Trade N) (sp : Spelling N) (now : ℤ)
      (mk : N → Text → Text → RawTx) (item : Parcel) (q : ℕ) (s : Seller) (t : Trade N)
      (x : Option (Terms N))
      → s.my_order ≡ some q
      → s.phase ≡ query
      → t.desk ≡ t0.desk
      → IsAnswer mk t0 (query_terms build stored sp now mk item q s t x)
  unfolding query_terms make_contract
  query_terms-IsAnswer build stored t0 sp now mk item q s t none a c d =
      abort_seller-IsAnswer mk t0 item s t
  query_terms-IsAnswer build stored t0 sp now mk item q s t (some x) a c d =
      IsAnswer-if mk _ (undefined-IsAnswer mk t0)
        (query_deal-IsAnswer build stored t0 sp mk x item q s t _ a c d)

  pub seller_query-IsAnswer :
      (build : Build) (stored : N → N) (t0 : Trade N) (sp : Spelling N) (now : ℤ)
      (mk : N → Text → Text → RawTx) (item : Parcel) (s : Seller)
      → IsAnswer mk t0 (seller_query build stored sp now mk item s t0)
  unfolding seller_query query_found
  seller_query-IsAnswer build stored t0 sp now mk item s =
      IsAnswer-if mk _ (abort_seller-IsAnswer mk t0 item s t0)
        (found (find t0.desk.heap t0.desk.my_book.orders item.address))
    where
      found : (o : Option ℕ) → IsAnswer mk t0 (query_found build stored sp now mk item s t0 o)
      found none = undefined-IsAnswer mk t0
      found (some q) =
          query_terms-IsAnswer build stored t0 sp now mk item q
            (record s { phase = query; my_order = some q }) t0 _ refl refl refl
