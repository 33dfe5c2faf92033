-- ===== src/Transactions/Local/Ends.antt =====
-- The states of the two ends of a payment over the network of Network, and what the handlers do to the payee.
use zero_reserve.Base.{
  ℕ, ◌+◌, Bool, true, false, List, [], ◌∷◌, ◌++◌, ◌≡◌, refl, Option, none, some, Text, ◌⊎◌, inl,
  inr, All, All-append, arith, ap, sym, subst, ◌∙◌,
}
use zero_reserve.Currency.{Build}
use zero_reserve.Number.{Number}
use zero_reserve.Orders.{RetVal, success, failure, finish}
use zero_reserve.Money.{Bank, Payment, init, commit}
use zero_reserve.Transactions.Local.{
  Node, TxItem, TxPhase, Manager, Outcome, get_payment, handle_tx_item, process_cohort,
  process_query, enter_query, vote, initial, process_commit, commit_cohort, init_cohort, clean_up,
  offer_of, init_item, returned, threw, undefined, coordinator, cohort, query, vote_yes, vote_no,
  order_commit, ack_commit, abort, abort_request, abort_cohort,
}
use zero_reserve.Transactions.Local.Network.{received}

-- The phases of what the payee answers, with ACK_COMMIT only where the test says so.
abbrev pub is_answer : Bool → TxPhase → Bool
is_answer acked vote_yes = true
is_answer acked vote_no = true
is_answer acked abort = true
is_answer acked ack_commit = acked
is_answer acked initial = false
is_answer acked query = false
is_answer acked order_commit = false
is_answer acked abort_request = false

abbrev pub is_query : TxPhase → ℕ
is_query query = 1
is_query initial = 0
is_query vote_yes = 0
is_query vote_no = 0
is_query order_commit = 0
is_query ack_commit = 0
is_query abort = 0
is_query abort_request = 0

weaken : (ph : TxPhase) → is_answer false ph ≡ true → is_answer true ph ≡ true
weaken ph h = ground arith

pub All-pick :
    {A : Type 0} (P : A → Type 0) (pre post : List A) (x : A)
    → All P (pre ++ x ∷ post)
    → P x × All P (pre ++ post)
All-pick P [] post x h = h
All-pick P (y ∷ pre) post x h = let (p, rest) = All-pick P pre post x h.1 in (p, (h.0, rest))

module _ {N : Type 0} where
  -- What the predicate says of the node that a handler leaves.
  abbrev pub Leaves : (Node N → Type 0) → Outcome N → Type 0
  Leaves P (returned r node) = P node
  Leaves P (threw node) = P node
  Leaves P undefined = Unit

  pub Leaves-received :
      (P : Node N → Type 0) (o : Outcome N) (node : Node N)
      → received o ≡ some node
      → Leaves P o
      → P node
  Leaves-received P (returned r x) node e h = subst P (cc) h
  Leaves-received P (threw x) node e h = subst P (cc) h
  Leaves-received P undefined node e h = cc

  -- There is no manager, or one that was made for an item that it could not handle.
  abbrev pub IsLoose : Option (Manager N) → Type 0
  IsLoose m = (m ≡ none) ⊎ (m ≡ some (cohort initial none))

  abbrev pub queries : List (TxItem N) → ℕ
  queries [] = 0
  queries (item ∷ items) = is_query item.phase + queries items

  pub queries-pick :
      (pre post : List (TxItem N)) (item : TxItem N)
      → queries (pre ++ item ∷ post) ≡ is_query item.phase + queries (pre ++ post)
  queries-pick [] post item = refl
  queries-pick (x ∷ pre) post item = omega (arith, queries-pick pre post item)

  pub queries-commit :
      (items : List (TxItem N)) (item : TxItem N)
      → item.phase ≡ order_commit
      → queries (items ++ item ∷ []) ≡ queries items
  queries-commit [] item e = rw e refl
  queries-commit (x ∷ items) item e = omega (arith, queries-commit items item e)

  abbrev pub IsAnswer : Bool → TxItem N → Type 0
  IsAnswer acked item = is_answer acked item.phase ≡ true

  All-weaken : (items : List (TxItem N)) → All (IsAnswer false) items → All (IsAnswer true) items
  All-weaken [] h = tt
  All-weaken (x ∷ items) h = (weaken x.phase h.0, All-weaken items h.1)

-- The payer `i` with the database `a` makes the payment `p`, of which the payee with the database `b` makes `q`.
pub record Setting (N : Type 0) : Type 0 where
  pub build : Build
  pub stored : N → N
  pub i : Text
  pub a : Bank N
  pub b : Bank N
  pub p : Payment N
  pub q : Payment N

module _ {N : Type 0} ⦃num : Number N⦄ (t : Setting N) where
  open t use {build, stored, i, a, b, p, q}

  abbrev pub node : Text → Option (Manager N) → Bank N → List (TxItem N) → Node N
  node own m bank sent = record { own_id = own; manager = m; bank = bank; sent = sent }

  abbrev pub asked_of : Option (Manager N)
  asked_of = some (cohort query (some q))

  abbrev pub paid : Bank N
  paid = (commit stored p a).2

  abbrev pub taken : Bank N
  taken = (commit stored q b).2

  -- What the payer sends: the item that opens the transaction, and COMMIT.
  abbrev pub FromPayer : TxItem N → Type 0
  FromPayer item = (item ≡ init_item p) ⊎ (item.phase ≡ order_commit)

  -- The payee before it votes for yes, or after it gave up; when it waits for COMMIT; and when it has committed.
  pub record IsWaiting (y : Node N) : Type 0 where
    pub loose : IsLoose y.manager
    pub kept : y.bank ≡ b
    pub answers : All (IsAnswer false) y.sent

  pub record IsAsked (y : Node N) : Type 0 where
    pub asked : y.manager ≡ some (cohort query (some q))
    pub kept : y.bank ≡ b
    pub answers : All (IsAnswer false) y.sent

  pub record IsSettled (y : Node N) : Type 0 where
    pub loose : IsLoose y.manager
    pub booked : y.bank ≡ taken
    pub answers : All (IsAnswer true) y.sent

  -- The payer before it commits, and after it.
  pub record IsOpen (x : Node N) : Type 0 where
    pub own : x.own_id ≡ i
    pub paying : IsLoose x.manager ⊎ (x.manager ≡ some (coordinator p))
    pub kept : x.bank ≡ a
    pub orders : All FromPayer x.sent

  pub record IsClosed (x : Node N) : Type 0 where
    pub own : x.own_id ≡ i
    pub loose : IsLoose x.manager
    pub booked : x.bank ≡ paid
    pub orders : All FromPayer x.sent

  pub loose-handle :
      (item : TxItem N) (own : Text) (m : Option (Manager N)) (bank : Bank N)
      (sent : List (TxItem N))
      → IsLoose m
      → handle_tx_item build stored item (node own m bank sent)
        ≡ clean_up (
            process_cohort build stored item initial none
              (node own (some (cohort initial none)) bank sent))
  unfolding handle_tx_item
  loose-handle item own m bank sent (inl e) =
      ap (λ (x : Option (Manager N)). handle_tx_item build stored item (node own x bank sent)) e
  loose-handle item own m bank sent (inr e) =
      ap (λ (x : Option (Manager N)). handle_tx_item build stored item (node own x bank sent)) e

  pub snoc :
      (P : TxItem N → Type 0) (xs : List (TxItem N)) (item : TxItem N)
      → All P xs
      → P item
      → All P (xs ++ item ∷ [])
  snoc P xs item h k = All-append P xs (item ∷ []) h (k, tt)

  abbrev pub WaitsOrAsks : Node N → Type 0
  WaitsOrAsks y = IsWaiting y ⊎ IsAsked y

  vote-Leaves :
      (own : Text) (sent : List (TxItem N)) (r : RetVal)
      → All (IsAnswer false) sent
      → Leaves WaitsOrAsks (clean_up (vote r q (node own (some (cohort query (some q))) b sent)))
  unfolding clean_up vote
  vote-Leaves own sent failure h =
      inl (record { loose = inl refl; kept = refl; answers = snoc _ sent _ h refl })
  vote-Leaves own sent success h =
      inr (record { asked = refl; kept = refl; answers = snoc _ sent _ h refl })
  vote-Leaves own sent finish h =
      inr (record { asked = refl; kept = refl; answers = snoc _ sent _ h refl })

  pub query-Leaves :
      (y : Node N)
      → get_payment build i (offer_of p) b ≡ some q
      → IsWaiting y
      → Leaves WaitsOrAsks (handle_tx_item build stored (record (init_item p) { peer_id = i }) y)
  unfolding process_cohort process_query enter_query init_cohort
  query-Leaves y g h =
      subst (λ (o : Outcome N). Leaves WaitsOrAsks o)
        (sym (
          loose-handle (record (init_item p) { peer_id = i }) y.own_id y.manager y.bank y.sent
            h.loose
          ∙ ap
              (λ (x : Bank N). clean_up (
                enter_query (get_payment build i (offer_of p) x)
                  (node y.own_id (some (cohort initial none)) x y.sent)))
              h.kept
          ∙ ap
              (λ (x : Option (Payment N)).
                clean_up (enter_query x (node y.own_id (some (cohort initial none)) b y.sent)))
              g))
        (vote-Leaves y.own_id y.sent (init q) h.answers)

  -- COMMIT without a query reads a payment that was never set.
  pub commit-undefined :
      (y : Node N) (item : TxItem N)
      → item.phase ≡ order_commit
      → IsLoose y.manager
      → handle_tx_item build stored item y ≡ undefined
  unfolding process_cohort process_commit abort_cohort clean_up
  commit-undefined y item e l =
      loose-handle item y.own_id y.manager y.bank y.sent l ∙ rw (process_cohort, e) refl

  pub commit-settles :
      (y : Node N) (item : TxItem N)
      → item.phase ≡ order_commit
      → IsAsked y
      → Leaves IsSettled (handle_tx_item build stored item y)
  unfolding handle_tx_item process_cohort process_commit commit_cohort clean_up
  commit-settles y item e h =
      subst (λ (o : Outcome N). Leaves IsSettled o)
        (sym (
          ap
            (λ (x : Option (Manager N)).
              handle_tx_item build stored item (node y.own_id x y.bank y.sent))
            h.asked
          ∙ ap (λ (x : Bank N). handle_tx_item build stored item (node y.own_id asked_of x y.sent))
              h.kept
          ∙ ap
              (λ (x : TxPhase).
                handle_tx_item build stored (record item { phase = x })
                  (node y.own_id asked_of b y.sent))
              e))
        (record {
          loose = inl refl;
          booked = refl;
          answers = snoc _ y.sent _ (All-weaken y.sent h.answers) refl;
        })
