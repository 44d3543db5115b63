-- ===== src/Service/Books.antt =====
-- What the books say of one order: the fee that its branch was debited and the money that was
-- collected for it, against the rows of the ledger and of the transactions.
use lalaba_backend_showcase.Base.{
  ℕ, ◌+◌, ◌≡◌, refl, sym, ap, ◌∙◌, ◌≢◌, Bool, false, Option, none, some, List, [], ◌∷◌, ◌++◌, ◌==◌,
  if◌then◌else◌, arith, inl, inr, Bool-cases, ==_iff, subst,
}
use lalaba_backend_showcase.Base.Int.{ℤ, pos, ◌+ℤ◌, int_laws}
use lalaba_backend_showcase.Base.Keyed.{find}
use lalaba_backend_showcase.Orders.Order.{Order}
use lalaba_backend_showcase.Orders.Runs.{Reach, Reach-trans}
use lalaba_backend_showcase.Wallets.State.{WalletLedgerEntry}
use lalaba_backend_showcase.Pricing.Doubles.{Doubles}
use lalaba_backend_showcase.Service.Document.{
  Rest, OnlineOrder, OnlineTransaction, consumed_centavos, collected_centavos,
}
use lalaba_backend_showcase.Service.State.{World}
use lalaba_backend_showcase.Service.Counts.{
  KeepsCounts, KeepsCounts-trans, promo_books, same-KeepsCounts,
}

abbrev is_for : ℕ → Option ℕ → Bool
is_for id none = false
is_for id (some k) = k == id

-- What the ledger holds for an order, debits below zero.
unfoldable pub fee_sum : ℕ → List WalletLedgerEntry → ℤ
fee_sum id [] = pos 0
fee_sum id (e ∷ es) =
    if is_for id e.order_id then e.amount_centavos +ℤ fee_sum id es else fee_sum id es

-- What the transactions hold for an order.
unfoldable pub paid_sum : ℕ → List OnlineTransaction → ℕ
paid_sum id [] = 0
paid_sum id (t ∷ ts) =
    if t.order_id == id then t.amount_centavos + paid_sum id ts else paid_sum id ts

pub fee_sum-append_own :
    (id : ℕ) (es : List WalletLedgerEntry) (e : WalletLedgerEntry)
    → e.order_id ≡ some id
    → fee_sum id (es ++ e ∷ []) ≡ fee_sum id es +ℤ e.amount_centavos
unfolding fee_sum
fee_sum-append_own id [] e h = rw (h, is_for, (==_iff id id).1 refl) (omega int_laws)
fee_sum-append_own id (x ∷ es) e h = elim (Bool-cases (is_for id x.order_id)) [
  | inl own ↦ rw own (rw (fee_sum-append_own id es e h) (omega int_laws))
  | inr other ↦ rw other (fee_sum-append_own id es e h)
]

pub fee_sum-append_other :
    (id k : ℕ) (es : List WalletLedgerEntry) (e : WalletLedgerEntry)
    → e.order_id ≡ some k
    → id ≢ k
    → fee_sum id (es ++ e ∷ []) ≡ fee_sum id es
unfolding fee_sum
fee_sum-append_other id k [] e h ne = ground arith
fee_sum-append_other id k (x ∷ es) e h ne = ground (arith, fee_sum-append_other id k es e h ne)

pub paid_sum-append :
    (id : ℕ) (ts : List OnlineTransaction) (t : OnlineTransaction)
    → paid_sum id (ts ++ t ∷ [])
      ≡ paid_sum id ts + (if t.order_id == id then t.amount_centavos else 0)
unfolding paid_sum
paid_sum-append id [] t = ground arith
paid_sum-append id (x ∷ ts) t = ground (arith, paid_sum-append id ts t)

module _ (d : Doubles) where
  -- The document is stored as it is in memory, and what it says was debited and collected is what
  -- the ledger and the transactions hold for it.
  pub record IsKept (id : ℕ) (o : OnlineOrder d) (w : World d) : Type 0 where
    pub there : find id w.db.orders ≡ some o.base
    pub stored : find id w.rests ≡ some o.rest
    pub fees : consumed_centavos d o +ℤ fee_sum id w.wallets.ledger ≡ pos 0
    pub paid : paid_sum id w.transactions ≡ collected_centavos d o

  -- The stored order has come to a status that the transition table allows.
  abbrev pub Moved : ℕ → World d → World d → Type 0
  Moved id w w' =
      (b : Order)
      → find id w.db.orders ≡ some b
      → (b' : Order) × (find id w'.db.orders ≡ some b') × Reach b.status b'.status

  pub Moved-same :
      (id : ℕ) (w w' : World d) → find id w'.db.orders ≡ find id w.db.orders → Moved id w w'
  Moved-same id w w' same b there = (b, same ∙ there, Reach.here)

  pub Moved-kept :
      (id : ℕ) (o : OnlineOrder d) (b' : Order) (w w' : World d)
      → IsKept id o w
      → find id w'.db.orders ≡ some b'
      → Reach o.base.status b'.status
      → Moved id w w'
  Moved-kept id o b' w w' k there run b before =
      let same : o.base ≡ b = cc (k.there, before) in
      (b', there, subst (λ (x : Order). Reach x.status b'.status) same run)

  Moved-trans : (id : ℕ) (u v w : World d) → Moved id u v → Moved id v w → Moved id u w
  Moved-trans id u v w first second b there =
      let (m, in_v, run) = first b there in
      let (b', in_w, rest) = second m in_v in (b', in_w, Reach-trans run rest)

  -- Nothing of another order is different, this one moved along the transition table, and the
  -- promotions' counters are right where they were.
  pub record Frame (id : ℕ) (w w' : World d) : Type 0 where
    pub orders : (j : ℕ) → j ≢ id → find j w'.db.orders ≡ find j w.db.orders
    pub rests : (j : ℕ) → j ≢ id → find j w'.rests ≡ find j w.rests
    pub fees : (j : ℕ) → j ≢ id → fee_sum j w'.wallets.ledger ≡ fee_sum j w.wallets.ledger
    pub paid : (j : ℕ) → j ≢ id → paid_sum j w'.transactions ≡ paid_sum j w.transactions
    pub moved : Moved id w w'
    pub counts : KeepsCounts d w w'

  pub Frame-refl : (id : ℕ) (w : World d) → Frame id w w
  Frame-refl id w = record {
    orders = λ j ne. refl;
    rests = λ j ne. refl;
    fees = λ j ne. refl;
    paid = λ j ne. refl;
    moved = Moved-same id w w refl;
    counts = (refl, λ c. c);
  }

  pub Frame-trans : (id : ℕ) (a b c : World d) → Frame id a b → Frame id b c → Frame id a c
  Frame-trans id a b c ab bc = record {
    orders = λ j ne. bc.orders j ne ∙ ab.orders j ne;
    rests = λ j ne. bc.rests j ne ∙ ab.rests j ne;
    fees = λ j ne. bc.fees j ne ∙ ab.fees j ne;
    paid = λ j ne. bc.paid j ne ∙ ab.paid j ne;
    moved = Moved-trans id a b c ab.moved bc.moved;
    counts = KeepsCounts-trans d a b c ab.counts bc.counts;
  }

  -- Every stored order is kept so.
  abbrev pub Balanced : World d → Type 0
  Balanced w =
      (id : ℕ) (b : Order) (r : Rest d)
      → find id w.db.orders ≡ some b
      → find id w.rests ≡ some r
      → IsKept id (record { base = b; rest = r }) w

  -- What was not touched of the books.
  pub record SameBooks (w w' : World d) : Type 0 where
    pub orders : w'.db.orders ≡ w.db.orders
    pub rests : w'.rests ≡ w.rests
    pub ledger : w'.wallets.ledger ≡ w.wallets.ledger
    pub transactions : w'.transactions ≡ w.transactions
    pub promotions : promo_books d w' ≡ promo_books d w

  pub SameBooks-Frame : (id : ℕ) (w w' : World d) → SameBooks w w' → Frame id w w'
  SameBooks-Frame id w w' s = record {
    orders = λ j ne. ap (find j) s.orders;
    rests = λ j ne. ap (find j) s.rests;
    fees = λ j ne. ap (fee_sum j) s.ledger;
    paid = λ j ne. ap (paid_sum j) s.transactions;
    moved = Moved-same id w w' (ap (find id) s.orders);
    counts = same-KeepsCounts d w w' s.promotions;
  }

  -- Every stored order moved along the transition table.
  abbrev AllMoved : World d → World d → Type 0
  AllMoved w w' = (id : ℕ) → Moved id w w'

  -- The same, and the promotions' counters are right where they were.
  abbrev pub Advances : World d → World d → Type 0
  Advances w w' = AllMoved w w' × KeepsCounts d w w'

  pub Advances-trans : (u v w : World d) → Advances u v → Advances v w → Advances u w
  Advances-trans u v w first second = (
    λ id. Moved-trans id u v w (first.0 id) (second.0 id),
    KeepsCounts-trans d u v w first.1 second.1,
  )

  pub Frame-Advances : (id : ℕ) (w w' : World d) → Frame id w w' → Advances w w'
  Frame-Advances id w w' f = (others, f.counts)
    where
      others : AllMoved w w'
      others j = elim (Bool-cases (j == id)) [
        | inl e ↦ subst (λ i. Moved i w w') (sym ((==_iff j id).0 e)) f.moved
        | inr e ↦ Moved-same j w w' (f.orders j (ground arith))
      ]

  pub SameBooks-IsKept :
      (id : ℕ) (o : OnlineOrder d) (w w' : World d)
      → SameBooks w w'
      → IsKept id o w
      → IsKept id o w'
  SameBooks-IsKept id o w w' s k = record {
    there = ap (find id) s.orders ∙ k.there;
    stored = ap (find id) s.rests ∙ k.stored;
    fees = ap (λ l. consumed_centavos d o +ℤ fee_sum id l) s.ledger ∙ k.fees;
    paid = ap (paid_sum id) s.transactions ∙ k.paid;
  }

  pub kept-Balanced :
      (id : ℕ) (o : OnlineOrder d) (w w' : World d)
      → Balanced w
      → IsKept id o w'
      → Frame id w w'
      → Balanced w'
  kept-Balanced id o w w' bal k f j b r there stored = elim (Bool-cases (j == id)) [
    | inl e ↦ let here = (==_iff j id).0 e in own here there stored
    | inr e ↦
        let ne : j ≢ id = ground arith in
        let old = bal j b r (sym (f.orders j ne) ∙ there) (sym (f.rests j ne) ∙ stored) in
        record {
          there = there;
          stored = stored;
          fees =
              ap (λ s. consumed_centavos d (record { base = b; rest = r }) +ℤ s) (f.fees j ne)
              ∙ old.fees;
          paid = f.paid j ne ∙ old.paid;
        }
  ]
    where
      own :
          j ≡ id
          → find j w'.db.orders ≡ some b
          → find j w'.rests ≡ some r
          → IsKept j (record { base = b; rest = r }) w'
      own here there stored =
          let same_base : o.base ≡ b = cc (ap (λ i. find i w'.db.orders) here, k.there, there) in
          let same_rest : o.rest ≡ r = cc (ap (λ i. find i w'.rests) here, k.stored, stored) in
          let same : o ≡ record { base = b; rest = r } =
            ap (λ (x : Order). record { base = x; rest = o.rest }) same_base
            ∙ ap (λ (x : Rest d). record { base = b; rest = x }) same_rest in
          subst (λ i. IsKept i (record { base = b; rest = r }) w') (sym here)
            (subst (λ (x : OnlineOrder d). IsKept id x w') same k)
