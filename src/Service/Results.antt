-- ===== src/Service/Results.antt =====
-- Rules for what a handler returns, where it returns: they follow the lines of its `do` block.

use lalaba_backend_showcase.Base.{
  Option, none, some, ℕ, ◌+◌, ◌-◌, ◌≡◌, refl, sym, Bool, true, false, if◌then◌else◌, or_else, arith,
  inl, inr, subst,
}
use lalaba_backend_showcase.Base.Int.{◌-ℤ◌, eqb_ℤ, ltb_ℤ, eqb_ℤ→eq}
use lalaba_backend_showcase.Base.Keyed.{find}
use lalaba_backend_showcase.Orders.Order.{Order}
use lalaba_backend_showcase.Orders.Status.{OrderStatus}
use lalaba_backend_showcase.Orders.Transition.{Actor, patched}
use lalaba_backend_showcase.Orders.Interleaving.{apply_transition-cases}
use lalaba_backend_showcase.Wallets.State.{Action, Result, ok, err}
use lalaba_backend_showcase.Wallets.Fees.{consume_fee, reverse_fee}
use lalaba_backend_showcase.Pricing.Doubles.{Doubles}
use lalaba_backend_showcase.Service.Document.{
  PaymentMethod, OnlineTransactionStatus, OnlineOrder, Rest, consumed_centavos, outstanding,
}
use lalaba_backend_showcase.Service.State.{
  Outcome, done, refused, User, World, Step, transition, saved, call_wallet, after_wallet, ◌>>=◌,
  with_transaction, pure, throw, find_order_or_throw, found,
}
use lalaba_backend_showcase.Service.Money.{
  PaymentCollectionFields, Tender, checked_payment, paid, collect, record_collection_transaction,
  with_consumed, owed_centavos, consume_outstanding_fee,
}

module _ (d : Doubles) where
  pub record Returning {A : Type 0} (P : A → Type 0) (m : Step d A) : Type 0 where
    pub returns : (w : World d) (a : A) → (m w).0 ≡ done a → P a

  pub Returning-then :
      {A B : Type 0} (Q : A → Type 0) {P : B → Type 0} (m : Step d A) (g : A → Step d B)
      → Returning Q m
      → ((a : A) → Q a → Returning P (g a))
      → Returning P (m >>= g)
  unfolding ◌>>=◌
  Returning-then {A} {B} Q {P} m g q h = record {
    returns = λ w b. go (m w) (λ a e. q.returns w a e) b;
  }
    where
      go :
          (r : Outcome A × World d)
          → ((a : A) → r.0 ≡ done a → Q a)
          → (b : B)
          → let s : Outcome B × World d = elim r.0 [
            | done a ↦ g a r.1
            | refused e ↦ (refused e, r.1)
          ] in
            s.0 ≡ done b → P b
      go (done a, w') f b e = (h a (f a refl)).returns w' b e
      go (refused x, w') f b e = cc

  pub after_any :
      {A B : Type 0} {P : B → Type 0} (m : Step d A) (g : A → Step d B)
      → ((a : A) → Returning P (g a))
      → Returning P (m >>= g)
  after_any m g h = Returning-then (λ _. Unit {0}) m g (record { returns = λ w a e. tt }) λ a u. h a

  pub Returning-in_transaction :
      {A : Type 0} {P : A → Type 0} (m : Step d A)
      → Returning P m
      → Returning P (with_transaction m)
  unfolding with_transaction
  Returning-in_transaction {A} {P} m q = record {
    returns = λ w a. go w (m w) (λ b e. q.returns w b e) a;
  }
    where
      go :
          (w : World d) (r : Outcome A × World d)
          → ((a : A) → r.0 ≡ done a → P a)
          → (a : A)
          → let s : Outcome A × World d = elim r.0 [
            | done a ↦ (done a, r.1)
            | refused e ↦ (refused e, w)
          ] in
            s.0 ≡ done a → P a
      go w (done b, w') f a e = f a e
      go w (refused x, w') f a e = cc

  pub Returning-pure : {A : Type 0} {P : A → Type 0} (a : A) → P a → Returning P (pure a)
  unfolding pure
  Returning-pure {A} {P} a p = record { returns = λ w b e. let same : a ≡ b = cc in subst P same p }

  pub Returning-saved :
      {P : OnlineOrder d → Type 0} (id : ℕ) (o : OnlineOrder d) → P o → Returning P (saved d id o)
  unfolding saved
  Returning-saved {P} id o p = record { returns = λ w b e. let same : o ≡ b = cc in subst P same p }

  pub Returning-if :
      {A : Type 0} {P : A → Type 0} (b : Bool) (m n : Step d A)
      → (b ≡ true → Returning P m)
      → (b ≡ false → Returning P n)
      → Returning P (if b then m else n)
  Returning-if true m n hm hn = hm refl
  Returning-if false m n hm hn = hn refl

  -- The document after a transition.
  abbrev pub moved : OrderStatus → ℕ → OnlineOrder d → OnlineOrder d
  moved to now o = record o { base = patched to now o.base o.base }

  pub Returning-transition :
      {P : OnlineOrder d → Type 0} (id : ℕ) (to : OrderStatus) (actor : Actor) (now : ℕ)
      (o : OnlineOrder d)
      → P (moved to now o)
      → Returning P (transition d id to actor now o)
  unfolding transition
  Returning-transition {P} id to actor now o p = record {
    returns = λ w b e. elim (apply_transition-cases id o.base to actor now w.db) [
      | inl (inl i) ↦ cc (rw i at e)
      | inl (inr i) ↦ cc (rw i at e)
      | inr t ↦ let same : moved to now o ≡ b = cc (rw t.result at e) in subst P same p
    ];
  }

  -- A call of the wallets' service returns the document that it was given.
  pub Returning-wallet :
      {P : OnlineOrder d → Type 0} (m : Action (Unit {0})) (o : OnlineOrder d)
      → P o
      → Returning P (call_wallet d m o)
  unfolding call_wallet
  Returning-wallet {P} m o p = record { returns = λ w b. go (m w.wallets).0 b }
    where
      go : (r : Result (Unit {0})) (b : OnlineOrder d) → after_wallet d o r ≡ done b → P b
      go (ok u) b e = let same : o ≡ b = cc in subst P same p
      go (err x) b e = cc

  -- Nothing is left of the fee, and the rest of the document that the customer sees is the same.
  pub record IsCharged (before o : OnlineOrder d) : Type 0 where
    pub fee : consumed_centavos d o ≡ owed_centavos d o
    pub base : o.base ≡ before.base

  -- The document that the postings of the fee return: it remembers what is owed.
  pub Returning-consumed :
      {P : OnlineOrder d → Type 0} (id : ℕ) (o : OnlineOrder d)
      → (owed_centavos d o ≡ consumed_centavos d o → P o)
      → P (with_consumed d (owed_centavos d o) o)
      → Returning P (consume_outstanding_fee d id o)
  unfolding consume_outstanding_fee
  Returning-consumed {P} id o even p =
      let owed = owed_centavos d o in
      let consumed = consumed_centavos d o in
      let after = with_consumed d owed o in
      Returning-if (eqb_ℤ owed consumed) _ _
        (λ same. Returning-pure o (even (eqb_ℤ→eq owed consumed same)))
        λ ne.
          Returning-if (ltb_ℤ owed consumed) _ _
            (λ less.
              Returning-then P _ _
                (Returning-wallet (reverse_fee o.rest.provider.branch_id (consumed -ℤ owed) id)
                  after p)
                λ o1 c. Returning-saved id o1 c)
            λ more.
              Returning-then P _ _
                (Returning-wallet (consume_fee o.rest.provider.branch_id (owed -ℤ consumed) id)
                  after p)
                λ o1 c. Returning-saved id o1 c

  pub Returning-fee :
      (id : ℕ) (o : OnlineOrder d) → Returning (IsCharged o) (consume_outstanding_fee d id o)
  Returning-fee id o =
      Returning-consumed id o (λ same. record { fee = sym same; base = refl })
        (record { fee = refl; base = refl })

  -- A handler that returns has read its order.
  pub read-then :
      {B : Type 0} (id : ℕ) (g : OnlineOrder d → Step d B) (w : World d) (b : B)
      → ((find_order_or_throw d id >>= g) w).0 ≡ done b
      → (o : OnlineOrder d) × (find id w.db.orders ≡ some o.base)
        × (find id w.rests ≡ some o.rest)
        × ((g o w).0 ≡ done b)
  unfolding find_order_or_throw ◌>>=◌
  read-then {B} id g w b = go (find id w.db.orders) (find id w.rests) refl refl
    where
      go :
          (x : Option Order) (r : Option (Rest d))
          → find id w.db.orders ≡ x
          → find id w.rests ≡ r
          → (◌>>=◌ {A = OnlineOrder d} (λ (_ : World d). (found d x r, w)) g w).0 ≡ done b
          → (o : OnlineOrder d) × (find id w.db.orders ≡ some o.base)
            × (find id w.rests ≡ some o.rest)
            × ((g o w).0 ≡ done b)
      go none none there stored e = cc
      go none (some r) there stored e = cc
      go (some x) none there stored e = cc
      go (some x) (some r) there stored e = (record { base = x; rest = r }, there, stored, e)

  -- The whole of what was outstanding is collected.
  settles : (total collected : ℕ) → total - (collected + (total - collected)) ≡ 0
  settles total collected = omega arith

  pub Returning-collection :
      (id : ℕ) (actor : User) (input : PaymentCollectionFields) (status : OnlineTransactionStatus)
      (now : ℕ) (o : OnlineOrder d)
      → Returning
          (λ o'. outstanding d o' ≡ 0)
          (record_collection_transaction d id actor input (outstanding d o) status now o)
  unfolding record_collection_transaction collect throw
  Returning-collection id actor input status now o = record {
    returns = λ w b. go w (checked_payment input (outstanding d o)) b;
  }
    where
      go :
          (w : World d) (r : Outcome (PaymentMethod × Tender)) (b : OnlineOrder d)
          → ((elim r as (λ _. Step d (OnlineOrder d)) [
            | refused e ↦ throw e
            | done p ↦ collect d id actor input p (outstanding d o) status now o
          ])
              w).0
            ≡ done b
          → outstanding d b ≡ 0
      go w (refused x) b e = cc
      go w (done (method, t)) b e =
          let same : paid d o actor input method t (outstanding d o) now ≡ b = cc in
          subst (λ (x : OnlineOrder d). outstanding d x ≡ 0) same
            (settles (or_else o.base.customer_total_centavos 0)
              (or_else o.base.amount_collected_centavos 0))
