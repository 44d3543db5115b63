-- ===== src/Service/Refusals.antt =====
-- Steps that are refused on a full day, and those that come before them
-- (src/online-orders/online-orders.service.ts).
use Prim.Native.String.{String}
use lalaba_backend_showcase.Base.{ℕ, ◌≤◌, ◌≡◌, refl, ap, ◌∙◌, true, some, arith, leb}
use lalaba_backend_showcase.Pricing.Doubles.{Doubles}
use lalaba_backend_showcase.Service.Document.{OnlineOrder}
use lalaba_backend_showcase.Service.State.{
  Outcome, done, refused, World, Step, ◌>>=◌, with_transaction,
}
use lalaba_backend_showcase.Service.Cap.{accepted_on, scheduled_day, reserve_daily_cap_slot}
use lalaba_backend_showcase.Service.Books.{SameBooks}
use lalaba_backend_showcase.Service.Keeping.{Quiet}
use lalaba_backend_showcase.Service.Results.{Returning}
use lalaba_backend_showcase.Service.Runs.{IsRefused}

module _ (d : Doubles) where
  -- The step is refused wherever the books are those of `w0`.
  pub record RefusingAt {A : Type 0} (w0 : World d) (m : Step d A) : Type 0 where
    pub refuses : (w : World d) → SameBooks d w0 w → IsRefused d (m w)

  SameBooks-trans : (a b c : World d) → SameBooks d a b → SameBooks d b c → SameBooks d a c
  SameBooks-trans a b c ab bc = record {
    orders = bc.orders ∙ ab.orders;
    rests = bc.rests ∙ ab.rests;
    ledger = bc.ledger ∙ ab.ledger;
    transactions = bc.transactions ∙ ab.transactions;
    promotions = bc.promotions ∙ ab.promotions;
  }

  pub then_at :
      {A B : Type 0} (w0 : World d) (Q : A → Type 0) (m : Step d A) (g : A → Step d B)
      → Quiet d m
      → Returning d Q m
      → ((a : A) → Q a → RefusingAt w0 (g a))
      → RefusingAt w0 (m >>= g)
  unfolding ◌>>=◌
  then_at {A} {B} w0 Q m g q r h = record {
    refuses = λ w s. go w s (m w) (q.same w) (λ a e. r.returns w a e);
  }
    where
      go :
          (w : World d)
          → SameBooks d w0 w
          → (x : Outcome A × World d) → SameBooks d w x.1
          → ((a : A) → x.0 ≡ done a → Q a)
          → let s : Outcome B × World d = elim x.0 [
            | done a ↦ g a x.1
            | refused e ↦ (refused e, x.1)
          ] in
            IsRefused d s
      go w s (done a, w') t f = (h a (f a refl)).refuses w' (SameBooks-trans w0 w w' s t)
      go w s (refused e, w') t f = tt

  pub refused_first :
      {A B : Type 0} (w0 : World d) (m : Step d A) (g : A → Step d B)
      → RefusingAt w0 m
      → RefusingAt w0 (with_transaction (m >>= g))
  unfolding ◌>>=◌ with_transaction
  refused_first {A} {B} w0 m g r = record { refuses = λ w s. go w (m w) (r.refuses w s) }
    where
      go :
          (w : World d) (x : Outcome A × World d)
          → IsRefused d x
          → let s : Outcome B × World d = elim x.0 [
            | done a ↦ g a x.1
            | refused e ↦ (refused e, x.1)
          ] in
            let t : Outcome B × World d = elim s.0 [
              | done a ↦ (done a, s.1)
              | refused e ↦ (refused e, w)
            ] in
            IsRefused d t
      go w (done a, w') h = absurd h
      go w (refused e, w') h = tt

  -- The day has as many other orders as its washer may take.
  abbrev pub IsFull : ℕ → ℕ → String → OnlineOrder d → World d → Type 0
  IsFull id most today o w =
      most
      ≤ accepted_on d id o.rest.provider.branch_id (scheduled_day d today o) w.db.orders w.rests

  pub full_slot :
      (id most : ℕ) (today : String) (o : OnlineOrder d) (w0 : World d)
      → IsFull id most today o w0
      → RefusingAt w0 (reserve_daily_cap_slot d id (some most) today o)
  unfolding reserve_daily_cap_slot
  full_slot id most today o w0 full = record {
    refuses = λ w s.
        let branch = o.rest.provider.branch_id in
        let day = scheduled_day d today o in
        let same : accepted_on d id branch day w.db.orders w.rests
            ≡ accepted_on d id branch day w0.db.orders w0.rests =
          ap (λ os. accepted_on d id branch day os w.rests) s.orders
          ∙ ap (λ rs. accepted_on d id branch day w0.db.orders rs) s.rests in
        let all_taken : leb most (accepted_on d id branch day w.db.orders w.rests) ≡ true =
          ground (arith, same) in
        rw all_taken tt;
  }
