-- ===== src/Service/Quiets.antt =====
-- Steps that only read: the guards of a handler
-- (src/online-orders/online-orders.service.ts).
use Prim.Native.String.{String}
use lalaba_backend_showcase.Base.{ℕ, ◌≡◌, refl, ap, Bool, Option}
use lalaba_backend_showcase.Pricing.Doubles.{Doubles}
use lalaba_backend_showcase.Service.Document.{LegAssignment, OnlineOrder}
use lalaba_backend_showcase.Service.State.{Outcome, Refusal, User, World, Step, throw_if, pure}
use lalaba_backend_showcase.Service.Access.{
  assert_branch_ownership, assert_assigned_courier, assert_customer,
}
use lalaba_backend_showcase.Service.Pickup.{or_refused}
use lalaba_backend_showcase.Service.Counts.{promo_books}
use lalaba_backend_showcase.Service.Keeping.{Quiet}

module _ (d : Doubles) where
  pub quiet : {A : Type 0} (m : Step d A) → ((w : World d) → (m w).1 ≡ w) → Quiet d m
  quiet m h = record {
    same = λ w. record {
      orders = ap (λ (v : World d). v.db.orders) (h w);
      rests = ap (λ (v : World d). v.rests) (h w);
      ledger = ap (λ (v : World d). v.wallets.ledger) (h w);
      transactions = ap (λ (v : World d). v.transactions) (h w);
      promotions = ap (promo_books d) (h w);
    };
  }

  pub ownership-Quiet :
      (branch_owner : ℕ → Option String) (b : ℕ) (actor : User)
      → Quiet d (assert_branch_ownership branch_owner b actor)
  unfolding assert_branch_ownership throw_if
  ownership-Quiet branch_owner b actor = quiet _ λ w. refl

  pub courier-Quiet :
      (a : Option LegAssignment) (uid : String) → Quiet d (assert_assigned_courier a uid)
  unfolding assert_assigned_courier throw_if
  courier-Quiet a uid = quiet _ λ w. refl

  pub customer-Quiet : (o : OnlineOrder d) (actor : User) → Quiet d (assert_customer d o actor)
  unfolding assert_customer throw_if
  customer-Quiet o actor = quiet _ λ w. refl

  pub throw_if-Quiet : (b : Bool) (e : Refusal) → Quiet d (throw_if b e)
  unfolding throw_if
  throw_if-Quiet b e = quiet _ λ w. refl

  pub refusal-Quiet : {A : Type 0} (r : Outcome A) → Quiet d (or_refused r)
  unfolding or_refused
  refusal-Quiet r = quiet _ λ w. refl

  pub pure-Quiet : {A : Type 0} (a : A) → Quiet d (pure a)
  unfolding pure
  pure-Quiet a = quiet _ λ w. refl
