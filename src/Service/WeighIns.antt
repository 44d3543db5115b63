-- ===== src/Service/WeighIns.antt =====
-- The document that a weigh-in returns (`recordPickupWeight` of
-- src/online-orders/online-orders.service.ts).
use Prim.Native.String.{String}
use lalaba_backend_showcase.Base.{ℕ, ◌≡◌, refl, sym, Option, none, List}
use lalaba_backend_showcase.Base.Int.{ℤ}
use lalaba_backend_showcase.Orders.Status.{OrderStatus, pickup_weighed}
use lalaba_backend_showcase.Pricing.Doubles.{Doubles}
use lalaba_backend_showcase.Service.Document.{OnlineOrder, consumed_centavos}
use lalaba_backend_showcase.Service.State.{
  User, ◌>>=◌, with_transaction, saved, transition, as_actor,
}
use lalaba_backend_showcase.Service.Weighing.{Measurement, finalize_pricing}
use lalaba_backend_showcase.Service.Measured.{IsWeighed, finalize_pricing-IsWeighed}
use lalaba_backend_showcase.Service.Money.{owed_centavos, with_consumed, consume_outstanding_fee}
use lalaba_backend_showcase.Service.Access.{StaffUser, assert_assigned_courier}
use lalaba_backend_showcase.Service.Pickup.{with_pickup_proof}
use lalaba_backend_showcase.Service.Results.{
  Returning, Returning-then, after_any, Returning-in_transaction, Returning-transition,
  Returning-saved, Returning-consumed, moved,
}

module _ (d : Doubles) (branch_owner : ℕ → Option String)
    (find_staff : String → Option StaffUser) where
  -- The document that a weigh-in returns, against the order that it read.
  unfoldable pub Charged : Measurement d → OnlineOrder d → OnlineOrder d → Type 0
  Charged m before o =
      (o.base.status ≡ pickup_weighed)
      × IsWeighed d m before o
      × (consumed_centavos d o ≡ owed_centavos d o)

  Debited : Measurement d → OnlineOrder d → OnlineOrder d → Type 0
  Debited m before o = IsWeighed d m before o × (consumed_centavos d o ≡ owed_centavos d o)

  same_prices :
      (m : Measurement d) (before o : OnlineOrder d) (owed : ℤ)
      → IsWeighed d m before o
      → IsWeighed d m before (with_consumed d owed o)
  same_prices m before o owed r = record {
    lines = r.lines;
    services = r.services;
    fee = r.fee;
    total = r.total;
    discount = r.discount;
  }

  moved_prices :
      (m : Measurement d) (before o : OnlineOrder d) (to : OrderStatus) (now : ℕ)
      → IsWeighed d m before o
      → IsWeighed d m before (moved d to now o)
  moved_prices m before o to now r = record {
    lines = r.lines;
    services = r.services;
    fee = r.fee;
    total = r.total;
    discount = r.discount;
  }

  saved_prices :
      (m : Measurement d) (before : OnlineOrder d) (keys : List String) (uid : String) (now : ℕ)
      → IsWeighed d m before
          (with_pickup_proof d branch_owner find_staff keys uid now (finalize_pricing d m before))
  saved_prices m before keys uid now =
      let r = finalize_pricing-IsWeighed d m before in
      record {
        lines = r.lines;
        services = r.services;
        fee = r.fee;
        total = r.total;
        discount = r.discount;
      }

  pub weight-Returning :
      (id : ℕ) (courier : User) (m : Measurement d) (keys : List String) (now : ℕ)
      (before : OnlineOrder d)
      → Returning d (Charged m before) (
          assert_assigned_courier before.rest.pickup_assignment courier.uid >>= λ a.
          with_transaction (
            saved d id (
              with_pickup_proof d branch_owner find_staff keys courier.uid now
                (finalize_pricing d m before))
            >>= λ o1. consume_outstanding_fee d id o1 >>= λ o2.
                transition d id pickup_weighed (as_actor courier none) now o2))
  unfolding Charged Debited
  weight-Returning id courier m keys now before = after_any d _ _ λ a.
      Returning-in_transaction d _ (
        Returning-then d (IsWeighed d m before) _ _
          (Returning-saved d id _ (saved_prices m before keys courier.uid now))
          λ o1 r.
            Returning-then d (Debited m before) _ _
              (Returning-consumed d id o1 (λ same. (r, sym same))
                (same_prices m before o1 (owed_centavos d o1) r, refl))
              λ o2 c.
                Returning-transition d id pickup_weighed _ now o2
                  (refl, moved_prices m before o2 pickup_weighed now c.0, c.1))
