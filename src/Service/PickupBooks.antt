-- ===== src/Service/PickupBooks.antt =====
-- The handlers of the pickup leg keep the books (src/online-orders/online-orders.service.ts).
use Prim.Native.String.{String}
use lalaba_backend_showcase.Base.{
  none, some, is_some, ℕ, ◌≡◌, refl, Bool, true, false, Option, List,
}
use lalaba_backend_showcase.Orders.Status.{OrderStatus}
use lalaba_backend_showcase.Pricing.Doubles.{Doubles}
use lalaba_backend_showcase.Service.Document.{
  PaymentTiming, OnlineOrder, consumed_centavos, collected_centavos,
}
use lalaba_backend_showcase.Service.State.{Outcome, done, refused, forbidden, User, World}
use lalaba_backend_showcase.Service.Weighing.{Measurement, with_waiver, finalize_pricing}
use lalaba_backend_showcase.Service.Money.{PaymentCollectionFields}
use lalaba_backend_showcase.Service.Access.{
  StaffUser, assignment_rejection, rejection_note, assert_assignable_courier, append_audit_event,
}
use lalaba_backend_showcase.Service.Pickup.{
  RecordAttemptInput, is_now, two_transitions, collect_now, assign_pickup_staff, start_pickup_route,
  arrive_at_pickup, record_pickup_weight, record_pickup_payment, record_failed_pickup_attempt,
  retry_pickup_same_day, escalate_to_reschedule, reschedule_pickup, cancel_after_failed_pickup,
  receive_at_counter,
}
use lalaba_backend_showcase.Service.Books.{SameBooks}
use lalaba_backend_showcase.Service.Keeping.{
  Landing, Quiet, Keeps, handler, after-Quiet, in_transaction, Landing-then, Landing-saved,
  Landing-transition, Landing-fee, Landing-collection, Landing-pure, Landing-if, Keeping-move,
}
use lalaba_backend_showcase.Service.Quiets.{
  ownership-Quiet, courier-Quiet, customer-Quiet, refusal-Quiet,
}

module _ (d : Doubles) where
  pub two_transitions-Landing :
      (branch_owner : ℕ → Option String) (find_staff : String → Option StaffUser) (id : ℕ)
      (to next : OrderStatus) (actor : User) (now : ℕ) (o : OnlineOrder d)
      → Landing d id o (two_transitions d branch_owner find_staff id to next actor now o)
  two_transitions-Landing branch_owner find_staff id to next actor now o =
      Landing-then d _ _ (Landing-transition d id to _ now o)
        λ o1. Landing-transition d id next _ now o1

  waiver-consumed :
      (b : Bool) (o : OnlineOrder d)
      → consumed_centavos d (with_waiver d b o) ≡ consumed_centavos d o
  waiver-consumed true o = refl
  waiver-consumed false o = refl

  waiver-collected :
      (b : Bool) (o : OnlineOrder d)
      → collected_centavos d (with_waiver d b o) ≡ collected_centavos d o
  waiver-collected true o = refl
  waiver-collected false o = refl

  finalize-consumed :
      (m : Measurement d) (o : OnlineOrder d)
      → consumed_centavos d (finalize_pricing d m o) ≡ consumed_centavos d o
  unfolding finalize_pricing
  finalize-consumed m o = waiver-consumed (is_some o.base.platform_fee_promo_id) _

  finalize-collected :
      (m : Measurement d) (o : OnlineOrder d)
      → collected_centavos d (finalize_pricing d m o) ≡ collected_centavos d o
  unfolding finalize_pricing
  finalize-collected m o = waiver-collected (is_some o.base.platform_fee_promo_id) _

  waiver-status : (b : Bool) (o : OnlineOrder d) → (with_waiver d b o).base.status ≡ o.base.status
  waiver-status true o = refl
  waiver-status false o = refl

  finalize-status :
      (m : Measurement d) (o : OnlineOrder d) → (finalize_pricing d m o).base.status ≡ o.base.status
  unfolding finalize_pricing
  finalize-status m o = waiver-status (is_some o.base.platform_fee_promo_id) _

  module _ (branch_owner : ℕ → Option String) (find_staff : String → Option StaffUser) where
    pub assignable-Quiet :
        (id : ℕ) (o : OnlineOrder d) (uid : String) (actor : User)
        → Quiet d (assert_assignable_courier d branch_owner find_staff id o uid actor)
    unfolding assert_assignable_courier
    assignable-Quiet id o uid actor = record {
      same = λ w. go w (assignment_rejection d branch_owner find_staff o uid);
    }
      where
        go :
            (w : World d) (rejection : Option String)
            → let r : Outcome (Unit {0}) × World d = elim rejection [
              | none ↦ (done tt, w)
              | some reason ↦ (
                refused forbidden,
                append_audit_event d id o actor (rejection_note d reason uid) w,
              )
            ] in
              SameBooks d w r.1
        go w none = record {
          orders = refl;
          rests = refl;
          ledger = refl;
          transactions = refl;
          promotions = refl;
        }
        go w (some reason) = record {
          orders = refl;
          rests = refl;
          ledger = refl;
          transactions = refl;
          promotions = refl;
        }

    collect_now-Landing :
        (id : ℕ) (actor : User) (input : PaymentCollectionFields) (t : PaymentTiming) (now : ℕ)
        (o : OnlineOrder d)
        → Landing d id o (collect_now d branch_owner find_staff id actor input t now o)
    collect_now-Landing id actor input t now o =
        Landing-if d (is_now t) _ _ (Landing-collection d id actor input _ _ now o)
          (Landing-pure d id o)

    pub assign_pickup_staff-Keeps :
        (id : ℕ) (actor : User) (staff_uid : String) (now : ℕ)
        → Keeps d id (assign_pickup_staff d branch_owner find_staff id actor staff_uid now)
    unfolding assign_pickup_staff
    assign_pickup_staff-Keeps id actor staff_uid now = handler d id _ λ o.
        after-Quiet d _ _ (ownership-Quiet d branch_owner _ actor) λ a.
          after-Quiet d _ _ (assignable-Quiet id o staff_uid actor)
            λ b. Keeping-move d id _ _ _ now o _ refl refl refl

    pub start_pickup_route-Keeps :
        (id : ℕ) (courier : User) (now : ℕ)
        → Keeps d id (start_pickup_route d branch_owner find_staff id courier now)
    unfolding start_pickup_route
    start_pickup_route-Keeps id courier now = handler d id _ λ o.
        after-Quiet d _ _ (courier-Quiet d _ courier.uid)
          λ a. Keeping-move d id _ _ _ now o _ refl refl refl

    pub arrive_at_pickup-Keeps :
        (id : ℕ) (courier : User) (now : ℕ)
        → Keeps d id (arrive_at_pickup d branch_owner find_staff id courier now)
    unfolding arrive_at_pickup
    arrive_at_pickup-Keeps id courier now = handler d id _ λ o.
        after-Quiet d _ _ (courier-Quiet d _ courier.uid)
          λ a. Keeping-move d id _ _ _ now o _ refl refl refl

    pub record_pickup_weight-Keeps :
        (id : ℕ) (courier : User) (m : Measurement d) (keys : List String) (now : ℕ)
        → Keeps d id (record_pickup_weight d branch_owner find_staff id courier m keys now)
    unfolding record_pickup_weight
    record_pickup_weight-Keeps id courier m keys now = handler d id _ λ o.
        after-Quiet d _ _ (courier-Quiet d _ courier.uid) λ a. in_transaction d _ (
          Landing-then d _ _
            (Landing-saved d o _ (finalize-consumed m o) (finalize-collected m o)
              (finalize-status m o))
            λ o1. Landing-then d _ _ (Landing-fee d id o1) λ o2. Landing-transition d id _ _ now o2)

    pub record_pickup_payment-Keeps :
        (id : ℕ) (courier : User) (input : PaymentCollectionFields) (now : ℕ)
        → Keeps d id (record_pickup_payment d branch_owner find_staff id courier input now)
    unfolding record_pickup_payment
    record_pickup_payment-Keeps id courier input now = handler d id _ λ o.
        after-Quiet d _ _ (courier-Quiet d _ courier.uid) λ a.
          after-Quiet d _ _ (refusal-Quiet d _) λ t. in_transaction d _ (
            Landing-then d _ _ (Landing-saved d o _ refl refl refl) λ o1.
              Landing-then d _ _ (collect_now-Landing id courier input t now o1)
                λ o2. two_transitions-Landing branch_owner find_staff id _ _ courier now o2)

    pub record_failed_pickup_attempt-Keeps :
        (id : ℕ) (courier : User) (input : RecordAttemptInput) (now : ℕ)
        → Keeps d id (record_failed_pickup_attempt d branch_owner find_staff id courier input now)
    unfolding record_failed_pickup_attempt
    record_failed_pickup_attempt-Keeps id courier input now = handler d id _ λ o.
        after-Quiet d _ _ (courier-Quiet d _ courier.uid)
          λ a. Keeping-move d id _ _ _ now o _ refl refl refl

    pub retry_pickup_same_day-Keeps :
        (id : ℕ) (actor : User) (now : ℕ)
        → Keeps d id (retry_pickup_same_day d branch_owner find_staff id actor now)
    unfolding retry_pickup_same_day
    retry_pickup_same_day-Keeps id actor now = handler d id _ λ o.
        after-Quiet d _ _ (ownership-Quiet d branch_owner _ actor)
          λ a. Keeping-move d id _ _ _ now o _ refl refl refl

    pub escalate_to_reschedule-Keeps :
        (id : ℕ) (actor : User) (now : ℕ)
        → Keeps d id (escalate_to_reschedule d branch_owner find_staff id actor now)
    unfolding escalate_to_reschedule
    escalate_to_reschedule-Keeps id actor now = handler d id _ λ o.
        after-Quiet d _ _ (ownership-Quiet d branch_owner _ actor)
          λ a. Keeping-move d id _ _ _ now o _ refl refl refl

    pub reschedule_pickup-Keeps :
        (id : ℕ) (actor : User) (now : ℕ)
        → Keeps d id (reschedule_pickup d branch_owner find_staff id actor now)
    unfolding reschedule_pickup
    reschedule_pickup-Keeps id actor now = handler d id _ λ o.
        after-Quiet d _ _ (customer-Quiet d o actor)
          λ a. Keeping-move d id _ _ _ now o _ refl refl refl

    pub cancel_after_failed_pickup-Keeps :
        (id : ℕ) (actor : User) (now : ℕ)
        → Keeps d id (cancel_after_failed_pickup d branch_owner find_staff id actor now)
    unfolding cancel_after_failed_pickup
    cancel_after_failed_pickup-Keeps id actor now = handler d id _ λ o.
        after-Quiet d _ _ (customer-Quiet d o actor)
          λ a. Keeping-move d id _ _ _ now o _ refl refl refl

    pub receive_at_counter-Keeps :
        (id : ℕ) (actor : User) (m : Measurement d) (keys : List String)
        (input : PaymentCollectionFields) (now : ℕ)
        → Keeps d id (receive_at_counter d branch_owner find_staff id actor m keys input now)
    unfolding receive_at_counter
    receive_at_counter-Keeps id actor m keys input now = handler d id _ λ o.
        after-Quiet d _ _ (ownership-Quiet d branch_owner _ actor) λ a.
          after-Quiet d _ _ (refusal-Quiet d _) λ t. in_transaction d _ (
            Landing-then d _ _
              (Landing-saved d o _ (finalize-consumed m o) (finalize-collected m o)
                (finalize-status m o))
              λ o1. Landing-then d _ _ (collect_now-Landing id actor input t now o1) λ o2.
                Landing-then d _ _ (Landing-fee d id o2)
                  λ o3. two_transitions-Landing branch_owner find_staff id _ _ actor now o3)
