-- ===== src/Service/Pickup.antt =====
-- The handlers of the pickup leg, and of the receipt at the counter
-- (src/online-orders/online-orders.service.ts).
use Prim.Native.String.{String}
use lalaba_backend_showcase.Base.{
  ℕ, ◌+◌, Bool, true, false, Option, none, some, List, [], ◌∷◌, ◌++◌, if◌then◌else◌, length,
}
use lalaba_backend_showcase.Orders.Status.{
  OrderStatus, pickup_assigned, pickup_en_route, pickup_arrived, pickup_weighed,
  picked_up_from_customer, laundry_in_progress, pickup_attempt_failed, awaiting_pickup_reschedule,
  cancelled, received_by_provider,
}
use lalaba_backend_showcase.Pricing.Doubles.{Doubles}
use lalaba_backend_showcase.Service.Document.{
  PaymentTiming, on_pickup, at_final_handover, completed, LegAssignment, AttemptEvidence,
  AttemptResponsibility, OnlineOrder, outstanding,
}
use lalaba_backend_showcase.Service.State.{
  Outcome, User, as_actor, Step, StepOn, find_order_or_throw, transition, ◌>>=◌, ◌>>◌, saved,
  with_transaction, pure,
}
use lalaba_backend_showcase.Service.Weighing.{Measurement, finalize_pricing}
use lalaba_backend_showcase.Service.Money.{
  PaymentCollectionFields, resolve_pickup_payment_timing, record_collection_transaction,
  consume_outstanding_fee, save_and_transition,
}
use lalaba_backend_showcase.Service.Access.{
  StaffUser, assert_branch_ownership, assert_assigned_courier, assert_assignable_courier,
  assert_customer, assigned, proof_of,
}

pub record RecordAttemptInput : Type 0 where
  pub responsibility : AttemptResponsibility
  pub reason : Option String

abbrev pub attempt_of : List AttemptEvidence → String → RecordAttemptInput → ℕ → AttemptEvidence
attempt_of earlier uid input now = record {
  attempt_number = length earlier + 1;
  actor_uid = uid;
  timestamp = now;
  responsibility = input.responsibility;
  reason = input.reason;
}

abbrev pub stamp : (LegAssignment → LegAssignment) → Option LegAssignment → Option LegAssignment
stamp f none = none
stamp f (some a) = some (f a)

unfoldable pub or_refused : {W A : Type 0} → Outcome A → StepOn W A
or_refused r w = (r, w)

abbrev pub is_now : PaymentTiming → Bool
is_now on_pickup = true
is_now at_final_handover = false

module _ (d : Doubles) (branch_owner : ℕ → Option String)
    (find_staff : String → Option StaffUser) where
  abbrev pub with_pickup : Option LegAssignment → OnlineOrder d → OnlineOrder d
  with_pickup a o = record o { rest = record o.rest { pickup_assignment = a } }

  abbrev pub with_pickup_proof : List String → String → ℕ → OnlineOrder d → OnlineOrder d
  with_pickup_proof keys uid now o = record o {
    rest = record o.rest { pickup_proof = proof_of keys uid now o.rest.pickup_proof };
  }

  abbrev pub with_timing : PaymentTiming → OnlineOrder d → OnlineOrder d
  with_timing t o = record o { rest = record o.rest { payment_timing = t } }

  -- Two transitions of one transaction.
  abbrev pub two_transitions :
      ℕ → OrderStatus → OrderStatus → User → ℕ → OnlineOrder d → Step d (OnlineOrder d)
  two_transitions id to next actor now o = do
    o' ← transition d id to (as_actor actor none) now o
    transition d id next (as_actor actor none) now o'

  -- Collects what is outstanding, unless the customer pays later.
  abbrev pub collect_now :
      ℕ
      → User
      → PaymentCollectionFields
      → PaymentTiming
      → ℕ
      → OnlineOrder d
      → Step d (OnlineOrder d)
  collect_now id actor input timing now o =
      if is_now timing
      then record_collection_transaction d id actor input (outstanding d o) completed now o
      else pure o

  unfoldable pub assign_pickup_staff : ℕ → User → String → ℕ → Step d (OnlineOrder d)
  assign_pickup_staff id actor staff_uid now = do
    o ← find_order_or_throw d id
    assert_branch_ownership branch_owner o.rest.provider.branch_id actor
    assert_assignable_courier d branch_owner find_staff id o staff_uid actor
    save_and_transition d id pickup_assigned actor none now
        (with_pickup (some (assigned staff_uid now)) o)

  unfoldable pub start_pickup_route : ℕ → User → ℕ → Step d (OnlineOrder d)
  start_pickup_route id courier now = do
    o ← find_order_or_throw d id
    assert_assigned_courier o.rest.pickup_assignment courier.uid
    save_and_transition d id pickup_en_route courier none now
        (with_pickup (stamp (λ a. record a { en_route_at = some now }) o.rest.pickup_assignment) o)

  unfoldable pub arrive_at_pickup : ℕ → User → ℕ → Step d (OnlineOrder d)
  arrive_at_pickup id courier now = do
    o ← find_order_or_throw d id
    assert_assigned_courier o.rest.pickup_assignment courier.uid
    save_and_transition d id pickup_arrived courier none now
        (with_pickup (stamp (λ a. record a { arrived_at = some now }) o.rest.pickup_assignment) o)

  unfoldable pub record_pickup_weight :
      ℕ → User → Measurement d → List String → ℕ → Step d (OnlineOrder d)
  record_pickup_weight id courier m keys now = do
    o ← find_order_or_throw d id
    assert_assigned_courier o.rest.pickup_assignment courier.uid
    with_transaction do
      o1 ← saved d id (with_pickup_proof keys courier.uid now (finalize_pricing d m o))
      o2 ← consume_outstanding_fee d id o1
      transition d id pickup_weighed (as_actor courier none) now o2

  unfoldable pub record_pickup_payment :
      ℕ → User → PaymentCollectionFields → ℕ → Step d (OnlineOrder d)
  record_pickup_payment id courier input now = do
    o ← find_order_or_throw d id
    assert_assigned_courier o.rest.pickup_assignment courier.uid
    timing ← or_refused (resolve_pickup_payment_timing o.rest.provider.allows_pay_at_handover input)
    with_transaction do
      o1 ← saved d id (
          with_timing timing (
            with_pickup (stamp (λ a. record a { completed_at = some now }) o.rest.pickup_assignment)
              o))
      o2 ← collect_now id courier input timing now o1
      two_transitions id picked_up_from_customer laundry_in_progress courier now o2

  unfoldable pub record_failed_pickup_attempt :
      ℕ → User → RecordAttemptInput → ℕ → Step d (OnlineOrder d)
  record_failed_pickup_attempt id courier input now = do
    o ← find_order_or_throw d id
    assert_assigned_courier o.rest.pickup_assignment courier.uid
    save_and_transition d id pickup_attempt_failed courier input.reason now (record o {
      rest = record o.rest {
        pickup_attempts =
            o.rest.pickup_attempts ++ attempt_of o.rest.pickup_attempts courier.uid input now ∷ [];
      };
    })

  unfoldable pub retry_pickup_same_day : ℕ → User → ℕ → Step d (OnlineOrder d)
  retry_pickup_same_day id actor now = do
    o ← find_order_or_throw d id
    assert_branch_ownership branch_owner o.rest.provider.branch_id actor
    save_and_transition d id pickup_assigned actor none now o

  unfoldable pub escalate_to_reschedule : ℕ → User → ℕ → Step d (OnlineOrder d)
  escalate_to_reschedule id actor now = do
    o ← find_order_or_throw d id
    assert_branch_ownership branch_owner o.rest.provider.branch_id actor
    save_and_transition d id awaiting_pickup_reschedule actor none now o

  unfoldable pub reschedule_pickup : ℕ → User → ℕ → Step d (OnlineOrder d)
  reschedule_pickup id actor now = do
    o ← find_order_or_throw d id
    assert_customer d o actor
    save_and_transition d id pickup_assigned actor none now (with_pickup none o)

  unfoldable pub cancel_after_failed_pickup : ℕ → User → ℕ → Step d (OnlineOrder d)
  cancel_after_failed_pickup id actor now = do
    o ← find_order_or_throw d id
    assert_customer d o actor
    save_and_transition d id cancelled actor (some "No refund — nothing collected") now o

  unfoldable pub receive_at_counter :
      ℕ → User → Measurement d → List String → PaymentCollectionFields → ℕ → Step d (OnlineOrder d)
  receive_at_counter id actor m keys input now = do
    o ← find_order_or_throw d id
    assert_branch_ownership branch_owner o.rest.provider.branch_id actor
    timing ← or_refused (resolve_pickup_payment_timing o.rest.provider.allows_pay_at_handover input)
    with_transaction do
      o1 ←
          saved d id
            (with_timing timing (with_pickup_proof keys actor.uid now (finalize_pricing d m o)))
      o2 ← collect_now id actor input timing now o1
      o3 ← consume_outstanding_fee d id o2
      two_transitions id received_by_provider laundry_in_progress actor now o3
