-- ===== src/Service/Handover.antt =====
-- The handlers from the ready laundry to its hand-over to the customer
-- (src/online-orders/online-orders.service.ts).
use Prim.Native.String.{String}
use text.Mathlib.Text.{◌==◌ as str_eq}
use lalaba_backend_showcase.Base.{
  ℕ, Bool, not, ◌&&◌, Option, none, some, List, [], ◌∷◌, ◌++◌, ltb, if◌then◌else◌, is_some,
}
use lalaba_backend_showcase.Orders.Status.{
  OrderStatus, laundry_ready, awaiting_customer_pickup, awaiting_return_assignment, return_assigned,
  return_en_route, return_arrived, delivered_to_customer, delivery_attempted, returned_to_provider,
  awaiting_redelivery_selection, redelivery_scheduled, customer_pickup_verified,
}
use lalaba_backend_showcase.Pricing.Legs.{
  FulfillmentReturnMode, customer_self_pickup, provider_delivery,
}
use lalaba_backend_showcase.Pricing.Doubles.{Doubles}
use lalaba_backend_showcase.Service.Document.{
  OnlineTransactionStatus, add_on, LegAssignment, OnlineOrder, outstanding,
}
use lalaba_backend_showcase.Service.State.{
  bad_request, User, Step, find_order_or_throw, ◌>>=◌, ◌>>◌, saved, with_transaction, pure,
  throw_if,
}
use lalaba_backend_showcase.Service.Money.{
  PaymentCollectionFields, record_collection_transaction, consume_outstanding_fee,
  save_and_transition,
}
use lalaba_backend_showcase.Service.Access.{
  StaffUser, assert_branch_ownership, assert_assigned_courier, assert_assignable_courier,
  assert_customer, assigned, proof_of,
}
use lalaba_backend_showcase.Service.Pickup.{RecordAttemptInput, attempt_of, stamp, two_transitions}

abbrev pub ready_next : FulfillmentReturnMode → OrderStatus
ready_next customer_self_pickup = awaiting_customer_pickup
ready_next provider_delivery = awaiting_return_assignment

module _ (d : Doubles) (branch_owner : ℕ → Option String)
    (find_staff : String → Option StaffUser) where
  abbrev pub with_return : Option LegAssignment → OnlineOrder d → OnlineOrder d
  with_return a o = record o { rest = record o.rest { return_assignment = a } }

  abbrev pub with_return_proof : List String → String → ℕ → OnlineOrder d → OnlineOrder d
  with_return_proof keys uid now o = record o {
    rest = record o.rest { return_proof = proof_of keys uid now o.rest.return_proof };
  }

  abbrev pub with_completion : ℕ → OnlineOrder d → OnlineOrder d
  with_completion now o = record o { rest = record o.rest { completed_at = some now } }

  -- `saveAndTransition` twice: two transactions, the second on the order that the first returned.
  abbrev pub in_turn :
      ℕ → OrderStatus → OrderStatus → User → ℕ → OnlineOrder d → Step d (OnlineOrder d)
  in_turn id to next actor now o = do
    o' ← save_and_transition d id to actor none now o
    save_and_transition d id next actor none now o'

  unfoldable pub mark_laundry_ready : ℕ → User → ℕ → Step d (OnlineOrder d)
  mark_laundry_ready id actor now = do
    o ← find_order_or_throw d id
    assert_branch_ownership branch_owner o.rest.provider.branch_id actor
    in_turn id laundry_ready (ready_next o.rest.return_mode) actor now o

  unfoldable pub choose_return_option :
      ℕ → User → FulfillmentReturnMode → ℕ → Step d (OnlineOrder d)
  choose_return_option id customer mode now = do
    o ← find_order_or_throw d id
    assert_customer d o customer
    save_and_transition d id (ready_next mode) customer none now
        (record o { rest = record o.rest { return_mode = mode } })

  unfoldable pub assign_return_staff : ℕ → User → String → ℕ → Step d (OnlineOrder d)
  assign_return_staff id actor staff_uid now = do
    o ← find_order_or_throw d id
    assert_branch_ownership branch_owner o.rest.provider.branch_id actor
    assert_assignable_courier d branch_owner find_staff id o staff_uid actor
    save_and_transition d id return_assigned actor none now
        (with_return (some (assigned staff_uid now)) o)

  unfoldable pub start_return_route : ℕ → User → ℕ → Step d (OnlineOrder d)
  start_return_route id courier now = do
    o ← find_order_or_throw d id
    assert_assigned_courier o.rest.return_assignment courier.uid
    save_and_transition d id return_en_route courier none now
        (with_return (stamp (λ a. record a { en_route_at = some now }) o.rest.return_assignment) o)

  unfoldable pub arrive_at_return : ℕ → User → ℕ → Step d (OnlineOrder d)
  arrive_at_return id courier now = do
    o ← find_order_or_throw d id
    assert_assigned_courier o.rest.return_assignment courier.uid
    save_and_transition d id return_arrived courier none now
        (with_return (stamp (λ a. record a { arrived_at = some now }) o.rest.return_assignment) o)

  -- A first collection, or an add-on to an order that was paid before.
  abbrev pub settlement_status : OnlineOrder d → OnlineTransactionStatus
  settlement_status o =
      if is_some o.rest.payment_summary.collected_at
      then add_on
      else OnlineTransactionStatus.completed

  -- What is still owed is collected, and the fee on it debited.
  unfoldable pub settle_balance :
      ℕ → User → PaymentCollectionFields → ℕ → OnlineOrder d → Step d (OnlineOrder d)
  settle_balance id actor input now o =
      if ltb 0 (outstanding d o)
      then (do
        o' ←
            record_collection_transaction d id actor input (outstanding d o) (settlement_status o)
              now o
        consume_outstanding_fee d id o')
      else pure o

  abbrev pub unpaid : PaymentCollectionFields → OnlineOrder d → Bool
  unpaid input o = ltb 0 (outstanding d o) && not (is_some input.payment_method)

  -- The input of a hand-over that passes none has no field.
  unfoldable pub record_delivery :
      ℕ → User → PaymentCollectionFields → List String → ℕ → Step d (OnlineOrder d)
  unfolding settle_balance
  record_delivery id courier input keys now = do
    o ← find_order_or_throw d id
    assert_assigned_courier o.rest.return_assignment courier.uid
    throw_if (unpaid input o) bad_request
    with_transaction do
      o1 ← saved d id (
          with_completion now (
            with_return_proof keys courier.uid now (
              with_return
                (stamp (λ a. record a { completed_at = some now }) o.rest.return_assignment) o)))
      o2 ← settle_balance id courier input now o1
      two_transitions d branch_owner find_staff id delivered_to_customer OrderStatus.completed
          courier now o2

  unfoldable pub record_failed_delivery_attempt :
      ℕ → User → RecordAttemptInput → ℕ → Step d (OnlineOrder d)
  record_failed_delivery_attempt id courier input now = do
    o ← find_order_or_throw d id
    assert_assigned_courier o.rest.return_assignment courier.uid
    save_and_transition d id delivery_attempted courier input.reason now (record o {
      rest = record o.rest {
        delivery_attempts =
            o.rest.delivery_attempts
            ++ attempt_of o.rest.delivery_attempts courier.uid input now ∷ [];
      };
    })

  unfoldable pub confirm_returned_to_provider : ℕ → User → ℕ → Step d (OnlineOrder d)
  confirm_returned_to_provider id actor now = do
    o ← find_order_or_throw d id
    assert_branch_ownership branch_owner o.rest.provider.branch_id actor
    in_turn id returned_to_provider awaiting_redelivery_selection actor now o

  abbrev pub customer_or_branch : OnlineOrder d → User → Step d (Unit {0})
  customer_or_branch o actor =
      if str_eq o.rest.customer_uid actor.uid
      then pure tt
      else assert_branch_ownership branch_owner o.rest.provider.branch_id actor

  unfoldable pub schedule_redelivery : ℕ → User → ℕ → Step d (OnlineOrder d)
  schedule_redelivery id actor now = do
    o ← find_order_or_throw d id
    customer_or_branch o actor
    in_turn id redelivery_scheduled return_assigned actor now (with_return none o)

  unfoldable pub verify_self_pickup :
      ℕ → User → PaymentCollectionFields → List String → ℕ → Step d (OnlineOrder d)
  unfolding settle_balance
  verify_self_pickup id actor input keys now = do
    o ← find_order_or_throw d id
    assert_branch_ownership branch_owner o.rest.provider.branch_id actor
    throw_if (unpaid input o) bad_request
    with_transaction do
      o1 ← saved d id (with_completion now (with_return_proof keys actor.uid now o))
      o2 ← settle_balance id actor input now o1
      two_transitions d branch_owner find_staff id customer_pickup_verified OrderStatus.completed
          actor now o2
