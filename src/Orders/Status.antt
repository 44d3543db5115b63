-- ===== src/Orders/Status.antt =====
-- `OrderStatus`, its transition table and the sets of statuses that the services read
-- (src/online-orders/schemas/order-status.enum.ts).
use lalaba_backend_showcase.Base.{
  ℕ, Bool, true, false, not, List, [], ◌∷◌, filter, ◌==◌, if◌then◌else◌,
}

pub data OrderStatus : Type 0 where
  draft pricing_validated pending_provider_acceptance provider_change_proposed : OrderStatus
  accepted_by_provider rejected_by_provider cancelled awaiting_pickup_assignment : OrderStatus
  pickup_assigned pickup_en_route pickup_arrived pickup_weighed : OrderStatus
  picked_up_from_customer pickup_attempt_failed awaiting_pickup_reschedule : OrderStatus
  received_by_provider laundry_in_progress laundry_quality_hold laundry_ready : OrderStatus
  awaiting_return_selection awaiting_return_assignment return_assigned : OrderStatus
  return_en_route return_arrived delivered_to_customer delivery_attempted : OrderStatus
  returned_to_provider awaiting_redelivery_selection redelivery_scheduled : OrderStatus
  awaiting_customer_pickup customer_pickup_verified completed refunded disputed : OrderStatus
  abandoned_unsettled : OrderStatus

-- The place of a status in the enum, by which two statuses are compared.
abbrev pub index : OrderStatus → ℕ
index draft = 0
index pricing_validated = 1
index pending_provider_acceptance = 2
index provider_change_proposed = 3
index accepted_by_provider = 4
index rejected_by_provider = 5
index cancelled = 6
index awaiting_pickup_assignment = 7
index pickup_assigned = 8
index pickup_en_route = 9
index pickup_arrived = 10
index pickup_weighed = 11
index picked_up_from_customer = 12
index pickup_attempt_failed = 13
index awaiting_pickup_reschedule = 14
index received_by_provider = 15
index laundry_in_progress = 16
index laundry_quality_hold = 17
index laundry_ready = 18
index awaiting_return_selection = 19
index awaiting_return_assignment = 20
index return_assigned = 21
index return_en_route = 22
index return_arrived = 23
index delivered_to_customer = 24
index delivery_attempted = 25
index returned_to_provider = 26
index awaiting_redelivery_selection = 27
index redelivery_scheduled = 28
index awaiting_customer_pickup = 29
index customer_pickup_verified = 30
index completed = 31
index refunded = 32
index disputed = 33
index abandoned_unsettled = 34

infix 50 ◌===◌
abbrev pub ◌===◌ : OrderStatus → OrderStatus → Bool
s === t = index s == index t

-- `Object.values(OrderStatus)`
abbrev pub all_statuses : List OrderStatus
all_statuses =
    draft ∷ pricing_validated ∷ pending_provider_acceptance ∷ provider_change_proposed
    ∷ accepted_by_provider ∷ rejected_by_provider ∷ cancelled ∷ awaiting_pickup_assignment
    ∷ pickup_assigned ∷ pickup_en_route ∷ pickup_arrived ∷ pickup_weighed ∷ picked_up_from_customer
    ∷ pickup_attempt_failed ∷ awaiting_pickup_reschedule ∷ received_by_provider
    ∷ laundry_in_progress ∷ laundry_quality_hold ∷ laundry_ready ∷ awaiting_return_selection
    ∷ awaiting_return_assignment ∷ return_assigned ∷ return_en_route ∷ return_arrived
    ∷ delivered_to_customer ∷ delivery_attempted ∷ returned_to_provider
    ∷ awaiting_redelivery_selection ∷ redelivery_scheduled ∷ awaiting_customer_pickup
    ∷ customer_pickup_verified ∷ completed ∷ refunded ∷ disputed ∷ abandoned_unsettled ∷ []

-- `ORDER_STATUS_TRANSITIONS`
unfoldable pub transitions : OrderStatus → List OrderStatus
transitions draft = pricing_validated ∷ cancelled ∷ []
transitions pricing_validated = pending_provider_acceptance ∷ cancelled ∷ []
transitions pending_provider_acceptance =
    accepted_by_provider ∷ provider_change_proposed ∷ rejected_by_provider ∷ cancelled ∷ []
transitions provider_change_proposed = accepted_by_provider ∷ cancelled ∷ []
transitions accepted_by_provider =
    awaiting_pickup_assignment ∷ received_by_provider ∷ cancelled ∷ []
transitions rejected_by_provider = []
transitions cancelled = []
transitions awaiting_pickup_assignment = pickup_assigned ∷ []
transitions pickup_assigned = pickup_en_route ∷ []
transitions pickup_en_route = pickup_arrived ∷ []
transitions pickup_arrived = pickup_weighed ∷ pickup_attempt_failed ∷ []
transitions pickup_weighed = pickup_weighed ∷ picked_up_from_customer ∷ []
transitions picked_up_from_customer = laundry_in_progress ∷ []
transitions pickup_attempt_failed = pickup_assigned ∷ awaiting_pickup_reschedule ∷ []
transitions awaiting_pickup_reschedule = pickup_assigned ∷ cancelled ∷ []
transitions received_by_provider = laundry_in_progress ∷ []
transitions laundry_in_progress = laundry_quality_hold ∷ laundry_ready ∷ []
transitions laundry_quality_hold = laundry_in_progress ∷ []
transitions laundry_ready =
    awaiting_return_selection ∷ awaiting_return_assignment ∷ awaiting_customer_pickup ∷ []
transitions awaiting_return_selection = awaiting_return_assignment ∷ awaiting_customer_pickup ∷ []
transitions awaiting_return_assignment = return_assigned ∷ []
transitions return_assigned = return_en_route ∷ []
transitions return_en_route = return_arrived ∷ []
transitions return_arrived = delivered_to_customer ∷ delivery_attempted ∷ []
transitions delivered_to_customer = completed ∷ []
transitions delivery_attempted = returned_to_provider ∷ []
transitions returned_to_provider = awaiting_redelivery_selection ∷ []
transitions awaiting_redelivery_selection = redelivery_scheduled ∷ abandoned_unsettled ∷ []
transitions redelivery_scheduled = return_assigned ∷ []
transitions awaiting_customer_pickup = customer_pickup_verified ∷ abandoned_unsettled ∷ []
transitions customer_pickup_verified = completed ∷ []
transitions completed = disputed ∷ []
transitions refunded = []
transitions disputed = []
transitions abandoned_unsettled = awaiting_redelivery_selection ∷ awaiting_customer_pickup ∷ []

-- `xs.includes(s)`, and `has` of a set of statuses
abbrev pub includes : List OrderStatus → OrderStatus → Bool
includes [] s = false
includes (x ∷ xs) s = if x === s then true else includes xs s

-- What `assertValidTransition` does: it returns, or throws a `ConflictException`.
pub data Verdict : Type 0 where
  allowed conflict : Verdict

unfoldable pub assert_valid_transition : OrderStatus → OrderStatus → Verdict
unfolding transitions
assert_valid_transition from to = if not (includes (transitions from) to) then conflict else allowed

abbrev pub cap_exempt_statuses : List OrderStatus
cap_exempt_statuses =
    draft ∷ pricing_validated ∷ pending_provider_acceptance ∷ provider_change_proposed
    ∷ rejected_by_provider ∷ cancelled ∷ refunded ∷ []

unfoldable pub cap_counted_statuses : List OrderStatus
cap_counted_statuses = filter (λ s. not (includes cap_exempt_statuses s)) all_statuses
