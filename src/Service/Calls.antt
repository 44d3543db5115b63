-- ===== src/Service/Calls.antt =====
-- Sequences of calls of the order handlers, by any callers and on any orders
-- (src/online-orders/online-orders.service.ts).
use Prim.Native.String.{String}
use lalaba_backend_showcase.Base.{ℕ, ◌≤◌, ◌≡◌, refl, Bool, Option, some, List, [], ◌∷◌}
use lalaba_backend_showcase.Base.Int.{ℤ, pos}
use lalaba_backend_showcase.Base.Keyed.{find}
use lalaba_backend_showcase.Orders.Order.{Order}
use lalaba_backend_showcase.Promotions.Codes.{PromoCode}
use lalaba_backend_showcase.Promotions.Slots.{slots_taken}
use lalaba_backend_showcase.Promotions.Counted.{IsCounted}
use lalaba_backend_showcase.Orders.Status.{OrderStatus}
use lalaba_backend_showcase.Pricing.Legs.{FulfillmentReturnMode}
use lalaba_backend_showcase.Pricing.Doubles.{Doubles}
use lalaba_backend_showcase.Service.State.{User, World}
use lalaba_backend_showcase.Service.Weighing.{Measurement}
use lalaba_backend_showcase.Service.Money.{PaymentCollectionFields}
use lalaba_backend_showcase.Service.Access.{StaffUser}
use lalaba_backend_showcase.Service.Eligibility.{Providers, MapLocation}
use lalaba_backend_showcase.Service.Pickup.{
  RecordAttemptInput, assign_pickup_staff, start_pickup_route, arrive_at_pickup,
  record_pickup_weight, record_pickup_payment, record_failed_pickup_attempt, retry_pickup_same_day,
  escalate_to_reschedule, reschedule_pickup, cancel_after_failed_pickup, receive_at_counter,
}
use lalaba_backend_showcase.Service.Handover.{
  mark_laundry_ready, choose_return_option, assign_return_staff, start_return_route,
  arrive_at_return, record_delivery, record_failed_delivery_attempt, confirm_returned_to_provider,
  schedule_redelivery, verify_self_pickup,
}
use lalaba_backend_showcase.Service.Holds.{
  RaiseQualityHoldInput, raise_quality_hold, respond_to_quality_hold,
  auto_resolve_expired_quality_hold,
}
use lalaba_backend_showcase.Service.Decisions.{
  reject_order, propose_order_change, respond_to_provider_change, cancel_order, override_status,
  abandon_unsettled_order, reinstate_abandoned_order,
}
use lalaba_backend_showcase.Service.Acceptance.{accept_order}
use lalaba_backend_showcase.Service.Books.{Balanced, Advances, Advances-trans}
use lalaba_backend_showcase.Orders.Runs.{Reach}
use lalaba_backend_showcase.Service.PickupBooks
use lalaba_backend_showcase.Service.HandoverBooks
use lalaba_backend_showcase.Service.HoldsBooks
use lalaba_backend_showcase.Service.AcceptBooks
use lalaba_backend_showcase.Service.DecisionsBooks

module _ (d : Doubles) (branch_owner : ℕ → Option String) (find_staff : String → Option StaffUser)
    (distance_km : MapLocation d → MapLocation d → d.Double) where
  -- A handler and its arguments: the order, the caller, what is sent, and the time.
  pub data Call : Type 0 where
    accept : Providers d → ℕ → User → String → ℕ → Call
    reject : ℕ → User → String → ℕ → Call
    propose : ℕ → User → Option d.Double → String → ℕ → Call
    respond_to_change : ℕ → User → Bool → ℕ → Call
    cancel : ℕ → User → String → ℕ → Call
    assign_pickup assign_return : ℕ → User → String → ℕ → Call
    start_pickup arrive_pickup retry_pickup escalate reschedule cancel_failed : ℕ → User → ℕ → Call
    weigh : ℕ → User → Measurement d → List String → ℕ → Call
    pay_at_pickup : ℕ → User → PaymentCollectionFields → ℕ → Call
    fail_pickup fail_delivery : ℕ → User → RecordAttemptInput → ℕ → Call
    receive : ℕ → User → Measurement d → List String → PaymentCollectionFields → ℕ → Call
    raise_hold : ℕ → User → RaiseQualityHoldInput → ℕ → Call
    respond_to_hold : ℕ → User → Bool → ℕ → Call
    sweep_hold : ℕ → ℕ → Call
    mark_ready start_return arrive_return confirm_returned redeliver : ℕ → User → ℕ → Call
    choose_return : ℕ → User → FulfillmentReturnMode → ℕ → Call
    deliver self_pickup : ℕ → User → PaymentCollectionFields → List String → ℕ → Call
    override : ℕ → OrderStatus → User → String → ℕ → Call
    abandon : ℕ → Option User → Option String → ℕ → Call
    reinstate : ℕ → User → Option String → ℕ → Call

  -- The database after the call, whether it returned or threw.
  unfoldable pub run : Call → World d → World d
  run (accept ps id u today now) w = (accept_order d branch_owner distance_km ps id u today now w).1
  run (reject id u reason now) w = (reject_order d branch_owner id u reason now w).1
  run (propose id u revised reason now) w =
      (propose_order_change d branch_owner id u revised reason now w).1
  run (respond_to_change id u approve now) w =
      (respond_to_provider_change d branch_owner id u approve now w).1
  run (cancel id u reason now) w = (cancel_order d branch_owner id u reason now w).1
  run (assign_pickup id u uid now) w =
      (assign_pickup_staff d branch_owner find_staff id u uid now w).1
  run (assign_return id u uid now) w =
      (assign_return_staff d branch_owner find_staff id u uid now w).1
  run (start_pickup id u now) w = (start_pickup_route d branch_owner find_staff id u now w).1
  run (arrive_pickup id u now) w = (arrive_at_pickup d branch_owner find_staff id u now w).1
  run (retry_pickup id u now) w = (retry_pickup_same_day d branch_owner find_staff id u now w).1
  run (escalate id u now) w = (escalate_to_reschedule d branch_owner find_staff id u now w).1
  run (reschedule id u now) w = (reschedule_pickup d branch_owner find_staff id u now w).1
  run (cancel_failed id u now) w =
      (cancel_after_failed_pickup d branch_owner find_staff id u now w).1
  run (weigh id u m keys now) w =
      (record_pickup_weight d branch_owner find_staff id u m keys now w).1
  run (pay_at_pickup id u input now) w =
      (record_pickup_payment d branch_owner find_staff id u input now w).1
  run (fail_pickup id u input now) w =
      (record_failed_pickup_attempt d branch_owner find_staff id u input now w).1
  run (fail_delivery id u input now) w =
      (record_failed_delivery_attempt d branch_owner find_staff id u input now w).1
  run (receive id u m keys input now) w =
      (receive_at_counter d branch_owner find_staff id u m keys input now w).1
  run (raise_hold id u input now) w = (raise_quality_hold d branch_owner id u input now w).1
  run (respond_to_hold id u approve now) w =
      (respond_to_quality_hold d branch_owner id u approve now w).1
  run (sweep_hold id now) w = (auto_resolve_expired_quality_hold d branch_owner id now w).1
  run (mark_ready id u now) w = (mark_laundry_ready d branch_owner find_staff id u now w).1
  run (start_return id u now) w = (start_return_route d branch_owner find_staff id u now w).1
  run (arrive_return id u now) w = (arrive_at_return d branch_owner find_staff id u now w).1
  run (confirm_returned id u now) w =
      (confirm_returned_to_provider d branch_owner find_staff id u now w).1
  run (redeliver id u now) w = (schedule_redelivery d branch_owner find_staff id u now w).1
  run (choose_return id u mode now) w =
      (choose_return_option d branch_owner find_staff id u mode now w).1
  run (deliver id u input keys now) w =
      (record_delivery d branch_owner find_staff id u input keys now w).1
  run (self_pickup id u input keys now) w =
      (verify_self_pickup d branch_owner find_staff id u input keys now w).1
  run (override id to u remark now) w = (override_status d branch_owner id to u remark now w).1
  run (abandon id u remark now) w = (abandon_unsettled_order d branch_owner id u remark now w).1
  run (reinstate id u remark now) w = (reinstate_abandoned_order d branch_owner id u remark now w).1

  unfoldable pub run_all : List Call → World d → World d
  unfolding run
  run_all [] w = w
  run_all (c ∷ cs) w = run_all cs (run c w)

  run-Keeps :
      (c : Call) (w : World d) → Balanced d w → Balanced d (run c w) × Advances d w (run c w)
  unfolding run
  run-Keeps (accept ps id u today now) w bal =
      (AcceptBooks.accept_order-Keeps d branch_owner distance_km ps id u today now).keep w bal
  run-Keeps (reject id u reason now) w bal =
      (DecisionsBooks.reject_order-Keeps d branch_owner id u reason now).keep w bal
  run-Keeps (propose id u revised reason now) w bal =
      (DecisionsBooks.propose_order_change-Keeps d branch_owner id u revised reason now).keep w bal
  run-Keeps (respond_to_change id u approve now) w bal =
      (DecisionsBooks.respond_to_provider_change-Keeps d branch_owner id u approve now).keep w bal
  run-Keeps (cancel id u reason now) w bal =
      (DecisionsBooks.cancel_order-Keeps d branch_owner id u reason now).keep w bal
  run-Keeps (assign_pickup id u uid now) w bal =
      (PickupBooks.assign_pickup_staff-Keeps d branch_owner find_staff id u uid now).keep w bal
  run-Keeps (assign_return id u uid now) w bal =
      (HandoverBooks.assign_return_staff-Keeps d branch_owner find_staff id u uid now).keep w bal
  run-Keeps (start_pickup id u now) w bal =
      (PickupBooks.start_pickup_route-Keeps d branch_owner find_staff id u now).keep w bal
  run-Keeps (arrive_pickup id u now) w bal =
      (PickupBooks.arrive_at_pickup-Keeps d branch_owner find_staff id u now).keep w bal
  run-Keeps (retry_pickup id u now) w bal =
      (PickupBooks.retry_pickup_same_day-Keeps d branch_owner find_staff id u now).keep w bal
  run-Keeps (escalate id u now) w bal =
      (PickupBooks.escalate_to_reschedule-Keeps d branch_owner find_staff id u now).keep w bal
  run-Keeps (reschedule id u now) w bal =
      (PickupBooks.reschedule_pickup-Keeps d branch_owner find_staff id u now).keep w bal
  run-Keeps (cancel_failed id u now) w bal =
      (PickupBooks.cancel_after_failed_pickup-Keeps d branch_owner find_staff id u now).keep w bal
  run-Keeps (weigh id u m keys now) w bal =
      (PickupBooks.record_pickup_weight-Keeps d branch_owner find_staff id u m keys now).keep w bal
  run-Keeps (pay_at_pickup id u input now) w bal =
      (PickupBooks.record_pickup_payment-Keeps d branch_owner find_staff id u input now).keep w bal
  run-Keeps (fail_pickup id u input now) w bal =
      (PickupBooks.record_failed_pickup_attempt-Keeps d branch_owner find_staff id u input now).keep
        w bal
  run-Keeps (fail_delivery id u input now) w bal =
      (HandoverBooks.record_failed_delivery_attempt-Keeps d branch_owner find_staff id u input
          now).keep
        w bal
  run-Keeps (receive id u m keys input now) w bal =
      (PickupBooks.receive_at_counter-Keeps d branch_owner find_staff id u m keys input now).keep w
        bal
  run-Keeps (raise_hold id u input now) w bal =
      (HoldsBooks.raise_quality_hold-Keeps d branch_owner id u input now).keep w bal
  run-Keeps (respond_to_hold id u approve now) w bal =
      (HoldsBooks.respond_to_quality_hold-Keeps d branch_owner id u approve now).keep w bal
  run-Keeps (sweep_hold id now) w bal =
      (HoldsBooks.auto_resolve_expired_quality_hold-Keeps d branch_owner id now).keep w bal
  run-Keeps (mark_ready id u now) w bal =
      (HandoverBooks.mark_laundry_ready-Keeps d branch_owner find_staff id u now).keep w bal
  run-Keeps (start_return id u now) w bal =
      (HandoverBooks.start_return_route-Keeps d branch_owner find_staff id u now).keep w bal
  run-Keeps (arrive_return id u now) w bal =
      (HandoverBooks.arrive_at_return-Keeps d branch_owner find_staff id u now).keep w bal
  run-Keeps (confirm_returned id u now) w bal =
      (HandoverBooks.confirm_returned_to_provider-Keeps d branch_owner find_staff id u now).keep w
        bal
  run-Keeps (redeliver id u now) w bal =
      (HandoverBooks.schedule_redelivery-Keeps d branch_owner find_staff id u now).keep w bal
  run-Keeps (choose_return id u mode now) w bal =
      (HandoverBooks.choose_return_option-Keeps d branch_owner find_staff id u mode now).keep w bal
  run-Keeps (deliver id u input keys now) w bal =
      (HandoverBooks.record_delivery-Keeps d branch_owner find_staff id u input keys now).keep w bal
  run-Keeps (self_pickup id u input keys now) w bal =
      (HandoverBooks.verify_self_pickup-Keeps d branch_owner find_staff id u input keys now).keep w
        bal
  run-Keeps (override id to u remark now) w bal =
      (DecisionsBooks.override_status-Keeps d branch_owner id to u remark now).keep w bal
  run-Keeps (abandon id u remark now) w bal =
      (DecisionsBooks.abandon_unsettled_order-Keeps d branch_owner id u remark now).keep w bal
  run-Keeps (reinstate id u remark now) w bal =
      (DecisionsBooks.reinstate_abandoned_order-Keeps d branch_owner id u remark now).keep w bal

  -- Whatever handlers are called, by whomever, on whichever orders, in any sequence, returning or
  -- throwing: if for every stored order the fee that it says was debited is what the wallets' ledger
  -- holds against it, and the money that it says was collected is the sum of its transactions, then
  -- this is so again at the end.
  pub run_all-Balanced : (cs : List Call) (w : World d) → Balanced d w → Balanced d (run_all cs w)
  unfolding run_all
  run_all-Balanced [] w bal = bal
  run_all-Balanced (c ∷ cs) w bal = run_all-Balanced cs (run c w) (run-Keeps c w bal).0

  run_all-Advances : (cs : List Call) (w : World d) → Balanced d w → Advances d w (run_all cs w)
  unfolding run_all
  run_all-Advances [] w bal = (λ id b there. (b, there, Reach.here), (refl, λ c. c))
  run_all-Advances (c ∷ cs) w bal =
      let step = run-Keeps c w bal in
      Advances-trans d w (run c w) (run_all cs (run c w)) step.1
        (run_all-Advances cs (run c w) step.0)

  -- No handler goes around the state machine: where the books are balanced, whatever handlers are
  -- called, by whomever, in any sequence, each stored order is stored at the end too, and its status
  -- is one that transitions of the table lead to.
  pub handlers_follow_table :
      (cs : List Call) (w : World d) (id : ℕ) (b : Order)
      → Balanced d w
      → find id w.db.orders ≡ some b
      → (b' : Order) × (find id (run_all cs w).db.orders ≡ some b') × Reach b.status b'.status
  handlers_follow_table cs w id b bal there = (run_all-Advances cs w bal).0 id b there

  -- The handlers do not over-issue a promotion: where the books are balanced and each counter of a
  -- promotion is the number of its redemptions that were not released, within its cap, then
  -- whatever handlers are called, by whomever, in any sequence, the acceptances that take a slot for
  -- the branch and the orders that end included, the redemptions of a promotion that were not released
  -- are at most its cap at the end, and its counter is their number.
  pub handlers_keep_promotions :
      (cs : List Call) (w : World d) (p cap : ℕ) (promo : PromoCode) (n : ℤ)
      → Balanced d w
      → IsCounted w.promos w.db
      → find p w.promos ≡ some promo
      → promo.usage_cap_total ≡ some cap
      → find p (run_all cs w).db.counts ≡ some n
      → (slots_taken p (run_all cs w).db.redemptions ≤ cap)
        × (n ≡ pos (slots_taken p (run_all cs w).db.redemptions))
  handlers_keep_promotions cs w p cap promo n bal counted there is_cap count =
      let after = (run_all-Advances cs w bal).1.1 counted in
      (after.capped p cap promo there is_cap, after.counted p n count)
