-- ===== src/Service/Tests.antt =====
-- Runs of the order handlers on a small database
-- (src/online-orders/online-orders.service.ts, src/online-orders/pricing.util.ts).

use lalaba_backend_showcase.Base.{◌≤◌, ◌≡◌, refl, true, false, none, some, List, [], ◌∷◌, arith}
use lalaba_backend_showcase.Base.Int.{pos, ◌-ℤ◌, ◌≤ℤ◌}
use lalaba_backend_showcase.Orders.Status.{
  pickup_arrived, return_arrived, awaiting_pickup_reschedule, awaiting_redelivery_selection,
  laundry_quality_hold, provider_change_proposed, abandoned_unsettled, laundry_in_progress,
  assert_valid_transition,
}
use lalaba_backend_showcase.Orders.Transition.{apply_transition}
use lalaba_backend_showcase.Pricing.Doubles.{whole_numbers-IsMonotone}
use lalaba_backend_showcase.Pricing.Lines.{calculate_service_line_total, calculate_platform_fee}
use lalaba_backend_showcase.Pricing.FeeParts.{chargeable_platform_fee_centavos}
use lalaba_backend_showcase.Wallets.Fees.{consume_fee, reverse_fee}
use lalaba_backend_showcase.Service.Document.{QualityHold, pending, OnlineOrder}
use lalaba_backend_showcase.Service.State.{
  Outcome, done, World, find_order_or_throw, throw_if, ◌>>=◌, with_transaction, saved, transition,
  call_wallet, pure,
}
use lalaba_backend_showcase.Service.Weighing.{finalize_pricing}
use lalaba_backend_showcase.Service.Access.{assert_assigned_courier, assert_customer}
use lalaba_backend_showcase.Service.Money.{
  record_collection_transaction, consume_outstanding_fee, save_and_transition,
}
use lalaba_backend_showcase.Service.Pickup.{
  record_pickup_weight, reschedule_pickup, start_pickup_route, arrive_at_pickup,
  assign_pickup_staff,
}
use lalaba_backend_showcase.Service.Handover.{
  record_delivery, schedule_redelivery, start_return_route, arrive_at_return, assign_return_staff,
}
use lalaba_backend_showcase.Service.Holds.{
  resolved, respond_to_quality_hold, auto_resolve_expired_quality_hold,
}
use lalaba_backend_showcase.Service.Cap.{accepted_on}
use lalaba_backend_showcase.Service.Decisions.{abandon_unsettled_order}
use lalaba_backend_showcase.Service.Acceptance.{accept_order}
use lalaba_backend_showcase.Service.Books.{Balanced, fee_sum}
use lalaba_backend_showcase.Service.Calls.{
  run_all, weigh, pay_at_pickup, run_all-Balanced, handlers_follow_table,
}
use lalaba_backend_showcase.Orders.Runs.{Reach}
use lalaba_backend_showcase.Base.Keyed.{find}
use lalaba_backend_showcase.Orders.Order.{Order}
use lalaba_backend_showcase.Service.Settled.{
  HandedOver, by_courier, handover_is_paid, WeighedIn, weighed_fee_is_debited,
}
use lalaba_backend_showcase.Service.Measured.{IsWeighed}
use lalaba_backend_showcase.Service.Reconciled.{
  IsReconciled, Answer, answer_all, total-IsReconciled,
}
use lalaba_backend_showcase.Service.Runs.{IsRefused}
use lalaba_backend_showcase.Service.Stuck.{
  rescheduled_pickup_is_stuck, scheduled_redelivery_is_stuck,
}
use lalaba_backend_showcase.Service.HoldAnswers.{hold_is_answered_once}
use lalaba_backend_showcase.Service.Abandonment.{abandoned_order_is_not_charged}
use lalaba_backend_showcase.Service.CapChecks.{Approved, cap_binds_accept_only}
use lalaba_backend_showcase.Service.Refusals.{IsFull}
use lalaba_backend_showcase.Pricing.LineBounds.{heavier_never_cheaper}
use lalaba_backend_showcase.Service.Examples.{
  d, owner_of, no_staff, line, order_in, nothing, world_in, world-Balanced, rider, customer_user,
  owner, paid_in_cash, five_kilos, doc, fronted_order, fronted, fronted-Balanced, no_distance,
  one_a_day, providers,
}

abbrev delivered : Outcome (OnlineOrder d) × World d
delivered =
    record_delivery d owner_of no_staff 7 rider paid_in_cash [] 800 (world_in return_arrived)

delivered_runs : delivered.0 ≡ done (doc delivered.0)
unfolding record_delivery find_order_or_throw throw_if ◌>>=◌ with_transaction saved transition
    call_wallet pure apply_transition assert_valid_transition assert_assigned_courier ◌-ℤ◌
    record_collection_transaction consume_outstanding_fee chargeable_platform_fee_centavos
    consume_fee
delivered_runs = refl

handover_is_paid_example : HandedOver d owner_of no_staff 7 (doc delivered.0) delivered.1
handover_is_paid_example =
    handover_is_paid d owner_of no_staff by_courier 7 rider paid_in_cash [] 800
      (world_in return_arrived) (doc delivered.0) (world-Balanced return_arrived) delivered_runs

abbrev weighed : Outcome (OnlineOrder d) × World d
weighed =
    record_pickup_weight d owner_of no_staff 7 rider five_kilos [] 300 (world_in pickup_arrived)

weighed_runs : weighed.0 ≡ done (doc weighed.0)
unfolding record_pickup_weight find_order_or_throw throw_if ◌>>=◌ with_transaction saved transition
    call_wallet pure apply_transition assert_valid_transition assert_assigned_courier ◌-ℤ◌
    finalize_pricing calculate_service_line_total calculate_platform_fee consume_outstanding_fee
    chargeable_platform_fee_centavos consume_fee
weighed_runs = refl

weighed_fee_is_debited_example :
    WeighedIn d owner_of no_staff 7 five_kilos (doc weighed.0) (world_in pickup_arrived) weighed.1
weighed_fee_is_debited_example =
    weighed_fee_is_debited d owner_of no_staff 7 rider five_kilos [] 300 (world_in pickup_arrived)
      (doc weighed.0) (world-Balanced pickup_arrived) weighed_runs

abbrev stain : QualityHold
stain = record {
  service_line_index = 0;
  reason = "stain";
  blocks_order = true;
  additional_charge_centavos = some 2000;
  customer_response = pending;
  raised_at = 500;
  respond_timeout_at = some 9000;
  resolved_at = none;
}

abbrev answers : List (Answer d owner_of)
answers =
    record { approve = true; hold = stain; at = 600 }
    ∷ record { approve = false; hold = stain; at = 700 }
    ∷ []

total-IsReconciled_example :
    IsWeighed d five_kilos
      (order_in pickup_arrived)
      (finalize_pricing d five_kilos (order_in pickup_arrived))
    × IsReconciled d
        (order_in pickup_arrived)
        (answer_all d owner_of answers (finalize_pricing d five_kilos (order_in pickup_arrived)))
total-IsReconciled_example =
    total-IsReconciled d owner_of five_kilos (order_in pickup_arrived) answers

abbrev rescheduled : Outcome (OnlineOrder d) × World d
rescheduled =
    reschedule_pickup d owner_of no_staff 7 customer_user 400 (world_in awaiting_pickup_reschedule)

rescheduled_runs : rescheduled.0 ≡ done (doc rescheduled.0)
unfolding reschedule_pickup find_order_or_throw throw_if ◌>>=◌ with_transaction saved transition
    call_wallet pure apply_transition assert_valid_transition assert_assigned_courier ◌-ℤ◌
    assert_customer save_and_transition
rescheduled_runs = refl

rescheduled_pickup_is_stuck_example :
    IsRefused d (start_pickup_route d owner_of no_staff 7 owner 500 rescheduled.1)
    × IsRefused d (arrive_at_pickup d owner_of no_staff 7 owner 500 rescheduled.1)
    × IsRefused d (record_pickup_weight d owner_of no_staff 7 owner five_kilos [] 500 rescheduled.1)
    × IsRefused d (assign_pickup_staff d owner_of no_staff 7 owner "washer" 500 rescheduled.1)
rescheduled_pickup_is_stuck_example =
    rescheduled_pickup_is_stuck d owner_of no_staff 7 customer_user 400
      (world_in awaiting_pickup_reschedule) (doc rescheduled.0)
      (world-Balanced awaiting_pickup_reschedule) rescheduled_runs owner "washer" five_kilos [] 500

abbrev redelivering : Outcome (OnlineOrder d) × World d
redelivering =
    schedule_redelivery d owner_of no_staff 7 customer_user 400
      (world_in awaiting_redelivery_selection)

redelivering_runs : redelivering.0 ≡ done (doc redelivering.0)
unfolding schedule_redelivery find_order_or_throw throw_if ◌>>=◌ with_transaction saved transition
    call_wallet pure apply_transition assert_valid_transition assert_assigned_courier ◌-ℤ◌
    save_and_transition
redelivering_runs = refl

scheduled_redelivery_is_stuck_example :
    IsRefused d (start_return_route d owner_of no_staff 7 owner 500 redelivering.1)
    × IsRefused d (arrive_at_return d owner_of no_staff 7 owner 500 redelivering.1)
    × IsRefused d (record_delivery d owner_of no_staff 7 owner paid_in_cash [] 500 redelivering.1)
    × IsRefused d (assign_return_staff d owner_of no_staff 7 owner "washer" 500 redelivering.1)
scheduled_redelivery_is_stuck_example =
    scheduled_redelivery_is_stuck d owner_of no_staff 7 customer_user 400
      (world_in awaiting_redelivery_selection) (doc redelivering.0)
      (world-Balanced awaiting_redelivery_selection) redelivering_runs owner "washer" paid_in_cash
      [] 500

abbrev approved_hold : Outcome (OnlineOrder d) × World d
approved_hold =
    respond_to_quality_hold d owner_of 7 customer_user true 800 (world_in laundry_quality_hold)

approved_hold_runs : approved_hold.0 ≡ done (doc approved_hold.0)
unfolding respond_to_quality_hold find_order_or_throw throw_if ◌>>=◌ with_transaction saved
    transition call_wallet pure apply_transition assert_valid_transition assert_assigned_courier
    ◌-ℤ◌ assert_customer resolved save_and_transition calculate_platform_fee
approved_hold_runs = refl

hold_is_answered_once_example :
    ((doc approved_hold.0).base.status ≡ laundry_in_progress)
    × IsRefused d (respond_to_quality_hold d owner_of 7 customer_user true 900 approved_hold.1)
    × (auto_resolve_expired_quality_hold d owner_of 7 900 approved_hold.1
        ≡ (done (doc approved_hold.0), approved_hold.1))
hold_is_answered_once_example =
    hold_is_answered_once d owner_of 7 customer_user true 800 (world_in laundry_quality_hold)
      (doc approved_hold.0) (world-Balanced laundry_quality_hold) approved_hold_runs customer_user
      true 900

abbrev given_up : Outcome (OnlineOrder d) × World d
given_up = abandon_unsettled_order d owner_of 7 none none 5000 (fronted)

given_up_runs : given_up.0 ≡ done (doc given_up.0)
unfolding abandon_unsettled_order find_order_or_throw throw_if ◌>>=◌ with_transaction saved
    transition call_wallet pure apply_transition assert_valid_transition assert_assigned_courier
    ◌-ℤ◌ reverse_fee
given_up_runs = refl

abandoned_order_is_not_charged_example :
    ((doc given_up.0).base.status ≡ abandoned_unsettled)
    × (pos 0 ≤ℤ fee_sum 7 given_up.1.wallets.ledger)
abandoned_order_is_not_charged_example =
    abandoned_order_is_not_charged d owner_of 7 none none 5000 fronted fronted_order
      (doc given_up.0) fronted-Balanced refl refl refl given_up_runs

heavier_never_cheaper_example :
    calculate_service_line_total d line.params (some 4) none
    ≤ calculate_service_line_total d line.params (some 9) none
heavier_never_cheaper_example =
    heavier_never_cheaper d whole_numbers-IsMonotone line.params 4 9 none
      (record { price = refl; excess = refl }) refl

run_all-Balanced_example : Balanced d (
    run_all d owner_of no_staff no_distance
      (weigh 7 rider five_kilos [] 300
        ∷ weigh 7 rider five_kilos [] 310
        ∷ pay_at_pickup 7 rider paid_in_cash 320
        ∷ [])
      (world_in pickup_arrived))
run_all-Balanced_example =
    run_all-Balanced d owner_of no_staff no_distance
      (weigh 7 rider five_kilos [] 300
        ∷ weigh 7 rider five_kilos [] 310
        ∷ pay_at_pickup 7 rider paid_in_cash 320
        ∷ [])
      (world_in pickup_arrived) (world-Balanced pickup_arrived)

handlers_follow_table_example :
    (b' : Order) × (find 7
        (run_all d owner_of no_staff no_distance
          (weigh 7 rider five_kilos [] 300 ∷ pay_at_pickup 7 rider paid_in_cash 320 ∷ [])
          (world_in pickup_arrived)).db.orders
      ≡ some b')
    × Reach pickup_arrived b'.status
handlers_follow_table_example =
    handlers_follow_table d owner_of no_staff no_distance
      (weigh 7 rider five_kilos [] 300 ∷ pay_at_pickup 7 rider paid_in_cash 320 ∷ [])
      (world_in pickup_arrived) 7 (order_in pickup_arrived).base (world-Balanced pickup_arrived)
      refl

-- Another order on the day of order 7.
abbrev full_day : World d
full_day = record nothing {
  db = record nothing.db {
    orders =
        (7, (order_in provider_change_proposed).base)
        ∷ (8, (order_in laundry_in_progress).base)
        ∷ [];
  };
  rests =
      (7, (order_in provider_change_proposed).rest) ∷ (8, (order_in laundry_in_progress).rest) ∷ [];
}

full_day-IsFull : IsFull d 7 1 "2026-08-17" (order_in provider_change_proposed) full_day
unfolding accepted_on
full_day-IsFull = omega arith

cap_binds_accept_only_example :
    IsRefused d (accept_order d owner_of no_distance providers 7 owner "2026-08-17" 50 full_day)
    × Approved d owner_of no_distance 7 customer_user 50 full_day
cap_binds_accept_only_example =
    cap_binds_accept_only d owner_of no_distance providers 7 1 owner customer_user "2026-08-17" 50
      full_day (order_in provider_change_proposed) one_a_day refl refl refl refl refl
      full_day-IsFull refl refl
