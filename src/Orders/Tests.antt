-- ===== src/Orders/Tests.antt =====
-- Runs and orders on which the theorems about the order state machine apply.

use lalaba_backend_showcase.Base.{
  ℕ, inl, inr, sym, subst, ◌==◌, ==_iff, Bool-cases, List, [], ◌∷◌, ◌≡◌, refl, true, false, none,
  some, ◌≢◌, ◌⊎◌,
}
use lalaba_backend_showcase.Orders.Status.{
  OrderStatus, includes, assert_valid_transition, conflict, cap_counted_statuses, draft,
  pricing_validated, accepted_by_provider, rejected_by_provider, cancelled, received_by_provider,
  laundry_ready, laundry_in_progress, return_en_route, awaiting_customer_pickup,
  customer_pickup_verified, completed,
}
use lalaba_backend_showcase.Orders.Runs.{Reach, Avoiding}
use lalaba_backend_showcase.Orders.Lifecycle.{
  dead_ends, custody, custody_is_kept, cap_counts_accepted, completion_or_dead_end,
}
use lalaba_backend_showcase.Orders.Courier.{return_leg, CourierOrder, active_courier_leg}
use lalaba_backend_showcase.Base.Keyed.{find}
use lalaba_backend_showcase.Base.Int.{pos}
use lalaba_backend_showcase.Orders.Order.{
  PromoRedemption, reserved, released, Order, OrderEvent, OrderDb,
}
use lalaba_backend_showcase.Orders.Transition.{settle_promo_for_transition, Actor}
use lalaba_backend_showcase.Orders.Promos.{promo_slots_follow_order}
use lalaba_backend_showcase.Orders.Interleaving.{World, Work, work_all}
use lalaba_backend_showcase.Orders.Workers.{Advanced, work_all-Advanced}
use lalaba_backend_showcase.Orders.History.{IsTold, Tells, work_all-IsTold}

collected : Reach laundry_ready completed
unfolding assert_valid_transition
collected =
    Reach.next {t = customer_pickup_verified} {u = completed}
      (Reach.next {t = awaiting_customer_pickup} {u = customer_pickup_verified}
        (Reach.next {t = laundry_ready} {u = awaiting_customer_pickup} Reach.here refl) refl)
      refl

custody_is_kept_example :
    (includes custody completed ≡ true)
    × (completed ≢ cancelled)
    × (completed ≢ rejected_by_provider)
custody_is_kept_example = custody_is_kept refl collected

requested : Avoiding accepted_by_provider draft pricing_validated
unfolding assert_valid_transition
requested = Avoiding.next {t = draft} {u = pricing_validated} Avoiding.here refl (λ e. cc)

worked_on : Reach accepted_by_provider laundry_in_progress
unfolding assert_valid_transition
worked_on =
    Reach.next {t = received_by_provider} {u = laundry_in_progress}
      (Reach.next {t = accepted_by_provider} {u = received_by_provider} Reach.here refl) refl

cap_counts_accepted_example :
    (includes cap_counted_statuses pricing_validated ≡ false)
    × ((includes cap_counted_statuses laundry_in_progress ≡ true)
        ⊎ (laundry_in_progress ≡ cancelled))
cap_counts_accepted_example = cap_counts_accepted requested worked_on

given_up : Reach draft cancelled
unfolding assert_valid_transition
given_up = Reach.next {t = draft} {u = cancelled} Reach.here refl

completion_or_dead_end_example :
    (includes dead_ends laundry_ready ≡ false → Reach laundry_ready completed)
    × (includes dead_ends laundry_ready ≡ true
        → (t : OrderStatus) → assert_valid_transition laundry_ready t ≡ conflict)
completion_or_dead_end_example = completion_or_dead_end laundry_ready

abbrev riding : CourierOrder
riding = record {
  status = return_en_route;
  pickup_assignment = none;
  return_assignment = some (record { assigned_staff_uid = some "ana" });
}

riding-active : active_courier_leg riding "ana" ≡ some return_leg
unfolding active_courier_leg
riding-active = refl

abbrev handed_over : CourierOrder
handed_over = record {
  status = completed;
  pickup_assignment = some (record { assigned_staff_uid = some "ben" });
  return_assignment = none;
}

abbrev ready : Order
ready = record {
  status = laundry_ready;
  version = 4;
  turnaround = none;
  abandonment_deadline_at = none;
  customer_total_centavos = some 50_000;
  amount_collected_centavos = none;
  promo_code = some "SUDS";
  platform_fee_promo_id = none;
}

abbrev shop_db : OrderDb
shop_db = record { orders = (5, ready) ∷ []; events = []; redemptions = []; counts = [] }

abbrev washer : Actor
washer = record { uid = "ana"; role = "washer"; note = none }

abbrev two_workers : List Work
two_workers =
    Work.load 5
    ∷ Work.load 5
    ∷ Work.transition 0 awaiting_customer_pickup washer 100
    ∷ Work.transition 2 awaiting_customer_pickup washer 101
    ∷ []

abbrev start : World
start = record { db = shop_db; read = [] }

work_all-Advanced_example : Advanced shop_db.orders (work_all two_workers start).db.orders
work_all-Advanced_example = work_all-Advanced two_workers start tt

abbrev outdated : Order
outdated = record ready { status = laundry_in_progress; version = 3 }

abbrev moved_to : ℕ → OrderStatus → OrderStatus → OrderEvent
moved_to n from to = record {
  order_id = 5;
  sequence = n;
  from_status = from;
  to_status = to;
  actor_uid = "ana";
  actor_role = "washer";
  note = none;
}

abbrev logged : World
logged = record start {
  db = record shop_db {
    events =
        moved_to 1 laundry_in_progress laundry_in_progress
        ∷ moved_to 2 laundry_in_progress laundry_ready
        ∷ [];
  };
}

logged-IsTold : IsTold logged.db
unfolding assert_valid_transition
logged-IsTold id o found = elim (Bool-cases (id == 5)) [
  | inr other ↦ cc (rw other at found)
  | inl e ↦
      let here = (==_iff id 5).0 e in
      let same : ready ≡ o = cc (rw e at found) in
      subst (λ (q : Order). Tells id none 0 logged.db.events q.status) same
        (inr (sym here, tt, refl, inr (sym here, (refl, inl refl), refl, refl)))
]

work_all-IsTold_example : IsTold (work_all two_workers logged).db
work_all-IsTold_example = work_all-IsTold two_workers logged tt logged-IsTold

abbrev slot : PromoRedemption
slot = record {
  order_id = some 5;
  promo_id = 2;
  customer_uid = "ana";
  branch_id = none;
  discount_applied_centavos = pos 1_000;
  status = reserved;
  released_at = none;
}

abbrev promo_db : OrderDb
promo_db = record shop_db { redemptions = (8, slot) ∷ []; counts = (2, pos 1) ∷ [] }

promo_slots_follow_order_example :
    find 8 (settle_promo_for_transition 5 ready cancelled 100 promo_db).redemptions
    ≡ some (record slot { status = released; released_at = some 100 })
promo_slots_follow_order_example =
    promo_slots_follow_order 5 ready cancelled 100 promo_db 8 slot (refl, tt) refl refl
