-- ===== src/Service/Stuck.antt =====
-- What becomes of an order whose pickup is rescheduled, or whose redelivery is scheduled
-- (src/online-orders/online-orders.service.ts).
use Prim.Native.String.{String}
use lalaba_backend_showcase.Base.{ℕ, ◌≡◌, refl, sym, ap, Option, none, List, subst}
use lalaba_backend_showcase.Orders.Status.{
  OrderStatus, assert_valid_transition, conflict, pickup_assigned, return_assigned,
  redelivery_scheduled,
}
use lalaba_backend_showcase.Pricing.Doubles.{Doubles}
use lalaba_backend_showcase.Service.Document.{LegAssignment, OnlineOrder}
use lalaba_backend_showcase.Service.State.{
  Outcome, done, User, World, Step, find_order_or_throw, ◌>>=◌, throw_if,
}
use lalaba_backend_showcase.Service.Weighing.{Measurement}
use lalaba_backend_showcase.Service.Money.{PaymentCollectionFields, save_and_transition}
use lalaba_backend_showcase.Service.Access.{StaffUser, assert_assigned_courier}
use lalaba_backend_showcase.Service.Pickup.{
  assign_pickup_staff, start_pickup_route, arrive_at_pickup, record_pickup_weight,
  reschedule_pickup,
}
use lalaba_backend_showcase.Service.Handover.{
  assign_return_staff, start_return_route, arrive_at_return, record_delivery, schedule_redelivery,
}
use lalaba_backend_showcase.Service.Books.{IsKept, Balanced}
use lalaba_backend_showcase.Service.PickupBooks.{reschedule_pickup-Keeps}
use lalaba_backend_showcase.Service.HandoverBooks.{schedule_redelivery-Keeps}
use lalaba_backend_showcase.Service.Results.{
  Returning, Returning-then, after_any, Returning-in_transaction, Returning-saved,
  Returning-transition,
}
use lalaba_backend_showcase.Service.Runs.{
  IsRefused, Refusing, handler_runs, refused_then, then_refused, refused_transaction,
  refused_transition, refused_after_save,
}

module _ (d : Doubles) (branch_owner : ℕ → Option String)
    (find_staff : String → Option StaffUser) where
  -- The document is stored, and refused by the handler's body.
  IsRefused-here :
      (id : ℕ) (o : OnlineOrder d) (body : OnlineOrder d → Step d (OnlineOrder d)) (w : World d)
      → IsKept d id o w
      → Refusing d (body o)
      → IsRefused d ((find_order_or_throw d id >>= body) w)
  IsRefused-here id o body w k r =
      subst (λ (x : Outcome (OnlineOrder d) × World d). IsRefused d x)
        (sym (handler_runs d id o body w k.there k.stored)) (r.refuses w)

  nobody_assigned :
      (a : Option LegAssignment) (uid : String)
      → a ≡ none
      → Refusing d (assert_assigned_courier {W = World d} a uid)
  unfolding assert_assigned_courier throw_if
  nobody_assigned a uid e = rw e (record { refuses = λ w. tt })

  no_move :
      (id : ℕ) (to : OrderStatus) (actor : User) (remark : Option String) (now : ℕ)
      (o : OnlineOrder d)
      → assert_valid_transition o.base.status to ≡ conflict
      → Refusing d (save_and_transition d id to actor remark now o)
  unfolding save_and_transition
  no_move id to actor remark now o h =
      refused_transaction d _ (refused_after_save d id o _ (refused_transition d id to _ now o h))

  Unassigned : OnlineOrder d → Type 0
  Unassigned o = (o.base.status ≡ pickup_assigned) × (o.rest.pickup_assignment ≡ none)

  reschedule-Returning :
      (id : ℕ) (actor : User) (now : ℕ)
      → Returning d Unassigned (reschedule_pickup d branch_owner find_staff id actor now)
  unfolding reschedule_pickup save_and_transition Unassigned
  reschedule-Returning id actor now = after_any d _ _ λ o. after_any d _ _ λ a.
      Returning-in_transaction d _ (
        Returning-then d (λ o'. o'.rest.pickup_assignment ≡ none) _ _ (Returning-saved d id _ refl)
          λ o1 p. Returning-transition d id pickup_assigned _ now o1 (refl, p))

  no_reassignment :
      (s : OrderStatus) → s ≡ pickup_assigned → assert_valid_transition s pickup_assigned ≡ conflict
  unfolding assert_valid_transition
  no_reassignment s e = ap (λ x. assert_valid_transition x pickup_assigned) e

  no_return_reassignment :
      (s : OrderStatus) → s ≡ return_assigned → assert_valid_transition s return_assigned ≡ conflict
  unfolding assert_valid_transition
  no_return_reassignment s e = ap (λ x. assert_valid_transition x return_assigned) e

  -- A customer who reschedules a failed pickup leaves an order that no one can pick up: its leg has
  -- no courier, so every user is refused the route, the arrival and the weigh-in, and every
  -- assignment of a courier is refused as well, since the order already has the status that an
  -- assignment would give it.
  pub rescheduled_pickup_is_stuck :
      (id : ℕ) (customer : User) (now : ℕ) (w : World d) (o : OnlineOrder d)
      → Balanced d w
      → (reschedule_pickup d branch_owner find_staff id customer now w).0 ≡ done o
      → (u : User) (uid : String) (m : Measurement d) (keys : List String) (later : ℕ)
      → let after = (reschedule_pickup d branch_owner find_staff id customer now w).1 in
        IsRefused d (start_pickup_route d branch_owner find_staff id u later after)
        × IsRefused d (arrive_at_pickup d branch_owner find_staff id u later after)
        × IsRefused d (record_pickup_weight d branch_owner find_staff id u m keys later after)
        × IsRefused d (assign_pickup_staff d branch_owner find_staff id u uid later after)
  unfolding start_pickup_route arrive_at_pickup record_pickup_weight assign_pickup_staff Unassigned
  rescheduled_pickup_is_stuck id customer now w o bal e u uid m keys later =
      let k = (reschedule_pickup-Keeps d branch_owner find_staff id customer now).kept w o bal e in
      let (status, free) = (reschedule-Returning id customer now).returns w o e in
      (
        IsRefused-here id o _ _ k (refused_then d _ _ (nobody_assigned _ u.uid free)),
        IsRefused-here id o _ _ k (refused_then d _ _ (nobody_assigned _ u.uid free)),
        IsRefused-here id o _ _ k (refused_then d _ _ (nobody_assigned _ u.uid free)),
        IsRefused-here id o _ _ k (
            then_refused d _ _ λ a. then_refused d _ _ λ b.
              no_move id pickup_assigned u none later _ (no_reassignment o.base.status status)),
      )

  Undelivered : OnlineOrder d → Type 0
  Undelivered o = (o.base.status ≡ return_assigned) × (o.rest.return_assignment ≡ none)

  move-return :
      (id : ℕ) (to : OrderStatus) (actor : User) (remark : Option String) (now : ℕ)
      (o : OnlineOrder d)
      → o.rest.return_assignment ≡ none
      → Returning d
          (λ o'. (o'.base.status ≡ to) × (o'.rest.return_assignment ≡ none))
          (save_and_transition d id to actor remark now o)
  unfolding save_and_transition
  move-return id to actor remark now o p = Returning-in_transaction d _ (
      Returning-then d (λ o'. o'.rest.return_assignment ≡ none) _ _ (Returning-saved d id o p)
        λ o1 q. Returning-transition d id to _ now o1 (refl, q))

  redelivery-Returning :
      (id : ℕ) (actor : User) (now : ℕ)
      → Returning d Undelivered (schedule_redelivery d branch_owner find_staff id actor now)
  unfolding schedule_redelivery Undelivered
  redelivery-Returning id actor now = after_any d _ _ λ o. after_any d _ _ λ a.
      Returning-then d
        (λ o'. (o'.base.status ≡ redelivery_scheduled) × (o'.rest.return_assignment ≡ none)) _ _
        (move-return id redelivery_scheduled actor none now _ refl)
        λ o1 p. move-return id return_assigned actor none now o1 p.1

  -- So it is with a redelivery: once it is scheduled, every user is refused the route, the arrival
  -- and the record of a delivery, and every assignment of a courier is refused.
  pub scheduled_redelivery_is_stuck :
      (id : ℕ) (actor : User) (now : ℕ) (w : World d) (o : OnlineOrder d)
      → Balanced d w
      → (schedule_redelivery d branch_owner find_staff id actor now w).0 ≡ done o
      → (u : User) (uid : String) (input : PaymentCollectionFields) (keys : List String) (later : ℕ)
      → let after = (schedule_redelivery d branch_owner find_staff id actor now w).1 in
        IsRefused d (start_return_route d branch_owner find_staff id u later after)
        × IsRefused d (arrive_at_return d branch_owner find_staff id u later after)
        × IsRefused d (record_delivery d branch_owner find_staff id u input keys later after)
        × IsRefused d (assign_return_staff d branch_owner find_staff id u uid later after)
  unfolding start_return_route arrive_at_return record_delivery assign_return_staff Undelivered
  scheduled_redelivery_is_stuck id actor now w o bal e u uid input keys later =
      let k = (schedule_redelivery-Keeps d branch_owner find_staff id actor now).kept w o bal e in
      let (status, free) = (redelivery-Returning id actor now).returns w o e in
      (
        IsRefused-here id o _ _ k (refused_then d _ _ (nobody_assigned _ u.uid free)),
        IsRefused-here id o _ _ k (refused_then d _ _ (nobody_assigned _ u.uid free)),
        IsRefused-here id o _ _ k (refused_then d _ _ (nobody_assigned _ u.uid free)),
        IsRefused-here id o _ _ k (
            then_refused d _ _ λ a. then_refused d _ _ λ b.
              no_move id return_assigned u none later _
                (no_return_reassignment o.base.status status)),
      )
