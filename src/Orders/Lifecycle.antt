-- ===== src/Orders/Lifecycle.antt =====
-- What the transition table promises over a whole run: custody, the daily cap, completion.
use lalaba_backend_showcase.Base.{
  ℕ, zero, suc, ◌≡◌, refl, ap, Bool, true, false, not, ◌&&◌, ◌||◌, List, [], ◌∷◌, ◌≢◌, ◌⊎◌, arith,
  Bool-cases, subst, inl, inr,
}
use lalaba_backend_showcase.Orders.Status.{
  OrderStatus, ◌===◌, transitions, includes, allowed, conflict, assert_valid_transition,
  cap_counted_statuses, draft, pricing_validated, pending_provider_acceptance,
  provider_change_proposed, accepted_by_provider, rejected_by_provider, cancelled,
  awaiting_pickup_assignment, pickup_assigned, pickup_en_route, pickup_arrived, pickup_weighed,
  picked_up_from_customer, pickup_attempt_failed, awaiting_pickup_reschedule, received_by_provider,
  laundry_in_progress, laundry_quality_hold, laundry_ready, awaiting_return_selection,
  awaiting_return_assignment, return_assigned, return_en_route, return_arrived,
  delivered_to_customer, delivery_attempted, returned_to_provider, awaiting_redelivery_selection,
  redelivery_scheduled, awaiting_customer_pickup, customer_pickup_verified, completed, refunded,
  disputed, abandoned_unsettled,
}
use lalaba_backend_showcase.Orders.Runs.{
  Reach, Avoiding, Reach-closed, Avoiding-closed, prepend, ===→eq, every,
}

-- The provider has, or has had, the customer's laundry.
abbrev pub custody : List OrderStatus
custody =
    picked_up_from_customer ∷ received_by_provider ∷ laundry_in_progress ∷ laundry_quality_hold
    ∷ laundry_ready ∷ awaiting_return_selection ∷ awaiting_return_assignment ∷ return_assigned
    ∷ return_en_route ∷ return_arrived ∷ delivered_to_customer ∷ delivery_attempted
    ∷ returned_to_provider ∷ awaiting_redelivery_selection ∷ redelivery_scheduled
    ∷ awaiting_customer_pickup ∷ customer_pickup_verified ∷ completed ∷ disputed
    ∷ abandoned_unsettled ∷ []

custody-IsClosed :
    (s : OrderStatus) → includes custody s ≡ true → every (includes custody) (transitions s) ≡ true
unfolding transitions
custody-IsClosed draft h = ground arith
custody-IsClosed _ h = ground arith

-- Once a status of an order is one of custody, every status that the order can come to is one of
-- custody too; so it is neither cancelled nor rejected from then on.
pub custody_is_kept :
    {s t : OrderStatus}
    → includes custody s ≡ true
    → Reach s t
    → (includes custody t ≡ true) × (t ≢ cancelled) × (t ≢ rejected_by_provider)
custody_is_kept {t = t} h r =
    let kept = Reach-closed (includes custody) custody-IsClosed r h in
    (kept, (λ e. cc (ap (includes custody) e)), (λ e. cc (ap (includes custody) e)))

-- The statuses that an order has before a provider accepts it.
abbrev pub unaccepted : List OrderStatus
unaccepted =
    draft ∷ pricing_validated ∷ pending_provider_acceptance ∷ provider_change_proposed
    ∷ rejected_by_provider ∷ cancelled ∷ []

abbrev takes_slot : OrderStatus → Bool
takes_slot s = includes cap_counted_statuses s

unaccepted-IsClosedBut :
    (s : OrderStatus)
    → includes unaccepted s ≡ true
    → every (λ t. includes unaccepted t || (t === accepted_by_provider)) (transitions s) ≡ true
unfolding transitions
unaccepted-IsClosedBut draft h = ground arith
unaccepted-IsClosedBut _ h = ground arith

unaccepted-no_slot :
    (s : OrderStatus) → includes unaccepted s ≡ true → includes cap_counted_statuses s ≡ false
unfolding cap_counted_statuses
unaccepted-no_slot draft h = refl
unaccepted-no_slot _ h = ground arith

abbrev accepted_or_cancelled : OrderStatus → Bool
accepted_or_cancelled s = includes cap_counted_statuses s || (s === cancelled)

accepted-IsClosed :
    (s : OrderStatus)
    → accepted_or_cancelled s ≡ true
    → every accepted_or_cancelled (transitions s) ≡ true
unfolding transitions cap_counted_statuses
accepted-IsClosed draft h = ground arith
accepted-IsClosed _ h = ground arith

-- The daily cap counts accepted work and nothing else: an order that has not been through
-- `accepted_by_provider` takes no slot, whatever became of it, and one that was accepted takes a
-- slot in every later status but `cancelled`.
pub cap_counts_accepted :
    {s t : OrderStatus}
    → Avoiding accepted_by_provider draft s
    → Reach accepted_by_provider t
    → (includes cap_counted_statuses s ≡ false)
      × ((includes cap_counted_statuses t ≡ true) ⊎ (t ≡ cancelled))
unfolding cap_counted_statuses
cap_counts_accepted {s} {t} before after = (
  unaccepted-no_slot s (Avoiding-closed (includes unaccepted) unaccepted-IsClosedBut before refl),
  elim (Bool-cases (includes cap_counted_statuses t)) [
    | inl e ↦ inl e
    | inr e ↦
        let kept = Reach-closed accepted_or_cancelled accepted-IsClosed after refl in
        inr (===→eq t cancelled (ground arith))
  ],
)

not_picked_up : OrderStatus → Bool
not_picked_up s = not (s === picked_up_from_customer) && not (s === pickup_weighed)

not_picked_up-IsClosedBut :
    (s : OrderStatus)
    → not_picked_up s ≡ true
    → every (λ t. not_picked_up t || (t === pickup_weighed)) (transitions s) ≡ true
unfolding transitions not_picked_up
not_picked_up-IsClosedBut draft h = ground arith
not_picked_up-IsClosedBut _ h = ground arith

-- No order is picked up unweighed: a run from the draft that never enters `pickup_weighed` does
-- not come to `picked_up_from_customer`.
pickup_is_weighed : ¬ Avoiding pickup_weighed draft picked_up_from_customer
unfolding not_picked_up
pickup_is_weighed r = cc (Avoiding-closed not_picked_up not_picked_up-IsClosedBut r refl)

not_refunded-IsClosed :
    (s : OrderStatus)
    → not (s === refunded) ≡ true
    → every (λ t. not (t === refunded)) (transitions s) ≡ true
unfolding transitions
not_refunded-IsClosed draft h = refl
not_refunded-IsClosed _ h = ground arith

-- No order is ever refunded: no run from the draft comes to that status.
refunded_unreached : {t : OrderStatus} → Reach draft t → t ≢ refunded
refunded_unreached r e = cc (Reach-closed (λ s. not (s === refunded)) not_refunded-IsClosed r refl)

-- The statuses that no transition leaves.
abbrev pub dead_ends : List OrderStatus
dead_ends = rejected_by_provider ∷ cancelled ∷ refunded ∷ disputed ∷ []

-- The next status on a shortest way to completion.
next_hop : OrderStatus → OrderStatus
next_hop draft = pricing_validated
next_hop pricing_validated = pending_provider_acceptance
next_hop pending_provider_acceptance = accepted_by_provider
next_hop provider_change_proposed = accepted_by_provider
next_hop accepted_by_provider = received_by_provider
next_hop awaiting_pickup_assignment = pickup_assigned
next_hop pickup_assigned = pickup_en_route
next_hop pickup_en_route = pickup_arrived
next_hop pickup_arrived = pickup_weighed
next_hop pickup_weighed = picked_up_from_customer
next_hop picked_up_from_customer = laundry_in_progress
next_hop pickup_attempt_failed = pickup_assigned
next_hop awaiting_pickup_reschedule = pickup_assigned
next_hop received_by_provider = laundry_in_progress
next_hop laundry_in_progress = laundry_ready
next_hop laundry_quality_hold = laundry_in_progress
next_hop laundry_ready = awaiting_customer_pickup
next_hop awaiting_return_selection = awaiting_customer_pickup
next_hop awaiting_return_assignment = return_assigned
next_hop return_assigned = return_en_route
next_hop return_en_route = return_arrived
next_hop return_arrived = delivered_to_customer
next_hop delivered_to_customer = completed
next_hop delivery_attempted = returned_to_provider
next_hop returned_to_provider = awaiting_redelivery_selection
next_hop awaiting_redelivery_selection = abandoned_unsettled
next_hop redelivery_scheduled = return_assigned
next_hop awaiting_customer_pickup = customer_pickup_verified
next_hop customer_pickup_verified = completed
next_hop abandoned_unsettled = awaiting_customer_pickup
next_hop s = s

on_the_way : ℕ → OrderStatus → Bool
unfolding assert_valid_transition next_hop
on_the_way zero s = s === completed
on_the_way (suc n) s =
    (s === completed) || (includes (transitions s) (next_hop s) && on_the_way n (next_hop s))

Reach-completed : (n : ℕ) (s : OrderStatus) → on_the_way n s ≡ true → Reach s completed
unfolding on_the_way assert_valid_transition
Reach-completed zero s h = subst (λ t. Reach s t) (===→eq s completed h) Reach.here
Reach-completed (suc n) s h = elim (Bool-cases (s === completed)) [
  | inl e ↦ subst (λ t. Reach s t) (===→eq s completed e) Reach.here
  | inr e ↦
      let step : assert_valid_transition s (next_hop s) ≡ allowed = ground arith in
      prepend step (Reach-completed n (next_hop s) (ground arith))
]

all_on_the_way : (s : OrderStatus) → includes dead_ends s ≡ false → on_the_way 10 s ≡ true
unfolding on_the_way transitions
all_on_the_way draft h = refl
all_on_the_way _ h = ground arith

dead_end-conflict :
    (s t : OrderStatus) → includes dead_ends s ≡ true → assert_valid_transition s t ≡ conflict
unfolding assert_valid_transition
dead_end-conflict draft t h = cc
dead_end-conflict rejected_by_provider t h = refl
dead_end-conflict _ t h = ground arith

-- Completion stays possible in every status but four, and from those four no transition is valid.
pub completion_or_dead_end :
    (s : OrderStatus)
    → (includes dead_ends s ≡ false → Reach s completed)
      × (includes dead_ends s ≡ true → (t : OrderStatus) → assert_valid_transition s t ≡ conflict)
unfolding assert_valid_transition
completion_or_dead_end s =
    (λ h. Reach-completed 10 s (all_on_the_way s h), λ h t. dead_end-conflict s t h)
