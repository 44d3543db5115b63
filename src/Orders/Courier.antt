-- ===== src/Orders/Courier.antt =====
-- Which leg of an order a courier rides, and holds the assignment of
-- (src/online-orders/courier-access.util.ts).
use Prim.Native.String.{String}
use text.Mathlib.Text.{◌==◌ as str_eq}
use lalaba_backend_showcase.Base.{
  Bool-cases, ◌≡◌, refl, Bool, true, false, ◌&&◌, List, [], ◌∷◌, ◌≢◌, ◌⊎◌, ◌↔◌, arith, Option, none,
  some, if◌then◌else◌, inl, inr,
}
use lalaba_backend_showcase.Orders.Status.{OrderStatus, includes}
use lalaba_backend_showcase.Orders.Runs.{Reach}
use lalaba_backend_showcase.Orders.Lifecycle.{custody, custody_is_kept}

pub data CourierLeg : Type 0 where
  pickup return_leg : CourierLeg

-- `assignedStaffUid` of an assignment; the assignment itself may be absent.
pub record Assignment : Type 0 where
  pub assigned_staff_uid : Option String

-- The fields of `OnlineOrder` that are read here.
pub record CourierOrder : Type 0 where
  pub status : OrderStatus
  pub pickup_assignment : Option Assignment
  pub return_assignment : Option Assignment

abbrev pub live_statuses : CourierLeg → List OrderStatus
live_statuses pickup =
    OrderStatus.pickup_en_route ∷ OrderStatus.pickup_arrived ∷ OrderStatus.pickup_weighed ∷ []
live_statuses return_leg = OrderStatus.return_en_route ∷ OrderStatus.return_arrived ∷ []

abbrev pub assigned_statuses : CourierLeg → List OrderStatus
assigned_statuses pickup =
    OrderStatus.pickup_assigned ∷ OrderStatus.pickup_en_route ∷ OrderStatus.pickup_arrived
    ∷ OrderStatus.pickup_weighed ∷ []
assigned_statuses return_leg =
    OrderStatus.return_assigned ∷ OrderStatus.return_en_route ∷ OrderStatus.return_arrived ∷ []

-- `assignment?.assignedStaffUid === uid`
abbrev pub is_assigned : Option Assignment → String → Bool
is_assigned none uid = false
is_assigned (some a) uid = elim a.assigned_staff_uid [ none ↦ false | some u ↦ str_eq u uid ]

abbrev pub assignment_of : CourierOrder → CourierLeg → Option Assignment
assignment_of o pickup = o.pickup_assignment
assignment_of o return_leg = o.return_assignment

unfoldable pub active_courier_leg : CourierOrder → String → Option CourierLeg
active_courier_leg o uid =
    if str_eq uid ""
    then none
    else if is_assigned o.pickup_assignment uid && includes (live_statuses pickup) o.status
    then some pickup
    else if is_assigned o.return_assignment uid && includes (live_statuses return_leg) o.status
    then some return_leg
    else none

unfoldable pub assigned_courier_leg : CourierOrder → String → Option CourierLeg
assigned_courier_leg o uid =
    if str_eq uid ""
    then none
    else if is_assigned o.pickup_assignment uid
    then some pickup
    else if is_assigned o.return_assignment uid
    then some return_leg
    else none

live_apart :
    (s : OrderStatus)
    → includes (live_statuses return_leg) s ≡ true
    → includes (live_statuses pickup) s ≡ false
live_apart OrderStatus.draft h = refl
live_apart _ h = ground arith

abbrev chosen : Bool → Bool → Bool → Bool → Bool → Option CourierLeg
chosen anon p lp r lr =
    if anon
    then none
    else if p && lp
    then some pickup
    else if r && lr
    then some return_leg
    else none

abbrev of_leg : Bool → Bool → CourierLeg → Bool
of_leg p r pickup = p
of_leg p r return_leg = r

chosen_iff :
    (anon p lp r lr : Bool)
    → (lr ≡ true → lp ≡ false)
    → (leg : CourierLeg)
    → (chosen anon p lp r lr ≡ some leg)
      ↔ ((anon ≡ false) × (of_leg p r leg ≡ true) × (of_leg lp lr leg ≡ true))
chosen_iff anon p lp r lr apart pickup = ground arith
chosen_iff anon p lp r lr apart return_leg = ground arith

-- A courier rides a leg exactly when she has a uid, that leg's own assignment names her, and the
-- order is between setting off and the hand-over of that very leg.
active_courier_leg_iff :
    (o : CourierOrder) (uid : String) (leg : CourierLeg)
    → (active_courier_leg o uid ≡ some leg) ↔ (
        (str_eq uid "" ≡ false)
        × (is_assigned (assignment_of o leg) uid ≡ true)
        × (includes (live_statuses leg) o.status ≡ true))
unfolding active_courier_leg
active_courier_leg_iff o uid pickup =
    chosen_iff (str_eq uid "") (is_assigned o.pickup_assignment uid)
      (includes (live_statuses pickup) o.status) (is_assigned o.return_assignment uid)
      (includes (live_statuses return_leg) o.status) (live_apart o.status) pickup
active_courier_leg_iff o uid return_leg =
    chosen_iff (str_eq uid "") (is_assigned o.pickup_assignment uid)
      (includes (live_statuses pickup) o.status) (is_assigned o.return_assignment uid)
      (includes (live_statuses return_leg) o.status) (live_apart o.status) return_leg

-- A courier who rides a leg holds an assignment, and holds that of the very leg unless she has the
-- pick-up of the same order too; the order stands on her board.
active-assigned :
    (o : CourierOrder) (uid : String) (leg : CourierLeg)
    → active_courier_leg o uid ≡ some leg
    → ((assigned_courier_leg o uid ≡ some leg) ⊎ (is_assigned o.pickup_assignment uid ≡ true))
      × (assigned_courier_leg o uid ≢ none)
      × (includes (assigned_statuses leg) o.status ≡ true)
unfolding assigned_courier_leg
active-assigned o uid pickup h =
    let (named, mine, live) = (active_courier_leg_iff o uid pickup).0 h in
    (inl (rw (named, mine)), rw (named, mine) (λ e. cc), ground arith)
active-assigned o uid return_leg h =
    let (named, mine, live) = (active_courier_leg_iff o uid return_leg).0 h in
    elim (Bool-cases (is_assigned o.pickup_assignment uid)) [
      | inl both ↦ (inr both, rw (named, both) (λ e. cc), ground arith)
      | inr one ↦ (inl (rw (named, one, mine)), rw (named, one, mine) (λ e. cc), ground arith)
    ]

custody-not_live :
    (s : OrderStatus) → includes custody s ≡ true → includes (live_statuses pickup) s ≡ false
custody-not_live OrderStatus.draft h = refl
custody-not_live _ h = ground arith

-- The pick-up courier's access ends at the hand-over for good: at every status that an order can
-- come to from one of custody, nobody rides the pick-up leg.
pickup_access_ends :
    {s : OrderStatus} (o : CourierOrder) (uid : String)
    → includes custody s ≡ true
    → Reach s o.status
    → active_courier_leg o uid ≢ some pickup
pickup_access_ends o uid h r e =
    let live = (active_courier_leg_iff o uid pickup).0 e in
    cc (custody-not_live o.status (custody_is_kept h r).0, live.2)
