-- ===== src/Orders/Transition.antt =====
-- `applyTransition`, through which every change of an order's status goes
-- (src/online-orders/online-orders.service.ts).
use Prim.Native.String.{String}
use text.Mathlib.Text.{◌==◌ as str_eq}
use lalaba_backend_showcase.Base.{
  ℕ, ◌+◌, ◌*◌, max, Bool, true, false, not, ◌&&◌, ◌||◌, Option, none, some, List, [], ◌∷◌, ◌++◌,
  ◌==◌, ltb, if◌then◌else◌, or_else, is_some,
}
use lalaba_backend_showcase.Base.Keyed.{find, update}
use lalaba_backend_showcase.Orders.Status.{
  OrderStatus, ◌===◌, includes, allowed, conflict, assert_valid_transition,
  awaiting_redelivery_selection, awaiting_customer_pickup, laundry_in_progress,
  rejected_by_provider, cancelled, completed,
}
use lalaba_backend_showcase.Orders.Order.{
  Turnaround, Order, OrderEvent, OrderDb, outstanding_centavos, settle_for_order, release_for_order,
}
use lalaba_backend_showcase.Pricing.Legs.{TurnaroundTierCode, standard, express_tier}

abbrev pub abandonment_waiting_states : List OrderStatus
abandonment_waiting_states = awaiting_redelivery_selection ∷ awaiting_customer_pickup ∷ []

-- Seven days in milliseconds.
abbrev pub abandonment_window : ℕ
abandonment_window = 7 * 24 * 3_600_000

abbrev pub is_express : TurnaroundTierCode → Bool
is_express express_tier = true
is_express standard = false

-- The SLA clock of an express order: the date that is promised the first time the laundry is in
-- progress, and `none` where the transition promises nothing.
abbrev pub promise : OrderStatus → ℕ → Option Turnaround → Option ℕ
promise to now none = none
promise to now (some t) =
    let hours = or_else t.sla_hours 0 in
    if (to === laundry_in_progress)
      && is_express t.tier_code
      && ltb 0 hours
      && not (is_some t.promised_completion_at)
    then some (now + hours * 3_600_000)
    else none

abbrev pub set_promise : Option ℕ → Option Turnaround → Option Turnaround
set_promise none t = t
set_promise (some at) none = none
set_promise (some at) (some t) = some (record t { promised_completion_at = some at })

-- The abandonment clock: set on entry into a waiting state, cleared on the way out; `stored` is the
-- value before.
abbrev pub deadline : OrderStatus → ℕ → Order → Option ℕ → Option ℕ
deadline to now snapshot stored =
    if includes abandonment_waiting_states to
    then (if ltb 0 (outstanding_centavos snapshot) then some (now + abandonment_window) else none)
    else if is_some snapshot.abandonment_deadline_at
    then none
    else stored

-- The patch, computed from the order as it was read, on a document: on that order itself it is what
-- the method does in memory.
abbrev pub patched : OrderStatus → ℕ → Order → Order → Order
patched to now snapshot o = record o {
  status = to;
  version = snapshot.version + 1;
  turnaround = set_promise (promise to now snapshot.turnaround) o.turnaround;
  abandonment_deadline_at = deadline to now snapshot o.abandonment_deadline_at;
}

-- The sequence of the order's last event, or zero.
abbrev pub last_sequence : ℕ → List OrderEvent → ℕ
last_sequence id [] = 0
last_sequence id (e ∷ es) =
    let rest = last_sequence id es in if e.order_id == id then max e.sequence rest else rest

abbrev pub is_truthy : Option String → Bool
is_truthy none = false
is_truthy (some s) = not (str_eq s "")

-- `settlePromoForTransition`
unfoldable pub settle_promo_for_transition : ℕ → Order → OrderStatus → ℕ → OrderDb → OrderDb
unfolding settle_for_order release_for_order
settle_promo_for_transition id o to now db =
    if not (is_truthy o.promo_code) && not (is_some o.platform_fee_promo_id)
    then db
    else if (to === rejected_by_provider) || (to === cancelled)
    then release_for_order id now db
    else if to === completed
    then settle_for_order id db
    else db

pub record Actor : Type 0 where
  pub uid : String
  pub role : String
  pub note : Option String

-- The order in memory, or the exception: a `ConflictException` of the check, or the
-- `BadRequestException` of an order that was modified concurrently.
pub data Applied : Type 0 where
  applied : Order → Applied
  invalid_transition : Applied
  modified_concurrently : Applied

-- `updateOne({ _id, version })`: whether a document matches.
abbrev pub is_current : ℕ → Order → OrderDb → Bool
is_current id snapshot db = elim (find id db.orders) [
  | none ↦ false
  | some o ↦ o.version == snapshot.version
]

abbrev pub event_of : ℕ → Order → OrderStatus → Actor → OrderDb → OrderEvent
event_of id snapshot to actor db = record {
  order_id = id;
  sequence = last_sequence id db.events + 1;
  from_status = snapshot.status;
  to_status = to;
  actor_uid = actor.uid;
  actor_role = actor.role;
  note = actor.note;
}

-- The two writes of a transition that goes through.
abbrev pub recorded : ℕ → Order → OrderStatus → Actor → ℕ → OrderDb → OrderDb
recorded id snapshot to actor now db = record db {
  orders = update id (patched to now snapshot) db.orders;
  events = db.events ++ event_of id snapshot to actor db ∷ [];
}

-- `snapshot` is the document that the caller read, perhaps before other writes.
unfoldable pub apply_transition : ℕ → Order → OrderStatus → Actor → ℕ → OrderDb → Applied × OrderDb
unfolding settle_promo_for_transition
apply_transition id snapshot to actor now db = elim (assert_valid_transition snapshot.status to) [
  | conflict ↦ (invalid_transition, db)
  | allowed ↦
      if is_current id snapshot db
      then (
        applied (patched to now snapshot snapshot),
        settle_promo_for_transition id snapshot to now (recorded id snapshot to actor now db),
      )
      else (modified_concurrently, db)
]
