-- ===== src/Service/Decisions.antt =====
-- The handlers of a provider's decision, of cancellation, and of support
-- (src/online-orders/online-orders.service.ts).
use Prim.Native.String.{String}
use text.Mathlib.Text.{◌==◌ as str_eq}
use lalaba_backend_showcase.Base.{
  ℕ, Bool, true, false, not, Option, none, some, List, if◌then◌else◌, or_else,
}
use lalaba_backend_showcase.Base.Int.{pos, ltb_ℤ}
use lalaba_backend_showcase.Orders.Status.{
  OrderStatus, ◌===◌, transitions, includes, accepted_by_provider, awaiting_pickup_assignment,
  rejected_by_provider, provider_change_proposed, cancelled, abandoned_unsettled,
  awaiting_customer_pickup, awaiting_redelivery_selection,
}
use lalaba_backend_showcase.Orders.Transition.{Actor}
use lalaba_backend_showcase.Wallets.Fees.{reverse_fee}
use lalaba_backend_showcase.Pricing.Legs.{
  FulfillmentPickupMode, provider_pickup, customer_dropoff, FulfillmentReturnMode,
  customer_self_pickup, provider_delivery,
}
use lalaba_backend_showcase.Pricing.Doubles.{Doubles}
use lalaba_backend_showcase.Service.Document.{OnlineOrder, consumed_centavos}
use lalaba_backend_showcase.Service.State.{
  bad_request, User, Step, find_order_or_throw, transition, call_wallet, ◌>>=◌, ◌>>◌, saved,
  with_transaction, pure, throw_if,
}
use lalaba_backend_showcase.Service.Money.{save_and_transition, with_consumed}
use lalaba_backend_showcase.Service.Access.{assert_branch_ownership, assert_customer}

abbrev pub is_provider_pickup : FulfillmentPickupMode → Bool
is_provider_pickup provider_pickup = true
is_provider_pickup customer_dropoff = false

abbrev pub waiting_state : FulfillmentReturnMode → OrderStatus
waiting_state customer_self_pickup = awaiting_customer_pickup
waiting_state provider_delivery = awaiting_redelivery_selection

module _ (d : Doubles) (branch_owner : ℕ → Option String) where
  open d use {Double}

  abbrev pub with_rejection : String → OnlineOrder d → OnlineOrder d
  with_rejection reason o = record o { rest = record o.rest { rejection_reason = some reason } }

  abbrev pub with_cancellation : String → OnlineOrder d → OnlineOrder d
  with_cancellation reason o = record o {
    rest = record o.rest { cancellation_reason = some reason };
  }

  abbrev pub with_estimate : Option Double → OnlineOrder d → OnlineOrder d
  with_estimate none o = o
  with_estimate (some total) o = record o {
    rest = record o.rest { pricing = record o.rest.pricing { estimated_total_centavos = total } };
  }

  -- Accepted, and with a provider's pickup moved on to the assignment.
  abbrev pub routed : ℕ → Actor → ℕ → OnlineOrder d → Step d (OnlineOrder d)
  routed id actor now o =
      if is_provider_pickup o.rest.pickup_mode
      then transition d id awaiting_pickup_assignment actor now o
      else pure o

  unfoldable pub reject_order : ℕ → User → String → ℕ → Step d (OnlineOrder d)
  reject_order id actor reason now = do
    o ← find_order_or_throw d id
    assert_branch_ownership branch_owner o.rest.provider.branch_id actor
    save_and_transition d id rejected_by_provider actor (some reason) now (with_rejection reason o)

  unfoldable pub propose_order_change :
      ℕ → User → Option Double → String → ℕ → Step d (OnlineOrder d)
  propose_order_change id actor revised reason now = do
    o ← find_order_or_throw d id
    assert_branch_ownership branch_owner o.rest.provider.branch_id actor
    save_and_transition d id provider_change_proposed actor (some reason) now
        (with_estimate revised o)

  abbrev pub as_customer : User → Option String → Actor
  as_customer u note = record { uid = u.uid; role = "customer"; note = note }

  abbrev pub answered_change : ℕ → User → Bool → ℕ → OnlineOrder d → Step d (OnlineOrder d)
  answered_change id customer true now o = do
    o' ← transition d id accepted_by_provider (as_customer customer none) now o
    routed id (as_customer customer none) now o'
  answered_change id customer false now o =
      transition d id cancelled (as_customer customer (some "Customer declined proposed change"))
        now o

  unfoldable pub respond_to_provider_change : ℕ → User → Bool → ℕ → Step d (OnlineOrder d)
  respond_to_provider_change id customer approve now = do
    o ← find_order_or_throw d id
    assert_customer d o customer
    with_transaction (answered_change id customer approve now o)

  abbrev pub may_cancel : OnlineOrder d → User → Step d (Unit {0})
  may_cancel o actor =
      if str_eq o.rest.customer_uid actor.uid
      then pure tt
      else assert_branch_ownership branch_owner o.rest.provider.branch_id actor

  unfoldable pub cancel_order : ℕ → User → String → ℕ → Step d (OnlineOrder d)
  cancel_order id actor reason now = do
    o ← find_order_or_throw d id
    may_cancel o actor
    save_and_transition d id cancelled actor (some reason) now (with_cancellation reason o)

  unfoldable pub allowed_next_statuses : ℕ → Step d (List OrderStatus)
  unfolding transitions
  allowed_next_statuses id = do o ← find_order_or_throw d id; pure (transitions o.base.status)

  unfoldable pub override_status : ℕ → OrderStatus → User → String → ℕ → Step d (OnlineOrder d)
  unfolding transitions
  override_status id to actor note now = do
    o ← find_order_or_throw d id
    throw_if (o.base.status === to) bad_request
    throw_if (not (includes (transitions o.base.status) to)) bad_request
    save_and_transition d id to actor (some note) now o

  -- The fee that the provider fronted is given back.
  abbrev pub fee_given_back : ℕ → OnlineOrder d → Step d (OnlineOrder d)
  fee_given_back id o =
      if ltb_ℤ (pos 0) (consumed_centavos d o)
      then call_wallet d (reverse_fee o.rest.provider.branch_id (consumed_centavos d o) id)
          (with_consumed d (pos 0) o)
      else pure o

  -- The user that gives up on an order, or the system.
  abbrev pub by_user_or_system : Option User → Option String → Actor
  by_user_or_system none note = record {
    uid = "system";
    role = "system";
    note = some (or_else note "Unsettled past the abandonment window");
  }
  by_user_or_system (some u) note = record {
    uid = u.uid;
    role = u.role;
    note = some (or_else note "Unsettled past the abandonment window");
  }

  abbrev pub give_up : ℕ → Option User → Option String → ℕ → OnlineOrder d → Step d (OnlineOrder d)
  give_up id actor note now o = do
    o1 ← fee_given_back id o
    o2 ← saved d id o1
    transition d id abandoned_unsettled (by_user_or_system actor note) now o2

  unfoldable pub abandon_unsettled_order :
      ℕ → Option User → Option String → ℕ → Step d (OnlineOrder d)
  abandon_unsettled_order id actor note now = do
    o ← find_order_or_throw d id
    if o.base.status === abandoned_unsettled
        then pure o
        else with_transaction (give_up id actor note now o)

  unfoldable pub reinstate_abandoned_order : ℕ → User → Option String → ℕ → Step d (OnlineOrder d)
  reinstate_abandoned_order id actor note now = do
    o ← find_order_or_throw d id
    throw_if (not (o.base.status === abandoned_unsettled)) bad_request
    save_and_transition d id (waiting_state o.rest.return_mode) actor
        (some (or_else note "Reinstated by support")) now o
