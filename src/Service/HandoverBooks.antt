-- ===== src/Service/HandoverBooks.antt =====
-- The handlers of the return leg keep the books (src/online-orders/online-orders.service.ts).
use Prim.Native.String.{String}
use text.Mathlib.Text.{◌==◌ as str_eq}
use lalaba_backend_showcase.Base.{ℕ, ◌≡◌, refl, Bool, true, false, Option, List, if◌then◌else◌, ltb}
use lalaba_backend_showcase.Orders.Status.{OrderStatus}
use lalaba_backend_showcase.Pricing.Legs.{FulfillmentReturnMode}
use lalaba_backend_showcase.Pricing.Doubles.{Doubles}
use lalaba_backend_showcase.Service.Document.{
  OnlineOrder, outstanding, consumed_centavos, collected_centavos,
}
use lalaba_backend_showcase.Service.State.{User, pure}
use lalaba_backend_showcase.Service.Money.{PaymentCollectionFields}
use lalaba_backend_showcase.Service.Access.{StaffUser, assert_branch_ownership}
use lalaba_backend_showcase.Service.Pickup.{RecordAttemptInput}
use lalaba_backend_showcase.Service.Handover.{
  in_turn, mark_laundry_ready, choose_return_option, assign_return_staff, start_return_route,
  arrive_at_return, settle_balance, record_delivery, record_failed_delivery_attempt,
  confirm_returned_to_provider, customer_or_branch, schedule_redelivery, verify_self_pickup,
}
use lalaba_backend_showcase.Service.Keeping.{
  Landing, Keeping, Quiet, Keeps, handler, after-Quiet, in_transaction, Landing-then, Keeping-then,
  Landing-saved, Landing-fee, Landing-collection, Landing-pure, Landing-if, Keeping-move,
}
use lalaba_backend_showcase.Service.PickupBooks.{assignable-Quiet, two_transitions-Landing}
use lalaba_backend_showcase.Service.Quiets.{
  ownership-Quiet, courier-Quiet, customer-Quiet, throw_if-Quiet, pure-Quiet,
}

module _ (d : Doubles) (branch_owner : ℕ → Option String)
    (find_staff : String → Option StaffUser) where
  in_turn-Keeping :
      (id : ℕ) (to next : OrderStatus) (actor : User) (now : ℕ) (o o' : OnlineOrder d)
      → consumed_centavos d o' ≡ consumed_centavos d o
      → collected_centavos d o' ≡ collected_centavos d o
      → o'.base.status ≡ o.base.status
      → Keeping d id o (in_turn d branch_owner find_staff id to next actor now o')
  in_turn-Keeping id to next actor now o o' fee money status =
      Keeping-then d _ _ (Keeping-move d id to actor _ now o o' fee money status)
        λ o1. Keeping-move d id next actor _ now o1 o1 refl refl refl

  settle_balance-Landing :
      (id : ℕ) (actor : User) (input : PaymentCollectionFields) (now : ℕ) (o : OnlineOrder d)
      → Landing d id o (settle_balance d branch_owner find_staff id actor input now o)
  unfolding settle_balance
  settle_balance-Landing id actor input now o =
      Landing-if d (ltb 0 (outstanding d o)) _ _
        (Landing-then d _ _ (Landing-collection d id actor input _ _ now o)
          λ o1. Landing-fee d id o1)
        (Landing-pure d id o)

  customer_or_branch-Quiet :
      (o : OnlineOrder d) (actor : User)
      → Quiet d (customer_or_branch d branch_owner find_staff o actor)
  customer_or_branch-Quiet o actor = go (str_eq o.rest.customer_uid actor.uid)
    where
      go :
          (b : Bool)
          → Quiet d (
              if b
              then pure tt
              else assert_branch_ownership branch_owner o.rest.provider.branch_id actor)
      go true = pure-Quiet d tt
      go false = ownership-Quiet d branch_owner o.rest.provider.branch_id actor

  pub mark_laundry_ready-Keeps :
      (id : ℕ) (actor : User) (now : ℕ)
      → Keeps d id (mark_laundry_ready d branch_owner find_staff id actor now)
  unfolding mark_laundry_ready
  mark_laundry_ready-Keeps id actor now = handler d id _ λ o.
      after-Quiet d _ _ (ownership-Quiet d branch_owner _ actor)
        λ a. in_turn-Keeping id _ _ actor now o o refl refl refl

  pub choose_return_option-Keeps :
      (id : ℕ) (customer : User) (mode : FulfillmentReturnMode) (now : ℕ)
      → Keeps d id (choose_return_option d branch_owner find_staff id customer mode now)
  unfolding choose_return_option
  choose_return_option-Keeps id customer mode now = handler d id _ λ o.
      after-Quiet d _ _ (customer-Quiet d o customer)
        λ a. Keeping-move d id _ _ _ now o _ refl refl refl

  pub assign_return_staff-Keeps :
      (id : ℕ) (actor : User) (staff_uid : String) (now : ℕ)
      → Keeps d id (assign_return_staff d branch_owner find_staff id actor staff_uid now)
  unfolding assign_return_staff
  assign_return_staff-Keeps id actor staff_uid now = handler d id _ λ o.
      after-Quiet d _ _ (ownership-Quiet d branch_owner _ actor) λ a.
        after-Quiet d _ _ (assignable-Quiet d branch_owner find_staff id o staff_uid actor)
          λ b. Keeping-move d id _ _ _ now o _ refl refl refl

  pub start_return_route-Keeps :
      (id : ℕ) (courier : User) (now : ℕ)
      → Keeps d id (start_return_route d branch_owner find_staff id courier now)
  unfolding start_return_route
  start_return_route-Keeps id courier now = handler d id _ λ o.
      after-Quiet d _ _ (courier-Quiet d _ courier.uid)
        λ a. Keeping-move d id _ _ _ now o _ refl refl refl

  pub arrive_at_return-Keeps :
      (id : ℕ) (courier : User) (now : ℕ)
      → Keeps d id (arrive_at_return d branch_owner find_staff id courier now)
  unfolding arrive_at_return
  arrive_at_return-Keeps id courier now = handler d id _ λ o.
      after-Quiet d _ _ (courier-Quiet d _ courier.uid)
        λ a. Keeping-move d id _ _ _ now o _ refl refl refl

  pub record_delivery-Keeps :
      (id : ℕ) (courier : User) (input : PaymentCollectionFields) (keys : List String) (now : ℕ)
      → Keeps d id (record_delivery d branch_owner find_staff id courier input keys now)
  unfolding record_delivery
  record_delivery-Keeps id courier input keys now = handler d id _ λ o.
      after-Quiet d _ _ (courier-Quiet d _ courier.uid) λ a.
        after-Quiet d _ _ (throw_if-Quiet d _ _) λ b. in_transaction d _ (
          Landing-then d _ _ (Landing-saved d o _ refl refl refl) λ o1.
            Landing-then d _ _ (settle_balance-Landing id courier input now o1)
              λ o2. two_transitions-Landing d branch_owner find_staff id _ _ courier now o2)

  pub record_failed_delivery_attempt-Keeps :
      (id : ℕ) (courier : User) (input : RecordAttemptInput) (now : ℕ)
      → Keeps d id (record_failed_delivery_attempt d branch_owner find_staff id courier input now)
  unfolding record_failed_delivery_attempt
  record_failed_delivery_attempt-Keeps id courier input now = handler d id _ λ o.
      after-Quiet d _ _ (courier-Quiet d _ courier.uid)
        λ a. Keeping-move d id _ _ _ now o _ refl refl refl

  pub confirm_returned_to_provider-Keeps :
      (id : ℕ) (actor : User) (now : ℕ)
      → Keeps d id (confirm_returned_to_provider d branch_owner find_staff id actor now)
  unfolding confirm_returned_to_provider
  confirm_returned_to_provider-Keeps id actor now = handler d id _ λ o.
      after-Quiet d _ _ (ownership-Quiet d branch_owner _ actor)
        λ a. in_turn-Keeping id _ _ actor now o o refl refl refl

  pub schedule_redelivery-Keeps :
      (id : ℕ) (actor : User) (now : ℕ)
      → Keeps d id (schedule_redelivery d branch_owner find_staff id actor now)
  unfolding schedule_redelivery
  schedule_redelivery-Keeps id actor now = handler d id _ λ o.
      after-Quiet d _ _ (customer_or_branch-Quiet o actor)
        λ a. in_turn-Keeping id _ _ actor now o _ refl refl refl

  pub verify_self_pickup-Keeps :
      (id : ℕ) (actor : User) (input : PaymentCollectionFields) (keys : List String) (now : ℕ)
      → Keeps d id (verify_self_pickup d branch_owner find_staff id actor input keys now)
  unfolding verify_self_pickup
  verify_self_pickup-Keeps id actor input keys now = handler d id _ λ o.
      after-Quiet d _ _ (ownership-Quiet d branch_owner _ actor) λ a.
        after-Quiet d _ _ (throw_if-Quiet d _ _) λ b. in_transaction d _ (
          Landing-then d _ _ (Landing-saved d o _ refl refl refl) λ o1.
            Landing-then d _ _ (settle_balance-Landing id actor input now o1)
              λ o2. two_transitions-Landing d branch_owner find_staff id _ _ actor now o2)
