-- ===== src/Service/DecisionsBooks.antt =====
-- The handlers of decisions, of cancellation and of support keep the books
-- (src/online-orders/online-orders.service.ts).
use Prim.Native.String.{String}
use text.Mathlib.Text.{◌==◌ as str_eq}
use lalaba_backend_showcase.Base.{
  ℕ, ◌≡◌, refl, Bool, true, false, Option, none, some, if◌then◌else◌, inl, inr, Bool-cases, arith,
}
use lalaba_backend_showcase.Base.Int.{ℤ, pos, ◌+ℤ◌, ltb_ℤ, leb_ℤ, int_laws}
use lalaba_backend_showcase.Orders.Status.{OrderStatus, ◌===◌, abandoned_unsettled}
use lalaba_backend_showcase.Orders.Transition.{Actor}
use lalaba_backend_showcase.Pricing.Doubles.{Doubles}
use lalaba_backend_showcase.Service.Document.{OnlineOrder, consumed_centavos, collected_centavos}
use lalaba_backend_showcase.Service.State.{User, World, save, saved, transition, ◌>>=◌, pure}
use lalaba_backend_showcase.Service.Money.{with_consumed}
use lalaba_backend_showcase.Service.Access.{assert_branch_ownership}
use lalaba_backend_showcase.Service.Decisions.{
  with_estimate, reject_order, propose_order_change, answered_change, respond_to_provider_change,
  may_cancel, cancel_order, override_status, by_user_or_system, give_up, abandon_unsettled_order,
  reinstate_abandoned_order,
}
use lalaba_backend_showcase.Service.Books.{IsKept, Frame}
use lalaba_backend_showcase.Service.Steps.{Lands, Lands-from, transition-Lands}
use lalaba_backend_showcase.Service.Posting.{call_wallet-Lands}
use lalaba_backend_showcase.Service.Posts.{reverse_fee-Posts}
use lalaba_backend_showcase.Service.Keeping.{
  Landing, Quiet, Keeps, handler, after-Quiet, in_transaction, Landing-then, Landing-saved,
  Landing-transition, Landing-pure, Keeping-pure, Keeping-if, Keeping-move,
}
use lalaba_backend_showcase.Service.Quiets.{
  pure-Quiet, ownership-Quiet, customer-Quiet, throw_if-Quiet,
}
use lalaba_backend_showcase.Service.AcceptBooks.{routed-Landing}

module _ (d : Doubles) (branch_owner : ℕ → Option String) where
  open d use {Double}

  pub reject_order-Keeps :
      (id : ℕ) (actor : User) (reason : String) (now : ℕ)
      → Keeps d id (reject_order d branch_owner id actor reason now)
  unfolding reject_order
  reject_order-Keeps id actor reason now = handler d id _ λ o.
      after-Quiet d _ _ (ownership-Quiet d branch_owner _ actor)
        λ a. Keeping-move d id _ _ _ now o _ refl refl refl

  estimate-consumed :
      (e : Option Double) (o : OnlineOrder d)
      → consumed_centavos d (with_estimate d branch_owner e o) ≡ consumed_centavos d o
  estimate-consumed none o = refl
  estimate-consumed (some x) o = refl

  estimate-collected :
      (e : Option Double) (o : OnlineOrder d)
      → collected_centavos d (with_estimate d branch_owner e o) ≡ collected_centavos d o
  estimate-collected none o = refl
  estimate-collected (some x) o = refl

  estimate-status :
      (e : Option Double) (o : OnlineOrder d)
      → (with_estimate d branch_owner e o).base.status ≡ o.base.status
  estimate-status none o = refl
  estimate-status (some x) o = refl

  pub propose_order_change-Keeps :
      (id : ℕ) (actor : User) (revised : Option Double) (reason : String) (now : ℕ)
      → Keeps d id (propose_order_change d branch_owner id actor revised reason now)
  unfolding propose_order_change
  propose_order_change-Keeps id actor revised reason now = handler d id _ λ o.
      after-Quiet d _ _ (ownership-Quiet d branch_owner _ actor) λ a.
        Keeping-move d id _ _ _ now o _ (estimate-consumed revised o) (estimate-collected revised o)
          (estimate-status revised o)

  answered_change-Landing :
      (id : ℕ) (customer : User) (approve : Bool) (now : ℕ) (o : OnlineOrder d)
      → Landing d id o (answered_change d branch_owner id customer approve now o)
  answered_change-Landing id customer true now o =
      Landing-then d _ _ (Landing-transition d id _ _ now o)
        λ o1. routed-Landing d branch_owner id _ now o1
  answered_change-Landing id customer false now o = Landing-transition d id _ _ now o

  pub respond_to_provider_change-Keeps :
      (id : ℕ) (customer : User) (approve : Bool) (now : ℕ)
      → Keeps d id (respond_to_provider_change d branch_owner id customer approve now)
  unfolding respond_to_provider_change
  respond_to_provider_change-Keeps id customer approve now = handler d id _ λ o.
      after-Quiet d _ _ (customer-Quiet d o customer)
        λ a. in_transaction d _ (answered_change-Landing id customer approve now o)

  may_cancel-Quiet :
      (o : OnlineOrder d) (actor : User) → Quiet d (may_cancel d branch_owner o actor)
  may_cancel-Quiet o actor = go (str_eq o.rest.customer_uid actor.uid)
    where
      go :
          (b : Bool)
          → Quiet d (
              if b
              then pure tt
              else assert_branch_ownership branch_owner o.rest.provider.branch_id actor)
      go true = pure-Quiet d tt
      go false = ownership-Quiet d branch_owner o.rest.provider.branch_id actor

  pub cancel_order-Keeps :
      (id : ℕ) (actor : User) (reason : String) (now : ℕ)
      → Keeps d id (cancel_order d branch_owner id actor reason now)
  unfolding cancel_order
  cancel_order-Keeps id actor reason now = handler d id _ λ o.
      after-Quiet d _ _ (may_cancel-Quiet o actor)
        λ a. Keeping-move d id _ _ _ now o _ refl refl refl

  pub override_status-Keeps :
      (id : ℕ) (to : OrderStatus) (actor : User) (remark : String) (now : ℕ)
      → Keeps d id (override_status d branch_owner id to actor remark now)
  unfolding override_status
  override_status-Keeps id to actor remark now = handler d id _ λ o.
      after-Quiet d _ _ (throw_if-Quiet d _ _) λ a.
        after-Quiet d _ _ (throw_if-Quiet d _ _) λ b. Keeping-move d id _ _ _ now o o refl refl refl

  positive : (c : ℤ) → ltb_ℤ (pos 0) c ≡ true → leb_ℤ c (pos 0) ≡ false
  positive c h = ground arith

  zero_plus : (c : ℤ) → pos 0 +ℤ c ≡ c
  zero_plus c = omega int_laws

  saved_then :
      (id : ℕ) (o : OnlineOrder d) (w : World d) (actor : Actor) (now : ℕ) (w' : World d)
      → IsKept d id (with_consumed d (pos 0) o) (save d id (with_consumed d (pos 0) o) w')
      → Frame d id w (save d id (with_consumed d (pos 0) o) w')
      → Lands d id w (
          (saved d id (with_consumed d (pos 0) o) >>= λ o2.
          transition d id abandoned_unsettled actor now o2)
            w')
  unfolding ◌>>=◌ saved
  saved_then id o w actor now w' k f =
      let o' = with_consumed d (pos 0) o in
      Lands-from d id w (save d id o' w') _ f
        (transition-Lands d id abandoned_unsettled actor now o' (save d id o' w') k)

  given_back-Landing :
      (id : ℕ) (o : OnlineOrder d) (actor : Option User) (remark : Option String) (now : ℕ)
      → Landing d id o (give_up d branch_owner id actor remark now o)
  given_back-Landing id o actor remark now =
      elim (Bool-cases (ltb_ℤ (pos 0) (consumed_centavos d o))) [
        | inl owes ↦ rw owes (record {
          lands = λ w k.
              call_wallet-Lands d id (consumed_centavos d o) _ o (with_consumed d (pos 0) o) w _ k
                (reverse_fee-Posts o.rest.provider.branch_id (consumed_centavos d o) id w.wallets
                  (positive (consumed_centavos d o) owes))
                (zero_plus (consumed_centavos d o)) refl refl
                (saved_then id o w (by_user_or_system d branch_owner actor remark) now);
        })
        | inr none_owed ↦ rw none_owed (
            Landing-then d _ _ (Landing-pure d id o) λ o1.
              Landing-then d _ _ (Landing-saved d o1 o1 refl refl refl)
                λ o2. Landing-transition d id _ _ now o2)
      ]

  pub abandon_unsettled_order-Keeps :
      (id : ℕ) (actor : Option User) (remark : Option String) (now : ℕ)
      → Keeps d id (abandon_unsettled_order d branch_owner id actor remark now)
  unfolding abandon_unsettled_order
  abandon_unsettled_order-Keeps id actor remark now = handler d id _ λ o.
      Keeping-if d (o.base.status === abandoned_unsettled) _ _ (Keeping-pure d id o)
        (in_transaction d _ (given_back-Landing id o actor remark now))

  pub reinstate_abandoned_order-Keeps :
      (id : ℕ) (actor : User) (remark : Option String) (now : ℕ)
      → Keeps d id (reinstate_abandoned_order d branch_owner id actor remark now)
  unfolding reinstate_abandoned_order
  reinstate_abandoned_order-Keeps id actor remark now = handler d id _ λ o.
      after-Quiet d _ _ (throw_if-Quiet d _ _) λ a. Keeping-move d id _ _ _ now o o refl refl refl
