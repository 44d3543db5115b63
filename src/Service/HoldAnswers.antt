-- ===== src/Service/HoldAnswers.antt =====
-- A quality hold is answered once, by the customer or by the sweep
-- (src/online-orders/online-orders.service.ts).
use Prim.Native.String.{String}
use lalaba_backend_showcase.Base.{
  ℕ, ◌≡◌, refl, sym, ◌∙◌, Bool, true, false, Option, none, some, arith, subst, is_some,
}
use lalaba_backend_showcase.Orders.Status.{laundry_in_progress}
use lalaba_backend_showcase.Pricing.Doubles.{Doubles}
use lalaba_backend_showcase.Service.Document.{QualityHold, OnlineOrder}
use lalaba_backend_showcase.Service.State.{Outcome, done, User, World, throw_if, throw, pure}
use lalaba_backend_showcase.Service.Money.{save_and_transition}
use lalaba_backend_showcase.Service.Holds.{
  is_overdue, answered, response_of, with_hold, apply_surcharge, resolved, respond_to,
  respond_to_quality_hold, auto_resolve, auto_resolve_expired_quality_hold,
}
use lalaba_backend_showcase.Service.Books.{IsKept, Balanced}
use lalaba_backend_showcase.Service.HoldsBooks.{respond_to_quality_hold-Keeps}
use lalaba_backend_showcase.Service.Results.{
  Returning, Returning-then, after_any, Returning-in_transaction, Returning-saved,
  Returning-transition,
}
use lalaba_backend_showcase.Service.Runs.{
  IsRefused, Refusing, handler_runs, refused_then, then_refused,
}

-- The order has a hold, and it is answered.
abbrev is_answered : Option QualityHold → Bool
is_answered none = false
is_answered (some h) = is_some h.resolved_at

module _ (d : Doubles) (branch_owner : ℕ → Option String) where
  Answered : OnlineOrder d → Type 0
  Answered o =
      (o.base.status ≡ laundry_in_progress) × (is_answered o.rest.active_quality_hold ≡ true)

  HasAnswer : OnlineOrder d → Type 0
  HasAnswer o = is_answered o.rest.active_quality_hold ≡ true

  surcharge-HasAnswer :
      (h : QualityHold) (o : OnlineOrder d)
      → HasAnswer o
      → HasAnswer (apply_surcharge d branch_owner h o)
  unfolding apply_surcharge HasAnswer
  surcharge-HasAnswer h o p = ground arith

  resolved-HasAnswer :
      (approve : Bool) (h : QualityHold) (now : ℕ) (o : OnlineOrder d)
      → HasAnswer (resolved d branch_owner approve h now o)
  unfolding resolved HasAnswer
  resolved-HasAnswer true h now o =
      surcharge-HasAnswer h
        (with_hold d branch_owner (answered (response_of d branch_owner true) now h) o) refl
  resolved-HasAnswer false h now o = refl

  respond_to-Returning :
      (id : ℕ) (customer : User) (approve : Bool) (now : ℕ) (o : OnlineOrder d)
      (h : Option QualityHold)
      → Returning d Answered (respond_to d branch_owner id customer approve now o h)
  unfolding save_and_transition throw Answered HasAnswer
  respond_to-Returning id customer approve now o none = record { returns = λ w a e. cc }
  respond_to-Returning id customer approve now o (some h) = after_any d _ _ λ a.
      after_any d _ _ λ b. Returning-in_transaction d _ (
        Returning-then d HasAnswer _ _ (Returning-saved d id _ (resolved-HasAnswer approve h now o))
          λ o1 p. Returning-transition d id laundry_in_progress _ now o1 (refl, p))

  respond-Returning :
      (id : ℕ) (customer : User) (approve : Bool) (now : ℕ)
      → Returning d Answered (respond_to_quality_hold d branch_owner id customer approve now)
  unfolding respond_to_quality_hold
  respond-Returning id customer approve now = after_any d _ _ λ o.
      after_any d _ _ λ a. respond_to-Returning id customer approve now o o.rest.active_quality_hold

  refused_answer :
      (id : ℕ) (customer : User) (approve : Bool) (now : ℕ) (o : OnlineOrder d)
      (h : Option QualityHold)
      → is_answered h ≡ true
      → Refusing d (respond_to d branch_owner id customer approve now o h)
  unfolding throw_if throw
  refused_answer id customer approve now o none e = cc
  refused_answer id customer approve now o (some h) e =
      refused_then d _ _ (record { refuses = λ w. rw e tt })

  sweep_passes :
      (id now : ℕ) (o : OnlineOrder d) (h : Option QualityHold) (w : World d)
      → is_answered h ≡ true
      → auto_resolve d branch_owner id now o h w ≡ (done o, w)
  unfolding pure
  sweep_passes id now o none w e = cc
  sweep_passes id now o (some h) w e =
      let idle : is_overdue d branch_owner o h now ≡ false = ground arith in rw idle refl

  -- A quality hold is resolved once: where the customer's answer returned, the laundry is in progress
  -- again, every later answer by anyone is refused, so that no surcharge is added twice, and the
  -- sweep returns the order as it is and changes nothing.
  pub hold_is_answered_once :
      (id : ℕ) (customer : User) (approve : Bool) (now : ℕ) (w : World d) (o : OnlineOrder d)
      → Balanced d w
      → (respond_to_quality_hold d branch_owner id customer approve now w).0 ≡ done o
      → (u : User) (again : Bool) (later : ℕ)
      → let after = (respond_to_quality_hold d branch_owner id customer approve now w).1 in
        (o.base.status ≡ laundry_in_progress)
        × IsRefused d (respond_to_quality_hold d branch_owner id u again later after)
        × (auto_resolve_expired_quality_hold d branch_owner id later after ≡ (done o, after))
  unfolding Answered
  hold_is_answered_once id customer approve now w o bal e u again later =
      let k =
        (respond_to_quality_hold-Keeps d branch_owner id customer approve now).kept w o bal e in
      let (status, hold) = (respond-Returning id customer approve now).returns w o e in
      (status, second _ k hold, swept _ k hold)
    where
      second :
          (v : World d)
          → IsKept d id o v
          → is_answered o.rest.active_quality_hold ≡ true
          → IsRefused d (respond_to_quality_hold d branch_owner id u again later v)
      second v k hold =
          unfold respond_to_quality_hold in
          subst (λ (x : Outcome (OnlineOrder d) × World d). IsRefused d x)
            (sym (handler_runs d id o _ v k.there k.stored))
            ((then_refused d _ _
                λ a. refused_answer id u again later o o.rest.active_quality_hold hold).refuses
              v)

      swept :
          (v : World d)
          → IsKept d id o v
          → is_answered o.rest.active_quality_hold ≡ true
          → auto_resolve_expired_quality_hold d branch_owner id later v ≡ (done o, v)
      swept v k hold =
          unfold auto_resolve_expired_quality_hold in
          handler_runs d id o _ v k.there k.stored
          ∙ sweep_passes id later o o.rest.active_quality_hold v hold
