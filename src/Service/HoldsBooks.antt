-- ===== src/Service/HoldsBooks.antt =====
-- The handlers of quality holds keep the books (src/online-orders/online-orders.service.ts).
use Prim.Native.String.{String}
use lalaba_backend_showcase.Base.{
  ℕ, ◌≡◌, refl, Bool, true, false, not, Option, none, some, List, if◌then◌else◌, ltb,
}
use lalaba_backend_showcase.Pricing.Doubles.{Doubles}
use lalaba_backend_showcase.Service.Document.{
  QualityHold, ServiceLineSnapshot, OnlineOrder, consumed_centavos, collected_centavos,
}
use lalaba_backend_showcase.Service.State.{User, bad_request}
use lalaba_backend_showcase.Service.Holds.{
  RaiseQualityHoldInput, raised_hold, answered, response_of, is_overdue, with_hold, store_hold,
  raise_quality_hold, charged, charged_lines, surcharge_fee, apply_surcharge, resolved, respond_to,
  respond_to_quality_hold, auto_resolve, auto_resolve_expired_quality_hold,
}
use lalaba_backend_showcase.Service.Keeping.{
  Keeping, Keeps, handler, after-Quiet, in_transaction, Landing-then, Landing-saved,
  Landing-transition, Keeping-saved, Keeping-pure, Keeping-if, Keeping-move, Keeping-throw,
}
use lalaba_backend_showcase.Service.Quiets.{ownership-Quiet, customer-Quiet, throw_if-Quiet}

module _ (d : Doubles) (branch_owner : ℕ → Option String) where
  -- The two figures of the books, and the status.
  SameMoney : OnlineOrder d → OnlineOrder d → Type 0
  SameMoney o o' =
      (consumed_centavos d o' ≡ consumed_centavos d o)
      × (collected_centavos d o' ≡ collected_centavos d o)
      × (o'.base.status ≡ o.base.status)

  charged-SameMoney :
      (charge fee : ℕ) (o : OnlineOrder d) (lines : Option (List (ServiceLineSnapshot d)))
      → SameMoney o (elim lines as (λ _. OnlineOrder d) [
        | none ↦ o
        | some ls ↦ charged d branch_owner ls charge fee o
      ])
  unfolding SameMoney
  charged-SameMoney charge fee o none = (refl, refl, refl)
  charged-SameMoney charge fee o (some ls) = (refl, refl, refl)

  surcharge-SameMoney :
      (h : QualityHold) (o : OnlineOrder d) (charge : Option ℕ)
      → SameMoney o (elim charge as (λ _. OnlineOrder d) [
        | none ↦ o
        | some c ↦
            if not (ltb 0 c)
            then o
            else elim (charged_lines d branch_owner h.service_line_index c o.rest.service_lines) [
              | none ↦ o
              | some lines ↦ charged d branch_owner lines c (surcharge_fee d branch_owner c o) o
            ]
      ])
  unfolding SameMoney
  surcharge-SameMoney h o none = (refl, refl, refl)
  surcharge-SameMoney h o (some c) = go (not (ltb 0 c))
    where
      rest : OnlineOrder d
      rest = elim (charged_lines d branch_owner h.service_line_index c o.rest.service_lines) [
        | none ↦ o
        | some lines ↦ charged d branch_owner lines c (surcharge_fee d branch_owner c o) o
      ]

      go : (b : Bool) → SameMoney o (if b then o else rest)
      go true = (refl, refl, refl)
      go false =
          charged-SameMoney c (surcharge_fee d branch_owner c o) o
            (charged_lines d branch_owner h.service_line_index c o.rest.service_lines)

  apply-SameMoney :
      (h : QualityHold) (o : OnlineOrder d) → SameMoney o (apply_surcharge d branch_owner h o)
  unfolding apply_surcharge
  apply-SameMoney h o = surcharge-SameMoney h o h.additional_charge_centavos

  resolved-SameMoney :
      (approve : Bool) (h : QualityHold) (now : ℕ) (o : OnlineOrder d)
      → SameMoney o (resolved d branch_owner approve h now o)
  unfolding resolved SameMoney
  resolved-SameMoney false h now o = (refl, refl, refl)
  resolved-SameMoney true h now o =
      apply-SameMoney h
        (with_hold d branch_owner (answered (response_of d branch_owner true) now h) o)

  store_hold-Keeping :
      (id : ℕ) (actor : User) (input : RaiseQualityHoldInput) (now : ℕ) (o : OnlineOrder d)
      → Keeping d id o (
          store_hold d branch_owner id actor input now
            (with_hold d branch_owner (raised_hold input now) o))
  store_hold-Keeping id actor input now o =
      Keeping-if d (not input.blocks_order) _ _ (Keeping-saved d o _ refl refl refl)
        (Keeping-move d id _ _ _ now o _ refl refl refl)

  pub raise_quality_hold-Keeps :
      (id : ℕ) (actor : User) (input : RaiseQualityHoldInput) (now : ℕ)
      → Keeps d id (raise_quality_hold d branch_owner id actor input now)
  unfolding raise_quality_hold
  raise_quality_hold-Keeps id actor input now = handler d id _ λ o.
      after-Quiet d _ _ (ownership-Quiet d branch_owner _ actor) λ a.
        after-Quiet d _ _ (throw_if-Quiet d _ _)
          λ b. after-Quiet d _ _ (throw_if-Quiet d _ _) λ c. store_hold-Keeping id actor input now o

  respond_to-Keeping :
      (id : ℕ) (customer : User) (approve : Bool) (now : ℕ) (o : OnlineOrder d)
      (h : Option QualityHold)
      → Keeping d id o (respond_to d branch_owner id customer approve now o h)
  unfolding SameMoney
  respond_to-Keeping id customer approve now o none = Keeping-throw d id o bad_request
  respond_to-Keeping id customer approve now o (some h) =
      let money = resolved-SameMoney approve h now o in
      after-Quiet d _ _ (throw_if-Quiet d _ _) λ a.
        after-Quiet d _ _ (throw_if-Quiet d _ _)
          λ b. Keeping-move d id _ _ _ now o _ money.0 money.1 money.2

  pub respond_to_quality_hold-Keeps :
      (id : ℕ) (customer : User) (approve : Bool) (now : ℕ)
      → Keeps d id (respond_to_quality_hold d branch_owner id customer approve now)
  unfolding respond_to_quality_hold
  respond_to_quality_hold-Keeps id customer approve now = handler d id _ λ o.
      after-Quiet d _ _ (customer-Quiet d o customer)
        λ a. respond_to-Keeping id customer approve now o o.rest.active_quality_hold

  auto_resolve-Keeping :
      (id now : ℕ) (o : OnlineOrder d) (h : Option QualityHold)
      → Keeping d id o (auto_resolve d branch_owner id now o h)
  auto_resolve-Keeping id now o none = Keeping-pure d id o
  auto_resolve-Keeping id now o (some h) =
      Keeping-if d (not (is_overdue d branch_owner o h now)) _ _ (Keeping-pure d id o) (
        in_transaction d _ (
          Landing-then d _ _ (Landing-saved d o _ refl refl refl)
            λ o1. Landing-transition d id _ _ now o1))

  pub auto_resolve_expired_quality_hold-Keeps :
      (id now : ℕ) → Keeps d id (auto_resolve_expired_quality_hold d branch_owner id now)
  unfolding auto_resolve_expired_quality_hold
  auto_resolve_expired_quality_hold-Keeps id now =
      handler d id _ λ o. auto_resolve-Keeping id now o o.rest.active_quality_hold
