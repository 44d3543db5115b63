-- ===== src/Service/Holds.antt =====
-- Quality holds: raised by the branch, answered by the customer or by the sweep
-- (src/online-orders/online-orders.service.ts).
use Prim.Native.String.{String}
use lalaba_backend_showcase.Base.{
  ℕ, zero, suc, ◌+◌, ◌*◌, Bool, true, false, not, ◌&&◌, Option, none, some, List, [], ◌∷◌, ltb, leb,
  if◌then◌else◌, or_else, is_some, length,
}
use lalaba_backend_showcase.Orders.Status.{◌===◌, laundry_in_progress, laundry_quality_hold}
use lalaba_backend_showcase.Orders.Transition.{Actor}
use lalaba_backend_showcase.Pricing.Doubles.{Doubles}
use lalaba_backend_showcase.Pricing.Lines.{calculate_platform_fee}
use lalaba_backend_showcase.Service.Document.{
  QualityHold, QualityHoldResponse, pending, approved, declined, ServiceLineSnapshot, OnlineOrder,
}
use lalaba_backend_showcase.Service.State.{
  bad_request, User, Step, find_order_or_throw, transition, ◌>>=◌, ◌>>◌, saved, with_transaction,
  pure, throw, throw_if,
}
use lalaba_backend_showcase.Service.Money.{save_and_transition}
use lalaba_backend_showcase.Service.Access.{assert_branch_ownership, assert_customer}

pub record RaiseQualityHoldInput : Type 0 where
  pub service_line_index : ℕ
  pub reason : String
  pub blocks_order : Bool
  pub additional_charge_centavos : Option ℕ

-- Twenty-four hours in milliseconds.
abbrev pub response_window : ℕ
response_window = 24 * 3600 * 1000

-- A hold that waits for an answer.
abbrev pub is_waiting : Option QualityHold → Bool
is_waiting none = false
is_waiting (some h) = not (is_some h.resolved_at)

abbrev pub raised_hold : RaiseQualityHoldInput → ℕ → QualityHold
raised_hold input now = record {
  service_line_index = input.service_line_index;
  reason = input.reason;
  blocks_order = input.blocks_order;
  additional_charge_centavos = input.additional_charge_centavos;
  customer_response = pending;
  raised_at = now;
  respond_timeout_at = if input.blocks_order then some (now + response_window) else none;
  -- a documentary hold is resolved at once
  resolved_at = if input.blocks_order then none else some now;
}

abbrev pub is_late : QualityHold → ℕ → Bool
is_late h now = elim h.respond_timeout_at [ none ↦ false | some at ↦ ltb at now ]

-- What a response is refused for; the time-out of the sweep has the other sense of its boundary.
abbrev pub is_expired : QualityHold → ℕ → Bool
is_expired h now = elim h.respond_timeout_at [ none ↦ false | some at ↦ leb at now ]

abbrev pub answered : QualityHoldResponse → ℕ → QualityHold → QualityHold
answered r now h = record h { customer_response = r; resolved_at = some now }

module _ (d : Doubles) (branch_owner : ℕ → Option String) where
  open d use {of_nat}

  abbrev pub with_hold : QualityHold → OnlineOrder d → OnlineOrder d
  with_hold h o = record o { rest = record o.rest { active_quality_hold = some h } }

  -- A documentary hold leaves the order where it is.
  abbrev pub store_hold :
      ℕ → User → RaiseQualityHoldInput → ℕ → OnlineOrder d → Step d (OnlineOrder d)
  store_hold id actor input now o =
      if not input.blocks_order
      then saved d id o
      else save_and_transition d id laundry_quality_hold actor (some input.reason) now o

  unfoldable pub raise_quality_hold : ℕ → User → RaiseQualityHoldInput → ℕ → Step d (OnlineOrder d)
  raise_quality_hold id actor input now = do
    o ← find_order_or_throw d id
    assert_branch_ownership branch_owner o.rest.provider.branch_id actor
    throw_if (leb (length o.rest.service_lines) input.service_line_index) bad_request
    throw_if (is_waiting o.rest.active_quality_hold) bad_request
    store_hold id actor input now (with_hold (raised_hold input now) o)

  -- The line at the index with the surcharge added; an index past the end finds none.
  abbrev pub charged_lines :
      ℕ → ℕ → List (ServiceLineSnapshot d) → Option (List (ServiceLineSnapshot d))
  charged_lines i charge [] = none
  charged_lines zero charge (l ∷ ls) = some (
      record l {
        actual_line_total_centavos = some (or_else l.actual_line_total_centavos 0 + charge);
      }
      ∷ ls)
  charged_lines (suc i) charge (l ∷ ls) = elim (charged_lines i charge ls) [
    | none ↦ none
    | some ls' ↦ some (l ∷ ls')
  ]

  unfoldable pub surcharge_fee : ℕ → OnlineOrder d → ℕ
  surcharge_fee charge o =
      calculate_platform_fee d charge (or_else o.rest.pricing.platform_fee_percent (of_nat 0))

  abbrev pub charged : List (ServiceLineSnapshot d) → ℕ → ℕ → OnlineOrder d → OnlineOrder d
  charged lines charge fee o =
      let p = o.rest.pricing in
      record o {
        base = record o.base {
          customer_total_centavos = some (or_else o.base.customer_total_centavos 0 + charge + fee);
        };
        rest = record o.rest {
          service_lines = lines;
          pricing = record p {
            actual_service_total_centavos =
                some (or_else p.actual_service_total_centavos 0 + charge);
            platform_fee_centavos = some (or_else p.platform_fee_centavos 0 + fee);
            platform_fee_surcharge_centavos =
                some (or_else p.platform_fee_surcharge_centavos 0 + fee);
          };
        };
      }

  -- The surcharge of an approved hold. A charge of zero is none.
  unfoldable pub apply_surcharge : QualityHold → OnlineOrder d → OnlineOrder d
  unfolding surcharge_fee
  apply_surcharge h o = elim h.additional_charge_centavos [
    | none ↦ o
    | some charge ↦
        if not (ltb 0 charge)
        then o
        else elim (charged_lines h.service_line_index charge o.rest.service_lines) [
          | none ↦ o
          | some lines ↦ charged lines charge (surcharge_fee charge o) o
        ]
  ]

  abbrev pub response_of : Bool → QualityHoldResponse
  response_of true = approved
  response_of false = declined

  -- The document after an answer.
  unfoldable pub resolved : Bool → QualityHold → ℕ → OnlineOrder d → OnlineOrder d
  unfolding apply_surcharge
  resolved approve h now o =
      let o' = with_hold (answered (response_of approve) now h) o in
      if approve then apply_surcharge h o' else o'

  abbrev pub respond_to :
      ℕ → User → Bool → ℕ → OnlineOrder d → Option QualityHold → Step d (OnlineOrder d)
  respond_to id customer approve now o none = throw bad_request
  respond_to id customer approve now o (some h) = do
    throw_if (is_some h.resolved_at) bad_request
    throw_if (is_late h now) bad_request
    save_and_transition d id laundry_in_progress customer none now (resolved approve h now o)

  unfoldable pub respond_to_quality_hold : ℕ → User → Bool → ℕ → Step d (OnlineOrder d)
  unfolding resolved
  respond_to_quality_hold id customer approve now = do
    o ← find_order_or_throw d id
    assert_customer d o customer
    respond_to id customer approve now o o.rest.active_quality_hold

  abbrev pub is_overdue : OnlineOrder d → QualityHold → ℕ → Bool
  is_overdue o h now =
      (o.base.status === laundry_quality_hold) && not (is_some h.resolved_at) && is_expired h now

  abbrev pub system : Actor
  system = record {
    uid = "system";
    role = "system";
    note = some "Auto-resolved: response window expired, proceeding without extra charge";
  }

  abbrev pub auto_resolve : ℕ → ℕ → OnlineOrder d → Option QualityHold → Step d (OnlineOrder d)
  auto_resolve id now o none = pure o
  auto_resolve id now o (some h) =
      if not (is_overdue o h now)
      then pure o
      else with_transaction do
        o' ← saved d id (with_hold (answered declined now h) o)
        transition d id laundry_in_progress system now o'

  unfoldable pub auto_resolve_expired_quality_hold : ℕ → ℕ → Step d (OnlineOrder d)
  auto_resolve_expired_quality_hold id now = do
    o ← find_order_or_throw d id
    auto_resolve id now o o.rest.active_quality_hold
