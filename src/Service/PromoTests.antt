-- ===== src/Service/PromoTests.antt =====
-- An acceptance that takes the last slot of a promotion on the platform fee
-- (src/online-orders/online-orders.service.ts, src/promotions/promotions.service.ts).
use lalaba_backend_showcase.Base.{◌≤◌, ◌≡◌, refl, true, false, none, some, List, [], ◌∷◌, arith}
use lalaba_backend_showcase.Base.Int.{pos, ◌+ℤ◌, ◌-ℤ◌}
use lalaba_backend_showcase.Base.Keyed.{find}
use lalaba_backend_showcase.Orders.Status.{pending_provider_acceptance, assert_valid_transition}
use lalaba_backend_showcase.Orders.Transition.{apply_transition, settle_promo_for_transition}
use lalaba_backend_showcase.Promotions.Codes.{PromoCode, waive, platform_fee}
use lalaba_backend_showcase.Promotions.Redeeming.{
  claim_slot, reserve_for_branch, find_platform_fee_promo_for, used_by_branch,
}
use lalaba_backend_showcase.Promotions.Slots.{slots_taken}
use lalaba_backend_showcase.Promotions.Counted.{IsCounted}
use lalaba_backend_showcase.Pricing.FeeParts.{waivable_platform_fee_centavos}
use lalaba_backend_showcase.Wallets.Fees.{assert_can_accept_order}
use lalaba_backend_showcase.Service.State.{
  World, find_order_or_throw, throw_if, ◌>>=◌, with_transaction, save, saved, transition,
  call_wallet, pure,
}
use lalaba_backend_showcase.Service.Access.{assert_branch_ownership}
use lalaba_backend_showcase.Service.Eligibility.{assert_provider_bookable, washer_fault}
use lalaba_backend_showcase.Service.Cap.{reserve_daily_cap_slot, ensured, accepted_on, inc_counter}
use lalaba_backend_showcase.Service.Acceptance.{accept_order, apply_platform_fee_promo}
use lalaba_backend_showcase.Service.Books.{Balanced, kept-Balanced, fee_sum, paid_sum}
use lalaba_backend_showcase.Service.Calls.{Call, accept, run, run_all, handlers_keep_promotions}
use lalaba_backend_showcase.Service.Examples.{
  d, owner_of, no_staff, order_in, nothing, owner, no_distance, providers,
}

-- The fee of one order is waived, for washers.
abbrev free_fee : PromoCode
free_fee = record {
  code = "FREE";
  scope = some platform_fee;
  discount_type = waive;
  discount_value = 0;
  max_discount_centavos = none;
  min_order_value_centavos = none;
  target_role_ids = "washer" ∷ [];
  first_order_only = false;
  usage_cap_total = some 1;
  usage_cap_per_customer = 1;
  usage_cap_per_subject = none;
  starts_at = 0;
  expires_at = none;
  is_active = true;
}

abbrev no_orders : World d
no_orders = record nothing {
  db = record { orders = []; events = []; redemptions = []; counts = (2, pos 0) ∷ [] };
  promos = (2, free_fee) ∷ [];
}

no_orders-Balanced : Balanced d no_orders
no_orders-Balanced id b r there stored = cc

abbrev offered : World d
offered = record no_orders {
  db = record no_orders.db { orders = (7, (order_in pending_provider_acceptance).base) ∷ [] };
  rests = (7, (order_in pending_provider_acceptance).rest) ∷ [];
}

offered-IsCounted : IsCounted offered.promos offered.db
unfolding slots_taken
offered-IsCounted = record {
  unique = tt;
  counted = λ p n h. ground arith;
  capped = λ p cap promo h k. ground arith;
}

offered-Balanced : Balanced d offered
unfolding fee_sum paid_sum ◌+ℤ◌
offered-Balanced =
    kept-Balanced d 7 (order_in pending_provider_acceptance) no_orders offered no_orders-Balanced
      (record { there = refl; stored = refl; fees = refl; paid = refl })
      (record {
        orders = λ j ne. ground arith;
        rests = λ j ne. ground arith;
        fees = λ j ne. refl;
        paid = λ j ne. refl;
        moved = λ b there. cc;
        counts = (refl, λ c. offered-IsCounted);
      })

-- The order is accepted, and accepted again, which is refused.
abbrev twice : List (Call d owner_of no_staff no_distance)
twice = accept providers 7 owner "2026-08-17" 50 ∷ accept providers 7 owner "2026-08-17" 60 ∷ []

abbrev accepted : World d
accepted = run_all d owner_of no_staff no_distance twice offered

slot_is_counted : find 2 accepted.db.counts ≡ some (pos 1)
unfolding run_all run accept_order apply_platform_fee_promo find_order_or_throw ◌>>=◌ throw_if pure
    with_transaction saved save transition call_wallet assert_branch_ownership
    assert_provider_bookable washer_fault assert_can_accept_order reserve_daily_cap_slot ensured
    accepted_on inc_counter apply_transition settle_promo_for_transition assert_valid_transition
    reserve_for_branch claim_slot find_platform_fee_promo_for used_by_branch
    waivable_platform_fee_centavos ◌+ℤ◌ ◌-ℤ◌
slot_is_counted = refl

handlers_keep_promotions_example :
    (slots_taken 2 accepted.db.redemptions ≤ 1)
    × (pos 1 ≡ pos (slots_taken 2 accepted.db.redemptions))
handlers_keep_promotions_example =
    handlers_keep_promotions d owner_of no_staff no_distance twice offered 2 1 free_fee (pos 1)
      offered-Balanced offered-IsCounted refl refl slot_is_counted
