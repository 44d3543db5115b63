-- ===== src/Promotions/Tests.antt =====
-- The theorems on promotions at concrete codes and redemptions.
use Prim.Native.String.{String}
use lalaba_backend_showcase.Base.{
  suc, ◌≤◌, ◌<◌, ◌≡◌, refl, true, false, none, some, List, [], ◌∷◌, arith,
}
use lalaba_backend_showcase.Base.Int.{pos, ◌+ℤ◌, ◌-ℤ◌}
use lalaba_backend_showcase.Base.Keyed.{find}
use lalaba_backend_showcase.Orders.Order.{OrderDb, redeemed, release_for_order}
use lalaba_backend_showcase.Promotions.Codes.{
  PromoCode, percentage, platform_fee, Accounts, cap_per_subject, used_by_customer,
  validate_against, compute_discount, valid,
}
use lalaba_backend_showcase.Promotions.Redeeming.{
  RedeemPromoInput, created, row_of, redeem, create_redemption, commit_redemption, claim_slot,
  used_by_branch, has_room,
}
use lalaba_backend_showcase.Promotions.Slots.{slots_taken}
use lalaba_backend_showcase.Promotions.Counted.{IsCounted}
use lalaba_backend_showcase.Promotions.Caps.{
  PromoCall, redeem_code, reserve_code, order_ended, run_promos, run, promotion_cap_holds,
}
use lalaba_backend_showcase.Promotions.Races.{customer_cap_is_raced}

abbrev wash : PromoCode
wash = record {
  code = "WASH";
  scope = none;
  discount_type = percentage;
  discount_value = 10;
  max_discount_centavos = some 5_000;
  min_order_value_centavos = none;
  target_role_ids = "customer" ∷ [];
  first_order_only = false;
  usage_cap_total = some 1;
  usage_cap_per_customer = 1;
  usage_cap_per_subject = none;
  starts_at = 0;
  expires_at = none;
  is_active = true;
}

abbrev unlimited : PromoCode
unlimited = record wash { usage_cap_total = none }

-- Two codes that waive the platform fee of a branch; the newer one is worth less.
abbrev generous : PromoCode
generous = record wash {
  code = "FREE";
  scope = some platform_fee;
  target_role_ids = "washer" ∷ [];
  usage_cap_per_customer = 5;
}

abbrev small : PromoCode
small = record generous { code = "SMALL"; discount_value = 1; usage_cap_per_customer = 1 }

abbrev customers : Accounts
customers = record { role = λ uid. some (some "customer"); has_ordered = λ uid. false }

abbrev as_typed : String → String
as_typed code = code

abbrev no_redemptions : OrderDb
no_redemptions = record { orders = []; events = []; redemptions = []; counts = (2, pos 0) ∷ [] }

abbrev of_ana : RedeemPromoInput
of_ana = record {
  code = "WASH";
  customer_uid = "ana";
  order_total_centavos = 20_000;
  order_id = some 7;
}

no_redemptions-IsCounted : IsCounted ((2, wash) ∷ []) no_redemptions
unfolding slots_taken
no_redemptions-IsCounted = record {
  unique = tt;
  counted = λ p n h. ground arith;
  capped = λ p cap promo h k. ground arith;
}

-- Ana reserves the last slot, another reservation that was checked before is refused, Ana's order
-- ends, and the slot is redeemed again.
abbrev calls : List PromoCall
calls =
    reserve_code of_ana 100 no_redemptions
    ∷ reserve_code (record of_ana { customer_uid = "ben"; order_id = some 8 }) 110 no_redemptions
    ∷ order_ended 7 120
    ∷ redeem_code (record of_ana { customer_uid = "ben"; order_id = none }) 130 no_redemptions
    ∷ []

abbrev after_calls : OrderDb
after_calls = run_promos customers as_typed ((2, wash) ∷ []) calls no_redemptions

calls_count : find 2 after_calls.counts ≡ some (pos 1)
unfolding run_promos run create_redemption commit_redemption claim_slot validate_against
    used_by_customer compute_discount release_for_order ◌+ℤ◌ ◌-ℤ◌
calls_count = refl

promotion_cap_holds_example :
    (slots_taken 2 after_calls.redemptions ≤ 1)
    × (pos 1 ≡ pos (slots_taken 2 after_calls.redemptions))
promotion_cap_holds_example =
    promotion_cap_holds customers as_typed ((2, wash) ∷ []) calls no_redemptions 2 1 wash (pos 1)
      (refl, tt) no_redemptions-IsCounted refl refl calls_count

ana_may_redeem :
    validate_against customers 2 unlimited "ana" 20_000 100 no_redemptions ≡ valid 2_000
unfolding validate_against used_by_customer compute_discount
ana_may_redeem = refl

never_used : suc (used_by_customer 2 "ana" no_redemptions.redemptions) ≡ cap_per_subject unlimited
unfolding used_by_customer
never_used = refl

customer_cap_is_raced_example :
    let first =
      redeem customers as_typed ((2, unlimited) ∷ []) of_ana 0 100 no_redemptions no_redemptions in
    let second =
      redeem customers as_typed ((2, unlimited) ∷ []) of_ana 1 100 no_redemptions first.1 in
    (first.0 ≡ created (row_of of_ana 2 2_000 redeemed))
    × (second.0 ≡ created (row_of of_ana 2 2_000 redeemed))
    × (1 < used_by_customer 2 "ana" second.1.redemptions)
customer_cap_is_raced_example =
    customer_cap_is_raced customers as_typed ((2, unlimited) ∷ []) of_ana 0 1 100 2 2_000 unlimited
      (pos 0) no_redemptions refl ana_may_redeem refl refl never_used refl

room_for_small : has_room 3 5 small no_redemptions ≡ true
unfolding used_by_branch
room_for_small = refl
