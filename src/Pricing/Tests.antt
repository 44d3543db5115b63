-- ===== src/Pricing/Tests.antt =====
-- Orders on which the theorems about prices apply.
use lalaba_backend_showcase.Base.{◌≡◌, refl, true, none, some, arith}
use lalaba_backend_showcase.Base.Int.{pos, ◌-ℤ◌}
use lalaba_backend_showcase.Pricing.Legs.{
  fraction, whole_amount, provider_pickup, customer_self_pickup, express, scheduled_paid,
  express_tier, FulfillmentPricingConfig, ResolvedTurnaround, ResolvedFulfillmentFees, priced,
  FeeArgs, resolve_fulfillment_fees, resolve_turnaround,
}
use lalaba_backend_showcase.Pricing.LegBounds.{WithinCeiling, AllPriced, fees-WithinCeiling}
use lalaba_backend_showcase.Pricing.FeeParts.{OrderPricing, waivable_platform_fee_centavos}

-- A pickup at 75.50 centavos above 300 pesos, and a free return.
abbrev pricey : FulfillmentPricingConfig
pricey = record {
  provider_pickup = some (record {
    fee_centavos = some (whole_amount 100);
    premium_window_fee_centavos = some (fraction (pos 60_151) 1);
  });
  provider_delivery = none;
  express =
      some
        (record { enabled = true; fee_centavos = some (whole_amount 90_000); sla_hours = some 4 });
}

abbrev order : FeeArgs
order = record {
  pickup_mode = some provider_pickup;
  pickup_sub_mode = some scheduled_paid;
  return_mode = some customer_self_pickup;
  delivery_sub_mode = some express;
  config = some pricey;
  ceiling_centavos = some (pos 15_000);
}

fees-WithinCeiling_example :
    AllPriced
      (λ (f : ResolvedFulfillmentFees).
        WithinCeiling (pos 15_000) f.pickup_fee_centavos
        × WithinCeiling (pos 15_000) f.return_fee_centavos)
      (resolve_fulfillment_fees order)
    × AllPriced
        (λ (t : ResolvedTurnaround). WithinCeiling (pos 15_000) t.fee_centavos)
        (resolve_turnaround (some express_tier) (some pricey) (pos 15_000))
fees-WithinCeiling_example = fees-WithinCeiling order (some express_tier) (omega arith)

abbrev order_fees : ResolvedFulfillmentFees
order_fees = record { pickup_fee_centavos = pos 15_000; return_fee_centavos = pos 0 }

order-priced : resolve_fulfillment_fees order ≡ priced order_fees
unfolding resolve_fulfillment_fees
order-priced = refl

abbrev waived : OrderPricing
waived = record {
  platform_fee_centavos = some (pos 2_000);
  platform_fee_surcharge_centavos = some (pos 500);
  platform_fee_discount_centavos = some (pos 1_500);
}

waived-whole :
    waived.platform_fee_discount_centavos ≡ some (waivable_platform_fee_centavos (some waived))
unfolding waivable_platform_fee_centavos ◌-ℤ◌
waived-whole = refl
