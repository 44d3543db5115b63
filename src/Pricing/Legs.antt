-- ===== src/Pricing/Legs.antt =====
-- Pickup, return and turnaround fees (src/online-orders/fulfillment-pricing.util.ts).
use lalaba_backend_showcase.Base.{
  ℕ, ◌+◌, ◌*◌, ◌/◌, ◌^◌, Bool, true, false, not, Option, none, some, if◌then◌else◌, or_else,
}
use lalaba_backend_showcase.Base.Int.{ℤ, pos, negsuc, leb_ℤ}

-- A number that a provider stored: the double `numerator / 2 ^ exponent`, or one that
-- `Number.isFinite` refuses.
pub data Amount : Type 0 where
  fraction : ℤ → ℕ → Amount
  not_finite : Amount

pub data FulfillmentPickupMode : Type 0 where
  customer_dropoff provider_pickup : FulfillmentPickupMode

pub data FulfillmentReturnMode : Type 0 where
  customer_self_pickup provider_delivery : FulfillmentReturnMode

pub data DeliverySubMode : Type 0 where
  free_batch scheduled_paid express : DeliverySubMode

pub data TurnaroundTierCode : Type 0 where
  standard express_tier : TurnaroundTierCode

abbrev pub whole_amount : ℕ → Amount
whole_amount n = fraction (pos n) 0

abbrev pub default_leg_fee_centavos : Amount
default_leg_fee_centavos = whole_amount 0

abbrev pub default_premium_window_fee_centavos : Amount
default_premium_window_fee_centavos = whole_amount 5000

abbrev pub return_fee_express_centavos : Amount
return_fee_express_centavos = whole_amount 12_000

abbrev pub default_max_leg_fee_centavos : ℤ
default_max_leg_fee_centavos = pos 20_000

-- A null fee and an absent one are `none`.
pub record LegPricing : Type 0 where
  pub fee_centavos : Option Amount
  pub premium_window_fee_centavos : Option Amount

pub record TurnaroundTierPricing : Type 0 where
  pub enabled : Bool
  pub fee_centavos : Option Amount
  pub sla_hours : Option ℕ

pub record FulfillmentPricingConfig : Type 0 where
  pub provider_pickup : Option LegPricing
  pub provider_delivery : Option LegPricing
  pub express : Option TurnaroundTierPricing

pub record ResolvedTurnaround : Type 0 where
  pub tier_code : TurnaroundTierCode
  pub fee_centavos : ℤ
  pub sla_hours : Option ℕ

pub record ResolvedFulfillmentFees : Type 0 where
  pub pickup_fee_centavos : ℤ
  pub return_fee_centavos : ℤ

-- A price, or a `BadRequestException`.
pub data Priced (A : Type 0) : Type 0 where
  priced : A → Priced A
  bad_request : Priced A

-- `Math.round` of a positive double: the whole part of the number plus a half.
abbrev pub rounded : ℕ → ℕ → ℕ
rounded n k = (2 * n + 2 ^ k) / (2 * 2 ^ k)

abbrev pub min_ℤ : ℤ → ℤ → ℤ
min_ℤ a b = if leb_ℤ a b then a else b

-- The second clause is `requested <= 0`.
unfoldable pub clamp_leg_fee : Amount → ℤ → ℤ
clamp_leg_fee not_finite ceiling = pos 0
clamp_leg_fee (fraction (negsuc n) k) ceiling = pos 0
clamp_leg_fee (fraction (pos n) k) ceiling =
    if leb_ℤ (pos n) (pos 0) then pos 0 else min_ℤ (pos (rounded n k)) ceiling

unfoldable pub leg_amount : Option LegPricing → Bool → Amount
leg_amount none premium =
    if premium then default_premium_window_fee_centavos else default_leg_fee_centavos
leg_amount (some leg) premium =
    let base = or_else leg.fee_centavos default_leg_fee_centavos in
    if not premium then base else or_else leg.premium_window_fee_centavos base

abbrev pub pickup_leg : Option FulfillmentPricingConfig → Option LegPricing
pickup_leg none = none
pickup_leg (some c) = c.provider_pickup

abbrev pub delivery_leg : Option FulfillmentPricingConfig → Option LegPricing
delivery_leg none = none
delivery_leg (some c) = c.provider_delivery

-- What both legs do with a tier: reject EXPRESS, and price the two others.
unfoldable pub tier_fee : DeliverySubMode → Option LegPricing → ℤ → Priced ℤ
unfolding clamp_leg_fee leg_amount
tier_fee express leg ceiling = bad_request
tier_fee free_batch leg ceiling = priced (clamp_leg_fee (leg_amount leg false) ceiling)
tier_fee scheduled_paid leg ceiling = priced (clamp_leg_fee (leg_amount leg true) ceiling)

unfoldable pub pickup_fee_centavos_for :
    FulfillmentPickupMode → Option DeliverySubMode → Option FulfillmentPricingConfig → ℤ → Priced ℤ
unfolding tier_fee
pickup_fee_centavos_for customer_dropoff sub config ceiling = priced (pos 0)
pickup_fee_centavos_for provider_pickup sub config ceiling =
    tier_fee (or_else sub free_batch) (pickup_leg config) ceiling

unfoldable pub return_fee_centavos_for :
    FulfillmentReturnMode → Option DeliverySubMode → Option FulfillmentPricingConfig → ℤ → Priced ℤ
unfolding tier_fee
return_fee_centavos_for customer_self_pickup sub config ceiling = priced (pos 0)
return_fee_centavos_for provider_delivery sub config ceiling =
    tier_fee (or_else sub free_batch) (delivery_leg config) ceiling

pub record FeeArgs : Type 0 where
  pub pickup_mode : Option FulfillmentPickupMode
  pub pickup_sub_mode : Option DeliverySubMode
  pub return_mode : Option FulfillmentReturnMode
  pub delivery_sub_mode : Option DeliverySubMode
  pub config : Option FulfillmentPricingConfig
  pub ceiling_centavos : Option ℤ

abbrev pub both_fees : Priced ℤ → Priced ℤ → Priced ResolvedFulfillmentFees
both_fees bad_request r = bad_request
both_fees (priced p) bad_request = bad_request
both_fees (priced p) (priced r) =
    priced (record { pickup_fee_centavos = p; return_fee_centavos = r })

unfoldable pub pickup_of : FeeArgs → ℤ → Priced ℤ
unfolding pickup_fee_centavos_for
pickup_of a ceiling = elim a.pickup_mode [
  | none ↦ priced (pos 0)
  | some m ↦ pickup_fee_centavos_for m a.pickup_sub_mode a.config ceiling
]

unfoldable pub return_of : FeeArgs → ℤ → Priced ℤ
unfolding return_fee_centavos_for
return_of a ceiling = elim a.return_mode [
  | none ↦ priced (pos 0)
  | some m ↦ return_fee_centavos_for m a.delivery_sub_mode a.config ceiling
]

unfoldable pub resolve_fulfillment_fees : FeeArgs → Priced ResolvedFulfillmentFees
unfolding pickup_of return_of
resolve_fulfillment_fees a =
    let ceiling = or_else a.ceiling_centavos default_max_leg_fee_centavos in
    both_fees (pickup_of a ceiling) (return_of a ceiling)

abbrev pub express_of : Option FulfillmentPricingConfig → Option TurnaroundTierPricing
express_of none = none
express_of (some c) = c.express

abbrev pub no_promise : ResolvedTurnaround
no_promise = record { tier_code = standard; fee_centavos = pos 0; sla_hours = none }

unfoldable pub express_turnaround : Option TurnaroundTierPricing → ℤ → Priced ResolvedTurnaround
unfolding clamp_leg_fee
express_turnaround none ceiling = bad_request
express_turnaround (some e) ceiling =
    if not e.enabled
    then bad_request
    else priced (record {
      tier_code = express_tier;
      fee_centavos = clamp_leg_fee (or_else e.fee_centavos return_fee_express_centavos) ceiling;
      sla_hours = e.sla_hours;
    })

unfoldable pub resolve_turnaround :
    Option TurnaroundTierCode → Option FulfillmentPricingConfig → ℤ → Priced ResolvedTurnaround
unfolding express_turnaround
resolve_turnaround none config ceiling = priced no_promise
resolve_turnaround (some standard) config ceiling = priced no_promise
resolve_turnaround (some express_tier) config ceiling =
    express_turnaround (express_of config) ceiling

unfoldable pub pickup_slot_fee_centavos : Bool → Option FulfillmentPricingConfig → ℤ → Priced ℤ
unfolding pickup_fee_centavos_for
pickup_slot_fee_centavos is_free_batch_window config ceiling =
    pickup_fee_centavos_for provider_pickup
      (some (if is_free_batch_window then free_batch else scheduled_paid)) config ceiling
