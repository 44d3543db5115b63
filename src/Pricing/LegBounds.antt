-- ===== src/Pricing/LegBounds.antt =====
-- What the fees of the legs promise (src/online-orders/fulfillment-pricing.util.ts): the platform's
-- ceiling, free legs, the refusal of EXPRESS, and the price that a slot list shows.
use lalaba_backend_showcase.Base.{
  ℕ, inl, inr, true, false, Option, none, some, or_else, arith, Bool-cases,
}
use lalaba_backend_showcase.Base.Int.{ℤ, pos, negsuc, leb_ℤ, ◌≤ℤ◌}
use lalaba_backend_showcase.Pricing.Legs.{
  Amount, fraction, not_finite, customer_dropoff, provider_pickup, customer_self_pickup,
  provider_delivery, DeliverySubMode, free_batch, scheduled_paid, express, TurnaroundTierCode,
  standard, express_tier, LegPricing, TurnaroundTierPricing, FulfillmentPricingConfig,
  ResolvedTurnaround, ResolvedFulfillmentFees, Priced, priced, bad_request, rounded, min_ℤ,
  clamp_leg_fee, leg_amount, tier_fee, pickup_leg, delivery_leg, pickup_fee_centavos_for,
  return_fee_centavos_for, FeeArgs, both_fees, pickup_of, return_of, resolve_fulfillment_fees,
  express_of, express_turnaround, resolve_turnaround, default_max_leg_fee_centavos,
  return_fee_express_centavos,
}

-- Not negative, and not above the ceiling.
abbrev pub WithinCeiling : ℤ → ℤ → Type 0
WithinCeiling ceiling fee = (pos 0 ≤ℤ fee) × (fee ≤ℤ ceiling)

min_ℤ-bounds : (r : ℕ) (c : ℤ) → pos 0 ≤ℤ c → WithinCeiling c (min_ℤ (pos r) c)
min_ℤ-bounds r c h = ground arith

clamp_leg_fee-bounds : (a : Amount) (c : ℤ) → pos 0 ≤ℤ c → WithinCeiling c (clamp_leg_fee a c)
unfolding clamp_leg_fee
clamp_leg_fee-bounds not_finite c h = ground arith
clamp_leg_fee-bounds (fraction (negsuc n) k) c h = ground arith
clamp_leg_fee-bounds (fraction (pos n) k) c h = elim (Bool-cases (leb_ℤ (pos n) (pos 0))) [
  | inl e ↦ rw e (ground arith)
  | inr e ↦ rw e (min_ℤ-bounds (rounded n k) c h)
]

abbrev pub AllPriced : {A : Type 0} → (A → Type 0) → Priced A → Type 0
AllPriced P (priced a) = P a
AllPriced P bad_request = Unit

tier_fee-bounds :
    (s : DeliverySubMode) (leg : Option LegPricing) (c : ℤ)
    → pos 0 ≤ℤ c
    → AllPriced (WithinCeiling c) (tier_fee s leg c)
unfolding tier_fee
tier_fee-bounds express leg c h = tt
tier_fee-bounds free_batch leg c h = clamp_leg_fee-bounds (leg_amount leg false) c h
tier_fee-bounds scheduled_paid leg c h = clamp_leg_fee-bounds (leg_amount leg true) c h

pickup_of-bounds : (a : FeeArgs) (c : ℤ) → pos 0 ≤ℤ c → AllPriced (WithinCeiling c) (pickup_of a c)
unfolding pickup_of pickup_fee_centavos_for
pickup_of-bounds a c h =
    elim a.pickup_mode
      as (λ m. AllPriced (WithinCeiling c) (pickup_of (record a { pickup_mode = m }) c)) [
        | none ↦ (omega arith, h)
        | some customer_dropoff ↦ (omega arith, h)
        | some provider_pickup ↦
            tier_fee-bounds (or_else a.pickup_sub_mode free_batch) (pickup_leg a.config) c h
      ]

return_of-bounds : (a : FeeArgs) (c : ℤ) → pos 0 ≤ℤ c → AllPriced (WithinCeiling c) (return_of a c)
unfolding return_of return_fee_centavos_for
return_of-bounds a c h =
    elim a.return_mode
      as (λ m. AllPriced (WithinCeiling c) (return_of (record a { return_mode = m }) c)) [
        | none ↦ (omega arith, h)
        | some customer_self_pickup ↦ (omega arith, h)
        | some provider_delivery ↦
            tier_fee-bounds (or_else a.delivery_sub_mode free_batch) (delivery_leg a.config) c h
      ]

both_fees-bounds :
    (c : ℤ) (p r : Priced ℤ)
    → AllPriced (WithinCeiling c) p
    → AllPriced (WithinCeiling c) r
    → AllPriced
        (λ (f : ResolvedFulfillmentFees).
          WithinCeiling c f.pickup_fee_centavos × WithinCeiling c f.return_fee_centavos)
        (both_fees p r)
both_fees-bounds c bad_request r hp hr = tt
both_fees-bounds c (priced p) bad_request hp hr = tt
both_fees-bounds c (priced p) (priced r) hp hr = (hp, hr)

turnaround-bounds :
    (e : Option TurnaroundTierPricing) (c : ℤ)
    → pos 0 ≤ℤ c
    → AllPriced
        (λ (t : ResolvedTurnaround). WithinCeiling c t.fee_centavos)
        (express_turnaround e c)
unfolding express_turnaround
turnaround-bounds none c h = tt
turnaround-bounds (some e) c h = elim (Bool-cases e.enabled) [
  | inl on ↦ rw on (clamp_leg_fee-bounds (or_else e.fee_centavos return_fee_express_centavos) c h)
  | inr off ↦ rw off tt
]

resolve_turnaround-bounds :
    (tier : Option TurnaroundTierCode) (config : Option FulfillmentPricingConfig) (c : ℤ)
    → pos 0 ≤ℤ c
    → AllPriced
        (λ (t : ResolvedTurnaround). WithinCeiling c t.fee_centavos)
        (resolve_turnaround tier config c)
unfolding resolve_turnaround
resolve_turnaround-bounds none config c h = (omega arith, h)
resolve_turnaround-bounds (some standard) config c h = (omega arith, h)
resolve_turnaround-bounds (some express_tier) config c h = turnaround-bounds (express_of config) c h

-- Whatever a provider stored, negative and fractional numbers and numbers that are not finite
-- included, the fee of each leg and of the turnaround is not negative and not above the platform's
-- ceiling, where that is not negative.
pub fees-WithinCeiling :
    (a : FeeArgs) (tier : Option TurnaroundTierCode)
    → let ceiling = or_else a.ceiling_centavos default_max_leg_fee_centavos in
      pos 0 ≤ℤ ceiling
      → AllPriced
          (λ (f : ResolvedFulfillmentFees).
            WithinCeiling ceiling f.pickup_fee_centavos
            × WithinCeiling ceiling f.return_fee_centavos)
          (resolve_fulfillment_fees a)
        × AllPriced
            (λ (t : ResolvedTurnaround). WithinCeiling ceiling t.fee_centavos)
            (resolve_turnaround tier a.config ceiling)
unfolding resolve_fulfillment_fees
fees-WithinCeiling a tier h =
    let c = or_else a.ceiling_centavos default_max_leg_fee_centavos in
    (
      both_fees-bounds c (pickup_of a c) (return_of a c) (pickup_of-bounds a c h)
          (return_of-bounds a c h),
      resolve_turnaround-bounds tier a.config c h,
    )
