-- ===== src/Pricing/LegRefusals.antt =====
-- When the fees of the legs are refused, and the fee of a pickup slot
-- (src/online-orders/fulfillment-pricing.util.ts).
use lalaba_backend_showcase.Base.{
  ℕ, ◌≡◌, ◌↔◌, ◌⊎◌, refl, sym, ◌∙◌, inl, inr, Bool, Option, none, some, if◌then◌else◌, or_else,
  arith, Bool-cases,
}
use lalaba_backend_showcase.Base.Int.{ℤ, pos, negsuc, leb_ℤ, ◌≤ℤ◌, eq_of_parts}
use lalaba_backend_showcase.Pricing.Legs.{
  Amount, fraction, not_finite, customer_dropoff, provider_pickup, customer_self_pickup,
  provider_delivery, DeliverySubMode, free_batch, scheduled_paid, express, LegPricing,
  ResolvedFulfillmentFees, Priced, priced, bad_request, rounded, min_ℤ, clamp_leg_fee, tier_fee,
  pickup_leg, delivery_leg, pickup_fee_centavos_for, return_fee_centavos_for, FeeArgs, both_fees,
  pickup_of, return_of, resolve_fulfillment_fees, pickup_slot_fee_centavos,
  default_max_leg_fee_centavos,
}

tier_fee-rejects :
    (s : Option DeliverySubMode) (leg : Option LegPricing) (c : ℤ)
    → (tier_fee (or_else s free_batch) leg c ≡ bad_request) ↔ (s ≡ some express)
unfolding tier_fee
tier_fee-rejects none leg c = ((λ h. cc), λ h. cc)
tier_fee-rejects (some express) leg c = ((λ h. refl), λ h. refl)
tier_fee-rejects (some free_batch) leg c = ((λ h. cc), λ h. cc)
tier_fee-rejects (some scheduled_paid) leg c = ((λ h. cc), λ h. cc)

-- The leg is the provider's, and its tier is EXPRESS.
abbrev pub PickupExpress : FeeArgs → Type 0
PickupExpress a = (a.pickup_mode ≡ some provider_pickup) × (a.pickup_sub_mode ≡ some express)

abbrev pub ReturnExpress : FeeArgs → Type 0
ReturnExpress a = (a.return_mode ≡ some provider_delivery) × (a.delivery_sub_mode ≡ some express)

pickup_of-rejects : (a : FeeArgs) (c : ℤ) → (pickup_of a c ≡ bad_request) ↔ PickupExpress a
unfolding pickup_of pickup_fee_centavos_for
pickup_of-rejects a c =
    elim a.pickup_mode
      as (λ m.
        (pickup_of (record a { pickup_mode = m }) c ≡ bad_request)
        ↔ PickupExpress (record a { pickup_mode = m })) [
          | none ↦ ((λ h. cc), λ h. cc)
          | some customer_dropoff ↦ ((λ h. cc), λ h. cc)
          | some provider_pickup ↦
              let iff = tier_fee-rejects a.pickup_sub_mode (pickup_leg a.config) c in
              ((λ h. (refl, iff.0 h)), λ h. iff.1 h.1)
        ]

return_of-rejects : (a : FeeArgs) (c : ℤ) → (return_of a c ≡ bad_request) ↔ ReturnExpress a
unfolding return_of return_fee_centavos_for
return_of-rejects a c =
    elim a.return_mode
      as (λ m.
        (return_of (record a { return_mode = m }) c ≡ bad_request)
        ↔ ReturnExpress (record a { return_mode = m })) [
          | none ↦ ((λ h. cc), λ h. cc)
          | some customer_self_pickup ↦ ((λ h. cc), λ h. cc)
          | some provider_delivery ↦
              let iff = tier_fee-rejects a.delivery_sub_mode (delivery_leg a.config) c in
              ((λ h. (refl, iff.0 h)), λ h. iff.1 h.1)
        ]

both_fees-rejects :
    (p r : Priced ℤ) → (both_fees p r ≡ bad_request) ↔ ((p ≡ bad_request) ⊎ (r ≡ bad_request))
both_fees-rejects bad_request r = ((λ h. inl refl), λ h. refl)
both_fees-rejects (priced p) bad_request = ((λ h. inr refl), λ h. refl)
both_fees-rejects (priced p) (priced r) = ((λ h. cc), λ h. elim h [ inl e ↦ cc | inr e ↦ cc ])

-- The fees are refused exactly when a leg that the provider travels has the tier EXPRESS; on a leg
-- that the customer travels any tier is let through.
resolve_fulfillment_fees-rejects :
    (a : FeeArgs) → (resolve_fulfillment_fees a ≡ bad_request) ↔ (PickupExpress a ⊎ ReturnExpress a)
unfolding resolve_fulfillment_fees
resolve_fulfillment_fees-rejects a =
    let c = or_else a.ceiling_centavos default_max_leg_fee_centavos in
    let iff = both_fees-rejects (pickup_of a c) (return_of a c) in
    let p = pickup_of-rejects a c in
    let r = return_of-rejects a c in
    (
      (λ h. elim (iff.0 h) [ inl e ↦ inl (p.0 e) | inr e ↦ inr (r.0 e) ]),
      λ h. iff.1 (elim h [ inl e ↦ inl (p.1 e) | inr e ↦ inr (r.1 e) ]),
    )

both_fees-pickup :
    (p r : Priced ℤ) (f : ResolvedFulfillmentFees)
    → both_fees p r ≡ priced f
    → p ≡ priced f.pickup_fee_centavos
both_fees-pickup bad_request r f h = cc
both_fees-pickup (priced p) bad_request f h = cc
both_fees-pickup (priced p) (priced r) f h = cc

pickup_of-slot :
    (a : FeeArgs) (is_free : Bool) (c : ℤ)
    → a.pickup_mode ≡ some provider_pickup
    → a.pickup_sub_mode ≡ some (if is_free then free_batch else scheduled_paid)
    → pickup_of a c ≡ pickup_slot_fee_centavos is_free a.config c
unfolding pickup_of pickup_slot_fee_centavos pickup_fee_centavos_for
pickup_of-slot a is_free c mode sub = rw (mode, sub) refl

-- The fee that the slot list shows for a pickup window is the pickup fee that an order in the same
-- tier is charged, with the same configuration and ceiling.
advertised_fee_is_charged :
    (a : FeeArgs) (is_free : Bool) (f : ResolvedFulfillmentFees)
    → a.pickup_mode ≡ some provider_pickup
    → a.pickup_sub_mode ≡ some (if is_free then free_batch else scheduled_paid)
    → resolve_fulfillment_fees a ≡ priced f
    → pickup_slot_fee_centavos is_free a.config
        (or_else a.ceiling_centavos default_max_leg_fee_centavos)
      ≡ priced f.pickup_fee_centavos
unfolding resolve_fulfillment_fees
advertised_fee_is_charged a is_free f mode sub h =
    let c = or_else a.ceiling_centavos default_max_leg_fee_centavos in
    sym (pickup_of-slot a is_free c mode sub) ∙ both_fees-pickup (pickup_of a c) (return_of a c) f h

min_ℤ-drop : (r : ℕ) (c d : ℤ) → c ≤ℤ d → min_ℤ (pos r) c ≡ min_ℤ (min_ℤ (pos r) d) c
min_ℤ-drop r c d h = ground (arith, eq_of_parts d c)

-- When the platform lowers its ceiling, every fee becomes the smaller of the fee before and the new
-- ceiling, with nothing rewritten in what the provider stored.
clamp_leg_fee-ceiling_drop :
    (a : Amount) (c d : ℤ) → pos 0 ≤ℤ c → c ≤ℤ d → clamp_leg_fee a c ≡ min_ℤ (clamp_leg_fee a d) c
unfolding clamp_leg_fee
clamp_leg_fee-ceiling_drop not_finite c d h le = ground arith
clamp_leg_fee-ceiling_drop (fraction (negsuc n) k) c d h le = ground arith
clamp_leg_fee-ceiling_drop (fraction (pos n) k) c d h le =
    elim (Bool-cases (leb_ℤ (pos n) (pos 0))) [
      | inl e ↦ rw e (ground arith)
      | inr e ↦ rw e (min_ℤ-drop (rounded n k) c d le)
    ]
