-- ===== src/Pricing/FeeParts.antt =====
-- The parts of the platform fee that a promotion may forgive and that the provider owes
-- (src/online-orders/platform-fee-parts.util.ts). Amounts are whole centavos of either sign.
use lalaba_backend_showcase.Base.{◌≡◌, Option, none, some, if◌then◌else◌, or_else, arith}
use lalaba_backend_showcase.Base.Int.{ℤ, pos, ◌-ℤ◌, leb_ℤ, ◌≤ℤ◌, int_laws}

-- The three fields of `OrderPricing` that are read, each absent on old orders.
pub record OrderPricing : Type 0 where
  pub platform_fee_centavos : Option ℤ
  pub platform_fee_surcharge_centavos : Option ℤ
  pub platform_fee_discount_centavos : Option ℤ

-- `Math.max(0, x)`
abbrev pub at_least_zero : ℤ → ℤ
at_least_zero x = if leb_ℤ (pos 0) x then x else pos 0

abbrev pub read_field : (OrderPricing → Option ℤ) → Option OrderPricing → ℤ
read_field field none = pos 0
read_field field (some p) = or_else (field p) (pos 0)

unfoldable pub surcharge_platform_fee_centavos : Option OrderPricing → ℤ
surcharge_platform_fee_centavos p =
    at_least_zero (read_field (λ p. p.platform_fee_surcharge_centavos) p)

abbrev pub gross_fee : Option OrderPricing → ℤ
gross_fee p = at_least_zero (read_field (λ p. p.platform_fee_centavos) p)

unfoldable pub waivable_platform_fee_centavos : Option OrderPricing → ℤ
unfolding surcharge_platform_fee_centavos
waivable_platform_fee_centavos p = at_least_zero (gross_fee p -ℤ surcharge_platform_fee_centavos p)

unfoldable pub chargeable_platform_fee_centavos : Option OrderPricing → ℤ
chargeable_platform_fee_centavos p =
    at_least_zero
      (gross_fee p -ℤ at_least_zero (read_field (λ p. p.platform_fee_discount_centavos) p))

waived_rest :
    (g s : ℤ)
    → pos 0 ≤ℤ s
    → pos 0 ≤ℤ g
    → let w = at_least_zero (g -ℤ s) in
      at_least_zero (g -ℤ at_least_zero w) ≡ (if leb_ℤ s g then s else g)
waived_rest g s hs hg = grind int_laws

at_least_zero-le : (x : ℤ) → pos 0 ≤ℤ at_least_zero x
at_least_zero-le x = ground arith

gross_fee-le : (p : Option OrderPricing) → pos 0 ≤ℤ gross_fee p
gross_fee-le p = at_least_zero-le (read_field (λ p. p.platform_fee_centavos) p)

surcharge-le : (p : Option OrderPricing) → pos 0 ≤ℤ surcharge_platform_fee_centavos p
unfolding surcharge_platform_fee_centavos
surcharge-le p = at_least_zero-le (read_field (λ p. p.platform_fee_surcharge_centavos) p)

part-bounds :
    (g s : ℤ)
    → pos 0 ≤ℤ g
    → pos 0 ≤ℤ s
    → (pos 0 ≤ℤ at_least_zero (g -ℤ s)) × (at_least_zero (g -ℤ s) ≤ℤ g)
part-bounds g s hg hs = grind int_laws

-- An order whose discount is the whole waivable part is still charged its surcharge, or its fee
-- where that is less: a promotion never forgives a penalty.
waiver_keeps_surcharge :
    (p : OrderPricing)
    → p.platform_fee_discount_centavos ≡ some (waivable_platform_fee_centavos (some p))
    → chargeable_platform_fee_centavos (some p) ≡ (
        if leb_ℤ (surcharge_platform_fee_centavos (some p)) (gross_fee (some p))
        then surcharge_platform_fee_centavos (some p)
        else gross_fee (some p))
unfolding waivable_platform_fee_centavos chargeable_platform_fee_centavos
    surcharge_platform_fee_centavos
waiver_keeps_surcharge p h = rw h (
    waived_rest (gross_fee (some p)) (surcharge_platform_fee_centavos (some p))
      (surcharge-le (some p)) (gross_fee-le (some p)))

-- Whatever is stored, what the provider owes is not negative and not above the gross fee, and so is
-- what may be waived.
fee_parts_bounds :
    (p : Option OrderPricing)
    → (pos 0 ≤ℤ chargeable_platform_fee_centavos p)
      × (chargeable_platform_fee_centavos p ≤ℤ gross_fee p)
      × (pos 0 ≤ℤ waivable_platform_fee_centavos p)
      × (waivable_platform_fee_centavos p ≤ℤ gross_fee p)
unfolding waivable_platform_fee_centavos chargeable_platform_fee_centavos
    surcharge_platform_fee_centavos
fee_parts_bounds p =
    let discount = read_field (λ p. p.platform_fee_discount_centavos) p in
    let owed =
      part-bounds (gross_fee p) (at_least_zero discount) (gross_fee-le p)
        (at_least_zero-le discount) in
    let waived =
      part-bounds (gross_fee p) (surcharge_platform_fee_centavos p) (gross_fee-le p)
        (surcharge-le p) in
    (owed.0, owed.1, waived.0, waived.1)
