-- ===== src/Pricing/Costs.antt =====
-- What a service line costs, written out for each of its pricing types
-- (src/online-orders/pricing.util.ts).
use lalaba_backend_showcase.Base.{ℕ, max, ◌≡◌, refl, Option, none, some, if◌then◌else◌, or_else}
use lalaba_backend_showcase.Pricing.Doubles.{Doubles, larger}
use lalaba_backend_showcase.Pricing.Lines.{
  PricingType, per_kilo, per_piece, per_load, per_kilo_with_base, per_load_with_capacity,
  ServiceLinePricingParams, billable_kg, loads_for, priced_line, calculate_service_line_total,
}

module _ (d : Doubles) where
  open d use {Double, of_nat, add, sub, mul, div, le, round, ceil}

  -- The weight that is billed, with a minimum that counts where it is positive.
  abbrev pub billed : Double → Option Double → Double
  billed kg none = kg
  billed kg (some least) = if le least (of_nat 0) then kg else larger d kg least

  -- The loads that a weight fills, at least one; without a capacity it is one.
  abbrev pub loads : Double → Option Double → ℕ
  loads kg none = 1
  loads kg (some capacity) = if le capacity (of_nat 0) then 1 else max 1 (ceil (div kg capacity))

  abbrev pub IsCost :
      PricingType → ServiceLinePricingParams d → Option Double → Option ℕ → ℕ → Type 0
  IsCost per_kilo p kg pieces n =
      n ≡ round (mul (billed (or_else kg (of_nat 0)) p.min_billable_kg) p.price)
  IsCost per_piece p kg pieces n = n ≡ round (mul (of_nat (or_else pieces 0)) p.price)
  IsCost per_load p kg pieces n = n ≡ round p.price
  IsCost per_load_with_capacity p kg pieces n =
      n ≡ round (mul (of_nat (loads (or_else kg (of_nat 0)) p.base_kilos)) p.price)
  IsCost per_kilo_with_base p kg pieces n =
      n
      ≡ round (
          add p.price (
            mul
              (larger d (of_nat 0) (
                sub (billed (or_else kg (of_nat 0)) p.min_billable_kg)
                  (or_else p.base_kilos (of_nat 0))))
              (or_else p.excess_rate (of_nat 0))))

  billable_kg-billed :
      (kg least : Option Double) → billable_kg d kg least ≡ billed (or_else kg (of_nat 0)) least
  unfolding billable_kg
  billable_kg-billed kg none = refl
  billable_kg-billed kg (some least) = refl

  loads_for-loads :
      (kg capacity : Option Double)
      → loads_for d kg capacity ≡ loads (or_else kg (of_nat 0)) capacity
  unfolding loads_for
  loads_for-loads kg none = refl
  loads_for-loads kg (some capacity) = refl

  pub line_total-IsCost :
      (p : ServiceLinePricingParams d) (kg : Option Double) (pieces : Option ℕ)
      → IsCost p.pricing_type p kg pieces (calculate_service_line_total d p kg pieces)
  unfolding calculate_service_line_total priced_line
  line_total-IsCost p kg pieces = go p.pricing_type
    where
      go : (t : PricingType) → IsCost t p kg pieces (priced_line d t p kg pieces)
      go per_kilo = rw (billable_kg-billed kg p.min_billable_kg) refl
      go per_piece = refl
      go per_load = refl
      go per_load_with_capacity = rw (loads_for-loads kg p.base_kilos) refl
      go per_kilo_with_base = rw (billable_kg-billed kg p.min_billable_kg) refl
