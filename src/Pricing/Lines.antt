-- ===== src/Pricing/Lines.antt =====
-- What a service line costs, given what was measured, and the platform fee
-- (src/online-orders/pricing.util.ts).
use lalaba_backend_showcase.Base.{ℕ, max, Option, none, some, if◌then◌else◌, or_else}
use lalaba_backend_showcase.Pricing.Doubles.{Doubles, larger}

pub data PricingType : Type 0 where
  per_kilo per_piece per_load per_kilo_with_base per_load_with_capacity : PricingType

module _ (d : Doubles) where
  open d use {Double, of_nat, add, sub, mul, div, le, round, ceil}

  -- A null field and an absent one are `none`.
  pub record ServiceLinePricingParams : Type 0 where
    pub pricing_type : PricingType
    pub price : Double
    pub base_kilos : Option Double
    pub excess_rate : Option Double
    pub min_billable_kg : Option Double

  abbrev pub zero_double : Double
  zero_double = of_nat 0

  -- `!minBillableKg || minBillableKg <= 0` leaves the measured weight.
  unfoldable pub billable_kg : Option Double → Option Double → Double
  billable_kg actual none = or_else actual zero_double
  billable_kg actual (some least) =
      if le least zero_double
      then or_else actual zero_double
      else larger d (or_else actual zero_double) least

  unfoldable pub loads_for : Option Double → Option Double → ℕ
  loads_for actual none = 1
  loads_for actual (some capacity) =
      if le capacity zero_double
      then 1
      else max 1 (ceil (div (or_else actual zero_double) capacity))

  unfoldable pub priced_line : PricingType → ServiceLinePricingParams → Option Double → Option ℕ → ℕ
  unfolding billable_kg loads_for
  priced_line per_kilo p kg pieces = round (mul (billable_kg kg p.min_billable_kg) p.price)
  priced_line per_piece p kg pieces = round (mul (of_nat (or_else pieces 0)) p.price)
  priced_line per_load p kg pieces = round p.price
  priced_line per_load_with_capacity p kg pieces =
      round (mul (of_nat (loads_for kg p.base_kilos)) p.price)
  priced_line per_kilo_with_base p kg pieces =
      let base = or_else p.base_kilos zero_double in
      let excess = larger d zero_double (sub (billable_kg kg p.min_billable_kg) base) in
      round (add p.price (mul excess (or_else p.excess_rate zero_double)))

  unfoldable pub calculate_service_line_total :
      ServiceLinePricingParams → Option Double → Option ℕ → ℕ
  unfolding priced_line
  calculate_service_line_total p kg pieces = priced_line p.pricing_type p kg pieces

  unfoldable pub calculate_platform_fee : ℕ → Double → ℕ
  calculate_platform_fee subtotal percent = round (mul (of_nat subtotal) (div percent (of_nat 100)))
