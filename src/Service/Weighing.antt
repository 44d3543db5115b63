-- ===== src/Service/Weighing.antt =====
-- `finalizePricing`: the real price of an order, once its laundry is measured
-- (src/online-orders/online-orders.service.ts).
use Prim.Native.String.{String}
use text.Mathlib.Text.{◌==◌ as str_eq}
use lalaba_backend_showcase.Base.{
  ℕ, ◌+◌, Bool, true, false, Option, none, some, List, [], ◌∷◌, if◌then◌else◌, or_else, is_some,
}
use lalaba_backend_showcase.Pricing.FeeParts.{waivable_platform_fee_centavos}
use lalaba_backend_showcase.Pricing.Doubles.{Doubles}
use lalaba_backend_showcase.Pricing.Lines.{
  PricingType, per_kilo, per_piece, per_kilo_with_base, calculate_service_line_total,
  calculate_platform_fee,
}
use lalaba_backend_showcase.Service.Document.{ServiceLineSnapshot, Pricing, OnlineOrder, fee_fields}

-- `a ?? b`
abbrev pub coalesce {ℓ} : {A : Type ℓ} → Option A → Option A → Option A
coalesce none b = b
coalesce (some a) b = some a

abbrev pub is_weighed : PricingType → Bool
is_weighed per_kilo = true
is_weighed per_kilo_with_base = true
is_weighed _ = false

abbrev pub is_counted : PricingType → Bool
is_counted per_piece = true
is_counted _ = false

module _ (d : Doubles) where
  open d use {Double, of_nat, add}

  pub record LineActual : Type 0 where
    pub service_ref_id : String
    pub actual_weight_kg : Option Double
    pub actual_piece_count : Option ℕ

  pub record Measurement : Type 0 where
    pub actual_weight_kg : Option Double
    pub actual_piece_count : Option ℕ
    pub line_actuals : List LineActual

  -- The map by `serviceRefId`: of two entries with one key the later one stands.
  abbrev pub by_ref : String → List LineActual → Option LineActual
  by_ref key [] = none
  by_ref key (la ∷ las) =
      let later = by_ref key las in
      if is_some later then later else if str_eq la.service_ref_id key then some la else none

  abbrev pub weight_of : Measurement → String → Option Double
  weight_of m ref = elim (by_ref ref m.line_actuals) [
    | none ↦ m.actual_weight_kg
    | some la ↦ coalesce la.actual_weight_kg m.actual_weight_kg
  ]

  abbrev pub pieces_of : Measurement → String → Option ℕ
  pieces_of m ref = elim (by_ref ref m.line_actuals) [
    | none ↦ m.actual_piece_count
    | some la ↦ coalesce la.actual_piece_count m.actual_piece_count
  ]

  unfoldable pub line_total : Measurement → ServiceLineSnapshot d → ℕ
  line_total m line =
      calculate_service_line_total d line.params (weight_of m line.service_ref_id)
        (pieces_of m line.service_ref_id)
      + line.product_surcharge_centavos

  -- What the loop over the lines adds up. A sum is `none` while no line had the quantity.
  pub record Sums : Type 0 where
    pub service_total : ℕ
    pub weight_kg : Option Double
    pub pieces : Option ℕ

  abbrev pub plus_weight : Bool → Option Double → Option Double → Option Double
  plus_weight true (some w) sum = some (add (or_else sum (of_nat 0)) w)
  plus_weight _ _ sum = sum

  abbrev pub plus_pieces : Bool → Option ℕ → Option ℕ → Option ℕ
  plus_pieces true (some p) sum = some (or_else sum 0 + p)
  plus_pieces _ _ sum = sum

  abbrev pub add_line : Measurement → ServiceLineSnapshot d → Sums → Sums
  add_line m line s = record {
    service_total = s.service_total + line_total m line;
    weight_kg =
        plus_weight (is_weighed line.params.pricing_type) (weight_of m line.service_ref_id)
          s.weight_kg;
    pieces =
        plus_pieces (is_counted line.params.pricing_type) (pieces_of m line.service_ref_id)
          s.pieces;
  }

  abbrev pub sum_lines : Measurement → Sums → List (ServiceLineSnapshot d) → Sums
  sum_lines m s [] = s
  sum_lines m s (line ∷ lines) = sum_lines m (add_line m line s) lines

  abbrev pub priced_lines :
      Measurement → List (ServiceLineSnapshot d) → List (ServiceLineSnapshot d)
  priced_lines m [] = []
  priced_lines m (line ∷ lines) =
      record line { actual_line_total_centavos = some (line_total m line) } ∷ priced_lines m lines

  abbrev pub no_sums : Sums
  no_sums = record { service_total = 0; weight_kg = none; pieces = none }

  -- The fees of the legs and of the turnaround tier, as they were booked.
  abbrev pub extras : Pricing d → ℕ
  extras p =
      or_else p.pickup_fee_centavos 0
      + or_else p.return_fee_centavos 0
      + or_else p.turnaround_fee_centavos 0

  -- The waiver is computed again where the order has one.
  abbrev pub with_waiver : Bool → OnlineOrder d → OnlineOrder d
  with_waiver false o = o
  with_waiver true o = record o {
    rest = record o.rest {
      pricing = record o.rest.pricing {
        platform_fee_discount_centavos =
            some (waivable_platform_fee_centavos (some (fee_fields d o)));
      };
    };
  }

  unfoldable pub finalize_pricing : Measurement → OnlineOrder d → OnlineOrder d
  unfolding line_total
  finalize_pricing m o =
      let p = o.rest.pricing in
      let sums = sum_lines m no_sums o.rest.service_lines in
      let fee =
        calculate_platform_fee d sums.service_total (or_else p.platform_fee_percent (of_nat 0)) in
      with_waiver (is_some o.base.platform_fee_promo_id) (record o {
        base = record o.base {
          customer_total_centavos = some (sums.service_total + fee + extras p);
        };
        rest = record o.rest {
          service_lines = priced_lines m o.rest.service_lines;
          pricing = record p {
            actual_weight_kg = coalesce sums.weight_kg m.actual_weight_kg;
            actual_piece_count = coalesce sums.pieces m.actual_piece_count;
            actual_service_total_centavos = some sums.service_total;
            platform_fee_centavos = some fee;
          };
        };
      })
