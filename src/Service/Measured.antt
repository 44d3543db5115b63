-- ===== src/Service/Measured.antt =====
-- What a weigh-in makes of an order's prices: the sums of `finalizePricing`, and the fee that is due
-- of them (src/online-orders/online-orders.service.ts).

use lalaba_backend_showcase.Base.{
  ℕ, ◌+◌, ◌-◌, ◌≡◌, refl, sym, ap, ◌∙◌, Bool, true, false, Option, none, some, is_some, List, [],
  ◌∷◌, or_else, arith, inl, inr, Option-cases, if◌then◌else◌,
}
use lalaba_backend_showcase.Base.Int.{ℤ, pos, ◌-ℤ◌, leb_ℤ, int_laws}
use lalaba_backend_showcase.Pricing.Doubles.{Doubles}
use lalaba_backend_showcase.Pricing.Lines.{calculate_platform_fee}
use lalaba_backend_showcase.Pricing.FeeParts.{
  at_least_zero, waivable_platform_fee_centavos, surcharge_platform_fee_centavos,
  chargeable_platform_fee_centavos,
}
use lalaba_backend_showcase.Service.Document.{ServiceLineSnapshot, OnlineOrder, fee_fields}
use lalaba_backend_showcase.Service.Weighing.{
  Measurement, Sums, sum_lines, add_line, priced_lines, no_sums, with_waiver, finalize_pricing,
}
use lalaba_backend_showcase.Service.Money.{owed_centavos}
use lalaba_backend_showcase.Service.MeasuredLines.{AllPriced, priced_lines-AllPriced}

module _ (d : Doubles) where
  open d use {of_nat, mul, div, round}

  -- The sum of what the lines cost, as far as they are priced.
  unfoldable pub lines_total : List (ServiceLineSnapshot d) → ℕ
  lines_total [] = 0
  lines_total (l ∷ ls) = or_else l.actual_line_total_centavos 0 + lines_total ls

  -- The fees that were booked beside the services.
  abbrev pub booked : OnlineOrder d → ℕ
  booked o =
      or_else o.rest.pricing.pickup_fee_centavos 0
      + or_else o.rest.pricing.return_fee_centavos 0
      + or_else o.rest.pricing.turnaround_fee_centavos 0

  abbrev pub fee_on : ℕ → OnlineOrder d → ℕ
  fee_on services o = round (
      mul (of_nat services)
        (div (or_else o.rest.pricing.platform_fee_percent (of_nat 0)) (of_nat 100)))

  -- The fee that a promotion leaves is the surcharge in it.
  abbrev pub waived : Bool → ℕ → OnlineOrder d → Option ℤ
  waived true fee o = some (pos (fee - or_else o.rest.pricing.platform_fee_surcharge_centavos 0))
  waived false fee o = o.rest.pricing.platform_fee_discount_centavos

  -- The document after a weigh-in of that order: each line costs what was measured of it; the
  -- platform fee is the percentage of the lines' sum; the customer owes the sum, the fee and what
  -- was booked beside.
  pub record IsWeighed (m : Measurement d) (o after : OnlineOrder d) : Type 0 where
    pub lines : AllPriced d m o.rest.service_lines after.rest.service_lines
    pub services :
        after.rest.pricing.actual_service_total_centavos
        ≡ some (lines_total after.rest.service_lines)
    pub fee :
        after.rest.pricing.platform_fee_centavos
        ≡ some (fee_on (lines_total after.rest.service_lines) o)
    pub total :
        after.base.customer_total_centavos
        ≡ some (
            lines_total after.rest.service_lines
            + fee_on (lines_total after.rest.service_lines) o
            + booked o)
    pub discount :
        after.rest.pricing.platform_fee_discount_centavos
        ≡ waived
            (is_some o.base.platform_fee_promo_id)
            (fee_on (lines_total after.rest.service_lines) o)
            o

  pub sum_lines-total :
      (m : Measurement d) (s : Sums d) (ls : List (ServiceLineSnapshot d))
      → (sum_lines d m s ls).service_total ≡ s.service_total + lines_total (priced_lines d m ls)
  unfolding lines_total
  sum_lines-total m s [] = omega arith
  sum_lines-total m s (l ∷ ls) = omega (arith, sum_lines-total m (add_line d m l s) ls)

  waivable-left :
      (fee s : ℕ) → at_least_zero (at_least_zero (pos fee) -ℤ at_least_zero (pos s)) ≡ pos (fee - s)
  waivable-left fee s = grind int_laws

  waivable-waived :
      (o : OnlineOrder d) (fee : ℕ)
      → o.rest.pricing.platform_fee_centavos ≡ some fee
      → some (waivable_platform_fee_centavos (some (fee_fields d o))) ≡ waived true fee o
  unfolding waivable_platform_fee_centavos surcharge_platform_fee_centavos
  waivable-waived o fee e = elim (Option-cases o.rest.pricing.platform_fee_surcharge_centavos) [
    | inl none_there ↦ rw (e, none_there) (ap some (waivable-left fee 0))
    | inr (s, there) ↦ rw (e, there) (ap some (waivable-left fee s))
  ]

  -- The promise without the waiver, on a document that keeps the surcharge and the discount.
  waiver-IsWeighed :
      (m : Measurement d) (o o' : OnlineOrder d) (b : Bool)
      → is_some o.base.platform_fee_promo_id ≡ b
      → o'.rest.pricing.platform_fee_surcharge_centavos
        ≡ o.rest.pricing.platform_fee_surcharge_centavos
      → o'.rest.pricing.platform_fee_discount_centavos
        ≡ o.rest.pricing.platform_fee_discount_centavos
      → AllPriced d m o.rest.service_lines o'.rest.service_lines
      → o'.rest.pricing.actual_service_total_centavos ≡ some (lines_total o'.rest.service_lines)
      → o'.rest.pricing.platform_fee_centavos ≡ some (fee_on (lines_total o'.rest.service_lines) o)
      → o'.base.customer_total_centavos
        ≡ some (
            lines_total o'.rest.service_lines
            + fee_on (lines_total o'.rest.service_lines) o
            + booked o)
      → IsWeighed m o (with_waiver d b o')
  waiver-IsWeighed m o o' true promo s kept ls sv f t =
      let n = fee_on (lines_total o'.rest.service_lines) o in
      record {
        lines = ls;
        services = sv;
        fee = f;
        total = t;
        discount =
            waivable-waived o' n f
            ∙ ap (λ (x : Option ℕ). some (pos (n - or_else x 0))) s
            ∙ ap (λ (b : Bool). waived b n o) (sym promo);
      }
  waiver-IsWeighed m o o' false promo s kept ls sv f t =
      let n = fee_on (lines_total o'.rest.service_lines) o in
      record {
        lines = ls;
        services = sv;
        fee = f;
        total = t;
        discount = kept ∙ ap (λ (b : Bool). waived b n o) (sym promo);
      }

  pub finalize_pricing-IsWeighed :
      (m : Measurement d) (o : OnlineOrder d) → IsWeighed m o (finalize_pricing d m o)
  unfolding finalize_pricing calculate_platform_fee
  finalize_pricing-IsWeighed m o =
      let sum : (sum_lines d m (no_sums d) o.rest.service_lines).service_total
          ≡ lines_total (priced_lines d m o.rest.service_lines) =
        omega (arith, sum_lines-total m (no_sums d) o.rest.service_lines) in
      waiver-IsWeighed m o _ (is_some o.base.platform_fee_promo_id) refl refl refl
        (priced_lines-AllPriced d m o.rest.service_lines) (ap some sum)
        (ap (λ (n : ℕ). some (fee_on n o)) sum)
        (ap (λ (n : ℕ). some (n + fee_on n o + booked o)) sum)

  -- What the wallet owes of a platform fee, where a discount is taken off.
  abbrev pub due : ℕ → Option ℤ → ℤ
  due fee none = pos fee
  due fee (some x) =
      if leb_ℤ x (pos 0) then pos fee else if leb_ℤ (pos fee) x then pos 0 else pos fee -ℤ x

  charge-due :
      (fee : ℕ) (x : ℤ)
      → at_least_zero (at_least_zero (pos fee) -ℤ at_least_zero x) ≡ due fee (some x)
  charge-due fee x = grind int_laws

  uncharged-due :
      (fee : ℕ) → at_least_zero (at_least_zero (pos fee) -ℤ at_least_zero (pos 0)) ≡ pos fee
  uncharged-due fee = grind int_laws

  pub owed-due :
      (o : OnlineOrder d) (fee : ℕ)
      → o.rest.pricing.platform_fee_centavos ≡ some fee
      → owed_centavos d o ≡ due fee o.rest.pricing.platform_fee_discount_centavos
  unfolding chargeable_platform_fee_centavos
  owed-due o fee e = elim (Option-cases o.rest.pricing.platform_fee_discount_centavos) [
    | inl none_there ↦ rw (e, none_there) (uncharged-due fee)
    | inr (x, there) ↦ rw (e, there) (charge-due fee x)
  ]
