-- ===== src/Service/MeasuredLines.antt =====
-- What a weigh-in makes of an order's lines, against its measurement: `finalizePricing` line by line
-- (src/online-orders/online-orders.service.ts).
use Prim.Native.String.{String}
use text.Mathlib.Text.{◌==◌ as str_eq}
use lalaba_backend_showcase.Base.{
  ℕ, ◌+◌, ◌≡◌, refl, ap, subst, true, false, Option, none, some, is_some, List, [], ◌∷◌, ◌++◌, All,
  inl, inr, Bool-cases, Option-cases, if◌then◌else◌,
}
use lalaba_backend_showcase.Pricing.Doubles.{Doubles}
use lalaba_backend_showcase.Pricing.Costs.{IsCost, line_total-IsCost}
use lalaba_backend_showcase.Pricing.Lines.{calculate_service_line_total}
use lalaba_backend_showcase.Service.Document.{ServiceLineSnapshot}
use lalaba_backend_showcase.Service.Weighing.{
  LineActual, Measurement, coalesce, by_ref, weight_of, pieces_of, line_total, priced_lines,
}

module _ (d : Doubles) where
  open d use {Double, of_nat, mul, div, round}

  -- The last entry of the measurement under a line's reference, where there is one.
  abbrev pub IsEntry : String → List (LineActual d) → Option (LineActual d) → Type 0
  IsEntry ref las none = All (λ (la : LineActual d). str_eq la.service_ref_id ref ≡ false) las
  IsEntry ref las (some la) =
      (before : List (LineActual d)) × (after : List (LineActual d)) × (las ≡ before ++ la ∷ after)
      × (str_eq la.service_ref_id ref ≡ true)
      × All (λ (la : LineActual d). str_eq la.service_ref_id ref ≡ false) after

  -- The entry's own number, or the one of the whole measurement.
  abbrev pub kg_of : Option (LineActual d) → Option Double → Option Double
  kg_of none whole = whole
  kg_of (some la) whole = elim la.actual_weight_kg [ none ↦ whole | some kg ↦ some kg ]

  abbrev pub count_of : Option (LineActual d) → Option ℕ → Option ℕ
  count_of none whole = whole
  count_of (some la) whole = elim la.actual_piece_count [ none ↦ whole | some n ↦ some n ]

  -- A line with the cost of what was measured of it, and its products' surcharge.
  pub record IsPriced (m : Measurement d) (line priced : ServiceLineSnapshot d) : Type 0 where
    pub entry : Option (LineActual d)
    pub is_entry : IsEntry line.service_ref_id m.line_actuals entry
    pub cost : ℕ
    pub is_cost :
        IsCost d line.params.pricing_type line.params
          (kg_of entry m.actual_weight_kg)
          (count_of entry m.actual_piece_count)
          cost
    pub same :
        priced
        ≡ record line { actual_line_total_centavos = some (cost + line.product_surcharge_centavos) }

  abbrev pub AllPriced :
      Measurement d → List (ServiceLineSnapshot d) → List (ServiceLineSnapshot d) → Type 0
  AllPriced m [] ps = ps ≡ []
  AllPriced m (l ∷ ls) ps =
      (p : ServiceLineSnapshot d) × (rest : List (ServiceLineSnapshot d)) × (ps ≡ p ∷ rest)
      × IsPriced m l p
      × AllPriced m ls rest

  by_ref-IsEntry : (ref : String) (las : List (LineActual d)) → IsEntry ref las (by_ref d ref las)
  by_ref-IsEntry ref [] = tt
  by_ref-IsEntry ref (la ∷ las) = go (by_ref d ref las) (by_ref-IsEntry ref las)
    where
      go :
          (later : Option (LineActual d))
          → IsEntry ref las later
          → IsEntry ref (la ∷ las) (
              if is_some later
              then later
              else if str_eq la.service_ref_id ref
              then some la
              else none)
      go (some x) (before, after, e, own, last) =
          (la ∷ before, after, ap (λ xs. la ∷ xs) e, own, last)
      go none others = elim (Bool-cases (str_eq la.service_ref_id ref)) [
        | inl e ↦ rw e ([], las, refl, e, others)
        | inr e ↦ rw e (e, others)
      ]

  coalesced-kg :
      (own whole : Option Double)
      → coalesce own whole ≡ elim own [ none ↦ whole | some kg ↦ some kg ]
  coalesced-kg none whole = refl
  coalesced-kg (some kg) whole = refl

  coalesced-count :
      (own whole : Option ℕ) → coalesce own whole ≡ elim own [ none ↦ whole | some n ↦ some n ]
  coalesced-count none whole = refl
  coalesced-count (some n) whole = refl

  weight_of-kg_of :
      (m : Measurement d) (ref : String)
      → weight_of d m ref ≡ kg_of (by_ref d ref m.line_actuals) m.actual_weight_kg
  weight_of-kg_of m ref = elim (Option-cases (by_ref d ref m.line_actuals)) [
    | inl e ↦ rw (e, weight_of) refl
    | inr (la, e) ↦ rw (e, weight_of) (coalesced-kg la.actual_weight_kg m.actual_weight_kg)
  ]

  pieces_of-count_of :
      (m : Measurement d) (ref : String)
      → pieces_of d m ref ≡ count_of (by_ref d ref m.line_actuals) m.actual_piece_count
  pieces_of-count_of m ref = elim (Option-cases (by_ref d ref m.line_actuals)) [
    | inl e ↦ rw (e, pieces_of) refl
    | inr (la, e) ↦ rw (e, pieces_of) (coalesced-count la.actual_piece_count m.actual_piece_count)
  ]

  line-IsPriced :
      (m : Measurement d) (l : ServiceLineSnapshot d)
      → IsPriced m l (record l { actual_line_total_centavos = some (line_total d m l) })
  unfolding line_total
  line-IsPriced m l =
      let ref = l.service_ref_id in
      record {
        entry = by_ref d ref m.line_actuals;
        is_entry = by_ref-IsEntry ref m.line_actuals;
        cost = calculate_service_line_total d l.params (weight_of d m ref) (pieces_of d m ref);
        is_cost =
            subst
              (λ (kg : Option Double).
                IsCost d l.params.pricing_type l.params kg
                  (count_of (by_ref d ref m.line_actuals) m.actual_piece_count)
                  (calculate_service_line_total d l.params (weight_of d m ref) (pieces_of d m ref)))
              (weight_of-kg_of m ref)
              (subst
                (λ (n : Option ℕ).
                  IsCost d l.params.pricing_type l.params (weight_of d m ref) n (
                    calculate_service_line_total d l.params (weight_of d m ref)
                      (pieces_of d m ref)))
                (pieces_of-count_of m ref)
                (line_total-IsCost d l.params (weight_of d m ref) (pieces_of d m ref)));
        same = refl;
      }

  pub priced_lines-AllPriced :
      (m : Measurement d) (ls : List (ServiceLineSnapshot d)) → AllPriced m ls (priced_lines d m ls)
  priced_lines-AllPriced m [] = refl
  priced_lines-AllPriced m (l ∷ ls) = (_, _, refl, line-IsPriced m l, priced_lines-AllPriced m ls)
