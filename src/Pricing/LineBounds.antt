-- ===== src/Pricing/LineBounds.antt =====
-- How a line's price depends on what was measured (src/online-orders/pricing.util.ts).
use lalaba_backend_showcase.Base.{
  ℕ, ◌≤◌, ◌≡◌, true, Option, none, some, or_else, arith, inl, inr, Bool-cases,
}
use lalaba_backend_showcase.Pricing.Doubles.{Doubles, IsMonotone, larger}
use lalaba_backend_showcase.Pricing.Lines.{
  ServiceLinePricingParams, PricingType, per_kilo, per_piece, per_load, per_load_with_capacity,
  per_kilo_with_base, billable_kg, loads_for, priced_line, calculate_service_line_total,
}

module _ (d : Doubles) (m : IsMonotone d) where
  open d use {Double, of_nat, add, sub, mul, div, le, round, ceil}

  larger_mono : (x y c : Double) → le x y ≡ true → le (larger d x c) (larger d y c) ≡ true
  larger_mono x y c h = elim (Bool-cases (le x c)) [
    | inl xc ↦ elim (Bool-cases (le y c)) [
      | inl yc ↦ rw (xc, yc) (m.le_refl c)
      | inr yc ↦ rw (xc, yc) (m.le_total y c yc)
    ]
    | inr xc ↦ elim (Bool-cases (le y c)) [
      | inl yc ↦ cc (m.le_trans x y c h yc)
      | inr yc ↦ rw (xc, yc) h
    ]
  ]

  larger_mono_right : (c x y : Double) → le x y ≡ true → le (larger d c x) (larger d c y) ≡ true
  larger_mono_right c x y h = elim (Bool-cases (le c x)) [
    | inl cx ↦ rw (cx, m.le_trans c x y cx h) h
    | inr cx ↦ elim (Bool-cases (le c y)) [
      | inl cy ↦ rw (cx, cy) cy
      | inr cy ↦ rw (cx, cy) (m.le_refl c)
    ]
  ]

  le-larger : (c x : Double) → le c (larger d c x) ≡ true
  le-larger c x = elim (Bool-cases (le c x)) [ inl h ↦ rw h h | inr h ↦ rw h (m.le_refl c) ]

  billable_kg_mono :
      (x y : Double) (least : Option Double)
      → le x y ≡ true
      → le (billable_kg d (some x) least) (billable_kg d (some y) least) ≡ true
  unfolding billable_kg
  billable_kg_mono x y none h = h
  billable_kg_mono x y (some c) h = elim (Bool-cases (le c (of_nat 0))) [
    | inl z ↦ rw z h
    | inr z ↦ rw z (larger_mono x y c h)
  ]

  loads_for_mono :
      (x y : Double) (capacity : Option Double)
      → le x y ≡ true
      → loads_for d (some x) capacity ≤ loads_for d (some y) capacity
  unfolding loads_for
  loads_for_mono x y none h = omega arith
  loads_for_mono x y (some c) h = elim (Bool-cases (le c (of_nat 0))) [
    | inl z ↦ rw z (omega arith)
    | inr z ↦ rw z (let up = m.ceil_mono (div x c) (div y c) (m.div_mono x y c z h) in ground arith)
  ]

  -- The prices that a provider stores are not negative.
  pub record IsPriced (p : ServiceLinePricingParams d) : Type 0 where
    pub price : le (of_nat 0) p.price ≡ true
    pub excess : le (of_nat 0) (or_else p.excess_rate (of_nat 0)) ≡ true

  priced_line_mono :
      (t : PricingType) (p : ServiceLinePricingParams d) (x y : Double) (pieces : Option ℕ)
      → IsPriced p
      → le x y ≡ true
      → priced_line d t p (some x) pieces ≤ priced_line d t p (some y) pieces
  unfolding priced_line
  priced_line_mono per_kilo p x y pieces q h =
      m.round_mono _ _ (m.mul_mono _ _ p.price q.price (billable_kg_mono x y p.min_billable_kg h))
  priced_line_mono per_piece p x y pieces q h = omega arith
  priced_line_mono per_load p x y pieces q h = omega arith
  priced_line_mono per_load_with_capacity p x y pieces q h =
      m.round_mono _ _
        (m.mul_mono _ _ p.price q.price (m.of_nat_mono _ _ (loads_for_mono x y p.base_kilos h)))
  priced_line_mono per_kilo_with_base p x y pieces q h = m.round_mono _ _ (
      m.add_mono p.price _ _ (
        m.mul_mono _ _ (or_else p.excess_rate (of_nat 0)) q.excess (
          larger_mono_right (of_nat 0) _ _ (
            m.sub_mono _ _ (or_else p.base_kilos (of_nat 0))
              (billable_kg_mono x y p.min_billable_kg h)))))

  -- Under every way of pricing, a line whose prices are not negative costs at least as much for a
  -- heavier load as for a lighter one with the same number of pieces.
  pub heavier_never_cheaper :
      (p : ServiceLinePricingParams d) (x y : Double) (pieces : Option ℕ)
      → IsPriced p
      → le x y ≡ true
      → calculate_service_line_total d p (some x) pieces
        ≤ calculate_service_line_total d p (some y) pieces
  unfolding calculate_service_line_total
  heavier_never_cheaper p x y pieces q h = priced_line_mono p.pricing_type p x y pieces q h
