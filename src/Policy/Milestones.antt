-- ===== src/Policy/Milestones.antt =====
-- The milestones of providers (`satisfies` and `resolveMilestone` of
-- src/booking-policy/entitlement.util.ts).
use Prim.Native.String.{String}
use lalaba_backend_showcase.Base.{
  ℕ, Bool, true, false, not, ◌&&◌, Option, none, some, List, [], ◌∷◌, filter, leb, ltb,
  if◌then◌else◌,
}
use lalaba_backend_showcase.Base.Int.{ℤ}
use lalaba_backend_showcase.Policy.Provider.{Doubles, ProviderStats}

module _ (d : Doubles) where
  open d use {Double, less}

  pub record MilestoneEligibility : Type 0 where
    pub min_completed_orders : Option ℕ
    pub min_rating : Option Double
    pub max_cancellation_rate_percent : Option Double
    pub require_verified : Bool
    pub require_good_standing : Bool

  pub record BookingMilestone : Type 0 where
    pub key : String
    pub rank : ℕ
    pub is_default : Bool
    pub is_active : Bool
    pub eligibility : MilestoneEligibility
    pub daily_capacity : ℤ
    pub advance_booking_days : ℤ

  abbrev pub rating_falls_short : Option Double → Option Double → Bool
  rating_falls_short none rating = false
  rating_falls_short (some least) none = true
  rating_falls_short (some least) (some rating) = less rating least

  -- A null rate passes.
  abbrev pub cancels_too_often : Option Double → Option Double → Bool
  cancels_too_often none rate = false
  cancels_too_often (some most) none = false
  cancels_too_often (some most) (some rate) = less most rate

  abbrev pub too_few_orders : Option ℕ → ℕ → Bool
  too_few_orders none completed = false
  too_few_orders (some least) completed = ltb completed least

  unfoldable pub satisfies : BookingMilestone → (ProviderStats d) → Bool
  satisfies m stats =
      let e = m.eligibility in
      if too_few_orders e.min_completed_orders stats.completed_orders
      then false
      else if rating_falls_short e.min_rating stats.rating
      then false
      else if cancels_too_often e.max_cancellation_rate_percent stats.cancellation_rate_percent
      then false
      else if e.require_verified && not stats.is_verified
      then false
      else if e.require_good_standing && not stats.in_good_standing
      then false
      else true

  -- `sort((a, b) => b.rank - a.rank)[0]`: the first of the highest rank.
  abbrev pub highest : List BookingMilestone → Option BookingMilestone
  highest [] = none
  highest (m ∷ ms) = elim (highest ms) [
    | none ↦ some m
    | some b ↦ if leb b.rank m.rank then some m else some b
  ]

  -- `sort((a, b) => a.rank - b.rank)[0]`: the first of the lowest rank.
  abbrev pub lowest : List BookingMilestone → Option BookingMilestone
  lowest [] = none
  lowest (m ∷ ms) = elim (lowest ms) [
    | none ↦ some m
    | some b ↦ if leb m.rank b.rank then some m else some b
  ]

  -- `find((m) => m.isDefault)`
  abbrev pub first_default : List BookingMilestone → Option BookingMilestone
  first_default [] = none
  first_default (m ∷ ms) = if m.is_default then some m else first_default ms

  abbrev pub active : List BookingMilestone → List BookingMilestone
  active ms = filter (λ m. m.is_active) ms

  unfoldable pub earned : (ProviderStats d) → List BookingMilestone → List BookingMilestone
  unfolding satisfies
  earned stats ms = filter (λ m. not m.is_default && satisfies m stats) (active ms)

  abbrev pub or_fallback : Option BookingMilestone → List BookingMilestone → Option BookingMilestone
  or_fallback (some m) ms = some m
  or_fallback none ms = elim (first_default ms) [ some m ↦ some m | none ↦ lowest ms ]

  unfoldable pub resolve_milestone :
      List BookingMilestone → (ProviderStats d) → Option BookingMilestone
  unfolding earned
  resolve_milestone ms stats = or_fallback (highest (earned stats ms)) (active ms)
