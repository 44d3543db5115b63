-- ===== src/Policy/Limits.antt =====
-- What limits an entitlement (src/booking-policy/entitlement.util.ts).
use Prim.Native.String.{String}
use lalaba_backend_showcase.Base.{
  ℕ, ◌≡◌, refl, inl, inr, Bool, true, false, Option, none, some, List, [], ◌∷◌, arith, Option-cases,
}
use lalaba_backend_showcase.Base.Int.{ℤ, ◌≤ℤ◌}
use lalaba_backend_showcase.Policy.Provider.{Doubles, ProviderType, merchant, washer, ProviderStats}
use lalaba_backend_showcase.Policy.Milestones.{BookingMilestone, resolve_milestone}
use lalaba_backend_showcase.Policy.Campaigns.{BookingCampaign}
use lalaba_backend_showcase.Policy.Entitlement.{
  BookingPolicy, PolicyDefaults, milestone_for, from_milestone, modified, run_campaigns,
  start_capacity, smaller, capped, policy_or_seed, live_campaigns, key_of, bounded_entitlement,
  resolve_entitlement, is_washer,
}

module _ (d : Doubles) where
  smaller-le : (a b : ℤ) → smaller d a b ≤ℤ b
  smaller-le a b = ground arith

  capped-le : (o : Option ℤ) (limit n : ℤ) → capped d o limit ≡ some n → n ≤ℤ limit
  capped-le none limit n h = cc
  capped-le (some a) limit n h = ground (arith, smaller-le a limit)

  -- Whether the calculation carries a capacity.
  HasCapacity : Bool → Option ℤ → Type 0
  HasCapacity true o = (n : ℤ) × (o ≡ some n)
  HasCapacity false o = o ≡ none

  run_campaigns-HasCapacity :
      (b : Bool) (cs : List (BookingCampaign d)) (o : Option ℤ) (a : ℤ)
      → HasCapacity b o
      → HasCapacity b (run_campaigns d cs (o, a)).0
  unfolding HasCapacity
  run_campaigns-HasCapacity b [] o a h = h
  run_campaigns-HasCapacity true (x ∷ xs) none a h = cc
  run_campaigns-HasCapacity true (x ∷ xs) (some n) a h =
      run_campaigns-HasCapacity true xs (modified d (some n) x.daily_capacity) _ (_, refl)
  run_campaigns-HasCapacity false (x ∷ xs) none a h = run_campaigns-HasCapacity false xs none _ refl
  run_campaigns-HasCapacity false (x ∷ xs) (some n) a h = cc

  capped-HasCapacity :
      (b : Bool) (o : Option ℤ) (l : ℤ) → HasCapacity b o → HasCapacity b (capped d o l)
  unfolding HasCapacity
  capped-HasCapacity true none l h = cc
  capped-HasCapacity true (some n) l h = (smaller d n l, refl)
  capped-HasCapacity false none l h = refl
  capped-HasCapacity false (some n) l h = cc

  start-HasCapacity :
      (type : ProviderType) (ms : List (BookingMilestone d)) (stats : ProviderStats d)
      (defaults : PolicyDefaults d)
      → HasCapacity
          (is_washer d type)
          (from_milestone d (milestone_for d type ms stats) (start_capacity d type defaults)).0
  unfolding HasCapacity milestone_for
  start-HasCapacity merchant ms stats defaults = refl
  start-HasCapacity washer ms stats defaults = elim (Option-cases (resolve_milestone d ms stats)) [
    | inl e ↦ rw e (defaults.daily_capacity, refl)
    | inr (m, e) ↦ rw e (m.daily_capacity, refl)
  ]

  within :
      (p : BookingPolicy d) (key : Option String) (live : List (BookingCampaign d))
      (c : Option ℤ × ℤ)
      → let e = bounded_entitlement d p key live c in
        (e.advance_booking_days ≤ℤ p.safety_limits.advance_booking_days)
        × ((n : ℤ) → e.daily_capacity ≡ some n → n ≤ℤ p.safety_limits.daily_capacity)
  within p key live (o, a) = (
    smaller-le a p.safety_limits.advance_booking_days,
    λ n h. capped-le o p.safety_limits.daily_capacity n h,
  )

  bounded-HasCapacity :
      (b : Bool) (p : BookingPolicy d) (key : Option String) (live : List (BookingCampaign d))
      (c : Option ℤ × ℤ)
      → HasCapacity b c.0
      → HasCapacity b (bounded_entitlement d p key live c).daily_capacity
  bounded-HasCapacity b p key live (o, a) h =
      capped-HasCapacity b o p.safety_limits.daily_capacity h

  final-HasCapacity :
      (policy : Option (BookingPolicy d)) (ms : List (BookingMilestone d))
      (cs : List (BookingCampaign d)) (stats : ProviderStats d) (type : ProviderType) (date : ℕ)
      → HasCapacity
          (is_washer d type)
          (resolve_entitlement d policy ms cs stats type date).daily_capacity
  unfolding resolve_entitlement
  final-HasCapacity policy ms cs stats type date =
      let p = policy_or_seed d policy in
      let m = milestone_for d type ms stats in
      let live = live_campaigns d cs date type (key_of d m) in
      let c = from_milestone d m (start_capacity d type p.defaults) in
      bounded-HasCapacity (is_washer d type) p (key_of d m) live (run_campaigns d live c) (
        run_campaigns-HasCapacity (is_washer d type) live c.0 c.1
          (start-HasCapacity type ms stats p.defaults))

  -- Whatever milestones and campaigns are configured, the days ahead and the daily capacity of a
  -- provider do not pass the platform's safety limits; a washer always has a capacity, and a
  -- laundromat never has one.
  pub entitlement_within_safety :
      (policy : Option (BookingPolicy d)) (ms : List (BookingMilestone d))
      (cs : List (BookingCampaign d)) (stats : ProviderStats d) (date : ℕ)
      → let safety = (policy_or_seed d policy).safety_limits in
        let hers = resolve_entitlement d policy ms cs stats washer date in
        let theirs = resolve_entitlement d policy ms cs stats merchant date in
        (hers.advance_booking_days ≤ℤ safety.advance_booking_days)
        × ((n : ℤ) × (hers.daily_capacity ≡ some n))
        × ((n : ℤ) → hers.daily_capacity ≡ some n → n ≤ℤ safety.daily_capacity)
        × (theirs.advance_booking_days ≤ℤ safety.advance_booking_days)
        × (theirs.daily_capacity ≡ none)
  unfolding resolve_entitlement HasCapacity
  entitlement_within_safety policy ms cs stats date =
      let p = policy_or_seed d policy in
      let m = milestone_for d washer ms stats in
      let live = live_campaigns d cs date washer (key_of d m) in
      let hers =
        within p (key_of d m) live
          (run_campaigns d live (from_milestone d m (start_capacity d washer p.defaults))) in
      let n = milestone_for d merchant ms stats in
      let live' = live_campaigns d cs date merchant (key_of d n) in
      let theirs =
        within p (key_of d n) live'
          (run_campaigns d live' (from_milestone d n (start_capacity d merchant p.defaults))) in
      (
        hers.0,
        final-HasCapacity policy ms cs stats washer date,
        hers.1,
        theirs.0,
        final-HasCapacity policy ms cs stats merchant date,
      )
