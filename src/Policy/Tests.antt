-- ===== src/Policy/Tests.antt =====
-- A policy on which the theorems about entitlements apply, with doubles counted in tenths.

use lalaba_backend_showcase.Base.{ℕ, ◌*◌, ◌/◌, ◌≡◌, refl, true, false, none, some, [], ◌∷◌, ltb}
use lalaba_backend_showcase.Base.Int.{ℤ, pos, pos_part, ◌≤ℤ◌}
use lalaba_backend_showcase.Policy.Provider.{Doubles, ProviderStats, merchant, washer}
use lalaba_backend_showcase.Policy.Milestones.{BookingMilestone, resolve_milestone}
use lalaba_backend_showcase.Policy.Campaigns.{BookingCampaign, multiply}
use lalaba_backend_showcase.Policy.Entitlement.{resolve_entitlement}
use lalaba_backend_showcase.Policy.Limits.{entitlement_within_safety}

abbrev tenths : Doubles
tenths = record {
  Double = ℕ;
  less = ltb;
  floor = λ x. pos (x / 10);
  floor_product = λ n x. pos (pos_part n * x / 10);
}

abbrev busy : ProviderStats tenths
busy = record {
  completed_orders = 40;
  rating = some 48;
  cancellation_rate_percent = none;
  is_verified = true;
  in_good_standing = true;
}

abbrev silver : BookingMilestone tenths
silver = record {
  key = "silver";
  rank = 1;
  is_default = false;
  is_active = true;
  eligibility = record {
    min_completed_orders = some 10;
    min_rating = some 45;
    max_cancellation_rate_percent = none;
    require_verified = true;
    require_good_standing = false;
  };
  daily_capacity = pos 5;
  advance_booking_days = pos 30;
}

abbrev gold : BookingMilestone tenths
gold = record silver { key = "gold"; rank = 2; daily_capacity = pos 9 }

-- Twenty times the capacity.
abbrev rush : BookingCampaign tenths
rush = record {
  id = 1;
  start_date = 10;
  end_date = 20;
  is_enabled = true;
  targeting = none;
  daily_capacity = some (record { mode = multiply; value = 200 });
  advance_booking_days = none;
}

entitlement_within_safety_example :
    ((resolve_entitlement tenths none
        (silver ∷ gold ∷ [])
        (rush ∷ [])
        busy
        washer
        15).advance_booking_days
      ≤ℤ pos 60)
    × ((n : ℤ) × ((resolve_entitlement tenths none
            (silver ∷ gold ∷ [])
            (rush ∷ [])
            busy
            washer
            15).daily_capacity
          ≡ some n))
    × ((n : ℤ)
        → (resolve_entitlement tenths none
            (silver ∷ gold ∷ [])
            (rush ∷ [])
            busy
            washer
            15).daily_capacity
          ≡ some n
        → n ≤ℤ pos 100)
    × ((resolve_entitlement tenths none
          (silver ∷ gold ∷ [])
          (rush ∷ [])
          busy
          merchant
          15).advance_booking_days
        ≤ℤ pos 60)
    × ((resolve_entitlement tenths none
          (silver ∷ gold ∷ [])
          (rush ∷ [])
          busy
          merchant
          15).daily_capacity
        ≡ none)
entitlement_within_safety_example =
    entitlement_within_safety tenths none (silver ∷ gold ∷ []) (rush ∷ []) busy 15

gold-resolved : resolve_milestone tenths (silver ∷ gold ∷ []) busy ≡ some gold
unfolding resolve_milestone
gold-resolved = refl
