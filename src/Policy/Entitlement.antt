-- ===== src/Policy/Entitlement.antt =====
-- The effective entitlement of a provider (`resolveEntitlement` of
-- src/booking-policy/entitlement.util.ts). Counts of bookings and days are whole numbers.
use Prim.Native.String.{String}
use lalaba_backend_showcase.Base.{
  ℕ, Bool, true, false, not, ◌||◌, Option, none, some, List, [], ◌∷◌, map, filter, if◌then◌else◌,
}
use lalaba_backend_showcase.Base.Int.{ℤ, pos, leb_ℤ, eqb_ℤ}
use lalaba_backend_showcase.Policy.Provider.{Doubles, ProviderType, merchant, washer, ProviderStats}
use lalaba_backend_showcase.Policy.Milestones.{BookingMilestone, resolve_milestone}
use lalaba_backend_showcase.Policy.Campaigns.{
  CampaignModifier, BookingCampaign, apply_modifier, is_campaign_live, campaign_applies,
}

module _ (d : Doubles) where
  pub record PolicyDefaults : Type 0 where
    pub daily_capacity : ℤ
    pub advance_booking_days : ℤ
    pub lead_time_minutes : ℕ
    pub same_day_booking_enabled : Bool
    pub same_day_cutoff_time : String

  pub record SafetyLimits : Type 0 where
    pub daily_capacity : ℤ
    pub advance_booking_days : ℤ

  pub record BookingPolicy : Type 0 where
    pub enabled : Bool
    pub defaults : PolicyDefaults
    pub safety_limits : SafetyLimits

  -- `POLICY_SEED`
  abbrev pub policy_seed : BookingPolicy
  policy_seed = record {
    enabled = true;
    defaults = record {
      daily_capacity = pos 3;
      advance_booking_days = pos 14;
      lead_time_minutes = 120;
      same_day_booking_enabled = true;
      same_day_cutoff_time = "17:00";
    };
    safety_limits = record { daily_capacity = pos 100; advance_booking_days = pos 60 };
  }

  -- The entitlement without its trace of labelled steps and without the names beside the ids.
  pub record EffectiveEntitlement : Type 0 where
    pub daily_capacity : Option ℤ
    pub advance_booking_days : ℤ
    pub lead_time_minutes : ℕ
    pub same_day_booking_enabled : Bool
    pub same_day_cutoff_time : String
    pub bookings_enabled : Bool
    pub milestone_key : Option String
    pub applied_campaign_ids : List ℕ
    pub capped_by_safety_limit : Bool

  -- The two numbers that the calculation carries: `daily` and `advance`.
  abbrev pub Capacity : Type 0
  Capacity = Option ℤ × ℤ

  abbrev pub is_washer : ProviderType → Bool
  is_washer washer = true
  is_washer merchant = false

  abbrev pub key_of : Option (BookingMilestone d) → Option String
  key_of none = none
  key_of (some m) = some m.key

  abbrev pub from_milestone : Option (BookingMilestone d) → Capacity → Capacity
  from_milestone none c = c
  from_milestone (some m) c = (some m.daily_capacity, m.advance_booking_days)

  abbrev pub modified : Option ℤ → Option (CampaignModifier d) → Option ℤ
  modified none m = none
  modified (some daily) m = some ((apply_modifier d) daily m)

  abbrev pub run_campaigns : List (BookingCampaign d) → Capacity → Capacity
  run_campaigns [] c = c
  run_campaigns (x ∷ xs) (daily, advance) =
      run_campaigns xs
        (modified daily x.daily_capacity, (apply_modifier d) advance x.advance_booking_days)

  -- `Math.min`
  abbrev pub smaller : ℤ → ℤ → ℤ
  smaller a b = if leb_ℤ a b then a else b

  abbrev pub capped : Option ℤ → ℤ → Option ℤ
  capped none limit = none
  capped (some daily) limit = some (smaller daily limit)

  abbrev pub differs : Option ℤ → Option ℤ → Bool
  differs none none = false
  differs (some a) (some b) = not (eqb_ℤ a b)
  differs _ _ = true

  abbrev pub policy_or_seed : Option BookingPolicy → BookingPolicy
  policy_or_seed none = policy_seed
  policy_or_seed (some p) = p

  -- The milestone of a washer; a laundromat has none.
  unfoldable pub milestone_for :
      ProviderType → List (BookingMilestone d) → (ProviderStats d) → Option (BookingMilestone d)
  unfolding resolve_milestone
  milestone_for type ms stats = if is_washer type then (resolve_milestone d) ms stats else none

  abbrev pub live_campaigns :
      List (BookingCampaign d) → ℕ → ProviderType → Option String → List (BookingCampaign d)
  live_campaigns cs date type key =
      filter (λ c. (campaign_applies d) c type key) (filter (λ c. (is_campaign_live d) c date) cs)

  abbrev pub start_capacity : ProviderType → PolicyDefaults → Capacity
  start_capacity type defaults =
      (if is_washer type then some defaults.daily_capacity else none, defaults.advance_booking_days)

  abbrev pub bounded_entitlement :
      BookingPolicy → Option String → List (BookingCampaign d) → Capacity → EffectiveEntitlement
  bounded_entitlement p key live (daily, advance) =
      let safety = p.safety_limits in
      record {
        daily_capacity = capped daily safety.daily_capacity;
        advance_booking_days = smaller advance safety.advance_booking_days;
        lead_time_minutes = p.defaults.lead_time_minutes;
        same_day_booking_enabled = p.defaults.same_day_booking_enabled;
        same_day_cutoff_time = p.defaults.same_day_cutoff_time;
        bookings_enabled = p.enabled;
        milestone_key = key;
        applied_campaign_ids = map (λ c. c.id) live;
        capped_by_safety_limit =
            differs daily (capped daily safety.daily_capacity)
            || not (eqb_ℤ advance (smaller advance safety.advance_booking_days));
      }

  unfoldable pub resolve_entitlement :
      Option BookingPolicy
      → List (BookingMilestone d)
      → List (BookingCampaign d)
      → (ProviderStats d)
      → ProviderType
      → ℕ
      → EffectiveEntitlement
  unfolding milestone_for
  resolve_entitlement policy milestones campaigns stats type date =
      let p = policy_or_seed policy in
      let m = milestone_for type milestones stats in
      let live = live_campaigns campaigns date type (key_of m) in
      bounded_entitlement p (key_of m) live
        (run_campaigns live (from_milestone m (start_capacity type p.defaults)))
