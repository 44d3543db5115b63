-- ===== src/Policy/Campaigns.antt =====
-- Campaigns, and how their modifiers change a number (src/booking-policy/entitlement.util.ts).
-- Dates are numbers in the order of their 'YYYY-MM-DD' keys.
use Prim.Native.String.{String}
use text.Mathlib.Text.{◌==◌ as str_eq}
use lalaba_backend_showcase.Base.{
  ℕ, Bool, true, false, ◌&&◌, ◌||◌, Option, none, some, List, [], ◌∷◌, leb,
}
use lalaba_backend_showcase.Base.Int.{ℤ, ◌+ℤ◌}
use lalaba_backend_showcase.Policy.Provider.{Doubles, ProviderType, merchant, washer}

pub data CampaignModifierMode : Type 0 where
  replace multiply increase_by : CampaignModifierMode

pub data CampaignScope : Type 0 where
  everyone provider_type milestone : CampaignScope

module _ (d : Doubles) where
  open d use {Double, floor, floor_product}

  pub record CampaignModifier : Type 0 where
    pub mode : CampaignModifierMode
    pub value : Double

  pub record CampaignTargeting : Type 0 where
    pub scope : CampaignScope
    pub provider_type : Option ProviderType
    pub milestone_keys : List String

  pub record BookingCampaign : Type 0 where
    pub id : ℕ
    pub start_date : ℕ
    pub end_date : ℕ
    pub is_enabled : Bool
    pub targeting : Option CampaignTargeting
    pub daily_capacity : Option CampaignModifier
    pub advance_booking_days : Option CampaignModifier

  abbrev pub is_campaign_live : BookingCampaign → ℕ → Bool
  is_campaign_live c date = c.is_enabled && leb c.start_date date && leb date c.end_date

  abbrev pub same_type : Option ProviderType → ProviderType → Bool
  same_type (some merchant) merchant = true
  same_type (some washer) washer = true
  same_type _ _ = false

  abbrev pub includes_key : List String → Option String → Bool
  includes_key keys none = false
  includes_key [] (some k) = false
  includes_key (x ∷ xs) (some k) = str_eq x k || includes_key xs (some k)

  abbrev pub campaign_applies : BookingCampaign → ProviderType → Option String → Bool
  campaign_applies c type key = elim c.targeting [
    | none ↦ true
    | some t ↦ elim t.scope [
      | everyone ↦ true
      | provider_type ↦ same_type t.provider_type type
      | milestone ↦ includes_key t.milestone_keys key
    ]
  ]

  abbrev pub apply_modifier : ℤ → Option CampaignModifier → ℤ
  apply_modifier base none = base
  apply_modifier base (some m) = elim m.mode [
    | replace ↦ floor m.value
    | multiply ↦ floor_product base m.value
    | increase_by ↦ base +ℤ floor m.value
  ]
