-- ===== src/Policy/Provider.antt =====
-- A provider as the booking policy sees it (src/booking-policy/entitlement.util.ts). Fractional
-- doubles (ratings, rates, modifier values) are a parameter.
use lalaba_backend_showcase.Base.{ℕ, Bool, Option}
use lalaba_backend_showcase.Base.Int.{ℤ}

-- `<`, `Math.floor(x)` and `Math.floor(base * x)` on doubles.
pub record Doubles : Type 1 where
  pub Double : Type 0
  pub less : Double → Double → Bool
  pub floor : Double → ℤ
  pub floor_product : ℤ → Double → ℤ

pub data ProviderType : Type 0 where
  merchant washer : ProviderType

module _ (d : Doubles) where
  open d use {Double}

  -- `rating` and `cancellation_rate_percent` may be null.
  pub record ProviderStats : Type 0 where
    pub completed_orders : ℕ
    pub rating : Option Double
    pub cancellation_rate_percent : Option Double
    pub is_verified : Bool
    pub in_good_standing : Bool
