-- ===== src/Fees/Seeds.antt =====
-- The rules that a new environment starts with (`seedDefaultRules` of
-- src/platform-fee/platform-fee.service.ts).
use Prim.Native.String.{String}
use lalaba_backend_showcase.Base.{
  ℕ, Bool, false, true, Option, none, some, List, [], ◌∷◌, ◌++◌, if◌then◌else◌,
}
use lalaba_backend_showcase.Booking.Time.{Text}
use lalaba_backend_showcase.Pricing.Doubles.{Doubles}
use lalaba_backend_showcase.Fees.Keys.{fee_rule_key_for}
use lalaba_backend_showcase.Fees.Rules.{
  FeePayerRole, home_washer, laundromat, FeeCalculationType, percentage, fixed, FeeChargedTo,
  provider, tax_inclusive,
}
use lalaba_backend_showcase.Fees.Versions.{
  FeeCategory, commission, activation_minimum, accept_minimum, SavePlatformFeeRuleInput,
  PlatformFeeRule, PlatformFeeConfig, legacy_fee_percent,
}
use lalaba_backend_showcase.Fees.Admin.{exists_rule, version_of}

module _ (d : Doubles) (is_blank : String → Bool) (lowered : String → Text) where
  open d use {Double}

  abbrev pub default_rule :
      String
      → FeePayerRole
      → FeeCategory
      → FeeCalculationType
      → Option Double
      → Option ℕ
      → FeeChargedTo
      → ℕ
      → SavePlatformFeeRuleInput d
  default_rule name payer category type percent amount charged_to now = record {
    draft = record {
      name = name;
      calculation_type = type;
      percent = percent;
      fixed_amount_centavos = amount;
      min_fee_centavos = none;
      max_fee_centavos = none;
      charged_to = charged_to;
      customer_share_percent = none;
      provider_share_percent = none;
      apply_vat = false;
      vat_rate_percent = none;
      tax_treatment = tax_inclusive;
      effective_from = now;
      effective_until = none;
    };
    applies_to = payer;
    category = category;
    is_active = true;
  }

  abbrev pub default_commission : Double → ℕ → FeePayerRole → SavePlatformFeeRuleInput d
  default_commission legacy_percent now payer =
      default_rule "Platform Commission" payer commission percentage (some legacy_percent) none
        FeeChargedTo.customer now

  -- The thresholds of wallet.constants.ts: a thousand pesos, and a hundred.
  abbrev pub default_minimums : ℕ → FeePayerRole → List (SavePlatformFeeRuleInput d)
  default_minimums now payer =
      default_rule "Activation Minimum" payer activation_minimum fixed none (some 100_000) provider
        now
      ∷ default_rule "Accept Booking Minimum" payer accept_minimum fixed none (some 10_000) provider
          now
      ∷ []

  abbrev pub default_rules : Double → ℕ → List (SavePlatformFeeRuleInput d)
  default_rules legacy_percent now =
      default_commission legacy_percent now home_washer
        ∷ default_commission legacy_percent now laundromat
        ∷ default_minimums now home_washer
      ++ default_minimums now laundromat

  -- The loop: a rule whose key exists is passed over. What is created is the keys.
  abbrev pub seeded :
      List (SavePlatformFeeRuleInput d)
      → List (PlatformFeeRule d)
      → List Text × List (PlatformFeeRule d)
  seeded [] rules = ([], rules)
  seeded (def ∷ defs) rules =
      let key = fee_rule_key_for lowered def.draft.name def.applies_to in
      let taken = exists_rule d is_blank lowered key rules in
      let r = version_of d is_blank lowered key 1 def in
      let (keys, rules') = seeded defs (if taken then rules else rules ++ r ∷ []) in
      (if taken then keys else key ∷ keys, rules')

  unfoldable pub seed_default_rules :
      List (PlatformFeeConfig d)
      → ℕ
      → List (PlatformFeeRule d)
      → List Text × List (PlatformFeeRule d)
  unfolding fee_rule_key_for
  seed_default_rules configs now rules =
      seeded (default_rules (legacy_fee_percent d now configs) now) rules
