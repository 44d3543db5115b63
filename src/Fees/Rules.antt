-- ===== src/Fees/Rules.antt =====
-- The rules by which the platform takes fees (src/platform-fee/platform-fee-rule.util.ts, and
-- `previewRule` of src/platform-fee/platform-fee.service.ts).
use Prim.Native.String.{String}
use lalaba_backend_showcase.Base.{
  ℕ, ◌+◌, min, max, Bool, true, false, not, ◌&&◌, ◌||◌, Option, none, some, ◌==◌, ltb, leb,
  if◌then◌else◌, or_else, is_some,
}
use lalaba_backend_showcase.Base.Int.{ℤ, pos, ◌-ℤ◌}
use lalaba_backend_showcase.Policy.Provider.{ProviderType, merchant, washer}
use lalaba_backend_showcase.Pricing.Doubles.{Doubles}

pub data FeeCalculationType : Type 0 where
  percentage fixed fixed_plus_percentage : FeeCalculationType

pub data FeeChargedTo : Type 0 where
  customer provider split : FeeChargedTo

pub data FeePayerRole : Type 0 where
  customer laundromat home_washer courier : FeePayerRole

pub data FeeTaxTreatment : Type 0 where
  tax_inclusive tax_exclusive : FeeTaxTreatment

abbrev pub payer_role_for_provider_type : ProviderType → FeePayerRole
payer_role_for_provider_type washer = home_washer
payer_role_for_provider_type merchant = laundromat

abbrev pub needs_percent : FeeCalculationType → Bool
needs_percent fixed = false
needs_percent _ = true

abbrev pub needs_fixed : FeeCalculationType → Bool
needs_fixed percentage = false
needs_fixed _ = true

abbrev pub at_least : Option ℕ → ℕ → ℕ
at_least none fee = fee
at_least (some least) fee = max fee least

abbrev pub at_most : Option ℕ → ℕ → ℕ
at_most none fee = fee
at_most (some most) fee = min fee most

-- `maxFeeCentavos < minFeeCentavos`, where there are both.
abbrev pub crossed : Option ℕ → Option ℕ → Bool
crossed (some least) (some most) = ltb most least
crossed _ _ = false

abbrev pub is_not_positive : Option ℕ → Bool
is_not_positive none = true
is_not_positive (some n) = leb n 0

abbrev pub ends_early : ℕ → Option ℕ → Bool
ends_early start none = false
ends_early start (some until) = leb until start

abbrev pub is_split : FeeChargedTo → Bool
is_split split = true
is_split _ = false

module _ (d : Doubles) where
  open d use {Double, of_nat, add, mul, div, le, round}

  -- `FeeRuleDraft`, with the tax treatment that a preview reads as well.
  pub record FeeRuleDraft : Type 0 where
    pub name : String
    pub calculation_type : FeeCalculationType
    pub percent : Option Double
    pub fixed_amount_centavos : Option ℕ
    pub min_fee_centavos : Option ℕ
    pub max_fee_centavos : Option ℕ
    pub charged_to : FeeChargedTo
    pub customer_share_percent : Option Double
    pub provider_share_percent : Option Double
    pub apply_vat : Bool
    pub vat_rate_percent : Option Double
    pub tax_treatment : FeeTaxTreatment
    pub effective_from : ℕ
    pub effective_until : Option ℕ

  abbrev pub percent_of : ℕ → Option Double → Double
  percent_of amount percent = mul (of_nat amount) (div (or_else percent (of_nat 0)) (of_nat 100))

  abbrev pub percent_part : FeeCalculationType → Option Double → ℕ → Double
  percent_part type percent base = if needs_percent type then percent_of base percent else of_nat 0

  abbrev pub fixed_part : FeeCalculationType → Option ℕ → Double
  fixed_part type amount = of_nat (if needs_fixed type then or_else amount 0 else 0)

  unfoldable pub compute_fee_centavos : FeeRuleDraft → ℕ → ℕ
  compute_fee_centavos rule base = at_most rule.max_fee_centavos (
      at_least rule.min_fee_centavos (
        round (
          add (percent_part rule.calculation_type rule.percent base)
            (fixed_part rule.calculation_type rule.fixed_amount_centavos))))

  -- `isRuleInEffect` of a rule with the flag that it is active.
  unfoldable pub is_rule_in_effect : Bool → FeeRuleDraft → ℕ → Bool
  is_rule_in_effect is_active rule at =
      is_active && leb rule.effective_from at && not (ends_early at rule.effective_until)

  pub data RuleFault : Type 0 where
    needs_a_percentage needs_an_amount clear_percentage clear_amount maximum_below_minimum :
        RuleFault
    needs_both_shares shares_not_whole shares_without_split needs_vat_rate : RuleFault
    ends_before_start needs_a_name : RuleFault

  abbrev pub is_zero_or_missing : Option Double → Bool
  is_zero_or_missing none = true
  is_zero_or_missing (some p) = le p (of_nat 0)

  abbrev pub share_fault : FeeChargedTo → Option Double → Option Double → Option RuleFault
  share_fault split (some c) (some p) =
      if round (add c p) == 100 then none else some shares_not_whole
  share_fault split _ _ = some needs_both_shares
  share_fault _ c p = if is_some c || is_some p then some shares_without_split else none

  -- What is checked after the shares.
  abbrev pub late_fault : (String → Bool) → FeeRuleDraft → Option RuleFault
  late_fault is_blank rule =
      if rule.apply_vat && is_zero_or_missing rule.vat_rate_percent
      then some needs_vat_rate
      else if ends_early rule.effective_from rule.effective_until
      then some ends_before_start
      else if is_blank rule.name
      then some needs_a_name
      else none

  abbrev pub first_fault : Option RuleFault → Option RuleFault → Option RuleFault
  first_fault none later = later
  first_fault (some fault) later = some fault

  -- The first problem of a draft. `is_blank` is `!name.trim()`.
  unfoldable pub validate_rule : (String → Bool) → FeeRuleDraft → Option RuleFault
  validate_rule is_blank rule =
      let type = rule.calculation_type in
      if needs_percent type && is_zero_or_missing rule.percent
      then some needs_a_percentage
      else if needs_fixed type && is_not_positive rule.fixed_amount_centavos
      then some needs_an_amount
      else if not (needs_percent type) && is_some rule.percent
      then some clear_percentage
      else if not (needs_fixed type) && is_some rule.fixed_amount_centavos
      then some clear_amount
      else if crossed rule.min_fee_centavos rule.max_fee_centavos
      then some maximum_below_minimum
      else first_fault
          (share_fault rule.charged_to rule.customer_share_percent rule.provider_share_percent)
          (late_fault is_blank rule)

  pub record FeeRulePreview : Type 0 where
    pub base_centavos : ℕ
    pub fee_centavos : ℕ
    pub uncapped_fee_centavos : ℕ
    pub minimum_applied : Bool
    pub maximum_applied : Bool
    pub vat_centavos : ℕ
    pub customer_share_centavos : ℕ
    pub provider_share_centavos : ℤ
    pub customer_total_centavos : ℕ
    pub provider_earnings_centavos : ℤ

  abbrev pub customer_share : FeeRuleDraft → ℕ → ℕ
  customer_share rule fee = elim rule.charged_to [
    | customer ↦ fee
    | provider ↦ 0
    | split ↦ round (percent_of fee rule.customer_share_percent)
  ]

  abbrev pub is_exclusive : FeeTaxTreatment → Bool
  is_exclusive tax_exclusive = true
  is_exclusive tax_inclusive = false

  abbrev pub vat : FeeRuleDraft → ℕ → ℕ
  vat rule fee =
      if rule.apply_vat && is_exclusive rule.tax_treatment
      then round (percent_of fee rule.vat_rate_percent)
      else 0

  abbrev pub was_raised : Option ℕ → ℕ → Bool
  was_raised none fee = false
  was_raised (some least) fee = ltb fee least

  abbrev pub was_capped : Option ℕ → ℕ → Bool
  was_capped none fee = false
  was_capped (some most) fee = ltb most fee

  abbrev pub previewed : FeeRuleDraft → ℕ → FeeRulePreview
  previewed rule base =
      let uncapped =
        compute_fee_centavos (record rule { min_fee_centavos = none; max_fee_centavos = none })
          base in
      let fee = compute_fee_centavos rule base in
      let share = customer_share rule fee in
      let provider_share = pos fee -ℤ pos share in
      record {
        base_centavos = base;
        fee_centavos = fee;
        uncapped_fee_centavos = uncapped;
        minimum_applied = was_raised rule.min_fee_centavos uncapped;
        maximum_applied = was_capped rule.max_fee_centavos uncapped;
        vat_centavos = vat rule fee;
        customer_share_centavos = share;
        provider_share_centavos = provider_share;
        customer_total_centavos = base + share + vat rule fee;
        provider_earnings_centavos = pos base -ℤ provider_share;
      }

  -- A draft with a fault is refused.
  unfoldable pub preview_rule : (String → Bool) → FeeRuleDraft → ℕ → Option FeeRulePreview
  unfolding validate_rule compute_fee_centavos
  preview_rule is_blank rule base = elim (validate_rule is_blank rule) [
    | some fault ↦ none
    | none ↦ some (previewed rule base)
  ]
