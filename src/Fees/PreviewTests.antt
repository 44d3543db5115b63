-- ===== src/Fees/PreviewTests.antt =====
-- A rule on which the theorem about previews applies.
use lalaba_backend_showcase.Base.{◌≡◌, false, refl, none, some}
use lalaba_backend_showcase.Pricing.Doubles.{whole_numbers}
use lalaba_backend_showcase.Fees.Rules.{
  FeeRuleDraft, FeeRulePreview, fixed_plus_percentage, split, tax_exclusive, preview_rule,
  previewed, validate_rule,
}
use lalaba_backend_showcase.Fees.Preview.{IsExplained, preview_adds_up}

-- All of the base and a fixed part, lowered to the maximum, charged to the customer.
abbrev commission : FeeRuleDraft whole_numbers
commission = record {
  name = "Commission";
  calculation_type = fixed_plus_percentage;
  percent = some 100;
  fixed_amount_centavos = some 1_500;
  min_fee_centavos = some 500;
  max_fee_centavos = some 10_000;
  charged_to = split;
  customer_share_percent = some 100;
  provider_share_percent = some 0;
  apply_vat = false;
  vat_rate_percent = none;
  tax_treatment = tax_exclusive;
  effective_from = 10;
  effective_until = none;
}

commission-previewed :
    preview_rule whole_numbers (λ name. false) commission 20_000
    ≡ some (previewed whole_numbers commission 20_000)
unfolding preview_rule validate_rule
commission-previewed = refl

abbrev commission_preview : FeeRulePreview whole_numbers
commission_preview = previewed whole_numbers commission 20_000

preview_adds_up_example :
    IsExplained whole_numbers (λ name. false) commission 20_000 commission_preview
preview_adds_up_example =
    preview_adds_up whole_numbers (λ name. false) commission 20_000 commission_preview
      commission-previewed
