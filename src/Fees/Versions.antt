-- ===== src/Fees/Versions.antt =====
-- The versions of the fee rules: which one is in force, what it means for a commission, and what
-- administrators publish (src/platform-fee/platform-fee.service.ts,
-- src/platform-fee/schemas/platform-fee-rule.schema.ts).
use Prim.Native.String.{String}
use lalaba_backend_showcase.Base.{
  ℕ, Bool, true, false, ◌&&◌, ◌||◌, Option, none, some, List, [], ◌∷◌, ◌++◌, filter, ◌==◌, ltb, leb,
  if◌then◌else◌, or_else,
}
use lalaba_backend_showcase.Booking.Time.{Text}
use lalaba_backend_showcase.Policy.Provider.{ProviderType, washer}
use lalaba_backend_showcase.Pricing.Doubles.{Doubles}
use lalaba_backend_showcase.Fees.Keys.{same_text}
use lalaba_backend_showcase.Fees.Rules.{
  FeePayerRole, customer, laundromat, home_washer, courier, FeeCalculationType, percentage, fixed,
  FeeChargedTo, FeeRuleDraft, payer_role_for_provider_type, is_rule_in_effect,
}

pub data FeeCategory : Type 0 where
  commission booking_fee surcharge activation_minimum accept_minimum other : FeeCategory

abbrev pub category_index : FeeCategory → ℕ
category_index commission = 0
category_index booking_fee = 1
category_index surcharge = 2
category_index activation_minimum = 3
category_index accept_minimum = 4
category_index other = 5

abbrev pub role_index : FeePayerRole → ℕ
role_index customer = 0
role_index home_washer = 1
role_index laundromat = 2
role_index courier = 3

abbrev pub is_fixed : FeeCalculationType → Bool
is_fixed fixed = true
is_fixed _ = false

module _ (d : Doubles) where
  open d use {Double, of_nat}

  -- What an administrator saves. What is stored and not read (the description, the basis, where it is
  -- deducted, whether it stacks, the reason of a change) is left out.
  pub record SavePlatformFeeRuleInput : Type 0 where
    pub draft : FeeRuleDraft d
    pub applies_to : FeePayerRole
    pub category : FeeCategory
    pub is_active : Bool

  pub record PlatformFeeRule : Type 0 where
    pub rule_key : Text
    pub version : ℕ
    pub terms : SavePlatformFeeRuleInput
    pub superseded_by_version : Option ℕ

  -- `{ appliesTo, category, effectiveFrom: { $lte: at } }`
  abbrev pub is_started : FeePayerRole → FeeCategory → ℕ → PlatformFeeRule → Bool
  is_started payer category at r =
      (role_index r.terms.applies_to == role_index payer)
      && (category_index r.terms.category == category_index category)
      && leb r.terms.draft.effective_from at

  -- The order of `{ effectiveFrom: -1, version: -1 }`.
  abbrev pub as_new : PlatformFeeRule → PlatformFeeRule → Bool
  as_new r x =
      ltb x.terms.draft.effective_from r.terms.draft.effective_from
      || ((x.terms.draft.effective_from == r.terms.draft.effective_from) && leb x.version r.version)

  abbrev pub insert_rule : PlatformFeeRule → List PlatformFeeRule → List PlatformFeeRule
  insert_rule r [] = r ∷ []
  insert_rule r (x ∷ xs) = if as_new r x then r ∷ x ∷ xs else x ∷ insert_rule r xs

  abbrev pub newest_first : List PlatformFeeRule → List PlatformFeeRule
  newest_first [] = []
  newest_first (r ∷ rs) = insert_rule r (newest_first rs)

  abbrev pub was_seen : Text → List Text → Bool
  was_seen key [] = false
  was_seen key (k ∷ ks) = same_text k key || was_seen key ks

  -- The values of `byKey`: the first rule of each key.
  abbrev pub first_of_keys : List Text → List PlatformFeeRule → List PlatformFeeRule
  first_of_keys seen [] = []
  first_of_keys seen (r ∷ rs) =
      let rest = first_of_keys (r.rule_key ∷ seen) rs in
      if was_seen r.rule_key seen then rest else r ∷ rest

  abbrev pub in_effect : ℕ → PlatformFeeRule → Bool
  in_effect at r = is_rule_in_effect d r.terms.is_active r.terms.draft at

  abbrev pub first_in_effect : ℕ → List PlatformFeeRule → Option PlatformFeeRule
  first_in_effect at [] = none
  first_in_effect at (r ∷ rs) = if in_effect at r then some r else first_in_effect at rs

  unfoldable pub resolve_rule :
      FeePayerRole → FeeCategory → ℕ → List PlatformFeeRule → Option PlatformFeeRule
  unfolding is_rule_in_effect
  resolve_rule payer category at rules =
      first_in_effect at
        (first_of_keys [] (newest_first (filter (is_started payer category at) rules)))

  -- `PlatformFeeConfig`, the rate before there were rules.
  pub record PlatformFeeConfig : Type 0 where
    pub fee_percent : Double
    pub effective_from : ℕ

  abbrev pub newest_config : ℕ → List PlatformFeeConfig → Option PlatformFeeConfig
  newest_config now [] = none
  newest_config now (c ∷ cs) =
      let best = newest_config now cs in
      if leb c.effective_from now
      then (elim best [
        | none ↦ some c
        | some b ↦ if leb b.effective_from c.effective_from then some c else some b
      ])
      else best

  abbrev pub legacy_fee_percent : ℕ → List PlatformFeeConfig → Double
  legacy_fee_percent now configs = elim (newest_config now configs) [
    | none ↦ of_nat 10
    | some c ↦ c.fee_percent
  ]

  unfoldable pub set_fee_percent : Double → ℕ → List PlatformFeeConfig → List PlatformFeeConfig
  set_fee_percent percent now configs =
      configs ++ record { fee_percent = percent; effective_from = now } ∷ []

  -- A commission that is a fixed amount has no rate.
  abbrev pub usable : Option PlatformFeeRule → Option PlatformFeeRule
  usable none = none
  usable (some r) = if is_fixed r.terms.draft.calculation_type then none else some r

  abbrev pub commission_rule : ProviderType → ℕ → List PlatformFeeRule → Option PlatformFeeRule
  commission_rule type at rules =
      usable (resolve_rule (payer_role_for_provider_type type) commission at rules)

  abbrev pub rate_of : Option PlatformFeeRule → Double → Double
  rate_of none legacy = legacy
  rate_of (some r) legacy = or_else r.terms.draft.percent (of_nat 0)

  unfoldable pub get_commission_percent :
      ProviderType → ℕ → ℕ → List PlatformFeeRule → List PlatformFeeConfig → Double
  unfolding resolve_rule
  get_commission_percent type at now rules configs =
      rate_of (commission_rule type at rules) (legacy_fee_percent now configs)

  pub record EffectiveCommission : Type 0 where
    pub percent : Double
    pub charged_to : FeeChargedTo
    pub calculation_type : FeeCalculationType
    pub is_configured : Bool

  unfoldable pub get_effective_commission :
      ProviderType → ℕ → ℕ → List PlatformFeeRule → List PlatformFeeConfig → EffectiveCommission
  unfolding resolve_rule
  get_effective_commission type at now rules configs = elim (commission_rule type at rules) [
    | some r ↦ record {
      percent = or_else r.terms.draft.percent (of_nat 0);
      charged_to = r.terms.draft.charged_to;
      calculation_type = r.terms.draft.calculation_type;
      is_configured = true;
    }
    | none ↦ record {
      percent = legacy_fee_percent now configs;
      charged_to = FeeChargedTo.customer;
      calculation_type = percentage;
      is_configured = false;
    }
  ]

  -- What an order remembers of the rule that priced it.
  pub record CommissionSnapshot : Type 0 where
    pub percent : Double
    pub rule_key : Option Text
    pub rule_version : Option ℕ
    pub engine_version : String

  unfoldable pub get_current_fee_percent :
      ℕ → List PlatformFeeRule → List PlatformFeeConfig → Double
  unfolding get_commission_percent
  get_current_fee_percent now rules configs = get_commission_percent washer now now rules configs

  unfoldable pub resolve_commission_snapshot :
      ProviderType → ℕ → ℕ → List PlatformFeeRule → List PlatformFeeConfig → CommissionSnapshot
  unfolding resolve_rule
  resolve_commission_snapshot type at now rules configs =
      let rule = commission_rule type at rules in
      record {
        percent = rate_of rule (legacy_fee_percent now configs);
        rule_key = elim rule [ none ↦ none | some r ↦ some r.rule_key ];
        rule_version = elim rule [ none ↦ none | some r ↦ some r.version ];
        engine_version = "fee-rules-v1";
      }
