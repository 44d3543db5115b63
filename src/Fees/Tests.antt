-- ===== src/Fees/Tests.antt =====
-- A commission with a change that is scheduled, on which the theorems about versions apply.
use Prim.Native.String.{String}
use mathlib.Core.List.{Memᴰ}
use mathlib.Core.List.Memᴰ
use lalaba_backend_showcase.Base.{
  ℕ, ◌≤◌, ◌≡◌, refl, ◌⊎◌, inl, inr, Bool, true, false, none, some, List, [], ◌∷◌, or_else, arith,
  ap,
}
use lalaba_backend_showcase.Booking.Time.{Text}
use lalaba_backend_showcase.Policy.Provider.{washer}
use lalaba_backend_showcase.Pricing.Doubles.{Doubles, whole_numbers}
use lalaba_backend_showcase.Fees.Rules.{
  home_washer, percentage, customer, tax_inclusive, validate_rule, is_rule_in_effect,
}
use lalaba_backend_showcase.Fees.Versions.{
  SavePlatformFeeRuleInput, PlatformFeeRule, commission, in_effect, resolve_rule,
  resolve_commission_snapshot,
}
use lalaba_backend_showcase.Fees.Admin.{published, newest_version, update_rule, set_rule_active}
use lalaba_backend_showcase.Fees.History.{IsVersioned, find_version}
use lalaba_backend_showcase.Fees.Calls.{AdminCall, update, switch, run_all}
use lalaba_backend_showcase.Fees.Snapshots.{snapshot_stays_explained}
use lalaba_backend_showcase.Fees.Seeds.{seed_default_rules}
use lalaba_backend_showcase.Fees.Seeding.{seeding_again_changes_nothing}
use lalaba_backend_showcase.Fees.Switch.{deactivation_is_undone}

abbrev d : Doubles
d = whole_numbers

abbrev never_blank : String → Bool
never_blank name = false

abbrev same_letters : String → Text
same_letters name = 119 ∷ []

abbrev percent_from : ℕ → ℕ → SavePlatformFeeRuleInput d
percent_from rate start = record {
  draft = record {
    name = "Commission";
    calculation_type = percentage;
    percent = some rate;
    fixed_amount_centavos = none;
    min_fee_centavos = none;
    max_fee_centavos = none;
    charged_to = customer;
    customer_share_percent = none;
    provider_share_percent = none;
    apply_vat = false;
    vat_rate_percent = none;
    tax_treatment = tax_inclusive;
    effective_from = start;
    effective_until = none;
  };
  applies_to = home_washer;
  category = commission;
  is_active = true;
}

abbrev ten : PlatformFeeRule d
ten = record {
  rule_key = 119 ∷ [];
  version = 1;
  terms = percent_from 10 0;
  superseded_by_version = some 2;
}

-- Twelve percent from time 100 on.
abbrev twelve : PlatformFeeRule d
twelve = record {
  rule_key = 119 ∷ [];
  version = 2;
  terms = percent_from 12 100;
  superseded_by_version = none;
}

abbrev rules : List (PlatformFeeRule d)
rules = ten ∷ twelve ∷ []

rules-cases : (y : PlatformFeeRule d) → Memᴰ y rules → (y ≡ ten) ⊎ (y ≡ twelve)
rules-cases y (Memᴰ.head e) = inl e
rules-cases y (Memᴰ.tail m) = inr (Memᴰ.eq_of_singleton m)

rules-IsVersioned : IsVersioned d rules
rules-IsVersioned x y mx my key version = go (rules-cases x mx) (rules-cases y my)
  where
    go : (x ≡ ten) ⊎ (x ≡ twelve) → (y ≡ ten) ⊎ (y ≡ twelve) → x ≡ y
    go (inl a) (inl b) = cc
    go (inl a) (inr b) = ground (
      arith,
      ap (λ (z : PlatformFeeRule d). z.version) a,
      ap (λ (z : PlatformFeeRule d). z.version) b,
    )
    go (inr a) (inl b) = ground (
      arith,
      ap (λ (z : PlatformFeeRule d). z.version) a,
      ap (λ (z : PlatformFeeRule d). z.version) b,
    )
    go (inr a) (inr b) = cc

-- The rate goes to fifteen percent, and the rule is switched off.
abbrev later_calls : List (AdminCall d never_blank same_letters)
later_calls = update (119 ∷ []) (percent_from 15 60) ∷ switch (119 ∷ []) false 70 ∷ []

ten_is_named : (resolve_commission_snapshot d washer 50 50 rules []).rule_version ≡ some 1
unfolding resolve_commission_snapshot resolve_rule is_rule_in_effect
ten_is_named = refl

key_is_named : (resolve_commission_snapshot d washer 50 50 rules []).rule_key ≡ some (119 ∷ [])
unfolding resolve_commission_snapshot resolve_rule is_rule_in_effect
key_is_named = refl

snapshot_stays_explained_example :
    IsVersioned d (run_all d never_blank same_letters later_calls rules)
    × (r : PlatformFeeRule d) × (find_version d
          (119 ∷ [])
          1
          (run_all d never_blank same_letters later_calls rules)
        ≡ some r)
    × (or_else r.terms.draft.percent 0
        ≡ (resolve_commission_snapshot d washer 50 50 rules []).percent)
snapshot_stays_explained_example =
    snapshot_stays_explained d never_blank same_letters later_calls washer 50 50 rules [] (119 ∷ [])
      1 rules-IsVersioned key_is_named ten_is_named

seeding_again_changes_nothing_example :
    let edited =
      run_all d never_blank same_letters later_calls
        (seed_default_rules d never_blank same_letters [] 40 rules).1 in
    seed_default_rules d never_blank same_letters [] 90 edited ≡ ([], edited)
seeding_again_changes_nothing_example =
    seeding_again_changes_nothing d never_blank same_letters later_calls [] [] 40 90 rules

abbrev off : PlatformFeeRule d
off = record {
  rule_key = 119 ∷ [];
  version = 3;
  terms = record (percent_from 12 50) { is_active = false };
  superseded_by_version = none;
}

abbrev switched_off : List (PlatformFeeRule d)
switched_off = ten ∷ record twelve { superseded_by_version = some 3 } ∷ off ∷ []

switch_runs :
    set_rule_active d never_blank same_letters (119 ∷ []) false 50 rules
    ≡ (published off, switched_off)
unfolding set_rule_active update_rule newest_version validate_rule
switch_runs = refl

newest_is_twelve : newest_version d never_blank same_letters (119 ∷ []) rules ≡ some twelve
unfolding newest_version
newest_is_twelve = refl

twelve_will_be_live : in_effect d 100 twelve ≡ true
unfolding is_rule_in_effect
twelve_will_be_live = refl

deactivation_is_undone_example :
    (false ≡ false)
    × (x : PlatformFeeRule d) × (resolve_rule d home_washer commission 100 switched_off ≡ some x)
    × (x.rule_key ≡ 119 ∷ [])
    × (x.terms ≡ percent_from 12 100)
deactivation_is_undone_example =
    deactivation_is_undone d never_blank same_letters (119 ∷ []) 50 rules switched_off twelve off
      newest_is_twelve twelve_will_be_live (omega arith) (λ y m key. alone y (rules-cases y m))
      (λ y m started. own y (rules-cases y m)) switch_runs
  where
    alone :
        (y : PlatformFeeRule d)
        → (y ≡ ten) ⊎ (y ≡ twelve)
        → (y ≡ twelve) ⊎ (y.terms.draft.effective_from ≤ 50)
    alone y (inl e) =
        inr (
          let z = ap (λ (z : PlatformFeeRule d). z.terms.draft.effective_from) e in
          omega (arith, z))
    alone y (inr e) = inl e

    own : (y : PlatformFeeRule d) → (y ≡ ten) ⊎ (y ≡ twelve) → y.rule_key ≡ 119 ∷ []
    own y (inl e) = ap (λ (z : PlatformFeeRule d). z.rule_key) e
    own y (inr e) = ap (λ (z : PlatformFeeRule d). z.rule_key) e
