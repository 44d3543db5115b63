-- ===== src/Fees/Seeding.antt =====
-- Seeding the rules again (`seedDefaultRules` of src/platform-fee/platform-fee.service.ts).
use Prim.Native.String.{String}
use lalaba_backend_showcase.Base.{
  ℕ, ◌≡◌, refl, Bool, true, List, [], ◌∷◌, ◌++◌, if◌then◌else◌, All, inl, inr, Bool-cases, arith,
}
use lalaba_backend_showcase.Booking.Time.{Text}
use lalaba_backend_showcase.Pricing.Doubles.{Doubles}
use lalaba_backend_showcase.Fees.Keys.{same_text_refl, fee_rule_key_for}
use lalaba_backend_showcase.Fees.Versions.{
  SavePlatformFeeRuleInput, PlatformFeeRule, PlatformFeeConfig, legacy_fee_percent,
}
use lalaba_backend_showcase.Fees.Admin.{exists_rule, version_of}
use lalaba_backend_showcase.Fees.Seeds.{default_rules, seeded, seed_default_rules}
use lalaba_backend_showcase.Fees.Calls.{AdminCall, run_all, run_all-Grown, seeded-Grown}

module _ (d : Doubles) (is_blank : String → Bool) (lowered : String → Text) where
  abbrev seed_key : SavePlatformFeeRuleInput d → Text
  seed_key def = fee_rule_key_for lowered def.draft.name def.applies_to

  -- Every rule of the list has its key stored.
  abbrev AllTaken : List (SavePlatformFeeRuleInput d) → List (PlatformFeeRule d) → Type 0
  AllTaken defs rules = All (λ def. exists_rule d is_blank lowered (seed_key def) rules ≡ true) defs

  exists-appended :
      (r : PlatformFeeRule d) (rs : List (PlatformFeeRule d))
      → exists_rule d is_blank lowered r.rule_key (rs ++ r ∷ []) ≡ true
  exists-appended r [] = ground (arith, same_text_refl r.rule_key)
  exists-appended r (x ∷ xs) = ground (arith, exists-appended r xs)

  seeded-AllTaken :
      (defs : List (SavePlatformFeeRuleInput d)) (rules : List (PlatformFeeRule d))
      → AllTaken defs (seeded d is_blank lowered defs rules).1
  seeded-AllTaken [] rules = tt
  seeded-AllTaken (def ∷ defs) rules =
      ((seeded-Grown d is_blank lowered defs _).exists (seed_key def) first, seeded-AllTaken defs _)
    where
      first :
          exists_rule d is_blank lowered (seed_key def) (
            if exists_rule d is_blank lowered (seed_key def) rules
            then rules
            else rules ++ version_of d is_blank lowered (seed_key def) 1 def ∷ [])
          ≡ true
      first = elim (Bool-cases (exists_rule d is_blank lowered (seed_key def) rules)) [
        | inl taken ↦ rw (taken, taken) refl
        | inr free ↦
            rw free (exists-appended (version_of d is_blank lowered (seed_key def) 1 def) rules)
      ]

  AllTaken-kept :
      (defs : List (SavePlatformFeeRuleInput d)) (cs : List (AdminCall d is_blank lowered))
      (rules : List (PlatformFeeRule d))
      → AllTaken defs rules
      → AllTaken defs (run_all d is_blank lowered cs rules)
  AllTaken-kept [] cs rules t = tt
  AllTaken-kept (def ∷ defs) cs rules t = (
    (run_all-Grown d is_blank lowered cs rules).exists (seed_key def) t.0,
    AllTaken-kept defs cs rules t.1,
  )

  nothing_seeded :
      (defs : List (SavePlatformFeeRuleInput d)) (rules : List (PlatformFeeRule d))
      → AllTaken defs rules
      → seeded d is_blank lowered defs rules ≡ ([], rules)
  nothing_seeded [] rules t = refl
  nothing_seeded (def ∷ defs) rules t = rw (t.0, nothing_seeded defs rules t.1) refl

  -- Seeding again leaves every edit alone: after the rules were seeded, whatever administrators
  -- create, update, switch and seed in any sequence, a later seed creates nothing and stores nothing,
  -- whatever the older rate and the time are then.
  pub seeding_again_changes_nothing :
      (cs : List (AdminCall d is_blank lowered))
      (configs later_configs : List (PlatformFeeConfig d)) (now later : ℕ)
      (rules : List (PlatformFeeRule d))
      → let edited =
          run_all d is_blank lowered cs
            (seed_default_rules d is_blank lowered configs now rules).1 in
        seed_default_rules d is_blank lowered later_configs later edited ≡ ([], edited)
  unfolding seed_default_rules
  seeding_again_changes_nothing cs configs later_configs now later rules =
      let defs = default_rules d is_blank lowered (legacy_fee_percent d now configs) now in
      let first = seeded d is_blank lowered defs rules in
      nothing_seeded
        (default_rules d is_blank lowered (legacy_fee_percent d later later_configs) later)
        (run_all d is_blank lowered cs first.1)
        (AllTaken-kept defs cs first.1 (seeded-AllTaken defs rules))
