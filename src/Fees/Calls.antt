-- ===== src/Fees/Calls.antt =====
-- Sequences of what administrators publish (src/platform-fee/platform-fee.service.ts).
use Prim.Native.String.{String}
use mathlib.Core.List.{Memᴰ}
use lalaba_backend_showcase.Base.{
  ℕ, ◌+◌, ◌≡◌, Bool, true, some, List, [], ◌∷◌, ◌++◌, map, ◌==◌, arith, inl, inr, Bool-cases,
  Option-cases, if◌then◌else◌,
}
use lalaba_backend_showcase.Booking.Time.{Text}
use lalaba_backend_showcase.Pricing.Doubles.{Doubles}
use lalaba_backend_showcase.Fees.Keys.{fee_rule_key_for}
use lalaba_backend_showcase.Fees.Rules.{validate_rule}
use lalaba_backend_showcase.Fees.Versions.{
  SavePlatformFeeRuleInput, PlatformFeeRule, PlatformFeeConfig, legacy_fee_percent, role_index,
  category_index,
}
use lalaba_backend_showcase.Fees.Admin.{
  exists_rule, newest_version, version_of, create_rule, superseded, publish_next, update_rule,
  switched, set_rule_active,
}
use lalaba_backend_showcase.Fees.Seeds.{seeded, default_rules, seed_default_rules}
use lalaba_backend_showcase.Fees.History.{
  superseded-key, IsVersioned, Stands, Stands-append, Stands-superseded, appended-IsVersioned,
  superseded-IsVersioned,
}
use lalaba_backend_showcase.Fees.Tops.{exists-Mem, newest-tops}

module _ (d : Doubles) (is_blank : String → Bool) (lowered : String → Text) where
  pub data AdminCall : Type 0 where
    create : SavePlatformFeeRuleInput d → AdminCall
    update : Text → SavePlatformFeeRuleInput d → AdminCall
    switch : Text → Bool → ℕ → AdminCall
    seed : List (PlatformFeeConfig d) → ℕ → AdminCall

  unfoldable pub run : AdminCall → List (PlatformFeeRule d) → List (PlatformFeeRule d)
  unfolding create_rule update_rule set_rule_active seed_default_rules
  run (create input) rules = (create_rule d is_blank lowered input rules).1
  run (update key input) rules = (update_rule d is_blank lowered key input rules).1
  run (switch key is_active now) rules =
      (set_rule_active d is_blank lowered key is_active now rules).1
  run (seed configs now) rules = (seed_default_rules d is_blank lowered configs now rules).1

  unfoldable pub run_all : List AdminCall → List (PlatformFeeRule d) → List (PlatformFeeRule d)
  unfolding run
  run_all [] rules = rules
  run_all (c ∷ cs) rules = run_all cs (run c rules)

  -- The index stays unique, and what was published stands.
  pub record Grown (rules rules' : List (PlatformFeeRule d)) : Type 0 where
    pub versioned : IsVersioned d rules → IsVersioned d rules'
    pub stands :
        (key : Text) (v : ℕ) (t : SavePlatformFeeRuleInput d)
        → Stands d key v t rules
        → Stands d key v t rules'
    pub exists :
        (key : Text)
        → exists_rule d is_blank lowered key rules ≡ true
        → exists_rule d is_blank lowered key rules' ≡ true

  same : (rules : List (PlatformFeeRule d)) → Grown rules rules
  same rules = record { versioned = λ u. u; stands = λ key v t s. s; exists = λ key e. e }

  then-Grown : (a b c : List (PlatformFeeRule d)) → Grown a b → Grown b c → Grown a c
  then-Grown a b c f g = record {
    versioned = λ u. g.versioned (f.versioned u);
    stands = λ key v t s. g.stands key v t (f.stands key v t s);
    exists = λ key e. g.exists key (f.exists key e);
  }

  exists-append :
      (key : Text) (rs new : List (PlatformFeeRule d))
      → exists_rule d is_blank lowered key rs ≡ true
      → exists_rule d is_blank lowered key (rs ++ new) ≡ true
  exists-append key [] new h = cc
  exists-append key (x ∷ xs) new h = ground (arith, exists-append key xs new)

  exists-superseded :
      (key : Text) (current : PlatformFeeRule d) (rs : List (PlatformFeeRule d))
      → exists_rule d is_blank lowered key rs ≡ true
      → exists_rule d is_blank lowered key (map (superseded d is_blank lowered current) rs) ≡ true
  exists-superseded key current [] h = cc
  exists-superseded key current (x ∷ xs) h =
      ground (arith, exists-superseded key current xs, superseded-key d is_blank lowered current x)

  added :
      (r : PlatformFeeRule d) (rules : List (PlatformFeeRule d))
      → ((y : PlatformFeeRule d)
          → Memᴰ y rules
          → y.rule_key ≡ r.rule_key
          → y.version ≡ r.version
          → ⊥)
      → Grown rules (rules ++ r ∷ [])
  added r rules fresh = record {
    versioned = λ u. appended-IsVersioned d is_blank lowered r rules u fresh;
    stands = λ key v t s. Stands-append d key v t rules (r ∷ []) s;
    exists = λ key e. exists-append key rules (r ∷ []) e;
  }

  marked :
      (current : PlatformFeeRule d) (rules : List (PlatformFeeRule d))
      → Grown rules (map (superseded d is_blank lowered current) rules)
  marked current rules = record {
    versioned = λ u. superseded-IsVersioned d is_blank lowered current rules u;
    stands = λ key v t s. Stands-superseded d is_blank lowered key v t current rules s;
    exists = λ key e. exists-superseded key current rules e;
  }

  create-Grown :
      (input : SavePlatformFeeRuleInput d) (rules : List (PlatformFeeRule d))
      → Grown rules (create_rule d is_blank lowered input rules).1
  unfolding create_rule
  create-Grown input rules = elim (Option-cases (validate_rule d is_blank input.draft)) [
    | inr (fault, e) ↦ rw (create_rule, e) (same rules)
    | inl e ↦
        let key = fee_rule_key_for lowered input.draft.name input.applies_to in
        elim (Bool-cases (exists_rule d is_blank lowered key rules)) [
          | inl taken ↦ rw (create_rule, e, taken) (same rules)
          | inr free ↦
              rw (create_rule, e, free)
                (added (version_of d is_blank lowered key 1 input) rules
                  (λ y m k v. exists-Mem d is_blank lowered key rules y free m k))
        ]
  ]

  publish-Grown :
      (input : SavePlatformFeeRuleInput d) (key : Text) (current : PlatformFeeRule d)
      (rules : List (PlatformFeeRule d))
      → newest_version d is_blank lowered key rules ≡ some current
      → Grown rules (publish_next d is_blank lowered key input current rules).1
  publish-Grown input key current rules newest =
      elim (Bool-cases (role_index input.applies_to == role_index current.terms.applies_to)) [
        | inr other ↦ rw other (same rules)
        | inl payer ↦
            elim (Bool-cases
              (category_index input.category == category_index current.terms.category)) [
                | inr other ↦ rw (payer, other) (same rules)
                | inl category ↦
                    let r = version_of d is_blank lowered key (current.version + 1) input in
                    rw (payer, category)
                      (then-Grown rules (rules ++ r ∷ []) _ (added r rules fresh)
                        (marked current (rules ++ r ∷ [])))
              ]
      ]
    where
      fresh :
          (y : PlatformFeeRule d)
          → Memᴰ y rules
          → y.rule_key ≡ key
          → y.version ≡ current.version + 1
          → ⊥
      fresh y m k v =
          let low = newest-tops d is_blank lowered key rules current y newest m k in
          omega (arith, low, v)

  update-Grown :
      (key : Text) (input : SavePlatformFeeRuleInput d) (rules : List (PlatformFeeRule d))
      → Grown rules (update_rule d is_blank lowered key input rules).1
  unfolding update_rule
  update-Grown key input rules = elim (Option-cases (validate_rule d is_blank input.draft)) [
    | inr (fault, e) ↦ rw (update_rule, e) (same rules)
    | inl e ↦ elim (Option-cases (newest_version d is_blank lowered key rules)) [
      | inl missing ↦ rw (update_rule, e, missing) (same rules)
      | inr (current, newest) ↦
          rw (update_rule, e, newest) (publish-Grown input key current rules newest)
    ]
  ]

  -- What a seed adds for a rule of its list.
  pub seed_one-Grown :
      (def : SavePlatformFeeRuleInput d) (rules : List (PlatformFeeRule d))
      → let key = fee_rule_key_for lowered def.draft.name def.applies_to in
        Grown rules (
          if exists_rule d is_blank lowered key rules
          then rules
          else rules ++ version_of d is_blank lowered key 1 def ∷ [])
  seed_one-Grown def rules =
      let key = fee_rule_key_for lowered def.draft.name def.applies_to in
      elim (Bool-cases (exists_rule d is_blank lowered key rules)) [
        | inl taken ↦ rw taken (same rules)
        | inr free ↦ rw free (
            added (version_of d is_blank lowered key 1 def) rules
              (λ y m k v. exists-Mem d is_blank lowered key rules y free m k))
      ]

  pub seeded-Grown :
      (defs : List (SavePlatformFeeRuleInput d)) (rules : List (PlatformFeeRule d))
      → Grown rules (seeded d is_blank lowered defs rules).1
  seeded-Grown [] rules = same rules
  seeded-Grown (def ∷ defs) rules =
      then-Grown rules _ _ (seed_one-Grown def rules) (seeded-Grown defs _)

  run-Grown : (c : AdminCall) (rules : List (PlatformFeeRule d)) → Grown rules (run c rules)
  unfolding run set_rule_active seed_default_rules
  run-Grown (create input) rules = create-Grown input rules
  run-Grown (update key input) rules = update-Grown key input rules
  run-Grown (switch key is_active now) rules =
      elim (Option-cases (newest_version d is_blank lowered key rules)) [
        | inl missing ↦ rw (run, set_rule_active, missing) (same rules)
        | inr (current, newest) ↦
            rw (run, set_rule_active, newest)
              (update-Grown current.rule_key (switched d is_blank lowered is_active now current)
                rules)
      ]
  run-Grown (seed configs now) rules =
      seeded-Grown (default_rules d is_blank lowered (legacy_fee_percent d now configs) now) rules

  pub run_all-Grown :
      (cs : List AdminCall) (rules : List (PlatformFeeRule d)) → Grown rules (run_all cs rules)
  unfolding run_all
  run_all-Grown [] rules = same rules
  run_all-Grown (c ∷ cs) rules =
      then-Grown rules (run c rules) (run_all cs (run c rules)) (run-Grown c rules)
        (run_all-Grown cs (run c rules))
