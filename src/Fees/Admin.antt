-- ===== src/Fees/Admin.antt =====
-- What administrators publish: every write adds a version of a fee rule
-- (`createRule`, `updateRule` and `setRuleActive` of src/platform-fee/platform-fee.service.ts).
use Prim.Native.String.{String}
use lalaba_backend_showcase.Base.{
  ℕ, ◌+◌, Bool, false, not, ◌&&◌, ◌||◌, Option, none, some, List, [], ◌∷◌, ◌++◌, map, ◌==◌, leb,
  if◌then◌else◌,
}
use lalaba_backend_showcase.Booking.Time.{Text}
use lalaba_backend_showcase.Pricing.Doubles.{Doubles}
use lalaba_backend_showcase.Fees.Keys.{fee_rule_key_for, same_text}
use lalaba_backend_showcase.Fees.Rules.{RuleFault, validate_rule}
use lalaba_backend_showcase.Fees.Versions.{
  SavePlatformFeeRuleInput, PlatformFeeRule, role_index, category_index,
}

module _ (d : Doubles) (is_blank : String → Bool) (lowered : String → Text) where
  -- The version that was published, or why nothing was.
  pub data Published : Type 0 where
    invalid : RuleFault d → Published
    name_taken no_such_rule other_payer other_category : Published
    published : PlatformFeeRule d → Published

  abbrev pub exists_rule : Text → List (PlatformFeeRule d) → Bool
  exists_rule key [] = false
  exists_rule key (r ∷ rs) = same_text r.rule_key key || exists_rule key rs

  -- `findOne({ ruleKey }).sort({ version: -1 })`
  unfoldable pub newest_version : Text → List (PlatformFeeRule d) → Option (PlatformFeeRule d)
  newest_version key [] = none
  newest_version key (r ∷ rs) =
      let best = newest_version key rs in
      if same_text r.rule_key key
      then (elim best [
        | none ↦ some r
        | some b ↦ if leb b.version r.version then some r else some b
      ])
      else best

  abbrev pub version_of : Text → ℕ → SavePlatformFeeRuleInput d → PlatformFeeRule d
  version_of key version input = record {
    rule_key = key;
    version = version;
    terms = input;
    superseded_by_version = none;
  }

  unfoldable pub create_rule :
      SavePlatformFeeRuleInput d → List (PlatformFeeRule d) → Published × List (PlatformFeeRule d)
  unfolding validate_rule fee_rule_key_for
  create_rule input rules = elim (validate_rule d is_blank input.draft) [
    | some fault ↦ (invalid fault, rules)
    | none ↦
        let key = fee_rule_key_for lowered input.draft.name input.applies_to in
        let r = version_of key 1 input in
        if exists_rule key rules then (name_taken, rules) else (published r, rules ++ r ∷ [])
  ]

  -- `updateOne({ _id })` of the version that is superseded.
  abbrev pub superseded : PlatformFeeRule d → PlatformFeeRule d → PlatformFeeRule d
  superseded current r =
      if same_text r.rule_key current.rule_key && (r.version == current.version)
      then record r { superseded_by_version = some (current.version + 1) }
      else r

  abbrev pub publish_next :
      Text
      → SavePlatformFeeRuleInput d
      → PlatformFeeRule d
      → List (PlatformFeeRule d)
      → Published × List (PlatformFeeRule d)
  publish_next key input current rules =
      let r = version_of key (current.version + 1) input in
      if not (role_index input.applies_to == role_index current.terms.applies_to)
      then (other_payer, rules)
      else if not (category_index input.category == category_index current.terms.category)
      then (other_category, rules)
      else (published r, map (superseded current) (rules ++ r ∷ []))

  unfoldable pub update_rule :
      Text
      → SavePlatformFeeRuleInput d
      → List (PlatformFeeRule d)
      → Published × List (PlatformFeeRule d)
  unfolding validate_rule newest_version
  update_rule key input rules = elim (validate_rule d is_blank input.draft) [
    | some fault ↦ (invalid fault, rules)
    | none ↦ elim (newest_version key rules) [
      | none ↦ (no_such_rule, rules)
      | some current ↦ publish_next key input current rules
    ]
  ]

  -- The newest version again, with the switch set and from now on.
  abbrev pub switched : Bool → ℕ → PlatformFeeRule d → SavePlatformFeeRuleInput d
  switched is_active now r = record r.terms {
    draft = record r.terms.draft { effective_from = now };
    is_active = is_active;
  }

  unfoldable pub set_rule_active :
      Text → Bool → ℕ → List (PlatformFeeRule d) → Published × List (PlatformFeeRule d)
  unfolding update_rule
  set_rule_active key is_active now rules = elim (newest_version key rules) [
    | none ↦ (no_such_rule, rules)
    | some current ↦ update_rule current.rule_key (switched is_active now current) rules
  ]
