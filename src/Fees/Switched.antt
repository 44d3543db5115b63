-- ===== src/Fees/Switched.antt =====
-- The stored versions after a switch, and the version that was scheduled
-- (`setRuleActive` of src/platform-fee/platform-fee.service.ts).
use Prim.Native.String.{String}
use mathlib.Core.List.{Memᴰ}
use mathlib.Core.List.Memᴰ
use lalaba_backend_showcase.Base.{
  ℕ, ◌+◌, ◌≤◌, ◌<◌, ◌≡◌, refl, sym, ap, ◌∙◌, ◌⊎◌, Bool, true, some, List, [], ◌∷◌, ◌++◌, map, ◌==◌,
  ==_iff, arith, inl, inr, Option-cases, subst,
}
use lalaba_backend_showcase.Booking.Time.{Text}
use lalaba_backend_showcase.Pricing.Doubles.{Doubles}
use lalaba_backend_showcase.Fees.Rules.{validate_rule}
use lalaba_backend_showcase.Fees.Versions.{
  SavePlatformFeeRuleInput, PlatformFeeRule, role_index, category_index,
}
use lalaba_backend_showcase.Fees.Admin.{
  Published, invalid, published, newest_version, version_of, superseded, update_rule, switched,
  set_rule_active,
}
use lalaba_backend_showcase.Fees.History.{superseded-terms, superseded-key}
use lalaba_backend_showcase.Fees.Tops.{newest-Mem}

module _ (d : Doubles) (is_blank : String → Bool) (lowered : String → Text) where
  abbrev Result : Type 0
  Result = Published d is_blank lowered × List (PlatformFeeRule d)

  -- The stored versions after a switch that was published.
  unfoldable pub after_switch :
      Bool → ℕ → PlatformFeeRule d → List (PlatformFeeRule d) → List (PlatformFeeRule d)
  after_switch is_active now current rules = map (superseded d is_blank lowered current) (
      rules
      ++ version_of d is_blank lowered current.rule_key (current.version + 1)
          (switched d is_blank lowered is_active now current)
        ∷ [])

  pub switched-rules :
      (key : Text) (is_active : Bool) (now : ℕ) (rules rules' : List (PlatformFeeRule d))
      (current r : PlatformFeeRule d)
      → newest_version d is_blank lowered key rules ≡ some current
      → set_rule_active d is_blank lowered key is_active now rules ≡ (published r, rules')
      → (r.terms ≡ switched d is_blank lowered is_active now current)
        × (rules' ≡ after_switch is_active now current rules)
  unfolding set_rule_active update_rule after_switch
  switched-rules key is_active now rules rules' current r newest done =
      let own = (newest-Mem d is_blank lowered key rules current newest).1 in
      let again : newest_version d is_blank lowered current.rule_key rules ≡ some current =
        ap (λ k. newest_version d is_blank lowered k rules) own ∙ newest in
      let payer : (role_index current.terms.applies_to == role_index current.terms.applies_to)
          ≡ true =
        (==_iff (role_index current.terms.applies_to) _).1 refl in
      let category : (category_index current.terms.category
            == category_index current.terms.category)
          ≡ true =
        (==_iff (category_index current.terms.category) _).1 refl in
      elim (Option-cases
        (validate_rule d is_blank (switched d is_blank lowered is_active now current).draft)) [
          | inl valid ↦
              let ran : set_rule_active d is_blank lowered key is_active now rules ≡ (
                published (
                    version_of d is_blank lowered current.rule_key (current.version + 1)
                      (switched d is_blank lowered is_active now current)),
                after_switch is_active now current rules,
              ) =
                rw (set_rule_active, newest, update_rule, valid, again, payer, category) refl in
              let same = sym ran ∙ done in
              let is_r : version_of d is_blank lowered current.rule_key (current.version + 1)
                    (switched d is_blank lowered is_active now current)
                  ≡ r =
                cc (ap (λ (x : Result). x.0) same) in
              (
                ap (λ (z : PlatformFeeRule d). z.terms) (sym is_r),
                sym (ap (λ (x : Result). x.1) same),
              )
          | inr (fault, e) ↦
              let ran : set_rule_active d is_blank lowered key is_active now rules
                  ≡ (invalid fault, rules) =
                rw (set_rule_active, newest, update_rule, e) refl in
              cc (ap (λ (x : Result). x.0) (sym ran ∙ done))
        ]

  -- A version of the key that starts as late as the scheduled one is the scheduled one.
  pub scheduled_alone :
      (is_active : Bool) (now : ℕ) (rules : List (PlatformFeeRule d))
      (current x : PlatformFeeRule d)
      → now < current.terms.draft.effective_from
      → ((y : PlatformFeeRule d)
          → Memᴰ y rules
          → y.rule_key ≡ current.rule_key
          → (y ≡ current) ⊎ (y.terms.draft.effective_from ≤ now))
      → Memᴰ x (after_switch is_active now current rules)
      → x.rule_key ≡ current.rule_key
      → current.terms.draft.effective_from ≤ x.terms.draft.effective_from
      → x.terms ≡ current.terms
  unfolding after_switch
  scheduled_alone is_active now rules current x later alone m key late =
      let mark = superseded d is_blank lowered current in
      let (y, there, marks) = Memᴰ.of_map mark _ m in
      let terms : x.terms ≡ y.terms =
        ap (λ (z : PlatformFeeRule d). z.terms) (sym marks)
        ∙ superseded-terms d is_blank lowered current y in
      let y_key : y.rule_key ≡ current.rule_key =
        sym (superseded-key d is_blank lowered current y)
        ∙ ap (λ (z : PlatformFeeRule d). z.rule_key) marks
        ∙ key in
      let y_late : current.terms.draft.effective_from ≤ y.terms.draft.effective_from =
        subst
          (λ (t : SavePlatformFeeRuleInput d).
            current.terms.draft.effective_from ≤ t.draft.effective_from)
          terms late in
      elim (Memᴰ.append_cases rules there) [
        | inr new ↦
            let is_new =
              ap (λ (z : PlatformFeeRule d). z.terms.draft.effective_from)
                (Memᴰ.eq_of_singleton new) in
            absurd (omega (arith, y_late, is_new, later))
        | inl old ↦ elim (alone y old y_key) [
          | inl is_current ↦ terms ∙ ap (λ (z : PlatformFeeRule d). z.terms) is_current
          | inr early ↦ absurd (omega (arith, y_late, early, later))
        ]
      ]
