-- ===== src/Fees/Switch.antt =====
-- A fee rule that is switched off while a change of it is scheduled
-- (`setRuleActive` of src/platform-fee/platform-fee.service.ts).
use Prim.Native.String.{String}
use mathlib.Core.List.{Memᴰ}
use mathlib.Core.List.Memᴰ
use lalaba_backend_showcase.Base.{
  ℕ, ◌≤◌, ◌<◌, ◌≡◌, sym, ap, ◌∙◌, ◌⊎◌, Bool, true, false, ◌&&◌, some, List, ◌==◌, leb, arith, inl,
  inr, Option-cases, subst,
}
use lalaba_backend_showcase.Booking.Time.{Text}
use lalaba_backend_showcase.Pricing.Doubles.{Doubles}
use lalaba_backend_showcase.Fees.Rules.{FeePayerRole, is_rule_in_effect}
use lalaba_backend_showcase.Fees.Versions.{
  FeeCategory, SavePlatformFeeRuleInput, PlatformFeeRule, is_started, in_effect, as_new,
  resolve_rule, role_index, category_index,
}
use lalaba_backend_showcase.Fees.Admin.{published, newest_version, superseded, set_rule_active}
use lalaba_backend_showcase.Fees.InForce.{IsNewest, resolve_rule-IsNewest}
use lalaba_backend_showcase.Fees.History.{superseded-terms, superseded-key}
use lalaba_backend_showcase.Fees.Tops.{newest-Mem}
use lalaba_backend_showcase.Fees.Switched.{after_switch, switched-rules, scheduled_alone}

module _ (d : Doubles) (is_blank : String → Bool) (lowered : String → Text) where
  mark-started :
      (current y : PlatformFeeRule d) (payer : FeePayerRole) (category : FeeCategory) (at : ℕ)
      → is_started d payer category at (superseded d is_blank lowered current y)
        ≡ is_started d payer category at y
  mark-started current y payer category at =
      ap
        (λ (t : SavePlatformFeeRuleInput d).
          (role_index t.applies_to == role_index payer)
          && (category_index t.category == category_index category)
          && leb t.draft.effective_from at)
        (superseded-terms d is_blank lowered current y)

  as_new-late :
      (x y : PlatformFeeRule d)
      → as_new d x y ≡ true
      → y.terms.draft.effective_from ≤ x.terms.draft.effective_from
  as_new-late x y h = ground arith

  in_force_again :
      (is_active : Bool) (now : ℕ) (rules : List (PlatformFeeRule d)) (current : PlatformFeeRule d)
      → Memᴰ current rules
      → in_effect d current.terms.draft.effective_from current ≡ true
      → now < current.terms.draft.effective_from
      → ((y : PlatformFeeRule d)
          → Memᴰ y rules
          → y.rule_key ≡ current.rule_key
          → (y ≡ current) ⊎ (y.terms.draft.effective_from ≤ now))
      → ((y : PlatformFeeRule d)
          → Memᴰ y rules
          → is_started d current.terms.applies_to current.terms.category
              current.terms.draft.effective_from y
            ≡ true
          → y.rule_key ≡ current.rule_key)
      → (x : PlatformFeeRule d) × (resolve_rule d current.terms.applies_to current.terms.category
            current.terms.draft.effective_from
            (after_switch d is_blank lowered is_active now current rules)
          ≡ some x)
        × (x.rule_key ≡ current.rule_key)
        × (x.terms ≡ current.terms)
  unfolding after_switch is_rule_in_effect
  in_force_again is_active now rules current stored live later alone only =
      elim (Option-cases (resolve_rule d payer category start after)) [
        | inr (x, e) ↦
            let (lives, n) = (resolve_rule-IsNewest d payer category start after).0 x e in
            let key = own x n in (x, e, key, alone_after x n key)
        | inl e ↦
            let (x, n, key, dead) =
              (resolve_rule-IsNewest d payer category start after).1 e (mark current) marked_stored
                marked_started in
            let x_key = key ∙ superseded-key d is_blank lowered current current in
            let terms = alone_after x n x_key in
            let lives : in_effect d start x ≡ true =
              ap (λ (t : SavePlatformFeeRuleInput d). is_rule_in_effect d t.is_active t.draft start)
                terms
              ∙ live in
            cc
      ]
    where
      payer : FeePayerRole
      payer = current.terms.applies_to

      category : FeeCategory
      category = current.terms.category

      start : ℕ
      start = current.terms.draft.effective_from

      after : List (PlatformFeeRule d)
      after = after_switch d is_blank lowered is_active now current rules

      mark : PlatformFeeRule d → PlatformFeeRule d
      mark = superseded d is_blank lowered current

      marked_stored : Memᴰ (mark current) after
      marked_stored = Memᴰ.map mark (Memᴰ.append_left _ stored)

      marked_started : is_started d payer category start (mark current) ≡ true
      marked_started = mark-started current current payer category start ∙ ground arith

      own :
          (x : PlatformFeeRule d)
          → IsNewest d payer category start after x
          → x.rule_key ≡ current.rule_key
      own x n =
          let (y, there, marks) = Memᴰ.of_map mark _ n.stored in
          let same_key : x.rule_key ≡ y.rule_key =
            ap (λ (z : PlatformFeeRule d). z.rule_key) (sym marks)
            ∙ superseded-key d is_blank lowered current y in
          let y_started : is_started d payer category start y ≡ true =
            sym (mark-started current y payer category start)
            ∙ ap (is_started d payer category start) marks
            ∙ n.started in
          elim (Memᴰ.append_cases rules there) [
            | inl old ↦ same_key ∙ only y old y_started
            | inr new ↦
                same_key ∙ ap (λ (z : PlatformFeeRule d). z.rule_key) (Memᴰ.eq_of_singleton new)
          ]

      alone_after :
          (x : PlatformFeeRule d)
          → IsNewest d payer category start after x
          → x.rule_key ≡ current.rule_key
          → x.terms ≡ current.terms
      alone_after x n key =
          let newer =
            n.newest (mark current) marked_stored marked_started
              (superseded-key d is_blank lowered current current ∙ sym key) in
          let late =
            subst
              (λ (t : SavePlatformFeeRuleInput d).
                t.draft.effective_from ≤ x.terms.draft.effective_from)
              (superseded-terms d is_blank lowered current current)
              (as_new-late x (mark current) newer) in
          scheduled_alone d is_blank lowered is_active now rules current x later alone n.stored key
            late

  -- A rule that is switched off does not stay off. Where the newest version of a rule is active and
  -- scheduled for later, the other versions of that rule start by now, and no other rule is for that
  -- payer and category: if the rule is switched off now, what is published is inactive, and yet at the
  -- time that was scheduled the rule is in force again, on the terms of the scheduled version.
  pub deactivation_is_undone :
      (key : Text) (now : ℕ) (rules rules' : List (PlatformFeeRule d))
      (current r : PlatformFeeRule d)
      → newest_version d is_blank lowered key rules ≡ some current
      → in_effect d current.terms.draft.effective_from current ≡ true
      → now < current.terms.draft.effective_from
      → ((y : PlatformFeeRule d)
          → Memᴰ y rules
          → y.rule_key ≡ current.rule_key
          → (y ≡ current) ⊎ (y.terms.draft.effective_from ≤ now))
      → ((y : PlatformFeeRule d)
          → Memᴰ y rules
          → is_started d current.terms.applies_to current.terms.category
              current.terms.draft.effective_from y
            ≡ true
          → y.rule_key ≡ current.rule_key)
      → set_rule_active d is_blank lowered key false now rules ≡ (published r, rules')
      → (r.terms.is_active ≡ false)
        × (x : PlatformFeeRule d) × (resolve_rule d current.terms.applies_to current.terms.category
              current.terms.draft.effective_from rules'
            ≡ some x)
        × (x.rule_key ≡ current.rule_key)
        × (x.terms ≡ current.terms)
  deactivation_is_undone key now rules rules' current r newest live later alone only done =
      let (terms, after) =
        switched-rules d is_blank lowered key false now rules rules' current r newest done in
      let (x, e, key', terms') =
        in_force_again false now rules current
          (newest-Mem d is_blank lowered key rules current newest).0 live later alone only in
      (
        ap (λ (t : SavePlatformFeeRuleInput d). t.is_active) terms,
        x,
        ap
              (λ rs.
                resolve_rule d current.terms.applies_to current.terms.category
                  current.terms.draft.effective_from rs)
              after
            ∙ e,
        key',
        terms',
      )
