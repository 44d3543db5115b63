-- ===== src/Fees/Snapshots.antt =====
-- The rule that an order was priced by, and what administrators publish after it
-- (src/platform-fee/platform-fee.service.ts).
use Prim.Native.String.{String}
use mathlib.Core.List.{Memᴰ}
use mathlib.Core.List.Memᴰ
use lalaba_backend_showcase.Base.{
  ℕ, ◌≡◌, refl, sym, ap, ◌∙◌, Bool, true, ◌&&◌, some, List, [], ◌∷◌, ◌==◌, or_else, arith, inl, inr,
  Bool-cases, Option-cases, subst,
}
use lalaba_backend_showcase.Booking.Time.{Text}
use lalaba_backend_showcase.Policy.Provider.{ProviderType}
use lalaba_backend_showcase.Pricing.Doubles.{Doubles}
use lalaba_backend_showcase.Fees.Keys.{same_text, same_text_refl, same_text-eq}
use lalaba_backend_showcase.Fees.Rules.{payer_role_for_provider_type}
use lalaba_backend_showcase.Fees.Versions.{
  SavePlatformFeeRuleInput, PlatformFeeRule, commission, is_fixed, PlatformFeeConfig, resolve_rule,
  resolve_commission_snapshot,
}
use lalaba_backend_showcase.Fees.InForce.{resolve_rule-IsNewest}
use lalaba_backend_showcase.Fees.History.{find_version, IsVersioned, Stands}
use lalaba_backend_showcase.Fees.Calls.{AdminCall, run_all, run_all-Grown}

module _ (d : Doubles) (is_blank : String → Bool) (lowered : String → Text) where
  open d use {of_nat}

  Mem-find :
      (r : PlatformFeeRule d) (rs : List (PlatformFeeRule d))
      → Memᴰ r rs
      → (r' : PlatformFeeRule d) × (find_version d r.rule_key r.version rs ≡ some r')
        × Memᴰ r' rs
        × (r'.rule_key ≡ r.rule_key)
        × (r'.version ≡ r.version)
  unfolding find_version
  Mem-find r [] m = absurd (Memᴰ.not-nil m)
  Mem-find r (x ∷ xs) m =
      elim (Bool-cases (same_text x.rule_key r.rule_key && (x.version == r.version))) [
        | inl e ↦ (
          x,
          rw e refl,
          Memᴰ.head refl,
          same_text-eq x.rule_key r.rule_key (ground (arith, e)),
          ground (arith, e),
        )
        | inr e ↦ elim (Memᴰ.cases_cons m) [
          | inl here ↦
              let hit : (same_text x.rule_key r.rule_key && (x.version == r.version)) ≡ true =
                subst
                  (λ (z : PlatformFeeRule d).
                    (same_text z.rule_key r.rule_key && (z.version == r.version)) ≡ true)
                  here (ground (arith, same_text_refl r.rule_key)) in
              cc
          | inr later ↦
              let (r', there, in_xs, key, version) = Mem-find r xs later in
              (r', rw e there, Memᴰ.tail in_xs, key, version)
        ]
      ]

  stored-Stands :
      (r : PlatformFeeRule d) (rs : List (PlatformFeeRule d))
      → IsVersioned d rs
      → Memᴰ r rs
      → Stands d r.rule_key r.version r.terms rs
  stored-Stands r rs u m =
      let (r', there, in_rs, key, version) = Mem-find r rs m in
      (r', there, ap (λ (z : PlatformFeeRule d). z.terms) (u r' r in_rs m key version))

  -- The rule that a snapshot names is the one that was resolved.
  named :
      (type : ProviderType) (at now : ℕ) (rules : List (PlatformFeeRule d))
      (configs : List (PlatformFeeConfig d)) (key : Text) (v : ℕ)
      → (resolve_commission_snapshot d type at now rules configs).rule_key ≡ some key
      → (resolve_commission_snapshot d type at now rules configs).rule_version ≡ some v
      → (r : PlatformFeeRule d) × Memᴰ r rules
        × (r.rule_key ≡ key)
        × (r.version ≡ v)
        × (or_else r.terms.draft.percent (of_nat 0)
            ≡ (resolve_commission_snapshot d type at now rules configs).percent)
  unfolding resolve_commission_snapshot
  named type at now rules configs key v k version =
      elim (Option-cases (resolve_rule d (payer_role_for_provider_type type) commission at rules)) [
        | inl e ↦ ground (arith, e, k)
        | inr (r, e) ↦ elim (Bool-cases (is_fixed r.terms.draft.calculation_type)) [
          | inl amount ↦ ground (arith, e, amount, k)
          | inr rate ↦
              let decided =
                resolve_rule-IsNewest d (payer_role_for_provider_type type) commission at rules in
              (
                r,
                (decided.0 r e).1.stored,
                ground (arith, e, rate, k),
                ground (arith, e, rate, version),
                rw (e, rate) refl,
              )
        ]
      ]

  -- The rate of an order can be explained later: where the keys and versions of the stored rules are
  -- unique, and a snapshot of the commission names a rule, then whatever administrators create,
  -- update and switch after that, in any sequence, also where they are refused, the keys and versions
  -- are unique again, and under the key and the version of the snapshot stands a rule whose rate is
  -- the one in the snapshot.
  pub snapshot_stays_explained :
      (cs : List (AdminCall d is_blank lowered)) (type : ProviderType) (at now : ℕ)
      (rules : List (PlatformFeeRule d)) (configs : List (PlatformFeeConfig d)) (key : Text) (v : ℕ)
      → IsVersioned d rules
      → (resolve_commission_snapshot d type at now rules configs).rule_key ≡ some key
      → (resolve_commission_snapshot d type at now rules configs).rule_version ≡ some v
      → IsVersioned d (run_all d is_blank lowered cs rules)
        × (r : PlatformFeeRule d) × (find_version d key v (run_all d is_blank lowered cs rules)
            ≡ some r)
        × (or_else r.terms.draft.percent (of_nat 0)
            ≡ (resolve_commission_snapshot d type at now rules configs).percent)
  snapshot_stays_explained cs type at now rules configs key v u k version =
      let grown = run_all-Grown d is_blank lowered cs rules in
      let (r, stored, own, own_version, rate) = named type at now rules configs key v k version in
      let (r', there, same) =
        grown.stands r.rule_key r.version r.terms (stored-Stands r rules u stored) in
      (
        grown.versioned u,
        r',
        ap (λ k'. find_version d k' v (run_all d is_blank lowered cs rules)) (sym own)
            ∙ ap (λ v'. find_version d r.rule_key v' (run_all d is_blank lowered cs rules))
                (sym own_version)
            ∙ there,
        ap (λ (t : SavePlatformFeeRuleInput d). or_else t.draft.percent (of_nat 0)) same ∙ rate,
      )
