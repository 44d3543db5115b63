-- ===== src/Fees/InForce.antt =====
-- Which version of a fee rule is in force (`resolveRule` of src/platform-fee/platform-fee.service.ts).
use mathlib.Core.List.{Memᴰ}
use lalaba_backend_showcase.Base.{ℕ, ◌≡◌, refl, ◌∙◌, true, false, none, some, List, [], filter}
use lalaba_backend_showcase.Pricing.Doubles.{Doubles}
use lalaba_backend_showcase.Fees.Rules.{FeePayerRole}
use lalaba_backend_showcase.Fees.Versions.{
  FeeCategory, PlatformFeeRule, is_started, as_new, newest_first, in_effect, resolve_rule,
}
use lalaba_backend_showcase.Fees.Newest.{sorted-NewestFirst, sorted-Mem, Mem-sorted}
use lalaba_backend_showcase.Fees.Scan.{scan, nothing_in_effect}

module _ (d : Doubles) (payer : FeePayerRole) (category : FeeCategory) (at : ℕ)
    (rules : List (PlatformFeeRule d)) where
  -- A stored version for the payer and the category that started, and the newest of its key.
  pub record IsNewest (r : PlatformFeeRule d) : Type 0 where
    pub stored : Memᴰ r rules
    pub started : is_started d payer category at r ≡ true
    pub newest :
        (y : PlatformFeeRule d)
        → Memᴰ y rules
        → is_started d payer category at y ≡ true
        → y.rule_key ≡ r.rule_key
        → as_new d r y ≡ true

  -- What is returned is the newest of its key, and where nothing is, no newest version is in effect.
  pub resolve_rule-IsNewest :
      ((r : PlatformFeeRule d)
        → resolve_rule d payer category at rules ≡ some r
        → (in_effect d at r ≡ true) × IsNewest r)
      × (resolve_rule d payer category at rules ≡ none
          → (y : PlatformFeeRule d) → Memᴰ y rules
          → is_started d payer category at y ≡ true
          → (x : PlatformFeeRule d) × IsNewest x
            × (x.rule_key ≡ y.rule_key)
            × (in_effect d at x ≡ false))
  unfolding resolve_rule
  resolve_rule-IsNewest = (
    λ r h.
        let (there, live, new, newest) =
          scan d at [] (newest_first d candidates) r (sorted-NewestFirst d candidates) h in
        let (stored, started) = sorted-Mem d (is_started d payer category at) r rules there in
        (
          live,
          record {
            stored = stored;
            started = started;
            newest = λ y m s same. newest y (candidate y m s) same;
          },
        ),
    λ h y m s.
        let (x, there, same, newest, dead) =
          nothing_in_effect d at [] (newest_first d candidates) y (sorted-NewestFirst d candidates)
            h (candidate y m s) refl in
        let (stored, started) = sorted-Mem d (is_started d payer category at) x rules there in
        (
          x,
          record {
            stored = stored;
            started = started;
            newest = λ z m' s' key. newest z (candidate z m' s') (key ∙ same);
          },
          same,
          dead,
        ),
  )
    where
      candidates : List (PlatformFeeRule d)
      candidates = filter (is_started d payer category at) rules

      candidate :
          (y : PlatformFeeRule d)
          → Memᴰ y rules
          → is_started d payer category at y ≡ true
          → Memᴰ y (newest_first d candidates)
      candidate y m s = Mem-sorted d (is_started d payer category at) y rules m s
