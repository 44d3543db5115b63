-- ===== src/Fees/History.antt =====
-- Fee rules are only ever added to: what was published stays under its key and version
-- (src/platform-fee/platform-fee.service.ts).
use Prim.Native.String.{String}
use mathlib.Core.List.{Memᴰ}
use mathlib.Core.List.Memᴰ
use lalaba_backend_showcase.Base.{
  ℕ, ◌≡◌, refl, sym, ap, ◌∙◌, ◌⊎◌, inl, inr, Bool, ◌&&◌, Option, none, some, List, [], ◌∷◌, ◌++◌,
  map, ◌==◌, if◌then◌else◌, arith, Bool-cases,
}
use lalaba_backend_showcase.Booking.Time.{Text}
use lalaba_backend_showcase.Pricing.Doubles.{Doubles}
use lalaba_backend_showcase.Fees.Keys.{same_text}
use lalaba_backend_showcase.Fees.Versions.{SavePlatformFeeRuleInput, PlatformFeeRule}
use lalaba_backend_showcase.Fees.Admin.{superseded}

module _ (d : Doubles) where
  -- `findOne({ ruleKey, version })`
  unfoldable pub find_version : Text → ℕ → List (PlatformFeeRule d) → Option (PlatformFeeRule d)
  find_version key v [] = none
  find_version key v (r ∷ rs) =
      if same_text r.rule_key key && (r.version == v) then some r else find_version key v rs

  -- The index on the key and the version is unique.
  abbrev pub IsVersioned : List (PlatformFeeRule d) → Type 0
  IsVersioned rules =
      (x y : PlatformFeeRule d)
      → Memᴰ x rules
      → Memᴰ y rules
      → x.rule_key ≡ y.rule_key
      → x.version ≡ y.version
      → x ≡ y

  -- The terms that a key and a version stand for.
  abbrev pub Stands : Text → ℕ → SavePlatformFeeRuleInput d → List (PlatformFeeRule d) → Type 0
  Stands key v t rules =
      (r : PlatformFeeRule d) × (find_version key v rules ≡ some r) × (r.terms ≡ t)

  pub Stands-append :
      (key : Text) (v : ℕ) (t : SavePlatformFeeRuleInput d) (rs new : List (PlatformFeeRule d))
      → Stands key v t rs
      → Stands key v t (rs ++ new)
  unfolding find_version
  Stands-append key v t [] new (r, there, same) = cc
  Stands-append key v t (x ∷ xs) new (r, there, same) =
      elim (Bool-cases (same_text x.rule_key key && (x.version == v))) [
        | inl e ↦ (r, ground (arith, e, there), same)
        | inr e ↦
            let (r', there', same') =
              Stands-append key v t xs new (r, ground (arith, e, there), same) in
            (r', ground (arith, e, there'), same')
      ]

  module _ (is_blank : String → Bool) (lowered : String → Text) where
    pub superseded-key :
        (current r : PlatformFeeRule d)
        → (superseded d is_blank lowered current r).rule_key ≡ r.rule_key
    superseded-key current r = ground arith

    pub superseded-version :
        (current r : PlatformFeeRule d)
        → (superseded d is_blank lowered current r).version ≡ r.version
    superseded-version current r = ground arith

    pub superseded-terms :
        (current r : PlatformFeeRule d) → (superseded d is_blank lowered current r).terms ≡ r.terms
    superseded-terms current r = ground arith

    pub Stands-superseded :
        (key : Text) (v : ℕ) (t : SavePlatformFeeRuleInput d) (current : PlatformFeeRule d)
        (rs : List (PlatformFeeRule d))
        → Stands key v t rs
        → Stands key v t (map (superseded d is_blank lowered current) rs)
    unfolding find_version
    Stands-superseded key v t current [] (r, there, same) = cc
    Stands-superseded key v t current (x ∷ xs) (r, there, same) =
        elim (Bool-cases (same_text x.rule_key key && (x.version == v))) [
          | inl e ↦
              let is_x : x ≡ r = ground (arith, e, there) in
              (
                superseded d is_blank lowered current x,
                rw (superseded-key current x, superseded-version current x, e) refl,
                superseded-terms current x ∙ ap (λ (z : PlatformFeeRule d). z.terms) is_x ∙ same,
              )
          | inr e ↦
              let (r', there', same') =
                Stands-superseded key v t current xs (r, ground (arith, e, there), same) in
              (r', rw (superseded-key current x, superseded-version current x, e) there', same')
        ]

    pub appended-IsVersioned :
        (r : PlatformFeeRule d) (rs : List (PlatformFeeRule d))
        → IsVersioned rs
        → ((y : PlatformFeeRule d)
            → Memᴰ y rs
            → y.rule_key ≡ r.rule_key
            → y.version ≡ r.version
            → ⊥)
        → IsVersioned (rs ++ r ∷ [])
    appended-IsVersioned r rs u fresh x y mx my key version =
        go (Memᴰ.append_cases rs mx) (Memᴰ.append_cases rs my)
      where
        go : Memᴰ x rs ⊎ Memᴰ x (r ∷ []) → Memᴰ y rs ⊎ Memᴰ y (r ∷ []) → x ≡ y
        go (inl a) (inl b) = u x y a b key version
        go (inl a) (inr b) =
            let e = Memᴰ.eq_of_singleton b in
            absurd (
              fresh x a (key ∙ ap (λ (z : PlatformFeeRule d). z.rule_key) e)
                (version ∙ ap (λ (z : PlatformFeeRule d). z.version) e))
        go (inr a) (inl b) =
            let e = Memᴰ.eq_of_singleton a in
            absurd (
              fresh y b (sym key ∙ ap (λ (z : PlatformFeeRule d). z.rule_key) e)
                (sym version ∙ ap (λ (z : PlatformFeeRule d). z.version) e))
        go (inr a) (inr b) = Memᴰ.eq_of_singleton a ∙ sym (Memᴰ.eq_of_singleton b)

    pub superseded-IsVersioned :
        (current : PlatformFeeRule d) (rs : List (PlatformFeeRule d))
        → IsVersioned rs
        → IsVersioned (map (superseded d is_blank lowered current) rs)
    superseded-IsVersioned current rs u x y mx my key version =
        let f = superseded d is_blank lowered current in
        let (a, in_a, from_a) = Memᴰ.of_map f rs mx in
        let (b, in_b, from_b) = Memᴰ.of_map f rs my in
        let same_key : a.rule_key ≡ b.rule_key =
          sym (superseded-key current a)
          ∙ ap (λ (z : PlatformFeeRule d). z.rule_key) from_a
          ∙ key
          ∙ sym (ap (λ (z : PlatformFeeRule d). z.rule_key) from_b)
          ∙ superseded-key current b in
        let same_version : a.version ≡ b.version =
          sym (superseded-version current a)
          ∙ ap (λ (z : PlatformFeeRule d). z.version) from_a
          ∙ version
          ∙ sym (ap (λ (z : PlatformFeeRule d). z.version) from_b)
          ∙ superseded-version current b in
        sym from_a ∙ ap f (u a b in_a in_b same_key same_version) ∙ from_b
