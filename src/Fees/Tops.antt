-- ===== src/Fees/Tops.antt =====
-- The newest version of a key (`findOne({ ruleKey }).sort({ version: -1 })` of
-- src/platform-fee/platform-fee.service.ts).
use Prim.Native.String.{String}
use mathlib.Core.List.{Memᴰ}
use mathlib.Core.List.Memᴰ
use lalaba_backend_showcase.Base.{
  ◌≤◌, ◌≡◌, sym, ap, ◌∙◌, ◌⊎◌, inl, inr, Bool, true, false, none, some, List, [], ◌∷◌, leb, arith,
  Bool-cases, Option-cases, subst,
}
use lalaba_backend_showcase.Booking.Time.{Text}
use lalaba_backend_showcase.Pricing.Doubles.{Doubles}
use lalaba_backend_showcase.Fees.Keys.{same_text, same_text_refl, same_text-eq}
use lalaba_backend_showcase.Fees.Versions.{PlatformFeeRule}
use lalaba_backend_showcase.Fees.Admin.{exists_rule, newest_version}

module _ (d : Doubles) (is_blank : String → Bool) (lowered : String → Text) where
  -- A version of the key is not in a list where its head has another key, or it is further back.
  not_head :
      (key : Text) (x y : PlatformFeeRule d) (xs : List (PlatformFeeRule d))
      → same_text x.rule_key key ≡ false
      → Memᴰ y (x ∷ xs)
      → y.rule_key ≡ key
      → Memᴰ y xs
  not_head key x y xs other m e = elim (Memᴰ.cases_cons m) [
    | inr later ↦ later
    | inl here ↦
        let x_key : x.rule_key ≡ key = ap (λ (z : PlatformFeeRule d). z.rule_key) (sym here) ∙ e in
        let hit : same_text x.rule_key key ≡ true =
          subst (λ k. same_text x.rule_key k ≡ true) x_key (same_text_refl x.rule_key) in
        cc
  ]

  pub exists-Mem :
      (key : Text) (rs : List (PlatformFeeRule d)) (y : PlatformFeeRule d)
      → exists_rule d is_blank lowered key rs ≡ false
      → Memᴰ y rs
      → y.rule_key ≡ key
      → ⊥
  exists-Mem key [] y h m e = Memᴰ.not-nil m
  exists-Mem key (x ∷ xs) y h m e =
      exists-Mem key xs y (ground (arith, h)) (not_head key x y xs (ground (arith, h)) m e) e

  newest-none :
      (key : Text) (rs : List (PlatformFeeRule d)) (y : PlatformFeeRule d)
      → newest_version d is_blank lowered key rs ≡ none
      → Memᴰ y rs
      → y.rule_key ≡ key
      → ⊥
  unfolding newest_version
  newest-none key [] y h m e = Memᴰ.not-nil m
  newest-none key (x ∷ xs) y h m e =
      newest-none key xs y (ground (arith, h)) (not_head key x y xs (ground (arith, h)) m e) e

  -- The newest version is the head, which none behind it is above, or it is behind the head.
  newest-cons :
      (key : Text) (x : PlatformFeeRule d) (xs : List (PlatformFeeRule d))
      (current : PlatformFeeRule d)
      → newest_version d is_blank lowered key (x ∷ xs) ≡ some current
      → ((current ≡ x)
          × (x.rule_key ≡ key)
          × ((b : PlatformFeeRule d)
              → newest_version d is_blank lowered key xs ≡ some b
              → b.version ≤ x.version))
        ⊎ ((newest_version d is_blank lowered key xs ≡ some current)
            × (x.rule_key ≡ key → x.version ≤ current.version))
  unfolding newest_version
  newest-cons key x xs current h = elim (Bool-cases (same_text x.rule_key key)) [
    | inr other ↦ inr (
      ground (arith, h, other),
      λ own.
          let hit : same_text x.rule_key key ≡ true =
            subst (λ k. same_text x.rule_key k ≡ true) own (same_text_refl x.rule_key) in
          cc,
    )
    | inl own ↦
        let key_of = same_text-eq x.rule_key key own in
        elim (Option-cases (newest_version d is_blank lowered key xs)) [
          | inl only ↦ inl (ground (arith, h, own, only), key_of, λ b e. cc)
          | inr (b, best) ↦ elim (Bool-cases (leb b.version x.version)) [
            | inl up ↦ inl (
              ground (arith, h, own, best, up),
              key_of,
              λ b' e.
                  let same : b ≡ b' = cc in
                  subst (λ (z : PlatformFeeRule d). z.version ≤ x.version) same
                    (ground (arith, up)),
            )
            | inr down ↦
                let is_b : b ≡ current = ground (arith, h, own, best, down) in
                inr (
                  best ∙ ap some is_b,
                  λ k.
                      subst (λ (z : PlatformFeeRule d). x.version ≤ z.version) is_b
                        (ground (arith, down)),
                )
          ]
        ]
  ]

  -- No version of the key is above the newest.
  pub newest-tops :
      (key : Text) (rs : List (PlatformFeeRule d)) (current y : PlatformFeeRule d)
      → newest_version d is_blank lowered key rs ≡ some current
      → Memᴰ y rs
      → y.rule_key ≡ key
      → y.version ≤ current.version
  newest-tops key [] current y h m e = absurd (Memᴰ.not-nil m)
  newest-tops key (x ∷ xs) current y h m e = elim (newest-cons key x xs current h) [
    | inl (is_x, own, above) ↦ elim (Memᴰ.cases_cons m) [
      | inl here ↦
          let same : y ≡ current = here ∙ sym is_x in
          subst (λ (z : PlatformFeeRule d). y.version ≤ z.version) same (omega arith)
      | inr later ↦ elim (Option-cases (newest_version d is_blank lowered key xs)) [
        | inl only ↦ absurd (newest-none key xs y only later e)
        | inr (b, best) ↦
            let low = newest-tops key xs b y best later e in
            let high = above b best in
            subst (λ (z : PlatformFeeRule d). y.version ≤ z.version) (sym is_x) (omega arith)
      ]
    ]
    | inr (best, above) ↦ elim (Memᴰ.cases_cons m) [
      | inl here ↦
          let own : x.rule_key ≡ key = ap (λ (z : PlatformFeeRule d). z.rule_key) (sym here) ∙ e in
          subst (λ (z : PlatformFeeRule d). z.version ≤ current.version) (sym here) (above own)
      | inr later ↦ newest-tops key xs current y best later e
    ]
  ]

  pub newest-Mem :
      (key : Text) (rs : List (PlatformFeeRule d)) (current : PlatformFeeRule d)
      → newest_version d is_blank lowered key rs ≡ some current
      → Memᴰ current rs × (current.rule_key ≡ key)
  unfolding newest_version
  newest-Mem key [] current h = cc
  newest-Mem key (x ∷ xs) current h = elim (newest-cons key x xs current h) [
    | inl (is_x, own, above) ↦
        (Memᴰ.head is_x, ap (λ (z : PlatformFeeRule d). z.rule_key) is_x ∙ own)
    | inr (best, above) ↦
        let (there, own) = newest-Mem key xs current best in (Memᴰ.tail there, own)
  ]
