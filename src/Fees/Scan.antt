-- ===== src/Fees/Scan.antt =====
-- The loops of `resolveRule` over the sorted versions: the first of each key, and the first of those
-- that is in effect (src/platform-fee/platform-fee.service.ts).
use mathlib.Core.List.{Memᴰ}
use mathlib.Core.List.Memᴰ
use lalaba_backend_showcase.Base.{
  ℕ, ◌≡◌, refl, ap, ◌∙◌, ◌⊎◌, true, false, Option, none, some, List, [], ◌∷◌, arith, inl, inr,
  Bool-cases, subst, sym,
}
use lalaba_backend_showcase.Booking.Time.{Text}
use lalaba_backend_showcase.Pricing.Doubles.{Doubles}
use lalaba_backend_showcase.Fees.Keys.{same_text, same_text_refl, same_text-eq}
use lalaba_backend_showcase.Fees.Versions.{
  PlatformFeeRule, as_new, was_seen, first_of_keys, in_effect, first_in_effect,
}
use lalaba_backend_showcase.Fees.Newest.{NewestFirst, as_new_refl}

module _ (d : Doubles) where
  seen_not :
      (key k : Text) (seen : List Text)
      → was_seen d key (k ∷ seen) ≡ false
      → (same_text k key ≡ false) × (was_seen d key seen ≡ false)
  seen_not key k seen h = ground arith

  -- A rule that is in effect, of a key that was not seen, and at least as new as the others of its key.
  abbrev Scanned : ℕ → List Text → List (PlatformFeeRule d) → PlatformFeeRule d → Type 0
  Scanned at seen rs r =
      Memᴰ r rs
      × (in_effect d at r ≡ true)
      × (was_seen d r.rule_key seen ≡ false)
      × ((y : PlatformFeeRule d) → Memᴰ y rs → y.rule_key ≡ r.rule_key → as_new d r y ≡ true)

  Scanned-later :
      (at : ℕ) (seen : List Text) (x : PlatformFeeRule d) (xs : List (PlatformFeeRule d))
      (r : PlatformFeeRule d)
      → Scanned at (x.rule_key ∷ seen) xs r
      → Scanned at seen (x ∷ xs) r
  Scanned-later at seen x xs r (there, live, new, newest) =
      let (other, unseen) = seen_not r.rule_key x.rule_key seen new in
      (
        Memᴰ.tail there,
        live,
        unseen,
        λ y m same. elim (Memᴰ.cases_cons m) [
          | inl here ↦
              let key : x.rule_key ≡ r.rule_key =
                ap (λ (z : PlatformFeeRule d). z.rule_key) (sym here) ∙ same in
              let hit : same_text x.rule_key r.rule_key ≡ true =
                subst (λ k. same_text x.rule_key k ≡ true) key (same_text_refl x.rule_key) in
              cc
          | inr later ↦ newest y later same
        ],
      )

  Scanned-here :
      (at : ℕ) (seen : List Text) (x : PlatformFeeRule d) (xs : List (PlatformFeeRule d))
      → NewestFirst d (x ∷ xs)
      → in_effect d at x ≡ true
      → was_seen d x.rule_key seen ≡ false
      → Scanned at seen (x ∷ xs) x
  Scanned-here at seen x xs s live new = (
    Memᴰ.head refl,
    live,
    new,
    λ y m same. elim (Memᴰ.cases_cons m) [
      | inl here ↦
          subst (λ (z : PlatformFeeRule d). as_new d x z ≡ true) (sym here) (as_new_refl d x)
      | inr later ↦ s.0 y later
    ],
  )

  -- The first rule in effect among the first of each key, from a list with the newest first.
  pub scan :
      (at : ℕ) (seen : List Text) (rs : List (PlatformFeeRule d)) (r : PlatformFeeRule d)
      → NewestFirst d rs
      → first_in_effect d at (first_of_keys d seen rs) ≡ some r
      → Scanned at seen rs r
  scan at seen [] r s h = cc
  scan at seen (x ∷ xs) r s h =
      let below : first_in_effect d at (first_of_keys d (x.rule_key ∷ seen) xs) ≡ some r
          → Scanned at seen (x ∷ xs) r =
        λ k. Scanned-later at seen x xs r (scan at (x.rule_key ∷ seen) xs r s.1 k) in
      elim (Bool-cases (was_seen d x.rule_key seen)) [
        | inl old ↦ below (ground (arith, h, old))
        | inr new ↦ elim (Bool-cases (in_effect d at x)) [
          | inl live ↦
              let same : x ≡ r = ground (arith, h, new, live) in
              subst (Scanned at seen (x ∷ xs)) same (Scanned-here at seen x xs s live new)
          | inr dead ↦ below (ground (arith, h, new, dead))
        ]
      ]

  -- A newest version of the key that is not in effect.
  abbrev Spent : ℕ → List (PlatformFeeRule d) → PlatformFeeRule d → Type 0
  Spent at rs y =
      (x : PlatformFeeRule d) × Memᴰ x rs
      × (x.rule_key ≡ y.rule_key)
      × ((z : PlatformFeeRule d) → Memᴰ z rs → z.rule_key ≡ y.rule_key → as_new d x z ≡ true)
      × (in_effect d at x ≡ false)

  Spent-later :
      (at : ℕ) (z y : PlatformFeeRule d) (zs : List (PlatformFeeRule d))
      → same_text z.rule_key y.rule_key ≡ false
      → Spent at zs y
      → Spent at (z ∷ zs) y
  Spent-later at z y zs other (x, there, same, newer, dead) = (
    x,
    Memᴰ.tail there,
    same,
    λ u m key. elim (Memᴰ.cases_cons m) [
      | inl here ↦
          let z_key : z.rule_key ≡ y.rule_key =
            ap (λ (v : PlatformFeeRule d). v.rule_key) (sym here) ∙ key in
          let hit : same_text z.rule_key y.rule_key ≡ true =
            subst (λ k. same_text z.rule_key k ≡ true) z_key (same_text_refl z.rule_key) in
          cc
      | inr later ↦ newer u later key
    ],
    dead,
  )

  Spent-here :
      (at : ℕ) (x y : PlatformFeeRule d) (xs : List (PlatformFeeRule d))
      → NewestFirst d (x ∷ xs)
      → in_effect d at x ≡ false
      → x.rule_key ≡ y.rule_key
      → Spent at (x ∷ xs) y
  Spent-here at x y xs s dead key = (
    x,
    Memᴰ.head refl,
    key,
    λ u m same. elim (Memᴰ.cases_cons m) [
      | inl here ↦
          subst (λ (z : PlatformFeeRule d). as_new d x z ≡ true) (sym here) (as_new_refl d x)
      | inr later ↦ s.0 u later
    ],
    dead,
  )

  pub nothing_in_effect :
      (at : ℕ) (seen : List Text) (rs : List (PlatformFeeRule d)) (y : PlatformFeeRule d)
      → NewestFirst d rs
      → first_in_effect d at (first_of_keys d seen rs) ≡ none
      → Memᴰ y rs
      → was_seen d y.rule_key seen ≡ false
      → Spent at rs y
  nothing_in_effect at seen [] y s h m new = absurd (Memᴰ.not-nil m)
  nothing_in_effect at seen (x ∷ xs) y s h m new =
      let below : first_in_effect d at (first_of_keys d (x.rule_key ∷ seen) xs) ≡ none
          → Memᴰ y xs
          → same_text x.rule_key y.rule_key ≡ false
          → Spent at (x ∷ xs) y =
        λ k there other.
          Spent-later at x y xs other
            (nothing_in_effect at (x.rule_key ∷ seen) xs y s.1 k there (rw (other, new) refl)) in
      elim (Bool-cases (was_seen d x.rule_key seen)) [
        | inl old ↦ seen_before old (ground (arith, h, old)) below (Memᴰ.cases_cons m)
        | inr first ↦ elim (Bool-cases (in_effect d at x)) [
          | inl live ↦ ground (arith, h, first, live)
          | inr dead ↦ dead_first dead (ground (arith, h, first, dead)) below (Memᴰ.cases_cons m)
        ]
      ]
    where
      rest : Option (PlatformFeeRule d)
      rest = first_in_effect d at (first_of_keys d (x.rule_key ∷ seen) xs)

      seen_before :
          was_seen d x.rule_key seen ≡ true
          → rest ≡ none
          → (rest ≡ none
              → Memᴰ y xs
              → same_text x.rule_key y.rule_key ≡ false
              → Spent at (x ∷ xs) y)
          → (y ≡ x) ⊎ Memᴰ y xs
          → Spent at (x ∷ xs) y
      seen_before old k below (inl here) =
          cc (ap (λ (z : PlatformFeeRule d). was_seen d z.rule_key seen) here)
      seen_before old k below (inr later) = elim (Bool-cases (same_text x.rule_key y.rule_key)) [
        | inl e ↦ cc (ap (λ t. was_seen d t seen) (same_text-eq x.rule_key y.rule_key e))
        | inr e ↦ below k later e
      ]

      dead_first :
          in_effect d at x ≡ false
          → rest ≡ none
          → (rest ≡ none
              → Memᴰ y xs
              → same_text x.rule_key y.rule_key ≡ false
              → Spent at (x ∷ xs) y)
          → (y ≡ x) ⊎ Memᴰ y xs
          → Spent at (x ∷ xs) y
      dead_first dead k below (inl here) =
          Spent-here at x y xs s dead (ap (λ (z : PlatformFeeRule d). z.rule_key) (sym here))
      dead_first dead k below (inr later) = elim (Bool-cases (same_text x.rule_key y.rule_key)) [
        | inl e ↦ Spent-here at x y xs s dead (same_text-eq x.rule_key y.rule_key e)
        | inr e ↦ below k later e
      ]
