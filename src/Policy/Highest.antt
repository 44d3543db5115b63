-- ===== src/Policy/Highest.antt =====
-- The milestone of the highest rank (`resolveMilestone` of src/booking-policy/entitlement.util.ts).

use lalaba_backend_showcase.Base.{
  ◌≤◌, ◌≡◌, ◌≢◌, refl, ap, ◌∙◌, inl, inr, Bool, true, not, ◌&&◌, Option, none, some, List, [], ◌∷◌,
  filter, leb, All, if◌then◌else◌, arith, Bool-cases, Option-cases,
}
use lalaba_backend_showcase.Policy.Provider.{Doubles, ProviderStats}
use lalaba_backend_showcase.Policy.Milestones.{
  BookingMilestone, satisfies, highest, active, earned, or_fallback, resolve_milestone,
}

module _ (d : Doubles) where
  abbrev pick : BookingMilestone d → Option (BookingMilestone d) → Option (BookingMilestone d)
  pick x none = some x
  pick x (some b) = if leb b.rank x.rank then some x else some b

  pick-some : (x : BookingMilestone d) (o : Option (BookingMilestone d)) → pick x o ≢ none
  pick-some x none h = cc
  pick-some x (some b) h = elim (Bool-cases (leb b.rank x.rank)) [
    | inl e ↦ cc (rw e at h)
    | inr e ↦ cc (rw e at h)
  ]

  highest-none :
      (Q : BookingMilestone d → Type 0) (xs : List (BookingMilestone d))
      → highest d xs ≡ none
      → All Q xs
  highest-none Q [] h = tt
  highest-none Q (x ∷ xs) h = absurd (pick-some x (highest d xs) h)

  weaken :
      (b m : BookingMilestone d) (xs : List (BookingMilestone d))
      → b.rank ≤ m.rank
      → All (λ (x : BookingMilestone d). x.rank ≤ b.rank) xs
      → All (λ (x : BookingMilestone d). x.rank ≤ m.rank) xs
  weaken b m [] le h = tt
  weaken b m (x ∷ xs) le h = (omega (arith, le, h.0), weaken b m xs le h.1)

  picked :
      (x b m : BookingMilestone d) (xs : List (BookingMilestone d))
      → All (λ (y : BookingMilestone d). y.rank ≤ b.rank) xs
      → pick x (some b) ≡ some m
      → All (λ (y : BookingMilestone d). y.rank ≤ m.rank) (x ∷ xs)
  picked x b m xs h e = elim (Bool-cases (leb b.rank x.rank)) [
    | inl up ↦
        let same : x ≡ m = cc (rw up at e) in
        let r = ap (λ (y : BookingMilestone d). y.rank) same in
        (omega (arith, r), weaken b m xs (ground arith) h)
    | inr down ↦
        let same : b ≡ m = cc (rw down at e) in
        let r = ap (λ (y : BookingMilestone d). y.rank) same in
        (ground arith, weaken b m xs (omega (arith, r)) h)
  ]

  highest-All :
      (xs : List (BookingMilestone d)) (m : BookingMilestone d)
      → highest d xs ≡ some m
      → All (λ (x : BookingMilestone d). x.rank ≤ m.rank) xs
  highest-All [] m h = tt
  highest-All (x ∷ xs) m h = go (λ b e. highest-All xs b e) (highest d xs) refl h
    where
      go :
          ((b : BookingMilestone d)
            → highest d xs ≡ some b
            → All (λ (y : BookingMilestone d). y.rank ≤ b.rank) xs)
          → (o : Option (BookingMilestone d)) → highest d xs ≡ o
          → pick x o ≡ some m
          → All (λ (x : BookingMilestone d). x.rank ≤ m.rank) (x ∷ xs)
      go rec none e p =
          let same : x ≡ m = cc in
          let r = ap (λ (y : BookingMilestone d). y.rank) same in
          (omega (arith, r), highest-none (λ y. y.rank ≤ m.rank) xs e)
      go rec (some b) e p = picked x b m xs (rec b e) p

  filter-All :
      (Q : BookingMilestone d → Type 0) (p : BookingMilestone d → Bool)
      (xs : List (BookingMilestone d))
      → All Q (filter p xs)
      → All (λ x. p x ≡ true → Q x) xs
  filter-All Q p [] h = tt
  filter-All Q p (x ∷ xs) h = elim (Bool-cases (p x)) [
    | inl e ↦ let h' = rw (e, filter) at h in ((λ _. h'.0), filter-All Q p xs h'.1)
    | inr e ↦ let h' = rw (e, filter) at h in ((λ t. cc), filter-All Q p xs h')
  ]

  or_fallback-some :
      (o : Option (BookingMilestone d)) (ms : List (BookingMilestone d)) (b m : BookingMilestone d)
      → o ≡ some b
      → or_fallback d o ms ≡ some m
      → b ≡ m
  or_fallback-some none ms b m e h = cc
  or_fallback-some (some c) ms b m e h = cc

  earned-outranked :
      (ms : List (BookingMilestone d)) (stats : ProviderStats d) (m : BookingMilestone d)
      → resolve_milestone d ms stats ≡ some m
      → All (λ (x : BookingMilestone d). x.rank ≤ m.rank) (earned d stats ms)
  unfolding resolve_milestone
  earned-outranked ms stats m h = elim (Option-cases (highest d (earned d stats ms))) [
    | inl e ↦ highest-none (λ x. x.rank ≤ m.rank) (earned d stats ms) e
    | inr (b, e) ↦
        let same = or_fallback-some (highest d (earned d stats ms)) (active d ms) b m e h in
        highest-All (earned d stats ms) m (e ∙ ap some same)
  ]

  -- No milestone that a provider has earned outranks the one that she gets: every milestone that is
  -- active, not the default one and satisfied by her numbers has a rank that is no higher.
  milestone_is_highest :
      (ms : List (BookingMilestone d)) (stats : ProviderStats d) (m : BookingMilestone d)
      → resolve_milestone d ms stats ≡ some m
      → All
          (λ (x : BookingMilestone d).
            x.is_active ≡ true → (not x.is_default && satisfies d x stats) ≡ true → x.rank ≤ m.rank)
          ms
  unfolding earned
  milestone_is_highest ms stats m h =
      filter-All (λ x. (not x.is_default && satisfies d x stats) ≡ true → x.rank ≤ m.rank)
        (λ x. x.is_active) ms
        (filter-All (λ x. x.rank ≤ m.rank) (λ x. not x.is_default && satisfies d x stats)
          (active d ms) (earned-outranked ms stats m h))
