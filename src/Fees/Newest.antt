-- ===== src/Fees/Newest.antt =====
-- The versions of fee rules sorted with the newest first (`resolveRule` of
-- src/platform-fee/platform-fee.service.ts).
use mathlib.Core.List.{Memᴰ}
use mathlib.Core.List.Memᴰ
use lalaba_backend_showcase.Base.{
  ◌≡◌, refl, ap, ◌∙◌, ◌⊎◌, Bool, true, false, List, [], ◌∷◌, filter, arith, inl, inr, Bool-cases,
  subst, sym, if◌then◌else◌,
}
use lalaba_backend_showcase.Pricing.Doubles.{Doubles}
use lalaba_backend_showcase.Fees.Versions.{PlatformFeeRule, as_new, insert_rule, newest_first}

module _ (d : Doubles) where
  pub as_new_refl : (r : PlatformFeeRule d) → as_new d r r ≡ true
  as_new_refl r = ground arith

  as_new_trans :
      (a b c : PlatformFeeRule d) → as_new d a b ≡ true → as_new d b c ≡ true → as_new d a c ≡ true
  as_new_trans a b c h k = ground arith

  as_new_total : (a b : PlatformFeeRule d) → as_new d a b ≡ false → as_new d b a ≡ true
  as_new_total a b h = ground arith

  -- Newest first: each is at least as new as those behind it.
  abbrev pub NewestFirst : List (PlatformFeeRule d) → Type 0
  NewestFirst [] = Unit
  NewestFirst (r ∷ rs) =
      ((x : PlatformFeeRule d) → Memᴰ x rs → as_new d r x ≡ true) × NewestFirst rs

  pub insert-Mem :
      (y r : PlatformFeeRule d) (rs : List (PlatformFeeRule d))
      → Memᴰ y (insert_rule d r rs)
      → Memᴰ y (r ∷ rs)
  insert-Mem y r [] m = m
  insert-Mem y r (x ∷ xs) m = go (λ m'. insert-Mem y r xs m') (as_new d r x) m
    where
      go :
          (Memᴰ y (insert_rule d r xs) → Memᴰ y (r ∷ xs))
          → (b : Bool) → Memᴰ y (if b then r ∷ x ∷ xs else x ∷ insert_rule d r xs)
          → Memᴰ y (r ∷ x ∷ xs)
      go below true m = m
      go below false m = elim (Memᴰ.cases_cons m) [
        | inl e ↦ Memᴰ.tail (Memᴰ.head e)
        | inr later ↦ elim (Memᴰ.cases_cons (below later)) [
          | inl e ↦ Memᴰ.head e
          | inr there ↦ Memᴰ.tail (Memᴰ.tail there)
        ]
      ]

  Mem-insert :
      (y r : PlatformFeeRule d) (rs : List (PlatformFeeRule d))
      → Memᴰ y (r ∷ rs)
      → Memᴰ y (insert_rule d r rs)
  Mem-insert y r [] m = m
  Mem-insert y r (x ∷ xs) m = go (λ m'. Mem-insert y r xs m') (as_new d r x)
    where
      go :
          (Memᴰ y (r ∷ xs) → Memᴰ y (insert_rule d r xs))
          → (b : Bool) → Memᴰ y (if b then r ∷ x ∷ xs else x ∷ insert_rule d r xs)
      go below true = m
      go below false = elim (Memᴰ.cases_cons m) [
        | inl e ↦ Memᴰ.tail (below (Memᴰ.head e))
        | inr later ↦ elim (Memᴰ.cases_cons later) [
          | inl e ↦ Memᴰ.head e
          | inr there ↦ Memᴰ.tail (below (Memᴰ.tail there))
        ]
      ]

  insert-NewestFirst :
      (r : PlatformFeeRule d) (rs : List (PlatformFeeRule d))
      → NewestFirst rs
      → NewestFirst (insert_rule d r rs)
  insert-NewestFirst r [] s = (λ x m. absurd (Memᴰ.not-nil m), tt)
  insert-NewestFirst r (x ∷ xs) s = elim (Bool-cases (as_new d r x)) [
    | inl newer ↦ rw newer (λ y m. ahead newer y (Memᴰ.cases_cons m), s)
    | inr older ↦
        rw older (
          λ y m. behind older y (Memᴰ.cases_cons (insert-Mem y r xs m)),
          insert-NewestFirst r xs s.1,
        )
  ]
    where
      ahead :
          as_new d r x ≡ true → (y : PlatformFeeRule d) → (y ≡ x) ⊎ Memᴰ y xs → as_new d r y ≡ true
      ahead newer y (inl e) = subst (λ (z : PlatformFeeRule d). as_new d r z ≡ true) (sym e) newer
      ahead newer y (inr m) = as_new_trans r x y newer (s.0 y m)

      behind :
          as_new d r x ≡ false → (y : PlatformFeeRule d) → (y ≡ r) ⊎ Memᴰ y xs → as_new d x y ≡ true
      behind older y (inl e) =
          subst (λ (z : PlatformFeeRule d). as_new d x z ≡ true) (sym e) (as_new_total r x older)
      behind older y (inr m) = s.0 y m

  pub sorted-NewestFirst : (rs : List (PlatformFeeRule d)) → NewestFirst (newest_first d rs)
  sorted-NewestFirst [] = tt
  sorted-NewestFirst (r ∷ rs) = insert-NewestFirst r (newest_first d rs) (sorted-NewestFirst rs)

  -- A rule that is sorted among those that pass a test is one that passes it, and back.
  pub sorted-Mem :
      (p : PlatformFeeRule d → Bool) (y : PlatformFeeRule d) (rs : List (PlatformFeeRule d))
      → Memᴰ y (newest_first d (filter p rs))
      → Memᴰ y rs × (p y ≡ true)
  sorted-Mem p y [] m = absurd (Memᴰ.not-nil m)
  sorted-Mem p y (x ∷ xs) m = go (λ m'. sorted-Mem p y xs m') (p x) refl m
    where
      go :
          (Memᴰ y (newest_first d (filter p xs)) → Memᴰ y xs × (p y ≡ true))
          → (b : Bool) → p x ≡ b
          → Memᴰ y (newest_first d (if b then x ∷ filter p xs else filter p xs))
          → Memᴰ y (x ∷ xs) × (p y ≡ true)
      go below false e m = let (there, passes) = below m in (Memᴰ.tail there, passes)
      go below true e m = elim (Memᴰ.cases_cons (insert-Mem y x (newest_first d (filter p xs)) m)) [
        | inl here ↦ (Memᴰ.head here, ap p here ∙ e)
        | inr later ↦ let (there, passes) = below later in (Memᴰ.tail there, passes)
      ]

  pub Mem-sorted :
      (p : PlatformFeeRule d → Bool) (y : PlatformFeeRule d) (rs : List (PlatformFeeRule d))
      → Memᴰ y rs
      → p y ≡ true
      → Memᴰ y (newest_first d (filter p rs))
  Mem-sorted p y [] m h = absurd (Memᴰ.not-nil m)
  Mem-sorted p y (x ∷ xs) m h = go (λ m'. Mem-sorted p y xs m' h) (p x) refl (Memᴰ.cases_cons m)
    where
      go :
          (Memᴰ y xs → Memᴰ y (newest_first d (filter p xs)))
          → (b : Bool) → p x ≡ b
          → (y ≡ x) ⊎ Memᴰ y xs
          → Memᴰ y (newest_first d (if b then x ∷ filter p xs else filter p xs))
      go below false e (inl here) = cc (ap p here)
      go below false e (inr later) = below later
      go below true e (inl here) = Mem-insert y x (newest_first d (filter p xs)) (Memᴰ.head here)
      go below true e (inr later) =
          Mem-insert y x (newest_first d (filter p xs)) (Memᴰ.tail (below later))
