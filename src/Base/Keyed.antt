-- ===== src/Base/Keyed.antt =====
-- A collection of documents with a unique key, in insertion order: `findOne` by the key,
-- `findOneAndUpdate` by the key, and an insertion that appends.
use Prim.Native.Nat.{ℕ}
use mathlib.Core.Path.{◌≡◌, refl}
use mathlib.Core.Logic.{◌≢◌}
use mathlib.Core.Option.{Option, none, some}
use mathlib.Core.List.{List, [], ◌∷◌}
use native.Mathlib.Omega.{arith}
use lalaba_backend_showcase.Base.Tests.{◌==◌, if◌then◌else◌}

abbrev pub Keyed {ℓ} : Type ℓ → Type ℓ
Keyed V = List (ℕ × V)

module _ {ℓ} {V : Type ℓ} where
  abbrev pub find : ℕ → Keyed V → Option V
  find k [] = none
  find k ((j, v) ∷ c) = if k == j then some v else find k c

  -- Rewrites the document under the key; a key that is absent changes nothing.
  abbrev pub update : ℕ → (V → V) → Keyed V → Keyed V
  update k f [] = []
  update k f ((j, v) ∷ c) = if k == j then (j, f v) ∷ c else (j, v) ∷ update k f c

  abbrev pub insert : ℕ → V → Keyed V → Keyed V
  insert k v [] = (k, v) ∷ []
  insert k v (e ∷ c) = e ∷ insert k v c

  pub find-update_self :
      (k : ℕ) (f : V → V) (v : V) (c : Keyed V)
      → find k c ≡ some v
      → find k (update k f c) ≡ some (f v)
  find-update_self k f v [] h = ground arith
  find-update_self k f v (e ∷ c) h = ground (arith, find-update_self k f v c)

  pub find-update_ne :
      (j k : ℕ) (f : V → V) (c : Keyed V) → j ≢ k → find j (update k f c) ≡ find j c
  find-update_ne j k f [] h = refl
  find-update_ne j k f (e ∷ c) h = ground (arith, find-update_ne j k f c h)

  pub find-insert_self :
      (k : ℕ) (v : V) (c : Keyed V) → find k c ≡ none → find k (insert k v c) ≡ some v
  find-insert_self k v [] h = ground arith
  find-insert_self k v (e ∷ c) h = ground (arith, find-insert_self k v c)

  pub find-insert_ne : (j k : ℕ) (v : V) (c : Keyed V) → j ≢ k → find j (insert k v c) ≡ find j c
  find-insert_ne j k v [] h = ground arith
  find-insert_ne j k v (e ∷ c) h = ground (arith, find-insert_ne j k v c h)

  pub find-insert_old :
      (j k : ℕ) (v u : V) (c : Keyed V) → find j c ≡ some u → find j (insert k v c) ≡ some u
  find-insert_old j k v u [] h = ground arith
  find-insert_old j k v u (e ∷ c) h = ground (arith, find-insert_old j k v u c)

  pub update-absent : (k : ℕ) (f : V → V) (c : Keyed V) → find k c ≡ none → update k f c ≡ c
  update-absent k f [] h = refl
  update-absent k f (e ∷ c) h = ground (arith, update-absent k f c)

  pub update-update :
      (k : ℕ) (f g : V → V) (c : Keyed V) → update k g (update k f c) ≡ update k (λ v. g (f v)) c
  update-update k f g [] = refl
  update-update k f g (e ∷ c) = ground (arith, update-update k f g c)

  pub update_congr :
      (k : ℕ) (f g : V → V) (v : V) (c : Keyed V)
      → find k c ≡ some v
      → f v ≡ g v
      → update k f c ≡ update k g c
  update_congr k f g v [] h e = refl
  update_congr k f g v (x ∷ c) h e = ground (arith, update_congr k f g v c)

  pub update-same :
      (k : ℕ) (f : V → V) (v : V) (c : Keyed V) → find k c ≡ some v → f v ≡ v → update k f c ≡ c
  update-same k f v [] h e = refl
  update-same k f v (x ∷ c) h e = ground (arith, update-same k f v c)

module _ {V : Type 0} where
  -- No key stands twice.
  abbrev pub IsUnique : Keyed V → Type 0
  IsUnique [] = Unit
  IsUnique ((k, v) ∷ c) = (find k c ≡ none) × IsUnique c

  find-update-none :
      (j k : ℕ) (f : V → V) (c : Keyed V) → find j c ≡ none → find j (update k f c) ≡ none
  find-update-none j k f [] h = refl
  find-update-none j k f (e ∷ c) h = ground (arith, find-update-none j k f c)

  pub update-IsUnique : (k : ℕ) (f : V → V) (c : Keyed V) → IsUnique c → IsUnique (update k f c)
  update-IsUnique k f [] u = u
  update-IsUnique k f (e ∷ c) u =
      ground (arith, update-IsUnique k f c u.1, find-update-none e.0 k f c u.0)

  pub insert-IsUnique :
      (k : ℕ) (v : V) (c : Keyed V) → IsUnique c → find k c ≡ none → IsUnique (insert k v c)
  insert-IsUnique k v [] u h = (refl, tt)
  insert-IsUnique k v (e ∷ c) u h =
      ground (arith, insert-IsUnique k v c u.1, find-insert_ne e.0 k v c)
