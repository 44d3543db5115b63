-- ===== src/Promotions/Releases.antt =====
-- The release of the slots of an order, row by row, and the counters
-- (`releaseForOrder` of src/promotions/promotions.service.ts).
use lalaba_backend_showcase.Base.{
  ℕ, ◌+◌, ◌≡◌, ◌≢◌, refl, ap, ◌∙◌, true, false, ◌&&◌, Option, none, some, List, [], ◌∷◌, ◌==◌,
  arith, inl, inr, Bool-cases, Option-cases, ==_iff,
}
use lalaba_backend_showcase.Base.Int.{pos, ◌-ℤ◌}
use lalaba_backend_showcase.Base.Keyed.{Keyed, find, update, IsUnique, update-IsUnique}
use lalaba_backend_showcase.Orders.Order.{
  OrderDb, PromoRedemption, is_reserved, is_of, held, release_row, release_rows, release_for_order,
}
use lalaba_backend_showcase.Promotions.Codes.{PromoCode}
use lalaba_backend_showcase.Promotions.Slots.{slots_taken, one_if, freed_row, slots_taken-release}
use lalaba_backend_showcase.Promotions.Counted.{IsCounted, recount, less_one}

-- The promotion of the row under a key.
abbrev promo_of : Option PromoRedemption → Option ℕ
promo_of none = none
promo_of (some r) = some r.promo_id

-- The rows that were read are of the promotions that the stored rows are of.
abbrev IsRead : List (ℕ × PromoRedemption) → Keyed PromoRedemption → Type 0
IsRead [] rs = Unit
IsRead ((id, row) ∷ rows) rs = (promo_of (find id rs) ≡ some row.promo_id) × IsRead rows rs

promo_of-update :
    (k id now : ℕ) (rs : Keyed PromoRedemption)
    → promo_of (find k (update id (freed_row now) rs)) ≡ promo_of (find k rs)
promo_of-update k id now [] = refl
promo_of-update k id now (x ∷ rs) = ground (arith, promo_of-update k id now rs)

IsRead-update :
    (id now : ℕ) (rows : List (ℕ × PromoRedemption)) (rs : Keyed PromoRedemption)
    → IsRead rows rs
    → IsRead rows (update id (freed_row now) rs)
IsRead-update id now [] rs h = tt
IsRead-update id now ((k, row) ∷ rows) rs h =
    (promo_of-update k id now rs ∙ h.0, IsRead-update id now rows rs h.1)

IsRead-cons :
    (rows : List (ℕ × PromoRedemption)) (j : ℕ) (x : PromoRedemption) (rs : Keyed PromoRedemption)
    → find j rs ≡ none
    → IsRead rows rs
    → IsRead rows ((j, x) ∷ rs)
IsRead-cons [] j x rs fresh h = tt
IsRead-cons ((k, row) ∷ rows) j x rs fresh h =
    let ne : (k == j) ≡ false = elim (Bool-cases (k == j)) [
      | inl e ↦ cc (ap (λ i. promo_of (find i rs)) ((==_iff k j).0 e), ap promo_of fresh, h.0)
      | inr e ↦ e
    ] in
    (rw ne h.0, IsRead-cons rows j x rs fresh h.1)

held-IsRead :
    (order_id : ℕ) (rs : Keyed PromoRedemption) → IsUnique rs → IsRead (held order_id rs) rs
held-IsRead order_id [] u = tt
held-IsRead order_id ((j, x) ∷ rs) u =
    let rest = IsRead-cons (held order_id rs) j x rs u.0 (held-IsRead order_id rs u.1) in
    elim (Bool-cases (is_of order_id x.order_id && is_reserved x.status)) [
      | inl e ↦ rw (e, held) (rw ((==_iff j j).1 refl) refl, rest)
      | inr e ↦ rw (e, held) rest
    ]

module _ (promos : Keyed PromoCode) where
  -- A slot that is given back: its row, and the counter of its promotion.
  freed-IsCounted :
      (now id : ℕ) (r : PromoRedemption) (db : OrderDb)
      → IsCounted promos db
      → find id db.redemptions ≡ some r
      → is_reserved r.status ≡ true
      → IsCounted promos (record db {
        redemptions = update id (freed_row now) db.redemptions;
        counts = update r.promo_id (λ n. n -ℤ pos 1) db.counts;
      })
  freed-IsCounted now id r db c there live = record {
    unique = update-IsUnique id (freed_row now) db.redemptions c.unique;
    counted =
        recount r.promo_id (λ n. n -ℤ pos 1) (λ p. slots_taken p db.redemptions)
          (λ p. slots_taken p (update id (freed_row now) db.redemptions)) db.counts c.counted own
          elsewhere;
    capped = λ p cap promo there' is_cap.
        let before = c.capped p cap promo there' is_cap in
        let step = slots_taken-release now id p r db.redemptions there live in omega arith;
  }
    where
      own :
          pos (slots_taken r.promo_id db.redemptions) -ℤ pos 1
          ≡ pos (slots_taken r.promo_id (update id (freed_row now) db.redemptions))
      own =
          let step = slots_taken-release now id r.promo_id r db.redemptions there live in
          let one : one_if (r.promo_id == r.promo_id) ≡ 1 =
            ap one_if ((==_iff r.promo_id r.promo_id).1 refl) in
          ap (λ n. pos n -ℤ pos 1)
            (step
              ∙ ap (λ n. slots_taken r.promo_id (update id (freed_row now) db.redemptions) + n) one)
          ∙ less_one promos (slots_taken r.promo_id (update id (freed_row now) db.redemptions))

      elsewhere :
          (p : ℕ)
          → p ≢ r.promo_id
          → slots_taken p (update id (freed_row now) db.redemptions) ≡ slots_taken p db.redemptions
      elsewhere p ne =
          let step = slots_taken-release now id p r db.redemptions there live in ground arith

  release_row-IsCounted :
      (now id : ℕ) (row : PromoRedemption) (db : OrderDb)
      → IsCounted promos db
      → promo_of (find id db.redemptions) ≡ some row.promo_id
      → IsCounted promos (release_row now id row db)
  release_row-IsCounted now id row db c read = elim (Option-cases (find id db.redemptions)) [
    | inl absent ↦ cc (ap promo_of absent)
    | inr (r, there) ↦ elim (Bool-cases (is_reserved r.status)) [
      | inr gone ↦ rw (there, release_row, gone) c
      | inl live ↦
          let same : r.promo_id ≡ row.promo_id = cc (ap promo_of there) in
          rw (there, release_row, live, ← same) (freed-IsCounted now id r db c there live)
    ]
  ]

  release_row-IsRead :
      (now id : ℕ) (row : PromoRedemption) (rows : List (ℕ × PromoRedemption)) (db : OrderDb)
      → IsRead rows db.redemptions
      → IsRead rows (release_row now id row db).redemptions
  release_row-IsRead now id row rows db h = elim (Option-cases (find id db.redemptions)) [
    | inl absent ↦ rw (absent, release_row) h
    | inr (r, there) ↦ elim (Bool-cases (is_reserved r.status)) [
      | inr gone ↦ rw (there, release_row, gone) h
      | inl live ↦ rw (there, release_row, live) (IsRead-update id now rows db.redemptions h)
    ]
  ]

  release_rows-IsCounted :
      (now : ℕ) (rows : List (ℕ × PromoRedemption)) (db : OrderDb)
      → IsCounted promos db
      → IsRead rows db.redemptions
      → IsCounted promos (release_rows now rows db)
  release_rows-IsCounted now [] db c h = c
  release_rows-IsCounted now ((id, row) ∷ rows) db c h =
      release_rows-IsCounted now rows (release_row now id row db)
        (release_row-IsCounted now id row db c h.0) (release_row-IsRead now id row rows db h.1)

  pub release-IsCounted :
      (order_id now : ℕ) (db : OrderDb)
      → IsCounted promos db
      → IsCounted promos (release_for_order order_id now db)
  unfolding release_for_order
  release-IsCounted order_id now db c =
      release_rows-IsCounted now (held order_id db.redemptions) db c
        (held-IsRead order_id db.redemptions c.unique)
