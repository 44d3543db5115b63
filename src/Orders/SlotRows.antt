-- ===== src/Orders/SlotRows.antt =====
-- Releasing and settling rows of promo slots, row by row (`releaseForOrder` and `settleForOrder` of
-- src/promotions/promotions.service.ts).
use lalaba_backend_showcase.Base.{
  ℕ, ◌≡◌, refl, sym, ap, subst, ◌∙◌, inl, inr, Bool, true, false, ◌||◌, Option, none, some, List,
  [], ◌∷◌, ◌==◌, if◌then◌else◌, arith, Bool-cases, Option-cases, ==_iff,
}
use lalaba_backend_showcase.Base.Keyed.{Keyed, find, update, find-update_self, find-update_ne}
use lalaba_backend_showcase.Orders.Order.{
  OrderDb, PromoRedemption, released, is_reserved, held, release_row, release_rows,
}

abbrev pub freed : ℕ → PromoRedemption → PromoRedemption
freed now r =
    if is_reserved r.status then record r { status = released; released_at = some now } else r

abbrev pub on_row :
    (PromoRedemption → PromoRedemption) → Option PromoRedemption → Option PromoRedemption
on_row f none = none
on_row f (some r) = some (f r)

abbrev pub has_key : ℕ → List (ℕ × PromoRedemption) → Bool
has_key k [] = false
has_key k (x ∷ xs) = (k == x.0) || has_key k xs

release_row-redemptions :
    (now id : ℕ) (row r : PromoRedemption) (db : OrderDb)
    → find id db.redemptions ≡ some r
    → is_reserved r.status ≡ true
    → (release_row now id row db).redemptions
      ≡ update id (λ r. record r { status = released; released_at = some now }) db.redemptions
release_row-redemptions now id row r db there held = ground arith

release_row-idle :
    (now id : ℕ) (row r : PromoRedemption) (db : OrderDb)
    → find id db.redemptions ≡ some r
    → is_reserved r.status ≡ false
    → release_row now id row db ≡ db
release_row-idle now id row r db there gone = ground arith

release_row-absent :
    (now id : ℕ) (row : PromoRedemption) (db : OrderDb)
    → find id db.redemptions ≡ none
    → release_row now id row db ≡ db
release_row-absent now id row db there = ground arith

unmoved :
    (now id k : ℕ) (rs : Keyed PromoRedemption)
    → on_row (freed now) (find id rs) ≡ find id rs
    → find k rs ≡ (if k == id then on_row (freed now) (find k rs) else find k rs)
unmoved now id k rs h = elim (Bool-cases (k == id)) [
  | inl e ↦
      let here = (==_iff k id).0 e in
      rw e (sym (subst (λ j. on_row (freed now) (find j rs) ≡ find j rs) (sym here) h))
  | inr e ↦ rw e refl
]

flip : ℕ → PromoRedemption → PromoRedemption
flip now r = record r { status = released; released_at = some now }

flipped :
    (now id k : ℕ) (r : PromoRedemption) (rs : Keyed PromoRedemption)
    → find id rs ≡ some r
    → is_reserved r.status ≡ true
    → find k (update id (flip now) rs)
      ≡ (if k == id then on_row (freed now) (find k rs) else find k rs)
unfolding flip
flipped now id k r rs there live = elim (Bool-cases (k == id)) [
  | inl e ↦
      let here = (==_iff k id).0 e in
      rw e (
        subst (λ j. find j (update id (flip now) rs) ≡ on_row (freed now) (find j rs)) (sym here)
          (find-update_self id (flip now) r rs there ∙ rw (there, live) refl))
  | inr e ↦ rw e (find-update_ne k id (flip now) rs (ground arith))
]

release_row-find :
    (now id k : ℕ) (row : PromoRedemption) (db : OrderDb)
    → find k (release_row now id row db).redemptions
      ≡ (if k == id then on_row (freed now) (find k db.redemptions) else find k db.redemptions)
unfolding flip
release_row-find now id k row db = elim (Option-cases (find id db.redemptions)) [
  | inl absent ↦
      ap (λ (d : OrderDb). find k d.redemptions) (release_row-absent now id row db absent)
      ∙ unmoved now id k db.redemptions (rw absent refl)
  | inr (r, there) ↦ elim (Bool-cases (is_reserved r.status)) [
    | inl live ↦
        ap (find k) (release_row-redemptions now id row r db there live)
        ∙ flipped now id k r db.redemptions there live
    | inr gone ↦
        ap (λ (d : OrderDb). find k d.redemptions) (release_row-idle now id row r db there gone)
        ∙ unmoved now id k db.redemptions (rw (there, gone) refl)
  ]
]

freed-freed :
    (now : ℕ) (o : Option PromoRedemption)
    → on_row (freed now) (on_row (freed now) o) ≡ on_row (freed now) o
freed-freed now none = refl
freed-freed now (some r) = elim (Bool-cases (is_reserved r.status)) [
  | inl e ↦ rw e refl
  | inr e ↦ rw (e, e) refl
]

either_row :
    (a b : Bool) (o p : Option PromoRedemption) (now : ℕ)
    → p ≡ (if a then on_row (freed now) o else o)
    → (if b then on_row (freed now) p else p) ≡ (if a || b then on_row (freed now) o else o)
either_row true true o p now h = ap (on_row (freed now)) h ∙ freed-freed now o
either_row true false o p now h = h
either_row false true o p now h = ap (on_row (freed now)) h
either_row false false o p now h = h

pub release_rows-find :
    (now k : ℕ) (rows : List (ℕ × PromoRedemption)) (db : OrderDb)
    → find k (release_rows now rows db).redemptions ≡ (
        if has_key k rows
        then on_row (freed now) (find k db.redemptions)
        else find k db.redemptions)
release_rows-find now k [] db = refl
release_rows-find now k ((id, row) ∷ rows) db =
    release_rows-find now k rows (release_row now id row db)
    ∙ either_row (k == id) (has_key k rows) (find k db.redemptions)
        (find k (release_row now id row db).redemptions) now (release_row-find now id k row db)
