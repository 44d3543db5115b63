-- ===== src/Orders/Promos.antt =====
-- What a transition does to the promo slots that the order holds (`settlePromoForTransition` of
-- src/online-orders/online-orders.service.ts, `releaseForOrder` and `settleForOrder` of
-- src/promotions/promotions.service.ts).

use lalaba_backend_showcase.Base.{
  is_some, ℕ, ◌≡◌, refl, ap, ◌∙◌, inl, inr, Bool, true, false, not, ◌&&◌, ◌||◌, none, some, [], ◌∷◌,
  ◌==◌, if◌then◌else◌, arith, Bool-cases,
}
use lalaba_backend_showcase.Base.Keyed.{Keyed, find, IsUnique}
use lalaba_backend_showcase.Orders.Status.{
  OrderStatus, ◌===◌, rejected_by_provider, cancelled, completed,
}
use lalaba_backend_showcase.Orders.Order.{
  Order, OrderDb, PromoRedemption, redeemed, released, is_of, is_reserved, settled_row, settle_rows,
  settle_for_order, held, release_rows, release_for_order,
}
use lalaba_backend_showcase.Orders.Transition.{is_truthy, settle_promo_for_transition}
use lalaba_backend_showcase.Orders.SlotRows.{freed, on_row, has_key, release_rows-find}

-- The row holds a slot for the order.
abbrev pub holds : ℕ → PromoRedemption → Bool
holds order_id r = is_of order_id r.order_id && is_reserved r.status

held-absent :
    (order_id k : ℕ) (rs : Keyed PromoRedemption)
    → find k rs ≡ none
    → has_key k (held order_id rs) ≡ false
held-absent order_id k [] h = refl
held-absent order_id k (x ∷ rs) h = ground (arith, held-absent order_id k rs)

held-key :
    (order_id k : ℕ) (r : PromoRedemption) (rs : Keyed PromoRedemption)
    → IsUnique rs
    → find k rs ≡ some r
    → has_key k (held order_id rs) ≡ holds order_id r
held-key order_id k r [] u h = cc
held-key order_id k r (x ∷ rs) u h =
    ground (arith, held-absent order_id k rs, held-key order_id k r rs u.1, u.0)

settle_rows-find :
    (order_id k : ℕ) (rs : Keyed PromoRedemption)
    → find k (settle_rows order_id rs) ≡ on_row (settled_row order_id) (find k rs)
settle_rows-find order_id k [] = refl
settle_rows-find order_id k ((j, r) ∷ rs) = elim (Bool-cases (k == j)) [
  | inl e ↦ rw (e, find) refl
  | inr e ↦ rw (e, find) (settle_rows-find order_id k rs)
]

-- What becomes of a row when the order moves.
abbrev pub moved_row : ℕ → OrderStatus → ℕ → PromoRedemption → PromoRedemption
moved_row order_id to now r =
    if not (holds order_id r)
    then r
    else if (to === rejected_by_provider) || (to === cancelled)
    then record r { status = released; released_at = some now }
    else if to === completed
    then record r { status = redeemed }
    else r

released_row :
    (now k id : ℕ) (to : OrderStatus) (r : PromoRedemption) (db : OrderDb)
    → IsUnique db.redemptions
    → find k db.redemptions ≡ some r
    → ((to === rejected_by_provider) || (to === cancelled)) ≡ true
    → find k (release_rows now (held id db.redemptions) db).redemptions
      ≡ some (moved_row id to now r)
released_row now k id to r db u there ends =
    release_rows-find now k (held id db.redemptions) db
    ∙ rw (held-key id k r db.redemptions u there, there) (go (holds id r) refl)
  where
    go :
        (b : Bool)
        → holds id r ≡ b
        → (if b then on_row (freed now) (some r) else some r) ≡ some (moved_row id to now r)
    go true e = rw (e, ends) (ground arith)
    go false e = rw e refl

settled_by :
    (id : ℕ) (o : Order) (to : OrderStatus) (now : ℕ) (db : OrderDb)
    → (is_truthy o.promo_code || is_some o.platform_fee_promo_id) ≡ true
    → settle_promo_for_transition id o to now db ≡ (
        if (to === rejected_by_provider) || (to === cancelled)
        then release_rows now (held id db.redemptions) db
        else if to === completed
        then record db { redemptions = settle_rows id db.redemptions }
        else db)
unfolding settle_promo_for_transition settle_for_order release_for_order
settled_by id o to now db promo =
    let some_promo : (not (is_truthy o.promo_code) && not (is_some o.platform_fee_promo_id))
        ≡ false =
      neither (is_truthy o.promo_code) (is_some o.platform_fee_promo_id) promo in
    rw some_promo refl
  where
    neither : (a b : Bool) → (a || b) ≡ true → (not a && not b) ≡ false
    neither a b h = ground arith

redeemed_row :
    (now k id : ℕ) (to : OrderStatus) (r : PromoRedemption) (db : OrderDb)
    → find k db.redemptions ≡ some r
    → ((to === rejected_by_provider) || (to === cancelled)) ≡ false
    → (to === completed) ≡ true
    → find k (settle_rows id db.redemptions) ≡ some (moved_row id to now r)
redeemed_row now k id to r db there goes_on done =
    settle_rows-find id k db.redemptions ∙ rw there (go (holds id r) refl)
  where
    go : (b : Bool) → holds id r ≡ b → some (settled_row id r) ≡ some (moved_row id to now r)
    go true e = rw (e, goes_on, done) refl
    go false e = rw e refl

kept_row :
    (id now : ℕ) (to : OrderStatus) (r : PromoRedemption)
    → ((to === rejected_by_provider) || (to === cancelled)) ≡ false
    → (to === completed) ≡ false
    → r ≡ moved_row id to now r
kept_row id now to r goes_on other = go (holds id r) refl
  where
    go : (b : Bool) → holds id r ≡ b → r ≡ moved_row id to now r
    go true e = rw (e, goes_on, other) refl
    go false e = rw e refl

-- With a promotion on the order, a transition moves exactly the reserved rows of that order: a
-- rejection or a cancellation releases them, a completion redeems them, and every other transition
-- leaves them reserved; rows of other orders, and rows that are no longer reserved, stay.
pub promo_slots_follow_order :
    (id : ℕ) (o : Order) (to : OrderStatus) (now : ℕ) (db : OrderDb) (k : ℕ) (r : PromoRedemption)
    → IsUnique db.redemptions
    → find k db.redemptions ≡ some r
    → (is_truthy o.promo_code || is_some o.platform_fee_promo_id) ≡ true
    → find k (settle_promo_for_transition id o to now db).redemptions ≡ some (moved_row id to now r)
promo_slots_follow_order id o to now db k r u there promo =
    ap (λ (d : OrderDb). find k d.redemptions) (settled_by id o to now db promo)
    ∙ (elim (Bool-cases ((to === rejected_by_provider) || (to === cancelled))) [
      | inl ends ↦
          ap (λ (b : Bool). find k (branch b (to === completed)).redemptions) ends
          ∙ released_row now k id to r db u there ends
      | inr goes_on ↦ elim (Bool-cases (to === completed)) [
        | inl done ↦
            ap (λ (b : Bool × Bool). find k (branch b.0 b.1).redemptions) (pair goes_on done)
            ∙ redeemed_row now k id to r db there goes_on done
        | inr other ↦
            ap (λ (b : Bool × Bool). find k (branch b.0 b.1).redemptions) (pair goes_on other)
            ∙ there
            ∙ ap some (kept_row id now to r goes_on other)
      ]
    ])
  where
    pair : {a b c d : Bool} → a ≡ b → c ≡ d → ◌≡◌ {A = Bool × Bool} (a, c) (b, d)
    pair e f = rw (e, f) refl

    branch : Bool → Bool → OrderDb
    branch a b =
        if a
        then release_rows now (held id db.redemptions) db
        else if b
        then record db { redemptions = settle_rows id db.redemptions }
        else db
