-- ===== src/Orders/SameOrders.antt =====
-- The settlement of promo slots leaves orders and events as they are
-- (src/online-orders/online-orders.service.ts).
use lalaba_backend_showcase.Base.{
  is_some, ℕ, ◌≡◌, refl, ◌∙◌, inl, inr, not, ◌&&◌, ◌||◌, List, [], ◌∷◌, arith, Bool-cases,
}
use lalaba_backend_showcase.Orders.Status.{
  OrderStatus, ◌===◌, rejected_by_provider, cancelled, completed,
}
use lalaba_backend_showcase.Orders.Order.{
  Order, OrderDb, PromoRedemption, release_row, release_rows, release_for_order, settle_for_order,
  held,
}
use lalaba_backend_showcase.Orders.Transition.{is_truthy, settle_promo_for_transition}

SameOrders : OrderDb → OrderDb → Type 0
SameOrders db db' = (db'.orders ≡ db.orders) × (db'.events ≡ db.events)

release_row-SameOrders :
    (now id : ℕ) (row : PromoRedemption) (db : OrderDb) → SameOrders db (release_row now id row db)
unfolding SameOrders
release_row-SameOrders now id row db = ground arith

release_rows-SameOrders :
    (now : ℕ) (rows : List (ℕ × PromoRedemption)) (db : OrderDb)
    → SameOrders db (release_rows now rows db)
unfolding SameOrders
release_rows-SameOrders now [] db = (refl, refl)
release_rows-SameOrders now ((id, row) ∷ rows) db =
    let one = release_row-SameOrders now id row db in
    let rest = release_rows-SameOrders now rows (release_row now id row db) in
    (rest.0 ∙ one.0, rest.1 ∙ one.1)

promo-SameOrders :
    (id : ℕ) (o : Order) (to : OrderStatus) (now : ℕ) (db : OrderDb)
    → SameOrders db (settle_promo_for_transition id o to now db)
unfolding settle_promo_for_transition settle_for_order release_for_order SameOrders
promo-SameOrders id o to now db =
    elim (Bool-cases (not (is_truthy o.promo_code) && not (is_some o.platform_fee_promo_id))) [
      | inl e ↦ rw e (refl, refl)
      | inr e ↦ elim (Bool-cases ((to === rejected_by_provider) || (to === cancelled))) [
        | inl f ↦ rw (e, f) (release_rows-SameOrders now (held id db.redemptions) db)
        | inr f ↦ elim (Bool-cases (to === completed)) [
          | inl g ↦ rw (e, f, g) (refl, refl)
          | inr g ↦ rw (e, f, g) (refl, refl)
        ]
      ]
    ]

pub promo-SameOrders-orders :
    (id : ℕ) (o : Order) (to : OrderStatus) (now : ℕ) (db : OrderDb)
    → (settle_promo_for_transition id o to now db).orders ≡ db.orders
unfolding SameOrders
promo-SameOrders-orders id o to now db = (promo-SameOrders id o to now db).0

pub promo-SameOrders-events :
    (id : ℕ) (o : Order) (to : OrderStatus) (now : ℕ) (db : OrderDb)
    → (settle_promo_for_transition id o to now db).events ≡ db.events
unfolding SameOrders
promo-SameOrders-events id o to now db = (promo-SameOrders id o to now db).1

-- What workers hold: orders that they read, under their ids.
