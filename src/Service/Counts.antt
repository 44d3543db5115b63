-- ===== src/Service/Counts.antt =====
-- Steps of a handler and the promotions' counters: where each counter was the number of slots that are
-- taken, within the cap, it is again (src/online-orders/online-orders.service.ts,
-- src/promotions/promotions.service.ts).
use lalaba_backend_showcase.Base.{
  ℕ, ◌≡◌, ◌≤◌, sym, refl, ap, ◌∙◌, not, ◌&&◌, ◌||◌, inl, inr, Bool-cases, is_some, subst,
  if◌then◌else◌,
}
use lalaba_backend_showcase.Base.Int.{ℤ, pos}
use lalaba_backend_showcase.Base.Keyed.{Keyed, find, IsUnique}
use lalaba_backend_showcase.Orders.Status.{
  OrderStatus, ◌===◌, assert_valid_transition, Verdict, allowed, conflict, rejected_by_provider,
  cancelled, completed,
}
use lalaba_backend_showcase.Orders.Order.{Order, OrderDb, PromoRedemption}
use lalaba_backend_showcase.Orders.Transition.{
  Actor, Applied, applied, invalid_transition, modified_concurrently, patched, recorded, is_current,
  is_truthy, settle_promo_for_transition, apply_transition,
}
use lalaba_backend_showcase.Promotions.Codes.{PromoCode}
use lalaba_backend_showcase.Promotions.Slots.{slots_taken}
use lalaba_backend_showcase.Promotions.Counted.{IsCounted}
use lalaba_backend_showcase.Promotions.Counting.{settle-IsCounted}
use lalaba_backend_showcase.Promotions.Releases.{release-IsCounted}
use lalaba_backend_showcase.Pricing.Doubles.{Doubles}
use lalaba_backend_showcase.Service.State.{World}

module _ (promos : Keyed PromoCode) where
  pub same-IsCounted :
      (db db' : OrderDb)
      → db'.redemptions ≡ db.redemptions
      → db'.counts ≡ db.counts
      → IsCounted promos db
      → IsCounted promos db'
  same-IsCounted db db' rows counts c = record {
    unique = subst IsUnique (sym rows) c.unique;
    counted = λ p n h.
        c.counted p n (sym (ap (find p) counts) ∙ h) ∙ ap (λ rs. pos (slots_taken p rs)) (sym rows);
    capped = λ p cap promo there is_cap.
        subst (λ rs. slots_taken p rs ≤ cap) (sym rows) (c.capped p cap promo there is_cap);
  }

  settled-IsCounted :
      (id : ℕ) (o : Order) (to : OrderStatus) (now : ℕ) (db : OrderDb)
      → IsCounted promos db
      → IsCounted promos (settle_promo_for_transition id o to now db)
  unfolding settle_promo_for_transition
  settled-IsCounted id o to now db c =
      elim (Bool-cases (not (is_truthy o.promo_code) && not (is_some o.platform_fee_promo_id))) [
        | inl none_held ↦ rw none_held c
        | inr held ↦ elim (Bool-cases ((to === rejected_by_provider) || (to === cancelled))) [
          | inl ends ↦ rw (held, ends) (release-IsCounted promos id now db c)
          | inr goes_on ↦ elim (Bool-cases (to === completed)) [
            | inl done ↦ rw (held, goes_on, done) (settle-IsCounted promos id db c)
            | inr other ↦ rw (held, goes_on, other) c
          ]
        ]
      ]

  pub transition-IsCounted :
      (id : ℕ) (o : Order) (to : OrderStatus) (actor : Actor) (now : ℕ) (db : OrderDb)
      → IsCounted promos db
      → IsCounted promos (apply_transition id o to actor now db).1
  unfolding apply_transition
  transition-IsCounted id o to actor now db c = go (assert_valid_transition o.status to)
    where
      written : IsCounted promos (recorded id o to actor now db)
      written = same-IsCounted db (recorded id o to actor now db) refl refl c

      go :
          (v : Verdict)
          → let r : Applied × OrderDb = elim v [
            | conflict ↦ (invalid_transition, db)
            | allowed ↦
                if is_current id o db
                then (
                  applied (patched to now o o),
                  settle_promo_for_transition id o to now (recorded id o to actor now db),
                )
                else (modified_concurrently, db)
          ] in
            IsCounted promos r.1
      go conflict = c
      go allowed = elim (Bool-cases (is_current id o db)) [
        | inl current ↦ rw current (settled-IsCounted id o to now _ written)
        | inr stale ↦ rw stale c
      ]

abbrev PromoBooks : Type 0
PromoBooks = Keyed PromoCode × Keyed PromoRedemption × Keyed ℤ

module _ (d : Doubles) where
  abbrev pub KeepsCounts : World d → World d → Type 0
  KeepsCounts w w' = (w'.promos ≡ w.promos) × (IsCounted w.promos w.db → IsCounted w.promos w'.db)

  pub KeepsCounts-trans : (u v w : World d) → KeepsCounts u v → KeepsCounts v w → KeepsCounts u w
  KeepsCounts-trans u v w first second = (
    second.0 ∙ first.0,
    λ c.
        subst (λ ps. IsCounted ps w.db) first.0
          (second.1 (subst (λ ps. IsCounted ps v.db) (sym first.0) (first.1 c))),
  )

  abbrev pub promo_books : World d → PromoBooks
  promo_books w = (w.promos, w.db.redemptions, w.db.counts)

  pub same-KeepsCounts : (w w' : World d) → promo_books w' ≡ promo_books w → KeepsCounts w w'
  same-KeepsCounts w w' e = (
    ap (λ (x : PromoBooks). x.0) e,
    λ c.
        same-IsCounted w.promos w.db w'.db (ap (λ (x : PromoBooks). x.1) e)
          (ap (λ (x : PromoBooks). x.2) e) c,
  )
