-- ===== src/Service/PromoBooks.antt =====
-- The promotion on the platform fee of an accepted order, and the books
-- (`applyPlatformFeePromo` of src/online-orders/online-orders.service.ts).
use Prim.Native.String.{String}
use lalaba_backend_showcase.Base.{
  ℕ, ◌≡◌, refl, ap, ◌∙◌, Option, none, some, arith, is_some, inl, inr, Bool-cases,
}
use lalaba_backend_showcase.Base.Int.{ℤ}
use lalaba_backend_showcase.Base.Keyed.{Keyed, find}
use lalaba_backend_showcase.Orders.Order.{OrderDb, PromoRedemption}
use lalaba_backend_showcase.Orders.Transition.{Actor}
use lalaba_backend_showcase.Promotions.Codes.{PromoCode}
use lalaba_backend_showcase.Promotions.Redeeming.{
  BranchReservation, claim_slot, reserve_for_branch, find_platform_fee_promo_for, next_id,
}
use lalaba_backend_showcase.Promotions.Counting.{reserve_for_branch-IsCounted}
use lalaba_backend_showcase.Pricing.FeeParts.{waivable_platform_fee_centavos}
use lalaba_backend_showcase.Pricing.Doubles.{Doubles}
use lalaba_backend_showcase.Service.Document.{OnlineOrder, fee_fields}
use lalaba_backend_showcase.Service.State.{World, pure}
use lalaba_backend_showcase.Service.Acceptance.{
  with_fee_promo, fee_reservation, with_reservation, reserve_fee_promo, apply_platform_fee_promo,
}
use lalaba_backend_showcase.Service.Books.{IsKept, Frame, Frame-refl, Moved-same}
use lalaba_backend_showcase.Service.Steps.{Lands, Lands-from, saved-Lands}
use lalaba_backend_showcase.Service.Keeping.{Landing}

module _ (d : Doubles) (branch_owner : ℕ → Option String) where
  reserve_for_branch-orders :
      (promos : Keyed PromoCode) (input : BranchReservation) (row : ℕ) (db : OrderDb)
      → (reserve_for_branch promos input row db).1.orders ≡ db.orders
  unfolding reserve_for_branch claim_slot
  reserve_for_branch-orders promos input row db = ground arith

  -- The reservation leaves every order where it is.
  reserved-Frame :
      (id : ℕ) (input : BranchReservation) (o : OnlineOrder d) (w : World d)
      → IsKept d id o w
      → let w' : World d = record w {
        db = (reserve_for_branch w.promos input (next_id w.db.redemptions) w.db).1;
      } in
        IsKept d id o w' × Frame d id w w'
  reserved-Frame id input o w k =
      let row = next_id w.db.redemptions in
      let same = reserve_for_branch-orders w.promos input row w.db in
      (
        record {
          there = ap (find id) same ∙ k.there;
          stored = k.stored;
          fees = k.fees;
          paid = k.paid;
        },
        record {
          orders = λ j ne. ap (find j) same;
          rests = λ j ne. refl;
          fees = λ j ne. refl;
          paid = λ j ne. refl;
          moved =
              Moved-same d id w (record w { db = (reserve_for_branch w.promos input row w.db).1 })
                (ap (find id) same);
          counts = (refl, λ c. reserve_for_branch-IsCounted w.promos input w.db c);
        },
      )

  reservation-Lands :
      (id promo_id : ℕ) (discount : ℤ) (o : OnlineOrder d) (w : World d)
      (row : Option PromoRedemption)
      → IsKept d id o w
      → Lands d id w (with_reservation d branch_owner id promo_id discount o row w)
  unfolding pure
  reservation-Lands id promo_id discount o w none k = (k, Frame-refl d id w)
  reservation-Lands id promo_id discount o w (some row) k =
      saved-Lands d id o (with_fee_promo d branch_owner promo_id discount o) w k refl refl refl

  reserve-Lands :
      (id : ℕ) (actor : Actor) (o : OnlineOrder d) (found : Option (ℕ × PromoCode)) (w : World d)
      → IsKept d id o w
      → Lands d id w (reserve_fee_promo d branch_owner id actor o found w)
  reserve-Lands id actor o none w k = (k, Frame-refl d id w)
  reserve-Lands id actor o (some (promo_id, promo)) w k =
      let discount = waivable_platform_fee_centavos (some (fee_fields d o)) in
      let input = fee_reservation d branch_owner id promo_id actor discount o in
      let r = reserve_for_branch w.promos input (next_id w.db.redemptions) w.db in
      let both = reserved-Frame id input o w k in
      Lands-from d id w (record w { db = r.1 }) _ both.1
        (reservation-Lands id promo_id discount o (record w { db = r.1 }) r.0 both.0)

  pub promo-Landing :
      (id : ℕ) (actor : Actor) (now : ℕ) (o : OnlineOrder d)
      → Landing d id o (apply_platform_fee_promo d branch_owner id actor now o)
  unfolding apply_platform_fee_promo
  promo-Landing id actor now o = record {
    lands = λ w k. elim (Bool-cases (is_some o.base.platform_fee_promo_id)) [
      | inl before ↦ rw before (k, Frame-refl d id w)
      | inr first ↦ rw first (
          reserve-Lands id actor o
            (find_platform_fee_promo_for actor.role o.rest.provider.branch_id now w.promos w.db) w
            k)
    ];
  }
