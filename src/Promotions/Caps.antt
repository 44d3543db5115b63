-- ===== src/Promotions/Caps.antt =====
-- Sequences of redemptions, reservations and orders that end, and the cap of each promotion
-- (src/promotions/promotions.service.ts).
use Prim.Native.String.{String}
use lalaba_backend_showcase.Base.{ℕ, ◌≤◌, ◌≡◌, refl, some, List, [], ◌∷◌}
use lalaba_backend_showcase.Base.Int.{ℤ, pos}
use lalaba_backend_showcase.Base.Keyed.{Keyed, find, IsUnique}
use lalaba_backend_showcase.Orders.Order.{
  OrderDb, reserved, redeemed, settle_for_order, release_for_order,
}
use lalaba_backend_showcase.Promotions.Codes.{PromoCode, Accounts}
use lalaba_backend_showcase.Promotions.Redeeming.{
  RedeemPromoInput, redeem, reserve, BranchReservation, reserve_for_branch, next_id,
}
use lalaba_backend_showcase.Promotions.Slots.{slots_taken}
use lalaba_backend_showcase.Promotions.Counted.{IsCounted}
use lalaba_backend_showcase.Promotions.Counting.{
  create-IsCounted, reserve_for_branch-IsCounted, settle-IsCounted,
}
use lalaba_backend_showcase.Promotions.Releases.{release-IsCounted}

-- A redemption carries the database that its code was checked against, which may be any other.
pub data PromoCall : Type 0 where
  redeem_code reserve_code : RedeemPromoInput → ℕ → OrderDb → PromoCall
  reserve_branch : BranchReservation → PromoCall
  order_completed : ℕ → PromoCall
  order_ended : ℕ → ℕ → PromoCall

module _ (accounts : Accounts) (trimmed_upper : String → String) (promos : Keyed PromoCode) where
  unfoldable pub run : PromoCall → OrderDb → OrderDb
  run (redeem_code input now seen) db =
      (redeem accounts trimmed_upper promos input (next_id db.redemptions) now seen db).1
  run (reserve_code input now seen) db =
      (reserve accounts trimmed_upper promos input (next_id db.redemptions) now seen db).1
  run (reserve_branch input) db = (reserve_for_branch promos input (next_id db.redemptions) db).1
  run (order_completed order_id) db = settle_for_order order_id db
  run (order_ended order_id now) db = release_for_order order_id now db

  unfoldable pub run_promos : List PromoCall → OrderDb → OrderDb
  unfolding run
  run_promos [] db = db
  run_promos (c ∷ cs) db = run_promos cs (run c db)

  run-IsCounted :
      (c : PromoCall) (db : OrderDb)
      → IsUnique promos
      → IsCounted promos db
      → IsCounted promos (run c db)
  unfolding run
  run-IsCounted (redeem_code input now seen) db u k =
      create-IsCounted promos accounts trimmed_upper input redeemed now seen db u refl k
  run-IsCounted (reserve_code input now seen) db u k =
      create-IsCounted promos accounts trimmed_upper input reserved now seen db u refl k
  run-IsCounted (reserve_branch input) db u k = reserve_for_branch-IsCounted promos input db k
  run-IsCounted (order_completed order_id) db u k = settle-IsCounted promos order_id db k
  run-IsCounted (order_ended order_id now) db u k = release-IsCounted promos order_id now db k

  run_promos-IsCounted :
      (cs : List PromoCall) (db : OrderDb)
      → IsUnique promos
      → IsCounted promos db
      → IsCounted promos (run_promos cs db)
  unfolding run_promos
  run_promos-IsCounted [] db u k = k
  run_promos-IsCounted (c ∷ cs) db u k =
      run_promos-IsCounted cs (run c db) u (run-IsCounted c db u k)

  -- A promotion is never over-issued. Through any sequence of redemptions and reservations of
  -- customers, each checked against a database that may be out of date, of reservations for
  -- branches, and of orders that complete or end: the redemptions of a promotion that were not
  -- released are at most its cap, and its counter is their number, where this was so at the start.
  pub promotion_cap_holds :
      (cs : List PromoCall) (db : OrderDb) (p cap : ℕ) (promo : PromoCode) (n : ℤ)
      → IsUnique promos
      → IsCounted promos db
      → find p promos ≡ some promo
      → promo.usage_cap_total ≡ some cap
      → find p (run_promos cs db).counts ≡ some n
      → (slots_taken p (run_promos cs db).redemptions ≤ cap)
        × (n ≡ pos (slots_taken p (run_promos cs db).redemptions))
  promotion_cap_holds cs db p cap promo n u k there is_cap count =
      let after = run_promos-IsCounted cs db u k in
      (after.capped p cap promo there is_cap, after.counted p n count)
