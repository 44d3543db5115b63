-- ===== src/Service/Acceptance.antt =====
-- Accepting an order: the gates, the cap of the day, and the promotion on the platform fee
-- (`acceptOrder` and `applyPlatformFeePromo` of src/online-orders/online-orders.service.ts).
use Prim.Native.String.{String}
use lalaba_backend_showcase.Base.{ℕ, Option, none, some, if◌then◌else◌, or_else, is_some}
use lalaba_backend_showcase.Base.Int.{ℤ, pos}
use lalaba_backend_showcase.Orders.Status.{accepted_by_provider}
use lalaba_backend_showcase.Orders.Order.{PromoRedemption}
use lalaba_backend_showcase.Orders.Transition.{Actor}
use lalaba_backend_showcase.Promotions.Codes.{PromoCode}
use lalaba_backend_showcase.Promotions.Redeeming.{
  BranchReservation, reserve_for_branch, find_platform_fee_promo_for, next_id,
}
use lalaba_backend_showcase.Wallets.Fees.{assert_can_accept_order}
use lalaba_backend_showcase.Pricing.FeeParts.{waivable_platform_fee_centavos}
use lalaba_backend_showcase.Pricing.Doubles.{Doubles}
use lalaba_backend_showcase.Service.Document.{OnlineOrder, fee_fields}
use lalaba_backend_showcase.Service.State.{
  Outcome, done, refused, bad_request, User, as_actor, Step, find_order_or_throw, transition,
  call_wallet, ◌>>=◌, ◌>>◌, saved, with_transaction, pure,
}
use lalaba_backend_showcase.Service.Access.{assert_branch_ownership, is_washer}
use lalaba_backend_showcase.Service.Eligibility.{
  WasherProfile, BookableProvider, Bookable, bookable, Providers, MapLocation, accept,
  assert_provider_bookable,
}
use lalaba_backend_showcase.Service.Cap.{reserve_daily_cap_slot, ensured}
use lalaba_backend_showcase.Service.Decisions.{routed}

module _ (d : Doubles) (branch_owner : ℕ → Option String) where
  open d use {Double}

  abbrev pub with_fee_promo : ℕ → ℤ → OnlineOrder d → OnlineOrder d
  with_fee_promo promo_id discount o = record o {
    base = record o.base { platform_fee_promo_id = some promo_id };
    rest = record o.rest {
      pricing = record o.rest.pricing { platform_fee_discount_centavos = some discount };
    };
  }

  abbrev pub fee_reservation : ℕ → ℕ → Actor → ℤ → OnlineOrder d → BranchReservation
  fee_reservation id promo_id actor discount o = record {
    promo_id = promo_id;
    branch_id = o.rest.provider.branch_id;
    order_id = id;
    actor_uid = actor.uid;
    discount_centavos = discount;
  }

  -- A reservation that was made, and the order that remembers it; without one, the order as it was.
  abbrev pub with_reservation :
      ℕ → ℕ → ℤ → OnlineOrder d → Option PromoRedemption → Step d (OnlineOrder d)
  with_reservation id promo_id discount o none = pure o
  with_reservation id promo_id discount o (some row) =
      saved d id (with_fee_promo promo_id discount o)

  -- `reserveForBranch` commits on its own, before the transaction does.
  abbrev pub reserve_fee_promo :
      ℕ → Actor → OnlineOrder d → Option (ℕ × PromoCode) → Step d (OnlineOrder d)
  reserve_fee_promo id actor o none w = (done o, w)
  reserve_fee_promo id actor o (some (promo_id, promo)) w =
      let discount = waivable_platform_fee_centavos (some (fee_fields d o)) in
      let r =
        reserve_for_branch w.promos (fee_reservation id promo_id actor discount o)
          (next_id w.db.redemptions) w.db in
      with_reservation id promo_id discount o r.0 (record w { db = r.1 })

  -- No step of it throws, so the catch that keeps a promotion from failing an acceptance has nothing
  -- to catch here.
  unfoldable pub apply_platform_fee_promo : ℕ → Actor → ℕ → OnlineOrder d → Step d (OnlineOrder d)
  unfolding find_platform_fee_promo_for reserve_for_branch
  apply_platform_fee_promo id actor now o w =
      if is_some o.base.platform_fee_promo_id
      then (done o, w)
      else reserve_fee_promo id actor o
          (find_platform_fee_promo_for actor.role o.rest.provider.branch_id now w.promos w.db) w

  module _ (distance_km : MapLocation d → MapLocation d → Double) where
    abbrev pub checked_provider : Bookable d → Outcome (BookableProvider d)
    checked_provider (bookable p) = done p
    checked_provider _ = refused bad_request

    abbrev pub bookable_provider : Providers d → OnlineOrder d → Step d (BookableProvider d)
    bookable_provider ps o w = (
      checked_provider (
          assert_provider_bookable d distance_km ps w.wallets o.rest.provider.provider_type
            o.rest.provider.branch_id accept none),
      w,
    )

    -- The cap of an order that a washer takes.
    abbrev pub washer_cap : OnlineOrder d → Option (WasherProfile d) → Option ℕ
    washer_cap o none = none
    washer_cap o (some w) =
        if is_washer o.rest.provider.provider_type then w.max_orders_per_day else none

    abbrev pub with_counter : OnlineOrder d → Option (WasherProfile d) → String → Step d (Unit {0})
    with_counter o none today w = (done tt, w)
    with_counter o (some washer) today w =
        if is_washer o.rest.provider.provider_type
        then (done tt, ensured d o.rest.provider.branch_id today w)
        else (done tt, w)

    abbrev pub accepted_in_transaction :
        ℕ → Actor → Option ℕ → String → ℕ → OnlineOrder d → Step d (OnlineOrder d)
    accepted_in_transaction id actor cap today now o = do
      reserve_daily_cap_slot d id cap today o
      o1 ← transition d id accepted_by_provider actor now o
      o2 ← apply_platform_fee_promo id actor now o1
      routed d branch_owner id actor now o2

    unfoldable pub accept_order : Providers d → ℕ → User → String → ℕ → Step d (OnlineOrder d)
    accept_order ps id actor today now = do
      o ← find_order_or_throw d id
      assert_branch_ownership branch_owner o.rest.provider.branch_id actor
      p ← bookable_provider ps o
      o' ←
          call_wallet d
            (assert_can_accept_order o.rest.provider.branch_id
              (pos (or_else o.rest.pricing.platform_fee_centavos 0)))
            o
      with_counter o' p.washer today
      with_transaction
          (accepted_in_transaction id (as_actor actor none) (washer_cap o' p.washer) today now o')
