-- ===== src/Service/AcceptBooks.antt =====
-- Acceptance and the books: the gate of the wallet, the cap of the day, the promotion
-- (src/online-orders/online-orders.service.ts).
use Prim.Native.String.{String}
use lalaba_backend_showcase.Base.{
  ℕ, ◌≡◌, refl, Bool, true, false, Option, none, some, List, if◌then◌else◌, leb, arith,
}
use lalaba_backend_showcase.Base.Int.{ℤ}
use lalaba_backend_showcase.Orders.Transition.{Actor}
use lalaba_backend_showcase.Wallets.State.{Db, Result, ok, err}
use lalaba_backend_showcase.Wallets.Fees.{assert_can_accept_order}
use lalaba_backend_showcase.Pricing.Doubles.{Doubles}
use lalaba_backend_showcase.Service.Document.{OnlineOrder}
use lalaba_backend_showcase.Service.State.{
  Outcome, done, refused, bad_request, User, World, call_wallet, after_wallet,
}
use lalaba_backend_showcase.Service.Access.{is_washer}
use lalaba_backend_showcase.Service.Eligibility.{WasherProfile, Providers, MapLocation}
use lalaba_backend_showcase.Service.Cap.{
  inc_counter, accepted_on, scheduled_day, reserve_daily_cap_slot, ensured,
}
use lalaba_backend_showcase.Service.Decisions.{is_provider_pickup, routed}
use lalaba_backend_showcase.Service.Acceptance.{with_counter, accepted_in_transaction, accept_order}
use lalaba_backend_showcase.Service.Books.{IsKept, SameBooks, SameBooks-IsKept, SameBooks-Frame}
use lalaba_backend_showcase.Service.Steps.{Safe}
use lalaba_backend_showcase.Service.Keeping.{
  Landing, Keeping, Quiet, Keeps, handler, after-Quiet, Landing-after-Quiet, in_transaction,
  Landing-then, Keeping-then, Landing-transition, Landing-pure, Landing-if,
}
use lalaba_backend_showcase.Service.Quiets.{quiet, ownership-Quiet}
use lalaba_backend_showcase.Service.PromoBooks.{promo-Landing}

module _ (d : Doubles) (branch_owner : ℕ → Option String) where
  open d use {Double}

  pub routed-Landing :
      (id : ℕ) (actor : Actor) (now : ℕ) (o : OnlineOrder d)
      → Landing d id o (routed d branch_owner id actor now o)
  routed-Landing id actor now o =
      Landing-if d (is_provider_pickup o.rest.pickup_mode) _ _
        (Landing-transition d id _ actor now o) (Landing-pure d id o)

  cap-Quiet :
      (id : ℕ) (cap : Option ℕ) (today : String) (o : OnlineOrder d)
      → Quiet d (reserve_daily_cap_slot d id cap today o)
  unfolding reserve_daily_cap_slot
  cap-Quiet id none today o = quiet d _ λ w. refl
  cap-Quiet id (some most) today o = record {
    same = λ w. go w (w.cap_counters) (
        leb most (
          accepted_on d id o.rest.provider.branch_id (scheduled_day d today o) w.db.orders
            w.rests));
  }
    where
      go :
          (w : World d) (counters : List _) (full : Bool)
          → let w' : World d = record w {
            cap_counters = inc_counter o.rest.provider.branch_id (scheduled_day d today o) counters;
          } in
            let r : Outcome (Unit {0}) × World d =
              (if full then (refused bad_request, w') else (done tt, w')) in
            SameBooks d w r.1
      go w counters true = record {
        orders = refl;
        rests = refl;
        ledger = refl;
        transactions = refl;
        promotions = refl;
      }
      go w counters false = record {
        orders = refl;
        rests = refl;
        ledger = refl;
        transactions = refl;
        promotions = refl;
      }

  -- The wallet is only read.
  gate-reads : (b : ℕ) (fee : ℤ) (db : Db) → (assert_can_accept_order b fee db).1.ledger ≡ db.ledger
  unfolding assert_can_accept_order
  gate-reads b fee db = ground arith

  pub wallet_gate-Quiet :
      (b : ℕ) (fee : ℤ) (o : OnlineOrder d)
      → Quiet d (call_wallet d (assert_can_accept_order b fee) o)
  unfolding call_wallet
  wallet_gate-Quiet b fee o = record {
    same = λ w. record {
      orders = refl;
      rests = refl;
      ledger = gate-reads b fee w.wallets;
      transactions = refl;
      promotions = refl;
    };
  }

  wallet_gate-Keeping :
      (id b : ℕ) (fee : ℤ) (o : OnlineOrder d)
      → Keeping d id o (call_wallet d (assert_can_accept_order b fee) o)
  unfolding call_wallet
  wallet_gate-Keeping id b fee o = record {
    keeps = λ w k. go w k (assert_can_accept_order b fee w.wallets) (gate-reads b fee w.wallets);
  }
    where
      untouched :
          (w : World d) (db' : Db)
          → db'.ledger ≡ w.wallets.ledger
          → SameBooks d w (record w { wallets = db' })
      untouched w db' e = record {
        orders = refl;
        rests = refl;
        ledger = e;
        transactions = refl;
        promotions = refl;
      }

      go :
          (w : World d)
          → IsKept d id o w
          → (r : Result (Unit {0}) × Db) → r.1.ledger ≡ w.wallets.ledger
          → Safe d id w (after_wallet d o r.0, record w { wallets = r.1 })
      go w k (ok u, db') e = (
        SameBooks-IsKept d id o w (record w { wallets = db' }) (untouched w db' e) k,
        SameBooks-Frame d id w (record w { wallets = db' }) (untouched w db' e),
      )
      go w k (err f, db') e = (
        o,
        SameBooks-IsKept d id o w (record w { wallets = db' }) (untouched w db' e) k,
        SameBooks-Frame d id w (record w { wallets = db' }) (untouched w db' e),
      )

  module _ (distance_km : MapLocation d → MapLocation d → Double) where
    accepted-Landing :
        (id : ℕ) (actor : Actor) (cap : Option ℕ) (today : String) (now : ℕ) (o : OnlineOrder d)
        → Landing d id o
            (accepted_in_transaction d branch_owner distance_km id actor cap today now o)
    accepted-Landing id actor cap today now o =
        Landing-after-Quiet d _ _ (cap-Quiet id cap today o) λ a.
          Landing-then d _ _ (Landing-transition d id _ actor now o) λ o1.
            Landing-then d _ _ (promo-Landing d branch_owner id actor now o1)
              λ o2. routed-Landing id actor now o2

    pub counter-Quiet :
        (o : OnlineOrder d) (washer : Option (WasherProfile d)) (today : String)
        → Quiet d (with_counter d branch_owner distance_km o washer today)
    unfolding ensured
    counter-Quiet o none today = quiet d _ λ w. refl
    counter-Quiet o (some washer) today = record {
      same = λ w. go w (is_washer o.rest.provider.provider_type);
    }
      where
        go :
            (w : World d) (b : Bool)
            → let r : Outcome (Unit {0}) × World d =
                (if b
                  then (done tt, ensured d o.rest.provider.branch_id today w)
                  else (done tt, w)) in
              SameBooks d w r.1
        go w true = record {
          orders = refl;
          rests = refl;
          ledger = refl;
          transactions = refl;
          promotions = refl;
        }
        go w false = record {
          orders = refl;
          rests = refl;
          ledger = refl;
          transactions = refl;
          promotions = refl;
        }

    pub accept_order-Keeps :
        (ps : Providers d) (id : ℕ) (actor : User) (today : String) (now : ℕ)
        → Keeps d id (accept_order d branch_owner distance_km ps id actor today now)
    unfolding accept_order
    accept_order-Keeps ps id actor today now = handler d id _ λ o.
        after-Quiet d _ _ (ownership-Quiet d branch_owner _ actor) λ a.
          after-Quiet d _ _ (quiet d _ λ w. refl) λ p.
            Keeping-then d _ _ (wallet_gate-Keeping id _ _ o) λ o1.
              after-Quiet d _ _ (counter-Quiet o1 p.washer today)
                λ b. in_transaction d _ (accepted-Landing id _ _ today now o1)
