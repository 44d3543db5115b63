-- ===== src/Service/CapChecks.antt =====
-- Where the cap on a washer's day is checked (src/online-orders/online-orders.service.ts).
use Prim.Native.String.{String}
use text.Mathlib.Text.{◌==◌ as str_eq}
use lalaba_backend_showcase.Base.{
  ℕ, ◌≡◌, refl, sym, ap, ◌∙◌, true, Option, none, some, if◌then◌else◌, arith, inl, inr, Bool-cases,
  Option-cases, subst,
}
use lalaba_backend_showcase.Base.Keyed.{find}
use lalaba_backend_showcase.Orders.Status.{
  OrderStatus, assert_valid_transition, includes, cap_counted_statuses, provider_change_proposed,
  accepted_by_provider, awaiting_pickup_assignment,
}
use lalaba_backend_showcase.Orders.Transition.{Actor}
use lalaba_backend_showcase.Policy.Provider.{washer}
use lalaba_backend_showcase.Pricing.Doubles.{Doubles}
use lalaba_backend_showcase.Service.Document.{OnlineOrder}
use lalaba_backend_showcase.Service.State.{Outcome, done, User, World, pure, throw_if}
use lalaba_backend_showcase.Service.Access.{is_washer, assert_customer}
use lalaba_backend_showcase.Service.Eligibility.{
  WasherProfile, BookableProvider, Providers, MapLocation, assert_provider_bookable, washer_fault,
}
use lalaba_backend_showcase.Service.Cap.{reserve_daily_cap_slot}
use lalaba_backend_showcase.Service.Decisions.{
  is_provider_pickup, routed, as_customer, respond_to_provider_change,
}
use lalaba_backend_showcase.Service.Acceptance.{bookable_provider, washer_cap, accept_order}
use lalaba_backend_showcase.Service.Books.{SameBooks}
use lalaba_backend_showcase.Service.Quiets.{quiet, ownership-Quiet}
use lalaba_backend_showcase.Service.AcceptBooks.{wallet_gate-Quiet, counter-Quiet}
use lalaba_backend_showcase.Service.Results.{Returning, Returning-wallet, moved}
use lalaba_backend_showcase.Service.Runs.{
  IsRefused, handler_runs, >>=-runs, with_transaction-runs, transition_runs,
}
use lalaba_backend_showcase.Service.Refusals.{RefusingAt, then_at, refused_first, IsFull, full_slot}

module _ (d : Doubles) where
  open d use {Double}

  module _ (branch_owner : ℕ → Option String)
      (distance_km : MapLocation d → MapLocation d → Double) where
    -- The provider of a washer's order is that washer, with her cap.
    provider-Returning :
        (ps : Providers d) (o : OnlineOrder d) (wp : WasherProfile d)
        → o.rest.provider.provider_type ≡ washer
        → find o.rest.provider.branch_id ps.washers ≡ some wp
        → Returning d (λ p. p.washer ≡ some wp) (bookable_provider d branch_owner distance_km ps o)
    unfolding assert_provider_bookable washer_fault
    provider-Returning ps o wp kind profile = record {
      returns = λ w p e. elim (Option-cases (find o.rest.provider.branch_id ps.branches)) [
        | inl none_there ↦ ground arith
        | inr (b, there) ↦ ground arith
      ];
    }

    cap_of_washer :
        (o o' : OnlineOrder d) (p : BookableProvider d) (wp : WasherProfile d)
        → o' ≡ o
        → o.rest.provider.provider_type ≡ washer
        → p.washer ≡ some wp
        → washer_cap d branch_owner distance_km o' p.washer ≡ wp.max_orders_per_day
    cap_of_washer o o' p wp same kind profile =
        ap (λ x. washer_cap d branch_owner distance_km o' x) profile
        ∙ ap
            (λ (x : OnlineOrder d).
              if is_washer x.rest.provider.provider_type then wp.max_orders_per_day else none)
            same
        ∙ ap (λ k. if is_washer k then wp.max_orders_per_day else none) kind

    -- On a full day a washer's acceptance is refused.
    full_day_refuses_accept :
        (ps : Providers d) (id most : ℕ) (actor : User) (today : String) (now : ℕ) (w : World d)
        (o : OnlineOrder d) (wp : WasherProfile d)
        → find id w.db.orders ≡ some o.base
        → find id w.rests ≡ some o.rest
        → o.rest.provider.provider_type ≡ washer
        → find o.rest.provider.branch_id ps.washers ≡ some wp
        → wp.max_orders_per_day ≡ some most
        → IsFull d id most today o w
        → IsRefused d (accept_order d branch_owner distance_km ps id actor today now w)
    unfolding accept_order
    full_day_refuses_accept ps id most actor today now w o wp there stored kind profile cap_set
          full =
        subst (λ (x : Outcome (OnlineOrder d) × World d). IsRefused d x)
          (sym (handler_runs d id o _ w there stored))
          ((then_at d w (λ _. Unit {0}) _ _ (ownership-Quiet d branch_owner _ actor)
              (record { returns = λ v a e. tt })
              λ a u.
                then_at d w (λ p. p.washer ≡ some wp) _ _ (quiet d _ λ v. refl)
                  (provider-Returning ps o wp kind profile)
                  λ p known.
                    then_at d w (λ o'. o' ≡ o) _ _ (wallet_gate-Quiet d branch_owner _ _ o)
                      (Returning-wallet d _ o refl)
                      λ o' same.
                        then_at d w (λ _. Unit {0}) _ _
                          (counter-Quiet d branch_owner distance_km o' p.washer today)
                          (record { returns = λ v b e. tt })
                          λ b v. refused_first d w _ _ (slot o' p known same)).refuses
            w (same_books w))
      where
        same_books : (v : World d) → SameBooks d v v
        same_books v = record {
          orders = refl;
          rests = refl;
          ledger = refl;
          transactions = refl;
          promotions = refl;
        }

        slot :
            (o' : OnlineOrder d) (p : BookableProvider d)
            → p.washer ≡ some wp
            → o' ≡ o
            → RefusingAt d w (
                reserve_daily_cap_slot d id
                  (washer_cap d branch_owner distance_km o' p.washer)
                  today
                  o')
        slot o' p known same =
            subst (λ (x : Option ℕ). RefusingAt d w (reserve_daily_cap_slot d id x today o'))
              (sym (cap_of_washer o o' p wp same kind known ∙ cap_set))
              (subst
                (λ (x : OnlineOrder d).
                  RefusingAt d w (reserve_daily_cap_slot d id (some most) today x))
                (sym same) (full_slot d id most today o w full))

    customer_passes :
        (o : OnlineOrder d) (customer : User) (w : World d)
        → str_eq o.rest.customer_uid customer.uid ≡ true
        → assert_customer d o customer w ≡ (done tt, w)
    unfolding assert_customer throw_if
    customer_passes o customer w e = rw e refl

    takes_a_slot :
        (s : OrderStatus) → s ≡ accepted_by_provider → includes cap_counted_statuses s ≡ true
    unfolding cap_counted_statuses
    takes_a_slot s e = ap (includes cap_counted_statuses) e

    -- The document that an approval returns: its status is one that the daily cap counts.
    pub record Approved (id : ℕ) (customer : User) (now : ℕ) (w : World d) : Type 0 where
      pub order : OnlineOrder d
      pub returned :
          (respond_to_provider_change d branch_owner id customer true now w).0 ≡ done order
      pub counted : includes cap_counted_statuses order.base.status ≡ true

    routed-runs :
        (id : ℕ) (actor : Actor) (now : ℕ) (o : OnlineOrder d) (w : World d)
        → find id w.db.orders ≡ some o.base
        → o.base.status ≡ accepted_by_provider
        → (o' : OnlineOrder d) × (w' : World d) × (routed d branch_owner id actor now o w
            ≡ (done o', w'))
          × (includes cap_counted_statuses o'.base.status ≡ true)
    unfolding assert_valid_transition cap_counted_statuses pure
    routed-runs id actor now o w there status =
        elim (Bool-cases (is_provider_pickup o.rest.pickup_mode)) [
          | inl pickup ↦
              let m =
                transition_runs d id awaiting_pickup_assignment actor now o w there
                  (ap (λ s. assert_valid_transition s awaiting_pickup_assignment) status) in
              (moved d awaiting_pickup_assignment now o, m.after, rw pickup m.runs, refl)
          | inr dropoff ↦ (o, w, rw dropoff refl, ap (includes cap_counted_statuses) status)
        ]

    approval-runs :
        (id : ℕ) (customer : User) (now : ℕ) (w : World d) (o : OnlineOrder d)
        → find id w.db.orders ≡ some o.base
        → find id w.rests ≡ some o.rest
        → o.base.status ≡ provider_change_proposed
        → str_eq o.rest.customer_uid customer.uid ≡ true
        → Approved id customer now w
    unfolding respond_to_provider_change assert_valid_transition
    approval-runs id customer now w o there stored status own =
        let actor = as_customer d branch_owner customer none in
        let first =
          transition_runs d id accepted_by_provider actor now o w there
            (ap (λ s. assert_valid_transition s accepted_by_provider) status) in
        let (o', w', second, counted) =
          routed-runs id actor now (moved d accepted_by_provider now o) first.after first.there
            refl in
        record {
          order = o';
          returned =
              ap (λ (r : Outcome (OnlineOrder d) × World d). r.0)
                (handler_runs d id o _ w there stored
                  ∙ >>=-runs d _ _ w w tt (customer_passes o customer w own)
                  ∙ with_transaction-runs d _ w w' o' (
                      >>=-runs d _ _ w first.after (moved d accepted_by_provider now o) first.runs
                      ∙ second));
          counted = counted;
        }

    -- The cap on a washer's day binds her own acceptance only: where a change that she proposed waits
    -- for the customer, and the other orders of its day fill the cap, the acceptance is refused, but
    -- the customer's approval returns an order with a status that takes a slot of that day.
    pub cap_binds_accept_only :
        (ps : Providers d) (id most : ℕ) (actor customer : User) (today : String) (now : ℕ)
        (w : World d) (o : OnlineOrder d) (wp : WasherProfile d)
        → find id w.db.orders ≡ some o.base
        → find id w.rests ≡ some o.rest
        → o.rest.provider.provider_type ≡ washer
        → find o.rest.provider.branch_id ps.washers ≡ some wp
        → wp.max_orders_per_day ≡ some most
        → IsFull d id most today o w
        → o.base.status ≡ provider_change_proposed
        → str_eq o.rest.customer_uid customer.uid ≡ true
        → IsRefused d (accept_order d branch_owner distance_km ps id actor today now w)
          × Approved id customer now w
    cap_binds_accept_only ps id most actor customer today now w o wp there stored kind profile
          cap_set full status own =
        (
          full_day_refuses_accept ps id most actor today now w o wp there stored kind profile
              cap_set full,
          approval-runs id customer now w o there stored status own,
        )
