-- ===== src/Service/Settled.antt =====
-- What is settled when a handler returns: the money that the customer owes, and the fee that the
-- provider owes (src/online-orders/online-orders.service.ts).
use Prim.Native.String.{String}
use lalaba_backend_showcase.Base.{
  ℕ, ◌-◌, ◌≤◌, ◌≡◌, refl, sym, ap, ◌∙◌, Option, some, List, or_else, arith, ltb, subst,
}
use lalaba_backend_showcase.Base.Int.{ℤ, pos, ◌+ℤ◌, int_laws, pos_part, neg_part}
use lalaba_backend_showcase.Base.Keyed.{find}
use lalaba_backend_showcase.Orders.Status.{OrderStatus, completed, pickup_weighed}
use lalaba_backend_showcase.Orders.Order.{outstanding_centavos}
use lalaba_backend_showcase.Pricing.Doubles.{Doubles}
use lalaba_backend_showcase.Service.Document.{OnlineOrder, outstanding}
use lalaba_backend_showcase.Service.State.{done, User, World, Step}
use lalaba_backend_showcase.Service.Weighing.{Measurement}
use lalaba_backend_showcase.Service.Measured.{IsWeighed, lines_total, fee_on, due, owed-due}
use lalaba_backend_showcase.Service.Money.{PaymentCollectionFields, consume_outstanding_fee}
use lalaba_backend_showcase.Service.Access.{StaffUser}
use lalaba_backend_showcase.Service.Pickup.{two_transitions, record_pickup_weight}
use lalaba_backend_showcase.Service.Handover.{settle_balance, record_delivery, verify_self_pickup}
use lalaba_backend_showcase.Service.Books.{fee_sum, paid_sum, IsKept, Balanced}
use lalaba_backend_showcase.Service.PickupBooks.{record_pickup_weight-Keeps}
use lalaba_backend_showcase.Service.HandoverBooks.{record_delivery-Keeps, verify_self_pickup-Keeps}
use lalaba_backend_showcase.Service.Results.{
  Returning, Returning-then, after_any, Returning-in_transaction, Returning-pure, Returning-if,
  Returning-transition, Returning-fee, Returning-collection, read-then,
}
use lalaba_backend_showcase.Service.WeighIns.{Charged, weight-Returning}

pub data Handover : Type 0 where
  by_courier at_counter : Handover

module _ (d : Doubles) (branch_owner : ℕ → Option String)
    (find_staff : String → Option StaffUser) where
  -- A hand-over in full: the order is completed, and its transactions cover its total.
  pub record HandedOver (id : ℕ) (o : OnlineOrder d) (w : World d) : Type 0 where
    pub status : o.base.status ≡ completed
    pub stored : find id w.db.orders ≡ some o.base
    pub covered : or_else o.base.customer_total_centavos 0 ≤ paid_sum id w.transactions

  abbrev CompletedPaid : OnlineOrder d → Type 0
  CompletedPaid o = (o.base.status ≡ completed) × (outstanding d o ≡ 0)

  settle_balance-pays :
      (id : ℕ) (actor : User) (input : PaymentCollectionFields) (now : ℕ) (o : OnlineOrder d)
      → Returning d
          (λ o'. outstanding d o' ≡ 0)
          (settle_balance d branch_owner find_staff id actor input now o)
  unfolding settle_balance
  settle_balance-pays id actor input now o =
      Returning-if d (ltb 0 (outstanding d o)) _ _
        (λ owes.
          Returning-then d (λ o'. outstanding d o' ≡ 0) _ _
            (Returning-collection d id actor input _ now o) λ o1 p. keeps_paid o1 p)
        λ even. Returning-pure d o (ground arith)
    where
      keeps_paid :
          (o1 : OnlineOrder d)
          → outstanding d o1 ≡ 0
          → Returning d (λ o'. outstanding d o' ≡ 0) (consume_outstanding_fee d id o1)
      keeps_paid o1 p = record {
        returns = λ w b e.
            let same = ((Returning-fee d id o1).returns w b e).base in
            ap (λ c. outstanding_centavos c) same ∙ p;
      }

  completes :
      (id : ℕ) (to : OrderStatus) (actor : User) (now : ℕ) (o : OnlineOrder d)
      → outstanding d o ≡ 0
      → Returning d CompletedPaid
          (two_transitions d branch_owner find_staff id to completed actor now o)
  completes id to actor now o p =
      Returning-then d (λ o'. outstanding d o' ≡ 0) _ _ (Returning-transition d id to _ now o p)
        λ o1 p1. Returning-transition d id completed _ now o1 (refl, p1)

  delivery-Returning :
      (id : ℕ) (courier : User) (input : PaymentCollectionFields) (keys : List String) (now : ℕ)
      → Returning d CompletedPaid
          (record_delivery d branch_owner find_staff id courier input keys now)
  unfolding record_delivery
  delivery-Returning id courier input keys now = after_any d _ _ λ o. after_any d _ _ λ a.
      after_any d _ _ λ b. Returning-in_transaction d _ (
        after_any d _ _ λ o1.
          Returning-then d (λ o'. outstanding d o' ≡ 0) _ _
            (settle_balance-pays id courier input now o1) λ o2 p. completes id _ courier now o2 p)

  self_pickup-Returning :
      (id : ℕ) (actor : User) (input : PaymentCollectionFields) (keys : List String) (now : ℕ)
      → Returning d CompletedPaid
          (verify_self_pickup d branch_owner find_staff id actor input keys now)
  unfolding verify_self_pickup
  self_pickup-Returning id actor input keys now = after_any d _ _ λ o. after_any d _ _ λ a.
      after_any d _ _ λ b. Returning-in_transaction d _ (
        after_any d _ _ λ o1.
          Returning-then d (λ o'. outstanding d o' ≡ 0) _ _
            (settle_balance-pays id actor input now o1) λ o2 p. completes id _ actor now o2 p)

  covers : (total collected : ℕ) → total - collected ≡ 0 → total ≤ collected
  covers total collected h = omega arith

  handed_over :
      (id : ℕ) (o : OnlineOrder d) (w : World d)
      → IsKept d id o w
      → CompletedPaid o
      → HandedOver id o w
  handed_over id o w k (status, money) = record {
    status = status;
    stored = k.there;
    covered =
        subst (λ n. or_else o.base.customer_total_centavos 0 ≤ n) (sym k.paid)
          (covers (or_else o.base.customer_total_centavos 0)
            (or_else o.base.amount_collected_centavos 0) money);
  }

  -- The two ways in which laundry changes hands for good.
  abbrev pub hand_over :
      Handover → ℕ → User → PaymentCollectionFields → List String → ℕ → Step d (OnlineOrder d)
  hand_over by_courier = record_delivery d branch_owner find_staff
  hand_over at_counter = verify_self_pickup d branch_owner find_staff

  -- Laundry is handed over only against full payment: where the books are balanced and the courier's
  -- delivery or the counter's self-pickup returns, the stored order is completed and the
  -- transactions recorded for it add up to at least its total.
  pub handover_is_paid :
      (how : Handover) (id : ℕ) (actor : User) (input : PaymentCollectionFields)
      (keys : List String) (now : ℕ) (w : World d) (o : OnlineOrder d)
      → Balanced d w
      → (hand_over how id actor input keys now w).0 ≡ done o
      → HandedOver id o (hand_over how id actor input keys now w).1
  handover_is_paid by_courier id actor input keys now w o bal e =
      handed_over id o _
        ((record_delivery-Keeps d branch_owner find_staff id actor input keys now).kept w o bal e)
        ((delivery-Returning id actor input keys now).returns w o e)
  handover_is_paid at_counter id actor input keys now w o bal e =
      handed_over id o _
        ((verify_self_pickup-Keeps d branch_owner find_staff id actor input keys now).kept w o bal
          e)
        ((self_pickup-Returning id actor input keys now).returns w o e)

  balance_of_fee : (c s : ℤ) → c +ℤ s ≡ pos 0 → s +ℤ c ≡ pos 0
  balance_of_fee c s h =
      let hp = ap pos_part h in let hn = ap neg_part h in omega (int_laws, hp, hn)

  -- A weigh-in of the stored order: the document that it returns is priced by the measurement, and
  -- the ledger holds the fee that is due of it.
  pub record WeighedIn (id : ℕ) (m : Measurement d) (o : OnlineOrder d) (w after : World d)
      : Type 0 where
    pub before : OnlineOrder d
    pub read : find id w.db.orders ≡ some before.base
    pub read_rest : find id w.rests ≡ some before.rest
    pub status : o.base.status ≡ pickup_weighed
    pub stored : find id after.db.orders ≡ some o.base
    pub stored_rest : find id after.rests ≡ some o.rest
    pub prices : IsWeighed d m before o
    pub fees :
        fee_sum id after.wallets.ledger
          +ℤ due d
              (fee_on d (lines_total d o.rest.service_lines) before)
              o.rest.pricing.platform_fee_discount_centavos
        ≡ pos 0

  -- The weigh-in debits exactly the fee of what was weighed: where the books are balanced and it
  -- returns, each line of the stored order costs what its own entry of the measurement says, or the
  -- whole measurement where it has none, by the rates of its pricing type; the platform fee is the
  -- order's percentage of the lines' sum; and the ledger's rows for the order, an earlier weigh-in's
  -- included, add up to minus that fee, less the discount of a promotion.
  pub weighed_fee_is_debited :
      (id : ℕ) (courier : User) (m : Measurement d) (keys : List String) (now : ℕ) (w : World d)
      (o : OnlineOrder d)
      → Balanced d w
      → (record_pickup_weight d branch_owner find_staff id courier m keys now w).0 ≡ done o
      → WeighedIn id m o w
          (record_pickup_weight d branch_owner find_staff id courier m keys now w).1
  unfolding Charged record_pickup_weight
  weighed_fee_is_debited id courier m keys now w o bal e =
      let kept =
        (record_pickup_weight-Keeps d branch_owner find_staff id courier m keys now).kept w o bal
          e in
      let (before, read, read_rest, runs) = read-then d id _ w o e in
      let (status, prices, fee) =
        (weight-Returning d branch_owner find_staff id courier m keys now before).returns w o
          runs in
      let owed = owed-due d o _ prices.fee in
      record {
        before = before;
        read = read;
        read_rest = read_rest;
        status = status;
        stored = kept.there;
        stored_rest = kept.stored;
        prices = prices;
        fees = balance_of_fee _ _ (
            ap
              (λ c.
                c
                +ℤ fee_sum id
                    (record_pickup_weight d branch_owner find_staff id courier m keys now
                      w).1.wallets.ledger)
              (sym (fee ∙ owed))
            ∙ kept.fees);
      }
