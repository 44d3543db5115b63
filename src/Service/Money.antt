-- ===== src/Service/Money.antt =====
-- The steps in which money moves: the choice of the time to pay, the collection, and the part of
-- the platform fee that is still to be debited (src/online-orders/online-orders.service.ts).
use Prim.Native.String.{String}
use lalaba_backend_showcase.Base.{
  ℕ, ◌+◌, ◌-◌, Bool, true, false, not, ◌&&◌, ◌||◌, Option, none, some, [], ◌∷◌, ◌++◌, ltb,
  if◌then◌else◌, or_else, is_some,
}
use lalaba_backend_showcase.Base.Int.{ℤ, ◌-ℤ◌, ltb_ℤ, eqb_ℤ}
use lalaba_backend_showcase.Orders.Status.{OrderStatus}
use lalaba_backend_showcase.Orders.Transition.{is_truthy}
use lalaba_backend_showcase.Wallets.State.{Action}
use lalaba_backend_showcase.Wallets.Fees.{consume_fee, reverse_fee}
use lalaba_backend_showcase.Pricing.FeeParts.{chargeable_platform_fee_centavos}
use lalaba_backend_showcase.Pricing.Doubles.{Doubles}
use lalaba_backend_showcase.Service.Document.{
  PaymentMethod, cash, ewallet_outside_app, PaymentTiming, on_pickup, at_final_handover,
  OnlineTransactionStatus, OnlineTransaction, OnlineOrder, fee_fields, consumed_centavos,
  collected_centavos,
}
use lalaba_backend_showcase.Service.State.{
  Outcome, done, refused, bad_request, User, as_actor, Step, save, transition, call_wallet, ◌>>=◌,
  saved, with_transaction, pure, throw,
}

pub record PaymentCollectionFields : Type 0 where
  pub payment_timing : Option PaymentTiming
  pub payment_method : Option PaymentMethod
  pub reference_id : Option String
  pub tendered_centavos : Option ℕ

-- Whether the order is paid now, or later.
unfoldable pub resolve_pickup_payment_timing :
    Bool → PaymentCollectionFields → Outcome PaymentTiming
resolve_pickup_payment_timing allows_pay_at_handover input =
    elim (or_else input.payment_timing on_pickup) [
      | on_pickup ↦ done on_pickup
      | at_final_handover ↦
          if not allows_pay_at_handover
          then refused bad_request
          else if is_some input.payment_method || is_some input.tendered_centavos
          then refused bad_request
          else done at_final_handover
    ]

pub record Tender : Type 0 where
  pub tendered : Option ℕ
  pub change : Option ℕ

-- Cash that was handed over, and the change.
abbrev pub tender : PaymentMethod → Option ℕ → ℕ → Outcome Tender
tender method none due = done (record { tendered = none; change = none })
tender ewallet_outside_app (some t) due = refused bad_request
tender cash (some t) due =
    if ltb t due
    then refused bad_request
    else done (record { tendered = some t; change = some (t - due) })

abbrev pub is_ewallet : PaymentMethod → Bool
is_ewallet ewallet_outside_app = true
is_ewallet cash = false

-- The method and the tender of a collection, or why it is refused.
abbrev pub checked_payment : PaymentCollectionFields → ℕ → Outcome (PaymentMethod × Tender)
checked_payment input due = elim input.payment_method [
  | none ↦ refused bad_request
  | some method ↦
      if is_ewallet method && not (is_truthy input.reference_id)
      then refused bad_request
      else elim (tender method input.tendered_centavos due) [
        | refused e ↦ refused e
        | done t ↦ done (method, t)
      ]
]

module _ (d : Doubles) where
  abbrev pub either : {A : Type 0} → Option A → Option A → Option A
  either none b = b
  either (some a) b = some a

  abbrev pub paid :
      OnlineOrder d
      → User
      → PaymentCollectionFields
      → PaymentMethod
      → Tender
      → ℕ
      → ℕ
      → OnlineOrder d
  paid o actor input method t amount now =
      let prior = o.rest.payment_summary in
      record o {
        base = record o.base { amount_collected_centavos = some (collected_centavos d o + amount) };
        rest = record o.rest {
          payment_summary = record {
            method = some method;
            reference_id = either input.reference_id prior.reference_id;
            collected_by_uid = some actor.uid;
            collected_at = some (or_else prior.collected_at now);
            last_collected_at = some now;
            tendered_centavos = t.tendered;
            change_centavos = t.change;
          };
        };
      }

  abbrev pub transaction_of :
      ℕ
      → User
      → PaymentCollectionFields
      → PaymentMethod
      → Tender
      → ℕ
      → OnlineTransactionStatus
      → OnlineTransaction
  transaction_of id actor input method t amount status = record {
    order_id = id;
    payment_method = method;
    reference_id = input.reference_id;
    amount_centavos = amount;
    tendered_centavos = t.tendered;
    change_centavos = t.change;
    status = status;
    collected_by_uid = actor.uid;
    collected_by_role = actor.role;
  }

  -- The save, and the row of the transactions.
  unfoldable pub collect :
      ℕ
      → User
      → PaymentCollectionFields
      → PaymentMethod × Tender
      → ℕ
      → OnlineTransactionStatus
      → ℕ
      → OnlineOrder d
      → Step d (OnlineOrder d)
  collect id actor input (method, t) amount status now o w =
      let o' = paid o actor input method t amount now in
      let w' = save d id o' w in
      (
        done o',
        record w' {
          transactions =
              w'.transactions ++ transaction_of id actor input method t amount status ∷ [];
        },
      )

  unfoldable pub record_collection_transaction :
      ℕ
      → User
      → PaymentCollectionFields
      → ℕ
      → OnlineTransactionStatus
      → ℕ
      → OnlineOrder d
      → Step d (OnlineOrder d)
  unfolding collect
  record_collection_transaction id actor input amount status now o =
      elim (checked_payment input amount) [
        | refused e ↦ throw e
        | done p ↦ collect id actor input p amount status now o
      ]

  abbrev pub with_consumed : ℤ → OnlineOrder d → OnlineOrder d
  with_consumed owed o = record o {
    rest = record o.rest {
      pricing = record o.rest.pricing { platform_fee_consumed_centavos = some owed };
    };
  }

  abbrev pub owed_centavos : OnlineOrder d → ℤ
  owed_centavos o = chargeable_platform_fee_centavos (some (fee_fields d o))

  abbrev pub posted_fee : ℕ → Action (Unit {0}) → ℤ → OnlineOrder d → Step d (OnlineOrder d)
  posted_fee id call owed o = do o' ← call_wallet d call (with_consumed owed o); saved d id o'

  -- The difference is posted to the branch's wallet, and the order remembers what was debited.
  unfoldable pub consume_outstanding_fee : ℕ → OnlineOrder d → Step d (OnlineOrder d)
  consume_outstanding_fee id o =
      let owed = owed_centavos o in
      let consumed = consumed_centavos d o in
      let branch = o.rest.provider.branch_id in
      if eqb_ℤ owed consumed
      then pure o
      else if ltb_ℤ owed consumed
      then posted_fee id (reverse_fee branch (consumed -ℤ owed) id) owed o
      else posted_fee id (consume_fee branch (owed -ℤ consumed) id) owed o

  -- `saveAndTransition`
  unfoldable pub save_and_transition :
      ℕ → OrderStatus → User → Option String → ℕ → OnlineOrder d → Step d (OnlineOrder d)
  save_and_transition id to actor note now o =
      with_transaction do o' ← saved d id o; transition d id to (as_actor actor note) now o'
