-- ===== src/Service/State.antt =====
-- The database that the handlers of src/online-orders/online-orders.service.ts work on, and the
-- shape of a handler's steps: they read and write it, and return or throw.
use Prim.Native.String.{String}
use lalaba_backend_showcase.Base.{ℕ, Bool, Option, some, List, if◌then◌else◌}
use lalaba_backend_showcase.Base.Keyed.{Keyed, find, update}
use lalaba_backend_showcase.Orders.Status.{OrderStatus}
use lalaba_backend_showcase.Orders.Order.{Order, OrderDb}
use lalaba_backend_showcase.Orders.Transition.{
  Actor, Applied, applied, invalid_transition, modified_concurrently, apply_transition,
}
use lalaba_backend_showcase.Wallets.State.{Db, Failure, Action, Result, ok, err}
use lalaba_backend_showcase.Promotions.Codes.{PromoCode}
use lalaba_backend_showcase.Pricing.Doubles.{Doubles}
use lalaba_backend_showcase.Service.Document.{Rest, OnlineOrder, OnlineTransaction}

pub data Refusal : Type 0 where
  not_found forbidden bad_request conflict : Refusal
  of_wallet : Failure → Refusal

pub data Outcome (A : Type 0) : Type 0 where
  done : A → Outcome A
  refused : Refusal → Outcome A

-- The counter that accepts of one branch and day write to, so that they conflict.
pub record CapCounter : Type 0 where
  pub branch_id : ℕ
  pub day_key : String
  pub accepted_count : ℕ

-- A signed-in user, as far as the handlers read it; `role` is `roleIdOf` of the user.
pub record User : Type 0 where
  pub uid : String
  pub role : String
  pub merchant_id : Option String
  pub branch_ids : List ℕ

abbrev pub as_actor : User → Option String → Actor
as_actor u note = record { uid = u.uid; role = u.role; note = note }

-- A step on a database of type `W`: it returns or throws.
abbrev pub StepOn : Type 0 → Type 0 → Type 0
StepOn W A = W → Outcome A × W

infixl 5 ◌>>=◌ ◌>>◌
unfoldable pub ◌>>=◌ : {W A B : Type 0} → StepOn W A → (A → StepOn W B) → StepOn W B
◌>>=◌ m f w = let (r, w') = m w in elim r [ done a ↦ f a w' | refused e ↦ (refused e, w') ]

abbrev pub ◌>>◌ : {W A B : Type 0} → StepOn W A → StepOn W B → StepOn W B
m >> k = m >>= λ _. k

unfoldable pub pure : {W A : Type 0} → A → StepOn W A
pure a w = (done a, w)

unfoldable pub throw : {W A : Type 0} → Refusal → StepOn W A
throw e w = (refused e, w)

unfoldable pub throw_if : {W : Type 0} → Bool → Refusal → StepOn W (Unit {0})
throw_if b e w = (if b then refused e else done tt, w)

-- `session.withTransaction`: what the body wrote is dropped when it throws.
unfoldable pub with_transaction : {W A : Type 0} → StepOn W A → StepOn W A
with_transaction m w =
    let (r, w') = m w in elim r [ done a ↦ (done a, w') | refused e ↦ (refused e, w) ]

module _ (d : Doubles) where
  -- An order's document is in two collections, one for each half, under the same id.
  pub record World : Type 0 where
    pub db : OrderDb
    pub promos : Keyed PromoCode
    pub rests : Keyed (Rest d)
    pub wallets : Db
    pub transactions : List OnlineTransaction
    pub cap_counters : List CapCounter

  abbrev pub Step : Type 0 → Type 0
  Step A = StepOn World A

  abbrev pub found : Option Order → Option (Rest d) → Outcome (OnlineOrder d)
  found (some b) (some r) = done (record { base = b; rest = r })
  found _ _ = refused not_found

  unfoldable pub find_order_or_throw : ℕ → Step (OnlineOrder d)
  find_order_or_throw id w = (found (find id w.db.orders) (find id w.rests), w)

  -- `order.save({ session })`
  unfoldable pub save : ℕ → OnlineOrder d → World → World
  save id o w = record w {
    db = record w.db { orders = update id (λ _. o.base) w.db.orders };
    rests = update id (λ _. o.rest) w.rests;
  }

  abbrev pub after_transition : OnlineOrder d → Applied → Outcome (OnlineOrder d)
  after_transition o (applied b) = done (record o { base = b })
  after_transition o invalid_transition = refused conflict
  after_transition o modified_concurrently = refused bad_request

  -- `applyTransition` on the document in memory.
  unfoldable pub transition : ℕ → OrderStatus → Actor → ℕ → OnlineOrder d → Step (OnlineOrder d)
  transition id to actor now o w =
      let r = apply_transition id o.base to actor now w.db in
      (after_transition o r.0, record w { db = r.1 })

  abbrev pub after_wallet : OnlineOrder d → Result (Unit {0}) → Outcome (OnlineOrder d)
  after_wallet o (ok u) = done o
  after_wallet o (err e) = refused (of_wallet e)

  -- A call of the wallets' service in the same session.
  unfoldable pub call_wallet : Action (Unit {0}) → OnlineOrder d → Step (OnlineOrder d)
  call_wallet m o w = let r = m w.wallets in (after_wallet o r.0, record w { wallets = r.1 })

  unfoldable pub saved : ℕ → OnlineOrder d → Step (OnlineOrder d)
  unfolding save
  saved id o w = (done o, save id o w)
