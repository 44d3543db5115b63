-- ===== src/Orders/Interleaving.antt =====
-- Several workers that read orders and apply transitions to what they read, in any order
-- (`applyTransition` of src/online-orders/online-orders.service.ts and its optimistic concurrency).

use lalaba_backend_showcase.Base.{
  ℕ, ◌-◌, ◌<◌, ◌≡◌, refl, ap, ◌∙◌, ◌≢◌, ◌⊎◌, inl, inr, Bool, true, false, Option, none, some, List,
  [], ◌∷◌, ◌++◌, ◌==◌, if◌then◌else◌, Bool-cases, Option-cases, ==_iff, All,
}
use lalaba_backend_showcase.Base.Keyed.{Keyed, find, update}
use lalaba_backend_showcase.Orders.Status.{
  OrderStatus, Verdict, allowed, conflict, assert_valid_transition,
}
use lalaba_backend_showcase.Orders.Order.{Order, OrderDb}
use lalaba_backend_showcase.Orders.Transition.{
  Actor, event_of, Applied, applied, invalid_transition, modified_concurrently, patched,
  settle_promo_for_transition, is_current, recorded, apply_transition,
}
use lalaba_backend_showcase.Orders.SameOrders.{promo-SameOrders-orders, promo-SameOrders-events}

pub record World : Type 0 where
  pub db : OrderDb
  pub read : List (ℕ × Order)

pub data Work : Type 0 where
  -- a worker reads the order
  load : ℕ → Work
  -- a worker applies a transition to the order that was read at that place of the list
  transition : ℕ → OrderStatus → Actor → ℕ → Work

abbrev pub read_at : ℕ → List (ℕ × Order) → Option (ℕ × Order)
read_at n [] = none
read_at n (x ∷ xs) = if n == 0 then some x else read_at (n - 1) xs

abbrev pub loaded : ℕ → Option Order → World → World
loaded id none w = w
loaded id (some o) w = record w { read = (id, o) ∷ w.read }

abbrev pub kept : ℕ → Applied → List (ℕ × Order) → List (ℕ × Order)
kept id (applied o) read = (id, o) ∷ read
kept id invalid_transition read = read
kept id modified_concurrently read = read

unfoldable pub transitioned : ℕ → Order → OrderStatus → Actor → ℕ → World → World
unfolding apply_transition
transitioned id o to actor now w =
    let (r, db) = apply_transition id o to actor now w.db in
    record { db = db; read = kept id r w.read }

unfoldable pub attempt : Option (ℕ × Order) → OrderStatus → Actor → ℕ → World → World
unfolding transitioned
attempt none to actor now w = w
attempt (some x) to actor now w = transitioned x.0 x.1 to actor now w

unfoldable pub work : Work → World → World
unfolding attempt
work (load id) w = loaded id (find id w.db.orders) w
work (transition n to actor now) w = attempt (read_at n w.read) to actor now w

unfoldable pub work_all : List Work → World → World
unfolding work
work_all [] w = w
work_all (x ∷ xs) w = work_all xs (work x w)

-- An order that was read is the stored one, in version and status, or is older than it.
abbrev pub IsRead : Keyed Order → ℕ × Order → Type 0
IsRead orders x =
    (c : Order) × (find x.0 orders ≡ some c)
    × ((x.1.version < c.version) ⊎ ((x.1.version ≡ c.version) × (x.1.status ≡ c.status)))

abbrev pub Coherent : World → Type 0
Coherent w = All (IsRead w.db.orders) w.read

-- A transition that goes through: it is allowed, and the stored order has the version that was read.
pub record Through (id : ℕ) (s : Order) (to : OrderStatus) (actor : Actor) (now : ℕ) (db : OrderDb)
    : Type 0 where
  pub stored : Order
  pub is_allowed : assert_valid_transition s.status to ≡ allowed
  pub there : find id db.orders ≡ some stored
  pub version : stored.version ≡ s.version
  pub result : (apply_transition id s to actor now db).0 ≡ applied (patched to now s s)
  pub written :
      (apply_transition id s to actor now db).1.orders ≡ update id (patched to now s) db.orders

abbrev pub Refused : ℕ → Order → OrderStatus → Actor → ℕ → OrderDb → Type 0
Refused id s to actor now db =
    (apply_transition id s to actor now db ≡ (invalid_transition, db))
    ⊎ (apply_transition id s to actor now db ≡ (modified_concurrently, db))

is_current-found :
    (id : ℕ) (s o : Order) (db : OrderDb)
    → find id db.orders ≡ some o
    → is_current id s db ≡ (o.version == s.version)
is_current-found id s o db there = rw (there, is_current) refl

is_current-absent :
    (id : ℕ) (s : Order) (db : OrderDb) → find id db.orders ≡ none → is_current id s db ≡ false
is_current-absent id s db absent = rw (absent, is_current) refl

abbrev attempted : ℕ → Order → OrderStatus → Actor → ℕ → OrderDb → Bool → Applied × OrderDb
attempted id s to actor now db current =
    if current
    then (
      applied (patched to now s s),
      settle_promo_for_transition id s to now (recorded id s to actor now db),
    )
    else (modified_concurrently, db)

apply-allowed :
    (id : ℕ) (s : Order) (to : OrderStatus) (actor : Actor) (now : ℕ) (db : OrderDb)
    → assert_valid_transition s.status to ≡ allowed
    → apply_transition id s to actor now db ≡ attempted id s to actor now db (is_current id s db)
unfolding apply_transition
apply-allowed id s to actor now db ok =
    ap
      (λ v. elim v as (λ v. Applied × OrderDb) [
        | conflict ↦ (invalid_transition, db)
        | allowed ↦ attempted id s to actor now db (is_current id s db)
      ])
      ok

pub apply-written :
    (id : ℕ) (s : Order) (to : OrderStatus) (actor : Actor) (now : ℕ) (db : OrderDb) (o : Order)
    → assert_valid_transition s.status to ≡ allowed
    → find id db.orders ≡ some o
    → (o.version == s.version) ≡ true
    → (apply_transition id s to actor now db).1.events ≡ db.events ++ event_of id s to actor db ∷ []
apply-written id s to actor now db o ok there same =
    ap (λ x. x.1.events)
      (apply-allowed id s to actor now db ok
        ∙ ap (attempted id s to actor now db) (is_current-found id s o db there ∙ same))
    ∙ promo-SameOrders-events id s to now (recorded id s to actor now db)

pub through :
    (id : ℕ) (s : Order) (to : OrderStatus) (actor : Actor) (now : ℕ) (db : OrderDb) (o : Order)
    → assert_valid_transition s.status to ≡ allowed
    → find id db.orders ≡ some o
    → (o.version == s.version) ≡ true
    → Through id s to actor now db
through id s to actor now db o ok there same =
    let run =
      apply-allowed id s to actor now db ok
      ∙ ap (attempted id s to actor now db) (is_current-found id s o db there ∙ same) in
    record {
      stored = o;
      is_allowed = ok;
      there = there;
      version = (==_iff o.version s.version).0 same;
      result = ap (λ x. x.0) run;
      written =
          ap (λ x. x.1.orders) run
          ∙ (promo-SameOrders-orders id s to now (recorded id s to actor now db));
    }

Verdict-cases : (v : Verdict) → (v ≡ allowed) ⊎ (v ≡ conflict)
Verdict-cases allowed = inl refl
Verdict-cases conflict = inr refl

refused :
    (id : ℕ) (s : Order) (to : OrderStatus) (actor : Actor) (now : ℕ) (db : OrderDb)
    → assert_valid_transition s.status to ≡ allowed
    → is_current id s db ≡ false
    → Refused id s to actor now db
refused id s to actor now db ok stale =
    inr (apply-allowed id s to actor now db ok ∙ ap (attempted id s to actor now db) stale)

pub apply_transition-cases :
    (id : ℕ) (s : Order) (to : OrderStatus) (actor : Actor) (now : ℕ) (db : OrderDb)
    → Refused id s to actor now db ⊎ Through id s to actor now db
unfolding apply_transition
apply_transition-cases id s to actor now db =
    elim (Verdict-cases (assert_valid_transition s.status to)) [
      | inr invalid ↦ inl (inl (rw (invalid, apply_transition) refl))
      | inl ok ↦ elim (Option-cases (find id db.orders)) [
        | inl absent ↦ inl (refused id s to actor now db ok (is_current-absent id s db absent))
        | inr (o, there) ↦ elim (Bool-cases (o.version == s.version)) [
          | inr stale ↦
              inl (refused id s to actor now db ok (is_current-found id s o db there ∙ stale))
          | inl same ↦ inr (through id s to actor now db o ok there same)
        ]
      ]
    ]

-- A writer whose copy of the order is out of date changes nothing, whatever transition it asks for.
stale_writer_changes_nothing :
    (id : ℕ) (s : Order) (to : OrderStatus) (actor : Actor) (now : ℕ) (db : OrderDb) (o : Order)
    → find id db.orders ≡ some o
    → o.version ≢ s.version
    → ((apply_transition id s to actor now db).0 ≢ applied (patched to now s s))
      × ((apply_transition id s to actor now db).1 ≡ db)
stale_writer_changes_nothing id s to actor now db o there ne =
    elim (apply_transition-cases id s to actor now db) [
      | inl (inl e) ↦ rw e ((λ h. cc), refl)
      | inl (inr e) ↦ rw e ((λ h. cc), refl)
      | inr t ↦ absurd (ne (cc (there, t.there, t.version)))
    ]
