-- ===== src/Orders/History.antt =====
-- The event log that `applyTransition` keeps (src/online-orders/online-orders.service.ts).

use lalaba_backend_showcase.Base.{
  ℕ, ◌+◌, max, ◌≡◌, ◌≢◌, refl, sym, ap, subst, ◌∙◌, ◌⊎◌, inl, inr, Option, none, some, List, [],
  ◌∷◌, ◌++◌, ◌==◌, arith, Bool-cases, ==_iff,
}
use lalaba_backend_showcase.Base.Keyed.{find, update, find-update_self, find-update_ne}
use lalaba_backend_showcase.Orders.Status.{OrderStatus, allowed, assert_valid_transition}
use lalaba_backend_showcase.Orders.Order.{Order, OrderEvent, OrderDb}
use lalaba_backend_showcase.Orders.Transition.{
  Actor, Applied, patched, last_sequence, event_of, apply_transition,
}
use lalaba_backend_showcase.Orders.Interleaving.{
  World, Work, load, transition, read_at, loaded, transitioned, attempt, work, work_all, IsRead,
  Coherent, Through, apply-written, apply_transition-cases,
}
use lalaba_backend_showcase.Orders.Workers.{read_at-All, status_read, work-Coherent}

-- An event after the status that the log has told so far: it starts there, and either moves along
-- the table or stays, as the note of a refused assignment does. The first event only starts.
abbrev pub Follows : Option OrderStatus → OrderEvent → Type 0
Follows none e = Unit {0}
Follows (some s) e =
    (e.from_status ≡ s) × ((assert_valid_transition s e.to_status ≡ allowed) ⊎ (e.to_status ≡ s))

-- The events of one order, among those of others, tell how it came to its status: each starts at
-- the status where the one before ended, the last one ends at the order's status, and the numbers
-- are n + 1, n + 2 and so on.
abbrev pub Tells : ℕ → Option OrderStatus → ℕ → List OrderEvent → OrderStatus → Type 0
Tells id at n [] t = at ≡ some t
Tells id at n (e ∷ es) t =
    ((e.order_id ≢ id) × Tells id at n es t)
    ⊎ ((e.order_id ≡ id)
        × Follows at e
        × (e.sequence ≡ n + 1)
        × Tells id (some e.to_status) (n + 1) es t)

abbrev pub IsTold : OrderDb → Type 0
IsTold db = (id : ℕ) (o : Order) → find id db.orders ≡ some o → Tells id none 0 db.events o.status

Follows-from :
    (at : Option OrderStatus) (e : OrderEvent) (t : OrderStatus)
    → at ≡ some t
    → e.from_status ≡ t
    → assert_valid_transition t e.to_status ≡ allowed
    → Follows at e
Follows-from at e t h from ok = subst (λ a. Follows a e) (sym h) (from, inl ok)

last_sequence-own :
    (id : ℕ) (e : OrderEvent) (es : List OrderEvent)
    → e.order_id ≡ id
    → last_sequence id (e ∷ es) ≡ max e.sequence (last_sequence id es)
last_sequence-own id e es own = ground arith

last_sequence-other :
    (id : ℕ) (e : OrderEvent) (es : List OrderEvent)
    → e.order_id ≢ id
    → last_sequence id (e ∷ es) ≡ last_sequence id es
last_sequence-other id e es other = ground arith

Tells-other :
    (id n : ℕ) (at : Option OrderStatus) (es : List OrderEvent) (t : OrderStatus) (e : OrderEvent)
    → e.order_id ≢ id
    → Tells id at n es t
    → Tells id at n (es ++ e ∷ []) t
Tells-other id n at [] t e other h = inl (other, h)
Tells-other id n at (x ∷ es) t e other (inl (away, h)) =
    inl (away, Tells-other id n at es t e other h)
Tells-other id n at (x ∷ es) t e other (inr (own, f, s, h)) =
    inr (own, f, s, Tells-other id (n + 1) (some x.to_status) es t e other h)

Tells-own :
    (id n : ℕ) (at : Option OrderStatus) (es : List OrderEvent) (t : OrderStatus) (e : OrderEvent)
    → e.order_id ≡ id
    → e.from_status ≡ t
    → assert_valid_transition t e.to_status ≡ allowed
    → e.sequence ≡ max n (last_sequence id es) + 1
    → Tells id at n es t
    → Tells id at n (es ++ e ∷ []) e.to_status
Tells-own id n at [] t e own from ok number h =
    inr (own, Follows-from at e t h from ok, omega (arith, number), refl)
Tells-own id n at (x ∷ es) t e own from ok number (inl (away, h)) = inl (
  away,
  Tells-own id n at es t e own from ok
      (number ∙ ap (λ k. max n k + 1) (last_sequence-other id x es away)) h,
)
Tells-own id n at (x ∷ es) t e own from ok number (inr (mine, f, s, h)) =
    let last = last_sequence-own id x es mine in
    inr (
      mine,
      f,
      s,
      Tells-own id (n + 1) (some x.to_status) es t e own from ok (omega (arith, number, last, s)) h,
    )

module _ (id now : ℕ) (s : Order) (to : OrderStatus) (actor : Actor) (db : OrderDb) where
  written-IsTold :
      (o : Order) (orders : OrderDb)
      → find id db.orders ≡ some o
      → o.status ≡ s.status
      → assert_valid_transition s.status to ≡ allowed
      → orders.orders ≡ update id (patched to now s) db.orders
      → orders.events ≡ db.events ++ event_of id s to actor db ∷ []
      → IsTold db
      → IsTold orders
  written-IsTold o after there status ok written logged told j p found =
      subst (λ es. Tells j none 0 es p.status) (sym logged)
        (elim (Bool-cases (j == id)) [
          | inl e ↦ own ((==_iff j id).0 e)
          | inr e ↦
              Tells-other j 0 none db.events p.status (event_of id s to actor db) (ground arith) (
                told j p (
                  sym (find-update_ne j id (patched to now s) db.orders (ground arith))
                  ∙ sym (ap (find j) written)
                  ∙ found))
        ])
    where
      own : j ≡ id → Tells j none 0 (db.events ++ event_of id s to actor db ∷ []) p.status
      own here =
          let now_there : find j after.orders ≡ some (patched to now s o) =
            ap (find j) written
            ∙ ap (λ k. find k (update id (patched to now s) db.orders)) here
            ∙ find-update_self id (patched to now s) o db.orders there in
          let same : patched to now s o ≡ p = cc in
          let ends : to ≡ p.status = ap (λ (q : Order). q.status) same in
          subst (λ t. Tells j none 0 (db.events ++ event_of id s to actor db ∷ []) t) ends
            (Tells-own j 0 none db.events s.status (event_of id s to actor db) (sym here) refl ok
              (ap (λ k. last_sequence k db.events + 1) (sym here) ∙ omega arith)
              (subst (Tells j none 0 db.events) status
                (told j o (ap (λ k. find k db.orders) here ∙ there))))

  accepted-IsTold :
      Through id s to actor now db
      → IsRead db.orders (id, s)
      → IsTold db
      → IsTold (apply_transition id s to actor now db).1
  accepted-IsTold t fresh told =
      written-IsTold t.stored (apply_transition id s to actor now db).1 t.there
        (status_read db.orders id s t.stored fresh t.there t.version) t.is_allowed t.written
        (apply-written id s to actor now db t.stored t.is_allowed t.there
          ((==_iff t.stored.version s.version).1 t.version))
        told

  apply-IsTold :
      IsRead db.orders (id, s) → IsTold db → IsTold (apply_transition id s to actor now db).1
  apply-IsTold fresh told = elim (apply_transition-cases id s to actor now db) [
    | inl (inl e) ↦ subst (λ (r : Applied × OrderDb). IsTold r.1) (sym e) told
    | inl (inr e) ↦ subst (λ (r : Applied × OrderDb). IsTold r.1) (sym e) told
    | inr t ↦ accepted-IsTold t fresh told
  ]

loaded-IsTold : (id : ℕ) (o : Option Order) (w : World) → IsTold w.db → IsTold (loaded id o w).db
loaded-IsTold id none w told = told
loaded-IsTold id (some o) w told = told

attempt-IsTold :
    (x : Option (ℕ × Order)) (to : OrderStatus) (actor : Actor) (now : ℕ) (w : World)
    → ((y : ℕ × Order) → x ≡ some y → IsRead w.db.orders y)
    → IsTold w.db
    → IsTold (attempt x to actor now w).db
unfolding attempt transitioned
attempt-IsTold none to actor now w fresh told = told
attempt-IsTold (some x) to actor now w fresh told =
    apply-IsTold x.0 now x.1 to actor w.db (fresh x refl) told

work-IsTold : (x : Work) (w : World) → Coherent w → IsTold w.db → IsTold (work x w).db
unfolding work
work-IsTold (load id) w h told = loaded-IsTold id (find id w.db.orders) w told
work-IsTold (transition n to actor now) w h told =
    attempt-IsTold (read_at n w.read) to actor now w (λ y e. read_at-All w.db.orders n w.read y h e)
      told

-- Workers that read orders at any time and apply transitions to what they read, in any order, from
-- a state in which nothing that was read is newer than what is stored: where the event log told the
-- way of every stored order, it still does. The events of an order are numbered 1, 2, 3 and so on;
-- each starts at the status where the one before ended and moves along an allowed transition, or
-- stays; and the last one ends at the status that is stored.
pub work_all-IsTold :
    (xs : List Work) (w : World) → Coherent w → IsTold w.db → IsTold (work_all xs w).db
unfolding work_all
work_all-IsTold [] w h told = told
work_all-IsTold (x ∷ xs) w h told =
    work_all-IsTold xs (work x w) (work-Coherent x w h).0 (work-IsTold x w h told)
