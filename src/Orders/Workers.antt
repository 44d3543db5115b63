-- ===== src/Orders/Workers.antt =====
-- What workers in any interleaving do to the stored orders
-- (`applyTransition` of src/online-orders/online-orders.service.ts).

use lalaba_backend_showcase.Base.{
  ℕ, ◌+◌, ◌-◌, ◌≤◌, ◌<◌, ◌≡◌, refl, sym, ap, subst, ◌∙◌, ◌⊎◌, inl, inr, Option, none, some, List,
  [], ◌∷◌, ◌==◌, arith, Bool-cases, ==_iff, All,
}
use lalaba_backend_showcase.Base.Keyed.{Keyed, find, update, find-update_self, find-update_ne}
use lalaba_backend_showcase.Orders.Status.{OrderStatus, allowed, assert_valid_transition}
use lalaba_backend_showcase.Orders.Runs.{Reach}
use lalaba_backend_showcase.Orders.Order.{Order, OrderDb}
use lalaba_backend_showcase.Orders.Transition.{
  Actor, Applied, applied, invalid_transition, modified_concurrently, patched, apply_transition,
}
use lalaba_backend_showcase.Orders.Interleaving.{
  World, Work, load, transition, read_at, loaded, kept, transitioned, attempt, work, work_all,
  IsRead, Coherent, apply_transition-cases,
}

follow : {s m t : OrderStatus} → Reach s m → Reach m t → Reach s t
follow r Reach.here = r
follow r (Reach.next r' e) = Reach.next (follow r r') e

IsRead-after :
    (id now : ℕ) (s o : Order) (to : OrderStatus) (orders : Keyed Order) (x : ℕ × Order)
    → find id orders ≡ some o
    → o.version ≡ s.version
    → IsRead orders x
    → IsRead (update id (patched to now s) orders) x
IsRead-after id now s o to orders x there same (c, found, age) = elim (Bool-cases (x.0 == id)) [
  | inl e ↦
      let here = (==_iff x.0 id).0 e in
      let current : c ≡ o = cc in
      (
        patched to now s o,
        subst (λ k. find k (update id (patched to now s) orders) ≡ some (patched to now s o))
            (sym here) (find-update_self id (patched to now s) o orders there),
        inl (older c current age),
      )
  | inr e ↦ (c, find-update_ne x.0 id (patched to now s) orders (ground arith) ∙ found, age)
]
  where
    older :
        (c : Order)
        → c ≡ o
        → ((x.1.version < c.version) ⊎ ((x.1.version ≡ c.version) × (x.1.status ≡ c.status)))
        → x.1.version < s.version + 1
    older c e (inl lt) =
        let v : c.version ≡ s.version = ap (λ (c : Order). c.version) e ∙ same in
        omega (arith, v, lt)
    older c e (inr eq) =
        let v : c.version ≡ s.version = ap (λ (c : Order). c.version) e ∙ same in
        omega (arith, v, eq.0)

All-IsRead-after :
    (id now : ℕ) (s o : Order) (to : OrderStatus) (orders : Keyed Order) (xs : List (ℕ × Order))
    → find id orders ≡ some o
    → o.version ≡ s.version
    → All (IsRead orders) xs
    → All (IsRead (update id (patched to now s) orders)) xs
All-IsRead-after id now s o to orders [] there same h = tt
All-IsRead-after id now s o to orders (x ∷ xs) there same h = (
  IsRead-after id now s o to orders x there same h.0,
  All-IsRead-after id now s o to orders xs there same h.1,
)

-- What one piece of work may do to the stored orders: each is still there, with a status that
-- transitions lead to, and the version does not go down.
abbrev pub Advanced : Keyed Order → Keyed Order → Type 0
Advanced before after =
    (id : ℕ) (o : Order)
    → find id before ≡ some o
    → (o' : Order) × (find id after ≡ some o') × Reach o.status o'.status × (o.version ≤ o'.version)

Advanced-refl : (orders : Keyed Order) → Advanced orders orders
Advanced-refl orders id o there = (o, there, Reach.here, omega arith)

through-Advanced :
    (id now : ℕ) (s o : Order) (to : OrderStatus) (orders : Keyed Order)
    → find id orders ≡ some o
    → o.version ≡ s.version
    → o.status ≡ s.status
    → assert_valid_transition s.status to ≡ allowed
    → Advanced orders (update id (patched to now s) orders)
through-Advanced id now s o to orders there same status ok j p found = elim (Bool-cases (j == id)) [
  | inl e ↦
      let here = (==_iff j id).0 e in
      let current : p ≡ o = cc in
      (
        patched to now s o,
        subst (λ k. find k (update id (patched to now s) orders) ≡ some (patched to now s o))
            (sym here) (find-update_self id (patched to now s) o orders there),
        subst (λ (q : Order). Reach q.status to) (sym current)
            (Reach.next {t = o.status} Reach.here
              (subst (λ st. assert_valid_transition st to ≡ allowed) (sym status) ok)),
        (let v = ap (λ (c : Order). c.version) current in omega (arith, v, same)),
      )
  | inr e ↦ (
    p,
    find-update_ne j id (patched to now s) orders (ground arith) ∙ found,
    Reach.here,
    omega arith,
  )
]

pub read_at-All :
    (orders : Keyed Order) (n : ℕ) (xs : List (ℕ × Order)) (x : ℕ × Order)
    → All (IsRead orders) xs
    → read_at n xs ≡ some x
    → IsRead orders x
read_at-All orders n [] x h e = cc
read_at-All orders n (y ∷ ys) x h e = elim (Bool-cases (n == 0)) [
  | inl z ↦ let same : y ≡ x = cc (rw (z, read_at) at e) in subst (IsRead orders) same h.0
  | inr z ↦ read_at-All orders (n - 1) ys x h.1 (rw (z, read_at) at e)
]

pub status_read :
    (orders : Keyed Order) (id : ℕ) (s o : Order)
    → IsRead orders (id, s)
    → find id orders ≡ some o
    → o.version ≡ s.version
    → o.status ≡ s.status
status_read orders id s o (c, found, age) there same = let current : c ≡ o = cc in go current age
  where
    go :
        c ≡ o
        → ((s.version < c.version) ⊎ ((s.version ≡ c.version) × (s.status ≡ c.status)))
        → o.status ≡ s.status
    go e (inl lt) = let v = ap (λ (c : Order). c.version) e in absurd (omega (arith, v, same, lt))
    go e (inr eq) = sym (eq.1 ∙ ap (λ (c : Order). c.status) e)

abbrev after : ℕ → Applied × OrderDb → List (ℕ × Order) → World
after id r read = record { db = r.1; read = kept id r.0 read }

written-Coherent :
    (id now : ℕ) (s o : Order) (to : OrderStatus) (orders : Keyed Order) (read : List (ℕ × Order))
    (r : Applied × OrderDb)
    → All (IsRead orders) read
    → find id orders ≡ some o
    → o.version ≡ s.version
    → r.0 ≡ applied (patched to now s s)
    → r.1.orders ≡ update id (patched to now s) orders
    → Coherent (after id r read)
written-Coherent id now s o to orders read r h there same result written =
    let fresh : IsRead (update id (patched to now s) orders) (id, patched to now s s) = (
      patched to now s o,
      find-update_self id (patched to now s) o orders there,
      inr (refl, refl),
    ) in
    subst (λ a. All (IsRead r.1.orders) (kept id a read)) (sym result)
      (subst (λ os. All (IsRead os) ((id, patched to now s s) ∷ read)) (sym written)
        (fresh, All-IsRead-after id now s o to orders read there same h))

transitioned-Coherent :
    (id now : ℕ) (s : Order) (to : OrderStatus) (actor : Actor) (w : World)
    → Coherent w
    → IsRead w.db.orders (id, s)
    → Coherent (transitioned id s to actor now w)
      × Advanced w.db.orders (transitioned id s to actor now w).db.orders
unfolding transitioned
transitioned-Coherent id now s to actor w h fresh =
    elim (apply_transition-cases id s to actor now w.db) [
      | inl (inl e) ↦ unchanged invalid_transition e (h, Advanced-refl w.db.orders)
      | inl (inr e) ↦ unchanged modified_concurrently e (h, Advanced-refl w.db.orders)
      | inr t ↦
          let status = status_read w.db.orders id s t.stored fresh t.there t.version in
          (
            written-Coherent id now s t.stored to w.db.orders w.read
                (apply_transition id s to actor now w.db) h t.there t.version t.result t.written,
            subst (Advanced w.db.orders) (sym t.written) (
                through-Advanced id now s t.stored to w.db.orders t.there t.version status
                  t.is_allowed),
          )
    ]
  where
    unchanged :
        (a : Applied)
        → apply_transition id s to actor now w.db ≡ (a, w.db)
        → Coherent (after id (a, w.db) w.read) × Advanced w.db.orders w.db.orders
        → Coherent (after id (apply_transition id s to actor now w.db) w.read)
          × Advanced w.db.orders (apply_transition id s to actor now w.db).1.orders
    unchanged a e g =
        subst
          (λ (r : Applied × OrderDb).
            Coherent (after id r w.read) × Advanced w.db.orders r.1.orders)
          (sym e) g

loaded-Coherent :
    (id : ℕ) (o : Option Order) (w : World)
    → find id w.db.orders ≡ o
    → Coherent w
    → Coherent (loaded id o w) × Advanced w.db.orders (loaded id o w).db.orders
loaded-Coherent id none w e h = (h, Advanced-refl w.db.orders)
loaded-Coherent id (some o) w e h = (((o, e, inr (refl, refl)), h), Advanced-refl w.db.orders)

attempt-Coherent :
    (x : Option (ℕ × Order)) (to : OrderStatus) (actor : Actor) (now : ℕ) (w : World)
    → Coherent w
    → ((y : ℕ × Order) → x ≡ some y → IsRead w.db.orders y)
    → Coherent (attempt x to actor now w)
      × Advanced w.db.orders (attempt x to actor now w).db.orders
unfolding attempt
attempt-Coherent none to actor now w h fresh = (h, Advanced-refl w.db.orders)
attempt-Coherent (some x) to actor now w h fresh =
    transitioned-Coherent x.0 now x.1 to actor w h (fresh x refl)

pub work-Coherent :
    (x : Work) (w : World)
    → Coherent w
    → Coherent (work x w) × Advanced w.db.orders (work x w).db.orders
unfolding work
work-Coherent (load id) w h = loaded-Coherent id (find id w.db.orders) w refl h
work-Coherent (transition n to actor now) w h =
    attempt-Coherent (read_at n w.read) to actor now w h
      (λ y e. read_at-All w.db.orders n w.read y h e)

Advanced-trans : (a b c : Keyed Order) → Advanced a b → Advanced b c → Advanced a c
Advanced-trans a b c ab bc id o there =
    let (m, found, r, v) = ab id o there in
    let (p, last, r', v') = bc id m found in (p, last, follow r r', omega (arith, v, v'))

-- Workers that read orders at any time and apply transitions to what they read, in any order and
-- with whatever requests, from a state in which nothing that was read is newer than what is stored:
-- each stored order stays, its version does not go down, and its status moves along allowed
-- transitions only.
pub work_all-Advanced :
    (xs : List Work) (w : World) → Coherent w → Advanced w.db.orders (work_all xs w).db.orders
unfolding work_all
work_all-Advanced [] w h = Advanced-refl w.db.orders
work_all-Advanced (x ∷ xs) w h =
    let one = work-Coherent x w h in
    Advanced-trans w.db.orders (work x w).db.orders (work_all xs (work x w)).db.orders one.1
      (work_all-Advanced xs (work x w) one.0)
