-- ===== src/Service/Handlers.antt =====
-- A handler reads its order and works on: what that keeps
-- (src/online-orders/online-orders.service.ts).
use lalaba_backend_showcase.Base.{ℕ, ◌≡◌, refl, Option, none, some, subst}
use lalaba_backend_showcase.Base.Keyed.{find}
use lalaba_backend_showcase.Orders.Order.{Order}
use lalaba_backend_showcase.Pricing.Doubles.{Doubles}
use lalaba_backend_showcase.Service.Document.{Rest, OnlineOrder}
use lalaba_backend_showcase.Service.State.{
  Outcome, done, refused, World, Step, find_order_or_throw, found, ◌>>=◌,
}
use lalaba_backend_showcase.Service.Books.{
  IsKept, Balanced, kept-Balanced, Moved-same, Advances, Frame-Advances,
}
use lalaba_backend_showcase.Service.Steps.{Safe}

module _ (d : Doubles) where
  -- A handler reads its order and works on; the books of all orders stay kept, and each order
  -- moves along the transition table, with the promotions' counters right where they were.
  pub handler-Balanced :
      (id : ℕ) (body : OnlineOrder d → Step d (OnlineOrder d)) (w : World d)
      → ((o : OnlineOrder d) → IsKept d id o w → Safe d id w (body o w))
      → Balanced d w
      → Balanced d ((find_order_or_throw d id >>= body) w).1
        × Advances d w ((find_order_or_throw d id >>= body) w).1
  unfolding find_order_or_throw ◌>>=◌
  handler-Balanced id body w h bal = read (find id w.db.orders) (find id w.rests) refl refl
    where
      landed :
          (r : Outcome (OnlineOrder d) × World d)
          → Safe d id w r
          → Balanced d r.1 × Advances d w r.1
      landed (done o, w') s = (kept-Balanced d id o w w' bal s.0 s.1, Frame-Advances d id w w' s.1)
      landed (refused e, w') (o, k, f) =
          (kept-Balanced d id o w w' bal k f, Frame-Advances d id w w' f)

      unmoved : Advances d w w
      unmoved = (λ j. Moved-same d j w w refl, (refl, λ c. c))

      read :
          (b : Option Order) (r : Option (Rest d))
          → find id w.db.orders ≡ b
          → find id w.rests ≡ r
          → let m = ◌>>=◌ {A = OnlineOrder d} (λ (_ : World d). (found d b r, w)) body w in
            Balanced d m.1 × Advances d w m.1
      read none none there stored = (bal, unmoved)
      read none (some r) there stored = (bal, unmoved)
      read (some b) none there stored = (bal, unmoved)
      read (some b) (some r) there stored =
          landed (body (record { base = b; rest = r }) w)
            (h (record { base = b; rest = r }) (bal id b r there stored))

  -- The document that a handler returns is the one that is stored.
  pub handler-kept :
      (id : ℕ) (body : OnlineOrder d → Step d (OnlineOrder d)) (w : World d) (o' : OnlineOrder d)
      → ((o : OnlineOrder d) → IsKept d id o w → Safe d id w (body o w))
      → Balanced d w
      → ((find_order_or_throw d id >>= body) w).0 ≡ done o'
      → IsKept d id o' ((find_order_or_throw d id >>= body) w).1
  unfolding find_order_or_throw ◌>>=◌
  handler-kept id body w o' h bal = read (find id w.db.orders) (find id w.rests) refl refl
    where
      landed :
          (r : Outcome (OnlineOrder d) × World d)
          → Safe d id w r
          → r.0 ≡ done o'
          → IsKept d id o' r.1
      landed (done o, w') s e =
          let same : o ≡ o' = cc in subst (λ (x : OnlineOrder d). IsKept d id x w') same s.0
      landed (refused e, w') s e' = cc

      read :
          (b : Option Order) (r : Option (Rest d))
          → find id w.db.orders ≡ b
          → find id w.rests ≡ r
          → let m = ◌>>=◌ {A = OnlineOrder d} (λ (_ : World d). (found d b r, w)) body w in
            m.0 ≡ done o' → IsKept d id o' m.1
      read none none there stored e = cc
      read none (some r) there stored e = cc
      read (some b) none there stored e = cc
      read (some b) (some r) there stored e =
          landed (body (record { base = b; rest = r }) w)
            (h (record { base = b; rest = r }) (bal id b r there stored)) e
