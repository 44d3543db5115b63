-- ===== src/Service/Steps.antt =====
-- The rules by which a handler, step by step, keeps the books of its order
-- (src/online-orders/online-orders.service.ts).
use lalaba_backend_showcase.Base.{ℕ, ◌≡◌, refl, sym, ap, ◌∙◌, inl, inr, subst}
use lalaba_backend_showcase.Base.Keyed.{find, update, find-update_self, find-update_ne}
use lalaba_backend_showcase.Orders.Status.{OrderStatus, assert_valid_transition, allowed}
use lalaba_backend_showcase.Orders.Runs.{Reach}
use lalaba_backend_showcase.Orders.Order.{OrderDb}
use lalaba_backend_showcase.Orders.Transition.{Actor, Applied, applied, patched, apply_transition}
use lalaba_backend_showcase.Orders.Interleaving.{apply_transition-cases}
use lalaba_backend_showcase.Pricing.Doubles.{Doubles}
use lalaba_backend_showcase.Service.Document.{OnlineOrder, consumed_centavos, collected_centavos}
use lalaba_backend_showcase.Service.State.{
  Outcome, done, refused, World, Step, saved, transition, after_transition, ◌>>=◌, with_transaction,
  save,
}
use lalaba_backend_showcase.Service.Counts.{KeepsCounts, same-KeepsCounts, transition-IsCounted}
use lalaba_backend_showcase.Service.Books.{
  IsKept, Frame, Frame-refl, Frame-trans, SameBooks, SameBooks-Frame, SameBooks-IsKept, Moved-kept,
}

module _ (d : Doubles) where
  -- A step in a transaction: where it returns, the books of the order it returns are kept.
  abbrev pub Lands : ℕ → World d → Outcome (OnlineOrder d) × World d → Type 0
  Lands id w (done o, w') = IsKept d id o w' × Frame d id w w'
  Lands id w (refused e, w') = Unit

  -- A step outside: also where it throws, some document of the order has its books kept.
  abbrev pub Safe : ℕ → World d → Outcome (OnlineOrder d) × World d → Type 0
  Safe id w (done o, w') = IsKept d id o w' × Frame d id w w'
  Safe id w (refused e, w') = (o : OnlineOrder d) × IsKept d id o w' × Frame d id w w'

  pub Lands-from :
      (id : ℕ) (w w1 : World d) (r : Outcome (OnlineOrder d) × World d)
      → Frame d id w w1
      → Lands id w1 r
      → Lands id w r
  Lands-from id w w1 (done o, w') f l = (l.0, Frame-trans d id w w1 w' f l.1)
  Lands-from id w w1 (refused e, w') f l = tt

  Safe-from :
      (id : ℕ) (w w1 : World d) (r : Outcome (OnlineOrder d) × World d)
      → Frame d id w w1
      → Safe id w1 r
      → Safe id w r
  Safe-from id w w1 (done o, w') f l = (l.0, Frame-trans d id w w1 w' f l.1)
  Safe-from id w w1 (refused e, w') f (o, k, g) = (o, k, Frame-trans d id w w1 w' f g)

  pub >>=-Lands :
      (id : ℕ) (m : Step d (OnlineOrder d)) (g : OnlineOrder d → Step d (OnlineOrder d))
      (w : World d)
      → Lands id w (m w)
      → ((o : OnlineOrder d) (w' : World d) → IsKept d id o w' → Lands id w' (g o w'))
      → Lands id w ((m >>= g) w)
  unfolding ◌>>=◌
  >>=-Lands id m g w l h = go (m w) l
    where
      go :
          (r : Outcome (OnlineOrder d) × World d)
          → Lands id w r
          → Lands id w (◌>>=◌ {A = OnlineOrder d} (λ (_ : World d). r) g w)
      go (done o, w') l = Lands-from id w w' (g o w') l.1 (h o w' l.0)
      go (refused e, w') l = tt

  pub >>=-Safe :
      (id : ℕ) (m : Step d (OnlineOrder d)) (g : OnlineOrder d → Step d (OnlineOrder d))
      (w : World d)
      → Safe id w (m w)
      → ((o : OnlineOrder d) (w' : World d) → IsKept d id o w' → Safe id w' (g o w'))
      → Safe id w ((m >>= g) w)
  unfolding ◌>>=◌
  >>=-Safe id m g w l h = go (m w) l
    where
      go :
          (r : Outcome (OnlineOrder d) × World d)
          → Safe id w r
          → Safe id w (◌>>=◌ {A = OnlineOrder d} (λ (_ : World d). r) g w)
      go (done o, w') l = Safe-from id w w' (g o w') l.1 (h o w' l.0)
      go (refused e, w') l = l

  -- A step that does not touch the books: a guard, a read, a note.
  pub quiet-Lands :
      {A : Type 0} (id : ℕ) (m : Step d A) (g : A → Step d (OnlineOrder d)) (w : World d)
      (o : OnlineOrder d)
      → IsKept d id o w
      → SameBooks d w (m w).1
      → ((a : A) (w' : World d) → IsKept d id o w' → Lands id w' (g a w'))
      → Lands id w ((m >>= g) w)
  unfolding ◌>>=◌
  quiet-Lands {A} id m g w o k same h = go (m w) same
    where
      go :
          (r : Outcome A × World d)
          → SameBooks d w r.1
          → Lands id w (◌>>=◌ {A = A} (λ (_ : World d). r) g w)
      go (done a, w') s =
          Lands-from id w w' (g a w') (SameBooks-Frame d id w w' s)
            (h a w' (SameBooks-IsKept d id o w w' s k))
      go (refused e, w') s = tt

  pub quiet-Safe :
      {A : Type 0} (id : ℕ) (m : Step d A) (g : A → Step d (OnlineOrder d)) (w : World d)
      (o : OnlineOrder d)
      → IsKept d id o w
      → SameBooks d w (m w).1
      → ((a : A) (w' : World d) → IsKept d id o w' → Safe id w' (g a w'))
      → Safe id w ((m >>= g) w)
  unfolding ◌>>=◌
  quiet-Safe {A} id m g w o k same h = go (m w) same
    where
      go :
          (r : Outcome A × World d)
          → SameBooks d w r.1
          → Safe id w (◌>>=◌ {A = A} (λ (_ : World d). r) g w)
      go (done a, w') s =
          Safe-from id w w' (g a w') (SameBooks-Frame d id w w' s)
            (h a w' (SameBooks-IsKept d id o w w' s k))
      go (refused e, w') s = (o, SameBooks-IsKept d id o w w' s k, SameBooks-Frame d id w w' s)

  pub with_transaction-Safe :
      (id : ℕ) (m : Step d (OnlineOrder d)) (w : World d) (o : OnlineOrder d)
      → IsKept d id o w
      → Lands id w (m w)
      → Safe id w (with_transaction m w)
  unfolding with_transaction
  with_transaction-Safe id m w o k l = go (m w) l
    where
      go :
          (r : Outcome (OnlineOrder d) × World d)
          → Lands id w r
          → Safe id w (with_transaction {A = OnlineOrder d} (λ (_ : World d). r) w)
      go (done o', w') l = l
      go (refused e, w') l = (o, k, Frame-refl d id w)

  pub saved-Lands :
      (id : ℕ) (o o' : OnlineOrder d) (w : World d)
      → IsKept d id o w
      → consumed_centavos d o' ≡ consumed_centavos d o
      → collected_centavos d o' ≡ collected_centavos d o
      → o'.base.status ≡ o.base.status
      → Lands id w (saved d id o' w)
  unfolding saved save
  saved-Lands id o o' w k fee money status = (
    record {
      there = find-update_self id (λ _. o'.base) o.base w.db.orders k.there;
      stored = find-update_self id (λ _. o'.rest) o.rest w.rests k.stored;
      fees = rw fee k.fees;
      paid = k.paid ∙ sym money;
    },
    record {
      orders = λ j ne. find-update_ne j id (λ _. o'.base) w.db.orders ne;
      rests = λ j ne. find-update_ne j id (λ _. o'.rest) w.rests ne;
      fees = λ j ne. refl;
      paid = λ j ne. refl;
      moved =
          Moved-kept d id o o'.base w (save d id o' w) k
            (find-update_self id (λ _. o'.base) o.base w.db.orders k.there)
            (subst (Reach o.base.status) (sym status) Reach.here);
      counts = same-KeepsCounts d w (save d id o' w) refl;
    },
  )

  transitioned-Lands :
      (id : ℕ) (o : OnlineOrder d) (to : OrderStatus) (actor : Actor) (now : ℕ) (w : World d)
      (r : Applied × OrderDb)
      → IsKept d id o w
      → assert_valid_transition o.base.status to ≡ allowed
      → r.0 ≡ applied (patched to now o.base o.base)
      → r.1.orders ≡ update id (patched to now o.base) w.db.orders
      → KeepsCounts d w (record w { db = r.1 })
      → Lands id w (after_transition d o r.0, record w { db = r.1 })
  transitioned-Lands id o to actor now w r k ok result written counts =
      subst (λ a. Lands id w (after_transition d o a, record w { db = r.1 })) (sym result)
        (
          record {
            there =
                ap (find id) written
                ∙ find-update_self id (patched to now o.base) o.base w.db.orders k.there;
            stored = k.stored;
            fees = k.fees;
            paid = k.paid;
          },
          record {
            orders = λ j ne.
                ap (find j) written ∙ find-update_ne j id (patched to now o.base) w.db.orders ne;
            rests = λ j ne. refl;
            fees = λ j ne. refl;
            paid = λ j ne. refl;
            moved =
                Moved-kept d id o (patched to now o.base o.base) w (record w { db = r.1 }) k
                  (ap (find id) written
                    ∙ find-update_self id (patched to now o.base) o.base w.db.orders k.there)
                  (Reach.next Reach.here ok);
            counts = counts;
          },
        )

  pub transition-Lands :
      (id : ℕ) (to : OrderStatus) (actor : Actor) (now : ℕ) (o : OnlineOrder d) (w : World d)
      → IsKept d id o w
      → Lands id w (transition d id to actor now o w)
  unfolding transition
  transition-Lands id to actor now o w k =
      elim (apply_transition-cases id o.base to actor now w.db) [
        | inl (inl e) ↦ rw e tt
        | inl (inr e) ↦ rw e tt
        | inr t ↦
            transitioned-Lands id o to actor now w (apply_transition id o.base to actor now w.db) k
              t.is_allowed t.result t.written
              (refl, transition-IsCounted w.promos id o.base to actor now w.db)
      ]
