-- ===== src/Service/Runs.antt =====
-- A handler on an order that is stored, and steps that are refused.
use lalaba_backend_showcase.Base.{ℕ, ◌≡◌, refl, ap, ◌∙◌, Option, some, ==_iff}
use lalaba_backend_showcase.Base.Keyed.{find, find-update_self}
use lalaba_backend_showcase.Orders.Status.{OrderStatus, assert_valid_transition, conflict, allowed}
use lalaba_backend_showcase.Orders.Order.{Order}
use lalaba_backend_showcase.Orders.Transition.{Actor, patched, apply_transition}
use lalaba_backend_showcase.Orders.Interleaving.{through}
use lalaba_backend_showcase.Pricing.Doubles.{Doubles}
use lalaba_backend_showcase.Service.Document.{Rest, OnlineOrder}
use lalaba_backend_showcase.Service.State.{
  Outcome, done, refused, World, Step, found, find_order_or_throw, transition, after_transition,
  saved, save, ◌>>=◌, with_transaction,
}
use lalaba_backend_showcase.Service.Results.{moved}

module _ (d : Doubles) where
  abbrev pub IsRefused : {A : Type 0} → Outcome A × World d → Type 0
  IsRefused (done a, w) = ⊥
  IsRefused (refused e, w) = Unit

  -- The step is refused, whatever the database is.
  pub record Refusing {A : Type 0} (m : Step d A) : Type 0 where
    pub refuses : (w : World d) → IsRefused (m w)

  -- A handler works on the document that is stored.
  pub handler_runs :
      (id : ℕ) (o : OnlineOrder d) (body : OnlineOrder d → Step d (OnlineOrder d)) (w : World d)
      → find id w.db.orders ≡ some o.base
      → find id w.rests ≡ some o.rest
      → (find_order_or_throw d id >>= body) w ≡ body o w
  unfolding find_order_or_throw ◌>>=◌
  handler_runs id o body w there stored =
      ap (λ (b : Option Order). run (found d b (find id w.rests))) there
      ∙ ap (λ (r : Option (Rest d)). run (found d (some o.base) r)) stored
    where
      run : Outcome (OnlineOrder d) → Outcome (OnlineOrder d) × World d
      run r = elim r [ done a ↦ body a w | refused e ↦ (refused e, w) ]

  pub refused_then :
      {A B : Type 0} (m : Step d A) (g : A → Step d B) → Refusing m → Refusing (m >>= g)
  unfolding ◌>>=◌
  refused_then {A} {B} m g r = record { refuses = λ w. go (m w) (r.refuses w) }
    where
      go :
          (r : Outcome A × World d)
          → IsRefused r
          → let s : Outcome B × World d = elim r.0 [
            | done a ↦ g a r.1
            | refused e ↦ (refused e, r.1)
          ] in
            IsRefused s
      go (done a, w) h = absurd h
      go (refused e, w) h = tt

  pub then_refused :
      {A B : Type 0} (m : Step d A) (g : A → Step d B)
      → ((a : A) → Refusing (g a))
      → Refusing (m >>= g)
  unfolding ◌>>=◌
  then_refused {A} {B} m g r = record { refuses = λ w. go (m w) }
    where
      go :
          (r : Outcome A × World d)
          → let s : Outcome B × World d = elim r.0 [
            | done a ↦ g a r.1
            | refused e ↦ (refused e, r.1)
          ] in
            IsRefused s
      go (done a, w) = (r a).refuses w
      go (refused e, w) = tt

  pub refused_transaction : {A : Type 0} (m : Step d A) → Refusing m → Refusing (with_transaction m)
  unfolding with_transaction
  refused_transaction {A} m r = record { refuses = λ w. go w (m w) (r.refuses w) }
    where
      go :
          (w : World d) (r : Outcome A × World d)
          → IsRefused r
          → let s : Outcome A × World d = elim r.0 [
            | done a ↦ (done a, r.1)
            | refused e ↦ (refused e, w)
          ] in
            IsRefused s
      go w (done a, w') h = absurd h
      go w (refused e, w') h = tt

  pub refused_transition :
      (id : ℕ) (to : OrderStatus) (actor : Actor) (now : ℕ) (o : OnlineOrder d)
      → assert_valid_transition o.base.status to ≡ conflict
      → Refusing (transition d id to actor now o)
  unfolding transition apply_transition
  refused_transition id to actor now o h = record { refuses = λ w. rw (h, apply_transition) tt }

  pub refused_after_save :
      (id : ℕ) (o : OnlineOrder d) (g : OnlineOrder d → Step d (OnlineOrder d))
      → Refusing (g o)
      → Refusing (saved d id o >>= g)
  unfolding ◌>>=◌ saved
  refused_after_save id o g r = record { refuses = λ w. r.refuses (save d id o w) }

  pub >>=-runs :
      {A B : Type 0} (m : Step d A) (g : A → Step d B) (w w' : World d) (a : A)
      → m w ≡ (done a, w')
      → (m >>= g) w ≡ g a w'
  unfolding ◌>>=◌
  >>=-runs {A} {B} m g w w' a e =
      ap
        (λ (r : Outcome A × World d).
          let s : Outcome B × World d = elim r.0 [
            | done a ↦ g a r.1
            | refused e ↦ (refused e, r.1)
          ] in
          s)
        e

  pub with_transaction-runs :
      {A : Type 0} (m : Step d A) (w w' : World d) (a : A)
      → m w ≡ (done a, w')
      → with_transaction m w ≡ (done a, w')
  unfolding with_transaction
  with_transaction-runs {A} m w w' a e =
      ap
        (λ (r : Outcome A × World d).
          let s : Outcome A × World d = elim r.0 [
            | done a ↦ (done a, r.1)
            | refused e ↦ (refused e, w)
          ] in
          s)
        e

  -- An allowed transition of the document that is stored goes through.
  pub record Moves (id : ℕ) (to : OrderStatus) (actor : Actor) (now : ℕ) (o : OnlineOrder d)
      (w : World d) : Type 0 where
    pub after : World d
    pub runs : transition d id to actor now o w ≡ (done (moved d to now o), after)
    pub there : find id after.db.orders ≡ some (moved d to now o).base

  pub transition_runs :
      (id : ℕ) (to : OrderStatus) (actor : Actor) (now : ℕ) (o : OnlineOrder d) (w : World d)
      → find id w.db.orders ≡ some o.base
      → assert_valid_transition o.base.status to ≡ allowed
      → Moves id to actor now o w
  unfolding transition
  transition_runs id to actor now o w there ok =
      let same = (==_iff o.base.version o.base.version).1 refl in
      let t = through id o.base to actor now w.db o.base ok there same in
      record {
        after = record w { db = (apply_transition id o.base to actor now w.db).1 };
        runs =
            ap
              (λ a. (
                after_transition d o a,
                record w { db = (apply_transition id o.base to actor now w.db).1 },
              ))
              t.result;
        there =
            ap (find id) t.written
            ∙ find-update_self id (patched to now o.base) o.base w.db.orders there;
      }
