-- ===== src/Service/Keeping.antt =====
-- The rules of Service/Steps.antt on steps that are not yet applied to a database: a handler's proof
-- follows the lines of its `do` block.
use Prim.Native.String.{String}
use lalaba_backend_showcase.Base.{ℕ, ◌≡◌, Bool, true, false, Option, if◌then◌else◌}
use lalaba_backend_showcase.Orders.Status.{OrderStatus}
use lalaba_backend_showcase.Orders.Transition.{Actor}
use lalaba_backend_showcase.Pricing.Doubles.{Doubles}
use lalaba_backend_showcase.Service.Document.{
  OnlineOrder, OnlineTransactionStatus, consumed_centavos, collected_centavos,
}
use lalaba_backend_showcase.Service.State.{
  done, Refusal, User, World, Step, find_order_or_throw, saved, transition, ◌>>=◌, with_transaction,
  pure, throw,
}
use lalaba_backend_showcase.Service.Money.{
  PaymentCollectionFields, record_collection_transaction, consume_outstanding_fee,
  save_and_transition,
}
use lalaba_backend_showcase.Service.Books.{IsKept, Frame-refl, Balanced, SameBooks, Advances}
use lalaba_backend_showcase.Service.Steps.{
  Lands, Safe, >>=-Lands, >>=-Safe, quiet-Lands, quiet-Safe, with_transaction-Safe, saved-Lands,
  transition-Lands,
}
use lalaba_backend_showcase.Service.Handlers.{handler-Balanced, handler-kept}
use lalaba_backend_showcase.Service.Posting.{consume-Lands, collection-Lands}

module _ (d : Doubles) where
  -- From a database in which the order's books are kept, as part of a transaction.
  pub record Landing (id : ℕ) (o : OnlineOrder d) (m : Step d (OnlineOrder d)) : Type 0 where
    pub lands : (w : World d) → IsKept d id o w → Lands d id w (m w)

  -- The same outside a transaction.
  pub record Keeping (id : ℕ) (o : OnlineOrder d) (m : Step d (OnlineOrder d)) : Type 0 where
    pub keeps : (w : World d) → IsKept d id o w → Safe d id w (m w)

  -- A step that does not touch the books.
  pub record Quiet {A : Type 0} (m : Step d A) : Type 0 where
    pub same : (w : World d) → SameBooks d w (m w).1

  -- A handler that keeps the books of all orders, moves each along the transition table, and
  -- returns what it stored.
  pub record Keeps (id : ℕ) (m : Step d (OnlineOrder d)) : Type 0 where
    pub keep : (w : World d) → Balanced d w → Balanced d (m w).1 × Advances d w (m w).1
    pub kept :
        (w : World d) (o' : OnlineOrder d)
        → Balanced d w
        → (m w).0 ≡ done o'
        → IsKept d id o' (m w).1

  pub handler :
      (id : ℕ) (body : OnlineOrder d → Step d (OnlineOrder d))
      → ((o : OnlineOrder d) → Keeping id o (body o))
      → Keeps id (find_order_or_throw d id >>= body)
  handler id body h = record {
    keep = λ w bal. handler-Balanced d id body w (λ o k. (h o).keeps w k) bal;
    kept = λ w o' bal e. handler-kept d id body w o' (λ o k. (h o).keeps w k) bal e;
  }

  pub after-Quiet :
      {A : Type 0} {id : ℕ} {o : OnlineOrder d} (m : Step d A) (g : A → Step d (OnlineOrder d))
      → Quiet m
      → ((a : A) → Keeping id o (g a))
      → Keeping id o (m >>= g)
  after-Quiet {id} {o} m g q h = record {
    keeps = λ w k. quiet-Safe d id m g w o k (q.same w) (λ a w' k'. (h a).keeps w' k');
  }

  pub Landing-after-Quiet :
      {A : Type 0} {id : ℕ} {o : OnlineOrder d} (m : Step d A) (g : A → Step d (OnlineOrder d))
      → Quiet m
      → ((a : A) → Landing id o (g a))
      → Landing id o (m >>= g)
  Landing-after-Quiet {id} {o} m g q h = record {
    lands = λ w k. quiet-Lands d id m g w o k (q.same w) (λ a w' k'. (h a).lands w' k');
  }

  pub in_transaction :
      {id : ℕ} {o : OnlineOrder d} (m : Step d (OnlineOrder d))
      → Landing id o m
      → Keeping id o (with_transaction m)
  in_transaction {id} {o} m l = record {
    keeps = λ w k. with_transaction-Safe d id m w o k (l.lands w k);
  }

  pub Landing-then :
      {id : ℕ} {o : OnlineOrder d} (m : Step d (OnlineOrder d))
      (g : OnlineOrder d → Step d (OnlineOrder d))
      → Landing id o m
      → ((o' : OnlineOrder d) → Landing id o' (g o'))
      → Landing id o (m >>= g)
  Landing-then {id} m g l h = record {
    lands = λ w k. >>=-Lands d id m g w (l.lands w k) (λ o' w' k'. (h o').lands w' k');
  }

  pub Keeping-then :
      {id : ℕ} {o : OnlineOrder d} (m : Step d (OnlineOrder d))
      (g : OnlineOrder d → Step d (OnlineOrder d))
      → Keeping id o m
      → ((o' : OnlineOrder d) → Keeping id o' (g o'))
      → Keeping id o (m >>= g)
  Keeping-then {id} m g l h = record {
    keeps = λ w k. >>=-Safe d id m g w (l.keeps w k) (λ o' w' k'. (h o').keeps w' k');
  }

  pub Landing-saved :
      {id : ℕ} (o o' : OnlineOrder d)
      → consumed_centavos d o' ≡ consumed_centavos d o
      → collected_centavos d o' ≡ collected_centavos d o
      → o'.base.status ≡ o.base.status
      → Landing id o (saved d id o')
  Landing-saved {id} o o' fee money status = record {
    lands = λ w k. saved-Lands d id o o' w k fee money status;
  }

  -- A save outside a transaction cannot throw.
  pub Keeping-saved :
      {id : ℕ} (o o' : OnlineOrder d)
      → consumed_centavos d o' ≡ consumed_centavos d o
      → collected_centavos d o' ≡ collected_centavos d o
      → o'.base.status ≡ o.base.status
      → Keeping id o (saved d id o')
  unfolding saved
  Keeping-saved {id} o o' fee money status = record {
    keeps = λ w k. saved-Lands d id o o' w k fee money status;
  }

  pub Landing-transition :
      (id : ℕ) (to : OrderStatus) (actor : Actor) (now : ℕ) (o : OnlineOrder d)
      → Landing id o (transition d id to actor now o)
  Landing-transition id to actor now o = record {
    lands = λ w k. transition-Lands d id to actor now o w k;
  }

  pub Landing-fee : (id : ℕ) (o : OnlineOrder d) → Landing id o (consume_outstanding_fee d id o)
  Landing-fee id o = record { lands = λ w k. consume-Lands d id o w k }

  pub Landing-collection :
      (id : ℕ) (actor : User) (input : PaymentCollectionFields) (amount : ℕ)
      (status : OnlineTransactionStatus) (now : ℕ) (o : OnlineOrder d)
      → Landing id o (record_collection_transaction d id actor input amount status now o)
  Landing-collection id actor input amount status now o = record {
    lands = λ w k. collection-Lands d id actor input amount status now o w k;
  }

  pub Landing-pure : (id : ℕ) (o : OnlineOrder d) → Landing id o (pure o)
  unfolding pure
  Landing-pure id o = record { lands = λ w k. (k, Frame-refl d id w) }

  pub Keeping-pure : (id : ℕ) (o : OnlineOrder d) → Keeping id o (pure o)
  unfolding pure
  Keeping-pure id o = record { keeps = λ w k. (k, Frame-refl d id w) }

  pub Keeping-throw : (id : ℕ) (o : OnlineOrder d) (e : Refusal) → Keeping id o (throw e)
  unfolding throw
  Keeping-throw id o e = record { keeps = λ w k. (o, k, Frame-refl d id w) }

  pub Landing-if :
      {id : ℕ} {o : OnlineOrder d} (b : Bool) (m n : Step d (OnlineOrder d))
      → Landing id o m
      → Landing id o n
      → Landing id o (if b then m else n)
  Landing-if true m n hm hn = hm
  Landing-if false m n hm hn = hn

  pub Keeping-if :
      {id : ℕ} {o : OnlineOrder d} (b : Bool) (m n : Step d (OnlineOrder d))
      → Keeping id o m
      → Keeping id o n
      → Keeping id o (if b then m else n)
  Keeping-if true m n hm hn = hm
  Keeping-if false m n hm hn = hn

  pub Keeping-move :
      (id : ℕ) (to : OrderStatus) (actor : User) (remark : Option String) (now : ℕ)
      (o o' : OnlineOrder d)
      → consumed_centavos d o' ≡ consumed_centavos d o
      → collected_centavos d o' ≡ collected_centavos d o
      → o'.base.status ≡ o.base.status
      → Keeping id o (save_and_transition d id to actor remark now o')
  unfolding save_and_transition
  Keeping-move id to actor remark now o o' fee money status = in_transaction _ (
      Landing-then (saved d id o') _ (Landing-saved o o' fee money status)
        λ o1. Landing-transition id to _ now o1)
