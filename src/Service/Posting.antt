-- ===== src/Service/Posting.antt =====
-- The steps in which money moves, and the books
-- (src/online-orders/online-orders.service.ts, src/wallets/wallets.service.ts).
use lalaba_backend_showcase.Base.{
  ℕ, ◌+◌, ◌≡◌, refl, sym, ap, ◌∙◌, true, false, some, [], ◌∷◌, ◌++◌, arith, inl, inr, Bool-cases,
  ==_iff, subst,
}
use lalaba_backend_showcase.Base.Int.{
  ℤ, pos, ◌+ℤ◌, ◌-ℤ◌, ltb_ℤ, leb_ℤ, eqb_ℤ, int_laws, pos_part, neg_part, eq_of_parts,
}
use lalaba_backend_showcase.Base.Keyed.{find-update_self, find-update_ne}
use lalaba_backend_showcase.Wallets.State.{WalletLedgerEntry, Db, Action, Result, ok, err}
use lalaba_backend_showcase.Pricing.Doubles.{Doubles}
use lalaba_backend_showcase.Service.Document.{
  PaymentMethod, OnlineTransactionStatus, OnlineOrder, consumed_centavos, collected_centavos,
}
use lalaba_backend_showcase.Service.State.{
  Outcome, done, refused, User, World, Step, save, saved, call_wallet, after_wallet, ◌>>=◌, pure,
  throw,
}
use lalaba_backend_showcase.Service.Money.{
  PaymentCollectionFields, Tender, paid, checked_payment, transaction_of, collect,
  record_collection_transaction, with_consumed, owed_centavos, posted_fee, consume_outstanding_fee,
}
use lalaba_backend_showcase.Service.Counts.{same-KeepsCounts}
use lalaba_backend_showcase.Service.Books.{
  fee_sum, fee_sum-append_own, fee_sum-append_other, paid_sum-append, IsKept, Frame, Frame-refl,
  Moved-kept,
}
use lalaba_backend_showcase.Orders.Runs.{Reach}
use lalaba_backend_showcase.Service.Steps.{Lands}
use lalaba_backend_showcase.Service.Posts.{Posts, consume_fee-Posts, reverse_fee-Posts}

shift : (c' c s x : ℤ) → c' +ℤ x ≡ c → c +ℤ s ≡ pos 0 → c' +ℤ (s +ℤ x) ≡ pos 0
shift c' c s x h g =
    let hp = ap pos_part h in
    let hn = ap neg_part h in
    let gp = ap pos_part g in
    let gn = ap neg_part g in eq_of_parts _ _ (omega (int_laws, hp, hn, gp, gn))

module _ (d : Doubles) where
  -- The row is written and the document remembers it.
  after_posting :
      (id : ℕ) (x : ℤ) (o o' : OnlineOrder d) (w : World d) (db' : Db) (e : WalletLedgerEntry)
      → IsKept d id o w
      → e.order_id ≡ some id
      → e.amount_centavos ≡ x
      → db'.ledger ≡ w.wallets.ledger ++ e ∷ []
      → consumed_centavos d o' +ℤ x ≡ consumed_centavos d o
      → collected_centavos d o' ≡ collected_centavos d o
      → o'.base.status ≡ o.base.status
      → IsKept d id o' (save d id o' (record w { wallets = db' }))
        × Frame d id w (save d id o' (record w { wallets = db' }))
  unfolding save
  after_posting id x o o' w db' e k own amount ledger fee money status = (
    record {
      there = find-update_self id (λ _. o'.base) o.base w.db.orders k.there;
      stored = find-update_self id (λ _. o'.rest) o.rest w.rests k.stored;
      fees = balance (
          ap (fee_sum id) ledger
          ∙ fee_sum-append_own id w.wallets.ledger e own
          ∙ ap (λ a. fee_sum id w.wallets.ledger +ℤ a) amount);
      paid = k.paid ∙ sym money;
    },
    record {
      orders = λ j ne. find-update_ne j id (λ _. o'.base) w.db.orders ne;
      rests = λ j ne. find-update_ne j id (λ _. o'.rest) w.rests ne;
      fees = λ j ne. ap (fee_sum j) ledger ∙ fee_sum-append_other j id w.wallets.ledger e own ne;
      paid = λ j ne. refl;
      moved =
          Moved-kept d id o o'.base w (save d id o' (record w { wallets = db' })) k
            (find-update_self id (λ _. o'.base) o.base w.db.orders k.there)
            (subst (Reach o.base.status) (sym status) Reach.here);
      counts = same-KeepsCounts d w (save d id o' (record w { wallets = db' })) refl;
    },
  )
    where
      balance :
          fee_sum id db'.ledger ≡ fee_sum id w.wallets.ledger +ℤ x
          → consumed_centavos d o' +ℤ fee_sum id db'.ledger ≡ pos 0
      balance sum = rw sum (
          let old = k.fees in
          shift (consumed_centavos d o') (consumed_centavos d o) (fee_sum id w.wallets.ledger) x fee
            old)

  -- A call that posts, and a continuation that begins with the save.
  pub call_wallet-Lands :
      (id : ℕ) (x : ℤ) (m : Action (Unit {0})) (o o' : OnlineOrder d) (w : World d)
      (g : OnlineOrder d → Step d (OnlineOrder d))
      → IsKept d id o w
      → Posts id x w.wallets (m w.wallets)
      → consumed_centavos d o' +ℤ x ≡ consumed_centavos d o
      → collected_centavos d o' ≡ collected_centavos d o
      → o'.base.status ≡ o.base.status
      → ((w' : World d)
          → IsKept d id o' (save d id o' w')
          → Frame d id w (save d id o' w')
          → Lands d id w (g o' w'))
      → Lands d id w ((call_wallet d m o' >>= g) w)
  unfolding call_wallet ◌>>=◌
  call_wallet-Lands id x m o o' w g k posts fee money status h = go (m w.wallets) posts
    where
      go :
          (r : Result (Unit {0}) × Db)
          → Posts id x w.wallets r
          → Lands d id w (
              ◌>>=◌ {A = OnlineOrder d}
                (λ (v : World d). (after_wallet d o' r.0, record v { wallets = r.1 }))
                g
                w)
      go (ok u, db') (e, own, amount, ledger) =
          let both = after_posting id x o o' w db' e k own amount ledger fee money status in
          h (record w { wallets = db' }) both.0 both.1
      go (err f, db') p = tt

  pub posted_fee-Lands :
      (id : ℕ) (x owed : ℤ) (m : Action (Unit {0})) (o : OnlineOrder d) (w : World d)
      → IsKept d id o w
      → Posts id x w.wallets (m w.wallets)
      → owed +ℤ x ≡ consumed_centavos d o
      → Lands d id w (posted_fee d id m owed o w)
  unfolding saved
  posted_fee-Lands id x owed m o w k posts fee =
      call_wallet-Lands id x m o (with_consumed d owed o) w (saved d id) k posts fee refl refl
        λ w' k' f. (k', f)

  less_then_positive : (a b : ℤ) → ltb_ℤ a b ≡ true → leb_ℤ (b -ℤ a) (pos 0) ≡ false
  less_then_positive a b h = grind int_laws

  back : (a b : ℤ) → a +ℤ (b -ℤ a) ≡ b
  back a b = omega int_laws

  forth : (a b : ℤ) → a +ℤ (pos 0 -ℤ (a -ℤ b)) ≡ b
  forth a b = omega int_laws

  pub consume-Lands :
      (id : ℕ) (o : OnlineOrder d) (w : World d)
      → IsKept d id o w
      → Lands d id w (consume_outstanding_fee d id o w)
  unfolding consume_outstanding_fee pure
  consume-Lands id o w k =
      let owed = owed_centavos d o in
      let consumed = consumed_centavos d o in
      elim (Bool-cases (eqb_ℤ owed consumed)) [
        | inl same ↦ rw same (k, Frame-refl d id w)
        | inr ne ↦ elim (Bool-cases (ltb_ℤ owed consumed)) [
          | inl less ↦
              rw (ne, less)
                (posted_fee-Lands id (consumed -ℤ owed) owed _ o w k
                  (reverse_fee-Posts o.rest.provider.branch_id (consumed -ℤ owed) id w.wallets
                    (less_then_positive owed consumed less))
                  (back owed consumed))
          | inr more ↦
              rw (ne, more)
                (posted_fee-Lands id (pos 0 -ℤ (owed -ℤ consumed)) owed _ o w k
                  (consume_fee-Posts o.rest.provider.branch_id (owed -ℤ consumed) id w.wallets)
                  (forth owed consumed))
        ]
      ]

  collect-Lands :
      (id : ℕ) (actor : User) (input : PaymentCollectionFields) (p : PaymentMethod × Tender)
      (amount : ℕ) (status : OnlineTransactionStatus) (now : ℕ) (o : OnlineOrder d) (w : World d)
      → IsKept d id o w
      → Lands d id w (collect d id actor input p amount status now o w)
  unfolding collect save
  collect-Lands id actor input (method, t) amount status now o w k = (
    record {
      there = find-update_self id _ o.base w.db.orders k.there;
      stored = find-update_self id _ o.rest w.rests k.stored;
      fees = k.fees;
      paid =
          paid_sum-append id w.transactions (transaction_of d id actor input method t amount status)
          ∙ rw ((==_iff id id).1 refl) (ap (λ s. s + amount) k.paid);
    },
    record {
      orders = λ j ne. find-update_ne j id _ w.db.orders ne;
      rests = λ j ne. find-update_ne j id _ w.rests ne;
      fees = λ j ne. refl;
      paid = λ j ne.
          paid_sum-append j w.transactions (transaction_of d id actor input method t amount status)
          ∙ ground arith;
      moved =
          Moved-kept d id o (paid d o actor input method t amount now).base w
            (save d id (paid d o actor input method t amount now) w) k
            (find-update_self id _ o.base w.db.orders k.there) Reach.here;
      counts = same-KeepsCounts d w (save d id (paid d o actor input method t amount now) w) refl;
    },
  )

  pub collection-Lands :
      (id : ℕ) (actor : User) (input : PaymentCollectionFields) (amount : ℕ)
      (status : OnlineTransactionStatus) (now : ℕ) (o : OnlineOrder d) (w : World d)
      → IsKept d id o w
      → Lands d id w (record_collection_transaction d id actor input amount status now o w)
  unfolding record_collection_transaction throw
  collection-Lands id actor input amount status now o w k = go (checked_payment input amount)
    where
      go :
          (r : Outcome (PaymentMethod × Tender))
          → Lands d id w (
              (elim r as (λ _. Step d (OnlineOrder d)) [
                | refused e ↦ throw e
                | done p ↦ collect d id actor input p amount status now o
              ])
                w)
      go (refused e) = tt
      go (done p) = collect-Lands id actor input p amount status now o w k
