-- ===== src/Wallets/Ledgered.antt =====
-- The methods that write a balance, against the sum of the ledger (src/wallets/wallets.service.ts).

use lalaba_backend_showcase.Base.{
  ℕ, ◌≡◌, refl, ◌∙◌, Bool, true, false, none, some, ◌==◌, if◌then◌else◌, arith, Bool-cases,
  Option-cases, inl, inr,
}
use lalaba_backend_showcase.Base.Int.{ℤ, pos, ◌+ℤ◌, ltb_ℤ, leb_ℤ, eqb_ℤ}
use lalaba_backend_showcase.Base.Keyed.{
  find, insert, update-absent, find-insert_self, find-insert_ne, insert-IsUnique,
}
use lalaba_backend_showcase.Wallets.State.{
  bad_request, duplicate_key, Wallet, TopUpIntent, Db, Result, ok, err,
}
use lalaba_backend_showcase.Wallets.Store.{is_duplicate}
use lalaba_backend_showcase.Wallets.Fees.{
  consume_fee, reverse_fee, credit_fee, admin_adjust_balance, adjust, Number, whole, not_integer,
}
use lalaba_backend_showcase.Wallets.TopUps.{create_wallet, credit_wallet}
use lalaba_backend_showcase.Wallets.Credit.{
  changed, adjusted, adjust_entry, adjust-missing, adjust-found, credited, increased, credited_db,
  posted_db, credit_entry, credit_wallet-missing, credit_wallet-found, stamped-balance,
}
use lalaba_backend_showcase.Wallets.Balance.{balance_of}
use lalaba_backend_showcase.Wallets.Sound.{
  IsSound, Keeps, posted-IsSound, if-Keeps, reads-Keeps, with_transaction-Keeps,
}

new_wallet-Moved :
    (b : ℕ) (db : Db) (w : Wallet)
    → w.balance_centavos ≡ pos 0
    → find b db.wallets ≡ none
    → (j : ℕ) → balance_of j (insert b w db.wallets) ≡ balance_of j db.wallets
new_wallet-Moved b db w z e j = elim (Bool-cases (b == j)) [
  | inl same ↦ ground (arith, find-insert_self b w db.wallets e)
  | inr other ↦ ground (arith, find-insert_ne j b w db.wallets)
]

pub create_wallet-IsSound : (b : ℕ) (db : Db) → IsSound db → IsSound (create_wallet b db).1
unfolding create_wallet
create_wallet-IsSound b db s = elim (Option-cases (find b db.wallets)) [
  | inr (w, e) ↦ rw (e, create_wallet) s
  | inl e ↦
      rw (e, create_wallet)
        (record {
          balanced = λ j. new_wallet-Moved b db _ refl e j ∙ s.balanced j;
          unique = insert-IsUnique b _ db.wallets s.unique e;
        })
]

pub consume_fee-IsSound :
    (b : ℕ) (amount : ℤ) (order : ℕ) (db : Db)
    → IsSound db
    → IsSound (consume_fee b amount order db).1
unfolding consume_fee
consume_fee-IsSound b amount order db s = elim (Option-cases (find b db.wallets)) [
  | inl e ↦ rw (e, update-absent b _ db.wallets e) s
  | inr (w, e) ↦ rw e (posted-IsSound db _ w _ s e refl)
]

credit_fee-IsSound :
    (b : ℕ) (amount : ℤ) (order : ℕ) (db : Db)
    → IsSound db
    → IsSound (credit_fee b amount order db).1
unfolding credit_fee
credit_fee-IsSound b amount order db s = elim (Option-cases (find b db.wallets)) [
  | inl e ↦ rw (e, update-absent b _ db.wallets e) s
  | inr (w, e) ↦ rw e (posted-IsSound db _ w _ s e refl)
]

pub reverse_fee-Keeps : (b : ℕ) (amount : ℤ) (order : ℕ) → Keeps (reverse_fee b amount order)
unfolding reverse_fee
reverse_fee-Keeps b amount order =
    if-Keeps (leb_ℤ amount (pos 0)) _ _ (reads-Keeps (ok tt))
      (record { keep = credit_fee-IsSound b amount order })

adjust-IsSound : (b : ℕ) (delta : ℤ) (db : Db) → IsSound db → IsSound (adjust b delta db).1
adjust-IsSound b delta db s = elim (Option-cases (find b db.wallets)) [
  | inl e ↦ rw (adjust-missing b delta db e) s
  | inr (w, e) ↦
      rw (adjust-found b delta db w e) (go w e (ltb_ℤ (w.balance_centavos +ℤ delta) (pos 0)))
]
  where
    go :
        (w : Wallet)
        → find b db.wallets ≡ some w
        → (low : Bool)
        → let r : Result Wallet × Db =
            (if low
              then (err bad_request, db)
              else (ok (changed delta w), adjusted b delta db w)) in
          IsSound r.1
    go w e true = s
    go w e false = posted-IsSound db (changed delta) w (adjust_entry b delta w) s e refl

pub admin_adjust_balance-Keeps : (b : ℕ) (n : Number) → Keeps (admin_adjust_balance b n)
unfolding admin_adjust_balance
admin_adjust_balance-Keeps b not_integer = reads-Keeps (err bad_request)
admin_adjust_balance-Keeps b (whole delta) =
    if-Keeps (eqb_ℤ delta (pos 0)) _ _ (reads-Keeps (err bad_request)) (
      with_transaction-Keeps (adjust b delta)
        (record { keep_ok = λ db s a e. adjust-IsSound b delta db s }))

pub credit_wallet-IsSound :
    (id : ℕ) (i : TopUpIntent) (now : ℕ) (db : Db)
    → IsSound db
    → (u : Unit {0}) → (credit_wallet id i now db).0 ≡ ok u
    → IsSound (credit_wallet id i now db).1
credit_wallet-IsSound id i now db s u = elim (Option-cases (find i.branch_id db.wallets)) [
  | inl e ↦ rw (credit_wallet-missing id i now db e) (λ h. cc)
  | inr (w, e) ↦
      rw (credit_wallet-found id i now db w e)
        (go w e (is_duplicate (credit_entry id i w) db.ledger))
]
  where
    go :
        (w : Wallet)
        → find i.branch_id db.wallets ≡ some w
        → (dup : Bool)
        → let r : Result (Unit {0}) × Db =
            (if dup
              then (err duplicate_key, credited_db i now db)
              else (ok tt, posted_db id i now db w)) in
          r.0 ≡ ok u → IsSound r.1
    go w e true h = cc
    go w e false h =
        posted-IsSound db (credited i now) w (credit_entry id i w) s e
          (stamped-balance now (increased i w))
