-- ===== src/Wallets/Sound.antt =====
-- What it means that the books are sound, and the rules by which a method of several steps keeps
-- them so.

use lalaba_backend_showcase.Base.{
  ◌≡◌, refl, Bool, true, false, Option, none, some, [], ◌∷◌, ◌++◌, if◌then◌else◌,
}
use lalaba_backend_showcase.Base.Int.{◌+ℤ◌}
use lalaba_backend_showcase.Base.Keyed.{find, update, IsUnique, update-IsUnique}
use lalaba_backend_showcase.Wallets.State.{
  Wallet, WalletLedgerEntry, Db, Failure, Action, Result, ok, err, with_transaction, ◌>>=◌, ◌>>◌,
  or_throw, pure,
}
use lalaba_backend_showcase.Wallets.Balance.{Balanced, append-Balanced, update-Moved}

-- The books: balances are ledger sums, and each branch has one wallet.
pub record IsSound (db : Db) : Type 0 where
  pub balanced : Balanced db
  pub unique : IsUnique db.wallets

-- The action leaves sound books sound, whether it returns or throws.
pub record Keeps {A : Type 0} (m : Action A) : Type 0 where
  pub keep : (db : Db) → IsSound db → IsSound (m db).1

-- The write that every ledgered path makes.
pub posted-IsSound :
    (db : Db) (f : Wallet → Wallet) (w : Wallet) (e : WalletLedgerEntry)
    → IsSound db
    → find e.branch_id db.wallets ≡ some w
    → (f w).balance_centavos ≡ w.balance_centavos +ℤ e.amount_centavos
    → IsSound
        (record db { wallets = update e.branch_id f db.wallets; ledger = db.ledger ++ e ∷ [] })
posted-IsSound db f w e s found moved = record {
  balanced =
      append-Balanced db (update e.branch_id f db.wallets) e s.balanced
        (update-Moved e.branch_id e.amount_centavos f w db.wallets found moved);
  unique = update-IsUnique e.branch_id f db.wallets s.unique;
}

pub if-Keeps :
    {A : Type 0} (t : Bool) (m n : Action A) → Keeps m → Keeps n → Keeps (if t then m else n)
if-Keeps true m n hm hn = hm
if-Keeps false m n hm hn = hn

pub or_throw-Keeps : {A : Type 0} (o : Option A) (e : Failure) → Keeps (or_throw o e)
or_throw-Keeps none e = record { keep = λ db s. s }
or_throw-Keeps (some a) e = record { keep = λ db s. s }

pub >>=-Keeps :
    {A B : Type 0} (m : Action A) (f : A → Action B)
    → Keeps m
    → ((a : A) → Keeps (f a))
    → Keeps (m >>= f)
>>=-Keeps {A} m f hm hf = record { keep = λ db s. go (m db).0 (m db).1 (hm.keep db s) db }
  where
    go :
        (r : Result A) (db' : Db) → IsSound db' → (db : Db) → IsSound (◌>>=◌ (λ _. (r, db')) f db).1
    go (ok a) db' s' db = (hf a).keep db' s'
    go (err e) db' s' db = s'

-- The action leaves sound books sound when it returns; a transaction needs no more of its body.
pub record KeepsOk {A : Type 0} (m : Action A) : Type 0 where
  pub keep_ok : (db : Db) → IsSound db → (a : A) → (m db).0 ≡ ok a → IsSound (m db).1

pub with_transaction-Keeps : {A : Type 0} (m : Action A) → KeepsOk m → Keeps (with_transaction m)
with_transaction-Keeps {A} m hm = record {
  keep = λ db s. go (m db).0 (m db).1 db s (hm.keep_ok db s);
}
  where
    go :
        (r : Result A) (db' db : Db)
        → IsSound db
        → ((a : A) → r ≡ ok a → IsSound db')
        → IsSound (with_transaction {A = A} (λ _. (r, db')) db).1
    go (ok a) db' db s s' = s' a refl
    go (err e) db' db s s' = s

pub >>=-KeepsOk :
    {A B : Type 0} (m : Action A) (f : A → Action B)
    → Keeps m
    → ((a : A) → KeepsOk (f a))
    → KeepsOk (m >>= f)
>>=-KeepsOk {A} {B} m f hm hf = record { keep_ok = λ db s. go (m db).0 (m db).1 db (hm.keep db s) }
  where
    go :
        (r : Result A) (db' db : Db)
        → IsSound db'
        → (b : B) → (◌>>=◌ (λ _. (r, db')) f db).0 ≡ ok b
        → IsSound (◌>>=◌ (λ _. (r, db')) f db).1
    go (ok a) db' db s' b e = (hf a).keep_ok db' s' b e
    go (err x) db' db s' b e = s'

pub then_pure-KeepsOk :
    {A : Type 0} (m : Action (Unit {0})) (a : A) → KeepsOk m → KeepsOk (m >> pure a)
then_pure-KeepsOk {A} m a hm = record {
  keep_ok = λ db s. go (m db).0 (m db).1 db (hm.keep_ok db s);
}
  where
    go :
        (r : Result (Unit {0})) (db' db : Db)
        → ((u : Unit {0}) → r ≡ ok u → IsSound db')
        → (b : A) → (◌>>◌ (λ _. (r, db')) (pure a) db).0 ≡ ok b
        → IsSound (◌>>◌ (λ _. (r, db')) (pure a) db).1
    go (ok u) db' db s' b e = s' u refl
    go (err x) db' db s' b e = cc

pub reads-Keeps : {A : Type 0} (r : Result A) → Keeps {A = A} (λ db. (r, db))
reads-Keeps r = record { keep = λ db s. s }
