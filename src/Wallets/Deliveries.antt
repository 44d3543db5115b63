-- ===== src/Wallets/Deliveries.antt =====
-- What `postVerifiedTopUp` does (src/wallets/wallets.service.ts), on every branch, and what later
-- and concurrent deliveries of the same payment do after it.

use lalaba_backend_showcase.Base.{
  ℕ, ◌≡◌, refl, ◌∙◌, ap, Bool, true, false, none, some, [], ◌∷◌, ◌++◌, arith,
}
use lalaba_backend_showcase.Base.Keyed.{find, update, find-update_self}
use lalaba_backend_showcase.Wallets.State.{
  Wallet, WalletLedgerEntry, TopUpIntent, Db, Result, ok, err, Action, pure, with_transaction,
  ◌>>=◌, ◌>>◌, >>=-ok, duplicate_key, not_found,
}
use lalaba_backend_showcase.Wallets.Store.{
  has_reference, is_duplicate, create_entry, find_intent, is_pending, update_pending,
}
use lalaba_backend_showcase.Wallets.TopUps.{
  PostTopUpResult, credit_wallet, post_claimed, VerifiedTopUpEvent, claim, claim_and_credit, caught,
  settle,
}
use lalaba_backend_showcase.Wallets.Credit.{
  credited_db, posted_db, credit_entry, credit_wallet-missing, credit_wallet-found,
}

-- The intents after the claim.
abbrev pub claimed_db : ℕ → VerifiedTopUpEvent → ℕ → Db → Db
claimed_db id event now db = record db { intents = update id (claim event now) db.intents }

-- A ledger row for the top-up is there.
abbrev pub is_credited : ℕ → TopUpIntent → Db → Bool
is_credited id i db = has_reference i.branch_id id db.ledger

pub update_pending-hit :
    (id : ℕ) (f : TopUpIntent → TopUpIntent) (j : TopUpIntent) (db : Db)
    → find id db.intents ≡ some j
    → is_pending j.status ≡ true
    → update_pending id f db ≡ (ok (some (f j)), record db { intents = update id f db.intents })
update_pending-hit id f j db found waits = ground arith

pub update_pending-miss :
    (id : ℕ) (f : TopUpIntent → TopUpIntent) (j : TopUpIntent) (db : Db)
    → find id db.intents ≡ some j
    → is_pending j.status ≡ false
    → update_pending id f db ≡ (ok none, db)
update_pending-miss id f j db found done = ground arith

create_entry-refused :
    (e : WalletLedgerEntry) (db : Db)
    → is_duplicate e db.ledger ≡ true
    → create_entry e db ≡ (err duplicate_key, db)
create_entry-refused e db dup = rw dup refl

create_entry-appended :
    (e : WalletLedgerEntry) (db : Db)
    → is_duplicate e db.ledger ≡ false
    → create_entry e db ≡ (ok tt, record db { ledger = db.ledger ++ e ∷ [] })
create_entry-appended e db new = rw new refl

credited-as :
    (id : ℕ) (i : TopUpIntent) (now : ℕ) (db : Db) {r : Result (Unit {0}) × Db}
    → credit_wallet id i now db ≡ r
    → (credit_wallet id i now >> pure false) db ≡ ((λ _. r) >> pure false) db
credited-as id i now db e = ap (λ (r : Result (Unit {0}) × Db). ((λ _. r) >> pure false) db) e

-- The transaction of a pending intent, with what the credit does known.
claim_and_credit-as :
    (id : ℕ) (i j : TopUpIntent) (event : VerifiedTopUpEvent) (now : ℕ) (db : Db)
    {r : Result (Unit {0}) × Db}
    → find id db.intents ≡ some j
    → is_pending j.status ≡ true
    → credit_wallet id i now (claimed_db id event now db) ≡ r
    → claim_and_credit id i event now db ≡ ((λ _. r) >> pure false) (claimed_db id event now db)
unfolding claim_and_credit
claim_and_credit-as id i j event now db found waits e =
    >>=-ok (update_pending id (claim event now)) (post_claimed id i now) db
      (update_pending-hit id (claim event now) j db found waits)
    ∙ credited-as id i now (claimed_db id event now db) e

-- The rest of `settle`, with the result of the transaction's body known.
abbrev reported : ℕ → Result Bool × Db → Action PostTopUpResult
reported id r = do
  already ← λ db. caught (with_transaction (λ _. r) db)
  fresh ← find_intent id
  pure (record { already_posted = already; intent = fresh })

reported-found :
    (id : ℕ) (already : Bool) (j : TopUpIntent) (db : Db)
    → find id db.intents ≡ some j
    → ◌≡◌ {A = Result PostTopUpResult × Db}
        (ok (record { already_posted = already; intent = find id db.intents }), db)
        (ok (record { already_posted = already; intent = some j }), db)
reported-found id already j db found = rw found refl

settle-as :
    (id : ℕ) (i : TopUpIntent) (event : VerifiedTopUpEvent) (now : ℕ) (db : Db)
    {r : Result Bool × Db}
    → claim_and_credit id i event now db ≡ r
    → settle id i event now db ≡ reported id r db
unfolding settle
settle-as id i event now db e = ap (λ (r : Result Bool × Db). reported id r db) e

-- A delivery that read the intent before another settled it writes nothing, and reports the
-- payment as already posted, with the intent as it is now.
settle-stale :
    (id : ℕ) (i j : TopUpIntent) (event : VerifiedTopUpEvent) (now : ℕ) (db : Db)
    → find id db.intents ≡ some j
    → is_pending j.status ≡ false
    → settle id i event now db ≡ (ok (record { already_posted = true; intent = some j }), db)
unfolding claim_and_credit
settle-stale id i j event now db found done =
    settle-as id i event now db (
      >>=-ok (update_pending id (claim event now)) (post_claimed id i now) db
        (update_pending-miss id (claim event now) j db found done))
    ∙ reported-found id true j db found

pub settle-missing_wallet :
    (id : ℕ) (i j : TopUpIntent) (event : VerifiedTopUpEvent) (now : ℕ) (db : Db)
    → find id db.intents ≡ some j
    → is_pending j.status ≡ true
    → find i.branch_id db.wallets ≡ none
    → settle id i event now db ≡ (err not_found, db)
settle-missing_wallet id i j event now db found waits absent = settle-as id i event now db (
    claim_and_credit-as id i j event now db found waits
      (credit_wallet-missing id i now (claimed_db id event now db) absent))

pub settle-duplicate :
    (id : ℕ) (i j : TopUpIntent) (event : VerifiedTopUpEvent) (now : ℕ) (db : Db) (w : Wallet)
    → find id db.intents ≡ some j
    → is_pending j.status ≡ true
    → find i.branch_id db.wallets ≡ some w
    → is_credited id i db ≡ true
    → settle id i event now db ≡ (ok (record { already_posted = true; intent = some j }), db)
settle-duplicate id i j event now db w found waits there dup =
    settle-as id i event now db (
      claim_and_credit-as id i j event now db found waits (
        credit_wallet-found id i now (claimed_db id event now db) w there
        ∙ create_entry-refused (credit_entry id i w)
            (credited_db i now (claimed_db id event now db)) dup))
    ∙ reported-found id true j db found

pub settle-credits :
    (id : ℕ) (i j : TopUpIntent) (event : VerifiedTopUpEvent) (now : ℕ) (db : Db) (w : Wallet)
    → find id db.intents ≡ some j
    → is_pending j.status ≡ true
    → find i.branch_id db.wallets ≡ some w
    → is_credited id i db ≡ false
    → settle id i event now db ≡ (
      ok (record { already_posted = false; intent = some (claim event now j) }),
      posted_db id i now (claimed_db id event now db) w,
    )
settle-credits id i j event now db w found waits there new =
    settle-as id i event now db (
      claim_and_credit-as id i j event now db found waits (
        credit_wallet-found id i now (claimed_db id event now db) w there
        ∙ create_entry-appended (credit_entry id i w)
            (credited_db i now (claimed_db id event now db)) new))
    ∙ reported-found id false (claim event now j)
        (posted_db id i now (claimed_db id event now db) w)
        (find-update_self id (claim event now) j db.intents found)
