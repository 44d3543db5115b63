-- ===== src/Wallets/Store.antt =====
-- The queries that the wallet services make, on the collections of the database.
use lalaba_backend_showcase.Base.{
  ℕ, Bool, true, false, ◌&&◌, ◌||◌, Option, none, some, List, [], ◌∷◌, ◌++◌, ◌==◌, if◌then◌else◌,
}
use lalaba_backend_showcase.Base.Int.{ℤ, ◌+ℤ◌}
use lalaba_backend_showcase.Base.Keyed.{find, update}
use lalaba_backend_showcase.Wallets.State.{
  Wallet, WalletLedgerEntry, TopUpIntent, TopUpIntentStatus, pending, duplicate_key, ok, err,
  Action,
}

abbrev pub find_wallet : ℕ → Action (Option Wallet)
find_wallet branch_id db = (ok (find branch_id db.wallets), db)

abbrev mapped {ℓ} : {A : Type ℓ} → (A → A) → Option A → Option A
mapped f none = none
mapped f (some a) = some (f a)

-- `findOneAndUpdate({ branchId }, …, { new: true })`
abbrev pub update_wallet : ℕ → (Wallet → Wallet) → Action (Option Wallet)
update_wallet branch_id f db = (
  ok (mapped f (find branch_id db.wallets)),
  record db { wallets = update branch_id f db.wallets },
)

abbrev pub inc_balance : ℕ → ℤ → Action (Option Wallet)
inc_balance branch_id delta =
    update_wallet branch_id λ w. record w { balance_centavos = w.balance_centavos +ℤ delta }

-- A ledger row that carries the reference, for the same branch.
abbrev pub has_reference : ℕ → ℕ → List WalletLedgerEntry → Bool
has_reference branch_id ref [] = false
has_reference branch_id ref (e ∷ es) =
    (e.branch_id == branch_id && elim e.xendit_reference [ none ↦ false | some r ↦ r == ref ])
    || has_reference branch_id ref es

-- The unique partial index on (branchId, xenditReference).
abbrev pub is_duplicate : WalletLedgerEntry → List WalletLedgerEntry → Bool
is_duplicate e es = elim e.xendit_reference [
  | none ↦ false
  | some r ↦ has_reference e.branch_id r es
]

abbrev pub create_entry : WalletLedgerEntry → Action (Unit {0})
create_entry e db =
    if is_duplicate e db.ledger
    then (err duplicate_key, db)
    else (ok tt, record db { ledger = db.ledger ++ e ∷ [] })

abbrev pub find_intent : ℕ → Action (Option TopUpIntent)
find_intent id db = (ok (find id db.intents), db)

abbrev pub update_intent : ℕ → (TopUpIntent → TopUpIntent) → Action (Option TopUpIntent)
update_intent id f db =
    (ok (mapped f (find id db.intents)), record db { intents = update id f db.intents })

abbrev pub is_pending : TopUpIntentStatus → Bool
is_pending pending = true
is_pending _ = false

-- The same on `{ _id, status: PENDING }`: an intent in another status is not matched.
abbrev pub update_pending : ℕ → (TopUpIntent → TopUpIntent) → Action (Option TopUpIntent)
update_pending id f db = elim (find id db.intents) [
  | none ↦ (ok none, db)
  | some i ↦
      if is_pending i.status
      then (ok (some (f i)), record db { intents = update id f db.intents })
      else (ok none, db)
]
