-- ===== src/Wallets/State.antt =====
-- The documents of src/wallets/schemas, the database that holds them, and the shape of a service
-- method: it reads and writes the database, and returns or throws.
use Prim.Native.String.{String}
use lalaba_backend_showcase.Base.{◌≡◌, ap, ℕ, Bool, Option, none, some, List, if◌then◌else◌}
use lalaba_backend_showcase.Base.Int.{ℤ}
use lalaba_backend_showcase.Base.Keyed.{Keyed}

-- `Wallet`, under its unique `branchId`. Times are instants in milliseconds.
pub record Wallet : Type 0 where
  pub balance_centavos : ℤ
  pub activated_at : Option ℕ

pub data WalletLedgerEntryType : Type 0 where
  top_up fee_consumption fee_reversal admin_adjustment : WalletLedgerEntryType

pub record WalletLedgerEntry : Type 0 where
  pub branch_id : ℕ
  pub type : WalletLedgerEntryType
  pub amount_centavos : ℤ
  pub balance_after_centavos : ℤ
  pub order_id : Option ℕ
  pub xendit_reference : Option ℕ

pub data TopUpIntentStatus : Type 0 where
  pending succeeded failed expired : TopUpIntentStatus

-- `TopUpIntent`, under its `_id`.
pub record TopUpIntent : Type 0 where
  pub branch_id : ℕ
  pub amount_centavos : ℤ
  pub status : TopUpIntentStatus
  pub xendit_invoice_id : Option String
  pub invoice_url : Option String
  pub resolved_at : Option ℕ

-- The fields of `Branch` that are read here. `isActive` may be missing.
pub record Branch : Type 0 where
  pub uid : ℕ
  pub is_active : Option Bool

pub record Db : Type 0 where
  pub wallets : Keyed Wallet
  pub ledger : List WalletLedgerEntry
  pub intents : Keyed TopUpIntent

pub data Failure : Type 0 where
  not_found forbidden bad_request unauthorized duplicate_key gateway_failed : Failure
  -- a field is read of a null
  type_error : Failure

pub data Result (A : Type 0) : Type 0 where
  ok : A → Result A
  err : Failure → Result A

abbrev pub Action : Type 0 → Type 0
Action A = Db → Result A × Db

module _ {A : Type 0} where
  abbrev pub pure : A → Action A
  pure a db = (ok a, db)

  abbrev pub throw : Failure → Action A
  throw e db = (err e, db)

  abbrev pub or_throw : Option A → Failure → Action A
  or_throw none e db = (err e, db)
  or_throw (some a) e db = (ok a, db)

infixl 5 ◌>>=◌ ◌>>◌
abbrev pub ◌>>=◌ : {A B : Type 0} → Action A → (A → Action B) → Action B
◌>>=◌ m f db = let (r, db') = m db in elim r [ ok a ↦ f a db' | err e ↦ (err e, db') ]

-- A sequence whose first part returns, or throws.
pub >>=-ok :
    {A B : Type 0} (m : Action A) (f : A → Action B) (db : Db) {a : A} {db' : Db}
    → m db ≡ (ok a, db')
    → (m >>= f) db ≡ f a db'
>>=-ok {A} m f db h =
    ap (λ (r : Result A × Db). elim r.0 [ ok a ↦ f a r.1 | err e ↦ (err e, r.1) ]) h

pub >>=-err :
    {A B : Type 0} (m : Action A) (f : A → Action B) (db : Db) {e : Failure} {db' : Db}
    → m db ≡ (err e, db')
    → (m >>= f) db ≡ (err e, db')
>>=-err {A} m f db h =
    ap (λ (r : Result A × Db). elim r.0 [ ok a ↦ f a r.1 | err e ↦ (err e, r.1) ]) h

abbrev pub ◌>>◌ : {A B : Type 0} → Action A → Action B → Action B
m >> k = m >>= λ _. k

abbrev pub throw_if : Bool → Failure → Action (Unit {0})
throw_if b e db = (if b then err e else ok tt, db)

-- `session.withTransaction`: what the body wrote is dropped when it throws.
abbrev pub with_transaction : {A : Type 0} → Action A → Action A
with_transaction m db = let (r, db') = m db in elim r [ ok a ↦ (ok a, db') | err e ↦ (err e, db) ]
