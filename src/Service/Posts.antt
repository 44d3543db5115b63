-- ===== src/Service/Posts.antt =====
-- What a posting adds to the ledger of a wallet (src/wallets/wallets.service.ts).
use lalaba_backend_showcase.Base.{ℕ, ◌≡◌, refl, false, some, [], ◌∷◌, ◌++◌, inl, inr, Option-cases}
use lalaba_backend_showcase.Base.Int.{ℤ, pos, ◌-ℤ◌, leb_ℤ}
use lalaba_backend_showcase.Base.Keyed.{find}
use lalaba_backend_showcase.Wallets.State.{WalletLedgerEntry, Db, Result, ok, err}
use lalaba_backend_showcase.Wallets.Fees.{consume_fee, reverse_fee, credit_fee}

-- Where it returns, the call added one row of that amount for the order.
abbrev pub Posts : ℕ → ℤ → Db → Result (Unit {0}) × Db → Type 0
Posts id x db (ok u, db') =
    (e : WalletLedgerEntry) × (e.order_id ≡ some id)
    × (e.amount_centavos ≡ x)
    × (db'.ledger ≡ db.ledger ++ e ∷ [])
Posts id x db (err f, db') = Unit

pub consume_fee-Posts :
    (b : ℕ) (amount : ℤ) (id : ℕ) (db : Db)
    → Posts id (pos 0 -ℤ amount) db (consume_fee b amount id db)
unfolding consume_fee
consume_fee-Posts b amount id db = elim (Option-cases (find b db.wallets)) [
  | inl e ↦ rw e tt
  | inr (w, e) ↦ rw e (_, refl, refl, refl)
]

pub reverse_fee-Posts :
    (b : ℕ) (amount : ℤ) (id : ℕ) (db : Db)
    → leb_ℤ amount (pos 0) ≡ false
    → Posts id amount db (reverse_fee b amount id db)
unfolding reverse_fee credit_fee
reverse_fee-Posts b amount id db positive = elim (Option-cases (find b db.wallets)) [
  | inl e ↦ rw (positive, e) tt
  | inr (w, e) ↦ rw (positive, e) (_, refl, refl, refl)
]
