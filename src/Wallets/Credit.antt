-- ===== src/Wallets/Credit.antt =====
-- What the crediting transaction of `postVerifiedTopUp` writes, in one equation: the new wallet,
-- the ledger row, and the two ways in which it can fail.
use lalaba_backend_showcase.Base.{
  ℕ, ◌≡◌, sym, ◌∙◌, ap, not, ◌&&◌, none, some, [], ◌∷◌, ◌++◌, if◌then◌else◌, is_some, arith,
  Bool-cases, inl, inr,
}
use lalaba_backend_showcase.Base.Int.{pos, ltb_ℤ, ℤ, ◌+ℤ◌, leb_ℤ}
use lalaba_backend_showcase.Base.Keyed.{
  find, update, find-update_self, update-absent, update-update, update_congr, update-same,
}
use lalaba_backend_showcase.Wallets.State.{
  bad_request, admin_adjustment, >>=-ok, Wallet, WalletLedgerEntry, top_up, TopUpIntent, Db,
  not_found, ok, err,
}
use lalaba_backend_showcase.Wallets.Store.{create_entry}
use lalaba_backend_showcase.Wallets.Fees.{adjust}
use lalaba_backend_showcase.Wallets.TopUps.{activation_min_centavos, credit_wallet, activate}

-- The first time the balance is at the minimum the wallet is activated.
unfoldable pub stamped : ℕ → Wallet → Wallet
stamped now w =
    if not (is_some w.activated_at) && leb_ℤ activation_min_centavos w.balance_centavos
    then record w { activated_at = some now }
    else w

pub stamped-balance : (now : ℕ) (w : Wallet) → (stamped now w).balance_centavos ≡ w.balance_centavos
unfolding stamped
stamped-balance now w = ground arith

abbrev pub increased : TopUpIntent → Wallet → Wallet
increased i w = record w { balance_centavos = w.balance_centavos +ℤ i.amount_centavos }

abbrev pub credited : TopUpIntent → ℕ → Wallet → Wallet
credited i now w = stamped now (increased i w)

-- The database with the balance credited, and with the ledger row too.
abbrev pub credited_db : TopUpIntent → ℕ → Db → Db
credited_db i now db = record db { wallets = update i.branch_id (credited i now) db.wallets }

abbrev pub credit_entry : ℕ → TopUpIntent → Wallet → WalletLedgerEntry
credit_entry id i w = record {
  branch_id = i.branch_id;
  type = top_up;
  amount_centavos = i.amount_centavos;
  balance_after_centavos = w.balance_centavos +ℤ i.amount_centavos;
  order_id = none;
  xendit_reference = some id;
}

abbrev pub posted_db : ℕ → TopUpIntent → ℕ → Db → Wallet → Db
posted_db id i now db w = record (credited_db i now db) {
  ledger = db.ledger ++ credit_entry id i w ∷ [];
}

pub credit_wallet-missing :
    (id : ℕ) (i : TopUpIntent) (now : ℕ) (db : Db)
    → find i.branch_id db.wallets ≡ none
    → credit_wallet id i now db ≡ (err not_found, db)
unfolding credit_wallet
credit_wallet-missing id i now db e = rw (e, update-absent i.branch_id _ db.wallets e)

activate-found :
    (b now : ℕ) (w : Wallet) (db : Db)
    → find b db.wallets ≡ some w
    → activate b now w db
      ≡ (ok (stamped now w), record db { wallets = update b (stamped now) db.wallets })
unfolding activate stamped
activate-found b now w db e =
    elim (Bool-cases
      (not (is_some w.activated_at) && leb_ℤ activation_min_centavos w.balance_centavos)) [
        | inl act ↦
            rw (act, e)
              (ap (λ ws. (ok (record w { activated_at = some now }), record db { wallets = ws }))
                (update_congr b _ (stamped now) w db.wallets e (rw act)))
        | inr calm ↦ rw calm (
            ap (λ ws. (ok w, record db { wallets = ws }))
              (sym (update-same b (stamped now) w db.wallets e (rw calm))))
      ]

pub credit_wallet-found :
    (id : ℕ) (i : TopUpIntent) (now : ℕ) (db : Db) (w : Wallet)
    → find i.branch_id db.wallets ≡ some w
    → credit_wallet id i now db ≡ create_entry (credit_entry id i w) (credited_db i now db)
unfolding credit_wallet
credit_wallet-found id i now db w e =
    let b = i.branch_id in
    let db' : Db = record db { wallets = update b (increased i) db.wallets } in
    let act =
      activate-found b now (increased i w) db' (find-update_self b (increased i) w db.wallets e) in
    let credit = λ (w' : Wallet). create_entry (record {
      branch_id = b;
      type = top_up;
      amount_centavos = i.amount_centavos;
      balance_after_centavos = w'.balance_centavos;
      order_id = none;
      xendit_reference = some id;
    }) in
    rw e (
      >>=-ok (activate b now (increased i w)) credit db' act
      ∙ rw (
        stamped-balance now (increased i w),
        update-update b (increased i) (stamped now) db.wallets,
      ))

abbrev pub changed : ℤ → Wallet → Wallet
changed delta w = record w { balance_centavos = w.balance_centavos +ℤ delta }

abbrev pub adjust_entry : ℕ → ℤ → Wallet → WalletLedgerEntry
adjust_entry b delta w = record {
  branch_id = b;
  type = admin_adjustment;
  amount_centavos = delta;
  balance_after_centavos = w.balance_centavos +ℤ delta;
  order_id = none;
  xendit_reference = none;
}

abbrev pub adjusted : ℕ → ℤ → Db → Wallet → Db
adjusted b delta db w = record db {
  wallets = update b (changed delta) db.wallets;
  ledger = db.ledger ++ adjust_entry b delta w ∷ [];
}

pub adjust-missing :
    (b : ℕ) (delta : ℤ) (db : Db)
    → find b db.wallets ≡ none
    → adjust b delta db ≡ (err not_found, db)
unfolding adjust
adjust-missing b delta db e = rw e

-- With the balance known, the adjustment is refused or posted.
pub adjust-found :
    (b : ℕ) (delta : ℤ) (db : Db) (w : Wallet)
    → find b db.wallets ≡ some w
    → adjust b delta db ≡ (
        if ltb_ℤ (w.balance_centavos +ℤ delta) (pos 0)
        then (err bad_request, db)
        else (ok (changed delta w), adjusted b delta db w))
unfolding adjust
adjust-found b delta db w e = elim (Bool-cases (ltb_ℤ (w.balance_centavos +ℤ delta) (pos 0))) [
  | inl low ↦ rw (e, low)
  | inr fits ↦ rw (e, fits) (ground arith)
]
