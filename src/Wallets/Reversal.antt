-- ===== src/Wallets/Reversal.antt =====
-- An order's fee taken and given back (`consumeFee` and `reverseFee` of
-- src/wallets/wallets.service.ts).
use lalaba_backend_showcase.Base.{ℕ, ◌≡◌, refl, ◌∙◌, ap, false, none, some, List, [], ◌∷◌, ◌++◌}
use lalaba_backend_showcase.Base.Int.{ℤ, pos, ◌+ℤ◌, ◌-ℤ◌, int_laws, ltb_ℤ, leb_ℤ}
use lalaba_backend_showcase.Base.Keyed.{find, update, update-update, update-same, find-update_self}
use lalaba_backend_showcase.Wallets.State.{
  Wallet, WalletLedgerEntry, fee_consumption, fee_reversal, Db, ok, ◌>>◌, >>=-ok,
}
use lalaba_backend_showcase.Wallets.Fees.{is_blocked, consume_fee, credit_fee, reverse_fee}
use lalaba_backend_showcase.Wallets.Credit.{changed}

abbrev pub fee_taken : ℕ → ℤ → ℕ → Wallet → WalletLedgerEntry
fee_taken b amount order w = record {
  branch_id = b;
  type = fee_consumption;
  amount_centavos = pos 0 -ℤ amount;
  balance_after_centavos = w.balance_centavos +ℤ (pos 0 -ℤ amount);
  order_id = some order;
  xendit_reference = none;
}

abbrev pub fee_returned : ℕ → ℤ → ℕ → Wallet → WalletLedgerEntry
fee_returned b amount order w = record {
  branch_id = b;
  type = fee_reversal;
  amount_centavos = amount;
  balance_after_centavos = w.balance_centavos;
  order_id = some order;
  xendit_reference = none;
}

abbrev pub fee_db : ℕ → ℤ → ℕ → Db → Wallet → Db
fee_db b amount order db w = record db {
  wallets = update b (changed (pos 0 -ℤ amount)) db.wallets;
  ledger = db.ledger ++ fee_taken b amount order w ∷ [];
}

consume_fee-found :
    (b : ℕ) (amount : ℤ) (order : ℕ) (db : Db) (w : Wallet)
    → find b db.wallets ≡ some w
    → consume_fee b amount order db ≡ (ok tt, fee_db b amount order db w)
unfolding consume_fee
consume_fee-found b amount order db w e = rw e refl

credit_fee-found :
    (b : ℕ) (amount : ℤ) (order : ℕ) (db : Db) (w : Wallet)
    → find b db.wallets ≡ some w
    → credit_fee b amount order db ≡ (
      ok tt,
      record db {
        wallets = update b (changed amount) db.wallets;
        ledger =
            db.ledger
            ++ (record (fee_returned b amount order w) {
              balance_after_centavos = w.balance_centavos +ℤ amount;
            })
              ∷ [];
      },
    )
unfolding credit_fee
credit_fee-found b amount order db w e = rw e refl

back : (x a : ℤ) → (x +ℤ (pos 0 -ℤ a)) +ℤ a ≡ x
back x a = grind int_laws

append_two : {A : Type 0} (xs : List A) (a c : A) → (xs ++ a ∷ []) ++ c ∷ [] ≡ xs ++ a ∷ c ∷ []
append_two [] a c = refl
append_two (x ∷ xs) a c = ap (◌∷◌ x) (append_two xs a c)

-- A positive fee that is taken from a wallet and reversed leaves every wallet and intent as it was;
-- the ledger keeps two new rows for the order, whose amounts cancel.
pub reversed_fee_is_given_back :
    (b : ℕ) (amount : ℤ) (order : ℕ) (db : Db) (w : Wallet)
    → find b db.wallets ≡ some w
    → leb_ℤ amount (pos 0) ≡ false
    → (consume_fee b amount order >> reverse_fee b amount order) db ≡ (
      ok tt,
      record db {
        ledger = db.ledger ++ fee_taken b amount order w ∷ fee_returned b amount order w ∷ [];
      },
    )
unfolding reverse_fee
reversed_fee_is_given_back b amount order db w e positive =
    let fee = pos 0 -ℤ amount in
    >>=-ok (consume_fee b amount order) (λ _. reverse_fee b amount order) db
      (consume_fee-found b amount order db w e)
    ∙ rw positive (
        credit_fee-found b amount order (fee_db b amount order db w) (changed fee w)
          (find-update_self b (changed fee) w db.wallets e)
        ∙ rw
            (
              back w.balance_centavos amount,
              update-update b (changed fee) (changed amount) db.wallets,
              update-same b (λ v. changed amount (changed fee v)) w db.wallets e
                  (rw (back w.balance_centavos amount) refl),
              append_two db.ledger (fee_taken b amount order w) (fee_returned b amount order w),
            )
            refl)

below : (x a : ℤ) → ltb_ℤ (x +ℤ (pos 0 -ℤ a)) (pos 0) ≡ ltb_ℤ x a
below x a = grind int_laws

-- A fee is always taken from a wallet that exists, and the branch is blocked afterwards exactly when
-- its balance did not cover the fee.
uncovered_fee_blocks :
    (b : ℕ) (amount : ℤ) (order : ℕ) (db : Db) (w : Wallet)
    → find b db.wallets ≡ some w
    → (consume_fee b amount order >> is_blocked b) db
      ≡ (ok (ltb_ℤ w.balance_centavos amount), fee_db b amount order db w)
unfolding is_blocked
uncovered_fee_blocks b amount order db w e =
    >>=-ok (consume_fee b amount order) (λ _. is_blocked b) db
      (consume_fee-found b amount order db w e)
    ∙ rw
        (
          find-update_self b (changed (pos 0 -ℤ amount)) w db.wallets e,
          below w.balance_centavos amount,
        )
        refl
