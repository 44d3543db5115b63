-- ===== src/Wallets/Guards.antt =====
-- The balance checks and the corrections (src/wallets/wallets.service.ts,
-- src/wallets/wallet-acceptance-guard.service.ts): when an order may be accepted, and what a correction
-- does.

use lalaba_backend_showcase.Base.{
  ℕ, ◌≡◌, refl, ◌∙◌, ap, ◌↔◌, Bool, true, false, ◌||◌, some, if◌then◌else◌, arith, Bool-cases,
  Option-cases, inl, inr,
}
use lalaba_backend_showcase.Base.Int.{ℤ, pos, ◌+ℤ◌, ltb_ℤ, eqb_ℤ}
use lalaba_backend_showcase.Base.Keyed.{find}
use lalaba_backend_showcase.Wallets.State.{
  Wallet, Db, Result, ok, err, with_transaction, bad_request,
}
use lalaba_backend_showcase.Wallets.Fees.{
  whole, has_sufficient_balance, is_blocked, admin_adjust_balance, assert_can_accept_order,
}
use lalaba_backend_showcase.Wallets.Credit.{changed, adjusted, adjust-found}

-- The guard passes an order exactly when the branch has a wallet whose balance is neither negative
-- nor below the estimated fee, and it writes nothing; the two queries then answer the same.
acceptance_guard_iff :
    (b : ℕ) (fee : ℤ) (db : Db)
    → (((assert_can_accept_order b fee db).0 ≡ ok tt)
        ↔ ((has_sufficient_balance b fee db).0 ≡ ok true) × ((is_blocked b db).0 ≡ ok false))
      × ((assert_can_accept_order b fee db).1 ≡ db)
unfolding assert_can_accept_order has_sufficient_balance is_blocked
acceptance_guard_iff b fee db = elim (Option-cases (find b db.wallets)) [
  | inl e ↦ rw e (ground arith)
  | inr (w, e) ↦ rw e (ground arith)
]

transacted :
    (b : ℕ) (delta : ℤ) (db : Db) (w : Wallet) (low : Bool)
    → with_transaction {A = Wallet}
        (λ _. if low then (err bad_request, db) else (ok (changed delta w), adjusted b delta db w))
        db
      ≡ (if low then (err bad_request, db) else (ok (changed delta w), adjusted b delta db w))
transacted b delta db w true = refl
transacted b delta db w false = refl

-- A correction of a wallet either returns it with its new balance, which is not negative, and has
-- written that balance and one ledger row; or it is refused and has written nothing. It is refused
-- exactly when the difference is zero or would make the balance negative.
admin_adjust_balance_effect :
    (b : ℕ) (delta : ℤ) (db : Db) (w : Wallet)
    → find b db.wallets ≡ some w
    → admin_adjust_balance b (whole delta) db ≡ (
        if eqb_ℤ delta (pos 0) || ltb_ℤ (w.balance_centavos +ℤ delta) (pos 0)
        then (err bad_request, db)
        else (ok (changed delta w), adjusted b delta db w))
unfolding admin_adjust_balance
admin_adjust_balance_effect b delta db w e = elim (Bool-cases (eqb_ℤ delta (pos 0))) [
  | inl zero ↦ rw zero refl
  | inr moves ↦ rw moves (
      ap (λ (r : Result Wallet × Db). with_transaction (λ _. r) db) (adjust-found b delta db w e)
      ∙ transacted b delta db w (ltb_ℤ (w.balance_centavos +ℤ delta) (pos 0)))
]
