-- ===== src/Wallets/Report.antt =====
-- The reconciliation report (src/wallets/wallets.service.ts).
use lalaba_backend_showcase.Base.{
  ℕ, ◌+◌, ◌≡◌, ◌↔◌, refl, true, not, Option, none, some, List, [], ◌∷◌, length, ◌==◌, if◌then◌else◌,
  arith,
}
use lalaba_backend_showcase.Base.Int.{ℤ, -ℤ_parts, eq_of_parts, pos, ◌+ℤ◌, ◌-ℤ◌, eqb_ℤ}
use lalaba_backend_showcase.Base.Keyed.{Keyed, find, IsUnique}
use lalaba_backend_showcase.Wallets.State.{Wallet, WalletLedgerEntry, Db}
use lalaba_backend_showcase.Wallets.Balance.{ledger_sum}

pub record WalletReconciliationRow : Type 0 where
  pub branch_id : ℕ
  pub wallet_balance_centavos : ℤ
  pub ledger_balance_centavos : ℤ
  pub variance_centavos : ℤ
  pub ledger_entry_count : ℕ

pub record WalletReconciliationReport : Type 0 where
  pub generated_at : ℕ
  pub wallets_checked : ℕ
  pub wallets_with_variance : ℕ
  pub variances : List WalletReconciliationRow

-- The group of a branch in the aggregation: its total and count, or `none` where it has no row.
abbrev pub Group : Type 0
Group = ℤ × ℕ

abbrev total_or_zero : Option Group → ℤ
total_or_zero none = pos 0
total_or_zero (some g) = g.0

abbrev count_or_zero : Option Group → ℕ
count_or_zero none = 0
count_or_zero (some g) = g.1

ledger_sums : ℕ → List WalletLedgerEntry → Option Group
ledger_sums b [] = none
ledger_sums b (e ∷ es) =
    let rest = ledger_sums b es in
    if e.branch_id == b
    then some (e.amount_centavos +ℤ total_or_zero rest, 1 + count_or_zero rest)
    else rest

abbrev row_of : ℕ → Wallet → Option Group → WalletReconciliationRow
row_of b w sum = record {
  branch_id = b;
  wallet_balance_centavos = w.balance_centavos;
  ledger_balance_centavos = total_or_zero sum;
  variance_centavos = w.balance_centavos -ℤ total_or_zero sum;
  ledger_entry_count = count_or_zero sum;
}

variances_of : Keyed Wallet → List WalletLedgerEntry → List WalletReconciliationRow
unfolding ledger_sums
variances_of [] es = []
variances_of ((b, w) ∷ ws) es =
    if not (eqb_ℤ (w.balance_centavos -ℤ total_or_zero (ledger_sums b es)) (pos 0))
    then row_of b w (ledger_sums b es) ∷ variances_of ws es
    else variances_of ws es

unfoldable pub reconciliation_report : ℕ → Db → WalletReconciliationReport
unfolding variances_of
reconciliation_report now db = record {
  generated_at = now;
  wallets_checked = length db.wallets;
  wallets_with_variance = length (variances_of db.wallets db.ledger);
  variances = variances_of db.wallets db.ledger;
}

ledger_sums-total :
    (b : ℕ) (es : List WalletLedgerEntry) → total_or_zero (ledger_sums b es) ≡ ledger_sum b es
unfolding ledger_sums
ledger_sums-total b [] = refl
ledger_sums-total b (e ∷ es) = ground (arith, ledger_sums-total b es)

is_zero-sub :
    (a b : ℤ) → (eqb_ℤ (a -ℤ b) (pos 0) ≡ true → a ≡ b) × (a ≡ b → eqb_ℤ (a -ℤ b) (pos 0) ≡ true)
is_zero-sub a b = ground (arith, -ℤ_parts a b, eq_of_parts a b)

-- Every wallet of the list has the balance that its ledger gives.
abbrev Agrees : Keyed Wallet → List WalletLedgerEntry → Type 0
Agrees [] es = Unit
Agrees ((b, w) ∷ ws) es = (w.balance_centavos ≡ ledger_sum b es) × Agrees ws es

variances-empty :
    (ws : Keyed Wallet) (es : List WalletLedgerEntry)
    → (Agrees ws es → length (variances_of ws es) ≡ 0)
      × (length (variances_of ws es) ≡ 0 → Agrees ws es)
unfolding variances_of
variances-empty [] es = ((λ a. refl), λ e. tt)
variances-empty ((b, w) ∷ ws) es =
    let zero? = is_zero-sub w.balance_centavos (ledger_sum b es) in
    let rest = variances-empty ws es in rw (ledger_sums-total b es) (ground (arith, zero?, rest))

find-Agrees :
    (ws : Keyed Wallet) (es : List WalletLedgerEntry)
    → Agrees ws es
    → (b : ℕ) (w : Wallet) → find b ws ≡ some w
    → w.balance_centavos ≡ ledger_sum b es
find-Agrees [] es a b w e = cc
find-Agrees (x ∷ ws) es a b w e = grind (arith, find-Agrees ws es a.1 b w)

Agrees-find :
    (ws : Keyed Wallet) (es : List WalletLedgerEntry)
    → IsUnique ws
    → ((b : ℕ) (w : Wallet) → find b ws ≡ some w → w.balance_centavos ≡ ledger_sum b es)
    → Agrees ws es
Agrees-find [] es u h = tt
Agrees-find ((b, w) ∷ ws) es u h =
    (h b w (ground arith), Agrees-find ws es u.1 (λ j v e. h j v (ground (arith, u.0))))

-- Where each branch has one wallet, the report finds no variance exactly when every wallet's
-- balance is the sum of its ledger.
pub reconciliation_report_iff :
    (now : ℕ) (db : Db)
    → IsUnique db.wallets
    → ((reconciliation_report now db).wallets_with_variance ≡ 0) ↔ (
        (b : ℕ) (w : Wallet)
        → find b db.wallets ≡ some w
        → w.balance_centavos ≡ ledger_sum b db.ledger)
unfolding reconciliation_report
reconciliation_report_iff now db u = (
  λ e. find-Agrees db.wallets db.ledger ((variances-empty db.wallets db.ledger).1 e),
  λ h. (variances-empty db.wallets db.ledger).0 (Agrees-find db.wallets db.ledger u h),
)
