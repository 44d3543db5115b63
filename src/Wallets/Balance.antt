-- ===== src/Wallets/Balance.antt =====
-- The balance of a wallet against the sum of its ledger, and how the queries change both.
use lalaba_backend_showcase.Base.{
  ℕ, ◌≡◌, refl, some, List, [], ◌∷◌, ◌++◌, ◌==◌, if◌then◌else◌, arith, Bool-cases, inl, inr,
}
use lalaba_backend_showcase.Base.Int.{ℤ, pos, ◌+ℤ◌, int_laws}
use lalaba_backend_showcase.Base.Keyed.{Keyed, find, update, find-update_self, find-update_ne}
use lalaba_backend_showcase.Wallets.State.{Wallet, WalletLedgerEntry, Db}
use lalaba_backend_showcase.Wallets.Fees.{balance_or_zero}

abbrev pub balance_of : ℕ → Keyed Wallet → ℤ
balance_of b ws = balance_or_zero (find b ws)

-- The total of the ledger rows of a branch.
abbrev pub ledger_sum : ℕ → List WalletLedgerEntry → ℤ
ledger_sum b [] = pos 0
ledger_sum b (e ∷ es) =
    if e.branch_id == b then e.amount_centavos +ℤ ledger_sum b es else ledger_sum b es

-- Every balance is the sum of its ledger; a branch with no wallet counts as zero.
abbrev pub Balanced : Db → Type 0
Balanced db = (b : ℕ) → balance_of b db.wallets ≡ ledger_sum b db.ledger

-- The balance of `b` has moved by `delta`, and no other balance has.
abbrev pub Moved : ℕ → ℤ → Keyed Wallet → Keyed Wallet → Type 0
Moved b delta ws ws' =
    (j : ℕ) → balance_of j ws' ≡ (if b == j then balance_of j ws +ℤ delta else balance_of j ws)

pub ledger_sum-append :
    (b : ℕ) (e : WalletLedgerEntry) (es : List WalletLedgerEntry)
    → ledger_sum b (es ++ e ∷ [])
      ≡ (if e.branch_id == b then ledger_sum b es +ℤ e.amount_centavos else ledger_sum b es)
ledger_sum-append b e [] = grind int_laws
ledger_sum-append b e (x ∷ es) = grind (int_laws, ledger_sum-append b e es)

-- A balance that moves by the amount of the row which is appended for it stays the ledger's sum.
pub append-Balanced :
    (db : Db) (ws : Keyed Wallet) (e : WalletLedgerEntry)
    → Balanced db
    → Moved e.branch_id e.amount_centavos db.wallets ws
    → Balanced (record db { wallets = ws; ledger = db.ledger ++ e ∷ [] })
append-Balanced db ws e h moved b = rw (moved b, ledger_sum-append b e db.ledger, h b) refl

pub update-Moved :
    (b : ℕ) (delta : ℤ) (f : Wallet → Wallet) (w : Wallet) (ws : Keyed Wallet)
    → find b ws ≡ some w
    → (f w).balance_centavos ≡ w.balance_centavos +ℤ delta
    → Moved b delta ws (update b f ws)
update-Moved b delta f w ws h e j = elim (Bool-cases (b == j)) [
  | inl same ↦ ground (arith, find-update_self b f w ws h)
  | inr other ↦ ground (arith, find-update_ne j b f ws)
]

-- Further updates that leave the balance alone.
pub update-same-Moved :
    (b c : ℕ) (delta : ℤ) (f : Wallet → Wallet) (w : Wallet) (us ws : Keyed Wallet)
    → find c ws ≡ some w
    → (f w).balance_centavos ≡ w.balance_centavos
    → Moved b delta us ws
    → Moved b delta us (update c f ws)
update-same-Moved b c delta f w us ws h e moved j = elim (Bool-cases (c == j)) [
  | inl same ↦ ground (arith, find-update_self c f w ws h, moved j)
  | inr other ↦ ground (arith, find-update_ne j c f ws, moved j)
]
