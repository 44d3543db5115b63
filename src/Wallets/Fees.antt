-- ===== src/Wallets/Fees.antt =====
-- Fee consumption and reversal, the admin's correction and the balance checks
-- (src/wallets/wallets.service.ts, src/wallets/wallet-acceptance-guard.service.ts).
use lalaba_backend_showcase.Base.{ℕ, Bool, true, false, Option, none, some, if◌then◌else◌}
use lalaba_backend_showcase.Base.Int.{ℤ, pos, ◌+ℤ◌, ◌-ℤ◌, ltb_ℤ, leb_ℤ, eqb_ℤ}
use lalaba_backend_showcase.Wallets.State.{
  Wallet, fee_consumption, fee_reversal, admin_adjustment, not_found, bad_request, Action, pure,
  throw, or_throw, throw_if, with_transaction, ◌>>=◌, ◌>>◌,
}
use lalaba_backend_showcase.Wallets.Store.{find_wallet, inc_balance, create_entry}

-- A number as a client sends it: a whole number, or one that `Number.isInteger` refuses.
pub data Number : Type 0 where
  whole : ℤ → Number
  not_integer : Number

unfoldable pub has_sufficient_balance : ℕ → ℤ → Action Bool
has_sufficient_balance branch_id estimated_fee = do
  wallet ← find_wallet branch_id
  pure (elim wallet [ none ↦ false | some w ↦ leb_ℤ estimated_fee w.balance_centavos ])

abbrev pub balance_or_zero : Option Wallet → ℤ
balance_or_zero none = pos 0
balance_or_zero (some w) = w.balance_centavos

unfoldable pub is_blocked : ℕ → Action Bool
is_blocked branch_id = do
  wallet ← find_wallet branch_id
  pure (ltb_ℤ (balance_or_zero wallet) (pos 0))

unfoldable pub consume_fee : ℕ → ℤ → ℕ → Action (Unit {0})
consume_fee branch_id amount order = do
  found ← inc_balance branch_id (pos 0 -ℤ amount)
  updated ← or_throw found not_found
  create_entry (record {
    branch_id = branch_id;
    type = fee_consumption;
    amount_centavos = pos 0 -ℤ amount;
    balance_after_centavos = updated.balance_centavos;
    order_id = some order;
    xendit_reference = none;
  })

unfoldable pub credit_fee : ℕ → ℤ → ℕ → Action (Unit {0})
credit_fee branch_id amount order = do
  found ← inc_balance branch_id amount
  updated ← or_throw found not_found
  create_entry (record {
    branch_id = branch_id;
    type = fee_reversal;
    amount_centavos = amount;
    balance_after_centavos = updated.balance_centavos;
    order_id = some order;
    xendit_reference = none;
  })

unfoldable pub reverse_fee : ℕ → ℤ → ℕ → Action (Unit {0})
unfolding credit_fee
reverse_fee branch_id amount order =
    if leb_ℤ amount (pos 0) then pure tt else credit_fee branch_id amount order

unfoldable pub adjust : ℕ → ℤ → Action Wallet
adjust branch_id delta = do
  existing ← find_wallet branch_id
  wallet ← or_throw existing not_found
  throw_if (ltb_ℤ (wallet.balance_centavos +ℤ delta) (pos 0)) bad_request
  found ← inc_balance branch_id delta
  updated ← or_throw found not_found
  create_entry (record {
    branch_id = branch_id;
    type = admin_adjustment;
    amount_centavos = delta;
    balance_after_centavos = updated.balance_centavos;
    order_id = none;
    xendit_reference = none;
  })
  pure updated

unfoldable pub admin_adjust_balance : ℕ → Number → Action Wallet
unfolding adjust
admin_adjust_balance branch_id not_integer = throw bad_request
admin_adjust_balance branch_id (whole delta) =
    if eqb_ℤ delta (pos 0) then throw bad_request else with_transaction (adjust branch_id delta)

unfoldable pub assert_can_accept_order : ℕ → ℤ → Action (Unit {0})
assert_can_accept_order branch_id estimated_fee = do
  wallet ← find_wallet branch_id
  throw_if (ltb_ℤ (balance_or_zero wallet) (pos 0)) bad_request
  throw_if (elim wallet [ none ↦ true | some w ↦ ltb_ℤ w.balance_centavos estimated_fee ])
      bad_request
