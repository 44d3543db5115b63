-- ===== src/Wallets/TopUps.antt =====
-- The top-up lifecycle (src/wallets/wallets.service.ts, src/wallets/wallet.constants.ts): creating
-- a wallet, opening an intent with its gateway invoice, and the one path that credits it.
use Prim.Native.String.{String}
use text.Mathlib.Text.{◌==◌ as str_eq}
use lalaba_backend_showcase.Base.{
  ◌&&◌, ℕ, Bool, true, false, not, ◌||◌, ◌==◌, Option, none, some, if◌then◌else◌, is_some,
}
use lalaba_backend_showcase.Base.Int.{ℤ, pos, ltb_ℤ, leb_ℤ, eqb_ℤ}
use lalaba_backend_showcase.Base.Keyed.{find, insert}
use lalaba_backend_showcase.Wallets.State.{
  Wallet, top_up, TopUpIntent, TopUpIntentStatus, pending, succeeded, failed, expired, Branch, Db,
  Result, ok, err, not_found, forbidden, bad_request, duplicate_key, gateway_failed, type_error,
  Action, pure, throw, or_throw, throw_if, with_transaction, ◌>>=◌, ◌>>◌,
}
use lalaba_backend_showcase.Wallets.Store.{
  find_wallet, update_wallet, inc_balance, create_entry, find_intent, update_intent, update_pending,
}
use lalaba_backend_showcase.Wallets.Fees.{Number, whole, not_integer}

abbrev pub activation_min_centavos : ℤ
activation_min_centavos = pos 100_000

abbrev pub max_topup_centavos : ℤ
max_topup_centavos = pos 1_000_000_000

-- A gateway-verified payment event.
pub record VerifiedTopUpEvent : Type 0 where
  pub reference : ℕ
  pub amount_centavos : ℤ
  pub currency : String
  pub gateway_invoice_id : Option String

-- `intent` is read again at the end, so it may be null.
pub record PostTopUpResult : Type 0 where
  pub already_posted : Bool
  pub intent : Option TopUpIntent

-- The idempotent upsert on `branchId`.
unfoldable pub create_wallet : ℕ → Action Wallet
create_wallet branch_id db = elim (find branch_id db.wallets) [
  | some w ↦ (ok w, db)
  | none ↦
      let w : Wallet = record { balance_centavos = pos 0; activated_at = none } in
      (ok w, record db { wallets = insert branch_id w db.wallets })
]

unfoldable pub get_wallet : ℕ → Action Wallet
get_wallet branch_id = do found ← find_wallet branch_id; or_throw found not_found

-- The write that claims an intent for a settlement.
abbrev pub claim : VerifiedTopUpEvent → ℕ → TopUpIntent → TopUpIntent
claim event now i = record i {
  status = succeeded;
  resolved_at = some now;
  xendit_invoice_id = elim event.gateway_invoice_id [
    | none ↦ i.xendit_invoice_id
    | some g ↦ if str_eq g "" then i.xendit_invoice_id else some g
  ];
}

-- Activates the account the first time the balance reaches the onboarding minimum.
unfoldable pub activate : ℕ → ℕ → Wallet → Action Wallet
activate branch_id now w =
    if not (is_some w.activated_at) && leb_ℤ activation_min_centavos w.balance_centavos
    then (do
      found ← update_wallet branch_id λ w. record w { activated_at = some now }
      or_throw found type_error)
    else pure w

unfoldable pub credit_wallet : ℕ → TopUpIntent → ℕ → Action (Unit {0})
credit_wallet intent_id intent now = do
  found ← inc_balance intent.branch_id intent.amount_centavos
  credited ← or_throw found not_found
  wallet ← activate intent.branch_id now credited
  create_entry (record {
    branch_id = intent.branch_id;
    type = top_up;
    amount_centavos = intent.amount_centavos;
    balance_after_centavos = wallet.balance_centavos;
    order_id = none;
    xendit_reference = some intent_id;
  })

-- A claim that matches no pending intent was raced by a concurrent delivery.
abbrev pub post_claimed : ℕ → TopUpIntent → ℕ → Option TopUpIntent → Action Bool
post_claimed intent_id intent now none = pure true
post_claimed intent_id intent now (some claimed) = credit_wallet intent_id intent now >> pure false

-- The body of the transaction; its result is `alreadyPosted`.
unfoldable pub claim_and_credit : ℕ → TopUpIntent → VerifiedTopUpEvent → ℕ → Action Bool
unfolding credit_wallet activate
claim_and_credit intent_id intent event now = do
  claimed ← update_pending intent_id (claim event now)
  post_claimed intent_id intent now claimed

-- `catch`: a duplicate key means that the payment was posted before.
abbrev pub caught : Result Bool × Db → Result Bool × Db
caught (ok b, db) = (ok b, db)
caught (err duplicate_key, db) = (ok true, db)
caught (err e, db) = (err e, db)

-- The transactional part of `postVerifiedTopUp`, on the intent as it was read before.
unfoldable pub settle : ℕ → TopUpIntent → VerifiedTopUpEvent → ℕ → Action PostTopUpResult
unfolding claim_and_credit
settle intent_id intent event now = do
  already ← λ db. caught (with_transaction (claim_and_credit intent_id intent event now) db)
  fresh ← find_intent intent_id
  pure (record { already_posted = already; intent = fresh })

-- What a read intent's status says: post it, report it as posted, or refuse it.
abbrev pub post_by_status :
    TopUpIntentStatus → ℕ → TopUpIntent → VerifiedTopUpEvent → ℕ → Action PostTopUpResult
post_by_status succeeded id intent event now =
    pure (record { already_posted = true; intent = some intent })
post_by_status failed id intent event now = throw bad_request
post_by_status expired id intent event now = throw bad_request
post_by_status pending id intent event now = settle id intent event now

-- The checks before the transaction; they read and do not write.
unfoldable pub checked_intent : (ℕ → Bool) → ℕ → VerifiedTopUpEvent → Action TopUpIntent
checked_intent is_valid_object_id intent_id event = do
  throw_if (not (is_valid_object_id intent_id)) not_found
  found ← find_intent intent_id
  intent ← or_throw found not_found
  throw_if (not (event.reference == intent_id)) bad_request
  throw_if (not (str_eq event.currency "PHP")) bad_request
  throw_if (not (eqb_ℤ event.amount_centavos intent.amount_centavos)) bad_request
  pure intent

unfoldable pub post_verified_top_up :
    (ℕ → Bool) → ℕ → VerifiedTopUpEvent → ℕ → Action PostTopUpResult
unfolding checked_intent settle
post_verified_top_up is_valid_object_id intent_id event now = do
  intent ← checked_intent is_valid_object_id intent_id event
  post_by_status intent.status intent_id intent event now

-- An intent that is no longer pending is returned as it is.
abbrev pub resolved_or_existing : ℕ → Option TopUpIntent → Action TopUpIntent
resolved_or_existing intent_id (some i) = pure i
resolved_or_existing intent_id none = do
  existing ← find_intent intent_id
  or_throw existing not_found

-- The terminal states that never credit: `expired` or `failed`.
unfoldable pub resolve_intent_without_credit :
    (ℕ → Bool) → ℕ → TopUpIntentStatus → ℕ → Action TopUpIntent
resolve_intent_without_credit is_valid_object_id intent_id status now = do
  throw_if (not (is_valid_object_id intent_id)) not_found
  resolved ← update_pending intent_id λ i. record i { status = status; resolved_at = some now }
  resolved_or_existing intent_id resolved

-- The gateway's answer to `createInvoice`; `none` is an exception.
pub record Invoice : Type 0 where
  pub gateway_invoice_id : Option String
  pub invoice_url : Option String
  pub auto_succeeds : Bool

abbrev pub insert_intent : ℕ → TopUpIntent → Action (Unit {0})
insert_intent id i db = (ok tt, record db { intents = insert id i db.intents })

abbrev pub fail_intent : ℕ → ℕ → Action (Option TopUpIntent)
fail_intent id now = update_pending id λ i. record i { status = failed; resolved_at = some now }

module _ (is_valid_object_id : ℕ → Bool) (find_branch : ℕ → Option Branch)
    (create_invoice : ℕ → ℕ → ℤ → Option Invoice) where
  unfoldable pub load_owned_branch : ℕ → ℕ → Action Branch
  load_owned_branch branch_id actor = elim (find_branch branch_id) [
    | none ↦ throw forbidden
    | some b ↦ if b.uid == actor then pure b else throw forbidden
  ]

  abbrev pub checked_amount : Number → Action ℤ
  checked_amount not_integer = throw bad_request
  checked_amount (whole a) =
      if leb_ℤ a (pos 0) || ltb_ℤ max_topup_centavos a then throw bad_request else pure a

  -- What follows the invoice: the dev gateway settles at once, by the same path as a webhook.
  unfoldable pub auto_settle : ℕ → ℤ → Invoice → ℕ → Action (Option TopUpIntent)
  auto_settle intent_id amount invoice now = do
    r ←
        post_verified_top_up is_valid_object_id intent_id
          (record {
            reference = intent_id;
            amount_centavos = amount;
            currency = "PHP";
            gateway_invoice_id = invoice.gateway_invoice_id;
          })
          now
    pure r.intent

  unfoldable pub after_invoice : ℕ → ℤ → Invoice → ℕ → Action (Option TopUpIntent)
  unfolding auto_settle
  after_invoice intent_id amount invoice now = do
    updated ← update_intent intent_id λ i. record i {
      xendit_invoice_id = invoice.gateway_invoice_id;
      invoice_url = invoice.invoice_url;
    }
    if invoice.auto_succeeds then auto_settle intent_id amount invoice now else pure updated

  -- A gateway that throws fails the intent; the exception goes on.
  abbrev pub invoiced : ℕ → ℤ → ℕ → Option Invoice → Action (Option TopUpIntent)
  invoiced intent_id amount now none = fail_intent intent_id now >> throw gateway_failed
  invoiced intent_id amount now (some invoice) = after_invoice intent_id amount invoice now

  -- `new_id` is the `_id` that the database gives to the intent.
  unfoldable pub initialize_top_up : ℕ → Number → ℕ → ℕ → ℕ → Action (Option TopUpIntent)
  unfolding load_owned_branch create_wallet after_invoice
  initialize_top_up branch_id amount_centavos actor new_id now = do
    branch ← load_owned_branch branch_id actor
    throw_if (elim branch.is_active [ some false ↦ true | _ ↦ false ]) forbidden
    amount ← checked_amount amount_centavos
    create_wallet branch_id
    insert_intent new_id (record {
      branch_id = branch_id;
      amount_centavos = amount;
      status = pending;
      xendit_invoice_id = none;
      invoice_url = none;
      resolved_at = none;
    })
    invoiced new_id amount now (create_invoice new_id branch_id amount)

  unfoldable pub top_up_status : ℕ → ℕ → Action TopUpIntent
  unfolding load_owned_branch
  top_up_status intent_id actor = do
    found ← find_intent intent_id
    intent ← or_throw found not_found
    load_owned_branch intent.branch_id actor
    pure intent
