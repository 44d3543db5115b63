-- ===== src/Wallets/Payments.antt =====
-- A verified payment (`postVerifiedTopUp` of src/wallets/wallets.service.ts) from its checks to its
-- effect.

use Prim.Native.String.{String}
use text.Mathlib.Text.{◌==◌ as str_eq}
use lalaba_backend_showcase.Base.{
  ℕ, ◌≡◌, ◌≢◌, refl, sym, subst, ◌∙◌, ap, ◌⊎◌, Bool, true, false, Option, none, some, List, [], ◌∷◌,
  ◌++◌, All, if◌then◌else◌, arith, inl, inr, Bool-cases, Option-cases,
}
use lalaba_backend_showcase.Base.Int.{ℤ, pos, ◌+ℤ◌, leb_ℤ, eqb_ℤ}
use lalaba_backend_showcase.Base.Keyed.{find, update, update_congr, find-update_self}
use lalaba_backend_showcase.Wallets.State.{
  Wallet, WalletLedgerEntry, top_up, TopUpIntent, pending, succeeded, Db, Result, ok, err, Failure,
  >>=-ok, >>=-err,
}
use lalaba_backend_showcase.Wallets.Store.{has_reference}
use lalaba_backend_showcase.Wallets.TopUps.{
  VerifiedTopUpEvent, PostTopUpResult, claim, post_by_status, checked_intent, post_verified_top_up,
}
use lalaba_backend_showcase.Wallets.Books.{checked_intent-reads}
use lalaba_backend_showcase.Wallets.Deliveries.{claimed_db, is_credited, settle-credits}
use lalaba_backend_showcase.Wallets.Credit.{posted_db, credited, stamped}

pub Result-cases :
    {A : Type 0} (r : Result A) → ((e : Failure) × (r ≡ err e)) ⊎ ((a : A) × (r ≡ ok a))
Result-cases (ok a) = inr (a, refl)
Result-cases (err e) = inl (e, refl)

pub pair_eq : {A B : Type 0} (x : A × B) {a : A} {b : B} → x.0 ≡ a → x.1 ≡ b → x ≡ (a, b)
pair_eq (x, y) p q = rw (p, q) refl

-- The intent of a payment that was credited.
abbrev pub invoice_after : Option String → Option String → Option String
invoice_after none known = known
invoice_after (some g) known = if str_eq g "" then known else some g

abbrev pub as_paid : VerifiedTopUpEvent → ℕ → TopUpIntent → TopUpIntent
as_paid event now i = record i {
  status = succeeded;
  resolved_at = some now;
  xendit_invoice_id = invoice_after event.gateway_invoice_id i.xendit_invoice_id;
}

-- The wallet after a credit: an account is activated once, with 100,000 centavos or more.
abbrev pub activation : ℕ → ℤ → Option ℕ → Option ℕ
activation now balance (some at) = some at
activation now balance none = if leb_ℤ (pos 100_000) balance then some now else none

abbrev pub as_funded : ℤ → ℕ → Wallet → Wallet
as_funded amount now w = record {
  balance_centavos = w.balance_centavos +ℤ amount;
  activated_at = activation now (w.balance_centavos +ℤ amount) w.activated_at;
}

pub record IsPosted (id : ℕ) (event : VerifiedTopUpEvent) (now : ℕ) (i : TopUpIntent) (w : Wallet)
    (db : Db) (r : Result PostTopUpResult × Db) : Type 0 where
  pub result : r.0 ≡ ok (record { already_posted = false; intent = find id r.1.intents })
  pub intents : r.1.intents ≡ update id (as_paid event now) db.intents
  pub wallets : r.1.wallets ≡ update i.branch_id (as_funded i.amount_centavos now) db.wallets
  pub ledger :
      r.1.ledger
      ≡ db.ledger
        ++ (record {
          branch_id = i.branch_id;
          type = top_up;
          amount_centavos = i.amount_centavos;
          balance_after_centavos = w.balance_centavos +ℤ i.amount_centavos;
          order_id = none;
          xendit_reference = some id;
        })
          ∷ []

-- A ledger row that is not the credit of this payment.
abbrev pub IsOtherPayment : ℕ → TopUpIntent → WalletLedgerEntry → Type 0
IsOtherPayment id i e = e.branch_id ≡ i.branch_id → e.xendit_reference ≢ some id

claim-as_paid :
    (event : VerifiedTopUpEvent) (now : ℕ) (i : TopUpIntent)
    → claim event now i ≡ as_paid event now i
claim-as_paid event now i = elim (Option-cases event.gateway_invoice_id) [
  | inl e ↦ rw e refl
  | inr (g, e) ↦ rw e refl
]

credited-as_funded :
    (i : TopUpIntent) (now : ℕ) (w : Wallet) → credited i now w ≡ as_funded i.amount_centavos now w
unfolding stamped
credited-as_funded i now w = go w.activated_at refl
  where
    go : (a : Option ℕ) → w.activated_at ≡ a → credited i now w ≡ as_funded i.amount_centavos now w
    go (some at) e = rw e refl
    go none e = elim (Bool-cases (leb_ℤ (pos 100_000) (w.balance_centavos +ℤ i.amount_centavos))) [
      | inl enough ↦ rw (e, enough) refl
      | inr short ↦ rw (e, short) refl
    ]

is_other-has :
    (id : ℕ) (i : TopUpIntent) (e : WalletLedgerEntry) (es : List WalletLedgerEntry)
    → IsOtherPayment id i e
    → has_reference i.branch_id id es ≡ false
    → has_reference i.branch_id id (e ∷ es) ≡ false
is_other-has id i e es other rest = elim (Option-cases e.xendit_reference) [
  | inl e0 ↦ ground (arith, e0, rest)
  | inr (r, e0) ↦ ground (arith, e0, rest, other)
]

module _ (is_valid_object_id : ℕ → Bool) where
  -- The event is a payment of the intent: a known id, its own reference, pesos, and its amount.
  pub record Matches (id : ℕ) (event : VerifiedTopUpEvent) (i : TopUpIntent) : Type 0 where
    pub known : is_valid_object_id id ≡ true
    pub reference : event.reference ≡ id
    pub currency : str_eq event.currency "PHP" ≡ true
    pub amount : eqb_ℤ event.amount_centavos i.amount_centavos ≡ true

  checked_intent-matching :
      (id : ℕ) (event : VerifiedTopUpEvent) (i : TopUpIntent) (db : Db)
      → find id db.intents ≡ some i
      → Matches id event i
      → checked_intent is_valid_object_id id event db ≡ (ok i, db)
  unfolding checked_intent
  checked_intent-matching id event i db found m =
      ground (arith, m.known, m.reference, m.currency, m.amount)

  pub checked_intent-found :
      (id : ℕ) (event : VerifiedTopUpEvent) (i : TopUpIntent) (db : Db)
      → (checked_intent is_valid_object_id id event db).0 ≡ ok i
      → find id db.intents ≡ some i
  unfolding checked_intent
  checked_intent-found id event i db h = ground arith

  pub post-matching :
      (id : ℕ) (event : VerifiedTopUpEvent) (now : ℕ) (i : TopUpIntent) (db : Db)
      → checked_intent is_valid_object_id id event db ≡ (ok i, db)
      → post_verified_top_up is_valid_object_id id event now db
        ≡ post_by_status i.status id i event now db
  unfolding post_verified_top_up
  post-matching id event now i db e =
      >>=-ok (checked_intent is_valid_object_id id event)
        (λ i. post_by_status i.status id i event now) db e

  pub post-refused :
      (id : ℕ) (event : VerifiedTopUpEvent) (now : ℕ) (e : Failure) (db : Db)
      → (checked_intent is_valid_object_id id event db).0 ≡ err e
      → post_verified_top_up is_valid_object_id id event now db ≡ (err e, db)
  unfolding post_verified_top_up
  post-refused id event now e db h =
      >>=-err (checked_intent is_valid_object_id id event)
        (λ i. post_by_status i.status id i event now) db
        (pair_eq _ h (checked_intent-reads is_valid_object_id id event db))

  pub payment-posts :
      (id : ℕ) (event : VerifiedTopUpEvent) (now : ℕ) (i : TopUpIntent) (w : Wallet) (db : Db)
      → Matches id event i
      → find id db.intents ≡ some i
      → i.status ≡ pending
      → find i.branch_id db.wallets ≡ some w
      → is_credited id i db ≡ false
      → post_verified_top_up is_valid_object_id id event now db ≡ (
        ok (record { already_posted = false; intent = some (claim event now i) }),
        posted_db id i now (claimed_db id event now db) w,
      )
  payment-posts id event now i w db m found waits there new =
      post-matching id event now i db (checked_intent-matching id event i db found m)
      ∙ ap (λ st. post_by_status st id i event now db) waits
      ∙ settle-credits id i i event now db w found (rw waits refl) there new

  is_credited-absent :
      (id : ℕ) (i : TopUpIntent) (es : List WalletLedgerEntry)
      → All (IsOtherPayment id i) es
      → has_reference i.branch_id id es ≡ false
  is_credited-absent id i [] h = refl
  is_credited-absent id i (e ∷ es) h = is_other-has id i e es h.0 (is_credited-absent id i es h.1)

  -- A payment that matches a pending intent, whose branch has a wallet and whose reference is in no
  -- ledger row of the branch, is credited: the answer says that it was not posted before and
  -- carries the stored intent; the intent becomes succeeded, resolved now, with the gateway's
  -- invoice where the event names one; the balance grows by the amount, and the wallet is activated
  -- now where it was not and the new balance is at least 1,000 pesos; one top-up row with the
  -- amount, the new balance and the reference is appended to the ledger; and nothing else changes.
  pub payment_is_credited :
      (id : ℕ) (event : VerifiedTopUpEvent) (now : ℕ) (i : TopUpIntent) (w : Wallet) (db : Db)
      → Matches id event i
      → find id db.intents ≡ some i
      → i.status ≡ pending
      → find i.branch_id db.wallets ≡ some w
      → All (IsOtherPayment id i) db.ledger
      → IsPosted id event now i w db (post_verified_top_up is_valid_object_id id event now db)
  payment_is_credited id event now i w db m found waits there new =
      let posts =
        payment-posts id event now i w db m found waits there
          (is_credited-absent id i db.ledger new) in
      subst (IsPosted id event now i w db) (sym posts) (record {
        result =
            ap (λ o. ok (record { already_posted = false; intent = o }))
              (sym (find-update_self id (claim event now) i db.intents found));
        intents =
            update_congr id (claim event now) (as_paid event now) i db.intents found
              (claim-as_paid event now i);
        wallets =
            update_congr i.branch_id (credited i now) (as_funded i.amount_centavos now) w db.wallets
              there (credited-as_funded i now w);
        ledger = refl;
      })
