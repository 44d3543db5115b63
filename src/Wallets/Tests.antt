-- ===== src/Wallets/Tests.antt =====
-- A small database, and payments and callbacks on it, on which the theorems about wallets apply.
use lalaba_backend_showcase.Base.{
  ℕ, ◌≡◌, refl, ap, ◌↔◌, Bool, true, false, Option, none, some, List, [], ◌∷◌,
}
use lalaba_backend_showcase.Base.Int.{ℤ, pos}
use lalaba_backend_showcase.Base.Keyed.{find}
use lalaba_backend_showcase.Wallets.State.{
  Wallet, TopUpIntent, pending, succeeded, Branch, Db, ok, err, ◌>>◌, bad_request, unauthorized,
}
use lalaba_backend_showcase.Wallets.Fees.{whole, consume_fee, reverse_fee}
use lalaba_backend_showcase.Wallets.TopUps.{
  PostTopUpResult, VerifiedTopUpEvent, claim, checked_intent, post_verified_top_up, Invoice,
}
use Prim.Native.String.{String}
use text.Mathlib.Text.{◌==◌ as str_eq}
use lalaba_backend_showcase.Wallets.Sound.{IsSound}
use lalaba_backend_showcase.Wallets.Balance.{ledger_sum}
use lalaba_backend_showcase.Wallets.Webhook.{
  Platform, XenditInvoiceCallback, handle_invoice_callback,
}
use lalaba_backend_showcase.Wallets.Report.{reconciliation_report, reconciliation_report_iff}
use lalaba_backend_showcase.Wallets.Calls.{Call, run_all, run_all-IsSound}
use lalaba_backend_showcase.Wallets.Payments.{Matches, IsPosted, payment-posts, payment_is_credited}
use lalaba_backend_showcase.Wallets.Redelivery.{
  deliver_all, refused_payment_writes_nothing, later_deliveries_change_nothing,
}
use lalaba_backend_showcase.Wallets.Reversal.{fee_taken, fee_returned, reversed_fee_is_given_back}
use lalaba_backend_showcase.Wallets.Trust.{untrusted_callback_is_refused}

abbrev platform : Platform
platform = record {
  Pesos = ℕ;
  Digest = String;
  to_centavos = λ pesos. some (pos pesos);
  callback_token = some "secret";
  sha256 = λ s. s;
  timing_safe_equal = str_eq;
  to_upper_case = λ s. s;
  is_valid_object_id = λ id. true;
}

abbrev known : ℕ → Bool
known id = true

abbrev branches : ℕ → Option Branch
branches b = some (record { uid = 7; is_active = some true })

abbrev gateway : ℕ → ℕ → ℤ → Option Invoice
gateway id b amount =
    some (record { gateway_invoice_id = some "inv"; invoice_url = none; auto_succeeds = true })

abbrev empty_db : Db
empty_db = record { wallets = []; ledger = []; intents = [] }

abbrev purse : Wallet
purse = record { balance_centavos = pos 0; activated_at = none }

abbrev waiting : TopUpIntent
waiting = record {
  branch_id = 1;
  amount_centavos = pos 500;
  status = pending;
  xendit_invoice_id = none;
  invoice_url = none;
  resolved_at = none;
}

abbrev open_db : Db
open_db = record { wallets = (1, purse) ∷ []; ledger = []; intents = (9, waiting) ∷ [] }

abbrev paid : VerifiedTopUpEvent
paid = record {
  reference = 9;
  amount_centavos = pos 500;
  currency = "PHP";
  gateway_invoice_id = some "inv";
}

empty-IsSound : IsSound empty_db
empty-IsSound = record { balanced = λ b. refl; unique = tt }

abbrev calls : List (Call platform branches gateway)
calls =
    Call.open_wallet 1
    ∷ Call.start_top_up 1 (whole (pos 500)) 7 9 100
    ∷ Call.consume 1 (pos 700) 3
    ∷ Call.reverse 1 (pos 700) 3
    ∷ []

run_all-IsSound_example : IsSound (run_all platform branches gateway calls empty_db)
run_all-IsSound_example = run_all-IsSound platform branches gateway calls empty_db empty-IsSound

reconciliation_report_iff_example :
    ((reconciliation_report 5 open_db).wallets_with_variance ≡ 0) ↔ (
      (b : ℕ) (w : Wallet)
      → find b open_db.wallets ≡ some w
      → w.balance_centavos ≡ ledger_sum b open_db.ledger)
reconciliation_report_iff_example = reconciliation_report_iff 5 open_db (refl, tt)

abbrev done : TopUpIntent
done = record waiting { status = succeeded; resolved_at = some 40 }

abbrev done_db : Db
done_db = record open_db { intents = (9, done) ∷ [] }

paid-Matches : Matches known 9 paid waiting
paid-Matches = record { known = refl; reference = refl; currency = refl; amount = refl }

payment_is_credited_example :
    IsPosted 9 paid 40 waiting purse open_db (post_verified_top_up known 9 paid 40 open_db)
payment_is_credited_example =
    payment_is_credited known 9 paid 40 waiting purse open_db paid-Matches refl refl refl tt

abbrev in_dollars : VerifiedTopUpEvent
in_dollars = record paid { currency = "USD" }

in_dollars-refused : (post_verified_top_up known 9 in_dollars 40 open_db).0 ≡ err bad_request
unfolding post_verified_top_up checked_intent
in_dollars-refused = refl

refused_payment_writes_nothing_example :
    (post_verified_top_up known 9 in_dollars 40 open_db).1 ≡ open_db
refused_payment_writes_nothing_example =
    refused_payment_writes_nothing known 9 in_dollars 40 bad_request open_db in_dollars-refused

abbrev first_result : PostTopUpResult
first_result = record { already_posted = false; intent = some (claim paid 40 waiting) }

first_delivery : (post_verified_top_up known 9 paid 40 open_db).0 ≡ ok first_result
first_delivery =
    ap (λ x. x.0)
      (payment-posts known 9 paid 40 waiting purse open_db paid-Matches refl refl refl refl)

later_deliveries_change_nothing_example :
    deliver_all known 9
      ((paid, 50) ∷ (paid, 60) ∷ [])
      (post_verified_top_up known 9 paid 40 open_db).1
    ≡ (post_verified_top_up known 9 paid 40 open_db).1
later_deliveries_change_nothing_example =
    later_deliveries_change_nothing known 9 paid 40 first_result ((paid, 50) ∷ (paid, 60) ∷ [])
      open_db first_delivery

reversed_fee_is_given_back_example :
    (consume_fee 1 (pos 30) 3 >> reverse_fee 1 (pos 30) 3) open_db ≡ (
      ok tt,
      record open_db {
        ledger = fee_taken 1 (pos 30) 3 purse ∷ fee_returned 1 (pos 30) 3 purse ∷ [];
      },
    )
reversed_fee_is_given_back_example = reversed_fee_is_given_back 1 (pos 30) 3 open_db purse refl refl

abbrev expired_callback : XenditInvoiceCallback platform
expired_callback = record {
  id = some "inv";
  external_id = some 9;
  status = some "EXPIRED";
  amount = some 500;
  paid_amount = none;
  currency = none;
}

untrusted_callback_is_refused_example :
    handle_invoice_callback platform (some "guess") expired_callback 40 open_db
    ≡ (err unauthorized, open_db)
untrusted_callback_is_refused_example =
    untrusted_callback_is_refused platform (some "guess") expired_callback 40 open_db refl
