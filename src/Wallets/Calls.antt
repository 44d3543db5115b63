-- ===== src/Wallets/Calls.antt =====
-- Sequences of calls to the wallet services, the webhook's among them, and what they do to the
-- books.
use Prim.Native.String.{String}
use lalaba_backend_showcase.Base.{
  ◌∙◌, ap, ℕ, ◌≡◌, sym, subst, Option, none, some, List, [], ◌∷◌, arith,
}
use lalaba_backend_showcase.Base.Int.{ℤ}
use lalaba_backend_showcase.Wallets.State.{Branch, Db, ok, err, expired, bad_request}
use lalaba_backend_showcase.Wallets.Fees.{
  Number, balance_or_zero, consume_fee, reverse_fee, admin_adjust_balance,
}
use lalaba_backend_showcase.Wallets.TopUps.{Invoice, create_wallet, initialize_top_up}
use lalaba_backend_showcase.Wallets.Webhook.{
  Platform, XenditInvoiceCallback, verify_callback_token, routed, dispatch, post_paid,
  handle_invoice_callback,
}
use lalaba_backend_showcase.Wallets.Sound.{IsSound, Keeps, if-Keeps, reads-Keeps, >>=-Keeps}
use lalaba_backend_showcase.Wallets.Ledgered.{
  create_wallet-IsSound, consume_fee-IsSound, reverse_fee-Keeps, admin_adjust_balance-Keeps,
}
use lalaba_backend_showcase.Wallets.Books.{
  post_verified_top_up-Keeps, resolve_intent_without_credit-Keeps, initialize_top_up-Keeps,
}
use lalaba_backend_showcase.Wallets.Report.{reconciliation_report, reconciliation_report_iff}

module _ (p : Platform) (find_branch : ℕ → Option Branch)
    (create_invoice : ℕ → ℕ → ℤ → Option Invoice) where
  open p use {Pesos, is_valid_object_id, to_upper_case}

  pub data Call : Type 0 where
    -- the branch
    open_wallet : ℕ → Call
    -- the branch, the amount, the actor, the new intent's id and the time
    start_top_up : ℕ → Number → ℕ → ℕ → ℕ → Call
    -- the token, the body and the time
    callback : Option String → XenditInvoiceCallback p → ℕ → Call
    -- the branch, the amount and the order
    consume reverse : ℕ → ℤ → ℕ → Call
    -- the branch and the difference
    adjust_balance : ℕ → Number → Call

  -- The database after the call, whether it returned or threw.
  pub run : Call → Db → Db
  run (open_wallet b) db = (create_wallet b db).1
  run (start_top_up b n actor id now) db =
      (initialize_top_up is_valid_object_id find_branch create_invoice b n actor id now db).1
  run (callback token body now) db = (handle_invoice_callback p token body now db).1
  run (consume b amount order) db = (consume_fee b amount order db).1
  run (reverse b amount order) db = (reverse_fee b amount order db).1
  run (adjust_balance b n) db = (admin_adjust_balance b n db).1

  pub run_all : List Call → Db → Db
  unfolding run
  run_all [] db = db
  run_all (c ∷ cs) db = run_all cs (run c db)

  verify_callback_token-reads :
      (token : Option String) (db : Db) → (verify_callback_token p token db).1 ≡ db
  unfolding verify_callback_token
  verify_callback_token-reads token db = ground arith

  verify_callback_token-Keeps : (token : Option String) → Keeps (verify_callback_token p token)
  verify_callback_token-Keeps token = record {
    keep = λ db s. subst IsSound (sym (verify_callback_token-reads token db)) s;
  }

  post_paid-Keeps :
      (body : XenditInvoiceCallback p) (id now : ℕ) (a : Option ℤ)
      → Keeps (post_paid p body id now a)
  unfolding post_paid
  post_paid-Keeps body id now none = reads-Keeps (err bad_request)
  post_paid-Keeps body id now (some a) =
      >>=-Keeps _ _ (post_verified_top_up-Keeps is_valid_object_id id _ now)
        (λ r. reads-Keeps (ok _))

  dispatch-Keeps :
      (body : XenditInvoiceCallback p) (id : ℕ) (status : String) (now : ℕ)
      → Keeps (dispatch p body id status now)
  unfolding dispatch
  dispatch-Keeps body id status now = if-Keeps _ _ _ (post_paid-Keeps body id now _) (
      if-Keeps _ _ _
        (>>=-Keeps _ _ (resolve_intent_without_credit-Keeps is_valid_object_id id expired now)
          (λ i. reads-Keeps (ok none)))
        (reads-Keeps (ok none)))

  routed-Keeps :
      (body : XenditInvoiceCallback p) (now : ℕ) (id : Option ℕ) (status : Option String)
      → Keeps (routed p body now id status)
  routed-Keeps body now none status = reads-Keeps (err bad_request)
  routed-Keeps body now (some id) none = reads-Keeps (err bad_request)
  routed-Keeps body now (some id) (some status) =
      if-Keeps _ _ _ (reads-Keeps (err bad_request))
        (dispatch-Keeps body id (to_upper_case status) now)

  handle_invoice_callback-Keeps :
      (token : Option String) (body : XenditInvoiceCallback p) (now : ℕ)
      → Keeps (handle_invoice_callback p token body now)
  unfolding handle_invoice_callback
  handle_invoice_callback-Keeps token body now =
      >>=-Keeps _ _ (verify_callback_token-Keeps token)
        (λ _. routed-Keeps body now body.external_id body.status)

  run-IsSound : (c : Call) (db : Db) → IsSound db → IsSound (run c db)
  unfolding run
  run-IsSound (open_wallet b) db s = create_wallet-IsSound b db s
  run-IsSound (start_top_up b n actor id now) db s =
      (initialize_top_up-Keeps is_valid_object_id find_branch create_invoice b n actor id now).keep
        db s
  run-IsSound (callback token body now) db s =
      (handle_invoice_callback-Keeps token body now).keep db s
  run-IsSound (consume b amount order) db s = consume_fee-IsSound b amount order db s
  run-IsSound (reverse b amount order) db s = (reverse_fee-Keeps b amount order).keep db s
  run-IsSound (adjust_balance b n) db s = (admin_adjust_balance-Keeps b n).keep db s

  -- Every balance is the sum of its branch's ledger rows, and each branch has at most one wallet,
  -- after any sequence of calls, returning or throwing, on a database where that holds.
  pub run_all-IsSound : (cs : List Call) (db : Db) → IsSound db → IsSound (run_all cs db)
  unfolding run_all
  run_all-IsSound [] db s = s
  run_all-IsSound (c ∷ cs) db s = run_all-IsSound cs (run c db) (run-IsSound c db s)

  -- On such a database the report finds no variance after any sequence of calls.
  report_after_calls :
      (cs : List Call) (db : Db) (now : ℕ)
      → IsSound db
      → (reconciliation_report now (run_all cs db)).wallets_with_variance ≡ 0
  report_after_calls cs db now s =
      let after = run_all-IsSound cs db s in
      (reconciliation_report_iff now (run_all cs db) after.unique).1
        (λ b w e. sym (ap balance_or_zero e) ∙ after.balanced b)
