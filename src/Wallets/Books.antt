-- ===== src/Wallets/Books.antt =====
-- The top-up methods and the books (src/wallets/wallets.service.ts).
use lalaba_backend_showcase.Base.{
  ℕ, ◌≡◌, refl, sym, subst, Bool, false, not, Option, none, some, arith,
}
use lalaba_backend_showcase.Base.Int.{ℤ}
use lalaba_backend_showcase.Wallets.State.{
  gateway_failed, TopUpIntent, TopUpIntentStatus, pending, succeeded, failed, expired, Branch, Db,
  Result, ok, err, Failure, throw_if, with_transaction, duplicate_key, not_found, bad_request,
  forbidden,
}
use lalaba_backend_showcase.Wallets.Store.{update_pending, update_intent, find_intent}
use lalaba_backend_showcase.Wallets.Fees.{Number, whole, not_integer}
use lalaba_backend_showcase.Wallets.TopUps.{
  credit_wallet, invoiced, resolved_or_existing, post_claimed, VerifiedTopUpEvent, claim,
  claim_and_credit, caught, settle, post_by_status, checked_intent, post_verified_top_up,
  resolve_intent_without_credit, Invoice, insert_intent, fail_intent, load_owned_branch,
  checked_amount, auto_settle, after_invoice, initialize_top_up, create_wallet,
}
use lalaba_backend_showcase.Wallets.Sound.{
  IsSound, Keeps, KeepsOk, if-Keeps, or_throw-Keeps, reads-Keeps, >>=-Keeps, >>=-KeepsOk,
  then_pure-KeepsOk, with_transaction-Keeps,
}
use lalaba_backend_showcase.Wallets.Ledgered.{credit_wallet-IsSound, create_wallet-IsSound}

throw_if-Keeps : (t : Bool) (e : Failure) → Keeps (throw_if t e)
throw_if-Keeps t e = record { keep = λ db s. s }

find_intent-Keeps : (id : ℕ) → Keeps (find_intent id)
find_intent-Keeps id = record { keep = λ db s. s }

intents-IsSound :
    (db db' : Db) → db'.wallets ≡ db.wallets → db'.ledger ≡ db.ledger → IsSound db → IsSound db'
intents-IsSound db db' w l s = record {
  balanced = λ b. rw (w, l) (s.balanced b);
  unique = rw w s.unique;
}

update_pending-IsSound :
    (id : ℕ) (f : TopUpIntent → TopUpIntent) (db : Db)
    → IsSound db
    → IsSound (update_pending id f db).1
update_pending-IsSound id f db s =
    intents-IsSound db (update_pending id f db).1 (ground arith) (ground arith) s

update_pending-Keeps : (id : ℕ) (f : TopUpIntent → TopUpIntent) → Keeps (update_pending id f)
update_pending-Keeps id f = record { keep = update_pending-IsSound id f }

update_intent-Keeps : (id : ℕ) (f : TopUpIntent → TopUpIntent) → Keeps (update_intent id f)
update_intent-Keeps id f = record {
  keep = λ db s. intents-IsSound db (update_intent id f db).1 refl refl s;
}

insert_intent-Keeps : (id : ℕ) (i : TopUpIntent) → Keeps (insert_intent id i)
insert_intent-Keeps id i = record {
  keep = λ db s. intents-IsSound db (insert_intent id i db).1 refl refl s;
}

post_claimed-KeepsOk :
    (id : ℕ) (i : TopUpIntent) (now : ℕ) (c : Option TopUpIntent)
    → KeepsOk (post_claimed id i now c)
post_claimed-KeepsOk id i now none = record { keep_ok = λ db s a h. s }
post_claimed-KeepsOk id i now (some c) =
    then_pure-KeepsOk (credit_wallet id i now) false
      (record { keep_ok = credit_wallet-IsSound id i now })

claim_and_credit-KeepsOk :
    (id : ℕ) (i : TopUpIntent) (e : VerifiedTopUpEvent) (now : ℕ)
    → KeepsOk (claim_and_credit id i e now)
unfolding claim_and_credit
claim_and_credit-KeepsOk id i e now =
    >>=-KeepsOk (update_pending id (claim e now)) (post_claimed id i now)
      (update_pending-Keeps id (claim e now)) (post_claimed-KeepsOk id i now)

caught-IsSound : (r : Result Bool) (db : Db) → IsSound db → IsSound (caught (r, db)).1
caught-IsSound (ok b) db s = s
caught-IsSound (err duplicate_key) db s = s
caught-IsSound (err _) db s = s

already-Keeps :
    (id : ℕ) (i : TopUpIntent) (e : VerifiedTopUpEvent) (now : ℕ)
    → Keeps (λ db. caught (with_transaction (claim_and_credit id i e now) db))
already-Keeps id i e now =
    let body =
      with_transaction-Keeps (claim_and_credit id i e now) (claim_and_credit-KeepsOk id i e now) in
    record { keep = λ db s. caught-IsSound _ _ (body.keep db s) }

settle-Keeps :
    (id : ℕ) (i : TopUpIntent) (e : VerifiedTopUpEvent) (now : ℕ) → Keeps (settle id i e now)
unfolding settle
settle-Keeps id i e now = >>=-Keeps _ _ (already-Keeps id i e now) (λ already.
    >>=-Keeps (find_intent id) _ (find_intent-Keeps id)
      (λ fresh. reads-Keeps (ok (record { already_posted = already; intent = fresh }))))

post_by_status-Keeps :
    (st : TopUpIntentStatus) (id : ℕ) (i : TopUpIntent) (e : VerifiedTopUpEvent) (now : ℕ)
    → Keeps (post_by_status st id i e now)
post_by_status-Keeps pending id i e now = settle-Keeps id i e now
post_by_status-Keeps succeeded id i e now = reads-Keeps (ok _)
post_by_status-Keeps failed id i e now = reads-Keeps (err _)
post_by_status-Keeps expired id i e now = reads-Keeps (err _)

module _ (is_valid_object_id : ℕ → Bool) where
  -- The checks write nothing.
  pub checked_intent-reads :
      (id : ℕ) (e : VerifiedTopUpEvent) (db : Db)
      → (checked_intent is_valid_object_id id e db).1 ≡ db
  unfolding checked_intent
  checked_intent-reads id e db = ground arith

  checked_intent-Keeps :
      (id : ℕ) (e : VerifiedTopUpEvent) → Keeps (checked_intent is_valid_object_id id e)
  checked_intent-Keeps id e = record {
    keep = λ db s. subst IsSound (sym (checked_intent-reads id e db)) s;
  }

  pub post_verified_top_up-Keeps :
      (id : ℕ) (e : VerifiedTopUpEvent) (now : ℕ)
      → Keeps (post_verified_top_up is_valid_object_id id e now)
  unfolding post_verified_top_up
  post_verified_top_up-Keeps id e now =
      >>=-Keeps (checked_intent is_valid_object_id id e) _ (checked_intent-Keeps id e)
        (λ i. post_by_status-Keeps i.status id i e now)

  resolved_or_existing-Keeps : (id : ℕ) (o : Option TopUpIntent) → Keeps (resolved_or_existing id o)
  resolved_or_existing-Keeps id (some i) = reads-Keeps (ok i)
  resolved_or_existing-Keeps id none =
      >>=-Keeps (find_intent id) _ (find_intent-Keeps id) (λ o. or_throw-Keeps o not_found)

  pub resolve_intent_without_credit-Keeps :
      (id : ℕ) (st : TopUpIntentStatus) (now : ℕ)
      → Keeps (resolve_intent_without_credit is_valid_object_id id st now)
  unfolding resolve_intent_without_credit
  resolve_intent_without_credit-Keeps id st now =
      >>=-Keeps _ _ (throw_if-Keeps (not (is_valid_object_id id)) not_found) (λ _.
        >>=-Keeps (update_pending id _) (resolved_or_existing id) (update_pending-Keeps id _)
          (resolved_or_existing-Keeps id))

  module _ (find_branch : ℕ → Option Branch) (create_invoice : ℕ → ℕ → ℤ → Option Invoice) where
    auto_settle-Keeps :
        (id : ℕ) (amount : ℤ) (v : Invoice) (now : ℕ)
        → Keeps (auto_settle is_valid_object_id find_branch create_invoice id amount v now)
    unfolding auto_settle
    auto_settle-Keeps id amount v now =
        >>=-Keeps _ _ (post_verified_top_up-Keeps id _ now) (λ r. reads-Keeps (ok r.intent))

    after_invoice-Keeps :
        (id : ℕ) (amount : ℤ) (v : Invoice) (now : ℕ)
        → Keeps (after_invoice is_valid_object_id find_branch create_invoice id amount v now)
    unfolding after_invoice
    after_invoice-Keeps id amount v now =
        >>=-Keeps (update_intent id _) _ (update_intent-Keeps id _) (λ updated.
          if-Keeps v.auto_succeeds _ _ (auto_settle-Keeps id amount v now)
            (reads-Keeps (ok updated)))

    load_owned_branch-Keeps :
        (b actor : ℕ)
        → Keeps (load_owned_branch is_valid_object_id find_branch create_invoice b actor)
    unfolding load_owned_branch
    load_owned_branch-Keeps b actor = record { keep = λ db s. subst IsSound (ground arith) s }

    checked_amount-Keeps :
        (n : Number) → Keeps (checked_amount is_valid_object_id find_branch create_invoice n)
    checked_amount-Keeps not_integer = reads-Keeps (err bad_request)
    checked_amount-Keeps (whole a) =
        if-Keeps _ _ _ (reads-Keeps (err bad_request)) (reads-Keeps (ok a))

    invoiced-Keeps :
        (id : ℕ) (amount : ℤ) (now : ℕ) (v : Option Invoice)
        → Keeps (invoiced is_valid_object_id find_branch create_invoice id amount now v)
    invoiced-Keeps id amount now (some v) = after_invoice-Keeps id amount v now
    invoiced-Keeps id amount now none =
        >>=-Keeps (fail_intent id now) _ (update_pending-Keeps id _)
          (λ _. reads-Keeps (err gateway_failed))

    pub initialize_top_up-Keeps :
        (b : ℕ) (n : Number) (actor id now : ℕ)
        → Keeps (initialize_top_up is_valid_object_id find_branch create_invoice b n actor id now)
    unfolding initialize_top_up
    initialize_top_up-Keeps b n actor id now =
        >>=-Keeps _ _ (load_owned_branch-Keeps b actor) (λ branch.
          >>=-Keeps _ _ (throw_if-Keeps _ forbidden) (λ _.
            >>=-Keeps _ _ (checked_amount-Keeps n) (λ amount.
              >>=-Keeps (create_wallet b) _ (record { keep = create_wallet-IsSound b })
                (λ _.
                  >>=-Keeps (insert_intent id _) _ (insert_intent-Keeps id _)
                    (λ _. invoiced-Keeps id amount now (create_invoice id b amount))))))
