-- ===== src/Wallets/Trust.antt =====
-- Which callbacks the webhook trusts, and which of them move money
-- (src/wallets/xendit-webhook.controller.ts).
use lalaba_backend_showcase.Base.{
  ℕ, ◌≡◌, refl, ◌∙◌, Bool, true, false, not, ◌&&◌, ◌||◌, Option, none, some, if◌then◌else◌, or_else,
  arith,
}
use lalaba_backend_showcase.Wallets.State.{
  TopUpIntent, TopUpIntentStatus, expired, Db, Result, ok, err, Action, pure, throw, throw_if,
  ◌>>=◌, >>=-err, not_found, bad_request, unauthorized,
}
use lalaba_backend_showcase.Wallets.Store.{update_pending}
use lalaba_backend_showcase.Wallets.TopUps.{resolved_or_existing, resolve_intent_without_credit}
use Prim.Native.String.{String}
use text.Mathlib.Text.{◌==◌ as str_eq}
use lalaba_backend_showcase.Wallets.Webhook.{
  Platform, XenditInvoiceCallback, Acknowledged, verify_callback_token, routed, dispatch,
  handle_invoice_callback,
}

module _ (p : Platform) where
  open p use {callback_token, sha256, timing_safe_equal, to_upper_case, is_valid_object_id}

  -- A token is configured and is not empty, and the digest of the header's token is the digest of it.
  abbrev pub is_trusted : Option String → Bool
  is_trusted token = elim callback_token [
    | none ↦ false
    | some expected ↦
        not (str_eq expected "") && timing_safe_equal (sha256 (or_else token "")) (sha256 expected)
  ]

  verify-untrusted :
      (token : Option String) (db : Db)
      → is_trusted token ≡ false
      → verify_callback_token p token db ≡ (err unauthorized, db)
  unfolding verify_callback_token
  verify-untrusted token db h = ground arith

  -- A callback whose token is not trusted is refused as unauthorized and writes nothing, whatever
  -- its body says.
  pub untrusted_callback_is_refused :
      (token : Option String) (body : XenditInvoiceCallback p) (now : ℕ) (db : Db)
      → is_trusted token ≡ false
      → handle_invoice_callback p token body now db ≡ (err unauthorized, db)
  unfolding handle_invoice_callback
  untrusted_callback_is_refused token body now db h =
      >>=-err (verify_callback_token p token) (λ _. routed p body now body.external_id body.status)
        db (verify-untrusted token db h)

  abbrev pub says_paid : String → Bool
  says_paid status = str_eq (to_upper_case status) "PAID" || str_eq (to_upper_case status) "SETTLED"

  abbrev pub SameMoney : Db → Db → Type 0
  SameMoney db db' = (db'.wallets ≡ db.wallets) × (db'.ledger ≡ db.ledger)

  SameMoney-reads : {A : Type 0} (x : Result A × Db) (db : Db) → x.1 ≡ db → SameMoney db x.1
  SameMoney-reads x db e = rw e (refl, refl)

  update_pending-money :
      (id : ℕ) (f : TopUpIntent → TopUpIntent) (db : Db) → SameMoney db (update_pending id f db).1
  update_pending-money id f db = ground arith

  >>=-money :
      {A B : Type 0} (m : Action A) (f : A → Action B)
      → ((db : Db) → SameMoney db (m db).1)
      → ((a : A) (db : Db) → SameMoney db (f a db).1)
      → (db : Db) → SameMoney db ((m >>= f) db).1
  >>=-money {A} m f hm hf db = go (m db).0 (m db).1 (hm db)
    where
      go :
          (r : Result A) (db' : Db) → SameMoney db db' → SameMoney db (◌>>=◌ (λ _. (r, db')) f db).1
      go (ok a) db' s = ((hf a db').0 ∙ s.0, (hf a db').1 ∙ s.1)
      go (err e) db' s = s

  existing-money :
      (id : ℕ) (o : Option TopUpIntent) (db : Db) → SameMoney db (resolved_or_existing id o db).1
  existing-money id (some i) db = (refl, refl)
  existing-money id none db = ground arith

  resolve-money :
      (id : ℕ) (st : TopUpIntentStatus) (now : ℕ) (db : Db)
      → SameMoney db (resolve_intent_without_credit is_valid_object_id id st now db).1
  unfolding resolve_intent_without_credit
  resolve-money id st now =
      >>=-money (throw_if (not (is_valid_object_id id)) not_found) _ (λ db. (refl, refl))
        (λ _.
          >>=-money (update_pending id _) (resolved_or_existing id) (update_pending-money id _)
            (existing-money id))

  if-money :
      {A : Type 0} (t : Bool) (m n : Action A)
      → ((db : Db) → SameMoney db (m db).1)
      → ((db : Db) → SameMoney db (n db).1)
      → (db : Db) → SameMoney db ((if t then m else n) db).1
  if-money true m n hm hn = hm
  if-money false m n hm hn = hn

  abbrev without_credit : ℕ → ℕ → Action (Acknowledged p)
  without_credit id now =
      resolve_intent_without_credit is_valid_object_id id expired now >>= λ i. pure none

  without_credit-money : (id now : ℕ) (db : Db) → SameMoney db (without_credit id now db).1
  without_credit-money id now =
      >>=-money (resolve_intent_without_credit is_valid_object_id id expired now) (λ i. pure none)
        (resolve-money id expired now) (λ i db. (refl, refl))

  dispatch-money :
      (body : XenditInvoiceCallback p) (id : ℕ) (status : String) (now : ℕ) (db : Db)
      → (str_eq status "PAID" || str_eq status "SETTLED") ≡ false
      → SameMoney db (dispatch p body id status now db).1
  unfolding dispatch
  dispatch-money body id status now db h = rw h (
      if-money (str_eq status "EXPIRED") (without_credit id now) (pure none)
        (without_credit-money id now) (λ db. (refl, refl)) db)

  routed-money :
      (body : XenditInvoiceCallback p) (now : ℕ) (id : Option ℕ) (status : Option String)
      → (elim status [ none ↦ false | some s ↦ says_paid s ]) ≡ false
      → (db : Db) → SameMoney db (routed p body now id status db).1
  routed-money body now none status h db = (refl, refl)
  routed-money body now (some id) none h db = (refl, refl)
  routed-money body now (some id) (some status) h db =
      if-money (str_eq (to_upper_case status) "") (throw bad_request)
        (dispatch p body id (to_upper_case status) now) (λ db. (refl, refl))
        (λ db. dispatch-money body id (to_upper_case status) now db h) db

  -- A callback whose status is absent, or is neither PAID nor SETTLED in upper case, changes no
  -- wallet and no ledger row, whatever its token.
  only_paid_moves_money :
      (token : Option String) (body : XenditInvoiceCallback p) (now : ℕ) (db : Db)
      → (elim body.status [ none ↦ false | some s ↦ says_paid s ]) ≡ false
      → SameMoney db (handle_invoice_callback p token body now db).1
  unfolding handle_invoice_callback verify_callback_token
  only_paid_moves_money token body now db h =
      >>=-money (verify_callback_token p token)
        (λ _. routed p body now body.external_id body.status)
        (λ db. SameMoney-reads (verify_callback_token p token db) db (ground arith))
        (λ _. routed-money body now body.external_id body.status h) db
