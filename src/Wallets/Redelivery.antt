-- ===== src/Wallets/Redelivery.antt =====
-- Repeated deliveries of one payment (`postVerifiedTopUp` of src/wallets/wallets.service.ts).

use lalaba_backend_showcase.Wallets.Books.{checked_intent-reads}
use lalaba_backend_showcase.Wallets.Deliveries.{
  claimed_db, is_credited, settle-missing_wallet, settle-duplicate, settle-credits,
}
use lalaba_backend_showcase.Wallets.Payments.{
  Result-cases, pair_eq, checked_intent-found, post-matching, post-refused,
}
use lalaba_backend_showcase.Base.{
  ℕ, ◌≡◌, refl, subst, ◌∙◌, ap, ◌⊎◌, Bool, true, false, some, List, [], ◌∷◌, Bool-cases,
  Option-cases, inl, inr,
}
use lalaba_backend_showcase.Base.Keyed.{find, find-update_self}
use lalaba_backend_showcase.Wallets.State.{
  Wallet, TopUpIntent, TopUpIntentStatus, pending, succeeded, failed, expired, Db, ok, err, Failure,
  not_found,
}
use lalaba_backend_showcase.Wallets.Store.{is_pending}
use lalaba_backend_showcase.Wallets.TopUps.{
  PostTopUpResult, VerifiedTopUpEvent, claim, settle, post_by_status, checked_intent,
  post_verified_top_up,
}
use lalaba_backend_showcase.Wallets.Credit.{posted_db}

-- The payment of the intent needs no more posting: the intent is resolved, or its row is there.
abbrev pub IsSettled : ℕ → Db → Type 0
IsSettled id db =
    (j : TopUpIntent) × (find id db.intents ≡ some j)
    × ((is_pending j.status ≡ false) ⊎ (is_credited id j db ≡ true))

-- What `settle` can come to for the intent as it is.
data Outcome (id : ℕ) (i : TopUpIntent) (event : VerifiedTopUpEvent) (now : ℕ) (db : Db)
    : Type 0 where
  no_wallet : settle id i event now db ≡ (err not_found, db) → Outcome id i event now db
  posted_before :
      is_credited id i db ≡ true
      → settle id i event now db ≡ (ok (record { already_posted = true; intent = some i }), db)
      → Outcome id i event now db
  posted :
      (w : Wallet)
      → settle id i event now db ≡ (
        ok (record { already_posted = false; intent = some (claim event now i) }),
        posted_db id i now (claimed_db id event now db) w,
      )
      → Outcome id i event now db

outcome :
    (id : ℕ) (i : TopUpIntent) (event : VerifiedTopUpEvent) (now : ℕ) (db : Db)
    → find id db.intents ≡ some i
    → is_pending i.status ≡ true
    → Outcome id i event now db
outcome id i event now db found waits = elim (Option-cases (find i.branch_id db.wallets)) [
  | inl absent ↦ no_wallet (settle-missing_wallet id i i event now db found waits absent)
  | inr (w, there) ↦ elim (Bool-cases (is_credited id i db)) [
    | inl dup ↦ posted_before dup (settle-duplicate id i i event now db w found waits there dup)
    | inr new ↦ posted w (settle-credits id i i event now db w found waits there new)
  ]
]

settle-settled :
    (id : ℕ) (i : TopUpIntent) (event : VerifiedTopUpEvent) (now : ℕ) (db : Db)
    → find id db.intents ≡ some i
    → is_pending i.status ≡ true
    → is_credited id i db ≡ true
    → (settle id i event now db).1 ≡ db
settle-settled id i event now db found waits dup =
    elim (Option-cases (find i.branch_id db.wallets)) [
      | inl absent ↦ ap (λ x. x.1) (settle-missing_wallet id i i event now db found waits absent)
      | inr (w, there) ↦
          ap (λ x. x.1) (settle-duplicate id i i event now db w found waits there dup)
    ]

by_status-settled :
    (st : TopUpIntentStatus) (id : ℕ) (i : TopUpIntent) (event : VerifiedTopUpEvent) (now : ℕ)
    (db : Db)
    → i.status ≡ st
    → find id db.intents ≡ some i
    → ((is_pending i.status ≡ false) ⊎ (is_credited id i db ≡ true))
    → (post_by_status st id i event now db).1 ≡ db
by_status-settled succeeded id i event now db e found s = refl
by_status-settled failed id i event now db e found s = refl
by_status-settled expired id i event now db e found s = refl
by_status-settled pending id i event now db e found (inl done) = cc
by_status-settled pending id i event now db e found (inr dup) =
    settle-settled id i event now db found (rw e refl) dup

-- A delivery that returned has settled the intent; one that threw has written nothing.
by_status-effect :
    (st : TopUpIntentStatus) (id : ℕ) (i : TopUpIntent) (event : VerifiedTopUpEvent) (now : ℕ)
    (db : Db)
    → i.status ≡ st
    → find id db.intents ≡ some i
    → ((r : PostTopUpResult)
        → (post_by_status st id i event now db).0 ≡ ok r
        → IsSettled id (post_by_status st id i event now db).1)
      × ((e : Failure)
          → (post_by_status st id i event now db).0 ≡ err e
          → (post_by_status st id i event now db).1 ≡ db)
by_status-effect succeeded id i event now db e found =
    ((λ r h. (i, found, inl (rw e refl))), λ x h. refl)
by_status-effect failed id i event now db e found = ((λ r h. cc), λ x h. refl)
by_status-effect expired id i event now db e found = ((λ r h. cc), λ x h. refl)
by_status-effect pending id i event now db e found =
    elim (outcome id i event now db found (rw e refl)) [
      | no_wallet eq ↦ rw eq ((λ r h. cc), λ x h. refl)
      | posted_before dup eq ↦ rw eq ((λ r h. (i, found, inr dup)), λ x h. refl)
      | posted w eq ↦ rw eq (
        (λ r h. (
          claim event now i,
          find-update_self id (claim event now) i db.intents found,
          inl refl,
        )),
        λ x h. cc,
      )
    ]

module _ (is_valid_object_id : ℕ → Bool) where
  -- A delivery is the event and its time.
  pub deliver_all : ℕ → List (VerifiedTopUpEvent × ℕ) → Db → Db
  deliver_all id [] db = db
  deliver_all id ((event, now) ∷ ds) db =
      deliver_all id ds (post_verified_top_up is_valid_object_id id event now db).1

  checked :
      (id : ℕ) (event : VerifiedTopUpEvent) (i : TopUpIntent) (db : Db)
      → (checked_intent is_valid_object_id id event db).0 ≡ ok i
      → checked_intent is_valid_object_id id event db ≡ (ok i, db)
  checked id event i db h = pair_eq _ h (checked_intent-reads is_valid_object_id id event db)

  settled-post :
      (id : ℕ) (event : VerifiedTopUpEvent) (now : ℕ) (db : Db)
      → IsSettled id db
      → (post_verified_top_up is_valid_object_id id event now db).1 ≡ db
  settled-post id event now db (j, found, s) =
      elim (Result-cases (checked_intent is_valid_object_id id event db).0) [
        | inl (e, h) ↦ ap (λ x. x.1) (post-refused is_valid_object_id id event now e db h)
        | inr (i, h) ↦
            let there = checked_intent-found is_valid_object_id id event i db h in
            let same : j ≡ i = cc in
            ap (λ x. x.1)
              (post-matching is_valid_object_id id event now i db (checked id event i db h))
            ∙ by_status-settled i.status id i event now db refl there
                (subst (λ k. (is_pending k.status ≡ false) ⊎ (is_credited id k db ≡ true)) same s)
      ]

  post-effect :
      (id : ℕ) (event : VerifiedTopUpEvent) (now : ℕ) (db : Db)
      → ((r : PostTopUpResult)
          → (post_verified_top_up is_valid_object_id id event now db).0 ≡ ok r
          → IsSettled id (post_verified_top_up is_valid_object_id id event now db).1)
        × ((e : Failure)
            → (post_verified_top_up is_valid_object_id id event now db).0 ≡ err e
            → (post_verified_top_up is_valid_object_id id event now db).1 ≡ db)
  post-effect id event now db =
      elim (Result-cases (checked_intent is_valid_object_id id event db).0) [
        | inl (e, h) ↦
            rw (post-refused is_valid_object_id id event now e db h) ((λ r h. cc), λ x h. refl)
        | inr (i, h) ↦
            rw (post-matching is_valid_object_id id event now i db (checked id event i db h)) (
              by_status-effect i.status id i event now db refl
                (checked_intent-found is_valid_object_id id event i db h))
      ]

  -- A payment that is refused, whatever the reason, leaves the database as it was.
  pub refused_payment_writes_nothing :
      (id : ℕ) (event : VerifiedTopUpEvent) (now : ℕ) (e : Failure) (db : Db)
      → (post_verified_top_up is_valid_object_id id event now db).0 ≡ err e
      → (post_verified_top_up is_valid_object_id id event now db).1 ≡ db
  refused_payment_writes_nothing id event now e db = (post-effect id event now db).1 e

  settled_deliveries :
      (id : ℕ) (ds : List (VerifiedTopUpEvent × ℕ)) (db : Db)
      → IsSettled id db
      → deliver_all id ds db ≡ db
  unfolding deliver_all
  settled_deliveries id [] db s = refl
  settled_deliveries id ((event, now) ∷ ds) db s =
      let same = settled-post id event now db s in
      ap (deliver_all id ds) same ∙ settled_deliveries id ds db s

  -- After a delivery for an intent that returned, any further deliveries for the intent, with
  -- whatever events, change nothing in the database.
  pub later_deliveries_change_nothing :
      (id : ℕ) (event : VerifiedTopUpEvent) (now : ℕ) (r : PostTopUpResult)
      (ds : List (VerifiedTopUpEvent × ℕ)) (db : Db)
      → (post_verified_top_up is_valid_object_id id event now db).0 ≡ ok r
      → deliver_all id ds (post_verified_top_up is_valid_object_id id event now db).1
        ≡ (post_verified_top_up is_valid_object_id id event now db).1
  later_deliveries_change_nothing id event now r ds db h =
      settled_deliveries id ds (post_verified_top_up is_valid_object_id id event now db).1
        ((post-effect id event now db).0 r h)
