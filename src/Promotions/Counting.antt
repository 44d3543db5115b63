-- ===== src/Promotions/Counting.antt =====
-- The writes that take a slot, or settle one, keep the counters
-- (src/promotions/promotions.service.ts).
use Prim.Native.String.{String}
use text.Mathlib.Text.{◌==◌ as str_eq}
use lalaba_backend_showcase.Base.{
  ℕ, ◌≤◌, ◌≡◌, refl, sym, ap, ◌∙◌, true, false, Option, none, some, [], ◌∷◌, ◌==◌, arith, inl, inr,
  Bool-cases, Option-cases, ==_iff, subst,
}
use lalaba_backend_showcase.Base.Int.{pos}
use lalaba_backend_showcase.Base.Keyed.{Keyed, find, IsUnique}
use lalaba_backend_showcase.Orders.Order.{OrderDb, PromoRedemptionStatus, settle_for_order}
use lalaba_backend_showcase.Promotions.Codes.{
  PromoCode, PromoValidation, invalid, valid, Accounts, at_cap, is_live, validate_against,
}
use lalaba_backend_showcase.Promotions.Redeeming.{
  RedeemPromoInput, Redeemed, code_not_found, by_code, claim_slot, row_of, commit_redemption,
  create_redemption, BranchReservation, branch_row, reserve_for_branch, next_id,
}
use lalaba_backend_showcase.Promotions.Slots.{slots_taken-settle}
use lalaba_backend_showcase.Promotions.Counted.{IsCounted, settle-IsUnique, taken-IsCounted}

module _ (promos : Keyed PromoCode) where
  commit-IsCounted :
      (input : RedeemPromoInput) (status : PromoRedemptionStatus) (q : ℕ) (promo : PromoCode)
      (v : PromoValidation) (db : OrderDb)
      → IsCounted promos db
      → find q promos ≡ some promo
      → is_live status ≡ true
      → IsCounted promos (commit_redemption input status (next_id db.redemptions) (q, promo) v db).1
  unfolding commit_redemption claim_slot
  commit-IsCounted input status q promo (invalid reason) db c there live = c
  commit-IsCounted input status q promo (valid discount) db c there live =
      elim (Option-cases (find q db.counts)) [
        | inl none_there ↦ rw (none_there, commit_redemption) c
        | inr (n, count) ↦ elim (Bool-cases (at_cap promo.usage_cap_total n)) [
          | inl full ↦ rw (count, commit_redemption, full) c
          | inr room ↦
              rw (count, commit_redemption, room)
                (taken-IsCounted promos q promo n (row_of input q discount status) db c there count
                  room refl live)
        ]
      ]

  by_code-find :
      (code : String) (ps : Keyed PromoCode) (q : ℕ) (promo : PromoCode)
      → IsUnique ps
      → by_code code ps ≡ some (q, promo)
      → find q ps ≡ some promo
  by_code-find code [] q promo u h = cc
  by_code-find code ((j, x) ∷ ps) q promo u h = elim (Bool-cases (str_eq x.code code)) [
    | inl e ↦
        let same : (j, x) ≡ (q, promo) = ground arith in
        let key : j ≡ q = ap (λ (y : ℕ × PromoCode). y.0) same in
        let doc : x ≡ promo = ap (λ (y : ℕ × PromoCode). y.1) same in
        let hit : (q == j) ≡ true = (==_iff q j).1 (sym key) in rw hit (ap some doc)
    | inr e ↦
        let rest = by_code-find code ps q promo u.1 (ground arith) in
        let ne : (q == j) ≡ false = elim (Bool-cases (q == j)) [
          | inl k ↦ cc (ap (λ i. find i ps) ((==_iff q j).0 k), u.0, rest)
          | inr k ↦ k
        ] in
        rw ne rest
  ]

  pub create-IsCounted :
      (accounts : Accounts) (trimmed_upper : String → String) (input : RedeemPromoInput)
      (status : PromoRedemptionStatus) (now : ℕ) (seen db : OrderDb)
      → IsUnique promos
      → is_live status ≡ true
      → IsCounted promos db
      → IsCounted promos
          (create_redemption accounts trimmed_upper promos input status
            (next_id db.redemptions)
            now
            seen
            db).1
  unfolding create_redemption
  create-IsCounted accounts trimmed_upper input status now seen db u live c =
      go (by_code (trimmed_upper input.code) promos) refl
    where
      go :
          (o : Option (ℕ × PromoCode))
          → by_code (trimmed_upper input.code) promos ≡ o
          → IsCounted promos
              (elim o as (λ _. Redeemed × OrderDb) [
                | none ↦ (code_not_found, db)
                | some (q, promo) ↦
                    commit_redemption input status
                      (next_id db.redemptions)
                      (q, promo)
                      (validate_against accounts q promo input.customer_uid
                        input.order_total_centavos now seen)
                      db
              ]).1
      go none e = c
      go (some (q, promo)) e =
          commit-IsCounted input status q promo _ db c (by_code-find _ promos q promo u e) live

  pub reserve_for_branch-IsCounted :
      (input : BranchReservation) (db : OrderDb)
      → IsCounted promos db
      → IsCounted promos (reserve_for_branch promos input (next_id db.redemptions) db).1
  unfolding reserve_for_branch claim_slot
  reserve_for_branch-IsCounted input db c = elim (Option-cases (find input.promo_id promos)) [
    | inl e ↦ rw (e, reserve_for_branch) c
    | inr (promo, there) ↦ elim (Option-cases (find input.promo_id db.counts)) [
      | inl e ↦ rw (there, reserve_for_branch, e) c
      | inr (n, count) ↦ elim (Bool-cases (at_cap promo.usage_cap_total n)) [
        | inl full ↦ rw (there, reserve_for_branch, count, full) c
        | inr room ↦
            rw (there, reserve_for_branch, count, room)
              (taken-IsCounted promos input.promo_id promo n (branch_row input) db c there count
                room refl refl)
      ]
    ]
  ]

  pub settle-IsCounted :
      (order_id : ℕ) (db : OrderDb)
      → IsCounted promos db
      → IsCounted promos (settle_for_order order_id db)
  unfolding settle_for_order
  settle-IsCounted order_id db c = record {
    unique = settle-IsUnique order_id db.redemptions c.unique;
    counted =
        λ p n h. c.counted p n h ∙ ap pos (sym (slots_taken-settle order_id p db.redemptions));
    capped = λ p cap promo there is_cap.
        subst (λ n. n ≤ cap) (sym (slots_taken-settle order_id p db.redemptions))
          (c.capped p cap promo there is_cap);
  }
