-- ===== src/Promotions/Races.antt =====
-- The cap of one customer, which is checked before the transaction, and the choice among the
-- promotions of a branch (src/promotions/promotions.service.ts).
use Prim.Native.String.{String}
use text.Mathlib.Text.{◌==◌ as str_eq}
use lalaba_backend_showcase.Base.{
  ℕ, suc, ◌<◌, ◌≡◌, refl, ap, ◌∙◌, true, none, some, [], ◌∷◌, ◌++◌, arith,
}
use lalaba_backend_showcase.Base.Int.{ℤ, pos, ◌+ℤ◌}
use lalaba_backend_showcase.Base.Keyed.{Keyed, find, update, insert, find-update_self}
use lalaba_backend_showcase.Orders.Order.{OrderDb, PromoRedemption, redeemed}
use lalaba_backend_showcase.Promotions.Codes.{
  PromoCode, valid, Accounts, cap_per_subject, is_live, used_by_customer, validate_against,
}
use lalaba_backend_showcase.Promotions.Redeeming.{
  RedeemPromoInput, Redeemed, created, by_code, claim_slot, with_row, row_of, commit_redemption,
  create_redemption, redeem, is_candidate, has_room, find_platform_fee_promo_for,
}

used_by_customer-insert :
    (p id : ℕ) (uid : String) (r : PromoRedemption) (rs : Keyed PromoRedemption)
    → r.promo_id ≡ p
    → str_eq r.customer_uid uid ≡ true
    → is_live r.status ≡ true
    → used_by_customer p uid (insert id r rs) ≡ suc (used_by_customer p uid rs)
unfolding used_by_customer
used_by_customer-insert p id uid r [] own same live = ground arith
used_by_customer-insert p id uid r (x ∷ rs) own same live =
    ground (arith, used_by_customer-insert p id uid r rs)

module _ (accounts : Accounts) (trimmed_upper : String → String) (promos : Keyed PromoCode) where
  -- What a redemption that is let through leaves, where the promotion has no cap in all.
  redeem-runs :
      (input : RedeemPromoInput) (id now p discount : ℕ) (promo : PromoCode) (n : ℤ)
      (seen db : OrderDb)
      → by_code (trimmed_upper input.code) promos ≡ some (p, promo)
      → validate_against accounts p promo input.customer_uid input.order_total_centavos now seen
        ≡ valid discount
      → promo.usage_cap_total ≡ none
      → find p db.counts ≡ some n
      → redeem accounts trimmed_upper promos input id now seen db ≡ (
        created (row_of input p discount redeemed),
        with_row id
            (row_of input p discount redeemed)
            (record db { counts = update p (λ k. k +ℤ pos 1) db.counts }),
      )
  unfolding create_redemption commit_redemption claim_slot
  redeem-runs input id now p discount promo n seen db code check free count =
      rw (create_redemption, code, commit_redemption, check, claim_slot, count, free) refl

  -- The cap of one customer can be passed: where she may use a code once more, the code has no cap
  -- in all, and two redemptions of hers were both checked before either was written, both are
  -- created, and she has used the code more often than its cap for one customer.
  pub customer_cap_is_raced :
      (input : RedeemPromoInput) (id id' now p discount : ℕ) (promo : PromoCode) (n : ℤ)
      (db : OrderDb)
      → by_code (trimmed_upper input.code) promos ≡ some (p, promo)
      → validate_against accounts p promo input.customer_uid input.order_total_centavos now db
        ≡ valid discount
      → promo.usage_cap_total ≡ none
      → find p db.counts ≡ some n
      → suc (used_by_customer p input.customer_uid db.redemptions) ≡ cap_per_subject promo
      → str_eq input.customer_uid input.customer_uid ≡ true
      → let first = redeem accounts trimmed_upper promos input id now db db in
        let second = redeem accounts trimmed_upper promos input id' now db first.1 in
        (first.0 ≡ created (row_of input p discount redeemed))
        × (second.0 ≡ created (row_of input p discount redeemed))
        × (cap_per_subject promo < used_by_customer p input.customer_uid second.1.redemptions)
  customer_cap_is_raced input id id' now p discount promo n db code check free count last same =
      let r = row_of input p discount redeemed in
      let db1 : OrderDb =
        with_row id r (record db { counts = update p (λ k. k +ℤ pos 1) db.counts }) in
      let one = redeem-runs input id now p discount promo n db db code check free count in
      let again =
        redeem-runs input id' now p discount promo (n +ℤ pos 1) db db1 code check free
          (find-update_self p (λ k. k +ℤ pos 1) n db.counts count) in
      let two =
        ap (λ (x : Redeemed × OrderDb). redeem accounts trimmed_upper promos input id' now db x.1)
          one
        ∙ again in
      let used1 = used_by_customer-insert p id input.customer_uid r db.redemptions refl same refl in
      let used2 =
        used_by_customer-insert p id' input.customer_uid r db1.redemptions refl same refl in
      let used =
        ap (λ (x : Redeemed × OrderDb). used_by_customer p input.customer_uid x.1.redemptions) two
        ∙ used2 in
      (
        ap (λ (x : Redeemed × OrderDb). x.0) one,
        ap (λ (x : Redeemed × OrderDb). x.0) two,
        omega (arith, used, used1, last),
      )

-- The newest promotion of all is taken where the branch may use it, whatever it and the older ones
-- are worth.
newest_fee_promo :
    (role : String) (branch_id now id : ℕ) (promo : PromoCode) (older : Keyed PromoCode)
    (db : OrderDb)
    → is_candidate role now promo ≡ true
    → has_room branch_id id promo db ≡ true
    → find_platform_fee_promo_for role branch_id now (older ++ (id, promo) ∷ []) db
      ≡ some (id, promo)
unfolding find_platform_fee_promo_for
newest_fee_promo role branch_id now id promo [] db c r = rw (c, r) refl
newest_fee_promo role branch_id now id promo (x ∷ older) db c r =
    rw (newest_fee_promo role branch_id now id promo older db c r) refl
