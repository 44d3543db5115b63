-- ===== src/Promotions/Redeeming.antt =====
-- The writes of src/promotions/promotions.service.ts that take a slot: `createRedemption`, which
-- `redeem` and `reserve` share, `findPlatformFeePromoFor` and `reserveForBranch`.
use Prim.Native.String.{String}
use text.Mathlib.Text.{◌==◌ as str_eq}
use lalaba_backend_showcase.Base.{
  ℕ, suc, ◌+◌, max, Bool, true, false, not, ◌&&◌, Option, none, some, [], ◌∷◌, ◌==◌, ltb, leb,
  if◌then◌else◌, or_else, is_some,
}
use lalaba_backend_showcase.Base.Int.{ℤ, pos, ◌+ℤ◌}
use lalaba_backend_showcase.Base.Keyed.{Keyed, find, update, insert}
use lalaba_backend_showcase.Orders.Order.{
  OrderDb, PromoRedemption, PromoRedemptionStatus, reserved, redeemed,
}
use lalaba_backend_showcase.Promotions.Codes.{
  PromoCode, PromoScope, platform_fee, InvalidReason, PromoValidation, invalid, valid, Accounts,
  validate_against, at_cap, cap_per_subject, is_live, includes_role,
}

pub record RedeemPromoInput : Type 0 where
  pub code : String
  pub customer_uid : String
  pub order_total_centavos : ℕ
  pub order_id : Option ℕ

pub data Redeemed : Type 0 where
  code_not_found just_fully_redeemed : Redeemed
  not_valid : InvalidReason → Redeemed
  created : PromoRedemption → Redeemed

-- `findOne({ code })`
abbrev pub by_code : String → Keyed PromoCode → Option (ℕ × PromoCode)
by_code code [] = none
by_code code ((id, promo) ∷ ps) =
    if str_eq promo.code code then some (id, promo) else by_code code ps

-- `findOneAndUpdate(capFilter, { $inc: { redemptionCount: 1 } })`, or `none` where nothing matches.
unfoldable pub claim_slot : ℕ → Option ℕ → OrderDb → Option OrderDb
claim_slot promo_id cap db = elim (find promo_id db.counts) [
  | none ↦ none
  | some n ↦
      if at_cap cap n
      then none
      else some (record db { counts = update promo_id (λ k. k +ℤ pos 1) db.counts })
]

-- An id that no row has.
abbrev pub next_id : Keyed PromoRedemption → ℕ
next_id [] = 0
next_id ((k, r) ∷ rs) = max (suc k) (next_id rs)

abbrev pub with_row : ℕ → PromoRedemption → OrderDb → OrderDb
with_row id r db = record db { redemptions = insert id r db.redemptions }

abbrev pub row_of : RedeemPromoInput → ℕ → ℕ → PromoRedemptionStatus → PromoRedemption
row_of input promo_id discount status = record {
  order_id = input.order_id;
  promo_id = promo_id;
  customer_uid = input.customer_uid;
  branch_id = none;
  discount_applied_centavos = pos discount;
  status = status;
  released_at = none;
}

-- The transaction: the slot, and the row under a fresh id.
unfoldable pub commit_redemption :
    RedeemPromoInput
    → PromoRedemptionStatus
    → ℕ
    → ℕ × PromoCode
    → PromoValidation
    → OrderDb
    → Redeemed × OrderDb
unfolding claim_slot
commit_redemption input status id (promo_id, promo) (invalid reason) db = (not_valid reason, db)
commit_redemption input status id (promo_id, promo) (valid discount) db =
    elim (claim_slot promo_id promo.usage_cap_total db) [
      | none ↦ (just_fully_redeemed, db)
      | some db' ↦ let r = row_of input promo_id discount status in (created r, with_row id r db')
    ]

-- What the code was checked against (`seen`) was read before the transaction, which runs on `db`.
unfoldable pub create_redemption :
    Accounts
    → (String → String)
    → Keyed PromoCode
    → RedeemPromoInput
    → PromoRedemptionStatus
    → ℕ
    → ℕ
    → OrderDb
    → OrderDb
    → Redeemed × OrderDb
unfolding commit_redemption
create_redemption accounts trimmed_upper promos input status id now seen db =
    elim (by_code (trimmed_upper input.code) promos) [
      | none ↦ (code_not_found, db)
      | some (promo_id, promo) ↦
          commit_redemption input status id (promo_id, promo)
            (validate_against accounts promo_id promo input.customer_uid input.order_total_centavos
              now seen)
            db
    ]

abbrev pub redeem :
    Accounts
    → (String → String)
    → Keyed PromoCode
    → RedeemPromoInput
    → ℕ
    → ℕ
    → OrderDb
    → OrderDb
    → Redeemed × OrderDb
redeem accounts trimmed_upper promos input id now seen db =
    create_redemption accounts trimmed_upper promos input redeemed id now seen db

abbrev pub reserve :
    Accounts
    → (String → String)
    → Keyed PromoCode
    → RedeemPromoInput
    → ℕ
    → ℕ
    → OrderDb
    → OrderDb
    → Redeemed × OrderDb
reserve accounts trimmed_upper promos input id now seen db =
    create_redemption accounts trimmed_upper promos input reserved id now seen db

-- `countDocuments({ promoId, subjectId, status: { $ne: RELEASED } })`
abbrev pub is_branch : Option ℕ → ℕ → Bool
is_branch none branch_id = false
is_branch (some b) branch_id = b == branch_id

unfoldable pub used_by_branch : ℕ → ℕ → Keyed PromoRedemption → ℕ
used_by_branch promo_id branch_id [] = 0
used_by_branch promo_id branch_id ((id, r) ∷ rs) =
    let rest = used_by_branch promo_id branch_id rs in
    if (r.promo_id == promo_id) && is_branch r.branch_id branch_id && is_live r.status
    then 1 + rest
    else rest

abbrev pub is_platform_fee : Option PromoScope → Bool
is_platform_fee (some platform_fee) = true
is_platform_fee _ = false

abbrev pub has_ended : Option ℕ → ℕ → Bool
has_ended none now = false
has_ended (some at) now = leb at now

-- The query for candidates.
abbrev pub is_candidate : String → ℕ → PromoCode → Bool
is_candidate role now promo =
    promo.is_active
    && is_platform_fee promo.scope
    && includes_role promo.target_role_ids role
    && leb promo.starts_at now
    && not (has_ended promo.expires_at now)

abbrev pub has_room : ℕ → ℕ → PromoCode → OrderDb → Bool
has_room branch_id promo_id promo db =
    not (at_cap promo.usage_cap_total (or_else (find promo_id db.counts) (pos 0)))
    && ltb (used_by_branch promo_id branch_id db.redemptions) (cap_per_subject promo)

-- Sorted by `createdAt` with the newest first, which is the reverse of the order of insertion.
unfoldable pub find_platform_fee_promo_for :
    String → ℕ → ℕ → Keyed PromoCode → OrderDb → Option (ℕ × PromoCode)
unfolding used_by_branch
find_platform_fee_promo_for role branch_id now [] db = none
find_platform_fee_promo_for role branch_id now ((id, promo) ∷ ps) db =
    let newer = find_platform_fee_promo_for role branch_id now ps db in
    if is_some newer
    then newer
    else if is_candidate role now promo && has_room branch_id id promo db
    then some (id, promo)
    else none

pub record BranchReservation : Type 0 where
  pub promo_id : ℕ
  pub branch_id : ℕ
  pub order_id : ℕ
  pub actor_uid : String
  pub discount_centavos : ℤ

abbrev pub branch_row : BranchReservation → PromoRedemption
branch_row input = record {
  order_id = some input.order_id;
  promo_id = input.promo_id;
  customer_uid = input.actor_uid;
  branch_id = some input.branch_id;
  discount_applied_centavos = input.discount_centavos;
  status = reserved;
  released_at = none;
}

unfoldable pub reserve_for_branch :
    Keyed PromoCode → BranchReservation → ℕ → OrderDb → Option PromoRedemption × OrderDb
unfolding claim_slot
reserve_for_branch promos input id db = elim (find input.promo_id promos) [
  | none ↦ (none, db)
  | some promo ↦ elim (claim_slot input.promo_id promo.usage_cap_total db) [
    | none ↦ (none, db)
    | some db' ↦ (some (branch_row input), with_row id (branch_row input) db')
  ]
]
