-- ===== src/Promotions/Codes.antt =====
-- A promotion code, and whether a customer may use it (src/promotions/schemas/promo-code.schema.ts,
-- `validateAgainst` and `computeDiscount` of src/promotions/promotions.service.ts).
use Prim.Native.String.{String}
use text.Mathlib.Text.{◌==◌ as str_eq}
use lalaba_backend_showcase.Base.{
  ℕ, ◌+◌, ◌*◌, ◌/◌, min, Bool, true, false, not, ◌&&◌, ◌||◌, Option, none, some, List, [], ◌∷◌,
  ◌==◌, ltb, leb, if◌then◌else◌, or_else,
}
use lalaba_backend_showcase.Base.Int.{ℤ, pos, leb_ℤ}
use lalaba_backend_showcase.Base.Keyed.{Keyed, find}
use lalaba_backend_showcase.Orders.Order.{OrderDb, PromoRedemption, PromoRedemptionStatus, released}

pub data PromoDiscountType : Type 0 where
  flat percentage waive : PromoDiscountType

pub data PromoScope : Type 0 where
  order_total platform_fee : PromoScope

-- `redemptionCount` stands in the `counts` of the database.
pub record PromoCode : Type 0 where
  pub code : String
  pub scope : Option PromoScope
  pub discount_type : PromoDiscountType
  pub discount_value : ℕ
  pub max_discount_centavos : Option ℕ
  pub min_order_value_centavos : Option ℕ
  pub target_role_ids : List String
  pub first_order_only : Bool
  pub usage_cap_total : Option ℕ
  pub usage_cap_per_customer : ℕ
  pub usage_cap_per_subject : Option ℕ
  pub starts_at : ℕ
  pub expires_at : Option ℕ
  pub is_active : Bool

pub data InvalidReason : Type 0 where
  turned_off not_active_yet expired fully_redeemed below_minimum account_not_found : InvalidReason
  wrong_account_type not_first_order used_up : InvalidReason

pub data PromoValidation : Type 0 where
  invalid : InvalidReason → PromoValidation
  valid : ℕ → PromoValidation

-- The other collections that are read: the role of an account, where there is one with that uid, and
-- whether a customer has an order.
pub record Accounts : Type 0 where
  pub role : String → Option (Option String)
  pub has_ordered : String → Bool

abbrev pub cap_per_subject : PromoCode → ℕ
cap_per_subject promo = or_else promo.usage_cap_per_subject promo.usage_cap_per_customer

abbrev pub is_live : PromoRedemptionStatus → Bool
is_live released = false
is_live _ = true

-- `countDocuments({ promoId, customerUid, status: { $ne: RELEASED } })`
unfoldable pub used_by_customer : ℕ → String → Keyed PromoRedemption → ℕ
used_by_customer promo_id uid [] = 0
used_by_customer promo_id uid ((id, r) ∷ rs) =
    let rest = used_by_customer promo_id uid rs in
    if (r.promo_id == promo_id) && str_eq r.customer_uid uid && is_live r.status
    then 1 + rest
    else rest

abbrev pub at_cap : Option ℕ → ℤ → Bool
at_cap none n = false
at_cap (some cap) n = leb_ℤ (pos cap) n

abbrev pub includes_role : List String → String → Bool
includes_role [] role = false
includes_role (r ∷ rs) role = str_eq r role || includes_role rs role

abbrev pub role_fault : PromoCode → Option (Option String) → Option InvalidReason
role_fault promo none = some account_not_found
role_fault promo (some none) = some wrong_account_type
role_fault promo (some (some role)) =
    if includes_role promo.target_role_ids role then none else some wrong_account_type

abbrev pub is_past : Option ℕ → ℕ → Bool
is_past none now = false
is_past (some at) now = ltb at now

abbrev pub is_below : Option ℕ → ℕ → Bool
is_below none total = false
is_below (some least) total = ltb total least

abbrev pub at_most : Option ℕ → ℕ → ℕ
at_most none n = n
at_most (some most) n = min n most

abbrev pub is_flat : PromoDiscountType → Bool
is_flat flat = true
is_flat _ = false

unfoldable pub compute_discount : PromoCode → ℕ → ℕ
compute_discount promo total =
    if is_flat promo.discount_type
    then min promo.discount_value total
    else min (at_most promo.max_discount_centavos (total * promo.discount_value / 100)) total

-- What the customer's own redemptions say, after everything else.
abbrev pub customer_fault :
    Accounts → ℕ → PromoCode → String → OrderDb → Option InvalidReason → Option InvalidReason
customer_fault accounts promo_id promo uid db (some fault) = some fault
customer_fault accounts promo_id promo uid db none =
    if promo.first_order_only && accounts.has_ordered uid
    then some not_first_order
    else if leb (cap_per_subject promo) (used_by_customer promo_id uid db.redemptions)
    then some used_up
    else none

abbrev pub with_discount : PromoCode → ℕ → Option InvalidReason → PromoValidation
with_discount promo total (some fault) = invalid fault
with_discount promo total none = valid (compute_discount promo total)

unfoldable pub validate_against :
    Accounts → ℕ → PromoCode → String → ℕ → ℕ → OrderDb → PromoValidation
validate_against accounts promo_id promo uid total now db =
    if not promo.is_active
    then invalid turned_off
    else if ltb now promo.starts_at
    then invalid not_active_yet
    else if is_past promo.expires_at now
    then invalid expired
    else if at_cap promo.usage_cap_total (or_else (find promo_id db.counts) (pos 0))
    then invalid fully_redeemed
    else if is_below promo.min_order_value_centavos total
    then invalid below_minimum
    else with_discount promo total
        (customer_fault accounts promo_id promo uid db (role_fault promo (accounts.role uid)))
