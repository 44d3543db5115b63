-- ===== src/Orders/Order.antt =====
-- The order document, its event log and its promo reservations, as far as a transition touches them
-- (src/online-orders/online-orders.service.ts, src/promotions/promotions.service.ts).
use Prim.Native.String.{String}
use lalaba_backend_showcase.Base.{
  ℕ, ◌-◌, Bool, true, false, ◌&&◌, Option, none, some, List, [], ◌∷◌, ◌==◌, if◌then◌else◌, or_else,
}
use lalaba_backend_showcase.Base.Int.{ℤ, pos, ◌-ℤ◌}
use lalaba_backend_showcase.Base.Keyed.{Keyed, find, update}
use lalaba_backend_showcase.Orders.Status.{OrderStatus}
use lalaba_backend_showcase.Pricing.Legs.{TurnaroundTierCode}

pub record Turnaround : Type 0 where
  pub tier_code : TurnaroundTierCode
  pub sla_hours : Option ℕ
  pub promised_completion_at : Option ℕ

-- `OnlineOrder`: the fields that a transition reads or writes. Times are milliseconds, amounts are
-- whole centavos.
pub record Order : Type 0 where
  pub status : OrderStatus
  pub version : ℕ
  pub turnaround : Option Turnaround
  pub abandonment_deadline_at : Option ℕ
  pub customer_total_centavos : Option ℕ
  pub amount_collected_centavos : Option ℕ
  pub promo_code : Option String
  pub platform_fee_promo_id : Option ℕ

pub record OrderEvent : Type 0 where
  pub order_id : ℕ
  pub sequence : ℕ
  pub from_status : OrderStatus
  pub to_status : OrderStatus
  pub actor_uid : String
  pub actor_role : String
  pub note : Option String

pub data PromoRedemptionStatus : Type 0 where
  reserved redeemed released : PromoRedemptionStatus

-- `branch_id` is `subjectId`, which only the redemption of a branch has.
pub record PromoRedemption : Type 0 where
  pub order_id : Option ℕ
  pub promo_id : ℕ
  pub customer_uid : String
  pub branch_id : Option ℕ
  pub discount_applied_centavos : ℤ
  pub status : PromoRedemptionStatus
  pub released_at : Option ℕ

-- `counts` is the `redemptionCount` of each promotion.
pub record OrderDb : Type 0 where
  pub orders : Keyed Order
  pub events : List OrderEvent
  pub redemptions : Keyed PromoRedemption
  pub counts : Keyed ℤ

abbrev pub outstanding_centavos : Order → ℕ
outstanding_centavos o = or_else o.customer_total_centavos 0 - or_else o.amount_collected_centavos 0

abbrev pub is_reserved : PromoRedemptionStatus → Bool
is_reserved reserved = true
is_reserved _ = false

abbrev pub is_of : ℕ → Option ℕ → Bool
is_of order_id none = false
is_of order_id (some id) = id == order_id

-- `updateMany({ orderId, status: RESERVED }, …)`
abbrev pub settled_row : ℕ → PromoRedemption → PromoRedemption
settled_row order_id r =
    if is_of order_id r.order_id && is_reserved r.status then record r { status = redeemed } else r

abbrev pub settle_rows : ℕ → Keyed PromoRedemption → Keyed PromoRedemption
settle_rows order_id [] = []
settle_rows order_id ((id, r) ∷ rs) = (id, settled_row order_id r) ∷ settle_rows order_id rs

unfoldable pub settle_for_order : ℕ → OrderDb → OrderDb
settle_for_order order_id db = record db { redemptions = settle_rows order_id db.redemptions }

-- `find({ orderId, status: RESERVED })`
abbrev pub held : ℕ → Keyed PromoRedemption → List (ℕ × PromoRedemption)
held order_id [] = []
held order_id ((id, r) ∷ rs) =
    if is_of order_id r.order_id && is_reserved r.status
    then (id, r) ∷ held order_id rs
    else held order_id rs

-- One turn of the loop: the row is flipped if it is still reserved, and then its promotion counts
-- one redemption less.
abbrev pub release_row : ℕ → ℕ → PromoRedemption → OrderDb → OrderDb
release_row now id row db = elim (find id db.redemptions) [
  | none ↦ db
  | some r ↦
      if is_reserved r.status
      then record db {
        redemptions =
            update id (λ r. record r { status = released; released_at = some now }) db.redemptions;
        counts = update row.promo_id (λ n. n -ℤ pos 1) db.counts;
      }
      else db
]

abbrev pub release_rows : ℕ → List (ℕ × PromoRedemption) → OrderDb → OrderDb
release_rows now [] db = db
release_rows now ((id, row) ∷ rows) db = release_rows now rows (release_row now id row db)

unfoldable pub release_for_order : ℕ → ℕ → OrderDb → OrderDb
release_for_order order_id now db = release_rows now (held order_id db.redemptions) db
