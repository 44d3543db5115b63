-- ===== src/Promotions/Slots.antt =====
-- The slots of a promotion that are taken: the redemptions of it that were not released, as each write
-- of src/promotions/promotions.service.ts changes them.
use lalaba_backend_showcase.Base.{
  ℕ, ◌+◌, ◌≡◌, refl, Bool, true, false, ◌&&◌, some, [], ◌∷◌, ◌==◌, if◌then◌else◌, arith,
}
use lalaba_backend_showcase.Base.Keyed.{Keyed, find, update, insert}
use lalaba_backend_showcase.Orders.Order.{
  PromoRedemption, released, is_reserved, settled_row, settle_rows,
}
use lalaba_backend_showcase.Promotions.Codes.{is_live}

abbrev pub takes : ℕ → PromoRedemption → Bool
takes p r = (r.promo_id == p) && is_live r.status

unfoldable pub slots_taken : ℕ → Keyed PromoRedemption → ℕ
slots_taken p [] = 0
slots_taken p ((id, r) ∷ rs) = let rest = slots_taken p rs in if takes p r then 1 + rest else rest

abbrev pub one_if : Bool → ℕ
one_if true = 1
one_if false = 0

pub slots_taken-insert :
    (p id : ℕ) (r : PromoRedemption) (rs : Keyed PromoRedemption)
    → slots_taken p (insert id r rs) ≡ slots_taken p rs + one_if (takes p r)
unfolding slots_taken
slots_taken-insert p id r [] = ground arith
slots_taken-insert p id r (x ∷ rs) = ground (arith, slots_taken-insert p id r rs)

settled-takes :
    (order_id p : ℕ) (r : PromoRedemption) → takes p (settled_row order_id r) ≡ takes p r
settled-takes order_id p r = ground arith

pub slots_taken-settle :
    (order_id p : ℕ) (rs : Keyed PromoRedemption)
    → slots_taken p (settle_rows order_id rs) ≡ slots_taken p rs
unfolding slots_taken
slots_taken-settle order_id p [] = refl
slots_taken-settle order_id p ((id, r) ∷ rs) =
    rw (settled-takes order_id p r, slots_taken-settle order_id p rs) refl

abbrev pub freed_row : ℕ → PromoRedemption → PromoRedemption
freed_row now r = record r { status = released; released_at = some now }

pub slots_taken-release :
    (now id p : ℕ) (r : PromoRedemption) (rs : Keyed PromoRedemption)
    → find id rs ≡ some r
    → is_reserved r.status ≡ true
    → slots_taken p rs ≡ slots_taken p (update id (freed_row now) rs) + one_if (r.promo_id == p)
unfolding slots_taken
slots_taken-release now id p r [] there live = cc
slots_taken-release now id p r (x ∷ rs) there live =
    ground (arith, slots_taken-release now id p r rs)
