-- ===== src/Promotions/Counted.antt =====
-- The counter of each promotion is the number of its slots that are taken: each write keeps it so
-- (src/promotions/promotions.service.ts).

use lalaba_backend_showcase.Base.{
  ℕ, ◌+◌, ◌≤◌, ◌≡◌, ◌≢◌, refl, sym, ap, ◌∙◌, true, false, none, some, [], ◌∷◌, ◌==◌, arith, inl,
  inr, Bool-cases, Option-cases, ==_iff, subst,
}
use lalaba_backend_showcase.Base.Int.{ℤ, pos, ◌+ℤ◌, ◌-ℤ◌, leb_ℤ, int_laws}
use lalaba_backend_showcase.Base.Keyed.{
  Keyed, find, update, insert, find-update_self, find-update_ne, update-absent, IsUnique,
  insert-IsUnique,
}
use lalaba_backend_showcase.Orders.Order.{OrderDb, PromoRedemption, settle_rows}
use lalaba_backend_showcase.Promotions.Codes.{PromoCode, at_cap, is_live}
use lalaba_backend_showcase.Promotions.Redeeming.{with_row, next_id}
use lalaba_backend_showcase.Promotions.Slots.{takes, slots_taken, one_if, slots_taken-insert}

next_id-fresh : (n : ℕ) (rs : Keyed PromoRedemption) → next_id rs ≤ n → find n rs ≡ none
next_id-fresh n [] h = refl
next_id-fresh n (x ∷ rs) h = ground (arith, next_id-fresh n rs)

settle-none :
    (j order_id : ℕ) (rs : Keyed PromoRedemption)
    → find j rs ≡ none
    → find j (settle_rows order_id rs) ≡ none
settle-none j order_id [] h = refl
settle-none j order_id (x ∷ rs) h = ground (arith, settle-none j order_id rs)

pub settle-IsUnique :
    (order_id : ℕ) (rs : Keyed PromoRedemption) → IsUnique rs → IsUnique (settle_rows order_id rs)
settle-IsUnique order_id [] u = tt
settle-IsUnique order_id ((j, x) ∷ rs) u =
    (settle-none j order_id rs u.0, settle-IsUnique order_id rs u.1)

-- A counter that is changed by as much as the slots are.
pub recount :
    (q : ℕ) (f : ℤ → ℤ) (old new : ℕ → ℕ) (counts : Keyed ℤ)
    → ((p : ℕ) (n : ℤ) → find p counts ≡ some n → n ≡ pos (old p))
    → f (pos (old q)) ≡ pos (new q)
    → ((p : ℕ) → p ≢ q → new p ≡ old p)
    → (p : ℕ) (n : ℤ) → find p (update q f counts) ≡ some n
    → n ≡ pos (new p)
recount q f old new counts counted shifted others p n h = elim (Bool-cases (p == q)) [
  | inr e ↦
      let ne : p ≢ q = ground arith in
      counted p n (sym (find-update_ne p q f counts ne) ∙ h) ∙ ap pos (sym (others p ne))
  | inl e ↦
      let same = (==_iff p q).0 e in
      subst (λ k. n ≡ pos (new k)) (sym same)
        (own (subst (λ k. find k (update q f counts) ≡ some n) same h))
]
  where
    own : find q (update q f counts) ≡ some n → n ≡ pos (new q)
    own h' = elim (Option-cases (find q counts)) [
      | inl absent ↦ cc (ap (find q) (update-absent q f counts absent))
      | inr (m, there) ↦
          let was = counted q m there in
          let is_now = find-update_self q f m counts there in
          let step : n ≡ f m = cc in step ∙ ap f was ∙ shifted
    ]

module _ (promos : Keyed PromoCode) where
  -- Each counter is the number of slots that are taken, and no cap is passed.
  pub record IsCounted (db : OrderDb) : Type 0 where
    pub unique : IsUnique db.redemptions
    pub counted :
        (p : ℕ) (n : ℤ) → find p db.counts ≡ some n → n ≡ pos (slots_taken p db.redemptions)
    pub capped :
        (p cap : ℕ) (promo : PromoCode)
        → find p promos ≡ some promo
        → promo.usage_cap_total ≡ some cap
        → slots_taken p db.redemptions ≤ cap

  plus_one : (n : ℕ) → pos n +ℤ pos 1 ≡ pos (n + 1)
  plus_one n = omega int_laws

  pub less_one : (n : ℕ) → pos (n + 1) -ℤ pos 1 ≡ pos n
  less_one n = omega int_laws

  -- A slot that is claimed, and the row that takes it.
  pub taken-IsCounted :
      (q : ℕ) (promo : PromoCode) (n : ℤ) (r : PromoRedemption) (db : OrderDb)
      → IsCounted db
      → find q promos ≡ some promo
      → find q db.counts ≡ some n
      → at_cap promo.usage_cap_total n ≡ false
      → r.promo_id ≡ q
      → is_live r.status ≡ true
      → IsCounted (
          with_row
            (next_id db.redemptions)
            r
            (record db { counts = update q (λ k. k +ℤ pos 1) db.counts }))
  taken-IsCounted q promo n r db c there count room own live = record {
    unique =
        insert-IsUnique (next_id db.redemptions) r db.redemptions c.unique
          (next_id-fresh (next_id db.redemptions) db.redemptions (omega arith));
    counted =
        recount q (λ k. k +ℤ pos 1) (λ p. slots_taken p db.redemptions)
          (λ p. slots_taken p (insert (next_id db.redemptions) r db.redemptions)) db.counts
          c.counted
          (plus_one (slots_taken q db.redemptions)
            ∙ ap pos (sym (slots_taken-insert q (next_id db.redemptions) r db.redemptions ∙ here)))
          (λ p ne. slots_taken-insert p (next_id db.redemptions) r db.redemptions ∙ elsewhere p ne);
    capped = λ p cap promo' there' is_cap. under p cap promo' there' is_cap;
  }
    where
      here : slots_taken q db.redemptions + one_if (takes q r) ≡ slots_taken q db.redemptions + 1
      here = ground arith

      elsewhere :
          (p : ℕ)
          → p ≢ q
          → slots_taken p db.redemptions + one_if (takes p r) ≡ slots_taken p db.redemptions
      elsewhere p ne = ground arith

      under :
          (p cap : ℕ) (promo' : PromoCode)
          → find p promos ≡ some promo'
          → promo'.usage_cap_total ≡ some cap
          → slots_taken p (insert (next_id db.redemptions) r db.redemptions) ≤ cap
      under p cap promo' there' is_cap = elim (Bool-cases (p == q)) [
        | inr e ↦
            let ne : p ≢ q = ground arith in
            let same =
              slots_taken-insert p (next_id db.redemptions) r db.redemptions ∙ elsewhere p ne in
            let before = c.capped p cap promo' there' is_cap in omega arith
        | inl e ↦
            let same = (==_iff p q).0 e in
            let one : promo' ≡ promo = cc (ap (λ k. find k promos) same) in
            let is_cap' : promo.usage_cap_total ≡ some cap =
              cc (ap (λ (x : PromoCode). x.usage_cap_total) one) in
            let was = c.counted q n count in
            let open_slot : leb_ℤ (pos cap) n ≡ false = cc (ap (λ x. at_cap x n) is_cap') in
            let more = slots_taken-insert q (next_id db.redemptions) r db.redemptions ∙ here in
            subst (λ k. slots_taken k (insert (next_id db.redemptions) r db.redemptions) ≤ cap)
              (sym same) (grind (arith, int_laws))
      ]
