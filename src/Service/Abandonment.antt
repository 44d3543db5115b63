-- ===== src/Service/Abandonment.antt =====
-- Giving up on an order gives the provider's fee back
-- (src/online-orders/online-orders.service.ts).
use Prim.Native.String.{String}
use lalaba_backend_showcase.Base.{ℕ, ◌≡◌, refl, sym, ap, ◌∙◌, false, Option, some, arith}
use lalaba_backend_showcase.Base.Int.{ℤ, pos, ◌+ℤ◌, ◌≤ℤ◌, ltb_ℤ, int_laws, pos_part, neg_part}
use lalaba_backend_showcase.Base.Keyed.{find}
use lalaba_backend_showcase.Orders.Status.{◌===◌, abandoned_unsettled}
use lalaba_backend_showcase.Pricing.Doubles.{Doubles}
use lalaba_backend_showcase.Service.Document.{OnlineOrder, consumed_centavos}
use lalaba_backend_showcase.Service.State.{done, User, World, pure}
use lalaba_backend_showcase.Service.Money.{with_consumed}
use lalaba_backend_showcase.Service.Decisions.{fee_given_back, give_up, abandon_unsettled_order}
use lalaba_backend_showcase.Service.Books.{fee_sum, Balanced}
use lalaba_backend_showcase.Service.DecisionsBooks.{abandon_unsettled_order-Keeps}
use lalaba_backend_showcase.Service.Results.{
  Returning, Returning-then, Returning-in_transaction, Returning-pure, Returning-saved,
  Returning-if, Returning-transition, Returning-wallet,
}
use lalaba_backend_showcase.Service.Runs.{handler_runs}

module _ (d : Doubles) (branch_owner : ℕ → Option String) where
  abbrev Relieved : OnlineOrder d → Type 0
  Relieved o = consumed_centavos d o ≤ℤ pos 0

  not_owing : (c : ℤ) → ltb_ℤ (pos 0) c ≡ false → c ≤ℤ pos 0
  not_owing c h = ground arith

  given_back-Returning :
      (id : ℕ) (o : OnlineOrder d) → Returning d Relieved (fee_given_back d branch_owner id o)
  given_back-Returning id o =
      Returning-if d (ltb_ℤ (pos 0) (consumed_centavos d o)) _ _
        (λ owes. Returning-wallet d _ (with_consumed d (pos 0) o) (omega arith))
        λ even. Returning-pure d o (not_owing (consumed_centavos d o) even)

  give_up-Returning :
      (id : ℕ) (actor : Option User) (remark : Option String) (now : ℕ) (o : OnlineOrder d)
      → Returning d
          (λ o'. (o'.base.status ≡ abandoned_unsettled) × Relieved o')
          (give_up d branch_owner id actor remark now o)
  give_up-Returning id actor remark now o =
      Returning-then d Relieved _ _ (given_back-Returning id o) λ o1 p.
        Returning-then d Relieved _ _ (Returning-saved d id o1 p)
          λ o2 q. Returning-transition d id abandoned_unsettled _ now o2 (refl, q)

  relieved : (c s : ℤ) → c +ℤ s ≡ pos 0 → c ≤ℤ pos 0 → pos 0 ≤ℤ s
  relieved c s h le =
      let hp = ap pos_part h in let hn = ap neg_part h in omega (int_laws, hp, hn, le)

  -- A provider does not pay for an order that is given up: where the books are balanced and the
  -- order was not abandoned before, the call that returns leaves it abandoned, and the ledger's rows
  -- for it do not add up to a debit.
  pub abandoned_order_is_not_charged :
      (id : ℕ) (actor : Option User) (remark : Option String) (now : ℕ) (w : World d)
      (o o' : OnlineOrder d)
      → Balanced d w
      → find id w.db.orders ≡ some o.base
      → find id w.rests ≡ some o.rest
      → (o.base.status === abandoned_unsettled) ≡ false
      → (abandon_unsettled_order d branch_owner id actor remark now w).0 ≡ done o'
      → let after = (abandon_unsettled_order d branch_owner id actor remark now w).1 in
        (o'.base.status ≡ abandoned_unsettled) × (pos 0 ≤ℤ fee_sum id after.wallets.ledger)
  abandoned_order_is_not_charged id actor remark now w o o' bal there stored open_order e =
      let k = (abandon_unsettled_order-Keeps d branch_owner id actor remark now).kept w o' bal e in
      let (status, free) = ends in (status, relieved (consumed_centavos d o') _ k.fees free)
    where
      ends : (o'.base.status ≡ abandoned_unsettled) × Relieved o'
      ends =
          unfold abandon_unsettled_order in
          (Returning-if d (o.base.status === abandoned_unsettled) (pure o) _ (λ closed. cc)
              (λ going.
                Returning-in_transaction d _ (give_up-Returning id actor remark now o))).returns
            w o' (ap (λ r. r.0) (sym (handler_runs d id o _ w there stored)) ∙ e)
