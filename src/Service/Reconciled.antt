-- ===== src/Service/Reconciled.antt =====
-- The total that the customer owes, against its parts: through the weigh-in, which sets it, and the
-- surcharge of a quality hold, which adds to it (src/online-orders/online-orders.service.ts).
use Prim.Native.String.{String}
use lalaba_backend_showcase.Base.{
  is_some, ℕ, zero, suc, ◌+◌, ◌≡◌, refl, sym, ap, ◌∙◌, Bool, true, false, not, Option, none, some,
  List, [], ◌∷◌, if◌then◌else◌, or_else, arith, ltb, Bool-cases, Option-cases, inl, inr,
}
use lalaba_backend_showcase.Pricing.Doubles.{Doubles}
use lalaba_backend_showcase.Service.Document.{ServiceLineSnapshot, QualityHold, OnlineOrder}
use lalaba_backend_showcase.Service.Weighing.{
  Measurement, sum_lines, priced_lines, no_sums, with_waiver, finalize_pricing,
}
use lalaba_backend_showcase.Service.Measured.{
  IsWeighed, lines_total, sum_lines-total, finalize_pricing-IsWeighed,
}
use lalaba_backend_showcase.Service.Holds.{
  charged_lines, charged, surcharge_fee, apply_surcharge, resolved,
}

module _ (d : Doubles) where
  open d use {of_nat}

  -- The lines add up to the service total, and with the fee and what was booked beside them, which
  -- stays as it was on the order before, to the customer's total.
  pub record IsReconciled (before o : OnlineOrder d) : Type 0 where
    pub services :
        o.rest.pricing.actual_service_total_centavos ≡ some (lines_total d o.rest.service_lines)
    pub total :
        o.base.customer_total_centavos
        ≡ some (
            lines_total d o.rest.service_lines
            + or_else o.rest.pricing.platform_fee_centavos 0
            + or_else before.rest.pricing.pickup_fee_centavos 0
            + or_else before.rest.pricing.return_fee_centavos 0
            + or_else before.rest.pricing.turnaround_fee_centavos 0)
    pub pickup_fee : o.rest.pricing.pickup_fee_centavos ≡ before.rest.pricing.pickup_fee_centavos
    pub return_fee : o.rest.pricing.return_fee_centavos ≡ before.rest.pricing.return_fee_centavos
    pub turnaround_fee :
        o.rest.pricing.turnaround_fee_centavos ≡ before.rest.pricing.turnaround_fee_centavos

  waiver-keeps :
      (b : Bool) (before o : OnlineOrder d)
      → IsReconciled before o
      → IsReconciled before (with_waiver d b o)
  waiver-keeps true before o r = record {
    services = r.services;
    total = r.total;
    pickup_fee = r.pickup_fee;
    return_fee = r.return_fee;
    turnaround_fee = r.turnaround_fee;
  }
  waiver-keeps false before o r = r

  finalize_pricing-IsReconciled :
      (m : Measurement d) (o : OnlineOrder d) → IsReconciled o (finalize_pricing d m o)
  unfolding finalize_pricing
  finalize_pricing-IsReconciled m o =
      let sum : (sum_lines d m (no_sums d) o.rest.service_lines).service_total
          ≡ lines_total d (priced_lines d m o.rest.service_lines) =
        omega (arith, sum_lines-total d m (no_sums d) o.rest.service_lines) in
      waiver-keeps (is_some o.base.platform_fee_promo_id) o _ (record {
        services = ap some sum;
        total = ap some (omega (arith, sum));
        pickup_fee = refl;
        return_fee = refl;
        turnaround_fee = refl;
      })

  module _ (branch_owner : ℕ → Option String) where
    charged_lines-total :
        (i charge : ℕ) (ls ls' : List (ServiceLineSnapshot d))
        → charged_lines d branch_owner i charge ls ≡ some ls'
        → lines_total d ls' ≡ lines_total d ls + charge
    unfolding lines_total
    charged_lines-total i charge [] ls' e = cc
    charged_lines-total zero charge (l ∷ ls) ls' e = ground arith
    charged_lines-total (suc i) charge (l ∷ ls) ls' e =
        elim (Option-cases (charged_lines d branch_owner i charge ls)) [
          | inl missing ↦ ground arith
          | inr (rest, e') ↦ ground (arith, charged_lines-total i charge ls rest e')
        ]

    charged-IsReconciled :
        (i charge fee : ℕ) (before o : OnlineOrder d) (ls' : List (ServiceLineSnapshot d))
        → charged_lines d branch_owner i charge o.rest.service_lines ≡ some ls'
        → IsReconciled before o
        → IsReconciled before (charged d branch_owner ls' charge fee o)
    charged-IsReconciled i charge fee before o ls' e r =
        let grown = charged_lines-total i charge o.rest.service_lines ls' e in
        let old = r.services in
        let sum = r.total in
        record {
          services = ap (λ (s : Option ℕ). some (or_else s 0 + charge)) old ∙ ap some (sym grown);
          total = rw (sum, grown) (ap some (omega arith));
          pickup_fee = r.pickup_fee;
          return_fee = r.return_fee;
          turnaround_fee = r.turnaround_fee;
        }

    surcharge-IsReconciled :
        (h : QualityHold) (before o : OnlineOrder d)
        → IsReconciled before o
        → IsReconciled before (apply_surcharge d branch_owner h o)
    unfolding apply_surcharge
    surcharge-IsReconciled h before o r = on_charge h.additional_charge_centavos
      where
        on_lines :
            (c : ℕ) (ls : Option (List (ServiceLineSnapshot d)))
            → charged_lines d branch_owner h.service_line_index c o.rest.service_lines ≡ ls
            → IsReconciled before (elim ls as (λ _. OnlineOrder d) [
              | none ↦ o
              | some lines ↦ charged d branch_owner lines c (surcharge_fee d branch_owner c o) o
            ])
        on_lines c none e = r
        on_lines c (some lines) e =
            charged-IsReconciled h.service_line_index c (surcharge_fee d branch_owner c o) before o
              lines e r

        on_charge :
            (charge : Option ℕ)
            → IsReconciled before (elim charge as (λ _. OnlineOrder d) [
              | none ↦ o
              | some c ↦
                  if not (ltb 0 c)
                  then o
                  else elim (charged_lines d branch_owner h.service_line_index c
                      o.rest.service_lines) [
                        | none ↦ o
                        | some lines ↦
                            charged d branch_owner lines c (surcharge_fee d branch_owner c o) o
                      ]
            ])
        on_charge none = r
        on_charge (some c) = elim (Bool-cases (not (ltb 0 c))) [
          | inl nothing ↦ rw nothing r
          | inr something ↦ rw something (
              on_lines c (charged_lines d branch_owner h.service_line_index c o.rest.service_lines)
                refl)
        ]

    resolved-IsReconciled :
        (approve : Bool) (h : QualityHold) (now : ℕ) (before o : OnlineOrder d)
        → IsReconciled before o
        → IsReconciled before (resolved d branch_owner approve h now o)
    unfolding resolved
    resolved-IsReconciled true h now before o r = surcharge-IsReconciled h before _ (record {
      services = r.services;
      total = r.total;
      pickup_fee = r.pickup_fee;
      return_fee = r.return_fee;
      turnaround_fee = r.turnaround_fee;
    })
    resolved-IsReconciled false h now before o r = record {
      services = r.services;
      total = r.total;
      pickup_fee = r.pickup_fee;
      return_fee = r.return_fee;
      turnaround_fee = r.turnaround_fee;
    }

    pub record Answer : Type 0 where
      pub approve : Bool
      pub hold : QualityHold
      pub at : ℕ

    -- The document after holds that were answered one after the other.
    abbrev pub answer_all : List Answer → OnlineOrder d → OnlineOrder d
    answer_all [] o = o
    answer_all (a ∷ answers) o =
        answer_all answers (resolved d branch_owner a.approve a.hold a.at o)

    answer_all-IsReconciled :
        (answers : List Answer) (before o : OnlineOrder d)
        → IsReconciled before o
        → IsReconciled before (answer_all answers o)
    answer_all-IsReconciled [] before o r = r
    answer_all-IsReconciled (a ∷ answers) before o r =
        answer_all-IsReconciled answers before _
          (resolved-IsReconciled a.approve a.hold a.at before o r)

    -- The weigh-in prices each line by what was measured of it and by the rates of its pricing type,
    -- the platform fee by the order's percentage of the lines' sum, and it reconciles the total of an
    -- order whatever was stored before; and so it stays through any answers to quality holds, with or
    -- without their surcharges: the lines' prices add up to the service total, and with the platform
    -- fee and the pickup, return and turnaround fees that were booked, to the customer's total.
    pub total-IsReconciled :
        (m : Measurement d) (o : OnlineOrder d) (answers : List Answer)
        → IsWeighed d m o (finalize_pricing d m o)
          × IsReconciled o (answer_all answers (finalize_pricing d m o))
    total-IsReconciled m o answers = (
      finalize_pricing-IsWeighed d m o,
      answer_all-IsReconciled answers o _ (finalize_pricing-IsReconciled m o),
    )
