-- ===== src/Fees/Preview.antt =====
-- What a preview of a fee rule promises to the administrator who saves it
-- (src/platform-fee/platform-fee.service.ts, src/platform-fee/platform-fee-rule.util.ts).
use Prim.Native.String.{String}
use lalaba_backend_showcase.Base.{
  ℕ, ◌+◌, ◌≤◌, ◌≡◌, refl, subst, Bool, true, false, ◌&&◌, if◌then◌else◌, Option, none, some,
  or_else, arith, inl, inr, Bool-cases, Option-cases,
}
use lalaba_backend_showcase.Base.Int.{ℤ, pos, ◌+ℤ◌, ◌-ℤ◌, int_laws}
use lalaba_backend_showcase.Pricing.Doubles.{Doubles}
use lalaba_backend_showcase.Fees.Rules.{
  FeeRuleDraft, FeeRulePreview, FeeCalculationType, percentage, fixed, fixed_plus_percentage,
  FeeChargedTo, customer, provider, split, FeeTaxTreatment, tax_inclusive, tax_exclusive, at_least,
  at_most, crossed, validate_rule, compute_fee_centavos, percent_part, fixed_part, customer_share,
  vat, is_exclusive, previewed, preview_rule,
}

-- A fee between the limits that there are, and as near to the uncapped fee as they allow.
pub record IsLimited (least most : Option ℕ) (uncapped fee : ℕ) : Type 0 where
  pub not_below : (l : ℕ) → least ≡ some l → l ≤ fee
  pub not_above : (m : ℕ) → most ≡ some m → fee ≤ m
  pub raised : (l : ℕ) → least ≡ some l → uncapped ≤ l → fee ≡ l
  pub lowered : (m : ℕ) → most ≡ some m → m ≤ uncapped → fee ≡ m
  pub kept :
      ((l : ℕ) → least ≡ some l → l ≤ uncapped)
      → ((m : ℕ) → most ≡ some m → uncapped ≤ m)
      → fee ≡ uncapped

the : {a b : ℕ} → some a ≡ some b → a ≡ b
the e = cc

bounded-IsLimited :
    (least most : Option ℕ) (u : ℕ)
    → crossed least most ≡ false
    → IsLimited least most u (at_most most (at_least least u))
bounded-IsLimited none none u h = record {
  not_below = λ l e. cc;
  not_above = λ m e. cc;
  raised = λ l e. cc;
  lowered = λ m e. cc;
  kept = λ p q. refl;
}
bounded-IsLimited (some a) none u h = record {
  not_below = λ l e. let same = the e in ground arith;
  not_above = λ m e. cc;
  raised = λ l e below. let same = the e in ground arith;
  lowered = λ m e. cc;
  kept = λ p q. let above = p a refl in ground arith;
}
bounded-IsLimited none (some b) u h = record {
  not_below = λ l e. cc;
  not_above = λ m e. let same = the e in ground arith;
  raised = λ l e. cc;
  lowered = λ m e above. let same = the e in ground arith;
  kept = λ p q. let below = q b refl in ground arith;
}
bounded-IsLimited (some a) (some b) u h = record {
  not_below = λ l e. let same = the e in ground arith;
  not_above = λ m e. let same = the e in ground arith;
  raised = λ l e below. let same = the e in ground arith;
  lowered = λ m e above. let same = the e in ground arith;
  kept = λ p q. let above = p a refl in let below = q b refl in ground arith;
}

shares_add_up : (fee share : ℕ) → pos share +ℤ (pos fee -ℤ pos share) ≡ pos fee
shares_add_up fee share = omega int_laws

parties_add_up :
    (base fee share tax : ℕ)
    → pos (base + share + tax) -ℤ (pos base -ℤ (pos fee -ℤ pos share)) ≡ pos fee +ℤ pos tax
parties_add_up base fee share tax = omega int_laws

module _ (d : Doubles) (is_blank : String → Bool) where
  open d use {Double, of_nat, add, mul, div, round}

  -- So many percent of an amount; a percentage that is missing is none.
  abbrev pub share_of : ℕ → Option Double → Double
  share_of amount none = mul (of_nat amount) (div (of_nat 0) (of_nat 100))
  share_of amount (some p) = mul (of_nat amount) (div p (of_nat 100))

  abbrev pub IsRate : FeeCalculationType → Option Double → Option ℕ → ℕ → ℕ → Type 0
  IsRate percentage p amount base fee = fee ≡ round (add (share_of base p) (of_nat 0))
  IsRate fixed p amount base fee = fee ≡ round (add (of_nat 0) (of_nat (or_else amount 0)))
  IsRate fixed_plus_percentage p amount base fee =
      fee ≡ round (add (share_of base p) (of_nat (or_else amount 0)))

  -- Who pays how much of the fee.
  abbrev pub IsShared : FeeChargedTo → Option Double → ℕ → ℕ → ℤ → Type 0
  IsShared customer p fee hers theirs = (hers ≡ fee) × (theirs ≡ pos 0)
  IsShared provider p fee hers theirs = (hers ≡ 0) × (theirs ≡ pos fee)
  IsShared split p fee hers theirs =
      (hers ≡ round (share_of fee p)) × (pos hers +ℤ theirs ≡ pos fee)

  -- Tax comes on top of the fee only where it applies and the fee does not include it.
  abbrev pub IsTaxed : Bool → FeeTaxTreatment → Option Double → ℕ → ℕ → Type 0
  IsTaxed true tax_exclusive p fee tax = tax ≡ round (share_of fee p)
  IsTaxed _ _ p fee tax = tax ≡ 0

  pub record IsExplained (rule : FeeRuleDraft d) (base : ℕ) (p : FeeRulePreview d) : Type 0 where
    pub uncapped :
        IsRate rule.calculation_type rule.percent rule.fixed_amount_centavos base
          p.uncapped_fee_centavos
    pub limited :
        IsLimited rule.min_fee_centavos rule.max_fee_centavos p.uncapped_fee_centavos p.fee_centavos
    pub shared :
        IsShared rule.charged_to rule.customer_share_percent p.fee_centavos
          p.customer_share_centavos p.provider_share_centavos
    pub taxed :
        IsTaxed rule.apply_vat rule.tax_treatment rule.vat_rate_percent p.fee_centavos
          p.vat_centavos
    pub total : p.customer_total_centavos ≡ base + p.customer_share_centavos + p.vat_centavos
    pub earnings : p.provider_earnings_centavos ≡ pos base -ℤ p.provider_share_centavos
    pub adds_up :
        pos p.customer_total_centavos -ℤ p.provider_earnings_centavos
        ≡ pos p.fee_centavos +ℤ pos p.vat_centavos

  uncapped-IsRate :
      (t : FeeCalculationType) (p : Option Double) (amount : Option ℕ) (base : ℕ)
      → IsRate t p amount base (round (add (percent_part d t p base) (fixed_part d t amount)))
  uncapped-IsRate percentage none amount base = refl
  uncapped-IsRate percentage (some p) amount base = refl
  uncapped-IsRate fixed p amount base = refl
  uncapped-IsRate fixed_plus_percentage none amount base = refl
  uncapped-IsRate fixed_plus_percentage (some p) amount base = refl

  customer_share-IsShared :
      (rule : FeeRuleDraft d) (fee : ℕ)
      → IsShared rule.charged_to rule.customer_share_percent fee
          (customer_share d rule fee)
          (pos fee -ℤ pos (customer_share d rule fee))
  customer_share-IsShared rule fee = go rule.charged_to rule.customer_share_percent
    where
      go :
          (c : FeeChargedTo) (p : Option Double)
          → let hers = elim c as (λ _. ℕ) [
            | customer ↦ fee
            | provider ↦ 0
            | split ↦ round (mul (of_nat fee) (div (or_else p (of_nat 0)) (of_nat 100)))
          ] in
            IsShared c p fee hers (pos fee -ℤ pos hers)
      go customer p = (refl, omega int_laws)
      go provider p = (refl, omega int_laws)
      go split none = (refl, shares_add_up fee _)
      go split (some p) = (refl, shares_add_up fee _)

  vat-IsTaxed :
      (rule : FeeRuleDraft d) (fee : ℕ)
      → IsTaxed rule.apply_vat rule.tax_treatment rule.vat_rate_percent fee (vat d rule fee)
  vat-IsTaxed rule fee = go rule.apply_vat rule.tax_treatment rule.vat_rate_percent
    where
      go :
          (b : Bool) (t : FeeTaxTreatment) (p : Option Double)
          → IsTaxed b t p fee (
              if b && is_exclusive d t
              then round (mul (of_nat fee) (div (or_else p (of_nat 0)) (of_nat 100)))
              else 0)
      go true tax_exclusive none = refl
      go true tax_exclusive (some p) = refl
      go true tax_inclusive p = refl
      go false tax_exclusive p = refl
      go false tax_inclusive p = refl

  -- A draft without a fault does not cross its limits.
  uncrossed :
      (rule : FeeRuleDraft d)
      → validate_rule d is_blank rule ≡ none
      → crossed rule.min_fee_centavos rule.max_fee_centavos ≡ false
  unfolding validate_rule
  uncrossed rule h = elim (Bool-cases (crossed rule.min_fee_centavos rule.max_fee_centavos)) [
    | inr e ↦ e
    | inl e ↦ ground arith
  ]

  -- What a preview shows of a rule that can be saved: the uncapped fee is the rule's percentage of
  -- the base, its fixed amount, or both, rounded; the fee is not below the minimum and not above the
  -- maximum, equal to the uncapped fee between them and to the limit that it passes otherwise; the
  -- customer carries all of it, none, or her rounded percentage, and the provider the rest; tax is
  -- added where it applies and is not included; the customer pays the base, her share and the tax,
  -- the provider earns the base without the provider's share, and the difference is the fee and the
  -- tax together.
  pub preview_adds_up :
      (rule : FeeRuleDraft d) (base : ℕ) (p : FeeRulePreview d)
      → preview_rule d is_blank rule base ≡ some p
      → IsExplained rule base p
  unfolding preview_rule compute_fee_centavos
  preview_adds_up rule base p h = elim (Option-cases (validate_rule d is_blank rule)) [
    | inr (fault, e) ↦ cc
    | inl e ↦
        let same : previewed d rule base ≡ p = cc in
        let fee = compute_fee_centavos d rule base in
        subst (IsExplained rule base) same (record {
          uncapped =
              uncapped-IsRate rule.calculation_type rule.percent rule.fixed_amount_centavos base;
          limited =
              bounded-IsLimited rule.min_fee_centavos rule.max_fee_centavos _ (uncrossed rule e);
          shared = customer_share-IsShared rule fee;
          taxed = vat-IsTaxed rule fee;
          total = refl;
          earnings = refl;
          adds_up = parties_add_up base fee _ _;
        })
  ]
