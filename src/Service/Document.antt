-- ===== src/Service/Document.antt =====
-- The order document as the handlers read and write it
-- (src/online-orders/schemas/online-order.schema.ts and online-transaction.schema.ts). The fields
-- that a transition touches are those of `Order`; the rest are here. Amounts are whole centavos.
use Prim.Native.String.{String}
use lalaba_backend_showcase.Base.{ℕ, Bool, Option, none, some, List, or_else}
use lalaba_backend_showcase.Base.Int.{ℤ, pos}
use lalaba_backend_showcase.Orders.Order.{Order, outstanding_centavos}
use lalaba_backend_showcase.Policy.Provider.{ProviderType}
use lalaba_backend_showcase.Pricing.Legs.{FulfillmentPickupMode, FulfillmentReturnMode}
use lalaba_backend_showcase.Pricing.FeeParts.{OrderPricing}
use lalaba_backend_showcase.Pricing.Doubles.{Doubles}
use lalaba_backend_showcase.Pricing.Lines.{ServiceLinePricingParams}

pub data PaymentMethod : Type 0 where
  cash ewallet_outside_app : PaymentMethod

pub data PaymentTiming : Type 0 where
  on_pickup at_final_handover : PaymentTiming

pub data OnlineTransactionStatus : Type 0 where
  completed refunded add_on : OnlineTransactionStatus

pub data QualityHoldResponse : Type 0 where
  pending approved declined : QualityHoldResponse

pub data AttemptResponsibility : Type 0 where
  customer provider system : AttemptResponsibility

pub record ProviderSnapshot : Type 0 where
  pub provider_type : ProviderType
  pub provider_uid : String
  pub branch_id : ℕ
  pub allows_pay_at_handover : Bool

pub record LegAssignment : Type 0 where
  pub assigned_staff_uid : String
  pub assigned_at : ℕ
  pub en_route_at : Option ℕ
  pub arrived_at : Option ℕ
  pub completed_at : Option ℕ

pub record AttemptEvidence : Type 0 where
  pub attempt_number : ℕ
  pub actor_uid : String
  pub timestamp : ℕ
  pub responsibility : AttemptResponsibility
  pub reason : Option String

pub record HandoverProof : Type 0 where
  pub object_keys : List String
  pub captured_at : ℕ
  pub captured_by_uid : String

pub record QualityHold : Type 0 where
  pub service_line_index : ℕ
  pub reason : String
  pub blocks_order : Bool
  pub additional_charge_centavos : Option ℕ
  pub customer_response : QualityHoldResponse
  pub raised_at : ℕ
  pub respond_timeout_at : Option ℕ
  pub resolved_at : Option ℕ

-- `amountCollectedCentavos` is a field of `Order`.
pub record PaymentSummary : Type 0 where
  pub method : Option PaymentMethod
  pub reference_id : Option String
  pub collected_by_uid : Option String
  pub collected_at : Option ℕ
  pub last_collected_at : Option ℕ
  pub tendered_centavos : Option ℕ
  pub change_centavos : Option ℕ

pub record OnlineTransaction : Type 0 where
  pub order_id : ℕ
  pub payment_method : PaymentMethod
  pub reference_id : Option String
  pub amount_centavos : ℕ
  pub tendered_centavos : Option ℕ
  pub change_centavos : Option ℕ
  pub status : OnlineTransactionStatus
  pub collected_by_uid : String
  pub collected_by_role : String

module _ (d : Doubles) where
  open d use {Double}

  pub record ServiceLineSnapshot : Type 0 where
    pub service_ref_id : String
    pub params : ServiceLinePricingParams d
    pub product_surcharge_centavos : ℕ
    pub actual_line_total_centavos : Option ℕ

  -- `customerTotalCentavos` and `platformFeePromoId` are fields of `Order`.
  pub record Pricing : Type 0 where
    pub estimated_total_centavos : Double
    pub actual_weight_kg : Option Double
    pub actual_piece_count : Option ℕ
    pub actual_service_total_centavos : Option ℕ
    pub platform_fee_percent : Option Double
    pub platform_fee_centavos : Option ℕ
    pub pickup_fee_centavos : Option ℕ
    pub return_fee_centavos : Option ℕ
    pub turnaround_fee_centavos : Option ℕ
    pub platform_fee_consumed_centavos : Option ℤ
    pub platform_fee_surcharge_centavos : Option ℕ
    pub platform_fee_discount_centavos : Option ℤ

  pub record Rest : Type 0 where
    pub customer_uid : String
    pub provider : ProviderSnapshot
    pub service_lines : List (ServiceLineSnapshot)
    pub pickup_mode : FulfillmentPickupMode
    pub return_mode : FulfillmentReturnMode
    pub scheduled_day : Option String
    pub pricing : Pricing
    pub payment_timing : PaymentTiming
    pub payment_summary : PaymentSummary
    pub pickup_assignment : Option LegAssignment
    pub return_assignment : Option LegAssignment
    pub pickup_attempts : List AttemptEvidence
    pub delivery_attempts : List AttemptEvidence
    pub pickup_proof : Option HandoverProof
    pub return_proof : Option HandoverProof
    pub active_quality_hold : Option QualityHold
    pub rejection_reason : Option String
    pub cancellation_reason : Option String
    pub completed_at : Option ℕ

  -- A document in memory.
  pub record OnlineOrder : Type 0 where
    pub base : Order
    pub rest : Rest

  abbrev pub as_amount : Option ℕ → Option ℤ
  as_amount none = none
  as_amount (some n) = some (pos n)

  -- What the parts of the platform fee are computed from.
  abbrev pub fee_fields : OnlineOrder → OrderPricing
  fee_fields o = record {
    platform_fee_centavos = as_amount o.rest.pricing.platform_fee_centavos;
    platform_fee_surcharge_centavos = as_amount o.rest.pricing.platform_fee_surcharge_centavos;
    platform_fee_discount_centavos = o.rest.pricing.platform_fee_discount_centavos;
  }

  -- The part of the platform fee that the provider's wallet has been debited.
  abbrev pub consumed_centavos : OnlineOrder → ℤ
  consumed_centavos o = or_else o.rest.pricing.platform_fee_consumed_centavos (pos 0)

  abbrev pub collected_centavos : OnlineOrder → ℕ
  collected_centavos o = or_else o.base.amount_collected_centavos 0

  abbrev pub outstanding : OnlineOrder → ℕ
  outstanding o = outstanding_centavos o.base
