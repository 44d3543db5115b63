-- ===== src/Service/Examples.antt =====
-- Databases, orders and users at which the theorems on handlers are applied.
use Prim.Native.String.{String}
use lalaba_backend_showcase.Base.{ℕ, refl, true, false, Option, none, some, [], ◌∷◌, arith}
use lalaba_backend_showcase.Base.Int.{pos, negsuc, ◌+ℤ◌}
use lalaba_backend_showcase.Orders.Status.{OrderStatus, awaiting_redelivery_selection, completed}
use lalaba_backend_showcase.Policy.Provider.{washer}
use lalaba_backend_showcase.Pricing.Legs.{provider_pickup, provider_delivery}
use lalaba_backend_showcase.Pricing.Doubles.{Doubles, whole_numbers}
use lalaba_backend_showcase.Pricing.Lines.{per_kilo}
use lalaba_backend_showcase.Wallets.State.{fee_consumption}
use lalaba_backend_showcase.Service.Document.{
  on_pickup, cash, pending, ServiceLineSnapshot, OnlineOrder,
}
use lalaba_backend_showcase.Service.State.{Outcome, done, refused, User, World}
use lalaba_backend_showcase.Service.Weighing.{Measurement}
use lalaba_backend_showcase.Service.Access.{StaffUser, assigned}
use lalaba_backend_showcase.Service.Money.{PaymentCollectionFields}
use lalaba_backend_showcase.Service.Eligibility.{WasherProfile, Providers, MapLocation}
use lalaba_backend_showcase.Service.Counts.{same-KeepsCounts}
use lalaba_backend_showcase.Service.Books.{Balanced, kept-Balanced, fee_sum, paid_sum}

abbrev pub d : Doubles
d = whole_numbers

abbrev pub owner_of : ℕ → Option String
owner_of b = some "owner"

abbrev pub no_staff : String → Option StaffUser
no_staff uid = none

-- ₱60 a kilo.
abbrev pub line : ServiceLineSnapshot d
line = record {
  service_ref_id = "wash";
  params = record {
    pricing_type = per_kilo;
    price = 6000;
    base_kilos = none;
    excess_rate = none;
    min_billable_kg = some 3;
  };
  product_surcharge_centavos = 500;
  actual_line_total_centavos = some 18_500;
}

-- Order 7, a washer's, with a courier on both legs and a hold that waits until time 9000.
abbrev pub order_in : OrderStatus → OnlineOrder d
order_in status = record {
  base = record {
    status = status;
    version = 4;
    turnaround = none;
    abandonment_deadline_at = none;
    customer_total_centavos = some 18_600;
    amount_collected_centavos = none;
    promo_code = none;
    platform_fee_promo_id = none;
  };
  rest = record {
    customer_uid = "customer";
    provider = record {
      provider_type = washer;
      provider_uid = "washer";
      branch_id = 3;
      allows_pay_at_handover = true;
    };
    service_lines = line ∷ [];
    pickup_mode = provider_pickup;
    return_mode = provider_delivery;
    scheduled_day = some "2026-08-18";
    pricing = record {
      estimated_total_centavos = 18_600;
      actual_weight_kg = none;
      actual_piece_count = none;
      actual_service_total_centavos = some 18_500;
      platform_fee_percent = some 100;
      platform_fee_centavos = some 100;
      pickup_fee_centavos = none;
      return_fee_centavos = none;
      turnaround_fee_centavos = none;
      platform_fee_consumed_centavos = none;
      platform_fee_surcharge_centavos = none;
      platform_fee_discount_centavos = none;
    };
    payment_timing = on_pickup;
    payment_summary = record {
      method = none;
      reference_id = none;
      collected_by_uid = none;
      collected_at = none;
      last_collected_at = none;
      tendered_centavos = none;
      change_centavos = none;
    };
    pickup_assignment = some (assigned "rider" 100);
    return_assignment = some (assigned "rider" 100);
    pickup_attempts = [];
    delivery_attempts = [];
    pickup_proof = none;
    return_proof = none;
    active_quality_hold = some (record {
      service_line_index = 0;
      reason = "stain";
      blocks_order = true;
      additional_charge_centavos = some 2000;
      customer_response = pending;
      raised_at = 500;
      respond_timeout_at = some 9000;
      resolved_at = none;
    });
    rejection_reason = none;
    cancellation_reason = none;
    completed_at = none;
  };
}

abbrev pub nothing : World d
nothing = record {
  db = record { orders = []; events = []; redemptions = []; counts = [] };
  promos = [];
  rests = [];
  wallets = record {
    wallets = (3, record { balance_centavos = pos 100_000; activated_at = some 1 }) ∷ [];
    ledger = [];
    intents = [];
  };
  transactions = [];
  cap_counters = [];
}

abbrev pub world_in : OrderStatus → World d
world_in status = record nothing {
  db = record {
    orders = (7, (order_in status).base) ∷ [];
    events = [];
    redemptions = [];
    counts = [];
  };
  rests = (7, (order_in status).rest) ∷ [];
}

pub nothing-Balanced : Balanced d nothing
nothing-Balanced id b r there stored = cc

pub world-Balanced : (status : OrderStatus) → Balanced d (world_in status)
unfolding fee_sum paid_sum ◌+ℤ◌
world-Balanced status =
    kept-Balanced d 7 (order_in status) nothing (world_in status) nothing-Balanced
      (record { there = refl; stored = refl; fees = refl; paid = refl })
      (record {
        orders = λ j ne. ground arith;
        rests = λ j ne. ground arith;
        fees = λ j ne. refl;
        paid = λ j ne. refl;
        moved = λ b there. cc;
        counts = same-KeepsCounts d nothing (world_in status) refl;
      })

abbrev pub rider : User
rider = record { uid = "rider"; role = "courier"; merchant_id = none; branch_ids = [] }

abbrev pub customer_user : User
customer_user = record { uid = "customer"; role = "customer"; merchant_id = none; branch_ids = [] }

abbrev pub owner : User
owner = record { uid = "owner"; role = "washer"; merchant_id = none; branch_ids = [] }

abbrev pub paid_in_cash : PaymentCollectionFields
paid_in_cash = record {
  payment_timing = none;
  payment_method = some cash;
  reference_id = none;
  tendered_centavos = some 20_000;
}

abbrev pub five_kilos : Measurement d
five_kilos = record { actual_weight_kg = some 5; actual_piece_count = none; line_actuals = [] }

-- The document that was returned.
abbrev pub doc : Outcome (OnlineOrder d) → OnlineOrder d
doc (done o) = o
doc (refused e) = order_in completed

-- An order that waits for redelivery, whose fee of 100 was debited.
abbrev pub fronted_order : OnlineOrder d
fronted_order = record (order_in awaiting_redelivery_selection) {
  rest = record (order_in awaiting_redelivery_selection).rest {
    pricing = record (order_in awaiting_redelivery_selection).rest.pricing {
      platform_fee_consumed_centavos = some (pos 100);
    };
  };
}

abbrev pub fronted : World d
fronted = record nothing {
  db = record { orders = (7, fronted_order.base) ∷ []; events = []; redemptions = []; counts = [] };
  rests = (7, fronted_order.rest) ∷ [];
  wallets = record nothing.wallets {
    ledger =
        record {
          branch_id = 3;
          type = fee_consumption;
          amount_centavos = negsuc 99;
          balance_after_centavos = pos 99_900;
          order_id = some 7;
          xendit_reference = none;
        }
        ∷ [];
  };
}

pub fronted-Balanced : Balanced d fronted
unfolding fee_sum paid_sum ◌+ℤ◌
fronted-Balanced =
    kept-Balanced d 7 fronted_order nothing fronted nothing-Balanced
      (record { there = refl; stored = refl; fees = refl; paid = refl })
      (record {
        orders = λ j ne. ground arith;
        rests = λ j ne. ground arith;
        fees = λ j ne. ground arith;
        paid = λ j ne. refl;
        moved = λ b there. cc;
        counts = same-KeepsCounts d nothing fronted refl;
      })

abbrev pub no_distance : MapLocation d → MapLocation d → ℕ
no_distance a b = 0

-- A washer who takes one order a day.
abbrev pub one_a_day : WasherProfile d
one_a_day = record {
  uid = "washer";
  is_active = true;
  is_available = true;
  service_radius_km = none;
  map_location = none;
  max_orders_per_day = some 1;
}

abbrev pub providers : Providers d
providers = record {
  branches = (3, record { uid = "owner"; is_active = true; is_online = true }) ∷ [];
  washers = (3, one_a_day) ∷ [];
  bookings_paused = λ b. false;
}
