-- ===== src/Service/Eligibility.antt =====
-- Whether a provider may be booked, and may accept a booking
-- (src/online-orders/provider-eligibility.service.ts).
use Prim.Native.String.{String}
use lalaba_backend_showcase.Base.{
  ℕ, Bool, true, false, not, ◌&&◌, Option, none, some, if◌then◌else◌, is_some,
}
use lalaba_backend_showcase.Base.Int.{ℤ, pos, ltb_ℤ}
use lalaba_backend_showcase.Base.Keyed.{Keyed, find}
use lalaba_backend_showcase.Policy.Provider.{ProviderType, merchant, washer}
use lalaba_backend_showcase.Wallets.State.{Wallet, Db}
use lalaba_backend_showcase.Pricing.Doubles.{Doubles}

pub data BookingStage : Type 0 where
  quote create accept : BookingStage

abbrev pub is_accept : BookingStage → Bool
is_accept accept = true
is_accept _ = false

module _ (d : Doubles) where
  open d use {Double, le}

  pub record MapLocation : Type 0 where
    pub latitude : Double
    pub longitude : Double

  pub record WasherProfile : Type 0 where
    pub uid : String
    -- `status === ACTIVE`
    pub is_active : Bool
    pub is_available : Bool
    pub service_radius_km : Option Double
    pub map_location : Option MapLocation
    pub max_orders_per_day : Option ℕ

  pub record BranchProfile : Type 0 where
    pub uid : String
    pub is_active : Bool
    pub is_online : Bool

  -- The collections that are read. `bookings_paused` is the flag of the branch's booking
  -- configuration, `false` where it has none.
  pub record Providers : Type 0 where
    pub branches : Keyed BranchProfile
    pub washers : Keyed WasherProfile
    pub bookings_paused : ℕ → Bool

  pub record BookableProvider : Type 0 where
    pub washer : Option WasherProfile
    pub provider_uid : String

  pub data Bookable : Type 0 where
    bookable : BookableProvider → Bookable
    branch_not_found washer_not_found washer_inactive washer_unavailable washer_paused : Bookable
    no_service_area out_of_area branch_inactive branch_offline wallet_not_ready : Bookable

  -- ₱100
  abbrev pub discovery_accept_min_centavos : ℤ
  discovery_accept_min_centavos = pos 10000

  abbrev pub wallet_ready : Option Wallet → Bool
  wallet_ready none = false
  wallet_ready (some w) =
      is_some w.activated_at && not (ltb_ℤ w.balance_centavos discovery_accept_min_centavos)

  -- The distance is a parameter: it is made of the runtime's trigonometric functions.
  module _ (distance_km : MapLocation → MapLocation → Double) where
    abbrev pub has_service_area : WasherProfile → Bool
    has_service_area w = is_some w.service_radius_km && is_some w.map_location

    abbrev pub in_radius : Option MapLocation → Option MapLocation → Option Double → Bool
    in_radius (some customer) (some home) (some radius) = le (distance_km customer home) radius
    in_radius _ _ _ = true

    -- The checks of a washer, in order: what she fails, or `none`.
    unfoldable pub washer_fault :
        BookingStage → Option MapLocation → Bool → WasherProfile → Option Bookable
    washer_fault stage customer paused w =
        if not w.is_active
        then some washer_inactive
        else if not (is_accept stage) && not w.is_available
        then some washer_unavailable
        else if not (is_accept stage) && paused
        then some washer_paused
        else if not (is_accept stage) && not (has_service_area w)
        then some no_service_area
        else if not (in_radius customer w.map_location w.service_radius_km)
        then some out_of_area
        else none

    abbrev pub with_wallet : Option Wallet → BookableProvider → Bookable
    with_wallet wallet p = if wallet_ready wallet then bookable p else wallet_not_ready

    abbrev pub washer_bookable :
        BookingStage → Option MapLocation → Bool → Option Wallet → Option WasherProfile → Bookable
    washer_bookable stage customer paused wallet none = washer_not_found
    washer_bookable stage customer paused wallet (some w) =
        elim (washer_fault stage customer paused w) [
          | some fault ↦ fault
          | none ↦ with_wallet wallet (record { washer = some w; provider_uid = w.uid })
        ]

    abbrev pub branch_bookable : Option Wallet → BranchProfile → Bookable
    branch_bookable wallet b =
        if not b.is_active
        then branch_inactive
        else if not b.is_online
        then branch_offline
        else with_wallet wallet (record { washer = none; provider_uid = b.uid })

    unfoldable pub assert_provider_bookable :
        Providers → Db → ProviderType → ℕ → BookingStage → Option MapLocation → Bookable
    unfolding washer_fault
    assert_provider_bookable ps db type branch_id stage customer =
        elim (find branch_id ps.branches) [
          | none ↦ branch_not_found
          | some b ↦ elim type [
            | washer ↦
                washer_bookable stage customer (ps.bookings_paused branch_id)
                  (find branch_id db.wallets) (find branch_id ps.washers)
            | merchant ↦ branch_bookable (find branch_id db.wallets) b
          ]
        ]
