-- ===== src/Booking/Day.antt =====
-- The rules in force for one date (src/booking-availability/availability-resolution.util.ts): a
-- provider's own hours projected onto the week, date overrides, and capacity.
use Prim.Native.String.{String}
use lalaba_backend_showcase.Base.{
  ℕ, min, Bool, true, false, not, ◌&&◌, Option, none, some, List, [], ◌∷◌, map, if◌then◌else◌,
  or_else, is_some,
}
use lalaba_backend_showcase.Booking.Time.{Text}
use lalaba_backend_showcase.Booking.Windows.{BookingWindow, normalize_windows, intersect_windows}

pub data DayKey : Type 0 where
  sunday monday tuesday wednesday thursday friday saturday : DayKey

-- `Partial<Record<DayKey, A>>`
abbrev pub Week : Type 0 → Type 0
Week A = DayKey → Option A

pub record DayFulfillment : Type 0 where
  pub provider_pickup : Bool
  pub provider_delivery : Bool
  pub customer_dropoff : Bool
  pub customer_pickup : Bool

-- A stored block, of which each field may be absent; `pickup_and_delivery` is the field of old
-- documents.
pub record StoredFulfillment : Type 0 where
  pub provider_pickup : Option Bool
  pub provider_delivery : Option Bool
  pub customer_dropoff : Option Bool
  pub customer_pickup : Option Bool
  pub pickup_and_delivery : Option Bool

abbrev pub fallback_fulfillment : DayFulfillment
fallback_fulfillment = record {
  provider_pickup = true;
  provider_delivery = true;
  customer_dropoff = true;
  customer_pickup = true;
}

unfoldable pub day_fulfillment_of : Option StoredFulfillment → DayFulfillment
day_fulfillment_of none = fallback_fulfillment
day_fulfillment_of (some f) = record {
  provider_pickup = or_else f.provider_pickup (or_else f.pickup_and_delivery true);
  provider_delivery = or_else f.provider_delivery (or_else f.pickup_and_delivery true);
  customer_dropoff = or_else f.customer_dropoff true;
  customer_pickup = or_else f.customer_pickup true;
}

pub record TimeSlot : Type 0 where
  pub open_time : Text
  pub close_time : Text

pub record OperatingHoursDay : Type 0 where
  pub is_open : Bool
  pub is_24_hours : Bool
  pub time_slots : List TimeSlot

pub record UniversalDayLike : Type 0 where
  pub is_open : Bool
  pub windows : List BookingWindow

-- A stored weekday: each field may be absent.
pub record StoredDay : Type 0 where
  pub is_accepting_bookings : Option Bool
  pub windows : List BookingWindow
  pub daily_booking_limit : Option ℕ
  pub fulfillment : Option StoredFulfillment

pub record DayBookingConfig : Type 0 where
  pub is_accepting_bookings : Bool
  pub windows : List BookingWindow
  pub daily_booking_limit : Option ℕ
  pub fulfillment : DayFulfillment

abbrev pub is_empty {ℓ} : {A : Type ℓ} → List A → Bool
is_empty [] = true
is_empty (x ∷ xs) = false

-- '00:00' to '23:59', in code units
abbrev pub all_day : BookingWindow
all_day = record { start = 48 ∷ 48 ∷ 58 ∷ 48 ∷ 48 ∷ []; end = 50 ∷ 51 ∷ 58 ∷ 53 ∷ 57 ∷ [] }

abbrev pub slot_windows : List TimeSlot → List BookingWindow
slot_windows slots = map (λ s. record { start = s.open_time; end = s.close_time }) slots

unfoldable pub own_windows : Option OperatingHoursDay → List BookingWindow
unfolding normalize_windows
own_windows none = normalize_windows []
own_windows (some d) =
    if d.is_24_hours then all_day ∷ [] else normalize_windows (slot_windows d.time_slots)

abbrev pub own_is_open : Option OperatingHoursDay → Bool
own_is_open none = false
own_is_open (some d) = d.is_open

-- `isOpen` and `windows` after the platform's bound of the day.
unfoldable pub bounded :
    Option UniversalDayLike → Bool → List BookingWindow → Bool × List BookingWindow
unfolding intersect_windows
bounded none is_open windows = (is_open, windows)
bounded (some b) is_open windows =
    if not b.is_open
    then (false, [])
    else if not (is_empty b.windows)
    then (let inside = intersect_windows windows b.windows in
        (if is_empty inside then false else is_open, inside))
    else (is_open, windows)

unfoldable pub day_config : Bool × List BookingWindow → Option StoredFulfillment → DayBookingConfig
unfolding day_fulfillment_of
day_config (is_open, windows) fulfillment = record {
  is_accepting_bookings = is_open && not (is_empty windows);
  windows = windows;
  daily_booking_limit = none;
  fulfillment = day_fulfillment_of fulfillment;
}

abbrev pub stored_fulfillment : Option StoredDay → Option StoredFulfillment
stored_fulfillment none = none
stored_fulfillment (some d) = d.fulfillment

unfoldable pub weekly_from_operating_hours :
    Week OperatingHoursDay → Week StoredDay → Week UniversalDayLike → DayKey → DayBookingConfig
unfolding own_windows bounded day_config
weekly_from_operating_hours hours stored universal key =
    day_config (bounded (universal key) (own_is_open (hours key)) (own_windows (hours key)))
      (stored_fulfillment (stored key))

-- A cap; the result `none` is `Infinity`.
abbrev pub cap_by : Option ℕ → Option ℕ → Option ℕ
cap_by requested none = requested
cap_by none (some entitled) = some entitled
cap_by (some requested) (some entitled) = some (min requested entitled)

pub record BookingDateOverride : Type 0 where
  pub is_closed : Bool
  pub windows : List BookingWindow
  pub daily_booking_limit : Option ℕ
  pub fulfillment : Option StoredFulfillment
  pub label : Option String

pub record EffectiveDay : Type 0 where
  pub is_accepting_bookings : Bool
  pub windows : List BookingWindow
  pub daily_booking_limit : Option ℕ
  pub fulfillment : DayFulfillment
  pub is_special_date : Bool
  pub special_date_label : Option String

-- '08:00' to '20:00', in code units
abbrev pub default_window : BookingWindow
default_window = record { start = 48 ∷ 56 ∷ 58 ∷ 48 ∷ 48 ∷ []; end = 50 ∷ 48 ∷ 58 ∷ 48 ∷ 48 ∷ [] }

-- `a ?? b`, where the result may be absent too.
abbrev pub or_option {ℓ} : {A : Type ℓ} → Option A → Option A → Option A
or_option none b = b
or_option (some a) b = some a

-- `config.weekly?.[dayKey] ?? {}`
abbrev pub weekday_or_blank : Option StoredDay → StoredDay
weekday_or_blank none = record {
  is_accepting_bookings = none;
  windows = [];
  daily_booking_limit = none;
  fulfillment = none;
}
weekday_or_blank (some d) = d

abbrev pub override_limit : Option BookingDateOverride → Option ℕ
override_limit none = none
override_limit (some o) = o.daily_booking_limit

abbrev pub override_fulfillment : Option BookingDateOverride → Option StoredFulfillment
override_fulfillment none = none
override_fulfillment (some o) = o.fulfillment

abbrev pub override_closes : Option BookingDateOverride → Bool
override_closes none = false
override_closes (some o) = o.is_closed

abbrev pub override_label : Option BookingDateOverride → Option String
override_label none = none
override_label (some o) = o.label

abbrev pub weekday_windows : StoredDay → List BookingWindow
weekday_windows d = if not (is_empty d.windows) then d.windows else default_window ∷ []

-- `overrideWindows ?? weekdayWindows`
abbrev pub date_windows : Option BookingDateOverride → StoredDay → List BookingWindow
date_windows none d = weekday_windows d
date_windows (some o) d = if not (is_empty o.windows) then o.windows else weekday_windows d

-- `weekly` and `config_limit` are fields of the config, `entitled` is the entitlement's capacity.
unfoldable pub effective_day :
    Week StoredDay → Option ℕ → DayKey → Option ℕ → Option BookingDateOverride → EffectiveDay
unfolding normalize_windows day_fulfillment_of
effective_day weekly config_limit key entitled override =
    let day = weekday_or_blank (weekly key) in
    record {
      is_accepting_bookings =
          if override_closes override then false else or_else day.is_accepting_bookings true;
      windows = normalize_windows (date_windows override day);
      daily_booking_limit =
          cap_by
            (or_option (override_limit override) (or_option day.daily_booking_limit config_limit))
            entitled;
      fulfillment = day_fulfillment_of (or_option (override_fulfillment override) day.fulfillment);
      is_special_date = is_some override;
      special_date_label = override_label override;
    }
