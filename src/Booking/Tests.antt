-- ===== src/Booking/Tests.antt =====
-- Windows and days on which the theorems about booking apply.
use lalaba_backend_showcase.Base.{◌≡◌, true, false, ◌&&◌, none, some, List, [], ◌∷◌, map}
use lalaba_backend_showcase.Booking.Time.{Text}
use lalaba_backend_showcase.Booking.Windows.{
  BookingWindow, Span, window_of, parsed, normalize_windows, intersect_windows,
}
use lalaba_backend_showcase.Booking.Spans.{Apart}
use lalaba_backend_showcase.Booking.Hours.{is_open, normalize-is_open}
use lalaba_backend_showcase.Booking.Sweep.{intersect-is_open}
use lalaba_backend_showcase.Booking.Loop.{Turns, intersect_loop_ends}
use lalaba_backend_showcase.Booking.Canonical.{normalize-canonical}
use lalaba_backend_showcase.Booking.Day.{
  DayKey, Week, OperatingHoursDay, UniversalDayLike, StoredDay, BookingDateOverride, is_empty,
  own_is_open, weekly_from_operating_hours,
}
use lalaba_backend_showcase.Booking.Week.{own_open, allowed_at, weekly_from_operating_hours-is_open}

-- '08:00', '9:30', '12:00' and 'late'
abbrev eight : Text
eight = 48 ∷ 56 ∷ 58 ∷ 48 ∷ 48 ∷ []

abbrev half_past_nine : Text
half_past_nine = 57 ∷ 58 ∷ 51 ∷ 48 ∷ []

abbrev noon : Text
noon = 49 ∷ 50 ∷ 58 ∷ 48 ∷ 48 ∷ []

abbrev late : Text
late = 108 ∷ 97 ∷ 116 ∷ 101 ∷ []

abbrev morning : List BookingWindow
morning =
    record { start = half_past_nine; end = noon }
    ∷ record { start = noon; end = late }
    ∷ record { start = eight; end = half_past_nine }
    ∷ []

abbrev early : List BookingWindow
early = record { start = eight; end = half_past_nine } ∷ []

normalize-is_open_example : is_open 600 (normalize_windows morning) ≡ is_open 600 morning
normalize-is_open_example = normalize-is_open 600 morning

normalize-canonical_example :
    ((ss : List Span) × (Apart ss) × (normalize_windows morning ≡ map window_of ss))
    × (normalize_windows (normalize_windows morning) ≡ normalize_windows morning)
normalize-canonical_example = normalize-canonical morning

intersect-is_open_example :
    is_open 600 (intersect_windows morning early) ≡ (is_open 600 morning && is_open 600 early)
intersect-is_open_example = intersect-is_open 600 morning early

intersect_loop_ends_example :
    (out : List Span) × Turns
      (parsed (normalize_windows morning))
      (parsed (normalize_windows early))
      out
    × ((other : List Span)
        → Turns (parsed (normalize_windows morning)) (parsed (normalize_windows early)) other
        → out ≡ other)
    × (intersect_windows morning early ≡ map window_of out)
intersect_loop_ends_example = intersect_loop_ends morning early

abbrev her_day : OperatingHoursDay
her_day = record {
  is_open = true;
  is_24_hours = false;
  time_slots = record { open_time = eight; close_time = noon } ∷ [];
}

abbrev hers : Week OperatingHoursDay
hers key = some her_day

abbrev nothing_stored : Week StoredDay
nothing_stored key = none

abbrev platform_day : UniversalDayLike
platform_day = record { is_open = true; windows = early }

abbrev platform_week : Week UniversalDayLike
platform_week key = some platform_day

weekly_from_operating_hours-is_open_example :
    (is_open 500
        (weekly_from_operating_hours hers nothing_stored platform_week DayKey.monday).windows
      ≡ (own_open 500 her_day && allowed_at 500 (some platform_day)))
    × ((weekly_from_operating_hours hers nothing_stored platform_week
            DayKey.monday).is_accepting_bookings
          ≡ true
        → (own_is_open (some her_day) ≡ true)
          × (true ≡ true)
          × (is_empty
                (weekly_from_operating_hours hers nothing_stored platform_week
                  DayKey.monday).windows
              ≡ false))
weekly_from_operating_hours-is_open_example =
    weekly_from_operating_hours-is_open hers nothing_stored platform_week DayKey.monday 500

abbrev holiday : BookingDateOverride
holiday = record {
  is_closed = false;
  windows = early;
  daily_booking_limit = some 9;
  fulfillment = none;
  label = some "Fiesta";
}
