-- ===== src/Booking/Week.antt =====
-- Which minutes of a day can be booked, and how many bookings it takes
-- (src/booking-availability/availability-resolution.util.ts).
use lalaba_backend_showcase.Base.{
  ℕ, ◌≤◌, min, ◌≡◌, refl, sym, ap, ◌∙◌, inl, inr, Bool, true, false, not, ◌&&◌, ◌||◌, Option, none,
  some, List, [], ◌∷◌, ltb, if◌then◌else◌, arith, Bool-cases,
}
use lalaba_backend_showcase.Booking.Windows.{BookingWindow, intersect_windows}
use lalaba_backend_showcase.Booking.Hours.{is_open, normalize-is_open}
use lalaba_backend_showcase.Booking.Sweep.{intersect-is_open}
use lalaba_backend_showcase.Booking.Time.{parse_hhmm}
use lalaba_backend_showcase.Booking.Day.{
  DayKey, Week, OperatingHoursDay, UniversalDayLike, StoredDay, BookingDateOverride, is_empty,
  slot_windows, all_day, own_windows, own_is_open, bounded, day_config, weekly_from_operating_hours,
  effective_day, weekday_or_blank, date_windows, override_closes, override_limit, or_option, cap_by,
}

-- The hours that the provider chose, minute by minute; a day open for 24 hours ends at 23:59.
abbrev pub own_open : ℕ → OperatingHoursDay → Bool
own_open t d = if d.is_24_hours then ltb t 1439 else is_open t (slot_windows d.time_slots)

-- What the platform's universal day lets through; a day with no windows bounds nothing.
abbrev pub allowed_at : ℕ → Option UniversalDayLike → Bool
allowed_at t none = true
allowed_at t (some b) = b.is_open && (is_empty b.windows || is_open t b.windows)

all_day-is_open : (t : ℕ) → is_open t (all_day ∷ []) ≡ ltb t 1439
unfolding parse_hhmm
all_day-is_open t = ground arith

own_windows-is_open :
    (t : ℕ) (d : OperatingHoursDay) → is_open t (own_windows (some d)) ≡ own_open t d
unfolding own_windows
own_windows-is_open t d = elim (Bool-cases d.is_24_hours) [
  | inl e ↦ rw e (all_day-is_open t)
  | inr e ↦ rw e (normalize-is_open t (slot_windows d.time_slots))
]

and_true : (b : Bool) → (b && true) ≡ b
and_true true = refl
and_true false = refl

and_false : (b : Bool) → (b && false) ≡ false
and_false true = refl
and_false false = refl

bounded-is_open :
    (t : ℕ) (u : Option UniversalDayLike) (o : Bool) (ws : List BookingWindow)
    → is_open t (bounded u o ws).1 ≡ (is_open t ws && allowed_at t u)
unfolding bounded
bounded-is_open t none o ws = sym (and_true (is_open t ws))
bounded-is_open t (some b) o ws = elim (Bool-cases b.is_open) [
  | inr shut ↦ rw shut (sym (and_false (is_open t ws)))
  | inl up ↦ elim (Bool-cases (is_empty b.windows)) [
    | inl e ↦ rw (up, e) (sym (and_true (is_open t ws)))
    | inr e ↦ rw (up, e) (intersect-is_open t ws b.windows)
  ]
]

own_windows-is_24_hours :
    (t : ℕ) (h : Option OperatingHoursDay)
    → is_open t (own_windows h) ≡ (elim h [ none ↦ false | some d ↦ own_open t d ])
unfolding own_windows
own_windows-is_24_hours t none = normalize-is_open t []
own_windows-is_24_hours t (some d) = own_windows-is_open t d

bound_opens : Option UniversalDayLike → Bool
bound_opens none = true
bound_opens (some b) = b.is_open

and_not : (a e : Bool) → (a && not e) ≡ true → (a ≡ true) × (e ≡ false)
and_not a e h = ground arith

opens_inside :
    (up e f o : Bool) (ws inside : List BookingWindow)
    → (if◌then◌else◌ {A = Bool × List BookingWindow}
        (not up)
        (false, [])
        (if not e then ((if f then false else o), inside) else (o, ws))).0
      ≡ true
    → (o ≡ true) × (up ≡ true)
opens_inside up e f o ws inside h = ground arith

bounded-opens :
    (u : Option UniversalDayLike) (o : Bool) (ws : List BookingWindow)
    → (bounded u o ws).0 ≡ true
    → (o ≡ true) × (bound_opens u ≡ true)
unfolding bounded bound_opens
bounded-opens none o ws h = (h, refl)
bounded-opens (some b) o ws h =
    opens_inside b.is_open (is_empty b.windows) (is_empty (intersect_windows ws b.windows)) o ws
      (intersect_windows ws b.windows) h

accepting-bounded :
    (u : Option UniversalDayLike) (o : Bool) (ws : List BookingWindow)
    → ((bounded u o ws).0 && not (is_empty (bounded u o ws).1)) ≡ true
    → (o ≡ true) × (bound_opens u ≡ true) × (is_empty (bounded u o ws).1 ≡ false)
unfolding bounded bound_opens
accepting-bounded u o ws h =
    let (opens, some_window) = and_not (bounded u o ws).0 (is_empty (bounded u o ws).1) h in
    let (own, bound) = bounded-opens u o ws opens in (own, bound, some_window)

-- Minute by minute, a day of the projected week is open where the provider's own hours are open and
-- the platform's universal day lets it through; a day that accepts bookings is one that she opened
-- and that the platform opened, and has at least one window.
pub weekly_from_operating_hours-is_open :
    (hours : Week OperatingHoursDay) (stored : Week StoredDay) (universal : Week UniversalDayLike)
    (key : DayKey) (t : ℕ)
    → (is_open t (weekly_from_operating_hours hours stored universal key).windows ≡ (
        (elim (hours key) [ none ↦ false | some d ↦ own_open t d ])
        && allowed_at t (universal key)))
      × ((weekly_from_operating_hours hours stored universal key).is_accepting_bookings ≡ true
          → (own_is_open (hours key) ≡ true)
            × ((elim (universal key) [ none ↦ true | some b ↦ b.is_open ]) ≡ true)
            × (is_empty (weekly_from_operating_hours hours stored universal key).windows ≡ false))
unfolding weekly_from_operating_hours day_config bound_opens
weekly_from_operating_hours-is_open hours stored universal key t = (
  bounded-is_open t (universal key) (own_is_open (hours key)) (own_windows (hours key))
      ∙ ap (λ b. b && allowed_at t (universal key)) (own_windows-is_24_hours t (hours key)),
  λ h. accepting-bounded (universal key) (own_is_open (hours key)) (own_windows (hours key)) h,
)

requested_of : Option ℕ → Option ℕ → Option ℕ → Option ℕ
requested_of a b c = or_option a (or_option b c)

capped :
    (r : Option ℕ) (e : ℕ)
    → (c : ℕ) × (cap_by r (some e) ≡ some c) × (c ≤ e) × ((n : ℕ) → r ≡ some n → c ≤ n)
capped none e = (e, refl, (omega arith), λ n h. cc)
capped (some r) e = (min r e, refl, (omega arith), λ n h. ground arith)

-- On a date the open minutes are those of the override's windows, or else the weekday's, or else
-- the default window; an override that closes the date is obeyed; and where the platform has a
-- capacity for the provider, the date has a limit that is neither above it nor above what was
-- asked for (by the override, or else the weekday, or else the provider).
effective_day_rules :
    (weekly : Week StoredDay) (limit : Option ℕ) (key : DayKey) (entitled : ℕ)
    (override : Option BookingDateOverride) (t : ℕ)
    → let day = effective_day weekly limit key (some entitled) override in
      let weekday = weekday_or_blank (weekly key) in
      (is_open t day.windows ≡ is_open t (date_windows override weekday))
      × (override_closes override ≡ true → day.is_accepting_bookings ≡ false)
      × ((c : ℕ) × (day.daily_booking_limit ≡ some c)
          × (c ≤ entitled)
          × ((n : ℕ)
              → or_option (override_limit override) (or_option weekday.daily_booking_limit limit)
                ≡ some n
              → c ≤ n))
unfolding effective_day
effective_day_rules weekly limit key entitled override t =
    let weekday = weekday_or_blank (weekly key) in
    (
      normalize-is_open t (date_windows override weekday),
      (λ h. rw h refl),
      capped (or_option (override_limit override) (or_option weekday.daily_booking_limit limit))
          entitled,
    )
