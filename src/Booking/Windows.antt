-- ===== src/Booking/Windows.antt =====
-- Booking windows (`normalizeWindows`, `intersectWindows` of
-- src/booking-availability/availability-resolution.util.ts).
use lalaba_backend_showcase.Base.{
  ℕ, zero, suc, ◌+◌, true, false, Option, none, some, List, [], ◌∷◌, map, ltb, leb, if◌then◌else◌,
  length, min, max,
}
use lalaba_backend_showcase.Booking.Time.{Text, parse_hhmm, format_hhmm}

pub record BookingWindow : Type 0 where
  pub start : Text
  pub end : Text

-- A window in minutes of the day.
pub record Span : Type 0 where
  pub start : ℕ
  pub end : ℕ

abbrev pub span_of : Option ℕ → Option ℕ → Option Span
span_of (some s) (some e) = if ltb s e then some (record { start = s; end = e }) else none
span_of (some s) none = none
span_of none e = none

-- The three steps `map`, `filter` (not NaN) and `filter` (`end > start`).
unfoldable pub parsed : List BookingWindow → List Span
parsed [] = []
parsed (w ∷ ws) = elim (span_of (parse_hhmm w.start) (parse_hhmm w.end)) [
  | none ↦ parsed ws
  | some s ↦ s ∷ parsed ws
]

-- `sort((a, b) => a.start - b.start)`, which is stable.
abbrev pub insert_span : Span → List Span → List Span
insert_span s [] = s ∷ []
insert_span s (r ∷ rs) = elim (leb s.start r.start) [
  | true ↦ s ∷ r ∷ rs
  | false ↦ r ∷ insert_span s rs
]

unfoldable pub sort_spans : List Span → List Span
sort_spans [] = []
sort_spans (s ∷ ss) = insert_span s (sort_spans ss)

-- The loop over the sorted windows, with the last merged one.
unfoldable pub merge_from : Span → List Span → List Span
merge_from last [] = last ∷ []
merge_from last (w ∷ ws) = elim (leb w.start last.end) [
  | true ↦ merge_from (record last { end = max last.end w.end }) ws
  | false ↦ last ∷ merge_from w ws
]

unfoldable pub merged : List Span → List Span
unfolding merge_from
merged [] = []
merged (w ∷ ws) = merge_from w ws

abbrev pub window_of : Span → BookingWindow
window_of s = record { start = format_hhmm s.start; end = format_hhmm s.end }

unfoldable pub normalize_windows : List BookingWindow → List BookingWindow
unfolding merged sort_spans parsed
normalize_windows ws = map window_of (merged (sort_spans (parsed ws)))

-- `if (end > start) out.push(…)`
abbrev pub pushed : ℕ → ℕ → List Span → List Span
pushed s e out = if ltb s e then record { start = s; end = e } ∷ out else out

-- The two-pointer sweep. Each turn drops the window that closes first, so the sum of the lengths
-- is enough fuel.
unfoldable pub sweep : ℕ → List Span → List Span → List Span
sweep zero ls rs = []
sweep (suc n) [] rs = []
sweep (suc n) (l ∷ ls) [] = []
sweep (suc n) (l ∷ ls) (r ∷ rs) =
    pushed (max l.start r.start) (min l.end r.end)
      (elim (ltb l.end r.end) [ true ↦ sweep n ls (r ∷ rs) | false ↦ sweep n (l ∷ ls) rs ])

-- `normalizeWindows(ws).map(…)`: what is normalized is parsed again.
unfoldable pub intersect_windows : List BookingWindow → List BookingWindow → List BookingWindow
unfolding sweep normalize_windows
intersect_windows a b =
    let left = parsed (normalize_windows a) in
    let right = parsed (normalize_windows b) in
    map window_of (sweep (length left + length right) left right)
