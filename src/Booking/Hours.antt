-- ===== src/Booking/Hours.antt =====
-- What normalizing and intersecting booking windows mean for the minutes of the day
-- (`normalizeWindows` and `intersectWindows` of
-- src/booking-availability/availability-resolution.util.ts).
use lalaba_backend_showcase.Base.{
  ℕ, ◌<◌, ◌≡◌, refl, sym, ap, ◌∙◌, inl, inr, Bool, false, ◌&&◌, ◌||◌, Option, none, some, List, [],
  ◌∷◌, map, ltb, leb, arith, Bool-cases,
}
use lalaba_backend_showcase.Booking.Time.{
  parse_hhmm, format_hhmm, parse-format_hhmm, parse_hhmm-bound,
}
use lalaba_backend_showcase.Booking.Windows.{
  BookingWindow, Span, span_of, parsed, sort_spans, merged, window_of, normalize_windows,
}
use lalaba_backend_showcase.Booking.Spans.{
  covers, Fits, Apart, sort_spans-covers, sort_spans-Fits, sort_spans-Sorted, merged-covers,
  merged-Apart,
}

-- The minute lies in the window, from its start on and before its end.
abbrev pub minute_in : ℕ → Option ℕ → Option ℕ → Bool
minute_in t (some s) (some e) = leb s t && ltb t e
minute_in t (some s) none = false
minute_in t none e = false

-- A minute of the day is open if one of the windows has it; a malformed window has none.
abbrev pub is_open : ℕ → List BookingWindow → Bool
is_open t [] = false
is_open t (w ∷ ws) = minute_in t (parse_hhmm w.start) (parse_hhmm w.end) || is_open t ws

span_of-covers :
    (t : ℕ) (s e : Option ℕ) (ss : List Span)
    → covers t (elim (span_of s e) [ none ↦ ss | some x ↦ x ∷ ss ])
      ≡ (minute_in t s e || covers t ss)
span_of-covers t none e ss = refl
span_of-covers t (some s) none ss = refl
span_of-covers t (some s) (some e) ss = ground arith

pub parsed-covers : (t : ℕ) (ws : List BookingWindow) → covers t (parsed ws) ≡ is_open t ws
unfolding parsed
parsed-covers t [] = refl
parsed-covers t (w ∷ ws) =
    span_of-covers t (parse_hhmm w.start) (parse_hhmm w.end) (parsed ws)
    ∙ ap (λ b. minute_in t (parse_hhmm w.start) (parse_hhmm w.end) || b) (parsed-covers t ws)

span_of-Fits :
    (s e : Option ℕ) (ss : List Span)
    → ((m : ℕ) → e ≡ some m → m < 1440)
    → Fits ss
    → Fits (elim (span_of s e) [ none ↦ ss | some x ↦ x ∷ ss ])
span_of-Fits none e ss b f = f
span_of-Fits (some s) none ss b f = f
span_of-Fits (some s) (some e) ss b f = elim (Bool-cases (ltb s e)) [
  | inl h ↦ rw h ((ground arith), b e refl, f)
  | inr h ↦ rw h f
]

parsed-Fits : (ws : List BookingWindow) → Fits (parsed ws)
unfolding parsed
parsed-Fits [] = tt
parsed-Fits (w ∷ ws) =
    span_of-Fits (parse_hhmm w.start) (parse_hhmm w.end) (parsed ws) (parse_hhmm-bound w.end)
      (parsed-Fits ws)

parse-window : (m : ℕ) → m < 1440 → parse_hhmm (format_hhmm m) ≡ some m
parse-window m h = parse-format_hhmm m ∙ ap some (omega arith)

span_of-window :
    (s : Span)
    → s.start < s.end
    → s.end < 1440
    → span_of (parse_hhmm (format_hhmm s.start)) (parse_hhmm (format_hhmm s.end)) ≡ some s
span_of-window s p q =
    rw (parse-window s.start (omega (arith, p, q)), parse-window s.end q) (ground arith)

-- Spans of the day are parsed as they were formatted.
pub parsed-window_of : (ss : List Span) → Fits ss → parsed (map window_of ss) ≡ ss
unfolding parsed
parsed-window_of [] f = refl
parsed-window_of (s ∷ ss) f =
    let rest = parsed (map window_of ss) in
    ap (λ (o : Option Span). elim o as (λ o. List Span) [ none ↦ rest | some x ↦ x ∷ rest ])
      (span_of-window s f.0 f.1)
    ∙ ap (◌∷◌ s) (parsed-window_of ss f.2)

pub Apart-Fits : (ss : List Span) → Apart ss → Fits ss
Apart-Fits [] a = tt
Apart-Fits (s ∷ ss) a = (a.0, a.1, Apart-Fits ss a.3)

abbrev pub cleaned : List BookingWindow → List Span
cleaned ws = merged (sort_spans (parsed ws))

pub cleaned-Apart : (ws : List BookingWindow) → Apart (cleaned ws)
cleaned-Apart ws =
    merged-Apart (sort_spans (parsed ws)) (sort_spans-Fits (parsed ws) (parsed-Fits ws))

pub cleaned-covers : (t : ℕ) (ws : List BookingWindow) → covers t (cleaned ws) ≡ is_open t ws
cleaned-covers t ws =
    merged-covers t (sort_spans (parsed ws)) (sort_spans-Sorted (parsed ws))
    ∙ sort_spans-covers t (parsed ws)
    ∙ parsed-covers t ws

pub parsed-normalize : (ws : List BookingWindow) → parsed (normalize_windows ws) ≡ cleaned ws
unfolding normalize_windows
parsed-normalize ws = parsed-window_of (cleaned ws) (Apart-Fits (cleaned ws) (cleaned-Apart ws))

-- Normalizing opens and closes no minute of the day.
pub normalize-is_open :
    (t : ℕ) (ws : List BookingWindow) → is_open t (normalize_windows ws) ≡ is_open t ws
normalize-is_open t ws =
    sym (parsed-covers t (normalize_windows ws))
    ∙ ap (covers t) (parsed-normalize ws)
    ∙ cleaned-covers t ws
