-- ===== src/Booking/Time.antt =====
-- 'HH:MM' texts and minutes since midnight (src/common/utils/ph-time.util.ts). A text is the list of
-- its UTF-16 code units.
use lalaba_backend_showcase.Base.{
  ℕ, ◌+◌, ◌-◌, ◌*◌, ◌/◌, ◌%◌, ◌<◌, ◌≡◌, ap, ◌&&◌, ◌||◌, Option, none, some, List, [], ◌∷◌, ◌++◌,
  ltb, leb, ◌==◌, if◌then◌else◌, arith,
}

abbrev pub Text : Type 0
Text = List ℕ

-- `\d`
abbrev pub digit : ℕ → Option ℕ
digit c = if leb 48 c && leb c 57 then some (c - 48) else none

abbrev pub two_digits : Option ℕ → Option ℕ → Option ℕ
two_digits (some a) (some b) = some (10 * a + b)
two_digits (some a) none = none
two_digits none b = none

abbrev pub both : Option ℕ → Option ℕ → Option (ℕ × ℕ)
both (some h) (some m) = some (h, m)
both (some h) none = none
both none m = none

-- The groups of `/^(\d{1,2}):(\d{2})$/`; 58 is the colon.
abbrev pub matched : Text → Option (ℕ × ℕ)
matched (a ∷ c ∷ d ∷ e ∷ []) =
    if c == 58 then both (digit a) (two_digits (digit d) (digit e)) else none
matched (a ∷ b ∷ c ∷ d ∷ e ∷ []) =
    if c == 58 then both (two_digits (digit a) (digit b)) (two_digits (digit d) (digit e)) else none
matched _ = none

abbrev minutes_of : Option (ℕ × ℕ) → Option ℕ
minutes_of none = none
minutes_of (some (h, m)) = if ltb 23 h || ltb 59 m then none else some (h * 60 + m)

-- `none` is NaN.
unfoldable pub parse_hhmm : Text → Option ℕ
parse_hhmm t = minutes_of (matched t)

-- `String(n).padStart(2, '0')` of a number below 100
abbrev pub padded : ℕ → Text
padded n = (48 + n / 10) ∷ (48 + n % 10) ∷ []

unfoldable pub format_hhmm : ℕ → Text
format_hhmm minutes =
    let m = (minutes % 1440 + 1440) % 1440 in padded (m / 60) ++ 58 ∷ padded (m % 60)

digit-padded : (n : ℕ) → n < 10 → digit (48 + n) ≡ some n
digit-padded n h = ground arith

two_digits-padded :
    (n : ℕ) → n < 100 → two_digits (digit (48 + n / 10)) (digit (48 + n % 10)) ≡ some n
two_digits-padded n h =
    rw (digit-padded (n / 10) (omega arith), digit-padded (n % 10) (omega arith))
      (ap some (omega arith))

-- Formatting and then parsing gives the minutes of the day back.
pub parse-format_hhmm : (minutes : ℕ) → parse_hhmm (format_hhmm minutes) ≡ some (minutes % 1440)
unfolding parse_hhmm format_hhmm
parse-format_hhmm minutes =
    let m = (minutes % 1440 + 1440) % 1440 in
    rw (two_digits-padded (m / 60) (omega arith), two_digits-padded (m % 60) (omega arith))
      (ground arith)

minutes_of-bound : (o : Option (ℕ × ℕ)) (m : ℕ) → minutes_of o ≡ some m → m < 1440
minutes_of-bound none m h = cc
minutes_of-bound (some (a, b)) m h = ground arith

pub parse_hhmm-bound : (t : Text) (m : ℕ) → parse_hhmm t ≡ some m → m < 1440
unfolding parse_hhmm
parse_hhmm-bound t m h = minutes_of-bound (matched t) m h
