-- ===== src/Booking/Loop.antt =====
-- The loop of `intersectWindows` comes to its end
-- (src/booking-availability/availability-resolution.util.ts).
use lalaba_backend_showcase.Base.{
  ℕ, zero, suc, ◌+◌, ◌≤◌, ◌≡◌, true, false, List, [], ◌∷◌, ltb, length, min, max, arith, inl, inr,
  Bool-cases, refl, map,
}
use lalaba_backend_showcase.Booking.Windows.{
  BookingWindow, Span, window_of, parsed, pushed, normalize_windows, sweep, intersect_windows,
}

-- The turns of `while (i < left.length && j < right.length)`, from the windows that are not dropped
-- yet to the windows that are pushed, up to the end of the loop. There is no fuel in it.
pub data Turns : List Span → List Span → List Span → Type 0 where
  left_ends : {rs : List Span} → Turns [] rs []
  right_ends : {l : Span} {ls : List Span} → Turns (l ∷ ls) [] []
  drop_left :
      {l r : Span} {ls rs out : List Span}
      → ltb l.end r.end ≡ true
      → Turns ls (r ∷ rs) out
      → Turns (l ∷ ls) (r ∷ rs) (pushed (max l.start r.start) (min l.end r.end) out)
  drop_right :
      {l r : Span} {ls rs out : List Span}
      → ltb l.end r.end ≡ false
      → Turns (l ∷ ls) rs out
      → Turns (l ∷ ls) (r ∷ rs) (pushed (max l.start r.start) (min l.end r.end) out)

-- With the sum of the lengths as fuel the loop comes to its end.
sweep_ends : (n : ℕ) (ls rs : List Span) → length ls + length rs ≤ n → Turns ls rs (sweep n ls rs)
unfolding sweep
sweep_ends zero [] rs h = Turns.left_ends
sweep_ends zero (l ∷ ls) rs h = absurd (omega (arith, h))
sweep_ends (suc n) [] rs h = Turns.left_ends
sweep_ends (suc n) (l ∷ ls) [] h = Turns.right_ends
sweep_ends (suc n) (l ∷ ls) (r ∷ rs) h = elim (Bool-cases (ltb l.end r.end)) [
  | inl e ↦ rw (e, sweep) (Turns.drop_left e (sweep_ends n ls (r ∷ rs) (omega (arith, h))))
  | inr e ↦ rw (e, sweep) (Turns.drop_right e (sweep_ends n (l ∷ ls) rs (omega (arith, h))))
]

-- What the turns push is determined by the two lists.
Turns-agree :
    (n : ℕ) {ls rs out : List Span}
    → Turns ls rs out
    → length ls + length rs ≤ n
    → sweep n ls rs ≡ out
unfolding sweep
Turns-agree zero Turns.left_ends h = refl
Turns-agree (suc n) Turns.left_ends h = refl
Turns-agree zero Turns.right_ends h = absurd (omega (arith, h))
Turns-agree (suc n) Turns.right_ends h = refl
Turns-agree zero (Turns.drop_left e t) h = absurd (omega (arith, h))
Turns-agree (suc n) (Turns.drop_left e t) h = rw (e, sweep, Turns-agree n t (omega (arith, h))) refl
Turns-agree zero (Turns.drop_right e t) h = absurd (omega (arith, h))
Turns-agree (suc n) (Turns.drop_right e t) h =
    rw (e, sweep, Turns-agree n t (omega (arith, h))) refl

-- The loop of the intersection ends, whatever the two lists of windows are: there is a list of spans
-- that its turns push until a list is at its end, it is the only one, and the windows of it are what
-- is returned.
pub intersect_loop_ends :
    (a b : List BookingWindow)
    → (out : List Span) × Turns (parsed (normalize_windows a)) (parsed (normalize_windows b)) out
      × ((other : List Span)
          → Turns (parsed (normalize_windows a)) (parsed (normalize_windows b)) other
          → out ≡ other)
      × (intersect_windows a b ≡ map window_of out)
unfolding intersect_windows
intersect_loop_ends a b =
    let l = parsed (normalize_windows a) in
    let r = parsed (normalize_windows b) in
    let n = length l + length r in
    (sweep n l r, sweep_ends n l r (omega arith), λ other t. Turns-agree n t (omega arith), refl)
