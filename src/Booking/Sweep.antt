-- ===== src/Booking/Sweep.antt =====
-- The two-pointer sweep of `intersectWindows`
-- (src/booking-availability/availability-resolution.util.ts), minute by minute.
use lalaba_backend_showcase.Base.{
  ℕ, zero, suc, ◌+◌, ◌≤◌, ◌<◌, ◌≡◌, refl, sym, ap, ◌∙◌, inl, inr, Bool, true, false, ◌&&◌, ◌||◌,
  List, [], ◌∷◌, map, ltb, length, min, max, arith, Bool-cases,
}
use lalaba_backend_showcase.Booking.Windows.{
  BookingWindow, Span, window_of, pushed, sweep, intersect_windows,
}
use lalaba_backend_showcase.Booking.Spans.{within, covers, Fits, After, Apart}
use lalaba_backend_showcase.Booking.Hours.{
  is_open, parsed-covers, parsed-window_of, Apart-Fits, cleaned, cleaned-Apart, cleaned-covers,
  parsed-normalize,
}

pushed-covers :
    (t : ℕ) (l r : Span) (out : List Span)
    → covers t (pushed (max l.start r.start) (min l.end r.end) out)
      ≡ ((within t l && within t r) || covers t out)
pushed-covers t l r out = ground arith

past : (t e : ℕ) (rs : List Span) → After e rs → Apart rs → t ≤ e → covers t rs ≡ false
past t e [] a p h = refl
past t e (r ∷ rs) a p h =
    let rest = past t r.end rs p.2 p.3 (omega (arith, a, p.0, h)) in ground (arith, rest, a, h)

sweep-step :
    (wl wr cl cr c : Bool)
    → (wl ≡ true → cr ≡ false)
    → c ≡ (cl && (wr || cr))
    → ((wl && wr) || c) ≡ ((wl || cl) && (wr || cr))
sweep-step wl wr cl cr c h e = ground arith

sweep-step_sym :
    (wl wr cl cr c : Bool)
    → (wr ≡ true → cl ≡ false)
    → c ≡ ((wl || cl) && cr)
    → ((wl && wr) || c) ≡ ((wl || cl) && (wr || cr))
sweep-step_sym wl wr cl cr c h e = ground arith

and_false : (b : Bool) → (b && false) ≡ false
and_false true = refl
and_false false = refl

-- With the sum of the lengths as fuel the sweep covers what both lists cover.
sweep-covers :
    (t n : ℕ) (ls rs : List Span)
    → Apart ls
    → Apart rs
    → length ls + length rs ≤ n
    → covers t (sweep n ls rs) ≡ (covers t ls && covers t rs)
unfolding sweep
sweep-covers t zero [] rs a b h = refl
sweep-covers t zero (l ∷ ls) rs a b h = absurd (omega (arith, h))
sweep-covers t (suc n) [] rs a b h = refl
sweep-covers t (suc n) (l ∷ ls) [] a b h = sym (and_false (covers t (l ∷ ls)))
sweep-covers t (suc n) (l ∷ ls) (r ∷ rs) a b h = elim (Bool-cases (ltb l.end r.end)) [
  | inl e ↦
      rw (e, sweep)
        (pushed-covers t l r (sweep n ls (r ∷ rs))
          ∙ sweep-step (within t l) (within t r) (covers t ls) (covers t rs)
              (covers t (sweep n ls (r ∷ rs))) (λ w. past t r.end rs b.2 b.3 (ground arith))
              (sweep-covers t n ls (r ∷ rs) a.3 b (omega (arith, h))))
  | inr e ↦
      rw (e, sweep)
        (pushed-covers t l r (sweep n (l ∷ ls) rs)
          ∙ sweep-step_sym (within t l) (within t r) (covers t ls) (covers t rs)
              (covers t (sweep n (l ∷ ls) rs)) (λ w. past t l.end ls a.2 a.3 (ground arith))
              (sweep-covers t n (l ∷ ls) rs a b.3 (omega (arith, h))))
]

pushed-Fits :
    (l r : Span) (out : List Span)
    → l.end < 1440
    → Fits out
    → Fits (pushed (max l.start r.start) (min l.end r.end) out)
pushed-Fits l r out h f = elim (Bool-cases (ltb (max l.start r.start) (min l.end r.end))) [
  | inl e ↦ rw (e, pushed) ((ground arith), (ground arith), f)
  | inr e ↦ rw (e, pushed) f
]

sweep-Fits : (n : ℕ) (ls rs : List Span) → Fits ls → Fits rs → Fits (sweep n ls rs)
unfolding sweep
sweep-Fits zero ls rs f g = tt
sweep-Fits (suc n) [] rs f g = tt
sweep-Fits (suc n) (l ∷ ls) [] f g = tt
sweep-Fits (suc n) (l ∷ ls) (r ∷ rs) f g = elim (Bool-cases (ltb l.end r.end)) [
  | inl e ↦
      rw (e, sweep) (pushed-Fits l r (sweep n ls (r ∷ rs)) f.1 (sweep-Fits n ls (r ∷ rs) f.2 g))
  | inr e ↦
      rw (e, sweep) (pushed-Fits l r (sweep n (l ∷ ls) rs) f.1 (sweep-Fits n (l ∷ ls) rs f g.2))
]

-- A minute of the day is open in the intersection exactly when it is open in both lists of windows,
-- however the lists are ordered and whether or not their windows overlap or are malformed.
pub intersect-is_open :
    (t : ℕ) (a b : List BookingWindow)
    → is_open t (intersect_windows a b) ≡ (is_open t a && is_open t b)
unfolding intersect_windows
intersect-is_open t a b =
    rw (parsed-normalize a, parsed-normalize b)
      (let l = cleaned a in
        let r = cleaned b in
        let swept = sweep (length l + length r) l r in
        let fits =
          sweep-Fits (length l + length r) l r (Apart-Fits l (cleaned-Apart a))
            (Apart-Fits r (cleaned-Apart b)) in
        sym (parsed-covers t (map window_of swept))
        ∙ ap (covers t) (parsed-window_of swept fits)
        ∙ sweep-covers t (length l + length r) l r (cleaned-Apart a) (cleaned-Apart b) (omega arith)
        ∙ rw (cleaned-covers t a, cleaned-covers t b) refl)
