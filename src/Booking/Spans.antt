-- ===== src/Booking/Spans.antt =====
-- The minutes that spans cover, and how sorting, merging and sweeping change them.
use lalaba_backend_showcase.Base.{
  ℕ, ◌≤◌, ◌<◌, ◌≡◌, refl, ap, ◌∙◌, inl, inr, Bool, false, ◌&&◌, ◌||◌, List, [], ◌∷◌, ltb, leb, max,
  arith, Bool-cases,
}
use lalaba_backend_showcase.Booking.Windows.{Span, insert_span, sort_spans, merge_from, merged}

abbrev pub within : ℕ → Span → Bool
within t s = leb s.start t && ltb t s.end

abbrev pub covers : ℕ → List Span → Bool
covers t [] = false
covers t (s ∷ ss) = within t s || covers t ss

insert_span-covers :
    (t : ℕ) (s : Span) (rs : List Span) → covers t (insert_span s rs) ≡ (within t s || covers t rs)
insert_span-covers t s [] = refl
insert_span-covers t s (r ∷ rs) = elim (Bool-cases (leb s.start r.start)) [
  | inl e ↦ rw (e, covers, insert_span) refl
  | inr e ↦ rw (e, covers, insert_span, insert_span-covers t s rs) (ground arith)
]

pub sort_spans-covers : (t : ℕ) (ss : List Span) → covers t (sort_spans ss) ≡ covers t ss
unfolding sort_spans
sort_spans-covers t [] = refl
sort_spans-covers t (s ∷ ss) =
    insert_span-covers t s (sort_spans ss) ∙ ap (◌||◌ (within t s)) (sort_spans-covers t ss)

-- No span is empty, and each is within the day.
abbrev pub Fits : List Span → Type 0
Fits [] = Unit
Fits (s ∷ ss) = (s.start < s.end) × (s.end < 1440) × Fits ss

-- The starts do not go down.
abbrev pub SortedFrom : Span → List Span → Type 0
SortedFrom s [] = Unit
SortedFrom s (r ∷ rs) = (s.start ≤ r.start) × SortedFrom r rs

abbrev pub Sorted : List Span → Type 0
Sorted [] = Unit
Sorted (s ∷ ss) = SortedFrom s ss

-- In order, with a gap between any two.
abbrev pub After : ℕ → List Span → Type 0
After e [] = Unit
After e (r ∷ rs) = e < r.start

abbrev pub Apart : List Span → Type 0
Apart [] = Unit
Apart (s ∷ ss) = (s.start < s.end) × (s.end < 1440) × After s.end ss × Apart ss

insert_span-Fits :
    (s : Span) (rs : List Span) → s.start < s.end → s.end < 1440 → Fits rs → Fits (insert_span s rs)
insert_span-Fits s [] p q f = (p, q, tt)
insert_span-Fits s (r ∷ rs) p q f = elim (Bool-cases (leb s.start r.start)) [
  | inl e ↦ rw (e, Fits, insert_span) (p, q, f)
  | inr e ↦ rw (e, Fits, insert_span) (f.0, f.1, insert_span-Fits s rs p q f.2)
]

pub sort_spans-Fits : (ss : List Span) → Fits ss → Fits (sort_spans ss)
unfolding sort_spans
sort_spans-Fits [] f = tt
sort_spans-Fits (s ∷ ss) f = insert_span-Fits s (sort_spans ss) f.0 f.1 (sort_spans-Fits ss f.2)

insert_span-SortedFrom :
    (s r : Span) (rs : List Span)
    → r.start ≤ s.start
    → SortedFrom r rs
    → SortedFrom r (insert_span s rs)
insert_span-SortedFrom s r [] p o = (p, tt)
insert_span-SortedFrom s r (x ∷ rs) p o = elim (Bool-cases (leb s.start x.start)) [
  | inl e ↦ rw (e, SortedFrom, insert_span) (p, ((ground arith), o.1))
  | inr e ↦ rw (e, SortedFrom, insert_span) (o.0, insert_span-SortedFrom s x rs (ground arith) o.1)
]

insert_span-Sorted : (s : Span) (rs : List Span) → Sorted rs → Sorted (insert_span s rs)
insert_span-Sorted s [] o = tt
insert_span-Sorted s (r ∷ rs) o = elim (Bool-cases (leb s.start r.start)) [
  | inl e ↦ rw (e, Sorted, insert_span) ((ground arith), o)
  | inr e ↦ rw (e, Sorted, insert_span) (insert_span-SortedFrom s r rs (ground arith) o)
]

pub sort_spans-Sorted : (ss : List Span) → Sorted (sort_spans ss)
unfolding sort_spans
sort_spans-Sorted [] = tt
sort_spans-Sorted (s ∷ ss) = insert_span-Sorted s (sort_spans ss) (sort_spans-Sorted ss)

lower-SortedFrom :
    (s r : Span) (rs : List Span) → s.start ≤ r.start → SortedFrom r rs → SortedFrom s rs
lower-SortedFrom s r [] p o = tt
lower-SortedFrom s r (x ∷ rs) p o = ((ground arith), o.1)

widened : Span → Span → Span
widened last w = record last { end = max last.end w.end }

merge_from-covers :
    (t : ℕ) (last : Span) (ws : List Span)
    → SortedFrom last ws
    → covers t (merge_from last ws) ≡ (within t last || covers t ws)
unfolding merge_from widened
merge_from-covers t last [] o = refl
merge_from-covers t last (w ∷ ws) o = elim (Bool-cases (leb w.start last.end)) [
  | inl e ↦
      rw (e, covers, merge_from)
        (merge_from-covers t (widened last w) ws (lower-SortedFrom (widened last w) w ws o.0 o.1)
          ∙ ground arith)
  | inr e ↦ rw (e, covers, merge_from, merge_from-covers t w ws o.1) refl
]

merge_from-After :
    (n : ℕ) (last : Span) (ws : List Span) → n < last.start → After n (merge_from last ws)
unfolding merge_from widened
merge_from-After n last [] p = p
merge_from-After n last (w ∷ ws) p = elim (Bool-cases (leb w.start last.end)) [
  | inl e ↦ rw (e, After, merge_from) (merge_from-After n (widened last w) ws p)
  | inr e ↦ rw (e, After, merge_from) p
]

merge_from-Apart :
    (last : Span) (ws : List Span)
    → last.start < last.end
    → last.end < 1440
    → Fits ws
    → Apart (merge_from last ws)
unfolding merge_from widened
merge_from-Apart last [] p q f = (p, q, tt, tt)
merge_from-Apart last (w ∷ ws) p q f = elim (Bool-cases (leb w.start last.end)) [
  | inl e ↦
      rw (e, Apart, merge_from)
        (merge_from-Apart (widened last w) ws (ground arith) (ground arith) f.2)
  | inr e ↦
      rw (e, Apart, merge_from)
        (p, q, merge_from-After last.end w ws (ground arith), merge_from-Apart w ws f.0 f.1 f.2)
]

pub merged-covers : (t : ℕ) (ss : List Span) → Sorted ss → covers t (merged ss) ≡ covers t ss
unfolding merged
merged-covers t [] o = refl
merged-covers t (s ∷ ss) o = merge_from-covers t s ss o

pub merged-Apart : (ss : List Span) → Fits ss → Apart (merged ss)
unfolding merged
merged-Apart [] f = tt
merged-Apart (s ∷ ss) f = merge_from-Apart s ss f.0 f.1 f.2
