-- ===== src/Booking/Canonical.antt =====
-- The shape of normalized windows (`normalizeWindows` of
-- src/booking-availability/availability-resolution.util.ts).
use lalaba_backend_showcase.Base.{
  ◌<◌, ◌≡◌, refl, ap, ◌∙◌, true, false, List, [], ◌∷◌, map, leb, arith,
}
use lalaba_backend_showcase.Booking.Windows.{
  BookingWindow, Span, insert_span, sort_spans, merge_from, merged, window_of, normalize_windows,
}
use lalaba_backend_showcase.Booking.Spans.{After, Apart}
use lalaba_backend_showcase.Booking.Hours.{cleaned, cleaned-Apart, parsed-normalize}

insert_span-After :
    (s : Span) (ss : List Span) → s.start < s.end → After s.end ss → insert_span s ss ≡ s ∷ ss
insert_span-After s [] p a = refl
insert_span-After s (r ∷ rs) p a =
    let first : leb s.start r.start ≡ true = ground arith in rw (first, insert_span) refl

sort_spans-Apart : (ss : List Span) → Apart ss → sort_spans ss ≡ ss
unfolding sort_spans
sort_spans-Apart [] a = refl
sort_spans-Apart (s ∷ ss) a =
    ap (insert_span s) (sort_spans-Apart ss a.3) ∙ insert_span-After s ss a.0 a.2

merge_from-After :
    (s : Span) (ss : List Span) → After s.end ss → Apart ss → merge_from s ss ≡ s ∷ ss
unfolding merge_from
merge_from-After s [] a p = refl
merge_from-After s (r ∷ rs) a p =
    let gap : leb r.start s.end ≡ false = ground arith in
    rw (gap, merge_from) (ap (◌∷◌ s) (merge_from-After r rs p.2 p.3))

merged-Apart_id : (ss : List Span) → Apart ss → merged ss ≡ ss
unfolding merged
merged-Apart_id [] a = refl
merged-Apart_id (s ∷ ss) a = merge_from-After s ss a.2 a.3

-- The normalized windows are the texts of spans of the day which are not empty, stand in order and
-- have a gap between any two; and normalizing them again changes nothing.
pub normalize-canonical :
    (ws : List BookingWindow)
    → ((ss : List Span) × (Apart ss) × (normalize_windows ws ≡ map window_of ss))
      × (normalize_windows (normalize_windows ws) ≡ normalize_windows ws)
unfolding normalize_windows
normalize-canonical ws =
    let ss = cleaned ws in
    let apart = cleaned-Apart ws in
    (
      (ss, apart, refl),
      ap (λ ps. map window_of (merged (sort_spans ps))) (parsed-normalize ws)
          ∙ ap (λ ps. map window_of (merged ps)) (sort_spans-Apart ss apart)
          ∙ ap (map window_of) (merged-Apart_id ss apart),
    )
