-- ===== src/Slots/Agreement.antt =====
-- Whether the start that one query lists is accepted by the re-check of its own small query.
use find_language_tutor.Prelude.{
  ℕ, ◌+◌, ◌-◌, ◌*◌, ◌/◌, ◌%◌, ◌≤◌, ◌<◌, ◌≡◌, inl, inr, true, List, [], ◌∷◌, arith, All, Any,
}
use native.Mathlib.Decide.{dec_le}
use find_language_tutor.Clock.{minute, day, midnight}
use find_language_tutor.Slots.{
  Interval, Span, Money, extend, SlotQuery, merge_intervals, project_spans, is_bookable_start,
  generate_slots, slot_step_minutes, first_day,
}
use find_language_tutor.Slots.Windows.{
  Covered, Apart, Separated, merge_intervals-Covered, merge_intervals-Separated,
}
use find_language_tutor.Slots.Scan.{Fits, StartsAt, Free}
use find_language_tutor.Slots.Projection.{InSpan, EachDay, project_spans-Covered, windows-All}
use find_language_tutor.Slots.Bookable.{
  generate_slots-offers, is_bookable_start-IsBookable, Within_of_Fits,
}

-- The span begins on a half hour, and ends later, within its day.
abbrev pub OnHalfHour : Span → Type 0
OnHalfHour s = (s.start_minute % 30 ≡ 0) × (s.start_minute < s.end_minute) × (s.end_minute ≤ 1440)

-- The window begins on a half hour and is not empty.
abbrev Regular : Interval → Type 0
Regular w = (w.start % (slot_step_minutes * minute) ≡ 0) × (w.start < w.end)

stretch-Regular : (last iv : Interval) → Regular last → Regular iv → Regular (extend last iv)
unfolding extend
stretch-Regular last iv h k = (h.0, ground (arith, h.1))

EachDay-Regular : (spans : List Span) → All OnHalfHour spans → All (EachDay Regular) spans
EachDay-Regular [] h = tt
EachDay-Regular (s ∷ ss) h = (
  λ d e. (begins d s.start_minute e h.0.0, ends d s.start_minute s.end_minute h.0.1),
  EachDay-Regular ss h.1,
)
  where
    begins :
        (d m : ℕ) → d % day ≡ 0 → m % 30 ≡ 0 → (d + m * minute) % (slot_step_minutes * minute) ≡ 0
    begins d m e f = omega arith

    ends : (d m n : ℕ) → m < n → d + m * minute < d + n * minute
    ends d m n h = omega arith

windows-Regular :
    (spans : List Span) (from to : ℕ)
    → All OnHalfHour spans
    → All Regular (merge_intervals (project_spans spans from to))
windows-Regular spans from to h =
    windows-All Regular stretch-Regular spans from to (EachDay-Regular spans h)

-- An instant of a span lies on the day that its own midnight begins.
midnight_of_InSpan :
    (x t : ℕ) (spans : List Span)
    → x % day ≡ 0
    → All OnHalfHour spans
    → Any (InSpan x t) spans
    → x ≡ midnight t
midnight_of_InSpan x t [] e h m = absurd m
midnight_of_InSpan x t (s ∷ ss) e h (inl m) = omega arith
midnight_of_InSpan x t (s ∷ ss) e h (inr m) = midnight_of_InSpan x t ss e h.1 m

-- What a wide query covers between `s` and `e` the query for just that time covers too.
Covered-narrow :
    (spans : List Span) (from to s e t : ℕ)
    → All OnHalfHour spans
    → s ≤ t
    → t < e
    → Covered t (merge_intervals (project_spans spans from to))
    → Covered t (merge_intervals (project_spans spans s e))
Covered-narrow spans from to s e t h lo hi c =
    let (x, ((n, eq), le), here) =
      (project_spans-Covered spans from to t).0
        ((merge_intervals-Covered t (project_spans spans from to)).0 c) in
    let mid = midnight_of_InSpan x t spans (omega arith) h here in
    (merge_intervals-Covered t (project_spans spans s e)).1 (
      (project_spans-Covered spans s e t).1
        (x, (((x - first_day s) / day, omega arith), omega arith), here))

-- No window of a row that begins after `e` reaches back to `e`.
not-Covered_end :
    (e t : ℕ) (ws : List Interval) → t ≤ e → All Regular ws → Apart e ws → Covered t ws → ⊥
not-Covered_end e t [] h r a c = absurd c
not-Covered_end e t (w ∷ ws) h r a (inl c) = omega arith
not-Covered_end e t (w ∷ ws) h r a (inr c) = not-Covered_end w.end t ws (omega arith) r.1 a.1 c

Separated-tail : (w : Interval) (ws : List Interval) → Separated (w ∷ ws) → Separated ws
Separated-tail w [] h = tt
Separated-tail w (x ∷ xs) h = h.1

-- Windows that cover every instant of [s, e) cover it by one window.
one_window :
    (s e : ℕ) (ws : List Interval)
    → s < e
    → All Regular ws
    → Separated ws
    → ((t : ℕ) → s ≤ t → t < e → Covered t ws)
    → Any (λ w. Regular w × (w.start ≤ s) × (e ≤ w.end)) ws
one_window s e [] lt r sep all = all s (omega arith) lt
one_window s e (w ∷ ws) lt r sep all = elim (all s (omega arith) lt) [
  | inl here ↦ elim (dec_le e w.end) [
    | yes p ↦ inl (r.0, here.0, p)
    | no p ↦ absurd (elim (all w.end (omega arith) (omega arith)) [
      | inl at_end ↦ omega arith
      | inr c ↦ not-Covered_end w.end w.end ws (omega arith) r.1 sep c
    ])
  ]
  | inr there ↦ inr (
      one_window s e ws lt r.1 (Separated-tail w ws sep) λ t lo hi. elim (all t lo hi) [
        | inl here ↦ absurd (not-Covered_end w.end s ws (omega arith) r.1 sep there)
        | inr c ↦ c
      ])
]

on_grid :
    (s w k : ℕ)
    → w % (slot_step_minutes * minute) ≡ 0
    → s ≡ w + k * (slot_step_minutes * minute)
    → s % (slot_step_minutes * minute) ≡ 0
on_grid s w k h e = omega arith

grid_of_Fits :
    (s dur : ℕ) (ws : List Interval)
    → All Regular ws
    → Any (Fits dur s) ws
    → s % (slot_step_minutes * minute) ≡ 0
grid_of_Fits s dur [] r m = absurd m
grid_of_Fits s dur (w ∷ ws) r (inl ((k, e), le)) = on_grid s w.start k r.0.0 e
grid_of_Fits s dur (w ∷ ws) r (inr m) = grid_of_Fits s dur ws r.1 m

Fits-of_window :
    (s dur : ℕ) (ws : List Interval)
    → s % (slot_step_minutes * minute) ≡ 0
    → Any (λ w. Regular w × (w.start ≤ s) × (s + dur ≤ w.end)) ws
    → Any (Fits dur s) ws
Fits-of_window s dur [] g m = absurd m
Fits-of_window s dur (w ∷ ws) g (inl ((h, p), lo, hi)) =
    inl (((s - w.start) / (slot_step_minutes * minute), omega arith), hi)
Fits-of_window s dur (w ∷ ws) g (inr m) = inr (Fits-of_window s dur ws g m)

-- Where every span begins on a half hour and ends later within its day, and the duration is
-- positive, a start that some query lists is accepted by isBookableStart for the same duration, at
-- any time that is not past the start and against any bookings that leave the lesson free.
pub generate_slots-is_bookable_start :
    (spans : List Span) (booked booked' : List Interval) (q : SlotQuery) (price : Money)
    (now now' s : ℕ)
    → All OnHalfHour spans
    → 0 < q.duration_minutes
    → Any (StartsAt s) (generate_slots spans booked q price now)
    → now' ≤ s
    → Free s (s + q.duration_minutes * minute) booked'
    → is_bookable_start spans booked' s q.duration_minutes now' ≡ true
generate_slots-is_bookable_start spans booked booked' q price now now' s h pos m early free =
    let dur : ℕ = q.duration_minutes * minute in
    let b = (generate_slots-offers spans booked q price now s).0 m in
    let wide = merge_intervals (project_spans spans q.from q.to) in
    let narrow = merge_intervals (project_spans spans s (s + dur)) in
    let covered =
      one_window s (s + dur) narrow (omega arith) (windows-Regular spans s (s + dur) h)
        (merge_intervals-Separated (project_spans spans s (s + dur)))
        (λ t lo hi.
          Covered-narrow spans q.from q.to s (s + dur) t h lo hi
            (Within_of_Fits s dur t wide lo hi b.fits)) in
    (is_bookable_start-IsBookable spans booked' s q.duration_minutes now').1 (record {
      fits =
          Fits-of_window s dur narrow
            (grid_of_Fits s dur wide (windows-Regular spans q.from q.to h) b.fits) covered;
      after_from = omega arith;
      not_past = early;
      within = omega arith;
      free = free;
    })
