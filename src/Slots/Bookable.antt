-- ===== src/Slots/Bookable.antt =====
-- What generateSlots offers and what isBookableStart accepts.
use find_language_tutor.Prelude.{
  ℕ, ◌+◌, ◌*◌, ◌≤◌, ◌<◌, ◌≡◌, ◌↔◌, inl, inr, true, List, [], ◌∷◌, arith, All, Any, All-map, subst,
}
use find_language_tutor.Prelude.Sort.{Any-sort_by, All-sort_by}
use find_language_tutor.Clock.{minute}
use find_language_tutor.Slots.{
  Interval, Slot, Money, Found, Span, SlotQuery, scan_windows, merge_intervals, project_spans,
  later, generate_slots, contains, has_start, is_bookable_start, no_price, first_day, last_day,
}
use find_language_tutor.Slots.Windows.{Covered, merge_intervals-Covered}
use find_language_tutor.Slots.Scan.{
  Free, Fits, StartsAt, IsOffered, scan_windows-hits, scan_windows-IsOffered,
}
use find_language_tutor.Slots.Projection.{InSpan, IsDay, project_spans-Covered, windows-OnSecond}

-- The lesson [s, s + duration) fits into a merged window on its grid, begins neither before the
-- query's start nor in the past, ends within the query, and meets no booked lesson.
pub record IsBookable (spans : List Span) (booked : List Interval) (q : SlotQuery) (now s : ℕ)
    : Type 0 where
  pub fits :
      Any (Fits (q.duration_minutes * minute) s) (merge_intervals (project_spans spans q.from q.to))
  pub after_from : q.from ≤ s
  pub not_past : now ≤ s
  pub within : s + q.duration_minutes * minute ≤ q.to
  pub free : Free s (s + q.duration_minutes * minute) booked

abbrev start_at_of : Slot → ℕ
start_at_of sl = sl.start_at

-- A slot as generateSlots describes it: bookable, of the asked length and at the given price.
abbrev pub IsGood : List Span → List Interval → SlotQuery → Money → ℕ → Slot → Type 0
IsGood spans booked q price now sl =
    IsBookable spans booked q now sl.start_at
    × (sl.end_at ≡ sl.start_at + q.duration_minutes * minute)
    × (sl.price ≡ price)

module _ (spans : List Span) (booked : List Interval) (q : SlotQuery) (price : Money)
    (now : ℕ) where
  -- Every returned slot is bookable, has the asked length, and carries the given price.
  pub generate_slots-IsGood :
      All (IsGood spans booked q price now) (generate_slots spans booked q price now)
  unfolding generate_slots
  generate_slots-IsGood =
      let dur : ℕ = q.duration_minutes * minute in
      let lower : ℕ = later now q.from in
      let windows : List Interval = merge_intervals (project_spans spans q.from q.to) in
      let found : Found =
        scan_windows booked lower q.to dur price windows (record { seen = []; slots = [] }) in
      All-sort_by start_at_of (IsGood spans booked q price now) found.slots (
        All-map (IsOffered booked lower q.to dur price (λ s. Any (Fits dur s) windows))
          (IsGood spans booked q price now) found.slots
          (λ sl o. (
            record {
              fits = o.0;
              after_from = ground (arith, o.1.0);
              not_past = ground (arith, o.1.0);
              within = o.1.1;
              free = o.1.2;
            },
            o.2,
            o.3,
          ))
          (scan_windows-IsOffered booked lower q.to dur price (λ s. Any (Fits dur s) windows)
            windows (record { seen = []; slots = [] }) (λ _ m. m) tt))

  -- Every bookable start is returned.
  IsBookable-generate_slots :
      (s : ℕ)
      → IsBookable spans booked q now s
      → Any (StartsAt s) (generate_slots spans booked q price now)
  unfolding generate_slots contains
  IsBookable-generate_slots s b =
      let dur : ℕ = q.duration_minutes * minute in
      let lower : ℕ = later now q.from in
      let windows : List Interval = merge_intervals (project_spans spans q.from q.to) in
      let found : Found =
        scan_windows booked lower q.to dur price windows (record { seen = []; slots = [] }) in
      (Any-sort_by start_at_of (StartsAt s) found.slots).1 (
        scan_windows-hits booked lower q.to dur price s windows (record { seen = []; slots = [] })
          (windows-OnSecond spans q.from q.to) (λ t g e. cc)
          (ground (arith, b.after_from, b.not_past), b.within, b.free) b.fits)

  IsBookable-of_offered :
      (s : ℕ) (xs : List Slot)
      → All (IsGood spans booked q price now) xs
      → Any (StartsAt s) xs
      → IsBookable spans booked q now s
  IsBookable-of_offered s [] h m = absurd m
  IsBookable-of_offered s (x ∷ xs) h (inl e) = subst (IsBookable spans booked q now) e h.0.0
  IsBookable-of_offered s (x ∷ xs) h (inr m) = IsBookable-of_offered s xs h.1 m

  -- A start is among the returned slots exactly when it is bookable.
  pub generate_slots-offers :
      (s : ℕ)
      → Any (StartsAt s) (generate_slots spans booked q price now) ↔ IsBookable spans booked q now s
  generate_slots-offers s = (
    IsBookable-of_offered s (generate_slots spans booked q price now) generate_slots-IsGood,
    IsBookable-generate_slots s,
  )

has_start-StartsAt : (s : ℕ) (xs : List Slot) → (has_start s xs ≡ true) ↔ Any (StartsAt s) xs
unfolding has_start
has_start-StartsAt s [] = (λ h. cc, λ h. absurd h)
has_start-StartsAt s (x ∷ xs) =
    let ih = has_start-StartsAt s xs in (λ h. ground (arith, ih.0), λ h. ground (arith, ih.1))

-- isBookableStart accepts a start exactly when the lesson that begins there is bookable in the
-- query that spans just this lesson.
pub is_bookable_start-IsBookable :
    (spans : List Span) (booked : List Interval) (start duration_minutes now : ℕ)
    → (is_bookable_start spans booked start duration_minutes now ≡ true)
      ↔ IsBookable spans booked
          (record {
            from = start;
            to = start + duration_minutes * minute;
            duration_minutes = duration_minutes;
          })
          now
          start
unfolding is_bookable_start
is_bookable_start-IsBookable spans booked start duration_minutes now =
    let q : SlotQuery = record {
      from = start;
      to = start + duration_minutes * minute;
      duration_minutes = duration_minutes;
    } in
    let found = has_start-StartsAt start (generate_slots spans booked q no_price now) in
    let offers = generate_slots-offers spans booked q no_price now start in
    (λ h. offers.0 (found.0 h), λ h. found.1 (offers.1 h))

pub Within_of_Fits :
    (s dur t : ℕ) (ws : List Interval) → s ≤ t → t < s + dur → Any (Fits dur s) ws → Covered t ws
Within_of_Fits s dur t (w ∷ ws) h k (inl ((n, e), le)) = inl (omega arith, omega arith)
Within_of_Fits s dur t (w ∷ ws) h k (inr m) = inr (Within_of_Fits s dur t ws h k m)
Within_of_Fits s dur t [] h k m = absurd m

-- A lesson whose start isBookableStart accepts lies in the teacher's weekly hours: each instant of
-- it is in some span on some UTC day, also across midnight; and the lesson is not in the past and
-- meets no booked lesson.
pub is_bookable_start_sound :
    (spans : List Span) (booked : List Interval) (start duration_minutes now t : ℕ)
    → is_bookable_start spans booked start duration_minutes now ≡ true
    → start ≤ t
    → t < start + duration_minutes * minute
    → let end = start + duration_minutes * minute in
      ((x : ℕ) × IsDay (first_day start) (last_day end) x × Any (InSpan x t) spans)
      × (now ≤ start)
      × Free start end booked
is_bookable_start_sound spans booked start duration_minutes now t h lo hi =
    let b = (is_bookable_start-IsBookable spans booked start duration_minutes now).0 h in
    let end : ℕ = start + duration_minutes * minute in
    (
      (project_spans-Covered spans start end t).0 (
          (merge_intervals-Covered t (project_spans spans start end)).0 (
            Within_of_Fits start (duration_minutes * minute) t
              (merge_intervals (project_spans spans start end)) lo hi b.fits)),
      b.not_past,
      b.free,
    )
