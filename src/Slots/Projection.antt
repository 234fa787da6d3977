-- ===== src/Slots/Projection.antt =====
-- The projection of weekly spans on UTC days (projectSpans).
use find_language_tutor.Prelude.{
  ℕ, zero, suc, ◌+◌, ◌*◌, ◌%◌, ◌≤◌, ◌<◌, ◌≡◌, refl, ◌↔◌, inl, inr, List, [], ◌∷◌, ◌++◌, arith, All,
  Any, All-append, Any-append_left, Any-append_right, Any-append_cases, subst,
}
use native.Mathlib.Decide.{dec_le}
use find_language_tutor.Prelude.Sort.{sort_by, All-sort_by}
use find_language_tutor.Clock.{minute, day, weekday}
use find_language_tutor.Slots.{
  Span, Interval, project_day, project_days, first_day, last_day, projection_fuel, project_spans,
  extend, merge_from, merge_sorted, merge_intervals,
}
use find_language_tutor.Slots.Windows.{Within, Covered, start_of}
use find_language_tutor.Slots.Scan.{OnSecond}

-- The instant `t` lies in the span on the day that begins at `d`.
abbrev pub InSpan : ℕ → ℕ → Span → Type 0
InSpan d t s =
    (s.weekday ≡ weekday d) × (d + s.start_minute * minute ≤ t) × (t < d + s.end_minute * minute)

project_day-Covered :
    (d t : ℕ) (spans : List Span) → Covered t (project_day d spans) ↔ Any (InSpan d t) spans
unfolding project_day
project_day-Covered d t [] = (λ h. h, λ h. h)
project_day-Covered d t (s ∷ ss) =
    let ih = project_day-Covered d t ss in (λ h. ground (arith, ih.0), λ h. ground (arith, ih.1))

-- `x` is a midnight that the loop from `d` reaches, at most `last`.
abbrev pub IsDay : ℕ → ℕ → ℕ → Type 0
IsDay d last x = ((n : ℕ) × (x ≡ d + n * day)) × (x ≤ last)

project_days_next :
    (fuel d last : ℕ) (spans : List Span)
    → d ≤ last
    → project_days (suc fuel) d last spans
      ≡ project_day d spans ++ project_days fuel (d + day) last spans
unfolding project_days
project_days_next fuel d last spans h = ground arith

project_days_end :
    (fuel d last : ℕ) (spans : List Span) → last < d → project_days fuel d last spans ≡ []
unfolding project_days
project_days_end zero d last spans h = refl
project_days_end (suc fuel) d last spans h = ground arith

project_days-Covered :
    (fuel d last t : ℕ) (spans : List Span)
    → Covered t (project_days fuel d last spans)
    → (x : ℕ) × IsDay d last x × Any (InSpan x t) spans
project_days-Covered zero d last t spans h = absurd (unfold project_days in h)
project_days-Covered (suc fuel) d last t spans h = elim (dec_le d last) [
  | yes p ↦
      elim (Any-append_cases (Within t) (project_day d spans)
        (project_days fuel (d + day) last spans)
        (rw (project_days_next fuel d last spans p) at h)) [
          | inl now ↦ (d, ((0, omega arith), p), (project_day-Covered d t spans).0 now)
          | inr later ↦
              let (x, ((n, e), le), here) =
                project_days-Covered fuel (d + day) last t spans later in
              (x, ((suc n, omega arith), le), here)
        ]
  | no p ↦ absurd (rw (project_days_end (suc fuel) d last spans (omega arith)) at h)
]

Covered-project_days :
    (fuel n x d last t : ℕ) (spans : List Span)
    → n < fuel
    → x ≡ d + n * day
    → x ≤ last
    → Any (InSpan x t) spans
    → Covered t (project_days fuel d last spans)
Covered-project_days zero n x d last t spans lt e le h = absurd (omega arith)
Covered-project_days (suc fuel) zero x d last t spans lt e le h =
    let same : x ≡ d = omega arith in
    rw (project_days_next fuel d last spans (omega arith)) (
      Any-append_left (Within t) (project_day d spans) (project_days fuel (d + day) last spans)
        ((project_day-Covered d t spans).1 (subst (λ y. Any (InSpan y t) spans) same h)))
Covered-project_days (suc fuel) (suc n) x d last t spans lt e le h =
    rw (project_days_next fuel d last spans (omega arith)) (
      Any-append_right (Within t) (project_day d spans) (project_days fuel (d + day) last spans)
        (Covered-project_days fuel n x (d + day) last t spans (omega arith) (omega arith) le h))

-- The projected intervals cover an instant exactly when some span does on some UTC day from the
-- day before `from` to the day after `to`: the rounds given to the loop reach every such day.
pub project_spans-Covered :
    (spans : List Span) (from to t : ℕ)
    → Covered t (project_spans spans from to)
      ↔ ((x : ℕ) × IsDay (first_day from) (last_day to) x × Any (InSpan x t) spans)
unfolding project_spans
project_spans-Covered [] from to t = (λ h. absurd h, λ h. h.2)
project_spans-Covered (s ∷ ss) from to t = (
  λ h. project_days-Covered (projection_fuel from to) (first_day from) (last_day to) t (s ∷ ss) h,
  λ (x, ((n, e), le), h).
      Covered-project_days (projection_fuel from to) n x (first_day from) (last_day to) t (s ∷ ss)
        (omega arith) e le h,
)

-- `S` holds of the interval of the span on every day.
abbrev pub EachDay : (Interval → Type 0) → Span → Type 0
EachDay S s =
    (d : ℕ)
    → d % day ≡ 0
    → S (record { start = d + s.start_minute * minute; end = d + s.end_minute * minute })

-- What holds of the spans' intervals, and is kept where one is extended by another, holds of the
-- windows.
module _ (S : Interval → Type 0)
    (stretch : (last iv : Interval) → S last → S iv → S (extend last iv)) where
  project_day-All :
      (d : ℕ) (spans : List Span)
      → d % day ≡ 0
      → All (EachDay S) spans
      → All S (project_day d spans)
  unfolding project_day
  project_day-All d [] h b = tt
  project_day-All d (s ∷ ss) h b = ground (arith, b.0 d h, project_day-All d ss h b.1)

  project_days-All :
      (fuel d last : ℕ) (spans : List Span)
      → d % day ≡ 0
      → All (EachDay S) spans
      → All S (project_days fuel d last spans)
  project_days-All zero d last spans h b = unfold project_days in tt
  project_days-All (suc fuel) d last spans h b = elim (dec_le d last) [
    | yes p ↦ rw (project_days_next fuel d last spans p) (
        All-append S (project_day d spans) (project_days fuel (d + day) last spans)
          (project_day-All d spans h b)
          (project_days-All fuel (d + day) last spans (omega arith) b))
    | no p ↦ rw (project_days_end (suc fuel) d last spans (omega arith)) tt
  ]

  project_spans-All :
      (spans : List Span) (from to : ℕ)
      → All (EachDay S) spans
      → All S (project_spans spans from to)
  unfolding project_spans
  project_spans-All [] from to b = tt
  project_spans-All (s ∷ ss) from to b =
      project_days-All (projection_fuel from to) (first_day from) (last_day to) (s ∷ ss)
        (omega arith) b

  merge_from-All :
      (last : Interval) (ivs : List Interval) → S last → All S ivs → All S (merge_from last ivs)
  unfolding merge_from
  merge_from-All last [] h k = (h, tt)
  merge_from-All last (iv ∷ ivs) h k = ground (
    arith,
    merge_from-All (extend last iv) ivs (stretch last iv h k.0) k.1,
    merge_from-All iv ivs k.0 k.1,
  )

  merge_sorted-All : (ivs : List Interval) → All S ivs → All S (merge_sorted ivs)
  unfolding merge_sorted
  merge_sorted-All [] h = tt
  merge_sorted-All (iv ∷ ivs) h = merge_from-All iv ivs h.0 h.1

  pub windows-All :
      (spans : List Span) (from to : ℕ)
      → All (EachDay S) spans
      → All S (merge_intervals (project_spans spans from to))
  unfolding merge_intervals
  windows-All spans from to b =
      merge_sorted-All (sort_by start_of (project_spans spans from to))
        (All-sort_by start_of S (project_spans spans from to) (project_spans-All spans from to b))

abbrev StartsOnSecond : Interval → Type 0
StartsOnSecond iv = OnSecond iv.start

-- Spans are given in minutes, so each begins on a whole second.
EachDay-OnSecond : (spans : List Span) → All (EachDay StartsOnSecond) spans
EachDay-OnSecond [] = tt
EachDay-OnSecond (s ∷ ss) = (λ d h. omega arith, EachDay-OnSecond ss)

pub windows-OnSecond :
    (spans : List Span) (from to : ℕ)
    → All StartsOnSecond (merge_intervals (project_spans spans from to))
unfolding extend
windows-OnSecond spans from to =
    windows-All StartsOnSecond (λ last iv h _. h) spans from to (EachDay-OnSecond spans)
