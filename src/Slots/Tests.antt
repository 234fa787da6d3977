-- ===== src/Slots/Tests.antt =====
-- Runs of the slot generation, and the theorems at concrete inputs.
use find_language_tutor.Prelude.{
  ℕ, ◌+◌, ◌*◌, ◌≤◌, ◌≡◌, refl, inl, inr, true, false, List, [], ◌∷◌, arith, map, Any, All, ◌↔◌,
}
use find_language_tutor.Clock.{minute, hour, day}
use find_language_tutor.Samples.{sunday, span}
use find_language_tutor.Slots.{
  Span, Interval, Slot, SlotQuery, generate_slots, is_bookable_start, has_start, no_price,
  merge_intervals, project_spans, first_day, last_day,
}
use find_language_tutor.Slots.Windows.{merge_intervals-Covered, Covered}
use find_language_tutor.Slots.Projection.{project_spans-Covered, IsDay, InSpan}
use find_language_tutor.Slots.Scan.{StartsAt, Free}
use find_language_tutor.Slots.Bookable.{
  IsGood, IsBookable, generate_slots-IsGood, generate_slots-offers, is_bookable_start-IsBookable,
  is_bookable_start_sound,
}
use find_language_tutor.Slots.Agreement.{generate_slots-is_bookable_start}

abbrev morning : List Span
morning = span 0 540 660 ∷ []

abbrev starts : List Slot → List ℕ
starts = map (λ sl. sl.start_at)

abbrev week : ℕ → SlotQuery
week d = record { from = sunday; to = sunday + 7 * day; duration_minutes = d }

-- Nine to eleven on Sunday, one hour long: 9:00, 9:30 and 10:00.
morning_slots :
    starts (generate_slots morning [] (week 60) no_price 0)
    ≡ (sunday + 9 * hour) ∷ (sunday + 9 * hour + 30 * minute) ∷ (sunday + 10 * hour) ∷ []
unfolding generate_slots
morning_slots = refl

-- The whole week is open but for the first quarter hour of Sunday.
abbrev nearly_always : List Span
nearly_always =
    span 0 15 1440
    ∷ span 1 0 1440
    ∷ span 2 0 1440
    ∷ span 3 0 1440
    ∷ span 4 0 1440
    ∷ span 5 0 1440
    ∷ span 6 0 1440
    ∷ []

-- Wednesday, 10:15.
abbrev wednesday : ℕ
wednesday = sunday + 3 * day + 10 * hour + 15 * minute

-- The week's list offers that start, and the re-check of the booking request refuses it.
listed_but_refused :
    (has_start wednesday (generate_slots nearly_always [] (week 60) no_price 0) ≡ true)
    × (is_bookable_start nearly_always [] wednesday 60 0 ≡ false)
unfolding generate_slots has_start is_bookable_start
listed_but_refused = (refl, refl)

-- 9:00, and the lesson from 9:00 to 10:00.
abbrev nine : ℕ
nine = sunday + 9 * hour

abbrev booked_ten : List Interval
booked_ten = record { start = sunday + 10 * hour; end = sunday + 11 * hour } ∷ []

abbrev monday : ℕ
monday = sunday + day

is_bookable_start_sound_example :
    ((x : ℕ) × IsDay (first_day nine) (last_day (nine + hour)) x
      × Any (InSpan x (nine + minute)) morning)
    × (0 ≤ nine)
    × Free nine (nine + hour) booked_ten
unfolding is_bookable_start
is_bookable_start_sound_example =
    is_bookable_start_sound morning booked_ten nine 60 0 (nine + minute) refl (omega arith)
      (omega arith)

generate_slots-offers_example :
    Any (StartsAt nine) (generate_slots morning booked_ten (week 60) no_price 0)
    ↔ IsBookable morning booked_ten (week 60) 0 nine
generate_slots-offers_example = generate_slots-offers morning booked_ten (week 60) no_price 0 nine

generate_slots-IsGood_example :
    All
      (IsGood morning booked_ten (week 60) no_price 0)
      (generate_slots morning booked_ten (week 60) no_price 0)
generate_slots-IsGood_example = generate_slots-IsGood morning booked_ten (week 60) no_price 0

is_bookable_start-IsBookable_example :
    (is_bookable_start morning booked_ten nine 60 0 ≡ true)
    ↔ IsBookable morning booked_ten
        (record { from = nine; to = nine + 60 * minute; duration_minutes = 60 })
        0
        nine
is_bookable_start-IsBookable_example = is_bookable_start-IsBookable morning booked_ten nine 60 0

generate_slots-is_bookable_start_example : is_bookable_start morning booked_ten nine 60 nine ≡ true
unfolding generate_slots
generate_slots-is_bookable_start_example =
    generate_slots-is_bookable_start morning [] booked_ten (week 60) no_price 0 nine nine
      ((omega arith, omega arith, omega arith), tt) (omega arith) (inl refl) (omega arith)
      (inr (omega arith), tt)

-- Two overlapping spans on the evening and one that begins where they end.
abbrev evening : List Interval
evening =
    record { start = 40; end = 70 }
    ∷ record { start = 10; end = 30 }
    ∷ record { start = 20; end = 40 }
    ∷ []

merge_intervals-Covered_example : Covered 35 (merge_intervals evening) ↔ Covered 35 evening
merge_intervals-Covered_example = merge_intervals-Covered 35 evening

project_spans-Covered_example :
    Covered nine (project_spans morning sunday monday)
    ↔ ((x : ℕ) × IsDay (first_day sunday) (last_day monday) x × Any (InSpan x nine) morning)
project_spans-Covered_example = project_spans-Covered morning sunday monday nine
