-- ===== src/Availability/Tests.antt =====
-- Runs of the validation.
use find_language_tutor.Prelude.{ℕ, ◌≤◌, ◌≡◌, refl, some, List, [], ◌∷◌, All, length}
use find_language_tutor.Prelude.Int.{pos, negsuc}
use find_language_tutor.Availability.{
  WeeklySlot, overlapping, misaligned, weekday_range, validate_slots,
}
use find_language_tutor.Availability.Laws.{
  IsWellFormed, ApartIfSameDay, Pairwise, validate_slots-IsSound,
}

abbrev slot : ℕ → ℕ → ℕ → WeeklySlot
slot d a b = record { weekday = pos d; start_minute = pos a; end_minute = pos b }

-- Monday in two parts that touch, in the wrong order, and a part of Tuesday.
abbrev week : List WeeklySlot
week = slot 1 720 780 ∷ slot 2 540 600 ∷ slot 1 600 720 ∷ []

validate_slots-IsSound_example :
    (length week ≤ 100) × All IsWellFormed week × Pairwise ApartIfSameDay week
unfolding validate_slots
validate_slots-IsSound_example = validate_slots-IsSound week refl

overlap_refused : validate_slots (slot 1 720 780 ∷ slot 1 600 735 ∷ []) ≡ some overlapping
unfolding validate_slots
overlap_refused = refl

grid_refused : validate_slots (slot 1 725 780 ∷ []) ≡ some misaligned
unfolding validate_slots
grid_refused = refl

negative_refused :
    validate_slots (record { weekday = negsuc 0; start_minute = pos 0; end_minute = pos 15 } ∷ [])
    ≡ some weekday_range
unfolding validate_slots
negative_refused = refl
