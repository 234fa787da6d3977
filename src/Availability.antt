-- ===== src/Availability.antt =====
-- backend/internal/availability: the rules for a weekly set of slots, and the service.
pub mod Laws
mod Tests
use Prim.Native.String.{String}
use find_language_tutor.Prelude.{
  ℕ, zero, suc, ◌+◌, Bool, true, false, not, ◌&&◌, ◌||◌, Option, none, some, List, [], ◌∷◌, map,
  length, ltb, leb, ◌==◌, if◌then◌else◌,
}
use text.Mathlib.Text.{◌==◌ as str_eq}
use find_language_tutor.Prelude.Int.{ℤ, pos, negsuc, pos_part, neg_part, ltb_ℤ, is_multiple}
use find_language_tutor.Prelude.Sort.{sort_by}
use find_language_tutor.Slots.{Span}
use find_language_tutor.Store.{World, TeacherContext, modify}
use find_language_tutor.Bookings.Repository.{teacher_id_of}

-- A slot as the client proposes it.
pub record WeeklySlot : Type 0 where
  pub weekday : ℤ
  pub start_minute : ℤ
  pub end_minute : ℤ

-- The messages of ValidationError, and the service's errors.
pub data SlotError : Type 0 where
  too_many weekday_range start_range end_range not_before misaligned overlapping : SlotError
  teacher_not_found not_owner : SlotError

abbrev pub max_slots_per_request : ℕ
max_slots_per_request = 100

abbrev pub slot_granularity_minutes : ℕ
slot_granularity_minutes = 15

-- The checks on one slot, in their order.
unfoldable pub check_slot : WeeklySlot → Option SlotError
check_slot s =
    if ltb_ℤ s.weekday (pos 0) || ltb_ℤ (pos 6) s.weekday
    then some weekday_range
    else (if ltb_ℤ s.start_minute (pos 0) || not (ltb_ℤ s.start_minute (pos 1440))
        then some start_range
        else (if not (ltb_ℤ (pos 0) s.end_minute) || ltb_ℤ (pos 1440) s.end_minute
            then some end_range
            else (if not (ltb_ℤ s.start_minute s.end_minute)
                then some not_before
                else (if not (is_multiple slot_granularity_minutes s.start_minute)
                      || not (is_multiple slot_granularity_minutes s.end_minute)
                    then some misaligned
                    else none))))

-- The first loop: the first error, if any.
unfoldable pub check_slots : List WeeklySlot → Option SlotError
unfolding check_slot
check_slots [] = none
check_slots (s ∷ ss) =
    let rest = check_slots ss in elim (check_slot s) [ none ↦ rest | some e ↦ some e ]

abbrev pub is_on : ℕ → WeeklySlot → Bool
is_on d s = pos_part s.weekday == d

-- byDay[d]: the slots of one weekday. All weekdays are in range by then.
unfoldable pub by_day : ℕ → List WeeklySlot → List WeeklySlot
by_day d [] = []
by_day d (s ∷ ss) = let rest = by_day d ss in if is_on d s then s ∷ rest else rest

abbrev pub start_of : WeeklySlot → ℕ
start_of s = pos_part s.start_minute

-- The loop over neighbours of the sorted day: `prev` is daySlots[i-1].
unfoldable pub neighbours_apart : WeeklySlot → List WeeklySlot → Bool
neighbours_apart prev [] = true
neighbours_apart prev (s ∷ ss) = not (ltb_ℤ s.start_minute prev.end_minute) && neighbours_apart s ss

unfoldable pub day_apart : List WeeklySlot → Bool
unfolding neighbours_apart
day_apart [] = true
day_apart (s ∷ ss) = neighbours_apart s ss

-- The loop over the days. Go's order of the days is arbitrary; it decides only which overlap the
-- message names.
unfoldable pub days_apart : ℕ → List WeeklySlot → Bool
unfolding by_day sort_by day_apart
days_apart zero slots = true
days_apart (suc d) slots = day_apart (sort_by start_of (by_day d slots)) && days_apart d slots

-- `none` is nil: the set is accepted.
unfoldable pub validate_slots : List WeeklySlot → Option SlotError
unfolding check_slots days_apart
validate_slots slots =
    if ltb max_slots_per_request (length slots) then some too_many else (elim (check_slots slots) [
      | some e ↦ some e
      | none ↦ if days_apart 7 slots then none else some overlapping
    ])

abbrev pub weekday_of : WeeklySlot → ℕ
weekday_of s = pos_part s.weekday

-- sortSlots orders by weekday and then by start: two stable passes, the second by the weekday.
unfoldable pub sort_slots : List WeeklySlot → List WeeklySlot
unfolding sort_by
sort_slots slots = sort_by weekday_of (sort_by start_of slots)

-- A row of teacher_availability_slots; the numbers of an accepted set are in range.
abbrev pub to_span : WeeklySlot → Span
to_span s = record {
  weekday = pos_part s.weekday;
  start_minute = pos_part s.start_minute;
  end_minute = pos_part s.end_minute;
}

-- TeacherContext: a teacher of any status with the slug.
unfoldable pub find_teacher : String → List TeacherContext → Option TeacherContext
find_teacher slug [] = none
find_teacher slug (t ∷ ts) = if str_eq t.slug slug then some t else find_teacher slug ts

pub data Answer : Type 0 where
  stored : List WeeklySlot → Answer
  refused : SlotError → Answer

-- ReplaceSlots deletes the teacher's rows and inserts the new ones in one transaction.
unfoldable pub replace_spans : ℕ → List WeeklySlot → World → World
replace_spans teacher slots w = record w {
  teachers = modify teacher_id_of teacher (λ t. record t { spans = map to_span slots }) w.teachers;
}

unfoldable pub replace : String → ℕ → List WeeklySlot → World → Answer × World
unfolding find_teacher validate_slots sort_slots replace_spans
replace slug acting_user slots w = elim (find_teacher slug w.teachers) [
  | none ↦ (refused teacher_not_found, w)
  | some t ↦
      if t.owner_id == 0 || not (t.owner_id == acting_user)
      then (refused not_owner, w)
      else (elim (validate_slots slots) [
        | some e ↦ (refused e, w)
        | none ↦ (stored (sort_slots slots), replace_spans t.id (sort_slots slots) w)
      ])
]
