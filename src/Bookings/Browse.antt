-- ===== src/Bookings/Browse.antt =====
-- Slots, Create, List, Get and GetWithPayment of the bookings service.
use Prim.Native.String.{String}
use find_language_tutor.Prelude.{
  ℕ, ◌+◌, ◌-◌, ◌*◌, Bool, not, ◌&&◌, Option, none, some, List, ltb, ◌==◌, if◌then◌else◌,
}
use find_language_tutor.Clock.{minute, day}
use find_language_tutor.Slots.{Money, Slot, generate_slots, is_bookable_start}
use find_language_tutor.Store.{Booking, TeacherContext, Payment}
use find_language_tutor.Effect.{
  forbidden, cannot_book_self, slot_unavailable, invalid_request, Action, pure, raise, gets, ◌>>=◌,
  ◌>>◌, raise_if, ignore_error,
}
use find_language_tutor.Bookings.Pricing.{
  trial_duration_minutes, default_duration_minutes, default_window_days, max_window_days,
  allowed_duration, hourly_price,
}
use find_language_tutor.Bookings.Repository.{
  teacher_context_by_slug, intervals_of, create_booking, get_booking,
}
use find_language_tutor.Bookings.Ports.{Ports, participant, snapshot}

pub record SlotResult : Type 0 where
  pub teacher_slug : String
  pub from : ℕ
  pub to : ℕ
  pub duration_minutes : ℕ
  pub slots : List Slot

-- `from`, clamped to now.
abbrev pub slots_start : ℕ → Option ℕ → ℕ
slots_start now none = now
slots_start now (some from) = if ltb from now then now else from

abbrev pub slots_end : ℕ → Option ℕ → ℕ
slots_end start none = start + default_window_days * day
slots_end start (some to) = to

abbrev pub slots_duration : ℕ → ℕ
slots_duration d = if d == 0 then default_duration_minutes else d

unfoldable pub slots : String → Option ℕ → Option ℕ → ℕ → Action SlotResult
unfolding allowed_duration teacher_context_by_slug intervals_of hourly_price generate_slots
slots slug from to duration_minutes = do
  now ← gets (λ w. w.now)
  let start = slots_start now from
  let end = slots_end start to
  raise_if (not (ltb start end)) invalid_request
  raise_if (ltb (max_window_days * day) (end - start)) invalid_request
  let duration = slots_duration duration_minutes
  raise_if (not (allowed_duration duration)) invalid_request
  tc ← teacher_context_by_slug slug
  booked ← gets (λ w. intervals_of tc.id start end w.bookings)
  pure (record {
    teacher_slug = tc.slug;
    from = start;
    to = end;
    duration_minutes = duration;
    slots =
        generate_slots tc.spans booked
          (record { from = start; to = end; duration_minutes = duration })
          (hourly_price tc.price_per_hour_minor duration tc.currency) now;
  })

pub record CreateInput : Type 0 where
  pub teacher_slug : String
  pub start_at : ℕ
  pub duration_minutes : ℕ
  pub is_trial : Bool

-- is_trial forces the length of a trial lesson.
unfoldable pub lesson_duration : CreateInput → Action ℕ
unfolding allowed_duration
lesson_duration input =
    if input.is_trial
    then pure trial_duration_minutes
    else (if allowed_duration input.duration_minutes
        then pure input.duration_minutes
        else raise invalid_request)

abbrev trial_price : TeacherContext → Option ℕ → Action Money
trial_price tc none = raise invalid_request
trial_price tc (some p) = pure (record { amount_minor = p; currency = tc.currency })

unfoldable pub lesson_price : CreateInput → TeacherContext → ℕ → Action Money
unfolding hourly_price
lesson_price input tc duration =
    if input.is_trial
    then trial_price tc tc.trial_price_minor
    else pure (hourly_price tc.price_per_hour_minor duration tc.currency)

-- Opening the intent after the insert: its error is logged.
abbrev pub open_intent : Ports → Booking → Action (Unit {0})
open_intent ports b = elim ports.payments [
  | none ↦ pure tt
  | some g ↦ ignore_error (g.initiate b.id b.price)
]

-- The end of Create, where the price is known: the re-check of the start, the insert and the intent.
unfoldable pub place : Ports → TeacherContext → ℕ → CreateInput → ℕ → Money → Action Booking
unfolding intervals_of is_bookable_start create_booking
place ports tc student_id input duration price = do
  now ← gets (λ w. w.now)
  let start = input.start_at
  let end = start + duration * minute
  booked ← gets (λ w. intervals_of tc.id start end w.bookings)
  raise_if (not (is_bookable_start tc.spans booked start duration now)) slot_unavailable
  b ← create_booking (record {
    teacher_id = tc.id;
    student_id = student_id;
    start_at = start;
    end_at = end;
    duration_minutes = duration;
    price = price;
    is_trial = input.is_trial;
  })
  open_intent ports b
  pure b

unfoldable pub create : Ports → ℕ → CreateInput → Action Booking
unfolding teacher_context_by_slug
create ports student_id input = do
  now ← gets (λ w. w.now)
  tc ← teacher_context_by_slug input.teacher_slug
  raise_if (not (tc.owner_id == 0) && tc.owner_id == student_id) cannot_book_self
  duration ← lesson_duration input
  raise_if (not (ltb now input.start_at)) invalid_request
  price ← lesson_price input tc duration
  place ports tc student_id input duration price

unfoldable pub get : ℕ → ℕ → Action Booking
unfolding get_booking participant
get caller booking_id = do
  b ← get_booking booking_id
  raise_if (not (participant b caller)) forbidden
  pure b

unfoldable pub get_with_payment : Ports → ℕ → ℕ → Action (Booking × Option Payment)
unfolding get snapshot
get_with_payment ports caller booking_id = do
  b ← get caller booking_id
  p ← snapshot ports booking_id
  pure (b, p)
