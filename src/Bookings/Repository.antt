-- ===== src/Bookings/Repository.antt =====
-- repository_postgres.go of the bookings module: the queries on the tables.
use Prim.Native.String.{String}
use find_language_tutor.Prelude.{
  ℕ, suc, Bool, true, false, not, ◌&&◌, ◌||◌, Option, none, some, List, [], ◌∷◌, ◌++◌, ltb, ◌==◌,
  if◌then◌else◌,
}
use text.Mathlib.Text.{◌==◌ as str_eq}
use find_language_tutor.Slots.{Money, Interval}
use find_language_tutor.Store.{
  World, Booking, BookingStatus, pending_payment, cancelled, Canceller, nobody, Party, none_missed,
  TeacherContext, find, modify,
}
use find_language_tutor.Effect.{
  teacher_not_found, booking_not_found, slot_taken, database_error, ok, err, Action, gets, or_raise,
  ◌>>=◌, ◌>>◌, change,
}
use find_language_tutor.Payments.Events.{booking_id_of}

abbrev pub is_cancelled : BookingStatus → Bool
is_cancelled cancelled = true
is_cancelled _ = false

abbrev pub teacher_id_of : TeacherContext → ℕ
teacher_id_of t = t.id

-- GetBookingTeacherContext: an approved teacher with the slug.
unfoldable pub find_slug : String → List TeacherContext → Option TeacherContext
find_slug slug [] = none
find_slug slug (t ∷ ts) = if str_eq t.slug slug && t.approved then some t else find_slug slug ts

unfoldable pub teacher_context_by_slug : String → Action TeacherContext
unfolding find_slug
teacher_context_by_slug slug = do
  or_raise (← gets (λ w. find_slug slug w.teachers)) teacher_not_found

unfoldable pub find_owned : ℕ → List TeacherContext → Option ℕ
find_owned owner [] = none
find_owned owner (t ∷ ts) = if t.owner_id == owner then some t.id else find_owned owner ts

-- ListTeacherBookingIntervals.
unfoldable pub intervals_of : ℕ → ℕ → ℕ → List Booking → List Interval
intervals_of teacher from to [] = []
intervals_of teacher from to (b ∷ bs) =
    let rest = intervals_of teacher from to bs in
    if b.teacher_id == teacher
      && not (is_cancelled b.status)
      && ltb b.start_at to
      && ltb from b.end_at
    then record { start = b.start_at; end = b.end_at } ∷ rest
    else rest

pub record CreateBookingParams : Type 0 where
  pub teacher_id : ℕ
  pub student_id : ℕ
  pub start_at : ℕ
  pub end_at : ℕ
  pub duration_minutes : ℕ
  pub price : Money
  pub is_trial : Bool

-- The two EXCLUDE constraints: a live lesson of the same teacher or the same student overlaps.
unfoldable pub clashes : CreateBookingParams → Booking → Bool
clashes p b =
    not (is_cancelled b.status)
    && (b.teacher_id == p.teacher_id || b.student_id == p.student_id)
    && ltb p.start_at b.end_at
    && ltb b.start_at p.end_at

unfoldable pub clashes_any : CreateBookingParams → List Booking → Bool
unfolding clashes
clashes_any p [] = false
clashes_any p (b ∷ bs) = clashes p b || clashes_any p bs

unfoldable pub get_booking : ℕ → Action Booking
get_booking id = do or_raise (← gets (λ w. find booking_id_of id w.bookings)) booking_not_found

abbrev pub new_booking : World → TeacherContext → CreateBookingParams → Booking
new_booking w t p = record {
  id = w.next_id;
  teacher_id = p.teacher_id;
  student_id = p.student_id;
  teacher_owner_id = t.owner_id;
  status = pending_payment;
  start_at = p.start_at;
  end_at = p.end_at;
  duration_minutes = p.duration_minutes;
  is_trial = p.is_trial;
  price = p.price;
  created_at = w.now;
  cancelled_at = none;
  cancellation_reason = "";
  cancelled_by = nobody;
  meeting_url_override = "";
  teacher_meeting_url = t.meeting_url;
  no_show_party = none_missed;
}

-- The insert; a teacher id without a teacher violates the foreign key.
unfoldable pub insert_booking : CreateBookingParams → Action ℕ
unfolding clashes_any
insert_booking p w = elim (find teacher_id_of p.teacher_id w.teachers) [
  | none ↦ (err database_error, w)
  | some t ↦ if clashes_any p w.bookings then (err slot_taken, w) else (
    ok w.next_id,
    record w { bookings = w.bookings ++ new_booking w t p ∷ []; next_id = suc w.next_id },
  )
]

unfoldable pub create_booking : CreateBookingParams → Action Booking
unfolding insert_booking get_booking
create_booking p = do id ← insert_booking p; get_booking id

unfoldable pub update_booking : ℕ → (Booking → Booking) → Action (Unit {0})
update_booking id f = change (λ w. record w { bookings = modify booking_id_of id f w.bookings })

unfoldable pub set_status : ℕ → BookingStatus → Action Booking
unfolding update_booking get_booking
set_status id status = do update_booking id (λ b. record b { status = status }); get_booking id

abbrev pub cancel_row : ℕ → String → Canceller → Booking → Booking
cancel_row now reason by b = record b {
  status = cancelled;
  cancelled_at = some now;
  cancellation_reason = reason;
  cancelled_by = by;
}

unfoldable pub cancel_booking : ℕ → String → Canceller → Action Booking
unfolding update_booking get_booking
cancel_booking id reason by = do
  now ← gets (λ w. w.now)
  update_booking id (cancel_row now reason by)
  get_booking id

unfoldable pub set_meeting_link_override : ℕ → String → Action Booking
unfolding update_booking get_booking
set_meeting_link_override id url = do
  update_booking id (λ b. record b { meeting_url_override = url })
  get_booking id

unfoldable pub set_no_show_party : ℕ → Party → Action (Unit {0})
unfolding update_booking
set_no_show_party id party = update_booking id (λ b. record b { no_show_party = party })
