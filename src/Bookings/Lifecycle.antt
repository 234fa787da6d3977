-- ===== src/Bookings/Lifecycle.antt =====
-- Pay, Complete, Cancel, AdminForceCancel, AdminRefund, SetMeetingLink and NoShow of the bookings
-- service.
use Prim.Native.String.{String}
use find_language_tutor.Prelude.{
  ℕ, Bool, true, false, not, ◌&&◌, Option, none, some, ltb, ◌==◌, if◌then◌else◌,
}
use text.Mathlib.Text.{◌==◌ as str_eq}
use find_language_tutor.Store.{
  Booking, BookingStatus, pending_payment, confirmed, completed, cancelled, Canceller, by_student,
  by_teacher, by_admin, Party, student, teacher, MethodToken, Payment, schedule_reminders,
  cancel_reminders, notify_confirmed, notify_cancelled,
}
use find_language_tutor.Effect.{
  forbidden, not_student, not_teacher_owner, already_paid, invalid_transition, payment_required,
  too_early, lesson_not_started, invalid_request, Action, pure, raise, gets, or_raise, ◌>>=◌, ◌>>◌,
  raise_if, ignore_error,
}
use find_language_tutor.Payments.Service.{Gateway}
use find_language_tutor.Bookings.Repository.{
  get_booking, set_status, cancel_booking, set_meeting_link_override, set_no_show_party,
}
use find_language_tutor.Bookings.Ports.{Ports, call_if, participant, is_teacher_owner}

-- The switch of Pay on the booking's status.
abbrev pub check_unpaid : BookingStatus → Action (Unit {0})
check_unpaid pending_payment = pure tt
check_unpaid confirmed = raise already_paid
check_unpaid completed = raise already_paid
check_unpaid cancelled = raise invalid_transition

-- Reminders and the mail, where the payment has confirmed the booking.
abbrev pub announce : Ports → Booking → BookingStatus → Action (Unit {0})
announce ports b confirmed = do
  call_if ports.has_reminders (schedule_reminders b.id b.start_at)
  call_if ports.has_notifier (notify_confirmed b.id)
announce ports b _ = pure tt

unfoldable pub pay : Ports → ℕ → ℕ → MethodToken → Action (Booking × Payment)
unfolding get_booking
pay ports caller booking_id token = do
  g ← or_raise ports.payments payment_required
  b ← get_booking booking_id
  raise_if (not (b.student_id == caller)) not_student
  check_unpaid b.status
  p ← g.authorize booking_id token
  b' ← get_booking booking_id
  announce ports b' b'.status
  pure (b', p)

abbrev pub is_confirmed : BookingStatus → Bool
is_confirmed confirmed = true
is_confirmed _ = false

unfoldable pub complete : Ports → ℕ → ℕ → Action (Booking × Payment)
unfolding get_booking is_teacher_owner set_status
complete ports caller booking_id = do
  g ← or_raise ports.payments payment_required
  b ← get_booking booking_id
  raise_if (not (is_teacher_owner b caller)) not_teacher_owner
  raise_if (not (is_confirmed b.status)) invalid_transition
  now ← gets (λ w. w.now)
  raise_if (not (ltb b.end_at now)) too_early
  p ← g.capture booking_id
  b' ← set_status booking_id completed
  pure (b', p)

-- The refund of doCancel: its error is logged, and the mail says that there was one.
abbrev pub refund_if : Bool → Option Gateway → ℕ → Action Bool
refund_if true (some g) booking_id = ignore_error (g.refund booking_id) >>= λ _. pure true
refund_if _ _ booking_id = pure false

unfoldable pub do_cancel : Ports → ℕ → String → Canceller → ℕ → Bool → Action Booking
unfolding cancel_booking
do_cancel ports booking_id reason by actor refund = do
  b ← cancel_booking booking_id (ports.trim_space reason) by
  refunded ← refund_if refund ports.payments booking_id
  call_if ports.has_reminders (cancel_reminders booking_id)
  call_if ports.has_notifier (notify_cancelled b.id actor refunded)
  pure b

abbrev pub is_cancellable : BookingStatus → Bool
is_cancellable pending_payment = true
is_cancellable confirmed = true
is_cancellable _ = false

abbrev pub canceller_for : Booking → ℕ → Canceller
canceller_for b caller = if b.student_id == caller then by_student else by_teacher

unfoldable pub cancel : Ports → ℕ → ℕ → String → Action Booking
unfolding get_booking participant do_cancel
cancel ports caller booking_id reason = do
  b ← get_booking booking_id
  raise_if (not (participant b caller)) forbidden
  raise_if (not (is_cancellable b.status)) invalid_transition
  do_cancel ports booking_id reason (canceller_for b caller) caller true

unfoldable pub admin_force_cancel : Ports → ℕ → String → Bool → Action (Unit {0})
unfolding get_booking do_cancel
admin_force_cancel ports booking_id reason refund = do
  b ← get_booking booking_id
  raise_if (not (is_cancellable b.status)) invalid_transition
  do_cancel ports booking_id reason by_admin 0 refund
  pure tt

unfoldable pub admin_refund : Ports → ℕ → Action (Unit {0})
unfolding get_booking
admin_refund ports booking_id = do
  b ← get_booking booking_id
  elim ports.payments [ none ↦ pure tt | some g ↦ g.refund booking_id >>= λ _. pure tt ]

unfoldable pub set_meeting_link : Ports → ℕ → ℕ → String → Action Booking
unfolding get_booking is_teacher_owner set_meeting_link_override
set_meeting_link ports caller booking_id link = do
  b ← get_booking booking_id
  raise_if (not (is_teacher_owner b caller)) not_teacher_owner
  let trimmed = ports.trim_space link
  raise_if (not (str_eq trimmed "") && not (ports.valid_meeting_url trimmed)) invalid_request
  set_meeting_link_override booking_id trimmed

-- The student missed the lesson: the money path of Complete.
unfoldable pub student_no_show : Ports → ℕ → Action (Booking × Option Payment)
unfolding set_status set_no_show_party
student_no_show ports booking_id = do
  g ← or_raise ports.payments payment_required
  p ← g.capture booking_id
  set_no_show_party booking_id student
  b ← set_status booking_id completed
  call_if ports.has_reminders (cancel_reminders booking_id)
  pure (b, some p)

-- The teacher could not make it: the shared cancel path.
unfoldable pub teacher_no_show : Ports → ℕ → ℕ → Action (Booking × Option Payment)
unfolding set_no_show_party do_cancel
teacher_no_show ports caller booking_id = do
  set_no_show_party booking_id teacher
  b ← do_cancel ports booking_id "teacher no-show" by_teacher caller true
  pure (b, none)

abbrev pub is_party : Party → Bool
is_party student = true
is_party teacher = true
is_party _ = false

unfoldable pub no_show_by : Party → Ports → ℕ → ℕ → Action (Booking × Option Payment)
unfolding student_no_show teacher_no_show
no_show_by student ports caller booking_id = student_no_show ports booking_id
no_show_by _ ports caller booking_id = teacher_no_show ports caller booking_id

unfoldable pub no_show : Ports → ℕ → ℕ → Party → Action (Booking × Option Payment)
unfolding get_booking is_teacher_owner no_show_by
no_show ports caller booking_id party = do
  raise_if (not (is_party party)) invalid_request
  b ← get_booking booking_id
  raise_if (not (is_teacher_owner b caller)) not_teacher_owner
  raise_if (not (is_confirmed b.status)) invalid_transition
  now ← gets (λ w. w.now)
  raise_if (not (ltb b.start_at now)) lesson_not_started
  no_show_by party ports caller booking_id
