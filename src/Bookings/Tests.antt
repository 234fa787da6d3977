-- ===== src/Bookings/Tests.antt =====
-- The theorems on bookings at a small database.
use find_language_tutor.Bookings.Decline.{decline_of, decline_noted, pay_declined}
use find_language_tutor.Payments.FakeProvider.{decline_reason, fake_capture}
use find_language_tutor.Payments.Service.{capture}
use find_language_tutor.Payments.Events.{mark_failed, seen}
use find_language_tutor.Effect.{payment_failed, ok, err, slot_unavailable}
use find_language_tutor.Store.{
  pm_decline, Payment, World, pending_payment, confirmed, completed, requires_payment, authorized,
  find, modify, event_authorized, pm_ok,
}
use find_language_tutor.Prelude.{
  some, ℕ, ◌+◌, ◌*◌, ◌<◌, ◌≤◌, ◌≡◌, refl, inl, [], ◌∷◌, arith, true, false, length,
}
use find_language_tutor.Clock.{minute, hour, day}
use find_language_tutor.Samples.{sunday, lesson, intent, world_of, first_hold, all_ports}
use find_language_tutor.Payments.MoneyPath.{event_of, HasHold}
use find_language_tutor.Payments.Outcome.{authorized_row, paid_world, refunded_world}
use find_language_tutor.Bookings.Browse.{CreateInput, create, place, lesson_duration, lesson_price}
use find_language_tutor.Bookings.Calendar.{IsCalendar, create-IsCalendar}
use find_language_tutor.Bookings.Pricing.{hourly_amount, hourly_amount_rounds}
use find_language_tutor.Bookings.Ports.{participant}
use find_language_tutor.Bookings.Machine.{status_of}
use find_language_tutor.Bookings.Steps.{
  Reach, here, next, ended, withdrawn, forced, Trace, Reach-Trace,
}
use find_language_tutor.Bookings.Lifecycle.{pay, complete, cancel, admin_force_cancel}
use find_language_tutor.Bookings.Journey.{HasLesson, told_confirmed, pay_confirms}
use find_language_tutor.Bookings.Cancellation.{
  cancelled_booking, with_cancelled, told_cancelled, cancel_refunds, cancel_lost_hold, hold_ignored,
  pay_replayed_ref,
}

hourly_amount_rounds_example :
    (60 * hourly_amount 4001 90 ≤ 4001 * 90 + 30) × (4001 * 90 < 60 * hourly_amount 4001 90 + 30)
hourly_amount_rounds_example = hourly_amount_rounds 4001 90 (omega arith)

-- A lesson that is booked and not paid.
abbrev booked : World
booked = world_of sunday pending_payment (intent 0 requires_payment) 0 [] []

has_booked : HasLesson booked (lesson pending_payment) (intent 0 requires_payment)
unfolding find
has_booked = record {
  in_bookings = refl;
  intent = record { by_booking = refl; by_id = refl; not_nil = omega arith };
  same_booking = refl;
}

pay_confirms_example : pay all_ports 10 1 pm_ok booked ≡ (
  ok (lesson confirmed, authorized_row sunday 1 (intent 0 requires_payment)),
  told_confirmed all_ports (lesson confirmed) (paid_world (intent 0 requires_payment) pm_ok booked),
)
unfolding seen
pay_confirms_example =
    pay_confirms all_ports booked (lesson pending_payment) (intent 0 requires_payment) pm_ok refl
      has_booked refl (inl refl) (λ e. cc) refl

-- The same, where the provider's counter has started again.
abbrev restarted : World
restarted = record booked { events = event_of 1 event_authorized ∷ [] }

has_restarted : HasLesson restarted (lesson pending_payment) (intent 0 requires_payment)
unfolding find
has_restarted = record {
  in_bookings = refl;
  intent = record { by_booking = refl; by_id = refl; not_nil = omega arith };
  same_booking = refl;
}

pay_replayed_ref_example : pay all_ports 10 1 pm_ok restarted ≡ (
  ok (lesson pending_payment, intent 0 requires_payment),
  hold_ignored (intent 0 requires_payment) pm_ok restarted,
)
unfolding seen
pay_replayed_ref_example =
    pay_replayed_ref all_ports restarted (lesson pending_payment) (intent 0 requires_payment) pm_ok
      refl has_restarted refl (inl refl) (λ e. cc) refl

-- A lesson that is paid, at a time.
abbrev paid_at : ℕ → World
paid_at now = world_of now confirmed (intent 1 authorized) 1 (first_hold ∷ []) []

has_paid : (now : ℕ) → HasLesson (paid_at now) (lesson confirmed) (intent 1 authorized)
unfolding find
has_paid now = record {
  in_bookings = refl;
  intent = record { by_booking = refl; by_id = refl; not_nil = omega arith };
  same_booking = refl;
}

has_hold : (now : ℕ) → HasHold (paid_at now) (intent 1 authorized) first_hold
unfolding find
has_hold now = record { known = refl; owner = refl }

abbrev monday : ℕ
monday = sunday + day

cancel_refunds_example : cancel all_ports 10 1 "ill" (paid_at sunday) ≡ (
  ok (cancelled_booking all_ports (paid_at sunday) 10 "ill" (lesson confirmed)),
  told_cancelled all_ports 1 10 true (
      refunded_world
        (intent 1 authorized)
        (with_cancelled all_ports (paid_at sunday) 10 "ill" (lesson confirmed))),
)
unfolding seen participant
cancel_refunds_example =
    cancel_refunds all_ports (paid_at sunday) (lesson confirmed) (intent 1 authorized) 10 "ill" refl
      (has_paid sunday) refl refl (inl refl) first_hold (has_hold sunday) refl

-- The provider's maps are empty after a restart.
abbrev forgotten : World
forgotten = world_of sunday confirmed (intent 1 authorized) 0 [] []

has_forgotten : HasLesson forgotten (lesson confirmed) (intent 1 authorized)
unfolding find
has_forgotten = record {
  in_bookings = refl;
  intent = record { by_booking = refl; by_id = refl; not_nil = omega arith };
  same_booking = refl;
}

cancel_lost_hold_example : cancel all_ports 10 1 "ill" forgotten ≡ (
  ok (cancelled_booking all_ports forgotten 10 "ill" (lesson confirmed)),
  told_cancelled all_ports 1 10 true
      (with_cancelled all_ports forgotten 10 "ill" (lesson confirmed)),
)
unfolding find participant
cancel_lost_hold_example =
    cancel_lost_hold all_ports forgotten (lesson confirmed) (intent 1 authorized) 10 "ill" refl
      has_forgotten refl refl (inl refl) refl

-- The student asks for Sunday at 9:30, which the booked lesson takes, and at 10:00.
abbrev request : ℕ → CreateInput
request start = record {
  teacher_slug = "dilnoza";
  start_at = start;
  duration_minutes = 60;
  is_trial = false;
}

create-IsCalendar_example :
    IsCalendar (create all_ports 11 (request (sunday + 10 * hour)) booked).1.bookings
create-IsCalendar_example =
    create-IsCalendar all_ports 11 (request (sunday + 10 * hour)) booked refl (tt, tt)

half_past_refused :
    (create all_ports 11 (request (sunday + 9 * hour + 30 * minute)) booked).0
    ≡ err slot_unavailable
unfolding create place lesson_duration lesson_price
half_past_refused = refl

ten_booked : length (create all_ports 11 (request (sunday + 10 * hour)) booked).1.bookings ≡ 2
unfolding create place lesson_duration lesson_price find
    find_language_tutor.Payments.Service.initiate_payment
ten_booked = refl

pay_declined_example :
    pay all_ports 10 1 pm_decline booked
    ≡ (err (payment_failed decline_reason), decline_noted (intent 0 requires_payment) booked)
unfolding seen
pay_declined_example =
    pay_declined all_ports booked (lesson pending_payment) (intent 0 requires_payment) refl
      has_booked refl (inl refl) refl

-- The intent after a first decline.
abbrev failed_intent : Payment
failed_intent = mark_failed decline_reason (intent 0 requires_payment)

abbrev declined_once : World
declined_once = record (world_of sunday pending_payment failed_intent 0 [] []) {
  events = decline_of failed_intent ∷ [];
}

has_declined : HasLesson declined_once (lesson pending_payment) failed_intent
unfolding find
has_declined = record {
  in_bookings = refl;
  intent = record { by_booking = refl; by_id = refl; not_nil = omega arith };
  same_booking = refl;
}

-- The lesson is completed, and then the student and an operator try to cancel it.
abbrev ended_lesson : World
ended_lesson = (complete all_ports 20 1 (paid_at monday)).1

abbrev after_all : World
after_all =
    (admin_force_cancel all_ports 1 "no" true (cancel all_ports 10 1 "ill" ended_lesson).1).1

history : Reach all_ports (paid_at monday) after_all
history =
    next (next (next here (ended 20 1 (paid_at monday))) (withdrawn 10 1 "ill" ended_lesson))
      (forced 1 "no" true (cancel all_ports 10 1 "ill" ended_lesson).1)

Reach-Trace_example : Trace history
Reach-Trace_example = Reach-Trace all_ports refl history

still_completed : status_of 1 after_all.bookings ≡ some completed
unfolding status_of complete cancel admin_force_cancel find capture fake_capture modify
still_completed = refl
