-- ===== src/Bookings/Journey.antt =====
-- A lesson's way through the service, its payment and the ledger, with the in-process provider.
use find_language_tutor.Prelude.{
  ℕ, suc, ◌<◌, ◌≡◌, ◌≢◌, refl, ap, ◌∙◌, false, not, ◌&&◌, none, some, List, arith,
}
use find_language_tutor.Slots.{contains}
use find_language_tutor.Store.{
  World, Booking, pending_payment, confirmed, completed, Payment, authorized, MethodToken,
  pm_decline, Hold, event_authorized, event_captured, schedule_reminders, notify_confirmed, find,
  modify, find-modify,
}
use find_language_tutor.Effect.{ok, Error, Fallible}
use find_language_tutor.Payments.Events.{
  seen, booking_id_of, ledger_booking_of, mark_authorized, confirm,
}
use find_language_tutor.Payments.FakeProvider.{fake_provider, fails_first}
use find_language_tutor.Payments.Service.{gateway}
use find_language_tutor.Payments.MoneyPath.{
  event_of, HasIntent, HasHold, IsPayable, hold_placed, authorize_lem, capture_lem,
}
use find_language_tutor.Payments.Outcome.{
  authorized_row, captured_row, paid_world, captured_world, told, hold_placed_lem,
}
use find_language_tutor.Bookings.Repository.{get_booking, set_status, update_booking}
use find_language_tutor.Bookings.Ports.{Ports, is_teacher_owner}
use find_language_tutor.Bookings.Lifecycle.{pay, complete, announce}

-- The booking and its intent are in the tables.
pub record HasLesson (w : World) (b : Booking) (p : Payment) : Type 0 where
  pub in_bookings : find booking_id_of b.id w.bookings ≡ some b
  pub intent : HasIntent w b.id p
  pub same_booking : p.booking_id ≡ b.id

abbrev pub IsWired : Ports → Type 0
IsWired ports = ports.payments ≡ some (gateway fake_provider)

pub booking_updated :
    (id : ℕ) (f : Booking → Booking) (bs : List Booking) (b : Booking)
    → find booking_id_of id bs ≡ some b
    → ((x : Booking) → (f x).id ≡ x.id)
    → find booking_id_of id (modify booking_id_of id f bs) ≡ some (f b)
booking_updated id f bs b h same = ground (arith, find-modify booking_id_of id id f bs same)

pay_lem :
    (ports : Ports) (w : World) (b : Booking) (p : Payment) (token : MethodToken)
    → IsWired ports
    → HasLesson w b p
    → b.status ≡ pending_payment
    → IsPayable p.status
    → token ≢ pm_decline
    → seen (event_of (suc w.seq) event_authorized) w.events ≡ false
    → pay ports b.student_id b.id token w ≡ (
      ok (record b { status = confirmed }, mark_authorized w.now (suc w.seq) p),
      (announce ports (record b { status = confirmed }) confirmed (hold_placed p token w)).1,
    )
unfolding pay get_booking
pay_lem ports w b p token wired has pending payable accepts new = ground (
  arith,
  has.in_bookings,
  has.same_booking,
  authorize_lem w b.id p token has.intent payable accepts new,
  booking_updated b.id confirm w.bookings b has.in_bookings (λ x. refl),
)

-- The reminders are scheduled, and the mail is sent, where the port is there.
abbrev pub told_confirmed : Ports → Booking → World → World
told_confirmed ports b w = record w {
  calls =
      told ports.has_notifier (notify_confirmed b.id)
        (told ports.has_reminders (schedule_reminders b.id b.start_at) w.calls);
}

announce_lem :
    (ports : Ports) (b : Booking) (w : World)
    → (announce ports b confirmed w).1 ≡ told_confirmed ports b w
announce_lem ports b w = ground arith

-- With the in-process provider, where the pending booking and its payable intent are in the tables
-- and the next reference of the provider was never used: paying by a method that is not declined
-- confirms the booking and authorizes the payment under that reference in one step, and then
-- schedules the reminders and sends the mail, where there are such ports. Both rows are returned,
-- and the tables hold just these changes, the new hold and its event.
pub pay_confirms :
    (ports : Ports) (w : World) (b : Booking) (p : Payment) (token : MethodToken)
    → IsWired ports
    → HasLesson w b p
    → b.status ≡ pending_payment
    → IsPayable p.status
    → token ≢ pm_decline
    → seen (event_of (suc w.seq) event_authorized) w.events ≡ false
    → pay ports b.student_id b.id token w ≡ (
      ok (record b { status = confirmed }, authorized_row w.now (suc w.seq) p),
      told_confirmed ports b (paid_world p token w),
    )
pay_confirms ports w b p token wired has pending payable accepts new =
    let answer : Fallible Error (Booking × Payment) =
      ok (record b { status = confirmed }, authorized_row w.now (suc w.seq) p) in
    pay_lem ports w b p token wired has pending payable accepts new
    ∙ ap (λ (u : World). (answer, u))
        (announce_lem ports (record b { status = confirmed }) (hold_placed p token w)
          ∙ ap (told_confirmed ports b) (hold_placed_lem p token w))

pub complete_captures :
    (ports : Ports) (w : World) (b : Booking) (p : Payment) (h : Hold)
    → IsWired ports
    → HasLesson w b p
    → b.status ≡ confirmed
    → b.teacher_owner_id ≢ 0
    → b.end_at < w.now
    → p.status ≡ authorized
    → HasHold w p h
    → (fails_first h.token && not (contains p.provider_ref w.tried)) ≡ false
    → seen (event_of p.provider_ref event_captured) w.events ≡ false
    → find ledger_booking_of b.id w.ledger ≡ none
    → let w' = captured_world p b w in
      complete ports b.teacher_owner_id b.id w ≡ (
        ok (record b { status = completed }, captured_row w.now p),
        record w' {
          bookings = modify booking_id_of b.id (λ x. record x { status = completed }) w'.bookings;
        },
      )
unfolding complete get_booking is_teacher_owner set_status update_booking
complete_captures ports w b p h wired has conf owned ended auth hold passes new no_row = ground (
  arith,
  has.in_bookings,
  has.same_booking,
  capture_lem w b.id p b h has.intent auth hold passes new,
  booking_updated b.id (λ x. record x { status = completed }) w.bookings b has.in_bookings
      (λ x. refl),
)
