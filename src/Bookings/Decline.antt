-- ===== src/Bookings/Decline.antt =====
-- Paying by a method that the provider declines.
use find_language_tutor.Prelude.{◌≡◌, ◌≢◌, true, false, some, ◌∷◌, arith}
use find_language_tutor.Store.{
  World, Booking, pending_payment, Payment, pm_decline, event_failed, EventId, of_decline, find,
  modify,
}
use find_language_tutor.Effect.{err, payment_failed, provider_declined}
use find_language_tutor.Payments.Events.{seen, payment_id_of, handle_webhook, apply_event, emit}
use find_language_tutor.Payments.FakeProvider.{fake_decline, fake_authorize, decline_reason}
use find_language_tutor.Payments.Service.{authorize, payment_by_booking}
use find_language_tutor.Payments.MoneyPath.{IsPayable}
use find_language_tutor.Payments.Outcome.{declined_row}
use find_language_tutor.Bookings.Repository.{get_booking}
use find_language_tutor.Bookings.Ports.{Ports}
use find_language_tutor.Bookings.Lifecycle.{pay}
use find_language_tutor.Bookings.Journey.{HasLesson, IsWired}

abbrev pub decline_of : Payment → EventId
decline_of p = record { ref = of_decline p.id; type = event_failed }

-- The tables after a first decline of the payment.
abbrev pub decline_noted : Payment → World → World
decline_noted p w = record w {
  events = decline_of p ∷ w.events;
  payments = modify payment_id_of p.id (declined_row decline_reason) w.payments;
}

fake_decline_first :
    (w : World) (p : Payment)
    → find payment_id_of p.id w.payments ≡ some p
    → p.id ≢ 0
    → seen (decline_of p) w.events ≡ false
    → fake_decline p.id w ≡ (err (provider_declined decline_reason), decline_noted p w)
unfolding fake_decline emit handle_webhook apply_event
fake_decline_first w p known id new = ground (arith, known)

fake_decline_again :
    (w : World) (p : Payment)
    → p.id ≢ 0
    → seen (decline_of p) w.events ≡ true
    → fake_decline p.id w ≡ (err (provider_declined decline_reason), w)
unfolding fake_decline emit handle_webhook apply_event
fake_decline_again w p id old = ground arith

module _ (ports : Ports) (w : World) (b : Booking) (p : Payment) (wired : IsWired ports)
    (has : HasLesson w b p) (pending : b.status ≡ pending_payment)
    (payable : IsPayable p.status) where
  -- With the in-process provider, where the pending booking and its payable intent are in the
  -- tables and no decline of it is in the log: paying by a method that is declined is answered with
  -- the provider's message; the intent is marked as failed with it, and the booking stays as it is.
  pub pay_declined :
      seen (decline_of p) w.events ≡ false
      → pay ports b.student_id b.id pm_decline w
        ≡ (err (payment_failed decline_reason), decline_noted p w)
  unfolding pay get_booking authorize payment_by_booking fake_authorize
  pay_declined new = ground (
    arith,
    has.in_bookings,
    has.intent.by_booking,
    fake_decline_first w p has.intent.by_id has.intent.not_nil new,
  )

  -- With the in-process provider, where a decline of the payable intent is in the log: paying the
  -- pending booking by a method that is declined is answered with the provider's message, and
  -- changes nothing.
  pub pay_declined_again :
      seen (decline_of p) w.events ≡ true
      → pay ports b.student_id b.id pm_decline w ≡ (err (payment_failed decline_reason), w)
  unfolding pay get_booking authorize payment_by_booking fake_authorize
  pay_declined_again old =
      ground (
        arith,
        has.in_bookings,
        has.intent.by_booking,
        fake_decline_again w p has.intent.not_nil old,
      )
