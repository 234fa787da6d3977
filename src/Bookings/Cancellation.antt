-- ===== src/Bookings/Cancellation.antt =====
-- Cancelling a paid lesson, and what happens where the provider has lost its references: after a
-- restart the in-process provider counts from 1 again and knows none of the old holds.
use Prim.Native.String.{String}
use find_language_tutor.Prelude.{
  ℕ, suc, ◌≡◌, ◌≢◌, refl, ap, ◌∙◌, Bool, true, false, none, some, ◌∷◌, arith, ◌==◌, if◌then◌else◌,
}
use find_language_tutor.Store.{
  World, Booking, pending_payment, Payment, MethodToken, pm_decline, Hold, event_authorized,
  cancelled, by_student, by_teacher, event_refunded, find, modify, cancel_reminders,
  notify_cancelled,
}
use find_language_tutor.Effect.{ok, err, Error, Fallible, Action, unknown_ref, ◌>>◌}
use find_language_tutor.Payments.Events.{seen, booking_id_of, handle_webhook, apply_event, emit}
use find_language_tutor.Payments.FakeProvider.{fake_provider, ref_of, place_hold, fake_refund}
use find_language_tutor.Payments.Service.{
  authorize, refund, refund_by, return_money, payment_by_booking,
}
use find_language_tutor.Payments.MoneyPath.{
  event_of, HasIntent, HasHold, IsPayable, HoldsMoney, hold_refunded, refund_lem,
  fake_authorize_lem,
}
use find_language_tutor.Payments.Outcome.{told, refunded_world, hold_refunded_lem}
use find_language_tutor.Bookings.Repository.{
  get_booking, cancel_booking, cancel_row, update_booking,
}
use find_language_tutor.Bookings.Ports.{Ports, call_if, participant}
use find_language_tutor.Bookings.Lifecycle.{pay, cancel, do_cancel, is_cancellable, canceller_for}
use find_language_tutor.Bookings.Journey.{HasLesson, IsWired, booking_updated}

-- The booking that a participant cancelled: when, why, and in which role.
abbrev pub cancelled_by_row : ℕ → String → ℕ → Booking → Booking → Booking
cancelled_by_row now reason caller b x = record x {
  status = cancelled;
  cancelled_at = some now;
  cancellation_reason = reason;
  cancelled_by = if b.student_id == caller then by_student else by_teacher;
}

abbrev pub cancelled_booking : Ports → World → ℕ → String → Booking → Booking
cancelled_booking ports w caller reason b =
    cancelled_by_row w.now (ports.trim_space reason) caller b b

abbrev pub with_cancelled : Ports → World → ℕ → String → Booking → World
with_cancelled ports w caller reason b = record w {
  bookings =
      modify booking_id_of b.id (cancelled_by_row w.now (ports.trim_space reason) caller b)
        w.bookings;
}

-- The reminders are dropped and the other party is told, with or without a refund, where there are
-- such ports.
abbrev pub told_cancelled : Ports → ℕ → ℕ → Bool → World → World
told_cancelled ports id actor returned w = record w {
  calls =
      told ports.has_notifier (notify_cancelled id actor returned)
        (told ports.has_reminders (cancel_reminders id) w.calls);
}

calls_after_cancel :
    (ports : Ports) (id actor : ℕ) (returned : Bool) (w : World)
    → (call_if ports.has_reminders (cancel_reminders id)
          >> call_if ports.has_notifier (notify_cancelled id actor returned))
        w
      ≡ (ok tt, told_cancelled ports id actor returned w)
calls_after_cancel ports id actor returned w = ground arith

module _ (ports : Ports) (w : World) (b : Booking) (p : Payment) (caller : ℕ) (reason : String)
    (wired : IsWired ports) (has : HasLesson w b p) (allowed : participant b caller ≡ true)
    (live : is_cancellable b.status ≡ true) (money : HoldsMoney p.status) where
  intent_after : HasIntent (with_cancelled ports w caller reason b) b.id p
  intent_after = record {
    by_booking = has.intent.by_booking;
    by_id = has.intent.by_id;
    not_nil = has.intent.not_nil;
  }

  refunded_then_told :
      (h : Hold)
      → HasHold w p h
      → seen (event_of p.provider_ref event_refunded) w.events ≡ false
      → cancel ports caller b.id reason w ≡ (
        ok (cancelled_booking ports w caller reason b),
        told_cancelled ports b.id caller true
            (hold_refunded p (with_cancelled ports w caller reason b)),
      )
  unfolding cancel get_booking do_cancel cancel_booking update_booking
  refunded_then_told h hold new = ground (
    arith,
    has.in_bookings,
    refund_lem (with_cancelled ports w caller reason b) b.id p h intent_after money
        (record { known = hold.known; owner = hold.owner }) new,
    booking_updated b.id (cancel_row w.now (ports.trim_space reason) (canceller_for b caller))
        w.bookings b has.in_bookings (λ x. refl),
  )

  -- With the in-process provider, where the provider knows the hold and the refund was not logged
  -- before: when a participant cancels a paid lesson that is pending or confirmed, the booking is
  -- cancelled with who did it and why, the payment is refunded, the ledger row is reversed unless
  -- it was paid out, and the reminders are dropped and the other party is told of the refund, where
  -- there are such ports.
  pub cancel_refunds :
      (h : Hold)
      → HasHold w p h
      → seen (event_of p.provider_ref event_refunded) w.events ≡ false
      → cancel ports caller b.id reason w ≡ (
        ok (cancelled_booking ports w caller reason b),
        told_cancelled ports b.id caller true
            (refunded_world p (with_cancelled ports w caller reason b)),
      )
  cancel_refunds h hold new =
      let answer : Fallible Error Booking = ok (cancelled_booking ports w caller reason b) in
      refunded_then_told h hold new
      ∙ ap (λ (u : World). (answer, told_cancelled ports b.id caller true u))
          (hold_refunded_lem p (with_cancelled ports w caller reason b))

  lost_refund :
      find ref_of p.provider_ref w.holds ≡ none
      → refund fake_provider b.id (with_cancelled ports w caller reason b)
        ≡ (err unknown_ref, with_cancelled ports w caller reason b)
  unfolding refund refund_by return_money fake_refund
  lost_refund lost = ground (arith, has.intent.by_booking)

  -- With the in-process provider, where the provider does not know the hold: when a participant
  -- cancels a paid lesson that is pending or confirmed, the lesson is cancelled and the other
  -- party is told of a refund, but the payment, the ledger and the provider are left as they were,
  -- so the student's money stays held.
  pub cancel_lost_hold :
      find ref_of p.provider_ref w.holds ≡ none
      → cancel ports caller b.id reason w ≡ (
        ok (cancelled_booking ports w caller reason b),
        told_cancelled ports b.id caller true (with_cancelled ports w caller reason b),
      )
  unfolding cancel get_booking do_cancel cancel_booking update_booking
  cancel_lost_hold lost = ground (
    arith,
    has.in_bookings,
    lost_refund lost,
    booking_updated b.id (cancel_row w.now (ports.trim_space reason) (canceller_for b caller))
        w.bookings b has.in_bookings (λ x. refl),
  )

-- The provider's maps after a hold whose event changes nothing.
abbrev pub hold_ignored : Payment → MethodToken → World → World
hold_ignored p token w = record w {
  seq = suc w.seq;
  holds = record { ref = suc w.seq; token = token; payment_id = p.id } ∷ w.holds;
}

place_hold_replayed :
    (w : World) (p : Payment) (token : MethodToken)
    → p.id ≢ 0
    → seen (event_of (suc w.seq) event_authorized) w.events ≡ true
    → place_hold p.id token w ≡ (ok (suc w.seq), hold_ignored p token w)
unfolding place_hold emit handle_webhook apply_event
place_hold_replayed w p token id old = ground arith

authorize_replayed :
    (w : World) (b : Booking) (p : Payment) (token : MethodToken)
    → HasLesson w b p
    → IsPayable p.status
    → token ≢ pm_decline
    → seen (event_of (suc w.seq) event_authorized) w.events ≡ true
    → authorize fake_provider b.id token w ≡ (ok p, hold_ignored p token w)
unfolding authorize payment_by_booking
authorize_replayed w b p token has payable accepts old = ground (
  arith,
  has.intent.by_booking,
  ap (λ (a : Action ℕ). a w) (fake_authorize_lem p.id token accepts),
  place_hold_replayed w p token has.intent.not_nil old,
)

-- With the in-process provider, where the event of its next reference is in the log already:
-- paying a pending booking by a method that is not declined answers with success, and yet the
-- booking it returns is still pending, the payment is not authorized, and only the provider's own
-- maps have changed.
pub pay_replayed_ref :
    (ports : Ports) (w : World) (b : Booking) (p : Payment) (token : MethodToken)
    → IsWired ports
    → HasLesson w b p
    → b.status ≡ pending_payment
    → IsPayable p.status
    → token ≢ pm_decline
    → seen (event_of (suc w.seq) event_authorized) w.events ≡ true
    → pay ports b.student_id b.id token w ≡ (ok (b, p), hold_ignored p token w)
unfolding pay get_booking
pay_replayed_ref ports w b p token wired has pending payable accepts old =
    ground (arith, has.in_bookings, authorize_replayed w b p token has payable accepts old)
