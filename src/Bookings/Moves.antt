-- ===== src/Bookings/Moves.antt =====
-- What each call of the bookings service does to the bookings.
use Prim.Native.String.{String}
use find_language_tutor.Prelude.{
  ℕ, ◌≡◌, ◌⊎◌, inl, inr, refl, Bool, true, false, ◌∷◌, arith, Bool-cases, Option-cases, ◌==◌,
}
use find_language_tutor.Store.{
  World, Booking, BookingStatus, pending_payment, confirmed, completed, cancelled, Canceller,
  MethodToken, PortCall, schedule_reminders, cancel_reminders, notify_confirmed, notify_cancelled,
  find, modify,
}
use find_language_tutor.Effect.{
  already_paid, invalid_transition, ok, err, Error, Action, Fallible-cases,
}
use find_language_tutor.Payments.Events.{booking_id_of}
use find_language_tutor.Payments.FakeProvider.{fake_provider}
use find_language_tutor.Payments.Service.{authorize, refund}
use find_language_tutor.Bookings.Repository.{
  get_booking, update_booking, cancel_booking, cancel_row,
}
use find_language_tutor.Bookings.Ports.{Ports, call_if}
use find_language_tutor.Bookings.Lifecycle.{check_unpaid, announce, pay, refund_if, do_cancel}
use find_language_tutor.Bookings.Journey.{IsWired}
use find_language_tutor.Bookings.Machine.{confirming, Changes, same, more, still}
use find_language_tutor.Bookings.Intents.{authorize-ConfirmsBookings, refund-LeavesBookings}

-- The call answers, and leaves the bookings alone.
abbrev pub Passes : {A : Type 0} → Action A → World → Type 0
Passes {A} m w = (a : A) × (w' : World) × (m w ≡ (ok a, w')) × (w'.bookings ≡ w.bookings)

pub call_if-Passes : (b : Bool) (c : PortCall) (w : World) → Passes (call_if b c) w
call_if-Passes true c w = (tt, record w { calls = c ∷ w.calls }, refl, refl)
call_if-Passes false c w = (tt, w, refl, refl)

pub announce-Passes :
    (ports : Ports) (b : Booking) (st : BookingStatus) (w : World) → Passes (announce ports b st) w
announce-Passes ports b pending_payment w = (tt, w, refl, refl)
announce-Passes ports b completed w = (tt, w, refl, refl)
announce-Passes ports b cancelled w = (tt, w, refl, refl)
announce-Passes ports b confirmed w =
    let (a, w1, e1, s1) =
      call_if-Passes ports.has_reminders (schedule_reminders b.id b.start_at) w in
    let (a', w2, e2, s2) = call_if-Passes ports.has_notifier (notify_confirmed b.id) w1 in
    (tt, w2, ground (arith, e1, e2), ground (arith, s1, s2))

pub refund_if-Passes :
    (ports : Ports) (r : Bool) (id : ℕ) (w : World)
    → IsWired ports
    → Passes (refund_if r ports.payments id) w
refund_if-Passes ports false id w wired = (false, w, ground (arith, wired), refl)
refund_if-Passes ports true id w wired =
    (true, (refund fake_provider id w).1, ground (arith, wired), refund-LeavesBookings id w)

-- Cancelling the row, the refund, and the calls.
pub do_cancel-bookings :
    (ports : Ports) (id : ℕ) (reason : String) (by : Canceller) (actor : ℕ) (r : Bool) (w : World)
    → IsWired ports
    → (do_cancel ports id reason by actor r w).1.bookings
      ≡ modify booking_id_of id (cancel_row w.now (ports.trim_space reason) by) w.bookings
unfolding do_cancel cancel_booking update_booking get_booking
do_cancel-bookings ports id reason by actor r w wired =
    let bs = modify booking_id_of id (cancel_row w.now (ports.trim_space reason) by) w.bookings in
    let w0 = record w { bookings = bs } in
    elim (Option-cases (find booking_id_of id bs)) [
      | inl e ↦ ground (arith, e)
      | inr (b, e) ↦
          let (refunded, w1, e1, s1) = refund_if-Passes ports r id w0 wired in
          let (a, w2, e2, s2) = call_if-Passes ports.has_reminders (cancel_reminders id) w1 in
          let (a', w3, e3, s3) =
            call_if-Passes ports.has_notifier (notify_cancelled b.id actor refunded) w2 in
          ground (arith, e, e1, s1, e2, s2, e3, s3)
    ]

check_unpaid-cases :
    (st : BookingStatus) (w : World)
    → (check_unpaid st w ≡ (ok tt, w)) ⊎ ((e : Error) × (check_unpaid st w ≡ (err e, w)))
check_unpaid-cases pending_payment w = inl refl
check_unpaid-cases confirmed w = inr (already_paid, refl)
check_unpaid-cases completed w = inr (already_paid, refl)
check_unpaid-cases cancelled w = inr (invalid_transition, refl)

module _ (ports : Ports) (wired : IsWired ports) where
  pay-state :
      (caller id : ℕ) (token : MethodToken) (w : World)
      → let bs = (pay ports caller id token w).1.bookings in
        (bs ≡ w.bookings) ⊎ (bs ≡ (authorize fake_provider id token w).1.bookings)
  unfolding pay get_booking
  pay-state caller id token w = elim (Option-cases (find booking_id_of id w.bookings)) [
    | inl e ↦ inl (ground (arith, wired, e))
    | inr (b, e) ↦ elim (Bool-cases (b.student_id == caller)) [
      | inr f ↦ inl (ground (arith, wired, e, f))
      | inl f ↦ elim (check_unpaid-cases b.status w) [
        | inr (x, g) ↦ inl (ground (arith, wired, e, f, g))
        | inl g ↦ elim (Fallible-cases (authorize fake_provider id token w).0) [
          | inr (x, h) ↦ inr (ground (arith, wired, e, f, g, h))
          | inl (p, h) ↦
              elim (Option-cases
                (find booking_id_of id (authorize fake_provider id token w).1.bookings)) [
                  | inl k ↦ inr (ground (arith, wired, e, f, g, h, k))
                  | inr (b', k) ↦
                      let (a, w', m, n) =
                        announce-Passes ports b' b'.status (authorize fake_provider id token w).1 in
                      inr (ground (arith, wired, e, f, g, h, k, m, n))
                ]
        ]
      ]
    ]
  ]

  pub pay-Changes :
      (caller id : ℕ) (token : MethodToken) (w : World)
      → Changes w.bookings (pay ports caller id token w).1.bookings
  pay-Changes caller id token w = elim (pay-state caller id token w) [
    | inl e ↦ rw e same
    | inr e ↦ elim (authorize-ConfirmsBookings id token w) [
      | inl d ↦ rw (e, d) same
      | inr (i, t, d) ↦ more still (confirming i (ground (arith, e, d)))
    ]
  ]
