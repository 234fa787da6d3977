-- ===== src/Bookings/Endings.antt =====
-- What the calls that end a lesson do to the bookings.
use Prim.Native.String.{String}
use find_language_tutor.Prelude.{
  ℕ, ◌&&◌, ◌≡◌, ◌⊎◌, inl, inr, refl, Bool, true, false, none, some, List, arith, Bool-cases,
  Option-cases, ltb,
}
use find_language_tutor.Store.{
  World, Booking, BookingStatus, pending_payment, confirmed, completed, cancelled, by_admin,
  Payment, find, modify,
}
use find_language_tutor.Effect.{pure, ◌>>=◌, Action, Fallible-cases}
use find_language_tutor.Payments.Events.{booking_id_of}
use find_language_tutor.Payments.FakeProvider.{fake_provider}
use find_language_tutor.Payments.Service.{gateway, capture, refund}
use find_language_tutor.Bookings.Repository.{get_booking, set_status, update_booking, cancel_row}
use find_language_tutor.Bookings.Ports.{Ports, participant, is_teacher_owner}
use find_language_tutor.Bookings.Lifecycle.{
  is_confirmed, complete, do_cancel, is_cancellable, canceller_for, cancel, admin_force_cancel,
  admin_refund,
}
use find_language_tutor.Bookings.Journey.{IsWired}
use find_language_tutor.Bookings.Machine.{completing, cancelling, Changes, same, more, still}
use find_language_tutor.Bookings.Intents.{capture-LeavesBookings, refund-LeavesBookings}
use find_language_tutor.Bookings.Moves.{do_cancel-bookings}

-- The tests of the code on a status, as what they let through.
pub is_confirmed_lem : (st : BookingStatus) → is_confirmed st ≡ true → st ≡ confirmed
is_confirmed_lem pending_payment h = cc
is_confirmed_lem confirmed h = refl
is_confirmed_lem completed h = cc
is_confirmed_lem cancelled h = cc

is_cancellable_lem :
    (st : BookingStatus) → is_cancellable st ≡ true → (st ≡ pending_payment) ⊎ (st ≡ confirmed)
is_cancellable_lem pending_payment h = inl refl
is_cancellable_lem confirmed h = inr refl
is_cancellable_lem completed h = cc
is_cancellable_lem cancelled h = cc

pub set_status-bookings :
    (id : ℕ) (st : BookingStatus) (w : World)
    → (set_status id st w).1.bookings
      ≡ modify booking_id_of id (λ x. record x { status = st }) w.bookings
unfolding set_status update_booking get_booking
set_status-bookings id st w =
    elim (Option-cases (
      find booking_id_of id (modify booking_id_of id (λ x. record x { status = st }) w.bookings))) [
        | inl e ↦ ground (arith, e)
        | inr (b, e) ↦ ground (arith, e)
      ]

-- The end of Complete: the capture, then the status.
abbrev finish : ℕ → Action (Booking × Payment)
finish id = do p ← (gateway fake_provider).capture id; b ← set_status id completed; pure (b, p)

pub left_alone : {bs bs' : List Booking} → bs' ≡ bs → Changes bs bs'
left_alone e = rw e same

module _ (ports : Ports) (wired : IsWired ports) where
  -- Complete, where its tests let the call through: the capture, then the status.
  complete-through :
      (caller id : ℕ) (w : World) (b : Booking)
      → find booking_id_of id w.bookings ≡ some b
      → is_teacher_owner b caller ≡ true
      → is_confirmed b.status ≡ true
      → ltb b.end_at w.now ≡ true
      → complete ports caller id w ≡ finish id w
  unfolding complete get_booking
  complete-through caller id w b e f g h = ground (arith, wired, e, f, g, h)

  captured-bookings :
      (id : ℕ) (w : World)
      → let bs = (finish id w).1.bookings in
        (bs ≡ w.bookings)
        ⊎ (bs ≡ modify booking_id_of id (λ x. record x { status = completed }) w.bookings)
  captured-bookings id w = elim (Fallible-cases (capture fake_provider id w).0) [
    | inr (x, k) ↦ inl (ground (arith, k, capture-LeavesBookings id w))
    | inl (p, k) ↦
        let w1 = (capture fake_provider id w).1 in
        elim (Fallible-cases (set_status id completed w1).0) [
          | inl (b', m) ↦ inr (
              ground
                (arith, k, m, capture-LeavesBookings id w, set_status-bookings id completed w1))
          | inr (x, m) ↦ inr (
              ground
                (arith, k, m, capture-LeavesBookings id w, set_status-bookings id completed w1))
        ]
  ]

  complete-refused :
      (caller id : ℕ) (w : World) (b : Booking)
      → find booking_id_of id w.bookings ≡ some b
      → (is_teacher_owner b caller && is_confirmed b.status && ltb b.end_at w.now) ≡ false
      → (complete ports caller id w).1 ≡ w
  unfolding complete get_booking
  complete-refused caller id w b e f = ground (arith, wired, e, f)

  complete-unknown :
      (caller id : ℕ) (w : World)
      → find booking_id_of id w.bookings ≡ none
      → (complete ports caller id w).1 ≡ w
  unfolding complete get_booking
  complete-unknown caller id w e = ground (arith, wired, e)

  pub complete-Changes :
      (caller id : ℕ) (w : World) → Changes w.bookings (complete ports caller id w).1.bookings
  complete-Changes caller id w = elim (Option-cases (find booking_id_of id w.bookings)) [
    | inl e ↦ rw (complete-unknown caller id w e) same
    | inr (b, e) ↦
        elim (Bool-cases
          (is_teacher_owner b caller && is_confirmed b.status && ltb b.end_at w.now)) [
            | inr f ↦ rw (complete-refused caller id w b e f) same
            | inl f ↦
                rw
                  (complete-through caller id w b e (ground (arith, f)) (ground (arith, f))
                    (ground (arith, f)))
                  (elim (captured-bookings id w) [
                    | inl k ↦ left_alone k
                    | inr k ↦
                        more still
                          (completing id b e (is_confirmed_lem b.status (ground (arith, f))) k)
                  ])
          ]
  ]

  pub cancel-Changes :
      (caller id : ℕ) (reason : String) (w : World)
      → Changes w.bookings (cancel ports caller id reason w).1.bookings
  unfolding cancel get_booking
  cancel-Changes caller id reason w = elim (Option-cases (find booking_id_of id w.bookings)) [
    | inl e ↦ left_alone (ground (arith, e))
    | inr (b, e) ↦ elim (Bool-cases (participant b caller)) [
      | inr f ↦ left_alone (ground (arith, e, f))
      | inl f ↦ elim (Bool-cases (is_cancellable b.status)) [
        | inr g ↦ left_alone (ground (arith, e, f, g))
        | inl g ↦
            let by = canceller_for b caller in
            more still (
              cancelling id b (cancel_row w.now (ports.trim_space reason) by) e
                (is_cancellable_lem b.status g) (λ x. refl) (λ x. refl)
                (ground
                  (arith, e, f, g, do_cancel-bookings ports id reason by caller true w wired)))
      ]
    ]
  ]

  pub admin_force_cancel-Changes :
      (id : ℕ) (reason : String) (r : Bool) (w : World)
      → Changes w.bookings (admin_force_cancel ports id reason r w).1.bookings
  unfolding admin_force_cancel get_booking
  admin_force_cancel-Changes id reason r w =
      elim (Option-cases (find booking_id_of id w.bookings)) [
        | inl e ↦ left_alone (ground (arith, e))
        | inr (b, e) ↦ elim (Bool-cases (is_cancellable b.status)) [
          | inr g ↦ left_alone (ground (arith, e, g))
          | inl g ↦ more still (
              cancelling id b (cancel_row w.now (ports.trim_space reason) by_admin) e
                (is_cancellable_lem b.status g) (λ x. refl) (λ x. refl)
                (elim (Fallible-cases (do_cancel ports id reason by_admin 0 r w).0) [
                  | inl (b', m) ↦
                      ground
                        (arith, e, g, m, do_cancel-bookings ports id reason by_admin 0 r w wired)
                  | inr (x, m) ↦
                      ground
                        (arith, e, g, m, do_cancel-bookings ports id reason by_admin 0 r w wired)
                ]))
        ]
      ]

  pub admin_refund-Changes :
      (id : ℕ) (w : World) → Changes w.bookings (admin_refund ports id w).1.bookings
  unfolding admin_refund get_booking
  admin_refund-Changes id w = elim (Option-cases (find booking_id_of id w.bookings)) [
    | inl e ↦ left_alone (ground (arith, e))
    | inr (b, e) ↦ elim (Fallible-cases (refund fake_provider id w).0) [
      | inl (p, f) ↦ left_alone (ground (arith, wired, e, f, refund-LeavesBookings id w))
      | inr (x, f) ↦ left_alone (ground (arith, wired, e, f, refund-LeavesBookings id w))
    ]
  ]
