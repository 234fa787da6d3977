-- ===== src/Bookings/Absences.antt =====
-- What NoShow and SetMeetingLink do to the bookings.
use Prim.Native.String.{String}
use find_language_tutor.Prelude.{
  ℕ, not, ◌&&◌, ◌≡◌, inl, inr, refl, true, false, none, some, List, arith, Bool-cases, Option-cases,
  ltb,
}
use text.Mathlib.Text.{◌==◌ as str_eq}
use find_language_tutor.Store.{
  World, Booking, confirmed, completed, by_teacher, Party, student, teacher, none_missed,
  other_party, cancel_reminders, find, modify, find-modify,
}
use find_language_tutor.Effect.{ok, Fallible-cases}
use find_language_tutor.Payments.Events.{booking_id_of}
use find_language_tutor.Payments.FakeProvider.{fake_provider}
use find_language_tutor.Payments.Service.{capture}
use find_language_tutor.Bookings.Repository.{
  get_booking, set_status, update_booking, cancel_row, set_meeting_link_override, set_no_show_party,
}
use find_language_tutor.Bookings.Ports.{Ports, is_teacher_owner}
use find_language_tutor.Bookings.Lifecycle.{
  is_confirmed, do_cancel, is_party, set_meeting_link, student_no_show, teacher_no_show, no_show_by,
  no_show,
}
use find_language_tutor.Bookings.Journey.{IsWired}
use find_language_tutor.Bookings.Machine.{
  completing, cancelling, touching, Quiet, still, touched, Changes, same, more,
}
use find_language_tutor.Bookings.Intents.{capture-LeavesBookings}
use find_language_tutor.Bookings.Moves.{call_if-Passes, do_cancel-bookings}
use find_language_tutor.Bookings.Endings.{is_confirmed_lem, set_status-bookings, left_alone}

abbrev missed_by : Party → Booking → Booking
missed_by party b = record b { no_show_party = party }

set_no_show_party-lem :
    (id : ℕ) (party : Party) (w : World)
    → set_no_show_party id party w
      ≡ (ok tt, record w { bookings = modify booking_id_of id (missed_by party) w.bookings })
unfolding set_no_show_party update_booking
set_no_show_party-lem id party w = refl

touch-Quiet :
    (id : ℕ) (party : Party) (bs : List Booking)
    → Quiet bs (modify booking_id_of id (missed_by party) bs)
touch-Quiet id party bs = touched id (missed_by party) still (λ x. refl) (λ x. refl) refl

touched_found :
    (id : ℕ) (party : Party) (bs : List Booking) (b : Booking)
    → find booking_id_of id bs ≡ some b
    → find booking_id_of id (modify booking_id_of id (missed_by party) bs)
      ≡ some (missed_by party b)
touched_found id party bs b e =
    ground (arith, e, find-modify booking_id_of id id (missed_by party) bs (λ x. refl))

module _ (ports : Ports) (wired : IsWired ports) where
  student_no_show-Changes :
      (id : ℕ) (w : World) (b : Booking)
      → find booking_id_of id w.bookings ≡ some b
      → b.status ≡ confirmed
      → Changes w.bookings (student_no_show ports id w).1.bookings
  unfolding student_no_show
  student_no_show-Changes id w b e st = elim (Fallible-cases (capture fake_provider id w).0) [
    | inr (x, k) ↦ left_alone (ground (arith, wired, k, capture-LeavesBookings id w))
    | inl (p, k) ↦
        let w1 = (capture fake_provider id w).1 in
        let w2 = record w1 { bookings = modify booking_id_of id (missed_by student) w1.bookings } in
        let bs = modify booking_id_of id (missed_by student) w.bookings in
        more (touch-Quiet id student w.bookings) (
          completing id (missed_by student b) (touched_found id student w.bookings b e) st
            (elim (Fallible-cases (set_status id completed w2).0) [
              | inr (x, m) ↦ ground (
                arith,
                wired,
                k,
                m,
                set_no_show_party-lem id student w1,
                capture-LeavesBookings id w,
                set_status-bookings id completed w2,
              )
              | inl (b', m) ↦
                  let (a, w3, c, d) =
                    call_if-Passes ports.has_reminders (cancel_reminders id)
                      (set_status id completed w2).1 in
                  ground (
                    arith,
                    wired,
                    k,
                    m,
                    c,
                    d,
                    set_no_show_party-lem id student w1,
                    capture-LeavesBookings id w,
                    set_status-bookings id completed w2,
                  )
            ]))
  ]

  teacher_no_show-Changes :
      (caller id : ℕ) (w : World) (b : Booking)
      → find booking_id_of id w.bookings ≡ some b
      → b.status ≡ confirmed
      → Changes w.bookings (teacher_no_show ports caller id w).1.bookings
  unfolding teacher_no_show
  teacher_no_show-Changes caller id w b e st =
      let w1 = record w { bookings = modify booking_id_of id (missed_by teacher) w.bookings } in
      more (touch-Quiet id teacher w.bookings) (
        cancelling id (missed_by teacher b)
          (cancel_row w.now (ports.trim_space "teacher no-show") by_teacher)
          (touched_found id teacher w.bookings b e) (inr st) (λ x. refl) (λ x. refl)
          (elim (Fallible-cases
            (do_cancel ports id "teacher no-show" by_teacher caller true w1).0) [
              | inl (b', m) ↦ ground (
                arith,
                m,
                set_no_show_party-lem id teacher w,
                do_cancel-bookings ports id "teacher no-show" by_teacher caller true w1 wired,
              )
              | inr (x, m) ↦ ground (
                arith,
                m,
                set_no_show_party-lem id teacher w,
                do_cancel-bookings ports id "teacher no-show" by_teacher caller true w1 wired,
              )
            ]))

  no_show_by-Changes :
      (party : Party) (caller id : ℕ) (w : World) (b : Booking)
      → find booking_id_of id w.bookings ≡ some b
      → b.status ≡ confirmed
      → Changes w.bookings (no_show_by party ports caller id w).1.bookings
  unfolding no_show_by
  no_show_by-Changes student caller id w b e st = student_no_show-Changes id w b e st
  no_show_by-Changes teacher caller id w b e st = teacher_no_show-Changes caller id w b e st
  no_show_by-Changes none_missed caller id w b e st = teacher_no_show-Changes caller id w b e st
  no_show_by-Changes other_party caller id w b e st = teacher_no_show-Changes caller id w b e st

  no_show-through :
      (caller id : ℕ) (party : Party) (w : World) (b : Booking)
      → find booking_id_of id w.bookings ≡ some b
      → (is_party party
          && is_teacher_owner b caller
          && is_confirmed b.status
          && ltb b.start_at w.now)
        ≡ true
      → no_show ports caller id party w ≡ no_show_by party ports caller id w
  unfolding no_show get_booking
  no_show-through caller id party w b e f = ground (arith, e, f)

  no_show-refused :
      (caller id : ℕ) (party : Party) (w : World) (b : Booking)
      → find booking_id_of id w.bookings ≡ some b
      → (is_party party
          && is_teacher_owner b caller
          && is_confirmed b.status
          && ltb b.start_at w.now)
        ≡ false
      → (no_show ports caller id party w).1 ≡ w
  unfolding no_show get_booking
  no_show-refused caller id party w b e f = ground (arith, e, f)

  no_show-unknown :
      (caller id : ℕ) (party : Party) (w : World)
      → find booking_id_of id w.bookings ≡ none
      → (no_show ports caller id party w).1 ≡ w
  unfolding no_show get_booking
  no_show-unknown caller id party w e = ground (arith, e)

  pub no_show-Changes :
      (caller id : ℕ) (party : Party) (w : World)
      → Changes w.bookings (no_show ports caller id party w).1.bookings
  no_show-Changes caller id party w = elim (Option-cases (find booking_id_of id w.bookings)) [
    | inl e ↦ rw (no_show-unknown caller id party w e) same
    | inr (b, e) ↦
        elim (Bool-cases (
          is_party party
          && is_teacher_owner b caller
          && is_confirmed b.status
          && ltb b.start_at w.now)) [
            | inr f ↦ rw (no_show-refused caller id party w b e f) same
            | inl f ↦ rw (no_show-through caller id party w b e f) (
                no_show_by-Changes party caller id w b e
                  (is_confirmed_lem b.status (ground (arith, f))))
          ]
  ]

  set_meeting_link_override-Changes :
      (id : ℕ) (url : String) (w : World)
      → Changes w.bookings (set_meeting_link_override id url w).1.bookings
  unfolding set_meeting_link_override update_booking get_booking
  set_meeting_link_override-Changes id url w =
      let f : Booking → Booking = λ b. record b { meeting_url_override = url } in
      more still (
        touching id f (λ x. refl) (λ x. refl)
          (elim (Option-cases (find booking_id_of id (modify booking_id_of id f w.bookings))) [
            | inl e ↦ ground (arith, e)
            | inr (b, e) ↦ ground (arith, e)
          ]))

  pub set_meeting_link-Changes :
      (caller id : ℕ) (link : String) (w : World)
      → Changes w.bookings (set_meeting_link ports caller id link w).1.bookings
  unfolding set_meeting_link get_booking
  set_meeting_link-Changes caller id link w =
      elim (Option-cases (find booking_id_of id w.bookings)) [
        | inl e ↦ left_alone (ground (arith, e))
        | inr (b, e) ↦ elim (Bool-cases (is_teacher_owner b caller)) [
          | inr f ↦ left_alone (ground (arith, e, f))
          | inl f ↦
              elim (Bool-cases (
                not (str_eq (ports.trim_space link) "")
                && not (ports.valid_meeting_url (ports.trim_space link)))) [
                  | inl g ↦ left_alone (ground (arith, e, f, g))
                  | inr g ↦
                      let state : set_meeting_link ports caller id link w
                          ≡ set_meeting_link_override id (ports.trim_space link) w =
                        ground (arith, e, f, g) in
                      rw state (set_meeting_link_override-Changes id (ports.trim_space link) w)
                ]
        ]
      ]
