-- ===== src/Bookings/Ports.antt =====
-- What the bookings service is given: the optional ports, and two functions of Go's standard
-- library on text, which are parameters.
use Prim.Native.String.{String}
use find_language_tutor.Prelude.{
  ℕ, Bool, true, false, ◌&&◌, ◌||◌, not, Option, none, some, ◌∷◌, ◌==◌,
}
use find_language_tutor.Store.{Booking, PortCall, Payment}
use find_language_tutor.Effect.{Action, ok, err, pure, change}
use find_language_tutor.Payments.Service.{Gateway}

-- A nil port is `none` or `false`. `trim_space` is strings.TrimSpace, `valid_meeting_url` the test
-- of validMeetingURL, which is a test on the result of url.Parse.
pub record Ports : Type 0 where
  pub payments : Option Gateway
  pub has_reminders : Bool
  pub has_notifier : Bool
  pub trim_space : String → String
  pub valid_meeting_url : String → Bool

abbrev pub call_if : Bool → PortCall → Action (Unit {0})
call_if true c = change (λ w. record w { calls = c ∷ w.calls })
call_if false c = pure tt

-- participant: the student, or the owner of the teacher's profile.
unfoldable pub participant : Booking → ℕ → Bool
participant b caller =
    b.student_id == caller || not (b.teacher_owner_id == 0) && b.teacher_owner_id == caller

-- The teacher-owner test of Complete, NoShow and SetMeetingLink.
unfoldable pub is_teacher_owner : Booking → ℕ → Bool
is_teacher_owner b caller = not (b.teacher_owner_id == 0) && b.teacher_owner_id == caller

-- snapshot: an error of the port is no payment.
unfoldable pub snapshot : Ports → ℕ → Action (Option Payment)
snapshot ports booking_id w = elim ports.payments [
  | none ↦ (ok none, w)
  | some g ↦ let (r, w') = g.snapshot booking_id w in (elim r [ ok p ↦ ok p | err e ↦ ok none ], w')
]
