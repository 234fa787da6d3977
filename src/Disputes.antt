-- ===== src/Disputes.antt =====
-- backend/internal/disputes: raising, listing and resolving disputes (service.go, disputes.go and
-- repository_postgres.go).
pub mod Laws
mod Tests
use Prim.Native.String.{String}
use find_language_tutor.Prelude.{
  ℕ, suc, ◌+◌, Bool, true, false, not, ◌&&◌, ◌||◌, Option, none, some, List, [], ◌∷◌, ◌++◌, ltb,
  ◌==◌, if◌then◌else◌,
}
use text.Mathlib.Text.{◌==◌ as str_eq}
use find_language_tutor.Prelude.Sort.{sort_by}
use find_language_tutor.Store.{
  World, Booking, BookingStatus, pending_payment, confirmed, completed, cancelled, find, modify,
}
use find_language_tutor.Effect.{Result, ok, err, Action, ignore_error}

pub data Status : Type 0 where
  opened resolved rejected : Status

-- `resolved_by` and `resolved_at` are nil while the dispute is open.
pub record Dispute : Type 0 where
  pub id : ℕ
  pub booking_id : ℕ
  pub status : Status
  pub reason : String
  pub resolution : String
  pub raised_by : ℕ
  pub resolved_by : Option ℕ
  pub created_at : ℕ
  pub resolved_at : Option ℕ

pub data DisputeError : Type 0 where
  reason_required reason_too_long bad_outcome resolution_required resolution_too_long : DisputeError
  booking_not_found forbidden not_allowed dispute_exists dispute_not_found already_resolved :
      DisputeError

-- The disputes table beside the other tables.
pub record Desk : Type 0 where
  pub disputes : List Dispute
  pub world : World

-- The Refunder port, and Go's strings.TrimSpace and the number of runes of a text, which are
-- parameters.
pub record Service : Type 0 where
  pub refunder : Option (ℕ → Action (Unit {0}))
  pub trim_space : String → String
  pub rune_count : String → ℕ

pub data Answer (A : Type 0) : Type 0 where
  yes : A → Answer A
  no : DisputeError → Answer A

abbrev pub max_text_len : ℕ
max_text_len = 2000

abbrev pub dispute_id : Dispute → ℕ
dispute_id d = d.id

abbrev pub id_of_booking : Booking → ℕ
id_of_booking b = b.id

abbrev pub is_open : Status → Bool
is_open opened = true
is_open _ = false

abbrev pub is_open_for : ℕ → Dispute → Bool
is_open_for booking_id d = d.booking_id == booking_id && is_open d.status

-- participant: the student, or the account that owns the teacher's profile.
unfoldable pub is_participant : Booking → ℕ → Bool
is_participant b caller =
    b.student_id == caller || not (b.teacher_owner_id == 0) && b.teacher_owner_id == caller

abbrev pub is_disputable : BookingStatus → Bool
is_disputable confirmed = true
is_disputable completed = true
is_disputable _ = false

-- OpenForBooking: the first open dispute of the booking.
unfoldable pub open_for_booking : ℕ → List Dispute → Option Dispute
open_for_booking k [] = none
open_for_booking k (d ∷ ds) = if is_open_for k d then some d else open_for_booking k ds

abbrev pub new_dispute : ℕ → ℕ → String → World → Dispute
new_dispute booking_id caller reason w = record {
  id = w.next_id;
  booking_id = booking_id;
  status = opened;
  reason = reason;
  resolution = "";
  raised_by = caller;
  resolved_by = none;
  created_at = w.now;
  resolved_at = none;
}

-- Create: the insert, which the partial unique index refuses where one is open.
unfoldable pub create_dispute : ℕ → ℕ → String → Desk → Answer Dispute × Desk
unfolding open_for_booking
create_dispute booking_id caller reason s = elim (open_for_booking booking_id s.disputes) [
  | some d ↦ (no dispute_exists, s)
  | none ↦
      let d = new_dispute booking_id caller reason s.world in
      (
        yes d,
        record {
          disputes = s.disputes ++ d ∷ [];
          world = record s.world { next_id = suc s.world.next_id };
        },
      )
]

unfoldable pub raise_dispute : Service → ℕ → ℕ → String → Desk → Answer Dispute × Desk
unfolding is_participant create_dispute find
raise_dispute svc caller booking_id text s =
    let reason = svc.trim_space text in
    if str_eq reason ""
    then (no reason_required, s)
    else (if ltb max_text_len (svc.rune_count reason)
        then (no reason_too_long, s)
        else (elim (find id_of_booking booking_id s.world.bookings) [
          | none ↦ (no booking_not_found, s)
          | some b ↦
              if not (is_participant b caller)
              then (no forbidden, s)
              else (if not (is_disputable b.status)
                  then (no not_allowed, s)
                  else create_dispute booking_id caller reason s)
        ]))

-- ResolveDispute: the update guarded by `status = 'open'`.
abbrev pub close_open : Status → String → ℕ → ℕ → Dispute → Dispute
close_open st resolution admin now d =
    if is_open d.status
    then record d {
      status = st;
      resolution = resolution;
      resolved_by = some admin;
      resolved_at = some now;
    }
    else d

-- Resolve of the repository: no row back is an unknown dispute, or one that is closed.
unfoldable pub resolve_row : ℕ → Status → String → ℕ → Desk → Answer Dispute × Desk
unfolding find modify
resolve_row id st resolution admin s = elim (find dispute_id id s.disputes) [
  | none ↦ (no dispute_not_found, s)
  | some d ↦
      if is_open d.status
      then (
        yes (close_open st resolution admin s.world.now d),
        record s {
          disputes = modify dispute_id id (close_open st resolution admin s.world.now) s.disputes;
        },
      )
      else (no already_resolved, s)
]

-- refund: a nil port or an error of it is logged.
abbrev pub refund_booking : Service → ℕ → Desk → Desk
refund_booking svc booking_id s = elim svc.refunder [
  | none ↦ s
  | some call ↦ record s { world = (ignore_error (call booking_id) s.world).1 }
]

-- The outcome that the text names, where it is `resolved` or `rejected`.
unfoldable pub outcome_of : String → Option Status
outcome_of t =
    if str_eq t "resolved"
    then some resolved
    else (if str_eq t "rejected" then some rejected else none)

abbrev pub is_resolved : Status → Bool
is_resolved resolved = true
is_resolved _ = false

unfoldable pub resolve : Service → ℕ → ℕ → String → String → Bool → Desk → Answer Dispute × Desk
unfolding outcome_of resolve_row
resolve svc admin id outcome text refund s = elim (outcome_of (svc.trim_space outcome)) [
  | none ↦ (no bad_outcome, s)
  | some st ↦
      let resolution = svc.trim_space text in
      if str_eq resolution ""
      then (no resolution_required, s)
      else (if ltb max_text_len (svc.rune_count resolution)
          then (no resolution_too_long, s)
          else (let (r, s') = resolve_row id st resolution admin s in
              elim r [
                | no e ↦ (no e, s')
                | yes d ↦ (
                  yes d,
                  if is_resolved st && refund then refund_booking svc d.booking_id s' else s',
                )
              ]))
]
