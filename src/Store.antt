-- ===== src/Store.antt =====
-- The PostgreSQL tables as the Go code sees them: the rows of backend/internal/bookings,
-- payments and payouts, with the state of the in-process payment provider, and the calls made to
-- the reminder scheduler and the notifier, newest first. A uuid is a number, uuid.Nil is 0, and a generated uuid is the next unused one.
mod Table
unfoldable pub use Table.*
use Prim.Native.String.{String}
use find_language_tutor.Prelude.{ℕ, Bool, true, false, List, Option}
use find_language_tutor.Slots.{Money, Span}

pub data BookingStatus : Type 0 where
  pending_payment confirmed completed cancelled : BookingStatus

-- `CancelledBy`; `nobody` is the empty string.
pub data Canceller : Type 0 where
  nobody by_student by_teacher by_admin : Canceller

-- `NoShowParty`; `none_missed` is the empty string, and `other_party` any text that is no party.
pub data Party : Type 0 where
  none_missed student teacher other_party : Party

-- A booking with the columns of its teacher that the rules read. `teacher_owner_id` is 0 for an
-- unclaimed profile.
pub record Booking : Type 0 where
  pub id : ℕ
  pub teacher_id : ℕ
  pub student_id : ℕ
  pub teacher_owner_id : ℕ
  pub status : BookingStatus
  pub start_at : ℕ
  pub end_at : ℕ
  pub duration_minutes : ℕ
  pub is_trial : Bool
  pub price : Money
  pub created_at : ℕ
  pub cancelled_at : Option ℕ
  pub cancellation_reason : String
  pub cancelled_by : Canceller
  pub meeting_url_override : String
  pub teacher_meeting_url : String
  pub no_show_party : Party

-- A row of the teachers table, as far as booking reads it. `approved` is the query's condition.
pub record TeacherContext : Type 0 where
  pub id : ℕ
  pub slug : String
  pub currency : String
  pub price_per_hour_minor : ℕ
  pub trial_price_minor : Option ℕ
  pub owner_id : ℕ
  pub meeting_url : String
  pub approved : Bool
  pub spans : List Span

pub data PaymentStatus : Type 0 where
  requires_payment authorized captured refunded failed : PaymentStatus

-- `provider_ref` is 0 for the empty reference; the fake provider counts from 1.
pub record Payment : Type 0 where
  pub id : ℕ
  pub booking_id : ℕ
  pub provider_ref : ℕ
  pub status : PaymentStatus
  pub amount : Money
  pub last_error : String
  pub authorized_at : Option ℕ
  pub captured_at : Option ℕ
  pub refunded_at : Option ℕ

pub data LedgerState : Type 0 where
  held available paid reversed : LedgerState

pub record LedgerRow : Type 0 where
  pub id : ℕ
  pub teacher_id : ℕ
  pub booking_id : ℕ
  pub amount : Money
  pub state : LedgerState
  pub available_at : ℕ
  pub paid_at : Option ℕ
  pub payout_batch_id : ℕ

pub data EventType : Type 0 where
  event_authorized event_captured event_refunded event_failed unknown_type : EventType

-- What stands between `evt_` and the type in an event's id. The printed forms differ for
-- different references; `foreign` are the ids that another provider makes up, `blank` is "".
pub data EventRef : Type 0 where
  of_ref of_decline of_void foreign : ℕ → EventRef
  blank : EventRef

pub record EventId : Type 0 where
  pub ref : EventRef
  pub type : EventType

pub record Event : Type 0 where
  pub id : EventId
  pub type : EventType
  pub payment_id : ℕ
  pub provider_ref : ℕ
  pub message : String

pub data MethodToken : Type 0 where
  pm_ok pm_decline pm_capture_fail other_token : MethodToken

-- An entry of the fake provider's maps tokenByRef and paymentByRef. `tried` in `World` holds the
-- keys of captureTried.
pub record Hold : Type 0 where
  pub ref : ℕ
  pub token : MethodToken
  pub payment_id : ℕ

-- A call of the reminder scheduler or the notifier, which the service makes and does not wait on.
pub data PortCall : Type 0 where
  schedule_reminders : ℕ → ℕ → PortCall
  cancel_reminders : ℕ → PortCall
  notify_confirmed : ℕ → PortCall
  notify_cancelled : ℕ → ℕ → Bool → PortCall

pub record Batch : Type 0 where
  pub id : ℕ
  pub created_by : ℕ
  pub total_minor : ℕ
  pub currency : String
  pub teacher_count : ℕ
  pub line_count : ℕ
  pub completed_at : ℕ

pub record World : Type 0 where
  pub now : ℕ
  pub clearing_days : ℕ
  pub next_id : ℕ
  pub teachers : List TeacherContext
  pub bookings : List Booking
  pub payments : List Payment
  pub events : List EventId
  pub ledger : List LedgerRow
  pub batches : List Batch
  pub seq : ℕ
  pub holds : List Hold
  pub tried : List ℕ
  pub calls : List PortCall
