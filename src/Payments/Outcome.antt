-- ===== src/Payments/Outcome.antt =====
-- What a hold, a capture, a refund and a decline are to leave in the tables, column by column, and
-- that MoneyPath's worlds are these.
use Prim.Native.String.{String}
use find_language_tutor.Prelude.{
  ℕ, suc, ◌+◌, ◌*◌, ◌≡◌, refl, ap, Bool, true, false, none, some, List, [], ◌∷◌, ◌++◌,
}
use find_language_tutor.Clock.{day}
use find_language_tutor.Store.{
  World, Booking, BookingStatus, pending_payment, confirmed, completed, cancelled, Payment,
  authorized, captured, refunded, failed, LedgerRow, LedgerState, held, available, paid, reversed,
  MethodToken, event_authorized, event_captured, event_refunded, PortCall, modify, modify-ext,
}
use find_language_tutor.Payments.Events.{
  payment_id_of, booking_id_of, ledger_booking_of, confirm, confirm_status, reverse_row,
  reverse_state,
}
use find_language_tutor.Payments.MoneyPath.{event_of, hold_placed, hold_refunded}

abbrev pub authorized_row : ℕ → ℕ → Payment → Payment
authorized_row now ref p = record {
  id = p.id;
  booking_id = p.booking_id;
  provider_ref = ref;
  status = authorized;
  amount = p.amount;
  last_error = "";
  authorized_at = some now;
  captured_at = p.captured_at;
  refunded_at = p.refunded_at;
}

abbrev pub captured_row : ℕ → Payment → Payment
captured_row now p = record {
  id = p.id;
  booking_id = p.booking_id;
  provider_ref = p.provider_ref;
  status = captured;
  amount = p.amount;
  last_error = p.last_error;
  authorized_at = p.authorized_at;
  captured_at = some now;
  refunded_at = p.refunded_at;
}

abbrev pub refunded_row : ℕ → Payment → Payment
refunded_row now p = record {
  id = p.id;
  booking_id = p.booking_id;
  provider_ref = p.provider_ref;
  status = refunded;
  amount = p.amount;
  last_error = p.last_error;
  authorized_at = p.authorized_at;
  captured_at = p.captured_at;
  refunded_at = some now;
}

abbrev pub declined_row : String → Payment → Payment
declined_row message p = record {
  id = p.id;
  booking_id = p.booking_id;
  provider_ref = p.provider_ref;
  status = failed;
  amount = p.amount;
  last_error = message;
  authorized_at = p.authorized_at;
  captured_at = p.captured_at;
  refunded_at = p.refunded_at;
}

-- A pending booking is confirmed, another is left.
abbrev pub status_when_paid : BookingStatus → BookingStatus
status_when_paid pending_payment = confirmed
status_when_paid confirmed = confirmed
status_when_paid completed = completed
status_when_paid cancelled = cancelled

-- What was not paid out is taken back.
abbrev pub state_when_refunded : LedgerState → LedgerState
state_when_refunded held = reversed
state_when_refunded available = reversed
state_when_refunded reversed = reversed
state_when_refunded paid = paid

-- What the teacher earns by a lesson: the paid amount, after the clearing window.
abbrev pub earned_row : World → Payment → Booking → LedgerRow
earned_row w p b = record {
  id = w.next_id;
  teacher_id = b.teacher_id;
  booking_id = b.id;
  amount = p.amount;
  state = held;
  available_at = w.now + w.clearing_days * day;
  paid_at = none;
  payout_batch_id = 0;
}

abbrev pub paid_world : Payment → MethodToken → World → World
paid_world p token w = record w {
  seq = suc w.seq;
  holds = record { ref = suc w.seq; token = token; payment_id = p.id } ∷ w.holds;
  events = event_of (suc w.seq) event_authorized ∷ w.events;
  payments = modify payment_id_of p.id (authorized_row w.now (suc w.seq)) w.payments;
  bookings =
      modify booking_id_of p.booking_id (λ b. record b { status = status_when_paid b.status })
        w.bookings;
}

abbrev pub captured_world : Payment → Booking → World → World
captured_world p b w = record w {
  tried = p.provider_ref ∷ w.tried;
  events = event_of p.provider_ref event_captured ∷ w.events;
  payments = modify payment_id_of p.id (captured_row w.now) w.payments;
  ledger = w.ledger ++ earned_row w p b ∷ [];
  next_id = suc w.next_id;
}

abbrev pub refunded_world : Payment → World → World
refunded_world p w = record w {
  events = event_of p.provider_ref event_refunded ∷ w.events;
  payments = modify payment_id_of p.id (refunded_row w.now) w.payments;
  ledger =
      modify ledger_booking_of p.booking_id (λ r. record r { state = state_when_refunded r.state })
        w.ledger;
}

-- The calls of a port that is there.
abbrev pub told : Bool → PortCall → List PortCall → List PortCall
told true c cs = c ∷ cs
told false c cs = cs

confirm_status-paid : (s : BookingStatus) → confirm_status s ≡ status_when_paid s
confirm_status-paid pending_payment = refl
confirm_status-paid confirmed = refl
confirm_status-paid completed = refl
confirm_status-paid cancelled = refl

reverse_state-refunded : (s : LedgerState) → reverse_state s ≡ state_when_refunded s
reverse_state-refunded held = refl
reverse_state-refunded available = refl
reverse_state-refunded reversed = refl
reverse_state-refunded paid = refl

pub hold_placed_lem :
    (p : Payment) (token : MethodToken) (w : World) → hold_placed p token w ≡ paid_world p token w
hold_placed_lem p token w =
    ap (λ (bs : List Booking). record (paid_world p token w) { bookings = bs })
      (modify-ext booking_id_of p.booking_id confirm
        (λ b. record b { status = status_when_paid b.status }) w.bookings
        (λ b. ap (λ (s : BookingStatus). record b { status = s }) (confirm_status-paid b.status)))

pub hold_refunded_lem : (p : Payment) (w : World) → hold_refunded p w ≡ refunded_world p w
hold_refunded_lem p w =
    ap (λ (rs : List LedgerRow). record (refunded_world p w) { ledger = rs })
      (modify-ext ledger_booking_of p.booking_id reverse_row
        (λ r. record r { state = state_when_refunded r.state }) w.ledger
        (λ r. ap (λ (s : LedgerState). record r { state = s }) (reverse_state-refunded r.state)))
