-- ===== src/Payments/Events.antt =====
-- HandleWebhook and ApplyEvent: one provider event, applied once, in one transaction.
use find_language_tutor.Prelude.{
  ℕ, suc, not, ◌+◌, ◌*◌, Bool, true, false, ◌&&◌, ◌||◌, Option, none, some, List, [], ◌∷◌, ◌++◌,
  ◌==◌, if◌then◌else◌,
}
use Prim.Native.String.{String}
use find_language_tutor.Clock.{day}
use find_language_tutor.Store.{
  World, Booking, BookingStatus, pending_payment, confirmed, Payment, authorized, captured,
  refunded, failed, LedgerRow, LedgerState, held, paid, reversed, EventType, event_authorized,
  event_captured, event_refunded, event_failed, unknown_type, EventRef, of_ref, of_decline, of_void,
  foreign, blank, EventId, Event, find, modify,
}
use find_language_tutor.Effect.{
  payment_not_found, bad_event, ok, err, Action, pure, ◌>>=◌, ◌>>◌, raise_if,
}

abbrev pub same_ref : EventRef → EventRef → Bool
same_ref (of_ref a) (of_ref b) = a == b
same_ref (of_decline a) (of_decline b) = a == b
same_ref (of_void a) (of_void b) = a == b
same_ref (foreign a) (foreign b) = a == b
same_ref blank blank = true
same_ref _ _ = false

abbrev pub same_type : EventType → EventType → Bool
same_type event_authorized event_authorized = true
same_type event_captured event_captured = true
same_type event_refunded event_refunded = true
same_type event_failed event_failed = true
same_type unknown_type unknown_type = true
same_type _ _ = false

abbrev pub same_event : EventId → EventId → Bool
same_event a b = same_ref a.ref b.ref && same_type a.type b.type

-- The primary key of payment_events.
unfoldable pub seen : EventId → List EventId → Bool
seen e [] = false
seen e (x ∷ xs) = same_event e x || seen e xs

abbrev pub payment_id_of : Payment → ℕ
payment_id_of p = p.id

abbrev pub payment_booking_of : Payment → ℕ
payment_booking_of p = p.booking_id

abbrev pub booking_id_of : Booking → ℕ
booking_id_of b = b.id

abbrev pub ledger_booking_of : LedgerRow → ℕ
ledger_booking_of r = r.booking_id

-- MarkPaymentAuthorized and the others, as functions of the row.
abbrev pub mark_authorized : ℕ → ℕ → Payment → Payment
mark_authorized now ref p = record p {
  status = authorized;
  provider_ref = ref;
  last_error = "";
  authorized_at = some now;
}

abbrev pub mark_captured : ℕ → Payment → Payment
mark_captured now p = record p { status = captured; captured_at = some now }

abbrev pub mark_refunded : ℕ → Payment → Payment
mark_refunded now p = record p { status = refunded; refunded_at = some now }

abbrev pub mark_failed : String → Payment → Payment
mark_failed message p = record p { status = failed; last_error = message }

abbrev pub confirm_status : BookingStatus → BookingStatus
confirm_status pending_payment = confirmed
confirm_status s = s

-- ConfirmBookingForPayment: the guard is the query's `status = 'pending_payment'`.
abbrev pub confirm : Booking → Booking
confirm b = record b { status = confirm_status b.status }

abbrev pub reverse_state : LedgerState → LedgerState
reverse_state paid = paid
reverse_state s = reversed

-- MarkLedgerReversed: the guard is the query's `state NOT IN ('reversed', 'paid')`.
abbrev pub reverse_row : LedgerRow → LedgerRow
reverse_row r = record r { state = reverse_state r.state }

-- The row that InsertLedgerHeld writes for a booking.
abbrev pub held_row : World → Payment → Booking → LedgerRow
held_row w p b = record {
  id = w.next_id;
  teacher_id = b.teacher_id;
  booking_id = b.id;
  amount = p.amount;
  state = held;
  available_at = w.now + w.clearing_days * day;
  paid_at = none;
  payout_batch_id = 0;
}

-- InsertLedgerHeld: nothing for an unknown booking, and nothing where the booking has a row.
unfoldable pub insert_ledger_held : Payment → World → World
insert_ledger_held p w = elim (find ledger_booking_of p.booking_id w.ledger) [
  | some r ↦ w
  | none ↦ elim (find booking_id_of p.booking_id w.bookings) [
    | none ↦ w
    | some b ↦ record w { ledger = w.ledger ++ held_row w p b ∷ []; next_id = suc w.next_id }
  ]
]

unfoldable pub set_payment : Payment → (Payment → Payment) → World → World
set_payment p f w = record w { payments = modify payment_id_of p.id f w.payments }

-- The `switch e.Type` of ApplyEvent; `none` is its default, which rolls back.
unfoldable pub apply_type : EventType → Event → Payment → World → Option World
unfolding set_payment insert_ledger_held
apply_type event_authorized e p w =
    let w' = set_payment p (mark_authorized w.now e.provider_ref) w in
    some (record w' { bookings = modify booking_id_of p.booking_id confirm w'.bookings })
apply_type event_captured e p w =
    some (insert_ledger_held p (set_payment p (mark_captured w.now) w))
apply_type event_refunded e p w =
    let w' = set_payment p (mark_refunded w.now) w in
    some (record w' { ledger = modify ledger_booking_of p.booking_id reverse_row w'.ledger })
apply_type event_failed e p w = some (set_payment p (mark_failed e.message) w)
apply_type unknown_type e p w = none

-- ApplyEvent: `true` where the event was applied, `false` for a replay. An error changes nothing.
unfoldable pub apply_event : Event → Action Bool
unfolding seen apply_type
apply_event e w =
    if seen e.id w.events
    then (ok false, w)
    else (elim (find payment_id_of e.payment_id w.payments) [
      | none ↦ (err payment_not_found, w)
      | some p ↦ elim (apply_type e.type e p (record w { events = e.id ∷ w.events })) [
        | none ↦ (err bad_event, w)
        | some w' ↦ (ok true, w')
      ]
    ])

abbrev pub is_blank : EventRef → Bool
is_blank blank = true
is_blank _ = false

abbrev pub is_valid_type : EventType → Bool
is_valid_type unknown_type = false
is_valid_type _ = true

unfoldable pub handle_webhook : Event → Action Bool
unfolding apply_event
handle_webhook e = do
  raise_if (is_blank e.id.ref) bad_event
  raise_if (not (is_valid_type e.type)) bad_event
  raise_if (e.payment_id == 0) bad_event
  apply_event e

-- Service.Emit.
unfoldable pub emit : Event → Action (Unit {0})
unfolding handle_webhook
emit e = handle_webhook e >>= λ _. pure tt
