-- ===== src/Payments/MoneyPath.antt =====
-- The money path of a booking through the service and the in-process provider: what a hold, a
-- capture and a refund leave in the tables.
use find_language_tutor.Prelude.{
  ℕ, suc, ◌≡◌, ◌≢◌, refl, ap, ◌⊎◌, false, not, ◌&&◌, none, some, [], ◌∷◌, ◌++◌, arith,
}
use find_language_tutor.Slots.{contains}
use find_language_tutor.Store.{
  World, Booking, Payment, PaymentStatus, requires_payment, authorized, captured, failed,
  MethodToken, pm_ok, pm_decline, pm_capture_fail, other_token, EventType, Hold, event_authorized,
  event_captured, event_refunded, of_ref, EventId, find, modify, find-modify_by,
}
use find_language_tutor.Effect.{ok, Action}
use find_language_tutor.Payments.Events.{
  seen, payment_id_of, payment_booking_of, booking_id_of, ledger_booking_of, mark_authorized,
  mark_captured, mark_refunded, confirm, reverse_row, held_row, insert_ledger_held, set_payment,
  apply_type, apply_event, handle_webhook, emit,
}
use find_language_tutor.Payments.FakeProvider.{
  ref_of, place_hold, fake_authorize, fake_capture, fake_refund, fake_provider, fails_first,
}
use find_language_tutor.Payments.Service.{
  payment_by_booking, authorize, capture, refund, capture_by, capture_authorized, refund_by,
  return_money,
}

abbrev pub event_of : ℕ → EventType → EventId
event_of ref t = record { ref = of_ref ref; type = t }

-- The intent `p` of a booking, found by either of its keys.
pub record HasIntent (w : World) (booking_id : ℕ) (p : Payment) : Type 0 where
  pub by_booking : find payment_booking_of booking_id w.payments ≡ some p
  pub by_id : find payment_id_of p.id w.payments ≡ some p
  pub not_nil : p.id ≢ 0

-- The world after a hold was placed and its event applied.
abbrev pub hold_placed : Payment → MethodToken → World → World
hold_placed p token w = record w {
  seq = suc w.seq;
  holds = record { ref = suc w.seq; token = token; payment_id = p.id } ∷ w.holds;
  events = event_of (suc w.seq) event_authorized ∷ w.events;
  payments = modify payment_id_of p.id (mark_authorized w.now (suc w.seq)) w.payments;
  bookings = modify booking_id_of p.booking_id confirm w.bookings;
}

place_hold_lem :
    (w : World) (booking_id : ℕ) (p : Payment) (token : MethodToken)
    → HasIntent w booking_id p
    → seen (event_of (suc w.seq) event_authorized) w.events ≡ false
    → place_hold p.id token w ≡ (ok (suc w.seq), hold_placed p token w)
unfolding place_hold emit handle_webhook apply_event apply_type set_payment
place_hold_lem w booking_id p token has new = ground (arith, has.by_id)

pub fake_authorize_lem :
    (p : ℕ) (token : MethodToken) → token ≢ pm_decline → fake_authorize p token ≡ place_hold p token
unfolding fake_authorize
fake_authorize_lem p pm_ok h = refl
fake_authorize_lem p pm_decline h = absurd (h refl)
fake_authorize_lem p pm_capture_fail h = refl
fake_authorize_lem p other_token h = refl

intent_marked :
    (w : World) (booking_id : ℕ) (p : Payment) (f : Payment → Payment)
    → HasIntent w booking_id p
    → ((q : Payment) → (f q).booking_id ≡ q.booking_id)
    → find payment_booking_of booking_id (modify payment_id_of p.id f w.payments) ≡ some (f p)
intent_marked w booking_id p f has same = ground (
  arith,
  find-modify_by payment_booking_of payment_id_of booking_id p.id f w.payments same,
  has.by_booking,
)

-- Which intents Authorize takes.
abbrev pub IsPayable : PaymentStatus → Type 0
IsPayable s = (s ≡ requires_payment) ⊎ (s ≡ failed)

pub authorize_lem :
    (w : World) (booking_id : ℕ) (p : Payment) (token : MethodToken)
    → HasIntent w booking_id p
    → IsPayable p.status
    → token ≢ pm_decline
    → seen (event_of (suc w.seq) event_authorized) w.events ≡ false
    → authorize fake_provider booking_id token w
      ≡ (ok (mark_authorized w.now (suc w.seq) p), hold_placed p token w)
unfolding authorize payment_by_booking
authorize_lem w booking_id p token has payable accepts new = ground (
  arith,
  has.by_booking,
  ap (λ (a : Action ℕ). a w) (fake_authorize_lem p.id token accepts),
  place_hold_lem w booking_id p token has new,
  intent_marked w booking_id p (mark_authorized w.now (suc w.seq)) has (λ q. refl),
)

-- The provider holds the money of the intent: its reference is known and names this payment.
pub record HasHold (w : World) (p : Payment) (h : Hold) : Type 0 where
  pub known : find ref_of p.provider_ref w.holds ≡ some h
  pub owner : h.payment_id ≡ p.id

abbrev pub hold_captured : Payment → Booking → World → World
hold_captured p b w = record w {
  tried = p.provider_ref ∷ w.tried;
  events = event_of p.provider_ref event_captured ∷ w.events;
  payments = modify payment_id_of p.id (mark_captured w.now) w.payments;
  ledger = w.ledger ++ held_row w p b ∷ [];
  next_id = suc w.next_id;
}

fake_capture_lem :
    (w : World) (booking_id : ℕ) (p : Payment) (b : Booking) (h : Hold)
    → HasIntent w booking_id p
    → HasHold w p h
    → (fails_first h.token && not (contains p.provider_ref w.tried)) ≡ false
    → seen (event_of p.provider_ref event_captured) w.events ≡ false
    → find booking_id_of p.booking_id w.bookings ≡ some b
    → find ledger_booking_of p.booking_id w.ledger ≡ none
    → fake_capture p.provider_ref w ≡ (ok tt, hold_captured p b w)
unfolding fake_capture emit handle_webhook apply_event apply_type set_payment insert_ledger_held
fake_capture_lem w booking_id p b h has hold passes new found no_row =
    ground (arith, has.by_id, hold.known)

pub capture_lem :
    (w : World) (booking_id : ℕ) (p : Payment) (b : Booking) (h : Hold)
    → HasIntent w booking_id p
    → p.status ≡ authorized
    → HasHold w p h
    → (fails_first h.token && not (contains p.provider_ref w.tried)) ≡ false
    → seen (event_of p.provider_ref event_captured) w.events ≡ false
    → find booking_id_of p.booking_id w.bookings ≡ some b
    → find ledger_booking_of p.booking_id w.ledger ≡ none
    → capture fake_provider booking_id w ≡ (ok (mark_captured w.now p), hold_captured p b w)
unfolding capture capture_by capture_authorized payment_by_booking
capture_lem w booking_id p b h has held hold passes new found no_row = ground (
  arith,
  has.by_booking,
  fake_capture_lem w booking_id p b h has hold passes new found no_row,
  intent_marked w booking_id p (mark_captured w.now) has (λ q. refl),
)

abbrev pub hold_refunded : Payment → World → World
hold_refunded p w = record w {
  events = event_of p.provider_ref event_refunded ∷ w.events;
  payments = modify payment_id_of p.id (mark_refunded w.now) w.payments;
  ledger = modify ledger_booking_of p.booking_id reverse_row w.ledger;
}

fake_refund_lem :
    (w : World) (booking_id : ℕ) (p : Payment) (h : Hold)
    → HasIntent w booking_id p
    → HasHold w p h
    → seen (event_of p.provider_ref event_refunded) w.events ≡ false
    → fake_refund p.provider_ref w ≡ (ok tt, hold_refunded p w)
unfolding fake_refund emit handle_webhook apply_event apply_type set_payment
fake_refund_lem w booking_id p h has hold new = ground (arith, has.by_id, hold.known)

-- Which intents Refund gives money back for.
abbrev pub HoldsMoney : PaymentStatus → Type 0
HoldsMoney s = (s ≡ authorized) ⊎ (s ≡ captured)

pub refund_lem :
    (w : World) (booking_id : ℕ) (p : Payment) (h : Hold)
    → HasIntent w booking_id p
    → HoldsMoney p.status
    → HasHold w p h
    → seen (event_of p.provider_ref event_refunded) w.events ≡ false
    → refund fake_provider booking_id w ≡ (ok (some (mark_refunded w.now p)), hold_refunded p w)
unfolding refund refund_by return_money payment_by_booking
refund_lem w booking_id p h has money hold new = ground (
  arith,
  has.by_booking,
  fake_refund_lem w booking_id p h has hold new,
  intent_marked w booking_id p (mark_refunded w.now) has (λ q. refl),
)
