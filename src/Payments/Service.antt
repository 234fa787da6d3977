-- ===== src/Payments/Service.antt =====
-- service.go and gateway.go of the payments module, over any provider.
use find_language_tutor.Prelude.{ℕ, suc, Option, none, some, [], ◌∷◌, ◌++◌}
use find_language_tutor.Slots.{Money}
use find_language_tutor.Store.{
  Payment, PaymentStatus, requires_payment, authorized, captured, refunded, failed, MethodToken,
  event_failed, of_void, find,
}
use find_language_tutor.Effect.{
  Error, payment_not_found, paid_already, not_payable, provider_capture_failed, declined,
  provider_declined, payment_failed, already_paid, capture_failed, invalid_transition,
  payment_required, ok, err, Action, pure, raise, gets, or_raise, ◌>>=◌, ◌>>◌,
}
use find_language_tutor.Payments.Events.{payment_booking_of, handle_webhook}
use find_language_tutor.Payments.FakeProvider.{Provider}

unfoldable pub payment_by_booking : ℕ → Action Payment
payment_by_booking booking_id = do
  or_raise (← gets (λ w. find payment_booking_of booking_id w.payments)) payment_not_found

-- EnsurePayment: a booking that has an intent keeps it.
unfoldable pub initiate_payment : ℕ → Money → Action (Unit {0})
initiate_payment booking_id amount w = elim (find payment_booking_of booking_id w.payments) [
  | some p ↦ (ok tt, w)
  | none ↦ (
    ok tt,
    record w {
      payments =
          w.payments
          ++ record {
            id = w.next_id;
            booking_id = booking_id;
            provider_ref = 0;
            status = requires_payment;
            amount = amount;
            last_error = "";
            authorized_at = none;
            captured_at = none;
            refunded_at = none;
          }
            ∷ [];
      next_id = suc w.next_id;
    },
  )
]

-- The switch of Authorize on the intent's status.
abbrev pub check_payable : PaymentStatus → Action (Unit {0})
check_payable requires_payment = pure tt
check_payable failed = pure tt
check_payable authorized = raise paid_already
check_payable captured = raise paid_already
check_payable refunded = raise not_payable

-- A decline of the provider becomes PaymentDeclined; other errors pass through.
abbrev pub declined_error : Error → Error
declined_error (provider_declined reason) = declined reason
declined_error e = e

abbrev pub map_error : {A : Type 0} → (Error → Error) → Action A → Action A
map_error f m w = let (r, w') = m w in (elim r [ ok a ↦ ok a | err e ↦ err (f e) ], w')

-- gateway.go: translate.
abbrev pub translate : Error → Error
translate (declined reason) = payment_failed reason
translate paid_already = already_paid
translate provider_capture_failed = capture_failed
translate not_payable = invalid_transition
translate payment_not_found = payment_required
translate e = e

module _ (provider : Provider) where
  unfoldable pub authorize : ℕ → MethodToken → Action Payment
  unfolding payment_by_booking
  authorize booking_id token = do
    p ← payment_by_booking booking_id
    check_payable p.status
    map_error declined_error (provider.authorize p.id token)
    payment_by_booking booking_id

  unfoldable pub capture_authorized : ℕ → Payment → Action Payment
  unfolding payment_by_booking
  capture_authorized booking_id p = do
    map_error (λ _. provider_capture_failed) (provider.capture p.provider_ref)
    payment_by_booking booking_id

  unfoldable pub capture_by : PaymentStatus → ℕ → Payment → Action Payment
  unfolding capture_authorized
  capture_by captured booking_id p = pure p
  capture_by authorized booking_id p = capture_authorized booking_id p
  capture_by _ booking_id p = raise not_payable

  unfoldable pub capture : ℕ → Action Payment
  unfolding payment_by_booking capture_by
  capture booking_id = do p ← payment_by_booking booking_id; capture_by p.status booking_id p

  unfoldable pub void_intent : ℕ → Payment → Action Payment
  unfolding payment_by_booking handle_webhook
  void_intent booking_id p = do
    handle_webhook (record {
      id = record { ref = of_void p.id; type = event_failed };
      type = event_failed;
      payment_id = p.id;
      provider_ref = 0;
      message = "voided: booking cancelled";
    })
    payment_by_booking booking_id

  unfoldable pub return_money : ℕ → Payment → Action Payment
  unfolding payment_by_booking
  return_money booking_id p = do provider.refund p.provider_ref; payment_by_booking booking_id

  unfoldable pub refund_by : PaymentStatus → ℕ → Payment → Action Payment
  unfolding void_intent return_money
  refund_by refunded booking_id p = pure p
  refund_by requires_payment booking_id p = void_intent booking_id p
  refund_by failed booking_id p = void_intent booking_id p
  refund_by authorized booking_id p = return_money booking_id p
  refund_by captured booking_id p = return_money booking_id p

  -- A booking without an intent has nothing to undo: `none` is the empty Payment.
  unfoldable pub refund : ℕ → Action (Option Payment)
  unfolding refund_by
  refund booking_id w = elim (find payment_booking_of booking_id w.payments) [
    | none ↦ (ok none, w)
    | some p ↦ (refund_by p.status booking_id p >>= λ q. pure (some q)) w
  ]

-- SnapshotForBooking.
unfoldable pub snapshot_for_booking : ℕ → Action (Option Payment)
snapshot_for_booking booking_id = gets (λ w. find payment_booking_of booking_id w.payments)

-- The port bookings.PaymentGateway.
pub record Gateway : Type 0 where
  pub initiate : ℕ → Money → Action (Unit {0})
  pub authorize : ℕ → MethodToken → Action Payment
  pub capture : ℕ → Action Payment
  pub refund : ℕ → Action (Option Payment)
  pub snapshot : ℕ → Action (Option Payment)

-- gateway.go: the service behind the port, with its errors translated.
abbrev pub gateway : Provider → Gateway
gateway provider = record {
  initiate = initiate_payment;
  authorize = λ booking_id token. map_error translate (authorize provider booking_id token);
  capture = λ booking_id. map_error translate (capture provider booking_id);
  refund = λ booking_id. map_error translate (refund provider booking_id);
  snapshot = snapshot_for_booking;
}
