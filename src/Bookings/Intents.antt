-- ===== src/Bookings/Intents.antt =====
-- What the calls of the payment gateway do to the bookings.
use find_language_tutor.Prelude.{ℕ, suc, ◌≡◌, ◌⊎◌, inl, inr, refl, ◌∷◌, arith, Option-cases}
use find_language_tutor.Slots.{Money}
use find_language_tutor.Store.{
  World, Payment, PaymentStatus, requires_payment, authorized, captured, refunded, failed,
  MethodToken, pm_ok, pm_decline, pm_capture_fail, other_token, event_authorized, event_failed,
  Event, of_ref, of_void, of_decline, find,
}
use find_language_tutor.Effect.{paid_already, not_payable, ok, err, Error, Action, Fallible-cases}
use find_language_tutor.Payments.Events.{payment_booking_of, handle_webhook, emit}
use find_language_tutor.Payments.FakeProvider.{
  place_hold, fake_decline, decline_reason, fake_authorize, fake_capture, fake_refund,
  fake_provider,
}
use find_language_tutor.Payments.Service.{
  payment_by_booking, check_payable, authorize, capture, capture_by, capture_authorized, refund,
  refund_by, void_intent, return_money, initiate_payment,
}
use find_language_tutor.Bookings.Money.{
  Confirms, LeavesBookings, handle_webhook-Confirms, handle_webhook-SameBookings, emit-state,
  emit-LeavesBookings, fake_capture-LeavesBookings, fake_refund-LeavesBookings,
}

payment_by_booking-state : (id : ℕ) (w : World) → (payment_by_booking id w).1 ≡ w
unfolding payment_by_booking
payment_by_booking-state id w = elim (Option-cases (find payment_booking_of id w.payments)) [
  | inl e ↦ ground (arith, e)
  | inr (p, e) ↦ ground (arith, e)
]

capture_authorized-LeavesBookings :
    (id : ℕ) (p : Payment) → LeavesBookings (capture_authorized fake_provider id p)
unfolding capture_authorized
capture_authorized-LeavesBookings id p w = elim (Fallible-cases (fake_capture p.provider_ref w).0) [
  | inl (a, e) ↦ ground (
    arith,
    e,
    fake_capture-LeavesBookings p.provider_ref w,
    payment_by_booking-state id (fake_capture p.provider_ref w).1,
  )
  | inr (x, e) ↦ ground (arith, e, fake_capture-LeavesBookings p.provider_ref w)
]

capture_by-LeavesBookings :
    (st : PaymentStatus) (id : ℕ) (p : Payment) → LeavesBookings (capture_by fake_provider st id p)
unfolding capture_by
capture_by-LeavesBookings authorized id p w = capture_authorized-LeavesBookings id p w
capture_by-LeavesBookings captured id p w = refl
capture_by-LeavesBookings requires_payment id p w = refl
capture_by-LeavesBookings failed id p w = refl
capture_by-LeavesBookings refunded id p w = refl

pub capture-LeavesBookings : (id : ℕ) → LeavesBookings (capture fake_provider id)
unfolding capture
capture-LeavesBookings id w = elim (Fallible-cases (payment_by_booking id w).0) [
  | inl (p, e) ↦
      ground (arith, e, payment_by_booking-state id w, capture_by-LeavesBookings p.status id p w)
  | inr (x, e) ↦ ground (arith, e, payment_by_booking-state id w)
]

void_intent-LeavesBookings :
    (id : ℕ) (p : Payment) → LeavesBookings (void_intent fake_provider id p)
unfolding void_intent
void_intent-LeavesBookings id p w =
    let e : Event = record {
      id = record { ref = of_void p.id; type = event_failed };
      type = event_failed;
      payment_id = p.id;
      provider_ref = 0;
      message = "voided: booking cancelled";
    } in
    let same_rows = handle_webhook-SameBookings w.bookings e (λ h. cc) w refl in
    elim (Fallible-cases (handle_webhook e w).0) [
      | inl (a, f) ↦
          ground (arith, f, same_rows, payment_by_booking-state id (handle_webhook e w).1)
      | inr (x, f) ↦ ground (arith, f, same_rows)
    ]

return_money-LeavesBookings :
    (id : ℕ) (p : Payment) → LeavesBookings (return_money fake_provider id p)
unfolding return_money
return_money-LeavesBookings id p w = elim (Fallible-cases (fake_refund p.provider_ref w).0) [
  | inl (a, e) ↦ ground (
    arith,
    e,
    fake_refund-LeavesBookings p.provider_ref w,
    payment_by_booking-state id (fake_refund p.provider_ref w).1,
  )
  | inr (x, e) ↦ ground (arith, e, fake_refund-LeavesBookings p.provider_ref w)
]

refund_by-LeavesBookings :
    (st : PaymentStatus) (id : ℕ) (p : Payment) → LeavesBookings (refund_by fake_provider st id p)
unfolding refund_by
refund_by-LeavesBookings refunded id p w = refl
refund_by-LeavesBookings requires_payment id p w = void_intent-LeavesBookings id p w
refund_by-LeavesBookings failed id p w = void_intent-LeavesBookings id p w
refund_by-LeavesBookings authorized id p w = return_money-LeavesBookings id p w
refund_by-LeavesBookings captured id p w = return_money-LeavesBookings id p w

pub refund-LeavesBookings : (id : ℕ) → LeavesBookings (refund fake_provider id)
unfolding refund
refund-LeavesBookings id w = elim (Option-cases (find payment_booking_of id w.payments)) [
  | inl e ↦ ground (arith, e)
  | inr (p, e) ↦ elim (Fallible-cases (refund_by fake_provider p.status id p w).0) [
    | inl (q, f) ↦ ground (arith, e, f, refund_by-LeavesBookings p.status id p w)
    | inr (x, f) ↦ ground (arith, e, f, refund_by-LeavesBookings p.status id p w)
  ]
]

pub initiate_payment-LeavesBookings :
    (id : ℕ) (amount : Money) → LeavesBookings (initiate_payment id amount)
unfolding initiate_payment
initiate_payment-LeavesBookings id amount w =
    elim (Option-cases (find payment_booking_of id w.payments)) [
      | inl e ↦ ground (arith, e)
      | inr (p, e) ↦ ground (arith, e)
    ]

-- The action leaves the bookings alone, or confirms some.
abbrev pub ConfirmsBookings : {A : Type 0} → Action A → Type 0
ConfirmsBookings m = (w : World) → Confirms event_authorized w.bookings (m w).1.bookings

place_hold-ConfirmsBookings :
    (payment_id : ℕ) (token : MethodToken) → ConfirmsBookings (place_hold payment_id token)
unfolding place_hold
place_hold-ConfirmsBookings payment_id token w =
    let w' = record w {
      seq = suc w.seq;
      holds = record { ref = suc w.seq; token = token; payment_id = payment_id } ∷ w.holds;
    } in
    let e : Event = record {
      id = record { ref = of_ref (suc w.seq); type = event_authorized };
      type = event_authorized;
      payment_id = payment_id;
      provider_ref = suc w.seq;
      message = "";
    } in
    elim (Fallible-cases (emit e w').0) [
      | inl (a, f) ↦ elim (handle_webhook-Confirms e w') [
        | inl d ↦ inl (ground (arith, f, d, emit-state e w'))
        | inr (id, t, d) ↦ inr (id, refl, ground (arith, f, d, emit-state e w'))
      ]
      | inr (x, f) ↦ elim (handle_webhook-Confirms e w') [
        | inl d ↦ inl (ground (arith, f, d, emit-state e w'))
        | inr (id, t, d) ↦ inr (id, refl, ground (arith, f, d, emit-state e w'))
      ]
    ]

fake_decline-LeavesBookings : (payment_id : ℕ) → LeavesBookings (fake_decline payment_id)
unfolding fake_decline
fake_decline-LeavesBookings payment_id w =
    let e : Event = record {
      id = record { ref = of_decline payment_id; type = event_failed };
      type = event_failed;
      payment_id = payment_id;
      provider_ref = 0;
      message = decline_reason;
    } in
    elim (Fallible-cases (emit e w).0) [
      | inl (a, f) ↦ ground (arith, f, emit-LeavesBookings e (λ h. cc) w)
      | inr (x, f) ↦ ground (arith, f, emit-LeavesBookings e (λ h. cc) w)
    ]

fake_authorize-ConfirmsBookings :
    (payment_id : ℕ) (token : MethodToken) → ConfirmsBookings (fake_authorize payment_id token)
unfolding fake_authorize
fake_authorize-ConfirmsBookings payment_id pm_decline w =
    inl (fake_decline-LeavesBookings payment_id w)
fake_authorize-ConfirmsBookings payment_id pm_ok w = place_hold-ConfirmsBookings payment_id pm_ok w
fake_authorize-ConfirmsBookings payment_id pm_capture_fail w =
    place_hold-ConfirmsBookings payment_id pm_capture_fail w
fake_authorize-ConfirmsBookings payment_id other_token w =
    place_hold-ConfirmsBookings payment_id other_token w

check_payable-cases :
    (st : PaymentStatus) (w : World)
    → (check_payable st w ≡ (ok tt, w)) ⊎ ((e : Error) × (check_payable st w ≡ (err e, w)))
check_payable-cases requires_payment w = inl refl
check_payable-cases failed w = inl refl
check_payable-cases authorized w = inr (paid_already, refl)
check_payable-cases captured w = inr (paid_already, refl)
check_payable-cases refunded w = inr (not_payable, refl)

-- The state after Authorize is that after the payment was not found or not payable, or that after
-- the provider's call.
authorize-state :
    (id : ℕ) (token : MethodToken) (w : World)
    → ((authorize fake_provider id token w).1 ≡ w)
      ⊎ ((p : Payment) × ((authorize fake_provider id token w).1 ≡ (fake_authorize p.id token w).1))
unfolding authorize
authorize-state id token w = elim (Option-cases (find payment_booking_of id w.payments)) [
  | inl e ↦ inl (ground (arith, e))
  | inr (p, e) ↦ elim (check_payable-cases p.status w) [
    | inr (x, f) ↦ inl (ground (arith, e, f))
    | inl f ↦ elim (Fallible-cases (fake_authorize p.id token w).0) [
      | inl (a, g) ↦
          inr (
            p,
            ground (arith, e, f, g, payment_by_booking-state id (fake_authorize p.id token w).1),
          )
      | inr (x, g) ↦ inr (p, ground (arith, e, f, g))
    ]
  ]
]

pub authorize-ConfirmsBookings :
    (id : ℕ) (token : MethodToken) → ConfirmsBookings (authorize fake_provider id token)
authorize-ConfirmsBookings id token w = elim (authorize-state id token w) [
  | inl e ↦ inl (rw e refl)
  | inr (p, e) ↦ rw e (fake_authorize-ConfirmsBookings p.id token w)
]
