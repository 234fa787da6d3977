-- ===== src/Bookings/Money.antt =====
-- What the payments service does to the bookings: it confirms some, and changes nothing else.
use find_language_tutor.Prelude.{
  ℕ, not, ◌&&◌, ◌≡◌, ◌≢◌, ◌⊎◌, inl, inr, refl, ◌∙◌, some, List, ◌∷◌, arith, Bool-cases,
  Option-cases, ◌==◌,
}
use find_language_tutor.Slots.{contains}
use find_language_tutor.Store.{
  World, Booking, Payment, EventType, event_authorized, event_captured, event_refunded,
  event_failed, unknown_type, Event, of_ref, find, modify,
}
use find_language_tutor.Effect.{Action, Fallible-cases}
use find_language_tutor.Effect.Keeps.{Keeps}
use find_language_tutor.Payments.Events.{
  booking_id_of, payment_id_of, ledger_booking_of, confirm, mark_captured, insert_ledger_held,
  set_payment, seen, apply_type, apply_event, handle_webhook, emit, is_blank, is_valid_type,
}
use find_language_tutor.Payments.FakeProvider.{ref_of, fails_first, fake_capture, fake_refund}
use find_language_tutor.Bookings.Machine.{confirming, Changes, same, more, still}

-- The bookings are these, or were reached from these.
abbrev pub SameBookings : List Booking → World → Type 0
SameBookings bs w = w.bookings ≡ bs

abbrev pub FromBookings : List Booking → World → Type 0
FromBookings bs w = Changes bs w.bookings

insert_ledger_held-bookings :
    (p : Payment) (w : World) → (insert_ledger_held p w).bookings ≡ w.bookings
unfolding insert_ledger_held
insert_ledger_held-bookings p w =
    elim (Option-cases (find ledger_booking_of p.booking_id w.ledger)) [
      | inr (r, e) ↦ ground (arith, e)
      | inl e ↦ elim (Option-cases (find booking_id_of p.booking_id w.bookings)) [
        | inl f ↦ ground (arith, e, f)
        | inr (b, f) ↦ ground (arith, e, f)
      ]
    ]

-- The bookings after an event: the same, or some confirmed, by an event of authorization.
abbrev pub Confirms : EventType → List Booking → List Booking → Type 0
Confirms t bs bs' =
    (bs' ≡ bs) ⊎ ((id : ℕ) × (t ≡ event_authorized) × (bs' ≡ modify booking_id_of id confirm bs))

apply_type-Confirms :
    (t : EventType) (e : Event) (p : Payment) (w w' : World)
    → apply_type t e p w ≡ some w'
    → Confirms t w.bookings w'.bookings
unfolding apply_type set_payment
apply_type-Confirms event_authorized e p w w' h = inr (p.booking_id, refl, ground (arith, h))
apply_type-Confirms event_captured e p w w' h =
    inl (ground (arith, h, insert_ledger_held-bookings p (set_payment p (mark_captured w.now) w)))
apply_type-Confirms event_refunded e p w w' h = inl (ground (arith, h))
apply_type-Confirms event_failed e p w w' h = inl (ground (arith, h))
apply_type-Confirms unknown_type e p w w' h = cc

apply_event-Confirms :
    (e : Event) (w : World) → Confirms e.type w.bookings (apply_event e w).1.bookings
unfolding apply_event
apply_event-Confirms e w = elim (Bool-cases (seen e.id w.events)) [
  | inl a ↦ inl (ground (arith, a))
  | inr a ↦ elim (Option-cases (find payment_id_of e.payment_id w.payments)) [
    | inl b ↦ inl (ground (arith, a, b))
    | inr (p, b) ↦
        elim (Option-cases (apply_type e.type e p (record w { events = e.id ∷ w.events }))) [
          | inl c ↦ inl (ground (arith, a, b, c))
          | inr (w', c) ↦
              elim (apply_type-Confirms e.type e p (record w { events = e.id ∷ w.events }) w' c) [
                | inl d ↦ inl (ground (arith, a, b, c, d))
                | inr (id, t, d) ↦ inr (id, t, ground (arith, a, b, c, d))
              ]
        ]
  ]
]

pub handle_webhook-Confirms :
    (e : Event) (w : World) → Confirms e.type w.bookings (handle_webhook e w).1.bookings
unfolding handle_webhook
handle_webhook-Confirms e w = elim (Bool-cases (is_blank e.id.ref)) [
  | inl a ↦ inl (ground (arith, a))
  | inr a ↦ elim (Bool-cases (is_valid_type e.type)) [
    | inr b ↦ inl (ground (arith, a, b))
    | inl b ↦ elim (Bool-cases (e.payment_id == 0)) [
      | inl c ↦ inl (ground (arith, a, b, c))
      | inr c ↦ elim (apply_event-Confirms e w) [
        | inl d ↦ inl (ground (arith, a, b, c, d))
        | inr (id, t, d) ↦ inr (id, t, ground (arith, a, b, c, d))
      ]
    ]
  ]
]

-- Any event of the provider.
pub handle_webhook-FromBookings :
    (e : Event) (w : World) → FromBookings w.bookings (handle_webhook e w).1
handle_webhook-FromBookings e w = elim (handle_webhook-Confirms e w) [
  | inl d ↦ rw d same
  | inr (id, t, d) ↦ more still (confirming id d)
]

-- Any event but an authorization.
pub handle_webhook-SameBookings :
    (bs : List Booking) (e : Event)
    → e.type ≢ event_authorized
    → Keeps (SameBookings bs) (handle_webhook e)
handle_webhook-SameBookings bs e other w h = elim (handle_webhook-Confirms e w) [
  | inl d ↦ d ∙ h
  | inr (id, t, d) ↦ absurd (other t)
]

pub emit-state : (e : Event) (w : World) → (emit e w).1 ≡ (handle_webhook e w).1
unfolding emit
emit-state e w = elim (Fallible-cases (handle_webhook e w).0) [
  | inl (b, h) ↦ ground (arith, h)
  | inr (x, h) ↦ ground (arith, h)
]

-- The action leaves the bookings alone.
abbrev pub LeavesBookings : {A : Type 0} → Action A → Type 0
LeavesBookings m = (w : World) → (m w).1.bookings ≡ w.bookings

pub emit-LeavesBookings : (e : Event) → e.type ≢ event_authorized → LeavesBookings (emit e)
emit-LeavesBookings e other w =
    rw (emit-state e w) (handle_webhook-SameBookings w.bookings e other w refl)

pub fake_capture-LeavesBookings : (ref : ℕ) → LeavesBookings (fake_capture ref)
unfolding fake_capture
fake_capture-LeavesBookings ref w = elim (Option-cases (find ref_of ref w.holds)) [
  | inl e ↦ ground (arith, e)
  | inr (hold, e) ↦ elim (Bool-cases (fails_first hold.token && not (contains ref w.tried))) [
    | inl f ↦ ground (arith, e, f)
    | inr f ↦ ground (
      arith,
      e,
      f,
      emit-LeavesBookings
          (record {
            id = record { ref = of_ref ref; type = event_captured };
            type = event_captured;
            payment_id = hold.payment_id;
            provider_ref = ref;
            message = "";
          })
          (λ h. cc) (record w { tried = ref ∷ w.tried }),
    )
  ]
]

pub fake_refund-LeavesBookings : (ref : ℕ) → LeavesBookings (fake_refund ref)
unfolding fake_refund
fake_refund-LeavesBookings ref w = elim (Option-cases (find ref_of ref w.holds)) [
  | inl e ↦ ground (arith, e)
  | inr (hold, e) ↦ ground (
    arith,
    e,
    emit-LeavesBookings
        (record {
          id = record { ref = of_ref ref; type = event_refunded };
          type = event_refunded;
          payment_id = hold.payment_id;
          provider_ref = ref;
          message = "";
        })
        (λ h. cc) w,
  )
]
