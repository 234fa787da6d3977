-- ===== src/Payments/Replay.antt =====
-- Each provider event is applied at most once.
use find_language_tutor.Prelude.{
  ◌≡◌, refl, ap, ◌∙◌, inl, inr, Bool, true, false, not, ◌&&◌, Option, none, some, List, [], ◌∷◌,
  arith, ◌==◌, Bool-cases,
}
use find_language_tutor.Store.{
  World, Payment, EventType, event_authorized, event_captured, event_refunded, event_failed,
  unknown_type, EventRef, of_ref, of_decline, of_void, foreign, blank, EventId, Event, find,
}
use find_language_tutor.Effect.{payment_not_found, bad_event, Result, ok, err}
use find_language_tutor.Payments.Events.{
  same_ref, same_type, seen, payment_id_of, set_payment, insert_ledger_held, apply_type,
  apply_event, is_blank, is_valid_type, handle_webhook,
}

same_ref_refl : (r : EventRef) → same_ref r r ≡ true
same_ref_refl (of_ref n) = ground arith
same_ref_refl (of_decline n) = ground arith
same_ref_refl (of_void n) = ground arith
same_ref_refl (foreign n) = ground arith
same_ref_refl blank = refl

same_type_refl : (t : EventType) → same_type t t ≡ true
same_type_refl event_authorized = refl
same_type_refl event_captured = refl
same_type_refl event_refunded = refl
same_type_refl event_failed = refl
same_type_refl unknown_type = refl

pub seen_self : (e : EventId) (es : List EventId) → seen e (e ∷ es) ≡ true
unfolding seen
seen_self e es = ground (arith, same_ref_refl e.ref, same_type_refl e.type)

pub seen-cons : (e x : EventId) (es : List EventId) → seen e es ≡ true → seen e (x ∷ es) ≡ true
unfolding seen
seen-cons e x es h = ground arith

-- The ids in the log grow only at the front.
pub apply_type-events :
    (t : EventType) (e : Event) (p : Payment) (w w' : World)
    → apply_type t e p w ≡ some w'
    → w'.events ≡ w.events
unfolding apply_type insert_ledger_held set_payment
apply_type-events event_authorized e p w w' h = ground arith
apply_type-events event_captured e p w w' h = ground arith
apply_type-events event_refunded e p w w' h = ground arith
apply_type-events event_failed e p w w' h = ground arith
apply_type-events unknown_type e p w w' h = cc

-- What a webhook call did: it was refused and changed nothing, or it was a replay and changed
-- nothing, or its id was new and is now in the log.
abbrev pub Outcome : Event → World → Result Bool × World → Type 0
Outcome e w (err _, w') = w' ≡ w
Outcome e w (ok false, w') = (w' ≡ w) × (seen e.id w.events ≡ true)
Outcome e w (ok true, w') = (seen e.id w.events ≡ false) × (w'.events ≡ e.id ∷ w.events)

applied-Outcome :
    (e : Event) (p : Payment) (w : World) (o : Option World)
    → apply_type e.type e p (record w { events = e.id ∷ w.events }) ≡ o
    → seen e.id w.events ≡ false
    → Outcome e w (elim o [ none ↦ (err bad_event, w) | some w' ↦ (ok true, w') ])
applied-Outcome e p w none h s = refl
applied-Outcome e p w (some w') h s =
    (s, apply_type-events e.type e p (record w { events = e.id ∷ w.events }) w' h)

found-Outcome :
    (e : Event) (w : World) (o : Option Payment)
    → seen e.id w.events ≡ false
    → Outcome e w (elim o [
      | none ↦ (err payment_not_found, w)
      | some p ↦ elim (apply_type e.type e p (record w { events = e.id ∷ w.events })) [
        | none ↦ (err bad_event, w)
        | some w' ↦ (ok true, w')
      ]
    ])
found-Outcome e w none s = refl
found-Outcome e w (some p) s =
    applied-Outcome e p w (apply_type e.type e p (record w { events = e.id ∷ w.events })) refl s

apply_event-Outcome : (e : Event) (w : World) → Outcome e w (apply_event e w)
unfolding apply_event
apply_event-Outcome e w = elim (Bool-cases (seen e.id w.events)) [
  | inl s ↦ rw s (refl, s)
  | inr s ↦ rw s (found-Outcome e w (find payment_id_of e.payment_id w.payments) s)
]

-- The three guards of HandleWebhook.
abbrev is_well_formed : Event → Bool
is_well_formed e = not (is_blank e.id.ref) && is_valid_type e.type && not (e.payment_id == 0)

handle_webhook_pass :
    (e : Event) (w : World) → is_well_formed e ≡ true → handle_webhook e w ≡ apply_event e w
unfolding handle_webhook
handle_webhook_pass e w h = ground arith

handle_webhook_refuse :
    (e : Event) (w : World) → is_well_formed e ≡ false → handle_webhook e w ≡ (err bad_event, w)
unfolding handle_webhook
handle_webhook_refuse e w h = ground arith

-- A webhook call is refused and changes nothing, or is a replay and changes nothing, or carries a
-- new id, which is then in the log.
pub handle_webhook-Outcome : (e : Event) (w : World) → Outcome e w (handle_webhook e w)
handle_webhook-Outcome e w = elim (Bool-cases (is_well_formed e)) [
  | inl h ↦ rw (handle_webhook_pass e w h) (apply_event-Outcome e w)
  | inr h ↦ rw (handle_webhook_refuse e w h) refl
]

Outcome-seen :
    (x : EventId) (e : Event) (w : World) (r : Result Bool × World)
    → Outcome e w r
    → seen x w.events ≡ true
    → seen x r.1.events ≡ true
Outcome-seen x e w (err _, w') o s = rw o s
Outcome-seen x e w (ok false, w') o s = rw o.0 s
Outcome-seen x e w (ok true, w') o s = rw o.1 (seen-cons x e.id w.events s)

-- The deliveries of a list of events, one after the other.
unfoldable pub deliver : List Event → World → World
unfolding handle_webhook
deliver [] w = w
deliver (e ∷ es) w = deliver es (handle_webhook e w).1

deliver-seen :
    (x : EventId) (es : List Event) (w : World)
    → seen x w.events ≡ true
    → seen x (deliver es w).events ≡ true
unfolding deliver
deliver-seen x [] w s = s
deliver-seen x (e ∷ es) w s =
    deliver-seen x es (handle_webhook e w).1
      (Outcome-seen x e w (handle_webhook e w) (handle_webhook-Outcome e w) s)

apply_event_seen :
    (e : Event) (w : World) → seen e.id w.events ≡ true → apply_event e w ≡ (ok false, w)
unfolding apply_event
apply_event_seen e w h = rw h

accepted :
    (e : Event) (w w' : World) {b : Bool}
    → handle_webhook e w ≡ (ok b, w')
    → is_well_formed e ≡ true
unfolding handle_webhook
accepted e w w' h = ground arith

logged_of_Outcome :
    (e : Event) (w w' : World) (r : Result Bool × World)
    → r ≡ (ok true, w')
    → Outcome e w r
    → seen e.id w'.events ≡ true
logged_of_Outcome e w w' (err _, x) h o = cc
logged_of_Outcome e w w' (ok false, x) h o = cc
logged_of_Outcome e w w' (ok true, x) h o =
    ground (arith, o.1, ap (seen e.id) o.1, seen_self e.id w.events)

-- Once an event has been applied, delivering it again answers that nothing was applied and
-- changes nothing, whatever other events have come in between.
pub handle_webhook_replay :
    (e : Event) (es : List Event) (w w' : World)
    → handle_webhook e w ≡ (ok true, w')
    → handle_webhook e (deliver es w') ≡ (ok false, deliver es w')
handle_webhook_replay e es w w' h =
    handle_webhook_pass e (deliver es w') (accepted e w w' h)
    ∙ apply_event_seen e (deliver es w') (
        deliver-seen e.id es w'
          (logged_of_Outcome e w w' (handle_webhook e w) h (handle_webhook-Outcome e w)))
