-- ===== src/Bookings/Steps.antt =====
-- Bookings over time: every sequence of calls and events follows the abstract machine.
use Prim.Native.String.{String}
use find_language_tutor.Prelude.{
  ℕ, ◌≡◌, inl, inr, refl, sym, subst, Bool, List, [], ◌∷◌, arith, Bool-cases, Option-cases,
}
use find_language_tutor.Slots.{Money}
use find_language_tutor.Store.{World, Party, MethodToken, Event, TeacherContext, LedgerRow, find}
use find_language_tutor.Effect.{booking_not_found, pure, ◌>>=◌}
use find_language_tutor.Effect.Keeps.{bind-Keeps, bind-after, or_raise-Keeps}
use find_language_tutor.Payments.Events.{booking_id_of, handle_webhook}
use find_language_tutor.Payouts.{run, settle, lock_payable}
use find_language_tutor.Bookings.Repository.{
  CreateBookingParams, clashes_any, teacher_id_of, insert_booking, create_booking, get_booking,
  new_booking, find_slug, teacher_context_by_slug,
}
use find_language_tutor.Bookings.Browse.{CreateInput, create, place, open_intent}
use find_language_tutor.Bookings.Ports.{Ports}
use find_language_tutor.Bookings.Lifecycle.{
  pay, complete, cancel, admin_force_cancel, admin_refund, set_meeting_link, no_show,
}
use find_language_tutor.Bookings.Journey.{IsWired}
use find_language_tutor.Bookings.Calendar.{
  lesson_duration-Reads, lesson_price-Reads, open_intent-bookings, params,
}
use find_language_tutor.Bookings.Machine.{
  Edge, status_of, adding, Changes, same, more, still, Changes-Edge,
}
use find_language_tutor.Bookings.Money.{FromBookings, handle_webhook-FromBookings}
use find_language_tutor.Bookings.Moves.{pay-Changes}
use find_language_tutor.Bookings.Endings.{
  complete-Changes, cancel-Changes, admin_force_cancel-Changes, admin_refund-Changes, left_alone,
}
use find_language_tutor.Bookings.Absences.{no_show-Changes, set_meeting_link-Changes}

insert_booking-FromBookings :
    (p : CreateBookingParams) (w : World) → FromBookings w.bookings (insert_booking p w).1
unfolding insert_booking
insert_booking-FromBookings p w = elim (Option-cases (find teacher_id_of p.teacher_id w.teachers)) [
  | inl e ↦ left_alone (ground (arith, e))
  | inr (t, e) ↦ elim (Bool-cases (clashes_any p w.bookings)) [
    | inl f ↦ left_alone (ground (arith, e, f))
    | inr f ↦ more still (adding (new_booking w t p) refl (ground (arith, e, f)))
  ]
]

create_booking-FromBookings :
    (p : CreateBookingParams) (w : World) → FromBookings w.bookings (create_booking p w).1
unfolding create_booking get_booking
create_booking-FromBookings p w =
    let w' = (insert_booking p w).1 in
    let h = insert_booking-FromBookings p w in
    bind-after (FromBookings w.bookings) (insert_booking p) get_booking w h (λ id e.
      or_raise-Keeps (FromBookings w.bookings) (find booking_id_of id w'.bookings) booking_not_found
        w' h)

write-FromBookings :
    (ports : Ports) (p : CreateBookingParams) (w : World)
    → IsWired ports
    → FromBookings w.bookings ((create_booking p >>= λ b. open_intent ports b >>= λ _. pure b) w).1
write-FromBookings ports p w wired =
    let w' = (create_booking p w).1 in
    let h = create_booking-FromBookings p w in
    bind-after (FromBookings w.bookings) (create_booking p)
      (λ b. open_intent ports b >>= λ _. pure b) w h
      (λ b e.
        bind-Keeps (FromBookings w.bookings) (open_intent ports b) (λ _. pure b)
          (λ x k. subst (Changes w.bookings) (sym (open_intent-bookings ports b x wired)) k)
          (λ _ x k. k) w' h)

place-FromBookings :
    (ports : Ports) (tc : TeacherContext) (student : ℕ) (input : CreateInput) (d : ℕ) (m : Money)
    (w : World)
    → IsWired ports
    → FromBookings w.bookings (place ports tc student input d m w).1
unfolding place
place-FromBookings ports tc student input d m w wired =
    let h : FromBookings w.bookings w = same in
    ground (arith, write-FromBookings ports (params tc student input d m) w wired, h)

create-Changes :
    (ports : Ports) (wired : IsWired ports) (student : ℕ) (input : CreateInput) (w : World)
    → Changes w.bookings (create ports student input w).1.bookings
unfolding create teacher_context_by_slug
create-Changes ports wired student input w =
    let h : Changes w.bookings w.bookings = same in
    elim (Option-cases (find_slug input.teacher_slug w.teachers)) [
      | inl e ↦ ground (arith, e)
      | inr (tc, e) ↦ elim (lesson_duration-Reads input w) [
        | inr (x, no_d) ↦ ground (arith, e, no_d)
        | inl (d, got_d) ↦ elim (lesson_price-Reads input tc d w) [
          | inr (x, no_m) ↦ ground (arith, e, got_d, no_m)
          | inl (m, got_m) ↦
              ground (arith, e, got_d, got_m, place-FromBookings ports tc student input d m w wired)
        ]
      ]
    ]

settle-bookings :
    (w : World) (admin : ℕ) (rows : List LedgerRow) → (settle w admin rows).1.bookings ≡ w.bookings
unfolding settle
settle-bookings w admin [] = refl
settle-bookings w admin (r ∷ rs) = refl

run-bookings :
    (locked : List ℕ) (admin : ℕ) (w : World) → (run locked admin w).1.bookings ≡ w.bookings
unfolding run
run-bookings locked admin w = settle-bookings w admin (lock_payable w.now locked w.ledger)

-- A call of the service, an event of the provider at the webhook, a payout run, or time.
pub data Step (ports : Ports) : World → World → Type 0 where
  created :
      (student : ℕ) (input : CreateInput) (w : World)
      → Step ports w (create ports student input w).1
  payed :
      (caller id : ℕ) (token : MethodToken) (w : World)
      → Step ports w (pay ports caller id token w).1
  ended : (caller id : ℕ) (w : World) → Step ports w (complete ports caller id w).1
  withdrawn :
      (caller id : ℕ) (reason : String) (w : World)
      → Step ports w (cancel ports caller id reason w).1
  forced :
      (id : ℕ) (reason : String) (refund : Bool) (w : World)
      → Step ports w (admin_force_cancel ports id reason refund w).1
  refunded : (id : ℕ) (w : World) → Step ports w (admin_refund ports id w).1
  linked :
      (caller id : ℕ) (link : String) (w : World)
      → Step ports w (set_meeting_link ports caller id link w).1
  missed :
      (caller id : ℕ) (party : Party) (w : World) → Step ports w (no_show ports caller id party w).1
  notified : (e : Event) (w : World) → Step ports w (handle_webhook e w).1
  settled : (locked : List ℕ) (admin : ℕ) (w : World) → Step ports w (run locked admin w).1
  waited : (later : ℕ) (w : World) → Step ports w (record w { now = later })

pub data Reach (ports : Ports) (w : World) : World → Type 0 where
  here : Reach ports w w
  next : {v u : World} → Reach ports w v → Step ports v u → Reach ports w u

-- At every single step of the run, each booking stays in its state or goes along one edge.
abbrev pub Trace : {ports : Ports} {w u : World} → Reach ports w u → Type 0
Trace here = Unit {0}
Trace (next {v = v} {u = u} r st) =
    Trace r × ((id : ℕ) → Edge (status_of id v.bookings) (status_of id u.bookings))

module _ (ports : Ports) (wired : IsWired ports) where
  Step-Changes : {w u : World} → Step ports w u → Changes w.bookings u.bookings
  Step-Changes (created student input w) = create-Changes ports wired student input w
  Step-Changes (payed caller id token w) = pay-Changes ports wired caller id token w
  Step-Changes (ended caller id w) = complete-Changes ports wired caller id w
  Step-Changes (withdrawn caller id reason w) = cancel-Changes ports wired caller id reason w
  Step-Changes (forced id reason refund w) =
      admin_force_cancel-Changes ports wired id reason refund w
  Step-Changes (refunded id w) = admin_refund-Changes ports wired id w
  Step-Changes (linked caller id link w) = set_meeting_link-Changes ports wired caller id link w
  Step-Changes (missed caller id party w) = no_show-Changes ports wired caller id party w
  Step-Changes (notified e w) = handle_webhook-FromBookings e w
  Step-Changes (settled locked admin w) = rw (run-bookings locked admin w) same
  Step-Changes (waited later w) = same

  -- With the in-process provider, in every run: each single call, event at the webhook, payout run
  -- or wait takes every booking along one edge of the abstract machine at most. A booking that is
  -- new after it is pending; one that became confirmed was pending right before; one that became
  -- completed was confirmed right before; one that became cancelled was pending or confirmed right
  -- before; and nothing leaves completed or cancelled.
  pub Reach-Trace : {w u : World} (r : Reach ports w u) → Trace r
  Reach-Trace here = tt
  Reach-Trace (next r st) = (Reach-Trace r, λ id. Changes-Edge id (Step-Changes st))
