-- ===== src/Bookings/Calendar.antt =====
-- No two live lessons of one teacher, or of one student, overlap.
use find_language_tutor.Prelude.{sym, subst}
use find_language_tutor.Prelude.{
  ℕ, ◌+◌, ◌*◌, ◌≤◌, ◌≡◌, refl, ◌≢◌, ◌⊎◌, inl, inr, true, false, List, [], ◌∷◌, ◌++◌, arith, All,
  Option-cases, Bool-cases,
}
use find_language_tutor.Clock.{minute}
use find_language_tutor.Bookings.Pricing.{trial_duration_minutes, allowed_duration, hourly_price}
use find_language_tutor.Slots.{Money}
use find_language_tutor.Store.{World, Booking, TeacherContext, find}
use find_language_tutor.Effect.{
  ok, err, Error, invalid_request, booking_not_found, Action, pure, ◌>>=◌,
}
use find_language_tutor.Effect.Keeps.{Keeps, bind-Keeps, or_raise-Keeps}
use find_language_tutor.Payments.Events.{booking_id_of}
use find_language_tutor.Bookings.Repository.{
  is_cancelled, CreateBookingParams, clashes, clashes_any, teacher_id_of, insert_booking,
  create_booking, get_booking, new_booking, teacher_context_by_slug, find_slug,
}
use find_language_tutor.Bookings.Browse.{
  CreateInput, create, place, open_intent, lesson_duration, lesson_price,
}
use find_language_tutor.Bookings.Ports.{Ports}
use find_language_tutor.Bookings.Journey.{IsWired}
use find_language_tutor.Payments.Service.{initiate_payment}

-- One of the two is cancelled, or they have neither teacher nor student in common, or one ends
-- before the other begins.
abbrev pub Compatible : Booking → Booking → Type 0
Compatible x y =
    (is_cancelled x.status ≡ true)
    ⊎ (is_cancelled y.status ≡ true)
    ⊎ ((x.teacher_id ≢ y.teacher_id) × (x.student_id ≢ y.student_id))
    ⊎ (x.end_at ≤ y.start_at)
    ⊎ (y.end_at ≤ x.start_at)

-- Every row is compatible with every later one.
abbrev pub IsCalendar : List Booking → Type 0
IsCalendar [] = Unit {0}
IsCalendar (b ∷ bs) = All (Compatible b) bs × IsCalendar bs

-- The row has the columns of the parameters.
abbrev IsOf : CreateBookingParams → Booking → Type 0
IsOf p b =
    (b.teacher_id ≡ p.teacher_id)
    × (b.student_id ≡ p.student_id)
    × (b.start_at ≡ p.start_at)
    × (b.end_at ≡ p.end_at)

clashes-Compatible :
    (p : CreateBookingParams) (x b : Booking) → IsOf p b → clashes p x ≡ false → Compatible x b
unfolding clashes
clashes-Compatible p x b of h = ground arith

All-snoc :
    (P : Booking → Type 0) (bs : List Booking) (b : Booking) → All P bs → P b → All P (bs ++ b ∷ [])
All-snoc P [] b h p = (p, tt)
All-snoc P (x ∷ bs) b h p = (h.0, All-snoc P bs b h.1 p)

snoc-IsCalendar :
    (p : CreateBookingParams) (bs : List Booking) (b : Booking)
    → IsOf p b
    → clashes_any p bs ≡ false
    → IsCalendar bs
    → IsCalendar (bs ++ b ∷ [])
unfolding clashes_any
snoc-IsCalendar p [] b of free h = (tt, tt)
snoc-IsCalendar p (x ∷ bs) b of free h = (
  All-snoc (Compatible x) bs b h.0 (clashes-Compatible p x b of (ground arith)),
  snoc-IsCalendar p bs b of (ground arith) h.1,
)

-- The rows are a calendar.
abbrev HasCalendar : World → Type 0
HasCalendar w = IsCalendar w.bookings

insert_booking-IsCalendar : (p : CreateBookingParams) → Keeps HasCalendar (insert_booking p)
unfolding insert_booking
insert_booking-IsCalendar p w h = elim (Option-cases (find teacher_id_of p.teacher_id w.teachers)) [
  | inl e ↦ ground (arith, e)
  | inr (t, e) ↦
      ground (arith, e, snoc-IsCalendar p w.bookings (new_booking w t p) (refl, refl, refl, refl))
]

create_booking-IsCalendar : (p : CreateBookingParams) → Keeps HasCalendar (create_booking p)
unfolding create_booking get_booking
create_booking-IsCalendar p =
    bind-Keeps HasCalendar (insert_booking p) get_booking (insert_booking-IsCalendar p) (λ id w h.
      or_raise-Keeps HasCalendar (find booking_id_of id w.bookings) booking_not_found w h)

pub open_intent-bookings :
    (ports : Ports) (b : Booking) (w : World)
    → IsWired ports
    → (open_intent ports b w).1.bookings ≡ w.bookings
unfolding initiate_payment
open_intent-bookings ports b w wired = ground arith

abbrev pub params : TeacherContext → ℕ → CreateInput → ℕ → Money → CreateBookingParams
params tc student input duration price = record {
  teacher_id = tc.id;
  student_id = student;
  start_at = input.start_at;
  end_at = input.start_at + duration * minute;
  duration_minutes = duration;
  price = price;
  is_trial = input.is_trial;
}

abbrev write : Ports → TeacherContext → ℕ → CreateInput → ℕ → Money → Action Booking
write ports tc student input d m =
    create_booking (params tc student input d m) >>= λ b. open_intent ports b >>= λ _. pure b

-- The last part of Create: the insert and the intent.
write-IsCalendar :
    (ports : Ports) (p : CreateBookingParams)
    → IsWired ports
    → Keeps HasCalendar (create_booking p >>= λ b. open_intent ports b >>= λ _. pure b)
write-IsCalendar ports p wired =
    bind-Keeps HasCalendar (create_booking p) (λ b. open_intent ports b >>= λ _. pure b)
      (create_booking-IsCalendar p)
      (λ b.
        bind-Keeps HasCalendar (open_intent ports b) (λ _. pure b)
          (λ x k. subst IsCalendar (sym (open_intent-bookings ports b x wired)) k) (λ _ x k. k))

place-IsCalendar :
    (ports : Ports) (tc : TeacherContext) (student : ℕ) (input : CreateInput) (d : ℕ) (m : Money)
    → IsWired ports
    → Keeps HasCalendar (place ports tc student input d m)
unfolding place
place-IsCalendar ports tc student input d m wired w h =
    ground (arith, write-IsCalendar ports (params tc student input d m) wired w h)

-- Reading actions answer a value or an error, and change nothing.
abbrev pub Reads : {A : Type 0} → Action A → World → Type 0
Reads m w = ((a : _) × (m w ≡ (ok a, w))) ⊎ ((e : Error) × (m w ≡ (err e, w)))

pub lesson_duration-Reads : (input : CreateInput) (w : World) → Reads (lesson_duration input) w
unfolding lesson_duration
lesson_duration-Reads input w = elim (Bool-cases input.is_trial) [
  | inl t ↦ inl (trial_duration_minutes, ground (arith, t))
  | inr t ↦ elim (Bool-cases (allowed_duration input.duration_minutes)) [
    | inl a ↦ inl (input.duration_minutes, rw (t, a) refl)
    | inr a ↦ inr (invalid_request, rw (t, a) refl)
  ]
]

pub lesson_price-Reads :
    (input : CreateInput) (tc : TeacherContext) (d : ℕ) (w : World)
    → Reads (lesson_price input tc d) w
unfolding lesson_price
lesson_price-Reads input tc d w = elim (Bool-cases input.is_trial) [
  | inr t ↦ inl (hourly_price tc.price_per_hour_minor d tc.currency, ground (arith, t))
  | inl t ↦ elim (Option-cases tc.trial_price_minor) [
    | inl unset ↦ inr (invalid_request, ground (arith, t, unset))
    | inr (m, set) ↦
        inl (record { amount_minor = m; currency = tc.currency }, ground (arith, t, set))
  ]
]

-- With the gateway over the in-process provider, and where no two live lessons of one teacher or
-- of one student overlap, none do after a booking request, whatever it answers.
pub create-IsCalendar :
    (ports : Ports) (student : ℕ) (input : CreateInput) (w : World)
    → IsWired ports
    → IsCalendar w.bookings
    → IsCalendar (create ports student input w).1.bookings
unfolding create teacher_context_by_slug
create-IsCalendar ports student input w wired h =
    elim (Option-cases (find_slug input.teacher_slug w.teachers)) [
      | inl e ↦ ground (arith, e)
      | inr (tc, e) ↦ elim (lesson_duration-Reads input w) [
        | inr (x, no_d) ↦ ground (arith, e, no_d)
        | inl (d, got_d) ↦ elim (lesson_price-Reads input tc d w) [
          | inr (x, no_m) ↦ ground (arith, e, got_d, no_m)
          | inl (m, got_m) ↦
              ground (arith, e, got_d, got_m, place-IsCalendar ports tc student input d m wired w h)
        ]
      ]
    ]
