-- ===== src/Bookings/Machine.antt =====
-- The states of a booking as an abstract machine, and the changes of the table that it allows.
use find_language_tutor.Prelude.{
  ℕ, ◌≡◌, ◌⊎◌, inl, inr, refl, sym, subst, ◌∙◌, Option, none, some, List, [], ◌∷◌, ◌++◌, arith,
  Bool-cases, Option-cases, ◌==◌,
}
use mathlib.Core.Option as Option
use find_language_tutor.Store.{
  Booking, BookingStatus, pending_payment, confirmed, completed, cancelled, find, modify,
  find-modify, find-snoc,
}
use find_language_tutor.Payments.Events.{booking_id_of, confirm, confirm_status}

-- What a booking that is not there, or is in a state, may become in one step.
pub data Edge : Option BookingStatus → Option BookingStatus → Type 0 where
  stays : (s : Option BookingStatus) → Edge s s
  opened : Edge none (some pending_payment)
  paid : Edge (some pending_payment) (some confirmed)
  taught : Edge (some confirmed) (some completed)
  dropped : Edge (some pending_payment) (some cancelled)
  called_off : Edge (some confirmed) (some cancelled)

-- The state of the booking with an id.
unfoldable pub status_of : ℕ → List Booking → Option BookingStatus
status_of id bs = Option.map (λ b. b.status) (find booking_id_of id bs)

-- One update of the table, as the service makes them.
pub data Change (bs bs' : List Booking) : Type 0 where
  confirming : (id : ℕ) → bs' ≡ modify booking_id_of id confirm bs → Change bs bs'
  completing :
      (id : ℕ) (b : Booking)
      → find booking_id_of id bs ≡ some b
      → b.status ≡ confirmed
      → bs' ≡ modify booking_id_of id (λ x. record x { status = completed }) bs
      → Change bs bs'
  cancelling :
      (id : ℕ) (b : Booking) (f : Booking → Booking)
      → find booking_id_of id bs ≡ some b
      → (b.status ≡ pending_payment) ⊎ (b.status ≡ confirmed)
      → ((x : Booking) → (f x).status ≡ cancelled)
      → ((x : Booking) → (f x).id ≡ x.id)
      → bs' ≡ modify booking_id_of id f bs
      → Change bs bs'
  touching :
      (id : ℕ) (f : Booking → Booking)
      → ((x : Booking) → (f x).status ≡ x.status)
      → ((x : Booking) → (f x).id ≡ x.id)
      → bs' ≡ modify booking_id_of id f bs
      → Change bs bs'
  adding : (b : Booking) → b.status ≡ pending_payment → bs' ≡ bs ++ b ∷ [] → Change bs bs'

-- Updates that change no status.
pub data Quiet (bs : List Booking) : List Booking → Type 0 where
  still : Quiet bs bs
  touched :
      {cs ds : List Booking} (id : ℕ) (f : Booking → Booking)
      → Quiet bs cs
      → ((x : Booking) → (f x).status ≡ x.status)
      → ((x : Booking) → (f x).id ≡ x.id)
      → ds ≡ modify booking_id_of id f cs
      → Quiet bs ds

-- The updates of one call: at most one of them, the last, changes a status.
pub data Changes (bs : List Booking) : List Booking → Type 0 where
  same : Changes bs bs
  more : {cs ds : List Booking} → Quiet bs cs → Change cs ds → Changes bs ds

confirm-Edge : (s : BookingStatus) → Edge (some s) (some (confirm_status s))
confirm-Edge pending_payment = paid
confirm-Edge confirmed = stays (some confirmed)
confirm-Edge completed = stays (some completed)
confirm-Edge cancelled = stays (some cancelled)

-- An update of the rows with an id, by what it does to a row.
modify-Edge :
    (i id : ℕ) (f : Booking → Booking) (bs : List Booking)
    → ((x : Booking) → (f x).id ≡ x.id)
    → ((x : Booking) → find booking_id_of id bs ≡ some x → Edge (some x.status) (some (f x).status))
    → Edge (status_of i bs) (status_of i (modify booking_id_of id f bs))
unfolding status_of
modify-Edge i id f bs keeps step = elim (Option-cases (find booking_id_of i bs)) [
  | inl e ↦
      let gone : find booking_id_of i (modify booking_id_of id f bs) ≡ none =
        ground (arith, e, find-modify booking_id_of i id f bs keeps) in
      rw (e, gone) (stays none)
  | inr (b, e) ↦ elim (Bool-cases (i == id)) [
    | inl k ↦
        let changed : find booking_id_of i (modify booking_id_of id f bs) ≡ some (f b) =
          ground (arith, e, k, find-modify booking_id_of i id f bs keeps) in
        let at : i ≡ id = ground (arith, k) in
        rw (e, changed) (step b (subst (λ j. find booking_id_of j bs ≡ some b) at e))
    | inr k ↦
        let kept : find booking_id_of i (modify booking_id_of id f bs) ≡ some b =
          ground (arith, e, k, find-modify booking_id_of i id f bs keeps) in
        rw (e, kept) (stays (some b.status))
  ]
]

adding-Edge :
    (i : ℕ) (b : Booking) (bs : List Booking)
    → b.status ≡ pending_payment
    → Edge (status_of i bs) (status_of i (bs ++ b ∷ []))
unfolding status_of
adding-Edge i b bs new = elim (Option-cases (find booking_id_of i bs)) [
  | inr (x, e) ↦
      let kept : find booking_id_of i (bs ++ b ∷ []) ≡ some x =
        ground (arith, e, find-snoc booking_id_of i bs b) in
      rw (e, kept) (stays (some x.status))
  | inl e ↦ elim (Bool-cases (b.id == i)) [
    | inl k ↦
        let found : find booking_id_of i (bs ++ b ∷ []) ≡ some b =
          ground (arith, e, k, find-snoc booking_id_of i bs b) in
        rw (e, found, new) opened
    | inr k ↦
        let none_found : find booking_id_of i (bs ++ b ∷ []) ≡ none =
          ground (arith, e, k, find-snoc booking_id_of i bs b) in
        rw (e, none_found) (stays none)
  ]
]

cancel-Edge :
    (s t : BookingStatus)
    → (s ≡ pending_payment) ⊎ (s ≡ confirmed)
    → t ≡ cancelled
    → Edge (some s) (some t)
cancel-Edge s t (inl e) k = rw (e, k) dropped
cancel-Edge s t (inr e) k = rw (e, k) called_off

-- The state of what a query found.
found_status :
    (b x : Booking) (id : ℕ) (bs : List Booking)
    → find booking_id_of id bs ≡ some b
    → find booking_id_of id bs ≡ some x
    → b.status ≡ x.status
found_status b x id bs e k = ground (arith, e, k)

-- Every update of the table is an edge of the machine, for every booking.
pub Change-Edge :
    (i : ℕ) {bs bs' : List Booking} → Change bs bs' → Edge (status_of i bs) (status_of i bs')
Change-Edge i {bs} (confirming id e) =
    rw e (modify-Edge i id confirm bs (λ x. refl) (λ x found. confirm-Edge x.status))
Change-Edge i {bs} (completing id b found done e) = rw e (
    modify-Edge i id (λ x. record x { status = completed }) bs (λ x. refl)
      (λ x at. rw (sym (found_status b x id bs found at), done) taught))
Change-Edge i {bs} (cancelling id b f found open_state ends keeps e) = rw e (
    modify-Edge i id f bs keeps (λ x at.
      cancel-Edge x.status (f x).status
        (subst (λ s. (s ≡ pending_payment) ⊎ (s ≡ confirmed)) (found_status b x id bs found at)
          open_state)
        (ends x)))
Change-Edge i {bs} (touching id f keeps_status keeps e) =
    rw e (modify-Edge i id f bs keeps (λ x at. rw (keeps_status x) (stays (some x.status))))
Change-Edge i {bs} (adding b new e) = rw e (adding-Edge i b bs new)

modify-status :
    (i id : ℕ) (f : Booking → Booking) (bs : List Booking)
    → ((x : Booking) → (f x).status ≡ x.status)
    → ((x : Booking) → (f x).id ≡ x.id)
    → status_of i (modify booking_id_of id f bs) ≡ status_of i bs
unfolding status_of find modify
modify-status i id f [] s k = refl
modify-status i id f (b ∷ bs) s k = ground (arith, modify-status i id f bs s k, s b, k b)

Quiet-status : (i : ℕ) {bs bs' : List Booking} → Quiet bs bs' → status_of i bs' ≡ status_of i bs
Quiet-status i still = refl
Quiet-status i (touched {cs = cs} id f q s k e) =
    rw e (modify-status i id f cs s k ∙ Quiet-status i q)

-- One call takes a booking along one edge at most.
pub Changes-Edge :
    (i : ℕ) {bs bs' : List Booking} → Changes bs bs' → Edge (status_of i bs) (status_of i bs')
Changes-Edge i {bs} same = stays (status_of i bs)
Changes-Edge i {bs} {bs'} (more q c) =
    subst (λ s. Edge s (status_of i bs')) (Quiet-status i q) (Change-Edge i c)
