-- ===== src/Payouts/Earned.antt =====
-- From a completed lesson to the payout of its price.
use find_language_tutor.Prelude.{
  ℕ, not, ◌&&◌, ◌+◌, ◌*◌, ◌<◌, ◌≤◌, ◌≡◌, ◌≢◌, sym, ap, ◌∙◌, ◌⊎◌, inl, inr, refl, true, false, none,
  some, List, [], ◌∷◌, ◌++◌, map, arith, All, All-append, Bool-cases, ◌==◌,
}
use find_language_tutor.Clock.{day}
use find_language_tutor.Slots.{contains}
use find_language_tutor.Store.{
  World, Booking, confirmed, Payment, authorized, Hold, event_captured, LedgerRow, paid, Batch,
  find, find-snoc,
}
use find_language_tutor.Effect.{ok, err, nothing_to_pay}
use find_language_tutor.Payments.Events.{seen, ledger_booking_of}
use find_language_tutor.Payments.FakeProvider.{fails_first}
use find_language_tutor.Payments.MoneyPath.{event_of, HasHold}
use find_language_tutor.Payments.Outcome.{earned_row}
use find_language_tutor.Payouts.{is_payable, lock_payable, settle, run}
use find_language_tutor.Payouts.Settlement.{UniqueIds, is_taken, settled_row, run-IsSettled}
use find_language_tutor.Payouts.Accounting.{run-nothing}
use find_language_tutor.Bookings.Ports.{Ports}
use find_language_tutor.Bookings.Lifecycle.{complete}
use find_language_tutor.Bookings.Journey.{IsWired, HasLesson, complete_captures}

-- A run finds nothing, or makes a batch.
settle-cases :
    (w : World) (admin : ℕ) (rows : List LedgerRow)
    → (settle w admin rows ≡ (err nothing_to_pay, w))
      ⊎ ((b : Batch) × (w' : World) × (settle w admin rows ≡ (ok b, w')))
unfolding settle
settle-cases w admin [] = inl refl
settle-cases w admin (r ∷ rs) = inr (_, _, refl)

run-cases :
    (locked : List ℕ) (admin : ℕ) (w : World)
    → (run locked admin w ≡ (err nothing_to_pay, w))
      ⊎ ((b : Batch) × (w' : World) × (run locked admin w ≡ (ok b, w')))
unfolding run
run-cases locked admin w = settle-cases w admin (lock_payable w.now locked w.ledger)

-- A row that a query finds is not among rows that are all left.
some_taken :
    (now k : ℕ) (locked : List ℕ) (rs : List LedgerRow) (r : LedgerRow)
    → find ledger_booking_of k rs ≡ some r
    → is_taken now locked r ≡ true
    → All (λ x. is_taken now locked x ≡ false) rs
    → ⊥
unfolding find
some_taken now k locked [] r e t h = cc
some_taken now k locked (x ∷ rs) r e t h = elim (Bool-cases (x.booking_id == k)) [
  | inl m ↦ ground (arith, e, m, t, h.0)
  | inr m ↦ some_taken now k locked rs r (ground (arith, e, m)) t h.1
]

settled_row-booking :
    (now batch : ℕ) (locked : List ℕ) (r : LedgerRow)
    → (settled_row now locked batch r).booking_id ≡ r.booking_id
settled_row-booking now batch locked r = elim (Bool-cases (is_taken now locked r)) [
  | inl e ↦ rw e refl
  | inr e ↦ rw e refl
]

find-settled :
    (now batch k : ℕ) (locked : List ℕ) (rs : List LedgerRow) (r : LedgerRow)
    → find ledger_booking_of k rs ≡ some r
    → find ledger_booking_of k (map (settled_row now locked batch) rs)
      ≡ some (settled_row now locked batch r)
unfolding find
find-settled now batch k locked [] r e = cc
find-settled now batch k locked (x ∷ rs) r e = elim (Bool-cases (x.booking_id == k)) [
  | inl m ↦
      let first : x ≡ r = ground (arith, e, m) in
      rw (settled_row-booking now batch locked x, m, first)
  | inr m ↦
      rw (settled_row-booking now batch locked x, m)
        (find-settled now batch k locked rs r (ground (arith, e, m)))
]

-- The row of a booking was paid, in the batch.
abbrev pub IsPaidIn : Batch → ℕ → LedgerRow → World → Type 0
IsPaidIn b booking_id r w =
    find ledger_booking_of booking_id w.ledger
    ≡ some (record r { state = paid; payout_batch_id = b.id; paid_at = some w.now })

-- The row that a run takes is settled.
taken_settled :
    (now batch : ℕ) (locked : List ℕ) (r : LedgerRow)
    → is_taken now locked r ≡ true
    → settled_row now locked batch r
      ≡ record r { state = paid; payout_batch_id = batch; paid_at = some now }
taken_settled now batch locked r t = rw t refl

payable_taken : (now : ℕ) (r : LedgerRow) → is_payable now r ≡ true → is_taken now [] r ≡ true
unfolding contains
payable_taken now r p = ground (arith, p)

pays_found :
    (admin k : ℕ) (w : World) (r : LedgerRow)
    → UniqueIds w.ledger
    → find ledger_booking_of k w.ledger ≡ some r
    → is_payable w.now r ≡ true
    → (b : Batch) × (w' : World) × (run [] admin w ≡ (ok b, w')) × IsPaidIn b k r w'
pays_found admin k w r u e p =
    let taken = payable_taken w.now r p in
    elim (run-cases [] admin w) [
      | inl left ↦
          absurd (some_taken w.now k [] w.ledger r e taken ((run-nothing [] admin w).0 left))
      | inr (b, w', done) ↦
          let s = run-IsSettled [] admin w w' b u done in
          (
            b,
            w',
            done,
            rw (s.ledger, s.same_time)
                (find-settled w.now b.id k [] w.ledger r e
                  ∙ ap some (taken_settled w.now b.id [] r taken)),
          )
    ]

-- The new row of the ledger keeps the ids apart.
snoc-UniqueIds :
    (r : LedgerRow) (rs : List LedgerRow)
    → All (λ x. x.id ≢ r.id) rs
    → UniqueIds rs
    → UniqueIds (rs ++ r ∷ [])
snoc-UniqueIds r [] h u = (tt, tt)
snoc-UniqueIds r (x ∷ rs) h u = (
  All-append (λ y. y.id ≢ x.id) rs (r ∷ []) u.0 ((λ e. h.0 (sym e)), tt),
  snoc-UniqueIds r rs h.1 u.1,
)

-- Under the conditions of complete_captures, where the ids of the ledger's rows differ from one
-- another and from the next id: once the teacher has completed the lesson and the clearing window
-- has passed, the next payout run, if no other transaction hampers it, succeeds, and the row of the
-- lesson, over the paid amount, is paid to the teacher in its batch.
pub lesson_gets_paid :
    (ports : Ports) (w : World) (b : Booking) (p : Payment) (h : Hold) (admin later : ℕ)
    → IsWired ports
    → HasLesson w b p
    → b.status ≡ confirmed
    → b.teacher_owner_id ≢ 0
    → b.end_at < w.now
    → p.status ≡ authorized
    → HasHold w p h
    → (fails_first h.token && not (contains p.provider_ref w.tried)) ≡ false
    → seen (event_of p.provider_ref event_captured) w.events ≡ false
    → find ledger_booking_of b.id w.ledger ≡ none
    → UniqueIds w.ledger
    → All (λ x. x.id ≢ w.next_id) w.ledger
    → w.now + w.clearing_days * day ≤ later
    → let w1 = (complete ports b.teacher_owner_id b.id w).1 in
      (batch : Batch) × (w2 : World) × (run [] admin (record w1 { now = later }) ≡ (ok batch, w2))
      × IsPaidIn batch b.id (earned_row w p b) w2
unfolding is_payable
lesson_gets_paid ports w b p h admin later wired has conf owned ended auth hold passes new no_row
      unique fresh cleared =
    let row = earned_row w p b in
    let completes =
      complete_captures ports w b p h wired has conf owned ended auth hold passes new no_row in
    rw completes (
      pays_found admin b.id _ row (snoc-UniqueIds row w.ledger fresh unique)
        (ground (arith, no_row, find-snoc ledger_booking_of b.id w.ledger row))
        (ground (arith, cleared)))
