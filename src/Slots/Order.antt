-- ===== src/Slots/Order.antt =====
-- The order of the slots that generateSlots returns.
use find_language_tutor.Prelude.{
  ℕ, ◌+◌, ◌*◌, ◌/◌, ◌≤◌, ◌<◌, ◌≡◌, ◌≢◌, true, false, ap, List, [], ◌∷◌, ◌++◌, arith, All, All-map,
  All-append, sym,
}
use find_language_tutor.Prelude.Sort.{
  insert_by, sort_by, Rising, Rising-All, sort_by-Rising, All-insert_by, All-sort_by,
}
use find_language_tutor.Clock.{second, minute}
use find_language_tutor.Slots.{
  Interval, Slot, Money, Found, Span, SlotQuery, contains, visit, scan, scan_fuel, scan_windows,
  merge_intervals, project_spans, later, generate_slots,
}
use find_language_tutor.Slots.Scan.{scan_inv}

abbrev start_at_of : Slot → ℕ
start_at_of sl = sl.start_at

abbrev Differs : ℕ → Slot → Type 0
Differs s sl = sl.start_at ≢ s

abbrev Distinct : List Slot → Type 0
Distinct [] = Unit {0}
Distinct (x ∷ xs) = All (Differs x.start_at) xs × Distinct xs

-- Each slot starts before every later one.
abbrev pub Increasing : List Slot → Type 0
Increasing [] = Unit {0}
Increasing (x ∷ xs) = All (λ y. x.start_at < y.start_at) xs × Increasing xs

Distinct-snoc :
    (x : Slot) (xs : List Slot)
    → Distinct xs
    → All (Differs x.start_at) xs
    → Distinct (xs ++ x ∷ [])
Distinct-snoc x [] d h = (tt, tt)
Distinct-snoc x (y ∷ ys) d h = (
  All-append (Differs y.start_at) ys (x ∷ []) d.0 ((λ e. h.0 (sym e)), tt),
  Distinct-snoc x ys d.1 h.1,
)

abbrev KeySeen : List ℕ → Slot → Type 0
KeySeen seen sl = contains (sl.start_at / second) seen ≡ true

-- What the loop keeps: the slots differ, and their keys are in `seen`.
abbrev IsTracked : Found → Type 0
IsTracked acc = Distinct acc.slots × All (KeySeen acc.seen) acc.slots

contains-cons : (k x : ℕ) (xs : List ℕ) → contains k xs ≡ true → contains k (x ∷ xs) ≡ true
unfolding contains
contains-cons k x xs h = ground arith

contains_self : (k : ℕ) (xs : List ℕ) → contains k (k ∷ xs) ≡ true
unfolding contains
contains_self k xs = ground arith

Differs-of_unseen :
    (s : ℕ) (seen : List ℕ) (xs : List Slot)
    → contains (s / second) seen ≡ false
    → All (KeySeen seen) xs
    → All (Differs s) xs
Differs-of_unseen s seen xs h =
    All-map (KeySeen seen) (Differs s) xs
      (λ x k e. cc (ap (λ (t : ℕ). contains (t / second) seen) e))

module _ (booked : List Interval) (lower to dur : ℕ) (price : Money) where
  abbrev slot_at : ℕ → Slot
  slot_at s = record { start_at = s; end_at = s + dur; price = price }

  visit-IsTracked :
      (s : ℕ) (acc : Found) → IsTracked acc → IsTracked (visit booked lower to dur price s acc)
  unfolding visit
  visit-IsTracked s acc h = ground (
    arith,
    Distinct-snoc (slot_at s) acc.slots h.0,
    Differs-of_unseen s acc.seen acc.slots,
    All-append (KeySeen (s / second ∷ acc.seen)) acc.slots (slot_at s ∷ [])
        (All-map (KeySeen acc.seen) (KeySeen (s / second ∷ acc.seen)) acc.slots
          (λ x. contains-cons (x.start_at / second) (s / second) acc.seen) h.1)
        (contains_self (s / second) acc.seen, tt),
  )

  scan_windows-IsTracked :
      (ws : List Interval) (acc : Found)
      → IsTracked acc
      → IsTracked (scan_windows booked lower to dur price ws acc)
  unfolding scan_windows
  scan_windows-IsTracked [] acc h = h
  scan_windows-IsTracked (w ∷ ws) acc h =
      scan_windows-IsTracked ws (scan booked lower to dur price (scan_fuel w) w.start w.end acc) (
        scan_inv booked lower to dur price (λ _. Unit {0}) IsTracked w.end (λ _ _. tt)
          (λ s a _ _. visit-IsTracked s a) (scan_fuel w) w.start acc tt h)

insert_by-Distinct :
    (a : Slot) (xs : List Slot)
    → All (Differs a.start_at) xs
    → Distinct xs
    → Distinct (insert_by start_at_of a xs)
unfolding insert_by
insert_by-Distinct a [] h d = (tt, tt)
insert_by-Distinct a (x ∷ xs) h d = ground (
  arith,
  insert_by-Distinct a xs h.1 d.1,
  All-insert_by start_at_of (Differs x.start_at) a xs (λ e. h.0 (sym e)) d.0,
)

sort_by-Distinct : (xs : List Slot) → Distinct xs → Distinct (sort_by start_at_of xs)
unfolding sort_by
sort_by-Distinct [] d = tt
sort_by-Distinct (x ∷ xs) d =
    insert_by-Distinct x (sort_by start_at_of xs)
      (All-sort_by start_at_of (Differs x.start_at) xs d.0) (sort_by-Distinct xs d.1)

Increasing-of_Rising :
    (low : ℕ) (xs : List Slot) → Rising start_at_of low xs → Distinct xs → Increasing xs
Increasing-of_Rising low [] r d = tt
Increasing-of_Rising low (x ∷ xs) r d = (
  less xs (Rising-All start_at_of x.start_at xs r.1) d.0,
  Increasing-of_Rising x.start_at xs r.1 d.1,
)
  where
    less :
        (ys : List Slot)
        → All (λ y. x.start_at ≤ y.start_at) ys
        → All (Differs x.start_at) ys
        → All (λ y. x.start_at < y.start_at) ys
    less [] h k = tt
    less (y ∷ ys) h k = (omega arith, less ys h.1 k.1)

-- The slots are returned in the order of their starts, and no start is returned twice, whatever
-- the spans, the bookings, the query and the time.
pub generate_slots-Increasing :
    (spans : List Span) (booked : List Interval) (q : SlotQuery) (price : Money) (now : ℕ)
    → Increasing (generate_slots spans booked q price now)
unfolding generate_slots
generate_slots-Increasing spans booked q price now =
    let found : Found =
      scan_windows booked (later now q.from) q.to (q.duration_minutes * minute) price
        (merge_intervals (project_spans spans q.from q.to)) (record { seen = []; slots = [] }) in
    let tracked =
      scan_windows-IsTracked booked (later now q.from) q.to (q.duration_minutes * minute) price
        (merge_intervals (project_spans spans q.from q.to)) (record { seen = []; slots = [] })
        (tt, tt) in
    Increasing-of_Rising 0 (sort_by start_at_of found.slots)
      (sort_by-Rising start_at_of found.slots) (sort_by-Distinct found.slots tracked.0)
