-- ===== src/Availability/Laws.antt =====
-- Which weekly sets validateSlots accepts.
use find_language_tutor.Prelude.{
  ℕ, zero, suc, ◌%◌, ◌≤◌, ◌<◌, ◌≡◌, ◌≢◌, refl, subst, ◌↔◌, ◌⊎◌, inl, inr, true, none, List, [], ◌∷◌,
  length, arith, All, ltb, Bool-cases, Option-cases,
}
use find_language_tutor.Prelude.Int.{pos, pos_part, ◌≤ℤ◌, ◌<ℤ◌}
use find_language_tutor.Prelude.Sort.{
  insert_by, sort_by, All-sort_by, All-insert_by_of, All-sort_by_of,
}
use find_language_tutor.Availability.{
  WeeklySlot, check_slot, check_slots, by_day, start_of, neighbours_apart, day_apart, days_apart,
  validate_slots, slot_granularity_minutes,
}

-- The slot lies within one day of the week, on the quarter-hour grid.
pub record IsWellFormed (s : WeeklySlot) : Type 0 where
  pub weekday_low : pos 0 ≤ℤ s.weekday
  pub weekday_high : s.weekday ≤ℤ pos 6
  pub start_low : pos 0 ≤ℤ s.start_minute
  pub before : s.start_minute <ℤ s.end_minute
  pub end_high : s.end_minute ≤ℤ pos 1440
  pub start_grid : pos_part s.start_minute % slot_granularity_minutes ≡ 0
  pub end_grid : pos_part s.end_minute % slot_granularity_minutes ≡ 0

check_slot-IsWellFormed : (s : WeeklySlot) → check_slot s ≡ none → IsWellFormed s
unfolding check_slot
check_slot-IsWellFormed s h = ground arith

IsWellFormed-check_slot : (s : WeeklySlot) → IsWellFormed s → check_slot s ≡ none
unfolding check_slot
IsWellFormed-check_slot s h = ground arith

-- The first loop finds no error exactly when every slot is well formed.
check_slots-All : (ss : List WeeklySlot) → (check_slots ss ≡ none) ↔ All IsWellFormed ss
unfolding check_slots
check_slots-All [] = (λ h. tt, λ h. refl)
check_slots-All (s ∷ ss) =
    let ih = check_slots-All ss in
    (
      λ h. elim (Option-cases (check_slot s)) [
        | inl e ↦ (check_slot-IsWellFormed s e, ih.0 (ground (arith, e)))
        | inr e ↦ ground (arith, e.1)
      ],
      λ h. ground (arith, IsWellFormed-check_slot s h.0, ih.1 h.1),
    )

-- The slots do not overlap; they may touch.
abbrev pub Apart : WeeklySlot → WeeklySlot → Type 0
Apart x y = (x.end_minute ≤ℤ y.start_minute) ⊎ (y.end_minute ≤ℤ x.start_minute)

-- Slots of one weekday do not overlap.
abbrev pub ApartIfSameDay : WeeklySlot → WeeklySlot → Type 0
ApartIfSameDay x y = (pos_part x.weekday ≢ pos_part y.weekday) ⊎ Apart x y

-- Every two entries of the list are related.
abbrev pub Pairwise : (WeeklySlot → WeeklySlot → Type 0) → List WeeklySlot → Type 0
Pairwise R [] = Unit {0}
Pairwise R (x ∷ xs) = All (R x) xs × Pairwise R xs

after-Apart :
    (x y : WeeklySlot) (ss : List WeeklySlot)
    → IsWellFormed y
    → All IsWellFormed ss
    → x.end_minute ≤ℤ y.start_minute
    → neighbours_apart y ss ≡ true
    → All (Apart x) (y ∷ ss)
unfolding neighbours_apart
after-Apart x y [] good goods le h = (inl le, tt)
after-Apart x y (z ∷ ss) good goods le h =
    (inl le, after-Apart x z ss goods.0 goods.1 (ground arith) (ground arith))

neighbours_apart-Pairwise :
    (x : WeeklySlot) (ss : List WeeklySlot)
    → All IsWellFormed (x ∷ ss)
    → neighbours_apart x ss ≡ true
    → Pairwise Apart (x ∷ ss)
unfolding neighbours_apart
neighbours_apart-Pairwise x [] goods h = (tt, tt)
neighbours_apart-Pairwise x (y ∷ ss) goods h = (
  after-Apart x y ss goods.1.0 goods.1.1 (ground arith) (ground arith),
  neighbours_apart-Pairwise y ss goods.1 (ground arith),
)

Apart-sym : (x y : WeeklySlot) → Apart x y → Apart y x
Apart-sym x y (inl h) = inr h
Apart-sym x y (inr h) = inl h

Pairwise-insert_by :
    (key : WeeklySlot → ℕ) (a : WeeklySlot) (xs : List WeeklySlot)
    → Pairwise Apart (insert_by key a xs)
    → All (Apart a) xs × Pairwise Apart xs
unfolding insert_by
Pairwise-insert_by key a [] h = (tt, tt)
Pairwise-insert_by key a (x ∷ xs) h =
    ground (arith, Pairwise-insert_by key a xs, All-insert_by_of key (Apart x) a xs, Apart-sym x a)

Pairwise-sort_by :
    (key : WeeklySlot → ℕ) (xs : List WeeklySlot)
    → Pairwise Apart (sort_by key xs)
    → Pairwise Apart xs
unfolding sort_by
Pairwise-sort_by key [] h = tt
Pairwise-sort_by key (x ∷ xs) h =
    let step = Pairwise-insert_by key x (sort_by key xs) h in
    (All-sort_by_of key (Apart x) xs step.0, Pairwise-sort_by key xs step.1)

sorted_day-Pairwise :
    (ss : List WeeklySlot) → All IsWellFormed ss → day_apart ss ≡ true → Pairwise Apart ss
unfolding day_apart
sorted_day-Pairwise [] goods h = tt
sorted_day-Pairwise (s ∷ ss) goods h = neighbours_apart-Pairwise s ss goods h

day_apart-Pairwise :
    (ss : List WeeklySlot)
    → All IsWellFormed ss
    → day_apart (sort_by start_of ss) ≡ true
    → Pairwise Apart ss
day_apart-Pairwise ss goods h =
    let goods' = All-sort_by start_of IsWellFormed ss goods in
    Pairwise-sort_by start_of ss (sorted_day-Pairwise (sort_by start_of ss) goods' h)

by_day-All :
    (P : WeeklySlot → Type 0) (d : ℕ) (ss : List WeeklySlot) → All P ss → All P (by_day d ss)
unfolding by_day
by_day-All P d [] h = tt
by_day-All P d (s ∷ ss) h = ground (arith, by_day-All P d ss)

All-by_day :
    (x : WeeklySlot) (ss : List WeeklySlot)
    → All (Apart x) (by_day (pos_part x.weekday) ss)
    → All (ApartIfSameDay x) ss
unfolding by_day
All-by_day x [] h = tt
All-by_day x (s ∷ ss) h = ground (arith, All-by_day x ss)

weekday-lt : (s : WeeklySlot) → IsWellFormed s → pos_part s.weekday < 7
weekday-lt s good = ground arith

Pairwise-by_day :
    (ss : List WeeklySlot)
    → All IsWellFormed ss
    → ((d : ℕ) → d < 7 → Pairwise Apart (by_day d ss))
    → Pairwise ApartIfSameDay ss
unfolding by_day
Pairwise-by_day [] goods h = tt
Pairwise-by_day (s ∷ ss) goods h =
    let own = h (pos_part s.weekday) (weekday-lt s goods.0) in
    (All-by_day s ss (ground arith), Pairwise-by_day ss goods.1 (λ d lt. ground (arith, h d lt)))

days_apart-Pairwise :
    (n : ℕ) (ss : List WeeklySlot)
    → All IsWellFormed ss
    → days_apart n ss ≡ true
    → (d : ℕ) → d < n
    → Pairwise Apart (by_day d ss)
unfolding days_apart
days_apart-Pairwise zero ss goods h d lt = ground arith
days_apart-Pairwise (suc n) ss goods h d lt = elim (Bool-cases (ltb d n)) [
  | inl e ↦ days_apart-Pairwise n ss goods (ground arith) d (ground arith)
  | inr e ↦
      subst (λ k. Pairwise Apart (by_day k ss)) (ground arith)
        (day_apart-Pairwise (by_day n ss) (by_day-All IsWellFormed n ss goods) (ground arith))
]

-- An accepted set has at most a hundred slots; every one lies within one day of the week, on the
-- quarter-hour grid, with its start before its end; and no two slots of one weekday overlap.
pub validate_slots-IsSound :
    (ss : List WeeklySlot)
    → validate_slots ss ≡ none
    → (length ss ≤ 100) × All IsWellFormed ss × Pairwise ApartIfSameDay ss
unfolding validate_slots
validate_slots-IsSound ss h = elim (Option-cases (check_slots ss)) [
  | inl e ↦
      let goods = (check_slots-All ss).0 e in
      (
        ground arith,
        goods,
        Pairwise-by_day ss goods (λ d lt. days_apart-Pairwise 7 ss goods (ground (arith, e)) d lt),
      )
  | inr e ↦ ground (arith, e.1)
]
