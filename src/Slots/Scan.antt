-- ===== src/Slots/Scan.antt =====
-- The scan of the windows in generateSlots: which starts it records.
use find_language_tutor.Prelude.{
  ℕ, zero, suc, ◌+◌, ◌*◌, ◌/◌, ◌%◌, ◌≤◌, ◌<◌, ◌≡◌, refl, subst, sym, ◌⊎◌, inl, inr, true, false,
  List, [], ◌∷◌, arith, All, Any, All-append, Any-append_left, Any-append_right, le→leb, lt→leb,
}
use native.Mathlib.Decide.{dec_le}
use find_language_tutor.Clock.{second, minute}
use find_language_tutor.Slots.{
  Interval, Slot, Money, Found, slot_step_minutes, overlaps_any, contains, visit, scan, scan_fuel,
  scan_windows,
}

-- The lesson [s, e) meets none of the booked intervals.
abbrev pub Free : ℕ → ℕ → List Interval → Type 0
Free s e = All λ b. (b.end ≤ s) ⊎ (e ≤ b.start)

pub Free-overlaps_any :
    (s e : ℕ) (booked : List Interval) → overlaps_any s e booked ≡ false → Free s e booked
unfolding overlaps_any
Free-overlaps_any s e [] h = tt
Free-overlaps_any s e (b ∷ bs) h = ground (arith, Free-overlaps_any s e bs)

pub overlaps_any-Free :
    (s e : ℕ) (booked : List Interval) → Free s e booked → overlaps_any s e booked ≡ false
unfolding overlaps_any
overlaps_any-Free s e [] h = refl
overlaps_any-Free s e (b ∷ bs) h = ground (arith, overlaps_any-Free s e bs)

-- `s` stands on the grid of the window, and the lesson that begins there fits into it.
abbrev pub Fits : ℕ → ℕ → Interval → Type 0
Fits dur s w = ((k : ℕ) × (s ≡ w.start + k * (slot_step_minutes * minute))) × (s + dur ≤ w.end)

abbrev pub StartsAt : ℕ → Slot → Type 0
StartsAt s sl = sl.start_at ≡ s

-- The instant is a whole number of seconds.
abbrev pub OnSecond : ℕ → Type 0
OnSecond s = s % second ≡ 0

module _ (booked : List Interval) (lower to dur : ℕ) (price : Money) where
  -- The conditions on a start apart from the windows.
  abbrev pub Admissible : ℕ → Type 0
  Admissible s = (lower ≤ s) × (s + dur ≤ to) × Free s (s + dur) booked

  -- A seen key stands for a recorded slot.
  abbrev pub Recorded : Found → Type 0
  Recorded acc =
      (s : ℕ) → OnSecond s → contains (s / second) acc.seen ≡ true → Any (StartsAt s) acc.slots

  -- The slot that a visit records.
  abbrev slot_at : ℕ → Slot
  slot_at s = record { start_at = s; end_at = s + dur; price = price }

  -- The rule for the loop: `G` holds of the starts, `P` of what was found.
  pub scan_inv :
      (G : ℕ → Type 0) (P : Found → Type 0) (end : ℕ)
      → ((s : ℕ) → G s → G (s + slot_step_minutes * minute))
      → ((s : ℕ) (acc : Found)
          → G s
          → s + dur ≤ end
          → P acc
          → P (visit booked lower to dur price s acc))
      → (fuel s : ℕ) (acc : Found) → G s
      → P acc
      → P (scan booked lower to dur price fuel s end acc)
  unfolding scan
  scan_inv G P end grid keep zero s acc g h = h
  scan_inv G P end grid keep (suc fuel) s acc g h = elim (dec_le (s + dur) end) [
    | yes p ↦
        rw (le→leb _ _ p, scan)
          (scan_inv G P end grid keep fuel (s + slot_step_minutes * minute)
            (visit booked lower to dur price s acc) (grid s g) (keep s acc g p h))
    | no p ↦ rw (lt→leb (s + dur) end (omega arith), scan) h
  ]

  module _ (P : Slot → Type 0) where
    visit-keeps :
        (s : ℕ) (acc : Found)
        → Any P acc.slots
        → Any P (visit booked lower to dur price s acc).slots
    unfolding visit
    visit-keeps s acc h = ground (arith, Any-append_left P acc.slots (slot_at s ∷ []) h)

    scan-keeps :
        (fuel s end : ℕ) (acc : Found)
        → Any P acc.slots
        → Any P (scan booked lower to dur price fuel s end acc).slots
    scan-keeps fuel s end acc h =
        scan_inv (λ _. Unit {0}) (λ a. Any P a.slots) end (λ _ _. tt) (λ s' a _ _. visit-keeps s' a)
          fuel s acc tt h

    scan_windows-keeps :
        (ws : List Interval) (acc : Found)
        → Any P acc.slots
        → Any P (scan_windows booked lower to dur price ws acc).slots
    unfolding scan_windows
    scan_windows-keeps [] acc h = h
    scan_windows-keeps (w ∷ ws) acc h =
        scan_windows-keeps ws (scan booked lower to dur price (scan_fuel w) w.start w.end acc)
          (scan-keeps (scan_fuel w) w.start w.end acc h)

  visit-Recorded :
      (s : ℕ) (acc : Found)
      → OnSecond s
      → Recorded acc
      → Recorded (visit booked lower to dur price s acc)
  unfolding visit
  visit-Recorded s acc g r t a e = ground (
    arith,
    r t a,
    Any-append_left (StartsAt t) acc.slots (slot_at s ∷ []),
    Any-append_right (StartsAt t) acc.slots (slot_at s ∷ []),
  )

  visit-hits :
      (s : ℕ) (acc : Found)
      → OnSecond s
      → Recorded acc
      → Admissible s
      → Any (StartsAt s) (visit booked lower to dur price s acc).slots
  unfolding visit
  visit-hits s acc g r h = ground (
    arith,
    r s g,
    overlaps_any-Free s (s + dur) booked h.2,
    Any-append_right (StartsAt s) acc.slots (slot_at s ∷ []),
  )

  scan-Recorded :
      (fuel s end : ℕ) (acc : Found)
      → OnSecond s
      → Recorded acc
      → Recorded (scan booked lower to dur price fuel s end acc)
  scan-Recorded fuel s end acc =
      scan_inv OnSecond Recorded end (λ _ g. omega arith) (λ s' a g _. visit-Recorded s' a g) fuel s
        acc

  -- Enough fuel reaches every start of the window.
  scan-hits :
      (fuel k t s end : ℕ) (acc : Found)
      → k < fuel
      → t ≡ s + k * (slot_step_minutes * minute)
      → OnSecond s
      → Recorded acc
      → t + dur ≤ end
      → Admissible t
      → Any (StartsAt t) (scan booked lower to dur price fuel s end acc).slots
  unfolding scan
  scan-hits zero k t s end acc lt e g r fits h = absurd (omega arith)
  scan-hits (suc fuel) zero t s end acc lt e g r fits h =
      let same : s ≡ t = omega arith in
      rw (le→leb (s + dur) end (omega arith), scan)
        (scan-keeps (StartsAt t) fuel (s + slot_step_minutes * minute) end
          (visit booked lower to dur price s acc)
          (subst (λ x. Any (StartsAt t) (visit booked lower to dur price x acc).slots) (sym same)
            (visit-hits t acc (subst OnSecond same g) r h)))
  scan-hits (suc fuel) (suc k) t s end acc lt e g r fits h =
      rw (le→leb (s + dur) end (omega arith), scan)
        (scan-hits fuel k t (s + slot_step_minutes * minute) end
          (visit booked lower to dur price s acc) (omega arith) (omega arith) (omega arith)
          (visit-Recorded s acc g r) fits h)

  pub scan_windows-hits :
      (t : ℕ) (ws : List Interval) (acc : Found)
      → All (λ w. OnSecond w.start) ws
      → Recorded acc
      → Admissible t
      → Any (Fits dur t) ws
      → Any (StartsAt t) (scan_windows booked lower to dur price ws acc).slots
  unfolding scan_windows
  scan_windows-hits t [] acc g r h m = absurd m
  scan_windows-hits t (w ∷ ws) acc g r h (inl ((k, e), fits)) =
      scan_windows-keeps (StartsAt t) ws _
        (scan-hits (scan_fuel w) k t w.start w.end acc (omega arith) e g.0 r fits h)
  scan_windows-hits t (w ∷ ws) acc g r h (inr m) =
      scan_windows-hits t ws (scan booked lower to dur price (scan_fuel w) w.start w.end acc) g.1
        (scan-Recorded (scan_fuel w) w.start w.end acc g.0 r) h m

  -- What is known of a recorded slot; `M` says where its start comes from.
  abbrev pub IsOffered : (ℕ → Type 0) → Slot → Type 0
  IsOffered M sl =
      M sl.start_at × Admissible sl.start_at × (sl.end_at ≡ sl.start_at + dur) × (sl.price ≡ price)

  module _ (M : ℕ → Type 0) where
    visit-IsOffered :
        (s : ℕ) (acc : Found)
        → M s
        → All (IsOffered M) acc.slots
        → All (IsOffered M) (visit booked lower to dur price s acc).slots
    unfolding visit
    visit-IsOffered s acc m h = ground (
      arith,
      All-append (IsOffered M) acc.slots (slot_at s ∷ []) h,
      Free-overlaps_any s (s + dur) booked,
    )

    pub scan_windows-IsOffered :
        (ws : List Interval) (acc : Found)
        → ((t : ℕ) → Any (Fits dur t) ws → M t)
        → All (IsOffered M) acc.slots
        → All (IsOffered M) (scan_windows booked lower to dur price ws acc).slots
    unfolding scan_windows
    scan_windows-IsOffered [] acc sub h = h
    scan_windows-IsOffered (w ∷ ws) acc sub h =
        scan_windows-IsOffered ws (scan booked lower to dur price (scan_fuel w) w.start w.end acc)
          (λ t m. sub t (inr m))
          (scan_inv (λ s. (k : ℕ) × (s ≡ w.start + k * (slot_step_minutes * minute)))
            (λ a. All (IsOffered M) a.slots) w.end (λ s (k, e). (suc k, omega arith))
            (λ s a g fits. visit-IsOffered s a (sub s (inl (g, fits)))) (scan_fuel w) w.start acc
            (0, omega arith) h)
