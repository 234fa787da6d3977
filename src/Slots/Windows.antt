-- ===== src/Slots/Windows.antt =====
-- The windows of mergeIntervals: they cover what the intervals cover, in order and apart.
use native.Mathlib.Decide.{dec_le}
use find_language_tutor.Prelude.{
  ℕ, ◌≤◌, ◌<◌, ◌≡◌, ◌↔◌, ◌⊎◌, inl, inr, List, [], ◌∷◌, arith, Any, le→leb, lt→leb,
}
use find_language_tutor.Prelude.Sort.{Rising, Rising-mono, sort_by, sort_by-Rising, Any-sort_by}
use find_language_tutor.Slots.{Interval, extend, merge_from, merge_sorted, merge_intervals}

abbrev pub Within : ℕ → Interval → Type 0
Within t iv = (iv.start ≤ t) × (t < iv.end)

-- The instant lies in one of the intervals.
abbrev pub Covered : ℕ → List Interval → Type 0
Covered t = Any (Within t)

abbrev pub start_of : Interval → ℕ
start_of iv = iv.start

abbrev pub Ascending : ℕ → List Interval → Type 0
Ascending = Rising start_of

-- Each window begins after the end of the one before it, the first after `e`.
abbrev pub Apart : ℕ → List Interval → Type 0
Apart e [] = Unit {0}
Apart e (w ∷ ws) = (e < w.start) × Apart w.end ws

abbrev pub Separated : List Interval → Type 0
Separated [] = Unit {0}
Separated (w ∷ ws) = Apart w.end ws

merge_from_join :
    (last iv : Interval) (ivs : List Interval)
    → iv.start ≤ last.end
    → merge_from last (iv ∷ ivs) ≡ merge_from (extend last iv) ivs
unfolding merge_from
merge_from_join last iv ivs h = rw (le→leb _ _ h, merge_from)

merge_from_gap :
    (last iv : Interval) (ivs : List Interval)
    → last.end < iv.start
    → merge_from last (iv ∷ ivs) ≡ last ∷ merge_from iv ivs
unfolding merge_from
merge_from_gap last iv ivs h = rw (lt→leb _ _ h, merge_from)

module _ (t : ℕ) where
  extend-Within :
      (last iv : Interval)
      → last.start ≤ iv.start
      → iv.start ≤ last.end
      → Within t (extend last iv) ↔ Within t last ⊎ Within t iv
  unfolding extend
  extend-Within last iv h k = (λ w. ground arith, λ w. ground arith)

  Covered-merge_from :
      (last : Interval) (ivs : List Interval)
      → Ascending last.start ivs
      → Covered t (merge_from last ivs) ↔ Covered t (last ∷ ivs)
  unfolding extend
  Covered-merge_from last [] r = unfold merge_from in (λ h. h, λ h. h)
  Covered-merge_from last (iv ∷ ivs) r = elim (dec_le iv.start last.end) [
    | yes near ↦
        let same = extend-Within last iv r.0 near in
        let ih =
          Covered-merge_from (extend last iv) ivs
            (Rising-mono start_of last.start iv.start ivs r.0 r.1) in
        rw (merge_from_join last iv ivs near) (
          λ h. elim (ih.0 h) [
            | inl w ↦ elim (same.0 w) [ inl l ↦ inl l | inr m ↦ inr (inl m) ]
            | inr c ↦ inr (inr c)
          ],
          λ h. ih.1 (elim h [
            | inl l ↦ inl (same.1 (inl l))
            | inr (inl m) ↦ inl (same.1 (inr m))
            | inr (inr c) ↦ inr c
          ]),
        )
    | no far ↦
        let ih = Covered-merge_from iv ivs r.1 in
        rw (merge_from_gap last iv ivs (omega arith)) (
          λ h. elim h [ inl l ↦ inl l | inr c ↦ inr (ih.0 c) ],
          λ h. elim h [ inl l ↦ inl l | inr c ↦ inr (ih.1 c) ],
        )
  ]

  merge_sorted-Covered :
      (ivs : List Interval) → Ascending 0 ivs → Covered t (merge_sorted ivs) ↔ Covered t ivs
  unfolding merge_sorted
  merge_sorted-Covered [] r = (λ h. h, λ h. h)
  merge_sorted-Covered (iv ∷ ivs) r = Covered-merge_from iv ivs r.1

merge_from-Apart :
    (e : ℕ) (last : Interval) (ivs : List Interval) → e < last.start → Apart e (merge_from last ivs)
unfolding merge_from
merge_from-Apart e last [] h = (h, tt)
merge_from-Apart e last (iv ∷ ivs) h =
    ground (arith, merge_from-Apart e (extend last iv) ivs, merge_from-Apart last.end iv ivs)

merge_from-Separated : (last : Interval) (ivs : List Interval) → Separated (merge_from last ivs)
unfolding merge_from
merge_from-Separated last [] = tt
merge_from-Separated last (iv ∷ ivs) =
    ground (arith, merge_from-Separated (extend last iv) ivs, merge_from-Apart last.end iv ivs)

merge_sorted-Separated : (ivs : List Interval) → Separated (merge_sorted ivs)
unfolding merge_sorted
merge_sorted-Separated [] = tt
merge_sorted-Separated (iv ∷ ivs) = merge_from-Separated iv ivs

-- Merging neither adds nor loses an instant: an instant lies in a merged window exactly when it
-- lies in one of the given intervals, in whatever order these come and however they overlap.
pub merge_intervals-Covered :
    (t : ℕ) (ivs : List Interval) → Covered t (merge_intervals ivs) ↔ Covered t ivs
unfolding merge_intervals
merge_intervals-Covered t ivs =
    let sorted = merge_sorted-Covered t (sort_by start_of ivs) (sort_by-Rising start_of ivs) in
    let same = Any-sort_by start_of (Within t) ivs in
    (λ h. same.0 (sorted.0 h), λ h. sorted.1 (same.1 h))

-- The merged windows are in order, and between one and the next there is a gap: no two of them
-- overlap or touch.
pub merge_intervals-Separated : (ivs : List Interval) → Separated (merge_intervals ivs)
unfolding merge_intervals
merge_intervals-Separated ivs = merge_sorted-Separated (sort_by start_of ivs)
