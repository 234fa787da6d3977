-- ===== src/Slots.antt =====
-- The slot generation of backend/internal/bookings/bookings.go: weekly spans are projected on UTC
-- days, merged to windows, and stepped to the bookable starts.
pub mod Windows
pub mod Scan
pub mod Order
pub mod Bookable
pub mod Agreement
mod Tests
pub mod Projection
use find_language_tutor.Prelude.{
  ℕ, zero, suc, ◌+◌, ◌-◌, ◌*◌, ◌/◌, Bool, true, false, ◌&&◌, ◌||◌, List, [], ◌∷◌, ◌++◌, ltb, leb,
  ◌==◌, if◌then◌else◌,
}
use find_language_tutor.Prelude.Sort.{sort_by}
use Prim.Native.String.{String}
use find_language_tutor.Clock.{second, minute, day, midnight, weekday}

pub record Span : Type 0 where
  pub weekday : ℕ
  pub start_minute : ℕ
  pub end_minute : ℕ

pub record Interval : Type 0 where
  pub start : ℕ
  pub end : ℕ

pub record Money : Type 0 where
  pub amount_minor : ℕ
  pub currency : String

pub record Slot : Type 0 where
  pub start_at : ℕ
  pub end_at : ℕ
  pub price : Money

pub record SlotQuery : Type 0 where
  pub from : ℕ
  pub to : ℕ
  pub duration_minutes : ℕ

abbrev pub slot_step_minutes : ℕ
slot_step_minutes = 30

-- The body of the loop over the days.
unfoldable pub project_day : ℕ → List Span → List Interval
project_day d [] = []
project_day d (s ∷ ss) =
    let rest = project_day d ss in
    if s.weekday == weekday d
    then record { start = d + s.start_minute * minute; end = d + s.end_minute * minute } ∷ rest
    else rest

-- `for d := day0; !d.After(dayN); d = d.AddDate(0, 0, 1)`.
unfoldable pub project_days : ℕ → ℕ → ℕ → List Span → List Interval
project_days zero d last spans = []
project_days (suc fuel) d last spans =
    let rest = project_days fuel (d + day) last spans in
    if ltb last d then [] else project_day d spans ++ rest

abbrev pub first_day : ℕ → ℕ
first_day from = midnight from - day

abbrev pub last_day : ℕ → ℕ
last_day to = midnight to + day

-- One round for each day, and one more for the test that ends the loop.
abbrev pub projection_fuel : ℕ → ℕ → ℕ
projection_fuel from to = suc (suc ((last_day to - first_day from) / day))

unfoldable pub project_spans : List Span → ℕ → ℕ → List Interval
unfolding project_days project_day
project_spans [] from to = []
project_spans (s ∷ ss) from to =
    project_days (projection_fuel from to) (first_day from) (last_day to) (s ∷ ss)

unfoldable pub extend : Interval → Interval → Interval
extend last iv = record last { end = if ltb last.end iv.end then iv.end else last.end }

-- `last` is the last window of `merged`; the windows before it are final.
unfoldable pub merge_from : Interval → List Interval → List Interval
unfolding extend
merge_from last [] = last ∷ []
merge_from last (iv ∷ ivs) = elim (leb iv.start last.end) [
  | true ↦ merge_from (extend last iv) ivs
  | false ↦ last ∷ merge_from iv ivs
]

unfoldable pub merge_sorted : List Interval → List Interval
unfolding merge_from
merge_sorted [] = []
merge_sorted (iv ∷ ivs) = merge_from iv ivs

unfoldable pub merge_intervals : List Interval → List Interval
unfolding sort_by merge_sorted
merge_intervals ivs = merge_sorted (sort_by (λ iv. iv.start) ivs)

unfoldable pub overlaps_any : ℕ → ℕ → List Interval → Bool
overlaps_any start end [] = false
overlaps_any start end (b ∷ bs) = (ltb start b.end && ltb b.start end) || overlaps_any start end bs

-- The map `seen`, as the list of its keys.
unfoldable pub contains : ℕ → List ℕ → Bool
contains k [] = false
contains k (x ∷ xs) = x == k || contains k xs

pub record Found : Type 0 where
  pub seen : List ℕ
  pub slots : List Slot

-- More rounds than a window has starts.
abbrev pub scan_fuel : Interval → ℕ
scan_fuel w = suc (suc ((w.end - w.start) / (slot_step_minutes * minute)))

module _ (booked : List Interval) (lower to dur : ℕ) (price : Money) where
  -- The body of the loop over the starts. `s.Unix()` is the number of seconds up to a constant.
  unfoldable pub visit : ℕ → Found → Found
  unfolding overlaps_any contains
  visit s acc =
      let e = s + dur in
      if ltb s lower || ltb to e
      then acc
      else (if overlaps_any s e booked
          then acc
          else (if contains (s / second) acc.seen then acc else record {
            seen = s / second ∷ acc.seen;
            slots = acc.slots ++ record { start_at = s; end_at = e; price = price } ∷ [];
          }))

  -- `for s := w.Start; !s.Add(dur).After(w.End); s = s.Add(step)`.
  unfoldable pub scan : ℕ → ℕ → ℕ → Found → Found
  unfolding visit
  scan zero s end acc = acc
  scan (suc fuel) s end acc = elim (leb (s + dur) end) [
    | true ↦ scan fuel (s + slot_step_minutes * minute) end (visit s acc)
    | false ↦ acc
  ]

  unfoldable pub scan_windows : List Interval → Found → Found
  unfolding scan
  scan_windows [] acc = acc
  scan_windows (w ∷ ws) acc = scan_windows ws (scan (scan_fuel w) w.start w.end acc)

abbrev pub later : ℕ → ℕ → ℕ
later now from = if ltb from now then now else from

-- `priceFn` is a constant function at each of its calls.
unfoldable pub generate_slots : List Span → List Interval → SlotQuery → Money → ℕ → List Slot
unfolding project_spans merge_intervals scan_windows sort_by
generate_slots spans booked q price now =
    let windows = merge_intervals (project_spans spans q.from q.to) in
    let found =
      scan_windows booked (later now q.from) q.to (q.duration_minutes * minute) price windows
        (record { seen = []; slots = [] }) in
    sort_by (λ sl. sl.start_at) found.slots

unfoldable pub has_start : ℕ → List Slot → Bool
has_start start [] = false
has_start start (x ∷ xs) = x.start_at == start || has_start start xs

abbrev pub no_price : Money
no_price = record { amount_minor = 0; currency = "" }

unfoldable pub is_bookable_start : List Span → List Interval → ℕ → ℕ → ℕ → Bool
unfolding generate_slots has_start
is_bookable_start spans booked start duration_minutes now =
    let q : SlotQuery = record {
      from = start;
      to = start + duration_minutes * minute;
      duration_minutes = duration_minutes;
    } in
    has_start start (generate_slots spans booked q no_price now)
