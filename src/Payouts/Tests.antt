-- ===== src/Payouts/Tests.antt =====
-- The theorems on payout runs at a small ledger.
use find_language_tutor.Prelude.{◌+◌, ◌*◌, ◌≡◌, refl, List, [], ◌∷◌, arith}
use find_language_tutor.Clock.{day}
use find_language_tutor.Slots.{contains}
use find_language_tutor.Store.{
  World, LedgerRow, held, paid, Batch, confirmed, completed, authorized, captured, find,
}
use find_language_tutor.Effect.{ok, err, nothing_to_pay}
use find_language_tutor.Samples.{intent, earning, world_of, lesson, sunday, first_hold, all_ports}
use find_language_tutor.Payments.Events.{seen}
use find_language_tutor.Payments.Outcome.{earned_row}
use find_language_tutor.Bookings.Lifecycle.{complete}
use find_language_tutor.Payouts.Earned.{IsPaidIn, lesson_gets_paid}
use find_language_tutor.Payouts.{totals, run}
use find_language_tutor.Payouts.Settlement.{UniqueIds, taken_sum, IsSettled, run-IsSettled}
use find_language_tutor.Payouts.Accounting.{run-totals, run_twice}

-- Two cleared rows, one that is not, and one that was paid.
abbrev rows : List LedgerRow
rows =
    earning 4 4000 held 50
    ∷ earning 2 2500 held 60
    ∷ earning 3 9000 held 5000
    ∷ earning 1 800 paid 10
    ∷ []

abbrev owing : World
owing = world_of 100 completed (intent 1 captured) 1 [] rows

abbrev batch : Batch
batch = record {
  id = 100;
  created_by = 3;
  total_minor = 6500;
  currency = "UZS";
  teacher_count = 1;
  line_count = 2;
  completed_at = 100;
}

abbrev settled : World
settled = (run [] 3 owing).1

unique : UniqueIds rows
unique = (
  (omega arith, (omega arith, (omega arith, tt))),
  ((omega arith, (omega arith, tt)), ((omega arith, tt), (tt, tt))),
)

run-IsSettled_example : IsSettled [] 3 owing batch settled
unfolding run
run-IsSettled_example = run-IsSettled [] 3 owing settled batch unique refl

run-totals_example :
    ((totals settled).available_total_minor + taken_sum 100 [] rows
      ≡ (totals owing).available_total_minor)
    × ((totals settled).paid_total_minor ≡ (totals owing).paid_total_minor + taken_sum 100 [] rows)
    × ((totals settled).held_total_minor ≡ (totals owing).held_total_minor)
unfolding run
run-totals_example = run-totals [] 3 owing settled batch unique refl

run_twice_example : run [] 8 settled ≡ (err nothing_to_pay, settled)
unfolding run
run_twice_example = run_twice 3 8 owing settled batch unique refl

-- A lesson that was paid, after its end, in an empty ledger.
abbrev taught : World
taught = world_of (sunday + day) confirmed (intent 1 authorized) 1 (first_hold ∷ []) []

abbrev after_clearing : World
after_clearing = record (complete all_ports 20 1 taught).1 { now = sunday + 30 * day }

lesson_gets_paid_example :
    (b : Batch) × (w : World) × (run [] 3 after_clearing ≡ (ok b, w))
    × IsPaidIn b 1 (earned_row taught (intent 1 authorized) (lesson confirmed)) w
unfolding seen find contains
lesson_gets_paid_example =
    lesson_gets_paid all_ports taught (lesson confirmed) (intent 1 authorized) first_hold 3
      (sunday + 30 * day) refl
      (record {
        in_bookings = refl;
        intent = record { by_booking = refl; by_id = refl; not_nil = omega arith };
        same_booking = refl;
      })
      refl (omega arith) (omega arith) refl (record { known = refl; owner = refl }) refl refl refl
      tt tt (omega arith)
