-- ===== src/Payouts.antt =====
-- backend/internal/payouts: what is owed, the totals, and the run that settles every cleared row of
-- the ledger in one transaction.
pub mod Settlement
pub mod Accounting
pub mod Earned
mod Tests
use Prim.Native.String.{String}
use find_language_tutor.Prelude.{
  ℕ, suc, ◌+◌, ◌-◌, ◌*◌, Bool, true, false, not, ◌&&◌, Option, none, some, List, [], ◌∷◌, ◌++◌, map,
  length, leb, ltb, ◌==◌, if◌then◌else◌,
}
use find_language_tutor.Prelude.Sort.{sort_by}
use find_language_tutor.Prelude.Words.{add64, mul64}
use find_language_tutor.Prelude.Int.{ℤ, pos, pos_part, ltb_ℤ}
use find_language_tutor.Slots.{contains}
use find_language_tutor.Store.{
  World, LedgerRow, LedgerState, held, available, paid, reversed, Batch, find,
}
use find_language_tutor.Effect.{
  Error, batch_not_found, nothing_to_pay, Result, ok, err, Action, or_raise, gets, ◌>>=◌,
}

abbrev pub is_open : LedgerState → Bool
is_open held = true
is_open available = true
is_open _ = false

abbrev pub is_paid : LedgerState → Bool
is_paid paid = true
is_paid _ = false

-- `state IN ('held', 'available') AND available_at <= now()`.
unfoldable pub is_payable : ℕ → LedgerRow → Bool
is_payable now r = is_open r.state && leb r.available_at now

-- The sum of a column over the rows that a FILTER keeps.
unfoldable pub sum_where : (LedgerRow → Bool) → List LedgerRow → ℕ
sum_where p [] = 0
sum_where p (r ∷ rs) = (if p r then r.amount.amount_minor else 0) + sum_where p rs

pub record Totals : Type 0 where
  pub available_total_minor : ℕ
  pub held_total_minor : ℕ
  pub paid_total_minor : ℕ

abbrev pub is_held : ℕ → LedgerRow → Bool
is_held now r = is_open r.state && ltb now r.available_at

abbrev pub is_settled : LedgerRow → Bool
is_settled r = is_paid r.state

-- AdminPayoutTotals, less the currency.
unfoldable pub totals : World → Totals
unfolding sum_where is_payable
totals w = record {
  available_total_minor = sum_where (is_payable w.now) w.ledger;
  held_total_minor = sum_where (is_held w.now) w.ledger;
  paid_total_minor = sum_where is_settled w.ledger;
}

-- LockPayablePayoutLedger: the payable rows that no other transaction holds, by their id.
unfoldable pub unlocked_payable : ℕ → List ℕ → List LedgerRow → List LedgerRow
unfolding is_payable contains
unlocked_payable now locked [] = []
unlocked_payable now locked (r ∷ rs) =
    let rest = unlocked_payable now locked rs in
    if is_payable now r && not (contains r.id locked) then r ∷ rest else rest

abbrev pub row_id : LedgerRow → ℕ
row_id r = r.id

unfoldable pub lock_payable : ℕ → List ℕ → List LedgerRow → List LedgerRow
unfolding unlocked_payable sort_by
lock_payable now locked rows = sort_by row_id (unlocked_payable now locked rows)

-- The variables of the loop over the payable rows.
pub record Tally : Type 0 where
  pub ids : List ℕ
  pub teachers : List ℕ
  pub total : ℕ

unfoldable pub tally_rows : List LedgerRow → Tally → Tally
unfolding add64 contains
tally_rows [] t = t
tally_rows (r ∷ rs) t = tally_rows rs (record {
  ids = t.ids ++ r.id ∷ [];
  teachers = if contains r.teacher_id t.teachers then t.teachers else r.teacher_id ∷ t.teachers;
  total = add64 t.total r.amount.amount_minor;
})

abbrev pub empty_tally : Tally
empty_tally = record { ids = []; teachers = []; total = 0 }

-- MarkLedgerRowsPaid: `id = ANY(ids) AND state <> 'paid'`.
unfoldable pub mark_paid : ℕ → ℕ → List ℕ → List LedgerRow → List LedgerRow
unfolding contains
mark_paid now batch ids [] = []
mark_paid now batch ids (r ∷ rs) =
    (if contains r.id ids && not (is_paid r.state)
      then record r { state = paid; payout_batch_id = batch; paid_at = some now }
      else r)
    ∷ mark_paid now batch ids rs

abbrev pub batch_of : World → ℕ → String → Tally → Batch
batch_of w admin currency t = record {
  id = w.next_id;
  created_by = admin;
  total_minor = t.total;
  currency = currency;
  teacher_count = length t.teachers;
  line_count = length t.ids;
  completed_at = w.now;
}

-- Run: `locked` are the ids of the ledger rows that other transactions hold.
unfoldable pub settle : World → ℕ → List LedgerRow → Result Batch × World
unfolding tally_rows mark_paid
settle w admin [] = (err nothing_to_pay, w)
settle w admin (r ∷ rs) =
    let t = tally_rows (r ∷ rs) empty_tally in
    let batch : Batch = batch_of w admin r.amount.currency t in
    (
      ok batch,
      record w {
        next_id = suc w.next_id;
        batches = batch ∷ w.batches;
        ledger = mark_paid w.now batch.id t.ids w.ledger;
      },
    )

unfoldable pub run : List ℕ → ℕ → Action Batch
unfolding lock_payable settle
run locked admin w = settle w admin (lock_payable w.now locked w.ledger)

-- normalizePage, with the same defaults here, in disputes and in the moderation of reviews.
abbrev pub default_page_size : ℕ
default_page_size = 20

abbrev pub max_page_size : ℕ
max_page_size = 100

-- The limit and the offset.
unfoldable pub normalize_page : ℤ → ℤ → ℕ × ℕ
unfolding mul64
normalize_page page page_size =
    let first = if ltb_ℤ page (pos 1) then 1 else pos_part page in
    let size = if ltb_ℤ (pos 0) page_size then pos_part page_size else default_page_size in
    let limit = if ltb max_page_size size then max_page_size else size in
    (limit, mul64 (first - 1) limit)
