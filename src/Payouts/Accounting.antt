-- ===== src/Payouts/Accounting.antt =====
-- Runs against the totals of the dashboard, against one another, and against the teacher's view.
use find_language_tutor.Prelude.{
  ℕ, ◌+◌, ◌≡◌, refl, ◌↔◌, true, false, List, [], ◌∷◌, map, arith, All,
}
use find_language_tutor.Prelude.Sort.{sort_by, insert_by}
use find_language_tutor.Slots.{contains}
use find_language_tutor.Store.{World, LedgerRow, available, Batch}
use find_language_tutor.Effect.{nothing_to_pay, ok, err}
use find_language_tutor.Payments.Earnings.{effective_state}
use find_language_tutor.Payouts.{
  is_payable, sum_where, is_held, is_settled, totals, unlocked_payable, row_id, lock_payable,
  settle, run,
}
use find_language_tutor.Payouts.Settlement.{
  UniqueIds, is_taken, settled_row, taken_sum, run-IsSettled,
}

module _ (now : ℕ) (locked : List ℕ) (batch : ℕ) where
  available-settled :
      (rs : List LedgerRow)
      → sum_where (is_payable now) (map (settled_row now locked batch) rs) + taken_sum now locked rs
        ≡ sum_where (is_payable now) rs
  unfolding sum_where is_payable
  available-settled [] = omega arith
  available-settled (r ∷ rs) = ground (arith, available-settled rs)

  held-settled :
      (rs : List LedgerRow)
      → sum_where (is_held now) (map (settled_row now locked batch) rs) ≡ sum_where (is_held now) rs
  unfolding sum_where is_payable
  held-settled [] = refl
  held-settled (r ∷ rs) = ground (arith, held-settled rs)

  paid-settled :
      (rs : List LedgerRow)
      → sum_where is_settled (map (settled_row now locked batch) rs)
        ≡ sum_where is_settled rs + taken_sum now locked rs
  unfolding sum_where is_payable
  paid-settled [] = omega arith
  paid-settled (r ∷ rs) = ground (arith, paid-settled rs)

-- Where the ids of the ledger's rows differ, a successful run moves the settled amount from the
-- available total to the paid total of the dashboard, and leaves the held total alone.
pub run-totals :
    (locked : List ℕ) (admin : ℕ) (w w' : World) (b : Batch)
    → UniqueIds w.ledger
    → run locked admin w ≡ (ok b, w')
    → let s = taken_sum w.now locked w.ledger in
      let t = totals w in
      let t' = totals w' in
      (t'.available_total_minor + s ≡ t.available_total_minor)
      × (t'.paid_total_minor ≡ t.paid_total_minor + s)
      × (t'.held_total_minor ≡ t.held_total_minor)
unfolding totals
run-totals locked admin w w' b u h =
    let done = run-IsSettled locked admin w w' b u h in
    rw (done.ledger, done.same_time)
      (
        available-settled w.now locked b.id w.ledger,
        paid-settled w.now locked b.id w.ledger,
        held-settled w.now locked b.id w.ledger,
      )

insert_by-ne-nil : (r : LedgerRow) (rs : List LedgerRow) → insert_by row_id r rs ≡ [] → ⊥
unfolding insert_by
insert_by-ne-nil r [] h = cc
insert_by-ne-nil r (x ∷ xs) h = ground arith

sort_by-nil : (rs : List LedgerRow) → (sort_by row_id rs ≡ []) ↔ (rs ≡ [])
unfolding sort_by
sort_by-nil [] = (λ h. refl, λ h. refl)
sort_by-nil (r ∷ rs) = (λ h. absurd (insert_by-ne-nil r (sort_by row_id rs) h), λ h. cc)

none_taken :
    (now : ℕ) (locked : List ℕ) (rs : List LedgerRow)
    → (unlocked_payable now locked rs ≡ []) ↔ All (λ r. is_taken now locked r ≡ false) rs
unfolding unlocked_payable
none_taken now locked [] = (λ h. tt, λ h. refl)
none_taken now locked (r ∷ rs) =
    let ih = none_taken now locked rs in (λ h. ground (arith, ih.0), λ h. ground (arith, ih.1 h.1))

settle-nothing :
    (w : World) (admin : ℕ) (rows : List LedgerRow)
    → (settle w admin rows ≡ (err nothing_to_pay, w)) ↔ (rows ≡ [])
unfolding settle
settle-nothing w admin [] = (λ h. refl, λ h. refl)
settle-nothing w admin (r ∷ rs) = (λ h. ground arith, λ h. cc)

-- A run answers that there is nothing to pay, and changes nothing, exactly when each row of the
-- ledger is paid, reversed, not yet cleared, or held by another transaction.
pub run-nothing :
    (locked : List ℕ) (admin : ℕ) (w : World)
    → (run locked admin w ≡ (err nothing_to_pay, w))
      ↔ All (λ r. is_taken w.now locked r ≡ false) w.ledger
unfolding run lock_payable
run-nothing locked admin w =
    let s = settle-nothing w admin (sort_by row_id (unlocked_payable w.now locked w.ledger)) in
    let e = sort_by-nil (unlocked_payable w.now locked w.ledger) in
    let n = none_taken w.now locked w.ledger in (λ h. n.0 (e.0 (s.0 h)), λ h. s.1 (e.1 (n.1 h)))

settled_rows_not_taken :
    (now : ℕ) (batch : ℕ) (rs : List LedgerRow)
    → All (λ r. is_taken now [] r ≡ false) (map (settled_row now [] batch) rs)
unfolding is_payable contains
settled_rows_not_taken now batch [] = tt
settled_rows_not_taken now batch (r ∷ rs) = (ground arith, settled_rows_not_taken now batch rs)

-- Where the ids of the ledger's rows differ, after a successful run that no other transaction
-- hampers a second one at the same moment, by any operator, finds nothing to pay and changes
-- nothing.
pub run_twice :
    (admin other : ℕ) (w w' : World) (b : Batch)
    → UniqueIds w.ledger
    → run [] admin w ≡ (ok b, w')
    → run [] other w' ≡ (err nothing_to_pay, w')
run_twice admin other w w' b u h =
    let done = run-IsSettled [] admin w w' b u h in
    (run-nothing [] other w').1
      (rw (done.ledger, done.same_time) (settled_rows_not_taken w.now b.id w.ledger))

-- The state shown to the teacher and the selection of the run agree on every row: it is shown as
-- available exactly when a run would pay it.
pub effective_state-payable :
    (now : ℕ) (r : LedgerRow)
    → (effective_state r.state r.available_at now ≡ available) ↔ (is_payable now r ≡ true)
unfolding effective_state is_payable
effective_state-payable now r = (λ h. ground arith, λ h. ground arith)
