-- ===== src/Payouts/Settlement.antt =====
-- What one payout run does to the ledger, the totals and the batch.
use find_language_tutor.Prelude.{
  ℕ, ◌+◌, ◌%◌, ◌<◌, ◌≡◌, ◌≢◌, refl, sym, ap, ◌∙◌, Bool, true, false, not, ◌&&◌, some, List, [], ◌∷◌,
  ◌++◌, map, arith, All, All-map, All-zip, if◌then◌else◌,
}
use mathlib.Core.List.{append_assoc, append-nil}
use find_language_tutor.Prelude.Sort.{sort_by, insert_by}
use find_language_tutor.Prelude.Words.{add64, int64_mod}
use find_language_tutor.Slots.{contains}
use find_language_tutor.Store.{World, LedgerRow, paid, Batch}
use find_language_tutor.Effect.{ok}
use find_language_tutor.Payouts.{
  is_payable, sum_where, unlocked_payable, row_id, lock_payable, Tally, tally_rows, empty_tally,
  mark_paid, settle, run,
}

-- The primary key of payout_ledger.
abbrev pub UniqueIds : List LedgerRow → Type 0
UniqueIds [] = Unit {0}
UniqueIds (r ∷ rs) = All (λ x. x.id ≢ r.id) rs × UniqueIds rs

-- The run takes the row: it is payable, and no other transaction holds it.
abbrev pub is_taken : ℕ → List ℕ → LedgerRow → Bool
is_taken now locked r = is_payable now r && not (contains r.id locked)

abbrev pub settled_row : ℕ → List ℕ → ℕ → LedgerRow → LedgerRow
settled_row now locked batch r =
    if is_taken now locked r
    then record r { state = paid; payout_batch_id = batch; paid_at = some now }
    else r

abbrev id_list : List LedgerRow → List ℕ
id_list = map row_id

contains-insert_by :
    (k : ℕ) (r : LedgerRow) (rs : List LedgerRow)
    → contains k (id_list (insert_by row_id r rs)) ≡ contains k (id_list (r ∷ rs))
unfolding contains insert_by
contains-insert_by k r [] = refl
contains-insert_by k r (x ∷ xs) = ground (arith, contains-insert_by k r xs)

contains-sort_by :
    (k : ℕ) (rs : List LedgerRow)
    → contains k (id_list (sort_by row_id rs)) ≡ contains k (id_list rs)
unfolding contains sort_by
contains-sort_by k [] = refl
contains-sort_by k (r ∷ rs) =
    ground (arith, contains-insert_by k r (sort_by row_id rs), contains-sort_by k rs)

module _ (now : ℕ) (locked : List ℕ) where
  absent :
      (k : ℕ) (rs : List LedgerRow)
      → All (λ x. x.id ≢ k) rs
      → contains k (id_list (unlocked_payable now locked rs)) ≡ false
  unfolding contains unlocked_payable
  absent k [] h = refl
  absent k (r ∷ rs) h = ground (arith, absent k rs h.1)

  -- Among rows with distinct ids, the ids of the locked rows tell the taken rows.
  abbrev Tells : List ℕ → LedgerRow → Type 0
  Tells ids r = contains r.id ids ≡ is_taken now locked r

  Tells-head :
      (r : LedgerRow) (rs : List LedgerRow)
      → All (λ x. x.id ≢ r.id) rs
      → Tells (id_list (unlocked_payable now locked (r ∷ rs))) r
  unfolding contains unlocked_payable
  Tells-head r rs h = ground (arith, absent r.id rs h)

  Tells-tail :
      (r x : LedgerRow) (rs : List LedgerRow)
      → x.id ≢ r.id
      → Tells (id_list (unlocked_payable now locked rs)) x
      → Tells (id_list (unlocked_payable now locked (r ∷ rs))) x
  unfolding contains unlocked_payable
  Tells-tail r x rs h k = ground arith

  taken_ids :
      (rs : List LedgerRow)
      → UniqueIds rs
      → All (Tells (id_list (unlocked_payable now locked rs))) rs
  taken_ids [] u = tt
  taken_ids (r ∷ rs) u = (
    Tells-head r rs u.0,
    All-zip (λ x. x.id ≢ r.id) (Tells (id_list (unlocked_payable now locked rs)))
        (Tells (id_list (unlocked_payable now locked (r ∷ rs)))) rs (λ x. Tells-tail r x rs) u.0
        (taken_ids rs u.1),
  )

  -- Marking by the ids is marking the taken rows: an open row is not paid yet.
  mark_paid-eq-map :
      (batch : ℕ) (ids : List ℕ) (rs : List LedgerRow)
      → All (Tells ids) rs
      → mark_paid now batch ids rs ≡ map (settled_row now locked batch) rs
  unfolding mark_paid is_payable
  mark_paid-eq-map batch ids [] h = refl
  mark_paid-eq-map batch ids (r ∷ rs) h = ground (arith, mark_paid-eq-map batch ids rs h.1, h.0)

  -- What the taken rows amount to.
  abbrev pub taken_sum : List LedgerRow → ℕ
  taken_sum = sum_where (is_taken now locked)

  sum_taken :
      (rs : List LedgerRow) → sum_where (λ _. true) (unlocked_payable now locked rs) ≡ taken_sum rs
  unfolding sum_where unlocked_payable
  sum_taken [] = refl
  sum_taken (r ∷ rs) = ground (arith, sum_taken rs)

sum-insert_by :
    (r : LedgerRow) (rs : List LedgerRow)
    → sum_where (λ _. true) (insert_by row_id r rs) ≡ sum_where (λ _. true) (r ∷ rs)
unfolding sum_where insert_by
sum-insert_by r [] = refl
sum-insert_by r (x ∷ xs) = ground (arith, sum-insert_by r xs)

sum-sort_by :
    (rs : List LedgerRow) → sum_where (λ _. true) (sort_by row_id rs) ≡ sum_where (λ _. true) rs
unfolding sum_where sort_by
sum-sort_by [] = refl
sum-sort_by (r ∷ rs) = omega (arith, sum-insert_by r (sort_by row_id rs), sum-sort_by rs)

tally-ids : (rs : List LedgerRow) (t : Tally) → (tally_rows rs t).ids ≡ t.ids ++ id_list rs
unfolding tally_rows
tally-ids [] t = sym (append-nil t.ids)
tally-ids (r ∷ rs) t = tally-ids rs _ ∙ append_assoc t.ids (r.id ∷ []) (id_list rs)

tally-total :
    (rs : List LedgerRow) (t : Tally)
    → t.total < int64_mod
    → (tally_rows rs t).total ≡ (t.total + sum_where (λ _. true) rs) % int64_mod
unfolding tally_rows sum_where add64
tally-total [] t h = omega arith
tally-total (r ∷ rs) t h = omega (
  arith,
  tally-total rs (record {
    ids = t.ids ++ r.id ∷ [];
    teachers = if contains r.teacher_id t.teachers then t.teachers else r.teacher_id ∷ t.teachers;
    total = (t.total + r.amount.amount_minor) % int64_mod;
  }),
)

-- What a successful run leaves behind.
pub record IsSettled (locked : List ℕ) (admin : ℕ) (w : World) (b : Batch) (w' : World)
    : Type 0 where
  pub total : b.total_minor ≡ taken_sum w.now locked w.ledger % int64_mod
  pub made_by : b.created_by ≡ admin
  pub fresh : b.id ≡ w.next_id
  pub logged : w'.batches ≡ b ∷ w.batches
  pub same_time : w'.now ≡ w.now
  pub ledger : w'.ledger ≡ map (settled_row w.now locked b.id) w.ledger

-- The row update of the run, by its ids in the order of the lock, is the update of the taken rows.
marks_taken :
    (now : ℕ) (locked : List ℕ) (batch : ℕ) (rs : List LedgerRow)
    → UniqueIds rs
    → mark_paid now batch (id_list (lock_payable now locked rs)) rs
      ≡ map (settled_row now locked batch) rs
unfolding lock_payable
marks_taken now locked batch rs u =
    let picked = unlocked_payable now locked rs in
    mark_paid-eq-map now locked batch (id_list (sort_by row_id picked)) rs (
      All-map (Tells now locked (id_list picked))
        (Tells now locked (id_list (sort_by row_id picked))) rs
        (λ x e. contains-sort_by x.id picked ∙ e) (taken_ids now locked rs u))

locked_sum :
    (now : ℕ) (locked : List ℕ) (rs : List LedgerRow)
    → sum_where (λ _. true) (lock_payable now locked rs) ≡ taken_sum now locked rs
unfolding lock_payable
locked_sum now locked rs = sum-sort_by (unlocked_payable now locked rs) ∙ sum_taken now locked rs

settle-IsSettled :
    (locked : List ℕ) (admin : ℕ) (w w' : World) (b : Batch) (rows : List LedgerRow)
    → lock_payable w.now locked w.ledger ≡ rows
    → UniqueIds w.ledger
    → settle w admin rows ≡ (ok b, w')
    → IsSettled locked admin w b w'
unfolding settle
settle-IsSettled locked admin w w' b [] e u h = cc
settle-IsSettled locked admin w w' b (r ∷ rs) e u h =
    let ids = tally-ids (r ∷ rs) empty_tally in
    let sum = tally-total (r ∷ rs) empty_tally (omega arith) in
    let all = locked_sum w.now locked w.ledger in
    let marks = marks_taken w.now locked w.next_id w.ledger u in
    record {
      total = ground (arith, sum, all, ap (sum_where (λ _. true)) e);
      made_by = ground arith;
      fresh = ground arith;
      logged = ground arith;
      same_time = ground arith;
      ledger = ground (arith, ids, marks, ap id_list e);
    }

-- Where the ids of the ledger's rows differ, a run that succeeds marks as paid, with the batch's
-- id and the time, exactly the payable rows that no other transaction holds, and leaves every
-- other row as it was; the batch's total is the sum of those rows (as an int64), it is made by the
-- operator under a new id, and it is the one batch that is added.
pub run-IsSettled :
    (locked : List ℕ) (admin : ℕ) (w w' : World) (b : Batch)
    → UniqueIds w.ledger
    → run locked admin w ≡ (ok b, w')
    → IsSettled locked admin w b w'
unfolding run
run-IsSettled locked admin w w' b u h =
    settle-IsSettled locked admin w w' b (lock_payable w.now locked w.ledger) refl u h
