-- ===== src/Reviews/Steps.antt =====
-- The reviews over time.
use Prim.Native.String.{String}
use find_language_tutor.Prelude.{
  ℕ, ◌≡◌, ◌⊎◌, inl, inr, Bool, true, false, some, List, arith, Option-cases,
}
use find_language_tutor.Prelude.Int.{ℤ}
use find_language_tutor.Prelude.Rows.{first_where, delete_where}
use find_language_tutor.Reviews.{ReviewRow, Reviews}
use find_language_tutor.Reviews.Repository.{
  is_teacher, is_review, set_hidden, set_review_hidden, remove_review, recompute_teacher_rating,
}
use find_language_tutor.Reviews.Service.{create, hide, unhide, remove}
use find_language_tutor.Reviews.Create.{create_decides}
use find_language_tutor.Reviews.Soundness.{
  IsSound, reviewed-IsSound, set_hidden-IsSound, remove-IsSound,
}

-- A call left the tables alone, or it changed the rows to `change` of them and recomputed the
-- rating of the teacher of a review that the id finds.
abbrev pub Recomputes : ℕ → (List ReviewRow → List ReviewRow) → Reviews → Reviews → Type 0
Recomputes id change_rows s s' =
    (s' ≡ s)
    ⊎ ((row : ReviewRow) × (first_where (is_review id) s.rows ≡ some row)
        × (s' ≡ recompute_teacher_rating row.teacher_id (record s { rows = change_rows s.rows })))

pub set_review_hidden-Recomputes :
    (id : ℕ) (hidden : Bool) (s : Reviews)
    → Recomputes id (set_hidden id hidden) s (set_review_hidden id hidden s).1
unfolding set_review_hidden
set_review_hidden-Recomputes id hidden s = elim (Option-cases (first_where (is_review id) s.rows)) [
  | inl e ↦ inl (ground (arith, e))
  | inr (row, e) ↦ elim (Option-cases (first_where (is_teacher row.teacher_id) s.teachers)) [
    | inl f ↦ inl (ground (arith, e, f))
    | inr (t, f) ↦ inr (row, e, ground (arith, e, f))
  ]
]

pub remove_review-Recomputes :
    (id : ℕ) (s : Reviews) → Recomputes id (delete_where (is_review id)) s (remove_review id s).1
unfolding remove_review
remove_review-Recomputes id s = elim (Option-cases (first_where (is_review id) s.rows)) [
  | inl e ↦ inl (ground (arith, e))
  | inr (row, e) ↦ elim (Option-cases (first_where (is_teacher row.teacher_id) s.teachers)) [
    | inl f ↦ inl (ground (arith, e, f))
    | inr (t, f) ↦ inr (row, e, ground (arith, e, f))
  ]
]

-- A call of the service, whatever it answers.
pub data Step (trim_space : String → String) (rune_count : String → ℕ)
    : Reviews → Reviews → Type 0 where
  created :
      (caller_id booking_id : ℕ) (rating : ℤ) (comment : String) (s : Reviews)
      → Step trim_space rune_count s
          (create trim_space rune_count caller_id booking_id rating comment s).1
  hidden : (id : ℕ) (s : Reviews) → Step trim_space rune_count s (hide id s).1
  shown : (id : ℕ) (s : Reviews) → Step trim_space rune_count s (unhide id s).1
  removed : (id : ℕ) (s : Reviews) → Step trim_space rune_count s (remove id s).1

pub data Reach (trim_space : String → String) (rune_count : String → ℕ) (s : Reviews)
    : Reviews → Type 0 where
  here : Reach trim_space rune_count s s
  next :
      {t u : Reviews}
      → Reach trim_space rune_count s t
      → Step trim_space rune_count t u
      → Reach trim_space rune_count s u

hiding-IsSound :
    (id : ℕ) (b : Bool) (s : Reviews) → IsSound s → IsSound (set_review_hidden id b s).1
hiding-IsSound id b s k = elim (set_review_hidden-Recomputes id b s) [
  | inl same ↦ rw same k
  | inr (row, found, e) ↦ rw e (set_hidden-IsSound id b row s found k)
]

module _ (trim_space : String → String) (rune_count : String → ℕ) where
  Step-IsSound : {s t : Reviews} → Step trim_space rune_count s t → IsSound s → IsSound t
  unfolding hide unhide remove
  Step-IsSound (created caller_id booking_id rating comment s) k =
      elim (create_decides trim_space rune_count caller_id booking_id rating comment s) [
        | inl (c, (r, e)) ↦ rw e (
            reviewed-IsSound c.booking booking_id c.score (trim_space comment) s c.found c.taught
              c.low c.high c.first k)
        | inr ((x, e), no_right) ↦ rw e k
      ]
  Step-IsSound (hidden id s) k = hiding-IsSound id true s k
  Step-IsSound (shown id s) k = hiding-IsSound id false s k
  Step-IsSound (removed id s) k = elim (remove_review-Recomputes id s) [
    | inl same ↦ rw same k
    | inr (row, found, e) ↦ rw e (remove-IsSound id row s found k)
  ]

  -- Whatever the calls, sound reviews stay sound: a review of a booking is of a completed booking,
  -- by its student and on its teacher; ratings lie from 1 to 5; a booking has one review at most;
  -- every teacher's number of reviews is the base number and the number of the visible reviews of
  -- bookings; and the rating is the mean of the base and those, rounded to tenths, 5 at most.
  pub Reach-IsSound : {s t : Reviews} → Reach trim_space rune_count s t → IsSound s → IsSound t
  Reach-IsSound here k = k
  Reach-IsSound (next r st) k = Step-IsSound st (Reach-IsSound r k)
