-- ===== src/Reviews/Moderation.antt =====
-- Hiding a review and showing it again.
use find_language_tutor.Prelude.{
  ℕ, ◌≡◌, inl, inr, refl, sym, ap, subst, ◌∙◌, Bool, true, false, none, some, List, [], ◌∷◌, map,
  arith, All, Bool-cases, ◌==◌, if◌then◌else◌, Option-cases,
}
use find_language_tutor.Prelude.Rows.{
  first_where, update_where, first_where-passes, first_where-update_where,
}
use find_language_tutor.Reviews.{ReviewRow, TeacherRating, Reviews}
use find_language_tutor.Reviews.Repository.{
  is_teacher, is_review, rerated, set_hidden, set_review_hidden, recompute_teacher_rating,
}
use find_language_tutor.Reviews.Ratings.{IsRecomputed, IsFair, rerated-rerated, All-IsRecomputed}
use find_language_tutor.Reviews.Soundness.{IsSound, set_hidden-IsSound}
use find_language_tutor.Reviews.Service.{hide, unhide}

rerated-id : (rs : List ReviewRow) (t : TeacherRating) → (rerated rs t).id ≡ t.id
unfolding rerated
rerated-id rs t = refl

rerated-update_where :
    (teacher_id : ℕ) (rs rs' : List ReviewRow) (ts : List TeacherRating)
    → update_where
        (is_teacher teacher_id)
        (rerated rs')
        (update_where (is_teacher teacher_id) (rerated rs) ts)
      ≡ update_where (is_teacher teacher_id) (rerated rs') ts
unfolding update_where
rerated-update_where teacher_id rs rs' [] = refl
rerated-update_where teacher_id rs rs' (t ∷ ts) =
    ground
      (arith, rerated-id rs t, rerated-rerated rs rs' t, rerated-update_where teacher_id rs rs' ts)

-- The call, where the review and its teacher are there.
set_review_hidden_lem :
    (id : ℕ) (b : Bool) (row : ReviewRow) (t : TeacherRating) (s : Reviews)
    → first_where (is_review id) s.rows ≡ some row
    → first_where (is_teacher row.teacher_id) s.teachers ≡ some t
    → (set_review_hidden id b s).1
      ≡ recompute_teacher_rating row.teacher_id (record s { rows = set_hidden id b s.rows })
unfolding set_review_hidden
set_review_hidden_lem id b row t s e f = ground (arith, e, f)

first_where-rerated :
    (rs : List ReviewRow) (id : ℕ) (t : TeacherRating) (ts : List TeacherRating)
    → first_where (is_teacher id) ts ≡ some t
    → first_where (is_teacher id) (update_where (is_teacher id) (rerated rs) ts)
      ≡ some (rerated rs t)
first_where-rerated rs id t ts e = ground (
  arith,
  e,
  first_where-update_where (is_teacher id) (is_teacher id) (rerated rs) ts
      (λ x. rw (rerated-id rs x)),
  first_where-passes (is_teacher id) ts t e,
)

module _ (id : ℕ) (first last : Bool) where
  first_where-set_hidden :
      (row : ReviewRow) (rs : List ReviewRow)
      → first_where (is_review id) rs ≡ some row
      → first_where (is_review id) (set_hidden id first rs) ≡ some (record row { hidden = first })
  unfolding set_hidden
  first_where-set_hidden row rs e = ground (
    arith,
    e,
    first_where-update_where (is_review id) (is_review id) (λ r. record r { hidden = first }) rs
        (λ x. refl),
    first_where-passes (is_review id) rs row e,
  )

  set_hidden-set_hidden :
      (rs : List ReviewRow) → set_hidden id last (set_hidden id first rs) ≡ set_hidden id last rs
  unfolding set_hidden update_where
  set_hidden-set_hidden [] = refl
  set_hidden-set_hidden (r ∷ rs) = ground (arith, set_hidden-set_hidden rs)

  last_wins_found :
      (row : ReviewRow) (t : TeacherRating) (s : Reviews)
      → first_where (is_review id) s.rows ≡ some row
      → first_where (is_teacher row.teacher_id) s.teachers ≡ some t
      → (set_review_hidden id last (
          recompute_teacher_rating row.teacher_id
            (record s { rows = set_hidden id first s.rows }))).1
        ≡ (set_review_hidden id last s).1
  unfolding recompute_teacher_rating
  last_wins_found row t s e f =
      let rows = set_hidden id first s.rows in
      let row' : ReviewRow = record row { hidden = first } in
      let t' = rerated rows t in
      let mid = recompute_teacher_rating row.teacher_id (record s { rows = rows }) in
      let found = first_where-set_hidden row s.rows e in
      let teacher = first_where-rerated rows row.teacher_id t s.teachers f in
      set_review_hidden_lem id last row' t' mid found teacher
      ∙ ground (
        arith,
        set_hidden-set_hidden s.rows,
        rerated-update_where row.teacher_id rows (set_hidden id last s.rows) s.teachers,
      )
      ∙ sym (set_review_hidden_lem id last row t s e f)

  set_review_hidden-none :
      (b : Bool) (s : Reviews)
      → first_where (is_review id) s.rows ≡ none
      → (set_review_hidden id b s).1 ≡ s
  unfolding set_review_hidden
  set_review_hidden-none b s e = ground (arith, e)

  set_review_hidden_lost :
      (b : Bool) (row : ReviewRow) (s : Reviews)
      → first_where (is_review id) s.rows ≡ some row
      → first_where (is_teacher row.teacher_id) s.teachers ≡ none
      → (set_review_hidden id b s).1 ≡ s
  unfolding set_review_hidden
  set_review_hidden_lost b row s e f = ground (arith, e, f)

  last_wins :
      (s : Reviews)
      → (set_review_hidden id last (set_review_hidden id first s).1).1
        ≡ (set_review_hidden id last s).1
  last_wins s = elim (Option-cases (first_where (is_review id) s.rows)) [
    | inl e ↦ rw (set_review_hidden-none first s e)
    | inr (row, e) ↦ elim (Option-cases (first_where (is_teacher row.teacher_id) s.teachers)) [
      | inl f ↦ rw (set_review_hidden_lost first row s e f)
      | inr (t, f) ↦ rw (set_review_hidden_lem id first row t s e f) (last_wins_found row t s e f)
    ]
  ]

set_hidden-same :
    (id : ℕ) (row : ReviewRow) (rs : List ReviewRow)
    → row.hidden ≡ false
    → All (λ r. is_review id r ≡ true → r ≡ row) rs
    → set_hidden id false rs ≡ rs
unfolding set_hidden update_where
set_hidden-same id row [] h only = refl
set_hidden-same id row (r ∷ rs) h only = elim (Bool-cases (is_review id r)) [
  | inl e ↦
      let seen : r.hidden ≡ false = ap (λ (x : ReviewRow). x.hidden) (only.0 e) ∙ h in
      rw (e, set_hidden-same id row rs h only.1)
        (ap (λ (b : Bool). record r { hidden = b } ∷ rs) (sym seen))
  | inr e ↦ rw (e, set_hidden-same id row rs h only.1) refl
]

set_hidden-map :
    (id : ℕ) (b : Bool) (rs : List ReviewRow)
    → set_hidden id b rs ≡ map (λ r. if r.id == id then record r { hidden = b } else r) rs
unfolding set_hidden update_where
set_hidden-map id b [] = refl
set_hidden-map id b (r ∷ rs) = rw (set_hidden-map id b rs) refl

recomputed_same :
    (id : ℕ) (rs : List ReviewRow) (ts : List TeacherRating)
    → All (IsRecomputed rs) ts
    → update_where (is_teacher id) (rerated rs) ts ≡ ts
unfolding update_where
recomputed_same id rs [] h = refl
recomputed_same id rs (t ∷ ts) h = elim (Bool-cases (is_teacher id t)) [
  | inl e ↦ rw (e, h.0, recomputed_same id rs ts h.1) refl
  | inr e ↦ rw (e, recomputed_same id rs ts h.1) refl
]

-- Showing a review that is shown already changes nothing.
shown_again :
    (id : ℕ) (row : ReviewRow) (t : TeacherRating) (s : Reviews)
    → IsSound s
    → first_where (is_review id) s.rows ≡ some row
    → row.hidden ≡ false
    → All (λ r. is_review id r ≡ true → r ≡ row) s.rows
    → first_where (is_teacher row.teacher_id) s.teachers ≡ some t
    → (set_review_hidden id false s).1 ≡ s
unfolding recompute_teacher_rating
shown_again id row t s sound e h only f =
    set_review_hidden_lem id false row t s e f
    ∙ ap (λ (rs : List ReviewRow). recompute_teacher_rating row.teacher_id (record s { rows = rs }))
        (set_hidden-same id row s.rows h only)
    ∙ ap (λ (ts : List TeacherRating). record s { teachers = ts })
        (recomputed_same row.teacher_id s.rows s.teachers
          (All-IsRecomputed s.rows s.teachers sound.fair))

-- Where the reviews are sound, the review is there and visible, no other has its id, and its teacher
-- is there: hiding it marks just that review as hidden, and every teacher's rating and number of
-- reviews are again those of the visible reviews of bookings; hiding it again changes nothing; and
-- showing it brings back all that there was, the ratings included.
pub hide_undone :
    (id : ℕ) (row : ReviewRow) (t : TeacherRating) (s : Reviews)
    → IsSound s
    → first_where (is_review id) s.rows ≡ some row
    → row.hidden ≡ false
    → All (λ r. is_review id r ≡ true → r ≡ row) s.rows
    → first_where (is_teacher row.teacher_id) s.teachers ≡ some t
    → let s' = (hide id s).1 in
      (s'.rows ≡ map (λ r. if r.id == id then record r { hidden = true } else r) s.rows)
      × All (IsFair s'.rows) s'.teachers
      × ((hide id s').1 ≡ s')
      × ((unhide id s').1 ≡ s)
unfolding hide unhide
hide_undone id row t s sound e h only f =
    let hides = set_review_hidden_lem id true row t s e f in
    (
      ap (λ (x : Reviews). x.rows) hides ∙ set_hidden-map id true s.rows,
      subst (λ (x : Reviews). All (IsFair x.rows) x.teachers) (sym hides)
          (set_hidden-IsSound id true row s e sound).fair,
      last_wins id true true s,
      last_wins id true false s ∙ shown_again id row t s sound e h only f,
    )
