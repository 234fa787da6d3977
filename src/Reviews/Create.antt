-- ===== src/Reviews/Create.antt =====
-- Who may review a lesson, and what a review adds to the tables.
use Prim.Native.String.{String}
use find_language_tutor.Prelude.{
  ℕ, suc, ◌≤◌, ◌≡◌, ◌⊎◌, inl, inr, refl, Bool, true, false, ◌||◌, some, [], ◌∷◌, ◌++◌, arith,
  Bool-cases, Option-cases, ltb, ◌==◌,
}
use find_language_tutor.Prelude.Int.{ℤ, pos, negsuc, ltb_ℤ}
use find_language_tutor.Prelude.Rows.{first_where, exists_where}
use find_language_tutor.Store.{BookingStatus, pending_payment, confirmed, completed, cancelled}
use find_language_tutor.Effect.{ok, err}
use find_language_tutor.Reviews.{
  BookingRef, Review, CreateParams, ReviewRow, Reviews, ReviewError, max_comment_len, bad_rating,
  long_comment, booking_not_found, not_student, booking_not_completed, already_reviewed,
}
use find_language_tutor.Reviews.Repository.{
  is_booking, is_of_booking, booking_for_review, insert_review, create_review,
  recompute_teacher_rating,
}
use find_language_tutor.Reviews.Service.{is_completed, create}

-- The caller is the student of the booking, the booking is completed and has no review, and the
-- rating and the comment are in range.
pub record CanReview (comment_length caller_id booking_id : ℕ) (rating : ℤ) (s : Reviews)
    : Type 0 where
  pub booking : BookingRef
  pub found : first_where (is_booking booking_id) s.bookings ≡ some booking
  pub mine : booking.student_id ≡ caller_id
  pub taught : booking.status ≡ completed
  pub score : ℕ
  pub scored : rating ≡ pos score
  pub low : 1 ≤ score
  pub high : score ≤ 5
  pub short : comment_length ≤ max_comment_len
  pub first : exists_where (is_of_booking booking_id) s.rows ≡ false

-- The row of the review.
unfoldable pub new_row : BookingRef → ℕ → ℕ → String → Reviews → ReviewRow
new_row b booking_id score comment s = record {
  id = s.next_id;
  teacher_id = b.teacher_id;
  student_id = b.student_id;
  student_name = b.student_name;
  booking_id = some booking_id;
  rating = score;
  comment = comment;
  hidden = false;
  created_at = s.now;
}

unfoldable pub reviewed : BookingRef → ℕ → ℕ → String → Reviews → Reviews
unfolding new_row
reviewed b booking_id score comment s = recompute_teacher_rating b.teacher_id (record s {
  rows = s.rows ++ new_row b booking_id score comment s ∷ [];
  next_id = suc s.next_id;
})

-- What the insert is given, and what it answers.
abbrev params : BookingRef → ℕ → ℕ → String → CreateParams
params b booking_id score comment = record {
  teacher_id = b.teacher_id;
  teacher_slug = b.teacher_slug;
  student_id = b.student_id;
  student_name = b.student_name;
  booking_id = booking_id;
  rating = score;
  comment = comment;
}

abbrev answer : BookingRef → ℕ → ℕ → String → Reviews → Review
answer b booking_id score comment s = record {
  id = s.next_id;
  teacher_id = b.teacher_id;
  teacher_slug = b.teacher_slug;
  student_id = b.student_id;
  student_name = b.student_name;
  booking_id = some booking_id;
  rating = score;
  comment = comment;
  created_at = s.now;
}

module _ (b : BookingRef) (booking_id score : ℕ) (comment : String) (s : Reviews) where
  create_review_first :
      exists_where (is_of_booking booking_id) s.rows ≡ false
      → create_review (params b booking_id score comment) s
        ≡ (ok (answer b booking_id score comment s), reviewed b booking_id score comment s)
  unfolding create_review insert_review reviewed new_row
  create_review_first h = ground (arith, h)

  create_review_again :
      exists_where (is_of_booking booking_id) s.rows ≡ true
      → create_review (params b booking_id score comment) s ≡ (err already_reviewed, s)
  unfolding create_review insert_review
  create_review_again h = ground (arith, h)

is_completed_lem : (st : BookingStatus) → is_completed st ≡ true → st ≡ completed
is_completed_lem pending_payment h = cc
is_completed_lem confirmed h = cc
is_completed_lem completed h = refl
is_completed_lem cancelled h = cc

-- The test of the code, and what it lets through.
abbrev out_of_range : ℤ → Bool
out_of_range rating = ltb_ℤ rating (pos 1) || ltb_ℤ (pos 5) rating

score_cases :
    (rating : ℤ)
    → (out_of_range rating ≡ true)
      ⊎ ((n : ℕ) × (rating ≡ pos n) × (1 ≤ n) × (n ≤ 5) × (out_of_range rating ≡ false))
score_cases (negsuc n) = inl (ground arith)
score_cases (pos n) = elim (Bool-cases (out_of_range (pos n))) [
  | inl e ↦ inl e
  | inr e ↦ inr (n, refl, ground (arith, e), ground (arith, e), e)
]

score_in_range : (rating : ℤ) (n : ℕ) → rating ≡ pos n → 1 ≤ n → n ≤ 5 → out_of_range rating ≡ false
score_in_range rating n e low high = rw e (ground arith)

module _ (trim_space : String → String) (rune_count : String → ℕ) (caller_id booking_id : ℕ)
    (rating : ℤ) (comment : String) (s : Reviews) where
  abbrev pub Allowed : Type 0
  Allowed = CanReview (rune_count (trim_space comment)) caller_id booking_id rating s

  abbrev pub Stored : Allowed → Type 0
  Stored c =
      (r : Review) × (create trim_space rune_count caller_id booking_id rating comment s
        ≡ (ok r, reviewed c.booking booking_id c.score (trim_space comment) s))

  abbrev pub Refused : Type 0
  Refused =
      (e : ReviewError) × (create trim_space rune_count caller_id booking_id rating comment s
        ≡ (err e, s))

  -- A review is stored, and the rating of the teacher recomputed, exactly when the caller is the
  -- student of the booking, the booking is completed and has no review yet, the rating is between 1
  -- and 5, and the trimmed comment has at most 2000 runes; else the call is refused and the tables
  -- are left alone.
  pub create_decides : ((c : Allowed) × Stored c) ⊎ (Refused × ¬ Allowed)
  unfolding create booking_for_review
  create_decides = elim (score_cases rating) [
    | inl bad ↦ inr (
      (bad_rating, ground (arith, bad)),
      λ c. ground (arith, bad, score_in_range rating c.score c.scored c.low c.high),
    )
    | inr (n, e, low, high, good) ↦
        elim (Bool-cases (ltb max_comment_len (rune_count (trim_space comment)))) [
          | inl f ↦ inr ((long_comment, ground (arith, good, f)), λ c. ground (arith, f, c.short))
          | inr f ↦ elim (Option-cases (first_where (is_booking booking_id) s.bookings)) [
            | inl g ↦
                inr
                  ((booking_not_found, ground (arith, good, f, g)), λ c. ground (arith, g, c.found))
            | inr (b, g) ↦ elim (Bool-cases (b.student_id == caller_id)) [
              | inr k ↦ inr (
                (not_student, ground (arith, good, f, g, k)),
                λ c. ground (arith, g, k, c.found, c.mine),
              )
              | inl k ↦ elim (Bool-cases (is_completed b.status)) [
                | inr m ↦ inr (
                  (booking_not_completed, ground (arith, good, f, g, k, m)),
                  λ c. ground (arith, g, m, c.found, c.taught),
                )
                | inl m ↦ elim (Bool-cases (exists_where (is_of_booking booking_id) s.rows)) [
                  | inl again ↦ inr (
                    (
                      already_reviewed,
                      ground (
                        arith,
                        good,
                        f,
                        g,
                        k,
                        m,
                        e,
                        create_review_again b booking_id n (trim_space comment) s again,
                      ),
                    ),
                    λ c. ground (arith, again, c.first),
                  )
                  | inr new ↦ inl (
                    record {
                      booking = b;
                      found = g;
                      mine = ground (arith, k);
                      taught = is_completed_lem b.status m;
                      score = n;
                      scored = e;
                      low = low;
                      high = high;
                      short = ground (arith, f);
                      first = new;
                    },
                    (
                      answer b booking_id n (trim_space comment) s,
                      ground (
                        arith,
                        good,
                        f,
                        g,
                        k,
                        m,
                        e,
                        create_review_first b booking_id n (trim_space comment) s new,
                      ),
                    ),
                  )
                ]
              ]
            ]
          ]
        ]
  ]
