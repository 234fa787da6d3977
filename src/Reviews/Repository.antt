-- ===== src/Reviews/Repository.antt =====
-- repository_postgres.go of the reviews module, with the SQL of queries/reviews.sql.
use Prim.Native.String.{String}
use find_language_tutor.Prelude.{
  ℕ, suc, ◌+◌, ◌*◌, ◌/◌, Bool, true, false, not, ◌&&◌, ◌||◌, Option, none, some, List, [], ◌∷◌,
  ◌++◌, ltb, leb, ◌==◌, if◌then◌else◌, length,
}
use find_language_tutor.Prelude.Order.{sort_with}
use find_language_tutor.Prelude.Page.{select, drop, take, offset_int32}
use find_language_tutor.Prelude.Rows.{first_where, update_where, delete_where, exists_where}
use text.Mathlib.Text.{◌==◌ as str_eq}
use find_language_tutor.Effect.{Call, pure, gets, or_raise, ◌>>=◌, ◌>>◌, change, raise_if}
use find_language_tutor.Reviews.{
  BookingRef, Review, CreateParams, ReviewRow, AdminReview, TeacherRating, Reviews, ReviewError,
  booking_not_found, already_reviewed, review_not_found, teacher_not_found, negative_offset,
  Visibility, visible_only, hidden_only, ModerationQuery,
}

abbrev pub is_booking : ℕ → BookingRef → Bool
is_booking id b = b.id == id

unfoldable pub booking_for_review : ℕ → Call Reviews ReviewError BookingRef
unfolding first_where
booking_for_review id = do
  or_raise (← gets (λ s. first_where (is_booking id) s.bookings)) booking_not_found

-- booking_id IS NOT NULL AND NOT hidden, for a teacher.
abbrev pub is_tied : Option ℕ → Bool
is_tied none = false
is_tied (some _) = true

abbrev pub counts_for : ℕ → ReviewRow → Bool
counts_for teacher_id r = r.teacher_id == teacher_id && is_tied r.booking_id && not r.hidden

unfoldable pub sum_of : ℕ → List ReviewRow → ℕ
sum_of teacher_id [] = 0
sum_of teacher_id (r ∷ rs) =
    let rest = sum_of teacher_id rs in if counts_for teacher_id r then r.rating + rest else rest

unfoldable pub count_of : ℕ → List ReviewRow → ℕ
count_of teacher_id [] = 0
count_of teacher_id (r ∷ rs) =
    let rest = count_of teacher_id rs in if counts_for teacher_id r then suc rest else rest

-- round(total / n, 1) in tenths, half away from zero, and LEAST(5, …).
unfoldable pub rounded : ℕ → ℕ → ℕ
rounded total n = let tenths = (2 * total + n) / (2 * n) in if leb tenths 50 then tenths else 50

unfoldable pub new_rating : TeacherRating → ℕ → ℕ → ℕ
unfolding rounded
new_rating t sum n =
    if (t.review_count_base + n) == 0
    then 0
    else rounded (t.rating_base * t.review_count_base + 10 * sum) (t.review_count_base + n)

-- The row that RecomputeTeacherRating writes.
unfoldable pub rerated : List ReviewRow → TeacherRating → TeacherRating
unfolding new_rating sum_of count_of
rerated rs t = record t {
  rating = new_rating t (sum_of t.id rs) (count_of t.id rs);
  review_count = t.review_count_base + count_of t.id rs;
}

abbrev pub is_teacher : ℕ → TeacherRating → Bool
is_teacher id t = t.id == id

unfoldable pub recompute_teacher_rating : ℕ → Reviews → Reviews
unfolding rerated update_where
recompute_teacher_rating teacher_id s = record s {
  teachers = update_where (is_teacher teacher_id) (rerated s.rows) s.teachers;
}

abbrev pub is_of_booking : ℕ → ReviewRow → Bool
is_of_booking booking_id r = elim r.booking_id [ none ↦ false | some b ↦ b == booking_id ]

-- InsertReview; reviews_booking_uniq allows one review for a booking.
unfoldable pub insert_review : CreateParams → Call Reviews ReviewError ReviewRow
unfolding exists_where
insert_review p = do
  taken ← gets (λ s. exists_where (is_of_booking p.booking_id) s.rows)
  raise_if taken already_reviewed
  row ← gets (λ s. record {
    id = s.next_id;
    teacher_id = p.teacher_id;
    student_id = p.student_id;
    student_name = p.student_name;
    booking_id = some p.booking_id;
    rating = p.rating;
    comment = p.comment;
    hidden = false;
    created_at = s.now;
  })
  change (λ s. record s { rows = s.rows ++ row ∷ []; next_id = suc s.next_id })
  pure row

unfoldable pub create_review : CreateParams → Call Reviews ReviewError Review
unfolding insert_review recompute_teacher_rating
create_review p = do
  row ← insert_review p
  change (recompute_teacher_rating p.teacher_id)
  pure (record {
    id = row.id;
    teacher_id = p.teacher_id;
    teacher_slug = p.teacher_slug;
    student_id = p.student_id;
    student_name = p.student_name;
    booking_id = some p.booking_id;
    rating = row.rating;
    comment = row.comment;
    created_at = row.created_at;
  })

abbrev pub is_review : ℕ → ReviewRow → Bool
is_review id r = r.id == id

-- AdminGetReview: the row, joined with its teacher.
unfoldable pub admin_get_review : ℕ → Call Reviews ReviewError (ReviewRow × TeacherRating)
unfolding first_where
admin_get_review id = do
  row ← or_raise (← gets (λ s. first_where (is_review id) s.rows)) review_not_found
  teacher ←
      or_raise (← gets (λ s. first_where (is_teacher row.teacher_id) s.teachers)) review_not_found
  pure (row, teacher)

unfoldable pub to_admin_review : ReviewRow → TeacherRating → Bool → AdminReview
to_admin_review row t hidden = record {
  id = row.id;
  teacher_slug = t.slug;
  teacher_name = t.display_name;
  student_name = row.student_name;
  booking_id = row.booking_id;
  rating = row.rating;
  comment = row.comment;
  hidden = hidden;
  created_at = row.created_at;
}

unfoldable pub set_hidden : ℕ → Bool → List ReviewRow → List ReviewRow
unfolding update_where
set_hidden id hidden rs = update_where (is_review id) (λ r. record r { hidden = hidden }) rs

unfoldable pub set_review_hidden : ℕ → Bool → Call Reviews ReviewError AdminReview
unfolding admin_get_review set_hidden recompute_teacher_rating to_admin_review
set_review_hidden id hidden = do
  found ← admin_get_review id
  change (λ s. record s { rows = set_hidden id hidden s.rows })
  change (recompute_teacher_rating found.0.teacher_id)
  pure (to_admin_review found.0 found.1 hidden)

unfoldable pub remove_review : ℕ → Call Reviews ReviewError (Unit {0})
unfolding admin_get_review delete_where recompute_teacher_rating
remove_review id = do
  found ← admin_get_review id
  change (λ s. record s { rows = delete_where (is_review id) s.rows })
  change (recompute_teacher_rating found.0.teacher_id)

unfoldable pub review_by_booking : ℕ → Reviews → Option ReviewRow
unfolding first_where
review_by_booking booking_id s = first_where (is_of_booking booking_id) s.rows

-- Only an approved teacher has a page of reviews.
unfoldable pub teacher_id_by_slug : String → Call Reviews ReviewError ℕ
unfolding first_where
teacher_id_by_slug slug = do
  t ←
      or_raise (← gets (λ s. first_where (λ t. str_eq t.slug slug && t.approved) s.teachers))
        teacher_not_found
  pure t.id

-- ORDER BY created_at DESC, id DESC.
abbrev pub newer : ReviewRow → ReviewRow → Bool
newer a b = ltb b.created_at a.created_at || (a.created_at == b.created_at && leb b.id a.id)

-- A page, newest first, of the rows that pass a test, and their number.
unfoldable pub page_of : (ReviewRow → Bool) → ℕ → ℕ → Call Reviews ReviewError (List ReviewRow × ℕ)
unfolding select sort_with
page_of p limit offset = do
  from ← or_raise (offset_int32 offset) negative_offset
  matching ← gets (λ s. select p s.rows)
  pure (take limit (drop from (sort_with newer matching)), length matching)

unfoldable pub list_by_teacher : ℕ → ℕ → ℕ → Call Reviews ReviewError (List ReviewRow × ℕ)
unfolding page_of
list_by_teacher teacher_id limit offset =
    page_of (λ r. r.teacher_id == teacher_id && not r.hidden) limit offset

abbrev pub shows : Visibility → ReviewRow → Bool
shows visible_only r = not r.hidden
shows hidden_only r = r.hidden
shows _ r = true

-- The filters of AdminListReviews; an empty slug and a ceiling of 0 are no filter.
unfoldable pub in_queue : ModerationQuery → List TeacherRating → ReviewRow → Bool
unfolding exists_where
in_queue q ts r =
    shows q.visibility r
    && exists_where
        (λ t. t.id == r.teacher_id && (str_eq q.teacher_slug "" || str_eq t.slug q.teacher_slug)) ts
    && (q.max_rating == 0 || leb r.rating q.max_rating)

-- The rows with their teachers.
unfoldable pub with_teachers : List TeacherRating → List ReviewRow → List AdminReview
unfolding first_where to_admin_review
with_teachers ts [] = []
with_teachers ts (r ∷ rs) =
    let rest = with_teachers ts rs in
    elim (first_where (is_teacher r.teacher_id) ts) [
      | none ↦ rest
      | some t ↦ to_admin_review r t r.hidden ∷ rest
    ]

unfoldable pub list_for_moderation :
    ModerationQuery → ℕ → ℕ → Call Reviews ReviewError (List AdminReview × ℕ)
unfolding in_queue page_of with_teachers
list_for_moderation q limit offset = do
  teachers ← gets (λ s. s.teachers)
  page ← page_of (in_queue q teachers) limit offset
  pure (with_teachers teachers page.0, page.1)
