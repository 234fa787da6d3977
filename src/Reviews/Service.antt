-- ===== src/Reviews/Service.antt =====
-- service.go of the reviews module. `trim_space` is strings.TrimSpace, `rune_count` the number of
-- runes of a text.
use Prim.Native.String.{String}
use find_language_tutor.Prelude.{
  ℕ, ◌-◌, ◌*◌, Bool, true, false, not, ◌||◌, List, ltb, ◌==◌, if◌then◌else◌,
}
use find_language_tutor.Prelude.Int.{ℤ, pos, pos_part, ltb_ℤ}
use find_language_tutor.Store.{BookingStatus, completed}
use find_language_tutor.Effect.{Call, ◌>>=◌, ◌>>◌, raise_if}
use find_language_tutor.Reviews.{
  Review, ReviewRow, AdminReview, Reviews, ReviewError, bad_rating, long_comment, not_student,
  booking_not_completed, max_comment_len, Visibility, other_visibility, bad_visibility,
  bad_max_rating, ModerationQuery,
}
use find_language_tutor.Reviews.Repository.{
  booking_for_review, create_review, set_review_hidden, remove_review, teacher_id_by_slug,
  list_by_teacher, list_for_moderation,
}

abbrev pub is_completed : BookingStatus → Bool
is_completed completed = true
is_completed _ = false

module _ (trim_space : String → String) (rune_count : String → ℕ) where
  unfoldable pub create : ℕ → ℕ → ℤ → String → Call Reviews ReviewError Review
  unfolding booking_for_review
  create caller_id booking_id rating comment = do
    let trimmed = trim_space comment
    raise_if (ltb_ℤ rating (pos 1) || ltb_ℤ (pos 5) rating) bad_rating
    raise_if (ltb max_comment_len (rune_count trimmed)) long_comment
    b ← booking_for_review booking_id
    raise_if (not (b.student_id == caller_id)) not_student
    raise_if (not (is_completed b.status)) booking_not_completed
    create_review (record {
      teacher_id = b.teacher_id;
      teacher_slug = b.teacher_slug;
      student_id = b.student_id;
      student_name = b.student_name;
      booking_id = booking_id;
      rating = pos_part rating;
      comment = trimmed;
    })

unfoldable pub hide : ℕ → Call Reviews ReviewError AdminReview
unfolding set_review_hidden
hide review_id = set_review_hidden review_id true

unfoldable pub unhide : ℕ → Call Reviews ReviewError AdminReview
unfolding set_review_hidden
unhide review_id = set_review_hidden review_id false

unfoldable pub remove : ℕ → Call Reviews ReviewError (Unit {0})
unfolding remove_review
remove review_id = remove_review review_id

abbrev pub default_page_size : ℕ
default_page_size = 10

abbrev pub max_page_size : ℕ
max_page_size = 50

-- The page and the page size of a request, brought into range.
abbrev pub page_number : ℤ → ℕ
page_number page = if ltb_ℤ page (pos 1) then 1 else pos_part page

abbrev pub page_size_of : ℕ → ℕ → ℤ → ℕ
page_size_of default most size =
    if ltb_ℤ (pos 0) size
    then (if ltb most (pos_part size) then most else pos_part size)
    else default

unfoldable pub list_for_teacher : String → ℤ → ℤ → Call Reviews ReviewError (List ReviewRow × ℕ)
unfolding teacher_id_by_slug list_by_teacher
list_for_teacher slug page page_size = do
  teacher_id ← teacher_id_by_slug slug
  let size = page_size_of default_page_size max_page_size page_size
  list_by_teacher teacher_id size ((page_number page - 1) * size)

abbrev pub moderation_default_page_size : ℕ
moderation_default_page_size = 20

abbrev pub moderation_max_page_size : ℕ
moderation_max_page_size = 100

abbrev pub is_known : Visibility → Bool
is_known other_visibility = false
is_known _ = true

unfoldable pub moderate :
    Visibility → String → ℤ → ℤ → ℤ → Call Reviews ReviewError (List AdminReview × ℕ)
unfolding list_for_moderation
moderate visibility teacher_slug max_rating page page_size = do
  raise_if (not (is_known visibility)) bad_visibility
  raise_if (ltb_ℤ max_rating (pos 0) || ltb_ℤ (pos 5) max_rating) bad_max_rating
  let size = page_size_of moderation_default_page_size moderation_max_page_size page_size
  let q : ModerationQuery = record {
    visibility = visibility;
    teacher_slug = teacher_slug;
    max_rating = pos_part max_rating;
  }
  list_for_moderation q size ((page_number page - 1) * size)
