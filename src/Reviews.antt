-- ===== src/Reviews.antt =====
-- backend/internal/reviews: the reviews of lessons, their moderation, and the rating of a teacher
-- that they add up to (reviews.go), with the tables that the module reads and writes.
pub mod Repository
pub mod Service
pub mod Create
pub mod Ratings
pub mod Moderation
pub mod Soundness
pub mod Steps
mod Tests
use Prim.Native.String.{String}
use find_language_tutor.Prelude.{ℕ, Bool, Option, List}
use find_language_tutor.Store.{BookingStatus}

-- A booking as GetReviewBookingContext joins it.
pub record BookingRef : Type 0 where
  pub id : ℕ
  pub teacher_id : ℕ
  pub teacher_slug : String
  pub student_id : ℕ
  pub student_name : String
  pub status : BookingStatus

pub record Review : Type 0 where
  pub id : ℕ
  pub teacher_id : ℕ
  pub teacher_slug : String
  pub student_id : ℕ
  pub student_name : String
  pub booking_id : Option ℕ
  pub rating : ℕ
  pub comment : String
  pub created_at : ℕ

pub record CreateParams : Type 0 where
  pub teacher_id : ℕ
  pub teacher_slug : String
  pub student_id : ℕ
  pub student_name : String
  pub booking_id : ℕ
  pub rating : ℕ
  pub comment : String

-- A row of the reviews table, with the name of the student that its queries join.
pub record ReviewRow : Type 0 where
  pub id : ℕ
  pub teacher_id : ℕ
  pub student_id : ℕ
  pub student_name : String
  pub booking_id : Option ℕ
  pub rating : ℕ
  pub comment : String
  pub hidden : Bool
  pub created_at : ℕ

pub record AdminReview : Type 0 where
  pub id : ℕ
  pub teacher_slug : String
  pub teacher_name : String
  pub student_name : String
  pub booking_id : Option ℕ
  pub rating : ℕ
  pub comment : String
  pub hidden : Bool
  pub created_at : ℕ

-- What the module reads and writes of a teacher; a rating is a number of tenths.
pub record TeacherRating : Type 0 where
  pub id : ℕ
  pub slug : String
  pub display_name : String
  pub approved : Bool
  pub rating : ℕ
  pub review_count : ℕ
  pub rating_base : ℕ
  pub review_count_base : ℕ

pub record Reviews : Type 0 where
  pub now : ℕ
  pub next_id : ℕ
  pub bookings : List BookingRef
  pub teachers : List TeacherRating
  pub rows : List ReviewRow

pub data ReviewError : Type 0 where
  bad_rating long_comment teacher_not_found booking_not_found not_student : ReviewError
  booking_not_completed already_reviewed review_not_found : ReviewError
  bad_visibility bad_max_rating negative_offset : ReviewError

pub data Visibility : Type 0 where
  all_reviews visible_only hidden_only other_visibility : Visibility

-- The filters of a ModerationQuery.
pub record ModerationQuery : Type 0 where
  pub visibility : Visibility
  pub teacher_slug : String
  pub max_rating : ℕ

abbrev pub max_comment_len : ℕ
max_comment_len = 2000
