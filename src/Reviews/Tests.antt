-- ===== src/Reviews/Tests.antt =====
-- The theorems on reviews, at a completed lesson of a teacher with a history of four reviews.
use Prim.Native.String.{String, len}
use find_language_tutor.Prelude.{◌≡◌, ◌⊎◌, refl, true, false, none, some, [], ◌∷◌, arith, All}
use find_language_tutor.Prelude.Int.{pos}
use find_language_tutor.Store.{completed}
use find_language_tutor.Effect.{ok, err}
use find_language_tutor.Reviews.{
  BookingRef, ReviewRow, TeacherRating, Reviews, already_reviewed, negative_offset,
}
use find_language_tutor.Reviews.Repository.{create_review}
use find_language_tutor.Reviews.Service.{create, hide, unhide, list_for_teacher}
use find_language_tutor.Reviews.Create.{Allowed, Stored, Refused, create_decides}
use find_language_tutor.Reviews.Ratings.{IsFair, stars}
use find_language_tutor.Prelude.Page.{select}
use find_language_tutor.Reviews.Soundness.{times, IsSound}
use find_language_tutor.Reviews.Steps.{Reach, here, next, created, hidden, Reach-IsSound}
use find_language_tutor.Reviews.Moderation.{hide_undone}

abbrev booking : BookingRef
booking = record {
  id = 1;
  teacher_id = 5;
  teacher_slug = "dilnoza";
  student_id = 10;
  student_name = "Ali";
  status = completed;
}

abbrev teacher : TeacherRating
teacher = record {
  id = 5;
  slug = "dilnoza";
  display_name = "Dilnoza";
  approved = true;
  rating = 47;
  review_count = 4;
  rating_base = 47;
  review_count_base = 4;
}

-- A sample review that belongs to no booking.
abbrev sample : ReviewRow
sample = record {
  id = 2;
  teacher_id = 5;
  student_id = 11;
  student_name = "Vali";
  booking_id = none;
  rating = 5;
  comment = "";
  hidden = false;
  created_at = 0;
}

abbrev shelf : Reviews
shelf = record {
  now = 100;
  next_id = 3;
  bookings = booking ∷ [];
  teachers = teacher ∷ [];
  rows = sample ∷ [];
}

abbrev trim : String → String
trim s = s

abbrev reviewed_shelf : Reviews
reviewed_shelf = (create trim len 10 1 (pos 2) "late" shelf).1

-- (4.7 · 4 + 2) / 5 = 4.16, and hidden it is 4.7 again.
ratings :
    (reviewed_shelf.teachers ≡ record teacher { rating = 42; review_count = 5 } ∷ [])
    × ((hide 3 reviewed_shelf).1.teachers ≡ teacher ∷ [])
unfolding create hide create_review
ratings = (refl, refl)

no_second_review : (create trim len 10 1 (pos 5) "" reviewed_shelf).0 ≡ err already_reviewed
unfolding create create_review
no_second_review = refl

-- A page so far that the offset no longer fits: refused by the database, or the first page again.
far_pages :
    ((list_for_teacher "dilnoza" (pos 214748366) (pos 10) shelf).0 ≡ err negative_offset)
    × ((list_for_teacher "dilnoza" (pos 268435457) (pos 16) shelf).0 ≡ ok (sample ∷ [], 1))
unfolding list_for_teacher
far_pages = (refl, refl)

shelf-IsSound : IsSound shelf
unfolding stars select times
shelf-IsSound = record {
  owner = λ i. 5;
  good = ((refl, omega arith, tt, omega arith, omega arith), tt);
  fair = (record { number = refl; mean = refl }, tt);
  single = λ b. omega arith;
}

create_decides_example :
    ((c : Allowed trim len 10 1 (pos 2) "late" shelf) × Stored trim len 10 1 (pos 2) "late" shelf c)
    ⊎ (Refused trim len 10 1 (pos 2) "late" shelf × ¬ Allowed trim len 10 1 (pos 2) "late" shelf)
create_decides_example = create_decides trim len 10 1 (pos 2) "late" shelf

calls : Reach trim len shelf (hide 3 reviewed_shelf).1
calls = next (next here (created 10 1 (pos 2) "late" shelf)) (hidden 3 reviewed_shelf)

Reach-IsSound_example : IsSound (hide 3 reviewed_shelf).1
Reach-IsSound_example = Reach-IsSound trim len calls shelf-IsSound

-- The review that was created.
abbrev late_review : ReviewRow
late_review = record {
  id = 3;
  teacher_id = 5;
  student_id = 10;
  student_name = "Ali";
  booking_id = some 1;
  rating = 2;
  comment = "late";
  hidden = false;
  created_at = 100;
}

reviewed_shelf-IsSound : IsSound reviewed_shelf
reviewed_shelf-IsSound =
    Reach-IsSound trim len (next here (created 10 1 (pos 2) "late" shelf)) shelf-IsSound

hide_undone_example :
    ((hide 3 reviewed_shelf).1.rows ≡ sample ∷ record late_review { hidden = true } ∷ [])
    × All (IsFair (hide 3 reviewed_shelf).1.rows) (hide 3 reviewed_shelf).1.teachers
    × ((hide 3 (hide 3 reviewed_shelf).1).1 ≡ (hide 3 reviewed_shelf).1)
    × ((unhide 3 (hide 3 reviewed_shelf).1).1 ≡ reviewed_shelf)
unfolding create create_review
hide_undone_example =
    hide_undone 3 late_review (record teacher { rating = 42; review_count = 5 }) reviewed_shelf
      reviewed_shelf-IsSound refl refl (λ e. absurd (cc), (λ e. refl, tt)) refl
